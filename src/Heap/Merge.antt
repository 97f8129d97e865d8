-- ===== src/Heap/Merge.antt =====
-- What a walk finds behind a merge, where it ends, and the block in front of a block.
use spike_os.Prelude.{
  ℕ, ◌+◌, ◌≤◌, ◌≡◌, refl, true, false, Option, none, some, List, [], ◌∷◌, arith, ◌==◌, ltb,
  if◌then◌else◌, Bool-cases, Option-cases, inl, inr, ◌∙◌, ap, ◌⊎◌,
}
use spike_os.Heap.{
  Block, header, lookup, walk_end, split_block, merge_next, absorb, pred_of, size_of,
}
use spike_os.Heap.Walk.{lookup-ge, lookup-below}

-- A block that absorbs the one behind it.
pub lookup-merge_next :
    (base : ℕ) (bs : List Block) (x y : ℕ) (b n : Block)
    → lookup base bs x ≡ some b
    → lookup base bs (x + header + b.size) ≡ some n
    → lookup base (merge_next base bs x) y ≡ (
        if x == y
        then some (record b { size = b.size + header + n.size })
        else if x + header + b.size == y
        then none
        else lookup base bs y)
unfolding lookup merge_next absorb
lookup-merge_next base [] x y b n h hn = absurd (ground (arith, h))
lookup-merge_next base (c ∷ []) x y b n h hn = elim (Bool-cases (base == x)) [
  | inl t ↦ absurd (ground (arith, hn))
  | inr g ↦ absurd (ground (arith, h, g))
]
lookup-merge_next base (c ∷ m ∷ cs) x y b n h hn =
    go (Bool-cases (base == x)) (Bool-cases (base == y))
      (λ h' hn'. lookup-merge_next (base + header + c.size) (m ∷ cs) x y b n h' hn')
  where
    next : ℕ
    next = base + header + c.size

    Parts : Option Block → Option Block → Type 0
    Parts found old = found ≡ (
        if x == y
        then some (record b { size = b.size + header + n.size })
        else if x + header + b.size == y
        then none
        else old)

    go :
        ((base == x) ≡ true) ⊎ ((base == x) ≡ false)
        → ((base == y) ≡ true) ⊎ ((base == y) ≡ false)
        → (lookup next (m ∷ cs) x ≡ some b
            → lookup next (m ∷ cs) (x + header + b.size) ≡ some n
            → Parts (lookup next (merge_next next (m ∷ cs) x) y) (lookup next (m ∷ cs) y))
        → Parts (lookup base (merge_next base (c ∷ m ∷ cs) x) y) (lookup base (c ∷ m ∷ cs) y)
    go (inl t) d ih =
        let same : c ≡ b = ground (arith, h) in
        let size : c.size ≡ b.size = ap (λ (q : Block). q.size) same in
        let here : (base == x + header + b.size) ≡ false = ground arith in
        let there : (next == x + header + b.size) ≡ true = ground (arith, size) in
        let second : some m ≡ some n = rw there at (rw here at hn) in
        let size' : m.size ≡ n.size = ap size_of second in rw t (merged d same size size')
      where
        merged :
            ((base == y) ≡ true) ⊎ ((base == y) ≡ false)
            → c ≡ b
            → c.size ≡ b.size
            → m.size ≡ n.size
            → Parts
                (lookup base (record c { size = c.size + header + m.size } ∷ cs) y)
                (lookup base (c ∷ m ∷ cs) y)
        merged (inl t') same size size' =
            let xy : (x == y) ≡ true = ground arith in
            rw (xy, t')
              (ap (λ (q : Block). some (record q { size = q.size + header + m.size })) same
                ∙ ap (λ z. some (record b { size = b.size + header + z })) size')
        merged (inr f') same size size' = elim (Bool-cases (next == y)) [
          | inl u ↦
              let xy : (x == y) ≡ false = ground arith in
              let xy' : (x + header + b.size == y) ≡ true = ground (arith, size) in
              rw (f', xy, xy')
                (lookup-below (base + header + (c.size + header + m.size)) cs y (ground arith))
          | inr v ↦
              let xy : (x == y) ≡ false = ground arith in
              let xy' : (x + header + b.size == y) ≡ false = ground (arith, size) in
              rw (f', xy, xy', v) (ap (λ z. lookup z cs y) (omega arith))
        ]
    go (inr g) (inl t') ih =
        let above : base + header + c.size ≤ x = lookup-ge next (m ∷ cs) x b (ground (arith, h)) in
        let xy : (x == y) ≡ false = ground arith in
        let xy' : (x + header + b.size == y) ≡ false = ground arith in rw g (rw (xy, xy', t') refl)
    go (inr g) (inr f') ih =
        let above : base + header + c.size ≤ x = lookup-ge next (m ∷ cs) x b (ground (arith, h)) in
        rw g (rw f' (ih (ground (arith, h)) (ground (arith, hn))))

pub walk_end-merge_next :
    (base : ℕ) (bs : List Block) (x : ℕ) → walk_end base (merge_next base bs x) ≡ walk_end base bs
unfolding walk_end merge_next absorb
walk_end-merge_next base [] x = refl
walk_end-merge_next base (c ∷ []) x = ground arith
walk_end-merge_next base (c ∷ n ∷ bs) x = elim (Bool-cases (base == x)) [
  | inl t ↦ rw t (ap (λ z. walk_end z bs) (omega arith))
  | inr g ↦ rw g (walk_end-merge_next (base + header + c.size) (n ∷ bs) x)
]

pub walk_end-split_block :
    (base : ℕ) (bs : List Block) (x req : ℕ) (b : Block)
    → lookup base bs x ≡ some b
    → req + header ≤ b.size
    → walk_end base (split_block base bs x req) ≡ walk_end base bs
unfolding walk_end split_block lookup
walk_end-split_block base [] x req b h le = refl
walk_end-split_block base (c ∷ bs) x req b h le = elim (Bool-cases (base == x)) [
  | inl t ↦
      let same : c ≡ b = ground (arith, h) in
      let size : c.size ≡ b.size = ap (λ (q : Block). q.size) same in
      rw t (ap (λ z. walk_end z bs) (omega (arith, size)))
  | inr g ↦ rw g (walk_end-split_block (base + header + c.size) bs x req b (ground (arith, h)) le)
]

-- A block without one in front is the first.
pred_of-none :
    (base : ℕ) (bs : List Block) (x : ℕ) (b : Block)
    → lookup base bs x ≡ some b
    → pred_of base bs x ≡ none
    → base ≡ x
unfolding lookup pred_of
pred_of-none base [] x b h e = absurd (ground (arith, h))
pred_of-none base (c ∷ bs) x b h e = elim (Bool-cases (ltb base x)) [
  | inr f ↦ ground (arith, lookup-ge base (c ∷ bs) x b h)
  | inl t ↦ elim (Option-cases (pred_of (base + header + c.size) bs x)) [
    | inl o ↦ absurd (ground (arith, rw o at (rw t at e)))
    | inr (q, o) ↦ absurd (ground (arith, rw o at (rw t at e)))
  ]
]

-- The block in front ends where the block begins.
pub pred_of-lookup :
    (base : ℕ) (bs : List Block) (x p : ℕ) (b : Block)
    → lookup base bs x ≡ some b
    → pred_of base bs x ≡ some p
    → (c : Block) × (lookup base bs p ≡ some c) × (p + header + c.size ≡ x)
unfolding lookup pred_of
pred_of-lookup base [] x p b h e = absurd (ground (arith, h))
pred_of-lookup base (c ∷ bs) x p b h e =
    go (Bool-cases (ltb base x)) (Option-cases (pred_of (base + header + c.size) bs x))
      (λ h' e'. pred_of-lookup (base + header + c.size) bs x p b h' e')
  where
    next : ℕ
    next = base + header + c.size

    go :
        ((ltb base x) ≡ true) ⊎ ((ltb base x) ≡ false)
        → (pred_of next bs x ≡ none) ⊎ ((q : ℕ) × (pred_of next bs x ≡ some q))
        → (lookup next bs x ≡ some b
            → pred_of next bs x ≡ some p
            → (d : Block) × (lookup next bs p ≡ some d) × (p + header + d.size ≡ x))
        → (d : Block) × (lookup base (c ∷ bs) p ≡ some d) × (p + header + d.size ≡ x)
    go (inr f) o ih = absurd (ground (arith, f, e))
    go (inl t) (inr (q, o)) ih =
        let same : some q ≡ some p = rw o at (rw t at e) in
        let (d, found, end) = ih (ground (arith, h)) (o ∙ same) in
        let above : next ≤ p = lookup-ge next bs p d found in
        let apart : (base == p) ≡ false = ground arith in (d, rw apart found, end)
    go (inl t) (inl o) ih =
        let same : some base ≡ some p = rw o at (rw t at e) in
        let at : base ≡ p = ground (arith, same) in
        let first : next ≡ x = pred_of-none next bs x b (ground (arith, h)) o in
        let here : (base == p) ≡ true = ground arith in (c, rw here refl, omega (arith, first, at))
