-- ===== src/Heap/Walk.antt =====
-- What a walk over the blocks finds behind each change of them.
use spike_os.Prelude.{
  ℕ, ◌+◌, ◌-◌, ◌≤◌, ◌<◌, ◌≡◌, refl, Bool, true, false, Option, none, some, List, [], ◌∷◌, arith,
  ◌==◌, if◌then◌else◌, Bool-cases, inl, inr, ap, ◌⊎◌, dec_lt,
}
use spike_os.Heap.{Block, header, lookup, walk_end, set_free, split_block}

-- Nothing stands below the walk, and a block ends before the walk does.
pub lookup-below : (base : ℕ) (bs : List Block) (x : ℕ) → x < base → lookup base bs x ≡ none
unfolding lookup
lookup-below base [] x lt = refl
lookup-below base (b ∷ bs) x lt = ground (arith, lookup-below (base + header + b.size) bs x)

pub lookup-ge :
    (base : ℕ) (bs : List Block) (x : ℕ) (b : Block) → lookup base bs x ≡ some b → base ≤ x
lookup-ge base bs x b h = elim (dec_lt x base) [
  | yes lt ↦ absurd (ground (arith, h, lookup-below base bs x lt))
  | no ge ↦ omega arith
]

pub walk_end-ge : (base : ℕ) (bs : List Block) → base ≤ walk_end base bs
unfolding walk_end
walk_end-ge base [] = omega arith
walk_end-ge base (b ∷ bs) = omega (arith, walk_end-ge (base + header + b.size) bs)

pub lookup-end :
    (base : ℕ) (bs : List Block) (x : ℕ) (b : Block)
    → lookup base bs x ≡ some b
    → x + header + b.size ≤ walk_end base bs
unfolding lookup walk_end
lookup-end base [] x b h = absurd (ground (arith, h))
lookup-end base (c ∷ bs) x b h = elim (Bool-cases (base == x)) [
  | inl t ↦
      let same : c ≡ b = ground (arith, h) in
      let e : c.size ≡ b.size = ap (λ (q : Block). q.size) same in
      ground (arith, walk_end-ge (base + header + c.size) bs, e)
  | inr f ↦ lookup-end (base + header + c.size) bs x b (ground (arith, h))
]

-- What the flags of one block say.
abbrev pub with_free : Bool → Option Block → Option Block
with_free f none = none
with_free f (some b) = some (record b { free = f })

pub lookup-set_free :
    (base : ℕ) (bs : List Block) (x y : ℕ) (f : Bool)
    → lookup base (set_free base bs x f) y
      ≡ (if x == y then with_free f (lookup base bs y) else lookup base bs y)
unfolding lookup set_free
lookup-set_free base [] x y f = ground arith
lookup-set_free base (b ∷ bs) x y f =
    go (Bool-cases (base == x)) (Bool-cases (base == y))
      (lookup-set_free (base + header + b.size) bs x y f)
  where
    next : ℕ
    next = base + header + b.size

    go :
        ((base == x) ≡ true) ⊎ ((base == x) ≡ false)
        → ((base == y) ≡ true) ⊎ ((base == y) ≡ false)
        → lookup next (set_free next bs x f) y
          ≡ (if x == y then with_free f (lookup next bs y) else lookup next bs y)
        → lookup base (set_free base (b ∷ bs) x f) y
          ≡ (if x == y then with_free f (lookup base (b ∷ bs) y) else lookup base (b ∷ bs) y)
    go (inl t) (inl t') ih = let xy : (x == y) ≡ true = ground arith in rw t (rw (xy, t') refl)
    go (inl t) (inr f') ih = let xy : (x == y) ≡ false = ground arith in rw t (rw (xy, f') refl)
    go (inr g) (inl t') ih = let xy : (x == y) ≡ false = ground arith in rw g (rw (xy, t') refl)
    go (inr g) (inr f') ih = rw g (rw f' ih)

pub walk_end-set_free :
    (base : ℕ) (bs : List Block) (x : ℕ) (f : Bool)
    → walk_end base (set_free base bs x f) ≡ walk_end base bs
unfolding walk_end set_free
walk_end-set_free base [] x f = refl
walk_end-set_free base (b ∷ bs) x f =
    ground (arith, walk_end-set_free (base + header + b.size) bs x f)

-- The two parts of a split block.
pub lookup-split_block :
    (base : ℕ) (bs : List Block) (x y req : ℕ) (b : Block)
    → lookup base bs x ≡ some b
    → req + header ≤ b.size
    → lookup base (split_block base bs x req) y ≡ (
        if x == y
        then some (record b { size = req })
        else if x + header + req == y
        then some (record { size = b.size - req - header; free = false })
        else lookup base bs y)
unfolding lookup split_block
lookup-split_block base [] x y req b h le = absurd (ground (arith, h))
lookup-split_block base (c ∷ bs) x y req b h le =
    go (Bool-cases (base == x)) (Bool-cases (base == y))
      (λ h'. lookup-split_block (base + header + c.size) bs x y req b h' le)
  where
    next : ℕ
    next = base + header + c.size

    Parts : Option Block → Option Block → Type 0
    Parts found old = found ≡ (
        if x == y
        then some (record b { size = req })
        else if x + header + req == y
        then some (record { size = b.size - req - header; free = false })
        else old)

    go :
        ((base == x) ≡ true) ⊎ ((base == x) ≡ false)
        → ((base == y) ≡ true) ⊎ ((base == y) ≡ false)
        → (lookup next bs x ≡ some b
            → Parts (lookup next (split_block next bs x req) y) (lookup next bs y))
        → Parts (lookup base (split_block base (c ∷ bs) x req) y) (lookup base (c ∷ bs) y)
    go (inl t) (inl t') ih =
        let same : c ≡ b = ground (arith, h) in
        let xy : (x == y) ≡ true = ground arith in
        rw t (rw (xy, t') (ap (λ (q : Block). some (record q { size = req })) same))
    go (inl t) (inr f') ih =
        let same : c ≡ b = ground (arith, h) in
        let size : c.size ≡ b.size = ap (λ (q : Block). q.size) same in
        let at : base ≡ x = ground arith in
        let xy : (x == y) ≡ false = ground arith in
        let end : base + header + req + header + (c.size - req - header) ≡ base + header + c.size =
          omega (arith, size) in
        rw t (rw (xy, f', end) (rw size (rw at refl)))
    go (inr g) (inl t') ih =
        let above : base + header + c.size ≤ x = lookup-ge next bs x b (ground (arith, h)) in
        let xy : (x == y) ≡ false = ground arith in
        let xy' : (x + header + req == y) ≡ false = ground arith in rw g (rw (xy, xy', t') refl)
    go (inr g) (inr f') ih = rw g (rw f' (ih (ground (arith, h))))

-- No block begins inside another.
pub lookup-inside :
    (base : ℕ) (bs : List Block) (x y : ℕ) (b : Block)
    → lookup base bs x ≡ some b
    → x < y
    → y < x + header + b.size
    → lookup base bs y ≡ none
unfolding lookup
lookup-inside base [] x y b h lt lt' = refl
lookup-inside base (c ∷ bs) x y b h lt lt' = elim (Bool-cases (base == x)) [
  | inl t ↦
      let same : c ≡ b = ground (arith, h) in
      let size : c.size ≡ b.size = ap (λ (q : Block). q.size) same in
      let apart : (base == y) ≡ false = ground arith in
      rw apart (lookup-below (base + header + c.size) bs y (ground (arith, size)))
  | inr g ↦
      let above : base + header + c.size ≤ x =
        lookup-ge (base + header + c.size) bs x b (ground (arith, h)) in
      let apart : (base == y) ≡ false = ground arith in
      rw apart (lookup-inside (base + header + c.size) bs x y b (ground (arith, h)) lt lt')
]
