-- ===== src/Heap/Append.antt =====
-- What a walk finds in a heap with a longer or another last block.
use spike_os.Prelude.{
  ℕ, ◌+◌, ◌≡◌, refl, true, false, Option, none, some, List, [], ◌∷◌, ◌++◌, arith, ◌==◌,
  if◌then◌else◌, Bool-cases, inl, inr, ap,
}
use spike_os.Heap.{Block, header, lookup, walk_end, last_free, extend_last}
use spike_os.Heap.Walk.{lookup-ge, walk_end-ge}

-- A block behind all others.
pub lookup-append :
    (base : ℕ) (bs : List Block) (n : Block) (y : ℕ)
    → lookup base (bs ++ (n ∷ [])) y ≡ (if walk_end base bs == y then some n else lookup base bs y)
unfolding lookup walk_end
lookup-append base [] n y = refl
lookup-append base (b ∷ bs) n y = elim (Bool-cases (base == y)) [
  | inl t ↦
      let off : (walk_end (base + header + b.size) bs == y) ≡ false =
        ground (arith, walk_end-ge (base + header + b.size) bs) in
      rw (t, off) refl
  | inr f ↦ rw f (lookup-append (base + header + b.size) bs n y)
]

pub walk_end-append :
    (base : ℕ) (bs : List Block) (n : Block)
    → walk_end base (bs ++ (n ∷ [])) ≡ walk_end base bs + header + n.size
unfolding walk_end
walk_end-append base [] n = refl
walk_end-append base (b ∷ bs) n = walk_end-append (base + header + b.size) bs n

-- The last block, if it is free.
pub last_free-lookup :
    (base : ℕ) (bs : List Block) (x : ℕ)
    → last_free base bs ≡ some x
    → (b : Block) × (lookup base bs x ≡ some b) × (b.free ≡ true)
unfolding last_free lookup
last_free-lookup base [] x h = absurd (ground (arith, h))
last_free-lookup base (b ∷ []) x h = elim (Bool-cases b.free) [
  | inl t ↦
      let e : some base ≡ some x = rw t at h in
      let on : (base == x) ≡ true = ground (arith, e) in (b, rw on refl, t)
  | inr f ↦ absurd (ground (arith, h, f))
]
last_free-lookup base (b ∷ c ∷ bs) x h =
    let r = last_free-lookup (base + header + b.size) (c ∷ bs) x h in
    let off : (base == x) ≡ false =
      ground (arith, lookup-ge (base + header + b.size) (c ∷ bs) x r.0 r.1) in
    (r.0, rw off r.1, r.2)

-- The last block grows.
abbrev pub grown : ℕ → Option Block → Option Block
grown bytes none = none
grown bytes (some b) = some (record b { size = b.size + bytes })

pub lookup-extend_last :
    (base : ℕ) (bs : List Block) (x bytes : ℕ) (b : Block) (y : ℕ)
    → last_free base bs ≡ some x
    → lookup base bs x ≡ some b
    → lookup base (extend_last bs bytes) y
      ≡ (if x == y then some (record b { size = b.size + bytes }) else lookup base bs y)
unfolding lookup last_free extend_last
lookup-extend_last base [] x bytes b y h e = absurd (ground (arith, h))
lookup-extend_last base (c ∷ []) x bytes b y h e = elim (Bool-cases c.free) [
  | inr f ↦ absurd (ground (arith, h, f))
  | inl t ↦
      let p : base ≡ x = ground (arith, rw t at h) in
      let same : some c ≡ some b = let on : (base == x) ≡ true = ground (arith, p) in rw on at e in
      rw (← p)
        (elim (Bool-cases (base == y)) [ inl u ↦ rw u (ap (grown bytes) same) | inr v ↦ rw v refl ])
]
lookup-extend_last base (c ∷ d ∷ bs) x bytes b y h e =
    let r = last_free-lookup (base + header + c.size) (d ∷ bs) x h in
    let off : (base == x) ≡ false =
      ground (arith, lookup-ge (base + header + c.size) (d ∷ bs) x r.0 r.1) in
    let ih = lookup-extend_last (base + header + c.size) (d ∷ bs) x bytes b y h (rw off at e) in
    elim (Bool-cases (base == y)) [
      | inl u ↦ let xy : (x == y) ≡ false = ground arith in rw (u, xy) refl
      | inr v ↦ rw v ih
    ]

pub walk_end-extend_last :
    (base : ℕ) (bs : List Block) (x bytes : ℕ)
    → last_free base bs ≡ some x
    → walk_end base (extend_last bs bytes) ≡ walk_end base bs + bytes
unfolding walk_end last_free extend_last
walk_end-extend_last base [] x bytes h = absurd (ground (arith, h))
walk_end-extend_last base (c ∷ []) x bytes h = omega arith
walk_end-extend_last base (c ∷ d ∷ bs) x bytes h =
    walk_end-extend_last (base + header + c.size) (d ∷ bs) x bytes h
