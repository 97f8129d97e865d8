-- ===== src/Space/Regions.antt =====
-- The regions of an address space: bounds, and that they are apart.
use Prim.Native.Nat.{bit_and}
use spike_os.Prelude.{
  ℕ, zero, suc, ◌+◌, ◌%◌, ◌^◌, ◌≤◌, ◌<◌, ◌≡◌, refl, false, ◌==◌, Option, none, some, List, [], ◌∷◌,
  arith, ◌∙◌, inl, inr, Bool-cases, ◌⊎◌, dec_lt,
}
use spike_os.Space.{
  Vma, mmap_base, user_stack, page_up, overlaps, find_overlap, find_gap, check_gap, fixed_place,
  place,
}

-- In the part of the address space for mappings, on whole pages.
pub record InBounds (addr len : ℕ) : Type 0 where
  pub above : mmap_base ≤ addr
  pub below : addr + len ≤ user_stack
  pub whole : addr % 4096 ≡ 0

abbrev pub Apart : (addr len : ℕ) → Vma → Type 0
Apart addr len v = (v.base + v.size ≤ addr) ⊎ (addr + len ≤ v.base)

abbrev pub Bounded : List Vma → Type 0
Bounded [] = Unit {0}
Bounded (v ∷ vs) = InBounds v.base v.size × Bounded vs

abbrev pub Clear : (addr len : ℕ) → List Vma → Type 0
Clear addr len [] = Unit {0}
Clear addr len (v ∷ vs) = Apart addr len v × Clear addr len vs

abbrev pub Separate : List Vma → Type 0
Separate [] = Unit {0}
Separate (v ∷ vs) = Clear v.base v.size vs × Separate vs

Apart-of_overlaps :
    (addr len : ℕ) (v : Vma)
    → addr + len < 2 ^ 32
    → InBounds v.base v.size
    → overlaps addr len v ≡ false
    → Apart addr len v
unfolding overlaps
Apart-of_overlaps addr len v narrow b h = elim (dec_lt addr (v.base + v.size)) [
  | yes lt ↦ inr (ground (arith, b.below))
  | no ge ↦ inl (omega arith)
]

pub find_overlap-Clear :
    (addr len : ℕ) (vs : List Vma)
    → addr + len < 2 ^ 32
    → Bounded vs
    → find_overlap addr len vs ≡ none
    → Clear addr len vs
unfolding find_overlap
find_overlap-Clear addr len [] narrow b h = tt
find_overlap-Clear addr len (v ∷ vs) narrow (b, bs) h = elim (Bool-cases (overlaps addr len v)) [
  | inl o ↦ cc (rw o at h)
  | inr a ↦ (
    Apart-of_overlaps addr len v narrow b a,
    find_overlap-Clear addr len vs narrow bs (rw a at h),
  )
]

pub find_overlap-InBounds :
    (addr len : ℕ) (vs : List Vma) (v : Vma)
    → Bounded vs
    → find_overlap addr len vs ≡ some v
    → InBounds v.base v.size × (addr < v.base + v.size)
unfolding find_overlap overlaps
find_overlap-InBounds addr len [] v b h = cc
find_overlap-InBounds addr len (u ∷ vs) v (b, bs) h = elim (Bool-cases (overlaps addr len u)) [
  | inl o ↦ let e : u ≡ v = cc (rw o at h) in rw (← e) (b, ground (arith, b.below))
  | inr a ↦ find_overlap-InBounds addr len vs v bs (rw a at h)
]

-- A gap that was found is clear of all regions.
find_gap-InBounds :
    (attempts addr len : ℕ) (vs : List Vma) (a : ℕ)
    → Bounded vs
    → mmap_base ≤ addr
    → addr % 4096 ≡ 0
    → find_gap attempts addr len vs ≡ some a
    → (mmap_base ≤ a) × (a % 4096 ≡ 0) × (find_overlap a len vs ≡ none)
unfolding find_gap page_up
find_gap-InBounds zero addr len vs a b from whole h = cc
find_gap-InBounds (suc attempts) addr len vs a b from whole h =
    go (find_overlap addr len vs) refl h (λ addr. find_gap-InBounds attempts addr len vs a b)
  where
    go :
        (o : Option Vma)
        → find_overlap addr len vs ≡ o
        → elim o [
          | none ↦ some addr
          | some v ↦ find_gap attempts (page_up ((v.base + v.size) % 2 ^ 32)) len vs
        ]
          ≡ some a
        → ((addr : ℕ)
            → mmap_base ≤ addr
            → addr % 4096 ≡ 0
            → find_gap attempts addr len vs ≡ some a
            → (mmap_base ≤ a) × (a % 4096 ≡ 0) × (find_overlap a len vs ≡ none))
        → (mmap_base ≤ a) × (a % 4096 ≡ 0) × (find_overlap a len vs ≡ none)
    go none e h later = let s : addr ≡ a = cc h in rw (← s) (from, whole, e)
    go (some v) e h later =
        let (b', lt) = find_overlap-InBounds addr len vs v b e in
        later (page_up ((v.base + v.size) % 2 ^ 32)) (omega (arith, b'.below)) (omega arith) h

check_gap-some :
    (len : ℕ) (o : Option ℕ) (a : ℕ)
    → len < 2 ^ 32
    → check_gap len o ≡ some a
    → (o ≡ some a) × (a + len ≤ user_stack)
unfolding check_gap
check_gap-some len none a narrow h = cc
check_gap-some len (some x) a narrow h = (ground arith, ground arith)

fixed_place-some :
    (addr len : ℕ) (vs : List Vma) (a : ℕ)
    → len < 2 ^ 32
    → fixed_place addr len vs ≡ some a
    → InBounds a len × (find_overlap a len vs ≡ none)
unfolding fixed_place
fixed_place-some addr len vs a narrow h = go (find_overlap addr len vs) refl (ground arith)
  where
    go :
        (o : Option Vma)
        → find_overlap addr len vs ≡ o
        → (o ≡ none)
          × (addr ≡ a)
          × (addr % 4096 ≡ 0)
          × (mmap_base ≤ addr)
          × (addr + len ≤ user_stack)
        → InBounds a len × (find_overlap a len vs ≡ none)
    go o e (n, same, whole, above, below) =
        rw (← same) (record { above = above; below = below; whole = whole }, e ∙ n)

-- Where `place` puts a region it is in bounds and clear of the others.
pub place-Clear :
    (flags addr len : ℕ) (vs : List Vma) (a : ℕ)
    → len < 2 ^ 32
    → Bounded vs
    → place flags addr len vs ≡ some a
    → InBounds a len × Clear a len vs
unfolding place
place-Clear flags addr len vs a narrow b h = elim (Bool-cases (bit_and flags 8 == 0)) [
  | inl any ↦
      let (e, below) = check_gap-some len (find_gap 1000 mmap_base len vs) a narrow (rw any at h) in
      let (above, whole, free) = find_gap-InBounds 1000 mmap_base len vs a b (omega arith) refl e in
      (
        record { above = above; below = below; whole = whole },
        find_overlap-Clear a len vs (omega arith) b free,
      )
  | inr fixed ↦
      let (bounds, free) = fixed_place-some addr len vs a narrow (rw fixed at h) in
      (bounds, find_overlap-Clear a len vs (omega (arith, bounds.below)) b free)
]
