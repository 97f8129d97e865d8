-- ===== src/Space/Removal.antt =====
-- What adding and removing a region does to the list of regions.
use spike_os.Prelude.{
  ℕ, ◌≤◌, ◌≡◌, refl, ◌&&◌, ◌==◌, Option, none, some, List, [], ◌∷◌, ◌++◌, arith, ap, sym, inl, inr,
  Bool-cases, ◌⊎◌, length,
}
use spike_os.Space.{Vma, keep_region, remove_region}
use spike_os.Space.Regions.{InBounds, Apart, Bounded, Clear, Separate}

-- A region behind the others.
pub Bounded-append :
    (vs : List Vma) (v : Vma) → Bounded vs → InBounds v.base v.size → Bounded (vs ++ (v ∷ []))
Bounded-append [] v b h = (h, tt)
Bounded-append (u ∷ vs) v (b, bs) h = (b, Bounded-append vs v bs h)

pub Clear-append :
    (addr len : ℕ) (vs : List Vma) (v : Vma)
    → Clear addr len vs
    → Apart addr len v
    → Clear addr len (vs ++ (v ∷ []))
Clear-append addr len [] v c h = (h, tt)
Clear-append addr len (u ∷ vs) v (c, cs) h = (c, Clear-append addr len vs v cs h)

pub Apart-sym : (u v : Vma) → Apart v.base v.size u → Apart u.base u.size v
Apart-sym u v (inl h) = inr h
Apart-sym u v (inr h) = inl h

pub Separate-append :
    (vs : List Vma) (v : Vma) → Separate vs → Clear v.base v.size vs → Separate (vs ++ (v ∷ []))
Separate-append [] v s c = (tt, tt)
Separate-append (u ∷ vs) v (c, s) (a, cs) =
    (Clear-append u.base u.size vs v c (Apart-sym u v a), Separate-append vs v s cs)

-- The regions that are left when one is removed.
pub keep_region-some :
    (v : Vma) (o : Option (List Vma)) (rest : List Vma)
    → keep_region v o ≡ some rest
    → (vs : List Vma) × (o ≡ some vs) × (rest ≡ v ∷ vs)
unfolding keep_region
keep_region-some v none rest h = cc
keep_region-some v (some vs) rest h = (vs, refl, cc)

-- Either the first region is the one, or it is kept and the one is among the others.
pub removed :
    (addr len : ℕ) (v : Vma) (vs rest : List Vma)
    → remove_region addr len (v ∷ vs) ≡ some rest
    → (rest ≡ vs) ⊎ ((vs' : List Vma) × (remove_region addr len vs ≡ some vs') × (rest ≡ v ∷ vs'))
unfolding remove_region
removed addr len v vs rest h = elim (Bool-cases ((v.base == addr) && (v.size == len))) [
  | inl this ↦ let e : vs ≡ rest = cc (rw this at h) in inl (sym e)
  | inr other ↦ inr (keep_region-some v (remove_region addr len vs) rest (rw other at h))
]

pub remove_region-Bounded :
    (addr len : ℕ) (vs rest : List Vma)
    → Bounded vs
    → remove_region addr len vs ≡ some rest
    → Bounded rest
unfolding remove_region
remove_region-Bounded addr len [] rest b h = cc
remove_region-Bounded addr len (v ∷ vs) rest (b, bs) h = elim (removed addr len v vs rest h) [
  | inl e ↦ rw e bs
  | inr (vs', e, e') ↦ rw e' (b, remove_region-Bounded addr len vs vs' bs e)
]

pub remove_region-Clear :
    (addr len a n : ℕ) (vs rest : List Vma)
    → Clear a n vs
    → remove_region addr len vs ≡ some rest
    → Clear a n rest
unfolding remove_region
remove_region-Clear addr len a n [] rest c h = cc
remove_region-Clear addr len a n (v ∷ vs) rest (c, cs) h = elim (removed addr len v vs rest h) [
  | inl e ↦ rw e cs
  | inr (vs', e, e') ↦ rw e' (c, remove_region-Clear addr len a n vs vs' cs e)
]

pub remove_region-Separate :
    (addr len : ℕ) (vs rest : List Vma)
    → Separate vs
    → remove_region addr len vs ≡ some rest
    → Separate rest
unfolding remove_region
remove_region-Separate addr len [] rest s h = cc
remove_region-Separate addr len (v ∷ vs) rest (c, s) h = elim (removed addr len v vs rest h) [
  | inl e ↦ rw e s
  | inr (vs', e, e') ↦ rw e' (
    remove_region-Clear addr len v.base v.size vs vs' c e,
    remove_region-Separate addr len vs vs' s e,
  )
]

pub length-remove_region :
    (addr len : ℕ) (vs rest : List Vma)
    → remove_region addr len vs ≡ some rest
    → length rest ≤ length vs
unfolding remove_region
length-remove_region addr len [] rest h = cc
length-remove_region addr len (v ∷ vs) rest h = elim (removed addr len v vs rest h) [
  | inl e ↦ omega (arith, ap (length {A = Vma}) e)
  | inr (vs', e, e') ↦
      omega (arith, ap (length {A = Vma}) e', length-remove_region addr len vs vs' e)
]
