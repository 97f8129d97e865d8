-- ===== src/Heap/Links.antt =====
-- Well-formed heaps: the list names each free block once and nothing else.
use spike_os.Prelude.{
  ℕ, ◌+◌, ◌-◌, ◌%◌, ◌≤◌, ◌<◌, ◌≡◌, refl, Bool, true, false, Option, none, some, List, [], ◌∷◌,
  arith, ◌==◌, leb, if◌then◌else◌, Bool-cases, inl, inr, ap, ℕ_discrete,
}
use spike_os.Heap.{
  Block, Heap, heap_start, heap_end, heap_max_size, block_at, is_free_block, size_of, unlink,
  free_list_insert, free_list_remove, first_fit,
}
use spike_os.Heap.Walk.{lookup-set_free, with_free}

abbrev pub one_if : Bool → ℕ
one_if b = if b then 1 else 0

-- How often a list names `x`.
unfoldable pub count : ℕ → List ℕ → ℕ
count x [] = 0
count x (y ∷ ys) = one_if (y == x) + count x ys

count-unlink : (x y : ℕ) (xs : List ℕ) → count y (unlink x xs) ≡ count y xs - one_if (x == y)
unfolding count unlink
count-unlink x y [] = ground arith
count-unlink x y (z ∷ zs) = ground (arith, count-unlink x y zs)

pub record IsHeap (h : Heap) : Type 0 where
  pub linked : (x : ℕ) → count x h.free_list ≡ one_if (is_free_block (block_at h x))
  pub sized :
      (x : ℕ) (b : Block) → block_at h x ≡ some b → (b.size % 16 ≡ 0) × (16 ≤ b.size) × (x % 16 ≡ 0)
  pub bounded : heap_end h ≤ heap_start + heap_max_size
  pub end_aligned : heap_end h % 16 ≡ 0

-- The abstract view: the size of the block in use at `x`.
abbrev pub in_use : Option Block → Option ℕ
in_use none = none
in_use (some b) = if b.free then none else some b.size

abbrev pub used : Heap → ℕ → Option ℕ
used h x = in_use (block_at h x)

-- What an insertion and a removal change.
pub block-free_list_insert :
    (x y : ℕ) (h : Heap)
    → block_at (free_list_insert x h) y
      ≡ (if x == y then with_free true (block_at h y) else block_at h y)
unfolding free_list_insert
block-free_list_insert x y h = lookup-set_free heap_start h.blocks x y true

pub block-free_list_remove :
    (x y : ℕ) (h : Heap)
    → block_at (free_list_remove x h) y
      ≡ (if x == y then with_free false (block_at h y) else block_at h y)
unfolding free_list_remove
block-free_list_remove x y h = lookup-set_free heap_start h.blocks x y false

pub count-free_list_insert :
    (x y : ℕ) (h : Heap)
    → count y (free_list_insert x h).free_list ≡ one_if (x == y) + count y h.free_list
unfolding free_list_insert count
count-free_list_insert x y h = refl

pub count-free_list_remove :
    (x y : ℕ) (h : Heap)
    → count y (free_list_remove x h).free_list ≡ count y h.free_list - one_if (x == y)
unfolding free_list_remove
count-free_list_remove x y h = count-unlink x y h.free_list

-- The first block of the list that is large enough, or none that is.
pub data Fit (xs : List ℕ) (h : Heap) (req : ℕ) (r : Option ℕ) : Type 0 where
  fits : (x : ℕ) → 1 ≤ count x xs → req ≤ size_of (block_at h x) → r ≡ some x → Fit xs h req r
  too_small : ((x : ℕ) → 1 ≤ count x xs → size_of (block_at h x) < req) → r ≡ none → Fit xs h req r

pub first_fit-Fit : (xs : List ℕ) (h : Heap) (req : ℕ) → Fit xs h req (first_fit xs h req)
unfolding first_fit count
first_fit-Fit [] h req = too_small (λ x le. absurd (omega arith)) refl
first_fit-Fit (y ∷ ys) h req = elim (Bool-cases (leb req (size_of (block_at h y)))) [
  | inl t ↦ rw t (fits y (ground arith) (ground arith) refl)
  | inr f ↦ rw f (later (first_fit-Fit ys h req) f)
]
  where
    later :
        Fit ys h req (first_fit ys h req)
        → leb req (size_of (block_at h y)) ≡ false
        → Fit (y ∷ ys) h req (first_fit ys h req)
    later (fits x le big e) f = fits x (omega arith) big e
    later (too_small all e) f = too_small (λ x le. smaller x le (ℕ_discrete y x)) e
      where
        smaller : (x : ℕ) → 1 ≤ count x (y ∷ ys) → Dec (y ≡ x) → size_of (block_at h x) < req
        smaller x le (yes same) = ground (arith, f, ap (λ z. size_of (block_at h z)) same)
        smaller x le (no ne) = all x (ground (arith, le))
