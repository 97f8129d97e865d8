-- ===== src/Heap/Join.antt =====
-- What a block that absorbs the free block behind it does to the heap, whether it is in use or not.
use spike_os.Prelude.{
  ℕ, ◌+◌, ◌-◌, ◌%◌, ◌≤◌, ◌≡◌, refl, true, false, none, some, arith, ◌==◌, if◌then◌else◌, Bool-cases,
  inl, inr, ◌∙◌, sym, ap, ◌⊎◌,
}
use spike_os.Heap.{
  Block, Heap, header, heap_start, heap_end, block_at, set_free, is_free_block, size_of,
  free_list_remove, merge_into,
}
use spike_os.Heap.Walk.{walk_end-set_free, with_free}
use spike_os.Heap.Merge.{lookup-merge_next, walk_end-merge_next}
use spike_os.Heap.Links.{
  IsHeap, one_if, count, in_use, used, block-free_list_remove, count-free_list_remove,
}

module _ (x : ℕ) (b c : Block) (h : Heap) (valid : IsHeap h) (at_x : block_at h x ≡ some b)
    (at_n : block_at h (x + header + b.size) ≡ some c) (free_n : c.free ≡ true) where
  abbrev pub n : ℕ
  n = x + header + b.size

  abbrev pub merged : Block
  merged = record b { size = b.size + header + c.size }

  pub block-merge_into :
      (y : ℕ)
      → block_at (merge_into x n h) y
        ≡ (if x == y then some merged else if n == y then none else block_at h y)
  unfolding merge_into free_list_remove
  block-merge_into y =
      let off : (n == x) ≡ false = ground arith in
      let on : (n == n) ≡ true = ground arith in
      let x_there = block-free_list_remove n x h ∙ rw off at_x in
      let n_there = block-free_list_remove n n h ∙ rw on (ap (with_free false) at_n) in
      lookup-merge_next heap_start (set_free heap_start h.blocks n false) x y b
        (record c { free = false }) x_there n_there
      ∙ ap (λ z. if x == y then some merged else if n == y then none else z)
          (block-free_list_remove n y h)
      ∙ cases (Bool-cases (x == y)) (Bool-cases (n == y))
    where
      cases :
          ((x == y) ≡ true) ⊎ ((x == y) ≡ false)
          → ((n == y) ≡ true) ⊎ ((n == y) ≡ false)
          → (if x == y
              then some merged
              else if n == y
              then none
              else (if n == y then with_free false (block_at h y) else block_at h y))
            ≡ (if x == y then some merged else if n == y then none else block_at h y)
      cases (inl t) d = rw t refl
      cases (inr f) (inl t) = rw (f, t) refl
      cases (inr f) (inr g) = rw (f, g) refl

  at_n_place : (y : ℕ) → (n == y) ≡ true → block_at h y ≡ some c
  at_n_place y t = let p : n ≡ y = ground (arith, t) in ap (λ z. block_at h z) (sym p) ∙ at_n

  at_x_place : (y : ℕ) → (x == y) ≡ true → block_at h y ≡ some b
  at_x_place y t = let p : x ≡ y = ground (arith, t) in ap (λ z. block_at h z) (sym p) ∙ at_x

  linked-merge_into :
      (y : ℕ)
      → count y (merge_into x n h).free_list
        ≡ one_if (is_free_block (block_at (merge_into x n h) y))
  unfolding merge_into
  linked-merge_into y =
      count-free_list_remove n y h
      ∙ rw (block-merge_into y) (cases (Bool-cases (x == y)) (Bool-cases (n == y)))
    where
      cases :
          ((x == y) ≡ true) ⊎ ((x == y) ≡ false)
          → ((n == y) ≡ true) ⊎ ((n == y) ≡ false)
          → count y h.free_list - one_if (n == y)
            ≡ one_if (
                is_free_block
                  (if x == y then some merged else if n == y then none else block_at h y))
      cases (inl t) (inl u) = absurd (ground arith)
      cases (inl t) (inr u) =
          let is : is_free_block (block_at h y) ≡ b.free = ap is_free_block (at_x_place y t) in
          rw (t, u) (ground (arith, valid.linked y, is))
      cases (inr f) (inl u) =
          let is : is_free_block (block_at h y) ≡ c.free = ap is_free_block (at_n_place y u) in
          rw (f, u) (ground (arith, valid.linked y, is))
      cases (inr f) (inr u) = rw (f, u) (omega (arith, valid.linked y))

  pub used-merge_into :
      (y : ℕ) → used (merge_into x n h) y ≡ (if x == y then in_use (some merged) else used h y)
  used-merge_into y = rw (block-merge_into y) (cases (Bool-cases (x == y)) (Bool-cases (n == y)))
    where
      cases :
          ((x == y) ≡ true) ⊎ ((x == y) ≡ false)
          → ((n == y) ≡ true) ⊎ ((n == y) ≡ false)
          → in_use (if x == y then some merged else if n == y then none else block_at h y)
            ≡ (if x == y then in_use (some merged) else used h y)
      cases (inl t) u = rw t refl
      cases (inr f) (inl u) = rw (f, u) (rw (at_n_place y u) (rw free_n refl))
      cases (inr f) (inr u) = rw (f, u) refl

  sized-merge_into :
      (y : ℕ) (d : Block)
      → block_at (merge_into x n h) y ≡ some d
      → (d.size % 16 ≡ 0) × (16 ≤ d.size) × (y % 16 ≡ 0)
  sized-merge_into y d e =
      cases (Bool-cases (x == y)) (Bool-cases (n == y)) (sym (block-merge_into y) ∙ e)
    where
      cases :
          ((x == y) ≡ true) ⊎ ((x == y) ≡ false)
          → ((n == y) ≡ true) ⊎ ((n == y) ≡ false)
          → (if x == y then some merged else if n == y then none else block_at h y) ≡ some d
          → (d.size % 16 ≡ 0) × (16 ≤ d.size) × (y % 16 ≡ 0)
      cases (inl t) u e' =
          let size : b.size + header + c.size ≡ d.size = ap size_of (rw t at e') in
          let first = valid.sized x b at_x in
          let second = valid.sized n c at_n in
          (
            ground (arith, size, first, second),
            omega (arith, size, first.1),
            ground (arith, t, first),
          )
      cases (inr f) (inl u) e' = absurd (ground (arith, rw (f, u) at e'))
      cases (inr f) (inr u) e' = valid.sized y d (rw (f, u) at e')

  pub end-merge_into : heap_end (merge_into x n h) ≡ heap_end h
  unfolding merge_into free_list_remove
  end-merge_into =
      walk_end-merge_next heap_start (set_free heap_start h.blocks n false) x
      ∙ walk_end-set_free heap_start h.blocks n false

  pub merge_into-IsHeap : IsHeap (merge_into x n h)
  merge_into-IsHeap = record {
    linked = linked-merge_into;
    sized = sized-merge_into;
    bounded = rw end-merge_into valid.bounded;
    end_aligned = rw end-merge_into valid.end_aligned;
  }
