-- ===== src/Heap/Free.antt =====
-- What `kfree` does to the heap.
use spike_os.Prelude.{
  ℕ, ◌+◌, ◌-◌, ◌%◌, ◌≤◌, ◌≡◌, refl, true, false, ◌||◌, none, some, arith, ◌==◌, leb, ltb,
  if◌then◌else◌, Bool-cases, inl, inr, ◌∙◌, sym, ap, ◌⊎◌,
}
use spike_os.Heap.{
  Block, Heap, header, heap_start, heap_end, block_at, is_free_block, size_of, free_list_insert,
  coalesce_next, coalesce_prev, free_block, kfree,
}
use spike_os.Heap.Walk.{lookup-ge, lookup-end, walk_end-set_free, with_free}
use spike_os.Heap.Links.{
  IsHeap, one_if, count, in_use, used, block-free_list_insert, count-free_list_insert,
}
use spike_os.Heap.Coalesce.{coalesce_next-Same, coalesce_prev-Quiet}

-- The heap `h'` is `h` with the block at `x` no longer in use.
pub record Freed (x : ℕ) (h h' : Heap) : Type 0 where
  pub well_formed : IsHeap h'
  pub now_used : (y : ℕ) → used h' y ≡ (if x == y then none else used h y)
  pub same_end : heap_end h' ≡ heap_end h

module _ (x : ℕ) (b : Block) (h : Heap) (valid : IsHeap h) (at_x : block_at h x ≡ some b)
    (busy : b.free ≡ false) where
  place : (y : ℕ) → (x == y) ≡ true → block_at h y ≡ some b
  place y t = let p : x ≡ y = ground (arith, t) in ap (λ z. block_at h z) (sym p) ∙ at_x

  -- The block goes to the list.
  linked-inserted :
      (y : ℕ)
      → count y (free_list_insert x h).free_list
        ≡ one_if (is_free_block (block_at (free_list_insert x h) y))
  linked-inserted y = rw (count-free_list_insert x y h) (
      rw (block-free_list_insert x y h) (elim (Bool-cases (x == y)) [
        | inl t ↦
            let is : is_free_block (block_at h y) ≡ b.free = ap is_free_block (place y t) in
            rw t (rw (place y t) (ground (arith, valid.linked y, is, busy)))
        | inr f ↦ rw f (omega (arith, valid.linked y))
      ]))

  used-inserted : (y : ℕ) → used (free_list_insert x h) y ≡ (if x == y then none else used h y)
  used-inserted y =
      rw (block-free_list_insert x y h)
        (elim (Bool-cases (x == y)) [ inl t ↦ rw t (rw (place y t) refl) | inr f ↦ rw f refl ])

  sized-inserted :
      (y : ℕ) (d : Block)
      → block_at (free_list_insert x h) y ≡ some d
      → (d.size % 16 ≡ 0) × (16 ≤ d.size) × (y % 16 ≡ 0)
  sized-inserted y d e = cases (Bool-cases (x == y)) (sym (block-free_list_insert x y h) ∙ e)
    where
      cases :
          ((x == y) ≡ true) ⊎ ((x == y) ≡ false)
          → (if x == y then with_free true (block_at h y) else block_at h y) ≡ some d
          → (d.size % 16 ≡ 0) × (16 ≤ d.size) × (y % 16 ≡ 0)
      cases (inl t) e' =
          let size : b.size ≡ d.size = ap size_of (rw (place y t) at (rw t at e')) in
          let old = valid.sized y b (place y t) in
          (ground (arith, size, old), omega (arith, size, old.1), old.2)
      cases (inr f) e' = valid.sized y d (rw f at e')

  end-inserted : heap_end (free_list_insert x h) ≡ heap_end h
  unfolding free_list_insert
  end-inserted = walk_end-set_free heap_start h.blocks x true

  inserted : IsHeap (free_list_insert x h)
  inserted = record {
    linked = linked-inserted;
    sized = sized-inserted;
    bounded = rw end-inserted valid.bounded;
    end_aligned = rw end-inserted valid.end_aligned;
  }

  kfree-inserted : Freed x h (coalesce_prev x (coalesce_next x (free_list_insert x h)))
  kfree-inserted =
      let on : (x == x) ≡ true = ground arith in
      let at_x' = block-free_list_insert x x h ∙ rw on (ap (with_free true) at_x) in
      let s =
        coalesce_next-Same x (record b { free = true }) (free_list_insert x h) inserted at_x'
          refl in
      let q =
        coalesce_prev-Quiet x s.block (coalesce_next x (free_list_insert x h)) s.valid s.found
          s.still_free in
      record {
        well_formed = q.quiet_valid;
        now_used = λ y. q.quiet_used y ∙ s.same_used y ∙ used-inserted y;
        same_end = q.quiet_end ∙ s.same_end ∙ end-inserted;
      }

free_block-Freed :
    (x : ℕ) (b : Block) (h : Heap)
    → IsHeap h
    → block_at h x ≡ some b
    → Freed x h (free_block x b h) × ((b.free ≡ true) → free_block x b h ≡ h)
unfolding free_block
free_block-Freed x b h valid e = elim (Bool-cases b.free) [
  | inl t ↦ rw t (unchanged (ap in_use e ∙ unused t), λ u. refl)
  | inr f ↦ rw f (kfree-inserted x b h valid e f, λ u. absurd (ground (arith, u)))
]
  where
    unused : b.free ≡ true → in_use (some b) ≡ none
    unused t = rw t refl

    unchanged : used h x ≡ none → Freed x h h
    unchanged u = record {
      well_formed = valid;
      now_used = λ y. elim (Bool-cases (x == y)) [
        | inl t ↦ let p : x ≡ y = ground (arith, t) in rw t (ap (λ z. used h z) (sym p) ∙ u)
        | inr f ↦ rw f refl
      ];
      same_end = refl;
    }

-- `kfree` of the data of a block of a well-formed heap takes exactly that block out of use, whatever it
-- is merged with, and keeps the heap well formed and its end; a block that is free already it leaves,
-- with the whole heap, as it is.
pub kfree-Freed :
    (x : ℕ) (b : Block) (h : Heap)
    → IsHeap h
    → block_at h x ≡ some b
    → (h' : Heap) × (kfree (x + header) h ≡ some h') × Freed x h h' × ((b.free ≡ true) → h' ≡ h)
unfolding kfree
kfree-Freed x b h valid e =
    let r = free_block-Freed x b h valid e in
    let low = lookup-ge heap_start h.blocks x b e in
    let high = lookup-end heap_start h.blocks x b e in
    let nonzero : (x + header == 0) ≡ false = ground arith in
    let back : x + header - header ≡ x = omega arith in
    let inside : (ltb x heap_start || leb (heap_end h) x) ≡ false = ground arith in
    (
      free_block x b h,
      rw (nonzero, back) (rw inside (rw e (ap (λ z. some (free_block z b h)) back))),
      r.0,
      r.1,
    )
