-- ===== src/Heap/Coalesce.antt =====
-- What the merging of free neighbours leaves as it was.
use spike_os.Prelude.{
  ℕ, ◌+◌, ◌≡◌, refl, true, false, ◌&&◌, none, some, arith, ◌==◌, ltb, if◌then◌else◌, Bool-cases,
  Option-cases, inl, inr, ◌∙◌, sym, ap, ◌⊎◌,
}
use spike_os.Heap.{
  Block, Heap, header, heap_start, heap_end, block_at, is_free_block, merge_into, coalesce_next,
  coalesce_prev, pred_of,
}
use spike_os.Heap.Merge.{pred_of-lookup}
use spike_os.Heap.Join.{block-merge_into, used-merge_into, end-merge_into, merge_into-IsHeap}
use spike_os.Heap.Links.{IsHeap, in_use, used}

-- The same blocks are in use, and the block at `x` is free.
pub record Same (x : ℕ) (h h' : Heap) : Type 0 where
  pub valid : IsHeap h'
  pub block : Block
  pub found : block_at h' x ≡ some block
  pub still_free : block.free ≡ true
  pub same_used : (y : ℕ) → used h' y ≡ used h y
  pub same_end : heap_end h' ≡ heap_end h

module _ (x : ℕ) (b c : Block) (h : Heap) (valid : IsHeap h) (at_x : block_at h x ≡ some b)
    (at_n : block_at h (x + header + b.size) ≡ some c) (free_x : b.free ≡ true)
    (free_n : c.free ≡ true) where
  pub merge_into-Same : Same x h (merge_into x (x + header + b.size) h)
  merge_into-Same = record {
    valid = merge_into-IsHeap x b c h valid at_x at_n free_n;
    block = record b { size = b.size + header + c.size };
    found =
        let on : (x == x) ≡ true = ground arith in
        block-merge_into x b c h valid at_x at_n free_n x ∙ rw on refl;
    still_free = free_x;
    same_used = λ y. used-merge_into x b c h valid at_x at_n free_n y ∙ free_block_used y;
    same_end = end-merge_into x b c h valid at_x at_n free_n;
  }
    where
      free_block_used :
          (y : ℕ)
          → (if x == y
              then in_use (some (record b { size = b.size + header + c.size }))
              else used h y)
            ≡ used h y
      free_block_used y = elim (Bool-cases (x == y)) [
        | inl t ↦
            let p : x ≡ y = ground (arith, t) in
            rw t (rw free_x (sym (ap (λ z. used h z) (sym p) ∙ ap in_use at_x ∙ rw free_x refl)))
        | inr f ↦ rw f refl
      ]

pub Same-refl :
    (x : ℕ) (b : Block) (h : Heap) → IsHeap h → block_at h x ≡ some b → b.free ≡ true → Same x h h
Same-refl x b h valid at_x free = record {
  valid = valid;
  block = b;
  found = at_x;
  still_free = free;
  same_used = λ y. refl;
  same_end = refl;
}

-- A free block absorbs the one behind it, if that is free.
pub coalesce_next-Same :
    (x : ℕ) (b : Block) (h : Heap)
    → IsHeap h
    → block_at h x ≡ some b
    → b.free ≡ true
    → Same x h (coalesce_next x h)
unfolding coalesce_next
coalesce_next-Same x b h valid at_x free = rw at_x (
    cases
      (Bool-cases (
        ltb (x + header + b.size) (heap_end h) && is_free_block (block_at h (x + header + b.size))))
      (Option-cases (block_at h (x + header + b.size))))
  where
    n : ℕ
    n = x + header + b.size

    cases :
        ((ltb n (heap_end h) && is_free_block (block_at h n)) ≡ true)
          ⊎ ((ltb n (heap_end h) && is_free_block (block_at h n)) ≡ false)
        → (block_at h n ≡ none) ⊎ ((c : Block) × (block_at h n ≡ some c))
        → Same x h
            (if ltb n (heap_end h) && is_free_block (block_at h n) then merge_into x n h else h)
    cases (inr f) o = rw f (Same-refl x b h valid at_x free)
    cases (inl t) (inl o) = absurd (ground (arith, t, ap is_free_block o))
    cases (inl t) (inr (c, o)) =
        rw t (merge_into-Same x b c h valid at_x o free (ground (arith, t, ap is_free_block o)))

-- A free block is absorbed by the one in front, if that is free.
pub record Quiet (h h' : Heap) : Type 0 where
  pub quiet_valid : IsHeap h'
  pub quiet_used : (y : ℕ) → used h' y ≡ used h y
  pub quiet_end : heap_end h' ≡ heap_end h

pub coalesce_prev-Quiet :
    (x : ℕ) (b : Block) (h : Heap)
    → IsHeap h
    → block_at h x ≡ some b
    → b.free ≡ true
    → Quiet h (coalesce_prev x h)
unfolding coalesce_prev
coalesce_prev-Quiet x b h valid at_x free = elim (Option-cases (pred_of heap_start h.blocks x)) [
  | inl o ↦
      rw (o, coalesce_prev) record { quiet_valid = valid; quiet_used = λ y. refl; quiet_end = refl }
  | inr (p, o) ↦
      rw (o, coalesce_prev)
        (before p (pred_of-lookup heap_start h.blocks x p b at_x o)
          (Bool-cases (is_free_block (block_at h p))))
]
  where
    before :
        (p : ℕ)
        → (c : Block) × (block_at h p ≡ some c) × (p + header + c.size ≡ x)
        → (is_free_block (block_at h p) ≡ true) ⊎ (is_free_block (block_at h p) ≡ false)
        → Quiet h (if is_free_block (block_at h p) then merge_into p x h else h)
    before p (c, at_p, end) (inr f) =
        rw f record { quiet_valid = valid; quiet_used = λ y. refl; quiet_end = refl }
    before p (c, at_p, end) (inl t) =
        let s =
          merge_into-Same p c b h valid at_p (ap (λ z. block_at h z) end ∙ at_x)
            (ground (arith, t, ap is_free_block at_p)) free in
        let q : Quiet h (merge_into p (p + header + c.size) h) = record {
          quiet_valid = s.valid;
          quiet_used = s.same_used;
          quiet_end = s.same_end;
        } in
        rw t (rw (← end) q)
