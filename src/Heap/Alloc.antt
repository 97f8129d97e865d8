-- ===== src/Heap/Alloc.antt =====
-- What taking a block from the free list does to the heap.
use spike_os.Prelude.{
  ℕ, ◌+◌, ◌-◌, ◌%◌, ◌≤◌, ◌≡◌, refl, true, false, Option, none, some, arith, ◌==◌, leb,
  if◌then◌else◌, Bool-cases, inl, inr, ◌∙◌, sym, ap, ◌⊎◌,
}
use spike_os.Heap.{
  Block, Heap, header, heap_start, heap_end, block_at, split_block, is_free_block, size_of,
  free_list_insert, free_list_remove, split_rest, take_block,
}
use spike_os.Heap.Walk.{lookup-inside, lookup-split_block, walk_end-set_free, with_free}
use spike_os.Heap.Merge.{walk_end-split_block}
use spike_os.Heap.Links.{
  IsHeap, one_if, count, in_use, used, block-free_list_insert, block-free_list_remove,
  count-free_list_insert, count-free_list_remove,
}

-- The heap `h'` is `h` with `size` bytes of the free block at `x` in use.
pub record Taken (x req : ℕ) (h h' : Heap) : Type 0 where
  pub size : ℕ
  pub enough : req ≤ size
  pub well_formed : IsHeap h'
  pub was_free : used h x ≡ none
  pub now_used : (y : ℕ) → used h' y ≡ (if x == y then some size else used h y)
  pub same_end : heap_end h' ≡ heap_end h

module _ (x req : ℕ) (b : Block) (h : Heap) (valid : IsHeap h) (at_x : block_at h x ≡ some b)
    (free : b.free ≡ true) (enough : req ≤ b.size) (aligned : req % 16 ≡ 0) (least : 16 ≤ req) where
  -- The block that is split off.
  abbrev rest_at : ℕ
  rest_at = x + header + req

  split : Heap
  split = free_list_insert rest_at (record h { blocks = split_block heap_start h.blocks x req })

  block-split :
      32 ≤ b.size - req
      → (y : ℕ)
      → block_at split y ≡ (
          if x == y
          then some (record b { size = req })
          else if rest_at == y
          then some (record { size = b.size - req - header; free = true })
          else block_at h y)
  unfolding split
  block-split le y =
      let old = lookup-split_block heap_start h.blocks x y req b at_x (omega arith) in
      block-free_list_insert rest_at y (record h { blocks = split_block heap_start h.blocks x req })
      ∙ rw old (cases (Bool-cases (x == y)) (Bool-cases (x + header + req == y)))
    where
      new : Option Block
      new =
          if x == y
          then some (record b { size = req })
          else if x + header + req == y
          then some (record { size = b.size - req - header; free = false })
          else block_at h y

      cases :
          ((x == y) ≡ true) ⊎ ((x == y) ≡ false)
          → ((x + header + req == y) ≡ true) ⊎ ((x + header + req == y) ≡ false)
          → (if x + header + req == y then with_free true new else new) ≡ (
              if x == y
              then some (record b { size = req })
              else if x + header + req == y
              then some (record { size = b.size - req - header; free = true })
              else block_at h y)
      cases (inl t) (inl t') = absurd (ground arith)
      cases (inl t) (inr f') = rw (t, f') refl
      cases (inr f) (inl t') = rw (f, t') refl
      cases (inr f) (inr f') = rw (f, f') refl

  nothing_there : 32 ≤ b.size - req → block_at h rest_at ≡ none
  nothing_there le =
      lookup-inside heap_start h.blocks x (x + header + req) b at_x (omega arith) (omega arith)

  -- The heap after the removal, as a walk sees it.
  block-taken :
      (y : ℕ)
      → block_at (take_block x req h).1 y ≡ (
          if leb 32 (b.size - req)
          then (if x == y
              then some (record { size = req; free = false })
              else if rest_at == y
              then some (record { size = b.size - req - header; free = true })
              else block_at h y)
          else if x == y
          then some (record { size = b.size; free = false })
          else block_at h y)
  unfolding take_block split_rest split
  block-taken y =
      block-free_list_remove x y (split_rest x req h)
      ∙ rw at_x (cases (Bool-cases (leb 32 (b.size - req))) (Bool-cases (x == y)))
    where
      Goal : Type 0
      Goal =
          (if x == y
            then with_free false (block_at (if leb 32 (b.size - req) then split else h) y)
            else block_at (if leb 32 (b.size - req) then split else h) y)
          ≡ (if leb 32 (b.size - req)
              then (if x == y
                  then some (record { size = req; free = false })
                  else if rest_at == y
                  then some (record { size = b.size - req - header; free = true })
                  else block_at h y)
              else if x == y
              then some (record { size = b.size; free = false })
              else block_at h y)

      cases :
          ((leb 32 (b.size - req)) ≡ true) ⊎ ((leb 32 (b.size - req)) ≡ false)
          → ((x == y) ≡ true) ⊎ ((x == y) ≡ false)
          → Goal
      cases (inl u) (inl t) = rw (u, t) (rw (block-split (ground (arith, u)) y) (rw t refl))
      cases (inl u) (inr f) = rw (u, f) (block-split (ground (arith, u)) y ∙ rw f refl)
      cases (inr v) (inl t) =
          let p : x ≡ y = ground (arith, t) in
          rw (v, t) (ap (with_free false) (ap (λ z. block_at h z) (sym p) ∙ at_x))
      cases (inr v) (inr f) = rw (v, f) refl

  -- In either case.
  abbrev taken_size : ℕ
  taken_size = if leb 32 (b.size - req) then req else b.size

  count-taken :
      (y : ℕ)
      → count y (take_block x req h).1.free_list
        ≡ (if leb 32 (b.size - req)
            then one_if (rest_at == y) + count y h.free_list
            else count y h.free_list)
          - one_if (x == y)
  unfolding take_block split_rest
  count-taken y =
      count-free_list_remove x y (split_rest x req h)
      ∙ rw at_x (elim (Bool-cases (leb 32 (b.size - req))) [
        | inl u ↦ rw u (
            ap (λ n. n - one_if (x == y))
              (count-free_list_insert (x + header + req) y
                (record h { blocks = split_block heap_start h.blocks x req })))
        | inr v ↦ rw v refl
      ])

  end-taken : heap_end (take_block x req h).1 ≡ heap_end h
  unfolding take_block split_rest free_list_insert free_list_remove
  end-taken =
      walk_end-set_free heap_start (split_rest x req h).blocks x false
      ∙ rw at_x (elim (Bool-cases (leb 32 (b.size - req))) [
        | inl u ↦ rw u (
            walk_end-set_free heap_start (split_block heap_start h.blocks x req) (x + header + req)
              true
            ∙ walk_end-split_block heap_start h.blocks x req b at_x (ground (arith, u)))
        | inr v ↦ rw v refl
      ])

  at_most_one : (y : ℕ) → count y h.free_list ≤ 1
  at_most_one y = ground (arith, valid.linked y)

  same_place : (y : ℕ) → (x == y) ≡ true → block_at h y ≡ some b
  same_place y t = let p : x ≡ y = ground (arith, t) in ap (λ z. block_at h z) (sym p) ∙ at_x

  rest_place : 32 ≤ b.size - req → (y : ℕ) → (rest_at == y) ≡ true → block_at h y ≡ none
  rest_place le y t =
      let p : rest_at ≡ y = ground (arith, t) in ap (λ z. block_at h z) (sym p) ∙ nothing_there le

  linked-taken :
      (y : ℕ)
      → count y (take_block x req h).1.free_list
        ≡ one_if (is_free_block (block_at (take_block x req h).1 y))
  linked-taken y = rw (count-taken y) (
      rw (block-taken y) (
        cases (Bool-cases (leb 32 (b.size - req))) (Bool-cases (x == y))
          (Bool-cases (rest_at == y))))
    where
      cases :
          ((leb 32 (b.size - req)) ≡ true) ⊎ ((leb 32 (b.size - req)) ≡ false)
          → ((x == y) ≡ true) ⊎ ((x == y) ≡ false)
          → ((rest_at == y) ≡ true) ⊎ ((rest_at == y) ≡ false)
          → (if leb 32 (b.size - req)
                then one_if (rest_at == y) + count y h.free_list
                else count y h.free_list)
              - one_if (x == y)
            ≡ one_if (
                is_free_block (
                  if leb 32 (b.size - req)
                  then (if x == y
                      then some (record { size = req; free = false })
                      else if rest_at == y
                      then some (record { size = b.size - req - header; free = true })
                      else block_at h y)
                  else if x == y
                  then some (record { size = b.size; free = false })
                  else block_at h y))
      cases (inl u) (inl t) (inl r) = absurd (ground arith)
      cases (inl u) (inl t) (inr r) = rw (u, t, r) (omega (arith, at_most_one y))
      cases (inl u) (inr f) (inl r) =
          let none_there : is_free_block (block_at h y) ≡ false =
            ap is_free_block (rest_place (ground (arith, u)) y r) in
          rw (u, f, r) (ground (arith, valid.linked y, none_there))
      cases (inl u) (inr f) (inr r) = rw (u, f, r) (omega (arith, valid.linked y))
      cases (inr v) (inl t) r = rw (v, t) (omega (arith, at_most_one y))
      cases (inr v) (inr f) r = rw (v, f) (omega (arith, valid.linked y))

  used-taken :
      (y : ℕ) → used (take_block x req h).1 y ≡ (if x == y then some taken_size else used h y)
  used-taken y =
      rw (block-taken y) (
        cases (Bool-cases (leb 32 (b.size - req))) (Bool-cases (x == y))
          (Bool-cases (rest_at == y)))
    where
      cases :
          ((leb 32 (b.size - req)) ≡ true) ⊎ ((leb 32 (b.size - req)) ≡ false)
          → ((x == y) ≡ true) ⊎ ((x == y) ≡ false)
          → ((rest_at == y) ≡ true) ⊎ ((rest_at == y) ≡ false)
          → in_use (
              if leb 32 (b.size - req)
              then (if x == y
                  then some (record { size = req; free = false })
                  else if rest_at == y
                  then some (record { size = b.size - req - header; free = true })
                  else block_at h y)
              else if x == y
              then some (record { size = b.size; free = false })
              else block_at h y)
            ≡ (if x == y then some taken_size else used h y)
      cases (inl u) (inl t) r = rw (u, t) refl
      cases (inl u) (inr f) (inl r) =
          rw (u, f, r) (sym (ap in_use (rest_place (ground (arith, u)) y r)))
      cases (inl u) (inr f) (inr r) = rw (u, f, r) refl
      cases (inr v) (inl t) r = rw (v, t) refl
      cases (inr v) (inr f) r = rw (v, f) refl

  sized-taken :
      (y : ℕ) (c : Block)
      → block_at (take_block x req h).1 y ≡ some c
      → (c.size % 16 ≡ 0) × (16 ≤ c.size) × (y % 16 ≡ 0)
  sized-taken y c e =
      cases (Bool-cases (leb 32 (b.size - req))) (Bool-cases (x == y)) (Bool-cases (rest_at == y))
        (sym (block-taken y) ∙ e)
    where
      Sized : Type 0
      Sized = (c.size % 16 ≡ 0) × (16 ≤ c.size) × (y % 16 ≡ 0)

      old : (b.size % 16 ≡ 0) × (16 ≤ b.size) × (x % 16 ≡ 0)
      old = valid.sized x b at_x

      from : (n z : ℕ) → n ≡ c.size → z ≡ y → n % 16 ≡ 0 → 16 ≤ n → z % 16 ≡ 0 → Sized
      from n z p q m le m' =
          (ap (λ k. k % 16) (sym p) ∙ m, omega (arith, p), ap (λ k. k % 16) (sym q) ∙ m')

      cases :
          ((leb 32 (b.size - req)) ≡ true) ⊎ ((leb 32 (b.size - req)) ≡ false)
          → ((x == y) ≡ true) ⊎ ((x == y) ≡ false)
          → ((rest_at == y) ≡ true) ⊎ ((rest_at == y) ≡ false)
          → (if leb 32 (b.size - req)
              then (if x == y
                  then some (record { size = req; free = false })
                  else if rest_at == y
                  then some (record { size = b.size - req - header; free = true })
                  else block_at h y)
              else if x == y
              then some (record { size = b.size; free = false })
              else block_at h y)
            ≡ some c
          → Sized
      cases (inl u) (inl t) r e' =
          from req x (ap size_of (rw (u, t) at e')) (ground (arith, t)) aligned least old.2
      cases (inl u) (inr f) (inl r) e' =
          from (b.size - req - header) rest_at (ap size_of (rw (u, f, r) at e')) (ground (arith, r))
            (ground (arith, u, old, aligned)) (ground (arith, u)) (ground (arith, old, aligned))
      cases (inl u) (inr f) (inr r) e' = valid.sized y c (rw (u, f, r) at e')
      cases (inr v) (inl t) r e' =
          from b.size x (ap size_of (rw (v, t) at e')) (ground (arith, t)) old.0 old.1 old.2
      cases (inr v) (inr f) r e' = valid.sized y c (rw (v, f) at e')

  pub take_block-Taken : Taken x req h (take_block x req h).1
  take_block-Taken = record {
    size = taken_size;
    enough = ground arith;
    well_formed = record {
      linked = linked-taken;
      sized = sized-taken;
      bounded = rw end-taken valid.bounded;
      end_aligned = rw end-taken valid.end_aligned;
    };
    was_free = rw at_x (rw free refl);
    now_used = used-taken;
    same_end = end-taken;
  }
