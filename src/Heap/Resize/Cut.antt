-- ===== src/Heap/Resize/Cut.antt =====
-- What `krealloc` does when it cuts the tail off a block in use.
use spike_os.Prelude.{
  ℕ, ◌+◌, ◌-◌, ◌%◌, ◌≤◌, ◌≡◌, refl, true, false, none, some, arith, ◌==◌, if◌then◌else◌, Bool-cases,
  inl, inr, ◌∙◌, sym, ap, ◌⊎◌,
}
use spike_os.Heap.{
  Block, Heap, header, heap_start, heap_end, block_at, split_block, is_free_block, size_of, kfree,
}
use spike_os.Heap.Walk.{lookup-split_block, lookup-inside}
use spike_os.Heap.Merge.{walk_end-split_block}
use spike_os.Heap.Links.{IsHeap, one_if, count, used}
use spike_os.Heap.Free.{kfree-Freed}

module _ (x req : ℕ) (b : Block) (h : Heap) (valid : IsHeap h) (at_x : block_at h x ≡ some b)
    (busy : b.free ≡ false) (room : req + 32 ≤ b.size) (aligned : req % 16 ≡ 0)
    (least : 16 ≤ req) where
  abbrev tail_at : ℕ
  tail_at = x + header + req

  abbrev tail : Block
  tail = record { size = b.size - req - header; free = false }

  abbrev cut : Heap
  cut = record h { blocks = split_block heap_start h.blocks x req }

  -- A walk, by the place it looks at.
  data Place (y : ℕ) : Type 0 where
    head_place :
        (x == y) ≡ true
        → block_at cut y ≡ some (record b { size = req })
        → block_at h y ≡ some b
        → Place y
    tail_place :
        (x == y) ≡ false
        → (tail_at == y) ≡ true
        → block_at cut y ≡ some tail
        → block_at h y ≡ none
        → Place y
    other_place :
        (x == y) ≡ false → (tail_at == y) ≡ false → block_at cut y ≡ block_at h y → Place y

  place : (y : ℕ) → Place y
  place y = cases (Bool-cases (x == y)) (Bool-cases (tail_at == y))
    where
      split : block_at cut y ≡ (
          if x == y
          then some (record b { size = req })
          else if tail_at == y
          then some tail
          else block_at h y)
      split = lookup-split_block heap_start h.blocks x y req b at_x (omega (arith, room))

      cases :
          ((x == y) ≡ true) ⊎ ((x == y) ≡ false)
          → ((tail_at == y) ≡ true) ⊎ ((tail_at == y) ≡ false)
          → Place y
      cases (inl t) u =
          let p : x ≡ y = ground (arith, t) in
          head_place t (split ∙ rw t refl) (ap (λ z. block_at h z) (sym p) ∙ at_x)
      cases (inr f) (inl t) =
          let p : tail_at ≡ y = ground (arith, t) in
          let gap =
            lookup-inside heap_start h.blocks x tail_at b at_x (omega (arith, least))
              (omega (arith, room)) in
          tail_place f t (split ∙ rw (f, t) refl) (ap (λ z. block_at h z) (sym p) ∙ gap)
      cases (inr f) (inr g) = other_place f g (split ∙ rw (f, g) refl)

  cut-linked : (y : ℕ) → count y h.free_list ≡ one_if (is_free_block (block_at cut y))
  cut-linked y = go (place y)
    where
      go : Place y → count y h.free_list ≡ one_if (is_free_block (block_at cut y))
      go (head_place t new old) = valid.linked y ∙ rw (new, old) refl
      go (tail_place f t new old) = valid.linked y ∙ rw (new, old) refl
      go (other_place f g same) = valid.linked y ∙ rw same refl

  cut-sized :
      (y : ℕ) (d : Block)
      → block_at cut y ≡ some d
      → (d.size % 16 ≡ 0) × (16 ≤ d.size) × (y % 16 ≡ 0)
  cut-sized y d e = go (place y)
    where
      go : Place y → (d.size % 16 ≡ 0) × (16 ≤ d.size) × (y % 16 ≡ 0)
      go (head_place t new old) =
          let size : req ≡ d.size = ap size_of (sym new ∙ e) in
          let before = valid.sized y b old in
          (omega (arith, size, aligned), omega (arith, size, least), before.2)
      go (tail_place f t new old) =
          let size : b.size - req - header ≡ d.size = ap size_of (sym new ∙ e) in
          let before = valid.sized x b at_x in
          (
            omega (arith, size, before.0, aligned, room),
            omega (arith, size, room),
            ground (arith, t, before.2, aligned),
          )
      go (other_place f g same) = valid.sized y d (sym same ∙ e)

  cut-end : heap_end cut ≡ heap_end h
  cut-end = walk_end-split_block heap_start h.blocks x req b at_x (omega (arith, room))

  cut-IsHeap : IsHeap cut
  cut-IsHeap = record {
    linked = cut-linked;
    sized = cut-sized;
    bounded = rw cut-end valid.bounded;
    end_aligned = rw cut-end valid.end_aligned;
  }

  -- The tail is freed: the block is shorter, and nothing else has changed.
  pub kfree-cut :
      (h' : Heap) × (kfree (x + header + req + header) cut ≡ some h')
      × IsHeap h'
      × ((y : ℕ) → used h' y ≡ (if x == y then some req else used h y))
  kfree-cut =
      let at_tail : block_at cut tail_at ≡ some tail = found (place tail_at) in
      let (h', e, freed, _) = kfree-Freed tail_at tail cut cut-IsHeap at_tail in
      (h', e, freed.well_formed, λ y. freed.now_used y ∙ after y (place y))
    where
      found : Place tail_at → block_at cut tail_at ≡ some tail
      found (head_place t new old) = absurd (ground (arith, t, least))
      found (tail_place f t new old) = new
      found (other_place f g same) = absurd (ground (arith, g))

      after :
          (y : ℕ)
          → Place y
          → (if tail_at == y then none else used cut y) ≡ (if x == y then some req else used h y)
      after y (head_place t new old) =
          let off : (tail_at == y) ≡ false = ground (arith, t, least) in
          rw (off, t) (rw new (rw busy refl))
      after y (tail_place f t new old) = rw (f, t) (rw old refl)
      after y (other_place f g same) = rw (f, g) (rw same refl)
