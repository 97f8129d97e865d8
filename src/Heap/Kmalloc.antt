-- ===== src/Heap/Kmalloc.antt =====
-- What `kmalloc` returns, and when it fails.
use spike_os.Prelude.{
  ℕ, ◌+◌, ◌-◌, ◌*◌, ◌/◌, ◌%◌, ◌^◌, ◌≤◌, ◌<◌, ◌≡◌, refl, true, false, ◌||◌, Option, none, some,
  arith, ◌==◌, ltb, if◌then◌else◌, inl, inr, ◌∙◌, sym, ap, ◌⊎◌, dec_lt,
}
use spike_os.Heap.{
  Block, Heap, header, page_size, heap_start, heap_end, heap_max_size, block_at, is_free_block,
  size_of, first_fit, take_block, align_up, add_region, heap_grow, pages_needed, retry, allocate,
  kmalloc,
}
use spike_os.Frames.{max_frames}
use spike_os.Heap.Walk.{walk_end-ge}
use spike_os.Heap.Links.{IsHeap, count, used, Fit, fits, too_small, first_fit-Fit}
use spike_os.Heap.Alloc.{take_block-Taken}
use spike_os.Heap.Grow.{Grown, add_region-Grown}

-- The heap `h'` is `h` with one block of at least `req` bytes more in use, at `x`.
pub record Allocated (x req : ℕ) (h h' : Heap) : Type 0 where
  pub size : ℕ
  pub enough : req ≤ size
  pub well_formed : IsHeap h'
  pub aligned : x % 16 ≡ 0
  pub was_free : used h x ≡ none
  pub now_used : (y : ℕ) → used h' y ≡ (if x == y then some size else used h y)

-- A block for `req` bytes, or NULL and no change: no free block is large enough, and the heap cannot grow.
pub data Outcome (avail req : ℕ) (h : Heap) (r : Option ℕ × Heap) : Type 0 where
  allocated : (x : ℕ) → r.0 ≡ some (x + header) → Allocated x req h r.1 → Outcome avail req h r
  out_of_memory :
      ((x : ℕ) (b : Block) → block_at h x ≡ some b → b.free ≡ true → b.size < req)
      → (avail < pages_needed req)
        ⊎ (heap_start + heap_max_size < heap_end h + pages_needed req * page_size)
      → r ≡ (none, h)
      → Outcome avail req h r

-- A block that the list names is free.
listed :
    (h : Heap) (x : ℕ)
    → IsHeap h
    → 1 ≤ count x h.free_list
    → (b : Block) × (block_at h x ≡ some b) × (b.free ≡ true)
listed h x valid le = go (block_at h x) refl
  where
    go :
        (o : Option Block)
        → block_at h x ≡ o
        → (b : Block) × (block_at h x ≡ some b) × (b.free ≡ true)
    go none e = absurd (ground (arith, valid.linked x, ap is_free_block e))
    go (some b) e = (b, e, ground (arith, valid.linked x, ap is_free_block e))

module _ (req : ℕ) (aligned : req % 16 ≡ 0) (least : 16 ≤ req) where
  -- The block that the search found.
  take-Allocated :
      (x : ℕ) (h : Heap)
      → IsHeap h
      → 1 ≤ count x h.free_list
      → req ≤ size_of (block_at h x)
      → Allocated x req h (take_block x req h).1
  take-Allocated x h valid le big =
      let (b, at_x, free) = listed h x valid le in
      let t =
        take_block-Taken x req b h valid at_x free (omega (arith, big, ap size_of at_x)) aligned
          least in
      record {
        size = t.size;
        enough = t.enough;
        well_formed = t.well_formed;
        aligned = (valid.sized x b at_x).2;
        was_free = t.was_free;
        now_used = t.now_used;
      }

  -- The retry behind a growth finds the new room.
  retry-Allocated :
      (h h' : Heap)
      → Grown req h h'
      → (x : ℕ) × ((retry req (some h') h).0 ≡ some (x + header))
        × Allocated x req h (retry req (some h') h).1
  unfolding retry take_block
  retry-Allocated h h' g = go (first_fit-Fit h'.free_list h' req)
    where
      go :
          Fit h'.free_list h' req (first_fit h'.free_list h' req)
          → (x : ℕ) × ((retry req (some h') h).0 ≡ some (x + header))
            × Allocated x req h (retry req (some h') h).1
      go (fits x le big e) =
          let t = take-Allocated x h' g.valid le big in
          rw (e, retry)
            (
              x,
              refl,
              record {
                size = t.size;
                enough = t.enough;
                well_formed = t.well_formed;
                aligned = t.aligned;
                was_free = sym (g.same_used x) ∙ t.was_free;
                now_used =
                    λ y. t.now_used y ∙ ap (λ z. if x == y then some t.size else z) (g.same_used y);
              },
            )
      go (too_small all e) = absurd (
          ground (
            arith,
            all g.place,
            g.valid.linked g.place,
            ap is_free_block g.found,
            ap size_of g.found,
            g.is_free,
            g.roomy,
          ))

  pages_needed-enough :
      req + 8192 ≤ 2 ^ 32 → (req + header ≤ pages_needed req * page_size) × (4 ≤ pages_needed req)
  unfolding pages_needed
  pages_needed-enough small = ground arith

  -- What a growth that succeeds needs.
  heap_grow-Grown :
      (avail : ℕ) (h : Heap)
      → IsHeap h
      → req + 8192 ≤ 2 ^ 32
      → avail ≤ max_frames
      → ((h' : Heap) × (heap_grow avail (pages_needed req) h ≡ some h') × Grown req h h')
        ⊎ ((heap_grow avail (pages_needed req) h ≡ none)
            × ((avail < pages_needed req)
                ⊎ (heap_start + heap_max_size < heap_end h + pages_needed req * page_size)))
  unfolding heap_grow
  heap_grow-Grown avail h valid small few = elim (dec_lt avail pages) [
    | yes lt ↦
        let guard : (ltb heap_max_size
                ((heap_end h + pages * page_size % 2 ^ 32 + 2 ^ 32 - heap_start) % 2 ^ 32)
              || ltb avail pages)
            ≡ true =
          ground arith in
        inr (rw (guard, heap_grow) refl, inl lt)
    | no ge ↦
        let whole : pages * page_size % 2 ^ 32 ≡ pages * page_size = omega (arith, few) in
        let above = walk_end-ge heap_start h.blocks in
        elim (dec_lt (heap_start + heap_max_size) (heap_end h + pages * page_size)) [
          | yes over ↦
              let guard : (ltb heap_max_size
                      ((heap_end h + pages * page_size + 2 ^ 32 - heap_start) % 2 ^ 32)
                    || ltb avail pages)
                  ≡ true =
                ground (arith, above, over, valid.bounded, few) in
              inr (rw (whole, heap_grow) (rw (guard, heap_grow) refl), inr over)
          | no fit ↦
              let guard : (ltb heap_max_size
                      ((heap_end h + pages * page_size + 2 ^ 32 - heap_start) % 2 ^ 32)
                    || ltb avail pages)
                  ≡ false =
                ground (arith, above, valid.bounded, few) in
              inl (
                add_region (pages * page_size) h,
                rw (whole, heap_grow) (rw (guard, heap_grow) refl),
                roomy_enough ge fit,
              )
        ]
  ]
    where
      pages : ℕ
      pages = pages_needed req

      roomy_enough :
          ¬ (avail < pages)
          → ¬ (heap_start + heap_max_size < heap_end h + pages * page_size)
          → Grown req h (add_region (pages * page_size) h)
      roomy_enough ge fit =
          let enough = pages_needed-enough small in
          let g =
            add_region-Grown (pages * page_size) h valid (omega arith) (omega (arith, enough.1))
              (omega arith) in
          record {
            valid = g.valid;
            same_used = g.same_used;
            place = g.place;
            block = g.block;
            found = g.found;
            is_free = g.is_free;
            roomy = omega (arith, g.roomy, enough.0);
          }

  allocate-Outcome :
      (avail : ℕ) (h : Heap)
      → IsHeap h
      → req + 8192 ≤ 2 ^ 32
      → avail ≤ max_frames
      → Outcome avail req h (allocate avail req h)
  unfolding allocate take_block retry
  allocate-Outcome avail h valid small few = go (first_fit-Fit h.free_list h req)
    where
      grow :
          ((x : ℕ) (b : Block) → block_at h x ≡ some b → b.free ≡ true → b.size < req)
          → ((h' : Heap) × (heap_grow avail (pages_needed req) h ≡ some h') × Grown req h h')
            ⊎ ((heap_grow avail (pages_needed req) h ≡ none)
                × ((avail < pages_needed req)
                    ⊎ (heap_start + heap_max_size < heap_end h + pages_needed req * page_size)))
          → Outcome avail req h (retry req (heap_grow avail (pages_needed req) h) h)
      grow all (inl (h', e, g)) = let (x, r, a) = retry-Allocated h h' g in rw e (allocated x r a)
      grow all (inr (e, why)) = rw e (out_of_memory all why refl)

      go :
          Fit h.free_list h req (first_fit h.free_list h req)
          → Outcome avail req h (allocate avail req h)
      go (fits x le big e) = rw (e, allocate) (allocated x refl (take-Allocated x h valid le big))
      go (too_small all e) =
          rw (e, allocate)
            (grow
              (λ x b at_x free.
                ground (arith, all x, valid.linked x, ap is_free_block at_x, ap size_of at_x, free))
              (heap_grow-Grown avail h valid small few))

-- A request in whole units of HEAP_ALIGN.
abbrev pub rounded : ℕ → ℕ
rounded size = (size + 15) / 16 * 16

-- `kmalloc` on a well-formed heap, for a size that is not 0 and not within 8207 bytes of 2^32, and where
-- at most MAX_FRAMES pages can be had: it takes one new block into use, at an address that is a multiple
-- of 16 and with at least the bytes asked for, rounded up to 16, leaves all other blocks in use as they
-- were, and keeps the heap well formed; or it returns NULL and changes nothing, and then no free block is
-- large enough and the heap cannot grow.
pub kmalloc-Outcome :
    (avail size : ℕ) (h : Heap)
    → IsHeap h
    → 1 ≤ size
    → size + 8207 ≤ 2 ^ 32
    → avail ≤ max_frames
    → Outcome avail (rounded size) h (kmalloc avail size h)
unfolding kmalloc align_up
kmalloc-Outcome avail size h valid positive small few =
    let nonzero : (size == 0) ≡ false = ground arith in
    let unwrapped : (size + 15) % 2 ^ 32 / 16 * 16 ≡ rounded size = omega arith in
    let large : ltb (rounded size) header ≡ false = ground arith in
    rw nonzero (
      rw unwrapped (
        rw large (
          allocate-Outcome (rounded size) (omega arith) (omega arith) avail h valid (omega arith)
            few)))
