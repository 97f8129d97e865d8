-- ===== src/Heap/Grow.antt =====
-- What a growth adds to the heap.
use spike_os.Prelude.{
  ℕ, ◌+◌, ◌-◌, ◌%◌, ◌≤◌, ◌≡◌, refl, true, false, none, some, [], ◌∷◌, ◌++◌, arith, ◌==◌,
  if◌then◌else◌, Bool-cases, Option-cases, inl, inr, ◌∙◌, sym, ap, ◌⊎◌,
}
use spike_os.Heap.{
  Block, Heap, header, heap_start, heap_end, heap_max_size, block_at, is_free_block, size_of,
  last_free, extend_last, free_list_insert, add_region,
}
use spike_os.Heap.Walk.{lookup-end, walk_end-set_free}
use spike_os.Heap.Links.{IsHeap, in_use, used, block-free_list_insert, count-free_list_insert}
use spike_os.Heap.Append.{
  lookup-append, walk_end-append, last_free-lookup, lookup-extend_last, walk_end-extend_last,
}

-- The heap with a free block of at least `room` bytes, and the same blocks in use.
pub record Grown (room : ℕ) (h h' : Heap) : Type 0 where
  pub valid : IsHeap h'
  pub same_used : (y : ℕ) → used h' y ≡ used h y
  pub place : ℕ
  pub block : Block
  pub found : block_at h' place ≡ some block
  pub is_free : block.free ≡ true
  pub roomy : room ≤ block.size

module _ (bytes : ℕ) (h : Heap) (valid : IsHeap h) (aligned : bytes % 16 ≡ 0) (least : 32 ≤ bytes)
    (bounded : heap_end h + bytes ≤ heap_start + heap_max_size) where
  extended :
      (x : ℕ)
      → last_free heap_start h.blocks ≡ some x
      → Grown (bytes - header) h (record h { blocks = extend_last h.blocks bytes })
  extended x e = go (last_free-lookup heap_start h.blocks x e)
    where
      h' : Heap
      h' = record h { blocks = extend_last h.blocks bytes }

      go : (b : Block) × (block_at h x ≡ some b) × (b.free ≡ true) → Grown (bytes - header) h h'
      go (b, at_x, free) = record {
        valid = record {
          linked = λ y. rw (look y) (elim (Bool-cases (x == y)) [
            | inl t ↦
                let is : is_free_block (block_at h y) ≡ b.free = ap is_free_block (place y t) in
                rw t (ground (arith, valid.linked y, is))
            | inr f ↦ rw f (valid.linked y)
          ]);
          sized = λ y c i. size_at y c (Bool-cases (x == y)) (sym (look y) ∙ i);
          bounded = rw end bounded;
          end_aligned = rw end (ground (arith, valid.end_aligned, aligned));
        };
        same_used = λ y. rw (look y) (elim (Bool-cases (x == y)) [
          | inl t ↦ rw t (rw (place y t) (rw free refl))
          | inr f ↦ rw f refl
        ]);
        place = x;
        block = record b { size = b.size + bytes };
        found = let on : (x == x) ≡ true = ground arith in look x ∙ rw on refl;
        is_free = free;
        roomy = omega arith;
      }
        where
          end : heap_end h' ≡ heap_end h + bytes
          end = walk_end-extend_last heap_start h.blocks x bytes e

          look :
              (y : ℕ)
              → block_at h' y
                ≡ (if x == y then some (record b { size = b.size + bytes }) else block_at h y)
          look y = lookup-extend_last heap_start h.blocks x bytes b y e at_x

          place : (y : ℕ) → (x == y) ≡ true → block_at h y ≡ some b
          place y t = let p : x ≡ y = ground (arith, t) in ap (λ z. block_at h z) (sym p) ∙ at_x

          size_at :
              (y : ℕ) (c : Block)
              → ((x == y) ≡ true) ⊎ ((x == y) ≡ false)
              → (if x == y then some (record b { size = b.size + bytes }) else block_at h y)
                ≡ some c
              → (c.size % 16 ≡ 0) × (16 ≤ c.size) × (y % 16 ≡ 0)
          size_at y c (inl t) i =
              let size : b.size + bytes ≡ c.size = ap size_of (rw t at i) in
              let old = valid.sized y b (place y t) in
              (ground (arith, size, old, aligned), omega (arith, size, old.1), old.2)
          size_at y c (inr f) i = valid.sized y c (rw f at i)

  abbrev region : Block
  region = record { size = bytes - header; free = true }

  abbrev longer : Heap
  longer = record h { blocks = h.blocks ++ (region ∷ []) }

  nothing_at_end : (y : ℕ) → (heap_end h == y) ≡ true → block_at h y ≡ none
  nothing_at_end y t = elim (Option-cases (block_at h y)) [
    | inl e ↦ e
    | inr (b, e) ↦ absurd (ground (arith, t, lookup-end heap_start h.blocks y b e))
  ]

  look-appended :
      (y : ℕ)
      → block_at (free_list_insert (heap_end h) longer) y
        ≡ (if heap_end h == y then some region else block_at h y)
  look-appended y =
      block-free_list_insert (heap_end h) y longer
      ∙ rw (lookup-append heap_start h.blocks region y)
          (elim (Bool-cases (heap_end h == y)) [ inl t ↦ rw t refl | inr f ↦ rw f refl ])

  end-appended : heap_end (free_list_insert (heap_end h) longer) ≡ heap_end h + bytes
  unfolding free_list_insert
  end-appended =
      walk_end-set_free heap_start longer.blocks (heap_end h) true
      ∙ walk_end-append heap_start h.blocks region
      ∙ omega arith

  size-appended :
      (y : ℕ) (c : Block)
      → ((heap_end h == y) ≡ true) ⊎ ((heap_end h == y) ≡ false)
      → (if heap_end h == y then some region else block_at h y) ≡ some c
      → (c.size % 16 ≡ 0) × (16 ≤ c.size) × (y % 16 ≡ 0)
  size-appended y c (inl t) i =
      let size : bytes - header ≡ c.size = ap size_of (rw t at i) in
      let p : heap_end h ≡ y = ground (arith, t) in
      (
        ground (arith, size, aligned),
        omega (arith, size),
        ap (λ k. k % 16) (sym p) ∙ valid.end_aligned,
      )
  size-appended y c (inr f) i = valid.sized y c (rw f at i)

  appended : Grown (bytes - header) h (free_list_insert (heap_end h) longer)
  appended = record {
    valid = record {
      linked = λ y. rw (count-free_list_insert (heap_end h) y longer) (
          rw (look-appended y) (elim (Bool-cases (heap_end h == y)) [
            | inl t ↦
                let off : is_free_block (block_at h y) ≡ false =
                  ap is_free_block (nothing_at_end y t) in
                rw t (ground (arith, valid.linked y, off))
            | inr f ↦ rw f (omega (arith, valid.linked y))
          ]));
      sized = λ y c i. size-appended y c (Bool-cases (heap_end h == y)) (sym (look-appended y) ∙ i);
      bounded = rw end-appended bounded;
      end_aligned = rw end-appended (ground (arith, valid.end_aligned, aligned));
    };
    same_used = λ y. rw (look-appended y) (elim (Bool-cases (heap_end h == y)) [
      | inl t ↦ rw t (sym (ap in_use (nothing_at_end y t)))
      | inr f ↦ rw f refl
    ]);
    place = heap_end h;
    block = region;
    found =
        let on : (heap_end h == heap_end h) ≡ true = ground arith in
        look-appended (heap_end h) ∙ rw on refl;
    is_free = refl;
    roomy = omega arith;
  }

  pub add_region-Grown : Grown (bytes - header) h (add_region bytes h)
  unfolding add_region
  add_region-Grown = elim (Option-cases (last_free heap_start h.blocks)) [
    | inl e ↦ rw (e, add_region) appended
    | inr (x, e) ↦ rw (e, add_region) (extended x e)
  ]
