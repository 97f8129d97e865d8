-- ===== src/Heap.antt =====
-- The kernel heap, kernel/mm/heap.c. The blocks stand in a list in the order of their addresses, from
-- HEAP_START on; a block is named by the address of its header, and `free_list` lists the headers that
-- the links chain, head first. Addresses and sizes are 32 bits wide; the heap ends below 2^32, so that
-- only the rounding and the page count of a request can wrap.
pub mod Walk
pub mod Merge
pub mod Join
pub mod Links
pub mod Alloc
pub mod Grow
pub mod Append
pub mod Kmalloc
pub mod Start
pub mod Free
pub mod Coalesce
pub mod Resize
mod Tests
use spike_os.Prelude.{
  ℕ, zero, suc, ◌+◌, ◌-◌, ◌*◌, ◌/◌, ◌%◌, ◌^◌, Bool, true, false, not, ◌&&◌, ◌||◌, Option, none,
  some, List, [], ◌∷◌, ◌++◌, ◌==◌, ltb, leb, if◌then◌else◌,
}

abbrev pub heap_start : ℕ
heap_start = 3225419776

-- `sizeof(heap_block_t)` and HEAP_ALIGN.
abbrev pub header : ℕ
header = 16

abbrev pub page_size : ℕ
page_size = 4096

abbrev pub heap_max_size : ℕ
heap_max_size = 4194304

abbrev pub heap_grow_pages : ℕ
heap_grow_pages = 4

-- `heap_block_t`, without the links.
pub record Block : Type 0 where
  pub size : ℕ
  pub free : Bool

pub record Heap : Type 0 where
  pub blocks : List Block
  pub free_list : List ℕ

-- The block whose header is at `x`, where the walk is at `base`.
unfoldable pub lookup : ℕ → List Block → ℕ → Option Block
lookup base [] x = none
lookup base (b ∷ bs) x =
    let rest = lookup (base + header + b.size) bs x in if base == x then some b else rest

-- Where a walk ends.
unfoldable pub walk_end : ℕ → List Block → ℕ
walk_end base [] = base
walk_end base (b ∷ bs) = walk_end (base + header + b.size) bs

abbrev pub heap_end : Heap → ℕ
heap_end h = walk_end heap_start h.blocks

abbrev pub block_at : Heap → ℕ → Option Block
block_at h x = lookup heap_start h.blocks x

-- `flags` of the block at `x`.
unfoldable pub set_free : ℕ → List Block → ℕ → Bool → List Block
set_free base [] x f = []
set_free base (b ∷ bs) x f =
    let rest = set_free (base + header + b.size) bs x f in
    if base == x then record b { free = f } ∷ bs else b ∷ rest

-- The header of the second part goes `req` bytes behind that of the block at `x`.
unfoldable pub split_block : ℕ → List Block → (x req : ℕ) → List Block
split_block base [] x req = []
split_block base (b ∷ bs) x req =
    let rest = split_block (base + header + b.size) bs x req in
    if base == x
    then record b { size = req } ∷ record { size = b.size - req - header; free = false } ∷ bs
    else b ∷ rest

-- The block absorbs the one behind it.
absorb : Block → List Block → List Block
absorb b [] = b ∷ []
absorb b (n ∷ bs) = record b { size = b.size + header + n.size } ∷ bs

unfoldable pub merge_next : ℕ → List Block → ℕ → List Block
unfolding absorb
merge_next base [] x = []
merge_next base (b ∷ bs) x =
    let rest = merge_next (base + header + b.size) bs x in
    if base == x then absorb b bs else b ∷ rest

-- A node leaves the chain.
unfoldable pub unlink : ℕ → List ℕ → List ℕ
unlink x [] = []
unlink x (y ∷ ys) = let rest = unlink x ys in if x == y then ys else y ∷ rest

unfoldable pub free_list_insert : ℕ → Heap → Heap
free_list_insert x h = record {
  blocks = set_free heap_start h.blocks x true;
  free_list = x ∷ h.free_list;
}

unfoldable pub free_list_remove : ℕ → Heap → Heap
free_list_remove x h = record {
  blocks = set_free heap_start h.blocks x false;
  free_list = unlink x h.free_list;
}

-- `align_up` on 32 bits.
unfoldable pub align_up : ℕ → ℕ
align_up sz = (sz + 15) % 2 ^ 32 / 16 * 16

-- The size of the block at `x`, as the search reads it.
abbrev pub size_of : Option Block → ℕ
size_of none = 0
size_of (some b) = b.size

unfoldable pub first_fit : List ℕ → Heap → ℕ → Option ℕ
first_fit [] h req = none
first_fit (x ∷ xs) h req =
    let rest = first_fit xs h req in if leb req (size_of (block_at h x)) then some x else rest

-- The last block of the heap, with its address, if it is free.
unfoldable pub last_free : ℕ → List Block → Option ℕ
last_free base [] = none
last_free base (b ∷ []) = if b.free then some base else none
last_free base (b ∷ c ∷ bs) = last_free (base + header + b.size) (c ∷ bs)

-- `last->size` grows by `bytes`.
unfoldable pub extend_last : List Block → ℕ → List Block
extend_last [] bytes = []
extend_last (b ∷ []) bytes = record b { size = b.size + bytes } ∷ []
extend_last (b ∷ c ∷ bs) bytes = b ∷ extend_last (c ∷ bs) bytes

-- The newly mapped region as a block, merged with the last one if that is free.
unfoldable pub add_region : ℕ → Heap → Heap
add_region bytes h = elim (last_free heap_start h.blocks) [
  | some x ↦ record h { blocks = extend_last h.blocks bytes }
  | none ↦
      free_list_insert (heap_end h)
        (record h { blocks = h.blocks ++ (record { size = bytes - header; free = true } ∷ []) })
]

-- `heap_grow`, where `avail` pages can be got from `alloc_frame` and `map_page`. The loop maps page by
-- page and gives everything back at the first failure; `none` is -1.
unfoldable pub heap_grow : (avail pages : ℕ) → Heap → Option Heap
heap_grow avail pages h =
    let bytes = pages * page_size % 2 ^ 32 in
    if ltb heap_max_size ((heap_end h + bytes + 2 ^ 32 - heap_start) % 2 ^ 32) || ltb avail pages
    then none
    else some (add_region bytes h)

-- `heap_init`, where the first pages are there; else it halts.
pub heap_init : Heap
unfolding add_region last_free
heap_init = record {
  blocks = record { size = heap_grow_pages * page_size - header; free = true } ∷ [];
  free_list = heap_start ∷ [];
}

-- The rest of the block goes back to the list, if it is large enough.
unfoldable pub split_rest : (x req : ℕ) → Heap → Heap
split_rest x req h =
    if leb 32 (size_of (block_at h x) - req)
    then free_list_insert (x + header + req)
        (record h { blocks = split_block heap_start h.blocks x req })
    else h

-- `kmalloc` from its label `found` on.
unfoldable pub take_block : (x req : ℕ) → Heap → Option ℕ × Heap
take_block x req h = (some (x + header), free_list_remove x (split_rest x req h))

unfoldable pub pages_needed : ℕ → ℕ
pages_needed req =
    let pages = (req + header + page_size - 1) % 2 ^ 32 / page_size in
    if ltb pages heap_grow_pages then heap_grow_pages else pages

-- The search, and the retry behind a growth: `none` is NULL.
unfoldable pub retry : ℕ → Option Heap → Heap → Option ℕ × Heap
retry req none h = (none, h)
retry req (some h') h = elim (first_fit h'.free_list h' req) [
  | some x ↦ take_block x req h'
  | none ↦ (none, h')
]

unfoldable pub allocate : (avail req : ℕ) → Heap → Option ℕ × Heap
allocate avail req h = elim (first_fit h.free_list h req) [
  | some x ↦ take_block x req h
  | none ↦ retry req (heap_grow avail (pages_needed req) h) h
]

unfoldable pub kmalloc : (avail size : ℕ) → Heap → Option ℕ × Heap
kmalloc avail size h =
    if size == 0
    then (none, h)
    else allocate avail (if ltb (align_up size) header then header else align_up size) h

abbrev pub is_free_block : Option Block → Bool
is_free_block none = false
is_free_block (some b) = b.free

-- The free block `n`, behind the block `x`, leaves the list and becomes part of `x`.
unfoldable pub merge_into : (x n : ℕ) → Heap → Heap
merge_into x n h =
    let h' = free_list_remove n h in record h' { blocks = merge_next heap_start h'.blocks x }

unfoldable pub coalesce_next : ℕ → Heap → Heap
coalesce_next x h =
    let n = x + header + size_of (block_at h x) in
    if ltb n (heap_end h) && is_free_block (block_at h n) then merge_into x n h else h

-- The block in front of `x` on the walk from `base`.
unfoldable pub pred_of : ℕ → List Block → ℕ → Option ℕ
pred_of base [] x = none
pred_of base (b ∷ bs) x =
    let rest = pred_of (base + header + b.size) bs x in
    if ltb base x then elim rest [ none ↦ some base | some p ↦ some p ] else none

unfoldable pub coalesce_prev : ℕ → Heap → Heap
coalesce_prev x h = elim (pred_of heap_start h.blocks x) [
  | none ↦ h
  | some p ↦ if is_free_block (block_at h p) then merge_into p x h else h
]

-- `kfree` of the block at `x`.
unfoldable pub free_block : ℕ → Block → Heap → Heap
free_block x b h = if b.free then h else coalesce_prev x (coalesce_next x (free_list_insert x h))

-- `kfree`. A pointer outside the heap is refused; `none` is a pointer into the heap that is behind no
-- header, where the code reads whatever stands there.
unfoldable pub kfree : ℕ → Heap → Option Heap
kfree ptr h =
    let x = ptr - header in
    if ptr == 0
    then some h
    else if ltb x heap_start || leb (heap_end h) x
    then some h
    else elim (block_at h x) [ none ↦ none | some b ↦ some (free_block x b h) ]
