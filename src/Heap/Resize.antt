-- ===== src/Heap/Resize.antt =====
-- `krealloc` and `kcalloc` of kernel/mm/heap.c, with the bytes that the blocks in use hold: `m p i` is
-- byte `i` of the data at pointer `p`. The source writes its headers and links between the data and in
-- free memory, so a byte counts only below the size of a block in use: headers are told by the heap, the
-- memory behind the data of a block that shrinks and of a block that is freed is no block's data any
-- more, and what a call finds in memory that it newly takes into a block, old data or headers, is the
-- parameter `found`.
pub mod Cut
pub mod Laws
pub mod Calloc
use spike_os.Prelude.{
  ℕ, ◌+◌, ◌-◌, ◌*◌, ◌/◌, ◌%◌, ◌^◌, Bool, not, ◌&&◌, Option, none, some, ◌==◌, ltb, leb,
  if◌then◌else◌,
}
use spike_os.Heap.{
  Block, Heap, header, heap_start, heap_end, block_at, size_of, is_free_block, align_up,
  split_block, merge_into, kmalloc, kfree,
}

abbrev pub Bytes : Type 0
Bytes = ℕ → ℕ → ℕ

-- The block at `p` takes in memory behind its first `n` bytes.
unfoldable pub take_bytes : (p n : ℕ) → (found : ℕ → ℕ) → Bytes → Bytes
take_bytes p n found m q i = if (p == q) && leb n i then found i else m q i

-- `memcpy` of the first `n` bytes of a block to another, and `memset` to 0.
unfoldable pub copy_bytes : (dst src n : ℕ) → Bytes → Bytes
copy_bytes dst src n m q i = if (dst == q) && ltb i n then m src i else m q i

unfoldable pub clear_bytes : (dst n : ℕ) → Bytes → Bytes
clear_bytes dst n m q i = if (dst == q) && ltb i n then 0 else m q i

abbrev pub Result : Type 0
Result = Option ℕ × Heap × Bytes

-- The result of a call that gives `p` and leaves the bytes.
abbrev pub with_bytes : Option ℕ → Bytes → Option Heap → Option Result
with_bytes p m none = none
with_bytes p m (some h) = some (p, h, m)

-- The tail of a block that is large enough becomes a block of its own, and is freed.
unfoldable pub shrink : (x req : ℕ) → Block → Heap → Option Heap
shrink x req b h =
    if leb 32 (b.size - req)
    then kfree (x + header + req + header)
        (record h { blocks = split_block heap_start h.blocks x req })
    else some h

-- A free block behind `x` that makes it large enough is absorbed.
unfoldable pub grow_in_place : (x req : ℕ) → Block → Heap → Option Heap
grow_in_place x req b h =
    let n = x + header + b.size in
    if ltb n (heap_end h)
      && (is_free_block (block_at h n) && leb req (b.size + header + size_of (block_at h n)))
    then some (merge_into x n h)
    else none

-- The data go to the block that `kmalloc` gave, and the old one is freed.
unfoldable pub move_data :
    (x size : ℕ) → (found : ℕ → ℕ) → Block → Bytes → Option ℕ × Heap → Option Result
move_data x size found b m (none, h) = some (none, h, m)
move_data x size found b m (some p, h) =
    let n = if ltb b.size size then b.size else size in
    with_bytes (some p) (copy_bytes p (x + header) n (take_bytes p 0 found m))
      (kfree (x + header) h)

unfoldable pub grow :
    (avail x size req : ℕ) → (found : ℕ → ℕ) → Block → Heap → Bytes → Option Heap → Option Result
grow avail x size req found b h m (some h') =
    some (some (x + header), h', take_bytes (x + header) b.size found m)
grow avail x size req found b h m none = move_data x size found b m (kmalloc avail size h)

unfoldable pub resize_block :
    (avail x size : ℕ) → (found : ℕ → ℕ) → Block → Heap → Bytes → Option Result
resize_block avail x size found b h m =
    let req = align_up size in
    if leb req b.size
    then with_bytes (some (x + header)) m (shrink x req b h)
    else grow avail x size req found b h m (grow_in_place x req b h)

unfoldable pub resize_found :
    (avail x size : ℕ) → (found : ℕ → ℕ) → Option Block → Heap → Bytes → Option Result
resize_found avail x size found none h m = none
resize_found avail x size found (some b) h m = resize_block avail x size found b h m

unfoldable pub new_block : (found : ℕ → ℕ) → Bytes → Option ℕ × Heap → Result
new_block found m (none, h) = (none, h, m)
new_block found m (some p, h) = (some p, h, take_bytes p 0 found m)

-- `krealloc`; `none` is a pointer that is behind no header, as in `kfree`.
unfoldable pub krealloc : (avail ptr size : ℕ) → (found : ℕ → ℕ) → Heap → Bytes → Option Result
krealloc avail ptr size found h m =
    let fresh = new_block found m (kmalloc avail size h) in
    if ptr == 0
    then some fresh
    else if size == 0
    then with_bytes none m (kfree ptr h)
    else resize_found avail (ptr - header) size found (block_at h (ptr - header)) h m

unfoldable pub cleared : (total : ℕ) → Result → Result
cleared total (none, h, m) = (none, h, m)
cleared total (some p, h, m) = (some p, h, clear_bytes p total m)

unfoldable pub kcalloc : (avail nmemb size : ℕ) → (found : ℕ → ℕ) → Heap → Bytes → Result
kcalloc avail nmemb size found h m =
    let total = nmemb * size % 2 ^ 32 in
    if not (nmemb == 0) && ltb ((2 ^ 32 - 1) / nmemb) size
    then (none, h, m)
    else cleared total (new_block found m (kmalloc avail total h))
