-- ===== src/Heap/Resize/Laws.antt =====
-- What `krealloc` returns, and what it does to the blocks and to their bytes.
use spike_os.Prelude.{
  ℕ, ◌+◌, ◌*◌, ◌%◌, ◌^◌, ◌≤◌, ◌<◌, ◌≡◌, ◌≢◌, true, false, Option, none, some, ◌==◌, ltb,
  if◌then◌else◌, ◌⊎◌,
}
use spike_os.Heap.{
  Block, Heap, header, page_size, heap_max_size, heap_start, heap_end, block_at, pages_needed,
}
use spike_os.Heap.Links.{IsHeap, used}
use spike_os.Heap.Kmalloc.{rounded}
use spike_os.Heap.Resize.{Bytes, take_bytes, copy_bytes, Result}

-- The block of `old` bytes at `x` is now the block at `y` with room for `new`, which is `x` itself or
-- was not in use; the data that fit are kept, and the bytes of all other blocks in use are unchanged.
pub record Resized (x old new y : ℕ) (h : Heap) (m : Bytes) (h' : Heap) (m' : Bytes) : Type 0 where
  pub size : ℕ
  pub enough : rounded new ≤ size
  pub well_formed : IsHeap h'
  pub aligned : y % 16 ≡ 0
  pub fresh : (x ≡ y) ⊎ (used h y ≡ none)
  pub now_used :
      (z : ℕ) → used h' z ≡ (if y == z then some size else if x == z then none else used h z)
  pub kept : (i : ℕ) → i < old → i < new → m' (y + header) i ≡ m (x + header) i
  pub rest : (z s i : ℕ) → used h' z ≡ some s → z ≢ y → i < s → m' (z + header) i ≡ m (z + header) i

-- A resized block, or NULL and no change: no free block is large enough, and the heap cannot grow.
pub data ReallocOutcome (avail x old new : ℕ) (h : Heap) (m : Bytes) (r : Option Result)
    : Type 0 where
  resized :
      (y : ℕ) (h' : Heap) (m' : Bytes)
      → r ≡ some (some (y + header), h', m')
      → Resized x old new y h m h' m'
      → ReallocOutcome avail x old new h m r
  refused :
      ((y : ℕ) (b : Block) → block_at h y ≡ some b → b.free ≡ true → b.size < rounded new)
      → (avail < pages_needed (rounded new))
        ⊎ (heap_start + heap_max_size < heap_end h + pages_needed (rounded new) * page_size)
      → r ≡ some (none, h, m)
      → ReallocOutcome avail x old new h m r

module _ (avail x size : ℕ) (found : ℕ → ℕ) (b : Block) (h : Heap) (m : Bytes) (valid : IsHeap h)
    (at_x : block_at h x ≡ some b) (busy : b.free ≡ false) (positive : 1 ≤ size)
    (small : size + 8207 ≤ 2 ^ 32) where
  -- The block takes in the one behind it.
  abbrev larger : Bytes
  larger = take_bytes (x + header) b.size found m

  abbrev least_of : ℕ
  least_of = if ltb b.size size then b.size else size

  abbrev copied : ℕ → Bytes
  copied y = copy_bytes (y + header) (x + header) least_of (take_bytes (y + header) 0 found m)
