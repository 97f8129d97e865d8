-- ===== src/Heap/Resize/Calloc.antt =====
-- What `kcalloc` returns.
use spike_os.Prelude.{
  ℕ, ◌+◌, ◌-◌, ◌*◌, ◌/◌, ◌%◌, ◌^◌, ◌≤◌, ◌<◌, ◌≡◌, ◌≢◌, refl, true, false, Option, none, some, arith,
  ◌==◌, ltb, ap,
}
use spike_os.Frames.{max_frames}
use spike_os.Heap.{Heap, header, kmalloc}
use spike_os.Heap.Links.{IsHeap}
use spike_os.Heap.Kmalloc.{Allocated, Outcome, allocated, out_of_memory, rounded, kmalloc-Outcome}
use spike_os.Heap.Resize.{Bytes, take_bytes, clear_bytes, new_block, cleared, kcalloc, Result}

-- A block of zeros that was not in use, or NULL and no change.
pub data CallocOutcome (avail total : ℕ) (h : Heap) (m : Bytes) (r : Result) : Type 0 where
  zeroed :
      (y : ℕ)
      → r.0 ≡ some (y + header)
      → Allocated y (rounded total) h r.1
      → ((i : ℕ) → i < total → r.2 (y + header) i ≡ 0)
      → ((z i : ℕ) → z ≢ y → r.2 (z + header) i ≡ m (z + header) i)
      → CallocOutcome avail total h m r
  too_large : r ≡ (none, h, m) → CallocOutcome avail total h m r

cleared-Outcome :
    (avail total : ℕ) (found : ℕ → ℕ) (h : Heap) (m : Bytes) (r : Option ℕ × Heap)
    → Outcome avail (rounded total) h r
    → CallocOutcome avail total h m (cleared total (new_block found m r))
unfolding cleared new_block clear_bytes take_bytes
cleared-Outcome avail total found h m (none, h1) (allocated y e a) = absurd (ground (arith, e))
cleared-Outcome avail total found h m (some p, h1) (allocated y e a) =
    let q : p ≡ y + header = ground (arith, e) in zeroed y e a zeros others
  where
    zeros : (i : ℕ) → i < total → clear_bytes p total (take_bytes p 0 found m) (y + header) i ≡ 0
    zeros i l =
        let here : (p == y + header) ≡ true = ground (arith, e) in
        let inside : ltb i total ≡ true = ground arith in rw (here, inside) refl

    others :
        (z i : ℕ)
        → z ≢ y
        → clear_bytes p total (take_bytes p 0 found m) (z + header) i ≡ m (z + header) i
    others z i ne = let apart : (p == z + header) ≡ false = ground (arith, e, ne) in rw apart refl
cleared-Outcome avail total found h m (none, h1) (out_of_memory all why e) =
    too_large (ap (λ (q : Option ℕ × Heap). (none, q.1, m)) e)
cleared-Outcome avail total found h m (some p, h1) (out_of_memory all why e) =
    absurd (ground (arith, ap (λ (q : Option ℕ × Heap). q.0) e))

-- `kcalloc` of a product that has more than 32 bits returns NULL and changes nothing.
pub kcalloc_overflow :
    (avail nmemb size : ℕ) (found : ℕ → ℕ) (h : Heap) (m : Bytes)
    → 2 ^ 32 ≤ nmemb * size
    → kcalloc avail nmemb size found h m ≡ (none, h, m)
unfolding kcalloc
kcalloc_overflow avail nmemb size found h m large =
    let members : (nmemb == 0) ≡ false = ground (arith, large) in
    let beyond : ltb ((2 ^ 32 - 1) / nmemb) size ≡ true = grind (arith, large) in
    rw (members, beyond) refl

-- `kcalloc` of a product that is not 0 and not within 8207 bytes of 2^32, on a well-formed heap and
-- where at most MAX_FRAMES pages can be had: it takes one new block for the product into use, clears it
-- and leaves the bytes of all other blocks, or returns NULL and changes nothing.
pub kcalloc-Outcome :
    (avail nmemb size : ℕ) (found : ℕ → ℕ) (h : Heap) (m : Bytes)
    → IsHeap h
    → 1 ≤ nmemb * size
    → nmemb * size + 8207 ≤ 2 ^ 32
    → avail ≤ max_frames
    → CallocOutcome avail (nmemb * size) h m (kcalloc avail nmemb size found h m)
unfolding kcalloc
kcalloc-Outcome avail nmemb size found h m valid positive small few =
    let members : (nmemb == 0) ≡ false = ground (arith, positive) in
    let within : ltb ((2 ^ 32 - 1) / nmemb) size ≡ false = grind (arith, small) in
    let whole : nmemb * size % 2 ^ 32 ≡ nmemb * size = omega (arith, small) in
    rw (members, within)
      (rw whole (
        cleared-Outcome avail (nmemb * size) found h m (kmalloc avail (nmemb * size) h)
          (kmalloc-Outcome avail (nmemb * size) h valid positive small few)))
