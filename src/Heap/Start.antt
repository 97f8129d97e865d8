-- ===== src/Heap/Start.antt =====
-- The heap that `heap_init` leaves, and requests that wrap.
use spike_os.Prelude.{
  ℕ, ◌+◌, ◌*◌, ◌/◌, ◌%◌, ◌^◌, ◌≤◌, ◌<◌, ◌≡◌, refl, true, false, none, some, arith, ◌==◌, Bool-cases,
  inl, inr, sym, ap, ◌⊎◌,
}
use spike_os.Heap.{
  lookup, walk_end, heap_init, Block, Heap, heap_start, block_at, size_of, align_up, kmalloc,
}
use spike_os.Heap.Links.{IsHeap, count, used}

-- A size within 15 bytes of 2^32 wraps to 0 when it is rounded up, and `kmalloc` does for it what it does
-- for 16 bytes.
pub kmalloc_wraps :
    (avail size : ℕ) (h : Heap)
    → 2 ^ 32 ≤ size + 15
    → size < 2 ^ 32
    → kmalloc avail size h ≡ kmalloc avail 16 h
unfolding kmalloc align_up
kmalloc_wraps avail size h low high =
    let nonzero : (size == 0) ≡ false = ground arith in
    let wrapped : (size + 15) % 2 ^ 32 / 16 * 16 ≡ 0 = omega arith in rw nonzero (rw wrapped refl)

-- The heap that `heap_init` leaves is well formed, and nothing of it is in use.
pub heap_init-IsHeap : IsHeap heap_init × ((y : ℕ) → used heap_init y ≡ none)
unfolding heap_init lookup walk_end count
heap_init-IsHeap = (
  record {
    linked = λ x. ground arith;
    sized = λ x b e. init_block x b (Bool-cases (heap_start == x)) e;
    bounded = omega arith;
    end_aligned = refl;
  },
  λ y. ground arith,
)
  where
    init_block :
        (x : ℕ) (b : Block)
        → ((heap_start == x) ≡ true) ⊎ ((heap_start == x) ≡ false)
        → block_at heap_init x ≡ some b
        → (b.size % 16 ≡ 0) × (16 ≤ b.size) × (x % 16 ≡ 0)
    init_block x b (inl t) e =
        let size : 16368 ≡ b.size = ap size_of (rw t at e) in
        let p : heap_start ≡ x = ground (arith, t) in
        (ap (λ k. k % 16) (sym size), omega (arith, size), ap (λ k. k % 16) (sym p))
    init_block x b (inr f) e = absurd (ground (arith, rw f at e))
