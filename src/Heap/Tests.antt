-- ===== src/Heap/Tests.antt =====
-- Runs of the heap from the state that `heap_init` leaves.
use spike_os.Prelude.{◌+◌, ◌≡◌, refl, true, false, some, arith}
use spike_os.Heap.{
  Block, Heap, header, heap_start, block_at, lookup, heap_init, kmalloc, kfree, align_up, allocate,
  first_fit, take_block, split_rest, split_block, free_list_insert, free_list_remove, set_free,
}
use spike_os.Heap.Links.{IsHeap}
use spike_os.Heap.Alloc.{take_block-Taken}
use spike_os.Heap.Free.{Freed, kfree-Freed}
use spike_os.Heap.Kmalloc.{Outcome, rounded, kmalloc-Outcome}
use spike_os.Heap.Start.{heap_init-IsHeap}

kmalloc-Outcome_example : Outcome 100 (rounded 20) heap_init (kmalloc 100 20 heap_init)
kmalloc-Outcome_example =
    kmalloc-Outcome 100 20 heap_init heap_init-IsHeap.0 (omega arith) (omega arith) (omega arith)

abbrev first_block : Block
first_block = record { size = 16368; free = true }

first_found : block_at heap_init heap_start ≡ some first_block
unfolding heap_init lookup
first_found = refl

-- The heap with 32 bytes taken from its only block.
abbrev busy : Heap
busy = (take_block heap_start 32 heap_init).1

abbrev busy_block : Block
busy_block = record { size = 32; free = false }

busy-IsHeap : IsHeap busy
busy-IsHeap =
    (take_block-Taken heap_start 32 first_block heap_init heap_init-IsHeap.0 first_found refl
      (omega arith) refl (omega arith)).well_formed

busy_found : block_at busy heap_start ≡ some busy_block
unfolding take_block split_rest split_block free_list_insert free_list_remove set_free heap_init
    lookup
busy_found = refl

kfree-Freed_example :
    (h' : Heap) × (kfree (heap_start + header) busy ≡ some h')
    × Freed heap_start busy h'
    × ((busy_block.free ≡ true) → h' ≡ busy)
kfree-Freed_example = kfree-Freed heap_start busy_block busy busy-IsHeap busy_found

taken_at : (kmalloc 100 20 heap_init).0 ≡ some 3225419792
unfolding kmalloc align_up allocate first_fit take_block heap_init lookup
taken_at = refl
