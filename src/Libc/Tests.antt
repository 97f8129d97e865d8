-- ===== src/Libc/Tests.antt =====
-- A heap of a user program.
use spike_os.Prelude.{ℕ, ◌≡◌, refl, true, false, Option, none, some, [], ◌∷◌, ltb, if◌then◌else◌}
use spike_os.Libc.Malloc.{
  Chain, malloc, align_up, find_free, take_block, split_block, set_free, at_block, allocate,
}

-- Two free blocks with one in use between them.
abbrev chain : Chain
chain =
    record { addr = 4096; size = 64; free = true }
    ∷ (record { addr = 4176; size = 32; free = false }
        ∷ (record { addr = 4224; size = 3952; free = true } ∷ []))

abbrev sbrk : ℕ → Option ℕ
sbrk total = if ltb total 65536 then some 8192 else none

-- The first block is split.
malloc_20 : malloc sbrk 20 chain ≡ (
  some 4112,
  record { addr = 4096; size = 24; free = false }
      ∷ (record { addr = 4136; size = 24; free = true }
          ∷ (record { addr = 4176; size = 32; free = false }
              ∷ (record { addr = 4224; size = 3952; free = true } ∷ []))),
)
unfolding malloc allocate find_free align_up take_block at_block set_free split_block
malloc_20 = refl
