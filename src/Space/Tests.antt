-- ===== src/Space/Tests.antt =====
-- A process with one page table, and calls on its address space.
use spike_os.Prelude.{
  ℕ, suc, ◌≡◌, refl, ◌&&◌, ◌==◌, if◌then◌else◌, [], ◌∷◌, replicate, arith, ap, length-replicate,
}
use spike_os.Prelude.Bits.{bit}
use spike_os.Paging.{Layout, Memory, page_of, pd_index, pgdir_map_user_page}
use spike_os.Paging.Entries.{IsDirectory, HasTable, table, Mapped}
use spike_os.Paging.Map.{pgdir_map_user_page-Mapped}
use Prim.Native.Nat.{bit_or}
use spike_os.Space.{Space, sys_brk}
use spike_os.Space.Brk.{Moved, sys_brk-Moved}

abbrev layout : Layout
layout = record { directory = 16; first = 17; second = 18; third = 19; endkernel = 0 }

-- The directory is page 20, its only table page 21, for the addresses from 0x40000000 on.
abbrev words : ℕ → ℕ → ℕ
words p j = if p == 20 && j == 256 then 86023 else 0

-- The frames below 32 are in use.
abbrev memory : Memory
memory = record { bitmap = 4294967295 ∷ replicate 511 0; words = words }

abbrev cr3 : ℕ
cr3 = 81920

only_table : (i : ℕ) → HasTable memory 20 i → i ≡ 256
only_table i h = ground arith

table_21 : (i : ℕ) → HasTable memory 20 i → table memory 20 i ≡ 21
table_21 i h = ground arith

memory-IsDirectory : IsDirectory layout memory (page_of cr3)
unfolding bit
memory-IsDirectory = record {
  sized = ap suc (length-replicate {A = ℕ} 511 0);
  closed = refl;
  dir_used = refl;
  first_used = refl;
  second_used = refl;
  third_used = refl;
  own = refl;
  used = λ i h. rw (table_21 i h);
  other = λ i h e. absurd (omega (arith, table_21 i h, e));
  apart = λ i j h k ne _ _. ground (arith, only_table i h, only_table j k, ne);
}

pgdir_map_user_page-Mapped_example :
    Mapped layout 20 0x40000000
      (bit_or 0x100000 7)
      memory
      (pgdir_map_user_page layout cr3 0x40000000 0x100000 7 memory)
pgdir_map_user_page-Mapped_example =
    pgdir_map_user_page-Mapped layout memory cr3 0x40000000 0x100000 7 memory-IsDirectory
      (λ h shared. absurd (ground arith))

-- A break in the page before the mappings, and one region.
abbrev space : Space
space = record {
  cr3 = cr3;
  brk = 0x3FFFF000;
  vmas = record { base = 0x40000000; size = 4096; prot = 3; flags = 6 } ∷ [];
}

sys_brk-Moved_example :
    Moved layout 0x40000001 space memory (sys_brk layout 0x40000001 space memory)
sys_brk-Moved_example =
    sys_brk-Moved layout 0x40000001 space memory (λ e. absurd (omega arith)) (omega arith)
      (omega arith) (omega arith) memory-IsDirectory (λ v h has. rw (table_21 (pd_index v) has))
