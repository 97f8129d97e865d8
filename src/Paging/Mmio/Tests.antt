-- ===== src/Paging/Mmio/Tests.antt =====
-- A device's memory behind the kernel's directory.
use spike_os.Prelude.{
  ℕ, suc, ◌≡◌, refl, ◌&&◌, ◌==◌, if◌then◌else◌, ◌∷◌, replicate, arith, ap, length-replicate,
}
use spike_os.Prelude.Bits.{bit}
use spike_os.Paging.{Layout, Memory}
use spike_os.Paging.Entries.{HasTable, table}
use spike_os.Paging.Mmio.{mmio_pde_start, map_mmio_region}
use spike_os.Paging.Mmio.Pages.{IsKernel}
use spike_os.Paging.Mmio.Laws.{MmioOutcome, map_mmio_region-Outcome}

abbrev layout : Layout
layout = record { directory = 16; first = 17; second = 18; third = 19; endkernel = 0 }

-- The first table stands at the kernel's addresses, and the frames below 32 are in use.
abbrev memory : Memory
memory = record {
  bitmap = 4294967295 ∷ replicate 511 0;
  words = λ p j. if p == 16 && j == 768 then 69635 else 0;
}

only_table : (i : ℕ) → HasTable memory 16 i → i ≡ 768
only_table i h = ground arith

table_17 : (i : ℕ) → HasTable memory 16 i → table memory 16 i ≡ 17
table_17 i h = ground arith

memory-IsKernel : IsKernel layout mmio_pde_start memory
unfolding bit
memory-IsKernel = record {
  valid = record {
    sized = ap suc (length-replicate {A = ℕ} 511 0);
    closed = refl;
    dir_used = refl;
    first_used = refl;
    second_used = refl;
    third_used = refl;
    own = refl;
    used = λ i h. rw (table_17 i h);
    other = λ i h e. absurd (omega (arith, table_17 i h, e));
    apart = λ i j h k ne _ _. ground (arith, only_table i h, only_table j k, ne);
  };
  own = λ i lt h. absurd (omega (arith, only_table i h, lt));
}

map_mmio_region-Outcome_example :
    MmioOutcome layout 0xFEBC0010 0x20000 mmio_pde_start memory
      (map_mmio_region layout 0xFEBC0010 0x20000 mmio_pde_start memory)
map_mmio_region-Outcome_example =
    map_mmio_region-Outcome layout 0xFEBC0010 0x20000 mmio_pde_start memory (omega arith)
      (omega arith) memory-IsKernel
