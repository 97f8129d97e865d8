-- ===== src/Paging/Tests.antt =====
-- A process with one page of its own, torn down.
use spike_os.Prelude.{ℕ, ◌&&◌, ◌==◌, if◌then◌else◌, ◌∷◌, replicate}
use spike_os.Paging.{Layout, Memory}

abbrev layout : Layout
layout = record { directory = 16; first = 17; second = 18; third = 19; endkernel = 0 }

-- The directory is page 20 with one table, page 21, for the addresses from 0x40000000 on; page 30 is mapped there.
abbrev words : ℕ → ℕ → ℕ
words p j = if p == 20 && j == 256 then 86023 else if p == 21 && j == 5 then 122887 else 0

abbrev memory : Memory
memory = record { bitmap = 4294967295 ∷ replicate 511 0; words = words }
