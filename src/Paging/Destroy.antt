-- ===== src/Paging/Destroy.antt =====
-- `pgdir_destroy` of kernel/mm/paging.c.
pub mod Frees
pub mod Sweep
use spike_os.Prelude.{ℕ, zero, suc, ◌+◌, ◌*◌, Bool, not, ◌&&◌, ◌==◌, if◌then◌else◌}
use spike_os.Paging.{
  Layout, Memory, page_of, is_present, is_shared, temp_map, temp_unmap, give_frame,
}

-- One entry of a table, read in the window.
unfoldable pub read_entry : Layout → (page i : ℕ) → Memory → ℕ × Memory
read_entry l page i m = let m1 = temp_map l (page * 4096) m in (m1.words page i, temp_unmap l m1)

-- A frame given back if an entry is present.
unfoldable pub free_present : ℕ × Memory → Memory
free_present (pte, m) = if is_present pte then give_frame (page_of pte * 4096) m else m

-- The loop over the entries of a table.
unfoldable pub free_entries : Layout → (table rounds j : ℕ) → Memory → Memory
free_entries l table zero j m = m
free_entries l table (suc rounds) j m =
    free_entries l table rounds (j + 1) (free_present (read_entry l table j m))

abbrev pub owns : Layout → ℕ → Bool
owns l pde = is_present pde && not (is_shared l (page_of pde))

-- A table of the process with the frames it maps; a clone of a table of the kernel alone.
unfoldable pub free_user_table : Layout → ℕ × Memory → Memory
free_user_table l (pde, m) =
    let table = page_of pde in
    if owns l pde then give_frame (table * 4096) (free_entries l table 1024 0 m) else m

unfoldable pub free_clone : Layout → ℕ × Memory → Memory
free_clone l (pde, m) = if owns l pde then give_frame (page_of pde * 4096) m else m

unfoldable pub free_user_tables : Layout → (pd rounds i : ℕ) → Memory → Memory
free_user_tables l pd zero i m = m
free_user_tables l pd (suc rounds) i m =
    free_user_tables l pd rounds (i + 1) (free_user_table l (read_entry l pd i m))

unfoldable pub free_clones : Layout → (pd rounds i : ℕ) → Memory → Memory
free_clones l pd zero i m = m
free_clones l pd (suc rounds) i m =
    free_clones l pd rounds (i + 1) (free_clone l (read_entry l pd i m))

unfoldable pub pgdir_destroy : Layout → (pd_phys : ℕ) → Memory → Memory
pgdir_destroy l pd_phys m =
    let pd = page_of pd_phys in
    let freed = free_clones l pd 256 768 (free_user_tables l pd 767 1 m) in
    if pd_phys == 0 then m else give_frame pd_phys freed
