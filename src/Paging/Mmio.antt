-- ===== src/Paging/Mmio.antt =====
-- `map_mmio_region` of kernel/mm/paging.c, which claims whole entries of the kernel's directory.
pub mod Kernel
pub mod Pages
pub mod Laws
mod Tests
use spike_os.Prelude.{
  ℕ, zero, suc, ◌+◌, ◌*◌, ◌/◌, ◌%◌, ◌^◌, Bool, true, false, Option, none, some, ◌==◌, ltb,
  if◌then◌else◌,
}
use spike_os.Paging.{Layout, Memory, page_entries, map_page}

-- MMIO_PDE_START, and PAGE_PRESENT | PAGE_WRITABLE | PAGE_CACHE_DISABLE.
abbrev pub mmio_pde_start : ℕ
mmio_pde_start = 773

abbrev pub mmio_flags : ℕ
mmio_flags = 19

-- The loop over the pages.
unfoldable pub map_run : Layout → (rounds virt phys : ℕ) → Memory → Bool × Memory
map_run l zero virt phys m = (true, m)
map_run l (suc rounds) virt phys m =
    let (done, m') = map_page l virt phys mmio_flags m in
    elim done [
      | false ↦ (false, m')
      | true ↦ map_run l rounds ((virt + 4096) % 2 ^ 32) ((phys + 4096) % 2 ^ 32) m'
    ]

-- The pages that `size` bytes at an offset in a page take, and the directory entries that those take.
unfoldable pub page_count : (size offset : ℕ) → ℕ
page_count size offset = ((size + offset) % 2 ^ 32 + 4095) % 2 ^ 32 / 4096

abbrev pub pde_count : ℕ → ℕ
pde_count pages = (pages + 1023) / 1024

-- `mmio_next_pde`, and `*virt_out` or -1.
abbrev pub MmioResult : Type 0
MmioResult = Option ℕ × ℕ × Memory

unfoldable pub claim_pdes : (next pages virt : ℕ) → Bool × Memory → MmioResult
claim_pdes next pages virt (false, m) = (none, next, m)
claim_pdes next pages virt (true, m) = (some virt, next + pde_count pages, m)

unfoldable pub map_mmio_region : Layout → (phys_base size next : ℕ) → Memory → MmioResult
map_mmio_region l phys_base size next m =
    let pages = page_count size (phys_base % 4096) in
    let virt_base = next * 2 ^ 22 % 2 ^ 32 in
    if size == 0
    then (none, next, m)
    else if ltb page_entries (next + pde_count pages)
    then (none, next, m)
    else claim_pdes next pages (virt_base + phys_base % 4096)
        (map_run l pages virt_base (phys_base / 4096 * 4096) m)
