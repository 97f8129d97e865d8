-- ===== src/Paging.antt =====
-- Page directories and page tables of kernel/mm/paging.c, over the physical memory as words: `words p i`
-- is word `i` of the page `p`. Where the linker puts the static tables is an argument.
pub mod Words
pub mod Destroy
pub mod Entries
pub mod Fresh
pub mod Map
pub mod Mmio
mod Tests
use Prim.Native.Nat.{bit_and, bit_or}
use spike_os.Prelude.{
  ℕ, zero, suc, ◌+◌, ◌-◌, ◌*◌, ◌/◌, ◌%◌, ◌^◌, Bool, true, false, not, ◌&&◌, ◌||◌, Option, none,
  some, ◌==◌, ltb, leb, if◌then◌else◌,
}
use spike_os.Frames.{Bitmap, frame_init, reserve_region, alloc_frame, free_frame}

-- The pages of `page_directory`, `first_page_table`, `second_page_table` and `third_page_table`, and the
-- physical end of the kernel.
pub record Layout : Type 0 where
  pub directory : ℕ
  pub first : ℕ
  pub second : ℕ
  pub third : ℕ
  pub endkernel : ℕ

pub record Memory : Type 0 where
  pub bitmap : Bitmap
  pub words : ℕ → ℕ → ℕ

-- PAGE_PRESENT | PAGE_WRITABLE, and PAGE_USER.
abbrev pub kernel_flags : ℕ
kernel_flags = 3

abbrev pub page_user : ℕ
page_user = 4

abbrev pub page_entries : ℕ
page_entries = 1024

-- The page of a physical address or of an entry, `x & 0xFFFFF000`; the indices of a virtual address.
abbrev pub page_of : ℕ → ℕ
page_of x = x / 4096

abbrev pub pd_index : ℕ → ℕ
pd_index virt = virt / 2 ^ 22

abbrev pub pt_index : ℕ → ℕ
pt_index virt = virt / 4096 % 1024

abbrev pub is_present : ℕ → Bool
is_present entry = entry % 2 == 1

unfoldable pub set_word : ℕ → ℕ → ℕ → Memory → Memory
set_word page i v m = record m { words = λ p j. if p == page && j == i then v else m.words p j }

-- `memset(pt, 0, PAGE_SIZE)` and `memcpy(pt, from, PAGE_SIZE)`.
unfoldable pub zero_page : ℕ → Memory → Memory
zero_page page m = record m { words = λ p j. if p == page then 0 else m.words p j }

unfoldable pub copy_page : ℕ → (from : ℕ) → Memory → Memory
copy_page page from m = record m {
  words = λ p j. if p == page then m.words from j else m.words p j;
}

-- TEMP_MAP_PTE_INDEX.
abbrev pub temp_slot : ℕ
temp_slot = 1023

-- The window of `temp_map` shows the page itself; what is left to see is its entry in the first table.
unfoldable pub temp_map : Layout → ℕ → Memory → Memory
temp_map l phys m = set_word l.first temp_slot (bit_or phys kernel_flags) m

unfoldable pub temp_unmap : Layout → Memory → Memory
temp_unmap l m = set_word l.first temp_slot 0 m

abbrev pub take_frame : Memory → Option ℕ × Memory
take_frame m = ((alloc_frame m.bitmap).0, record m { bitmap = (alloc_frame m.bitmap).1 })

abbrev pub give_frame : ℕ → Memory → Memory
give_frame phys m = record m { bitmap = free_frame m.bitmap phys }

-- The loop of `paging_init` over the first 4 MiB.
unfoldable pub identity_from : Layout → (rounds addr : ℕ) → Memory → Memory
identity_from l zero addr m = m
identity_from l (suc rounds) addr m =
    identity_from l rounds (addr + 4096)
      (set_word l.first (addr / 4096) (bit_or addr kernel_flags) m)

-- A directory entry for a static table.
unfoldable pub enter_table : Layout → (i page : ℕ) → Memory → Memory
enter_table l i page m = set_word l.directory i (bit_or (page * 4096) kernel_flags) m

unfoldable pub paging_init : Layout → Memory → Memory
paging_init l m =
    let bm =
      reserve_region (reserve_region frame_init 0 0x100000) 0x100000 (l.endkernel + 0x200000) in
    let m1 = zero_page l.first (zero_page l.directory (record m { bitmap = bm })) in
    let m2 = identity_from l 1024 0 m1 in
    let m3 = enter_table l 768 l.first (enter_table l 0 l.first m2) in
    let m4 = enter_table l 769 l.second (zero_page l.second m3) in
    enter_table l 770 l.third (zero_page l.third m4)

-- `virt_to_phys`: 0 where the kernel's directory has no entry.
unfoldable pub table_to_phys : Layout → (pde virt : ℕ) → Memory → ℕ × Memory
table_to_phys l pde virt m =
    let m1 = temp_map l (page_of pde * 4096) m in
    let pte = m1.words (page_of pde) (pt_index virt) in
    let m2 = temp_unmap l m1 in
    if is_present pte then (page_of pte * 4096 + virt % 4096, m2) else (0, m2)

unfoldable pub virt_to_phys : Layout → (virt : ℕ) → Memory → ℕ × Memory
virt_to_phys l virt m =
    let pde = m.words l.directory (pd_index virt) in
    if is_present pde then table_to_phys l pde virt m else (0, m)

-- `pgdir_create`: 0 on failure.
unfoldable pub clone_directory : Layout → Option ℕ × Memory → ℕ × Memory
clone_directory l (none, m) = (0, m)
clone_directory l (some pd, m) =
    (pd, temp_unmap l (copy_page (page_of pd) l.directory (temp_map l pd m)))

unfoldable pub pgdir_create : Layout → Memory → ℕ × Memory
pgdir_create l m = clone_directory l (take_frame m)

abbrev pub is_shared : Layout → ℕ → Bool
is_shared l page = page == l.first || page == l.second || page == l.third

-- The part of `pgdir_map_user_page` for a missing table, in the window on the directory.
unfoldable pub map_in_new : Layout → (pd virt phys flags : ℕ) → Option ℕ × Memory → Bool × Memory
map_in_new l pd virt phys flags (none, m) = (false, temp_unmap l m)
map_in_new l pd virt phys flags (some pt, m) =
    let entry = bit_or (bit_or pt kernel_flags) (bit_and flags page_user) in
    let m1 = temp_unmap l (set_word (page_of pd) (pd_index virt) entry m) in
    let m2 = zero_page (page_of pt) (temp_map l pt m1) in
    (true, temp_unmap l (set_word (page_of pt) (pt_index virt) (bit_or phys flags) m2))

-- The part for a table of the kernel, which is cloned.
unfoldable pub map_in_clone :
    Layout → (pd virt phys flags from : ℕ) → Option ℕ × Memory → Bool × Memory
map_in_clone l pd virt phys flags from (none, m) = (false, temp_unmap l m)
map_in_clone l pd virt phys flags from (some pt, m) =
    let entry = bit_or (bit_or pt kernel_flags) page_user in
    let m1 = temp_unmap l (set_word (page_of pd) (pd_index virt) entry m) in
    let m2 = copy_page (page_of pt) from (temp_map l pt m1) in
    (true, temp_unmap l (set_word (page_of pt) (pt_index virt) (bit_or phys flags) m2))

-- The part for a table of the process.
unfoldable pub map_in_table : Layout → (pt virt phys flags : ℕ) → Memory → Bool × Memory
map_in_table l pt virt phys flags m =
    let m1 = temp_map l (pt * 4096) (temp_unmap l m) in
    (true, temp_unmap l (set_word pt (pt_index virt) (bit_or phys flags) m1))

unfoldable pub map_by_entry : Layout → (pd virt phys flags pde : ℕ) → Memory → Bool × Memory
map_by_entry l pd virt phys flags pde m =
    if not (is_present pde)
    then map_in_new l pd virt phys flags (take_frame m)
    else if not (bit_and flags page_user == 0) && is_shared l (page_of pde)
    then map_in_clone l pd virt phys flags (page_of pde) (take_frame m)
    else map_in_table l (page_of pde) virt phys flags m

unfoldable pub pgdir_map_user_page : Layout → (pd virt phys flags : ℕ) → Memory → Bool × Memory
pgdir_map_user_page l pd virt phys flags m =
    let m1 = temp_map l pd m in
    map_by_entry l pd virt phys flags (m1.words (page_of pd) (pd_index virt)) m1

-- The table that `map_page` makes where there is none.
unfoldable pub make_table : Layout → (virt : ℕ) → Option ℕ × Memory → Bool × Memory
make_table l virt (none, m) = (false, m)
make_table l virt (some table, m) =
    let m1 = set_word l.directory (pd_index virt) (bit_or table kernel_flags) m in
    (true, temp_unmap l (zero_page (page_of table) (temp_map l table m1)))

unfoldable pub ensure_table : Layout → (virt : ℕ) → Memory → Bool × Memory
ensure_table l virt m =
    if is_present (m.words l.directory (pd_index virt))
    then (true, m)
    else make_table l virt (take_frame m)

unfoldable pub write_entry : Layout → (virt phys flags : ℕ) → Bool × Memory → Bool × Memory
write_entry l virt phys flags (false, m) = (false, m)
write_entry l virt phys flags (true, m) =
    let pt = page_of (m.words l.directory (pd_index virt)) in
    (
      true,
      temp_unmap l (set_word pt (pt_index virt) (bit_or phys flags) (temp_map l (pt * 4096) m)),
    )

unfoldable pub map_page : Layout → (virt phys flags : ℕ) → Memory → Bool × Memory
map_page l virt phys flags m = write_entry l virt phys flags (ensure_table l virt m)
