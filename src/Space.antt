-- ===== src/Space.antt =====
-- The address space of a process: the pointer checks, `sys_brk`, `sys_mmap` and `sys_munmap` of
-- kernel/core/syscall.c, over the page directories of kernel/mm/paging.c. Addresses and lengths are 32
-- bits wide; a system call returns -1 as `none`.
pub mod Pointers
pub mod Grow
pub mod Outcome
pub mod Range
pub mod Brk
pub mod Regions
pub mod Removal
pub mod Mmap
pub mod Munmap
mod Tests
use Prim.Native.Nat.{bit_and}
use spike_os.Prelude.{
  ℕ, zero, suc, ◌+◌, ◌-◌, ◌*◌, ◌/◌, ◌%◌, ◌^◌, Bool, true, false, not, ◌&&◌, ◌||◌, Option, none,
  some, List, [], ◌∷◌, ◌++◌, ◌==◌, ltb, leb, if◌then◌else◌, length,
}
use spike_os.Prelude.Search.{search}
use spike_os.Prelude.{get_or}
use spike_os.Paging.{
  Layout, Memory, page_of, temp_map, temp_unmap, zero_page, take_frame, give_frame,
  pgdir_map_user_page, virt_to_phys, page_user,
}

-- KERNEL_VMA_OFFSET, USER_STACK_VADDR and MMAP_BASE.
abbrev pub kernel_vma : ℕ
kernel_vma = 0xC0000000

abbrev pub user_stack : ℕ
user_stack = 0xBFFFF000

abbrev pub mmap_base : ℕ
mmap_base = 0x40000000

abbrev pub max_vmas : ℕ
max_vmas = 16

-- `vma_t`.
pub record Vma : Type 0 where
  pub base : ℕ
  pub size : ℕ
  pub prot : ℕ
  pub flags : ℕ

abbrev pub zero_vma : Vma
zero_vma = record { base = 0; size = 0; prot = 0; flags = 0 }

-- The fields of `struct process` that these calls use; `vmas` has `vma_count` entries.
pub record Space : Type 0 where
  pub cr3 : ℕ
  pub brk : ℕ
  pub vmas : List Vma

-- `bad_user_ptr` and `bad_user_string`.
pub bad_user_ptr : (addr len : ℕ) → Bool
bad_user_ptr addr len =
    if addr == 0
    then true
    else if leb kernel_vma addr
    then true
    else if ltb 0 len && ltb kernel_vma ((addr + len) % 2 ^ 32)
    then true
    else ltb 0 len && ltb ((addr + len) % 2 ^ 32) addr

pub bad_user_string : (addr : ℕ) → Bool
bad_user_string addr = if addr == 0 then true else leb kernel_vma addr

-- `(x + PAGE_SIZE - 1) & ~(PAGE_SIZE - 1)`.
unfoldable pub page_up : ℕ → ℕ
page_up x = (x + 4095) % 2 ^ 32 / 4096 * 4096

-- One more page of zeroes at `virt`, as the loops of `sys_brk` and `sys_mmap` make it.
unfoldable pub fill_frame : Layout → (frame : ℕ) → Bool × Memory → Bool × Memory
fill_frame l frame (false, m) = (false, give_frame frame m)
fill_frame l frame (true, m) = (true, temp_unmap l (zero_page (page_of frame) (temp_map l frame m)))

unfoldable pub map_frame : Layout → (cr3 virt flags : ℕ) → Option ℕ × Memory → Bool × Memory
map_frame l cr3 virt flags (none, m) = (false, m)
map_frame l cr3 virt flags (some frame, m) =
    fill_frame l frame (pgdir_map_user_page l cr3 virt frame flags m)

unfoldable pub map_new_page : Layout → (cr3 virt flags : ℕ) → Memory → Bool × Memory
map_new_page l cr3 virt flags m = map_frame l cr3 virt flags (take_frame m)

-- The loops: how many pages were mapped, out of `pages`, from `virt` on.
unfoldable pub map_pages : Layout → (cr3 flags pages virt : ℕ) → Memory → ℕ × Memory
map_pages l cr3 flags zero virt m = (0, m)
map_pages l cr3 flags (suc pages) virt m =
    let (done, m') = map_new_page l cr3 virt flags m in
    let rest = map_pages l cr3 flags pages (virt + 4096) m' in
    if done then (suc rest.0, rest.1) else (0, m')

-- PAGE_PRESENT | PAGE_WRITABLE | PAGE_USER.
abbrev pub user_flags : ℕ
user_flags = 7

-- The growth of `sys_brk` to a break that it accepts.
unfoldable pub grow_brk : Layout → (new_brk : ℕ) → Space → Memory → Option ℕ × Space × Memory
grow_brk l new_brk s m =
    let pages = (page_up new_brk - page_up s.brk) / 4096 in
    let (mapped, m') = map_pages l s.cr3 user_flags pages (page_up s.brk) m in
    if mapped == pages then (some new_brk, record s { brk = new_brk }, m') else (some s.brk, s, m')

-- `sys_brk`: the break that it returns.
unfoldable pub sys_brk : Layout → (new_brk : ℕ) → Space → Memory → Option ℕ × Space × Memory
sys_brk l new_brk s m =
    if s.cr3 == 0
    then (none, s, m)
    else if new_brk == 0
    then (some s.brk, s, m)
    else if ltb new_brk s.brk
    then (some s.brk, s, m)
    else if leb user_stack new_brk
    then (some s.brk, s, m)
    else grow_brk l new_brk s m

-- `addr < v->base + v->length && addr + length > v->base`.
unfoldable pub overlaps : (addr len : ℕ) → Vma → Bool
overlaps addr len v = ltb addr ((v.base + v.size) % 2 ^ 32) && ltb v.base ((addr + len) % 2 ^ 32)

-- The first region that overlaps.
unfoldable pub find_overlap : (addr len : ℕ) → List Vma → Option Vma
find_overlap addr len [] = none
find_overlap addr len (v ∷ vs) =
    let rest = find_overlap addr len vs in if overlaps addr len v then some v else rest

-- The attempts of `sys_mmap` to find a gap.
unfoldable pub find_gap : (attempts addr len : ℕ) → List Vma → Option ℕ
find_gap zero addr len vs = none
find_gap (suc attempts) addr len vs = elim (find_overlap addr len vs) [
  | none ↦ some addr
  | some v ↦ find_gap attempts (page_up ((v.base + v.size) % 2 ^ 32)) len vs
]

unfoldable pub check_gap : (len : ℕ) → Option ℕ → Option ℕ
check_gap len none = none
check_gap len (some addr) =
    if ltb user_stack ((addr + len) % 2 ^ 32) || ltb ((addr + len) % 2 ^ 32) addr
    then none
    else some addr

-- MAP_FIXED.
unfoldable pub fixed_place : (addr len : ℕ) → List Vma → Option ℕ
fixed_place addr len vs =
    if not (addr % 4096 == 0)
    then none
    else if ltb addr mmap_base || ltb user_stack ((addr + len) % 2 ^ 32)
    then none
    else if ltb ((addr + len) % 2 ^ 32) addr
    then none
    else elim (find_overlap addr len vs) [ none ↦ some addr | some v ↦ none ]

-- Where `sys_mmap` puts a region of the rounded length.
unfoldable pub place : (flags addr len : ℕ) → List Vma → Option ℕ
place flags addr len vs =
    if bit_and flags 8 == 0
    then check_gap len (find_gap 1000 mmap_base len vs)
    else fixed_place addr len vs

-- A page is freed and its entry cleared. The address is looked up by `virt_to_phys`.
unfoldable pub free_found : (phys : ℕ) → Memory → Memory
free_found phys m = if phys == 0 || phys == 2 ^ 32 - 1 then m else give_frame phys m

unfoldable pub unmap_page : Layout → (cr3 virt : ℕ) → Memory → Memory
unmap_page l cr3 virt m =
    let (phys, m') = virt_to_phys l virt m in
    (pgdir_map_user_page l cr3 virt 0 0 (free_found phys m')).1

unfoldable pub unmap_pages : Layout → (cr3 pages virt : ℕ) → Memory → Memory
unmap_pages l cr3 zero virt m = m
unmap_pages l cr3 (suc pages) virt m =
    unmap_pages l cr3 pages (virt + 4096) (unmap_page l cr3 virt m)

-- The page flags for a protection: PROT_WRITE makes the page writable.
unfoldable pub prot_flags : ℕ → ℕ
prot_flags prot = if bit_and prot 2 == 0 then 5 else 7

-- The pages of a new region, and its entry in the table; or all undone.
unfoldable pub make_region :
    Layout → (prot flags len : ℕ) → Space → Memory → Option ℕ → Option ℕ × Space × Memory
make_region l prot flags len s m none = (none, s, m)
make_region l prot flags len s m (some addr) =
    let (mapped, m') = map_pages l s.cr3 (prot_flags prot) (len / 4096) addr m in
    let vma : Vma = record { base = addr; size = len; prot = prot; flags = flags } in
    if mapped == len / 4096
    then (some addr, record s { vmas = s.vmas ++ (vma ∷ []) }, m')
    else (none, s, unmap_pages l s.cr3 mapped addr m')

-- `sys_mmap` on the arguments that `struct mmap_args` holds.
unfoldable pub sys_mmap :
    Layout → (addr len prot flags : ℕ) → Space → Memory → Option ℕ × Space × Memory
sys_mmap l addr len prot flags s m =
    if s.cr3 == 0
    then (none, s, m)
    else if bit_and flags 4 == 0
    then (none, s, m)
    else if len == 0
    then (none, s, m)
    else if leb max_vmas (length s.vmas)
    then (none, s, m)
    else make_region l prot flags (page_up len) s m (place flags addr (page_up len) s.vmas)

abbrev is_region : (addr len : ℕ) → Vma → Bool
is_region addr len v = v.base == addr && v.size == len

unfoldable pub keep_region : Vma → Option (List Vma) → Option (List Vma)
keep_region v none = none
keep_region v (some vs) = some (v ∷ vs)

-- The table without the first region of an address and a length.
unfoldable pub remove_region : (addr len : ℕ) → List Vma → Option (List Vma)
remove_region addr len [] = none
remove_region addr len (v ∷ vs) =
    let rest = remove_region addr len vs in
    if is_region addr len v then some vs else keep_region v rest

unfoldable pub unmap_region :
    Layout → (addr len : ℕ) → Space → Memory → Option (List Vma) → Bool × Space × Memory
unmap_region l addr len s m none = (false, s, m)
unmap_region l addr len s m (some vs) =
    (true, record s { vmas = vs }, unmap_pages l s.cr3 (len / 4096) addr m)

unfoldable pub sys_munmap : Layout → (addr len : ℕ) → Space → Memory → Bool × Space × Memory
sys_munmap l addr len s m =
    if s.cr3 == 0
    then (false, s, m)
    else if not (addr % 4096 == 0)
    then (false, s, m)
    else if len == 0
    then (false, s, m)
    else unmap_region l addr (page_up len) s m (remove_region addr (page_up len) s.vmas)
