-- ===== src/Space/Mmap.antt =====
-- `sys_mmap`: where a region goes, and what is mapped there.
use Prim.Native.Nat.{bit_and}
use spike_os.Prelude.{
  ℕ, ◌+◌, ◌/◌, ◌≤◌, ◌<◌, ◌≡◌, false, ◌==◌, if◌then◌else◌, Option, none, some, [], ◌∷◌, ◌++◌, length,
}
use spike_os.Paging.{Layout, Memory, page_of, pd_index, is_shared}
use spike_os.Paging.Entries.{HasTable, table}
use spike_os.Space.{Space, Vma, max_vmas, mmap_base, user_stack, page_up, unmap_pages, place}
use spike_os.Space.Outcome.{Exhausted}
use spike_os.Space.Range.{Ranged}
use spike_os.Space.Regions.{InBounds, Bounded, Clear, Separate}

-- The regions are whole pages in bounds, apart from one another, and not too many.
pub record IsSpace (s : Space) : Type 0 where
  pub bounded : Bounded s.vmas
  pub separate : Separate s.vmas
  pub few : length s.vmas ≤ max_vmas

abbrev pub with_region : Space → (addr len prot flags : ℕ) → Space
with_region s addr len prot flags =
    let v : Vma = record { base = addr; size = len; prot = prot; flags = flags } in
    record s { vmas = s.vmas ++ (v ∷ []) }

-- The page flags of a protection: present and for user mode, and writable if PROT_WRITE is in it.
abbrev pub asked : (prot : ℕ) → ℕ
asked prot = 1 + 4 + (if bit_and prot 2 == 0 then 0 else 2)

-- Why there is no region, with the memory left: the process has no address space, the mapping is not
-- anonymous, it has no bytes, the table of regions is full, there is no place for it, or the frames run
-- out and the pages mapped by then are unmapped.
pub data Refusal (l : Layout) (hint len prot flags : ℕ) (s : Space) (m m' : Memory) : Type 0 where
  no_space : s.cr3 ≡ 0 → m' ≡ m → Refusal l hint len prot flags s m m'
  not_anonymous : bit_and flags 4 ≡ 0 → m' ≡ m → Refusal l hint len prot flags s m m'
  no_bytes : len ≡ 0 → m' ≡ m → Refusal l hint len prot flags s m m'
  many : max_vmas ≤ length s.vmas → m' ≡ m → Refusal l hint len prot flags s m m'
  no_gap :
      place flags hint (page_up len) s.vmas ≡ none → m' ≡ m → Refusal l hint len prot flags s m m'
  no_frames :
      (addr count : ℕ) (part : Memory)
      → count < page_up len / 4096
      → Ranged l (page_of s.cr3) (asked prot) (page_of addr) count m part
      → Exhausted part
      → m' ≡ unmap_pages l s.cr3 count addr part
      → Refusal l hint len prot flags s m m'

-- A region in a gap, with all of its pages; or the table of regions as it was.
pub data Mmapped (l : Layout) (hint len prot flags : ℕ) (s : Space) (m : Memory)
    : Option ℕ × Space × Memory → Type 0 where
  placed :
      (addr : ℕ) (m' : Memory)
      → InBounds addr (page_up len)
      → Clear addr (page_up len) s.vmas
      → Ranged l (page_of s.cr3) (asked prot) (page_of addr) (page_up len / 4096) m m'
      → IsSpace (with_region s addr (page_up len) prot flags)
      → Mmapped l hint len prot flags s m
          (some addr, with_region s addr (page_up len) prot flags, m')
  refused :
      (m' : Memory)
      → Refusal l hint len prot flags s m m'
      → Mmapped l hint len prot flags s m (none, s, m')

-- No table of the kernel serves the part of the address space for mappings.
abbrev pub PrivateArea : Layout → Memory → (dir : ℕ) → Type 0
PrivateArea l m dir =
    (v : ℕ)
    → mmap_base ≤ v
    → v < user_stack
    → HasTable m dir (pd_index v)
    → is_shared l (table m dir (pd_index v)) ≡ false
