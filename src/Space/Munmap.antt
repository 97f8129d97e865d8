-- ===== src/Space/Munmap.antt =====
-- `sys_munmap`: the regions that are left, and the frames that it does not give back.
use Prim.Native.Nat.{bit_or}
use spike_os.Prelude.{
  ℕ, zero, suc, ◌+◌, ◌/◌, ◌%◌, ◌≡◌, ◌≢◌, refl, Bool, true, false, ◌==◌, if◌then◌else◌, some, List,
  arith, ◌∙◌, ap, sym, inl, inr, Bool-cases, Option-cases,
}
use mathlib.Core.Path.{subst}
use spike_os.Paging.{
  Layout, Memory, page_of, pd_index, pt_index, is_present, is_shared, temp_slot, temp_map,
  temp_unmap, set_word, map_in_table, map_by_entry, pgdir_map_user_page, virt_to_phys,
}
use spike_os.Paging.Entries.{IsDirectory, HasTable, table}
use spike_os.Paging.Map.{in_table-Maps, directory_words}
use spike_os.Space.{
  Space, Vma, page_up, free_found, unmap_page, unmap_pages, remove_region, unmap_region, sys_munmap,
}
use spike_os.Space.Range.{InRange}
use spike_os.Space.Removal.{remove_region-Bounded, remove_region-Separate, length-remove_region}
use spike_os.Space.Mmap.{IsSpace}

-- A page of the process whose table is its own, at an address where the kernel's directory has no table.
pub record UserPage (l : Layout) (m : Memory) (dir v : ℕ) : Type 0 where
  pub has : HasTable m dir (pd_index v)
  pub own : is_shared l (table m dir (pd_index v)) ≡ false
  pub apart : table m dir (pd_index v) ≢ l.directory
  pub no_kernel : is_present (m.words l.directory (pd_index v)) ≡ false

module _ (l : Layout) (m : Memory) (cr3 virt : ℕ) (ok : IsDirectory l m (page_of cr3))
    (kernel : l.directory ≢ l.first) (u : UserPage l m (page_of cr3) virt) where
  abbrev cleared : Memory
  cleared = unmap_page l cr3 virt m

  abbrev pt : ℕ
  pt = table m (page_of cr3) (pd_index virt)

  not_found : virt_to_phys l virt m ≡ (0, m)
  unfolding virt_to_phys
  not_found = rw u.no_kernel

  in_own_table :
      pgdir_map_user_page l cr3 virt 0 0 m ≡ map_in_table l pt virt 0 0 (temp_map l cr3 m)
  unfolding pgdir_map_user_page map_by_entry temp_map set_word
  in_own_table =
      let seen : (temp_map l cr3 m).words (page_of cr3) (pd_index virt)
          ≡ m.words (page_of cr3) (pd_index virt) =
        ground (arith, ok.own) in
      rw (seen, u.has)

  -- Nothing is found to be freed, and the entry is cleared.
  cleared_lem : cleared ≡ (map_in_table l pt virt 0 0 (temp_map l cr3 m)).1
  unfolding unmap_page free_found
  cleared_lem = rw (not_found, unmap_page) (ap (λ r. r.1) in_own_table)

  shape :
      (p j : ℕ)
      → cleared.words p j ≡ (
          if p == l.first
          then (if j == temp_slot then 0 else m.words p j)
          else if p == pt
          then (if j == pt_index virt then bit_or 0 0 else m.words p j)
          else m.words p j)
  unfolding map_in_table temp_map temp_unmap set_word
  shape p j = rw cleared_lem (ground (arith, u.own))

  -- No frame is given back.
  bitmap_lem : cleared.bitmap ≡ m.bitmap
  unfolding map_in_table temp_map temp_unmap set_word
  bitmap_lem = rw cleared_lem

  dir_words : (i : ℕ) → cleared.words (page_of cr3) i ≡ m.words (page_of cr3) i
  dir_words = directory_words l m (page_of cr3) virt (bit_or 0 0) cleared.words ok u.has u.own shape

  kernel_words : (i : ℕ) → cleared.words l.directory i ≡ m.words l.directory i
  kernel_words i = shape l.directory i ∙ ground (arith, kernel, u.apart)

  UserPage-step : (v : ℕ) → UserPage l m (page_of cr3) v → UserPage l cleared (page_of cr3) v
  UserPage-step v w = record {
    has = rw (dir_words (pd_index v)) w.has;
    own = rw (dir_words (pd_index v)) w.own;
    apart = rw (dir_words (pd_index v)) w.apart;
    no_kernel = rw (kernel_words (pd_index v)) w.no_kernel;
  }

  cleared-IsDirectory : IsDirectory l cleared (page_of cr3)
  cleared-IsDirectory =
      subst (λ b. IsDirectory l (record { bitmap = b; words = cleared.words }) (page_of cr3))
        (sym bitmap_lem)
        (in_table-Maps l m (page_of cr3) virt (bit_or 0 0) cleared.words ok u.has u.own shape).valid

-- The loop: no frame is given back on the whole way.
unmap_pages-bitmap :
    (l : Layout) (cr3 pages virt : ℕ) (m : Memory)
    → IsDirectory l m (page_of cr3)
    → l.directory ≢ l.first
    → ((v : ℕ) → InRange (page_of virt) pages v → UserPage l m (page_of cr3) v)
    → (unmap_pages l cr3 pages virt m).bitmap ≡ m.bitmap
unfolding unmap_pages
unmap_pages-bitmap l cr3 zero virt m ok kernel all = refl
unmap_pages-bitmap l cr3 (suc pages) virt m ok kernel all =
    let u = all virt (omega arith, omega arith) in
    unmap_pages-bitmap l cr3 pages (virt + 4096) (unmap_page l cr3 virt m)
      (cleared-IsDirectory l m cr3 virt ok kernel u) kernel
      (λ v h.
        UserPage-step l m cr3 virt ok kernel u v (all v (omega (arith, h.0), omega (arith, h.1))))
    ∙ bitmap_lem l m cr3 virt ok kernel u

-- A call of `sys_munmap` is refused, or removes a region that is in the table.
sys_munmap_cases {ℓ} :
    (P : Bool × Space × Memory → Type ℓ) (l : Layout) (addr len : ℕ) (s : Space) (m : Memory)
    → P (false, s, m)
    → ((vs : List Vma)
        → remove_region addr (page_up len) s.vmas ≡ some vs
        → P (true, record s { vmas = vs }, unmap_pages l s.cr3 (page_up len / 4096) addr m))
    → P (sys_munmap l addr len s m)
unfolding sys_munmap unmap_region
sys_munmap_cases P l addr len s m refusal some_region = elim (Bool-cases (s.cr3 == 0)) [
  | inl kernel ↦ rw kernel refusal
  | inr user ↦ elim (Bool-cases (addr % 4096 == 0)) [
    | inr part ↦ rw (user, part) refusal
    | inl whole ↦ elim (Bool-cases (len == 0)) [
      | inl empty ↦ rw (user, whole, empty) refusal
      | inr some_len ↦ elim (Option-cases (remove_region addr (page_up len) s.vmas)) [
        | inl none_there ↦ rw (user, whole, some_len, none_there) refusal
        | inr (vs, e) ↦ rw (user, whole, some_len, e) (some_region vs e)
      ]
    ]
  ]
]

-- `sys_munmap` of a region whose pages have tables in the process's directory and none in the kernel's, as
-- those have that `sys_mmap` made, gives no frame back: `virt_to_phys` looks in the kernel's directory.
pub munmap_leaks :
    (l : Layout) (addr len : ℕ) (s : Space) (m : Memory)
    → IsDirectory l m (page_of s.cr3)
    → l.directory ≢ l.first
    → ((v : ℕ) → InRange (page_of addr) (page_up len / 4096) v → UserPage l m (page_of s.cr3) v)
    → (sys_munmap l addr len s m).2.bitmap ≡ m.bitmap
munmap_leaks l addr len s m ok kernel all =
    sys_munmap_cases (λ r. r.2.bitmap ≡ m.bitmap) l addr len s m refl
      (λ vs e. unmap_pages-bitmap l s.cr3 (page_up len / 4096) addr m ok kernel all)

-- `sys_munmap` keeps the regions whole, in bounds and apart from one another.
pub sys_munmap-IsSpace :
    (l : Layout) (addr len : ℕ) (s : Space) (m : Memory)
    → IsSpace s
    → IsSpace (sys_munmap l addr len s m).1
sys_munmap-IsSpace l addr len s m valid =
    sys_munmap_cases (λ r. IsSpace r.1) l addr len s m valid
      (λ vs e. record {
        bounded = remove_region-Bounded addr (page_up len) s.vmas vs valid.bounded e;
        separate = remove_region-Separate addr (page_up len) s.vmas vs valid.separate e;
        few = omega (arith, length-remove_region addr (page_up len) s.vmas vs e, valid.few);
      })
