-- ===== src/Paging/Entries.antt =====
-- What the hardware reads through a page directory, and what makes a directory well formed.
use spike_os.Prelude.{
  ℕ, ◌<◌, ◌≡◌, ◌≢◌, Bool, true, false, ◌==◌, if◌then◌else◌, arith, ap, inl, inr, Bool-cases, ◌⊎◌,
}
use spike_os.Frames.{Bitmap, max_frames}
use spike_os.Frames.Bitmap.{IsBitmap, frame_bit}
use spike_os.Paging.{Layout, Memory, page_of, pd_index, pt_index, is_present, temp_slot, is_shared}

-- The entry for `virt` through the directory in the page `dir`, 0 where there is no table.
abbrev pub entry : Memory → ℕ → ℕ → ℕ
entry m dir virt =
    if is_present (m.words dir (pd_index virt))
    then m.words (page_of (m.words dir (pd_index virt))) (pt_index virt)
    else 0

abbrev pub table : Memory → ℕ → ℕ → ℕ
table m dir i = page_of (m.words dir i)

abbrev pub HasTable : Memory → ℕ → ℕ → Type 0
HasTable m dir i = is_present (m.words dir i) ≡ true

-- The directory and its tables are frames in use; its own tables are apart from one another, and the
-- window of `temp_map` is closed.
pub record IsDirectory (l : Layout) (m : Memory) (dir : ℕ) : Type 0 where
  pub sized : IsBitmap m.bitmap
  pub closed : m.words l.first temp_slot ≡ 0
  pub dir_used : frame_bit m.bitmap dir ≡ 1
  pub first_used : frame_bit m.bitmap l.first ≡ 1
  pub second_used : frame_bit m.bitmap l.second ≡ 1
  pub third_used : frame_bit m.bitmap l.third ≡ 1
  pub own : is_shared l dir ≡ false
  pub used : (i : ℕ) → HasTable m dir i → frame_bit m.bitmap (table m dir i) ≡ 1
  pub other : (i : ℕ) → HasTable m dir i → table m dir i ≢ dir
  pub apart :
      (i j : ℕ)
      → HasTable m dir i
      → HasTable m dir j
      → i ≢ j
      → is_shared l (table m dir i) ≡ false
      → table m dir i ≢ table m dir j

-- `m'` is `m` with one more page mapped in the directory. Frames in use stay in use, and pages in use that
-- are neither the directory nor the table of the address stay as they are. A new table was free.
pub record Maps (l : Layout) (dir virt value : ℕ) (m m' : Memory) : Type 0 where
  pub entries :
      (v : ℕ) → entry m' dir v ≡ (if page_of v == page_of virt then value else entry m dir v)
  pub kept : (g : ℕ) → frame_bit m.bitmap g ≡ 1 → frame_bit m'.bitmap g ≡ 1
  pub untouched :
      (p j : ℕ)
      → frame_bit m.bitmap p ≡ 1
      → p ≢ dir
      → (HasTable m dir (pd_index virt) → p ≢ table m dir (pd_index virt))
      → m'.words p j ≡ m.words p j
  pub tables :
      (i : ℕ)
      → HasTable m' dir i
      → (HasTable m dir i × (table m' dir i ≡ table m dir i))
        ⊎ (frame_bit m.bitmap (table m' dir i) ≡ 0)
  pub valid : IsDirectory l m' dir

-- The result of `pgdir_map_user_page`.
pub data Mapped (l : Layout) (dir virt value : ℕ) (m : Memory) : Bool × Memory → Type 0 where
  mapped : (m' : Memory) → Maps l dir virt value m m' → Mapped l dir virt value m (true, m')
  full :
      (m' : Memory)
      → ((p j : ℕ) → m'.words p j ≡ m.words p j)
      → m'.bitmap ≡ m.bitmap
      → ((g : ℕ) → g < max_frames → frame_bit m.bitmap g ≡ 1)
      → Mapped l dir virt value m (false, m')

-- Two addresses of one page have both indices in common.
pub same_page :
    (v w : ℕ)
    → (page_of v == page_of w)
      ≡ (if pd_index v == pd_index w then pt_index v == pt_index w else false)
same_page v w = ground arith

-- A frame that is free is no page in use.
pub fresh-ne : (bm : Bitmap) (f p : ℕ) → frame_bit bm f ≡ 0 → frame_bit bm p ≡ 1 → (p == f) ≡ false
fresh-ne bm f p free used = elim (Bool-cases (p == f)) [
  | inr e ↦ e
  | inl e ↦
      let same : p ≡ f = ground arith in absurd (omega (arith, free, used, ap (frame_bit bm) same))
]
