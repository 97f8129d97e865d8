-- ===== src/Space/Outcome.antt =====
-- What one more page in the address space of a process changes.
use Prim.Native.Nat.{bit_or}
use spike_os.Prelude.{
  ℕ, ◌*◌, ◌<◌, ◌≡◌, ◌≢◌, refl, Bool, true, false, ◌==◌, if◌then◌else◌, inl, inr, Bool-cases, ◌⊎◌,
}
use spike_os.Frames.{max_frames}
use spike_os.Frames.Bitmap.{IsBitmap, frame_bit}
use spike_os.Paging.{Layout, Memory, page_of, pd_index, pt_index, is_present, temp_slot}
use spike_os.Paging.Entries.{entry, table, HasTable, IsDirectory}

-- `m'` has one more page at `virt`, in a frame that was free and holds zeroes.
pub record Grows (l : Layout) (dir virt flags : ℕ) (m m' : Memory) : Type 0 where
  pub frame : ℕ
  pub free : frame_bit m.bitmap frame ≡ 0
  pub taken : frame_bit m'.bitmap frame ≡ 1
  pub zeroed : (j : ℕ) → m'.words frame j ≡ 0
  pub entries :
      (v : ℕ)
      → entry m' dir v
        ≡ (if page_of v == page_of virt then bit_or (frame * 4096) flags else entry m dir v)
  pub kept : (g : ℕ) → frame_bit m.bitmap g ≡ 1 → frame_bit m'.bitmap g ≡ 1
  pub tables :
      (i : ℕ)
      → HasTable m' dir i
      → (HasTable m dir i × (table m' dir i ≡ table m dir i))
        ⊎ (frame_bit m.bitmap (table m' dir i) ≡ 0)
  pub no_table : (i : ℕ) → HasTable m' dir i → table m' dir i ≢ frame
  pub untouched :
      (p j : ℕ)
      → frame_bit m.bitmap p ≡ 1
      → p ≢ dir
      → ((i : ℕ) → HasTable m dir i → p ≢ table m dir i)
      → m'.words p j ≡ m.words p j
  pub valid : IsDirectory l m' dir

-- A failure maps nothing and takes no frame.
pub record Same (l : Layout) (dir : ℕ) (m m' : Memory) : Type 0 where
  pub words : (p j : ℕ) → m'.words p j ≡ m.words p j
  pub entries : (v : ℕ) → entry m' dir v ≡ entry m dir v
  pub bits : (g : ℕ) → frame_bit m'.bitmap g ≡ frame_bit m.bitmap g
  pub valid : IsDirectory l m' dir

-- The frames have run out: none is free, but for one that was taken and given back.
abbrev pub Exhausted : Memory → Type 0
Exhausted m = (f : ℕ) × ((g : ℕ) → g < max_frames → g ≢ f → frame_bit m.bitmap g ≡ 1)

pub data Grown (l : Layout) (dir virt flags : ℕ) (m : Memory) : Bool × Memory → Type 0 where
  grown : (m' : Memory) → Grows l dir virt flags m m' → Grown l dir virt flags m (true, m')
  failed : (m' : Memory) → Exhausted m' → Same l dir m m' → Grown l dir virt flags m (false, m')

-- Any words that agree where the directory looks make the same entries.
module _ (l : Layout) (m m' : Memory) (dir : ℕ) (ok : IsDirectory l m dir)
    (sized : IsBitmap m'.bitmap) (closed : m'.words l.first temp_slot ≡ 0)
    (kept : (g : ℕ) → frame_bit m.bitmap g ≡ 1 → frame_bit m'.bitmap g ≡ 1)
    (same_dir : (i : ℕ) → m'.words dir i ≡ m.words dir i)
    (same_tables : (i j : ℕ)
      → HasTable m dir i
      → m'.words (table m dir i) j ≡ m.words (table m dir i) j) where
  pub agree-entries : (v : ℕ) → entry m' dir v ≡ entry m dir v
  agree-entries v =
      rw (same_dir (pd_index v)) (elim (Bool-cases (is_present (m.words dir (pd_index v)))) [
        | inl has ↦ rw has (same_tables (pd_index v) (pt_index v) has)
        | inr none_yet ↦ rw none_yet
      ])

  pub agree-IsDirectory : IsDirectory l m' dir
  agree-IsDirectory = record {
    sized = sized;
    closed = closed;
    dir_used = kept dir ok.dir_used;
    first_used = kept l.first ok.first_used;
    second_used = kept l.second ok.second_used;
    third_used = kept l.third ok.third_used;
    own = ok.own;
    used = λ i had. rw (same_dir i) (kept (table m dir i) (ok.used i (rw (same_dir i) at had)));
    other = λ i had. rw (same_dir i) (ok.other i (rw (same_dir i) at had));
    apart = λ i j had had' ne.
        rw (same_dir i, same_dir j)
          (ok.apart i j (rw (same_dir i) at had) (rw (same_dir j) at had') ne);
  }

pub Same-refl : (l : Layout) (m : Memory) (dir : ℕ) → IsDirectory l m dir → Same l dir m m
Same-refl l m dir ok = record {
  words = λ p j. refl;
  entries = λ v. refl;
  bits = λ g. refl;
  valid = ok;
}
