-- ===== src/Paging/Destroy/Sweep.antt =====
-- The frames that the loops of `pgdir_destroy` give back, one after the other.
use spike_os.Prelude.{
  ℕ, zero, suc, ◌+◌, ◌*◌, ◌≡◌, ◌≢◌, refl, true, List, [], ◌∷◌, ◌++◌, if◌then◌else◌, arith, ap, inl,
  inr, Bool-cases,
}
use mathlib.Core.Path.{subst}
use spike_os.Frames.{Bitmap, free_frame}
use spike_os.Paging.{
  Layout, Memory, page_of, is_present, temp_map, temp_unmap, set_word, give_frame,
}
use spike_os.Paging.Destroy.{
  read_entry, free_present, free_entries, owns, free_user_table, free_clone, free_user_tables,
  free_clones,
}

-- The frames that the entries of a table map.
abbrev pub mapped_frames : (ℕ → ℕ) → (rounds j : ℕ) → List ℕ
mapped_frames w zero j = []
mapped_frames w (suc rounds) j =
    (if is_present (w j) then page_of (w j) ∷ [] else []) ++ mapped_frames w rounds (j + 1)

-- The frames of one of the process's tables: what it maps, and the table.
unfoldable pub table_frames : Layout → (words : ℕ → ℕ → ℕ) → (pde : ℕ) → List ℕ
table_frames l words pde =
    if owns l pde then mapped_frames (words (page_of pde)) 1024 0 ++ (page_of pde ∷ []) else []

unfoldable pub clone_frame : Layout → (pde : ℕ) → List ℕ
clone_frame l pde = if owns l pde then page_of pde ∷ [] else []

-- The frames behind the entries of a directory: for the process's tables what they map, and the tables.
unfoldable pub user_frames : Layout → (words : ℕ → ℕ → ℕ) → (pd rounds i : ℕ) → List ℕ
user_frames l words pd zero i = []
user_frames l words pd (suc rounds) i =
    table_frames l words (words pd i) ++ user_frames l words pd rounds (i + 1)

unfoldable pub clone_frames : Layout → (words : ℕ → ℕ → ℕ) → (pd rounds i : ℕ) → List ℕ
clone_frames l words pd zero i = []
clone_frames l words pd (suc rounds) i =
    clone_frame l (words pd i) ++ clone_frames l words pd rounds (i + 1)

unfoldable pub held_frames : Layout → (words : ℕ → ℕ → ℕ) → (pd : ℕ) → List ℕ
held_frames l words pd =
    user_frames l words pd 767 1 ++ (clone_frames l words pd 256 768 ++ (pd ∷ []))

-- Frames given back one after the other.
abbrev pub free_all : List ℕ → Bitmap → Bitmap
free_all [] bm = bm
free_all (f ∷ fs) bm = free_all fs (free_frame bm (f * 4096))

pub free_all-append :
    (fs gs : List ℕ) (bm : Bitmap) → free_all (fs ++ gs) bm ≡ free_all gs (free_all fs bm)
free_all-append [] gs bm = refl
free_all-append (f ∷ fs) gs bm = free_all-append fs gs (free_frame bm (f * 4096))

-- `m` has the words of `w` outside of the first table of the kernel, and the bitmap `bm`.
pub record Is (l : Layout) (w : ℕ → ℕ → ℕ) (bm : Bitmap) (m : Memory) : Type 0 where
  pub bits : m.bitmap ≡ bm
  pub words : (p i : ℕ) → p ≢ l.first → m.words p i ≡ w p i

module _ (l : Layout) (w : ℕ → ℕ → ℕ) where
  pub Is-append :
      (fs gs : List ℕ) (bm : Bitmap) (m : Memory)
      → Is l w (free_all gs (free_all fs bm)) m
      → Is l w (free_all (fs ++ gs) bm) m
  Is-append fs gs bm m is = rw (free_all-append fs gs bm) is

  -- The window changes nothing but its own entry.
  pub read_entry-Is :
      (page i : ℕ) (bm : Bitmap) (m : Memory)
      → page ≢ l.first
      → Is l w bm m
      → ((read_entry l page i m).0 ≡ w page i) × Is l w bm (read_entry l page i m).1
  unfolding read_entry temp_map temp_unmap set_word
  read_entry-Is page i bm m own is = (
    ground (arith, own, is.words page i own),
    record { bits = is.bits; words = λ p j other. ground (arith, other, is.words p j other) },
  )

  pub give_frame-Is :
      (f : ℕ) (bm : Bitmap) (m : Memory)
      → Is l w bm m
      → Is l w (free_frame bm (f * 4096)) (give_frame (f * 4096) m)
  give_frame-Is f bm m is = record {
    bits = ap (λ b. free_frame b (f * 4096)) is.bits;
    words = is.words;
  }

  pub free_present-Is :
      (pte : ℕ) (bm : Bitmap) (m : Memory)
      → Is l w bm m
      → Is l w
          (free_all (if is_present pte then page_of pte ∷ [] else []) bm)
          (free_present (pte, m))
  unfolding free_present
  free_present-Is pte bm m is = elim (Bool-cases (is_present pte)) [
    | inl here ↦ rw here (give_frame-Is (page_of pte) bm m is)
    | inr absent ↦ rw absent is
  ]

  pub free_entries-Is :
      (rounds table j : ℕ) (bm : Bitmap) (m : Memory)
      → table ≢ l.first
      → Is l w bm m
      → Is l w (free_all (mapped_frames (w table) rounds j) bm) (free_entries l table rounds j m)
  unfolding free_entries
  free_entries-Is zero table j bm m own is = is
  free_entries-Is (suc rounds) table j bm m own is =
      let (e, is1) = read_entry-Is table j bm m own is in
      let pte = w table j in
      let step : Is l w (free_all (if is_present pte then page_of pte ∷ [] else []) bm)
          (free_present (read_entry l table j m)) =
        rw (← e) (free_present-Is (read_entry l table j m).0 bm (read_entry l table j m).1 is1) in
      let here = if is_present pte then page_of pte ∷ [] else [] in
      Is-append here (mapped_frames (w table) rounds (j + 1)) bm _
        (free_entries-Is rounds table (j + 1) _ _ own step)

  pub own_table : (pde : ℕ) → owns l pde ≡ true → page_of pde ≢ l.first
  own_table pde h = ground (arith, h)

  pub free_user_table-Is :
      (pde : ℕ) (bm : Bitmap) (m : Memory)
      → Is l w bm m
      → Is l w (free_all (table_frames l w pde) bm) (free_user_table l (pde, m))
  unfolding free_user_table table_frames
  free_user_table-Is pde bm m is = elim (Bool-cases (owns l pde)) [
    | inl mine ↦
        let table = page_of pde in
        rw mine (
          Is-append (mapped_frames (w table) 1024 0) (table ∷ []) bm _
            (give_frame-Is table _ _ (free_entries-Is 1024 table 0 bm m (own_table pde mine) is)))
    | inr other ↦ rw other is
  ]

  pub free_clone-Is :
      (pde : ℕ) (bm : Bitmap) (m : Memory)
      → Is l w bm m
      → Is l w (free_all (clone_frame l pde) bm) (free_clone l (pde, m))
  unfolding free_clone clone_frame
  free_clone-Is pde bm m is = elim (Bool-cases (owns l pde)) [
    | inl mine ↦ rw mine (give_frame-Is (page_of pde) bm m is)
    | inr other ↦ rw other is
  ]

  module _ (pd : ℕ) (own : pd ≢ l.first) where
    pub free_user_tables-Is :
        (rounds i : ℕ) (bm : Bitmap) (m : Memory)
        → Is l w bm m
        → Is l w (free_all (user_frames l w pd rounds i) bm) (free_user_tables l pd rounds i m)
    unfolding free_user_tables user_frames
    free_user_tables-Is zero i bm m is = is
    free_user_tables-Is (suc rounds) i bm m is =
        let (e, is1) = read_entry-Is pd i bm m own is in
        let read = read_entry l pd i m in
        let step : Is l w (free_all (table_frames l w (w pd i)) bm) (free_user_table l read) =
          subst (λ pde. Is l w (free_all (table_frames l w pde) bm) (free_user_table l read)) e
            (free_user_table-Is read.0 bm read.1 is1) in
        Is-append (table_frames l w (w pd i)) (user_frames l w pd rounds (i + 1)) bm _
          (free_user_tables-Is rounds (i + 1) _ _ step)

    pub free_clones-Is :
        (rounds i : ℕ) (bm : Bitmap) (m : Memory)
        → Is l w bm m
        → Is l w (free_all (clone_frames l w pd rounds i) bm) (free_clones l pd rounds i m)
    unfolding free_clones clone_frames
    free_clones-Is zero i bm m is = is
    free_clones-Is (suc rounds) i bm m is =
        let (e, is1) = read_entry-Is pd i bm m own is in
        let read = read_entry l pd i m in
        let step : Is l w (free_all (clone_frame l (w pd i)) bm) (free_clone l read) =
          subst (λ pde. Is l w (free_all (clone_frame l pde) bm) (free_clone l read)) e
            (free_clone-Is read.0 bm read.1 is1) in
        Is-append (clone_frame l (w pd i)) (clone_frames l w pd rounds (i + 1)) bm _
          (free_clones-Is rounds (i + 1) _ _ step)
