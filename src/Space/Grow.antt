-- ===== src/Space/Grow.antt =====
-- One more page of zeroes in an address space: `map_new_page`.
use Prim.Native.Nat.{bit_or}
use spike_os.Prelude.{
  ℕ, ◌*◌, ◌/◌, ◌<◌, ◌≡◌, ◌≢◌, refl, Bool, false, ◌==◌, if◌then◌else◌, Option, arith, ◌∙◌, ap, sym,
  inl, inr, Bool-cases, ◌⊎◌, length,
}
use spike_os.Frames.{Bitmap, max_frames, set_frame, alloc_frame, free_frame, clear_frame}
use spike_os.Frames.Bitmap.{
  IsBitmap, frame_bit, frame_bit-set_frame, frame_bit-clear_frame, length-set_frame,
  length-clear_frame,
}
use spike_os.Frames.Single.{Searched, taken, FirstFree, alloc_frame_lem}
use spike_os.Frames.Single
use spike_os.Paging.{
  Layout, Memory, page_of, pd_index, temp_slot, give_frame, set_word, zero_page, temp_map,
  temp_unmap,
}
use spike_os.Paging.Entries.{entry, table, HasTable, IsDirectory, Maps, Mapped, mapped, fresh-ne}
use spike_os.Paging.Entries
use spike_os.Paging.Map.{Allowed, pgdir_map_user_page-Mapped}
use spike_os.Space.{fill_frame, map_frame, map_new_page}
use spike_os.Space.Outcome.{
  Grows, Same, Grown, grown, failed, agree-entries, agree-IsDirectory, Same-refl,
}

module _ (l : Layout) (m : Memory) (cr3 virt flags f : ℕ) (ok : IsDirectory l m (page_of cr3))
    (free : frame_bit m.bitmap f ≡ 0) (below : f < max_frames) where
  abbrev dir : ℕ
  dir = page_of cr3

  abbrev held : Memory
  held = record m { bitmap = set_frame m.bitmap f }

  bit_held : (g : ℕ) → frame_bit held.bitmap g ≡ (if f == g then 1 else frame_bit m.bitmap g)
  bit_held g = frame_bit-set_frame m.bitmap f g (omega (arith, ok.sized))

  kept_held : (g : ℕ) → frame_bit m.bitmap g ≡ 1 → frame_bit held.bitmap g ≡ 1
  kept_held g h = ground (arith, bit_held g)

  held-IsDirectory : IsDirectory l held dir
  held-IsDirectory =
      agree-IsDirectory l m held dir ok (length-set_frame m.bitmap f ∙ ok.sized) ok.closed kept_held
        (λ i. refl) (λ i j has. refl)

  module _ (m' : Memory) (mp : Maps l dir virt (bit_or (f * 4096) flags) held m') where
    frame-ne-table : (i : ℕ) → HasTable m' dir i → (table m' dir i == f) ≡ false
    frame-ne-table i has = elim (mp.tables i has) [
      | inl (had, same) ↦ rw same (fresh-ne m.bitmap f (table m dir i) free (ok.used i had))
      | inr unused ↦ elim (Bool-cases (table m' dir i == f)) [
        | inr differs ↦ differs
        | inl same ↦
            let s : table m' dir i ≡ f = ground arith in
            let b : frame_bit held.bitmap f ≡ 0 = rw s at unused in
            absurd (ground (arith, b, bit_held f))
      ]
    ]

    abbrev filled : Memory
    unfolding temp_map
    filled = temp_unmap l (zero_page f (temp_map l (f * 4096) m'))

    filled_words : (p j : ℕ) → filled.words p j ≡ (if p == f then 0 else m'.words p j)
    unfolding temp_map temp_unmap zero_page set_word
    filled_words p j =
        ground (arith, fresh-ne m.bitmap f l.first free ok.first_used, mp.valid.closed)

    tables :
        (i : ℕ)
        → HasTable m' dir i
        → (HasTable m dir i × (table m' dir i ≡ table m dir i))
          ⊎ (frame_bit m.bitmap (table m' dir i) ≡ 0)
    tables i has = elim (mp.tables i has) [
      | inl old ↦ inl old
      | inr unused ↦ inr (ground (arith, bit_held (table m' dir i), frame-ne-table i has))
    ]

    filled-Grows : Grows l dir virt flags m filled
    unfolding temp_map temp_unmap zero_page set_word
    filled-Grows =
        let same_dir : (i : ℕ) → filled.words dir i ≡ m'.words dir i =
          λ i. filled_words dir i ∙ rw (fresh-ne m.bitmap f dir free ok.dir_used) in
        let same_tables : (i j : ℕ)
            → HasTable m' dir i
            → filled.words (table m' dir i) j ≡ m'.words (table m' dir i) j =
          λ i j has. filled_words (table m' dir i) j ∙ rw (frame-ne-table i has) in
        let closed : filled.words l.first temp_slot ≡ 0 =
          filled_words l.first temp_slot
          ∙ rw (fresh-ne m.bitmap f l.first free ok.first_used) mp.valid.closed in
        record {
          frame = f;
          free = free;
          taken = mp.kept f (bit_held f ∙ ground arith);
          zeroed = λ j. filled_words f j ∙ ground arith;
          entries = λ v.
              agree-entries l m' filled dir mp.valid mp.valid.sized closed (λ g h. h) same_dir
                same_tables v
              ∙ mp.entries v;
          kept = λ g h. mp.kept g (kept_held g h);
          tables = λ i has. rw (same_dir i) (tables i (rw (same_dir i) at has));
          no_table = λ i has e.
              let n = frame-ne-table i (rw (same_dir i) at has) in
              let e' : table m' dir i ≡ f = ap page_of (sym (same_dir i)) ∙ e in
              ground (arith, n, e');
          untouched = λ p j used ne apart.
              filled_words p j
              ∙ rw (fresh-ne m.bitmap f p free used)
                  (mp.untouched p j (kept_held p used) ne (λ has. apart (pd_index virt) has));
          valid =
              agree-IsDirectory l m' filled dir mp.valid mp.valid.sized closed (λ g h. h) same_dir
                same_tables;
        }

  -- The frame goes back where no table could be had for it.
  give_back : (g : ℕ) → frame_bit (clear_frame (set_frame m.bitmap f) f) g ≡ frame_bit m.bitmap g
  give_back g = elim (Bool-cases (f == g)) [
    | inl same ↦
        let s : f ≡ g = ground arith in
        frame_bit-clear_frame (set_frame m.bitmap f) f g
          (omega (arith, length-set_frame m.bitmap f, ok.sized))
        ∙ rw same (rw (← s) (sym free))
    | inr differs ↦
        frame_bit-clear_frame (set_frame m.bitmap f) f g
          (omega (arith, length-set_frame m.bitmap f, ok.sized))
        ∙ rw differs (bit_held g ∙ rw differs)
  ]

  given-Same :
      (m' : Memory)
      → ((p j : ℕ) → m'.words p j ≡ m.words p j)
      → m'.bitmap ≡ set_frame m.bitmap f
      → Same l dir m (give_frame (f * 4096) m')
  unfolding free_frame
  given-Same m' same bits =
      let d : f * 4096 / 4096 ≡ f = omega arith in
      let after : (g : ℕ) → frame_bit (give_frame (f * 4096) m').bitmap g ≡ frame_bit m.bitmap g =
        λ g. rw (bits, d) (give_back g) in
      let sized : IsBitmap (give_frame (f * 4096) m').bitmap =
        length-clear_frame m'.bitmap _ ∙ ap length bits ∙ length-set_frame m.bitmap f ∙ ok.sized in
      let kept : (g : ℕ)
          → frame_bit m.bitmap g ≡ 1
          → frame_bit (give_frame (f * 4096) m').bitmap g ≡ 1 =
        λ g h. after g ∙ h in
      record {
        words = same;
        entries =
            agree-entries l m (give_frame (f * 4096) m') dir ok sized (same _ _ ∙ ok.closed) kept
              (λ i. same _ i) (λ i j has. same _ j);
        bits = after;
        valid =
            agree-IsDirectory l m (give_frame (f * 4096) m') dir ok sized (same _ _ ∙ ok.closed)
              kept (λ i. same _ i) (λ i j has. same _ j);
      }

  fill-Grown :
      (r : Bool × Memory)
      → Mapped l dir virt (bit_or (f * 4096) flags) held r
      → Grown l dir virt flags m (fill_frame l (f * 4096) r)
  unfolding fill_frame temp_map
  fill-Grown _ (mapped m' mp) =
      let d : page_of (f * 4096) ≡ f = omega arith in rw d (grown _ (filled-Grows m' mp))
  fill-Grown _ (Entries.full m' same bits all) =
      let s = given-Same m' same bits in failed _ (f, last s) s
    where
      last :
          Same l dir m (give_frame (f * 4096) m')
          → (g : ℕ) → g < max_frames
          → g ≢ f
          → frame_bit (give_frame (f * 4096) m').bitmap g ≡ 1
      last s g lt ne =
          let apart : (f == g) ≡ false = ground (arith, ne) in
          s.bits g ∙ sym (bit_held g ∙ rw apart refl) ∙ all g lt

-- `map_new_page` maps the page alone, to a frame that was free and is filled with zeroes; or the frames
-- run out, and it maps nothing and takes no frame.
pub map_new_page-Grown :
    (l : Layout) (m : Memory) (cr3 virt flags : ℕ)
    → IsDirectory l m (page_of cr3)
    → Allowed l m (page_of cr3) virt flags
    → Grown l (page_of cr3) virt flags m (map_new_page l cr3 virt flags m)
unfolding map_new_page map_frame
map_new_page-Grown l m cr3 virt flags ok allowed =
    go (alloc_frame m.bitmap) (alloc_frame_lem m.bitmap)
  where
    go :
        (r : Option ℕ × Bitmap)
        → Searched m.bitmap 0 r
        → Grown l
            (page_of cr3)
            virt
            flags
            m
            (map_frame l cr3 virt flags (r.0, record m { bitmap = r.1 }))
    go r (taken f first e) = rw e (
        fill-Grown l m cr3 virt flags f ok first.free first.below _ (
          pgdir_map_user_page-Mapped l (held l m cr3 virt flags f ok first.free first.below) cr3
            virt (f * 4096) flags (held-IsDirectory l m cr3 virt flags f ok first.free first.below)
            allowed))
    go r (Single.full used e) =
        rw e (failed _ (0, λ g lt ne. used g (omega arith) lt) (Same-refl l m (page_of cr3) ok))
