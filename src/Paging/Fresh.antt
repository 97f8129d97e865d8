-- ===== src/Paging/Fresh.antt =====
-- A page mapped through a new table, whose other entries say what the directory said before.
use spike_os.Prelude.{
  ℕ, ◌<◌, ◌≡◌, ◌≢◌, refl, Bool, true, false, ◌==◌, if◌then◌else◌, arith, ◌∙◌, ap, sym, inl, inr,
  Bool-cases, ◌⊎◌,
}
use spike_os.Frames.{max_frames, set_frame}
use spike_os.Frames.Bitmap.{frame_bit, frame_bit-set_frame, length-set_frame}
use spike_os.Paging.{Layout, Memory, page_of, pd_index, pt_index, is_present, temp_slot, is_shared}
use spike_os.Paging.Entries.{entry, table, HasTable, IsDirectory, Maps, same_page, fresh-ne}

-- The words with the table in frame `f`, whose entry in the directory is `e`.
abbrev pub fresh_words : Layout → Memory → (dir virt value f e : ℕ) → (ℕ → ℕ) → ℕ → ℕ → ℕ
fresh_words l m dir virt value f e content p j =
    if p == l.first
    then (if j == temp_slot then 0 else m.words p j)
    else if p == f
    then (if j == pt_index virt then value else content j)
    else if p == dir
    then (if j == pd_index virt then e else m.words p j)
    else m.words p j

regroup :
    (a b : Bool) (x y : ℕ)
    → (if a then (if b then x else y) else y) ≡ (if (if a then b else false) then x else y)
regroup true b x y = refl
regroup false b x y = refl

module _ (l : Layout) (m : Memory) (dir virt value f e : ℕ) (content : ℕ → ℕ) (w : ℕ → ℕ → ℕ)
    (ok : IsDirectory l m dir) (free : frame_bit m.bitmap f ≡ 0) (below : f < max_frames)
    (present : is_present e ≡ true) (at : page_of e ≡ f)
    (before : (j : ℕ)
      → content j ≡ (
          if is_present (m.words dir (pd_index virt))
          then m.words (table m dir (pd_index virt)) j
          else 0))
    (shape : (p j : ℕ) → w p j ≡ fresh_words l m dir virt value f e content p j) where
  abbrev after : Memory
  after = record { bitmap = set_frame m.bitmap f; words = w }

  dir-ne-first : (dir == l.first) ≡ false
  dir-ne-first = ground (arith, ok.own)

  directory_words : (i : ℕ) → w dir i ≡ (if i == pd_index virt then e else m.words dir i)
  directory_words i =
      shape dir i ∙ ground (arith, dir-ne-first, fresh-ne m.bitmap f dir free ok.dir_used)

  -- A table that was there is as it was.
  table_words : (i j : ℕ) → HasTable m dir i → w (table m dir i) j ≡ m.words (table m dir i) j
  table_words i j has =
      shape (table m dir i) j
      ∙ ground (
        arith,
        fresh-ne m.bitmap f (table m dir i) free (ok.used i has),
        ok.other i has,
        ok.closed,
      )

  bit_after :
      (g : ℕ) → frame_bit (set_frame m.bitmap f) g ≡ (if f == g then 1 else frame_bit m.bitmap g)
  bit_after g = frame_bit-set_frame m.bitmap f g (omega (arith, ok.sized))

  new_table_words : (j : ℕ) → w f j ≡ (if j == pt_index virt then value else content j)
  new_table_words j = shape f j ∙ ground (arith, fresh-ne m.bitmap f l.first free ok.first_used)

  -- The entry through the table of index `i`.
  through : (i j : ℕ) → ℕ
  through i j = if is_present (m.words dir i) then m.words (table m dir i) j else 0

  through-after :
      (i j : ℕ)
      → (if is_present (w dir i) then w (page_of (w dir i)) j else 0) ≡ (
          if i == pd_index virt
          then (if j == pt_index virt then value else through i j)
          else through i j)
  unfolding through
  through-after i j = elim (Bool-cases (i == pd_index virt)) [
    | inl same ↦
        let s : i ≡ pd_index virt = ground arith in
        let d : w dir i ≡ e = directory_words i ∙ rw same in
        rw (d, present, at, same, new_table_words j, before j, s)
    | inr differs ↦
        let d : w dir i ≡ m.words dir i = directory_words i ∙ rw differs in
        rw (d, differs)
          (elim (Bool-cases (is_present (m.words dir i))) [
            | inl has ↦ rw has (table_words i j has)
            | inr none_yet ↦ rw none_yet
          ])
  ]

  pub fresh-entries :
      (v : ℕ) → entry after dir v ≡ (if page_of v == page_of virt then value else entry m dir v)
  unfolding through
  fresh-entries v =
      through-after (pd_index v) (pt_index v)
      ∙ rw (same_page v virt)
          (regroup (pd_index v == pd_index virt) (pt_index v == pt_index virt) value _)

  bit_kept : (g : ℕ) → frame_bit m.bitmap g ≡ 1 → frame_bit (set_frame m.bitmap f) g ≡ 1
  bit_kept g h = ground (arith, bit_after g)

  table_after :
      (i : ℕ)
      → HasTable after dir i
      → ((i ≡ pd_index virt) × (table after dir i ≡ f))
        ⊎ ((i ≢ pd_index virt) × HasTable m dir i × (table after dir i ≡ table m dir i))
  table_after i has = elim (Bool-cases (i == pd_index virt)) [
    | inl same ↦ inl (ground arith, ap page_of (directory_words i ∙ rw same) ∙ at)
    | inr differs ↦
        let d : w dir i ≡ m.words dir i = directory_words i ∙ rw differs in
        inr ((λ x. ground arith), rw d at has, ap page_of d)
  ]

  old-ne-new : (i : ℕ) → HasTable m dir i → table m dir i ≢ f
  old-ne-new i has same = ground (arith, fresh-ne m.bitmap f (table m dir i) free (ok.used i has))

  used_after :
      (i : ℕ) → HasTable after dir i → frame_bit (set_frame m.bitmap f) (table after dir i) ≡ 1
  used_after i has = elim (table_after i has) [
    | inl (_, at_new) ↦ rw at_new (bit_after f ∙ ground arith)
    | inr (_, had, same) ↦ rw same (bit_kept (table m dir i) (ok.used i had))
  ]

  other_after : (i : ℕ) → HasTable after dir i → table after dir i ≢ dir
  other_after i has e = elim (table_after i has) [
    | inl (_, at_new) ↦ ground (arith, at_new, e, fresh-ne m.bitmap f dir free ok.dir_used)
    | inr (_, had, same) ↦ ok.other i had (sym same ∙ e)
  ]

  apart_after :
      (i j : ℕ)
      → HasTable after dir i
      → HasTable after dir j
      → i ≢ j
      → is_shared l (table after dir i) ≡ false
      → table after dir i ≢ table after dir j
  apart_after i j has has' ne own e = elim (table_after i has) [
    | inl (i_new, at_i) ↦ elim (table_after j has') [
      | inl (j_new, at_j) ↦ ne (i_new ∙ sym j_new)
      | inr (_, had, same) ↦ old-ne-new j had (sym same ∙ sym e ∙ at_i)
    ]
    | inr (_, had, same) ↦ elim (table_after j has') [
      | inl (j_new, at_j) ↦ old-ne-new i had (sym same ∙ e ∙ at_j)
      | inr (_, had', same') ↦ ok.apart i j had had' ne (rw same at own) (sym same ∙ e ∙ same')
    ]
  ]

  pub fresh-IsDirectory : IsDirectory l after dir
  fresh-IsDirectory = record {
    sized = length-set_frame m.bitmap f ∙ ok.sized;
    closed = shape l.first temp_slot ∙ ground arith;
    dir_used = bit_kept dir ok.dir_used;
    first_used = bit_kept l.first ok.first_used;
    second_used = bit_kept l.second ok.second_used;
    third_used = bit_kept l.third ok.third_used;
    own = ok.own;
    used = used_after;
    other = other_after;
    apart = apart_after;
  }

  untouched :
      (p j : ℕ)
      → frame_bit m.bitmap p ≡ 1
      → p ≢ dir
      → (HasTable m dir (pd_index virt) → p ≢ table m dir (pd_index virt))
      → w p j ≡ m.words p j
  untouched p j used ne _ =
      shape p j ∙ ground (arith, fresh-ne m.bitmap f p free used, ne, ok.closed)

  tables :
      (i : ℕ)
      → HasTable after dir i
      → (HasTable m dir i × (table after dir i ≡ table m dir i))
        ⊎ (frame_bit m.bitmap (table after dir i) ≡ 0)
  tables i has = elim (table_after i has) [
    | inl (_, at_new) ↦ inr (rw at_new free)
    | inr (_, had, same) ↦ inl (had, same)
  ]

  pub fresh-Maps : Maps l dir virt value m after
  fresh-Maps = record {
    entries = fresh-entries;
    kept = bit_kept;
    untouched = untouched;
    tables = tables;
    valid = fresh-IsDirectory;
  }
