-- ===== src/Paging/Map.antt =====
-- `pgdir_map_user_page` on each of its branches.
use Prim.Native.Nat.{bit_and, bit_or}
use spike_os.Prelude.{
  ℕ, ◌*◌, ◌≡◌, ◌≢◌, refl, Bool, true, false, ◌&&◌, ◌==◌, if◌then◌else◌, Option, arith, ◌∙◌, ap, inl,
  inr, Bool-cases,
}
use spike_os.Frames.{Bitmap}
use spike_os.Frames.Bitmap.{frame_bit}
use spike_os.Frames.Single.{Searched, taken, full, alloc_frame_lem}
use spike_os.Paging.{
  Layout, Memory, page_of, pd_index, pt_index, is_present, temp_slot, is_shared, kernel_flags,
  page_user, set_word, zero_page, copy_page, temp_map, temp_unmap, map_in_new, map_in_clone,
  map_in_table, map_by_entry, pgdir_map_user_page,
}
use spike_os.Paging.Words.{table_entry, user_flag-lt}
use spike_os.Paging.Entries.{
  entry, table, HasTable, IsDirectory, Maps, Mapped, mapped, same_page, fresh-ne,
}
use spike_os.Paging.Entries
use spike_os.Paging.Fresh.{fresh-Maps}

module _ (l : Layout) (m : Memory) (dir virt value : ℕ) (w : ℕ → ℕ → ℕ) (ok : IsDirectory l m dir)
    (has : HasTable m dir (pd_index virt)) (own : is_shared l (table m dir (pd_index virt)) ≡ false)
    (shape : (p j : ℕ)
      → w p j ≡ (
          if p == l.first
          then (if j == temp_slot then 0 else m.words p j)
          else if p == table m dir (pd_index virt)
          then (if j == pt_index virt then value else m.words p j)
          else m.words p j)) where
  abbrev pub after : Memory
  after = record m { words = w }

  pub directory_words : (i : ℕ) → w dir i ≡ m.words dir i
  directory_words i = shape dir i ∙ ground (arith, ok.own, ok.other (pd_index virt) has)

  through-after :
      (i j : ℕ)
      → HasTable m dir i
      → w (table m dir i) j ≡ (
          if (if i == pd_index virt then j == pt_index virt else false)
          then value
          else m.words (table m dir i) j)
  through-after i j had = elim (Bool-cases (i == pd_index virt)) [
    | inl same ↦
        let s : i ≡ pd_index virt = ground arith in rw (same, s) (shape _ j ∙ ground (arith, own))
    | inr differs ↦
        rw differs (shape _ j ∙ ground (arith, own, ok.closed, ok.apart (pd_index virt) i has had))
  ]

  elsewhere :
      (v : ℕ)
      → is_present (m.words dir (pd_index v)) ≡ false
      → (pd_index v == pd_index virt) ≡ false
  elsewhere v none_yet = elim (Bool-cases (pd_index v == pd_index virt)) [
    | inr differs ↦ differs
    | inl same ↦
        let s : pd_index v ≡ pd_index virt = ground arith in
        let h : is_present (m.words dir (pd_index v)) ≡ true = rw s has in
        ground (arith, h, none_yet)
  ]

  entries :
      (v : ℕ) → entry after dir v ≡ (if page_of v == page_of virt then value else entry m dir v)
  entries v =
      rw (directory_words (pd_index v), same_page v virt)
        (elim (Bool-cases (is_present (m.words dir (pd_index v)))) [
          | inl had ↦ rw had (through-after (pd_index v) (pt_index v) had)
          | inr none_yet ↦ rw (none_yet, elsewhere v none_yet)
        ])

  pub in_table-Maps : Maps l dir virt value m after
  in_table-Maps = record {
    entries = entries;
    kept = λ g h. h;
    untouched = λ p j used ne apart. shape p j ∙ ground (arith, ok.closed, apart has);
    tables = λ i had. inl (rw (directory_words i) at had, ap page_of (directory_words i));
    valid = record {
      sized = ok.sized;
      closed = shape l.first temp_slot ∙ ground arith;
      dir_used = ok.dir_used;
      first_used = ok.first_used;
      second_used = ok.second_used;
      third_used = ok.third_used;
      own = ok.own;
      used = λ i had. rw (directory_words i) (ok.used i (rw (directory_words i) at had));
      other = λ i had. rw (directory_words i) (ok.other i (rw (directory_words i) at had));
      apart = λ i j had had' ne.
          rw (directory_words i, directory_words j)
            (ok.apart i j (rw (directory_words i) at had) (rw (directory_words j) at had') ne);
    };
  }

-- A kernel table is cloned only where a page for the user is mapped, and then not the first one, whose
-- clone would keep the window of `temp_map`.
abbrev pub Allowed : Layout → Memory → (dir virt flags : ℕ) → Type 0
Allowed l m dir virt flags =
    HasTable m dir (pd_index virt)
    → is_shared l (table m dir (pd_index virt)) ≡ true
    → ((bit_and flags page_user == 0) ≡ false) × (table m dir (pd_index virt) ≢ l.first)

module _ (l : Layout) (m : Memory) (pd virt phys flags : ℕ)
    (ok : IsDirectory l m (page_of pd)) where
  abbrev value : ℕ
  value = bit_or phys flags

  abbrev Result : Bool × Memory → Type 0
  Result = Mapped l (page_of pd) virt value m

  first_fresh : (f : ℕ) → frame_bit m.bitmap f ≡ 0 → (l.first == f) ≡ false
  first_fresh f free = fresh-ne m.bitmap f l.first free ok.first_used

  in_new :
      (r : Option ℕ × Bitmap)
      → Searched m.bitmap 0 r
      → is_present (m.words (page_of pd) (pd_index virt)) ≡ false
      → Result (map_in_new l pd virt phys flags (r.0, record (temp_map l pd m) { bitmap = r.1 }))
  unfolding map_in_new temp_map temp_unmap set_word zero_page
  in_new r (full used e) none_yet =
      rw e
        (Entries.full _ (λ p j. ground (arith, ok.closed)) refl (λ g lt. used g (omega arith) lt))
  in_new r (taken f first e) none_yet =
      let d : page_of (f * 4096) ≡ f = omega arith in
      rw (e, d)
        (mapped _ (
          fresh-Maps l m (page_of pd) virt value f
            (bit_or (bit_or (f * 4096) kernel_flags) (bit_and flags page_user)) (λ j. 0) _ ok
            first.free first.below (table_entry (f * 4096) _ (user_flag-lt flags)).0
            ((table_entry (f * 4096) _ (user_flag-lt flags)).1 ∙ d) (λ j. rw none_yet)
            (λ p j. ground (arith, first_fresh f first.free))))

  in_clone :
      (r : Option ℕ × Bitmap)
      → Searched m.bitmap 0 r
      → HasTable m (page_of pd) (pd_index virt)
      → table m (page_of pd) (pd_index virt) ≢ l.first
      → Result (
          map_in_clone l pd virt phys flags
            (table m (page_of pd) (pd_index virt))
            (r.0, record (temp_map l pd m) { bitmap = r.1 }))
  unfolding map_in_clone temp_map temp_unmap set_word copy_page
  in_clone r (full used e) has ne =
      rw e
        (Entries.full _ (λ p j. ground (arith, ok.closed)) refl (λ g lt. used g (omega arith) lt))
  in_clone r (taken f first e) has ne =
      let d : page_of (f * 4096) ≡ f = omega arith in
      let dir = page_of pd in
      rw (e, d)
        (mapped _ (
          fresh-Maps l m (page_of pd) virt value f
            (bit_or (bit_or (f * 4096) kernel_flags) page_user)
            (m.words (table m (page_of pd) (pd_index virt))) _ ok first.free first.below
            (table_entry (f * 4096) page_user (omega arith)).0
            ((table_entry (f * 4096) page_user (omega arith)).1 ∙ d) (λ j. rw has)
            (λ p j. ground (
              arith,
              first_fresh f first.free,
              ok.own,
              ok.other (pd_index virt) has,
              ne,
              fresh-ne m.bitmap f (table m (page_of pd) (pd_index virt)) first.free
                  (ok.used (pd_index virt) has),
            ))))

  in_table :
      HasTable m (page_of pd) (pd_index virt)
      → is_shared l (table m (page_of pd) (pd_index virt)) ≡ false
      → Result
          (map_in_table l (table m (page_of pd) (pd_index virt)) virt phys flags (temp_map l pd m))
  unfolding map_in_table temp_map temp_unmap set_word
  in_table has own =
      mapped _ (in_table-Maps l m (page_of pd) virt value _ ok has own (λ p j. ground (arith, own)))

  by_entry :
      Allowed l m (page_of pd) virt flags
      → Result (
          map_by_entry l pd virt phys flags
            (m.words (page_of pd) (pd_index virt))
            (temp_map l pd m))
  unfolding map_by_entry temp_map set_word
  by_entry allowed = elim (Bool-cases (is_present (m.words (page_of pd) (pd_index virt)))) [
    | inr none_yet ↦ rw none_yet (in_new _ (alloc_frame_lem m.bitmap) none_yet)
    | inl has ↦ elim (Bool-cases (is_shared l (table m (page_of pd) (pd_index virt)))) [
      | inl shared ↦
          rw (has, shared, (allowed has shared).0)
            (in_clone _ (alloc_frame_lem m.bitmap) has (allowed has shared).1)
      | inr own ↦ rw (has, own, and_false) (in_table has own)
    ]
  ]
    where
      and_false : (b : Bool) → (b && false) ≡ false
      and_false true = refl
      and_false false = refl

  -- In a well-formed directory, where the address has no table of the kernel, or one that is cloned
  -- because the page is the user's and that is not the first one, `pgdir_map_user_page` maps exactly the
  -- page of the address: every address of that page gets the new entry, all others keep theirs, the
  -- directory stays well formed, and pages in use that are not of this directory are not written; or it
  -- fails because all frames are in use, and changes no word and no frame.
  pub pgdir_map_user_page-Mapped :
      Allowed l m (page_of pd) virt flags → Result (pgdir_map_user_page l pd virt phys flags m)
  unfolding pgdir_map_user_page temp_map set_word
  pgdir_map_user_page-Mapped allowed =
      let e : (temp_map l pd m).words (page_of pd) (pd_index virt)
          ≡ m.words (page_of pd) (pd_index virt) =
        ground (arith, ok.own) in
      rw e (by_entry allowed)
