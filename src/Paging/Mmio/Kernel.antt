-- ===== src/Paging/Mmio/Kernel.antt =====
-- `map_page`: a page of the kernel's own directory.
use Prim.Native.Nat.{bit_or}
use spike_os.Prelude.{
  ℕ, ◌*◌, ◌<◌, ◌≡◌, refl, Bool, true, false, ◌==◌, ◌&&◌, if◌then◌else◌, Option, none, some, arith,
  ◌∙◌, ap, inl, inr, Bool-cases,
}
use mathlib.Core.Path.{fun_ext}
use spike_os.Frames.{Bitmap, max_frames, set_frame}
use spike_os.Frames.Bitmap.{frame_bit}
use spike_os.Frames.Single.{Searched, taken, full, alloc_frame_lem}
use spike_os.Paging.{
  Layout, Memory, page_of, pd_index, pt_index, is_present, temp_slot, is_shared, kernel_flags,
  set_word, zero_page, temp_map, temp_unmap, make_table, ensure_table, write_entry, map_page,
}
use spike_os.Paging.Words.{page_of-entry, is_present-entry}
use spike_os.Paging.Entries.{entry, table, HasTable, IsDirectory, Maps, Mapped, mapped, fresh-ne}
use spike_os.Paging.Entries
use spike_os.Paging.Fresh.{fresh-Maps}
use spike_os.Paging.Map.{in_table-Maps}

module _ (l : Layout) (m : Memory) (virt phys flags : ℕ) (ok : IsDirectory l m l.directory) where
  abbrev Result : Bool × Memory → Type 0
  Result = Mapped l l.directory virt (bit_or phys flags) m

  in_table :
      HasTable m l.directory (pd_index virt)
      → is_shared l (table m l.directory (pd_index virt)) ≡ false
      → Result (write_entry l virt phys flags (true, m))
  unfolding write_entry temp_map temp_unmap set_word
  in_table has own = mapped _ (
      in_table-Maps l m l.directory virt (bit_or phys flags) _ ok has own
        (λ p j. ground (arith, own)))

  -- The new table in frame `f`.
  abbrev made : ℕ → Memory
  made f = record m {
    bitmap = set_frame m.bitmap f;
    words = λ p j.
        if p == l.first && j == temp_slot
        then 0
        else if p == f
        then 0
        else if p == l.directory && j == pd_index virt
        then bit_or (f * 4096) kernel_flags
        else m.words p j;
  }

  made-entry :
      (f : ℕ) → frame_bit m.bitmap f ≡ 0 → page_of ((made f).words l.directory (pd_index virt)) ≡ f
  made-entry f free =
      let e : (made f).words l.directory (pd_index virt) ≡ bit_or (f * 4096) kernel_flags =
        ground (arith, ok.own, fresh-ne m.bitmap f l.directory free ok.dir_used) in
      ap page_of e ∙ page_of-entry (f * 4096) 3 (omega arith) ∙ omega arith

  make_table-made :
      (f : ℕ)
      → make_table l virt (some (f * 4096), record m { bitmap = set_frame m.bitmap f })
        ≡ (true, made f)
  unfolding make_table temp_map temp_unmap set_word zero_page
  make_table-made f =
      let d : page_of (f * 4096) ≡ f = omega arith in
      rw d (
        ap (λ w. (true, record m { bitmap = set_frame m.bitmap f; words = w }))
          (fun_ext (λ p. fun_ext (λ j. ground arith))))

  write_entry-made :
      (f : ℕ)
      → frame_bit m.bitmap f ≡ 0
      → write_entry l virt phys flags (true, made f) ≡ (
        true,
        temp_unmap l
            (set_word f (pt_index virt) (bit_or phys flags) (temp_map l (f * 4096) (made f))),
      )
  unfolding write_entry
  write_entry-made f free =
      ap
        (λ t. (
          true,
          temp_unmap l
              (set_word t (pt_index virt) (bit_or phys flags) (temp_map l (t * 4096) (made f))),
        ))
        (made-entry f free)

  in_made :
      (f : ℕ)
      → frame_bit m.bitmap f ≡ 0
      → f < max_frames
      → is_present (m.words l.directory (pd_index virt)) ≡ false
      → Result (
        true,
        temp_unmap l
            (set_word f (pt_index virt) (bit_or phys flags) (temp_map l (f * 4096) (made f))),
      )
  unfolding temp_map temp_unmap set_word
  in_made f free below none_yet =
      let at : page_of (bit_or (f * 4096) kernel_flags) ≡ f =
        page_of-entry (f * 4096) 3 (omega arith) ∙ omega arith in
      mapped _ (
        fresh-Maps l m l.directory virt (bit_or phys flags) f (bit_or (f * 4096) kernel_flags)
          (λ j. 0) _ ok free below (is_present-entry (f * 4096) 3 refl) at (λ j. rw none_yet)
          (λ p j. ground (arith, fresh-ne m.bitmap f l.first free ok.first_used)))

  no_table : write_entry l virt phys flags (make_table l virt (none, m)) ≡ (false, m)
  unfolding write_entry make_table
  no_table = refl

  in_new :
      (r : Option ℕ × Bitmap)
      → Searched m.bitmap 0 r
      → is_present (m.words l.directory (pd_index virt)) ≡ false
      → Result (write_entry l virt phys flags (make_table l virt (r.0, record m { bitmap = r.1 })))
  in_new r (full used e) none_yet =
      rw (e, no_table) (Entries.full _ (λ p j. refl) refl (λ g lt. used g (omega arith) lt))
  in_new r (taken f first e) none_yet =
      rw (e, make_table-made f, write_entry-made f first.free)
        (in_made f first.free first.below none_yet)

  -- Where the table of the address is not shared, `map_page` maps exactly the page of the address in the
  -- kernel's directory; or all frames are in use, and nothing changes.
  pub map_page-Mapped :
      (HasTable m l.directory (pd_index virt)
        → is_shared l (table m l.directory (pd_index virt)) ≡ false)
      → Result (map_page l virt phys flags m)
  unfolding map_page ensure_table
  map_page-Mapped own = elim (Bool-cases (is_present (m.words l.directory (pd_index virt)))) [
    | inl has ↦ rw has (in_table has (own has))
    | inr none_yet ↦ rw none_yet (in_new _ (alloc_frame_lem m.bitmap) none_yet)
  ]
