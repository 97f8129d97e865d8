-- ===== src/Paging/Mmio/Laws.antt =====
-- `map_mmio_region`: the device's memory behind the address that it gives.
use Prim.Native.Nat.{bit_or}
use spike_os.Prelude.{
  ℕ, ◌+◌, ◌*◌, ◌/◌, ◌%◌, ◌^◌, ◌≤◌, ◌<◌, ◌≡◌, refl, Bool, false, none, some, ◌==◌, ltb, arith, ◌∙◌,
  inl, inr, Bool-cases, ap, ◌⊎◌,
}
use spike_os.Frames.{max_frames}
use spike_os.Frames.Bitmap.{frame_bit}
use spike_os.Paging.{Layout, Memory, page_of, page_entries}
use spike_os.Paging.Entries.{entry}
use spike_os.Paging.Mmio.{
  mmio_flags, map_run, page_count, pde_count, MmioResult, claim_pdes, map_mmio_region,
}
use spike_os.Paging.Mmio.Pages.{
  IsKernel, Window-inside, Window-outside, Pages, all_mapped, stuck, map_run-Pages,
}

-- The addresses in pages before page `first` or from page `last` on are mapped as they were.
abbrev Others : Layout → (first last : ℕ) → Memory → Memory → Type 0
Others l first last m m' =
    (v : ℕ)
    → (page_of v < first) ⊎ (last ≤ page_of v)
    → entry m' l.directory v ≡ entry m l.directory v

-- Byte by byte the region shows the physical memory, in directory entries of its own.
pub record Claimed (l : Layout) (phys_base size next : ℕ) (m : Memory) (virt : ℕ) (r : MmioResult)
    : Type 0 where
  pub result : r.0 ≡ some virt
  pub offset : virt % 4096 ≡ phys_base % 4096
  pub shows :
      (k : ℕ)
      → k < size
      → entry r.2 l.directory (virt + k) ≡ bit_or (page_of (phys_base + k) * 4096) mmio_flags
  pub begins : next * 2 ^ 22 ≤ virt
  pub ends : virt + size ≤ r.1 * 2 ^ 22
  pub others : Others l (page_of virt) (page_of (virt + size + 4095)) m r.2
  pub kernel : IsKernel l r.1 r.2

-- The region, or -1, where the directory has not enough entries left or the frames run out.
pub data MmioOutcome (l : Layout) (phys_base size next : ℕ) (m : Memory) (r : MmioResult)
    : Type 0 where
  maps : (virt : ℕ) → Claimed l phys_base size next m virt r → MmioOutcome l phys_base size next m r
  fails :
      r.0 ≡ none
      → r.1 ≡ next
      → (page_entries < next + pde_count (page_count size (phys_base % 4096)))
        ⊎ ((g : ℕ) → g < max_frames → frame_bit r.2.bitmap g ≡ 1)
      → Others l (next * 1024) (page_entries * 1024) m r.2
      → IsKernel l next r.2
      → MmioOutcome l phys_base size next m r

module _ (l : Layout) (phys_base size next : ℕ) (m : Memory) (some_bytes : 1 ≤ size)
    (fits : phys_base + size + 4096 ≤ 2 ^ 32) (k : IsKernel l next m) where
  abbrev pages : ℕ
  pages = page_count size (phys_base % 4096)

  pages-count : pages ≡ (size + phys_base % 4096 + 4095) / 4096
  unfolding page_count
  pages-count = omega arith

  claim :
      next + pde_count pages ≤ page_entries
      → (r : Bool × Memory) → Pages l next (next * 1024) (page_of phys_base) pages m r
      → MmioOutcome l phys_base size next m
          (claim_pdes next pages (next * 2 ^ 22 % 2 ^ 32 + phys_base % 4096) r)
  unfolding claim_pdes
  claim room _ (all_mapped m' w) = maps _ record {
    result = refl;
    offset = omega arith;
    shows = λ j lt.
        Window-inside l next (next * 1024) (page_of phys_base) pages m m' w _
          (omega (arith, pages-count)) (omega (arith, pages-count))
        ∙ ap (λ f. bit_or (f * 4096) mmio_flags) (omega (arith, pages-count));
    begins = omega (arith, pages-count);
    ends = omega (arith, pages-count);
    others = λ v out.
        Window-outside l next (next * 1024) (page_of phys_base) pages m m' w v
          (ground (arith, pages-count, out));
    kernel = record { valid = w.kernel.valid; own = λ i lt. w.kernel.own i (omega arith) };
  }
  claim room _ (stuck m' n lt w used) =
      fails refl refl (inr used)
        (λ v out.
          Window-outside l next (next * 1024) (page_of phys_base) n m m' w v
            (ground (arith, pages-count, out)))
        w.kernel

  run :
      next + pde_count pages ≤ page_entries
      → MmioOutcome l phys_base size next m (
          claim_pdes next pages
            (next * 2 ^ 22 % 2 ^ 32 + phys_base % 4096)
            (map_run l pages (next * 2 ^ 22 % 2 ^ 32) (phys_base / 4096 * 4096) m))
  run room = claim room _ (
      map_run-Pages l next pages _ _ (next * 1024) (page_of phys_base) m (omega arith) (omega arith)
        (omega (arith, pages-count)) (omega (arith, pages-count)) (omega arith) k)

-- `map_mmio_region` of a region that ends at least a page below 2 ^ 32, where no directory entry from
-- `mmio_next_pde` on names a static table: every byte of the region is mapped behind the address
-- returned, not cached, in directory entries that no earlier call has, and the addresses in all pages
-- but those of the region are mapped as before; or it returns -1 with `mmio_next_pde` as it was, because
-- the directory has not enough entries left or the frames run out, and all addresses below directory
-- entry `mmio_next_pde` are mapped as before.
pub map_mmio_region-Outcome :
    (l : Layout) (phys_base size next : ℕ) (m : Memory)
    → 1 ≤ size
    → phys_base + size + 4096 ≤ 2 ^ 32
    → IsKernel l next m
    → MmioOutcome l phys_base size next m (map_mmio_region l phys_base size next m)
unfolding map_mmio_region
map_mmio_region-Outcome l phys_base size next m some_bytes fits k =
    let no : (size == 0) ≡ false = ground arith in
    rw no
      (elim (Bool-cases
        (ltb page_entries (next + pde_count (page_count size (phys_base % 4096))))) [
          | inl short ↦ rw short (fails refl refl (inl (ground arith)) (λ v out. refl) k)
          | inr enough ↦ rw enough (run l phys_base size next m some_bytes fits k (ground arith))
        ])
