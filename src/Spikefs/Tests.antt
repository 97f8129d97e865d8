-- ===== src/Spikefs/Tests.antt =====
-- A file of three bytes on an empty disk, and a bitmap of sixteen blocks.
use spike_os.Prelude.{
  ◌⊎◌, ℕ, ◌+◌, ◌≤◌, ◌<◌, ◌≡◌, refl, true, false, ◌&&◌, none, some, [], ◌∷◌, arith, leb, ltb,
  if◌then◌else◌, replicate,
}
use spike_os.Net.{Bytes}
use spike_os.Spikefs.{
  Disk, DiskInode, block_of, write_data, read_data, write_direct, write_sector, write_rest,
  run_from,
}
use spike_os.Spikefs.Blocks.{after_write}
use spike_os.Spikefs.RoundTrip.{read_data-write_data}
use spike_os.Spikefs.Bitmap.{bitmap_alloc, bitmap_test, Free, bitmap_alloc-Allocated}

abbrev content : Bytes
content = 7 ∷ (8 ∷ (9 ∷ []))

abbrev blank : Disk
blank = record { sectors = λ l. []; bad = λ l. false }

abbrev inode : DiskInode
inode = record { size = 3; direct = 5 ∷ replicate 11 0; indirect = 0 }

written : write_data 10 5 content blank ≡ some (inode, after_write 15 (block_of content) blank)
unfolding write_data write_direct write_sector write_rest run_from
written = refl

-- Witnesses of the properties.
read_data-write_data_example :
    read_data 10 inode (after_write 15 (block_of content) blank) ≡ some content
read_data-write_data_example =
    read_data-write_data 10 5 content blank (after_write 15 (block_of content) blank) inode
      (omega arith) (omega arith) written

bitmap_alloc-Allocated_example :
    (bitmap_alloc 16 4 (7 ∷ (0 ∷ [])) ≡ (none, 7 ∷ (0 ∷ [])))
    ⊎ ((start : ℕ) × ((bitmap_alloc 16 4 (7 ∷ (0 ∷ []))).0 ≡ some start)
        × (start + 4 ≤ 16)
        × ((j : ℕ) → start ≤ j → j < start + 4 → Free j (7 ∷ (0 ∷ [])))
        × ((j : ℕ)
            → bitmap_test j (bitmap_alloc 16 4 (7 ∷ (0 ∷ []))).1
              ≡ (if leb start j && ltb j (start + 4) then true else bitmap_test j (7 ∷ (0 ∷ [])))))
bitmap_alloc-Allocated_example =
    bitmap_alloc-Allocated 16 4 (7 ∷ (0 ∷ [])) (omega arith) (omega arith)
