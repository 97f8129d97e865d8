-- ===== src/Spikefs/RoundTrip.antt =====
-- The data of an inode is read back as it was written.
use Prim.Native.Nat.{min}
use spike_os.Prelude.{
  ℕ, ◌+◌, ◌-◌, ◌^◌, ◌≤◌, ◌<◌, ◌≡◌, ◌≢◌, refl, false, some, [], ◌∷◌, ◌++◌, ◌==◌, length, arith, ◌∙◌,
  ap, sym, inl, inr, Bool-cases, Option-cases, length-drop,
}
use mathlib.Core.Path.{subst}
use mathlib.Core.Option.{some-injective, none-ne-some}
use spike_os.Net.{Bytes}
use spike_os.Spikefs.{
  Disk, DiskInode, write_sector, write_direct, write_indirect, run_from, to_bytes, direct_count,
  indirect_count, write_table, write_rest, write_data, with_inode, read_data,
}
use spike_os.Spikefs.Blocks.{Written, write_direct-Written}
use spike_os.Spikefs.Table.{write_indirect-direct}
use spike_os.Spikefs.Files.{
  entries, write_sector-done, small_file, not_zero, same_number, other_number, read_empty,
  large_file,
}

module _ (data_start first : ℕ) (content : Bytes) (d d' : Disk) (i : DiskInode)
    (some_byte : 1 ≤ length content) (fits : length content ≤ 71680)
    (narrow : first + 141 < 2 ^ 32) where
  abbrev n : ℕ
  n = direct_count (length content)

  abbrev large_inode : DiskInode
  large_inode = record {
    size = length content;
    direct = run_from first 12 ++ [];
    indirect = first + 12;
  }

  abbrev k' : ℕ
  k' = min (indirect_count (length content)) 128

  -- Behind 12 direct blocks.
  after_many :
      (rest : Bytes) (d1 : Disk)
      → Written data_start first 12 content rest d d1
      → indirect_count (length content) ≢ 0
      → with_inode large_inode (
          write_table data_start
            (first + 12)
            k'
            (write_indirect k' (data_start + (first + 12 + 1)) rest d1))
        ≡ some (i, d')
      → read_data data_start i d' ≡ some content
  unfolding write_table
  after_many rest d1 w many e =
      let size : length rest ≡ length content - 6144 =
        ap length w.left ∙ length-drop 6144 content in
      elim (Option-cases (write_indirect k' (data_start + (first + 12 + 1)) rest d1)) [
        | inl failed ↦ absurd (none-ne-some _ (sym (rw failed refl) ∙ e))
        | inr ((rest', d2), wrote) ↦
            let w' : Written data_start (first + 12 + 1) k' rest rest' d1 d2 =
              write_direct-Written k' data_start (first + 12 + 1) rest rest' d1 d2 (
                sym (
                  write_indirect-direct k' (data_start + (first + 12 + 1)) rest d1
                    (omega (arith, size, many)))
                ∙ wrote) in
            let table : Bytes = to_bytes (entries (first + 12 + 1) k') in
            elim (Option-cases (write_sector (data_start + (first + 12)) table d2)) [
              | inl failed ↦ absurd (none-ne-some _ (sym (rw (wrote, failed) refl) ∙ e))
              | inr (d3, put) ↦
                  let (fine, done) =
                    write_sector-done (data_start + (first + 12)) table d2 d3 put in
                  subst (λ r. read_data data_start r.0 r.1 ≡ some content)
                    (some-injective _ _ (sym (rw (wrote, put) refl) ∙ e))
                    (large_file data_start first content rest rest' d d1 d2 d3 fits narrow many w w'
                      fine done)
            ]
      ]

  -- Behind the direct blocks.
  after_direct :
      (rest : Bytes) (d1 : Disk)
      → Written data_start first n content rest d d1
      → write_rest data_start first (length content) (some (rest, d1)) ≡ some (i, d')
      → read_data data_start i d' ≡ some content
  unfolding write_rest
  after_direct rest d1 w e = elim (Bool-cases (indirect_count (length content) == 0)) [
    | inl few ↦
        subst (λ r. read_data data_start r.0 r.1 ≡ some content)
          (some-injective _ _ (sym (rw few refl) ∙ e))
          (small_file data_start first content rest d d1 some_byte fits (same_number _ _ few) w)
    | inr more ↦
        let many : indirect_count (length content) ≢ 0 = other_number _ _ more in
        let twelve : n ≡ 12 = omega (arith, many) in
        after_many rest d1 (subst (λ j. Written data_start first j content rest d d1) twelve w) many
          (sym (rw (more, twelve) refl) ∙ e)
  ]

-- `read_data` of the inode that `write_data` gives, on the disk that it leaves, returns exactly the bytes
-- that were written, where no write failed, for at most 140 blocks: 12 direct ones and the 128 of a table.
pub read_data-write_data :
    (data_start first : ℕ) (content : Bytes) (d d' : Disk) (i : DiskInode)
    → length content ≤ 71680
    → first + 141 < 2 ^ 32
    → write_data data_start first content d ≡ some (i, d')
    → read_data data_start i d' ≡ some content
unfolding write_data write_rest
read_data-write_data data_start first [] d d' i fits narrow e =
    subst (λ r. read_data data_start r.0 r.1 ≡ some []) (some-injective _ _ e)
      (read_empty data_start d)
read_data-write_data data_start first (x ∷ xs) d d' i fits narrow e =
    let content : Bytes = x ∷ xs in
    let full : (length content == 0) ≡ false = not_zero (length content) (omega arith) in
    elim (Option-cases
      (write_direct (direct_count (length content)) (data_start + first) content d)) [
        | inl failed ↦ absurd (none-ne-some _ (sym (rw (full, failed) refl) ∙ e))
        | inr ((rest, d1), wrote) ↦
            after_direct data_start first content d d' i (omega arith) fits narrow rest d1
              (write_direct-Written (direct_count (length content)) data_start first content rest d
                d1 wrote)
              (sym (rw (full, wrote) refl) ∙ e)
      ]
