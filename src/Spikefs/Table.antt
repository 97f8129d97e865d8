-- ===== src/Spikefs/Table.antt =====
-- The indirect block: its table as words, and the loops along it.
use Prim.Native.Nat.{min}
use spike_os.Prelude.{
  ℕ, zero, suc, ◌+◌, ◌-◌, ◌*◌, ◌/◌, ◌%◌, ◌^◌, ◌≤◌, ◌<◌, ◌≡◌, refl, false, some, List, [], ◌∷◌, ◌++◌,
  ◌==◌, length, take, drop, replicate, arith, ap, inl, inr, Bool-cases, length-drop,
}
use spike_os.Net.{Bytes, le32}
use spike_os.Spikefs.{
  Disk, read_sector, write_sector, write_direct, write_indirect, run_from, prepend, read_direct,
  read_indirect, to_bytes, to_words, block_of,
}
use spike_os.Spikefs.Blocks.{after_write}

-- With a byte left for each block, the two loops write the same.
pub write_indirect-direct :
    (n sector : ℕ) (content : Bytes) (d : Disk)
    → 512 * n < length content + 512
    → write_indirect n sector content d ≡ write_direct n sector content d
unfolding write_indirect write_direct write_sector
write_indirect-direct zero sector content d enough = refl
write_indirect-direct (suc n) sector content d enough =
    let some_left : (length content == 0) ≡ false = ground arith in
    elim (Bool-cases (d.bad sector)) [
      | inl broken ↦ rw (some_left, broken) refl
      | inr fine ↦
          rw (some_left, fine)
            (write_indirect-direct n (sector + 1) (drop 512 content)
              (after_write sector (block_of content) d) (omega (arith, length-drop 512 content)))
    ]

-- Nothing is left at the end of the blocks.
stops :
    (data_start pad : ℕ) (d : Disk) → read_indirect data_start (replicate pad 0) 0 d ≡ some ([], 0)
unfolding read_indirect
stops data_start zero d = refl
stops data_start (suc pad) d = refl

-- A table that ends in zeroes is read as the blocks before them, if these hold all that remains.
pub read_indirect-direct :
    (n data_start b remaining pad : ℕ) (d : Disk)
    → 1 ≤ b
    → remaining ≤ 512 * n
    → read_indirect data_start (run_from b n ++ replicate pad 0) remaining d
      ≡ read_direct data_start (run_from b n) remaining d
unfolding read_indirect read_direct run_from read_sector
read_indirect-direct zero data_start b remaining pad d some_block few =
    let e : remaining ≡ 0 = omega arith in rw e (stops data_start pad d)
read_indirect-direct (suc n) data_start b remaining pad d some_block few =
    elim (Bool-cases (remaining == 0)) [
      | inl nothing ↦ rw nothing refl
      | inr more ↦
          let z : (b == 0) ≡ false = ground arith in
          elim (Bool-cases (d.bad (data_start + b))) [
            | inl broken ↦ rw (more, z, broken) refl
            | inr fine ↦
                rw (more, z, fine)
                  (ap (prepend (take (min remaining 512) (d.sectors (data_start + b)))) (
                    read_indirect-direct n data_start (b + 1) (remaining - min remaining 512) pad d
                      (omega arith) (omega arith)))
          ]
    ]

-- Words of 32 bits.
abbrev pub AllWords : List ℕ → Type 0
AllWords [] = Unit {0}
AllWords (w ∷ ws) = (w < 2 ^ 32) × AllWords ws

pub to_words-to_bytes : (ws : List ℕ) → AllWords ws → to_words (length ws) (to_bytes ws) ≡ ws
unfolding to_words to_bytes le32
to_words-to_bytes [] h = refl
to_words-to_bytes (w ∷ ws) (narrow, h) =
    let e : w % 256
          + 256 * (w / 256 % 256)
          + 65536 * (w / 65536 % 256)
          + 16777216 * (w / 16777216 % 256)
        ≡ w =
      omega arith in
    rw (e, to_words-to_bytes ws h) refl

pub length-run_from : (first n : ℕ) → length (run_from first n) ≡ n
unfolding run_from
length-run_from first zero = refl
length-run_from first (suc n) = ap suc (length-run_from (first + 1) n)

pad-AllWords : (n : ℕ) → AllWords (replicate n 0)
pad-AllWords zero = tt
pad-AllWords (suc n) = (omega arith, pad-AllWords n)

pub table-AllWords :
    (n first pad : ℕ) → first + n < 2 ^ 32 → AllWords (run_from first n ++ replicate pad 0)
unfolding run_from
table-AllWords zero first pad h = pad-AllWords pad
table-AllWords (suc n) first pad h = (omega arith, table-AllWords n (first + 1) pad (omega arith))
