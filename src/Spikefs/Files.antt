-- ===== src/Spikefs/Files.antt =====
-- A file with direct blocks alone, and one with an indirect block.
use Prim.Native.Nat.{min}
use spike_os.Prelude.{
  ℕ, zero, suc, ◌+◌, ◌-◌, ◌*◌, ◌^◌, ◌≤◌, ◌<◌, ◌≡◌, ◌≢◌, refl, true, false, some, List, [], ◌∷◌,
  ◌++◌, ◌==◌, if◌then◌else◌, length, take, replicate, arith, ◌∙◌, ap, sym, inl, inr, Bool-cases,
  length-append, length-replicate, length-drop, take-append-drop,
}
use mathlib.Core.Path.{subst}
use mathlib.Core.Option.{some-injective, none-ne-some}
use spike_os.Net.{Bytes}
use spike_os.Spikefs.{
  Disk, read_sector, write_sector, run_from, read_direct, read_indirect, to_bytes, to_words,
  direct_count, indirect_count, read_rest, read_data,
}
use spike_os.Spikefs.Blocks.{Written, take-longer, after_write}
use spike_os.Spikefs.Table.{
  read_indirect-direct, to_words-to_bytes, table-AllWords, length-run_from,
}

take-whole {ℓ} : {A : Type ℓ} (n : ℕ) (xs : List A) → length xs ≤ n → take n xs ≡ xs
take-whole zero [] h = refl
take-whole zero (x ∷ xs) h = absurd (omega arith)
take-whole (suc n) [] h = refl
take-whole (suc n) (x ∷ xs) h = ap (λ ys. x ∷ ys) (take-whole n xs (omega arith))

-- The table of `k` blocks behind the indirect one.
abbrev pub entries : (first k : ℕ) → List ℕ
entries first k = run_from first k ++ replicate (128 - k) 0

length-entries : (first k : ℕ) → k ≤ 128 → length (entries first k) ≡ 128
length-entries first k few = omega (
  arith,
  length-append (run_from first k) (replicate (128 - k) 0),
  length-run_from first k,
  length-replicate {A = ℕ} (128 - k) 0,
)

pub write_sector-done :
    (lba : ℕ) (bs : Bytes) (d d' : Disk)
    → write_sector lba bs d ≡ some d'
    → (d.bad lba ≡ false) × (after_write lba bs d ≡ d')
unfolding write_sector
write_sector-done lba bs d d' e = elim (Bool-cases (d.bad lba)) [
  | inl broken ↦ absurd (none-ne-some _ (sym (rw broken refl) ∙ e))
  | inr fine ↦ (fine, some-injective _ _ (sym (rw fine refl) ∙ e))
]

first_part : (first n pad : ℕ) → take n (run_from first n ++ replicate pad 0) ≡ run_from first n
first_part first n pad =
    subst (λ k. take k (run_from first n ++ replicate pad 0) ≡ run_from first n)
      (length-run_from first n) (take-longer (run_from first n) (replicate pad 0))

-- A file of at most 12 blocks.
pub small_file :
    (data_start first : ℕ) (content rest : Bytes) (d d1 : Disk)
    → 1 ≤ length content
    → length content ≤ 71680
    → indirect_count (length content) ≡ 0
    → Written data_start first (direct_count (length content)) content rest d d1
    → read_data data_start
        (record {
          size = length content;
          direct =
              run_from first (direct_count (length content))
              ++ replicate (12 - direct_count (length content)) 0;
          indirect = 0;
        })
        d1
      ≡ some content
unfolding read_data read_rest
small_file data_start first content rest d d1 some_byte fits few w =
    let n = direct_count (length content) in
    let some_size : (length content == 0) ≡ false = ground (arith, some_byte) in
    let covers : length content ≤ 512 * n = omega (arith, few) in
    let nothing : length rest ≡ 0 =
      ap length w.left ∙ omega (arith, length-drop (512 * n) content) in
    rw
      (
        some_size,
        first_part first n (12 - n),
        w.reads d1 (λ l lo hi. (refl, refl)),
        nothing,
        take-whole (512 * n) content covers,
      )
      refl

pub same_number : (x y : ℕ) → (x == y) ≡ true → x ≡ y
same_number x y h = ground (arith, h)

pub other_number : (x y : ℕ) → (x == y) ≡ false → x ≢ y
other_number x y h = ground (arith, h)

pub read_empty :
    (data_start : ℕ) (d : Disk)
    → read_data data_start (record { size = 0; direct = replicate 12 0; indirect = 0 }) d ≡ some []
unfolding read_data
read_empty data_start d = refl

pub not_zero : (x : ℕ) → 1 ≤ x → (x == 0) ≡ false
not_zero x h = ground arith

not_same : (x y : ℕ) → x ≢ y → (x == y) ≡ false
not_same x y h = ground (arith, h)

itself : (x : ℕ) → (x == x) ≡ true
itself x = ground arith

-- A larger file: the first 12 blocks, and those of the indirect block's table.
module _ (data_start first : ℕ) (content rest rest' : Bytes) (d d1 d2 d3 : Disk)
    (fits : length content ≤ 71680) (narrow : first + 141 < 2 ^ 32)
    (many : indirect_count (length content) ≢ 0) (w : Written data_start first 12 content rest d d1)
    (w' : Written data_start
      (first + 12 + 1)
      (min (indirect_count (length content)) 128)
      rest
      rest'
      d1
      d2)
    (fine : d2.bad (data_start + (first + 12)) ≡ false)
    (done : after_write
        (data_start + (first + 12))
        (to_bytes (entries (first + 12 + 1) (min (indirect_count (length content)) 128)))
        d2
      ≡ d3) where
  abbrev k : ℕ
  k = min (indirect_count (length content)) 128

  abbrev table : Bytes
  table = to_bytes (entries (first + 12 + 1) k)

  left_over : length rest ≡ length content - 6144
  left_over = ap length w.left ∙ length-drop 6144 content

  covers : (6144 < length content) × (length rest ≤ 512 * k)
  covers = (omega (arith, many), omega (arith, left_over, many))

  sector3 :
      (l : ℕ) → d3.sectors l ≡ (if l == data_start + (first + 12) then table else d2.sectors l)
  sector3 l = ap (λ x. Disk.sectors x l) (sym done)

  bad3 : (l : ℕ) → d3.bad l ≡ d2.bad l
  bad3 l = ap (λ x. Disk.bad x l) (sym done)

  other3 : (l : ℕ) → l ≢ data_start + (first + 12) → d3.sectors l ≡ d2.sectors l
  other3 l ne =
      let f : (l == data_start + (first + 12)) ≡ false =
        not_same l (data_start + (first + 12)) ne in
      sector3 l ∙ rw f refl

  first_read :
      read_direct data_start (run_from first 12) (length content) d3
      ≡ some (take 6144 content, length rest)
  first_read = w.reads d3 (λ l lo hi.
      (other3 l (omega arith) ∙ w'.same.other l (inl (omega arith)), bad3 l ∙ w'.same.faults l))

  table_read : read_sector (data_start + (first + 12)) d3 ≡ some table
  unfolding read_sector
  table_read =
      let is : (data_start + (first + 12) == data_start + (first + 12)) ≡ true =
        itself (data_start + (first + 12)) in
      let bad : d3.bad (data_start + (first + 12)) ≡ false =
        bad3 (data_start + (first + 12)) ∙ fine in
      let wrote : d3.sectors (data_start + (first + 12)) ≡ table =
        sector3 (data_start + (first + 12)) ∙ rw is refl in
      rw (bad, wrote) refl

  words : to_words 128 table ≡ entries (first + 12 + 1) k
  words =
      subst (λ n. to_words n table ≡ entries (first + 12 + 1) k)
        (length-entries (first + 12 + 1) k (omega arith))
        (to_words-to_bytes (entries (first + 12 + 1) k)
          (table-AllWords k (first + 12 + 1) (128 - k) (omega arith)))

  rest_read :
      read_indirect data_start (entries (first + 12 + 1) k) (length rest) d3
      ≡ some (take (512 * k) rest, length rest')
  rest_read =
      read_indirect-direct k data_start (first + 12 + 1) (length rest) (128 - k) d3 (omega arith)
        covers.1
      ∙ w'.reads d3 (λ l lo hi. (other3 l (omega arith), bad3 l))

  whole : take 6144 content ++ take (512 * k) rest ≡ content
  whole =
      ap (λ xs. take 6144 content ++ xs) (take-whole (512 * k) rest covers.1 ∙ w.left)
      ∙ take-append-drop 6144 content

  read_both :
      read_rest data_start (first + 12) (some (take 6144 content, length rest)) d3
      ≡ some (content, length rest')
  unfolding read_rest
  read_both =
      let a : (length rest == 0) ≡ false =
        not_zero (length rest) (omega (arith, left_over, covers.0)) in
      let b : (first + 12 == 0) ≡ false = not_zero (first + 12) (omega arith) in
      rw (a, b, table_read, words, rest_read, whole) refl

  pub large_file :
      read_data data_start
        (record { size = length content; direct = run_from first 12 ++ []; indirect = first + 12 })
        d3
      ≡ some content
  unfolding read_data
  large_file =
      let a : (length content == 0) ≡ false = not_zero (length content) (omega (arith, covers.0)) in
      let twelve : direct_count (length content) ≡ 12 = omega (arith, many) in
      rw (a, twelve, first_part first 12 0, first_read, read_both) refl
