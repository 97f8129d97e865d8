-- ===== src/Spikefs/Bitmap.antt =====
-- The block bitmap of kernel/fs/spikefs.c, a byte for 8 blocks, and the search for a run of free blocks.
use Prim.Native.Nat.{bit_or}
use spike_os.Prelude.{
  ◌⊎◌, ℕ, zero, suc, ◌+◌, ◌-◌, ◌*◌, ◌/◌, ◌%◌, ◌^◌, ◌≤◌, ◌<◌, ◌≡◌, refl, Bool, true, false, ◌&&◌,
  Option, none, some, ◌==◌, ltb, leb, if◌then◌else◌, length, set, replicate, arith, ◌∙◌, sym, inl,
  inr, Bool-cases, Option-cases, get_or-set, length-set,
}
use mathlib.Core.Path.{subst}
use mathlib.Core.Option.{some-injective, none-ne-some}
use spike_os.Prelude.Bits.{bit, bit-lt, bit-bit_or, bit-pow}
use spike_os.Net.{Bytes, byte}

-- `bitmap_init` of a number of sectors, with the memory it gets, and `bitmap_clear_all`.
unfoldable pub bitmap_clear_all : Bytes → Bytes
bitmap_clear_all bm = replicate (length bm) 0

unfoldable pub bitmap_set : ℕ → Bytes → Bytes
bitmap_set blk bm =
    if ltb (blk / 8) (length bm)
    then set bm (blk / 8) (bit_or (byte (blk / 8) bm) (2 ^ (blk % 8)))
    else bm

-- A block out of range is in use. `bit w k` is `(w >> k) & 1`.
unfoldable pub bitmap_test : ℕ → Bytes → Bool
bitmap_test blk bm =
    if leb (length bm) (blk / 8) then true else bit (byte (blk / 8) bm) (blk % 8) == 1

-- The scan of `bitmap_alloc` from block `i` on, `run` free blocks from `start` behind it.
unfoldable pub find_run : (rounds i run start count : ℕ) → Bytes → Option ℕ
find_run zero i run start count bm = none
find_run (suc rounds) i run start count bm =
    let start' = if run == 0 then i else start in
    let longer = find_run rounds (i + 1) (run + 1) start' count bm in
    let anew = find_run rounds (i + 1) 0 start count bm in
    if bitmap_test i bm then anew else if run + 1 == count then some start' else longer

unfoldable pub set_blocks : (start count : ℕ) → Bytes → Bytes
set_blocks start zero bm = bm
set_blocks start (suc count) bm = set_blocks (start + 1) count (bitmap_set start bm)

unfoldable pub bitmap_alloc : (num_blocks count : ℕ) → Bytes → Option ℕ × Bytes
bitmap_alloc num_blocks count bm = elim (find_run num_blocks 0 0 0 count bm) [
  | none ↦ (none, bm)
  | some start ↦ (some start, set_blocks start count bm)
]

-- `calculate_layout`: where the bitmap and the data pool of a disk lie.
pub record DiskLayout : Type 0 where
  pub num_blocks : ℕ
  pub bitmap_start : ℕ
  pub data_start : ℕ
  pub bitmap_sectors : ℕ

unfoldable pub calculate_layout : (total_sectors : ℕ) → DiskLayout
calculate_layout total_sectors =
    let sectors = (total_sectors - 1 + 4095) / 4096 in
    record {
      num_blocks = total_sectors - (1 + sectors);
      bitmap_start = 1;
      data_start = 1 + sectors;
      bitmap_sectors = sectors;
    }

-- The bitmap of a layout has a bit for each block, and the pool ends with the disk.
pub calculate_layout_covers :
    (total : ℕ)
    → 64 ≤ total
    → let l = calculate_layout total in
      (l.num_blocks ≤ l.bitmap_sectors * 512 * 8)
      × (l.bitmap_start + l.bitmap_sectors ≡ l.data_start)
      × (l.data_start + l.num_blocks ≡ total)
unfolding calculate_layout
calculate_layout_covers total h = (omega arith, omega arith, omega arith)

abbrev pub Free : ℕ → Bytes → Type 0
Free blk bm = bitmap_test blk bm ≡ false

-- Blocks from `start` to `i` are a run of free ones, shorter than what is wanted.
record Running (i run start count : ℕ) (bm : Bytes) : Type 0 where
  shorter : run < count
  reaches : 1 ≤ run → start + run ≡ i
  free : (j : ℕ) → 1 ≤ run → start ≤ j → j < i → Free j bm

run_start :
    (i run start count : ℕ) (bm : Bytes)
    → Running i run start count bm
    → ((if run == 0 then i else start) ≤ i) × ((if run == 0 then i else start) + run ≡ i)
run_start i run start count bm r = elim (Bool-cases (run == 0)) [
  | inl nothing ↦ rw nothing (omega arith, ground (arith, nothing))
  | inr more ↦ let e = r.reaches (ground (arith, more)) in rw more (omega (arith, e), e)
]

-- The run with the free block `i` behind it.
run_free :
    (i run start count : ℕ) (bm : Bytes)
    → Running i run start count bm
    → Free i bm
    → (j : ℕ) → (if run == 0 then i else start) ≤ j
    → j < i + 1
    → Free j bm
run_free i run start count bm r idle j lo hi = elim (Bool-cases (j == i)) [
  | inl last ↦ let e : i ≡ j = ground (arith, last) in subst (λ k. Free k bm) e idle
  | inr inner ↦ elim (Bool-cases (run == 0)) [
    | inl nothing ↦ absurd (ground (arith, nothing, inner, lo))
    | inr more ↦ r.free j (ground (arith, more)) (ground (arith, more, lo)) (ground (arith, inner))
  ]
]

find_run-Free :
    (rounds i run start count s : ℕ) (bm : Bytes)
    → Running i run start count bm
    → find_run rounds i run start count bm ≡ some s
    → (s + count ≤ i + rounds) × ((j : ℕ) → s ≤ j → j < s + count → Free j bm)
unfolding find_run
find_run-Free zero i run start count s bm r e = absurd (none-ne-some _ e)
find_run-Free (suc rounds) i run start count s bm r e = elim (Bool-cases (bitmap_test i bm)) [
  | inl busy ↦
      let again : find_run rounds (i + 1) 0 start count bm ≡ some s = sym (rw busy refl) ∙ e in
      let (a, b) =
        find_run-Free rounds (i + 1) 0 start count s bm
          (record {
            shorter = omega (arith, r.shorter);
            reaches = λ h. absurd (omega arith);
            free = λ j h. absurd (omega arith);
          })
          again in
      (omega (arith, a), b)
  | inr idle ↦ elim (Bool-cases (run + 1 == count)) [
    | inl full ↦
        let found : (if run == 0 then i else start) ≡ s =
          some-injective _ _ (sym (rw (idle, full) refl) ∙ e) in
        let (first, ends) = run_start i run start count bm r in
        (
          ground (arith, found, ends, full),
          λ j lo hi.
              run_free i run start count bm r idle j (rw found lo)
                (ground (arith, found, ends, full, hi)),
        )
    | inr part ↦
        let longer : find_run rounds (i + 1) (run + 1) (if run == 0 then i else start) count bm
            ≡ some s =
          sym (rw (idle, part) refl) ∙ e in
        let (first, ends) = run_start i run start count bm r in
        let (a, b) =
          find_run-Free rounds (i + 1) (run + 1) (if run == 0 then i else start) count s bm
            (record {
              shorter = ground (arith, part, r.shorter);
              reaches = λ h. omega (arith, ends);
              free = λ j h lo hi. run_free i run start count bm r idle j lo (omega arith);
            })
            longer in
        (omega (arith, a), b)
  ]
]

-- What `bitmap_set` does to the blocks one by one.
bitmap_test-set :
    (bm : Bytes) (f g : ℕ)
    → f / 8 < length bm
    → bitmap_test g (bitmap_set f bm) ≡ (if f == g then true else bitmap_test g bm)
unfolding bitmap_test bitmap_set
bitmap_test-set bm f g h = ground (
  arith,
  get_or-set bm (f / 8) (g / 8) (bit_or (byte (f / 8) bm) (2 ^ (f % 8))) 0,
  bit-bit_or (byte (f / 8) bm) (2 ^ (f % 8)) (g % 8),
  bit-pow (f % 8) (g % 8),
  bit-lt (byte (g / 8) bm) (g % 8),
  length-set bm (f / 8) (bit_or (byte (f / 8) bm) (2 ^ (f % 8))),
)

length-bitmap_set : (bm : Bytes) (f : ℕ) → length (bitmap_set f bm) ≡ length bm
unfolding bitmap_set
length-bitmap_set bm f =
    ground (arith, length-set bm (f / 8) (bit_or (byte (f / 8) bm) (2 ^ (f % 8))))

set_blocks_lem :
    (count start : ℕ) (bm : Bytes) (j : ℕ)
    → start + count ≤ 8 * length bm
    → bitmap_test j (set_blocks start count bm)
      ≡ (if leb start j && ltb j (start + count) then true else bitmap_test j bm)
unfolding set_blocks
set_blocks_lem zero start bm j room = ground arith
set_blocks_lem (suc count) start bm j room =
    let rest =
      set_blocks_lem count (start + 1) (bitmap_set start bm) j
        (omega (arith, length-bitmap_set bm start)) in
    let here = bitmap_test-set bm start j (omega arith) in ground (arith, rest, here)

-- `bitmap_alloc` of at least one block, with a bit for each block of the pool: the blocks it returns lie in
-- the pool and were free, now they are in use, and every other block is as before; where it returns none it
-- changes nothing.
pub bitmap_alloc-Allocated :
    (num_blocks count : ℕ) (bm : Bytes)
    → 1 ≤ count
    → num_blocks ≤ 8 * length bm
    → ((bitmap_alloc num_blocks count bm) ≡ (none, bm))
      ⊎ ((start : ℕ) × ((bitmap_alloc num_blocks count bm).0 ≡ some start)
          × (start + count ≤ num_blocks)
          × ((j : ℕ) → start ≤ j → j < start + count → Free j bm)
          × ((j : ℕ)
              → bitmap_test j (bitmap_alloc num_blocks count bm).1
                ≡ (if leb start j && ltb j (start + count) then true else bitmap_test j bm)))
unfolding bitmap_alloc
bitmap_alloc-Allocated num_blocks count bm some_block room =
    elim (Option-cases (find_run num_blocks 0 0 0 count bm)) [
      | inl nowhere ↦ rw (nowhere, bitmap_alloc) (inl refl)
      | inr (start, found) ↦
          let (below, idle) =
            find_run-Free num_blocks 0 0 0 count start bm
              (record {
                shorter = omega arith;
                reaches = λ h. omega arith;
                free = λ j h. absurd (omega arith);
              })
              found in
          rw (found, bitmap_alloc)
            (inr (
              start,
              refl,
              omega (arith, below),
              idle,
              λ j. set_blocks_lem count start bm j (omega (arith, below)),
            ))
    ]
