-- ===== src/Spikefs.antt =====
-- The data of an inode on the disk, kernel/fs/spikefs.c: `spikefs_sync` writes it, `spikefs_load` reads it.
-- Blocks of 512 bytes are numbered from the start of the data pool. A disk is its sectors and which of
-- them fail; a sector is its bytes.
pub mod Blocks
pub mod Table
pub mod Files
pub mod RoundTrip
pub mod Bitmap
mod Tests
use Prim.Native.Nat.{min, bit_or}
use spike_os.Prelude.{
  ℕ, zero, suc, ◌+◌, ◌-◌, ◌*◌, ◌/◌, ◌%◌, ◌^◌, Bool, true, false, not, ◌&&◌, ◌||◌, Option, none,
  some, List, [], ◌∷◌, ◌++◌, ◌==◌, ltb, leb, if◌then◌else◌, length, get_or, set, take, drop,
  replicate,
}
use spike_os.Net.{Bytes, byte, le32, read32}

pub record Disk : Type 0 where
  pub sectors : ℕ → Bytes
  pub bad : ℕ → Bool

unfoldable pub read_sector : ℕ → Disk → Option Bytes
read_sector lba d = if d.bad lba then none else some (d.sectors lba)

unfoldable pub write_sector : ℕ → Bytes → Disk → Option Disk
write_sector lba bs d =
    if d.bad lba
    then none
    else some (record d { sectors = λ l. if l == lba then bs else d.sectors l })

-- SPIKEFS_DIRECT_BLOCKS, and the entries of an indirect block.
abbrev pub direct_blocks : ℕ
direct_blocks = 12

abbrev pub indirect_entries : ℕ
indirect_entries = 128

-- The fields of `spikefs_inode_t` that say where the data is.
pub record DiskInode : Type 0 where
  pub size : ℕ
  pub direct : List ℕ
  pub indirect : ℕ

-- A block with the first 512 bytes of the data, zeroes behind them.
unfoldable pub block_of : Bytes → Bytes
block_of bs = take 512 bs ++ replicate (512 - length (take 512 bs)) 0

abbrev pub write_then : Option Disk → (Disk → Option (Bytes × Disk)) → Option (Bytes × Disk)
write_then none k = none
write_then (some d) k = k d

-- The loop over the direct blocks, from a sector on: what is left of the data.
unfoldable pub write_direct : (n sector : ℕ) → Bytes → Disk → Option (Bytes × Disk)
write_direct zero sector content d = some (content, d)
write_direct (suc n) sector content d =
    if length content == 0
    then some (content, d)
    else write_then (write_sector sector (block_of content) d)
        (λ d'. write_direct n (sector + 1) (drop 512 content) d')

-- The loop over the blocks of the indirect block, which does not look at what is left.
unfoldable pub write_indirect : (n sector : ℕ) → Bytes → Disk → Option (Bytes × Disk)
write_indirect zero sector content d = some (content, d)
write_indirect (suc n) sector content d =
    write_then (write_sector sector (block_of content) d)
      (λ d'. write_indirect n (sector + 1) (drop 512 content) d')

-- Consecutive blocks.
unfoldable pub run_from : (first n : ℕ) → List ℕ
run_from first zero = []
run_from first (suc n) = first ∷ run_from (first + 1) n

-- Words as bytes, and bytes as words.
unfoldable pub to_bytes : List ℕ → Bytes
to_bytes [] = []
to_bytes (w ∷ ws) = le32 w ++ to_bytes ws

unfoldable pub to_words : (n : ℕ) → Bytes → List ℕ
to_words zero bs = []
to_words (suc n) bs = read32 0 bs ∷ to_words n (drop 4 bs)

abbrev pub blocks_needed : ℕ → ℕ
blocks_needed bytes = (bytes + 511) % 2 ^ 32 / 512

abbrev pub direct_count : ℕ → ℕ
direct_count bytes = min (blocks_needed bytes) direct_blocks

abbrev pub indirect_count : ℕ → ℕ
indirect_count bytes = blocks_needed bytes - direct_blocks

-- How many blocks `spikefs_sync` allocates for the data: those of the data, and the indirect block.
unfoldable pub total_alloc : ℕ → ℕ
total_alloc bytes = blocks_needed bytes + (if indirect_count bytes == 0 then 0 else 1)

-- The part for the indirect block: the blocks behind it, and its table.
unfoldable pub write_table : (data_start indirect n : ℕ) → Option (Bytes × Disk) → Option Disk
write_table data_start indirect n none = none
write_table data_start indirect n (some (rest, d)) =
    write_sector (data_start + indirect)
      (to_bytes (run_from (indirect + 1) n ++ replicate (indirect_entries - n) 0)) d

abbrev pub with_inode : DiskInode → Option Disk → Option (DiskInode × Disk)
with_inode i none = none
with_inode i (some d) = some (i, d)

unfoldable pub write_rest :
    (data_start first : ℕ) → (bytes : ℕ) → Option (Bytes × Disk) → Option (DiskInode × Disk)
write_rest data_start first bytes none = none
write_rest data_start first bytes (some (rest, d)) =
    let n = direct_count bytes in
    let direct = run_from first n ++ replicate (direct_blocks - n) 0 in
    let k = min (indirect_count bytes) indirect_entries in
    let blocks = write_indirect k (data_start + (first + n + 1)) rest d in
    if indirect_count bytes == 0
    then some (record { size = bytes; direct = direct; indirect = 0 }, d)
    else with_inode (record { size = bytes; direct = direct; indirect = first + n })
        (write_table data_start (first + n) k blocks)

-- The data of an inode written to the blocks from `first` on.
unfoldable pub write_data : (data_start first : ℕ) → Bytes → Disk → Option (DiskInode × Disk)
write_data data_start first content d =
    if length content == 0
    then some (record { size = 0; direct = replicate direct_blocks 0; indirect = 0 }, d)
    else write_rest data_start first (length content)
        (write_direct (direct_count (length content)) (data_start + first) content d)

-- What was read, and how many bytes remain.
abbrev pub read_then : Option Bytes → (Bytes → Option (Bytes × ℕ)) → Option (Bytes × ℕ)
read_then none k = none
read_then (some s) k = k s

abbrev pub prepend : Bytes → Option (Bytes × ℕ) → Option (Bytes × ℕ)
prepend bs none = none
prepend bs (some (rest, remaining)) = some (bs ++ rest, remaining)

-- The loop over direct blocks.
unfoldable pub read_direct : (data_start : ℕ) → List ℕ → (remaining : ℕ) → Disk → Option (Bytes × ℕ)
read_direct data_start [] remaining d = some ([], remaining)
read_direct data_start (b ∷ blocks) remaining d =
    if remaining == 0
    then some ([], remaining)
    else read_then (read_sector (data_start + b) d) (λ s.
      prepend (take (min remaining 512) s)
        (read_direct data_start blocks (remaining - min remaining 512) d))

-- The loop over an indirect block's table, which ends at an entry that is 0.
unfoldable pub read_indirect :
    (data_start : ℕ) → List ℕ → (remaining : ℕ) → Disk → Option (Bytes × ℕ)
read_indirect data_start [] remaining d = some ([], remaining)
read_indirect data_start (b ∷ blocks) remaining d =
    if remaining == 0
    then some ([], remaining)
    else if b == 0
    then some ([], remaining)
    else read_then (read_sector (data_start + b) d) (λ s.
      prepend (take (min remaining 512) s)
        (read_indirect data_start blocks (remaining - min remaining 512) d))

abbrev pub only_bytes : Option (Bytes × ℕ) → Option Bytes
only_bytes none = none
only_bytes (some (bs, remaining)) = some bs

-- The part for an indirect block, if bytes remain.
unfoldable pub read_rest :
    (data_start indirect : ℕ) → Option (Bytes × ℕ) → Disk → Option (Bytes × ℕ)
read_rest data_start indirect none d = none
read_rest data_start indirect (some (bs, remaining)) d =
    if (remaining == 0) || (indirect == 0)
    then some (bs, remaining)
    else read_then (read_sector (data_start + indirect) d)
        (λ t. prepend bs (read_indirect data_start (to_words indirect_entries t) remaining d))

-- The data of an inode read back, in the memory that `kmalloc` gives: what was not read is left out.
unfoldable pub read_data : (data_start : ℕ) → DiskInode → Disk → Option Bytes
read_data data_start i d =
    if i.size == 0
    then some []
    else only_bytes (
        read_rest data_start i.indirect
          (read_direct data_start (take (direct_count i.size) i.direct) i.size d) d)
