-- ===== src/Frames.antt =====
-- The physical frame allocator of kernel/mm/paging.c: a bitmap of 16384 frames in 32-bit words.
-- A function that writes `frame_bitmap` returns the new bitmap. A word is a number; an index outside
-- the array, which the code never makes for a frame below MAX_FRAMES, reads 0 and writes nothing.
pub mod Bitmap
pub mod Single
pub mod Contiguous
pub mod Runs
pub mod Search
mod Tests
use Prim.Native.Nat.{bit_and, bit_or}
use spike_os.Prelude.{
  ℕ, zero, suc, ◌+◌, ◌-◌, ◌*◌, ◌/◌, ◌%◌, ◌^◌, Bool, true, false, not, Option, none, some, List,
  ◌==◌, ltb, leb, if◌then◌else◌, get_or, set, replicate,
}

abbrev pub Bitmap : Type 0
Bitmap = List ℕ

-- MAX_FRAMES, and the words of `frame_bitmap`.
abbrev pub max_frames : ℕ
max_frames = 16384

abbrev pub bitmap_words : ℕ
bitmap_words = 512

abbrev pub frame_size : ℕ
frame_size = 4096

pub frame_init : Bitmap
frame_init = replicate bitmap_words 0

-- `frame_bitmap[frame / 32] |= 1 << (frame % 32)`.
pub set_frame : Bitmap → ℕ → Bitmap
set_frame bm frame = set bm (frame / 32) (bit_or (get_or bm (frame / 32) 0) (2 ^ (frame % 32)))

-- `frame_bitmap[frame / 32] &= ~(1 << (frame % 32))`, the complement in 32 bits.
pub clear_frame : Bitmap → ℕ → Bitmap
clear_frame bm frame =
    set bm (frame / 32) (bit_and (get_or bm (frame / 32) 0) (2 ^ 32 - 1 - 2 ^ (frame % 32)))

-- The C truth value of `frame_bitmap[frame / 32] & (1 << (frame % 32))`.
pub test_frame : Bitmap → ℕ → Bool
test_frame bm frame = not (bit_and (get_or bm (frame / 32) 0) (2 ^ (frame % 32)) == 0)

-- The loop of `reserve_region`: `rounds` steps of PAGE_SIZE from `addr`.
reserve_from : ℕ → Bitmap → ℕ → Bitmap
reserve_from zero bm addr = bm
reserve_from (suc rounds) bm addr = reserve_from rounds (set_frame bm (addr / 4096)) (addr + 4096)

-- `for (addr = start; addr < end; addr += PAGE_SIZE)`, whose rounds are counted beforehand. The sum
-- `addr + PAGE_SIZE` does not wrap for the regions that the kernel reserves, below 2^32 - 4096.
pub reserve_region : Bitmap → ℕ → ℕ → Bitmap
unfolding reserve_from
reserve_region bm start end = reserve_from ((end - start + 4095) / 4096) bm start

-- The loop of `alloc_frame` from frame `i`, with `rounds` frames left to look at.
alloc_from : ℕ → Bitmap → ℕ → Option ℕ × Bitmap
alloc_from zero bm i = (none, bm)
alloc_from (suc rounds) bm i =
    let rest = alloc_from rounds bm (i + 1) in
    if test_frame bm i then rest else (some (i * frame_size), set_frame bm i)

-- `none` is FRAME_ALLOC_FAIL.
pub alloc_frame : Bitmap → Option ℕ × Bitmap
alloc_frame bm = alloc_from max_frames bm 0

unfoldable pub free_frame : Bitmap → ℕ → Bitmap
free_frame bm phys = clear_frame bm (phys / frame_size)

-- The inner loop: how many of the frames from `frame` on are free, at most `count`.
pub free_run : Bitmap → ℕ → ℕ → ℕ
free_run bm frame zero = 0
free_run bm frame (suc count) =
    let rest = free_run bm (frame + 1) count in if test_frame bm frame then 0 else suc rest

-- `for (i = 0; i < count; i++) set_frame(start + i)`, and so for `clear_frame`.
pub set_run : Bitmap → ℕ → ℕ → Bitmap
set_run bm frame zero = bm
set_run bm frame (suc count) = set_run (set_frame bm frame) (frame + 1) count

pub clear_run : Bitmap → ℕ → ℕ → Bitmap
clear_run bm frame zero = bm
clear_run bm frame (suc count) = clear_run (clear_frame bm frame) (frame + 1) count

-- `rem = start % align; if (rem != 0) start += align - rem`, in 32 bits.
pub align_start : ℕ → ℕ → ℕ
align_start align start =
    if start % align == 0 then start else (start + (align - start % align)) % 2 ^ 32

-- The outer loop on fuel. Its test `start <= MAX_FRAMES - count` is a 32-bit unsigned comparison.
scan : ℕ → Bitmap → (count align start : ℕ) → Option ℕ × Bitmap
unfolding align_start free_run set_run
scan zero bm count align start = (none, bm)
scan (suc fuel) bm count align start =
    let at = align_start align start in
    let run = free_run bm at count in
    let rest = scan fuel bm count align (at + run + 1) in
    if leb start ((max_frames + 2 ^ 32 - count) % 2 ^ 32)
    then if ltb max_frames ((at + count) % 2 ^ 32)
      then (none, bm)
      else if run == count
      then (some (at * frame_size), set_run bm at count)
      else rest
    else (none, bm)

-- `start` grows in each round, so MAX_FRAMES + 2 rounds are enough (`Contiguous`).
pub alloc_frames_contiguous : Bitmap → (count align_frames : ℕ) → Option ℕ × Bitmap
alloc_frames_contiguous bm count align_frames =
    let align = if align_frames == 0 then 1 else align_frames in
    if count == 0 then (none, bm) else scan (max_frames + 2) bm count align 0

pub free_frames_contiguous : Bitmap → (phys count : ℕ) → Bitmap
unfolding clear_run
free_frames_contiguous bm phys count = clear_run bm (phys / frame_size) count
