-- ===== src/Frames/Tests.antt =====
-- The frame allocator at concrete bitmaps: runs, and the theorems at inputs that meet their hypotheses.
use spike_os.Prelude.{◌≡◌, refl, some, arith}
use spike_os.Frames.{
  Bitmap, frame_init, set_frame, set_run, alloc_from, alloc_frame, scan, alloc_frames_contiguous,
  reserve_region, test_frame,
}
use spike_os.Frames.Contiguous.{Scanned, alloc_frames_contiguous_lem}

abbrev fresh : Bitmap
unfolding frame_init
fresh = frame_init

-- Frames 0 and 1 are in use.
abbrev two_used : Bitmap
unfolding frame_init set_frame
two_used = set_frame (set_frame frame_init 0) 1

alloc_frame_first : alloc_frame fresh ≡ (some 0, set_frame fresh 0)
unfolding alloc_frame alloc_from test_frame frame_init set_frame
alloc_frame_first = refl

alloc_frame_third : alloc_frame two_used ≡ (some 8192, set_frame two_used 2)
unfolding alloc_frame alloc_from test_frame frame_init set_frame
alloc_frame_third = refl

alloc_frame_fourth :
    alloc_frame (set_frame two_used 2) ≡ (some 12288, set_frame (set_frame two_used 2) 3)
unfolding alloc_frame alloc_from test_frame frame_init set_frame
alloc_frame_fourth = refl

-- Three frames at a multiple of four, behind the two that are in use.
contiguous_third : alloc_frames_contiguous two_used 3 4 ≡ (some 16384, set_run two_used 4 3)
unfolding alloc_frames_contiguous scan test_frame frame_init set_frame
contiguous_third = refl

reserve_two : reserve_region fresh 0 8192 ≡ two_used
unfolding reserve_region frame_init set_frame
reserve_two = refl

alloc_frames_contiguous_lem_example : Scanned two_used 3 4 0 (alloc_frames_contiguous two_used 3 4)
alloc_frames_contiguous_lem_example =
    alloc_frames_contiguous_lem two_used 3 4 (omega arith) (omega arith) (omega arith)
