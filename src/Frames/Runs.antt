-- ===== src/Frames/Runs.antt =====
-- What `set_run` and `clear_run` do to the frames one by one.
use spike_os.Prelude.{
  ℕ, zero, suc, ◌+◌, ◌≤◌, ◌≡◌, refl, Bool, arith, if◌then◌else◌, length, ◌∙◌, ◌&&◌, ltb, leb,
}
use spike_os.Frames.{Bitmap, max_frames, set_frame, clear_frame, set_run, clear_run}
use spike_os.Frames.Bitmap.{
  IsBitmap, frame_bit, frame_bit-set_frame, frame_bit-clear_frame, length-set_frame,
  length-clear_frame,
}

-- The frames of a run.
abbrev pub in_run : ℕ → ℕ → ℕ → Bool
in_run s count g = leb s g && ltb g (s + count)

-- `set_run` sets the bits of its frames and no other.
pub frame_bit-set_run :
    (count : ℕ) (bm : Bitmap) (s g : ℕ)
    → IsBitmap bm
    → s + count ≤ max_frames
    → frame_bit (set_run bm s count) g ≡ (if in_run s count g then 1 else frame_bit bm g)
unfolding set_run
frame_bit-set_run zero bm s g sized fits = ground arith
frame_bit-set_run (suc count) bm s g sized fits = ground (
  arith,
  frame_bit-set_run count (set_frame bm s) (s + 1) g (length-set_frame bm s ∙ sized) (omega arith),
  frame_bit-set_frame bm s g (omega arith),
)

pub frame_bit-clear_run :
    (count : ℕ) (bm : Bitmap) (s g : ℕ)
    → IsBitmap bm
    → s + count ≤ max_frames
    → frame_bit (clear_run bm s count) g ≡ (if in_run s count g then 0 else frame_bit bm g)
unfolding clear_run
frame_bit-clear_run zero bm s g sized fits = ground arith
frame_bit-clear_run (suc count) bm s g sized fits = ground (
  arith,
  frame_bit-clear_run count (clear_frame bm s) (s + 1) g (length-clear_frame bm s ∙ sized)
      (omega arith),
  frame_bit-clear_frame bm s g (omega arith),
)

pub length-set_run : (count : ℕ) (bm : Bitmap) (s : ℕ) → length (set_run bm s count) ≡ length bm
unfolding set_run
length-set_run zero bm s = refl
length-set_run (suc count) bm s =
    length-set_run count (set_frame bm s) (s + 1) ∙ length-set_frame bm s
