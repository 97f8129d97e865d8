-- ===== src/Frames/Bitmap.antt =====
-- What `set_frame`, `clear_frame` and `test_frame` do to the frames one by one.
use Prim.Native.Nat.{bit_and, bit_or}
use spike_os.Prelude.{
  ℕ, zero, suc, ◌-◌, ◌*◌, ◌/◌, ◌%◌, ◌^◌, ◌≤◌, ◌<◌, ◌≡◌, not, true, false, arith, ◌==◌,
  if◌then◌else◌, length, get_or, length-set, get_or-set,
}
use native.Mathlib.Nat.{one-le-pow, pow-suc, pow-le-pow_right}
use spike_os.Prelude.Bits.{
  bit, bit-lt, bit-bit_or, bit-bit_and, bit-pow, bit-complement, bit_and-pow,
}
use spike_os.Frames.{Bitmap, bitmap_words, set_frame, clear_frame, test_frame}

-- A bitmap of the right size. It covers the frames below MAX_FRAMES.
abbrev pub IsBitmap : Bitmap → Type 0
IsBitmap bm = length bm ≡ bitmap_words

pow-lt-word : (k : ℕ) → k < 32 → 2 ^ k < 2 ^ 32
pow-lt-word k h = omega (
  arith,
  pow-suc 2 k,
  one-le-pow k 2,
  pow-le-pow_right {n = 2} (omega arith) {i = suc k} {j = 32} h,
)

-- The bit of a frame: 1 where it is in use.
abbrev pub frame_bit : Bitmap → ℕ → ℕ
frame_bit bm frame = bit (get_or bm (frame / 32) 0) (frame % 32)

mul-bit : (b p : ℕ) → b < 2 → 1 ≤ p → not (b * p == 0) ≡ (b == 1)
mul-bit zero p h k = ground arith
mul-bit (suc zero) p h k = ground arith
mul-bit (suc (suc b)) p h k = absurd (omega arith)

-- `test_frame` is the frame's bit.
pub test_frame-bit : (bm : Bitmap) (f : ℕ) → test_frame bm f ≡ (frame_bit bm f == 1)
unfolding test_frame
test_frame-bit bm f =
    rw (bit_and-pow (get_or bm (f / 32) 0) (f % 32))
      (mul-bit (frame_bit bm f) (2 ^ (f % 32)) (bit-lt _ _) (one-le-pow (f % 32) 2 (omega arith)))

pub bit_of_test : (bm : Bitmap) (f : ℕ) → test_frame bm f ≡ true → frame_bit bm f ≡ 1
bit_of_test bm f h = ground (arith, test_frame-bit bm f)

pub bit_of_not_test : (bm : Bitmap) (f : ℕ) → test_frame bm f ≡ false → frame_bit bm f ≡ 0
bit_of_not_test bm f h = ground (arith, test_frame-bit bm f, bit-lt (get_or bm (f / 32) 0) (f % 32))

module _ (bm : Bitmap) (f g : ℕ) (h : f / 32 < length bm) where
  -- `set_frame` sets the frame's bit and no other.
  pub frame_bit-set_frame : frame_bit (set_frame bm f) g ≡ (if f == g then 1 else frame_bit bm g)
  unfolding set_frame
  frame_bit-set_frame = ground (
    arith,
    get_or-set bm (f / 32) (g / 32) (bit_or (get_or bm (f / 32) 0) (2 ^ (f % 32))) 0,
    bit-bit_or (get_or bm (f / 32) 0) (2 ^ (f % 32)) (g % 32),
    bit-pow (f % 32) (g % 32),
    bit-lt (get_or bm (f / 32) 0) (g % 32),
  )

  -- `clear_frame` clears the frame's bit and no other.
  pub frame_bit-clear_frame :
      frame_bit (clear_frame bm f) g ≡ (if f == g then 0 else frame_bit bm g)
  unfolding clear_frame
  frame_bit-clear_frame = ground (
    arith,
    get_or-set bm (f / 32) (g / 32) (bit_and (get_or bm (f / 32) 0) (2 ^ 32 - 1 - 2 ^ (f % 32))) 0,
    bit-bit_and (get_or bm (f / 32) 0) (2 ^ 32 - 1 - 2 ^ (f % 32)) (g % 32),
    bit-complement 32 (2 ^ (f % 32)) (g % 32) (pow-lt-word (f % 32) (omega arith)) (omega arith),
    bit-pow (f % 32) (g % 32),
    bit-lt (get_or bm (f / 32) 0) (g % 32),
  )

pub length-set_frame : (bm : Bitmap) (f : ℕ) → length (set_frame bm f) ≡ length bm
unfolding set_frame
length-set_frame bm f = length-set bm (f / 32) _

pub length-clear_frame : (bm : Bitmap) (f : ℕ) → length (clear_frame bm f) ≡ length bm
unfolding clear_frame
length-clear_frame bm f = length-set bm (f / 32) _
