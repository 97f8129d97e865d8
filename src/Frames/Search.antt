-- ===== src/Frames/Search.antt =====
-- What `free_run` and `align_start` compute.
use spike_os.Prelude.{
  ℕ, zero, suc, ◌+◌, ◌-◌, ◌%◌, ◌^◌, ◌≤◌, ◌<◌, ◌≡◌, ◌≢◌, inl, inr, true, false, arith, ◌==◌,
  Bool-cases, ℕ_discrete,
}
use spike_os.Frames.{Bitmap, test_frame, align_start, free_run}
use spike_os.Frames.Bitmap.{frame_bit, bit_of_test, bit_of_not_test}

abbrev pub AllFree : Bitmap → ℕ → ℕ → Type 0
AllFree bm s n = (k : ℕ) → k < n → frame_bit bm (s + k) ≡ 0

-- What `free_run` counts.
pub record Run (bm : Bitmap) (s count run : ℕ) : Type 0 where
  pub bound : run ≤ count
  pub free : AllFree bm s run
  pub stopped : run < count → frame_bit bm (s + run) ≡ 1

pub AllFree-suc :
    (bm : Bitmap) (s n : ℕ) → frame_bit bm s ≡ 0 → AllFree bm (s + 1) n → AllFree bm s (suc n)
AllFree-suc bm s n e h zero lt = let z : s + 0 ≡ s = omega arith in rw z e
AllFree-suc bm s n e h (suc k) lt =
    let z : s + suc k ≡ s + 1 + k = omega arith in rw z (h k (omega arith))

pub free_run-Run : (bm : Bitmap) (s count : ℕ) → Run bm s count (free_run bm s count)
unfolding free_run
free_run-Run bm s zero = record {
  bound = omega arith;
  free = λ k lt. absurd (omega arith);
  stopped = λ lt. absurd (omega arith);
}
free_run-Run bm s (suc count) = elim (Bool-cases (test_frame bm s)) [
  | inl busy ↦ rw busy (record {
    bound = omega arith;
    free = λ k lt. absurd (omega arith);
    stopped = λ lt. let z : s + 0 ≡ s = omega arith in rw z (bit_of_test bm s busy);
  })
  | inr idle ↦ rw idle (
      let r = free_run-Run bm (s + 1) count in
      record {
        bound = omega (arith, r.bound);
        free = AllFree-suc bm s _ (bit_of_not_test bm s idle) r.free;
        stopped = λ lt.
            let z : s + suc (free_run bm (s + 1) count) ≡ s + 1 + free_run bm (s + 1) count =
              omega arith in
            rw z (r.stopped (omega arith));
      })
]

-- Where `align_start` puts the search, if no sum wraps.
pub record Aligned (align start at : ℕ) : Type 0 where
  pub multiple : at % align ≡ 0
  pub from : start ≤ at
  pub near : at < start + align
  pub least : (s : ℕ) → start ≤ s → s % align ≡ 0 → at ≤ s

-- Rounding up to the next multiple.
pub round_up-mod : (align start : ℕ) → 0 < align → (start + (align - start % align)) % align ≡ 0
round_up-mod align start pos = grind arith

pub round_up-least :
    (align start s : ℕ)
    → 0 < align
    → start ≤ s
    → s % align ≡ 0
    → start % align ≢ 0
    → start + (align - start % align) ≤ s
round_up-least align start s pos lo m ne = grind arith

pub align_start-Aligned :
    (align start : ℕ)
    → 0 < align
    → align + start < 2 ^ 32
    → Aligned align start (align_start align start)
unfolding align_start
align_start-Aligned align start pos fits = elim (ℕ_discrete (start % align) 0) [
  | yes e ↦
      let t : (start % align == 0) ≡ true = ground arith in
      rw t (record { multiple = e; from = omega arith; near = omega arith; least = λ s lo m. lo })
  | no ne ↦
      let t : (start % align == 0) ≡ false = ground arith in
      let small : (start + (align - start % align)) % 2 ^ 32 ≡ start + (align - start % align) =
        omega arith in
      rw (t, small)
        (record {
          multiple = round_up-mod align start pos;
          from = omega arith;
          near = omega arith;
          least = λ s lo m. round_up-least align start s pos lo m ne;
        })
]
