-- ===== src/Frames/Contiguous.antt =====
-- `alloc_frames_contiguous` and `free_frames_contiguous`: first fit of an aligned run of free frames.
use spike_os.Prelude.{
  ℕ, zero, suc, ◌+◌, ◌-◌, ◌*◌, ◌/◌, ◌%◌, ◌^◌, ◌≤◌, ◌<◌, ◌≡◌, refl, inl, inr, true, false, Option,
  none, some, arith, ◌==◌, if◌then◌else◌, sym, ◌∙◌, Bool-cases, ltb, leb, dec_lt, ℕ_discrete,
}
use spike_os.Frames.{
  Bitmap, max_frames, frame_size, align_start, free_run, set_run, clear_run, scan,
  alloc_frames_contiguous, free_frames_contiguous,
}
use spike_os.Frames.Bitmap.{IsBitmap, frame_bit}
use spike_os.Frames.Search.{AllFree, Run, free_run-Run, Aligned, align_start-Aligned}
use spike_os.Frames.Runs.{in_run, frame_bit-set_run, frame_bit-clear_run, length-set_run}

-- A run of `count` free frames at an aligned start, within the bitmap.
pub record IsRun (bm : Bitmap) (count align s : ℕ) : Type 0 where
  pub aligned : s % align ≡ 0
  pub fits : s + count ≤ max_frames
  pub free : AllFree bm s count

-- There is no such run that starts in [lo, hi).
abbrev pub NoRun : Bitmap → (count align lo hi : ℕ) → Type 0
NoRun bm count align lo hi = (s : ℕ) → lo ≤ s → s < hi → ¬ IsRun bm count align s

-- What a search from `lo` returns: the first run, taken, or no run.
pub data Scanned (bm : Bitmap) (count align lo : ℕ) (r : Option ℕ × Bitmap) : Type 0 where
  found :
      (s : ℕ)
      → lo ≤ s
      → IsRun bm count align s
      → NoRun bm count align lo s
      → r ≡ (some (s * frame_size), set_run bm s count)
      → Scanned bm count align lo r
  none_found :
      NoRun bm count align lo (max_frames + 1) → r ≡ (none, bm) → Scanned bm count align lo r

-- The frame that stopped a run is in every run that starts at or before it.
NoRun_of_stopped :
    (bm : Bitmap) (count align start at run : ℕ)
    → Aligned align start at
    → Run bm at count run
    → run < count
    → NoRun bm count align start (at + run + 1)
NoRun_of_stopped bm count align start at run a r lt s lo hi is =
    let after : at ≤ s = a.least s lo is.aligned in
    let z : s + (at + run - s) ≡ at + run = omega arith in
    let zero_bit : frame_bit bm (at + run) ≡ 0 = rw (← z) (is.free (at + run - s) (omega arith)) in
    absurd (omega (arith, r.stopped lt))

NoRun-append :
    {bm : Bitmap} {count align lo mid hi : ℕ}
    → NoRun bm count align lo mid
    → NoRun bm count align mid hi
    → NoRun bm count align lo hi
NoRun-append {mid} f g s lo hi = elim (dec_lt s mid) [
  | yes lt ↦ f s lo lt
  | no ge ↦ g s (omega arith) hi
]

Scanned-skip :
    {bm : Bitmap} {count align lo mid : ℕ} {r : Option ℕ × Bitmap}
    → lo ≤ mid
    → NoRun bm count align lo mid
    → Scanned bm count align mid r
    → Scanned bm count align lo r
Scanned-skip le skip (found s lo is before e) =
    found s (omega arith) is (NoRun-append skip before) e
Scanned-skip le skip (none_found rest e) = none_found (NoRun-append skip rest) e

module _ (bm : Bitmap) (count align : ℕ) (cpos : 0 < count) (csmall : count < 2 ^ 30)
    (apos : 0 < align) (asmall : align < 2 ^ 30) where
  -- Too few frames are left behind `start`.
  none_left :
      {at start : ℕ}
      → Aligned align start at
      → max_frames < at + count
      → NoRun bm count align start (max_frames + 1)
  none_left a over s lo hi is = absurd (omega (arith, a.least s lo is.aligned, is.fits))

  scan-Scanned :
      (fuel start : ℕ)
      → max_frames + 2 ≤ fuel + start
      → start ≤ max_frames + 1
      → Scanned bm count align start (scan fuel bm count align start)
  unfolding scan
  scan-Scanned zero start f h = absurd (omega arith)
  scan-Scanned (suc fuel) start f h =
      let at = align_start align start in
      let a : Aligned align start at = align_start-Aligned align start apos (omega arith) in
      let run = free_run bm at count in
      let r : Run bm at count run = free_run-Run bm at count in
      let sum : (at + count) % 2 ^ 32 ≡ at + count = omega (arith, a.near) in
      elim (Bool-cases (leb start ((max_frames + 2 ^ 32 - count) % 2 ^ 32))) [
        | inr past ↦ rw past (
            none_found
              (λ s lo hi is.
                let z : max_frames < start + count = ground arith in
                absurd (omega (arith, is.fits)))
              refl)
        | inl inside ↦
            rw (inside, sum)
              (elim (dec_lt max_frames (at + count)) [
                | yes over ↦
                    let t : ltb max_frames (at + count) ≡ true = ground arith in
                    rw t (none_found (none_left a over) refl)
                | no fits ↦
                    let t : ltb max_frames (at + count) ≡ false = ground arith in
                    rw t (elim (ℕ_discrete run count) [
                      | yes e ↦
                          let u : (run == count) ≡ true = ground arith in
                          rw u (
                            found at a.from
                              (record {
                                aligned = a.multiple;
                                fits = omega arith;
                                free = λ k lt. r.free k (omega arith);
                              })
                              (λ s lo hi is. absurd (omega (arith, a.least s lo is.aligned))) refl)
                      | no ne ↦
                          let u : (run == count) ≡ false = ground arith in
                          rw u (
                            Scanned-skip (omega (arith, a.from))
                              (NoRun_of_stopped bm count align start at run a r
                                (omega (arith, r.bound)))
                              (scan-Scanned fuel (at + run + 1) (omega (arith, a.from))
                                (omega (arith, r.bound))))
                    ])
              ])
      ]

-- `align_frames == 0` means no alignment.
abbrev pub real_align : ℕ → ℕ
real_align align = if align == 0 then 1 else align

-- `alloc_frames_contiguous` takes the first aligned run of `count` free frames, and fails only if
-- there is none, for counts and alignments below 2^30.
pub alloc_frames_contiguous_lem :
    (bm : Bitmap) (count align : ℕ)
    → 0 < count
    → count < 2 ^ 30
    → align < 2 ^ 30
    → Scanned bm count (real_align align) 0 (alloc_frames_contiguous bm count align)
unfolding alloc_frames_contiguous
alloc_frames_contiguous_lem bm count align pos small asmall =
    let nonzero : (count == 0) ≡ false = ground arith in
    rw nonzero (
      scan-Scanned bm count (real_align align) pos small (ground arith) (ground arith)
        (max_frames + 2) 0 (omega arith) (omega arith))

-- `free_frames_contiguous` gives back what `alloc_frames_contiguous` took: every frame is as before.
pub free-alloc_contiguous :
    (bm : Bitmap) (count align : ℕ) {p : ℕ} {bm' : Bitmap}
    → IsBitmap bm
    → 0 < count
    → count < 2 ^ 30
    → align < 2 ^ 30
    → alloc_frames_contiguous bm count align ≡ (some p, bm')
    → (g : ℕ) → frame_bit (free_frames_contiguous bm' p count) g ≡ frame_bit bm g
unfolding free_frames_contiguous
free-alloc_contiguous bm count align {p} {bm'} sized pos small asmall got g =
    go (alloc_frames_contiguous_lem bm count align pos small asmall)
  where
    given :
        (s : ℕ)
        → IsRun bm count (real_align align) s
        → frame_bit (clear_run (set_run bm s count) s count) g ≡ frame_bit bm g
    given s is =
        frame_bit-clear_run count (set_run bm s count) s g (length-set_run count bm s ∙ sized)
          is.fits
        ∙ elim (Bool-cases (in_run s count g)) [
          | inl inside ↦
              let z : s + (g - s) ≡ g = ground arith in
              rw inside (sym (is.free (g - s) (ground arith)) ∙ rw z)
          | inr outside ↦ rw outside (frame_bit-set_run count bm s g sized is.fits ∙ rw outside)
        ]

    go :
        Scanned bm count (real_align align) 0 (alloc_frames_contiguous bm count align)
        → frame_bit (clear_run bm' (p / frame_size) count) g ≡ frame_bit bm g
    go (found s lo is before e) =
        let same : ◌≡◌ {A = Option ℕ × Bitmap} (some p, bm')
            (some (s * frame_size), set_run bm s count) =
          sym got ∙ e in
        let at : p / frame_size ≡ s = ground arith in
        let state : bm' ≡ set_run bm s count = ground arith in rw (at, state) (given s is)
    go (none_found none_at e) =
        let same : ◌≡◌ {A = Option ℕ × Bitmap} (some p, bm') (none, bm) = sym got ∙ e in
        absurd (ground arith)
