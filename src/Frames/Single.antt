-- ===== src/Frames/Single.antt =====
-- `alloc_frame` and `free_frame`: which frame is taken, and what a free gives back.
use spike_os.Prelude.{
  ℕ, zero, suc, ◌+◌, ◌*◌, ◌/◌, ◌≤◌, ◌<◌, ◌≡◌, ◌≢◌, refl, inl, inr, Option, none, some, arith, ◌==◌,
  sym, ◌∙◌, Bool-cases,
}
use spike_os.Frames.{
  Bitmap, max_frames, frame_size, set_frame, clear_frame, test_frame, alloc_from, alloc_frame,
  free_frame,
}
use spike_os.Frames.Bitmap.{
  IsBitmap, frame_bit, bit_of_test, bit_of_not_test, frame_bit-set_frame, frame_bit-clear_frame,
  length-set_frame,
}

-- All frames from `i` up to `n` are in use.
abbrev pub AllUsed : Bitmap → ℕ → ℕ → Type 0
AllUsed bm i n = (g : ℕ) → i ≤ g → g < n → frame_bit bm g ≡ 1

-- `f` is the first free frame from `i` on.
pub record FirstFree (bm : Bitmap) (i f : ℕ) : Type 0 where
  pub from : i ≤ f
  pub below : f < max_frames
  pub free : frame_bit bm f ≡ 0
  pub used : AllUsed bm i f

-- What a search from frame `i` returns: the first free frame, taken, or no frame.
pub data Searched (bm : Bitmap) (i : ℕ) (r : Option ℕ × Bitmap) : Type 0 where
  taken : (f : ℕ) → FirstFree bm i f → r ≡ (some (f * frame_size), set_frame bm f) → Searched bm i r
  full : AllUsed bm i max_frames → r ≡ (none, bm) → Searched bm i r

AllUsed-step : (bm : Bitmap) (i n : ℕ) → frame_bit bm i ≡ 1 → AllUsed bm (i + 1) n → AllUsed bm i n
AllUsed-step bm i n e used g lo hi = elim (Bool-cases (i == g)) [
  | inl same ↦ let e' : i ≡ g = ground arith in rw (← e') e
  | inr other ↦ used g (ground arith) hi
]

Searched-step :
    {bm : Bitmap} {i : ℕ} {r : Option ℕ × Bitmap}
    → frame_bit bm i ≡ 1
    → Searched bm (i + 1) r
    → Searched bm i r
Searched-step {bm} {i} u (taken f first e) =
    taken f
      (record {
        from = omega (arith, first.from);
        below = first.below;
        free = first.free;
        used = AllUsed-step bm i f u first.used;
      })
      e
Searched-step {bm} {i} u (full used e) = full (AllUsed-step bm i max_frames u used) e

alloc_from_lem :
    (rounds : ℕ) (bm : Bitmap) (i : ℕ)
    → i + rounds ≡ max_frames
    → Searched bm i (alloc_from rounds bm i)
unfolding alloc_from
alloc_from_lem zero bm i e = full (λ g lo hi. absurd (omega arith)) refl
alloc_from_lem (suc rounds) bm i e = elim (Bool-cases (test_frame bm i)) [
  | inl busy ↦
      rw busy
        (Searched-step (bit_of_test bm i busy) (alloc_from_lem rounds bm (i + 1) (omega arith)))
  | inr idle ↦ rw idle (
      taken i
        (record {
          from = omega arith;
          below = omega arith;
          free = bit_of_not_test bm i idle;
          used = λ g lo hi. absurd (omega arith);
        })
        refl)
]

-- `alloc_frame` takes the lowest free frame and returns its address, or fails and changes nothing
-- when all MAX_FRAMES frames are in use.
pub alloc_frame_lem : (bm : Bitmap) → Searched bm 0 (alloc_frame bm)
unfolding alloc_frame
alloc_frame_lem bm = alloc_from_lem max_frames bm 0 refl

-- The frame that a successful `alloc_frame` took.
alloc_frame-taken :
    (bm : Bitmap) {bm' : Bitmap} {p : ℕ}
    → alloc_frame bm ≡ (some p, bm')
    → (f : ℕ) × FirstFree bm 0 f × (p ≡ f * frame_size) × (bm' ≡ set_frame bm f)
alloc_frame-taken bm {bm'} {p} got = go (alloc_frame_lem bm)
  where
    go :
        Searched bm 0 (alloc_frame bm)
        → (f : ℕ) × FirstFree bm 0 f × (p ≡ f * frame_size) × (bm' ≡ set_frame bm f)
    go (taken f first e) =
        let same : ◌≡◌ {A = Option ℕ × Bitmap} (some p, bm')
            (some (f * frame_size), set_frame bm f) =
          sym got ∙ e in
        (f, first, ground arith, ground arith)
    go (full used e) =
        let same : ◌≡◌ {A = Option ℕ × Bitmap} (some p, bm') (none, bm) = sym got ∙ e in
        absurd (ground arith)

-- Freeing the frame just taken.
clear-set :
    (bm : Bitmap) (f g : ℕ)
    → IsBitmap bm
    → f < max_frames
    → frame_bit bm f ≡ 0
    → frame_bit (clear_frame (set_frame bm f) f) g ≡ frame_bit bm g
clear-set bm f g sized lt free = elim (Bool-cases (f == g)) [
  | inl same ↦
      let e : f ≡ g = ground arith in
      frame_bit-clear_frame (set_frame bm f) f g (omega (arith, length-set_frame bm f))
      ∙ rw same (rw (← e) (sym free))
  | inr other ↦
      frame_bit-clear_frame (set_frame bm f) f g (omega (arith, length-set_frame bm f))
      ∙ rw other (frame_bit-set_frame bm f g (omega arith) ∙ rw other)
]

module _ (bm : Bitmap) {bm' : Bitmap} {p : ℕ} (sized : IsBitmap bm)
    (got : alloc_frame bm ≡ (some p, bm')) where
  -- Giving the frame back to `free_frame` restores the state of every frame.
  pub free_frame-alloc_frame : (g : ℕ) → frame_bit (free_frame bm' p) g ≡ frame_bit bm g
  unfolding free_frame
  free_frame-alloc_frame g =
      let (f, first, e, e') = alloc_frame-taken bm got in
      let same : p / frame_size ≡ f = omega arith in
      rw (same, e') (clear-set bm f g sized first.below first.free)

  -- After a successful allocation the next one returns another frame.
  pub alloc_frame-ne : {q : ℕ} {bm'' : Bitmap} → alloc_frame bm' ≡ (some q, bm'') → p ≢ q
  alloc_frame-ne again same =
      let (f, first, e, e') = alloc_frame-taken bm got in
      let (f', first', d, d') = alloc_frame-taken bm' again in
      let one : f ≡ f' = omega arith in
      let set_bit : frame_bit bm' f' ≡ 1 =
        rw (e', ← one) (frame_bit-set_frame bm f f (omega (arith, first.below)) ∙ ground arith) in
      absurd (omega (arith, first'.free))
