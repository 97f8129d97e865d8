-- ===== src/Space/Range.antt =====
-- Many new pages in a row: `map_pages`, the loops of `sys_brk` and `sys_mmap`.
use Prim.Native.Nat.{bit_or}
use spike_os.Prelude.{
  ℕ, zero, suc, ◌+◌, ◌*◌, ◌≤◌, ◌<◌, ◌≡◌, ◌≢◌, refl, Bool, true, false, ◌==◌, if◌then◌else◌, arith,
  ◌∙◌, ap, sym, inl, inr, ◌⊎◌, dec_lt,
}
use spike_os.Prelude.Bits.{bit-lt}
use spike_os.Frames.Bitmap.{frame_bit}
use spike_os.Paging.{Layout, Memory, page_of, pd_index, is_shared}
use spike_os.Paging.Words.{page_of-entry}
use spike_os.Paging.Entries.{entry, table, HasTable, IsDirectory, fresh-ne}
use spike_os.Space.{map_new_page, map_pages}
use spike_os.Space.Grow.{map_new_page-Grown}
use spike_os.Space.Outcome.{Grows, Same, Grown, grown, failed, Exhausted}

abbrev pub InRange : (first count v : ℕ) → Type 0
InRange first count v = (first ≤ page_of v) × (page_of v < first + count)

-- No table of the kernel serves a page of the range.
abbrev pub Private : Layout → Memory → (dir first count : ℕ) → Type 0
Private l m dir first count =
    (v : ℕ)
    → InRange first count v
    → HasTable m dir (pd_index v)
    → is_shared l (table m dir (pd_index v)) ≡ false

-- The entry of a new page: a frame that was free, is in use now, and holds zeroes.
abbrev pub NewPage : (dir flags v : ℕ) → Memory → Memory → Type 0
NewPage dir flags v m m' =
    (frame : ℕ) × (entry m' dir v ≡ bit_or (frame * 4096) flags)
    × (frame_bit m.bitmap frame ≡ 0)
    × (frame_bit m'.bitmap frame ≡ 1)
    × ((j : ℕ) → m'.words frame j ≡ 0)

-- `m'` is `m` with `count` new pages from page `first` on, each in a frame of its own.
pub record Ranged (l : Layout) (dir flags first count : ℕ) (m m' : Memory) : Type 0 where
  pub inside : (v : ℕ) → InRange first count v → NewPage dir flags v m m'
  pub distinct :
      (v w : ℕ)
      → InRange first count v
      → InRange first count w
      → page_of v ≢ page_of w
      → page_of (entry m' dir v) ≢ page_of (entry m' dir w)
  pub outside :
      (v : ℕ) → (page_of v < first) ⊎ (first + count ≤ page_of v) → entry m' dir v ≡ entry m dir v
  pub kept : (g : ℕ) → frame_bit m.bitmap g ≡ 1 → frame_bit m'.bitmap g ≡ 1
  pub untouched :
      (p j : ℕ)
      → frame_bit m.bitmap p ≡ 1
      → p ≢ dir
      → ((i : ℕ) → HasTable m dir i → p ≢ table m dir i)
      → m'.words p j ≡ m.words p j
  pub valid : IsDirectory l m' dir

is_shared-used :
    (l : Layout) (m : Memory) (dir p : ℕ)
    → IsDirectory l m dir
    → frame_bit m.bitmap p ≡ 0
    → is_shared l p ≡ false
is_shared-used l m dir p ok free =
    let a = fresh-ne m.bitmap p l.first free ok.first_used in
    let b = fresh-ne m.bitmap p l.second free ok.second_used in
    let c = fresh-ne m.bitmap p l.third free ok.third_used in ground (arith, a, b, c)

module _ (l : Layout) (dir virt flags : ℕ) (m m1 : Memory) (ok : IsDirectory l m dir)
    (g : Grows l dir virt flags m m1) where
  Private-step :
      (count : ℕ)
      → Private l m dir (page_of virt) (suc count)
      → Private l m1 dir (page_of virt + 1) count
  Private-step count priv v (lo, hi) has = elim (g.tables (pd_index v) has) [
    | inl (had, same) ↦ rw same (priv v (omega arith, omega arith) had)
    | inr free ↦ is_shared-used l m dir (table m1 dir (pd_index v)) ok free
  ]

  free_before : (p : ℕ) → frame_bit m1.bitmap p ≡ 0 → frame_bit m.bitmap p ≡ 0
  free_before p free = elim (bit_cases (frame_bit m.bitmap p) (bit-lt _ _)) [
    | inl z ↦ z
    | inr one ↦ absurd (omega (arith, free, g.kept p one))
  ]
    where
      bit_cases : (b : ℕ) → b < 2 → (b ≡ 0) ⊎ (b ≡ 1)
      bit_cases b h = omega arith

  module _ (count : ℕ) (m2 : Memory) (narrow : flags < 4096)
      (r : Ranged l dir flags (page_of virt + 1) count m1 m2) where
    -- The first page and the others.
    split :
        (v : ℕ)
        → InRange (page_of virt) (suc count) v
        → (page_of v ≡ page_of virt) ⊎ InRange (page_of virt + 1) count v
    split v h = elim (dec_lt (page_of virt) (page_of v)) [
      | yes lt ↦ inr (omega arith, omega arith)
      | no ge ↦ inl (omega arith)
    ]

    at_first : (v : ℕ) → page_of v ≡ page_of virt → entry m2 dir v ≡ bit_or (g.frame * 4096) flags
    at_first v e =
        let t : (page_of v == page_of virt) ≡ true = ground arith in
        r.outside v (inl (omega arith)) ∙ g.entries v ∙ rw t

    first_frame : (v : ℕ) → page_of v ≡ page_of virt → page_of (entry m2 dir v) ≡ g.frame
    first_frame v e =
        ap page_of (at_first v e) ∙ page_of-entry (g.frame * 4096) flags narrow ∙ omega arith

    later_frame : (v : ℕ) → InRange (page_of virt + 1) count v → page_of (entry m2 dir v) ≢ g.frame
    later_frame v h e =
        let (f, at, free, _, _) = r.inside v h in
        let same : f ≡ g.frame =
          (omega (arith, page_of-entry (f * 4096) flags narrow, ap page_of at)) in
        absurd (omega (arith, free, g.taken, ap (frame_bit m1.bitmap) same))

    inside : (v : ℕ) → InRange (page_of virt) (suc count) v → NewPage dir flags v m m2
    inside v h = elim (split v h) [
      | inl e ↦ (
        g.frame,
        at_first v e,
        g.free,
        r.kept g.frame g.taken,
        λ j.
            r.untouched g.frame j g.taken (frame-ne-dir) (λ i has e. g.no_table i has (sym e))
            ∙ g.zeroed j,
      )
      | inr later ↦
          let (f, at, free, used, zeroed) = r.inside v later in
          (f, at, free_before f free, used, zeroed)
    ]
      where
        frame-ne-dir : g.frame ≢ dir
        frame-ne-dir e = absurd (omega (arith, g.free, ok.dir_used, ap (frame_bit m.bitmap) e))

    distinct :
        (v w : ℕ)
        → InRange (page_of virt) (suc count) v
        → InRange (page_of virt) (suc count) w
        → page_of v ≢ page_of w
        → page_of (entry m2 dir v) ≢ page_of (entry m2 dir w)
    distinct v w h k ne e = elim (split v h) [
      | inl a ↦ elim (split w k) [
        | inl b ↦ ne (a ∙ sym b)
        | inr b ↦ later_frame w b (sym e ∙ first_frame v a)
      ]
      | inr a ↦ elim (split w k) [
        | inl b ↦ later_frame v a (e ∙ first_frame w b)
        | inr b ↦ r.distinct v w a b ne e
      ]
    ]

    outside :
        (v : ℕ)
        → (page_of v < page_of virt) ⊎ (page_of virt + suc count ≤ page_of v)
        → entry m2 dir v ≡ entry m dir v
    outside v h =
        let t : (page_of v == page_of virt) ≡ false = ground (arith, h) in
        r.outside v (later h) ∙ g.entries v ∙ rw t
      where
        later :
            (page_of v < page_of virt) ⊎ (page_of virt + suc count ≤ page_of v)
            → (page_of v < page_of virt + 1) ⊎ (page_of virt + 1 + count ≤ page_of v)
        later (inl h) = inl (omega arith)
        later (inr h) = inr (omega arith)

    untouched :
        (p j : ℕ)
        → frame_bit m.bitmap p ≡ 1
        → p ≢ dir
        → ((i : ℕ) → HasTable m dir i → p ≢ table m dir i)
        → m2.words p j ≡ m.words p j
    untouched p j used ne apart =
        r.untouched p j (g.kept p used) ne still ∙ g.untouched p j used ne apart
      where
        still : (i : ℕ) → HasTable m1 dir i → p ≢ table m1 dir i
        still i has e = elim (g.tables i has) [
          | inl (had, same) ↦ apart i had (e ∙ same)
          | inr free ↦ absurd (omega (arith, free, used, ap (frame_bit m.bitmap) e))
        ]

    Ranged-step : Ranged l dir flags (page_of virt) (suc count) m m2
    Ranged-step = record {
      inside = inside;
      distinct = distinct;
      outside = outside;
      kept = λ p h. r.kept p (g.kept p h);
      untouched = untouched;
      valid = r.valid;
    }

-- A page that could not be had ends the range.
Ranged-end :
    (l : Layout) (dir flags first : ℕ) (m m' : Memory)
    → Same l dir m m'
    → Ranged l dir flags first 0 m m'
Ranged-end l dir flags first m m' s = record {
  inside = λ v h. absurd (omega (arith, h.0, h.1));
  distinct = λ v w h k. absurd (omega (arith, h.0, h.1));
  outside = λ v h. s.entries v;
  kept = λ g h. s.bits g ∙ h;
  untouched = λ p j used ne apart. s.words p j;
  valid = s.valid;
}

abbrev pub FirstOf : (l : Layout) (dir flags first pages : ℕ) → Memory → ℕ × Memory → Type 0
FirstOf l dir flags first pages m r =
    (r.0 ≤ pages) × Ranged l dir flags first r.0 m r.1 × (r.0 < pages → Exhausted r.1)

one_more :
    (l : Layout) (dir flags pages virt : ℕ) (m : Memory)
    → flags < 4096
    → IsDirectory l m dir
    → Private l m dir (page_of virt) (suc pages)
    → (r : Bool × Memory) (rest : ℕ × Memory) → Grown l dir virt flags m r
    → (IsDirectory l r.1 dir
        → Private l r.1 dir (page_of virt + 1) pages
        → FirstOf l dir flags (page_of virt + 1) pages r.1 rest)
    → FirstOf l dir flags
        (page_of virt)
        (suc pages)
        m
        (if r.0 then (suc rest.0, rest.1) else (0, r.1))
one_more l dir flags pages virt m narrow ok priv _ rest (grown m1 g) later =
    let (le, r, stop) = later g.valid (Private-step l dir virt flags m m1 ok g pages priv) in
    (
      omega arith,
      Ranged-step l dir virt flags m m1 ok g rest.0 rest.1 narrow r,
      λ lt. stop (omega arith),
    )
one_more l dir flags pages virt m narrow ok priv _ rest (failed m1 out s) later =
    (omega arith, Ranged-end l dir flags (page_of virt) m m1 s, λ lt. out)

-- The loop maps the first pages of the range, all of them unless the frames run out.
pub map_pages-Ranged :
    (l : Layout) (cr3 flags pages virt : ℕ) (m : Memory)
    → flags < 4096
    → IsDirectory l m (page_of cr3)
    → Private l m (page_of cr3) (page_of virt) pages
    → FirstOf l (page_of cr3) flags (page_of virt) pages m (map_pages l cr3 flags pages virt m)
unfolding map_pages
map_pages-Ranged l cr3 flags zero virt m narrow ok priv = (
  omega arith,
  Ranged-end l (page_of cr3) flags (page_of virt) m m
      (record { words = λ p j. refl; entries = λ v. refl; bits = λ g. refl; valid = ok }),
  λ lt. absurd (omega arith),
)
map_pages-Ranged l cr3 flags (suc pages) virt m narrow ok priv =
    let next : page_of (virt + 4096) ≡ page_of virt + 1 = omega arith in
    one_more l (page_of cr3) flags pages virt m narrow ok priv (map_new_page l cr3 virt flags m) _
      (map_new_page-Grown l m cr3 virt flags ok
        (λ has shared. absurd (ground (arith, shared, priv virt (omega arith, omega arith) has))))
      (λ ok1 priv1.
        rw next at (map_pages-Ranged l cr3 flags pages (virt + 4096) _ narrow ok1 (rw next priv1)))
