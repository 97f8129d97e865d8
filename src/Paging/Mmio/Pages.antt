-- ===== src/Paging/Mmio/Pages.antt =====
-- The loop of `map_mmio_region`: a run of pages.
use mathlib.Core.Path.{fun_ext, subst}
use Prim.Native.Nat.{bit_or}
use spike_os.Prelude.{
  ℕ, zero, suc, ◌+◌, ◌-◌, ◌*◌, ◌%◌, ◌^◌, ◌≤◌, ◌<◌, ◌≡◌, Bool, true, false, ◌==◌, ◌&&◌, ltb, leb,
  if◌then◌else◌, arith, ◌∙◌, ap, inl, inr, ◌⊎◌,
}
use spike_os.Frames.{max_frames}
use spike_os.Frames.Bitmap.{frame_bit}
use spike_os.Paging.{Layout, Memory, page_of, pd_index, is_shared}
use spike_os.Paging.Entries.{
  entry, table, HasTable, IsDirectory, Maps, Mapped, mapped, full, fresh-ne,
}
use spike_os.Paging.Mmio.{mmio_flags, map_run}
use spike_os.Paging.Mmio.Kernel.{map_page-Mapped}

-- The kernel's directory is well formed, and no entry from `next` on names a static table.
pub record IsKernel (l : Layout) (next : ℕ) (m : Memory) : Type 0 where
  pub valid : IsDirectory l m l.directory
  pub own :
      (i : ℕ) → next ≤ i → HasTable m l.directory i → is_shared l (table m l.directory i) ≡ false

-- The `n` pages from page `a` on show the frames from `b` on, and all other pages are as they were.
pub record Window (l : Layout) (next a b n : ℕ) (m m' : Memory) : Type 0 where
  pub entries :
      (v : ℕ)
      → entry m' l.directory v ≡ (
          if leb a (page_of v) && ltb (page_of v) (a + n)
          then bit_or ((b + (page_of v - a)) * 4096) mmio_flags
          else entry m l.directory v)
  pub kernel : IsKernel l next m'

pub Window-inside :
    (l : Layout) (next a b n : ℕ) (m m' : Memory)
    → Window l next a b n m m'
    → (v : ℕ) → a ≤ page_of v
    → page_of v < a + n
    → entry m' l.directory v ≡ bit_or ((b + (page_of v - a)) * 4096) mmio_flags
Window-inside l next a b n m m' w v from to =
    let low : leb a (page_of v) ≡ true = ground arith in
    let high : ltb (page_of v) (a + n) ≡ true = ground arith in w.entries v ∙ rw (low, high)

pub Window-outside :
    (l : Layout) (next a b n : ℕ) (m m' : Memory)
    → Window l next a b n m m'
    → (v : ℕ) → (page_of v < a) ⊎ (a + n ≤ page_of v)
    → entry m' l.directory v ≡ entry m l.directory v
Window-outside l next a b n m m' w v out =
    let off : (leb a (page_of v) && ltb (page_of v) (a + n)) ≡ false = ground arith in
    w.entries v ∙ rw off

-- All pages, or the first ones until the frames run out.
pub data Pages (l : Layout) (next a b n : ℕ) (m : Memory) : Bool × Memory → Type 0 where
  all_mapped : (m' : Memory) → Window l next a b n m m' → Pages l next a b n m (true, m')
  stuck :
      (m' : Memory) (k : ℕ)
      → k < n
      → Window l next a b k m m'
      → ((g : ℕ) → g < max_frames → frame_bit m'.bitmap g ≡ 1)
      → Pages l next a b n m (false, m')

Maps-IsKernel :
    (l : Layout) (next virt value : ℕ) (m m' : Memory)
    → Maps l l.directory virt value m m'
    → IsKernel l next m
    → IsKernel l next m'
Maps-IsKernel l next virt value m m' s k = record { valid = s.valid; own = own }
  where
    own :
        (i : ℕ)
        → next ≤ i
        → HasTable m' l.directory i
        → is_shared l (table m' l.directory i) ≡ false
    own i lt has = elim (s.tables i has) [
      | inl (had, same) ↦ rw same (k.own i lt had)
      | inr free ↦ ground (
        arith,
        fresh-ne m.bitmap _ l.first free k.valid.first_used,
        fresh-ne m.bitmap _ l.second free k.valid.second_used,
        fresh-ne m.bitmap _ l.third free k.valid.third_used,
      )
    ]

same_memory :
    (m m' : Memory) → ((p j : ℕ) → m'.words p j ≡ m.words p j) → m'.bitmap ≡ m.bitmap → m' ≡ m
same_memory m m' words bits =
    ap (λ w. record { bitmap = m'.bitmap; words = w }) (fun_ext (λ p. fun_ext (words p)))
    ∙ ap (λ b. record { bitmap = b; words = m.words }) bits

empty_run : (l : Layout) (next a b : ℕ) (m : Memory) → IsKernel l next m → Window l next a b 0 m m
empty_run l next a b m k = record { entries = λ v. ground arith; kernel = k }

-- A table of values that starts one entry earlier.
earlier :
    (g : ℕ → ℕ) (p a b n old : ℕ)
    → (if leb (suc a) p && ltb p (suc a + n)
        then g (suc b + (p - suc a))
        else if p == a
        then g b
        else old)
      ≡ (if leb a p && ltb p (a + suc n) then g (b + (p - a)) else old)
earlier g p a b n old = grind arith

-- One page more in front.
widen :
    (l : Layout) (next a b n virt : ℕ) (m m' m'' : Memory)
    → page_of virt ≡ a
    → Maps l l.directory virt (bit_or (b * 4096) mmio_flags) m m'
    → Window l next (suc a) (suc b) n m' m''
    → Window l next a b (suc n) m m''
widen l next a b n virt m m' m'' at s w = record { entries = entries; kernel = w.kernel }
  where
    entries :
        (v : ℕ)
        → entry m'' l.directory v ≡ (
            if leb a (page_of v) && ltb (page_of v) (a + suc n)
            then bit_or ((b + (page_of v - a)) * 4096) mmio_flags
            else entry m l.directory v)
    entries v =
        w.entries v
        ∙ ap
            (λ x.
              if leb (suc a) (page_of v) && ltb (page_of v) (suc a + n)
              then bit_or ((suc b + (page_of v - suc a)) * 4096) mmio_flags
              else x)
            (rw at at s.entries v)
        ∙ earlier (λ f. bit_or (f * 4096) mmio_flags) (page_of v) a b n (entry m l.directory v)

pub map_run-Pages :
    (l : Layout) (next n virt phys a b : ℕ) (m : Memory)
    → virt ≡ a * 4096 % 2 ^ 32
    → phys ≡ b * 4096 % 2 ^ 32
    → a + n ≤ 2 ^ 20
    → b + n ≤ 2 ^ 20
    → next * 1024 ≤ a
    → IsKernel l next m
    → Pages l next a b n m (map_run l n virt phys m)
unfolding map_run
map_run-Pages l next zero virt phys a b m va pb va_in pb_in from k =
    all_mapped m (empty_run l next a b m k)
map_run-Pages l next (suc n) virt phys a b m va pb va_in pb_in from k =
    go
      (λ m' k'.
        map_run-Pages l next n _ _ (suc a) (suc b) m' (omega arith) (omega arith) (omega arith)
          (omega arith) (omega arith) k')
      _ (map_page-Mapped l m virt phys mmio_flags k.valid (k.own (pd_index virt) (omega arith)))
  where
    at : page_of virt ≡ a
    at = omega arith

    by_frame :
        (m' : Memory)
        → Maps l l.directory virt (bit_or phys mmio_flags) m m'
        → Maps l l.directory virt (bit_or (b * 4096) mmio_flags) m m'
    by_frame m' s =
        let e : phys ≡ b * 4096 = omega arith in
        subst (λ x. Maps l l.directory virt (bit_or x mmio_flags) m m') e s

    more :
        (m' : Memory)
        → Maps l l.directory virt (bit_or phys mmio_flags) m m'
        → (r : Bool × Memory) → Pages l next (suc a) (suc b) n m' r
        → Pages l next a b (suc n) m r
    more m' s r (all_mapped m'' w) =
        all_mapped m'' (widen l next a b n virt m m' m'' at (by_frame m' s) w)
    more m' s r (stuck m'' j lt w used) =
        stuck m'' (suc j) (omega arith) (widen l next a b j virt m m' m'' at (by_frame m' s) w) used

    go :
        ((m' : Memory)
          → IsKernel l next m'
          → Pages l next
              (suc a)
              (suc b)
              n
              m'
              (map_run l n ((virt + 4096) % 2 ^ 32) ((phys + 4096) % 2 ^ 32) m'))
        → (r : Bool × Memory) → Mapped l l.directory virt (bit_or phys mmio_flags) m r
        → Pages l next a b (suc n) m (elim r.0 [
          | false ↦ (false, r.1)
          | true ↦ map_run l n ((virt + 4096) % 2 ^ 32) ((phys + 4096) % 2 ^ 32) r.1
        ])
    go rest _ (mapped m' s) = more m' s _ (rest m' (Maps-IsKernel l next virt _ m m' s k))
    go rest _ (full m' words bits used) =
        let same : m' ≡ m = same_memory m m' words bits in
        rw same (stuck m 0 (omega arith) (empty_run l next a b m k) used)
