-- ===== src/Libc/Malloc/Laws.antt =====
-- What malloc and free do to the blocks in use.
use spike_os.Prelude.{
  ℕ, ◌+◌, ◌-◌, ◌^◌, ◌≤◌, ◌<◌, ◌≡◌, refl, true, ◌&&◌, Option, none, some, [], ◌∷◌, ◌++◌, ◌==◌, leb,
  length, arith, ◌∙◌, ap, sym, inl, inr, ◌⊎◌, Bool-cases, Option-cases,
}
use spike_os.Libc.Malloc.{
  Block, Chain, find_free, later, align_up, grow_total, grow_heap, append_block, take_block,
  take_grown, allocate, malloc,
}
use spike_os.Libc.Malloc.Chain.{Adjoining, chain_end, used}
use mathlib.Core.Option.{none-ne-some}
use spike_os.Libc.Malloc.Take.{Gained, Taken, find_free-first, find_free-later, take_found}

-- A free block behind a chain without a fitting one is found.
appended :
    (c : Chain) (at req : ℕ) (n : Block)
    → Adjoining at c
    → n.addr ≡ chain_end at c
    → n.free ≡ true
    → req ≤ n.size
    → find_free req c ≡ none
    → Adjoining at (c ++ (n ∷ []))
      × (used (c ++ (n ∷ [])) ≡ used c)
      × (chain_end at (c ++ (n ∷ [])) ≡ chain_end at c + 16 + n.size)
      × (find_free req (c ++ (n ∷ [])) ≡ some (length c))
appended [] at req n adj place idle fits e =
    ((place, tt), rw idle refl, refl, find_free-first req n [] (ground (arith, idle)))
appended (b ∷ bs) at req n (here, adj) place idle fits e =
    elim (Bool-cases (b.free && leb req b.size)) [
      | inl this ↦ absurd (none-ne-some _ (sym e ∙ find_free-first req b bs this))
      | inr other ↦ elim (Option-cases (find_free req bs)) [
        | inr (j, found) ↦
            absurd (none-ne-some _ (sym e ∙ find_free-later req b bs other ∙ ap later found))
        | inl nowhere ↦
            let (adj', same, ends, found) =
              appended bs (at + 16 + b.size) req n adj place idle fits nowhere in
            (
              (here, adj'),
              rw same refl,
              ends,
              find_free-later req b (bs ++ (n ∷ [])) other ∙ ap later found,
            )
      ]
    ]

-- `sbrk` gives memory behind the chain, below 2 ^ 32, or fails.
abbrev pub Contiguous : (at : ℕ) → Chain → (ℕ → Option ℕ) → Type 0
Contiguous at c sbrk =
    (total ptr : ℕ) → sbrk total ≡ some ptr → (ptr ≡ chain_end at c) × (ptr + total < 2 ^ 32)

-- What comes of a request: nothing, and `sbrk` refused the memory or the request is for no bytes; or a
-- block more in use.
abbrev pub Outcome : (at size : ℕ) (sbrk : ℕ → Option ℕ) → Chain → Option ℕ × Chain → Type 0
Outcome at size sbrk c (none, c') =
    (c' ≡ c) × ((size ≡ 0) ⊎ (sbrk (grow_total (align_up size)) ≡ none))
Outcome at size sbrk c (some ptr, c') =
    Adjoining at c' × (chain_end at c' < 2 ^ 32) × Gained size ptr c c'

Gained-less :
    {req size ptr : ℕ} {c c' : Chain} → size ≤ req → Gained req ptr c c' → Gained size ptr c c'
Gained-less h g = record {
  addr = g.addr;
  size = g.size;
  before = g.before;
  behind = g.behind;
  points = g.points;
  enough = omega (arith, h, g.enough);
  was = g.was;
  becomes = g.becomes;
}

Gained-from :
    {size ptr : ℕ} {c c1 c' : Chain}
    → used c1 ≡ used c
    → Gained size ptr c1 c'
    → Gained size ptr c c'
Gained-from e g = record {
  addr = g.addr;
  size = g.size;
  before = g.before;
  behind = g.behind;
  points = g.points;
  enough = g.enough;
  was = sym e ∙ g.was;
  becomes = g.becomes;
}

module _ (at size : ℕ) (sbrk : ℕ → Option ℕ) (c : Chain) (adj : Adjoining at c)
    (small : chain_end at c < 2 ^ 32) (fits : size < 2 ^ 31) (behind : Contiguous at c sbrk) where
  aligned : size ≤ align_up size
  unfolding align_up
  aligned = omega arith

  total_covers : align_up size + 16 ≤ grow_total (align_up size)
  unfolding grow_total align_up
  total_covers = ground arith

  outcome_of :
      (r : Option ℕ × Chain)
      → Taken at (align_up size) c r
      → (r.0 ≡ none → sbrk (grow_total (align_up size)) ≡ none)
      → Outcome at size sbrk c r
  outcome_of (none, c') t n = (t, inr (n refl))
  outcome_of (some ptr, c') (a, ends, g) n = (a, omega (arith, ends, small), Gained-less aligned g)

  -- The block that `sbrk` gives memory for.
  grown :
      (ptr : ℕ)
      → find_free (align_up size) c ≡ none
      → sbrk (grow_total (align_up size)) ≡ some ptr
      → Outcome at size sbrk c (
          take_block (align_up size) (length c) (
            c ++ (record { addr = ptr; size = grow_total (align_up size) - 16; free = true } ∷ [])))
  unfolding take_block
  grown ptr nowhere got =
      let req = align_up size in
      let n : Block = record { addr = ptr; size = grow_total req - 16; free = true } in
      let (place, low) = behind (grow_total req) ptr got in
      let (adj', same, ends, found) =
        appended c at req n adj place refl (omega (arith, total_covers)) nowhere in
      let small' : chain_end at (c ++ (n ∷ [])) < 2 ^ 32 =
        omega (arith, ends, low, total_covers, place) in
      let (a, e, g) = take_found (c ++ (n ∷ [])) at req (length c) adj' small' found in
      (a, omega (arith, e, small'), Gained-less aligned (Gained-from same g))

  -- `malloc` of fewer than 2 ^ 31 bytes on a chain of adjoining blocks, with `sbrk` giving memory behind it:
  -- NULL, and nothing changed, only for 0 bytes or where `sbrk` refuses; otherwise one block more is in use,
  -- at least as large as asked for, all others are in use as before, and the blocks adjoin.
  pub malloc-Outcome : Outcome at size sbrk c (malloc sbrk size c)
  unfolding malloc allocate grow_heap append_block take_grown take_block
  malloc-Outcome = elim (Bool-cases (size == 0)) [
    | inl nothing ↦ rw nothing (refl, inl (ground (arith, nothing)))
    | inr some_size ↦ elim (Option-cases (find_free (align_up size) c)) [
      | inr (i, found) ↦
          rw (some_size, found, allocate)
            (outcome_of (take_block (align_up size) i c)
              (take_found c at (align_up size) i adj small found)
              (λ e. absurd (none-ne-some _ (sym e))))
      | inl nowhere ↦ elim (Option-cases (sbrk (grow_total (align_up size)))) [
        | inl refused ↦ rw (some_size, nowhere, allocate, refused) (refl, inr refused)
        | inr (ptr, got) ↦ rw (some_size, nowhere, allocate, got) (grown ptr nowhere got)
      ]
    ]
  ]
