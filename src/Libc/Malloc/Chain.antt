-- ===== src/Libc/Malloc/Chain.antt =====
-- A chain of adjoining blocks, and the blocks of it that are in use.
use spike_os.Prelude.{
  ℕ, ◌+◌, ◌-◌, ◌%◌, ◌^◌, ◌≤◌, ◌<◌, ◌≡◌, refl, Bool, true, false, ◌&&◌, List, [], ◌∷◌, leb,
  if◌then◌else◌, arith, ◌∙◌, ap, sym, inl, inr, Bool-cases,
}
use mathlib.Core.Path.{subst}
use spike_os.Libc.Malloc.{Block, Chain, split_block, set_free, merge, coalesce_from, coalesce}

-- Blocks one behind the other from an address on.
abbrev pub Adjoining : ℕ → Chain → Type 0
Adjoining at [] = Unit {0}
Adjoining at (b ∷ bs) = (b.addr ≡ at) × Adjoining (at + 16 + b.size) bs

abbrev pub chain_end : ℕ → Chain → ℕ
chain_end at [] = at
chain_end at (b ∷ bs) = chain_end (at + 16 + b.size) bs

-- The addresses and sizes of the blocks in use.
abbrev pub used : Chain → List (ℕ × ℕ)
used [] = []
used (b ∷ bs) = if b.free then used bs else (b.addr, b.size) ∷ used bs

pub at-le-end : (c : Chain) (at : ℕ) → at ≤ chain_end at c
at-le-end [] at = omega arith
at-le-end (b ∷ bs) at = omega (arith, at-le-end bs (at + 16 + b.size))

-- `c'` is `c` merged or split: it adjoins, ends where `c` ends, and has the same blocks in use.
abbrev pub Kept : ℕ → Chain → Chain → Type 0
Kept at c c' = Adjoining at c' × (used c' ≡ used c) × (chain_end at c' ≡ chain_end at c)

coalesce-apart :
    (cur next : Block) (bs : Chain)
    → (cur.free && next.free) ≡ false
    → coalesce_from cur (next ∷ bs) ≡ cur ∷ coalesce_from next bs
unfolding coalesce_from
coalesce-apart cur next bs h = rw (h, coalesce_from)

coalesce-both :
    (cur next : Block) (bs : Chain)
    → (cur.free && next.free) ≡ true
    → coalesce_from cur (next ∷ bs) ≡ coalesce_from (merge cur next) bs
unfolding coalesce_from
coalesce-both cur next bs h = rw (h, coalesce_from)

coalesce_end : (cur : Block) → coalesce_from cur [] ≡ cur ∷ []
unfolding coalesce_from
coalesce_end cur = refl

-- Merging free neighbours takes no block from use.
coalesce_from-Kept :
    (bs : Chain) (cur : Block) (at : ℕ)
    → Adjoining at (cur ∷ bs)
    → chain_end at (cur ∷ bs) < 2 ^ 32
    → Kept at (cur ∷ bs) (coalesce_from cur bs)
unfolding merge
coalesce_from-Kept [] cur at a small =
    let e : coalesce_from cur [] ≡ cur ∷ [] = coalesce_end cur in rw e (a, refl, refl)
coalesce_from-Kept (next ∷ bs) cur at (here, (there, a)) small =
    elim (Bool-cases (cur.free && next.free)) [
      | inr apart ↦
          let (kept, same, ends) =
            coalesce_from-Kept bs next (at + 16 + cur.size) (there, a) small in
          subst (Kept at (cur ∷ (next ∷ bs))) (sym (coalesce-apart cur next bs apart))
            ((here, kept), rw same refl, ends)
      | inl both ↦
          let size : (cur.size + (16 + next.size)) % 2 ^ 32 ≡ cur.size + (16 + next.size) =
            omega (arith, at-le-end bs (at + 16 + cur.size + 16 + next.size)) in
          let place : at + 16 + (merge cur next).size ≡ at + 16 + cur.size + 16 + next.size =
            omega (arith, size) in
          let (kept, same, ends) =
            coalesce_from-Kept bs (merge cur next) at (here, rw place a) (rw place small) in
          let f : cur.free ≡ true = ground (arith, both) in
          let g : next.free ≡ true = ground (arith, both) in
          subst (Kept at (cur ∷ (next ∷ bs))) (sym (coalesce-both cur next bs both))
            (kept, same ∙ rw (f, g) refl, ends ∙ ap (λ x. chain_end x bs) place)
    ]

pub coalesce-Kept :
    (c : Chain) (at : ℕ) → Adjoining at c → chain_end at c < 2 ^ 32 → Kept at c (coalesce c)
unfolding coalesce
coalesce-Kept [] at a small = (tt, refl, refl)
coalesce-Kept (b ∷ bs) at a small = coalesce_from-Kept bs b at a small

-- Splitting a block leaves it large enough.
pub record Cut (at size : ℕ) (b : Block) (bs c : Chain) : Type 0 where
  pub adjoins : Adjoining at c
  pub ends : chain_end at c ≡ chain_end at (b ∷ bs)
  pub taken :
      (s : ℕ) × (size ≤ s) × (s ≤ b.size) × (used (set_free false c) ≡ (b.addr, s) ∷ used bs)
  pub as_was : b.free ≡ true → used c ≡ used bs

pub split_block-Cut :
    (at size : ℕ) (b : Block) (bs : Chain)
    → Adjoining at (b ∷ bs)
    → chain_end at (b ∷ bs) < 2 ^ 32
    → size ≤ b.size
    → Cut at size b bs (split_block size (b ∷ bs))
unfolding split_block set_free
split_block-Cut at size b bs (here, a) small fits =
    let bound = at-le-end bs (at + 16 + b.size) in
    let left : (b.size + 2 ^ 32 - size) % 2 ^ 32 ≡ b.size - size = omega arith in
    elim (Bool-cases (leb 24 ((b.size + 2 ^ 32 - size) % 2 ^ 32))) [
      | inl wide ↦
          let place : at + 16 + size + 16 + ((b.size + 2 ^ 32 - size) % 2 ^ 32 - 16)
              ≡ at + 16 + b.size =
            ground (arith, left, wide) in
          rw wide (record {
            adjoins = (here, (ap (λ x. x + 16 + size) here, rw place a));
            ends = ap (λ x. chain_end x bs) place;
            taken = (size, omega arith, fits, refl);
            as_was = λ f. rw f refl;
          })
      | inr tight ↦ rw tight (record {
        adjoins = (here, a);
        ends = refl;
        taken = (b.size, fits, omega arith, refl);
        as_was = λ f. rw f refl;
      })
    ]

-- A mark moves nothing.
pub set_free-adjoins :
    (f : Bool) (c : Chain) (at : ℕ)
    → Adjoining at c
    → Adjoining at (set_free f c) × (chain_end at (set_free f c) ≡ chain_end at c)
unfolding set_free
set_free-adjoins f [] at a = (a, refl)
set_free-adjoins f (b ∷ bs) at a = (a, refl)
