-- ===== src/Libc/Malloc/Free.antt =====
-- What free does to the blocks in use.
use spike_os.Prelude.{
  ℕ, suc, ◌+◌, ◌-◌, ◌^◌, ◌≤◌, ◌<◌, ◌≡◌, refl, true, false, none, some, List, [], ◌∷◌, ◌==◌,
  if◌then◌else◌, arith, ◌∙◌, ap, sym, inl, inr, ◌⊎◌, Bool-cases, Option-cases,
}
use mathlib.Core.Path.{subst}
use mathlib.Core.Option.{some-injective, none-ne-some}
use spike_os.Libc.Malloc.{
  Block, Chain, later, set_free, at_block, block_at, block_index, release, free,
}
use spike_os.Libc.Malloc.Chain.{Adjoining, chain_end, used, coalesce-Kept}

-- The blocks without the first one at an address.
abbrev pub without : ℕ → List (ℕ × ℕ) → List (ℕ × ℕ)
without a [] = []
without a (b ∷ bs) = if b.0 == a then bs else b ∷ without a bs

-- Blocks behind an address are not at it.
without-behind : (c : Chain) (at a : ℕ) → Adjoining at c → a < at → without a (used c) ≡ used c
without-behind [] at a adj h = refl
without-behind (b ∷ bs) at a (here, adj) h =
    let rest = without-behind bs (at + 16 + b.size) a adj (omega arith) in
    elim (Bool-cases b.free) [
      | inl idle ↦ rw idle rest
      | inr busy ↦
          let ne : (b.addr == a) ≡ false = ground (arith, here) in
          rw (busy, ne) (ap (λ ps. (b.addr, b.size) ∷ ps) rest)
    ]

index-here :
    (a : ℕ) (b : Block) (bs : Chain) → (b.addr == a) ≡ true → block_index a (b ∷ bs) ≡ some 0
unfolding block_index
index-here a b bs h = rw h refl

index-later :
    (a : ℕ) (b : Block) (bs : Chain)
    → (b.addr == a) ≡ false
    → block_index a (b ∷ bs) ≡ later (block_index a bs)
unfolding block_index
index-later a b bs h = rw h refl

-- A block in front that is not at the address.
without-front :
    (a : ℕ) (b : Block) (bs bs' : Chain)
    → (b.addr == a) ≡ false
    → used bs' ≡ without a (used bs)
    → used (b ∷ bs') ≡ without a (used (b ∷ bs))
without-front a b bs bs' ne same = elim (Bool-cases b.free) [
  | inl idle ↦ rw idle same
  | inr busy ↦ rw (busy, ne) (ap (λ ps. (b.addr, b.size) ∷ ps) same)
]

-- No block in use is at an address where there is none, or a free one.
absent :
    (c : Chain) (at a : ℕ)
    → Adjoining at c
    → (block_index a c ≡ none)
      ⊎ ((i : ℕ) × (block_index a c ≡ some i) × ((block_at c i).free ≡ true))
    → used c ≡ without a (used c)
absent [] at a adj h = refl
absent (b ∷ bs) at a (here, adj) h = elim (Bool-cases (b.addr == a)) [
  | inl this ↦
      let rest = without-behind bs (at + 16 + b.size) a adj (ground (arith, this, here)) in
      elim h [
        | inl nowhere ↦ absurd (none-ne-some _ (sym nowhere ∙ index-here a b bs this))
        | inr (i, e, idle) ↦
            let z : i ≡ 0 = some-injective _ _ (sym e ∙ index-here a b bs this) in
            let f : b.free ≡ true = sym (ap (λ j. (block_at (b ∷ bs) j).free) z) ∙ idle in
            rw f (sym rest)
      ]
  | inr other ↦ without-front a b bs bs other (
      absent bs (at + 16 + b.size) a adj (elim h [
        | inl nowhere ↦ elim (Option-cases (block_index a bs)) [
          | inl e ↦ inl e
          | inr (i, e) ↦
              absurd (none-ne-some _ (sym nowhere ∙ index-later a b bs other ∙ ap later e))
        ]
        | inr (i, e, idle) ↦ elim (Option-cases (block_index a bs)) [
          | inl none_there ↦
              absurd
                (none-ne-some _ (sym (ap later none_there) ∙ sym (index-later a b bs other) ∙ e))
          | inr (j, there) ↦
              let z : i ≡ suc j =
                some-injective _ _ (sym e ∙ index-later a b bs other ∙ ap later there) in
              inr (j, there, sym (ap (λ k. (block_at (b ∷ bs) k).free) z) ∙ idle)
        ]
      ]))
]

-- The block at the address marked free.
abbrev Freed : (at a : ℕ) → Chain → Chain → Type 0
Freed at a c c' =
    Adjoining at c' × (used c' ≡ without a (used c)) × (chain_end at c' ≡ chain_end at c)

marked :
    (c : Chain) (at a i : ℕ)
    → Adjoining at c
    → block_index a c ≡ some i
    → (block_at c i).free ≡ false
    → Freed at a c (at_block i (set_free true) c)
unfolding block_index at_block set_free
marked [] at a i adj e busy = absurd (none-ne-some _ e)
marked (b ∷ bs) at a i (here, adj) e busy = elim (Bool-cases (b.addr == a)) [
  | inl this ↦
      let z : 0 ≡ i = some-injective _ _ (sym (index-here a b bs this) ∙ e) in
      let f : b.free ≡ false = ap (λ j. (block_at (b ∷ bs) j).free) z ∙ busy in
      subst (λ j. Freed at a (b ∷ bs) (at_block j (set_free true) (b ∷ bs))) z
        ((here, adj), rw (f, this) refl, refl)
  | inr other ↦ elim (Option-cases (block_index a bs)) [
    | inl none_there ↦
        absurd (none-ne-some _ (sym (ap later none_there) ∙ sym (index-later a b bs other) ∙ e))
    | inr (j, there) ↦
        let z : suc j ≡ i =
          some-injective _ _ (sym (index-later a b bs other ∙ ap later there) ∙ e) in
        let f : (block_at bs j).free ≡ false = ap (λ k. (block_at (b ∷ bs) k).free) z ∙ busy in
        let (adj', same, ends) = marked bs (at + 16 + b.size) a j adj there f in
        subst (λ k. Freed at a (b ∷ bs) (at_block k (set_free true) (b ∷ bs))) z
          ((here, adj'), without-front a b bs (at_block j (set_free true) bs) other same, ends)
  ]
]

-- `free` of a pointer on a chain of adjoining blocks takes exactly the block in front of the pointer out of
-- use, whatever is merged: of the blocks in use all others stay, and none goes where the pointer is to no
-- block in use. The blocks adjoin and end where they ended.
pub free-Freed :
    (c : Chain) (at ptr : ℕ)
    → Adjoining at c
    → chain_end at c < 2 ^ 32
    → 1 ≤ ptr
    → Adjoining at (free ptr c)
      × (used (free ptr c) ≡ without (ptr - 16) (used c))
      × (chain_end at (free ptr c) ≡ chain_end at c)
unfolding free release
free-Freed c at ptr adj small some_ptr =
    let a = ptr - 16 in
    let z : (ptr == 0) ≡ false = ground arith in
    elim (Option-cases (block_index a c)) [
      | inl nowhere ↦ rw (z, nowhere) (adj, absent c at a adj (inl nowhere), refl)
      | inr (i, found) ↦ elim (Bool-cases (block_at c i).free) [
        | inl idle ↦ rw (z, found, idle) (adj, absent c at a adj (inr (i, found, idle)), refl)
        | inr busy ↦
            let (adj', same, ends) = marked c at a i adj found busy in
            let (adj'', same', ends') =
              coalesce-Kept (at_block i (set_free true) c) at adj' (omega (arith, ends, small)) in
            rw (z, found, busy) (adj'', same' ∙ same, ends' ∙ ends)
      ]
    ]
