-- ===== src/Libc/Malloc/Take.antt =====
-- What `malloc` does to the chain when it takes a block of it.
use spike_os.Prelude.{
  ℕ, suc, ◌+◌, ◌^◌, ◌≤◌, ◌<◌, ◌≡◌, refl, true, false, ◌&&◌, Option, none, some, List, [], ◌∷◌, ◌++◌,
  leb, arith, ◌∙◌, ap, sym, inl, inr, Bool-cases, Option-cases,
}
use spike_os.Libc.Malloc.{Block, Chain, find_free, later, split_block, at_block, take_block}
use spike_os.Libc.Malloc.Chain.{Adjoining, chain_end, used, split_block-Cut, set_free-adjoins}
use mathlib.Core.Path.{subst}
use mathlib.Core.Option.{some-injective, none-ne-some}

-- A block of at least `req` bytes came into use, between the others, and its data is at the pointer.
pub record Gained (req ptr : ℕ) (c c' : Chain) : Type 0 where
  pub addr : ℕ
  pub size : ℕ
  pub before : List (ℕ × ℕ)
  pub behind : List (ℕ × ℕ)
  pub points : ptr ≡ addr + 16
  pub enough : req ≤ size
  pub was : used c ≡ before ++ behind
  pub becomes : used c' ≡ before ++ ((addr, size) ∷ behind)

abbrev pub Taken : (at req : ℕ) → Chain → Option ℕ × Chain → Type 0
Taken at req c (none, c') = c' ≡ c
Taken at req c (some ptr, c') =
    Adjoining at c' × (chain_end at c' ≡ chain_end at c) × Gained req ptr c c'

-- One more block in front.
pub Gained-cons :
    (b : Block) {req ptr : ℕ} {c c' : Chain} → Gained req ptr c c' → Gained req ptr (b ∷ c) (b ∷ c')
Gained-cons b g = elim (Bool-cases b.free) [
  | inl idle ↦ record {
    addr = g.addr;
    size = g.size;
    before = g.before;
    behind = g.behind;
    points = g.points;
    enough = g.enough;
    was = rw idle g.was;
    becomes = rw idle g.becomes;
  }
  | inr busy ↦ record {
    addr = g.addr;
    size = g.size;
    before = (b.addr, b.size) ∷ g.before;
    behind = g.behind;
    points = g.points;
    enough = g.enough;
    was = rw (busy, g.was) refl;
    becomes = rw (busy, g.becomes) refl;
  }
]

pub Taken-cons :
    (at req i : ℕ) (b : Block) (bs : Chain)
    → b.addr ≡ at
    → Taken (at + 16 + b.size) req bs (take_block req i bs)
    → Taken at req (b ∷ bs) (take_block req (suc i) (b ∷ bs))
unfolding take_block at_block
Taken-cons at req i b bs here (adj, ends, g) = ((here, adj), ends, Gained-cons b g)

pub take_first :
    (at req : ℕ) (b : Block) (bs : Chain)
    → Adjoining at (b ∷ bs)
    → chain_end at (b ∷ bs) < 2 ^ 32
    → b.free ≡ true
    → req ≤ b.size
    → Taken at req (b ∷ bs) (take_block req 0 (b ∷ bs))
unfolding take_block at_block
take_first at req b bs adj small idle fits =
    let cut = split_block-Cut at req b bs adj small fits in
    let (s, least, most, same) = cut.taken in
    let (a, ends) = set_free-adjoins false (split_block req (b ∷ bs)) at cut.adjoins in
    (
      a,
      ends ∙ cut.ends,
      record {
        addr = b.addr;
        size = s;
        before = [];
        behind = used bs;
        points = refl;
        enough = least;
        was = rw idle refl;
        becomes = same;
      },
    )

-- The search, one block on.
pub find_free-first :
    (req : ℕ) (b : Block) (bs : Chain)
    → (b.free && leb req b.size) ≡ true
    → find_free req (b ∷ bs) ≡ some 0
unfolding find_free
find_free-first req b bs h = rw h refl

pub find_free-later :
    (req : ℕ) (b : Block) (bs : Chain)
    → (b.free && leb req b.size) ≡ false
    → find_free req (b ∷ bs) ≡ later (find_free req bs)
unfolding find_free
find_free-later req b bs h = rw h refl

-- The block that `find_free` finds, taken.
pub take_found :
    (c : Chain) (at req i : ℕ)
    → Adjoining at c
    → chain_end at c < 2 ^ 32
    → find_free req c ≡ some i
    → Taken at req c (take_block req i c)
unfolding find_free
take_found [] at req i adj small e = absurd (ground (arith, e))
take_found (b ∷ bs) at req i (here, adj) small e = elim (Bool-cases (b.free && leb req b.size)) [
  | inl this ↦
      let z : 0 ≡ i = some-injective _ _ (sym (find_free-first req b bs this) ∙ e) in
      subst (λ n. Taken at req (b ∷ bs) (take_block req n (b ∷ bs))) z
        (take_first at req b bs (here, adj) small (ground (arith, this)) (ground (arith, this)))
  | inr other ↦ elim (Option-cases (find_free req bs)) [
    | inl nowhere ↦
        absurd (none-ne-some _ (sym (ap later nowhere) ∙ sym (find_free-later req b bs other) ∙ e))
    | inr (j, found) ↦
        let z : suc j ≡ i =
          some-injective _ _ (sym (ap later found) ∙ sym (find_free-later req b bs other) ∙ e) in
        subst (λ n. Taken at req (b ∷ bs) (take_block req n (b ∷ bs))) z
          (Taken-cons at req j b bs here (take_found bs (at + 16 + b.size) req j adj small found))
  ]
]
