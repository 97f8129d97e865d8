-- ===== src/Prelude/Ring.antt =====
-- Rings with one slot unused: the items between a tail and a head, oldest first.
use spike_os.Prelude.Lists.{length, get_or, set, get_or-set, length-set}
use spike_os.Prelude.Tests.{◌==◌, if◌then◌else◌, ltb, leb, Bool-cases}
use Prim.Native.Nat.{ℕ, zero, suc, ◌+◌, ◌-◌, ◌%◌, ◌<◌}
use mathlib.Core.Path.{◌≡◌, refl, ap, ◌∙◌}
use mathlib.Core.Logic.{◌≢◌, inl, inr}
use mathlib.Core.Bool.{false}
use mathlib.Core.List.{List, [], ◌∷◌, ◌++◌}
use native.Mathlib.Omega.{arith}
use native.Mathlib.Nat.{mod-eq_of_lt, mod_self}

-- The slot behind a slot of a ring of `size` slots.
abbrev pub next_slot : (size i : ℕ) → ℕ
next_slot size i = (i + 1) % size

next_slot_lem : (size i : ℕ) → i < size → next_slot size i ≡ (if i + 1 == size then 0 else i + 1)
next_slot_lem size i h = elim (Bool-cases (i + 1 == size)) [
  | inl last ↦ let e : i + 1 ≡ size = ground (arith, last) in rw (last, e) (mod_self size)
  | inr inner ↦ rw inner (mod-eq_of_lt (ground arith))
]

-- How many items lie between a tail and a head.
abbrev pub amount : (size head tail : ℕ) → ℕ
amount size head tail = if leb tail head then head - tail else head + size - tail

module _ {ℓ} {A : Type ℓ} (d : A) (size : ℕ) where
  -- The `n` items from slot `at` on.
  abbrev pub items : List A → (at n : ℕ) → List A
  items buf at zero = []
  items buf at (suc n) = get_or buf at d ∷ items buf (next_slot size at) n

  pub length-items : (buf : List A) (at n : ℕ) → length (items buf at n) ≡ n
  length-items buf at zero = refl
  length-items buf at (suc n) = ap suc (length-items buf (next_slot size at) n)

  -- `end` is the slot `n` slots behind `at`.
  abbrev Behind : (at n end : ℕ) → Type 0
  Behind at n end = end ≡ (if ltb (at + n) size then at + n else at + n - size)

  items-set :
      (n : ℕ) (buf : List A) (at end : ℕ) (v : A)
      → length buf ≡ size
      → at < size
      → n < size
      → Behind at n end
      → items (set buf end v) at (suc n) ≡ items buf at n ++ (v ∷ [])
  items-set zero buf at end v room lt few e =
      let same : end ≡ at = ground (arith, e) in rw same (ground (arith, get_or-set buf at at v d))
  items-set (suc n) buf at end v room lt few e =
      let ne : (end == at) ≡ false = ground (arith, e) in
      let other : get_or (set buf end v) at d ≡ get_or buf at d =
        get_or-set buf end at v d (ground (arith, e)) ∙ rw ne in
      let s = next_slot_lem size at lt in
      rw (
        other,
        items-set n buf (next_slot size at) end v room (ground (arith, s)) (omega arith)
            (ground (arith, s, e)),
      )

  -- Head and tail of a ring are slots of its buffer.
  pub record IsRing (buf : List A) (head tail : ℕ) : Type 0 where
    pub room : length buf ≡ size
    pub head_in : head < size
    pub tail_in : tail < size

  -- What a ring holds.
  abbrev pub queued : List A → (head tail : ℕ) → List A
  queued buf head tail = items buf tail (amount size head tail)

  -- A write at the head, where a slot stays free behind it, adds an item at the end.
  pub queued-put :
      (buf : List A) (head tail : ℕ) (v : A)
      → IsRing buf head tail
      → next_slot size head ≢ tail
      → queued (set buf head v) (next_slot size head) tail ≡ queued buf head tail ++ (v ∷ [])
  queued-put buf head tail v r more =
      let s = next_slot_lem size head r.head_in in
      let e : amount size (next_slot size head) tail ≡ suc (amount size head tail) =
        ground (arith, s, more, r.head_in, r.tail_in) in
      rw e (
        items-set (amount size head tail) buf tail head v r.room r.tail_in
          (ground (arith, r.head_in, r.tail_in)) (ground (arith, r.head_in, r.tail_in)))

  pub put-IsRing :
      (buf : List A) (head tail : ℕ) (v : A)
      → IsRing buf head tail
      → IsRing (set buf head v) (next_slot size head) tail
  put-IsRing buf head tail v r = record {
    room = length-set buf head v ∙ r.room;
    head_in = ground (arith, next_slot_lem size head r.head_in, r.head_in);
    tail_in = r.tail_in;
  }

  -- Where the tail is not at the head, the item there is the oldest.
  pub queued-take :
      (buf : List A) (head tail : ℕ)
      → IsRing buf head tail
      → head ≢ tail
      → queued buf head tail ≡ get_or buf tail d ∷ queued buf head (next_slot size tail)
  queued-take buf head tail r some_item =
      let s = next_slot_lem size tail r.tail_in in
      let e : amount size head tail ≡ suc (amount size head (next_slot size tail)) =
        ground (arith, s, some_item, r.head_in, r.tail_in) in
      rw e

  pub take-IsRing :
      (buf : List A) (head tail : ℕ) → IsRing buf head tail → IsRing buf head (next_slot size tail)
  take-IsRing buf head tail r = record {
    room = r.room;
    head_in = r.head_in;
    tail_in = ground (arith, next_slot_lem size tail r.tail_in, r.tail_in);
  }

  pub queued_empty : (buf : List A) (at : ℕ) → queued buf at at ≡ []
  queued_empty buf at = let e : amount size at at ≡ 0 = ground arith in rw e

  -- A full ring lacks one item.
  pub length-queued_full :
      (buf : List A) (head tail : ℕ)
      → IsRing buf head tail
      → next_slot size head ≡ tail
      → suc (length (queued buf head tail)) ≡ size
  length-queued_full buf head tail r full =
      ap suc (length-items buf tail (amount size head tail))
      ∙ ground (arith, next_slot_lem size head r.head_in, full, r.head_in)

  pub length-queued_part :
      (buf : List A) (head tail : ℕ)
      → IsRing buf head tail
      → next_slot size head ≢ tail
      → suc (length (queued buf head tail)) < size
  length-queued_part buf head tail r part =
      let e = length-items buf tail (amount size head tail) in
      let s = next_slot_lem size head r.head_in in ground (arith, e, s, part, r.head_in, r.tail_in)
