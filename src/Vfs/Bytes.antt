-- ===== src/Vfs/Bytes.antt =====
-- Copies into a buffer, byte by byte.
use spike_os.Prelude.{
  ℕ, zero, suc, ◌+◌, ◌-◌, ◌*◌, ◌%◌, ◌^◌, ◌≤◌, ◌<◌, ◌≡◌, refl, true, ◌&&◌, List, [], ◌∷◌, ◌++◌,
  arith, ltb, leb, if◌then◌else◌, length, get_or, take, drop, length-take, length-drop, replicate,
  some, ap, Bool-cases, inl, inr,
}
use native.Mathlib.Nat.{pow-suc}
use spike_os.Vfs.{copy_at, double_until}

pub length-copy_at : (at : ℕ) (bs xs : List ℕ) → length (copy_at at bs xs) ≡ length xs
unfolding copy_at
length-copy_at at bs [] = refl
length-copy_at zero [] (x ∷ xs) = refl
length-copy_at zero (b ∷ bs) (x ∷ xs) = ap suc (length-copy_at zero bs xs)
length-copy_at (suc at) bs (x ∷ xs) = ap suc (length-copy_at at bs xs)

-- Each byte of the buffer behind a copy.
pub get_or-copy_at :
    (at : ℕ) (bs xs : List ℕ) (i : ℕ)
    → at + length bs ≤ length xs
    → get_or (copy_at at bs xs) i 0
      ≡ (if leb at i && ltb i (at + length bs) then get_or bs (i - at) 0 else get_or xs i 0)
unfolding copy_at
get_or-copy_at at bs [] i le = ground arith
get_or-copy_at zero [] (x ∷ xs) i le = ground arith
get_or-copy_at zero (b ∷ bs) (x ∷ xs) zero le = ground arith
get_or-copy_at zero (b ∷ bs) (x ∷ xs) (suc i) le =
    ground (arith, get_or-copy_at zero bs xs i (omega arith))
get_or-copy_at (suc at) bs (x ∷ xs) zero le = ground arith
get_or-copy_at (suc at) bs (x ∷ xs) (suc i) le =
    ground (arith, get_or-copy_at at bs xs i (omega arith))

-- The copied bytes can be read back.
pub take-copy_at :
    (at : ℕ) (bs xs : List ℕ)
    → at + length bs ≤ length xs
    → take (length bs) (drop at (copy_at at bs xs)) ≡ bs
unfolding copy_at
take-copy_at zero [] xs le = refl
take-copy_at zero (b ∷ bs) [] le = absurd (omega arith)
take-copy_at zero (b ∷ bs) (x ∷ xs) le = ap (λ t. b ∷ t) (take-copy_at zero bs xs (omega arith))
take-copy_at (suc at) bs [] le = absurd (omega arith)
take-copy_at (suc at) bs (x ∷ xs) le = take-copy_at at bs xs (omega arith)

pub get_or-replicate : (n i : ℕ) → get_or (replicate n zero) i zero ≡ zero
get_or-replicate zero i = refl
get_or-replicate (suc n) zero = refl
get_or-replicate (suc n) (suc i) = get_or-replicate n i

pub get_or-append : (xs ys : List ℕ) (i : ℕ) → i < length xs → get_or (xs ++ ys) i 0 ≡ get_or xs i 0
get_or-append [] ys i lt = elim lt [ ]
get_or-append (x ∷ xs) ys zero lt = refl
get_or-append (x ∷ xs) ys (suc i) lt = get_or-append xs ys i (omega arith)

-- The doublings reach an end of at most 2 ^ 31 before the fuel or the width is used up.
abbrev pub Reaches : (fuel room end : ℕ) → Type 0
Reaches fuel room end =
    (c : ℕ) × (double_until fuel room end ≡ some c) × (end ≤ c) × (room ≤ c) × (c < 2 ^ 32)

one_more :
    (fuel room end : ℕ)
    → ltb room end ≡ true
    → end ≤ 2 ^ 31
    → Reaches fuel (room * 2) end
    → Reaches (suc fuel) room end
unfolding double_until
one_more fuel room end t le (c, e, far, above, narrow) =
    let whole : room * 2 % 2 ^ 32 ≡ room * 2 = ground arith in
    (c, rw t (rw whole e), far, omega (arith, above), narrow)

pub double_until-enough :
    (fuel room end : ℕ)
    → 1 ≤ room
    → room < 2 ^ 32
    → end ≤ 2 ^ 31
    → end ≤ room * 2 ^ fuel
    → Reaches (suc fuel) room end
unfolding double_until
double_until-enough zero room end p q le reach = (room, ground arith, omega arith, omega arith, q)
double_until-enough (suc fuel) room end p q le reach = elim (Bool-cases (ltb room end)) [
  | inr f ↦ (room, rw f refl, ground arith, omega arith, q)
  | inl t ↦ one_more (suc fuel) room end t le (
      double_until-enough fuel (room * 2) end (omega arith) (ground arith) le
        (omega (arith, ap (λ (q : ℕ). room * q) (pow-suc 2 fuel))))
]

-- A piece of a buffer.
pub length-slice : (at n : ℕ) (xs : List ℕ) → at + n ≤ length xs → length (take n (drop at xs)) ≡ n
length-slice at n xs le = omega (arith, length-take n (drop at xs), length-drop at xs)

pub get_or-slice :
    (at n : ℕ) (xs : List ℕ) (i : ℕ)
    → i < n
    → get_or (take n (drop at xs)) i 0 ≡ get_or xs (at + i) 0
get_or-slice zero zero xs i lt = elim lt [ ]
get_or-slice zero (suc n) [] i lt = refl
get_or-slice zero (suc n) (x ∷ xs) zero lt = refl
get_or-slice zero (suc n) (x ∷ xs) (suc i) lt =
    ground (arith, get_or-slice zero n xs i (omega arith))
get_or-slice (suc at) zero xs i lt = elim lt [ ]
get_or-slice (suc at) (suc n) [] i lt = refl
get_or-slice (suc at) n (x ∷ xs) i lt = ground (arith, get_or-slice at n xs i lt)
