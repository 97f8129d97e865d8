-- ===== src/Prelude/Bits.antt =====
-- The bits of a native number, and the native `|`, `&` at a single bit, as arithmetic.
-- A C test `w & (1 << k)` is `bit_and w (2 ^ k)`, and `w |= 1 << k` is `bit_or w (2 ^ k)`.
use Prim.Native.Nat.{
  ℕ, zero, suc, ◌+◌, ◌-◌, ◌*◌, ◌/◌, ◌%◌, ◌^◌, ◌≤◌, ◌<◌, min, max, digits, bitwise, bit_and, bit_or,
  bit_and-bitwise, bit_or-bitwise,
}
use mathlib.Core.Path.{◌≡◌, refl, sym, ap, ◌∙◌}
use native.Mathlib.Nat.{pow-suc, one-le-pow}
use native.Mathlib.Omega.{arith}
use spike_os.Prelude.Tests.{◌==◌, if◌then◌else◌}

-- The recursion on digits that a native operation stands for, where `join` works on two digits and `tail`
-- is what is left of the second number when the first has run out. Fuel beyond the first number is unused.
module _ (tail : ℕ → ℕ) (join : ℕ → ℕ → ℕ) where
  same_digits :
      (bound fuel x y : ℕ)
      → x ≤ bound
      → x ≤ fuel
      → digits tail join fuel x y ≡ bitwise tail join x y
  same_digits bound zero zero y h k = refl
  same_digits bound (suc fuel) zero y h k = refl
  same_digits bound zero (suc x) y h k = elim k [ ]
  same_digits zero (suc fuel) (suc x) y h k = elim h [ ]
  same_digits (suc bound) (suc fuel) (suc x) y h k =
      let half = suc x / 2 in
      let left = same_digits bound fuel half (y / 2) (omega arith) (omega arith) in
      let right = same_digits bound x half (y / 2) (omega arith) (omega arith) in
      ap (λ q. q * 2 + join (suc x % 2) (y % 2)) (left ∙ sym right)

  -- A number that has not run out gives one digit and leaves its half.
  one_digit :
      (x y : ℕ)
      → bitwise tail join (suc x) y
        ≡ bitwise tail join (suc x / 2) (y / 2) * 2 + join (suc x % 2) (y % 2)
  one_digit x y =
      ap (λ q. q * 2 + join (suc x % 2) (y % 2))
        (same_digits x x (suc x / 2) (y / 2) (omega arith) (omega arith))

-- The half and the lowest digit of an `or` and of an `and`.
pub or_parts :
    (x y : ℕ) → (bit_or x y / 2 ≡ bit_or (x / 2) (y / 2)) × (bit_or x y % 2 ≡ max (x % 2) (y % 2))
or_parts zero y = simp bit_or-bitwise (omega arith, omega arith)
or_parts (suc x) y =
    let e = one_digit (λ q. q) max x y in simp bit_or-bitwise (omega (arith, e), omega (arith, e))

and_parts :
    (x y : ℕ)
    → (bit_and x y / 2 ≡ bit_and (x / 2) (y / 2)) × (bit_and x y % 2 ≡ min (x % 2) (y % 2))
and_parts zero y = simp bit_and-bitwise (omega arith, omega arith)
and_parts (suc x) y =
    let e = one_digit (λ q. 0) min x y in simp bit_and-bitwise (omega (arith, e), omega (arith, e))

-- Nothing is in common with 0, at any fuel.
and_nothing : (fuel x : ℕ) → digits (λ q. 0) min fuel x 0 ≡ 0
and_nothing zero x = refl
and_nothing (suc fuel) zero = refl
and_nothing (suc fuel) (suc x) = omega (arith, and_nothing fuel (suc x / 2))

bit_and-nothing : (x : ℕ) → bit_and x 0 ≡ 0
bit_and-nothing x = simp bit_and-bitwise (and_nothing x x)

-- The binary digit of `w` at place `k`.
unfoldable pub bit : ℕ → ℕ → ℕ
bit w zero = w % 2
bit w (suc k) = bit (w / 2) k

pub bit-lt : (w k : ℕ) → bit w k < 2
unfolding bit
bit-lt w zero = omega arith
bit-lt w (suc k) = bit-lt (w / 2) k

pub bit-bit_or : (a b k : ℕ) → bit (bit_or a b) k ≡ max (bit a k) (bit b k)
unfolding bit
bit-bit_or a b zero = (or_parts a b).1
bit-bit_or a b (suc k) = rw (or_parts a b).0 (bit-bit_or (a / 2) (b / 2) k)

pub bit-bit_and : (a b k : ℕ) → bit (bit_and a b) k ≡ min (bit a k) (bit b k)
unfolding bit
bit-bit_and a b zero = (and_parts a b).1
bit-bit_and a b (suc k) = rw (and_parts a b).0 (bit-bit_and (a / 2) (b / 2) k)

pub bit-zero : (k : ℕ) → bit 0 k ≡ 0
unfolding bit
bit-zero zero = refl
bit-zero (suc k) = bit-zero k

-- A power of two has one digit.
pub bit-pow : (j k : ℕ) → bit (2 ^ j) k ≡ (if j == k then 1 else 0)
unfolding bit
bit-pow zero zero = refl
bit-pow zero (suc k) = ground (arith, bit-zero k)
bit-pow (suc j) zero = ground (arith, pow-suc 2 j)
bit-pow (suc j) (suc k) =
    let e : 2 ^ suc j / 2 ≡ 2 ^ j = omega (arith, pow-suc 2 j) in rw e (ground (arith, bit-pow j k))

-- The complement within `n` digits.
pub bit-complement : (n b k : ℕ) → b < 2 ^ n → k < n → bit (2 ^ n - 1 - b) k ≡ 1 - bit b k
unfolding bit
bit-complement zero b k h lt = elim lt [ ]
bit-complement (suc n) b zero h lt = omega (arith, pow-suc 2 n, one-le-pow n 2)
bit-complement (suc n) b (suc k) h lt =
    let e : (2 ^ suc n - 1 - b) / 2 ≡ 2 ^ n - 1 - b / 2 = omega (arith, pow-suc 2 n) in
    rw e (bit-complement n (b / 2) k (omega (arith, pow-suc 2 n)) (omega arith))

-- `w & (1 << k)` is the digit, at its place.
pub bit_and-pow : (w k : ℕ) → bit_and w (2 ^ k) ≡ bit w k * 2 ^ k
unfolding bit
bit_and-pow w zero = omega (arith, (and_parts w 1).0, (and_parts w 1).1, bit_and-nothing (w / 2))
bit_and-pow w (suc k) =
    let e : 2 ^ suc k / 2 ≡ 2 ^ k = omega (arith, pow-suc 2 k) in
    let s : bit_and w (2 ^ suc k) ≡ bit_and (w / 2) (2 ^ k) * 2 =
      rw (← e)
        (omega (arith, (and_parts w (2 ^ suc k)).0, (and_parts w (2 ^ suc k)).1, pow-suc 2 k)) in
    omega (arith, s, bit_and-pow (w / 2) k, ap (λ (t : ℕ). bit (w / 2) k * t) (pow-suc 2 k))
