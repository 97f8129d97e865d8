-- ===== src/Paging/Words.antt =====
-- Entries of directories and tables: the address of a page with flags.
use Prim.Native.Nat.{bit_and, bit_or}
use native.Mathlib.Nat.{pow-suc, div-div-eq-div-mul}
use spike_os.Prelude.{sym, ◌∙◌, ℕ, zero, suc, ◌*◌, ◌/◌, ◌%◌, ◌^◌, ◌≤◌, ◌<◌, ◌≡◌, refl, true, arith}
use spike_os.Prelude.Bits.{or_parts, bit_and-pow, bit-lt}
use spike_os.Paging.{kernel_flags, page_user, page_of, is_present}

bit_or-nothing : (bound x : ℕ) → x ≤ bound → bit_or x 0 ≡ x
bit_or-nothing zero zero h = refl
bit_or-nothing zero (suc x) h = elim h [ ]
bit_or-nothing (suc bound) x h =
    omega (arith, (or_parts x 0).0, (or_parts x 0).1, bit_or-nothing bound (x / 2))

halves : (k x : ℕ) → x / 2 ^ suc k ≡ x / 2 / 2 ^ k
halves k x =
    let e : 2 ^ suc k ≡ 2 * 2 ^ k = omega (arith, pow-suc 2 k) in
    rw e (sym (div-div-eq-div-mul x 2 (2 ^ k)))

-- The flags stay below the address.
or-high : (k x y : ℕ) → y < 2 ^ k → bit_or x y / 2 ^ k ≡ x / 2 ^ k
or-high zero x y h = let e : y ≡ 0 = omega arith in rw (e, bit_or-nothing x x (omega arith))
or-high (suc k) x y h =
    halves k (bit_or x y)
    ∙ rw (or_parts x y).0
        (or-high k (x / 2) (y / 2) (omega (arith, pow-suc 2 k)) ∙ sym (halves k x))

pub page_of-entry : (x flags : ℕ) → flags < 4096 → page_of (bit_or x flags) ≡ page_of x
page_of-entry x flags h = or-high 12 x flags h

-- An entry made with PAGE_PRESENT is present.
pub is_present-entry : (x flags : ℕ) → flags % 2 ≡ 1 → is_present (bit_or x flags) ≡ true
is_present-entry x flags h = ground (arith, (or_parts x flags).1)

-- The entry of a new table: present, at the page of its frame.
pub table_entry :
    (pt user : ℕ)
    → user < 4096
    → (is_present (bit_or (bit_or pt kernel_flags) user) ≡ true)
      × (page_of (bit_or (bit_or pt kernel_flags) user) ≡ page_of pt)
table_entry pt user h = (
  ground (arith, (or_parts pt 3).1, (or_parts (bit_or pt 3) user).1),
  page_of-entry (bit_or pt 3) user h ∙ page_of-entry pt 3 (omega arith),
)

pub user_flag-lt : (x : ℕ) → bit_and x page_user < 4096
user_flag-lt x = omega (arith, bit_and-pow x 2, bit-lt x 2)
