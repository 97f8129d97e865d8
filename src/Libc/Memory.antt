-- ===== src/Libc/Memory.antt =====
-- The memory functions of userland/libc/string.c on a memory of bytes: addresses are places in a list.
use spike_os.Prelude.{
  ℕ, zero, suc, ◌+◌, ◌-◌, ◌%◌, ◌≤◌, ◌≡◌, refl, true, false, ◌&&◌, List, ◌==◌, ltb, leb,
  if◌then◌else◌, get_or, set, length, arith, ◌∙◌, ap, sym, get_or-set, length-set, Bool-cases, inl,
  inr,
}

abbrev pub Memory : Type 0
Memory = List ℕ

abbrev pub byte_at : Memory → ℕ → ℕ
byte_at m i = get_or m i 0

-- The loop of `memcpy`, and of `memmove` where the destination lies below the source: from the first byte on.
unfoldable pub copy_up : (d s n : ℕ) → Memory → Memory
copy_up d s zero m = m
copy_up d s (suc n) m = copy_up (d + 1) (s + 1) n (set m d (byte_at m s))

-- The other loop of `memmove`: from the last byte down.
unfoldable pub copy_down : (d s n : ℕ) → Memory → Memory
copy_down d s zero m = m
copy_down d s (suc n) m = copy_down d s n (set m (d + n) (byte_at m (s + n)))

unfoldable pub memcpy : (d s n : ℕ) → Memory → Memory
memcpy d s n m = copy_up d s n m

unfoldable pub memmove : (d s n : ℕ) → Memory → Memory
memmove d s n m = if ltb d s then copy_up d s n m else copy_down d s n m

unfoldable pub memset : (d c n : ℕ) → Memory → Memory
memset d c zero m = m
memset d c (suc n) m = memset (d + 1) c n (set m d (c % 256))

-- `memcmp` up to the sign of its result: the first difference decides.
pub data Order : Type 0 where
  less equal greater : Order

unfoldable pub memcmp : (a b n : ℕ) → Memory → Order
memcmp a b zero m = equal
memcmp a b (suc n) m =
    let rest = memcmp (a + 1) (b + 1) n m in
    if ltb (byte_at m a) (byte_at m b)
    then less
    else if ltb (byte_at m b) (byte_at m a)
    then greater
    else rest

-- A byte behind a copy of `n` bytes from `s` to `d`.
abbrev pub copied : (d s n : ℕ) → Memory → ℕ → ℕ
copied d s n m i = if leb d i && ltb i (d + n) then byte_at m (s + (i - d)) else byte_at m i

-- One byte of each loop.
up_step :
    (n d s : ℕ) (m : Memory) (i : ℕ)
    → d ≤ s
    → byte_at (set m d (byte_at m s)) (s + 1 + (i - (d + 1)))
      ≡ (if d == s + 1 + (i - (d + 1)) then byte_at m s else byte_at m (s + 1 + (i - (d + 1))))
    → byte_at (set m d (byte_at m s)) i ≡ (if d == i then byte_at m s else byte_at m i)
    → copied (d + 1) (s + 1) n (set m d (byte_at m s)) i ≡ copied d s (suc n) m i
up_step n d s m i below there here = elim (Bool-cases (leb (d + 1) i && ltb i (d + 1 + n))) [
  | inl inside ↦
      let e : s + 1 + (i - (d + 1)) ≡ s + (i - d) = ground (arith, inside) in
      let ne : (d == s + 1 + (i - (d + 1))) ≡ false = ground (arith, below) in
      let f : (leb d i && ltb i (d + suc n)) ≡ true = ground (arith, inside) in
      rw (inside, f) (there ∙ rw ne (ap (byte_at m) e))
  | inr outside ↦ elim (Bool-cases (d == i)) [
    | inl this ↦
        let f : (leb d i && ltb i (d + suc n)) ≡ true = ground (arith, this) in
        let e : s + (i - d) ≡ s = ground (arith, this) in
        rw (outside, f) (here ∙ rw this (ap (byte_at m) (sym e)))
    | inr other ↦
        let f : (leb d i && ltb i (d + suc n)) ≡ false = ground (arith, outside, other) in
        rw (outside, f) (here ∙ rw other refl)
  ]
]

down_step :
    (n d s : ℕ) (m : Memory) (i : ℕ)
    → s ≤ d
    → byte_at (set m (d + n) (byte_at m (s + n))) (s + (i - d))
      ≡ (if d + n == s + (i - d) then byte_at m (s + n) else byte_at m (s + (i - d)))
    → byte_at (set m (d + n) (byte_at m (s + n))) i
      ≡ (if d + n == i then byte_at m (s + n) else byte_at m i)
    → copied d s n (set m (d + n) (byte_at m (s + n))) i ≡ copied d s (suc n) m i
down_step n d s m i above there here = elim (Bool-cases (leb d i && ltb i (d + n))) [
  | inl inside ↦
      let ne : (d + n == s + (i - d)) ≡ false = ground (arith, inside) in
      let f : (leb d i && ltb i (d + suc n)) ≡ true = ground (arith, inside) in
      rw (inside, f) (there ∙ rw ne refl)
  | inr outside ↦ elim (Bool-cases (d + n == i)) [
    | inl this ↦
        let f : (leb d i && ltb i (d + suc n)) ≡ true = ground (arith, this) in
        let e : s + (i - d) ≡ s + n = ground (arith, this) in
        rw (outside, f) (here ∙ rw this (ap (byte_at m) (sym e)))
    | inr other ↦
        let f : (leb d i && ltb i (d + suc n)) ≡ false = ground (arith, outside, other) in
        rw (outside, f) (here ∙ rw other refl)
  ]
]

copy_up_lem :
    (n d s : ℕ) (m : Memory) (i : ℕ)
    → d ≤ s
    → d + n ≤ length m
    → byte_at (copy_up d s n m) i ≡ copied d s n m i
unfolding copy_up
copy_up_lem zero d s m i below room = ground arith
copy_up_lem (suc n) d s m i below room =
    let v = byte_at m s in
    let rest =
      copy_up_lem n (d + 1) (s + 1) (set m d v) i (omega arith) (omega (arith, length-set m d v)) in
    let there = get_or-set m d (s + 1 + (i - (d + 1))) v 0 (omega arith) in
    let here = get_or-set m d i v 0 (omega arith) in rest ∙ up_step n d s m i below there here

copy_down_lem :
    (n d s : ℕ) (m : Memory) (i : ℕ)
    → s ≤ d
    → d + n ≤ length m
    → byte_at (copy_down d s n m) i ≡ copied d s n m i
unfolding copy_down
copy_down_lem zero d s m i above room = ground arith
copy_down_lem (suc n) d s m i above room =
    let v = byte_at m (s + n) in
    let rest =
      copy_down_lem n d s (set m (d + n) v) i above (omega (arith, length-set m (d + n) v)) in
    let there = get_or-set m (d + n) (s + (i - d)) v 0 (omega arith) in
    let here = get_or-set m (d + n) i v 0 (omega arith) in
    rest ∙ down_step n d s m i above there here

-- `memmove` within the memory moves the bytes that were there, even where source and destination overlap,
-- and writes no other byte.
pub memmove-copied :
    (d s n : ℕ) (m : Memory) (i : ℕ)
    → d + n ≤ length m
    → byte_at (memmove d s n m) i ≡ copied d s n m i
unfolding memmove
memmove-copied d s n m i room = elim (Bool-cases (ltb d s)) [
  | inl up ↦ rw up (copy_up_lem n d s m i (ground (arith, up)) room)
  | inr down ↦ rw down (copy_down_lem n d s m i (ground (arith, down)) room)
]
