-- ===== src/Net/Checksum.antt =====
-- The Internet checksum: what a sum with its own checksum in it gives.
use spike_os.Prelude.{
  ℕ, ◌+◌, ◌-◌, ◌*◌, ◌/◌, ◌%◌, ◌^◌, ◌<◌, ◌≡◌, ◌≢◌, refl, ◌==◌, if◌then◌else◌, [], ◌∷◌, arith, ◌∙◌,
  inl, inr, Bool-cases, length,
}
use spike_os.Net.{Bytes, sum_words, fold_carries, ip_checksum}

-- One round keeps the remainder by 65535, and is 0 only for 0.
abbrev round : ℕ → ℕ
round s = s % 2 ^ 16 + s / 2 ^ 16

round-rem : (s : ℕ) → round s % 65535 ≡ s % 65535
round-rem s = omega arith

-- What is left of a sum: 16 bits, the same remainder by 65535, and 0 only for 0.
pub record Folded (s r : ℕ) : Type 0 where
  pub narrow : r < 2 ^ 16
  pub rem : r % 65535 ≡ s % 65535
  pub nothing : r ≡ 0 → s ≡ 0
  pub empty : s ≡ 0 → r ≡ 0

Folded-round : (s r : ℕ) → Folded (round s) r → Folded s r
Folded-round s r f = record {
  narrow = f.narrow;
  rem = f.rem ∙ round-rem s;
  nothing = λ e. let z = f.nothing e in omega arith;
  empty = λ e. f.empty (omega arith);
}

Folded-narrow : (s : ℕ) → s < 2 ^ 16 → Folded s s
Folded-narrow s h = record { narrow = h; rem = refl; nothing = λ e. e; empty = λ e. e }

-- Two rounds of the loop are enough for a 32-bit sum.
pub fold_carries-Folded : (s : ℕ) → s < 2 ^ 32 → Folded s (fold_carries 2 s)
unfolding fold_carries
fold_carries-Folded s h = elim (Bool-cases (s / 2 ^ 16 == 0)) [
  | inl done ↦ rw done (Folded-narrow s (ground arith))
  | inr more ↦ rw more (elim (Bool-cases (round s / 2 ^ 16 == 0)) [
    | inl done ↦ rw done (Folded-round s _ (Folded-narrow _ (ground arith)))
    | inr again ↦
        rw again (Folded-round s _ (Folded-round (round s) _ (Folded-narrow _ (omega arith))))
  ])
]

-- The sum of the words, with no bound.
unfoldable pub total : Bytes → ℕ
total [] = 0
total (b ∷ []) = b
total (b ∷ (c ∷ bs)) = b + 256 * c + total bs

abbrev pub AllBytes : Bytes → Type 0
AllBytes [] = Unit {0}
AllBytes (b ∷ bs) = (b < 256) × AllBytes bs

-- The 32-bit sum of fewer than 2 ^ 16 bytes does not wrap.
pub sum_words-total :
    (bs : Bytes) (s : ℕ)
    → AllBytes bs
    → s + 65536 * length bs < 2 ^ 32
    → sum_words bs s ≡ s + total bs
unfolding sum_words total
sum_words-total [] s a h = omega arith
sum_words-total (b ∷ []) s a h = omega arith
sum_words-total (b ∷ (c ∷ bs)) s (p, (q, a)) h =
    let e : (s + (b + 256 * c)) % 2 ^ 32 ≡ s + (b + 256 * c) = omega arith in
    rw e (omega (arith, sum_words-total bs (s + (b + 256 * c)) a))

pub sum_words-lt : (bs : Bytes) (s : ℕ) → s < 2 ^ 32 → sum_words bs s < 2 ^ 32
unfolding sum_words
sum_words-lt [] s h = h
sum_words-lt (b ∷ []) s h = omega arith
sum_words-lt (b ∷ (c ∷ bs)) s h = sum_words-lt bs _ (omega arith)

pub ip_checksum-lt : (bs : Bytes) → ip_checksum bs < 2 ^ 16
unfolding ip_checksum
ip_checksum-lt bs = omega arith

-- Two packets of which one has the checksum of the other added to its words: its own checksum is 0.
pub checksum_verifies :
    (bs cs : Bytes)
    → AllBytes bs
    → AllBytes cs
    → length bs < 2 ^ 16
    → length cs < 2 ^ 16
    → total cs ≡ total bs + ip_checksum bs
    → ip_checksum cs ≡ 0
unfolding ip_checksum
checksum_verifies bs cs a b h k e =
    let s = sum_words-total bs 0 a (omega arith) in
    let t = sum_words-total cs 0 b (omega arith) in
    let f = fold_carries-Folded (sum_words bs 0) (sum_words-lt bs 0 (omega arith)) in
    let g = fold_carries-Folded (sum_words cs 0) (sum_words-lt cs 0 (omega arith)) in
    elim (Bool-cases (fold_carries 2 (sum_words cs 0) == 0)) [
      | inr some_sum ↦ ground (arith, f.narrow, f.rem, g.narrow, g.rem, some_sum)
      | inl no_sum ↦
          let z : sum_words cs 0 ≡ 0 = g.nothing (ground arith) in
          let z' : sum_words bs 0 ≡ 0 = omega arith in absurd (omega (arith, f.empty z'))
    ]

-- One's complement addition of any number of 16-bit words: the remainder by 65535, as 65535 where the sum
-- is not 0.
abbrev pub ones_sum : ℕ → ℕ
ones_sum s = if s == 0 then 0 else (s - 1) % 65535 + 1

-- For fewer than 2 ^ 16 bytes the 32-bit sum with its carries folded back computes the complement of the
-- one's complement sum of the words, which has no bound on its width.
pub ip_checksum-ones_sum :
    (bs : Bytes) → AllBytes bs → length bs < 2 ^ 16 → ip_checksum bs ≡ 65535 - ones_sum (total bs)
unfolding ip_checksum
ip_checksum-ones_sum bs a h =
    let s = sum_words-total bs 0 a (omega arith) in
    let f = fold_carries-Folded (sum_words bs 0) (sum_words-lt bs 0 (omega arith)) in
    elim (Bool-cases (total bs == 0)) [
      | inl no_sum ↦ let z = f.empty (ground (arith, s)) in ground (arith, z)
      | inr some_sum ↦
          let z : fold_carries 2 (sum_words bs 0) ≢ 0 =
            λ e. let y = f.nothing e in ground (arith, s) in
          ground (arith, f.narrow, f.rem, s, z)
    ]
