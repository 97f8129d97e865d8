-- ===== src/Prelude/Search.antt =====
-- A counting loop that stops at the first index that passes a test.
use spike_os.Prelude.{
  dec_lt, ◌∙◌, ap, ℕ, zero, suc, ◌+◌, ◌≤◌, ◌<◌, ◌≡◌, refl, Bool, true, false, Option, none, some,
  arith, if◌then◌else◌, Bool-cases, inl, inr, ◌⊎◌,
}

-- `n` indices from `i` on.
unfoldable pub search : (ℕ → Bool) → ℕ → ℕ → Option ℕ
search test zero i = none
search test (suc n) i = let rest = search test n (suc i) in if test i then some i else rest

pub data Found (test : ℕ → Bool) (n i : ℕ) (r : Option ℕ) : Type 0 where
  found :
      (k : ℕ)
      → i ≤ k
      → k < i + n
      → test k ≡ true
      → ((j : ℕ) → i ≤ j → j < k → test j ≡ false)
      → r ≡ some k
      → Found test n i r
  missing : ((j : ℕ) → i ≤ j → j < i + n → test j ≡ false) → r ≡ none → Found test n i r

module _ (test : ℕ → Bool) where
  at_first : (i j : ℕ) → test i ≡ false → (suc i ≤ j → test j ≡ false) → i ≤ j → test j ≡ false
  at_first i j f later le = elim (split i j le) [ inl e ↦ rw (← e) f | inr lt ↦ later lt ]
    where
      split : (i j : ℕ) → i ≤ j → (i ≡ j) ⊎ (suc i ≤ j)
      split i j le = omega arith

  further :
      (n i : ℕ) (r : Option ℕ) → test i ≡ false → Found test n (suc i) r → Found test (suc n) i r
  further n i r f (found k le lt t before e) =
      found k (omega arith) (omega arith) t (λ j jle jlt. at_first i j f (λ s. before j s jlt) jle)
        e
  further n i r f (missing all e) =
      missing (λ j jle jlt. at_first i j f (λ s. all j s (omega arith)) jle) e

  pub search-Found : (n i : ℕ) → Found test n i (search test n i)
  unfolding search
  search-Found zero i = missing (λ j le lt. absurd (omega arith)) refl
  search-Found (suc n) i = elim (Bool-cases (test i)) [
    | inl t ↦ rw t (found i (omega arith) (omega arith) t (λ j le lt. absurd (omega arith)) refl)
    | inr f ↦ rw f (further n i _ f (search-Found n (suc i)))
  ]

  -- The first index that passes is the one found.
  pub search-first :
      (n i k : ℕ)
      → i ≤ k
      → k < i + n
      → test k ≡ true
      → ((j : ℕ) → i ≤ j → j < k → test j ≡ false)
      → search test n i ≡ some k
  search-first n i k le lt t before = go (search-Found n i)
    where
      go : Found test n i (search test n i) → search test n i ≡ some k
      go (missing all e) = absurd (ground (arith, all k le lt))
      go (found j le' lt' t' before' e) = elim (dec_lt j k) [
        | yes s ↦ absurd (ground (arith, before j le' s))
        | no ge ↦ elim (dec_lt k j) [
          | yes s ↦ absurd (ground (arith, before' k le s))
          | no ge' ↦ e ∙ ap some (omega arith)
        ]
      ]
