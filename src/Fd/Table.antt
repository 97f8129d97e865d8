-- ===== src/Fd/Table.antt =====
-- Which slot and which descriptor an allocation takes.
use spike_os.Prelude.{
  ℕ, zero, suc, ◌+◌, ◌<◌, ◌≡◌, refl, Bool, true, false, Option, none, some, List, [], ◌∷◌, arith,
  length, get_or, Bool-cases, inl, inr, ◌∙◌, ap,
}
use spike_os.Fd.{OpenFile, zero_file, is_unused, FdTable, first_unused, first_free, alloc_fd}

-- A search from place `i` over `xs`: the first entry that passes the test, or none that does.
pub data First {A : Type 0} (test : A → Bool) (d : A) (xs : List A) (i : ℕ) (r : Option ℕ)
    : Type 0 where
  hit :
      (k : ℕ)
      → k < length xs
      → test (get_or xs k d) ≡ true
      → ((j : ℕ) → j < k → test (get_or xs j d) ≡ false)
      → r ≡ some (i + k)
      → First test d xs i r
  miss : ((j : ℕ) → j < length xs → test (get_or xs j d) ≡ false) → r ≡ none → First test d xs i r

module _ {A : Type 0} (test : A → Bool) (d : A) where
  pub First-here : (x : A) (xs : List A) (i : ℕ) → test x ≡ true → First test d (x ∷ xs) i (some i)
  First-here x xs i t =
      hit zero (omega arith) t (λ j lt. absurd (omega arith)) (ap some (omega arith))

  pub First-there :
      (x : A) (xs : List A) (i : ℕ) (r : Option ℕ)
      → test x ≡ false
      → First test d xs (suc i) r
      → First test d (x ∷ xs) i r
  First-there x xs i r f (hit k lt t before e) =
      hit (suc k) (omega arith) t earlier (e ∙ ap some (omega arith))
    where
      earlier : (j : ℕ) → j < suc k → test (get_or (x ∷ xs) j d) ≡ false
      earlier zero lt' = f
      earlier (suc j) lt' = before j (omega arith)
  First-there x xs i r f (miss all e) = miss others e
    where
      others : (j : ℕ) → j < length (x ∷ xs) → test (get_or (x ∷ xs) j d) ≡ false
      others zero lt = f
      others (suc j) lt = all j (omega arith)

pub first_unused-First :
    (ofs : List OpenFile) (i : ℕ)
    → First (λ (of : OpenFile). is_unused of.kind) zero_file ofs i (first_unused ofs i)
unfolding first_unused
first_unused-First [] i = miss (λ j lt. absurd (omega arith)) refl
first_unused-First (of ∷ ofs) i = elim (Bool-cases (is_unused of.kind)) [
  | inl t ↦ rw t (First-here (λ (f : OpenFile). is_unused f.kind) zero_file of ofs i t)
  | inr f ↦ rw f (
      First-there (λ (g : OpenFile). is_unused g.kind) zero_file of ofs i _ f
        (first_unused-First ofs (suc i)))
]

-- An entry of a descriptor table that is -1.
abbrev pub is_free : Option ℕ → Bool
is_free none = true
is_free (some i) = false

first_free-First : (fds : FdTable) (i : ℕ) → First is_free (some 0) fds i (first_free fds i)
unfolding first_free
first_free-First [] i = miss (λ j lt. absurd (omega arith)) refl
first_free-First (none ∷ fds) i = First-here is_free (some 0) none fds i refl
first_free-First (some j ∷ fds) i =
    First-there is_free (some 0) (some j) fds i _ refl (first_free-First fds (suc i))

-- `alloc_fd` returns the lowest descriptor that is -1, or -1 if there is none.
pub alloc_fd_lem : (fds : FdTable) → First is_free (some 0) fds 0 (alloc_fd fds)
unfolding alloc_fd
alloc_fd_lem fds = first_free-First fds 0
