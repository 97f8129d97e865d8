-- ===== src/Vfs/Tree/Found.antt =====
-- A table that keeps the directories and the names of another resolves a new path as far as it.
use mathlib.Core.Option.{some_inj}
use spike_os.Prelude.{
  ℕ, zero, suc, ◌≤◌, ◌≡◌, refl, true, false, Option, none, some, List, [], ◌∷◌, ◌++◌, arith, ◌==◌,
  length, take, Bool-cases, inl, inr, ap, ◌⊎◌,
}
use spike_os.Vfs.Tree.{
  Name, max_name, slash, Component, ends, too_long, component, copy_name, check_end, next_name,
  skip_slashes, path_next_component, Dirent, Inodes, node_at, is_directory, same_name, find_entry,
  dir_lookup, Resolved, resolve_from, resolve_first, resolve_rest, start_inode, vfs_resolve,
}

-- Names of a path fit an entry.
length-copied : (n : ℕ) (p : Name) → length (copy_name n p).0 ≤ n
unfolding copy_name
length-copied zero p = omega arith
length-copied (suc n) [] = omega arith
length-copied (suc n) (c ∷ p) = ground (arith, length-copied n p)

abbrev Short : Component → Type 0
Short ends = Unit
Short too_long = Unit
Short (component name rest) = length name ≤ max_name

check_end-Short : (r : Name × Name) → length r.0 ≤ max_name → Short (check_end r)
unfolding check_end
check_end-Short (name, []) le = le
check_end-Short (name, c ∷ rest) le = elim (Bool-cases (c == slash)) [
  | inl e ↦ rw e le
  | inr f ↦ rw f tt
]

next_name-Short : (p : Name) → Short (next_name p)
unfolding next_name
next_name-Short [] = tt
next_name-Short (c ∷ p) =
    check_end-Short (copy_name max_name (c ∷ p)) (length-copied max_name (c ∷ p))

path_next_component-Short : (p : Name) → Short (path_next_component p)
unfolding path_next_component
path_next_component-Short p = next_name-Short (skip_slashes p)

pub take_all : (n : ℕ) (name : Name) → length name ≤ n → take n name ≡ name
take_all zero [] le = refl
take_all zero (c ∷ cs) le = absurd (omega (arith, le))
take_all (suc n) [] le = refl
take_all (suc n) (c ∷ cs) le = ap (λ r. c ∷ r) (take_all n cs (omega (arith, le)))

same_name_refl : (name : Name) → same_name name name ≡ true
unfolding same_name
same_name_refl [] = refl
same_name_refl (c ∷ cs) = ground (arith, same_name_refl cs)

-- Entries that are added last.
pub find_entry-append :
    (name : Name) (es fs : List Dirent) (i : ℕ)
    → find_entry name es ≡ some i
    → find_entry name (es ++ fs) ≡ some i
unfolding find_entry
find_entry-append name [] fs i e = absurd (ground (arith, e))
find_entry-append name (d ∷ es) fs i e = elim (Bool-cases (same_name d.name name)) [
  | inl s ↦ rw s (rw s at e)
  | inr f ↦ rw f (find_entry-append name es fs i (rw f at e))
]

pub find_entry-last :
    (name : Name) (es : List Dirent) (i : ℕ)
    → find_entry name es ≡ none
    → find_entry name (es ++ (record { name = name; inode = i } ∷ [])) ≡ some i
unfolding find_entry
find_entry-last name [] i e = rw (same_name_refl name) refl
find_entry-last name (d ∷ es) i e = elim (Bool-cases (same_name d.name name)) [
  | inl s ↦ absurd (ground (arith, rw s at e))
  | inr f ↦ rw f (find_entry-last name es i (rw f at e))
]

-- The table `t'` finds what `t` finds.
module _ (t t' : Inodes)
    (dirs : (i : ℕ)
      → is_directory (node_at t i).type ≡ true
      → is_directory (node_at t' i).type ≡ true)
    (keep : (d : ℕ) (name : Name) (i : ℕ)
      → dir_lookup t d name ≡ some i
      → dir_lookup t' d name ≡ some i) where
  resolve_from-kept :
      (fuel cur : ℕ) (comp p : Name) (parent : ℕ) (leaf : Name)
      → length comp ≤ max_name
      → resolve_from t fuel cur comp p ≡ some (some (parent, leaf), none)
      → (resolve_from t' fuel cur comp p ≡ some (some (parent, leaf), dir_lookup t' parent leaf))
        × (length leaf ≤ max_name)
  unfolding resolve_from
  resolve_from-kept zero cur comp p parent leaf le e = absurd (ground (arith, e))
  resolve_from-kept (suc fuel) cur comp p parent leaf le e =
      go (λ ino next rest. resolve_from-kept fuel ino next rest parent leaf) (path_next_component p)
        (path_next_component-Short p) e
    where
      Again : Type 0
      Again =
          (ino : ℕ) (next rest : Name)
          → length next ≤ max_name
          → resolve_from t fuel ino next rest ≡ some (some (parent, leaf), none)
          → (resolve_from t' fuel ino next rest
              ≡ some (some (parent, leaf), dir_lookup t' parent leaf))
            × (length leaf ≤ max_name)

      Goal : Option Resolved → Type 0
      Goal r =
          (r ≡ some (some (parent, leaf), dir_lookup t' parent leaf)) × (length leaf ≤ max_name)

      enter :
          Again
          → (next rest : Name) (found found' : Option ℕ) → length next ≤ max_name
          → ((i : ℕ) → found ≡ some i → found' ≡ some i)
          → (elim found as (λ o. Option Resolved) [
            | none ↦ some (none, none)
            | some ino ↦ elim (is_directory (node_at t ino).type) [
              | true ↦ resolve_from t fuel ino next rest
              | false ↦ some (none, none)
            ]
          ])
            ≡ some (some (parent, leaf), none)
          → Goal (elim found' [
            | none ↦ some (none, none)
            | some ino ↦ elim (is_directory (node_at t' ino).type) [
              | true ↦ resolve_from t' fuel ino next rest
              | false ↦ some (none, none)
            ]
          ])
      enter again next rest none found' short same eq = absurd (ground (arith, eq))
      enter again next rest (some ino) found' short same eq =
          rw (same ino refl) (deeper (Bool-cases (is_directory (node_at t ino).type)))
        where
          deeper :
              (is_directory (node_at t ino).type ≡ true)
                ⊎ (is_directory (node_at t ino).type ≡ false)
              → Goal (elim (is_directory (node_at t' ino).type) [
                | true ↦ resolve_from t' fuel ino next rest
                | false ↦ some (none, none)
              ])
          deeper (inl d) = rw (dirs ino d) (again ino next rest short (rw d at eq))
          deeper (inr f) = absurd (ground (arith, rw f at eq))

      go :
          Again
          → (c : Component) → Short c
          → (elim c as (λ o. Option Resolved) [
            | too_long ↦ some (none, none)
            | ends ↦ some (some (cur, comp), dir_lookup t cur comp)
            | component next rest ↦ elim (dir_lookup t cur comp) [
              | none ↦ some (none, none)
              | some ino ↦ elim (is_directory (node_at t ino).type) [
                | true ↦ resolve_from t fuel ino next rest
                | false ↦ some (none, none)
              ]
            ]
          ])
            ≡ some (some (parent, leaf), none)
          → Goal (elim c [
            | too_long ↦ some (none, none)
            | ends ↦ some (some (cur, comp), dir_lookup t' cur comp)
            | component next rest ↦ elim (dir_lookup t' cur comp) [
              | none ↦ some (none, none)
              | some ino ↦ elim (is_directory (node_at t' ino).type) [
                | true ↦ resolve_from t' fuel ino next rest
                | false ↦ some (none, none)
              ]
            ]
          ])
      go again ends short eq =
          let q : (cur, comp) ≡ (parent, leaf) =
            some_inj.0 (ap (λ (r : Resolved). r.0) (some_inj.0 eq)) in
          (
            ap (λ (k : ℕ × Name). some (some k, dir_lookup t' k.0 k.1)) q,
            omega (arith, le, ap (λ (k : ℕ × Name). length k.1) q),
          )
      go again too_long short eq = absurd (ground (arith, eq))
      go again (component next rest) short eq =
          enter again next rest (dir_lookup t cur comp) (dir_lookup t' cur comp) short
            (keep cur comp) eq

  pub vfs_resolve-kept :
      (cwd : ℕ) (path : Name) (parent : ℕ) (leaf : Name)
      → vfs_resolve t cwd path ≡ some (some (parent, leaf), none)
      → (vfs_resolve t' cwd path ≡ some (some (parent, leaf), dir_lookup t' parent leaf))
        × (length leaf ≤ max_name)
  unfolding vfs_resolve resolve_rest resolve_first
  vfs_resolve-kept cwd path parent leaf = go (skip_slashes path)
    where
      Goal : Option Resolved → Type 0
      Goal r =
          (r ≡ some (some (parent, leaf), dir_lookup t' parent leaf)) × (length leaf ≤ max_name)

      first :
          (c : Component)
          → Short c
          → resolve_first t (start_inode cwd path) c ≡ some (some (parent, leaf), none)
          → Goal (resolve_first t' (start_inode cwd path) c)
      first ends short eq = absurd (ground (arith, eq))
      first too_long short eq = absurd (ground (arith, eq))
      first (component name rest) short eq =
          resolve_from-kept (suc (length rest)) (start_inode cwd path) name rest parent leaf short
            eq

      go :
          (s : Name)
          → resolve_rest t (start_inode cwd path) path s ≡ some (some (parent, leaf), none)
          → Goal (resolve_rest t' (start_inode cwd path) path s)
      go [] eq = absurd (ground (arith, eq))
      go (c ∷ s) eq = first (path_next_component path) (path_next_component-Short path) eq
