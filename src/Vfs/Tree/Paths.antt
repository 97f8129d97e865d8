-- ===== src/Vfs/Tree/Paths.antt =====
-- The loop of `vfs_resolve` ends: each component is shorter than the path it is taken from.
use spike_os.Prelude.{
  ℕ, zero, suc, ◌≤◌, ◌<◌, ◌≡◌, refl, true, false, Option, none, some, [], ◌∷◌, ◌==◌, length, arith,
  Bool-cases, inl, inr,
}
use spike_os.Vfs.Tree.{
  Name, max_name, slash, Component, ends, too_long, component, skip_slashes, copy_name, check_end,
  next_name, path_next_component, Inodes, node_at, is_directory, dir_lookup, Resolved, resolve_from,
  resolve_first, resolve_rest, start_inode, vfs_resolve,
}

length-skip_slashes : (p : Name) → length (skip_slashes p) ≤ length p
unfolding skip_slashes
length-skip_slashes [] = omega arith
length-skip_slashes (c ∷ p) = ground (arith, length-skip_slashes p)

length-copy_name : (n : ℕ) (p : Name) → length (copy_name n p).1 ≤ length p
unfolding copy_name
length-copy_name zero p = omega arith
length-copy_name (suc n) [] = omega arith
length-copy_name (suc n) (c ∷ p) = ground (arith, length-copy_name n p)

-- A component that leaves less than the bound.
data Shorter (bound : ℕ) : Component → Type 0 where
  at_end : Shorter bound ends
  refused : Shorter bound too_long
  taken : (name rest : Name) → length rest < bound → Shorter bound (component name rest)

check_end-Shorter : (bound : ℕ) (r : Name × Name) → length r.1 < bound → Shorter bound (check_end r)
unfolding check_end
check_end-Shorter bound (name, []) lt = taken name [] lt
check_end-Shorter bound (name, c ∷ rest) lt = elim (Bool-cases (c == slash)) [
  | inl t ↦ rw t (taken name (c ∷ rest) lt)
  | inr f ↦ rw f refused
]

-- A first byte that is no slash is copied.
copy_name-moves :
    (n c : ℕ) (p : Name)
    → (c == slash) ≡ false
    → length (copy_name (suc n) (c ∷ p)).1 < length (c ∷ p)
unfolding copy_name
copy_name-moves n c p f = ground (arith, f, length-copy_name n p)

data Stripped : Name → Type 0 where
  nothing : Stripped []
  name_next : (c : ℕ) (p : Name) → (c == slash) ≡ false → Stripped (c ∷ p)

skip_slashes-Stripped : (p : Name) → Stripped (skip_slashes p)
unfolding skip_slashes
skip_slashes-Stripped [] = nothing
skip_slashes-Stripped (c ∷ p) = elim (Bool-cases (c == slash)) [
  | inl t ↦ rw t (skip_slashes-Stripped p)
  | inr f ↦ rw f (name_next c p f)
]

next_name-Shorter :
    (bound : ℕ) (p : Name) → Stripped p → length p ≤ bound → Shorter bound (next_name p)
unfolding next_name
next_name-Shorter bound _ nothing le = at_end
next_name-Shorter bound _ (name_next c p f) le =
    check_end-Shorter bound (copy_name max_name (c ∷ p)) (omega (arith, copy_name-moves 58 c p f))

path_next_component-Shorter : (p : Name) → Shorter (length p) (path_next_component p)
unfolding path_next_component
path_next_component-Shorter p =
    next_name-Shorter (length p) (skip_slashes p) (skip_slashes-Stripped p) (length-skip_slashes p)

abbrev pub Returns : Option Resolved → Type 0
Returns result = (r : Resolved) × (result ≡ some r)

-- The loop ends when the fuel exceeds the length of the path that is left.
resolve_from-Returns :
    (t : Inodes) (fuel cur : ℕ) (comp p : Name)
    → length p < fuel
    → Returns (resolve_from t fuel cur comp p)
unfolding resolve_from
resolve_from-Returns t zero cur comp p lt = elim lt [ ]
resolve_from-Returns t (suc fuel) cur comp p lt =
    go (λ ino next rest le. resolve_from-Returns t fuel ino next rest le) (path_next_component p)
      (path_next_component-Shorter p)
  where
    enter :
        ((ino : ℕ) (next rest : Name)
          → length rest < fuel
          → Returns (resolve_from t fuel ino next rest))
        → (next rest : Name) (found : Option ℕ) → length rest < fuel
        → Returns (elim found [
          | none ↦ some (none, none)
          | some ino ↦ elim (is_directory (node_at t ino).type) [
            | true ↦ resolve_from t fuel ino next rest
            | false ↦ some (none, none)
          ]
        ])
    enter again next rest none le = (_, refl)
    enter again next rest (some ino) le = elim (Bool-cases (is_directory (node_at t ino).type)) [
      | inl e ↦ rw e (again ino next rest le)
      | inr e ↦ rw e (_, refl)
    ]

    go :
        ((ino : ℕ) (next rest : Name)
          → length rest < fuel
          → Returns (resolve_from t fuel ino next rest))
        → (c : Component) → Shorter (length p) c
        → Returns (elim c [
          | too_long ↦ some (none, none)
          | ends ↦ some (some (cur, comp), dir_lookup t cur comp)
          | component next rest ↦ elim (dir_lookup t cur comp) [
            | none ↦ some (none, none)
            | some ino ↦ elim (is_directory (node_at t ino).type) [
              | true ↦ resolve_from t fuel ino next rest
              | false ↦ some (none, none)
            ]
          ]
        ])
    go again _ at_end = (_, refl)
    go again _ refused = (_, refl)
    go again _ (taken next rest le) =
        enter again next rest (dir_lookup t cur comp) (omega (arith, le, lt))

resolve_first-Returns : (t : Inodes) (cur : ℕ) (c : Component) → Returns (resolve_first t cur c)
unfolding resolve_first
resolve_first-Returns t cur ends = (_, refl)
resolve_first-Returns t cur too_long = (_, refl)
resolve_first-Returns t cur (component name rest) =
    resolve_from-Returns t (suc (length rest)) cur name rest (omega arith)

-- `vfs_resolve` returns for every table of inodes, even one with cycles, every path and every starting
-- directory.
pub vfs_resolve-Returns : (t : Inodes) (cwd : ℕ) (path : Name) → Returns (vfs_resolve t cwd path)
unfolding vfs_resolve resolve_rest
vfs_resolve-Returns t cwd path = go (skip_slashes path)
  where
    go : (s : Name) → Returns (resolve_rest t (start_inode cwd path) path s)
    go [] = (_, refl)
    go (c ∷ s) = resolve_first-Returns t (start_inode cwd path) (path_next_component path)
