-- ===== src/Vfs/Tree/Resolve.antt =====
-- What `vfs_resolve` of kernel/fs/vfs.c stores: the directory it looked the last name up in.
use spike_os.Prelude.{
  ℕ, zero, suc, ◌≡◌, refl, true, false, Option, none, some, [], ◌∷◌, Bool-cases, inl, inr, ◌⊎◌,
  length,
}
use spike_os.Vfs.Tree.{
  Name, Component, ends, too_long, component, skip_slashes, path_next_component, Inodes, node_at,
  is_directory, dir_lookup, Resolved, resolve_from, resolve_first, resolve_rest, start_inode,
  vfs_resolve,
}

-- The stored parent and name give the inode; a path of slashes gives the starting point and no name.
abbrev pub Looked : Inodes → (start : ℕ) → Option Resolved → Type 0
Looked t start none = Unit
Looked t start (some (none, r)) = Unit
Looked t start (some (some (parent, leaf), r)) =
    (dir_lookup t parent leaf ≡ r) ⊎ ((leaf ≡ []) × (r ≡ some start))

resolve_from-Looked :
    (t : Inodes) (start fuel cur : ℕ) (comp p : Name)
    → Looked t start (resolve_from t fuel cur comp p)
unfolding resolve_from
resolve_from-Looked t start zero cur comp p = tt
resolve_from-Looked t start (suc fuel) cur comp p =
    go (λ ino next rest. resolve_from-Looked t start fuel ino next rest) (path_next_component p)
  where
    enter :
        ((ino : ℕ) (next rest : Name) → Looked t start (resolve_from t fuel ino next rest))
        → (next rest : Name) (found : Option ℕ)
        → Looked t start (elim found [
          | none ↦ some (none, none)
          | some ino ↦ elim (is_directory (node_at t ino).type) [
            | true ↦ resolve_from t fuel ino next rest
            | false ↦ some (none, none)
          ]
        ])
    enter again next rest none = tt
    enter again next rest (some ino) = elim (Bool-cases (is_directory (node_at t ino).type)) [
      | inl e ↦ rw e (again ino next rest)
      | inr e ↦ rw e tt
    ]

    go :
        ((ino : ℕ) (next rest : Name) → Looked t start (resolve_from t fuel ino next rest))
        → (c : Component)
        → Looked t start (elim c [
          | too_long ↦ some (none, none)
          | ends ↦ some (some (cur, comp), dir_lookup t cur comp)
          | component next rest ↦ elim (dir_lookup t cur comp) [
            | none ↦ some (none, none)
            | some ino ↦ elim (is_directory (node_at t ino).type) [
              | true ↦ resolve_from t fuel ino next rest
              | false ↦ some (none, none)
            ]
          ]
        ])
    go again ends = inl refl
    go again too_long = tt
    go again (component next rest) = enter again next rest (dir_lookup t cur comp)

pub vfs_resolve-Looked :
    (t : Inodes) (cwd : ℕ) (path : Name) → Looked t (start_inode cwd path) (vfs_resolve t cwd path)
unfolding vfs_resolve resolve_rest resolve_first
vfs_resolve-Looked t cwd path = go (skip_slashes path)
  where
    start : ℕ
    start = start_inode cwd path

    first : (c : Component) → Looked t start (resolve_first t start c)
    first ends = tt
    first too_long = tt
    first (component name rest) = resolve_from-Looked t start (suc (length rest)) start name rest

    go : (s : Name) → Looked t start (resolve_rest t start path s)
    go [] = inr (refl, refl)
    go (c ∷ s) = first (path_next_component path)
