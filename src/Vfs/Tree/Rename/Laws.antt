-- ===== src/Vfs/Tree/Rename/Laws.antt =====
-- `vfs_rename` of a file to a name that is free, and onto itself.
use mathlib.Core.Path.{subst}
use mathlib.Core.Option.{some_inj}
use spike_os.Prelude.{
  ℕ, ◌<◌, ◌≡◌, ◌≢◌, refl, Bool, true, false, Option, none, some, [], arith, ◌==◌, length,
  Bool-cases, inl, inr, ◌∙◌, ap, ◌⊎◌,
}
use spike_os.Vfs.Tree.{
  Name, Inodes, node_at, is_directory, dir_lookup, dir_add_entry, start_inode, vfs_resolve,
}
use spike_os.Vfs.Tree.Edit.{is_unused}
use spike_os.Vfs.Tree.Linked.{IsLinked, inside}
use spike_os.Vfs.Tree.Adding.{Added, entry_for, dir_add_entry-Added, Added-IsLinked}
use spike_os.Vfs.Tree.Removing.{Removed, dir_remove_entry-Removed, Removed-IsLinked}
use spike_os.Vfs.Tree.Entries.{dir_lookup-names}
use spike_os.Vfs.Tree.Resolve.{Looked, vfs_resolve-Looked}
use spike_os.Vfs.Tree.Remove.{start_cases}
use spike_os.Vfs.Tree.Calls.{is_empty, or_same, try_add}
use spike_os.Vfs.Tree.Rename.{
  clear_target, fix_dotdot, move_name, move_cleared, rename_to, rename_found, rename_resolved,
  vfs_rename,
}

-- A file that a path resolves to, where the start is a directory, was found in the directory that is stored.
pub found_file :
    (cwd : ℕ) (path : Name) (t : Inodes) (parent : ℕ) (leaf : Name) (ino : ℕ)
    → vfs_resolve t cwd path ≡ some (some (parent, leaf), some ino)
    → is_directory (node_at t cwd).type ≡ true
    → ino ≢ 0
    → is_directory (node_at t ino).type ≡ false
    → dir_lookup t parent leaf ≡ some ino
found_file cwd path t parent leaf ino resolved at_dir not_root plain =
    cases (subst (λ r. Looked t (start_inode cwd path) r) resolved (vfs_resolve-Looked t cwd path))
  where
    cases :
        (dir_lookup t parent leaf ≡ some ino)
          ⊎ ((leaf ≡ []) × (some ino ≡ some (start_inode cwd path)))
        → dir_lookup t parent leaf ≡ some ino
    cases (inl l) = l
    cases (inr (e, q)) =
        let at_start : ino ≡ start_inode cwd path = some_inj.0 q in
        elim (start_cases cwd path) [
          | inl z ↦ absurd (not_root (at_start ∙ z))
          | inr w ↦ absurd (
              ground
                (arith, plain, at_dir, ap (λ i. is_directory (node_at t i).type) (at_start ∙ w)))
        ]

free_name :
    (cwd : ℕ) (path : Name) (t : Inodes) (parent : ℕ) (leaf : Name)
    → vfs_resolve t cwd path ≡ some (some (parent, leaf), none)
    → dir_lookup t parent leaf ≡ none
free_name cwd path t parent leaf resolved =
    cases (subst (λ r. Looked t (start_inode cwd path) r) resolved (vfs_resolve-Looked t cwd path))
  where
    cases :
        (dir_lookup t parent leaf ≡ none) ⊎ ((leaf ≡ []) × (none ≡ some (start_inode cwd path)))
        → dir_lookup t parent leaf ≡ none
    cases (inl l) = l
    cases (inr (e, q)) = absurd (ground (arith, q))

-- One entry is taken out of the old directory, and one for the same inode put into the new one; or there is no
-- room for it, and only the old one is gone.
pub data Moved (served : Bool) (old_parent new_parent : ℕ) (new_leaf : Name) (ino : ℕ)
    (t t' : Inodes) : Type 0 where
  moved :
      (t1 : Inodes)
      → Removed old_parent ino t t1
      → Added new_parent (entry_for new_leaf ino) t1 t'
      → Moved served old_parent new_parent new_leaf ino t t'
  lost :
      dir_add_entry served t' new_parent new_leaf ino ≡ none
      → Removed old_parent ino t t'
      → Moved served old_parent new_parent new_leaf ino t t'

pub fix_dotdot-plain :
    (old_parent new_parent ino : ℕ) (t : Inodes)
    → is_directory (node_at t ino).type ≡ false
    → fix_dotdot old_parent new_parent ino t ≡ t
unfolding fix_dotdot
fix_dotdot-plain old_parent new_parent ino t plain = rw plain refl

module _ (served : Bool) (old_parent new_parent : ℕ) (old_leaf new_leaf : Name) (ino : ℕ)
    (t : Inodes) (plain : is_directory (node_at t ino).type ≡ false) where
  enter :
      (t1 : Inodes)
      → Removed old_parent ino t t1
      → ino < length t1
      → (o : Option Inodes) → dir_add_entry served t1 new_parent new_leaf ino ≡ o
      → Moved served old_parent new_parent new_leaf ino t
          (fix_dotdot old_parent new_parent ino (or_same t1 o))
  enter t1 r within none e =
      rw (fix_dotdot-plain old_parent new_parent ino t1 (ap is_directory (r.types ino) ∙ plain))
        (lost e r)
  enter t1 r within (some t2) e =
      let a = dir_add_entry-Added served t1 new_parent new_leaf ino t2 within e in
      let still = ap is_directory (a.types ino ∙ r.types ino) ∙ plain in
      rw (fix_dotdot-plain old_parent new_parent ino t2 still) (moved t1 r a)

  move_name-Moved :
      is_unused (node_at t ino).type ≡ false
      → dir_lookup t old_parent old_leaf ≡ some ino
      → Moved served old_parent new_parent new_leaf ino t
          (move_name served (old_parent, old_leaf) (new_parent, new_leaf) ino t)
  unfolding move_name try_add
  move_name-Moved used there =
      let (t1, e, r) =
        dir_remove_entry-Removed t old_parent old_leaf ino there (inside t ino used) in
      rw e (enter t1 r (inside t1 ino (ap is_unused (r.types ino) ∙ used)) _ refl)

-- What is in a directory is in use.
pub used_entry :
    (t : Inodes) (parent : ℕ) (leaf : Name) (ino : ℕ)
    → IsLinked t
    → dir_lookup t parent leaf ≡ some ino
    → is_unused (node_at t ino).type ≡ false
used_entry t parent leaf ino ok there = elim (Bool-cases (is_unused (node_at t ino).type)) [
  | inl u ↦ absurd (omega (arith, ok.closed ino u, (dir_lookup-names t parent leaf ino there).1))
  | inr f ↦ f
]

Moved-IsLinked :
    (served : Bool) (old_parent new_parent : ℕ) (new_leaf : Name) (ino : ℕ) (t t' : Inodes)
    → is_unused (node_at t ino).type ≡ false
    → IsLinked t
    → Moved served old_parent new_parent new_leaf ino t t'
    → IsLinked t'
Moved-IsLinked served old_parent new_parent new_leaf ino t t' used ok (moved t1 r a) =
    Added-IsLinked new_parent (entry_for new_leaf ino) t1 t' (ap is_unused (r.types ino) ∙ used)
      (Removed-IsLinked old_parent ino t t1 ok r) a
Moved-IsLinked served old_parent new_parent new_leaf ino t t' used ok (lost e r) =
    Removed-IsLinked old_parent ino t t' ok r

-- `vfs_rename` of a file to a name that is free in a directory, with the current directory a directory: it
-- succeeds; one entry for the file is taken out of its old directory and one with the new name, cut to the longest
-- that an entry holds, is put behind those of the new one, or the new one has no room for it and the file has
-- lost its name; no type changes, and the link counts stay those of the names.
pub vfs_rename-Moved :
    (served : Bool) (stack new_stack : ℕ × Name) (cwd : ℕ) (old_path new_path : Name) (t : Inodes)
    (old_parent new_parent : ℕ) (old_leaf new_leaf : Name) (ino : ℕ)
    → IsLinked t
    → is_directory (node_at t cwd).type ≡ true
    → vfs_resolve t cwd old_path ≡ some (some (old_parent, old_leaf), some ino)
    → vfs_resolve t cwd new_path ≡ some (some (new_parent, new_leaf), none)
    → ino ≢ 0
    → is_directory (node_at t ino).type ≡ false
    → is_directory (node_at t new_parent).type ≡ true
    → is_empty new_leaf ≡ false
    → let (done, t') = vfs_rename served stack new_stack cwd old_path new_path t in
      (done ≡ true) × Moved served old_parent new_parent new_leaf ino t t' × IsLinked t'
unfolding vfs_rename rename_resolved rename_found rename_to clear_target move_cleared
vfs_rename-Moved served stack new_stack cwd old_path new_path t old_parent new_parent old_leaf
      new_leaf ino ok at_dir old new not_root plain into named =
    let there = found_file cwd old_path t old_parent old_leaf ino old at_dir not_root plain in
    let used = used_entry t old_parent old_leaf ino ok there in
    let nonzero : (ino == 0) ≡ false = ground (arith, not_root) in
    let m = move_name-Moved served old_parent new_parent old_leaf new_leaf ino t plain used there in
    rw (old, vfs_rename)
      (rw (nonzero, new)
        (rw (named, into, free_name cwd new_path t new_parent new_leaf new)
          (refl, m, Moved-IsLinked served old_parent new_parent new_leaf ino t _ used ok m)))
