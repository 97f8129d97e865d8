-- ===== src/Vfs/Tree/Rename/Itself.antt =====
-- `vfs_rename` of a file onto itself.
use spike_os.Prelude.{
  ℕ, ◌<◌, ◌≡◌, ◌≢◌, refl, Bool, true, false, Option, none, some, arith, ◌==◌, length, Bool-cases,
  Option-cases, inl, inr, ◌∙◌, ap, ◌⊎◌,
}
use spike_os.Vfs.Tree.{Name, Inodes, node_at, is_directory, dir_lookup, dir_add_entry, vfs_resolve}
use spike_os.Vfs.Tree.Rename.Laws.{found_file, used_entry, fix_dotdot-plain}
use spike_os.Vfs.Tree.Edit.{is_unused, remove_found, dir_remove_entry}
use spike_os.Vfs.Tree.Links.{names}
use spike_os.Vfs.Tree.Linked.{IsLinked, inside, plain_unused}
use spike_os.Vfs.Tree.Adding.{dir_add_entry-Added}
use spike_os.Vfs.Tree.Removing.{dir_remove_entry-Removed}
use spike_os.Vfs.Tree.Entries.{dir_lookup-names, find_entry-entry_index}
use spike_os.Vfs.Tree.Remove.{drop_name-Unlinked}
use spike_os.Vfs.Tree.Calls.{is_empty, or_same, try_add}
use spike_os.Vfs.Tree.Rename.{
  clear_target, move_name, move_cleared, rename_to, rename_found, rename_resolved, vfs_rename,
}

remove_nothing :
    (t : Inodes) (dir : ℕ) (name : Name)
    → dir_lookup t dir name ≡ none
    → dir_remove_entry t dir name ≡ none
unfolding dir_lookup dir_remove_entry remove_found
remove_nothing t dir name e = elim (Bool-cases (is_directory (node_at t dir).type)) [
  | inr f ↦ rw f refl
  | inl d ↦ rw d (rw (find_entry-entry_index name (node_at t dir).entries (rw d at e)) refl)
]

-- Tables of one size with an inode of the same type.
record Same (ino : ℕ) (t t' : Inodes) : Type 0 where
  type : (node_at t' ino).type ≡ (node_at t ino).type
  size : ino < length t'

-- A name that may name another inode goes, or nothing.
remove-Same :
    (t : Inodes) (dir : ℕ) (name : Name) (ino : ℕ)
    → IsLinked t
    → ino < length t
    → Same ino t (or_same t (dir_remove_entry t dir name))
remove-Same t dir name ino ok within = cases (Option-cases (dir_lookup t dir name))
  where
    cases :
        (dir_lookup t dir name ≡ none) ⊎ ((c : ℕ) × (dir_lookup t dir name ≡ some c))
        → Same ino t (or_same t (dir_remove_entry t dir name))
    cases (inl e) = rw (remove_nothing t dir name e) record { type = refl; size = within }
    cases (inr (c, e)) =
        let (t1, f, r) =
          dir_remove_entry-Removed t dir name c e (inside t c (used_entry t dir name c ok e)) in
        rw f record { type = r.types ino; size = omega (arith, r.size, within) }

try_add-Same :
    (served : Bool) (t : Inodes) (dir : ℕ) (name : Name) (ino : ℕ)
    → ino < length t
    → (node_at (try_add served dir name ino t) ino).type ≡ (node_at t ino).type
unfolding try_add
try_add-Same served t dir name ino within = go (dir_add_entry served t dir name ino) refl
  where
    go :
        (o : Option Inodes)
        → dir_add_entry served t dir name ino ≡ o
        → (node_at (or_same t o) ino).type ≡ (node_at t ino).type
    go none e = refl
    go (some t') e = (dir_add_entry-Added served t dir name ino t' within e).types ino

module _ (served : Bool) (parent : ℕ) (leaf : Name) (ino : ℕ) (t : Inodes) (ok : IsLinked t)
    (within : ino < length t) (unused : is_unused (node_at t ino).type ≡ true) where
  move_name-unused :
      is_unused (node_at (move_name served (parent, leaf) (parent, leaf) ino t) ino).type ≡ true
  unfolding move_name
  move_name-unused =
      let s = remove-Same t parent leaf ino ok within in
      let t1 = or_same t (dir_remove_entry t parent leaf) in
      let gone : is_unused (node_at (try_add served parent leaf ino t1) ino).type ≡ true =
        ap is_unused (try_add-Same served t1 parent leaf ino s.size ∙ s.type) ∙ unused in
      rw (fix_dotdot-plain parent parent ino _ (plain_unused _ gone)) gone

-- `vfs_rename` of a file with one name onto itself, with the current directory a directory: it succeeds, and
-- the inode of the file is cleared.
pub rename_clears :
    (served : Bool) (stack new_stack : ℕ × Name) (cwd : ℕ) (path : Name) (t : Inodes) (parent : ℕ)
    (leaf : Name) (ino : ℕ)
    → IsLinked t
    → is_directory (node_at t cwd).type ≡ true
    → vfs_resolve t cwd path ≡ some (some (parent, leaf), some ino)
    → ino ≢ 0
    → is_directory (node_at t ino).type ≡ false
    → is_empty leaf ≡ false
    → names ino t ≡ 1
    → let (done, t') = vfs_rename served stack new_stack cwd path path t in
      (done ≡ true) × (is_unused (node_at t' ino).type ≡ true)
unfolding vfs_rename rename_resolved rename_found rename_to clear_target move_cleared
rename_clears served stack new_stack cwd path t parent leaf ino ok at_dir resolved not_root plain
      named one =
    let there = found_file cwd path t parent leaf ino resolved at_dir not_root plain in
    let used = used_entry t parent leaf ino ok there in
    let nonzero : (ino == 0) ≡ false = ground (arith, not_root) in
    let into = (dir_lookup-names t parent leaf ino there).0 in
    let u = drop_name-Unlinked parent leaf ino t ok (omega (arith, one)) plain used there in
    let cleared = u.freed (omega (arith, u.one_less, one)) in
    rw (resolved, vfs_rename)
      (rw (nonzero, resolved)
        (rw (named, into, there)
          (rw plain (refl, move_name-unused served parent leaf ino _ u.linked u.within cleared))))
