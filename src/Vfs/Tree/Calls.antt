-- ===== src/Vfs/Tree/Calls.antt =====
-- `vfs_create_file`, `vfs_mkdir` and `vfs_remove` of kernel/fs/vfs.c. `served n` says whether the call
-- of `krealloc` number `n` of the operation is served, and `stack` what stands in the variables
-- `parent_ino` and `leaf` where `vfs_resolve` does not store them. The source indexes `inode_table` with
-- `parent_ino` unchecked; an index outside the table, where it reads memory behind the table, is outside
-- of the model, which reads an unused inode there.
use spike_os.Prelude.{
  ℕ, Bool, true, false, not, ◌&&◌, ◌||◌, Option, none, some, [], ◌∷◌, ◌==◌, ltb, if◌then◌else◌,
  length,
}
use spike_os.Vfs.{file, directory}
use spike_os.Vfs.Tree.{
  Name, Inodes, node_at, is_directory, same_name, dir_lookup, drop_link, dir_add_entry, vfs_resolve,
}
use spike_os.Vfs.Tree.Edit.{inode_alloc, inode_free, dir_remove_entry, dot_dot}

abbrev pub dot : Name
dot = 46 ∷ []

abbrev pub or_stack : ℕ × Name → Option (ℕ × Name) → ℕ × Name
or_stack stack none = stack
or_stack stack (some stored) = stored

abbrev pub is_none : Option ℕ → Bool
is_none none = true
is_none (some i) = false

abbrev pub is_empty : Name → Bool
is_empty [] = true
is_empty (c ∷ cs) = false

-- A failure that goes unnoticed.
abbrev pub or_same : Inodes → Option Inodes → Inodes
or_same t none = t
or_same t (some t') = t'

-- The checks of a new name.
unfoldable pub may_create : Inodes → ℕ × Name → Bool
may_create t (parent, leaf) =
    not (is_empty leaf)
    && (is_directory (node_at t parent).type && is_none (dir_lookup t parent leaf))

-- The entry in the parent; the inode goes back if there is no room for it.
unfoldable pub enter_name : (served : Bool) → ℕ × Name → (ino : ℕ) → Inodes → Option ℕ × Inodes
enter_name served (parent, leaf) ino t = elim (dir_add_entry served t parent leaf ino) [
  | some t' ↦ (some ino, t')
  | none ↦ (none, inode_free ino t)
]

unfoldable pub create_inode :
    (served : ℕ → Bool) → ℕ × Name → Inodes → Option (ℕ × Inodes) → Option ℕ × Inodes
create_inode served place t none = (none, t)
create_inode served place t (some (ino, t')) = enter_name (served 1) place ino t'

unfoldable pub create_at : (served : ℕ → Bool) → ℕ × Name → Inodes → Option ℕ × Inodes
create_at served place t =
    if may_create t place
    then create_inode served place t (inode_alloc (served 0) file t)
    else (none, t)

-- `none` is -1.
unfoldable pub vfs_create_file :
    (served : ℕ → Bool) → (stack : ℕ × Name) → (cwd : ℕ) → Name → Inodes → Option ℕ × Inodes
vfs_create_file served stack cwd path t = elim (vfs_resolve t cwd path) [
  | some (stored, ino) ↦ create_at served (or_stack stack stored) t
  | none ↦ (none, t)
]

unfoldable pub try_add : (served : Bool) → (dir : ℕ) → Name → (child : ℕ) → Inodes → Inodes
try_add served dir name child t = or_same t (dir_add_entry served t dir name child)

unfoldable pub make_directory :
    (served : ℕ → Bool) → ℕ × Name → Inodes → Option (ℕ × Inodes) → Option ℕ × Inodes
make_directory served place t none = (none, t)
make_directory served place t (some (ino, t')) =
    enter_name (served 3) place ino
      (try_add (served 2) ino dot_dot place.0 (try_add (served 1) ino dot ino t'))

unfoldable pub mkdir_at : (served : ℕ → Bool) → ℕ × Name → Inodes → Option ℕ × Inodes
mkdir_at served place t =
    if may_create t place
    then make_directory served place t (inode_alloc (served 0) directory t)
    else (none, t)

unfoldable pub vfs_mkdir :
    (served : ℕ → Bool) → (stack : ℕ × Name) → (cwd : ℕ) → Name → Inodes → Option ℕ × Inodes
vfs_mkdir served stack cwd path t = elim (vfs_resolve t cwd path) [
  | some (stored, ino) ↦ mkdir_at served (or_stack stack stored) t
  | none ↦ (none, t)
]

-- The name goes, and the inode with its last link.
unfoldable pub drop_name : ℕ × Name → (ino : ℕ) → Inodes → Inodes
drop_name (parent, leaf) ino t =
    let t' = or_same t (dir_remove_entry t parent leaf) in
    if (node_at t' ino).link_count == 0 then inode_free ino t' else t'

unfoldable pub may_remove : (cwd : ℕ) → ℕ × Name → (ino : ℕ) → Bool
may_remove cwd (parent, leaf) ino =
    not (ino == 0) && (not (same_name leaf dot || same_name leaf dot_dot) && not (ino == cwd))

-- A directory has to be empty, and its parent loses the link of "..".
unfoldable pub remove_inode : ℕ × Name → (ino : ℕ) → Inodes → Bool × Inodes
remove_inode (parent, leaf) ino t =
    if is_directory (node_at t ino).type
    then (if ltb 2 (length (node_at t ino).entries)
        then (false, t)
        else (true, drop_name (parent, leaf) ino (drop_link parent t)))
    else (true, drop_name (parent, leaf) ino t)

unfoldable pub remove_resolved : (cwd : ℕ) → ℕ × Name → Option ℕ → Inodes → Bool × Inodes
remove_resolved cwd place none t = (false, t)
remove_resolved cwd place (some ino) t =
    if may_remove cwd place ino then remove_inode place ino t else (false, t)

-- `false` is -1.
unfoldable pub vfs_remove : (stack : ℕ × Name) → (cwd : ℕ) → Name → Inodes → Bool × Inodes
vfs_remove stack cwd path t = elim (vfs_resolve t cwd path) [
  | some (stored, ino) ↦ remove_resolved cwd (or_stack stack stored) ino t
  | none ↦ (false, t)
]
