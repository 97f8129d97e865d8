-- ===== src/Vfs/Tree/Rename.antt =====
-- `vfs_rename` of kernel/fs/vfs.c. `served` says whether `krealloc` gives the new directory room, and the two
-- stacks are what stands in the variables of the old and of the new place where `vfs_resolve` stores nothing.
pub mod Laws
pub mod Itself
use spike_os.Prelude.{
  ℕ, Bool, true, false, not, ◌&&◌, ◌||◌, Option, none, some, ◌==◌, if◌then◌else◌,
}
use spike_os.Vfs.Tree.{Name, Inodes, Resolved, node_at, is_directory, dir_lookup, vfs_resolve}
use spike_os.Vfs.Tree.Edit.{dir_remove_entry, dir_update_dotdot}
use spike_os.Vfs.Tree.Calls.{or_stack, is_empty, or_same, try_add, drop_name}

-- What is at the new name goes, unless it is a directory.
unfoldable pub clear_target : ℕ × Name → Option ℕ → Inodes → Option Inodes
clear_target place none t = some t
clear_target place (some existing) t =
    if is_directory (node_at t existing).type then none else some (drop_name place existing t)

unfoldable pub fix_dotdot : (old_parent new_parent ino : ℕ) → Inodes → Inodes
fix_dotdot old_parent new_parent ino t =
    if is_directory (node_at t ino).type && not (old_parent == new_parent)
    then dir_update_dotdot t ino new_parent
    else t

unfoldable pub move_name : (served : Bool) → ℕ × Name → ℕ × Name → (ino : ℕ) → Inodes → Inodes
move_name served (old_parent, old_leaf) (new_parent, new_leaf) ino t =
    fix_dotdot old_parent new_parent ino
      (try_add served new_parent new_leaf ino (or_same t (dir_remove_entry t old_parent old_leaf)))

unfoldable pub move_cleared :
    (served : Bool) → ℕ × Name → ℕ × Name → (ino : ℕ) → Inodes → Option Inodes → Bool × Inodes
move_cleared served old new ino t none = (false, t)
move_cleared served old new ino t (some t') = (true, move_name served old new ino t')

unfoldable pub rename_to :
    (served : Bool) → ℕ × Name → ℕ × Name → (ino : ℕ) → Inodes → Bool × Inodes
rename_to served old (parent, leaf) ino t =
    if is_empty leaf || not (is_directory (node_at t parent).type)
    then (false, t)
    else move_cleared served old (parent, leaf) ino t
        (clear_target (parent, leaf) (dir_lookup t parent leaf) t)

unfoldable pub rename_found :
    (served : Bool)
    → (new_stack : ℕ × Name) → ℕ × Name
    → (ino : ℕ) → Inodes
    → Option Resolved
    → Bool × Inodes
rename_found served new_stack old ino t none = (false, t)
rename_found served new_stack old ino t (some (stored, r)) =
    rename_to served old (or_stack new_stack stored) ino t

unfoldable pub rename_resolved :
    (served : Bool)
    → (stack new_stack : ℕ × Name) → (cwd : ℕ) → (new_path : Name) → Inodes
    → Option Resolved
    → Bool × Inodes
rename_resolved served stack new_stack cwd new_path t none = (false, t)
rename_resolved served stack new_stack cwd new_path t (some (stored, none)) = (false, t)
rename_resolved served stack new_stack cwd new_path t (some (stored, some ino)) =
    if ino == 0
    then (false, t)
    else rename_found served new_stack (or_stack stack stored) ino t (vfs_resolve t cwd new_path)

-- `false` is -1.
unfoldable pub vfs_rename :
    (served : Bool)
    → (stack new_stack : ℕ × Name) → (cwd : ℕ) → (old_path new_path : Name) → Inodes
    → Bool × Inodes
vfs_rename served stack new_stack cwd old_path new_path t =
    rename_resolved served stack new_stack cwd new_path t (vfs_resolve t cwd old_path)
