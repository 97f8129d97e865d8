-- ===== src/Vfs/Tree/Tests.antt =====
-- Runs of path resolution.
use spike_os.Prelude.{
  ℕ, zero, suc, ◌+◌, ◌%◌, ◌^◌, ◌<◌, ◌≡◌, refl, Bool, true, false, Option, none, some, [], ◌∷◌,
  arith, ap,
}
use spike_os.Vfs.{file, directory}
use spike_os.Vfs.Tree.{
  Name, Inodes, dir_add_entry, grow_slots, append_entry, zero_node, node_at, is_directory,
  vfs_resolve, resolve_rest, skip_slashes, resolve_first, path_next_component, next_name, check_end,
  copy_name, resolve_from, dir_lookup, start_inode, find_entry, same_name,
}
use spike_os.Prelude.Search.{search}
use spike_os.Vfs.Tree.Edit.{inode_alloc, claim_inode, is_unused}
use spike_os.Vfs.Tree.Links.{named, names}
use spike_os.Vfs.Tree.Linked.{IsLinked}
use spike_os.Vfs.Tree.Calls.{
  may_create, enter_name, create_inode, create_at, vfs_create_file, may_remove, vfs_remove,
}
use spike_os.Vfs.Tree.Rename.{vfs_rename}
use spike_os.Vfs.Tree.Rename.Laws.{Moved, vfs_rename-Moved}
use spike_os.Vfs.Tree.Rename.Itself.{rename_clears}
use spike_os.Vfs.Tree.Create.{vfs_create_file-IsLinked}
use spike_os.Vfs.Tree.Created.{vfs_resolve-vfs_create_file}
use spike_os.Vfs.Tree.Remove.{Unlinked, vfs_remove-Unlinked, rmdir_leaks}

-- The root with itself and a directory "d", which holds a file "f".
abbrev small_tree : Inodes
small_tree =
    record {
      type = directory;
      entries = record { name = 46 ∷ []; inode = 0 } ∷ record { name = 100 ∷ []; inode = 1 } ∷ [];
      slots = 8;
      link_count = 1;
    }
    ∷ record {
      type = directory;
      entries = record { name = 102 ∷ []; inode = 2 } ∷ [];
      slots = 8;
      link_count = 1;
    }
    ∷ record { type = file; entries = []; slots = 0; link_count = 1 }
    ∷ []

-- "/d/f".
abbrev path_to_file : Name
path_to_file = 47 ∷ 100 ∷ 47 ∷ 102 ∷ []

resolves : vfs_resolve small_tree 0 path_to_file ≡ some (some (1, 102 ∷ []), some 2)
unfolding vfs_resolve resolve_rest skip_slashes resolve_first path_next_component next_name
    check_end copy_name resolve_from dir_lookup start_inode find_entry same_name
resolves = refl

-- "/x/f": neither the parent nor the name is stored.
stores_nothing : vfs_resolve small_tree 0 (47 ∷ 120 ∷ 47 ∷ 102 ∷ []) ≡ some (none, none)
unfolding vfs_resolve resolve_rest skip_slashes resolve_first path_next_component next_name
    check_end copy_name resolve_from dir_lookup start_inode find_entry same_name
stores_nothing = refl

-- The root with itself, an empty directory "d" and a file "f", and a free inode.
abbrev linked_tree : Inodes
linked_tree =
    record {
      type = directory;
      entries =
          record { name = 46 ∷ []; inode = 0 }
          ∷ record { name = 100 ∷ []; inode = 1 }
          ∷ record { name = 102 ∷ []; inode = 2 }
          ∷ [];
      slots = 8;
      link_count = 2;
    }
    ∷ record {
      type = directory;
      entries =
          record { name = 46 ∷ []; inode = 1 } ∷ record { name = 46 ∷ 46 ∷ []; inode = 0 } ∷ [];
      slots = 8;
      link_count = 2;
    }
    ∷ record { type = file; entries = []; slots = 0; link_count = 1 }
    ∷ zero_node
    ∷ []

linked_tree-IsLinked : IsLinked linked_tree
unfolding names named
linked_tree-IsLinked = record { counted = link_counts; closed = no_names; plain = no_entries }
  where
    link_counts : (i : ℕ) → (node_at linked_tree i).link_count ≡ names i linked_tree % 2 ^ 16
    link_counts zero = refl
    link_counts (suc zero) = refl
    link_counts (suc (suc zero)) = refl
    link_counts (suc (suc (suc zero))) = refl
    link_counts (suc (suc (suc (suc i)))) = ground arith

    no_names : (i : ℕ) → is_unused (node_at linked_tree i).type ≡ true → names i linked_tree ≡ 0
    no_names zero u = cc
    no_names (suc zero) u = cc
    no_names (suc (suc zero)) u = cc
    no_names (suc (suc (suc zero))) u = refl
    no_names (suc (suc (suc (suc i)))) u = ground arith

    no_entries :
        (i : ℕ)
        → is_directory (node_at linked_tree i).type ≡ false
        → (node_at linked_tree i).entries ≡ []
    no_entries zero d = cc
    no_entries (suc zero) d = cc
    no_entries (suc (suc zero)) d = refl
    no_entries (suc (suc (suc zero))) d = refl
    no_entries (suc (suc (suc (suc i)))) d = refl

abbrev always : ℕ → Bool
always n = true

-- "/d/f".
vfs_create_file-IsLinked_example :
    IsLinked (vfs_create_file always (1, []) 0 path_to_file linked_tree).1
vfs_create_file-IsLinked_example =
    vfs_create_file-IsLinked always (1, []) 0 path_to_file linked_tree (omega arith) (omega arith)
      linked_tree-IsLinked

new_path : vfs_resolve linked_tree 0 path_to_file ≡ some (some (1, 102 ∷ []), none)
unfolding vfs_resolve resolve_rest skip_slashes resolve_first path_next_component next_name
    check_end copy_name resolve_from dir_lookup start_inode find_entry same_name
new_path = refl

abbrev with_file : Option ℕ × Inodes
with_file = vfs_create_file always (7, []) 0 path_to_file linked_tree

file_made : with_file.0 ≡ some 3
unfolding vfs_create_file create_at may_create create_inode inode_alloc search claim_inode
    enter_name dir_add_entry grow_slots append_entry vfs_resolve resolve_rest skip_slashes
    resolve_first path_next_component next_name check_end copy_name resolve_from dir_lookup
    start_inode find_entry same_name
file_made = refl

vfs_resolve-vfs_create_file_example :
    vfs_resolve with_file.1 0 path_to_file ≡ some (some (1, 102 ∷ []), some 3)
vfs_resolve-vfs_create_file_example =
    vfs_resolve-vfs_create_file always (7, []) 0 path_to_file linked_tree with_file.1 1 (102 ∷ []) 3
      linked_tree-IsLinked new_path (ap (λ o. (o, with_file.1)) file_made)

-- "/f" and "/d".
abbrev path_of_file : Name
path_of_file = 47 ∷ 102 ∷ []

abbrev path_of_directory : Name
path_of_directory = 47 ∷ 100 ∷ []

file_found : vfs_resolve linked_tree 0 path_of_file ≡ some (some (0, 102 ∷ []), some 2)
unfolding vfs_resolve resolve_rest skip_slashes resolve_first path_next_component next_name
    check_end copy_name resolve_from dir_lookup start_inode find_entry same_name
file_found = refl

directory_found : vfs_resolve linked_tree 0 path_of_directory ≡ some (some (0, 100 ∷ []), some 1)
unfolding vfs_resolve resolve_rest skip_slashes resolve_first path_next_component next_name
    check_end copy_name resolve_from dir_lookup start_inode find_entry same_name
directory_found = refl

file_allowed : may_remove 0 (0, 102 ∷ []) 2 ≡ true
unfolding may_remove same_name
file_allowed = refl

directory_allowed : may_remove 0 (0, 100 ∷ []) 1 ≡ true
unfolding may_remove same_name
directory_allowed = refl

few_names : names 2 linked_tree < 2 ^ 16
unfolding names named
few_names = omega arith

vfs_remove-Unlinked_example :
    ((vfs_remove (7, []) 0 path_of_file linked_tree).0 ≡ true)
    × Unlinked 2 linked_tree (vfs_remove (7, []) 0 path_of_file linked_tree).1
vfs_remove-Unlinked_example =
    vfs_remove-Unlinked (7, []) 0 path_of_file linked_tree 0 (102 ∷ []) 2 linked_tree-IsLinked
      few_names file_found file_allowed refl

rmdir_leaks_example :
    ((vfs_remove (7, []) 0 path_of_directory linked_tree).0 ≡ true)
    × (is_directory (node_at (vfs_remove (7, []) 0 path_of_directory linked_tree).1 1).type ≡ true)
    × (names 1 (vfs_remove (7, []) 0 path_of_directory linked_tree).1 + 1 ≡ names 1 linked_tree)
rmdir_leaks_example =
    rmdir_leaks (7, []) 0 path_of_directory linked_tree 0 (100 ∷ []) 1 linked_tree-IsLinked
      directory_found directory_allowed refl (omega arith) (λ e. absurd (omega (arith, e)))
      (omega arith)

-- "/f" to "/d/f".
vfs_rename-Moved_example :
    let (done, t') = vfs_rename true (7, []) (7, []) 0 path_of_file path_to_file linked_tree in
    (done ≡ true) × Moved true 0 1 (102 ∷ []) 2 linked_tree t' × IsLinked t'
vfs_rename-Moved_example =
    vfs_rename-Moved true (7, []) (7, []) 0 path_of_file path_to_file linked_tree 0 1 (102 ∷ [])
      (102 ∷ []) 2 linked_tree-IsLinked refl file_found new_path (λ e. absurd (omega (arith, e)))
      refl refl refl

one_name : names 2 linked_tree ≡ 1
unfolding names named
one_name = refl

rename_clears_example :
    let (done, t') = vfs_rename true (7, []) (7, []) 0 path_of_file path_of_file linked_tree in
    (done ≡ true) × (is_unused (node_at t' 2).type ≡ true)
rename_clears_example =
    rename_clears true (7, []) (7, []) 0 path_of_file linked_tree 0 (102 ∷ []) 2
      linked_tree-IsLinked refl file_found (λ e. absurd (omega (arith, e))) refl refl one_name
