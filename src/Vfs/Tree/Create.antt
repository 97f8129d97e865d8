-- ===== src/Vfs/Tree/Create.antt =====
-- `vfs_create_file` and `vfs_mkdir` of kernel/fs/vfs.c keep the link counts.
use spike_os.Prelude.{
  ℕ, ◌<◌, ◌≡◌, refl, Bool, length, true, false, Option, none, some, arith, ◌==◌, Bool-cases,
  Option-cases, inl, inr, ◌∙◌, ap, ◌⊎◌,
}
use spike_os.Vfs.{file, directory}
use spike_os.Vfs.Tree.{
  Name, Node, Inodes, node_at, is_directory, dir_add_entry, append_entry, grow_slots, Resolved,
  vfs_resolve,
}
use spike_os.Vfs.Tree.Edit.{is_unused, inode_alloc, dot_dot}
use spike_os.Vfs.Tree.Linked.{
  inside, IsLinked, Claimed, Claimed-IsLinked, node_at-Claimed, inode_alloc-Claimed,
  inode_free-Claimed, used_directory,
}
use spike_os.Vfs.Tree.Adding.{entry_for, dir_add_entry-Added, Added-IsLinked}
use spike_os.Vfs.Tree.Calls.{
  or_stack, may_create, enter_name, create_inode, create_at, vfs_create_file, try_add,
  make_directory, mkdir_at, vfs_mkdir, dot,
}

-- The entry in the parent, or a new inode that goes back.
enter_name-IsLinked :
    (served : Bool) (place : ℕ × Name) (i : ℕ) (t t' : Inodes)
    → IsLinked t
    → Claimed file i t t'
    → IsLinked (enter_name served place i t').1
unfolding enter_name
enter_name-IsLinked served (parent, leaf) i t t' ok c =
    cases (Option-cases (dir_add_entry served t' parent leaf i))
  where
    ok' : IsLinked t'
    ok' = Claimed-IsLinked file i t t' ok c

    used : is_unused (node_at t' i).type ≡ false
    used = ap (λ (n : Node). is_unused n.type) (node_at-Claimed file i t t' c)

    cases :
        (dir_add_entry served t' parent leaf i ≡ none)
          ⊎ ((t'' : Inodes) × (dir_add_entry served t' parent leaf i ≡ some t''))
        → IsLinked (enter_name served (parent, leaf) i t').1
    cases (inl o) =
        rw (o, enter_name)
          (Claimed-IsLinked _ i t' _ ok' (
            inode_free-Claimed i t' (c.same_names i ∙ c.unnamed)
              (ap (λ (n : Node). n.entries) (node_at-Claimed file i t t' c)) c.within))
    cases (inr (t'', o)) =
        rw (o, enter_name)
          (Added-IsLinked parent (entry_for leaf i) t' t'' used ok'
            (dir_add_entry-Added served t' parent leaf i t'' (inside _ i used) o))

create_at-IsLinked :
    (served : ℕ → Bool) (place : ℕ × Name) (t : Inodes)
    → IsLinked t
    → IsLinked (create_at served place t).1
unfolding create_at create_inode
create_at-IsLinked served place t ok =
    cases (Bool-cases (may_create t place)) (Option-cases (inode_alloc (served 0) file t))
  where
    cases :
        (may_create t place ≡ true) ⊎ (may_create t place ≡ false)
        → (inode_alloc (served 0) file t ≡ none)
          ⊎ ((r : ℕ × Inodes) × (inode_alloc (served 0) file t ≡ some r))
        → IsLinked (create_at served place t).1
    cases (inr f) o = rw f ok
    cases (inl m) (inl o) = rw m (rw (o, create_inode) ok)
    cases (inl m) (inr ((i, t'), o)) = rw m (
        rw (o, create_inode)
          (enter_name-IsLinked (served 1) place i t t' ok
            (inode_alloc-Claimed (served 0) file t i t' ok o).0))

-- `vfs_create_file` keeps every link count equal to the number of entries that name the inode, on 16
-- bits, unused inodes without a name and files without entries, whatever it returns and whichever
-- allocations fail. The working directory is an inode of the table, and so is what stands in the
-- variable `parent_ino` before the call, which counts where `vfs_resolve` stores nothing.
pub vfs_create_file-IsLinked :
    (served : ℕ → Bool) (stack : ℕ × Name) (cwd : ℕ) (path : Name) (t : Inodes)
    → stack.0 < length t
    → cwd < length t
    → IsLinked t
    → IsLinked (vfs_create_file served stack cwd path t).1
unfolding vfs_create_file
vfs_create_file-IsLinked served stack cwd path t in_table at ok =
    cases (Option-cases (vfs_resolve t cwd path))
  where
    cases :
        (vfs_resolve t cwd path ≡ none) ⊎ ((r : Resolved) × (vfs_resolve t cwd path ≡ some r))
        → IsLinked (vfs_create_file served stack cwd path t).1
    cases (inl o) = rw (o, vfs_create_file) ok
    cases (inr ((stored, ino), o)) =
        rw (o, vfs_create_file) (create_at-IsLinked served (or_stack stack stored) t ok)

-- A table that adds names may be followed by another.
record Grown (i : ℕ) (t : Inodes) : Type 0 where
  linked : IsLinked t
  used : is_unused (node_at t i).type ≡ false

try_add-Grown :
    (served : Bool) (dir : ℕ) (name : Name) (child i : ℕ) (t : Inodes)
    → is_unused (node_at t child).type ≡ false
    → Grown i t
    → Grown i (try_add served dir name child t)
      × ((j : ℕ) → (node_at (try_add served dir name child t) j).type ≡ (node_at t j).type)
unfolding try_add
try_add-Grown served dir name child i t used g =
    cases (Option-cases (dir_add_entry served t dir name child))
  where
    cases :
        (dir_add_entry served t dir name child ≡ none)
          ⊎ ((t' : Inodes) × (dir_add_entry served t dir name child ≡ some t'))
        → Grown i (try_add served dir name child t)
          × ((j : ℕ) → (node_at (try_add served dir name child t) j).type ≡ (node_at t j).type)
    cases (inl o) = rw o (g, λ j. refl)
    cases (inr (t', o)) =
        let a = dir_add_entry-Added served t dir name child t' (inside t child used) o in
        rw o (
          record {
            linked = Added-IsLinked dir (entry_for name child) t t' used g.linked a;
            used = ap is_unused (a.types i) ∙ g.used;
          },
          a.types,
        )

-- With memory for it an entry is added to a directory.
add_served :
    (t : Inodes) (dir : ℕ) (name : Name) (child : ℕ)
    → is_directory (node_at t dir).type ≡ true
    → (t' : Inodes) × (dir_add_entry true t dir name child ≡ some t')
unfolding dir_add_entry append_entry grow_slots
add_served t dir name child d = elim (Option-cases (dir_add_entry true t dir name child)) [
  | inl o ↦ absurd (refused (grow_slots true (node_at t dir)) refl (rw d at o))
  | inr found ↦ found
]
  where
    refused :
        (g : Option Node)
        → grow_slots true (node_at t dir) ≡ g
        → append_entry t dir name child (grow_slots true (node_at t dir)) ≡ none
        → ⊥
    refused none e o = ground (arith, e)
    refused (some n) e o = ground (arith, rw e at o)

into_directory :
    (t : Inodes) (parent : ℕ) (leaf : Name)
    → may_create t (parent, leaf) ≡ true
    → is_directory (node_at t parent).type ≡ true
unfolding may_create
into_directory t parent leaf m = ground (arith, m)

still_directory :
    (i : ℕ) (t t' : Inodes) (parent : ℕ)
    → Claimed directory i t t'
    → is_directory (node_at t parent).type ≡ true
    → is_directory (node_at t' parent).type ≡ true
still_directory i t t' parent c d =
    ap (λ (n : Node). is_directory n.type) (c.nodes parent)
    ∙ elim (Bool-cases (i == parent)) [ inl e ↦ rw e refl | inr f ↦ rw f d ]

mkdir_at-IsLinked :
    (served : ℕ → Bool) (place : ℕ × Name) (t : Inodes)
    → served 3 ≡ true
    → IsLinked t
    → IsLinked (mkdir_at served place t).1
unfolding mkdir_at make_directory enter_name
mkdir_at-IsLinked served (parent, leaf) t last ok =
    cases (Bool-cases (may_create t (parent, leaf)))
      (Option-cases (inode_alloc (served 0) directory t))
  where
    made :
        (i : ℕ) (t' : Inodes)
        → is_directory (node_at t parent).type ≡ true
        → Claimed directory i t t'
        → IsLinked (make_directory served (parent, leaf) t (some (i, t'))).1
    made i t' d c =
        let new : is_unused (node_at t' i).type ≡ false =
          ap (λ (n : Node). is_unused n.type) (node_at-Claimed directory i t t' c) in
        let parent_there : is_directory (node_at t' parent).type ≡ true =
          still_directory i t t' parent c d in
        let start : Grown i t' = record {
          linked = Claimed-IsLinked directory i t t' ok c;
          used = new;
        } in
        let (one, types1) = try_add-Grown (served 1) i dot i i t' new start in
        let t1 = try_add (served 1) i dot i t' in
        let parent_used = used_directory _ (ap is_directory (types1 parent) ∙ parent_there) in
        let (two, types2) = try_add-Grown (served 2) i dot_dot parent i t1 parent_used one in
        let t2 = try_add (served 2) i dot_dot parent t1 in
        let (t3, e) =
          add_served t2 parent leaf i
            (ap is_directory (types2 parent) ∙ ap is_directory (types1 parent) ∙ parent_there) in
        let a = dir_add_entry-Added true t2 parent leaf i t3 (inside t2 i two.used) e in
        rw last (
          rw (e, enter_name) (Added-IsLinked parent (entry_for leaf i) t2 t3 two.used two.linked a))

    cases :
        (may_create t (parent, leaf) ≡ true) ⊎ (may_create t (parent, leaf) ≡ false)
        → (inode_alloc (served 0) directory t ≡ none)
          ⊎ ((r : ℕ × Inodes) × (inode_alloc (served 0) directory t ≡ some r))
        → IsLinked (mkdir_at served (parent, leaf) t).1
    cases (inr f) o = rw f ok
    cases (inl m) (inl o) = rw m (rw (o, make_directory) ok)
    cases (inl m) (inr ((i, t'), o)) = rw m (
        rw o (
          made i t' (into_directory t parent leaf m)
            (inode_alloc-Claimed (served 0) directory t i t' ok o).0))

-- `vfs_mkdir` keeps the link counts, unused inodes without a name and files without entries, if the
-- entry in the parent finds memory: whatever else fails, what it returns, and whatever stands in its
-- variables where `vfs_resolve` stores nothing.
pub vfs_mkdir-IsLinked :
    (served : ℕ → Bool) (stack : ℕ × Name) (cwd : ℕ) (path : Name) (t : Inodes)
    → served 3 ≡ true
    → IsLinked t
    → IsLinked (vfs_mkdir served stack cwd path t).1
unfolding vfs_mkdir
vfs_mkdir-IsLinked served stack cwd path t last ok = cases (Option-cases (vfs_resolve t cwd path))
  where
    cases :
        (vfs_resolve t cwd path ≡ none) ⊎ ((r : Resolved) × (vfs_resolve t cwd path ≡ some r))
        → IsLinked (vfs_mkdir served stack cwd path t).1
    cases (inl o) = rw (o, vfs_mkdir) ok
    cases (inr ((stored, ino), o)) =
        rw (o, vfs_mkdir) (mkdir_at-IsLinked served (or_stack stack stored) t last ok)
