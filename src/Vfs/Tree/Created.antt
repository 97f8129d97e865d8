-- ===== src/Vfs/Tree/Created.antt =====
-- A file that `vfs_create_file` of kernel/fs/vfs.c made is found by `vfs_resolve`.
use mathlib.Core.Option.{some_inj}
use mathlib.Core.Path.{subst}
use spike_os.Prelude.{
  ℕ, ◌≤◌, ◌≡◌, refl, Bool, true, false, Option, none, some, [], ◌∷◌, ◌++◌, arith, ◌==◌,
  if◌then◌else◌, length, Bool-cases, Option-cases, inl, inr, ◌∙◌, ap, ◌⊎◌,
}
use spike_os.Vfs.{file}
use spike_os.Vfs.Tree.{
  Name, max_name, Node, Inodes, node_at, is_directory, dir_lookup, dir_add_entry, vfs_resolve,
}
use spike_os.Vfs.Tree.Edit.{is_unused, inode_alloc}
use spike_os.Vfs.Tree.Linked.{
  inside, IsLinked, Fresh, plain_unused, node_at-Claimed, inode_alloc-Claimed,
}
use spike_os.Vfs.Tree.Adding.{Added, entry_for, dir_add_entry-Added}
use spike_os.Vfs.Tree.Calls.{
  is_none, may_create, enter_name, create_inode, create_at, vfs_create_file,
}
use spike_os.Vfs.Tree.Found.{find_entry-append, find_entry-last, take_all, vfs_resolve-kept}

-- A new file with its name in the parent.
module _ (i parent : ℕ) (leaf : Name) (t t1 t2 : Inodes) (fresh : Fresh file i t t1)
    (a : Added parent (entry_for leaf i) t1 t2) where
  old_node : (j : ℕ) → is_directory (node_at t j).type ≡ true → node_at t1 j ≡ node_at t j
  old_node j d = fresh.0.nodes j ∙ elim (Bool-cases (i == j)) [
    | inl e ↦
        let p : i ≡ j = ground (arith, e) in
        absurd
          (ground (arith, plain_unused _ fresh.1, d, ap (λ k. is_directory (node_at t k).type) p))
    | inr f ↦ rw f refl
  ]

  new_dirs :
      (j : ℕ) → is_directory (node_at t j).type ≡ true → is_directory (node_at t2 j).type ≡ true
  new_dirs j d =
      ap is_directory (a.types j) ∙ ap (λ (n : Node). is_directory n.type) (old_node j d) ∙ d

  new_entries :
      (j : ℕ)
      → is_directory (node_at t j).type ≡ true
      → (node_at t2 j).entries ≡ (
          if parent == j
          then (node_at t j).entries ++ (entry_for leaf i ∷ [])
          else (node_at t j).entries)
  new_entries j d =
      a.contents j
      ∙ ap (λ (n : Node). if parent == j then n.entries ++ (entry_for leaf i ∷ []) else n.entries)
          (old_node j d)

  new_keep :
      (d : ℕ) (name : Name) (k : ℕ) → dir_lookup t d name ≡ some k → dir_lookup t2 d name ≡ some k
  unfolding dir_lookup
  new_keep d name k e =
      cases (Bool-cases (is_directory (node_at t d).type)) (Bool-cases (parent == d))
    where
      cases :
          (is_directory (node_at t d).type ≡ true) ⊎ (is_directory (node_at t d).type ≡ false)
          → ((parent == d) ≡ true) ⊎ ((parent == d) ≡ false)
          → dir_lookup t2 d name ≡ some k
      cases (inr f) o = absurd (ground (arith, rw f at e))
      cases (inl t) (inl p) =
          rw (new_dirs d t, new_entries d t) (rw p (find_entry-append name _ _ k (rw t at e)))
      cases (inl t) (inr f) = rw (new_dirs d t, new_entries d t) (rw f (rw t at e))

  new_name :
      is_directory (node_at t parent).type ≡ true
      → dir_lookup t parent leaf ≡ none
      → length leaf ≤ max_name
      → dir_lookup t2 parent leaf ≡ some i
  unfolding dir_lookup
  new_name d e le =
      let on : (parent == parent) ≡ true = ground arith in
      rw (new_dirs parent d, new_entries parent d)
        (rw on (
          rw (take_all max_name leaf le)
            (find_entry-last leaf (node_at t parent).entries i (rw d at e))))

-- What `vfs_create_file` has done when it succeeds.
record Created (parent : ℕ) (leaf : Name) (ino : ℕ) (t t' : Inodes) : Type 0 where
  middle : Inodes
  fresh : Fresh file ino t middle
  added : Added parent (entry_for leaf ino) middle t'
  into : is_directory (node_at t parent).type ≡ true
  absent : dir_lookup t parent leaf ≡ none

allowed :
    (t : Inodes) (parent : ℕ) (leaf : Name)
    → may_create t (parent, leaf) ≡ true
    → (is_directory (node_at t parent).type ≡ true) × (dir_lookup t parent leaf ≡ none)
unfolding may_create
allowed t parent leaf m = (ground (arith, m), go (dir_lookup t parent leaf) refl)
  where
    go : (o : Option ℕ) → dir_lookup t parent leaf ≡ o → dir_lookup t parent leaf ≡ none
    go none q = q
    go (some k) q = absurd (ground (arith, m, ap is_none q))

create_at-Created :
    (served : ℕ → Bool) (parent : ℕ) (leaf : Name) (t t' : Inodes) (ino : ℕ)
    → IsLinked t
    → create_at served (parent, leaf) t ≡ (some ino, t')
    → Created parent leaf ino t t'
unfolding create_at create_inode enter_name
create_at-Created served parent leaf t t' ino ok e =
    cases (Bool-cases (may_create t (parent, leaf))) (Option-cases (inode_alloc (served 0) file t))
  where
    entered :
        (i : ℕ) (t1 : Inodes)
        → Fresh file i t t1
        → may_create t (parent, leaf) ≡ true
        → enter_name (served 1) (parent, leaf) i t1 ≡ (some ino, t')
        → (dir_add_entry (served 1) t1 parent leaf i ≡ none)
          ⊎ ((t2 : Inodes) × (dir_add_entry (served 1) t1 parent leaf i ≡ some t2))
        → Created parent leaf ino t t'
    entered i t1 fresh m e' (inl o) =
        absurd (ground (arith, ap (λ (q : Option ℕ × Inodes). q.0) (rw (o, enter_name) at e')))
    entered i t1 fresh m e' (inr (t2, o)) =
        let used : is_unused (node_at t1 i).type ≡ false =
          ap (λ (n : Node). is_unused n.type) (node_at-Claimed file i t t1 fresh.0) in
        let checks = allowed t parent leaf m in
        let made : Created parent leaf i t t2 = record {
          middle = t1;
          fresh = fresh;
          added = dir_add_entry-Added (served 1) t1 parent leaf i t2 (inside t1 i used) o;
          into = checks.0;
          absent = checks.1;
        } in
        let pair : (some i, t2) ≡ (some ino, t') = rw (o, enter_name) at e' in
        subst (λ r. Created parent leaf ino t r) (ap (λ (q : Option ℕ × Inodes). q.1) pair)
          (subst (λ k. Created parent leaf k t t2)
            (some_inj.0 (ap (λ (q : Option ℕ × Inodes). q.0) pair)) made)

    cases :
        (may_create t (parent, leaf) ≡ true) ⊎ (may_create t (parent, leaf) ≡ false)
        → (inode_alloc (served 0) file t ≡ none)
          ⊎ ((r : ℕ × Inodes) × (inode_alloc (served 0) file t ≡ some r))
        → Created parent leaf ino t t'
    cases (inr f) o = absurd (ground (arith, ap (λ (q : Option ℕ × Inodes). q.0) (rw f at e)))
    cases (inl m) (inl o) =
        absurd (
          ground (arith, ap (λ (q : Option ℕ × Inodes). q.0) (rw (o, create_inode) at (rw m at e))))
    cases (inl m) (inr ((i, t1), o)) =
        entered i t1 (inode_alloc-Claimed (served 0) file t i t1 ok o) m
          (rw (o, create_inode) at (rw m at e))
          (Option-cases (dir_add_entry (served 1) t1 parent leaf i))

-- A file that `vfs_create_file` made is found under its path: if the path resolved to a parent and a new
-- name in it, and the link counts are those of the names, then `vfs_resolve` of the same path in the new
-- table gives that parent and name and the inode that `vfs_create_file` returned.
pub vfs_resolve-vfs_create_file :
    (served : ℕ → Bool) (stack : ℕ × Name) (cwd : ℕ) (path : Name) (t t' : Inodes) (parent : ℕ)
    (leaf : Name) (ino : ℕ)
    → IsLinked t
    → vfs_resolve t cwd path ≡ some (some (parent, leaf), none)
    → vfs_create_file served stack cwd path t ≡ (some ino, t')
    → vfs_resolve t' cwd path ≡ some (some (parent, leaf), some ino)
unfolding vfs_create_file
vfs_resolve-vfs_create_file served stack cwd path t t' parent leaf ino ok new e =
    let c = create_at-Created served parent leaf t t' ino ok (rw (new, vfs_create_file) at e) in
    let dirs = new_dirs ino parent leaf t c.middle t' c.fresh c.added in
    let keep = new_keep ino parent leaf t c.middle t' c.fresh c.added in
    let (kept, short) = vfs_resolve-kept t t' dirs keep cwd path parent leaf new in
    kept
    ∙ ap (λ o. some (some (parent, leaf), o))
        (new_name ino parent leaf t c.middle t' c.fresh c.added c.into c.absent short)
