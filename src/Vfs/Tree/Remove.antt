-- ===== src/Vfs/Tree/Remove.antt =====
-- `vfs_remove` of kernel/fs/vfs.c.
use mathlib.Core.Path.{subst}
use mathlib.Core.Option.{some_inj}
use spike_os.Prelude.{
  ℕ, ◌+◌, ◌-◌, ◌%◌, ◌^◌, ◌≤◌, ◌<◌, ◌≡◌, ◌≢◌, refl, true, false, some, [], ◌∷◌, arith, ◌==◌, ltb,
  if◌then◌else◌, length, Bool-cases, inl, inr, ◌∙◌, ap, ◌⊎◌,
}
use spike_os.Vfs.{unused_inode}
use spike_os.Vfs.Tree.{
  Name, slash, Node, Inodes, node_at, is_directory, dir_lookup, drop_link, start_inode, vfs_resolve,
}
use spike_os.Vfs.Tree.Edit.{is_unused, inode_free}
use spike_os.Vfs.Tree.Links.{one_if, names, names-drop_link}
use spike_os.Vfs.Tree.Linked.{
  IsLinked, Claimed-IsLinked, node_at-Claimed, inode_free-Claimed, inside, used_directory,
}
use spike_os.Vfs.Tree.Removing.{
  Removed, dir_remove_entry-Removed, Removed-IsLinked, drop_link-field, drop_link-links,
}
use spike_os.Vfs.Tree.Entries.{dir_lookup-names}
use spike_os.Vfs.Tree.Resolve.{Looked, vfs_resolve-Looked}
use spike_os.Vfs.Tree.Calls.{drop_name, may_remove, remove_inode, remove_resolved, vfs_remove}

pub start_cases :
    (cwd : ℕ) (path : Name) → (start_inode cwd path ≡ 0) ⊎ (start_inode cwd path ≡ cwd)
unfolding start_inode
start_cases cwd [] = inr refl
start_cases cwd (c ∷ p) = elim (Bool-cases (c == slash)) [
  | inl e ↦ rw e (inl refl)
  | inr f ↦ rw f (inr refl)
]

-- What may be removed was found in its parent.
module _ (cwd : ℕ) (path : Name) (t : Inodes) (parent : ℕ) (leaf : Name) (ino : ℕ)
    (resolved : vfs_resolve t cwd path ≡ some (some (parent, leaf), some ino))
    (allowed : may_remove cwd (parent, leaf) ino ≡ true) where
  found_there : dir_lookup t parent leaf ≡ some ino
  unfolding may_remove
  found_there =
      cases
        (subst (λ r. Looked t (start_inode cwd path) r) resolved (vfs_resolve-Looked t cwd path))
    where
      cases :
          (dir_lookup t parent leaf ≡ some ino)
            ⊎ ((leaf ≡ []) × (some ino ≡ some (start_inode cwd path)))
          → dir_lookup t parent leaf ≡ some ino
      cases (inl l) = l
      cases (inr (e, q)) =
          let at_start : ino ≡ start_inode cwd path = some_inj.0 q in
          elim (start_cases cwd path) [
            | inl z ↦ absurd (ground (arith, allowed, at_start ∙ z))
            | inr w ↦ absurd (ground (arith, allowed, at_start ∙ w))
          ]

  used_ino : IsLinked t → is_unused (node_at t ino).type ≡ false
  used_ino ok = elim (Bool-cases (is_unused (node_at t ino).type)) [
    | inl u ↦
        absurd (omega (arith, ok.closed ino u, (dir_lookup-names t parent leaf ino found_there).1))
    | inr f ↦ f
  ]

-- The table `t'` is `t` with a name of `ino` less, and `ino` is free exactly if that was its last one.
pub record Unlinked (ino : ℕ) (t t' : Inodes) : Type 0 where
  pub linked : IsLinked t'
  pub one_less : names ino t' + 1 ≡ names ino t
  pub others : (j : ℕ) → j ≢ ino → names j t' ≡ names j t
  pub freed : names ino t' ≡ 0 → is_unused (node_at t' ino).type ≡ true
  pub kept : names ino t' ≢ 0 → (node_at t' ino).type ≡ (node_at t ino).type
  pub within : ino < length t'

module _ (parent : ℕ) (leaf : Name) (ino : ℕ) (t : Inodes) (ok : IsLinked t)
    (few : names ino t < 2 ^ 16) (plain : is_directory (node_at t ino).type ≡ false)
    (used : is_unused (node_at t ino).type ≡ false)
    (there : dir_lookup t parent leaf ≡ some ino) where
  pub drop_name-Unlinked : Unlinked ino t (drop_name (parent, leaf) ino t)
  unfolding drop_name
  drop_name-Unlinked =
      let (t1, e, r) = dir_remove_entry-Removed t parent leaf ino there (inside t ino used) in
      rw e (cases t1 r (Bool-cases ((node_at t1 ino).link_count == 0)))
    where
      counted : (t1 : Inodes) → Removed parent ino t t1 → names ino t1 + 1 ≡ names ino t
      counted t1 r =
          let on : one_if (ino == ino) ≡ 1 = ground arith in omega (arith, r.counts ino, on)

      apart : (t1 : Inodes) → Removed parent ino t t1 → (j : ℕ) → j ≢ ino → names j t1 ≡ names j t
      apart t1 r j ne =
          let off : one_if (ino == j) ≡ 0 = ground (arith, ne) in omega (arith, r.counts j, off)

      cases :
          (t1 : Inodes)
          → Removed parent ino t t1
          → (((node_at t1 ino).link_count == 0) ≡ true)
            ⊎ (((node_at t1 ino).link_count == 0) ≡ false)
          → Unlinked ino t (if (node_at t1 ino).link_count == 0 then inode_free ino t1 else t1)
      cases t1 r (inr f) = rw f record {
        linked = Removed-IsLinked parent ino t t1 ok r;
        one_less = counted t1 r;
        others = apart t1 r;
        freed = λ z.
            let no_link : (node_at t1 ino).link_count ≡ 0 =
              omega (arith, (Removed-IsLinked parent ino t t1 ok r).counted ino, z) in
            absurd (ground (arith, f, no_link));
        kept = λ some_left. r.types ino;
        within = inside t1 ino (ap is_unused (r.types ino) ∙ used);
      }
      cases t1 r (inl z) =
          let ok1 = Removed-IsLinked parent ino t t1 ok r in
          let no_link : (node_at t1 ino).link_count ≡ 0 = ground (arith, z) in
          let unnamed : names ino t1 ≡ 0 =
            omega (arith, ok1.counted ino, no_link, counted t1 r, few) in
          let empty = ok1.plain ino (ap is_directory (r.types ino) ∙ plain) in
          let c =
            inode_free-Claimed ino t1 unnamed empty
              (inside t1 ino (ap is_unused (r.types ino) ∙ used)) in
          rw z record {
            linked = Claimed-IsLinked unused_inode ino t1 (inode_free ino t1) ok1 c;
            one_less = ap (λ k. k + 1) (c.same_names ino) ∙ counted t1 r;
            others = λ j ne. c.same_names j ∙ apart t1 r j ne;
            freed =
                λ n. ap (λ (m : Node). is_unused m.type) (node_at-Claimed unused_inode ino t1 _ c);
            kept = λ some_left. absurd (some_left (c.same_names ino ∙ unnamed));
            within = c.within;
          }

-- `vfs_remove` of a file, by a path that may be removed, of which fewer than 2^16 names exist: it succeeds,
-- the file has one name less and no other inode has, the link counts stay those of the names, and the
-- inode is cleared exactly if that was its last name.
pub vfs_remove-Unlinked :
    (stack : ℕ × Name) (cwd : ℕ) (path : Name) (t : Inodes) (parent : ℕ) (leaf : Name) (ino : ℕ)
    → IsLinked t
    → names ino t < 2 ^ 16
    → vfs_resolve t cwd path ≡ some (some (parent, leaf), some ino)
    → may_remove cwd (parent, leaf) ino ≡ true
    → is_directory (node_at t ino).type ≡ false
    → ((vfs_remove stack cwd path t).0 ≡ true) × Unlinked ino t (vfs_remove stack cwd path t).1
unfolding vfs_remove remove_resolved remove_inode
vfs_remove-Unlinked stack cwd path t parent leaf ino ok few resolved allowed plain =
    let there = found_there cwd path t parent leaf ino resolved allowed in
    let used = used_ino cwd path t parent leaf ino resolved allowed ok in
    rw (resolved, vfs_remove)
      (rw (allowed, plain) (refl, drop_name-Unlinked parent leaf ino t ok few plain used there))

module _ (parent : ℕ) (leaf : Name) (ino : ℕ) (t : Inodes)
    (there : dir_lookup t parent leaf ≡ some ino) (used : is_unused (node_at t ino).type ≡ false)
    (apart : parent ≢ ino) (linked : 2 ≤ (node_at t ino).link_count)
    (narrow : (node_at t ino).link_count < 2 ^ 16) where
  parent_inside : parent < length t
  parent_inside = inside t parent (used_directory _ (dir_lookup-names t parent leaf ino there).0)

  same_lookup : dir_lookup (drop_link parent t) parent leaf ≡ some ino
  unfolding dir_lookup
  same_lookup =
      rw
        (
          drop_link-field parent t parent_inside (λ (m : Node). m.type) parent (λ m l. refl),
          drop_link-field parent t parent_inside (λ (m : Node). m.entries) parent (λ m l. refl),
        )
        there

  same_type : (node_at (drop_link parent t) ino).type ≡ (node_at t ino).type
  same_type = drop_link-field parent t parent_inside (λ (m : Node). m.type) ino (λ m l. refl)

  same_link : (node_at (drop_link parent t) ino).link_count ≡ (node_at t ino).link_count
  same_link =
      let off : (parent == ino) ≡ false = ground (arith, apart) in
      drop_link-links parent t parent_inside ino ∙ rw off refl

  leaked :
      ((node_at (drop_name (parent, leaf) ino (drop_link parent t)) ino).type
        ≡ (node_at t ino).type)
      × (names ino (drop_name (parent, leaf) ino (drop_link parent t)) + 1 ≡ names ino t)
  unfolding drop_name
  leaked =
      let t0 = drop_link parent t in
      let (t1, e, r) =
        dir_remove_entry-Removed t0 parent leaf ino same_lookup
          (inside t0 ino (ap is_unused same_type ∙ used)) in
      rw e (
        let on : (ino == ino) ≡ true = ground arith in
        let left : (node_at t1 ino).link_count
            ≡ ((node_at t ino).link_count + (2 ^ 16 - 1)) % 2 ^ 16 =
          r.links ino ∙ rw on (ap (λ l. (l + (2 ^ 16 - 1)) % 2 ^ 16) same_link) in
        let f : ((node_at t1 ino).link_count == 0) ≡ false =
          some_left (node_at t1 ino).link_count left in
        let counted : names ino t1 + 1 ≡ names ino t =
          omega (arith, rw on at (r.counts ino), names-drop_link ino parent t) in
        rw f (r.types ino ∙ same_type, counted))
    where
      some_left :
          (l : ℕ) → l ≡ ((node_at t ino).link_count + (2 ^ 16 - 1)) % 2 ^ 16 → (l == 0) ≡ false
      some_left l e = let more : 1 ≤ l = omega (arith, e, linked, narrow) in ground (arith, more)

-- `vfs_remove` of an empty directory that has two links or more, as one that `vfs_mkdir` made has by its
-- own ".", succeeds and takes its name out of the parent, but never frees the inode: it stays a directory.
pub rmdir_leaks :
    (stack : ℕ × Name) (cwd : ℕ) (path : Name) (t : Inodes) (parent : ℕ) (leaf : Name) (ino : ℕ)
    → IsLinked t
    → vfs_resolve t cwd path ≡ some (some (parent, leaf), some ino)
    → may_remove cwd (parent, leaf) ino ≡ true
    → is_directory (node_at t ino).type ≡ true
    → length (node_at t ino).entries ≤ 2
    → parent ≢ ino
    → 2 ≤ (node_at t ino).link_count
    → ((vfs_remove stack cwd path t).0 ≡ true)
      × (is_directory (node_at (vfs_remove stack cwd path t).1 ino).type ≡ true)
      × (names ino (vfs_remove stack cwd path t).1 + 1 ≡ names ino t)
unfolding vfs_remove remove_resolved remove_inode
rmdir_leaks stack cwd path t parent leaf ino ok resolved allowed dir small apart linked =
    let there = found_there cwd path t parent leaf ino resolved allowed in
    let used = used_ino cwd path t parent leaf ino resolved allowed ok in
    let narrow : (node_at t ino).link_count < 2 ^ 16 = omega (arith, ok.counted ino) in
    let few : ltb 2 (length (node_at t ino).entries) ≡ false = ground (arith, small) in
    let (same, counted) = leaked parent leaf ino t there used apart linked narrow in
    rw (resolved, vfs_remove)
      (rw (allowed, dir) (rw few (refl, ap is_directory same ∙ dir, counted)))
