-- ===== src/Vfs/Tree/Removing.antt =====
-- What `dir_remove_entry` of kernel/fs/vfs.c does to the table.
use spike_os.Prelude.{
  ℕ, ◌+◌, ◌-◌, ◌%◌, ◌^◌, ◌<◌, ◌≡◌, refl, true, false, some, List, [], arith, ◌==◌, if◌then◌else◌,
  length, get_or, set, Bool-cases, inl, inr, ◌∙◌, sym, ap, ◌⊎◌, length-set,
}
use mathlib.Core.Path.{subst}
use spike_os.Vfs.Tree.{Name, Dirent, Node, Inodes, node_at, is_directory, dir_lookup, drop_link}
use spike_os.Vfs.Tree.Edit.{
  is_unused, zero_entry, swap_last, remove_at, remove_found, dir_remove_entry,
}
use spike_os.Vfs.Tree.Links.{one_if, named, names, named-swap_last, names-set, names-drop_link}
use spike_os.Vfs.Tree.Linked.{IsLinked, node_at-set, inside, used_directory}
use spike_os.Vfs.Tree.Entries.{entry_index-find_entry}

-- The table `t'` is `t` with an entry for `child` less in a directory, and a link less of `child`.
pub record Removed (dir child : ℕ) (t t' : Inodes) : Type 0 where
  pub from_directory : is_directory (node_at t dir).type ≡ true
  pub types : (j : ℕ) → (node_at t' j).type ≡ (node_at t j).type
  pub contents : (j : ℕ) → (dir == j) ≡ false → (node_at t' j).entries ≡ (node_at t j).entries
  pub links :
      (j : ℕ)
      → (node_at t' j).link_count ≡ (
          if child == j
          then ((node_at t j).link_count + (2 ^ 16 - 1)) % 2 ^ 16
          else (node_at t j).link_count)
  pub counts : (j : ℕ) → names j t' + one_if (child == j) ≡ names j t
  pub size : length t' ≡ length t

module _ (child : ℕ) (t : Inodes) (child_inside : child < length t) where
  abbrev fewer : Node
  fewer = record (node_at t child) {
    link_count = ((node_at t child).link_count + (2 ^ 16 - 1)) % 2 ^ 16;
  }

  at_dropped : (j : ℕ) → node_at (drop_link child t) j ≡ (if child == j then fewer else node_at t j)
  unfolding drop_link
  at_dropped j = node_at-set t child j _ child_inside

  -- A field that a lost link leaves alone.
  pub drop_link-field {ℓ} :
      {A : Type ℓ} (g : Node → A) (j : ℕ)
      → ((m : Node) (l : ℕ) → g (record m { link_count = l }) ≡ g m)
      → g (node_at (drop_link child t) j) ≡ g (node_at t j)
  drop_link-field g j keep = ap g (at_dropped j) ∙ elim (Bool-cases (child == j)) [
    | inl e ↦
        let p : child ≡ j = ground (arith, e) in
        rw e (keep (node_at t child) _ ∙ ap (λ i. g (node_at t i)) p)
    | inr f ↦ rw f refl
  ]

  pub drop_link-links :
      (j : ℕ)
      → (node_at (drop_link child t) j).link_count ≡ (
          if child == j
          then ((node_at t j).link_count + (2 ^ 16 - 1)) % 2 ^ 16
          else (node_at t j).link_count)
  drop_link-links j =
      ap (λ (m : Node). m.link_count) (at_dropped j) ∙ elim (Bool-cases (child == j)) [
        | inl e ↦
            let p : child ≡ j = ground (arith, e) in
            rw e (ap (λ i. ((node_at t i).link_count + (2 ^ 16 - 1)) % 2 ^ 16) p)
        | inr f ↦ rw f refl
      ]

module _ (dir k : ℕ) (t : Inodes) (is_dir : is_directory (node_at t dir).type ≡ true)
    (in_bounds : k < length (node_at t dir).entries) where
  abbrev child : ℕ
  child = (get_or (node_at t dir).entries k zero_entry).inode

  module _ (child_inside : child < length t) where
    abbrev lowered : Inodes
    lowered = drop_link child t

    abbrev less : Inodes
    less =
        set lowered dir
          (record (node_at lowered dir) { entries = swap_last k (node_at lowered dir).entries })

    dir_inside : dir < length lowered
    unfolding drop_link
    dir_inside = omega (
      arith,
      inside t dir (used_directory _ is_dir),
      length-set t child (fewer child t child_inside),
    )

    at_less :
        (j : ℕ)
        → node_at less j ≡ (
            if dir == j
            then record (node_at lowered dir) {
              entries = swap_last k (node_at lowered dir).entries;
            }
            else node_at lowered j)
    at_less j = node_at-set lowered dir j _ dir_inside

    less_field {ℓ} :
        {A : Type ℓ} (g : Node → A) (j : ℕ)
        → ((m : Node) (es : List Dirent) → g (record m { entries = es }) ≡ g m)
        → g (node_at less j) ≡ g (node_at lowered j)
    less_field g j keep = ap g (at_less j) ∙ elim (Bool-cases (dir == j)) [
      | inl e ↦
          let p : dir ≡ j = ground (arith, e) in
          rw e (keep (node_at lowered dir) _ ∙ ap (λ i. g (node_at lowered i)) p)
      | inr f ↦ rw f refl
    ]

    same_entries : (j : ℕ) → (node_at lowered j).entries ≡ (node_at t j).entries
    same_entries j = drop_link-field child t child_inside (λ (m : Node). m.entries) j (λ m l. refl)

    less_counts : (j : ℕ) → names j less + one_if (child == j) ≡ names j t
    less_counts j = omega (
      arith,
      names-set j dir lowered
          (record (node_at lowered dir) { entries = swap_last k (node_at lowered dir).entries })
          dir_inside,
      names-drop_link j child t,
      ap (λ es. named j es) (same_entries dir),
      ap (λ es. named j (swap_last k es)) (same_entries dir),
      named-swap_last j k (node_at t dir).entries in_bounds,
    )

    less_size : length less ≡ length t
    unfolding drop_link
    less_size = length-set lowered dir _ ∙ length-set t child (fewer child t child_inside)

    less-Removed : Removed dir child t less
    less-Removed = record {
      from_directory = is_dir;
      types = λ j.
          less_field (λ (m : Node). m.type) j (λ m es. refl)
          ∙ drop_link-field child t child_inside (λ (m : Node). m.type) j (λ m l. refl);
      contents = λ j f. ap (λ (m : Node). m.entries) (at_less j) ∙ rw f (same_entries j);
      links = λ j.
          less_field (λ (m : Node). m.link_count) j (λ m es. refl)
          ∙ drop_link-links child t child_inside j;
      counts = less_counts;
      size = less_size;
    }

-- The entry of a name in a directory goes.
pub dir_remove_entry-Removed :
    (t : Inodes) (dir : ℕ) (name : Name) (ino : ℕ)
    → dir_lookup t dir name ≡ some ino
    → ino < length t
    → (t' : Inodes) × (dir_remove_entry t dir name ≡ some t') × Removed dir ino t t'
unfolding dir_lookup dir_remove_entry remove_found remove_at
dir_remove_entry-Removed t dir name ino e lt =
    cases (Bool-cases (is_directory (node_at t dir).type))
  where
    cases :
        (is_directory (node_at t dir).type ≡ true) ⊎ (is_directory (node_at t dir).type ≡ false)
        → (t' : Inodes) × (dir_remove_entry t dir name ≡ some t') × Removed dir ino t t'
    cases (inr f) = absurd (ground (arith, rw f at e))
    cases (inl d) =
        let (k, at_k, bound, same) =
          entry_index-find_entry name (node_at t dir).entries ino (rw d at e) in
        let r = less-Removed dir k t d bound (omega (arith, lt, same)) in
        (
          remove_at dir k t,
          rw d (rw (at_k, remove_found) refl),
          subst (λ i. Removed dir i t (remove_at dir k t)) same r,
        )

-- An entry less keeps the counts, on 16 bits.
pub Removed-IsLinked :
    (dir child : ℕ) (t t' : Inodes) → IsLinked t → Removed dir child t t' → IsLinked t'
Removed-IsLinked dir child t t' ok r = record {
  counted = λ j. r_counted j (Bool-cases (child == j));
  closed = λ j u. omega (arith, r.counts j, ok.closed j (sym (ap is_unused (r.types j)) ∙ u));
  plain = λ j d. r_plain j (sym (ap is_directory (r.types j)) ∙ d) (Bool-cases (dir == j));
}
  where
    r_counted :
        (j : ℕ)
        → ((child == j) ≡ true) ⊎ ((child == j) ≡ false)
        → (node_at t' j).link_count ≡ names j t' % 2 ^ 16
    r_counted j (inl e) = r.links j ∙ rw e (omega (arith, ok.counted j, rw e at (r.counts j)))
    r_counted j (inr f) = r.links j ∙ rw f (omega (arith, ok.counted j, rw f at (r.counts j)))

    r_plain :
        (j : ℕ)
        → is_directory (node_at t j).type ≡ false
        → ((dir == j) ≡ true) ⊎ ((dir == j) ≡ false)
        → (node_at t' j).entries ≡ []
    r_plain j d (inl e) =
        let p : dir ≡ j = ground (arith, e) in
        absurd (ground (arith, d, r.from_directory, ap (λ k. is_directory (node_at t k).type) p))
    r_plain j d (inr f) = r.contents j f ∙ ok.plain j d
