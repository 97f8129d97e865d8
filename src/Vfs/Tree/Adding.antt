-- ===== src/Vfs/Tree/Adding.antt =====
-- What `dir_add_entry` of kernel/fs/vfs.c does to the table.
use mathlib.Core.Option.{some_inj}
use mathlib.Core.Path.{subst}
use spike_os.Prelude.{
  ℕ, ◌+◌, ◌%◌, ◌^◌, ◌<◌, ◌≡◌, refl, Bool, true, false, none, some, [], ◌∷◌, ◌++◌, arith, ◌==◌,
  if◌then◌else◌, length, take, set, Bool-cases, inl, inr, ◌∙◌, sym, ap, ◌⊎◌, length-set,
  Option-cases,
}
use spike_os.Vfs.Tree.{
  Name, max_name, Dirent, Node, Inodes, node_at, is_directory, add_link, grow_slots, append_entry,
  dir_add_entry,
}
use spike_os.Vfs.Tree.Edit.{is_unused}
use spike_os.Vfs.Tree.Links.{one_if, named, names, named-append, names-set, names-add_link}
use spike_os.Vfs.Tree.Linked.{IsLinked, node_at-set, inside, used_directory}

-- The table `t'` is `t` with an entry more in a directory, and a link more of the inode that it names.
pub record Added (dir : ℕ) (entry : Dirent) (t t' : Inodes) : Type 0 where
  pub into_directory : is_directory (node_at t dir).type ≡ true
  pub types : (j : ℕ) → (node_at t' j).type ≡ (node_at t j).type
  pub contents :
      (j : ℕ)
      → (node_at t' j).entries
        ≡ (if dir == j then (node_at t j).entries ++ (entry ∷ []) else (node_at t j).entries)
  pub links :
      (j : ℕ)
      → (node_at t' j).link_count ≡ (
          if entry.inode == j
          then ((node_at t j).link_count + 1) % 2 ^ 16
          else (node_at t j).link_count)
  pub counts : (j : ℕ) → names j t' ≡ names j t + one_if (entry.inode == j)

-- A node with more slots.
record Roomier (n n' : Node) : Type 0 where
  same_type : n'.type ≡ n.type
  same_entries : n'.entries ≡ n.entries
  same_links : n'.link_count ≡ n.link_count

grow_slots-Roomier : (served : Bool) (n n' : Node) → grow_slots served n ≡ some n' → Roomier n n'
unfolding grow_slots
grow_slots-Roomier served n n' e = record {
  same_type = ground (arith, e);
  same_entries = ground (arith, e);
  same_links = ground (arith, e);
}

module _ (dir : ℕ) (entry : Dirent) (t : Inodes) (n : Node) (same : Roomier (node_at t dir) n)
    (is_dir : is_directory (node_at t dir).type ≡ true) (within : entry.inode < length t) where
  abbrev filled : Inodes
  filled = set t dir (record n { entries = n.entries ++ (entry ∷ []) })

  dir_inside : dir < length t
  dir_inside = inside t dir (used_directory _ is_dir)

  child_inside : entry.inode < length filled
  child_inside =
      omega (arith, within, length-set t dir (record n { entries = n.entries ++ (entry ∷ []) }))

  at_filled :
      (j : ℕ)
      → node_at filled j
        ≡ (if dir == j then record n { entries = n.entries ++ (entry ∷ []) } else node_at t j)
  at_filled j = node_at-set t dir j _ dir_inside

  at_linked :
      (j : ℕ)
      → node_at (add_link entry.inode filled) j ≡ (
          if entry.inode == j
          then record (node_at filled entry.inode) {
            link_count = ((node_at filled entry.inode).link_count + 1) % 2 ^ 16;
          }
          else node_at filled j)
  unfolding add_link
  at_linked j = node_at-set filled entry.inode j _ child_inside

  -- A field that a new link leaves alone.
  through {ℓ} :
      {A : Type ℓ} (g : Node → A) (j : ℕ)
      → ((m : Node) (k : ℕ) → g (record m { link_count = k }) ≡ g m)
      → g (node_at (add_link entry.inode filled) j) ≡ g (node_at filled j)
  through g j keep = ap g (at_linked j) ∙ elim (Bool-cases (entry.inode == j)) [
    | inl e ↦
        let p : entry.inode ≡ j = ground (arith, e) in
        rw e (keep (node_at filled entry.inode) _ ∙ ap (λ k. g (node_at filled k)) p)
    | inr f ↦ rw f refl
  ]

  same_at {ℓ} :
      {A : Type ℓ} (g : Node → A) (j : ℕ)
      → g n ≡ g (node_at t dir)
      → (dir == j) ≡ true
      → g n ≡ g (node_at t j)
  same_at g j e d = let p : dir ≡ j = ground (arith, d) in e ∙ ap (λ k. g (node_at t k)) p

  filled_type : (j : ℕ) → (node_at filled j).type ≡ (node_at t j).type
  filled_type j = ap (λ (m : Node). m.type) (at_filled j) ∙ elim (Bool-cases (dir == j)) [
    | inl d ↦ rw d (same_at (λ (m : Node). m.type) j same.same_type d)
    | inr f ↦ rw f refl
  ]

  filled_entries :
      (j : ℕ)
      → (node_at filled j).entries
        ≡ (if dir == j then (node_at t j).entries ++ (entry ∷ []) else (node_at t j).entries)
  filled_entries j = ap (λ (m : Node). m.entries) (at_filled j) ∙ elim (Bool-cases (dir == j)) [
    | inl d ↦
        rw d
          (ap (λ es. es ++ (entry ∷ [])) (same_at (λ (m : Node). m.entries) j same.same_entries d))
    | inr f ↦ rw f refl
  ]

  filled_link : (j : ℕ) → (node_at filled j).link_count ≡ (node_at t j).link_count
  filled_link j = ap (λ (m : Node). m.link_count) (at_filled j) ∙ elim (Bool-cases (dir == j)) [
    | inl d ↦ rw d (same_at (λ (m : Node). m.link_count) j same.same_links d)
    | inr f ↦ rw f refl
  ]

  new_link :
      (j : ℕ)
      → (node_at (add_link entry.inode filled) j).link_count ≡ (
          if entry.inode == j
          then ((node_at t j).link_count + 1) % 2 ^ 16
          else (node_at t j).link_count)
  new_link j =
      ap (λ (m : Node). m.link_count) (at_linked j) ∙ elim (Bool-cases (entry.inode == j)) [
        | inl e ↦
            let p : entry.inode ≡ j = ground (arith, e) in
            rw e (
              ap (λ k. (k + 1) % 2 ^ 16)
                (filled_link entry.inode ∙ ap (λ k. (node_at t k).link_count) p))
        | inr f ↦ rw f (filled_link j)
      ]

  new_names :
      (j : ℕ) → names j (add_link entry.inode filled) ≡ names j t + one_if (entry.inode == j)
  new_names j = omega (
    arith,
    names-add_link j entry.inode filled,
    names-set j dir t (record n { entries = n.entries ++ (entry ∷ []) }) dir_inside,
    named-append j n.entries (entry ∷ []),
    ap (λ es. named j es) same.same_entries,
    one_named j,
  )
    where
      one_named : (j : ℕ) → named j (entry ∷ []) ≡ one_if (entry.inode == j)
      one_named j = unfold named in omega arith

  filled-Added : Added dir entry t (add_link entry.inode filled)
  filled-Added = record {
    into_directory = is_dir;
    types = λ j. through (λ (m : Node). m.type) j (λ m k. refl) ∙ filled_type j;
    contents = λ j. through (λ (m : Node). m.entries) j (λ m k. refl) ∙ filled_entries j;
    links = new_link;
    counts = new_names;
  }

abbrev pub entry_for : Name → (child : ℕ) → Dirent
entry_for name child = record { name = take max_name name; inode = child }

pub dir_add_entry-Added :
    (served : Bool) (t : Inodes) (dir : ℕ) (name : Name) (child : ℕ) (t' : Inodes)
    → child < length t
    → dir_add_entry served t dir name child ≡ some t'
    → Added dir (entry_for name child) t t'
unfolding dir_add_entry append_entry
dir_add_entry-Added served t dir name child t' within e =
    cases (Bool-cases (is_directory (node_at t dir).type))
      (Option-cases (grow_slots served (node_at t dir)))
  where
    cases :
        (is_directory (node_at t dir).type ≡ true) ⊎ (is_directory (node_at t dir).type ≡ false)
        → (grow_slots served (node_at t dir) ≡ none)
          ⊎ ((n : Node) × (grow_slots served (node_at t dir) ≡ some n))
        → Added dir (entry_for name child) t t'
    cases (inr f) o = absurd (ground (arith, rw f at e))
    cases (inl d) (inl o) = absurd (ground (arith, rw o at (rw d at e)))
    cases (inl d) (inr (n, o)) =
        subst (λ r. Added dir (entry_for name child) t r)
          (some_inj.0 (rw (o, append_entry) at (rw d at e)))
          (filled-Added dir (entry_for name child) t n (grow_slots-Roomier served _ n o) d within)

-- A new entry keeps the counts, on 16 bits.
pub Added-IsLinked :
    (dir : ℕ) (entry : Dirent) (t t' : Inodes)
    → is_unused (node_at t entry.inode).type ≡ false
    → IsLinked t
    → Added dir entry t t'
    → IsLinked t'
Added-IsLinked dir entry t t' used ok a = record {
  counted = λ j. a_counted j (Bool-cases (entry.inode == j));
  closed = λ j u. a_closed j (sym (ap is_unused (a.types j)) ∙ u) (Bool-cases (entry.inode == j));
  plain = λ j d. a_plain j (sym (ap is_directory (a.types j)) ∙ d) (Bool-cases (dir == j));
}
  where
    a_counted :
        (j : ℕ)
        → ((entry.inode == j) ≡ true) ⊎ ((entry.inode == j) ≡ false)
        → (node_at t' j).link_count ≡ names j t' % 2 ^ 16
    a_counted j (inl e) =
        rw (a.links j, a.counts j) (rw e (ap (λ k. (k + 1) % 2 ^ 16) (ok.counted j) ∙ omega arith))
    a_counted j (inr f) = rw (a.links j, a.counts j) (rw f (ok.counted j ∙ omega arith))

    a_closed :
        (j : ℕ)
        → is_unused (node_at t j).type ≡ true
        → ((entry.inode == j) ≡ true) ⊎ ((entry.inode == j) ≡ false)
        → names j t' ≡ 0
    a_closed j u (inl e) =
        let p : entry.inode ≡ j = ground (arith, e) in
        absurd (ground (arith, u, used, ap (λ k. is_unused (node_at t k).type) p))
    a_closed j u (inr f) = rw (a.counts j) (rw f (omega (arith, ok.closed j u)))

    a_plain :
        (j : ℕ)
        → is_directory (node_at t j).type ≡ false
        → ((dir == j) ≡ true) ⊎ ((dir == j) ≡ false)
        → (node_at t' j).entries ≡ []
    a_plain j d (inl e) =
        let p : dir ≡ j = ground (arith, e) in
        absurd (ground (arith, d, a.into_directory, ap (λ k. is_directory (node_at t k).type) p))
    a_plain j d (inr f) = a.contents j ∙ rw f (ok.plain j d)
