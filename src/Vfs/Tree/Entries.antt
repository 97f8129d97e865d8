-- ===== src/Vfs/Tree/Entries.antt =====
-- Where the entry of a name stands in a directory.
use spike_os.Prelude.{
  ℕ, zero, suc, ◌≤◌, ◌<◌, ◌≡◌, refl, Bool, true, false, none, some, List, [], ◌∷◌, arith, ◌==◌,
  length, get_or, Bool-cases, inl, inr, ◌⊎◌,
}
use spike_os.Prelude.Search.{search, Found, found, missing, search-Found}
use spike_os.Vfs.Tree.{
  Name, Dirent, Inodes, zero_node, node_at, is_directory, same_name, find_entry, dir_lookup,
}
use spike_os.Vfs.Tree.Edit.{zero_entry, entry_index}
use spike_os.Vfs.Tree.Links.{one_if, named, names, named-swap_last, names-set}
use spike_os.Vfs.Tree.Linked.{inside, used_directory}

-- The search of `dir_lookup` and that of `dir_remove_entry` stop at the same entry.
pub find_none :
    (name : Name) (es : List Dirent)
    → ((j : ℕ) → j < length es → same_name (get_or es j zero_entry).name name ≡ false)
    → find_entry name es ≡ none
unfolding find_entry
find_none name [] all = refl
find_none name (e ∷ es) all =
    rw (all zero (omega arith)) (find_none name es (λ j lt. all (suc j) (omega (arith, lt))))

pub find_at :
    (name : Name) (es : List Dirent) (k : ℕ)
    → k < length es
    → same_name (get_or es k zero_entry).name name ≡ true
    → ((j : ℕ) → j < k → same_name (get_or es j zero_entry).name name ≡ false)
    → find_entry name es ≡ some (get_or es k zero_entry).inode
unfolding find_entry
find_at name [] k lt same before = absurd (omega (arith, lt))
find_at name (e ∷ es) zero lt same before = rw same refl
find_at name (e ∷ es) (suc k) lt same before =
    rw (before zero (omega arith))
      (find_at name es k (omega (arith, lt)) same (λ j s. before (suc j) (omega (arith, s))))

pub entry_index-find_entry :
    (name : Name) (es : List Dirent) (ino : ℕ)
    → find_entry name es ≡ some ino
    → (k : ℕ) × (entry_index name es ≡ some k)
      × (k < length es)
      × ((get_or es k zero_entry).inode ≡ ino)
unfolding entry_index
entry_index-find_entry name es ino e = cases (search-Found test (length es) 0)
  where
    test : ℕ → Bool
    test i = same_name (get_or es i zero_entry).name name

    cases :
        Found test (length es) 0 (search test (length es) 0)
        → (k : ℕ) × (entry_index name es ≡ some k)
          × (k < length es)
          × ((get_or es k zero_entry).inode ≡ ino)
    cases (missing all f) =
        absurd
          (ground (arith, e, find_none name es (λ j lt. all j (omega arith) (omega (arith, lt)))))
    cases (found k le lt same before f) =
        let inside : k < length es = omega (arith, lt) in
        let here = find_at name es k inside same (λ j s. before j (omega arith) s) in
        (k, f, inside, ground (arith, here, e))

pub find_entry-entry_index :
    (name : Name) (es : List Dirent) → find_entry name es ≡ none → entry_index name es ≡ none
unfolding entry_index
find_entry-entry_index name es e = cases (search-Found test (length es) 0)
  where
    test : ℕ → Bool
    test i = same_name (get_or es i zero_entry).name name

    cases : Found test (length es) 0 (search test (length es) 0) → search test (length es) 0 ≡ none
    cases (missing all f) = f
    cases (found k le lt same before f) =
        let here = find_at name es k (omega (arith, lt)) same (λ j s. before j (omega arith) s) in
        absurd (ground (arith, here, e))

-- What an entry names is named by the table.
pub dir_lookup-names :
    (t : Inodes) (dir : ℕ) (name : Name) (ino : ℕ)
    → dir_lookup t dir name ≡ some ino
    → (is_directory (node_at t dir).type ≡ true) × (1 ≤ names ino t)
unfolding dir_lookup
dir_lookup-names t dir name ino e = cases (Bool-cases (is_directory (node_at t dir).type))
  where
    cases :
        (is_directory (node_at t dir).type ≡ true) ⊎ (is_directory (node_at t dir).type ≡ false)
        → (is_directory (node_at t dir).type ≡ true) × (1 ≤ names ino t)
    cases (inr f) = absurd (ground (arith, rw f at e))
    cases (inl d) =
        let (k, at_k, bound, same) =
          entry_index-find_entry name (node_at t dir).entries ino (rw d at e) in
        let on : one_if ((get_or (node_at t dir).entries k zero_entry).inode == ino) ≡ 1 =
          ground (arith, same) in
        let empty : named ino zero_node.entries ≡ 0 = unfold named in refl in
        (
          d,
          omega (
            arith,
            on,
            empty,
            named-swap_last ino k (node_at t dir).entries bound,
            names-set ino dir t zero_node (inside t dir (used_directory _ d)),
          ),
        )
