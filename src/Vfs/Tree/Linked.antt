-- ===== src/Vfs/Tree/Linked.antt =====
-- Link counts of kernel/fs/vfs.c: what the allocation of an inode and a new entry do to them.
use spike_os.Prelude.{
  ℕ, zero, suc, ◌+◌, ◌-◌, ◌%◌, ◌^◌, ◌≤◌, ◌<◌, ◌≡◌, refl, Bool, true, false, some, [], ◌∷◌, ◌++◌,
  arith, ◌==◌, ltb, leb, if◌then◌else◌, length, set, replicate, Bool-cases, inl, inr, ◌∙◌, sym, ap,
  ◌⊎◌, length-append, length-set, get_or-set, dec_lt, length-replicate,
}
use mathlib.Core.Path.{subst}
use mathlib.Core.Option.{some_inj}
use spike_os.Prelude.Search.{search, Found, found, missing, search-Found}
use spike_os.Vfs.{InodeType, unused_inode}
use spike_os.Vfs.Tree.{Node, Inodes, zero_node, node_at, is_directory}
use spike_os.Vfs.Tree.Edit.{
  is_unused, inodes_cap, enlarge, vfs_ensure_capacity, claim_inode, claim_grown, doubled,
  grow_table, inode_alloc, inode_free,
}
use spike_os.Vfs.Tree.Links.{named, names, names-set, names-append_zero}

-- Each link count is the number of entries that name the inode, on 16 bits; no entry names an unused
-- inode, and only directories have entries.
pub record IsLinked (t : Inodes) : Type 0 where
  pub counted : (i : ℕ) → (node_at t i).link_count ≡ names i t % 2 ^ 16
  pub closed : (i : ℕ) → is_unused (node_at t i).type ≡ true → names i t ≡ 0
  pub plain : (i : ℕ) → is_directory (node_at t i).type ≡ false → (node_at t i).entries ≡ []

pub node_at-set :
    (t : Inodes) (k i : ℕ) (n : Node)
    → k < length t
    → node_at (set t k n) i ≡ (if k == i then n else node_at t i)
node_at-set t k i n lt = get_or-set t k i n zero_node lt

-- An inode outside of the table is unused.
beyond : (t : Inodes) (i : ℕ) → length t ≤ i → node_at t i ≡ zero_node
beyond [] i le = refl
beyond (n ∷ t) zero le = absurd (omega (arith, le))
beyond (n ∷ t) (suc i) le = beyond t i (omega (arith, le))

pub inside : (t : Inodes) (i : ℕ) → is_unused (node_at t i).type ≡ false → i < length t
inside t i u = elim (dec_lt i (length t)) [
  | yes lt ↦ lt
  | no ge ↦
      absurd (ground (arith, u, ap (λ (n : Node). is_unused n.type) (beyond t i (omega arith))))
]

pub used_directory : (type : InodeType) → is_directory type ≡ true → is_unused type ≡ false
used_directory type d = ground (arith, d)

pub plain_unused : (type : InodeType) → is_unused type ≡ true → is_directory type ≡ false
plain_unused type u = ground (arith, u)

node_at-append_zero :
    (n : ℕ) (t : Inodes) (i : ℕ) → node_at (t ++ replicate n zero_node) i ≡ node_at t i
node_at-append_zero zero [] i = refl
node_at-append_zero (suc n) [] zero = refl
node_at-append_zero (suc n) [] (suc i) = node_at-append_zero n [] i
node_at-append_zero n (m ∷ t) zero = refl
node_at-append_zero n (m ∷ t) (suc i) = node_at-append_zero n t i

-- The table `t'` is `t` with the inode `i`, which had no name, cleared and of the given type; no name
-- has changed.
pub record Claimed (type : InodeType) (i : ℕ) (t t' : Inodes) : Type 0 where
  pub unnamed : names i t ≡ 0
  pub within : i < length t'
  pub nodes :
      (j : ℕ) → node_at t' j ≡ (if i == j then record zero_node { type = type } else node_at t j)
  pub same_names : (j : ℕ) → names j t' ≡ names j t

pub Claimed-IsLinked :
    (type : InodeType) (i : ℕ) (t t' : Inodes) → IsLinked t → Claimed type i t t' → IsLinked t'
Claimed-IsLinked type i t t' ok c = record {
  counted = λ j. c_counted j (Bool-cases (i == j));
  closed = λ j u. c_closed j u (Bool-cases (i == j));
  plain = λ j d. c_plain j d (Bool-cases (i == j));
}
  where
    at_i : (j : ℕ) → (i == j) ≡ true → names j t ≡ 0
    at_i j e = let p : i ≡ j = ground (arith, e) in ap (λ k. names k t) (sym p) ∙ c.unnamed

    new_node : (j : ℕ) → (i == j) ≡ true → node_at t' j ≡ record zero_node { type = type }
    new_node j e = c.nodes j ∙ rw e refl

    old_node : (j : ℕ) → (i == j) ≡ false → node_at t' j ≡ node_at t j
    old_node j f = c.nodes j ∙ rw f refl

    c_counted :
        (j : ℕ)
        → ((i == j) ≡ true) ⊎ ((i == j) ≡ false)
        → (node_at t' j).link_count ≡ names j t' % 2 ^ 16
    c_counted j (inl e) = rw (new_node j e, c.same_names j, at_i j e) refl
    c_counted j (inr f) = rw (old_node j f, c.same_names j) (ok.counted j)

    c_closed :
        (j : ℕ)
        → is_unused (node_at t' j).type ≡ true
        → ((i == j) ≡ true) ⊎ ((i == j) ≡ false)
        → names j t' ≡ 0
    c_closed j u (inl e) = c.same_names j ∙ at_i j e
    c_closed j u (inr f) = c.same_names j ∙ ok.closed j (rw (old_node j f) at u)

    c_plain :
        (j : ℕ)
        → is_directory (node_at t' j).type ≡ false
        → ((i == j) ≡ true) ⊎ ((i == j) ≡ false)
        → (node_at t' j).entries ≡ []
    c_plain j d (inl e) = ap (λ (n : Node). n.entries) (new_node j e)
    c_plain j d (inr f) =
        ap (λ (n : Node). n.entries) (old_node j f) ∙ ok.plain j (rw (old_node j f) at d)

-- The inode that was claimed.
pub node_at-Claimed :
    (type : InodeType) (i : ℕ) (t t' : Inodes)
    → Claimed type i t t'
    → node_at t' i ≡ record zero_node { type = type }
node_at-Claimed type i t t' c = let on : (i == i) ≡ true = ground arith in c.nodes i ∙ rw on refl

-- Of an allocation.
abbrev pub Fresh : InodeType → ℕ → (t t' : Inodes) → Type 0
Fresh type i t t' = Claimed type i t t' × (is_unused (node_at t i).type ≡ true)

claim_inode-Claimed :
    (type : InodeType) (i n : ℕ) (t : Inodes)
    → IsLinked t
    → is_unused (node_at t i).type ≡ true
    → i < length t + n
    → Claimed type i t (claim_inode type i (t ++ replicate n zero_node))
unfolding claim_inode named
claim_inode-Claimed type i n t ok unused lt = record {
  unnamed = ok.closed i unused;
  within =
      omega
        (arith, size, length-set (t ++ replicate n zero_node) i (record zero_node { type = type }));
  nodes = λ j.
      node_at-set (t ++ replicate n zero_node) i j _ (omega (arith, size))
      ∙ rw (node_at-append_zero n t j) refl;
  same_names = λ j. omega (
    arith,
    names-set j i (t ++ replicate n zero_node) (record zero_node { type = type })
        (omega (arith, size)),
    names-append_zero j n t,
    ap (λ es. named j es)
        (ap (λ (m : Node). m.entries) (node_at-append_zero n t i)
          ∙ ok.plain i (plain_unused _ unused)),
  );
}
  where
    size : length (t ++ replicate n zero_node) ≡ length t + n
    size =
        omega
          (arith, length-append t (replicate n zero_node), length-replicate {A = Node} n zero_node)

-- A table with no room to grow into.
same_table : (t : Inodes) → t ++ replicate 0 zero_node ≡ t
same_table [] = refl
same_table (m ∷ t) = ap (λ r. m ∷ r) (same_table t)

grow_table-Claimed :
    (served : Bool) (type : InodeType) (t : Inodes) (i : ℕ) (t' : Inodes)
    → IsLinked t
    → grow_table served type t ≡ some (i, t')
    → Fresh type i t t'
unfolding grow_table vfs_ensure_capacity enlarge claim_grown
grow_table-Claimed served type t i t' ok e =
    cases (Bool-cases (leb d (length t))) (Bool-cases (leb inodes_cap (length t)))
      (Bool-cases served)
  where
    d : ℕ
    d = doubled (length t)

    room : ℕ
    room = if ltb inodes_cap d then inodes_cap else d

    cases :
        (leb d (length t) ≡ true) ⊎ (leb d (length t) ≡ false)
        → (leb inodes_cap (length t) ≡ true) ⊎ (leb inodes_cap (length t) ≡ false)
        → (served ≡ true) ⊎ (served ≡ false)
        → Fresh type i t t'
    cases (inl full) c s = absurd (ground (arith, rw full at e))
    cases (inr f) (inl c) s = absurd (ground (arith, rw c at (rw f at e)))
    cases (inr f) (inr c) (inr s) = absurd (ground (arith, rw s at (rw c at (rw f at e))))
    cases (inr f) (inr c) (inl s) =
        let larger : length t < room = ground (arith, f, c) in
        let unused : is_unused (node_at t (length t)).type ≡ true =
          ap (λ (n : Node). is_unused n.type) (beyond t (length t) (omega arith)) in
        let grown : some
              (length t, claim_inode type (length t) (t ++ replicate (room - length t) zero_node))
            ≡ some (i, t') =
          rw s at (rw c at (rw f at e)) in
        subst (λ (q : ℕ × Inodes). Fresh type q.0 t q.1) (some_inj.0 grown)
          (
            claim_inode-Claimed type (length t) (room - length t) t ok unused
                (omega (arith, larger)),
            unused,
          )

pub inode_alloc-Claimed :
    (served : Bool) (type : InodeType) (t : Inodes) (i : ℕ) (t' : Inodes)
    → IsLinked t
    → inode_alloc served type t ≡ some (i, t')
    → Fresh type i t t'
unfolding inode_alloc
inode_alloc-Claimed served type t i t' ok e =
    cases (search-Found (λ k. is_unused (node_at t k).type) (length t - 1) 1)
  where
    test : ℕ → Bool
    test k = is_unused (node_at t k).type

    cases : Found test (length t - 1) 1 (search test (length t - 1) 1) → Fresh type i t t'
    cases (found k le lt unused before f) =
        let c : Claimed type k t (claim_inode type k t) =
          subst (λ r. Claimed type k t (claim_inode type k r)) (same_table t)
            (claim_inode-Claimed type k 0 t ok unused (omega (arith, le, lt))) in
        let p : (k, claim_inode type k t) ≡ (i, t') = some_inj.0 (rw (f, inode_alloc) at e) in
        subst (λ (q : ℕ × Inodes). Fresh type q.0 t q.1) p (c, unused)
    cases (missing all f) = grow_table-Claimed served type t i t' ok (rw (f, inode_alloc) at e)

-- An inode with neither names nor entries is cleared.
pub inode_free-Claimed :
    (i : ℕ) (t : Inodes)
    → names i t ≡ 0
    → (node_at t i).entries ≡ []
    → i < length t
    → Claimed unused_inode i t (inode_free i t)
unfolding inode_free named
inode_free-Claimed i t unnamed empty lt =
    let inside : leb (length t) i ≡ false = ground arith in
    rw inside record {
      unnamed = unnamed;
      within = omega (arith, length-set t i zero_node);
      nodes = λ j. node_at-set t i j zero_node lt;
      same_names = λ j. omega (arith, names-set j i t zero_node lt, ap (λ es. named j es) empty);
    }
