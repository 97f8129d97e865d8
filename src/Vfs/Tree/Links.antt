-- ===== src/Vfs/Tree/Links.antt =====
-- How often the directories name an inode, and the link counts.
use spike_os.Prelude.{
  ℕ, zero, suc, ◌+◌, ◌-◌, ◌≤◌, ◌<◌, ◌≡◌, refl, Bool, List, [], ◌∷◌, ◌++◌, arith, ◌==◌, ltb,
  if◌then◌else◌, length, take, get_or, set, replicate, Bool-cases, inl, inr, ◌∙◌, sym, ap,
  length-set, get_or-set, dec_lt,
}
use spike_os.Vfs.Tree.{Dirent, Node, Inodes, zero_node, node_at, add_link, drop_link}
use spike_os.Vfs.Tree.Edit.{zero_entry, swap_last}

abbrev pub one_if : Bool → ℕ
one_if b = if b then 1 else 0

-- The entries that name `i`.
unfoldable pub named : ℕ → List Dirent → ℕ
named i [] = 0
named i (e ∷ es) = one_if (e.inode == i) + named i es

unfoldable pub names : ℕ → Inodes → ℕ
names i [] = 0
names i (n ∷ t) = named i n.entries + names i t

pub named-append : (i : ℕ) (es fs : List Dirent) → named i (es ++ fs) ≡ named i es + named i fs
unfolding named
named-append i [] fs = omega arith
named-append i (e ∷ es) fs = omega (arith, named-append i es fs)

named-set :
    (i k : ℕ) (es : List Dirent) (e : Dirent)
    → k < length es
    → named i (set es k e) + one_if ((get_or es k zero_entry).inode == i)
      ≡ named i es + one_if (e.inode == i)
unfolding named
named-set i k [] e lt = absurd (omega (arith, lt))
named-set i zero (f ∷ es) e lt = omega arith
named-set i (suc k) (f ∷ es) e lt = omega (arith, named-set i k es e (omega (arith, lt)))

named-last :
    (i n : ℕ) (es : List Dirent)
    → length es ≡ suc n
    → named i (take n es) + one_if ((get_or es n zero_entry).inode == i) ≡ named i es
unfolding named
named-last i n [] e = absurd (omega (arith, e))
named-last i zero (f ∷ []) e = omega arith
named-last i zero (f ∷ g ∷ es) e = absurd (omega (arith, e))
named-last i (suc n) (f ∷ es) e = omega (arith, named-last i n es (omega (arith, e)))

-- An entry that is removed by the last one.
pub named-swap_last :
    (i k : ℕ) (es : List Dirent)
    → k < length es
    → named i (swap_last k es) + one_if ((get_or es k zero_entry).inode == i) ≡ named i es
unfolding swap_last
named-swap_last i k es lt = elim (Bool-cases (ltb k n)) [
  | inl t ↦
      let last = get_or es n zero_entry in
      let there : get_or (set es k last) n zero_entry ≡ last =
        get_or-set es k n last zero_entry (omega (arith, lt)) ∙ ground (arith, t) in
      let cut = named-last i n (set es k last) (length-set es k last ∙ size) in
      let put = named-set i k es last lt in rw t (omega (arith, put, rw there at cut))
  | inr f ↦
      let q : n ≡ k = ground (arith, f, lt) in
      rw f (
        ap (λ j. named i (take n es) + one_if ((get_or es j zero_entry).inode == i)) (sym q)
        ∙ named-last i n es size)
]
  where
    n : ℕ
    n = length es - 1

    size : length es ≡ suc n
    size = omega (arith, lt)

pub names-set :
    (i k : ℕ) (t : Inodes) (n : Node)
    → k < length t
    → names i (set t k n) + named i (node_at t k).entries ≡ names i t + named i n.entries
unfolding names
names-set i k [] n lt = absurd (omega (arith, lt))
names-set i zero (m ∷ t) n lt = omega arith
names-set i (suc k) (m ∷ t) n lt = omega (arith, names-set i k t n (omega (arith, lt)))

pub names-append_zero : (i n : ℕ) (t : Inodes) → names i (t ++ replicate n zero_node) ≡ names i t
unfolding names named
names-append_zero i zero [] = refl
names-append_zero i (suc n) [] = omega (arith, names-append_zero i n [])
names-append_zero i n (m ∷ t) = omega (arith, names-append_zero i n t)

set_outside : (t : Inodes) (k : ℕ) (n : Node) → length t ≤ k → set t k n ≡ t
set_outside [] k n le = refl
set_outside (m ∷ t) zero n le = absurd (omega (arith, le))
set_outside (m ∷ t) (suc k) n le = ap (λ r. m ∷ r) (set_outside t k n (omega (arith, le)))

-- A node with the same entries.
names-set_same :
    (i k : ℕ) (t : Inodes) (n : Node)
    → n.entries ≡ (node_at t k).entries
    → names i (set t k n) ≡ names i t
names-set_same i k t n same = elim (dec_lt k (length t)) [
  | yes lt ↦ omega (arith, names-set i k t n lt, ap (λ es. named i es) same)
  | no ge ↦ ap (λ r. names i r) (set_outside t k n (omega arith))
]

-- A change of a link count is no change of the entries.
pub names-add_link : (i k : ℕ) (t : Inodes) → names i (add_link k t) ≡ names i t
unfolding add_link
names-add_link i k t = names-set_same i k t _ refl

pub names-drop_link : (i k : ℕ) (t : Inodes) → names i (drop_link k t) ≡ names i t
unfolding drop_link
names-drop_link i k t = names-set_same i k t _ refl
