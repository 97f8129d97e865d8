-- ===== src/Fd/Open/Located.antt =====
-- `fd_open`: the inode that it comes to, and O_TRUNC.
use spike_os.Prelude.{
  ℕ, ◌≡◌, ◌≢◌, refl, Bool, true, false, Option, none, some, ◌==◌, if◌then◌else◌, Bool-cases, inl,
  inr,
}
use Prim.Native.Nat.{bit_and}
use spike_os.Vfs.Tree.{Name, Inodes, Resolved, vfs_resolve}
use spike_os.Vfs.Tree.Calls.{vfs_create_file}
use spike_os.Vfs.Tree.Linked.{IsLinked}
use spike_os.Vfs.Tree.Created.{vfs_resolve-vfs_create_file}
use spike_os.Fd.Open.{o_creat, o_trunc, Volume, created, locate, truncate, update, new_inode}

module _ (served : ℕ → Bool) (stack : ℕ × Name) (cwd : ℕ) (path : Name) (flags : ℕ)
    (v : Volume) where
  -- The inode `k` that `fd_open` comes to and the volume that it is in: the file is there, or O_CREAT is
  -- set and `vfs_create_file` makes it.
  pub data Comes (k : ℕ) (v' : Volume) : Type 0 where
    there :
        (stored : Option (ℕ × Name))
        → vfs_resolve v.tree cwd path ≡ some (stored, some k)
        → v' ≡ v
        → Comes k v'
    made :
        (parent : ℕ) (leaf : Name) (t : Inodes)
        → vfs_resolve v.tree cwd path ≡ some (some (parent, leaf), none)
        → (bit_and flags o_creat == 0) ≡ false
        → vfs_create_file served stack cwd path v.tree ≡ (some k, t)
        → v' ≡ record { tree = t; inode = update v.inode k new_inode }
        → Comes k v'

  -- Why there is none.
  pub data Nowhere : Type 0 where
    no_directory : vfs_resolve v.tree cwd path ≡ none → Nowhere
    not_there :
        (parent : ℕ) (leaf : Name)
        → vfs_resolve v.tree cwd path ≡ some (some (parent, leaf), none)
        → (bit_and flags o_creat == 0) ≡ true
        → Nowhere
    not_made :
        (parent : ℕ) (leaf : Name)
        → vfs_resolve v.tree cwd path ≡ some (some (parent, leaf), none)
        → (vfs_create_file served stack cwd path v.tree).0 ≡ none
        → Nowhere

  -- The inode is the one that the path resolves to afterwards.
  pub data Located (r : Option ℕ × Volume) : Type 0 where
    located :
        (k : ℕ) (v' : Volume)
        → r ≡ (some k, v')
        → Comes k v'
        → (s : Option (ℕ × Name)) → vfs_resolve v'.tree cwd path ≡ some (s, some k)
        → Located r
    nowhere : r.0 ≡ none → Nowhere → Located r

  pub locate-Located :
      IsLinked v.tree
      → vfs_resolve v.tree cwd path ≢ some (none, none)
      → Located (locate served stack cwd path flags v (vfs_resolve v.tree cwd path))
  unfolding locate created
  locate-Located ok stored = go (vfs_resolve v.tree cwd path) refl
    where
      new :
          (parent : ℕ) (leaf : Name)
          → vfs_resolve v.tree cwd path ≡ some (some (parent, leaf), none)
          → (bit_and flags o_creat == 0) ≡ false
          → (q : Option ℕ × Inodes) → vfs_create_file served stack cwd path v.tree ≡ q
          → Located (created v q)
      new parent leaf e c (none, t) eq = nowhere refl (not_made parent leaf e (rw eq refl))
      new parent leaf e c (some ino, t) eq =
          located ino _ refl (made parent leaf t e c eq refl) (some (parent, leaf))
            (vfs_resolve-vfs_create_file served stack cwd path v.tree t parent leaf ino ok e eq)

      go :
          (r : Option Resolved)
          → vfs_resolve v.tree cwd path ≡ r
          → Located (locate served stack cwd path flags v r)
      go none e = nowhere refl (no_directory e)
      go (some (s, some k)) e = located k v refl (there s e refl) s e
      go (some (none, none)) e = absurd (stored e)
      go (some (some (parent, leaf), none)) e = elim (Bool-cases (bit_and flags o_creat == 0)) [
        | inl t ↦ rw t (nowhere refl (not_there parent leaf e t))
        | inr c ↦ rw c (new parent leaf e c (vfs_create_file served stack cwd path v.tree) refl)
      ]

pub truncate-tree : (k flags : ℕ) (v : Volume) → (truncate k flags v).tree ≡ v.tree
unfolding truncate
truncate-tree k flags v = elim (Bool-cases (bit_and flags o_trunc == 0)) [
  | inl t ↦ rw t refl
  | inr c ↦ rw c refl
]

-- The file is emptied if O_TRUNC is set, and no other file is changed.
pub truncate-inode :
    (k flags : ℕ) (v : Volume)
    → (truncate k flags v).inode ≡ (
        if bit_and flags o_trunc == 0
        then v.inode
        else update v.inode k (record (v.inode k) { size = 0 }))
unfolding truncate
truncate-inode k flags v = elim (Bool-cases (bit_and flags o_trunc == 0)) [
  | inl t ↦ rw t refl
  | inr c ↦ rw c refl
]
