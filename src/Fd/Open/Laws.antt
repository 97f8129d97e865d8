-- ===== src/Fd/Open/Laws.antt =====
-- `fd_open`: the reference counts, and what a new descriptor refers to.
use spike_os.Prelude.{
  ℕ, ◌<◌, ◌≡◌, refl, Bool, true, false, if◌then◌else◌, Option, none, some, arith, ◌==◌, length,
  get_or, set, Bool-cases, inl, inr, ◌∙◌, ap,
}
use Prim.Native.Nat.{bit_and}
use spike_os.Prelude.Int.{pos}
use spike_os.Vfs.{is_file}
use spike_os.Vfs.Tree.{Name, node_at, vfs_resolve}
use spike_os.Fd.{
  OpenFile, Files, FdTable, vfs, zero_file, is_unused, file_at, put_file, alloc_open_file,
  release_open_file, alloc_fd,
}
use spike_os.Fd.Table.{First, hit, miss, is_free, alloc_fd_lem}
use spike_os.Fd.Counting.{Counted, plus, release-Counted, Counted-install}
use spike_os.Fd.Create.{
  Opened, opened, refused, alloc_open_file-Opened, rewritten, claim-Counted, free-none,
}
use spike_os.Fd.Open.{
  o_trunc, update, Volume, tag_file, install, OpenResult, open_file, open_located, fd_open,
}
use spike_os.Fd.Open.Located.{Comes, Nowhere, Located}

-- The open file of a new descriptor.
abbrev pub file_for : (ino flags : ℕ) → OpenFile
file_for ino flags = record {
  kind = vfs;
  flags = flags;
  ino = ino;
  offset = 0;
  refcount = pos 1;
  pipe = none;
}

tag_file-Opened :
    (ino flags : ℕ) (f : Files) (r : Option ℕ × Files)
    → Opened (record zero_file { refcount = pos 1 }) f r
    → Opened (file_for ino flags) f (tag_file ino flags r)
unfolding tag_file
tag_file-Opened ino flags f r (opened i lt t e) = opened i lt t (
    rw e (
      ap (λ g. (some i, g))
        (rewritten f i (record zero_file { refcount = pos 1 })
          (λ of. record of { kind = vfs; flags = flags; ino = ino; offset = 0 }) lt)))
tag_file-Opened ino flags f r (refused all e) = refused all (rw e)

-- What an installation makes of a new open file: a free descriptor refers to it, or it is released.
data Installed (i : ℕ) (fds : FdTable) (f : Files) (r : Option ℕ × FdTable × Files) : Type 0 where
  installed :
      (fd : ℕ)
      → fd < length fds
      → get_or fds fd (some 0) ≡ none
      → r ≡ (some fd, set fds fd (some i), f)
      → Installed i fds f r
  full :
      ((j : ℕ) → j < length fds → is_free (get_or fds j (some 0)) ≡ false)
      → r ≡ (none, fds, release_open_file i f)
      → Installed i fds f r

install-Installed : (i : ℕ) (fds : FdTable) (f : Files) → Installed i fds f (install i fds f)
unfolding install
install-Installed i fds f = go (alloc_fd_lem fds)
  where
    go : First is_free (some 0) fds 0 (alloc_fd fds) → Installed i fds f (install i fds f)
    go (hit fd lt t before e) =
        let e' : alloc_fd fds ≡ some fd = e ∙ ap some (omega arith) in
        rw (e', install) (installed fd lt (free-none _ t) refl)
    go (miss all e) = rw (e, install) (full all refl)

-- A descriptor that was free refers to a new open file, at its start, of the file `ino` that the path
-- resolves to; the file is there before or made by O_CREAT, and emptied where O_TRUNC is set; no other
-- file, descriptor or open file changes.
pub record Opens (served : ℕ → Bool) (stack : ℕ × Name) (cwd : ℕ) (path : Name) (flags : ℕ)
    (fds : FdTable) (f : Files) (v : Volume) (fd : ℕ) (r : OpenResult) : Type 0 where
  pub ino : ℕ
  pub stored : Option (ℕ × Name)
  pub slot : ℕ
  pub found_in : Volume
  pub result : r.0 ≡ some fd
  pub comes : Comes served stack cwd path flags v ino found_in
  pub tree : r.3.tree ≡ found_in.tree
  pub contents : r.3.inode ≡ (
      if bit_and flags o_trunc == 0
      then found_in.inode
      else update found_in.inode ino (record (found_in.inode ino) { size = 0 }))
  pub resolves : vfs_resolve r.3.tree cwd path ≡ some (stored, some ino)
  pub plain : is_file (node_at r.3.tree ino).type ≡ true
  pub free : get_or fds fd (some 0) ≡ none
  pub idle : is_unused (file_at f slot).kind ≡ true
  pub descriptors : r.1 ≡ set fds fd (some slot)
  pub files : r.2 ≡ put_file f slot (file_for ino flags)

module _ (served : ℕ → Bool) (stack : ℕ × Name) (cwd : ℕ) (path : Name) (flags : ℕ) (fds : FdTable)
    (f : Files) (v : Volume) where
  -- Why there is no descriptor.
  pub data Fault : Type 0 where
    no_file : Nowhere served stack cwd path flags v → Fault
    not_plain :
        (k : ℕ) (v' : Volume)
        → Comes served stack cwd path flags v k v'
        → is_file (node_at v'.tree k).type ≡ false
        → Fault
    no_open_file : ((j : ℕ) → j < length f.table → is_unused (file_at f j).kind ≡ false) → Fault
    no_descriptor : ((j : ℕ) → j < length fds → is_free (get_or fds j (some 0)) ≡ false) → Fault

  -- A descriptor, or -1 with the descriptors as they were.
  pub data OpenOutcome (r : OpenResult) : Type 0 where
    opens : (fd : ℕ) → Opens served stack cwd path flags fds f v fd r → OpenOutcome r
    fails : r.0 ≡ none → r.1 ≡ fds → Fault → OpenOutcome r

module _ (path : Name) (cwd flags : ℕ) (fds : FdTable) (f : Files) where
  open_file-Counted :
      (other : ℕ → ℕ) (k : ℕ) (v : Volume) (r : Option ℕ × Files)
      → Opened (file_for k flags) f r
      → Counted other fds f
      → let res = open_file k flags fds v r in Counted other res.1 res.2
  unfolding open_file
  open_file-Counted other k v r (refused all e) c = rw e c
  open_file-Counted other k v r (opened i lt t e) c = rw e (go (install-Installed i fds g))
    where
      g : Files
      g = put_file f i (file_for k flags)

      claimed : Counted (plus i other) fds g
      claimed = claim-Counted i (file_for k flags) other fds f lt t refl refl c

      go :
          Installed i fds g (install i fds g)
          → Counted other (install i fds g).1 (install i fds g).2
      go (installed fd lt' free q) = rw q (Counted-install fd i other fds g lt' free claimed)
      go (full all q) = rw q (release-Counted i other fds g claimed)

  open_located-Counted :
      (other : ℕ → ℕ) (r : Option ℕ × Volume)
      → Counted other fds f
      → let res = open_located flags fds f r in Counted other res.1 res.2
  unfolding open_located
  open_located-Counted other (none, v) c = c
  open_located-Counted other (some k, v) c = elim (Bool-cases (is_file (node_at v.tree k).type)) [
    | inl p ↦ rw p (
        open_file-Counted other k v (tag_file k flags (alloc_open_file f))
          (tag_file-Opened k flags f _ (alloc_open_file-Opened f)) c)
    | inr n ↦ rw n c
  ]

-- `fd_open` keeps every reference count equal to the number of descriptors, on success and on each
-- failure.
pub fd_open-Counted :
    (served : ℕ → Bool) (stack : ℕ × Name) (cwd : ℕ) (path : Name) (flags : ℕ) (other : ℕ → ℕ)
    (fds : FdTable) (f : Files) (v : Volume)
    → Counted other fds f
    → let res = fd_open served stack cwd path flags fds f v in Counted other res.1 res.2
unfolding fd_open
fd_open-Counted served stack cwd path flags other fds f v c =
    open_located-Counted path cwd flags fds f other _ c
