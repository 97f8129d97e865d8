-- ===== src/Fd/Dup/Laws.antt =====
-- `sys_dup`: the reference counts, and a close of the copy.
use spike_os.Prelude.{
  ℕ, zero, suc, ◌+◌, ◌<◌, ◌≡◌, refl, true, false, Option, none, some, List, [], ◌∷◌, arith, ◌==◌,
  ◌⊎◌, leb, length, get_or, set, Bool-cases, inl, inr, ◌∙◌, sym, ap, get_or-set, length-set,
}
use spike_os.Prelude.Int.{pos, ◌+ℤ◌}
use spike_os.Fd.{
  OpenFile, Files, FdTable, zero_file, max_fds, max_open_files, is_unused, file_at, put_file,
  release_open_file, alloc_fd, fd_close,
}
use spike_os.Fd.Table.{First, hit, miss, is_free, alloc_fd_lem}
use spike_os.Fd.Counting.{
  Counted, plus, refs, refs-clear, in_table, Counted-clear, Counted-install, release-shared,
}
use spike_os.Fd.Create.{free-none, undo, rewritten}
use spike_os.Fd.Access.{file_of}
use spike_os.Fd.Dup.{share, add_copy, copy_of, sys_dup}

file_of-entry : (fds : FdTable) (fd i : ℕ) → file_of fds fd ≡ some i → get_or fds fd none ≡ some i
unfolding file_of
file_of-entry fds fd i e = elim (Bool-cases (leb max_fds fd)) [
  | inl t ↦ absurd (ground (arith, e, t))
  | inr c ↦ ground (arith, e, c)
]

-- An open file that a descriptor names is in the table, and its count is not 0.
record Named (i : ℕ) (other : ℕ → ℕ) (fds : FdTable) (f : Files) : Type 0 where
  slot : i < max_open_files
  left : ℕ
  references : refs i fds + other i ≡ suc left

counted-Named :
    (fd i : ℕ) (other : ℕ → ℕ) (fds : FdTable) (f : Files)
    → get_or fds fd none ≡ some i
    → Counted other fds f
    → Named i other fds f
counted-Named fd i other fds f e c = record {
  slot = in_table i other (set fds fd none) f (Counted-clear fd i other fds f e c);
  left = refs i (set fds fd none) + other i;
  references = let here : (i == i) ≡ true = ground arith in ground (arith, refs-clear i fd i fds e);
}

-- A slot with a count of one more.
busier :
    (i : ℕ) (of : OpenFile) (other : ℕ → ℕ) (fds : FdTable) (f : Files)
    → i < length f.table
    → of.refcount ≡ pos (suc (refs i fds + other i))
    → is_unused of.kind ≡ false
    → Counted other fds f
    → Counted (plus i other) fds (put_file f i of)
busier i of other fds f lt count busy c = record {
  size = length-set f.table i of ∙ c.size;
  counts = λ j. ground (arith, get_or-set f.table i j of zero_file, c.counts j);
  idle = λ j. ground (arith, get_or-set f.table i j of zero_file, c.idle j);
  busy = λ j. ground (arith, get_or-set f.table i j of zero_file, c.busy j);
}

one_more : (n : ℕ) → pos n +ℤ pos 1 ≡ pos (suc n)
unfolding ◌+ℤ◌
one_more n = ground arith

share-Counted :
    (i : ℕ) (other : ℕ → ℕ) (fds : FdTable) (f : Files)
    → Named i other fds f
    → Counted other fds f
    → Counted (plus i other) fds (share i f)
unfolding share
share-Counted i other fds f n c =
    busier i _ other fds f (omega (arith, n.slot, c.size))
      (rw (c.counts i) (one_more (refs i fds + other i))) (ground (arith, c.idle i, n.references)) c

-- What `sys_dup` makes of an open descriptor.
data Copied (i : ℕ) (fds : FdTable) (f : Files) (r : Option ℕ × FdTable × Files) : Type 0 where
  copied :
      (fd : ℕ)
      → fd < length fds
      → get_or fds fd (some 0) ≡ none
      → alloc_fd fds ≡ some fd
      → r ≡ (some fd, set fds fd (some i), share i f)
      → Copied i fds f r
  full : alloc_fd fds ≡ none → r ≡ (none, fds, f) → Copied i fds f r

add_copy-Copied :
    (i : ℕ) (fds : FdTable) (f : Files) → Copied i fds f (add_copy i (alloc_fd fds) fds f)
unfolding add_copy
add_copy-Copied i fds f = go (alloc_fd_lem fds)
  where
    go :
        First is_free (some 0) fds 0 (alloc_fd fds)
        → Copied i fds f (add_copy i (alloc_fd fds) fds f)
    go (hit fd lt t before e) =
        let e' : alloc_fd fds ≡ some fd = e ∙ ap some (omega arith) in
        rw e' (copied fd lt (free-none _ t) e' refl)
    go (miss all e) = rw e (full e refl)

-- `sys_dup` keeps every reference count equal to the number of descriptors.
pub sys_dup-Counted :
    (old_fd : ℕ) (other : ℕ → ℕ) (fds : FdTable) (f : Files)
    → Counted other fds f
    → let (res, fds', f') = sys_dup old_fd fds f in Counted other fds' f'
unfolding sys_dup copy_of
sys_dup-Counted old_fd other fds f c = go (file_of fds old_fd) refl
  where
    more :
        (i : ℕ)
        → Named i other fds f
        → Copied i fds f (add_copy i (alloc_fd fds) fds f)
        → let (res, fds', f') = add_copy i (alloc_fd fds) fds f in Counted other fds' f'
    more i n (copied fd lt free first e) =
        rw e (Counted-install fd i other fds (share i f) lt free (share-Counted i other fds f n c))
    more i n (full none_free e) = rw e c

    go :
        (o : Option ℕ)
        → file_of fds old_fd ≡ o
        → let (res, fds', f') = copy_of o fds f in Counted other fds' f'
    go none e = c
    go (some i) e =
        more i (counted-Named old_fd i other fds f (file_of-entry fds old_fd i e) c)
          (add_copy-Copied i fds f)

set-same : (xs : List OpenFile) (i : ℕ) → i < length xs → set xs i (get_or xs i zero_file) ≡ xs
set-same [] i lt = refl
set-same (x ∷ xs) zero lt = refl
set-same (x ∷ xs) (suc i) lt = ap (λ t. x ∷ t) (set-same xs i (omega arith))

-- A release takes back what `share` has added.
release-share :
    (i : ℕ) (other : ℕ → ℕ) (fds : FdTable) (f : Files)
    → Named i other fds f
    → Counted other fds f
    → release_open_file i (share i f) ≡ f
unfolding share
release-share i other fds f n c =
    release-shared i n.left (share i f) n.slot twice
    ∙ rewritten f i shared (λ of. record of { refcount = pos (suc n.left) }) lt
    ∙ ap (λ r. put_file f i (record (file_at f i) { refcount = r })) (sym count)
    ∙ ap (λ t. record f { table = t }) (set-same f.table i lt)
  where
    lt : i < length f.table
    lt = omega (arith, n.slot, c.size)

    count : (file_at f i).refcount ≡ pos (suc n.left)
    count = c.counts i ∙ ap pos n.references

    shared : OpenFile
    shared = record (file_at f i) { refcount = (file_at f i).refcount +ℤ pos 1 }

    twice : (file_at (share i f) i).refcount ≡ pos (suc (suc n.left))
    twice =
        let same : file_at (put_file f i shared) i ≡ shared =
          ground (arith, get_or-set f.table i i shared zero_file) in
        ap (λ (of : OpenFile). of.refcount) same ∙ rw count (one_more (suc n.left))

entry-set :
    (xs : FdTable) (fd i : ℕ) → fd < length xs → get_or (set xs fd (some i)) fd none ≡ some i
entry-set [] fd i lt = elim lt [ ]
entry-set (x ∷ xs) zero i lt = refl
entry-set (x ∷ xs) (suc fd) i lt = entry-set xs fd i (omega arith)

-- A second descriptor of the same open file, which a close takes back; or -1 and nothing changed, where the
-- old descriptor is not open or none is free.
pub data Duplicated (old_fd : ℕ) (fds : FdTable) (f : Files) (r : Option ℕ × FdTable × Files)
    : Type 0 where
  duplicates :
      (fd : ℕ)
      → r.0 ≡ some fd
      → alloc_fd fds ≡ some fd
      → get_or r.1 fd none ≡ get_or fds old_fd none
      → fd_close fd r.1 r.2 ≡ (true, fds, f)
      → Duplicated old_fd fds f r
  keeps :
      (file_of fds old_fd ≡ none) ⊎ (alloc_fd fds ≡ none)
      → r ≡ (none, fds, f)
      → Duplicated old_fd fds f r

-- Where the reference counts are right, `sys_dup` of an open descriptor gives the lowest free one for the
-- same open file, and a close of it gives back the descriptors, the open files, the pipes and the processes as
-- they were; it fails, and changes nothing, only where the descriptor is not open or none is free.
pub fd_close-sys_dup :
    (old_fd : ℕ) (other : ℕ → ℕ) (fds : FdTable) (f : Files)
    → Counted other fds f
    → Duplicated old_fd fds f (sys_dup old_fd fds f)
unfolding sys_dup copy_of fd_close
fd_close-sys_dup old_fd other fds f c = go (file_of fds old_fd) refl
  where
    more :
        (i : ℕ)
        → get_or fds old_fd none ≡ some i
        → Copied i fds f (add_copy i (alloc_fd fds) fds f)
        → Duplicated old_fd fds f (add_copy i (alloc_fd fds) fds f)
    more i here (full none_free e) = keeps (inr none_free) e
    more i here (copied fd lt free first e) =
        let entry = entry-set fds fd i lt in
        rw e (
          duplicates fd refl first (entry ∙ sym here) (
            rw (fd_close, entry, undo fds fd i free)
              (ap (λ g. (true, fds, g))
                (release-share i other fds f (counted-Named old_fd i other fds f here c) c))))

    go : (o : Option ℕ) → file_of fds old_fd ≡ o → Duplicated old_fd fds f (copy_of o fds f)
    go none e = keeps (inl e) refl
    go (some i) e = more i (file_of-entry fds old_fd i e) (add_copy-Copied i fds f)
