-- ===== src/Fd/Create.antt =====
-- `fd_init_process` and `pipe_create`: new descriptors, and what a failure leaves.
use spike_os.Prelude.{
  ℕ, zero, suc, ◌<◌, ◌≡◌, refl, true, false, Option, none, some, [], ◌∷◌, arith, length, get_or,
  set, length-set, get_or-set, set-set, ◌∙◌, ap,
}
use mathlib.Core.Path.{fun_ext}
use spike_os.Prelude.Int.{pos}
use spike_os.Fd.{
  pipe_end, OpenFile, zero_file, is_unused, rdonly, wronly, FdTable, Files, file_at, put_file,
  first_unused, alloc_open_file, release_open_file, alloc_fd, alloc_pipe, deactivate, tag_end,
  open_end, create_fds, with_writer, with_reader, with_slot, pipe_create,
}
use spike_os.Fd.Table.{First, hit, miss, first_unused-First, is_free, alloc_fd_lem}
use spike_os.Fd.Counting.{Counted, plus, release-Counted, Counted-install, Counted-table}

-- An allocation that fills its slot with `of`, or fails and changes nothing.
pub data Opened (of : OpenFile) (f : Files) (r : Option ℕ × Files) : Type 0 where
  opened :
      (i : ℕ)
      → i < length f.table
      → is_unused (file_at f i).kind ≡ true
      → r ≡ (some i, put_file f i of)
      → Opened of f r
  refused :
      ((j : ℕ) → j < length f.table → is_unused (file_at f j).kind ≡ false)
      → r ≡ (none, f)
      → Opened of f r

pub alloc_open_file-Opened :
    (f : Files) → Opened (record zero_file { refcount = pos 1 }) f (alloc_open_file f)
unfolding alloc_open_file
alloc_open_file-Opened f = go (first_unused-First f.table 0)
  where
    go :
        First (λ (of : OpenFile). is_unused of.kind) zero_file f.table 0 (first_unused f.table 0)
        → Opened (record zero_file { refcount = pos 1 }) f (alloc_open_file f)
    go (hit k lt t before e) =
        let e' : first_unused f.table 0 ≡ some k = e ∙ ap some (omega arith) in
        opened k lt t (rw (e', alloc_open_file))
    go (miss all e) = refused all (rw (e, alloc_open_file))

-- The open file of a new pipe end.
abbrev pub end_file : ℕ → ℕ → OpenFile
end_file k flags = record {
  kind = pipe_end;
  flags = flags;
  ino = 0;
  offset = 0;
  refcount = pos 1;
  pipe = some k;
}

-- Writing a slot again, with what was read back from it.
pub rewritten :
    (f : Files) (i : ℕ) (a : OpenFile) (g : OpenFile → OpenFile)
    → i < length f.table
    → put_file (put_file f i a) i (g (file_at (put_file f i a) i)) ≡ put_file f i (g a)
rewritten f i a g lt =
    let same : file_at (put_file f i a) i ≡ a =
      ground (arith, get_or-set f.table i i a zero_file) in
    rw same (ap (λ t. record f { table = t }) (set-set f.table i a (g a)))

tag_end-Opened :
    (k flags : ℕ) (f : Files) (r : Option ℕ × Files)
    → Opened (record zero_file { refcount = pos 1 }) f r
    → Opened (end_file k flags) f (tag_end k flags r)
unfolding tag_end
tag_end-Opened k flags f r (opened i lt t e) = opened i lt t (
    rw e (
      ap (λ g. (some i, g))
        (rewritten f i (record zero_file { refcount = pos 1 })
          (λ of. record of { kind = pipe_end; flags = flags; pipe = some k }) lt)))
tag_end-Opened k flags f r (refused all e) = refused all (rw e)

pub open_end-Opened : (k flags : ℕ) (f : Files) → Opened (end_file k flags) f (open_end k flags f)
unfolding open_end
open_end-Opened k flags f = tag_end-Opened k flags f (alloc_open_file f) (alloc_open_file-Opened f)

-- A new open file, with a reference that is still to be put into a table.
pub claim-Counted :
    (i : ℕ) (of : OpenFile) (other : ℕ → ℕ) (fds : FdTable) (f : Files)
    → i < length f.table
    → is_unused (file_at f i).kind ≡ true
    → of.refcount ≡ pos 1
    → is_unused of.kind ≡ false
    → Counted other fds f
    → Counted (plus i other) fds (put_file f i of)
claim-Counted i of other fds f lt u one busy c = record {
  size = length-set f.table i of ∙ c.size;
  counts = λ j. ground (arith, get_or-set f.table i j of zero_file, c.counts j, c.idle i);
  idle = λ j. ground (arith, get_or-set f.table i j of zero_file, c.idle j);
  busy = λ j. ground (arith, get_or-set f.table i j of zero_file, c.busy j);
}

Counted-other :
    (other other' : ℕ → ℕ) (fds : FdTable) (f : Files)
    → ((i : ℕ) → other i ≡ other' i)
    → Counted other fds f
    → Counted other' fds f
Counted-other other other' fds f e c = rw (← fun_ext e) c

pub free-none : (o : Option ℕ) → is_free o ≡ true → o ≡ none
free-none none h = refl
free-none (some i) h = absurd (ground arith)

-- Undoing the write of a free entry.
pub undo :
    (fds : FdTable) (fd r : ℕ)
    → get_or fds fd (some 0) ≡ none
    → set (set fds fd (some r)) fd none ≡ fds
undo [] fd r h = refl
undo (x ∷ fds) zero r h = rw (← h)
undo (x ∷ fds) (suc fd) r h = ap (λ t. x ∷ t) (undo fds fd r h)

-- Every reference is counted, and a failure leaves the descriptors as they were.
abbrev pub Kept : (ℕ → ℕ) → FdTable → Option (ℕ × ℕ) × FdTable × Files → Type 0
Kept other fds (res, fds', f') = Counted other fds' f' × ((res ≡ none) → fds' ≡ fds)

release_both-Counted :
    (k r w : ℕ) (other : ℕ → ℕ) (fds : FdTable) (f : Files)
    → Counted (plus r (plus w other)) fds f
    → Counted other fds (deactivate k (release_open_file w (release_open_file r f)))
unfolding deactivate
release_both-Counted k r w other fds f c =
    Counted-table other fds (release_open_file w (release_open_file r f)) _ refl (
      release-Counted w other fds (release_open_file r f)
        (release-Counted r (plus w other) fds f c))

create_fds-Kept :
    (k r w : ℕ) (other : ℕ → ℕ) (fds : FdTable) (f : Files)
    → Counted (plus r (plus w other)) fds f
    → Kept other fds (create_fds k r w fds f)
unfolding create_fds
create_fds-Kept k r w other fds f c = go (alloc_fd_lem fds)
  where
    second :
        (rfd : ℕ)
        → rfd < length fds
        → get_or fds rfd (some 0) ≡ none
        → alloc_fd fds ≡ some rfd
        → First is_free (some 0) (set fds rfd (some r)) 0 (alloc_fd (set fds rfd (some r)))
        → Kept other fds (create_fds k r w fds f)
    second rfd lt free e (hit wfd lt' t before e') =
        let e'' : alloc_fd (set fds rfd (some r)) ≡ some wfd = e' ∙ ap some (omega arith) in
        rw (e, create_fds)
          (rw e'' (
            Counted-install wfd w other (set fds rfd (some r)) f lt' (free-none _ t)
                (Counted-install rfd r (plus w other) fds f lt free c),
            λ h. absurd (ground arith),
          ))
    second rfd lt free e (miss all e') =
        let back = undo fds rfd r free in
        rw (e, create_fds) (rw e' (rw back (release_both-Counted k r w other fds f c, λ h. refl)))

    go : First is_free (some 0) fds 0 (alloc_fd fds) → Kept other fds (create_fds k r w fds f)
    go (hit rfd lt t before e) =
        second rfd lt (free-none _ t) (e ∙ ap some (omega arith))
          (alloc_fd_lem (set fds rfd (some r)))
    go (miss all e) = rw (e, create_fds) (release_both-Counted k r w other fds f c, λ h. refl)

with_writer-Kept :
    (k r : ℕ) (other : ℕ → ℕ) (fds : FdTable) (f : Files) (opening : Option ℕ × Files)
    → Opened (end_file k wronly) f opening
    → Counted (plus r other) fds f
    → Kept other fds (with_writer k r fds opening)
unfolding with_writer deactivate
with_writer-Kept k r other fds f opening (opened w lt u e) c = rw e (
    create_fds-Kept k r w other fds (put_file f w (end_file k wronly)) (
      Counted-other (plus w (plus r other)) (plus r (plus w other)) fds _ (λ i. omega arith)
        (claim-Counted w (end_file k wronly) (plus r other) fds f lt u refl refl c)))
with_writer-Kept k r other fds f opening (refused all e) c = rw e (
  Counted-table other fds (release_open_file r f) _ refl (release-Counted r other fds f c),
  λ h. refl,
)

with_reader-Kept :
    (k : ℕ) (other : ℕ → ℕ) (fds : FdTable) (f : Files) (opening : Option ℕ × Files)
    → Opened (end_file k rdonly) f opening
    → Counted other fds f
    → Kept other fds (with_reader k fds opening)
unfolding with_reader deactivate
with_reader-Kept k other fds f opening (opened r lt u e) c = rw e (
    with_writer-Kept k r other fds (put_file f r (end_file k rdonly)) _ (open_end-Opened k wronly _)
      (claim-Counted r (end_file k rdonly) other fds f lt u refl refl c))
with_reader-Kept k other fds f opening (refused all e) c =
    rw e (Counted-table other fds f _ refl c, λ h. refl)

-- `alloc_pipe` leaves the open files alone.
table-alloc_pipe : (f : Files) → (alloc_pipe f).1.table ≡ f.table
unfolding alloc_pipe
table-alloc_pipe f = ground arith

with_slot-Kept :
    (other : ℕ → ℕ) (fds : FdTable) (got : Option ℕ) (f : Files)
    → Counted other fds f
    → Kept other fds (with_slot fds (got, f))
unfolding with_slot
with_slot-Kept other fds none f c = (c, λ h. refl)
with_slot-Kept other fds (some k) f c =
    with_reader-Kept k other fds _ _ (open_end-Opened k rdonly _)
      (Counted-table other fds f _ refl c)

-- `pipe_create` keeps every reference count equal to the number of descriptors, on success and on each
-- of its failures, and a failure leaves the descriptors as they were.
pub pipe_create-Kept :
    (other : ℕ → ℕ) (fds : FdTable) (f : Files)
    → Counted other fds f
    → Kept other fds (pipe_create fds f)
unfolding pipe_create
pipe_create-Kept other fds f c =
    with_slot-Kept other fds (alloc_pipe f).0 (alloc_pipe f).1
      (Counted-table other fds f _ (table-alloc_pipe f) c)
