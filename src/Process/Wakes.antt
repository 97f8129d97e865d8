-- ===== src/Process/Wakes.antt =====
-- What a close and the end of a process do to the states of the others: they wake.
use spike_os.Prelude.{
  leb, ℕ, zero, suc, ◌≡◌, refl, Option, none, some, [], ◌∷◌, arith, ◌==◌, set, Bool-cases, inl, inr,
  ◌⊎◌,
}
use spike_os.Prelude.Search.{search}
use Prim.Native.Nat.{bit_and}
use spike_os.Prelude.Int.{pos, ◌-ℤ◌}
use spike_os.Pipe.{World, close_reader, close_writer, none_left}
use spike_os.Wait.{ProcState, wake_loop, ready, States, WaitQueue, state_of, wake_up_all}
use spike_os.Fd.{
  FdType, unused, vfs, console, pipe_end, OpenFile, wronly, close_pipe, close_end,
  release_open_file, file_at, pipe_at, max_open_files, FdTable, Files, fd_close_all,
}
use spike_os.Process.{Kernel, slot, is_live, wake_parent, max_procs}

-- Nobody's state changes but by a wake-up.
abbrev pub OnlyWakes : States → States → Type 0
OnlyWakes ps ps' = (j : ℕ) → (state_of ps' j ≡ state_of ps j) ⊎ (state_of ps' j ≡ ready)

OnlyWakes-same : (ps : States) → OnlyWakes ps ps
OnlyWakes-same ps j = inl refl

pub OnlyWakes-then :
    (ps ps' ps'' : States) → OnlyWakes ps ps' → OnlyWakes ps' ps'' → OnlyWakes ps ps''
OnlyWakes-then ps ps' ps'' a b j = ground (arith, a j, b j)

pub set-either :
    (ps : States) (i j : ℕ) (s : ProcState)
    → (state_of (set ps i s) j ≡ state_of ps j) ⊎ (state_of (set ps i s) j ≡ s)
set-either [] i j s = inl refl
set-either (x ∷ ps) zero zero s = inr refl
set-either (x ∷ ps) zero (suc j) s = inl refl
set-either (x ∷ ps) (suc i) zero s = inl refl
set-either (x ∷ ps) (suc i) (suc j) s = set-either ps i j s

wake_one-OnlyWakes : (p : ℕ) (ps : States) → OnlyWakes ps (set ps p ready)
wake_one-OnlyWakes p ps j = set-either ps p j ready

pub wake_loop-OnlyWakes :
    (wq : WaitQueue) (ps : States) (count : ℕ) → OnlyWakes ps (wake_loop wq ps count).2
unfolding wake_loop
wake_loop-OnlyWakes [] ps count = OnlyWakes-same ps
wake_loop-OnlyWakes (p ∷ wq) ps count =
    OnlyWakes-then ps (set ps p ready) _ (wake_one-OnlyWakes p ps)
      (wake_loop-OnlyWakes wq (set ps p ready) (suc count))

wake_up_all-OnlyWakes : (wq : WaitQueue) (ps : States) → OnlyWakes ps (wake_up_all wq ps).2
unfolding wake_up_all
wake_up_all-OnlyWakes wq ps = wake_loop-OnlyWakes wq ps 0

close_reader-OnlyWakes : (w : World) → OnlyWakes w.procs (close_reader w).procs
unfolding close_reader
close_reader-OnlyWakes w j = elim (Bool-cases (none_left (w.pipe.readers -ℤ pos 1))) [
  | inl e ↦ rw e (wake_up_all-OnlyWakes w.pipe.write_wq w.procs j)
  | inr e ↦ rw e (inl refl)
]

close_writer-OnlyWakes : (w : World) → OnlyWakes w.procs (close_writer w).procs
unfolding close_writer
close_writer-OnlyWakes w j = elim (Bool-cases (none_left (w.pipe.writers -ℤ pos 1))) [
  | inl e ↦ rw e (wake_up_all-OnlyWakes w.pipe.read_wq w.procs j)
  | inr e ↦ rw e (inl refl)
]

close_pipe-OnlyWakes : (w : World) (flags : ℕ) → OnlyWakes w.procs (close_pipe w flags).procs
unfolding close_pipe
close_pipe-OnlyWakes w flags j = elim (Bool-cases (bit_and flags wronly == 0)) [
  | inl e ↦ rw e (close_reader-OnlyWakes w j)
  | inr e ↦ rw e (close_writer-OnlyWakes w j)
]

close_end-OnlyWakes : (of : OpenFile) (f : Files) → OnlyWakes f.procs (close_end of f).procs
unfolding close_end
close_end-OnlyWakes of f = go of.kind of.pipe refl refl
  where
    go :
        (k : FdType) (p : Option ℕ)
        → of.kind ≡ k
        → of.pipe ≡ p
        → OnlyWakes f.procs (close_end of f).procs
    go pipe_end (some p) e h j =
        rw (e, close_end)
          (rw h (close_pipe-OnlyWakes (record { pipe = pipe_at f p; procs = f.procs }) of.flags j))
    go pipe_end none e h j = rw (e, close_end) (rw h (inl refl))
    go unused p e h j = rw (e, close_end) (inl refl)
    go vfs p e h j = rw (e, close_end) (inl refl)
    go console p e h j = rw (e, close_end) (inl refl)

release-OnlyWakes : (i : ℕ) (f : Files) → OnlyWakes f.procs (release_open_file i f).procs
unfolding release_open_file
release-OnlyWakes i f j = elim (Bool-cases (leb max_open_files i)) [
  | inl e ↦ rw e (inl refl)
  | inr e ↦ elim (Bool-cases (none_left ((file_at f i).refcount -ℤ pos 1))) [
    | inl e' ↦ rw e (rw e' (close_end-OnlyWakes (file_at f i) f j))
    | inr e' ↦ rw e (rw e' (inl refl))
  ]
]

pub fd_close_all-OnlyWakes :
    (fds : FdTable) (f : Files) → OnlyWakes f.procs (fd_close_all fds f).1.procs
unfolding fd_close_all
fd_close_all-OnlyWakes [] f = OnlyWakes-same f.procs
fd_close_all-OnlyWakes (none ∷ fds) f = fd_close_all-OnlyWakes fds f
fd_close_all-OnlyWakes (some i ∷ fds) f =
    OnlyWakes-then f.procs (release_open_file i f).procs _ (release-OnlyWakes i f)
      (fd_close_all-OnlyWakes fds (release_open_file i f))

pub wake_parent-OnlyWakes :
    (ppid : ℕ) (k : Kernel) → OnlyWakes k.files.procs (wake_parent ppid k).files.procs
unfolding wake_parent
wake_parent-OnlyWakes ppid k = go (search (is_live k ppid) max_procs 0) refl
  where
    go :
        (r : Option ℕ)
        → search (is_live k ppid) max_procs 0 ≡ r
        → OnlyWakes k.files.procs (wake_parent ppid k).files.procs
    go none e j = rw (e, wake_parent) (inl refl)
    go (some p) e j =
        rw (e, wake_parent) (wake_up_all-OnlyWakes (slot k p).wait_children k.files.procs j)
