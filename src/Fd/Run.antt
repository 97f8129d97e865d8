-- ===== src/Fd/Run.antt =====
-- All processes at once: the calls of kernel/fs/fd.c and kernel/fs/pipe.c, and `sys_dup`, that make descriptors
-- and give them back, in any order. `tables` are the descriptors of each process.
pub mod Laws
mod Tests
use spike_os.Prelude.{ℕ, ◌<◌, ◌≡◌, Bool, none, List, [], get_or, set, length, replicate}
use spike_os.Vfs.Tree.{Name}
use spike_os.Fd.{FdTable, Files, max_fds, fd_close, fd_close_all, fd_init_process, pipe_create}
use spike_os.Fd.Open.{Volume, OpenResult, fd_open}
use spike_os.Fd.Dup.{sys_dup}

pub record System : Type 0 where
  pub tables : List FdTable
  pub files : Files
  pub volume : Volume

abbrev pub fds_of : System → ℕ → FdTable
fds_of s p = get_or s.tables p []

-- What a call of process `p` leaves.
abbrev pub with_table : System → (p : ℕ) → FdTable × Files → System
with_table s p (fds, f) = record s { tables = set s.tables p fds; files = f }

abbrev pub after_call {ℓ} : {A : Type ℓ} → System → (p : ℕ) → A × FdTable × Files → System
after_call s p (res, fds, f) = with_table s p (fds, f)

abbrev pub after_open : System → (p : ℕ) → OpenResult → System
after_open s p (res, fds, f, v) = record (with_table s p (fds, f)) { volume = v }

-- One call of process `p`. A process that starts has no descriptors yet.
pub data Step (s : System) : System → Type 0 where
  opens :
      (p : ℕ) (served : ℕ → Bool) (stack : ℕ × Name) (cwd : ℕ) (path : Name) (flags : ℕ)
      → p < length s.tables
      → Step s (after_open s p (fd_open served stack cwd path flags (fds_of s p) s.files s.volume))
  closes :
      (p fd : ℕ) → p < length s.tables → Step s (after_call s p (fd_close fd (fds_of s p) s.files))
  duplicates :
      (p fd : ℕ) → p < length s.tables → Step s (after_call s p (sys_dup fd (fds_of s p) s.files))
  pipes : (p : ℕ) → p < length s.tables → Step s (after_call s p (pipe_create (fds_of s p) s.files))
  dies : (p : ℕ) → p < length s.tables → Step s (with_table s p (fd_close_all (fds_of s p) s.files))
  starts :
      (p : ℕ)
      → p < length s.tables
      → fds_of s p ≡ replicate max_fds none
      → Step s (with_table s p (fd_init_process s.files))

pub data Reach (s : System) : System → Type 0 where
  here : Reach s s
  next : {t u : System} → Reach s t → Step t u → Reach s u
