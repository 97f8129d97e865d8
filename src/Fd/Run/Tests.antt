-- ===== src/Fd/Run/Tests.antt =====
-- A run of two processes.
use spike_os.Prelude.{ℕ, zero, suc, ◌≡◌, refl, none, [], ◌∷◌, arith, ap, get_or, replicate}
use spike_os.Wait.{ready}
use spike_os.Fd.{OpenFile, zero_file, max_fds, fd_init, fd_init_process, pipe_create}
use spike_os.Fd.Open.{new_inode}
use spike_os.Fd.Run.{System, Reach, here, next, starts, pipes, with_table, after_call, fds_of}
use spike_os.Fd.Run.Laws.{Accounts, run-Accounts}

-- No descriptors, and an empty file system.
abbrev fresh : System
unfolding fd_init
fresh = record {
  tables = replicate max_fds none ∷ replicate max_fds none ∷ [];
  files = fd_init (ready ∷ ready ∷ []);
  volume = record { tree = []; inode = λ i. new_inode };
}

all_zero : (n i : ℕ) → get_or (replicate n zero_file) i zero_file ≡ zero_file
all_zero zero i = refl
all_zero (suc n) zero = refl
all_zero (suc n) (suc i) = all_zero n i

fresh-Accounts : Accounts fresh
unfolding fd_init
fresh-Accounts = record {
  size = refl;
  counts = λ i. ap (λ (of : OpenFile). of.refcount) (all_zero 64 i);
  free = λ i. (λ u. refl, λ z. rw (all_zero 64 i) refl);
}

-- Process 1 starts, and makes a pipe.
abbrev started : System
started = with_table fresh 1 (fd_init_process fresh.files)

abbrev piped : System
piped = after_call started 1 (pipe_create (fds_of started 1) started.files)

run : Reach fresh piped
unfolding fresh
run = next (next here (starts 1 (omega arith) refl)) (pipes 1 (omega arith))

run-Accounts_example : Accounts piped
run-Accounts_example = run-Accounts fresh piped fresh-Accounts run
