-- ===== src/Fd/Run/Laws.antt =====
-- Reference counts over all processes.
use spike_os.Prelude.{
  ℕ, zero, suc, ◌+◌, ◌<◌, ◌≡◌, ◌↔◌, true, List, [], ◌∷◌, arith, length, get_or, set, ◌∙◌, ap,
  Bool-cases, inl, inr,
}
use spike_os.Prelude.Int.{pos}
use spike_os.Fd.{is_unused, max_open_files, FdTable, Files, file_at}
use spike_os.Fd.Counting.{refs, Counted}
use spike_os.Fd.Closing.{fd_close-Counted, fd_close_all-Counted}
use spike_os.Fd.Create.{pipe_create-Kept}
use spike_os.Fd.Console.{fd_init_process-Counted}
use spike_os.Fd.Open.Laws.{fd_open-Counted}
use spike_os.Fd.Dup.Laws.{sys_dup-Counted}
use spike_os.Fd.Run.{
  System, fds_of, with_table, Step, opens, closes, duplicates, pipes, dies, starts, Reach, here,
  next,
}

-- How many descriptors of all processes name open file `i`.
abbrev pub total : ℕ → List FdTable → ℕ
total i [] = 0
total i (fds ∷ rest) = refs i fds + total i rest

total-set :
    (i p : ℕ) (ts : List FdTable) (fds : FdTable)
    → p < length ts
    → total i (set ts p fds) ≡ refs i fds + total i (set ts p [])
total-set i p [] fds lt = elim lt [ ]
total-set i zero (t ∷ ts) fds lt = omega arith
total-set i (suc p) (t ∷ ts) fds lt = omega (arith, total-set i p ts fds (omega arith))

total-get :
    (i p : ℕ) (ts : List FdTable)
    → p < length ts
    → total i ts ≡ refs i (get_or ts p []) + total i (set ts p [])
total-get i p [] lt = elim lt [ ]
total-get i zero (t ∷ ts) lt = omega arith
total-get i (suc p) (t ∷ ts) lt = omega (arith, total-get i p ts (omega arith))

-- The descriptors of the processes but one.
abbrev others : List FdTable → ℕ → ℕ → ℕ
others ts p i = total i (set ts p [])

abbrev Balanced : System → Type 0
Balanced s = Counted (λ i. total i s.tables) [] s.files

-- The counts do not ask which descriptors are whose.
regroup :
    (other other' : ℕ → ℕ) (fds fds' : FdTable) (f : Files)
    → ((i : ℕ) → refs i fds + other i ≡ refs i fds' + other' i)
    → Counted other fds f
    → Counted other' fds' f
regroup other other' fds fds' f e c = record {
  size = c.size;
  counts = λ i. c.counts i ∙ ap pos (e i);
  idle = λ i u. omega (arith, e i, c.idle i u);
  busy = λ i b. omega (arith, e i, c.busy i b);
}

-- A call of one process that keeps the counts, with those of the others fixed, keeps them over all.
by_one :
    (s : System) (p : ℕ) (r : FdTable × Files)
    → p < length s.tables
    → (Counted (others s.tables p) (fds_of s p) s.files → Counted (others s.tables p) r.0 r.1)
    → Balanced s
    → Balanced (with_table s p r)
by_one s p (fds, f) lt keeps b =
    regroup (others s.tables p) (λ i. total i (set s.tables p fds)) fds [] f
      (λ i. omega (arith, total-set i p s.tables fds lt))
      (keeps (
        regroup (λ i. total i s.tables) (others s.tables p) [] (fds_of s p) s.files
          (λ i. omega (arith, total-get i p s.tables lt)) b))

next-Balanced : (s t : System) → Step s t → Balanced s → Balanced t
next-Balanced s _ (opens p served stack cwd path flags lt) =
    by_one s p _ lt (fd_open-Counted served stack cwd path flags _ (fds_of s p) s.files s.volume)
next-Balanced s _ (closes p fd lt) =
    by_one s p _ lt (λ c. (fd_close-Counted fd _ (fds_of s p) s.files c).0)
next-Balanced s _ (duplicates p fd lt) = by_one s p _ lt (sys_dup-Counted fd _ (fds_of s p) s.files)
next-Balanced s _ (pipes p lt) =
    by_one s p _ lt (λ c. (pipe_create-Kept _ (fds_of s p) s.files c).0)
next-Balanced s _ (dies p lt) =
    by_one s p _ lt (λ c. (fd_close_all-Counted _ (fds_of s p) s.files c).0)
next-Balanced s _ (starts p lt e) =
    by_one s p _ lt (λ c. (fd_init_process-Counted _ s.files (rw (← e) c)).0)

run-Balanced : (s t : System) → Reach s t → Balanced s → Balanced t
run-Balanced s _ here b = b
run-Balanced s t (next r step) b = next-Balanced _ t step (run-Balanced s _ r b)

-- What the processes have open is what the table has in use: the count of an entry is the number of
-- descriptors that name it, over all processes, and an entry is free exactly where there are none.
pub record Accounts (s : System) : Type 0 where
  pub size : length s.files.table ≡ max_open_files
  pub counts : (i : ℕ) → (file_at s.files i).refcount ≡ pos (total i s.tables)
  pub free : (i : ℕ) → (is_unused (file_at s.files i).kind ≡ true) ↔ (total i s.tables ≡ 0)

-- From any state in which the counts are right, and after any sequence of opens, closes, duplications, new pipes,
-- starts and deaths of any processes: each count in the open file table is the number of the descriptors of all
-- processes that name the entry, and an entry is free exactly if none does.
pub run-Accounts : (s t : System) → Accounts s → Reach s t → Accounts t
run-Accounts s t a r = record {
  size = b.size;
  counts = λ i. b.counts i ∙ ap pos (omega arith);
  free = λ i. (λ u. omega (arith, b.idle i u), back i);
}
  where
    start : Balanced s
    start = record {
      size = a.size;
      counts = λ i. a.counts i ∙ ap pos (omega arith);
      idle = λ i u. omega (arith, (a.free i).0 u);
      busy = λ i u. ground (arith, (a.free i).1, u);
    }

    b : Balanced t
    b = run-Balanced s t r start

    back : (i : ℕ) → total i t.tables ≡ 0 → is_unused (file_at t.files i).kind ≡ true
    back i z = elim (Bool-cases (is_unused (file_at t.files i).kind)) [
      | inl u ↦ u
      | inr u ↦ absurd (omega (arith, b.busy i u, z))
    ]
