-- ===== src/Process/Shut.antt =====
-- What a close of descriptors, `fd_close_all`, does to one process: the queues of the pipes that hold it.
use spike_os.Prelude.{
  leb, ℕ, zero, suc, ◌≡◌, refl, true, Option, none, some, List, [], ◌∷◌, arith, ◌==◌, get_or, set,
  Bool-cases, inl, inr, ◌⊎◌, ◌∙◌, sym, ap,
}
use Prim.Native.Nat.{bit_and}
use spike_os.Prelude.Int.{pos, ◌-ℤ◌}
use spike_os.Pipe.{Pipe, World, zero_pipe, close_reader, close_writer, none_left}
use spike_os.Wait.{ready, WaitQueue, state_of, wake_up_all}
use spike_os.Wait.Laws.{queued}
use spike_os.Fd.{
  FdType, unused, vfs, console, pipe_end, OpenFile, wronly, close_pipe, close_end,
  release_open_file, file_at, pipe_at, put_pipe, max_open_files, FdTable, Files, fd_close_all,
}
use spike_os.Process.Queued.{Waits, to_read, to_write, wake_loop-Woken, drained, Waits-pool}

not_queued : (i : ℕ) (wq : WaitQueue) {A : Type 0} → wq ≡ [] → queued i wq ≡ true → A
not_queued i wq e q = absurd (ground (arith, rw e at q))

-- What a close does to one process: it wakes only where a queue holds it, and puts it into none.
record Closes (i : ℕ) (w w' : World) : Type 0 where
  state :
      (state_of w'.procs i ≡ state_of w.procs i)
      ⊎ ((state_of w'.procs i ≡ ready)
          × ((queued i w.pipe.read_wq ≡ true) ⊎ (queued i w.pipe.write_wq ≡ true)))
  reading : queued i w'.pipe.read_wq ≡ true → queued i w.pipe.read_wq ≡ true
  writing : queued i w'.pipe.write_wq ≡ true → queued i w.pipe.write_wq ≡ true

close_reader-Closes : (i : ℕ) (w : World) → Closes i w (close_reader w)
unfolding close_reader wake_up_all
close_reader-Closes i w = elim (Bool-cases (none_left (w.pipe.readers -ℤ pos 1))) [
  | inr e ↦ rw e record { state = inl refl; reading = λ q. q; writing = λ q. q }
  | inl e ↦ rw e record {
    state = elim (wake_loop-Woken i w.pipe.write_wq w.procs 0) [
      | inl s ↦ inl s
      | inr (s, q) ↦ inr (s, inr q)
    ];
    reading = λ q. q;
    writing = λ q. not_queued i _ (drained w.pipe.write_wq w.procs 0) q;
  }
]

close_writer-Closes : (i : ℕ) (w : World) → Closes i w (close_writer w)
unfolding close_writer wake_up_all
close_writer-Closes i w = elim (Bool-cases (none_left (w.pipe.writers -ℤ pos 1))) [
  | inr e ↦ rw e record { state = inl refl; reading = λ q. q; writing = λ q. q }
  | inl e ↦ rw e record {
    state = elim (wake_loop-Woken i w.pipe.read_wq w.procs 0) [
      | inl s ↦ inl s
      | inr (s, q) ↦ inr (s, inl q)
    ];
    reading = λ q. not_queued i _ (drained w.pipe.read_wq w.procs 0) q;
    writing = λ q. q;
  }
]

close_pipe-Closes : (i : ℕ) (w : World) (flags : ℕ) → Closes i w (close_pipe w flags)
unfolding close_pipe
close_pipe-Closes i w flags = elim (Bool-cases (bit_and flags wronly == 0)) [
  | inl e ↦ rw e (close_reader-Closes i w)
  | inr e ↦ rw e (close_writer-Closes i w)
]

-- The same for the table of open files.
pub record Shuts (i : ℕ) (f f' : Files) : Type 0 where
  pub state :
      (state_of f'.procs i ≡ state_of f.procs i) ⊎ ((state_of f'.procs i ≡ ready) × Waits i f)
  queues : Waits i f' → Waits i f

Shuts-same : (i : ℕ) (f f' : Files) → f'.procs ≡ f.procs → f'.pool ≡ f.pool → Shuts i f f'
Shuts-same i f f' e p = record {
  state = inl (ap (λ ps. state_of ps i) e);
  queues = Waits-pool i f f' p;
}

Shuts-then : (i : ℕ) (f g h : Files) → Shuts i f g → Shuts i g h → Shuts i f h
Shuts-then i f g h a b = record {
  state = elim b.state [
    | inl e ↦ elim a.state [ inl d ↦ inl (e ∙ d) | inr (d, q) ↦ inr (e ∙ d, q) ]
    | inr (e, q) ↦ inr (e, a.queues q)
  ];
  queues = λ q. a.queues (b.queues q);
}

pool_set :
    (ps : List Pipe) (k n : ℕ) (p : Pipe)
    → (get_or (set ps k p) n zero_pipe ≡ get_or ps n zero_pipe)
      ⊎ ((n ≡ k) × (get_or (set ps k p) n zero_pipe ≡ p))
unfolding zero_pipe
pool_set [] k n p = inl refl
pool_set (x ∷ ps) zero zero p = inr (refl, refl)
pool_set (x ∷ ps) zero (suc n) p = inl refl
pool_set (x ∷ ps) (suc k) zero p = inl refl
pool_set (x ∷ ps) (suc k) (suc n) p = elim (pool_set ps k n p) [
  | inl e ↦ inl e
  | inr (e, d) ↦ inr (ap suc e, d)
]

pipe_at-set :
    (f g : Files) (k n : ℕ) (p : Pipe)
    → g.pool ≡ set f.pool k p
    → (pipe_at g n ≡ pipe_at f n) ⊎ ((n ≡ k) × (pipe_at g n ≡ p))
unfolding zero_pipe
pipe_at-set f g k n p e = rw e (pool_set f.pool k n p)

-- `close_pipe` on pipe `k` of the pool.
close_at : ℕ → ℕ → Files → Files
close_at k flags f =
    let w = close_pipe (record { pipe = pipe_at f k; procs = f.procs }) flags in
    record (put_pipe f k w.pipe) { procs = w.procs }

close_at-Shuts : (i k flags : ℕ) (f : Files) → Shuts i f (close_at k flags f)
unfolding close_at
close_at-Shuts i k flags f = record {
  state = elim closes.state [
    | inl e ↦ inl e
    | inr (e, inl q) ↦ inr (e, to_read k q)
    | inr (e, inr q) ↦ inr (e, to_write k q)
  ];
  queues = back;
}
  where
    w : World
    w = record { pipe = pipe_at f k; procs = f.procs }

    closes : Closes i w (close_pipe w flags)
    closes = close_pipe-Closes i w flags

    g : Files
    g = record (put_pipe f k (close_pipe w flags).pipe) { procs = (close_pipe w flags).procs }

    back : Waits i g → Waits i f
    back (to_read n q) = elim (pipe_at-set f g k n (close_pipe w flags).pipe refl) [
      | inl e ↦ to_read n (ap (λ (r : Pipe). queued i r.read_wq) (sym e) ∙ q)
      | inr (_, e) ↦ to_read k (closes.reading (ap (λ (r : Pipe). queued i r.read_wq) (sym e) ∙ q))
    ]
    back (to_write n q) = elim (pipe_at-set f g k n (close_pipe w flags).pipe refl) [
      | inl e ↦ to_write n (ap (λ (r : Pipe). queued i r.write_wq) (sym e) ∙ q)
      | inr (_, e) ↦
          to_write k (closes.writing (ap (λ (r : Pipe). queued i r.write_wq) (sym e) ∙ q))
    ]

close_end-Shuts : (i : ℕ) (of : OpenFile) (f : Files) → Shuts i f (close_end of f)
unfolding close_end close_at
close_end-Shuts i of f = go of.kind of.pipe refl refl
  where
    go : (k : FdType) (p : Option ℕ) → of.kind ≡ k → of.pipe ≡ p → Shuts i f (close_end of f)
    go pipe_end (some p) e h = rw (e, close_end) (rw h (close_at-Shuts i p of.flags f))
    go pipe_end none e h = rw (e, close_end) (rw h (Shuts-same i f f refl refl))
    go unused p e h = rw (e, close_end) (Shuts-same i f f refl refl)
    go vfs p e h = rw (e, close_end) (Shuts-same i f f refl refl)
    go console p e h = rw (e, close_end) (Shuts-same i f f refl refl)

release-Shuts : (i idx : ℕ) (f : Files) → Shuts i f (release_open_file idx f)
unfolding release_open_file
release-Shuts i idx f = elim (Bool-cases (leb max_open_files idx)) [
  | inl e ↦ rw e (Shuts-same i f f refl refl)
  | inr e ↦ elim (Bool-cases (none_left ((file_at f idx).refcount -ℤ pos 1))) [
    | inl e' ↦
        let g = close_end (file_at f idx) f in
        rw e (
          rw e'
            (Shuts-then i f g _ (close_end-Shuts i (file_at f idx) f) (Shuts-same i g _ refl refl)))
    | inr e' ↦ rw e (rw e' (Shuts-same i f _ refl refl))
  ]
]

pub fd_close_all-Shuts : (i : ℕ) (fds : FdTable) (f : Files) → Shuts i f (fd_close_all fds f).1
unfolding fd_close_all
fd_close_all-Shuts i [] f = Shuts-same i f f refl refl
fd_close_all-Shuts i (none ∷ fds) f = fd_close_all-Shuts i fds f
fd_close_all-Shuts i (some n ∷ fds) f =
    Shuts-then i f (release_open_file n f) _ (release-Shuts i n f)
      (fd_close_all-Shuts i fds (release_open_file n f))
