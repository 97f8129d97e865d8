-- ===== src/Process/Kill.antt =====
-- What `proc_kill` does to the process, to its descriptors and to its page directory.
use spike_os.Prelude.{
  ℕ, ◌<◌, ◌≡◌, ◌≢◌, refl, true, not, ◌&&◌, none, ◌∷◌, arith, ◌==◌, if◌then◌else◌, length,
  length-set, get_or-set, Bool-cases, inl, inr, ◌∙◌, sym, ap, replicate, ◌⊎◌,
}
use spike_os.Prelude.Search.{search, Found, found, missing, search-Found}
use spike_os.Wait.{ready, zombie, WaitQueue, state_of, wake_up_all}
use spike_os.Wait.Laws.{queued, InTable, wake_up_all_lem}
use spike_os.Fd.{fd_close_all}
use spike_os.Fd.Counting.{Counted, Counted-table}
use spike_os.Fd.Closing.{fd_close_all-Counted}
use spike_os.Process.Shut.{fd_close_all-Shuts}
use spike_os.Process.Queued.{
  Waits-pool, Sleeps, on_pipe, on_child, set-children, free_space-children, wake_parent-Woken,
}
use spike_os.Process.Wakes.{fd_close_all-OnlyWakes, wake_parent-OnlyWakes}
use spike_os.Process.{
  Process, Kernel, slot, status, put_status, is_live, wake_parent, free_space, close_fds, kill_slot,
  proc_kill, max_procs,
}
use spike_os.Process.Slots.{
  Finds, proc_kill-Finds, IsTable, SameSlot, SameSlot-then, slot-wake_parent, wake_parent-registers,
  set_here, set_apart,
}

-- What is left of the process in slot `i` of `k`, where `other` counts the descriptors of the others.
pub record Killed (other : ℕ → ℕ) (i : ℕ) (k k' : Kernel) : Type 0 where
  pub closed : (slot k' i).fds ≡ replicate (length (slot k i).fds) none
  pub counted : Counted other (slot k' i).fds k'.files
  pub unmapped : (slot k' i).cr3 ≡ 0
  pub identity : (slot k' i).pid ≡ (slot k i).pid
  pub report : (slot k' i).exit_status ≡ (slot k i).exit_status
  pub directories :
      k'.destroyed ≡ (if (slot k i).cr3 == 0 then k.destroyed else (slot k i).cr3 ∷ k.destroyed)
  pub register :
      k'.active_cr3
      ≡ (if (i == k.current) && not ((slot k i).cr3 == 0) then k.kernel_cr3 else k.active_cr3)
  pub dead : (status k' i ≡ zombie) ⊎ ((status k' i ≡ ready) × Sleeps i k)
  pub states : (j : ℕ) → j ≢ i → (status k' j ≡ status k j) ⊎ (status k' j ≡ ready)
  pub others : (j : ℕ) → j ≢ i → SameSlot (slot k j) (slot k' j)

module _ (other : ℕ → ℕ) (i : ℕ) (k : Kernel) where
  -- After `fd_close_all`, before the page directory goes.
  record Shut (k' : Kernel) : Type 0 where
    emptied : (slot k' i).fds ≡ replicate (length (slot k i).fds) none
    balanced : Counted other (slot k' i).fds k'.files
    kept_cr3 : (slot k' i).cr3 ≡ (slot k i).cr3
    kept_pid : (slot k' i).pid ≡ (slot k i).pid
    kept_report : (slot k' i).exit_status ≡ (slot k i).exit_status
    kept_directories : k'.destroyed ≡ k.destroyed
    kept_registers :
        (k'.active_cr3 ≡ k.active_cr3) × (k'.kernel_cr3 ≡ k.kernel_cr3) × (k'.current ≡ k.current)
    dying : (status k' i ≡ zombie) ⊎ ((status k' i ≡ ready) × Sleeps i k)
    queues : (j : ℕ) → (slot k' j).wait_children ≡ (slot k j).wait_children
    other_states : (j : ℕ) → j ≢ i → (status k' j ≡ status k j) ⊎ (status k' j ≡ ready)
    other_slots : (j : ℕ) → j ≢ i → SameSlot (slot k j) (slot k' j)
    slots_length : length k'.slots ≡ length k.slots

  module _ (table : IsTable k) (inside : i < max_procs) where
    died : status (put_status k i zombie) i ≡ zombie
    died = ground (arith, get_or-set k.files.procs i i zombie zombie, table.states_size)

    others_lived : (j : ℕ) → j ≢ i → status (put_status k i zombie) j ≡ status k j
    others_lived j ne =
        ground (arith, get_or-set k.files.procs i j zombie zombie, table.states_size)

    close_fds-Shut :
        Counted other (slot k i).fds k.files → Shut (close_fds i (put_status k i zombie))
    unfolding close_fds
    close_fds-Shut c =
        let f = (put_status k i zombie).files in
        let r =
          fd_close_all-Counted other (slot k i).fds f
            (Counted-table other (slot k i).fds k.files f refl c) in
        let woken = fd_close_all-OnlyWakes (slot k i).fds f in
        let here =
          set_here k.slots i (record (slot k i) { fds = (fd_close_all (slot k i).fds f).0 })
            (omega (arith, table.slots_size)) in
        record {
          emptied = rw here r.1;
          balanced = rw here r.0;
          kept_cr3 = rw here refl;
          kept_pid = rw here refl;
          kept_report = rw here refl;
          kept_directories = refl;
          kept_registers = (refl, refl, refl);
          dying = elim (fd_close_all-Shuts i (slot k i).fds f).state [
            | inl e ↦ inl (e ∙ died)
            | inr (e, w) ↦ inr (e, on_pipe (Waits-pool i k.files f refl w))
          ];
          queues = λ j. set-children k.slots i j _ refl;
          other_states =
              λ j ne. elim (woken j) [ inl e ↦ inl (e ∙ others_lived j ne) | inr e ↦ inr e ];
          other_slots = λ j ne.
              rw
                (set_apart k.slots i j
                  (record (slot k i) { fds = (fd_close_all (slot k i).fds f).0 }) ne)
                refl;
          slots_length = length-set k.slots i _;
        }

    free_space-Killed : (k' : Kernel) → Shut k' → Killed other i k (free_space i k')
    unfolding free_space
    free_space-Killed k' h = elim (Bool-cases ((slot k' i).cr3 == 0)) [
      | inl e ↦
          rw (e, free_space)
            record {
              closed = h.emptied;
              counted = h.balanced;
              unmapped = ground arith;
              identity = h.kept_pid;
              report = h.kept_report;
              directories = ground (arith, h.kept_directories, h.kept_cr3);
              register = ground (arith, h.kept_registers, h.kept_cr3);
              dead = h.dying;
              states = h.other_states;
              others = h.other_slots;
            }
      | inr e ↦
          let gone = record (slot k' i) { cr3 = 0 } in
          let here = set_here k'.slots i gone (omega (arith, h.slots_length, table.slots_size)) in
          rw (e, free_space)
            record {
              closed = rw here h.emptied;
              counted = rw here (Counted-table other (slot k' i).fds k'.files _ refl h.balanced);
              unmapped = rw here refl;
              identity = rw here h.kept_pid;
              report = rw here h.kept_report;
              directories = ground (arith, h.kept_directories, h.kept_cr3);
              register = ground (arith, h.kept_registers, h.kept_cr3);
              dead = h.dying;
              states = h.other_states;
              others = λ j ne. rw (set_apart k'.slots i j gone ne) (h.other_slots j ne);
            }
    ]

  wake_parent-Killed :
      (ppid : ℕ) (k' : Kernel)
      → ((j : ℕ) → (slot k' j).wait_children ≡ (slot k j).wait_children)
      → Killed other i k k'
      → Killed other i k (wake_parent ppid k')
  wake_parent-Killed ppid k' children h =
      let same = slot-wake_parent ppid k' in
      let registers = wake_parent-registers ppid k' in
      let woken = wake_parent-OnlyWakes ppid k' in
      record {
        closed = ap (λ (q : Process). q.fds) (same i) ∙ h.closed;
        counted =
            let e : (slot (wake_parent ppid k') i).fds ≡ (slot k' i).fds =
              ap (λ (q : Process). q.fds) (same i) in
            rw e (Counted-table other (slot k' i).fds k'.files _ registers.2 h.counted);
        unmapped = ap (λ (q : Process). q.cr3) (same i) ∙ h.unmapped;
        identity = ap (λ (q : Process). q.pid) (same i) ∙ h.identity;
        report = ap (λ (q : Process). q.exit_status) (same i) ∙ h.report;
        directories = registers.0 ∙ h.directories;
        register = registers.1 ∙ h.register;
        dead = elim (wake_parent-Woken ppid i k') [
          | inl e ↦ elim h.dead [ inl d ↦ inl (e ∙ d) | inr (d, q) ↦ inr (e ∙ d, q) ]
          | inr (e, (j, q)) ↦ inr (e, on_child j (ap (queued i) (sym (children j)) ∙ q))
        ];
        states = λ j ne. ground (arith, woken j, h.states j ne);
        others = λ j ne. SameSlot-then (slot k j) _ _ (h.others j ne) (same j);
      }

-- `proc_kill` of a live process closes its descriptors, keeping every reference count equal to the
-- number of descriptors, destroys its page directory once if it has one, moves the CPU off a directory
-- that it destroys, and leaves no other process changed but for a wake-up. The state of the process is
-- then ZOMBIE, or it is READY and a queue of a pipe or a queue for the end of a child held the process
-- when it was killed.
pub proc_kill-Killed :
    (other : ℕ → ℕ) (pid i : ℕ) (k : Kernel)
    → IsTable k
    → Finds k pid i
    → Counted other (slot k i).fds k.files
    → Killed other i k (proc_kill pid k)
unfolding kill_slot
proc_kill-Killed other pid i k table h c =
    rw (proc_kill-Finds k pid i h) (go (search-Found (is_live k pid) 31 1))
  where
    go : Found (is_live k pid) 31 1 (search (is_live k pid) 31 1) → Killed other i k (kill_slot i k)
    go (missing all e) = absurd (ground (arith, e, h))
    go (found j le lt t before e) =
        let shut = close_fds-Shut other i k table (ground (arith, e, h)) c in
        wake_parent-Killed other i k (slot k i).parent_pid _
          (λ n. free_space-children i (close_fds i (put_status k i zombie)) n ∙ shut.queues n)
          (free_space-Killed other i k table (ground (arith, e, h)) _ shut)

-- A killed sleeper stays in the queue it slept in, and a wake-up does not ask whether it is dead: after
-- `proc_kill` of a live process in slot `i`, `wake_up_all` on any queue that still holds slot `i` makes
-- the process READY, with its descriptors closed and its page directory gone.
pub killed_sleeper_returns :
    (other : ℕ → ℕ) (pid i : ℕ) (k : Kernel) (wq : WaitQueue)
    → IsTable k
    → Finds k pid i
    → Counted other (slot k i).fds k.files
    → InTable (proc_kill pid k).files.procs wq
    → queued i wq ≡ true
    → (state_of (wake_up_all wq (proc_kill pid k).files.procs).2 i ≡ ready)
      × ((slot (proc_kill pid k) i).fds ≡ replicate (length (slot k i).fds) none)
      × ((slot (proc_kill pid k) i).cr3 ≡ 0)
killed_sleeper_returns other pid i k wq table h c inside q =
    let r = proc_kill-Killed other pid i k table h c in
    (
      (wake_up_all_lem wq (proc_kill pid k).files.procs inside).2 i ∙ rw q refl,
      r.closed,
      r.unmapped,
    )
