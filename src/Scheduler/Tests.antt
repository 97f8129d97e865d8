-- ===== src/Scheduler/Tests.antt =====
-- Runs of the scheduler.
use spike_os.Prelude.{
  ℕ, zero, suc, ◌<◌, ◌≡◌, ◌≢◌, refl, true, false, [], ◌∷◌, arith, replicate, inl, ◌⊎◌,
}
use spike_os.Wait.{ready, running, blocked, zombie, state_of}
use spike_os.Fd.{fd_init}
use spike_os.Process.{zero_process, Kernel, status, max_procs, proc_get_cr3}
use spike_os.Scheduler.{Scheduler, is_running, pick_next, scheduler_tick, scheduler_init}
use spike_os.Prelude.Search.{search}
use spike_os.Scheduler.{run_next, ready_at, put_back, switch_to}
use spike_os.Scheduler.Pick.{index_after, no_starvation}
use spike_os.Scheduler.Tick.{IsScheduled, scheduler_tick-IsScheduled}

-- The idle process runs, slots 1 and 3 are READY, and slot 2 sleeps.
abbrev start : Kernel
unfolding fd_init
start = record {
  slots = replicate 32 zero_process;
  files = fd_init (running ∷ ready ∷ blocked ∷ ready ∷ replicate 28 zombie);
  next_pid = 6;
  current = 0;
  kernel_cr3 = 8192;
  active_cr3 = 8192;
  destroyed = [];
}

abbrev scheduler : Scheduler
scheduler = record {
  kernel = start;
  sched_index = 1;
  sched_ticks = 0;
  esp = replicate 32 100;
  tss_stack = 0;
}

not_running : (n j : ℕ) → is_running (state_of (replicate n zombie) j) ≡ false
not_running zero j = refl
not_running (suc n) zero = refl
not_running (suc n) (suc j) = not_running n j

start-only : (j : ℕ) → is_running (status start j) ≡ true → (j ≡ 0) ⊎ (j ≡ 0)
unfolding start fd_init
start-only zero r = inl refl
start-only (suc zero) r = absurd (ground arith)
start-only (suc (suc zero)) r = absurd (ground arith)
start-only (suc (suc (suc zero))) r = absurd (ground arith)
start-only (suc (suc (suc (suc j)))) r = absurd (ground (arith, r, not_running 28 j))

start-IsScheduled : IsScheduled start
unfolding start fd_init proc_get_cr3
start-IsScheduled = record {
  states_size = refl;
  current_in = omega arith;
  only_current = start-only;
  address_space = refl;
}

no_starvation_example :
    (n : ℕ) × (n < max_procs) × ((pick_next start (index_after (λ m. start) 1 n)).0 ≡ 1)
unfolding start fd_init
no_starvation_example = no_starvation (λ m. start) 1 1 (omega arith) (omega arith) (λ n lt. refl)

scheduler_tick-IsScheduled_example :
    let (esp, s) = scheduler_tick 64 scheduler in
    IsScheduled s.kernel
    × (s.sched_index < max_procs)
    × (s.kernel.current ≢ 0 → status s.kernel s.kernel.current ≡ running)
scheduler_tick-IsScheduled_example =
    scheduler_tick-IsScheduled 64 scheduler start-IsScheduled (omega arith)

ticked : (scheduler_tick 64 scheduler).1.kernel.current ≡ 3
unfolding scheduler_tick run_next pick_next search ready_at put_back switch_to start fd_init
ticked = refl

-- From the start the scan begins behind the idle process.
first_pick : pick_next start (scheduler_init scheduler).sched_index ≡ (1, 1)
unfolding start fd_init pick_next ready_at search scheduler_init scheduler
first_pick = refl
