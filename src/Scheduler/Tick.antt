-- ===== src/Scheduler/Tick.antt =====
-- Who runs after a tick, and in which address space.
use spike_os.Prelude.{
  ℕ, ◌<◌, ◌≡◌, ◌≢◌, refl, true, not, ◌&&◌, List, arith, ◌==◌, if◌then◌else◌, length, set,
  length-set, get_or-set, Bool-cases, inl, inr, ◌∙◌, sym, ap, ◌⊎◌,
}
use spike_os.Wait.{ProcState, ready, running, zombie}
use spike_os.Process.{Kernel, status, put_status, proc_get_cr3, max_procs}
use spike_os.Scheduler.{
  Scheduler, is_ready, is_running, pick_next, put_back, keep_running, switch_to, run_next,
  scheduler_tick,
}
use spike_os.Scheduler.Pick.{Picks, picks, idles, pick_next-Picks}

-- Nobody runs but the current process, and the idle one, which keeps its state while it waits; the CPU
-- is on the directory of the current process.
pub record IsScheduled (k : Kernel) : Type 0 where
  pub states_size : length k.files.procs ≡ max_procs
  pub current_in : k.current < max_procs
  pub only_current : (j : ℕ) → is_running (status k j) ≡ true → (j ≡ k.current) ⊎ (j ≡ 0)
  pub address_space : k.active_cr3 ≡ proc_get_cr3 k k.current

status-put_status :
    (k : Kernel) (i j : ℕ) (s : ProcState)
    → length k.files.procs ≡ max_procs
    → i < max_procs
    → status (put_status k i s) j ≡ (if i == j then s else status k j)
status-put_status k i j s size lt = get_or-set k.files.procs i j s zombie (omega arith)

-- After the interrupted process is put back, only the idle one may be RUNNING.
record PutBack (k k' : Kernel) : Type 0 where
  size : length k'.files.procs ≡ max_procs
  same_current : k'.current ≡ k.current
  space : k'.active_cr3 ≡ proc_get_cr3 k' k'.current
  only_idle : (j : ℕ) → is_running (status k' j) ≡ true → j ≡ 0

put_back-PutBack : (k : Kernel) → IsScheduled k → PutBack k (put_back k)
unfolding put_back proc_get_cr3
put_back-PutBack k h = elim (Bool-cases (not (k.current == 0) && is_running (status k k.current))) [
  | inl t ↦
      rw (t, put_back)
        record {
          size = length-set k.files.procs k.current ready ∙ h.states_size;
          same_current = refl;
          space = h.address_space;
          only_idle = λ j r. ground (
            arith,
            status-put_status k k.current j ready h.states_size h.current_in,
            h.only_current j,
            r,
          );
        }
  | inr f ↦
      rw (f, put_back)
        record {
          size = h.states_size;
          same_current = refl;
          space = h.address_space;
          only_idle = λ j r. elim (h.only_current j r) [
            | inr e ↦ e
            | inl e ↦ ground (arith, f, ap (λ x. is_running (status k x)) e, r)
          ];
        }
]

switch_to-IsScheduled :
    (next : ℕ) (k k' : Kernel)
    → next < max_procs
    → IsScheduled k
    → PutBack k k'
    → IsScheduled (switch_to next k') × (status (switch_to next k') next ≡ running)
unfolding switch_to proc_get_cr3
switch_to-IsScheduled next k k' lt h p = (
  record {
    states_size = length-set k'.files.procs next running ∙ p.size;
    current_in = lt;
    only_current =
        λ j r. ground (arith, status-put_status k' next j running p.size lt, p.only_idle j, r);
    address_space = ground (arith, p.space);
  },
  ground (arith, status-put_status k' next next running p.size lt),
)

keep_running-IsScheduled :
    (k k' : Kernel)
    → IsScheduled k
    → PutBack k k'
    → (k'.current ≢ 0 → is_ready (status k' k'.current) ≡ true)
    → IsScheduled (keep_running k')
      × ((keep_running k').current ≢ 0
          → status (keep_running k') (keep_running k').current ≡ running)
unfolding keep_running proc_get_cr3
keep_running-IsScheduled k k' h p r =
    let lt : k'.current < max_procs = omega (arith, p.same_current, h.current_in) in
    elim (Bool-cases (is_ready (status k' k'.current))) [
      | inl t ↦
          rw (t, keep_running)
            (
              record {
                states_size = length-set k'.files.procs k'.current running ∙ p.size;
                current_in = lt;
                only_current = λ j u.
                    ground (
                      arith,
                      status-put_status k' k'.current j running p.size lt,
                      p.only_idle j,
                      u,
                    );
                address_space = p.space;
              },
              λ ne. ground (arith, status-put_status k' k'.current k'.current running p.size lt),
            )
      | inr f ↦
          rw (f, keep_running)
            (
              record {
                states_size = p.size;
                current_in = lt;
                only_current = λ j r. inr (p.only_idle j r);
                address_space = p.space;
              },
              λ ne. absurd (ground (arith, r ne, f)),
            )
    ]

abbrev After : ℕ × Scheduler → Type 0
After (esp, s) =
    IsScheduled s.kernel
    × (s.sched_index < max_procs)
    × (s.kernel.current ≢ 0 → status s.kernel s.kernel.current ≡ running)

run_next-After :
    (next index : ℕ) (esp : List ℕ) (k k' : Kernel) (s : Scheduler)
    → IsScheduled k
    → PutBack k k'
    → next < max_procs
    → index < max_procs
    → ((next ≢ 0) → is_ready (status k' next) ≡ true)
    → After (run_next (next, index) esp k' s)
unfolding run_next switch_to
run_next-After next index esp k k' s h p lt lt' r = elim (Bool-cases (next == k'.current)) [
  | inl t ↦
      let same : next ≡ k'.current = ground arith in
      let kept =
        keep_running-IsScheduled k k' h p (λ ne. rw (← same) (r (λ z. ne (sym same ∙ z)))) in
      rw (t, run_next) (kept.0, lt', kept.1)
  | inr f ↦
      let switched = switch_to-IsScheduled next k k' lt h p in
      rw (f, run_next) (switched.0, lt', λ ne. switched.1)
]

-- A tick keeps the table scheduled: nobody runs but the current process, and the idle one, and the CPU
-- is on the page directory of the current process, which runs unless it is the idle one.
pub scheduler_tick-IsScheduled :
    (tf : ℕ) (s : Scheduler)
    → IsScheduled s.kernel
    → s.sched_index < max_procs
    → let (esp, s') = scheduler_tick tf s in
      IsScheduled s'.kernel
      × (s'.sched_index < max_procs)
      × (s'.kernel.current ≢ 0 → status s'.kernel s'.kernel.current ≡ running)
unfolding scheduler_tick
scheduler_tick-IsScheduled tf s h lt = go (pick_next-Picks (put_back s.kernel) s.sched_index lt)
  where
    k' : Kernel
    k' = put_back s.kernel

    esp : List ℕ
    esp = set s.esp s.kernel.current tf

    go :
        Picks k' s.sched_index (pick_next k' s.sched_index)
        → After (run_next (pick_next k' s.sched_index) esp k' s)
    go (picks q qlt t before e) =
        rw e
          (run_next-After q q esp s.kernel k' s h (put_back-PutBack s.kernel h) qlt qlt (λ ne. t))
    go (idles all e) = rw e (
        run_next-After 0 s.sched_index esp s.kernel k' s h (put_back-PutBack s.kernel h)
          (omega arith) lt (λ ne. absurd (ne refl)))
