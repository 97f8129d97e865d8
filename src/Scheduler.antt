-- ===== src/Scheduler.antt =====
-- The round-robin scheduler, kernel/proc/scheduler.c. `next->ctx.esp` is what the interrupt returns to;
-- the stack pointers of the processes stand in a list beside the table of Process.
pub mod Pick
pub mod Tick
mod Tests
use spike_os.Prelude.{
  ℕ, suc, ◌+◌, ◌%◌, Bool, true, false, not, ◌&&◌, Option, none, some, List, ◌==◌, if◌then◌else◌,
  get_or, set,
}
use spike_os.Prelude.Search.{search}
use spike_os.Wait.{ProcState, new, ready, running, blocked, zombie}
use spike_os.Process.{Kernel, slot, status, put_status, proc_get_cr3, max_procs}

-- `sched_index` and `sched_ticks`, the saved stack pointers `ctx.esp`, and the stack of the TSS, by its process.
pub record Scheduler : Type 0 where
  pub kernel : Kernel
  pub sched_index : ℕ
  pub sched_ticks : ℕ
  pub esp : List ℕ
  pub tss_stack : ℕ

-- Nothing counts the ticks.
unfoldable pub scheduler_init : Scheduler → Scheduler
scheduler_init s = record s { sched_index = 0; sched_ticks = 0 }

abbrev pub is_ready : ProcState → Bool
is_ready ready = true
is_ready new = false
is_ready running = false
is_ready blocked = false
is_ready zombie = false

abbrev pub is_running : ProcState → Bool
is_running running = true
is_running new = false
is_running ready = false
is_running blocked = false
is_running zombie = false

-- The slot that the loop of `pick_next` looks at in its round `step`.
abbrev pub candidate : ℕ → ℕ → ℕ
candidate index step = (index + step) % max_procs

unfoldable pub ready_at : Kernel → ℕ → ℕ → Bool
ready_at k index step = is_ready (status k (candidate index step))

-- The slot picked, and the new `sched_index`.
unfoldable pub pick_next : Kernel → ℕ → ℕ × ℕ
pick_next k index = elim (search (ready_at k index) max_procs 1) [
  | none ↦ (0, index)
  | some step ↦ (candidate index step, candidate index step)
]

-- The interrupted process goes back to the run queue, unless it is idle or cannot run.
unfoldable pub put_back : Kernel → Kernel
put_back k =
    if not (k.current == 0) && is_running (status k k.current)
    then put_status k k.current ready
    else k

-- The same process goes on.
unfoldable pub keep_running : Kernel → Kernel
keep_running k = if is_ready (status k k.current) then put_status k k.current running else k

-- The switch to `next`; the CPU's page directory changes if the two processes' differ.
unfoldable pub switch_to : ℕ → Kernel → Kernel
switch_to next k =
    let changed = not (proc_get_cr3 k next == proc_get_cr3 k k.current) in
    record (put_status k next running) {
      current = next;
      active_cr3 = if changed then proc_get_cr3 k next else k.active_cr3;
    }

-- `scheduler_tick` behind `pick_next`.
unfoldable pub run_next : ℕ × ℕ → List ℕ → Kernel → Scheduler → ℕ × Scheduler
run_next (next, index) esp k s =
    if next == k.current
    then (0, record s { kernel = keep_running k; sched_index = index; esp = esp })
    else (
      get_or esp next 0,
      record {
        kernel = switch_to next k;
        sched_index = index;
        sched_ticks = s.sched_ticks;
        esp = esp;
        tss_stack = next;
      },
    )

-- `scheduler_tick` with the trapframe at `tf`; 0 is to go on with the same stack. `current_process` is
-- set from `process_init` on.
unfoldable pub scheduler_tick : ℕ → Scheduler → ℕ × Scheduler
scheduler_tick tf s =
    let k = put_back s.kernel in
    run_next (pick_next k s.sched_index) (set s.esp s.kernel.current tf) k s
