-- ===== src/Wait.antt =====
-- Wait queues, kernel/proc/wait.c, over the process states of kernel/include/kernel/process.h.
-- A process is its slot in `proc_table`; of the table only the states matter here. A queue is the
-- list of the processes whose entries it links, head first: the entries live on the stacks of the
-- sleepers, so an entry is nothing but its process. Each function runs with interrupts disabled.
pub mod Laws
mod Tests
use spike_os.Prelude.{
  ℕ, suc, Bool, true, false, Option, none, some, List, [], ◌∷◌, ◌++◌, get_or, set, if◌then◌else◌,
}

-- `enum proc_state`.
pub data ProcState : Type 0 where
  new ready running blocked zombie : ProcState

abbrev pub States : Type 0
States = List ProcState

abbrev pub WaitQueue : Type 0
WaitQueue = List ℕ

abbrev pub is_blocked : ProcState → Bool
is_blocked blocked = true
is_blocked new = false
is_blocked ready = false
is_blocked running = false
is_blocked zombie = false

-- The state of a slot; the code never asks outside the table.
abbrev pub state_of : States → ℕ → ProcState
state_of ps i = get_or ps i zombie

-- `sleep_on` up to its spin loop: the entry goes to the tail, and the caller blocks. `none` is the
-- early return for a null `current_process`.
unfoldable pub sleep_on : Option ℕ → WaitQueue → States → WaitQueue × States
sleep_on none wq ps = (wq, ps)
sleep_on (some me) wq ps = (wq ++ (me ∷ []), set ps me blocked)

-- The test of the spin loop: the caller goes on as soon as it is not blocked.
unfoldable pub still_sleeping : ℕ → States → Bool
still_sleeping me ps = is_blocked (state_of ps me)

-- Returns how many were woken, the rest of the queue and the new states.
unfoldable pub wake_up_one : WaitQueue → States → ℕ × WaitQueue × States
wake_up_one [] ps = (0, [], ps)
wake_up_one (p ∷ wq) ps = (1, wq, set ps p ready)

-- The loop of `wake_up_all`, with its counter.
unfoldable pub wake_loop : WaitQueue → States → ℕ → ℕ × WaitQueue × States
wake_loop [] ps count = (count, [], ps)
wake_loop (p ∷ wq) ps count = wake_loop wq (set ps p ready) (suc count)

unfoldable pub wake_up_all : WaitQueue → States → ℕ × WaitQueue × States
unfolding wake_loop
wake_up_all wq ps = wake_loop wq ps 0
