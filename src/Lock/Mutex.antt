-- ===== src/Lock/Mutex.antt =====
-- Spinlocks, mutexes and condition variables: kernel/proc/mutex.c and condvar.c. A stretch of code between
-- `hal_irq_save` and `hal_irq_restore` is one function; `System` interleaves them.
pub mod System
pub mod Safety
pub mod LostWakeup
mod Tests
use spike_os.Prelude.{ℕ, Bool, true, false, Option, none, some, [], if◌then◌else◌}
use spike_os.Wait.{States, WaitQueue, wake_up_one, wake_up_all, sleep_on}

-- `spinlock_t`; the interrupt flags are a number that the hardware gives.
pub record Spinlock : Type 0 where
  pub locked : Bool
  pub saved_flags : ℕ

pub spin_init : Spinlock
spin_init = record { locked = false; saved_flags = 0 }

-- `flags` is what `hal_irq_save` returns.
pub spin_lock : ℕ → Spinlock → Spinlock
spin_lock flags s = record { locked = true; saved_flags = flags }

-- Returns the flags that go to `hal_irq_restore`.
pub spin_unlock : Spinlock → ℕ × Spinlock
spin_unlock s = (s.saved_flags, record s { locked = false })

-- `mutex_t`; the owner is a slot of the process table.
pub record Mutex : Type 0 where
  pub locked : Bool
  pub wq : WaitQueue
  pub owner : Option ℕ

unfoldable pub mutex_init : Mutex
mutex_init = record { locked = false; wq = []; owner = none }

-- `mutex_trylock`, and one round of the loop of `mutex_lock` up to its return or its sleep: true where
-- the caller has the lock. `me` is `current_process`.
pub mutex_trylock : ℕ → Mutex → Bool × Mutex
mutex_trylock me m =
    if m.locked then (false, m) else (true, record m { locked = true; owner = some me })

-- The first part of `mutex_unlock`, and of `condvar_wait`.
pub mutex_release : Mutex → Mutex
mutex_release m = record m { locked = false; owner = none }

-- Its second part, `wake_up_one(&m->wq)`.
pub mutex_wake : Mutex → States → Mutex × States
mutex_wake m ps = let (n, wq', ps') = wake_up_one m.wq ps in (record m { wq = wq' }, ps')

-- `sleep_on(&m->wq)`, called by `mutex_lock` when the lock is taken.
pub mutex_sleep : ℕ → Mutex → States → Mutex × States
mutex_sleep me m ps = let (wq', ps') = sleep_on (some me) m.wq ps in (record m { wq = wq' }, ps')

-- `condvar_t` is its queue.
abbrev pub Condvar : Type 0
Condvar = WaitQueue

-- `condvar_wait` up to the sleep, when nothing else runs in between; the caller then sleeps, and takes
-- the mutex again by `mutex_lock`.
pub condvar_wait : ℕ → Condvar → Mutex → States → Condvar × Mutex × States
unfolding mutex_release mutex_wake
condvar_wait me cv m ps =
    let (m', ps') = mutex_wake (mutex_release m) ps in
    let (cv', ps'') = sleep_on (some me) cv ps' in (cv', m', ps'')

pub condvar_signal : Condvar → States → Condvar × States
condvar_signal cv ps = let (n, cv', ps') = wake_up_one cv ps in (cv', ps')

pub condvar_broadcast : Condvar → States → Condvar × States
condvar_broadcast cv ps = let (n, cv', ps') = wake_up_all cv ps in (cv', ps')
