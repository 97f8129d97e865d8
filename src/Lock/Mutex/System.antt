-- ===== src/Lock/Mutex/System.antt =====
-- Processes that use one mutex, interleaved: each step is a stretch of mutex.c that runs with
-- interrupts off, and between two steps of one process any other may run.
use spike_os.Prelude.{ℕ, ◌≡◌, false, ◌==◌, if◌then◌else◌}
use spike_os.Wait.{States, still_sleeping}
use spike_os.Lock.Mutex.{Mutex, mutex_init, mutex_trylock, mutex_release, mutex_wake, mutex_sleep}

-- Where a process stands: outside; at the head of the loop of `mutex_lock`; behind the failed test, before
-- `sleep_on`; asleep in it; holding the mutex; in `mutex_unlock` before `wake_up_one`.
pub data Place : Type 0 where
  outside trying parking parked inside waking : Place

pub record System : Type 0 where
  pub mutex : Mutex
  pub procs : States
  pub place : ℕ → Place

abbrev pub put : (ℕ → Place) → ℕ → Place → ℕ → Place
put f i p k = if i == k then p else f k

abbrev pub start : States → System
start ps = record { mutex = mutex_init; procs = ps; place = λ k. outside }

-- What each step leaves.
abbrev pub move : ℕ → Place → System → System
move i p s = record s { place = put s.place i p }

-- One round of `mutex_lock`: in, or on the way to sleep. `refused` is where a failed attempt leads.
abbrev pub attempt : ℕ → Place → System → System
attempt i refused s =
    let (got, m) = mutex_trylock i s.mutex in
    record s { mutex = m; place = put s.place i (if got then inside else refused) }

abbrev pub park : ℕ → System → System
park i s =
    let (m, ps) = mutex_sleep i s.mutex s.procs in
    record { mutex = m; procs = ps; place = put s.place i parked }

abbrev pub release : ℕ → System → System
release i s = record s { mutex = mutex_release s.mutex; place = put s.place i waking }

abbrev pub wake : ℕ → System → System
wake i s =
    let (m, ps) = mutex_wake s.mutex s.procs in
    record { mutex = m; procs = ps; place = put s.place i outside }

pub data Step : System → System → Type 0 where
  call_lock : (s : System) (i : ℕ) → s.place i ≡ outside → Step s (move i trying s)
  lock_round : (s : System) (i : ℕ) → s.place i ≡ trying → Step s (attempt i parking s)
  try_once : (s : System) (i : ℕ) → s.place i ≡ outside → Step s (attempt i outside s)
  sleep : (s : System) (i : ℕ) → s.place i ≡ parking → Step s (park i s)
  resume :
      (s : System) (i : ℕ)
      → s.place i ≡ parked
      → still_sleeping i s.procs ≡ false
      → Step s (move i trying s)
  unlock : (s : System) (i : ℕ) → s.place i ≡ inside → Step s (release i s)
  unlock_wake : (s : System) (i : ℕ) → s.place i ≡ waking → Step s (wake i s)

pub data Reach (s : System) : System → Type 0 where
  here : Reach s s
  next : {t u : System} → Reach s t → Step t u → Reach s u
