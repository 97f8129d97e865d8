-- ===== src/Lock/Mutex/Safety.antt =====
-- Mutual exclusion, at every point of every interleaving.
use spike_os.Prelude.{ℕ, ◌≡◌, true, some, arith}
use spike_os.Wait.{States}
use spike_os.Lock.Mutex.{mutex_init, mutex_trylock, mutex_release, mutex_wake, mutex_sleep}
use spike_os.Lock.Mutex.System.{
  inside, System, Step, Reach, start, call_lock, lock_round, try_once, sleep, resume, unlock,
  unlock_wake, here, next,
}

-- Who is inside owns the mutex, which is locked.
abbrev pub Owned : System → Type 0
Owned s = (i : ℕ) → s.place i ≡ inside → (s.mutex.locked ≡ true) × (s.mutex.owner ≡ some i)

Step-Owned : {s t : System} → Step s t → Owned s → Owned t
unfolding mutex_trylock mutex_release mutex_wake mutex_sleep
Step-Owned (call_lock s i at) own k h = ground (arith, own k)
Step-Owned (lock_round s i at) own k h = ground (arith, own k)
Step-Owned (try_once s i at) own k h = ground (arith, own k)
Step-Owned (sleep s i at) own k h = ground (arith, own k)
Step-Owned (resume s i at up) own k h = ground (arith, own k)
Step-Owned (unlock s i at) own k h = ground (arith, own k, own i)
Step-Owned (unlock_wake s i at) own k h = ground (arith, own k)

pub Reach-Owned : (ps : States) {t : System} → Reach (start ps) t → Owned t
unfolding mutex_init
Reach-Owned ps here i h = ground arith
Reach-Owned ps (next r st) i h = Step-Owned st (Reach-Owned ps r) i h

-- In every state that the system can reach, at most one process holds the mutex, and it is locked
-- and records that process as its owner.
pub mutual_exclusion :
    (ps : States) (t : System) (i j : ℕ)
    → Reach (start ps) t
    → t.place i ≡ inside
    → t.place j ≡ inside
    → (i ≡ j) × (t.mutex.locked ≡ true) × (t.mutex.owner ≡ some i)
mutual_exclusion ps t i j r hi hj = ground (arith, Reach-Owned ps r i hi, Reach-Owned ps r j hj)
