-- ===== src/Lock/Mutex/Tests.antt =====
-- The mutex theorems at two processes.
use spike_os.Prelude.{ℕ, ◌≡◌, refl, true, some, [], ◌∷◌, arith}
use spike_os.Wait.{States, running, ready, still_sleeping}
use spike_os.Lock.Mutex.{mutex_init, mutex_trylock}
use spike_os.Lock.Mutex.System.{
  System, Step, Reach, start, attempt, outside, inside, parking, parked, try_once, release, wake,
  park, here, next,
}
use spike_os.Lock.Mutex.Safety.{mutual_exclusion}
use spike_os.Lock.Mutex.LostWakeup.{Stranded, lost_wakeup}

abbrev procs : States
procs = running ∷ ready ∷ []

abbrev locked_by_one : System
locked_by_one = attempt 1 outside (start procs)

one_inside : locked_by_one.place 1 ≡ inside
unfolding mutex_trylock mutex_init
one_inside = refl

mutual_exclusion_example :
    (◌≡◌ {A = ℕ} 1 1) × (locked_by_one.mutex.locked ≡ true) × (locked_by_one.mutex.owner ≡ some 1)
mutual_exclusion_example =
    mutual_exclusion procs locked_by_one 1 1 (next here (try_once (start procs) 1 refl)) one_inside
      one_inside

lost_wakeup_example :
    (t : System) × Reach (start procs) t
    × (t.place 1 ≡ inside)
    × (t.place 0 ≡ parking)
    × (t.mutex.locked ≡ true)
    × Step t (release 1 t)
    × Step (release 1 t) (wake 1 (release 1 t))
    × Step (wake 1 (release 1 t)) (park 0 (wake 1 (release 1 t)))
    × Stranded 0 (park 0 (wake 1 (release 1 t)))
    × ((u : System)
        → Step (park 0 (wake 1 (release 1 t))) u
        → (u.place 0 ≡ parked) × (still_sleeping 0 u.procs ≡ true))
lost_wakeup_example = lost_wakeup procs 0 1 (omega arith) (omega arith)
