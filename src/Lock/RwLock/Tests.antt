-- ===== src/Lock/RwLock/Tests.antt =====
-- The readers-writer lock with one writer among two processes.
use spike_os.Prelude.{ℕ, ◌≡◌, refl, [], ◌∷◌}
use spike_os.Prelude.Int.{◌+ℤ◌, ◌-ℤ◌}
use spike_os.Wait.{States, running, ready}
use spike_os.Lock.RwLock.{rwlock_init, write_announce, write_round}
use spike_os.Lock.RwLock.System.{
  System, Reach, start, go, At, want_write, writing, reading, call_write, round_write, here, next,
}
use spike_os.Lock.RwLock.Safety.{writer_excludes}

abbrev procs : States
procs = running ∷ ready ∷ []

abbrev announced : System
announced = go (start 2 procs) 0 want_write (write_announce rwlock_init)

abbrev held : System
held = go announced 0 writing (write_round announced.lock).1

writer_holds : Reach (start 2 procs) held
unfolding rwlock_init write_announce write_round ◌+ℤ◌ ◌-ℤ◌
writer_holds = next (next here (call_write (start 2 procs) 0 refl)) (round_write announced 0 refl)

writer_excludes_example : ¬ At held 1 reading × (At held 1 writing → ◌≡◌ {A = ℕ} 0 1)
writer_excludes_example = writer_excludes 2 procs held 0 1 writer_holds refl
