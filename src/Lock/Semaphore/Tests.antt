-- ===== src/Lock/Semaphore/Tests.antt =====
-- The semaphore at a concrete sequence of operations.
use spike_os.Prelude.{ℕ, ◌+◌, ◌≡◌, refl, List, [], ◌∷◌, arith}
use spike_os.Prelude.Int.{pos, ◌+ℤ◌, ◌-ℤ◌}
use spike_os.Wait.{States, running, ready, sleep_on, wake_up_one}
use spike_os.Lock.Semaphore.{
  SemOp, wait_round, post, go_to_sleep, run, posts, succ_int, run_balance, sem_trywait, sem_post,
  sem_sleep,
}

abbrev script : List SemOp
script = wait_round ∷ wait_round ∷ go_to_sleep 1 ∷ post ∷ wait_round ∷ post ∷ []

abbrev procs : States
procs = running ∷ ready ∷ []

run-script :
    run script (record { count = pos 1; wq = [] }) procs ≡ (2, 2, record { count = pos 1; wq = [] })
unfolding run sem_trywait sem_post sem_sleep sleep_on wake_up_one succ_int ◌+ℤ◌ ◌-ℤ◌
run-script = refl

run_balance_example :
    let (taken, posted, s) = run script (record { count = pos 1; wq = [] }) procs in
    (left : ℕ) × (s.count ≡ pos left) × (left + taken ≡ 1 + posted) × (posted ≡ posts script)
run_balance_example = run_balance script 1 [] procs (omega arith)
