-- ===== src/Lock/Semaphore.antt =====
-- The counting semaphore of kernel/proc/mutex.c. Its counter is an `int` of 32 bits, which wraps.
mod Tests
use spike_os.Prelude.{
  ℕ, zero, suc, ◌+◌, ◌≤◌, ◌≡◌, refl, Bool, true, false, Option, none, some, List, [], ◌∷◌, arith,
  if◌then◌else◌, ◌-◌, ◌^◌, ◌<◌, ◌==◌, ◌∙◌, sym, ap,
}
use spike_os.Prelude.Int.{ℤ, pos, negsuc, ◌+ℤ◌, ◌-ℤ◌, ◌≤ℤ◌, ltb_ℤ, +ℤ_parts, -ℤ_parts, eq_of_parts}
use spike_os.Wait.{States, WaitQueue, wake_up_one, sleep_on}

pub record Semaphore : Type 0 where
  pub count : ℤ
  pub wq : WaitQueue

pub sem_init : ℤ → Semaphore
sem_init initial_count = record { count = initial_count; wq = [] }

-- `count++` on an `int`.
pub succ_int : ℤ → ℤ
succ_int (pos n) = if n + 1 == 2 ^ 31 then negsuc (2 ^ 31 - 1) else pos (n + 1)
succ_int (negsuc zero) = pos 0
succ_int (negsuc (suc n)) = negsuc n

-- `sem_trywait`, and one round of the loop of `sem_wait` up to its return or its sleep. The count
-- is positive where it is taken from.
pub sem_trywait : Semaphore → Bool × Semaphore
sem_trywait s =
    if ltb_ℤ (pos 0) s.count then (true, record s { count = s.count -ℤ pos 1 }) else (false, s)

-- `sleep_on(&s->wq)` in the loop of `sem_wait`.
pub sem_sleep : ℕ → Semaphore → States → Semaphore × States
sem_sleep me s ps = let (wq', ps') = sleep_on (some me) s.wq ps in (record s { wq = wq' }, ps')

pub sem_post : Semaphore → States → Semaphore × States
unfolding succ_int
sem_post s ps =
    let (n, wq', ps') = wake_up_one s.wq ps in (record { count = succ_int s.count; wq = wq' }, ps')

-- What processes do with one semaphore, in the order in which it happens.
pub data SemOp : Type 0 where
  wait_round post : SemOp
  go_to_sleep : ℕ → SemOp

-- The successful waits, the posts, and the semaphore after a sequence of operations.
pub run : List SemOp → Semaphore → States → ℕ × ℕ × Semaphore
run [] s ps = (0, 0, s)
run (wait_round ∷ ops) s ps =
    let (got, s') = sem_trywait s in
    let (taken, posted, s'') = run ops s' ps in ((if got then suc taken else taken), posted, s'')
run (post ∷ ops) s ps =
    let (s', ps') = sem_post s ps in
    let (taken, posted, s'') = run ops s' ps' in (taken, suc posted, s'')
run (go_to_sleep me ∷ ops) s ps = let (s', ps') = sem_sleep me s ps in run ops s' ps'

-- How often a sequence of operations posts.
abbrev pub posts : List SemOp → ℕ
posts [] = 0
posts (wait_round ∷ ops) = posts ops
posts (post ∷ ops) = suc (posts ops)
posts (go_to_sleep me ∷ ops) = posts ops

sem_trywait-taken :
    (c : ℕ) (wq : WaitQueue)
    → sem_trywait (record { count = pos (suc c); wq = wq })
      ≡ (true, record { count = pos c; wq = wq })
unfolding sem_trywait ◌-ℤ◌
sem_trywait-taken c wq = ground arith

sem_trywait-empty :
    (wq : WaitQueue)
    → sem_trywait (record { count = pos 0; wq = wq }) ≡ (false, record { count = pos 0; wq = wq })
unfolding sem_trywait
sem_trywait-empty wq = refl

succ_int-pos : (c : ℕ) → c + 1 < 2 ^ 31 → succ_int (pos c) ≡ pos (suc c)
unfolding succ_int
succ_int-pos c h =
    let below : (c + 1 == 2 ^ 31) ≡ false = ground arith in rw below (ap pos (omega arith))

-- From a count that is not negative, and that with all the posts stays below 2^31, the count plus the
-- successful waits is the first count plus the posts, whatever the order of operations, and the count is
-- never negative.
pub run_balance :
    (ops : List SemOp) (c : ℕ) (wq : WaitQueue) (ps : States)
    → c + posts ops < 2 ^ 31
    → let (taken, posted, s') = run ops (record { count = pos c; wq = wq }) ps in
      (left : ℕ) × (s'.count ≡ pos left) × (left + taken ≡ c + posted) × (posted ≡ posts ops)
unfolding run sem_post sem_sleep
run_balance [] c wq ps h = (c, refl, refl, refl)
run_balance (wait_round ∷ ops) zero wq ps h = rw (sem_trywait-empty wq) (run_balance ops 0 wq ps h)
run_balance (wait_round ∷ ops) (suc c) wq ps h =
    let (left, count, sum, number) = run_balance ops c wq ps (omega arith) in
    rw (sem_trywait-taken c wq) (left, count, omega arith, number)
run_balance (post ∷ ops) c wq ps h =
    let (left, count, sum, number) =
      run_balance ops (suc c) (wake_up_one wq ps).1 (wake_up_one wq ps).2 (omega arith) in
    rw (succ_int-pos c (omega arith)) (left, count, omega arith, ap suc number)
run_balance (go_to_sleep me ∷ ops) c wq ps h =
    run_balance ops c (sleep_on (some me) wq ps).0 (sleep_on (some me) wq ps).1 h
