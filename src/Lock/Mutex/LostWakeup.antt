-- ===== src/Lock/Mutex/LostWakeup.antt =====
-- A schedule after which a process sleeps on a free mutex that nobody is about to release: `mutex_lock`
-- lets interrupts in between its test and `sleep_on`, and the unlock may fall in between.
use spike_os.Prelude.{
  ℕ, ◌<◌, ◌≡◌, ◌≢◌, refl, true, false, arith, length, get_or-set, ℕ_discrete, ◌⊎◌, inl, inr, ◌∙◌,
  ap,
}
use spike_os.Wait.{States, blocked, zombie, sleep_on, wake_up_one, still_sleeping}
use spike_os.Lock.Mutex.{mutex_init, mutex_trylock, mutex_release, mutex_wake, mutex_sleep}
use spike_os.Lock.Mutex.System.{
  outside, inside, trying, parking, parked, System, Step, resume, Reach, start, move, attempt, park,
  release, wake, call_lock, lock_round, try_once, sleep, unlock, unlock_wake, here, next,
}

-- The mutex is free, `i` sleeps in `mutex_lock`, and nobody else is anywhere in mutex.c.
pub record Stranded (i : ℕ) (t : System) : Type 0 where
  pub free : t.mutex.locked ≡ false
  pub waits : t.place i ≡ parked
  pub asleep : still_sleeping i t.procs ≡ true
  pub alone : (k : ℕ) → k ≢ i → t.place k ≡ outside

whereabouts :
    (i : ℕ) (t : System) (k : ℕ)
    → Stranded i t
    → (t.place k ≡ outside) ⊎ ((k ≡ i) × (t.place k ≡ parked))
whereabouts i t k a = elim (ℕ_discrete k i) [
  | yes same ↦ inr (same, ap t.place same ∙ a.waits)
  | no other ↦ inl (a.alone k other)
]

sleeps_on :
    (i : ℕ) (t u : System)
    → Stranded i t
    → Step t u
    → (u.place i ≡ parked) × (still_sleeping i u.procs ≡ true)
sleeps_on i _ _ a (call_lock t k e) = (ground (arith, a.waits, e), a.asleep)
sleeps_on i _ _ a (try_once t k e) = (ground (arith, a.waits, e), a.asleep)
sleeps_on i _ _ a (lock_round t k e) = elim (whereabouts i t k a) [
  | inl o ↦ absurd (ground (arith, o, e))
  | inr (same, o) ↦ absurd (ground (arith, o, e))
]
sleeps_on i _ _ a (sleep t k e) = elim (whereabouts i t k a) [
  | inl o ↦ absurd (ground (arith, o, e))
  | inr (same, o) ↦ absurd (ground (arith, o, e))
]
sleeps_on i _ _ a (unlock t k e) = elim (whereabouts i t k a) [
  | inl o ↦ absurd (ground (arith, o, e))
  | inr (same, o) ↦ absurd (ground (arith, o, e))
]
sleeps_on i _ _ a (unlock_wake t k e) = elim (whereabouts i t k a) [
  | inl o ↦ absurd (ground (arith, o, e))
  | inr (same, o) ↦ absurd (ground (arith, o, e))
]
sleeps_on i _ _ a (resume t k e awake) = elim (whereabouts i t k a) [
  | inl o ↦ absurd (ground (arith, o, e))
  | inr (same, o) ↦
      absurd (ground (arith, a.asleep, awake, ap (λ x. still_sleeping x t.procs) same))
]

module _ (ps : States) (i j : ℕ) (ne : i ≢ j) (lt : i < length ps) where
  s1 : System
  s1 = attempt j outside (start ps)

  s2 : System
  s2 = move i trying s1

  s3 : System
  s3 = attempt i parking s2

  s4 : System
  s4 = release j s3

  s5 : System
  s5 = wake j s4

  -- For any two processes there is such a schedule: the mutex reaches a state in which `j` holds it and
  -- `i` has failed its test but not yet gone to sleep; from there `j` releases the mutex and runs its
  -- `wake_up_one`, and only then `i` runs its `sleep_on`. Afterwards the mutex is free, `i` is asleep in
  -- `mutex_lock`, and nobody else is in mutex.c; and `i` sleeps on whatever step comes next.
  pub lost_wakeup :
      (t : System) × Reach (start ps) t
      × (t.place j ≡ inside)
      × (t.place i ≡ parking)
      × (t.mutex.locked ≡ true)
      × Step t (release j t)
      × Step (release j t) (wake j (release j t))
      × Step (wake j (release j t)) (park i (wake j (release j t)))
      × Stranded i (park i (wake j (release j t)))
      × ((u : System)
          → Step (park i (wake j (release j t))) u
          → (u.place i ≡ parked) × (still_sleeping i u.procs ≡ true))
  unfolding s1 s2 s3 s4 s5 mutex_init mutex_trylock mutex_release mutex_wake mutex_sleep sleep_on
      wake_up_one still_sleeping
  lost_wakeup =
      let stranded : Stranded i (park i s5) = record {
        free = ground arith;
        waits = ground arith;
        asleep = ground (arith, get_or-set ps i i blocked zombie);
        alone = λ k other. ground arith;
      } in
      (
        s3,
        next (next (next here (try_once (start ps) j refl)) (call_lock s1 i (ground arith)))
            (lock_round s2 i (ground arith)),
        ground arith,
        ground arith,
        refl,
        unlock s3 j (ground arith),
        unlock_wake s4 j (ground arith),
        sleep s5 i (ground arith),
        stranded,
        λ u step. sleeps_on i (park i s5) u stranded step,
      )
