-- ===== src/Lock/RwLock/Safety.antt =====
-- Writers exclude readers and one another, and the counters count, at every point of every interleaving.
use spike_os.Prelude.{
  ℕ, ◌+◌, ◌≡◌, refl, Bool, true, arith, get_elem?, set, Bool-cases, inl, inr, List, some, ◌<◌,
  ℕ_discrete,
}
use spike_os.Prelude.Int.{pos, ◌+ℤ◌, ◌-ℤ◌}
use spike_os.Wait.{States}
use spike_os.Lock.RwLock.{
  rwlock_init, read_round, read_sleep, read_leave, wake_writer, write_announce, write_round,
  write_sleep, write_leave, wake_readers,
}
use spike_os.Lock.RwLock.System.{
  Place, outside, want_read, park_read, asleep_read, reading, wake_one, want_write, park_write,
  asleep_write, writing, wake_all, System, start, At, Step, Reach, here, next, call_read,
  round_read, sleep_read, resume_read, unlock_read, wake_a_writer, call_write, round_write,
  sleep_write, resume_write, unlock_write, wake_all_readers,
}
use spike_os.Lock.RwLock.Counting.{
  is_reading, is_writing, is_pending, one_if, count, count-set, count-replicate, count-pos,
  count-two,
}

-- The lock agrees with where the processes stand.
pub record Counted (s : System) : Type 0 where
  pub readers : s.lock.reader_count ≡ pos (count is_reading s.places)
  pub pending : s.lock.writer_pending ≡ pos (count is_pending s.places)
  pub writers : count is_writing s.places ≡ one_if s.lock.writer_active
  pub apart : s.lock.writer_active ≡ true → count is_reading s.places ≡ 0

-- How the three counts change when a process moves.
counts-set :
    (ps : List Place) (i : ℕ) (p q : Place)
    → get_elem? ps i ≡ some p
    → let moved = λ (kind : Place → Bool).
      count kind (set ps i q) + one_if (kind p) ≡ count kind ps + one_if (kind q) in
      moved is_reading × moved is_pending × moved is_writing
counts-set ps i p q at = (
  count-set is_reading ps i p q at,
  count-set is_pending ps i p q at,
  count-set is_writing ps i p q at,
)

Step-Counted : {s t : System} → Step s t → Counted s → Counted t
unfolding read_round read_sleep read_leave wake_writer write_announce write_round write_sleep
    write_leave wake_readers ◌+ℤ◌ ◌-ℤ◌
Step-Counted (call_read s i at) c = ground (arith, counts-set s.places i outside want_read at)
Step-Counted (round_read s i at) c = elim (Bool-cases (read_round s.lock).0) [
  | inl done ↦ rw done (ground (arith, counts-set s.places i want_read reading at))
  | inr other ↦ rw other (ground (arith, counts-set s.places i want_read park_read at))
]
Step-Counted (sleep_read s i at) c = ground (arith, counts-set s.places i park_read asleep_read at)
Step-Counted (resume_read s i at up) c =
    ground (arith, counts-set s.places i asleep_read want_read at)
Step-Counted (unlock_read s i at) c = elim (Bool-cases (read_leave s.lock).0) [
  | inl done ↦ rw done (
      ground (
        arith,
        counts-set s.places i reading wake_one at,
        count-pos is_reading s.places i reading at refl,
      ))
  | inr other ↦ rw other (
      ground (
        arith,
        counts-set s.places i reading outside at,
        count-pos is_reading s.places i reading at refl,
      ))
]
Step-Counted (wake_a_writer s i at) c = ground (arith, counts-set s.places i wake_one outside at)
Step-Counted (call_write s i at) c = ground (arith, counts-set s.places i outside want_write at)
Step-Counted (round_write s i at) c = elim (Bool-cases (write_round s.lock).0) [
  | inl done ↦ rw done (ground (arith, counts-set s.places i want_write writing at))
  | inr other ↦ rw other (ground (arith, counts-set s.places i want_write park_write at))
]
Step-Counted (sleep_write s i at) c =
    ground (arith, counts-set s.places i park_write asleep_write at)
Step-Counted (resume_write s i at up) c =
    ground (arith, counts-set s.places i asleep_write want_write at)
Step-Counted (unlock_write s i at) c = ground (arith, counts-set s.places i writing wake_all at)
Step-Counted (wake_all_readers s i at) c =
    ground (arith, counts-set s.places i wake_all wake_one at)

pub Reach-Counted : (n : ℕ) (ps : States) {t : System} → Reach (start n ps) t → Counted t
unfolding rwlock_init
Reach-Counted n ps here = ground (
  arith,
  count-replicate is_reading n refl,
  count-replicate is_pending n refl,
  count-replicate is_writing n refl,
)
Reach-Counted n ps (next r st) = Step-Counted st (Reach-Counted n ps r)

-- In every state that the system can reach, a process that writes is the only one that writes and
-- nobody reads.
pub writer_excludes :
    (n : ℕ) (ps : States) (t : System) (i j : ℕ)
    → Reach (start n ps) t
    → At t i writing
    → ¬ At t j reading × (At t j writing → i ≡ j)
writer_excludes n ps t i j r at = (no_reader, no_writer)
  where
    c : Counted t
    c = Reach-Counted n ps r

    busy : 0 < count is_writing t.places
    busy = count-pos is_writing t.places i writing at refl

    no_reader : ¬ At t j reading
    no_reader h = ground (arith, c, busy, count-pos is_reading t.places j reading h refl)

    no_writer : At t j writing → i ≡ j
    no_writer h = elim (ℕ_discrete i j) [
      | yes e ↦ e
      | no ne ↦
          absurd
            (ground (arith, c, count-two is_writing t.places i j writing writing at h refl refl ne))
    ]
