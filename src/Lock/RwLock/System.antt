-- ===== src/Lock/RwLock/System.antt =====
-- Processes that use one readers-writer lock, interleaved: a step is a stretch of rwlock.c that runs with
-- interrupts off.
use spike_os.Prelude.{ℕ, ◌≡◌, false, some, List, if◌then◌else◌, get_elem?, set, replicate}
use spike_os.Wait.{States, still_sleeping}
use spike_os.Lock.RwLock.{
  RwLock, rwlock_init, read_round, read_sleep, read_leave, wake_writer, write_announce, write_round,
  write_sleep, write_leave, wake_readers,
}

-- Outside; at the head of the loop of `rwlock_read_lock`, behind its failed test, asleep; reading; about to
-- wake a writer; the same for a writer, who after its unlock wakes the readers and then a writer.
pub data Place : Type 0 where
  outside want_read park_read asleep_read reading wake_one : Place
  want_write park_write asleep_write writing wake_all : Place

pub record System : Type 0 where
  pub lock : RwLock
  pub procs : States
  pub places : List Place

abbrev pub start : ℕ → States → System
start n ps = record { lock = rwlock_init; procs = ps; places = replicate n outside }

abbrev pub At : System → ℕ → Place → Type 0
At s i p = get_elem? s.places i ≡ some p

-- What a step leaves: the lock with the states of the processes, and the place of `i`.
abbrev pub go : System → ℕ → Place → RwLock → System
go s i p rw = record s { lock = rw; places = set s.places i p }

abbrev pub go_with : System → ℕ → Place → RwLock × States → System
go_with s i p (rw, ps) = record { lock = rw; procs = ps; places = set s.places i p }

pub data Step : System → System → Type 0 where
  call_read : (s : System) (i : ℕ) → At s i outside → Step s (go s i want_read s.lock)
  round_read :
      (s : System) (i : ℕ)
      → At s i want_read
      → Step s (go s i (if (read_round s.lock).0 then reading else park_read) (read_round s.lock).1)
  sleep_read :
      (s : System) (i : ℕ)
      → At s i park_read
      → Step s (go_with s i asleep_read (read_sleep i s.lock s.procs))
  resume_read :
      (s : System) (i : ℕ)
      → At s i asleep_read
      → still_sleeping i s.procs ≡ false
      → Step s (go s i want_read s.lock)
  unlock_read :
      (s : System) (i : ℕ)
      → At s i reading
      → Step s (go s i (if (read_leave s.lock).0 then wake_one else outside) (read_leave s.lock).1)
  wake_a_writer :
      (s : System) (i : ℕ)
      → At s i wake_one
      → Step s (go_with s i outside (wake_writer s.lock s.procs))
  call_write :
      (s : System) (i : ℕ) → At s i outside → Step s (go s i want_write (write_announce s.lock))
  round_write :
      (s : System) (i : ℕ)
      → At s i want_write
      → Step s
          (go s i (if (write_round s.lock).0 then writing else park_write) (write_round s.lock).1)
  sleep_write :
      (s : System) (i : ℕ)
      → At s i park_write
      → Step s (go_with s i asleep_write (write_sleep i s.lock s.procs))
  resume_write :
      (s : System) (i : ℕ)
      → At s i asleep_write
      → still_sleeping i s.procs ≡ false
      → Step s (go s i want_write s.lock)
  unlock_write :
      (s : System) (i : ℕ) → At s i writing → Step s (go s i wake_all (write_leave s.lock))
  wake_all_readers :
      (s : System) (i : ℕ)
      → At s i wake_all
      → Step s (go_with s i wake_one (wake_readers s.lock s.procs))

pub data Reach (s : System) : System → Type 0 where
  here : Reach s s
  next : {t u : System} → Reach s t → Step t u → Reach s u
