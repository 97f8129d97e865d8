-- ===== src/Lock/RwLock.antt =====
-- The readers-writer lock of kernel/proc/rwlock.c. Its `int` counters are unbounded integers.
pub mod System
pub mod Counting
pub mod Safety
mod Tests
use spike_os.Prelude.{ℕ, Bool, true, false, not, ◌&&◌, some, [], if◌then◌else◌, leb}
use spike_os.Prelude.Int.{ℤ, pos, ◌+ℤ◌, ◌-ℤ◌}
use spike_os.Wait.{States, WaitQueue, wake_up_one, wake_up_all, sleep_on}

pub record RwLock : Type 0 where
  pub reader_count : ℤ
  pub writer_active : Bool
  pub writer_pending : ℤ
  pub read_wq : WaitQueue
  pub write_wq : WaitQueue

abbrev pub is_zero : ℤ → Bool
is_zero z = elim z [ pos n ↦ leb n 0 | _ ↦ false ]

pub rwlock_init : RwLock
rwlock_init = record {
  reader_count = pos 0;
  writer_active = false;
  writer_pending = pos 0;
  read_wq = [];
  write_wq = [];
}

-- One round of the loop of `rwlock_read_lock`: true where the caller reads.
pub read_round : RwLock → Bool × RwLock
read_round rw =
    if not rw.writer_active && is_zero rw.writer_pending
    then (true, record rw { reader_count = rw.reader_count +ℤ pos 1 })
    else (false, rw)

pub read_sleep : ℕ → RwLock → States → RwLock × States
read_sleep me rw ps =
    let (wq', ps') = sleep_on (some me) rw.read_wq ps in (record rw { read_wq = wq' }, ps')

-- The part of `rwlock_read_unlock` with interrupts off. It returns `readers_left == 0`.
pub read_leave : RwLock → Bool × RwLock
read_leave rw =
    let left = rw.reader_count -ℤ pos 1 in (is_zero left, record rw { reader_count = left })

-- `wake_up_one(&rw->write_wq)`.
pub wake_writer : RwLock → States → RwLock × States
wake_writer rw ps =
    let (n, wq', ps') = wake_up_one rw.write_wq ps in (record rw { write_wq = wq' }, ps')

-- The first part of `rwlock_write_lock`.
pub write_announce : RwLock → RwLock
write_announce rw = record rw { writer_pending = rw.writer_pending +ℤ pos 1 }

-- One round of its loop: true where the caller writes.
pub write_round : RwLock → Bool × RwLock
write_round rw =
    if not rw.writer_active && is_zero rw.reader_count
    then (true, record rw { writer_active = true; writer_pending = rw.writer_pending -ℤ pos 1 })
    else (false, rw)

pub write_sleep : ℕ → RwLock → States → RwLock × States
write_sleep me rw ps =
    let (wq', ps') = sleep_on (some me) rw.write_wq ps in (record rw { write_wq = wq' }, ps')

-- `rwlock_write_unlock`: the part with interrupts off, then the two wake-ups.
pub write_leave : RwLock → RwLock
write_leave rw = record rw { writer_active = false }

-- `wake_up_all(&rw->read_wq)`.
pub wake_readers : RwLock → States → RwLock × States
wake_readers rw ps =
    let (n, wq', ps') = wake_up_all rw.read_wq ps in (record rw { read_wq = wq' }, ps')
