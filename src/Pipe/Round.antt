-- ===== src/Pipe/Round.antt =====
-- One pass of the outer loops of `pipe_read` and `pipe_write`, from one test of `total < count` to the
-- next, and the calls as such passes with whatever the other processes do in between.
pub mod Fifo
pub mod Calls
pub mod Write
mod Tests
use spike_os.Prelude.{
  ℕ, ◌+◌, ◌-◌, Bool, true, false, Option, none, some, List, [], ◌∷◌, ◌++◌, ◌==◌, ltb, if◌then◌else◌,
  length,
}
use spike_os.Wait.{States, WaitQueue, sleep_on, wake_up_all}
use spike_os.Pipe.{Pipe, World, buf_size, drain, fill, none_left, close_reader, close_writer}

-- The loop is over, or goes on; then these bytes were copied.
pub data Progress : Type 0 where
  done : Progress
  again : List ℕ → Progress

-- `sleep_on(&p->read_wq)`.
read_sleep : ℕ → World → World
read_sleep me w =
    let (wq, ps) = sleep_on (some me) w.pipe.read_wq w.procs in
    record { pipe = record w.pipe { read_wq = wq }; procs = ps }

-- The copy, and `wake_up_all(&p->write_wq)`.
read_copy : ℕ → World → List ℕ × World
read_copy n w =
    let (out, p) = drain n w.pipe in
    let (k, wq, ps) = wake_up_all p.write_wq w.procs in
    (out, record { pipe = record p { write_wq = wq }; procs = ps })

-- `me` reads, and `n` bytes are still wanted. The source tests `count` and `writers` one after the other
-- with interrupts on, and only its copy runs with interrupts off; here the tests are one step with what
-- follows them. A wake-up that comes between the test and `sleep_on`, and a byte that another reader
-- takes between two tests, are therefore not in the model.
pub read_round : (me n : ℕ) → World → Progress × World
unfolding read_sleep read_copy
read_round me n w =
    if n == 0
    then (done, w)
    else if w.pipe.count == 0
    then if none_left w.pipe.writers then (done, w) else (again [], read_sleep me w)
    else (again (read_copy n w).0, (read_copy n w).1)

-- The writer's loop is over, or stops with SIGPIPE, or goes on with these bytes left.
pub data Writing : Type 0 where
  written : Writing
  broken : Writing
  more : List ℕ → Writing

-- `sleep_on(&p->write_wq)`.
write_sleep : ℕ → World → World
write_sleep me w =
    let (wq, ps) = sleep_on (some me) w.pipe.write_wq w.procs in
    record { pipe = record w.pipe { write_wq = wq }; procs = ps }

-- The copy, and `wake_up_all(&p->read_wq)`.
write_copy : List ℕ → World → List ℕ × World
write_copy bs w =
    let (rest, p) = fill bs w.pipe in
    let (k, wq, ps) = wake_up_all p.read_wq w.procs in
    (rest, record { pipe = record p { read_wq = wq }; procs = ps })

-- `me` writes, and these bytes are left.
pub write_round : ℕ → List ℕ → World → Writing × World
unfolding write_sleep write_copy
write_round me [] w = (written, w)
write_round me (b ∷ bs) w =
    if none_left w.pipe.readers
    then (broken, w)
    else if ltb w.pipe.count buf_size
    then (more (write_copy (b ∷ bs) w).0, (write_copy (b ∷ bs) w).1)
    else (more (b ∷ bs), write_sleep me w)

-- What the other processes do: passes of their own reads and writes, and closes.
pub data Event : Type 0 where
  reads : (me n : ℕ) → Event
  writes : (me : ℕ) (bs : List ℕ) → Event
  closes_reader closes_writer : Event

pub act : Event → World → World
unfolding read_round write_round close_reader close_writer
act (reads me n) w = (read_round me n w).1
act (writes me bs) w = (write_round me bs w).1
act closes_reader w = close_reader w
act closes_writer w = close_writer w

pub others : List Event → World → World
unfolding act
others [] w = w
others (e ∷ es) w = others es (act e w)

prepend : List ℕ → Option (List ℕ × World) → Option (List ℕ × World)
prepend out none = none
prepend out (some (bs, w)) = some (out ++ bs, w)

-- `pipe_read`: the bytes it returns, and `none` while it has not returned at the end of the schedule,
-- which holds what the others do after each pass.
pub pipe_read : (me : ℕ) → List (List Event) → ℕ → World → Option (List ℕ × World)
unfolding read_round others prepend
pipe_read me [] n w = none
pipe_read me (es ∷ schedule) n w =
    let (p, w') = read_round me n w in
    elim p [
      | done ↦ some ([], w')
      | again out ↦ prepend out (pipe_read me schedule (n - length out) (others es w'))
    ]

-- What `pipe_write` returns: the bytes written, and whether it raised SIGPIPE. `none` is -1.
pub record Wrote : Type 0 where
  pub value : Option ℕ
  pub sigpipe : Bool

-- `total > 0 ? total : -1`.
abbrev pub partial : ℕ → Option ℕ
partial total = if total == 0 then none else some total

-- `pipe_write` of `bs`, behind `total` bytes that are already in.
pub pipe_write_from : (me : ℕ) → List (List Event) → List ℕ → ℕ → World → Option (Wrote × World)
unfolding write_round others
pipe_write_from me [] bs total w = none
pipe_write_from me (es ∷ schedule) bs total w =
    let (p, w') = write_round me bs w in
    elim p [
      | written ↦ some (record { value = some total; sigpipe = false }, w')
      | broken ↦ some (record { value = partial total; sigpipe = true }, w')
      | more rest ↦
          pipe_write_from me schedule rest (total + (length bs - length rest)) (others es w')
    ]

pub pipe_write : (me : ℕ) → List (List Event) → List ℕ → World → Option (Wrote × World)
unfolding pipe_write_from
pipe_write me schedule bs w = pipe_write_from me schedule bs 0 w
