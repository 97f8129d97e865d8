-- ===== src/Pipe.antt =====
-- Pipes: kernel/fs/pipe.c. A pipe is a ring of 512 bytes with the counts of its open ends and two
-- wait queues. `Round` has the calls `pipe_read` and `pipe_write`, one pass of their loops at a time.
pub mod Ring
pub mod Round
use spike_os.Prelude.{
  ℕ, zero, suc, ◌+◌, ◌-◌, ◌%◌, Bool, true, false, ◌&&◌, List, [], ◌∷◌, ◌==◌, ltb, if◌then◌else◌,
  get_or, set, replicate,
}
use spike_os.Prelude.Int.{ℤ, pos, ◌-ℤ◌, ltb_ℤ}
use spike_os.Wait.{States, WaitQueue, wake_up_all}

-- PIPE_BUF_SIZE.
abbrev pub buf_size : ℕ
buf_size = 512

-- `pipe_t`. A byte is only moved, so it is any number.
pub record Pipe : Type 0 where
  pub buf : List ℕ
  pub read_pos : ℕ
  pub write_pos : ℕ
  pub count : ℕ
  pub readers : ℤ
  pub writers : ℤ
  pub read_wq : WaitQueue
  pub write_wq : WaitQueue
  pub active : Bool

-- A slot of the pool after `memset(&pipe_pool[i], 0, sizeof(pipe_t))`.
unfoldable pub zero_pipe : Pipe
zero_pipe = record {
  buf = replicate buf_size 0;
  read_pos = 0;
  write_pos = 0;
  count = 0;
  readers = pos 0;
  writers = pos 0;
  read_wq = [];
  write_wq = [];
  active = false;
}

-- A pipe, and the processes that it may wake or send to sleep.
pub record World : Type 0 where
  pub pipe : Pipe
  pub procs : States

-- `p->buf[p->write_pos] = b; write_pos = (write_pos + 1) % PIPE_BUF_SIZE; count++`.
pub put_byte : ℕ → Pipe → Pipe
put_byte b p = record p {
  buf = set p.buf p.write_pos b;
  write_pos = (p.write_pos + 1) % buf_size;
  count = p.count + 1;
}

-- `read_pos = (read_pos + 1) % PIPE_BUF_SIZE; count--`, behind the read of the byte.
pub drop_byte : Pipe → Pipe
drop_byte p = record p { read_pos = (p.read_pos + 1) % buf_size; count = p.count - 1 }

-- The copy loop of `pipe_read`: at most `n` bytes, while there are any.
pub drain : ℕ → Pipe → List ℕ × Pipe
unfolding drop_byte
drain zero p = ([], p)
drain (suc n) p =
    let rest = drain n (drop_byte p) in
    if p.count == 0 then ([], p) else (get_or p.buf p.read_pos 0 ∷ rest.0, rest.1)

-- The copy loop of `pipe_write`: the bytes that are left when the pipe is full or all are in.
pub fill : List ℕ → Pipe → List ℕ × Pipe
unfolding put_byte
fill [] p = ([], p)
fill (b ∷ bs) p =
    let rest = fill bs (put_byte b p) in if ltb p.count buf_size then rest else (b ∷ bs, p)

-- `z <= 0` for an `int`.
abbrev pub none_left : ℤ → Bool
none_left z = if ltb_ℤ (pos 0) z then false else true

unfoldable pub close_reader : World → World
close_reader w =
    let left = w.pipe.readers -ℤ pos 1 in
    let p = record w.pipe {
      readers = left;
      active = if none_left left && none_left w.pipe.writers then false else w.pipe.active;
    } in
    let (n, wq, ps) = wake_up_all p.write_wq w.procs in
    if none_left left
    then record { pipe = record p { write_wq = wq }; procs = ps }
    else record w { pipe = p }

unfoldable pub close_writer : World → World
close_writer w =
    let left = w.pipe.writers -ℤ pos 1 in
    let p = record w.pipe {
      writers = left;
      active = if none_left w.pipe.readers && none_left left then false else w.pipe.active;
    } in
    let (n, wq, ps) = wake_up_all p.read_wq w.procs in
    if none_left left
    then record { pipe = record p { read_wq = wq }; procs = ps }
    else record w { pipe = p }
