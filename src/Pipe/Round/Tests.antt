-- ===== src/Pipe/Round/Tests.antt =====
-- Pipes at concrete contents, one of them stored round the end of the buffer.
use spike_os.Prelude.{
  ℕ, ◌<◌, ◌≡◌, refl, ◌⊎◌, inr, true, false, some, List, [], ◌∷◌, ◌++◌, arith, replicate, take, drop,
}
use spike_os.Prelude.Int.{pos}
use spike_os.Wait.{running, blocked, sleep_on, wake_up_all}
use spike_os.Pipe.{none_left, Pipe, World, zero_pipe, drop_byte, drain, fill}
use spike_os.Pipe.Ring.{contents, IsValid}
use spike_os.Pipe.Round.{
  Event, reads, writes, closes_writer, others, pipe_read, pipe_write, read_round, write_round,
}
use spike_os.Pipe.Round.Fifo.{all_received, all_sent, others_fifo}
use spike_os.Pipe.Round.Calls.{only_reader, pipe_read_complete, pipe_read_available}
use spike_os.Pipe.Round.Write.{pipe_write_room}

-- Seven bytes wait, the first two at the end of the buffer.
abbrev buffer : List ℕ
buffer = 3 ∷ 4 ∷ 5 ∷ 6 ∷ 7 ∷ replicate 505 0 ++ 1 ∷ 2 ∷ []

abbrev wrapped : Pipe
unfolding zero_pipe
wrapped = record zero_pipe {
  buf = buffer;
  read_pos = 510;
  write_pos = 5;
  count = 7;
  readers = pos 1;
  writers = pos 1;
  active = true;
}

abbrev world : World
world = record { pipe = wrapped; procs = running ∷ blocked ∷ [] }

abbrev ended : World
ended = record world { pipe = record wrapped { writers = pos 0 } }

contents-wrapped : contents wrapped ≡ 1 ∷ 2 ∷ 3 ∷ 4 ∷ 5 ∷ 6 ∷ 7 ∷ []
unfolding zero_pipe
contents-wrapped = refl

wrapped-IsValid : IsValid wrapped
unfolding zero_pipe
wrapped-IsValid = record {
  room = refl;
  reads_at = omega arith;
  fits = omega arith;
  writes_at = refl;
}

ended-IsValid : IsValid ended.pipe
unfolding zero_pipe
ended-IsValid = record { room = refl; reads_at = omega arith; fits = omega arith; writes_at = refl }

drain_three : (drain 3 wrapped).0 ≡ 1 ∷ 2 ∷ 3 ∷ []
unfolding drain drop_byte zero_pipe
drain_three = refl

abbrev script : List Event
script = reads 0 3 ∷ writes 1 (8 ∷ 9 ∷ []) ∷ reads 0 5 ∷ closes_writer ∷ []

script_received : all_received script world ≡ 1 ∷ 2 ∷ 3 ∷ 4 ∷ 5 ∷ 6 ∷ 7 ∷ 8 ∷ []
unfolding others read_round write_round zero_pipe drain fill sleep_on wake_up_all
script_received = refl

others_fifo_example :
    IsValid (others script world).pipe
    × (all_received script world ++ contents (others script world).pipe
        ≡ contents wrapped ++ all_sent script world)
others_fifo_example = others_fifo script world wrapped-IsValid

pipe_read_available_example :
    (w' : World) × (pipe_read 0 ([] ∷ [] ∷ []) 9 ended ≡ some (take 9 (contents ended.pipe), w'))
    × (contents w'.pipe ≡ drop 9 (contents ended.pipe))
    × IsValid w'.pipe
unfolding zero_pipe
pipe_read_available_example = pipe_read_available 0 9 [] ended ended-IsValid (inr refl)

pipe_write_room_example :
    (w' : World) × (pipe_write 0 ([] ∷ [] ∷ []) (8 ∷ 9 ∷ []) world
      ≡ some (record { value = some 2; sigpipe = false }, w'))
    × (contents w'.pipe ≡ contents wrapped ++ 8 ∷ 9 ∷ [])
    × IsValid w'.pipe
unfolding zero_pipe
pipe_write_room_example = pipe_write_room 0 [] (8 ∷ 9 ∷ []) world wrapped-IsValid refl (omega arith)

-- What is left of `ended` after a read of nine bytes, which returns the seven that there are.
abbrev drained : World
unfolding drain drop_byte wake_up_all zero_pipe
drained = record ended { pipe = (drain 9 ended.pipe).1 }

short_read : pipe_read 0 ([] ∷ [] ∷ []) 9 ended ≡ some (1 ∷ 2 ∷ 3 ∷ 4 ∷ 5 ∷ 6 ∷ 7 ∷ [], drained)
unfolding pipe_read drain drop_byte wake_up_all zero_pipe
short_read = refl

pipe_read_complete_example :
    (◌≡◌ {A = ℕ} 7 9)
    ⊎ ((7 < 9)
        × (none_left drained.pipe.writers ≡ true)
        × ((drained.pipe.count ≡ 0) ⊎ (only_reader ([] ∷ [] ∷ []) ≡ false)))
pipe_read_complete_example = pipe_read_complete 0 ([] ∷ [] ∷ []) 9 ended ended-IsValid short_read

-- A pipe with no reader takes nothing.
abbrev unread : World
unread = record world { pipe = record wrapped { readers = pos 0 } }
