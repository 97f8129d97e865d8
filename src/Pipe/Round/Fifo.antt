-- ===== src/Pipe/Round/Fifo.antt =====
-- Any interleaving of reads, writes and closes on a pipe loses, repeats and reorders no byte.
use spike_os.Prelude.{
  ℕ, ◌-◌, ◌≡◌, ap, ◌∙◌, sym, List, [], ◌∷◌, ◌++◌, arith, ◌==◌, ltb, length, take, Bool-cases, inl,
  inr,
}
use mathlib.Core.List.{append-nil, append_assoc}
use spike_os.Wait.{sleep_on}
use spike_os.Pipe.{World, buf_size, none_left, close_reader, close_writer}
use spike_os.Pipe.Ring.{
  contents, IsValid, close_reader-same, close_writer-same, drain-Drained, fill-Filled,
}
use spike_os.Pipe.Round.{
  Progress, done, again, Writing, written, broken, more, read_round, read_copy, read_sleep,
  write_round, write_copy, write_sleep, Event, reads, writes, closes_reader, closes_writer, act,
  others,
}

-- The bytes that a pass of a reader returns.
abbrev pub copied : Progress → List ℕ
copied done = []
copied (again bs) = bs

-- The bytes of `bs` that a pass of a writer put in.
abbrev pub accepted : List ℕ → Writing → List ℕ
accepted bs written = []
accepted bs broken = []
accepted bs (more rest) = take (length bs - length rest) bs

-- What an event takes out of the pipe and what it puts in.
abbrev pub received : Event → World → List ℕ
received (reads me n) w = copied (read_round me n w).0
received (writes me bs) w = []
received closes_reader w = []
received closes_writer w = []

abbrev pub sent : Event → World → List ℕ
sent (reads me n) w = []
sent (writes me bs) w = accepted bs (write_round me bs w).0
sent closes_reader w = []
sent closes_writer w = []

-- What an event does to the queue that the pipe stands for.
pub record Moved (w w' : World) (out ins : List ℕ) : Type 0 where
  pub valid : IsValid w'.pipe
  pub bytes : out ++ contents w'.pipe ≡ contents w.pipe ++ ins

read_sleep-Moved : (me : ℕ) (w : World) → IsValid w.pipe → Moved w (read_sleep me w) [] []
unfolding read_sleep sleep_on
read_sleep-Moved me w v = record { valid = omega (arith, v); bytes = sym (append-nil _) }

read_copy-Moved :
    (n : ℕ) (w : World) → IsValid w.pipe → Moved w (read_copy n w).1 (read_copy n w).0 []
unfolding read_copy
read_copy-Moved n w v =
    let d = drain-Drained n w.pipe v in
    record { valid = omega (arith, d.valid); bytes = d.bytes ∙ sym (append-nil _) }

write_sleep-Moved : (me : ℕ) (w : World) → IsValid w.pipe → Moved w (write_sleep me w) [] []
unfolding write_sleep sleep_on
write_sleep-Moved me w v = record { valid = omega (arith, v); bytes = sym (append-nil _) }

write_copy-Moved :
    (bs : List ℕ) (w : World)
    → IsValid w.pipe
    → Moved w (write_copy bs w).1 [] (take (length bs - length (write_copy bs w).0) bs)
unfolding write_copy
write_copy-Moved bs w v =
    let f = fill-Filled bs w.pipe v in record { valid = omega (arith, f.valid); bytes = f.added }

pub read_round-Moved :
    (me n : ℕ) (w : World)
    → IsValid w.pipe
    → Moved w (read_round me n w).1 (copied (read_round me n w).0) []
unfolding read_round
read_round-Moved me n w v = elim (Bool-cases (n == 0)) [
  | inl none_wanted ↦ rw none_wanted (record { valid = v; bytes = sym (append-nil _) })
  | inr wanted ↦ rw wanted (elim (Bool-cases (w.pipe.count == 0)) [
    | inl empty ↦ rw empty (elim (Bool-cases (none_left w.pipe.writers)) [
      | inl eof ↦ rw eof (record { valid = v; bytes = sym (append-nil _) })
      | inr writers ↦ rw writers (read_sleep-Moved me w v)
    ])
    | inr some_left ↦ rw some_left (read_copy-Moved n w v)
  ])
]

pub write_round-Moved :
    (me : ℕ) (bs : List ℕ) (w : World)
    → IsValid w.pipe
    → Moved w (write_round me bs w).1 [] (accepted bs (write_round me bs w).0)
unfolding write_round
write_round-Moved me [] w v = record { valid = v; bytes = sym (append-nil _) }
write_round-Moved me (b ∷ bs) w v = elim (Bool-cases (none_left w.pipe.readers)) [
  | inl nobody ↦ rw nobody (record { valid = v; bytes = sym (append-nil _) })
  | inr readers ↦ rw readers (elim (Bool-cases (ltb w.pipe.count buf_size)) [
    | inl space ↦ rw space (write_copy-Moved (b ∷ bs) w v)
    | inr full ↦
        let nothing : length (b ∷ bs) - length (b ∷ bs) ≡ 0 = omega arith in
        rw (full, nothing) (write_sleep-Moved me w v)
  ])
]

close_reader-Moved : (w : World) → IsValid w.pipe → Moved w (close_reader w) [] []
close_reader-Moved w v =
    let (v', e) = close_reader-same w v in record { valid = v'; bytes = e ∙ sym (append-nil _) }

close_writer-Moved : (w : World) → IsValid w.pipe → Moved w (close_writer w) [] []
close_writer-Moved w v =
    let (v', e) = close_writer-same w v in record { valid = v'; bytes = e ∙ sym (append-nil _) }

pub act-Moved :
    (e : Event) (w : World) → IsValid w.pipe → Moved w (act e w) (received e w) (sent e w)
unfolding act
act-Moved (reads me n) w v = read_round-Moved me n w v
act-Moved (writes me bs) w v = write_round-Moved me bs w v
act-Moved closes_reader w v = close_reader-Moved w v
act-Moved closes_writer w v = close_writer-Moved w v

abbrev pub all_received : List Event → World → List ℕ
all_received [] w = []
all_received (e ∷ es) w = received e w ++ all_received es (act e w)

abbrev pub all_sent : List Event → World → List ℕ
all_sent [] w = []
all_sent (e ∷ es) w = sent e w ++ all_sent es (act e w)

-- Whatever the order in which readers and writers run and ends are closed, the bytes read, followed by
-- those still in the pipe, are those that were in the pipe, followed by the bytes written, in order.
pub others_fifo :
    (es : List Event) (w : World)
    → IsValid w.pipe
    → IsValid (others es w).pipe
      × (all_received es w ++ contents (others es w).pipe ≡ contents w.pipe ++ all_sent es w)
unfolding others
others_fifo [] w v = (v, sym (append-nil _))
others_fifo (e ∷ es) w v =
    let m = act-Moved e w v in
    let (v', rest) = others_fifo es (act e w) m.valid in
    (
      v',
      glue (received e w) (all_received es (act e w)) (contents w.pipe) (sent e w)
          (contents (act e w).pipe) _ (all_sent es (act e w)) m.bytes rest,
    )
  where
    glue :
        (out outs q ins q' q'' more_ins : List ℕ)
        → out ++ q' ≡ q ++ ins
        → outs ++ q'' ≡ q' ++ more_ins
        → (out ++ outs) ++ q'' ≡ q ++ (ins ++ more_ins)
    glue out outs q ins q' q'' more_ins h k =
        append_assoc out outs q''
        ∙ ap (λ t. out ++ t) k
        ∙ sym (append_assoc out q' more_ins)
        ∙ ap (λ t. t ++ more_ins) h
        ∙ append_assoc q ins more_ins
