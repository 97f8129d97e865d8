-- ===== src/Pipe/Round/Write.antt =====
-- What `pipe_write` returns, for every schedule of the other processes, and what it does with room.
use spike_os.Prelude.{
  ℕ, ◌+◌, ◌-◌, ◌≤◌, ◌<◌, ◌≡◌, refl, ap, ◌∙◌, sym, true, false, some, List, [], ◌∷◌, ◌++◌, arith,
  ltb, length,
}
use mathlib.Core.List.{append-nil}
use spike_os.Pipe.{World, buf_size, fill, none_left}
use spike_os.Pipe.Ring.{contents, IsValid, fill-Filled}
use spike_os.Pipe.Round.{
  Writing, written, broken, more, write_round, write_copy, Event, others, Wrote, partial,
  pipe_write_from, pipe_write,
}

-- What one pass of a writer can be.
data Pass (bs : List ℕ) (w : World) (r : Writing × World) : Type 0 where
  finished : bs ≡ [] → r ≡ (written, w) → Pass bs w r
  stopped : 0 < length bs → none_left w.pipe.readers ≡ true → r ≡ (broken, w) → Pass bs w r
  went_on :
      (rest : List ℕ) (w' : World) → length rest ≤ length bs → r ≡ (more rest, w') → Pass bs w r

-- How a write of `all` bytes ends: with all of them in, or with fewer because no reader is left, with
-- SIGPIPE; -1 stands for none.
pub data Ended (all : ℕ) (r : Wrote) (w : World) : Type 0 where
  whole : r ≡ record { value = some all; sigpipe = false } → Ended all r w
  cut :
      (k : ℕ)
      → k < all
      → none_left w.pipe.readers ≡ true
      → r ≡ record { value = partial k; sigpipe = true }
      → Ended all r w

module _ (me : ℕ) (es : List Event) (schedule : List (List Event)) (bs : List ℕ) (total : ℕ)
    (w w' : World) where
  write-finished :
      write_round me bs w ≡ (written, w')
      → pipe_write_from me (es ∷ schedule) bs total w
        ≡ some (record { value = some total; sigpipe = false }, w')
  unfolding pipe_write_from
  write-finished e =
      rw (e, pipe_write_from)
        (ap (λ (r : Writing × World). some (record { value = some total; sigpipe = false }, r.1)) e)

  write-more :
      (rest : List ℕ)
      → write_round me bs w ≡ (more rest, w')
      → pipe_write_from me (es ∷ schedule) bs total w
        ≡ pipe_write_from me schedule rest (total + (length bs - length rest)) (others es w')
  unfolding pipe_write_from
  write-more rest e =
      rw (e, pipe_write_from)
        (ap
          (λ (r : Writing × World).
            pipe_write_from me schedule rest (total + (length bs - length rest)) (others es r.1))
          e)

nil_of_length : (bs : List ℕ) → length bs ≡ 0 → bs ≡ []
nil_of_length [] e = refl
nil_of_length (b ∷ bs) e = absurd (omega arith)

-- With room for all bytes the copy puts them all in.
write_copy-room :
    (bs : List ℕ) (w : World)
    → IsValid w.pipe
    → w.pipe.count + length bs ≤ buf_size
    → ((write_copy bs w).0 ≡ [])
      × (contents (write_copy bs w).1.pipe ≡ contents w.pipe ++ bs)
      × IsValid (write_copy bs w).1.pipe
unfolding write_copy
write_copy-room bs w v room =
    let f = fill-Filled bs w.pipe v in
    let none_over : (fill bs w.pipe).0 ≡ [] = nil_of_length _ (omega (arith, f.left, f.number)) in
    (
      none_over,
      sym (append-nil _) ∙ ap (λ t. contents (fill bs w.pipe).1 ++ t) (sym none_over) ∙ f.bytes,
      omega (arith, f.valid),
    )

write_round-copies :
    (me b : ℕ) (bs : List ℕ) (w : World)
    → none_left w.pipe.readers ≡ false
    → w.pipe.count < buf_size
    → write_round me (b ∷ bs) w ≡ (more (write_copy (b ∷ bs) w).0, (write_copy (b ∷ bs) w).1)
unfolding write_round
write_round-copies me b bs w readers space =
    let t : ltb w.pipe.count buf_size ≡ true = ground arith in rw (readers, t)

write_round-written : (me : ℕ) (w : World) → write_round me [] w ≡ (written, w)
unfolding write_round
write_round-written me w = refl

-- With room for all the bytes and a reader, and the others doing nothing, `pipe_write` returns after two
-- passes and has put exactly its bytes behind those that were there.
pub pipe_write_room :
    (me : ℕ) (schedule : List (List Event)) (bs : List ℕ) (w : World)
    → IsValid w.pipe
    → none_left w.pipe.readers ≡ false
    → w.pipe.count + length bs ≤ buf_size
    → (w' : World) × (pipe_write me ([] ∷ [] ∷ schedule) bs w
        ≡ some (record { value = some (length bs); sigpipe = false }, w'))
      × (contents w'.pipe ≡ contents w.pipe ++ bs)
      × IsValid w'.pipe
unfolding pipe_write others
pipe_write_room me schedule [] w v readers room = (
  w,
  write-finished me [] ([] ∷ schedule) [] 0 w w (write_round-written me w),
  sym (append-nil _),
  v,
)
pipe_write_room me schedule (b ∷ bs) w v readers room =
    let (none_over, bytes, v') = write_copy-room (b ∷ bs) w v room in
    let w1 = (write_copy (b ∷ bs) w).1 in
    (
      w1,
      write-more me [] ([] ∷ schedule) (b ∷ bs) 0 w w1 [] (
            write_round-copies me b bs w readers (omega arith)
            ∙ ap (λ (t : List ℕ). (more t, w1)) none_over)
          ∙ write-finished me [] schedule [] _ w1 w1 (write_round-written me w1)
          ∙ ap (λ (k : ℕ). some (record { value = some k; sigpipe = false }, w1)) (omega arith),
      bytes,
      v',
    )
