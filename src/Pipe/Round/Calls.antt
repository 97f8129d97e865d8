-- ===== src/Pipe/Round/Calls.antt =====
-- What `pipe_read` and `pipe_write` return, for every schedule of the other processes, and what they do
-- when they need not wait.
use Prim.Native.Nat.{min}
use spike_os.Prelude.{
  ℕ, zero, suc, ◌+◌, ◌-◌, ◌≤◌, ◌<◌, ◌≡◌, ◌≢◌, refl, ap, ◌∙◌, sym, ◌⊎◌, Bool, true, false, ◌&&◌,
  Option, none, some, List, [], ◌∷◌, ◌++◌, arith, ◌==◌, length, take, drop, length-append,
  ℕ_discrete, Bool-cases, inl, inr,
}
use mathlib.Core.Path.{subst}
use mathlib.Core.List.{append-nil}
use spike_os.Pipe.{Pipe, World, drain, none_left}
use spike_os.Pipe.Ring.{contents, IsValid, drain-Drained, length-contents, take-nil}
use spike_os.Pipe.Round.{
  Progress, done, again, read_round, read_copy, read_sleep, Event, reads, writes, closes_reader,
  closes_writer, others, prepend, pipe_read,
}
use spike_os.Pipe.Round.Fifo.{read_round-Moved, others_fifo}

-- At the end of the file: nothing is stored and no writer is left.
pub record AtEnd (w : World) : Type 0 where
  pub empty : w.pipe.count ≡ 0
  pub no_writers : none_left w.pipe.writers ≡ true

-- What one pass of a reader can be.
data Pass (n : ℕ) (w : World) (r : Progress × World) : Type 0 where
  finished : n ≡ 0 → r ≡ (done, w) → Pass n w r
  ended : 0 < n → AtEnd w → r ≡ (done, w) → Pass n w r
  went_on : (out : List ℕ) (w' : World) → length out ≤ n → r ≡ (again out, w') → Pass n w r

length-read_copy :
    (n : ℕ) (w : World) → IsValid w.pipe → length (read_copy n w).0 ≡ min n w.pipe.count
unfolding read_copy
length-read_copy n w v = (drain-Drained n w.pipe v).number

read_round-Pass : (me n : ℕ) (w : World) → IsValid w.pipe → Pass n w (read_round me n w)
unfolding read_round
read_round-Pass me n w v = elim (Bool-cases (n == 0)) [
  | inl none_wanted ↦ rw none_wanted (finished (ground arith) refl)
  | inr wanted ↦ rw wanted (elim (Bool-cases (w.pipe.count == 0)) [
    | inl empty ↦ rw empty (elim (Bool-cases (none_left w.pipe.writers)) [
      | inl eof ↦
          rw eof (ended (ground arith) (record { empty = ground arith; no_writers = eof }) refl)
      | inr writers ↦ rw writers (went_on [] (read_sleep me w) (omega arith) refl)
    ])
    | inr some_left ↦ rw some_left (went_on _ _ (omega (arith, length-read_copy n w v)) refl)
  ])
]

prepend-some :
    (out : List ℕ) (r : Option (List ℕ × World)) {all : List ℕ} {w : World}
    → prepend out r ≡ some (all, w)
    → (bs : List ℕ) × (r ≡ some (bs, w)) × (all ≡ out ++ bs)
unfolding prepend
prepend-some out none h = absurd (ground arith)
prepend-some out (some (bs, w')) h = (bs, ground arith, ground arith)

module _ (me : ℕ) (es : List Event) (schedule : List (List Event)) (n : ℕ) (w w' : World) where
  pipe_read-done : read_round me n w ≡ (done, w') → pipe_read me (es ∷ schedule) n w ≡ some ([], w')
  unfolding pipe_read
  pipe_read-done e = rw (e, pipe_read) (ap (λ (r : Progress × World). some ([], r.1)) e)

  pipe_read-again :
      (out : List ℕ)
      → read_round me n w ≡ (again out, w')
      → pipe_read me (es ∷ schedule) n w
        ≡ prepend out (pipe_read me schedule (n - length out) (others es w'))
  unfolding pipe_read
  pipe_read-again out e =
      rw (e, pipe_read)
        (ap
          (λ (r : Progress × World).
            prepend out (pipe_read me schedule (n - length out) (others es r.1)))
          e)

Moved-IsValid :
    (me n : ℕ) (w w' : World) (p : Progress) (es : List Event)
    → IsValid w.pipe
    → read_round me n w ≡ (p, w')
    → IsValid (others es w').pipe
Moved-IsValid me n w w' p es v e =
    let same : (read_round me n w).1 ≡ w' = ap (λ (r : Progress × World). r.1) e in
    (others_fifo es w' (subst (λ x. IsValid x.pipe) same (read_round-Moved me n w v).valid)).0

-- The same for all schedules, as the passes are cut here.
pipe_read-passes :
    (me : ℕ) (schedule : List (List Event)) (n : ℕ) (w : World) {out : List ℕ} {w' : World}
    → IsValid w.pipe
    → pipe_read me schedule n w ≡ some (out, w')
    → (length out ≡ n) ⊎ ((length out < n) × AtEnd w')
unfolding pipe_read
pipe_read-passes me [] n w v h = absurd (ground arith)
pipe_read-passes me (es ∷ schedule) n w {out} {w'} v h =
    go (read_round-Pass me n w v) (λ m u bs u'. pipe_read-passes me schedule m u)
  where
    same :
        {bs : List ℕ} {u : World}
        → pipe_read me (es ∷ schedule) n w ≡ some (bs, u)
        → (out ≡ bs) × (w' ≡ u)
    same {bs} {u} e =
        let k : ◌≡◌ {A = Option (List ℕ × World)} (some (out, w')) (some (bs, u)) = sym h ∙ e in
        (ground arith, ground arith)

    go :
        Pass n w (read_round me n w)
        → ((m : ℕ) (u : World) (bs : List ℕ) (u' : World)
            → IsValid u.pipe
            → pipe_read me schedule m u ≡ some (bs, u')
            → (length bs ≡ m) ⊎ ((length bs < m) × AtEnd u'))
        → (length out ≡ n) ⊎ ((length out < n) × AtEnd w')
    go (finished z e) ih =
        let (nothing, _) = same (pipe_read-done me es schedule n w w e) in inl (rw nothing (sym z))
    go (ended pos end e) ih =
        let (nothing, there) = same (pipe_read-done me es schedule n w w e) in
        inr (rw nothing pos, rw there end)
    go (went_on bs w1 le e) ih =
        let (rest, r, all) =
          prepend-some bs _ (sym (pipe_read-again me es schedule n w w1 bs e) ∙ h) in
        elim (ih (n - length bs) (others es w1) rest w' (Moved-IsValid me n w w1 (again bs) es v e)
          r) [
            | inl whole ↦ inl (rw all (omega (arith, length-append bs rest)))
            | inr (short, end) ↦ inr (rw all (omega (arith, length-append bs rest)), end)
          ]

abbrev pub no_reads : List Event → Bool
no_reads [] = true
no_reads (reads me n ∷ es) = false
no_reads (writes me bs ∷ es) = no_reads es
no_reads (closes_reader ∷ es) = no_reads es
no_reads (closes_writer ∷ es) = no_reads es

-- The others do not read.
abbrev pub only_reader : List (List Event) → Bool
only_reader [] = true
only_reader (es ∷ schedule) = no_reads es && only_reader schedule

-- When `pipe_read` returns, it returns as many bytes as were asked for, or fewer and no writer is left,
-- whatever the others do meanwhile; the pipe is then empty unless another process has read from it too.
pub pipe_read_complete :
    (me : ℕ) (schedule : List (List Event)) (n : ℕ) (w : World) {out : List ℕ} {w' : World}
    → IsValid w.pipe
    → pipe_read me schedule n w ≡ some (out, w')
    → (length out ≡ n)
      ⊎ ((length out < n)
          × (none_left w'.pipe.writers ≡ true)
          × ((w'.pipe.count ≡ 0) ⊎ (only_reader schedule ≡ false)))
pipe_read_complete me schedule n w v h = elim (pipe_read-passes me schedule n w v h) [
  | inl whole ↦ inl whole
  | inr (short, end) ↦ inr (short, end.no_writers, inl end.empty)
]

-- A split of a list is determined by the length of its first part.
split_at :
    (n : ℕ) (out rest : List ℕ)
    → length out ≡ min n (length (out ++ rest))
    → (out ≡ take n (out ++ rest)) × (rest ≡ drop n (out ++ rest))
split_at zero [] rest h = (refl, refl)
split_at zero (x ∷ out) rest h = absurd (omega arith)
split_at (suc n) [] [] h = (refl, refl)
split_at (suc n) [] (x ∷ rest) h = absurd (omega arith)
split_at (suc n) (x ∷ out) rest h =
    let (e, e') = split_at n out rest (omega arith) in (ap (λ t. x ∷ t) e, e')

read_copy-lem :
    (n : ℕ) (w : World)
    → IsValid w.pipe
    → let (out, w') = read_copy n w in
      IsValid w'.pipe
      × (out ≡ take n (contents w.pipe))
      × (contents w'.pipe ≡ drop n (contents w.pipe))
      × (w'.pipe.count + length out ≡ w.pipe.count)
      × (w'.pipe.writers ≡ w.pipe.writers)
unfolding read_copy
read_copy-lem n w v =
    let d = drain-Drained n w.pipe v in
    let (p, q) = drain n w.pipe in
    let (e, e') =
      split_at n p (contents q) (rw d.bytes (omega (arith, d.number, length-contents w.pipe))) in
    (omega (arith, d.valid), rw d.bytes at e, rw d.bytes at e', d.left, d.ends.writers)

-- Nothing is wanted, or the pipe is at the end of the file.
abbrev Stops : ℕ → World → Type 0
Stops n w = (n ≡ 0) ⊎ AtEnd w

read_round-Stops : (me n : ℕ) (w : World) → Stops n w → read_round me n w ≡ (done, w)
unfolding read_round
read_round-Stops me n w (inl z) = ground arith
read_round-Stops me n w (inr end) = ground (arith, end.empty, end.no_writers)

read_round-copies :
    (me n : ℕ) (w : World)
    → n ≢ 0
    → w.pipe.count ≢ 0
    → read_round me n w ≡ (again (read_copy n w).0, (read_copy n w).1)
unfolding read_round
read_round-copies me n w wanted some_left =
    let a : (n == 0) ≡ false = ground arith in
    let b : (w.pipe.count == 0) ≡ false = ground arith in rw (a, b)

-- After a copy nothing more is wanted, or the pipe is empty.
read_copy-Stops :
    (n : ℕ) (w : World)
    → IsValid w.pipe
    → (n ≤ w.pipe.count) ⊎ (none_left w.pipe.writers ≡ true)
    → Stops (n - length (read_copy n w).0) (read_copy n w).1
read_copy-Stops n w v (inl enough) = inl (omega (arith, length-read_copy n w v))
read_copy-Stops n w v (inr nobody) = elim (ℕ_discrete (n - length (read_copy n w).0) 0) [
  | yes z ↦ inl z
  | no wanting ↦
      let (v', out, left, number, writers) = read_copy-lem n w v in
      inr (record {
        empty = omega (arith, number, length-read_copy n w v);
        no_writers = rw writers nobody;
      })
]

contents-nil : (p : Pipe) → p.count ≡ 0 → contents p ≡ []
contents-nil p e = rw e

drop-nil : (n : ℕ) → drop {A = ℕ} n [] ≡ []
drop-nil zero = refl
drop-nil (suc n) = refl

-- Where the bytes are there, or no writer is left to wait for, and the others do nothing, `pipe_read`
-- returns the oldest bytes after two passes at most and leaves the rest.
pub pipe_read_available :
    (me n : ℕ) (schedule : List (List Event)) (w : World)
    → IsValid w.pipe
    → (n ≤ w.pipe.count) ⊎ (none_left w.pipe.writers ≡ true)
    → (w' : World) × (pipe_read me ([] ∷ [] ∷ schedule) n w ≡ some (take n (contents w.pipe), w'))
      × (contents w'.pipe ≡ drop n (contents w.pipe))
      × IsValid w'.pipe
unfolding others prepend
pipe_read_available me n schedule w v enough = elim (ℕ_discrete n 0) [
  | yes z ↦ (
    w,
    pipe_read-done me [] ([] ∷ schedule) n w w (read_round-Stops me n w (inl z)) ∙ rw z,
    rw z,
    v,
  )
  | no wanted ↦ elim (ℕ_discrete w.pipe.count 0) [
    | yes empty ↦
        let end : AtEnd w = record { empty = empty; no_writers = ground arith } in
        (
          w,
          pipe_read-done me [] ([] ∷ schedule) n w w (read_round-Stops me n w (inr end))
              ∙ rw (contents-nil w.pipe empty, take-nil),
          rw (contents-nil w.pipe empty) (sym (drop-nil n)),
          v,
        )
    | no some_left ↦
        let (v', out, left, number, writers) = read_copy-lem n w v in
        let w1 = (read_copy n w).1 in
        (
          w1,
          pipe_read-again me [] ([] ∷ schedule) n w w1 (read_copy n w).0
                (read_round-copies me n w wanted some_left)
              ∙ ap (prepend (read_copy n w).0) (
                  pipe_read-done me [] schedule _ w1 w1
                    (read_round-Stops me _ w1 (read_copy-Stops n w v enough)))
              ∙ ap (λ t. some (t, w1)) (append-nil _ ∙ out),
          left,
          v',
        )
  ]
]
