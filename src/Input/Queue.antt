-- ===== src/Input/Queue.antt =====
-- The event ring as a queue of at most 255 events.
use spike_os.Prelude.{
  ◌⊎◌, ℕ, suc, ◌-◌, ◌≡◌, ◌≢◌, ◌≤◌, refl, List, [], ◌∷◌, ◌++◌, ◌==◌, arith, ◌∙◌, ap, sym, inl, inr,
  Bool-cases, length, drop, get_or, set, length-append,
}
use spike_os.Prelude.Ring.{
  next_slot, IsRing, queued, queued-put, queued-take, put-IsRing, take-IsRing, queued_empty,
  length-queued_full, length-queued_part,
}
use spike_os.Wait.{States}
use spike_os.Input.{Event, Events, no_event, put_event, event_push, event_poll}

-- Head and tail stand in the buffer.
abbrev pub IsEvents : Events → Type 0
IsEvents q = IsRing no_event 256 q.buf q.head q.tail

-- The events, oldest first.
abbrev pub events : Events → List Event
events q = queued no_event 256 q.buf q.head q.tail

-- The last `n` of a list.
abbrev pub newest {ℓ} : {A : Type ℓ} → ℕ → List A → List A
newest n xs = drop (length xs - n) xs

newest-few {ℓ} : {A : Type ℓ} (n : ℕ) (xs : List A) → length xs ≤ n → newest n xs ≡ xs
newest-few n xs few = let e : length xs - n ≡ 0 = omega arith in rw e

newest-one {ℓ} : {A : Type ℓ} (n : ℕ) (x : A) (xs : List A) → length xs ≡ n → newest n (x ∷ xs) ≡ xs
newest-one n x xs whole = let e : suc (length xs) - n ≡ 1 = omega arith in rw e

-- A push on a full ring.
full_push :
    (e : Event) (q : Events)
    → IsEvents q
    → next_slot 256 q.head ≡ q.tail
    → IsRing no_event 256 (set q.buf q.head e) (next_slot 256 q.head) (next_slot 256 q.tail)
      × (queued no_event 256 (set q.buf q.head e) (next_slot 256 q.head) (next_slot 256 q.tail)
          ≡ newest 255 (events q ++ (e ∷ [])))
full_push e q r full =
    let r' = take-IsRing no_event 256 q.buf q.head q.tail r in
    let some_event : q.head ≢ q.tail = omega (arith, r.head_in, r.tail_in, full) in
    let rest = queued no_event 256 q.buf q.head (next_slot 256 q.tail) in
    let first = queued-take no_event 256 q.buf q.head q.tail r some_event in
    let size = length-queued_full no_event 256 q.buf q.head q.tail r full in
    let whole : suc (length rest) ≡ 255 = omega (arith, ap length first, size) in
    (
      put-IsRing no_event 256 q.buf q.head (next_slot 256 q.tail) e r',
      queued-put no_event 256 q.buf q.head (next_slot 256 q.tail) e r'
            (omega (arith, r.tail_in, full))
          ∙ sym (
              newest-one 255 (get_or q.buf q.tail no_event) (rest ++ (e ∷ []))
                (omega (arith, length-append rest (e ∷ []), whole)))
          ∙ ap (λ xs. newest 255 (xs ++ (e ∷ []))) (sym first),
    )

-- `event_push` adds an event behind the others and keeps the 255 newest.
pub event_push-newest :
    (e : Event) (q : Events) (ps : States)
    → IsEvents q
    → IsEvents (event_push e q ps).0
      × (events (event_push e q ps).0 ≡ newest 255 (events q ++ (e ∷ [])))
unfolding event_push put_event
event_push-newest e q ps r = elim (Bool-cases (next_slot 256 q.head == q.tail)) [
  | inr room ↦ rw room (
    put-IsRing no_event 256 q.buf q.head q.tail e r,
    queued-put no_event 256 q.buf q.head q.tail e r (ground (arith, room))
        ∙ sym (
            newest-few 255 (events q ++ (e ∷ [])) (
              let few =
                length-queued_part no_event 256 q.buf q.head q.tail r (ground (arith, room)) in
              omega (arith, few, length-append (events q) (e ∷ [])))),
  )
  | inl full ↦ rw full (full_push e q r (ground (arith, full)))
]

-- `event_poll` takes the oldest event, if there is one.
pub event_poll_lem :
    (q : Events)
    → IsEvents q
    → IsEvents (event_poll q).1
      × (((events q ≡ []) × (event_poll q ≡ (no_event, q)))
          ⊎ (events q ≡ (event_poll q).0 ∷ events (event_poll q).1))
unfolding event_poll
event_poll_lem q r = elim (Bool-cases (q.head == q.tail)) [
  | inl none_left ↦
      let e : q.head ≡ q.tail = ground (arith, none_left) in
      rw none_left (r, inl (rw e (queued_empty no_event 256 q.buf q.tail), refl))
  | inr more ↦ rw more (
    take-IsRing no_event 256 q.buf q.head q.tail r,
    inr (queued-take no_event 256 q.buf q.head q.tail r (ground (arith, more))),
  )
]
