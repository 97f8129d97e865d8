-- ===== src/Wait/Laws.antt =====
-- What sleeping and waking do to a queue and to the processes.
use spike_os.Prelude.{
  ℕ, suc, ◌+◌, ◌<◌, ◌≡◌, ◌≢◌, refl, Bool, true, false, ◌||◌, some, [], ◌∷◌, ◌++◌, arith, ◌==◌,
  if◌then◌else◌, length, set, length-set, get_or-set, ◌∙◌,
}
use spike_os.Wait.{
  ProcState, ready, blocked, zombie, States, WaitQueue, state_of, sleep_on, still_sleeping,
  wake_up_one, wake_loop, wake_up_all,
}

abbrev pub queued : ℕ → WaitQueue → Bool
queued i [] = false
queued i (p ∷ wq) = (p == i) || queued i wq

-- Every entry is a slot of the table.
abbrev pub InTable : States → WaitQueue → Type 0
InTable ps [] = Unit
InTable ps (p ∷ wq) = (p < length ps) × InTable ps wq

InTable-set :
    (ps : States) (wq : WaitQueue) (i : ℕ) (s : ProcState) → InTable ps wq → InTable (set ps i s) wq
InTable-set ps [] i s h = tt
InTable-set ps (p ∷ wq) i s h = (omega (arith, h.0, length-set ps i s), InTable-set ps wq i s h.1)

record Woken (ps : States) (wq : WaitQueue) (count : ℕ) (r : ℕ × WaitQueue × States) : Type 0 where
  number : r.0 ≡ count + length wq
  drained : r.1 ≡ []
  states : (i : ℕ) → state_of r.2 i ≡ (if queued i wq then ready else state_of ps i)

wake_loop-Woken :
    (wq : WaitQueue) (ps : States) (count : ℕ)
    → InTable ps wq
    → Woken ps wq count (wake_loop wq ps count)
unfolding wake_loop
wake_loop-Woken [] ps count h = record { number = omega arith; drained = refl; states = λ i. refl }
wake_loop-Woken (p ∷ wq) ps count h =
    let w = wake_loop-Woken wq (set ps p ready) (suc count) (InTable-set ps wq p ready h.1) in
    record {
      number = omega (arith, w.number);
      drained = w.drained;
      states = λ i. w.states i ∙ ground (arith, get_or-set ps p i ready zombie);
    }

-- `wake_up_all` empties the queue, returns how many entries it held, and makes ready exactly the
-- processes that were in it.
pub wake_up_all_lem :
    (wq : WaitQueue) (ps : States)
    → InTable ps wq
    → ((wake_up_all wq ps).0 ≡ length wq)
      × ((wake_up_all wq ps).1 ≡ [])
      × ((i : ℕ)
          → state_of (wake_up_all wq ps).2 i ≡ (if queued i wq then ready else state_of ps i))
unfolding wake_up_all
wake_up_all_lem wq ps h =
    let w = wake_loop-Woken wq ps 0 h in (w.number ∙ omega arith, w.drained, w.states)

-- With another process waiting, `wake_up_one` after `sleep_on` wakes the oldest sleeper, and the
-- new sleeper stays blocked at the tail.
pub wake_up_one-sleep_on :
    (me first : ℕ) (wq : WaitQueue) (ps : States)
    → me < length ps
    → first < length ps
    → first ≢ me
    → let (wq', ps') = sleep_on (some me) (first ∷ wq) ps in
      let (n, wq'', ps'') = wake_up_one wq' ps' in
      (n ≡ 1)
      × (wq'' ≡ wq ++ (me ∷ []))
      × (state_of ps'' first ≡ ready)
      × (still_sleeping me ps'' ≡ true)
unfolding sleep_on wake_up_one still_sleeping
wake_up_one-sleep_on me first wq ps h k ne = ground (
  arith,
  get_or-set (set ps me blocked) first first ready zombie,
  get_or-set (set ps me blocked) first me ready zombie,
  get_or-set ps me me blocked zombie,
  length-set ps me blocked,
)
