-- ===== src/Process/Dying.antt =====
-- The receiver of a signal between `proc_signal` and its death in `signal_check_pending`.
use Prim.Native.Nat.{bit_or}
use spike_os.Prelude.{
  ℕ, zero, suc, ◌+◌, ◌≡◌, refl, true, not, ◌&&◌, List, [], ◌∷◌, arith, ◌==◌, length, get_or, set,
  length-set, Bool-cases, inl, inr, ◌∙◌, sym, ap,
}
use spike_os.Prelude.Int.{pos}
use spike_os.Wait.{States, state_of, is_blocked, new, ready, running, blocked, zombie}
use spike_os.Wait.Laws.{queued}
use spike_os.Process.Queued.{Sleeps, on_pipe, on_child, Waits-pool, set-children}
use spike_os.Process.{Process, zero_process, Kernel, slot, put_slot, status, is_zombie, is_live}
use spike_os.Process.Send.{sig_bit, first_signal, mark_pending}

set-pid :
    (xs : List Process) (i j : ℕ) (q : Process)
    → q.pid ≡ (get_or xs i zero_process).pid
    → (get_or (set xs i q) j zero_process).pid ≡ (get_or xs j zero_process).pid
set-pid [] i j q h = refl
set-pid (x ∷ xs) zero zero q h = h
set-pid (x ∷ xs) zero (suc j) q h = refl
set-pid (x ∷ xs) (suc i) zero q h = refl
set-pid (x ∷ xs) (suc i) (suc j) q h = set-pid xs i j q h

-- A blocked process is as alive as a ready one.
set-alive :
    (ps : States) (i j : ℕ)
    → is_blocked (state_of ps i) ≡ true
    → is_zombie (state_of (set ps i ready) j) ≡ is_zombie (state_of ps j)
set-alive [] i j h = refl
set-alive (blocked ∷ ps) zero zero h = refl
set-alive (new ∷ ps) zero zero h = absurd (ground arith)
set-alive (ready ∷ ps) zero zero h = absurd (ground arith)
set-alive (running ∷ ps) zero zero h = absurd (ground arith)
set-alive (zombie ∷ ps) zero zero h = absurd (ground arith)
set-alive (x ∷ ps) zero (suc j) h = refl
set-alive (x ∷ ps) (suc i) zero h = refl
set-alive (x ∷ ps) (suc i) (suc j) h = set-alive ps i j h

module _ (sig i : ℕ) (k : Kernel) where
  unfoldable pub marked : Process
  marked = record (slot k i) { pending_signals = bit_or (slot k i).pending_signals (sig_bit sig) }

  -- What the marking leaves as it was.
  pub mark_pending-parts :
      ((mark_pending sig i k).slots ≡ set k.slots i marked)
      × ((mark_pending sig i k).files.table ≡ k.files.table)
      × (length (mark_pending sig i k).files.procs ≡ length k.files.procs)
      × ((j : ℕ) → is_zombie (status (mark_pending sig i k) j) ≡ is_zombie (status k j))
  unfolding mark_pending marked
  mark_pending-parts = elim (Bool-cases (is_blocked (status k i))) [
    | inl b ↦
        rw b (refl, refl, length-set k.files.procs i ready, λ j. set-alive k.files.procs i j b)
    | inr b ↦ rw b (refl, refl, refl, λ j. refl)
  ]

pub pool-mark_pending : (sig i : ℕ) (k : Kernel) → (mark_pending sig i k).files.pool ≡ k.files.pool
unfolding mark_pending
pool-mark_pending sig i k = elim (Bool-cases (is_blocked (status k i))) [
  | inl b ↦ rw b refl
  | inr b ↦ rw b refl
]

-- The receiver when it next runs, about to die.
unfoldable pub dying : ℕ → ℕ → Kernel → Kernel
dying sig i k =
    let k' = record (mark_pending sig i k) { current = i } in
    put_slot k' i (record (slot k' i) {
      pending_signals = 0;
      exit_status = pos (128 + first_signal (slot k' i).pending_signals);
    })

pub is_live-dying : (sig i pid j : ℕ) (k : Kernel) → is_live (dying sig i k) pid j ≡ is_live k pid j
unfolding is_live dying marked
is_live-dying sig i pid j k =
    let m = mark_pending-parts sig i k in
    let km = mark_pending sig i k in
    let a =
      set-pid km.slots i j
        (record (slot km i) {
          pending_signals = 0;
          exit_status = pos (128 + first_signal (slot km i).pending_signals);
        })
        refl in
    let b : (slot km j).pid ≡ (slot k j).pid =
      ap (λ (xs : List Process). (get_or xs j zero_process).pid) m.0
      ∙ set-pid k.slots i j (marked sig i k) refl in
    ap (λ t. ((slot (dying sig i k) j).pid == pid) && not t) (m.3 j)
    ∙ ap (λ n. (n == pid) && not (is_zombie (status k j))) (a ∙ b)

-- What holds the receiver when it dies held it before the signal.
pub Sleeps-dying : (sig i : ℕ) (k : Kernel) → Sleeps i (dying sig i k) → Sleeps i k
unfolding dying marked
Sleeps-dying sig i k sleeps = go sleeps
  where
    km : Kernel
    km = mark_pending sig i k

    children : (j : ℕ) → (slot (dying sig i k) j).wait_children ≡ (slot k j).wait_children
    children j =
        set-children km.slots i j
          (record (slot km i) {
            pending_signals = 0;
            exit_status = pos (128 + first_signal (slot km i).pending_signals);
          })
          refl
        ∙ ap (λ (xs : List Process). (get_or xs j zero_process).wait_children)
            (mark_pending-parts sig i k).0
        ∙ set-children k.slots i j (marked sig i k) refl

    go : Sleeps i (dying sig i k) → Sleeps i k
    go (on_pipe w) = on_pipe (Waits-pool i k.files km.files (pool-mark_pending sig i k) w)
    go (on_child j q) = on_child j (ap (queued i) (sym (children j)) ∙ q)
