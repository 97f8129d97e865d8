-- ===== src/Process/Signal.antt =====
-- Sending a signal, and what the receiver dies of.
use Prim.Native.Nat.{bit_or}
use spike_os.Prelude.{
  ℕ, ◌+◌, ◌-◌, ◌≤◌, ◌<◌, ◌≡◌, refl, true, false, ◌||◌, none, some, List, arith, ◌==◌, ltb, leb,
  length, get_or, replicate, length-set, inl, inr, ◌∙◌, ap, ◌⊎◌, dec_lt,
}
use spike_os.Prelude.Int.{pos}
use spike_os.Prelude.Bits.{bit, bit-bit_or, bit-pow, bit-zero}
use spike_os.Wait.{ready, zombie}
use spike_os.Process.Queued.{Sleeps}
use spike_os.Process.Kill.{proc_kill-Killed}
use spike_os.Process.Slots.{IsTable, set_here, Finds}
use spike_os.Fd.Counting.{Counted, Counted-table}
use spike_os.Prelude.Search.{search, Found, found, missing, search-Found, search-first}
use spike_os.Process.{
  Process, zero_process, Kernel, slot, status, is_zombie, is_live, proc_kill, max_procs,
}
use spike_os.Process.Send.{
  nsig, sig_bit, has_signal, first_signal, mark_pending, proc_signal, signal_check_pending,
}
use spike_os.Process.Pending.{has_signal-added, Smallest, smallest, nothing, first_signal-Smallest}
use spike_os.Process.Dying.{marked, mark_pending-parts, dying, is_live-dying, Sleeps-dying}

pub proc_signal-found :
    (pid sig i : ℕ) (k : Kernel)
    → 1 ≤ sig
    → sig < nsig
    → search (is_live k pid) max_procs 0 ≡ some i
    → proc_signal pid sig k ≡ (true, mark_pending sig i k)
unfolding proc_signal
proc_signal-found pid sig i k p q h =
    let ok : (ltb sig 1 || leb nsig sig) ≡ false = ground arith in rw (ok, h, proc_signal) refl

-- A set with a signal in it is not empty.
nonzero : (sigs sig : ℕ) → 1 ≤ sig → (bit_or sigs (sig_bit sig) == 0) ≡ false
nonzero sigs sig p = ground (
  arith,
  bit-bit_or sigs (sig_bit sig) (sig - 1),
  bit-pow (sig - 1) (sig - 1),
  bit-zero (sig - 1),
  ap (λ (x : ℕ). bit x (sig - 1)),
)

module _ (pid sig i : ℕ) (k : Kernel) (table : IsTable k) (p : 1 ≤ sig) (q : sig < nsig)
    (le : 1 ≤ i) where
  in_slot : i < max_procs → slot (mark_pending sig i k) i ≡ marked sig i k
  in_slot lt =
      ap (λ (xs : List Process). get_or xs i zero_process) (mark_pending-parts sig i k).0
      ∙ set_here k.slots i (marked sig i k) (omega (arith, table.slots_size))

  signal_check_pending-marked :
      i < max_procs
      → is_live k pid i ≡ true
      → signal_check_pending (record (mark_pending sig i k) { current = i })
        ≡ (true, proc_kill pid (dying sig i k))
  unfolding signal_check_pending dying marked is_live
  signal_check_pending-marked lt live =
      let alive : is_zombie (status k i) ≡ false = ground arith in
      let named : (slot (mark_pending sig i k) i).pid ≡ pid = rw (in_slot lt) (ground arith) in
      let full : ((slot (mark_pending sig i k) i).pending_signals == 0) ≡ false =
        rw (in_slot lt) (nonzero (slot k i).pending_signals sig p) in
      rw ((mark_pending-parts sig i k).3 i, alive, full)
        (ap (λ n. (true, proc_kill n (dying sig i k))) named)

  slot-dying :
      i < max_procs
      → slot (dying sig i k) i ≡ record (slot k i) {
        pending_signals = 0;
        exit_status = pos (128 + first_signal (bit_or (slot k i).pending_signals (sig_bit sig)));
      }
  unfolding dying marked
  slot-dying lt =
      let m = mark_pending-parts sig i k in
      set_here (mark_pending sig i k).slots i _ (
        omega (
          arith,
          table.slots_size,
          length-set k.slots i (marked sig i k),
          ap (λ (xs : List Process). length xs) m.0,
        ))
      ∙ rw (in_slot lt) refl

  dying-IsTable : IsTable (dying sig i k)
  unfolding dying
  dying-IsTable =
      let m = mark_pending-parts sig i k in
      record {
        slots_size =
            length-set (mark_pending sig i k).slots i _
            ∙ ap (λ (xs : List Process). length xs) m.0
            ∙ length-set k.slots i (marked sig i k)
            ∙ table.slots_size;
        states_size = m.2 ∙ table.states_size;
      }

  dying-Finds :
      Found (is_live k pid) max_procs 0 (search (is_live k pid) max_procs 0)
      → search (is_live k pid) max_procs 0 ≡ some i
      → Finds (dying sig i k) pid i × (i < max_procs) × (is_live k pid i ≡ true)
  dying-Finds (missing all e) h = absurd (ground (arith, e, h))
  dying-Finds (found j ge lt t before e) h =
      let same : j ≡ i = ground (arith, e, h) in
      let live : is_live k pid i ≡ true = rw (← same) t in
      (
        search-first (is_live (dying sig i k) pid) 31 1 i le (omega (arith, same, lt))
            (is_live-dying sig i pid i k ∙ live)
            (λ x xle xlt.
              is_live-dying sig i pid x k ∙ before x (omega arith) (omega (arith, same))),
        omega (arith, same, lt),
        live,
      )

-- The signal that a process with signal `sig` pending dies of.
first_signal-at_most :
    (sigs sig : ℕ)
    → 1 ≤ sig
    → sig < nsig
    → let r = first_signal (bit_or sigs (sig_bit sig)) in
      Smallest (bit_or sigs (sig_bit sig)) r × (1 ≤ r) × (r ≤ sig)
first_signal-at_most sigs sig p q = go (first_signal-Smallest (bit_or sigs (sig_bit sig)))
  where
    r : ℕ
    r = first_signal (bit_or sigs (sig_bit sig))

    in_set : has_signal (bit_or sigs (sig_bit sig)) sig ≡ true
    in_set = ground (arith, has_signal-added sigs sig sig p p)

    go :
        Smallest (bit_or sigs (sig_bit sig)) r
        → Smallest (bit_or sigs (sig_bit sig)) r × (1 ≤ r) × (r ≤ sig)
    go (smallest le lt t before) = (
      smallest le lt t before,
      le,
      elim (dec_lt sig r) [
        | yes s ↦ absurd (ground (arith, before sig p s, in_set))
        | no ge ↦ omega arith
      ],
    )
    go (nothing e all) = absurd (ground (arith, all sig p q, in_set))

-- A signal that `proc_signal` delivers to a live process in a slot other than 0 kills it: when it next
-- reaches `signal_check_pending` it does not return, its exit status is 128 and the smallest of its
-- pending signals, which is at most the one sent, its descriptors are closed, it has no page directory,
-- and it is ZOMBIE, or READY where a queue of a pipe or for the end of a child held it when the signal
-- was sent.
pub signal_kills :
    (other : ℕ → ℕ) (pid sig i : ℕ) (k : Kernel)
    → IsTable k
    → 1 ≤ sig
    → sig < nsig
    → search (is_live k pid) max_procs 0 ≡ some i
    → 1 ≤ i
    → Counted other (slot k i).fds k.files
    → let (sent, k') = proc_signal pid sig k in
      let (gone, k'') = signal_check_pending (record k' { current = i }) in
      (sent ≡ true)
      × (gone ≡ true)
      × ((r : ℕ) × Smallest (bit_or (slot k i).pending_signals (sig_bit sig)) r
          × (1 ≤ r)
          × (r ≤ sig)
          × ((slot k'' i).exit_status ≡ pos (128 + r)))
      × ((slot k'' i).fds ≡ replicate (length (slot k i).fds) none)
      × ((slot k'' i).cr3 ≡ 0)
      × ((status k'' i ≡ zombie) ⊎ ((status k'' i ≡ ready) × Sleeps i k))
unfolding dying marked
signal_kills other pid sig i k table p q h le c =
    let (finds, lt, live) =
      dying-Finds pid sig i k table p q le (search-Found (is_live k pid) max_procs 0) h in
    let d = slot-dying pid sig i k table p q le lt in
    let c' : Counted other (slot (dying sig i k) i).fds (dying sig i k).files =
      rw d (Counted-table other (slot k i).fds k.files _ (mark_pending-parts sig i k).1 c) in
    let r =
      proc_kill-Killed other pid i (dying sig i k) (dying-IsTable pid sig i k table p q le) finds
        c' in
    let at_most = first_signal-at_most (slot k i).pending_signals sig p q in
    rw (proc_signal-found pid sig i k p q h) (
      rw (signal_check_pending-marked pid sig i k table p q le lt live) (
        refl,
        refl,
        (_, at_most.0, at_most.1, at_most.2, r.report ∙ ap (λ (x : Process). x.exit_status) d),
        r.closed ∙ ap (λ (x : Process). replicate (length x.fds) none) d,
        r.unmapped,
        elim r.dead [ inl z ↦ inl z | inr (e, q) ↦ inr (e, Sleeps-dying sig i k q) ],
      ))
