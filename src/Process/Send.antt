-- ===== src/Process/Send.antt =====
-- Signals: `proc_signal` and `signal_check_pending` of kernel/proc/process.c.
use Prim.Native.Nat.{bit_and, bit_or}
use spike_os.Prelude.{
  ℕ, ◌+◌, ◌-◌, ◌^◌, Bool, true, false, not, ◌||◌, none, some, ◌==◌, ltb, leb, if◌then◌else◌,
}
use spike_os.Prelude.Int.{pos}
use spike_os.Prelude.Search.{search}
use spike_os.Wait.{ready, is_blocked}
use spike_os.Process.{
  Kernel, slot, put_slot, status, put_status, is_zombie, is_live, proc_kill, max_procs,
}

-- NSIG.
abbrev pub nsig : ℕ
nsig = 32

-- SIG_BIT.
abbrev pub sig_bit : ℕ → ℕ
sig_bit sig = 2 ^ (sig - 1)

unfoldable pub mark_pending : ℕ → ℕ → Kernel → Kernel
mark_pending sig i k =
    let marked =
      put_slot k i
        (record (slot k i) { pending_signals = bit_or (slot k i).pending_signals (sig_bit sig) }) in
    if is_blocked (status k i) then put_status marked i ready else marked

-- `false` is -1; a signal below 1, as a negative one, is refused.
unfoldable pub proc_signal : ℕ → ℕ → Kernel → Bool × Kernel
proc_signal pid sig k =
    if ltb sig 1 || leb nsig sig then (false, k) else elim (search (is_live k pid) max_procs 0) [
      | none ↦ (false, k)
      | some i ↦ (true, mark_pending sig i k)
    ]

-- The signals of `sigs` from 1 on.
unfoldable pub has_signal : ℕ → ℕ → Bool
has_signal sigs i = not (bit_and sigs (sig_bit i) == 0)

unfoldable pub first_signal : ℕ → ℕ
first_signal sigs = elim (search (has_signal sigs) 31 1) [ none ↦ 0 | some i ↦ i ]

-- `signal_check_pending` up to its last loop, which only waits: `true` is that it does not return.
unfoldable pub signal_check_pending : Kernel → Bool × Kernel
signal_check_pending k =
    let me = slot k k.current in
    if is_zombie (status k k.current) || (me.pending_signals == 0)
    then (false, k)
    else let dying = put_slot k k.current (record me {
      pending_signals = 0;
      exit_status = pos (128 + first_signal me.pending_signals);
    }) in
      (true, proc_kill me.pid dying)
