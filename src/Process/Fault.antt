-- ===== src/Process/Fault.antt =====
-- `page_fault_handler` of kernel/mm/paging.c. Printing is left out.
use Prim.Native.Nat.{bit_and}
use spike_os.Prelude.{
  ℕ, ◌+◌, ◌≤◌, ◌≡◌, refl, Bool, true, false, some, ◌==◌, if◌then◌else◌, arith, ◌∙◌, ap, sym, length,
  replicate, none, inl, inr, Bool-cases,
}
use mathlib.Core.Path.{subst}
use spike_os.Prelude.Int.{pos}
use spike_os.Prelude.Search.{search}
use spike_os.Wait.{is_blocked}
use spike_os.Fd.Counting.{Counted}
use spike_os.Process.{Kernel, slot, status, is_live, max_procs}
use spike_os.Process.Slots.{IsTable}
use spike_os.Process.Send.{mark_pending, proc_signal, signal_check_pending}
use spike_os.Process.Signal.{proc_signal-found, signal_kills}

-- SIGSEGV.
abbrev pub sigsegv : ℕ
sigsegv = 11

-- The process never runs again, the CPU waits with interrupts enabled, or it halts for ever.
pub data Fault : Type 0 where
  dies waits : Kernel → Fault
  halts : Fault

unfoldable pub after_signal : Bool × Kernel → Fault
after_signal (gone, k) = if gone then dies k else waits k

-- Bit 2 of the error code says that the fault is the user's.
unfoldable pub page_fault_handler : (err_code : ℕ) → Kernel → Fault
page_fault_handler err_code k =
    if bit_and err_code 4 == 0
    then halts
    else after_signal (signal_check_pending (proc_signal (slot k k.current).pid sigsegv k).1)

current-mark_pending : (sig i : ℕ) (k : Kernel) → (mark_pending sig i k).current ≡ k.current
unfolding mark_pending
current-mark_pending sig i k = elim (Bool-cases (is_blocked (status k i))) [
  | inl b ↦ rw b refl
  | inr b ↦ rw b refl
]

after_signal-gone : (r : Bool × Kernel) → r.0 ≡ true → after_signal r ≡ dies r.1
unfolding after_signal
after_signal-gone (gone, k) e = rw e refl

-- What the signal does to the process that runs in `k`.
abbrev Killed : (k k1 : Kernel) → Type 0
Killed k k1 =
    let (gone, k') = signal_check_pending k1 in
    (gone ≡ true)
    × ((r : ℕ) × (1 ≤ r) × (r ≤ sigsegv) × ((slot k' k.current).exit_status ≡ pos (128 + r)))
    × ((slot k' k.current).fds ≡ replicate (length (slot k k.current).fds) none)

-- A page fault in user mode kills the process that runs, with the smallest of its pending signals, at
-- most SIGSEGV, and closes its descriptors.
pub page_fault_handler-dies :
    (other : ℕ → ℕ) (err_code : ℕ) (k : Kernel)
    → IsTable k
    → (bit_and err_code 4 == 0) ≡ false
    → search (is_live k (slot k k.current).pid) max_procs 0 ≡ some k.current
    → 1 ≤ k.current
    → Counted other (slot k k.current).fds k.files
    → let k' = (signal_check_pending (proc_signal (slot k k.current).pid sigsegv k).1).1 in
      (page_fault_handler err_code k ≡ dies k')
      × ((r : ℕ) × (1 ≤ r) × (r ≤ sigsegv) × ((slot k' k.current).exit_status ≡ pos (128 + r)))
      × ((slot k' k.current).fds ≡ replicate (length (slot k k.current).fds) none)
unfolding page_fault_handler
page_fault_handler-dies other err_code k table user h le c =
    let pid = (slot k k.current).pid in
    let k1 = (proc_signal pid sigsegv k).1 in
    let sent : k1 ≡ mark_pending sigsegv k.current k =
      ap (λ (x : Bool × Kernel). x.1)
        (proc_signal-found pid sigsegv k.current k (omega arith) (omega arith) h) in
    let same : k1.current ≡ k.current =
      ap (λ (x : Kernel). x.current) sent ∙ current-mark_pending sigsegv k.current k in
    let (signalled, gone, status, closed, unmapped, dead) =
      signal_kills other pid sigsegv k.current k table (omega arith) (omega arith) h le c in
    let (over, report, none_left) =
      subst (Killed k) (ap (λ i. record k1 { current = i }) (sym same))
        (gone, (status.0, status.2, status.3, status.4), closed) in
    (rw user (after_signal-gone _ over), report, none_left)
