-- ===== src/Process/Tests.antt =====
-- Runs of the process operations from the state that `process_init` leaves.
use spike_os.Prelude.{
  ℕ, zero, suc, ◌+◌, ◌≤◌, ◌≡◌, refl, true, none, some, [], ◌∷◌, arith, ap, length, get_or,
  replicate, ◌⊎◌,
}
use spike_os.Prelude.Int.{pos, negsuc}
use spike_os.Prelude.Search.{search}
use spike_os.Wait.{ready, running, blocked, zombie}
use spike_os.Fd.{OpenFile, zero_file, fd_init, is_unused}
use Prim.Native.Nat.{bit_or}
use spike_os.Fd.Counting.{Counted}
use spike_os.Process.{Process, zero_process, Kernel, slot, put_slot, proc_kill, is_live, status}
use spike_os.Process.Send.{proc_signal, signal_check_pending, sig_bit}
use spike_os.Process.Children.{waitpid_pass, child, is_wanted}
use spike_os.Process.Queued.{Sleeps}
use spike_os.Process.Kill.{Killed, proc_kill-Killed}
use spike_os.Process.Slots.{IsTable}
use spike_os.Process.Children.{reaped_twice}
use spike_os.Process.Signal.{signal_kills}
use spike_os.Process.Pending.{Smallest}

-- Process 1 has pid 5 and a page directory, no descriptors, and sleeps.
abbrev sleeper : Process
sleeper = record zero_process { pid = 5; cr3 = 4096 }

abbrev start : Kernel
unfolding fd_init
start = record {
  slots = zero_process ∷ sleeper ∷ replicate 30 zero_process;
  files = fd_init (running ∷ blocked ∷ replicate 30 zombie);
  next_pid = 6;
  current = 0;
  kernel_cr3 = 8192;
  active_cr3 = 8192;
  destroyed = [];
}

abbrev nobody : ℕ → ℕ
nobody i = 0

start-IsTable : IsTable start
unfolding fd_init
start-IsTable = record { slots_size = refl; states_size = refl }

get_or-replicate : (n i : ℕ) (x : OpenFile) → get_or (replicate n x) i x ≡ x
get_or-replicate zero i x = refl
get_or-replicate (suc n) zero x = refl
get_or-replicate (suc n) (suc i) x = get_or-replicate n i x

start-Counted : Counted nobody (slot start 1).fds start.files
unfolding fd_init
start-Counted = record {
  size = refl;
  counts = λ i. ap (λ (of : OpenFile). of.refcount) (get_or-replicate 64 i zero_file);
  idle = λ i u. refl;
  busy = λ i b.
      ground
        (arith, ap (λ (of : OpenFile). is_unused of.kind) (get_or-replicate 64 i zero_file), b);
}

found_one : search (is_live start 5) 31 1 ≡ some 1
unfolding search is_live fd_init
found_one = refl

found_from_zero : search (is_live start 5) 32 0 ≡ some 1
unfolding search is_live fd_init
found_from_zero = refl

proc_kill-Killed_example : Killed nobody 1 start (proc_kill 5 start)
proc_kill-Killed_example = proc_kill-Killed nobody 5 1 start start-IsTable found_one start-Counted

-- The child died.
abbrev orphaned : Kernel
unfolding fd_init
orphaned = record start { files = fd_init (running ∷ zombie ∷ replicate 30 zombie) }

wanted_one : search (is_wanted (negsuc 0) orphaned) 31 1 ≡ some 1
unfolding search is_wanted fd_init
wanted_one = refl

reaped_twice_example :
    let k' = put_slot orphaned 1 (record sleeper { pid = 0 }) in
    (waitpid_pass (negsuc 0) orphaned ≡ child 5 (pos 0) k')
    × (waitpid_pass (negsuc 0) k' ≡ child 0 (pos 0) k')
unfolding orphaned
reaped_twice_example = reaped_twice (negsuc 0) orphaned 1 refl refl refl wanted_one

signal_kills_example :
    let (sent, k') = proc_signal 5 9 start in
    let (gone, k'') = signal_check_pending (record k' { current = 1 }) in
    (sent ≡ true)
    × (gone ≡ true)
    × ((r : ℕ) × Smallest (bit_or (slot start 1).pending_signals (sig_bit 9)) r
        × (1 ≤ r)
        × (r ≤ 9)
        × ((slot k'' 1).exit_status ≡ pos (128 + r)))
    × ((slot k'' 1).fds ≡ replicate (length (slot start 1).fds) none)
    × ((slot k'' 1).cr3 ≡ 0)
    × ((status k'' 1 ≡ zombie) ⊎ ((status k'' 1 ≡ ready) × Sleeps 1 start))
signal_kills_example =
    signal_kills nobody 5 9 1 start start-IsTable (omega arith) (omega arith) found_from_zero
      (omega arith) start-Counted
