-- ===== src/Process.antt =====
-- Processes: kernel/proc/process.c, and `sys_waitpid` of kernel/core/syscall.c, over `proc_table` of
-- kernel/include/kernel/process.h. The column `state` of the table is `files.procs`, which the wait
-- queues change; the other fields stand in `slots`. A pid, an address and a set of signals are 32 bits
-- wide. Printing, and the bytes of the kernel stacks, are left out.
pub mod Wakes
pub mod Queued
pub mod Shut
pub mod Dying
pub mod Kill
pub mod Slots
pub mod New
pub mod Create
pub mod Children
pub mod Send
pub mod Signal
pub mod Fault
pub mod Pending
mod Tests
use Prim.Native.Nat.{bit_and, bit_or}
use spike_os.Prelude.{
  ℕ, zero, suc, ◌+◌, ◌-◌, ◌*◌, ◌%◌, ◌^◌, Bool, true, false, not, ◌&&◌, ◌||◌, Option, none, some,
  List, [], ◌∷◌, ◌==◌, ltb, leb, if◌then◌else◌, length, get_or, set, replicate,
}
use spike_os.Prelude.Int.{ℤ, pos, ltb_ℤ}
use spike_os.Prelude.Search.{search}
use spike_os.Wait.{
  ProcState, new, ready, running, blocked, zombie, States, WaitQueue, state_of, is_blocked,
  wake_up_all,
}
use spike_os.Fd.{FdTable, Files, max_fds, fd_init_process, fd_close_all}

abbrev pub max_procs : ℕ
max_procs = 32

-- What a new thread starts with: selectors, flags, and where it runs.
pub record Trapframe : Type 0 where
  pub cs : ℕ
  pub data_segments : ℕ
  pub ss : ℕ
  pub eflags : ℕ
  pub eip : ℕ
  pub useresp : ℕ

-- `struct process`, without its state.
pub record Process : Type 0 where
  pub pid : ℕ
  pub cr3 : ℕ
  pub tf : Option Trapframe
  pub fds : FdTable
  pub parent_pid : ℕ
  pub exit_status : ℤ
  pub wait_children : WaitQueue
  pub cwd : ℕ
  pub pending_signals : ℕ
  pub brk : ℕ
  pub vma_count : ℕ

abbrev pub zero_process : Process
zero_process = record {
  pid = 0;
  cr3 = 0;
  tf = none;
  fds = replicate max_fds none;
  parent_pid = 0;
  exit_status = pos 0;
  wait_children = [];
  cwd = 0;
  pending_signals = 0;
  brk = 0;
  vma_count = 0;
}

-- `active_cr3` is the register; `destroyed` are the directories given to `pgdir_destroy`, last first.
pub record Kernel : Type 0 where
  pub slots : List Process
  pub files : Files
  pub next_pid : ℕ
  pub current : ℕ
  pub kernel_cr3 : ℕ
  pub active_cr3 : ℕ
  pub destroyed : List ℕ

abbrev pub slot : Kernel → ℕ → Process
slot k i = get_or k.slots i zero_process

abbrev pub put_slot : Kernel → ℕ → Process → Kernel
put_slot k i p = record k { slots = set k.slots i p }

abbrev pub status : Kernel → ℕ → ProcState
status k i = state_of k.files.procs i

abbrev pub put_status : Kernel → ℕ → ProcState → Kernel
put_status k i s = record k { files = record k.files { procs = set k.files.procs i s } }

abbrev pub is_zombie : ProcState → Bool
is_zombie zombie = true
is_zombie new = false
is_zombie ready = false
is_zombie running = false
is_zombie blocked = false

unfoldable pub proc_get_cr3 : Kernel → ℕ → ℕ
proc_get_cr3 k i = if (slot k i).cr3 == 0 then k.kernel_cr3 else (slot k i).cr3

-- `process_init` on fresh file tables; the directory of the kernel is an argument.
pub process_init : ℕ → Files → Kernel
process_init kernel_cr3 f =
    let (fds, f') = fd_init_process (record f { procs = running ∷ replicate 31 zombie }) in
    record {
      slots = record zero_process { fds = fds } ∷ replicate 31 zero_process;
      files = f';
      next_pid = 1;
      current = 0;
      kernel_cr3 = kernel_cr3;
      active_cr3 = kernel_cr3;
      destroyed = [];
    }

-- The test of the loops that look for a live process.
unfoldable pub is_live : Kernel → ℕ → ℕ → Bool
is_live k pid i = ((slot k i).pid == pid) && not (is_zombie (status k i))

-- The processes that sleep in `waitpid` of the parent, if it lives.
unfoldable pub wake_parent : ℕ → Kernel → Kernel
wake_parent ppid k = elim (search (is_live k ppid) max_procs 0) [
  | none ↦ k
  | some j ↦
      let (count, wq, ps) = wake_up_all (slot k j).wait_children k.files.procs in
      record (put_slot k j (record (slot k j) { wait_children = wq })) {
        files = record k.files { procs = ps };
      }
]

-- The page directory of a dead process.
unfoldable pub free_space : ℕ → Kernel → Kernel
free_space i k =
    if (slot k i).cr3 == 0 then k else record (put_slot k i (record (slot k i) { cr3 = 0 })) {
      active_cr3 = if i == k.current then k.kernel_cr3 else k.active_cr3;
      destroyed = (slot k i).cr3 ∷ k.destroyed;
    }

-- `fd_close_all` on the descriptors of a slot.
unfoldable pub close_fds : ℕ → Kernel → Kernel
close_fds i k =
    let (fds, f) = fd_close_all (slot k i).fds k.files in
    record (put_slot k i (record (slot k i) { fds = fds })) { files = f }

-- The body of `proc_kill` on the slot it found.
unfoldable pub kill_slot : ℕ → Kernel → Kernel
kill_slot i k =
    wake_parent (slot k i).parent_pid (free_space i (close_fds i (put_status k i zombie)))

unfoldable pub proc_kill : ℕ → Kernel → Kernel
proc_kill pid k = elim (search (is_live k pid) 31 1) [ none ↦ k | some i ↦ kill_slot i k ]
