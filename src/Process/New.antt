-- ===== src/Process/New.antt =====
-- New processes and the reaping of dead ones: `proc_create_kernel_thread`, `proc_create_user_process` and
-- `reap_orphan_zombies` of kernel/proc/process.c.
use spike_os.Prelude.{
  ℕ, zero, suc, ◌+◌, ◌%◌, ◌^◌, Bool, true, ◌&&◌, Option, none, some, [], ◌==◌, if◌then◌else◌,
}
use spike_os.Prelude.Int.{pos}
use spike_os.Prelude.Search.{search}
use spike_os.Wait.{ready}
use spike_os.Fd.{fd_init_process}
use spike_os.Process.{
  Process, zero_process, Trapframe, Kernel, slot, put_slot, status, put_status, is_zombie, is_live,
  max_procs,
}

-- A slot that `reap_orphan_zombies` resets; its descriptors are all set to -1.
abbrev pub reaped : Process
reaped = zero_process

-- The parent of slot `i` is the kernel, or dead.
unfoldable pub is_orphan : Kernel → ℕ → Bool
is_orphan k i = elim (search (is_live k (slot k i).parent_pid) max_procs 0) [
  | none ↦ true
  | some j ↦ (slot k i).parent_pid == 0
]

unfoldable pub reap_slot : ℕ → Kernel → Kernel
reap_slot i k = if is_zombie (status k i) && is_orphan k i then put_slot k i reaped else k

-- The loop of `reap_orphan_zombies`, `n` slots from `i` on.
unfoldable pub reap_from : ℕ → ℕ → Kernel → Kernel
reap_from zero i k = k
reap_from (suc n) i k = reap_from n (suc i) (reap_slot i k)

abbrev pub reap_orphan_zombies : Kernel → Kernel
reap_orphan_zombies k = reap_from 31 1 k

-- The frames that the two creators build.
abbrev pub kernel_frame : ℕ → Trapframe
kernel_frame entry = record {
  cs = 0x08;
  data_segments = 0x10;
  ss = 0;
  eflags = 0x202;
  eip = entry;
  useresp = 0;
}

abbrev pub user_frame : ℕ → ℕ → Trapframe
user_frame eip esp = record {
  cs = 0x1B;
  data_segments = 0x23;
  ss = 0x23;
  eflags = 0x202;
  eip = eip;
  useresp = esp;
}

-- The descriptors of a new process.
unfoldable pub open_console : ℕ → Kernel → Kernel
open_console i k =
    let (fds, f) = fd_init_process k.files in
    record (put_slot k i (record (slot k i) { fds = fds })) { files = f }

-- What both creators write into the slot `i` they found: the break keeps its old value.
unfoldable pub fill_slot : ℕ → Trapframe → ℕ → Kernel → Kernel
fill_slot cr3 tf i k =
    let made = record (slot k i) {
      pid = k.next_pid;
      cr3 = cr3;
      parent_pid = (slot k k.current).pid;
      exit_status = pos 0;
      wait_children = [];
      cwd = (slot k k.current).cwd;
      pending_signals = 0;
      vma_count = 0;
      tf = some tf;
    } in
    open_console i
      (record (put_status (put_slot k i made) i ready) { next_pid = (k.next_pid + 1) % 2 ^ 32 })

unfoldable pub is_dead : Kernel → ℕ → Bool
is_dead k i = is_zombie (status k i)

-- `proc_create_kernel_thread` and `proc_create_user_process`, which differ in `cr3` and `tf`: the slot,
-- or NULL. The fuel counts the calls on itself.
unfoldable pub create_fuel : ℕ → ℕ → Trapframe → Kernel → Option ℕ × Kernel
create_fuel zero cr3 tf k = (none, k)
create_fuel (suc n) cr3 tf k = elim (search (is_dead k) 31 1) [
  | some i ↦ (some i, fill_slot cr3 tf i k)
  | none ↦
      let k' = reap_orphan_zombies k in
      elim (search (is_dead k') 31 1) [ none ↦ (none, k') | some i ↦ create_fuel n cr3 tf k' ]
]

unfoldable pub proc_create_kernel_thread : ℕ → Kernel → Option ℕ × Kernel
proc_create_kernel_thread entry k = create_fuel 2 0 (kernel_frame entry) k

unfoldable pub proc_create_user_process : ℕ → ℕ → ℕ → Kernel → Option ℕ × Kernel
proc_create_user_process pd_phys eip esp k = create_fuel 2 pd_phys (user_frame eip esp) k
