-- ===== src/Process/Create.antt =====
-- Which slot a new process takes, and when there is none.
use spike_os.Prelude.{
  ℕ, zero, suc, ◌+◌, ◌%◌, ◌^◌, ◌≤◌, ◌<◌, ◌≡◌, ◌≢◌, refl, true, false, Option, none, some, [], arith,
  length, set, length-set, get_or-set, ◌∙◌, ap,
}
use spike_os.Prelude.Int.{pos}
use spike_os.Prelude.Search.{search, Found, found, missing, search-Found}
use spike_os.Wait.{ready, zombie}
use spike_os.Fd.{FdTable, Files, alloc_open_file, tag_console, init_console, fd_init_process}
use spike_os.Process.Slots.{IsTable, set_here, set_apart}
use spike_os.Process.{Process, Trapframe, Kernel, slot, status, put_status, is_zombie, max_procs}
use spike_os.Process.New.{
  is_dead, reap_slot, reap_from, open_console, fill_slot, create_fuel, user_frame,
  proc_create_user_process,
}

-- The console entries leave the states of the processes alone.
procs-alloc_open_file : (f : Files) → (alloc_open_file f).1.procs ≡ f.procs
unfolding alloc_open_file
procs-alloc_open_file f = ground arith

procs-tag_console :
    (fd flags : ℕ) (fds : FdTable) (r : Option ℕ × Files)
    → (tag_console fd flags fds r).1.procs ≡ r.1.procs
unfolding tag_console
procs-tag_console fd flags fds (none, f) = refl
procs-tag_console fd flags fds (some i, f) = refl

procs-init_console :
    (fd flags : ℕ) (r : FdTable × Files) → (init_console fd flags r).1.procs ≡ r.1.procs
unfolding init_console
procs-init_console fd flags (fds, f) =
    procs-tag_console fd flags fds (alloc_open_file f) ∙ procs-alloc_open_file f

procs-fd_init_process : (f : Files) → (fd_init_process f).1.procs ≡ f.procs
unfolding fd_init_process
procs-fd_init_process f =
    procs-init_console 2 1 _ ∙ procs-init_console 1 1 _ ∙ procs-init_console 0 0 _

-- With no zombie there is nothing to reap.
reap_from-none :
    (n i : ℕ) (k : Kernel)
    → ((j : ℕ) → i ≤ j → j < i + n → is_dead k j ≡ false)
    → reap_from n i k ≡ k
unfolding reap_from reap_slot is_dead
reap_from-none zero i k all = refl
reap_from-none (suc n) i k all =
    let here : is_zombie (status k i) ≡ false = all i (omega arith) (omega arith) in
    rw here (reap_from-none n (suc i) k (λ j le lt. all j (omega arith) (omega arith)))

-- The new process in slot `i`.
pub record IsNew (cr3 : ℕ) (tf : Trapframe) (i : ℕ) (k k' : Kernel) : Type 0 where
  pub pid_is : (slot k' i).pid ≡ k.next_pid
  pub cr3_is : (slot k' i).cr3 ≡ cr3
  pub tf_is : (slot k' i).tf ≡ some tf
  pub parent_is : (slot k' i).parent_pid ≡ (slot k k.current).pid
  pub cwd_is : (slot k' i).cwd ≡ (slot k k.current).cwd
  pub no_signals : (slot k' i).pending_signals ≡ 0
  pub console_fds : (slot k' i).fds ≡ (fd_init_process (put_status k i ready).files).0
  pub runnable : status k' i ≡ ready
  pub counter : k'.next_pid ≡ (k.next_pid + 1) % 2 ^ 32
  pub other_states : (j : ℕ) → j ≢ i → status k' j ≡ status k j
  pub other_slots : (j : ℕ) → j ≢ i → slot k' j ≡ slot k j

-- What the slot holds then.
abbrev new_process : ℕ → Trapframe → ℕ → Kernel → Process
new_process cr3 tf i k = record (slot k i) {
  pid = k.next_pid;
  cr3 = cr3;
  parent_pid = (slot k k.current).pid;
  exit_status = pos 0;
  wait_children = [];
  cwd = (slot k k.current).cwd;
  pending_signals = 0;
  vma_count = 0;
  tf = some tf;
}

abbrev new_fds : ℕ → Kernel → FdTable
new_fds i k = (fd_init_process (put_status k i ready).files).0

slot-fill_slot :
    (cr3 : ℕ) (tf : Trapframe) (i : ℕ) (k : Kernel)
    → i < length k.slots
    → slot (fill_slot cr3 tf i k) i ≡ record (new_process cr3 tf i k) { fds = new_fds i k }
unfolding fill_slot open_console
slot-fill_slot cr3 tf i k lt =
    set_here (set k.slots i (new_process cr3 tf i k)) i _
      (omega (arith, length-set k.slots i (new_process cr3 tf i k)))
    ∙ ap (λ (q : Process). record q { fds = new_fds i k })
        (set_here k.slots i (new_process cr3 tf i k) lt)

fill_slot-IsNew :
    (cr3 : ℕ) (tf : Trapframe) (i : ℕ) (k : Kernel)
    → IsTable k
    → i < max_procs
    → IsNew cr3 tf i k (fill_slot cr3 tf i k)
unfolding fill_slot open_console
fill_slot-IsNew cr3 tf i k table lt =
    let procs = procs-fd_init_process (put_status k i ready).files in
    let here = slot-fill_slot cr3 tf i k (omega (arith, table.slots_size)) in
    record {
      pid_is = ap (λ (q : Process). q.pid) here;
      cr3_is = ap (λ (q : Process). q.cr3) here;
      tf_is = ap (λ (q : Process). q.tf) here;
      parent_is = ap (λ (q : Process). q.parent_pid) here;
      cwd_is = ap (λ (q : Process). q.cwd) here;
      no_signals = ap (λ (q : Process). q.pending_signals) here;
      console_fds = ap (λ (q : Process). q.fds) here;
      runnable =
          rw procs (ground (arith, get_or-set k.files.procs i i ready zombie, table.states_size));
      counter = refl;
      other_states = λ j ne.
          rw procs (ground (arith, get_or-set k.files.procs i j ready zombie, table.states_size));
      other_slots = λ j ne.
          set_apart (set k.slots i (new_process cr3 tf i k)) i j _ ne
          ∙ set_apart k.slots i j (new_process cr3 tf i k) ne;
    }

-- The lowest slot but 0 whose process is dead, filled; or no change, where there is none.
pub data Creates (cr3 : ℕ) (tf : Trapframe) (k : Kernel) (r : Option ℕ × Kernel) : Type 0 where
  creates :
      (i : ℕ)
      → 1 ≤ i
      → i < max_procs
      → is_zombie (status k i) ≡ true
      → ((j : ℕ) → 1 ≤ j → j < i → is_zombie (status k j) ≡ false)
      → r.0 ≡ some i
      → IsNew cr3 tf i k r.1
      → Creates cr3 tf k r
  table_full :
      ((j : ℕ) → 1 ≤ j → j < max_procs → is_zombie (status k j) ≡ false)
      → r ≡ (none, k)
      → Creates cr3 tf k r

create_fuel-Creates :
    (cr3 : ℕ) (tf : Trapframe) (n : ℕ) (k : Kernel)
    → IsTable k
    → Creates cr3 tf k (create_fuel (suc n) cr3 tf k)
unfolding create_fuel is_dead
create_fuel-Creates cr3 tf n k table = go (search-Found (is_dead k) 31 1)
  where
    go :
        Found (is_dead k) 31 1 (search (is_dead k) 31 1)
        → Creates cr3 tf k (create_fuel (suc n) cr3 tf k)
    go (found i le lt t before e) =
        rw (e, create_fuel) (creates i le lt t before refl (fill_slot-IsNew cr3 tf i k table lt))
    go (missing all e) =
        rw (e, create_fuel)
          (rw (reap_from-none 31 1 k all, create_fuel)
            (rw (e, create_fuel)
              (table_full all (ap (λ (q : Kernel). (none, q)) (reap_from-none 31 1 k all)))))

-- `proc_create_user_process` does the same, with the page directory and the frame of a user process.
pub proc_create_user_process-Creates :
    (pd_phys eip esp : ℕ) (k : Kernel)
    → IsTable k
    → Creates pd_phys (user_frame eip esp) k (proc_create_user_process pd_phys eip esp k)
unfolding proc_create_user_process
proc_create_user_process-Creates pd_phys eip esp k table =
    create_fuel-Creates pd_phys (user_frame eip esp) 1 k table
