-- ===== src/Process/Slots.antt =====
-- What is looked up in the process table behind a change of one slot.
use spike_os.Prelude.{
  Option-cases, ℕ, zero, suc, ◌<◌, ◌≡◌, ◌≢◌, refl, some, List, [], ◌∷◌, arith, length, get_or, set,
  get_or-set, inl, inr, ◌∙◌, ap,
}
use spike_os.Prelude.Search.{search}
use spike_os.Process.{
  Process, zero_process, Kernel, slot, is_live, wake_parent, kill_slot, proc_kill, max_procs,
}

-- The loop of `proc_kill` finds slot `i`.
abbrev pub Finds : Kernel → ℕ → ℕ → Type 0
Finds k pid i = search (is_live k pid) 31 1 ≡ some i

pub proc_kill-Finds : (k : Kernel) (pid i : ℕ) → Finds k pid i → proc_kill pid k ≡ kill_slot i k
unfolding proc_kill
proc_kill-Finds k pid i h = rw (h, proc_kill) refl

-- A table of MAX_PROCS slots and states.
pub record IsTable (k : Kernel) : Type 0 where
  pub slots_size : length k.slots ≡ max_procs
  pub states_size : length k.files.procs ≡ max_procs

-- All fields but the queue.
abbrev pub SameSlot : Process → Process → Type 0
SameSlot p q = q ≡ record p { wait_children = q.wait_children }

pub SameSlot-then : (p q r : Process) → SameSlot p q → SameSlot q r → SameSlot p r
SameSlot-then p q r g h = h ∙ ap (λ (t : Process). record t { wait_children = r.wait_children }) g

pub set-SameSlot :
    (xs : List Process) (p j : ℕ) (q : Process)
    → SameSlot (get_or xs p zero_process) q
    → SameSlot (get_or xs j zero_process) (get_or (set xs p q) j zero_process)
set-SameSlot [] p j q h = refl
set-SameSlot (x ∷ xs) zero zero q h = h
set-SameSlot (x ∷ xs) zero (suc j) q h = refl
set-SameSlot (x ∷ xs) (suc p) zero q h = refl
set-SameSlot (x ∷ xs) (suc p) (suc j) q h = set-SameSlot xs p j q h

pub slot-wake_parent :
    (ppid : ℕ) (k : Kernel) (j : ℕ) → SameSlot (slot k j) (slot (wake_parent ppid k) j)
unfolding wake_parent
slot-wake_parent ppid k j = elim (Option-cases (search (is_live k ppid) max_procs 0)) [
  | inl e ↦ rw (e, wake_parent) refl
  | inr (p, e) ↦ rw (e, wake_parent) (set-SameSlot k.slots p j _ refl)
]

-- The directory and the register.
pub wake_parent-registers :
    (ppid : ℕ) (k : Kernel)
    → ((wake_parent ppid k).destroyed ≡ k.destroyed)
      × ((wake_parent ppid k).active_cr3 ≡ k.active_cr3)
      × ((wake_parent ppid k).files.table ≡ k.files.table)
unfolding wake_parent
wake_parent-registers ppid k = elim (Option-cases (search (is_live k ppid) max_procs 0)) [
  | inl e ↦ rw (e, wake_parent) (refl, refl, refl)
  | inr (p, e) ↦ rw (e, wake_parent) (refl, refl, refl)
]

pub set_here :
    (xs : List Process) (i : ℕ) (q : Process)
    → i < length xs
    → get_or (set xs i q) i zero_process ≡ q
set_here xs i q lt = ground (arith, get_or-set xs i i q zero_process)

pub set_apart :
    (xs : List Process) (i j : ℕ) (q : Process)
    → j ≢ i
    → get_or (set xs i q) j zero_process ≡ get_or xs j zero_process
set_apart [] i j q ne = refl
set_apart (x ∷ xs) zero zero q ne = absurd (ne refl)
set_apart (x ∷ xs) zero (suc j) q ne = refl
set_apart (x ∷ xs) (suc i) zero q ne = refl
set_apart (x ∷ xs) (suc i) (suc j) q ne = set_apart xs i j q (λ e. ne (ap suc e))
