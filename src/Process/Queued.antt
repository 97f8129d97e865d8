-- ===== src/Process/Queued.antt =====
-- The queues that hold a process, and the wake-ups that reach it through them.
use spike_os.Prelude.{
  ℕ, zero, suc, ◌≡◌, ◌≢◌, refl, true, false, Option, none, some, List, [], ◌∷◌, arith, ◌==◌, get_or,
  set, Bool-cases, inl, inr, ◌⊎◌, ◌∙◌, sym, ap, ℕ_discrete,
}
use spike_os.Prelude.Search.{search}
use spike_os.Pipe.{Pipe, zero_pipe}
use spike_os.Wait.{ProcState, wake_loop, ready, States, WaitQueue, state_of, wake_up_all}
use spike_os.Wait.Laws.{queued}
use spike_os.Fd.{pipe_at, Files}
use spike_os.Process.{
  Process, zero_process, Kernel, slot, status, is_live, wake_parent, free_space, max_procs,
}
use spike_os.Process.Wakes.{wake_loop-OnlyWakes}

-- A queue of a pipe holds the process.
pub data Waits (i : ℕ) (f : Files) : Type 0 where
  to_read : (n : ℕ) → queued i (pipe_at f n).read_wq ≡ true → Waits i f
  to_write : (n : ℕ) → queued i (pipe_at f n).write_wq ≡ true → Waits i f

-- A queue of a pipe, or one for the end of a child.
pub data Sleeps (i : ℕ) (k : Kernel) : Type 0 where
  on_pipe : Waits i k.files → Sleeps i k
  on_child : (j : ℕ) → queued i (slot k j).wait_children ≡ true → Sleeps i k

state-set :
    (ps : States) (p i : ℕ) (s : ProcState) → p ≢ i → state_of (set ps p s) i ≡ state_of ps i
state-set [] p i s ne = refl
state-set (x ∷ ps) zero zero s ne = absurd (ne refl)
state-set (x ∷ ps) zero (suc i) s ne = refl
state-set (x ∷ ps) (suc p) zero s ne = refl
state-set (x ∷ ps) (suc p) (suc i) s ne = state-set ps p i s (λ e. ne (ap suc e))

abbrev pub Woken : (i : ℕ) → WaitQueue → States → States → Type 0
Woken i wq ps ps' =
    (state_of ps' i ≡ state_of ps i) ⊎ ((state_of ps' i ≡ ready) × (queued i wq ≡ true))

pub wake_loop-Woken :
    (i : ℕ) (wq : WaitQueue) (ps : States) (count : ℕ) → Woken i wq ps (wake_loop wq ps count).2
unfolding wake_loop
wake_loop-Woken i [] ps count = inl refl
wake_loop-Woken i (p ∷ wq) ps count = elim (ℕ_discrete p i) [
  | yes same ↦
      let held : queued i (p ∷ wq) ≡ true = ground (arith, same) in
      elim (wake_loop-OnlyWakes (p ∷ wq) ps count i) [ inl e ↦ inl e | inr e ↦ inr (e, held) ]
  | no ne ↦
      let off : (p == i) ≡ false = ground (arith, ne) in
      elim (wake_loop-Woken i wq (set ps p ready) (suc count)) [
        | inl e ↦ inl (e ∙ state-set ps p i ready ne)
        | inr (e, q) ↦ inr (e, rw off q)
      ]
]

pub drained : (wq : WaitQueue) (ps : States) (count : ℕ) → (wake_loop wq ps count).1 ≡ []
unfolding wake_loop
drained [] ps count = refl
drained (p ∷ wq) ps count = drained wq (set ps p ready) (suc count)

pub pool-pipe_at : (f f' : Files) (n : ℕ) → f'.pool ≡ f.pool → pipe_at f' n ≡ pipe_at f n
unfolding zero_pipe
pool-pipe_at f f' n p = ap (λ (ps : List Pipe). get_or ps n zero_pipe) p

pub Waits-pool : (i : ℕ) (f f' : Files) → f'.pool ≡ f.pool → Waits i f' → Waits i f
Waits-pool i f f' p (to_read n q) =
    to_read n (ap (λ (r : Pipe). queued i r.read_wq) (sym (pool-pipe_at f f' n p)) ∙ q)
Waits-pool i f f' p (to_write n q) =
    to_write n (ap (λ (r : Pipe). queued i r.write_wq) (sym (pool-pipe_at f f' n p)) ∙ q)

-- A change of a slot that leaves its queue.
pub set-children :
    (ps : List Process) (p j : ℕ) (q : Process)
    → q.wait_children ≡ (get_or ps p zero_process).wait_children
    → (get_or (set ps p q) j zero_process).wait_children ≡ (get_or ps j zero_process).wait_children
set-children [] p j q h = refl
set-children (x ∷ ps) zero zero q h = h
set-children (x ∷ ps) zero (suc j) q h = refl
set-children (x ∷ ps) (suc p) zero q h = refl
set-children (x ∷ ps) (suc p) (suc j) q h = set-children ps p j q h

pub free_space-children :
    (i : ℕ) (k : Kernel) (j : ℕ)
    → (slot (free_space i k) j).wait_children ≡ (slot k j).wait_children
unfolding free_space
free_space-children i k j = elim (Bool-cases ((slot k i).cr3 == 0)) [
  | inl e ↦ rw (e, free_space) refl
  | inr e ↦ rw (e, free_space) (set-children k.slots i j (record (slot k i) { cr3 = 0 }) refl)
]

pub wake_parent-Woken :
    (ppid i : ℕ) (k : Kernel)
    → (status (wake_parent ppid k) i ≡ status k i)
      ⊎ ((status (wake_parent ppid k) i ≡ ready)
          × ((j : ℕ) × (queued i (slot k j).wait_children ≡ true)))
unfolding wake_parent wake_up_all
wake_parent-Woken ppid i k = go (search (is_live k ppid) max_procs 0) refl
  where
    go :
        (r : Option ℕ)
        → search (is_live k ppid) max_procs 0 ≡ r
        → (status (wake_parent ppid k) i ≡ status k i)
          ⊎ ((status (wake_parent ppid k) i ≡ ready)
              × ((j : ℕ) × (queued i (slot k j).wait_children ≡ true)))
    go none e = rw (e, wake_parent) (inl refl)
    go (some p) e =
        rw (e, wake_parent)
          (elim (wake_loop-Woken i (slot k p).wait_children k.files.procs 0) [
            | inl s ↦ inl s
            | inr (s, q) ↦ inr (s, (p, q))
          ])
