-- ===== src/Process/Children.antt =====
-- `sys_waitpid` of kernel/core/syscall.c, a pass at a time, and what a pass reaps.
use spike_os.Prelude.{
  Bool, if◌then◌else◌, none, not, ◌&&◌, ◌==◌, ℕ, zero, suc, ◌≤◌, ◌<◌, ◌≡◌, ◌≢◌, refl, true, false,
  some, List, [], ◌∷◌, arith, length, get_or, set, set-set, ◌∙◌, ap,
}
use spike_os.Prelude.Int.{ℤ, pos, ltb_ℤ}
use spike_os.Prelude.Search.{search, Found, found, missing, search-Found, search-first}
use spike_os.Process.Slots.{set_here, set_apart}
use spike_os.Process.{Process, zero_process, Kernel, slot, put_slot, status, is_zombie, max_procs}

-- The zombie children that `sys_waitpid` reaps: a target that is not positive is any child.
unfoldable pub is_wanted : ℤ → Kernel → ℕ → Bool
is_wanted target k i =
    is_zombie (status k i)
    && ((slot k i).parent_pid == (slot k k.current).pid)
    && (if ltb_ℤ (pos 0) target then is_target target (slot k i).pid else true)
  where
    is_target : ℤ → ℕ → Bool
    is_target (pos n) pid = pid == n
    is_target _ pid = false

unfoldable pub is_living_child : Kernel → ℕ → Bool
is_living_child k i =
    ((slot k i).parent_pid == (slot k k.current).pid)
    && not (is_zombie (status k i))
    && not ((slot k i).pid == 0)

-- One pass of the loop of `sys_waitpid`: a child and its status, -1, or a sleep on `wait_children`.
pub data WaitPass : Type 0 where
  child : (pid : ℕ) → (code : ℤ) → Kernel → WaitPass
  no_children : WaitPass
  sleeps : WaitPass

unfoldable pub waitpid_pass : ℤ → Kernel → WaitPass
waitpid_pass target k = elim (search (is_wanted target k) 31 1) [
  | some i ↦
      child (slot k i).pid (slot k i).exit_status (put_slot k i (record (slot k i) { pid = 0 }))
  | none ↦ elim (search (is_living_child k) 31 1) [ some j ↦ sleeps | none ↦ no_children ]
]

-- The outcome of a pass, with the slot it is about.
pub data Waited (target : ℤ) (k : Kernel) : WaitPass → Type 0 where
  reaps :
      (i : ℕ)
      → 1 ≤ i
      → i < max_procs
      → is_wanted target k i ≡ true
      → ((j : ℕ) → 1 ≤ j → j < i → is_wanted target k j ≡ false)
      → Waited target k (
          child
            (slot k i).pid
            (slot k i).exit_status
            (put_slot k i (record (slot k i) { pid = 0 })))
  waits :
      ((j : ℕ) → 1 ≤ j → j < max_procs → is_wanted target k j ≡ false)
      → (i : ℕ) → 1 ≤ i
      → i < max_procs
      → is_living_child k i ≡ true
      → Waited target k sleeps
  alone :
      ((j : ℕ) → 1 ≤ j → j < max_procs → is_wanted target k j ≡ false)
      → ((j : ℕ) → 1 ≤ j → j < max_procs → is_living_child k j ≡ false)
      → Waited target k no_children

-- A pass of `waitpid` reaps the first zombie child that the target names, sleeps if there is none but a
-- child lives, and fails if no child lives either.
pub waitpid_pass-Waited : (target : ℤ) (k : Kernel) → Waited target k (waitpid_pass target k)
unfolding waitpid_pass
waitpid_pass-Waited target k =
    go (search-Found (is_wanted target k) 31 1) (search-Found (is_living_child k) 31 1)
  where
    go :
        Found (is_wanted target k) 31 1 (search (is_wanted target k) 31 1)
        → Found (is_living_child k) 31 1 (search (is_living_child k) 31 1)
        → Waited target k (waitpid_pass target k)
    go (found i le lt t before e) living = rw (e, waitpid_pass) (reaps i le lt t before)
    go (missing all e) (found i le lt t before e') =
        rw (e, waitpid_pass) (rw (e', waitpid_pass) (waits all i le lt t))
    go (missing all e) (missing all' e') =
        rw (e, waitpid_pass) (rw (e', waitpid_pass) (alone all all'))

set-parent :
    (xs : List Process) (i j : ℕ)
    → (get_or (set xs i (record (get_or xs i zero_process) { pid = 0 })) j zero_process).parent_pid
      ≡ (get_or xs j zero_process).parent_pid
set-parent [] i j = refl
set-parent (x ∷ xs) zero zero = refl
set-parent (x ∷ xs) zero (suc j) = refl
set-parent (x ∷ xs) (suc i) zero = refl
set-parent (x ∷ xs) (suc i) (suc j) = set-parent xs i j

-- The slot without its pid.
abbrev without_pid : Kernel → ℕ → Kernel
without_pid k i = put_slot k i (record (slot k i) { pid = 0 })

is_wanted-zombie :
    (target : ℤ) (k : Kernel) (i : ℕ) → is_wanted target k i ≡ true → is_zombie (status k i) ≡ true
unfolding is_wanted
is_wanted-zombie target k i t = ground arith

wanted_again :
    (target : ℤ) (k : Kernel) (i j : ℕ)
    → ltb_ℤ (pos 0) target ≡ false
    → k.current ≢ i
    → is_wanted target (without_pid k i) j ≡ is_wanted target k j
unfolding is_wanted
wanted_again target k i j any ne =
    let p = set-parent k.slots i j in
    let c = set_apart k.slots i k.current (record (slot k i) { pid = 0 }) ne in rw (any, p, c) refl

-- A reaped slot keeps its state and its parent, so that it is reaped again: where a pass of `waitpid`
-- for any child reaps a child, and the caller is no zombie, the next pass reaps the same slot, and returns pid
-- 0 and the same status.
pub reaped_twice :
    (target : ℤ) (k : Kernel) (i : ℕ)
    → length k.slots ≡ max_procs
    → is_zombie (status k k.current) ≡ false
    → ltb_ℤ (pos 0) target ≡ false
    → search (is_wanted target k) 31 1 ≡ some i
    → let k' = put_slot k i (record (slot k i) { pid = 0 }) in
      (waitpid_pass target k ≡ child (slot k i).pid (slot k i).exit_status k')
      × (waitpid_pass target k' ≡ child 0 (slot k i).exit_status k')
unfolding waitpid_pass
reaped_twice target k i size alive any h = go (search-Found (is_wanted target k) 31 1)
  where
    k' : Kernel
    k' = without_pid k i

    go :
        Found (is_wanted target k) 31 1 (search (is_wanted target k) 31 1)
        → (waitpid_pass target k ≡ child (slot k i).pid (slot k i).exit_status k')
          × (waitpid_pass target k' ≡ child 0 (slot k i).exit_status k')
    go (missing all e) = absurd (ground (arith, e, h))
    go (found j le lt t before e) =
        let same : j ≡ i = ground (arith, e, h) in
        let ne : k.current ≢ i = λ c. absurd (
          ground (
            arith,
            ap (λ x. is_zombie (status k x)) c,
            ap (λ x. is_zombie (status k x)) same,
            is_wanted-zombie target k j t,
            alive,
          )) in
        let again : search (is_wanted target k') 31 1 ≡ some i =
          search-first (is_wanted target k') 31 1 i (omega (arith, le, same))
            (omega (arith, lt, same)) (wanted_again target k i i any ne ∙ rw (← same) t)
            (λ x xle xlt. wanted_again target k i x any ne ∙ before x xle (omega arith)) in
        let here =
          set_here k.slots i (record (slot k i) { pid = 0 }) (omega (arith, size, lt, same)) in
        (
          rw (h, waitpid_pass) refl,
          rw (again, waitpid_pass)
              (rw here (
                ap (λ (xs : List Process). child 0 (slot k i).exit_status (record k { slots = xs }))
                  (set-set k.slots i _ _))),
        )
