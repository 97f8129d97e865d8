-- ===== src/Scheduler/Pick.antt =====
-- What `pick_next` chooses, and that nobody starves.
use spike_os.Prelude.{
  ℕ, zero, suc, ◌+◌, ◌-◌, ◌≤◌, ◌<◌, ◌≡◌, refl, true, false, arith, ltb, if◌then◌else◌, inl, inr,
  ◌⊎◌, dec_lt, ℕ_discrete,
}
use spike_os.Prelude.Search.{search, Found, found, missing, search-Found}
use spike_os.Process.{Kernel, status, max_procs}
use spike_os.Scheduler.{is_ready, candidate, ready_at, pick_next}

-- In how many rounds the loop reaches slot `p`.
abbrev pub distance : ℕ → ℕ → ℕ
distance index p = if ltb index p then p - index else p + max_procs - index

candidate-distance :
    (index p : ℕ) → index < max_procs → p < max_procs → candidate index (distance index p) ≡ p
candidate-distance index p lt lt' = ground arith

-- The READY process that comes first behind `index`, or slot 0 where there is none.
pub data Picks (k : Kernel) (index : ℕ) (r : ℕ × ℕ) : Type 0 where
  picks :
      (q : ℕ)
      → q < max_procs
      → is_ready (status k q) ≡ true
      → ((p : ℕ)
          → p < max_procs
          → distance index p < distance index q
          → is_ready (status k p) ≡ false)
      → r ≡ (q, q)
      → Picks k index r
  idles :
      ((p : ℕ) → p < max_procs → is_ready (status k p) ≡ false) → r ≡ (0, index) → Picks k index r

distance-candidate :
    (index step : ℕ)
    → index < max_procs
    → 1 ≤ step
    → step < 1 + max_procs
    → distance index (candidate index step) ≡ step
distance-candidate index step lt ge le = ground arith

-- `pick_next` picks the READY process that comes first behind `sched_index`, round the table, and moves
-- `sched_index` to it; where no process is READY it picks slot 0 and leaves `sched_index`.
pub pick_next-Picks :
    (k : Kernel) (index : ℕ) → index < max_procs → Picks k index (pick_next k index)
unfolding pick_next ready_at
pick_next-Picks k index lt = go (search-Found (ready_at k index) max_procs 1)
  where
    seen :
        (p : ℕ)
        → p < max_procs
        → ready_at k index (distance index p) ≡ false
        → is_ready (status k p) ≡ false
    seen p lt' h = rw (← candidate-distance index p lt lt') h

    go :
        Found (ready_at k index) max_procs 1 (search (ready_at k index) max_procs 1)
        → Picks k index (pick_next k index)
    go (found step ge le t before e) =
        rw (e, pick_next)
          (picks (candidate index step) (omega arith) t
            (λ p lt' near. seen p lt' (
              before (distance index p) (ground arith)
                (omega (arith, near, distance-candidate index step lt ge le))))
            refl)
    go (missing all e) =
        rw (e, pick_next)
          (idles (λ p lt'. seen p lt' (all (distance index p) (ground arith) (ground arith))) refl)

-- A READY process is picked, or comes closer.
closer :
    (k : Kernel) (index p : ℕ)
    → index < max_procs
    → p < max_procs
    → is_ready (status k p) ≡ true
    → let (q, index') = pick_next k index in
      (index' < max_procs) × ((q ≡ p) ⊎ (distance index' p < distance index p))
closer k index p lt lt' r = go (pick_next-Picks k index lt)
  where
    nearer :
        (q : ℕ)
        → q < max_procs
        → ((x : ℕ)
            → x < max_procs
            → distance index x < distance index q
            → is_ready (status k x) ≡ false)
        → (q ≡ p) ⊎ (distance q p < distance index p)
    nearer q qlt before = elim (dec_lt (distance index p) (distance index q)) [
      | yes s ↦ absurd (ground (arith, before p lt' s, r))
      | no ge ↦ elim (ℕ_discrete q p) [ yes e ↦ inl e | no ne ↦ inr (ground arith) ]
    ]

    go :
        Picks k index (pick_next k index)
        → ((pick_next k index).1 < max_procs)
          × (((pick_next k index).0 ≡ p) ⊎ (distance (pick_next k index).1 p < distance index p))
    go (picks q qlt t before e) = rw e (qlt, nearer q qlt before)
    go (idles all e) = absurd (ground (arith, all p lt', r))

-- `sched_index` after `n` picks, in the states `ks`.
pub index_after : (ℕ → Kernel) → ℕ → ℕ → ℕ
index_after ks index zero = index
index_after ks index (suc n) = (pick_next (ks n) (index_after ks index n)).1

within :
    (ks : ℕ → Kernel) (index p : ℕ)
    → index < max_procs
    → p < max_procs
    → ((n : ℕ) → n < max_procs → is_ready (status (ks n) p) ≡ true)
    → (m : ℕ) → m ≤ max_procs
    → ((n : ℕ) × (n < m) × ((pick_next (ks n) (index_after ks index n)).0 ≡ p))
      ⊎ ((index_after ks index m < max_procs)
          × (distance (index_after ks index m) p + m ≤ distance index p))
unfolding index_after
within ks index p lt lt' r zero le = inr (lt, ground arith)
within ks index p lt lt' r (suc m) le = elim (within ks index p lt lt' r m (omega arith)) [
  | inl (n, nlt, e) ↦ inl (n, omega arith, e)
  | inr (inside, near) ↦
      let (next, c) = closer (ks m) (index_after ks index m) p inside lt' (r m (omega arith)) in
      elim c [ inl e ↦ inl (m, omega arith, e) | inr d ↦ inr (next, omega (arith, d, near)) ]
]

-- Nobody starves: a process that is READY at each of MAX_PROCS picks in a row, whatever else changes
-- between them, is picked by one of them.
pub no_starvation :
    (ks : ℕ → Kernel) (index p : ℕ)
    → index < max_procs
    → p < max_procs
    → ((n : ℕ) → n < max_procs → is_ready (status (ks n) p) ≡ true)
    → (n : ℕ) × (n < max_procs) × ((pick_next (ks n) (index_after ks index n)).0 ≡ p)
no_starvation ks index p lt lt' r = elim (within ks index p lt lt' r max_procs (omega arith)) [
  | inl found_at ↦ found_at
  | inr (inside, near) ↦ absurd (ground (arith, inside, near))
]
