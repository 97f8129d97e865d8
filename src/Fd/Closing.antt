-- ===== src/Fd/Closing.antt =====
-- `fd_close` and `fd_close_all`: the reference counts.
use spike_os.Prelude.{
  ℕ, zero, suc, ◌≡◌, refl, false, Option, none, some, [], ◌∷◌, arith, length, get_or, set, ◌∙◌, ap,
  replicate,
}
use spike_os.Prelude.Int.{pos}
use spike_os.Fd.{FdTable, Files, release_open_file, fd_close, fd_close_all}
use spike_os.Fd.Counting.{Counted, plus, release-Counted, Counted-clear}

cleared : (xs : FdTable) (i : ℕ) → get_or (set xs i none) i none ≡ none
cleared [] i = refl
cleared (x ∷ xs) zero = refl
cleared (x ∷ xs) (suc i) = cleared xs i

-- `fd_close` keeps every reference count equal to the number of descriptors, and frees the descriptor;
-- on a descriptor that is not open it changes nothing and fails.
pub fd_close-Counted :
    (fd : ℕ) (other : ℕ → ℕ) (fds : FdTable) (f : Files)
    → Counted other fds f
    → let (done, fds', f') = fd_close fd fds f in
      Counted other fds' f'
      × (get_or fds' fd none ≡ none)
      × ((done ≡ false) → (fds' ≡ fds) × (f' ≡ f))
unfolding fd_close
fd_close-Counted fd other fds f c = go (get_or fds fd none) refl
  where
    go :
        (e : Option ℕ)
        → get_or fds fd none ≡ e
        → let (done, fds', f') = fd_close fd fds f in
          Counted other fds' f'
          × (get_or fds' fd none ≡ none)
          × ((done ≡ false) → (fds' ≡ fds) × (f' ≡ f))
    go none h = rw (h, fd_close) (c, h, λ d. (refl, refl))
    go (some k) h =
        rw (h, fd_close)
          (
            release-Counted k other (set fds fd none) f (Counted-clear fd k other fds f h c),
            cleared fds fd,
            λ d. absurd (ground arith),
          )

Counted-nothing :
    (other : ℕ → ℕ) (fds : FdTable) (f : Files) → Counted other fds f → Counted other (none ∷ fds) f
Counted-nothing other fds f c = record {
  size = c.size;
  counts = c.counts;
  idle = c.idle;
  busy = c.busy;
}

Counted-tail :
    (k : ℕ) (other : ℕ → ℕ) (fds : FdTable) (f : Files)
    → Counted other (some k ∷ fds) f
    → Counted (plus k other) fds f
Counted-tail k other fds f c = record {
  size = c.size;
  counts = λ i. c.counts i ∙ ap pos (omega arith);
  idle = λ i u. omega (arith, c.idle i u);
  busy = λ i b. omega (arith, c.busy i b);
}

-- `fd_close_all` closes every descriptor and keeps every reference count equal to the number of
-- descriptors that are left, those of the other processes.
pub fd_close_all-Counted :
    (other : ℕ → ℕ) (fds : FdTable) (f : Files)
    → Counted other fds f
    → let (fds', f') = fd_close_all fds f in
      Counted other fds' f' × (fds' ≡ replicate (length fds) none)
unfolding fd_close_all
fd_close_all-Counted other [] f c = (c, refl)
fd_close_all-Counted other (none ∷ fds) f c =
    let rest =
      fd_close_all-Counted other fds f
        (record { size = c.size; counts = c.counts; idle = c.idle; busy = c.busy }) in
    (Counted-nothing other _ _ rest.0, ap (λ t. none ∷ t) rest.1)
fd_close_all-Counted other (some k ∷ fds) f c =
    let rest =
      fd_close_all-Counted other fds (release_open_file k f)
        (release-Counted k other fds f (Counted-tail k other fds f c)) in
    (Counted-nothing other _ _ rest.0, ap (λ t. none ∷ t) rest.1)
