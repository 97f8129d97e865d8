-- ===== src/Process/Pending.antt =====
-- The set of pending signals, as `proc_signal` adds to it and `signal_check_pending` takes the first.
use Prim.Native.Nat.{bit_or}
use spike_os.Prelude.{
  ℕ, zero, suc, ◌-◌, ◌*◌, ◌^◌, ◌≤◌, ◌<◌, ◌≡◌, refl, true, false, not, ◌||◌, arith, ◌==◌,
}
use spike_os.Prelude.Bits.{bit, bit-lt, bit-bit_or, bit-pow, bit_and-pow}
use native.Mathlib.Nat.{one-le-pow}
use spike_os.Prelude.Search.{search, Found, found, missing, search-Found}
use spike_os.Process.Send.{nsig, sig_bit, has_signal, first_signal}

pub scaled : (b x : ℕ) → b < 2 → 1 ≤ x → not (b * x == 0) ≡ not (b == 0)
scaled zero x lt le = ground arith
scaled (suc zero) x lt le = ground arith
scaled (suc (suc b)) x lt le = absurd (omega arith)

-- A signal is in the set when its bit is.
pub has_signal-bit : (sigs i : ℕ) → has_signal sigs i ≡ not (bit sigs (i - 1) == 0)
unfolding has_signal
has_signal-bit sigs i = rw (bit_and-pow sigs (i - 1)) (
    scaled (bit sigs (i - 1)) (2 ^ (i - 1)) (bit-lt sigs (i - 1))
      (one-le-pow (i - 1) 2 (omega arith)))

-- Whether a signal is in a set to which one was added.
pub has_signal-added :
    (sigs sig i : ℕ)
    → 1 ≤ sig
    → 1 ≤ i
    → has_signal (bit_or sigs (sig_bit sig)) i ≡ (has_signal sigs i || (i == sig))
has_signal-added sigs sig i p q = ground (
  arith,
  has_signal-bit (bit_or sigs (sig_bit sig)) i,
  has_signal-bit sigs i,
  bit-bit_or sigs (sig_bit sig) (i - 1),
  bit-pow (sig - 1) (i - 1),
  bit-lt sigs (i - 1),
)

-- The smallest signal of a set.
pub data Smallest (sigs r : ℕ) : Type 0 where
  smallest :
      1 ≤ r
      → r < nsig
      → has_signal sigs r ≡ true
      → ((j : ℕ) → 1 ≤ j → j < r → has_signal sigs j ≡ false)
      → Smallest sigs r
  nothing : r ≡ 0 → ((j : ℕ) → 1 ≤ j → j < nsig → has_signal sigs j ≡ false) → Smallest sigs r

pub first_signal-Smallest : (sigs : ℕ) → Smallest sigs (first_signal sigs)
unfolding first_signal
first_signal-Smallest sigs = go (search-Found (has_signal sigs) 31 1)
  where
    go :
        Found (has_signal sigs) 31 1 (search (has_signal sigs) 31 1)
        → Smallest sigs (first_signal sigs)
    go (found k le lt t before e) = rw (e, first_signal) (smallest le lt t before)
    go (missing all e) = rw (e, first_signal) (nothing refl all)
