-- ===== src/Lock/RwLock/Counting.antt =====
-- How many processes stand at a place of some kind.
use spike_os.Prelude.{
  ℕ, zero, suc, ◌+◌, ◌≤◌, ◌<◌, ◌≡◌, ◌≢◌, Bool, true, false, some, List, [], ◌∷◌, arith,
  if◌then◌else◌, get_elem?, set, replicate,
}
use spike_os.Lock.RwLock.System.{
  Place, outside, reading, want_write, park_write, asleep_write, writing,
}

abbrev pub is_reading : Place → Bool
is_reading reading = true
is_reading _ = false

abbrev pub is_writing : Place → Bool
is_writing writing = true
is_writing _ = false

-- Announced, and not yet writing.
abbrev pub is_pending : Place → Bool
is_pending want_write = true
is_pending park_write = true
is_pending asleep_write = true
is_pending _ = false

abbrev pub one_if : Bool → ℕ
one_if b = if b then 1 else 0

abbrev pub count : (Place → Bool) → List Place → ℕ
count kind [] = 0
count kind (p ∷ ps) = one_if (kind p) + count kind ps

pub count-set :
    (kind : Place → Bool) (ps : List Place) (i : ℕ) (p q : Place)
    → get_elem? ps i ≡ some p
    → count kind (set ps i q) + one_if (kind p) ≡ count kind ps + one_if (kind q)
count-set kind [] i p q h = ground arith
count-set kind (x ∷ ps) zero p q h = ground arith
count-set kind (x ∷ ps) (suc i) p q h = omega (arith, count-set kind ps i p q h)

pub count-replicate :
    (kind : Place → Bool) (n : ℕ) → kind outside ≡ false → count kind (replicate n outside) ≡ 0
count-replicate kind zero h = omega arith
count-replicate kind (suc n) h = rw h (omega (arith, count-replicate kind n h))

pub count-pos :
    (kind : Place → Bool) (ps : List Place) (i : ℕ) (p : Place)
    → get_elem? ps i ≡ some p
    → kind p ≡ true
    → 0 < count kind ps
count-pos kind [] i p h k = ground arith
count-pos kind (x ∷ ps) zero p h k = ground arith
count-pos kind (x ∷ ps) (suc i) p h k = omega (arith, count-pos kind ps i p h k)

-- Two processes of the kind are counted twice.
pub count-two :
    (kind : Place → Bool) (ps : List Place) (i j : ℕ) (p q : Place)
    → get_elem? ps i ≡ some p
    → get_elem? ps j ≡ some q
    → kind p ≡ true
    → kind q ≡ true
    → i ≢ j
    → 2 ≤ count kind ps
count-two kind [] i j p q hi hj kp kq ne = ground arith
count-two kind (x ∷ ps) zero zero p q hi hj kp kq ne = absurd (omega arith)
count-two kind (x ∷ ps) zero (suc j) p q hi hj kp kq ne = ground (arith, count-pos kind ps j q)
count-two kind (x ∷ ps) (suc i) zero p q hi hj kp kq ne = ground (arith, count-pos kind ps i p)
count-two kind (x ∷ ps) (suc i) (suc j) p q hi hj kp kq ne =
    omega (arith, count-two kind ps i j p q hi hj kp kq (λ e. ne (omega arith)))
