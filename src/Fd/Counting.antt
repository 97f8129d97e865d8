-- ===== src/Fd/Counting.antt =====
-- Reference counts: the count of an open file is the number of descriptors that name it.
use spike_os.Prelude.{
  ℕ, zero, suc, ◌+◌, ◌≤◌, ◌<◌, ◌≡◌, refl, Bool, true, false, none, some, [], ◌∷◌, arith, ◌==◌,
  if◌then◌else◌, leb, length, get_or, set, length-set, get_or-set, get_or-default, ◌∙◌, sym, ap,
  dec_lt,
}
use spike_os.Prelude.Int.{pos, ◌-ℤ◌}
use spike_os.Pipe.{none_left}
use spike_os.Fd.{
  OpenFile, zero_file, max_open_files, is_unused, FdTable, Files, file_at, put_file, close_end,
  release_open_file,
}

abbrev pub one_if : Bool → ℕ
one_if b = if b then 1 else 0

-- How many entries of a descriptor table name open file `i`.
abbrev pub refs : ℕ → FdTable → ℕ
refs i [] = 0
refs i (none ∷ fds) = refs i fds
refs i (some j ∷ fds) = one_if (j == i) + refs i fds

refs-set :
    (i fd k : ℕ) (fds : FdTable)
    → fd < length fds
    → get_or fds fd (some 0) ≡ none
    → refs i (set fds fd (some k)) ≡ one_if (k == i) + refs i fds
refs-set i fd k [] lt h = elim lt [ ]
refs-set i zero k (none ∷ fds) lt h = refl
refs-set i zero k (some j ∷ fds) lt h = absurd (ground arith)
refs-set i (suc fd) k (none ∷ fds) lt h = refs-set i fd k fds (omega arith) h
refs-set i (suc fd) k (some j ∷ fds) lt h = omega (arith, refs-set i fd k fds (omega arith) h)

pub refs-clear :
    (i fd k : ℕ) (fds : FdTable)
    → get_or fds fd none ≡ some k
    → one_if (k == i) + refs i (set fds fd none) ≡ refs i fds
refs-clear i fd k [] h = absurd (ground arith)
refs-clear i zero k (none ∷ fds) h = absurd (ground arith)
refs-clear i zero k (some j ∷ fds) h = let e : j ≡ k = ground arith in rw e
refs-clear i (suc fd) k (none ∷ fds) h = refs-clear i fd k fds h
refs-clear i (suc fd) k (some j ∷ fds) h = omega (arith, refs-clear i fd k fds h)

-- `other` counts the descriptors of the other processes, and what is on its way to a table.
pub record Counted (other : ℕ → ℕ) (fds : FdTable) (f : Files) : Type 0 where
  pub size : length f.table ≡ max_open_files
  pub counts : (i : ℕ) → (file_at f i).refcount ≡ pos (refs i fds + other i)
  pub idle : (i : ℕ) → is_unused (file_at f i).kind ≡ true → refs i fds + other i ≡ 0
  pub busy : (i : ℕ) → is_unused (file_at f i).kind ≡ false → 1 ≤ refs i fds + other i

-- The pool and the processes do not count.
pub Counted-table :
    (other : ℕ → ℕ) (fds : FdTable) (f g : Files)
    → g.table ≡ f.table
    → Counted other fds f
    → Counted other fds g
Counted-table other fds f g e c = record {
  size = rw e c.size;
  counts = λ i. rw e (c.counts i);
  idle = λ i. rw e (c.idle i);
  busy = λ i. rw e (c.busy i);
}

-- One more descriptor than `other`, for open file `k`.
abbrev pub plus : ℕ → (ℕ → ℕ) → ℕ → ℕ
plus k other i = one_if (k == i) + other i

table-close_end : (of : OpenFile) (f : Files) → (close_end of f).table ≡ f.table
unfolding close_end
table-close_end of f = ground arith

-- A named file is in the table.
pub in_table :
    (k : ℕ) (other : ℕ → ℕ) (fds : FdTable) (f : Files)
    → Counted (plus k other) fds f
    → k < max_open_files
in_table k other fds f c = elim (dec_lt k max_open_files) [
  | yes lt ↦ lt
  | no ge ↦
      absurd
        (ground (arith, c.counts k, get_or-default f.table k zero_file (omega (arith, c.size))))
]

-- A count above one falls by one, and nothing else changes.
pub release-shared :
    (k n : ℕ) (f : Files)
    → k < max_open_files
    → (file_at f k).refcount ≡ pos (suc (suc n))
    → release_open_file k f ≡ put_file f k (record (file_at f k) { refcount = pos (suc n) })
unfolding release_open_file ◌-ℤ◌
release-shared k n f lt e =
    let inside : leb max_open_files k ≡ false = ground arith in
    let down : pos (suc (suc n)) -ℤ pos 1 ≡ pos (suc n) = ground arith in
    let stays : none_left (pos (suc n)) ≡ false = ground arith in rw (inside, e, down, stays)

-- The last reference closes the pipe end, if it is one, and clears the slot.
release-last :
    (k : ℕ) (f : Files)
    → k < max_open_files
    → (file_at f k).refcount ≡ pos 1
    → release_open_file k f ≡ put_file (close_end (file_at f k) f) k zero_file
unfolding release_open_file ◌-ℤ◌
release-last k f lt e = let inside : leb max_open_files k ≡ false = ground arith in rw (inside, e)

module _ (k : ℕ) (other : ℕ → ℕ) (fds : FdTable) (f : Files)
    (c : Counted (plus k other) fds f) where
  -- The table with slot `k` written, where the count of `k` is one less.
  written :
      (of : OpenFile) (g : Files)
      → g.table ≡ f.table
      → of.refcount ≡ pos (refs k fds + other k)
      → (is_unused of.kind ≡ true → refs k fds + other k ≡ 0)
      → (is_unused of.kind ≡ false → 1 ≤ refs k fds + other k)
      → Counted other fds (put_file g k of)
  written of g same count idle busy = record {
    size = length-set g.table k of ∙ ap length same ∙ c.size;
    counts = λ i.
        ground (
          arith,
          get_or-set g.table k i of zero_file,
          c.counts i,
          c.size,
          in_table k other fds f c,
        );
    idle = λ i.
        ground
          (arith, get_or-set g.table k i of zero_file, c.idle i, c.size, in_table k other fds f c);
    busy = λ i.
        ground
          (arith, get_or-set g.table k i of zero_file, c.busy i, c.size, in_table k other fds f c);
  }

-- `release_open_file` takes one reference away, and frees the slot with the last one.
pub release-Counted :
    (k : ℕ) (other : ℕ → ℕ) (fds : FdTable) (f : Files)
    → Counted (plus k other) fds f
    → Counted other fds (release_open_file k f)
release-Counted k other fds f c = go (refs k fds + other k) refl
  where
    lt : k < max_open_files
    lt = in_table k other fds f c

    go : (n : ℕ) → refs k fds + other k ≡ n → Counted other fds (release_open_file k f)
    go zero e =
        let one : (file_at f k).refcount ≡ pos 1 = ground (arith, c.counts k) in
        rw (release-last k f lt one) (
          written k other fds f c zero_file (close_end (file_at f k) f)
            (table-close_end (file_at f k) f) (ap pos (sym e)) (λ u. e)
            (λ b. absurd (ground arith)))
    go (suc n) e =
        let two : (file_at f k).refcount ≡ pos (suc (suc n)) = ground (arith, c.counts k) in
        rw (release-shared k n f lt two) (
          written k other fds f c (record (file_at f k) { refcount = pos (suc n) }) f refl
            (ap pos (sym e)) (λ u. absurd (ground (arith, c.idle k))) (λ b. omega (arith, e)))

-- Taking an entry out of a table leaves its reference to be released.
pub Counted-clear :
    (fd k : ℕ) (other : ℕ → ℕ) (fds : FdTable) (f : Files)
    → get_or fds fd none ≡ some k
    → Counted other fds f
    → Counted (plus k other) (set fds fd none) f
Counted-clear fd k other fds f h c = record {
  size = c.size;
  counts = λ i. c.counts i ∙ ap pos (omega (arith, refs-clear i fd k fds h));
  idle = λ i u. omega (arith, refs-clear i fd k fds h, c.idle i u);
  busy = λ i b. omega (arith, refs-clear i fd k fds h, c.busy i b);
}

-- Putting a reference into a free entry.
pub Counted-install :
    (fd k : ℕ) (other : ℕ → ℕ) (fds : FdTable) (f : Files)
    → fd < length fds
    → get_or fds fd (some 0) ≡ none
    → Counted (plus k other) fds f
    → Counted other (set fds fd (some k)) f
Counted-install fd k other fds f lt h c = record {
  size = c.size;
  counts = λ i. c.counts i ∙ ap pos (omega (arith, refs-set i fd k fds lt h));
  idle = λ i u. omega (arith, refs-set i fd k fds lt h, c.idle i u);
  busy = λ i b. omega (arith, refs-set i fd k fds lt h, c.busy i b);
}
