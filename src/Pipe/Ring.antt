-- ===== src/Pipe/Ring.antt =====
-- The ring of a pipe stands for a queue of bytes, oldest first.
use spike_os.Prelude.{
  ℕ, zero, suc, ◌+◌, ◌-◌, ◌%◌, ◌≤◌, ◌<◌, ◌≡◌, ◌≢◌, refl, ap, ◌∙◌, sym, List, [], ◌∷◌, ◌++◌, arith,
  ◌==◌, ltb, length, get_or, set, length-set, get_or-set, take, Bool-cases, inl, inr,
}
use Prim.Native.Nat.{min}
use mathlib.Core.List.{append-nil, append_assoc}
use spike_os.Prelude.Int.{pos, ◌-ℤ◌}
use spike_os.Pipe.{
  Pipe, World, none_left, close_reader, close_writer, buf_size, put_byte, drop_byte, drain, fill,
}

-- The `n` bytes from place `at` on, going round at the end of the buffer.
abbrev pub stored : List ℕ → ℕ → ℕ → List ℕ
stored buf at zero = []
stored buf at (suc n) = get_or buf at 0 ∷ stored buf ((at + 1) % buf_size) n

abbrev pub contents : Pipe → List ℕ
contents p = stored p.buf p.read_pos p.count

pub record IsValid (p : Pipe) : Type 0 where
  pub room : length p.buf ≡ buf_size
  pub reads_at : p.read_pos < buf_size
  pub fits : p.count ≤ buf_size
  pub writes_at : p.write_pos ≡ (p.read_pos + p.count) % buf_size

length-stored : (buf : List ℕ) (at n : ℕ) → length (stored buf at n) ≡ n
length-stored buf at zero = refl
length-stored buf at (suc n) = ap suc (length-stored buf ((at + 1) % buf_size) n)

pub length-contents : (p : Pipe) → length (contents p) ≡ p.count
length-contents p = length-stored p.buf p.read_pos p.count

-- A write just behind the stored bytes adds one at their end.
stored-set :
    (n : ℕ) (buf : List ℕ) (at end b : ℕ)
    → length buf ≡ buf_size
    → at < buf_size
    → n < buf_size
    → end ≡ (at + n) % buf_size
    → stored (set buf end b) at (suc n) ≡ stored buf at n ++ (b ∷ [])
stored-set zero buf at end b room in_at few e =
    let same : end ≡ at = omega arith in rw same (ground (arith, get_or-set buf at at b 0))
stored-set (suc n) buf at end b room in_at few e =
    let other : get_or (set buf end b) at 0 ≡ get_or buf at 0 =
      ground (arith, get_or-set buf end at b 0) in
    rw (
      other,
      stored-set n buf ((at + 1) % buf_size) end b room (omega arith) (omega arith) (omega arith),
    )

pub put_byte-IsValid : {p : Pipe} (b : ℕ) → IsValid p → p.count < buf_size → IsValid (put_byte b p)
unfolding put_byte
put_byte-IsValid {p} b v few = record {
  room = length-set p.buf p.write_pos b ∙ v.room;
  reads_at = v.reads_at;
  fits = omega arith;
  writes_at = omega arith;
}

pub contents-put_byte :
    {p : Pipe} (b : ℕ)
    → IsValid p
    → p.count < buf_size
    → contents (put_byte b p) ≡ contents p ++ (b ∷ [])
unfolding put_byte
contents-put_byte {p} b v few =
    let e : p.count + 1 ≡ suc p.count = omega arith in
    rw e (stored-set p.count p.buf p.read_pos p.write_pos b v.room v.reads_at few v.writes_at)

-- `stored` matches on `suc`, the code tests `count` and subtracts.
stored-pos :
    (buf : List ℕ) (at n : ℕ)
    → n ≢ 0
    → stored buf at n ≡ get_or buf at 0 ∷ stored buf ((at + 1) % buf_size) (n - 1)
stored-pos buf at zero h = absurd (h refl)
stored-pos buf at (suc n) h = let e : suc n - 1 ≡ n = omega arith in rw e

pub drop_byte-IsValid : {p : Pipe} → IsValid p → p.count ≢ 0 → IsValid (drop_byte p)
unfolding drop_byte
drop_byte-IsValid v some_left = omega arith

pub contents-drop_byte :
    (p : Pipe) → p.count ≢ 0 → contents p ≡ get_or p.buf p.read_pos 0 ∷ contents (drop_byte p)
unfolding drop_byte
contents-drop_byte p some_left = stored-pos p.buf p.read_pos p.count some_left

pub take-nil : (n : ℕ) → take {A = ℕ} n [] ≡ []
take-nil zero = refl
take-nil (suc n) = refl

-- What a copy leaves alone.
pub record SameEnds (p q : Pipe) : Type 0 where
  pub readers : q.readers ≡ p.readers
  pub writers : q.writers ≡ p.writers
  pub read_wq : q.read_wq ≡ p.read_wq
  pub write_wq : q.write_wq ≡ p.write_wq

pub record Drained (n : ℕ) (p : Pipe) (r : List ℕ × Pipe) : Type 0 where
  pub valid : IsValid r.1
  pub bytes : r.0 ++ contents r.1 ≡ contents p
  pub number : length r.0 ≡ min n p.count
  pub left : r.1.count + length r.0 ≡ p.count
  pub ends : SameEnds p r.1

-- The copy loop of `pipe_read` takes the oldest bytes, as many as are wanted and there are.
pub drain-Drained : (n : ℕ) (p : Pipe) → IsValid p → Drained n p (drain n p)
unfolding drain drop_byte
drain-Drained zero p v = record {
  valid = v;
  bytes = refl;
  number = omega arith;
  left = omega arith;
  ends = record { readers = refl; writers = refl; read_wq = refl; write_wq = refl };
}
drain-Drained (suc n) p v = elim (Bool-cases (p.count == 0)) [
  | inl empty ↦ rw empty (record {
    valid = v;
    bytes = refl;
    number = ground arith;
    left = omega arith;
    ends = record { readers = refl; writers = refl; read_wq = refl; write_wq = refl };
  })
  | inr some_left ↦
      let pos : p.count ≢ 0 = ground arith in
      let d = drain-Drained n (drop_byte p) (drop_byte-IsValid v pos) in
      rw some_left (record {
        valid = d.valid;
        bytes = ap (λ bs. get_or p.buf p.read_pos 0 ∷ bs) d.bytes ∙ sym (contents-drop_byte p pos);
        number = omega (arith, d.number);
        left = omega (arith, d.left);
        ends = record {
          readers = d.ends.readers;
          writers = d.ends.writers;
          read_wq = d.ends.read_wq;
          write_wq = d.ends.write_wq;
        };
      })
]

pub record Filled (bs : List ℕ) (p : Pipe) (r : List ℕ × Pipe) : Type 0 where
  pub valid : IsValid r.1
  pub bytes : contents r.1 ++ r.0 ≡ contents p ++ bs
  pub number : r.1.count ≡ min (p.count + length bs) buf_size
  pub left : r.1.count + length r.0 ≡ p.count + length bs
  pub added : contents r.1 ≡ contents p ++ take (length bs - length r.0) bs
  pub ends : SameEnds p r.1

-- The copy loop of `pipe_write` adds the first bytes in order, as many as fit.
pub fill-Filled : (bs : List ℕ) (p : Pipe) → IsValid p → Filled bs p (fill bs p)
unfolding fill put_byte
fill-Filled [] p v = record {
  valid = v;
  bytes = refl;
  number = omega (arith, v.fits);
  left = omega arith;
  added = rw (take-nil, append-nil);
  ends = record { readers = refl; writers = refl; read_wq = refl; write_wq = refl };
}
fill-Filled (b ∷ bs) p v = elim (Bool-cases (ltb p.count buf_size)) [
  | inr full ↦ rw full (record {
    valid = v;
    bytes = refl;
    number = ground (arith, v.fits);
    left = omega arith;
    added =
        let none_in : length (b ∷ bs) - length (b ∷ bs) ≡ 0 = omega arith in
        rw (none_in, append-nil);
    ends = record { readers = refl; writers = refl; read_wq = refl; write_wq = refl };
  })
  | inl space ↦
      let few : p.count < buf_size = ground arith in
      let f = fill-Filled bs (put_byte b p) (put_byte-IsValid b v few) in
      rw space (record {
        valid = f.valid;
        bytes =
            f.bytes
            ∙ ap (λ cs. cs ++ bs) (contents-put_byte b v few)
            ∙ append_assoc (contents p) (b ∷ []) bs;
        number = omega (arith, f.number);
        left = omega (arith, f.left);
        added =
            let k = length (fill bs (put_byte b p)).0 in
            let one_more : suc (length bs) - k ≡ suc (length bs - k) =
              omega (arith, f.left, f.number) in
            rw one_more (
              f.added
              ∙ ap (λ cs. cs ++ take (length bs - k) bs) (contents-put_byte b v few)
              ∙ append_assoc (contents p) (b ∷ []) (take (length bs - k) bs));
        ends = record {
          readers = f.ends.readers;
          writers = f.ends.writers;
          read_wq = f.ends.read_wq;
          write_wq = f.ends.write_wq;
        };
      })
]

-- Closing an end leaves the bytes alone.
pub close_reader-same :
    (w : World)
    → IsValid w.pipe
    → IsValid (close_reader w).pipe × (contents (close_reader w).pipe ≡ contents w.pipe)
unfolding close_reader
close_reader-same w v = elim (Bool-cases (none_left (w.pipe.readers -ℤ pos 1))) [
  | inl last ↦ rw last (omega (arith, v), refl)
  | inr others ↦ rw others (omega (arith, v), refl)
]

pub close_writer-same :
    (w : World)
    → IsValid w.pipe
    → IsValid (close_writer w).pipe × (contents (close_writer w).pipe ≡ contents w.pipe)
unfolding close_writer
close_writer-same w v = elim (Bool-cases (none_left (w.pipe.writers -ℤ pos 1))) [
  | inl last ↦ rw last (omega (arith, v), refl)
  | inr others ↦ rw others (omega (arith, v), refl)
]
