-- ===== src/Spikefs/Blocks.antt =====
-- Consecutive blocks that were written are read back.
use Prim.Native.Nat.{min}
use spike_os.Prelude.{
  ◌⊎◌, ℕ, zero, suc, ◌+◌, ◌-◌, ◌*◌, ◌≤◌, ◌<◌, ◌≡◌, ◌≢◌, refl, true, false, some, List, [], ◌∷◌,
  ◌++◌, ◌==◌, if◌then◌else◌, length, take, drop, replicate, arith, ◌∙◌, ap, sym, inl, inr,
  Bool-cases, length-take, length-drop,
}
use mathlib.Core.Path.{subst}
use mathlib.Core.Option.{some-injective, none-ne-some}
use spike_os.Net.{Bytes}
use spike_os.Spikefs.{
  Disk, read_sector, write_sector, block_of, write_direct, run_from, prepend, read_direct,
}

-- The sectors outside of a range, and which fail, are the same.
pub record Same (from n : ℕ) (d d' : Disk) : Type 0 where
  pub faults : (l : ℕ) → d'.bad l ≡ d.bad l
  pub other : (l : ℕ) → (l < from) ⊎ (from + n ≤ l) → d'.sectors l ≡ d.sectors l

take-zero {ℓ} : {A : Type ℓ} (xs : List A) → take 0 xs ≡ []
take-zero xs = refl

drop-nil {ℓ} : {A : Type ℓ} (n : ℕ) → drop {A = A} n [] ≡ []
drop-nil zero = refl
drop-nil (suc n) = refl

take-nil {ℓ} : {A : Type ℓ} (n : ℕ) → take {A = A} n [] ≡ []
take-nil zero = refl
take-nil (suc n) = refl

pub read_nothing :
    (data_start : ℕ) (blocks : List ℕ) (e : Disk) → read_direct data_start blocks 0 e ≡ some ([], 0)
unfolding read_direct
read_nothing data_start [] e = refl
read_nothing data_start (b ∷ blocks) e = refl

pub take-longer {ℓ} : {A : Type ℓ} (xs ys : List A) → take (length xs) (xs ++ ys) ≡ xs
take-longer [] ys = take-zero ys
take-longer (x ∷ xs) ys = ap (λ zs. x ∷ zs) (take-longer xs ys)

take-block_of : (bs : Bytes) → take (min (length bs) 512) (block_of bs) ≡ take 512 bs
unfolding block_of
take-block_of bs =
    let e : min (length bs) 512 ≡ length (take 512 bs) = omega (arith, length-take 512 bs) in
    rw e (take-longer (take 512 bs) (replicate (512 - length (take 512 bs)) 0))

drop-drop {ℓ} : {A : Type ℓ} (a b : ℕ) (xs : List A) → drop a (drop b xs) ≡ drop (b + a) xs
drop-drop a zero xs = ap (λ k. drop k xs) (omega arith)
drop-drop a (suc b) [] = drop-nil a ∙ sym (drop-nil (suc b + a))
drop-drop a (suc b) (x ∷ xs) =
    let e : suc b + a ≡ suc (b + a) = omega arith in rw e (drop-drop a b xs)

take-add {ℓ} :
    {A : Type ℓ} (a b : ℕ) (xs : List A) → take (b + a) xs ≡ take b xs ++ take a (drop b xs)
take-add a zero xs = ap (λ k. take k xs) (omega arith)
take-add a (suc b) [] = take-nil (suc b + a) ∙ sym (take-nil a)
take-add a (suc b) (x ∷ xs) =
    let e : suc b + a ≡ suc (b + a) = omega arith in rw e (ap (λ zs. x ∷ zs) (take-add a b xs))

-- One sector of the loop.
read_step :
    (data_start b : ℕ) (blocks : List ℕ) (remaining : ℕ) (e : Disk) (s : Bytes)
    → remaining ≢ 0
    → e.bad (data_start + b) ≡ false
    → e.sectors (data_start + b) ≡ s
    → read_direct data_start (b ∷ blocks) remaining e
      ≡ prepend
          (take (min remaining 512) s)
          (read_direct data_start blocks (remaining - min remaining 512) e)
unfolding read_direct read_sector
read_step data_start b blocks remaining e s some_left fine same =
    let z : (remaining == 0) ≡ false = ground (arith, some_left) in rw (z, fine, same) refl

-- `e` agrees with `d` on a range of sectors.
abbrev pub Agrees : (from n : ℕ) → Disk → Disk → Type 0
Agrees from n d e =
    (l : ℕ) → from ≤ l → l < from + n → (e.sectors l ≡ d.sectors l) × (e.bad l ≡ d.bad l)

-- What a write of `n` blocks from block `b` on leaves.
pub record Written (data_start b n : ℕ) (content rest : Bytes) (d d' : Disk) : Type 0 where
  pub left : rest ≡ drop (512 * n) content
  pub same : Same (data_start + b) n d d'
  pub reads :
      (e : Disk)
      → Agrees (data_start + b) n d' e
      → read_direct data_start (run_from b n) (length content) e
        ≡ some (take (512 * n) content, length rest)

abbrev pub after_write : ℕ → Bytes → Disk → Disk
after_write lba bs d = record d { sectors = λ l. if l == lba then bs else d.sectors l }

Written-nothing :
    (data_start b : ℕ) (content : Bytes) (d : Disk) → Written data_start b 0 content content d d
unfolding read_direct run_from
Written-nothing data_start b content d = record {
  left = refl;
  same = record { faults = λ l. refl; other = λ l h. refl };
  reads = λ e agree. rw (take-zero content) refl;
}

Written-empty : (data_start b n : ℕ) (d : Disk) → Written data_start b n [] [] d d
unfolding read_direct run_from
Written-empty data_start b n d = record {
  left = sym (drop-nil (512 * n));
  same = record { faults = λ l. refl; other = λ l h. refl };
  reads = λ e agree. read_nothing data_start (run_from b n) e ∙ rw (take-nil (512 * n)) refl;
}

-- One block more in front.
Written-more :
    (data_start b n : ℕ) (content rest : Bytes) (d d' : Disk)
    → length content ≢ 0
    → d.bad (data_start + b) ≡ false
    → Written data_start
        (b + 1)
        n
        (drop 512 content)
        rest
        (after_write (data_start + b) (block_of content) d)
        d'
    → Written data_start b (suc n) content rest d d'
unfolding run_from
Written-more data_start b n content rest d d' some_left fine w =
    let size : 512 * suc n ≡ 512 + 512 * n = omega arith in
    record {
      left = w.left ∙ drop-drop (512 * n) 512 content ∙ ap (λ k. drop k content) (sym size);
      same = record {
        faults = w.same.faults;
        other = λ l h.
            w.same.other l (omega arith)
            ∙ (let ne : (l == data_start + b) ≡ false = ground (arith, h) in rw ne refl);
      };
      reads = λ e agree.
          let here : (e.sectors (data_start + b) ≡ d'.sectors (data_start + b))
              × (e.bad (data_start + b) ≡ d'.bad (data_start + b)) =
            agree (data_start + b) (omega arith) (omega arith) in
          let is : (data_start + b == data_start + b) ≡ true = ground arith in
          let wrote : e.sectors (data_start + b) ≡ block_of content =
            here.0 ∙ w.same.other (data_start + b) (omega arith) ∙ rw is refl in
          let less : length content - min (length content) 512 ≡ length (drop 512 content) =
            omega (arith, length-drop 512 content) in
          read_step data_start b (run_from (b + 1) n) (length content) e (block_of content)
            some_left (here.1 ∙ w.same.faults (data_start + b) ∙ fine) wrote
          ∙ rw
              (
                take-block_of content,
                less,
                w.reads e (λ l lo hi. agree l (omega arith) (omega arith)),
                size,
                take-add (512 * n) 512 content,
              )
              refl;
    }

pub write_direct-Written :
    (n data_start b : ℕ) (content rest : Bytes) (d d' : Disk)
    → write_direct n (data_start + b) content d ≡ some (rest, d')
    → Written data_start b n content rest d d'
unfolding write_direct write_sector
write_direct-Written zero data_start b content rest d d' e =
    subst (λ r. Written data_start b 0 content r.0 d r.1) (some-injective _ _ e)
      (Written-nothing data_start b content d)
write_direct-Written (suc n) data_start b [] rest d d' e =
    subst (λ r. Written data_start b (suc n) [] r.0 d r.1) (some-injective _ _ e)
      (Written-empty data_start b (suc n) d)
write_direct-Written (suc n) data_start b (x ∷ xs) rest d d' e =
    let full : (length (x ∷ xs) == 0) ≡ false = ground arith in
    elim (Bool-cases (d.bad (data_start + b))) [
      | inl broken ↦ absurd (none-ne-some _ (sym (rw (full, broken) refl) ∙ e))
      | inr fine ↦
          let d1 = after_write (data_start + b) (block_of (x ∷ xs)) d in
          let next : data_start + b + 1 ≡ data_start + (b + 1) = omega arith in
          let go : write_direct n (data_start + (b + 1)) (drop 512 (x ∷ xs)) d1 ≡ some (rest, d') =
            rw (← next) (sym (rw (full, fine) refl) ∙ e) in
          Written-more data_start b n (x ∷ xs) rest d d' (omega arith) fine
            (write_direct-Written n data_start (b + 1) (drop 512 (x ∷ xs)) rest d1 d' go)
    ]
