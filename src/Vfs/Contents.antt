-- ===== src/Vfs/Contents.antt =====
-- What a file holds behind a write, and what a read returns.
use spike_os.Prelude.{
  ℕ, zero, ◌+◌, ◌-◌, ◌%◌, ◌^◌, ◌≤◌, ◌<◌, ◌≡◌, refl, true, false, ◌&&◌, List, ◌++◌, arith, ltb, leb,
  if◌then◌else◌, length, get_or, take, drop, replicate, length-append, length-replicate, Option,
  some, ◌∙◌, Bool-cases, Option-cases, inl, inr, ◌⊎◌,
}
use Prim.Native.Nat.{max}
use spike_os.Vfs.{
  Inode, is_file, capacity, copy_at, vfs_write, double_until, zero_gap, with_new, grow_buffer,
  Written, refused, written, store, store_grown, first_capacity, grow_and_store,
}
use spike_os.Vfs.Bytes.{
  length-copy_at, get_or-copy_at, take-copy_at, get_or-replicate, get_or-append, Reaches,
  double_until-enough,
}

-- A file whose contents fit its buffer, as `krealloc` can serve it.
pub record IsValid (node : Inode) : Type 0 where
  pub regular : is_file node.type ≡ true
  pub fits : node.size ≤ capacity node
  pub narrow : capacity node < 2 ^ 32

-- The new part has the length that was asked for.
abbrev pub Serves : (ℕ → Option (List ℕ)) → Type 0
Serves fresh = (n : ℕ) (new : List ℕ) → fresh n ≡ some new → length new ≡ n

-- Byte `i` of the file: from the new bytes, from the gap, or as it was. The gap is what the buffer held
-- there, unless the buffer grew, which clears it.
abbrev pub byte_after : Inode → (bs : List ℕ) → (offset : ℕ) → ℕ → ℕ
byte_after node bs offset i =
    if leb offset i && ltb i (offset + length bs)
    then get_or bs (i - offset) 0
    else if ltb (capacity node) (offset + length bs) && (leb node.size i && ltb i offset)
    then 0
    else get_or node.buffer i 0

pub data Stored (bs : List ℕ) (offset : ℕ) (node : Inode) : Written → Type 0 where
  stored :
      (node' : Inode)
      → IsValid node'
      → node'.size ≡ max node.size (offset + length bs)
      → ((i : ℕ) → i < node'.size → get_or node'.buffer i 0 ≡ byte_after node bs offset i)
      → take (length bs) (drop offset node'.buffer) ≡ bs
      → Stored bs offset node (written (length bs) node')
  no_memory : capacity node < offset + length bs → Stored bs offset node refused

module _ (bs : List ℕ) (offset : ℕ) (node : Inode) (valid : IsValid node)
    (small : offset + length bs ≤ 2 ^ 31) where
  -- The copy into a buffer that holds what `byte_after` says outside the copy.
  store-Stored :
      (buffer : List ℕ)
      → offset + length bs ≤ length buffer
      → node.size ≤ length buffer
      → length buffer < 2 ^ 32
      → ((i : ℕ)
          → i < max node.size (offset + length bs)
          → (leb offset i && ltb i (offset + length bs)) ≡ false
          → get_or buffer i 0 ≡ byte_after node bs offset i)
      → Stored bs offset node (store bs offset buffer node)
  unfolding store
  store-Stored buffer le le' narrow old =
      let end : (offset + length bs) % 2 ^ 32 ≡ offset + length bs = omega arith in
      rw end (
        stored _
          (record {
            regular = valid.regular;
            fits = ground (arith, length-copy_at offset bs buffer);
            narrow = omega (arith, length-copy_at offset bs buffer);
          })
          (ground arith)
          (λ i lt.
            bytes i (ground (arith, lt)) (Bool-cases (leb offset i && ltb i (offset + length bs))))
          (take-copy_at offset bs buffer le))
    where
      bytes :
          (i : ℕ)
          → i < max node.size (offset + length bs)
          → ((leb offset i && ltb i (offset + length bs)) ≡ true)
            ⊎ ((leb offset i && ltb i (offset + length bs)) ≡ false)
          → get_or (copy_at offset bs buffer) i 0 ≡ byte_after node bs offset i
      bytes i lt (inl t) = get_or-copy_at offset bs buffer i le ∙ rw t refl
      bytes i lt (inr f) = get_or-copy_at offset bs buffer i le ∙ rw f (rw f at (old i lt f))

  -- The buffer that a growth leaves.
  grown_size :
      (new : List ℕ)
      → length (zero_gap offset node (node.buffer ++ new)) ≡ capacity node + length new
  unfolding zero_gap
  grown_size new = elim (Bool-cases (ltb node.size offset)) [
    | inl t ↦ rw t (
        length-copy_at node.size (replicate (offset - node.size) 0) (node.buffer ++ new)
        ∙ length-append node.buffer new)
    | inr f ↦ rw f (length-append node.buffer new)
  ]

  grown_bytes :
      (new : List ℕ) (i : ℕ)
      → capacity node < offset + length bs
      → offset ≤ capacity node + length new
      → i < max node.size (offset + length bs)
      → (leb offset i && ltb i (offset + length bs)) ≡ false
      → get_or (zero_gap offset node (node.buffer ++ new)) i 0 ≡ byte_after node bs offset i
  unfolding zero_gap
  grown_bytes new i over room lt f = elim (Bool-cases (ltb node.size offset)) [
    | inl t ↦ rw t (
        get_or-copy_at node.size gap (node.buffer ++ new) i
          (ground (arith, length-append node.buffer new, gap_length, valid.fits))
        ∙ ground (
          arith,
          f,
          gap_length,
          get_or-replicate (offset - node.size) (i - node.size),
          get_or-append node.buffer new i,
          over,
          lt,
          valid.fits,
        ))
    | inr g ↦ rw g (ground (arith, f, get_or-append node.buffer new i, over, lt, valid.fits))
  ]
    where
      gap : List ℕ
      gap = replicate (offset - node.size) 0

      gap_length : length gap ≡ offset - node.size
      gap_length = length-replicate (offset - node.size) zero

  grow_and_store-Stored :
      (fresh : ℕ → Option (List ℕ))
      → Serves fresh
      → capacity node < offset + length bs
      → (r : Reaches 33 (first_capacity node) (offset + length bs))
      → Stored bs offset node (
          grow_and_store fresh
            (double_until 33 (first_capacity node) (offset + length bs))
            bs
            offset
            node)
  unfolding grow_and_store store_grown with_new grow_buffer first_capacity
  grow_and_store-Stored fresh serves over (c, e, far, above, narrow) =
      rw e (elim (Option-cases (fresh (c - capacity node))) [
        | inl o ↦ rw o (no_memory over)
        | inr (new, o) ↦
            let size = serves (c - capacity node) new o in
            let more : capacity node ≤ c = ground (arith, above) in
            rw o (
              store-Stored (zero_gap offset node (node.buffer ++ new))
                (omega (arith, grown_size new, size))
                (omega (arith, grown_size new, size, valid.fits))
                (omega (arith, grown_size new, size))
                (λ i lt f. grown_bytes new i over (omega (arith, size)) lt f))
      ])

-- `vfs_write` to a file, at an offset and of a length that end within 2 ^ 31, where `krealloc` serves
-- what it is asked for or fails, always ends: the file then has the larger of its size and the end of the
-- write, holds the new bytes at the offset, zeroes from the old end on if the buffer had to grow, and else
-- what the buffer held, and the bytes can be read back; or it fails for want of memory, where the buffer
-- has to grow.
pub vfs_write-Stored :
    (fresh : ℕ → Option (List ℕ)) (node : Inode) (bs : List ℕ) (offset : ℕ)
    → IsValid node
    → Serves fresh
    → offset + length bs ≤ 2 ^ 31
    → Stored bs offset node (vfs_write fresh node bs offset)
unfolding vfs_write first_capacity
vfs_write-Stored fresh node bs offset valid serves small =
    let end : (offset + length bs) % 2 ^ 32 ≡ offset + length bs = omega arith in
    rw (end, vfs_write)
      (rw valid.regular (elim (Bool-cases (ltb (capacity node) (offset + length bs))) [
        | inl t ↦ rw t (
            grow_and_store-Stored bs offset node valid small fresh serves (ground (arith, t))
              (reach t))
        | inr f ↦ rw f (
            store-Stored bs offset node valid small node.buffer (ground (arith, f)) valid.fits
              valid.narrow (λ i lt g. ground (arith, f, g)))
      ]))
  where
    reach :
        ltb (capacity node) (offset + length bs) ≡ true
        → Reaches 33 (first_capacity node) (offset + length bs)
    reach t =
        double_until-enough 32 (first_capacity node) (offset + length bs) (ground arith)
          (ground (arith, valid.narrow)) small (ground (arith, small))
