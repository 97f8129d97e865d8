-- ===== src/Vfs/Reading.antt =====
-- What `vfs_read` returns.
use spike_os.Prelude.{
  ℕ, ◌+◌, ◌-◌, ◌%◌, ◌^◌, ◌≤◌, ◌<◌, ◌≡◌, refl, false, List, [], arith, ltb, leb, if◌then◌else◌,
  length, get_or, take, drop, Option, some, sym, ap, Bool-cases, inl, inr,
}
use Prim.Native.Nat.{min}
use spike_os.Vfs.{Inode, capacity, vfs_read, vfs_write, Written, refused, hangs, written}
use spike_os.Vfs.Bytes.{length-slice, get_or-slice}
use spike_os.Vfs.Contents.{IsValid, Serves, Stored, stored, no_memory, vfs_write-Stored}

pub read_back :
    (bs : List ℕ) (offset : ℕ) (node : Inode)
    → IsValid node
    → 1 ≤ length bs
    → offset + length bs ≤ 2 ^ 31
    → offset + length bs ≤ node.size
    → take (length bs) (drop offset node.buffer) ≡ bs
    → vfs_read node offset (length bs) ≡ some (length bs, bs)
unfolding vfs_read
read_back bs offset node valid p small le e =
    let inside : leb node.size offset ≡ false = ground arith in
    let whole : ltb node.size ((offset + length bs) % 2 ^ 32) ≡ false = ground arith in
    rw valid.regular (rw inside (rw whole (rw e refl)))

abbrev pub inode_of : Inode → Written → Inode
inode_of d refused = d
inode_of d hangs = d
inode_of d (written n node) = node

-- What was written is read back: behind a `vfs_write` of at least one byte to a file that succeeded, at
-- an offset and of a length that end within 2 ^ 31, `vfs_read` of as many bytes at the same offset
-- returns them.
pub vfs_read-vfs_write :
    (fresh : ℕ → Option (List ℕ)) (node node' : Inode) (bs : List ℕ) (offset n : ℕ)
    → IsValid node
    → Serves fresh
    → 1 ≤ length bs
    → offset + length bs ≤ 2 ^ 31
    → vfs_write fresh node bs offset ≡ written n node'
    → vfs_read node' offset (length bs) ≡ some (length bs, bs)
vfs_read-vfs_write fresh node node' bs offset n valid serves p small e =
    go (vfs_write fresh node bs offset) (vfs_write-Stored fresh node bs offset valid serves small) e
  where
    go :
        (w : Written)
        → Stored bs offset node w
        → w ≡ written n node'
        → vfs_read node' offset (length bs) ≡ some (length bs, bs)
    go _ (stored made fine size bytes back) e' =
        rw (← ap (inode_of node) e')
          (read_back bs offset made fine p small (omega (arith, size)) back)
    go _ (no_memory over) e' = absurd (ground (arith, e'))

-- `vfs_read` of a file, at an offset and of a count whose sum is below 2 ^ 32, copies the bytes that are
-- there, at most as many as asked for.
pub vfs_read_lem :
    (node : Inode) (offset count : ℕ)
    → IsValid node
    → offset + count < 2 ^ 32
    → (bytes : List ℕ) × (vfs_read node offset count ≡ some (length bytes, bytes))
      × (length bytes ≡ min count (node.size - offset))
      × ((i : ℕ) → i < length bytes → get_or bytes i 0 ≡ get_or node.buffer (offset + i) 0)
unfolding vfs_read
vfs_read_lem node offset count valid narrow = elim (Bool-cases (leb node.size offset)) [
  | inl t ↦
      let nothing : min count (node.size - offset) ≡ 0 = ground arith in
      ([], rw valid.regular (rw t refl), sym nothing, λ i lt. absurd (omega arith))
  | inr f ↦
      let many : (if ltb node.size ((offset + count) % 2 ^ 32) then node.size - offset else count)
          ≡ min count (node.size - offset) =
        ground arith in
      let size =
        length-slice offset (min count (node.size - offset)) node.buffer
          (ground (arith, valid.fits)) in
      (
        take (min count (node.size - offset)) (drop offset node.buffer),
        rw valid.regular (rw f (rw many (rw size refl))),
        size,
        λ i lt.
            get_or-slice offset (min count (node.size - offset)) node.buffer i
              (omega (arith, lt, size)),
      )
]

-- At an offset inside a file and for a count below 2 ^ 32 whose sum wraps, `vfs_read` copies all that was
-- asked for, beyond the end of the buffer.
pub vfs_read_overreads :
    (node : Inode) (offset count : ℕ)
    → IsValid node
    → offset < node.size
    → count < 2 ^ 32
    → 2 ^ 32 ≤ offset + count
    → (vfs_read node offset count ≡ some (count, take count (drop offset node.buffer)))
      × (capacity node < offset + count)
unfolding vfs_read
vfs_read_overreads node offset count valid lt narrow wraps =
    let inside : leb node.size offset ≡ false = ground arith in
    let wrapped : ltb node.size ((offset + count) % 2 ^ 32) ≡ false = ground arith in
    (rw valid.regular (rw inside (rw wrapped refl)), omega (arith, valid.narrow))
