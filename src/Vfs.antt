-- ===== src/Vfs.antt =====
-- The contents of files, `vfs_read` and `vfs_write` of kernel/fs/vfs.c. The buffer of an inode is a list
-- of bytes as long as its capacity; offsets, counts and sizes are 32 bits wide. What `krealloc` returns
-- is told by the caller: the bytes of the new part of the buffer, or a failure.
pub mod Bytes
pub mod Contents
pub mod Reading
pub mod Tree
mod Tests
use spike_os.Prelude.{
  ℕ, zero, suc, ◌+◌, ◌-◌, ◌*◌, ◌%◌, ◌^◌, Bool, true, false, not, Option, none, some, List, [], ◌∷◌,
  ◌++◌, ◌==◌, ltb, leb, if◌then◌else◌, length, take, drop, replicate,
}

-- VFS_TYPE_FREE, VFS_TYPE_FILE and VFS_TYPE_DIR.
pub data InodeType : Type 0 where
  unused_inode file directory : InodeType

-- `vfs_inode_t` of a file; `capacity` is the length of the buffer.
pub record Inode : Type 0 where
  pub type : InodeType
  pub size : ℕ
  pub buffer : List ℕ
  pub link_count : ℕ

abbrev pub capacity : Inode → ℕ
capacity node = length node.buffer

abbrev pub is_file : InodeType → Bool
is_file file = true
is_file unused_inode = false
is_file directory = false

-- `memcpy` into a buffer at `at`; the callers stay inside it.
unfoldable pub copy_at : ℕ → List ℕ → List ℕ → List ℕ
copy_at at bs [] = []
copy_at zero [] (x ∷ xs) = x ∷ xs
copy_at zero (b ∷ bs) (x ∷ xs) = b ∷ copy_at zero bs xs
copy_at (suc at) bs (x ∷ xs) = x ∷ copy_at at bs xs

-- `vfs_read`: the number of bytes copied, and the bytes, as far as the buffer reaches; or -1.
unfoldable pub vfs_read : Inode → (offset count : ℕ) → Option (ℕ × List ℕ)
vfs_read node offset count =
    if not (is_file node.type)
    then none
    else if leb node.size offset
    then some (0, [])
    else let n = if ltb node.size ((offset + count) % 2 ^ 32) then node.size - offset else count in
      some (n, take n (drop offset node.buffer))

-- The doublings of the capacity, from `room` on. The fuel is the width of the number: behind 32
-- doublings it is 0, and stays so.
unfoldable pub double_until : (fuel room end : ℕ) → Option ℕ
double_until zero room end = none
double_until (suc fuel) room end =
    let rest = double_until fuel (room * 2 % 2 ^ 32) end in if ltb room end then rest else some room

-- The zeroes between the old size and the offset.
unfoldable pub zero_gap : (offset : ℕ) → Inode → List ℕ → List ℕ
zero_gap offset node buffer =
    if ltb node.size offset
    then copy_at node.size (replicate (offset - node.size) 0) buffer
    else buffer

-- The buffer with its new part.
unfoldable pub with_new : (offset : ℕ) → Inode → Option (List ℕ) → Option (List ℕ)
with_new offset node none = none
with_new offset node (some new) = some (zero_gap offset node (node.buffer ++ new))

-- The result of a growth of the buffer: `fresh` gives the bytes of the new part by its length, or fails.
unfoldable pub grow_buffer : (ℕ → Option (List ℕ)) → (offset room : ℕ) → Inode → Option (List ℕ)
grow_buffer fresh offset room node = with_new offset node (fresh (room - capacity node))

-- What a write does to the inode: `hangs` is a doubling that never ends.
pub data Written : Type 0 where
  refused : Written
  hangs : Written
  written : (count : ℕ) → Inode → Written

-- The copy, on the buffer that is large enough.
unfoldable pub store : (bs : List ℕ) → (offset : ℕ) → List ℕ → Inode → Written
store bs offset buffer node =
    let end = (offset + length bs) % 2 ^ 32 in
    written (length bs) (record node {
      buffer = copy_at offset bs buffer;
      size = if ltb node.size end then end else node.size;
    })

-- `store` on the outcome of a growth.
unfoldable pub store_grown : (bs : List ℕ) → (offset : ℕ) → Option (List ℕ) → Inode → Written
store_grown bs offset none node = refused
store_grown bs offset (some buffer) node = store bs offset buffer node

unfoldable pub first_capacity : Inode → ℕ
first_capacity node = if capacity node == 0 then 64 else capacity node

-- The growth to the capacity that the doublings reach.
unfoldable pub grow_and_store :
    (ℕ → Option (List ℕ)) → Option ℕ → (bs : List ℕ) → (offset : ℕ) → Inode → Written
grow_and_store fresh none bs offset node = hangs
grow_and_store fresh (some room) bs offset node =
    store_grown bs offset (grow_buffer fresh offset room node) node

-- `vfs_write` of the bytes `bs`.
unfoldable pub vfs_write : (ℕ → Option (List ℕ)) → Inode → (bs : List ℕ) → (offset : ℕ) → Written
vfs_write fresh node bs offset =
    let end = (offset + length bs) % 2 ^ 32 in
    if not (is_file node.type)
    then refused
    else if ltb (capacity node) end
    then grow_and_store fresh (double_until 33 (first_capacity node) end) bs offset node
    else store bs offset node.buffer node
