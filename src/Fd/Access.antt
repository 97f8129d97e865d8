-- ===== src/Fd/Access.antt =====
-- Reading, writing and seeking through descriptors: `fd_read`, `fd_write` and `fd_seek` of kernel/fs/fd.c
-- over the files of kernel/fs/vfs.c. What console and pipe do is theirs: here a call is handed on to them.
pub mod Laws
use Prim.Native.Nat.{bit_and}
use spike_os.Prelude.{
  ℕ, zero, suc, ◌+◌, ◌-◌, ◌*◌, ◌%◌, ◌^◌, ◌≤◌, ◌<◌, ◌≡◌, ◌≢◌, refl, Bool, true, false, not, ◌&&◌,
  ◌||◌, Option, none, some, List, [], ◌∷◌, ◌==◌, ltb, leb, if◌then◌else◌, length, get_or, set,
  arith, ◌∙◌, ap, sym, inl, inr, Bool-cases, get_or-set, length-set,
}
use mathlib.Core.Path.{subst}
use spike_os.Vfs.{
  Inode, InodeType, unused_inode, is_file, Written, refused, hangs, written, vfs_read, vfs_write,
}
use spike_os.Vfs.Contents.{IsValid, Serves, Stored, stored, no_memory, vfs_write-Stored}
use spike_os.Vfs.Reading.{vfs_read-vfs_write}
use spike_os.Fd.{
  FdType, OpenFile, Files, FdTable, file_at, put_file, zero_file, max_fds, unused, vfs, console,
  pipe_end,
}

abbrev pub Inodes : Type 0
Inodes = List Inode

abbrev pub no_inode : Inode
no_inode = record { type = unused_inode; size = 0; buffer = []; link_count = 0 }

abbrev pub inode_at : Inodes → ℕ → Inode
inode_at ns i = get_or ns i no_inode

-- The open file of a descriptor, a negative one as its 32-bit number.
unfoldable pub file_of : FdTable → ℕ → Option ℕ
file_of fds fd = if leb max_fds fd then none else get_or fds fd none

-- A positive int32_t.
abbrev pub is_positive : ℕ → Bool
is_positive n = ltb 0 n && ltb n (2 ^ 31)

unfoldable pub advance : (i n : ℕ) → Files → Files
advance i n f =
    if is_positive n
    then put_file f i (record (file_at f i) { offset = ((file_at f i).offset + n) % 2 ^ 32 })
    else f

pub data ReadResult : Type 0 where
  read_failed : ReadResult
  reads_console : ReadResult
  reads_pipe : ℕ → ReadResult
  got : (n : ℕ) → List ℕ → Files → ReadResult

unfoldable pub read_file : (i : ℕ) → Option (ℕ × List ℕ) → Files → ReadResult
read_file i none f = read_failed
read_file i (some (n, bs)) f = got n bs (advance i n f)

abbrev pub read_pipe : Option ℕ → ReadResult
read_pipe none = read_failed
read_pipe (some k) = reads_pipe k

unfoldable pub read_open : (i count : ℕ) → Files → Inodes → ReadResult
read_open i count f ns = elim (file_at f i).kind [
  | console ↦ reads_console
  | vfs ↦ read_file i (vfs_read (inode_at ns (file_at f i).ino) (file_at f i).offset count) f
  | pipe_end ↦ read_pipe (file_at f i).pipe
  | unused ↦ read_failed
]

unfoldable pub fd_read : (fd count : ℕ) → FdTable → Files → Inodes → ReadResult
fd_read fd count fds f ns = elim (file_of fds fd) [
  | none ↦ read_failed
  | some i ↦ read_open i count f ns
]

pub data WriteResult : Type 0 where
  write_failed : Files → WriteResult
  write_hangs : WriteResult
  writes_console : WriteResult
  writes_pipe : ℕ → WriteResult
  wrote : (n : ℕ) → Files → Inodes → WriteResult

-- O_APPEND moves to the end of the file first.
unfoldable pub to_end : (i : ℕ) → Files → Inodes → Files
to_end i f ns =
    if bit_and (file_at f i).flags 0x400 == 0
    then f
    else put_file f i (record (file_at f i) { offset = (inode_at ns (file_at f i).ino).size })

unfoldable pub write_file : (i : ℕ) → Written → Files → Inodes → WriteResult
write_file i refused f ns = write_failed f
write_file i hangs f ns = write_hangs
write_file i (written n node) f ns = wrote n (advance i n f) (set ns (file_at f i).ino node)

abbrev pub write_pipe : Option ℕ → Files → WriteResult
write_pipe none f = write_failed f
write_pipe (some k) f = writes_pipe k

unfoldable pub write_at : (ℕ → Option (List ℕ)) → (i : ℕ) → List ℕ → Files → Inodes → WriteResult
write_at fresh i bs f ns =
    write_file i (vfs_write fresh (inode_at ns (file_at f i).ino) bs (file_at f i).offset) f ns

unfoldable pub write_open : (ℕ → Option (List ℕ)) → (i : ℕ) → List ℕ → Files → Inodes → WriteResult
write_open fresh i bs f ns = elim (file_at f i).kind [
  | console ↦ writes_console
  | vfs ↦ write_at fresh i bs (to_end i f ns) ns
  | pipe_end ↦ write_pipe (file_at f i).pipe f
  | unused ↦ write_failed f
]

-- `fd_write` of the bytes `bs`; `fresh` is the memory that `krealloc` gives.
unfoldable pub fd_write :
    (ℕ → Option (List ℕ)) → (fd : ℕ) → List ℕ → FdTable → Files → Inodes → WriteResult
fd_write fresh fd bs fds f ns = elim (file_of fds fd) [
  | none ↦ write_failed f
  | some i ↦ write_open fresh i bs f ns
]

-- The offset that `fd_seek` moves to, on 32 bits: SEEK_SET, SEEK_CUR and SEEK_END.
unfoldable pub seek_to : (size old offset whence : ℕ) → Option ℕ
seek_to size old offset whence =
    if whence == 0
    then some offset
    else if whence == 1
    then some ((old + offset) % 2 ^ 32)
    else if whence == 2
    then some ((size + offset) % 2 ^ 32)
    else none

-- A negative offset is refused.
unfoldable pub seek_open : (i : ℕ) → Option ℕ → Files → Option (ℕ × Files)
seek_open i none f = none
seek_open i (some n) f =
    if leb (2 ^ 31) n then none else some (n, put_file f i (record (file_at f i) { offset = n }))

unfoldable pub seek_kind : (i offset whence : ℕ) → Files → Inodes → Option (ℕ × Files)
seek_kind i offset whence f ns = elim (file_at f i).kind [
  | vfs ↦
      seek_open i (seek_to (inode_at ns (file_at f i).ino).size (file_at f i).offset offset whence)
        f
  | console ↦ none
  | pipe_end ↦ none
  | unused ↦ none
]

unfoldable pub fd_seek : (fd offset whence : ℕ) → FdTable → Files → Inodes → Option (ℕ × Files)
fd_seek fd offset whence fds f ns = elim (file_of fds fd) [
  | none ↦ none
  | some i ↦ seek_kind i offset whence f ns
]
