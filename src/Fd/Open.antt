-- ===== src/Fd/Open.antt =====
-- `fd_open` of kernel/fs/fd.c over the directories and the files of kernel/fs/vfs.c: `tree` has the inodes
-- as directories see them, and `inode` gives them as files.
mod Located
pub mod Laws
mod Tests
use Prim.Native.Nat.{bit_and}
use spike_os.Prelude.{
  ℕ, Bool, true, false, not, Option, none, some, List, [], ◌==◌, if◌then◌else◌, set, get_or,
}
use spike_os.Prelude.Int.{pos}
use spike_os.Vfs.{Inode, file, is_file}
use spike_os.Vfs.Tree.{Name, Inodes, node_at, Resolved, vfs_resolve}
use spike_os.Vfs.Tree.Calls.{vfs_create_file}
use spike_os.Fd.{
  OpenFile, Files, FdTable, vfs, file_at, put_file, alloc_open_file, release_open_file, alloc_fd,
}

abbrev pub o_creat : ℕ
o_creat = 256

abbrev pub o_trunc : ℕ
o_trunc = 512

pub record Volume : Type 0 where
  pub tree : Inodes
  pub inode : ℕ → Inode

-- A new inode as a file.
abbrev pub new_inode : Inode
new_inode = record { type = file; size = 0; buffer = []; link_count = 1 }

abbrev pub update : (ℕ → Inode) → ℕ → Inode → ℕ → Inode
update m i n j = if i == j then n else m j

-- What `vfs_create_file` gives.
unfoldable pub created : Volume → Option ℕ × Inodes → Option ℕ × Volume
created v (none, t) = (none, record v { tree = t })
created v (some ino, t) = (some ino, record { tree = t; inode = update v.inode ino new_inode })

-- The inode of the path, or a new one.
unfoldable pub locate :
    (served : ℕ → Bool)
    → (stack : ℕ × Name) → (cwd : ℕ) → Name
    → (flags : ℕ) → Volume
    → Option Resolved
    → Option ℕ × Volume
locate served stack cwd path flags v none = (none, v)
locate served stack cwd path flags v (some (stored, some ino)) = (some ino, v)
locate served stack cwd path flags v (some (stored, none)) =
    if bit_and flags o_creat == 0
    then (none, v)
    else created v (vfs_create_file served stack cwd path v.tree)

-- The open file of an inode.
unfoldable pub tag_file : (ino flags : ℕ) → Option ℕ × Files → Option ℕ × Files
tag_file ino flags (none, f) = (none, f)
tag_file ino flags (some i, f) = (
  some i,
  put_file f i (record (file_at f i) { kind = vfs; flags = flags; ino = ino; offset = 0 }),
)

-- O_TRUNC.
unfoldable pub truncate : (ino flags : ℕ) → Volume → Volume
truncate ino flags v =
    if bit_and flags o_trunc == 0
    then v
    else record v { inode = update v.inode ino (record (v.inode ino) { size = 0 }) }

-- The descriptor, or the open file goes back.
unfoldable pub install : (i : ℕ) → FdTable → Files → Option ℕ × FdTable × Files
install i fds f = elim (alloc_fd fds) [
  | none ↦ (none, fds, release_open_file i f)
  | some fd ↦ (some fd, set fds fd (some i), f)
]

abbrev pub OpenResult : Type 0
OpenResult = Option ℕ × FdTable × Files × Volume

unfoldable pub open_file : (ino flags : ℕ) → FdTable → Volume → Option ℕ × Files → OpenResult
open_file ino flags fds v (none, f) = (none, fds, f, v)
open_file ino flags fds v (some i, f) =
    let (res, fds', f') = install i fds f in (res, fds', f', truncate ino flags v)

unfoldable pub open_located : (flags : ℕ) → FdTable → Files → Option ℕ × Volume → OpenResult
open_located flags fds f (none, v) = (none, fds, f, v)
open_located flags fds f (some ino, v) =
    if is_file (node_at v.tree ino).type
    then open_file ino flags fds v (tag_file ino flags (alloc_open_file f))
    else (none, fds, f, v)

-- `none` is -1.
unfoldable pub fd_open :
    (served : ℕ → Bool)
    → (stack : ℕ × Name) → (cwd : ℕ) → Name
    → (flags : ℕ) → FdTable
    → Files
    → Volume
    → OpenResult
fd_open served stack cwd path flags fds f v =
    open_located flags fds f (locate served stack cwd path flags v (vfs_resolve v.tree cwd path))
