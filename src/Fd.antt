-- ===== src/Fd.antt =====
-- The open file table and the descriptor tables: kernel/fs/fd.c, with `alloc_pipe` and `pipe_create` of
-- kernel/fs/pipe.c, which allocate from them. A descriptor table is a list of entries, `none` for -1;
-- a pointer to a pipe is its slot in `pipe_pool`.
pub mod Table
pub mod Counting
pub mod Closing
pub mod Create
pub mod Access
pub mod Open
pub mod Dup
mod Console
pub mod Run
mod Tests
use Prim.Native.Nat.{bit_and}
use spike_os.Prelude.{
  ℕ, zero, suc, ◌+◌, Bool, true, false, not, Option, none, some, List, [], ◌∷◌, ◌==◌, leb,
  if◌then◌else◌, length, get_or, set, replicate,
}
use spike_os.Prelude.Int.{ℤ, pos, ◌-ℤ◌}
use spike_os.Wait.{States}
use spike_os.Pipe.{Pipe, World, zero_pipe, none_left, close_reader, close_writer}

abbrev pub max_fds : ℕ
max_fds = 16

abbrev pub max_open_files : ℕ
max_open_files = 64

abbrev pub max_pipes : ℕ
max_pipes = 16

-- FD_TYPE_NONE, _VFS, _CONSOLE and _PIPE.
pub data FdType : Type 0 where
  unused vfs console pipe_end : FdType

abbrev pub is_unused : FdType → Bool
is_unused unused = true
is_unused vfs = false
is_unused console = false
is_unused pipe_end = false

abbrev pub rdonly : ℕ
rdonly = 0

abbrev pub wronly : ℕ
wronly = 1

-- `open_file_t`.
pub record OpenFile : Type 0 where
  pub kind : FdType
  pub flags : ℕ
  pub ino : ℕ
  pub offset : ℕ
  pub refcount : ℤ
  pub pipe : Option ℕ

-- A slot after `memset(of, 0, sizeof(open_file_t))`.
abbrev pub zero_file : OpenFile
zero_file = record { kind = unused; flags = 0; ino = 0; offset = 0; refcount = pos 0; pipe = none }

abbrev pub FdTable : Type 0
FdTable = List (Option ℕ)

-- The system-wide state: `open_file_table`, `pipe_pool`, and the processes that a close may wake.
pub record Files : Type 0 where
  pub table : List OpenFile
  pub pool : List Pipe
  pub procs : States

unfoldable pub fd_init : States → Files
fd_init ps = record {
  table = replicate max_open_files zero_file;
  pool = replicate max_pipes zero_pipe;
  procs = ps;
}

abbrev pub file_at : Files → ℕ → OpenFile
file_at f i = get_or f.table i zero_file

abbrev pub pipe_at : Files → ℕ → Pipe
unfolding zero_pipe
pipe_at f k = get_or f.pool k zero_pipe

abbrev pub put_file : Files → ℕ → OpenFile → Files
put_file f i of = record f { table = set f.table i of }

abbrev pub put_pipe : Files → ℕ → Pipe → Files
put_pipe f k p = record f { pool = set f.pool k p }

-- The first unused slot from `i` on.
unfoldable pub first_unused : List OpenFile → ℕ → Option ℕ
first_unused [] i = none
first_unused (of ∷ ofs) i =
    let rest = first_unused ofs (suc i) in if is_unused of.kind then some i else rest

unfoldable pub alloc_open_file : Files → Option ℕ × Files
alloc_open_file f = elim (first_unused f.table 0) [
  | none ↦ (none, f)
  | some i ↦ (some i, put_file f i (record zero_file { refcount = pos 1 }))
]

-- A close of the pipe end that an open file names, if it is one.
unfoldable pub close_pipe : World → ℕ → World
close_pipe w flags = if bit_and flags wronly == 0 then close_reader w else close_writer w

unfoldable pub close_end : OpenFile → Files → Files
unfolding close_pipe
close_end of f = elim of.kind [
  | pipe_end ↦ elim of.pipe [
    | none ↦ f
    | some k ↦
        let w = close_pipe (record { pipe = pipe_at f k; procs = f.procs }) of.flags in
        record (put_pipe f k w.pipe) { procs = w.procs }
  ]
  | _ ↦ f
]

-- `idx` is not negative here: the callers pass an entry that is not -1.
unfoldable pub release_open_file : ℕ → Files → Files
unfolding close_end
release_open_file idx f =
    let left = (file_at f idx).refcount -ℤ pos 1 in
    if leb max_open_files idx
    then f
    else if none_left left
    then put_file (close_end (file_at f idx) f) idx zero_file
    else put_file f idx (record (file_at f idx) { refcount = left })

-- The lowest free descriptor from `i` on.
pub first_free : FdTable → ℕ → Option ℕ
first_free [] i = none
first_free (none ∷ fds) i = some i
first_free (some _ ∷ fds) i = first_free fds (suc i)

pub alloc_fd : FdTable → Option ℕ
unfolding first_free
alloc_fd fds = first_free fds 0

-- The type and flags of a console entry, and the descriptor that names it.
unfoldable pub tag_console : ℕ → ℕ → FdTable → Option ℕ × Files → FdTable × Files
tag_console fd flags fds (none, f) = (fds, f)
tag_console fd flags fds (some i, f) =
    (set fds fd (some i), put_file f i (record (file_at f i) { kind = console; flags = flags }))

-- One of the three console entries of `fd_init_process`.
unfoldable pub init_console : ℕ → ℕ → FdTable × Files → FdTable × Files
unfolding tag_console
init_console fd flags (fds, f) = tag_console fd flags fds (alloc_open_file f)

-- stdin, stdout and stderr; the entries are all set to -1 first.
unfoldable pub fd_init_process : Files → FdTable × Files
unfolding init_console
fd_init_process f =
    init_console 2 wronly
      (init_console 1 wronly (init_console 0 rdonly (replicate max_fds none, f)))

-- The loop of `fd_close_all`, over the entries that are left.
unfoldable pub fd_close_all : FdTable → Files → FdTable × Files
fd_close_all [] f = ([], f)
fd_close_all (none ∷ fds) f = let (rest, f') = fd_close_all fds f in (none ∷ rest, f')
fd_close_all (some i ∷ fds) f =
    let (rest, f') = fd_close_all fds (release_open_file i f) in (none ∷ rest, f')

-- `fd_close`: `false` is -1.
pub fd_close : ℕ → FdTable → Files → Bool × FdTable × Files
fd_close fd fds f = elim (get_or fds fd none) [
  | none ↦ (false, fds, f)
  | some i ↦ (true, set fds fd none, release_open_file i f)
]

-- The first slot of `pipe_pool` that is not active.
pub first_inactive : List Pipe → ℕ → Option ℕ
first_inactive [] i = none
first_inactive (p ∷ ps) i =
    let rest = first_inactive ps (suc i) in if p.active then rest else some i

pub alloc_pipe : Files → Option ℕ × Files
unfolding zero_pipe first_inactive
alloc_pipe f = elim (first_inactive f.pool 0) [
  | none ↦ (none, f)
  | some k ↦ (some k, put_pipe f k (record zero_pipe { active = true }))
]

-- `p->active = 0`.
pub deactivate : ℕ → Files → Files
deactivate k f = put_pipe f k (record (pipe_at f k) { active = false })

-- The type, flags and pipe of the open file of a new pipe end.
pub tag_end : ℕ → ℕ → Option ℕ × Files → Option ℕ × Files
tag_end k flags (none, f) = (none, f)
tag_end k flags (some i, f) =
    (some i, put_file f i (record (file_at f i) { kind = pipe_end; flags = flags; pipe = some k }))

pub open_end : ℕ → ℕ → Files → Option ℕ × Files
unfolding tag_end
open_end k flags f = tag_end k flags (alloc_open_file f)

-- `pipe_create` behind both open files: the two descriptors, or everything undone.
pub create_fds : (k r w : ℕ) → FdTable → Files → Option (ℕ × ℕ) × FdTable × Files
unfolding deactivate
create_fds k r w fds f = elim (alloc_fd fds) [
  | none ↦ (none, fds, deactivate k (release_open_file w (release_open_file r f)))
  | some rfd ↦ elim (alloc_fd (set fds rfd (some r))) [
    | none ↦ (
      none,
      set (set fds rfd (some r)) rfd none,
      deactivate k (release_open_file w (release_open_file r f)),
    )
    | some wfd ↦ (some (rfd, wfd), set (set fds rfd (some r)) wfd (some w), f)
  ]
]

-- `pipe_create` from its second `alloc_open_file` on, from its first, and from `alloc_pipe` on.
pub with_writer : (k r : ℕ) → FdTable → Option ℕ × Files → Option (ℕ × ℕ) × FdTable × Files
unfolding create_fds
with_writer k r fds (none, f) = (none, fds, deactivate k (release_open_file r f))
with_writer k r fds (some w, f) = create_fds k r w fds f

pub with_reader : ℕ → FdTable → Option ℕ × Files → Option (ℕ × ℕ) × FdTable × Files
unfolding open_end with_writer
with_reader k fds (none, f) = (none, fds, deactivate k f)
with_reader k fds (some r, f) = with_writer k r fds (open_end k wronly f)

pub with_slot : FdTable → Option ℕ × Files → Option (ℕ × ℕ) × FdTable × Files
unfolding with_reader
with_slot fds (none, f) = (none, fds, f)
with_slot fds (some k, f) =
    with_reader k fds
      (open_end k rdonly (put_pipe f k (record (pipe_at f k) { readers = pos 1; writers = pos 1 })))

-- `pipe_create` on the descriptors of the current process: the pair `*read_fd`, `*write_fd`, or -1.
pub pipe_create : FdTable → Files → Option (ℕ × ℕ) × FdTable × Files
unfolding with_slot
pipe_create fds f = with_slot fds (alloc_pipe f)
