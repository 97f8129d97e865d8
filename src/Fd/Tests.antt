-- ===== src/Fd/Tests.antt =====
-- Runs of the descriptor operations from a fresh `open_file_table`.
use spike_os.Prelude.{ℕ, ◌≡◌, refl, Option, none, some, [], ◌∷◌, replicate}
use spike_os.Wait.{ready}
use spike_os.Fd.{
  FdTable, Files, fd_init, pipe_create, alloc_fd, first_free, alloc_open_file, first_unused,
  with_slot, alloc_pipe, first_inactive, with_reader, with_writer, open_end, tag_end, create_fds,
}
use spike_os.Prelude.{arith}
use spike_os.Prelude.Int.{pos}
use mathlib.Core.Option.{none-ne-some}
use spike_os.Vfs.{file}
use spike_os.Vfs.Contents.{Serves}
use spike_os.Fd.{vfs}
use spike_os.Fd.Access.{Inodes, file_of, fd_write}
use spike_os.Fd.Access.Laws.{OnFile, RoundTrip, fd_read-fd_write}
use spike_os.Pipe.{zero_pipe}

abbrev start : Files
unfolding fd_init
start = fd_init (ready ∷ [])

abbrev empty_fds : FdTable
empty_fds = replicate 16 none

abbrev piped : Option (ℕ × ℕ) × FdTable × Files
piped = pipe_create empty_fds start

piped_fds : piped.0 ≡ some (0, 1)
unfolding pipe_create fd_init zero_pipe with_slot alloc_pipe first_inactive with_reader with_writer
    open_end tag_end alloc_open_file first_unused create_fds alloc_fd first_free
piped_fds = refl

-- A descriptor of an empty file with room for four bytes.
abbrev one_file : Files
one_file = record {
  table = record { kind = vfs; flags = 2; ino = 0; offset = 0; refcount = pos 1; pipe = none } ∷ [];
  pool = [];
  procs = [];
}

abbrev nodes : Inodes
nodes = record { type = file; size = 0; buffer = replicate 4 0; link_count = 1 } ∷ []

abbrev descriptors : FdTable
descriptors = none ∷ (none ∷ (none ∷ (some 0 ∷ [])))

on_one_file : OnFile 3 0 0 0 descriptors one_file
unfolding file_of
on_one_file = record {
  descriptor = refl;
  in_table = omega arith;
  kind = refl;
  inode = refl;
  at = refl;
  moves = refl;
}

no_memory_Serves : Serves (λ n. none)
no_memory_Serves n new e = absurd (none-ne-some _ e)

fd_read-fd_write_example :
    RoundTrip 3 0
      (5 ∷ (6 ∷ []))
      descriptors
      0
      0
      one_file
      nodes
      (fd_write (λ n. none) 3 (5 ∷ (6 ∷ [])) descriptors one_file nodes)
fd_read-fd_write_example =
    fd_read-fd_write (λ n. none) 3 0 0 0 (5 ∷ (6 ∷ [])) descriptors one_file nodes on_one_file
      (omega arith) (record { regular = refl; fits = omega arith; narrow = omega arith })
      no_memory_Serves (omega arith) (omega arith)
