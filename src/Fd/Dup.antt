-- ===== src/Fd/Dup.antt =====
-- `sys_dup` of kernel/core/syscall.c.
pub mod Laws
use spike_os.Prelude.{ℕ, Option, none, some, set}
use spike_os.Prelude.Int.{pos, ◌+ℤ◌}
use spike_os.Fd.{Files, FdTable, file_at, put_file, alloc_fd}
use spike_os.Fd.Access.{file_of}

-- `refcount++`.
unfoldable pub share : (i : ℕ) → Files → Files
share i f = put_file f i (record (file_at f i) { refcount = (file_at f i).refcount +ℤ pos 1 })

-- The new descriptor of the open file `i`.
unfoldable pub add_copy : (i : ℕ) → Option ℕ → FdTable → Files → Option ℕ × FdTable × Files
add_copy i none fds f = (none, fds, f)
add_copy i (some fd) fds f = (some fd, set fds fd (some i), share i f)

unfoldable pub copy_of : Option ℕ → FdTable → Files → Option ℕ × FdTable × Files
copy_of none fds f = (none, fds, f)
copy_of (some i) fds f = add_copy i (alloc_fd fds) fds f

-- `none` is -1.
unfoldable pub sys_dup : (old_fd : ℕ) → FdTable → Files → Option ℕ × FdTable × Files
sys_dup old_fd fds f = copy_of (file_of fds old_fd) fds f
