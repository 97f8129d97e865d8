-- ===== src/Fd/Access/Laws.antt =====
-- A write, a seek back and a read through a descriptor.
use Prim.Native.Nat.{bit_and}
use spike_os.Prelude.{
  ℕ, ◌+◌, ◌%◌, ◌^◌, ◌≤◌, ◌<◌, ◌≡◌, refl, true, false, Option, some, List, ◌==◌, leb, length, set,
  arith, ◌∙◌, ap, sym, get_or-set, length-set,
}
use mathlib.Core.Path.{subst}
use spike_os.Vfs.{capacity, Written, vfs_read, vfs_write}
use spike_os.Vfs.Contents.{IsValid, Serves, Stored, stored, no_memory, vfs_write-Stored}
use spike_os.Vfs.Reading.{vfs_read-vfs_write}
use spike_os.Fd.{OpenFile, Files, FdTable, file_at, put_file, zero_file, vfs}
use spike_os.Fd.Access.{
  Inodes, no_inode, inode_at, file_of, is_positive, advance, got, read_file, read_open, fd_read,
  WriteResult, write_failed, wrote, to_end, write_file, write_at, write_open, fd_write, seek_to,
  seek_open, seek_kind, fd_seek,
}

-- `fd` is a descriptor of the file `ino`, not opened to append, at an offset.
pub record OnFile (fd i ino offset : ℕ) (fds : FdTable) (f : Files) : Type 0 where
  pub descriptor : file_of fds fd ≡ some i
  pub in_table : i < length f.table
  pub kind : (file_at f i).kind ≡ vfs
  pub inode : (file_at f i).ino ≡ ino
  pub at : (file_at f i).offset ≡ offset
  pub moves : bit_and (file_at f i).flags 0x400 ≡ 0

-- The same open file at another offset.
moved :
    (fd i ino o n : ℕ) (fds : FdTable) (f : Files)
    → OnFile fd i ino o fds f
    → OnFile fd i ino n fds (put_file f i (record (file_at f i) { offset = n }))
moved fd i ino o n fds f on =
    let of : OpenFile = record (file_at f i) { offset = n } in
    let here : file_at (put_file f i of) i ≡ of =
      get_or-set f.table i i of zero_file on.in_table ∙ ground arith in
    record {
      descriptor = on.descriptor;
      in_table = omega (arith, length-set f.table i of, on.in_table);
      kind = ap OpenFile.kind here ∙ on.kind;
      inode = ap OpenFile.ino here ∙ on.inode;
      at = ap OpenFile.offset here;
      moves = ap (λ x. bit_and (OpenFile.flags x) 0x400) here ∙ on.moves;
    }

advanced :
    (fd i ino o n : ℕ) (fds : FdTable) (f : Files)
    → OnFile fd i ino o fds f
    → 1 ≤ n
    → o + n < 2 ^ 31
    → OnFile fd i ino (o + n) fds (advance i n f)
unfolding advance
advanced fd i ino o n fds f on some_byte small =
    let p : is_positive n ≡ true = ground arith in
    let e : ((file_at f i).offset + n) % 2 ^ 32 ≡ o + n = omega (arith, on.at) in
    rw (p, e) (moved fd i ino o (o + n) fds f on)

seek_kind-vfs :
    (i offset whence : ℕ) (f : Files) (ns : Inodes)
    → (file_at f i).kind ≡ vfs
    → seek_kind i offset whence f ns
      ≡ seek_open i
          (seek_to (inode_at ns (file_at f i).ino).size (file_at f i).offset offset whence)
          f
unfolding seek_kind
seek_kind-vfs i offset whence f ns e = rw (e, seek_kind) refl

fd_seek-open :
    (fd i offset whence : ℕ) (fds : FdTable) (f : Files) (ns : Inodes)
    → file_of fds fd ≡ some i
    → fd_seek fd offset whence fds f ns ≡ seek_kind i offset whence f ns
unfolding fd_seek
fd_seek-open fd i offset whence fds f ns e = rw (e, fd_seek) refl

-- A seek to an absolute offset.
seeks :
    (fd i ino o n : ℕ) (fds : FdTable) (f : Files) (ns : Inodes)
    → OnFile fd i ino o fds f
    → n < 2 ^ 31
    → (f' : Files) × (fd_seek fd n 0 fds f ns ≡ some (n, f')) × OnFile fd i ino n fds f'
unfolding seek_open seek_to
seeks fd i ino o n fds f ns on small =
    let p : leb (2 ^ 31) n ≡ false = ground arith in
    (
      put_file f i (record (file_at f i) { offset = n }),
      fd_seek-open fd i n 0 fds f ns on.descriptor ∙ seek_kind-vfs i n 0 f ns on.kind ∙ rw p refl,
      moved fd i ino o n fds f on,
    )

-- The two calls on a file.
reads :
    (fd i ino o count : ℕ) (bs : List ℕ) (fds : FdTable) (f : Files) (ns : Inodes)
    → OnFile fd i ino o fds f
    → vfs_read (inode_at ns ino) o count ≡ some (count, bs)
    → fd_read fd count fds f ns ≡ got count bs (advance i count f)
unfolding fd_read read_open read_file
reads fd i ino o count bs fds f ns on e =
    rw (on.descriptor, fd_read, on.kind, read_open, on.inode, on.at, e) refl

writes :
    (fresh : ℕ → Option (List ℕ)) (fd i ino o : ℕ) (bs : List ℕ) (fds : FdTable) (f : Files)
    (ns : Inodes)
    → OnFile fd i ino o fds f
    → fd_write fresh fd bs fds f ns ≡ write_file i (vfs_write fresh (inode_at ns ino) bs o) f ns
unfolding fd_write write_open to_end write_at
writes fresh fd i ino o bs fds f ns on =
    let stay : (bit_and (file_at f i).flags 0x400 == 0) ≡ true = rw on.moves refl in
    rw (on.descriptor, fd_write, on.kind, write_open, stay, on.inode, on.at) refl

-- What a write, a seek back and a read through a descriptor of a file do.
pub data RoundTrip (fd o : ℕ) (bs : List ℕ) (fds : FdTable) (i ino : ℕ) (f : Files) (ns : Inodes)
    : WriteResult → Type 0 where
  full_memory :
      capacity (inode_at ns ino) < o + length bs → RoundTrip fd o bs fds i ino f ns (write_failed f)
  read_back :
      (f1 f2 f3 : Files) (ns' : Inodes)
      → OnFile fd i ino (o + length bs) fds f1
      → fd_seek fd o 0 fds f1 ns' ≡ some (o, f2)
      → fd_read fd (length bs) fds f2 ns' ≡ got (length bs) bs f3
      → OnFile fd i ino (o + length bs) fds f3
      → RoundTrip fd o bs fds i ino f ns (wrote (length bs) f1 ns')

-- `fd_write` of at least one byte through a descriptor of a file that is not opened to append, at an
-- offset and of a length that end below 2 ^ 31, always ends. It fails, and changes nothing, only where
-- the buffer of the file has to grow, or writes all and moves the offset behind the bytes; `fd_seek`
-- back to the old offset then succeeds, and `fd_read` of as many bytes returns them and leaves the
-- offset behind them.
pub fd_read-fd_write :
    (fresh : ℕ → Option (List ℕ)) (fd i ino o : ℕ) (bs : List ℕ) (fds : FdTable) (f : Files)
    (ns : Inodes)
    → OnFile fd i ino o fds f
    → ino < length ns
    → IsValid (inode_at ns ino)
    → Serves fresh
    → 1 ≤ length bs
    → o + length bs < 2 ^ 31
    → RoundTrip fd o bs fds i ino f ns (fd_write fresh fd bs fds f ns)
unfolding write_file
fd_read-fd_write fresh fd i ino o bs fds f ns on known valid serves some_byte small =
    subst (RoundTrip fd o bs fds i ino f ns) (sym (writes fresh fd i ino o bs fds f ns on)) (
      go (vfs_write fresh (inode_at ns ino) bs o)
        (vfs_write-Stored fresh (inode_at ns ino) bs o valid serves (omega arith)) refl)
  where
    go :
        (w : Written)
        → Stored bs o (inode_at ns ino) w
        → vfs_write fresh (inode_at ns ino) bs o ≡ w
        → RoundTrip fd o bs fds i ino f ns (write_file i w f ns)
    go _ (no_memory over) e = full_memory over
    go _ (stored made fine size bytes back) e =
        let ns' = set ns ino made in
        let same : set ns (file_at f i).ino made ≡ ns' = ap (λ k. set ns k made) on.inode in
        let f1 = advance i (length bs) f in
        let on1 = advanced fd i ino o (length bs) fds f on some_byte small in
        let (f2, sought, on2) = seeks fd i ino (o + length bs) o fds f1 ns' on1 (omega arith) in
        let there : inode_at ns' ino ≡ made =
          get_or-set ns ino ino made no_inode known ∙ ground arith in
        let taken : vfs_read (inode_at ns' ino) o (length bs) ≡ some (length bs, bs) = rw there (
          vfs_read-vfs_write fresh (inode_at ns ino) made bs o (length bs) valid serves some_byte
            (omega arith) e) in
        rw same (
          read_back f1 f2 (advance i (length bs) f2) ns' on1 sought
            (reads fd i ino o (length bs) bs fds f2 ns' on2 taken)
            (advanced fd i ino o (length bs) fds f2 on2 some_byte small))
