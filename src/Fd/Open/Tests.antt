-- ===== src/Fd/Open/Tests.antt =====
-- Runs of `fd_open`.
use spike_os.Prelude.{ℕ, Bool, true, none, [], ◌∷◌, replicate}
use spike_os.Vfs.{file, directory}
use spike_os.Vfs.Tree.{Name}
use spike_os.Wait.{ready}
use spike_os.Fd.{FdTable, Files, fd_init}
use spike_os.Fd.Open.{Volume, new_inode}

-- The root with itself and a file "f".
abbrev disk : Volume
disk = record {
  tree =
      record {
        type = directory;
        entries = record { name = 46 ∷ []; inode = 0 } ∷ record { name = 102 ∷ []; inode = 1 } ∷ [];
        slots = 8;
        link_count = 1;
      }
      ∷ record { type = file; entries = []; slots = 0; link_count = 1 }
      ∷ [];
  inode = λ i. new_inode;
}

-- "/f".
abbrev path : Name
path = 47 ∷ 102 ∷ []

abbrev no_fds : FdTable
no_fds = replicate 16 none

abbrev no_files : Files
unfolding fd_init
no_files = fd_init (ready ∷ [])

abbrev always : ℕ → Bool
always n = true
