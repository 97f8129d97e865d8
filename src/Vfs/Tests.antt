-- ===== src/Vfs/Tests.antt =====
-- Runs of the reads and writes of files.
use spike_os.Prelude.{
  ℕ, zero, suc, ◌≡◌, refl, List, [], ◌∷◌, arith, length, replicate, length-replicate, Option, none,
  some, sym, ap, ◌∙◌,
}
use spike_os.Vfs.{
  Inode, file, copy_at, vfs_write, written, double_until, store, store_grown, zero_gap, with_new,
  grow_buffer, grow_and_store, first_capacity,
}
use spike_os.Vfs.Contents.{IsValid, Serves, Stored, vfs_write-Stored}

-- Two bytes in a buffer of four.
abbrev two_bytes : Inode
two_bytes = record { type = file; size = 2; buffer = 5 ∷ 6 ∷ 1 ∷ 1 ∷ []; link_count = 1 }

two_bytes-IsValid : IsValid two_bytes
two_bytes-IsValid = record { regular = refl; fits = omega arith; narrow = omega arith }

-- Memory that holds nines.
abbrev nines : ℕ → Option (List ℕ)
nines n = some (replicate n 9)

abbrev or_empty : Option (List ℕ) → List ℕ
or_empty none = []
or_empty (some xs) = xs

nines-Serves : Serves nines
nines-Serves n new e =
    ap length (sym (ap or_empty e))
    ∙ length-replicate n (suc (suc (suc (suc (suc (suc (suc (suc (suc zero)))))))))

vfs_write-Stored_example :
    Stored (7 ∷ 8 ∷ []) 3 two_bytes (vfs_write nines two_bytes (7 ∷ 8 ∷ []) 3)
vfs_write-Stored_example =
    vfs_write-Stored nines two_bytes (7 ∷ 8 ∷ []) 3 two_bytes-IsValid nines-Serves (omega arith)

abbrev five_bytes : Inode
five_bytes = record {
  type = file;
  size = 5;
  buffer = 5 ∷ 6 ∷ 0 ∷ 7 ∷ 8 ∷ 9 ∷ 9 ∷ 9 ∷ [];
  link_count = 1;
}

grew : vfs_write nines two_bytes (7 ∷ 8 ∷ []) 3 ≡ written 2 five_bytes
unfolding vfs_write grow_and_store double_until store store_grown zero_gap with_new grow_buffer
    copy_at first_capacity
grew = refl

-- A write into the room behind the end leaves what the buffer held in between.
stale :
    vfs_write nines two_bytes (7 ∷ []) 3
    ≡ written 1 (record two_bytes { size = 4; buffer = 5 ∷ 6 ∷ 1 ∷ 7 ∷ [] })
unfolding vfs_write store copy_at
stale = refl
