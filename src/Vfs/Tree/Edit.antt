-- ===== src/Vfs/Tree/Edit.antt =====
-- Allocation of inodes and removal of directory entries, of kernel/fs/vfs.c. Whether `krealloc` serves
-- the growth of the table is an argument.
use spike_os.Prelude.{
  ℕ, ◌-◌, ◌*◌, ◌%◌, ◌^◌, Bool, true, false, Option, none, some, List, [], ◌∷◌, ◌++◌, ltb, leb,
  if◌then◌else◌, length, take, get_or, set, replicate,
}
use spike_os.Prelude.Search.{search}
use spike_os.Vfs.{InodeType, unused_inode, file, directory}
use spike_os.Vfs.Tree.{
  Name, Dirent, Inodes, zero_node, node_at, is_directory, same_name, add_link, drop_link,
}

abbrev pub inodes_cap : ℕ
inodes_cap = 8192

abbrev pub is_unused : InodeType → Bool
is_unused unused_inode = true
is_unused file = false
is_unused directory = false

-- A growth of the inode table to `room` inodes.
unfoldable pub enlarge : (served : Bool) → (room : ℕ) → Inodes → Option Inodes
enlarge served room t =
    if leb inodes_cap (length t)
    then none
    else if served
    then some (t ++ replicate (room - length t) zero_node)
    else none

unfoldable pub vfs_ensure_capacity : (served : Bool) → (room : ℕ) → Inodes → Option Inodes
vfs_ensure_capacity served room t =
    if leb room (length t)
    then some t
    else enlarge served (if ltb inodes_cap room then inodes_cap else room) t

-- The inode at `i` is cleared and given its type.
unfoldable pub claim_inode : InodeType → ℕ → Inodes → Inodes
claim_inode type i t = set t i (record zero_node { type = type })

unfoldable pub claim_grown : InodeType → ℕ → Option Inodes → Option (ℕ × Inodes)
claim_grown type i none = none
claim_grown type i (some t) = some (i, claim_inode type i t)

unfoldable pub doubled : ℕ → ℕ
doubled n = if ltb inodes_cap (n * 2 % 2 ^ 32) then inodes_cap else n * 2 % 2 ^ 32

-- The table is full: it grows, and the first of the new inodes is taken.
unfoldable pub grow_table : (served : Bool) → InodeType → Inodes → Option (ℕ × Inodes)
grow_table served type t =
    if leb (doubled (length t)) (length t)
    then none
    else claim_grown type (length t) (vfs_ensure_capacity served (doubled (length t)) t)

unfoldable pub inode_alloc : (served : Bool) → InodeType → Inodes → Option (ℕ × Inodes)
inode_alloc served type t = elim (search (λ i. is_unused (node_at t i).type) (length t - 1) 1) [
  | some i ↦ some (i, claim_inode type i t)
  | none ↦ grow_table served type t
]

unfoldable pub inode_free : ℕ → Inodes → Inodes
inode_free ino t = if leb (length t) ino then t else set t ino zero_node

abbrev pub zero_entry : Dirent
zero_entry = record { name = []; inode = 0 }

-- The index of the first entry of a name.
unfoldable pub entry_index : Name → List Dirent → Option ℕ
entry_index name es = search (λ i. same_name (get_or es i zero_entry).name name) (length es) 0

-- The last entry takes the place of the one that is removed.
unfoldable pub swap_last : ℕ → List Dirent → List Dirent
swap_last i es =
    let last = length es - 1 in
    take last (if ltb i last then set es i (get_or es last zero_entry) else es)

-- The entry at an index is removed: its inode loses a link first.
unfoldable pub remove_at : ℕ → (i : ℕ) → Inodes → Inodes
remove_at dir i t =
    let t = drop_link (get_or (node_at t dir).entries i zero_entry).inode t in
    set t dir (record (node_at t dir) { entries = swap_last i (node_at t dir).entries })

unfoldable pub remove_found : ℕ → Option ℕ → Inodes → Option Inodes
remove_found dir none t = none
remove_found dir (some i) t = some (remove_at dir i t)

unfoldable pub dir_remove_entry : Inodes → ℕ → Name → Option Inodes
dir_remove_entry t dir name =
    if is_directory (node_at t dir).type
    then remove_found dir (entry_index name (node_at t dir).entries) t
    else none

abbrev pub dot_dot : Name
dot_dot = 46 ∷ 46 ∷ []

unfoldable pub redirect : ℕ → (parent : ℕ) → Option ℕ → Inodes → Inodes
redirect dir parent none t = t
redirect dir parent (some i) t =
    let entry : Dirent = get_or (node_at t dir).entries i zero_entry in
    let t = drop_link entry.inode t in
    let es = set (node_at t dir).entries i (record entry { inode = parent }) in
    add_link parent (set t dir (record (node_at t dir) { entries = es }))

unfoldable pub dir_update_dotdot : Inodes → ℕ → (parent : ℕ) → Inodes
dir_update_dotdot t dir parent = redirect dir parent (entry_index dot_dot (node_at t dir).entries) t
