-- ===== src/Vfs/Tree.antt =====
-- Inodes, directories and path resolution of kernel/fs/vfs.c. A name is the list of its bytes without
-- the final 0. The inodes are told as directories see them: `entries` is the array of `size` entries
-- and `slots` its capacity. Whether `krealloc` serves a growth is an argument.
pub mod Edit
pub mod Calls
pub mod Links
pub mod Linked
mod Adding
mod Create
mod Resolve
mod Removing
pub mod Entries
mod Remove
mod Rename
mod Found
pub mod Created
mod Paths
mod Tests
use spike_os.Prelude.{
  ℕ, zero, suc, ◌+◌, ◌-◌, ◌*◌, ◌%◌, ◌^◌, Bool, true, false, not, ◌&&◌, Option, none, some, List, [],
  ◌∷◌, ◌++◌, ◌==◌, ltb, leb, if◌then◌else◌, length, take, get_or, set,
}
use spike_os.Vfs.{InodeType, unused_inode, file, directory}

abbrev pub Name : Type 0
Name = List ℕ

abbrev pub max_name : ℕ
max_name = 59

abbrev pub slash : ℕ
slash = 47

-- `vfs_dirent_t`.
pub record Dirent : Type 0 where
  pub name : Name
  pub inode : ℕ

pub record Node : Type 0 where
  pub type : InodeType
  pub entries : List Dirent
  pub slots : ℕ
  pub link_count : ℕ

-- `inode_table`.
abbrev pub Inodes : Type 0
Inodes = List Node

abbrev pub zero_node : Node
zero_node = record { type = unused_inode; entries = []; slots = 0; link_count = 0 }

abbrev pub node_at : Inodes → ℕ → Node
node_at t i = get_or t i zero_node

abbrev pub is_directory : InodeType → Bool
is_directory directory = true
is_directory unused_inode = false
is_directory file = false

-- `strcmp` of two names, asked for 0.
unfoldable pub same_name : Name → Name → Bool
same_name [] [] = true
same_name [] (d ∷ ds) = false
same_name (c ∷ cs) [] = false
same_name (c ∷ cs) (d ∷ ds) = (c == d) && same_name cs ds

-- The loop of `dir_lookup`.
unfoldable pub find_entry : Name → List Dirent → Option ℕ
find_entry name [] = none
find_entry name (e ∷ es) =
    let rest = find_entry name es in if same_name e.name name then some e.inode else rest

unfoldable pub dir_lookup : Inodes → ℕ → Name → Option ℕ
dir_lookup t dir name =
    if is_directory (node_at t dir).type then find_entry name (node_at t dir).entries else none

-- `link_count` is 16 bits wide.
unfoldable pub add_link : ℕ → Inodes → Inodes
add_link i t =
    set t i (record (node_at t i) { link_count = ((node_at t i).link_count + 1) % 2 ^ 16 })

unfoldable pub drop_link : ℕ → Inodes → Inodes
drop_link i t =
    set t i
      (record (node_at t i) { link_count = ((node_at t i).link_count + (2 ^ 16 - 1)) % 2 ^ 16 })

-- The growth of the array of a directory, when it is full.
unfoldable pub grow_slots : (served : Bool) → Node → Option Node
grow_slots served dir =
    if not (leb dir.slots (length dir.entries))
    then some dir
    else if served
    then some (record dir { slots = if dir.slots == 0 then 8 else dir.slots * 2 % 2 ^ 32 })
    else none

-- The new entry, and the link to the child.
unfoldable pub append_entry : Inodes → ℕ → Name → (child : ℕ) → Option Node → Option Inodes
append_entry t dir name child none = none
append_entry t dir name child (some node) =
    let entry : Dirent = record { name = take max_name name; inode = child } in
    some (add_link child (set t dir (record node { entries = node.entries ++ (entry ∷ []) })))

unfoldable pub dir_add_entry : (served : Bool) → Inodes → ℕ → Name → (child : ℕ) → Option Inodes
dir_add_entry served t dir name child =
    if is_directory (node_at t dir).type
    then append_entry t dir name child (grow_slots served (node_at t dir))
    else none

-- `path_next_component`: the end of the path, a name that is too long, or a name and what follows it.
pub data Component : Type 0 where
  ends : Component
  too_long : Component
  component : Name → (rest : Name) → Component

unfoldable pub skip_slashes : Name → Name
skip_slashes [] = []
skip_slashes (c ∷ p) = let rest = skip_slashes p in if c == slash then rest else c ∷ p

-- The copy of at most `n` bytes up to a slash, and what is left of the path.
unfoldable pub copy_name : (n : ℕ) → Name → Name × Name
copy_name zero p = ([], p)
copy_name (suc n) [] = ([], [])
copy_name (suc n) (c ∷ p) =
    let (name, rest) = copy_name n p in if c == slash then ([], c ∷ p) else (c ∷ name, rest)

-- A name ends at a slash or with the path.
unfoldable pub check_end : Name × Name → Component
check_end (name, []) = component name []
check_end (name, c ∷ rest) = if c == slash then component name (c ∷ rest) else too_long

unfoldable pub next_name : Name → Component
next_name [] = ends
next_name (c ∷ p) = check_end (copy_name max_name (c ∷ p))

unfoldable pub path_next_component : Name → Component
path_next_component p = next_name (skip_slashes p)

-- What `vfs_resolve` gives: the parent and the last name, where it stores them, and the inode or -1.
abbrev pub Resolved : Type 0
Resolved = Option (ℕ × Name) × Option ℕ

-- The loop of `vfs_resolve`; `none` is the end of the fuel.
unfoldable pub resolve_from : Inodes → (fuel cur : ℕ) → (comp path : Name) → Option Resolved
resolve_from t zero cur comp p = none
resolve_from t (suc fuel) cur comp p = elim (path_next_component p) [
  | too_long ↦ some (none, none)
  | ends ↦ some (some (cur, comp), dir_lookup t cur comp)
  | component next rest ↦ elim (dir_lookup t cur comp) [
    | none ↦ some (none, none)
    | some ino ↦ elim (is_directory (node_at t ino).type) [
      | true ↦ resolve_from t fuel ino next rest
      | false ↦ some (none, none)
    ]
  ]
]

-- The start of the loop, behind the first component.
unfoldable pub resolve_first : Inodes → (cur : ℕ) → Component → Option Resolved
resolve_first t cur ends = some (none, some cur)
resolve_first t cur too_long = some (none, none)
resolve_first t cur (component name rest) = resolve_from t (suc (length rest)) cur name rest

unfoldable pub start_inode : (cwd : ℕ) → Name → ℕ
start_inode cwd [] = cwd
start_inode cwd (c ∷ p) = if c == slash then 0 else cwd

-- A path of slashes alone is the starting point.
unfoldable pub resolve_rest : Inodes → (cur : ℕ) → (path stripped : Name) → Option Resolved
resolve_rest t cur path [] = some (some (cur, []), some cur)
resolve_rest t cur path (c ∷ stripped) = resolve_first t cur (path_next_component path)

unfoldable pub vfs_resolve : Inodes → (cwd : ℕ) → (path : Name) → Option Resolved
vfs_resolve t cwd path = resolve_rest t (start_inode cwd path) path (skip_slashes path)
