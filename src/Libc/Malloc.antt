-- ===== src/Libc/Malloc.antt =====
-- The allocator of userland/libc/malloc.c: a chain of blocks, each a header of 16 bytes and its data. A
-- pointer to a block is its address, and a block is found in the chain by it; the data is not modelled.
pub mod Chain
pub mod Laws
pub mod Take
pub mod Free
use spike_os.Prelude.{
  ℕ, zero, suc, ◌+◌, ◌-◌, ◌*◌, ◌/◌, ◌%◌, ◌^◌, Bool, true, false, not, ◌&&◌, Option, none, some,
  List, [], ◌∷◌, ◌++◌, ◌==◌, ltb, leb, if◌then◌else◌, length, get_or,
}

-- `block_t`; `next` is the order of the list.
pub record Block : Type 0 where
  pub addr : ℕ
  pub size : ℕ
  pub free : Bool

abbrev pub Chain : Type 0
Chain = List Block

-- HEADER_SIZE and SBRK_MIN.
abbrev pub header_size : ℕ
header_size = 16

abbrev pub sbrk_min : ℕ
sbrk_min = 4096

-- To the next multiple of 8, on 32 bits.
unfoldable pub align_up : ℕ → ℕ
align_up n = (n + 7) % 2 ^ 32 / 8 * 8

-- `find_free`: the position of the first block that is free and large enough.
abbrev pub later : Option ℕ → Option ℕ
later none = none
later (some i) = some (suc i)

unfoldable pub find_free : ℕ → Chain → Option ℕ
find_free size [] = none
find_free size (b ∷ bs) =
    let rest = find_free size bs in if b.free && leb size b.size then some 0 else later rest

-- `split_block` on the chain from the block on.
unfoldable pub split_block : ℕ → Chain → Chain
split_block size [] = []
split_block size (b ∷ bs) =
    let leftover = (b.size + 2 ^ 32 - size) % 2 ^ 32 in
    if leb (header_size + 8) leftover
    then record b { size = size }
      ∷ (record { addr = b.addr + header_size + size; size = leftover - header_size; free = true }
          ∷ bs)
    else b ∷ bs

unfoldable pub set_free : Bool → Chain → Chain
set_free f [] = []
set_free f (b ∷ bs) = record b { free = f } ∷ bs

-- A change of the chain from a position on.
unfoldable pub at_block : ℕ → (Chain → Chain) → Chain → Chain
at_block i f [] = []
at_block zero f (b ∷ bs) = f (b ∷ bs)
at_block (suc i) f (b ∷ bs) = b ∷ at_block i f bs

abbrev pub no_block : Block
no_block = record { addr = 0; size = 0; free = false }

abbrev pub block_at : Chain → ℕ → Block
block_at c i = get_or c i no_block

-- The block merged with the next one.
unfoldable pub merge : Block → Block → Block
merge cur next = record cur { size = (cur.size + (header_size + next.size)) % 2 ^ 32 }

unfoldable pub coalesce_from : Block → Chain → Chain
coalesce_from cur [] = cur ∷ []
coalesce_from cur (next ∷ bs) = elim (cur.free && next.free) [
  | true ↦ coalesce_from (merge cur next) bs
  | false ↦ cur ∷ coalesce_from next bs
]

unfoldable pub coalesce : Chain → Chain
coalesce [] = []
coalesce (b ∷ bs) = coalesce_from b bs

-- `grow_heap`: how much is asked of `sbrk`, which gives an address or fails; and the new block behind the
-- others.
unfoldable pub grow_total : ℕ → ℕ
grow_total size =
    let total = (header_size + size) % 2 ^ 32 in if ltb total sbrk_min then sbrk_min else total

unfoldable pub append_block : (total : ℕ) → Option ℕ → Chain → Option Chain
append_block total none c = none
append_block total (some ptr) c =
    some (c ++ (record { addr = ptr; size = total - header_size; free = true } ∷ []))

unfoldable pub grow_heap : (sbrk : ℕ → Option ℕ) → ℕ → Chain → Option Chain
grow_heap sbrk size c = append_block (grow_total size) (sbrk (grow_total size)) c

-- A block of the chain taken for `req` bytes: the pointer to its data.
unfoldable pub take_block : (req i : ℕ) → Chain → Option ℕ × Chain
take_block req i c = (
  some ((block_at c i).addr + header_size),
  at_block i (λ bs. set_free false (split_block req bs)) c,
)

unfoldable pub take_grown : (req : ℕ) → Chain → Option Chain → Option ℕ × Chain
take_grown req c none = (none, c)
take_grown req c (some c') = take_block req (length c) c'

unfoldable pub allocate : (sbrk : ℕ → Option ℕ) → (req : ℕ) → Chain → Option ℕ × Chain
allocate sbrk req c = elim (find_free req c) [
  | some i ↦ take_block req i c
  | none ↦ take_grown req c (grow_heap sbrk req c)
]

unfoldable pub malloc : (sbrk : ℕ → Option ℕ) → (size : ℕ) → Chain → Option ℕ × Chain
malloc sbrk size c = if size == 0 then (none, c) else allocate sbrk (align_up size) c

-- The position of the block at an address.
unfoldable pub block_index : ℕ → Chain → Option ℕ
block_index a [] = none
block_index a (b ∷ bs) = let rest = block_index a bs in if b.addr == a then some 0 else later rest

unfoldable pub release : Option ℕ → Chain → Chain
release none c = c
release (some i) c = if (block_at c i).free then c else coalesce (at_block i (set_free true) c)

unfoldable pub free : (ptr : ℕ) → Chain → Chain
free ptr c = if ptr == 0 then c else release (block_index (ptr - header_size) c) c

-- `calloc`: the overflow of the product is refused.
unfoldable pub calloc : (sbrk : ℕ → Option ℕ) → (nmemb size : ℕ) → Chain → Option ℕ × Chain
calloc sbrk nmemb size c =
    if not (nmemb == 0) && ltb ((2 ^ 32 - 1) / nmemb) size
    then (none, c)
    else malloc sbrk (nmemb * size % 2 ^ 32) c

-- The growth of a block over the free block behind it.
unfoldable pub absorb_next : (req : ℕ) → Chain → Chain
absorb_next req [] = []
absorb_next req (b ∷ []) = b ∷ []
absorb_next req (b ∷ (n ∷ bs)) = split_block req (merge b n ∷ bs)

abbrev pub can_absorb : (req i : ℕ) → Chain → Bool
can_absorb req i c =
    ltb (suc i) (length c)
    && (block_at c (suc i)).free
    && leb req (((block_at c i).size + header_size + (block_at c (suc i)).size) % 2 ^ 32)

-- The fallback: a new block, and the old one freed. Copying moves no block.
unfoldable pub move_block : (ptr : ℕ) → Option ℕ × Chain → Option ℕ × Chain
move_block ptr (none, c) = (none, c)
move_block ptr (some new_ptr, c) = (some new_ptr, free ptr c)

unfoldable pub resize : (sbrk : ℕ → Option ℕ) → (ptr new_size i : ℕ) → Chain → Option ℕ × Chain
resize sbrk ptr new_size i c =
    let req = align_up new_size in
    if leb req (block_at c i).size
    then (some ptr, at_block i (split_block req) c)
    else if can_absorb req i c
    then (some ptr, at_block i (absorb_next req) c)
    else move_block ptr (malloc sbrk new_size c)

unfoldable pub resize_found :
    (sbrk : ℕ → Option ℕ) → (ptr new_size : ℕ) → Option ℕ → Chain → Option ℕ × Chain
resize_found sbrk ptr new_size none c = (none, c)
resize_found sbrk ptr new_size (some i) c = resize sbrk ptr new_size i c

unfoldable pub realloc : (sbrk : ℕ → Option ℕ) → (ptr new_size : ℕ) → Chain → Option ℕ × Chain
realloc sbrk ptr new_size c =
    if ptr == 0
    then malloc sbrk new_size c
    else if new_size == 0
    then (none, free ptr c)
    else resize_found sbrk ptr new_size (block_index (ptr - header_size) c) c
