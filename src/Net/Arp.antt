-- ===== src/Net/Arp.antt =====
-- The ARP cache of kernel/net/arp.c, and the packets that fill it. A time is a count of timer ticks.
pub mod Cache
use spike_os.Prelude.{
  ℕ, zero, suc, ◌+◌, ◌-◌, ◌*◌, ◌/◌, ◌%◌, ◌^◌, Bool, true, false, not, ◌&&◌, ◌||◌, Option, none,
  some, List, [], ◌∷◌, ◌++◌, ◌==◌, ltb, leb, if◌then◌else◌, length, get_or, set, take, drop,
  replicate,
}
use spike_os.Prelude.Search.{search}
use spike_os.Wait.{WaitQueue, States, wake_up_all}
use spike_os.Net.{Bytes, NetConfig, byte, read16, read32, le16, le32, htons, broadcast_mac}

abbrev pub arp_cache_size : ℕ
arp_cache_size = 16

-- `arp_entry_t`.
pub record ArpEntry : Type 0 where
  pub ip : ℕ
  pub mac : Bytes
  pub timestamp : ℕ
  pub valid : Bool

abbrev pub zero_entry : ArpEntry
zero_entry = record { ip = 0; mac = replicate 6 0; timestamp = 0; valid = false }

abbrev pub ArpCache : Type 0
ArpCache = List ArpEntry

unfoldable pub arp_init : ArpCache
arp_init = replicate arp_cache_size zero_entry

abbrev pub arp_at : ArpCache → ℕ → ArpEntry
arp_at cache i = get_or cache i zero_entry

abbrev pub is_entry_of : ArpCache → ℕ → ℕ → Bool
is_entry_of cache ip i = (arp_at cache i).valid && ((arp_at cache i).ip == ip)

abbrev pub is_free_entry : ArpCache → ℕ → Bool
is_free_entry cache i = not (arp_at cache i).valid

-- The loop that looks for the oldest entry, from index `i` on.
unfoldable pub oldest_from : (rounds i oldest : ℕ) → ArpCache → ℕ
oldest_from zero i oldest cache = oldest
oldest_from (suc rounds) i oldest cache =
    oldest_from rounds (suc i)
      (if ltb (arp_at cache i).timestamp (arp_at cache oldest).timestamp then i else oldest) cache

-- The entry that `arp_cache_add` writes: the one of the address, else the first free one, else the oldest.
unfoldable pub choose_entry : ℕ → ArpCache → ℕ
choose_entry ip cache = elim (search (is_entry_of cache ip) arp_cache_size 0) [
  | some i ↦ i
  | none ↦ elim (search (is_free_entry cache) arp_cache_size 0) [
    | some i ↦ i
    | none ↦ oldest_from 15 1 0 cache
  ]
]

-- `arp_cache_add` at a time; the callers that sleep on `arp_wq` are then woken.
unfoldable pub arp_cache_add : (now ip : ℕ) → Bytes → ArpCache → ArpCache
arp_cache_add now ip mac cache =
    set cache (choose_entry ip cache) (record { ip = ip; mac = mac; timestamp = now; valid = true })

unfoldable pub arp_cache_lookup : ℕ → ArpCache → Option Bytes
arp_cache_lookup ip cache = elim (search (is_entry_of cache ip) arp_cache_size 0) [
  | none ↦ none
  | some i ↦ some (arp_at cache i).mac
]

-- `arp_header_t` for Ethernet and IPv4.
unfoldable pub arp_packet : (oper spa tpa : ℕ) → (sha tha : Bytes) → Bytes
arp_packet oper spa tpa sha tha =
    le16 (htons 1)
    ++ (le16 (htons 0x0800)
        ++ (6 ∷ (4 ∷ (le16 (htons oper) ++ (sha ++ (le32 spa ++ (tha ++ le32 tpa)))))))

-- `arp_request`: the packet that is broadcast, if there is a card.
unfoldable pub arp_request : NetConfig → (nic : Option Bytes) → (target : ℕ) → Option Bytes
arp_request cfg none target = none
arp_request cfg (some mac) target = some (arp_packet 1 cfg.ip target mac (replicate 6 0))

-- The reply of `arp_handle` to a request for our address: where it goes, and the packet.
unfoldable pub arp_reply : NetConfig → (mac : Bytes) → Bytes → Option (Bytes × Bytes)
arp_reply cfg mac bs =
    let sender = take 6 (drop 8 bs) in
    if (htons (read16 6 bs) == 1) && cfg.configured && (read32 24 bs == cfg.ip)
    then some (sender, arp_packet 2 cfg.ip (read32 14 bs) mac sender)
    else none

-- `arp_handle`: the cache, and the reply.
unfoldable pub arp_handle :
    NetConfig → (mac : Bytes) → (now : ℕ) → Bytes → ArpCache → ArpCache × Option (Bytes × Bytes)
arp_handle cfg mac now bs cache =
    if ltb (length bs) 28
    then (cache, none)
    else if not (htons (read16 0 bs) == 1)
    then (cache, none)
    else if not (htons (read16 2 bs) == 0x0800)
    then (cache, none)
    else (arp_cache_add now (read32 14 bs) (take 6 (drop 8 bs)) cache, arp_reply cfg mac bs)

-- The waiting loop of `arp_resolve`: the cache at each tick before the deadline.
unfoldable pub await_reply : ℕ → List ArpCache → Option Bytes
await_reply ip [] = none
await_reply ip (cache ∷ later) = elim (arp_cache_lookup ip cache) [
  | some mac ↦ some mac
  | none ↦ await_reply ip later
]

-- `arp_resolve`: whether a request is sent, and the result, where `later` are the caches until the timeout.
unfoldable pub arp_resolve : ℕ → ArpCache → (later : List ArpCache) → Bool × Option Bytes
arp_resolve ip cache later = elim (arp_cache_lookup ip cache) [
  | some mac ↦ (false, some mac)
  | none ↦ (true, await_reply ip later)
]
