-- ===== src/Net.antt =====
-- The network stack in kernel/net. A packet is the list of its bytes; an IP address is the 32-bit number
-- that its four bytes make in memory, least significant byte first; ports and lengths are 16 bits wide.
pub mod Checksum
pub mod Ip
pub mod Arp
pub mod Udp
pub mod Icmp
pub mod Link
pub mod Text
mod Tests
use Prim.Native.Nat.{bit_and}
use spike_os.Prelude.{
  ℕ, zero, suc, ◌+◌, ◌-◌, ◌*◌, ◌/◌, ◌%◌, ◌^◌, Bool, true, false, not, ◌&&◌, ◌||◌, Option, none,
  some, List, [], ◌∷◌, ◌++◌, ◌==◌, ltb, leb, if◌then◌else◌, length, get_or, take, drop, replicate,
  map,
}

abbrev pub Bytes : Type 0
Bytes = List ℕ

-- ETH_MTU, ETH_HDR_LEN.
abbrev pub eth_mtu : ℕ
eth_mtu = 1500

abbrev pub eth_hdr_len : ℕ
eth_hdr_len = 14

abbrev pub byte : ℕ → Bytes → ℕ
byte i bs = get_or bs i 0

-- A 16-bit and a 32-bit number in memory, and read from it.
unfoldable pub le16 : ℕ → Bytes
le16 x = x % 256 ∷ (x / 256 % 256 ∷ [])

unfoldable pub le32 : ℕ → Bytes
le32 x = x % 256 ∷ (x / 256 % 256 ∷ (x / 65536 % 256 ∷ (x / 16777216 % 256 ∷ [])))

abbrev pub read16 : ℕ → Bytes → ℕ
read16 i bs = byte i bs + 256 * byte (i + 1) bs

abbrev pub read32 : ℕ → Bytes → ℕ
read32 i bs =
    byte i bs + 256 * byte (i + 1) bs + 65536 * byte (i + 2) bs + 16777216 * byte (i + 3) bs

-- `(h >> 8) | (h << 8)` on 16 bits; `ntohs` is the same function.
unfoldable pub htons : ℕ → ℕ
htons h = (h / 256 + h * 256) % 2 ^ 16

-- `net_config_t`.
pub record NetConfig : Type 0 where
  pub ip : ℕ
  pub subnet : ℕ
  pub gateway : ℕ
  pub dns : ℕ
  pub configured : Bool

-- The loop of `ip_checksum` over the words: a 32-bit sum.
unfoldable pub sum_words : Bytes → ℕ → ℕ
sum_words [] sum = sum
sum_words (b ∷ []) sum = (sum + b) % 2 ^ 32
sum_words (b ∷ (c ∷ bs)) sum = sum_words bs ((sum + (b + 256 * c)) % 2 ^ 32)

-- `while (sum >> 16) sum = (sum & 0xFFFF) + (sum >> 16)`, on fuel.
unfoldable pub fold_carries : (fuel sum : ℕ) → ℕ
fold_carries zero sum = sum
fold_carries (suc fuel) sum =
    let rest = fold_carries fuel (sum % 2 ^ 16 + sum / 2 ^ 16) in
    if sum / 2 ^ 16 == 0 then sum else rest

-- Two rounds are enough for 32 bits (`Checksum`).
unfoldable pub ip_checksum : Bytes → ℕ
ip_checksum bs = 2 ^ 16 - 1 - fold_carries 2 (sum_words bs 0) % 2 ^ 16

-- The header that `ip_send` builds: version and length 0x45, time to live 64.
unfoldable pub ip_header : (total id protocol checksum src dst : ℕ) → Bytes
ip_header total id protocol checksum src dst =
    0x45
    ∷ (0
        ∷ (le16 (htons total)
            ++ (le16 (htons id)
                ++ (0 ∷ (0 ∷ (64 ∷ (protocol ∷ (le16 checksum ++ (le32 src ++ le32 dst)))))))))

unfoldable pub ip_packet : NetConfig → (id dst protocol : ℕ) → Bytes → Bytes
ip_packet cfg id dst protocol payload =
    let total = (20 + length payload) % 2 ^ 16 in
    let sum = ip_checksum (ip_header total id protocol 0 cfg.ip dst) in
    ip_header total id protocol sum cfg.ip dst ++ payload

-- The next hop of a packet: itself, the gateway, or the broadcast address, for which no ARP is asked.
unfoldable pub next_hop : NetConfig → (dst : ℕ) → ℕ
next_hop cfg dst =
    if not (cfg.subnet == 0) && not (bit_and dst cfg.subnet == bit_and cfg.ip cfg.subnet)
    then cfg.gateway
    else dst

abbrev pub broadcast : ℕ
broadcast = 0xFFFFFFFF

abbrev pub broadcast_mac : Bytes
broadcast_mac = replicate 6 255

-- `ip_send` to `arp_resolve` and `eth_send`: the MAC address and the packet that go out, and the counter of
-- identifications, which counts each packet that was built.
unfoldable pub ip_send :
    NetConfig
    → (card : Bool) → (resolve : ℕ → Option Bytes) → (id dst protocol : ℕ) → Bytes
    → Option (Bytes × Bytes) × ℕ
ip_send cfg card resolve id dst protocol payload =
    let total = (20 + length payload) % 2 ^ 16 in
    let packet = ip_packet cfg id dst protocol payload in
    if not card || not cfg.configured
    then (none, id)
    else if ltb eth_mtu total
    then (none, id)
    else if dst == broadcast
    then (some (broadcast_mac, packet), (id + 1) % 2 ^ 16)
    else elim (resolve (next_hop cfg dst)) [
      | none ↦ (none, (id + 1) % 2 ^ 16)
      | some mac ↦ (some (mac, packet), (id + 1) % 2 ^ 16)
    ]

-- What `ip_handle` hands on: the payload starts with `payload`, and is said to be `len` bytes long.
pub record Delivery : Type 0 where
  pub protocol : ℕ
  pub src : ℕ
  pub len : ℕ
  pub payload : Bytes

abbrev pub header_length : Bytes → ℕ
header_length bs = byte 0 bs % 16 * 4

unfoldable pub ip_delivery : Bytes → Delivery
ip_delivery bs = record {
  protocol = byte 9 bs;
  src = read32 12 bs;
  len = (htons (read16 2 bs) + 2 ^ 16 - header_length bs) % 2 ^ 16;
  payload = drop (header_length bs) bs;
}

-- `ip_handle`; a protocol that is neither ICMP nor UDP is dropped by the caller of this function.
unfoldable pub ip_handle : NetConfig → Bytes → Option Delivery
ip_handle cfg bs =
    if ltb (length bs) 20
    then none
    else if not (byte 0 bs / 16 == 4)
    then none
    else if ltb (header_length bs) 20 || ltb (length bs) (header_length bs)
    then none
    else if not (ip_checksum (take (header_length bs) bs) == 0)
    then none
    else if cfg.configured && not (read32 16 bs == cfg.ip) && not (read32 16 bs == broadcast)
    then none
    else some (ip_delivery bs)
