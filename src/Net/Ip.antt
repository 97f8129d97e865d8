-- ===== src/Net/Ip.antt =====
-- IP packets: what `ip_send` builds `ip_handle` takes.
use spike_os.Prelude.{
  ℕ, ◌+◌, ◌-◌, ◌*◌, ◌/◌, ◌%◌, ◌^◌, ◌≤◌, ◌<◌, ◌≡◌, refl, false, not, ◌&&◌, ◌==◌, ltb, some, ◌++◌,
  arith, inl, inr, ◌⊎◌, length, take, drop, length-drop,
}
use spike_os.Net.{
  Bytes, NetConfig, Delivery, byte, read16, read32, le16, le32, htons, ip_header, ip_packet,
  ip_checksum, ip_delivery, ip_handle, broadcast, header_length,
}
use spike_os.Net.Checksum.{total, AllBytes, ip_checksum-lt, checksum_verifies}

-- Reading back what was written.
read_le16 : (x : ℕ) → x < 2 ^ 16 → x % 256 + 256 * (x / 256 % 256) ≡ x
read_le16 x h = omega arith

pub htons-htons : (x : ℕ) → x < 2 ^ 16 → htons (htons x) ≡ x
unfolding htons
htons-htons x h = omega arith

htons-lt : (x : ℕ) → htons x < 2 ^ 16
unfolding htons
htons-lt x = omega arith

module _ (len id protocol src dst : ℕ) (small : protocol < 256) where
  header-AllBytes : (c : ℕ) → AllBytes (ip_header len id protocol c src dst)
  unfolding ip_header le16 le32
  header-AllBytes c = omega arith

  header-total :
      (c : ℕ)
      → c < 2 ^ 16
      → total (ip_header len id protocol c src dst)
        ≡ total (ip_header len id protocol 0 src dst) + c
  unfolding ip_header le16 le32 total
  header-total c h = omega arith

  -- The header with its checksum passes the check.
  header-checks :
      ip_checksum
        (ip_header len id protocol (ip_checksum (ip_header len id protocol 0 src dst)) src dst)
      ≡ 0
  unfolding ip_header le16 le32
  header-checks =
      checksum_verifies (ip_header len id protocol 0 src dst)
        (ip_header len id protocol (ip_checksum (ip_header len id protocol 0 src dst)) src dst)
        (header-AllBytes 0) (header-AllBytes _) (omega arith) (omega arith)
        (header-total _ (ip_checksum-lt _))

  -- The fields that the receiver reads.
  module _ (c : ℕ) (payload : Bytes) where
    abbrev packet : Bytes
    packet = ip_header len id protocol c src dst ++ payload

    packet-fields :
        (byte 0 packet ≡ 0x45)
        × (byte 9 packet ≡ protocol)
        × (take 20 packet ≡ ip_header len id protocol c src dst)
        × (drop 20 packet ≡ payload)
        × (length packet ≡ 20 + length payload)
    unfolding ip_header le16 le32
    packet-fields = (refl, refl, refl, refl, omega arith)

    packet-length : len < 2 ^ 16 → htons (read16 2 packet) ≡ len
    unfolding ip_header le16 le32
    packet-length h =
        let e : read16 2 packet ≡ htons len = read_le16 (htons len) (htons-lt len) in
        rw e (htons-htons len h)

    packet-addresses :
        src < 2 ^ 32 → dst < 2 ^ 32 → (read32 12 packet ≡ src) × (read32 16 packet ≡ dst)
    unfolding ip_header le16 le32
    packet-addresses h k = (omega arith, omega arith)

-- The receivers of an address: unconfigured, the owner, and everybody for the broadcast address.
abbrev pub Accepts : NetConfig → (dst : ℕ) → Type 0
Accepts cfg dst = (cfg.configured ≡ false) ⊎ ((dst ≡ cfg.ip) ⊎ (dst ≡ broadcast))

accepted :
    (cfg : NetConfig) (dst : ℕ)
    → Accepts cfg dst
    → (cfg.configured && not (dst == cfg.ip) && not (dst == broadcast)) ≡ false
accepted cfg dst (inl h) = ground (arith, h)
accepted cfg dst (inr (inl h)) = ground (arith, h)
accepted cfg dst (inr (inr h)) = ground (arith, h)

-- A packet that `ip_send` builds from at most 1480 bytes passes the checks of `ip_handle` at each host that
-- accepts its address, which hands on the protocol, the source and exactly the payload.
pub ip_handle-ip_packet :
    (cfg there : NetConfig) (id dst protocol : ℕ) (payload : Bytes)
    → cfg.ip < 2 ^ 32
    → dst < 2 ^ 32
    → protocol < 256
    → length payload ≤ 1480
    → Accepts there dst
    → ip_handle there (ip_packet cfg id dst protocol payload)
      ≡ some (record { protocol = protocol; src = cfg.ip; len = length payload; payload = payload })
unfolding ip_handle ip_packet ip_delivery
ip_handle-ip_packet cfg there id dst protocol payload own far small short accepts =
    let len = (20 + length payload) % 2 ^ 16 in
    let c = ip_checksum (ip_header len id protocol 0 cfg.ip dst) in
    let (version, proto, header, rest, size) =
      packet-fields len id protocol cfg.ip dst small c payload in
    let (source, target) = packet-addresses len id protocol cfg.ip dst small c payload own far in
    let field = packet-length len id protocol cfg.ip dst small c payload (omega arith) in
    let ok = header-checks len id protocol cfg.ip dst small in
    let long_enough : ltb (length (ip_header len id protocol c cfg.ip dst ++ payload)) 20 ≡ false =
      ground (arith, size) in
    rw
      (
        long_enough,
        version,
        header,
        ok,
        target,
        accepted there dst accepts,
        source,
        proto,
        rest,
        field,
      )
      (ground (arith, size))

ip_handle-some :
    (cfg : NetConfig) (bs : Bytes) (d : Delivery)
    → ip_handle cfg bs ≡ some d
    → (ip_delivery bs ≡ d) × (20 ≤ header_length bs) × (header_length bs ≤ length bs)
unfolding ip_handle
ip_handle-some cfg bs d h = (ground arith, ground arith, ground arith)

-- The length that `ip_handle` hands on comes from the packet alone: where the length field of a packet that
-- passes the checks says more than was received, so does what is handed on.
pub ip_handle_overreads :
    (cfg : NetConfig) (bs : Bytes) (d : Delivery)
    → ip_handle cfg bs ≡ some d
    → length bs < htons (read16 2 bs)
    → (length d.payload < d.len) × (d.len ≡ htons (read16 2 bs) - header_length bs)
unfolding ip_delivery
ip_handle_overreads cfg bs d h long =
    let (e, least, within) = ip_handle-some cfg bs d h in
    rw (← e) (
      omega (arith, length-drop (header_length bs) bs, htons-lt (read16 2 bs)),
      omega (arith, htons-lt (read16 2 bs)),
    )
