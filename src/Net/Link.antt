-- ===== src/Net/Link.antt =====
-- Ethernet frames, kernel/net/net.c.
use spike_os.Prelude.{
  ℕ, ◌+◌, ◌-◌, ◌==◌, ltb, if◌then◌else◌, Option, none, some, ◌++◌, length, drop, replicate,
}
use spike_os.Net.{Bytes, read16, le16, htons, eth_mtu, eth_hdr_len}

-- `eth_send` of a type and a payload: the frame that the card sends, at least 60 bytes long, if there is a
-- card; `nic` is its address.
unfoldable pub eth_send : (nic : Option Bytes) → (dst : Bytes) → (type : ℕ) → Bytes → Option Bytes
eth_send none dst type payload = none
eth_send (some src) dst type payload =
    let frame = dst ++ (src ++ (le16 (htons type) ++ payload)) in
    if ltb eth_mtu (length payload)
    then none
    else some (frame ++ replicate (60 - (eth_hdr_len + length payload)) 0)

-- Where `net_rx_callback` hands a payload on.
pub data Dispatch : Type 0 where
  to_arp : Bytes → Dispatch
  to_ip : Bytes → Dispatch
  ignored : Dispatch

unfoldable pub dispatch : (type : ℕ) → Bytes → Dispatch
dispatch type payload =
    if type == 0x0806 then to_arp payload else if type == 0x0800 then to_ip payload else ignored

unfoldable pub net_rx_callback : Bytes → Dispatch
net_rx_callback bs =
    if ltb (length bs) eth_hdr_len
    then ignored
    else dispatch (htons (read16 12 bs)) (drop eth_hdr_len bs)
