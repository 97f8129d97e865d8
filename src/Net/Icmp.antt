-- ===== src/Net/Icmp.antt =====
-- Echo requests and replies, kernel/net/icmp.c.
use spike_os.Prelude.{
  ℕ, zero, suc, ◌+◌, ◌%◌, ◌≤◌, ◌<◌, ◌≡◌, refl, false, ◌&&◌, ◌==◌, ltb, if◌then◌else◌, [], ◌∷◌, ◌++◌,
  arith, length, take, drop, length-take, length-drop,
}
use spike_os.Net.{Bytes, byte, read16, le16, htons, ip_checksum}
use spike_os.Net.Checksum.{total, AllBytes, ip_checksum-lt, checksum_verifies}

-- A message without its first four bytes: type, code and checksum.
abbrev pub body : ℕ → Bytes → Bytes
body len bs = drop 4 (take len bs)

-- The reply to the request of `len` bytes at `bs`: type 0, and the checksum computed anew.
unfoldable pub echo_reply : ℕ → Bytes → Bytes
echo_reply len bs =
    let blank = 0 ∷ (byte 1 bs ∷ (0 ∷ (0 ∷ body len bs))) in
    0 ∷ (byte 1 bs ∷ (le16 (ip_checksum blank) ++ body len bs))

-- What `icmp_handle` does: nothing, a reply to the sender, or the answer to a ping.
pub data IcmpResult : Type 0 where
  ignored : IcmpResult
  replies : Bytes → IcmpResult
  answered : (seq : ℕ) → IcmpResult

unfoldable pub icmp_handle : (len : ℕ) → Bytes → IcmpResult
icmp_handle len bs =
    if ltb len 8
    then ignored
    else if (byte 0 bs == 8) && (byte 1 bs == 0)
    then if ltb 1480 len then ignored else replies (echo_reply len bs)
    else if (byte 0 bs == 0) && (byte 1 bs == 0)
    then answered (htons (read16 6 bs))
    else ignored

-- The bytes of the pattern in the payload of a request.
unfoldable pub pattern_from : (rounds i : ℕ) → Bytes
pattern_from zero i = []
pattern_from (suc rounds) i = (65 + i % 26) ∷ pattern_from rounds (i + 1)

-- `icmp_send_echo` to `ip_send`.
unfoldable pub icmp_send_echo : (id seq : ℕ) → Bytes
icmp_send_echo id seq =
    let rest = le16 (htons id) ++ (le16 (htons seq) ++ pattern_from 32 0) in
    8 ∷ (0 ∷ (le16 (ip_checksum (8 ∷ (0 ∷ (0 ∷ (0 ∷ rest))))) ++ rest))

-- The checksum over a message whose checksum was computed with zeroes in its place is 0.
message_checks :
    (type code : ℕ) (rest : Bytes)
    → type < 256
    → code < 256
    → AllBytes rest
    → length rest < 65000
    → ip_checksum (type ∷ (code ∷ (le16 (ip_checksum (type ∷ (code ∷ (0 ∷ (0 ∷ rest))))) ++ rest)))
      ≡ 0
unfolding le16 total
message_checks type code rest t c all short =
    let sum = ip_checksum-lt (type ∷ (code ∷ (0 ∷ (0 ∷ rest)))) in
    checksum_verifies (type ∷ (code ∷ (0 ∷ (0 ∷ rest)))) _
      (t, (c, (omega arith, (omega arith, all)))) (t, (c, (omega arith, (omega arith, all))))
      (omega arith) (omega arith) (omega (arith, sum))

AllBytes-take : (n : ℕ) (bs : Bytes) → AllBytes bs → AllBytes (take n bs)
AllBytes-take zero bs h = tt
AllBytes-take (suc n) [] h = tt
AllBytes-take (suc n) (b ∷ bs) (p, h) = (p, AllBytes-take n bs h)

AllBytes-drop : (n : ℕ) (bs : Bytes) → AllBytes bs → AllBytes (drop n bs)
AllBytes-drop zero bs h = h
AllBytes-drop (suc n) [] h = tt
AllBytes-drop (suc n) (b ∷ bs) (p, h) = AllBytes-drop n bs h

byte-lt : (i : ℕ) (bs : Bytes) → AllBytes bs → byte i bs < 256
byte-lt i [] h = omega arith
byte-lt zero (b ∷ bs) (p, h) = p
byte-lt (suc i) (b ∷ bs) (p, h) = byte-lt i bs h

-- An echo request of at most 1480 bytes is answered by an echo reply that carries the same identification,
-- sequence number and payload, and whose checksum the receiver finds right.
pub icmp_handle-replies :
    (len : ℕ) (bs : Bytes)
    → AllBytes bs
    → 8 ≤ len
    → len ≤ 1480
    → byte 0 bs ≡ 8
    → byte 1 bs ≡ 0
    → (reply : Bytes) × (icmp_handle len bs ≡ replies reply)
      × (byte 0 reply ≡ 0)
      × (ip_checksum reply ≡ 0)
      × (drop 4 reply ≡ body len bs)
unfolding icmp_handle echo_reply le16
icmp_handle-replies len bs all least most request code =
    let short : ltb len 8 ≡ false = ground arith in
    let fits : ltb 1480 len ≡ false = ground arith in
    (
      echo_reply len bs,
      rw (short, request, code, fits),
      refl,
      message_checks 0 (byte 1 bs) (body len bs) (omega arith) (byte-lt 1 bs all)
          (AllBytes-drop 4 (take len bs) (AllBytes-take len bs all))
          (omega (arith, length-drop 4 (take len bs), length-take len bs)),
      refl,
    )
