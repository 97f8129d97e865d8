-- ===== src/Net/Tests.antt =====
-- Two hosts, packets between them, a socket and an ARP cache.
use spike_os.Prelude.{◌-◌, ◌≡◌, refl, true, some, [], ◌∷◌, arith, inr, inl, length, take, replicate}
use spike_os.Wait.{States}
use spike_os.Net.{
  Bytes, NetConfig, ip_header, le16, le32, fold_carries, sum_words, ip_delivery, Delivery, htons,
  ip_checksum, ip_packet, ip_handle,
}
use spike_os.Net.Checksum.{total, ones_sum, ip_checksum-ones_sum}
use spike_os.Net.Ip.{ip_handle-ip_packet}
use spike_os.Net.Udp.{
  Socket, Sockets, zero_socket, udp_send, udp_recv, udp_handle, delivered, datagram,
}
use spike_os.Net.Udp.Deliver.{FirstBound, udp_recv-udp_send}
use spike_os.Net.Text.{join_parts, parse_parts, next_idx, next_parts, ip_parse}

abbrev here : NetConfig
here = record {
  ip = 251789322;
  subnet = 16777215;
  gateway = 33685514;
  dns = 50462730;
  configured = true;
}

abbrev there : NetConfig
there = record {
  ip = 33685514;
  subnet = 16777215;
  gateway = 33685514;
  dns = 50462730;
  configured = true;
}

abbrev hello : Bytes
hello = 104 ∷ (101 ∷ (108 ∷ (108 ∷ (111 ∷ []))))

-- The start of a packet that says it is 100 bytes long.
abbrev cut_packet : Bytes
cut_packet = take 20 (ip_packet here 1 33685514 17 (replicate 80 7))

abbrev overread : Delivery
overread = record { protocol = 17; src = 251789322; len = 80; payload = [] }

cut_packet_handled : ip_handle there cut_packet ≡ some overread
unfolding ip_handle ip_packet ip_header le16 le32 ip_checksum fold_carries sum_words htons
    ip_delivery
cut_packet_handled = refl

abbrev socket_53 : Socket
socket_53 = record zero_socket { in_use = true; local_port = 53 }

abbrev sockets : Sockets
sockets = zero_socket ∷ (socket_53 ∷ replicate 6 zero_socket)

sockets_53 : FirstBound 53 sockets 1
sockets_53 = record { below = omega arith; bound = refl; first = λ j h. ground arith }

abbrev dgram : Bytes
dgram = 16 ∷ (0 ∷ (0 ∷ (53 ∷ (0 ∷ (13 ∷ (0 ∷ (0 ∷ hello)))))))

sent_dgram : udp_send 4096 53 hello ≡ some dgram
unfolding udp_send le16 htons
sent_dgram = refl

abbrev mac : Bytes
mac = 82 ∷ (84 ∷ (0 ∷ (18 ∷ (52 ∷ (86 ∷ [])))))

abbrev request : Bytes
request = 8 ∷ (0 ∷ (0 ∷ (0 ∷ (0 ∷ (1 ∷ (0 ∷ (7 ∷ hello)))))))

parsed_loopback :
    ip_parse (49 ∷ (50 ∷ (55 ∷ (46 ∷ (48 ∷ (46 ∷ (48 ∷ (46 ∷ (49 ∷ []))))))))) ≡ 16777343
unfolding ip_parse join_parts parse_parts next_idx next_parts
parsed_loopback = refl

-- Witnesses of the properties.
ip_handle-ip_packet_example :
    ip_handle there (ip_packet here 1 33685514 17 hello)
    ≡ some (record { protocol = 17; src = 251789322; len = 5; payload = hello })
ip_handle-ip_packet_example =
    ip_handle-ip_packet here there 1 33685514 17 hello (omega arith) (omega arith) (omega arith)
      (omega arith) (inr (inl refl))

udp_recv-udp_send_example :
    (socks' : Sockets) × (ps' : States) × (socks'' : Sockets) × (udp_handle dgram
        (length dgram)
        251789322
        sockets
        []
      ≡ delivered 1 socks' ps')
    × (udp_recv 1 100 socks' ≡ datagram (take 100 hello) 251789322 4096 socks'')
udp_recv-udp_send_example =
    udp_recv-udp_send 4096 53 hello (omega arith) (omega arith) (omega arith) dgram 251789322 1 100
      sockets [] sent_dgram (omega arith) refl sockets_53

ip_checksum-ones_sum_example : ip_checksum hello ≡ 65535 - ones_sum (total hello)
ip_checksum-ones_sum_example = ip_checksum-ones_sum hello (omega arith) (omega arith)
