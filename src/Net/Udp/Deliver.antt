-- ===== src/Net/Udp/Deliver.antt =====
-- A datagram from `udp_send` to `udp_recv`.
use spike_os.Prelude.{
  ℕ, zero, suc, ◌+◌, ◌-◌, ◌%◌, ◌≤◌, ◌<◌, ◌^◌, ◌≡◌, ◌≢◌, refl, true, false, ◌==◌, ltb, leb, some, [],
  ◌∷◌, ◌++◌, arith, ◌∙◌, ap, length, set, take, drop, get_or-set, set-set,
}
use spike_os.Prelude.Search.{search-first}
use spike_os.Wait.{States, wake_up_one}
use spike_os.Net.{Bytes, le16, htons, read16}
use spike_os.Net.Udp.{
  Socket, Sockets, zero_socket, socket_at, max_udp_sockets, udp_recv_buf, udp_send, udp_recv,
  udp_handle, is_bound, put_datagram, deliver, to_socket, delivered, datagram,
}

take-all : (n : ℕ) (bs : Bytes) → length bs ≤ n → take n bs ≡ bs
take-all zero [] h = refl
take-all zero (b ∷ bs) h = absurd (omega arith)
take-all (suc n) [] h = refl
take-all (suc n) (b ∷ bs) h = ap (λ rest. b ∷ rest) (take-all n bs (omega arith))

-- The socket `i` with a datagram from a process or a host.
abbrev pub with_datagram : Socket → (src_port src_ip : ℕ) → Bytes → States → Socket
with_datagram s src_port src_ip payload ps = record s {
  received = take udp_recv_buf payload;
  from_ip = src_ip;
  from_port = src_port;
  has_data = true;
  wq = (wake_up_one s.wq ps).1;
}

deliver_lem :
    (i src_port src_ip : ℕ) (payload : Bytes) (socks : Sockets) (ps : States)
    → length socks ≡ 8
    → i < 8
    → deliver i src_port src_ip payload socks ps
      ≡ delivered i
          (set socks i (with_datagram (socket_at socks i) src_port src_ip payload ps))
          (wake_up_one (socket_at socks i).wq ps).2
unfolding deliver put_datagram
deliver_lem i src_port src_ip payload socks ps sized lt =
    let s : Socket = record (socket_at socks i) {
      received = take udp_recv_buf payload;
      from_ip = src_ip;
      from_port = src_port;
      has_data = true;
    } in
    let here : socket_at (set socks i s) i ≡ s =
      get_or-set socks i i s zero_socket (omega arith) ∙ ground arith in
    rw here (rw (set-set socks i s (record s { wq = (wake_up_one (socket_at socks i).wq ps).1 })))

-- `i` is the first socket bound to a port.
pub record FirstBound (port : ℕ) (socks : Sockets) (i : ℕ) : Type 0 where
  pub below : i < max_udp_sockets
  pub bound : is_bound port socks i ≡ true
  pub first : (j : ℕ) → j < i → is_bound port socks j ≡ false

to_socket_lem :
    (dst_port src_port src_ip i : ℕ) (payload : Bytes) (socks : Sockets) (ps : States)
    → FirstBound dst_port socks i
    → to_socket dst_port src_port src_ip payload socks ps
      ≡ deliver i src_port src_ip payload socks ps
unfolding to_socket
to_socket_lem dst_port src_port src_ip i payload socks ps f = rw (
  search-first (is_bound dst_port socks) 8 0 i (omega arith) f.below f.bound (λ j _ h. f.first j h),
  to_socket,
)

abbrev with_header : (src_port dst_port : ℕ) → Bytes → Bytes
with_header src_port dst_port bs =
    le16 (htons src_port)
    ++ (le16 (htons dst_port) ++ (le16 (htons ((8 + length bs) % 2 ^ 16)) ++ (le16 0 ++ bs)))

module _ (src_port dst_port : ℕ) (bs : Bytes) (narrow : src_port < 2 ^ 16)
    (narrow' : dst_port < 2 ^ 16) (short : length bs ≤ 1492) where
  abbrev sent : Bytes
  sent = with_header src_port dst_port bs

  udp_send-sent : udp_send src_port dst_port bs ≡ some sent
  unfolding udp_send
  udp_send-sent = let e : ltb 1500 ((8 + length bs) % 2 ^ 16) ≡ false = ground arith in rw e

  sent-fields :
      (htons (read16 0 sent) ≡ src_port)
      × (htons (read16 2 sent) ≡ dst_port)
      × (htons (read16 4 sent) ≡ 8 + length bs)
      × (drop 8 sent ≡ bs)
      × (length sent ≡ 8 + length bs)
  unfolding le16 htons
  sent-fields = (omega arith, omega arith, omega arith, refl, omega arith)

  handled :
      (src_ip i : ℕ) (socks : Sockets) (ps : States)
      → dst_port ≢ 68
      → length socks ≡ 8
      → FirstBound dst_port socks i
      → udp_handle sent (length sent) src_ip socks ps
        ≡ delivered i
            (set socks i (with_datagram (socket_at socks i) src_port src_ip bs ps))
            (wake_up_one (socket_at socks i).wq ps).2
  unfolding udp_handle
  handled src_ip i socks ps other sized f =
      let (src, dst, len, rest, size) = sent-fields in
      let cut : take (8 + length bs - 8) bs ≡ bs = take-all (8 + length bs - 8) bs (omega arith) in
      let a : ltb (length sent) 8 ≡ false = ground (arith, size) in
      let b : ltb (8 + length bs) 8 ≡ false = ground arith in
      let c : ltb (length sent) (8 + length bs) ≡ false = ground (arith, size) in
      let p : (dst_port == 68) ≡ false = ground (arith, other) in
      rw (len, dst, src, rest, cut, a, b, c, p)
        (to_socket_lem dst_port src_port src_ip i bs socks ps f
          ∙ deliver_lem i src_port src_ip bs socks ps sized f.below)

  taken :
      (src_ip i max_len : ℕ) (socks : Sockets) (s : Socket)
      → socket_at socks i ≡ s
      → i < 8
      → s.in_use ≡ true
      → s.has_data ≡ true
      → udp_recv i max_len socks
        ≡ datagram
            (take max_len s.received)
            s.from_ip
            s.from_port
            (set socks i (record s { has_data = false }))
  unfolding udp_recv
  taken src_ip i max_len socks s e lt used full =
      let a : leb 8 i ≡ false = ground arith in rw (e, a, used, full)

  -- A datagram of at most 1492 bytes to a port but DHCP's that a socket is bound to: `udp_handle` puts it in
  -- the first such socket, and the next `udp_recv` there returns its first bytes, as many as are wanted, with
  -- the address and the port it came from.
  pub udp_recv-udp_send :
      (d : Bytes) (src_ip i max_len : ℕ) (socks : Sockets) (ps : States)
      → udp_send src_port dst_port bs ≡ some d
      → dst_port ≢ 68
      → length socks ≡ 8
      → FirstBound dst_port socks i
      → (socks' : Sockets) × (ps' : States) × (socks'' : Sockets) × (udp_handle d
            (length d)
            src_ip
            socks
            ps
          ≡ delivered i socks' ps')
        × (udp_recv i max_len socks' ≡ datagram (take max_len bs) src_ip src_port socks'')
  udp_recv-udp_send d src_ip i max_len socks ps e other sized f =
      let s = with_datagram (socket_at socks i) src_port src_ip bs ps in
      let socks' = set socks i s in
      let same : sent ≡ d = cc (udp_send-sent, e) in
      let here : socket_at socks' i ≡ s =
        get_or-set socks i i s zero_socket (omega (arith, f.below)) ∙ ground arith in
      let used : s.in_use ≡ true = ground (arith, f.bound) in
      let whole : take udp_recv_buf bs ≡ bs = take-all 2048 bs (omega arith) in
      (
        socks',
        (wake_up_one (socket_at socks i).wq ps).2,
        set socks' i (record s { has_data = false }),
        rw (← same) (handled src_ip i socks ps other sized f),
        taken src_ip i max_len socks' s here f.below used refl ∙ rw whole,
      )

-- A datagram of 65528 to 65535 bytes wraps its 16-bit length and passes the test against the buffer of 1500
-- bytes that it is then copied to.
pub udp_send_wraps :
    (src_port dst_port : ℕ) (bs : Bytes)
    → 65528 ≤ length bs
    → length bs < 2 ^ 16
    → (d : Bytes) × (udp_send src_port dst_port bs ≡ some d) × (65536 ≤ length d)
unfolding udp_send le16
udp_send_wraps src_port dst_port bs least most =
    let e : ltb 1500 ((8 + length bs) % 2 ^ 16) ≡ false = ground arith in
    (with_header src_port dst_port bs, rw e, omega arith)
