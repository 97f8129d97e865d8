-- ===== src/Net/Udp.antt =====
-- UDP sockets, kernel/net/udp.c. A socket table has 8 slots, each with room for one datagram.
pub mod Deliver
use spike_os.Prelude.{
  ℕ, zero, suc, ◌+◌, ◌-◌, ◌*◌, ◌/◌, ◌%◌, ◌^◌, Bool, true, false, not, ◌&&◌, ◌||◌, Option, none,
  some, List, [], ◌∷◌, ◌++◌, ◌==◌, ltb, leb, if◌then◌else◌, length, get_or, set, take, drop,
  replicate,
}
use spike_os.Prelude.Search.{search}
use spike_os.Wait.{WaitQueue, States, wake_up_one, wake_up_all, sleep_on}
use spike_os.Net.{Bytes, byte, read16, le16, htons}

abbrev pub max_udp_sockets : ℕ
max_udp_sockets = 8

abbrev pub udp_recv_buf : ℕ
udp_recv_buf = 2048

-- `udp_socket_t`; `received` are the first `recv_len` bytes of its buffer.
pub record Socket : Type 0 where
  pub in_use : Bool
  pub local_port : ℕ
  pub received : Bytes
  pub from_ip : ℕ
  pub from_port : ℕ
  pub has_data : Bool
  pub wq : WaitQueue

abbrev pub zero_socket : Socket
zero_socket = record {
  in_use = false;
  local_port = 0;
  received = [];
  from_ip = 0;
  from_port = 0;
  has_data = false;
  wq = [];
}

abbrev pub Sockets : Type 0
Sockets = List Socket

abbrev pub socket_at : Sockets → ℕ → Socket
socket_at socks i = get_or socks i zero_socket

unfoldable pub udp_init : Sockets
udp_init = replicate max_udp_sockets zero_socket

-- `udp_bind`: the socket, or -1.
unfoldable pub udp_bind : ℕ → Sockets → Option ℕ × Sockets
udp_bind port socks = elim (search (λ i. not (socket_at socks i).in_use) max_udp_sockets 0) [
  | none ↦ (none, socks)
  | some i ↦ (
    some i,
    set socks i (record (socket_at socks i) {
      in_use = true;
      local_port = port;
      has_data = false;
      received = [];
      wq = [];
    }),
  )
]

-- `udp_unbind`, with the processes that it wakes.
unfoldable pub udp_unbind : ℕ → Sockets → States → Sockets × States
udp_unbind sock socks ps =
    let (count, wq, ps') = wake_up_all (socket_at socks sock).wq ps in
    if leb max_udp_sockets sock
    then (socks, ps)
    else (set socks sock (record (socket_at socks sock) { in_use = false; wq = wq }), ps')

-- The datagram that `udp_send` hands to `ip_send`, or -1 where it is too long for the buffer.
unfoldable pub udp_send : (src_port dst_port : ℕ) → Bytes → Option Bytes
udp_send src_port dst_port bs =
    let total = (8 + length bs) % 2 ^ 16 in
    if ltb 1500 total
    then none
    else some
        (le16 (htons src_port) ++ (le16 (htons dst_port) ++ (le16 (htons total) ++ (le16 0 ++ bs))))

unfoldable pub udp_sendto : ℕ → (dst_port : ℕ) → Bytes → Sockets → Option Bytes
udp_sendto sock dst_port bs socks =
    if leb max_udp_sockets sock
    then none
    else if not (socket_at socks sock).in_use
    then none
    else udp_send (socket_at socks sock).local_port dst_port bs

-- A pass of `udp_recv`: an error, a sleep on the socket's queue, or the datagram, cut to `max_len` bytes,
-- with where it is from.
pub data Received : Type 0 where
  closed : Received
  sleeps : Received
  datagram : Bytes → (from_ip from_port : ℕ) → Sockets → Received

unfoldable pub udp_recv : (sock max_len : ℕ) → Sockets → Received
udp_recv sock max_len socks =
    let s = socket_at socks sock in
    if leb max_udp_sockets sock
    then closed
    else if not s.in_use
    then closed
    else if not s.has_data
    then sleeps
    else datagram (take max_len s.received) s.from_ip s.from_port
        (set socks sock (record s { has_data = false }))

-- What `udp_handle` does with a datagram: nothing, DHCP, or a socket.
pub data Handled : Type 0 where
  dropped : Handled
  for_dhcp : Bytes → Handled
  delivered : (sock : ℕ) → Sockets → States → Handled

-- The socket that is bound to a port.
abbrev pub is_bound : ℕ → Sockets → ℕ → Bool
is_bound port socks i = (socket_at socks i).in_use && ((socket_at socks i).local_port == port)

unfoldable pub put_datagram : (sock src_port src_ip : ℕ) → Bytes → Sockets → Sockets
put_datagram sock src_port src_ip payload socks = set socks sock (record (socket_at socks sock) {
  received = take udp_recv_buf payload;
  from_ip = src_ip;
  from_port = src_port;
  has_data = true;
})

-- The datagram in its socket, and the oldest of the processes that wait for it woken.
unfoldable pub deliver : (sock src_port src_ip : ℕ) → Bytes → Sockets → States → Handled
deliver sock src_port src_ip payload socks ps =
    let (count, wq, ps') = wake_up_one (socket_at socks sock).wq ps in
    let socks' = put_datagram sock src_port src_ip payload socks in
    delivered sock (set socks' sock (record (socket_at socks' sock) { wq = wq })) ps'

unfoldable pub to_socket : (dst_port src_port src_ip : ℕ) → Bytes → Sockets → States → Handled
to_socket dst_port src_port src_ip payload socks ps =
    elim (search (is_bound dst_port socks) max_udp_sockets 0) [
      | none ↦ dropped
      | some i ↦ deliver i src_port src_ip payload socks ps
    ]

-- `udp_handle` of a datagram of `len` bytes at `bs`.
unfoldable pub udp_handle : Bytes → (len src_ip : ℕ) → Sockets → States → Handled
udp_handle bs len src_ip socks ps =
    let udp_len = htons (read16 4 bs) in
    let payload = take (udp_len - 8) (drop 8 bs) in
    if ltb len 8
    then dropped
    else if ltb udp_len 8 || ltb len udp_len
    then dropped
    else if htons (read16 2 bs) == 68
    then for_dhcp payload
    else to_socket (htons (read16 2 bs)) (htons (read16 0 bs)) src_ip payload socks ps
