-- ===== src/Net/Queues.antt =====
-- The bounded queues of kernel/net.c: the datagrams of a UDP socket, the received bytes of a TCP
-- socket, and the frames that the drivers hand to the stack. The socket record is cut to the fields
-- that each queue uses; a buffer argument is `none` where it is NULL, else its bytes.
use furi_os.Prelude.{
  ℕ, zero, suc, ◌+◌, ◌-◌, ◌%◌, Bool, true, false, ◌||◌, Option, none, some, List, ltb, leb, ◌==◌,
  if◌then◌else◌, length, take, get_or, set, replicate, overwrite, ℤ, pos,
}

-- NET_SOCK_RXQ, NET_UDP_PAYLOAD_MAX, NET_TCP_BUF_MAX, NET_RXQ_MAX and NET_FRAME_MAX
abbrev pub net_sock_rxq : ℕ
net_sock_rxq = 8

abbrev pub net_udp_payload_max : ℕ
net_udp_payload_max = 1472

abbrev pub net_tcp_buf_max : ℕ
net_tcp_buf_max = 2048

abbrev pub net_rxq_max : ℕ
net_rxq_max = 64

abbrev pub net_frame_max : ℕ
net_frame_max = 1518

pub record UdpItem : Type 0 where
  pub len : ℕ
  pub src_ip_be : ℕ
  pub src_port : ℕ
  pub payload : List ℕ

pub record UdpQueue : Type 0 where
  pub q_head : ℕ
  pub q_tail : ℕ
  pub q_count : ℕ
  pub rxq : List UdpItem

abbrev pub zero_item : UdpItem
zero_item = record {
  len = 0;
  src_ip_be = 0;
  src_port = 0;
  payload = replicate net_udp_payload_max 0;
}

unfoldable pub socket_udp_queue_push : UdpQueue → Option (List ℕ) → (ip port : ℕ) → Bool × UdpQueue
socket_udp_queue_push s none ip port = (false, s)
socket_udp_queue_push s (some src) ip port =
    let len = length src in
    if ltb net_udp_payload_max len || leb net_sock_rxq s.q_count
    then (false, s)
    else let old = get_or s.rxq s.q_tail zero_item in
      (
        true,
        record s {
          rxq = set s.rxq s.q_tail (record {
            len = len;
            src_ip_be = ip;
            src_port = port;
            payload = overwrite old.payload 0 src;
          });
          q_tail = (s.q_tail + 1) % net_sock_rxq;
          q_count = s.q_count + 1;
        },
      )

-- The buffer, the count copied, and the source address and port of the datagram.
unfoldable pub socket_udp_queue_pop :
    UdpQueue → Option (List ℕ) → ℕ → Option (List ℕ × ℕ × ℕ × ℕ) × UdpQueue
socket_udp_queue_pop s none len = (none, s)
socket_udp_queue_pop s (some buf) len =
    if s.q_count == 0
    then (none, s)
    else let it = get_or s.rxq s.q_head zero_item in
      let n = if ltb len it.len then len else it.len in
      (
        some (overwrite buf 0 (take n it.payload), n, it.src_ip_be, it.src_port),
        record s { q_head = (s.q_head + 1) % net_sock_rxq; q_count = s.q_count - 1 },
      )

pub record TcpRx : Type 0 where
  pub rx_buf : List ℕ
  pub rx_head : ℕ
  pub rx_tail : ℕ
  pub rx_len : ℕ

-- `rx_buf[rx_tail] = data[i]; rx_tail = (rx_tail + 1U) % NET_TCP_BUF_MAX` for the `k` rounds left
unfoldable pub rx_write_loop : (k i : ℕ) → List ℕ → List ℕ → ℕ → List ℕ × ℕ
rx_write_loop zero i src buf tail = (buf, tail)
rx_write_loop (suc k) i src buf tail =
    rx_write_loop k (i + 1) src (set buf tail (get_or src i 0)) ((tail + 1) % net_tcp_buf_max)

unfoldable pub tcp_rx_write : TcpRx → Option (List ℕ) → ℕ → ℕ × TcpRx
tcp_rx_write s none len = (0, s)
tcp_rx_write s (some src) len =
    if len == 0
    then (0, s)
    else let space = net_tcp_buf_max - s.rx_len in
      let n = if ltb space len then space else len in
      let (buf, tail) = rx_write_loop n 0 src s.rx_buf s.rx_tail in
      (n, record s { rx_buf = buf; rx_tail = tail; rx_len = s.rx_len + n })

-- `buf[i] = rx_buf[rx_head]; rx_head = (rx_head + 1U) % NET_TCP_BUF_MAX` for the `k` rounds left
unfoldable pub rx_read_loop : (k i : ℕ) → List ℕ → List ℕ → ℕ → List ℕ × ℕ
rx_read_loop zero i dst buf head = (dst, head)
rx_read_loop (suc k) i dst buf head =
    rx_read_loop k (i + 1) (set dst i (get_or buf head 0)) buf ((head + 1) % net_tcp_buf_max)

unfoldable pub tcp_rx_read : TcpRx → Option (List ℕ) → ℕ → ℕ × Option (List ℕ) × TcpRx
tcp_rx_read s none len = (0, none, s)
tcp_rx_read s (some dst) len =
    if len == 0
    then (0, some dst, s)
    else let n = if ltb s.rx_len len then s.rx_len else len in
      let (dst', head) = rx_read_loop n 0 dst s.rx_buf s.rx_head in
      (n, some dst', record s { rx_head = head; rx_len = s.rx_len - n })

pub record RxItem : Type 0 where
  pub used : Bool
  pub dev_index : ℤ
  pub len : ℕ
  pub frame : List ℕ

-- g_rxq_head, g_rxq_tail, g_rxq_count and g_rxq
pub record RxQueue : Type 0 where
  pub head : ℕ
  pub tail : ℕ
  pub count : ℕ
  pub items : List RxItem

abbrev pub zero_rx : RxItem
zero_rx = record { used = false; dev_index = pos 0; len = 0; frame = replicate net_frame_max 0 }

unfoldable pub rxq_push : RxQueue → ℤ → Option (List ℕ) → Bool × RxQueue
rxq_push q dev none = (false, q)
rxq_push q dev (some frame) =
    let len = length frame in
    if ltb net_frame_max len || leb net_rxq_max q.count then (false, q) else (
      true,
      record q {
        items = set q.items q.tail (record {
          used = true;
          dev_index = dev;
          len = len;
          frame = overwrite zero_rx.frame 0 frame;
        });
        tail = (q.tail + 1) % net_rxq_max;
        count = q.count + 1;
      },
    )

-- `none` where the code returns false; `out` is never NULL in a call.
unfoldable pub rxq_pop : RxQueue → Option RxItem × RxQueue
rxq_pop q = if q.count == 0 then (none, q) else (
  some (get_or q.items q.head zero_rx),
  record q {
    items = set q.items q.head zero_rx;
    head = (q.head + 1) % net_rxq_max;
    count = q.count - 1;
  },
)
