-- ===== src/Net/Tcp.antt =====
-- The TCP state machine of kernel/net.c, for one socket. A socket has the fields of the struct that
-- the code below uses; `listener` tells whether it waits in a listener's queue, and that queue is not
-- part of it. A segment that is handed to the IP layer is an output, in order; `send` is that layer's
-- answer to each, and `now` is timer_ticks(). The answer comes without another run of the stack: the
-- next hop's address is in the ARP table, or there is no route. Where resolve_arp has to ask, it pumps
-- the stack, tcp_tick included, before it returns, and such a nested run is not modelled. A pointer to a socket is never NULL, and its `proto` is
-- TCP.
pub mod Diagram
pub mod Frame
pub mod Stream
pub mod Session
pub mod Progress
pub mod Fin
pub mod Timer
mod Tests
use furi_os.Prelude.{
  ℕ, zero, suc, ◌+◌, ◌-◌, ◌*◌, ◌/◌, ◌%◌, ◌^◌, ◌≤◌, ◌<◌, min, ◌≡◌, refl, ap, ap₂, sym, ◌∙◌, subst,
  ◌⊎◌, ◌≢◌, ◌↔◌, inl, inr, Bool, true, false, false≢true, not, ◌&&◌, ◌||◌, Option, none, some, List,
  [], ◌∷◌, ◌++◌, map, ltb, leb, ◌==◌, if◌then◌else◌, if_cases, arith, Bool-cases, Option-cases,
  add64, sub64, append_assoc, append-nil, get_or, set, length, take, drop, replicate, bit_and, ℤ,
  pos, negsuc, negative, int_eq, add32, sub32, ltb→lt, leb→le, ==→eq, ==→ne, ==_self,
  get_or-set_self, get_or-set_ne, length-set, get_or-out, get_or-replicate, length-replicate,
  lt→ltb, overwrite, slice, get_elem?,
}
use furi_os.Net.{tcp_seq_lt, tcp_seq_gt}
use furi_os.Net.Queues.{TcpRx, tcp_rx_write, net_tcp_buf_max}
use furi_os.Net.Socket.{TxSeg, tcp_tx_seg_end_seq, socket_set_error}

pub data State : Type 0 where
  closed listen syn_sent syn_recv established fin_wait1 fin_wait2 close_wait last_ack closing
        time_wait :
      State

-- `a == b` on states
unfoldable pub is : State → State → Bool
is closed closed = true
is listen listen = true
is syn_sent syn_sent = true
is syn_recv syn_recv = true
is established established = true
is fin_wait1 fin_wait1 = true
is fin_wait2 fin_wait2 = true
is close_wait close_wait = true
is last_ack last_ack = true
is closing closing = true
is time_wait time_wait = true
is _ _ = false

-- TCP_FIN, TCP_SYN, TCP_RST and TCP_ACK
abbrev pub tcp_fin : ℕ
tcp_fin = 1

abbrev pub tcp_syn : ℕ
tcp_syn = 2

abbrev pub tcp_rst : ℕ
tcp_rst = 4

abbrev pub tcp_ack : ℕ
tcp_ack = 16

-- `(flags & bit) != 0`
unfoldable pub has : (flags bit : ℕ) → Bool
has flags bit = not (bit_and flags bit == 0)

-- NET_TCP_RTO_TICKS, NET_TCP_TIMEWAIT_TICKS, NET_TCP_MAX_RETRIES and NET_MTU - sizeof(tcp_hdr_t)
abbrev pub rto_ticks : ℕ
rto_ticks = 51

abbrev pub timewait_ticks : ℕ
timewait_ticks = 200

abbrev pub max_retries : ℕ
max_retries = 6

abbrev pub max_segment : ℕ
max_segment = 1480

pub record Segment : Type 0 where
  pub flags : ℕ
  pub seq : ℕ
  pub ack : ℕ
  pub window : ℕ
  pub payload : List ℕ

pub record Sock : Type 0 where
  pub used : Bool
  pub refs : ℕ
  pub last_error : ℤ
  pub state : State
  pub listener : Bool
  pub snd_una : ℕ
  pub snd_nxt : ℕ
  pub irs : ℕ
  pub rcv_nxt : ℕ
  pub peer_wnd : ℕ
  pub rx : TcpRx
  pub rx_closed : Bool
  pub fin_pending : Bool
  pub detached : Bool
  pub error : Bool
  pub tx_seg : TxSeg
  pub timewait_deadline : ℕ

-- What memset leaves.
abbrev pub zero_seg : TxSeg
zero_seg = record {
  valid = false;
  flags = 0;
  seq = 0;
  len = 0;
  payload = replicate 1500 0;
  sent_tick = 0;
  retries = 0;
}

abbrev pub zero_sock : Sock
zero_sock = record {
  used = false;
  refs = 0;
  last_error = pos 0;
  state = closed;
  listener = false;
  snd_una = 0;
  snd_nxt = 0;
  irs = 0;
  rcv_nxt = 0;
  peer_wnd = 0;
  rx = record { rx_buf = replicate net_tcp_buf_max 0; rx_head = 0; rx_tail = 0; rx_len = 0 };
  rx_closed = false;
  fin_pending = false;
  detached = false;
  error = false;
  tx_seg = zero_seg;
  timewait_deadline = 0;
}

abbrev pub segment : Sock → (flags seq ack : ℕ) → List ℕ → Segment
segment s flags seq ack payload = record {
  flags = flags;
  seq = seq;
  ack = ack;
  window = net_tcp_buf_max - s.rx.rx_len;
  payload = payload;
}

-- NETERR_ECONNREFUSED, NETERR_ECONNRESET and NETERR_ETIMEDOUT
unfoldable pub tcp_on_rst : Sock → Sock
tcp_on_rst s =
    let e = if is s.state syn_sent || is s.state syn_recv then pos 111 else pos 104 in
    if s.listener && leb s.refs 1 then zero_sock else record s {
      last_error = socket_set_error s.last_error e;
      error = true;
      rx_closed = true;
      state = closed;
      tx_seg = zero_seg;
    }

module _ (send : Segment → Bool) (now : ℕ) where
  -- The `tx_seg` that a tracked segment leaves.
  tracked : Sock → (flags seq : ℕ) → List ℕ → TxSeg
  tracked s flags seq payload = record {
    valid = true;
    flags = flags;
    seq = seq;
    len = length payload;
    payload = overwrite s.tx_seg.payload 0 payload;
    sent_tick = now;
    retries = 0;
  }

  -- Whether the segment was sent, the socket, and the segment handed on.
  unfoldable pub tcp_send_segment :
      Sock → (flags seq ack : ℕ) → List ℕ → (retransmit : Bool) → Bool × Sock × List Segment
  unfolding tracked
  tcp_send_segment s flags seq ack payload retransmit =
      let track =
        not retransmit && (has flags tcp_syn || has flags tcp_fin || ltb 0 (length payload)) in
      let g = segment s flags seq ack payload in
      if ltb max_segment (length payload)
      then (false, s, [])
      else if send g
      then (true, if track then record s { tx_seg = tracked s flags seq payload } else s, g ∷ [])
      else (false, if track then record s { tx_seg = zero_seg } else s, g ∷ [])

  -- Nothing of the socket changes: the segment is marked as a retransmission and has no data.
  unfoldable pub tcp_send_ack : Sock → List Segment
  tcp_send_ack s = (tcp_send_segment s tcp_ack s.snd_nxt s.rcv_nxt [] true).2

  unfoldable pub tcp_enter_time_wait : Sock → Sock
  tcp_enter_time_wait s = record s {
    state = time_wait;
    timewait_deadline = (now + timewait_ticks) % 2 ^ 64;
  }

  -- TCP_ACK | TCP_FIN is 17.
  unfoldable pub tcp_send_fin_now : Sock → Bool × Sock × List Segment
  tcp_send_fin_now s =
      let (ok, s', out) = tcp_send_segment s 17 s.snd_nxt s.rcv_nxt [] false in
      if not ok then (false, s', out) else (
        true,
        record s' {
          snd_nxt = add32 s.snd_nxt 1;
          state =
              if is s'.state established
              then fin_wait1
              else if is s'.state close_wait
              then last_ack
              else s'.state;
        },
        out,
      )

  -- The part of tcp_ack_advance behind `snd_una = ack_seq`.
  unfoldable pub ack_segment : Sock → (ack_seq : ℕ) → Sock × List Segment
  ack_segment s ack_seq =
      let tx_end = tcp_tx_seg_end_seq (some s.tx_seg) in
      let s1 = record s { tx_seg = zero_seg } in
      let (sent, s2, out) = tcp_send_fin_now s1 in
      if not s.tx_seg.valid
      then (s, [])
      else if tcp_seq_lt ack_seq tx_end
      then (s, [])
      else if s.fin_pending && (is s.state established || is s.state close_wait)
      then (if sent then record s2 { fin_pending = false } else s2, out)
      else (s1, [])

  unfoldable pub tcp_ack_advance : Sock → (ack_seq : ℕ) → Bool × Sock × List Segment
  tcp_ack_advance s ack_seq =
      let (s', out) = ack_segment (record s { snd_una = ack_seq }) ack_seq in
      if ack_seq == s.snd_una
      then (false, s, [])
      else if tcp_seq_lt ack_seq s.snd_una || tcp_seq_gt ack_seq s.snd_nxt
      then (false, s, [])
      else (true, s', out)

  -- The transitions of process_tcp_established on an acknowledgment that advances.
  unfoldable pub acknowledged : Sock → (ack_seq : ℕ) → Sock
  acknowledged s ack_seq =
      if is s.state syn_recv && ack_seq == s.snd_nxt
      then record s { state = established }
      else if is s.state syn_sent && ack_seq == s.snd_nxt
      then record s { state = established }
      else if is s.state fin_wait1 && ack_seq == s.snd_nxt
      then if s.rx_closed then tcp_enter_time_wait s else record s { state = fin_wait2 }
      else if is s.state closing && ack_seq == s.snd_nxt
      then tcp_enter_time_wait s
      else if is s.state last_ack && ack_seq == s.snd_nxt
      then record s { state = closed; rx_closed = true }
      else s

  -- `if (flags & TCP_ACK)`: whether the function goes on, the socket, and what is sent.
  unfoldable pub ack_phase : Sock → (flags ack_seq : ℕ) → Bool × Sock × List Segment
  ack_phase s flags ack_seq =
      let (moved, s', out) = tcp_ack_advance s ack_seq in
      if not (has flags tcp_ack)
      then (true, s, [])
      else if tcp_seq_lt ack_seq s.snd_una || tcp_seq_gt ack_seq s.snd_nxt
      then (false, s, tcp_send_ack s)
      else (true, if moved then acknowledged s' ack_seq else s', out)

  -- `if (payload_len > 0U)`: whether the function goes on, `seq` and `payload_len` as they are then,
  -- the socket, and what is sent.
  unfoldable pub data_phase : Sock → (seq : ℕ) → List ℕ → Bool × (ℕ × ℕ) × Sock × List Segment
  data_phase s seq payload =
      let len = length payload in
      let trim = sub32 s.rcv_nxt seq in
      let old = tcp_seq_lt seq s.rcv_nxt in
      let rest = if old then drop trim payload else payload in
      let seq' = if old then s.rcv_nxt else seq in
      let (wrote, rx') = tcp_rx_write s.rx (some rest) (length rest) in
      let s' = record s { rx = rx'; rcv_nxt = add32 s.rcv_nxt wrote } in
      if len == 0
      then (true, (seq, 0), s, [])
      else if s.rx_closed
      then (false, (seq, len), s, tcp_send_ack s)
      else if old && leb len trim
      then (true, (seq, 0), s, tcp_send_ack s)
      else if seq' == s.rcv_nxt
      then (true, (seq', length rest), s', tcp_send_ack s')
      else (false, (seq', length rest), s, tcp_send_ack s)

  -- The transitions on a FIN in order.
  unfoldable pub fin_received : Sock → Sock
  fin_received s =
      if is s.state established
      then record s { state = close_wait }
      else if is s.state fin_wait1
      then if s.snd_una == s.snd_nxt then tcp_enter_time_wait s else record s { state = closing }
      else if is s.state fin_wait2
      then tcp_enter_time_wait s
      else if is s.state time_wait
      then tcp_enter_time_wait s
      else s

  unfoldable pub fin_phase : Sock → (flags seq payload_len : ℕ) → Sock × List Segment
  fin_phase s flags seq payload_len =
      let fin_seq = add32 seq payload_len in
      let s' = record s { rcv_nxt = add32 s.rcv_nxt 1; rx_closed = true } in
      if not (has flags tcp_fin)
      then (s, [])
      else if tcp_seq_lt fin_seq s.rcv_nxt
      then (if is s.state time_wait then tcp_enter_time_wait s else s, tcp_send_ack s)
      else if fin_seq == s.rcv_nxt
      then (fin_received s', tcp_send_ack s')
      else (s, tcp_send_ack s)

  unfoldable pub process_tcp_established :
      Sock → (flags seq ack_seq window : ℕ) → List ℕ → Sock × List Segment
  process_tcp_established s0 flags seq ack_seq window payload =
      let s = record s0 { peer_wnd = window } in
      let (on1, s1, out1) = ack_phase s flags ack_seq in
      let (on2, (seq2, len2), s2, out2) = data_phase s1 seq payload in
      let (s3, out3) = fin_phase s2 flags seq2 len2 in
      if has flags tcp_rst
      then (tcp_on_rst s, [])
      else if not on1
      then (s1, out1)
      else if not on2
      then (s2, out1 ++ out2)
      else (s3, out1 ++ (out2 ++ out3))

  -- tcp_tick on one socket that is used.
  unfoldable pub tick : Sock → Sock × List Segment
  tick s =
      let g = s.tx_seg in
      let rto = rto_ticks * 2 ^ (if ltb 3 g.retries then 3 else g.retries) in
      let resent = has g.flags tcp_syn || has g.flags tcp_fin || ltb 0 g.len in
      let flags = if resent && not (has g.flags tcp_ack) then g.flags + tcp_ack else g.flags in
      let (ok, s', out) = tcp_send_segment s flags g.seq s.rcv_nxt (take g.len g.payload) true in
      if s.detached && (is s.state closed || s.error)
      then (zero_sock, [])
      else if is s.state time_wait && not (s.timewait_deadline == 0) && leb s.timewait_deadline now
      then (zero_sock, [])
      else if not g.valid
      then (s, [])
      else if ltb (sub64 now g.sent_tick) rto
      then (s, [])
      else if leb max_retries g.retries
      then (tcp_on_rst (record s { last_error = socket_set_error s.last_error (pos 110) }), [])
      else if not ok
      then (s', out)
      else (record s' { tx_seg = record g { sent_tick = now; retries = g.retries + 1 } }, out)
