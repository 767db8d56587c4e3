-- ===== src/Net/Tcp/Diagram.antt =====
-- The transition diagram of the TCP states of kernel/net.c, with the rest of the socket left out.
use furi_os.Prelude.{
  ℕ, ◌+◌, ◌≡◌, refl, sym, subst, Bool, true, false, not, ◌&&◌, ◌||◌, List, [], ltb, leb,
  if◌then◌else◌, if_cases, arith, take, pos, add32,
}
use furi_os.Net.Tcp.{
  listen, State, closed, Sock, is, syn_recv, Segment, tcp_send_fin_now, acknowledged,
  tcp_send_segment, established, ack_segment, fin_received, zero_seg, syn_sent, tcp_enter_time_wait,
  fin_wait1, close_wait, last_ack, fin_wait2, time_wait, closing, fin_phase,
  process_tcp_established, data_phase, tcp_on_rst, ack_phase, tick, tcp_ack_advance,
  socket_set_error, has, tcp_syn, tcp_fin, tcp_ack,
}

infix 40 ◌⟶◌ ◌⟶*◌
-- One assignment to `state`. `abort` is a reset, a timeout, or the end of TIME_WAIT.
pub data ◌⟶◌ : State → State → Type 0 where
  accept_acked : syn_recv ⟶ established
  connect_acked : syn_sent ⟶ established
  active_close : established ⟶ fin_wait1
  passive_close : close_wait ⟶ last_ack
  fin_acked : fin_wait1 ⟶ fin_wait2
  fin_acked_last : fin_wait1 ⟶ time_wait
  peer_closes : established ⟶ close_wait
  both_close : fin_wait1 ⟶ closing
  closing_acked : closing ⟶ time_wait
  peer_closes_last : fin_wait2 ⟶ time_wait
  fin_again : time_wait ⟶ time_wait
  last_acked : last_ack ⟶ closed
  abort : {s : State} → s ⟶ closed

pub data ◌⟶*◌ : State → State → Type 0 where
  here : {s : State} → s ⟶* s
  next : {s t u : State} → s ⟶ t → t ⟶* u → s ⟶* u

one_step : {s t : State} → s ⟶ t → s ⟶* t
one_step e = next e here

⟶*-trans : {s t u : State} → s ⟶* t → t ⟶* u → s ⟶* u
⟶*-trans here q = q
⟶*-trans (next e p) q = next e (⟶*-trans p q)

ruleset edges = (
  here, one_step, accept_acked, connect_acked, active_close, passive_close, fin_acked,
  fin_acked_last, peer_closes, both_close, closing_acked, peer_closes_last, fin_again, last_acked,
  abort,
)

tcp_on_rst-⟶* : (s : Sock) → s.state ⟶* (tcp_on_rst s).state
unfolding tcp_on_rst
tcp_on_rst-⟶* s =
    if_cases {A = Sock} (λ t. s.state ⟶* t.state) (s.listener && leb s.refs 1) _ _
      (λ _. one_step abort) (λ _. one_step abort)

module _ (send : Segment → Bool) (now : ℕ) where
  tcp_send_segment_state :
      (s : Sock) (flags seq ack : ℕ) (payload : List ℕ) (retransmit : Bool)
      → (tcp_send_segment send now s flags seq ack payload retransmit).1.state ≡ s.state
  unfolding tcp_send_segment
  tcp_send_segment_state s flags seq ack payload retransmit = ground arith

  tcp_send_fin_now-⟶* : (s : Sock) → s.state ⟶* (tcp_send_fin_now send now s).1.state
  unfolding tcp_send_fin_now is
  tcp_send_fin_now-⟶* s =
      grind (arith, tcp_send_segment_state s 17 s.snd_nxt s.rcv_nxt [] false, edges)

  ack_segment-⟶* : (s : Sock) (ack_seq : ℕ) → s.state ⟶* (ack_segment send now s ack_seq).0.state
  unfolding ack_segment
  ack_segment-⟶* s ack_seq =
      grind (arith, here, tcp_send_fin_now-⟶* (record s { tx_seg = zero_seg }))

  acknowledged-⟶* : (s : Sock) (ack_seq : ℕ) → s.state ⟶* (acknowledged send now s ack_seq).state
  unfolding acknowledged tcp_enter_time_wait is
  acknowledged-⟶* s ack_seq = grind (arith, edges)

  ack_phase-⟶* :
      (s : Sock) (flags ack_seq : ℕ) → s.state ⟶* (ack_phase send now s flags ack_seq).1.state
  unfolding ack_phase tcp_ack_advance
  ack_phase-⟶* s flags ack_seq =
      let s1 = record s { snd_una = ack_seq } in
      let (s2, out) = ack_segment send now s1 ack_seq in
      grind (
        arith,
        here,
        ack_segment-⟶* s1 ack_seq,
        ⟶*-trans (ack_segment-⟶* s1 ack_seq) (acknowledged-⟶* s2 ack_seq),
      )

  data_phase_state :
      (s : Sock) (seq : ℕ) (payload : List ℕ)
      → (data_phase send now s seq payload).2.state ≡ s.state
  unfolding data_phase
  data_phase_state s seq payload = ground arith

  fin_received-⟶* : (s : Sock) → s.state ⟶* (fin_received send now s).state
  unfolding fin_received tcp_enter_time_wait is
  fin_received-⟶* s = grind (arith, edges)

  fin_phase-⟶* :
      (s : Sock) (flags seq payload_len : ℕ)
      → s.state ⟶* (fin_phase send now s flags seq payload_len).0.state
  unfolding fin_phase tcp_enter_time_wait is
  fin_phase-⟶* s flags seq payload_len =
      grind
        (arith, edges, fin_received-⟶* (record s { rcv_nxt = add32 s.rcv_nxt 1; rx_closed = true }))

  process_tcp_established-⟶* :
      (s : Sock) (flags seq ack_seq window : ℕ) (payload : List ℕ)
      → s.state ⟶* (process_tcp_established send now s flags seq ack_seq window payload).0.state
  unfolding process_tcp_established
  process_tcp_established-⟶* s0 flags seq ack_seq window payload =
      let s = record s0 { peer_wnd = window } in
      let (on1, s1, out1) = ack_phase send now s flags ack_seq in
      let (on2, (seq2, len2), s2, out2) = data_phase send now s1 seq payload in
      let acked = ack_phase-⟶* s flags ack_seq in
      let stored = data_phase_state s1 seq payload in
      grind (
        arith,
        tcp_on_rst-⟶* s,
        acked,
        stored,
        subst (λ t. s.state ⟶* t) (sym stored) acked,
        ⟶*-trans (subst (λ t. s.state ⟶* t) (sym stored) acked) (fin_phase-⟶* s2 flags seq2 len2),
      )

  tick-⟶* : (s : Sock) → s.state ⟶* (tick send now s).0.state
  unfolding tick
  tick-⟶* s =
      let s1 = record s { last_error = socket_set_error s.last_error (pos 110) } in
      let resent = has s.tx_seg.flags tcp_syn || has s.tx_seg.flags tcp_fin || ltb 0 s.tx_seg.len in
      let flags =
        if resent && not (has s.tx_seg.flags tcp_ack)
        then s.tx_seg.flags + tcp_ack
        else s.tx_seg.flags in
      grind (
        arith,
        edges,
        tcp_on_rst-⟶* s1,
        tcp_send_segment_state s flags s.tx_seg.seq s.rcv_nxt (take s.tx_seg.len s.tx_seg.payload)
            true,
      )

  -- Whatever segment arrives, and whenever the timer runs, the state of a socket moves along the edges
  -- of the diagram.
  transitions :
      (s : Sock) (flags seq ack_seq window : ℕ) (payload : List ℕ)
      → (s.state ⟶* (process_tcp_established send now s flags seq ack_seq window payload).0.state)
        × (s.state ⟶* (tick send now s).0.state)
  transitions s flags seq ack_seq window payload =
      (process_tcp_established-⟶* s flags seq ack_seq window payload, tick-⟶* s)

-- The states behind the first FIN that is sent or received, and CLOSED.
unfoldable pub closes : State → Bool
closes listen = false
closes syn_sent = false
closes syn_recv = false
closes established = false
closes _ = true

⟶-closes : {s t : State} → s ⟶ t → closes s ≡ true → closes t ≡ true
unfolding closes
⟶-closes accept_acked h = h
⟶-closes connect_acked h = h
⟶-closes active_close h = refl
⟶-closes passive_close h = refl
⟶-closes fin_acked h = refl
⟶-closes fin_acked_last h = refl
⟶-closes peer_closes h = refl
⟶-closes both_close h = refl
⟶-closes closing_acked h = refl
⟶-closes peer_closes_last h = refl
⟶-closes fin_again h = refl
⟶-closes last_acked h = refl
⟶-closes abort h = refl

⟶*-closes : {s t : State} → s ⟶* t → closes s ≡ true → closes t ≡ true
⟶*-closes here h = h
⟶*-closes (next e p) h = ⟶*-closes p (⟶-closes e h)

-- A socket that closes is never opened again: in a state behind the first FIN, or in CLOSED, no
-- segment and no run of the timer brings it back to ESTABLISHED or to a state before.
pub never_reopens :
    (send : Segment → Bool) (now : ℕ) (s : Sock) (flags seq ack_seq window : ℕ) (payload : List ℕ)
    → closes s.state ≡ true
    → (closes (process_tcp_established send now s flags seq ack_seq window payload).0.state ≡ true)
      × (closes (tick send now s).0.state ≡ true)
never_reopens send now s flags seq ack_seq window payload h =
    let (arrive, expire) = transitions send now s flags seq ack_seq window payload in
    (⟶*-closes arrive h, ⟶*-closes expire h)
