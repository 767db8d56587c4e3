-- ===== src/Net/Tcp/Frame.antt =====
-- What a segment or the timer leaves of the receiving side of a TCP socket in kernel/net.c when it
-- takes in no data.
use furi_os.Prelude.{
  ℕ, ◌+◌, ◌≡◌, refl, ◌∙◌, Bool, true, false, not, ◌&&◌, ◌||◌, List, [], ltb, if◌then◌else◌, arith,
  take, pos, add32,
}
use furi_os.Net.Tcp.{
  Sock, tick, Segment, tcp_on_rst, ack_segment, tcp_send_fin_now, tcp_ack_advance, ack_phase,
  socket_set_error, fin_received, tcp_send_segment, fin_phase, acknowledged, zero_seg, has,
  tcp_enter_time_wait, tcp_syn, tcp_fin, tcp_ack,
}

-- What may happen to the receiving side of a socket while nothing is taken in.
unfoldable pub Keeps : Sock → Sock → Type 0
Keeps s t = (t.rx ≡ s.rx) × (t.rx_closed ≡ false → (s.rx_closed ≡ false) × (t.rcv_nxt ≡ s.rcv_nxt))

pub Keeps-refl : (s : Sock) → Keeps s s
unfolding Keeps
Keeps-refl s = (refl, λ h. (h, refl))

pub Keeps-trans : (s t u : Sock) → Keeps s t → Keeps t u → Keeps s u
unfolding Keeps
Keeps-trans s t u p q = (q.0 ∙ p.0, λ h. let (a, b) = q.1 h in let (c, d) = p.1 a in (c, b ∙ d))

pub tcp_on_rst-Keeps : (s : Sock) → (tcp_on_rst s).used ≡ true → Keeps s (tcp_on_rst s)
unfolding tcp_on_rst Keeps
tcp_on_rst-Keeps s h = ground arith

module _ (send : Segment → Bool) (now : ℕ) where
  tcp_send_segment-Keeps :
      (s : Sock) (flags seq ack : ℕ) (payload : List ℕ) (retransmit : Bool)
      → Keeps s (tcp_send_segment send now s flags seq ack payload retransmit).1
  unfolding tcp_send_segment Keeps
  tcp_send_segment-Keeps s flags seq ack payload retransmit = ground arith

  tcp_send_fin_now-Keeps : (s : Sock) → Keeps s (tcp_send_fin_now send now s).1
  unfolding tcp_send_fin_now Keeps
  tcp_send_fin_now-Keeps s =
      ground (arith, tcp_send_segment-Keeps s 17 s.snd_nxt s.rcv_nxt [] false)

  ack_segment-Keeps : (s : Sock) (ack_seq : ℕ) → Keeps s (ack_segment send now s ack_seq).0
  unfolding ack_segment Keeps
  ack_segment-Keeps s ack_seq =
      ground (arith, tcp_send_fin_now-Keeps (record s { tx_seg = zero_seg }))

  acknowledged-Keeps : (s : Sock) (ack_seq : ℕ) → Keeps s (acknowledged send now s ack_seq)
  unfolding acknowledged tcp_enter_time_wait Keeps
  acknowledged-Keeps s ack_seq = ground arith

  tcp_ack_advance-Keeps : (s : Sock) (ack_seq : ℕ) → Keeps s (tcp_ack_advance send now s ack_seq).1
  unfolding tcp_ack_advance Keeps
  tcp_ack_advance-Keeps s ack_seq =
      ground (arith, ack_segment-Keeps (record s { snd_una = ack_seq }) ack_seq)

  pub ack_phase-Keeps :
      (s : Sock) (flags ack_seq : ℕ) → Keeps s (ack_phase send now s flags ack_seq).1
  unfolding ack_phase Keeps
  ack_phase-Keeps s flags ack_seq =
      let s2 : Sock = (tcp_ack_advance send now s ack_seq).1 in
      let first = tcp_ack_advance-Keeps s ack_seq in
      ground (arith, first, Keeps-trans s s2 _ first (acknowledged-Keeps s2 ack_seq))

  fin_received-Keeps :
      (s : Sock)
      → s.rx_closed ≡ true
      → (Keeps s (fin_received send now s)) × ((fin_received send now s).rx_closed ≡ true)
  unfolding fin_received tcp_enter_time_wait Keeps
  fin_received-Keeps s h = ground arith

  pub fin_phase-Keeps :
      (s : Sock) (flags seq payload_len : ℕ)
      → Keeps s (fin_phase send now s flags seq payload_len).0
  unfolding fin_phase tcp_enter_time_wait Keeps
  fin_phase-Keeps s flags seq payload_len =
      ground (
        arith,
        fin_received-Keeps (record s { rcv_nxt = add32 s.rcv_nxt 1; rx_closed = true }) refl,
      )

  pub tick-Keeps : (s : Sock) → (tick send now s).0.used ≡ true → Keeps s (tick send now s).0
  unfolding tick Keeps
  tick-Keeps s h =
      let s1 = record s { last_error = socket_set_error s.last_error (pos 110) } in
      let resent = has s.tx_seg.flags tcp_syn || has s.tx_seg.flags tcp_fin || ltb 0 s.tx_seg.len in
      let flags =
        if resent && not (has s.tx_seg.flags tcp_ack)
        then s.tx_seg.flags + tcp_ack
        else s.tx_seg.flags in
      ground (
        arith,
        tcp_on_rst-Keeps s1,
        tcp_send_segment-Keeps s flags s.tx_seg.seq s.rcv_nxt (take s.tx_seg.len s.tx_seg.payload)
            true,
      )
