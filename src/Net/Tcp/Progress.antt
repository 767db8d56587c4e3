-- ===== src/Net/Tcp/Progress.antt =====
-- That a TCP socket of kernel/net.c takes in the bytes it waits for.
use furi_os.Prelude.{
  ℕ, ◌+◌, ◌-◌, ◌≤◌, ◌<◌, min, ◌≡◌, ap, ap₂, sym, ◌∙◌, ◌⊎◌, Bool, true, false, false≢true, not, List,
  [], if_cases, arith, length,
}
use furi_os.Net.{tcp_seq_lt, tcp_seq_gt}
use furi_os.Net.Queues.{net_tcp_buf_max}
use furi_os.Net.Tcp.{
  fin_wait1, zero_seg, Sock, Segment, established, has, is, tcp_rst, process_tcp_established,
  data_phase, ack_phase, fin_phase, tcp_ack_advance, ack_segment, tcp_send_fin_now,
  tcp_send_segment, acknowledged, tcp_enter_time_wait,
}
use furi_os.Net.Tcp.Frame.{Keeps, ack_phase-Keeps, fin_phase-Keeps}
use furi_os.Net.Tcp.Stream.{received, Follows, Carries, Keeps-Follows, taken_lem, data_phase_new}

-- the receiving side is as open as before, and no FIN of the peer was taken
Open : Sock → Sock → Type 0
Open s t =
    (t.rx_closed ≡ s.rx_closed)
    × (s.state ≡ established → (t.state ≡ established) ⊎ (t.state ≡ fin_wait1))

module _ (send : Segment → Bool) (now : ℕ) where
  tcp_send_segment-Open :
      (s : Sock) (flags seq ack : ℕ) (payload : List ℕ) (retransmit : Bool)
      → let t = (tcp_send_segment send now s flags seq ack payload retransmit).1 in
        (t.rx_closed ≡ s.rx_closed) × (t.state ≡ s.state)
  unfolding tcp_send_segment
  tcp_send_segment-Open s flags seq ack payload retransmit = ground arith

  tcp_send_fin_now-Open : (s : Sock) → Open s (tcp_send_fin_now send now s).1
  unfolding tcp_send_fin_now Open is
  tcp_send_fin_now-Open s = ground (arith, tcp_send_segment-Open s 17 s.snd_nxt s.rcv_nxt [] false)

  ack_segment-Open : (s : Sock) (ack_seq : ℕ) → Open s (ack_segment send now s ack_seq).0
  unfolding ack_segment Open
  ack_segment-Open s ack_seq =
      ground (arith, tcp_send_fin_now-Open (record s { tx_seg = zero_seg }))

  tcp_ack_advance-Open : (s : Sock) (ack_seq : ℕ) → Open s (tcp_ack_advance send now s ack_seq).1
  unfolding tcp_ack_advance Open
  tcp_ack_advance-Open s ack_seq =
      ground (arith, ack_segment-Open (record s { snd_una = ack_seq }) ack_seq)

  acknowledged_open :
      (s : Sock) (ack_seq : ℕ)
      → (s.state ≡ established) ⊎ (s.state ≡ fin_wait1)
      → (acknowledged send now s ack_seq).rx_closed ≡ s.rx_closed
  unfolding acknowledged tcp_enter_time_wait is
  acknowledged_open s ack_seq h = ground arith

ack_phase_open :
    (send : Segment → Bool) (now : ℕ) (s : Sock) (flags ack_seq : ℕ)
    → s.state ≡ established
    → (ack_phase send now s flags ack_seq).1.rx_closed ≡ s.rx_closed
unfolding ack_phase Open
ack_phase_open send now s flags ack_seq h =
    let s2 : Sock = (tcp_ack_advance send now s ack_seq).1 in
    let (same, state) = tcp_ack_advance-Open send now s ack_seq in
    ground (arith, same, acknowledged_open send now s2 ack_seq (state h))

ack_phase_goes_on :
    (send : Segment → Bool) (now : ℕ) (s : Sock) (flags ack_seq : ℕ)
    → tcp_seq_lt ack_seq s.snd_una ≡ false
    → tcp_seq_gt ack_seq s.snd_nxt ≡ false
    → (ack_phase send now s flags ack_seq).0 ≡ true
unfolding ack_phase
ack_phase_goes_on send now s flags ack_seq h k = ground arith

data_phase_takes :
    (send : Segment → Bool) (now : ℕ) (stream : List ℕ) (base : ℕ) (read : List ℕ) (s : Sock)
    (seq : ℕ) (payload : List ℕ)
    → Follows stream base read s
    → (c : Carries stream base (received read s) seq payload) → s.rx_closed ≡ false
    → length c.before ≤ received read s
    → received read s < length c.before + length payload
    → received read (data_phase send now s seq payload).2
      ≡ received read s
        + min (length c.before + length payload - received read s) (net_tcp_buf_max - s.rx.rx_len)
data_phase_takes send now stream base read s seq payload f c unclosed early late =
    ap (received read) (
      data_phase_new send now base (length c.before) (received read s) s seq payload c.numbered
        (f.edge unclosed) early c.not_far_behind late unclosed)
    ∙ (taken_lem stream base read s c.before payload c.after f c.piece early (omega (arith, late))
        unclosed).1

-- In ESTABLISHED, a segment without RST and with an acknowledgment in the window, that has the next
-- byte expected in it, brings in the rest of its bytes, as many as the buffer has room for, whatever
-- its other flags are and whether or not the answers can be sent.
pub process_tcp_established_takes :
    (send : Segment → Bool) (now : ℕ) (stream : List ℕ) (base : ℕ) (read : List ℕ) (s : Sock)
    (flags seq ack_seq window : ℕ) (payload : List ℕ)
    → Follows stream base read s
    → (c : Carries stream base (received read s) seq payload) → s.state ≡ established
    → s.rx_closed ≡ false
    → has flags tcp_rst ≡ false
    → tcp_seq_lt ack_seq s.snd_una ≡ false
    → tcp_seq_gt ack_seq s.snd_nxt ≡ false
    → length c.before ≤ received read s
    → received read s < length c.before + length payload
    → received read (process_tcp_established send now s flags seq ack_seq window payload).0
      ≡ received read s
        + min (length c.before + length payload - received read s) (net_tcp_buf_max - s.rx.rx_len)
unfolding process_tcp_established received Keeps
process_tcp_established_takes send now stream base read s0 flags seq ack_seq window payload f c est
      unclosed no_rst low high early late =
    let s : Sock = record s0 { peer_wnd = window } in
    let s1 : Sock = (ack_phase send now s flags ack_seq).1 in
    let kept : s1.rx ≡ s.rx = (ack_phase-Keeps send now s flags ack_seq).0 in
    let f0 : Follows stream base read s = record {
      buffer = f.buffer;
      in_order = f.in_order;
      edge = f.edge;
    } in
    let f1 = Keeps-Follows stream base read s s1 (ack_phase-Keeps send now s flags ack_seq) f0 in
    let same : received read s1 ≡ received read s = ap (λ q. length read + q.rx_len) kept in
    let c1 : Carries stream base (received read s1) seq payload = record {
      before = c.before;
      after = c.after;
      piece = c.piece;
      numbered = c.numbered;
      not_far_behind = omega (arith, same, c.not_far_behind);
      not_far_ahead = omega (arith, same, c.not_far_ahead);
    } in
    let (go, (seq2, len2), s2, out2) = data_phase send now s1 seq payload in
    let more : ℕ = length c.before + length payload - received read s in
    let room : s1.rx.rx_len ≡ s.rx.rx_len = ap (λ q. q.rx_len) kept in
    let taken : received read s2 ≡ received read s + min more (net_tcp_buf_max - s.rx.rx_len) =
      data_phase_takes send now stream base read s1 seq payload f1 c1
        (ack_phase_open send now s flags ack_seq est ∙ unclosed) (omega (arith, same))
        (omega (arith, same))
      ∙ ap₂ (λ a b. a + min (length c.before + length payload - a) (net_tcp_buf_max - b)) same
          room in
    let s3 : Sock = (fin_phase send now s2 flags seq2 len2).0 in
    let last : received read s3 ≡ received read s2 =
      ap (λ q. length read + q.rx_len) (fin_phase-Keeps send now s2 flags seq2 len2).0 in
    let P : Sock × List Segment → Type 0 =
      λ t. received read t.0 ≡ received read s + min more (net_tcp_buf_max - s.rx.rx_len) in
    if_cases P (has flags tcp_rst) _ _ (λ r. absurd (false≢true (sym no_rst ∙ r)))
      (λ _.
        if_cases P (not (ack_phase send now s flags ack_seq).0) _ _
          (λ r.
            absurd
              (false≢true (sym (ap not (ack_phase_goes_on send now s flags ack_seq low high)) ∙ r)))
          (λ _. if_cases P (not go) _ _ (λ _. taken) (λ _. last ∙ taken)))
