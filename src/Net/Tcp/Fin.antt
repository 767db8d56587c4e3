-- ===== src/Net/Tcp/Fin.antt =====
-- A FIN behind data that a TCP socket of kernel/net.c already has.
use furi_os.Prelude.{
  ℕ, ◌^◌, ◌≤◌, ◌<◌, ◌≡◌, refl, sym, ◌∙◌, Bool, true, false, false≢true, List, [], if_cases, arith,
  length, add32,
}
use furi_os.Net.{tcp_seq_lt, tcp_seq_gt}
use furi_os.Net.Tcp.{
  Sock, Segment, established, close_wait, is, has, tcp_rst, tcp_fin, ack_phase, data_phase,
  fin_phase, fin_received, tcp_ack_advance, process_tcp_established, tcp_send_ack,
}

seq_lt_self : (a : ℕ) → a < 2 ^ 32 → tcp_seq_lt a a ≡ false
unfolding tcp_seq_lt
seq_lt_self a h = ground arith

module _ (send : Segment → Bool) (now : ℕ) where
  idle_ack :
      (s : Sock) (flags : ℕ)
      → s.snd_una < 2 ^ 32
      → tcp_seq_gt s.snd_una s.snd_nxt ≡ false
      → ack_phase send now s flags s.snd_una ≡ (true, s, [])
  unfolding ack_phase tcp_ack_advance
  idle_ack s flags h k = let lt = seq_lt_self s.snd_una h in ground arith

  no_data : (s : Sock) (seq : ℕ) → data_phase send now s seq [] ≡ (true, (seq, 0), s, [])
  unfolding data_phase
  no_data s seq = refl

  duplicate_data :
      (s : Sock) (seq : ℕ) (payload : List ℕ)
      → s.rx_closed ≡ false
      → seq < 2 ^ 32
      → 0 < length payload
      → length payload ≤ 2 ^ 31
      → add32 seq (length payload) ≡ s.rcv_nxt
      → (tcp_seq_lt seq s.rcv_nxt ≡ true)
        × (data_phase send now s seq payload ≡ (true, (seq, 0), s, tcp_send_ack send now s))
  unfolding data_phase tcp_seq_lt
  duplicate_data s seq payload unclosed low some_data short at = (ground arith, ground arith)

  late_fin :
      (s : Sock) (flags seq : ℕ)
      → s.state ≡ established
      → has flags tcp_fin ≡ true
      → seq < 2 ^ 32
      → tcp_seq_lt seq s.rcv_nxt ≡ true
      → (fin_phase send now s flags seq 0).0 ≡ s
  unfolding fin_phase is
  late_fin s flags seq est fin low old = let same : add32 seq 0 ≡ seq = omega arith in ground arith

  next_fin :
      (s : Sock) (flags : ℕ)
      → s.state ≡ established
      → has flags tcp_fin ≡ true
      → s.rcv_nxt < 2 ^ 32
      → let t = (fin_phase send now s flags s.rcv_nxt 0).0 in
        (t.state ≡ close_wait) × (t.rx_closed ≡ true)
  unfolding fin_phase fin_received is
  next_fin s flags est fin low =
      let same : add32 s.rcv_nxt 0 ≡ s.rcv_nxt = omega arith in
      let lt = seq_lt_self s.rcv_nxt low in ground arith

-- In ESTABLISHED, a FIN that is the next byte expected is taken when it comes without data: the
-- state becomes CLOSE_WAIT and the receiving side is closed. When it comes behind data that was
-- received before, it is ignored, and only the window changes, though a comment at that place says
-- that its processing goes on. In both cases the segment acknowledges nothing new and has no RST.
pub fin_behind_duplicate :
    (send : Segment → Bool) (now : ℕ) (s : Sock) (flags seq window : ℕ) (payload : List ℕ)
    → s.state ≡ established
    → s.rx_closed ≡ false
    → has flags tcp_rst ≡ false
    → has flags tcp_fin ≡ true
    → s.snd_una < 2 ^ 32
    → tcp_seq_gt s.snd_una s.snd_nxt ≡ false
    → seq < 2 ^ 32
    → 0 < length payload
    → length payload ≤ 2 ^ 31
    → add32 seq (length payload) ≡ s.rcv_nxt
    → let bare = (process_tcp_established send now s flags s.rcv_nxt s.snd_una window []).0 in
      let behind = (process_tcp_established send now s flags seq s.snd_una window payload).0 in
      (bare.state ≡ close_wait)
      × (bare.rx_closed ≡ true)
      × (behind ≡ record s { peer_wnd = window })
unfolding process_tcp_established
fin_behind_duplicate send now s0 flags seq window payload est unclosed no_rst fin una order low
      some_data short at =
    let s : Sock = record s0 { peer_wnd = window } in
    let idle : ack_phase send now s flags s0.snd_una ≡ (true, s, []) =
      idle_ack send now s flags una order in
    let empty = no_data send now s s0.rcv_nxt in
    let dup = duplicate_data send now s seq payload unclosed low some_data short at in
    let bare = next_fin send now s flags est fin (omega (arith, at)) in
    let behind = late_fin send now s flags seq est fin low dup.0 in
    let P : Sock × List Segment → Type 0 = λ r. (r.0.state ≡ close_wait) × (r.0.rx_closed ≡ true) in
    let Q : Sock × List Segment → Type 0 = λ r. r.0 ≡ s in
    let (bare_taken, bare_closed) : P
        (process_tcp_established send now s0 flags s0.rcv_nxt s0.snd_una window []) =
      if_cases P (has flags tcp_rst) _ _ (λ r. absurd (false≢true (sym no_rst ∙ r)))
        (λ _. rw idle (rw empty bare)) in
    let ignored : Q (process_tcp_established send now s0 flags seq s0.snd_una window payload) =
      if_cases Q (has flags tcp_rst) _ _ (λ r. absurd (false≢true (sym no_rst ∙ r)))
        (λ _. rw idle (rw dup.1 behind)) in
    (bare_taken, bare_closed, ignored)
