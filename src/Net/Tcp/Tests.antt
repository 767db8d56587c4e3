-- ===== src/Net/Tcp/Tests.antt =====
-- The theorems on TCP at concrete sockets and segments.
use furi_os.Prelude.{
  ℕ, ◌+◌, ◌≡◌, refl, Bool, true, false, List, [], ◌∷◌, ◌++◌, arith, take, pos, length-replicate,
}
use furi_os.Net.{tcp_seq_lt, tcp_seq_gt}
use furi_os.Net.Queues.{net_tcp_buf_max}
use furi_os.Net.Receive.{RxValid, waiting}
use furi_os.Net.Tcp.{
  Sock, Segment, zero_sock, zero_seg, established, close_wait, closed, syn_sent, is, has, segment,
  tcp_syn, tcp_ack, tcp_send_segment, tcp_ack_advance, ack_phase, data_phase, fin_phase,
  process_tcp_established, tick,
}
use furi_os.Net.Tcp.Diagram.{closes, never_reopens}
use furi_os.Net.Tcp.Stream.{received, Follows, Carries}
use furi_os.Net.Tcp.Session.{Session, Opened, reads_in_order, here, next, arrive, fetch, read_some}
use furi_os.Net.Tcp.Progress.{process_tcp_established_takes}
use furi_os.Net.Tcp.Fin.{fin_behind_duplicate}
use furi_os.Net.Tcp.Timer.{Waits, ticks, Apart, ticks_time_out, retried_syn_acks}

abbrev sends : Segment → Bool
sends g = true

abbrev open_sock : Sock
open_sock = record zero_sock {
  used = true;
  refs = 2;
  state = established;
  snd_una = 101;
  snd_nxt = 101;
  rcv_nxt = 1001;
  peer_wnd = 2048;
}

abbrev half_closed : Sock
half_closed = record open_sock { state = close_wait; rcv_nxt = 1002; rx_closed = true }

never_reopens_example :
    (closes (process_tcp_established sends 7 half_closed 16 1002 101 512 []).0.state ≡ true)
    × (closes (tick sends 7 half_closed).0.state ≡ true)
unfolding closes
never_reopens_example = never_reopens sends 7 half_closed 16 1002 101 512 [] refl

abbrev letters : List ℕ
letters = 65 ∷ 66 ∷ 67 ∷ 68 ∷ []

abbrev empty_valid : RxValid open_sock.rx
empty_valid = record {
  storage = length-replicate {A = ℕ} net_tcp_buf_max 0;
  head_in = omega arith;
  len_in = omega arith;
  tail_at = refl;
}

abbrev fresh : Session
fresh = record { sock = open_sock; read = [] }

fresh-Opened : Opened 1001 fresh
fresh-Opened = record { buffer = empty_valid; empty = refl; unread = refl; edge = refl }

first_two : Carries letters 1001 0 1001 (65 ∷ 66 ∷ [])
first_two = record {
  before = [];
  after = 67 ∷ 68 ∷ [];
  piece = refl;
  numbered = refl;
  not_far_behind = omega arith;
  not_far_ahead = omega arith;
}

fresh-Follows : Follows letters 1001 [] open_sock
unfolding received
fresh-Follows = record { buffer = empty_valid; in_order = refl; edge = λ h. refl }

process_tcp_established_takes_example :
    received [] (process_tcp_established sends 7 open_sock 16 1001 101 512 (65 ∷ 66 ∷ [])).0 ≡ 2
unfolding received has tcp_seq_lt tcp_seq_gt first_two
process_tcp_established_takes_example =
    process_tcp_established_takes sends 7 letters 1001 [] open_sock 16 1001 101 512 (65 ∷ 66 ∷ [])
      fresh-Follows first_two refl refl refl refl refl (omega arith) (omega arith)

abbrev fed : Session
fed = record fresh {
  sock = (process_tcp_established sends 7 open_sock 16 1001 101 512 (65 ∷ 66 ∷ [])).0;
}

reads_in_order_example :
    let t = read_some fed 2 in t.read ++ waiting t.sock.rx ≡ take (received t.read t.sock) letters
unfolding received has tcp_seq_lt tcp_seq_gt process_tcp_established ack_phase tcp_ack_advance
    data_phase fin_phase
reads_in_order_example = reads_in_order letters 1001 fresh (read_some fed 2) fresh-Opened (
    next (next here (arrive fresh sends 7 16 1001 101 512 (65 ∷ 66 ∷ []) first_two refl))
      (fetch fed 2))

fin_behind_duplicate_example :
    let bare = (process_tcp_established sends 7 open_sock 17 1001 101 512 []).0 in
    let behind = (process_tcp_established sends 7 open_sock 17 999 101 512 (65 ∷ 66 ∷ [])).0 in
    (bare.state ≡ close_wait)
    × (bare.rx_closed ≡ true)
    × (behind ≡ record open_sock { peer_wnd = 512 })
unfolding has tcp_seq_gt
fin_behind_duplicate_example =
    fin_behind_duplicate sends 7 open_sock 17 999 512 (65 ∷ 66 ∷ []) refl refl refl refl
      (omega arith) refl (omega arith) (omega arith) (omega arith) refl

abbrev connecting : Sock
connecting = record zero_sock {
  used = true;
  refs = 1;
  state = syn_sent;
  snd_una = 100;
  snd_nxt = 101;
  tx_seg = record zero_seg { valid = true; flags = 2; seq = 100; sent_tick = 10 };
}

connecting-Waits : Waits connecting
unfolding is
connecting-Waits = record { outstanding = refl; fits = omega arith; attached = refl; active = refl }

retried_syn_acks_example :
    let (ok, s', out) = tcp_send_segment sends 10 connecting tcp_syn 100 0 [] false in
    (out ≡ segment connecting tcp_syn 100 0 [] ∷ [])
    × ((tick sends 500 s').1 ≡ segment connecting (tcp_syn + tcp_ack) 100 0 [] ∷ [])
unfolding is
retried_syn_acks_example =
    retried_syn_acks sends 10 500 connecting 100 (λ g. refl) refl refl (omega arith)

ticks_time_out_example :
    let t = ticks sends (500 ∷ 1000 ∷ 1500 ∷ 2000 ∷ 2500 ∷ 3000 ∷ 3500 ∷ []) connecting in
    (t.state ≡ closed) × (t.last_error ≡ pos 110) × (t.error ≡ true) × (t.tx_seg ≡ zero_seg)
unfolding Apart
ticks_time_out_example =
    ticks_time_out sends (500 ∷ 1000 ∷ 1500 ∷ 2000 ∷ 2500 ∷ 3000 ∷ 3500 ∷ []) connecting (λ g. refl)
      connecting-Waits refl refl (omega arith)
      (
        omega arith,
        (
          omega arith,
          (omega arith, (omega arith, (omega arith, (omega arith, (omega arith, tt))))),
        ),
      )
      refl
