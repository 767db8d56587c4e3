-- ===== src/Net/Tcp/Timer.antt =====
-- The retransmission timer of a TCP socket in kernel/net.c over successive ticks.
use furi_os.Prelude.{
  ℕ, zero, suc, ◌+◌, ◌*◌, ◌^◌, ◌≤◌, ◌<◌, ◌≡◌, refl, inl, inr, Bool, true, false, not, ◌&&◌, ◌||◌,
  List, [], ◌∷◌, ltb, if◌then◌else◌, arith, Bool-cases, sub64, length, take, pos,
}
use furi_os.Prelude.{length-take}
use furi_os.Net.Socket.{socket_set_error}
use furi_os.Net.Tcp.{
  Sock, Segment, closed, syn_sent, time_wait, is, has, tick, tcp_on_rst, tcp_send_segment, segment,
  zero_seg, tcp_syn, tcp_fin, tcp_ack, max_segment, max_retries, rto_ticks, syn_recv,
}

-- A segment waits for its acknowledgment, and no other branch of tcp_tick applies.
pub record Waits (s : Sock) : Type 0 where
  pub outstanding : s.tx_seg.valid ≡ true
  pub fits : s.tx_seg.len ≤ max_segment
  pub attached : s.detached ≡ false
  pub active : is s.state time_wait ≡ false

length-take_le : {A : Type 0} (n m : ℕ) (xs : List A) → n ≤ m → ltb m (length (take n xs)) ≡ false
length-take_le n m xs h = ground (arith, length-take n xs)

-- rto_ticks * 2 ^ 3 is the longest wait.
rto_le : (retries : ℕ) → rto_ticks * 2 ^ (if ltb 3 retries then 3 else retries) ≤ 408
rto_le zero = omega arith
rto_le (suc zero) = omega arith
rto_le (suc (suc zero)) = omega arith
rto_le (suc (suc (suc zero))) = omega arith
rto_le (suc (suc (suc (suc r)))) =
    let many : ltb 3 (suc (suc (suc (suc r)))) ≡ true = ground arith in rw many (omega arith)

resent :
    (send : Segment → Bool) (now : ℕ) (s : Sock) (flags seq ack n : ℕ) (xs : List ℕ)
    → ((g : Segment) → send g ≡ true)
    → n ≤ max_segment
    → let (ok, s', out) = tcp_send_segment send now s flags seq ack (take n xs) true in
      (ok ≡ true) × (s' ≡ s)
unfolding tcp_send_segment
resent send now s flags seq ack n xs all h =
    let short = length-take_le n max_segment xs h in
    let goes = all (segment s flags seq ack (take n xs)) in rw short (rw goes (refl, refl))

tick_resends :
    (send : Segment → Bool) (now : ℕ) (s : Sock)
    → ((g : Segment) → send g ≡ true)
    → Waits s
    → 408 ≤ sub64 now s.tx_seg.sent_tick
    → s.tx_seg.retries < max_retries
    → (tick send now s).0
      ≡ record s { tx_seg = record s.tx_seg { sent_tick = now; retries = s.tx_seg.retries + 1 } }
unfolding tick
tick_resends send now s all w late few =
    let g = s.tx_seg in
    let resend = has g.flags tcp_syn || has g.flags tcp_fin || ltb 0 g.len in
    let flags = if resend && not (has g.flags tcp_ack) then g.flags + tcp_ack else g.flags in
    let sent = resent send now s flags g.seq s.rcv_nxt g.len g.payload all w.fits in
    ground (arith, w.outstanding, w.attached, w.active, sent, rto_le g.retries)

timed_out :
    (s : Sock)
    → s.listener ≡ false
    → s.last_error ≡ pos 0
    → let t = tcp_on_rst (record s { last_error = socket_set_error s.last_error (pos 110) }) in
      (t.state ≡ closed) × (t.last_error ≡ pos 110) × (t.error ≡ true) × (t.tx_seg ≡ zero_seg)
unfolding tcp_on_rst socket_set_error
timed_out s l e = rw l (
    rw e (elim (Bool-cases (is s.state syn_sent || is s.state syn_recv)) [
      | inl h ↦ rw h (refl, refl, refl, refl)
      | inr h ↦ rw h (refl, refl, refl, refl)
    ]))

unsent :
    (send : Segment → Bool) (now : ℕ) (s : Sock) (flags seq ack : ℕ) (payload : List ℕ)
    → ((g : Segment) → send g ≡ false)
    → let (ok, s', out) = tcp_send_segment send now s flags seq ack payload true in
      (ok ≡ false) × (s' ≡ s)
unfolding tcp_send_segment
unsent send now s flags seq ack payload fails =
    let fail = fails (segment s flags seq ack payload) in ground (arith, fail)

tick_gives_up :
    (send : Segment → Bool) (now : ℕ) (s : Sock)
    → Waits s
    → s.listener ≡ false
    → 408 ≤ sub64 now s.tx_seg.sent_tick
    → max_retries ≤ s.tx_seg.retries
    → s.last_error ≡ pos 0
    → let t = (tick send now s).0 in
      (t.state ≡ closed) × (t.last_error ≡ pos 110) × (t.error ≡ true) × (t.tx_seg ≡ zero_seg)
unfolding tick
tick_gives_up send now s w l late many e =
    ground (arith, w.outstanding, w.attached, w.active, rto_le s.tx_seg.retries, timed_out s l e)

-- tcp_tick at each of the times.
unfoldable pub ticks : (send : Segment → Bool) → List ℕ → Sock → Sock
ticks send [] s = s
ticks send (now ∷ times) s = ticks send times (tick send now s).0

-- Each time is 408 ticks or more behind the one before it.
unfoldable pub Apart : (last : ℕ) → List ℕ → Type 0
Apart last [] = Unit
Apart last (now ∷ times) = (408 ≤ sub64 now last) × Apart now times

-- A segment that is never acknowledged, though each transmission of it succeeds, is given up: with
-- `retries` retransmissions behind it, the (7 - retries)-th tick, when each comes 408 ticks or more
-- after the one before, closes the socket with the error ETIMEDOUT and drops the segment. The socket
-- is not detached, is in no listener's queue, is not in TIME_WAIT, and has no error before.
pub ticks_time_out :
    (send : Segment → Bool) (times : List ℕ) (s : Sock)
    → ((g : Segment) → send g ≡ true)
    → Waits s
    → s.listener ≡ false
    → s.last_error ≡ pos 0
    → s.tx_seg.retries ≤ max_retries
    → Apart s.tx_seg.sent_tick times
    → length times + s.tx_seg.retries ≡ max_retries + 1
    → let t = ticks send times s in
      (t.state ≡ closed) × (t.last_error ≡ pos 110) × (t.error ≡ true) × (t.tx_seg ≡ zero_seg)
unfolding ticks Apart
ticks_time_out send [] s all w l e few apart n = absurd (omega arith)
ticks_time_out send (now ∷ []) s all w l e few apart n =
    tick_gives_up send now s w l apart.0 (omega (arith, n)) e
ticks_time_out send (now ∷ next ∷ times) s all w l e few apart n =
    let resent = tick_resends send now s all w apart.0 (omega (arith, n)) in
    rw (resent, ticks)
      (ticks_time_out send (next ∷ times)
        (record s { tx_seg = record s.tx_seg { sent_tick = now; retries = s.tx_seg.retries + 1 } })
        all
        record {
          outstanding = w.outstanding;
          fits = w.fits;
          attached = w.attached;
          active = w.active;
        }
        l e (omega (arith, n)) apart.1 (omega (arith, n)))

first_syn :
    (send : Segment → Bool) (sent : ℕ) (s : Sock) (iss : ℕ)
    → send (segment s tcp_syn iss 0 []) ≡ true
    → tcp_send_segment send sent s tcp_syn iss 0 [] false ≡ (
      true,
      record s {
        tx_seg = record {
          valid = true;
          flags = tcp_syn;
          seq = iss;
          len = 0;
          payload = s.tx_seg.payload;
          sent_tick = sent;
          retries = 0;
        };
      },
      segment s tcp_syn iss 0 [] ∷ [],
    )
unfolding tcp_send_segment has
first_syn send sent s iss goes = rw goes refl

resent_syn_acks :
    (send : Segment → Bool) (now : ℕ) (s : Sock)
    → Waits s
    → s.tx_seg.flags ≡ tcp_syn
    → s.tx_seg.len ≡ 0
    → 408 ≤ sub64 now s.tx_seg.sent_tick
    → s.tx_seg.retries < max_retries
    → (tick send now s).1 ≡ segment s (tcp_syn + tcp_ack) s.tx_seg.seq s.rcv_nxt [] ∷ []
unfolding tick tcp_send_segment has
resent_syn_acks send now s w syn no_data late few =
    rw syn
      (rw no_data (ground (arith, w.outstanding, w.attached, w.active, rto_le s.tx_seg.retries)))

-- tcp_send_segment sends the SYN of tcp_connect with the flag SYN alone; when it is not acknowledged,
-- tcp_tick sends it again with SYN and ACK, and with the acknowledgment number that the socket happens
-- to have, though nothing was received. The socket is not detached and not in TIME_WAIT, transmissions
-- succeed, and the tick comes 408 ticks or more after the first transmission.
pub retried_syn_acks :
    (send : Segment → Bool) (sent now : ℕ) (s : Sock) (iss : ℕ)
    → ((g : Segment) → send g ≡ true)
    → s.detached ≡ false
    → is s.state time_wait ≡ false
    → 408 ≤ sub64 now sent
    → let (ok, s', out) = tcp_send_segment send sent s tcp_syn iss 0 [] false in
      (out ≡ segment s tcp_syn iss 0 [] ∷ [])
      × ((tick send now s').1 ≡ segment s (tcp_syn + tcp_ack) iss s.rcv_nxt [] ∷ [])
retried_syn_acks send sent now s iss all attached active late =
    let first = first_syn send sent s iss (all (segment s tcp_syn iss 0 [])) in
    let s1 : Sock = (tcp_send_segment send sent s tcp_syn iss 0 [] false).1 in
    rw first (
      refl,
      resent_syn_acks send now
          (record s {
            tx_seg = record {
              valid = true;
              flags = tcp_syn;
              seq = iss;
              len = 0;
              payload = s.tx_seg.payload;
              sent_tick = sent;
              retries = 0;
            };
          })
          record { outstanding = refl; fits = omega arith; attached = attached; active = active }
          refl refl late (omega arith),
    )
