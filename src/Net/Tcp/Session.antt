-- ===== src/Net/Tcp/Session.antt =====
-- A session of a TCP socket in kernel/net.c: segments of the peer arrive, the timer runs, and the
-- program reads. `read` collects what the program has read.
use furi_os.Prelude.{
  ℕ, ◌+◌, ◌%◌, ◌^◌, ◌≤◌, ◌<◌, ◌≡◌, ap, ap₂, sym, ◌∙◌, subst, ◌⊎◌, inl, inr, Bool, true, not, ◌&&◌,
  Option, none, some, List, [], ◌++◌, ltb, leb, if_cases, arith, Bool-cases, append_assoc, length,
  take, replicate, length-replicate, overwrite,
}
use furi_os.Prelude.{ring, take-overwrite, length-append, length-ring}
use furi_os.Net.Queues.{tcp_rx_read, net_tcp_buf_max}
use furi_os.Net.Receive.{RxValid, waiting, tcp_rx_read_lem}
use furi_os.Net.Tcp.{
  Sock, Segment, process_tcp_established, tick, data_phase, ack_phase, fin_phase, has, tcp_rst,
  tcp_on_rst,
}
use furi_os.Net.Tcp.Frame.{Keeps, ack_phase-Keeps, fin_phase-Keeps, tick-Keeps, tcp_on_rst-Keeps}
use furi_os.Net.Tcp.Stream.{
  received, Follows, Carries, Keeps-Follows, taken_lem, data_phase_new, data_phase_other,
}

data_phase_closed :
    (send : Segment → Bool) (now : ℕ) (s : Sock) (seq : ℕ) (payload : List ℕ)
    → s.rx_closed ≡ true
    → (data_phase send now s seq payload).2 ≡ s
unfolding data_phase
data_phase_closed send now s seq payload h = ground arith

data_phase-Follows :
    (send : Segment → Bool) (now : ℕ) (stream : List ℕ) (base : ℕ) (read : List ℕ) (s : Sock)
    (seq : ℕ) (payload : List ℕ)
    → Follows stream base read s
    → Carries stream base (received read s) seq payload
    → Follows stream base read (data_phase send now s seq payload).2
data_phase-Follows send now stream base read s seq payload f c =
    let o = length c.before in
    let r = received read s in
    elim (Bool-cases s.rx_closed) [
      | inl h ↦
          subst (Follows stream base read) (sym (data_phase_closed send now s seq payload h)) f
      | inr h ↦ elim (Bool-cases (leb o r && ltb r (o + length payload))) [
        | inl some_new ↦
            let early : o ≤ r = ground arith in
            let late : r < o + length payload = ground arith in
            let same =
              data_phase_new send now base o r s seq payload c.numbered (f.edge h) early
                c.not_far_behind late h in
            subst (Follows stream base read) (sym same)
              (taken_lem stream base read s c.before payload c.after f c.piece early
                (omega (arith, late)) h).0
        | inr nothing ↦
            let far : (r < o) ⊎ (o + length payload ≤ r) = ground arith in
            let same =
              data_phase_other send now base o r s seq payload c.numbered (f.edge h) c.not_far_ahead
                c.not_far_behind far in
            subst (Follows stream base read) (sym same) f
      ]
    ]

process_tcp_established-Follows :
    (send : Segment → Bool) (now : ℕ) (stream : List ℕ) (base : ℕ) (read : List ℕ) (s : Sock)
    (flags seq ack_seq window : ℕ) (payload : List ℕ)
    → Follows stream base read s
    → Carries stream base (received read s) seq payload
    → let s' = (process_tcp_established send now s flags seq ack_seq window payload).0 in
      s'.used ≡ true → Follows stream base read s'
unfolding process_tcp_established received Keeps
process_tcp_established-Follows send now stream base read s0 flags seq ack_seq window payload f c =
    let s : Sock = record s0 { peer_wnd = window } in
    let f0 : Follows stream base read s = record {
      buffer = f.buffer;
      in_order = f.in_order;
      edge = f.edge;
    } in
    let s1 : Sock = (ack_phase send now s flags ack_seq).1 in
    let kept : s1.rx ≡ s.rx = (ack_phase-Keeps send now s flags ack_seq).0 in
    let f1 : Follows stream base read s1 =
      Keeps-Follows stream base read s s1 (ack_phase-Keeps send now s flags ack_seq) f0 in
    let c1 = subst (λ q. Carries stream base (length read + q.rx_len) seq payload) (sym kept) c in
    let f2 = data_phase-Follows send now stream base read s1 seq payload f1 c1 in
    let (go, (seq2, len2), s2, out2) = data_phase send now s1 seq payload in
    let s3 : Sock = (fin_phase send now s2 flags seq2 len2).0 in
    let f3 =
      Keeps-Follows stream base read s2 s3 (fin_phase-Keeps send now s2 flags seq2 len2) f2 in
    let F : Sock × List Segment → Type 0 = λ r. r.0.used ≡ true → Follows stream base read r.0 in
    if_cases F (has flags tcp_rst) _ _
      (λ _ u. Keeps-Follows stream base read s (tcp_on_rst s) (tcp_on_rst-Keeps s u) f0)
      (λ _.
        if_cases F (not (ack_phase send now s flags ack_seq).0) _ _ (λ _ _. f1)
          (λ _. if_cases F (not go) _ _ (λ _ _. f2) (λ _ _. f3)))

pub record Session : Type 0 where
  pub sock : Sock
  pub read : List ℕ

-- The bytes in a caller's buffer.
bytes : Option (List ℕ) → List ℕ
bytes none = []
bytes (some xs) = xs

-- tcp_rx_read into a buffer of `len` bytes.
unfoldable pub read_some : Session → (len : ℕ) → Session
unfolding bytes
read_some x len =
    let (n, dst, rx) = tcp_rx_read x.sock.rx (some (replicate len 0)) len in
    record { sock = record x.sock { rx = rx }; read = x.read ++ take n (bytes dst) }

-- What may happen as long as the socket is not released. The segments that arrive are those of the
-- peer, in any order and any number of times, with any flags.
pub data Step (stream : List ℕ) (base : ℕ) : Session → Session → Type 0 where
  arrive :
      (x : Session) (send : Segment → Bool) (now flags seq ack_seq window : ℕ) (payload : List ℕ)
      → Carries stream base (received x.read x.sock) seq payload
      → (process_tcp_established send now x.sock flags seq ack_seq window payload).0.used ≡ true
      → Step stream base x (record x {
        sock = (process_tcp_established send now x.sock flags seq ack_seq window payload).0;
      })
  expire :
      (x : Session) (send : Segment → Bool) (now : ℕ)
      → (tick send now x.sock).0.used ≡ true
      → Step stream base x (record x { sock = (tick send now x.sock).0 })
  fetch : (x : Session) (len : ℕ) → Step stream base x (read_some x len)

pub data Run (stream : List ℕ) (base : ℕ) (x : Session) : Session → Type 0 where
  here : Run stream base x x
  next : {y z : Session} → Run stream base x y → Step stream base y z → Run stream base x z

-- A connection just made: the first byte expected is numbered `base`.
pub record Opened (base : ℕ) (x : Session) : Type 0 where
  pub buffer : RxValid x.sock.rx
  pub empty : x.sock.rx.rx_len ≡ 0
  pub unread : x.read ≡ []
  pub edge : x.sock.rcv_nxt ≡ base % 2 ^ 32

read_some-Follows :
    (stream : List ℕ) (base : ℕ) (x : Session) (len : ℕ)
    → Follows stream base x.read x.sock
    → Follows stream base (read_some x len).read (read_some x len).sock
unfolding read_some received
read_some-Follows stream base x len f =
    let room = replicate len 0 in
    let (n, dst, rx) = tcp_rx_read x.sock.rx (some room) len in
    let got = tcp_rx_read_lem x.sock.rx room len f.buffer in
    let out : List ℕ = got.1.0 in
    let few : length out ≤ length room =
      omega (arith, got.0, got.1.1, length-replicate {A = ℕ} len 0) in
    let same : take n (bytes dst) ≡ out =
      ap (λ d. take n (bytes d)) got.1.2
      ∙ ap (λ k. take k (overwrite room 0 out)) (sym got.1.1)
      ∙ take-overwrite out room few in
    let total : length (x.read ++ out) + rx.rx_len ≡ length x.read + x.sock.rx.rx_len = omega (
      arith,
      ap length got.1.3,
      length-append x.read out,
      length-append out (waiting rx),
      length-ring 0 net_tcp_buf_max rx.rx_buf rx.rx_head rx.rx_len,
      length-ring 0 net_tcp_buf_max x.sock.rx.rx_buf x.sock.rx.rx_head x.sock.rx.rx_len,
    ) in
    rw same record {
      buffer = got.2;
      in_order =
          append_assoc x.read out (waiting rx)
          ∙ ap (λ t. x.read ++ t) (sym got.1.3)
          ∙ f.in_order
          ∙ ap (λ k. take k stream) (sym total);
      edge = λ h. f.edge h ∙ ap (λ k. (base + k) % 2 ^ 32) (sym total);
    }

Step-Follows :
    {stream : List ℕ} {base : ℕ} {x y : Session}
    → Step stream base x y
    → Follows stream base x.read x.sock
    → Follows stream base y.read y.sock
Step-Follows {stream = stream} {base = base}
      (arrive x send now flags seq ack_seq window payload c u) f =
    process_tcp_established-Follows send now stream base x.read x.sock flags seq ack_seq window
      payload f c u
Step-Follows {stream = stream} {base = base} (expire x send now u) f =
    Keeps-Follows stream base x.read x.sock (tick send now x.sock).0 (tick-Keeps send now x.sock u)
      f
Step-Follows {stream = stream} {base = base} (fetch x len) f = read_some-Follows stream base x len f

Run-Follows :
    {stream : List ℕ} {base : ℕ} {x y : Session}
    → Run stream base x y
    → Follows stream base x.read x.sock
    → Follows stream base y.read y.sock
Run-Follows here f = f
Run-Follows (next r st) f = Step-Follows st (Run-Follows r f)

Opened-Follows :
    (stream : List ℕ) (base : ℕ) (x : Session) → Opened base x → Follows stream base x.read x.sock
unfolding received
Opened-Follows stream base x o =
    let empty : length x.read + x.sock.rx.rx_len ≡ 0 = omega (arith, o.empty, ap length o.unread) in
    let start : base + 0 ≡ base = omega arith in
    record {
      buffer = o.buffer;
      in_order =
          ap₂ (λ a k. a ++ ring 0 net_tcp_buf_max x.sock.rx.rx_buf x.sock.rx.rx_head k) o.unread
            o.empty
          ∙ sym (ap (λ k. take k stream) empty);
      edge = λ h. o.edge ∙ sym (ap (λ k. (base + k) % 2 ^ 32) empty ∙ ap (λ k. k % 2 ^ 32) start);
    }

-- From a connection just made on, whatever segments of the peer arrive, in whatever order and
-- however often, and whenever the timer runs and the program reads, as long as the socket is not
-- released: the bytes read, with those that wait behind them, are the first bytes of the peer's
-- stream.
pub reads_in_order :
    (stream : List ℕ) (base : ℕ) (x y : Session)
    → Opened base x
    → Run stream base x y
    → y.read ++ waiting y.sock.rx ≡ take (received y.read y.sock) stream
reads_in_order stream base x y o r = (Run-Follows r (Opened-Follows stream base x o)).in_order
