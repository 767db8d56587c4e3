-- ===== src/Net/Tcp/Stream.antt =====
-- What a TCP socket of kernel/net.c takes in, against the bytes that its peer sends.
use furi_os.Prelude.{
  ℕ, ◌+◌, ◌-◌, ◌%◌, ◌^◌, ◌≤◌, ◌<◌, min, ◌≡◌, ap, ap₂, sym, ◌∙◌, subst, ◌⊎◌, inl, inr, Bool, true,
  false, some, List, ◌++◌, ltb, arith, Bool-cases, append_assoc, length, take, drop, add32, sub32,
}
use furi_os.Prelude.{length-ring, take_more, length-append, length-take, length-drop}
use furi_os.Net.Tcp.{Sock, net_tcp_buf_max, tcp_rx_write, tcp_seq_lt, Segment, data_phase, TcpRx}
use furi_os.Net.Receive.{RxValid, waiting, tcp_rx_write_lem}
use furi_os.Net.Tcp.Frame.{Keeps}

-- The bytes that were taken in: those read and those that wait.
unfoldable pub received : (read : List ℕ) → Sock → ℕ
received read s = length read + s.rx.rx_len

-- `stream` is what the peer sends behind its SYN, its first byte numbered `base`.
pub record Follows (stream : List ℕ) (base : ℕ) (read : List ℕ) (s : Sock) : Type 0 where
  pub buffer : RxValid s.rx
  pub in_order : read ++ waiting s.rx ≡ take (received read s) stream
  pub edge : s.rx_closed ≡ false → s.rcv_nxt ≡ (base + received read s) % 2 ^ 32

-- A segment of the peer: a piece of the stream at its place, less than half the sequence space away
-- from the next byte expected.
pub record Carries (stream : List ℕ) (base : ℕ) (at seq : ℕ) (payload : List ℕ) : Type 0 where
  pub before : List ℕ
  pub after : List ℕ
  pub piece : stream ≡ before ++ (payload ++ after)
  pub numbered : seq ≡ (base + length before) % 2 ^ 32
  pub not_far_behind : at ≤ length before + 2 ^ 31
  pub not_far_ahead : length before < at + 2 ^ 31

pub Keeps-Follows :
    (stream : List ℕ) (base : ℕ) (read : List ℕ) (s t : Sock)
    → Keeps s t
    → Follows stream base read s
    → Follows stream base read t
unfolding Keeps received
Keeps-Follows stream base read s t k f = record {
  buffer = subst RxValid (sym k.0) f.buffer;
  in_order = rw k.0 f.in_order;
  edge = λ h.
      let (a, b) = k.1 h in
      b ∙ f.edge a ∙ ap (λ q. (base + (length read + q.rx_len)) % 2 ^ 32) (sym k.0);
}

seq_lt→lt :
    (base o r : ℕ)
    → o < r + 2 ^ 31
    → tcp_seq_lt ((base + o) % 2 ^ 32) ((base + r) % 2 ^ 32) ≡ true
    → o < r
unfolding tcp_seq_lt
seq_lt→lt base o r h e = ground arith

seq_lt→le :
    (base o r : ℕ)
    → r ≤ o + 2 ^ 31
    → tcp_seq_lt ((base + o) % 2 ^ 32) ((base + r) % 2 ^ 32) ≡ false
    → r ≤ o
unfolding tcp_seq_lt
seq_lt→le base o r h e = ground arith

-- The socket after tcp_rx_write took in what it had room for.
unfoldable pub written : Sock → List ℕ → Sock
written s rest =
    let (n, rx') = tcp_rx_write s.rx (some rest) (length rest) in
    record s { rx = rx'; rcv_nxt = add32 s.rcv_nxt n }

pub taken_lem :
    (stream : List ℕ) (base : ℕ) (read : List ℕ) (s : Sock) (before payload after : List ℕ)
    → Follows stream base read s
    → stream ≡ before ++ (payload ++ after)
    → length before ≤ received read s
    → received read s ≤ length before + length payload
    → s.rx_closed ≡ false
    → let t = written s (drop (received read s - length before) payload) in
      Follows stream base read t
      × (received read t
          ≡ received read s
            + min
                (length before + length payload - received read s)
                (net_tcp_buf_max - s.rx.rx_len))
unfolding written received
taken_lem stream base read s before payload after f e h k unclosed =
    let rest = drop (received read s - length before) payload in
    let n : ℕ = (tcp_rx_write s.rx (some rest) (length rest)).0 in
    let rx' : TcpRx = (tcp_rx_write s.rx (some rest) (length rest)).1 in
    let wrote = tcp_rx_write_lem s.rx rest f.buffer in
    let few : n ≤ length rest = omega (arith, wrote.0) in
    let grows : rx'.rx_len ≡ s.rx.rx_len + n = omega (
      arith,
      few,
      ap length wrote.1,
      length-append (waiting s.rx) (take n rest),
      length-take n rest,
      length-ring 0 net_tcp_buf_max rx'.rx_buf rx'.rx_head rx'.rx_len,
      length-ring 0 net_tcp_buf_max s.rx.rx_buf s.rx.rx_head s.rx.rx_len,
    ) in
    let more : length read + rx'.rx_len ≡ length read + s.rx.rx_len + n = omega (arith, grows) in
    let kept : Follows stream base read (written s rest) = record {
      buffer = wrote.2;
      in_order =
          ap (λ t. read ++ t) wrote.1
          ∙ sym (append_assoc read (waiting s.rx) (take n rest))
          ∙ ap (λ t. t ++ take n rest) (f.in_order ∙ ap (take (received read s)) e)
          ∙ sym (take_more before payload after (received read s) n h k few)
          ∙ ap₂ take (sym more) (sym e);
      edge = λ h'.
          let here : s.rcv_nxt ≡ (base + (length read + s.rx.rx_len)) % 2 ^ 32 = f.edge unclosed in
          omega (arith, here, more);
    } in
    (
      kept,
      omega (
        arith,
        more,
        wrote.0,
        length-drop (length read + s.rx.rx_len - length before) payload,
        k,
      ),
    )

trim_lem :
    (base o r : ℕ)
    → o ≤ r
    → r ≤ o + 2 ^ 31
    → sub32 ((base + r) % 2 ^ 32) ((base + o) % 2 ^ 32) ≡ r - o
trim_lem base o r h k = omega arith

same_place :
    (base o r : ℕ) → r ≤ o → o < r + 2 ^ 31 → (base + o) % 2 ^ 32 ≡ (base + r) % 2 ^ 32 → o ≡ r
same_place base o r h k e = omega arith

module _ (send : Segment → Bool) (now : ℕ) where
  pub data_phase_new :
      (base o r : ℕ) (s : Sock) (seq : ℕ) (payload : List ℕ)
      → seq ≡ (base + o) % 2 ^ 32
      → s.rcv_nxt ≡ (base + r) % 2 ^ 32
      → o ≤ r
      → r ≤ o + 2 ^ 31
      → r < o + length payload
      → s.rx_closed ≡ false
      → (data_phase send now s seq payload).2 ≡ written s (drop (r - o) payload)
  unfolding data_phase written tcp_seq_lt
  data_phase_new base o r s seq payload at here h k more unclosed =
      let place : sub32 s.rcv_nxt seq ≡ r - o = ap₂ sub32 here at ∙ trim_lem base o r h k in
      elim (Bool-cases (ltb o r)) [ inl old ↦ ground arith | inr now ↦ ground arith ]

  pub data_phase_other :
      (base o r : ℕ) (s : Sock) (seq : ℕ) (payload : List ℕ)
      → seq ≡ (base + o) % 2 ^ 32
      → s.rcv_nxt ≡ (base + r) % 2 ^ 32
      → o < r + 2 ^ 31
      → r ≤ o + 2 ^ 31
      → (r < o) ⊎ (o + length payload ≤ r)
      → (data_phase send now s seq payload).2 ≡ s
  unfolding data_phase tcp_seq_lt
  data_phase_other base o r s seq payload at here h k far = ground arith
