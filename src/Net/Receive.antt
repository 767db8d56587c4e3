-- ===== src/Net/Receive.antt =====
-- The receive buffer of a TCP socket in kernel/net.c, as the bytes that wait in it.
use furi_os.Prelude.{
  ℕ, zero, suc, ◌+◌, ◌-◌, ◌≤◌, ◌<◌, ◌%◌, ◌≡◌, refl, ap, sym, ◌∙◌, some, List, [], ◌∷◌, ◌++◌, arith,
  append-nil, append_assoc, length, take, get_or, set, overwrite, length-set, ring, wrap,
  ring-set_end, length-ring, min, slice, slice-eq-take,
}
use furi_os.Net.Queues.{
  TcpRx, net_tcp_buf_max, rx_write_loop, rx_read_loop, tcp_rx_write, tcp_rx_read,
}

rx_write_loop_lem :
    (k i : ℕ) (src buf : List ℕ) (head count tail : ℕ)
    → length buf ≡ net_tcp_buf_max
    → head < net_tcp_buf_max
    → count + k ≤ net_tcp_buf_max
    → tail ≡ (head + count) % net_tcp_buf_max
    → let (buf', tail') = rx_write_loop k i src buf tail in
      (ring 0 net_tcp_buf_max buf' head (count + k)
        ≡ ring 0 net_tcp_buf_max buf head count ++ slice 0 src i k)
      × (tail' ≡ (head + (count + k)) % net_tcp_buf_max)
      × (length buf' ≡ net_tcp_buf_max)
unfolding rx_write_loop
rx_write_loop_lem zero i src buf head count tail size h room e =
    let same : count + 0 ≡ count = omega arith in
    (
      ap (ring 0 net_tcp_buf_max buf head) same
          ∙ sym (append-nil (ring 0 net_tcp_buf_max buf head count)),
      omega (arith, e),
      size,
    )
rx_write_loop_lem (suc k) i src buf head count tail size h room e =
    let x : ℕ = get_or src i 0 in
    let at : tail ≡ wrap net_tcp_buf_max (head + count) = ground (arith, h, e) in
    let more : count + suc k ≡ count + 1 + k = omega arith in
    let rest =
      rx_write_loop_lem k (i + 1) src (set buf tail x) head (count + 1)
        ((tail + 1) % net_tcp_buf_max) (length-set buf tail x ∙ size) h (omega arith)
        (omega (arith, e)) in
    (
      ap (ring 0 net_tcp_buf_max _ head) more
          ∙ rest.0
          ∙ ap (λ w. w ++ slice 0 src (i + 1) k)
              (ring-set_end 0 net_tcp_buf_max buf head count tail x size h (omega arith) at)
          ∙ append_assoc (ring 0 net_tcp_buf_max buf head count) (x ∷ []) (slice 0 src (i + 1) k),
      omega (arith, rest.1),
      rest.2,
    )

rx_read_loop_lem :
    (k i : ℕ) (dst buf : List ℕ) (head : ℕ)
    → head < net_tcp_buf_max
    → (rx_read_loop k i dst buf head).0 ≡ overwrite dst i (ring 0 net_tcp_buf_max buf head k)
unfolding rx_read_loop
rx_read_loop_lem zero i dst buf head h = refl
rx_read_loop_lem (suc k) i dst buf head h =
    let next : (head + 1) % net_tcp_buf_max ≡ wrap net_tcp_buf_max (head + 1) = ground (arith, h) in
    rx_read_loop_lem k (i + 1) (set dst i (get_or buf head 0)) buf ((head + 1) % net_tcp_buf_max)
      (omega arith)
    ∙ ap (λ j. overwrite (set dst i (get_or buf head 0)) (i + 1) (ring 0 net_tcp_buf_max buf j k))
        next

rx_read_loop-head :
    (k i : ℕ) (dst buf : List ℕ) (head : ℕ)
    → head < net_tcp_buf_max
    → (rx_read_loop k i dst buf head).1 ≡ (head + k) % net_tcp_buf_max
unfolding rx_read_loop
rx_read_loop-head zero i dst buf head h = omega arith
rx_read_loop-head (suc k) i dst buf head h = omega (
  arith,
  rx_read_loop-head k (i + 1) (set dst i (get_or buf head 0)) buf ((head + 1) % net_tcp_buf_max)
      (omega arith),
)

ring-split :
    (buf : List ℕ) (head k m : ℕ)
    → head < net_tcp_buf_max
    → ring 0 net_tcp_buf_max buf head (k + m)
      ≡ ring 0 net_tcp_buf_max buf head k
        ++ ring 0 net_tcp_buf_max buf ((head + k) % net_tcp_buf_max) m
ring-split buf head zero m h =
    let here : (head + 0) % net_tcp_buf_max ≡ head = omega arith in
    let none_before : 0 + m ≡ m = omega arith in rw here (rw none_before refl)
ring-split buf head (suc k) m h =
    let more : suc k + m ≡ suc (k + m) = omega arith in
    let next : (wrap net_tcp_buf_max (head + 1) + k) % net_tcp_buf_max
        ≡ (head + suc k) % net_tcp_buf_max =
      ground (arith, h) in
    rw more (
      ap (λ t. get_or buf head 0 ∷ t)
        (ring-split buf (wrap net_tcp_buf_max (head + 1)) k m (ground (arith, h))
          ∙ ap
              (λ j.
                ring 0 net_tcp_buf_max buf (wrap net_tcp_buf_max (head + 1)) k
                ++ ring 0 net_tcp_buf_max buf j m)
              next))

pub record RxValid (s : TcpRx) : Type 0 where
  pub storage : length s.rx_buf ≡ net_tcp_buf_max
  pub head_in : s.rx_head < net_tcp_buf_max
  pub len_in : s.rx_len ≤ net_tcp_buf_max
  pub tail_at : s.rx_tail ≡ (s.rx_head + s.rx_len) % net_tcp_buf_max

-- the bytes that wait, oldest first
abbrev pub waiting : TcpRx → List ℕ
waiting s = ring 0 net_tcp_buf_max s.rx_buf s.rx_head s.rx_len

write_count : (s : TcpRx) (len : ℕ) → ℕ
write_count s len = min len (net_tcp_buf_max - s.rx_len)

tcp_rx_write-count :
    (s : TcpRx) (src : List ℕ)
    → let n = write_count s (length src) in
      let (buf, tail) = rx_write_loop n 0 src s.rx_buf s.rx_tail in
      tcp_rx_write s (some src) (length src)
      ≡ (n, record s { rx_buf = buf; rx_tail = tail; rx_len = s.rx_len + n })
unfolding tcp_rx_write write_count rx_write_loop
tcp_rx_write-count s src = ground arith

-- tcp_rx_write on a valid buffer accepts as many of the bytes as there is room for, returns their
-- number and appends exactly those bytes; the buffer stays valid.
pub tcp_rx_write_lem :
    (s : TcpRx) (src : List ℕ)
    → RxValid s
    → let (n, s') = tcp_rx_write s (some src) (length src) in
      (n ≡ min (length src) (net_tcp_buf_max - s.rx_len))
      × (waiting s' ≡ waiting s ++ take n src)
      × RxValid s'
unfolding write_count
tcp_rx_write_lem s src v =
    let n : ℕ = write_count s (length src) in
    let loop =
      rx_write_loop_lem n 0 src s.rx_buf s.rx_head s.rx_len s.rx_tail v.storage v.head_in
        (omega (arith, v.len_in)) v.tail_at in
    rw (tcp_rx_write-count s src) (
      refl,
      loop.0 ∙ ap (λ t. waiting s ++ t) (slice-eq-take 0 src n (omega arith)),
      record {
        storage = loop.2;
        head_in = v.head_in;
        len_in = omega (arith, v.len_in);
        tail_at = loop.1;
      },
    )

tcp_rx_read-count :
    (s : TcpRx) (dst : List ℕ) (len : ℕ)
    → let n = min len s.rx_len in
      tcp_rx_read s (some dst) len ≡ (
        n,
        some (rx_read_loop n 0 dst s.rx_buf s.rx_head).0,
        record s { rx_head = (rx_read_loop n 0 dst s.rx_buf s.rx_head).1; rx_len = s.rx_len - n },
      )
unfolding tcp_rx_read rx_read_loop
tcp_rx_read-count s dst len = ground arith

-- tcp_rx_read on a valid buffer delivers the oldest bytes, as many as are asked for and wait, to the
-- front of the caller's buffer, and removes exactly those; the buffer stays valid.
pub tcp_rx_read_lem :
    (s : TcpRx) (dst : List ℕ) (len : ℕ)
    → RxValid s
    → let (n, dst', s') = tcp_rx_read s (some dst) len in
      (n ≡ min len s.rx_len)
      × ((out : List ℕ) × (length out ≡ n)
          × (dst' ≡ some (overwrite dst 0 out))
          × (waiting s ≡ out ++ waiting s'))
      × RxValid s'
tcp_rx_read_lem s dst len v =
    let n : ℕ = min len s.rx_len in
    let head' = rx_read_loop-head n 0 dst s.rx_buf s.rx_head v.head_in in
    let all : s.rx_len ≡ n + (s.rx_len - n) = omega arith in
    rw (tcp_rx_read-count s dst len) (
      refl,
      (
        ring 0 net_tcp_buf_max s.rx_buf s.rx_head n,
        length-ring 0 net_tcp_buf_max s.rx_buf s.rx_head n,
        ap some (rx_read_loop_lem n 0 dst s.rx_buf s.rx_head v.head_in),
        ap (ring 0 net_tcp_buf_max s.rx_buf s.rx_head) all
            ∙ ring-split s.rx_buf s.rx_head n (s.rx_len - n) v.head_in
            ∙ ap
                (λ h.
                  ring 0 net_tcp_buf_max s.rx_buf s.rx_head n
                  ++ ring 0 net_tcp_buf_max s.rx_buf h (s.rx_len - n))
                (sym head'),
      ),
      record {
        storage = v.storage;
        head_in = omega (arith, head');
        len_in = omega (arith, v.len_in);
        tail_at = omega (arith, head', v.tail_at);
      },
    )
