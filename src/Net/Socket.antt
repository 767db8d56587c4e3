-- ===== src/Net/Socket.antt =====
-- Byte order, pending errors and transmitted segments of kernel/net.c. The socket pointer is `none`
-- where it is NULL; of a socket only the fields used here are kept. Masked and shifted bytes are
-- quotients and remainders, and `|` of disjoint bytes is their sum.
use furi_os.Prelude.{
  ℕ, ◌+◌, ◌*◌, ◌/◌, ◌%◌, ◌^◌, ◌<◌, ◌≡◌, Bool, not, ◌||◌, Option, none, some, ltb, ◌==◌,
  if◌then◌else◌, bit_and, add32, ℤ, pos, negative, int_eq, arith, List,
}

be16 : ℕ → ℕ
be16 v = v % 256 * 256 + v / 256

be32 : ℕ → ℕ
be32 v = v % 256 * 2 ^ 24 + v / 2 ^ 8 % 256 * 2 ^ 16 + v / 2 ^ 16 % 256 * 2 ^ 8 + v / 2 ^ 24 % 256

min_u16 : ℕ → ℕ → ℕ
min_u16 a b = if ltb a b then a else b

-- tcp_tx_seg_t with the flags TCP_SYN and TCP_FIN
pub record TxSeg : Type 0 where
  pub valid : Bool
  pub flags : ℕ
  pub seq : ℕ
  pub len : ℕ
  pub payload : List ℕ
  pub sent_tick : ℕ
  pub retries : ℕ

unfoldable pub tcp_tx_seg_end_seq : Option TxSeg → ℕ
tcp_tx_seg_end_seq none = 0
tcp_tx_seg_end_seq (some g) =
    let end = add32 g.seq (g.len % 2 ^ 32) in
    let end' = if not (bit_and g.flags 2 == 0) then add32 end 1 else end in
    if not g.valid then 0 else if not (bit_and g.flags 1 == 0) then add32 end' 1 else end'

-- `last_error` after the call
unfoldable pub socket_set_error : (last_error err : ℤ) → ℤ
socket_set_error last_error err =
    if negative err || int_eq err (pos 0) || not (int_eq last_error (pos 0))
    then last_error
    else err

-- The error returned and `last_error` afterwards; NETERR_EINVAL is 22.
socket_take_error : Option ℤ → ℤ × Option ℤ
socket_take_error none = (pos 22, none)
socket_take_error (some last_error) = (last_error, some (pos 0))

socket_error_or : Option ℤ → ℤ → ℤ
socket_error_or none fallback = fallback
socket_error_or (some last_error) fallback =
    if not (int_eq last_error (pos 0)) then last_error else fallback

be16-be16 : (v : ℕ) → v < 2 ^ 16 → be16 (be16 v) ≡ v
unfolding be16
be16-be16 v h = omega arith

be32-be32 : (v : ℕ) → v < 2 ^ 32 → be32 (be32 v) ≡ v
unfolding be32
be32-be32 v h = omega arith
