-- ===== src/Net/Checksum.antt =====
-- The Internet checksum of kernel/net.c: checksum16 and ipv4_l4_checksum. A `uint8_t` is a number
-- below 256, and `(uint32_t)p[0] << 8 | p[1]` is `p[0] * 256 + p[1]` for it.
use furi_os.Prelude.{
  ℕ, zero, suc, ◌+◌, ◌-◌, ◌*◌, ◌/◌, ◌%◌, ◌^◌, ◌≤◌, ◌<◌, ◌≡◌, refl, List, [], ◌∷◌, ◌++◌, arith,
  add32, length, ◌==◌, if◌then◌else◌,
}

-- The loops over the words and the odd byte at the end.
unfoldable pub sum_words : ℕ → List ℕ → ℕ
sum_words sum [] = sum
sum_words sum (a ∷ []) = add32 sum (a * 256)
sum_words sum (a ∷ b ∷ p) = sum_words (add32 sum (a * 256 + b)) p

-- `while ((sum >> 16) != 0U) sum = (sum & 0xFFFFU) + (sum >> 16);`, at most `fuel` rounds
unfoldable pub fold_loop : (fuel sum : ℕ) → ℕ
fold_loop zero sum = sum
fold_loop (suc fuel) sum =
    let rest = fold_loop fuel (add32 (sum % 65536) (sum / 65536)) in
    if sum / 65536 == 0 then sum else rest

-- `(uint16_t)~sum`
unfoldable pub checksum16 : List ℕ → ℕ
checksum16 p = (2 ^ 32 - 1 - fold_loop 3 (sum_words 0 p)) % 65536

unfoldable pub pseudo_header : (src dst proto len : ℕ) → List ℕ
pseudo_header src dst proto len =
    src / 2 ^ 24 % 256
    ∷ src / 2 ^ 16 % 256
    ∷ src / 2 ^ 8 % 256
    ∷ src % 256
    ∷ dst / 2 ^ 24 % 256
    ∷ dst / 2 ^ 16 % 256
    ∷ dst / 2 ^ 8 % 256
    ∷ dst % 256
    ∷ 0
    ∷ proto
    ∷ len / 256 % 256
    ∷ len % 256
    ∷ []

unfoldable pub ipv4_l4_checksum : (src dst proto : ℕ) → List ℕ → ℕ
ipv4_l4_checksum src dst proto payload =
    let sum = sum_words 0 (pseudo_header src dst proto (length payload)) in
    (2 ^ 32 - 1 - fold_loop 3 (sum_words sum payload)) % 65536

-- What the folding leaves: the same residue modulo 65535 on 16 bits, and zero only of zero.
fold_loop_lem :
    (s : ℕ)
    → s < 2 ^ 32
    → (fold_loop 3 s < 65536) × (fold_loop 3 s % 65535 ≡ s % 65535) × (fold_loop 3 s ≡ 0 → s ≡ 0)
unfolding fold_loop
fold_loop_lem s h = ground arith

-- Three rounds of folding are enough for every 32-bit sum.
pub fold_loop-enough : (more s : ℕ) → s < 2 ^ 32 → fold_loop (3 + more) s ≡ fold_loop 3 s
unfolding fold_loop
fold_loop-enough more s h = ground arith

-- The sum of the 16-bit words of the data, an odd byte as the high one.
unfoldable pub total : List ℕ → ℕ
total [] = 0
total (a ∷ []) = a * 256
total (a ∷ b ∷ p) = a * 256 + b + total p

unfoldable pub Bytes : List ℕ → Type 0
Bytes [] = Unit
Bytes (b ∷ p) = (b < 256) × Bytes p

unfoldable pub Even : List ℕ → Type 0
Even [] = Unit
Even (a ∷ []) = ⊥
Even (a ∷ b ∷ p) = Even p

total-bound : (p : List ℕ) → Bytes p → total p ≤ 32768 * length p + 32768
unfolding total Bytes
total-bound [] h = omega arith
total-bound (a ∷ []) h = omega (arith, h.0)
total-bound (a ∷ b ∷ p) h = omega (arith, h.0, h.1.0, total-bound p h.1.1)

sum_words-eq-total : (s : ℕ) (p : List ℕ) → s + total p < 2 ^ 32 → sum_words s p ≡ s + total p
unfolding sum_words total
sum_words-eq-total s [] h = omega arith
sum_words-eq-total s (a ∷ []) h = omega arith
sum_words-eq-total s (a ∷ b ∷ p) h =
    omega (arith, sum_words-eq-total (add32 s (a * 256 + b)) p (omega arith))

total-append : (p q : List ℕ) → Even p → total (p ++ q) ≡ total p + total q
unfolding total Even
total-append [] q e = omega arith
total-append (a ∷ []) q e = elim e [ ]
total-append (a ∷ b ∷ p) q e = omega (arith, total-append p q e)

-- The value of checksum16 on data whose sum does not wrap.
checksum16-total :
    (p : List ℕ)
    → total p < 2 ^ 32
    → (checksum16 p < 65536)
      × ((65535 - checksum16 p) % 65535 ≡ total p % 65535)
      × (checksum16 p ≡ 65535 → total p ≡ 0)
unfolding checksum16
checksum16-total p h =
    let sum : sum_words 0 p ≡ total p = omega (arith, sum_words-eq-total 0 p (omega arith)) in
    ground (arith, sum, fold_loop_lem (sum_words 0 p))

-- Writing the checksum of a packet into its zeroed checksum field makes checksum16 of the packet
-- zero, for every packet of at most 65535 bytes whose field is at an even offset.
pub checksum16_verifies :
    (pre post : List ℕ)
    → Even pre
    → Bytes (pre ++ (0 ∷ 0 ∷ post))
    → length (pre ++ (0 ∷ 0 ∷ post)) ≤ 65535
    → let c = checksum16 (pre ++ (0 ∷ 0 ∷ post)) in
      checksum16 (pre ++ (c / 256 ∷ c % 256 ∷ post)) ≡ 0
unfolding total
checksum16_verifies pre post e b len =
    let p : List ℕ = pre ++ (0 ∷ 0 ∷ post) in
    let c : ℕ = checksum16 p in
    let field : total p ≡ total pre + total post =
      omega (arith, total-append pre (0 ∷ 0 ∷ post) e) in
    let small : total p < 2 ^ 32 - 65536 = omega (arith, total-bound p b, len) in
    let done = checksum16-total p (omega (arith, small)) in
    let sum : total (pre ++ (c / 256 ∷ c % 256 ∷ post)) ≡ total p + c =
      omega (arith, field, total-append pre (c / 256 ∷ c % 256 ∷ post) e) in
    let again =
      checksum16-total (pre ++ (c / 256 ∷ c % 256 ∷ post)) (omega (arith, small, sum, done.0)) in
    ground (arith, field, small, done, sum, again)

-- The transport checksum is the checksum of the payload behind its pseudo header.
pub ipv4_l4_checksum-eq-checksum16 :
    (src dst proto : ℕ) (payload : List ℕ)
    → ipv4_l4_checksum src dst proto payload
      ≡ checksum16 (pseudo_header src dst proto (length payload) ++ payload)
unfolding ipv4_l4_checksum checksum16 pseudo_header sum_words
ipv4_l4_checksum-eq-checksum16 src dst proto payload = refl
