-- ===== src/Net/Address.antt =====
-- IPv4 addresses as text in kernel/net.c: parse_ipv4_be, append_text, append_u32 and ip_be_to_text.
-- A C string is the list of its characters before the final zero; `*off` is the length of the text
-- written so far. On bytes, `|` of shifted parts is their sum.
use furi_os.Prelude.{
  ℕ, zero, suc, ◌+◌, ◌-◌, ◌*◌, ◌/◌, ◌%◌, ◌^◌, ◌≤◌, ◌<◌, ◌≡◌, refl, ap, sym, ◌∙◌, Bool, true, false,
  not, ◌&&◌, ◌||◌, Option, none, some, List, [], ◌∷◌, ◌++◌, append-nil, append_assoc, arith, ltb,
  leb, ◌==◌, if◌then◌else◌, if_cases, length, length-append, take, get_or, set,
}

-- the locals of parse_ipv4_be
pub record Parse : Type 0 where
  pub parts : List ℕ
  pub idx : ℕ
  pub cur : ℕ
  pub have : Bool

-- `'0'`, `'9'` and `'.'`
abbrev pub digit_0 : ℕ
digit_0 = 48

abbrev pub digit_9 : ℕ
digit_9 = 57

abbrev pub dot : ℕ
dot = 46

parse_end : Parse → Option ℕ
parse_end s =
    if not s.have || not (s.idx == 3)
    then none
    else let q = set s.parts 3 s.cur in
      some (get_or q 0 0 * 2 ^ 24 + get_or q 1 0 * 2 ^ 16 + get_or q 2 0 * 2 ^ 8 + get_or q 3 0)

-- One round of the loop on a digit and on a dot; `none` where the function returns false.
parse_digit : Parse → ℕ → Option Parse
parse_digit s c =
    let cur = (s.cur * 10 + (c - digit_0)) % 2 ^ 32 in
    if ltb 255 cur then none else some (record s { have = true; cur = cur })

parse_dot : Parse → Option Parse
parse_dot s =
    if not s.have || leb 3 s.idx
    then none
    else some (record s { parts = set s.parts s.idx s.cur; idx = s.idx + 1; cur = 0; have = false })

parse_char : Parse → ℕ → Option Parse
unfolding parse_digit parse_dot
parse_char s c =
    if leb digit_0 c && leb c digit_9
    then parse_digit s c
    else if c == dot
    then parse_dot s
    else none

parse_loop : Parse → List ℕ → Option ℕ
unfolding parse_char parse_end
parse_loop s [] = parse_end s
parse_loop s (c ∷ cs) = elim (parse_char s c) [ none ↦ none | some s' ↦ parse_loop s' cs ]

abbrev parse_start : Parse
parse_start = record { parts = 0 ∷ 0 ∷ 0 ∷ 0 ∷ []; idx = 0; cur = 0; have = false }

unfoldable pub parse_ipv4_be : List ℕ → Option ℕ
unfolding parse_loop
parse_ipv4_be s = parse_loop parse_start s

-- The text after the call, from the text before.
unfoldable pub append_text : (cap : ℕ) → List ℕ → List ℕ → List ℕ
append_text cap text src =
    if leb cap (length text)
    then text
    else let n = length src in
      text ++ take (if ltb (cap - length text - 1) n then cap - length text - 1 else n) src

-- The digits of `v` in front of `rest`; sixteen rounds at most, and ten digits fill 32 bits.
digits_loop : (fuel v : ℕ) → List ℕ → List ℕ
digits_loop zero v rest = rest
digits_loop (suc fuel) v rest =
    let more = digits_loop fuel (v / 10) ((digit_0 + v % 10) ∷ rest) in
    if v == 0 then rest else more

unfoldable pub append_u32 : (cap : ℕ) → List ℕ → ℕ → List ℕ
unfolding digits_loop
append_u32 cap text v = append_text cap text (if v == 0 then digit_0 ∷ [] else digits_loop 16 v [])

-- `none` where the buffer is too small and is left alone.
unfoldable pub ip_be_to_text : ℕ → (outsz : ℕ) → Option (List ℕ)
ip_be_to_text ip outsz =
    if ltb outsz 16
    then none
    else let t0 = append_u32 outsz [] (ip / 2 ^ 24 % 256) in
      let t1 = append_u32 outsz (append_text outsz t0 (dot ∷ [])) (ip / 2 ^ 16 % 256) in
      let t2 = append_u32 outsz (append_text outsz t1 (dot ∷ [])) (ip / 2 ^ 8 % 256) in
      some (append_u32 outsz (append_text outsz t2 (dot ∷ [])) (ip % 256))

-- the decimal digits of a byte
decimal : ℕ → List ℕ
decimal b =
    if ltb b 10
    then (digit_0 + b) ∷ []
    else if ltb b 100
    then (digit_0 + b / 10) ∷ (digit_0 + b % 10) ∷ []
    else (digit_0 + b / 100) ∷ (digit_0 + b / 10 % 10) ∷ (digit_0 + b % 10) ∷ []

digits-eq-decimal :
    (b : ℕ) → b < 256 → (if b == 0 then digit_0 ∷ [] else digits_loop 16 b []) ≡ decimal b
unfolding digits_loop decimal
digits-eq-decimal b h = ground arith

take_all : (xs : List ℕ) → take (length xs) xs ≡ xs
take_all [] = refl
take_all (x ∷ xs) = ap (λ t. x ∷ t) (take_all xs)

length-decimal : (b : ℕ) → length (decimal b) ≤ 3
unfolding decimal
length-decimal b = ground arith

parse_loop-digit :
    (s : Parse) (d : ℕ) (rest : List ℕ)
    → d < 10
    → s.cur * 10 + d < 256
    → parse_loop s ((digit_0 + d) ∷ rest)
      ≡ parse_loop (record s { have = true; cur = s.cur * 10 + d }) rest
unfolding parse_loop
parse_loop-digit s d rest h k = ground arith

parse_loop-dot :
    (s : Parse) (rest : List ℕ)
    → s.have ≡ true
    → s.idx < 3
    → parse_loop s (dot ∷ rest)
      ≡ parse_loop
          (record s { parts = set s.parts s.idx s.cur; idx = s.idx + 1; cur = 0; have = false })
          rest
unfolding parse_loop
parse_loop-dot s rest h k = ground arith

-- the state within a part, of value `c` so far
abbrev part : Parse → ℕ → Parse
part s c = record s { have = true; cur = c }

parse_loop-next :
    (s : Parse) (d v : ℕ) (rest : List ℕ)
    → d < 10
    → v < 256
    → s.cur * 10 + d ≡ v
    → parse_loop s ((digit_0 + d) ∷ rest) ≡ parse_loop (part s v) rest
parse_loop-next s d v rest h k e =
    parse_loop-digit s d rest h (omega arith) ∙ ap (λ c. parse_loop (part s c) rest) e

-- Reading a byte's digits at the start of a part.
parse_loop-decimal :
    (s : Parse) (b : ℕ) (rest : List ℕ)
    → b < 256
    → s.cur ≡ 0
    → parse_loop s (decimal b ++ rest) ≡ parse_loop (part s b) rest
unfolding decimal
parse_loop-decimal s b rest h z =
    let P : List ℕ → Type 0 = λ t. parse_loop s (t ++ rest) ≡ parse_loop (part s b) rest in
    if_cases P (ltb b 10) _ _ (λ u. parse_loop-next s b b rest (ground arith) h (omega (arith, z)))
      (λ u.
        if_cases P (ltb b 100) _ _
          (λ v.
            parse_loop-next s (b / 10) (b / 10) _ (ground arith) (omega arith) (omega (arith, z))
            ∙ parse_loop-next (part s (b / 10)) (b % 10) b rest (omega arith) h (omega arith))
          (λ v.
            parse_loop-next s (b / 100) (b / 100) _ (omega arith) (omega arith) (omega (arith, z))
            ∙ parse_loop-next (part s (b / 100)) (b / 10 % 10) (b / 10) _ (omega arith)
                (omega arith) (omega arith)
            ∙ parse_loop-next (part s (b / 10)) (b % 10) b rest (omega arith) h (omega arith)))

append_text-fits :
    (cap : ℕ) (text src : List ℕ)
    → length text + length src < cap
    → append_text cap text src ≡ text ++ src
unfolding append_text
append_text-fits cap text src h = ground (arith, take_all src)

append_u32-fits :
    (cap : ℕ) (text : List ℕ) (b : ℕ)
    → b < 256
    → length text + 3 < cap
    → append_u32 cap text b ≡ text ++ decimal b
unfolding append_u32
append_u32-fits cap text b h k =
    ap (append_text cap text) (digits-eq-decimal b h)
    ∙ append_text-fits cap text (decimal b) (omega (arith, length-decimal b))

abbrev dotted : List ℕ → ℕ → List ℕ
dotted t b = (t ++ (dot ∷ [])) ++ decimal b

length-dotted : (t : List ℕ) (b : ℕ) → length (dotted t b) ≤ length t + 4
length-dotted t b = omega (
  arith,
  length-append (t ++ (dot ∷ [])) (decimal b),
  length-append t (dot ∷ []),
  length-decimal b,
)

append-dotted :
    (cap : ℕ) (t : List ℕ) (b : ℕ)
    → b < 256
    → length t + 4 < cap
    → append_u32 cap (append_text cap t (dot ∷ [])) b ≡ dotted t b
append-dotted cap t b h k =
    ap (λ x. append_u32 cap x b) (append_text-fits cap t (dot ∷ []) (omega arith))
    ∙ append_u32-fits cap (t ++ (dot ∷ [])) b h (omega (arith, length-append t (dot ∷ [])))

-- ip_be_to_text writes the four bytes of the address, in decimal and with dots between, into any
-- buffer of 16 bytes or more.
ip_be_to_text_lem :
    (ip outsz : ℕ)
    → 16 ≤ outsz
    → ip_be_to_text ip outsz
      ≡ some (
          dotted
            (dotted (dotted (decimal (ip / 2 ^ 24 % 256)) (ip / 2 ^ 16 % 256)) (ip / 2 ^ 8 % 256))
            (ip % 256))
unfolding ip_be_to_text
ip_be_to_text_lem ip outsz h =
    let b0 : ℕ = ip / 2 ^ 24 % 256 in
    let b1 : ℕ = ip / 2 ^ 16 % 256 in
    let b2 : ℕ = ip / 2 ^ 8 % 256 in
    let room : ltb outsz 16 ≡ false = ground arith in
    let l0 = length-decimal b0 in
    let l1 = length-dotted (decimal b0) b1 in
    let l2 = length-dotted (dotted (decimal b0) b1) b2 in
    rw room (
      rw (append_u32-fits outsz [] b0 (omega arith) (omega arith)) (
        rw (append-dotted outsz (decimal b0) b1 (omega arith) (omega (arith, l0))) (
          rw (append-dotted outsz (dotted (decimal b0) b1) b2 (omega arith) (omega (arith, l0, l1)))
            (rw
              (append-dotted outsz (dotted (dotted (decimal b0) b1) b2) (ip % 256) (omega arith)
                (omega (arith, l0, l1, l2)))
              refl))))

-- the state behind a dot
abbrev next_part : Parse → Parse
next_part s = record s { parts = set s.parts s.idx s.cur; idx = s.idx + 1; cur = 0; have = false }

parse_loop-dotted :
    (s0 s : Parse) (t : List ℕ) (b : ℕ)
    → ((rest : List ℕ) → parse_loop s0 (t ++ rest) ≡ parse_loop s rest)
    → s.have ≡ true
    → s.idx < 3
    → b < 256
    → (rest : List ℕ) → parse_loop s0 (dotted t b ++ rest) ≡ parse_loop (part (next_part s) b) rest
parse_loop-dotted s0 s t b read u k h rest =
    ap (parse_loop s0) (
      append_assoc (t ++ (dot ∷ [])) (decimal b) rest
      ∙ append_assoc t (dot ∷ []) (decimal b ++ rest))
    ∙ read (dot ∷ (decimal b ++ rest))
    ∙ parse_loop-dot s (decimal b ++ rest) u k
    ∙ parse_loop-decimal (next_part s) b rest h refl

-- Every 32-bit address that ip_be_to_text prints, parse_ipv4_be reads back.
pub parse-ip_be_to_text :
    (ip outsz : ℕ)
    → ip < 2 ^ 32
    → 16 ≤ outsz
    → (text : List ℕ) × (ip_be_to_text ip outsz ≡ some text) × (parse_ipv4_be text ≡ some ip)
unfolding parse_ipv4_be parse_loop
parse-ip_be_to_text ip outsz w h =
    let b0 : ℕ = ip / 2 ^ 24 % 256 in
    let b1 : ℕ = ip / 2 ^ 16 % 256 in
    let b2 : ℕ = ip / 2 ^ 8 % 256 in
    let b3 : ℕ = ip % 256 in
    let s0 = part parse_start b0 in
    let s1 = part (next_part s0) b1 in
    let s2 = part (next_part s1) b2 in
    let s3 = part (next_part s2) b3 in
    let r0 = λ (rest : List ℕ). parse_loop-decimal parse_start b0 rest (omega arith) refl in
    let r1 = parse_loop-dotted parse_start s0 (decimal b0) b1 r0 refl (omega arith) (omega arith) in
    let r2 =
      parse_loop-dotted parse_start s1 (dotted (decimal b0) b1) b2 r1 refl (omega arith)
        (omega arith) in
    let t3 : List ℕ = dotted (dotted (dotted (decimal b0) b1) b2) b3 in
    let r3 =
      parse_loop-dotted parse_start s2 (dotted (dotted (decimal b0) b1) b2) b3 r2 refl (omega arith)
        (omega arith) [] in
    let value : b0 * 2 ^ 24 + b1 * 2 ^ 16 + b2 * 2 ^ 8 + b3 ≡ ip = omega arith in
    (
      t3,
      ip_be_to_text_lem ip outsz h,
      ap (parse_loop parse_start) (sym (append-nil t3)) ∙ r3 ∙ ap some value,
    )
