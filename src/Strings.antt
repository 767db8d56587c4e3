-- ===== src/Strings.antt =====
-- kernel/string.c. A pointer into a buffer is the list of the bytes from there to the buffer's end,
-- and a byte past the end reads as zero; bytes are below 256. A result that the caller only tests for
-- its sign is a ℤ; a returned pointer into the argument is an index, `none` where it is NULL.
use furi_os.Prelude.{
  ℕ, zero, suc, ◌+◌, ◌-◌, ◌≤◌, ◌%◌, ◌≡◌, refl, ap, ◌∙◌, Bool, false, not, ◌&&◌, ◌||◌, Option, none,
  some, List, [], ◌∷◌, leb, ◌==◌, if◌then◌else◌, get_or, set, length, take, overwrite, arith, ℤ,
  pos, negsuc, slice, slice-eq-take,
}

-- `(int)a - (int)b`
abbrev difference : ℕ → ℕ → ℤ
difference a b = if leb b a then pos (a - b) else negsuc (b - a - 1)

strlen : List ℕ → ℕ
strlen [] = 0
strlen (c ∷ s) = let rest = strlen s in if c == 0 then 0 else rest + 1

strcmp : List ℕ → List ℕ → ℤ
strcmp [] b = difference 0 (get_or b 0 0)
strcmp (x ∷ a) [] = difference x 0
strcmp (x ∷ a) (y ∷ b) =
    let rest = strcmp a b in if not (x == 0) && x == y then rest else difference x y

-- the `k` rounds left of strncmp, from index `i` on
strncmp_loop : (k i : ℕ) → List ℕ → List ℕ → ℤ
strncmp_loop zero i a b = pos 0
strncmp_loop (suc k) i a b =
    let x = get_or a i 0 in
    let y = get_or b i 0 in
    let rest = strncmp_loop k (i + 1) a b in
    if not (x == y) || x == 0 || y == 0 then difference x y else rest

strncmp : List ℕ → List ℕ → ℕ → ℤ
unfolding strncmp_loop
strncmp a b n = strncmp_loop n 0 a b

-- The bytes up to the zero are written from index `i` on, and then the zero.
strcpy_from : (i : ℕ) → List ℕ → List ℕ → List ℕ
strcpy_from i dst [] = set dst i 0
strcpy_from i dst (c ∷ src) =
    let rest = strcpy_from (i + 1) (set dst i c) src in if c == 0 then set dst i 0 else rest

strcpy : List ℕ → List ℕ → List ℕ
unfolding strcpy_from
strcpy dst src = strcpy_from 0 dst src

-- The two loops of strncpy, `k` rounds left in both together; `ended` once the zero is met.
strncpy_loop : (k i : ℕ) → (ended : Bool) → List ℕ → List ℕ → List ℕ
strncpy_loop zero i ended dst src = dst
strncpy_loop (suc k) i ended dst src =
    let stop = ended || get_or src i 0 == 0 in
    strncpy_loop k (i + 1) stop (set dst i (if stop then 0 else get_or src i 0)) src

strncpy : List ℕ → List ℕ → ℕ → List ℕ
unfolding strncpy_loop
strncpy dst src n = strncpy_loop n 0 false dst src

memcpy_loop : (k i : ℕ) → List ℕ → List ℕ → List ℕ
memcpy_loop zero i dst src = dst
memcpy_loop (suc k) i dst src = memcpy_loop k (i + 1) (set dst i (get_or src i 0)) src

memcpy : List ℕ → List ℕ → ℕ → List ℕ
unfolding memcpy_loop
memcpy dst src n = memcpy_loop n 0 dst src

memset_loop : (k i : ℕ) → List ℕ → ℕ → List ℕ
memset_loop zero i dst c = dst
memset_loop (suc k) i dst c = memset_loop k (i + 1) (set dst i (c % 256)) c

memset : List ℕ → ℕ → ℕ → List ℕ
unfolding memset_loop
memset dst c n = memset_loop n 0 dst c

memcmp_loop : (k i : ℕ) → List ℕ → List ℕ → ℤ
memcmp_loop zero i a b = pos 0
memcmp_loop (suc k) i a b =
    let rest = memcmp_loop k (i + 1) a b in
    if not (get_or a i 0 == get_or b i 0) then difference (get_or a i 0) (get_or b i 0) else rest

memcmp : List ℕ → List ℕ → ℕ → ℤ
unfolding memcmp_loop
memcmp a b n = memcmp_loop n 0 a b

-- The index of the first `c` before the zero, or of the zero for `c` zero.
strchr_from : (i : ℕ) → List ℕ → ℕ → Option ℕ
strchr_from i [] c = if c == 0 then some i else none
strchr_from i (x ∷ s) c =
    let rest = strchr_from (i + 1) s c in
    if x == 0 then (if c == 0 then some i else none) else if x == c % 256 then some i else rest

strchr : List ℕ → ℕ → Option ℕ
unfolding strchr_from
strchr s c = strchr_from 0 s c

memcpy_loop_lem :
    (k i : ℕ) (dst src : List ℕ) → memcpy_loop k i dst src ≡ overwrite dst i (slice 0 src i k)
unfolding memcpy_loop
memcpy_loop_lem zero i dst src = refl
memcpy_loop_lem (suc k) i dst src = memcpy_loop_lem k (i + 1) (set dst i (get_or src i 0)) src

-- memcpy writes the first `n` bytes of the source to the front of the destination.
memcpy_lem :
    (dst src : List ℕ) (n : ℕ) → n ≤ length src → memcpy dst src n ≡ overwrite dst 0 (take n src)
unfolding memcpy
memcpy_lem dst src n h =
    memcpy_loop_lem n 0 dst src ∙ ap (overwrite dst 0) (slice-eq-take 0 src n h)

-- strlen stays inside a terminated buffer and stops at its zero.
strlen_lem : (s : List ℕ) → (strlen s ≤ length s) × (get_or s (strlen s) 0 ≡ 0)
unfolding strlen
strlen_lem [] = (omega arith, refl)
strlen_lem (c ∷ s) = ground (arith, strlen_lem s)

strcmp_self : (s : List ℕ) → strcmp s s ≡ pos 0
unfolding strcmp
strcmp_self [] = refl
strcmp_self (c ∷ s) = ground (arith, strcmp_self s)
