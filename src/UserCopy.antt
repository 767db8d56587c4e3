-- ===== src/UserCopy.antt =====
-- kernel/user_copy.c: copies between the kernel and user memory, checked against the user range.
-- User memory is a function of the address; a kernel buffer is a list of bytes. An `int` result is
-- true for 0 and false for -1.
mod Tests
use furi_os.Prelude.{
  ℕ, zero, suc, ◌+◌, ◌-◌, ◌≤◌, ◌<◌, ◌^◌, ◌%◌, ◌≡◌, ◌⊎◌, refl, ap, sym, ◌∙◌, Bool, true, false, inl,
  inr, not, ◌||◌, List, [], ◌∷◌, ltb, leb, ◌==◌, if◌then◌else◌, get_or, set, add64, arith,
  Bool-cases,
}

-- USER_VA_BASE and USER_VA_LIMIT
abbrev pub user_va_base : ℕ
user_va_base = 0x00400000

abbrev pub user_va_limit : ℕ
user_va_limit = 0x00800000

abbrev pub Memory : Type 0
Memory = ℕ → ℕ

unfoldable pub user_ptr_valid : (ptr len : ℕ) → Bool
user_ptr_valid ptr len =
    if len == 0
    then true
    else if ltb ptr user_va_base
    then false
    else if ltb (add64 ptr len) ptr
    then false
    else not (ltb user_va_limit (add64 ptr len))

-- `d[i] = s[i]` for the `k` rounds left
from_loop : (k i : ℕ) → Memory → (src : ℕ) → List ℕ → List ℕ
from_loop zero i mem src dst = dst
from_loop (suc k) i mem src dst = from_loop k (i + 1) mem src (set dst i (mem (src + i)))

unfoldable pub copy_from_user : Memory → List ℕ → (user_src n : ℕ) → Bool × List ℕ
unfolding from_loop
copy_from_user mem dst user_src n =
    if not (user_ptr_valid user_src n) then (false, dst) else (true, from_loop n 0 mem user_src dst)

abbrev pub store : Memory → ℕ → ℕ → Memory
store mem a b x = if x == a then b else mem x

to_loop : (k i : ℕ) → Memory → (dst : ℕ) → List ℕ → Memory
to_loop zero i mem dst src = mem
to_loop (suc k) i mem dst src = to_loop k (i + 1) (store mem (dst + i) (get_or src i 0)) dst src

unfoldable pub copy_to_user : Memory → (user_dst : ℕ) → List ℕ → ℕ → Bool × Memory
unfolding to_loop
copy_to_user mem user_dst src n =
    if not (user_ptr_valid user_dst n) then (false, mem) else (true, to_loop n 0 mem user_dst src)

-- The `k` rounds left; behind the last one `dst[maxlen - 1] = '\0'`.
str_loop : (k i : ℕ) → Memory → (src maxlen : ℕ) → List ℕ → Bool × List ℕ
str_loop zero i mem src maxlen dst = (true, set dst (maxlen - 1) 0)
str_loop (suc k) i mem src maxlen dst =
    let dst' = set dst i (mem (src + i)) in
    let rest = str_loop k (i + 1) mem src maxlen dst' in
    if leb user_va_limit (src + i)
    then (false, dst)
    else if mem (src + i) == 0
    then (true, dst')
    else rest

-- With `maxlen` zero the code's last write is outside the buffer, and `set` drops it.
unfoldable pub copy_user_str : Memory → List ℕ → (user_src maxlen : ℕ) → Bool × List ℕ
unfolding str_loop
copy_user_str mem dst user_src maxlen =
    if not (user_ptr_valid user_src 1)
    then (false, dst)
    else str_loop maxlen 0 mem user_src maxlen dst

to_loop_lem :
    (k i : ℕ) (mem : Memory) (dst : ℕ) (src : List ℕ) (a : ℕ)
    → (((dst + i ≤ a) × (a < dst + (i + k))) × (to_loop k i mem dst src a ≡ get_or src (a - dst) 0))
      ⊎ (((a < dst + i) ⊎ (dst + (i + k) ≤ a)) × (to_loop k i mem dst src a ≡ mem a))
unfolding to_loop
to_loop_lem zero i mem dst src a = ground arith
to_loop_lem (suc k) i mem dst src a =
    let at : dst + i ≡ a → a - dst ≡ i = λ e. omega arith in
    ground (arith, at, to_loop_lem k (i + 1) (store mem (dst + i) (get_or src i 0)) dst src a)

-- copy_to_user either refuses and changes nothing, or it leaves in each byte of the destination the
-- corresponding byte of the source and every other address as it was; the addresses that it writes
-- are user addresses.
pub copy_to_user_lem :
    (mem : Memory) (dst n : ℕ) (src : List ℕ)
    → dst < 2 ^ 64
    → n < 2 ^ 64
    → let (ok, mem') = copy_to_user mem dst src n in
      (a : ℕ)
      → ((ok ≡ false) × (mem' a ≡ mem a))
        ⊎ ((ok ≡ true)
            × (((dst ≤ a)
                  × (a < dst + n)
                  × (user_va_base ≤ a)
                  × (a < user_va_limit)
                  × (mem' a ≡ get_or src (a - dst) 0))
                ⊎ (((a < dst) ⊎ (dst + n ≤ a)) × (mem' a ≡ mem a))))
unfolding copy_to_user user_ptr_valid
copy_to_user_lem mem dst n src d w a = ground (arith, to_loop_lem n 0 mem dst src a)
