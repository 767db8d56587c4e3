-- ===== src/Prelude/Bits.antt =====
-- Masks: what `&` does with a run of ones, from the digit recursion of the native operation.
use Prim.Native.Nat.{
  ℕ, zero, suc, ◌+◌, ◌-◌, ◌*◌, ◌/◌, ◌%◌, ◌^◌, ◌≤◌, ◌<◌, min, bit_and, digits, bit_and-bitwise,
}
use mathlib.Core.Path.{◌≡◌, refl, ◌∙◌, sym, ap, subst}
use native.Mathlib.Omega.{arith}

-- `conj fuel x y` is `x & y` computed on at most `fuel` binary digits of `x`.
abbrev conj : (fuel x y : ℕ) → ℕ
conj fuel x y = digits (λ y. zero) min fuel x y

-- With as much fuel as `x`, one more unit is not used ...
conj_spare : (fuel x y : ℕ) → x ≤ fuel → conj (suc fuel) x y ≡ conj fuel x y
conj_spare zero zero y enough = refl
conj_spare (suc fuel) zero y enough = refl
conj_spare zero (suc x) y enough = absurd (omega arith)
conj_spare (suc fuel) (suc x) y enough =
    ap (λ r. r * 2 + min (suc x % 2) (y % 2)) (conj_spare fuel (suc x / 2) (y / 2) (omega arith))

-- ... nor are `more` units.
conj_surplus : (more x y : ℕ) → conj (more + x) x y ≡ bit_and x y
conj_surplus zero x y = let start : 0 + x ≡ x = omega arith in rw start (sym (bit_and-bitwise x y))
conj_surplus (suc more) x y =
    let next : suc more + x ≡ suc (more + x) = omega arith in
    rw next (conj_spare (more + x) x y (omega arith) ∙ conj_surplus more x y)

-- The last digit of `x & y`, and the digits before it.
pub bit_and_step : (x y : ℕ) → bit_and x y ≡ bit_and (x / 2) (y / 2) * 2 + min (x % 2) (y % 2)
bit_and_step zero y =
    let none : (z : ℕ) → bit_and 0 z ≡ 0 = bit_and-bitwise 0 in omega (arith, none y, none (y / 2))
bit_and_step (suc x) y =
    let rest : (x - suc x / 2) + suc x / 2 ≡ x = omega arith in
    let inner : conj x (suc x / 2) (y / 2) ≡ bit_and (suc x / 2) (y / 2) =
      subst (λ fuel. conj fuel (suc x / 2) (y / 2) ≡ bit_and (suc x / 2) (y / 2)) rest
        (conj_surplus (x - suc x / 2) (suc x / 2) (y / 2)) in
    bit_and-bitwise (suc x) y ∙ ap (λ r. r * 2 + min (suc x % 2) (y % 2)) inner

-- A mask of no ones: `bound` counts down with the digits of `x`.
clear_all : (bound x : ℕ) → x < suc bound → bit_and x 0 ≡ 0
clear_all zero x small = let none : x ≡ 0 = omega arith in rw none refl
clear_all (suc bound) x small =
    omega (arith, bit_and_step x 0, clear_all bound (x / 2) (omega arith))

pub bit_and-zero : (x : ℕ) → bit_and x 0 ≡ 0
bit_and-zero x = clear_all x x (omega arith)

-- `n` ones, then `k` zeros
abbrev pub ones : ℕ → ℕ
ones zero = 0
ones (suc n) = ones n * 2 + 1

abbrev pub shifted : ℕ → ℕ → ℕ
shifted zero n = ones n
shifted (suc k) n = shifted k n * 2

abbrev pub pow2 : ℕ → ℕ
pow2 zero = 1
pow2 (suc k) = pow2 k * 2

pub pow2-pos : (k : ℕ) → 0 < pow2 k
pow2-pos zero = omega arith
pow2-pos (suc k) = omega (arith, pow2-pos k)

-- The quotient and remainder by 2 ^ k, digit by digit.
abbrev pub high : ℕ → ℕ → ℕ
high zero x = x
high (suc k) x = high k (x / 2)

abbrev pub low : ℕ → ℕ → ℕ
low zero x = 0
low (suc k) x = low k (x / 2) * 2 + x % 2

pub bit_and-ones : (n x : ℕ) → bit_and x (ones n) ≡ low n x
bit_and-ones zero x = bit_and-zero x
bit_and-ones (suc n) x =
    let half : (ones n * 2 + 1) / 2 ≡ ones n = omega arith in
    bit_and_step x (ones n * 2 + 1)
    ∙ ap (λ m. bit_and (x / 2) m * 2 + min (x % 2) ((ones n * 2 + 1) % 2)) half
    ∙ omega (arith, bit_and-ones n (x / 2))

pub bit_and-shifted : (k n x : ℕ) → bit_and x (shifted k n) ≡ low n (high k x) * pow2 k
bit_and-shifted zero n x = omega (arith, bit_and-ones n x)
bit_and-shifted (suc k) n x =
    let half : shifted k n * 2 / 2 ≡ shifted k n = omega arith in
    bit_and_step x (shifted k n * 2)
    ∙ ap (λ m. bit_and (x / 2) m * 2 + min (x % 2) (shifted k n * 2 % 2)) half
    ∙ omega (arith, bit_and-shifted k n (x / 2))

-- The masks of the program: PAGE_SIZE - 1, ~(PAGE_SIZE - 1), 15 and ~15.
pub bit_and-page : (x : ℕ) → bit_and x 4095 ≡ x % 4096
bit_and-page x = bit_and-ones 12 x ∙ omega arith

low_small : (n y : ℕ) → y < pow2 n → low n y ≡ y
low_small zero y h = omega arith
low_small (suc n) y h = omega (arith, low_small n (y / 2) (omega arith))

-- `high k x` is the quotient of `x` by 2 ^ k.
high_bounds : (k x : ℕ) → (high k x * pow2 k ≤ x) × (x < high k x * pow2 k + pow2 k)
high_bounds zero x = omega arith
high_bounds (suc k) x = omega (arith, high_bounds k (x / 2))

high-lt : (k n x : ℕ) → x < pow2 (k + n) → high k x < pow2 n
high-lt zero n x h = let same : 0 + n ≡ n = omega arith in subst (λ m. x < pow2 m) same h
high-lt (suc k) n x h =
    let next : suc k + n ≡ suc (k + n) = omega arith in
    let h' : x < pow2 (k + n) * 2 = subst (λ m. x < pow2 m) next h in
    high-lt k n (x / 2) (omega arith)

-- `x & ~(2 ^ k - 1)` on a word of `k + n` bits rounds `x` down to a multiple of 2 ^ k.
pub clear_low :
    (k n x : ℕ)
    → x < pow2 (k + n)
    → (bit_and x (shifted k n) ≡ high k x * pow2 k)
      × (bit_and x (shifted k n) ≤ x)
      × (x < bit_and x (shifted k n) + pow2 k)
clear_low k n x h =
    let e : bit_and x (shifted k n) ≡ high k x * pow2 k =
      bit_and-shifted k n x ∙ ap (λ y. y * pow2 k) (low_small n (high k x) (high-lt k n x h)) in
    (e, omega (arith, high_bounds k x), omega (arith, high_bounds k x))

-- ~(PAGE_SIZE - 1) and ~15 on 64 bits.
pub bit_and-page_mask : (x : ℕ) → x < 2 ^ 64 → bit_and x (2 ^ 64 - 4096) ≡ x - x % 4096
bit_and-page_mask x h = omega (arith, clear_low 12 52 x h, high_bounds 12 x)

pub bit_and-mask16 : (x : ℕ) → x < 2 ^ 64 → bit_and x (2 ^ 64 - 16) ≡ x - x % 16
bit_and-mask16 x h = omega (arith, clear_low 4 60 x h, high_bounds 4 x)

pub shifted-add-pow2 : (k n : ℕ) → shifted k n + pow2 k ≡ pow2 (k + n)
shifted-add-pow2 zero zero = refl
shifted-add-pow2 zero (suc n) =
    let more : 0 + suc n ≡ suc (0 + n) = omega arith in
    rw more (omega (arith, shifted-add-pow2 zero n))
shifted-add-pow2 (suc k) n =
    let more : suc k + n ≡ suc (k + n) = omega arith in
    rw more (omega (arith, shifted-add-pow2 k n))

pub pow2_mono : (j k : ℕ) → j ≤ k → pow2 j ≤ pow2 k
pow2_mono zero k h = omega (arith, pow2-pos k)
pow2_mono (suc j) zero h = absurd (omega arith)
pow2_mono (suc j) (suc k) h = omega (arith, pow2_mono j k (omega arith))
