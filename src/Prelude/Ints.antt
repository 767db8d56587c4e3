-- ===== src/Prelude/Ints.antt =====
-- C's `int` where the code gives a meaning to negative values.
use Prim.Native.Nat.{ℕ}
use mathlib.Core.Path.{◌≡◌, ap}
use mathlib.Core.Bool.{Bool, true, false, false≢true}
use furi_os.Prelude.Tests.{◌==◌, ==→eq, ==_self}

pub data ℤ : Type 0 where
  pos : ℕ → ℤ
  negsuc : ℕ → ℤ

abbrev pub int_eq : ℤ → ℤ → Bool
int_eq (pos a) (pos b) = a == b
int_eq (negsuc a) (negsuc b) = a == b
int_eq (pos a) (negsuc b) = false
int_eq (negsuc a) (pos b) = false

abbrev pub negative : ℤ → Bool
negative (pos a) = false
negative (negsuc a) = true

pub int_eq→eq : (a b : ℤ) → int_eq a b ≡ true → a ≡ b
int_eq→eq (pos a) (pos b) h = ap pos (==→eq a b h)
int_eq→eq (negsuc a) (negsuc b) h = ap negsuc (==→eq a b h)
int_eq→eq (pos a) (negsuc b) h = absurd (false≢true h)
int_eq→eq (negsuc a) (pos b) h = absurd (false≢true h)

pub int_eq_self : (a : ℤ) → int_eq a a ≡ true
int_eq_self (pos a) = ==_self a
int_eq_self (negsuc a) = ==_self a
