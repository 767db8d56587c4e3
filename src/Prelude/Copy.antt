-- ===== src/Prelude/Copy.antt =====
-- What a byte-copying loop leaves in its destination.
use Prim.Native.Nat.{ℕ, zero, suc, ◌+◌, ◌≤◌}
use mathlib.Core.Path.{◌≡◌, refl, ap, ◌∙◌}
use mathlib.Core.List.{List, [], ◌∷◌, ◌++◌}
use native.Mathlib.Omega.{arith}
use furi_os.Prelude.Lists.{length, set, take, drop, length-set}

module _ {ℓ} {A : Type ℓ} where
  -- `d[i] = x; i++` for each `x` of a list
  abbrev pub overwrite : List A → ℕ → List A → List A
  overwrite dst i [] = dst
  overwrite dst i (x ∷ xs) = overwrite (set dst i x) (i + 1) xs

  pub length-overwrite :
      (dst : List A) (i : ℕ) (xs : List A) → length (overwrite dst i xs) ≡ length dst
  length-overwrite dst i [] = refl
  length-overwrite dst i (x ∷ xs) = length-overwrite (set dst i x) (i + 1) xs ∙ length-set dst i x

  overwrite-cons :
      (d : A) (dst : List A) (i : ℕ) (xs : List A)
      → overwrite (d ∷ dst) (suc i) xs ≡ d ∷ overwrite dst i xs
  overwrite-cons d dst i [] = refl
  overwrite-cons d dst i (x ∷ xs) =
      let step : suc i + 1 ≡ suc (i + 1) = omega arith in
      rw step (overwrite-cons d (set dst i x) (i + 1) xs)

  pub overwrite-zero :
      (xs dst : List A) → length xs ≤ length dst → overwrite dst 0 xs ≡ xs ++ drop (length xs) dst
  overwrite-zero [] dst h = refl
  overwrite-zero (x ∷ xs) [] h = absurd (omega arith)
  overwrite-zero (x ∷ xs) (d ∷ dst) h =
      let one : 0 + 1 ≡ suc 0 = omega arith in
      rw one (overwrite-cons x dst 0 xs ∙ ap (λ t. x ∷ t) (overwrite-zero xs dst (omega arith)))

  -- A copy that fits replaces exactly its range.
  pub overwrite-eq-append :
      (i : ℕ) (xs dst : List A)
      → i + length xs ≤ length dst
      → overwrite dst i xs ≡ take i dst ++ (xs ++ drop (i + length xs) dst)
  overwrite-eq-append zero xs dst h =
      let none_before : 0 + length xs ≡ length xs = omega arith in
      rw none_before (overwrite-zero xs dst (omega arith))
  overwrite-eq-append (suc i) xs [] h = absurd (omega arith)
  overwrite-eq-append (suc i) xs (d ∷ dst) h =
      let after : suc i + length xs ≡ suc (i + length xs) = omega arith in
      rw after
        (overwrite-cons d dst i xs ∙ ap (λ t. d ∷ t) (overwrite-eq-append i xs dst (omega arith)))

  pub take_append_left : (xs ys : List A) → take (length xs) (xs ++ ys) ≡ xs
  take_append_left [] ys = refl
  take_append_left (x ∷ xs) ys = ap (λ t. x ∷ t) (take_append_left xs ys)

  -- Reading back what was copied to the front.
  pub take-overwrite :
      (xs dst : List A) → length xs ≤ length dst → take (length xs) (overwrite dst 0 xs) ≡ xs
  take-overwrite xs dst h =
      ap (take (length xs)) (overwrite-zero xs dst h) ∙ take_append_left xs (drop (length xs) dst)
