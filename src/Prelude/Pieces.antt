-- ===== src/Prelude/Pieces.antt =====
-- Prefixes and suffixes of a list that is put together from pieces.
use Prim.Native.Nat.{ℕ, zero, suc, ◌+◌, ◌-◌, ◌≤◌}
use mathlib.Core.Path.{◌≡◌, refl, ap, sym, ◌∙◌}
use mathlib.Core.List.{List, [], ◌∷◌, ◌++◌}
use native.Mathlib.Omega.{arith}
use furi_os.Prelude.Lists.{length, take, drop, take-nil}

module _ {ℓ} {A : Type ℓ} where
  take_add : (r n : ℕ) (xs : List A) → take (r + n) xs ≡ take r xs ++ take n (drop r xs)
  take_add zero n xs = let none_before : 0 + n ≡ n = omega arith in rw none_before refl
  take_add (suc r) n [] = take-nil A (suc r + n) ∙ sym (take-nil A n)
  take_add (suc r) n (x ∷ xs) =
      let more : suc r + n ≡ suc (r + n) = omega arith in
      rw more (ap (λ t. x ∷ t) (take_add r n xs))

  drop_append :
      (xs ys : List A) (r : ℕ) → length xs ≤ r → drop r (xs ++ ys) ≡ drop (r - length xs) ys
  drop_append [] ys r h = let all : r - 0 ≡ r = omega arith in rw all refl
  drop_append (x ∷ xs) ys zero h = absurd (omega arith)
  drop_append (x ∷ xs) ys (suc r) h =
      let less : suc r - suc (length xs) ≡ r - length xs = omega arith in
      rw less (drop_append xs ys r (omega arith))

  drop_append_left : (xs ys : List A) (k : ℕ) → k ≤ length xs → drop k (xs ++ ys) ≡ drop k xs ++ ys
  drop_append_left xs ys zero h = refl
  drop_append_left [] ys (suc k) h = absurd (omega arith)
  drop_append_left (x ∷ xs) ys (suc k) h = drop_append_left xs ys k (omega arith)

  take_append : (xs ys : List A) (n : ℕ) → n ≤ length xs → take n (xs ++ ys) ≡ take n xs
  take_append xs ys zero h = refl
  take_append [] ys (suc n) h = absurd (omega arith)
  take_append (x ∷ xs) ys (suc n) h = ap (λ t. x ∷ t) (take_append xs ys n (omega arith))

  -- `n` more elements of a list, found inside a piece of it that starts no later than the first `r`.
  pub take_more :
      (before piece after : List A) (r n : ℕ)
      → length before ≤ r
      → r ≤ length before + length piece
      → n ≤ length (drop (r - length before) piece)
      → take (r + n) (before ++ (piece ++ after))
        ≡ take r (before ++ (piece ++ after)) ++ take n (drop (r - length before) piece)
  take_more before piece after r n h k m =
      take_add r n (before ++ (piece ++ after))
      ∙ ap (λ t. take r (before ++ (piece ++ after)) ++ take n t)
          (drop_append before (piece ++ after) r h
            ∙ drop_append_left piece after (r - length before) (omega arith))
      ∙ ap (λ t. take r (before ++ (piece ++ after)) ++ t)
          (take_append (drop (r - length before) piece) after n m)
