-- ===== src/Prelude/Ring.antt =====
-- A window of a ring buffer: `n` slots from index `i` on, of a ring of `cap` slots.
use Prim.Native.Nat.{ℕ, zero, suc, ◌+◌, ◌-◌, ◌≤◌, ◌<◌}
use mathlib.Core.Path.{◌≡◌, refl, ap, ap₂, ◌∙◌, sym}
use mathlib.Core.Logic.{◌≢◌}
use mathlib.Core.List.{List, [], ◌∷◌, ◌++◌}
use native.Mathlib.Omega.{arith}
use furi_os.Prelude.Tests.{ltb, if◌then◌else◌}
use furi_os.Prelude.Lists.{length, get_or, set, get_or-set_self, get_or-set_ne}

abbrev pub wrap : ℕ → ℕ → ℕ
wrap cap i = if ltb i cap then i else i - cap

module _ {ℓ} {A : Type ℓ} (d : A) (cap : ℕ) where
  abbrev pub ring : List A → ℕ → ℕ → List A
  ring xs i zero = []
  ring xs i (suc n) = get_or xs i d ∷ ring xs (wrap cap (i + 1)) n

  pub length-ring : (xs : List A) (i n : ℕ) → length (ring xs i n) ≡ n
  length-ring xs i zero = refl
  length-ring xs i (suc n) = ap suc (length-ring xs (wrap cap (i + 1)) n)

  ring-last :
      (xs : List A) (i n : ℕ)
      → i < cap
      → i + n < cap + cap
      → ring xs i (suc n) ≡ ring xs i n ++ (get_or xs (wrap cap (i + n)) d ∷ [])
  ring-last xs i zero h k =
      let at : i ≡ wrap cap (i + 0) = ground arith in ap (λ j. get_or xs j d ∷ []) at
  ring-last xs i (suc n) h k =
      let at : wrap cap (wrap cap (i + 1) + n) ≡ wrap cap (i + suc n) = ground arith in
      ap (λ t. get_or xs i d ∷ t)
        (ring-last xs (wrap cap (i + 1)) n (ground arith) (ground arith)
          ∙ ap (λ j. ring xs (wrap cap (i + 1)) n ++ (get_or xs j d ∷ [])) at)

  -- A write `q` slots ahead is outside a window of at most `q`.
  pub ring-set_ahead :
      (xs : List A) (i n q t : ℕ) (v : A)
      → i < cap
      → n ≤ q
      → q < cap
      → t ≡ wrap cap (i + q)
      → ring (set xs t v) i n ≡ ring xs i n
  ring-set_ahead xs i zero q t v h k l e = refl
  ring-set_ahead xs i (suc n) q t v h k l e =
      let apart : t ≢ i = λ z. ground arith in
      ap₂ (λ x y. x ∷ y) (get_or-set_ne xs t i v d apart)
        (ring-set_ahead xs (wrap cap (i + 1)) n (q - 1) t v (ground arith) (omega arith)
          (omega arith) (ground arith))

  -- A write behind a window of `n` slots, in a ring with room, appends to it.
  pub ring-set_end :
      (xs : List A) (i n t : ℕ) (v : A)
      → length xs ≡ cap
      → i < cap
      → n < cap
      → t ≡ wrap cap (i + n)
      → ring (set xs t v) i (n + 1) ≡ ring xs i n ++ (v ∷ [])
  ring-set_end xs i n t v size h k e =
      let more : n + 1 ≡ suc n = omega arith in
      let inside : t < length xs = ground arith in
      ap (ring (set xs t v) i) more
      ∙ ring-last (set xs t v) i n h (omega arith)
      ∙ ap₂ (λ x y. x ++ (y ∷ [])) (ring-set_ahead xs i n n t v h (omega arith) k e)
          (ap (λ j. get_or (set xs t v) j d) (sym e) ∙ get_or-set_self xs t v d inside)
