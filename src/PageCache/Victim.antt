-- ===== src/PageCache/Victim.antt =====
-- The entry that a flush of the page cache picks, and the number of entries that it is about.
use furi_os.Prelude.{
  ℕ, zero, suc, ◌+◌, ◌≤◌, ◌<◌, ◌≡◌, refl, ap, ◌∙◌, subst, ◌⊎◌, ◌≢◌, inl, inr, Bool, true, false,
  ◌&&◌, Option, none, some, List, [], ◌∷◌, if◌then◌else◌, arith, Bool-cases, get_or, set, length,
}
use furi_os.PageCache.{
  Ident, Entry, zero_entry, Choice, chosen, victim_from, touched_before, count_if,
}

victim_from-some :
    (ident : ℕ → Ident) (p : Choice) (i : ℕ) (es : List Entry) (v : ℕ × ℕ)
    → victim_from ident p i es (some v) ≢ none
unfolding victim_from
victim_from-some ident p i [] v h = ground arith
victim_from-some ident p i (e ∷ es) v h =
    let P = λ (b : Bool).
      victim_from ident p (i + 1) es (if b then some (i, e.last_touch) else some v) ≡ none in
    elim (Bool-cases (chosen ident p e && touched_before e.last_touch (some v))) [
      | inl q ↦ victim_from-some ident p (i + 1) es (i, e.last_touch) (subst P q h)
      | inr q ↦ victim_from-some ident p (i + 1) es v (subst P q h)
    ]

pub victim_from-none :
    (ident : ℕ → Ident) (p : Choice) (i : ℕ) (es : List Entry)
    → victim_from ident p i es none ≡ none
    → count_if (chosen ident p) es ≡ 0
unfolding victim_from touched_before
victim_from-none ident p i [] h = refl
victim_from-none ident p i (e ∷ es) h =
    let P = λ (b : Bool).
      victim_from ident p (i + 1) es (if b && true then some (i, e.last_touch) else none) ≡ none in
    elim (Bool-cases (chosen ident p e)) [
      | inl q ↦ absurd (victim_from-some ident p (i + 1) es (i, e.last_touch) (subst P q h))
      | inr q ↦ rw q (victim_from-none ident p (i + 1) es (subst P q h))
    ]

-- the victim is one of the entries and chosen
victim_from-chosen :
    (ident : ℕ → Ident) (p : Choice) (i : ℕ) (es : List Entry) (v : Option (ℕ × ℕ)) (j t : ℕ)
    → victim_from ident p i es v ≡ some (j, t)
    → (v ≡ some (j, t))
      ⊎ ((k : ℕ) × (j ≡ i + k) × (k < length es) × (chosen ident p (get_or es k zero_entry) ≡ true))
unfolding victim_from
victim_from-chosen ident p i [] v j t h = inl h
victim_from-chosen ident p i (e ∷ es) v j t h =
    let P = λ (b : Bool).
      victim_from ident p (i + 1) es (if b then some (i, e.last_touch) else v) ≡ some (j, t) in
    elim (Bool-cases (chosen ident p e && touched_before e.last_touch v)) [
      | inl q ↦
          elim (victim_from-chosen ident p (i + 1) es (some (i, e.last_touch)) j t (subst P q h)) [
            | inl same ↦ inr (0, ground arith, omega arith, ground arith)
            | inr (k, at, l, c) ↦ inr (suc k, omega (arith, at), omega (arith, l), c)
          ]
      | inr q ↦ elim (victim_from-chosen ident p (i + 1) es v j t (subst P q h)) [
        | inl same ↦ inl same
        | inr (k, at, l, c) ↦ inr (suc k, omega (arith, at), omega (arith, l), c)
      ]
    ]

pub count_if-set :
    (test : Entry → Bool) (es : List Entry) (k : ℕ) (e : Entry)
    → k < length es
    → test (get_or es k zero_entry) ≡ true
    → test e ≡ false
    → count_if test es ≡ suc (count_if test (set es k e))
count_if-set test [] k e l h n = absurd (omega arith)
count_if-set test (x ∷ es) zero e l h n = ground arith
count_if-set test (x ∷ es) (suc k) e l h n =
    let rest = count_if-set test es k e (omega arith) h n in ground (arith, rest)

pub count_if_le : (test : Entry → Bool) (es : List Entry) → count_if test es ≤ length es
count_if_le test [] = omega arith
count_if_le test (e ∷ es) = ground (arith, count_if_le test es)

pub count_if_zero :
    (test : Entry → Bool) (es : List Entry) (k : ℕ)
    → count_if test es ≡ 0
    → k < length es
    → test (get_or es k zero_entry) ≡ false
count_if_zero test [] k h l = absurd (omega arith)
count_if_zero test (e ∷ es) zero h l = ground arith
count_if_zero test (e ∷ es) (suc k) h l = count_if_zero test es k (ground arith) (omega arith)

pub victim_lem :
    (ident : ℕ → Ident) (p : Choice) (es : List Entry) (j t : ℕ)
    → victim_from ident p 0 es none ≡ some (j, t)
    → (j < length es) × (chosen ident p (get_or es j zero_entry) ≡ true)
victim_lem ident p es j t h = elim (victim_from-chosen ident p 0 es none j t h) [
  | inl e ↦ ground arith
  | inr (k, at, l, c) ↦
      let same : j ≡ k = omega (arith, at) in
      (omega (arith, at, l), ap (λ k. chosen ident p (get_or es k zero_entry)) same ∙ c)
]
