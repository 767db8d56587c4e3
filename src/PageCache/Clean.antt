-- ===== src/PageCache/Clean.antt =====
-- What a flush of the page cache may make of the entries.
use furi_os.Prelude.{
  ℕ, ◌<◌, ◌≡◌, refl, ap, sym, ◌∙◌, subst, ◌⊎◌, inl, inr, true, false, false≢true, List, ◌==◌, arith,
  Bool-cases, get_or, set, length, ==→eq, ==→ne, get_or-set_self, get_or-set_ne, length-set,
}
use furi_os.PageCache.{Entry, Ident, Choice, zero_entry, chosen}

-- What a flush makes of the entries: those it is about may be cleaned, and nothing else changes.
unfoldable pub Cleaned : (ident : ℕ → Ident) → Choice → List Entry → List Entry → Type 0
Cleaned ident p es es' =
    (length es' ≡ length es)
    × ((k : ℕ)
        → let e = get_or es k zero_entry in
          (get_or es' k zero_entry ≡ e)
          ⊎ ((chosen ident p e ≡ true)
              × ((t : ℕ) × (get_or es' k zero_entry ≡ record e { dirty = false; last_touch = t }))))

pub Cleaned-refl : (ident : ℕ → Ident) (p : Choice) (es : List Entry) → Cleaned ident p es es
unfolding Cleaned
Cleaned-refl ident p es = (refl, λ k. inl refl)

pub not_chosen :
    (ident : ℕ → Ident) (p : Choice) (e : Entry) (t : ℕ)
    → chosen ident p (record e { dirty = false; last_touch = t }) ≡ false
unfolding chosen
not_chosen ident p e t = ground arith

pub Cleaned-trans :
    (ident : ℕ → Ident) (p : Choice) (es es1 es2 : List Entry)
    → Cleaned ident p es es1
    → Cleaned ident p es1 es2
    → Cleaned ident p es es2
unfolding Cleaned
Cleaned-trans ident p es es1 es2 a b = (
  b.0 ∙ a.0,
  λ k. elim (a.1 k) [
    | inl same ↦
        subst
          (λ e.
            (get_or es2 k zero_entry ≡ e)
            ⊎ ((chosen ident p e ≡ true)
                × ((t : ℕ) × (get_or es2 k zero_entry
                      ≡ record e { dirty = false; last_touch = t }))))
          same (b.1 k)
    | inr (c, (t, at)) ↦ elim (b.1 k) [
      | inl same ↦ inr (c, (t, same ∙ at))
      | inr (c', (t', at')) ↦ absurd (
          false≢true (
            sym (not_chosen ident p (get_or es k zero_entry) t)
            ∙ ap (chosen ident p) (sym at)
            ∙ c'))
    ]
  ],
)

pub Cleaned-set :
    (ident : ℕ → Ident) (p : Choice) (es : List Entry) (i t : ℕ)
    → i < length es
    → chosen ident p (get_or es i zero_entry) ≡ true
    → Cleaned ident p es
        (set es i (record (get_or es i zero_entry) { dirty = false; last_touch = t }))
unfolding Cleaned
Cleaned-set ident p es i t l c =
    let e' = record (get_or es i zero_entry) { dirty = false; last_touch = t } in
    (
      length-set es i e',
      λ k. elim (Bool-cases (i == k)) [
        | inl h ↦
            let same : i ≡ k = ==→eq i k h in
            subst
              (λ k.
                (get_or (set es i e') k zero_entry ≡ get_or es k zero_entry)
                ⊎ ((chosen ident p (get_or es k zero_entry) ≡ true)
                    × ((t : ℕ) × (get_or (set es i e') k zero_entry
                          ≡ record (get_or es k zero_entry) { dirty = false; last_touch = t }))))
              same (inr (c, (t, get_or-set_self es i e' zero_entry l)))
        | inr h ↦ inl (get_or-set_ne es i k e' zero_entry (==→ne i k h))
      ],
    )
