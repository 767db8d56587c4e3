-- ===== src/Net/Route.antt =====
-- What the routing table of kernel/net.c promises: a finite map from (prefix, mask)
-- to a gateway and an interface.
use furi_os.Prelude.{
  ℕ, ◌≡◌, refl, ◌∙◌, ◌⊎◌, inl, inr, ◌≢◌, Bool, true, false, not, ◌&&◌, Option, none, some, List, [],
  ◌∷◌, ◌==◌, if◌then◌else◌, if_cases, arith, Bool-cases, ℤ,
}
use furi_os.Net.{NetRoute, same_key, replace_route, fill_route, route_add, route_del}

-- what the table holds for a key: the gateway and the interface of the first route that has it
unfoldable pub entry : (prefix mask : ℕ) → List NetRoute → Option (ℕ × ℤ)
entry prefix mask [] = none
entry prefix mask (r ∷ rs) =
    let rest = entry prefix mask rs in
    if same_key prefix mask r then some (r.gw_be, r.if_index) else rest

unfoldable pub Full : List NetRoute → Type 0
Full [] = Unit
Full (r ∷ rs) = (r.used ≡ true) × Full rs

-- no two used routes share a key
unfoldable pub Distinct : List NetRoute → Type 0
Distinct [] = Unit
Distinct (r ∷ rs) = (r.used ≡ true → entry r.prefix_be r.mask_be rs ≡ none) × Distinct rs

replace_route_lem :
    (prefix mask gw : ℕ) (i : ℤ) (rs : List NetRoute)
    → let (done, rs') = replace_route prefix mask gw i rs in
      ((done ≡ true) × (entry prefix mask rs' ≡ some (gw, i)))
      ⊎ ((done ≡ false) × (entry prefix mask rs ≡ none))
unfolding replace_route entry
replace_route_lem prefix mask gw i [] = inr (refl, refl)
replace_route_lem prefix mask gw i (r ∷ rs) = elim (replace_route_lem prefix mask gw i rs) [
  | inl h ↦ ground arith
  | inr h ↦ ground arith
]

replace_route-others :
    (prefix mask gw : ℕ) (i : ℤ) (p m : ℕ) (rs : List NetRoute)
    → (p == prefix) && (m == mask) ≡ false
    → entry p m (replace_route prefix mask gw i rs).1 ≡ entry p m rs
unfolding replace_route entry
replace_route-others prefix mask gw i p m [] h = refl
replace_route-others prefix mask gw i p m (r ∷ rs) h =
    ground (arith, replace_route-others prefix mask gw i p m rs h)

fill_route_lem :
    (prefix mask gw : ℕ) (i : ℤ) (rs : List NetRoute)
    → entry prefix mask rs ≡ none
    → let (done, rs') = fill_route prefix mask gw i rs in
      ((done ≡ true) × (entry prefix mask rs' ≡ some (gw, i))) ⊎ ((done ≡ false) × Full rs)
unfolding fill_route entry Full
fill_route_lem prefix mask gw i [] h = inr (refl, tt)
fill_route_lem prefix mask gw i (r ∷ rs) h = ground (arith, fill_route_lem prefix mask gw i rs)

fill_route-others :
    (prefix mask gw : ℕ) (i : ℤ) (p m : ℕ) (rs : List NetRoute)
    → (p == prefix) && (m == mask) ≡ false
    → entry p m (fill_route prefix mask gw i rs).1 ≡ entry p m rs
unfolding fill_route entry
fill_route-others prefix mask gw i p m [] h = refl
fill_route-others prefix mask gw i p m (r ∷ rs) h =
    ground (arith, fill_route-others prefix mask gw i p m rs h)

fill_route-unchanged :
    (prefix mask gw : ℕ) (i : ℤ) (rs : List NetRoute)
    → (fill_route prefix mask gw i rs).0 ≡ false
    → (fill_route prefix mask gw i rs).1 ≡ rs
unfolding fill_route
fill_route-unchanged prefix mask gw i [] h = refl
fill_route-unchanged prefix mask gw i (r ∷ rs) h =
    ground (arith, fill_route-unchanged prefix mask gw i rs)

-- route_add makes the key (prefix, mask) lead to the new gateway and interface, whether the key was
-- present or not, or it returns false, and then the table is unchanged, has no route for the key
-- and has no unused slot.
pub route_add_lem :
    (prefix mask gw : ℕ) (i : ℤ) (rs : List NetRoute)
    → let (done, rs') = route_add prefix mask gw i rs in
      ((done ≡ true) × (entry prefix mask rs' ≡ some (gw, i)))
      ⊎ ((done ≡ false) × (rs' ≡ rs) × (entry prefix mask rs ≡ none) × Full rs)
unfolding route_add
route_add_lem prefix mask gw i rs = elim (replace_route_lem prefix mask gw i rs) [
  | inl h ↦ ground (arith, h)
  | inr h ↦ elim (fill_route_lem prefix mask gw i rs h.1) [
    | inl k ↦ ground (arith, h, k)
    | inr k ↦ ground (arith, h, k, fill_route-unchanged prefix mask gw i rs k.0)
  ]
]

-- route_add leaves every other key of the table as it was.
pub route_add-others :
    (prefix mask gw : ℕ) (i : ℤ) (p m : ℕ) (rs : List NetRoute)
    → (p == prefix) && (m == mask) ≡ false
    → entry p m (route_add prefix mask gw i rs).1 ≡ entry p m rs
unfolding route_add
route_add-others prefix mask gw i p m rs h = ground (
  arith,
  replace_route-others prefix mask gw i p m rs h,
  fill_route-others prefix mask gw i p m rs h,
)

replace_route-Distinct :
    (prefix mask gw : ℕ) (i : ℤ) (rs : List NetRoute)
    → Distinct rs
    → Distinct (replace_route prefix mask gw i rs).1
unfolding replace_route Distinct
replace_route-Distinct prefix mask gw i [] d = tt
replace_route-Distinct prefix mask gw i (r ∷ rs) d = elim (Bool-cases (same_key prefix mask r)) [
  | inl e ↦ rw e d
  | inr e ↦ rw e (
    λ u. replace_route-others prefix mask gw i r.prefix_be r.mask_be rs (ground arith) ∙ d.0 u,
    replace_route-Distinct prefix mask gw i rs d.1,
  )
]

fill_route-Distinct :
    (prefix mask gw : ℕ) (i : ℤ) (rs : List NetRoute)
    → entry prefix mask rs ≡ none
    → Distinct rs
    → Distinct (fill_route prefix mask gw i rs).1
unfolding fill_route Distinct entry
fill_route-Distinct prefix mask gw i [] h d = tt
fill_route-Distinct prefix mask gw i (r ∷ rs) h d = elim (Bool-cases (same_key prefix mask r)) [
  | inl e ↦ absurd (ground arith)
  | inr e ↦
      let tail : entry prefix mask rs ≡ none = ground arith in
      if_cases {A = Bool × List NetRoute} (λ x. Distinct x.1) (not r.used) _ _
        (λ u. (λ v. tail, d.1))
        (λ u. (
          λ v. fill_route-others prefix mask gw i r.prefix_be r.mask_be rs (ground arith) ∙ d.0 v,
          fill_route-Distinct prefix mask gw i rs tail d.1,
        ))
]

-- route_add never gives two used routes the same prefix and mask.
pub route_add-Distinct :
    (prefix mask gw : ℕ) (i : ℤ) (rs : List NetRoute)
    → Distinct rs
    → Distinct (route_add prefix mask gw i rs).1
unfolding route_add
route_add-Distinct prefix mask gw i rs d = elim (replace_route_lem prefix mask gw i rs) [
  | inl h ↦ rw (h.0) (replace_route-Distinct prefix mask gw i rs d)
  | inr h ↦ rw (h.0) (fill_route-Distinct prefix mask gw i rs h.1 d)
]

route_del-others :
    (prefix mask p m : ℕ) (rs : List NetRoute)
    → (p == prefix) && (m == mask) ≡ false
    → entry p m (route_del prefix mask rs).1 ≡ entry p m rs
unfolding route_del entry
route_del-others prefix mask p m [] h = refl
route_del-others prefix mask p m (r ∷ rs) h = ground (arith, route_del-others prefix mask p m rs h)

route_del_cases :
    (prefix mask : ℕ) (rs : List NetRoute)
    → Distinct rs
    → let (done, rs') = route_del prefix mask rs in
      ((done ≡ true) × (entry prefix mask rs ≢ none) × (entry prefix mask rs' ≡ none))
      ⊎ ((done ≡ false) × (entry prefix mask rs ≡ none) × (rs' ≡ rs))
unfolding route_del entry Distinct
route_del_cases prefix mask [] d = inr (refl, refl, refl)
route_del_cases prefix mask (r ∷ rs) d = elim (route_del_cases prefix mask rs d.1) [
  | inl h ↦ ground (arith, h, d.0)
  | inr h ↦ ground (arith, h, d.0)
]

-- On a table without duplicate keys, route_del returns true exactly when the key had a route, and
-- then it has none; else the table is unchanged. Every other key is as it was.
pub route_del_lem :
    (prefix mask : ℕ) (rs : List NetRoute)
    → Distinct rs
    → let (done, rs') = route_del prefix mask rs in
      (((done ≡ true) × (entry prefix mask rs ≢ none) × (entry prefix mask rs' ≡ none))
        ⊎ ((done ≡ false) × (entry prefix mask rs ≡ none) × (rs' ≡ rs)))
      × ((p m : ℕ) → (p == prefix) && (m == mask) ≡ false → entry p m rs' ≡ entry p m rs)
route_del_lem prefix mask rs d =
    (route_del_cases prefix mask rs d, λ p m h. route_del-others prefix mask p m rs h)
