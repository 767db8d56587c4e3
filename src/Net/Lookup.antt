-- ===== src/Net/Lookup.antt =====
-- The lookup of kernel/net.c: the longest prefix among the usable routes.
use furi_os.Prelude.{
  ℕ, zero, suc, ◌+◌, ◌-◌, ◌≤◌, ◌<◌, ◌^◌, ◌%◌, ◌*◌, ◌≡◌, refl, sym, ap, subst, ◌∙◌, ◌⊎◌, inl, inr,
  ◌≢◌, Bool, true, false, false≢true, not, Option, none, some, List, [], ◌∷◌, ltb, ◌==◌,
  if◌then◌else◌, arith, Bool-cases, bit_and,
}
use furi_os.Prelude.Bits.{pow2, shifted, clear_low}
use furi_os.Net.{
  Net, NetRoute, usable, better, best_route, mask_prefix_len, prefix_loop, route_lookup,
  route_result, zero_result, ip_is_any_local, in_loopback,
}

top_bit : (x : ℕ) → x < 2 ^ 32 → (bit_and x 0x80000000 == 0) ≡ ltb x (2 ^ 31)
top_bit x h =
    let mask : bit_and x 0x80000000 ≡ bit_and x (shifted 31 1) = refl in
    ground (arith, mask, clear_low 31 1 x h)

-- Every round doubles the distance of the mask to 2 ^ 32.
prefix_loop-enough :
    (fuel more n x : ℕ)
    → n + fuel ≡ 33
    → x < 2 ^ 32
    → pow2 n ≤ 2 ^ 32 - x
    → prefix_loop (fuel + more) n x ≡ prefix_loop fuel n x
unfolding prefix_loop
prefix_loop-enough zero more n x e h d =
    let last : n ≡ 33 = omega arith in
    let far : pow2 33 ≤ 2 ^ 32 - x = subst (λ k. pow2 k ≤ 2 ^ 32 - x) last d in
    absurd (omega (arith, far))
prefix_loop-enough (suc fuel) more n x e h d =
    let next : suc fuel + more ≡ suc (fuel + more) = omega arith in
    let one : n + 1 ≡ suc n = omega arith in
    rw next (elim (Bool-cases (bit_and x 0x80000000 == 0)) [
      | inl t ↦ rw t refl
      | inr t ↦
          let high : 2 ^ 31 ≤ x = ground (arith, top_bit x h) in
          let twice : pow2 (n + 1) ≡ pow2 n * 2 = ap pow2 one in
          rw t (
            prefix_loop-enough fuel more (n + 1) (x * 2 % 2 ^ 32) (omega arith) (omega arith)
              (omega (arith, twice)))
    ])

-- mask_prefix_len ends on every 32-bit mask: more fuel than the model gives changes nothing.
pub mask_prefix_len-enough :
    (more mask : ℕ) → mask < 2 ^ 32 → prefix_loop (33 + more) 0 mask ≡ mask_prefix_len mask
unfolding mask_prefix_len
mask_prefix_len-enough more mask h = prefix_loop-enough 33 more 0 mask refl h (omega arith)

unfoldable pub Member : NetRoute → List NetRoute → Type 0
Member b [] = ⊥
Member b (r ∷ rs) = (r ≡ b) ⊎ Member b rs

-- no usable route of `rs` has a longer prefix than `n` bits
unfoldable pub AtMost : Net → ℕ → ℕ → List NetRoute → Type 0
AtMost net dst n [] = Unit
AtMost net dst n (r ∷ rs) =
    (usable net dst r ≡ true → mask_prefix_len r.mask_be ≤ n) × AtMost net dst n rs

unfoldable pub Unusable : Net → ℕ → List NetRoute → Type 0
Unusable net dst [] = Unit
Unusable net dst (r ∷ rs) = (usable net dst r ≡ false) × Unusable net dst rs

-- `b` with its prefix `n` is the best route before the loop
Start : Option (NetRoute × ℕ) → NetRoute → ℕ → Type 0
Start none b n = ⊥
Start (some (s, k)) b n = (s ≡ b) × (k ≡ n)

Beaten : Option (NetRoute × ℕ) → ℕ → Type 0
Beaten none n = Unit
Beaten (some (s, k)) n = k ≤ n

Picked : Net → ℕ → Option (NetRoute × ℕ) → List NetRoute → NetRoute → ℕ → Type 0
Picked net dst best rs b n =
    (best_route net dst best rs ≡ some (b, n))
    × (Start best b n ⊎ (Member b rs × (usable net dst b ≡ true) × (n ≡ mask_prefix_len b.mask_be)))
    × AtMost net dst n rs
    × Beaten best n

Outcome : Net → ℕ → Option (NetRoute × ℕ) → List NetRoute → Type 0
Outcome net dst best rs =
    ((best_route net dst best rs ≡ none) × Unusable net dst rs × (best ≡ none))
    ⊎ ((b : NetRoute) × (n : ℕ) × Picked net dst best rs b n)

chosen : Option (NetRoute × ℕ) → Bool
chosen none = false
chosen (some x) = true

some_route : {x : NetRoute × ℕ} → some x ≢ none
unfolding chosen
some_route e = false≢true (sym (ap chosen e))

-- A usable route that becomes the best one.
take_route :
    (net : Net) (dst : ℕ) (best : Option (NetRoute × ℕ)) (r : NetRoute) (rs : List NetRoute)
    → usable net dst r ≡ true
    → better r best ≡ some (r, mask_prefix_len r.mask_be)
    → Beaten best (mask_prefix_len r.mask_be)
    → Outcome net dst (some (r, mask_prefix_len r.mask_be)) rs
    → Outcome net dst best (r ∷ rs)
unfolding Outcome Picked best_route Start Member AtMost Unusable Beaten
take_route net dst best r rs u e k (inl (q, w, z)) = absurd (some_route z)
take_route net dst best r rs u e k (inr (b, n, (q, from, most, above))) =
    inr (b, n, (rw u (rw e q), source from, ((λ v. above), most), beaten best k))
  where
    source :
        Start (some (r, mask_prefix_len r.mask_be)) b n
          ⊎ (Member b rs × (usable net dst b ≡ true) × (n ≡ mask_prefix_len b.mask_be))
        → Start best b n
          ⊎ (Member b (r ∷ rs) × (usable net dst b ≡ true) × (n ≡ mask_prefix_len b.mask_be))
    source (inl (same, len)) = inr (
      inl same,
      subst (λ x. usable net dst x ≡ true) same u,
      sym len ∙ ap (λ x. mask_prefix_len x.mask_be) same,
    )
    source (inr (m, v, len)) = inr (inr m, v, len)

    beaten :
        (best : Option (NetRoute × ℕ)) → Beaten best (mask_prefix_len r.mask_be) → Beaten best n
    beaten none h = tt
    beaten (some (s, j)) h = omega (arith, above, h)

-- A route that leaves the best one in place.
skip_route :
    (net : Net) (dst : ℕ) (best : Option (NetRoute × ℕ)) (r : NetRoute) (rs : List NetRoute)
    → (if usable net dst r then better r best else best) ≡ best
    → (best ≡ none → usable net dst r ≡ false)
    → ((n : ℕ) → Beaten best n → usable net dst r ≡ true → mask_prefix_len r.mask_be ≤ n)
    → Outcome net dst best rs
    → Outcome net dst best (r ∷ rs)
unfolding Outcome Picked best_route Member AtMost Unusable
skip_route net dst best r rs e f g (inl (q, w, z)) = inl (rw e q, (f z, w), z)
skip_route net dst best r rs e f g (inr (b, n, (q, inl s, most, above))) =
    inr (b, n, (rw e q, inl s, (g n above, most), above))
skip_route net dst best r rs e f g (inr (b, n, (q, inr (m, v, len), most, above))) =
    inr (b, n, (rw e q, inr (inr m, v, len), (g n above, most), above))

best_route_lem :
    (net : Net) (dst : ℕ) (best : Option (NetRoute × ℕ)) (rs : List NetRoute)
    → Outcome net dst best rs
unfolding Outcome Picked best_route Start Member AtMost Unusable Beaten
best_route_lem net dst none [] = inl (refl, tt, refl)
best_route_lem net dst (some (s, k)) [] = inr (s, k, (refl, inl (refl, refl), tt, omega arith))
best_route_lem net dst none (r ∷ rs) = elim (Bool-cases (usable net dst r)) [
  | inl u ↦
      take_route net dst none r rs u refl tt
        (best_route_lem net dst (some (r, mask_prefix_len r.mask_be)) rs)
  | inr u ↦
      skip_route net dst none r rs (rw u refl) (λ z. u) (λ n h v. absurd (false≢true (sym u ∙ v)))
        (best_route_lem net dst none rs)
]
best_route_lem net dst (some (s, k)) (r ∷ rs) = elim (Bool-cases (usable net dst r)) [
  | inl u ↦ elim (Bool-cases (ltb k (mask_prefix_len r.mask_be))) [
    | inl t ↦
        take_route net dst (some (s, k)) r rs u (rw t refl) (ground arith)
          (best_route_lem net dst (some (r, mask_prefix_len r.mask_be)) rs)
    | inr t ↦
        skip_route net dst (some (s, k)) r rs (rw u (rw t refl)) (λ z. absurd (some_route z))
          (λ n h v. ground arith) (best_route_lem net dst (some (s, k)) rs)
  ]
  | inr u ↦
      skip_route net dst (some (s, k)) r rs (rw u refl) (λ z. u)
        (λ n h v. absurd (false≢true (sym u ∙ v))) (best_route_lem net dst (some (s, k)) rs)
]

routed-result :
    (net : Net) (dst : ℕ)
    → ip_is_any_local net dst ≡ false
    → route_lookup net dst ≡ route_result net dst (best_route net dst none net.routes)
unfolding route_lookup ip_is_any_local
routed-result net dst l = let o : in_loopback dst ≡ false = ground (arith, l) in rw l (rw o refl)

-- For an address that is not local, route_lookup fails exactly as its result says when no route is
-- usable; else it answers from a usable route of the table that no usable route beats in prefix
-- length, by its gateway or, without one, directly.
pub route_lookup_lem :
    (net : Net) (dst : ℕ)
    → ip_is_any_local net dst ≡ false
    → let res = route_lookup net dst in
      ((res ≡ zero_result) × Unusable net dst net.routes)
      ⊎ ((b : NetRoute) × Member b net.routes
          × (usable net dst b ≡ true)
          × AtMost net dst (mask_prefix_len b.mask_be) net.routes
          × (res.ok ≡ true)
          × (res.if_index ≡ b.if_index)
          × (res.next_hop_be ≡ (if not (b.gw_be == 0) then b.gw_be else dst)))
unfolding route_result Outcome Picked Start
route_lookup_lem net dst l =
    let routed = routed-result net dst l in
    elim (best_route_lem net dst none net.routes) [
      | inl h ↦ inl (routed ∙ ap (route_result net dst) h.0, h.1)
      | inr h ↦ inr (from_route h.0 h.1 routed h.2)
    ]
  where
    from_route :
        (b : NetRoute) (n : ℕ)
        → route_lookup net dst ≡ route_result net dst (best_route net dst none net.routes)
        → Picked net dst none net.routes b n
        → (b : NetRoute) × Member b net.routes
          × (usable net dst b ≡ true)
          × AtMost net dst (mask_prefix_len b.mask_be) net.routes
          × ((route_lookup net dst).ok ≡ true)
          × ((route_lookup net dst).if_index ≡ b.if_index)
          × ((route_lookup net dst).next_hop_be ≡ (if not (b.gw_be == 0) then b.gw_be else dst))
    from_route b n routed (q, inl s, most, above) = elim s [ ]
    from_route b n routed (q, inr (m, v, len), most, above) =
        let e = routed ∙ ap (route_result net dst) q in
        (
          b,
          m,
          v,
          subst (λ k. AtMost net dst k net.routes) len most,
          ap (λ x. x.ok) e,
          ap (λ x. x.if_index) e,
          ap (λ x. x.next_hop_be) e,
        )
