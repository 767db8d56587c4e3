-- ===== src/Net/Arp.antt =====
-- The ARP table of kernel/net.c: arp_age, arp_flush, arp_lookup and arp_update. A time is a count of
-- timer ticks; `timer_ticks()` is an argument.
use furi_os.Prelude.{
  ℕ, zero, suc, ◌+◌, ◌-◌, ◌≤◌, ◌<◌, ◌^◌, ◌≡◌, refl, ap, ◌⊎◌, inl, inr, Bool, true, false, not, ◌&&◌,
  Option, none, some, List, [], ◌∷◌, ltb, leb, ◌==◌, if◌then◌else◌, arith, get_or, set, length,
  replicate, ℤ, pos, int_eq, int_eq_self, ==_self, sub64, Bool-cases, Option-cases, take, sym,
  subst, ◌∙◌,
}
use furi_os.Net.{net_arp_max}

-- NET_ARP_TTL_TICKS
abbrev pub net_arp_ttl_ticks : ℕ
net_arp_ttl_ticks = 6000

pub record ArpEntry : Type 0 where
  pub valid : Bool
  pub ip_be : ℕ
  pub if_index : ℤ
  pub mac : List ℕ
  pub updated_tick : ℕ

abbrev pub zero_entry : ArpEntry
zero_entry = record {
  valid = false;
  ip_be = 0;
  if_index = pos 0;
  mac = replicate 6 0;
  updated_tick = 0;
}

unfoldable pub arp_age : ℕ → List ArpEntry → List ArpEntry
arp_age now [] = []
arp_age now (e ∷ es) =
    let rest = arp_age now es in
    if not e.valid
    then e ∷ rest
    else (if leb net_arp_ttl_ticks (sub64 now e.updated_tick) then zero_entry else e) ∷ rest

unfoldable pub arp_flush : List ArpEntry
arp_flush = replicate net_arp_max zero_entry

abbrev pub matches : ℕ → ℤ → ArpEntry → Bool
matches ip i e = e.valid && e.ip_be == ip && int_eq e.if_index i

-- The index of the match and `mac_out`; `none` where the code returns -1.
unfoldable pub arp_lookup : ℕ → ℤ → ℕ → List ArpEntry → Option (ℕ × List ℕ)
arp_lookup ip i k [] = none
arp_lookup ip i k (e ∷ es) =
    let rest = arp_lookup ip i (k + 1) es in if matches ip i e then some (k, take 6 e.mac) else rest

-- The search for a slot to overwrite: the first invalid one ends it, else the oldest wins.
unfoldable pub oldest_loop : (k victim oldest : ℕ) → List ArpEntry → ℕ
oldest_loop k victim oldest [] = victim
oldest_loop k victim oldest (e ∷ es) =
    let found = oldest_loop (k + 1) k e.updated_tick es in
    let rest = oldest_loop (k + 1) victim oldest es in
    if not e.valid then k else if ltb e.updated_tick oldest then found else rest

unfoldable pub arp_slot : ℕ → ℤ → List ArpEntry → ℕ
arp_slot ip i es = elim (arp_lookup ip i 0 es) [
  | some (k, mac) ↦ k
  | none ↦ oldest_loop 0 0 (2 ^ 64 - 1) es
]

unfoldable pub arp_update : ℕ → ℕ → ℤ → Option (List ℕ) → List ArpEntry → List ArpEntry
arp_update now ip i none es = es
arp_update now ip i (some mac) es =
    set es (arp_slot ip i es)
      (record { valid = true; ip_be = ip; if_index = i; mac = take 6 mac; updated_tick = now })

arp_lookup-bound :
    (ip : ℕ) (i : ℤ) (k : ℕ) (es : List ArpEntry) (s : ℕ) (m : List ℕ)
    → arp_lookup ip i k es ≡ some (s, m)
    → (k ≤ s) × (s < k + length es)
unfolding arp_lookup
arp_lookup-bound ip i k [] s m h = absurd (ground arith)
arp_lookup-bound ip i k (e ∷ es) s m h = ground (arith, arp_lookup-bound ip i (k + 1) es s m)

oldest_loop-bound :
    (k v o : ℕ) (es : List ArpEntry)
    → (oldest_loop k v o es ≡ v)
      ⊎ ((k ≤ oldest_loop k v o es) × (oldest_loop k v o es < k + length es))
unfolding oldest_loop
oldest_loop-bound k v o [] = inl refl
oldest_loop-bound k v o (e ∷ es) =
    ground (arith, oldest_loop-bound (k + 1) k e.updated_tick es, oldest_loop-bound (k + 1) v o es)

-- Without a match the write at `s` is the only one; with one, `s` is where the first stands.
arp_lookup-set :
    (ip : ℕ) (i : ℤ) (k s : ℕ) (e : ArpEntry) (es : List ArpEntry)
    → s < length es
    → matches ip i e ≡ true
    → ((m : List ℕ) (j : ℕ) → arp_lookup ip i k es ≡ some (j, m) → j ≡ k + s)
    → arp_lookup ip i k (set es s e) ≡ some (k + s, take 6 e.mac)
unfolding arp_lookup
arp_lookup-set ip i k s e [] h t f = absurd (omega arith)
arp_lookup-set ip i k zero e (x ∷ es) h t f =
    let here : k + 0 ≡ k = omega arith in rw here (rw t refl)
arp_lookup-set ip i k (suc s) e (x ∷ es) h t f =
    let there : k + suc s ≡ k + 1 + s = omega arith in
    elim (Bool-cases (matches ip i x)) [
      | inl u ↦ absurd (omega (arith, f (take 6 x.mac) k (rw u refl)))
      | inr u ↦ rw u (
          arp_lookup-set ip i (k + 1) s e es (omega arith) t (λ m j q. f m j (rw u q) ∙ there)
          ∙ ap (λ n. some (n, take 6 e.mac)) (sym there))
    ]

slot_of-match :
    (ip : ℕ) (i : ℤ) (es : List ArpEntry) (j : ℕ) (m : List ℕ)
    → arp_lookup ip i 0 es ≡ some (j, m)
    → j ≡ arp_slot ip i es
unfolding arp_slot
slot_of-match ip i es j m q = ground (arith, q)

arp_slot-bound :
    (ip : ℕ) (i : ℤ) (es : List ArpEntry) → 0 < length es → arp_slot ip i es < length es
unfolding arp_slot
arp_slot-bound ip i es h = elim (Option-cases (arp_lookup ip i 0 es)) [
  | inl q ↦ ground (arith, q, oldest_loop-bound 0 0 (2 ^ 64 - 1) es)
  | inr found ↦ ground (arith, found.1, arp_lookup-bound ip i 0 es found.0.0 found.0.1 found.1)
]

-- arp_update with an address makes arp_lookup find that address for the same IP and interface,
-- whatever the table held.
pub arp_lookup-arp_update :
    (now ip : ℕ) (i : ℤ) (mac : List ℕ) (es : List ArpEntry)
    → 0 < length es
    → arp_lookup ip i 0 (arp_update now ip i (some mac) es)
      ≡ some (arp_slot ip i es, take 6 (take 6 mac))
unfolding arp_update
arp_lookup-arp_update now ip i mac es h =
    arp_lookup-set ip i 0 (arp_slot ip i es) _ es (arp_slot-bound ip i es h)
      (rw (==_self ip) (int_eq_self i)) (λ m j q. at_match j m q)
    ∙ ap (λ n. some (n, take 6 (take 6 mac))) zero_add
  where
    zero_add : 0 + arp_slot ip i es ≡ arp_slot ip i es
    zero_add = omega arith

    at_match : (j : ℕ) (m : List ℕ) → arp_lookup ip i 0 es ≡ some (j, m) → j ≡ 0 + arp_slot ip i es
    at_match j m q = slot_of-match ip i es j m q ∙ sym zero_add

-- An update for one key does not make another key found, and leaves what another slot answers.
arp_lookup-set_other :
    (ip : ℕ) (i : ℤ) (k s : ℕ) (e : ArpEntry) (es : List ArpEntry)
    → matches ip i e ≡ false
    → arp_lookup ip i k es ≡ none
    → arp_lookup ip i k (set es s e) ≡ none
unfolding arp_lookup
arp_lookup-set_other ip i k s e [] t h = refl
arp_lookup-set_other ip i k zero e (x ∷ es) t h = ground arith
arp_lookup-set_other ip i k (suc s) e (x ∷ es) t h =
    ground (arith, arp_lookup-set_other ip i (k + 1) s e es t)

unfoldable pub AllValid : List ArpEntry → Type 0
AllValid [] = Unit
AllValid (e ∷ es) = (e.valid ≡ true) × AllValid es

-- no entry was updated before the tick `o`
unfoldable pub NotOlder : ℕ → List ArpEntry → Type 0
NotOlder o [] = Unit
NotOlder o (e ∷ es) = (o ≤ e.updated_tick) × NotOlder o es

abbrev pub tick : List ArpEntry → ℕ → ℕ
tick es j = (get_or es j zero_entry).updated_tick

OldestAt : (k v o : ℕ) → List ArpEntry → ℕ → Type 0
OldestAt k v o es r =
    ((r ≡ v) × NotOlder o es) ⊎ ((k ≤ r) × NotOlder (tick es (r - k)) es × (tick es (r - k) < o))

-- What the rest of the loop finds, seen from the round before.
OldestAt-later :
    (k v o w p r : ℕ) (e : ArpEntry) (es : List ArpEntry)
    → p ≤ e.updated_tick
    → p ≤ o
    → (k + 1 ≤ r) × NotOlder (tick es (r - (k + 1))) es × (tick es (r - (k + 1)) < p)
    → OldestAt k v o (e ∷ es) r
unfolding OldestAt NotOlder
OldestAt-later k v o w p r e es le_e le_o (above, none_older, less) =
    let back : r - k ≡ suc (r - (k + 1)) = omega arith in
    let same : tick (e ∷ es) (r - k) ≡ tick es (r - (k + 1)) = ap (tick (e ∷ es)) back in
    inr (
      omega (arith, above),
      (omega (arith, same, less, le_e), subst (λ t. NotOlder t es) (sym same) none_older),
      omega (arith, same, less, le_o),
    )

oldest_loop-oldest :
    (k v o : ℕ) (es : List ArpEntry) → AllValid es → OldestAt k v o es (oldest_loop k v o es)
unfolding oldest_loop AllValid NotOlder OldestAt
oldest_loop-oldest k v o [] a = inl (refl, tt)
oldest_loop-oldest k v o (e ∷ es) a = elim (Bool-cases (ltb e.updated_tick o)) [
  | inl t ↦
      let younger : e.updated_tick < o = ground arith in
      let turn : oldest_loop (k + 1) k e.updated_tick es ≡ oldest_loop k v o (e ∷ es) =
        ground (arith, a.0) in
      subst (OldestAt k v o (e ∷ es)) turn
        (elim (oldest_loop-oldest (k + 1) k e.updated_tick es a.1) [
          | inl h ↦ subst (OldestAt k v o (e ∷ es)) (sym h.0) (
              let at : k - k ≡ 0 = omega arith in
              let same : tick (e ∷ es) (k - k) ≡ e.updated_tick = ap (tick (e ∷ es)) at in
              inr (
                omega arith,
                (omega (arith, same), subst (λ n. NotOlder n es) (sym same) h.1),
                omega (arith, same, younger),
              ))
          | inr h ↦
              OldestAt-later k v o k e.updated_tick _ e es (omega arith) (omega (arith, younger)) h
        ])
  | inr t ↦
      let older : o ≤ e.updated_tick = ground arith in
      let turn : oldest_loop (k + 1) v o es ≡ oldest_loop k v o (e ∷ es) = ground (arith, a.0) in
      subst (OldestAt k v o (e ∷ es)) turn (elim (oldest_loop-oldest (k + 1) v o es a.1) [
        | inl h ↦ inl (h.0, (older, h.1))
        | inr h ↦ OldestAt-later k v o k o _ e es older (omega arith) h
      ])
]

NotOlder-mono : (m n : ℕ) (es : List ArpEntry) → m ≤ n → NotOlder n es → NotOlder m es
unfolding NotOlder
NotOlder-mono m n [] h a = tt
NotOlder-mono m n (e ∷ es) h a = (omega (arith, a.0), NotOlder-mono m n es h a.1)

-- every tick is a 64-bit value
unfoldable pub Ticks64 : List ArpEntry → Type 0
Ticks64 [] = Unit
Ticks64 (e ∷ es) = (e.updated_tick < 2 ^ 64) × Ticks64 es

tick-Ticks64 : (es : List ArpEntry) (j : ℕ) → Ticks64 es → tick es j < 2 ^ 64
unfolding Ticks64
tick-Ticks64 [] j w = omega arith
tick-Ticks64 (e ∷ es) zero w = w.0
tick-Ticks64 (e ∷ es) (suc j) w = tick-Ticks64 es j w.1

-- When the table is full and the key is not in it, the slot that arp_update overwrites is one whose
-- entry was updated no later than any other.
pub arp_slot-NotOlder :
    (ip : ℕ) (i : ℤ) (es : List ArpEntry)
    → arp_lookup ip i 0 es ≡ none
    → AllValid es
    → Ticks64 es
    → NotOlder (tick es (arp_slot ip i es)) es
unfolding arp_slot OldestAt
arp_slot-NotOlder ip i es q a w =
    let r = oldest_loop 0 0 (2 ^ 64 - 1) es in
    let slot : r ≡ arp_slot ip i es = ground (arith, q) in
    subst (λ s. NotOlder (tick es s) es) slot
      (elim (oldest_loop-oldest 0 0 (2 ^ 64 - 1) es a) [
        | inl h ↦ NotOlder-mono (tick es r) (2 ^ 64 - 1) es (omega (arith, tick-Ticks64 es r w)) h.1
        | inr h ↦ let at : r - 0 ≡ r = omega arith in subst (λ s. NotOlder (tick es s) es) at h.1
      ])
