-- ===== src/Malloc/Bytes.antt =====
-- The bytes of the regions handed out when a region is put in between them.
use furi_os.Prelude.{
  ℕ, ◌+◌, ◌≤◌, ◌<◌, ◌≡◌, refl, ap, sym, ◌∙◌, subst, true, false, ◌&&◌, List, [], ◌∷◌, ◌++◌, ltb,
  leb, ==_self, arith,
}
use furi_os.Malloc.Regions.{Region}
use furi_os.Malloc.Memory.{holds, starts, holds-append, starts-append}
use furi_os.Malloc.Alloc.{Apart, Inserted}

pub at-starts :
    (ptr m : ℕ) (rs : List Region)
    → ((l : List Region) × (r : List Region) × (rs ≡ l ++ ((ptr, m) ∷ r)))
    → starts rs ptr ≡ true
unfolding starts
at-starts ptr m rs (l, r, e) =
    ap (λ x. starts x ptr) e ∙ ground (arith, starts-append l ((ptr, m) ∷ r) ptr, ==_self ptr)

pub at-holds :
    (ptr m i : ℕ) (rs : List Region)
    → ((l : List Region) × (r : List Region) × (rs ≡ l ++ ((ptr, m) ∷ r)))
    → i < m
    → holds rs (ptr + i) ≡ true
unfolding holds
at-holds ptr m i rs (l, r, e) h =
    ap (λ x. holds x (ptr + i)) e ∙ ground (arith, holds-append l ((ptr, m) ∷ r) (ptr + i))

Apart-above : (rs : List Region) (lo hi a : ℕ) → Apart lo rs hi → a < lo → holds rs a ≡ false
unfolding Apart holds
Apart-above [] lo hi a p h = refl
Apart-above (r ∷ rs) lo hi a p h =
    ground (arith, p.0, Apart-above rs (r.0 + r.1) hi a p.1 (omega (arith, p.0)))

-- a region stands behind the ones before it
Apart-from : (l r : List Region) (q n lo hi : ℕ) → Apart lo (l ++ ((q, n) ∷ r)) hi → lo ≤ q
unfolding Apart
Apart-from [] r q n lo hi p = p.0
Apart-from (x ∷ l) r q n lo hi p =
    let later = Apart-from l r q n (x.0 + x.1) hi p.1 in omega (arith, p.0, later)

-- A new region that is apart from the others meets none of them.
split_holds :
    (l r : List Region) (q n lo hi a : ℕ)
    → Apart lo (l ++ ((q, n) ∷ r)) hi
    → holds (l ++ r) a ≡ true
    → leb q a && ltb a (q + n) ≡ false
unfolding Apart holds
split_holds [] r q n lo hi a p h = ground (arith, p.1, Apart-above r (q + n) hi a p.1)
split_holds (x ∷ l) r q n lo hi a p h =
    ground
      (arith, p.0, Apart-from l r q n (x.0 + x.1) hi p.1, split_holds l r q n (x.0 + x.1) hi a p.1)

-- The bytes of the regions there are where a new one is put in are bytes of the old regions.
pub Inserted-holds :
    (old new : List Region) (q size a : ℕ)
    → Inserted old q size new
    → holds old a ≡ true
    → holds new a ≡ true
unfolding Inserted holds
Inserted-holds old new q size a (l, r, n, e, f, fits) h =
    let at_old : holds (l ++ r) a ≡ true = ap (λ x. holds x a) (sym e) ∙ h in
    ap (λ x. holds x a) f
    ∙ ground (arith, holds-append l r a, at_old, holds-append l ((q, n) ∷ r) a)

pub Inserted-starts :
    (old new : List Region) (q size p : ℕ)
    → Inserted old q size new
    → starts old p ≡ true
    → starts new p ≡ true
unfolding Inserted starts
Inserted-starts old new q size p (l, r, n, e, f, fits) h =
    let at_old : starts (l ++ r) p ≡ true = ap (λ x. starts x p) (sym e) ∙ h in
    ap (λ x. starts x p) f
    ∙ ground (arith, starts-append l r p, at_old, starts-append l ((q, n) ∷ r) p)

pub Inserted-new :
    (old new : List Region) (q size i : ℕ)
    → Inserted old q size new
    → i < size
    → holds new (q + i) ≡ true
unfolding Inserted holds
Inserted-new old new q size i (l, r, n, e, f, fits) h =
    ap (λ x. holds x (q + i)) f ∙ ground (arith, holds-append l ((q, n) ∷ r) (q + i))

pub Inserted-Apart :
    (old new : List Region) (q size m hi a : ℕ)
    → Inserted old q size new
    → Apart 0 new hi
    → m ≤ size
    → holds old a ≡ true
    → leb q a && ltb a (q + m) ≡ false
unfolding Inserted
Inserted-Apart old new q size m hi a (l, r, n, e, f, fits) p less h =
    let out =
      split_holds l r q n 0 hi a (subst (λ x. Apart 0 x hi) f p)
        (ap (λ x. holds x a) (sym e) ∙ h) in
    ground (arith, out)
