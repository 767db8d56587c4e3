-- ===== src/BlockCache/Lines.antt =====
-- The lines of the cache as a map from sector numbers: searching it and replacing a line.
use furi_os.Prelude.{
  ℕ, zero, suc, ◌+◌, ◌≤◌, ◌<◌, ◌≡◌, ◌≢◌, refl, sym, ap, ◌∙◌, ◌⊎◌, inl, inr, true, false, ◌&&◌,
  Option, none, some, List, [], ◌∷◌, arith, ltb, ◌==◌, if◌then◌else◌, get_or, set, length,
  replicate, Bool-cases, ==_self,
}
use furi_os.BlockCache.{Line, zero_line, find_line, victim_loop, cache_select_victim}

-- what the lines hold for sector `a`
unfoldable pub cached : List Line → ℕ → Option (List ℕ)
cached [] a = none
cached (l ∷ ls) a = if l.valid && l.lba == a then some l.bytes else cached ls a

-- No sector has two lines.
unfoldable pub Distinct : List Line → Type 0
Distinct [] = Unit {0}
Distinct (l ∷ ls) = (l.valid ≡ true → cached ls l.lba ≡ none) × Distinct ls

-- The new line is for a sector that no line holds, or for the sector of the line that it replaces.
abbrev pub Fits : List Line → Line → Line → Type 0
Fits ls l l' = (l'.valid ≡ true → cached ls l'.lba ≡ none) ⊎ ((l.valid ≡ true) × (l.lba ≡ l'.lba))

cached_at :
    (ls : List Line) (i : ℕ)
    → i < length ls
    → (get_or ls i zero_line).valid ≡ true
    → cached ls (get_or ls i zero_line).lba ≢ none
unfolding cached
cached_at [] i h v e = absurd (omega arith)
cached_at (l ∷ ls) zero h v e = ground (arith, ==_self l.lba)
cached_at (l ∷ ls) (suc i) h v e = ground (arith, cached_at ls i)

Fits-tail : (x l l' : Line) (xs : List Line) → Fits (x ∷ xs) l l' → Fits xs l l'
unfolding cached
Fits-tail x l l' xs (inl e) = inl (λ v. ground (arith, e v))
Fits-tail x l l' xs (inr e) = inr e

-- A line before the one replaced is not for the new line's sector, nor for the old line's.
apart :
    (x l' : Line) (xs : List Line) (i : ℕ)
    → Distinct (x ∷ xs)
    → i < length xs
    → Fits (x ∷ xs) (get_or xs i zero_line) l'
    → x.valid ≡ true
    → (l'.valid ≡ true → x.lba ≢ l'.lba)
      × ((get_or xs i zero_line).valid ≡ true → x.lba ≢ (get_or xs i zero_line).lba)
unfolding cached Distinct
apart x l' xs i u h f v =
    let old : (get_or xs i zero_line).valid ≡ true → x.lba ≢ (get_or xs i zero_line).lba =
      λ w e. cached_at xs i h w (ap (cached xs) (sym e) ∙ u.0 v) in
    (new old f, old)
  where
    new :
        ((get_or xs i zero_line).valid ≡ true → x.lba ≢ (get_or xs i zero_line).lba)
        → Fits (x ∷ xs) (get_or xs i zero_line) l'
        → l'.valid ≡ true
        → x.lba ≢ l'.lba
    new old (inl miss) w e = ground (arith, miss w)
    new old (inr (w', same)) w e = old w' (e ∙ sym same)

-- Replacing line `i`, whose sector is given up unless it is the new line's too.
pub cached-set :
    (ls : List Line) (i : ℕ) (l' : Line) (a : ℕ)
    → Distinct ls
    → i < length ls
    → Fits ls (get_or ls i zero_line) l'
    → let l = get_or ls i zero_line in
      cached (set ls i l') a ≡ (
        if l'.valid && l'.lba == a
        then some l'.bytes
        else if l.valid && l.lba == a
        then none
        else cached ls a)
unfolding cached Distinct
cached-set [] i l' a u h f = absurd (omega arith)
cached-set (x ∷ xs) zero l' a u h f = ground (arith, u.0)
cached-set (x ∷ xs) (suc i) l' a u h f =
    let h' : i < length xs = omega arith in
    let ih = cached-set xs i l' a u.1 (omega arith) (Fits-tail x (get_or xs i zero_line) l' xs f) in
    elim (Bool-cases (x.valid && x.lba == a)) [
      | inr miss ↦ rw miss ih
      | inl hit ↦ rw hit (ground (arith, apart x l' xs i u h' f (ground arith)))
    ]

pub set-Distinct :
    (ls : List Line) (i : ℕ) (l' : Line)
    → Distinct ls
    → i < length ls
    → Fits ls (get_or ls i zero_line) l'
    → Distinct (set ls i l')
unfolding cached Distinct
set-Distinct [] i l' u h f = tt
set-Distinct (x ∷ xs) zero l' u h f = (head f, u.1)
  where
    head : Fits (x ∷ xs) x l' → l'.valid ≡ true → cached xs l'.lba ≡ none
    head (inl miss) w = ground (arith, miss w)
    head (inr (w', same)) w = ap (cached xs) (sym same) ∙ u.0 w'
set-Distinct (x ∷ xs) (suc i) l' u h f =
    let h' : i < length xs = omega arith in
    let f' = Fits-tail x (get_or xs i zero_line) l' xs f in
    (
      λ v. ground (arith, apart x l' xs i u h' f v, u.0 v, cached-set xs i l' x.lba u.1 h' f'),
      set-Distinct xs i l' u.1 h' f',
    )

-- A hit is a valid line for the sector, and there is none exactly when no line holds it.
pub find_line_cases :
    (i : ℕ) (ls : List Line) (a : ℕ)
    → ((find_line i ls a ≡ none) × (cached ls a ≡ none))
      ⊎ ((k : ℕ) × (find_line i ls a ≡ some (i + k))
          × (k < length ls)
          × ((get_or ls k zero_line).valid ≡ true)
          × ((get_or ls k zero_line).lba ≡ a)
          × (cached ls a ≡ some (get_or ls k zero_line).bytes))
unfolding cached find_line
find_line_cases i [] a = inl (refl, refl)
find_line_cases i (l ∷ ls) a = elim (Bool-cases (l.valid && l.lba == a)) [
  | inl hit ↦ inr (0, ground arith, omega arith, ground arith, ground arith, rw hit)
  | inr miss ↦ elim (find_line_cases (i + 1) ls a) [
    | inl (e, f) ↦ inl (rw miss e, rw miss f)
    | inr (k, e, h, v, at, f) ↦ inr (suc k, ground arith, omega arith, v, at, rw miss f)
  ]
]

pub Distinct-index :
    (ls : List Line) (i j : ℕ)
    → Distinct ls
    → i < length ls
    → j < length ls
    → (get_or ls i zero_line).valid ≡ true
    → (get_or ls j zero_line).valid ≡ true
    → (get_or ls i zero_line).lba ≡ (get_or ls j zero_line).lba
    → i ≡ j
unfolding Distinct
Distinct-index [] i j u hi hj vi vj e = absurd (omega arith)
Distinct-index (l ∷ ls) zero zero u hi hj vi vj e = refl
Distinct-index (l ∷ ls) zero (suc j) u hi hj vi vj e =
    absurd (cached_at ls j (omega arith) vj (ap (cached ls) (sym e) ∙ u.0 vi))
Distinct-index (l ∷ ls) (suc i) zero u hi hj vi vj e =
    absurd (cached_at ls i (omega arith) vi (ap (cached ls) e ∙ u.0 vj))
Distinct-index (l ∷ ls) (suc i) (suc j) u hi hj vi vj e =
    ap suc (Distinct-index ls i j u.1 (omega arith) (omega arith) vi vj e)

-- every line is valid and was last used at time `t` or later
abbrev pub UsedSince : ℕ → List Line → Type 0
UsedSince t [] = Unit {0}
UsedSince t (l ∷ ls) = (l.valid ≡ true) × (t ≤ l.last_use) × UsedSince t ls

-- Line `k` is free, or every line is valid and none was used longer ago.
abbrev pub IsVictim : List Line → ℕ → Type 0
IsVictim ls k =
    ((get_or ls k zero_line).valid ≡ false) ⊎ UsedSince (get_or ls k zero_line).last_use ls

UsedSince-mono : (t u : ℕ) (ls : List Line) → t ≤ u → UsedSince u ls → UsedSince t ls
UsedSince-mono t u [] h a = tt
UsedSince-mono t u (l ∷ ls) h (v, b, a) = (v, omega arith, UsedSince-mono t u ls h a)

victim_loop_cases :
    (i b t : ℕ) (ls : List Line)
    → ((victim_loop i ls (some (b, t)) ≡ some b) × UsedSince t ls)
      ⊎ ((k : ℕ) × (victim_loop i ls (some (b, t)) ≡ some (i + k))
          × (k < length ls)
          × (((get_or ls k zero_line).valid ≡ false)
              ⊎ (((get_or ls k zero_line).last_use < t)
                  × UsedSince (get_or ls k zero_line).last_use ls)))
unfolding victim_loop
victim_loop_cases i b t [] = inl (refl, tt)
victim_loop_cases i b t (l ∷ ls) = elim (Bool-cases l.valid) [
  | inr free ↦ inr (0, ground arith, omega arith, inl free)
  | inl busy ↦ elim (Bool-cases (ltb l.last_use t)) [
    | inl older ↦ elim (victim_loop_cases (i + 1) i l.last_use ls) [
      | inl (e, a) ↦ inr (
        0,
        rw (busy, older) (e ∙ ground arith),
        omega arith,
        inr (ground arith, (busy, omega arith, a)),
      )
      | inr (k, e, h, inl free) ↦
          inr (suc k, rw (busy, older) (e ∙ ground arith), omega arith, inl free)
      | inr (k, e, h, inr (lt, a)) ↦ inr (
        suc k,
        rw (busy, older) (e ∙ ground arith),
        omega arith,
        inr (ground arith, (busy, omega arith, a)),
      )
    ]
    | inr newer ↦ elim (victim_loop_cases (i + 1) b t ls) [
      | inl (e, a) ↦ inl (rw (busy, newer) e, (busy, ground arith, a))
      | inr (k, e, h, inl free) ↦
          inr (suc k, rw (busy, newer) (e ∙ ground arith), omega arith, inl free)
      | inr (k, e, h, inr (lt, a)) ↦ inr (
        suc k,
        rw (busy, newer) (e ∙ ground arith),
        omega arith,
        inr (lt, (busy, ground arith, a)),
      )
    ]
  ]
]

-- A cache with lines has a victim: a free line, or else one that was used longest ago.
pub cache_select_victim-IsVictim :
    (ls : List Line)
    → 0 < length ls
    → (k : ℕ) × (cache_select_victim ls ≡ some k) × (k < length ls) × IsVictim ls k
unfolding cache_select_victim victim_loop
cache_select_victim-IsVictim [] h = absurd (omega arith)
cache_select_victim-IsVictim (l ∷ ls) h = elim (Bool-cases l.valid) [
  | inr free ↦ (0, ground arith, omega arith, inl free)
  | inl busy ↦ elim (victim_loop_cases 1 0 l.last_use ls) [
    | inl (e, a) ↦ (0, rw busy e, omega arith, inr (busy, omega arith, a))
    | inr (k, e, h', inl free) ↦ (suc k, rw busy (e ∙ ground arith), omega arith, inl free)
    | inr (k, e, h', inr (lt, a)) ↦
        (suc k, rw busy (e ∙ ground arith), omega arith, inr (busy, omega arith, a))
  ]
]

-- A valid line is found by its own sector.
pub cached-line :
    (ls : List Line) (i : ℕ)
    → Distinct ls
    → i < length ls
    → (get_or ls i zero_line).valid ≡ true
    → cached ls (get_or ls i zero_line).lba ≡ some (get_or ls i zero_line).bytes
unfolding cached Distinct
cached-line [] i u h v = absurd (omega arith)
cached-line (l ∷ ls) zero u h v = ground (arith, ==_self l.lba)
cached-line (l ∷ ls) (suc i) u h v = ground (arith, cached-line ls i u.1, u.0)

pub cached_empty : (n a : ℕ) → cached (replicate n zero_line) a ≡ none
unfolding cached
cached_empty zero a = refl
cached_empty (suc n) a = cached_empty n a

pub Distinct-empty : (n : ℕ) → Distinct (replicate n zero_line)
unfolding Distinct
Distinct-empty zero = tt
Distinct-empty (suc n) = (λ v. absurd (cc), Distinct-empty n)
