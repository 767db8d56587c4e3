-- ===== src/BlockCache/Transfer.antt =====
-- block_cache_read, block_cache_write and block_cache_flush as transfers of what a client sees.
use furi_os.Prelude.{
  add64, ℕ, zero, suc, ◌+◌, ◌-◌, ◌≤◌, ◌<◌, ◌≡◌, refl, sym, ap, ap₂, subst, ◌∙◌, Bool, true, false,
  ◌&&◌, Option, none, some, List, [], ◌∷◌, arith, ltb, leb, ◌==◌, if◌then◌else◌, get_or, set,
  overwrite, ◌≢◌,
}
use furi_os.BlockCache.{
  Drivers, Line, zero_line, Cache, block_cache_lines, cache_get_load, store_line, read_loop,
  write_loop,
}
use furi_os.BlockCache.Lines.{cached, Fits, cached-set, cached-line}
use furi_os.BlockCache.Laws.{Laws}
use furi_os.BlockCache.View
use furi_os.BlockCache.View.{shown}
use furi_os.BlockCache.Evict

module _ (d : Drivers) (kind : ℕ) (sector : d.State → ℕ → List ℕ) (laws : Laws d kind sector) where
  open d use {State}

  abbrev Inv : Cache State → Type 0
  Inv = View.Inv d kind sector

  abbrev Keeps : Cache State → Cache State → Type 0
  Keeps = View.Keeps d kind sector

  abbrev line : Cache State → ℕ → Line
  line = View.line d kind sector

  abbrev view : Cache State → ℕ → List ℕ
  view = View.view d kind sector

  -- `k` sectors from `a` on, as a client sees them
  abbrev pub views : Cache State → ℕ → ℕ → List (List ℕ)
  views c a zero = []
  views c a (suc k) = view c a ∷ views c (a + 1) k

  views-Keeps :
      (c t : Cache State) (a k : ℕ) → Keeps c t → a + k ≤ c.lba_count → views t a k ≡ views c a k
  views-Keeps c t a zero kept h = refl
  views-Keeps c t a (suc k) kept h =
      ap₂ ◌∷◌ (kept.same a (omega arith)) (views-Keeps c t (a + 1) k kept (omega arith))

  pub view-line :
      (c : Cache State) (j a : ℕ)
      → Inv c
      → j < block_cache_lines
      → (line c j).valid ≡ true
      → (line c j).lba ≡ a
      → view c a ≡ (line c j).bytes
  unfolding View.view
  view-line c j a v h w e =
      let found : cached c.lines a ≡ some (line c j).bytes =
        ap (cached c.lines) (sym e) ∙ cached-line c.lines j v.distinct (omega (arith, v.size)) w in
      rw found

  -- The bytes of a loaded line are what a client saw of its sector.
  Loaded-view :
      (c t : Cache State) (j a : ℕ)
      → a < c.lba_count
      → Evict.Loaded d kind sector laws c t j a
      → (line t j).bytes ≡ view c a
  Loaded-view c t j a h l =
      sym (view-line t j a l.keeps.inv l.inside l.valid l.for_sector) ∙ l.keeps.same a h

  -- What the read loop leaves: a copy of what a client sees and no change of it, or, where a sector
  -- cannot be loaded, a change of one sector at most.
  abbrev pub ReadResult :
      Cache State → List (List ℕ) → ℕ → ℕ → ℕ → Bool × List (List ℕ) × Cache State → Type 0
  ReadResult c out i a k r =
      (r.0 ≡ true → Keeps c r.2 × (r.1 ≡ overwrite out i (views c a k)))
      × (r.0 ≡ false → (b : ℕ) × View.Spares d kind sector c r.2 b)

  pub read_loop_lem :
      (k i : ℕ) (c : Cache State) (lba : ℕ) (out : List (List ℕ))
      → Inv c
      → lba + i + k ≤ c.lba_count
      → ReadResult c out i (lba + i) k (read_loop d k i c lba out)
  unfolding read_loop
  read_loop_lem zero i c lba out v h =
      (λ e. (View.Keeps-self d kind sector c v, refl), λ e. absurd (cc))
  read_loop_lem (suc k) i c lba out v h =
      let at : add64 lba i ≡ lba + i = omega (arith, v.bounded) in
      let (lost, loaded) =
        Evict.cache_get_load_lem d kind sector laws c (add64 lba i) v (omega arith) in
      step (cache_get_load d c (add64 lba i)) lost
        (λ j e.
          subst (λ a. Evict.Loaded d kind sector laws c (cache_get_load d c (add64 lba i)).1 j a) at
            (loaded j e))
        (λ t x v' e. read_loop_lem k (i + 1) t lba (set out i x) v' (omega (arith, e)))
    where
      next : lba + (i + 1) ≡ lba + i + 1
      next = omega arith

      step :
          (r : Option ℕ × Cache State)
          → (r.0 ≡ none → (b : ℕ) × View.Spares d kind sector c r.1 b)
          → ((j : ℕ) → r.0 ≡ some j → Evict.Loaded d kind sector laws c r.1 j (lba + i))
          → ((t : Cache State) (x : List ℕ)
              → Inv t
              → t.lba_count ≡ c.lba_count
              → ReadResult t
                  (set out i x)
                  (i + 1)
                  (lba + (i + 1))
                  k
                  (read_loop d k (i + 1) t lba (set out i x)))
          → let q : Bool × List (List ℕ) × Cache State = elim (r.0) [
            | none ↦ (false, out, r.1)
            | some j ↦
                read_loop d k (i + 1) r.1 lba (set out i (get_or (r.1).lines j zero_line).bytes)
          ] in
            ReadResult c out i (lba + i) (suc k) q
      step (none, t) lost loaded rest = (λ e. absurd (cc), λ e. lost refl)
      step (some j, t) lost loaded rest =
          let l = loaded j refl in
          let kept = l.keeps in
          let (good, bad) = rest t (line t j).bytes kept.inv kept.count in
          let x = Loaded-view c t j (lba + i) (omega arith) l in
          (
            λ e.
                let (kept', copied) = good e in
                (
                  View.Keeps-trans d kind sector c t _ kept kept',
                  copied
                      ∙ ap₂ (λ y ys. overwrite (set out i y) (i + 1) ys) x
                          (ap (λ a. views t a k) next
                            ∙ views-Keeps c t (lba + i + 1) k kept (omega arith)),
                ),
            λ e. let (b, sp) = bad e in (b, View.Spares-trans d kind sector c t _ b kept sp),
          )

  -- A state of the same device that shows a client `new` in the sectors from `lba` up to
  -- `lba + n`, and elsewhere what `c` shows.
  pub record Wrote (c t : Cache State) (lba n : ℕ) (new : ℕ → List ℕ) : Type 0 where
    pub inv : Inv t
    pub base : t.lba_base ≡ c.lba_base
    pub count : t.lba_count ≡ c.lba_count
    pub shows :
        (b : ℕ)
        → b < c.lba_count
        → view t b ≡ (if leb lba b && ltb b (lba + n) then new b else view c b)

  -- The same but for the sector `lost`.
  pub record Torn (c t : Cache State) (lba n : ℕ) (new : ℕ → List ℕ) (lost : ℕ) : Type 0 where
    pub base : t.lba_base ≡ c.lba_base
    pub count : t.lba_count ≡ c.lba_count
    pub shows :
        (b : ℕ)
        → b < c.lba_count
        → b ≢ lost
        → view t b ≡ (if leb lba b && ltb b (lba + n) then new b else view c b)

  store_line_lem :
      (c : Cache State) (j a : ℕ) (x : List ℕ)
      → Inv c
      → j < block_cache_lines
      → (line c j).valid ≡ true
      → (line c j).lba ≡ a
      → let t = store_line d c j x in
        Inv t
        × (t.lba_base ≡ c.lba_base)
        × (t.lba_count ≡ c.lba_count)
        × ((b : ℕ) → b < c.lba_count → view t b ≡ (if b == a then x else view c b))
  unfolding store_line View.view
  store_line_lem c j a x v h w e =
      let l' : Line = record (line c j) { bytes = x; dirty = true } in
      let fits : Fits c.lines (line c j) l' = View.same_sector d kind sector c j l' refl refl in
      let v' =
        View.replaced-Inv d kind sector c j l' c.dev v h fits (v.range j) (λ w' cl. absurd (cc))
          (λ i n wi. refl) in
      let kept =
        View.cache_touch-Keeps d kind sector (record c { lines = set c.lines j l' }) j v' h in
      (
        kept.inv,
        kept.base,
        kept.count,
        λ b lt.
            kept.same b lt
            ∙ ground (
              arith,
              cached-set c.lines j l' b v.distinct (omega (arith, v.size)) fits,
              cached-line c.lines j v.distinct (omega (arith, v.size)),
              e,
              w,
            ),
      )

  -- All `k` sectors are written where the loop succeeds, and otherwise a prefix of them, with one
  -- sector lost at most.
  abbrev pub Prefix : Cache State → ℕ → ℕ → ℕ → List (List ℕ) → Bool × Cache State → Type 0
  Prefix c lba i k src r =
      (r.0 ≡ true → Wrote c r.1 (lba + i) k (λ b. get_or src (b - lba) []))
      × (r.0 ≡ false
          → (m : ℕ) × (lost : ℕ) × (m < k)
            × Torn c r.1 (lba + i) m (λ b. get_or src (b - lba) []) lost)

  Keeps-Wrote : (c t : Cache State) (a : ℕ) (new : ℕ → List ℕ) → Keeps c t → Wrote c t a 0 new
  Keeps-Wrote c t a new k = record {
    inv = k.inv;
    base = k.base;
    count = k.count;
    shows = λ b lt. ground (arith, k.same b lt);
  }

  write_step :
      (c t u w : Cache State) (lba i m : ℕ) (src : List (List ℕ))
      → Keeps c t
      → Inv u
      → u.lba_base ≡ t.lba_base
      → u.lba_count ≡ t.lba_count
      → ((b : ℕ)
          → b < t.lba_count
          → view u b ≡ (if b == lba + i then get_or src i [] else view t b))
      → Wrote u w (lba + (i + 1)) m (λ b. get_or src (b - lba) [])
      → Wrote c w (lba + i) (suc m) (λ b. get_or src (b - lba) [])
  write_step c t u w lba i m src k v eb ec stored wr = record {
    inv = wr.inv;
    base = wr.base ∙ eb ∙ k.base;
    count = wr.count ∙ ec ∙ k.count;
    shows = λ b lt.
        let offset : b ≡ lba + i → get_or src (b - lba) [] ≡ get_or src i [] =
          λ e. ap (λ n. get_or src n []) (omega arith) in
        ground (
          arith,
          wr.shows b (omega (arith, ec, k.count)),
          stored b (omega (arith, k.count)),
          k.same b lt,
          offset,
        );
  }

  pub Spares-Torn :
      (c t : Cache State) (a : ℕ) (new : ℕ → List ℕ) (lost : ℕ)
      → View.Spares d kind sector c t lost
      → Torn c t a 0 new lost
  Spares-Torn c t a new lost k = record {
    base = k.base;
    count = k.count;
    shows = λ b lt n. ground (arith, k.same b lt n);
  }

  Torn-step :
      (c t u w : Cache State) (lba i m : ℕ) (src : List (List ℕ)) (lost : ℕ)
      → Keeps c t
      → u.lba_base ≡ t.lba_base
      → u.lba_count ≡ t.lba_count
      → ((b : ℕ)
          → b < t.lba_count
          → view u b ≡ (if b == lba + i then get_or src i [] else view t b))
      → Torn u w (lba + (i + 1)) m (λ b. get_or src (b - lba) []) lost
      → Torn c w (lba + i) (suc m) (λ b. get_or src (b - lba) []) lost
  Torn-step c t u w lba i m src lost k eb ec stored wr = record {
    base = wr.base ∙ eb ∙ k.base;
    count = wr.count ∙ ec ∙ k.count;
    shows = λ b lt n.
        let offset : b ≡ lba + i → get_or src (b - lba) [] ≡ get_or src i [] =
          λ e. ap (λ n. get_or src n []) (omega arith) in
        ground (
          arith,
          wr.shows b (omega (arith, ec, k.count)) n,
          stored b (omega (arith, k.count)),
          k.same b lt,
          offset,
        );
  }

  pub write_loop_lem :
      (k i : ℕ) (c : Cache State) (lba : ℕ) (src : List (List ℕ))
      → Inv c
      → lba + i + k ≤ c.lba_count
      → Prefix c lba i k src (write_loop d k i c lba src)
  unfolding write_loop
  write_loop_lem zero i c lba src v h =
      (λ e. Keeps-Wrote c c (lba + i) _ (View.Keeps-self d kind sector c v), λ e. absurd (cc))
  write_loop_lem (suc k) i c lba src v h =
      let at : add64 lba i ≡ lba + i = omega (arith, v.bounded) in
      let (lost, loaded) =
        Evict.cache_get_load_lem d kind sector laws c (add64 lba i) v (omega arith) in
      step (cache_get_load d c (add64 lba i)) lost
        (λ j e.
          subst (λ a. Evict.Loaded d kind sector laws c (cache_get_load d c (add64 lba i)).1 j a) at
            (loaded j e))
        (λ t v' e. write_loop_lem k (i + 1) t lba src v' (omega (arith, e)))
    where
      step :
          (r : Option ℕ × Cache State)
          → (r.0 ≡ none → (b : ℕ) × View.Spares d kind sector c r.1 b)
          → ((j : ℕ) → r.0 ≡ some j → Evict.Loaded d kind sector laws c r.1 j (lba + i))
          → ((t : Cache State)
              → Inv t
              → t.lba_count ≡ c.lba_count
              → Prefix t lba (i + 1) k src (write_loop d k (i + 1) t lba src))
          → let q : Bool × Cache State = elim (r.0) [
            | none ↦ (false, r.1)
            | some j ↦ write_loop d k (i + 1) (store_line d r.1 j (get_or src i [])) lba src
          ] in
            Prefix c lba i (suc k) src q
      step (none, t) lost loaded rest = (
        λ e. absurd (cc),
        λ e. let (b, sp) = lost refl in (0, b, omega arith, Spares-Torn c t (lba + i) _ b sp),
      )
      step (some j, t) lost loaded rest =
          let l = loaded j refl in
          let kept = l.keeps in
          let (v', eb, ec, stored) =
            store_line_lem t j (lba + i) (get_or src i []) kept.inv l.inside l.valid l.for_sector in
          let u = store_line d t j (get_or src i []) in
          let (good, bad) = rest u v' (ec ∙ kept.count) in
          (
            λ e. write_step c t u _ lba i k src kept v' eb ec stored (good e),
            λ e.
                let (m, b, lt, wr) = bad e in
                (suc m, b, omega arith, Torn-step c t u _ lba i m src b kept eb ec stored wr),
          )
