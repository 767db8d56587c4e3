-- ===== src/BlockCache/Evict.antt =====
-- Writing back, refilling and loading lines: a client sees the same sectors before and after, but
-- for the one that a failed transfer may spoil.
use furi_os.Prelude.{
  add64, ℕ, ◌+◌, ◌<◌, ◌≡◌, ◌≢◌, refl, sym, ap, subst, ◌∙◌, inl, inr, true, false, not, ◌||◌, Option,
  none, some, List, arith, ◌==◌, if◌then◌else◌, set, Bool-cases, get_or-set_self, get_or-set_ne,
  ==→eq, ==→ne,
}
use furi_os.BlockCache.{
  Drivers, Line, zero_line, Cache, block_cache_lines, cache_touch, next_clock, cache_find,
  cache_writeback_line, fill_line, load_line, cache_get_load, backend_rw, find_line,
}
use furi_os.BlockCache.Lines.{
  cached, Fits, cached-set, cached-line, find_line_cases, cache_select_victim-IsVictim,
}
use furi_os.BlockCache.Laws.{Laws}
use furi_os.BlockCache.View
use furi_os.BlockCache.View.{shown}

module _ (d : Drivers) (kind : ℕ) (sector : d.State → ℕ → List ℕ) (laws : Laws d kind sector) where
  open d use {State}

  abbrev Inv : Cache State → Type 0
  Inv = View.Inv d kind sector

  abbrev Keeps : Cache State → Cache State → Type 0
  Keeps = View.Keeps d kind sector

  abbrev line : Cache State → ℕ → Line
  line = View.line d kind sector

  abbrev view : Cache State → ℕ → List ℕ
  view = View.view d kind sector

  -- After the write-back of line `i` succeeds it is not dirty, and it is for the same sector.
  pub record Written (c t : Cache State) (i : ℕ) : Type 0 where
    pub keeps : Keeps c t
    pub not_dirty : (line t i).valid ≡ true → (line t i).dirty ≡ false
    pub held : (a : ℕ) → cached t.lines a ≡ cached c.lines a
    pub others : (j : ℕ) → j ≢ i → line t j ≡ line c j

  -- The device may change at the address of a sector that a line holds.
  dev_view :
      (c : Cache State) (i : ℕ) (s : State) (a : ℕ)
      → Inv c
      → i < block_cache_lines
      → (line c i).valid ≡ true
      → ((b : ℕ) → b ≢ add64 c.lba_base (line c i).lba → sector s b ≡ sector c.dev b)
      → a < c.lba_count
      → shown (cached c.lines a) (sector s (add64 c.lba_base a)) ≡ view c a
  unfolding View.view
  dev_view c i s a v h w others lt = elim (Bool-cases (a == (line c i).lba)) [
    | inl e ↦
        let found : cached c.lines a ≡ some (line c i).bytes =
          ap (cached c.lines) (==→eq a (line c i).lba e)
          ∙ cached-line c.lines i v.distinct (omega (arith, v.size)) w in
        rw found
    | inr n ↦ ap (shown (cached c.lines a)) (
        others (add64 c.lba_base a) (
          View.address d kind sector c a (line c i).lba v lt (v.range i w)
            (==→ne a (line c i).lba n)))
  ]

  dev_line :
      (c : Cache State) (i : ℕ) (s : State) (j : ℕ)
      → Inv c
      → (line c i).valid ≡ true
      → ((b : ℕ) → b ≢ add64 c.lba_base (line c i).lba → sector s b ≡ sector c.dev b)
      → j ≢ i
      → (line c j).valid ≡ true
      → sector s (add64 c.lba_base (line c j).lba) ≡ sector c.dev (add64 c.lba_base (line c j).lba)
  dev_line c i s j v wi others n wj = others (add64 c.lba_base (line c j).lba) (
      View.address d kind sector c (line c j).lba (line c i).lba v (v.range j wj) (v.range i wi)
        (View.lba_apart d kind sector c i j v wi wj n))

  -- A write-back that failed: the line is still dirty, and the device may be torn at its sector.
  torn-Keeps :
      (c : Cache State) (i : ℕ) (s : State)
      → Inv c
      → i < block_cache_lines
      → (line c i).valid ≡ true
      → (line c i).dirty ≡ true
      → ((b : ℕ) → b ≢ add64 c.lba_base (line c i).lba → sector s b ≡ sector c.dev b)
      → Keeps c (record c { dev = s })
  unfolding View.view
  torn-Keeps c i s v h w di others = record {
    inv = record {
      kind_is = v.kind_is;
      size = v.size;
      bounded = v.bounded;
      distinct = v.distinct;
      range = v.range;
      clean = λ j wj cl. elim (Bool-cases (j == i)) [
        | inl e ↦ absurd (ground (arith, ap (line c) (==→eq j i e)))
        | inr n ↦ v.clean j wj cl ∙ sym (dev_line c i s j v w others (==→ne j i n) wj)
      ];
    };
    base = refl;
    count = refl;
    flag = refl;
    same = λ a lt. dev_view c i s a v h w others lt;
  }

  Written-intro :
      (c : Cache State) (i : ℕ) (s : State)
      → Inv c
      → i < block_cache_lines
      → (line c i).valid ≡ true
      → ((b : ℕ)
          → sector s b
            ≡ (if b == add64 c.lba_base (line c i).lba then (line c i).bytes else sector c.dev b))
      → Written c
          (record c { dev = s; lines = set c.lines i (record (line c i) { dirty = false }) })
          i
  unfolding View.view
  Written-intro c i s v h w stored =
      let l' : Line = record (line c i) { dirty = false } in
      let others : (b : ℕ) → b ≢ add64 c.lba_base (line c i).lba → sector s b ≡ sector c.dev b =
        λ b n. ground (arith, stored b) in
      let held : (a : ℕ) → cached (set c.lines i l') a ≡ cached c.lines a =
        λ a. View.touched_view d kind sector c i l' a v h refl refl refl in
      record {
        keeps = record {
          inv =
              View.replaced-Inv d kind sector c i l' s v h
                (View.same_sector d kind sector c i l' refl refl) (v.range i)
                (λ w' cl. ground (arith, stored (add64 c.lba_base (line c i).lba)))
                (λ j n wj. dev_line c i s j v w others n wj);
          base = refl;
          count = refl;
          flag = refl;
          same = λ a lt.
              ap (λ o. shown o (sector s (add64 c.lba_base a))) (held a)
              ∙ dev_view c i s a v h w others lt;
        };
        not_dirty = λ w'.
            ap (λ l. l.dirty) (get_or-set_self c.lines i l' zero_line (omega (arith, v.size)));
        held = held;
        others = λ j n. get_or-set_ne c.lines i j l' zero_line (λ e. n (sym e));
      }

  -- Writing a line back shows a client nothing, whether it succeeds or not.
  pub cache_writeback_line_lem :
      (c : Cache State) (i : ℕ)
      → Inv c
      → i < block_cache_lines
      → Keeps c (cache_writeback_line d c i).1
        × ((cache_writeback_line d c i).0 ≡ true → Written c (cache_writeback_line d c i).1 i)
  unfolding cache_writeback_line
  cache_writeback_line_lem c i v h =
      let at : ℕ = add64 c.lba_base (line c i).lba in
      let at_kind : Laws d c.dev_kind sector = subst (λ k. Laws d k sector) (sym v.kind_is) laws in
      elim (Bool-cases (not (line c i).valid || not (line c i).dirty)) [
        | inl idle ↦ rw idle (
          View.Keeps-self d kind sector c v,
          λ e. record {
            keeps = View.Keeps-self d kind sector c v;
            not_dirty = λ w. ground arith;
            held = λ a. refl;
            others = λ j n. refl;
          },
        )
        | inr busy ↦
            let w : (line c i).valid ≡ true = ground arith in
            let di : (line c i).dirty ≡ true = ground arith in
            elim (Bool-cases (backend_rw d c.dev c.dev_kind at (line c i).bytes true).0) [
              | inl done ↦
                  let written =
                    Written-intro c i _ v h w
                      (λ b. at_kind.write_ok c.dev at (line c i).bytes b done) in
                  rw (busy, done) (written.keeps, λ e. written)
              | inr failed ↦
                  rw (busy, failed)
                    (
                      torn-Keeps c i _ v h w di
                          (λ b n. at_kind.write_fail c.dev at (line c i).bytes b failed n),
                      λ e. absurd (cc),
                    )
            ]
      ]

  -- A line that holds sector `a` for a client, in a state that shows what was shown before.
  pub record Loaded (c t : Cache State) (j a : ℕ) : Type 0 where
    pub keeps : Keeps c t
    pub inside : j < block_cache_lines
    pub valid : (line t j).valid ≡ true
    pub for_sector : (line t j).lba ≡ a

  refilled-Keeps :
      (c : Cache State) (i a : ℕ) (s : State) (x : List ℕ)
      → Inv c
      → i < block_cache_lines
      → a < c.lba_count
      → cached c.lines a ≡ none
      → ((line c i).valid ≡ true → (line c i).dirty ≡ false)
      → ((b : ℕ) → sector s b ≡ sector c.dev b)
      → x ≡ sector c.dev (add64 c.lba_base a)
      → Keeps c (record c {
        dev = s;
        lines =
            set c.lines i (record (line c i) { valid = true; dirty = false; lba = a; bytes = x });
      })
  unfolding View.view
  refilled-Keeps c i a s x v h lt miss nd same e =
      let l' : Line = record (line c i) { valid = true; dirty = false; lba = a; bytes = x } in
      let fits : Fits c.lines (line c i) l' = inl (λ w. miss) in
      record {
        inv =
            View.replaced-Inv d kind sector c i l' s v h fits (λ w. lt)
              (λ w cl. e ∙ sym (same (add64 c.lba_base a)))
              (λ j n wj. same (add64 c.lba_base (line c j).lba));
        base = refl;
        count = refl;
        flag = refl;
        same = λ b lt'. ground (
          arith,
          same (add64 c.lba_base b),
          cached-set c.lines i l' b v.distinct (omega (arith, v.size)) fits,
          cached-line c.lines i v.distinct (omega (arith, v.size)),
          v.clean i,
          nd,
          miss,
          e,
        );
      }

  -- A transfer that failed may have spoilt the buffer, and with it the sector of the line.
  spoilt-Spares :
      (c : Cache State) (i : ℕ) (s : State) (x : List ℕ)
      → Inv c
      → i < block_cache_lines
      → ((b : ℕ) → sector s b ≡ sector c.dev b)
      → View.Spares d kind sector c
          (record c { dev = s; lines = set c.lines i (record (line c i) { bytes = x }) })
          (line c i).lba
  unfolding View.view
  spoilt-Spares c i s x v h same =
      let l' : Line = record (line c i) { bytes = x } in
      let fits : Fits c.lines (line c i) l' = View.same_sector d kind sector c i l' refl refl in
      record {
        base = refl;
        count = refl;
        flag = refl;
        same = λ b lt n. ground (
          arith,
          same (add64 c.lba_base b),
          cached-set c.lines i l' b v.distinct (omega (arith, v.size)) fits,
        );
      }

  -- The line that a touch leaves at its index.
  touched_line :
      (c : Cache State) (i : ℕ)
      → Inv c
      → i < block_cache_lines
      → line (cache_touch c i) i ≡ record (line c i) { last_use = next_clock c.use_clock }
  unfolding cache_touch
  touched_line c i v h = get_or-set_self c.lines i _ zero_line (omega (arith, v.size))

  -- What a load may give back: a line for the sector, or a failure that spoils one sector at most.
  abbrev pub LoadResult : Cache State → ℕ → Option ℕ × Cache State → Type 0
  LoadResult c a r =
      (r.0 ≡ none → (b : ℕ) × View.Spares d kind sector c r.1 b)
      × ((j : ℕ) → r.0 ≡ some j → Loaded c r.1 j a)

  touched-Loaded :
      (b c : Cache State) (i a : ℕ)
      → Keeps b c
      → i < block_cache_lines
      → (line c i).valid ≡ true
      → (line c i).lba ≡ a
      → LoadResult b a (some i, cache_touch c i)
  touched-Loaded b c i a k h w e =
      let k' =
        View.Keeps-trans d kind sector b c _ k (View.cache_touch-Keeps d kind sector c i k.inv h) in
      let here = touched_line c i k.inv h in
      (
        λ e'. absurd (cc),
        λ j e'.
            let same : i ≡ j = cc in
            subst (λ n. Loaded b (cache_touch c i) n a) same
              (record {
                keeps = k';
                inside = h;
                valid = ap (λ l. l.valid) here ∙ w;
                for_sector = ap (λ l. l.lba) here ∙ e;
              }),
      )

  fill_line_lem :
      (c : Cache State) (i a : ℕ)
      → Inv c
      → i < block_cache_lines
      → a < c.lba_count
      → cached c.lines a ≡ none
      → ((line c i).valid ≡ true → (line c i).dirty ≡ false)
      → LoadResult c a (fill_line d c i a)
  unfolding fill_line
  fill_line_lem c i a v h lt miss nd =
      let at : ℕ = add64 c.lba_base a in
      let at_kind : Laws d c.dev_kind sector = subst (λ k. Laws d k sector) (sym v.kind_is) laws in
      let keeps = at_kind.read_keeps c.dev at (line c i).bytes in
      elim (Bool-cases (backend_rw d c.dev c.dev_kind at (line c i).bytes false).0) [
        | inl done ↦
            let x = (backend_rw d c.dev c.dev_kind at (line c i).bytes false).1 in
            let l' : Line = record (line c i) { valid = true; dirty = false; lba = a; bytes = x } in
            let here = get_or-set_self c.lines i l' zero_line (omega (arith, v.size)) in
            rw done (
              touched-Loaded c _ i a
                (refilled-Keeps c i a _ x v h lt miss nd keeps
                  (at_kind.read_ok c.dev at (line c i).bytes done))
                h (ap (λ l. l.valid) here) (ap (λ l. l.lba) here))
        | inr failed ↦
            rw failed (λ e. ((line c i).lba, spoilt-Spares c i _ _ v h keeps), λ j e. absurd (cc))
      ]

  load_line_lem :
      (c : Cache State) (a : ℕ)
      → Inv c
      → a < c.lba_count
      → cached c.lines a ≡ none
      → LoadResult c a (load_line d c a)
  unfolding load_line
  load_line_lem c a v lt miss =
      let (i, e, h, _) = cache_select_victim-IsVictim c.lines (omega (arith, v.size)) in
      let h' : i < block_cache_lines = omega (arith, v.size) in
      let (kept, good) = cache_writeback_line_lem c i v h' in
      rw (e, load_line)
        (elim (Bool-cases (cache_writeback_line d c i).0) [
          | inr failed ↦
              rw failed (λ e. (0, View.Keeps-Spares d kind sector c _ 0 kept), λ j e. absurd (cc))
          | inl done ↦
              let wr = good done in
              let (lost, loaded) =
                fill_line_lem (cache_writeback_line d c i).1 i a kept.inv h'
                  (omega (arith, kept.count)) (wr.held a ∙ miss) wr.not_dirty in
              rw done (
                λ e'. let (b, sp) = lost e' in (b, View.Spares-trans d kind sector c _ _ b kept sp),
                λ j e'.
                    let l = loaded j e' in
                    record {
                      keeps = View.Keeps-trans d kind sector c _ _ kept l.keeps;
                      inside = l.inside;
                      valid = l.valid;
                      for_sector = l.for_sector;
                    },
              )
        ])

  find_result :
      (c : Cache State) (a : ℕ) (hit : Option ℕ)
      → find_line 0 c.lines a ≡ hit
      → cache_find c a ≡ (elim hit [ none ↦ (none, c) | some i ↦ (some i, cache_touch c i) ])
  unfolding cache_find
  find_result c a hit e = rw (e, cache_find)

  load_result :
      (c : Cache State) (a : ℕ) (r : Option ℕ × Cache State)
      → cache_find c a ≡ r
      → cache_get_load d c a ≡ (elim (r.0) [ some i ↦ (some i, r.1) | none ↦ load_line d (r.1) a ])
  unfolding cache_get_load
  load_result c a r e =
      ap
        (λ (q : Option ℕ × Cache State).
          let t : Option ℕ × Cache State = elim (q.0) [
            | some i ↦ (some i, q.1)
            | none ↦ load_line d (q.1) a
          ] in
          t)
        e

  -- Finding or loading sector `a`: a line that it gives back is valid and for that sector, and then
  -- a client sees what it saw before; where it fails this holds of every sector but one.
  pub cache_get_load_lem :
      (c : Cache State) (a : ℕ) → Inv c → a < c.lba_count → LoadResult c a (cache_get_load d c a)
  cache_get_load_lem c a v lt = elim (find_line_cases 0 c.lines a) [
    | inl (e, miss) ↦
        rw (load_result c a (none, c) (find_result c a none e)) (load_line_lem c a v lt miss)
    | inr (k, e, h, w, at, _) ↦
        let index : 0 + k ≡ k = omega arith in
        rw
          (load_result c a (some k, cache_touch c k) (find_result c a (some k) (e ∙ ap some index)))
          (touched-Loaded c c k a (View.Keeps-self d kind sector c v) (omega (arith, v.size)) w at)
  ]
