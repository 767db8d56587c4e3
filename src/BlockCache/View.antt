-- ===== src/BlockCache/View.antt =====
-- The cache as a disk: what a client sees of each sector, and that finding, evicting and loading
-- lines does not change it.
use furi_os.Prelude.{
  add64, ℕ, ◌+◌, ◌^◌, ◌≤◌, ◌<◌, ◌≡◌, ◌≢◌, refl, sym, ap, ◌∙◌, ◌⊎◌, inl, inr, true, false, Option,
  none, some, List, arith, ltb, ◌==◌, get_or, set, length, Bool-cases, get_or-set_self,
  get_or-set_ne, get_or-out, length-set, ==→eq, ==→ne,
}
use furi_os.BlockCache.{Drivers, Line, zero_line, Cache, block_cache_lines, cache_touch, next_clock}
use furi_os.BlockCache.Lines.{
  cached, Distinct, Fits, cached-set, cached-line, set-Distinct, Distinct-index,
}

abbrev pub shown : Option (List ℕ) → List ℕ → List ℕ
shown none on_disk = on_disk
shown (some bytes) on_disk = bytes

module _ (d : Drivers) (kind : ℕ) (sector : d.State → ℕ → List ℕ) where
  open d use {State}

  abbrev pub line : Cache State → ℕ → Line
  line c i = get_or c.lines i zero_line

  -- The cached bytes of sector `a`, or those on the device.
  unfoldable pub view : Cache State → ℕ → List ℕ
  view c a = shown (cached c.lines a) (sector c.dev (add64 c.lba_base a))

  pub record Inv (c : Cache State) : Type 0 where
    pub kind_is : c.dev_kind ≡ kind
    pub size : length c.lines ≡ block_cache_lines
    pub bounded : c.lba_base + c.lba_count ≤ 2 ^ 64
    pub distinct : Distinct c.lines
    pub range : (i : ℕ) → (line c i).valid ≡ true → (line c i).lba < c.lba_count
    pub clean :
        (i : ℕ)
        → (line c i).valid ≡ true
        → (line c i).dirty ≡ false
        → (line c i).bytes ≡ sector c.dev (add64 c.lba_base (line c i).lba)

  -- `t` is a state of the same device that shows a client the same sectors.
  pub record Keeps (c t : Cache State) : Type 0 where
    pub inv : Inv t
    pub base : t.lba_base ≡ c.lba_base
    pub count : t.lba_count ≡ c.lba_count
    pub flag : t.ready_flag ≡ c.ready_flag
    pub same : (a : ℕ) → a < c.lba_count → view t a ≡ view c a

  -- `t` is a state of the same device that shows a client the same in every sector but `b`.
  pub record Spares (c t : Cache State) (b : ℕ) : Type 0 where
    pub base : t.lba_base ≡ c.lba_base
    pub count : t.lba_count ≡ c.lba_count
    pub flag : t.ready_flag ≡ c.ready_flag
    pub same : (a : ℕ) → a < c.lba_count → a ≢ b → view t a ≡ view c a

  abbrev pub replaced : Cache State → ℕ → Line → State → Cache State
  replaced c i l' s = record c { lines = set c.lines i l'; dev = s }

  pub Keeps-self : (c : Cache State) → Inv c → Keeps c c
  Keeps-self c v = record { inv = v; base = refl; count = refl; flag = refl; same = λ a h. refl }

  pub Keeps-trans : (b c t : Cache State) → Keeps b c → Keeps c t → Keeps b t
  Keeps-trans b c t k l = record {
    inv = l.inv;
    base = l.base ∙ k.base;
    count = l.count ∙ k.count;
    flag = l.flag ∙ k.flag;
    same = λ a h. l.same a (omega (arith, k.count)) ∙ k.same a h;
  }

  pub Keeps-Spares : (c t : Cache State) (b : ℕ) → Keeps c t → Spares c t b
  Keeps-Spares c t b k = record {
    base = k.base;
    count = k.count;
    flag = k.flag;
    same = λ a lt n. k.same a lt;
  }

  pub Spares-trans : (c t u : Cache State) (b : ℕ) → Keeps c t → Spares t u b → Spares c u b
  Spares-trans c t u b k l = record {
    base = l.base ∙ k.base;
    count = l.count ∙ k.count;
    flag = l.flag ∙ k.flag;
    same = λ a lt n. l.same a (omega (arith, k.count)) n ∙ k.same a lt;
  }

  -- A new line that is in range, right if it is clean, and for a sector of its own.
  pub replaced-Inv :
      (c : Cache State) (i : ℕ) (l' : Line) (s : State)
      → Inv c
      → i < block_cache_lines
      → Fits c.lines (line c i) l'
      → (l'.valid ≡ true → l'.lba < c.lba_count)
      → (l'.valid ≡ true → l'.dirty ≡ false → l'.bytes ≡ sector s (add64 c.lba_base l'.lba))
      → ((j : ℕ)
          → j ≢ i
          → (line c j).valid ≡ true
          → sector s (add64 c.lba_base (line c j).lba)
            ≡ sector c.dev (add64 c.lba_base (line c j).lba))
      → Inv (replaced c i l' s)
  replaced-Inv c i l' s v h f in_range right others = record {
    kind_is = v.kind_is;
    size = length-set c.lines i l' ∙ v.size;
    bounded = v.bounded;
    distinct = set-Distinct c.lines i l' v.distinct (omega (arith, v.size)) f;
    range = λ j. by_cases j (Bool-cases (j == i));
    clean = λ j. clean_cases j (Bool-cases (j == i));
  }
    where
      here : get_or (set c.lines i l') i zero_line ≡ l'
      here = get_or-set_self c.lines i l' zero_line (omega (arith, v.size))

      by_cases :
          (j : ℕ)
          → ((j == i) ≡ true) ⊎ ((j == i) ≡ false)
          → (get_or (set c.lines i l') j zero_line).valid ≡ true
          → (get_or (set c.lines i l') j zero_line).lba < c.lba_count
      by_cases j (inl e) = rw (==→eq j i e, here) in_range
      by_cases j (inr e) =
          rw (get_or-set_ne c.lines i j l' zero_line (λ e'. ==→ne j i e (sym e'))) (v.range j)

      clean_cases :
          (j : ℕ)
          → ((j == i) ≡ true) ⊎ ((j == i) ≡ false)
          → (get_or (set c.lines i l') j zero_line).valid ≡ true
          → (get_or (set c.lines i l') j zero_line).dirty ≡ false
          → (get_or (set c.lines i l') j zero_line).bytes
            ≡ sector s (add64 c.lba_base (get_or (set c.lines i l') j zero_line).lba)
      clean_cases j (inl e) = rw (==→eq j i e, here) right
      clean_cases j (inr e) =
          rw (get_or-set_ne c.lines i j l' zero_line (λ e'. ==→ne j i e (sym e')))
            (λ w q. v.clean j w q ∙ sym (others j (==→ne j i e) w))

  pub with_clock : (c : Cache State) (t : ℕ) → Inv c → Inv (record c { use_clock = t })
  with_clock c t v = record {
    kind_is = v.kind_is;
    size = v.size;
    bounded = v.bounded;
    distinct = v.distinct;
    range = v.range;
    clean = v.clean;
  }

  pub same_sector :
      (c : Cache State) (i : ℕ) (l' : Line)
      → l'.valid ≡ (line c i).valid
      → l'.lba ≡ (line c i).lba
      → Fits c.lines (line c i) l'
  same_sector c i l' e f = elim (Bool-cases (line c i).valid) [
    | inl v ↦ inr (v, sym f)
    | inr free ↦ inl (λ w. cc)
  ]

  -- Replacing a line by one with the same sector and bytes shows a client the same.
  pub touched_view :
      (c : Cache State) (i : ℕ) (l' : Line) (a : ℕ)
      → Inv c
      → i < block_cache_lines
      → l'.valid ≡ (line c i).valid
      → l'.lba ≡ (line c i).lba
      → l'.bytes ≡ (line c i).bytes
      → cached (set c.lines i l') a ≡ cached c.lines a
  touched_view c i l' a v h e f g =
      let h' : i < length c.lines = omega (arith, v.size) in
      ground (
        arith,
        cached-set c.lines i l' a v.distinct h' (same_sector c i l' e f),
        cached-line c.lines i v.distinct h',
      )

  pub cache_touch-Keeps :
      (c : Cache State) (i : ℕ) → Inv c → i < block_cache_lines → Keeps c (cache_touch c i)
  unfolding cache_touch view
  cache_touch-Keeps c i v h =
      let l' : Line = record (line c i) { last_use = next_clock c.use_clock } in
      record {
        inv = with_clock _ _ (
            replaced-Inv c i l' c.dev v h (same_sector c i l' refl refl) (v.range i) (v.clean i)
              (λ j n w. refl));
        base = refl;
        count = refl;
        flag = refl;
        same = λ a lt.
            ap (λ o. shown o (sector c.dev (add64 c.lba_base a)))
              (touched_view c i l' a v h refl refl refl);
      }

  -- Distinct sectors of the device have distinct addresses.
  pub address :
      (c : Cache State) (a b : ℕ)
      → Inv c
      → a < c.lba_count
      → b < c.lba_count
      → a ≢ b
      → add64 c.lba_base a ≢ add64 c.lba_base b
  address c a b v ha hb n e = n (omega (arith, v.bounded))

  in_cache : (c : Cache State) (i : ℕ) → Inv c → (line c i).valid ≡ true → i < block_cache_lines
  in_cache c i v w = elim (Bool-cases (ltb i block_cache_lines)) [
    | inl lt ↦ ground arith
    | inr out ↦ absurd (ground (arith, get_or-out c.lines i zero_line, v.size))
  ]

  pub lba_apart :
      (c : Cache State) (i j : ℕ)
      → Inv c
      → (line c i).valid ≡ true
      → (line c j).valid ≡ true
      → j ≢ i
      → (line c j).lba ≢ (line c i).lba
  lba_apart c i j v wi wj n e = n (
      Distinct-index c.lines j i v.distinct (omega (arith, v.size, in_cache c j v wj))
        (omega (arith, v.size, in_cache c i v wi)) wj wi e)

  pub moved-Keeps :
      (c : Cache State) (s : State)
      → Inv c
      → ((b : ℕ) → sector s b ≡ sector c.dev b)
      → Keeps c (record c { dev = s })
  unfolding view
  moved-Keeps c s v same = record {
    inv = record {
      kind_is = v.kind_is;
      size = v.size;
      bounded = v.bounded;
      distinct = v.distinct;
      range = v.range;
      clean = λ i w cl. v.clean i w cl ∙ sym (same (add64 c.lba_base (line c i).lba));
    };
    base = refl;
    count = refl;
    flag = refl;
    same = λ a lt. ap (shown (cached c.lines a)) (same (add64 c.lba_base a));
  }
