-- ===== src/BlockCache/Fault.antt =====
-- What a failed load does where the driver has already written into the line's buffer.
use furi_os.Prelude.{
  add64, ℕ, ◌+◌, ◌<◌, ◌≡◌, refl, ap, ◌∙◌, inl, inr, true, false, none, some, List, get_or, set,
  length, get_or-set_self, arith,
}
use furi_os.BlockCache.{
  Drivers, Line, zero_line, Cache, backend_rw, fill_line, cache_get_load, cache_find, load_line,
  cache_writeback_line, cache_select_victim, cache_touch, find_line,
}
use furi_os.BlockCache.Lines.{cached, Distinct, cached-set, find_line_cases}

module _ (d : Drivers) where
  open d use {State}

  -- the line that a failed transfer has written into
  abbrev spoilt : Cache State → ℕ → ℕ → Cache State
  spoilt c i a =
      let l = get_or c.lines i zero_line in
      let r = backend_rw d c.dev c.dev_kind (add64 c.lba_base a) l.bytes false in
      record c { dev = r.2; lines = set c.lines i (record l { bytes = r.1 }) }

  failed_load :
      (c : Cache State) (i a : ℕ)
      → find_line 0 c.lines a ≡ none
      → cache_select_victim c.lines ≡ some i
      → (get_or c.lines i zero_line).dirty ≡ false
      → (backend_rw d c.dev c.dev_kind
          (add64 c.lba_base a)
          (get_or c.lines i zero_line).bytes
          false).0
        ≡ false
      → cache_get_load d c a ≡ (none, spoilt c i a)
  unfolding cache_get_load cache_find load_line cache_writeback_line fill_line
  failed_load c i a miss victim clean failed = ground (arith, miss, victim, clean, failed)

  hit_load :
      (c : Cache State) (b k : ℕ)
      → find_line 0 c.lines b ≡ some k
      → cache_get_load d c b ≡ (some k, cache_touch c k)
  unfolding cache_get_load cache_find
  hit_load c b k hit = ground (arith, hit)

  found_again :
      (c : Cache State) (b : ℕ) (x : List ℕ)
      → cached c.lines b ≡ some x
      → (j : ℕ) × ((cache_get_load d c b).0 ≡ some j)
        × ((get_or ((cache_get_load d c b).1).lines j zero_line).bytes ≡ x)
  unfolding cache_touch
  found_again c b x held = elim (find_line_cases 0 c.lines b) [
    | inl (e, miss) ↦ absurd (ground (arith, miss, held))
    | inr (k, e, h, w, at, f) ↦
        let index : 0 + k ≡ k = omega arith in
        let hit : find_line 0 c.lines b ≡ some k = e ∙ ap some index in
        let same : (get_or c.lines k zero_line).bytes ≡ x = ground (arith, f, held) in
        rw (hit_load c b k hit)
          (k, refl, ap (λ l. l.bytes) (get_or-set_self c.lines k _ zero_line h) ∙ same)
  ]

  -- In a cache where no sector has two lines, a load of sector `a` that misses, picks as victim a clean line with a sector of its own, `b`, and
  -- fails in the driver, hands out no line; but a later load of `b` is a hit, and the line that it
  -- hands out has whatever bytes the failed transfer left in the buffer.
  pub failed_load_spoils :
      (c : Cache State) (i a : ℕ)
      → Distinct c.lines
      → i < length c.lines
      → find_line 0 c.lines a ≡ none
      → cache_select_victim c.lines ≡ some i
      → (get_or c.lines i zero_line).valid ≡ true
      → (get_or c.lines i zero_line).dirty ≡ false
      → (backend_rw d c.dev c.dev_kind
          (add64 c.lba_base a)
          (get_or c.lines i zero_line).bytes
          false).0
        ≡ false
      → let l = get_or c.lines i zero_line in
        let left = (backend_rw d c.dev c.dev_kind (add64 c.lba_base a) l.bytes false).1 in
        let r = cache_get_load d c a in
        let again = cache_get_load d r.1 l.lba in
        (r.0 ≡ none)
        × ((j : ℕ) × (again.0 ≡ some j) × ((get_or (again.1).lines j zero_line).bytes ≡ left))
  failed_load_spoils c i a apart h miss victim w clean failed =
      let l = get_or c.lines i zero_line in
      let x = (backend_rw d c.dev c.dev_kind (add64 c.lba_base a) l.bytes false).1 in
      let l' : Line = record l { bytes = x } in
      let held : cached (set c.lines i l') l.lba ≡ some x =
        ground (arith, cached-set c.lines i l' l.lba apart h (inr (w, refl)), w) in
      rw (failed_load c i a miss victim clean failed)
        (refl, found_again (spoilt c i a) l.lba x held)
