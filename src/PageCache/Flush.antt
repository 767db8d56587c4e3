-- ===== src/PageCache/Flush.antt =====
-- What a flush of the page cache cleans, and what it leaves.
use furi_os.Prelude.{
  ℕ, zero, suc, ◌≤◌, ◌<◌, ◌≡◌, refl, ap, ap₂, sym, ◌∙◌, subst, ◌⊎◌, inl, inr, Bool, true, false,
  not, ◌&&◌, ◌||◌, none, some, List, [], ◌∷◌, ltb, ◌==◌, if_cases, arith, Option-cases, get_or, set,
  length,
}
use furi_os.PageCache.{
  Ident, Entry, inode_file, same_type, pagecache_entry_max_bytes, bytes_at, zero_entry, Cache,
  Choice, chosen, victim_from, count_if, cleaned, pagecache_note_writeback_result,
  pagecache_entry_writeback, protected, clear_page, writeback_at, flush_round,
  pagecache_flush_match, pagecache_flush_inode_range, pagecache_flush_all, max_file_cache_pages,
  every_choice, pagecache_dirty_count,
}
use furi_os.Pmm.{page_size}
use furi_os.PageCache.Clean.{Cleaned, Cleaned-refl, Cleaned-trans, Cleaned-set, not_chosen}
use furi_os.PageCache.Victim.{victim_from-none, victim_lem, count_if-set, count_if_le}

-- What one attempt to write the entry `i` back makes of the entries.
unfoldable pub Attempt : {W : Type 0} → (i : ℕ) → List Entry → Bool × Cache W → Type 0
Attempt i es (true, c) =
    (t : ℕ) × (c.entries
      ≡ set es i (record (get_or es i zero_entry) { dirty = false; last_touch = t }))
Attempt i es (false, c) = c.entries ≡ es

-- `n` or more rounds for the chosen entries: a flush that succeeds leaves none of them, and one that
-- fails blocks the write-back for a while.
Flushed : {W : Type 0} → (ident : ℕ → Ident) → Choice → List Entry → Bool × Cache W → Type 0
Flushed ident p es (true, c) =
    Cleaned ident p es c.entries × (count_if (chosen ident p) c.entries ≡ 0)
Flushed ident p es (false, c) = Cleaned ident p es c.entries × (0 < c.fail_streak)

Cleaned-Flushed :
    {W : Type 0} (ident : ℕ → Ident) (p : Choice) (es es1 : List Entry) (r : Bool × Cache W)
    → Cleaned ident p es es1
    → Flushed ident p es1 r
    → Flushed ident p es r
unfolding Flushed
Cleaned-Flushed ident p es es1 (true, c) a f = (Cleaned-trans ident p es es1 c.entries a f.0, f.1)
Cleaned-Flushed ident p es es1 (false, c) a f = (Cleaned-trans ident p es es1 c.entries a f.0, f.1)

pub chosen_dirty :
    (ident : ℕ → Ident) (p : Choice) (e : Entry)
    → chosen ident p e ≡ true
    → (e.used ≡ true) × (e.dirty ≡ true)
unfolding chosen
chosen_dirty ident p e h = ground arith

module _ {W : Type 0} (ident : ℕ → Ident) (size_of : W → ℕ → ℕ)
    (store : (inode file_off : ℕ) → List ℕ → W → Bool × W)
    (protect : (inode file_off : ℕ) → W → Bool × W) where
  protected-Attempt :
      (i : ℕ) (e : Entry) (c : Cache W)
      → Attempt i c.entries (protected ident size_of store protect i e c)
  unfolding protected cleaned Attempt
  protected-Attempt i e c =
      if_cases {A = Bool × Cache W} (Attempt i c.entries) (protect e.inode e.file_off c.world).0 _ _
        (λ _. (_, refl)) (λ _. refl)

  pagecache_entry_writeback-Attempt :
      (i : ℕ) (c : Cache W)
      → (get_or c.entries i zero_entry).used ≡ true
      → (get_or c.entries i zero_entry).dirty ≡ true
      → Attempt i c.entries (pagecache_entry_writeback ident size_of store protect i c)
  unfolding pagecache_entry_writeback clear_page cleaned Attempt
  pagecache_entry_writeback-Attempt i c u d =
      let e = get_or c.entries i zero_entry in
      let n = pagecache_entry_max_bytes ident size_of store protect c.world e in
      let is_file = same_type (ident e.inode).type inode_file in
      let stored = store e.inode e.file_off (bytes_at c.pmm.mem e.pa n) c.world in
      let c' = record c { world = stored.1 } in
      let P : Bool × Cache W → Type 0 = Attempt i c.entries in
      let idle : not e.used || not e.dirty ≡ false = ap₂ (λ a b. not a || not b) u d in
      let past_end =
        if_cases {A = Bool × Cache W} P is_file _ _
          (λ _. protected-Attempt i e (clear_page ident size_of store protect e.pa 0 c))
          (λ _. (_, refl)) in
      let kept =
        if_cases {A = Cache W} (λ d. P (protected ident size_of store protect i e d))
          (is_file && ltb n page_size) _ _
          (λ _. protected-Attempt i e (clear_page ident size_of store protect e.pa n c'))
          (λ _. protected-Attempt i e c') in
      rw idle (
        if_cases P (n == 0) _ _ (λ _. past_end)
          (λ _. if_cases P (not stored.0) _ _ (λ _. refl) (λ _. kept)))

  flush_round-Flushed :
      (p : Choice) (c : Cache W) (i t : ℕ) (done rest : Bool × Cache W)
      → i < length c.entries
      → chosen ident p (get_or c.entries i zero_entry) ≡ true
      → Attempt i c.entries done
      → (count_if (chosen ident p) done.1.entries < count_if (chosen ident p) c.entries
          → Flushed ident p done.1.entries rest)
      → Flushed ident p c.entries
          (flush_round ident size_of store protect (some (i, t)) done c rest)
  unfolding flush_round Attempt Flushed pagecache_note_writeback_result
  flush_round-Flushed p c i t (true, c') rest l ch a f =
      let e' = record (get_or c.entries i zero_entry) { dirty = false; last_touch = a.0 } in
      let step : Cleaned ident p c.entries c'.entries =
        subst (Cleaned ident p c.entries) (sym a.1) (Cleaned-set ident p c.entries i a.0 l ch) in
      let fewer =
        count_if-set (chosen ident p) c.entries i e' l ch
          (not_chosen ident p (get_or c.entries i zero_entry) a.0) in
      let less : count_if (chosen ident p) c'.entries < count_if (chosen ident p) c.entries =
        omega (arith, fewer, ap (count_if (chosen ident p)) a.1) in
      Cleaned-Flushed ident p c.entries c'.entries rest step (f less)
  flush_round-Flushed p c i t (false, c') rest l ch a f =
      (subst (Cleaned ident p c.entries) (sym a) (Cleaned-refl ident p c.entries), ground arith)

  pagecache_flush_match-Flushed :
      (p : Choice) (budget : ℕ) (c : Cache W)
      → count_if (chosen ident p) c.entries ≤ budget
      → Flushed ident p c.entries (pagecache_flush_match ident size_of store protect p budget c)
  unfolding pagecache_flush_match Flushed pagecache_note_writeback_result writeback_at flush_round
  pagecache_flush_match-Flushed p zero c h = (Cleaned-refl ident p c.entries, omega (arith, h))
  pagecache_flush_match-Flushed p (suc budget) c h =
      elim (Option-cases (victim_from ident p 0 c.entries none)) [
        | inl v ↦ rw v (Cleaned-refl ident p c.entries, victim_from-none ident p 0 c.entries v)
        | inr ((i, t), v) ↦
            let (l, ch) = victim_lem ident p c.entries i t v in
            let done = pagecache_entry_writeback ident size_of store protect i c in
            let c1 = pagecache_note_writeback_result true done.1 in
            let (u, d) = chosen_dirty ident p (get_or c.entries i zero_entry) ch in
            rw v (
              flush_round-Flushed p c i t done
                (pagecache_flush_match ident size_of store protect p budget c1) l ch
                (pagecache_entry_writeback-Attempt i c u d)
                (λ less. pagecache_flush_match-Flushed p budget c1 (omega (arith, less, h))))
      ]

count_if_same :
    (f g : Entry → Bool) (es : List Entry)
    → ((e : Entry) → f e ≡ g e)
    → count_if f es ≡ count_if g es
count_if_same f g [] h = refl
count_if_same f g (e ∷ es) h = let rest = count_if_same f g es h in let here = h e in ground arith

every-chosen : (ident : ℕ → Ident) (e : Entry) → chosen ident every_choice e ≡ e.used && e.dirty
unfolding chosen
every-chosen ident e = ground arith

Flushed-cases :
    {W : Type 0} (ident : ℕ → Ident) (p : Choice) (es : List Entry) (r : Bool × Cache W)
    → Flushed ident p es r
    → Cleaned ident p es r.1.entries
      × (((r.0 ≡ true) × (count_if (chosen ident p) r.1.entries ≡ 0))
          ⊎ ((r.0 ≡ false) × (0 < r.1.fail_streak)))
unfolding Flushed
Flushed-cases ident p es (true, c) f = (f.0, inl (refl, f.1))
Flushed-cases ident p es (false, c) f = (f.0, inr (refl, f.1))

module _ {W : Type 0} (ident : ℕ → Ident) (size_of : W → ℕ → ℕ)
    (store : (inode file_off : ℕ) → List ℕ → W → Bool × W)
    (protect : (inode file_off : ℕ) → W → Bool × W) where
  -- pagecache_flush_all on a table of at most 256 entries either succeeds, and then no used entry is
  -- dirty, so its 256 rounds are enough; or a write-back failed, and a streak of failures is noted. In
  -- both cases it changes no entry but dirty ones, and of those only `dirty`, to false, and
  -- `last_touch`.
  pub pagecache_flush_all_lem :
      (c : Cache W)
      → length c.entries ≤ max_file_cache_pages
      → let (ok, c') = pagecache_flush_all ident size_of store protect c in
        Cleaned ident every_choice c.entries c'.entries
        × (((ok ≡ true) × (pagecache_dirty_count c'.entries ≡ 0))
            ⊎ ((ok ≡ false) × (0 < c'.fail_streak)))
  unfolding pagecache_flush_all pagecache_dirty_count
  pagecache_flush_all_lem c small =
      let f =
        pagecache_flush_match-Flushed ident size_of store protect every_choice max_file_cache_pages
          c (omega (arith, small, count_if_le (chosen ident every_choice) c.entries)) in
      let (cleans, outcome) = Flushed-cases ident every_choice c.entries _ f in
      (
        cleans,
        elim outcome [
          | inl (ok, none_left) ↦ inl (
            ok,
            sym (
                  count_if_same (chosen ident every_choice) (λ e. e.used && e.dirty) _
                    (every-chosen ident))
                ∙ none_left,
          )
          | inr failed ↦ inr failed
        ],
      )

  -- pagecache_flush_inode_range of an inode, on a table of at most 256 entries, either succeeds, and
  -- then no dirty entry of the file is left that overlaps the range; or a write-back failed, and a
  -- streak of failures is noted. In both cases the entries of other files and of other ranges stay as
  -- they were.
  pub pagecache_flush_inode_range_lem :
      (inode start_off len : ℕ) (c : Cache W)
      → inode == 0 ≡ false
      → length c.entries ≤ max_file_cache_pages
      → let p : Choice = record {
        inode = inode;
        start_off = start_off;
        len = len;
        use_range = true;
      } in
        let (ok, c') =
          pagecache_flush_inode_range ident size_of store protect inode start_off len c in
        Cleaned ident p c.entries c'.entries
        × (((ok ≡ true) × (count_if (chosen ident p) c'.entries ≡ 0))
            ⊎ ((ok ≡ false) × (0 < c'.fail_streak)))
  unfolding pagecache_flush_inode_range
  pagecache_flush_inode_range_lem inode start_off len c some_inode small =
      let p : Choice = record {
        inode = inode;
        start_off = start_off;
        len = len;
        use_range = true;
      } in
      let f =
        pagecache_flush_match-Flushed ident size_of store protect p max_file_cache_pages c
          (omega (arith, small, count_if_le (chosen ident p) c.entries)) in
      rw some_inode (Flushed-cases ident p c.entries _ f)
