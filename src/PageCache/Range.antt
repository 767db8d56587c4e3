-- ===== src/PageCache/Range.antt =====
-- The range of a flush, and the pause of the write-back behind a failure.
use furi_os.Prelude.{
  [], ◌∷◌, ◌∙◌, refl, sym, subst, ℕ, ◌+◌, ◌*◌, ◌^◌, ◌≤◌, ◌<◌, min, ◌≡◌, ◌↔◌, Bool, true, false,
  List, ltb, if◌then◌else◌, arith,
}
use furi_os.Pmm.{page_size}
use furi_os.PageCache.{
  Ident, Entry, Cache, pagecache_range_overlaps, pagecache_note_writeback_result,
  pagecache_writeback_blocked, pagecache_tick, backoff_ticks, subst, ◌∷◌, sym,
}

-- An entry in use overlaps a range that is not empty exactly when some byte lies in its page and in
-- the range, where neither reaches past 2 ^ 64 - 1.
pub pagecache_range_overlaps_lem :
    (e : Entry) (start_off len : ℕ)
    → e.used ≡ true
    → 0 < len
    → start_off + len < 2 ^ 64
    → e.file_off + page_size < 2 ^ 64
    → (pagecache_range_overlaps e start_off len ≡ true) ↔ (
        (off : ℕ) × (e.file_off ≤ off)
        × (off < e.file_off + page_size)
        × (start_off ≤ off)
        × (off < start_off + len))
unfolding pagecache_range_overlaps
pagecache_range_overlaps_lem e start_off len u some_len small small' = (
  λ h.
      let first : ℕ = if ltb e.file_off start_off then start_off else e.file_off in
      (first, ground arith, ground arith, ground arith, ground arith),
  λ (off, a, b, c, d). ground (arith, a, b, c, d),
)

-- Every time of the list is before `t`.
abbrev pub AllBefore : ℕ → List ℕ → Type 0
AllBefore t [] = Unit {0}
AllBefore t (now ∷ later) = (now < t) × AllBefore t later

module _ {W : Type 0} (ident : ℕ → Ident) (size_of : W → ℕ → ℕ)
    (store : (inode file_off : ℕ) → List ℕ → W → Bool × W)
    (protect : (inode file_off : ℕ) → W → Bool × W) where
  abbrev timer_call : ℕ → Cache W → Cache W
  timer_call = pagecache_tick ident size_of store protect

  -- The timer's calls at the times of a list, the first one first.
  pub tick_run : List ℕ → Cache W → Cache W
  tick_run [] c = c
  tick_run (now ∷ later) c = tick_run later (timer_call now c)

  -- `c` and `t` are alike but for the times of the last tick and the last write-back.
  record Paused (c t : Cache W) : Type 0 where
    pub entries : t.entries ≡ c.entries
    pub pmm : t.pmm ≡ c.pmm
    pub world : t.world ≡ c.world
    pub streak : t.fail_streak ≡ c.fail_streak
    pub deadline : t.blocked_until ≡ c.blocked_until

  timer_call-Paused :
      (c : Cache W) (now : ℕ)
      → 0 < c.fail_streak
      → now < c.blocked_until
      → Paused c (timer_call now c)
  unfolding pagecache_tick pagecache_writeback_blocked
  timer_call-Paused c now failed early = record {
    entries = ground arith;
    pmm = ground arith;
    world = ground arith;
    streak = ground arith;
    deadline = ground arith;
  }

  tick_run-Paused :
      (times : List ℕ) (c : Cache W)
      → 0 < c.fail_streak
      → AllBefore c.blocked_until times
      → Paused c (tick_run times c)
  unfolding tick_run
  tick_run-Paused [] c failed early = record {
    entries = refl;
    pmm = refl;
    world = refl;
    streak = refl;
    deadline = refl;
  }
  tick_run-Paused (now ∷ later) c failed (soon, early) =
      let p = timer_call-Paused c now failed soon in
      let q =
        tick_run-Paused later (timer_call now c) (omega (arith, p.streak))
          (subst (λ t. AllBefore t later) (sym p.deadline) early) in
      record {
        entries = q.entries ∙ p.entries;
        pmm = q.pmm ∙ p.pmm;
        world = q.world ∙ p.world;
        streak = q.streak ∙ p.streak;
        deadline = q.deadline ∙ p.deadline;
      }

  -- After a failed write-back, no pagecache_tick of any sequence writes anything back before 8 ticks
  -- for each failure in a row, 255 of them at most, have gone by: the entries, the pages, what is
  -- stored, the failures counted and the end of the pause stay as they are.
  pub failed_writeback_pauses :
      (c : Cache W) (times : List ℕ)
      → c.fail_streak ≤ 255
      → c.last_tick + 2048 < 2 ^ 64
      → AllBefore (c.last_tick + backoff_ticks * min (c.fail_streak + 1) 255) times
      → let c0 = pagecache_note_writeback_result false c in
        let c' = tick_run times c0 in
        (c'.entries ≡ c.entries)
        × (c'.pmm ≡ c.pmm)
        × (c'.world ≡ c.world)
        × (c'.fail_streak ≡ min (c.fail_streak + 1) 255)
        × (c'.blocked_until ≡ c.last_tick + backoff_ticks * min (c.fail_streak + 1) 255)
  unfolding pagecache_note_writeback_result
  failed_writeback_pauses c times few small early =
      let c0 = pagecache_note_writeback_result false c in
      let streak : c0.fail_streak ≡ min (c.fail_streak + 1) 255 = ground arith in
      let deadline : c0.blocked_until ≡ c.last_tick + backoff_ticks * min (c.fail_streak + 1) 255 =
        ground arith in
      let p =
        tick_run-Paused times c0 (ground arith)
          (subst (λ t. AllBefore t times) (sym deadline) early) in
      (
        p.entries ∙ ground arith,
        p.pmm ∙ ground arith,
        p.world ∙ ground arith,
        p.streak ∙ streak,
        p.deadline ∙ deadline,
      )
