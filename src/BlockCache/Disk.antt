-- ===== src/BlockCache/Disk.antt =====
-- The entry points of the cache against the disk that a client sees.
use furi_os.Prelude.{
  add64, ℕ, zero, suc, ◌+◌, ◌-◌, ◌≤◌, ◌<◌, ◌≡◌, refl, sym, ap, ap₂, subst, ◌∙◌, ◌⊎◌, inl, inr, true,
  false, some, List, [], ◌∷◌, arith, ◌==◌, get_or, overwrite, slice, Bool-cases, ==→eq, ==→ne,
}
use furi_os.BlockCache.{
  Drivers, Line, Cache, block_cache_lines, cache_writeback_line, write_loop, flush_loop,
  block_cache_ready, in_bounds, block_cache_read, block_cache_write, block_cache_flush,
  backend_flush,
}
use furi_os.BlockCache.Lines.{find_line_cases}
use furi_os.BlockCache.Laws.{Laws}
use furi_os.BlockCache.View
use furi_os.BlockCache.Evict
use furi_os.BlockCache.Transfer

module _ (d : Drivers) (kind : ℕ) (sector : d.State → ℕ → List ℕ) (laws : Laws d kind sector) where
  open d use {State}

  abbrev Inv : Cache State → Type 0
  Inv = View.Inv d kind sector

  abbrev Keeps : Cache State → Cache State → Type 0
  Keeps = View.Keeps d kind sector

  abbrev line : Cache State → ℕ → Line
  line = View.line d kind sector

  abbrev view : Cache State → ℕ → List ℕ
  view = View.view d kind sector

  abbrev views : Cache State → ℕ → ℕ → List (List ℕ)
  views = Transfer.views d kind sector laws

  unchanged : (c : Cache State) → Inv c → View.Spares d kind sector c c 0
  unchanged c v = View.Keeps-Spares d kind sector c c 0 (View.Keeps-self d kind sector c v)

  -- Where block_cache_read succeeds, the request lies on the device, the buffer holds what a client
  -- sees of its sectors, and nothing that a client sees of any sector changes. Where it fails, at
  -- most one sector of the device changes for a client. A request that is empty or leaves the device
  -- is refused with the buffer and the cache unchanged. The driver is one that keeps `Laws`, which
  -- say nothing of the buffer after a transfer that fails.
  pub block_cache_read_lem :
      (c : Cache State) (lba : ℕ) (buf : List (List ℕ)) (count : ℕ)
      → Inv c
      → let r = block_cache_read d c lba (some buf) count in
        (r.0 ≡ true
          → (0 < count)
            × (lba + count ≤ c.lba_count)
            × Keeps c r.2
            × (r.1 ≡ some (overwrite buf 0 (views c lba count))))
        × (r.0 ≡ false → (b : ℕ) × View.Spares d kind sector c r.2 b)
        × ((count ≡ 0) ⊎ (c.lba_count < lba + count) → r ≡ (false, some buf, c))
  unfolding block_cache_read in_bounds
  block_cache_read_lem c lba buf count v = elim (Bool-cases (block_cache_ready d c)) [
    | inr off ↦ rw off (λ e. absurd (cc), λ e. (0, unchanged c v), λ e. refl)
    | inl on ↦ elim (Bool-cases (in_bounds d c lba count)) [
      | inr out ↦ rw (on, out) (λ e. absurd (cc), λ e. (0, unchanged c v), λ e. refl)
      | inl fits ↦
          let pos : 0 < count = ground arith in
          let room : lba + 0 + count ≤ c.lba_count = ground arith in
          let (good, bad) = Transfer.read_loop_lem d kind sector laws count 0 c lba buf v room in
          let start : lba + 0 ≡ lba = omega arith in
          rw (on, fits)
            (
              λ e.
                  let (kept, copied) = good e in
                  (
                    pos,
                    omega arith,
                    kept,
                    ap some (copied ∙ ap (λ a. overwrite buf 0 (views c a count)) start),
                  ),
              bad,
              λ e. absurd (ground arith),
            )
    ]
  ]

  -- Where block_cache_write succeeds, the whole request lies on the device and a client sees the
  -- bytes of the buffer in its sectors and what it saw before in all others. Where it fails, this
  -- holds with only a prefix of the sectors written, of every sector but one at most. A request that is empty or leaves the device is refused with the cache
  -- unchanged. The driver is one that keeps `Laws`, which say nothing of the buffer after a
  -- transfer that fails.
  pub block_cache_write_lem :
      (c : Cache State) (lba : ℕ) (buf : List (List ℕ)) (count : ℕ)
      → Inv c
      → let r = block_cache_write d c lba (some buf) count in
        (r.0 ≡ true
          → (0 < count)
            × (lba + count ≤ c.lba_count)
            × Transfer.Wrote d kind sector laws c r.1 lba count (λ b. get_or buf (b - lba) []))
        × (r.0 ≡ false
            → (m : ℕ) × (lost : ℕ) × (m ≤ count)
              × Transfer.Torn d kind sector laws c r.1 lba m (λ b. get_or buf (b - lba) []) lost)
        × ((count ≡ 0) ⊎ (c.lba_count < lba + count) → r ≡ (false, c))
  unfolding block_cache_write in_bounds
  block_cache_write_lem c lba buf count v = elim (Bool-cases (block_cache_ready d c)) [
    | inr off ↦ rw off (λ e. absurd (cc), λ e. nothing, λ e. refl)
    | inl on ↦ elim (Bool-cases (in_bounds d c lba count)) [
      | inr out ↦ rw (on, out) (λ e. absurd (cc), λ e. nothing, λ e. refl)
      | inl fits ↦
          let pos : 0 < count = ground arith in
          let room : lba + 0 + count ≤ c.lba_count = ground arith in
          let start : lba + 0 ≡ lba = omega arith in
          let new : ℕ → List ℕ = λ b. get_or buf (b - lba) [] in
          let q = write_loop d count 0 c lba buf in
          let (good, bad) = Transfer.write_loop_lem d kind sector laws count 0 c lba buf v room in
          rw (on, fits)
            (
              λ e. (
                pos,
                omega arith,
                subst (λ a. Transfer.Wrote d kind sector laws c q.1 a count new) start (good e),
              ),
              λ e.
                  let (m, b, lt, t) = bad e in
                  (
                    m,
                    b,
                    omega arith,
                    subst (λ a. Transfer.Torn d kind sector laws c q.1 a m new b) start t,
                  ),
              λ e. absurd (ground arith),
            )
    ]
  ]
    where
      nothing :
          (m : ℕ) × (lost : ℕ) × (m ≤ count)
          × Transfer.Torn d kind sector laws c c lba m (λ b. get_or buf (b - lba) []) lost
      nothing =
          (0, 0, omega arith, Transfer.Spares-Torn d kind sector laws c c lba _ 0 (unchanged c v))

  written_views :
      (c t : Cache State) (lba i k : ℕ) (buf : List (List ℕ)) (n : ℕ)
      → Transfer.Wrote d kind sector laws c t lba n (λ b. get_or buf (b - lba) [])
      → i + k ≤ n
      → lba + n ≤ c.lba_count
      → views t (lba + i) k ≡ slice [] buf i k
  written_views c t lba i zero buf n w h lt = refl
  written_views c t lba i (suc k) buf n w h lt =
      let next : lba + i + 1 ≡ lba + (i + 1) = omega arith in
      let offset : lba + i - lba ≡ i = omega arith in
      ap₂ ◌∷◌ (ground (arith, w.shows (lba + i) (omega arith), ap (λ m. get_or buf m []) offset))
        (ap (λ a. views t a k) next ∙ written_views c t lba (i + 1) k buf n w (omega arith) lt)

  -- A read that succeeds after a write that succeeded delivers the bytes written.
  pub read-write :
      (c : Cache State) (lba : ℕ) (src out : List (List ℕ)) (count : ℕ)
      → Inv c
      → let w = block_cache_write d c lba (some src) count in
        let r = block_cache_read d w.1 lba (some out) count in
        w.0 ≡ true → r.0 ≡ true → r.1 ≡ some (overwrite out 0 (slice [] src 0 count))
  read-write c lba src out count v ew er =
      let (written, _, _) = block_cache_write_lem c lba src count v in
      let (_, room, wr) = written ew in
      let (copied, _, _) =
        block_cache_read_lem (block_cache_write d c lba (some src) count).1 lba out count wr.inv in
      let start : lba ≡ lba + 0 = omega arith in
      let t = (block_cache_write d c lba (some src) count).1 in
      (copied er).3
      ∙ ap (λ ys. some (overwrite out 0 ys))
          (ap (λ a. views t a count) start
            ∙ written_views c t lba 0 count src count wr (omega arith) (omega arith))

  abbrev CleanBelow : ℕ → Cache State → Type 0
  CleanBelow n c = (j : ℕ) → j < n → (line c j).valid ≡ true → (line c j).dirty ≡ false

  flush_loop_lem :
      (n i : ℕ) (c : Cache State)
      → Inv c
      → i + n ≤ block_cache_lines
      → CleanBelow i c
      → let r = flush_loop d n i c in Keeps c r.1 × (r.0 ≡ true → CleanBelow (i + n) r.1)
  unfolding flush_loop
  flush_loop_lem zero i c v h cl = (View.Keeps-self d kind sector c v, λ e j lt. cl j (omega arith))
  flush_loop_lem (suc n) i c v h cl =
      let (kept, good) = Evict.cache_writeback_line_lem d kind sector laws c i v (omega arith) in
      elim (Bool-cases (cache_writeback_line d c i).0) [
        | inr failed ↦ rw failed (kept, λ e. absurd (cc))
        | inl done ↦
            let w = good done in
            let t = (cache_writeback_line d c i).1 in
            let cl' : CleanBelow (i + 1) t = λ j lt. elim (Bool-cases (j == i)) [
              | inl e ↦
                  subst (λ m. (line t m).valid ≡ true → (line t m).dirty ≡ false)
                    (sym (==→eq j i e)) w.not_dirty
              | inr ne ↦ rw (w.others j (==→ne j i ne)) (cl j (ground arith))
            ] in
            let (kept', clean) = flush_loop_lem n (i + 1) t kept.inv (omega arith) cl' in
            rw done
              (View.Keeps-trans d kind sector c t _ kept kept', λ e j lt. clean e j (omega arith))
      ]

  -- With no dirty line a client sees what is on the device.
  clean-view :
      (c : Cache State) (a : ℕ)
      → Inv c
      → CleanBelow block_cache_lines c
      → view c a ≡ sector c.dev (add64 c.lba_base a)
  unfolding View.view
  clean-view c a v cl = elim (find_line_cases 0 c.lines a) [
    | inl (_, miss) ↦ rw miss
    | inr (k, _, h, w, at, found) ↦ rw found (
        v.clean k w (cl k (omega (arith, v.size)) w)
        ∙ ap (λ b. sector c.dev (add64 c.lba_base b)) at)
  ]

  -- block_cache_flush changes nothing that a client sees, whether it succeeds or not; where it
  -- succeeds the device itself holds what a client sees of every sector.
  pub block_cache_flush_lem :
      (c : Cache State)
      → Inv c
      → let r = block_cache_flush d c in
        Keeps c r.1
        × (r.0 ≡ true → (a : ℕ) → a < c.lba_count → sector r.1.dev (add64 c.lba_base a) ≡ view c a)
  unfolding block_cache_flush
  block_cache_flush_lem c v = elim (Bool-cases (block_cache_ready d c)) [
    | inr off ↦ rw off (View.Keeps-self d kind sector c v, λ e. absurd (cc))
    | inl on ↦
        let (kept, clean) =
          flush_loop_lem block_cache_lines 0 c v (omega arith) (λ j lt. absurd (omega arith)) in
        let t = (flush_loop d block_cache_lines 0 c).1 in
        elim (Bool-cases (flush_loop d block_cache_lines 0 c).0) [
          | inr failed ↦ rw (on, failed) (kept, λ e. absurd (cc))
          | inl done ↦ rw (on, done) (flushed t kept (clean done))
        ]
  ]
    where
      flushed :
          (t : Cache State)
          → Keeps c t
          → CleanBelow (0 + block_cache_lines) t
          → Keeps c (record t { dev = (backend_flush d t.dev t.dev_kind).1 })
            × ((backend_flush d t.dev t.dev_kind).0 ≡ true
                → (a : ℕ) → a < c.lba_count
                → sector (backend_flush d t.dev t.dev_kind).1 (add64 c.lba_base a) ≡ view c a)
      flushed t kept cl =
          let at_kind : Laws d t.dev_kind sector =
            subst (λ k. Laws d k sector) (sym kept.inv.kind_is) laws in
          let same = at_kind.flush_keeps t.dev in
          (
            View.Keeps-trans d kind sector c t _ kept
                (View.moved-Keeps d kind sector t _ kept.inv same),
            λ e a lt.
                same (add64 c.lba_base a)
                ∙ ap (λ b. sector t.dev (add64 b a)) (sym kept.base)
                ∙ sym (clean-view t a kept.inv cl)
                ∙ kept.same a lt,
          )
