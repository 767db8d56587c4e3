-- ===== src/BlockCache/Attach.antt =====
-- Attaching a device: a client sees the device's own sectors, and the self test changes none.
use furi_os.Prelude.{
  add64, ℕ, ◌+◌, ◌^◌, ◌≤◌, ◌<◌, ◌≡◌, refl, sym, ap, subst, ◌∙◌, inl, inr, Bool, true, false,
  false≢true, not, ◌&&◌, ◌||◌, Option, none, some, List, arith, ◌==◌, if◌then◌else◌, get_or,
  replicate, length-replicate, [], ◌∷◌, inr, get_or-replicate, Bool-cases, if_cases,
}
use furi_os.BlockCache.{
  Drivers, zero_line, Cache, Inode, block_cache_lines, block_cache_ready, block_cache_read,
  cache_selftest, attach_fresh, sector_size, block_cache_attach_inode, block_cache_flush,
  backend_ready, attached, detached, stack_sector, first_sector, same_bytes, sector_size,
}
use furi_os.BlockCache.Lines.{cached_empty, Distinct-empty}
use furi_os.BlockCache.Laws.{Laws}
use furi_os.BlockCache.View
use furi_os.BlockCache.View.{shown}
use furi_os.BlockCache.Disk

module _ (d : Drivers) (kind : ℕ) (sector : d.State → ℕ → List ℕ) (laws : Laws d kind sector) where
  open d use {State}

  abbrev Keeps : Cache State → Cache State → Type 0
  Keeps = View.Keeps d kind sector

  -- A read that starts behind the last sector leaves the cache as it was.
  read-beyond :
      (c : Cache State) (n : ℕ) (buf : Option (List (List ℕ)))
      → View.Inv d kind sector c
      → c.lba_count ≡ n
      → (block_cache_read d c n buf 1).2 ≡ c
  unfolding block_cache_read
  read-beyond c n none v e = refl
  read-beyond c n (some buf) v e =
      ap (λ r. r.2)
        ((Disk.block_cache_read_lem d kind sector laws c n buf 1 v).2 (inr (omega (arith, e))))

  -- A self test that passes changes nothing that a client sees.
  pub cache_selftest-Keeps :
      (c : Cache State)
      → View.Inv d kind sector c
      → (cache_selftest d c).0 ≡ true
      → Keeps c (cache_selftest d c).1
  unfolding cache_selftest
  cache_selftest-Keeps c v =
      let r₁ = block_cache_read d c 0 stack_sector 1 in
      let r₂ = block_cache_read d r₁.2 0 stack_sector 1 in
      let r₃ = block_cache_read d r₂.2 c.lba_count r₁.1 1 in
      let one = λ (b : Cache State) (w : View.Inv d kind sector b).
        (Disk.block_cache_read_lem d kind sector laws b 0 (replicate sector_size 0 ∷ []) 1 w).0 in
      elim (Bool-cases (c.lba_count == 0)) [
        | inl e ↦ rw e (λ p. absurd (cc))
        | inr n ↦ elim (Bool-cases r₁.0) [
          | inr e₁ ↦ rw (n, e₁) (λ p. absurd (cc))
          | inl n₁ ↦
              let k₁ = (one c v n₁).2 in
              elim (Bool-cases r₂.0) [
                | inr e₂ ↦ rw (n, n₁, e₂) (λ p. absurd (cc))
                | inl n₂ ↦
                    let k₂ = (one r₁.2 k₁.inv n₂).2 in
                    let k₁₂ = View.Keeps-trans d kind sector c r₁.2 r₂.2 k₁ k₂ in
                    let out = read-beyond r₂.2 c.lba_count r₁.1 k₂.inv k₁₂.count in
                    elim (Bool-cases (same_bytes (first_sector r₁.1) (first_sector r₂.1))) [
                      | inr e₃ ↦ rw (n, n₁, n₂, e₃) (λ p. absurd (cc))
                      | inl n₃ ↦ rw (n, n₁, n₂, n₃) (λ p. subst (λ t. Keeps c t) (sym out) k₁₂)
                    ]
              ]
        ]
      ]

  attached-Inv :
      (c : Cache State) (inode : Inode)
      → inode.dev_kind ≡ kind
      → inode.dev_lba_start + inode.dev_lba_count ≤ 2 ^ 64
      → View.Inv d kind sector (attached d c inode)
  unfolding attached
  attached-Inv c inode e h =
      let empty : (i : ℕ)
          → (get_or (replicate block_cache_lines zero_line) i zero_line).valid ≡ false =
        λ i. ap (λ l. l.valid) (get_or-replicate block_cache_lines i zero_line) in
      record {
        kind_is = e;
        size = length-replicate block_cache_lines zero_line;
        bounded = h;
        distinct = Distinct-empty block_cache_lines;
        range = λ i w. absurd (ground (arith, empty i));
        clean = λ i w. absurd (ground (arith, empty i));
      }

  attached-view :
      (c : Cache State) (inode : Inode) (a : ℕ)
      → View.view d kind sector (attached d c inode) a ≡ sector c.dev (add64 inode.dev_lba_start a)
  unfolding attached View.view
  attached-view c inode a =
      ap (λ o. shown o (sector c.dev (add64 inode.dev_lba_start a)))
        (cached_empty block_cache_lines a)

  -- What a client of a fresh cache is promised.
  abbrev Fresh : Cache State → Inode → Cache State → Type 0
  Fresh c inode t =
      View.Inv d kind sector t
      × (t.lba_count ≡ inode.dev_lba_count)
      × ((a : ℕ)
          → a < inode.dev_lba_count
          → View.view d kind sector t a ≡ sector c.dev (add64 inode.dev_lba_start a))

  kept-Fresh :
      (c : Cache State) (inode : Inode) (t : Cache State)
      → Keeps (attached d c inode) t
      → Fresh c inode (record t { selftest_done = true })
  unfolding View.view attached
  kept-Fresh c inode t k =
      let v = k.inv in
      (
        record {
          kind_is = v.kind_is;
          size = v.size;
          bounded = v.bounded;
          distinct = v.distinct;
          range = v.range;
          clean = v.clean;
        },
        k.count,
        λ a lt. k.same a lt ∙ attached-view c inode a,
      )

  abbrev Outcome : Cache State → Inode → Bool × Cache State → Type 0
  Outcome c inode r =
      (r.0 ≡ true → Fresh c inode r.1) × (r.0 ≡ false → block_cache_ready d r.1 ≡ false)

  attach_fresh_lem :
      (c : Cache State) (inode : Inode)
      → inode.dev_kind ≡ kind
      → inode.dev_lba_start + inode.dev_lba_count ≤ 2 ^ 64
      → Outcome c inode (attach_fresh d c inode)
  unfolding attach_fresh block_cache_ready detached
  attach_fresh_lem c inode e h =
      let c' = attached d c inode in
      let v = attached-Inv c inode e h in
      let r = cache_selftest d c' in
      let tested = cache_selftest-Keeps c' v in
      let done : Bool × Cache State = (true, record (r.1) { selftest_done = true }) in
      let failed : Bool × Cache State = (false, detached d r.1) in
      if_cases (Outcome c inode) c'.selftest_done (true, c') (if not r.0 then failed else done)
        (λ old. (
          λ q.
              subst (λ b. Fresh c inode (record c' { selftest_done = b })) (sym old)
                (kept-Fresh c inode c' (View.Keeps-self d kind sector c' v)),
          λ q. absurd (false≢true (sym q)),
        ))
        (λ new. elim (Bool-cases r.0) [
          | inr e' ↦ rw e' (λ q. absurd (cc), λ q. refl)
          | inl e' ↦ rw e' (λ q. kept-Fresh c inode r.1 (tested e'), λ q. absurd (cc))
        ])

  -- The tests of block_cache_attach_inode on the inode, and whether it is the device attached.
  abbrev pub attachable : Cache State → Inode → Bool
  attachable c inode =
      inode.is_dev && backend_ready d c.dev inode.dev_kind && not (inode.dev_lba_count == 0)

  abbrev pub same_device : Cache State → Inode → Bool
  same_device c inode =
      c.ready_flag
      && c.dev_kind == inode.dev_kind
      && c.lba_base == inode.dev_lba_start
      && c.lba_count == inode.dev_lba_count

  -- block_cache_attach_inode, over a driver that keeps `Laws`, on an inode whose sectors have 64-bit
  -- numbers. An inode that is no
  -- device, or one that is not ready or has no sectors, is refused, and the device already attached
  -- accepted, with the cache unchanged. Any other device is attached after a flush of the one
  -- before, where one was, whatever the flush returns: on success the cache is valid, has the size
  -- of the device and shows a client the sectors that the device holds after that flush; where the
  -- self test fails the cache is not ready.
  pub block_cache_attach_inode_lem :
      (c : Cache State) (inode : Inode)
      → inode.dev_kind ≡ kind
      → inode.dev_lba_start + inode.dev_lba_count ≤ 2 ^ 64
      → let r = block_cache_attach_inode d c (some inode) in
        let before = if c.ready_flag then (block_cache_flush d c).1 else c in
        (attachable c inode ≡ false → r ≡ (false, c))
        × (attachable c inode ≡ true → same_device c inode ≡ true → r ≡ (true, c))
        × (attachable c inode ≡ true
            → same_device c inode ≡ false
            → (r.0 ≡ true
                → View.Inv d kind sector r.1
                  × (r.1.lba_count ≡ inode.dev_lba_count)
                  × ((a : ℕ)
                      → a < inode.dev_lba_count
                      → View.view d kind sector r.1 a
                        ≡ sector before.dev (add64 inode.dev_lba_start a)))
              × (r.0 ≡ false → block_cache_ready d r.1 ≡ false))
  unfolding block_cache_attach_inode attach_fresh
  block_cache_attach_inode_lem c inode e h =
      let before : Cache State = if c.ready_flag then (block_cache_flush d c).1 else c in
      let fresh = attach_fresh_lem before inode e h in
      elim (Bool-cases inode.is_dev) [
        | inr n ↦ rw n (λ u. refl, λ u. absurd (cc), λ u. absurd (cc))
        | inl y ↦
            elim (Bool-cases
              (not (backend_ready d c.dev inode.dev_kind) || inode.dev_lba_count == 0)) [
                | inl n ↦
                    rw (y, n)
                      (λ u. refl, λ u. absurd (ground (arith, u)), λ u. absurd (ground (arith, u)))
                | inr y' ↦ elim (Bool-cases (same_device c inode)) [
                  | inl n ↦
                      rw (y, y', n)
                        (λ u. absurd (ground (arith, u)), λ u w. refl, λ u w. absurd (cc))
                  | inr n ↦
                      rw (y, y', n)
                        (λ u. absurd (ground (arith, u)), λ u w. absurd (cc), λ u w. fresh)
                ]
              ]
      ]
