-- ===== src/Pmm/Bump.antt =====
-- `pmm_alloc`: the bump pointer.
use furi_os.Prelude.{
  ℕ, ◌+◌, ◌-◌, ◌*◌, ◌/◌, ◌^◌, ◌≤◌, ◌<◌, ◌≡◌, refl, sym, ap, ◌∙◌, ◌⊎◌, arith, ltb, leb, ◌&&◌, ◌||◌,
  true, add64, if◌then◌else◌, some, none, Bool-cases, inl, inr, false,
}
use furi_os.Prelude.Bits.{pow2, pow2_mono}
use furi_os.Pmm.{Pmm, page_size, clear, align_up, phys_ram_base, pmm_alloc}
use furi_os.Pmm.Align.{page_at, align_up-pow2}
use furi_os.Pmm.Mark.{Marked, mark_range_owned-Marked}
use furi_os.Pmm.Inv.{IsValid}

-- A block of `bytes` at `at`: aligned, in the part of RAM that was unused, cleared, and each whole
-- page of it referenced once; everything else is as it was.
pub record Granted (s t : Pmm) (at bytes align : ℕ) : Type 0 where
  pub after : s.cur ≤ at
  pub near : at < s.cur + align
  pub aligned : (m : ℕ) × (at ≡ m * align)
  pub within : at + bytes ≤ s.end
  pub cur : t.cur ≡ at + bytes
  pub cleared : t.mem ≡ clear s.mem at bytes
  pub refs :
      (k : ℕ)
      → t.page_refs k ≡ (
          if leb at (page_at k) && leb (page_at k + page_size) (at + bytes)
          then 1
          else s.page_refs k)
  pub stack : (t.free_top ≡ s.free_top) × (t.free_pages ≡ s.free_pages)
  pub owned :
      t.owned_pages
      ≡ s.owned_pages
        + ((at + bytes - phys_ram_base) / page_size - (at - phys_ram_base + 4095) / page_size)
  pub valid : IsValid t

Marked-IsValid :
    (s t : Pmm) (at bytes : ℕ)
    → IsValid s
    → s.cur ≤ at
    → at + bytes ≤ s.end
    → Marked
        ((at - phys_ram_base + 4095) / page_size)
        ((at + bytes - phys_ram_base) / page_size)
        (record s { cur = at + bytes })
        t
    → IsValid (record t { mem = clear t.mem at bytes })
Marked-IsValid s t at bytes v h hi m = record {
  low = omega (arith, m.cur, v.low);
  cur_le = omega (arith, m.cur, m.end);
  high = omega (arith, m.end, v.high);
  stack = λ k hk.
      let (i, hi, e, below, z) = v.stack k (omega (arith, m.top)) in
      (
        i,
        hi,
        ground (arith, ap (λ f. f k) m.stack),
        omega (arith, m.cur),
        ground (arith, m.refs i),
      );
  distinct = λ k l hk hl e.
      v.distinct k l (omega (arith, m.top)) (omega (arith, m.top))
        (sym (ap (λ f. f k) m.stack) ∙ e ∙ ap (λ f. f l) m.stack);
  untouched = λ i hi. ground (arith, m.refs i, v.untouched i, m.cur);
  owned = m.counted v.owned;
  room = omega (arith, m.top, m.owned, m.cur, v.room);
}

Marked-Granted :
    (s t : Pmm) (at bytes align : ℕ)
    → IsValid s
    → s.cur ≤ at
    → at < s.cur + align
    → (m : ℕ) × (at ≡ m * align)
    → at + bytes ≤ s.end
    → Marked
        ((at - phys_ram_base + 4095) / page_size)
        ((at + bytes - phys_ram_base) / page_size)
        (record s { cur = at + bytes })
        t
    → Granted s (record t { mem = clear t.mem at bytes }) at bytes align
Marked-Granted s t at bytes align v lo near al hi m = record {
  after = lo;
  near = near;
  aligned = al;
  within = hi;
  cur = m.cur;
  cleared = ap (λ f. clear f at bytes) m.mem;
  refs = λ k. ground (arith, m.refs k, v.low);
  stack = (m.top, m.stack);
  owned = m.owned;
  valid = Marked-IsValid s t at bytes v lo hi m;
}

refused :
    (s : Pmm) (bytes align at : ℕ)
    → align_up s.cur align ≡ at
    → ltb s.end (add64 at bytes) || ltb (add64 at bytes) at ≡ true
    → pmm_alloc s bytes align ≡ (none, s)
unfolding pmm_alloc
refused s bytes align at e h = rw e (rw h refl)

-- The two outcomes of pmm_alloc on a valid state, for any size that a size_t has and an alignment
-- that is a power of two up to 2 ^ 32: a block as `Granted` says, or NULL with the state unchanged,
-- and then the bump pointer, `bytes` and one alignment together pass the end.
pub pmm_alloc_cases :
    (s : Pmm) (bytes k : ℕ)
    → IsValid s
    → bytes < 2 ^ 64
    → k ≤ 32
    → let r = pmm_alloc s bytes (pow2 k) in
      ((at : ℕ) × (r.0 ≡ some at) × Granted s r.1 at bytes (pow2 k))
      ⊎ ((r ≡ (none, s)) × (s.end < s.cur + pow2 k + bytes))
unfolding pmm_alloc
pmm_alloc_cases s bytes k v hb hk =
    let p : ℕ = pow2 k in
    let small : pow2 k ≤ 2 ^ 32 = pow2_mono k 32 hk in
    let (lo, near, al) =
      align_up-pow2 k (64 - k) s.cur (omega arith) (omega (arith, small, v.high, v.cur_le))
        (omega (arith, v.low)) in
    let at : ℕ = align_up s.cur (pow2 k) in
    elim (Bool-cases (ltb (at + bytes) (2 ^ 64))) [
      | inr wraps ↦
          let back : ltb (add64 at bytes) at ≡ true =
            ground (arith, small, near, v.high, v.cur_le) in
          inr (refused s bytes (pow2 k) at refl (ground (arith, back)), ground arith)
      | inl whole ↦
          let no_wrap : add64 at bytes ≡ at + bytes = ground arith in
          elim (Bool-cases (ltb s.end (at + bytes))) [
            | inl full ↦ inr (rw (no_wrap, full), ground arith)
            | inr fits ↦
                let forward : ltb (at + bytes) at ≡ false = ground arith in
                rw (no_wrap, fits, forward)
                  (inl (
                    at,
                    refl,
                    Marked-Granted s _ at bytes p v lo near al (ground arith) (
                        mark_range_owned-Marked (record s { cur = at + bytes }) at bytes
                          (omega (arith, v.low)) (ground (arith, v.high))
                          (λ i hi. v.untouched i (omega arith))),
                  ))
          ]
    ]
