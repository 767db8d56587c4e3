-- ===== src/Pmm/Mark.antt =====
-- The marking loop of the bump allocator.
use furi_os.Prelude.{
  add64, ℕ, zero, suc, ◌+◌, ◌-◌, ◌/◌, false, ◌≤◌, ◌<◌, ◌≡◌, refl, arith, ◌==◌, ltb, leb, ◌&&◌,
  if◌then◌else◌, Bool-cases, inl, inr,
}
use furi_os.Pmm.{
  Pmm, page_size, page_count, update, mark_page_owned, mark_loop, mark_range_owned, align_up,
  align_down, phys_ram_base, phys_ram_size,
}
use furi_os.Pmm.Align.{page_at, page_index-page_at, align_up-page, align_down-page}
use furi_os.Pmm.Count.{count_held, count_held-update}

-- The pages from `i` up to `j` have one reference each, and nothing else has changed.
pub record Marked (i j : ℕ) (s t : Pmm) : Type 0 where
  pub cur : t.cur ≡ s.cur
  pub end : t.end ≡ s.end
  pub stack : t.free_pages ≡ s.free_pages
  pub top : t.free_top ≡ s.free_top
  pub mem : t.mem ≡ s.mem
  pub refs : (k : ℕ) → t.page_refs k ≡ (if leb i k && ltb k j then 1 else s.page_refs k)
  pub owned : t.owned_pages ≡ s.owned_pages + (j - i)
  pub counted :
      s.owned_pages ≡ count_held page_count s.page_refs
      → t.owned_pages ≡ count_held page_count t.page_refs

mark_page_owned_lem :
    (s : Pmm) (i : ℕ)
    → i < page_count
    → s.page_refs i ≡ 0
    → mark_page_owned s (page_at i)
      ≡ record s { page_refs = update s.page_refs i 1; owned_pages = s.owned_pages + 1 }
unfolding mark_page_owned
mark_page_owned_lem s i h z = ground (arith, page_index-page_at i h)

Marked-none : (i j : ℕ) (s : Pmm) → j ≤ i → Marked i j s s
Marked-none i j s h = record {
  cur = refl;
  end = refl;
  stack = refl;
  top = refl;
  mem = refl;
  refs = λ k. ground arith;
  owned = omega arith;
  counted = λ e. e;
}

Marked-step :
    (i j : ℕ) (s t : Pmm)
    → i < j
    → j ≤ page_count
    → s.page_refs i ≡ 0
    → Marked
        (suc i)
        j
        (record s { page_refs = update s.page_refs i 1; owned_pages = s.owned_pages + 1 })
        t
    → Marked i j s t
Marked-step i j s t h hj z m = record {
  cur = m.cur;
  end = m.end;
  stack = m.stack;
  top = m.top;
  mem = m.mem;
  refs = λ k. ground (arith, m.refs k);
  owned = omega (arith, m.owned);
  counted = λ e. m.counted (ground (arith, count_held-update page_count s.page_refs i 1));
}

pub mark_loop-Marked :
    (fuel i j : ℕ) (s : Pmm)
    → j < fuel + i
    → j ≤ page_count
    → ((k : ℕ) → i ≤ k → s.page_refs k ≡ 0)
    → Marked i j s (mark_loop fuel (page_at i) (page_at j) s).1
unfolding mark_loop
mark_loop-Marked zero i j s hf hj z = Marked-none i j s (omega arith)
mark_loop-Marked (suc fuel) i j s hf hj z = elim (Bool-cases (ltb (page_at i) (page_at j))) [
  | inr done ↦ rw done (Marked-none i j s (ground arith))
  | inl more ↦
      let lt : i < j = ground arith in
      let next : add64 (page_at i) page_size ≡ page_at (suc i) = omega arith in
      rw (more, next, mark_page_owned_lem s i (omega arith) (z i (omega arith)))
        (Marked-step i j s _ lt hj (z i (omega arith))
          (mark_loop-Marked fuel (suc i) j _ (omega arith) hj (λ k hk. ground (arith, z k))))
]

-- A range inside RAM whose pages nobody holds: its whole pages get a reference each.
pub mark_range_owned-Marked :
    (s : Pmm) (base bytes : ℕ)
    → phys_ram_base ≤ base
    → base + bytes ≤ phys_ram_base + phys_ram_size
    → ((k : ℕ) → base ≤ page_at k → s.page_refs k ≡ 0)
    → let i = (base - phys_ram_base + 4095) / page_size in
      let j = (base + bytes - phys_ram_base) / page_size in
      Marked i j s (mark_range_owned s base bytes)
unfolding mark_range_owned
mark_range_owned-Marked s base bytes lo hi z =
    let i : ℕ = (base - phys_ram_base + 4095) / page_size in
    let j : ℕ = (base + bytes - phys_ram_base) / page_size in
    let no_wrap : add64 base bytes ≡ base + bytes = omega arith in
    let forward : ltb (base + bytes) base ≡ false = ground arith in
    let start : align_up base page_size ≡ page_at i =
      omega (arith, align_up-page base (omega arith)) in
    let stop : align_down (base + bytes) page_size ≡ page_at j =
      omega (arith, align_down-page (base + bytes) (omega arith)) in
    elim (Bool-cases (bytes == 0)) [
      | inl empty ↦ rw empty (Marked-none i j s (ground arith))
      | inr some_bytes ↦
          rw (some_bytes, no_wrap, forward, start, stop)
            (mark_loop-Marked (bytes / page_size + 1) i j s (omega arith) (omega arith)
              (λ k hk. z k (omega arith)))
    ]
