-- ===== src/Pmm/Inv.antt =====
-- The invariant of the allocator, and that every call keeps it.
use furi_os.Prelude.{
  ℕ, zero, suc, ◌+◌, ◌-◌, ◌*◌, ◌/◌, ◌^◌, ◌≤◌, ◌<◌, ◌≡◌, ◌≢◌, refl, sym, ap, ◌∙◌, ◌⊎◌, arith, ◌==◌,
  ltb, some, none, Bool-cases, inl, inr,
}
use furi_os.Pmm.{
  Pmm, page_size, page_count, update, clear, align_up, page_index, phys_ram_base, phys_ram_size,
  pmm_init, pop_free, reclaim, pmm_ref_page, pmm_free_page, drop_ref, push_free,
}
use furi_os.Pmm.Align.{page_at, page_index-page_at, page_index_cases, align_up_sixteen}
use furi_os.Pmm.Count.{count_held, count_held-update, count_held_none, count_held-pos}

-- A page of the stack: below the bump pointer, and nobody holds it.
abbrev pub IsFree : Pmm → ℕ → Type 0
IsFree s p =
    (i : ℕ) × (i < page_count)
    × (p ≡ page_at i)
    × (page_at i + page_size ≤ s.cur)
    × (s.page_refs i ≡ 0)

pub record IsValid (s : Pmm) : Type 0 where
  pub low : phys_ram_base ≤ s.cur
  pub cur_le : s.cur ≤ s.end
  pub high : s.end ≤ phys_ram_base + phys_ram_size
  pub stack : (k : ℕ) → k < s.free_top → IsFree s (s.free_pages k)
  pub distinct :
      (k l : ℕ) → k < s.free_top → l < s.free_top → s.free_pages k ≡ s.free_pages l → k ≡ l
  pub untouched : (i : ℕ) → s.cur < page_at i + page_size → s.page_refs i ≡ 0
  pub owned : s.owned_pages ≡ count_held page_count s.page_refs
  pub room : (s.free_top + s.owned_pages) * page_size ≤ s.cur - phys_ram_base

-- The boot call: the range lies in RAM.
pub pmm_init-IsValid :
    (s : Pmm) (start end : ℕ)
    → phys_ram_base ≤ start
    → start + 15 ≤ end
    → end ≤ phys_ram_base + phys_ram_size
    → IsValid (pmm_init s start end)
unfolding pmm_init
pmm_init-IsValid s start end lo fits hi =
    let at : align_up start 16 ≡ (start + 15) / 16 * 16 = align_up_sixteen start (omega arith) in
    record {
      low = omega (arith, at);
      cur_le = omega (arith, at);
      high = hi;
      stack = λ k h. absurd (omega arith);
      distinct = λ k l h. absurd (omega arith);
      untouched = λ i h. refl;
      owned = sym (count_held_none page_count);
      room = omega arith;
    }

-- The page that `pop_free` hands out.
pub pop_free_lem :
    (s : Pmm) (i : ℕ)
    → i < page_count
    → s.free_pages (s.free_top - 1) ≡ page_at i
    → pop_free s ≡ (
      some (page_at i),
      record s {
        free_top = s.free_top - 1;
        page_refs = update s.page_refs i 1;
        owned_pages = s.owned_pages + 1;
        mem = clear s.mem (page_at i) page_size;
      },
    )
unfolding pop_free reclaim
pop_free_lem s i h e = ground (arith, page_index-page_at i h)

pub pop_free-IsValid : (s : Pmm) → IsValid s → 0 < s.free_top → IsValid (pop_free s).1
pop_free-IsValid s v h =
    let top : ℕ = s.free_top - 1 in
    let (i, hi, e, below, z) = v.stack top (omega arith) in
    rw (pop_free_lem s i hi e) (record {
      low = v.low;
      cur_le = v.cur_le;
      high = v.high;
      stack = λ k hk.
          let (j, hj, e', below', z') = v.stack k (omega arith) in
          let apart : i ≢ j = λ same. absurd (
            omega (
              arith,
              v.distinct top k (omega arith) (omega arith) (e ∙ ap page_at same ∙ sym e'),
            )) in
          (j, hj, e', below', ground arith);
      distinct = λ k l hk hl. v.distinct k l (omega arith) (omega arith);
      untouched = λ j hj. ground (arith, v.untouched j);
      owned = ground (arith, v.owned, count_held-update page_count s.page_refs i 1);
      room = omega (arith, v.room);
    })

pub pmm_ref_page_lem :
    (s : Pmm) (i : ℕ)
    → i < page_count
    → 0 < s.page_refs i
    → s.page_refs i < 2 ^ 32 - 1
    → pmm_ref_page s (page_at i) ≡ record s { page_refs = update s.page_refs i (s.page_refs i + 1) }
unfolding pmm_ref_page
pmm_ref_page_lem s i h r few = ground (arith, page_index-page_at i h)

held_below : (s : Pmm) (i : ℕ) → IsValid s → 0 < s.page_refs i → page_at i + page_size ≤ s.cur
held_below s i v r = elim (Bool-cases (ltb s.cur (page_at i + page_size))) [
  | inl above ↦ absurd (ground (arith, v.untouched i))
  | inr below ↦ ground arith
]

not_free :
    (s : Pmm) (i k : ℕ)
    → IsValid s
    → 0 < s.page_refs i
    → k < s.free_top
    → s.free_pages k ≢ page_at i
not_free s i k v r hk e =
    let (j, hj, e', below, z) = v.stack k hk in
    let same : j ≡ i = omega (arith, e, e') in absurd (ground (arith, ap s.page_refs same))

-- The number of references of a held page changes, and stays above zero.
recount-IsValid :
    (s : Pmm) (i r : ℕ)
    → IsValid s
    → i < page_count
    → 0 < s.page_refs i
    → 0 < r
    → IsValid (record s { page_refs = update s.page_refs i r })
recount-IsValid s i r v h held pos = record {
  low = v.low;
  cur_le = v.cur_le;
  high = v.high;
  stack = λ k hk. let (j, hj, e, below, z) = v.stack k hk in (j, hj, e, below, ground arith);
  distinct = v.distinct;
  untouched = λ j hj. ground (arith, v.untouched j, held_below s i v held);
  owned = ground (arith, v.owned, count_held-update page_count s.page_refs i r);
  room = v.room;
}

-- A reference is added by someone who holds one.
pub pmm_ref_page-IsValid :
    (s : Pmm) (i : ℕ)
    → IsValid s
    → i < page_count
    → 0 < s.page_refs i
    → s.page_refs i < 2 ^ 32 - 1
    → IsValid (pmm_ref_page s (page_at i))
pmm_ref_page-IsValid s i v h r few =
    rw (pmm_ref_page_lem s i h r few) (recount-IsValid s i (s.page_refs i + 1) v h r (omega arith))

-- The state after the last reference to page `i` goes.
abbrev pub returned : Pmm → ℕ → Pmm
returned s i = record s {
  page_refs = update s.page_refs i 0;
  owned_pages = s.owned_pages - 1;
  free_pages = update s.free_pages s.free_top (page_at i);
  free_top = s.free_top + 1;
}

-- The stack of a valid state has room for every page that is held.
pub stack_room :
    (s : Pmm) (i : ℕ)
    → IsValid s
    → i < page_count
    → 0 < s.page_refs i
    → (0 < s.owned_pages) × (s.free_top < page_count)
stack_room s i v h r =
    let some_held : 0 < s.owned_pages =
      omega (arith, v.owned, count_held-pos page_count s.page_refs i h r) in
    (some_held, omega (arith, v.room, v.cur_le, v.high))

pub pmm_free_page_last :
    (s : Pmm) (i : ℕ)
    → IsValid s
    → i < page_count
    → s.page_refs i ≡ 1
    → pmm_free_page s (page_at i) ≡ returned s i
unfolding pmm_free_page drop_ref push_free
pmm_free_page_last s i v h r =
    ground (arith, page_index-page_at i h, stack_room s i v h (omega arith))

pub pmm_free_page_shared :
    (s : Pmm) (i : ℕ)
    → i < page_count
    → 1 < s.page_refs i
    → pmm_free_page s (page_at i)
      ≡ record s { page_refs = update s.page_refs i (s.page_refs i - 1) }
unfolding pmm_free_page drop_ref
pmm_free_page_shared s i h r = ground (arith, page_index-page_at i h)

pub pmm_free_page_unheld :
    (s : Pmm) (i : ℕ) → i < page_count → s.page_refs i ≡ 0 → pmm_free_page s (page_at i) ≡ s
unfolding pmm_free_page drop_ref
pmm_free_page_unheld s i h r = ground (arith, page_index-page_at i h)

pub pmm_free_page_outside : (s : Pmm) (p : ℕ) → page_index p ≡ none → pmm_free_page s p ≡ s
unfolding pmm_free_page
pmm_free_page_outside s p e = ground arith

returned-IsValid :
    (s : Pmm) (i : ℕ) → IsValid s → i < page_count → s.page_refs i ≡ 1 → IsValid (returned s i)
returned-IsValid s i v h r =
    let held : 0 < s.page_refs i = omega arith in
    record {
      low = v.low;
      cur_le = v.cur_le;
      high = v.high;
      stack = λ k hk. elim (Bool-cases (k == s.free_top)) [
        | inl new ↦ (i, h, ground arith, held_below s i v held, ground arith)
        | inr old ↦
            let (j, hj, e, below, z) = v.stack k (ground arith) in
            (j, hj, ground arith, below, ground arith)
      ];
      distinct = λ k l hk hl e.
          ground (arith, v.distinct k l, not_free s i k v held, not_free s i l v held);
      untouched = λ j hj. ground (arith, v.untouched j);
      owned = ground (arith, v.owned, count_held-update page_count s.page_refs i 0);
      room = omega (arith, v.room, stack_room s i v h held);
    }

-- Any page may be freed: one that is not RAM, that nobody holds, that others hold too, or whose
-- last reference goes.
pub pmm_free_page-IsValid : (s : Pmm) (p : ℕ) → IsValid s → IsValid (pmm_free_page s p)
pmm_free_page-IsValid s p v = elim (page_index_cases p) [
  | inl outside ↦ rw (pmm_free_page_outside s p outside) v
  | inr (i, h, at, _) ↦ rw at (held_cases i h (ℕ_cases (s.page_refs i)))
]
  where
    ℕ_cases : (n : ℕ) → (n ≡ 0) ⊎ (n ≡ 1) ⊎ (1 < n)
    ℕ_cases zero = inl refl
    ℕ_cases (suc zero) = inr (inl refl)
    ℕ_cases (suc (suc n)) = inr (inr (omega arith))

    held_cases :
        (i : ℕ)
        → i < page_count
        → (s.page_refs i ≡ 0) ⊎ (s.page_refs i ≡ 1) ⊎ (1 < s.page_refs i)
        → IsValid (pmm_free_page s (page_at i))
    held_cases i h (inl z) = rw (pmm_free_page_unheld s i h z) v
    held_cases i h (inr (inl one)) =
        rw (pmm_free_page_last s i v h one) (returned-IsValid s i v h one)
    held_cases i h (inr (inr more)) =
        rw (pmm_free_page_shared s i h more)
          (recount-IsValid s i (s.page_refs i - 1) v h (omega arith) (omega arith))
