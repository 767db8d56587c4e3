-- ===== src/Pmm/Pages.antt =====
-- Pages: who holds them, and the life of a page through any history of calls.
use furi_os.Prelude.{
  ℕ, ◌+◌, ◌-◌, ◌/◌, ◌^◌, ◌≤◌, ◌<◌, ◌≡◌, refl, ap, ◌∙◌, ◌⊎◌, arith, ◌==◌, ltb, if◌then◌else◌, some,
  none, Bool-cases, inl, inr,
}
use furi_os.Prelude.Bits.{pow2}
use furi_os.Pmm.{
  Pmm, page_size, page_count, clear, phys_ram_base, pmm_alloc, pmm_alloc_page, pop_free,
  pmm_ref_page, pmm_free_page, pmm_page_refcount, pmm_used_pages,
}
use furi_os.Pmm.Align.{page_at, page_index-page_at}
use furi_os.Pmm.Inv.{
  IsValid, pop_free_lem, pop_free-IsValid, pmm_ref_page-IsValid, pmm_free_page-IsValid,
  pmm_free_page_last, pmm_free_page_shared, stack_room,
}
use furi_os.Pmm.Bump.{Granted, pmm_alloc_cases}

-- Page `i`, which nobody held, has its first reference, is cleared, and nothing else has changed
-- hands.
pub record Claimed (s t : Pmm) (i : ℕ) : Type 0 where
  pub in_ram : i < page_count
  pub unheld : s.page_refs i ≡ 0
  pub refs : (k : ℕ) → t.page_refs k ≡ (if k == i then 1 else s.page_refs k)
  pub cleared : t.mem ≡ clear s.mem (page_at i) page_size
  pub used : pmm_used_pages t ≡ pmm_used_pages s + 1
  pub valid : IsValid t

pop_free-Claimed :
    (s : Pmm)
    → IsValid s
    → 0 < s.free_top
    → (i : ℕ) × ((pop_free s).0 ≡ some (page_at i)) × Claimed s (pop_free s).1 i
unfolding pmm_used_pages
pop_free-Claimed s v h =
    let (i, hi, e, below, z) = v.stack (s.free_top - 1) (omega arith) in
    let popped = pop_free_lem s i hi e in
    (
      i,
      ap (λ r. r.0) popped,
      record {
        in_ram = hi;
        unheld = z;
        refs = λ k. ap (λ r. r.1.page_refs k) popped;
        cleared = ap (λ r. r.1.mem) popped;
        used = ap (λ r. r.1.owned_pages) popped;
        valid = pop_free-IsValid s v h;
      },
    )

Granted-Claimed :
    (s t : Pmm) (at : ℕ)
    → IsValid s
    → Granted s t at page_size page_size
    → Claimed s t ((at - phys_ram_base) / page_size)
      × (at ≡ page_at ((at - phys_ram_base) / page_size))
unfolding pmm_used_pages
Granted-Claimed s t at v g =
    let (m, e) = g.aligned in
    let i : ℕ = (at - phys_ram_base) / page_size in
    let here : at ≡ page_at i = omega (arith, g.after, v.low) in
    (
      record {
        in_ram = omega (arith, g.within, v.high);
        unheld = v.untouched i (omega (arith, g.after));
        refs = λ k. ground (arith, g.refs k);
        cleared = g.cleared ∙ ap (λ a. clear s.mem a page_size) here;
        used = omega (arith, g.owned);
        valid = g.valid;
      },
      here,
    )

-- pmm_alloc_page on a valid state hands out a page of RAM that nobody held, with one reference and
-- cleared, and changes no other page's references; or it returns NULL and changes nothing, and then
-- the stack is empty and less than two pages are left above the bump pointer.
pub pmm_alloc_page_cases :
    (s : Pmm)
    → IsValid s
    → let r = pmm_alloc_page s in
      ((i : ℕ) × (r.0 ≡ some (page_at i)) × Claimed s r.1 i)
      ⊎ ((r ≡ (none, s)) × (s.free_top ≡ 0) × (s.end < s.cur + 8192))
unfolding pmm_alloc_page
pmm_alloc_page_cases s v = elim (Bool-cases (ltb 0 s.free_top)) [
  | inl some_free ↦ rw some_free (inl (pop_free-Claimed s v (ground arith)))
  | inr no_free ↦ rw no_free (elim (pmm_alloc_cases s 4096 12 v (omega arith) (omega arith)) [
    | inl (at, e, g) ↦ let (c, here) = Granted-Claimed s _ at v g in inl (_, e ∙ ap some here, c)
    | inr (e, full) ↦ inr (e, ground arith, omega arith)
  ])
]

pub pmm_alloc_page-IsValid : (s : Pmm) → IsValid s → IsValid (pmm_alloc_page s).1
pmm_alloc_page-IsValid s v = elim (pmm_alloc_page_cases s v) [
  | inl (i, e, c) ↦ c.valid
  | inr (e, _, _) ↦ rw e v
]

pub pmm_alloc-IsValid :
    (s : Pmm) (bytes k : ℕ)
    → IsValid s
    → bytes < 2 ^ 64
    → k ≤ 32
    → IsValid (pmm_alloc s bytes (pow2 k)).1
pmm_alloc-IsValid s bytes k v hb hk = elim (pmm_alloc_cases s bytes k v hb hk) [
  | inl (at, e, g) ↦ g.valid
  | inr (e, _) ↦ rw e v
]

-- When the last reference to a page goes, one page fewer is in use, nobody holds the page, and the
-- next pmm_alloc_page hands out that page again.
pub free-alloc_page :
    (s : Pmm) (i : ℕ)
    → IsValid s
    → i < page_count
    → s.page_refs i ≡ 1
    → let t = pmm_free_page s (page_at i) in
      (pmm_used_pages t + 1 ≡ pmm_used_pages s)
      × (pmm_page_refcount t (page_at i) ≡ 0)
      × ((pmm_alloc_page t).0 ≡ some (page_at i))
unfolding pmm_used_pages pmm_page_refcount pmm_alloc_page pop_free
free-alloc_page s i v h one = rw (pmm_free_page_last s i v h one) (
  omega (arith, stack_room s i v h (omega arith)),
  ground (arith, page_index-page_at i h),
  ground arith,
)

-- While another reference is left the page stays with its holders: pmm_free_page takes one
-- reference away and neither frees the page nor changes the number of pages in use.
pub free_shared :
    (s : Pmm) (i : ℕ)
    → i < page_count
    → 1 < s.page_refs i
    → let t = pmm_free_page s (page_at i) in
      (pmm_page_refcount t (page_at i) + 1 ≡ pmm_page_refcount s (page_at i))
      × (pmm_used_pages t ≡ pmm_used_pages s)
      × (t.free_top ≡ s.free_top)
unfolding pmm_used_pages pmm_page_refcount
free_shared s i h more =
    rw (pmm_free_page_shared s i h more) (ground (arith, page_index-page_at i h), refl, refl)

pub data Call : Type 0 where
  alloc : ℕ → ℕ → Call
  alloc_page : Call
  ref_page : ℕ → Call
  free_page : ℕ → Call

-- What the callers keep to: sizes that a size_t has, alignments up to 2 ^ 32, and a reference is
-- added only to a page that is held, and that has fewer than 2 ^ 32 - 1 of them. A page may be freed
-- at any time.
unfoldable pub Legal : Pmm → Call → Type 0
Legal s (alloc bytes k) = (bytes < 2 ^ 64) × (k ≤ 32)
Legal s alloc_page = Unit {0}
Legal s (ref_page i) = (i < page_count) × (0 < s.page_refs i) × (s.page_refs i < 2 ^ 32 - 1)
Legal s (free_page p) = Unit {0}

pub step : Pmm → Call → Pmm
step s (alloc bytes k) = (pmm_alloc s bytes (pow2 k)).1
step s alloc_page = (pmm_alloc_page s).1
step s (ref_page i) = pmm_ref_page s (page_at i)
step s (free_page p) = pmm_free_page s p

-- The states that legal calls reach.
pub data Reach (s : Pmm) : Pmm → Type 0 where
  here : Reach s s
  next : {t : Pmm} (c : Call) → Reach s t → Legal t c → Reach s (step t c)

step-IsValid : (s : Pmm) (c : Call) → IsValid s → Legal s c → IsValid (step s c)
unfolding step Legal
step-IsValid s (alloc bytes k) v l = pmm_alloc-IsValid s bytes k v l.0 l.1
step-IsValid s alloc_page v l = pmm_alloc_page-IsValid s v
step-IsValid s (ref_page i) v l = pmm_ref_page-IsValid s i v l.0 l.1 l.2
step-IsValid s (free_page p) v l = pmm_free_page-IsValid s p v

-- Every state that legal calls reach from a valid one is valid, where a call is legal when its size
-- and alignment are in range and a reference is added only to a page that is held and whose count of
-- references does not wrap: no page is on the stack twice, or
-- on it while someone holds it, no untouched page is held, the number of pages in use is the number
-- of pages that are held, and the stack and the pages in use fit into the range handed out.
pub Reach-IsValid : {s t : Pmm} → IsValid s → Reach s t → IsValid t
Reach-IsValid v here = v
Reach-IsValid v (next c r l) = step-IsValid _ c (Reach-IsValid v r) l

-- The fault in adding a reference to a page that nobody holds: where the page lies on top of the
-- stack, pmm_ref_page gives it a holder and leaves it there, and the next pmm_alloc_page hands the
-- held page to a second owner.
pub ref_free_page_shared :
    (s : Pmm) (i : ℕ)
    → i < page_count
    → 0 < s.free_top
    → s.free_pages (s.free_top - 1) ≡ page_at i
    → s.page_refs i ≡ 0
    → let t = pmm_ref_page s (page_at i) in
      (pmm_page_refcount t (page_at i) ≡ 1) × ((pmm_alloc_page t).0 ≡ some (page_at i))
unfolding pmm_ref_page pmm_page_refcount pmm_alloc_page pop_free
ref_free_page_shared s i h top e z = ground (arith, page_index-page_at i h)
