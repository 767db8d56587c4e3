-- ===== src/Pmm/Tests.antt =====
-- The page allocator at concrete inputs: 253 MiB of RAM, and one page handed out.
use furi_os.Prelude.{ℕ, ◌+◌, ◌<◌, ◌≡◌, refl, ◌⊎◌, arith, some, none}
use furi_os.Prelude.Bits.{pow2}
use furi_os.Pmm.{
  Pmm, align_up, align_down, page_index, mark_page_owned, mark_loop, mark_range_owned, pmm_init,
  pmm_alloc, pmm_alloc_page, pmm_ref_page, pmm_free_page, pmm_page_refcount, pmm_used_pages,
  pmm_available_pages,
}
use furi_os.Pmm.Align.{page_at}
use furi_os.Pmm.Inv.{IsValid, pmm_init-IsValid}
use furi_os.Pmm.Bump.{Granted, pmm_alloc_cases}
use furi_os.Pmm.Pages.{
  Claimed, pmm_alloc_page_cases, pmm_alloc_page-IsValid, free-alloc_page, free_shared, Reach, here,
  next, alloc_page, free_page, Legal, step, Reach-IsValid, ref_free_page_shared,
}

abbrev blank : Pmm
blank = record {
  cur = 0;
  end = 0;
  free_pages = λ _. 0;
  free_top = 0;
  page_refs = λ _. 9;
  owned_pages = 3;
  mem = λ _. 255;
}

abbrev boot : Pmm
boot = pmm_init blank 0x40300000 0x50000000

abbrev one_page : Pmm
one_page = (pmm_alloc_page boot).1

available_at_boot : pmm_available_pages boot ≡ 64768
unfolding pmm_available_pages pmm_init align_up
available_at_boot = refl

first_page : (pmm_alloc_page boot).0 ≡ some 0x40300000
unfolding pmm_alloc_page pmm_alloc pmm_init align_up
first_page = refl

first_page_held : one_page.page_refs 768 ≡ 1
unfolding pmm_alloc_page pmm_alloc pmm_init align_up align_down mark_range_owned mark_loop
    mark_page_owned page_index
first_page_held = refl

boot-IsValid : IsValid boot
boot-IsValid =
    pmm_init-IsValid blank 0x40300000 0x50000000 (omega arith) (omega arith) (omega arith)

one_page-IsValid : IsValid one_page
one_page-IsValid = pmm_alloc_page-IsValid boot boot-IsValid

pmm_init-IsValid_example : IsValid boot
pmm_init-IsValid_example =
    pmm_init-IsValid blank 0x40300000 0x50000000 (omega arith) (omega arith) (omega arith)

pmm_alloc_cases_example :
    let r = pmm_alloc boot 100 (pow2 4) in
    ((at : ℕ) × (r.0 ≡ some at) × Granted boot r.1 at 100 (pow2 4))
    ⊎ ((r ≡ (none, boot)) × (boot.end < boot.cur + pow2 4 + 100))
pmm_alloc_cases_example = pmm_alloc_cases boot 100 4 boot-IsValid (omega arith) (omega arith)

pmm_alloc_page_cases_example :
    let r = pmm_alloc_page boot in
    ((i : ℕ) × (r.0 ≡ some (page_at i)) × Claimed boot r.1 i)
    ⊎ ((r ≡ (none, boot)) × (boot.free_top ≡ 0) × (boot.end < boot.cur + 8192))
pmm_alloc_page_cases_example = pmm_alloc_page_cases boot boot-IsValid

free-alloc_page_test :
    let t = pmm_free_page one_page (page_at 768) in
    (pmm_used_pages t + 1 ≡ pmm_used_pages one_page)
    × (pmm_page_refcount t (page_at 768) ≡ 0)
    × ((pmm_alloc_page t).0 ≡ some (page_at 768))
free-alloc_page_test = free-alloc_page one_page 768 one_page-IsValid (omega arith) first_page_held

abbrev shared_page : Pmm
shared_page = record one_page { page_refs = λ _. 2 }

free_shared_test :
    let t = pmm_free_page shared_page (page_at 768) in
    (pmm_page_refcount t (page_at 768) + 1 ≡ pmm_page_refcount shared_page (page_at 768))
    × (pmm_used_pages t ≡ pmm_used_pages shared_page)
    × (t.free_top ≡ shared_page.free_top)
free_shared_test = free_shared shared_page 768 (omega arith) (omega arith)

alloc_and_free : Reach boot (step (step boot alloc_page) (free_page 0x40300000))
unfolding Legal
alloc_and_free = next (free_page 0x40300000) (next alloc_page here tt) tt

Reach-IsValid_example : IsValid (step (step boot alloc_page) (free_page 0x40300000))
Reach-IsValid_example = Reach-IsValid boot-IsValid alloc_and_free

-- One free page, on the stack.
abbrev stacked : Pmm
stacked = record blank { free_pages = λ _. page_at 700; free_top = 1; page_refs = λ _. 0 }

ref_free_page_shared_example :
    let t = pmm_ref_page stacked (page_at 700) in
    (pmm_page_refcount t (page_at 700) ≡ 1) × ((pmm_alloc_page t).0 ≡ some (page_at 700))
ref_free_page_shared_example =
    ref_free_page_shared stacked 700 (omega arith) (omega arith) refl refl
