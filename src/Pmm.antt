-- ===== src/Pmm.antt =====
-- kernel/pmm.c: the allocator of physical pages, a bump pointer with a stack of freed pages and a
-- reference count for each page of RAM.
-- An array is a function of its index, and physical memory a function of the address. Sums of
-- `uint64_t` wrap where they can, and a page's reference count, a `uint32_t`, does; `owned_pages` and
-- `free_top` are natural numbers, since no call raises them above the number of pages in valid states.
pub mod Align
pub mod Count
pub mod Mark
pub mod Inv
pub mod Bump
pub mod Pages
mod Tests
use Prim.Native.Nat.{bit_and}
use furi_os.Prelude.{
  add64, sub64, not64, ℕ, zero, suc, ◌+◌, ◌-◌, ◌*◌, ◌/◌, ◌%◌, ◌^◌, Bool, true, false, not, ◌&&◌,
  ◌||◌, Option, none, some, ltb, leb, ◌==◌, if◌then◌else◌,
}

-- PAGE_SIZE, PHYS_RAM_BASE, PHYS_RAM_SIZE and the length of the two arrays
abbrev pub page_size : ℕ
page_size = 4096

abbrev pub phys_ram_base : ℕ
phys_ram_base = 0x40000000

abbrev pub phys_ram_size : ℕ
phys_ram_size = 0x10000000

abbrev pub page_count : ℕ
page_count = 65536

pub record Pmm : Type 0 where
  pub cur : ℕ
  pub end : ℕ
  pub free_pages : ℕ → ℕ
  pub free_top : ℕ
  pub page_refs : ℕ → ℕ
  pub owned_pages : ℕ
  pub mem : ℕ → ℕ

abbrev pub update : (ℕ → ℕ) → ℕ → ℕ → ℕ → ℕ
update f i v j = if j == i then v else f j

-- `memset((void *)at, 0, n)`
abbrev pub clear : (ℕ → ℕ) → ℕ → ℕ → ℕ → ℕ
clear mem at n a = if leb at a && ltb a (at + n) then 0 else mem a

unfoldable pub align_up : ℕ → ℕ → ℕ
align_up x align = bit_and (sub64 (add64 x align) 1) (not64 (sub64 align 1))

pub align_down : ℕ → ℕ → ℕ
align_down x align = bit_and x (not64 (sub64 align 1))

-- `none` for -1
pub page_index : ℕ → Option ℕ
page_index p =
    if not (bit_and p (page_size - 1) == 0)
    then none
    else if ltb p phys_ram_base || leb (phys_ram_base + phys_ram_size) p
    then none
    else some ((p - phys_ram_base) / page_size)

own : Pmm → ℕ → Pmm
own s i = record s { page_refs = update s.page_refs i 1; owned_pages = s.owned_pages + 1 }

pub mark_page_owned : Pmm → ℕ → Pmm
unfolding own
mark_page_owned s p = elim (page_index p) [
  | none ↦ s
  | some i ↦ if s.page_refs i == 0 then own s i else s
]

-- `while (p < limit)`, with fuel; the address reached comes back with the state.
pub mark_loop : ℕ → ℕ → ℕ → Pmm → ℕ × Pmm
mark_loop zero p limit s = (p, s)
mark_loop (suc fuel) p limit s =
    let rest = mark_loop fuel (add64 p page_size) limit (mark_page_owned s p) in
    if ltb p limit then rest else (p, s)

pub mark_range_owned : Pmm → ℕ → ℕ → Pmm
mark_range_owned s base bytes =
    if bytes == 0
    then s
    else let end = add64 base bytes in
      if ltb end base
      then s
      else (mark_loop (bytes / page_size + 1) (align_up base page_size) (align_down end page_size)
          s).1

-- The arrays and memory outside the module's variables are what they were.
pub pmm_init : Pmm → ℕ → ℕ → Pmm
pmm_init s start end = record s {
  cur = align_up start 16;
  end = end;
  free_top = 0;
  owned_pages = 0;
  page_refs = λ _. 0;
}

-- `none` for a null pointer
pub pmm_alloc : Pmm → ℕ → ℕ → Option ℕ × Pmm
pmm_alloc s bytes align =
    let cur = align_up s.cur align in
    let next = add64 cur bytes in
    if ltb s.end next || ltb next cur
    then (none, s)
    else let s' = mark_range_owned (record s { cur = next }) cur bytes in
      (some cur, record s' { mem = clear s'.mem cur bytes })

-- The reference of a page taken from the stack.
pub reclaim : Pmm → ℕ → Pmm
unfolding own
reclaim s p = elim (page_index p) [ none ↦ s | some i ↦ own s i ]

-- `free_pages[--free_top]`, claimed and cleared
pub pop_free : Pmm → Option ℕ × Pmm
unfolding reclaim
pop_free s =
    let p = s.free_pages (s.free_top - 1) in
    let s' = reclaim (record s { free_top = s.free_top - 1 }) p in
    (some p, record s' { mem = clear s'.mem p page_size })

pub pmm_alloc_page : Pmm → Option ℕ × Pmm
pmm_alloc_page s = if ltb 0 s.free_top then pop_free s else pmm_alloc s 4096 4096

pub pmm_ref_page : Pmm → ℕ → Pmm
unfolding own
pmm_ref_page s p = elim (page_index p) [
  | none ↦ s
  | some i ↦
      if s.page_refs i == 0
      then own s i
      else record s { page_refs = update s.page_refs i ((s.page_refs i + 1) % 2 ^ 32) }
]

pub pmm_page_refcount : Pmm → ℕ → ℕ
pmm_page_refcount s p = elim (page_index p) [ none ↦ 0 | some i ↦ s.page_refs i ]

-- The last reference to a page goes: it is pushed on the stack, if that has room.
pub push_free : Pmm → ℕ → Pmm
push_free s p =
    let owned = if ltb 0 s.owned_pages then s.owned_pages - 1 else s.owned_pages in
    if ltb s.free_top page_count
    then record s {
      owned_pages = owned;
      free_pages = update s.free_pages s.free_top p;
      free_top = s.free_top + 1;
    }
    else record s { owned_pages = owned }

drop_ref : Pmm → ℕ → ℕ → Pmm
unfolding push_free
drop_ref s p i =
    if s.page_refs i == 0
    then s
    else let s' = record s { page_refs = update s.page_refs i (s.page_refs i - 1) } in
      if not (s'.page_refs i == 0) then s' else push_free s' p

pub pmm_free_page : Pmm → ℕ → Pmm
unfolding drop_ref
pmm_free_page s p = if p == 0 then s else elim (page_index p) [ none ↦ s | some i ↦ drop_ref s p i ]

pub pmm_total_pages : ℕ
pmm_total_pages = phys_ram_size / page_size

pub pmm_used_pages : Pmm → ℕ
pmm_used_pages s = s.owned_pages

pub pmm_available_pages : Pmm → ℕ
pmm_available_pages s =
    let cur = align_up s.cur page_size in
    let bump = if ltb cur s.end then (s.end - cur) / page_size else 0 in s.free_top + bump
