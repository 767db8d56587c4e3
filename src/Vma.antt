-- ===== src/Vma.antt =====
-- kernel/task.c: the areas of a task's address space (`vm_area_t`) and its heap.
-- `Task` has the fields that these functions read and write. The array `t->vmas` is a list and a
-- `vm_area_t *` an index of it, `none` where it is NULL; the task pointer is not NULL. The pages that
-- a call unmaps are given as the list of addresses passed to task_unmap_user_page, in order: that
-- function clears page table entries and changes none of these fields.
pub mod Range
pub mod Unmap
mod Tests
use furi_os.Prelude.{
  ℕ, zero, suc, ◌+◌, ◌-◌, ◌*◌, ◌%◌, ◌^◌, Bool, true, false, not, ◌&&◌, ◌||◌, Option, none, some,
  List, [], ◌∷◌, ◌++◌, ltb, leb, ◌==◌, if◌then◌else◌, get_or, set, replicate, length, bit_and,
  add64, sub64,
}
use furi_os.Pmm.{page_size, align_up}

-- MAX_VMAS, USER_STACK_TOP and USER_STACK_PAGES
abbrev pub max_vmas : ℕ
max_vmas = 64

abbrev pub user_stack_top : ℕ
user_stack_top = 0x007FF000

abbrev pub user_stack_pages : ℕ
user_stack_pages = 8

pub record Area : Type 0 where
  pub start : ℕ
  pub end : ℕ
  pub file_offset : ℕ
  pub inode : Option ℕ
  pub prot : ℕ
  pub flags : ℕ
  pub used : Bool

-- what memset leaves
abbrev pub zero_area : Area
zero_area = record {
  start = 0;
  end = 0;
  file_offset = 0;
  inode = none;
  prot = 0;
  flags = 0;
  used = false;
}

pub record Task : Type 0 where
  pub vmas : List Area
  pub heap_base : ℕ
  pub heap_end : ℕ
  pub heap_limit : ℕ
  pub stack_base : ℕ

unfoldable pub task_stack_floor : Task → ℕ
task_stack_floor t =
    if not (t.stack_base == 0) then t.stack_base else user_stack_top - user_stack_pages * page_size

slot_from : ℕ → List Area → Option ℕ
slot_from i [] = none
slot_from i (v ∷ vs) = let rest = slot_from (i + 1) vs in if not v.used then some i else rest

unfoldable pub task_vma_slot : List Area → Option ℕ
unfolding slot_from
task_vma_slot vs = slot_from 0 vs

abbrev pub contains : ℕ → Area → Bool
contains va v = v.used && leb v.start va && ltb va v.end

-- The first area that contains the address.
unfoldable pub task_vma_find : List Area → ℕ → Option Area
task_vma_find [] va = none
task_vma_find (v ∷ vs) va = let rest = task_vma_find vs va in if contains va v then some v else rest

overlaps_any : List Area → (start end : ℕ) → Bool
overlaps_any [] start end = false
overlaps_any (v ∷ vs) start end =
    let rest = overlaps_any vs start end in
    if not v.used then rest else if ltb start v.end && ltb v.start end then true else rest

unfoldable pub task_vma_overlaps : List Area → (start end : ℕ) → Bool
unfolding overlaps_any
task_vma_overlaps vs start end = if leb end start then true else overlaps_any vs start end

-- `while (cur < end)`, at most `fuel` rounds; false when they do not suffice.
unfoldable pub mapped_loop : (fuel : ℕ) → List Area → (cur end : ℕ) → Bool
mapped_loop zero vs cur end = leb end cur
mapped_loop (suc fuel) vs cur end = if leb end cur then true else elim (task_vma_find vs cur) [
  | none ↦ false
  | some v ↦
      let rest = mapped_loop fuel vs (if ltb v.end end then v.end else end) end in
      if leb v.end cur then false else rest
]

-- Every round moves `cur` up, so the length of the range is fuel enough.
unfoldable pub task_vma_range_mapped : List Area → (start end : ℕ) → Bool
task_vma_range_mapped vs start end =
    if leb end start then false else mapped_loop (end - start) vs start end

unfoldable pub limit_loop : (heap_end limit : ℕ) → List Area → ℕ
limit_loop heap_end limit [] = limit
limit_loop heap_end limit (v ∷ vs) =
    limit_loop heap_end
      (if v.used && leb heap_end v.start && ltb v.start limit then v.start else limit) vs

unfoldable pub task_recompute_heap_limit : Task → Task
task_recompute_heap_limit t = record t {
  heap_limit = limit_loop t.heap_end (task_stack_floor t) t.vmas;
}

unfoldable pub task_clear_vmas : Task → Task
task_clear_vmas t = task_recompute_heap_limit (record t { vmas = replicate max_vmas zero_area })

-- `for (va = from; va < to; va += PAGE_SIZE)`, at most `fuel` rounds
unfoldable pub pages_between : (fuel from to : ℕ) → List ℕ
pages_between zero from to = []
pages_between (suc fuel) from to =
    let rest = pages_between fuel (from + page_size) to in if ltb from to then from ∷ rest else []

-- The value returned (`none` for -1), the task, and the pages unmapped.
unfoldable pub task_brk : Task → ℕ → Option ℕ × Task × List ℕ
task_brk t new_break =
    if new_break == 0
    then (some t.heap_end, t, [])
    else if ltb new_break t.heap_base || ltb t.heap_limit new_break
    then (none, t, [])
    else let old_top = align_up t.heap_end page_size in
      let new_top = align_up new_break page_size in
      (
        some new_break,
        record t { heap_end = new_break },
        if ltb new_top old_top then pages_between (old_top - new_top) new_top old_top else [],
      )

unfoldable pub task_vma_free_slots : List Area → ℕ
task_vma_free_slots [] = 0
task_vma_free_slots (v ∷ vs) =
    let rest = task_vma_free_slots vs in if not v.used then rest + 1 else rest

-- Area `i` is cut at `addr`, the upper part goes to slot `s`.
abbrev pub split_area : List Area → (i s addr : ℕ) → List Area
split_area vs i s addr =
    let v = get_or vs i zero_area in
    set
      (set vs s (record v { start = addr; file_offset = add64 v.file_offset (sub64 addr v.start) }))
      i (record v { end = addr })

unfoldable pub split_from : List Area → (i addr : ℕ) → List Area → Bool × List Area
split_from vs i addr [] = (true, vs)
split_from vs i addr (v ∷ rest) =
    let later = split_from vs (i + 1) addr rest in
    if not v.used
    then later
    else if leb addr v.start || leb v.end addr
    then later
    else elim (task_vma_slot vs) [ none ↦ (false, vs) | some s ↦ (true, split_area vs i s addr) ]

unfoldable pub task_vma_split_at : List Area → ℕ → Bool × List Area
task_vma_split_at vs addr =
    if not (bit_and addr (page_size - 1) == 0) then (false, vs) else split_from vs 0 addr vs

abbrev pub outside : (start end : ℕ) → Area → Bool
outside start end v = leb end v.start || leb v.end start

need_loop : (start end : ℕ) → List Area → ℕ
need_loop start end [] = 0
need_loop start end (v ∷ vs) =
    let rest = need_loop start end vs in
    if not v.used
    then rest
    else if outside start end v
    then rest
    else let cut_start = if ltb v.start start then start else v.start in
      let cut_end = if ltb end v.end then end else v.end in
      if ltb v.start cut_start && ltb cut_end v.end then rest + 1 else rest

-- `none` where the code returns a negative number
unfoldable pub task_vma_split_need : List Area → (start end : ℕ) → Option ℕ
unfolding need_loop
task_vma_split_need vs start end = if leb end start then none else some (need_loop start end vs)

-- The last case of a round of task_vma_unmap_range: the range is inside area `i`, and the part above
-- it goes to a free slot, if there is one.
unfoldable pub cut_middle : List Area → (i cut_start cut_end : ℕ) → Option ℕ → Bool × List Area
cut_middle vs i cut_start cut_end none = (false, vs)
cut_middle vs i cut_start cut_end (some s) =
    let v = get_or vs i zero_area in
    (
      true,
      set
          (set vs s (record v {
            start = cut_end;
            file_offset = add64 v.file_offset (sub64 cut_end v.start);
          }))
          i (record v { end = cut_start }),
    )

-- One round of that loop on area `i`; false where the function returns false.
unfoldable pub cut_area : List Area → (i start end : ℕ) → Bool × List Area
cut_area vs i start end =
    let v = get_or vs i zero_area in
    let cut_start = if ltb v.start start then start else v.start in
    let cut_end = if ltb end v.end then end else v.end in
    if leb cut_start v.start && leb v.end cut_end
    then (true, set vs i zero_area)
    else if leb cut_start v.start
    then (
      true,
      set vs i (record v {
        start = cut_end;
        file_offset = add64 v.file_offset (sub64 cut_end cut_start);
      }),
    )
    else if leb v.end cut_end
    then (true, set vs i (record v { end = cut_start }))
    else cut_middle vs i cut_start cut_end (task_vma_slot vs)

-- The pages that the same round unmaps first.
abbrev pub cut_pages : Area → (start end : ℕ) → List ℕ
cut_pages v start end =
    let cut_start = if ltb v.start start then start else v.start in
    let cut_end = if ltb end v.end then end else v.end in
    pages_between (cut_end - cut_start) cut_start cut_end

-- The `k` rounds left, from area `i` on.
unfoldable pub unmap_loop : (k i : ℕ) → List Area → (start end : ℕ) → Bool × List Area × List ℕ
unmap_loop zero i vs start end = (true, vs, [])
unmap_loop (suc k) i vs start end =
    let v = get_or vs i zero_area in
    let skip = unmap_loop k (i + 1) vs start end in
    let (ok, vs') = cut_area vs i start end in
    let (ok', vs'', pages) = unmap_loop k (i + 1) vs' start end in
    let mine = cut_pages v start end in
    if not v.used
    then skip
    else if outside start end v
    then skip
    else if not ok
    then (false, vs', mine)
    else (ok', vs'', mine ++ pages)

-- `need < 0 || task_vma_free_slots(t) < need`
unfoldable pub lacks_slots : List Area → Option ℕ → Bool
lacks_slots vs none = true
lacks_slots vs (some need) = ltb (task_vma_free_slots vs) need

unfoldable pub task_vma_unmap_range :
    Task → (start end : ℕ) → (require_mapped : Bool) → Bool × Task × List ℕ
task_vma_unmap_range t start end require_mapped =
    if leb end start
    then (false, t, [])
    else if require_mapped && not (task_vma_range_mapped t.vmas start end)
    then (false, t, [])
    else let (ok, vs, pages) = unmap_loop max_vmas 0 t.vmas start end in
      if lacks_slots t.vmas (task_vma_split_need t.vmas start end)
      then (false, t, [])
      else if not ok
      then (false, record t { vmas = vs }, pages)
      else (true, task_recompute_heap_limit (record t { vmas = vs }), pages)
