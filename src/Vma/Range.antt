-- ===== src/Vma/Range.antt =====
-- Which addresses the areas of kernel/task.c map, and how far the heap may grow.
use furi_os.Prelude.{
  ℕ, zero, suc, ◌+◌, ◌-◌, ◌≤◌, ◌<◌, ◌≡◌, refl, ◌≢◌, ◌⊎◌, inl, inr, true, false, ◌&&◌, none, some,
  List, [], ◌∷◌, ltb, leb, if◌then◌else◌, Bool-cases, Option-cases, arith,
}
use furi_os.Vma.{
  Area, Task, task_vma_find, overlaps_any, task_vma_overlaps, mapped_loop, task_vma_range_mapped,
  limit_loop, task_recompute_heap_limit, task_stack_floor, task_brk,
}

overlaps_any_lem :
    (vs : List Area) (start end va : ℕ)
    → overlaps_any vs start end ≡ false
    → start ≤ va
    → va < end
    → task_vma_find vs va ≡ none
unfolding overlaps_any task_vma_find
overlaps_any_lem [] start end va h l u = refl
overlaps_any_lem (v ∷ vs) start end va h l u = ground (arith, overlaps_any_lem vs start end va)

-- When task_vma_overlaps is false, the range is not empty and no address of it lies in an area.
pub task_vma_overlaps_lem :
    (vs : List Area) (start end : ℕ)
    → task_vma_overlaps vs start end ≡ false
    → (start < end) × ((va : ℕ) → start ≤ va → va < end → task_vma_find vs va ≡ none)
unfolding task_vma_overlaps
task_vma_overlaps_lem vs start end h =
    (ground arith, λ va l u. overlaps_any_lem vs start end va (ground arith) l u)

find_end :
    (vs : List Area) (va : ℕ) (v : Area)
    → task_vma_find vs va ≡ some v
    → (v.used ≡ true) × (v.start ≤ va) × (va < v.end)
unfolding task_vma_find
find_end [] va v h = absurd (ground arith)
find_end (w ∷ vs) va v h = ground (arith, find_end vs va v)

find_same_area :
    (vs : List Area) (cur va : ℕ) (v : Area)
    → task_vma_find vs cur ≡ some v
    → cur ≤ va
    → va < v.end
    → (task_vma_find vs va ≡ none)
    → ⊥
unfolding task_vma_find
find_same_area [] cur va v h l u n = absurd (ground arith)
find_same_area (w ∷ vs) cur va v h l u n =
    ground (arith, find_same_area vs cur va v, find_end (w ∷ vs) cur v h)

mapped_loop_sound :
    (fuel : ℕ) (vs : List Area) (cur end : ℕ)
    → mapped_loop fuel vs cur end ≡ true
    → (va : ℕ) → cur ≤ va
    → va < end
    → task_vma_find vs va ≢ none
unfolding mapped_loop
mapped_loop_sound zero vs cur end h va l u n = absurd (ground arith)
mapped_loop_sound (suc fuel) vs cur end h va l u n = elim (Option-cases (task_vma_find vs cur)) [
  | inl e ↦ absurd (ground (arith, e))
  | inr found ↦
      let v = found.0 in
      elim (Bool-cases (ltb va v.end)) [
        | inl b ↦ find_same_area vs cur va v found.1 l (ground arith) n
        | inr b ↦
            mapped_loop_sound fuel vs (if ltb v.end end then v.end else end) end
              (ground (arith, found.1)) va (ground arith) u n
      ]
]

-- When task_vma_range_mapped is true, every address of the range lies in an area.
pub task_vma_range_mapped_lem :
    (vs : List Area) (start end : ℕ)
    → task_vma_range_mapped vs start end ≡ true
    → (va : ℕ) → start ≤ va
    → va < end
    → task_vma_find vs va ≢ none
unfolding task_vma_range_mapped
task_vma_range_mapped_lem vs start end h va l u =
    mapped_loop_sound (end - start) vs start end (ground arith) va l u

mapped_loop_complete :
    (fuel : ℕ) (vs : List Area) (cur end : ℕ)
    → end ≤ cur + fuel
    → ((va : ℕ) → cur ≤ va → va < end → task_vma_find vs va ≢ none)
    → mapped_loop fuel vs cur end ≡ true
unfolding mapped_loop
mapped_loop_complete zero vs cur end h all = ground arith
mapped_loop_complete (suc fuel) vs cur end h all = elim (Bool-cases (leb end cur)) [
  | inl e ↦ ground arith
  | inr e ↦ elim (Option-cases (task_vma_find vs cur)) [
    | inl q ↦ absurd (all cur (omega arith) (ground arith) q)
    | inr found ↦
        let v = found.0 in
        let at = find_end vs cur v found.1 in
        let next : ℕ = if ltb v.end end then v.end else end in
        let rest =
          mapped_loop_complete fuel vs next end (ground (arith, at))
            (λ va l u. all va (ground (arith, at)) u) in
        ground (arith, found.1, at, rest)
  ]
]

-- When every address of a range that is not empty lies in an area, task_vma_range_mapped is true.
pub task_vma_range_mapped_complete :
    (vs : List Area) (start end : ℕ)
    → start < end
    → ((va : ℕ) → start ≤ va → va < end → task_vma_find vs va ≢ none)
    → task_vma_range_mapped vs start end ≡ true
unfolding task_vma_range_mapped
task_vma_range_mapped_complete vs start end h all =
    ground (arith, mapped_loop_complete (end - start) vs start end (omega arith) all)

-- Each used area that starts at or above the heap's end starts at or above the limit.
unfoldable pub Above : (heap_end limit : ℕ) → List Area → Type 0
Above heap_end limit [] = Unit
Above heap_end limit (v ∷ vs) =
    (v.used ≡ true → heap_end ≤ v.start → limit ≤ v.start) × Above heap_end limit vs

limit_loop_lem :
    (heap_end limit : ℕ) (vs : List Area)
    → (limit_loop heap_end limit vs ≤ limit) × Above heap_end (limit_loop heap_end limit vs) vs
unfolding limit_loop Above
limit_loop_lem heap_end limit [] = (omega arith, tt)
limit_loop_lem heap_end limit (v ∷ vs) =
    let limit' : ℕ =
      if v.used && leb heap_end v.start && ltb v.start limit then v.start else limit in
    let rest = limit_loop_lem heap_end limit' vs in
    (ground (arith, rest.0), ((λ u a. ground (arith, rest.0)), rest.1))

-- task_recompute_heap_limit puts the limit at or below the floor of the stack, and no used area
-- starts between the heap's end and the limit.
pub task_recompute_heap_limit_lem :
    (t : Task)
    → let t' = task_recompute_heap_limit t in
      (t'.heap_limit ≤ task_stack_floor t) × Above t.heap_end t'.heap_limit t.vmas
unfolding task_recompute_heap_limit
task_recompute_heap_limit_lem t = limit_loop_lem t.heap_end (task_stack_floor t) t.vmas

-- task_brk returns the heap's end for zero, fails outside [heap_base, heap_limit] and changes
-- nothing then, and else moves the heap's end there, so that the end stays within those bounds.
pub task_brk_lem :
    (t : Task) (new_break : ℕ)
    → t.heap_base ≤ t.heap_end
    → t.heap_end ≤ t.heap_limit
    → let (r, t', pages) = task_brk t new_break in
      (((new_break ≡ 0) × (r ≡ some t.heap_end) × (t' ≡ t))
        ⊎ ((r ≡ none) × (t' ≡ t) × ((new_break < t.heap_base) ⊎ (t.heap_limit < new_break)))
        ⊎ ((r ≡ some new_break) × (t'.heap_end ≡ new_break)))
      × (t'.heap_base ≤ t'.heap_end)
      × (t'.heap_end ≤ t'.heap_limit)
unfolding task_brk
task_brk_lem t new_break b l = ground arith
