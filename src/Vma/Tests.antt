-- ===== src/Vma/Tests.antt =====
-- The theorems on a task's areas at concrete inputs.
use furi_os.Prelude.{
  ℕ, ◌≤◌, ◌<◌, ◌≡◌, refl, ◌⊎◌, ◌≢◌, true, false, none, some, List, [], ◌∷◌, arith,
}
use furi_os.Vma.{
  Area, Task, zero_area, task_vma_find, task_vma_overlaps, task_vma_range_mapped,
  task_recompute_heap_limit, task_stack_floor, task_brk, task_vma_unmap_range, unmap_loop,
  mapped_loop, cut_area, cut_middle, lacks_slots, task_vma_split_need, task_vma_free_slots,
  task_vma_slot,
}
use furi_os.Vma.Range.{
  Above, task_vma_overlaps_lem, task_vma_range_mapped_lem, task_vma_range_mapped_complete,
  task_recompute_heap_limit_lem, task_brk_lem,
}
use furi_os.Vma.Unmap.{task_vma_unmap_range_lem}

-- three pages from 0x10000 on, and a free slot
abbrev three_pages : List Area
three_pages =
    record zero_area { start = 0x10000; end = 0x13000; prot = 3; used = true } ∷ zero_area ∷ []

abbrev small_task : Task
small_task = record {
  vmas = three_pages;
  heap_base = 0x8000;
  heap_end = 0x9000;
  heap_limit = 0x10000;
  stack_base = 0;
}

apart : task_vma_overlaps three_pages 0x20000 0x21000 ≡ false
unfolding task_vma_overlaps
apart = refl

task_vma_overlaps_lem_test :
    (0x20000 < 0x21000)
    × ((va : ℕ) → 0x20000 ≤ va → va < 0x21000 → task_vma_find three_pages va ≡ none)
task_vma_overlaps_lem_test = task_vma_overlaps_lem three_pages 0x20000 0x21000 apart

four_bytes : task_vma_range_mapped three_pages 0x10000 0x10004 ≡ true
unfolding task_vma_range_mapped mapped_loop task_vma_find
four_bytes = refl

task_vma_range_mapped_lem_example : task_vma_find three_pages 0x10002 ≢ none
task_vma_range_mapped_lem_example =
    task_vma_range_mapped_lem three_pages 0x10000 0x10004 four_bytes 0x10002 (omega arith)
      (omega arith)

all_four : (va : ℕ) → 0x10000 ≤ va → va < 0x10004 → task_vma_find three_pages va ≢ none
all_four va l u = task_vma_range_mapped_lem three_pages 0x10000 0x10004 four_bytes va l u

task_vma_range_mapped_complete_example : task_vma_range_mapped three_pages 0x10000 0x10004 ≡ true
task_vma_range_mapped_complete_example =
    task_vma_range_mapped_complete three_pages 0x10000 0x10004 (omega arith) all_four

task_recompute_heap_limit_lem_example :
    let t' = task_recompute_heap_limit small_task in
    (t'.heap_limit ≤ task_stack_floor small_task)
    × Above small_task.heap_end t'.heap_limit small_task.vmas
task_recompute_heap_limit_lem_example = task_recompute_heap_limit_lem small_task

task_brk_lem_test :
    let (r, t', pages) = task_brk small_task 0x8800 in
    (((◌≡◌ {A = ℕ} 0x8800 0) × (r ≡ some small_task.heap_end) × (t' ≡ small_task))
      ⊎ ((r ≡ none)
          × (t' ≡ small_task)
          × ((0x8800 < small_task.heap_base) ⊎ (small_task.heap_limit < 0x8800)))
      ⊎ ((r ≡ some 0x8800) × (t'.heap_end ≡ 0x8800)))
    × (t'.heap_base ≤ t'.heap_end)
    × (t'.heap_end ≤ t'.heap_limit)
task_brk_lem_test = task_brk_lem small_task 0x8800 (omega arith) (omega arith)

-- The middle page goes, and the slot takes the part above it.
middle_page : (task_vma_unmap_range small_task 0x11000 0x12000 false).0 ≡ true
unfolding task_vma_unmap_range unmap_loop cut_area cut_middle lacks_slots task_vma_split_need
    task_vma_free_slots task_vma_slot
middle_page = refl

task_vma_unmap_range_lem_example :
    task_vma_find (task_vma_unmap_range small_task 0x11000 0x12000 false).1.vmas 0x11004 ≡ none
task_vma_unmap_range_lem_example =
    task_vma_unmap_range_lem small_task 0x11000 0x12000 false (omega arith) middle_page 0x11004
      (omega arith) (omega arith)
