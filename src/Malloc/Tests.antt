-- ===== src/Malloc/Tests.antt =====
-- The theorems on the allocator at concrete inputs, over a process with a heap of one page.
use furi_os.Prelude.{
  ℕ, ◌+◌, ◌-◌, ◌*◌, ◌/◌, ◌^◌, ◌<◌, ◌≡◌, refl, ◌⊎◌, inl, inr, true, false, none, some, [], ◌∷◌,
  arith,
}
use furi_os.Vma.{task_brk}
use furi_os.Malloc.{Heap, header, malloc, free, realloc, calloc}
use furi_os.Malloc.Layout.{Laid, TailOf, last}
use furi_os.Malloc.Regions.{regions}
use furi_os.Malloc.Alloc.{IsValid, Inserted, Apart, malloc_lem, free_lem, regions-Apart}
use furi_os.Malloc.Memory.{holds, starts, handed_out, released}
use furi_os.Malloc.Realloc.{owned, Reallocated, realloc_lem}
use furi_os.Malloc.Huge.{malloc_huge, calloc_overflow}
use furi_os.Malloc.Sbrk.{
  Process, Sound, sys_sbrk, heap_top, sys_sbrk_lem, sys_sbrk-SbrkLaws, sys_brk, move_break,
}

abbrev process : Process
process = record {
  cached_break = none;
  task = record {
    vmas = [];
    heap_base = 0x10000;
    heap_end = 0x10000;
    heap_limit = 0x20000;
    stack_base = 0;
  };
}

process-Sound : Sound process
process-Sound = record {
  synced = inl refl;
  some_base = omega arith;
  from_base = omega arith;
  to_limit = omega arith;
  low_half = omega arith;
}

abbrev empty_heap : Heap Process
empty_heap = record { blocks = []; tail = none; mem = λ a. 0; sys = process }

empty_heap-IsValid : IsValid sys_sbrk heap_top Sound sys_sbrk-SbrkLaws empty_heap
unfolding IsValid Laid
empty_heap-IsValid = (record { laid = omega arith; ends = inl (refl, refl) }, process-Sound)

malloc_lem_example :
    let (got, h') = malloc sys_sbrk 100 empty_heap in
    IsValid sys_sbrk heap_top Sound sys_sbrk-SbrkLaws h'
    × (((got ≡ none) × (regions h'.blocks ≡ regions empty_heap.blocks) × (h'.mem ≡ empty_heap.mem))
        ⊎ ((p : ℕ) × (got ≡ some p)
            × Inserted (regions empty_heap.blocks) p ((100 + 15) / 16 * 16) (regions h'.blocks)))
    × ((a : ℕ) → holds (regions h'.blocks) a ≡ true → h'.mem a ≡ empty_heap.mem a)
malloc_lem_example =
    malloc_lem sys_sbrk heap_top Sound sys_sbrk-SbrkLaws 100 empty_heap (omega arith) (omega arith)
      empty_heap-IsValid

-- A heap with one block handed out, at the start of the process's heap.
abbrev used_process : Process
used_process = record {
  cached_break = some 0x10078;
  task = record process.task { heap_end = 0x10078 };
}

abbrev one_block : Heap Process
one_block = record {
  blocks = record { addr = 0x10000; size = 96; free = false } ∷ [];
  tail = some 0x10000;
  mem = λ a. 7;
  sys = used_process;
}

used_process-Sound : Sound used_process
used_process-Sound = record {
  synced = inr refl;
  some_base = omega arith;
  from_base = omega arith;
  to_limit = omega arith;
  low_half = omega arith;
}

one_block-IsValid : IsValid sys_sbrk heap_top Sound sys_sbrk-SbrkLaws one_block
unfolding IsValid Laid TailOf last
one_block-IsValid = (
  record { laid = (omega arith, omega arith); ends = inr (0x10000, refl, refl) },
  used_process-Sound,
)

one_block-handed_out : handed_out (regions one_block.blocks) (some 0x10018) ≡ true
unfolding handed_out starts regions
one_block-handed_out = refl

free_lem_example :
    let h' = free (some 0x10018) one_block in
    IsValid sys_sbrk heap_top Sound sys_sbrk-SbrkLaws h'
    × (regions h'.blocks ≡ released (some 0x10018) (regions one_block.blocks))
    × ((a : ℕ) → holds (regions one_block.blocks) a ≡ true → h'.mem a ≡ one_block.mem a)
free_lem_example =
    free_lem sys_sbrk heap_top Sound sys_sbrk-SbrkLaws (some 0x10018) one_block one_block-IsValid
      one_block-handed_out

sys_sbrk_lem_example :
    let r = sys_sbrk used_process 100 in
    Sound r.1
    × (((r.0 ≡ none)
          × (heap_top r.1 ≡ heap_top used_process)
          × (used_process.task.heap_limit < heap_top used_process + 100))
        ⊎ ((r.0 ≡ some (heap_top used_process)) × (heap_top r.1 ≡ heap_top used_process + 100)))
sys_sbrk_lem_example = sys_sbrk_lem used_process 100 used_process-Sound (omega arith)

regions-Apart_test : Apart 0 (regions one_block.blocks) (heap_top one_block.sys)
regions-Apart_test =
    regions-Apart sys_sbrk heap_top Sound sys_sbrk-SbrkLaws one_block one_block-IsValid

one_block-owned : owned 0x10018 one_block.blocks ≡ true
unfolding owned
one_block-owned = refl

realloc_lem_example :
    IsValid sys_sbrk heap_top Sound sys_sbrk-SbrkLaws
      (realloc sys_sbrk (some 0x10018) 200 one_block).1
    × Reallocated sys_sbrk heap_top Sound sys_sbrk-SbrkLaws 0x10018
        ((200 + 15) / 16 * 16)
        one_block
        (realloc sys_sbrk (some 0x10018) 200 one_block)
realloc_lem_example =
    realloc_lem sys_sbrk heap_top Sound sys_sbrk-SbrkLaws 0x10018 200 one_block (omega arith)
      (omega arith) one_block-owned one_block-IsValid

header_granted : (sys_sbrk empty_heap.sys header).0 ≡ some 0x10000
unfolding sys_sbrk sys_brk move_break task_brk
header_granted = refl

malloc_huge_example :
    ((malloc sys_sbrk (2 ^ 64 - 1) empty_heap).0 ≡ some (0x10000 + header))
    × ((malloc sys_sbrk (2 ^ 64 - 1) empty_heap).1.blocks
        ≡ record { addr = 0x10000; size = 0; free = false } ∷ [])
malloc_huge_example =
    malloc_huge sys_sbrk (2 ^ 64 - 1) 0x10000 empty_heap (omega arith) (omega arith) refl
      header_granted

calloc_overflow_test : calloc sys_sbrk (2 ^ 33) (2 ^ 33) empty_heap ≡ (none, empty_heap)
calloc_overflow_test = calloc_overflow sys_sbrk (2 ^ 33) (2 ^ 33) empty_heap (omega arith)
