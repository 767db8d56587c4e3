-- ===== src/Malloc/Sbrk.antt =====
-- sys_brk and sys_sbrk of user/lib/syscall.c over task_brk of kernel/task.c: the state is the cached
-- break, `none` before the first call, and the task. A `long` is a 64-bit value whose upper half is
-- negative; the increment is the allocator's, which is not negative.
use furi_os.Prelude.{
  ℕ, ◌+◌, ◌%◌, ◌^◌, ◌≤◌, ◌<◌, ◌≡◌, ◌⊎◌, inl, inr, ◌&&◌, Option, none, some, ltb, leb, if◌then◌else◌,
  arith,
}
use furi_os.Vma.{Task, task_brk}
use furi_os.Malloc.Alloc.{SbrkLaws}

pub record Process : Type 0 where
  pub cached_break : Option ℕ
  pub task : Task

-- `none` for (void *)-1: an error, or a break that is negative as a long
unfoldable pub sys_brk : Task → ℕ → Option ℕ × Task
sys_brk t addr =
    let (r, t', pages) = task_brk t addr in
    (elim r [ none ↦ none | some b ↦ if leb (2 ^ 63) b then none else some b ], t')

-- The part behind the first `if`, from a break that is known.
unfoldable pub move_break : Task → (cached increment : ℕ) → Option ℕ × Process
move_break t cached increment =
    let next = (cached + increment) % 2 ^ 64 in
    let (rc, t') = sys_brk t next in
    let stay : Process = record { cached_break = some cached; task = t } in
    let moved : Process = record {
      cached_break = elim rc [ none ↦ some cached | some b ↦ some b ];
      task = t';
    } in
    if ltb 0 increment && leb (2 ^ 63) next
    then (none, stay)
    else (elim rc [ none ↦ none | some b ↦ some cached ], moved)

unfoldable pub sys_sbrk : Process → ℕ → Option ℕ × Process
sys_sbrk p increment =
    let (cur, t) = sys_brk p.task 0 in
    let first : Option ℕ × Process = elim cur [
      | none ↦ (none, record p { task = t })
      | some b ↦ move_break t b increment
    ] in
    elim p.cached_break [ none ↦ first | some b ↦ move_break p.task b increment ]

-- the break cached is the heap's end, which lies between its bounds in the lower half
pub record Sound (p : Process) : Type 0 where
  pub synced : (p.cached_break ≡ none) ⊎ (p.cached_break ≡ some p.task.heap_end)
  pub some_base : 0 < p.task.heap_base
  pub from_base : p.task.heap_base ≤ p.task.heap_end
  pub to_limit : p.task.heap_end ≤ p.task.heap_limit
  pub low_half : p.task.heap_limit < 2 ^ 62

abbrev pub heap_top : Process → ℕ
heap_top p = p.task.heap_end

pub Moved : Process → ℕ → Option ℕ × Process → Type 0
Moved p n r =
    (Sound r.1)
    × (((r.0 ≡ none) × (heap_top r.1 ≡ heap_top p) × (p.task.heap_limit < heap_top p + n))
        ⊎ ((r.0 ≡ some (heap_top p)) × (heap_top r.1 ≡ heap_top p + n)))

move_break_lem :
    (p : Process) (n : ℕ) → Sound p → n < 2 ^ 63 → Moved p n (move_break p.task p.task.heap_end n)
unfolding move_break sys_brk task_brk Moved
move_break_lem p n s small = ground arith

-- sys_sbrk on an increment below 2 ^ 63, on a process whose cached break is unknown or the heap's end
-- and whose heap lies in the lower half. Either it is refused, the heap's end stays, and the heap
-- would have passed its limit; or it returns the old end and the heap grows by exactly the increment.
-- The process is again such a process.
pub sys_sbrk_lem :
    (p : Process) (n : ℕ)
    → Sound p
    → n < 2 ^ 63
    → let r = sys_sbrk p n in
      Sound r.1
      × (((r.0 ≡ none) × (heap_top r.1 ≡ heap_top p) × (p.task.heap_limit < heap_top p + n))
          ⊎ ((r.0 ≡ some (heap_top p)) × (heap_top r.1 ≡ heap_top p + n)))
unfolding sys_sbrk sys_brk task_brk Moved
sys_sbrk_lem p n s small =
    let here = move_break_lem p n s small in
    elim s.synced [ inl e ↦ ground (arith, e, here) | inr e ↦ ground (arith, e, here) ]

-- What the allocator relies on: a refused call leaves the heap's end, and a granted one hands out
-- the old end, with the new one at least the increment above it.
pub sys_sbrk-SbrkLaws : SbrkLaws sys_sbrk heap_top Sound
sys_sbrk-SbrkLaws = record {
  refused = λ p n s small e. ground (arith, sys_sbrk_lem p n s small);
  grown = λ p n a s small e. ground (arith, sys_sbrk_lem p n s small);
}
