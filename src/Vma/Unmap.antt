-- ===== src/Vma/Unmap.antt =====
-- What task_vma_unmap_range leaves mapped.
use furi_os.Prelude.{
  ℕ, zero, suc, ◌+◌, ◌≤◌, ◌<◌, ◌≡◌, refl, ap, sym, ◌⊎◌, inl, inr, subst, Bool, true, false≢true,
  not, ◌&&◌, ◌||◌, Option, none, some, List, [], ◌∷◌, ltb, leb, ◌==◌, if◌then◌else◌, if_cases,
  add64, sub64, Bool-cases, arith, get_or, set, length, get_or-out,
}
use furi_os.Vma.{
  Area, Task, zero_area, task_vma_find, outside, cut_area, cut_middle, unmap_loop,
  task_vma_unmap_range, task_vma_slot, task_recompute_heap_limit, max_vmas,
}

-- the area has no address of the range
abbrev pub clear : (start end : ℕ) → Area → Bool
clear start end v = not v.used || outside start end v

-- A write of a clear area keeps clear what is.
set-clear :
    (start end : ℕ) (vs : List Area) (i j : ℕ) (v : Area)
    → clear start end v ≡ true
    → clear start end (get_or vs j zero_area) ≡ true
    → clear start end (get_or (set vs i v) j zero_area) ≡ true
set-clear start end [] i j v c h = h
set-clear start end (x ∷ vs) zero zero v c h = c
set-clear start end (x ∷ vs) zero (suc j) v c h = h
set-clear start end (x ∷ vs) (suc i) zero v c h = h
set-clear start end (x ∷ vs) (suc i) (suc j) v c h = set-clear start end vs i j v c h

set-clear_self :
    (start end : ℕ) (vs : List Area) (i : ℕ) (v : Area)
    → clear start end v ≡ true
    → clear start end (get_or (set vs i v) i zero_area) ≡ true
set-clear_self start end [] i v c = refl
set-clear_self start end (x ∷ vs) zero v c = c
set-clear_self start end (x ∷ vs) (suc i) v c = set-clear_self start end vs i v c

Cleared : List Area → (i start end : ℕ) → Bool × List Area → Type 0
Cleared vs i start end r =
    r.0 ≡ true
    → (clear start end (get_or r.1 i zero_area) ≡ true)
      × ((j : ℕ)
          → clear start end (get_or vs j zero_area) ≡ true
          → clear start end (get_or r.1 j zero_area) ≡ true)

Cleared-set :
    (vs : List Area) (i start end : ℕ) (v : Area)
    → clear start end v ≡ true
    → Cleared vs i start end (true, set vs i v)
unfolding Cleared
Cleared-set vs i start end v c ok =
    (set-clear_self start end vs i v c, λ j h. set-clear start end vs i j v c h)

Cleared-cut_middle :
    (vs : List Area) (i start end : ℕ) (s : Option ℕ)
    → Cleared vs i start end (cut_middle vs i start end s)
unfolding Cleared cut_middle
Cleared-cut_middle vs i start end none ok = absurd (false≢true ok)
Cleared-cut_middle vs i start end (some s) ok =
    let v = get_or vs i zero_area in
    let upper : Area = record v {
      start = end;
      file_offset = add64 v.file_offset (sub64 end v.start);
    } in
    let lower : Area = record v { end = start } in
    let lower-clear : clear start end lower ≡ true = ground arith in
    let upper-clear : clear start end upper ≡ true = ground arith in
    (
      set-clear_self start end (set vs s upper) i lower lower-clear,
      λ j h.
          set-clear start end (set vs s upper) i j lower lower-clear
            (set-clear start end vs s j upper upper-clear h),
    )

-- After a round that goes on, area `i` is clear, and so is every area that was.
Cleared-cut_area :
    (vs : List Area) (i start end : ℕ)
    → start < end
    → Cleared vs i start end (cut_area vs i start end)
unfolding cut_area
Cleared-cut_area vs i start end h =
    let v = get_or vs i zero_area in
    let cut_start : ℕ = if ltb v.start start then start else v.start in
    let cut_end : ℕ = if ltb end v.end then end else v.end in
    let P : Bool × List Area → Type 0 = Cleared vs i start end in
    if_cases P (leb cut_start v.start && leb v.end cut_end) _ _
      (λ a. Cleared-set vs i start end zero_area refl)
      (λ a.
        if_cases P (leb cut_start v.start) _ _ (λ b. Cleared-set vs i start end _ (ground arith))
          (λ b.
            if_cases P (leb v.end cut_end) _ _ (λ c. Cleared-set vs i start end _ (ground arith))
              (λ c.
                let low : cut_start ≡ start = ground arith in
                let high : cut_end ≡ end = ground arith in
                subst (λ x. P (cut_middle vs i x cut_end (task_vma_slot vs))) (sym low)
                  (subst (λ y. P (cut_middle vs i start y (task_vma_slot vs))) (sym high)
                    (Cleared-cut_middle vs i start end (task_vma_slot vs))))))

-- The loop leaves clear what was, and clears the areas that it visits.
Swept : (k i : ℕ) → List Area → (start end : ℕ) → Bool × List Area × List ℕ → Type 0
Swept k i vs start end r =
    r.0 ≡ true
    → (j : ℕ) → ((i ≤ j) × (j < i + k)) ⊎ (clear start end (get_or vs j zero_area) ≡ true)
    → clear start end (get_or r.1 j zero_area) ≡ true

-- A round after which area `i` is clear, and the rounds behind it.
Swept-next :
    (k i : ℕ) (vs vs' : List Area) (start end : ℕ) (r : Bool × List Area × List ℕ)
    → clear start end (get_or vs' i zero_area) ≡ true
    → ((j : ℕ)
        → clear start end (get_or vs j zero_area) ≡ true
        → clear start end (get_or vs' j zero_area) ≡ true)
    → Swept k (i + 1) vs' start end r
    → Swept (suc k) i vs start end r
unfolding Swept
Swept-next k i vs vs' start end r now keep rest ok j (inr c) = rest ok j (inr (keep j c))
Swept-next k i vs vs' start end r now keep rest ok j (inl within) = elim (Bool-cases (j == i)) [
  | inl e ↦
      let same : i ≡ j = ground arith in
      rest ok j (inr (subst (λ n. clear start end (get_or vs' n zero_area) ≡ true) same now))
  | inr e ↦ rest ok j (inl (ground (arith, within), omega (arith, within)))
]

Swept-zero : (i : ℕ) (vs : List Area) (start end : ℕ) → Swept 0 i vs start end (true, vs, [])
unfolding Swept
Swept-zero i vs start end ok j (inl within) = absurd (omega (arith, within))
Swept-zero i vs start end ok j (inr c) = c

Swept-unmap_loop :
    (k i : ℕ) (vs : List Area) (start end : ℕ)
    → start < end
    → Swept k i vs start end (unmap_loop k i vs start end)
unfolding unmap_loop Swept Cleared
Swept-unmap_loop zero i vs start end h = Swept-zero i vs start end
Swept-unmap_loop (suc k) i vs start end h =
    let v = get_or vs i zero_area in
    let P : Bool × List Area × List ℕ → Type 0 = Swept (suc k) i vs start end in
    let skip = Swept-unmap_loop k (i + 1) vs start end h in
    let go = Swept-unmap_loop k (i + 1) (cut_area vs i start end).1 start end h in
    if_cases P (not v.used) _ _
      (λ a.
        Swept-next k i vs vs start end (unmap_loop k (i + 1) vs start end) (ground arith) (λ j c. c)
          skip)
      (λ a.
        if_cases P (outside start end v) _ _
          (λ b.
            Swept-next k i vs vs start end (unmap_loop k (i + 1) vs start end) (ground arith)
              (λ j c. c) skip)
          (λ b.
            if_cases P (not (cut_area vs i start end).0) _ _ (λ c ok. absurd (false≢true ok))
              (λ c.
                let went : (cut_area vs i start end).0 ≡ true = ground arith in
                let here = Cleared-cut_area vs i start end h went in
                Swept-next k i vs (cut_area vs i start end).1 start end
                  (unmap_loop k (i + 1) (cut_area vs i start end).1 start end) here.0 here.1 go)))

unmap_result :
    (t : Task) (start end : ℕ) (require_mapped : Bool)
    → (task_vma_unmap_range t start end require_mapped).0 ≡ true
    → (start < end)
      × ((unmap_loop max_vmas 0 t.vmas start end).0 ≡ true)
      × ((task_vma_unmap_range t start end require_mapped).1.vmas
          ≡ (unmap_loop max_vmas 0 t.vmas start end).1)
unfolding task_vma_unmap_range task_recompute_heap_limit
unmap_result t start end require_mapped ok = ground arith

find-clear :
    (vs : List Area) (start end va : ℕ)
    → ((j : ℕ) → clear start end (get_or vs j zero_area) ≡ true)
    → start ≤ va
    → va < end
    → task_vma_find vs va ≡ none
unfolding task_vma_find
find-clear [] start end va c l u = refl
find-clear (v ∷ vs) start end va c l u =
    ground (arith, c 0, find-clear vs start end va (λ j. c (suc j)) l u)

-- When task_vma_unmap_range returns true on a task with at most 64 areas, no address of the range
-- lies in an area afterwards.
pub task_vma_unmap_range_lem :
    (t : Task) (start end : ℕ) (require_mapped : Bool)
    → length t.vmas ≤ max_vmas
    → (task_vma_unmap_range t start end require_mapped).0 ≡ true
    → (va : ℕ) → start ≤ va
    → va < end
    → task_vma_find (task_vma_unmap_range t start end require_mapped).1.vmas va ≡ none
unfolding Swept
task_vma_unmap_range_lem t start end require_mapped size ok va l u =
    let r = unmap_result t start end require_mapped ok in
    let swept = Swept-unmap_loop max_vmas 0 t.vmas start end r.0 r.1 in
    subst (λ vs. task_vma_find vs va ≡ none) (sym r.2)
      (find-clear (unmap_loop max_vmas 0 t.vmas start end).1 start end va
        (λ j. elim (Bool-cases (ltb j max_vmas)) [
          | inl e ↦ swept j (inl (omega arith, ground arith))
          | inr e ↦
              swept j
                (inr (ap (clear start end) (get_or-out t.vmas j zero_area (ground (arith, size)))))
        ])
        l u)
