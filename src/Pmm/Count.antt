-- ===== src/Pmm/Count.antt =====
-- The number of pages that some reference holds.
use furi_os.Prelude.{ℕ, zero, suc, ◌+◌, ◌≤◌, ◌<◌, ◌≡◌, refl, arith, ◌==◌, if◌then◌else◌, if_cases}
use furi_os.Prelude.{if_cases, Option, none, some}
use furi_os.Pmm.{Pmm, pmm_free_page, page_index, drop_ref, push_free, update, pmm_free_page, Pmm}

abbrev held : ℕ → ℕ
held r = if r == 0 then 0 else 1

pub count_held : ℕ → (ℕ → ℕ) → ℕ
count_held zero refs = 0
count_held (suc n) refs = count_held n refs + held (refs n)

count_held-update_above :
    (n : ℕ) (refs : ℕ → ℕ) (i v : ℕ) → n ≤ i → count_held n (update refs i v) ≡ count_held n refs
unfolding count_held
count_held-update_above zero refs i v h = refl
count_held-update_above (suc n) refs i v h = ground (arith, count_held-update_above n refs i v)

pub count_held-update :
    (n : ℕ) (refs : ℕ → ℕ) (i v : ℕ)
    → i < n
    → count_held n (update refs i v) + held (refs i) ≡ count_held n refs + held v
unfolding count_held
count_held-update zero refs i v h = absurd (omega arith)
count_held-update (suc n) refs i v h =
    ground (arith, count_held-update n refs i v, count_held-update_above n refs i v)

pub count_held_none : (n : ℕ) → count_held n (λ _. 0) ≡ 0
unfolding count_held
count_held_none zero = refl
count_held_none (suc n) = ground (arith, count_held_none n)

pub count_held-pos : (n : ℕ) (refs : ℕ → ℕ) (i : ℕ) → i < n → 0 < refs i → 0 < count_held n refs
unfolding count_held
count_held-pos zero refs i h r = absurd (omega arith)
count_held-pos (suc n) refs i h r = ground (arith, count_held-pos n refs i)

freed_mem :
    (s : Pmm) (p : ℕ) (o : Option ℕ)
    → (elim o as (λ o. Pmm) [ none ↦ s | some i ↦ drop_ref s p i ]).mem ≡ s.mem
unfolding drop_ref push_free
freed_mem s p none = refl
freed_mem s p (some i) = ground arith

-- pmm_free_page writes nothing into memory.
pub pmm_free_page-mem : (s : Pmm) (p : ℕ) → (pmm_free_page s p).mem ≡ s.mem
unfolding pmm_free_page
pmm_free_page-mem s p =
    if_cases {A = Pmm} (λ t. t.mem ≡ s.mem) (p == 0) _ _ (λ _. refl)
      (λ _. freed_mem s p (page_index p))
