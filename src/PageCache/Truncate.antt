-- ===== src/PageCache/Truncate.antt =====
-- What pagecache_truncate_inode leaves behind the new end of a file.
use furi_os.Prelude.{
  ℕ, zero, suc, ◌+◌, ◌-◌, ◌%◌, ◌≤◌, ◌<◌, ◌≡◌, refl, ap, ◌∙◌, ◌⊎◌, inl, inr, Bool, true, false≢true,
  not, ◌&&◌, ◌||◌, List, [], ◌∷◌, ltb, leb, ◌==◌, if_cases, arith, Bool-cases, get_or, ltb→lt,
}
use furi_os.Pmm.{Pmm, page_size, clear, pmm_page_refcount}
use furi_os.Pmm.Count.{pmm_free_page-mem}
use furi_os.PageCache.{Ident, Entry, zero_entry, Cache, pagecache_inode_same}
use furi_os.PageCache.Drop.{
  Slot, pagecache_inode_supported, pagecache_zero_tail, truncate_entry, truncate_loop,
  pagecache_truncate_inode,
}

-- the entry's page has zeros behind `eof`, where the entry is one of the file
Blank : (ident : ℕ → Ident) → (inode eof : ℕ) → (mem : ℕ → ℕ) → Entry → Type 0
Blank ident inode eof mem e =
    e.used ≡ true
    → pagecache_inode_same ident e.inode inode ≡ true
    → e.file_off % page_size ≡ 0
    → (j : ℕ) → j < page_size
    → eof ≤ e.file_off + j
    → mem (e.pa + j) ≡ 0

-- memory is only cleared
Fades : (mem mem' : ℕ → ℕ) → Type 0
Fades mem mem' = (a : ℕ) → (mem' a ≡ mem a) ⊎ (mem' a ≡ 0)

Fades-trans : (m m1 m2 : ℕ → ℕ) → Fades m m1 → Fades m1 m2 → Fades m m2
unfolding Fades
Fades-trans m m1 m2 f g = λ a. elim (g a) [
  | inl same ↦ elim (f a) [ inl before ↦ inl (same ∙ before) | inr zeros ↦ inr (same ∙ zeros) ]
  | inr zeros ↦ inr zeros
]

Fades-Blank :
    (ident : ℕ → Ident) (inode eof : ℕ) (m m' : ℕ → ℕ) (e : Entry)
    → Fades m m'
    → Blank ident inode eof m e
    → Blank ident inode eof m' e
unfolding Fades Blank
Fades-Blank ident inode eof m m' e f b = λ u s al j l past. elim (f (e.pa + j)) [
  | inl same ↦ same ∙ b u s al j l past
  | inr zeros ↦ zeros
]

Fades-refl : (m : ℕ → ℕ) → Fades m m
unfolding Fades
Fades-refl m = λ a. inl refl

zero_entry-Blank :
    (ident : ℕ → Ident) (inode eof : ℕ) (m : ℕ → ℕ) (k : ℕ)
    → Blank ident inode eof m (get_or [] k zero_entry)
unfolding Blank
zero_entry-Blank ident inode eof m k = λ u. absurd (false≢true u)

each_cons :
    (P : Entry → Type 0) (e : Entry) (es : List Entry)
    → P e
    → ((k : ℕ) → P (get_or es k zero_entry))
    → (k : ℕ) → P (get_or (e ∷ es) k zero_entry)
each_cons P e es p ps zero = p
each_cons P e es p ps (suc k) = ps k

clear-Fades : (m : ℕ → ℕ) (a n : ℕ) → Fades m (clear m a n)
unfolding Fades
clear-Fades m a n = λ x. ground arith

truncate_entry-Blank :
    (ident : ℕ → Ident) (inode eof : ℕ) (e : Entry) (clock : ℕ) (s : Pmm)
    → let (e', clock', s') = truncate_entry ident inode eof e clock s in
      Blank ident inode eof s'.mem e' × Fades s.mem s'.mem
unfolding truncate_entry pagecache_zero_tail Blank Fades
truncate_entry-Blank ident inode eof e clock s =
    let P : Slot → Type 0 = λ r. Blank ident inode eof r.2.mem r.0 × Fades s.mem r.2.mem in
    let stays : Fades s.mem s.mem = λ a. inl refl in
    if_cases P (not e.used || not (pagecache_inode_same ident e.inode inode)) _ _
      (λ h. (λ u same al j l past. ground arith, stays))
      (λ h.
        if_cases P (leb eof e.file_off) _ _
          (λ past_end.
            if_cases P (ltb 1 (pmm_page_refcount s e.pa)) _ _
              (λ _.
                (λ u same al j l past. ground arith, clear-Fades s.mem (e.pa + 0) (page_size - 0)))
              (λ _. (
                λ u same al j l past. absurd (false≢true u),
                λ a. inl (ap (λ m. m a) (pmm_free_page-mem s e.pa)),
              )))
          (λ inside.
            if_cases P (e.file_off == eof - eof % page_size && not (eof % page_size == 0)) _ _
              (λ at.
                if_cases P (not e.used || leb page_size (eof - (eof - eof % page_size))) _ _
                  (λ no. (λ u same al j l past. ground arith, stays))
                  (λ _. (
                    λ u same al j l past. ground arith,
                    clear-Fades s.mem (e.pa + (eof - (eof - eof % page_size)))
                        (page_size - (eof - (eof - eof % page_size))),
                  )))
              (λ elsewhere. (λ u same al j l past. ground arith, stays))))

truncate_loop-Blank :
    (ident : ℕ → Ident) (inode eof : ℕ) (es : List Entry) (clock : ℕ) (s : Pmm)
    → let (es', clock', s') = truncate_loop ident inode eof es clock s in
      ((k : ℕ) → Blank ident inode eof s'.mem (get_or es' k zero_entry)) × Fades s.mem s'.mem
unfolding truncate_loop
truncate_loop-Blank ident inode eof [] clock s =
    (zero_entry-Blank ident inode eof s.mem, Fades-refl s.mem)
truncate_loop-Blank ident inode eof (e ∷ es) clock s =
    let (e', clock1, s1) = truncate_entry ident inode eof e clock s in
    let s2 : Pmm = (truncate_loop ident inode eof es clock1 s1).2 in
    let (first, fades) = truncate_entry-Blank ident inode eof e clock s in
    let (rest, fades') = truncate_loop-Blank ident inode eof es clock1 s1 in
    (
      each_cons (Blank ident inode eof s2.mem) e' (truncate_loop ident inode eof es clock1 s1).0
          (Fades-Blank ident inode eof s1.mem s2.mem e' fades' first) rest,
      Fades-trans s.mem s1.mem s2.mem fades fades',
    )

-- After pagecache_truncate_inode of a file that the cache supports, no page of it that is left in the
-- cache shows anything but zero at or behind the new end, whether the page lies behind the end or
-- across it; the page's offset in the file is a multiple of the page size.
pub pagecache_truncate_inode_lem :
    {W : Type 0} (is_block : ℕ → Bool) (ident : ℕ → Ident) (inode new_size : ℕ) (c : Cache W)
    (k j : ℕ)
    → pagecache_inode_supported is_block ident inode ≡ true
    → (get_or (pagecache_truncate_inode is_block ident inode new_size c).entries k zero_entry).used
      ≡ true
    → pagecache_inode_same ident
        (get_or
          (pagecache_truncate_inode is_block ident inode new_size c).entries
          k
          zero_entry).inode
        inode
      ≡ true
    → (get_or
          (pagecache_truncate_inode is_block ident inode new_size c).entries
          k
          zero_entry).file_off
        % page_size
      ≡ 0
    → j < page_size
    → let c' = pagecache_truncate_inode is_block ident inode new_size c in
      let e = get_or c'.entries k zero_entry in
      (e.file_off + j < new_size) ⊎ (c'.pmm.mem (e.pa + j) ≡ 0)
unfolding pagecache_truncate_inode Blank
pagecache_truncate_inode_lem {W = W} is_block ident inode new_size c k j supported =
    let blank = (truncate_loop-Blank ident inode new_size c.entries c.clock c.pmm).0 k in
    rw supported (λ u same al l.
      let e = get_or (truncate_loop ident inode new_size c.entries c.clock c.pmm).0 k zero_entry in
      elim (Bool-cases (ltb (e.file_off + j) new_size)) [
        | inl inside ↦ inl (ltb→lt (e.file_off + j) new_size inside)
        | inr past ↦ inr (blank u same al j l (ground arith))
      ])
