-- ===== src/PageCache/Durable.antt =====
-- That a flush of the page cache leaves every cached page stored.
use furi_os.Prelude.{
  ℕ, zero, suc, ◌+◌, ◌%◌, ◌≤◌, ◌<◌, ◌≡◌, refl, ap, ap₂, sym, ◌∙◌, subst, ◌⊎◌, inl, inr, Bool, true,
  false, false≢true, ◌&&◌, none, some, List, ◌==◌, arith, Bool-cases, Option-cases, get_or, set,
  length, ==→eq, ==→ne, get_or-set_self, get_or-set_ne,
}
use furi_os.Pmm.{page_size}
use furi_os.PageCache.{
  Ident, Entry, zero_entry, Cache, Choice, every_choice, victim_from, pagecache_inode_same,
  pagecache_entry_max_bytes, pagecache_entry_writeback, pagecache_note_writeback_result,
  writeback_at, flush_round, pagecache_flush_match, pagecache_flush_all, max_file_cache_pages,
  pagecache_dirty_count,
}
use furi_os.PageCache.Victim.{victim_lem, count_if_zero}
use furi_os.PageCache.Flush.{chosen_dirty, pagecache_flush_all_lem}
use furi_os.PageCache.Store.{
  Laws, Saved, Beside, Written, max_bytes_same, max_bytes_le, pagecache_entry_writeback-Written,
}

unfoldable pub Aligned : List Entry → Type 0
Aligned es =
    (k : ℕ)
    → (get_or es k zero_entry).used ≡ true
    → (get_or es k zero_entry).file_off % page_size ≡ 0

-- Entries in use are about whole pages of files, different ones, and have different physical pages.
unfoldable pub Distinct : (ident : ℕ → Ident) → List Entry → Type 0
Distinct ident es =
    Aligned es
    × ((k l : ℕ)
        → k == l ≡ false
        → (get_or es k zero_entry).used ≡ true
        → (get_or es l zero_entry).used ≡ true
        → let x = get_or es k zero_entry in
          let e = get_or es l zero_entry in
          (pagecache_inode_same ident x.inode e.inode && x.file_off == e.file_off ≡ false)
          × ((x.pa + page_size ≤ e.pa) ⊎ (e.pa + page_size ≤ x.pa)))

-- what a clean leaves of an entry
Key : Entry → Entry → Type 0
Key e f = (f.inode ≡ e.inode) × (f.file_off ≡ e.file_off) × (f.pa ≡ e.pa) × (f.used ≡ e.used)

Distinct-Key :
    (ident : ℕ → Ident) (es es' : List Entry)
    → ((k : ℕ) → Key (get_or es k zero_entry) (get_or es' k zero_entry))
    → Distinct ident es
    → Distinct ident es'
unfolding Distinct Aligned Key
Distinct-Key ident es es' keys (al, d) = (
  λ k u. let (ik, ok, pk, uk) = keys k in ap (λ n. n % page_size) ok ∙ al k (sym uk ∙ u),
  λ k l ne u v.
      let (ik, ok, pk, uk) = keys k in
      let (il, ol, pl, ul) = keys l in
      let (a, b) = d k l ne (sym uk ∙ u) (sym ul ∙ v) in
      (
        ap₂ (λ x y. x && y) (ap₂ (pagecache_inode_same ident) ik il) (ap₂ (λ x y. x == y) ok ol)
            ∙ a,
        rw pk (rw pl b),
      ),
)

other_entry :
    (es : List Entry) (i k : ℕ)
    → (get_or es i zero_entry).dirty ≡ true
    → (get_or es k zero_entry).dirty ≡ false
    → k == i ≡ false
other_entry es i k d clean = elim (Bool-cases (k == i)) [
  | inl h ↦
      absurd (false≢true (sym clean ∙ ap (λ j. (get_or es j zero_entry).dirty) (==→eq k i h) ∙ d))
  | inr h ↦ h
]

module _ {W : Type 0} (ident : ℕ → Ident) (size_of : W → ℕ → ℕ)
    (store : (inode file_off : ℕ) → List ℕ → W → Bool × W)
    (protect : (inode file_off : ℕ) → W → Bool × W) (disk : W → (inode off i : ℕ) → ℕ)
    (ok : W → Type 0) where
  -- every clean entry in use is stored
  unfoldable pub Synced : Cache W → Type 0
  Synced c =
      (k : ℕ)
      → (get_or c.entries k zero_entry).used ≡ true
      → (get_or c.entries k zero_entry).dirty ≡ false
      → Saved ident size_of store protect disk ok c (get_or c.entries k zero_entry)

  Beside-Saved :
      (x e : Entry) (c c' : Cache W)
      → Beside ident size_of store protect disk ok e c c'
      → pagecache_inode_same ident x.inode e.inode && x.file_off == e.file_off ≡ false
      → (x.pa + page_size ≤ e.pa) ⊎ (e.pa + page_size ≤ x.pa)
      → x.file_off % page_size ≡ 0
      → Saved ident size_of store protect disk ok c x
      → Saved ident size_of store protect disk ok c' x
  unfolding Saved
  Beside-Saved x e c c' b ne apart al s = λ i h.
      let same =
        max_bytes_same ident size_of store protect disk ok c.world c'.world x (b.size x.inode) in
      let h' : i < pagecache_entry_max_bytes ident size_of store protect c.world x =
        subst (λ n. i < n) same h in
      let small = max_bytes_le ident size_of store protect disk ok c.world x in
      let outside : (x.pa + i < e.pa) ⊎ (e.pa + page_size ≤ x.pa + i) =
        ground (arith, apart, h', small) in
      b.stored x.inode x.file_off i al (omega (arith, h', small)) ne
      ∙ s i h'
      ∙ sym (b.memory (x.pa + i) outside)

  cleaned-Saved :
      (c : Cache W) (e : Entry) (t : ℕ)
      → Saved ident size_of store protect disk ok c e
      → Saved ident size_of store protect disk ok c (record e { dirty = false; last_touch = t })
  unfolding Saved pagecache_entry_max_bytes
  cleaned-Saved c e t s = s

  others-Saved :
      (i : ℕ) (c c' : Cache W)
      → (get_or c.entries i zero_entry).used ≡ true
      → Beside ident size_of store protect disk ok (get_or c.entries i zero_entry) c c'
      → Distinct ident c.entries
      → Synced c
      → (k : ℕ) → k == i ≡ false
      → (get_or c.entries k zero_entry).used ≡ true
      → (get_or c.entries k zero_entry).dirty ≡ false
      → Saved ident size_of store protect disk ok c' (get_or c.entries k zero_entry)
  unfolding Synced Distinct Aligned
  others-Saved i c c' u b dist s k ne used clean =
      let (beside, apart) = dist.1 k i ne used u in
      Beside-Saved (get_or c.entries k zero_entry) (get_or c.entries i zero_entry) c c' b beside
        apart (dist.0 k used) (s k used clean)

  Written-Synced :
      (i : ℕ) (c : Cache W) (r : Bool × Cache W)
      → i < length c.entries
      → (get_or c.entries i zero_entry).used ≡ true
      → (get_or c.entries i zero_entry).dirty ≡ true
      → Written ident size_of store protect disk ok i (get_or c.entries i zero_entry) c r
      → Distinct ident c.entries
      → Synced c
      → Synced r.1 × Distinct ident r.1.entries × ok r.1.world
  unfolding Synced Written Key
  Written-Synced i c (done, c') l u d (b, inl same) dist s = (
    λ k used clean.
        let ek : get_or c'.entries k zero_entry ≡ get_or c.entries k zero_entry =
          ap (λ es. get_or es k zero_entry) same in
        subst (Saved ident size_of store protect disk ok c') (sym ek) (
          others-Saved i c c' u b dist s k
            (other_entry c.entries i k d (ap (λ e. e.dirty) (sym ek) ∙ clean))
            (ap (λ e. e.used) (sym ek) ∙ used) (ap (λ e. e.dirty) (sym ek) ∙ clean)),
    subst (Distinct ident) (sym same) dist,
    b.fine,
  )
  Written-Synced i c (done, c') l u d (b, inr (saved, (t, set_to))) dist s =
      let e = get_or c.entries i zero_entry in
      let e' : Entry = record e { dirty = false; last_touch = t } in
      let self : (k : ℕ) → k == i ≡ true → get_or c'.entries k zero_entry ≡ e' = λ k h.
        ap (λ es. get_or es k zero_entry) set_to
        ∙ ap (λ j. get_or (set c.entries i e') j zero_entry) (==→eq k i h)
        ∙ get_or-set_self c.entries i e' zero_entry l in
      let other : (k : ℕ)
          → k == i ≡ false
          → get_or c'.entries k zero_entry ≡ get_or c.entries k zero_entry =
        λ k h.
          ap (λ es. get_or es k zero_entry) set_to
          ∙ get_or-set_ne c.entries i k e' zero_entry (λ q. ==→ne k i h (sym q)) in
      (
        λ k used clean. elim (Bool-cases (k == i)) [
          | inl h ↦
              subst (Saved ident size_of store protect disk ok c') (sym (self k h))
                (cleaned-Saved c' e t saved)
          | inr h ↦ subst (Saved ident size_of store protect disk ok c') (sym (other k h)) (
              others-Saved i c c' u b dist s k h (ap (λ e. e.used) (sym (other k h)) ∙ used)
                (ap (λ e. e.dirty) (sym (other k h)) ∙ clean))
        ],
        Distinct-Key ident c.entries c'.entries
            (λ k. elim (Bool-cases (k == i)) [
              | inl h ↦ subst (Key (get_or c.entries k zero_entry)) (sym (self k h)) (
                  subst (λ j. Key (get_or c.entries j zero_entry) e') (sym (==→eq k i h))
                    (refl, refl, refl, refl))
              | inr h ↦
                  subst (Key (get_or c.entries k zero_entry)) (sym (other k h))
                    (refl, refl, refl, refl)
            ])
            dist,
        b.fine,
      )

  aligned_at :
      (c : Cache W) (i : ℕ)
      → Distinct ident c.entries
      → (get_or c.entries i zero_entry).used ≡ true
      → (get_or c.entries i zero_entry).file_off % page_size ≡ 0
  unfolding Distinct Aligned
  aligned_at c i dist u = dist.0 i u

  note_world : (c : Cache W) → ok c.world → ok (pagecache_note_writeback_result true c).world
  unfolding pagecache_note_writeback_result
  note_world c h = h

  note_entries :
      (P : List Entry → Type 0) (c : Cache W)
      → P c.entries
      → P (pagecache_note_writeback_result true c).entries
  unfolding pagecache_note_writeback_result
  note_entries P c h = h

  note-Synced : (c : Cache W) → Synced c → Synced (pagecache_note_writeback_result true c)
  unfolding Synced Saved pagecache_note_writeback_result
  note-Synced c s = s

  flush_round-Synced :
      (v : ℕ × ℕ) (c : Cache W) (done rest : Bool × Cache W)
      → Synced done.1
      → Synced rest.1
      → Synced (flush_round ident size_of store protect (some v) done c rest).1
  unfolding flush_round Synced Saved pagecache_note_writeback_result
  flush_round-Synced v c (true, c') rest s f = f
  flush_round-Synced v c (false, c') rest s f = s

  pagecache_flush_match-Synced :
      (laws : Laws ident size_of store protect disk ok) (p : Choice) (budget : ℕ) (c : Cache W)
      → ok c.world
      → Distinct ident c.entries
      → Synced c
      → Synced (pagecache_flush_match ident size_of store protect p budget c).1
  unfolding pagecache_flush_match flush_round writeback_at
  pagecache_flush_match-Synced laws p zero c fine dist s = s
  pagecache_flush_match-Synced laws p (suc budget) c fine dist s =
      elim (Option-cases (victim_from ident p 0 c.entries none)) [
        | inl v ↦ rw v s
        | inr ((i, t), v) ↦
            let (l, ch) = victim_lem ident p c.entries i t v in
            let (u, d) = chosen_dirty ident p (get_or c.entries i zero_entry) ch in
            let done = pagecache_entry_writeback ident size_of store protect i c in
            let c1 = pagecache_note_writeback_result true done.1 in
            let (s', dist', fine') =
              Written-Synced i c done l u d
                (pagecache_entry_writeback-Written ident size_of store protect disk ok laws i c u d
                  (aligned_at c i dist u) fine)
                dist s in
            rw v (
              flush_round-Synced (i, t) c done
                (pagecache_flush_match ident size_of store protect p budget c1) s'
                (pagecache_flush_match-Synced laws p budget c1 (note_world done.1 fine')
                  (note_entries (Distinct ident) done.1 dist') (note-Synced done.1 s')))
      ]

  -- Where the code behind the cache keeps its laws in a state that they cover, entries in use are
  -- about different whole pages of files and have different physical pages, and each clean entry in
  -- use is stored, a pagecache_flush_all that succeeds on a table of at most 256 entries leaves every
  -- entry in use stored: each byte of its page that lies in the file is the byte that the file has.
  pub flush_all_stored :
      (laws : Laws ident size_of store protect disk ok) (c : Cache W) (k i : ℕ)
      → length c.entries ≤ max_file_cache_pages
      → ok c.world
      → Distinct ident c.entries
      → Synced c
      → (pagecache_flush_all ident size_of store protect c).0 ≡ true
      → k < length (pagecache_flush_all ident size_of store protect c).1.entries
      → (get_or (pagecache_flush_all ident size_of store protect c).1.entries k zero_entry).used
        ≡ true
      → i
        < pagecache_entry_max_bytes ident size_of store protect
            (pagecache_flush_all ident size_of store protect c).1.world
            (get_or (pagecache_flush_all ident size_of store protect c).1.entries k zero_entry)
      → let c' = (pagecache_flush_all ident size_of store protect c).1 in
        let e = get_or c'.entries k zero_entry in
        disk c'.world e.inode e.file_off i ≡ c'.pmm.mem (e.pa + i)
  unfolding pagecache_flush_all Synced Saved pagecache_dirty_count
  flush_all_stored laws c k i small fine dist s done_ok l used inside =
      let c' = (pagecache_flush_all ident size_of store protect c).1 in
      let (cleans, outcome) = pagecache_flush_all_lem ident size_of store protect c small in
      let synced =
        pagecache_flush_match-Synced laws every_choice max_file_cache_pages c fine dist s in
      elim outcome [
        | inl (done, none_left) ↦
            let clean : (get_or c'.entries k zero_entry).used
                  && (get_or c'.entries k zero_entry).dirty
                ≡ false =
              count_if_zero (λ e. e.used && e.dirty) c'.entries k none_left l in
            synced k used (sym (ap (λ b. b && (get_or c'.entries k zero_entry).dirty) used) ∙ clean)
              i inside
        | inr (failed, streak) ↦ absurd (false≢true (sym failed ∙ done_ok))
      ]
