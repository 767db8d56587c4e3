-- ===== src/PageCache/Store.antt =====
-- What the page cache relies on of the code that stores its pages, and what one write-back stores.
use furi_os.Prelude.{
  ℕ, zero, suc, ◌+◌, ◌-◌, ◌%◌, ◌≤◌, ◌<◌, ◌≡◌, refl, ap, ap₂, sym, ◌∙◌, subst, ◌⊎◌, inl, inr, Bool,
  true, false, not, ◌&&◌, ◌||◌, List, ltb, ◌==◌, if_cases, arith, get_or, set, length, ==→eq,
}
use furi_os.Pmm.{page_size, clear}
use furi_os.PageCache.{
  Ident, Entry, zero_entry, inode_file, same_type, Cache, pagecache_inode_same, cleaned,
  pagecache_touch_tick, bytes_at, pagecache_entry_max_bytes, clear_page, protected,
  pagecache_entry_writeback,
}

-- The bytes of a page of a file, up to its end.
abbrev pub InFile : {W : Type 0} (size_of : W → ℕ → ℕ) → (inode off : ℕ) → List ℕ → W → Type 0
InFile size_of inode off xs w =
    (off % page_size ≡ 0) × (length xs ≤ page_size) × (off + length xs ≤ size_of w inode)

-- `disk w inode off i` is the byte `i` behind the offset `off` of a file, as it is stored. Where the
-- state behind the cache is `ok`, which it stays, storing bytes of a page within its file changes no
-- other page of the file and no other file, and not the size; on success the bytes are stored. Taking
-- a page from its writers stores nothing.
pub record Laws {W : Type 0} (ident : ℕ → Ident) (size_of : W → ℕ → ℕ)
    (store : (inode file_off : ℕ) → List ℕ → W → Bool × W)
    (protect : (inode file_off : ℕ) → W → Bool × W) (disk : W → (inode off i : ℕ) → ℕ)
    (ok : W → Type 0) : Type 0 where
  pub stores :
      (inode off : ℕ) (xs : List ℕ) (w : W) (i : ℕ)
      → ok w
      → InFile size_of inode off xs w
      → (store inode off xs w).0 ≡ true
      → i < length xs
      → disk (store inode off xs w).1 inode off i ≡ get_or xs i 0
  pub store_beside :
      (inode off : ℕ) (xs : List ℕ) (w : W) (inode' off' i : ℕ)
      → ok w
      → InFile size_of inode off xs w
      → off' % page_size ≡ 0
      → i < page_size
      → pagecache_inode_same ident inode' inode && off' == off ≡ false
      → disk (store inode off xs w).1 inode' off' i ≡ disk w inode' off' i
  pub store_size :
      (inode off : ℕ) (xs : List ℕ) (w : W) (x : ℕ)
      → ok w
      → InFile size_of inode off xs w
      → size_of (store inode off xs w).1 x ≡ size_of w x
  pub store_ok :
      (inode off : ℕ) (xs : List ℕ) (w : W)
      → ok w
      → InFile size_of inode off xs w
      → ok (store inode off xs w).1
  pub protect_disk :
      (inode off : ℕ) (w : W) (inode' off' i : ℕ)
      → disk (protect inode off w).1 inode' off' i ≡ disk w inode' off' i
  pub protect_size :
      (inode off : ℕ) (w : W) (x : ℕ) → size_of (protect inode off w).1 x ≡ size_of w x
  pub protect_ok : (inode off : ℕ) (w : W) → ok w → ok (protect inode off w).1

length-bytes_at : (mem : ℕ → ℕ) (a n : ℕ) → length (bytes_at mem a n) ≡ n
unfolding bytes_at
length-bytes_at mem a zero = refl
length-bytes_at mem a (suc n) = ap suc (length-bytes_at mem (a + 1) n)

get_or-bytes_at : (mem : ℕ → ℕ) (a n i : ℕ) → i < n → get_or (bytes_at mem a n) i 0 ≡ mem (a + i)
unfolding bytes_at
get_or-bytes_at mem a zero i h = absurd (omega arith)
get_or-bytes_at mem a (suc n) zero h = let same : a + 0 ≡ a = omega arith in ap mem (sym same)
get_or-bytes_at mem a (suc n) (suc i) h =
    let same : a + 1 + i ≡ a + suc i = omega arith in
    get_or-bytes_at mem (a + 1) n i (omega arith) ∙ ap mem same

not-false : (b : Bool) → not b ≡ false → b ≡ true
not-false b h = ground arith

outside_clear :
    (mem : ℕ → ℕ) (pa n a : ℕ)
    → n ≤ page_size
    → (a < pa) ⊎ (pa + page_size ≤ a)
    → clear mem (pa + n) (page_size - n) a ≡ mem a
outside_clear mem pa n a small h = ground arith

below_clear :
    (mem : ℕ → ℕ) (pa n i : ℕ) → i < n → clear mem (pa + n) (page_size - n) (pa + i) ≡ mem (pa + i)
below_clear mem pa n i h = ground arith

module _ {W : Type 0} (ident : ℕ → Ident) (size_of : W → ℕ → ℕ)
    (store : (inode file_off : ℕ) → List ℕ → W → Bool × W)
    (protect : (inode file_off : ℕ) → W → Bool × W) (disk : W → (inode off i : ℕ) → ℕ)
    (ok : W → Type 0) where
  -- the bytes of the entry's page that lie in the file are stored
  unfoldable pub Saved : Cache W → Entry → Type 0
  Saved c e =
      (i : ℕ)
      → i < pagecache_entry_max_bytes ident size_of store protect c.world e
      → disk c.world e.inode e.file_off i ≡ c.pmm.mem (e.pa + i)

  -- what the write-back of `e` leaves of everything beside its page
  pub record Beside (e : Entry) (c c' : Cache W) : Type 0 where
    pub size : (x : ℕ) → size_of c'.world x ≡ size_of c.world x
    pub stored :
        (inode off i : ℕ)
        → off % page_size ≡ 0
        → i < page_size
        → pagecache_inode_same ident inode e.inode && off == e.file_off ≡ false
        → disk c'.world inode off i ≡ disk c.world inode off i
    pub memory : (a : ℕ) → (a < e.pa) ⊎ (e.pa + page_size ≤ a) → c'.pmm.mem a ≡ c.pmm.mem a
    pub fine : ok c'.world

  pub max_bytes_same :
      (w w' : W) (e : Entry)
      → size_of w' e.inode ≡ size_of w e.inode
      → pagecache_entry_max_bytes ident size_of store protect w' e
        ≡ pagecache_entry_max_bytes ident size_of store protect w e
  unfolding pagecache_entry_max_bytes
  max_bytes_same w w' e h = rw h refl

  pub max_bytes_le :
      (w : W) (e : Entry) → pagecache_entry_max_bytes ident size_of store protect w e ≤ page_size
  unfolding pagecache_entry_max_bytes
  max_bytes_le w e = ground arith

  -- what an attempt to write `e` back leaves: it is cleaned only when it is stored
  unfoldable pub Written : (i : ℕ) → Entry → Cache W → Bool × Cache W → Type 0
  Written i e c (ok, c') =
      Beside e c c'
      × ((c'.entries ≡ c.entries)
          ⊎ (Saved c' e
              × ((t : ℕ) × (c'.entries
                    ≡ set c.entries i (record e { dirty = false; last_touch = t })))))

  protected-Written :
      (laws : Laws ident size_of store protect disk ok) (i : ℕ) (e : Entry) (c c1 : Cache W)
      → get_or c1.entries i zero_entry ≡ e
      → c1.entries ≡ c.entries
      → Beside e c c1
      → Saved c1 e
      → Written i e c (protected ident size_of store protect i e c1)
  unfolding protected cleaned Written Saved
  protected-Written laws i e c c1 at same b saved =
      let w : W = (protect e.inode e.file_off c1.world).1 in
      let t : ℕ = pagecache_touch_tick c1.clock in
      let build : List Entry → Entry → List Entry =
        λ es x. set es i (record x { dirty = false; last_touch = t }) in
      let size =
        max_bytes_same c1.world w e (laws.protect_size e.inode e.file_off c1.world e.inode) in
      if_cases {A = Bool × Cache W} (Written i e c) (protect e.inode e.file_off c1.world).0 _ _
        (λ _. (
          record {
            size = λ x. laws.protect_size e.inode e.file_off c1.world x ∙ b.size x;
            stored = λ x off j al sm h.
                laws.protect_disk e.inode e.file_off c1.world x off j ∙ b.stored x off j al sm h;
            memory = b.memory;
            fine = laws.protect_ok e.inode e.file_off c1.world b.fine;
          },
          inr (
            λ j l.
                laws.protect_disk e.inode e.file_off c1.world e.inode e.file_off j
                ∙ saved j (subst (λ n. j < n) size l),
            (_, ap₂ build same at),
          ),
        ))
        (λ _. (
          record {
            size = λ x. laws.protect_size e.inode e.file_off c1.world x ∙ b.size x;
            stored = λ x off j al sm h.
                laws.protect_disk e.inode e.file_off c1.world x off j ∙ b.stored x off j al sm h;
            memory = b.memory;
            fine = laws.protect_ok e.inode e.file_off c1.world b.fine;
          },
          inl same,
        ))

  Beside-refl : (e : Entry) (c : Cache W) → ok c.world → Beside e c c
  Beside-refl e c fine = record {
    size = λ x. refl;
    stored = λ x off j al sm h. refl;
    memory = λ a h. refl;
    fine = fine;
  }

  max_bytes_fit :
      (w : W) (e : Entry)
      → let n = pagecache_entry_max_bytes ident size_of store protect w e in
        n == 0 ≡ false → e.file_off + n ≤ size_of w e.inode
  unfolding pagecache_entry_max_bytes
  max_bytes_fit w e h = ground (arith, h)

  -- Clearing the end of the page changes nothing beside it, and nothing of its first `n` bytes.
  clear_page-Beside :
      (e : Entry) (n : ℕ) (c c1 : Cache W)
      → n ≤ page_size
      → Beside e c c1
      → Beside e c (clear_page ident size_of store protect e.pa n c1)
  unfolding clear_page
  clear_page-Beside e n c c1 small b = record {
    size = b.size;
    stored = b.stored;
    memory = λ a h. outside_clear c1.pmm.mem e.pa n a small h ∙ b.memory a h;
    fine = b.fine;
  }

  clear_page-Saved :
      (e : Entry) (n : ℕ) (c1 : Cache W)
      → pagecache_entry_max_bytes ident size_of store protect c1.world e ≤ n
      → Saved c1 e
      → Saved (clear_page ident size_of store protect e.pa n c1) e
  unfolding clear_page Saved
  clear_page-Saved e n c1 small s =
      λ i h. s i h ∙ sym (below_clear c1.pmm.mem e.pa n i (omega (arith, h, small)))

  pub pagecache_entry_writeback-Written :
      (laws : Laws ident size_of store protect disk ok) (i : ℕ) (c : Cache W)
      → (get_or c.entries i zero_entry).used ≡ true
      → (get_or c.entries i zero_entry).dirty ≡ true
      → (get_or c.entries i zero_entry).file_off % page_size ≡ 0
      → ok c.world
      → Written i
          (get_or c.entries i zero_entry)
          c
          (pagecache_entry_writeback ident size_of store protect i c)
  unfolding pagecache_entry_writeback clear_page cleaned Written Saved
  pagecache_entry_writeback-Written laws i c u d al fine =
      let e = get_or c.entries i zero_entry in
      let n = pagecache_entry_max_bytes ident size_of store protect c.world e in
      let is_file = same_type (ident e.inode).type inode_file in
      let xs = bytes_at c.pmm.mem e.pa n in
      let P : Bool × Cache W → Type 0 = Written i e c in
      let c1 : Cache W = record c { world = (store e.inode e.file_off xs c.world).1 } in
      let idle : not e.used || not e.dirty ≡ false = ap₂ (λ a b. not a || not b) u d in
      let fits : n == 0 ≡ false → InFile size_of e.inode e.file_off xs c.world = λ h.
        let len = length-bytes_at c.pmm.mem e.pa n in
        (
          al,
          omega (arith, len, max_bytes_le c.world e),
          omega (arith, len, max_bytes_fit c.world e h),
        ) in
      let b1 : n == 0 ≡ false → Beside e c c1 = λ p. record {
        size = λ x. laws.store_size e.inode e.file_off xs c.world x fine (fits p);
        stored = λ x off j al' sm h.
            laws.store_beside e.inode e.file_off xs c.world x off j fine (fits p) al' sm h;
        memory = λ a h. refl;
        fine = laws.store_ok e.inode e.file_off xs c.world fine (fits p);
      } in
      let same : n == 0 ≡ false
          → pagecache_entry_max_bytes ident size_of store protect c1.world e ≡ n =
        λ p.
          max_bytes_same c.world c1.world e
            (laws.store_size e.inode e.file_off xs c.world e.inode fine (fits p)) in
      let nothing : n ≡ 0 → Saved c e = λ h. λ j l. absurd (omega (arith, l, h)) in
      rw idle (
        if_cases P (n == 0) _ _
          (λ h.
            if_cases {A = Bool × Cache W} P is_file _ _
              (λ _.
                protected-Written laws i e c (clear_page ident size_of store protect e.pa 0 c) refl
                  refl (clear_page-Beside e 0 c c (omega arith) (Beside-refl e c fine))
                  (clear_page-Saved e 0 c (omega (arith, ==→eq n 0 h)) (nothing (==→eq n 0 h))))
              (λ _. (
                record {
                  size = λ x. refl;
                  stored = λ x off j al' sm g. refl;
                  memory = λ a g. refl;
                  fine = fine;
                },
                inr (nothing (==→eq n 0 h), (_, refl)),
              )))
          (λ p.
            if_cases P (not (store e.inode e.file_off xs c.world).0) _ _ (λ _. (b1 p, inl refl))
              (λ ok.
                let saved : Saved c1 e = λ j l.
                  let goes : (store e.inode e.file_off xs c.world).0 ≡ true = not-false _ ok in
                  let inside : j < n = subst (λ m. j < m) (same p) l in
                  laws.stores e.inode e.file_off xs c.world j fine (fits p) goes
                    (omega (arith, inside, length-bytes_at c.pmm.mem e.pa n))
                  ∙ get_or-bytes_at c.pmm.mem e.pa n j inside in
                if_cases {A = Cache W} (λ d. P (protected ident size_of store protect i e d))
                  (is_file && ltb n page_size) _ _
                  (λ _.
                    protected-Written laws i e c (clear_page ident size_of store protect e.pa n c1)
                      refl refl (clear_page-Beside e n c c1 (max_bytes_le c.world e) (b1 p))
                      (clear_page-Saved e n c1 (omega (arith, same p)) saved))
                  (λ _. protected-Written laws i e c c1 refl refl (b1 p) saved))))
