-- ===== src/PageCache/Storage.antt =====
-- pagecache_store_page of kernel/pagecache.c: where the bytes of a cached page go. A file of the file
-- system in memory is its buffer, with the bytes that `memcpy` puts there; the branches of a block
-- device and of ext4 are parameters, over the rest of the state.
use furi_os.Prelude.{
  false≢true, subst, if_cases, Bool-cases, ==→eq, ==_self, ℕ, ◌+◌, ◌-◌, ◌%◌, ◌≤◌, ◌<◌, ◌≡◌, refl,
  ap, sym, ◌∙◌, ◌⊎◌, inl, inr, Bool, true, false, not, ◌&&◌, ◌||◌, Option, none, some, List, ltb,
  leb, ◌==◌, if◌then◌else◌, arith, get_or, length,
}
use furi_os.Pmm.{page_size}
use furi_os.PageCache.{
  Ident, inode_file, inode_dev, mem_fs, same_type, same_kind, pagecache_inode_same,
}
use furi_os.PageCache.Drop.{pagecache_inode_supported}
use furi_os.PageCache.Store.{Laws, InFile}

-- `data` (`none` where it is NULL), `capacity` and `size` of an inode
pub record MemFile : Type 0 where
  pub contents : Option (ℕ → ℕ)
  pub capacity : ℕ
  pub size : ℕ

-- memcpy of the first `n` bytes of `xs` to the offset `off`
unfoldable pub copy_in : (off n : ℕ) → List ℕ → (ℕ → ℕ) → ℕ → ℕ
copy_in off n xs bytes a = if leb off a && ltb a (off + n) then get_or xs (a - off) 0 else bytes a

-- The branch of the file system in memory.
unfoldable pub store_mem : (off n : ℕ) → List ℕ → MemFile → Option (ℕ → ℕ) → MemFile
store_mem off n xs f none = f
store_mem off n xs f (some bytes) =
    let cap_rem = f.capacity - off in
    let m = if ltb cap_rem n then cap_rem else n in
    let end = off + m in
    if leb f.capacity off || m == 0 then f else record f {
      contents = some (copy_in off m xs bytes);
      size = if ltb f.size end then end else f.size;
    }

-- The inodes' contents, and the state of the block devices and of ext4.
pub record Backing (V : Type 0) : Type 0 where
  pub files : ℕ → MemFile
  pub behind : V

unfoldable pub put_file : ℕ → MemFile → (ℕ → MemFile) → ℕ → MemFile
put_file inode f files j = if j == inode then f else files j

-- `n` is the number of bytes of `xs` to store: the parameters take it too.
unfoldable pub pagecache_store_page :
    {V : Type 0} (is_block : ℕ → Bool) (ident : ℕ → Ident)
    (dev_store ext4_store : (inode file_off n : ℕ) → List ℕ → Backing V → Bool × Backing V)
    (inode file_off : ℕ)
    → List ℕ
    → Backing V
    → Bool × Backing V
pagecache_store_page is_block ident dev_store ext4_store inode file_off xs w =
    let n = if ltb page_size (length xs) then page_size else length xs in
    let f = w.files inode in
    let f' = store_mem file_off n xs f f.contents in
    if not (pagecache_inode_supported is_block ident inode)
      || not (file_off % page_size == 0)
      || length xs == 0
    then (false, w)
    else if same_type (ident inode).type inode_dev
    then dev_store inode file_off n xs w
    else if same_kind (ident inode).fs_kind mem_fs
    then (true, record w { files = put_file inode f' w.files })
    else ext4_store inode file_off n xs w

abbrev pub size_of : {V : Type 0} → Backing V → ℕ → ℕ
size_of w inode = (w.files inode).size

unfoldable pub byte_of : Option (ℕ → ℕ) → ℕ → ℕ
byte_of none a = 0
byte_of (some bytes) a = bytes a

abbrev pub disk : {V : Type 0} → Backing V → (inode off i : ℕ) → ℕ
disk w inode off i = byte_of (w.files inode).contents (off + i)

-- every file fits into its buffer, which is not NULL where the file is not empty
pub record Sized {V : Type 0} (w : Backing V) : Type 0 where
  pub within : (j : ℕ) → (w.files j).size ≤ (w.files j).capacity
  pub present :
      (j : ℕ) → ((w.files j).size ≡ 0) ⊎ ((bytes : ℕ → ℕ) × ((w.files j).contents ≡ some bytes))

-- What storing does to one file: the bytes at their place, and the rest kept.
record Stored (off : ℕ) (xs : List ℕ) (f f' : MemFile) : Type 0 where
  pub size : f'.size ≡ f.size
  pub capacity : f'.capacity ≡ f.capacity
  pub present : (bytes : ℕ → ℕ) × (f'.contents ≡ some bytes)
  pub here : (i : ℕ) → i < length xs → byte_of f'.contents (off + i) ≡ get_or xs i 0
  pub beside :
      (a : ℕ) → (a < off) ⊎ (off + length xs ≤ a) → byte_of f'.contents a ≡ byte_of f.contents a

copied : (off i : ℕ) (xs : List ℕ) → get_or xs (off + i - off) 0 ≡ get_or xs i 0
copied off i xs = ap (λ k. get_or xs k 0) (omega arith)

outside_copy :
    (off : ℕ) (xs : List ℕ) (bytes : ℕ → ℕ) (a : ℕ)
    → (a < off) ⊎ (off + length xs ≤ a)
    → copy_in off (length xs) xs bytes a ≡ bytes a
unfolding copy_in
outside_copy off xs bytes a h = ground (arith, h)

store_mem-Stored :
    (off : ℕ) (xs : List ℕ) (f : MemFile) (bytes : ℕ → ℕ)
    → f.contents ≡ some bytes
    → 0 < length xs
    → off + length xs ≤ f.size
    → f.size ≤ f.capacity
    → Stored off xs f (store_mem off (length xs) xs f (some bytes))
unfolding store_mem byte_of copy_in
store_mem-Stored off xs f bytes e some_bytes inside room =
    let open_file : leb f.capacity off ≡ false = ground arith in
    let whole : ltb (f.capacity - off) (length xs) ≡ false = ground arith in
    let more : (length xs == 0) ≡ false = ground arith in
    let stays : ltb f.size (off + length xs) ≡ false = ground arith in
    rw (open_file, whole, more, stays)
      record {
        size = refl;
        capacity = refl;
        present = (_, refl);
        here = λ i h. ground (arith, copied off i xs);
        beside = λ a h. outside_copy off xs bytes a h ∙ ap (λ d. byte_of d a) (sym e);
      }

put_here : (inode : ℕ) (f : MemFile) (files : ℕ → MemFile) → put_file inode f files inode ≡ f
unfolding put_file
put_here inode f files = rw (==_self inode) refl

put_there :
    (inode j : ℕ) (f : MemFile) (files : ℕ → MemFile)
    → j == inode ≡ false
    → put_file inode f files j ≡ files j
unfolding put_file
put_there inode j f files h = rw h refl

-- Two pages of a file do not meet.
pages_apart :
    (off off' i n : ℕ)
    → off % page_size ≡ 0
    → off' % page_size ≡ 0
    → i < page_size
    → n ≤ page_size
    → off' == off ≡ false
    → (off' + i < off) ⊎ (off + n ≤ off' + i)
pages_apart off off' i n al al' h k ne = ground (arith, al, al', ne)

module _ {V : Type 0} (is_block : ℕ → Bool) (ident : ℕ → Ident)
    (dev_store ext4_store : (inode file_off n : ℕ) → List ℕ → Backing V → Bool × Backing V)
    (mem_files : (j : ℕ) → ((ident j).type ≡ inode_file) × ((ident j).fs_kind ≡ mem_fs)) where
  abbrev store_page : (inode file_off : ℕ) → List ℕ → Backing V → Bool × Backing V
  store_page = pagecache_store_page is_block ident dev_store ext4_store

  abbrev kept : ℕ → ℕ → List ℕ → Backing V → Backing V
  kept inode off xs w =
      let f = w.files inode in
      record w { files = put_file inode (store_mem off (length xs) xs f f.contents) w.files }

  -- A page is refused, or it goes to the file's buffer.
  store_cases :
      (P : Bool × Backing V → Type 0) (inode off : ℕ) (xs : List ℕ) (w : Backing V)
      → length xs ≤ page_size
      → P (false, w)
      → (0 < length xs → P (true, kept inode off xs w))
      → P (store_page inode off xs w)
  unfolding pagecache_store_page same_type same_kind
  store_cases P inode off xs w small refused goes =
      let (t, k) = mem_files inode in
      let n : ltb page_size (length xs) ≡ false = ground arith in
      let refuses =
        not (pagecache_inode_supported is_block ident inode)
        || not (off % page_size == 0)
        || length xs == 0 in
      rw (n, t, k) (if_cases P refuses _ _ (λ _. refused) (λ h. goes (ground (arith, h))))

  file-Stored :
      (inode off : ℕ) (xs : List ℕ) (w : Backing V)
      → Sized w
      → InFile size_of inode off xs w
      → 0 < length xs
      → Stored off xs
          (w.files inode)
          (store_mem off (length xs) xs (w.files inode) (w.files inode).contents)
  file-Stored inode off xs w s (al, small, inside) more =
      let f = w.files inode in
      elim (s.present inode) [
        | inl empty ↦ absurd (omega (arith, empty, inside))
        | inr (bytes, e) ↦
            subst (λ d. Stored off xs f (store_mem off (length xs) xs f d)) (sym e)
              (store_mem-Stored off xs f bytes e more inside (s.within inode))
      ]

  other_page :
      (inode inode' off off' : ℕ)
      → inode' == inode ≡ true
      → pagecache_inode_same ident inode' inode && off' == off ≡ false
      → off' == off ≡ false
  unfolding pagecache_inode_same
  other_page inode inode' off off' e ne = ground (arith, e, ne)

  size_same :
      (inode off : ℕ) (xs : List ℕ) (w : Backing V) (x : ℕ)
      → Stored off xs
          (w.files inode)
          (store_mem off (length xs) xs (w.files inode) (w.files inode).contents)
      → size_of (kept inode off xs w) x ≡ size_of w x
  size_same inode off xs w x st = elim (Bool-cases (x == inode)) [
    | inl e ↦
        rw (==→eq x inode e) (ap (λ (f : MemFile). f.size) (put_here inode _ w.files) ∙ st.size)
    | inr n ↦ ap (λ (f : MemFile). f.size) (put_there inode x _ w.files n)
  ]

  kept-Sized :
      (inode off : ℕ) (xs : List ℕ) (w : Backing V)
      → Sized w
      → Stored off xs
          (w.files inode)
          (store_mem off (length xs) xs (w.files inode) (w.files inode).contents)
      → Sized (kept inode off xs w)
  kept-Sized inode off xs w s st = record {
    within = λ j. elim (Bool-cases (j == inode)) [
      | inl e ↦ rw (==→eq j inode e) (
          subst (λ (f : MemFile). f.size ≤ f.capacity) (sym (put_here inode _ w.files))
            (omega (arith, st.size, st.capacity, s.within inode)))
      | inr n ↦
          subst (λ (f : MemFile). f.size ≤ f.capacity) (sym (put_there inode j _ w.files n))
            (s.within j)
    ];
    present = λ j. elim (Bool-cases (j == inode)) [
      | inl e ↦ rw (==→eq j inode e) (
          subst (λ (f : MemFile). (f.size ≡ 0) ⊎ ((bytes : ℕ → ℕ) × (f.contents ≡ some bytes)))
            (sym (put_here inode _ w.files)) (inr st.present))
      | inr n ↦
          subst (λ (f : MemFile). (f.size ≡ 0) ⊎ ((bytes : ℕ → ℕ) × (f.contents ≡ some bytes)))
            (sym (put_there inode j _ w.files n)) (s.present j)
    ];
  }

  beside :
      (inode off : ℕ) (xs : List ℕ) (w : Backing V) (inode' off' i : ℕ)
      → length xs ≤ page_size
      → off % page_size ≡ 0
      → off' % page_size ≡ 0
      → i < page_size
      → pagecache_inode_same ident inode' inode && off' == off ≡ false
      → Stored off xs
          (w.files inode)
          (store_mem off (length xs) xs (w.files inode) (w.files inode).contents)
      → disk (kept inode off xs w) inode' off' i ≡ disk w inode' off' i
  beside inode off xs w inode' off' i small al al' h ne st = elim (Bool-cases (inode' == inode)) [
    | inl e ↦
        let apart =
          pages_apart off off' i (length xs) al al' h small
            (other_page inode inode' off off' e ne) in
        rw (==→eq inode' inode e) (
          ap (λ (f : MemFile). byte_of f.contents (off' + i)) (put_here inode _ w.files)
          ∙ st.beside (off' + i) apart)
    | inr n ↦
        ap (λ (f : MemFile). byte_of f.contents (off' + i)) (put_there inode inode' _ w.files n)
  ]

  -- With every file in memory, pagecache_store_page keeps the laws that the cache relies on, in the
  -- states in which files fit into their buffers.
  pub store-Laws :
      (protect : (inode file_off : ℕ) → Backing V → Bool × Backing V)
      → ((inode off : ℕ) (w : Backing V) → (protect inode off w).1.files ≡ w.files)
      → Laws ident size_of store_page protect disk Sized
  store-Laws protect no_files = record {
    stores = λ inode off xs w i s (al, small, inside).
        store_cases (λ r. r.0 ≡ true → i < length xs → disk r.1 inode off i ≡ get_or xs i 0) inode
          off xs w small (λ e. absurd (false≢true e))
          (λ more e h.
            ap (λ (f : MemFile). byte_of f.contents (off + i)) (put_here inode _ w.files)
            ∙ (file-Stored inode off xs w s (al, small, inside) more).here i h);
    store_beside = λ inode off xs w inode' off' i s (al, small, inside) al' h ne.
        store_cases (λ r. disk r.1 inode' off' i ≡ disk w inode' off' i) inode off xs w small refl
          (λ more.
            beside inode off xs w inode' off' i small al al' h ne
              (file-Stored inode off xs w s (al, small, inside) more));
    store_size = λ inode off xs w x s (al, small, inside).
        store_cases (λ r. size_of r.1 x ≡ size_of w x) inode off xs w small refl
          (λ more.
            size_same inode off xs w x (file-Stored inode off xs w s (al, small, inside) more));
    store_ok = λ inode off xs w s (al, small, inside).
        store_cases (λ r. Sized r.1) inode off xs w small s
          (λ more.
            kept-Sized inode off xs w s (file-Stored inode off xs w s (al, small, inside) more));
    protect_disk = λ inode off w inode' off' i.
        ap (λ (g : ℕ → MemFile). byte_of (g inode').contents (off' + i)) (no_files inode off w);
    protect_size = λ inode off w x. ap (λ (g : ℕ → MemFile). (g x).size) (no_files inode off w);
    protect_ok = λ inode off w s. record {
      within = λ j.
          subst (λ (g : ℕ → MemFile). (g j).size ≤ (g j).capacity) (sym (no_files inode off w))
            (s.within j);
      present = λ j.
          subst
            (λ (g : ℕ → MemFile).
              ((g j).size ≡ 0) ⊎ ((bytes : ℕ → ℕ) × ((g j).contents ≡ some bytes)))
            (sym (no_files inode off w)) (s.present j);
    };
  }
