-- ===== src/PageCache.antt =====
-- kernel/pagecache.c: pages of files and block devices cached above the file systems.
-- `Cache` holds the module's variables, the state of the physical pages and `world`, the state behind
-- pagecache_store_page and task_pagecache_writeprotect_shared, which are parameters here (`Storage`
-- has the first, for files in memory), as are the inodes: `ident` is what pagecache_inode_same compares of the inode at a pointer, which those two
-- calls do not change, and `size_of` is its size, which they may. A pointer to an inode is a number,
-- 0 for NULL. The counters of entries do not wrap; sums of `uint64_t` do.
pub mod Victim
pub mod Clean
pub mod Flush
pub mod Store
pub mod Storage
pub mod Durable
pub mod MemFiles
pub mod Range
pub mod Drop
pub mod Truncate
mod Tests
use furi_os.Prelude.{
  ℕ, zero, suc, ◌+◌, ◌-◌, ◌*◌, ◌/◌, ◌%◌, ◌^◌, ◌≤◌, ◌<◌, min, ◌≡◌, refl, ap, ap₂, sym, ◌∙◌, subst,
  ◌⊎◌, ◌≢◌, ◌↔◌, inl, inr, Bool, true, false, false≢true, not, ◌&&◌, ◌||◌, Option, none, some, List,
  [], ◌∷◌, ◌++◌, map, ltb, leb, ◌==◌, if◌then◌else◌, if_cases, arith, Bool-cases, Option-cases,
  add64, sub64, append_assoc, append-nil, get_or, set, length, take, drop, replicate, bit_and, ℤ,
  pos, negsuc, negative, int_eq, add32, sub32, ltb→lt, leb→le, ==→eq, ==→ne, ==_self,
  get_or-set_self, get_or-set_ne, length-set, get_or-out, get_or-replicate, length-replicate,
  lt→ltb, overwrite, slice, get_elem?,
}
use furi_os.Pmm.{Pmm, page_size, clear, pmm_page_refcount, pmm_free_page}

pub data InodeType : Type 0 where
  inode_dir inode_file inode_dev : InodeType

pub data FsKind : Type 0 where
  mem_fs ext4_fs : FsKind

unfoldable pub same_type : InodeType → InodeType → Bool
same_type inode_dir inode_dir = true
same_type inode_file inode_file = true
same_type inode_dev inode_dev = true
same_type _ _ = false

unfoldable pub same_kind : FsKind → FsKind → Bool
same_kind mem_fs mem_fs = true
same_kind ext4_fs ext4_fs = true
same_kind _ _ = false

pub record Ident : Type 0 where
  pub type : InodeType
  pub fs_kind : FsKind
  pub dev_kind : ℕ
  pub dev_lba_start : ℕ
  pub dev_lba_count : ℕ
  pub fs_id : ℕ
  pub fs_ino : ℕ

pub record Entry : Type 0 where
  pub inode : ℕ
  pub file_off : ℕ
  pub pa : ℕ
  pub last_touch : ℕ
  pub used : Bool
  pub dirty : Bool

abbrev pub zero_entry : Entry
zero_entry = record { inode = 0; file_off = 0; pa = 0; last_touch = 0; used = false; dirty = false }

pub record Cache (W : Type 0) : Type 0 where
  pub entries : List Entry
  pub clock : ℕ
  pub last_tick : ℕ
  pub fail_streak : ℕ
  pub blocked_until : ℕ
  pub last_writeback_tick : ℕ
  pub pmm : Pmm
  pub world : W

-- MAX_FILE_CACHE_PAGES, and the PAGECACHE_ constants of the write-back
abbrev pub max_file_cache_pages : ℕ
max_file_cache_pages = 256

abbrev pub writeback_period : ℕ
writeback_period = 8

abbrev pub writeback_budget : ℕ
writeback_budget = 2

abbrev pub writeback_max_budget : ℕ
writeback_max_budget = 16

abbrev pub dirty_high_water : ℕ
dirty_high_water = 192

abbrev pub dirty_critical : ℕ
dirty_critical = 248

abbrev pub backoff_ticks : ℕ
backoff_ticks = 8

unfoldable pub pagecache_touch_tick : (clock : ℕ) → ℕ
pagecache_touch_tick clock = let next = add64 clock 1 in if next == 0 then 1 else next

unfoldable pub pagecache_inode_same : (ident : ℕ → Ident) (a b : ℕ) → Bool
pagecache_inode_same ident a b =
    let x = ident a in
    let y = ident b in
    if a == b
    then true
    else if a == 0 || b == 0 || not (same_type x.type y.type) || not (same_kind x.fs_kind y.fs_kind)
    then false
    else if same_type x.type inode_dev
    then x.dev_kind == y.dev_kind
      && x.dev_lba_start == y.dev_lba_start
      && x.dev_lba_count == y.dev_lba_count
    else if same_kind x.fs_kind ext4_fs
        && not (x.fs_id == 0)
        && not (y.fs_id == 0)
        && not (x.fs_ino == 0)
        && not (y.fs_ino == 0)
    then x.fs_id == y.fs_id && x.fs_ino == y.fs_ino
    else false

-- ~0ULL is 2 ^ 64 - 1.
unfoldable pub pagecache_range_overlaps : Entry → (start_off len : ℕ) → Bool
pagecache_range_overlaps e start_off len =
    let sum = add64 start_off len in
    let end_off = if ltb sum start_off then 2 ^ 64 - 1 else sum in
    let over = add64 e.file_off page_size in
    let page_end = if ltb over e.file_off then 2 ^ 64 - 1 else over in
    if not e.used
    then false
    else if len == 0
    then leb start_off e.file_off
    else not (leb page_end start_off || leb end_off e.file_off)

-- Which entries a flush is about: `inode` is 0 for all, and the range counts if `use_range`.
pub record Choice : Type 0 where
  pub inode : ℕ
  pub start_off : ℕ
  pub len : ℕ
  pub use_range : Bool

unfoldable pub chosen : (ident : ℕ → Ident) → Choice → Entry → Bool
chosen ident p e =
    e.used
    && e.dirty
    && (p.inode == 0 || pagecache_inode_same ident e.inode p.inode)
    && (not p.use_range || pagecache_range_overlaps e p.start_off p.len)

-- `!victim || last_touch < victim->last_touch`
unfoldable pub touched_before : (last_touch : ℕ) → Option (ℕ × ℕ) → Bool
touched_before last_touch none = true
touched_before last_touch (some (j, t)) = ltb last_touch t

-- The chosen entry that was touched longest ago, the first of equals: its index and last touch. `i` is
-- the index of the list's first entry, and `victim` the one found before it.
unfoldable pub victim_from :
    (ident : ℕ → Ident) → Choice → (i : ℕ) → List Entry → Option (ℕ × ℕ) → Option (ℕ × ℕ)
victim_from ident p i [] victim = victim
victim_from ident p i (e ∷ es) victim = victim_from ident p (i + 1) es (
    if chosen ident p e && touched_before e.last_touch victim
    then some (i, e.last_touch)
    else victim)

abbrev pub count_if : (Entry → Bool) → List Entry → ℕ
count_if test [] = 0
count_if test (e ∷ es) = let rest = count_if test es in if test e then suc rest else rest

unfoldable pub pagecache_dirty_count : List Entry → ℕ
pagecache_dirty_count = count_if (λ e. e.used && e.dirty)

unfoldable pub bytes_at : (mem : ℕ → ℕ) (at n : ℕ) → List ℕ
bytes_at mem at zero = []
bytes_at mem at (suc n) = mem at ∷ bytes_at mem (at + 1) n

unfoldable pub pagecache_writeback_blocked : {W : Type 0} → Cache W → Bool
pagecache_writeback_blocked c = not (c.fail_streak == 0) && ltb c.last_tick c.blocked_until

unfoldable pub pagecache_note_writeback_result : {W : Type 0} → (success : Bool) → Cache W → Cache W
pagecache_note_writeback_result success c =
    let streak = if ltb c.fail_streak 255 then c.fail_streak + 1 else c.fail_streak in
    let backoff = backoff_ticks * streak % 2 ^ 64 in
    let backoff' = if ltb backoff backoff_ticks then 2 ^ 64 - 1 else backoff in
    let until = add64 c.last_tick backoff' in
    if success then record c { fail_streak = 0; blocked_until = 0 } else record c {
      fail_streak = streak;
      blocked_until = if ltb until c.last_tick then 2 ^ 64 - 1 else until;
    }

-- `e->dirty = false; e->last_touch = pagecache_touch_tick()` for the entry `i`
unfoldable pub cleaned : {W : Type 0} → (i : ℕ) → Cache W → Cache W
cleaned i c =
    let t = pagecache_touch_tick c.clock in
    record c {
      entries =
          set c.entries i
            (record (get_or c.entries i zero_entry) { dirty = false; last_touch = t });
      clock = t;
    }

-- pagecache_flush_match(0, 0, 0, false, ...)
abbrev pub every_choice : Choice
every_choice = record { inode = 0; start_off = 0; len = 0; use_range = false }

module _ {W : Type 0} (ident : ℕ → Ident) (size_of : W → ℕ → ℕ)
    (store : (inode file_off : ℕ) → List ℕ → W → Bool × W)
    (protect : (inode file_off : ℕ) → W → Bool × W) where
  unfoldable pub pagecache_entry_max_bytes : W → Entry → ℕ
  pagecache_entry_max_bytes w e =
      let size = size_of w e.inode in
      if not e.used || e.inode == 0 || leb size e.file_off
      then 0
      else if ltb (size - e.file_off) page_size
      then size - e.file_off
      else page_size

  -- memset on the part of a page behind its first `n` bytes
  unfoldable pub clear_page : (pa n : ℕ) → Cache W → Cache W
  clear_page pa n c = record c {
    pmm = record c.pmm { mem = clear c.pmm.mem (pa + n) (page_size - n) };
  }

  -- The part of pagecache_entry_writeback that takes the page from its writers.
  unfoldable pub protected : (i : ℕ) → Entry → Cache W → Bool × Cache W
  protected i e c =
      let (ok, w) = protect e.inode e.file_off c.world in
      let c' = record c { world = w } in if ok then (true, cleaned i c') else (false, c')

  unfoldable pub pagecache_entry_writeback : (i : ℕ) → Cache W → Bool × Cache W
  pagecache_entry_writeback i c =
      let e = get_or c.entries i zero_entry in
      let n = pagecache_entry_max_bytes c.world e in
      let is_file = same_type (ident e.inode).type inode_file in
      let (stored, w) = store e.inode e.file_off (bytes_at c.pmm.mem e.pa n) c.world in
      let c' = record c { world = w } in
      if not e.used || not e.dirty
      then (true, c)
      else if n == 0
      then (if is_file then protected i e (clear_page e.pa 0 c) else (true, cleaned i c))
      else if not stored
      then (false, c')
      else protected i e (if is_file && ltb n page_size then clear_page e.pa n c' else c')

  unfoldable pub writeback_at : Option (ℕ × ℕ) → Cache W → Bool × Cache W
  writeback_at none c = (true, c)
  writeback_at (some (i, t)) c = pagecache_entry_writeback i c

  -- One round of the loop: without a victim it ends, and a failure ends it; `rest` is what follows.
  unfoldable pub flush_round :
      Option (ℕ × ℕ) → Bool × Cache W → Cache W → Bool × Cache W → Bool × Cache W
  flush_round none done c rest = (true, c)
  flush_round (some v) (true, c') c rest = rest
  flush_round (some v) (false, c') c rest = (false, pagecache_note_writeback_result false c')

  -- Whether the result is 0, else it is -1.
  unfoldable pub pagecache_flush_match : Choice → (budget : ℕ) → Cache W → Bool × Cache W
  pagecache_flush_match p zero c = (true, c)
  pagecache_flush_match p (suc budget) c =
      let v = victim_from ident p 0 c.entries none in
      let done = writeback_at v c in
      let rest = pagecache_flush_match p budget (pagecache_note_writeback_result true done.1) in
      flush_round v done c rest

  unfoldable pub pagecache_maybe_writeback_pressure : Cache W → Cache W
  pagecache_maybe_writeback_pressure c =
      let dirty = pagecache_dirty_count c.entries in
      let sum = writeback_max_budget + (dirty - dirty_high_water) in
      let budget =
        if leb dirty_critical dirty
        then max_file_cache_pages
        else if ltb max_file_cache_pages sum
        then max_file_cache_pages
        else sum in
      let (ok, c') = pagecache_flush_match every_choice budget c in
      if pagecache_writeback_blocked c || ltb dirty dirty_high_water then c else c'

  unfoldable pub pagecache_tick : (now_ticks : ℕ) → Cache W → Cache W
  pagecache_tick now_ticks c =
      let c1 = record c { last_tick = now_ticks } in
      let c2 = record c1 { last_writeback_tick = now_ticks } in
      let dirty = pagecache_dirty_count c.entries in
      let sum = writeback_budget + dirty / 8 in
      let budget = if ltb writeback_max_budget sum then writeback_max_budget else sum in
      let (ok, c3) = pagecache_flush_match every_choice budget c2 in
      if ltb (sub64 now_ticks c.last_writeback_tick) writeback_period
      then c1
      else if pagecache_writeback_blocked c2 || dirty == 0
      then c2
      else c3

  unfoldable pub pagecache_flush_inode : (inode : ℕ) → Cache W → Bool × Cache W
  pagecache_flush_inode inode c =
      if inode == 0
      then (true, c)
      else pagecache_flush_match (record every_choice { inode = inode }) max_file_cache_pages c

  unfoldable pub pagecache_flush_inode_range : (inode start_off len : ℕ) → Cache W → Bool × Cache W
  pagecache_flush_inode_range inode start_off len c =
      if inode == 0
      then (false, c)
      else pagecache_flush_match
          (record { inode = inode; start_off = start_off; len = len; use_range = true })
          max_file_cache_pages c

  unfoldable pub pagecache_flush_all : Cache W → Bool × Cache W
  pagecache_flush_all c = pagecache_flush_match every_choice max_file_cache_pages c
