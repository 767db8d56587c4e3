-- ===== src/PageCache/Drop.antt =====
-- Truncation and invalidation in kernel/pagecache.c: pages that leave the cache without a write-back.
-- The loops over the table carry the clock and the physical pages along.
use furi_os.Prelude.{
  ℕ, ◌+◌, ◌-◌, ◌%◌, Bool, true, false, not, ◌&&◌, ◌||◌, List, [], ◌∷◌, ltb, leb, ◌==◌,
  if◌then◌else◌,
}
use furi_os.Pmm.{Pmm, page_size, clear, pmm_page_refcount, pmm_free_page}
use furi_os.PageCache.{
  Ident, Entry, zero_entry, Cache, inode_file, inode_dev, same_type, pagecache_inode_same,
  pagecache_range_overlaps, pagecache_touch_tick,
}

-- fs_is_block_dev is a parameter of the kind of device.
unfoldable pub pagecache_inode_supported :
    (is_block : ℕ → Bool) → (ident : ℕ → Ident) → (inode : ℕ) → Bool
pagecache_inode_supported is_block ident inode =
    let x = ident inode in
    if inode == 0
    then false
    else if same_type x.type inode_dev
    then is_block x.dev_kind
    else same_type x.type inode_file

-- An entry, the clock and the physical pages.
abbrev pub Slot : Type 0
Slot = Entry × ℕ × Pmm

-- memset on the part of a page behind its first `n` bytes
abbrev pub clear_behind : Pmm → (pa n : ℕ) → Pmm
clear_behind s pa n = record s { mem = clear s.mem (pa + n) (page_size - n) }

unfoldable pub pagecache_zero_tail : Entry → (keep_bytes clock : ℕ) → Pmm → Slot
pagecache_zero_tail e keep_bytes clock s =
    let t = pagecache_touch_tick clock in
    if not e.used || leb page_size keep_bytes
    then (e, clock, s)
    else (record e { dirty = false; last_touch = t }, t, clear_behind s e.pa keep_bytes)

-- `eof & ~(PAGE_SIZE - 1)` is `eof - eof % PAGE_SIZE`.
unfoldable pub truncate_entry :
    (ident : ℕ → Ident) → (inode eof : ℕ) → Entry → (clock : ℕ) → Pmm → Slot
truncate_entry ident inode eof e clock s =
    let eof_page = eof - eof % page_size in
    let t = pagecache_touch_tick clock in
    if not e.used || not (pagecache_inode_same ident e.inode inode)
    then (e, clock, s)
    else if leb eof e.file_off
    then if ltb 1 (pmm_page_refcount s e.pa)
      then (record e { dirty = false; last_touch = t }, t, clear_behind s e.pa 0)
      else (zero_entry, clock, pmm_free_page s e.pa)
    else if e.file_off == eof_page && not (eof % page_size == 0)
    then pagecache_zero_tail e (eof - eof_page) clock s
    else (e, clock, s)

unfoldable pub truncate_loop :
    (ident : ℕ → Ident) → (inode eof : ℕ) → List Entry → (clock : ℕ) → Pmm → List Entry × ℕ × Pmm
truncate_loop ident inode eof [] clock s = ([], clock, s)
truncate_loop ident inode eof (e ∷ es) clock s =
    let (e', clock1, s1) = truncate_entry ident inode eof e clock s in
    let (es', clock2, s2) = truncate_loop ident inode eof es clock1 s1 in (e' ∷ es', clock2, s2)

unfoldable pub pagecache_truncate_inode :
    {W : Type 0} (is_block : ℕ → Bool) (ident : ℕ → Ident) (inode new_size : ℕ) → Cache W → Cache W
pagecache_truncate_inode is_block ident inode new_size c =
    let (es, clock, s) = truncate_loop ident inode new_size c.entries c.clock c.pmm in
    if pagecache_inode_supported is_block ident inode
    then record c { entries = es; clock = clock; pmm = s }
    else c

-- Whether an entry in the range was pinned, the entries and the physical pages.
unfoldable pub invalidate_loop :
    (ident : ℕ → Ident) → (inode start_off len : ℕ) → List Entry → Pmm → Bool × List Entry × Pmm
invalidate_loop ident inode start_off len [] s = (false, [], s)
invalidate_loop ident inode start_off len (e ∷ es) s =
    let (busy, kept, s1) = invalidate_loop ident inode start_off len es s in
    let (busy', kept', s2) = invalidate_loop ident inode start_off len es (pmm_free_page s e.pa) in
    if not e.used
      || not (pagecache_inode_same ident e.inode inode)
      || not (pagecache_range_overlaps e start_off len)
    then (busy, e ∷ kept, s1)
    else if ltb 1 (pmm_page_refcount s e.pa)
    then (true, e ∷ kept, s1)
    else (busy', zero_entry ∷ kept', s2)

-- Whether the result is 0, else it is -1.
unfoldable pub pagecache_invalidate_inode_range :
    {W : Type 0} (ident : ℕ → Ident) (inode start_off len : ℕ) → Cache W → Bool × Cache W
pagecache_invalidate_inode_range ident inode start_off len c =
    let (busy, es, s) = invalidate_loop ident inode start_off len c.entries c.pmm in
    if inode == 0 then (false, c) else (not busy, record c { entries = es; pmm = s })
