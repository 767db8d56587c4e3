-- ===== src/PageCache/Tests.antt =====
-- The theorems on the page cache at a concrete table; behind it, a counter of stores.
use furi_os.Prelude.{
  ◌⊎◌, inr, some, ◌*◌, ℕ, zero, suc, ◌+◌, ◌≤◌, ◌<◌, ◌≡◌, refl, sym, ◌⊎◌, ◌↔◌, Bool, true, false,
  false≢true, ◌&&◌, List, [], ◌∷◌, ◌==◌, arith, get_or,
}
use furi_os.Pmm.{Pmm}
use furi_os.PageCache.{
  Ident, inode_file, mem_fs, Entry, Choice, Cache, zero_entry, chosen, every_choice, count_if,
  pagecache_range_overlaps, pagecache_note_writeback_result, pagecache_flush_all,
  pagecache_flush_inode_range, pagecache_dirty_count, min, backoff_ticks, page_size, same_kind,
  bytes_at,
}
use furi_os.PageCache.Flush.{pagecache_flush_all_lem, pagecache_flush_inode_range_lem}
use furi_os.PageCache.Clean.{Cleaned}
use furi_os.PageCache.{
  pagecache_inode_same, pagecache_flush_match, victim_from, touched_before, flush_round,
  writeback_at, pagecache_entry_writeback, protected, cleaned, clear_page, same_type,
  pagecache_entry_max_bytes, pagecache_touch_tick,
}
use furi_os.PageCache.Storage.{
  Backing, pagecache_store_page, size_of, byte_of, disk, Sized, store_mem, put_file,
}
use furi_os.PageCache.MemFiles.{mem_files_stored}
use furi_os.PageCache.Durable.{Distinct, Synced, Aligned}
use furi_os.PageCache.Drop.{
  pagecache_truncate_inode, truncate_loop, truncate_entry, pagecache_zero_tail,
  pagecache_inode_supported,
}
use furi_os.PageCache.Truncate.{pagecache_truncate_inode_lem}
use furi_os.PageCache.Range.{pagecache_range_overlaps_lem, failed_writeback_pauses, tick_run}

abbrev files : ℕ → Ident
files i = record {
  type = inode_file;
  fs_kind = mem_fs;
  dev_kind = 0;
  dev_lba_start = 0;
  dev_lba_count = 0;
  fs_id = 0;
  fs_ino = 0;
}

abbrev long_files : ℕ → ℕ → ℕ
long_files w i = 5000

abbrev counts : (inode file_off : ℕ) → List ℕ → ℕ → Bool × ℕ
counts inode file_off xs w = (true, w + 1)

abbrev protects : (inode file_off : ℕ) → ℕ → Bool × ℕ
protects inode file_off w = (true, w)

abbrev memory : Pmm
memory = record {
  cur = 0;
  end = 0;
  free_pages = λ i. 0;
  free_top = 0;
  page_refs = λ i. 0;
  owned_pages = 0;
  mem = λ a. 7;
}

abbrev second_page : Entry
second_page = record {
  inode = 1;
  file_off = 4096;
  pa = 0x40000000;
  last_touch = 3;
  used = true;
  dirty = true;
}

abbrev cache : Cache ℕ
cache = record {
  entries = zero_entry ∷ second_page ∷ [];
  clock = 3;
  last_tick = 100;
  fail_streak = 1;
  blocked_until = 0;
  last_writeback_tick = 90;
  pmm = memory;
  world = 0;
}

pagecache_flush_all_lem_test :
    let (ok, c') = pagecache_flush_all files long_files counts protects cache in
    Cleaned files every_choice cache.entries c'.entries
    × (((ok ≡ true) × (pagecache_dirty_count c'.entries ≡ 0))
        ⊎ ((ok ≡ false) × (0 < c'.fail_streak)))
pagecache_flush_all_lem_test =
    pagecache_flush_all_lem files long_files counts protects cache (omega arith)

pagecache_flush_inode_range_lem_example :
    let p : Choice = record { inode = 1; start_off = 4100; len = 10; use_range = true } in
    let (ok, c') = pagecache_flush_inode_range files long_files counts protects 1 4100 10 cache in
    Cleaned files p cache.entries c'.entries
    × (((ok ≡ true) × (count_if (chosen files p) c'.entries ≡ 0))
        ⊎ ((ok ≡ false) × (0 < c'.fail_streak)))
pagecache_flush_inode_range_lem_example =
    pagecache_flush_inode_range_lem files long_files counts protects 1 4100 10 cache refl
      (omega arith)

pagecache_range_overlaps_lem_example :
    (pagecache_range_overlaps second_page 4100 10 ≡ true)
    ↔ ((off : ℕ) × (4096 ≤ off) × (off < 8192) × (4100 ≤ off) × (off < 4110))
pagecache_range_overlaps_lem_example =
    pagecache_range_overlaps_lem second_page 4100 10 refl (omega arith) (omega arith) (omega arith)

failed_writeback_pauses_example :
    let c' =
      tick_run files long_files counts protects
        (113 ∷ 115 ∷ [])
        (pagecache_note_writeback_result false cache) in
    (c'.entries ≡ cache.entries)
    × (c'.pmm ≡ cache.pmm)
    × (c'.world ≡ cache.world)
    × (c'.fail_streak ≡ min (cache.fail_streak + 1) 255)
    × (c'.blocked_until ≡ cache.last_tick + backoff_ticks * min (cache.fail_streak + 1) 255)
failed_writeback_pauses_example =
    failed_writeback_pauses files long_files counts protects cache (113 ∷ 115 ∷ []) (omega arith)
      (omega arith) (omega arith, (omega arith, tt))

abbrev other_store : (inode file_off n : ℕ) → List ℕ → Backing ℕ → Bool × Backing ℕ
other_store inode off n xs w = (false, w)

abbrev keeps_files : (inode file_off : ℕ) → Backing ℕ → Bool × Backing ℕ
keeps_files inode off w = (true, w)

abbrev no_blocks : ℕ → Bool
no_blocks kind = false

abbrev stores : (inode file_off : ℕ) → List ℕ → Backing ℕ → Bool × Backing ℕ
stores = pagecache_store_page no_blocks files other_store other_store

abbrev zero_files : Backing ℕ
zero_files = record {
  files = λ j. record { contents = some (λ a. 0); capacity = 8192; size = 5000 };
  behind = 0;
}

zero_files-Sized : Sized zero_files
zero_files-Sized = record { within = λ j. omega arith; present = λ j. inr ((λ a. 0), refl) }

abbrev disk_cache : Cache (Backing ℕ)
disk_cache = record {
  entries = second_page ∷ [];
  clock = 3;
  last_tick = 100;
  fail_streak = 0;
  blocked_until = 0;
  last_writeback_tick = 90;
  pmm = memory;
  world = zero_files;
}

second_page-Aligned : Aligned disk_cache.entries
unfolding Aligned
second_page-Aligned zero u = refl
second_page-Aligned (suc k) u = absurd (false≢true u)

disk_cache-Distinct : Distinct files disk_cache.entries
unfolding Distinct
disk_cache-Distinct = (second_page-Aligned, apart)
  where
    apart :
        (k l : ℕ)
        → k == l ≡ false
        → (get_or disk_cache.entries k zero_entry).used ≡ true
        → (get_or disk_cache.entries l zero_entry).used ≡ true
        → let x = get_or disk_cache.entries k zero_entry in
          let e = get_or disk_cache.entries l zero_entry in
          (pagecache_inode_same files x.inode e.inode && x.file_off == e.file_off ≡ false)
          × ((x.pa + page_size ≤ e.pa) ⊎ (e.pa + page_size ≤ x.pa))
    apart zero zero ne u v = ground arith
    apart zero (suc l) ne u v = absurd (false≢true v)
    apart (suc k) l ne u v = absurd (false≢true u)

disk_cache-Synced : Synced files size_of stores keeps_files disk Sized disk_cache
unfolding Synced
disk_cache-Synced zero u d = absurd (false≢true (sym d))
disk_cache-Synced (suc k) u d = absurd (false≢true u)

mem_files_stored_example :
    let c' = (pagecache_flush_all files size_of stores keeps_files disk_cache).1 in
    let e = get_or c'.entries 0 zero_entry in
    byte_of (c'.world.files e.inode).contents (e.file_off + 3) ≡ c'.pmm.mem (e.pa + 3)
unfolding pagecache_flush_all pagecache_flush_match victim_from chosen pagecache_inode_same
    touched_before flush_round writeback_at pagecache_entry_writeback protected cleaned clear_page
    pagecache_entry_max_bytes pagecache_touch_tick same_type same_kind
    pagecache_note_writeback_result pagecache_store_page store_mem put_file
    pagecache_inode_supported bytes_at
mem_files_stored_example =
    mem_files_stored no_blocks files other_store other_store keeps_files (λ j. (refl, refl))
      (λ inode off w. refl) disk_cache 0 3 (omega arith) zero_files-Sized disk_cache-Distinct
      disk_cache-Synced refl (omega arith) refl (omega arith)

abbrev no_device : ℕ → Bool
no_device kind = false

pagecache_truncate_inode_lem_example :
    let c' = pagecache_truncate_inode no_device files 1 5000 cache in
    let e = get_or c'.entries 1 zero_entry in
    (e.file_off + 1000 < 5000) ⊎ (c'.pmm.mem (e.pa + 1000) ≡ 0)
unfolding pagecache_truncate_inode truncate_loop truncate_entry pagecache_zero_tail
    pagecache_inode_same pagecache_inode_supported same_type
pagecache_truncate_inode_lem_example =
    pagecache_truncate_inode_lem no_device files 1 5000 cache 1 1000 refl refl refl refl
      (omega arith)
