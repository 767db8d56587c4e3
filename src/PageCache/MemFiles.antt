-- ===== src/PageCache/MemFiles.antt =====
-- What a flush of the page cache promises for the files of the file system in memory.
use furi_os.Prelude.{ℕ, ◌+◌, ◌≤◌, ◌<◌, ◌≡◌, Bool, true, List, get_or, length}
use furi_os.PageCache.{
  Ident, zero_entry, inode_file, mem_fs, Cache, pagecache_entry_max_bytes, pagecache_flush_all,
  max_file_cache_pages,
}
use furi_os.PageCache.Storage.{
  Backing, pagecache_store_page, size_of, byte_of, disk, Sized, store-Laws,
}
use furi_os.PageCache.Durable.{Distinct, Synced, flush_all_stored}

module _ {V : Type 0} (is_block : ℕ → Bool) (ident : ℕ → Ident)
    (dev_store ext4_store : (inode file_off n : ℕ) → List ℕ → Backing V → Bool × Backing V)
    (protect : (inode file_off : ℕ) → Backing V → Bool × Backing V) where
  abbrev pub store_page : (inode file_off : ℕ) → List ℕ → Backing V → Bool × Backing V
  store_page = pagecache_store_page is_block ident dev_store ext4_store

  -- With every file in memory and within its buffer, and page tables whose change writes no file: if
  -- entries in use are about different whole pages of files and have different physical pages, and
  -- each clean entry in use is stored, then a pagecache_flush_all that succeeds on a table of at most
  -- 256 entries leaves every entry in use stored: each byte of its page that lies in the file is the
  -- byte in the file's buffer.
  pub mem_files_stored :
      ((j : ℕ) → ((ident j).type ≡ inode_file) × ((ident j).fs_kind ≡ mem_fs))
      → ((inode off : ℕ) (w : Backing V) → (protect inode off w).1.files ≡ w.files)
      → (c : Cache (Backing V)) (k i : ℕ) → length c.entries ≤ max_file_cache_pages
      → Sized c.world
      → Distinct ident c.entries
      → Synced ident size_of store_page protect disk Sized c
      → (pagecache_flush_all ident size_of store_page protect c).0 ≡ true
      → k < length (pagecache_flush_all ident size_of store_page protect c).1.entries
      → (get_or
          (pagecache_flush_all ident size_of store_page protect c).1.entries
          k
          zero_entry).used
        ≡ true
      → i
        < pagecache_entry_max_bytes ident size_of store_page protect
            (pagecache_flush_all ident size_of store_page protect c).1.world
            (get_or (pagecache_flush_all ident size_of store_page protect c).1.entries k zero_entry)
      → let c' = (pagecache_flush_all ident size_of store_page protect c).1 in
        let e = get_or c'.entries k zero_entry in
        byte_of (c'.world.files e.inode).contents (e.file_off + i) ≡ c'.pmm.mem (e.pa + i)
  mem_files_stored mem no_files c k i =
      flush_all_stored ident size_of store_page protect disk Sized
        (store-Laws is_block ident dev_store ext4_store mem protect no_files) c k i
