-- ===== src/BlockCache/Tests.antt =====
-- The cache over a device that never fails, and over one whose reads all fail.
use furi_os.Prelude.{
  add64, ℕ, ◌+◌, ◌-◌, ◌≤◌, ◌<◌, ◌≡◌, ◌⊎◌, refl, Bool, true, false, some, none, Option, List, [],
  ◌∷◌, arith, ◌==◌, if◌then◌else◌, get_or, replicate, overwrite, slice,
}
use furi_os.BlockCache.{
  read_loop, write_loop, store_line, cache_get_load, cache_find, find_line, load_line, victim_loop,
  cache_writeback_line, cache_touch, next_clock, Drivers, Line, zero_line, Cache, Inode,
  block_cache_lines, sata_index_for_kind, backend_ready, backend_rw, backend_flush,
  block_cache_ready, in_bounds, block_cache_read, block_cache_write, block_cache_flush,
  cache_select_victim, fill_line, attach_fresh, block_cache_attach_inode,
}
use furi_os.BlockCache.Lines.{IsVictim, cache_select_victim-IsVictim, Distinct, cached}
use furi_os.BlockCache.Laws.{Laws}
use furi_os.BlockCache.View
use furi_os.BlockCache.Transfer
use furi_os.BlockCache.Disk
use furi_os.BlockCache.Attach
use furi_os.BlockCache.Fault.{failed_load_spoils}

abbrev Sectors : Type 0
Sectors = ℕ → List ℕ

abbrev transfer : Sectors → ℕ → List ℕ → Bool → Bool × List ℕ × Sectors
transfer s a buf true = (true, buf, λ b. if b == a then buf else s b)
transfer s a buf false = (true, s a, s)

abbrev ram_disk : Drivers
ram_disk = record {
  State = Sectors;
  virtio_ready = λ s. true;
  ahci_present = λ s i. false;
  nvme_present = λ s c n. false;
  virtio_rw = transfer;
  ahci_rw = λ s i a buf w. (false, 6 ∷ [], s);
  nvme_rw = λ s c n a buf w. (false, buf, s);
  virtio_flush = λ s. (true, s);
  ahci_flush = λ s i. (true, s);
  nvme_flush = λ s c n. (true, s);
}

abbrev on_disk : Sectors → ℕ → List ℕ
on_disk s a = s a

ram_disk-Laws : Laws ram_disk 4 on_disk
unfolding backend_rw backend_flush
ram_disk-Laws = record {
  read_ok = λ s a buf e. refl;
  read_keeps = λ s a buf b. refl;
  write_ok = λ s a buf b e. refl;
  write_fail = λ s a buf b e n. absurd (cc);
  flush_keeps = λ s b. refl;
}

abbrev blank : Cache Sectors
blank = record {
  lines = replicate block_cache_lines zero_line;
  use_clock = 0;
  ready_flag = true;
  dev_kind = 4;
  lba_base = 100;
  lba_count = 8;
  selftest_done = true;
  dev = λ a. a ∷ [];
}

abbrev unattached : Cache Sectors
unattached = record blank { ready_flag = false }

abbrev partition : Inode
partition = record { is_dev = true; dev_kind = 4; dev_lba_start = 100; dev_lba_count = 8 }

abbrev fresh : Cache Sectors
fresh = (block_cache_attach_inode ram_disk unattached (some partition)).1

ready_disk : backend_ready ram_disk unattached.dev 4 ≡ true
unfolding backend_ready
ready_disk = refl

attached_first : (block_cache_attach_inode ram_disk unattached (some partition)).0 ≡ true
unfolding block_cache_attach_inode attach_fresh backend_ready
attached_first = refl

fresh-Inv : View.Inv ram_disk 4 on_disk fresh
unfolding backend_ready
fresh-Inv =
    (((Attach.block_cache_attach_inode_lem ram_disk 4 on_disk ram_disk-Laws unattached partition
          refl (omega arith)).2
        refl refl).0
      attached_first).0

block_cache_attach_inode_lem_example :
    let c = unattached in
    let r = block_cache_attach_inode ram_disk c (some partition) in
    (Attach.attachable ram_disk 4 on_disk ram_disk-Laws c partition ≡ false → r ≡ (false, c))
    × (Attach.attachable ram_disk 4 on_disk ram_disk-Laws c partition ≡ true
        → Attach.same_device ram_disk 4 on_disk ram_disk-Laws c partition ≡ true
        → r ≡ (true, c))
    × (Attach.attachable ram_disk 4 on_disk ram_disk-Laws c partition ≡ true
        → Attach.same_device ram_disk 4 on_disk ram_disk-Laws c partition ≡ false
        → (r.0 ≡ true
            → View.Inv ram_disk 4 on_disk r.1
              × (r.1.lba_count ≡ 8)
              × ((a : ℕ)
                  → a < 8
                  → View.view ram_disk 4 on_disk r.1 a ≡ on_disk c.dev (add64 100 a)))
          × (r.0 ≡ false → block_cache_ready ram_disk r.1 ≡ false))
block_cache_attach_inode_lem_example =
    Attach.block_cache_attach_inode_lem ram_disk 4 on_disk ram_disk-Laws unattached partition refl
      (omega arith)

block_cache_read_lem_example :
    let r = block_cache_read ram_disk fresh 2 (some ([] ∷ [] ∷ [])) 2 in
    (r.0 ≡ true
      → (0 < 2)
        × (2 + 2 ≤ fresh.lba_count)
        × View.Keeps ram_disk 4 on_disk fresh r.2
        × (r.1
            ≡ some (
                overwrite
                  ([] ∷ [] ∷ [])
                  0
                  (Transfer.views ram_disk 4 on_disk ram_disk-Laws fresh 2 2))))
    × (r.0 ≡ false → (b : ℕ) × View.Spares ram_disk 4 on_disk fresh r.2 b)
    × ((◌≡◌ {A = ℕ} 2 0) ⊎ (fresh.lba_count < 2 + 2) → r ≡ (false, some ([] ∷ [] ∷ []), fresh))
block_cache_read_lem_example =
    Disk.block_cache_read_lem ram_disk 4 on_disk ram_disk-Laws fresh 2 ([] ∷ [] ∷ []) 2 fresh-Inv

abbrev news : List (List ℕ)
news = (7 ∷ []) ∷ (8 ∷ []) ∷ []

block_cache_write_lem_example :
    let r = block_cache_write ram_disk fresh 2 (some news) 2 in
    (r.0 ≡ true
      → (0 < 2)
        × (2 + 2 ≤ fresh.lba_count)
        × Transfer.Wrote ram_disk 4 on_disk ram_disk-Laws fresh r.1 2 2
            (λ b. get_or news (b - 2) []))
    × (r.0 ≡ false
        → (m : ℕ) × (lost : ℕ) × (m ≤ 2)
          × Transfer.Torn ram_disk 4 on_disk ram_disk-Laws fresh r.1 2 m
              (λ b. get_or news (b - 2) [])
              lost)
    × ((◌≡◌ {A = ℕ} 2 0) ⊎ (fresh.lba_count < 2 + 2) → r ≡ (false, fresh))
block_cache_write_lem_example =
    Disk.block_cache_write_lem ram_disk 4 on_disk ram_disk-Laws fresh 2 news 2 fresh-Inv

block_cache_flush_lem_example :
    let r = block_cache_flush ram_disk fresh in
    View.Keeps ram_disk 4 on_disk fresh r.1
    × (r.0 ≡ true
        → (a : ℕ) → a < fresh.lba_count
        → on_disk r.1.dev (add64 fresh.lba_base a) ≡ View.view ram_disk 4 on_disk fresh a)
block_cache_flush_lem_example =
    Disk.block_cache_flush_lem ram_disk 4 on_disk ram_disk-Laws fresh fresh-Inv

abbrev after_write : Bool × Cache Sectors
after_write = block_cache_write ram_disk fresh 2 (some news) 2

abbrev after_read : Bool × Option (List (List ℕ)) × Cache Sectors
after_read = block_cache_read ram_disk after_write.1 2 (some ([] ∷ [] ∷ [])) 2

write_succeeds : after_write.0 ≡ true
unfolding block_cache_attach_inode attach_fresh block_cache_write block_cache_ready backend_ready
    in_bounds write_loop cache_get_load cache_find find_line load_line cache_select_victim
    victim_loop cache_writeback_line fill_line backend_rw cache_touch next_clock store_line
write_succeeds = refl

read_succeeds : after_read.0 ≡ true
unfolding block_cache_attach_inode attach_fresh block_cache_write block_cache_ready backend_ready
    in_bounds write_loop cache_get_load cache_find find_line load_line cache_select_victim
    victim_loop cache_writeback_line fill_line backend_rw cache_touch next_clock store_line
    block_cache_read read_loop
read_succeeds = refl

read-write_example : after_read.1 ≡ some (overwrite ([] ∷ [] ∷ []) 0 (slice [] news 0 2))
read-write_example =
    Disk.read-write ram_disk 4 on_disk ram_disk-Laws fresh 2 news ([] ∷ [] ∷ []) 2 fresh-Inv
      write_succeeds read_succeeds

abbrev two_lines : List Line
two_lines =
    record zero_line { valid = true; last_use = 9 }
    ∷ record zero_line { valid = true; last_use = 4 }
    ∷ []

cache_select_victim-IsVictim_test :
    (k : ℕ) × (cache_select_victim two_lines ≡ some k) × (k < 2) × IsVictim two_lines k
cache_select_victim-IsVictim_test = cache_select_victim-IsVictim two_lines (omega arith)

-- A SATA disk whose reads fail after spoiling the buffer.
abbrev broken : Cache Sectors
broken = record blank {
  dev_kind = 5;
  lines = record zero_line { valid = true; lba = 3; bytes = 1 ∷ [] } ∷ [];
}

failed_load_spoils_example :
    let r = cache_get_load ram_disk broken 7 in
    let again = cache_get_load ram_disk r.1 3 in
    (r.0 ≡ none)
    × ((j : ℕ) × (again.0 ≡ some j)
        × ((get_or (again.1).lines j zero_line).bytes
            ≡ (backend_rw ram_disk broken.dev broken.dev_kind (add64 100 7) (1 ∷ []) false).1))
unfolding backend_rw sata_index_for_kind find_line cache_select_victim victim_loop Distinct cached
failed_load_spoils_example =
    failed_load_spoils ram_disk broken 0 7 ((λ w. refl), tt) (omega arith) refl refl refl refl refl

-- what the disk delivered into the buffer
spoilt_bytes_test :
    (backend_rw ram_disk broken.dev broken.dev_kind (add64 100 7) (1 ∷ []) false).1 ≡ 6 ∷ []
unfolding backend_rw sata_index_for_kind
spoilt_bytes_test = refl
