-- ===== src/BlockCache.antt =====
-- kernel/block_cache.c: the write-back cache of disk sectors that the file systems read and write
-- through. The three disk drivers (virtio_blk.c, ahci.c, nvme.c) are a parameter: what each entry
-- point returns, and the device state behind it. A sector is the list of its 512 bytes, and a buffer
-- of `count` sectors the list of these. The console messages are left out.
pub mod Lines
pub mod Laws
pub mod View
pub mod Evict
pub mod Transfer
pub mod Disk
pub mod Attach
pub mod Fault
mod Tests
use furi_os.Prelude.{
  add64, sub64, not64, ℕ, zero, suc, ◌+◌, ◌-◌, ◌/◌, ◌%◌, ◌^◌, ◌*◌, Bool, true, false, not, ◌&&◌,
  ◌||◌, Option, none, some, List, [], ◌∷◌, ltb, leb, ◌==◌, if◌then◌else◌, get_or, set, replicate,
  length,
}

-- `dev_kind_t` is its number: DEV_NONE, DEV_VDA, DEV_SDA, DEV_SDH, DEV_NVME_BASE, DEV_NVME_LAST.
abbrev pub dev_none : ℕ
dev_none = 0

abbrev pub dev_vda : ℕ
dev_vda = 4

abbrev pub dev_sda : ℕ
dev_sda = 5

abbrev pub dev_sdh : ℕ
dev_sdh = 12

abbrev pub dev_nvme_base : ℕ
dev_nvme_base = 13

abbrev pub dev_nvme_last : ℕ
dev_nvme_last = 76

-- BLOCK_CACHE_LINES, VIRTIO_BLK_SECTOR_SIZE and NVME_MAX_NAMESPACES
abbrev pub block_cache_lines : ℕ
block_cache_lines = 128

abbrev pub sector_size : ℕ
sector_size = 512

abbrev pub namespaces : ℕ
namespaces = 8

-- The entry points of the drivers. A transfer takes the sector number, the buffer and whether it
-- writes, and gives back success, the buffer and the device.
pub record Drivers : Type 1 where
  pub State : Type 0
  pub virtio_ready : State → Bool
  pub ahci_present : State → ℕ → Bool
  pub nvme_present : State → ℕ → ℕ → Bool
  pub virtio_rw : State → ℕ → List ℕ → Bool → Bool × List ℕ × State
  pub ahci_rw : State → ℕ → ℕ → List ℕ → Bool → Bool × List ℕ × State
  pub nvme_rw : State → ℕ → ℕ → ℕ → List ℕ → Bool → Bool × List ℕ × State
  pub virtio_flush : State → Bool × State
  pub ahci_flush : State → ℕ → Bool × State
  pub nvme_flush : State → ℕ → ℕ → Bool × State

-- `none` for -1
pub sata_index_for_kind : ℕ → Option ℕ
sata_index_for_kind kind =
    if ltb kind dev_sda || ltb dev_sdh kind then none else some (kind - dev_sda)

-- the controller and the namespace, `none` for false
pub nvme_decode_kind : ℕ → Option (ℕ × ℕ)
nvme_decode_kind kind =
    if ltb kind dev_nvme_base || ltb dev_nvme_last kind
    then none
    else let idx = kind - dev_nvme_base in
      let ctrl = idx / namespaces in
      let nsid = idx % namespaces + 1 in
      if leb 8 ctrl || nsid == 0 || ltb namespaces nsid then none else some (ctrl, nsid)

pub record Line : Type 0 where
  pub valid : Bool
  pub dirty : Bool
  pub lba : ℕ
  pub last_use : ℕ
  pub bytes : List ℕ

abbrev pub zero_line : Line
zero_line = record {
  valid = false;
  dirty = false;
  lba = 0;
  last_use = 0;
  bytes = replicate sector_size 0;
}

-- The module's variables, and the device behind the cache.
pub record Cache (S : Type 0) : Type 0 where
  pub lines : List Line
  pub use_clock : ℕ
  pub ready_flag : Bool
  pub dev_kind : ℕ
  pub lba_base : ℕ
  pub lba_count : ℕ
  pub selftest_done : Bool
  pub dev : S

-- `use_clock++`, which skips 0
pub next_clock : ℕ → ℕ
next_clock t = let t' = (t + 1) % 2 ^ 32 in if t' == 0 then 1 else t'

-- The index of the first valid line for `lba`, from index `i` on.
pub find_line : ℕ → List Line → ℕ → Option ℕ
find_line i [] lba = none
find_line i (l ∷ ls) lba =
    let rest = find_line (i + 1) ls lba in if l.valid && l.lba == lba then some i else rest

-- The loop of cache_select_victim: `best` is the index and the time of the line to beat.
victim_loop : ℕ → List Line → Option (ℕ × ℕ) → Option ℕ
victim_loop i [] none = none
victim_loop i [] (some (b, t)) = some b
victim_loop i (l ∷ ls) none =
    let rest = victim_loop (i + 1) ls (some (i, l.last_use)) in if not l.valid then some i else rest
victim_loop i (l ∷ ls) (some (b, t)) =
    let rest =
      victim_loop (i + 1) ls (if ltb l.last_use t then some (i, l.last_use) else some (b, t)) in
    if not l.valid then some i else rest

pub cache_select_victim : List Line → Option ℕ
unfolding victim_loop
cache_select_victim ls = victim_loop 0 ls none

module _ {S : Type 0} where
  pub cache_touch : Cache S → ℕ → Cache S
  unfolding next_clock
  cache_touch c i =
      let t = next_clock c.use_clock in
      record c {
        use_clock = t;
        lines = set c.lines i (record (get_or c.lines i zero_line) { last_use = t });
      }

  pub cache_find : Cache S → ℕ → Option ℕ × Cache S
  cache_find c lba = elim (find_line 0 c.lines lba) [
    | none ↦ (none, c)
    | some i ↦ (some i, cache_touch c i)
  ]

  pub block_cache_init : Cache S → Cache S
  block_cache_init c = record c {
    lines = replicate block_cache_lines zero_line;
    use_clock = 0;
    ready_flag = false;
    dev_kind = dev_none;
    lba_base = 0;
    lba_count = 0;
    selftest_done = false;
  }

  pub block_cache_device : Cache S → ℕ
  block_cache_device c = c.dev_kind

-- The part of `inode_t` that block_cache_attach_inode reads; `is_dev` is `type == INODE_DEV`.
pub record Inode : Type 0 where
  pub is_dev : Bool
  pub dev_kind : ℕ
  pub dev_lba_start : ℕ
  pub dev_lba_count : ℕ

module _ (d : Drivers) where
  open d use {
    State, virtio_ready, ahci_present, nvme_present, virtio_rw, ahci_rw, nvme_rw, virtio_flush,
    ahci_flush, nvme_flush,
  }

  pub backend_ready : State → ℕ → Bool
  backend_ready s kind =
      if kind == dev_vda then virtio_ready s else elim (sata_index_for_kind kind) [
        | some i ↦ ahci_present s i
        | none ↦ elim (nvme_decode_kind kind) [ some (c, n) ↦ nvme_present s c n | none ↦ false ]
      ]

  pub backend_rw : State → ℕ → ℕ → List ℕ → Bool → Bool × List ℕ × State
  backend_rw s kind lba buf write =
      if kind == dev_vda then virtio_rw s lba buf write else elim (sata_index_for_kind kind) [
        | some i ↦ ahci_rw s i lba buf write
        | none ↦ elim (nvme_decode_kind kind) [
          | some (c, n) ↦ nvme_rw s c n lba buf write
          | none ↦ (false, buf, s)
        ]
      ]

  pub backend_flush : State → ℕ → Bool × State
  backend_flush s kind =
      if kind == dev_vda then virtio_flush s else elim (sata_index_for_kind kind) [
        | some i ↦ ahci_flush s i
        | none ↦ elim (nvme_decode_kind kind) [ some (c, n) ↦ nvme_flush s c n | none ↦ (false, s) ]
      ]

  pub cache_writeback_line : Cache State → ℕ → Bool × Cache State
  cache_writeback_line c i =
      let l = get_or c.lines i zero_line in
      if not l.valid || not l.dirty
      then (true, c)
      else let (done, _, dev') =
          backend_rw c.dev c.dev_kind (add64 c.lba_base l.lba) l.bytes true in
        if not done
        then (false, record c { dev = dev' })
        else (true, record c { dev = dev'; lines = set c.lines i (record l { dirty = false }) })

  -- The victim is filled from the device. The transfer goes straight into the line's own buffer.
  pub fill_line : Cache State → ℕ → ℕ → Option ℕ × Cache State
  fill_line c i lba =
      let l = get_or c.lines i zero_line in
      let (done, buf, dev') = backend_rw c.dev c.dev_kind (add64 c.lba_base lba) l.bytes false in
      if not done
      then (none, record c { dev = dev'; lines = set c.lines i (record l { bytes = buf }) })
      else let l' : Line = record l { valid = true; dirty = false; lba = lba; bytes = buf } in
        (some i, cache_touch (record c { dev = dev'; lines = set c.lines i l' }) i)

  -- `cache_get_load` after a miss.
  pub load_line : Cache State → ℕ → Option ℕ × Cache State
  load_line c lba = elim (cache_select_victim c.lines) [
    | none ↦ (none, c)
    | some i ↦
        let (done, c') = cache_writeback_line c i in
        if not done then (none, c') else fill_line c' i lba
  ]

  pub cache_get_load : Cache State → ℕ → Option ℕ × Cache State
  cache_get_load c lba =
      let (hit, c') = cache_find c lba in
      elim hit [ some i ↦ (some i, c') | none ↦ load_line c' lba ]

  pub block_cache_ready : Cache State → Bool
  block_cache_ready c =
      c.ready_flag
      && not (c.dev_kind == dev_none)
      && backend_ready c.dev c.dev_kind
      && not (c.lba_count == 0)

  pub block_cache_capacity_sectors : Cache State → ℕ
  block_cache_capacity_sectors c = if not (block_cache_ready c) then 0 else c.lba_count

  -- the request lies on the device
  pub in_bounds : Cache State → ℕ → ℕ → Bool
  in_bounds c lba count = not (count == 0 || leb c.lba_count lba || ltb (c.lba_count - lba) count)

  -- `count - i` rounds are left; `out` is the destination.
  pub read_loop : ℕ → ℕ → Cache State → ℕ → List (List ℕ) → Bool × List (List ℕ) × Cache State
  read_loop zero i c lba out = (true, out, c)
  read_loop (suc k) i c lba out =
      let (found, c') = cache_get_load c (add64 lba i) in
      elim found [
        | none ↦ (false, out, c')
        | some j ↦ read_loop k (i + 1) c' lba (set out i (get_or c'.lines j zero_line).bytes)
      ]

  pub block_cache_read :
      Cache State → ℕ → Option (List (List ℕ)) → ℕ → Bool × Option (List (List ℕ)) × Cache State
  block_cache_read c lba none count = (false, none, c)
  block_cache_read c lba (some buf) count =
      if not (block_cache_ready c)
      then (false, some buf, c)
      else if not (in_bounds c lba count)
      then (false, some buf, c)
      else let (done, out, c') = read_loop count 0 c lba buf in (done, some out, c')

  -- `memcpy(cl->data, ...); cl->dirty = true; cache_touch(cl)`
  pub store_line : Cache State → ℕ → List ℕ → Cache State
  store_line c j sector =
      let l : Line = record (get_or c.lines j zero_line) { bytes = sector; dirty = true } in
      cache_touch (record c { lines = set c.lines j l }) j

  pub write_loop : ℕ → ℕ → Cache State → ℕ → List (List ℕ) → Bool × Cache State
  write_loop zero i c lba src = (true, c)
  write_loop (suc k) i c lba src =
      let (found, c') = cache_get_load c (add64 lba i) in
      elim found [
        | none ↦ (false, c')
        | some j ↦ write_loop k (i + 1) (store_line c' j (get_or src i [])) lba src
      ]

  pub block_cache_write : Cache State → ℕ → Option (List (List ℕ)) → ℕ → Bool × Cache State
  block_cache_write c lba none count = (false, c)
  block_cache_write c lba (some buf) count =
      if not (block_cache_ready c)
      then (false, c)
      else if not (in_bounds c lba count)
      then (false, c)
      else write_loop count 0 c lba buf

  -- the loop over the lines, `n` of them left from index `i` on
  pub flush_loop : ℕ → ℕ → Cache State → Bool × Cache State
  flush_loop zero i c = (true, c)
  flush_loop (suc n) i c =
      let (done, c') = cache_writeback_line c i in
      let rest = flush_loop n (i + 1) c' in if not done then (false, c') else rest

  pub block_cache_flush : Cache State → Bool × Cache State
  block_cache_flush c =
      if not (block_cache_ready c)
      then (false, c)
      else let (done, c') = flush_loop block_cache_lines 0 c in
        if not done
        then (false, c')
        else let (flushed, dev') = backend_flush c'.dev c'.dev_kind in
          (flushed, record c' { dev = dev' })

-- `memcmp(a, b, n) == 0`
pub same_bytes : List ℕ → List ℕ → Bool
same_bytes [] [] = true
same_bytes [] (y ∷ ys) = false
same_bytes (x ∷ xs) [] = false
same_bytes (x ∷ xs) (y ∷ ys) = x == y && same_bytes xs ys

-- A buffer of one sector on the stack; it is read only after a transfer has filled it.
abbrev pub stack_sector : Option (List (List ℕ))
stack_sector = some (replicate sector_size 0 ∷ [])

abbrev pub first_sector : Option (List (List ℕ)) → List ℕ
first_sector none = []
first_sector (some buf) = get_or buf 0 []

module _ (d : Drivers) where
  open d use {State}

  pub cache_selftest : Cache State → Bool × Cache State
  cache_selftest c =
      if c.lba_count == 0
      then (false, c)
      else let (done_a, a, c₁) = block_cache_read d c 0 stack_sector 1 in
        let (done_b, b, c₂) = block_cache_read d c₁ 0 stack_sector 1 in
        let (beyond, _, c₃) = block_cache_read d c₂ c.lba_count a 1 in
        if not done_a
        then (false, c₁)
        else if not done_b || not (same_bytes (first_sector a) (first_sector b))
        then (false, c₂)
        else (not beyond, c₃)

  attached : Cache State → Inode → Cache State
  attached c inode = record c {
    lines = replicate block_cache_lines zero_line;
    use_clock = 0;
    ready_flag = true;
    dev_kind = inode.dev_kind;
    lba_base = inode.dev_lba_start;
    lba_count = inode.dev_lba_count;
  }

  detached : Cache State → Cache State
  detached c = record c { ready_flag = false; dev_kind = dev_none; lba_base = 0; lba_count = 0 }

  -- What follows the flush of the device attached before.
  pub attach_fresh : Cache State → Inode → Bool × Cache State
  unfolding attached detached
  attach_fresh c inode =
      let c' = attached c inode in
      if c'.selftest_done
      then (true, c')
      else let (passed, c'') = cache_selftest c' in
        if not passed then (false, detached c'') else (true, record c'' { selftest_done = true })

  -- `none` for a null inode
  pub block_cache_attach_inode : Cache State → Option Inode → Bool × Cache State
  block_cache_attach_inode c none = (false, c)
  block_cache_attach_inode c (some inode) =
      if not inode.is_dev
      then (false, c)
      else if not (backend_ready d c.dev inode.dev_kind) || inode.dev_lba_count == 0
      then (false, c)
      else if c.ready_flag
          && c.dev_kind == inode.dev_kind
          && c.lba_base == inode.dev_lba_start
          && c.lba_count == inode.dev_lba_count
      then (true, c)
      else attach_fresh (if c.ready_flag then (block_cache_flush d c).1 else c) inode
