-- ===== src/Malloc.antt =====
-- user/lib/alloc.c: the allocator of user programs, over sys_sbrk of user/lib/syscall.c.
-- The chain of headers from `heap_head` on is the list of blocks, each with its header's address; a
-- header takes 24 bytes, and the pointer that a caller holds is the address behind it. `mem` has the
-- bytes of the memory, those of the headers too: each call that writes to headers ends in
-- `write_headers`, which writes the chain's headers as they are then, so that one whose fields did
-- not change gets the bytes that it has. Addresses and sizes of blocks do not wrap: they lie below
-- the heap's end; a size that a caller gives does. `S` is the state behind sys_sbrk, whose result is
-- `none` for (void *)-1. What free and realloc do with a pointer that is not handed out is undefined
-- in C: here a free writes the flag where a header would be and changes no block.
pub mod Layout
pub mod Regions
pub mod Memory
pub mod Alloc
pub mod Bytes
pub mod Realloc
pub mod Huge
pub mod Sbrk
mod Tests
use furi_os.Prelude.{
  ℕ, ◌+◌, ◌-◌, ◌*◌, ◌/◌, ◌%◌, ◌≤◌, ◌^◌, Bool, true, false, not, ◌&&◌, ◌||◌, Option, none, some,
  List, [], ◌∷◌, ltb, leb, ◌==◌, if◌then◌else◌, add64, sub64,
}
use furi_os.Pmm.{align_up}

pub record Block : Type 0 where
  pub addr : ℕ
  pub size : ℕ
  pub free : Bool

-- sizeof(block_header_t)
abbrev pub header : ℕ
header = 24

abbrev pub payload : Block → ℕ
payload b = b.addr + header

-- maybe_split_block: the block kept, the new block behind it, and `heap_tail`. The bytes of the
-- two headers, the new one inside the old payload, are written by the caller's `write_headers`.
unfoldable pub maybe_split_block : (need : ℕ) → Block → Option ℕ → Block × Option Block × Option ℕ
maybe_split_block need b tail =
    if ltb b.size (add64 need (header + 16))
    then (b, none, tail)
    else let n = b.addr + header + need in
      (
        record b { size = need },
        some (record { addr = n; size = b.size - need - header; free = true }),
        elim tail [ none ↦ none | some t ↦ if t == b.addr then some n else some t ],
      )

abbrev pub behind : Option Block → List Block → List Block
behind none bs = bs
behind (some n) bs = n ∷ bs

-- The blocks from `b` on, in the order of the chain, and `heap_tail`.
unfoldable pub coalesce_from : Block → List Block → Option ℕ → List Block × Option ℕ
coalesce_from b [] tail = (b ∷ [], tail)
coalesce_from b (n ∷ bs) tail =
    let merged =
      coalesce_from (record b { size = b.size + header + n.size }) bs
        (elim tail [ none ↦ none | some t ↦ if t == n.addr then some b.addr else some t ]) in
    let (rest, tail') = coalesce_from n bs tail in
    if b.free && n.free && payload b + b.size == n.addr then merged else (b ∷ rest, tail')

unfoldable pub coalesce_all : List Block → Option ℕ → List Block × Option ℕ
coalesce_all [] tail = ([], tail)
coalesce_all (b ∷ bs) tail = coalesce_from b bs tail

-- The first fit: the pointer returned, the chain and `heap_tail`; `none` if no block fits.
unfoldable pub first_fit : (size : ℕ) → List Block → Option ℕ → Option (ℕ × List Block × Option ℕ)
first_fit size [] tail = none
first_fit size (b ∷ bs) tail =
    let rest = first_fit size bs tail in
    let (kept, extra, tail') = maybe_split_block size b tail in
    if b.free && leb size b.size
    then some (payload b, record kept { free = false } ∷ behind extra bs, tail')
    else elim rest [ none ↦ none | some (p, bs', t) ↦ some (p, b ∷ bs', t) ]

-- `heap_tail->next = b`: what stood behind the tail is dropped from the chain.
unfoldable pub link_behind : (tail : ℕ) → Block → List Block → List Block
link_behind tail b [] = []
link_behind tail b (x ∷ xs) =
    let rest = link_behind tail b xs in if x.addr == tail then x ∷ b ∷ [] else x ∷ rest

pub record Heap (S : Type 0) : Type 0 where
  pub blocks : List Block
  pub tail : Option ℕ
  pub mem : ℕ → ℕ
  pub sys : S

-- Byte `i` of a header whose successor is at `next`: a size_t, an int, four bytes of padding that keep
-- their `old` value, and a pointer, little-endian.
unfoldable pub header_byte : Block → (next i old : ℕ) → ℕ
header_byte b next i old =
    if ltb i 8
    then b.size / 2 ^ (8 * i) % 256
    else if i == 8
    then (if b.free then 1 else 0)
    else if ltb i 12
    then 0
    else if ltb i 16
    then old
    else next / 2 ^ (8 * (i - 16)) % 256

abbrev pub first_addr : List Block → ℕ
first_addr [] = 0
first_addr (b ∷ bs) = b.addr

-- memory with the headers of a chain in it
unfoldable pub write_headers : List Block → (ℕ → ℕ) → ℕ → ℕ
write_headers [] mem a = mem a
write_headers (b ∷ bs) mem a =
    let rest = write_headers bs mem a in
    if leb b.addr a && ltb a (b.addr + header)
    then header_byte b (first_addr bs) (a - b.addr) (mem a)
    else rest

-- `heap_head = b`, or `heap_tail->next = b`
unfoldable pub linked : Block → List Block → Option ℕ → List Block
linked b [] tail = b ∷ []
linked b (x ∷ xs) none = x ∷ xs
linked b (x ∷ xs) (some t) = link_behind t b (x ∷ xs)

-- The part of malloc behind sbrk, which has returned `got`.
unfoldable pub extended :
    {S : Type 0} (size : ℕ) → Heap S → (got : Option ℕ) → S → Option ℕ × Heap S
extended size h none sys' = (none, record h { sys = sys' })
extended size h (some a) sys' =
    let b : Block = record { addr = a; size = size; free = false } in
    let bs = linked b h.blocks h.tail in
    (
      some (a + header),
      record h { blocks = bs; tail = some a; mem = write_headers bs h.mem; sys = sys' },
    )

module _ {S : Type 0} (sbrk : S → ℕ → Option ℕ × S) where
  unfoldable pub extend : (size : ℕ) → Heap S → Option ℕ × Heap S
  extend size h = let (got, sys') = sbrk h.sys (add64 header size) in extended size h got sys'

  -- malloc behind its search
  unfoldable pub fitted :
      (size : ℕ) → Option (ℕ × List Block × Option ℕ) → Heap S → Option ℕ × Heap S
  fitted size (some (p, bs, t)) h =
      (some p, record h { blocks = bs; tail = t; mem = write_headers bs h.mem })
  fitted size none h = extend size h

  unfoldable pub malloc : (size : ℕ) → Heap S → Option ℕ × Heap S
  malloc size h =
      if size == 0
      then (none, h)
      else fitted (align_up size 16) (first_fit (align_up size 16) h.blocks h.tail) h

-- `b->free = 1` behind a pointer: the block of the pointer, and the four bytes in memory
unfoldable pub mark_free : (ptr : ℕ) → List Block → List Block
mark_free ptr [] = []
mark_free ptr (b ∷ bs) =
    let rest = mark_free ptr bs in
    if payload b == ptr then record b { free = true } ∷ bs else b ∷ rest

unfoldable pub set_flag : (ptr : ℕ) → (ℕ → ℕ) → ℕ → ℕ
set_flag ptr mem a =
    if leb ptr (a + 16) && ltb (a + 12) ptr then (if a + 16 == ptr then 1 else 0) else mem a

unfoldable pub free : {S : Type 0} (ptr : Option ℕ) → Heap S → Heap S
free none h = h
free (some ptr) h =
    let marked = mark_free ptr h.blocks in
    let (bs, t) = coalesce_all marked h.tail in
    record h {
      blocks = bs;
      tail = t;
      mem = write_headers bs (write_headers marked (set_flag ptr h.mem));
    }

abbrev pub split_to : (need : ℕ) → Block → List Block → Option ℕ → List Block × Option ℕ
split_to need b bs tail =
    let (kept, extra, tail') = maybe_split_block need b tail in (kept ∷ behind extra bs, tail')

-- The in-place part of realloc on the block and what follows it; `none` where the block must move.
unfoldable pub grow : (size : ℕ) → Block → List Block → Option ℕ → Option (List Block × Option ℕ)
grow size b [] tail = if leb size b.size then some (split_to size b [] tail) else none
grow size b (n ∷ bs) tail =
    let tail' : Option ℕ = elim bs [ [] ↦ some b.addr | x ∷ xs ↦ tail ] in
    let joined : Block = record b { size = b.size + header + n.size } in
    if leb size b.size
    then some (split_to size b (n ∷ bs) tail)
    else if n.free && payload b + b.size == n.addr && leb size joined.size
    then some (split_to size joined bs tail')
    else none

pub data Resize : Type 0 where
  unknown : Resize
  in_place : List Block → Option ℕ → Resize
  move : (old_size : ℕ) → Resize

-- realloc's two cases on the block of the pointer; `unknown` without such a block.
unfoldable pub regrow : Block → Option (List Block × Option ℕ) → Resize
regrow b none = move b.size
regrow b (some (bs, t)) = in_place bs t

unfoldable pub after : Block → Resize → Resize
after b unknown = unknown
after b (in_place bs t) = in_place (b ∷ bs) t
after b (move n) = move n

unfoldable pub resize : (ptr size : ℕ) → List Block → Option ℕ → Resize
resize ptr size [] tail = unknown
resize ptr size (b ∷ bs) tail =
    let rest = resize ptr size bs tail in
    if payload b == ptr then regrow b (grow size b bs tail) else after b rest

-- memcpy(to, from, n) and memset(to, 0, n)
unfoldable pub copy_bytes : (to from n : ℕ) → (ℕ → ℕ) → ℕ → ℕ
copy_bytes to from n mem a = if leb to a && ltb a (to + n) then mem (from + (a - to)) else mem a

unfoldable pub clear_bytes : (to n : ℕ) → (ℕ → ℕ) → ℕ → ℕ
clear_bytes to n mem a = if leb to a && ltb a (to + n) then 0 else mem a

-- realloc behind the malloc of a block to move to
unfoldable pub moved : {S : Type 0} (ptr old_size : ℕ) → Option ℕ × Heap S → Option ℕ × Heap S
moved ptr old_size (none, h) = (none, h)
moved ptr old_size (some n, h) =
    (some n, free (some ptr) (record h { mem = copy_bytes n ptr old_size h.mem }))

unfoldable pub cleared : {S : Type 0} (n : ℕ) → Option ℕ × Heap S → Option ℕ × Heap S
cleared n (none, h) = (none, h)
cleared n (some p, h) = (some p, record h { mem = clear_bytes p n h.mem })

module _ {S : Type 0} (sbrk : S → ℕ → Option ℕ × S) where
  unfoldable pub resized : (ptr size : ℕ) → Resize → Heap S → Option ℕ × Heap S
  resized ptr size unknown h = (none, h)
  resized ptr size (in_place bs t) h =
      (some ptr, record h { blocks = bs; tail = t; mem = write_headers bs h.mem })
  resized ptr size (move old_size) h = moved ptr old_size (malloc sbrk size h)

  unfoldable pub realloc : (ptr : Option ℕ) → (size : ℕ) → Heap S → Option ℕ × Heap S
  realloc none size h = malloc sbrk size h
  realloc (some ptr) size h =
      if size == 0
      then (none, free (some ptr) h)
      else resized ptr (align_up size 16) (resize ptr (align_up size 16) h.blocks h.tail) h

  unfoldable pub calloc : (n size : ℕ) → Heap S → Option ℕ × Heap S
  calloc n size h =
      if n == 0 || size == 0
      then malloc sbrk 0 h
      else if ltb ((2 ^ 64 - 1) / size) n
      then (none, h)
      else cleared (n * size) (malloc sbrk (n * size) h)
