-- ===== src/Pipe.antt =====
-- kernel/pipe.c and include/pipe.h: the fixed table of byte pipes behind pipe(2).
-- A `pipe_t *` is an index of the table, `none` where it is NULL. A buffer argument is the list of
-- its bytes, `none` where it is NULL. `readers` and `writers` are C ints, as 32-bit patterns whose
-- upper half is negative: an increment wraps.
pub mod Inv
pub mod Window
pub mod Queue
pub mod Fifo
pub mod Table
mod Tests
use furi_os.Prelude.{
  ℕ, zero, suc, ◌+◌, ◌-◌, ◌%◌, ◌^◌, Bool, true, false, not, ◌&&◌, ◌||◌, Option, none, some, List,
  [], ◌∷◌, ltb, leb, ◌==◌, if◌then◌else◌, get_or, set, replicate,
}

-- PIPE_CAPACITY and MAX_PIPES
abbrev pub pipe_capacity : ℕ
pipe_capacity = 1024

abbrev pub max_pipes : ℕ
max_pipes = 32

pub record Pipe : Type 0 where
  pub used : Bool
  pub buf : List ℕ
  pub rpos : ℕ
  pub wpos : ℕ
  pub count : ℕ
  pub readers : ℕ
  pub writers : ℕ

-- `memset(p, 0, sizeof(*p))`
pub zero_pipe : Pipe
zero_pipe = record {
  used = false;
  buf = replicate pipe_capacity 0;
  rpos = 0;
  wpos = 0;
  count = 0;
  readers = 0;
  writers = 0;
}

-- `n > 0` for an int
abbrev pub positive : ℕ → Bool
positive n = ltb 0 n && ltb n (2 ^ 31)

pub pipe_maybe_release : Pipe → Pipe
pipe_maybe_release p = if p.readers == 0 && p.writers == 0 then zero_pipe else p

pub pipe_init : List Pipe
pipe_init = replicate max_pipes zero_pipe

abbrev pub fresh_pipe : Pipe
fresh_pipe = record zero_pipe { used = true; readers = 1; writers = 1 }

-- The search for a free slot, from index `i` on; the new table keeps what stands before the slot.
alloc_from : ℕ → List Pipe → Option ℕ × List Pipe
alloc_from i [] = (none, [])
alloc_from i (p ∷ ps) =
    let (found, qs) = alloc_from (i + 1) ps in
    if not p.used then (some i, fresh_pipe ∷ ps) else (found, p ∷ qs)

pub pipe_alloc : List Pipe → Option ℕ × List Pipe
unfolding alloc_from
pipe_alloc ps = alloc_from 0 ps

pub pipe_ref_read : Pipe → Pipe
pipe_ref_read p = if not p.used then p else record p { readers = (p.readers + 1) % 2 ^ 32 }

pub pipe_ref_write : Pipe → Pipe
pipe_ref_write p = if not p.used then p else record p { writers = (p.writers + 1) % 2 ^ 32 }

pub pipe_close_read : Pipe → Pipe
unfolding pipe_maybe_release
pipe_close_read p =
    if not p.used || not (positive p.readers)
    then p
    else pipe_maybe_release (record p { readers = p.readers - 1 })

pub pipe_close_write : Pipe → Pipe
unfolding pipe_maybe_release
pipe_close_write p =
    if not p.used || not (positive p.writers)
    then p
    else pipe_maybe_release (record p { writers = p.writers - 1 })

pub pipe_has_readers : Pipe → Bool
pipe_has_readers p = p.used && positive p.readers

pub pipe_has_writers : Pipe → Bool
pipe_has_writers p = p.used && positive p.writers

pub pipe_available_read : Pipe → ℕ
pipe_available_read p = if not p.used then 0 else p.count

pub pipe_available_write : Pipe → ℕ
pipe_available_write p =
    if not p.used || leb pipe_capacity p.count then 0 else pipe_capacity - p.count

-- `d[i] = p->data[p->rpos]; p->rpos = (p->rpos + 1) % PIPE_CAPACITY` for the `k` rounds left.
pub read_loop : ℕ → ℕ → List ℕ → List ℕ → ℕ → List ℕ × ℕ
read_loop zero i dst buf rpos = (dst, rpos)
read_loop (suc k) i dst buf rpos =
    read_loop k (i + 1) (set dst i (get_or buf rpos 0)) buf ((rpos + 1) % pipe_capacity)

-- The count returned, the destination and the pipe afterwards.
pub pipe_read : Pipe → Option (List ℕ) → ℕ → ℕ × Option (List ℕ) × Pipe
unfolding read_loop
pipe_read p none len = (0, none, p)
pipe_read p (some dst) len =
    if not p.used || len == 0
    then (0, some dst, p)
    else if p.count == 0
    then (0, some dst, p)
    else let n = if ltb p.count len then p.count else len in
      let (dst', rpos') = read_loop n 0 dst p.buf p.rpos in
      (n, some dst', record p { rpos = rpos'; count = p.count - n })

-- `p->data[p->wpos] = s[i]; p->wpos = (p->wpos + 1) % PIPE_CAPACITY` for the `k` rounds left.
pub write_loop : ℕ → ℕ → List ℕ → List ℕ → ℕ → List ℕ × ℕ
write_loop zero i src buf wpos = (buf, wpos)
write_loop (suc k) i src buf wpos =
    write_loop k (i + 1) src (set buf wpos (get_or src i 0)) ((wpos + 1) % pipe_capacity)

pub pipe_write : Pipe → Option (List ℕ) → ℕ → ℕ × Pipe
unfolding write_loop
pipe_write p none len = (0, p)
pipe_write p (some src) len =
    if not p.used || len == 0
    then (0, p)
    else if leb pipe_capacity p.count
    then (0, p)
    else let space = pipe_capacity - p.count in
      let n = if ltb space len then space else len in
      let (buf', wpos') = write_loop n 0 src p.buf p.wpos in
      (n, record p { buf = buf'; wpos = wpos'; count = p.count + n })

-- A call through a pointer: nothing happens at NULL, else the slot is replaced.
pub through : (Pipe → Pipe) → List Pipe → Option ℕ → List Pipe
through f ps none = ps
through f ps (some i) = set ps i (f (get_or ps i zero_pipe))
