-- ===== src/Pipe/Fifo.antt =====
-- A pipe in use behaves as the bounded queue of its unread bytes.
use furi_os.Prelude.{
  ℕ, ◌-◌, ◌≤◌, ◌≡◌, refl, subst, true, some, none, List, [], ◌∷◌, ◌++◌, arith, length, min, take,
  drop, slice-eq-take, replicate, length-replicate, length-take, overwrite, take-overwrite,
  append-nil,
}
use furi_os.Pipe.Queue.{Op, put, get, Reply}
use furi_os.Pipe.Queue
use furi_os.Pipe.{Pipe, pipe_capacity, pipe_read, pipe_write}
use furi_os.Pipe.Window.{
  window, length-window, window-write_loop, read_loop-pos, drop-window, read_loop-copies,
}
use furi_os.Pipe.Inv.{IsValid, pipe_read-IsValid, pipe_write-IsValid}

-- the unread bytes, oldest first
abbrev pub contents : Pipe → List ℕ
contents p = window p.buf p.rpos p.count

pub length-contents : (p : Pipe) → length (contents p) ≡ p.count
length-contents p = length-window p.buf p.rpos p.count

-- pipe_write on a pipe in use takes as many bytes as there is room for, returns their number and
-- appends exactly those bytes to the unread ones.
pub pipe_write_lem :
    {p : Pipe} (src : List ℕ)
    → IsValid p
    → p.used ≡ true
    → let (n, p') = pipe_write p (some src) (length src) in
      (n ≡ min (length src) (pipe_capacity - p.count))
      × (contents p' ≡ contents p ++ take n src)
      × (p'.used ≡ true)
unfolding pipe_write
pipe_write_lem {p} src v u =
    let room : ℕ = pipe_capacity - p.count in
    ground (
      arith,
      append-nil (contents p),
      slice-eq-take 0 src room,
      slice-eq-take 0 src (length src),
      window-write_loop room 0 src p.buf p.wpos p.rpos p.count v.storage v.rpos_in,
      window-write_loop (length src) 0 src p.buf p.wpos p.rpos p.count v.storage v.rpos_in,
    )

pub pipe_read_lem :
    {p : Pipe} (dst : List ℕ) (len : ℕ)
    → IsValid p
    → p.used ≡ true
    → let (n, dst', p') = pipe_read p (some dst) len in
      (n ≡ min len p.count)
      × (dst' ≡ some (overwrite dst 0 (take n (contents p))))
      × (contents p' ≡ drop n (contents p))
      × (p'.used ≡ true)
unfolding pipe_read
pipe_read_lem {p} dst len v u = ground (
  arith,
  read_loop-copies len 0 dst p.buf p.rpos p.count,
  read_loop-copies p.count 0 dst p.buf p.rpos p.count,
  read_loop-pos len 0 dst p.buf p.rpos,
  read_loop-pos p.count 0 dst p.buf p.rpos,
  drop-window len p.count p.buf p.rpos,
  drop-window p.count p.count p.buf p.rpos,
)

-- A client's call: a write of all of `src`, or a read of `len` bytes into a buffer of that size.
unfoldable pub call : Pipe → Op → Reply × Pipe
call p (put src) = let (n, p') = pipe_write p (some src) (length src) in ((n, []), p')
call p (get len) =
    let (n, dst, p') = pipe_read p (some (replicate len 0)) len in
    ((n, elim dst [ none ↦ [] | some d ↦ take n d ]), p')

unfoldable pub run : Pipe → List Op → List Reply
run p [] = []
run p (op ∷ ops) = let (r, p') = call p op in r ∷ run p' ops

read-back :
    (n len : ℕ) (q : List ℕ)
    → n ≡ min len (length q)
    → take n (overwrite (replicate len 0) 0 (take n q)) ≡ take n q
read-back n len q e =
    let size : length (take n q) ≡ n = omega (arith, length-take n q) in
    let fits : length (take n q) ≤ length (replicate {A = ℕ} len 0) =
      omega (arith, length-replicate {A = ℕ} len 0, size) in
    subst (λ k. take k (overwrite (replicate len 0) 0 (take n q)) ≡ take n q) size
      (take-overwrite (take n q) (replicate len 0) fits)

call-step :
    {p : Pipe} (op : Op)
    → IsValid p
    → p.used ≡ true
    → ((call p op).0 ≡ (Queue.step (contents p) op).0)
      × (contents (call p op).1 ≡ (Queue.step (contents p) op).1)
unfolding call Queue.step
call-step {p} (put src) v u = ground (arith, pipe_write_lem src v u, length-contents p)
call-step {p} (get len) v u = ground (
  arith,
  pipe_read_lem (replicate len 0) len v u,
  length-contents p,
  read-back (min len p.count) len (contents p),
)

call-IsValid : {p : Pipe} (op : Op) → IsValid p → IsValid (call p op).1
unfolding call
call-IsValid (put src) v = pipe_write-IsValid (some src) (length src) v
call-IsValid (get len) v = pipe_read-IsValid (some (replicate len 0)) len v

call-used : {p : Pipe} (op : Op) → IsValid p → p.used ≡ true → (call p op).1.used ≡ true
unfolding call
call-used (put src) v u = (pipe_write_lem src v u).2
call-used (get len) v u = (pipe_read_lem (replicate len 0) len v u).3

-- No sequence of reads and writes tells a valid pipe in use from the bounded queue of its unread
-- bytes: every count returned and every byte delivered is the queue's.
pub run-eq-Queue :
    (ops : List Op) {p : Pipe} → IsValid p → p.used ≡ true → run p ops ≡ Queue.run (contents p) ops
unfolding run Queue.run
run-eq-Queue [] v u = refl
run-eq-Queue (op ∷ ops) {p} v u = rw (
  run-eq-Queue ops (call-IsValid op v) (call-used op v u),
  (call-step op v u).0,
  (call-step op v u).1,
)
