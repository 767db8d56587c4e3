-- ===== src/Pipe/Inv.antt =====
-- The representation invariant of a pipe: indices in range and consistent, and a slot that is in
-- use exactly as long as an end is open.
use furi_os.Prelude.{
  ℕ, ◌+◌, ◌-◌, ◌%◌, ◌^◌, ◌≤◌, ◌<◌, ◌≡◌, refl, true, false, some, none, Option, List, arith, length,
  length-replicate,
}
use furi_os.Pipe.{
  Pipe, pipe_capacity, zero_pipe, fresh_pipe, pipe_ref_read, pipe_ref_write, pipe_close_read,
  pipe_close_write, pipe_read, pipe_write,
}
use furi_os.Pipe.Window.{length-write_loop, write_loop-pos, read_loop-pos}

pub record IsValid (p : Pipe) : Type 0 where
  pub storage : length p.buf ≡ pipe_capacity
  pub rpos_in : p.rpos < pipe_capacity
  pub count_in : p.count ≤ pipe_capacity
  pub wpos_at : p.wpos ≡ (p.rpos + p.count) % pipe_capacity
  pub open_end : p.used ≡ true → 0 < p.readers + p.writers
  pub released : p.used ≡ false → (p.readers ≡ 0) × (p.writers ≡ 0) × (p.count ≡ 0)

pub zero_pipe-IsValid : IsValid zero_pipe
unfolding zero_pipe
zero_pipe-IsValid = record {
  storage = length-replicate {A = ℕ} pipe_capacity 0;
  rpos_in = omega arith;
  count_in = omega arith;
  wpos_at = omega arith;
  open_end = λ e. cc;
  released = λ e. (refl, refl, refl);
}

pub fresh_pipe-IsValid : IsValid fresh_pipe
unfolding zero_pipe
fresh_pipe-IsValid = record {
  storage = length-replicate {A = ℕ} pipe_capacity 0;
  rpos_in = omega arith;
  count_in = omega arith;
  wpos_at = omega arith;
  open_end = λ e. omega arith;
  released = λ e. cc;
}

pub pipe_ref_read-IsValid : {p : Pipe} → p.readers < 2 ^ 31 → IsValid p → IsValid (pipe_ref_read p)
unfolding pipe_ref_read
pipe_ref_read-IsValid h v = ground arith

pub pipe_ref_write-IsValid :
    {p : Pipe} → p.writers < 2 ^ 31 → IsValid p → IsValid (pipe_ref_write p)
unfolding pipe_ref_write
pipe_ref_write-IsValid h v = ground arith

pub pipe_close_read-IsValid : {p : Pipe} → IsValid p → IsValid (pipe_close_read p)
unfolding pipe_close_read
pipe_close_read-IsValid v = ground (arith, zero_pipe-IsValid)

pub pipe_close_write-IsValid : {p : Pipe} → IsValid p → IsValid (pipe_close_write p)
unfolding pipe_close_write
pipe_close_write-IsValid v = ground (arith, zero_pipe-IsValid)

pub pipe_read-IsValid :
    {p : Pipe} (dst : Option (List ℕ)) (len : ℕ) → IsValid p → IsValid (pipe_read p dst len).2
unfolding pipe_read
pipe_read-IsValid none len v = v
pipe_read-IsValid {p} (some dst) len v = ground (
  arith,
  read_loop-pos p.count 0 dst p.buf p.rpos v.rpos_in,
  read_loop-pos len 0 dst p.buf p.rpos v.rpos_in,
)

pub pipe_write-IsValid :
    {p : Pipe} (src : Option (List ℕ)) (len : ℕ) → IsValid p → IsValid (pipe_write p src len).1
unfolding pipe_write
pipe_write-IsValid none len v = v
pipe_write-IsValid {p} (some src) len v = ground (
  arith,
  write_loop-pos (pipe_capacity - p.count) 0 src p.buf p.wpos,
  write_loop-pos len 0 src p.buf p.wpos,
  length-write_loop (pipe_capacity - p.count) 0 src p.buf p.wpos,
  length-write_loop len 0 src p.buf p.wpos,
)
