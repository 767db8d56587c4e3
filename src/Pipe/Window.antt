-- ===== src/Pipe/Window.antt =====
-- The bytes of a circular buffer of `pipe_capacity` cells, and what the two copy loops do to them.
use furi_os.Prelude.{
  ℕ, zero, suc, ◌+◌, ◌-◌, ◌%◌, ◌≤◌, ◌<◌, ◌≡◌, refl, ap, ap₂, ◌∙◌, List, [], ◌∷◌, ◌++◌, arith,
  append-nil, append_assoc, length, get_or, set, slice, take, drop, length-set, get_or-set_self,
  get_or-set_ne, overwrite,
}
use furi_os.Pipe.{pipe_capacity, read_loop, write_loop}

-- the `n` bytes from index `h` on, going round at the capacity
abbrev pub window : List ℕ → ℕ → ℕ → List ℕ
window buf h zero = []
window buf h (suc n) = get_or buf h 0 ∷ window buf ((h + 1) % pipe_capacity) n

pub length-window : (buf : List ℕ) (h n : ℕ) → length (window buf h n) ≡ n
length-window buf h zero = refl
length-window buf h (suc n) = ap suc (length-window buf ((h + 1) % pipe_capacity) n)

-- Writing just past a window extends it by that byte.
window-set :
    (buf : List ℕ) (x h n i : ℕ)
    → length buf ≡ pipe_capacity
    → h < pipe_capacity
    → n < pipe_capacity
    → i ≡ (h + n) % pipe_capacity
    → window (set buf i x) h (suc n) ≡ window buf h n ++ (x ∷ [])
window-set buf x h zero i hl hh hn e =
    let at : i ≡ h = omega arith in rw (at, get_or-set_self buf h x 0 (omega arith))
window-set buf x h (suc n) i hl hh hn e =
    ap₂ ◌∷◌ (get_or-set_ne buf i h x 0 (omega arith))
      (window-set buf x ((h + 1) % pipe_capacity) n i hl (omega arith) (omega arith) (omega arith))

pub length-write_loop :
    (k i : ℕ) (src buf : List ℕ) (w : ℕ) → length (write_loop k i src buf w).0 ≡ length buf
unfolding write_loop
length-write_loop zero i src buf w = refl
length-write_loop (suc k) i src buf w =
    length-write_loop k (i + 1) src (set buf w (get_or src i 0)) ((w + 1) % pipe_capacity)
    ∙ length-set buf w (get_or src i 0)

pub write_loop-pos :
    (k i : ℕ) (src buf : List ℕ) (w : ℕ)
    → w < pipe_capacity
    → (write_loop k i src buf w).1 ≡ (w + k) % pipe_capacity
unfolding write_loop
write_loop-pos zero i src buf w h = omega arith
write_loop-pos (suc k) i src buf w h = omega (
  arith,
  write_loop-pos k (i + 1) src (set buf w (get_or src i 0)) ((w + 1) % pipe_capacity) (omega arith),
)

-- The write loop appends the bytes that it reads from the source.
pub window-write_loop :
    (k i : ℕ) (src buf : List ℕ) (w h c : ℕ)
    → length buf ≡ pipe_capacity
    → h < pipe_capacity
    → c + k ≤ pipe_capacity
    → w ≡ (h + c) % pipe_capacity
    → window (write_loop k i src buf w).0 h (c + k) ≡ window buf h c ++ slice 0 src i k
unfolding write_loop
window-write_loop zero i src buf w h c hl hh hc e =
    let whole : c + 0 ≡ c = omega arith in rw (whole, append-nil)
window-write_loop (suc k) i src buf w h c hl hh hc e =
    let shift : c + suc k ≡ suc c + k = omega arith in
    let b : ℕ = get_or src i 0 in
    let w' : ℕ = (w + 1) % pipe_capacity in
    rw shift (
      window-write_loop k (i + 1) src (set buf w b) w' h (suc c) (length-set buf w b ∙ hl) hh
        (omega arith) (omega arith)
      ∙ ap (λ t. t ++ slice 0 src (i + 1) k) (window-set buf b h c w hl hh (omega arith) e)
      ∙ append_assoc (window buf h c) (b ∷ []) (slice 0 src (i + 1) k))

pub read_loop-pos :
    (k i : ℕ) (dst buf : List ℕ) (r : ℕ)
    → r < pipe_capacity
    → (read_loop k i dst buf r).1 ≡ (r + k) % pipe_capacity
unfolding read_loop
read_loop-pos zero i dst buf r h = omega arith
read_loop-pos (suc k) i dst buf r h = omega (
  arith,
  read_loop-pos k (i + 1) (set dst i (get_or buf r 0)) buf ((r + 1) % pipe_capacity) (omega arith),
)

-- What is left of a window after `k` of its bytes.
pub drop-window :
    (k n : ℕ) (buf : List ℕ) (r : ℕ)
    → r < pipe_capacity
    → k ≤ n
    → window buf ((r + k) % pipe_capacity) (n - k) ≡ drop k (window buf r n)
drop-window zero n buf r hr h =
    let same : (r + 0) % pipe_capacity ≡ r = omega arith in
    let all : n - 0 ≡ n = omega arith in rw (same, all)
drop-window (suc k) zero buf r hr h = absurd (omega arith)
drop-window (suc k) (suc n) buf r hr h =
    let at : (r + suc k) % pipe_capacity ≡ ((r + 1) % pipe_capacity + k) % pipe_capacity =
      omega arith in
    let left : suc n - suc k ≡ n - k = omega arith in
    rw (at, left) (drop-window k n buf ((r + 1) % pipe_capacity) (omega arith) (omega arith))

-- The read loop copies the window's bytes into the destination.
pub read_loop-copies :
    (k i : ℕ) (dst buf : List ℕ) (r n : ℕ)
    → k ≤ n
    → (read_loop k i dst buf r).0 ≡ overwrite dst i (take k (window buf r n))
unfolding read_loop
read_loop-copies zero i dst buf r n h = refl
read_loop-copies (suc k) i dst buf r zero h = absurd (omega arith)
read_loop-copies (suc k) i dst buf r (suc n) h =
    read_loop-copies k (i + 1) (set dst i (get_or buf r 0)) buf ((r + 1) % pipe_capacity) n
      (omega arith)
