-- ===== src/Pipe/Queue.antt =====
-- What a pipe promises its two ends: a queue of at most `pipe_capacity` bytes with short counts.
use furi_os.Prelude.{ℕ, ◌-◌, List, [], ◌∷◌, ◌++◌, length, min, take, drop}
use furi_os.Pipe.{pipe_capacity}

pub data Op : Type 0 where
  put : List ℕ → Op
  get : ℕ → Op

-- the count that the call returns, and the bytes that it delivers
abbrev pub Reply : Type 0
Reply = ℕ × List ℕ

unfoldable pub step : List ℕ → Op → Reply × List ℕ
step q (put src) = let n = min (length src) (pipe_capacity - length q) in ((n, []), q ++ take n src)
step q (get len) = let n = min len (length q) in ((n, take n q), drop n q)

unfoldable pub run : List ℕ → List Op → List Reply
run q [] = []
run q (op ∷ ops) = let (r, q') = step q op in r ∷ run q' ops
