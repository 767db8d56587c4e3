-- ===== src/Pipe/Tests.antt =====
-- Pipes at concrete inputs.
use furi_os.Prelude.{
  ℕ, ◌≡◌, refl, ◌+◌, ◌-◌, true, false, some, none, List, [], ◌∷◌, ◌++◌, length, min, take, drop,
  get_or, set, overwrite, ◌<◌, ◌⊎◌, arith,
}
use furi_os.Pipe.{
  Pipe, pipe_capacity, zero_pipe, fresh_pipe, pipe_init, pipe_alloc, pipe_write, pipe_read,
  pipe_close_read, pipe_close_write,
}
use furi_os.Pipe.Queue.{put, get, Op}
use furi_os.Pipe.Queue
use furi_os.Pipe.Inv.{fresh_pipe-IsValid}
use furi_os.Pipe.Fifo.{contents, pipe_write_lem, pipe_read_lem, run-eq-Queue, run, call}
use furi_os.Pipe.Table.{
  AllUsed, pipe_alloc_cases, close_releases, AllValid, history, history-pipe_init, alloc, write,
  close_read, close_write, Call,
}

abbrev script : List Op
script = put (7 ∷ 8 ∷ 9 ∷ []) ∷ get 2 ∷ put (1 ∷ []) ∷ get 10 ∷ get 1 ∷ []

run-script :
    run fresh_pipe script ≡ (3, []) ∷ (2, 7 ∷ 8 ∷ []) ∷ (1, []) ∷ (2, 9 ∷ 1 ∷ []) ∷ (0, []) ∷ []
unfolding run call pipe_write pipe_read zero_pipe
run-script = refl

fresh_used : fresh_pipe.used ≡ true
fresh_used = refl

pipe_write_lem_example :
    let (n, p) = pipe_write fresh_pipe (some (7 ∷ 8 ∷ [])) 2 in
    (n ≡ min 2 (pipe_capacity - fresh_pipe.count))
    × (contents p ≡ contents fresh_pipe ++ take n (7 ∷ 8 ∷ []))
    × (p.used ≡ true)
pipe_write_lem_example = pipe_write_lem (7 ∷ 8 ∷ []) fresh_pipe-IsValid fresh_used

pipe_read_lem_example :
    let (n, d, p) = pipe_read fresh_pipe (some (0 ∷ 0 ∷ [])) 2 in
    (n ≡ min 2 fresh_pipe.count)
    × (d ≡ some (overwrite (0 ∷ 0 ∷ []) 0 (take n (contents fresh_pipe))))
    × (contents p ≡ drop n (contents fresh_pipe))
    × (p.used ≡ true)
pipe_read_lem_example = pipe_read_lem (0 ∷ 0 ∷ []) 2 fresh_pipe-IsValid fresh_used

run-eq-Queue_example : run fresh_pipe script ≡ Queue.run (contents fresh_pipe) script
run-eq-Queue_example = run-eq-Queue script fresh_pipe-IsValid fresh_used

abbrev busy_table : List Pipe
busy_table = fresh_pipe ∷ zero_pipe ∷ []

pipe_alloc_cases_test :
    (AllUsed busy_table × (pipe_alloc busy_table ≡ (none, busy_table)))
    ⊎ ((k : ℕ) × (k < length busy_table)
        × ((get_or busy_table k zero_pipe).used ≡ false)
        × AllUsed (take k busy_table)
        × (pipe_alloc busy_table ≡ (some k, set busy_table k fresh_pipe)))
pipe_alloc_cases_test = pipe_alloc_cases busy_table

close_releases_test :
    (fresh_pipe.readers ≡ 1 → fresh_pipe.writers ≡ 0 → pipe_close_read fresh_pipe ≡ zero_pipe)
    × (fresh_pipe.readers ≡ 0 → fresh_pipe.writers ≡ 1 → pipe_close_write fresh_pipe ≡ zero_pipe)
    × (1 < fresh_pipe.readers + fresh_pipe.writers
        → ((pipe_close_read fresh_pipe).used ≡ true)
          × ((pipe_close_read fresh_pipe).writers ≡ fresh_pipe.writers)
          × ((pipe_close_write fresh_pipe).used ≡ true)
          × ((pipe_close_write fresh_pipe).readers ≡ fresh_pipe.readers))
close_releases_test = close_releases fresh_pipe fresh_used

abbrev story : List Call
story = alloc ∷ write (some 0) (some (5 ∷ [])) 1 ∷ close_read (some 0) ∷ close_write (some 0) ∷ []

history-pipe_init_example : AllValid (history pipe_init story)
history-pipe_init_example = history-pipe_init story (omega arith)
