-- ===== src/Pipe/Table.antt =====
-- The pipe table: allocation, reference counts of the two ends, and independence of the slots.
use furi_os.Prelude.{
  ◌≤◌, ◌^◌, ℕ, zero, suc, ◌+◌, ◌<◌, ◌≡◌, ◌≢◌, refl, ◌⊎◌, inl, inr, true, false, some, none, Option,
  List, [], ◌∷◌, arith, length, get_or, set, take, get_or-set_ne, replicate, Bool-cases,
}
use furi_os.Pipe.{
  Pipe, max_pipes, zero_pipe, fresh_pipe, pipe_init, alloc_from, pipe_alloc, pipe_ref_read,
  pipe_ref_write, pipe_close_read, pipe_close_write, pipe_read, pipe_write, through,
}
use furi_os.Pipe.Inv.{
  IsValid, zero_pipe-IsValid, fresh_pipe-IsValid, pipe_ref_read-IsValid, pipe_ref_write-IsValid,
  pipe_close_read-IsValid, pipe_close_write-IsValid, pipe_read-IsValid, pipe_write-IsValid,
}

-- every slot of a list is in use
abbrev pub AllUsed : List Pipe → Type 0
AllUsed [] = Unit {0}
AllUsed (p ∷ ps) = (p.used ≡ true) × AllUsed ps

alloc_from_full : (i : ℕ) (ps : List Pipe) → AllUsed ps → alloc_from i ps ≡ (none, ps)
unfolding alloc_from
alloc_from_full i [] h = refl
alloc_from_full i (p ∷ ps) h = ground (arith, alloc_from_full (i + 1) ps h.1)

abbrev AllocAt : ℕ → List Pipe → ℕ → Type 0
AllocAt i ps k =
    (k < length ps)
    × ((get_or ps k zero_pipe).used ≡ false)
    × AllUsed (take k ps)
    × (alloc_from i ps ≡ (some (i + k), set ps k fresh_pipe))

alloc_from_cases : (i : ℕ) (ps : List Pipe) → AllUsed ps ⊎ ((k : ℕ) × AllocAt i ps k)
unfolding alloc_from
alloc_from_cases i [] = inl tt
alloc_from_cases i (p ∷ ps) = elim (Bool-cases p.used) [
  | inr free ↦ inr (0, (omega arith, free, tt, ground arith))
  | inl busy ↦ elim (alloc_from_cases (i + 1) ps) [
    | inl all ↦ inl (busy, all)
    | inr (k, at) ↦ inr (suc k, (omega arith, at.1, (busy, at.2), ground arith))
  ]
]

-- pipe_alloc returns NULL and changes nothing exactly when every slot is in use; otherwise it takes
-- the first slot that is not, opens one end of each kind on it and leaves the other slots alone.
pub pipe_alloc_cases :
    (ps : List Pipe)
    → (AllUsed ps × (pipe_alloc ps ≡ (none, ps)))
      ⊎ ((k : ℕ) × (k < length ps)
          × ((get_or ps k zero_pipe).used ≡ false)
          × AllUsed (take k ps)
          × (pipe_alloc ps ≡ (some k, set ps k fresh_pipe)))
unfolding pipe_alloc
pipe_alloc_cases ps = elim (alloc_from_cases 0 ps) [
  | inl all ↦ inl (all, alloc_from_full 0 ps all)
  | inr (k, at) ↦ inr (k, at.0, at.1, at.2, ground arith)
]

-- Closing the last end of a pipe, of either kind, gives its slot back zeroed; while another end is
-- open the slot stays in use and the other end's count is unchanged.
pub close_releases :
    (p : Pipe)
    → p.used ≡ true
    → (p.readers ≡ 1 → p.writers ≡ 0 → pipe_close_read p ≡ zero_pipe)
      × (p.readers ≡ 0 → p.writers ≡ 1 → pipe_close_write p ≡ zero_pipe)
      × (1 < p.readers + p.writers
          → ((pipe_close_read p).used ≡ true)
            × ((pipe_close_read p).writers ≡ p.writers)
            × ((pipe_close_write p).used ≡ true)
            × ((pipe_close_write p).readers ≡ p.readers))
unfolding pipe_close_read pipe_close_write
close_releases p u = (λ a b. ground arith, λ a b. ground arith, λ h. ground arith)

pub data Call : Type 0 where
  alloc : Call
  ref_read ref_write close_read close_write : Option ℕ → Call
  read : Option ℕ → Option (List ℕ) → ℕ → Call
  write : Option ℕ → Option (List ℕ) → ℕ → Call

pub apply : List Pipe → Call → List Pipe
apply ps alloc = (pipe_alloc ps).1
apply ps (ref_read p) = through pipe_ref_read ps p
apply ps (ref_write p) = through pipe_ref_write ps p
apply ps (close_read p) = through pipe_close_read ps p
apply ps (close_write p) = through pipe_close_write ps p
apply ps (read p dst len) = through (λ q. (pipe_read q dst len).2) ps p
apply ps (write p src len) = through (λ q. (pipe_write q src len).1) ps p

pub history : List Pipe → List Call → List Pipe
history ps [] = ps
history ps (c ∷ cs) = history (apply ps c) cs

-- every slot is valid, with at most `n` ends of each kind
abbrev AllWithin : ℕ → List Pipe → Type 0
AllWithin n [] = Unit {0}
AllWithin n (p ∷ ps) = ((IsValid p) × (p.readers ≤ n) × (p.writers ≤ n)) × AllWithin n ps

abbrev pub AllValid : List Pipe → Type 0
AllValid [] = Unit {0}
AllValid (p ∷ ps) = IsValid p × AllValid ps

Within : ℕ → Pipe → Type 0
Within n p = IsValid p × (p.readers ≤ n) × (p.writers ≤ n)

set-AllWithin :
    (n : ℕ) (ps : List Pipe) (i : ℕ) (q : Pipe)
    → AllWithin n ps
    → Within n q
    → AllWithin n (set ps i q)
unfolding Within
set-AllWithin n [] i q a v = tt
set-AllWithin n (p ∷ ps) zero q a v = (v, a.1)
set-AllWithin n (p ∷ ps) (suc i) q a v = (a.0, set-AllWithin n ps i q a.1 v)

get_or-Within : (n : ℕ) (ps : List Pipe) (i : ℕ) → AllWithin n ps → Within n (get_or ps i zero_pipe)
unfolding Within zero_pipe
get_or-Within n [] i a = (zero_pipe-IsValid, omega arith, omega arith)
get_or-Within n (p ∷ ps) zero a = a.0
get_or-Within n (p ∷ ps) (suc i) a = get_or-Within n ps i a.1

more-AllWithin : (n : ℕ) (ps : List Pipe) → AllWithin n ps → AllWithin (n + 1) ps
more-AllWithin n [] a = tt
more-AllWithin n (p ∷ ps) ((v, r, w), a) =
    ((v, omega (arith, r), omega (arith, w)), more-AllWithin n ps a)

through-AllWithin :
    (f : Pipe → Pipe) (n : ℕ) (ps : List Pipe) (p : Option ℕ)
    → ((q : Pipe) → Within n q → Within (n + 1) (f q))
    → AllWithin n ps
    → AllWithin (n + 1) (through f ps p)
unfolding through
through-AllWithin f n ps none keep a = more-AllWithin n ps a
through-AllWithin f n ps (some i) keep a =
    set-AllWithin (n + 1) ps i _ (more-AllWithin n ps a) (keep _ (get_or-Within n ps i a))

pipe_alloc-AllWithin :
    (n : ℕ) (ps : List Pipe) → AllWithin n ps → AllWithin (n + 1) (pipe_alloc ps).1
unfolding Within zero_pipe
pipe_alloc-AllWithin n ps a = elim (pipe_alloc_cases ps) [
  | inl (_, e) ↦ rw e (more-AllWithin n ps a)
  | inr (k, _, _, _, e) ↦ rw e (
      set-AllWithin (n + 1) ps k fresh_pipe (more-AllWithin n ps a)
        (fresh_pipe-IsValid, omega arith, omega arith))
]

close_read-Within : (n : ℕ) (q : Pipe) → Within n q → Within (n + 1) (pipe_close_read q)
unfolding Within pipe_close_read zero_pipe
close_read-Within n q (v, r, w) = (pipe_close_read-IsValid v, ground (arith, r), ground (arith, w))

close_write-Within : (n : ℕ) (q : Pipe) → Within n q → Within (n + 1) (pipe_close_write q)
unfolding Within pipe_close_write zero_pipe
close_write-Within n q (v, r, w) =
    (pipe_close_write-IsValid v, ground (arith, r), ground (arith, w))

ref_read-Within : (n : ℕ) (q : Pipe) → n < 2 ^ 31 → Within n q → Within (n + 1) (pipe_ref_read q)
unfolding Within pipe_ref_read
ref_read-Within n q h (v, r, w) =
    (pipe_ref_read-IsValid (omega (arith, r)) v, ground (arith, r), ground (arith, w))

ref_write-Within : (n : ℕ) (q : Pipe) → n < 2 ^ 31 → Within n q → Within (n + 1) (pipe_ref_write q)
unfolding Within pipe_ref_write
ref_write-Within n q h (v, r, w) =
    (pipe_ref_write-IsValid (omega (arith, w)) v, ground (arith, r), ground (arith, w))

read-Within :
    (n : ℕ) (dst : Option (List ℕ)) (len : ℕ) (q : Pipe)
    → Within n q
    → Within (n + 1) (pipe_read q dst len).2
unfolding Within pipe_read
read-Within n none len q (v, r, w) = (v, omega (arith, r), omega (arith, w))
read-Within n (some dst) len q (v, r, w) =
    (pipe_read-IsValid (some dst) len v, ground (arith, r), ground (arith, w))

write-Within :
    (n : ℕ) (src : Option (List ℕ)) (len : ℕ) (q : Pipe)
    → Within n q
    → Within (n + 1) (pipe_write q src len).1
unfolding Within pipe_write
write-Within n none len q (v, r, w) = (v, omega (arith, r), omega (arith, w))
write-Within n (some src) len q (v, r, w) =
    (pipe_write-IsValid (some src) len v, ground (arith, r), ground (arith, w))

apply-AllWithin :
    (n : ℕ) (ps : List Pipe) (c : Call)
    → n < 2 ^ 31
    → AllWithin n ps
    → AllWithin (n + 1) (apply ps c)
unfolding apply
apply-AllWithin n ps alloc h a = pipe_alloc-AllWithin n ps a
apply-AllWithin n ps (ref_read p) h a =
    through-AllWithin pipe_ref_read n ps p (λ q v. ref_read-Within n q h v) a
apply-AllWithin n ps (ref_write p) h a =
    through-AllWithin pipe_ref_write n ps p (λ q v. ref_write-Within n q h v) a
apply-AllWithin n ps (close_read p) h a =
    through-AllWithin pipe_close_read n ps p (close_read-Within n) a
apply-AllWithin n ps (close_write p) h a =
    through-AllWithin pipe_close_write n ps p (close_write-Within n) a
apply-AllWithin n ps (read p dst len) h a = through-AllWithin _ n ps p (read-Within n dst len) a
apply-AllWithin n ps (write p src len) h a = through-AllWithin _ n ps p (write-Within n src len) a

AllWithin-AllValid : (n : ℕ) (ps : List Pipe) → AllWithin n ps → AllValid ps
AllWithin-AllValid n [] a = tt
AllWithin-AllValid n (p ∷ ps) a = (a.0.0, AllWithin-AllValid n ps a.1)

history-AllValid :
    (n : ℕ) (ps : List Pipe) (cs : List Call)
    → n + length cs ≤ 2 ^ 31
    → AllWithin n ps
    → AllValid (history ps cs)
unfolding history
history-AllValid n ps [] h a = AllWithin-AllValid n ps a
history-AllValid n ps (c ∷ cs) h a =
    history-AllValid (n + 1) (apply ps c) cs (omega arith) (apply-AllWithin n ps c (omega arith) a)

replicate-AllWithin : (n k : ℕ) → AllWithin n (replicate k zero_pipe)
unfolding zero_pipe
replicate-AllWithin n zero = tt
replicate-AllWithin n (suc k) =
    ((zero_pipe-IsValid, omega arith, omega arith), replicate-AllWithin n k)

-- After any sequence of fewer than 2 ^ 31 calls from pipe_init, each through any pointer, every slot of
-- the table is valid: its indices are in range and consistent, and it is in use exactly as long as an
-- end is open.
pub history-pipe_init : (cs : List Call) → length cs < 2 ^ 31 → AllValid (history pipe_init cs)
unfolding pipe_init
history-pipe_init cs h =
    history-AllValid 0 _ cs (omega (arith, h)) (replicate-AllWithin 0 max_pipes)

-- A call through one pointer leaves every other slot as it was.
pub through-others :
    (f : Pipe → Pipe) (ps : List Pipe) (i j : ℕ)
    → i ≢ j
    → get_or (through f ps (some i)) j zero_pipe ≡ get_or ps j zero_pipe
unfolding through
through-others f ps i j h = get_or-set_ne ps i j _ zero_pipe h
