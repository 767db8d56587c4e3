-- ===== src/Malloc/Realloc.antt =====
-- realloc and calloc on a valid heap: the region, its bytes, and what stays.
use furi_os.Prelude.{
  ℕ, ◌+◌, ◌-◌, ◌*◌, ◌/◌, ◌%◌, ◌^◌, ◌≤◌, ◌<◌, ◌≡◌, refl, ap, sym, ◌∙◌, subst, ◌⊎◌, inl, inr, Bool,
  true, false, false≢true, not, ◌&&◌, Option, none, some, List, [], ◌∷◌, ◌++◌, ltb, leb, ◌==◌,
  if◌then◌else◌, if_cases, arith,
}
use furi_os.Malloc.{
  Block, Heap, header, payload, maybe_split_block, split_to, grow, Resize, unknown, in_place, move,
  regrow, after, resize, resized, moved, copy_bytes, malloc, realloc,
}
use furi_os.Malloc.Layout.{
  Laid, TailOf, last, joined, Laid-split_to, TailOf-split_to, Laid-joined, Laid-rest, TailOf-rest,
  TailOf-cons,
}
use furi_os.Malloc.Regions.{Region, regions, release, split_size, regions_free}
use furi_os.Malloc.Bytes.{
  at-starts, at-holds, Inserted-holds, Inserted-starts, Inserted-new, Inserted-Apart,
}
use furi_os.Malloc.Memory.{holds, starts, written, handed_out, released}
use furi_os.Malloc.Alloc.{
  regions-Apart, Chain, Inserted, SbrkLaws, IsValid, Outcome, malloc-Outcome, free_lem,
}
use furi_os.Pmm.{align_up}
use furi_os.Pmm.Align.{align_up_sixteen}

-- the block of the pointer is handed out
unfoldable pub owned : (ptr : ℕ) → List Block → Bool
owned ptr [] = false
owned ptr (b ∷ bs) = let rest = owned ptr bs in if payload b == ptr then not b.free else rest

-- a region keeps its place and has room for `size` bytes
pub Enlarged : List Region → (ptr size : ℕ) → List Region → Type 0
Enlarged old ptr size new =
    (l : List Region) × (r : List Region) × (m : ℕ) × (n : ℕ) × (old ≡ l ++ ((ptr, m) ∷ r))
    × (new ≡ l ++ ((ptr, n) ∷ r))
    × (size ≤ n)

Grown : (size : ℕ) → Block → List Block → (lo hi : ℕ) → List Block × Option ℕ → Type 0
Grown size b bs lo hi r =
    Laid lo r.0 hi × TailOf r × ((n : ℕ) × (regions r.0 ≡ (payload b, n) ∷ regions bs) × (size ≤ n))

regions-split_to :
    (size : ℕ) (b : Block) (bs : List Block) (tail : Option ℕ)
    → b.free ≡ false
    → regions (split_to size b bs tail).0
      ≡ (payload b, (maybe_split_block size b tail).0.size) ∷ regions bs
unfolding regions maybe_split_block
regions-split_to size b bs tail f = ground arith

Grown-split_to :
    (size : ℕ) (b : Block) (bs : List Block) (tail : Option ℕ) (lo hi : ℕ)
    → size < 2 ^ 62
    → b.free ≡ false
    → size ≤ b.size
    → Laid lo (b ∷ bs) hi
    → TailOf (b ∷ bs, tail)
    → Grown size b bs lo hi (split_to size b bs tail)
unfolding Grown
Grown-split_to size b bs tail lo hi small f fits l t = (
  Laid-split_to size b bs tail lo hi (omega arith) l,
  TailOf-split_to size b bs tail lo hi l t,
  (
    (maybe_split_block size b tail).0.size,
    regions-split_to size b bs tail f,
    split_size size b tail fits,
  ),
)

joined_tail :
    (b n : Block) (bs : List Block) (tail : Option ℕ)
    → TailOf (b ∷ n ∷ bs, tail)
    → TailOf (joined b n ∷ bs, elim bs [ [] ↦ some b.addr | x ∷ xs ↦ tail ])
unfolding TailOf last
joined_tail b n [] tail t = (b.addr, refl, refl)
joined_tail b n (c ∷ bs) tail t = t

Grown-joined :
    (size : ℕ) (b n : Block) (bs : List Block) (tail : Option ℕ) (lo hi : ℕ)
    → size < 2 ^ 62
    → b.free ≡ false
    → n.free ≡ true
    → payload b + b.size ≡ n.addr
    → size ≤ (joined b n).size
    → Laid lo (b ∷ n ∷ bs) hi
    → TailOf (b ∷ n ∷ bs, tail)
    → Grown size b
        (n ∷ bs)
        lo
        hi
        (split_to size (joined b n) bs (elim bs [ [] ↦ some b.addr | x ∷ xs ↦ tail ]))
unfolding Grown
Grown-joined size b n bs tail lo hi small f nf meets fits l t =
    let g =
      Grown-split_to size (joined b n) bs (elim bs [ [] ↦ some b.addr | x ∷ xs ↦ tail ]) lo hi small
        f fits (Laid-joined b n bs lo hi meets l) (joined_tail b n bs tail t) in
    (
      g.0,
      g.1,
      (g.2.0, g.2.1 ∙ ap (λ x. (payload b, g.2.0) ∷ x) (sym (regions_free n bs nf)), g.2.2),
    )

-- What realloc does in place keeps the chain and the other regions; where it cannot, the block is
-- too small.
GrowResult : (size : ℕ) → Block → List Block → (lo hi : ℕ) → Option (List Block × Option ℕ) → Type 0
GrowResult size b bs lo hi none = b.size < size
GrowResult size b bs lo hi (some r) = Grown size b bs lo hi r

grow_lem :
    (size : ℕ) (b : Block) (bs : List Block) (tail : Option ℕ) (lo hi : ℕ)
    → size < 2 ^ 62
    → b.free ≡ false
    → Laid lo (b ∷ bs) hi
    → TailOf (b ∷ bs, tail)
    → GrowResult size b bs lo hi (grow size b bs tail)
unfolding grow GrowResult
grow_lem size b [] tail lo hi small f l t =
    if_cases (GrowResult size b [] lo hi) (leb size b.size) _ _
      (λ e. Grown-split_to size b [] tail lo hi small f (ground arith) l t) (λ e. ground arith)
grow_lem size b (n ∷ bs) tail lo hi small f l t =
    let joins = n.free && payload b + b.size == n.addr && leb size (joined b n).size in
    if_cases (GrowResult size b (n ∷ bs) lo hi) (leb size b.size) _ _
      (λ e. Grown-split_to size b (n ∷ bs) tail lo hi small f (ground arith) l t)
      (λ e.
        if_cases (GrowResult size b (n ∷ bs) lo hi) joins _ _
          (λ j.
            Grown-joined size b n bs tail lo hi small f (ground arith) (ground arith) (ground arith)
              l t)
          (λ j. ground arith))

owned_rest :
    (ptr : ℕ) (b : Block) (bs : List Block) (tail : Option ℕ)
    → owned ptr bs ≡ true
    → TailOf (b ∷ bs, tail)
    → TailOf (bs, tail)
unfolding owned
owned_rest ptr b [] tail o t = absurd (false≢true o)
owned_rest ptr b (c ∷ bs) tail o t = TailOf-rest b c bs tail t

-- What realloc does with the block of an owned pointer.
ResizeResult : (ptr size : ℕ) → List Block → (lo hi : ℕ) → Resize → Type 0
ResizeResult ptr size bs lo hi unknown = ⊥
ResizeResult ptr size bs lo hi (in_place bs' t) =
    Laid lo bs' hi × TailOf (bs', t) × Enlarged (regions bs) ptr size (regions bs')
ResizeResult ptr size bs lo hi (move m) =
    (m < size) × ((l : List Region) × (r : List Region) × (regions bs ≡ l ++ ((ptr, m) ∷ r)))

regions_owned :
    (b : Block) (bs : List Block)
    → b.free ≡ false
    → regions (b ∷ bs) ≡ (payload b, b.size) ∷ regions bs
unfolding regions
regions_owned b bs f = rw f refl

regrow_lem :
    (size : ℕ) (b : Block) (bs : List Block) (lo hi : ℕ) (r : Option (List Block × Option ℕ))
    → b.free ≡ false
    → GrowResult size b bs lo hi r
    → ResizeResult (payload b) size (b ∷ bs) lo hi (regrow b r)
unfolding GrowResult ResizeResult Grown regrow Enlarged
regrow_lem size b bs lo hi none f g = (g, ([], regions bs, regions_owned b bs f))
regrow_lem size b bs lo hi (some r) f (l, t, (n, e, fits)) =
    (l, t, ([], regions bs, b.size, n, regions_owned b bs f, e, fits))

-- One block more in front.
front : Block → List Region → List Region
front b rs = if b.free then rs else (payload b, b.size) ∷ rs

regions-front : (b : Block) (bs : List Block) → regions (b ∷ bs) ≡ front b (regions bs)
unfolding regions front
regions-front b bs = refl

front_append : (b : Block) (l r : List Region) → front b (l ++ r) ≡ front b l ++ r
unfolding front
front_append b l r = ground arith

after_lem :
    (ptr size : ℕ) (b : Block) (bs : List Block) (lo hi : ℕ) (r : Resize)
    → Laid lo (b ∷ bs) hi
    → ResizeResult ptr size bs (b.addr + header + b.size) hi r
    → ResizeResult ptr size (b ∷ bs) lo hi (after b r)
unfolding ResizeResult after Enlarged Laid
after_lem ptr size b bs lo hi unknown k h = h
after_lem ptr size b bs lo hi (in_place bs' t) k (laid, ends, (l, r, m, n, old, new, fits)) = (
  (k.0, laid),
  TailOf-cons b (bs', t) ends,
  (
    front b l,
    r,
    m,
    n,
    regions-front b bs ∙ ap (front b) old ∙ front_append b l ((ptr, m) ∷ r),
    regions-front b bs' ∙ ap (front b) new ∙ front_append b l ((ptr, n) ∷ r),
    fits,
  ),
)
after_lem ptr size b bs lo hi (move m) k (less, (l, r, old)) =
    (less, (front b l, r, regions-front b bs ∙ ap (front b) old ∙ front_append b l ((ptr, m) ∷ r)))

resize_lem :
    (ptr size : ℕ) (bs : List Block) (tail : Option ℕ) (lo hi : ℕ)
    → size < 2 ^ 62
    → owned ptr bs ≡ true
    → Laid lo bs hi
    → TailOf (bs, tail)
    → ResizeResult ptr size bs lo hi (resize ptr size bs tail)
unfolding resize owned
resize_lem ptr size [] tail lo hi small o l t = absurd (false≢true o)
resize_lem ptr size (b ∷ bs) tail lo hi small o l t =
    if_cases (ResizeResult ptr size (b ∷ bs) lo hi) (payload b == ptr) _ _
      (λ e.
        let same : payload b ≡ ptr = ground arith in
        let used : b.free ≡ false = ground arith in
        subst (λ p. ResizeResult p size (b ∷ bs) lo hi (regrow b (grow size b bs tail))) same
          (regrow_lem size b bs lo hi (grow size b bs tail) used
            (grow_lem size b bs tail lo hi small used l t)))
      (λ e.
        let o' : owned ptr bs ≡ true = ground arith in
        after_lem ptr size b bs lo hi (resize ptr size bs tail) l (
          resize_lem ptr size bs tail (b.addr + header + b.size) hi small o'
            (Laid-rest b bs lo hi l) (owned_rest ptr b bs tail o' t)))

copy_bytes_out :
    (to from n a : ℕ) (mem : ℕ → ℕ)
    → leb to a && ltb a (to + n) ≡ false
    → copy_bytes to from n mem a ≡ mem a
unfolding copy_bytes
copy_bytes_out to from n a mem h = rw h refl

copy_bytes_lem :
    (to from n i : ℕ) (mem : ℕ → ℕ) → i < n → copy_bytes to from n mem (to + i) ≡ mem (from + i)
unfolding copy_bytes
copy_bytes_lem to from n i mem h =
    let at : to + i - to ≡ i = omega arith in
    let inside : leb to (to + i) && ltb (to + i) (to + n) ≡ true = ground arith in
    rw inside (ap (λ j. mem (from + j)) at)

module _ {S : Type 0} (sbrk : S → ℕ → Option ℕ × S) (top : S → ℕ) (ok : S → Type 0)
    (laws : SbrkLaws sbrk top ok) where
  -- What realloc of `ptr` leaves: the same pointer with an enlarged region and the same bytes, or
  -- another region with the bytes of the old one, which is taken back, or nothing new.
  unfoldable pub Reallocated : (ptr size : ℕ) → Heap S → Option ℕ × Heap S → Type 0
  Reallocated ptr size h (got, h') =
      ((got ≡ some ptr)
        × Enlarged (regions h.blocks) ptr size (regions h'.blocks)
        × ((a : ℕ) → holds (regions h'.blocks) a ≡ true → h'.mem a ≡ h.mem a))
      ⊎ ((got ≡ none) × (regions h'.blocks ≡ regions h.blocks) × (h'.mem ≡ h.mem))
      ⊎ ((q : ℕ) × (m : ℕ) × (rs : List Region) × (got ≡ some q)
          × Inserted (regions h.blocks) q size rs
          × (regions h'.blocks ≡ release ptr rs)
          × ((l : List Region) × (r : List Region) × (regions h.blocks ≡ l ++ ((ptr, m) ∷ r)))
          × (m < size)
          × ((i : ℕ) → i < m → h'.mem (q + i) ≡ h.mem (ptr + i))
          × ((a : ℕ) → holds (regions h.blocks) a ≡ true → h'.mem a ≡ h.mem a))

  moved_lem :
      (ptr size m : ℕ) (h : Heap S) (r : Option ℕ × Heap S)
      → m < size
      → ((l : List Region) × (rs : List Region) × (regions h.blocks ≡ l ++ ((ptr, m) ∷ rs)))
      → Outcome sbrk top ok laws size h r
      → IsValid sbrk top ok laws (moved ptr m r).1 × Reallocated ptr size h (moved ptr m r)
  unfolding moved Outcome Reallocated IsValid handed_out starts release released
  moved_lem ptr size m h (none, h') less at (v, inl same, mem) =
      (v, inr (inl (refl, same.1, same.2)))
  moved_lem ptr size m h (none, h') less at (v, inr (p, got, new), mem) =
      absurd (ground (arith, got))
  moved_lem ptr size m h (some q, h') less at (v, inl same, mem) = absurd (ground (arith, same.0))
  moved_lem ptr size m h (some q, h') less at (v, inr (p, got, new), mem) =
      let h'' : Heap S = record h' { mem = copy_bytes q ptr m h'.mem } in
      let same : p ≡ q = ground (arith, got) in
      let new' : Inserted (regions h.blocks) q size (regions h'.blocks) =
        subst (λ x. Inserted (regions h.blocks) x size (regions h'.blocks)) same new in
      let f = free_lem sbrk top ok laws (some ptr) h'' v (
        Inserted-starts (regions h.blocks) (regions h'.blocks) q size ptr new'
          (at-starts ptr m _ at)) in
      (
        f.0,
        inr (
            inr (
              q,
              m,
              regions h'.blocks,
              refl,
              new',
              f.1,
              at,
              less,
              λ i k.
                  f.2 (q + i) (
                    Inserted-new (regions h.blocks) (regions h'.blocks) q size i new'
                      (omega (arith, less)))
                  ∙ copy_bytes_lem q ptr m i h'.mem k
                  ∙ mem (ptr + i) (
                      Inserted-holds (regions h.blocks) (regions h'.blocks) q size (ptr + i) new'
                        (at-holds ptr m i _ at k)),
              λ a k.
                  let k' = Inserted-holds (regions h.blocks) (regions h'.blocks) q size a new' k in
                  f.2 a k'
                  ∙ copy_bytes_out q ptr m a h'.mem (
                      Inserted-Apart (regions h.blocks) (regions h'.blocks) q size m (top h'.sys) a
                        new' (regions-Apart sbrk top ok laws h' v) (omega (arith, less)) k)
                  ∙ mem a k',
            )),
      )

  resized_lem :
      (ptr size : ℕ) (h : Heap S) (r : Resize)
      → 0 < size
      → size + 16 ≤ 2 ^ 62
      → size % 16 ≡ 0
      → IsValid sbrk top ok laws h
      → ResizeResult ptr size h.blocks 0 (top h.sys) r
      → IsValid sbrk top ok laws (resized sbrk ptr size r h).1
        × Reallocated ptr size h (resized sbrk ptr size r h)
  unfolding resized ResizeResult Reallocated IsValid
  resized_lem ptr size h unknown some_bytes small whole v k = elim k [ ]
  resized_lem ptr size h (in_place bs t) some_bytes small whole v (laid, ends, larger) = (
    (record { laid = laid; ends = inr ends }, v.1),
    inl (refl, larger, λ a k. written bs (top h.sys) h.mem a laid k),
  )
  resized_lem ptr size h (move m) some_bytes small whole v (less, at) =
      let exact : (size + 15) / 16 * 16 ≡ size = omega arith in
      moved_lem ptr size m h (malloc sbrk size h) less at (
        subst (λ n. Outcome sbrk top ok laws n h (malloc sbrk size h)) exact
          (malloc-Outcome sbrk top ok laws size h some_bytes small v))

  owned_ends :
      (ptr : ℕ) (bs : List Block) (tail : Option ℕ) (hi : ℕ)
      → owned ptr bs ≡ true
      → Chain bs tail hi
      → TailOf (bs, tail)
  unfolding owned
  owned_ends ptr [] tail hi o c = absurd (false≢true o)
  owned_ends ptr (b ∷ bs) tail hi o c = elim c.ends [
    | inl n ↦ absurd (ground (arith, n.0))
    | inr t ↦ t
  ]

  -- realloc of a pointer that is handed out, to a size from 1 to 2 ^ 62 - 32, keeps the heap valid.
  -- It returns the same pointer with room for the size and writes no byte of any region handed out
  -- then; or NULL with the regions and all of memory as they were; or another pointer to a new
  -- region, to which the bytes of the old one are copied, takes the old region back and writes no
  -- byte of any region handed out before.
  pub realloc_lem :
      (ptr size : ℕ) (h : Heap S)
      → 0 < size
      → size + 32 ≤ 2 ^ 62
      → owned ptr h.blocks ≡ true
      → IsValid sbrk top ok laws h
      → IsValid sbrk top ok laws (realloc sbrk (some ptr) size h).1
        × Reallocated ptr ((size + 15) / 16 * 16) h (realloc sbrk (some ptr) size h)
  unfolding realloc IsValid
  realloc_lem ptr size h some_bytes small o v =
      let n : ℕ = (size + 15) / 16 * 16 in
      let some_size : (size == 0) ≡ false = ground arith in
      let up : align_up size 16 ≡ n = align_up_sixteen size (omega arith) in
      rw some_size (
        rw up (
          resized_lem ptr n h (resize ptr n h.blocks h.tail) (omega arith) (omega arith)
            (omega arith) v
            (resize_lem ptr n h.blocks h.tail 0 (top h.sys) (omega arith) o v.0.laid
              (owned_ends ptr h.blocks h.tail (top h.sys) o v.0))))
