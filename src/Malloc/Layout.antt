-- ===== src/Malloc/Layout.antt =====
-- The chain of blocks stays laid out in memory: in order of address, without overlap, between two
-- bounds, and `heap_tail` is its last block.
use furi_os.Prelude.{
  ℕ, ◌+◌, ◌≤◌, ◌<◌, ◌≡◌, refl, ap, ◌∙◌, subst, false, ◌&&◌, Option, none, some, List, [], ◌∷◌, ltb,
  ◌==◌, if◌then◌else◌, if_cases, arith, Bool-cases, inl, inr, add64, ◌^◌, ◌++◌,
}
use furi_os.Malloc.{
  Block, header, payload, maybe_split_block, coalesce_from, mark_free, link_behind, split_to,
}

-- the blocks lie one behind the other in [lo, hi)
unfoldable pub Laid : (lo : ℕ) → List Block → (hi : ℕ) → Type 0
Laid lo [] hi = lo ≤ hi
Laid lo (b ∷ bs) hi = (lo ≤ b.addr) × Laid (b.addr + header + b.size) bs hi

-- the header of the last block
unfoldable pub last : List Block → Option ℕ
last [] = none
last (b ∷ []) = some b.addr
last (b ∷ c ∷ bs) = last (c ∷ bs)

Laid-weaken :
    (lo lo' hi hi' : ℕ) (bs : List Block) → lo' ≤ lo → hi ≤ hi' → Laid lo bs hi → Laid lo' bs hi'
unfolding Laid
Laid-weaken lo lo' hi hi' [] p q l = omega (arith, l)
Laid-weaken lo lo' hi hi' (b ∷ bs) p q l = (
  omega (arith, l.0),
  Laid-weaken (b.addr + header + b.size) (b.addr + header + b.size) hi hi' bs (omega arith) q l.1,
)

Laid-le : (lo hi : ℕ) (bs : List Block) → Laid lo bs hi → lo ≤ hi
unfolding Laid
Laid-le lo hi [] l = l
Laid-le lo hi (b ∷ bs) l = omega (arith, l.0, Laid-le (b.addr + header + b.size) hi bs l.1)

pub Laid-split_to :
    (need : ℕ) (b : Block) (bs : List Block) (tail : Option ℕ) (lo hi : ℕ)
    → need < 2 ^ 63
    → Laid lo (b ∷ bs) hi
    → Laid lo (split_to need b bs tail).0 hi
unfolding Laid maybe_split_block
Laid-split_to need b bs tail lo hi small l = ground (arith, l)

-- Marking does not move a block.
pub Laid-mark_free :
    (ptr lo hi : ℕ) (bs : List Block) → Laid lo bs hi → Laid lo (mark_free ptr bs) hi
unfolding Laid mark_free
Laid-mark_free ptr lo hi [] l = l
Laid-mark_free ptr lo hi (b ∷ bs) l =
    ground (arith, l, Laid-mark_free ptr (b.addr + header + b.size) hi bs)

-- the tail after a merge of `n` into the block before it
abbrev pub tail_after : (n b : ℕ) → Option ℕ → Option ℕ
tail_after n b tail = elim tail [ none ↦ none | some t ↦ if t == n then some b else some t ]

abbrev pub joined : Block → Block → Block
joined b n = record b { size = b.size + header + n.size }

pub Laid-joined :
    (b n : Block) (bs : List Block) (lo hi : ℕ)
    → payload b + b.size ≡ n.addr
    → Laid lo (b ∷ n ∷ bs) hi
    → Laid lo (joined b n ∷ bs) hi
unfolding Laid
Laid-joined b n bs lo hi e l =
    let same : n.addr + header + n.size ≡ b.addr + header + (b.size + header + n.size) =
      omega (arith, e) in
    (l.0, subst (λ k. Laid k bs hi) same l.1.1)

pub Laid-coalesce_from :
    (b : Block) (bs : List Block) (tail : Option ℕ) (lo hi : ℕ)
    → Laid lo (b ∷ bs) hi
    → Laid lo (coalesce_from b bs tail).0 hi
unfolding Laid coalesce_from
Laid-coalesce_from b [] tail lo hi l = l
Laid-coalesce_from b (n ∷ bs) tail lo hi l =
    if_cases {A = List Block × Option ℕ} (λ r. Laid lo r.0 hi)
      (b.free && n.free && payload b + b.size == n.addr) _ _
      (λ e.
        Laid-coalesce_from (joined b n) bs (tail_after n.addr b.addr tail) lo hi
          (Laid-joined b n bs lo hi (ground arith) l))
      (λ e. (l.0, Laid-coalesce_from n bs tail (b.addr + header + b.size) hi l.1))

-- `heap_tail` is the last block of the chain.
unfoldable pub TailOf : List Block × Option ℕ → Type 0
TailOf r = (t : ℕ) × (r.1 ≡ some t) × (last r.0 ≡ some t)

last-cons : (b : Block) (bs : List Block) (t : ℕ) → last bs ≡ some t → last (b ∷ bs) ≡ some t
unfolding last
last-cons b [] t e = absurd (ground arith)
last-cons b (c ∷ bs) t e = e

last-above : (lo hi : ℕ) (bs : List Block) (t : ℕ) → Laid lo bs hi → last bs ≡ some t → lo ≤ t
unfolding Laid last
last-above lo hi [] t l e = absurd (ground arith)
last-above lo hi (b ∷ []) t l e = ground (arith, l.0)
last-above lo hi (b ∷ c ∷ bs) t l e =
    omega (arith, l.0, last-above (b.addr + header + b.size) hi (c ∷ bs) t l.1 e)

-- A block before the last one is not the tail.
tail-not-first :
    (lo hi : ℕ) (b c : Block) (bs : List Block) (t : ℕ)
    → Laid lo (b ∷ c ∷ bs) hi
    → last (c ∷ bs) ≡ some t
    → (t == b.addr) ≡ false
unfolding Laid
tail-not-first lo hi b c bs t l e =
    let above : b.addr + header + b.size ≤ t =
      last-above (b.addr + header + b.size) hi (c ∷ bs) t l.1 e in
    ground arith

pub TailOf-joined :
    (b n : Block) (bs : List Block) (tail : Option ℕ) (lo hi : ℕ)
    → Laid lo (n ∷ bs) hi
    → TailOf (b ∷ n ∷ bs, tail)
    → TailOf (joined b n ∷ bs, tail_after n.addr b.addr tail)
unfolding TailOf last
TailOf-joined b n [] tail lo hi l (t, e, q) = (b.addr, ground (arith, e, q), refl)
TailOf-joined b n (c ∷ bs) tail lo hi l (t, e, q) =
    let other = tail-not-first lo hi n c bs t l q in (t, rw e (rw other refl), q)

pub TailOf-cons : (b : Block) (r : List Block × Option ℕ) → TailOf r → TailOf (b ∷ r.0, r.1)
unfolding TailOf
TailOf-cons b r (t, e, q) = (t, e, last-cons b r.0 t q)

last-mark_free : (ptr : ℕ) (bs : List Block) → last (mark_free ptr bs) ≡ last bs
unfolding last mark_free
last-mark_free ptr [] = refl
last-mark_free ptr (b ∷ []) = ground arith
last-mark_free ptr (b ∷ c ∷ bs) = ground (arith, last-mark_free ptr (c ∷ bs))

pub TailOf-rest :
    (b n : Block) (bs : List Block) (tail : Option ℕ)
    → TailOf (b ∷ n ∷ bs, tail)
    → TailOf (n ∷ bs, tail)
unfolding TailOf last
TailOf-rest b n bs tail h = h

pub Laid-rest :
    (b : Block) (bs : List Block) (lo hi : ℕ)
    → Laid lo (b ∷ bs) hi
    → Laid (b.addr + header + b.size) bs hi
unfolding Laid
Laid-rest b bs lo hi l = l.1

pub TailOf-coalesce_from :
    (b : Block) (bs : List Block) (tail : Option ℕ) (lo hi : ℕ)
    → Laid lo (b ∷ bs) hi
    → TailOf (b ∷ bs, tail)
    → TailOf (coalesce_from b bs tail)
unfolding coalesce_from
TailOf-coalesce_from b [] tail lo hi l h = h
TailOf-coalesce_from b (n ∷ bs) tail lo hi l h =
    let l' = Laid-rest b (n ∷ bs) lo hi l in
    let p = b.addr + header + b.size in
    if_cases {A = List Block × Option ℕ} TailOf (b.free && n.free && payload b + b.size == n.addr) _
      _
      (λ e.
        TailOf-coalesce_from (joined b n) bs (tail_after n.addr b.addr tail) lo hi
          (Laid-joined b n bs lo hi (ground arith) l) (TailOf-joined b n bs tail p hi l' h))
      (λ e.
        TailOf-cons b (coalesce_from n bs tail)
          (TailOf-coalesce_from n bs tail p hi l' (TailOf-rest b n bs tail h)))

pub TailOf-mark_free :
    (ptr : ℕ) (bs : List Block) (tail : Option ℕ)
    → TailOf (bs, tail)
    → TailOf (mark_free ptr bs, tail)
unfolding TailOf
TailOf-mark_free ptr bs tail (t, e, q) = (t, e, last-mark_free ptr bs ∙ q)

pub TailOf-split_to :
    (need : ℕ) (b : Block) (bs : List Block) (tail : Option ℕ) (lo hi : ℕ)
    → Laid lo (b ∷ bs) hi
    → TailOf (b ∷ bs, tail)
    → TailOf (split_to need b bs tail)
unfolding maybe_split_block TailOf last
TailOf-split_to need b [] tail lo hi l (t, e, q) =
    elim (Bool-cases (ltb b.size (add64 need (header + 16)))) [
      | inl small ↦ rw small (t, e, q)
      | inr big ↦ rw big (b.addr + header + need, ground (arith, e, q), refl)
    ]
TailOf-split_to need b (c ∷ bs) tail lo hi l (t, e, q) =
    let other = tail-not-first lo hi b c bs t l q in
    elim (Bool-cases (ltb b.size (add64 need (header + 16)))) [
      | inl small ↦ rw small (t, e, q)
      | inr big ↦ rw big (t, rw e (rw other refl), q)
    ]

-- What holds of the chain from a block on, whatever stands before it.
pub Laid-replace :
    (l bs bs' : List Block) (lo hi hi' : ℕ)
    → ((mid : ℕ) → Laid mid bs hi → Laid mid bs' hi')
    → Laid lo (l ++ bs) hi
    → Laid lo (l ++ bs') hi'
unfolding Laid
Laid-replace [] bs bs' lo hi hi' f h = f lo h
Laid-replace (b ∷ l) bs bs' lo hi hi' f h =
    (h.0, Laid-replace l bs bs' (b.addr + header + b.size) hi hi' f h.1)

pub Laid-suffix :
    (l bs : List Block) (lo hi : ℕ) → Laid lo (l ++ bs) hi → (mid : ℕ) × Laid mid bs hi
unfolding Laid
Laid-suffix [] bs lo hi h = (lo, h)
Laid-suffix (b ∷ l) bs lo hi h = Laid-suffix l bs (b.addr + header + b.size) hi h.1

pub TailOf-append : (l : List Block) (r : List Block × Option ℕ) → TailOf r → TailOf (l ++ r.0, r.1)
TailOf-append [] r h = h
TailOf-append (b ∷ l) r h = TailOf-cons b (l ++ r.0, r.1) (TailOf-append l r h)

pub TailOf-suffix :
    (l : List Block) (b : Block) (bs : List Block) (tail : Option ℕ)
    → TailOf (l ++ (b ∷ bs), tail)
    → TailOf (b ∷ bs, tail)
TailOf-suffix [] b bs tail h = h
TailOf-suffix (x ∷ []) b bs tail h = TailOf-rest x b bs tail h
TailOf-suffix (x ∷ y ∷ l) b bs tail h =
    TailOf-suffix (y ∷ l) b bs tail (TailOf-rest x y (l ++ (b ∷ bs)) tail h)

-- A block linked behind the tail is the last of the chain.
pub link_behind-append :
    (t : ℕ) (b : Block) (bs : List Block) (lo hi : ℕ)
    → Laid lo bs hi
    → last bs ≡ some t
    → link_behind t b bs ≡ bs ++ (b ∷ [])
unfolding link_behind last
link_behind-append t b [] lo hi l e = absurd (ground arith)
link_behind-append t b (x ∷ []) lo hi l e = ground arith
link_behind-append t b (x ∷ y ∷ bs) lo hi l e =
    let other = tail-not-first lo hi x y bs t l e in
    let other' : (x.addr == t) ≡ false = ground (arith, other) in
    rw other' (
      ap (λ r. x ∷ r)
        (link_behind-append t b (y ∷ bs) (x.addr + header + x.size) hi
          (Laid-rest x (y ∷ bs) lo hi l) e))

pub last-append_one : (bs : List Block) (b : Block) → last (bs ++ (b ∷ [])) ≡ some b.addr
unfolding last
last-append_one [] b = refl
last-append_one (x ∷ []) b = refl
last-append_one (x ∷ y ∷ bs) b = last-append_one (y ∷ bs) b
