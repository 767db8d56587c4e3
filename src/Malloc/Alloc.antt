-- ===== src/Malloc/Alloc.antt =====
-- malloc and free keep the heap valid and hand out and take back exactly one region.
use furi_os.Prelude.{
  ℕ, ◌+◌, ◌*◌, ◌/◌, ◌^◌, ◌≤◌, ◌<◌, ◌≡◌, refl, ap, sym, ◌∙◌, subst, ◌⊎◌, ◌≢◌, inl, inr, Bool, true,
  false, false≢true, Option, none, some, List, [], ◌∷◌, ◌++◌, ◌==◌, if_cases, arith, add64,
  append-nil,
}
use furi_os.Malloc.{
  Block, Heap, header, payload, maybe_split_block, behind, coalesce_all, first_fit, mark_free,
  split_to, extend, malloc, free, List, Option, false, [], none, extended, linked, fitted,
}
use furi_os.Malloc.Layout.{
  Laid, TailOf, last, Laid-split_to, Laid-mark_free, Laid-coalesce_from, TailOf-coalesce_from,
  TailOf-split_to, TailOf-mark_free, Laid-replace, Laid-suffix, TailOf-append, TailOf-suffix,
  link_behind-append, last-append_one,
}
use furi_os.Malloc.Regions.{
  Region, regions, regions-append, regions-coalesce_from, regions-mark_free, Taken, first_fit-Taken,
  split_size, regions-split, regions_free,
}
use furi_os.Malloc.Memory.{holds, handed_out, released, written, Laid-apart, freed_byte}
use furi_os.Pmm.{align_up}
use furi_os.Pmm.Align.{align_up_sixteen}

-- the chain is laid out below `hi`, and the tail is its last block
pub record Chain (blocks : List Block) (tail : Option ℕ) (hi : ℕ) : Type 0 where
  pub laid : Laid 0 blocks hi
  pub ends : ((blocks ≡ []) × (tail ≡ none)) ⊎ TailOf (blocks, tail)

Laid-used :
    (size : ℕ) (b : Block) (tail : Option ℕ) (r : List Block) (lo hi : ℕ)
    → Laid lo (split_to size b r tail).0 hi
    → Laid lo
        (record (maybe_split_block size b tail).0 { free = false }
          ∷ behind (maybe_split_block size b tail).1 r)
        hi
unfolding Laid
Laid-used size b tail r lo hi l = l

TailOf-used :
    (b : Block) (r : List Block) (tail : Option ℕ)
    → TailOf (b ∷ r, tail)
    → TailOf (record b { free = false } ∷ r, tail)
unfolding TailOf last
TailOf-used b [] tail h = h
TailOf-used b (c ∷ r) tail h = h

not_nil : (l : List Block) (b : Block) (r : List Block) → l ++ (b ∷ r) ≢ []
not_nil [] b r e = false≢true (ap is_nil e)
  where
    is_nil : List Block → Bool
    is_nil [] = true
    is_nil (x ∷ xs) = false
not_nil (x ∷ l) b r e = ground arith

Chain-Taken :
    (size : ℕ) (bs : List Block) (tail : Option ℕ) (hi : ℕ) (res : ℕ × List Block × Option ℕ)
    → size < 2 ^ 63
    → Chain bs tail hi
    → Taken size bs tail res
    → Chain res.1 res.2 hi
unfolding Taken
Chain-Taken size bs tail hi res small c (l, b, r, at, f, fits, p, bs', tail') =
    let laid = subst (λ x. Laid 0 x hi) at c.laid in
    let ends : TailOf (b ∷ r, tail) = elim c.ends [
      | inl n ↦ absurd (not_nil l b r (sym at ∙ n.0))
      | inr t ↦ TailOf-suffix l b r tail (subst (λ x. TailOf (x, tail)) at t)
    ] in
    let here = Laid-suffix l (b ∷ r) 0 hi laid in
    let new = TailOf-split_to size b r tail here.0 hi here.1 ends in
    record {
      laid =
          subst (λ x. Laid 0 x hi) (sym bs')
            (Laid-replace l (b ∷ r) _ 0 hi hi
              (λ mid h. Laid-used size b tail r mid hi (Laid-split_to size b r tail mid hi small h))
              laid);
      ends = inr (
          subst (λ x. TailOf (res.1, x)) (sym tail')
            (subst (λ x. TailOf (x, (maybe_split_block size b tail).2)) (sym bs')
              (TailOf-append l (_, (maybe_split_block size b tail).2)
                (TailOf-used (maybe_split_block size b tail).0
                  (behind (maybe_split_block size b tail).1 r) (maybe_split_block size b tail).2
                  new))));
    }

-- a region is put in between the ones before and behind it
unfoldable pub Inserted : List Region → (ptr size : ℕ) → List Region → Type 0
Inserted old ptr size new =
    (l : List Region) × (r : List Region) × (n : ℕ) × (old ≡ l ++ r)
    × (new ≡ l ++ ((ptr, n) ∷ r))
    × (size ≤ n)

Inserted-Taken :
    (size : ℕ) (bs : List Block) (tail : Option ℕ) (res : ℕ × List Block × Option ℕ)
    → Taken size bs tail res
    → Inserted (regions bs) res.0 size (regions res.1)
unfolding Taken Inserted
Inserted-Taken size bs tail res (l, b, r, at, f, fits, p, bs', tail') = (
  regions l,
  regions r,
  (maybe_split_block size b tail).0.size,
  ap regions at ∙ regions-append l (b ∷ r) ∙ ap (λ x. regions l ++ x) (regions_free b r f),
  ap regions bs'
      ∙ regions-append l _
      ∙ ap (λ x. regions l ++ x) (regions-split size b tail r)
      ∙ ap (λ x. regions l ++ ((x, (maybe_split_block size b tail).0.size) ∷ regions r)) (sym p),
  split_size size b tail fits,
)

unfoldable pub Apart : (lo : ℕ) → List Region → (hi : ℕ) → Type 0
Apart lo [] hi = lo ≤ hi
Apart lo ((p, n) ∷ rs) hi = (lo ≤ p) × Apart (p + n) rs hi

Apart-lower : (lo lo' hi : ℕ) (rs : List Region) → lo' ≤ lo → Apart lo rs hi → Apart lo' rs hi
unfolding Apart
Apart-lower lo lo' hi [] h a = omega (arith, a)
Apart-lower lo lo' hi (r ∷ rs) h a = (omega (arith, a.0), a.1)

Apart-Laid : (bs : List Block) (lo hi : ℕ) → Laid lo bs hi → Apart lo (regions bs) hi
unfolding Laid regions Apart
Apart-Laid [] lo hi l = l
Apart-Laid (b ∷ bs) lo hi l =
    let rest = Apart-Laid bs (b.addr + header + b.size) hi l.1 in
    if_cases {A = List Region} (λ rs. Apart lo rs hi) b.free _ _
      (λ f. Apart-lower (b.addr + header + b.size) lo hi (regions bs) (omega (arith, l.0)) rest)
      (λ f. (omega (arith, l.0), rest))

-- What the allocator relies on of sbrk in the states `ok`, which it does not leave: `top` is the end
-- of the heap, which no call lowers, and the bytes that a call hands out lie between the old end and
-- the new one.
pub record SbrkLaws {S : Type 0} (sbrk : S → ℕ → Option ℕ × S) (top : S → ℕ) (ok : S → Type 0)
    : Type 0 where
  pub refused :
      (s : S) (n : ℕ)
      → ok s
      → n < 2 ^ 63
      → (sbrk s n).0 ≡ none
      → ok (sbrk s n).1 × (top s ≤ top (sbrk s n).1)
  pub grown :
      (s : S) (n a : ℕ)
      → ok s
      → n < 2 ^ 63
      → (sbrk s n).0 ≡ some a
      → ok (sbrk s n).1 × (top s ≤ a) × (a + n ≤ top (sbrk s n).1)

module _ {S : Type 0} (sbrk : S → ℕ → Option ℕ × S) (top : S → ℕ) (ok : S → Type 0)
    (laws : SbrkLaws sbrk top ok) where
  unfoldable pub IsValid : Heap S → Type 0
  IsValid h = Chain h.blocks h.tail (top h.sys) × ok h.sys

  linked_lem :
      (b : Block) (bs : List Block) (tail : Option ℕ) (hi : ℕ)
      → Chain bs tail hi
      → linked b bs tail ≡ bs ++ (b ∷ [])
  unfolding linked TailOf
  linked_lem b [] tail hi c = refl
  linked_lem b (x ∷ xs) tail hi c = elim c.ends [
    | inl n ↦ absurd (ground (arith, n.0))
    | inr t ↦ rw (t.1) (link_behind-append t.0 b (x ∷ xs) 0 hi c.laid t.2)
  ]

  last_block :
      (b : Block) (bs : List Block) (lo hi hi' : ℕ)
      → Laid lo bs hi
      → hi ≤ b.addr
      → b.addr + header + b.size ≤ hi'
      → Laid lo (bs ++ (b ∷ [])) hi'
  unfolding Laid
  last_block b [] lo hi hi' l p q = (omega (arith, l), q)
  last_block b (x ∷ xs) lo hi hi' l p q =
      (l.0, last_block b xs (x.addr + header + x.size) hi hi' l.1 p q)

  Chain-linked :
      (b : Block) (bs : List Block) (tail : Option ℕ) (hi hi' : ℕ)
      → Chain bs tail hi
      → hi ≤ b.addr
      → b.addr + header + b.size ≤ hi'
      → Chain (linked b bs tail) (some b.addr) hi'
  unfolding TailOf
  Chain-linked b bs tail hi hi' c p q =
      let e = linked_lem b bs tail hi c in
      record {
        laid = subst (λ x. Laid 0 x hi') (sym e) (last_block b bs 0 hi hi' c.laid p q);
        ends = inr (b.addr, refl, ap last e ∙ last-append_one bs b);
      }

  regions_used : (b : Block) → b.free ≡ false → regions (b ∷ []) ≡ (payload b, b.size) ∷ []
  unfolding regions
  regions_used b f = rw f refl

  Inserted-linked :
      (b : Block) (bs : List Block) (tail : Option ℕ) (hi : ℕ)
      → Chain bs tail hi
      → b.free ≡ false
      → Inserted (regions bs) (payload b) b.size (regions (linked b bs tail))
  unfolding Inserted
  Inserted-linked b bs tail hi c f = (
    regions bs,
    [],
    b.size,
    sym (append-nil (regions bs)),
    ap regions (linked_lem b bs tail hi c)
        ∙ regions-append bs (b ∷ [])
        ∙ ap (λ x. regions bs ++ x) (regions_used b f),
    omega arith,
  )

  weaken_top : (bs : List Block) (lo hi hi' : ℕ) → hi ≤ hi' → Laid lo bs hi → Laid lo bs hi'
  unfolding Laid
  weaken_top [] lo hi hi' p l = omega (arith, l)
  weaken_top (b ∷ bs) lo hi hi' p l = (l.0, weaken_top bs (b.addr + header + b.size) hi hi' p l.1)

  -- What a call does to a heap: nothing to the regions, or one more.
  unfoldable pub Outcome : (size : ℕ) → Heap S → Option ℕ × Heap S → Type 0
  Outcome size h r =
      IsValid r.1
      × (((r.0 ≡ none) × (regions r.1.blocks ≡ regions h.blocks) × (r.1.mem ≡ h.mem))
          ⊎ ((p : ℕ) × (r.0 ≡ some p) × Inserted (regions h.blocks) p size (regions r.1.blocks)))
      × ((a : ℕ) → holds (regions r.1.blocks) a ≡ true → r.1.mem a ≡ h.mem a)

  extended_lem :
      (size : ℕ) (h : Heap S) (got : Option ℕ) (sys' : S)
      → size < 2 ^ 62
      → IsValid h
      → (got ≡ none → ok sys' × (top h.sys ≤ top sys'))
      → ((a : ℕ) → got ≡ some a → ok sys' × (top h.sys ≤ a) × (a + add64 header size ≤ top sys'))
      → Outcome size h (extended size h got sys')
  unfolding extended Outcome IsValid
  extended_lem size h none sys' small v up grown =
      let u = up refl in
      (
        (
          record {
            laid = weaken_top h.blocks 0 (top h.sys) (top sys') u.1 v.0.laid;
            ends = v.0.ends;
          },
          u.0,
        ),
        inl (refl, refl, refl),
        λ i k. refl,
      )
  extended_lem size h (some a) sys' small v up grown =
      let b : Block = record { addr = a; size = size; free = false } in
      let g = grown a refl in
      let exact : add64 header size ≡ header + size = omega arith in
      let chain =
        Chain-linked b h.blocks h.tail (top h.sys) (top sys') v.0 g.1 (omega (arith, g.2, exact)) in
      (
        (chain, g.0),
        inr (a + header, refl, Inserted-linked b h.blocks h.tail (top h.sys) v.0 refl),
        λ i k. written (linked b h.blocks h.tail) (top sys') h.mem i chain.laid k,
      )

  extend_lem :
      (size : ℕ) (h : Heap S) → size < 2 ^ 62 → IsValid h → Outcome size h (extend sbrk size h)
  unfolding extend IsValid
  extend_lem size h small v =
      let n : ℕ = add64 header size in
      extended_lem size h (sbrk h.sys n).0 (sbrk h.sys n).1 small v
        (λ q. laws.refused h.sys n v.1 (omega arith) q)
        (λ a q. laws.grown h.sys n a v.1 (omega arith) q)

  fitted_lem :
      (size : ℕ) (h : Heap S) (r : Option (ℕ × List Block × Option ℕ))
      → size < 2 ^ 62
      → IsValid h
      → first_fit size h.blocks h.tail ≡ r
      → Outcome size h (fitted sbrk size r h)
  unfolding fitted Outcome IsValid
  fitted_lem size h none small v e = extend_lem size h small v
  fitted_lem size h (some r) small v e =
      let t = first_fit-Taken size h.blocks h.tail r e in
      let chain = Chain-Taken size h.blocks h.tail (top h.sys) r (omega arith) v.0 t in
      (
        (chain, v.1),
        inr (r.0, refl, Inserted-Taken size h.blocks h.tail r t),
        λ i k. written r.1 (top h.sys) h.mem i chain.laid k,
      )

  pub malloc-Outcome :
      (size : ℕ) (h : Heap S)
      → 0 < size
      → size + 16 ≤ 2 ^ 62
      → IsValid h
      → Outcome ((size + 15) / 16 * 16) h (malloc sbrk size h)
  unfolding malloc
  malloc-Outcome size h some_bytes small v =
      let some_size : (size == 0) ≡ false = ground arith in
      let up : align_up size 16 ≡ (size + 15) / 16 * 16 = align_up_sixteen size (omega arith) in
      rw some_size (rw up (fitted_lem ((size + 15) / 16 * 16) h _ (omega arith) v refl))

  -- malloc of a size from 1 to 2 ^ 62 - 16 on a valid heap keeps it valid and writes no byte of any
  -- region handed out. It returns NULL and the regions and all of memory are the same, or it returns
  -- a pointer to one new region, of the size rounded up to a multiple of 16 or more, and all others
  -- are as they were.
  pub malloc_lem :
      (size : ℕ) (h : Heap S)
      → 0 < size
      → size + 16 ≤ 2 ^ 62
      → IsValid h
      → let (got, h') = malloc sbrk size h in
        IsValid h'
        × (((got ≡ none) × (regions h'.blocks ≡ regions h.blocks) × (h'.mem ≡ h.mem))
            ⊎ ((p : ℕ) × (got ≡ some p)
                × Inserted (regions h.blocks) p ((size + 15) / 16 * 16) (regions h'.blocks)))
        × ((a : ℕ) → holds (regions h'.blocks) a ≡ true → h'.mem a ≡ h.mem a)
  unfolding Outcome
  malloc_lem size h some_bytes small v = malloc-Outcome size h some_bytes small v

  -- The regions of a valid heap do not overlap and lie below its end: each starts at or behind the
  -- end of the one before.
  pub regions-Apart : (h : Heap S) → IsValid h → Apart 0 (regions h.blocks) (top h.sys)
  unfolding IsValid
  regions-Apart h v = Apart-Laid h.blocks 0 (top h.sys) v.0.laid

  coalesce_all_lem :
      (bs : List Block) (tail : Option ℕ) (hi : ℕ)
      → Chain bs tail hi
      → Chain (coalesce_all bs tail).0 (coalesce_all bs tail).1 hi
        × (regions (coalesce_all bs tail).0 ≡ regions bs)
  unfolding coalesce_all
  coalesce_all_lem [] tail hi c = (c, refl)
  coalesce_all_lem (b ∷ bs) tail hi c =
      let ends : TailOf (b ∷ bs, tail) = elim c.ends [
        | inl n ↦ absurd (ground (arith, n.0))
        | inr t ↦ t
      ] in
      (
        record {
          laid = Laid-coalesce_from b bs tail 0 hi c.laid;
          ends = inr (TailOf-coalesce_from b bs tail 0 hi c.laid ends);
        },
        regions-coalesce_from b bs tail,
      )

  Chain-mark_free :
      (ptr : ℕ) (bs : List Block) (tail : Option ℕ) (hi : ℕ)
      → Chain bs tail hi
      → Chain (mark_free ptr bs) tail hi
  unfolding mark_free
  Chain-mark_free ptr [] tail hi c = c
  Chain-mark_free ptr (b ∷ bs) tail hi c =
      let ends : TailOf (b ∷ bs, tail) = elim c.ends [
        | inl n ↦ absurd (ground (arith, n.0))
        | inr t ↦ t
      ] in
      record {
        laid = Laid-mark_free ptr 0 hi (b ∷ bs) c.laid;
        ends = inr (TailOf-mark_free ptr (b ∷ bs) tail ends);
      }

  -- free of NULL, or of a pointer to a region that is handed out, on a valid heap keeps it valid, takes
  -- back that region and no other, none for NULL, and writes no byte of any region that was handed
  -- out.
  pub free_lem :
      (ptr : Option ℕ) (h : Heap S)
      → IsValid h
      → handed_out (regions h.blocks) ptr ≡ true
      → let h' = free ptr h in
        IsValid h'
        × (regions h'.blocks ≡ released ptr (regions h.blocks))
        × ((a : ℕ) → holds (regions h.blocks) a ≡ true → h'.mem a ≡ h.mem a)
  unfolding free IsValid handed_out released
  free_lem none h v o = (v, refl, λ a k. refl)
  free_lem (some ptr) h v o =
      let c =
        coalesce_all_lem (mark_free ptr h.blocks) h.tail (top h.sys)
          (Chain-mark_free ptr h.blocks h.tail (top h.sys) v.0) in
      (
        (c.0, v.1),
        c.1 ∙ regions-mark_free ptr h.blocks 0 (top h.sys) v.0.laid,
        λ a k.
            freed_byte ptr h.blocks h.tail h.mem a o
              (Laid-apart h.blocks 0 (top h.sys) a v.0.laid k),
      )
