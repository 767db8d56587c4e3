-- ===== src/Malloc/Regions.antt =====
-- The allocator as its callers see it: the regions handed out, in order of address.
use furi_os.Prelude.{
  ℕ, ◌+◌, ◌≤◌, ◌<◌, ◌≡◌, refl, ap, inl, inr, true, false, ◌&&◌, Option, some, List, [], ◌∷◌, ◌++◌,
  leb, ◌==◌, if◌then◌else◌, arith, Bool-cases, Option-cases,
}
use furi_os.Malloc.{
  Block, header, payload, maybe_split_block, behind, coalesce_from, first_fit, mark_free,
}
use furi_os.Malloc.Layout.{Laid, joined, tail_after}

abbrev pub Region : Type 0
Region = ℕ × ℕ

-- the pointers handed out, each with the size of its block
unfoldable pub regions : List Block → List Region
regions [] = []
regions (b ∷ bs) = let rest = regions bs in if b.free then rest else (payload b, b.size) ∷ rest

unfoldable pub release : (ptr : ℕ) → List Region → List Region
release ptr [] = []
release ptr (r ∷ rs) = let rest = release ptr rs in if r.0 == ptr then rs else r ∷ rest

pub regions-append : (l bs : List Block) → regions (l ++ bs) ≡ regions l ++ regions bs
unfolding regions
regions-append [] bs = refl
regions-append (b ∷ l) bs = ground (arith, regions-append l bs)

pub regions-coalesce_from :
    (b : Block) (bs : List Block) (tail : Option ℕ)
    → regions (coalesce_from b bs tail).0 ≡ regions (b ∷ bs)
unfolding regions coalesce_from
regions-coalesce_from b [] tail = refl
regions-coalesce_from b (n ∷ bs) tail = ground (
  arith,
  regions-coalesce_from (joined b n) bs (tail_after n.addr b.addr tail),
  regions-coalesce_from n bs tail,
)

-- No region of a chain above the pointer is the pointer's.
release_absent :
    (ptr : ℕ) (bs : List Block) (lo hi : ℕ)
    → Laid lo bs hi
    → ptr < lo + header
    → release ptr (regions bs) ≡ regions bs
unfolding release regions Laid
release_absent ptr [] lo hi l h = refl
release_absent ptr (b ∷ bs) lo hi l h =
    ground
      (arith, l.0, release_absent ptr bs (b.addr + header + b.size) hi l.1 (omega (arith, l.0)))

pub regions-mark_free :
    (ptr : ℕ) (bs : List Block) (lo hi : ℕ)
    → Laid lo bs hi
    → regions (mark_free ptr bs) ≡ release ptr (regions bs)
unfolding regions mark_free release Laid
regions-mark_free ptr [] lo hi l = refl
regions-mark_free ptr (b ∷ bs) lo hi l = ground (
  arith,
  regions-mark_free ptr bs (b.addr + header + b.size) hi l.1,
  release_absent ptr bs (b.addr + header + b.size) hi l.1,
)

-- What first_fit finds: a free block that is large enough, which is split and marked.
unfoldable pub Taken : (size : ℕ) → List Block → Option ℕ → ℕ × List Block × Option ℕ → Type 0
Taken size bs tail (p, bs', tail') =
    (l : List Block) × (b : Block) × (r : List Block) × (bs ≡ l ++ (b ∷ r))
    × (b.free ≡ true)
    × (size ≤ b.size)
    × (p ≡ payload b)
    × (bs'
        ≡ l
          ++ (record (maybe_split_block size b tail).0 { free = false }
              ∷ behind (maybe_split_block size b tail).1 r))
    × (tail' ≡ (maybe_split_block size b tail).2)

pub first_fit-Taken :
    (size : ℕ) (bs : List Block) (tail : Option ℕ) (r : ℕ × List Block × Option ℕ)
    → first_fit size bs tail ≡ some r
    → Taken size bs tail r
unfolding first_fit Taken
first_fit-Taken size [] tail r e = absurd (ground arith)
first_fit-Taken size (b ∷ bs) tail (p, bs', tail') e =
    elim (Bool-cases (b.free && leb size b.size)) [
      | inl fits ↦
          ([], b, bs, refl, ground arith, ground arith, ground arith, ground arith, ground arith)
      | inr not_here ↦ elim (Option-cases (first_fit size bs tail)) [
        | inl q ↦ absurd (ground (arith, q))
        | inr found ↦
            let t = first_fit-Taken size bs tail found.0 found.1 in
            (
              b ∷ t.0,
              t.1,
              t.2,
              ap (λ x. b ∷ x) t.3,
              t.4,
              t.5,
              ground (arith, found.1, t.6),
              ground (arith, found.1, t.7),
              ground (arith, found.1, t.8),
            )
      ]
    ]

-- The kept part of a split block is large enough, and the rest is no region.
pub split_size :
    (size : ℕ) (b : Block) (tail : Option ℕ)
    → size ≤ b.size
    → size ≤ (maybe_split_block size b tail).0.size
unfolding maybe_split_block
split_size size b tail h = ground arith

pub regions-split :
    (size : ℕ) (b : Block) (tail : Option ℕ) (r : List Block)
    → regions (
        record (maybe_split_block size b tail).0 { free = false }
        ∷ behind (maybe_split_block size b tail).1 r)
      ≡ (payload b, (maybe_split_block size b tail).0.size) ∷ regions r
unfolding maybe_split_block regions
regions-split size b tail r = ground arith

pub regions_free : (b : Block) (r : List Block) → b.free ≡ true → regions (b ∷ r) ≡ regions r
unfolding regions
regions_free b r f = rw f refl
