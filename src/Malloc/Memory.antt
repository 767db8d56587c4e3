-- ===== src/Malloc/Memory.antt =====
-- Which bytes of memory the allocator writes: those of headers, which no region handed out has.
use furi_os.Prelude.{
  ℕ, ◌+◌, ◌<◌, ◌≡◌, refl, true, false, Bool, ◌&&◌, ◌||◌, Option, none, some, List, [], ◌∷◌, ◌++◌,
  ltb, leb, ◌==◌, arith, ◌∙◌,
}
use furi_os.Malloc.{Block, header, coalesce_from, coalesce_all, mark_free, write_headers, set_flag}
use furi_os.Malloc.Layout.{Laid, joined, tail_after}
use furi_os.Malloc.Regions.{Region, regions, release}

-- byte `a` lies in a region
unfoldable pub holds : List Region → (a : ℕ) → Bool
holds [] a = false
holds (r ∷ rs) a = (leb r.0 a && ltb a (r.0 + r.1)) || holds rs a

-- byte `a` lies in a header
unfoldable pub in_header : List Block → (a : ℕ) → Bool
in_header [] a = false
in_header (b ∷ bs) a = (leb b.addr a && ltb a (b.addr + header)) || in_header bs a

-- a region starts at the pointer; NULL counts
unfoldable pub starts : List Region → (ptr : ℕ) → Bool
starts [] ptr = false
starts (r ∷ rs) ptr = r.0 == ptr || starts rs ptr

unfoldable pub handed_out : List Region → Option ℕ → Bool
handed_out rs none = true
handed_out rs (some ptr) = starts rs ptr

-- the regions without the pointer's
unfoldable pub released : Option ℕ → List Region → List Region
released none rs = rs
released (some ptr) rs = release ptr rs

pub holds-append : (l r : List Region) (a : ℕ) → holds (l ++ r) a ≡ (holds l a || holds r a)
unfolding holds
holds-append [] r a = refl
holds-append (x ∷ l) r a = ground (arith, holds-append l r a)

pub starts-append : (l r : List Region) (p : ℕ) → starts (l ++ r) p ≡ (starts l p || starts r p)
unfolding starts
starts-append [] r p = refl
starts-append (x ∷ l) r p = ground (arith, starts-append l r p)

holds_above :
    (bs : List Block) (lo hi a : ℕ) → Laid lo bs hi → a < lo → holds (regions bs) a ≡ false
unfolding holds regions Laid
holds_above [] lo hi a l h = refl
holds_above (b ∷ bs) lo hi a l h =
    ground (arith, l.0, holds_above bs (b.addr + header + b.size) hi a l.1 (omega (arith, l.0)))

header_above : (bs : List Block) (lo hi a : ℕ) → Laid lo bs hi → a < lo → in_header bs a ≡ false
unfolding in_header Laid
header_above [] lo hi a l h = refl
header_above (b ∷ bs) lo hi a l h =
    ground (arith, l.0, header_above bs (b.addr + header + b.size) hi a l.1 (omega (arith, l.0)))

-- No region handed out meets a header.
pub Laid-apart :
    (bs : List Block) (lo hi a : ℕ)
    → Laid lo bs hi
    → holds (regions bs) a ≡ true
    → in_header bs a ≡ false
unfolding holds regions in_header Laid
Laid-apart [] lo hi a l h = refl
Laid-apart (b ∷ bs) lo hi a l h = ground (
  arith,
  l.0,
  holds_above bs (b.addr + header + b.size) hi a l.1,
  header_above bs (b.addr + header + b.size) hi a l.1,
  Laid-apart bs (b.addr + header + b.size) hi a l.1,
)

pub write_headers_lem :
    (bs : List Block) (mem : ℕ → ℕ) (a : ℕ)
    → in_header bs a ≡ false
    → write_headers bs mem a ≡ mem a
unfolding write_headers in_header
write_headers_lem [] mem a h = refl
write_headers_lem (b ∷ bs) mem a h = ground (arith, write_headers_lem bs mem a)

pub written :
    (bs : List Block) (hi : ℕ) (mem : ℕ → ℕ) (a : ℕ)
    → Laid 0 bs hi
    → holds (regions bs) a ≡ true
    → write_headers bs mem a ≡ mem a
written bs hi mem a l h = write_headers_lem bs mem a (Laid-apart bs 0 hi a l h)

in_header-mark_free :
    (ptr : ℕ) (bs : List Block) (a : ℕ) → in_header (mark_free ptr bs) a ≡ in_header bs a
unfolding in_header mark_free
in_header-mark_free ptr [] a = refl
in_header-mark_free ptr (b ∷ bs) a = ground (arith, in_header-mark_free ptr bs a)

in_header-coalesce_from :
    (b : Block) (bs : List Block) (tail : Option ℕ) (a : ℕ)
    → in_header (b ∷ bs) a ≡ false
    → in_header (coalesce_from b bs tail).0 a ≡ false
unfolding in_header coalesce_from
in_header-coalesce_from b [] tail a h = h
in_header-coalesce_from b (n ∷ bs) tail a h = ground (
  arith,
  in_header-coalesce_from (joined b n) bs (tail_after n.addr b.addr tail) a,
  in_header-coalesce_from n bs tail a,
)

in_header-coalesce_all :
    (bs : List Block) (tail : Option ℕ) (a : ℕ)
    → in_header bs a ≡ false
    → in_header (coalesce_all bs tail).0 a ≡ false
unfolding coalesce_all
in_header-coalesce_all [] tail a h = h
in_header-coalesce_all (b ∷ bs) tail a h = in_header-coalesce_from b bs tail a h

-- The flag behind a pointer that is handed out lies in a header.
set_flag_lem :
    (ptr : ℕ) (bs : List Block) (mem : ℕ → ℕ) (a : ℕ)
    → starts (regions bs) ptr ≡ true
    → in_header bs a ≡ false
    → set_flag ptr mem a ≡ mem a
unfolding set_flag starts regions in_header
set_flag_lem ptr [] mem a s h = absurd (ground arith)
set_flag_lem ptr (b ∷ bs) mem a s h = ground (arith, set_flag_lem ptr bs mem a)

-- A free of a pointer that is handed out writes nothing outside headers.
pub freed_byte :
    (ptr : ℕ) (bs : List Block) (tail : Option ℕ) (mem : ℕ → ℕ) (a : ℕ)
    → starts (regions bs) ptr ≡ true
    → in_header bs a ≡ false
    → let marked = mark_free ptr bs in
      write_headers (coalesce_all marked tail).0 (write_headers marked (set_flag ptr mem)) a ≡ mem a
freed_byte ptr bs tail mem a s h =
    let marked = mark_free ptr bs in
    let h' : in_header marked a ≡ false = in_header-mark_free ptr bs a ∙ h in
    write_headers_lem (coalesce_all marked tail).0 _ a (in_header-coalesce_all marked tail a h')
    ∙ write_headers_lem marked (set_flag ptr mem) a h'
    ∙ set_flag_lem ptr bs mem a s h
