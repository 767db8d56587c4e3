-- ===== src/Pmm/Align.antt =====
-- What the masks of pmm.c compute.
use furi_os.Prelude.{
  add64, sub64, not64, ℕ, ◌+◌, ◌-◌, ◌*◌, ◌/◌, ◌^◌, ◌≤◌, ◌<◌, ◌≡◌, ◌≢◌, ap, ◌⊎◌, none, some, arith,
}
use furi_os.Prelude.Bits.{
  pow2, pow2-pos, shifted, shifted-add-pow2, clear_low, high, bit_and-page, bit_and-page_mask,
  bit_and-mask16,
}
use furi_os.Pmm.{page_size, phys_ram_base, page_count, align_up, align_down, page_index}

pub align_up-page : (x : ℕ) → x + 4096 ≤ 2 ^ 64 → align_up x page_size ≡ (x + 4095) / 4096 * 4096
unfolding align_up
align_up-page x h = omega (arith, bit_and-page_mask (sub64 (add64 x 4096) 1) (omega arith))

pub align_up_sixteen : (x : ℕ) → x + 16 ≤ 2 ^ 64 → align_up x 16 ≡ (x + 15) / 16 * 16
unfolding align_up
align_up_sixteen x h = omega (arith, bit_and-mask16 (sub64 (add64 x 16) 1) (omega arith))

pub align_down-page : (x : ℕ) → x < 2 ^ 64 → align_down x page_size ≡ x / 4096 * 4096
unfolding align_down
align_down-page x h = omega (arith, bit_and-page_mask x h)

-- The address of page `i` of RAM.
abbrev pub page_at : ℕ → ℕ
page_at i = phys_ram_base + i * page_size

pub page_index-page_at : (i : ℕ) → i < page_count → page_index (page_at i) ≡ some i
unfolding page_index
page_index-page_at i h = ground (arith, bit_and-page (page_at i))

pub page_index_cases :
    (p : ℕ)
    → (page_index p ≡ none)
      ⊎ ((i : ℕ) × (i < page_count) × (p ≡ page_at i) × (page_index p ≡ some i))
unfolding page_index
page_index_cases p = ground (arith, bit_and-page p)

-- Rounding up to any power of two, away from the end of the address space.
pub align_up-pow2 :
    (k n x : ℕ)
    → k + n ≡ 64
    → pow2 k + x ≤ 2 ^ 64
    → x ≢ 0
    → (x ≤ align_up x (pow2 k))
      × (align_up x (pow2 k) < x + pow2 k)
      × ((m : ℕ) × (align_up x (pow2 k) ≡ m * pow2 k))
unfolding align_up
align_up-pow2 k n x e h nz =
    let p : ℕ = pow2 k in
    let word : pow2 (k + n) ≡ 2 ^ 64 = ap pow2 e in
    let pos : 0 < p = pow2-pos k in
    let mask : not64 (sub64 p 1) ≡ shifted k n = omega (arith, shifted-add-pow2 k n) in
    let sum : sub64 (add64 x p) 1 ≡ x + p - 1 = omega arith in
    let (eq, below, near) = clear_low k n (x + p - 1) (omega arith) in
    rw (mask, sum) (omega arith, omega arith, (high k (x + p - 1), eq))
