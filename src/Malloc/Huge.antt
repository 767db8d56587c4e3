-- ===== src/Malloc/Huge.antt =====
-- The sizes at the end of the range of size_t, and the product of calloc.
use furi_os.Prelude.{
  ℕ, ◌+◌, ◌-◌, ◌*◌, ◌/◌, ◌^◌, ◌≤◌, ◌<◌, ◌≡◌, refl, inl, inr, false, ◌||◌, Option, none, some, [],
  ◌∷◌, ltb, ◌==◌, arith, Bool-cases, add64, sub64,
}
use native.Mathlib.Nat.{div-mul-le_self}
use furi_os.Prelude.Bits.{bit_and-mask16}
use furi_os.Pmm.{align_up}
use furi_os.Malloc.{Heap, header, first_fit, linked, extended, extend, fitted, malloc, calloc}

align_up_wraps : (size : ℕ) → 2 ^ 64 - 15 ≤ size → size < 2 ^ 64 → align_up size 16 ≡ 0
unfolding align_up
align_up_wraps size h k =
    let small : sub64 (add64 size 16) 1 < 15 = omega arith in
    omega (arith, bit_and-mask16 (sub64 (add64 size 16) 1) (omega arith), small)

-- A request for one of the fifteen largest sizes wraps to zero in align_up: with no block in the
-- heap, malloc asks sbrk for the 24 bytes of a header and, when it gets them, returns a pointer to a
-- block of no bytes.
pub malloc_huge :
    {S : Type 0} (sbrk : S → ℕ → Option ℕ × S) (size a : ℕ) (h : Heap S)
    → 2 ^ 64 - 15 ≤ size
    → size < 2 ^ 64
    → h.blocks ≡ []
    → (sbrk h.sys header).0 ≡ some a
    → ((malloc sbrk size h).0 ≡ some (a + header))
      × ((malloc sbrk size h).1.blocks ≡ record { addr = a; size = 0; free = false } ∷ [])
unfolding malloc fitted extend extended first_fit linked
malloc_huge sbrk size a h low high e got =
    let wraps : align_up size 16 ≡ 0 = align_up_wraps size low high in
    let some_size : (size == 0) ≡ false = ground arith in
    rw some_size (rw wraps (rw e (rw got (refl, refl))))

-- calloc refuses a product that does not fit into a size_t and leaves the heap alone.
pub calloc_overflow :
    {S : Type 0} (sbrk : S → ℕ → Option ℕ × S) (n size : ℕ) (h : Heap S)
    → 2 ^ 64 ≤ n * size
    → calloc sbrk n size h ≡ (none, h)
unfolding calloc
calloc_overflow sbrk n size h big = elim (Bool-cases (n == 0 || size == 0)) [
  | inl z ↦ absurd (grind arith)
  | inr z ↦ elim (Bool-cases (ltb ((2 ^ 64 - 1) / size) n)) [
    | inl over ↦ rw z (rw over refl)
    | inr fits ↦
        let few : n ≤ (2 ^ 64 - 1) / size = ground arith in
        let prod : n * size ≤ (2 ^ 64 - 1) / size * size =
          mul_mono n ((2 ^ 64 - 1) / size) size few in
        absurd (omega (arith, prod, div-mul-le_self (2 ^ 64 - 1) size))
  ]
]
  where
    mul_mono : (a b c : ℕ) → a ≤ b → a * c ≤ b * c
    mul_mono a b c h = grind arith
