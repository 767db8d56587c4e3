-- ===== src/UserCopy/Tests.antt =====
-- The theorem on copy_to_user at a concrete input.
use furi_os.Prelude.{ℕ, ◌+◌, ◌-◌, ◌≤◌, ◌<◌, ◌≡◌, ◌⊎◌, true, false, List, [], ◌∷◌, get_or, arith}
use furi_os.UserCopy.{Memory, user_va_base, user_va_limit, copy_to_user, copy_to_user_lem}

abbrev blank : Memory
blank a = 0

abbrev two_bytes : List ℕ
two_bytes = 7 ∷ 9 ∷ []

copy_to_user_lem_example :
    let (ok, mem') = copy_to_user blank 0x500000 two_bytes 2 in
    ((ok ≡ false) × (mem' 0x500001 ≡ blank 0x500001))
    ⊎ ((ok ≡ true)
        × (((0x500000 ≤ 0x500001)
              × (0x500001 < 0x500000 + 2)
              × (user_va_base ≤ 0x500001)
              × (0x500001 < user_va_limit)
              × (mem' 0x500001 ≡ get_or two_bytes (0x500001 - 0x500000) 0))
            ⊎ (((0x500001 < 0x500000) ⊎ (0x500000 + 2 ≤ 0x500001))
                × (mem' 0x500001 ≡ blank 0x500001))))
copy_to_user_lem_example =
    copy_to_user_lem blank 0x500000 2 two_bytes (omega arith) (omega arith) 0x500001
