-- ===== src/Pvm/Registers.antt =====
-- packages/core/pvm-interpreter/registers.ts: the registers as words below `2 ^ 64`; the views as
-- signed numbers read and write the same words.
use typeberry.Base.{
  ℕ, zero, suc, ◌+◌, ◌-◌, ◌%◌, ◌^◌, ◌<◌, ◌≡◌, refl, ap, arith, ltb, if◌then◌else◌, List, [], ◌∷◌,
  length, get_or, set, All,
}
use typeberry.Base.Int.{ℤ, pos, negsuc, wrap, signed}

abbrev pub Registers : Type 0
Registers = List ℕ

abbrev pub no_of_registers : ℕ
no_of_registers = 13

abbrev pub IsRegisters : Registers → Type 0
IsRegisters regs = (length regs ≡ no_of_registers) × All (λ w. w < 2 ^ 64) regs

unfoldable pub empty : Registers
empty = 0 ∷ 0 ∷ 0 ∷ 0 ∷ 0 ∷ 0 ∷ 0 ∷ 0 ∷ 0 ∷ 0 ∷ 0 ∷ 0 ∷ 0 ∷ []

unfoldable pub get_u64 : Registers → ℕ → ℕ
get_u64 regs i = get_or regs i 0

unfoldable pub get_i64 : Registers → ℕ → ℤ
unfolding get_u64
get_i64 regs i = signed (2 ^ 63) (get_u64 regs i)

unfoldable pub get_lower_u32 : Registers → ℕ → ℕ
unfolding get_u64
get_lower_u32 regs i = get_u64 regs i % 2 ^ 32

unfoldable pub get_lower_i32 : Registers → ℕ → ℤ
unfolding get_lower_u32
get_lower_i32 regs i = signed (2 ^ 31) (get_lower_u32 regs i)

-- `signExtend32To64`
unfoldable pub sign_extend : ℤ → ℤ
sign_extend value =
    let masked = wrap (2 ^ 32) value in
    if ltb masked (2 ^ 31) then pos masked else negsuc (2 ^ 32 - 1 - masked)

unfoldable pub set_u64 : Registers → ℕ → ℤ → Registers
set_u64 regs i value = set regs i (wrap (2 ^ 64) value)

unfoldable pub set_i64 : Registers → ℕ → ℤ → Registers
set_i64 regs i value = set regs i (wrap (2 ^ 64) value)

unfoldable pub set_u32 : Registers → ℕ → ℤ → Registers
unfolding sign_extend
set_u32 regs i value = set regs i (wrap (2 ^ 64) (sign_extend value))

-- The 64-bit word of a 32-bit one whose sign bit is copied up.
abbrev pub extended : ℕ → ℕ
extended w = if ltb w (2 ^ 31) then w else w + (2 ^ 64 - 2 ^ 32)

pub wrap-sign_extend : (v : ℤ) → wrap (2 ^ 64) (sign_extend v) ≡ extended (wrap (2 ^ 32) v)
unfolding sign_extend
wrap-sign_extend (pos n) = ground arith
wrap-sign_extend (negsuc n) = ground arith

-- A word read as signed and written back.
pub wrap-signed : (w : ℕ) → w < 2 ^ 64 → wrap (2 ^ 64) (signed (2 ^ 63) w) ≡ w
wrap-signed w h = ground arith

pub get_u64-lt : (regs : Registers) (i : ℕ) → All (λ w. w < 2 ^ 64) regs → get_u64 regs i < 2 ^ 64
unfolding get_u64
get_u64-lt [] i h = omega arith
get_u64-lt (x ∷ regs) zero h = h.0
get_u64-lt (x ∷ regs) (suc i) h = get_u64-lt regs i h.1

pub set-get_u64 : (regs : Registers) (i : ℕ) → set regs i (get_u64 regs i) ≡ regs
unfolding get_u64
set-get_u64 [] i = refl
set-get_u64 (x ∷ regs) zero = refl
set-get_u64 (x ∷ regs) (suc i) = ap (◌∷◌ x) (set-get_u64 regs i)
