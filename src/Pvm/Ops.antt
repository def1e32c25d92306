-- ===== src/Pvm/Ops.antt =====
-- packages/core/pvm-interpreter/ops: the methods of math-ops.ts, boolean-ops.ts and move-ops.ts on
-- two registers that read unsigned words or compare. The first two indices are read, the third is
-- written.
use typeberry.Base.{ℕ, ◌-◌, ◌/◌, ◌%◌, ◌^◌, ltb, ◌==◌, if◌then◌else◌}
use typeberry.Base.Int.{ℤ, pos, ltb_ℤ, signed}
use typeberry.Pvm.MathUtils
use typeberry.Pvm.Registers.{
  Registers, get_u64, get_i64, get_lower_u32, sign_extend, set_u64, set_i64,
}

-- `~~` of a quotient that is not negative.
abbrev pub to_int32 : ℕ → ℤ
to_int32 v = signed (2 ^ 31) (v % 2 ^ 32)

abbrev pub add_u32 : Registers → ℕ → ℕ → ℕ → Registers
add_u32 regs i j k = set_u64 regs k (
    sign_extend
      (pos (MathUtils.add_with_overflow_u32 (get_lower_u32 regs i) (get_lower_u32 regs j))))

abbrev pub add_u64 : Registers → ℕ → ℕ → ℕ → Registers
add_u64 regs i j k =
    set_u64 regs k (pos (MathUtils.add_with_overflow_u64 (get_u64 regs i) (get_u64 regs j)))

abbrev pub sub_u32 : Registers → ℕ → ℕ → ℕ → Registers
sub_u32 regs i j k =
    set_u64 regs k
      (sign_extend (pos (MathUtils.sub_u32 (get_lower_u32 regs i) (get_lower_u32 regs j))))

abbrev pub sub_u64 : Registers → ℕ → ℕ → ℕ → Registers
sub_u64 regs i j k = set_u64 regs k (pos (MathUtils.sub_u64 (get_u64 regs i) (get_u64 regs j)))

abbrev pub mul_u64 : Registers → ℕ → ℕ → ℕ → Registers
mul_u64 regs i j k = set_u64 regs k (pos (MathUtils.mul_u64 (get_u64 regs i) (get_u64 regs j)))

abbrev pub div_unsigned_u32 : Registers → ℕ → ℕ → ℕ → Registers
div_unsigned_u32 regs i j k =
    if get_lower_u32 regs j == 0
    then set_u64 regs k (pos (2 ^ 64 - 1))
    else set_u64 regs k (sign_extend (to_int32 (get_lower_u32 regs i / get_lower_u32 regs j)))

abbrev pub div_unsigned_u64 : Registers → ℕ → ℕ → ℕ → Registers
div_unsigned_u64 regs i j k =
    if get_u64 regs j == 0
    then set_u64 regs k (pos (2 ^ 64 - 1))
    else set_u64 regs k (pos (get_u64 regs i / get_u64 regs j))

abbrev pub rem_unsigned_u32 : Registers → ℕ → ℕ → ℕ → Registers
rem_unsigned_u32 regs i j k =
    if get_lower_u32 regs j == 0
    then set_u64 regs k (sign_extend (pos (get_lower_u32 regs i)))
    else set_u64 regs k (sign_extend (pos (get_lower_u32 regs i % get_lower_u32 regs j)))

abbrev pub rem_unsigned_u64 : Registers → ℕ → ℕ → ℕ → Registers
rem_unsigned_u64 regs i j k =
    if get_u64 regs j == 0
    then set_u64 regs k (pos (get_u64 regs i))
    else set_u64 regs k (pos (get_u64 regs i % get_u64 regs j))

abbrev pub max : Registers → ℕ → ℕ → ℕ → Registers
max regs i j k = set_i64 regs k (MathUtils.max_big_int (get_i64 regs i) (get_i64 regs j))

abbrev pub max_u : Registers → ℕ → ℕ → ℕ → Registers
max_u regs i j k =
    set_u64 regs k (MathUtils.max_big_int (pos (get_u64 regs i)) (pos (get_u64 regs j)))

abbrev pub min : Registers → ℕ → ℕ → ℕ → Registers
min regs i j k = set_i64 regs k (MathUtils.min_big_int (get_i64 regs i) (get_i64 regs j))

abbrev pub min_u : Registers → ℕ → ℕ → ℕ → Registers
min_u regs i j k =
    set_u64 regs k (MathUtils.min_big_int (pos (get_u64 regs i)) (pos (get_u64 regs j)))

abbrev pub set_less_than_signed : Registers → ℕ → ℕ → ℕ → Registers
set_less_than_signed regs i j k =
    set_u64 regs k (if ltb_ℤ (get_i64 regs i) (get_i64 regs j) then pos 1 else pos 0)

abbrev pub set_less_than_unsigned : Registers → ℕ → ℕ → ℕ → Registers
set_less_than_unsigned regs i j k =
    set_u64 regs k (if ltb (get_u64 regs i) (get_u64 regs j) then pos 1 else pos 0)

abbrev pub cmov_if_zero : Registers → ℕ → ℕ → ℕ → Registers
cmov_if_zero regs i j k =
    if get_u64 regs j == 0 then set_u64 regs k (pos (get_u64 regs i)) else regs

abbrev pub cmov_if_not_zero : Registers → ℕ → ℕ → ℕ → Registers
cmov_if_not_zero regs i j k =
    if get_u64 regs j == 0 then regs else set_u64 regs k (pos (get_u64 regs i))
