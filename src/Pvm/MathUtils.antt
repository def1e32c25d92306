-- ===== src/Pvm/MathUtils.antt =====
-- packages/core/pvm-interpreter/ops/math-utils.ts: arithmetic on words.
use typeberry.Base.{ℕ, ◌+◌, ◌-◌, ◌*◌, ◌%◌, ◌^◌, ltb, if◌then◌else◌}
use typeberry.Base.Int.{ℤ, ltb_ℤ}

abbrev pub max_value_u32 : ℕ
max_value_u32 = 2 ^ 32 - 1

unfoldable pub add_with_overflow_u32 : ℕ → ℕ → ℕ
add_with_overflow_u32 a b =
    let space_to_max_a = max_value_u32 - a in
    let space_to_max_b = max_value_u32 - b in
    let overflow_sum = space_to_max_a + space_to_max_b in
    if ltb (max_value_u32 - b) a then max_value_u32 - overflow_sum - 1 else a + b

unfoldable pub add_with_overflow_u64 : ℕ → ℕ → ℕ
add_with_overflow_u64 a b = (a + b) % 2 ^ 64

unfoldable pub sub_u32 : ℕ → ℕ → ℕ
sub_u32 a b = if ltb a b then max_value_u32 - b + a + 1 else a - b

unfoldable pub sub_u64 : ℕ → ℕ → ℕ
sub_u64 a b = (2 ^ 64 + a - b) % 2 ^ 64

unfoldable pub mul_u64 : ℕ → ℕ → ℕ
mul_u64 a b = (a * b) % 2 ^ 64

-- Reductions of two values.
unfoldable pub max_big_int : ℤ → ℤ → ℤ
max_big_int a b = if ltb_ℤ a b then b else a

unfoldable pub min_big_int : ℤ → ℤ → ℤ
min_big_int a b = if ltb_ℤ b a then b else a
