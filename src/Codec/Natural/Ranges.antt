-- ===== src/Codec/Natural/Ranges.antt =====
-- The ranges of the variable-length encoding: `l` extra bytes for numbers from 2 ^ (7 * l) on.
use typeberry.Base.{
  ℕ, zero, suc, ◌+◌, ◌-◌, ◌*◌, ◌/◌, ◌^◌, ◌<◌, ◌≤◌, ◌≡◌, arith, ltb, Bool-cases, inl, inr, ltb→lt,
  ltb→ge,
}
use native.Mathlib.Nat.{pow-le-pow_right}
use native.Mathlib.Numerals.{towards_suc}

-- `num` needs exactly `l` bytes behind the first.
abbrev pub InRange : ℕ → ℕ → Type 0
InRange l num = (2 ^ (7 * l) ≤ num) × (num < 2 ^ (7 * suc l))

pub seven_pow : (n : ℕ) → 2 ^ (7 * suc n) ≡ 128 * 2 ^ (7 * n)
seven_pow n = let e : 7 * suc n ≡ 7 * n + 7 = omega arith in rw e (simp towards_suc (omega arith))

pub seven_mono : {l k : ℕ} → l ≤ k → 2 ^ (7 * l) ≤ 2 ^ (7 * k)
seven_mono h = pow-le-pow_right (omega arith) (omega arith)

-- Every positive number below 2 ^ (7 * k) has its range.
pub range_exists : (k num : ℕ) → 0 < num → num < 2 ^ (7 * k) → (l : ℕ) × (l < k) × InRange l num
range_exists zero num p h = absurd (omega arith)
range_exists (suc k) num p h = elim (Bool-cases (ltb num (2 ^ (7 * k)))) [
  | inl below ↦ let (l, lt, r) = range_exists k num p (ltb→lt num _ below) in (l, omega arith, r)
  | inr above ↦ (k, omega arith, (ltb→ge num _ above, h))
]

-- 2 ^ (8 * l) * 2 ^ (7 - l) = 2 ^ (7 * (l + 1)), so the quotient fits the first byte.
pub quotient_lt : (l num : ℕ) → l ≤ 7 → num < 2 ^ (7 * suc l) → num / 2 ^ (8 * l) < 2 ^ (7 - l)
quotient_lt zero num p h = omega arith
quotient_lt (suc zero) num p h = omega arith
quotient_lt (suc (suc zero)) num p h = omega arith
quotient_lt (suc (suc (suc zero))) num p h = omega arith
quotient_lt (suc (suc (suc (suc zero)))) num p h = omega arith
quotient_lt (suc (suc (suc (suc (suc zero))))) num p h = omega arith
quotient_lt (suc (suc (suc (suc (suc (suc zero)))))) num p h = omega arith
quotient_lt (suc (suc (suc (suc (suc (suc (suc zero))))))) num p h = omega arith
quotient_lt (suc (suc (suc (suc (suc (suc (suc (suc l)))))))) num p h = absurd (omega arith)
