-- ===== src/Base/Bits.antt =====
-- Laws of `|` and `&` at every width, from the digit recursion that the native operations stand for.
use Prim.Native.Nat.{ℕ, zero, suc, ◌+◌, ◌-◌, ◌*◌, ◌/◌, ◌%◌, ◌^◌, ◌≤◌, ◌<◌, min, max, digits}
use Prim.Native.Nat.{bit_and, bit_or, bit_and-bitwise, bit_or-bitwise}
use mathlib.Core.Path.{◌≡◌, refl, ap, ◌∙◌}
use native.Mathlib.Nat.{pow-suc, one-le-pow}
use native.Mathlib.Omega.{arith}

abbrev or_digits : ℕ → ℕ → ℕ → ℕ
or_digits n a b = digits (λ b. b) max n a b

abbrev and_digits : ℕ → ℕ → ℕ → ℕ
and_digits n a b = digits (λ b. zero) min n a b

or_digits_more : (n m a b : ℕ) → a ≤ n → a ≤ m → or_digits n a b ≡ or_digits m a b
or_digits_more zero zero a b p q = refl
or_digits_more zero (suc m) zero b p q = refl
or_digits_more zero (suc m) (suc a) b p q = absurd (omega arith)
or_digits_more (suc n) zero zero b p q = refl
or_digits_more (suc n) zero (suc a) b p q = absurd (omega arith)
or_digits_more (suc n) (suc m) zero b p q = refl
or_digits_more (suc n) (suc m) (suc a) b p q =
    omega (arith, or_digits_more n m (suc a / 2) (b / 2) (omega arith) (omega arith))

and_digits_more : (n m a b : ℕ) → a ≤ n → a ≤ m → and_digits n a b ≡ and_digits m a b
and_digits_more zero zero a b p q = refl
and_digits_more zero (suc m) zero b p q = refl
and_digits_more zero (suc m) (suc a) b p q = absurd (omega arith)
and_digits_more (suc n) zero zero b p q = refl
and_digits_more (suc n) zero (suc a) b p q = absurd (omega arith)
and_digits_more (suc n) (suc m) zero b p q = refl
and_digits_more (suc n) (suc m) (suc a) b p q =
    omega (arith, and_digits_more n m (suc a / 2) (b / 2) (omega arith) (omega arith))

zero-bit_or : (b : ℕ) → bit_or 0 b ≡ b
zero-bit_or b = bit_or-bitwise 0 b

zero-bit_and : (b : ℕ) → bit_and 0 b ≡ 0
zero-bit_and b = bit_and-bitwise 0 b

bit_or_halves : (a b : ℕ) → bit_or a b ≡ bit_or (a / 2) (b / 2) * 2 + max (a % 2) (b % 2)
bit_or_halves zero b = omega (arith, zero-bit_or b, zero-bit_or (b / 2))
bit_or_halves (suc a) b = omega (
  arith,
  bit_or-bitwise (suc a) b,
  bit_or-bitwise (suc a / 2) (b / 2),
  or_digits_more a (suc a / 2) (suc a / 2) (b / 2) (omega arith) (omega arith),
)

bit_and_halves : (a b : ℕ) → bit_and a b ≡ bit_and (a / 2) (b / 2) * 2 + min (a % 2) (b % 2)
bit_and_halves zero b = omega (arith, zero-bit_and b, zero-bit_and (b / 2))
bit_and_halves (suc a) b = omega (
  arith,
  bit_and-bitwise (suc a) b,
  bit_and-bitwise (suc a / 2) (b / 2),
  and_digits_more a (suc a / 2) (suc a / 2) (b / 2) (omega arith) (omega arith),
)

bit_or-zero_below : (n a : ℕ) → a ≤ n → bit_or a 0 ≡ a
bit_or-zero_below n zero h = refl
bit_or-zero_below zero (suc a) h = absurd (omega arith)
bit_or-zero_below (suc n) (suc a) h =
    omega (arith, bit_or_halves (suc a) 0, bit_or-zero_below n (suc a / 2) (omega arith))

bit_and-zero_below : (n a : ℕ) → a ≤ n → bit_and a 0 ≡ 0
bit_and-zero_below n zero h = refl
bit_and-zero_below zero (suc a) h = absurd (omega arith)
bit_and-zero_below (suc n) (suc a) h =
    omega (arith, bit_and_halves (suc a) 0, bit_and-zero_below n (suc a / 2) (omega arith))

shift_once : (q k : ℕ) → q * 2 ^ suc k ≡ 2 * (q * 2 ^ k)
shift_once q k = omega (arith, ap (λ (t : ℕ). q * t) (pow-suc 2 k))

-- `(q << k) | r` adds a field that fits `k` bits.
pub bit_or-shifted : (k q r : ℕ) → r < 2 ^ k → bit_or (q * 2 ^ k) r ≡ q * 2 ^ k + r
bit_or-shifted zero q r h = ground (arith, bit_or-zero_below q q)
bit_or-shifted (suc k) q r h = ground (
  arith,
  bit_or_halves (q * 2 ^ suc k) r,
  shift_once q k,
  bit_or-shifted k q (r / 2) (omega arith),
)

bit_and-field : (k q r : ℕ) → r < 2 ^ k → bit_and (q * 2 ^ k + r) (2 ^ k - 1) ≡ r
bit_and-field zero q r h = ground (arith, bit_and-zero_below (q + r) (q + r))
bit_and-field (suc k) q r h = ground (
  arith,
  bit_and_halves (q * 2 ^ suc k + r) (2 ^ suc k - 1),
  shift_once q k,
  pow-suc 2 k,
  one-le-pow k 2,
  bit_and-field k q (r / 2) (omega arith),
)

-- A mask of `k` low ones is the remainder by `2 ^ k`.
pub bit_and-ones : (a k : ℕ) → bit_and a (2 ^ k - 1) ≡ a % 2 ^ k
bit_and-ones a k = ground (arith, one-le-pow k 2, bit_and-field k (a / 2 ^ k) (a % 2 ^ k))

-- `|` with a value above bit `k` leaves the low `k` bits alone.
bit_or-above :
    (k x y low : ℕ) → low < 2 ^ k → bit_or (x * 2 ^ k + low) (y * 2 ^ k) ≡ bit_or x y * 2 ^ k + low
bit_or-above zero x y low h = ground arith
bit_or-above (suc k) x y low h = ground (
  arith,
  bit_or_halves (x * 2 ^ suc k + low) (y * 2 ^ suc k),
  shift_once x k,
  shift_once y k,
  shift_once (bit_or x y) k,
  bit_or-above k x y (low / 2) (omega arith),
)

-- Writing a byte into a gap: above it `a`, below it `low`.
pub bit_or_gap :
    (k a b low : ℕ)
    → b < 256
    → low < 2 ^ k
    → bit_or (a * 256 * 2 ^ k + low) (b * 2 ^ k) ≡ a * 256 * 2 ^ k + (b * 2 ^ k + low)
bit_or_gap k a b low hb hl =
    bit_or-above k (a * 256) b low hl ∙ rw (bit_or-shifted 8 a b hb) (omega arith)

pub bit_or-low : (k y low : ℕ) → low < 2 ^ k → bit_or low (y * 2 ^ k) ≡ y * 2 ^ k + low
bit_or-low k y low h =
    ap (λ (x : ℕ). bit_or x (y * 2 ^ k)) (omega arith)
    ∙ bit_or-above k 0 y low h
    ∙ rw (zero-bit_or y)
