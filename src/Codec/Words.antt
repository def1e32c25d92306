-- ===== src/Codec/Words.antt =====
-- Little-endian bytes, as DataView reads and writes them.
use typeberry.Base.{ℕ, zero, suc, ◌+◌, ◌*◌, ◌/◌, ◌%◌, ◌^◌, ◌<◌, ◌≡◌, refl, ap, arith}
use typeberry.Base.{List, [], ◌∷◌, length, All}
use native.Mathlib.Numerals.{towards_suc}

-- The lowest `n` bytes of a number, lowest first.
unfoldable pub le_bytes : ℕ → ℕ → List ℕ
le_bytes zero v = []
le_bytes (suc n) v = (v % 256) ∷ le_bytes n (v / 256)

unfoldable pub le_value : List ℕ → ℕ
le_value [] = 0
le_value (b ∷ bs) = b + 256 * le_value bs

abbrev pub IsByte : ℕ → Type 0
IsByte b = b < 256

pub length-le_bytes : (n v : ℕ) → length (le_bytes n v) ≡ n
unfolding le_bytes
length-le_bytes zero v = refl
length-le_bytes (suc n) v = ap suc (length-le_bytes n (v / 256))

pub le_bytes-IsByte : (n v : ℕ) → All IsByte (le_bytes n v)
unfolding le_bytes
le_bytes-IsByte zero v = tt
le_bytes-IsByte (suc n) v = (omega arith, le_bytes-IsByte n (v / 256))

pub byte_pow : (n : ℕ) → 2 ^ (8 * suc n) ≡ 256 * 2 ^ (8 * n)
byte_pow n = let e : 8 * suc n ≡ 8 * n + 8 = omega arith in rw e (simp towards_suc (omega arith))

-- Reading back `n` bytes gives the number modulo `2 ^ (8 * n)`.
pub le_value-le_bytes : (n v : ℕ) → v < 2 ^ (8 * n) → le_value (le_bytes n v) ≡ v
unfolding le_bytes le_value
le_value-le_bytes zero v h = omega arith
le_value-le_bytes (suc n) v h =
    ground (arith, byte_pow n, le_value-le_bytes n (v / 256) (omega (arith, byte_pow n)))
