-- ===== src/Codec/Natural/Encode.antt =====
-- What `varU64` writes, range by range.
use typeberry.Base.{
  ℕ, zero, suc, ◌*◌, ◌/◌, ◌^◌, ◌≤◌, ◌≡◌, refl, arith, ◌∷◌, leb, ◌==◌, Bool-cases, inl, inr, leb→le,
  le→leb, false,
}
use typeberry.Codec.Words.{le_bytes}
use typeberry.Codec.Encoder.{Encoder, put, natural_bytes, var_u64_loop, put_var_u64}
use native.Mathlib.Nat.{one-le-pow}
use typeberry.Codec.Natural.Ranges.{InRange, seven_pow, seven_mono}

-- From `l = j` down, the loop stops at the range of `num`.
var_u64_loop-range :
    (j l num : ℕ) (e : Encoder)
    → l ≤ j
    → InRange l num
    → var_u64_loop (suc j) num (2 ^ (7 * j)) e ≡ put (natural_bytes l num) e
unfolding var_u64_loop
var_u64_loop-range zero l num e p r =
    let z : l ≡ 0 = omega arith in
    rw (z, le→leb 1 num (omega (arith, one-le-pow (7 * l) 2 (omega arith)))) refl
var_u64_loop-range (suc j) l num e p r = elim (Bool-cases (leb (2 ^ (7 * suc j)) num)) [
  | inl stop ↦ rw (stop, here (leb→le _ num stop)) refl
  | inr more ↦ rw (more, one_down) (var_u64_loop-range j l num e (below more) r)
]
  where
    here : 2 ^ (7 * suc j) ≤ num → l ≡ suc j
    here h = elim (Bool-cases (leb l j)) [
      | inl lower ↦ absurd (omega (arith, seven_mono {l = suc l} {k = suc j} (ground arith)))
      | inr same ↦ ground arith
    ]

    one_down : 2 ^ (7 * suc j) / 2 ^ 7 ≡ 2 ^ (7 * j)
    one_down = omega (arith, seven_pow j)

    below : leb (2 ^ (7 * suc j)) num ≡ false → l ≤ j
    below more = elim (Bool-cases (leb l j)) [
      | inl lower ↦ leb→le l j lower
      | inr same ↦ absurd (ground (arith, seven_mono {l = suc j} {k = l} (ground arith)))
    ]

pub put_var_u64-range :
    (l num : ℕ) (e : Encoder)
    → l ≤ 7
    → InRange l num
    → put_var_u64 num e ≡ put (natural_bytes l num) e
unfolding put_var_u64
put_var_u64-range l num e p r = rw (nonzero, small) (var_u64_loop-range 7 l num e p r)
  where
    nonzero : (num == 0) ≡ false
    nonzero = ground (arith, one-le-pow (7 * l) 2)

    small : leb (2 ^ (7 * 8)) num ≡ false
    small = ground (arith, seven_mono {l = suc l} {k = 8} (omega arith))

pub put_var_u64-longest :
    (num : ℕ) → 2 ^ 56 ≤ num → (e : Encoder) → put_var_u64 num e ≡ put (0xff ∷ le_bytes 8 num) e
unfolding put_var_u64
put_var_u64-longest num h e = rw (nonzero, le→leb (2 ^ (7 * 8)) num h) refl
  where
    nonzero : (num == 0) ≡ false
    nonzero = ground arith
