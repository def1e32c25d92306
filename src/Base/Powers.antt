-- ===== src/Base/Powers.antt =====
-- Powers of two.
use Prim.Native.Nat.{ℕ, suc, ◌+◌, ◌*◌, ◌^◌, ◌≤◌, ◌<◌}
use mathlib.Core.Path.{◌≡◌}
use mathlib.Core.Logic.{inl, inr}
use native.Mathlib.Omega.{arith}
use native.Mathlib.Nat.{pow-suc, one-le-pow, pow-le-pow_right}
use typeberry.Base.Tests.{Bool-cases, ltb}

pub double : (k : ℕ) → 2 ^ k + 2 ^ k ≡ 2 ^ suc k
double k = omega (arith, pow-suc 2 k)

pub pow_mono : (i j : ℕ) → i ≤ j → 2 ^ i ≤ 2 ^ j
pow_mono i j l = pow-le-pow_right {n = 2} (omega arith) {i = i} {j = j} l

pub pow_strict : (i j : ℕ) → i < j → 2 * 2 ^ i ≤ 2 ^ j
pow_strict i j l = omega (arith, pow_mono (suc i) j l, double i)

pub pow_positive : (i : ℕ) → 1 ≤ 2 ^ i
pow_positive i = one-le-pow i 2 (omega arith)

pub pow_lt : (i j : ℕ) → 2 ^ i < 2 ^ j → i < j
pow_lt i j h = elim (Bool-cases (ltb i j)) [
  | inl e ↦ ground arith
  | inr e ↦ let l : j ≤ i = ground arith in absurd (omega (arith, pow_mono j i l))
]

pub pow_inj : (k j : ℕ) → k ≤ j → 2 ^ j ≡ 2 ^ k → k ≡ j
pow_inj k j l e = elim (Bool-cases (ltb k j)) [
  | inl g ↦ let m : k < j = ground arith in absurd (omega (arith, pow_strict k j m, pow_positive k))
  | inr g ↦ let m : j ≤ k = ground arith in omega arith
]
