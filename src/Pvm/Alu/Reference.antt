-- ===== src/Pvm/Alu/Reference.antt =====
-- Each instruction writes one register, with a word that is given here as arithmetic modulo the
-- word's size, the signed order being the order of the words with the sign bit turned over.
use typeberry.Base.{
  ℕ, ◌+◌, ◌-◌, ◌*◌, ◌/◌, ◌%◌, ◌^◌, ◌<◌, ◌≡◌, refl, sym, ap, ◌∙◌, arith, Bool, Bool-cases, true,
  false, ltb, ◌==◌, if◌then◌else◌, set, inl, inr, min, max,
}
use native.Mathlib.Nat.{div-le_self, mod-le}
use typeberry.Base.Int.{pos, wrap, signed, ltb_ℤ}
use typeberry.Pvm.Registers.{
  Registers, IsRegisters, get_u64, get_i64, get_lower_u32, sign_extend, set_u64, set_i64, extended,
  wrap-sign_extend, wrap-signed, get_u64-lt, set-get_u64,
}
use typeberry.Pvm.Alu.{
  Op, add_32, add_64, sub_32, sub_64, mul_64, div_u_32, div_u_64, rem_u_32, rem_u_64, max_s, max_u,
  min_s, min_u, set_lt_s, set_lt_u, cmov_iz, cmov_nz, dispatch,
}
use typeberry.Pvm.Ops.{to_int32}
use typeberry.Pvm.MathUtils.{
  add_with_overflow_u32, add_with_overflow_u64, sub_u32, sub_u64, mul_u64, max_big_int, min_big_int,
}

-- The sign bit turned over.
abbrev pub flip : ℕ → ℕ
flip w = (w + 2 ^ 63) % 2 ^ 64

abbrev set_if : Bool → ℕ
set_if b = if b then 1 else 0

-- What an instruction writes for the words `a` and `b`, where the register has `old`.
abbrev pub reference : Op → ℕ → ℕ → ℕ → ℕ
reference add_32 a b old = extended ((a + b) % 2 ^ 32)
reference add_64 a b old = (a + b) % 2 ^ 64
reference sub_32 a b old = extended ((a % 2 ^ 32 + (2 ^ 32 - b % 2 ^ 32)) % 2 ^ 32)
reference sub_64 a b old = (a + (2 ^ 64 - b)) % 2 ^ 64
reference mul_64 a b old = (a * b) % 2 ^ 64
reference div_u_32 a b old =
    if b % 2 ^ 32 == 0 then 2 ^ 64 - 1 else extended ((a % 2 ^ 32) / (b % 2 ^ 32))
reference div_u_64 a b old = if b == 0 then 2 ^ 64 - 1 else a / b
reference rem_u_32 a b old =
    extended (if b % 2 ^ 32 == 0 then a % 2 ^ 32 else (a % 2 ^ 32) % (b % 2 ^ 32))
reference rem_u_64 a b old = if b == 0 then a else a % b
reference max_s a b old = if ltb (flip a) (flip b) then b else a
reference max_u a b old = max a b
reference min_s a b old = if ltb (flip b) (flip a) then b else a
reference min_u a b old = min a b
reference set_lt_s a b old = set_if (ltb (flip a) (flip b))
reference set_lt_u a b old = set_if (ltb a b)
reference cmov_iz a b old = if b == 0 then a else old
reference cmov_nz a b old = if b == 0 then old else a

pub signed_order :
    (a b : ℕ)
    → a < 2 ^ 64
    → b < 2 ^ 64
    → ltb_ℤ (signed (2 ^ 63) a) (signed (2 ^ 63) b) ≡ ltb (flip a) (flip b)
signed_order a b h k = ground arith

max_signed :
    (a b : ℕ)
    → a < 2 ^ 64
    → b < 2 ^ 64
    → wrap (2 ^ 64) (max_big_int (signed (2 ^ 63) a) (signed (2 ^ 63) b))
      ≡ (if ltb (flip a) (flip b) then b else a)
unfolding max_big_int
max_signed a b h k = rw (signed_order a b h k) (elim (Bool-cases (ltb (flip a) (flip b))) [
  | inl e ↦ rw (e) (wrap-signed b k)
  | inr e ↦ rw (e) (wrap-signed a h)
])

min_signed :
    (a b : ℕ)
    → a < 2 ^ 64
    → b < 2 ^ 64
    → wrap (2 ^ 64) (min_big_int (signed (2 ^ 63) a) (signed (2 ^ 63) b))
      ≡ (if ltb (flip b) (flip a) then b else a)
unfolding min_big_int
min_signed a b h k = rw (signed_order b a k h) (elim (Bool-cases (ltb (flip b) (flip a))) [
  | inl e ↦ rw (e) (wrap-signed b k)
  | inr e ↦ rw (e) (wrap-signed a h)
])

add_32_value :
    (a b : ℕ)
    → wrap (2 ^ 64) (sign_extend (pos (add_with_overflow_u32 (a % 2 ^ 32) (b % 2 ^ 32))))
      ≡ extended ((a + b) % 2 ^ 32)
add_32_value a b =
    let e : wrap (2 ^ 32) (pos (add_with_overflow_u32 (a % 2 ^ 32) (b % 2 ^ 32)))
        ≡ (a + b) % 2 ^ 32 =
      unfold add_with_overflow_u32 in ground arith in
    wrap-sign_extend _ ∙ ap extended e

sub_32_value :
    (a b : ℕ)
    → wrap (2 ^ 64) (sign_extend (pos (sub_u32 (a % 2 ^ 32) (b % 2 ^ 32))))
      ≡ extended ((a % 2 ^ 32 + (2 ^ 32 - b % 2 ^ 32)) % 2 ^ 32)
sub_32_value a b =
    let e : wrap (2 ^ 32) (pos (sub_u32 (a % 2 ^ 32) (b % 2 ^ 32)))
        ≡ (a % 2 ^ 32 + (2 ^ 32 - b % 2 ^ 32)) % 2 ^ 32 =
      unfold sub_u32 in ground arith in
    wrap-sign_extend _ ∙ ap extended e

int32_value : (q : ℕ) → q < 2 ^ 32 → wrap (2 ^ 64) (sign_extend (to_int32 q)) ≡ extended q
int32_value q h =
    let e : wrap (2 ^ 32) (to_int32 q) ≡ q = ground arith in
    wrap-sign_extend (to_int32 q) ∙ ap extended e

word_value : (q : ℕ) → q < 2 ^ 32 → wrap (2 ^ 64) (sign_extend (pos q)) ≡ extended q
word_value q h = let e : q % 2 ^ 32 ≡ q = omega arith in wrap-sign_extend (pos q) ∙ ap extended e

div_value :
    (a b : ℕ) → wrap (2 ^ 64) (sign_extend (to_int32 (a % 2 ^ 32 / b))) ≡ extended (a % 2 ^ 32 / b)
div_value a b = int32_value (a % 2 ^ 32 / b) (omega (arith, div-le_self (a % 2 ^ 32) b))

rem_value :
    (a b : ℕ) → wrap (2 ^ 64) (sign_extend (pos (a % 2 ^ 32 % b))) ≡ extended (a % 2 ^ 32 % b)
rem_value a b = word_value (a % 2 ^ 32 % b) (omega (arith, mod-le (a % 2 ^ 32) b))

small : (w : ℕ) → w < 2 ^ 64 → w % 2 ^ 64 ≡ w
small w h = omega arith

set_if_value : (b : Bool) → wrap (2 ^ 64) (if b then pos 1 else pos 0) ≡ set_if b
set_if_value true = refl
set_if_value false = refl

max_word :
    (a b : ℕ) → a < 2 ^ 64 → b < 2 ^ 64 → wrap (2 ^ 64) (max_big_int (pos a) (pos b)) ≡ max a b
unfolding max_big_int
max_word a b h k = ground arith

min_word :
    (a b : ℕ) → a < 2 ^ 64 → b < 2 ^ 64 → wrap (2 ^ 64) (min_big_int (pos a) (pos b)) ≡ min a b
unfolding min_big_int
min_word a b h k = ground arith

-- On 13 registers of 64-bit words, an instruction writes its reference word to the third register,
-- and nothing else.
pub dispatch-reference :
    (op : Op) (regs : Registers) (i j k : ℕ)
    → IsRegisters regs
    → dispatch op regs i j k
      ≡ set regs k (reference op (get_u64 regs i) (get_u64 regs j) (get_u64 regs k))
unfolding dispatch set_u64 set_i64 get_i64 get_lower_u32
dispatch-reference add_32 regs i j k h =
    ap (set regs k) (add_32_value (get_u64 regs i) (get_u64 regs j))
dispatch-reference add_64 regs i j k h =
    ap (set regs k) (unfold add_with_overflow_u64 in omega arith)
dispatch-reference sub_32 regs i j k h =
    ap (set regs k) (sub_32_value (get_u64 regs i) (get_u64 regs j))
dispatch-reference sub_64 regs i j k h =
    ap (set regs k) (unfold sub_u64 in omega (arith, get_u64-lt regs j h.1))
dispatch-reference mul_64 regs i j k h = ap (set regs k) (unfold mul_u64 in omega arith)
dispatch-reference div_u_32 regs i j k h = elim (Bool-cases (get_u64 regs j % 2 ^ 32 == 0)) [
  | inl e ↦ rw (e) refl
  | inr e ↦ rw (e) (ap (set regs k) (div_value (get_u64 regs i) (get_u64 regs j % 2 ^ 32)))
]
dispatch-reference div_u_64 regs i j k h = elim (Bool-cases (get_u64 regs j == 0)) [
  | inl e ↦ rw (e) refl
  | inr e ↦ rw (e) (
      ap (set regs k) (
        small _
          (omega (arith, div-le_self (get_u64 regs i) (get_u64 regs j), get_u64-lt regs i h.1))))
]
dispatch-reference rem_u_32 regs i j k h = elim (Bool-cases (get_u64 regs j % 2 ^ 32 == 0)) [
  | inl e ↦ rw (e) (ap (set regs k) (word_value (get_u64 regs i % 2 ^ 32) (omega arith)))
  | inr e ↦ rw (e) (ap (set regs k) (rem_value (get_u64 regs i) (get_u64 regs j % 2 ^ 32)))
]
dispatch-reference rem_u_64 regs i j k h = elim (Bool-cases (get_u64 regs j == 0)) [
  | inl e ↦ rw (e) (ap (set regs k) (small _ (get_u64-lt regs i h.1)))
  | inr e ↦ rw (e) (
      ap (set regs k)
        (small _ (omega (arith, mod-le (get_u64 regs i) (get_u64 regs j), get_u64-lt regs i h.1))))
]
dispatch-reference max_s regs i j k h =
    ap (set regs k)
      (max_signed (get_u64 regs i) (get_u64 regs j) (get_u64-lt regs i h.1) (get_u64-lt regs j h.1))
dispatch-reference max_u regs i j k h =
    ap (set regs k) (max_word _ _ (get_u64-lt regs i h.1) (get_u64-lt regs j h.1))
dispatch-reference min_s regs i j k h =
    ap (set regs k)
      (min_signed (get_u64 regs i) (get_u64 regs j) (get_u64-lt regs i h.1) (get_u64-lt regs j h.1))
dispatch-reference min_u regs i j k h =
    ap (set regs k) (min_word _ _ (get_u64-lt regs i h.1) (get_u64-lt regs j h.1))
dispatch-reference set_lt_s regs i j k h =
    rw
      (signed_order (get_u64 regs i) (get_u64 regs j) (get_u64-lt regs i h.1)
        (get_u64-lt regs j h.1))
      (ap (set regs k) (set_if_value _))
dispatch-reference set_lt_u regs i j k h = ap (set regs k) (set_if_value _)
dispatch-reference cmov_iz regs i j k h = elim (Bool-cases (get_u64 regs j == 0)) [
  | inl e ↦ rw (e) (ap (set regs k) (small _ (get_u64-lt regs i h.1)))
  | inr e ↦ rw (e) (sym (set-get_u64 regs k))
]
dispatch-reference cmov_nz regs i j k h = elim (Bool-cases (get_u64 regs j == 0)) [
  | inl e ↦ rw (e) (sym (set-get_u64 regs k))
  | inr e ↦ rw (e) (ap (set regs k) (small _ (get_u64-lt regs i h.1)))
]
