-- ===== src/Codec/Natural/RoundTrip.antt =====
-- The variable-length numbers, written and read back.
use typeberry.Base.{
  ℕ, zero, suc, ◌+◌, ◌-◌, ◌*◌, ◌/◌, ◌%◌, ◌^◌, ◌<◌, ◌≤◌, ◌≡◌, refl, sym, ◌∙◌, arith, List, [], ◌∷◌,
  ◌++◌, length, ltb, ◌==◌, Bool-cases, inl, inr, ltb→lt, ltb→ge, lt→ltb, false,
}
use typeberry.Codec.Outcome.{Outcome, ok}
use typeberry.Codec.Words.{le_bytes}
use typeberry.Codec.Encoder.{Encoder, put, natural_bytes, put_var_u64, put_var_u32}
use typeberry.Codec.Decoder.{get_var_u64, get_var_u32, extra_bytes}
use typeberry.Codec.Stream.{Writes, Reads, Codes, Codes-RoundTrips, put-Writes, subst-Reads}
use typeberry.Codec.Natural.Ranges.{InRange, range_exists, quotient_lt}
use typeberry.Codec.Natural.Encode.{put_var_u64-range, put_var_u64-longest}
use typeberry.Codec.Natural.Decode.{first-extra, get_var_u64-Reads, get_var_u64-Reads_longest}
use typeberry.Codec.Natural.Narrow.{get_var_u32-Reads}
use native.Mathlib.Nat.{div-add-mod, one-le-pow, pow-le-pow_right}

-- The first byte of the form with `l` extra bytes.
abbrev first_of : ℕ → ℕ → ℕ
first_of l num = 2 ^ 8 - 2 ^ (8 - l) + num / 2 ^ (8 * l)

split_again : (num l : ℕ) → num / 2 ^ (8 * l) * 2 ^ (8 * l) + num % 2 ^ (8 * l) ≡ num
split_again num l = grind (arith, div-add-mod num (2 ^ (8 * l)))

rest_lt : (num l : ℕ) → num % 2 ^ (8 * l) < 2 ^ (8 * l)
rest_lt num l = grind (arith, one-le-pow (8 * l) 2 (omega arith))

-- The first byte is a byte, so `& 0xff` keeps it.
first_fits :
    (l q : ℕ) → l ≤ 7 → q < 2 ^ (7 - l) → (2 ^ 8 - 2 ^ (8 - l) + q) % 256 ≡ 2 ^ 8 - 2 ^ (8 - l) + q
first_fits l q p h = omega (
  arith,
  pow-le-pow_right {n = 2} (omega arith) {i = 7 - l} {j = 8 - l} (omega arith),
  pow-le-pow_right {n = 2} (omega arith) {i = 8 - l} {j = 8} (omega arith),
)

zero-Reads : Reads get_var_u64 (0 ∷ []) 0
zero-Reads =
    unfold le_bytes in
    get_var_u64-Reads 0 0 0 0 (omega arith) (unfold extra_bytes in refl) refl (omega arith)

natural-Reads : (l num : ℕ) → l ≤ 7 → InRange l num → Reads get_var_u64 (natural_bytes l num) num
natural-Reads l num p r =
    let q : num / 2 ^ (8 * l) < 2 ^ (7 - l) = quotient_lt l num p r.1 in
    let (extra, top) = first-extra l (num / 2 ^ (8 * l)) p q in
    rw (first_fits l (num / 2 ^ (8 * l)) p q) (
      subst-Reads get_var_u64 refl (split_again num l) (
        get_var_u64-Reads l (num / 2 ^ (8 * l)) (first_of l num) (num % 2 ^ (8 * l)) p extra top
          (rest_lt num l)))

natural-Reads_u32 :
    (l num : ℕ) → l ≤ 4 → num < 2 ^ 32 → InRange l num → Reads get_var_u32 (natural_bytes l num) num
natural-Reads_u32 l num p small r =
    let p' : l ≤ 7 = omega arith in
    let q : num / 2 ^ (8 * l) < 2 ^ (7 - l) = quotient_lt l num p' r.1 in
    let (extra, top) = first-extra l (num / 2 ^ (8 * l)) p' q in
    rw (first_fits l (num / 2 ^ (8 * l)) p' q) (
      subst-Reads get_var_u32 refl (split_again num l) (
        get_var_u32-Reads l (num / 2 ^ (8 * l)) (first_of l num) (num % 2 ^ (8 * l)) p extra top
          (rest_lt num l) (rw split_again small)))

same-Writes :
    (w : Encoder → Outcome Encoder) (bs : List ℕ) → ((e : Encoder) → w e ≡ put bs e) → Writes w bs
same-Writes w bs same e e' h = put-Writes bs e e' (sym (same e) ∙ h)

positive : (num : ℕ) → (num == 0) ≡ false → 0 < num
positive num h = ground arith

-- Some bytes are what `varU64` writes for a 64-bit number and what `varU64` reads as it.
pub var_u64-Codes : (num : ℕ) → num < 2 ^ 64 → Codes (put_var_u64 num) get_var_u64 num
var_u64-Codes zero h = (0 ∷ [], same-Writes _ _ (λ e. unfold put_var_u64 in refl), zero-Reads)
var_u64-Codes (suc n) h = elim (Bool-cases (ltb (suc n) (2 ^ 56))) [
  | inl small ↦
      let (l, lt, r) = range_exists 8 (suc n) (omega arith) (ltb→lt (suc n) _ small) in
      (
        natural_bytes l (suc n),
        same-Writes _ _ (λ e. put_var_u64-range l (suc n) e (omega arith) r),
        natural-Reads l (suc n) (omega arith) r,
      )
  | inr large ↦ (
    0xff ∷ le_bytes 8 (suc n),
    same-Writes _ _ (put_var_u64-longest (suc n) (ltb→ge (suc n) _ large)),
    get_var_u64-Reads_longest (suc n) h,
  )
]

-- The same for 32-bit numbers, through `varU32`.
pub var_u32-Codes : (num : ℕ) → num < 2 ^ 32 → Codes (put_var_u32 num) get_var_u32 num
var_u32-Codes zero h = (
  0 ∷ [],
  same-Writes _ _ (λ e. unfold put_var_u32 put_var_u64 in refl),
  unfold le_bytes in
      get_var_u32-Reads 0 0 0 0 (omega arith) (unfold extra_bytes in refl) refl (omega arith)
        (omega arith),
)
var_u32-Codes (suc n) h =
    let (l, lt, r) = range_exists 5 (suc n) (omega arith) (omega arith) in
    (
      natural_bytes l (suc n),
      same-Writes _ _ (λ e.
          unfold put_var_u32 in
          rw (lt→ltb (suc n) (2 ^ 32) h) (put_var_u64-range l (suc n) e (omega arith) r)),
      natural-Reads_u32 l (suc n) (omega arith) h r,
    )

-- A 64-bit number that `varU64` of the encoder wrote behind some bytes is read back by `varU64` of
-- the decoder placed where the encoder stood, whatever follows, and the decoder stops where the
-- encoder stopped.
pub var_u64_round_trip :
    (num : ℕ) (e e' : Encoder) (rest : List ℕ)
    → num < 2 ^ 64
    → put_var_u64 num e ≡ ok e'
    → get_var_u64 (record { source = e'.written ++ rest; offset = length e.written })
      ≡ ok (num, record { source = e'.written ++ rest; offset = length e'.written })
var_u64_round_trip num e e' rest h =
    Codes-RoundTrips (put_var_u64 num) get_var_u64 num (var_u64-Codes num h) e e' rest

-- A 32-bit number that `varU32` of the encoder wrote is read back by `varU32` of the decoder placed
-- where the encoder stood, whatever follows, and the decoder stops where the encoder stopped.
pub var_u32_round_trip :
    (num : ℕ) (e e' : Encoder) (rest : List ℕ)
    → num < 2 ^ 32
    → put_var_u32 num e ≡ ok e'
    → get_var_u32 (record { source = e'.written ++ rest; offset = length e.written })
      ≡ ok (num, record { source = e'.written ++ rest; offset = length e'.written })
var_u32_round_trip num e e' rest h =
    Codes-RoundTrips (put_var_u32 num) get_var_u32 num (var_u32-Codes num h) e e' rest
