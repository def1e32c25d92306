-- ===== src/Codec/Room.antt =====
-- When writing succeeds: the destination grows up to `max_length`.
use typeberry.Base.{
  ℕ, zero, suc, ◌+◌, ◌*◌, ◌%◌, ◌^◌, ◌<◌, ◌≤◌, ◌≡◌, refl, ◌∙◌, arith, List, [], ◌∷◌, length,
  length-append, ltb, min, max, Bool, Bool-cases, true, false, inl, inr, ltb→lt, ltb→ge,
}
use typeberry.Codec.Outcome.{ok}
use typeberry.Codec.Words.{le_bytes, length-le_bytes}
use typeberry.Codec.Encoder.{
  Encoder, max_length, ensure_big_enough, put, write, natural_bytes, put_var_u64,
}
use typeberry.Codec.Natural.Ranges.{range_exists}
use typeberry.Codec.Natural.Encode.{put_var_u64-range, put_var_u64-longest}

ensure-grows :
    (n : ℕ) (silent : Bool) (e : Encoder)
    → e.resizable ≡ true
    → length e.written + n ≤ max_length
    → (e' : Encoder) × (ensure_big_enough e n silent ≡ ok e')
      × (e'.written ≡ e.written)
      × (e'.resizable ≡ true)
      × (length e.written + n ≤ e'.size)
unfolding ensure_big_enough
ensure-grows n silent e r h = elim (Bool-cases (ltb e.size (length e.written + n))) [
  | inl small ↦ (
    record e { size = min max_length (max (length e.written + n) (2 * e.size)) },
    ground arith,
    refl,
    r,
    omega arith,
  )
  | inr large ↦ (e, ground arith, refl, r, ltb→ge e.size _ large)
]

put-fits :
    (bs : List ℕ) (e : Encoder)
    → e.resizable ≡ true
    → length e.written + length bs ≤ max_length
    → (e' : Encoder) × (put bs e ≡ ok e') × (length e'.written ≡ length e.written + length bs)
unfolding put
put-fits bs e r h =
    let (e₁, room, same, _, _) = ensure-grows (length bs) false e r h in
    (write e₁ bs, rw (room, put) refl, rw same (length-append e.written bs))

-- Every 64-bit number has one form of 1 to 9 bytes.
put_var_u64-form :
    (num : ℕ)
    → num < 2 ^ 64
    → (bs : List ℕ) × ((e : Encoder) → put_var_u64 num e ≡ put bs e)
      × (1 ≤ length bs)
      × (length bs ≤ 9)
put_var_u64-form zero h = (0 ∷ [], λ e. unfold put_var_u64 in refl, omega arith, omega arith)
put_var_u64-form (suc n) h = elim (Bool-cases (ltb (suc n) (2 ^ 56))) [
  | inl small ↦
      let (l, lt, r) = range_exists 8 (suc n) (omega arith) (ltb→lt (suc n) _ small) in
      (
        natural_bytes l (suc n),
        λ e. put_var_u64-range l (suc n) e (omega arith) r,
        omega arith,
        omega (arith, length-le_bytes l (suc n % 2 ^ (8 * l))),
      )
  | inr large ↦ (
    0xff ∷ le_bytes 8 (suc n),
    put_var_u64-longest (suc n) (ltb→ge (suc n) _ large),
    omega arith,
    omega (arith, length-le_bytes 8 (suc n)),
  )
]

-- An encoder that owns its buffer writes any 64-bit number in 1 to 9 bytes, as long as nine more
-- bytes stay within `MAX_LENGTH`.
pub var_u64_fits :
    (num : ℕ) (e : Encoder)
    → num < 2 ^ 64
    → e.resizable ≡ true
    → length e.written + 9 ≤ max_length
    → (e' : Encoder) × (put_var_u64 num e ≡ ok e')
      × (length e.written < length e'.written)
      × (length e'.written ≤ length e.written + 9)
var_u64_fits num e w r h =
    let (bs, form, some, few) = put_var_u64-form num w in
    let (e', done, grown) = put-fits bs e r (omega arith) in
    (e', form e ∙ done, omega arith, omega arith)
