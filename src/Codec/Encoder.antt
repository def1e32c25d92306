-- ===== src/Codec/Encoder.antt =====
-- encoder.ts: writing into a destination of bounded size.
use typeberry.Base.{
  ℕ, zero, suc, ◌+◌, ◌-◌, ◌*◌, ◌/◌, ◌%◌, ◌^◌, min, max, Bool, true, false, Option, none, some, List,
  [], ◌∷◌, ◌++◌, length, ltb, leb, ◌==◌, if◌then◌else◌,
}
use typeberry.Base.Int.{ℤ, pos_part, neg_part, wrap}
use typeberry.Codec.Outcome.{
  Outcome, ok, err, ◌>>=◌, ◌>>◌, check, max_length_reached, no_space, unhandled_number,
}
use typeberry.Codec.Words.{le_bytes}

abbrev pub max_length : ℕ
max_length = 20 * 1024 * 1024

-- `written` is `destination.subarray(0, offset)`, so `offset` is its length; `size` is the length
-- of `destination`, which can grow if the encoder owns its `buffer`.
pub record Encoder : Type 0 where
  pub written : List ℕ
  pub size : ℕ
  pub resizable : Bool

pub record SizeHint : Type 0 where
  pub bytes : ℕ
  pub is_exact : Bool

unfoldable pub add_size_hints : SizeHint → SizeHint → SizeHint
add_size_hints a b = record {
  bytes = a.bytes + b.bytes;
  is_exact = if a.is_exact then b.is_exact else false;
}

-- `Encoder.create({ expectedLength })`
unfoldable pub create : ℕ → Encoder
create expected = record { written = []; size = min max_length expected; resizable = true }

-- `Encoder.create({ destination })`
unfoldable pub create_into : ℕ → Encoder
create_into size = record { written = []; size = size; resizable = false }

grown : Encoder → ℕ → Encoder
grown e new_length =
    if e.resizable then record e { size = min max_length (max new_length (2 * e.size)) } else e

unfoldable pub ensure_big_enough : Encoder → ℕ → Bool → Outcome Encoder
unfolding grown
ensure_big_enough e len silent =
    let new_length = length e.written + len in
    if ltb max_length new_length
    then (if silent then ok e else err max_length_reached)
    else if ltb e.size new_length
    then if ltb (grown e new_length).size new_length
      then (if silent then ok (grown e new_length) else err no_space)
      else ok (grown e new_length)
    else ok e

-- Bytes stored at `offset`, which moves behind them.
abbrev pub write : Encoder → List ℕ → Encoder
write e bs = record e { written = e.written ++ bs }

unfoldable pub put : List ℕ → Encoder → Outcome Encoder
put bs e = do e' ← ensure_big_enough e (length bs) false; ok (write e' bs)

-- `prepareIntegerN`, for 1 to 4 bytes; `i64` makes the same two checks for 8.
unfoldable pub prepare_integer : ℕ → ℤ → Encoder → Outcome Encoder
prepare_integer n num e = do
  check (ltb (pos_part num) (2 ^ (8 * n)))
  check (leb (neg_part num) (2 ^ (8 * n) / 2))
  ensure_big_enough e n false

-- `i8`, `i16`, `i32`, `i64`: two's complement in `n` bytes.
unfoldable pub put_int : ℕ → ℤ → Encoder → Outcome Encoder
unfolding prepare_integer
put_int n num e = do
  e' ← prepare_integer n num e
  ok (write e' (le_bytes n (wrap (2 ^ (8 * n)) num)))

-- `i24` stores the lowest byte and then `num >> 8` as two bytes.
unfoldable pub put_i24 : ℤ → Encoder → Outcome Encoder
unfolding prepare_integer
put_i24 num e = do
  e' ← prepare_integer 3 num e
  ok (write e' (wrap (2 ^ 32) num % 256 ∷ le_bytes 2 (wrap (2 ^ 32) num / 256)))

unfoldable pub put_bool : Bool → Encoder → Outcome Encoder
put_bool b e = put ((if b then 1 else 0) ∷ []) e

-- The first byte and the `l` bytes that follow it, for `num` in the range of `l`.
abbrev pub natural_bytes : ℕ → ℕ → List ℕ
natural_bytes l num =
    ((2 ^ 8 - 2 ^ (8 - l) + num / 2 ^ (8 * l)) % 256) ∷ le_bytes l (num % 2 ^ (8 * l))

-- `for (let l = 7; l >= 0; l -= 1)`; the counter here is `l + 1`.
unfoldable pub var_u64_loop : ℕ → ℕ → ℕ → Encoder → Outcome Encoder
var_u64_loop zero num min_encoded e = err unhandled_number
var_u64_loop (suc l) num min_encoded e =
    let next = var_u64_loop l num (min_encoded / 2 ^ 7) e in
    if leb min_encoded num then put (natural_bytes l num) e else next

unfoldable pub put_var_u64 : ℕ → Encoder → Outcome Encoder
unfolding var_u64_loop
put_var_u64 num e =
    if num == 0
    then put (0 ∷ []) e
    else if leb (2 ^ (7 * 8)) num
    then put (0xff ∷ le_bytes 8 num) e
    else var_u64_loop 8 num (2 ^ (7 * 8) / 2 ^ 7) e

unfoldable pub put_var_u32 : ℕ → Encoder → Outcome Encoder
put_var_u32 num e = do check (ltb num (2 ^ 32)); put_var_u64 num e

-- `blob`: the length, then the bytes.
unfoldable pub put_blob : List ℕ → Encoder → Outcome Encoder
put_blob bs e = do e' ← put_var_u32 (length bs) e; put bs e'

-- An `Encode<T>`: the encoding function and the number of bytes that it hints at.
pub record Encode {ℓ} (T : Type ℓ) : Type ℓ where
  pub encode : T → Encoder → Outcome Encoder
  pub hint : SizeHint

module _ {ℓ} {T : Type ℓ} (enc : Encode T) where
  unfoldable pub apply_size_hint : ℕ → Encoder → Outcome Encoder
  apply_size_hint multiply e =
      if ltb 0 enc.hint.bytes
      then (if ltb 0 multiply then ensure_big_enough e (enc.hint.bytes * multiply) true else ok e)
      else ok e

  unfoldable pub put_object : T → Encoder → Outcome Encoder
  unfolding apply_size_hint
  put_object t e = do e' ← apply_size_hint 1 e; enc.encode t e'

  unfoldable pub put_optional : Option T → Encoder → Outcome Encoder
  put_optional none e = put_bool false e
  put_optional (some t) e = do e' ← put_bool true e; put_object t e'

  unfoldable pub put_each : List T → Encoder → Outcome Encoder
  put_each [] e = ok e
  put_each (t ∷ ts) e = do e' ← enc.encode t e; put_each ts e'

  unfoldable pub put_sequence_fix_len : List T → Encoder → Outcome Encoder
  unfolding apply_size_hint put_each
  put_sequence_fix_len ts e = do e' ← apply_size_hint (length ts) e; put_each ts e'

  unfoldable pub put_sequence_var_len : List T → Encoder → Outcome Encoder
  put_sequence_var_len ts e = do
    check (leb (length ts) (2 ^ 32))
    e' ← put_var_u32 (length ts) e
    put_sequence_fix_len ts e'
