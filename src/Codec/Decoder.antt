-- ===== src/Codec/Decoder.antt =====
-- decoder.ts: reading from a source behind an offset. A decoding method takes the decoder to its
-- result and the decoder with the offset moved; a thrown error ends the decoding.
use typeberry.Base.{
  ℕ, zero, suc, ◌+◌, ◌-◌, ◌*◌, ◌/◌, ◌%◌, ◌^◌, Bool, true, false, Option, none, some, List, [], ◌∷◌,
  length, take, drop, get_or, ltb, leb, ◌==◌, ◌&&◌, if◌then◌else◌, bit_or,
}
use typeberry.Base.Int.{ℤ, signed}
use typeberry.Codec.Outcome.{
  Outcome, CodecError, ok, err, end_of_data, not_a_boolean, too_large_for_u32, nonzero_padding,
  trailing_bytes,
}
use typeberry.Codec.Words.{le_value}

pub record Decoder : Type 0 where
  pub source : List ℕ
  pub offset : ℕ

abbrev pub Decode {ℓ} : Type ℓ → Type ℓ
Decode A = Decoder → Outcome (A × Decoder)

infixl 5 ◌>>=◌ ◌>>◌
abbrev pub ◌>>=◌ {ℓ κ} : {A : Type ℓ} {B : Type κ} → Decode A → (A → Decode B) → Decode B
◌>>=◌ m f d = elim (m d) [ ok (a, d') ↦ f a d' | err e ↦ err e ]

abbrev pub ◌>>◌ {ℓ} : {B : Type ℓ} → Decode (Unit {0}) → Decode B → Decode B
m >> k = m >>= λ _. k

abbrev pub pure {ℓ} : {A : Type ℓ} → A → Decode A
pure a d = ok (a, d)

abbrev pub throw {ℓ} : {A : Type ℓ} → CodecError → Decode A
throw e d = err e

unfoldable pub ensure_has_bytes : ℕ → Decode (Unit {0})
ensure_has_bytes n d = if ltb (length d.source) (d.offset + n) then err end_of_data else ok (tt, d)

unfoldable pub advance : ℕ → Decode (Unit {0})
advance n d = ok (tt, record d { offset = d.offset + n })

-- `source.subarray(offset, offset + n)`
unfoldable pub window : ℕ → Decode (List ℕ)
window n d = ok (take n (drop d.offset d.source), d)

-- What every read does: check, look, move.
unfoldable pub consume : ℕ → Decode (List ℕ)
consume n = do ensure_has_bytes n; bs ← window n; advance n; pure bs

-- `bytes(len)`; for `len = 0` it does not look at the source.
unfoldable pub get_bytes : ℕ → Decode (List ℕ)
get_bytes len = if len == 0 then pure [] else consume len

-- `DataView.getUint*` behind `getNum`.
unfoldable pub get_num : ℕ → Decode ℕ
get_num n = do bs ← consume n; pure (le_value bs)

unfoldable pub get_int : ℕ → Decode ℤ
get_int n = do w ← get_num n; pure (signed (2 ^ (8 * n) / 2) w)

unfoldable pub get_u24 : Decode ℕ
get_u24 = do bs ← consume 3; pure (bit_or (le_value (take 1 bs)) (le_value (drop 1 bs) * 2 ^ 8))

unfoldable pub get_i24 : Decode ℤ
get_i24 = do w ← get_u24; pure (signed (2 ^ 23) w)

unfoldable pub get_bool : Decode Bool
get_bool = do
  num ← get_num 1
  if num == 0 then pure false else if num == 1 then pure true else throw not_a_boolean

-- `for (let i = 0; i < MASKS.length; i++)`
unfoldable pub extra_bytes_loop : List ℕ → ℕ → ℕ → ℕ
extra_bytes_loop [] i first = 0
extra_bytes_loop (mask ∷ masks) i first =
    let rest = extra_bytes_loop masks (suc i) first in if leb mask first then 8 - i else rest

abbrev pub masks : List ℕ
masks = 0xff ∷ 0xfe ∷ 0xfc ∷ 0xf8 ∷ 0xf0 ∷ 0xe0 ∷ 0xc0 ∷ 0x80 ∷ []

-- `decodeVariableLengthExtraBytes`; a byte of the source is in range.
unfoldable pub extra_bytes : ℕ → ℕ
unfolding extra_bytes_loop
extra_bytes first = extra_bytes_loop masks 0 first

-- `source[offset]`, behind `ensureHasBytes(1)`.
unfoldable pub peek : Decode ℕ
peek d = ok (get_or d.source d.offset 0, d)

unfoldable pub first_byte : Decode ℕ
unfolding peek
first_byte = do ensure_has_bytes 1; b ← peek; advance 1; pure b

-- `firstByte + 2 ** (8 - l) - 2 ** 8`, which is not negative where `l` came from `firstByte`.
abbrev pub top_part : ℕ → ℕ → ℕ
top_part l first = first + 2 ^ (8 - l) - 2 ^ 8

-- For `l = 4` JavaScript shifts by `32 % 32`.
abbrev pub shift_left_32 : ℕ → ℕ → ℕ
shift_left_32 v k = v * 2 ^ (k % 32) % 2 ^ 32

unfoldable pub var_u32_tail : ℕ → ℕ → Decode ℕ
var_u32_tail l most =
    if l == 1
    then (do v ← get_num 1; pure (most + v))
    else if l == 2
    then (do v ← get_num 2; pure (most + v))
    else if l == 3
    then (do v ← get_u24; pure (most + v))
    else if most == 0
    then get_num 4
    else throw too_large_for_u32

unfoldable pub var_u32_rest : ℕ → ℕ → Decode ℕ
unfolding var_u32_tail
var_u32_rest first l =
    if l == 0
    then pure first
    else if ltb 4 l
    then throw too_large_for_u32
    else (do ensure_has_bytes l; var_u32_tail l (shift_left_32 (top_part l first) (l * 8)))

unfoldable pub get_var_u32 : Decode ℕ
unfolding first_byte var_u32_rest
get_var_u32 = do first ← first_byte; var_u32_rest first (extra_bytes first)

-- `num |= BigInt(source[offset - l + i]) << BigInt(8 * i)`
unfoldable pub or_bytes : List ℕ → ℕ → ℕ → ℕ
or_bytes [] i num = num
or_bytes (b ∷ bs) i num = or_bytes bs (suc i) (bit_or num (b * 2 ^ (8 * i)))

unfoldable pub var_u64_rest : ℕ → ℕ → Decode ℕ
unfolding or_bytes
var_u64_rest first l = if l == 0 then pure first else (do
  bs ← consume l
  pure (if l == 8 then le_value bs else or_bytes bs 0 (top_part l first * 2 ^ (8 * l))))

unfoldable pub get_var_u64 : Decode ℕ
unfolding first_byte var_u64_rest
get_var_u64 = do first ← first_byte; var_u64_rest first (extra_bytes first)

unfoldable pub get_blob : Decode (List ℕ)
get_blob = do len ← get_var_u32; consume len

pub record BitVec : Type 0 where
  pub raw : List ℕ
  pub bit_length : ℕ

-- The bits behind the last one have to be zero.
check_padding : ℕ → List ℕ → Decode (Unit {0})
check_padding bit_length bs =
    if ltb 0 (bit_length % 8)
      && ltb 0 (get_or bs ((bit_length + 7) / 8 - 1) 0 / 2 ^ (bit_length % 8))
    then throw nonzero_padding
    else pure tt

unfoldable pub get_bit_vec_fix_len : ℕ → Decode BitVec
unfolding check_padding
get_bit_vec_fix_len bit_length =
    if bit_length == 0 then pure (record { raw = []; bit_length = 0 }) else (do
      bs ← get_bytes ((bit_length + 7) / 8)
      check_padding bit_length bs
      pure (record { raw = bs; bit_length = bit_length }))

unfoldable pub get_bit_vec_var_len : Decode BitVec
get_bit_vec_var_len = do len ← get_var_u32; get_bit_vec_fix_len len

unfoldable pub skip : ℕ → Decode (Unit {0})
skip n = do ensure_has_bytes n; advance n

unfoldable pub reset_to : ℕ → Decode (Unit {0})
reset_to new_offset d =
    if ltb d.offset new_offset
    then skip (new_offset - d.offset) d
    else ok (tt, record d { offset = new_offset })

unfoldable pub finish : Decode (Unit {0})
finish d = if ltb d.offset (length d.source) then err trailing_bytes else ok (tt, d)

module _ {ℓ} {T : Type ℓ} (decode : Decode T) where
  unfoldable pub get_optional : Decode (Option T)
  get_optional = do is_set ← get_bool; if is_set then (do t ← decode; pure (some t)) else pure none

  unfoldable pub get_sequence_fix_len : ℕ → Decode (List T)
  get_sequence_fix_len zero = pure []
  get_sequence_fix_len (suc n) = do t ← decode; ts ← get_sequence_fix_len n; pure (t ∷ ts)

  unfoldable pub get_sequence_var_len : Decode (List T)
  get_sequence_var_len = do len ← get_var_u32; get_sequence_fix_len len

  -- `Decoder.decodeObject`: all of the source has to be used.
  unfoldable pub decode_object : List ℕ → Outcome (T × Decoder)
  decode_object source = (do t ← decode; finish; pure t) (record { source = source; offset = 0 })
