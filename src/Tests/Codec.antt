-- ===== src/Tests/Codec.antt =====
-- Runs of the codec.
use typeberry.Base.{ℕ, ◌<◌, ◌≤◌, ◌≡◌, refl, arith, List, [], ◌∷◌, ◌++◌, length, true, false, some}
use typeberry.Base.Int.{negsuc}
use typeberry.Codec.Outcome.{ok, err, no_space, end_of_data}
use typeberry.Codec.Words.{le_bytes}
use typeberry.Codec.Encoder.{
  Encoder, Encode, create_into, put_var_u64, put_var_u32, put_blob, put_int, put_optional,
  put_sequence_var_len, prepare_integer, put_bool, put_object, put_each, put_sequence_fix_len,
  apply_size_hint, ensure_big_enough, put,
}
use typeberry.Codec.Decoder.{
  Decoder, var_u64_rest, extra_bytes, extra_bytes_loop, first_byte, peek, consume, window, advance,
  ensure_has_bytes, or_bytes, get_var_u64, get_var_u32, get_blob, get_int, get_num, get_optional,
  get_sequence_var_len,
}
use typeberry.Codec.Natural.RoundTrip.{var_u32-Codes, var_u64_round_trip, var_u32_round_trip}
use typeberry.Codec.Room.{var_u64_fits}
use typeberry.Codec.Integers.{int_round_trip}
use typeberry.Codec.Sequence.{blob_round_trip, sequence_round_trip, optional_round_trip}

-- An encoder with room for 32 bytes that has written one, and one that has written `bs` more.
abbrev start : Encoder
start = record { written = 7 ∷ []; size = 32; resizable = true }

abbrev after : List ℕ → Encoder
after bs = record { written = 7 ∷ bs; size = 32; resizable = true }

abbrev read_from : List ℕ → ℕ → Decoder
read_from bs n = record { source = 7 ∷ bs ++ (9 ∷ []); offset = n }

put_300 : put_var_u64 300 start ≡ ok (after (129 ∷ 44 ∷ []))
unfolding put_var_u64 put ensure_big_enough le_bytes
put_300 = refl

var_u64_round_trip_example :
    get_var_u64 (read_from (129 ∷ 44 ∷ []) 1) ≡ ok (300, read_from (129 ∷ 44 ∷ []) 3)
var_u64_round_trip_example =
    var_u64_round_trip 300 start (after (129 ∷ 44 ∷ [])) (9 ∷ []) (omega arith) put_300

put_70000 : put_var_u32 70000 start ≡ ok (after (193 ∷ 112 ∷ 17 ∷ []))
unfolding put_var_u32 put_var_u64 put ensure_big_enough le_bytes
put_70000 = refl

var_u32_round_trip_example :
    get_var_u32 (read_from (193 ∷ 112 ∷ 17 ∷ []) 1) ≡ ok (70000, read_from (193 ∷ 112 ∷ 17 ∷ []) 4)
var_u32_round_trip_example =
    var_u32_round_trip 70000 start (after (193 ∷ 112 ∷ 17 ∷ [])) (9 ∷ []) (omega arith) put_70000

var_u64_fits_example :
    (e' : Encoder) × (put_var_u64 300 start ≡ ok e')
    × (1 < length e'.written)
    × (length e'.written ≤ 10)
var_u64_fits_example = var_u64_fits 300 start (omega arith) refl (omega arith)

put_three : put_blob (1 ∷ 2 ∷ 3 ∷ []) start ≡ ok (after (3 ∷ 1 ∷ 2 ∷ 3 ∷ []))
unfolding put_blob put_var_u32 put_var_u64 put ensure_big_enough le_bytes
put_three = refl

blob_round_trip_example :
    get_blob (read_from (3 ∷ 1 ∷ 2 ∷ 3 ∷ []) 1)
    ≡ ok (1 ∷ 2 ∷ 3 ∷ [], read_from (3 ∷ 1 ∷ 2 ∷ 3 ∷ []) 5)
blob_round_trip_example =
    blob_round_trip (1 ∷ 2 ∷ 3 ∷ []) start (after (3 ∷ 1 ∷ 2 ∷ 3 ∷ [])) (9 ∷ []) (omega arith)
      put_three

put_minus_two : put_int 2 (negsuc 1) start ≡ ok (after (254 ∷ 255 ∷ []))
unfolding put_int prepare_integer put ensure_big_enough le_bytes
put_minus_two = refl

int_round_trip_example :
    get_int 2 (read_from (254 ∷ 255 ∷ []) 1) ≡ ok (negsuc 1, read_from (254 ∷ 255 ∷ []) 3)
int_round_trip_example =
    int_round_trip 2 (negsuc 1) start (after (254 ∷ 255 ∷ [])) (9 ∷ []) (omega arith) (omega arith)
      (omega arith) put_minus_two

-- Numbers written by `varU32`.
abbrev var_u32 : Encode ℕ
var_u32 = record { encode = put_var_u32; hint = record { bytes = 4; is_exact = false } }

put_two : put_sequence_var_len var_u32 (5 ∷ 300 ∷ []) start ≡ ok (after (2 ∷ 5 ∷ 129 ∷ 44 ∷ []))
unfolding put_sequence_var_len put_sequence_fix_len put_each apply_size_hint put_var_u32 put_var_u64
    put ensure_big_enough le_bytes
put_two = refl

sequence_round_trip_example :
    get_sequence_var_len get_var_u32 (read_from (2 ∷ 5 ∷ 129 ∷ 44 ∷ []) 1)
    ≡ ok (5 ∷ 300 ∷ [], read_from (2 ∷ 5 ∷ 129 ∷ 44 ∷ []) 5)
sequence_round_trip_example =
    sequence_round_trip var_u32 get_var_u32 (5 ∷ 300 ∷ []) start (after (2 ∷ 5 ∷ 129 ∷ 44 ∷ []))
      (9 ∷ []) (omega arith) (var_u32-Codes 5 (omega arith), (var_u32-Codes 300 (omega arith), tt))
      put_two

put_some : put_optional var_u32 (some 300) start ≡ ok (after (1 ∷ 129 ∷ 44 ∷ []))
unfolding put_optional put_object put_bool apply_size_hint put_var_u32 put_var_u64 put
    ensure_big_enough le_bytes
put_some = refl

optional_round_trip_example :
    get_optional get_var_u32 (read_from (1 ∷ 129 ∷ 44 ∷ []) 1)
    ≡ ok (some 300, read_from (1 ∷ 129 ∷ 44 ∷ []) 4)
optional_round_trip_example =
    optional_round_trip var_u32 get_var_u32 (some 300) start (after (1 ∷ 129 ∷ 44 ∷ [])) (9 ∷ [])
      (λ t e. let same : 300 ≡ t = cc in var_u32-Codes t (omega arith)) put_some

-- An encoder into a given destination does not write past it.
put_full : put_var_u64 300 (create_into 1) ≡ err no_space
unfolding put_var_u64 put ensure_big_enough le_bytes create_into
put_full = refl

get_cut : get_var_u64 (record { source = 129 ∷ []; offset = 0 }) ≡ err end_of_data
unfolding get_var_u64 var_u64_rest extra_bytes extra_bytes_loop first_byte peek consume window
    advance ensure_has_bytes get_num or_bytes
get_cut = refl
