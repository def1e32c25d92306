-- ===== src/Codec/Sequence.antt =====
-- Booleans, blobs, optional values and sequences, written and read back.
use typeberry.Base.{
  ℕ, ◌*◌, ◌^◌, ◌<◌, ◌≡◌, refl, sym, ap, ◌∙◌, arith, List, [], ◌∷◌, ◌++◌, length, leb, le→leb, Bool,
  true, false, All, append-nil, Option, none, some,
}
use typeberry.Codec.Outcome
use typeberry.Codec.Outcome.{Outcome, ok, err, bind-eq-ok, check, ok-injective}
use typeberry.Codec.Words.{le_bytes}
use typeberry.Codec.Encoder.{
  Encoder, Encode, put, put_bool, put_blob, put_optional, put_each, apply_size_hint, put_object,
  put_sequence_fix_len, put_sequence_var_len, put_var_u32,
}
use typeberry.Codec.Decoder.{
  Decode, ◌>>=◌, pure, consume, get_num, get_bool, get_blob, get_optional, get_sequence_fix_len,
  get_sequence_var_len, get_var_u32,
}
use typeberry.Codec.Stream.{
  Writes, Codes, Codes-RoundTrips, put-Writes, bind-Writes, bind-Codes, pure-Reads, consume-Reads,
  get_num-Reads, ensure-written, bind-ok,
}
use typeberry.Codec.Natural.RoundTrip.{var_u32-Codes}
use typeberry.Codec.Integers.{check-eq-ok}

put_blob-Codes : (bs : List ℕ) → length bs < 2 ^ 32 → Codes (put_blob bs) get_blob bs
put_blob-Codes bs h =
    let codes : Codes (λ e. Outcome.◌>>=◌ (put_var_u32 (length bs) e) (put bs))
        (get_var_u32 >>= consume) bs =
      bind-Codes (put_var_u32 (length bs)) (put bs) get_var_u32 consume (length bs) bs
        (var_u32-Codes (length bs) h) (bs, put-Writes bs, consume-Reads bs) in
    unfold put_blob get_blob in codes

bool-Codes : (b : Bool) → Codes (put_bool b) get_bool b
bool-Codes true = (
  1 ∷ [],
  (λ e e' h. put-Writes (1 ∷ []) e e' (unfold put_bool in h)),
  λ pre rest.
      unfold get_bool le_bytes in bind-ok (get_num 1) _ (get_num-Reads 1 1 (omega arith) pre rest),
)
bool-Codes false = (
  0 ∷ [],
  (λ e e' h. put-Writes (0 ∷ []) e e' (unfold put_bool in h)),
  λ pre rest.
      unfold get_bool le_bytes in bind-ok (get_num 1) _ (get_num-Reads 1 0 (omega arith) pre rest),
)

pure-Codes {ℓ} : {A : Type ℓ} (a : A) → Codes ok (pure a) a
pure-Codes a = (
  [],
  (λ e e' h. ap (λ (x : Encoder). x.written) (sym (ok-injective h)) ∙ sym (append-nil e.written)),
  pure-Reads a,
)

map-Codes {ℓ κ} :
    {A : Type ℓ} {B : Type κ} (w : Encoder → Outcome Encoder) (m : Decode A) (f : A → B) (a : A)
    → Codes w m a
    → Codes w (m >>= λ x. pure (f x)) (f a)
map-Codes w m f a (bs, hw, hm) = (bs, hw, λ pre rest. bind-ok m _ (hm pre rest))

checked-Codes {ℓ} :
    {A : Type ℓ} (b : Bool) (w : Encoder → Outcome Encoder) (m : Decode A) (a : A)
    → b ≡ true
    → Codes w m a
    → Codes (λ e. Outcome.◌>>◌ (check b) (w e)) m a
checked-Codes b w m a h (bs, hw, hm) = (bs, (λ e e' done. hw e e' (check-eq-ok b (w e) done)), hm)

-- Writing nothing first changes nothing.
hinted-Codes {ℓ} :
    {A : Type ℓ} (u w : Encoder → Outcome Encoder) (m : Decode A) (a : A)
    → Writes u []
    → Codes w m a
    → Codes (λ e. Outcome.◌>>=◌ (u e) w) m a
hinted-Codes u w m a hu (bs, hw, hm) = (bs, bind-Writes u w [] bs hu hw, hm)

module _ {T : Type 0} (enc : Encode T) where
  apply_size_hint-Writes : (k : ℕ) → Writes (apply_size_hint enc k) []
  unfolding apply_size_hint
  apply_size_hint-Writes k e e' h =
      ground (arith, ensure-written (enc.hint.bytes * k) true e e', append-nil e.written)

-- A pair of an `Encode` and a decoding method that agree, value by value.
module _ {T : Type 0} (enc : Encode T) (dec : Decode T) where
  put_each-Codes :
      (ts : List T)
      → All (λ t. Codes (enc.encode t) dec t) ts
      → Codes (put_each enc ts) (get_sequence_fix_len dec (length ts)) ts
  unfolding put_each get_sequence_fix_len
  put_each-Codes [] h = pure-Codes []
  put_each-Codes (t ∷ ts) h =
      bind-Codes (enc.encode t) (put_each enc ts) dec
        (λ t'. get_sequence_fix_len dec (length ts) >>= λ ts'. pure (t' ∷ ts')) t (t ∷ ts) h.0
        (map-Codes (put_each enc ts) (get_sequence_fix_len dec (length ts)) (◌∷◌ t) ts
          (put_each-Codes ts h.1))

  sequence_fix_len-Codes :
      (ts : List T)
      → All (λ t. Codes (enc.encode t) dec t) ts
      → Codes (put_sequence_fix_len enc ts) (get_sequence_fix_len dec (length ts)) ts
  unfolding put_sequence_fix_len
  sequence_fix_len-Codes ts h =
      hinted-Codes (apply_size_hint enc (length ts)) (put_each enc ts)
        (get_sequence_fix_len dec (length ts)) ts (apply_size_hint-Writes enc (length ts))
        (put_each-Codes ts h)

  sequence-Codes :
      (ts : List T)
      → length ts < 2 ^ 32
      → All (λ t. Codes (enc.encode t) dec t) ts
      → Codes (put_sequence_var_len enc ts) (get_sequence_var_len dec) ts
  unfolding put_sequence_var_len get_sequence_var_len
  sequence-Codes ts small h =
      checked-Codes (leb (length ts) (2 ^ 32))
        (λ e. Outcome.◌>>=◌ (put_var_u32 (length ts) e) (put_sequence_fix_len enc ts))
        (get_var_u32 >>= get_sequence_fix_len dec) ts (le→leb (length ts) _ (omega arith))
        (bind-Codes (put_var_u32 (length ts)) (put_sequence_fix_len enc ts) get_var_u32
          (get_sequence_fix_len dec) (length ts) ts (var_u32-Codes (length ts) small)
          (sequence_fix_len-Codes ts h))

  some-Codes :
      (t : T)
      → Codes (enc.encode t) dec t
      → Codes (put_optional enc (some t)) (get_optional dec) (some t)
  unfolding put_optional get_optional put_object
  some-Codes t h =
      bind-Codes (put_bool true) (put_object enc t) get_bool _ true (some t) (bool-Codes true) (
        map-Codes (put_object enc t) dec some t (
          hinted-Codes (apply_size_hint enc 1) (enc.encode t) dec t (apply_size_hint-Writes enc 1)
            h))

  none-Codes : Codes (put_optional enc none) (get_optional dec) none
  unfolding put_optional get_optional
  none-Codes =
      let (bs, hw, hm) = bool-Codes false in (bs, hw, λ pre rest. bind-ok get_bool _ (hm pre rest))

  -- A sequence of fewer than 2 ^ 32 elements, for each of which the encoder appends bytes that the
  -- decoder reads as it, is read back whole, and the decoder stops where the encoder stopped.
  pub sequence_round_trip :
      (ts : List T) (e e' : Encoder) (rest : List ℕ)
      → length ts < 2 ^ 32
      → All (λ t. Codes (enc.encode t) dec t) ts
      → put_sequence_var_len enc ts e ≡ ok e'
      → get_sequence_var_len dec (record { source = e'.written ++ rest; offset = length e.written })
        ≡ ok (ts, record { source = e'.written ++ rest; offset = length e'.written })
  sequence_round_trip ts e e' rest small h =
      Codes-RoundTrips (put_sequence_var_len enc ts) (get_sequence_var_len dec) ts
        (sequence-Codes ts small h) e e' rest

  -- An optional value, absent or one for which the encoder appends bytes that the decoder reads as
  -- it, is read back, and the decoder stops where the encoder stopped.
  pub optional_round_trip :
      (o : Option T) (e e' : Encoder) (rest : List ℕ)
      → ((t : T) → o ≡ some t → Codes (enc.encode t) dec t)
      → put_optional enc o e ≡ ok e'
      → get_optional dec (record { source = e'.written ++ rest; offset = length e.written })
        ≡ ok (o, record { source = e'.written ++ rest; offset = length e'.written })
  optional_round_trip none e e' rest h =
      Codes-RoundTrips (put_optional enc none) (get_optional dec) none none-Codes e e' rest
  optional_round_trip (some t) e e' rest h =
      Codes-RoundTrips (put_optional enc (some t)) (get_optional dec) (some t)
        (some-Codes t (h t refl)) e e' rest

-- A blob of fewer than 2 ^ 32 bytes is read back, and the decoder stops where the encoder stopped.
pub blob_round_trip :
    (bs : List ℕ) (e e' : Encoder) (rest : List ℕ)
    → length bs < 2 ^ 32
    → put_blob bs e ≡ ok e'
    → get_blob (record { source = e'.written ++ rest; offset = length e.written })
      ≡ ok (bs, record { source = e'.written ++ rest; offset = length e'.written })
blob_round_trip bs e e' rest h =
    Codes-RoundTrips (put_blob bs) get_blob bs (put_blob-Codes bs h) e e' rest
