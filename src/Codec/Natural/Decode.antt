-- ===== src/Codec/Natural/Decode.antt =====
-- What `varU64` and `varU32` read.
use typeberry.Base.{
  ℕ, zero, suc, ◌+◌, ◌-◌, ◌*◌, ◌^◌, ◌<◌, ◌≤◌, ◌≡◌, false, refl, ap, ◌∙◌, arith, List, [], ◌∷◌, ◌++◌,
  length, All, ◌==◌, if◌then◌else◌, bit_or, append_assoc, length-append, get_or-append,
}
use typeberry.Base.Bits.{bit_or_gap}
use typeberry.Codec.Outcome.{ok}
use typeberry.Codec.Words.{
  le_bytes, le_value, IsByte, byte_pow, length-le_bytes, le_bytes-IsByte, le_value-le_bytes,
}
use typeberry.Codec.Decoder.{
  pure, ensure_has_bytes, advance, consume, extra_bytes, peek, first_byte, top_part, or_bytes,
  var_u64_rest, get_var_u64,
}
use typeberry.Codec.Stream.{
  Reads, subst-Reads, bind-Reads, pure-Reads, consume-length-Reads, bind-ok, ensure-ok, at,
}

-- The first byte tells the number of extra bytes and the top part of the number.
pub first-extra :
    (l q : ℕ)
    → l ≤ 7
    → q < 2 ^ (7 - l)
    → (extra_bytes (2 ^ 8 - 2 ^ (8 - l) + q) ≡ l) × (top_part l (2 ^ 8 - 2 ^ (8 - l) + q) ≡ q)
unfolding extra_bytes
first-extra zero q p h = ground arith
first-extra (suc zero) q p h = ground arith
first-extra (suc (suc zero)) q p h = ground arith
first-extra (suc (suc (suc zero))) q p h = ground arith
first-extra (suc (suc (suc (suc zero)))) q p h = ground arith
first-extra (suc (suc (suc (suc (suc zero))))) q p h = ground arith
first-extra (suc (suc (suc (suc (suc (suc zero)))))) q p h = ground arith
first-extra (suc (suc (suc (suc (suc (suc (suc zero))))))) q p h = ground arith
first-extra (suc (suc (suc (suc (suc (suc (suc (suc l)))))))) q p h = absurd (omega arith)

-- The loop fills the gap below `a` with the bytes, lowest first.
pub or_bytes_lem :
    (bs : List ℕ) (i a low : ℕ)
    → All IsByte bs
    → low < 2 ^ (8 * i)
    → or_bytes bs i (a * 2 ^ (8 * length bs) * 2 ^ (8 * i) + low)
      ≡ a * 2 ^ (8 * length bs) * 2 ^ (8 * i) + (le_value bs * 2 ^ (8 * i) + low)
unfolding or_bytes le_value
or_bytes_lem [] i a low hb hl = omega arith
or_bytes_lem (b ∷ bs) i a low hb hl =
    ap (λ x. or_bytes bs (suc i) (bit_or x (b * 2 ^ (8 * i)))) widen
    ∙ ap (or_bytes bs (suc i)) (bit_or_gap (8 * i) (a * 2 ^ (8 * length bs)) b low hb.0 hl ∙ next)
    ∙ or_bytes_lem bs (suc i) a (b * 2 ^ (8 * i) + low) hb.1 fits
    ∙ rw (byte_pow i, byte_pow (length bs)) (omega arith)
  where
    widen :
        a * 2 ^ (8 * suc (length bs)) * 2 ^ (8 * i) + low
        ≡ a * 2 ^ (8 * length bs) * 256 * 2 ^ (8 * i) + low
    widen = rw (byte_pow (length bs)) (omega arith)

    next :
        a * 2 ^ (8 * length bs) * 256 * 2 ^ (8 * i) + (b * 2 ^ (8 * i) + low)
        ≡ a * 2 ^ (8 * length bs) * 2 ^ (8 * suc i) + (b * 2 ^ (8 * i) + low)
    next = rw (byte_pow i) (omega arith)

    fits : b * 2 ^ (8 * i) + low < 2 ^ (8 * suc i)
    fits = rw (byte_pow i) (grind arith)

or_bytes_top :
    (bs : List ℕ) (a : ℕ)
    → All IsByte bs
    → or_bytes bs 0 (a * 2 ^ (8 * length bs)) ≡ a * 2 ^ (8 * length bs) + le_value bs
or_bytes_top bs a hb =
    ap (or_bytes bs 0) (omega arith) ∙ or_bytes_lem bs 0 a 0 hb (omega arith) ∙ omega arith

or_bytes-le_bytes :
    (n a r : ℕ)
    → r < 2 ^ (8 * n)
    → or_bytes (le_bytes n r) 0 (a * 2 ^ (8 * n)) ≡ a * 2 ^ (8 * n) + r
or_bytes-le_bytes n a r h =
    rw (length-le_bytes n r, le_value-le_bytes n r h) at
      (or_bytes_top (le_bytes n r) a (le_bytes-IsByte n r))

pub first_byte-at :
    (b : ℕ) (pre rest : List ℕ) → first_byte (at pre (b ∷ rest)) ≡ ok (b, at (pre ++ (b ∷ [])) rest)
unfolding first_byte peek advance
first_byte-at b pre rest =
    bind-ok (ensure_has_bytes 1) _ (ensure-ok 1 (at pre (b ∷ rest)) room)
    ∙ rw (get_or-append pre b rest 0, append_assoc pre (b ∷ []) rest, length-append pre (b ∷ []))
  where
    room : length pre + 1 ≤ length (pre ++ (b ∷ rest))
    room = omega (arith, length-append pre (b ∷ rest))

var_u64_rest-Reads :
    (l q first r : ℕ)
    → l ≤ 7
    → top_part l first ≡ q
    → r < 2 ^ (8 * l)
    → Reads (var_u64_rest first l) (le_bytes l r) (q * 2 ^ (8 * l) + r)
unfolding var_u64_rest le_bytes
var_u64_rest-Reads zero q first r p ht hr pre rest =
    subst-Reads (pure first) refl (omega arith) (pure-Reads first) pre rest
var_u64_rest-Reads (suc l) q first r p ht hr pre rest =
    rw (nonzero, var_u64_rest)
      (bind-ok (consume (suc l)) _
          (consume-length-Reads (suc l) (le_bytes (suc l) r) (length-le_bytes (suc l) r) pre rest)
        ∙ ap (λ x. ok (x, at (pre ++ le_bytes (suc l) r) rest)) value)
  where
    nonzero : (suc l == 0) ≡ false
    nonzero = ground arith

    not_eight : (suc l == 8) ≡ false
    not_eight = ground arith

    value :
        (if suc l == 8
          then le_value (le_bytes (suc l) r)
          else or_bytes (le_bytes (suc l) r) 0 (top_part (suc l) first * 2 ^ (8 * suc l)))
        ≡ q * 2 ^ (8 * suc l) + r
    value = rw (not_eight, ht) (or_bytes-le_bytes (suc l) q r hr)

-- A first byte with its extra bytes, read back as one number.
pub get_var_u64-Reads :
    (l q first r : ℕ)
    → l ≤ 7
    → extra_bytes first ≡ l
    → top_part l first ≡ q
    → r < 2 ^ (8 * l)
    → Reads get_var_u64 (first ∷ le_bytes l r) (q * 2 ^ (8 * l) + r)
unfolding get_var_u64
get_var_u64-Reads l q first r p he ht hr =
    bind-Reads first_byte _ (first ∷ []) (le_bytes l r) first (q * 2 ^ (8 * l) + r)
      (first_byte-at first) (rw he (var_u64_rest-Reads l q first r p ht hr))

-- The longest form: eight bytes behind 0xff.
pub get_var_u64-Reads_longest : (v : ℕ) → v < 2 ^ 64 → Reads get_var_u64 (0xff ∷ le_bytes 8 v) v
unfolding get_var_u64
get_var_u64-Reads_longest v h =
    bind-Reads first_byte _ (0xff ∷ []) (le_bytes 8 v) 0xff v (first_byte-at 0xff) (λ pre rest.
      unfold var_u64_rest extra_bytes in
      bind-ok (consume 8) _ (consume-length-Reads 8 (le_bytes 8 v) (length-le_bytes 8 v) pre rest)
      ∙ ap (λ x. ok (x, at (pre ++ le_bytes 8 v) rest)) (le_value-le_bytes 8 v h))
