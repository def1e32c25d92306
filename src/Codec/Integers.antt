-- ===== src/Codec/Integers.antt =====
-- Signed integers, written and read back.
use typeberry.Base.{
  ℕ, zero, suc, ◌*◌, ◌/◌, ◌%◌, ◌^◌, ◌<◌, ◌≤◌, ◌≡◌, refl, sym, ap, ◌∙◌, arith, List, [], ◌++◌,
  length, ltb, leb, Bool, true, false, append-nil,
}
use typeberry.Base.Int.{ℤ, pos, negsuc, pos_part, neg_part, wrap, signed}
use typeberry.Codec.Outcome
use typeberry.Codec.Outcome.{Outcome, ok, err, bind-eq-ok, check, ok-injective}
use typeberry.Codec.Words.{le_bytes, byte_pow}
use typeberry.Codec.Encoder.{Encoder, ensure_big_enough, prepare_integer, put_int}
use typeberry.Codec.Decoder.{get_num, get_int}
use typeberry.Codec.Stream.{
  Writes, Reads, get_num-Reads, Reads-RoundTrips, ensure-written, bind-ok, at,
}
use native.Mathlib.Nat.{one-le-pow}

wrap-lt : (m : ℕ) (num : ℤ) → 0 < m → wrap m num < m
wrap-lt m (pos n) h = grind arith
wrap-lt m (negsuc n) h = omega arith

-- Two's complement loses nothing in the signed range.
signed-wrap :
    (k : ℕ) (num : ℤ) → pos_part num < k → neg_part num ≤ k → signed k (wrap (2 * k) num) ≡ num
signed-wrap k (pos n) h g = rw (small) (ground arith)
  where
    small : n % (2 * k) ≡ n
    small = grind arith
signed-wrap k (negsuc n) h g = rw (small) (ground arith)
  where
    small : n % (2 * k) ≡ n
    small = grind arith

ensure-Writes : (n : ℕ) (silent : Bool) → Writes (λ e. ensure_big_enough e n silent) []
ensure-Writes n silent e e' h = ensure-written n silent e e' h ∙ sym (append-nil e.written)

check-ok : (b : Bool) → check b ≡ ok tt → b ≡ true
check-ok true h = refl
check-ok false h = cc

pub check-eq-ok {ℓ} :
    {A : Type ℓ} (b : Bool) (m : Outcome A) {a : A} → Outcome.◌>>◌ (check b) m ≡ ok a → m ≡ ok a
check-eq-ok true m h = h
check-eq-ok false m h = cc

put_int-Writes : (n : ℕ) (num : ℤ) → Writes (put_int n num) (le_bytes n (wrap (2 ^ (8 * n)) num))
unfolding put_int
put_int-Writes n num e e' h =
    let (e₁, ready, done) = bind-eq-ok (prepare_integer n num e) _ h in
    let same : e₁.written ≡ e.written = ensure-written n false e e₁ (
      check-eq-ok (leb (neg_part num) (2 ^ (8 * n) / 2)) _
        (check-eq-ok (ltb (pos_part num) (2 ^ (8 * n))) _ ready)) in
    ap (λ (x : Encoder). x.written) (sym (ok-injective done))
    ∙ ap (λ (x : List ℕ). x ++ le_bytes n (wrap (2 ^ (8 * n)) num)) same

-- What `i8`, `i16`, `i32` and `i64` of the encoder wrote is read back by the decoder's signed
-- method of that size if the number is in the signed range.
pub int_round_trip :
    (n : ℕ) (num : ℤ) (e e' : Encoder) (rest : List ℕ)
    → 0 < n
    → pos_part num < 2 ^ (8 * n) / 2
    → neg_part num ≤ 2 ^ (8 * n) / 2
    → put_int n num e ≡ ok e'
    → get_int n (record { source = e'.written ++ rest; offset = length e.written })
      ≡ ok (num, record { source = e'.written ++ rest; offset = length e'.written })
int_round_trip (suc n) num e e' rest p h g =
    Reads-RoundTrips (put_int (suc n) num) (get_int (suc n)) (le_bytes (suc n) w) num
      (put_int-Writes (suc n) num) back e e' rest
  where
    m : ℕ
    m = 2 ^ (8 * suc n)

    w : ℕ
    w = wrap m num

    even : 2 * (m / 2) ≡ m
    even = omega (arith, byte_pow n)

    value : signed (m / 2) w ≡ num
    value = ap (λ (x : ℕ). signed (m / 2) (wrap x num)) (sym even) ∙ signed-wrap (m / 2) num h g

    back : Reads (get_int (suc n)) (le_bytes (suc n) w) num
    back pre tail =
        unfold get_int in
        bind-ok (get_num (suc n)) _ (
          get_num-Reads (suc n) w
            (wrap-lt m num (omega (arith, one-le-pow (8 * suc n) 2 (omega arith)))) pre tail)
        ∙ ap (λ (x : ℤ). ok (x, at (pre ++ le_bytes (suc n) w) tail)) value
int_round_trip zero num e e' rest p h g = absurd (omega arith)
