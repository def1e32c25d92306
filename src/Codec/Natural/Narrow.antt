-- ===== src/Codec/Natural/Narrow.antt =====
-- What `varU32` reads: the same encoding, up to four extra bytes.
use typeberry.Base.{
  ℕ, zero, suc, ◌+◌, ◌*◌, ◌/◌, ◌%◌, ◌^◌, ◌<◌, ◌≤◌, ◌≡◌, refl, ap, ◌∙◌, arith, List, [], ◌∷◌, ◌++◌,
  length, take, drop, bit_or,
}
use typeberry.Base.Bits.{bit_or-low}
use typeberry.Codec.Outcome.{ok}
use typeberry.Codec.Words.{le_bytes, le_value, length-le_bytes}
use typeberry.Codec.Decoder.{
  Decode, ◌>>=◌, ◌>>◌, pure, get_num, get_u24, get_var_u32, var_u32_rest, ensure_has_bytes, consume,
  extra_bytes, first_byte, top_part,
}
use typeberry.Codec.Stream.{
  Reads, subst-Reads, bind-Reads, pure-Reads, consume-length-Reads, bind-ok, ensure-ok, at, room-at,
  get_num-Reads,
}
use typeberry.Codec.Natural.Decode.{first_byte-at}

ensured-Reads :
    {A : Type 0} (n : ℕ) (m : Decode A) (bs : List ℕ) (a : A)
    → length bs ≡ n
    → Reads m bs a
    → Reads (ensure_has_bytes n >> m) bs a
ensured-Reads n m bs a e h pre rest =
    bind-ok (ensure_has_bytes n) _
      (ensure-ok n (at pre (bs ++ rest)) (omega (arith, room-at pre bs rest)))
    ∙ h pre rest

add-Reads :
    (n most r : ℕ)
    → r < 2 ^ (8 * n)
    → Reads (get_num n >>= λ v. pure (most + v)) (le_bytes n r) (most + r)
add-Reads n most r h pre rest = bind-ok (get_num n) _ (get_num-Reads n r h pre rest)

u24_value :
    (v : ℕ)
    → v < 2 ^ 24
    → bit_or (le_value (take 1 (le_bytes 3 v))) (le_value (drop 1 (le_bytes 3 v)) * 2 ^ 8) ≡ v
unfolding le_bytes le_value
u24_value v h = ground (arith, bit_or-low 8 (v / 256 % 256 + 256 * (v / 256 / 256 % 256)) (v % 256))

pub get_u24-Reads : (v : ℕ) → v < 2 ^ 24 → Reads get_u24 (le_bytes 3 v) v
unfolding get_u24
get_u24-Reads v h pre rest =
    bind-ok (consume 3) _ (consume-length-Reads 3 (le_bytes 3 v) (length-le_bytes 3 v) pre rest)
    ∙ ap (λ x. ok (x, at (pre ++ le_bytes 3 v) rest)) (u24_value v h)

add_u24-Reads :
    (most r : ℕ) → r < 2 ^ 24 → Reads (get_u24 >>= λ v. pure (most + v)) (le_bytes 3 r) (most + r)
add_u24-Reads most r h pre rest = bind-ok get_u24 _ (get_u24-Reads r h pre rest)

var_u32_rest-Reads :
    (l q first r : ℕ)
    → l ≤ 4
    → top_part l first ≡ q
    → r < 2 ^ (8 * l)
    → q * 2 ^ (8 * l) + r < 2 ^ 32
    → Reads (var_u32_rest first l) (le_bytes l r) (q * 2 ^ (8 * l) + r)
unfolding var_u32_rest
var_u32_rest-Reads zero q first r p ht hr hv =
    unfold le_bytes in subst-Reads (pure first) refl (omega arith) (pure-Reads first)
var_u32_rest-Reads (suc zero) q first r p ht hr hv =
    ensured-Reads 1 _ (le_bytes 1 r) _ (length-le_bytes 1 r) (
      rw ht (
        subst-Reads (get_num 1 >>= λ v. pure (q * 2 ^ 8 % 2 ^ 32 + v)) refl (omega arith)
          (add-Reads 1 (q * 2 ^ 8 % 2 ^ 32) r hr)))
var_u32_rest-Reads (suc (suc zero)) q first r p ht hr hv =
    ensured-Reads 2 _ (le_bytes 2 r) _ (length-le_bytes 2 r) (
      rw ht (
        subst-Reads (get_num 2 >>= λ v. pure (q * 2 ^ 16 % 2 ^ 32 + v)) refl (omega arith)
          (add-Reads 2 (q * 2 ^ 16 % 2 ^ 32) r hr)))
var_u32_rest-Reads (suc (suc (suc zero))) q first r p ht hr hv =
    ensured-Reads 3 _ (le_bytes 3 r) _ (length-le_bytes 3 r) (
      rw ht (
        subst-Reads (get_u24 >>= λ v. pure (q * 2 ^ 24 % 2 ^ 32 + v)) refl (omega arith)
          (add_u24-Reads (q * 2 ^ 24 % 2 ^ 32) r hr)))
var_u32_rest-Reads (suc (suc (suc (suc zero)))) q first r p ht hr hv =
    ensured-Reads 4 _ (le_bytes 4 r) _ (length-le_bytes 4 r) (
      let none : q ≡ 0 = omega arith in
      rw (ht, none) (subst-Reads (get_num 4) refl (omega arith) (get_num-Reads 4 r hr)))
var_u32_rest-Reads (suc (suc (suc (suc (suc l))))) q first r p ht hr hv = absurd (omega arith)

-- A first byte with its extra bytes, read back as one number that fits 32 bits.
pub get_var_u32-Reads :
    (l q first r : ℕ)
    → l ≤ 4
    → extra_bytes first ≡ l
    → top_part l first ≡ q
    → r < 2 ^ (8 * l)
    → q * 2 ^ (8 * l) + r < 2 ^ 32
    → Reads get_var_u32 (first ∷ le_bytes l r) (q * 2 ^ (8 * l) + r)
unfolding get_var_u32
get_var_u32-Reads l q first r p he ht hr hv =
    bind-Reads first_byte _ (first ∷ []) (le_bytes l r) first (q * 2 ^ (8 * l) + r)
      (first_byte-at first) (rw he (var_u32_rest-Reads l q first r p ht hr hv))
