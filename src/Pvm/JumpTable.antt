-- ===== src/Pvm/JumpTable.antt =====
-- program-decoder/jump-table.ts.
use typeberry.Base.{
  ℕ, zero, suc, ◌+◌, ◌-◌, ◌*◌, ◌/◌, ◌%◌, ◌^◌, ◌<◌, ◌≤◌, ◌≡◌, refl, ap, ◌∙◌, arith, Bool, false,
  Option, none, some, List, [], ◌∷◌, ◌++◌, length, take, drop, reverse, ltb, ◌==◌, ◌&&◌,
  if◌then◌else◌, bit_or, All, All-append,
}
use mathlib.Core.List.{reverse-cons}
use typeberry.Base.Bits.{bit_or-shifted}
use typeberry.Codec.Words.{le_value, IsByte}

-- `(value & 0xff00_0000) > 0` on a signed 32-bit number, given by its bit pattern: the top byte is
-- not zero and the sign bit is clear.
abbrev overflows : ℕ → Bool
overflows value = ltb 0 (value / 2 ^ 24) && ltb value (2 ^ 31)

-- The loop of `decodeNext`, over the bytes from the last to the first.
decode_loop : List ℕ → ℕ → ℕ
decode_loop [] value = value
decode_loop (b ∷ bs) value =
    let rest = decode_loop bs (bit_or (value * 2 ^ 8 % 2 ^ 32) b) in
    if overflows value then 2 ^ 32 - 1 else rest

unfoldable pub decode_next : List ℕ → ℕ
unfolding decode_loop
decode_next bytes = decode_loop (reverse bytes) 0

-- The loop of the constructor: `left` entries from index `i` on.
entries : ℕ → ℕ → ℕ → List ℕ → List ℕ
entries zero i item bytes = []
entries (suc left) i item bytes =
    decode_next (take item (drop (i * item) bytes)) ∷ entries left (suc i) item bytes

-- `JumpTable.fromRaw`: `none` where its check throws.
unfoldable pub from_raw : ℕ → List ℕ → Option (List ℕ)
unfolding entries
from_raw item bytes =
    if item == 0
    then some []
    else if length bytes % item == 0
    then some (entries (length bytes / item) 0 item bytes)
    else none

unfoldable pub has_index : List ℕ → ℕ → Bool
has_index indices i = ltb i (length indices)

shifted_in :
    (value b : ℕ) → b < 256 → bit_or (value * 2 ^ 8 % 2 ^ 32) b ≡ value * 2 ^ 8 % 2 ^ 32 + b
shifted_in value b h =
    ap (λ (x : ℕ). bit_or x b) word ∙ bit_or-shifted 8 (value % 2 ^ 24) b h ∙ omega arith
  where
    word : value * 2 ^ 8 % 2 ^ 32 ≡ value % 2 ^ 24 * 2 ^ 8
    word = omega arith

-- Most significant byte first, behind `value`.
be_value : List ℕ → ℕ → ℕ
be_value [] value = value
be_value (b ∷ bs) value = be_value bs (value * 256 + b)

be_value-ge : (bs : List ℕ) (value : ℕ) → value ≤ be_value bs value
unfolding be_value
be_value-ge [] value = omega arith
be_value-ge (b ∷ bs) value = omega (arith, be_value-ge bs (value * 256 + b))

be_value-append :
    (bs : List ℕ) (b value : ℕ) → be_value (bs ++ (b ∷ [])) value ≡ be_value bs value * 256 + b
unfolding be_value
be_value-append [] b value = refl
be_value-append (x ∷ bs) b value = be_value-append bs b (value * 256 + x)

be_value-reverse : (bs : List ℕ) → be_value (reverse bs) 0 ≡ le_value bs
unfolding le_value
be_value-reverse [] = unfold be_value in refl
be_value-reverse (b ∷ bs) =
    ap (λ x. be_value x 0) (reverse-cons b bs)
    ∙ be_value-append (reverse bs) b 0
    ∙ omega (arith, be_value-reverse bs)

loop_step :
    (b value : ℕ) (bs : List ℕ)
    → b < 256
    → value < 2 ^ 24
    → decode_loop (b ∷ bs) value ≡ decode_loop bs (value * 256 + b)
unfolding decode_loop
loop_step b value bs h small = rw (fits) (ap (decode_loop bs) (shifted_in value b h ∙ omega arith))
  where
    fits : overflows value ≡ false
    fits = ground arith

loop_value :
    (bs : List ℕ) (value : ℕ)
    → All IsByte bs
    → be_value bs value < 2 ^ 32
    → decode_loop bs value ≡ be_value bs value
unfolding be_value
loop_value [] value h small = unfold decode_loop in refl
loop_value (b ∷ bs) value h small =
    loop_step b value bs h.0 (omega (arith, be_value-ge bs (value * 256 + b)))
    ∙ loop_value bs (value * 256 + b) h.1 small

All-reverse : (bs : List ℕ) → All IsByte bs → All IsByte (reverse bs)
All-reverse [] h = h
All-reverse (b ∷ bs) h =
    rw (reverse-cons b bs) (All-append IsByte (reverse bs) (b ∷ []) (All-reverse bs h.1) (h.0, tt))

-- An entry of any number of bytes whose little-endian value fits 32 bits is decoded to that value.
pub decode_next-value :
    (bytes : List ℕ)
    → All IsByte bytes
    → le_value bytes < 2 ^ 32
    → decode_next bytes ≡ le_value bytes
unfolding decode_next
decode_next-value bytes h small =
    loop_value (reverse bytes) 0 (All-reverse bytes h) (rw (be_value-reverse bytes) small)
    ∙ be_value-reverse bytes

four_steps :
    (a b c d e : ℕ)
    → b < 256
    → c < 256
    → d < 256
    → e < 256
    → decode_loop (e ∷ d ∷ c ∷ b ∷ a ∷ []) 0
      ≡ decode_loop (a ∷ []) (((e * 256 + d) * 256 + c) * 256 + b)
four_steps a b c d e hb hc hd he =
    loop_step e 0 (d ∷ c ∷ b ∷ a ∷ []) he (omega arith)
    ∙ ap (decode_loop (d ∷ c ∷ b ∷ a ∷ [])) (omega arith)
    ∙ loop_step d e (c ∷ b ∷ a ∷ []) hd (omega arith)
    ∙ loop_step c (e * 256 + d) (b ∷ a ∷ []) hc (omega arith)
    ∙ loop_step b ((e * 256 + d) * 256 + c) (a ∷ []) hb (omega arith)

-- An entry of five bytes whose highest byte is positive and below 128 is clamped to 2 ^ 32 - 1.
pub decode_next-clamps :
    (a b c d e : ℕ)
    → a < 256
    → b < 256
    → c < 256
    → d < 256
    → 1 ≤ e
    → e < 128
    → decode_next (a ∷ b ∷ c ∷ d ∷ e ∷ []) ≡ 2 ^ 32 - 1
unfolding decode_next
decode_next-clamps a b c d e ha hb hc hd lo hi =
    four_steps a b c d e hb hc hd (omega arith) ∙ unfold decode_loop in ground arith

-- An entry of five bytes whose highest byte is 128 or more loses that byte: it is decoded as its
-- four lower bytes, and not clamped.
pub decode_next-loses :
    (a b c d e : ℕ)
    → a < 256
    → b < 256
    → c < 256
    → d < 256
    → e < 256
    → 128 ≤ e
    → decode_next (a ∷ b ∷ c ∷ d ∷ e ∷ []) ≡ le_value (a ∷ b ∷ c ∷ d ∷ [])
unfolding decode_next
decode_next-loses a b c d e ha hb hc hd he lo =
    four_steps a b c d e hb hc hd he
    ∙ unfold decode_loop le_value in
      ground (arith, shifted_in (((e * 256 + d) * 256 + c) * 256 + b) a ha)
