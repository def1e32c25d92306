-- ===== src/Collections/BlobKeys/Injective.antt =====
-- The number of a chunk tells the chunk.
use typeberry.Base.{
  ℕ, zero, suc, ◌+◌, ◌-◌, ◌*◌, ◌^◌, ◌<◌, ◌≤◌, ◌≡◌, refl, sym, ap, ◌∙◌, arith, Bool-cases, true, ltb,
  bit_or, List, [], ◌∷◌, length, length-drop, get_or, drop, All, inl, inr,
}
use typeberry.Base.Int.{ℤ, pos, negsuc, signed}
use typeberry.Base.Bits.{bit_or-low}
use typeberry.Collections.BlobKeys.{shift_in, more_bytes, first_bytes, bytes_as_u48, eq_ℤ}

pub eq_ℤ_eq : (a b : ℤ) → eq_ℤ a b ≡ true → a ≡ b
eq_ℤ_eq (pos m) (pos n) h = ap pos (ground arith)
eq_ℤ_eq (pos m) (negsuc n) h = cc
eq_ℤ_eq (negsuc m) (pos n) h = cc
eq_ℤ_eq (negsuc m) (negsuc n) h = ap negsuc (ground arith)

pub eq_ℤ_refl : (a : ℤ) → eq_ℤ a a ≡ true
eq_ℤ_refl (pos m) = ground arith
eq_ℤ_refl (negsuc m) = ground arith

pos-inj : (m n : ℕ) → pos m ≡ pos n → m ≡ n
pos-inj m n e = cc

negsuc-inj : (m n : ℕ) → negsuc m ≡ negsuc n → m ≡ n
negsuc-inj m n e = cc

-- For bases up to 256, by the numbers themselves.
shift_in_256 :
    (v w : ℤ) (a b : ℕ)
    → a < 256
    → b < 256
    → shift_in 256 v a ≡ shift_in 256 w b
    → (v ≡ w) × (a ≡ b)
shift_in_256 (pos m) (pos n) a b ha hb e =
    let f : 256 * m + a ≡ 256 * n + b = pos-inj _ _ e in (ap pos (omega arith), omega arith)
shift_in_256 (pos m) (negsuc n) a b ha hb e = cc
shift_in_256 (negsuc m) (pos n) a b ha hb e = cc
shift_in_256 (negsuc m) (negsuc n) a b ha hb e =
    let f : 256 * m + (256 - suc a) ≡ 256 * n + (256 - suc b) = negsuc-inj _ _ e in
    (ap negsuc (omega arith), omega arith)

shift_in_8 :
    (v w : ℤ) (a b : ℕ) → a < 8 → b < 8 → shift_in 8 v a ≡ shift_in 8 w b → (v ≡ w) × (a ≡ b)
shift_in_8 (pos m) (pos n) a b ha hb e =
    let f : 8 * m + a ≡ 8 * n + b = pos-inj _ _ e in (ap pos (omega arith), omega arith)
shift_in_8 (pos m) (negsuc n) a b ha hb e = cc
shift_in_8 (negsuc m) (pos n) a b ha hb e = cc
shift_in_8 (negsuc m) (negsuc n) a b ha hb e =
    let f : 8 * m + (8 - suc a) ≡ 8 * n + (8 - suc b) = negsuc-inj _ _ e in
    (ap negsuc (omega arith), omega arith)

signed-inj : (v w : ℕ) → v < 2 ^ 32 → w < 2 ^ 32 → signed (2 ^ 31) v ≡ signed (2 ^ 31) w → v ≡ w
signed-inj v w hv hw e = elim (Bool-cases (ltb v (2 ^ 31))) [
  | inl a ↦ elim (Bool-cases (ltb w (2 ^ 31))) [
    | inl b ↦ pos-inj v w (rw (a, b) at e)
    | inr b ↦ (let bad = rw (a, b) at e in cc)
  ]
  | inr a ↦ elim (Bool-cases (ltb w (2 ^ 31))) [
    | inl b ↦ (let bad = rw (a, b) at e in cc)
    | inr b ↦
        let f : 2 * 2 ^ 31 - v - 1 ≡ 2 * 2 ^ 31 - w - 1 = negsuc-inj _ _ (rw (a, b) at e) in
        omega arith
  ]
]

first_word :
    (b0 b1 b2 b3 : ℕ)
    → b0 < 256
    → b1 < 256
    → b2 < 256
    → b3 < 256
    → bit_or (bit_or (bit_or b3 (b2 * 2 ^ 8)) (b1 * 2 ^ 16)) (b0 * 2 ^ 24)
      ≡ b0 * 2 ^ 24 + (b1 * 2 ^ 16 + (b2 * 2 ^ 8 + b3))
first_word b0 b1 b2 b3 h0 h1 h2 h3 =
    rw
      (
        bit_or-low 8 b2 b3 (omega arith),
        bit_or-low 16 b1 (b2 * 2 ^ 8 + b3) (omega arith),
        bit_or-low 24 b0 (b1 * 2 ^ 16 + (b2 * 2 ^ 8 + b3)) (omega arith),
      )
      refl

more_bytes-inj :
    (v w : ℤ) (xs ys : List ℕ)
    → length xs ≡ length ys
    → All (λ x. x < 256) xs
    → All (λ y. y < 256) ys
    → more_bytes v xs ≡ more_bytes w ys
    → (v ≡ w) × (xs ≡ ys)
more_bytes-inj v w [] [] n hx hy e = (e, refl)
more_bytes-inj v w [] (y ∷ ys) n hx hy e = absurd (omega arith)
more_bytes-inj v w (x ∷ xs) [] n hx hy e = absurd (omega arith)
more_bytes-inj v w (x ∷ xs) (y ∷ ys) n hx hy e =
    let (front, rest) =
      more_bytes-inj (shift_in 256 v x) (shift_in 256 w y) xs ys (omega arith) hx.1 hy.1 e in
    let (values, byte) = shift_in_256 v w x y hx.0 hy.0 front in (values, cc)

from_front :
    (n : ℕ) (xs ys : List ℕ)
    → length xs ≡ length ys
    → ((i : ℕ) → i < n → get_or xs i 0 ≡ get_or ys i 0)
    → drop n xs ≡ drop n ys
    → xs ≡ ys
from_front zero xs ys n h e = e
from_front (suc k) [] [] n h e = refl
from_front (suc k) [] (y ∷ ys) n h e = absurd (omega arith)
from_front (suc k) (x ∷ xs) [] n h e = absurd (omega arith)
from_front (suc k) (x ∷ xs) (y ∷ ys) n h e =
    let first : x ≡ y = h 0 (omega arith) in
    let rest : xs ≡ ys = from_front k xs ys (omega arith) (λ i l. h (suc i) (omega arith)) e in cc

get_or-byte : (xs : List ℕ) (i : ℕ) → All (λ x. x < 256) xs → get_or xs i 0 < 256
get_or-byte [] i h = omega arith
get_or-byte (x ∷ xs) zero h = h.0
get_or-byte (x ∷ xs) (suc i) h = get_or-byte xs i h.1

pub All-drop {κ} :
    {A : Type 0} (P : A → Type κ) (n : ℕ) (xs : List A) → All P xs → All P (drop n xs)
All-drop P zero xs h = h
All-drop P (suc n) [] h = tt
All-drop P (suc n) (x ∷ xs) h = All-drop P n xs h.1

abbrev Bytes : ℕ → ℕ → ℕ → ℕ → Type 0
Bytes a b c d = (a < 256) × (b < 256) × (c < 256) × (d < 256)

abbrev word : ℕ → ℕ → ℕ → ℕ → ℕ
word a b c d = a * 2 ^ 24 + (b * 2 ^ 16 + (c * 2 ^ 8 + d))

word-inj :
    (a b c d a' b' c' d' : ℕ)
    → Bytes a b c d
    → Bytes a' b' c' d'
    → word a b c d ≡ word a' b' c' d'
    → (a ≡ a') × (b ≡ b') × (c ≡ c') × (d ≡ d')
word-inj a b c d a' b' c' d' h h' e =
    let first : a ≡ a' = omega (arith, h.0, h.1, h.2, h.3, h'.0, h'.1, h'.2, h'.3) in
    let second : b ≡ b' = omega (arith, h.1, h.2, h.3, h'.1, h'.2, h'.3) in
    let third : c ≡ c' = omega (arith, h.2, h.3, h'.2, h'.3) in (first, second, third, omega arith)

four_bytes :
    (xs : List ℕ)
    → All (λ x. x < 256) xs
    → Bytes (get_or xs 0 0) (get_or xs 1 0) (get_or xs 2 0) (get_or xs 3 0)
four_bytes xs h = (get_or-byte xs 0 h, get_or-byte xs 1 h, get_or-byte xs 2 h, get_or-byte xs 3 h)

first_bytes-word :
    (xs : List ℕ)
    → All (λ x. x < 256) xs
    → first_bytes xs
      ≡ signed (2 ^ 31) (word (get_or xs 0 0) (get_or xs 1 0) (get_or xs 2 0) (get_or xs 3 0))
first_bytes-word xs h =
    let bytes = four_bytes xs h in
    ap (signed (2 ^ 31)) (
      first_word (get_or xs 0 0) (get_or xs 1 0) (get_or xs 2 0) (get_or xs 3 0) bytes.0 bytes.1
        bytes.2 bytes.3)

below_four :
    (f g : ℕ → ℕ → ℕ)
    → (f 0 0 ≡ g 0 0) × (f 1 0 ≡ g 1 0) × (f 2 0 ≡ g 2 0) × (f 3 0 ≡ g 3 0)
    → (i : ℕ) → i < 4
    → f i 0 ≡ g i 0
below_four f g e zero l = e.0
below_four f g e (suc zero) l = e.1
below_four f g e (suc (suc zero)) l = e.2
below_four f g e (suc (suc (suc zero))) l = e.3
below_four f g e (suc (suc (suc (suc i)))) l = absurd (omega arith)

first_bytes-inj :
    (xs ys : List ℕ)
    → All (λ x. x < 256) xs
    → All (λ y. y < 256) ys
    → first_bytes xs ≡ first_bytes ys
    → (i : ℕ) → i < 4
    → get_or xs i 0 ≡ get_or ys i 0
first_bytes-inj xs ys hx hy e =
    let b = four_bytes xs hx in
    let b' = four_bytes ys hy in
    let same =
      signed-inj (word (get_or xs 0 0) (get_or xs 1 0) (get_or xs 2 0) (get_or xs 3 0))
        (word (get_or ys 0 0) (get_or ys 1 0) (get_or ys 2 0) (get_or ys 3 0))
        (omega (arith, b.0, b.1, b.2, b.3)) (omega (arith, b'.0, b'.1, b'.2, b'.3))
        (sym (first_bytes-word xs hx) ∙ e ∙ first_bytes-word ys hy) in
    below_four (get_or xs) (get_or ys) (
      word-inj (get_or xs 0 0) (get_or xs 1 0) (get_or xs 2 0) (get_or xs 3 0) (get_or ys 0 0)
        (get_or ys 1 0) (get_or ys 2 0) (get_or ys 3 0) b b' same)

-- Two strings of at most six bytes with the same number are the same.
pub bytes_as_u48-injective :
    (xs ys : List ℕ)
    → length xs ≤ 6
    → length ys ≤ 6
    → All (λ x. x < 256) xs
    → All (λ y. y < 256) ys
    → bytes_as_u48 xs ≡ bytes_as_u48 ys
    → xs ≡ ys
unfolding bytes_as_u48
bytes_as_u48-injective xs ys nx ny hx hy e =
    let (rest, same_length) =
      shift_in_8 (more_bytes (first_bytes xs) (drop 4 xs)) (more_bytes (first_bytes ys) (drop 4 ys))
        (length xs) (length ys) (omega arith) (omega arith) e in
    let (front, back) =
      more_bytes-inj (first_bytes xs) (first_bytes ys) (drop 4 xs) (drop 4 ys)
        (length-drop 4 xs ∙ omega arith ∙ sym (length-drop 4 ys)) (All-drop (λ x. x < 256) 4 xs hx)
        (All-drop (λ y. y < 256) 4 ys hy) rest in
    from_front 4 xs ys same_length (first_bytes-inj xs ys hx hy front) back
