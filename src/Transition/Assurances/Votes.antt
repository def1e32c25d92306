-- ===== src/Transition/Assurances/Votes.antt =====
-- The counts of the first loop are the numbers of assurances whose bit is set.
use typeberry.Base.{
  ℕ, zero, suc, ◌+◌, ◌<◌, ◌≤◌, ◌≡◌, refl, sym, ap, ◌∙◌, arith, false, Bool-cases, ◌==◌, ==_iff,
  List, [], ◌∷◌, length, length-set, get_or, set, inl, inr, ◌≢◌,
}
use native.Mathlib.Nat.{mod-lt}
use typeberry.Transition.Assurances.{Assurance, bit_of, indices_loop, add_assurances}

get_or-set_self :
    {A : Type 0} (xs : List A) (i : ℕ) (v d : A) → i < length xs → get_or (set xs i v) i d ≡ v
get_or-set_self [] i v d h = elim h [ ]
get_or-set_self (x ∷ xs) zero v d h = refl
get_or-set_self (x ∷ xs) (suc i) v d h = get_or-set_self xs i v d (omega arith)

get_or-set_ne :
    {A : Type 0} (xs : List A) (i j : ℕ) (v d : A) → i ≢ j → get_or (set xs i v) j d ≡ get_or xs j d
get_or-set_ne [] i j v d h = refl
get_or-set_ne (x ∷ xs) zero zero v d h = absurd (h refl)
get_or-set_ne (x ∷ xs) zero (suc j) v d h = refl
get_or-set_ne (x ∷ xs) (suc i) zero v d h = refl
get_or-set_ne (x ∷ xs) (suc i) (suc j) v d h = get_or-set_ne xs i j v d (λ e. h (ap suc e))

-- The number of assurances that have the bit of core `c` set.
abbrev pub votes : ℕ → List (Assurance) → ℕ
votes c [] = 0
votes c (a ∷ assurances) = bit_of a.bitfield.raw c + votes c assurances

below : (a b : ℕ) → a ≤ b → (a == b) ≡ false → a < b
below a b l e = ground arith

no_bit : (bytes : List ℕ) (b : ℕ) → (bit_of bytes b == 1) ≡ false → bit_of bytes b ≡ 0
no_bit bytes b e = let small : bit_of bytes b < 2 = mod-lt _ {m = 2} (omega arith) in ground arith

pub length-add_assurances :
    (set_bits counts : List ℕ) → length (add_assurances set_bits counts) ≡ length counts
unfolding add_assurances
length-add_assurances [] counts = refl
length-add_assurances (i ∷ set_bits) counts =
    length-add_assurances set_bits (set counts i (suc (get_or counts i 0)))
    ∙ length-set counts i (suc (get_or counts i 0))

-- Indices from `b` on leave the cores before alone.
add_assurances-before :
    (left b c : ℕ) (bytes counts : List ℕ)
    → c < b
    → get_or (add_assurances (indices_loop left b bytes) counts) c 0 ≡ get_or counts c 0
unfolding add_assurances indices_loop
add_assurances-before zero b c bytes counts h = refl
add_assurances-before (suc left) b c bytes counts h = elim (Bool-cases (bit_of bytes b == 1)) [
  | inl e ↦ rw (e) (
      add_assurances-before left (suc b) c bytes (set counts b (suc (get_or counts b 0)))
        (omega arith)
      ∙ get_or-set_ne counts b c _ 0 (λ q. omega arith))
  | inr e ↦ rw (e) (add_assurances-before left (suc b) c bytes counts (omega arith))
]

-- A core among the indices is counted if its bit is set.
pub add_assurances-bit :
    (left b c : ℕ) (bytes counts : List ℕ)
    → b ≤ c
    → c < b + left
    → c < length counts
    → get_or (add_assurances (indices_loop left b bytes) counts) c 0
      ≡ get_or counts c 0 + bit_of bytes c
unfolding add_assurances indices_loop
add_assurances-bit zero b c bytes counts l h n = absurd (omega arith)
add_assurances-bit (suc left) b c bytes counts l h n = elim (Bool-cases (b == c)) [
  | inl here ↦
      let same : b ≡ c = (==_iff b c).0 here in
      elim (Bool-cases (bit_of bytes b == 1)) [
        | inl e ↦
            let one : bit_of bytes b ≡ 1 = (==_iff (bit_of bytes b) 1).0 e in
            rw (e) (
              add_assurances-before left (suc b) c bytes (set counts b (suc (get_or counts b 0)))
                (omega arith)
              ∙ rw (sym same) (
                  get_or-set_self counts b (suc (get_or counts b 0)) 0 (omega arith)
                  ∙ omega (arith, one)))
        | inr e ↦
            let zero_bit : bit_of bytes b ≡ 0 = no_bit bytes b e in
            rw (e) (
              add_assurances-before left (suc b) c bytes counts (omega arith)
              ∙ rw (sym same) (omega (arith, zero_bit)))
      ]
  | inr other ↦
      let apart : b ≢ c = λ q. omega (arith, below b c l other) in
      elim (Bool-cases (bit_of bytes b == 1)) [
        | inl e ↦ rw (e) (
            add_assurances-bit left (suc b) c bytes (set counts b (suc (get_or counts b 0)))
              (below b c l other) (omega arith)
              (omega (arith, length-set counts b (suc (get_or counts b 0))))
            ∙ ap (λ z. z + bit_of bytes c) (get_or-set_ne counts b c _ 0 apart))
        | inr e ↦
            rw (e)
              (add_assurances-bit left (suc b) c bytes counts (below b c l other) (omega arith) n)
      ]
]
