-- ===== src/Trie/Bytes.antt =====
-- The first byte of a node, by looking at all bytes, and the parts of a node.
use typeberry.Base.{
  ℕ, zero, suc, ◌≤◌, ◌<◌, ◌≡◌, refl, sym, arith, Bool, Bool-cases, true, false, ◌&&◌, not, ◌==◌,
  ==_iff, bit_and, bit_or, List, ◌++◌, length, take, drop, take-append, drop-append, inl, inr,
}

all_below : ℕ → (ℕ → Bool) → Bool
all_below zero test = true
all_below (suc n) test = test n && all_below n test

and_true : (a b : Bool) → (a && b) ≡ true → (a ≡ true) × (b ≡ true)
and_true true b h = (refl, h)
and_true false b h = cc

all_below-true : (n : ℕ) (test : ℕ → Bool) (i : ℕ) → all_below n test ≡ true → i < n → test i ≡ true
unfolding all_below
all_below-true zero test i h l = absurd (omega arith)
all_below-true (suc n) test i h l =
    let (here, rest) = and_true (test n) (all_below n test) h in
    elim (Bool-cases (i == n)) [
      | inl e ↦ rw ((==_iff i n).0 e) here
      | inr e ↦ all_below-true n test i rest (ground arith)
    ]

cleared_test : all_below 256 (λ b. bit_and (bit_and b 127) 128 == 0) ≡ true
unfolding all_below
cleared_test = refl

pub cleared_byte : (b : ℕ) → b < 256 → (bit_and (bit_and b 127) 128 == 0) ≡ true
cleared_byte b h = all_below-true 256 (λ b. bit_and (bit_and b 127) 128 == 0) b cleared_test h

embed_test :
    all_below 33 (λ n.
      not (bit_and (bit_or 128 n) 128 == 0)
      && (not (bit_and (bit_or 128 n) 192 == 192) && (bit_and (bit_or 128 n) 63 == n)))
    ≡ true
unfolding all_below
embed_test = refl

-- The first byte of a leaf with a value of `n` bytes: its bits, and the length that is read from it.
pub embed_byte :
    (n : ℕ)
    → n ≤ 32
    → ((bit_and (bit_or 128 n) 128 == 0) ≡ false)
      × ((bit_and (bit_or 128 n) 192 == 192) ≡ false)
      × (bit_and (bit_or 128 n) 63 ≡ n)
embed_byte n h =
    let all =
      all_below-true 33
        (λ n.
          not (bit_and (bit_or 128 n) 128 == 0)
          && (not (bit_and (bit_or 128 n) 192 == 192) && (bit_and (bit_or 128 n) 63 == n)))
        n embed_test (omega arith) in
    let (first, rest) = and_true _ _ all in
    let (second, third) = and_true _ _ rest in
    (not_true _ first, not_true _ second, (==_iff (bit_and (bit_or 128 n) 63) n).0 third)
  where
    not_true : (b : Bool) → not b ≡ true → b ≡ false
    not_true true h = cc
    not_true false h = refl

pub take_front : (n : ℕ) (xs ys : List ℕ) → length xs ≡ n → take n (xs ++ ys) ≡ xs
take_front n xs ys h = rw (sym h) (take-append xs ys)

pub drop_front : (n : ℕ) (xs ys : List ℕ) → length xs ≡ n → drop n (xs ++ ys) ≡ ys
drop_front n xs ys h = rw (sym h) (drop-append xs ys)
