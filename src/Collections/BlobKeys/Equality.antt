-- ===== src/Collections/BlobKeys/Equality.antt =====
-- `isEqualTo` decides whether two strings of bytes are the same.
use typeberry.Base.{
  ℕ, zero, suc, ◌≡◌, refl, sym, ◌∙◌, Bool-cases, true, ◌&&◌, ◌==◌, ==_iff, ==_refl, [], ◌∷◌, inl,
  inr, take, drop,
}
use typeberry.Collections.BlobKeys.{Key, is_equal_to}

pub is_equal_to_refl : (a : Key) → is_equal_to a a ≡ true
unfolding is_equal_to
is_equal_to_refl [] = refl
is_equal_to_refl (x ∷ xs) = rw (==_refl x, is_equal_to_refl xs) refl

pub is_equal_to_eq : (a b : Key) → is_equal_to a b ≡ true → a ≡ b
unfolding is_equal_to
is_equal_to_eq [] [] h = refl
is_equal_to_eq [] (y ∷ ys) h = cc
is_equal_to_eq (x ∷ xs) [] h = cc
is_equal_to_eq (x ∷ xs) (y ∷ ys) h = elim (Bool-cases (x == y)) [
  | inl e ↦
      let first : x ≡ y = (==_iff x y).0 e in
      let rest : xs ≡ ys = is_equal_to_eq xs ys (rw (e) at h) in cc
  | inr e ↦ (let bad = rw (e) at h in cc)
]

pub is_equal_to_sym : (a b : Key) → is_equal_to a b ≡ is_equal_to b a
is_equal_to_sym a b = elim (Bool-cases (is_equal_to a b)) [
  | inl e ↦ e ∙ sym (rw (is_equal_to_eq a b e) (is_equal_to_refl b))
  | inr e ↦ elim (Bool-cases (is_equal_to b a)) [
    | inl f ↦
        let same : is_equal_to a b ≡ true = rw (is_equal_to_eq b a f) (is_equal_to_refl a) in cc
    | inr f ↦ e ∙ sym f
  ]
]

-- Equal strings are those with an equal front and an equal rest.
pub is_equal_to_parts :
    (n : ℕ) (a b : Key)
    → is_equal_to a b ≡ (is_equal_to (take n a) (take n b) && is_equal_to (drop n a) (drop n b))
unfolding is_equal_to
is_equal_to_parts zero a b = refl
is_equal_to_parts (suc n) [] [] = refl
is_equal_to_parts (suc n) [] (y ∷ ys) = refl
is_equal_to_parts (suc n) (x ∷ xs) [] = refl
is_equal_to_parts (suc n) (x ∷ xs) (y ∷ ys) = elim (Bool-cases (x == y)) [
  | inl e ↦ rw (e) (is_equal_to_parts n xs ys)
  | inr e ↦ rw (e) refl
]
