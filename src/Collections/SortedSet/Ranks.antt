-- ===== src/Collections/SortedSet/Ranks.antt =====
-- What the comparator's tests and the checks of a sorted set say of the ranks.
use typeberry.Base.{
  ℕ, ◌<◌, ◌≤◌, ◌≡◌, refl, sym, ◌∙◌, arith, Bool, Bool-cases, true, false, ltb, leb, ge→ltb, ◌==◌,
  ◌||◌, List, [], ◌∷◌, ◌++◌, inl, inr, All, some,
}
use typeberry.Collections.SortedArray.{
  is_less, is_greater, is_equal, is_greater_or_equal, order_ranks, Comparator, IsSorted,
}
use typeberry.Collections.SortedSet.{
  is_ascending, from_ascending_array, is_strictly_ascending, from_sorted_array,
}

is_less-ranks : (a b : ℕ) → is_less (order_ranks a b) ≡ ltb a b
unfolding is_less
is_less-ranks a b = ground arith

is_greater-ranks : (a b : ℕ) → is_greater (order_ranks a b) ≡ ltb b a
unfolding is_greater
is_greater-ranks a b = ground arith

is_equal-ranks : (a b : ℕ) → is_equal (order_ranks a b) ≡ (a == b)
unfolding is_equal
is_equal-ranks a b = ground arith

is_greater_or_equal-ranks : (a b : ℕ) → is_greater_or_equal (order_ranks a b) ≡ leb b a
unfolding is_greater_or_equal is_equal is_greater
is_greater_or_equal-ranks a b = ground arith

module _ {V : Type 0} (c : Comparator V) where
  pub is_less-compare : (x y : V) → is_less (c.compare x y) ≡ ltb (c.rank x) (c.rank y)
  is_less-compare x y = rw (c.compare-rank x y) (is_less-ranks (c.rank x) (c.rank y))

  pub is_greater-compare : (x y : V) → is_greater (c.compare x y) ≡ ltb (c.rank y) (c.rank x)
  is_greater-compare x y = rw (c.compare-rank x y) (is_greater-ranks (c.rank x) (c.rank y))

  pub is_equal-compare : (x y : V) → is_equal (c.compare x y) ≡ (c.rank x == c.rank y)
  is_equal-compare x y = rw (c.compare-rank x y) (is_equal-ranks (c.rank x) (c.rank y))

  pub is_greater_or_equal-compare :
      (x y : V) → is_greater_or_equal (c.compare x y) ≡ leb (c.rank y) (c.rank x)
  is_greater_or_equal-compare x y =
      rw (c.compare-rank x y) (is_greater_or_equal-ranks (c.rank x) (c.rank y))

  -- Each element is below all that follow.
  abbrev pub IsStrict : List V → Type 0
  IsStrict [] = Unit {0}
  IsStrict (x ∷ xs) = All (λ y. c.rank x < c.rank y) xs × IsStrict xs

  -- Whether some element has the rank.
  abbrev pub has_rank : ℕ → List V → Bool
  has_rank r [] = false
  has_rank r (x ∷ xs) = r == c.rank x || has_rank r xs

  pub All-above :
      (r s : ℕ) (xs : List V) → r ≤ s → All (λ y. s ≤ c.rank y) xs → All (λ y. r ≤ c.rank y) xs
  All-above r s [] l h = tt
  All-above r s (x ∷ xs) l h = (omega arith, All-above r s xs l h.1)

  pub All-strictly_above :
      (r s : ℕ) (xs : List V) → r ≤ s → All (λ y. s < c.rank y) xs → All (λ y. r < c.rank y) xs
  All-strictly_above r s [] l h = tt
  All-strictly_above r s (x ∷ xs) l h = (omega arith, All-strictly_above r s xs l h.1)

  All-weakly : (r : ℕ) (xs : List V) → All (λ y. r < c.rank y) xs → All (λ y. r ≤ c.rank y) xs
  All-weakly r [] h = tt
  All-weakly r (x ∷ xs) h = (omega arith, All-weakly r xs h.1)

  pub IsSorted-strict : (xs : List V) → IsStrict xs → IsSorted c xs
  IsSorted-strict [] s = tt
  IsSorted-strict (x ∷ xs) s = (All-weakly (c.rank x) xs s.0, IsSorted-strict xs s.1)

  is_ascending-sorted : (xs : List V) → IsSorted c xs → is_ascending c xs ≡ true
  unfolding is_ascending
  is_ascending-sorted [] s = refl
  is_ascending-sorted (x ∷ []) s = refl
  is_ascending-sorted (x ∷ y ∷ xs) s =
      rw
        (
          is_greater-compare x y,
          ge→ltb (c.rank y) (c.rank x) s.0.0,
          is_ascending-sorted (y ∷ xs) s.1,
        )
        refl

  pub from_ascending_array-sorted :
      (xs : List V) → IsSorted c xs → from_ascending_array c xs ≡ some xs
  unfolding from_ascending_array
  from_ascending_array-sorted xs s = rw (is_ascending-sorted xs s) refl

  is_strictly_ascending-strict : (xs : List V) → IsStrict xs → is_strictly_ascending c xs ≡ true
  unfolding is_strictly_ascending
  is_strictly_ascending-strict [] s = refl
  is_strictly_ascending-strict (x ∷ []) s = refl
  is_strictly_ascending-strict (x ∷ y ∷ xs) s =
      let below : leb (c.rank y) (c.rank x) ≡ false = let l = s.0.0 in ground arith in
      rw (is_greater_or_equal-compare x y, below, is_strictly_ascending-strict (y ∷ xs) s.1) refl

  pub from_sorted_array-strict : (xs : List V) → IsStrict xs → from_sorted_array c xs ≡ some xs
  unfolding from_sorted_array
  from_sorted_array-strict xs s = rw (is_strictly_ascending-strict xs s) refl

  -- What the check of neighbours lets pass is strictly sorted.
  pub is_strictly_ascending-IsStrict :
      (xs : List V) → is_strictly_ascending c xs ≡ true → IsStrict xs
  unfolding is_strictly_ascending
  is_strictly_ascending-IsStrict [] h = tt
  is_strictly_ascending-IsStrict (x ∷ []) h = (tt, tt)
  is_strictly_ascending-IsStrict (x ∷ y ∷ xs) h =
      elim (Bool-cases (is_greater_or_equal (c.compare x y))) [
        | inl above ↦ (let bad = rw (above) at h in cc)
        | inr below ↦
            let rest = is_strictly_ascending-IsStrict (y ∷ xs) (rw (below) at h) in
            let same : leb (c.rank y) (c.rank x) ≡ false =
              sym (is_greater_or_equal-compare x y) ∙ below in
            let l : c.rank x < c.rank y = ground arith in
            ((l, All-strictly_above (c.rank x) (c.rank y) xs (omega arith) rest.0), rest)
      ]

  pub has_rank-append :
      (r : ℕ) (xs ys : List V) → has_rank r (xs ++ ys) ≡ (has_rank r xs || has_rank r ys)
  has_rank-append r [] ys = refl
  has_rank-append r (x ∷ xs) ys = ground (arith, has_rank-append r xs ys)
