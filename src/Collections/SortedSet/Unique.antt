-- ===== src/Collections/SortedSet/Unique.antt =====
-- Sets made of arrays that are not sorted.
use typeberry.Base.{
  ℕ, ◌<◌, ◌≤◌, ◌≡◌, refl, sym, ap, ◌∙◌, arith, Bool, Bool-cases, true, false, ltb→lt, ltb→ge, ◌==◌,
  ◌||◌, List, [], ◌∷◌, inl, inr, All, some,
}
use typeberry.Collections.SortedArray.{is_greater, Comparator}
use typeberry.Collections.SortedSet.{place, to_sorted, has_equal_neighbours, from_array_unique}
use typeberry.Collections.SortedSet.Ranks.{
  IsStrict, has_rank, is_greater-compare, is_equal-compare, All-strictly_above,
}

module _ {V : Type 0} (c : Comparator V) where
  -- No rank occurs twice.
  abbrev pub IsDistinct : List V → Type 0
  IsDistinct [] = Unit {0}
  IsDistinct (x ∷ xs) = (has_rank c (c.rank x) xs ≡ false) × IsDistinct xs

  place-All : (P : V → Type 0) (v : V) (xs : List V) → P v → All P xs → All P (place c v xs)
  unfolding place
  place-All P v [] p h = (p, tt)
  place-All P v (x ∷ xs) p h = elim (Bool-cases (is_greater (c.compare v x))) [
    | inl after ↦ rw (after) (h.0, place-All P v xs p h.1)
    | inr before ↦ rw (before) (p, h)
  ]

  place-IsStrict :
      (v : V) (xs : List V)
      → has_rank c (c.rank v) xs ≡ false
      → IsStrict c xs
      → IsStrict c (place c v xs)
  unfolding place
  place-IsStrict v [] h s = (tt, tt)
  place-IsStrict v (x ∷ xs) h s = elim (Bool-cases (c.rank v == c.rank x)) [
    | inl same ↦ absurd (let bad = rw (same) at h in cc)
    | inr other ↦ elim (Bool-cases (is_greater (c.compare v x))) [
      | inl after ↦
          let lt : c.rank x < c.rank v = ltb→lt _ _ (sym (is_greater-compare c v x) ∙ after) in
          rw (after) (place-All _ v xs lt s.0, place-IsStrict v xs (rw (other) at h) s.1)
      | inr before ↦
          let le : c.rank v ≤ c.rank x = ltb→ge _ _ (sym (is_greater-compare c v x) ∙ before) in
          let lt : c.rank v < c.rank x = ground arith in
          rw (before) ((lt, All-strictly_above c (c.rank v) (c.rank x) xs le s.0), s)
    ]
  ]

  swap : (a b d : Bool) → (a || (b || d)) ≡ (b || (a || d))
  swap true true d = refl
  swap true false d = refl
  swap false b d = refl

  place-has_rank :
      (r : ℕ) (v : V) (xs : List V)
      → has_rank c r (place c v xs) ≡ (r == c.rank v || has_rank c r xs)
  unfolding place
  place-has_rank r v [] = refl
  place-has_rank r v (x ∷ xs) = elim (Bool-cases (is_greater (c.compare v x))) [
    | inl after ↦ rw (after) (
        ap (◌||◌ (r == c.rank x)) (place-has_rank r v xs)
        ∙ swap (r == c.rank x) (r == c.rank v) (has_rank c r xs))
    | inr before ↦ rw (before) refl
  ]

  -- Sorting loses and adds no rank.
  pub to_sorted-has_rank : (r : ℕ) (xs : List V) → has_rank c r (to_sorted c xs) ≡ has_rank c r xs
  unfolding to_sorted
  to_sorted-has_rank r [] = refl
  to_sorted-has_rank r (x ∷ xs) =
      place-has_rank r x (to_sorted c xs) ∙ ap (◌||◌ (r == c.rank x)) (to_sorted-has_rank r xs)

  -- Distinct elements are sorted strictly.
  pub to_sorted-IsStrict : (xs : List V) → IsDistinct xs → IsStrict c (to_sorted c xs)
  unfolding to_sorted
  to_sorted-IsStrict [] d = tt
  to_sorted-IsStrict (x ∷ xs) d =
      place-IsStrict x (to_sorted c xs) (to_sorted-has_rank (c.rank x) xs ∙ d.0)
        (to_sorted-IsStrict xs d.1)

  strict-has_equal_neighbours : (xs : List V) → IsStrict c xs → has_equal_neighbours c xs ≡ false
  unfolding has_equal_neighbours
  strict-has_equal_neighbours [] s = refl
  strict-has_equal_neighbours (x ∷ []) s = refl
  strict-has_equal_neighbours (x ∷ y ∷ xs) s =
      let below : (c.rank x == c.rank y) ≡ false = let l = s.0.0 in ground arith in
      rw (is_equal-compare c x y, below) (strict-has_equal_neighbours (y ∷ xs) s.1)

  -- A set is made of distinct elements without an error.
  pub from_array_unique-distinct :
      (xs : List V) → IsDistinct xs → from_array_unique c xs ≡ some (to_sorted c xs)
  unfolding from_array_unique
  from_array_unique-distinct xs d =
      rw (strict-has_equal_neighbours (to_sorted c xs) (to_sorted-IsStrict xs d)) refl
