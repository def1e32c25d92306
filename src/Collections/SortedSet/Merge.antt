-- ===== src/Collections/SortedSet/Merge.antt =====
-- The union of two sorted sets.
use typeberry.Base.{
  ℕ, zero, suc, ◌+◌, ◌<◌, ◌≤◌, ◌≡◌, refl, sym, ap, ◌∙◌, arith, Bool, Bool-cases, true, false,
  ltb→lt, ltb→ge, ◌==◌, ◌||◌, List, [], ◌∷◌, length, inl, inr, All, Option, some, All-append,
}
use typeberry.Collections.SortedArray.{is_less, is_greater, Comparator, IsSorted}
use typeberry.Collections.SortedSet.{
  merge_loop, from_two_sorted_arrays, compact_loop, from_sorted_array, then_compact,
  from_two_sorted_collections,
}
use typeberry.Collections.SortedSet.Ranks.{
  IsStrict, has_rank, has_rank-append, is_less-compare, is_greater-compare, All-above,
  IsSorted-strict, from_ascending_array-sorted, from_sorted_array-strict,
}
use typeberry.Collections.SortedSet.Compact.{
  pred, uniq, compact_loop-first, uniq-first_IsStrict, has_rank-uniq,
}

module _ {V : Type 0} (c : Comparator V) where
  module _ (fuel : ℕ) (x y : V) (xs ys : List V) where
    merge_loop-less :
        is_less (c.compare x y) ≡ true
        → merge_loop c (suc fuel) (x ∷ xs) (y ∷ ys) ≡ x ∷ merge_loop c fuel xs (y ∷ ys)
    unfolding merge_loop
    merge_loop-less e = rw (merge_loop, e) refl

    merge_loop-greater :
        is_less (c.compare x y) ≡ false
        → is_greater (c.compare x y) ≡ true
        → merge_loop c (suc fuel) (x ∷ xs) (y ∷ ys) ≡ y ∷ merge_loop c fuel (x ∷ xs) ys
    unfolding merge_loop
    merge_loop-greater e g = rw (merge_loop, e, g) refl

    merge_loop-equal :
        is_less (c.compare x y) ≡ false
        → is_greater (c.compare x y) ≡ false
        → merge_loop c (suc fuel) (x ∷ xs) (y ∷ ys) ≡ x ∷ y ∷ merge_loop c fuel xs ys
    unfolding merge_loop
    merge_loop-equal e g = rw (merge_loop, e, g) refl

  -- What holds of all elements of two lists holds of all that are merged.
  merge_loop-All :
      (P : V → Type 0) (fuel : ℕ) (xs ys : List V)
      → All P xs
      → All P ys
      → All P (merge_loop c fuel xs ys)
  unfolding merge_loop
  merge_loop-All P zero xs ys h k = All-append P xs ys h k
  merge_loop-All P (suc fuel) [] ys h k = k
  merge_loop-All P (suc fuel) (x ∷ xs) [] h k = h
  merge_loop-All P (suc fuel) (x ∷ xs) (y ∷ ys) h k = elim (Bool-cases (is_less (c.compare x y))) [
    | inl less_ ↦
        rw (merge_loop-less fuel x y xs ys less_) (h.0, merge_loop-All P fuel xs (y ∷ ys) h.1 k)
    | inr other ↦ elim (Bool-cases (is_greater (c.compare x y))) [
      | inl greater_ ↦
          rw (merge_loop-greater fuel x y xs ys other greater_)
            (k.0, merge_loop-All P fuel (x ∷ xs) ys h k.1)
      | inr same ↦
          rw (merge_loop-equal fuel x y xs ys other same)
            (h.0, (k.0, merge_loop-All P fuel xs ys h.1 k.1))
    ]
  ]

  merge_loop-IsSorted :
      (fuel : ℕ) (xs ys : List V)
      → length xs + length ys ≤ fuel
      → IsSorted c xs
      → IsSorted c ys
      → IsSorted c (merge_loop c fuel xs ys)
  unfolding merge_loop
  merge_loop-IsSorted zero [] ys l s t = t
  merge_loop-IsSorted zero (x ∷ xs) ys l s t = absurd (omega arith)
  merge_loop-IsSorted (suc fuel) [] ys l s t = t
  merge_loop-IsSorted (suc fuel) (x ∷ xs) [] l s t = s
  merge_loop-IsSorted (suc fuel) (x ∷ xs) (y ∷ ys) l s t =
      elim (Bool-cases (is_less (c.compare x y))) [
        | inl less_ ↦
            let lt : c.rank x < c.rank y = ltb→lt _ _ (sym (is_less-compare c x y) ∙ less_) in
            let le : c.rank x ≤ c.rank y = omega arith in
            rw (merge_loop-less fuel x y xs ys less_) (
              merge_loop-All _ fuel xs (y ∷ ys) s.0
                  (le, All-above c (c.rank x) (c.rank y) ys le t.0),
              merge_loop-IsSorted fuel xs (y ∷ ys) (omega arith) s.1 t,
            )
        | inr other ↦ elim (Bool-cases (is_greater (c.compare x y))) [
          | inl greater_ ↦
              let lt : c.rank y < c.rank x =
                ltb→lt _ _ (sym (is_greater-compare c x y) ∙ greater_) in
              let le : c.rank y ≤ c.rank x = omega arith in
              rw (merge_loop-greater fuel x y xs ys other greater_) (
                merge_loop-All _ fuel (x ∷ xs) ys (le, All-above c (c.rank y) (c.rank x) xs le s.0)
                    t.0,
                merge_loop-IsSorted fuel (x ∷ xs) ys (omega arith) s t.1,
              )
          | inr same ↦
              let le : c.rank y ≤ c.rank x = ltb→ge _ _ (sym (is_less-compare c x y) ∙ other) in
              let ge : c.rank x ≤ c.rank y = ltb→ge _ _ (sym (is_greater-compare c x y) ∙ same) in
              rw (merge_loop-equal fuel x y xs ys other same) (
                (ge, merge_loop-All _ fuel xs ys s.0 (All-above c (c.rank x) (c.rank y) ys ge t.0)),
                (
                  merge_loop-All _ fuel xs ys (All-above c (c.rank y) (c.rank x) xs le s.0) t.0,
                  merge_loop-IsSorted fuel xs ys (omega arith) s.1 t.1,
                ),
              )
        ]
      ]

  merge_loop-nonempty :
      (fuel : ℕ) (x y : V) (xs ys : List V)
      → 0 < fuel
      → 0 < length (merge_loop c fuel (x ∷ xs) (y ∷ ys))
  merge_loop-nonempty zero x y xs ys l = absurd (omega arith)
  merge_loop-nonempty (suc fuel) x y xs ys l = elim (Bool-cases (is_less (c.compare x y))) [
    | inl less_ ↦ omega (arith, ap length (merge_loop-less fuel x y xs ys less_))
    | inr other ↦ elim (Bool-cases (is_greater (c.compare x y))) [
      | inl greater_ ↦ omega (arith, ap length (merge_loop-greater fuel x y xs ys other greater_))
      | inr same ↦ omega (arith, ap length (merge_loop-equal fuel x y xs ys other same))
    ]
  ]

  pass : (a b d : Bool) → (a || (b || d)) ≡ (b || (a || d))
  pass true true d = refl
  pass true false d = refl
  pass false b d = refl

  or_assoc : (a b d : Bool) → ((a || b) || d) ≡ (a || (b || d))
  or_assoc true b d = refl
  or_assoc false b d = refl

  or_false : (a : Bool) → a ≡ (a || false)
  or_false true = refl
  or_false false = refl

  merge_loop-has_rank :
      (r fuel : ℕ) (xs ys : List V)
      → has_rank c r (merge_loop c fuel xs ys) ≡ (has_rank c r xs || has_rank c r ys)
  unfolding merge_loop
  merge_loop-has_rank r zero xs ys = has_rank-append c r xs ys
  merge_loop-has_rank r (suc fuel) [] ys = refl
  merge_loop-has_rank r (suc fuel) (x ∷ xs) [] = or_false (has_rank c r (x ∷ xs))
  merge_loop-has_rank r (suc fuel) (x ∷ xs) (y ∷ ys) =
      let rx = r == c.rank x in
      let ry = r == c.rank y in
      let hx = has_rank c r xs in
      let hy = has_rank c r ys in
      elim (Bool-cases (is_less (c.compare x y))) [
        | inl less_ ↦ rw (merge_loop-less fuel x y xs ys less_) (
            ap (◌||◌ rx) (merge_loop-has_rank r fuel xs (y ∷ ys)) ∙ sym (or_assoc rx hx (ry || hy)))
        | inr other ↦ elim (Bool-cases (is_greater (c.compare x y))) [
          | inl greater_ ↦
              rw (merge_loop-greater fuel x y xs ys other greater_)
                (ap (◌||◌ ry) (merge_loop-has_rank r fuel (x ∷ xs) ys) ∙ pass ry (rx || hx) hy)
          | inr same ↦ rw (merge_loop-equal fuel x y xs ys other same) (
              ap (λ z. rx || (ry || z)) (merge_loop-has_rank r fuel xs ys)
              ∙ ap (◌||◌ rx) (pass ry hx hy)
              ∙ sym (or_assoc rx hx (ry || hy)))
        ]
      ]

  Union : List V → List V → Option (List V) → Type 0
  Union xs ys made =
      (s : List V) × (made ≡ some s)
      × IsStrict c s
      × ((r : ℕ) → has_rank c r s ≡ (has_rank c r xs || has_rank c r ys))

  merged-Union :
      (xs ys merged : List V)
      → 0 < length merged
      → IsSorted c merged
      → ((r : ℕ) → has_rank c r merged ≡ (has_rank c r xs || has_rank c r ys))
      → Union xs ys (then_compact c (some merged))
  unfolding Union
  merged-Union xs ys [] l s h = absurd (omega arith)
  merged-Union xs ys (m ∷ merged) l s h =
      let strict = uniq-first_IsStrict c m merged s in
      (
        m ∷ uniq c m merged,
        ap (λ k. from_sorted_array c (compact_loop c k 1 1 (m ∷ merged))) (pred (length merged))
            ∙ ap (from_sorted_array c) (compact_loop-first c m merged)
            ∙ from_sorted_array-strict c (m ∷ uniq c m merged) strict,
        strict,
        λ r. has_rank-uniq c r m merged ∙ h r,
      )

  -- The union of two strictly sorted collections is made, is strictly sorted, and has the
  -- ranks that either has.
  pub from_two_sorted_collections-Union :
      (xs ys : List V)
      → IsStrict c xs
      → IsStrict c ys
      → (s : List V) × (from_two_sorted_collections c xs ys ≡ some s)
        × IsStrict c s
        × ((r : ℕ) → has_rank c r s ≡ (has_rank c r xs || has_rank c r ys))
  unfolding Union from_two_sorted_collections from_two_sorted_arrays
  from_two_sorted_collections-Union [] ys s t = (ys, from_sorted_array-strict c ys t, t, λ r. refl)
  from_two_sorted_collections-Union (x ∷ xs) [] s t =
      (x ∷ xs, from_sorted_array-strict c (x ∷ xs) s, s, λ r. or_false (has_rank c r (x ∷ xs)))
  from_two_sorted_collections-Union (x ∷ xs) (y ∷ ys) s t =
      let n = length (x ∷ xs) + length (y ∷ ys) in
      let sorted =
        merge_loop-IsSorted n (x ∷ xs) (y ∷ ys) (omega arith) (IsSorted-strict c (x ∷ xs) s)
          (IsSorted-strict c (y ∷ ys) t) in
      rw (from_ascending_array-sorted c (merge_loop c n (x ∷ xs) (y ∷ ys)) sorted) (
        merged-Union (x ∷ xs) (y ∷ ys) (merge_loop c n (x ∷ xs) (y ∷ ys))
          (merge_loop-nonempty n x y xs ys (omega arith)) sorted
          (λ r. merge_loop-has_rank r n (x ∷ xs) (y ∷ ys)))
