-- ===== src/Transition/Preimages/Sorting.antt =====
-- The order that preimages have to be in.
use typeberry.Base.{
  ◌<◌, ◌≡◌, refl, arith, Bool-cases, true, false, ltb, ltb→lt, ltb→ge, lt→ltb, ge→ltb, List, [],
  ◌∷◌, ◌⊎◌, inl, inr,
}
use typeberry.Collections.SortedArray.{Order, less, equal, greater}
use typeberry.Transition.Preimages.{Preimage, compare, is_less_or_equal, are_sorted}

-- Ordered by the service, and for one service by the blob, without duplicates.
abbrev pub Before : Preimage → Preimage → Type 0
Before p q =
    (p.requester < q.requester) ⊎ ((p.requester ≡ q.requester) × (compare q.blob p.blob ≡ greater))

abbrev pub Sorted : List Preimage → Type 0
Sorted [] = Unit
Sorted (p ∷ []) = Unit
Sorted (p ∷ q ∷ preimages) = Before p q × Sorted (q ∷ preimages)

pub Sorted-are_sorted : (preimages : List Preimage) → Sorted preimages → are_sorted preimages ≡ true
unfolding are_sorted is_less_or_equal
Sorted-are_sorted [] s = refl
Sorted-are_sorted (p ∷ []) s = refl
Sorted-are_sorted (p ∷ q ∷ preimages) (inl lower, s) =
    rw (lt→ltb p.requester q.requester lower) (Sorted-are_sorted (q ∷ preimages) s)
Sorted-are_sorted (p ∷ q ∷ preimages) (inr (same, above), s) =
    rw
      (
        ge→ltb p.requester q.requester (omega arith),
        ge→ltb q.requester p.requester (omega arith),
        above,
      )
      (Sorted-are_sorted (q ∷ preimages) s)

above : (o : Order) → is_less_or_equal o ≡ false → o ≡ greater
unfolding is_less_or_equal
above less h = cc
above equal h = cc
above greater h = refl

pub are_sorted-Sorted : (preimages : List Preimage) → are_sorted preimages ≡ true → Sorted preimages
unfolding are_sorted
are_sorted-Sorted [] h = tt
are_sorted-Sorted (p ∷ []) h = tt
are_sorted-Sorted (p ∷ q ∷ preimages) h = elim (Bool-cases (ltb p.requester q.requester)) [
  | inl lower ↦ (
    inl (ltb→lt p.requester q.requester lower),
    are_sorted-Sorted (q ∷ preimages) (rw (lower) at h),
  )
  | inr other ↦ elim (Bool-cases (ltb q.requester p.requester)) [
    | inl higher ↦ (let bad = rw (other, higher) at h in cc)
    | inr same ↦ elim (Bool-cases (is_less_or_equal (compare q.blob p.blob))) [
      | inl low ↦ (let bad = rw (other, same, low) at h in cc)
      | inr high ↦
          let one : p.requester ≡ q.requester =
            omega
              (arith, ltb→ge p.requester q.requester other, ltb→ge q.requester p.requester same) in
          (
            inr (one, above (compare q.blob p.blob) high),
            are_sorted-Sorted (q ∷ preimages) (rw (other, same, high) at h),
          )
    ]
  ]
]
