-- ===== src/Transition/Disputes/Sorts.antt =====
-- What the two checks of the order let pass.
use typeberry.Base.{
  ℕ, ◌<◌, ◌≡◌, refl, sym, ◌∙◌, arith, Bool-cases, true, false, leb, List, [], ◌∷◌, inl, inr, All,
}
use typeberry.Collections.SortedArray.{is_greater_or_equal}
use typeberry.Collections.SortedSet.Ranks.{is_greater_or_equal-compare}
use typeberry.Transition.HashSet.{Hash}
use typeberry.Transition.Disputes.{
  Judgement, hash_comparator, is_unique_sorted_by, is_unique_sorted_by_index,
}

-- Ascending by a key, without duplicates: each key is below all that follow.
abbrev pub Ascending : {A : Type 0} → (A → ℕ) → List A → Type 0
Ascending key [] = Unit {0}
Ascending key (a ∷ arr) = All (λ b. key a < key b) arr × Ascending key arr

further :
    {A : Type 0} (key : A → ℕ) (m n : ℕ) (arr : List A)
    → m < n
    → All (λ b. n < key b) arr
    → All (λ b. m < key b) arr
further key m n [] l h = tt
further key m n (a ∷ arr) l h = (omega arith, further key m n arr l h.1)

compare-leb : (a b : Hash) → is_greater_or_equal (hash_comparator.compare a b) ≡ leb b a
compare-leb a b = is_greater_or_equal-compare hash_comparator a b

pub is_unique_sorted_by-Ascending :
    {A : Type 0} (key : A → Hash) (arr : List A)
    → is_unique_sorted_by key arr ≡ true
    → Ascending key arr
unfolding is_unique_sorted_by
is_unique_sorted_by-Ascending key [] h = tt
is_unique_sorted_by-Ascending key (a ∷ []) h = (tt, tt)
is_unique_sorted_by-Ascending key (a ∷ b ∷ arr) h =
    elim (Bool-cases (is_greater_or_equal (hash_comparator.compare (key a) (key b)))) [
      | inl above ↦ absurd (let bad = rw (above) at h in cc)
      | inr below ↦
          let e = sym (compare-leb (key a) (key b)) ∙ below in
          let l : key a < key b = ground arith in
          let rest = is_unique_sorted_by-Ascending key (b ∷ arr) (rw (below) at h) in
          ((l, further key (key a) (key b) arr l rest.0), rest)
    ]

pub Ascending-is_unique_sorted_by :
    {A : Type 0} (key : A → Hash) (arr : List A)
    → Ascending key arr
    → is_unique_sorted_by key arr ≡ true
unfolding is_unique_sorted_by
Ascending-is_unique_sorted_by key [] s = refl
Ascending-is_unique_sorted_by key (a ∷ []) s = refl
Ascending-is_unique_sorted_by key (a ∷ b ∷ arr) (h, s) =
    let l : key a < key b = h.0 in
    let e : leb (key b) (key a) ≡ false = ground arith in
    rw (compare-leb (key a) (key b), e) (Ascending-is_unique_sorted_by key (b ∷ arr) s)

abbrev pub index_of : Judgement → ℕ
index_of j = j.index

pub is_unique_sorted_by_index-Ascending :
    (votes : List Judgement) → is_unique_sorted_by_index votes ≡ true → Ascending index_of votes
unfolding is_unique_sorted_by_index
is_unique_sorted_by_index-Ascending [] h = tt
is_unique_sorted_by_index-Ascending (a ∷ []) h = (tt, tt)
is_unique_sorted_by_index-Ascending (a ∷ b ∷ votes) h = elim (Bool-cases (leb b.index a.index)) [
  | inl above ↦ absurd (let bad = rw (above) at h in cc)
  | inr below ↦
      let l : a.index < b.index = ground arith in
      let rest = is_unique_sorted_by_index-Ascending (b ∷ votes) (rw (below) at h) in
      ((l, further index_of a.index b.index votes l rest.0), rest)
]

pub Ascending-is_unique_sorted_by_index :
    (votes : List Judgement) → Ascending index_of votes → is_unique_sorted_by_index votes ≡ true
unfolding is_unique_sorted_by_index
Ascending-is_unique_sorted_by_index [] s = refl
Ascending-is_unique_sorted_by_index (a ∷ []) s = refl
Ascending-is_unique_sorted_by_index (a ∷ b ∷ votes) (h, s) =
    let l : a.index < b.index = h.0 in
    let e : leb b.index a.index ≡ false = ground arith in
    rw (e) (Ascending-is_unique_sorted_by_index (b ∷ votes) s)
