-- ===== src/Collections/SortedArray/Insert.antt =====
-- Insertion and removal keep the array sorted and change nothing else.
use typeberry.Base.{
  ℕ, zero, suc, ◌+◌, ◌≤◌, ◌≡◌, ◌↔◌, inl, inr, sym, ap, ◌∙◌, arith, Bool-cases, true, false, List,
  [], ◌∷◌, ◌++◌, take, drop, get_elem?, Option, none, some, if◌then◌else◌, All, take-append-drop,
  ltb, ltb→lt, ltb→ge,
}
use mathlib.Core.List.{Perm, perm_middle}
use mathlib.Core.Path.{subst}
use typeberry.Collections.SortedArray.{
  Comparator, Found, binary_search, insert, has, remove_one, IsSorted,
}
use typeberry.Collections.SortedArray.Search.{
  Located, Split, hit, miss, binary_search-Split, binary_search-Located, sorted-get, All-take,
  All-drop,
}

module _ {V : Type 0} (c : Comparator V) where
  All-place :
      (P : V → Type 0) (xs : List V) (i : ℕ) (v : V)
      → All P xs
      → P v
      → All P (take i xs ++ (v ∷ drop i xs))
  All-place P xs zero v h p = (p, h)
  All-place P [] (suc i) v h p = (p, tt)
  All-place P (x ∷ xs) (suc i) v h p = (h.0, All-place P xs i v h.1 p)

  sorted_place :
      (xs : List V) (i : ℕ) (v : V)
      → IsSorted c xs
      → All (λ x. c.rank x ≤ c.rank v) (take i xs)
      → All (λ x. c.rank v ≤ c.rank x) (drop i xs)
      → IsSorted c (take i xs ++ (v ∷ drop i xs))
  sorted_place xs zero v s lo hi = (hi, s)
  sorted_place [] (suc i) v s lo hi = (tt, tt)
  sorted_place (x ∷ xs) (suc i) v s lo hi =
      (All-place (λ y. c.rank x ≤ c.rank y) xs i v s.0 lo.0, sorted_place xs i v s.1 lo.1 hi)

  weaken : (P Q : V → Type 0) (xs : List V) → ((x : V) → P x → Q x) → All P xs → All Q xs
  weaken P Q [] f h = tt
  weaken P Q (x ∷ xs) f h = (f x h.0, weaken P Q xs f h.1)

  located_place :
      (arr : List V) (v : V) (f : Found)
      → IsSorted c arr
      → Located c arr v f
      → IsSorted c (take f.idx arr ++ (v ∷ drop f.idx arr))
  located_place arr v f s (hit i x e same) =
      sorted_place arr i v s
        (All-take c _ arr i (λ j y l g.
          let p : c.rank y ≤ c.rank x = sorted-get c arr j i y x s (omega arith) g e in
          omega arith))
        (All-drop c _ arr i (λ j y l g.
          let p : c.rank x ≤ c.rank y = sorted-get c arr i j x y s l e g in omega arith))
  located_place arr v f s (miss i l lo hi) =
      sorted_place arr i v s (weaken _ _ (take i arr) (λ x h. omega arith) lo)
        (weaken _ _ (drop i arr) (λ x h. omega arith) hi)

  -- Inserting into a sorted array keeps it sorted, and its elements are the old ones and the new one.
  pub insert-IsSorted :
      (v : V) (arr : List V)
      → IsSorted c arr
      → IsSorted c (insert c v arr) × Perm (insert c v arr) (v ∷ arr)
  unfolding insert
  insert-IsSorted v arr s = (
    located_place arr v (binary_search c arr v) s (binary_search-Located c arr v s),
    subst (λ x. Perm (take i arr ++ (v ∷ drop i arr)) (v ∷ x)) (take-append-drop i arr)
        (perm_middle (take i arr) (drop i arr)),
  )
    where
      i : ℕ
      i = (binary_search c arr v).idx

  -- On a sorted array `has` answers whether some element has the rank of `v`.
  pub has_iff :
      (v : V) (arr : List V)
      → IsSorted c arr
      → (has c v arr ≡ true)
        ↔ ((i : ℕ) × (x : V) × (get_elem? arr i ≡ some x) × (c.rank x ≡ c.rank v))
  unfolding has
  has_iff v arr s = elim (Bool-cases (binary_search c arr v).is_equal) [
    | inl yes_ ↦ (
      (λ _. let (x, e, same) = split.hit yes_ in ((binary_search c arr v).idx, x, e, same)),
      λ _. yes_,
    )
    | inr no_ ↦ ((λ e. absurd (cc)), λ (i, x, e, same). absurd (outside no_ i x e same))
  ]
    where
      split : Split c arr v (binary_search c arr v)
      split = binary_search-Split c arr v s

      outside :
          (binary_search c arr v).is_equal ≡ false
          → (i : ℕ) (x : V) → get_elem? arr i ≡ some x
          → c.rank x ≡ c.rank v
          → ⊥
      outside no_ i x e same = elim (Bool-cases (ltb i (binary_search c arr v).idx)) [
        | inl before ↦ omega (arith, split.below no_ i x (ltb→lt i _ before) e)
        | inr after ↦ omega (arith, split.above no_ i x (ltb→ge i _ after) e)
      ]

  around :
      (arr : List V) (i : ℕ) (x : V)
      → get_elem? arr i ≡ some x
      → take i arr ++ (x ∷ drop (suc i) arr) ≡ arr
  around [] i x e = absurd (cc)
  around (y ∷ arr) zero x e = let same : y ≡ x = cc in ap (λ z. z ∷ arr) (sym same)
  around (y ∷ arr) (suc i) x e = ap (◌∷◌ y) (around arr i x e)

  All-cut : (P : V → Type 0) (xs : List V) (i : ℕ) → All P xs → All P (take i xs ++ drop (suc i) xs)
  All-cut P [] zero h = tt
  All-cut P (x ∷ xs) zero h = h.1
  All-cut P [] (suc i) h = tt
  All-cut P (x ∷ xs) (suc i) h = (h.0, All-cut P xs i h.1)

  sorted_cut : (xs : List V) (i : ℕ) → IsSorted c xs → IsSorted c (take i xs ++ drop (suc i) xs)
  sorted_cut [] zero s = tt
  sorted_cut (x ∷ xs) zero s = s.1
  sorted_cut [] (suc i) s = tt
  sorted_cut (x ∷ xs) (suc i) s = (All-cut (λ y. c.rank x ≤ c.rank y) xs i s.0, sorted_cut xs i s.1)

  abbrev after_removal : List V → Found → Option V × List V
  after_removal arr f =
      if f.is_equal
      then (get_elem? arr f.idx, take f.idx arr ++ drop (f.idx + 1) arr)
      else (none, arr)

  removed-some :
      (arr : List V) (v x : V) (f : Found)
      → IsSorted c arr
      → Located c arr v f
      → (after_removal arr f).0 ≡ some x
      → (c.rank x ≡ c.rank v)
        × Perm arr (x ∷ (after_removal arr f).1)
        × IsSorted c (after_removal arr f).1
  removed-some arr v x f s (hit i y e same) h =
      let eq : y ≡ x = cc in
      let next : i + 1 ≡ suc i = omega arith in
      rw (next) (
        ap c.rank (sym eq) ∙ same,
        subst (λ z. Perm z (x ∷ (take i arr ++ drop (suc i) arr))) (around arr i x h)
            (perm_middle (take i arr) (drop (suc i) arr)),
        sorted_cut arr i s,
      )
  removed-some arr v x f s (miss i l lo hi) h = absurd (cc)

  -- If removing from a sorted array gives an element, that has the rank of `v`, it and the rest are
  -- the elements that were there, and the rest is sorted.
  pub remove_one-some :
      (v : V) (arr : List V) (x : V)
      → IsSorted c arr
      → (remove_one c v arr).0 ≡ some x
      → (c.rank x ≡ c.rank v)
        × Perm arr (x ∷ (remove_one c v arr).1)
        × IsSorted c (remove_one c v arr).1
  unfolding remove_one
  remove_one-some v arr x s =
      removed-some arr v x (binary_search c arr v) s (binary_search-Located c arr v s)
