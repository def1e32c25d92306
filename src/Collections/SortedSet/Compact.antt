-- ===== src/Collections/SortedSet/Compact.antt =====
-- The loop that removes the duplicates in place, and the list that it leaves.
use typeberry.Base.{
  ℕ, zero, suc, ◌-◌, ◌<◌, ◌≤◌, ◌≡◌, refl, sym, ap, ◌∙◌, arith, Bool, Bool-cases, true, false, ◌==◌,
  ==_iff, ◌||◌, not, List, [], ◌∷◌, ◌++◌, length, take, drop, set, get_elem?, inl, inr, All,
  if◌then◌else◌, some, append_assoc, append-nil, get_elem?-lt,
}
use typeberry.Collections.SortedArray.{is_not_equal, Comparator, IsSorted}
use typeberry.Collections.SortedSet.{compact_loop}
use typeberry.Collections.SortedSet.Ranks.{IsStrict, has_rank, is_equal-compare, All-strictly_above}

pub pred : (k : ℕ) → suc k - 1 ≡ k
pred k = omega arith

module _ {V : Type 0} where
  take-set :
      (xs : List V) (j : ℕ) (v : V)
      → j < length xs
      → take (suc j) (set xs j v) ≡ take j xs ++ (v ∷ [])
  take-set [] j v l = absurd (omega arith)
  take-set (x ∷ xs) zero v l = refl
  take-set (x ∷ xs) (suc j) v l = ap (◌∷◌ x) (take-set xs j v (omega arith))

  drop-set : (xs : List V) (i j : ℕ) (v : V) → j < i → drop i (set xs j v) ≡ drop i xs
  drop-set xs zero j v l = absurd (omega arith)
  drop-set [] (suc i) j v l = refl
  drop-set (x ∷ xs) (suc i) zero v l = refl
  drop-set (x ∷ xs) (suc i) (suc j) v l = drop-set xs i j v (omega arith)

  get_elem?-drop : (xs ys : List V) (i : ℕ) (y : V) → drop i xs ≡ y ∷ ys → get_elem? xs i ≡ some y
  get_elem?-drop [] ys zero y e = absurd (let bad = ap length e in omega arith)
  get_elem?-drop [] ys (suc i) y e = absurd (let bad = ap length e in omega arith)
  get_elem?-drop (x ∷ xs) ys zero y e = ap (λ l. get_elem? l 0) e
  get_elem?-drop (x ∷ xs) ys (suc i) y e = get_elem?-drop xs ys i y e

  drop-next : (xs ys : List V) (i : ℕ) (y : V) → drop i xs ≡ y ∷ ys → drop (suc i) xs ≡ ys
  drop-next [] ys zero y e = absurd (let bad = ap length e in omega arith)
  drop-next [] ys (suc i) y e = absurd (let bad = ap length e in omega arith)
  drop-next (x ∷ xs) ys zero y e = ap (λ l. drop 1 l) e
  drop-next (x ∷ xs) ys (suc i) y e = drop-next xs ys i y e

  get_elem?-set_here :
      (xs : List V) (i j : ℕ) (x : V)
      → j ≤ i
      → get_elem? xs i ≡ some x
      → get_elem? (set xs j x) i ≡ some x
  get_elem?-set_here [] i j x l e = e
  get_elem?-set_here (y ∷ xs) zero zero x l e = refl
  get_elem?-set_here (y ∷ xs) (suc i) zero x l e = e
  get_elem?-set_here (y ∷ xs) zero (suc j) x l e = absurd (omega arith)
  get_elem?-set_here (y ∷ xs) (suc i) (suc j) x l e = get_elem?-set_here xs i j x (omega arith) e

module _ {V : Type 0} (c : Comparator V) where
  -- The elements whose rank differs from that of the element before them; `previous` is before all.
  abbrev pub uniq : V → List V → List V
  uniq previous [] = []
  uniq previous (x ∷ xs) =
      let rest = uniq x xs in if c.rank previous == c.rank x then rest else x ∷ rest

  is_not_equal-ranks :
      (x y : V) (b : Bool) → (c.rank x == c.rank y) ≡ b → is_not_equal (c.compare x y) ≡ not b
  unfolding is_not_equal
  is_not_equal-ranks x y b e = ap not (is_equal-compare c x y ∙ e)

  -- The loop keeps what it had, and of the rest the elements that differ from their neighbours.
  compact_loop-uniq :
      (k j : ℕ) (merged : List V) (previous : V) (rest : List V)
      → get_elem? merged k ≡ some previous
      → drop (suc k) merged ≡ rest
      → j ≤ suc k
      → compact_loop c (length rest) (suc k) j merged ≡ take j merged ++ uniq previous rest
  unfolding compact_loop
  compact_loop-uniq k j merged previous [] e d l = sym (append-nil (take j merged))
  compact_loop-uniq k j merged previous (x ∷ xs) e d l =
      let at_ : get_elem? merged (suc k - 1) ≡ some previous = ap (get_elem? merged) (pred k) ∙ e in
      let here = get_elem?-drop merged xs (suc k) x d in
      let next = drop-next merged xs (suc k) x d in
      let len = get_elem?-lt merged (suc k) x here in
      elim (Bool-cases (c.rank previous == c.rank x)) [
        | inl same ↦
            rw (compact_loop, at_, here, is_not_equal-ranks previous x true same, same)
              (compact_loop-uniq (suc k) j merged x xs here next (omega arith))
        | inr other ↦
            rw (compact_loop, at_, here, is_not_equal-ranks previous x false other, other)
              (compact_loop-uniq (suc k) (suc j) (set merged j x) x xs
                  (get_elem?-set_here merged (suc k) j x l here)
                  (drop-set merged (suc (suc k)) j x (omega arith) ∙ next) (omega arith)
                ∙ ap (λ z. z ++ uniq x xs) (take-set merged j x (omega arith))
                ∙ append_assoc (take j merged) (x ∷ []) (uniq x xs))
      ]

  -- On a list that is not empty the loop in place keeps the first element, and those that differ
  -- from the one before them.
  pub compact_loop-first :
      (x : V) (xs : List V) → compact_loop c (length xs) 1 1 (x ∷ xs) ≡ x ∷ uniq x xs
  compact_loop-first x xs = compact_loop-uniq 0 1 (x ∷ xs) x xs refl refl (omega arith)

  uniq-above :
      (x : V) (xs : List V) → IsSorted c (x ∷ xs) → All (λ y. c.rank x < c.rank y) (uniq x xs)
  uniq-above x [] s = tt
  uniq-above x (y ∷ xs) (h, s) =
      let ih = uniq-above y xs s in
      let l : c.rank x ≤ c.rank y = h.0 in
      let rest = All-strictly_above c (c.rank x) (c.rank y) (uniq y xs) l ih in
      elim (Bool-cases (c.rank x == c.rank y)) [
        | inl same ↦ rw (same) rest
        | inr other ↦ let less_ : c.rank x < c.rank y = ground arith in rw (other) (less_, rest)
      ]

  uniq-IsStrict : (x : V) (xs : List V) → IsSorted c (x ∷ xs) → IsStrict c (uniq x xs)
  uniq-IsStrict x [] s = tt
  uniq-IsStrict x (y ∷ xs) (h, s) =
      let ih = uniq-IsStrict y xs s in
      elim (Bool-cases (c.rank x == c.rank y)) [
        | inl same ↦ rw (same) ih
        | inr other ↦ rw (other) (uniq-above y xs s, ih)
      ]

  twice : (a b : Bool) → (a || b) ≡ (a || (a || b))
  twice true b = refl
  twice false b = refl

  -- Of a sorted list that is a strictly sorted one.
  pub uniq-first_IsStrict : (x : V) (xs : List V) → IsSorted c (x ∷ xs) → IsStrict c (x ∷ uniq x xs)
  uniq-first_IsStrict x xs s = (uniq-above x xs s, uniq-IsStrict x xs s)

  -- No rank is lost.
  pub has_rank-uniq :
      (r : ℕ) (x : V) (xs : List V) → has_rank c r (x ∷ uniq x xs) ≡ has_rank c r (x ∷ xs)
  has_rank-uniq r x [] = refl
  has_rank-uniq r x (y ∷ xs) = elim (Bool-cases (c.rank x == c.rank y)) [
    | inl same ↦
        let e = (==_iff (c.rank x) (c.rank y)).0 same in
        rw (same, e)
          (twice (r == c.rank y) (has_rank c r (uniq y xs))
            ∙ ap (◌||◌ (r == c.rank y)) (has_rank-uniq r y xs))
    | inr other ↦ rw (other) (ap (◌||◌ (r == c.rank x)) (has_rank-uniq r y xs))
  ]
