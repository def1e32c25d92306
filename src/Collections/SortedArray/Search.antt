-- ===== src/Collections/SortedArray/Search.antt =====
-- The binary search finds what is there, and else the place where it belongs.
use typeberry.Base.{
  ℕ, zero, suc, ◌+◌, ◌/◌, ◌<◌, ◌≤◌, ◌≡◌, ◌⊎◌, inl, inr, refl, sym, arith, Bool, Bool-cases, true,
  false, List, [], ◌∷◌, length, take, drop, get_elem?, ltb, some, get_elem?-some, get_elem?-lt, All,
}
use mathlib.Core.Path.{subst}
use typeberry.Collections.SortedArray.{
  Order, less, equal, greater, Comparator, Found, search_loop, binary_search, IsSorted,
}

module _ {V : Type 0} (c : Comparator V) where
  All-get :
      (P : V → Type 0) (xs : List V) (i : ℕ) (x : V) → All P xs → get_elem? xs i ≡ some x → P x
  All-get P [] i x h e = absurd (cc)
  All-get P (y ∷ xs) zero x h e = let same : y ≡ x = cc in subst P same h.0
  All-get P (y ∷ xs) (suc i) x h e = All-get P xs i x h.1 e

  pub sorted-get :
      (xs : List V) (i j : ℕ) (x y : V)
      → IsSorted c xs
      → i ≤ j
      → get_elem? xs i ≡ some x
      → get_elem? xs j ≡ some y
      → c.rank x ≤ c.rank y
  sorted-get [] i j x y s h e f = absurd (cc)
  sorted-get (z ∷ xs) zero zero x y s h e f = ground arith
  sorted-get (z ∷ xs) zero (suc j) x y s h e f =
      let p : c.rank z ≤ c.rank y = All-get (λ w. c.rank z ≤ c.rank w) xs j y s.0 f in ground arith
  sorted-get (z ∷ xs) (suc i) zero x y s h e f = absurd (omega arith)
  sorted-get (z ∷ xs) (suc i) (suc j) x y s h e f = sorted-get xs i j x y s.1 (omega arith) e f

  -- Where the search ended: at an element of the same rank, or between the smaller and the larger.
  pub record Split (arr : List V) (v : V) (f : Found) : Type 0 where
    pub in_range : f.idx ≤ length arr
    pub hit : f.is_equal ≡ true → (x : V) × (get_elem? arr f.idx ≡ some x) × (c.rank x ≡ c.rank v)
    pub below :
        f.is_equal ≡ false
        → (j : ℕ) (x : V) → j < f.idx
        → get_elem? arr j ≡ some x
        → c.rank x < c.rank v
    pub above :
        f.is_equal ≡ false
        → (j : ℕ) (x : V) → f.idx ≤ j
        → get_elem? arr j ≡ some x
        → c.rank v < c.rank x

  Order-cases : (o : Order) → (o ≡ less) ⊎ ((o ≡ equal) ⊎ (o ≡ greater))
  Order-cases less = inl refl
  Order-cases equal = inr (inl refl)
  Order-cases greater = inr (inr refl)

  less-rank : (a b : V) → c.compare a b ≡ less → c.rank a < c.rank b
  less-rank a b h = ground (arith, c.compare-rank a b)

  equal-rank : (a b : V) → c.compare a b ≡ equal → c.rank a ≡ c.rank b
  equal-rank a b h = ground (arith, c.compare-rank a b)

  greater-rank : (a b : V) → c.compare a b ≡ greater → c.rank b < c.rank a
  greater-rank a b h = ground (arith, c.compare-rank a b)

  search_loop-Split :
      (fuel : ℕ) (arr : List V) (v : V) (low high : ℕ)
      → IsSorted c arr
      → low ≤ high
      → high ≤ length arr
      → high < low + fuel
      → ((j : ℕ) (x : V) → j < low → get_elem? arr j ≡ some x → c.rank x < c.rank v)
      → ((j : ℕ) (x : V) → high ≤ j → get_elem? arr j ≡ some x → c.rank v < c.rank x)
      → Split arr v (search_loop c fuel arr v low high)
  unfolding search_loop
  search_loop-Split zero arr v low high s le len more lo hi = absurd (omega arith)
  search_loop-Split (suc fuel) arr v low high s le len more lo hi =
      elim (Bool-cases (ltb low high)) [
        | inr done ↦
            let met : low ≡ high = ground arith in
            rw (done, search_loop)
              (record {
                in_range = omega arith;
                hit = λ e. absurd (cc);
                below = λ _. lo;
                above = λ _ j x h. hi j x (omega arith);
              })
        | inl go ↦
            let inside : (high + low) / 2 < length arr = ground arith in
            let (x, e) = get_elem?-some arr ((high + low) / 2) inside in
            elim (Order-cases (c.compare x v)) [
              | inl o ↦
                  rw (go, e, o, search_loop)
                    (search_loop-Split fuel arr v ((high + low) / 2 + 1) high s (ground arith) len
                      (ground arith)
                      (λ j y h f.
                        let p : c.rank y ≤ c.rank x =
                          sorted-get arr j ((high + low) / 2) y x s (omega arith) f e in
                        omega (arith, less-rank x v o))
                      hi)
              | inr (inl o) ↦
                  rw (go, e, o, search_loop)
                    (record {
                      in_range = omega arith;
                      hit = λ _. (x, e, equal-rank x v o);
                      below = λ f. absurd (cc);
                      above = λ f. absurd (cc);
                    })
              | inr (inr o) ↦
                  rw (go, e, o, search_loop)
                    (search_loop-Split fuel arr v low ((high + low) / 2) s (ground arith)
                      (omega arith) (ground arith) lo
                      (λ j y h f.
                        let p : c.rank x ≤ c.rank y =
                          sorted-get arr ((high + low) / 2) j x y s h e f in
                        omega (arith, greater-rank x v o)))
            ]
      ]

  pub binary_search-Split :
      (arr : List V) (v : V) → IsSorted c arr → Split arr v (binary_search c arr v)
  unfolding binary_search
  binary_search-Split arr v s =
      search_loop-Split (suc (length arr)) arr v 0 (length arr) s (omega arith) (omega arith)
        (omega arith) (λ j x h e. absurd (omega arith))
        (λ j x h e. absurd (omega (arith, get_elem?-lt arr j x e)))

  -- The two ways in which a search can end.
  pub data Located (arr : List V) (v : V) : Found → Type 0 where
    hit :
        (i : ℕ) (x : V)
        → get_elem? arr i ≡ some x
        → c.rank x ≡ c.rank v
        → Located arr v (record { idx = i; is_equal = true })
    miss :
        (i : ℕ)
        → i ≤ length arr
        → All (λ x. c.rank x < c.rank v) (take i arr)
        → All (λ x. c.rank v < c.rank x) (drop i arr)
        → Located arr v (record { idx = i; is_equal = false })

  pub All-take :
      (P : V → Type 0) (xs : List V) (i : ℕ)
      → ((j : ℕ) (x : V) → j < i → get_elem? xs j ≡ some x → P x)
      → All P (take i xs)
  All-take P xs zero h = tt
  All-take P [] (suc i) h = tt
  All-take P (x ∷ xs) (suc i) h =
      (h 0 x (omega arith) refl, All-take P xs i (λ j y l e. h (suc j) y (omega arith) e))

  pub All-drop :
      (P : V → Type 0) (xs : List V) (i : ℕ)
      → ((j : ℕ) (x : V) → i ≤ j → get_elem? xs j ≡ some x → P x)
      → All P (drop i xs)
  All-drop P [] zero h = tt
  All-drop P (x ∷ xs) zero h =
      (h 0 x (omega arith) refl, All-drop P xs zero (λ j y l e. h (suc j) y (omega arith) e))
  All-drop P [] (suc i) h = tt
  All-drop P (x ∷ xs) (suc i) h = All-drop P xs i (λ j y l e. h (suc j) y (omega arith) e)

  Split-Located : (arr : List V) (v : V) (f : Found) → Split arr v f → Located arr v f
  Split-Located arr v f s = by_flag f.is_equal refl
    where
      by_flag : (b : Bool) → f.is_equal ≡ b → Located arr v f
      by_flag true e =
          let (x, at, same) = s.hit e in
          subst (λ b. Located arr v (record { idx = f.idx; is_equal = b })) (sym e)
            (hit f.idx x at same)
      by_flag false e =
          subst (λ b. Located arr v (record { idx = f.idx; is_equal = b })) (sym e)
            (miss f.idx s.in_range (All-take _ arr f.idx (s.below e))
              (All-drop _ arr f.idx (s.above e)))

  -- On a sorted array the search ends at an element of the rank of `v`, or at an index with only
  -- smaller elements before it and only larger ones from it on.
  pub binary_search-Located :
      (arr : List V) (v : V) → IsSorted c arr → Located arr v (binary_search c arr v)
  binary_search-Located arr v s = Split-Located arr v _ (binary_search-Split arr v s)
