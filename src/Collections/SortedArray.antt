-- ===== src/Collections/SortedArray.antt =====
-- packages/core/collections/sorted-array.ts, and the orderings of packages/core/ordering.
pub mod Search
pub mod Insert
use typeberry.Base.{
  ℕ, zero, suc, ◌+◌, ◌-◌, ◌/◌, ◌<◌, ◌≤◌, ◌≡◌, Bool, true, false, List, [], ◌∷◌, ◌++◌, length, take,
  drop, get_elem?, ltb, Option, none, some, if◌then◌else◌, ◌||◌, All, not,
}

-- packages/core/ordering/index.ts
pub data Order : Type 0 where
  less equal greater : Order

unfoldable pub is_less : Order → Bool
is_less less = true
is_less equal = false
is_less greater = false

unfoldable pub is_greater : Order → Bool
is_greater less = false
is_greater equal = false
is_greater greater = true

unfoldable pub is_equal : Order → Bool
is_equal less = false
is_equal equal = true
is_equal greater = false

unfoldable pub is_not_equal : Order → Bool
unfolding is_equal
is_not_equal o = not (is_equal o)

unfoldable pub is_greater_or_equal : Order → Bool
unfolding is_equal is_greater
is_greater_or_equal o = is_equal o || is_greater o

abbrev pub order_ranks : ℕ → ℕ → Order
order_ranks a b = if ltb a b then less else if ltb b a then greater else equal

-- A comparator orders its values by some rank; for byte strings of one length, their value as a
-- big-endian number.
pub record Comparator {ℓ} (V : Type ℓ) : Type ℓ where
  pub compare : V → V → Order
  pub rank : V → ℕ
  pub compare-rank : (a b : V) → compare a b ≡ order_ranks (rank a) (rank b)

pub record Found : Type 0 where
  pub idx : ℕ
  pub is_equal : Bool

module _ {V : Type 0} (c : Comparator V) where
  -- `while (low < high)`; the last case of `get_elem?` is never met.
  unfoldable pub search_loop : ℕ → List V → V → ℕ → ℕ → Found
  search_loop zero arr v low high = record { idx = low; is_equal = false }
  search_loop (suc fuel) arr v low high = elim (ltb low high) [
    | false ↦ record { idx = low; is_equal = false }
    | true ↦ elim (get_elem? arr ((high + low) / 2)) [
      | none ↦ record { idx = low; is_equal = false }
      | some x ↦ elim (c.compare x v) [
        | equal ↦ record { idx = (high + low) / 2; is_equal = true }
        | less ↦ search_loop fuel arr v ((high + low) / 2 + 1) high
        | greater ↦ search_loop fuel arr v low ((high + low) / 2)
      ]
    ]
  ]

  unfoldable pub binary_search : List V → V → Found
  binary_search arr v = search_loop (suc (length arr)) arr v 0 (length arr)

  -- `splice(idx, 0, v)` at the place that the search found.
  unfoldable pub insert : V → List V → List V
  insert v arr = let i = (binary_search arr v).idx in take i arr ++ (v ∷ drop i arr)

  -- `-1` is `none`.
  unfoldable pub find_index : V → List V → Option ℕ
  find_index v arr = let f = binary_search arr v in if f.is_equal then some f.idx else none

  unfoldable pub find_exact : V → List V → Option V
  find_exact v arr = let f = binary_search arr v in if f.is_equal then get_elem? arr f.idx else none

  unfoldable pub has : V → List V → Bool
  has v arr = (binary_search arr v).is_equal

  -- `splice(idx, 1)`: the removed element, and the rest.
  unfoldable pub remove_one : V → List V → Option V × List V
  remove_one v arr =
      let f = binary_search arr v in
      if f.is_equal
      then (get_elem? arr f.idx, take f.idx arr ++ drop (f.idx + 1) arr)
      else (none, arr)

  -- Sorted by rank: each element is at most all that follow.
  abbrev pub IsSorted : List V → Type 0
  IsSorted [] = Unit {0}
  IsSorted (x ∷ xs) = All (λ y. c.rank x ≤ c.rank y) xs × IsSorted xs
