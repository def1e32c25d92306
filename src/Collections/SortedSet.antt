-- ===== src/Collections/SortedSet.antt =====
-- packages/core/collections/sorted-set.ts: sorted arrays without duplicates. `none` is a thrown
-- error.
pub mod Ranks
pub mod Compact
pub mod Merge
pub mod Unique
use typeberry.Base.{
  ℕ, zero, suc, ◌-◌, ◌+◌, Bool, true, false, List, [], ◌∷◌, ◌++◌, length, take, drop, set,
  get_elem?, Option, none, some, if◌then◌else◌,
}
use typeberry.Collections.SortedArray.{
  less, equal, greater, is_less, is_greater, is_equal, is_not_equal, is_greater_or_equal,
  Comparator, Found, binary_search,
}

module _ {V : Type 0} (c : Comparator V) where
  -- `toSorted`: the runtime's sort, which is stable.
  unfoldable pub place : V → List V → List V
  unfolding is_greater
  place v [] = v ∷ []
  place v (x ∷ xs) =
      let rest = place v xs in if is_greater (c.compare v x) then x ∷ rest else v ∷ x ∷ xs

  unfoldable pub to_sorted : List V → List V
  to_sorted [] = []
  to_sorted (x ∷ xs) = place x (to_sorted xs)

  -- `SortedArray.fromSortedArray`: whether no neighbours are out of order.
  unfoldable pub is_ascending : List V → Bool
  unfolding is_greater
  is_ascending [] = true
  is_ascending (x ∷ []) = true
  is_ascending (x ∷ y ∷ xs) =
      let rest = is_ascending (y ∷ xs) in if is_greater (c.compare x y) then false else rest

  unfoldable pub from_ascending_array : List V → Option (List V)
  from_ascending_array array = if is_ascending array then some array else none

  -- `SortedSet.fromSortedArray`.
  unfoldable pub is_strictly_ascending : List V → Bool
  unfolding is_greater_or_equal
  is_strictly_ascending [] = true
  is_strictly_ascending (x ∷ []) = true
  is_strictly_ascending (x ∷ y ∷ xs) =
      let rest = is_strictly_ascending (y ∷ xs) in
      if is_greater_or_equal (c.compare x y) then false else rest

  unfoldable pub from_sorted_array : List V → Option (List V)
  from_sorted_array array = if is_strictly_ascending array then some array else none

  -- `SortedSet.fromArrayUnique`.
  unfoldable pub has_equal_neighbours : List V → Bool
  unfolding is_equal
  has_equal_neighbours [] = false
  has_equal_neighbours (x ∷ []) = false
  has_equal_neighbours (x ∷ y ∷ xs) =
      let rest = has_equal_neighbours (y ∷ xs) in if is_equal (c.compare x y) then true else rest

  unfoldable pub from_array_unique : List V → Option (List V)
  from_array_unique array =
      let sorted = to_sorted array in if has_equal_neighbours sorted then none else some sorted

  -- The three loops of `SortedArray.fromTwoSortedCollections`; the fuel counts the elements.
  unfoldable pub merge_loop : ℕ → List V → List V → List V
  unfolding is_less is_greater
  merge_loop zero xs ys = xs ++ ys
  merge_loop (suc fuel) [] ys = ys
  merge_loop (suc fuel) (x ∷ xs) [] = x ∷ xs
  merge_loop (suc fuel) (x ∷ xs) (y ∷ ys) = elim (is_less (c.compare x y)) [
    | true ↦ x ∷ merge_loop fuel xs (y ∷ ys)
    | false ↦ elim (is_greater (c.compare x y)) [
      | true ↦ y ∷ merge_loop fuel (x ∷ xs) ys
      | false ↦ x ∷ y ∷ merge_loop fuel xs ys
    ]
  ]

  unfoldable pub from_two_sorted_arrays : List V → List V → Option (List V)
  from_two_sorted_arrays first second =
      from_ascending_array (merge_loop (length first + length second) first second)

  -- `left` rounds of the loop in place, which keeps the first `j` elements. Both neighbours are
  -- there, so the two last cases are never met.
  unfoldable pub compact_loop : ℕ → ℕ → ℕ → List V → List V
  unfolding is_not_equal
  compact_loop zero i j merged = take j merged
  compact_loop (suc left) i j merged = elim (get_elem? merged (i - 1)) [
    | none ↦ take j merged
    | some previous ↦ elim (get_elem? merged i) [
      | none ↦ take j merged
      | some current ↦ elim (is_not_equal (c.compare previous current)) [
        | true ↦ compact_loop left (suc i) (suc j) (set merged j current)
        | false ↦ compact_loop left (suc i) j merged
      ]
    ]
  ]

  abbrev then_compact : Option (List V) → Option (List V)
  then_compact none = none
  then_compact (some merged) = from_sorted_array (compact_loop (length merged - 1) 1 1 merged)

  -- `SortedSet.fromTwoSortedCollections`.
  unfoldable pub from_two_sorted_collections : List V → List V → Option (List V)
  from_two_sorted_collections [] second = from_sorted_array second
  from_two_sorted_collections (x ∷ xs) [] = from_sorted_array (x ∷ xs)
  from_two_sorted_collections (x ∷ xs) (y ∷ ys) =
      then_compact (from_two_sorted_arrays (x ∷ xs) (y ∷ ys))

  unfoldable pub insert : V → List V → List V
  insert v array =
      let found = binary_search c array v in
      if found.is_equal then array else take found.idx array ++ (v ∷ drop found.idx array)

  -- The displaced element, and the array.
  unfoldable pub replace : V → List V → Option V × List V
  replace v array =
      let found = binary_search c array v in
      if found.is_equal
      then (get_elem? array found.idx, set array found.idx v)
      else (none, take found.idx array ++ (v ∷ drop found.idx array))
