-- ===== src/Tests/Collections.antt =====
-- Runs of the sorted array.
use typeberry.Base.{ℕ, ◌≡◌, ◌↔◌, refl, arith, List, [], ◌∷◌, get_elem?, true, some}
use mathlib.Core.List.{Perm}
use typeberry.Collections.SortedArray.{
  Comparator, order_ranks, binary_search, search_loop, insert, has, remove_one, IsSorted,
}
use typeberry.Collections.SortedArray.Search.{Located, binary_search-Located}
use typeberry.Collections.SortedArray.Insert.{insert-IsSorted, has_iff, remove_one-some}

-- Numbers in their order.
abbrev by_value : Comparator ℕ
by_value = record { compare = order_ranks; rank = λ n. n; compare-rank = λ a b. refl }

abbrev numbers : List ℕ
numbers = 1 ∷ 3 ∷ 3 ∷ 8 ∷ []

abbrev numbers-IsSorted : IsSorted by_value numbers
numbers-IsSorted = (
  (omega arith, (omega arith, (omega arith, tt))),
  ((omega arith, (omega arith, tt)), ((omega arith, tt), (tt, tt))),
)

insert_five : insert by_value 5 numbers ≡ 1 ∷ 3 ∷ 3 ∷ 5 ∷ 8 ∷ []
unfolding insert binary_search search_loop
insert_five = refl

binary_search-Located_example : Located by_value numbers 5 (binary_search by_value numbers 5)
binary_search-Located_example = binary_search-Located by_value numbers 5 numbers-IsSorted

insert-IsSorted_example :
    IsSorted by_value (insert by_value 5 numbers) × Perm (insert by_value 5 numbers) (5 ∷ numbers)
insert-IsSorted_example = insert-IsSorted by_value 5 numbers numbers-IsSorted

has_iff_example :
    (has by_value 8 numbers ≡ true) ↔ ((i : ℕ) × (x : ℕ) × (get_elem? numbers i ≡ some x) × (x ≡ 8))
has_iff_example = has_iff by_value 8 numbers numbers-IsSorted

remove_eight : (remove_one by_value 8 numbers).0 ≡ some 8
unfolding remove_one binary_search search_loop
remove_eight = refl

remove_one-some_example :
    (◌≡◌ {A = ℕ} 8 8)
    × Perm numbers (8 ∷ (remove_one by_value 8 numbers).1)
    × IsSorted by_value (remove_one by_value 8 numbers).1
remove_one-some_example = remove_one-some by_value 8 numbers 8 numbers-IsSorted remove_eight
