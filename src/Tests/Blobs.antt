-- ===== src/Tests/Blobs.antt =====
-- Runs of the blob dictionary.
use typeberry.Base.{ℕ, ◌≡◌, refl, arith, false, List, [], ◌∷◌, none, some}
use typeberry.Base.Int.{negsuc}
use typeberry.Collections.BlobKeys.{Key, is_equal_to, bytes_as_u48}
use typeberry.Collections.BlobKeys.Sized.{IsKey}
use typeberry.Collections.BlobKeys.Injective.{bytes_as_u48-injective}
use typeberry.Collections.BlobDictionary.{
  find, remove, insert, from_list_node, convert, internal_set, get_loop, new, set, get, has, delete,
}
use typeberry.Collections.BlobDictionary.Refinement.{
  Operation, set_value, delete_key, operate_all, operate_map_all, get-operate_all,
}
use typeberry.Collections.BlobDictionary.Stale.{set-delete-stale, get-set-empty_key}

-- Two keys of seven bytes that share their first chunk, and one that does not.
abbrev first_key : Key
first_key = 1 ∷ 2 ∷ 3 ∷ 4 ∷ 5 ∷ 6 ∷ 7 ∷ []

abbrev second_key : Key
second_key = 1 ∷ 2 ∷ 3 ∷ 4 ∷ 5 ∷ 6 ∷ 8 ∷ []

abbrev third_key : Key
third_key = 255 ∷ 2 ∷ 3 ∷ 4 ∷ 5 ∷ 6 ∷ 7 ∷ []

first-IsKey : IsKey 7 first_key
first-IsKey = (
  refl,
  (
    omega arith,
    (omega arith, (omega arith, (omega arith, (omega arith, (omega arith, (omega arith, tt)))))),
  ),
)

second-IsKey : IsKey 7 second_key
second-IsKey = (
  refl,
  (
    omega arith,
    (omega arith, (omega arith, (omega arith, (omega arith, (omega arith, (omega arith, tt)))))),
  ),
)

third-IsKey : IsKey 7 third_key
third-IsKey = (
  refl,
  (
    omega arith,
    (omega arith, (omega arith, (omega arith, (omega arith, (omega arith, (omega arith, tt)))))),
  ),
)

abbrev operations : List (Operation ℕ)
operations =
    set_value first_key 10
    ∷ set_value second_key 20
    ∷ set_value third_key 30
    ∷ set_value first_key 11
    ∷ delete_key second_key
    ∷ []

run : get (operate_all operations (new 0)) first_key ≡ some 11
unfolding get set new delete internal_set get_loop find remove insert from_list_node convert
    is_equal_to bytes_as_u48
run = refl

gone : has (operate_all operations (new 0)) second_key ≡ false
unfolding has get set new delete internal_set get_loop find remove insert from_list_node convert
    is_equal_to bytes_as_u48
gone = refl

-- The first byte makes the number negative: it is -(2 ^ 24) * 8 + 1.
u48_negative : bytes_as_u48 (255 ∷ []) ≡ negsuc 134217726
unfolding bytes_as_u48
u48_negative = refl

get-operate_all_example :
    get (operate_all operations (new 0)) third_key
    ≡ operate_map_all {V = ℕ} operations (λ _. none) third_key
get-operate_all_example =
    get-operate_all 7 0 operations third_key (omega arith)
      (first-IsKey, (second-IsKey, (third-IsKey, (first-IsKey, (second-IsKey, tt))))) third-IsKey

bytes_as_u48-injective_example : ◌≡◌ {A = List ℕ} (1 ∷ 2 ∷ []) (1 ∷ 2 ∷ [])
bytes_as_u48-injective_example =
    bytes_as_u48-injective (1 ∷ 2 ∷ []) (1 ∷ 2 ∷ []) (omega arith) (omega arith)
      (omega arith, (omega arith, tt)) (omega arith, (omega arith, tt)) refl

set-delete-stale_example :
    (get {V = ℕ} (set (set (set (new 0) (1 ∷ []) 10) first_key 20) (1 ∷ []) 11) (1 ∷ []) ≡ some 10)
    × ((delete {V = ℕ} (set (set (new 0) (1 ∷ []) 10) first_key 20) (1 ∷ [])).0 ≡ false)
set-delete-stale_example =
    set-delete-stale (1 ∷ []) (omega arith, omega arith) first_key (omega arith) 10 20 11

get-set-empty_key_example : get {V = ℕ} (set (new 3) [] 5) (1 ∷ 2 ∷ []) ≡ some 5
get-set-empty_key_example = get-set-empty_key 3 5 (1 ∷ 2 ∷ [])
