-- ===== src/Tests/Trie.antt =====
-- Runs of the trie's nodes.
use typeberry.Base.{ℕ, ◌≤◌, ◌<◌, ◌≡◌, refl, arith, List, [], ◌∷◌, ◌++◌, replicate}
use typeberry.Trie.{
  branch, leaf, embed_leaf, hash_size, get_node_type, from_sub_nodes, get_left, get_right,
  from_value, get_key, get_value_length, get_value, get_value_hash,
}
use typeberry.Trie.RoundTrip.{get-from_value, get-from_sub_nodes}

abbrev key : List ℕ
key = replicate 32 7

abbrev hash : Unit {0} → List ℕ
hash _ = replicate 32 9

embedded : get_value (from_value key (1 ∷ 2 ∷ 3 ∷ []) hash) ≡ 1 ∷ 2 ∷ 3 ∷ []
unfolding get_value get_value_length from_value
embedded = refl

get-from_value_example :
    (get_key (from_value key (1 ∷ 2 ∷ 3 ∷ []) hash) ≡ replicate 31 7)
    × (3 ≤ hash_size
        → (get_node_type (from_value key (1 ∷ 2 ∷ 3 ∷ []) hash) ≡ embed_leaf)
          × (get_value (from_value key (1 ∷ 2 ∷ 3 ∷ []) hash) ≡ 1 ∷ 2 ∷ 3 ∷ [])
          × (get_value_hash (from_value key (1 ∷ 2 ∷ 3 ∷ []) hash)
              ≡ (1 ∷ 2 ∷ 3 ∷ []) ++ replicate 29 0))
    × (hash_size < 3
        → (get_node_type (from_value key (1 ∷ 2 ∷ 3 ∷ []) hash) ≡ leaf)
          × (get_value (from_value key (1 ∷ 2 ∷ 3 ∷ []) hash) ≡ [])
          × (get_value_hash (from_value key (1 ∷ 2 ∷ 3 ∷ []) hash) ≡ replicate 32 9))
get-from_value_example = get-from_value key (1 ∷ 2 ∷ 3 ∷ []) hash (omega arith) refl

get-from_sub_nodes_example :
    (get_node_type (from_sub_nodes (200 ∷ replicate 31 1) (replicate 32 255)) ≡ branch)
    × (get_left (from_sub_nodes (200 ∷ replicate 31 1) (replicate 32 255)) ≡ 72 ∷ replicate 31 1)
    × (get_right (from_sub_nodes (200 ∷ replicate 31 1) (replicate 32 255)) ≡ replicate 32 255)
get-from_sub_nodes_example =
    get-from_sub_nodes 200 (replicate 31 1) (replicate 32 255) (omega arith) refl refl
