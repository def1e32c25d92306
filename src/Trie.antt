-- ===== src/Trie.antt =====
-- packages/core/trie/nodes.ts: the nodes of the state trie, as the 64 bytes that are hashed.
pub mod Bytes
pub mod RoundTrip
use typeberry.Base.{
  ℕ, zero, suc, ◌+◌, ◌-◌, Bool, leb, ◌==◌, bit_and, bit_or, List, [], ◌∷◌, ◌++◌, length, get_or,
  take, drop, set, replicate, if◌then◌else◌,
}

-- masks.ts
abbrev pub first_bit_set : ℕ
first_bit_set = 128

abbrev pub first_bit_set_neg : ℕ
first_bit_set_neg = 127

abbrev pub first_two_bits_set : ℕ
first_two_bits_set = 192

abbrev pub first_two_bits_set_neg : ℕ
first_two_bits_set_neg = 63

abbrev pub hash_size : ℕ
hash_size = 32

abbrev pub truncated_key_bytes : ℕ
truncated_key_bytes = 31

abbrev pub trie_node_bytes : ℕ
trie_node_bytes = 64

pub data NodeType : Type 0 where
  branch leaf embed_leaf : NodeType

abbrev pub TrieNode : Type 0
TrieNode = List ℕ

abbrev pub new_node : TrieNode
new_node = replicate trie_node_bytes 0

-- `raw.set(bytes, offset)` where the bytes fit.
abbrev pub set_bytes : TrieNode → ℕ → List ℕ → TrieNode
set_bytes raw offset bytes = take offset raw ++ (bytes ++ drop (offset + length bytes) raw)

abbrev pub first_byte : TrieNode → ℕ
first_byte raw = get_or raw 0 0

unfoldable pub get_node_type : TrieNode → NodeType
get_node_type raw =
    if bit_and (first_byte raw) first_bit_set == 0
    then branch
    else if bit_and (first_byte raw) first_two_bits_set == first_two_bits_set
    then leaf
    else embed_leaf

unfoldable pub from_sub_nodes : List ℕ → List ℕ → TrieNode
from_sub_nodes left right =
    let raw = set_bytes (set_bytes new_node 0 left) hash_size right in
    set raw 0 (bit_and (first_byte raw) first_bit_set_neg)

unfoldable pub get_left : TrieNode → List ℕ
get_left raw = take hash_size raw

unfoldable pub get_right : TrieNode → List ℕ
get_right raw = drop hash_size raw

-- `fromValue`; the hash of the value is only made for a value that does not fit.
unfoldable pub from_value : List ℕ → List ℕ → (Unit {0} → List ℕ) → TrieNode
from_value key value value_hash =
    let with_key =
      λ (first : ℕ). set_bytes (set new_node 0 first) 1 (take truncated_key_bytes key) in
    if leb (length value) hash_size
    then set_bytes (with_key (bit_or first_bit_set (length value))) (truncated_key_bytes + 1) value
    else set_bytes (with_key first_two_bits_set) (truncated_key_bytes + 1) (value_hash tt)

unfoldable pub get_key : TrieNode → List ℕ
get_key raw = take truncated_key_bytes (drop 1 raw)

unfoldable pub get_value_length : TrieNode → ℕ
get_value_length raw = bit_and (first_byte raw) first_two_bits_set_neg

unfoldable pub get_value : TrieNode → List ℕ
unfolding get_value_length
get_value raw = take (get_value_length raw) (drop hash_size raw)

unfoldable pub get_value_hash : TrieNode → List ℕ
get_value_hash raw = drop hash_size raw
