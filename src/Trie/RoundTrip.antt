-- ===== src/Trie/RoundTrip.antt =====
-- What is put into a node is read from it.
use typeberry.Base.{
  ℕ, zero, suc, ◌+◌, ◌-◌, ◌≤◌, ◌<◌, ◌≡◌, refl, sym, ap, ◌∙◌, arith, Bool-cases, false, leb, leb→le,
  le→leb, bit_and, bit_or, List, [], ◌∷◌, ◌++◌, length, length-take, take, drop, drop-drop, set,
  replicate, append-nil, inl, inr,
}
use typeberry.Trie.{
  TrieNode, branch, leaf, embed_leaf, new_node, set_bytes, first_byte, get_node_type,
  from_sub_nodes, get_left, get_right, from_value, get_key, get_value_length, get_value,
  get_value_hash, hash_size, truncated_key_bytes, first_bit_set, first_two_bits_set,
}
use typeberry.Trie.Bytes.{cleared_byte, embed_byte, take_front, drop_front}

drop-replicate : (m n : ℕ) (a : ℕ) → drop n (replicate m a) ≡ replicate (m - n) a
drop-replicate m zero a = let e : m ≡ m - 0 = omega arith in ap (λ z. replicate z a) e
drop-replicate zero (suc n) a = let e : 0 ≡ 0 - suc n = omega arith in ap (λ z. replicate z a) e
drop-replicate (suc m) (suc n) a =
    let e : m - n ≡ suc m - suc n = omega arith in drop-replicate m n a ∙ ap (λ z. replicate z a) e

-- The bytes of a leaf: the first one, the key, the content and zeros.
leaf_bytes :
    (first : ℕ) (key content : List ℕ)
    → length key ≡ 31
    → set_bytes (set_bytes (set new_node 0 first) 1 key) 32 content
      ≡ first ∷ (key ++ (content ++ replicate (32 - length content) 0))
leaf_bytes first key content h =
    let with_key : set_bytes (set new_node 0 first) 1 key ≡ first ∷ (key ++ replicate 32 0) =
      rw (h) refl in
    let back : drop (32 + length content) (first ∷ (key ++ replicate 32 0))
        ≡ replicate (32 - length content) 0 =
      sym (drop-drop 32 (length content) (first ∷ (key ++ replicate 32 0)))
      ∙ ap (drop (length content)) (drop_front 31 key (replicate 32 0) h)
      ∙ drop-replicate 32 (length content) 0 in
    ap (λ z. set_bytes z 32 content) with_key ∙ rw (take_front 31 key (replicate 32 0) h, back) refl

module _ (key value : List ℕ) (value_hash : Unit {0} → List ℕ) (long : 31 ≤ length key) where
  key_length : length (take truncated_key_bytes key) ≡ 31
  key_length = omega (arith, length-take 31 key)

  embedded_bytes :
      length value ≤ hash_size
      → from_value key value value_hash
        ≡ bit_or first_bit_set (length value)
          ∷ (take 31 key ++ (value ++ replicate (32 - length value) 0))
  unfolding from_value
  embedded_bytes h =
      rw (le→leb (length value) hash_size h)
        (leaf_bytes (bit_or first_bit_set (length value)) (take 31 key) value key_length)

  hashed_bytes :
      hash_size < length value
      → from_value key value value_hash
        ≡ first_two_bits_set
          ∷ (take 31 key ++ (value_hash tt ++ replicate (32 - length (value_hash tt)) 0))
  unfolding from_value
  hashed_bytes h =
      let over : leb (length value) hash_size ≡ false = ground arith in
      rw (over) (leaf_bytes first_two_bits_set (take 31 key) (value_hash tt) key_length)

  abbrev leaf_node : TrieNode
  leaf_node = from_value key value value_hash

  -- A leaf gives back the first 31 bytes of its key. A value of at most 32 bytes makes an embedded
  -- leaf that gives back the value, and the value filled up with zeros in place of its hash; a longer
  -- value whose hash has 32 bytes makes a regular leaf that gives back the hash and an empty value.
  pub get-from_value :
      length (value_hash tt) ≡ hash_size
      → (get_key leaf_node ≡ take truncated_key_bytes key)
        × (length value ≤ hash_size
            → (get_node_type leaf_node ≡ embed_leaf)
              × (get_value leaf_node ≡ value)
              × (get_value_hash leaf_node ≡ value ++ replicate (hash_size - length value) 0))
        × (hash_size < length value
            → (get_node_type leaf_node ≡ leaf)
              × (get_value leaf_node ≡ [])
              × (get_value_hash leaf_node ≡ value_hash tt))
  unfolding get_key get_node_type get_value get_value_length get_value_hash
  get-from_value hashed = (
    elim (Bool-cases (leb (length value) hash_size)) [
      | inl fits ↦
          rw (embedded_bytes (leb→le (length value) hash_size fits))
            (take_front 31 (take 31 key) _ key_length)
      | inr over ↦ rw (hashed_bytes (ground arith)) (take_front 31 (take 31 key) _ key_length)
    ],
    λ fits.
        let (is_leaf, is_embedded, size) = embed_byte (length value) fits in
        rw (embedded_bytes fits) (
          rw (is_leaf, is_embedded) refl,
          rw
              (
                size,
                drop_front 31 (take 31 key) (value ++ replicate (32 - length value) 0) key_length,
              )
              (take_front (length value) value _ refl),
          drop_front 31 (take 31 key) _ key_length,
        ),
    λ over.
        let none_over : 32 - length (value_hash tt) ≡ 0 = omega (arith, hashed) in
        rw (hashed_bytes over, none_over)
          (refl, refl, drop_front 31 (take 31 key) _ key_length ∙ append-nil (value_hash tt)),
  )

branch_bytes :
    (left right : List ℕ)
    → length left ≡ 32
    → length right ≡ 32
    → set_bytes (set_bytes new_node 0 left) 32 right ≡ left ++ right
branch_bytes left right hl hr =
    let with_left : set_bytes new_node 0 left ≡ left ++ replicate 32 0 = rw (hl) refl in
    let back : drop (32 + length right) (left ++ replicate 32 0) ≡ [] =
      sym (drop-drop 32 (length right) (left ++ replicate 32 0))
      ∙ ap (drop (length right)) (drop_front 32 left (replicate 32 0) hl)
      ∙ rw (hr) refl in
    ap (λ z. set_bytes z 32 right) with_left
    ∙ rw (take_front 32 left (replicate 32 0) hl, back) (ap (λ z. left ++ z) (append-nil right))

cleared_bytes :
    (b : ℕ) (left right : List ℕ)
    → length (b ∷ left) ≡ 32
    → length right ≡ 32
    → from_sub_nodes (b ∷ left) right ≡ bit_and b 127 ∷ (left ++ right)
unfolding from_sub_nodes
cleared_bytes b left right hl hr =
    ap (λ (z : TrieNode). set z 0 (bit_and (first_byte z) 127))
      (branch_bytes (b ∷ left) right hl hr)

-- A branch of two hashes is a branch; it gives back the right hash, and the left one with its first
-- bit cleared.
pub get-from_sub_nodes :
    (b : ℕ) (left right : List ℕ)
    → b < 256
    → length (b ∷ left) ≡ hash_size
    → length right ≡ hash_size
    → (get_node_type (from_sub_nodes (b ∷ left) right) ≡ branch)
      × (get_left (from_sub_nodes (b ∷ left) right) ≡ bit_and b 127 ∷ left)
      × (get_right (from_sub_nodes (b ∷ left) right) ≡ right)
unfolding get_node_type get_left get_right
get-from_sub_nodes b left right h hl hr =
    let short : length left ≡ 31 = omega (arith, hl) in
    rw (cleared_bytes b left right hl hr) (
      rw (cleared_byte b h) refl,
      ap (◌∷◌ (bit_and b 127)) (take_front 31 left right short),
      drop_front 31 left right short,
    )
