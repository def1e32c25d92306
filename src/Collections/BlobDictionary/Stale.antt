-- ===== src/Collections/BlobDictionary/Stale.antt =====
-- Keys of different lengths: where a short key is after a longer one turned the list into a map.
use typeberry.Base.{
  ℕ, zero, suc, ◌<◌, ◌≤◌, ◌≡◌, refl, sym, ap, ◌∙◌, arith, Bool-cases, false, List, [], ◌∷◌, length,
  length-drop, Option, none, some, inl, inr, take, drop, lt→ltb, ge→ltb,
}
use typeberry.Collections.BlobKeys.{
  Key, is_equal_to, chunk_size, chunk_of, eq_ℤ, chunks_loop, chunks, bytes_as_u48,
}
use typeberry.Collections.BlobKeys.Equality.{is_equal_to_eq}
use typeberry.Collections.BlobKeys.Injective.{eq_ℤ_refl}
use typeberry.Collections.BlobDictionary.{
  Leaf, node, list_children, map_children, Entries, empty_map, get_child, insert, find, leaf_value,
  from_list_node, convert, internal_set, get_loop, new, set, get, delete,
}
use typeberry.Collections.BlobDictionary.Lists.{list_read-insert}
use typeberry.Collections.BlobDictionary.Convert.{get_child-set_child}

take_all : (n : ℕ) (xs : Key) → length xs ≤ n → take n xs ≡ xs
take_all zero [] h = refl
take_all zero (x ∷ xs) h = absurd (omega arith)
take_all (suc n) [] h = refl
take_all (suc n) (x ∷ xs) h = ap (◌∷◌ x) (take_all n xs (omega arith))

drop_all : (n : ℕ) (xs : Key) → length xs ≤ n → drop n xs ≡ []
drop_all zero [] h = refl
drop_all zero (x ∷ xs) h = absurd (omega arith)
drop_all (suc n) [] h = refl
drop_all (suc n) (x ∷ xs) h = drop_all n xs (omega arith)

chunks_loop-nil : (fuel : ℕ) → chunks_loop fuel [] ≡ []
chunks_loop-nil zero = refl
chunks_loop-nil (suc fuel) = refl

chunks_short : (key : Key) → 0 < length key → length key ≤ 6 → chunks key ≡ key ∷ []
chunks_short [] l h = absurd (omega arith)
chunks_short (b ∷ key) l h =
    rw (take_all 6 (b ∷ key) h, drop_all 6 (b ∷ key) h, chunks_loop-nil (length key)) refl

chunks_cons : (key : Key) → 0 < length key → (c : Key) × (cs : List Key) × (chunks key ≡ (c ∷ cs))
chunks_cons [] l = absurd (omega arith)
chunks_cons (b ∷ key) l = (_, _, refl)

not_empty : (key : Key) → 0 < length key → is_equal_to key [] ≡ false
unfolding is_equal_to
not_empty [] l = absurd (omega arith)
not_empty (b ∷ key) l = refl

apart : (key longer : Key) → length key ≤ 6 → 6 < length longer → is_equal_to key longer ≡ false
apart key longer h l = elim (Bool-cases (is_equal_to key longer)) [
  | inl e ↦ absurd (omega (arith, ap length (is_equal_to_eq key longer e)))
  | inr e ↦ e
]

module _ {V : Type 0} (key : Key) (short : (0 < length key) × (length key ≤ 6)) where
  -- The entry that a short key has after its list became a map: a list with the empty string.
  abbrev IsMoved : V → Entries V → Type 0
  IsMoved v entries =
      (children : List (Key × Leaf V)) × (get_child entries (bytes_as_u48 key)
        ≡ some (node none (list_children children)))
      × (leaf_value (find [] children) ≡ some v)

  stale_get :
      (v w : V) (entries : Entries V) (threshold : ℕ)
      → IsMoved v entries
      → get_loop key
          (chunks key)
          0
          (internal_set threshold key (some w) (chunks key) 0 (node none (map_children entries))).1
        ≡ some v
  unfolding internal_set get_loop
  stale_get v w entries threshold (children, e, f) =
      let u = bytes_as_u48 key in
      let own : Option (Leaf V) = some (record { key = key; value = w }) in
      rw
        (
          chunks_short key short.0 short.1,
          e,
          get_child-set_child entries u u (node own (list_children children)),
          eq_ℤ_refl u,
          drop_all 6 key short.1,
          f,
        )
        refl

  stale_delete :
      (v : V) (entries : Entries V) (threshold : ℕ)
      → IsMoved v entries
      → (internal_set threshold key none (chunks key) 0 (node none (map_children entries))).0 ≡ none
  unfolding internal_set
  stale_delete v entries threshold (children, e, f) = rw (chunks_short key short.0 short.1, e) refl

  module _ (longer : Key) (long : 6 < length longer) where
    abbrev leaf : V → Leaf V
    leaf v = record { key = key; value = v }

    abbrev longer_leaf : V → Leaf V
    longer_leaf v = record { key = longer; value = v }

    -- The root after both keys were set.
    two_keys :
        (v w : V)
        → (set (set (new 0) key v) longer w).root
          ≡ node none (
              map_children
                (from_list_node ((key, leaf v) ∷ (longer, longer_leaf w) ∷ []) empty_map))
    unfolding set new internal_set insert convert
    two_keys v w =
        let (c, cs, e) = chunks_cons longer (omega arith) in
        rw
          (
            chunks_short key short.0 short.1,
            ge→ltb 6 (length key) short.1,
            e,
            apart key longer short.1 long,
            lt→ltb 6 (length longer) long,
          )
          refl

    IsMoved-key :
        (v w : V)
        → IsMoved v (from_list_node ((key, leaf v) ∷ (longer, longer_leaf w) ∷ []) empty_map)
    unfolding from_list_node insert find is_equal_to
    IsMoved-key v w =
        let rest = drop chunk_size longer in
        let begun : List (Key × Leaf V) = (drop chunk_size key, leaf v) ∷ [] in
        let whole : chunk_of key ≡ bytes_as_u48 key = ap bytes_as_u48 (take_all 6 key short.1) in
        let over : is_equal_to rest [] ≡ false =
          not_empty rest (omega (arith, length-drop 6 longer)) in
        elim (Bool-cases (eq_ℤ (chunk_of key) (chunk_of longer))) [
          | inl same ↦ (
            (insert rest (longer_leaf w) begun).1,
            rw (same, sym whole, eq_ℤ_refl (chunk_of key)) refl,
            list_read-insert [] rest (longer_leaf w) begun ∙ rw (over, drop_all 6 key short.1) refl,
          )
          | inr other ↦ (
            begun,
            rw (other, sym whole, eq_ℤ_refl (chunk_of key)) refl,
            rw (drop_all 6 key short.1) refl,
          )
        ]

    -- In a new dictionary of threshold 0 a key of one to six bytes is set, then one of more than six
    -- bytes, and nothing else: setting the short key again does not change what `get` reads there, and
    -- `delete` of the short key, in place of that, answers that it is not there.
    pub set-delete-stale :
        (v w again : V)
        → (get (set (set (set (new 0) key v) longer w) key again) key ≡ some v)
          × ((delete (set (set (new 0) key v) longer w) key).0 ≡ false)
    unfolding get set delete new
    set-delete-stale v w again = (
      rw (two_keys v w) (stale_get v again _ 0 (IsMoved-key v w)),
      rw (two_keys v w, stale_delete v _ 0 (IsMoved-key v w)) refl,
    )

module _ {V : Type 0} where
  get_loop-leaf :
      (key : Key) (cs : List Key) (depth : ℕ) (leaf : Leaf V)
      → get_loop key cs depth (node (some leaf) (list_children [])) ≡ some leaf.value
  unfolding get_loop find
  get_loop-leaf key [] depth leaf = refl
  get_loop-leaf key (c ∷ cs) depth leaf = get_loop-leaf key cs depth leaf

  -- After the empty key is set in a new dictionary, `get` of any key gives its value.
  pub get-set-empty_key :
      (threshold : ℕ) (v : V) (key : Key) → get (set (new threshold) [] v) key ≡ some v
  unfolding get set new internal_set
  get-set-empty_key threshold v key =
      get_loop-leaf key (chunks key) 0 (record { key = []; value = v })
