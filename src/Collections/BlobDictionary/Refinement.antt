-- ===== src/Collections/BlobDictionary/Refinement.antt =====
-- With keys of one length the dictionary is a map.
use typeberry.Base.{
  ℕ, ◌<◌, ◌≡◌, refl, ap, ◌∙◌, arith, List, [], ◌∷◌, All, Option, none, some, if◌then◌else◌,
}
use typeberry.Collections.BlobKeys.{Key, is_equal_to, chunks}
use typeberry.Collections.BlobKeys.Sized.{IsKey}
use typeberry.Collections.BlobDictionary.{find, BlobDictionary, new, set, get, delete}
use typeberry.Collections.BlobDictionary.Tree.{Cut-chunks, IsTree, get_loop-list}
use typeberry.Collections.BlobDictionary.Descend.{IsAt}
use typeberry.Collections.BlobDictionary.Lookup.{after-IsTree, get_loop-internal_set}

pub IsAt-root : (len : ℕ) (key : Key) → IsKey len key → IsAt key len 0 key (chunks key)
IsAt-root len key h = (refl, h, Cut-chunks key)

-- An operation on a dictionary: a value to set, or none to delete.
pub data Operation (V : Type 0) : Type 0 where
  set_value : Key → V → Operation V
  delete_key : Key → Operation V

module _ {V : Type 0} where
  abbrev pub operate : Operation V → BlobDictionary V → BlobDictionary V
  operate (set_value key value) dict = set dict key value
  operate (delete_key key) dict = (delete dict key).1

  abbrev pub operate_all : List (Operation V) → BlobDictionary V → BlobDictionary V
  operate_all [] dict = dict
  operate_all (op ∷ ops) dict = operate_all ops (operate op dict)

  -- The same operations on a map given as a function.
  abbrev pub operate_map : Operation V → (Key → Option V) → Key → Option V
  operate_map (set_value key value) m j = if is_equal_to key j then some value else m j
  operate_map (delete_key key) m j = if is_equal_to key j then none else m j

  abbrev pub operate_map_all : List (Operation V) → (Key → Option V) → Key → Option V
  operate_map_all [] m = m
  operate_map_all (op ∷ ops) m = operate_map_all ops (operate_map op m)

  abbrev pub key_of : Operation V → Key
  key_of (set_value key value) = key
  key_of (delete_key key) = key

  -- A dictionary of keys that have the length `len`.
  abbrev pub IsUniform : ℕ → BlobDictionary V → Type 0
  IsUniform len dict = IsTree len len dict.root

  -- Operations keep the length.
  pub operate-IsUniform :
      (len : ℕ) (op : Operation V) (dict : BlobDictionary V)
      → 0 < len
      → IsKey len (key_of op)
      → IsUniform len dict
      → IsUniform len (operate op dict)
  unfolding set delete
  operate-IsUniform len (set_value key value) dict l h u =
      after-IsTree dict.map_node_threshold key (some value) (chunks key) len len 0 key dict.root l
        (omega arith) (IsAt-root len key h) u
  operate-IsUniform len (delete_key key) dict l h u =
      after-IsTree dict.map_node_threshold key none (chunks key) len len 0 key dict.root l
        (omega arith) (IsAt-root len key h) u

  get-operate :
      (len : ℕ) (op : Operation V) (dict : BlobDictionary V) (j : Key)
      → 0 < len
      → IsKey len (key_of op)
      → IsKey len j
      → IsUniform len dict
      → get (operate op dict) j ≡ operate_map op (get dict) j
  unfolding set delete get
  get-operate len (set_value key value) dict j l h hj u =
      get_loop-internal_set dict.map_node_threshold j key (some value) (chunks j) (chunks key) len
        len 0 j key dict.root l (omega arith) (IsAt-root len j hj) (IsAt-root len key h) u
  get-operate len (delete_key key) dict j l h hj u =
      get_loop-internal_set dict.map_node_threshold j key none (chunks j) (chunks key) len len 0 j
        key dict.root l (omega arith) (IsAt-root len j hj) (IsAt-root len key h) u

  -- A map's operations look at the key alone.
  operate_map_all-local :
      (ops : List (Operation V)) (m n : Key → Option V) (j : Key)
      → m j ≡ n j
      → operate_map_all ops m j ≡ operate_map_all ops n j
  operate_map_all-local [] m n j e = e
  operate_map_all-local (set_value key value ∷ ops) m n j e =
      operate_map_all-local ops _ _ j (ap (λ z. if is_equal_to key j then some value else z) e)
  operate_map_all-local (delete_key key ∷ ops) m n j e =
      operate_map_all-local ops _ _ j (ap (λ z. if is_equal_to key j then none else z) e)

  get-operate_all_from :
      (len : ℕ) (ops : List (Operation V)) (dict : BlobDictionary V) (j : Key)
      → 0 < len
      → All (λ op. IsKey len (key_of op)) ops
      → IsKey len j
      → IsUniform len dict
      → get (operate_all ops dict) j ≡ operate_map_all ops (get dict) j
  get-operate_all_from len [] dict j l h hj u = refl
  get-operate_all_from len (op ∷ ops) dict j l h hj u =
      get-operate_all_from len ops (operate op dict) j l h.1 hj
        (operate-IsUniform len op dict l h.0 u)
      ∙ operate_map_all-local ops (get (operate op dict)) (operate_map op (get dict)) j
          (get-operate len op dict j l h.0 hj u)

  -- If all keys have one positive length and consist of bytes, then after any operations on a new
  -- dictionary of any threshold, `get` of a key of that length reads what the same operations on a
  -- map that starts out empty give.
  pub get-operate_all :
      (len threshold : ℕ) (ops : List (Operation V)) (j : Key)
      → 0 < len
      → All (λ op. IsKey len (key_of op)) ops
      → IsKey len j
      → get (operate_all ops (new threshold)) j ≡ operate_map_all ops (λ _. none) j
  unfolding new get find
  get-operate_all len threshold ops j l h hj =
      get-operate_all_from len ops (new threshold) j l h hj (refl, tt, tt)
      ∙ operate_map_all-local ops (get (new threshold)) (λ _. none) j
          (get_loop-list j (chunks j) 0 [])
