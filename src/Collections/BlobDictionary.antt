-- ===== src/Collections/BlobDictionary.antt =====
-- packages/core/collections/blob-dictionary.ts: a tree that maps strings of bytes to values. The
-- map from key objects to leaves that serves `size` and the iterators is left out.
pub mod Lists
pub mod Convert
pub mod Tree
pub mod Descend
pub mod Lookup
pub mod Refinement
pub mod Delete
pub mod Stale
use typeberry.Base.{
  ℕ, suc, ◌*◌, Bool, true, false, ◌&&◌, ltb, List, [], ◌∷◌, length, drop, Option, none, some,
  if◌then◌else◌,
}
use typeberry.Base.Int.{ℤ}
use typeberry.Collections.BlobKeys.{
  Key, is_equal_to, chunk_size, bytes_as_u48, eq_ℤ, chunks, chunk_of,
}

pub record Leaf (V : Type 0) : Type 0 where
  pub key : Key
  pub value : V

mutual
  pub data Node (V : Type 0) : Type 0 where
    node : Option (Leaf V) → Children V → Node V

  pub data Children (V : Type 0) : Type 0 where
    list_children : List (Key × Leaf V) → Children V
    map_children : Entries V → Children V

  -- A `Map` from numbers to nodes.
  pub data Entries (V : Type 0) : Type 0 where
    empty_map : Entries V
    entry : ℤ → Node V → Entries V → Entries V

abbrev pub is_some : {A : Type 0} → Option A → Bool
is_some none = false
is_some (some a) = true

module _ {V : Type 0} where
  abbrev pub with_list : Node V
  with_list = node none (list_children [])

  abbrev pub override : V → Leaf V → Leaf V
  override v leaf = record { key = leaf.key; value = v }

  -- `remove` and `set` of `Node`.
  abbrev pub set_leaf : Key → Option V → Option (Leaf V) → Option (Leaf V) × Option (Leaf V)
  set_leaf key none leaf = (leaf, none)
  set_leaf key (some v) none =
      (some (record { key = key; value = v }), some (record { key = key; value = v }))
  set_leaf key (some v) (some leaf) = (none, some (override v leaf))

  unfoldable pub find : Key → List (Key × Leaf V) → Option (Leaf V)
  find key [] = none
  find key ((k, leaf) ∷ children) =
      let rest = find key children in if is_equal_to k key then some leaf else rest

  -- The leaf that was taken out, and what is left.
  unfoldable pub remove : Key → List (Key × Leaf V) → Option (Leaf V) × List (Key × Leaf V)
  remove key [] = (none, [])
  remove key ((k, leaf) ∷ children) =
      let (removed, rest) = remove key children in
      if is_equal_to k key then (some leaf, children) else (removed, (k, leaf) ∷ rest)

  unfoldable pub insert : Key → Leaf V → List (Key × Leaf V) → Option (Leaf V) × List (Key × Leaf V)
  insert key leaf [] = (some leaf, (key, leaf) ∷ [])
  insert key leaf ((k, existing) ∷ children) =
      let (added, rest) = insert key leaf children in
      if is_equal_to k key
      then (none, (k, override leaf.value existing) ∷ children)
      else (added, (k, existing) ∷ rest)

  abbrev pub get_child : Entries V → ℤ → Option (Node V)
  get_child empty_map c = none
  get_child (entry k child entries) c =
      let rest = get_child entries c in if eq_ℤ k c then some child else rest

  abbrev pub set_child : Entries V → ℤ → Node V → Entries V
  set_child empty_map c child = entry c child empty_map
  set_child (entry k old entries) c child =
      let rest = set_child entries c child in
      if eq_ℤ k c then entry k child entries else entry k old rest

  abbrev pub or_new : Option (Node V) → Node V
  or_new none = with_list
  or_new (some child) = child

  -- `(child.children as ListChildren).insert(subKey, leaf)`. The children are never a map here.
  abbrev pub insert_child : Key → Leaf V → Node V → Node V
  insert_child key leaf (node own (list_children children)) =
      node own (list_children (insert key leaf children).1)
  insert_child key leaf (node own (map_children entries)) = node own (map_children entries)

  -- The loop of `fromListNode`.
  unfoldable pub from_list_node : List (Key × Leaf V) → Entries V → Entries V
  from_list_node [] entries = entries
  from_list_node ((key, leaf) ∷ children) entries = from_list_node children (
      set_child entries (chunk_of key)
        (insert_child (drop chunk_size key) leaf (or_new (get_child entries (chunk_of key)))))

  -- The call of `convertListChildrenToMap`, on its condition.
  unfoldable pub convert : ℕ → Key → List (Key × Leaf V) → Children V
  convert threshold subkey children =
      if ltb chunk_size (length subkey) && ltb threshold (length children)
      then map_children (from_list_node children empty_map)
      else list_children children

  abbrev pub set_in_list :
      Key → Key → Option V → List (Key × Leaf V) → Option (Leaf V) × List (Key × Leaf V)
  set_in_list key subkey none children = remove subkey children
  set_in_list key subkey (some v) children =
      insert subkey (record { key = key; value = v }) children

  -- The result of going down into a child that may have to be created.
  abbrev pub go_down :
      Option V
      → Option (Node V)
      → Option (Leaf V) × Node V
      → Option (Leaf V)
      → Entries V
      → ℤ
      → Option (Leaf V) × Node V
  go_down none none (leaf, child) own entries c = (none, node own (map_children entries))
  go_down (some v) none (leaf, child) own entries c =
      (leaf, node own (map_children (set_child entries c child)))
  go_down value (some old) (leaf, child) own entries c =
      (leaf, node own (map_children (set_child entries c child)))

  -- The loop of `internalSet` over the chunks of the key: the leaf that it returns, and the node.
  unfoldable pub internal_set :
      ℕ → Key → Option V → List Key → ℕ → Node V → Option (Leaf V) × Node V
  internal_set threshold key value [] depth (node own children) =
      let (leaf, own') = set_leaf key value own in (leaf, node own' children)
  internal_set threshold key value (c ∷ cs) depth (node own (list_children children)) =
      let subkey = drop (chunk_size * depth) key in
      let (leaf, rest) = set_in_list key subkey value children in
      (leaf, node own (convert threshold subkey rest))
  internal_set threshold key value (c ∷ cs) depth (node own (map_children entries)) =
      let found = get_child entries (bytes_as_u48 c) in
      let down = internal_set threshold key value cs (suc depth) (or_new found) in
      go_down value found down own entries (bytes_as_u48 c)

  abbrev pub leaf_value : Option (Leaf V) → Option V
  leaf_value none = none
  leaf_value (some leaf) = some leaf.value

  abbrev pub or_else : Option V → Option V → Option V
  or_else none other = other
  or_else (some v) other = some v

  -- No child is the end of the loop.
  abbrev pub go_to : Option (Node V) → Option V → Option V
  go_to none down = none
  go_to (some child) down = down

  -- The loop of `get` over the chunks of the key. A list of children does not have the loop go down,
  -- but the chunks are used up.
  unfoldable pub get_loop : Key → List Key → ℕ → Node V → Option V
  get_loop key [] depth (node own (list_children children)) =
      or_else (leaf_value (find (drop (depth * chunk_size) key) children)) (leaf_value own)
  get_loop key [] depth (node own (map_children entries)) = leaf_value own
  get_loop key (c ∷ cs) depth (node own (list_children children)) =
      or_else (leaf_value (find (drop (depth * chunk_size) key) children))
        (get_loop key cs depth (node own (list_children children)))
  get_loop key (c ∷ cs) depth (node own (map_children entries)) =
      let found = get_child entries (bytes_as_u48 c) in
      let down = get_loop key cs (suc depth) (or_new found) in go_to found down

pub record BlobDictionary (V : Type 0) : Type 0 where
  pub root : Node V
  pub map_node_threshold : ℕ

module _ {V : Type 0} where
  unfoldable pub new : ℕ → BlobDictionary V
  new threshold = record { root = with_list; map_node_threshold = threshold }

  abbrev updated : BlobDictionary V → Node V → BlobDictionary V
  updated dict root = record { root = root; map_node_threshold = dict.map_node_threshold }

  unfoldable pub set : BlobDictionary V → Key → V → BlobDictionary V
  set dict key value =
      updated dict
        (internal_set dict.map_node_threshold key (some value) (chunks key) 0 dict.root).1

  unfoldable pub get : BlobDictionary V → Key → Option V
  get dict key = get_loop key (chunks key) 0 dict.root

  unfoldable pub has : BlobDictionary V → Key → Bool
  unfolding get
  has dict key = is_some (get dict key)

  -- Whether an entry was removed, and the dictionary.
  unfoldable pub delete : BlobDictionary V → Key → Bool × BlobDictionary V
  delete dict key =
      let (leaf, root) = internal_set dict.map_node_threshold key none (chunks key) 0 dict.root in
      (is_some leaf, updated dict root)
