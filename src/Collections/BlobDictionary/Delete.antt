-- ===== src/Collections/BlobDictionary/Delete.antt =====
-- What `delete` returns.
use typeberry.Base.{
  ℕ, zero, suc, ◌-◌, ◌<◌, ◌≡◌, refl, sym, ap, ◌∙◌, arith, Bool-cases, List, [], ◌∷◌, length, Option,
  none, some, inl, inr, drop,
}
use typeberry.Base.Int.{ℤ}
use typeberry.Collections.BlobDictionary.Lists.{list_read}
use typeberry.Collections.BlobKeys.{Key, is_equal_to, chunk_size, chunks, bytes_as_u48}
use typeberry.Collections.BlobKeys.Sized.{IsKey}
use typeberry.Collections.BlobDictionary.{
  Leaf, Node, node, Entries, list_children, map_children, get_child, or_new, go_down, go_to, remove,
  find, leaf_value, internal_set, get_loop, is_some, BlobDictionary, get, has, delete,
}
use typeberry.Collections.BlobDictionary.Tree.{IsTree, get_loop-list}
use typeberry.Collections.BlobDictionary.Descend.{IsAt, IsAt-next, subkey_rest, IsTree-or_new}
use typeberry.Collections.BlobDictionary.Refinement.{IsAt-root, IsUniform}

module _ {V : Type 0} where
  remove-find :
      (key : Key) (children : List (Key × Leaf V)) → (remove key children).0 ≡ find key children
  unfolding remove find
  remove-find key [] = refl
  remove-find key ((k, leaf) ∷ children) = elim (Bool-cases (is_equal_to k key)) [
    | inl e ↦ rw (e) refl
    | inr e ↦ rw (e) (remove-find key children)
  ]

  go_down-removed :
      (found : Option (Node V)) (down : Option (Leaf V) × Node V) (entries : Entries V) (c : ℤ)
      → leaf_value (go_down none found down none entries c).0 ≡ go_to found (leaf_value down.0)
  go_down-removed none down entries c = refl
  go_down-removed (some child) down entries c = refl

  removed_leaf :
      (threshold : ℕ) (k : Key) (cs : List Key) (levels len depth : ℕ) (rest : Key) (n : Node V)
      → 0 < len
      → IsAt k len depth rest cs
      → IsTree levels len n
      → leaf_value (internal_set threshold k none cs depth n).0 ≡ get_loop k cs depth n
  unfolding internal_set get_loop
  removed_leaf threshold k [] levels len depth rest n l (e, h, cut) t =
      absurd (omega (arith, ap length cut, h.0))
  removed_leaf threshold k (c ∷ cs) levels len depth rest (node own (list_children children)) l
        (e, h, cut) t =
      rw (t.0, subkey_rest k rest depth e)
        (ap leaf_value (remove-find rest children)
          ∙ sym (get_loop-list k (c ∷ cs) depth children ∙ ap (λ z. list_read z children) e))
  removed_leaf threshold k (c ∷ cs) zero len depth rest (node own (map_children entries)) l at_k t =
      absurd t
  removed_leaf threshold k (c ∷ cs) (suc levels) len depth rest (node own (map_children entries)) l
        at_k t =
      let found = get_child entries (bytes_as_u48 c) in
      let ih =
        removed_leaf threshold k cs levels (len - 6) (suc depth) (drop chunk_size rest)
          (or_new found) (omega (arith, t.1)) (IsAt-next k len depth rest c cs at_k)
          (IsTree-or_new levels (len - 6) entries (bytes_as_u48 c) t.2) in
      rw (t.0) (
        go_down-removed found (internal_set threshold k none cs (suc depth) (or_new found)) entries
          (bytes_as_u48 c)
        ∙ ap (go_to found) ih)

  is_some-leaf_value : (o : Option (Leaf V)) → is_some (leaf_value o) ≡ is_some o
  is_some-leaf_value none = refl
  is_some-leaf_value (some leaf) = refl

  -- In a dictionary of keys of one positive length, `delete` returns what `has` answered before.
  pub delete-has :
      (len : ℕ) (dict : BlobDictionary V) (key : Key)
      → 0 < len
      → IsKey len key
      → IsUniform len dict
      → (delete dict key).0 ≡ has dict key
  unfolding delete has get
  delete-has len dict key l h u =
      sym (is_some-leaf_value _)
      ∙ ap is_some (
          removed_leaf dict.map_node_threshold key (chunks key) len len 0 key dict.root l
            (IsAt-root len key h) u)
