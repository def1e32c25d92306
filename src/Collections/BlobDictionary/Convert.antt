-- ===== src/Collections/BlobDictionary/Convert.antt =====
-- Reading a map of children that was made of a list.
use typeberry.Base.{
  ℕ, ◌-◌, ◌≡◌, refl, sym, ◌∙◌, Bool-cases, true, List, [], ◌∷◌, Option, Option-cases, none, some,
  inl, inr, if◌then◌else◌, drop,
}
use typeberry.Base.Int.{ℤ}
use typeberry.Collections.BlobKeys.{Key, is_equal_to, chunk_size, eq_ℤ, chunk_of}
use typeberry.Collections.BlobKeys.Equality.{is_equal_to_eq}
use typeberry.Collections.BlobKeys.Injective.{eq_ℤ_eq, eq_ℤ_refl}
use typeberry.Collections.BlobKeys.Sized.{IsKey, IsKey-drop, is_equal_to-chunk_of}
use typeberry.Collections.BlobDictionary.{
  Leaf, Node, node, list_children, map_children, Entries, empty_map, entry, get_child, set_child,
  find, or_new, insert_child, from_list_node, or_else,
}
use typeberry.Collections.BlobDictionary.Lists.{
  list_read, Keys, Distinct, list_read-Fresh, Keys-insert, Distinct-insert, list_read-insert,
}

pub some_inj : {A : Type 0} (a b : A) → some a ≡ some b → a ≡ b
some_inj a b e = cc

module _ {V : Type 0} where
  pub get_child-set_child :
      (entries : Entries V) (c d : ℤ) (child : Node V)
      → get_child (set_child entries c child) d
        ≡ (if eq_ℤ c d then some child else get_child entries d)
  get_child-set_child empty_map c d child = refl
  get_child-set_child (entry k old entries) c d child = elim (Bool-cases (eq_ℤ k c)) [
    | inl e ↦
        let same : eq_ℤ k d ≡ eq_ℤ c d = rw (eq_ℤ_eq k c e) refl in
        rw (e, same) (elim (Bool-cases (eq_ℤ c d)) [ inl f ↦ rw (f) refl | inr f ↦ rw (f) refl ])
    | inr e ↦ rw (e) (elim (Bool-cases (eq_ℤ k d)) [
      | inl f ↦ elim (Bool-cases (eq_ℤ c d)) [
        | inl g ↦
            let same : eq_ℤ k c ≡ true = rw (eq_ℤ_eq k d f, eq_ℤ_eq c d g) (eq_ℤ_refl d) in
            (let bad = sym same ∙ e in cc)
        | inr g ↦ rw (f, g) refl
      ]
      | inr f ↦ rw (f) (get_child-set_child entries c d child)
    ])
  ]

  -- A node with a list of distinct children of one length, and no leaf of its own.
  abbrev pub IsListNode : ℕ → Node V → Type 0
  IsListNode len (node own (list_children children)) =
      (own ≡ none) × Keys (IsKey len) children × Distinct children
  IsListNode len (node own (map_children entries)) = ⊥

  abbrev pub child_read : Key → Option (Node V) → Option V
  child_read key none = none
  child_read key (some (node own (list_children children))) = list_read key children
  child_read key (some (node own (map_children entries))) = none

  abbrev pub AllLists : ℕ → Entries V → Type 0
  AllLists len entries =
      (c : ℤ) (child : Node V) → get_child entries c ≡ some child → IsListNode len child

  -- What a map of such nodes holds at a key.
  abbrev pub entries_read : Key → Entries V → Option V
  entries_read key entries = child_read (drop chunk_size key) (get_child entries (chunk_of key))

  abbrev IsListOption : ℕ → Option (Node V) → Type 0
  IsListOption len none = Unit
  IsListOption len (some child) = IsListNode len child

  AllLists-option :
      (len : ℕ) (entries : Entries V) (c : ℤ)
      → AllLists len entries
      → IsListOption len (get_child entries c)
  AllLists-option len entries c h = elim (Option-cases (get_child entries c)) [
    | inl e ↦ rw (e) tt
    | inr (child, e) ↦ rw (e) (h c child e)
  ]

  child_read-insert_child :
      (len : ℕ) (j key : Key) (leaf : Leaf V) (found : Option (Node V))
      → IsListOption len found
      → child_read j (some (insert_child key leaf (or_new found)))
        ≡ (if is_equal_to key j then some leaf.value else child_read j found)
  unfolding find
  child_read-insert_child len j key leaf none h = list_read-insert j key leaf []
  child_read-insert_child len j key leaf (some (node own (list_children children))) h =
      list_read-insert j key leaf children
  child_read-insert_child len j key leaf (some (node own (map_children entries))) h = absurd h

  IsListNode-insert_child :
      (len : ℕ) (key : Key) (leaf : Leaf V) (found : Option (Node V))
      → IsKey len key
      → IsListOption len found
      → IsListNode len (insert_child key leaf (or_new found))
  IsListNode-insert_child len key leaf none k h =
      (refl, Keys-insert (IsKey len) key leaf [] k tt, Distinct-insert key leaf [] tt)
  IsListNode-insert_child len key leaf (some (node own (list_children children))) k h =
      (h.0, Keys-insert (IsKey len) key leaf children k h.1, Distinct-insert key leaf children h.2)
  IsListNode-insert_child len key leaf (some (node own (map_children entries))) k h = absurd h

  abbrev moved : Key → Leaf V → Entries V → Entries V
  moved key leaf entries =
      set_child entries (chunk_of key)
        (insert_child (drop chunk_size key) leaf (or_new (get_child entries (chunk_of key))))

  AllLists-moved :
      (len : ℕ) (key : Key) (leaf : Leaf V) (entries : Entries V)
      → IsKey len key
      → AllLists (len - 6) entries
      → AllLists (len - 6) (moved key leaf entries)
  AllLists-moved len key leaf entries k h c child e =
      let child' =
        insert_child (drop chunk_size key) leaf (or_new (get_child entries (chunk_of key))) in
      let kept =
        IsListNode-insert_child (len - 6) (drop chunk_size key) leaf
          (get_child entries (chunk_of key)) (IsKey-drop len key k)
          (AllLists-option (len - 6) entries (chunk_of key) h) in
      let at_c = sym (get_child-set_child entries (chunk_of key) c child') ∙ e in
      elim (Bool-cases (eq_ℤ (chunk_of key) c)) [
        | inl here ↦
            let same : child' ≡ child = some_inj child' child (rw (here) at at_c) in
            rw (sym same) kept
        | inr other ↦ h c child (rw (other) at at_c)
      ]

  entries_read-moved :
      (len : ℕ) (j key : Key) (leaf : Leaf V) (entries : Entries V)
      → IsKey len j
      → IsKey len key
      → AllLists (len - 6) entries
      → entries_read j (moved key leaf entries)
        ≡ (if is_equal_to key j then some leaf.value else entries_read j entries)
  entries_read-moved len j key leaf entries hj hk h =
      let sub = drop chunk_size key in
      let child' = insert_child sub leaf (or_new (get_child entries (chunk_of key))) in
      rw
        (
          get_child-set_child entries (chunk_of key) (chunk_of j) child',
          is_equal_to-chunk_of len key j hk hj,
        )
        (elim (Bool-cases (eq_ℤ (chunk_of key) (chunk_of j))) [
          | inl here ↦
              rw (here, sym (eq_ℤ_eq (chunk_of key) (chunk_of j) here))
                (child_read-insert_child (len - 6) (drop chunk_size j) sub leaf
                  (get_child entries (chunk_of key))
                  (AllLists-option (len - 6) entries (chunk_of key) h))
          | inr other ↦ rw (other) refl
        ])

  -- The map reads as the list does, and behind it as the map before.
  pub entries_read-from_list_node :
      (len : ℕ) (j : Key) (children : List (Key × Leaf V)) (entries : Entries V)
      → IsKey len j
      → Keys (IsKey len) children
      → Distinct children
      → AllLists (len - 6) entries
      → entries_read j (from_list_node children entries)
        ≡ or_else (list_read j children) (entries_read j entries)
  unfolding from_list_node find
  entries_read-from_list_node len j [] entries hj hk d h = refl
  entries_read-from_list_node len j ((key, leaf) ∷ children) entries hj hk d h =
      let rest =
        entries_read-from_list_node len j children (moved key leaf entries) hj hk.1 d.1
          (AllLists-moved len key leaf entries hk.0 h) in
      rest
      ∙ rw (entries_read-moved len j key leaf entries hj hk.0 h)
          (elim (Bool-cases (is_equal_to key j)) [
            | inl e ↦
                let gone : list_read j children ≡ none =
                  list_read-Fresh j children (rw (sym (is_equal_to_eq key j e)) (d.0)) in
                rw (e, gone) refl
            | inr e ↦ rw (e) refl
          ])

  pub AllLists-from_list_node :
      (len : ℕ) (children : List (Key × Leaf V)) (entries : Entries V)
      → Keys (IsKey len) children
      → AllLists (len - 6) entries
      → AllLists (len - 6) (from_list_node children entries)
  unfolding from_list_node
  AllLists-from_list_node len [] entries hk h = h
  AllLists-from_list_node len ((key, leaf) ∷ children) entries hk h =
      AllLists-from_list_node len children (moved key leaf entries) hk.1
        (AllLists-moved len key leaf entries hk.0 h)
