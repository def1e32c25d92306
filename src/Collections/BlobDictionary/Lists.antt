-- ===== src/Collections/BlobDictionary/Lists.antt =====
-- Reading a list of children after `insert` and `remove`.
use typeberry.Base.{
  ◌≡◌, refl, sym, ◌∙◌, Bool-cases, false, List, [], ◌∷◌, All, Option, none, some, inl, inr,
  if◌then◌else◌,
}
use typeberry.Collections.BlobKeys.{Key, is_equal_to}
use typeberry.Collections.BlobKeys.Equality.{is_equal_to_eq, is_equal_to_sym}
use typeberry.Collections.BlobDictionary.{Leaf, find, remove, insert, set_in_list, leaf_value}

module _ {V : Type 0} where
  abbrev pub list_read : Key → List (Key × Leaf V) → Option V
  list_read key children = leaf_value (find key children)

  abbrev pub Keys : (Key → Type 0) → List (Key × Leaf V) → Type 0
  Keys P children = All (λ (k, _). P k) children

  abbrev pub Fresh : Key → List (Key × Leaf V) → Type 0
  Fresh key children = Keys (λ k. is_equal_to k key ≡ false) children

  -- No two children have the same key.
  abbrev pub Distinct : List (Key × Leaf V) → Type 0
  Distinct [] = Unit
  Distinct ((k, _) ∷ children) = Fresh k children × Distinct children

  pub list_read-Fresh :
      (key : Key) (children : List (Key × Leaf V))
      → Fresh key children
      → list_read key children ≡ none
  unfolding find
  list_read-Fresh key [] h = refl
  list_read-Fresh key ((k, leaf) ∷ children) h = rw (h.0) (list_read-Fresh key children h.1)

  pub Keys-insert :
      (P : Key → Type 0) (key : Key) (leaf : Leaf V) (children : List (Key × Leaf V))
      → P key
      → Keys P children
      → Keys P (insert key leaf children).1
  unfolding insert
  Keys-insert P key leaf [] p h = (p, tt)
  Keys-insert P key leaf ((k, existing) ∷ children) p h = elim (Bool-cases (is_equal_to k key)) [
    | inl e ↦ rw (e) h
    | inr e ↦ rw (e) (h.0, Keys-insert P key leaf children p h.1)
  ]

  Keys-remove :
      (P : Key → Type 0) (key : Key) (children : List (Key × Leaf V))
      → Keys P children
      → Keys P (remove key children).1
  unfolding remove
  Keys-remove P key [] h = tt
  Keys-remove P key ((k, existing) ∷ children) h = elim (Bool-cases (is_equal_to k key)) [
    | inl e ↦ rw (e) (h.1)
    | inr e ↦ rw (e) (h.0, Keys-remove P key children h.1)
  ]

  pub Distinct-insert :
      (key : Key) (leaf : Leaf V) (children : List (Key × Leaf V))
      → Distinct children
      → Distinct (insert key leaf children).1
  unfolding insert
  Distinct-insert key leaf [] h = (tt, tt)
  Distinct-insert key leaf ((k, existing) ∷ children) h = elim (Bool-cases (is_equal_to k key)) [
    | inl e ↦ rw (e) h
    | inr e ↦ rw (e) (
      Keys-insert (λ q. is_equal_to q k ≡ false) key leaf children (is_equal_to_sym key k ∙ e) h.0,
      Distinct-insert key leaf children h.1,
    )
  ]

  Distinct-remove :
      (key : Key) (children : List (Key × Leaf V))
      → Distinct children
      → Distinct (remove key children).1
  unfolding remove
  Distinct-remove key [] h = tt
  Distinct-remove key ((k, existing) ∷ children) h = elim (Bool-cases (is_equal_to k key)) [
    | inl e ↦ rw (e) (h.1)
    | inr e ↦ rw (e) (
      Keys-remove (λ q. is_equal_to q k ≡ false) key children h.0,
      Distinct-remove key children h.1,
    )
  ]

  pub list_read-insert :
      (j key : Key) (leaf : Leaf V) (children : List (Key × Leaf V))
      → list_read j (insert key leaf children).1
        ≡ (if is_equal_to key j then some leaf.value else list_read j children)
  unfolding insert find
  list_read-insert j key leaf [] = elim (Bool-cases (is_equal_to key j)) [
    | inl e ↦ rw (e) refl
    | inr e ↦ rw (e) refl
  ]
  list_read-insert j key leaf ((k, existing) ∷ children) = elim (Bool-cases (is_equal_to k key)) [
    | inl e ↦
        let same : is_equal_to key j ≡ is_equal_to k j = rw (is_equal_to_eq k key e) refl in
        rw (e, same)
          (elim (Bool-cases (is_equal_to k j)) [ inl f ↦ rw (f) refl | inr f ↦ rw (f) refl ])
    | inr e ↦ rw (e) (elim (Bool-cases (is_equal_to k j)) [
      | inl f ↦
          let apart : is_equal_to key j ≡ false =
            rw (sym (is_equal_to_eq k j f)) (is_equal_to_sym key k ∙ e) in
          rw (f, apart) refl
      | inr f ↦ rw (f) (list_read-insert j key leaf children)
    ])
  ]

  list_read-remove :
      (j key : Key) (children : List (Key × Leaf V))
      → Distinct children
      → list_read j (remove key children).1
        ≡ (if is_equal_to key j then none else list_read j children)
  unfolding remove find
  list_read-remove j key [] h = elim (Bool-cases (is_equal_to key j)) [
    | inl e ↦ rw (e) refl
    | inr e ↦ rw (e) refl
  ]
  list_read-remove j key ((k, existing) ∷ children) h = elim (Bool-cases (is_equal_to k key)) [
    | inl e ↦
        let same : is_equal_to key j ≡ is_equal_to k j = rw (is_equal_to_eq k key e) refl in
        rw (e, same)
          (elim (Bool-cases (is_equal_to k j)) [
            | inl f ↦ rw (f) (list_read-Fresh j children (rw (sym (is_equal_to_eq k j f)) (h.0)))
            | inr f ↦ rw (f) refl
          ])
    | inr e ↦ rw (e) (elim (Bool-cases (is_equal_to k j)) [
      | inl f ↦
          let apart : is_equal_to key j ≡ false =
            rw (sym (is_equal_to_eq k j f)) (is_equal_to_sym key k ∙ e) in
          rw (f, apart) refl
      | inr f ↦ rw (f) (list_read-remove j key children h.1)
    ])
  ]

  -- Setting or removing a key changes what is read at that key only.
  pub list_read-set_in_list :
      (j key subkey : Key) (value : Option V) (children : List (Key × Leaf V))
      → Distinct children
      → list_read j (set_in_list key subkey value children).1
        ≡ (if is_equal_to subkey j then value else list_read j children)
  list_read-set_in_list j key subkey none children h = list_read-remove j subkey children h
  list_read-set_in_list j key subkey (some v) children h =
      list_read-insert j subkey (record { key = key; value = v }) children

  pub Distinct-set_in_list :
      (key subkey : Key) (value : Option V) (children : List (Key × Leaf V))
      → Distinct children
      → Distinct (set_in_list key subkey value children).1
  Distinct-set_in_list key subkey none children h = Distinct-remove subkey children h
  Distinct-set_in_list key subkey (some v) children h =
      Distinct-insert subkey (record { key = key; value = v }) children h

  pub Keys-set_in_list :
      (P : Key → Type 0) (key subkey : Key) (value : Option V) (children : List (Key × Leaf V))
      → P subkey
      → Keys P children
      → Keys P (set_in_list key subkey value children).1
  Keys-set_in_list P key subkey none children p h = Keys-remove P subkey children h
  Keys-set_in_list P key subkey (some v) children p h =
      Keys-insert P subkey (record { key = key; value = v }) children p h
