-- ===== src/Collections/BlobDictionary/Descend.antt =====
-- Going down into the child of a chunk.
use typeberry.Base.{
  ℕ, suc, ◌-◌, ◌*◌, ◌≡◌, refl, sym, ap, ◌∙◌, arith, Bool, Bool-cases, true, ◌&&◌, List, [], ◌∷◌,
  Option, Option-cases, none, some, inl, inr, if◌then◌else◌, drop,
}
use typeberry.Base.Int.{ℤ}
use typeberry.Collections.BlobKeys.{Key, chunk_size, eq_ℤ, bytes_as_u48}
use typeberry.Collections.BlobKeys.Injective.{eq_ℤ_eq}
use typeberry.Collections.BlobKeys.Sized.{IsKey, IsKey-drop}
use typeberry.Collections.BlobDictionary.{
  find, Leaf, Node, node, map_children, Entries, get_child, set_child, or_new, go_down, get_loop,
}
use typeberry.Collections.BlobDictionary.Convert.{get_child-set_child, some_inj}
use typeberry.Collections.BlobDictionary.Tree.{Cut, IsTree, next_rest, get_loop-list}

-- The rest of a key below a node, of length `len`, and its chunks.
abbrev pub IsAt : Key → ℕ → ℕ → Key → List Key → Type 0
IsAt key len depth rest cs = (drop (depth * chunk_size) key ≡ rest) × IsKey len rest × Cut rest cs

pub IsAt-next :
    (key : Key) (len depth : ℕ) (rest : Key) (c : Key) (cs : List Key)
    → IsAt key len depth rest (c ∷ cs)
    → IsAt key (len - 6) (suc depth) (drop chunk_size rest) cs
IsAt-next key len depth rest c cs (e, h, cut) =
    (next_rest key rest depth e, IsKey-drop len rest h, cut.1)

pub subkey_rest :
    (key rest : Key) (depth : ℕ)
    → drop (depth * chunk_size) key ≡ rest
    → drop (chunk_size * depth) key ≡ rest
subkey_rest key rest depth e =
    let turn : 6 * depth ≡ depth * 6 = omega arith in ap (λ (n : ℕ). drop n key) turn ∙ e

module _ {V : Type 0} where
  pub IsTree-or_new :
      (levels len : ℕ) (entries : Entries V) (c : ℤ)
      → ((d : ℤ) (child : Node V) → get_child entries d ≡ some child → IsTree levels len child)
      → IsTree levels len (or_new (get_child entries c))
  IsTree-or_new levels len entries c h = elim (Option-cases (get_child entries c)) [
    | inl e ↦ rw (e) (refl, tt, tt)
    | inr (child, e) ↦ rw (e) (h c child e)
  ]

  IsTree-set_child :
      (levels len : ℕ) (entries : Entries V) (c : ℤ) (child : Node V)
      → IsTree levels (len - 6) child
      → IsTree (suc levels) len (node none (map_children entries))
      → IsTree (suc levels) len (node none (map_children (set_child entries c child)))
  IsTree-set_child levels len entries c child h (own, big, below) = (
    own,
    big,
    λ d other f.
        let at_d = sym (get_child-set_child entries c d child) ∙ f in
        elim (Bool-cases (eq_ℤ c d)) [
          | inl here ↦ rw (sym (some_inj child other (rw (here) at at_d))) h
          | inr there ↦ below d other (rw (there) at at_d)
        ],
  )

  pub IsTree-go_down :
      (levels len : ℕ) (value : Option V) (found : Option (Node V))
      (down : Option (Leaf V) × Node V) (entries : Entries V) (c : ℤ)
      → IsTree levels (len - 6) down.1
      → IsTree (suc levels) len (node none (map_children entries))
      → IsTree (suc levels) len (go_down value found down none entries c).1
  IsTree-go_down levels len none none down entries c h t = t
  IsTree-go_down levels len (some v) none down entries c h t =
      IsTree-set_child levels len entries c down.1 h t
  IsTree-go_down levels len none (some old) down entries c h t =
      IsTree-set_child levels len entries c down.1 h t
  IsTree-go_down levels len (some v) (some old) down entries c h t =
      IsTree-set_child levels len entries c down.1 h t

  module _ (j : Key) where
    abbrev map_read : Key → List Key → ℕ → Entries V → Option V
    map_read c cs depth entries = get_loop j (c ∷ cs) depth (node none (map_children entries))

    -- A key is read in the node of its chunk.
    read_here :
        (c d : Key) (cs : List Key) (depth : ℕ) (entries : Entries V) (found : Option (Node V))
        → eq_ℤ (bytes_as_u48 d) (bytes_as_u48 c) ≡ true
        → get_child entries (bytes_as_u48 d) ≡ found
        → map_read c cs depth entries ≡ get_loop j cs (suc depth) (or_new found)
    unfolding get_loop find
    read_here c d cs depth entries none same f =
        rw (sym (eq_ℤ_eq (bytes_as_u48 d) (bytes_as_u48 c) same), f)
          (sym (get_loop-list j cs (suc depth) []))
    read_here c d cs depth entries (some child) same f =
        rw (sym (eq_ℤ_eq (bytes_as_u48 d) (bytes_as_u48 c) same), f) refl

    read-set_child :
        (c d : Key) (cs : List Key) (depth : ℕ) (entries : Entries V) (child : Node V)
        → map_read c cs depth (set_child entries (bytes_as_u48 d) child) ≡ (
            if eq_ℤ (bytes_as_u48 d) (bytes_as_u48 c)
            then get_loop j cs (suc depth) child
            else map_read c cs depth entries)
    unfolding get_loop
    read-set_child c d cs depth entries child =
        rw (get_child-set_child entries (bytes_as_u48 d) (bytes_as_u48 c) child)
          (elim (Bool-cases (eq_ℤ (bytes_as_u48 d) (bytes_as_u48 c))) [
            | inl here ↦ rw (here) refl
            | inr there ↦ rw (there) refl
          ])

    changed :
        (c d : Key) (cs : List Key) (depth : ℕ) (value : Option V) (found : Option (Node V))
        (down : Option (Leaf V) × Node V) (entries : Entries V) (same : Bool)
        → get_child entries (bytes_as_u48 d) ≡ found
        → get_loop j cs (suc depth) down.1
          ≡ (if same then value else get_loop j cs (suc depth) (or_new found))
        → map_read c cs depth (set_child entries (bytes_as_u48 d) down.1) ≡ (
            if eq_ℤ (bytes_as_u48 d) (bytes_as_u48 c) && same
            then value
            else map_read c cs depth entries)
    changed c d cs depth value found down entries same f h =
        read-set_child c d cs depth entries down.1
        ∙ elim (Bool-cases (eq_ℤ (bytes_as_u48 d) (bytes_as_u48 c))) [
          | inl here ↦ rw (here) (
              h
              ∙ ap (λ z. if same then value else z)
                  (sym (read_here c d cs depth entries found here f)))
          | inr there ↦ rw (there) refl
        ]

    -- If the child reads `value` at the key or as it was, then so does the map.
    pub read-go_down :
        (c d : Key) (cs : List Key) (depth : ℕ) (value : Option V) (found : Option (Node V))
        (down : Option (Leaf V) × Node V) (entries : Entries V) (same : Bool)
        → get_child entries (bytes_as_u48 d) ≡ found
        → get_loop j cs (suc depth) down.1
          ≡ (if same then value else get_loop j cs (suc depth) (or_new found))
        → get_loop j (c ∷ cs) depth (go_down value found down none entries (bytes_as_u48 d)).1 ≡ (
            if eq_ℤ (bytes_as_u48 d) (bytes_as_u48 c) && same
            then value
            else map_read c cs depth entries)
    unfolding find
    read-go_down c d cs depth none none down entries same f h =
        elim (Bool-cases (eq_ℤ (bytes_as_u48 d) (bytes_as_u48 c))) [
          | inr there ↦ rw (there) refl
          | inl here ↦
              let gone : map_read c cs depth entries ≡ none =
                read_here c d cs depth entries none here f ∙ get_loop-list j cs (suc depth) [] in
              rw (here) (elim (Bool-cases same) [
                | inl equal ↦ rw (equal) gone
                | inr other ↦ rw (other) refl
              ])
        ]
    read-go_down c d cs depth (some v) none down entries same f h =
        changed c d cs depth (some v) none down entries same f h
    read-go_down c d cs depth none (some old) down entries same f h =
        changed c d cs depth none (some old) down entries same f h
    read-go_down c d cs depth (some v) (some old) down entries same f h =
        changed c d cs depth (some v) (some old) down entries same f h
