-- ===== src/Collections/BlobDictionary/Tree.antt =====
-- The shape of a dictionary whose keys have one length, and what is read in it.
use typeberry.Base.{
  ℕ, zero, suc, ◌+◌, ◌-◌, ◌*◌, ◌<◌, ◌≤◌, ◌≡◌, refl, sym, ap, ◌∙◌, arith, Bool, Bool-cases, true,
  false, ◌&&◌, List, [], ◌∷◌, length, length-drop, drop-drop, Option, Option-cases, none, some, inl,
  inr, take, drop, ltb, ltb→lt,
}
use typeberry.Base.Int.{ℤ}
use typeberry.Collections.BlobKeys.{Key, chunk_size, chunk_of, chunks_loop, chunks}
use typeberry.Collections.BlobKeys.Sized.{IsKey}
use typeberry.Collections.BlobDictionary.{
  Leaf, Node, node, list_children, map_children, Entries, empty_map, get_child, or_new,
  from_list_node, convert, or_else, get_loop, go_to,
}
use typeberry.Collections.BlobDictionary.Lists.{list_read, Keys, Distinct}
use typeberry.Collections.BlobDictionary.Convert.{
  IsListNode, AllLists, child_read, entries_read, entries_read-from_list_node,
  AllLists-from_list_node,
}

-- `cs` are the chunks of a string.
abbrev pub Cut : Key → List Key → Type 0
Cut rest [] = rest ≡ []
Cut rest (c ∷ cs) = (c ≡ take chunk_size rest) × Cut (drop chunk_size rest) cs

Cut-chunks_loop : (fuel : ℕ) (key : Key) → length key ≤ fuel → Cut key (chunks_loop fuel key)
Cut-chunks_loop zero [] h = refl
Cut-chunks_loop zero (b ∷ key) h = absurd (omega arith)
Cut-chunks_loop (suc fuel) [] h = refl
Cut-chunks_loop (suc fuel) (b ∷ key) h =
    (refl, Cut-chunks_loop fuel (drop chunk_size (b ∷ key)) (omega (arith, length-drop 5 key)))

pub Cut-chunks : (key : Key) → Cut key (chunks key)
Cut-chunks key = Cut-chunks_loop (length key) key (omega arith)

pub next_rest :
    (j rest : Key) (depth : ℕ)
    → drop (depth * chunk_size) j ≡ rest
    → drop (suc depth * chunk_size) j ≡ drop chunk_size rest
next_rest j rest depth e =
    let turn : suc depth * 6 ≡ depth * 6 + 6 = omega arith in
    ap (λ (n : ℕ). drop n j) turn
    ∙ sym (drop-drop (depth * chunk_size) chunk_size j)
    ∙ ap (drop chunk_size) e

and_left : (a b : Bool) → (a && b) ≡ true → a ≡ true
and_left true b h = refl
and_left false b h = h

module _ {V : Type 0} where
  or_else-none : (o : Option V) → or_else o none ≡ o
  or_else-none none = refl
  or_else-none (some v) = refl

  no_lists : (len : ℕ) → AllLists {V = V} len empty_map
  no_lists len c child f = absurd (cc)

  -- Keys of length `len` are below a node: it has no leaf of its own, its list is of distinct keys of
  -- that length, and a map stands only where the keys go on, over at most `levels` more.
  abbrev pub IsTree : ℕ → ℕ → Node V → Type 0
  IsTree levels len (node own (list_children children)) =
      (own ≡ none) × Keys (IsKey len) children × Distinct children
  IsTree zero len (node own (map_children entries)) = ⊥
  IsTree (suc levels) len (node own (map_children entries)) =
      (own ≡ none)
      × (6 < len)
      × ((c : ℤ) (child : Node V)
          → get_child entries c ≡ some child
          → IsTree levels (len - 6) child)

  pub get_loop-list :
      (j : Key) (cs : List Key) (depth : ℕ) (children : List (Key × Leaf V))
      → get_loop j cs depth (node none (list_children children))
        ≡ list_read (drop (depth * chunk_size) j) children
  unfolding get_loop
  get_loop-list j [] depth children =
      elim (Option-cases (list_read (drop (depth * chunk_size) j) children)) [
        | inl e ↦ rw (e) refl
        | inr (v, e) ↦ rw (e) refl
      ]
  get_loop-list j (c ∷ cs) depth children =
      elim (Option-cases (list_read (drop (depth * chunk_size) j) children)) [
        | inl e ↦ rw (e) (get_loop-list j cs depth children ∙ e)
        | inr (v, e) ↦ rw (e) refl
      ]

  -- Below a map whose nodes are lists, a key is read in the list of its chunk.
  get_loop-entries :
      (len : ℕ) (j rest : Key) (c : Key) (cs : List Key) (depth : ℕ) (entries : Entries V)
      → drop (depth * chunk_size) j ≡ rest
      → c ≡ take chunk_size rest
      → AllLists len entries
      → get_loop j (c ∷ cs) depth (node none (map_children entries)) ≡ entries_read rest entries
  unfolding get_loop
  get_loop-entries len j rest c cs depth entries e ec h =
      rw (ec) (go (get_child entries (chunk_of rest)) (λ child f. h (chunk_of rest) child f))
    where
      go :
          (found : Option (Node V))
          → ((child : Node V) → found ≡ some child → IsListNode len child)
          → go_to found (get_loop j cs (suc depth) (or_new found))
            ≡ child_read (drop chunk_size rest) found
      go none k = refl
      go (some (node own (list_children children))) k = rw ((k _ refl).0) (
          get_loop-list j cs (suc depth) children
          ∙ ap (λ z. list_read z children) (next_rest j rest depth e))
      go (some (node own (map_children entries))) k = absurd (k _ refl)

  -- A list reads the same after it was converted.
  pub get_loop-convert :
      (threshold len : ℕ) (j rest sub : Key) (cs : List Key) (depth : ℕ)
      (children : List (Key × Leaf V))
      → drop (depth * chunk_size) j ≡ rest
      → Cut rest cs
      → IsKey len rest
      → IsKey len sub
      → Keys (IsKey len) children
      → Distinct children
      → get_loop j cs depth (node none (convert threshold sub children)) ≡ list_read rest children
  unfolding convert
  get_loop-convert threshold len j rest sub cs depth children e cut hr hs hk d =
      elim (Bool-cases (ltb chunk_size (length sub) && ltb threshold (length children))) [
        | inr stays ↦
            rw (stays) (get_loop-list j cs depth children ∙ ap (λ z. list_read z children) e)
        | inl moves ↦ rw (moves) (below cs cut (ltb→lt 6 (length sub) (and_left _ _ moves)))
      ]
    where
      below :
          (cs : List Key)
          → Cut rest cs
          → 6 < length sub
          → get_loop j cs depth (node none (map_children (from_list_node children empty_map)))
            ≡ list_read rest children
      below [] cut big = absurd (omega (arith, ap length cut, hr.0, hs.0))
      below (c ∷ cs) cut big =
          get_loop-entries (len - 6) j rest c cs depth (from_list_node children empty_map) e cut.0
            (AllLists-from_list_node len children empty_map hk (no_lists (len - 6)))
          ∙ entries_read-from_list_node len rest children empty_map hr hk d (no_lists (len - 6))
          ∙ or_else-none (list_read rest children)

  IsListNode-IsTree :
      (levels len : ℕ) (child : Node V) → IsListNode len child → IsTree levels len child
  IsListNode-IsTree levels len (node own (list_children children)) h = h
  IsListNode-IsTree levels len (node own (map_children entries)) h = absurd h

  IsTree-map :
      (levels len : ℕ) (children : List (Key × Leaf V))
      → 6 < len
      → len ≤ 6 * suc levels
      → Keys (IsKey len) children
      → IsTree levels len (node none (map_children (from_list_node children empty_map)))
  IsTree-map zero len children big fits hk = absurd (omega arith)
  IsTree-map (suc levels) len children big fits hk = (
    refl,
    big,
    λ c child f.
        IsListNode-IsTree levels (len - 6) child
          (AllLists-from_list_node len children empty_map hk (no_lists (len - 6)) c child f),
  )

  pub IsTree-convert :
      (threshold levels len : ℕ) (sub : Key) (children : List (Key × Leaf V))
      → len ≤ 6 * suc levels
      → IsKey len sub
      → Keys (IsKey len) children
      → Distinct children
      → IsTree levels len (node none (convert threshold sub children))
  unfolding convert
  IsTree-convert threshold levels len sub children fits hs hk d =
      elim (Bool-cases (ltb chunk_size (length sub) && ltb threshold (length children))) [
        | inr stays ↦ rw (stays) (refl, hk, d)
        | inl moves ↦
            let long = ltb→lt 6 (length sub) (and_left _ _ moves) in
            rw (moves) (IsTree-map levels len children (omega (arith, long, hs.0)) fits hk)
      ]
