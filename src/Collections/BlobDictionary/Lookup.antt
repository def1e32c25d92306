-- ===== src/Collections/BlobDictionary/Lookup.antt =====
-- What is read below a node after `internalSet`.
use typeberry.Base.{
  ℕ, zero, suc, ◌-◌, ◌*◌, ◌<◌, ◌≤◌, ◌≡◌, refl, sym, ap, ◌∙◌, arith, ◌&&◌, List, [], ◌∷◌, length,
  Option, none, if◌then◌else◌, drop,
}
use typeberry.Collections.BlobKeys.{Key, is_equal_to, chunk_size, eq_ℤ, bytes_as_u48}
use typeberry.Collections.BlobKeys.Sized.{IsKey, is_equal_to-chunk_of}
use typeberry.Collections.BlobDictionary.{
  Node, node, list_children, map_children, get_child, or_new, set_in_list, internal_set, get_loop,
}
use typeberry.Collections.BlobDictionary.Lists.{
  list_read, list_read-set_in_list, Distinct-set_in_list, Keys-set_in_list,
}
use typeberry.Collections.BlobDictionary.Tree.{
  IsTree, get_loop-list, get_loop-convert, IsTree-convert,
}
use typeberry.Collections.BlobDictionary.Descend.{
  IsAt, IsAt-next, subkey_rest, IsTree-or_new, IsTree-go_down, read-go_down,
}

module _ {V : Type 0} (threshold : ℕ) where
  -- The shape is kept.
  pub after-IsTree :
      (k : Key) (value : Option V) (cs : List Key) (levels len depth : ℕ) (rest : Key) (n : Node V)
      → 0 < len
      → len ≤ 6 * suc levels
      → IsAt k len depth rest cs
      → IsTree levels len n
      → IsTree levels len (internal_set threshold k value cs depth n).1
  unfolding internal_set
  after-IsTree k value [] levels len depth rest n some_left fits (e, h, cut) t =
      absurd (omega (arith, ap length cut, h.0))
  after-IsTree k value (c ∷ cs) levels len depth rest (node own (list_children children)) some_left
        fits (e, h, cut) t =
      rw (t.0, subkey_rest k rest depth e)
        (IsTree-convert threshold levels len rest (set_in_list k rest value children).1 fits h
          (Keys-set_in_list (IsKey len) k rest value children h t.1)
          (Distinct-set_in_list k rest value children t.2))
  after-IsTree k value (c ∷ cs) zero len depth rest (node own (map_children entries)) some_left fits
        at t =
      absurd t
  after-IsTree k value (c ∷ cs) (suc levels) len depth rest (node own (map_children entries))
        some_left fits at t =
      let found = get_child entries (bytes_as_u48 c) in
      rw (t.0) (
        IsTree-go_down levels len value found
          (internal_set threshold k value cs (suc depth) (or_new found)) entries (bytes_as_u48 c)
          (after-IsTree k value cs levels (len - 6) (suc depth) (drop chunk_size rest)
            (or_new found) (omega (arith, t.1)) (omega (arith, fits))
            (IsAt-next k len depth rest c cs at)
            (IsTree-or_new levels (len - 6) entries (bytes_as_u48 c) t.2))
          (refl, t.1, t.2))

  -- Setting a value at a key, or none to delete it, changes what is read at that key only.
  pub get_loop-internal_set :
      (j k : Key) (value : Option V) (cj ck : List Key) (levels len depth : ℕ) (rj rk : Key)
      (n : Node V)
      → 0 < len
      → len ≤ 6 * suc levels
      → IsAt j len depth rj cj
      → IsAt k len depth rk ck
      → IsTree levels len n
      → get_loop j cj depth (internal_set threshold k value ck depth n).1
        ≡ (if is_equal_to rk rj then value else get_loop j cj depth n)
  unfolding internal_set
  get_loop-internal_set j k value [] ck levels len depth rj rk n left fits (e, h, cut) atk t =
      absurd (omega (arith, ap length cut, h.0))
  get_loop-internal_set j k value (c ∷ cj) [] levels len depth rj rk n left fits atj (e, h, cut) t =
      absurd (omega (arith, ap length cut, h.0))
  get_loop-internal_set j k value (c ∷ cj) (d ∷ ck) levels len depth rj rk
        (node own (list_children children)) left fits (ej, hj, cutj) (ek, hk, cutk) t =
      rw (t.0, subkey_rest k rk depth ek)
        (get_loop-convert threshold len j rj rk (c ∷ cj) depth (set_in_list k rk value children).1
            ej cutj hj hk (Keys-set_in_list (IsKey len) k rk value children hk t.1)
            (Distinct-set_in_list k rk value children t.2)
          ∙ list_read-set_in_list rj k rk value children t.2
          ∙ ap (λ z. if is_equal_to rk rj then value else z)
              (sym (get_loop-list j (c ∷ cj) depth children ∙ ap (λ z. list_read z children) ej)))
  get_loop-internal_set j k value (c ∷ cj) (d ∷ ck) zero len depth rj rk
        (node own (map_children entries)) left fits atj atk t =
      absurd t
  get_loop-internal_set j k value (c ∷ cj) (d ∷ ck) (suc levels) len depth rj rk
        (node own (map_children entries)) left fits atj atk t =
      let found = get_child entries (bytes_as_u48 d) in
      let down = internal_set threshold k value ck (suc depth) (or_new found) in
      let sj = drop chunk_size rj in
      let sk = drop chunk_size rk in
      let ih =
        get_loop-internal_set j k value cj ck levels (len - 6) (suc depth) sj sk (or_new found)
          (omega (arith, t.1)) (omega (arith, fits)) (IsAt-next j len depth rj c cj atj)
          (IsAt-next k len depth rk d ck atk)
          (IsTree-or_new levels (len - 6) entries (bytes_as_u48 d) t.2) in
      let parts : is_equal_to rk rj
          ≡ (eq_ℤ (bytes_as_u48 d) (bytes_as_u48 c) && is_equal_to sk sj) =
        rw (atk.2.0, atj.2.0) (is_equal_to-chunk_of len rk rj atk.1 atj.1) in
      rw (t.0) (
        read-go_down j c d cj depth value found down entries (is_equal_to sk sj) refl ih
        ∙ ap
            (λ z. if z then value else get_loop j (c ∷ cj) depth (node none (map_children entries)))
            (sym parts))
