-- ===== src/Shuffling.antt =====
-- packages/core/shuffling/shuffling.ts: the deterministic Fisher-Yates shuffle. The hash function
-- is a parameter.
use typeberry.Base.{
  ◌==◌, ==_iff, if◌then◌else◌, ℕ, zero, suc, ◌-◌, ◌*◌, ◌/◌, ◌%◌, ◌≡◌, refl, sym, ap, arith, List,
  [], ◌∷◌, ◌++◌, length, take, drop, set, get_elem?, get_elem?-some, length-set, length-take,
  Option, none, some,
}
use mathlib.Core.List.{Perm, perm_append_singleton}
use mathlib.Core.List.Perm
use mathlib.Core.Path.{subst}
use native.Mathlib.Nat.{mod-lt}
use typeberry.Codec.Words.{le_value, le_bytes}

-- The numbers from index `i` on, `left` of them. The buffer is the entropy and the counter.
unfoldable pub numbers_loop : (List ℕ → List ℕ) → List ℕ → ℕ → ℕ → List ℕ
numbers_loop hash_bytes entropy zero i = []
numbers_loop hash_bytes entropy (suc left) i =
    let new_hash = hash_bytes (entropy ++ le_bytes 4 (i / 8)) in
    le_value (take 4 (drop ((4 * i) % 32) new_hash)) ∷ numbers_loop hash_bytes entropy left (suc i)

unfoldable pub hash_to_number_sequence : (List ℕ → List ℕ) → List ℕ → ℕ → List ℕ
hash_to_number_sequence hash_bytes entropy length_ = numbers_loop hash_bytes entropy length_ 0

length-numbers :
    (hash_bytes : List ℕ → List ℕ) (entropy : List ℕ) (left i : ℕ)
    → length (numbers_loop hash_bytes entropy left i) ≡ left
unfolding numbers_loop
length-numbers hash_bytes entropy zero i = refl
length-numbers hash_bytes entropy (suc left) i =
    ap suc (length-numbers hash_bytes entropy left (suc i))

abbrev pub entropy_bytes : ℕ
entropy_bytes = 32

abbrev pub put_front {ℓ} : {T : Type ℓ} → T → Option (List T) → Option (List T)
put_front x none = none
put_front x (some xs) = some (x ∷ xs)

module _ {T : Type 0} where
  -- The loop over the numbers: the chosen item, then the array with the last item in its place and
  -- one shorter. `none` is a read past the end of the array.
  unfoldable pub shuffle_loop : List ℕ → List T → Option (List T)
  shuffle_loop [] arr = some []
  shuffle_loop (r ∷ numbers) arr = elim (get_elem? arr (r % length arr)) [
    | none ↦ none
    | some x ↦ elim (get_elem? arr (length arr - 1)) [
      | none ↦ none
      | some last ↦
          put_front x (shuffle_loop numbers (take (length arr - 1) (set arr (r % length arr) last)))
    ]
  ]

  -- `none` also where the check of the entropy's length throws.
  unfoldable pub fisher_yates_shuffle : (List ℕ → List ℕ) → List T → List ℕ → Option (List T)
  fisher_yates_shuffle hash_bytes arr entropy =
      if length entropy == entropy_bytes
      then shuffle_loop (hash_to_number_sequence hash_bytes entropy (length arr)) arr
      else none

  last_out :
      (k : ℕ) (arr : List T) (last : T)
      → length arr ≡ suc k
      → get_elem? arr k ≡ some last
      → arr ≡ (take k arr ++ (last ∷ []))
  last_out k [] last l e = absurd (omega arith)
  last_out zero (y ∷ []) last l e = let same : y ≡ last = cc in ap (λ z. z ∷ []) same
  last_out zero (y ∷ z ∷ zs) last l e = absurd (omega arith)
  last_out (suc k) (y ∷ ys) last l e = ap (◌∷◌ y) (last_out k ys last (omega arith) e)

  -- Taking out an item and putting the last one in its place.
  swap_out :
      (k : ℕ) (arr : List T) (j : ℕ) (x last : T)
      → length arr ≡ suc k
      → get_elem? arr j ≡ some x
      → get_elem? arr k ≡ some last
      → Perm arr (x ∷ take k (set arr j last))
  swap_out k [] j x last l e g = absurd (omega arith)
  swap_out zero (y ∷ []) zero x last l e g =
      let same : y ≡ x = cc in subst (λ z. Perm (y ∷ []) (z ∷ [])) same (Perm.refl (y ∷ []))
  swap_out zero (y ∷ []) (suc j) x last l e g = absurd (cc)
  swap_out zero (y ∷ z ∷ zs) j x last l e g = absurd (omega arith)
  swap_out (suc k) (y ∷ ys) zero x last l e g =
      let same : y ≡ x = cc in
      let moved : Perm ys (last ∷ take k ys) =
        subst (λ z. Perm z (last ∷ take k ys)) (sym (last_out k ys last (omega arith) g))
          (perm_append_singleton last (take k ys)) in
      subst (λ z. Perm (y ∷ ys) (z ∷ last ∷ take k ys)) same (Perm.cons y moved)
  swap_out (suc k) (y ∷ ys) (suc j) x last l e g =
      Perm.trans (Perm.cons y (swap_out k ys j x last (omega arith) e g))
        (Perm.swap x y (take k (set ys j last)))

  shuffle_loop-Perm :
      (numbers : List ℕ) (arr : List T)
      → length numbers ≡ length arr
      → (out : List T) × (shuffle_loop numbers arr ≡ some out) × Perm arr out
  unfolding shuffle_loop
  shuffle_loop-Perm [] [] l = ([], refl, Perm.refl [])
  shuffle_loop-Perm [] (y ∷ ys) l = absurd (omega arith)
  shuffle_loop-Perm (r ∷ numbers) arr l =
      let (x, xe) = get_elem?-some arr (r % length arr) (mod-lt r {m = length arr} (omega arith)) in
      let (last, le) = get_elem?-some arr (length arr - 1) (omega arith) in
      let rest = take (length arr - 1) (set arr (r % length arr) last) in
      let (out, e, p) = shuffle_loop-Perm numbers rest (
        omega (
          arith,
          length-take (length arr - 1) (set arr (r % length arr) last),
          length-set arr (r % length arr) last,
        )) in
      (
        x ∷ out,
        rw (xe, le, shuffle_loop) (ap (put_front x) e),
        Perm.trans (swap_out (length arr - 1) arr (r % length arr) x last (omega arith) xe le)
            (Perm.cons x p),
      )

  -- For every hash function and 32 bytes of entropy the shuffle gives a list, and that is a
  -- permutation of the array.
  pub fisher_yates_shuffle-Perm :
      (hash_bytes : List ℕ → List ℕ) (arr : List T) (entropy : List ℕ)
      → length entropy ≡ entropy_bytes
      → (out : List T) × (fisher_yates_shuffle hash_bytes arr entropy ≡ some out) × Perm arr out
  unfolding fisher_yates_shuffle hash_to_number_sequence
  fisher_yates_shuffle-Perm hash_bytes arr entropy sized =
      rw ((==_iff (length entropy) entropy_bytes).1 sized) (
        shuffle_loop-Perm (numbers_loop hash_bytes entropy (length arr) 0) arr
          (length-numbers hash_bytes entropy (length arr) 0))
