-- ===== src/Collections/BlobKeys/Sized.antt =====
-- Keys of one length: what their chunks and the rests behind them tell.
use typeberry.Base.{
  ℕ, zero, suc, ◌-◌, ◌<◌, ◌≡◌, sym, ap, ◌∙◌, arith, Bool-cases, true, ◌&&◌, List, [], ◌∷◌, All,
  length, length-take, length-drop, inl, inr, take, drop,
}
use typeberry.Collections.BlobKeys.{Key, is_equal_to, chunk_size, eq_ℤ, chunk_of}
use typeberry.Collections.BlobKeys.Equality.{is_equal_to_refl, is_equal_to_eq, is_equal_to_parts}
use typeberry.Collections.BlobKeys.Injective.{eq_ℤ_eq, eq_ℤ_refl, All-drop, bytes_as_u48-injective}

-- Keys of one length, made of bytes.
abbrev pub IsKey : ℕ → Key → Type 0
IsKey len key = (length key ≡ len) × All (λ b. b < 256) key

All-take : {A : Type 0} (P : A → Type 0) (n : ℕ) (xs : List A) → All P xs → All P (take n xs)
All-take P zero xs h = tt
All-take P (suc n) [] h = tt
All-take P (suc n) (x ∷ xs) h = (h.0, All-take P n xs h.1)

pub IsKey-drop : (len : ℕ) (key : Key) → IsKey len key → IsKey (len - 6) (drop chunk_size key)
IsKey-drop len key h =
    (rw (sym h.0) (length-drop 6 key), All-drop (λ b. b < 256) chunk_size key h.1)

-- Chunks have the same number exactly if they are equal.
eq_ℤ-chunk_of :
    (len : ℕ) (a b : Key)
    → IsKey len a
    → IsKey len b
    → eq_ℤ (chunk_of a) (chunk_of b) ≡ is_equal_to (take chunk_size a) (take chunk_size b)
eq_ℤ-chunk_of len a b ha hb =
    elim (Bool-cases (is_equal_to (take chunk_size a) (take chunk_size b))) [
      | inl e ↦
          rw (e, is_equal_to_eq (take chunk_size a) (take chunk_size b) e) (eq_ℤ_refl (chunk_of b))
      | inr e ↦ elim (Bool-cases (eq_ℤ (chunk_of a) (chunk_of b))) [
        | inl f ↦
            let same : take chunk_size a ≡ take chunk_size b =
              bytes_as_u48-injective (take chunk_size a) (take chunk_size b)
                (omega (arith, length-take 6 a)) (omega (arith, length-take 6 b))
                (All-take (λ x. x < 256) 6 a ha.1) (All-take (λ x. x < 256) 6 b hb.1)
                (eq_ℤ_eq (chunk_of a) (chunk_of b) f) in
            let equal : is_equal_to (take chunk_size a) (take chunk_size b) ≡ true =
              rw (same) (is_equal_to_refl (take chunk_size b)) in
            cc
        | inr f ↦ f ∙ sym e
      ]
    ]

-- A key is another one if their chunks have the same number and their rests are the same.
pub is_equal_to-chunk_of :
    (len : ℕ) (a b : Key)
    → IsKey len a
    → IsKey len b
    → is_equal_to a b
      ≡ (eq_ℤ (chunk_of a) (chunk_of b) && is_equal_to (drop chunk_size a) (drop chunk_size b))
is_equal_to-chunk_of len a b ha hb =
    is_equal_to_parts chunk_size a b
    ∙ ap (λ z. z && is_equal_to (drop chunk_size a) (drop chunk_size b))
        (sym (eq_ℤ-chunk_of len a b ha hb))
