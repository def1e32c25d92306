-- ===== src/Mmr/Leaves.antt =====
-- The mountains of a range are perfect trees over the leaves in the order of their arrival.
use typeberry.Base.{
  ℕ, zero, suc, ◌+◌, ◌^◌, ◌≤◌, ◌≡◌, refl, sym, ap, ◌∙◌, arith, Bool-cases, ◌==◌, List, [], ◌∷◌,
  ◌++◌, inl, inr, append_assoc, ==_iff,
}
use mathlib.Core.Bool.{false≢true}
use typeberry.Base.Powers.{double, pow_inj}
use typeberry.Mmr.{Mountain, MmrHasher, merge_with, append_loop, append}

taller : (k j : ℕ) → k ≤ j → (¬ (k ≡ j)) → suc k ≤ j
taller k j l h = elim (Bool-cases (k == j)) [
  | inl e ↦ absurd (h ((==_iff k j).0 e))
  | inr e ↦ ground arith
]

module _ {H : Type 0} (hasher : MmrHasher H) where
  -- `peak` is the root of the perfect tree of height `j` over `leaves`.
  abbrev pub Perfect : ℕ → H → List H → Type 0
  Perfect zero peak leaves = leaves ≡ (peak ∷ [])
  Perfect (suc j) peak leaves =
      (a : H) × (b : H) × (xs : List H) × (ys : List H) × Perfect j a xs
      × Perfect j b ys
      × (peak ≡ hasher.hash_concat a b)
      × (leaves ≡ (xs ++ ys))

  -- The mountains have rising heights of at least `k`, and over all their leaves are `leaves`.
  abbrev pub Range : ℕ → List (Mountain H) → List H → Type 0
  Range k [] leaves = leaves ≡ []
  Range k (m ∷ mountains) leaves =
      (j : ℕ) × (xs : List H) × (ys : List H) × (k ≤ j)
      × (m.size ≡ 2 ^ j)
      × Perfect j m.peak ys
      × Range (suc j) mountains xs
      × (leaves ≡ (xs ++ ys))

  Range-lower : (k : ℕ) (ms : List (Mountain H)) (ls : List H) → Range (suc k) ms ls → Range k ms ls
  Range-lower k [] ls r = r
  Range-lower k (m ∷ ms) ls (j, xs, ys, l, s, p, r, e) = (j, xs, ys, omega arith, s, p, r, e)

  append_loop-Range :
      (k : ℕ) (new : Mountain H) (ms : List (Mountain H)) (xs ys : List H)
      → new.size ≡ 2 ^ k
      → Perfect k new.peak ys
      → Range k ms xs
      → Range k (append_loop hasher new ms) (xs ++ ys)
  unfolding append_loop
  append_loop-Range k new [] xs ys s p r = (k, [], ys, omega arith, s, p, refl, ap (λ z. z ++ ys) r)
  append_loop-Range k new (m ∷ ms) xs ys s p (j, us, vs, l, t, q, r, e) =
      elim (Bool-cases (m.size == new.size)) [
        | inl equal ↦
            let height : k ≡ j = pow_inj k j l (sym t ∙ ((==_iff m.size new.size).0 equal ∙ s)) in
            rw (equal) (
              Range-lower k _ _ (
                rw (e, append_assoc us vs ys)
                  (append_loop-Range (suc k) (merge_with hasher m new) ms us (vs ++ ys)
                    (ap (λ z. z + new.size) t
                      ∙ ap (λ z. z + new.size) (ap (λ z. 2 ^ z) (sym height))
                      ∙ ap (λ z. 2 ^ k + z) s
                      ∙ double k)
                    (m.peak, new.peak, vs, ys, rw (height) q, p, refl, refl) (rw (height) r))))
        | inr other ↦
            let height : suc k ≤ j = taller k j l (λ e.
              false≢true
                (sym other ∙ (==_iff m.size new.size).1 (t ∙ (ap (λ z. 2 ^ z) (sym e)) ∙ sym s))) in
            rw (other) (k, xs, ys, omega arith, s, p, (j, us, vs, height, t, q, r, e), refl)
      ]

  -- If the mountains are perfect trees of rising heights over some leaves, then after appending a
  -- hash they are such trees over those leaves and the hash behind them.
  pub append-Range :
      (hash : H) (ms : List (Mountain H)) (leaves : List H)
      → Range 0 ms leaves
      → Range 0 (append hasher hash ms) (leaves ++ (hash ∷ []))
  unfolding append
  append-Range hash ms leaves r =
      append_loop-Range 0 (record { peak = hash; size = 1 }) ms leaves (hash ∷ []) refl refl r
