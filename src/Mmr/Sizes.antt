-- ===== src/Mmr/Sizes.antt =====
-- Mountains are no larger than the number of hashes in the range.
use typeberry.Base.{
  ℕ, zero, suc, ◌+◌, ◌^◌, ◌<◌, ◌≡◌, ap, ◌∙◌, arith, List, [], ◌∷◌, length, length-append, All,
}
use typeberry.Base.Powers.{double}
use typeberry.Mmr.{Mountain, MmrHasher}
use typeberry.Mmr.Leaves.{Perfect, Range}

module _ {H : Type 0} (hasher : MmrHasher H) where
  length-Perfect :
      (j : ℕ) (peak : H) (leaves : List H) → Perfect hasher j peak leaves → length leaves ≡ 2 ^ j
  length-Perfect zero peak leaves p = rw (p) (omega arith)
  length-Perfect (suc j) peak leaves (a, b, xs, ys, p, q, h, e) = rw (e) (
      omega
        (arith, length-append xs ys, length-Perfect j a xs p, length-Perfect j b ys q, double j))

  -- The mountains of a range are smaller than any bound on the number of its leaves.
  pub Range-All :
      (k bound : ℕ) (ms : List (Mountain H)) (leaves : List H)
      → Range hasher k ms leaves
      → length leaves < bound
      → All (λ m. m.size < bound) ms
  Range-All k bound [] leaves r h = tt
  Range-All k bound (m ∷ ms) leaves (j, xs, ys, l, s, p, r, e) h =
      let total : length leaves ≡ length xs + length ys = ap length e ∙ length-append xs ys in
      (
        omega (arith, total, length-Perfect j m.peak ys p),
        Range-All (suc j) bound ms xs r (omega (arith, total)),
      )
