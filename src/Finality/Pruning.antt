-- ===== src/Finality/Pruning.antt =====
-- What the finalizer gives up: nothing that it keeps is forgotten, and the finalized block's state
-- stays.
use typeberry.Base.{
  ℕ, suc, ◌+◌, ◌-◌, ◌*◌, ◌==◌, ◌<◌, ◌≡◌, refl, ◌∙◌, arith, Bool, Bool-cases, Option-cases, true,
  false, ◌||◌, leb, List, [], ◌∷◌, length, take, drop, get_elem?, get_elem?-some, Option, none,
  some, if◌then◌else◌, ==_iff, inl, inr,
}
use mathlib.Core.Path.{subst}
use typeberry.Transition.HashSet.{Hash, has, has-append}
use typeberry.Transition.AccumulateQueue.{is_empty}
use typeberry.Finality.{Chain, Finalizer, Attached, FinalityResult, find_index, collect, finalize}

-- Whether some chain has the block.
abbrev pub any_has : List Chain → Hash → Bool
any_has [] h = false
any_has (c ∷ cs) h = has c h || any_has cs h

-- What `find_index` answers: the block is at the place, and not before it.
abbrev At : Hash → Chain → Option ℕ → Type 0
At h c none = has c h ≡ false
At h c (some i) =
    (has (take i c) h ≡ false)
    × ((x : Hash) → has c x ≡ (has (take i c) x || (x == h || has (drop (i + 1) c) x)))

find_index-At : (h : Hash) (c : Chain) → At h c (find_index h c)
unfolding find_index
find_index-At h [] = refl
find_index-At h (y ∷ c) = elim (Bool-cases (y == h)) [
  | inl g ↦ let same : y ≡ h = (==_iff y h).0 g in rw (g, find_index) (refl, λ x. rw (same) refl)
  | inr g ↦
      let other : (h == y) ≡ false = ground arith in
      elim (Option-cases (find_index h c)) [
        | inl k ↦ rw (g, k, find_index) (rw (other) (subst (At h c) k (find_index-At h c)))
        | inr (i, k) ↦
            let (before, split) = subst (At h c) k (find_index-At h c) in
            let step : suc i + 1 ≡ suc (i + 1) = omega arith in
            rw (g, k, find_index) (rw (other) before, λ x. rw (step) (ground (arith, split x)))
      ]
]

collect-prunable :
    (finalized : Hash) (chains : List Chain) (newly : List Hash)
    → has (collect finalized chains newly).prunable finalized ≡ false
unfolding collect
collect-prunable finalized [] newly = refl
collect-prunable finalized (c ∷ cs) newly = elim (Option-cases (find_index finalized c)) [
  | inl e ↦
      let gone = subst (At finalized c) e (find_index-At finalized c) in
      let rest = collect-prunable finalized cs newly in
      rw (e, collect) (has-append c _ finalized ∙ rw (gone) rest)
  | inr (i, e) ↦
      let (before, split) = subst (At finalized c) e (find_index-At finalized c) in
      let rest = collect-prunable finalized cs (if is_empty newly then take (i + 1) c else newly) in
      rw (e, collect) (has-append (take i c) _ finalized ∙ rw (before) rest)
]

kept-any :
    (d : Chain) (ds : List Chain) (x : Hash)
    → any_has (if is_empty d then ds else d ∷ ds) x ≡ (has d x || any_has ds x)
kept-any [] ds x = refl
kept-any (y ∷ d) ds x = refl

first :
    (c p q k cs : Bool)
    → (c || cs) ≡ true
    → (cs ≡ true → (p || (q || k)) ≡ true)
    → ((c || p) || (q || k)) ≡ true
first true p q k cs h g = refl
first false p q k cs h g = g h

both :
    (t p q d k cs : Bool)
    → ((t || (q || d)) || cs) ≡ true
    → (cs ≡ true → (p || (q || k)) ≡ true)
    → ((t || p) || (q || (d || k))) ≡ true
both true p q d k cs h g = refl
both false p true d k cs h g = ground arith
both false p false true k cs h g = ground arith
both false p false false k cs h g = g h

collect-covers :
    (finalized : Hash) (chains : List Chain) (newly : List Hash) (x : Hash)
    → any_has chains x ≡ true
    → (has (collect finalized chains newly).prunable x
        || (x == finalized || any_has (collect finalized chains newly).new_unfinalized x))
      ≡ true
unfolding collect
collect-covers finalized [] newly x h = absurd (cc)
collect-covers finalized (c ∷ cs) newly x h = elim (Option-cases (find_index finalized c)) [
  | inl e ↦
      let rest = collect finalized cs newly in
      rw (e, collect)
        (rw (has-append c rest.prunable x) (
          first (has c x) (has rest.prunable x) (x == finalized) (any_has rest.new_unfinalized x)
            (any_has cs x) h (collect-covers finalized cs newly x)))
  | inr (i, e) ↦
      let (before, split) = subst (At finalized c) e (find_index-At finalized c) in
      let rest = collect finalized cs (if is_empty newly then take (i + 1) c else newly) in
      rw (e, collect)
        (rw
          (has-append (take i c) rest.prunable x, kept-any (drop (i + 1) c) rest.new_unfinalized x)
          (both (has (take i c) x) (has rest.prunable x) (x == finalized) (has (drop (i + 1) c) x)
            (any_has rest.new_unfinalized x) (any_has cs x) (rw (split x) at h)
            (collect-covers finalized cs (if is_empty newly then take (i + 1) c else newly) x)))
]

-- A chain of more than `2 * depth` blocks finalizes its block with `depth` on top of it:
-- of the blocks of all chains each but that one is pruned or kept, and that one is not pruned,
-- unless it is the last finalized block.
pub finalize-covers :
    (depth : ℕ) (f : Finalizer) (a : Attached)
    → 2 * depth < length a.extended
    → (r : FinalityResult) × (next : Finalizer) × (finalize depth f a ≡ (some r, next))
      × (get_elem? a.extended (length a.extended - 1 - depth) ≡ some r.finalized_hash)
      × (next.last_finalized_hash ≡ r.finalized_hash)
      × (has r.prunable_state_hashes r.finalized_hash ≡ (r.finalized_hash == f.last_finalized_hash))
      × ((x : Hash)
          → any_has a.chains x ≡ true
          → (has r.prunable_state_hashes x || (x == r.finalized_hash || any_has next.unfinalized x))
            ≡ true)
unfolding finalize
finalize-covers depth f a long =
    let (finalized, at) = get_elem?-some a.extended (length a.extended - 1 - depth) (omega arith) in
    let over : leb (length a.extended) (2 * depth) ≡ false = ground arith in
    let collected = collect finalized a.chains [] in
    (
      record {
        finalized_hash = finalized;
        finalized_chain = take (length a.extended - 1 - depth + 1) a.extended;
        newly_finalized_headers = collected.newly_finalized;
        prunable_state_hashes = f.last_finalized_hash ∷ collected.prunable;
      },
      record { last_finalized_hash = finalized; unfinalized = collected.new_unfinalized },
      rw (over, at) refl,
      at,
      refl,
      ground (arith, collect-prunable finalized a.chains []),
      λ x h. ground (arith, collect-covers finalized a.chains [] x h),
    )
