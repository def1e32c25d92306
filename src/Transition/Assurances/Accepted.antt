-- ===== src/Transition/Assurances/Accepted.antt =====
-- Which inputs the transition accepts, and what it makes of them.
use typeberry.Base.{
  ℕ, zero, suc, ◌+◌, ◌<◌, ◌≡◌, refl, sym, ap, ◌∙◌, arith, List, [], length, length-replicate,
  get_or, replicate,
}
use typeberry.Transition.Assurances.{
  Bytes, Crypto, ChainSpec, AssurancesInput, AssurancesUpdate, ok, bind-eq-ok, checks_loop,
  cores_loop, verify_signatures, transition,
}
use typeberry.Transition.Assurances.Signatures.{
  Verified, verify_signatures-Verified, Verified-verify_signatures,
}
use typeberry.Transition.Assurances.Votes.{votes}
use typeberry.Transition.Assurances.Checked.{Checked, checks_loop-counts, checks_loop-Checked}
use typeberry.Transition.Assurances.Cores.{
  Pending, available, remaining, cores_loop-suffix, cores_loop-Pending, clear_cores-remaining,
}

get_or-replicate : (n c : ℕ) → ◌≡◌ {A = ℕ} (get_or (replicate n 0) c 0) 0
get_or-replicate zero c = refl
get_or-replicate (suc n) zero = refl
get_or-replicate (suc n) (suc c) = get_or-replicate n c

module _ {R : Type 0} (crypto : Crypto) (spec : ChainSpec) (keys : List Bytes) where
  abbrev pub votes_of : AssurancesInput R → ℕ → ℕ
  votes_of input c = votes c input.assurances

  -- The assurances are anchored, ordered and of the right length, they are for cores with a pending
  -- report, and all their signatures are valid.
  abbrev pub IsAccepted : AssurancesInput R → Type 0
  IsAccepted input =
      Checked spec.cores_count input.parent_hash 0 input.assurances
      × Pending input.slot spec.validators_super_majority (votes_of input) 0
          input.disputes_avail_assignment
      × Verified crypto keys input.assurances

  abbrev pub expected : AssurancesInput R → AssurancesUpdate R
  expected input =
      let assignment = input.disputes_avail_assignment in
      record {
        available_reports =
            available input.slot spec.validators_super_majority (votes_of input) 0 assignment;
        availability_assignment =
            remaining input.slot spec.validators_super_majority (votes_of input) 0 assignment;
      }

  -- An accepted input whose assignment has an entry for each core is carried out: the available
  -- reports are those of the cores that a super majority of the assurances has the bit of, in the
  -- order of the cores, and the cores that are neither available nor five slots past their timeout
  -- keep their report.
  pub transition-expected :
      (input : AssurancesInput R)
      → length input.disputes_avail_assignment ≡ spec.cores_count
      → IsAccepted input
      → transition crypto spec keys input ≡ ok (expected input)
  unfolding transition
  transition-expected input n (checked, pending, verified) =
      let assignment = input.disputes_avail_assignment in
      let (counts, e, count) =
        checks_loop-counts spec.cores_count input.parent_hash 0 (replicate spec.cores_count 0)
          input.assurances checked (length-replicate spec.cores_count 0) in
      let counted : (c : ℕ) → c < 0 + length assignment → get_or counts c 0 ≡ votes_of input c =
        λ c l. count c (omega (arith, n)) ∙ omega (arith, get_or-replicate spec.cores_count c) in
      let cleared =
        cores_loop-suffix input.slot spec.validators_super_majority (votes_of input) 0 assignment []
          assignment counts refl refl counted pending in
      rw
        (
          e,
          sym n,
          cleared,
          verify_signatures-Verified crypto keys input.assurances verified,
          clear_cores-remaining input.slot spec.validators_super_majority (votes_of input) 0 []
              assignment refl,
        )
        refl

  -- If the transition ends well on an assignment with an entry for each core, its input was accepted.
  pub transition-IsAccepted :
      (input : AssurancesInput R) (update : AssurancesUpdate R)
      → length input.disputes_avail_assignment ≡ spec.cores_count
      → transition crypto spec keys input ≡ ok update
      → IsAccepted input
  unfolding transition
  transition-IsAccepted input update n h =
      let assignment = input.disputes_avail_assignment in
      let slot = input.slot in
      let majority = spec.validators_super_majority in
      let (counts, e, h1) =
        bind-eq-ok
          (checks_loop spec.cores_count input.parent_hash 0 (replicate spec.cores_count 0)
            input.assurances)
          _ h in
      let checked =
        checks_loop-Checked spec.cores_count input.parent_hash 0 (replicate spec.cores_count 0)
          counts input.assurances e in
      let (counts', e', count) =
        checks_loop-counts spec.cores_count input.parent_hash 0 (replicate spec.cores_count 0)
          input.assurances checked (length-replicate spec.cores_count 0) in
      let same : counts ≡ counts' = cc in
      let counted : (c : ℕ) → c < 0 + length assignment → get_or counts c 0 ≡ votes_of input c =
        λ c l.
          ap (λ z. get_or z c 0) same
          ∙ count c (omega (arith, n))
          ∙ omega (arith, get_or-replicate spec.cores_count c) in
      let (cleared, f, h2) =
        bind-eq-ok (cores_loop slot majority spec.cores_count 0 counts assignment) _ h1 in
      let (done, g, _) = bind-eq-ok (verify_signatures crypto keys input.assurances) _ h2 in
      (
        checked,
        cores_loop-Pending slot majority (votes_of input) 0 assignment [] assignment counts cleared
            refl refl counted (rw (n) f),
        Verified-verify_signatures crypto keys input.assurances g,
      )
