-- ===== src/Transition/Disputes/Checks/Signed.antt =====
-- The signatures that are prepared: one for each vote.
use typeberry.Base.{
  ◌≡◌, refl, sym, inl, inr, arith, List, [], ◌∷◌, ◌++◌, length, length-append, All, Option-cases,
  get_elem?, get_elem?-some,
}
use typeberry.Transition.HashSet.{Hash}
use typeberry.Transition.Assurances.{SignatureInput}
use typeberry.Transition.Disputes.{
  ok, Judgement, Verdict, ValidatorData, DisputesState, ChainSpec, prepare_judgement_signature,
}
use typeberry.Transition.Disputes.Checks.{validators_of, prepare_votes, prepare_judgements}
use typeberry.Transition.Disputes.Checks.Guards.{Returns, bind-eq-ok, bind-Returns}
use typeberry.Transition.Disputes.Checks.Votes.{AreKnown, total_votes}

module _ (spec : ChainSpec) (state : DisputesState) where
  module _ (k : List ValidatorData) (r : Hash) where
    prepare_votes-known :
        (votes : List Judgement)
        → AreKnown k votes
        → (inputs : List SignatureInput) × (prepare_votes spec state k r votes ≡ ok inputs)
    unfolding prepare_votes
    prepare_votes-known [] h = ([], refl)
    prepare_votes-known (j ∷ votes) h =
        let (validator, e) = get_elem?-some k j.index h.0 in
        let (inputs, rest) = prepare_votes-known votes h.1 in
        (
          prepare_judgement_signature j r validator.ed25519 ∷ inputs,
          rw (prepare_votes, e, rest) refl,
        )

    prepare_votes-length :
        (votes : List Judgement) (inputs : List SignatureInput)
        → prepare_votes spec state k r votes ≡ ok inputs
        → length inputs ≡ length votes
    unfolding prepare_votes
    prepare_votes-length [] inputs h = let e : [] ≡ inputs = cc in rw (sym e) refl
    prepare_votes-length (j ∷ votes) inputs h = elim (Option-cases (get_elem? k j.index)) [
      | inl missing ↦ absurd (let bad = rw (prepare_votes, missing) at h in cc)
      | inr (validator, e) ↦
          let (rest, q, done) =
            bind-eq-ok (prepare_votes spec state k r votes) _ (rw (prepare_votes, e) at h) in
          let ih = prepare_votes-length votes rest q in
          let made : (prepare_judgement_signature j r validator.ed25519 ∷ rest) ≡ inputs = cc in
          rw (sym made) (omega arith)
    ]

    prepare_votes-Returns : (votes : List Judgement) → Returns (prepare_votes spec state k r votes)
    unfolding prepare_votes
    prepare_votes-Returns [] = tt
    prepare_votes-Returns (j ∷ votes) = elim (Option-cases (get_elem? k j.index)) [
      | inl missing ↦ rw (prepare_votes, missing) tt
      | inr (validator, e) ↦
          rw (prepare_votes, e)
            (bind-Returns (prepare_votes spec state k r votes) _ (prepare_votes-Returns votes)
              (λ a h. tt))
    ]

  -- Votes of validators that there are give inputs.
  pub prepare_judgements-known :
      (verdicts : List Verdict)
      → All (λ v. AreKnown (validators_of spec state v.votes_epoch) v.votes) verdicts
      → (inputs : List SignatureInput) × (prepare_judgements spec state verdicts ≡ ok inputs)
  unfolding prepare_judgements
  prepare_judgements-known [] h = ([], refl)
  prepare_judgements-known (v ∷ verdicts) h =
      let (first, e) =
        prepare_votes-known (validators_of spec state v.votes_epoch) v.work_report_hash v.votes
          h.0 in
      let (inputs, rest) = prepare_judgements-known verdicts h.1 in
      (first ++ inputs, rw (e, rest) refl)

  -- There is one input for each vote.
  pub prepare_judgements-length :
      (verdicts : List Verdict) (inputs : List SignatureInput)
      → prepare_judgements spec state verdicts ≡ ok inputs
      → length inputs ≡ total_votes verdicts
  unfolding prepare_judgements
  prepare_judgements-length [] inputs h = let e : [] ≡ inputs = cc in rw (sym e) refl
  prepare_judgements-length (v ∷ verdicts) inputs h =
      let k = validators_of spec state v.votes_epoch in
      let (first, p, h1) = bind-eq-ok (prepare_votes spec state k v.work_report_hash v.votes) _ h in
      let (rest, q, done) = bind-eq-ok (prepare_judgements spec state verdicts) _ h1 in
      let made : (first ++ rest) ≡ inputs = cc in
      rw (sym made) (
        omega (
          arith,
          length-append first rest,
          prepare_votes-length k v.work_report_hash v.votes first p,
          prepare_judgements-length verdicts rest q,
        ))

  pub prepare_judgements-Returns :
      (verdicts : List Verdict) → Returns (prepare_judgements spec state verdicts)
  unfolding prepare_judgements
  prepare_judgements-Returns [] = tt
  prepare_judgements-Returns (v ∷ verdicts) =
      let k = validators_of spec state v.votes_epoch in
      bind-Returns (prepare_votes spec state k v.work_report_hash v.votes) _
        (prepare_votes-Returns k v.work_report_hash v.votes)
        (λ first e.
          bind-Returns (prepare_judgements spec state verdicts) _
            (prepare_judgements-Returns verdicts) (λ rest q. tt))
