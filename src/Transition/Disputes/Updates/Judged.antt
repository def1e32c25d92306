-- ===== src/Transition/Disputes/Updates/Judged.antt =====
-- Which disputes are accepted.
use typeberry.Base.{◌≡◌, ◌↔◌, refl, sym, ◌∙◌, arith, false, List, All, map, length, length-map}
use typeberry.Transition.Assurances.{SignatureInput}
use typeberry.Transition.Disputes.{
  ◌>>=◌, ok, Verdict, Culprit, Fault, DisputesExtrinsic, DisputesRecords, DisputesState, ChainSpec,
  Crypto, prepare_culprit_signature, prepare_fault_signature, vefify_all_signatures,
}
use typeberry.Transition.Disputes.Sorts.{Ascending, index_of}
use typeberry.Transition.Disputes.Checks.{prepare_judgements, is_judged}
use typeberry.Transition.Disputes.Checks.Guards.{
  Returns, bind-eq-ok, bind-Returns, AllValid, AllValid-within,
}
use typeberry.Transition.Disputes.Checks.Offenders.{
  verify_culprits_iff, verify_faults_iff, verify_culprits-Returns, verify_faults-Returns,
}
use typeberry.Transition.Disputes.Checks.Votes.{
  IsTimely, total_votes, verify_verdicts_iff, verify_verdicts-Returns,
}
use typeberry.Transition.Disputes.Checks.Signed.{
  prepare_judgements-length, prepare_judgements-Returns,
}
use typeberry.Transition.Disputes.Updates.{
  cleared_loop, first_error, get_offenders, Transitioned, transition,
}
use typeberry.Transition.Disputes.Updates.Cleared.{get_cleared_core_assignment-ok}
use typeberry.Transition.Disputes.Updates.Splits.{
  IsSplit, verify_votes_for_work_reports_iff, verify_votes_for_work_reports-Returns,
}
use typeberry.Transition.Disputes.Updates.Votes.{
  report_of, entry, calculate_votes-AreUnique, calculate_votes-Ascending,
}
use typeberry.Transition.Disputes.Updates.Records.{
  AreSets, AreUpdated, new_items, get_offenders-IsDistinct, get_updated_disputes_records-AreUpdated,
}
use typeberry.Transition.Disputes.Updates.Guilty.{
  IsCulpritOf, IsFaultOf, sets, IsCulprit-All, IsFault-All,
}
use typeberry.Transition.Disputes.Updates.Steps.{
  first_error_iff, first_error-Returns, verify_if_already_judged_iff,
  verify_if_already_judged-Returns, votes, input_of, sets_of, checks, updated, transition-steps,
}

module _ (crypto : Crypto) (spec : ChainSpec) (state : DisputesState)
    (disputes : DisputesExtrinsic) where
  -- The answers to the signatures of the judgements, the culprits and the faults are all good.
  pub record AreSigned : Type 0 where
    pub judgements : List SignatureInput
    pub prepared : prepare_judgements spec state disputes.verdicts ≡ ok judgements
    pub judged : AllValid (crypto.verify judgements) 0 (length judgements)
    pub accused :
        AllValid
          (crypto.verify (map prepare_culprit_signature disputes.culprits))
          0
          (length disputes.culprits)
    pub faulted :
        AllValid
          (crypto.verify (map prepare_fault_signature disputes.faults))
          0
          (length disputes.faults)

  -- Verdicts ascend by their reports, votes by their validators; they are timely, split and new;
  -- culprits and faults ascend by their keys and are guilty; and all is signed.
  pub record IsAccepted : Type 0 where
    pub reports : Ascending report_of disputes.verdicts
    pub validators : All (λ (v : Verdict). Ascending index_of v.votes) disputes.verdicts
    pub timely : All (IsTimely spec state) disputes.verdicts
    pub split : All (IsSplit spec disputes) (map entry disputes.verdicts)
    pub unjudged :
        All
          (λ (v : Verdict). is_judged state.disputes_records v.work_report_hash ≡ false)
          disputes.verdicts
    pub culprit_order : Ascending (λ (c : Culprit). c.key) disputes.culprits
    pub culprits : All (IsCulpritOf state spec disputes.verdicts) disputes.culprits
    pub fault_order : Ascending (λ (f : Fault). f.key) disputes.faults
    pub faults : All (IsFaultOf state spec disputes.verdicts) disputes.faults
    pub signatures : AreSigned

  abbrev pub IsTransitioned : Type 0
  IsTransitioned = (t : Transitioned) × (transition crypto spec state disputes ≡ ok t)

  checked-IsAccepted :
      (judgements : List SignatureInput)
      → prepare_judgements spec state disputes.verdicts ≡ ok judgements
      → All (λ result. result ≡ ok tt) (checks crypto spec state disputes judgements)
      → IsAccepted
  unfolding vefify_all_signatures sets
  checked-IsAccepted judgements p
        (verdicts_ok, (split_ok, (culprits_ok, (faults_ok, (judged_ok, _))))) =
      let output = vefify_all_signatures crypto (input_of crypto spec state disputes judgements) in
      let (order, indices, timely, signed) =
        (verify_verdicts_iff spec state disputes output).0 verdicts_ok in
      let ve = calculate_votes-Ascending disputes order in
      let sets_ = sets_of crypto spec state disputes (map entry disputes.verdicts) in
      let (c_order, c_all, c_signed) =
        (verify_culprits_iff sets_ disputes output).0 (rw (ve) at culprits_ok) in
      let (f_order, f_all, f_signed) =
        (verify_faults_iff sets_ disputes output).0 (rw (ve) at faults_ok) in
      let n = prepare_judgements-length spec state disputes.verdicts judgements p in
      record {
        reports = order;
        validators = indices;
        timely = timely;
        split =
            (verify_votes_for_work_reports_iff spec disputes (map entry disputes.verdicts)).0
              (rw (ve) at split_ok);
        unjudged =
            (verify_if_already_judged_iff state.disputes_records disputes.verdicts).0 judged_ok;
        culprit_order = c_order;
        culprits =
            (IsCulprit-All state spec disputes.verdicts disputes.culprits).0 (unfold sets in c_all);
        fault_order = f_order;
        faults =
            (IsFault-All state spec disputes.verdicts disputes.faults).0 (unfold sets in f_all);
        signatures = record {
          judgements = judgements;
          prepared = p;
          judged =
              AllValid-within output.judgements 0 (total_votes disputes.verdicts) 0
                (length judgements) (omega arith) (omega arith) signed;
          accused = c_signed;
          faulted = f_signed;
        };
      }

  accepted-checked :
      IsAccepted
      → (judgements : List SignatureInput) × (prepare_judgements spec state disputes.verdicts
          ≡ ok judgements)
        × All (λ result. result ≡ ok tt) (checks crypto spec state disputes judgements)
  unfolding vefify_all_signatures sets
  accepted-checked a =
      let signed = a.signatures in
      let output =
        vefify_all_signatures crypto (input_of crypto spec state disputes signed.judgements) in
      let ve = calculate_votes-Ascending disputes a.reports in
      let sets_ = sets_of crypto spec state disputes (map entry disputes.verdicts) in
      let n =
        prepare_judgements-length spec state disputes.verdicts signed.judgements signed.prepared in
      let verdicts_ok = (verify_verdicts_iff spec state disputes output).1 (
        a.reports,
        a.validators,
        a.timely,
        AllValid-within output.judgements 0 (length signed.judgements) 0
            (total_votes disputes.verdicts) (omega arith) (omega arith) signed.judged,
      ) in
      let split_ok =
        (verify_votes_for_work_reports_iff spec disputes (map entry disputes.verdicts)).1 a.split in
      let culprits_ok = (verify_culprits_iff sets_ disputes output).1 (
        a.culprit_order,
        (IsCulprit-All state spec disputes.verdicts disputes.culprits).1 a.culprits,
        signed.accused,
      ) in
      let faults_ok = (verify_faults_iff sets_ disputes output).1 (
        a.fault_order,
        (IsFault-All state spec disputes.verdicts disputes.faults).1 a.faults,
        signed.faulted,
      ) in
      let judged_ok =
        (verify_if_already_judged_iff state.disputes_records disputes.verdicts).1 a.unjudged in
      (
        signed.judgements,
        signed.prepared,
        (
          verdicts_ok,
          (rw (ve) split_ok, (rw (ve) culprits_ok, (rw (ve) faults_ok, (judged_ok, tt)))),
        ),
      )

  -- The transition's result, for the records that it has made.
  abbrev pub made_of : DisputesRecords → Transitioned
  made_of after = record {
    offenders_mark = get_offenders disputes;
    state_update = record {
      disputes_records = after;
      availability_assignment =
          cleared_loop spec crypto (votes crypto spec state disputes)
            (length (votes crypto spec state disputes)) state.availability_assignment;
    };
  }

  -- Sets are updated to sets, without an error.
  pub updated-made :
      AreSets state.disputes_records
      → length state.availability_assignment ≡ spec.cores_count
      → (after : DisputesRecords) × (updated crypto spec state disputes ≡ ok (made_of after))
        × AreSets after
        × AreUpdated state.disputes_records
            (new_items spec (votes crypto spec state disputes))
            (get_offenders disputes)
            after
  updated-made s n =
      let v = votes crypto spec state disputes in
      let (after, e, t, u) =
        get_updated_disputes_records-AreUpdated spec v state.disputes_records
          (get_offenders disputes) s (calculate_votes-AreUnique disputes)
          (get_offenders-IsDistinct disputes) in
      (after, rw (e, get_cleared_core_assignment-ok crypto spec state v n) refl, t, u)

  -- For records that are sets and an entry for each core, disputes are accepted exactly if these
  -- hold: the verdicts ascend by their reports, and the votes of each by their validators; each
  -- verdict is of this or the previous epoch, by validators that there are; its sum of valid votes
  -- is a super majority, with a fault for the report, or zero, with two culprits, or a third; its
  -- report was not judged before; culprits and faults ascend by their keys, which are of validators
  -- that are not punished yet; reports of culprits are judged bad here, and so are those of faults
  -- that were considered valid; and all signatures are good.
  pub transition_iff :
      AreSets state.disputes_records
      → length state.availability_assignment ≡ spec.cores_count
      → IsTransitioned ↔ IsAccepted
  transition_iff s n = (
    (λ (t, h).
        let (judgements, p, rest) =
          bind-eq-ok (prepare_judgements spec state disputes.verdicts) _ (sym steps ∙ h) in
        let (_, passed, _) =
          bind-eq-ok (first_error (checks crypto spec state disputes judgements)) _ rest in
        checked-IsAccepted judgements p
          ((first_error_iff (checks crypto spec state disputes judgements)).0 passed)),
    λ a.
        let (judgements, p, passed) = accepted-checked a in
        let (after, e, _, _) = updated-made s n in
        (
          made_of after,
          steps
              ∙ rw (p, (first_error_iff (checks crypto spec state disputes judgements)).1 passed) e,
        ),
  )
    where
      steps : transition crypto spec state disputes ≡ (
          prepare_judgements spec state disputes.verdicts >>= λ judgements.
          first_error (checks crypto spec state disputes judgements) >>= λ _.
          updated crypto spec state disputes)
      steps = transition-steps crypto spec state disputes

  -- If the verification has an answer for each input, the records are sets and there is an entry for
  -- each core, the transition throws no exception: what is wrong with the disputes is an error code.
  pub transition-Returns :
      ((inputs : List SignatureInput) → length (crypto.verify inputs) ≡ length inputs)
      → AreSets state.disputes_records
      → length state.availability_assignment ≡ spec.cores_count
      → Returns (transition crypto spec state disputes)
  unfolding vefify_all_signatures
  transition-Returns answers s n = rw (transition-steps crypto spec state disputes) (
      bind-Returns (prepare_judgements spec state disputes.verdicts) _
        (prepare_judgements-Returns spec state disputes.verdicts)
        (λ judgements p.
          let output =
            vefify_all_signatures crypto (input_of crypto spec state disputes judgements) in
          let sets_ = sets_of crypto spec state disputes (votes crypto spec state disputes) in
          let (after, e, _, _) = updated-made s n in
          bind-Returns (first_error (checks crypto spec state disputes judgements)) _
            (first_error-Returns (checks crypto spec state disputes judgements) (
              verify_verdicts-Returns spec state disputes output (
                  omega (
                    arith,
                    answers judgements,
                    prepare_judgements-length spec state disputes.verdicts judgements p,
                  )),
              (
                verify_votes_for_work_reports-Returns spec disputes
                    (votes crypto spec state disputes),
                (
                  verify_culprits-Returns sets_ disputes output,
                  (
                    verify_faults-Returns sets_ disputes output (
                        omega (
                          arith,
                          answers (map prepare_fault_signature disputes.faults),
                          length-map disputes.faults prepare_fault_signature,
                        )),
                    (verify_if_already_judged-Returns state.disputes_records disputes.verdicts, tt),
                  ),
                ),
              ),
            ))
            (λ u q. rw (e) tt)))
