-- ===== src/Transition/Disputes/Updates/Steps.antt =====
-- The transition as its steps, and the errors of its checks together.
use typeberry.Base.{◌≡◌, ◌↔◌, refl, Bool-cases, false, List, [], ◌∷◌, All, map, inl, inr}
use typeberry.Transition.Assurances.{SignatureInput}
use typeberry.Transition.Disputes.{
  ◌>>=◌, Outcome, ok, error, thrown, Verdict, DisputesExtrinsic, DisputesRecords, DisputesState,
  ChainSpec, Crypto, vefify_all_signatures, VerificationInput, VotesForWorkReports,
  prepare_culprit_signature, prepare_fault_signature,
}
use typeberry.Transition.Disputes.Checks.{
  OffenderSets, offender_sets, verify_culprits, verify_faults, verify_verdicts, prepare_judgements,
  prepare_signatures_to_verification, verify_if_already_judged, is_judged,
  calculate_votes_for_work_reports,
}
use typeberry.Transition.Disputes.Checks.Guards.{Returns, guard-Returns}
use typeberry.Transition.Disputes.Updates.{
  verify_votes_for_work_reports, get_cleared_core_assignment, get_offenders,
  get_updated_disputes_records, get_validator_keys, or_throws, first_error, Transitioned,
  transition,
}
use typeberry.Transition.Disputes.Updates.Votes.{calculate_votes-AreUnique}
use typeberry.Transition.Disputes.Updates.Records.{new_items, get_disputes_records_new_items-made}

-- There is no error exactly if there is none in the list.
pub first_error_iff :
    (results : List (Outcome (Unit {0})))
    → (first_error results ≡ ok tt) ↔ All (λ result. result ≡ ok tt) results
first_error_iff [] = ((λ h. tt), λ h. refl)
first_error_iff (ok u ∷ results) =
    let (to, back) = first_error_iff results in ((λ h. (refl, to h)), λ h. back h.1)
first_error_iff (thrown ∷ results) = ((λ h. absurd (cc)), λ h. absurd (let bad = h.0 in cc))
first_error_iff (error e ∷ results) =
    ((λ h. absurd (no_error (first_error results) h)), λ h. absurd (let bad = h.0 in cc))
  where
    no_error : (rest : Outcome (Unit {0})) → or_throws rest (error e) ≡ ok tt → ⊥
    no_error thrown h = cc
    no_error (error d) h = cc
    no_error (ok u) h = cc

pub first_error-Returns :
    (results : List (Outcome (Unit {0}))) → All Returns results → Returns (first_error results)
first_error-Returns [] h = tt
first_error-Returns (ok u ∷ results) h = first_error-Returns results h.1
first_error-Returns (thrown ∷ results) h = h.0
first_error-Returns (error e ∷ results) h =
    kept (first_error results) (first_error-Returns results h.1)
  where
    kept : (rest : Outcome (Unit {0})) → Returns rest → Returns (or_throws rest (error e))
    kept thrown r = r
    kept (error d) r = tt
    kept (ok u) r = tt

-- Reports pass if none was judged before.
pub verify_if_already_judged_iff :
    (records : DisputesRecords) (verdicts : List Verdict)
    → (verify_if_already_judged records verdicts ≡ ok tt)
      ↔ All (λ d. is_judged records d.work_report_hash ≡ false) verdicts
unfolding verify_if_already_judged
verify_if_already_judged_iff records [] = ((λ h. tt), λ h. refl)
verify_if_already_judged_iff records (d ∷ verdicts) =
    let (to, back) = verify_if_already_judged_iff records verdicts in
    elim (Bool-cases (is_judged records d.work_report_hash)) [
      | inl old ↦ ((λ h. absurd (let bad = rw (old) at h in cc)), λ h. absurd (let bad = h.0 in cc))
      | inr new ↦ ((λ h. (new, to (rw (new) at h))), λ h. rw (new) (back h.1))
    ]

pub verify_if_already_judged-Returns :
    (records : DisputesRecords) (verdicts : List Verdict)
    → Returns (verify_if_already_judged records verdicts)
unfolding verify_if_already_judged
verify_if_already_judged-Returns records [] = tt
verify_if_already_judged-Returns records (d ∷ verdicts) =
    guard-Returns (is_judged records d.work_report_hash) _ _
      (verify_if_already_judged-Returns records verdicts)

module _ (crypto : Crypto) (spec : ChainSpec) (state : DisputesState)
    (disputes : DisputesExtrinsic) where
  abbrev pub votes : VotesForWorkReports
  votes = calculate_votes_for_work_reports disputes

  abbrev pub input_of : List SignatureInput → VerificationInput
  input_of judgements = record {
    judgements = judgements;
    culprits = map prepare_culprit_signature disputes.culprits;
    faults = map prepare_fault_signature disputes.faults;
  }

  abbrev pub sets_of : VotesForWorkReports → OffenderSets
  sets_of v = offender_sets state (new_items spec v) (get_validator_keys state)

  abbrev pub checks : List SignatureInput → List (Outcome (Unit {0}))
  checks judgements =
      let output = vefify_all_signatures crypto (input_of judgements) in
      verify_verdicts spec state disputes output
      ∷ verify_votes_for_work_reports spec votes disputes
      ∷ verify_culprits disputes (sets_of votes) output
      ∷ verify_faults disputes (sets_of votes) output
      ∷ verify_if_already_judged state.disputes_records disputes.verdicts
      ∷ []

  abbrev pub updated : Outcome Transitioned
  updated =
      get_updated_disputes_records state.disputes_records (new_items spec votes)
        (get_offenders disputes)
      >>= λ records. get_cleared_core_assignment spec crypto state votes >>= λ assignment.
          ok (record {
            offenders_mark = get_offenders disputes;
            state_update = record {
              disputes_records = records;
              availability_assignment = assignment;
            };
          })

  -- Prepared signatures are followed by the checks, and those by the update.
  pub transition-steps : transition crypto spec state disputes ≡ (
      prepare_judgements spec state disputes.verdicts >>= λ judgements.
      first_error (checks judgements) >>= λ _. updated)
  unfolding transition prepare_signatures_to_verification
  transition-steps =
      let made =
        get_disputes_records_new_items-made spec votes (calculate_votes-AreUnique disputes) in
      rw (made) (assoc (prepare_judgements spec state disputes.verdicts))
    where
      assoc :
          (m : Outcome (List SignatureInput))
          → ((m >>= λ judgements. ok (input_of judgements)) >>= λ input.
              let output = vefify_all_signatures crypto input in
              first_error (
                verify_verdicts spec state disputes output
                ∷ verify_votes_for_work_reports spec votes disputes
                ∷ verify_culprits disputes (sets_of votes) output
                ∷ verify_faults disputes (sets_of votes) output
                ∷ verify_if_already_judged state.disputes_records disputes.verdicts
                ∷ [])
              >>= λ _. updated)
            ≡ (m >>= λ judgements. first_error (checks judgements) >>= λ _. updated)
      assoc (ok judgements) = refl
      assoc (error e) = refl
      assoc thrown = refl
