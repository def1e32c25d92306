-- ===== src/Transition/Disputes/Checks.antt =====
-- disputes.ts: the checks, each of which gives the first error that its loop meets.
pub mod Guards
pub mod Offenders
pub mod Votes
pub mod Signed
use typeberry.Base.{
  ℕ, zero, suc, ◌+◌, ◌/◌, ◌==◌, Bool, true, false, ◌&&◌, ◌||◌, not, ◌++◌, List, [], ◌∷◌, map,
  Option, none, some, get_elem?, if◌then◌else◌,
}
use typeberry.Transition.HashSet.{Hash, HashSet, has, from}
use typeberry.Transition.Assurances.{SignatureInput}
use typeberry.Transition.Disputes.{
  ◌>>=◌, Outcome, ok, error, thrown, already_judged, bad_vote_split, verdicts_not_sorted_unique,
  judgements_not_sorted_unique, culprits_not_sorted_unique, faults_not_sorted_unique,
  not_enough_culprits, not_enough_faults, culprits_verdict_not_bad, fault_verdict_wrong,
  offender_already_reported, bad_judgement_age, bad_validator_index, bad_signature,
  bad_guarantor_key, bad_auditor_key, Judgement, Verdict, Culprit, Fault, DisputesExtrinsic,
  DisputesRecords, ValidatorData, DisputesState, ChainSpec, is_unique_sorted_by,
  is_unique_sorted_by_index, prepare_culprit_signature, prepare_fault_signature,
  prepare_judgement_signature, VerificationInput, VerificationOutput, VotesForWorkReports,
  set_votes,
}

abbrev pub is_valid_at : List Bool → ℕ → Bool
is_valid_at [] i = false
is_valid_at (b ∷ results) zero = b
is_valid_at (b ∷ results) (suc i) = is_valid_at results i

-- A signature's result; reading one that is not there throws.
abbrev pub checked : {A : Type 0} → Option Bool → Outcome A → Outcome A
checked none rest = thrown
checked (some is_valid) rest = if not is_valid then error bad_signature else rest

-- The sets that an offender's key and its report are looked up in.
pub record OffenderSets : Type 0 where
  pub punish_set : HashSet
  pub validator_keys : HashSet
  pub new_good_set : HashSet
  pub new_bad_set : HashSet

abbrev pub is_verdict_wrong : OffenderSets → Fault → Bool
is_verdict_wrong sets f =
    f.was_considered_valid
    && (has sets.new_good_set f.work_report_hash || not (has sets.new_bad_set f.work_report_hash))

module _ (sets : OffenderSets) (results : List Bool) where
  -- From the culprit `i` on. A result that is not there counts as a bad one.
  unfoldable pub culprits_loop : ℕ → List Culprit → Outcome (Unit {0})
  culprits_loop i [] = ok tt
  culprits_loop i (c ∷ culprits) =
      let rest = culprits_loop (suc i) culprits in
      if has sets.punish_set c.key
      then error offender_already_reported
      else if not (has sets.validator_keys c.key)
      then error bad_guarantor_key
      else if not (has sets.new_bad_set c.work_report_hash)
      then error culprits_verdict_not_bad
      else if not (is_valid_at results i)
      then error bad_signature
      else rest

  -- From the fault `i` on.
  unfoldable pub faults_loop : ℕ → List Fault → Outcome (Unit {0})
  faults_loop i [] = ok tt
  faults_loop i (f ∷ faults) =
      let rest = faults_loop (suc i) faults in
      if has sets.punish_set f.key
      then error offender_already_reported
      else if not (has sets.validator_keys f.key)
      then error bad_auditor_key
      else if is_verdict_wrong sets f
      then error fault_verdict_wrong
      else checked (get_elem? results i) rest

unfoldable pub offender_sets : DisputesState → DisputesRecords → HashSet → OffenderSets
offender_sets state new_items validator_keys = record {
  punish_set = from state.disputes_records.punish_set;
  validator_keys = validator_keys;
  new_good_set = from new_items.good_set;
  new_bad_set = from new_items.bad_set;
}

unfoldable pub verify_culprits :
    DisputesExtrinsic → OffenderSets → VerificationOutput → Outcome (Unit {0})
verify_culprits disputes sets output =
    if not (is_unique_sorted_by (λ (c : Culprit). c.key) disputes.culprits)
    then error culprits_not_sorted_unique
    else culprits_loop sets output.culprits 0 disputes.culprits

unfoldable pub verify_faults :
    DisputesExtrinsic → OffenderSets → VerificationOutput → Outcome (Unit {0})
verify_faults disputes sets output =
    if not (is_unique_sorted_by (λ (f : Fault). f.key) disputes.faults)
    then error faults_not_sorted_unique
    else faults_loop sets output.faults 0 disputes.faults

abbrev pub current_epoch : ChainSpec → DisputesState → ℕ
current_epoch spec state = state.timeslot / spec.epoch_length

-- The validators whose votes a verdict holds.
abbrev pub validators_of : ChainSpec → DisputesState → ℕ → List ValidatorData
validators_of spec state votes_epoch =
    if votes_epoch == current_epoch spec state
    then state.current_validator_data
    else state.previous_validator_data

-- From the judgement `i` on; what is left is the index of the next one.
unfoldable pub judgements_loop : List ValidatorData → List Bool → ℕ → List Judgement → Outcome ℕ
judgements_loop k results i [] = ok i
judgements_loop k results i (j ∷ votes) =
    let rest = judgements_loop k results (suc i) votes in
    elim (get_elem? k j.index) [
      | none ↦ error bad_validator_index
      | some validator ↦ checked (get_elem? results i) rest
    ]

abbrev pub is_bad_age : ℕ → ℕ → Bool
is_bad_age votes_epoch current = not (votes_epoch == current) && not (votes_epoch + 1 == current)

abbrev pub some_unsorted : List Verdict → Bool
some_unsorted [] = false
some_unsorted (v ∷ verdicts) = not (is_unique_sorted_by_index v.votes) || some_unsorted verdicts

module _ (spec : ChainSpec) (state : DisputesState) where
  unfoldable pub verdicts_loop : List Bool → ℕ → List Verdict → Outcome (Unit {0})
  verdicts_loop results i [] = ok tt
  verdicts_loop results i (v ∷ verdicts) =
      if is_bad_age v.votes_epoch (current_epoch spec state)
      then error bad_judgement_age
      else (judgements_loop (validators_of spec state v.votes_epoch) results i v.votes >>= λ next.
          verdicts_loop results next verdicts)

  unfoldable pub verify_verdicts : DisputesExtrinsic → VerificationOutput → Outcome (Unit {0})
  verify_verdicts disputes output =
      if not (is_unique_sorted_by (λ (v : Verdict). v.work_report_hash) disputes.verdicts)
      then error verdicts_not_sorted_unique
      else if some_unsorted disputes.verdicts
      then error judgements_not_sorted_unique
      else verdicts_loop output.judgements 0 disputes.verdicts

  -- The inputs of one verdict's judgements.
  unfoldable pub prepare_votes :
      List ValidatorData → Hash → List Judgement → Outcome (List SignatureInput)
  prepare_votes k work_report_hash [] = ok []
  prepare_votes k work_report_hash (j ∷ votes) =
      let rest = prepare_votes k work_report_hash votes in
      elim (get_elem? k j.index) [
        | none ↦ error bad_validator_index
        | some validator ↦ rest >>= λ inputs.
            ok (prepare_judgement_signature j work_report_hash validator.ed25519 ∷ inputs)
      ]

  unfoldable pub prepare_judgements : List Verdict → Outcome (List SignatureInput)
  prepare_judgements [] = ok []
  prepare_judgements (v ∷ verdicts) =
      let rest = prepare_judgements verdicts in
      prepare_votes (validators_of spec state v.votes_epoch) v.work_report_hash v.votes >>= λ first.
      rest >>= λ inputs. ok (first ++ inputs)

  unfoldable pub prepare_signatures_to_verification : DisputesExtrinsic → Outcome VerificationInput
  prepare_signatures_to_verification disputes =
      prepare_judgements disputes.verdicts >>= λ judgements. ok (record {
        judgements = judgements;
        culprits = map prepare_culprit_signature disputes.culprits;
        faults = map prepare_fault_signature disputes.faults;
      })

-- Whether a hash is in one of the sets of verdicts.
abbrev pub is_judged : DisputesRecords → Hash → Bool
is_judged records h =
    has (from records.good_set) h
    || (has (from records.bad_set) h || has (from records.wonky_set) h)

unfoldable pub verify_if_already_judged : DisputesRecords → List Verdict → Outcome (Unit {0})
verify_if_already_judged records [] = ok tt
verify_if_already_judged records (v ∷ verdicts) =
    let rest = verify_if_already_judged records verdicts in
    if is_judged records v.work_report_hash then error already_judged else rest

abbrev pub count_valid : List Judgement → ℕ
count_valid [] = 0
count_valid (j ∷ votes) =
    let rest = count_valid votes in if j.is_work_report_valid then suc rest else rest

-- On from the votes that are counted.
unfoldable pub count_loop : VotesForWorkReports → List Verdict → VotesForWorkReports
count_loop v [] = v
count_loop v (verdict ∷ verdicts) =
    count_loop (set_votes v verdict.work_report_hash (count_valid verdict.votes)) verdicts

unfoldable pub calculate_votes_for_work_reports : DisputesExtrinsic → VotesForWorkReports
calculate_votes_for_work_reports disputes = count_loop [] disputes.verdicts
