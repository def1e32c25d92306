-- ===== src/Transition/Disputes/Updates.antt =====
-- disputes.ts: the vote split, the new records, and the transition.
pub mod Cleared
pub mod Splits
pub mod Votes
pub mod Verdicts
pub mod Records
pub mod Guilty
pub mod Steps
pub mod Judged
pub mod Kept
use typeberry.Base.{
  ℕ, zero, suc, ◌==◌, ltb, leb, Bool, true, false, not, ◌++◌, List, [], ◌∷◌, map, length, Option,
  none, some, if◌then◌else◌,
}
use typeberry.Collections.SortedSet.{to_sorted, from_array_unique, from_two_sorted_collections}
use typeberry.Transition.HashSet.{Hash, HashSet, insert_all, from, delete}
use typeberry.Transition.Assurances.{AvailabilityAssignment}
use typeberry.Transition.Disputes.{
  ◌>>=◌, Outcome, ok, error, thrown, or_throw, Bytes, not_enough_faults, not_enough_culprits,
  bad_vote_split, Culprit, Fault, DisputesExtrinsic, DisputesRecords, hash_comparator,
  ValidatorData, DisputesState, DisputesStateUpdate, ChainSpec, Crypto, vefify_all_signatures,
  VotesForWorkReports, get_votes,
}
use typeberry.Transition.Disputes.Checks.{
  offender_sets, verify_culprits, verify_faults, verify_verdicts,
  prepare_signatures_to_verification, verify_if_already_judged, calculate_votes_for_work_reports,
}

abbrev pub has_fault : Hash → List Fault → Bool
has_fault r [] = false
has_fault r (f ∷ faults) = if f.work_report_hash == r then true else has_fault r faults

-- `find` and `findLast`, from the index `i` on: where the culprit is.
abbrev pub find_culprit : Hash → ℕ → List Culprit → Option ℕ
find_culprit r i [] = none
find_culprit r i (c ∷ culprits) =
    let rest = find_culprit r (suc i) culprits in if c.work_report_hash == r then some i else rest

abbrev or_else : Option ℕ → Option ℕ → Option ℕ
or_else none q = q
or_else (some i) q = some i

abbrev pub find_last_culprit : Hash → ℕ → List Culprit → Option ℕ
find_last_culprit r i [] = none
find_last_culprit r i (c ∷ culprits) =
    or_else (find_last_culprit r (suc i) culprits)
      (if c.work_report_hash == r then some i else none)

-- `c1 === c2`: one object, or both undefined.
abbrev pub is_same : Option ℕ → Option ℕ → Bool
is_same none none = true
is_same none (some j) = false
is_same (some i) none = false
is_same (some i) (some j) = i == j

-- The reports whose sums fall into a branch, as the loop pushes them.
abbrev pub select : (ℕ → Bool) → VotesForWorkReports → List Hash
select branch [] = []
select branch ((r, sum) ∷ v) = let rest = select branch v in if branch sum then r ∷ rest else rest

module _ (spec : ChainSpec) where
  unfoldable pub verify_votes_for_work_reports :
      VotesForWorkReports → DisputesExtrinsic → Outcome (Unit {0})
  verify_votes_for_work_reports [] disputes = ok tt
  verify_votes_for_work_reports ((r, sum) ∷ v) disputes =
      let rest = verify_votes_for_work_reports v disputes in
      if sum == spec.validators_super_majority
      then if has_fault r disputes.faults then rest else error not_enough_faults
      else if sum == 0
      then if is_same (find_culprit r 0 disputes.culprits) (find_last_culprit r 0 disputes.culprits)
        then error not_enough_culprits
        else rest
      else if not (sum == spec.third_of_validators)
      then error bad_vote_split
      else rest

  abbrev pub is_good : ℕ → Bool
  is_good sum = leb spec.validators_super_majority sum

  abbrev pub is_bad : ℕ → Bool
  is_bad sum = if is_good sum then false else sum == 0

  abbrev pub is_wonky : ℕ → Bool
  is_wonky sum =
      if is_good sum then false else if sum == 0 then false else leb spec.third_of_validators sum

  unfoldable pub get_disputes_records_new_items : VotesForWorkReports → Outcome DisputesRecords
  get_disputes_records_new_items v =
      or_throw (from_array_unique hash_comparator (select is_good v)) >>= λ good.
      or_throw (from_array_unique hash_comparator (select is_bad v)) >>= λ bad.
      or_throw (from_array_unique hash_comparator (select is_wonky v)) >>= λ wonky.
      ok (record { good_set = good; bad_set = bad; wonky_set = wonky; punish_set = [] })

  -- `votesLeft` counts down; the loop ends early at 0.
  unfoldable pub cleared_loop :
      Crypto
      → VotesForWorkReports
      → ℕ
      → List (Option (AvailabilityAssignment Bytes))
      → List (Option (AvailabilityAssignment Bytes))
  cleared_loop crypto v zero assignments = assignments
  cleared_loop crypto v (suc left) [] = []
  cleared_loop crypto v (suc left) (none ∷ assignments) =
      none ∷ cleared_loop crypto v (suc left) assignments
  cleared_loop crypto v (suc left) (some assignment ∷ assignments) =
      elim (get_votes v (crypto.hash_bytes assignment.work_report)) [
        | none ↦ some assignment ∷ cleared_loop crypto v (suc left) assignments
        | some sum ↦
            (if ltb sum spec.validators_super_majority then none else some assignment)
            ∷ cleared_loop crypto v left assignments
      ]

  unfoldable pub get_cleared_core_assignment :
      Crypto
      → DisputesState
      → VotesForWorkReports
      → Outcome (List (Option (AvailabilityAssignment Bytes)))
  get_cleared_core_assignment crypto state v =
      let assignment = cleared_loop crypto v (length v) state.availability_assignment in
      if length assignment == spec.cores_count then ok assignment else thrown

unfoldable pub get_offenders : DisputesExtrinsic → HashSet
get_offenders disputes =
    insert_all (insert_all [] (map (λ (c : Culprit). c.key) disputes.culprits))
      (map (λ (f : Fault). f.key) disputes.faults)

unfoldable pub get_updated_disputes_records :
    DisputesRecords → DisputesRecords → HashSet → Outcome DisputesRecords
get_updated_disputes_records records new_items offenders =
    or_throw (from_two_sorted_collections hash_comparator records.good_set new_items.good_set)
    >>= λ good.
        or_throw (from_two_sorted_collections hash_comparator records.bad_set new_items.bad_set)
        >>= λ bad.
            or_throw
              (from_two_sorted_collections hash_comparator records.wonky_set new_items.wonky_set)
            >>= λ wonky.
                or_throw (
                  from_two_sorted_collections hash_comparator records.punish_set
                    (to_sorted hash_comparator offenders))
                >>= λ punish. ok (record {
                  good_set = good;
                  bad_set = bad;
                  wonky_set = wonky;
                  punish_set = punish;
                })

abbrev pub delete_all : HashSet → List Hash → HashSet
delete_all keys [] = keys
delete_all keys (k ∷ punished) = delete_all (delete keys k).1 punished

unfoldable pub get_validator_keys : DisputesState → HashSet
get_validator_keys state =
    delete_all
      (from (
        map (λ (v : ValidatorData). v.ed25519) state.current_validator_data
        ++ map (λ (v : ValidatorData). v.ed25519) state.previous_validator_data))
      state.disputes_records.punish_set

abbrev pub or_throws : Outcome (Unit {0}) → Outcome (Unit {0}) → Outcome (Unit {0})
or_throws thrown first = thrown
or_throws (error e) first = first
or_throws (ok u) first = first

-- The first error of the list, all of which is evaluated before: an exception goes first.
abbrev pub first_error : List (Outcome (Unit {0})) → Outcome (Unit {0})
first_error [] = ok tt
first_error (thrown ∷ results) = thrown
first_error (ok u ∷ results) = first_error results
first_error (error e ∷ results) = or_throws (first_error results) (error e)

pub record Transitioned : Type 0 where
  pub offenders_mark : HashSet
  pub state_update : DisputesStateUpdate

unfoldable pub transition :
    Crypto → ChainSpec → DisputesState → DisputesExtrinsic → Outcome Transitioned
transition crypto spec state disputes =
    let v = calculate_votes_for_work_reports disputes in
    let keys = get_validator_keys state in
    let offenders = get_offenders disputes in
    prepare_signatures_to_verification spec state disputes >>= λ input.
    get_disputes_records_new_items spec v >>= λ new_items.
    let output = vefify_all_signatures crypto input in
    let sets = offender_sets state new_items keys in
    first_error (
      verify_verdicts spec state disputes output
      ∷ verify_votes_for_work_reports spec v disputes
      ∷ verify_culprits disputes sets output
      ∷ verify_faults disputes sets output
      ∷ verify_if_already_judged state.disputes_records disputes.verdicts
      ∷ [])
    >>= λ _. get_updated_disputes_records state.disputes_records new_items offenders >>= λ records.
        get_cleared_core_assignment spec crypto state v >>= λ assignment. ok (record {
          offenders_mark = offenders;
          state_update = record {
            disputes_records = records;
            availability_assignment = assignment;
          };
        })
