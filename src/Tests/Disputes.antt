-- ===== src/Tests/Disputes.antt =====
-- Runs of the disputes, and of unions of sorted sets.
use typeberry.Base.{
  ℕ, ◌==◌, ◌≡◌, ◌↔◌, ◌||◌, refl, arith, Bool, true, false, List, [], ◌∷◌, map, length, length-map,
  get_or, Option, none, some,
}
use typeberry.Collections.SortedArray.{
  is_less, is_greater, is_equal, is_not_equal, is_greater_or_equal, search_loop, binary_search,
}
use typeberry.Collections.SortedSet.{
  place, to_sorted, is_ascending, from_ascending_array, is_strictly_ascending, from_sorted_array,
  has_equal_neighbours, from_array_unique, merge_loop, from_two_sorted_arrays, compact_loop,
  from_two_sorted_collections, insert, replace,
}
use typeberry.Collections.SortedSet.Ranks.{IsStrict, has_rank}
use typeberry.Collections.SortedSet.Merge.{from_two_sorted_collections-Union}
use typeberry.Transition.HashSet.{Hash}
use typeberry.Transition.Assurances.{SignatureInput, AvailabilityAssignment}
use typeberry.Transition.Disputes.{
  Bytes, ok, Judgement, Verdict, Culprit, DisputesExtrinsic, hash_comparator, ValidatorData,
  DisputesState, ChainSpec, Crypto, is_unique_sorted_by, is_unique_sorted_by_index, raw,
  prepare_culprit_signature, prepare_fault_signature, prepare_judgement_signature,
  vefify_all_signatures,
}
use typeberry.Transition.Disputes.Checks.{
  culprits_loop, faults_loop, offender_sets, verify_culprits, verify_faults, judgements_loop,
  verdicts_loop, verify_verdicts, prepare_votes, prepare_judgements,
  prepare_signatures_to_verification, verify_if_already_judged, count_loop,
  calculate_votes_for_work_reports,
}
use typeberry.Transition.Disputes.Checks.Guards.{Returns}
use typeberry.Transition.Disputes.Updates.{
  verify_votes_for_work_reports, get_disputes_records_new_items, cleared_loop,
  get_cleared_core_assignment, get_offenders, get_updated_disputes_records, get_validator_keys,
  Transitioned, transition,
}
use typeberry.Transition.Disputes.Updates.Cleared.{cleared, get_cleared_core_assignment-cleared}
use typeberry.Transition.Disputes.Updates.Judged.{IsAccepted, transition_iff, transition-Returns}
use typeberry.Transition.Disputes.Updates.Records.{AreSets}
use typeberry.Transition.Disputes.Updates.Kept.{
  IsUpdated, AreDisjoint, transition-IsUpdated, transition-AreDisjoint,
}

-- Signatures of one byte are good; a report's hash is its first byte.
abbrev answer : SignatureInput → Bool
answer i = length i.signature == 1

abbrev toy : Crypto
toy = record { verify = λ inputs. map answer inputs; hash_bytes = λ bytes. get_or bytes 0 0 }

abbrev spec : ChainSpec
spec = record {
  epoch_length = 10;
  cores_count = 3;
  validators_super_majority = 3;
  third_of_validators = 1;
}

abbrev vote : ℕ → Bool → Judgement
vote index valid = record { is_work_report_valid = valid; index = index; signature = 8 ∷ [] }

abbrev votes : Bool → Bool → Bool → List Judgement
votes a b c = vote 0 a ∷ vote 1 b ∷ vote 2 c ∷ []

abbrev verdict : Hash → ℕ → List Judgement → Verdict
verdict report epoch judgements = record {
  work_report_hash = report;
  votes_epoch = epoch;
  votes = judgements;
}

abbrev culprit : Hash → Hash → Culprit
culprit report key = record { work_report_hash = report; key = key; signature = 8 ∷ [] }

abbrev validator : Hash → ValidatorData
validator key = record { ed25519 = key }

abbrev pending : ℕ → Option (AvailabilityAssignment Bytes)
pending report = some (record { work_report = report ∷ []; timeout = 40 })

-- Report 5 is bad, with two culprits; 7 is good, with a fault; 9 is wonky.
abbrev disputes : DisputesExtrinsic
disputes = record {
  verdicts =
      verdict 5 1 (votes false false false)
      ∷ verdict 7 0 (votes true true true)
      ∷ verdict 9 1 (votes false true false)
      ∷ [];
  culprits = culprit 5 11 ∷ culprit 5 13 ∷ [];
  faults =
      record { work_report_hash = 7; was_considered_valid = false; key = 22; signature = 8 ∷ [] }
      ∷ [];
}

abbrev state : DisputesState
state = record {
  disputes_records = record {
    good_set = 1 ∷ 8 ∷ [];
    bad_set = 2 ∷ [];
    wonky_set = [];
    punish_set = 23 ∷ [];
  };
  availability_assignment = pending 9 ∷ none ∷ pending 7 ∷ [];
  timeslot = 12;
  current_validator_data = validator 11 ∷ validator 12 ∷ validator 13 ∷ [];
  previous_validator_data = validator 21 ∷ validator 22 ∷ validator 23 ∷ [];
}

abbrev after : Transitioned
after = record {
  offenders_mark = 11 ∷ 13 ∷ 22 ∷ [];
  state_update = record {
    disputes_records = record {
      good_set = 1 ∷ 7 ∷ 8 ∷ [];
      bad_set = 2 ∷ 5 ∷ [];
      wonky_set = 9 ∷ [];
      punish_set = 11 ∷ 13 ∷ 22 ∷ 23 ∷ [];
    };
    availability_assignment = none ∷ none ∷ pending 7 ∷ [];
  };
}

run : transition toy spec state disputes ≡ ok after
unfolding transition prepare_signatures_to_verification prepare_judgements prepare_votes
    prepare_judgement_signature prepare_culprit_signature prepare_fault_signature raw
    vefify_all_signatures calculate_votes_for_work_reports count_loop get_disputes_records_new_items
    from_array_unique to_sorted place has_equal_neighbours is_less is_greater is_equal is_not_equal
    is_greater_or_equal get_validator_keys offender_sets verify_verdicts is_unique_sorted_by
    is_unique_sorted_by_index verdicts_loop judgements_loop verify_votes_for_work_reports
    verify_culprits culprits_loop verify_faults faults_loop verify_if_already_judged get_offenders
    get_updated_disputes_records from_two_sorted_collections from_two_sorted_arrays merge_loop
    from_ascending_array is_ascending compact_loop from_sorted_array is_strictly_ascending
    get_cleared_core_assignment cleared_loop
run = refl

sets : AreSets state.disputes_records
sets = (((omega arith, tt), (tt, tt)), (tt, tt), tt, (tt, tt))

length-answers : (inputs : List SignatureInput) → length (map answer inputs) ≡ length inputs
length-answers inputs = length-map inputs answer

no_overlap : AreDisjoint state.disputes_records
no_overlap h = (ground arith, ground arith, ground arith)

transition_iff_example :
    ((t : Transitioned) × (transition toy spec state disputes ≡ ok t))
    ↔ IsAccepted toy spec state disputes
transition_iff_example = transition_iff toy spec state disputes sets refl

transition-Returns_example : Returns (transition toy spec state disputes)
transition-Returns_example = transition-Returns toy spec state disputes length-answers sets refl

transition-IsUpdated_example : IsUpdated toy spec state disputes after
transition-IsUpdated_example =
    transition-IsUpdated toy spec state disputes sets refl after run (refl, (refl, tt))

transition-AreDisjoint_example : AreDisjoint after.state_update.disputes_records
transition-AreDisjoint_example =
    transition-AreDisjoint toy spec state disputes sets refl after run no_overlap

-- Report 9 is judged with one vote, report 7 with three.
get_cleared_core_assignment-cleared_example :
    get_cleared_core_assignment spec toy state ((7, 3) ∷ (9, 1) ∷ [])
    ≡ ok (map (cleared toy spec ((7, 3) ∷ (9, 1) ∷ [])) state.availability_assignment)
get_cleared_core_assignment-cleared_example =
    get_cleared_core_assignment-cleared toy spec state ((7, 3) ∷ (9, 1) ∷ []) (refl, (refl, tt))
      refl

abbrev odd : List Hash
odd = 1 ∷ 3 ∷ 5 ∷ []

abbrev low : List Hash
low = 1 ∷ 2 ∷ 3 ∷ []

odd-IsStrict : IsStrict hash_comparator odd
odd-IsStrict = ((omega arith, (omega arith, tt)), ((omega arith, tt), (tt, tt)))

low-IsStrict : IsStrict hash_comparator low
low-IsStrict = ((omega arith, (omega arith, tt)), ((omega arith, tt), (tt, tt)))

from_two_sorted_collections-Union_example :
    (s : List Hash) × (from_two_sorted_collections hash_comparator odd low ≡ some s)
    × IsStrict hash_comparator s
    × ((r : ℕ)
        → has_rank hash_comparator r s
          ≡ (has_rank hash_comparator r odd || has_rank hash_comparator r low))
from_two_sorted_collections-Union_example =
    from_two_sorted_collections-Union hash_comparator odd low odd-IsStrict low-IsStrict

united : from_two_sorted_collections hash_comparator odd low ≡ some (1 ∷ 2 ∷ 3 ∷ 5 ∷ [])
unfolding from_two_sorted_collections from_two_sorted_arrays merge_loop from_ascending_array
    is_ascending compact_loop from_sorted_array is_strictly_ascending is_less is_greater is_equal
    is_not_equal is_greater_or_equal
united = refl

inserted : insert hash_comparator 4 odd ≡ 1 ∷ 3 ∷ 4 ∷ 5 ∷ []
unfolding insert binary_search search_loop
inserted = refl

replaced : replace hash_comparator 3 odd ≡ (some 3, odd)
unfolding replace binary_search search_loop
replaced = refl
