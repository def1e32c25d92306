-- ===== src/Transition/Disputes.antt =====
-- packages/jam/transition/disputes: the verdicts on work reports, and who is punished for his part.
-- The loops of disputes.ts that check are in Checks, those that change the state in Updates.
pub mod Sorts
pub mod Checks
pub mod Updates
use typeberry.Base.{
  ℕ, zero, suc, ◌+◌, ◌/◌, ◌%◌, ◌==◌, leb, Bool, true, false, ◌≡◌, refl, List, [], ◌∷◌, ◌++◌, map,
  Option, none, some, get_elem?, if◌then◌else◌,
}
use typeberry.Collections.SortedArray.{order_ranks, is_greater_or_equal, Comparator}
use typeberry.Transition.HashSet.{Hash}
use typeberry.Transition.Assurances.{AvailabilityAssignment, SignatureInput}

abbrev pub Bytes : Type 0
Bytes = List ℕ

-- disputes-error-code.ts
pub data DisputesErrorCode : Type 0 where
  already_judged bad_vote_split verdicts_not_sorted_unique : DisputesErrorCode
  judgements_not_sorted_unique culprits_not_sorted_unique : DisputesErrorCode
  faults_not_sorted_unique not_enough_culprits not_enough_faults : DisputesErrorCode
  culprits_verdict_not_bad fault_verdict_wrong offender_already_reported : DisputesErrorCode
  bad_judgement_age bad_validator_index bad_signature : DisputesErrorCode
  bad_guarantor_key bad_auditor_key : DisputesErrorCode

-- `Result`, or an exception.
pub data Outcome (A : Type 0) : Type 0 where
  ok : A → Outcome A
  error : DisputesErrorCode → Outcome A
  thrown : Outcome A

infixl 5 ◌>>=◌
abbrev pub ◌>>=◌ : {A B : Type 0} → Outcome A → (A → Outcome B) → Outcome B
ok a >>= f = f a
error e >>= f = error e
thrown >>= f = thrown

abbrev pub or_throw : {A : Type 0} → Option A → Outcome A
or_throw none = thrown
or_throw (some a) = ok a

-- packages/jam/block/disputes.ts
pub record Judgement : Type 0 where
  pub is_work_report_valid : Bool
  pub index : ℕ
  pub signature : Bytes

pub record Verdict : Type 0 where
  pub work_report_hash : Hash
  pub votes_epoch : ℕ
  pub votes : List Judgement

pub record Culprit : Type 0 where
  pub work_report_hash : Hash
  pub key : Hash
  pub signature : Bytes

pub record Fault : Type 0 where
  pub work_report_hash : Hash
  pub was_considered_valid : Bool
  pub key : Hash
  pub signature : Bytes

pub record DisputesExtrinsic : Type 0 where
  pub verdicts : List Verdict
  pub culprits : List Culprit
  pub faults : List Fault

-- packages/jam/state/disputes.ts
pub record DisputesRecords : Type 0 where
  pub good_set : List Hash
  pub bad_set : List Hash
  pub wonky_set : List Hash
  pub punish_set : List Hash

abbrev pub hash_comparator : Comparator Hash
hash_comparator = record { compare = order_ranks; rank = λ h. h; compare-rank = λ a b. refl }

-- Of a validator only the key is read.
pub record ValidatorData : Type 0 where
  pub ed25519 : Hash

-- disputes-state.ts. A work report is given by its encoding, of which the transition takes the hash.
pub record DisputesState : Type 0 where
  pub disputes_records : DisputesRecords
  pub availability_assignment : List (Option (AvailabilityAssignment Bytes))
  pub timeslot : ℕ
  pub current_validator_data : List ValidatorData
  pub previous_validator_data : List ValidatorData

pub record DisputesStateUpdate : Type 0 where
  pub disputes_records : DisputesRecords
  pub availability_assignment : List (Option (AvailabilityAssignment Bytes))

pub record ChainSpec : Type 0 where
  pub epoch_length : ℕ
  pub cores_count : ℕ
  pub validators_super_majority : ℕ
  pub third_of_validators : ℕ

-- The native code that the transition calls: `ed25519.verify`, and `hashBytes` of Blake2b.
pub record Crypto : Type 0 where
  pub verify : List SignatureInput → List Bool
  pub hash_bytes : Bytes → Hash

-- sort-utils.ts
unfoldable pub is_unique_sorted_by : {A : Type 0} → (A → Hash) → List A → Bool
unfolding is_greater_or_equal
is_unique_sorted_by key [] = true
is_unique_sorted_by key (a ∷ []) = true
is_unique_sorted_by key (a ∷ b ∷ arr) =
    let rest = is_unique_sorted_by key (b ∷ arr) in
    if is_greater_or_equal (hash_comparator.compare (key a) (key b)) then false else rest

unfoldable pub is_unique_sorted_by_index : List Judgement → Bool
is_unique_sorted_by_index [] = true
is_unique_sorted_by_index (a ∷ []) = true
is_unique_sorted_by_index (a ∷ b ∷ judgements) =
    let rest = is_unique_sorted_by_index (b ∷ judgements) in
    if leb b.index a.index then false else rest

-- verification-utils.ts. The characters of "jam_valid", "jam_invalid" and "jam_guarantee".
abbrev pub jam_valid : Bytes
jam_valid = 106 ∷ 97 ∷ 109 ∷ 95 ∷ 118 ∷ 97 ∷ 108 ∷ 105 ∷ 100 ∷ []

abbrev pub jam_invalid : Bytes
jam_invalid = 106 ∷ 97 ∷ 109 ∷ 95 ∷ 105 ∷ 110 ∷ 118 ∷ 97 ∷ 108 ∷ 105 ∷ 100 ∷ []

abbrev pub jam_guarantee : Bytes
jam_guarantee = 106 ∷ 97 ∷ 109 ∷ 95 ∷ 103 ∷ 117 ∷ 97 ∷ 114 ∷ 97 ∷ 110 ∷ 116 ∷ 101 ∷ 101 ∷ []

-- The bytes that spell a hash, of which there are 32.
abbrev bytes_loop : ℕ → Hash → Bytes
bytes_loop zero hash = []
bytes_loop (suc n) hash = bytes_loop n (hash / 256) ++ (hash % 256 ∷ [])

unfoldable pub raw : Hash → Bytes
raw hash = bytes_loop 32 hash

abbrev signing_context : Bool → Bytes
signing_context is_valid = if is_valid then jam_valid else jam_invalid

unfoldable pub prepare_culprit_signature : Culprit → SignatureInput
unfolding raw
prepare_culprit_signature c = record {
  signature = c.signature;
  key = raw c.key;
  message = jam_guarantee ++ raw c.work_report_hash;
}

unfoldable pub prepare_fault_signature : Fault → SignatureInput
unfolding raw
prepare_fault_signature f = record {
  signature = f.signature;
  key = raw f.key;
  message = signing_context f.was_considered_valid ++ raw f.work_report_hash;
}

unfoldable pub prepare_judgement_signature : Judgement → Hash → Hash → SignatureInput
unfolding raw
prepare_judgement_signature j work_report_hash key = record {
  signature = j.signature;
  key = raw key;
  message = signing_context j.is_work_report_valid ++ raw work_report_hash;
}

-- Of the results only the answers are read.
pub record VerificationInput : Type 0 where
  pub judgements : List SignatureInput
  pub culprits : List SignatureInput
  pub faults : List SignatureInput

pub record VerificationOutput : Type 0 where
  pub judgements : List Bool
  pub culprits : List Bool
  pub faults : List Bool

unfoldable pub vefify_all_signatures : Crypto → VerificationInput → VerificationOutput
vefify_all_signatures crypto input = record {
  judgements = crypto.verify input.judgements;
  culprits = crypto.verify input.culprits;
  faults = crypto.verify input.faults;
}

-- `HashDictionary<WorkReportHash, number>`: the entries in the order of their insertion.
abbrev pub VotesForWorkReports : Type 0
VotesForWorkReports = List (Hash × ℕ)

abbrev pub set_votes : VotesForWorkReports → Hash → ℕ → VotesForWorkReports
set_votes [] r sum = (r, sum) ∷ []
set_votes ((key, value) ∷ v) r sum =
    let rest = set_votes v r sum in if r == key then (key, sum) ∷ v else (key, value) ∷ rest

abbrev pub get_votes : VotesForWorkReports → Hash → Option ℕ
get_votes [] r = none
get_votes ((key, value) ∷ v) r = if r == key then some value else get_votes v r
