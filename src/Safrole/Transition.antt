-- ===== src/Safrole/Transition.antt =====
-- safrole.ts: the new accumulator of tickets, the markers, and the transition.
use typeberry.Base.{
  ℕ, ◌+◌, ◌==◌, ltb, leb, ◌&&◌, not, Bool, true, false, List, [], ◌∷◌, map, length, take, Option,
  none, some, if◌then◌else◌,
}
use typeberry.Collections.SortedArray.{order_ranks, is_equal, is_greater}
use typeberry.Collections.SortedSet.{from_sorted_array, from_two_sorted_collections}
use typeberry.Collections.BlobKeys.{is_equal_to}
use typeberry.Transition.HashSet.{Hash}
use typeberry.Safrole.{
  Bytes, Outcome, ok, error, thrown, ◌>>=◌, or_throw, bad_slot, unexpected_ticket, bad_ticket_order,
  bad_ticket_proof, bad_ticket_attempt, duplicate_ticket, epoch_marker_invalid,
  tickets_marker_invalid, SafroleErrorCode, SignedTicket, Ticket, ticket_comparator, ValidatorData,
  SafroleState, ChainSpec, Crypto, is_epoch_changed, is_same_epoch, get_entropy,
  get_slot_phase_index, get_validator_keys,
}
use typeberry.Safrole.Seals.{outside_in_sequencer, get_slot_key_sequence}

-- packages/jam/block/header.ts
pub record ValidatorKeys : Type 0 where
  pub bandersnatch : Bytes
  pub ed25519 : Hash

pub record EpochMarker : Type 0 where
  pub entropy : Bytes
  pub tickets_entropy : Bytes
  pub validators : List ValidatorKeys

-- A marker of the header is its encoding; how markers are encoded is a parameter.
pub record Encodings : Type 0 where
  pub of_epoch_marker : EpochMarker → Bytes
  pub of_tickets_marker : List Ticket → Bytes

pub record Input : Type 0 where
  pub slot : ℕ
  pub entropy : Bytes
  pub extrinsic : List SignedTicket
  pub punish_set : List Hash
  pub epoch_marker : Option Bytes
  pub tickets_marker : Option Bytes

unfoldable pub get_epoch_mark :
    ChainSpec → SafroleState → ℕ → List ValidatorData → Option EpochMarker
get_epoch_mark spec state timeslot next_validators =
    if not (is_epoch_changed spec state timeslot)
    then none
    else some (record {
      entropy = state.entropy.e0;
      tickets_entropy = state.entropy.e1;
      validators =
          map (λ (v : ValidatorData). record { bandersnatch = v.bandersnatch; ed25519 = v.ed25519 })
            next_validators;
    })

unfoldable pub verify_tickets : List Ticket → Outcome (Unit {0})
unfolding is_equal is_greater
verify_tickets [] = ok tt
verify_tickets (a ∷ []) = ok tt
verify_tickets (a ∷ b ∷ rest) =
    let later = verify_tickets (b ∷ rest) in
    let order = order_ranks a.id b.id in
    if is_equal order
    then error duplicate_ticket
    else if is_greater order
    then error bad_ticket_order
    else later

-- Each ticket with its identifier; there is one for each.
unfoldable pub tickets_of : List SignedTicket → List Hash → Outcome (List Ticket)
tickets_of [] ids = ok []
tickets_of (t ∷ extrinsic) [] = thrown
tickets_of (t ∷ extrinsic) (id ∷ ids) =
    let rest = tickets_of extrinsic ids in
    rest >>= λ others. ok (record { id = id; attempt = t.attempt } ∷ others)

abbrev or_bad_proof : Option (List Hash) → Outcome (List Hash)
or_bad_proof none = error bad_ticket_proof
or_bad_proof (some ids) = ok ids

-- No proof is verified if there are no tickets.
unfoldable pub verified_ids : Crypto → ℕ → Bytes → List SignedTicket → Bytes → Outcome (List Hash)
verified_ids crypto validators epoch_root [] entropy = ok []
verified_ids crypto validators epoch_root (t ∷ extrinsic) entropy =
    or_bad_proof (crypto.verify_tickets validators epoch_root (t ∷ extrinsic) entropy)

unfoldable pub merge_tickets : ChainSpec → List Ticket → List Ticket → Outcome (List Ticket)
merge_tickets spec accumulator new_tickets =
    or_throw (from_sorted_array ticket_comparator accumulator) >>= λ from_state.
    or_throw (from_sorted_array ticket_comparator new_tickets) >>= λ from_extrinsic.
    or_throw (from_two_sorted_collections ticket_comparator from_state from_extrinsic) >>= λ merged.
    if not (length from_state + length from_extrinsic == length merged)
    then error duplicate_ticket
    else ok (take spec.epoch_length merged)

module _ (crypto : Crypto) (spec : ChainSpec) (state : SafroleState) where
  unfoldable pub get_new_ticket_accumulator :
      ℕ → List SignedTicket → ℕ → Bytes → Bytes → Outcome (List Ticket)
  get_new_ticket_accumulator timeslot extrinsic validators epoch_root entropy =
      verified_ids crypto validators epoch_root extrinsic entropy >>= λ ids.
      tickets_of extrinsic ids >>= λ new_tickets. verify_tickets new_tickets >>= λ _.
      if is_epoch_changed spec state timeslot
      then ok new_tickets
      else merge_tickets spec state.tickets_accumulator new_tickets

module _ (spec : ChainSpec) (state : SafroleState) where
  unfoldable pub should_include_tickets_marker : ℕ → Bool
  should_include_tickets_marker timeslot =
      is_same_epoch spec state timeslot
      && (ltb (get_slot_phase_index spec state.timeslot) spec.contest_length
          && (leb spec.contest_length (get_slot_phase_index spec timeslot)
              && length state.tickets_accumulator == spec.epoch_length))

  unfoldable pub get_tickets_marker : ℕ → Outcome (Option (List Ticket))
  get_tickets_marker timeslot =
      if should_include_tickets_marker timeslot
      then (outside_in_sequencer spec state.tickets_accumulator >>= λ marker. ok (some marker))
      else ok none

unfoldable pub is_extrinsic_length_valid : ChainSpec → ℕ → List SignedTicket → Bool
is_extrinsic_length_valid spec timeslot extrinsic =
    if ltb (get_slot_phase_index spec timeslot) spec.contest_length
    then leb (length extrinsic) spec.max_tickets_per_extrinsic
    else length extrinsic == 0

unfoldable pub are_ticket_attempts_valid : ChainSpec → List SignedTicket → Bool
are_ticket_attempts_valid spec [] = true
are_ticket_attempts_valid spec (t ∷ extrinsic) =
    let rest = are_ticket_attempts_valid spec extrinsic in
    if leb spec.tickets_per_validator t.attempt then false else rest

unfoldable pub compare_with_encoding :
    {T : Type 0} → SafroleErrorCode → (T → Bytes) → Option T → Option Bytes → Outcome (Unit {0})
compare_with_encoding e encode none none = ok tt
compare_with_encoding e encode none (some expected) = error e
compare_with_encoding e encode (some actual) none = error e
compare_with_encoding e encode (some actual) (some expected) =
    if is_equal_to (encode actual) expected then ok tt else error e

-- The state's entries that the transition writes; the designated validators stay.
pub record OkResult : Type 0 where
  pub epoch_mark : Option EpochMarker
  pub tickets_mark : Option (List Ticket)
  pub state_update : SafroleState

unfoldable pub transition : Crypto → Encodings → ChainSpec → SafroleState → Input → Outcome OkResult
transition crypto encodings spec state input =
    if leb input.slot state.timeslot
    then error bad_slot
    else if not (is_extrinsic_length_valid spec input.slot input.extrinsic)
    then error unexpected_ticket
    else if not (are_ticket_attempts_valid spec input.extrinsic)
    then error bad_ticket_attempt
    else (get_validator_keys crypto spec state input.slot input.punish_set >>= λ validators.
        let entropy = get_entropy spec state input.slot crypto input.entropy in
        get_slot_key_sequence crypto spec state input.slot validators.current_validator_data
          entropy.e2
        >>= λ series.
            get_new_ticket_accumulator crypto spec state input.slot input.extrinsic
              (length state.validators.next_validator_data) validators.epoch_root entropy.e2
            >>= λ accumulator.
                let epoch_marker =
                  get_epoch_mark spec state input.slot validators.next_validator_data in
                compare_with_encoding epoch_marker_invalid encodings.of_epoch_marker epoch_marker
                  input.epoch_marker
                >>= λ _. get_tickets_marker spec state input.slot >>= λ marker.
                    compare_with_encoding tickets_marker_invalid encodings.of_tickets_marker marker
                      input.tickets_marker
                    >>= λ _. ok (record {
                      epoch_mark = epoch_marker;
                      tickets_mark = marker;
                      state_update = record {
                        designated_validator_data = state.designated_validator_data;
                        timeslot = input.slot;
                        validators = validators;
                        entropy = entropy;
                        tickets_accumulator = accumulator;
                        sealing_key_series = series;
                      };
                    }))
