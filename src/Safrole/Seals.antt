-- ===== src/Safrole/Seals.antt =====
-- packages/jam/safrole/safrole.ts: the keys and tickets that seal an epoch, and the state that a seal
-- is verified against.
use typeberry.Base.{
  ℕ, zero, suc, ◌-◌, ◌*◌, ◌/◌, ◌%◌, ◌==◌, ltb, leb, ◌&&◌, List, [], ◌∷◌, ◌++◌, length, get_elem?,
  none, some, if◌then◌else◌,
}
use typeberry.Codec.Words.{le_bytes}
use typeberry.Codec.Outcome.{ok as decoded, err as failed}
use typeberry.Codec.Decoder.{get_num}
use typeberry.Safrole.{
  Bytes, ◌>>=◌, Outcome, ok, thrown, or_throw, Ticket, ValidatorData, SafroleSealingKeys, tickets,
  keys, SafroleState, ChainSpec, Crypto, is_epoch_changed, is_same_epoch, is_next_epoch,
  get_slot_phase_index,
}

-- `left` turns of the loop from `i` on, each of which writes the next two places. Both indices are
-- within the array.
unfoldable pub outside_in_loop : ℕ → ℕ → List Ticket → List Ticket
outside_in_loop zero i all_tickets = []
outside_in_loop (suc left) i all_tickets =
    let rest = outside_in_loop left (suc i) all_tickets in
    elim (get_elem? all_tickets i) [
      | none ↦ rest
      | some front ↦ elim (get_elem? all_tickets (length all_tickets - i - 1)) [
        | none ↦ rest
        | some back ↦ front ∷ back ∷ rest
      ]
    ]

abbrev pub middle_ticket : List Ticket → List Ticket
middle_ticket all_tickets = elim (get_elem? all_tickets (length all_tickets / 2)) [
  | none ↦ []
  | some ticket ↦ ticket ∷ []
]

unfoldable pub reordered_tickets : List Ticket → List Ticket
reordered_tickets all_tickets =
    outside_in_loop (length all_tickets / 2) 0 all_tickets
    ++ (if ltb (2 * (length all_tickets / 2)) (length all_tickets)
        then middle_ticket all_tickets
        else [])

abbrev pub try_as_per_epoch_block : {A : Type 0} → ChainSpec → List A → Outcome (List A)
try_as_per_epoch_block spec array = if length array == spec.epoch_length then ok array else thrown

unfoldable pub outside_in_sequencer : ChainSpec → List Ticket → Outcome (List Ticket)
unfolding reordered_tickets
outside_in_sequencer spec all_tickets = try_as_per_epoch_block spec (reordered_tickets all_tickets)

abbrev pub read_u32 : Bytes → Outcome ℕ
read_u32 bytes = elim (get_num 4 (record { source = bytes; offset = 0 })) [
  | decoded result ↦ ok result.0
  | failed e ↦ thrown
]

-- `left` turns of the loop from `i` on; the modulus 0 and an index that is not there throw.
unfoldable pub fallback_loop : Crypto → Bytes → List ValidatorData → ℕ → ℕ → Outcome (List Bytes)
fallback_loop crypto entropy validators zero i = ok []
fallback_loop crypto entropy validators (suc left) i =
    let rest = fallback_loop crypto entropy validators left (suc i) in
    read_u32 (crypto.hash_blobs (entropy ∷ le_bytes 4 i ∷ [])) >>= λ number.
    or_throw (get_elem? validators (number % length validators)) >>= λ validator.
    rest >>= λ result. ok (validator.bandersnatch ∷ result)

unfoldable pub fallback_key_sequencer :
    Crypto → ChainSpec → Bytes → List ValidatorData → Outcome (List Bytes)
fallback_key_sequencer crypto spec entropy validators =
    fallback_loop crypto entropy validators spec.epoch_length 0 >>= λ result.
    try_as_per_epoch_block spec result

unfoldable pub get_slot_key_sequence :
    Crypto → ChainSpec → SafroleState → ℕ → List ValidatorData → Bytes → Outcome SafroleSealingKeys
get_slot_key_sequence crypto spec state timeslot new_validators new_entropy =
    let m = get_slot_phase_index spec state.timeslot in
    if is_next_epoch spec state timeslot
      && (leb spec.contest_length m && length state.tickets_accumulator == spec.epoch_length)
    then (outside_in_sequencer spec state.tickets_accumulator >>= λ reordered.
        ok (tickets reordered))
    else if is_same_epoch spec state timeslot
    then ok state.sealing_key_series
    else (fallback_key_sequencer crypto spec new_entropy new_validators >>= λ fallback.
        ok (keys fallback))

-- safrole-seal.ts
pub record SafroleSealState : Type 0 where
  pub current_validator_data : List ValidatorData
  pub current_entropy : Bytes
  pub sealing_key_series : SafroleSealingKeys

unfoldable pub get_safrole_seal_state :
    Crypto → ChainSpec → SafroleState → ℕ → Outcome SafroleSealState
get_safrole_seal_state crypto spec state timeslot =
    let is_first = is_epoch_changed spec state timeslot in
    let validators =
      if is_first
      then state.validators.next_validator_data
      else state.validators.current_validator_data in
    let new_entropy = if is_first then state.entropy.e1 else state.entropy.e2 in
    let current_entropy = if is_first then state.entropy.e2 else state.entropy.e3 in
    get_slot_key_sequence crypto spec state timeslot validators new_entropy >>= λ series.
    ok (record {
      current_validator_data = validators;
      current_entropy = current_entropy;
      sealing_key_series = series;
    })
