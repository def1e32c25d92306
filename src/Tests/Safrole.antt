-- ===== src/Tests/Safrole.antt =====
-- Runs of Safrole.
use typeberry.Base.{
  ℕ, suc, ◌-◌, ◌*◌, ◌/◌, ◌≤◌, ◌<◌, ◌≡◌, ◌⊎◌, refl, arith, true, false, List, [], ◌∷◌, map, length,
  replicate, get_elem?, get_or, All, none, some,
}
use mathlib.Core.List.{Perm}
use typeberry.Collections.BlobKeys.{is_equal_to}
use typeberry.Collections.SortedArray.{
  has, binary_search, search_loop, is_less, is_greater, is_equal, is_not_equal, is_greater_or_equal,
}
use typeberry.Collections.SortedSet.{
  from_sorted_array, is_strictly_ascending, from_two_sorted_collections, from_two_sorted_arrays,
  merge_loop, from_ascending_array, is_ascending, compact_loop,
}
use typeberry.Transition.HashSet.{Hash}
use typeberry.Safrole.{
  Bytes, ok, error, bad_slot, SignedTicket, Ticket, ticket_comparator, ValidatorData,
  SafroleSealingKeys, tickets, keys, SafroleState, ChainSpec, Crypto, is_epoch_changed,
  is_same_epoch, is_next_epoch, get_entropy, null_if_offender, get_validator_keys,
}
use typeberry.Safrole.Seals.{
  outside_in_loop, reordered_tickets, outside_in_sequencer, get_slot_key_sequence,
  get_safrole_seal_state,
}
use typeberry.Safrole.Transition.{
  Encodings, Input, get_epoch_mark, verify_tickets, tickets_of, verified_ids, merge_tickets,
  get_new_ticket_accumulator, should_include_tickets_marker, get_tickets_marker,
  is_extrinsic_length_valid, are_ticket_attempts_valid, compare_with_encoding, OkResult, transition,
}
use typeberry.Safrole.Sequencer.{reordered_tickets-Perm}
use typeberry.Safrole.Fallback.{IsKeyOf, is_contest_won, get_slot_key_sequence-Series}
use typeberry.Safrole.Tickets.{IsOrdered, IsAccumulated, transition-IsAccumulated}
use typeberry.Safrole.Agreement.{Rotated, Shifted, get_safrole_seal_state-after, transition-Rotated}

-- A hash has the number of its blobs in front, a ticket's identifier is the byte of its signature,
-- and the ring commitment is of the number of keys.
abbrev toy : Crypto
toy = record {
  hash_blobs = λ blobs. length blobs ∷ 7 ∷ 0 ∷ 0 ∷ [];
  get_ring_commitment = λ ring. some (length ring ∷ []);
  verify_tickets = λ n root extrinsic entropy.
      some (map (λ (t : SignedTicket). get_or t.signature 0 0) extrinsic);
}

abbrev encodings : Encodings
encodings = record {
  of_epoch_marker = λ m. m.entropy;
  of_tickets_marker = λ ts. map (λ (t : Ticket). t.id) ts;
}

abbrev spec : ChainSpec
spec = record {
  epoch_length = 4;
  contest_length = 3;
  max_tickets_per_extrinsic = 2;
  tickets_per_validator = 2;
}

abbrev validator : ℕ → ValidatorData
validator n = record { bandersnatch = n ∷ []; ed25519 = n; bls = []; metadata = n ∷ [] }

abbrev ticket : Hash → Ticket
ticket id = record { id = id; attempt = 0 }

abbrev signed : Hash → SignedTicket
signed id = record { attempt = 1; signature = id ∷ [] }

abbrev state_at : ℕ → List Ticket → SafroleState
state_at slot accumulator = record {
  designated_validator_data = validator 31 ∷ validator 32 ∷ [];
  timeslot = slot;
  validators = record {
    next_validator_data = validator 21 ∷ validator 22 ∷ [];
    current_validator_data = validator 11 ∷ validator 12 ∷ [];
    previous_validator_data = validator 1 ∷ validator 2 ∷ [];
    epoch_root = 5 ∷ [];
  };
  entropy = record { e0 = 100 ∷ []; e1 = 101 ∷ []; e2 = 102 ∷ []; e3 = 103 ∷ [] };
  tickets_accumulator = accumulator;
  sealing_key_series = keys [];
}

-- A full accumulator in the last slot of an epoch.
abbrev full : SafroleState
full = state_at 7 (ticket 10 ∷ ticket 20 ∷ ticket 30 ∷ ticket 40 ∷ [])

abbrev new_epoch : Input
new_epoch = record {
  slot = 8;
  entropy = 9 ∷ [];
  extrinsic = signed 15 ∷ [];
  punish_set = 32 ∷ [];
  epoch_marker = some (100 ∷ []);
  tickets_marker = none;
}

abbrev after : OkResult
after = record {
  epoch_mark = some (record {
    entropy = 100 ∷ [];
    tickets_entropy = 101 ∷ [];
    validators =
        record { bandersnatch = 31 ∷ []; ed25519 = 31 }
        ∷ record { bandersnatch = replicate 32 0; ed25519 = 0 }
        ∷ [];
  });
  tickets_mark = none;
  state_update = record {
    designated_validator_data = full.designated_validator_data;
    timeslot = 8;
    validators = record {
      next_validator_data =
          validator 31
          ∷ record {
            bandersnatch = replicate 32 0;
            ed25519 = 0;
            bls = replicate 144 0;
            metadata = 32 ∷ [];
          }
          ∷ [];
      current_validator_data = validator 21 ∷ validator 22 ∷ [];
      previous_validator_data = validator 11 ∷ validator 12 ∷ [];
      epoch_root = 2 ∷ [];
    };
    entropy = record { e0 = 2 ∷ 7 ∷ 0 ∷ 0 ∷ []; e1 = 100 ∷ []; e2 = 101 ∷ []; e3 = 102 ∷ [] };
    tickets_accumulator = record { id = 15; attempt = 1 } ∷ [];
    sealing_key_series = tickets (ticket 10 ∷ ticket 40 ∷ ticket 20 ∷ ticket 30 ∷ []);
  };
}

run : transition toy encodings spec full new_epoch ≡ ok after
unfolding transition is_extrinsic_length_valid are_ticket_attempts_valid get_validator_keys
    null_if_offender has binary_search search_loop is_epoch_changed is_same_epoch is_next_epoch
    get_entropy get_slot_key_sequence outside_in_sequencer reordered_tickets outside_in_loop
    get_new_ticket_accumulator verified_ids tickets_of verify_tickets is_equal is_greater
    get_epoch_mark get_tickets_marker should_include_tickets_marker compare_with_encoding
    is_equal_to
run = refl

-- Two tickets come to three, of which the four lowest stay.
abbrev filling : SafroleState
filling = state_at 4 (ticket 10 ∷ ticket 20 ∷ ticket 30 ∷ [])

abbrev same_epoch : Input
same_epoch = record {
  slot = 5;
  entropy = 9 ∷ [];
  extrinsic = signed 15 ∷ signed 25 ∷ [];
  punish_set = [];
  epoch_marker = none;
  tickets_marker = none;
}

abbrev filled : OkResult
filled = record {
  epoch_mark = none;
  tickets_mark = none;
  state_update = record {
    designated_validator_data = filling.designated_validator_data;
    timeslot = 5;
    validators = filling.validators;
    entropy = record { e0 = 2 ∷ 7 ∷ 0 ∷ 0 ∷ []; e1 = 101 ∷ []; e2 = 102 ∷ []; e3 = 103 ∷ [] };
    tickets_accumulator =
        ticket 10
        ∷ record { id = 15; attempt = 1 }
        ∷ ticket 20
        ∷ record { id = 25; attempt = 1 }
        ∷ [];
    sealing_key_series = keys [];
  };
}

fill : transition toy encodings spec filling same_epoch ≡ ok filled
unfolding transition is_extrinsic_length_valid are_ticket_attempts_valid get_validator_keys
    is_epoch_changed is_same_epoch is_next_epoch get_entropy get_slot_key_sequence
    get_new_ticket_accumulator verified_ids tickets_of verify_tickets is_equal is_greater
    merge_tickets from_sorted_array is_strictly_ascending from_two_sorted_collections
    from_two_sorted_arrays merge_loop from_ascending_array is_ascending compact_loop is_less
    is_not_equal is_greater_or_equal ticket_comparator get_epoch_mark get_tickets_marker
    should_include_tickets_marker compare_with_encoding
fill = refl

late : transition toy encodings spec full (record new_epoch { slot = 7 }) ≡ error bad_slot
unfolding transition
late = refl

reordered_tickets-Perm_example :
    Perm (reordered_tickets filling.tickets_accumulator) filling.tickets_accumulator
    × ((i : ℕ)
        → i < length filling.tickets_accumulator / 2
        → (get_elem? (reordered_tickets filling.tickets_accumulator) (2 * i)
            ≡ get_elem? filling.tickets_accumulator i)
          × (get_elem? (reordered_tickets filling.tickets_accumulator) (suc (2 * i))
              ≡ get_elem? filling.tickets_accumulator (length filling.tickets_accumulator - i - 1)))
reordered_tickets-Perm_example = reordered_tickets-Perm filling.tickets_accumulator

get_safrole_seal_state-after_example :
    get_safrole_seal_state toy spec full 8
    ≡ ok (record {
      current_validator_data = validator 21 ∷ validator 22 ∷ [];
      current_entropy = 102 ∷ [];
      sealing_key_series = tickets (ticket 10 ∷ ticket 40 ∷ ticket 20 ∷ ticket 30 ∷ []);
    })
get_safrole_seal_state-after_example =
    get_safrole_seal_state-after toy encodings spec full new_epoch after run

transition-Rotated_example :
    (full.timeslot < new_epoch.slot)
    × (after.state_update.timeslot ≡ new_epoch.slot)
    × Rotated full new_epoch.punish_set
        (is_epoch_changed spec full new_epoch.slot)
        after.state_update.validators
    × Shifted full.entropy (is_epoch_changed spec full new_epoch.slot) after.state_update.entropy
    × (after.state_update.entropy.e0 ≡ toy.hash_blobs (full.entropy.e0 ∷ new_epoch.entropy ∷ []))
transition-Rotated_example = transition-Rotated toy encodings spec full new_epoch after run

transition-IsAccumulated_example :
    IsOrdered filled.state_update.tickets_accumulator
    × (length filled.state_update.tickets_accumulator ≤ spec.epoch_length)
    × ((ids : List Hash) × (new_tickets : List Ticket) × (verified_ids toy
            (length filling.validators.next_validator_data)
            filled.state_update.validators.epoch_root
            same_epoch.extrinsic
            filled.state_update.entropy.e2
          ≡ ok ids)
        × (tickets_of same_epoch.extrinsic ids ≡ ok new_tickets)
        × IsOrdered new_tickets
        × IsAccumulated spec
            (is_epoch_changed spec filling same_epoch.slot)
            filling.tickets_accumulator
            new_tickets
            filled.state_update.tickets_accumulator)
transition-IsAccumulated_example =
    transition-IsAccumulated toy encodings spec filling same_epoch filled fill (omega arith)

-- Epoch 3 does not follow epoch 1, so the keys of validators seal it.
get_slot_key_sequence-Series_example :
    (series : SafroleSealingKeys) × (get_slot_key_sequence toy spec full 13
        full.validators.current_validator_data
        (5 ∷ [])
      ≡ ok series)
    × (((is_contest_won spec full 13 ≡ true)
          × (series ≡ tickets (reordered_tickets full.tickets_accumulator)))
        ⊎ ((is_contest_won spec full 13 ≡ false)
            × (((is_same_epoch spec full 13 ≡ true) × (series ≡ full.sealing_key_series))
                ⊎ ((is_same_epoch spec full 13 ≡ false)
                    × ((result : List Bytes) × (series ≡ keys result)
                        × (length result ≡ spec.epoch_length)
                        × All (IsKeyOf full.validators.current_validator_data) result)))))
get_slot_key_sequence-Series_example =
    get_slot_key_sequence-Series toy spec full 13 full.validators.current_validator_data (5 ∷ [])
      (λ blobs. omega arith) (omega arith)
