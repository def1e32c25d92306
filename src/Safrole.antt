-- ===== src/Safrole.antt =====
-- packages/jam/safrole/safrole.ts: the validators, the randomness, the seal keys and the tickets of
-- an epoch. Here are the data, the entropies
-- and the validators; the seal keys are in Seals, the transition in Transition.
pub mod Seals
pub mod Transition
pub mod Steps
pub mod Sequencer
pub mod Fallback
pub mod Tickets
pub mod Agreement
use typeberry.Base.{
  ℕ, zero, suc, ◌+◌, ◌-◌, ◌*◌, ◌/◌, ◌%◌, ◌^◌, ◌==◌, ltb, leb, ◌&&◌, not, Bool, true, false, ◌≡◌,
  refl, List, [], ◌∷◌, ◌++◌, map, length, replicate, get_elem?, Option, none, some, if◌then◌else◌,
}
use typeberry.Codec.Words.{le_bytes}
use typeberry.Codec.Outcome.{ok as decoded, err as failed}
use typeberry.Codec.Decoder.{get_num}
use typeberry.Collections.SortedArray.{order_ranks, Comparator, has}
use typeberry.Transition.HashSet.{Hash}
use typeberry.Transition.Disputes.{hash_comparator}

abbrev pub Bytes : Type 0
Bytes = List ℕ

pub data SafroleErrorCode : Type 0 where
  incorrect_data bad_slot unexpected_ticket bad_ticket_order : SafroleErrorCode
  bad_ticket_proof bad_ticket_attempt duplicate_ticket : SafroleErrorCode
  epoch_marker_invalid tickets_marker_invalid : SafroleErrorCode

-- `Result`, or an exception.
pub data Outcome (A : Type 0) : Type 0 where
  ok : A → Outcome A
  error : SafroleErrorCode → Outcome A
  thrown : Outcome A

infixl 5 ◌>>=◌
abbrev pub ◌>>=◌ : {A B : Type 0} → Outcome A → (A → Outcome B) → Outcome B
ok a >>= f = f a
error e >>= f = error e
thrown >>= f = thrown

-- packages/jam/block/tickets.ts
pub record SignedTicket : Type 0 where
  pub attempt : ℕ
  pub signature : Bytes

pub record Ticket : Type 0 where
  pub id : Hash
  pub attempt : ℕ

unfoldable pub ticket_comparator : Comparator Ticket
ticket_comparator = record {
  compare = λ a b. order_ranks a.id b.id;
  rank = λ t. t.id;
  compare-rank = λ a b. refl;
}

-- packages/jam/state/validator-data.ts
pub record ValidatorData : Type 0 where
  pub bandersnatch : Bytes
  pub ed25519 : Hash
  pub bls : Bytes
  pub metadata : Bytes

-- packages/jam/state/safrole-data.ts
pub data SafroleSealingKeys : Type 0 where
  tickets : List Ticket → SafroleSealingKeys
  keys : List Bytes → SafroleSealingKeys

-- The four entropies, the accumulator first.
pub record Entropy : Type 0 where
  pub e0 : Bytes
  pub e1 : Bytes
  pub e2 : Bytes
  pub e3 : Bytes

pub record EpochValidators : Type 0 where
  pub next_validator_data : List ValidatorData
  pub current_validator_data : List ValidatorData
  pub previous_validator_data : List ValidatorData
  pub epoch_root : Bytes

pub record SafroleState : Type 0 where
  pub designated_validator_data : List ValidatorData
  pub timeslot : ℕ
  pub validators : EpochValidators
  pub entropy : Entropy
  pub tickets_accumulator : List Ticket
  pub sealing_key_series : SafroleSealingKeys

pub record ChainSpec : Type 0 where
  pub epoch_length : ℕ
  pub contest_length : ℕ
  pub max_tickets_per_extrinsic : ℕ
  pub tickets_per_validator : ℕ

-- The native code that is called: `hashBlobs` of Blake2b, and of the Bandersnatch library the ring
-- commitment of keys and, for tickets whose proofs are good, their identifiers in order.
pub record Crypto : Type 0 where
  pub hash_blobs : List Bytes → Bytes
  pub get_ring_commitment : List Bytes → Option Bytes
  pub verify_tickets : ℕ → Bytes → List SignedTicket → Bytes → Option (List Hash)

module _ (spec : ChainSpec) (state : SafroleState) (timeslot : ℕ) where
  unfoldable pub is_epoch_changed : Bool
  is_epoch_changed = ltb (state.timeslot / spec.epoch_length) (timeslot / spec.epoch_length)

  unfoldable pub is_same_epoch : Bool
  is_same_epoch = timeslot / spec.epoch_length == state.timeslot / spec.epoch_length

  unfoldable pub is_next_epoch : Bool
  is_next_epoch = timeslot / spec.epoch_length == state.timeslot / spec.epoch_length + 1

  unfoldable pub get_entropy : Crypto → Bytes → Entropy
  get_entropy crypto entropy_hash =
      let old = state.entropy in
      let new_randomness_acc = crypto.hash_blobs (old.e0 ∷ entropy_hash ∷ []) in
      if is_epoch_changed
      then record { e0 = new_randomness_acc; e1 = old.e0; e2 = old.e1; e3 = old.e2 }
      else record { e0 = new_randomness_acc; e1 = old.e1; e2 = old.e2; e3 = old.e3 }

abbrev pub get_slot_phase_index : ChainSpec → ℕ → ℕ
get_slot_phase_index spec timeslot = timeslot % spec.epoch_length

-- Keys of 32 and of 144 bytes.
unfoldable pub null_if_offender : List Hash → ValidatorData → ValidatorData
null_if_offender punish_set validator =
    if has hash_comparator validator.ed25519 punish_set
    then record {
      bandersnatch = replicate 32 0;
      ed25519 = 0;
      bls = replicate 144 0;
      metadata = validator.metadata;
    }
    else validator

abbrev with_root : EpochValidators → List ValidatorData → Option Bytes → Outcome EpochValidators
with_root old new_next none = error incorrect_data
with_root old new_next (some epoch_root) = ok (record {
  next_validator_data = new_next;
  current_validator_data = old.next_validator_data;
  previous_validator_data = old.current_validator_data;
  epoch_root = epoch_root;
})

unfoldable pub get_validator_keys :
    Crypto → ChainSpec → SafroleState → ℕ → List Hash → Outcome EpochValidators
unfolding null_if_offender
get_validator_keys crypto spec state timeslot post_offenders =
    let new_next = map (null_if_offender post_offenders) state.designated_validator_data in
    if not (is_epoch_changed spec state timeslot)
    then ok state.validators
    else with_root state.validators new_next
        (crypto.get_ring_commitment (map (λ (x : ValidatorData). x.bandersnatch) new_next))

abbrev pub or_throw : {A : Type 0} → Option A → Outcome A
or_throw none = thrown
or_throw (some a) = ok a
