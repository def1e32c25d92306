-- ===== src/Safrole/Steps.antt =====
-- The steps that a transition without an error has made.
use typeberry.Base.{◌≡◌, refl, ap, Bool, true, false, leb, not, List, length, Option, if◌then◌else◌}
use typeberry.Safrole.{
  ◌>>=◌, Outcome, ok, error, thrown, SafroleErrorCode, Ticket, SafroleSealingKeys, EpochValidators,
  SafroleState, ChainSpec, Crypto, get_entropy, get_validator_keys, epoch_marker_invalid,
  tickets_marker_invalid, bad_slot, unexpected_ticket, bad_ticket_attempt,
}
use typeberry.Safrole.Seals.{get_slot_key_sequence}
use typeberry.Safrole.Transition.{
  Encodings, Input, get_epoch_mark, get_new_ticket_accumulator, get_tickets_marker,
  is_extrinsic_length_valid, are_ticket_attempts_valid, compare_with_encoding, OkResult, transition,
}

pub bind-eq-ok :
    {A B : Type 0} (m : Outcome A) (f : A → Outcome B) {b : B}
    → (m >>= f) ≡ ok b
    → (a : A) × (m ≡ ok a) × (f a ≡ ok b)
bind-eq-ok (ok a) f h = (a, refl, h)
bind-eq-ok (error e) f h = absurd (cc)
bind-eq-ok thrown f h = absurd (cc)

abbrev value_or : {A : Type 0} → A → Outcome A → A
value_or a (ok b) = b
value_or a (error e) = a
value_or a thrown = a

pub ok-injective : {A : Type 0} (a b : A) → ok a ≡ ok b → a ≡ b
ok-injective a b e = ap (value_or a) e

pub guard-ok :
    {A : Type 0} (t : Bool) (e : SafroleErrorCode) (rest : Outcome A) {a : A}
    → (if t then error e else rest) ≡ ok a
    → (t ≡ false) × (rest ≡ ok a)
guard-ok true e rest h = absurd (cc)
guard-ok false e rest h = (refl, h)

module _ (crypto : Crypto) (encodings : Encodings) (spec : ChainSpec) (state : SafroleState)
    (input : Input) where
  -- The result that the steps' values make.
  abbrev pub result_of :
      EpochValidators → SafroleSealingKeys → List Ticket → Option (List Ticket) → OkResult
  result_of validators series accumulator marker = record {
    epoch_mark = get_epoch_mark spec state input.slot validators.next_validator_data;
    tickets_mark = marker;
    state_update = record {
      designated_validator_data = state.designated_validator_data;
      timeslot = input.slot;
      validators = validators;
      entropy = get_entropy spec state input.slot crypto input.entropy;
      tickets_accumulator = accumulator;
      sealing_key_series = series;
    };
  }

  pub record Steps (result : OkResult) : Type 0 where
    pub validators : EpochValidators
    pub series : SafroleSealingKeys
    pub accumulator : List Ticket
    pub marker : Option (List Ticket)
    pub later : leb input.slot state.timeslot ≡ false
    pub few : not (is_extrinsic_length_valid spec input.slot input.extrinsic) ≡ false
    pub attempts : not (are_ticket_attempts_valid spec input.extrinsic) ≡ false
    pub validators_made :
        get_validator_keys crypto spec state input.slot input.punish_set ≡ ok validators
    pub series_made :
        get_slot_key_sequence crypto spec state input.slot validators.current_validator_data
          (get_entropy spec state input.slot crypto input.entropy).e2
        ≡ ok series
    pub accumulator_made :
        get_new_ticket_accumulator crypto spec state input.slot input.extrinsic
          (length state.validators.next_validator_data)
          validators.epoch_root
          (get_entropy spec state input.slot crypto input.entropy).e2
        ≡ ok accumulator
    pub epoch_marked :
        compare_with_encoding epoch_marker_invalid encodings.of_epoch_marker
          (get_epoch_mark spec state input.slot validators.next_validator_data)
          input.epoch_marker
        ≡ ok tt
    pub marker_made : get_tickets_marker spec state input.slot ≡ ok marker
    pub tickets_marked :
        compare_with_encoding tickets_marker_invalid encodings.of_tickets_marker marker
          input.tickets_marker
        ≡ ok tt
    pub made : result_of validators series accumulator marker ≡ result

  pub transition-Steps :
      (result : OkResult) → transition crypto encodings spec state input ≡ ok result → Steps result
  unfolding transition
  transition-Steps result h =
      let (later, h1) = guard-ok (leb input.slot state.timeslot) bad_slot _ h in
      let (few, h2) =
        guard-ok (not (is_extrinsic_length_valid spec input.slot input.extrinsic)) unexpected_ticket
          _ h1 in
      let (attempts, h3) =
        guard-ok (not (are_ticket_attempts_valid spec input.extrinsic)) bad_ticket_attempt _ h2 in
      let (validators, v, h4) =
        bind-eq-ok (get_validator_keys crypto spec state input.slot input.punish_set) _ h3 in
      let e2 = (get_entropy spec state input.slot crypto input.entropy).e2 in
      let (series, s, h5) =
        bind-eq-ok
          (get_slot_key_sequence crypto spec state input.slot validators.current_validator_data e2)
          _ h4 in
      let (accumulator, a, h6) =
        bind-eq-ok
          (get_new_ticket_accumulator crypto spec state input.slot input.extrinsic
            (length state.validators.next_validator_data) validators.epoch_root e2)
          _ h5 in
      let (_, em, h7) =
        bind-eq-ok
          (compare_with_encoding epoch_marker_invalid encodings.of_epoch_marker
            (get_epoch_mark spec state input.slot validators.next_validator_data)
            input.epoch_marker)
          _ h6 in
      let (marker, m, h8) = bind-eq-ok (get_tickets_marker spec state input.slot) _ h7 in
      let (_, tm, h9) =
        bind-eq-ok
          (compare_with_encoding tickets_marker_invalid encodings.of_tickets_marker marker
            input.tickets_marker)
          _ h8 in
      record {
        validators = validators;
        series = series;
        accumulator = accumulator;
        marker = marker;
        later = later;
        few = few;
        attempts = attempts;
        validators_made = v;
        series_made = s;
        accumulator_made = a;
        epoch_marked = em;
        marker_made = m;
        tickets_marked = tm;
        made = ok-injective _ result h9;
      }
