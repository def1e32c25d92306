-- ===== src/Safrole/Agreement.antt =====
-- The state that seals are verified against is the one that the transition leaves.
use typeberry.Base.{
  ℕ, ◌<◌, ◌≡◌, refl, sym, ap, arith, Bool, Bool-cases, true, false, List, [], ◌∷◌, map,
  Option-cases, if◌then◌else◌, inl, inr,
}
use typeberry.Safrole.{
  Bytes, ok, ValidatorData, Entropy, EpochValidators, SafroleState, ChainSpec, Crypto,
  is_epoch_changed, get_entropy, null_if_offender, get_validator_keys,
}
use typeberry.Safrole.Seals.{get_safrole_seal_state}
use typeberry.Transition.HashSet.{Hash}
use typeberry.Safrole.Transition.{Encodings, Input, OkResult, transition}
use typeberry.Safrole.Steps.{ok-injective, transition-Steps}

-- In one epoch the validators stay; in a new one each group takes the place of the one before it,
-- and the next ones are the designated, the offenders among them without keys.
abbrev pub Rotated : SafroleState → List Hash → Bool → EpochValidators → Type 0
Rotated state punish_set true after =
    (after.next_validator_data ≡ map (null_if_offender punish_set) state.designated_validator_data)
    × (after.current_validator_data ≡ state.validators.next_validator_data)
    × (after.previous_validator_data ≡ state.validators.current_validator_data)
Rotated state punish_set false after = after ≡ state.validators

-- In a new epoch the entropies move on by one place.
abbrev pub Shifted : Entropy → Bool → Entropy → Type 0
Shifted old true after = (after.e1 ≡ old.e0) × (after.e2 ≡ old.e1) × (after.e3 ≡ old.e2)
Shifted old false after = (after.e1 ≡ old.e1) × (after.e2 ≡ old.e2) × (after.e3 ≡ old.e3)

module _ (crypto : Crypto) (spec : ChainSpec) (state : SafroleState) (slot : ℕ) where
  get_validator_keys-Rotated :
      (punish_set : List Hash) (after : EpochValidators)
      → get_validator_keys crypto spec state slot punish_set ≡ ok after
      → Rotated state punish_set (is_epoch_changed spec state slot) after
  unfolding get_validator_keys
  get_validator_keys-Rotated punish_set after h =
      elim (Bool-cases (is_epoch_changed spec state slot)) [
        | inl new ↦
            elim (Option-cases (
              crypto.get_ring_commitment (
                map (λ (x : ValidatorData). x.bandersnatch)
                  (map (null_if_offender punish_set) state.designated_validator_data)))) [
                    | inl missing ↦ absurd (let bad = rw (new, missing) at h in cc)
                    | inr (root, e) ↦
                        let made = ok-injective _ after (rw (new, e) at h) in
                        rw (new) (
                          sym (ap (λ (x : EpochValidators). x.next_validator_data) made),
                          sym (ap (λ (x : EpochValidators). x.current_validator_data) made),
                          sym (ap (λ (x : EpochValidators). x.previous_validator_data) made),
                        )
                  ]
        | inr old ↦ rw (old) (sym (ok-injective state.validators after (rw (old) at h)))
      ]

  get_entropy-Shifted :
      (entropy_hash : Bytes)
      → Shifted state.entropy
          (is_epoch_changed spec state slot)
          (get_entropy spec state slot crypto entropy_hash)
  unfolding get_entropy
  get_entropy-Shifted entropy_hash = elim (Bool-cases (is_epoch_changed spec state slot)) [
    | inl new ↦ rw (new) (refl, refl, refl)
    | inr old ↦ rw (old) (refl, refl, refl)
  ]

  -- What a group of validators and an entropy are, by whether the epoch changes.
  current_of :
      (punish_set : List Hash) (after : EpochValidators)
      → get_validator_keys crypto spec state slot punish_set ≡ ok after
      → after.current_validator_data ≡ (
          if is_epoch_changed spec state slot
          then state.validators.next_validator_data
          else state.validators.current_validator_data)
  current_of punish_set after h =
      let rotated = get_validator_keys-Rotated punish_set after h in
      elim (Bool-cases (is_epoch_changed spec state slot)) [
        | inl new ↦ rw (new) (rw (new) at rotated).1
        | inr old ↦
            rw (old) (ap (λ (x : EpochValidators). x.current_validator_data) (rw (old) at rotated))
      ]

  entropy_of :
      (entropy_hash : Bytes)
      → let after = get_entropy spec state slot crypto entropy_hash in
        (after.e2
          ≡ (if is_epoch_changed spec state slot then state.entropy.e1 else state.entropy.e2))
        × (after.e3
            ≡ (if is_epoch_changed spec state slot then state.entropy.e2 else state.entropy.e3))
  entropy_of entropy_hash =
      let shifted = get_entropy-Shifted entropy_hash in
      elim (Bool-cases (is_epoch_changed spec state slot)) [
        | inl new ↦ let s = rw (new) at shifted in rw (new) (s.1, s.2)
        | inr old ↦ let s = rw (old) at shifted in rw (old) (s.1, s.2)
      ]

module _ (crypto : Crypto) (encodings : Encodings) (spec : ChainSpec) (state : SafroleState)
    (input : Input) (result : OkResult)
    (done : transition crypto encodings spec state input ≡ ok result) where
  -- The state that the seal of a block is verified against, before the transition, has the
  -- validators, the entropy and the seal keys that the transition of the block leaves.
  pub get_safrole_seal_state-after :
      get_safrole_seal_state crypto spec state input.slot
      ≡ ok (record {
        current_validator_data = result.state_update.validators.current_validator_data;
        current_entropy = result.state_update.entropy.e3;
        sealing_key_series = result.state_update.sealing_key_series;
      })
  unfolding get_safrole_seal_state
  get_safrole_seal_state-after =
      let steps = transition-Steps crypto encodings spec state input result done in
      let current =
        current_of crypto spec state input.slot input.punish_set steps.validators
          steps.validators_made in
      let (e2, e3) = entropy_of crypto spec state input.slot input.entropy in
      let series = rw (current, e2) at steps.series_made in
      rw (sym steps.made, series, current, e3) refl

  -- A block that is accepted has a later slot than the state. In a new epoch the validators move on
  -- by one group, the next ones are the designated, the offenders among them without keys, and the
  -- entropies move on by one place; in the same epoch they stay, but for the accumulated entropy,
  -- into which the entropy of the block is hashed.
  pub transition-Rotated :
      (state.timeslot < input.slot)
      × (result.state_update.timeslot ≡ input.slot)
      × Rotated state input.punish_set
          (is_epoch_changed spec state input.slot)
          result.state_update.validators
      × Shifted state.entropy (is_epoch_changed spec state input.slot) result.state_update.entropy
      × (result.state_update.entropy.e0 ≡ crypto.hash_blobs (state.entropy.e0 ∷ input.entropy ∷ []))
  unfolding get_entropy
  transition-Rotated =
      let steps = transition-Steps crypto encodings spec state input result done in
      let later = steps.later in
      rw (sym steps.made) (
        ground arith,
        refl,
        get_validator_keys-Rotated crypto spec state input.slot input.punish_set steps.validators
            steps.validators_made,
        get_entropy-Shifted crypto spec state input.slot input.entropy,
        elim (Bool-cases (is_epoch_changed spec state input.slot)) [
          | inl new ↦ rw (new) refl
          | inr old ↦ rw (old) refl
        ],
      )
