-- ===== src/Safrole/Fallback.antt =====
-- The keys that seal an epoch if there are too few tickets, and the series that a block gets.
use typeberry.Base.{
  ℕ, zero, suc, ◌+◌, ◌%◌, ◌≤◌, ◌<◌, ◌≡◌, ltb, leb, ◌&&◌, ◌==◌, ==_iff, refl, arith, Bool,
  Bool-cases, true, false, List, [], ◌∷◌, length, take, All, ◌⊎◌, get_elem?, get_elem?-some, some,
  inl, inr,
}
use typeberry.Codec.Words.{le_bytes, le_value}
use typeberry.Codec.Outcome.{ok as decoded}
use typeberry.Codec.Stream.{bind-ok}
use typeberry.Codec.Decoder.{
  Decoder, ◌>>=◌, ◌>>◌, get_num, consume, ensure_has_bytes, window, advance, pure,
}
use typeberry.Safrole.{
  Bytes, ok, ValidatorData, SafroleSealingKeys, tickets, keys, SafroleState, ChainSpec, Crypto,
  is_next_epoch, is_same_epoch, get_slot_phase_index,
}
use typeberry.Safrole.Seals.{
  read_u32, fallback_loop, fallback_key_sequencer, get_slot_key_sequence, reordered_tickets,
}
use typeberry.Safrole.Sequencer.{outside_in_sequencer-full}

get_num-start :
    (bytes : Bytes)
    → 4 ≤ length bytes
    → get_num 4 (record { source = bytes; offset = 0 })
      ≡ decoded (le_value (take 4 bytes), record { source = bytes; offset = 0 + 4 })
unfolding get_num consume ensure_has_bytes window advance
get_num-start bytes l =
    let enough : ltb (length bytes) (0 + 4) ≡ false = ground arith in
    let d : Decoder = record { source = bytes; offset = 0 } in
    let there : ensure_has_bytes 4 d ≡ decoded (tt, d) = rw (ensure_has_bytes, enough) refl in
    let read : consume 4 d ≡ decoded (take 4 bytes, record { source = bytes; offset = 0 + 4 }) =
      bind-ok (ensure_has_bytes 4) (λ x. ◌>>=◌ (window 4) (λ bs. ◌>>◌ (advance 4) (pure bs)))
        {d = d} there in
    bind-ok (consume 4) (λ x. pure (le_value x)) {d = d} read

read_u32-ok : (bytes : Bytes) → 4 ≤ length bytes → read_u32 bytes ≡ ok (le_value (take 4 bytes))
read_u32-ok bytes l = rw (read_u32, get_num-start bytes l) refl

-- The key of some validator.
abbrev pub IsKeyOf : List ValidatorData → Bytes → Type 0
IsKeyOf validators key =
    (j : ℕ) × (v : ValidatorData) × (get_elem? validators j ≡ some v) × (v.bandersnatch ≡ key)

module _ (crypto : Crypto) (entropy : Bytes) (validators : List ValidatorData)
    (long : (blobs : List Bytes) → 4 ≤ length (crypto.hash_blobs blobs))
    (present : 0 < length validators) where
  fallback_loop-keys :
      (left i : ℕ)
      → (result : List Bytes) × (fallback_loop crypto entropy validators left i ≡ ok result)
        × (length result ≡ left)
        × All (IsKeyOf validators) result
  unfolding fallback_loop
  fallback_loop-keys zero i = ([], refl, refl, tt)
  fallback_loop-keys (suc left) i =
      let (rest, e, n, all_) = fallback_loop-keys left (suc i) in
      let bytes = crypto.hash_blobs (entropy ∷ le_bytes 4 i ∷ []) in
      let number = le_value (take 4 bytes) in
      let j = number % length validators in
      let (v, found) = get_elem?-some validators j (ground arith) in
      (
        v.bandersnatch ∷ rest,
        rw (read_u32-ok bytes (long (entropy ∷ le_bytes 4 i ∷ [])), found, e) refl,
        omega arith,
        ((j, v, found, refl), all_),
      )

  pub fallback_key_sequencer-keys :
      (spec : ChainSpec)
      → (result : List Bytes) × (fallback_key_sequencer crypto spec entropy validators ≡ ok result)
        × (length result ≡ spec.epoch_length)
        × All (IsKeyOf validators) result
  unfolding fallback_key_sequencer
  fallback_key_sequencer-keys spec =
      let (result, e, n, all_) = fallback_loop-keys spec.epoch_length 0 in
      let whole : (length result == spec.epoch_length) ≡ true = (==_iff _ _).1 n in
      (result, rw (e, whole) refl, n, all_)

module _ (spec : ChainSpec) (state : SafroleState) (slot : ℕ) where
  -- The next epoch begins, the contest of the last one was over, and its tickets are as many as an
  -- epoch has slots.
  abbrev pub is_contest_won : Bool
  is_contest_won =
      is_next_epoch spec state slot
      && (leb spec.contest_length (get_slot_phase_index spec state.timeslot)
          && length state.tickets_accumulator == spec.epoch_length)

module _ (crypto : Crypto) (spec : ChainSpec) (state : SafroleState) (slot : ℕ)
    (validators : List ValidatorData) (entropy : Bytes) where
  -- If hashes have four bytes or more and there is a validator, there is always a series: the
  -- reordered tickets if the next epoch begins after a contest that brought as many tickets as
  -- an epoch has slots, else the old series in the same epoch, and else a key of some validator
  -- for each slot of an epoch.
  pub get_slot_key_sequence-Series :
      ((blobs : List Bytes) → 4 ≤ length (crypto.hash_blobs blobs))
      → 0 < length validators
      → (series : SafroleSealingKeys) × (get_slot_key_sequence crypto spec state slot validators
            entropy
          ≡ ok series)
        × (((is_contest_won spec state slot ≡ true)
              × (series ≡ tickets (reordered_tickets state.tickets_accumulator)))
            ⊎ ((is_contest_won spec state slot ≡ false)
                × (((is_same_epoch spec state slot ≡ true) × (series ≡ state.sealing_key_series))
                    ⊎ ((is_same_epoch spec state slot ≡ false)
                        × ((result : List Bytes) × (series ≡ keys result)
                            × (length result ≡ spec.epoch_length)
                            × All (IsKeyOf validators) result)))))
  unfolding get_slot_key_sequence
  get_slot_key_sequence-Series long present = elim (Bool-cases (is_contest_won spec state slot)) [
    | inl won ↦
        let n : length state.tickets_accumulator ≡ spec.epoch_length =
          saturated (is_next_epoch spec state slot)
            (leb spec.contest_length (get_slot_phase_index spec state.timeslot)) _ _ won in
        (
          tickets (reordered_tickets state.tickets_accumulator),
          rw (won, outside_in_sequencer-full spec state.tickets_accumulator n) refl,
          inl (won, refl),
        )
    | inr other ↦ elim (Bool-cases (is_same_epoch spec state slot)) [
      | inl same ↦ (state.sealing_key_series, rw (other, same) refl, inr (other, inl (same, refl)))
      | inr different ↦
          let (result, e, n, all_) =
            fallback_key_sequencer-keys crypto entropy validators long present spec in
          (
            keys result,
            rw (other, different, e) refl,
            inr (other, inr (different, (result, refl, n, all_))),
          )
    ]
  ]
    where
      saturated : (a b : Bool) (m n : ℕ) → (a && (b && m == n)) ≡ true → m ≡ n
      saturated a b m n h = ground arith
