-- ===== src/Tests/Assurances.antt =====
-- Runs of the assurances.
use typeberry.Base.{ℕ, ◌++◌, ◌≡◌, refl, arith, List, [], ◌∷◌, map, Option, none, some}
use typeberry.Collections.BlobKeys.{is_equal_to}
use typeberry.Transition.Assurances.{
  Bytes, jam_available, signing_payload, Assurance, AvailabilityAssignment, Crypto, ChainSpec,
  AssurancesInput, ok, error, no_report_pending, indices_of_set_bits, indices_loop, add_assurances,
  checks_loop, core_turn, cores_loop, clear_cores, signature_inputs, verify_signatures, transition,
}
use typeberry.Transition.Assurances.Accepted.{
  IsAccepted, expected, transition-expected, transition-IsAccepted,
}

-- A signature is the key with the message behind it, a hash is what was hashed.
abbrev toy : Crypto
toy = record {
  verify = λ inputs. map (λ i. is_equal_to i.signature (i.key ++ i.message)) inputs;
  hash_bytes = λ bytes. bytes;
}

abbrev spec : ChainSpec
spec = record { cores_count = 3; validators_super_majority = 3 }

abbrev keys : List Bytes
keys = (100 ∷ []) ∷ (200 ∷ []) ∷ (220 ∷ []) ∷ (240 ∷ []) ∷ []

abbrev assurance : ℕ → ℕ → ℕ → Assurance
assurance index bits key = record {
  anchor = 50 ∷ [];
  bitfield = record { raw = bits ∷ []; bit_length = 3 };
  validator_index = index;
  signature = key ∷ (jam_available ++ (50 ∷ bits ∷ []));
}

abbrev pending : ℕ → ℕ → Option (AvailabilityAssignment ℕ)
pending report timeout = some (record { work_report = report; timeout = timeout })

-- Three validators have the report of core 0, one that of core 2; the report of core 1 is late.
abbrev input : AssurancesInput ℕ
input = record {
  assurances = assurance 0 1 100 ∷ assurance 1 1 200 ∷ assurance 3 5 240 ∷ [];
  slot = 8;
  parent_hash = 50 ∷ [];
  disputes_avail_assignment = pending 7 100 ∷ pending 8 3 ∷ pending 9 4 ∷ [];
}

run :
    transition toy spec keys input
    ≡ ok (record {
      available_reports = 7 ∷ [];
      availability_assignment = none ∷ none ∷ pending 9 4 ∷ [];
    })
unfolding transition checks_loop indices_of_set_bits indices_loop add_assurances cores_loop
    core_turn clear_cores signature_inputs verify_signatures signing_payload is_equal_to
run = refl

-- No report is pending on core 2.
run_idle :
    transition toy spec keys (record {
      assurances = input.assurances;
      slot = 8;
      parent_hash = 50 ∷ [];
      disputes_avail_assignment = pending 7 100 ∷ pending 8 3 ∷ none ∷ [];
    })
    ≡ error no_report_pending
unfolding transition checks_loop indices_of_set_bits indices_loop add_assurances cores_loop
    core_turn clear_cores signature_inputs verify_signatures signing_payload is_equal_to
run_idle = refl

transition-IsAccepted_example : IsAccepted toy spec keys input
transition-IsAccepted_example =
    transition-IsAccepted toy spec keys input
      (record {
        available_reports = 7 ∷ [];
        availability_assignment = none ∷ none ∷ pending 9 4 ∷ [];
      })
      refl run

accepted : IsAccepted toy spec keys input
unfolding signing_payload is_equal_to
accepted = (
  (refl, omega arith, refl, (refl, omega arith, refl, (refl, omega arith, refl, tt))),
  tt,
  (
    _,
    (100 ∷ [], _, refl, (200 ∷ [], _, refl, (240 ∷ [], _, refl, refl, refl), refl), refl),
    (refl, (refl, (refl, tt))),
  ),
)

transition-expected_example : transition toy spec keys input ≡ ok (expected toy spec keys input)
transition-expected_example = transition-expected toy spec keys input refl accepted
