-- ===== src/Transition/Assurances.antt =====
-- packages/jam/transition/assurances.ts: what the validators hold of the pending work reports.
pub mod Votes
pub mod Checked
pub mod Cores
pub mod Signatures
pub mod Accepted
use typeberry.Base.{
  ◌≡◌, refl, ℕ, zero, suc, ◌+◌, ◌*◌, ◌/◌, ◌-◌, ◌%◌, ◌^◌, Bool, true, false, ltb, leb, ◌==◌, ◌&&◌,
  not, List, [], ◌∷◌, ◌++◌, length, get_or, get_elem?, set, replicate, Option, none, some,
  if◌then◌else◌,
}
use typeberry.Codec.Decoder.{BitVec}
use typeberry.Collections.BlobKeys.{is_equal_to}

pub data AssurancesError : Type 0 where
  invalid_anchor invalid_order invalid_signature no_report_pending : AssurancesError
  invalid_validator_index : AssurancesError

-- `Result`, or an exception: of a `check`, or of a read past the end of an array.
pub data Outcome (A : Type 0) : Type 0 where
  ok : A → Outcome A
  error : AssurancesError → Outcome A
  thrown : Outcome A

infixl 5 ◌>>=◌
abbrev pub ◌>>=◌ : {A B : Type 0} → Outcome A → (A → Outcome B) → Outcome B
ok a >>= f = f a
error e >>= f = error e
thrown >>= f = thrown

-- A chain that ends well has a first step that does.
pub bind-eq-ok :
    {A B : Type 0} (m : Outcome A) (f : A → Outcome B) {b : B}
    → (m >>= f) ≡ ok b
    → (a : A) × (m ≡ ok a) × (f a ≡ ok b)
bind-eq-ok (ok a) f h = (a, refl, h)
bind-eq-ok (error e) f h = cc
bind-eq-ok thrown f h = cc

-- packages/core/bytes/bitvec.ts: a bit vector has the bytes of its length and no others.
-- `(this.data[b >> 3] >> (b - (b >> 3 << 3))) & 1`, with 0 for a byte that is not there.
abbrev pub bit_of : List ℕ → ℕ → ℕ
bit_of bytes b = (get_or bytes (b / 8) 0 / 2 ^ (b - b / 8 * 8)) % 2

-- `left` indices from `b` on.
unfoldable pub indices_loop : ℕ → ℕ → List ℕ → List ℕ
indices_loop zero b bytes = []
indices_loop (suc left) b bytes =
    let rest = indices_loop left (suc b) bytes in if bit_of bytes b == 1 then b ∷ rest else rest

unfoldable pub indices_of_set_bits : BitVec → List ℕ
indices_of_set_bits bits = indices_loop bits.bit_length 0 bits.raw

-- Reports are of a type `R`.
abbrev pub Bytes : Type 0
Bytes = List ℕ

-- packages/jam/block/assurances.ts
pub record Assurance : Type 0 where
  pub anchor : Bytes
  pub bitfield : BitVec
  pub validator_index : ℕ
  pub signature : Bytes

-- packages/jam/state/assurances.ts
pub record AvailabilityAssignment (R : Type 0) : Type 0 where
  pub work_report : R
  pub timeout : ℕ

pub record SignatureInput : Type 0 where
  pub signature : Bytes
  pub key : Bytes
  pub message : Bytes

-- The native code that the transition calls: `ed25519.verify`, and `hashBytes` of Blake2b.
pub record Crypto : Type 0 where
  pub verify : List SignatureInput → List Bool
  pub hash_bytes : Bytes → Bytes

-- The characters of "jam_available".
abbrev pub jam_available : Bytes
jam_available = 106 ∷ 97 ∷ 109 ∷ 95 ∷ 97 ∷ 118 ∷ 97 ∷ 105 ∷ 108 ∷ 97 ∷ 98 ∷ 108 ∷ 101 ∷ []

-- A hash and a bit vector of known length are encoded as their bytes.
unfoldable pub signing_payload : Crypto → Bytes → BitVec → Bytes
signing_payload crypto anchor bitfield = jam_available ++ crypto.hash_bytes (anchor ++ bitfield.raw)

pub record ChainSpec : Type 0 where
  pub cores_count : ℕ
  pub validators_super_majority : ℕ

pub record AssurancesInput (R : Type 0) : Type 0 where
  pub assurances : List (Assurance)
  pub slot : ℕ
  pub parent_hash : Bytes
  pub disputes_avail_assignment : List (Option (AvailabilityAssignment R))

abbrev pub report_timeout_grace_period : ℕ
report_timeout_grace_period = 5

-- `perCoreAssurances[idx] += 1` for each index.
unfoldable pub add_assurances : List ℕ → List ℕ → List ℕ
add_assurances [] counts = counts
add_assurances (idx ∷ set_bits) counts =
    add_assurances set_bits (set counts idx (suc (get_or counts idx 0)))

module _ (cores_count : ℕ) (parent_hash : Bytes) where
  -- The first loop of `transition`. `next` is one more than `prevValidatorIndex`.
  unfoldable pub checks_loop : ℕ → List ℕ → List (Assurance) → Outcome (List ℕ)
  checks_loop next counts [] = ok counts
  checks_loop next counts (a ∷ assurances) =
      let added = add_assurances (indices_of_set_bits a.bitfield) counts in
      let rest = checks_loop (suc a.validator_index) added assurances in
      if not (is_equal_to a.anchor parent_hash)
      then error invalid_anchor
      else if ltb a.validator_index next
      then error invalid_order
      else if not (a.bitfield.bit_length == cores_count)
      then thrown
      else rest

pub record Cleared (R : Type 0) : Type 0 where
  pub available_reports : List R
  pub cores_to_clear : List ℕ

abbrev pub push_all : {R : Type 0} → Cleared R → Outcome (Cleared R) → Outcome (Cleared R)
push_all turn rest = rest >>= λ cleared. ok (record {
  available_reports = turn.available_reports ++ cleared.available_reports;
  cores_to_clear = turn.cores_to_clear ++ cleared.cores_to_clear;
})

module _ {R : Type 0} (slot super_majority : ℕ) where
  -- What the second loop pushes for one core.
  unfoldable pub core_turn :
      ℕ → ℕ → Option (Option (AvailabilityAssignment R)) → Outcome (Cleared R)
  core_turn c assurances none = thrown
  core_turn c assurances (some none) =
      if ltb 0 assurances
      then error no_report_pending
      else ok (record { available_reports = []; cores_to_clear = [] })
  core_turn c assurances (some (some report)) =
      let timed_out =
        if leb (report.timeout + report_timeout_grace_period) slot then c ∷ [] else [] in
      if leb super_majority assurances
      then ok (record {
        available_reports = report.work_report ∷ [];
        cores_to_clear = timed_out ++ (c ∷ []);
      })
      else ok (record { available_reports = []; cores_to_clear = timed_out })

  -- `left` cores from `c` on.
  unfoldable pub cores_loop :
      ℕ → ℕ → List ℕ → List (Option (AvailabilityAssignment R)) → Outcome (Cleared R)
  cores_loop zero c counts assignment = ok (record { available_reports = []; cores_to_clear = [] })
  cores_loop (suc left) c counts assignment =
      let rest = cores_loop left (suc c) counts assignment in
      core_turn c (get_or counts c 0) (get_elem? assignment c) >>= λ turn. push_all turn rest

module _ {R : Type 0} where
  unfoldable pub clear_cores :
      List ℕ → List (Option (AvailabilityAssignment R)) → List (Option (AvailabilityAssignment R))
  clear_cores [] assignment = assignment
  clear_cores (c ∷ cores) assignment = clear_cores cores (set assignment c none)

abbrev with_key : {B C : Type 0} → Option B → (B → Outcome C) → Outcome C
with_key none f = error invalid_validator_index
with_key (some key) f = f key

abbrev all_true : List Bool → Bool
all_true [] = true
all_true (b ∷ bs) = b && all_true bs

module _ (crypto : Crypto) (keys : List Bytes) where
  unfoldable pub signature_inputs : List (Assurance) → Outcome (List (SignatureInput))
  signature_inputs [] = ok []
  signature_inputs (a ∷ assurances) =
      let rest = signature_inputs assurances in
      with_key (get_elem? keys a.validator_index) (λ key. rest >>= λ inputs. ok (
        record {
          signature = a.signature;
          key = key;
          message = signing_payload crypto a.anchor a.bitfield;
        }
        ∷ inputs))

  unfoldable pub verify_signatures : List (Assurance) → Outcome (Unit {0})
  verify_signatures assurances = signature_inputs assurances >>= λ inputs.
      if all_true (crypto.verify inputs) then ok tt else error invalid_signature

pub record AssurancesUpdate (R : Type 0) : Type 0 where
  pub available_reports : List R
  pub availability_assignment : List (Option (AvailabilityAssignment R))

-- The signatures' verification is started first and awaited last; it has no effect in between.
unfoldable pub transition :
    {R : Type 0}
    → Crypto
    → ChainSpec
    → List Bytes
    → AssurancesInput R
    → Outcome (AssurancesUpdate R)
transition crypto spec keys input =
    let assignment = input.disputes_avail_assignment in
    checks_loop spec.cores_count input.parent_hash 0 (replicate spec.cores_count 0) input.assurances
    >>= λ counts.
        cores_loop input.slot spec.validators_super_majority spec.cores_count 0 counts assignment
        >>= λ cleared. verify_signatures crypto keys input.assurances >>= λ _. ok (record {
          available_reports = cleared.available_reports;
          availability_assignment = clear_cores cleared.cores_to_clear assignment;
        })
