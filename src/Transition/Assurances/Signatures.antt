-- ===== src/Transition/Assurances/Signatures.antt =====
-- The signatures that the transition verifies.
use typeberry.Base.{
  ◌≡◌, refl, sym, ap, true, false, Bool, Bool-cases, List, [], ◌∷◌, get_elem?, Option-cases, some,
  inl, inr, All,
}
use typeberry.Transition.Assurances.{
  Bytes, signing_payload, Assurance, SignatureInput, Crypto, ok, bind-eq-ok, all_true,
  signature_inputs, verify_signatures,
}

all_true_iff : (bs : List Bool) → All (λ b. b ≡ true) bs → all_true bs ≡ true
all_true_iff [] h = refl
all_true_iff (b ∷ bs) h = rw (h.0) (all_true_iff bs h.1)

All-all_true : (bs : List Bool) → all_true bs ≡ true → All (λ b. b ≡ true) bs
All-all_true [] h = tt
All-all_true (true ∷ bs) h = (refl, All-all_true bs h)
All-all_true (false ∷ bs) h = cc

module _ (crypto : Crypto) (keys : List Bytes) where
  -- Each assurance is signed by a known validator: the inputs are its signature, its key, and the
  -- payload of its anchor and bit field.
  abbrev pub Signs : List (Assurance) → List (SignatureInput) → Type 0
  Signs [] inputs = inputs ≡ []
  Signs (a ∷ assurances) inputs =
      (key : Bytes) × (rest : List (SignatureInput)) × (get_elem? keys a.validator_index ≡ some key)
      × Signs assurances rest
      × (inputs ≡ (
          record {
            signature = a.signature;
            key = key;
            message = signing_payload crypto a.anchor a.bitfield;
          }
          ∷ rest))

  signature_inputs-Signs :
      (assurances : List (Assurance)) (inputs : List (SignatureInput))
      → Signs assurances inputs
      → signature_inputs crypto keys assurances ≡ ok inputs
  unfolding signature_inputs
  signature_inputs-Signs [] inputs s = ap ok (sym s)
  signature_inputs-Signs (a ∷ assurances) inputs (key, rest, k, s, e) =
      rw (k, signature_inputs-Signs assurances rest s, e) refl

  Signs-signature_inputs :
      (assurances : List (Assurance)) (inputs : List (SignatureInput))
      → signature_inputs crypto keys assurances ≡ ok inputs
      → Signs assurances inputs
  unfolding signature_inputs
  Signs-signature_inputs [] inputs h = cc
  Signs-signature_inputs (a ∷ assurances) inputs h =
      elim (Option-cases (get_elem? keys a.validator_index)) [
        | inl unknown ↦ (let bad = rw (unknown) at h in cc)
        | inr (key, known) ↦
            let found = rw (known) at h in
            let (rest, r, q) = bind-eq-ok (signature_inputs crypto keys assurances) _ found in
            (key, rest, known, Signs-signature_inputs assurances rest r, cc)
      ]

  abbrev pub Verified : List (Assurance) → Type 0
  Verified assurances =
      (inputs : List (SignatureInput)) × Signs assurances inputs
      × All (λ b. b ≡ true) (crypto.verify inputs)

  pub verify_signatures-Verified :
      (assurances : List (Assurance))
      → Verified assurances
      → verify_signatures crypto keys assurances ≡ ok tt
  unfolding verify_signatures
  verify_signatures-Verified assurances (inputs, s, v) =
      rw (signature_inputs-Signs assurances inputs s, all_true_iff (crypto.verify inputs) v) refl

  pub Verified-verify_signatures :
      (assurances : List (Assurance))
      → verify_signatures crypto keys assurances ≡ ok tt
      → Verified assurances
  unfolding verify_signatures
  Verified-verify_signatures assurances h =
      let (inputs, s, q) = bind-eq-ok (signature_inputs crypto keys assurances) _ h in
      elim (Bool-cases (all_true (crypto.verify inputs))) [
        | inl valid ↦ (
          inputs,
          Signs-signature_inputs assurances inputs s,
          All-all_true (crypto.verify inputs) valid,
        )
        | inr invalid ↦ (let bad = rw (invalid) at q in cc)
      ]
