-- ===== src/Codec/Outcome.antt =====
-- A thrown error of packages/core/codec as a value, and sequencing that stops at it.
use typeberry.Base.{Bool, true, false, ◌≡◌, refl}

pub data CodecError : Type 0 where
  end_of_data not_a_boolean too_large_for_u32 nonzero_padding trailing_bytes : CodecError
  check_failed max_length_reached no_space unhandled_number : CodecError

pub data Outcome {ℓ} (A : Type ℓ) : Type ℓ where
  ok : A → Outcome A
  err : CodecError → Outcome A

infixl 5 ◌>>=◌ ◌>>◌
abbrev pub ◌>>=◌ {ℓ κ} : {A : Type ℓ} {B : Type κ} → Outcome A → (A → Outcome B) → Outcome B
ok a >>= f = f a
err e >>= f = err e

abbrev pub ◌>>◌ {ℓ} : {B : Type ℓ} → Outcome (Unit {0}) → Outcome B → Outcome B
m >> k = m >>= λ _. k

-- check`…`
abbrev pub check : Bool → Outcome (Unit {0})
check true = ok tt
check false = err check_failed

-- A chain that succeeds has a first step that succeeds.
pub bind-eq-ok {ℓ κ} :
    {A : Type ℓ} {B : Type κ} (m : Outcome A) (f : A → Outcome B) {b : B}
    → (m >>= f) ≡ ok b
    → (a : A) × (m ≡ ok a) × (f a ≡ ok b)
bind-eq-ok (ok a) f h = (a, refl, h)
bind-eq-ok (err e) f h = cc

pub ok-injective {ℓ} : {A : Type ℓ} {a b : A} → ok a ≡ ok b → a ≡ b
ok-injective h = cc
