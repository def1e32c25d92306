-- ===== src/Transition/Disputes/Checks/Guards.antt =====
-- A check that ends well has passed each of its guards.
use typeberry.Base.{
  ℕ, zero, suc, ◌≤◌, ◌<◌, ltb, ltb→lt, ltb→ge, ◌==◌, ==_iff, Bool-cases, inl, inr, ◌≡◌, refl, arith,
  Bool, true, false, not, List, [], ◌∷◌, Option, none, some, get_elem?, if◌then◌else◌,
}
use typeberry.Transition.Disputes.{◌>>=◌, DisputesErrorCode, Outcome, ok, error, thrown}
use typeberry.Transition.Disputes.Checks.{is_valid_at, checked}

module _ {A : Type 0} where
  abbrev pub IsOk : Outcome A → Type 0
  IsOk o = (a : A) × (o ≡ ok a)

  -- It does not end in an exception.
  abbrev pub Returns : Outcome A → Type 0
  Returns (ok a) = Unit {0}
  Returns (error e) = Unit {0}
  Returns thrown = ⊥

  pub guard-ok :
      (t : Bool) (e : DisputesErrorCode) (rest : Outcome A) (a : A)
      → (if t then error e else rest) ≡ ok a
      → (t ≡ false) × (rest ≡ ok a)
  guard-ok true e rest a h = absurd (cc)
  guard-ok false e rest a h = (refl, h)

  pub guard_not-ok :
      (t : Bool) (e : DisputesErrorCode) (rest : Outcome A) (a : A)
      → (if not t then error e else rest) ≡ ok a
      → (t ≡ true) × (rest ≡ ok a)
  guard_not-ok true e rest a h = (refl, h)
  guard_not-ok false e rest a h = absurd (cc)

  pub checked-ok :
      (o : Option Bool) (rest : Outcome A) (a : A)
      → checked o rest ≡ ok a
      → (o ≡ some true) × (rest ≡ ok a)
  checked-ok none rest a h = absurd (cc)
  checked-ok (some true) rest a h = (refl, h)
  checked-ok (some false) rest a h = absurd (cc)

  pub if-Returns :
      (t : Bool) (m n : Outcome A) → Returns m → Returns n → Returns (if t then m else n)
  if-Returns true m n r q = r
  if-Returns false m n r q = q

  pub guard-Returns :
      (t : Bool) (e : DisputesErrorCode) (rest : Outcome A)
      → Returns rest
      → Returns (if t then error e else rest)
  guard-Returns true e rest r = tt
  guard-Returns false e rest r = r

  pub checked-Returns :
      (b : Bool) (rest : Outcome A) → Returns rest → Returns (checked (some b) rest)
  checked-Returns true rest r = r
  checked-Returns false rest r = tt

-- A chain that ends well has a first step that does.
pub bind-eq-ok :
    {A B : Type 0} (m : Outcome A) (f : A → Outcome B) {b : B}
    → (m >>= f) ≡ ok b
    → (a : A) × (m ≡ ok a) × (f a ≡ ok b)
bind-eq-ok (ok a) f h = (a, refl, h)
bind-eq-ok (error e) f h = absurd (cc)
bind-eq-ok thrown f h = absurd (cc)

pub bind-Returns :
    {A B : Type 0} (m : Outcome A) (f : A → Outcome B)
    → Returns m
    → ((a : A) → m ≡ ok a → Returns (f a))
    → Returns (m >>= f)
bind-Returns (ok a) f r k = k a refl
bind-Returns (error e) f r k = tt
bind-Returns thrown f r k = r

-- The results from `lo` on and before `hi` are all good.
abbrev pub AllValid : List Bool → ℕ → ℕ → Type 0
AllValid results lo hi = (k : ℕ) → lo ≤ k → k < hi → get_elem? results k ≡ some true

pub AllValid-cons :
    (results : List Bool) (lo hi end : ℕ)
    → end ≤ hi
    → get_elem? results lo ≡ some true
    → AllValid results (suc lo) hi
    → AllValid results lo end
AllValid-cons results lo hi end l v h k a b = elim (Bool-cases (k == lo)) [
  | inl same ↦ let e = (==_iff k lo).0 same in rw (e) v
  | inr other ↦ h k (ground arith) (omega arith)
]

pub AllValid-within :
    (results : List Bool) (lo hi from end : ℕ)
    → lo ≤ from
    → end ≤ hi
    → AllValid results lo hi
    → AllValid results from end
AllValid-within results lo hi from end l m h k a b = h k (omega arith) (omega arith)

pub AllValid-join :
    (results : List Bool) (lo mid hi : ℕ)
    → AllValid results lo mid
    → AllValid results mid hi
    → AllValid results lo hi
AllValid-join results lo mid hi h g k a b = elim (Bool-cases (ltb k mid)) [
  | inl before ↦ h k a (ltb→lt k mid before)
  | inr after ↦ g k (ltb→ge k mid after) b
]

pub is_valid_at-get :
    (results : List Bool) (i : ℕ) → is_valid_at results i ≡ true → get_elem? results i ≡ some true
is_valid_at-get [] i h = absurd (cc)
is_valid_at-get (b ∷ results) zero h = rw (h) refl
is_valid_at-get (b ∷ results) (suc i) h = is_valid_at-get results i h

pub get-is_valid_at :
    (results : List Bool) (i : ℕ) → get_elem? results i ≡ some true → is_valid_at results i ≡ true
get-is_valid_at [] i h = absurd (cc)
get-is_valid_at (b ∷ results) zero h = cc
get-is_valid_at (b ∷ results) (suc i) h = get-is_valid_at results i h
