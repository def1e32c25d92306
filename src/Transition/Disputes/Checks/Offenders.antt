-- ===== src/Transition/Disputes/Checks/Offenders.antt =====
-- Which culprits and faults pass.
use typeberry.Base.{
  ℕ, suc, ◌+◌, ◌≤◌, ◌≡◌, ◌↔◌, refl, arith, Bool, Bool-cases, true, false, not, List, [], ◌∷◌,
  length, All, get_elem?, get_elem?-some, inl, inr,
}
use typeberry.Transition.HashSet.{has}
use typeberry.Transition.Disputes.{
  ok, Culprit, Fault, DisputesExtrinsic, VerificationOutput, is_unique_sorted_by,
}
use typeberry.Transition.Disputes.Sorts.{
  Ascending, is_unique_sorted_by-Ascending, Ascending-is_unique_sorted_by,
}
use typeberry.Transition.Disputes.Checks.{
  OffenderSets, is_valid_at, culprits_loop, is_verdict_wrong, faults_loop, verify_culprits,
  verify_faults,
}
use typeberry.Transition.Disputes.Checks.Guards.{
  Returns, guard-ok, guard_not-ok, checked-ok, guard-Returns, checked-Returns, AllValid,
  AllValid-cons, AllValid-within, is_valid_at-get, get-is_valid_at,
}

module _ (sets : OffenderSets) where
  -- A validator that is not punished yet, for a report that this block judges bad.
  abbrev pub IsCulprit : Culprit → Type 0
  IsCulprit c =
      (has sets.punish_set c.key ≡ false)
      × (has sets.validator_keys c.key ≡ true)
      × (has sets.new_bad_set c.work_report_hash ≡ true)

  -- A validator that is not punished yet; if he judged the report valid, this block judges it bad.
  abbrev pub IsFault : Fault → Type 0
  IsFault f =
      (has sets.punish_set f.key ≡ false)
      × (has sets.validator_keys f.key ≡ true)
      × (f.was_considered_valid ≡ true
          → (has sets.new_good_set f.work_report_hash ≡ false)
            × (has sets.new_bad_set f.work_report_hash ≡ true))

  culprits_loop-ok :
      (results : List Bool) (i : ℕ) (culprits : List Culprit)
      → culprits_loop sets results i culprits ≡ ok tt
      → All IsCulprit culprits × AllValid results i (i + length culprits)
  unfolding culprits_loop
  culprits_loop-ok results i [] h = (tt, λ n a b. absurd (omega arith))
  culprits_loop-ok results i (c ∷ culprits) h =
      let rest = culprits_loop sets results (suc i) culprits in
      let (fresh, h1) = guard-ok (has sets.punish_set c.key) _ _ tt h in
      let (known, h2) = guard_not-ok (has sets.validator_keys c.key) _ _ tt h1 in
      let (bad_, h3) = guard_not-ok (has sets.new_bad_set c.work_report_hash) _ _ tt h2 in
      let (valid, h4) = guard_not-ok (is_valid_at results i) _ rest tt h3 in
      let (all_, signed) = culprits_loop-ok results (suc i) culprits h4 in
      (
        ((fresh, known, bad_), all_),
        AllValid-cons results i (suc i + length culprits) _ (omega arith)
            (is_valid_at-get results i valid) signed,
      )

  culprits_loop-All :
      (results : List Bool) (i : ℕ) (culprits : List Culprit)
      → All IsCulprit culprits
      → AllValid results i (i + length culprits)
      → culprits_loop sets results i culprits ≡ ok tt
  unfolding culprits_loop
  culprits_loop-All results i [] h s = refl
  culprits_loop-All results i (c ∷ culprits) ((fresh, known, bad_), h) s =
      rw (fresh, known, bad_, get-is_valid_at results i (s i (omega arith) (omega arith)))
        (culprits_loop-All results (suc i) culprits h
          (AllValid-within results i (i + suc (length culprits)) _ _ (omega arith) (omega arith) s))

  culprits_loop-Returns :
      (results : List Bool) (i : ℕ) (culprits : List Culprit)
      → Returns (culprits_loop sets results i culprits)
  unfolding culprits_loop
  culprits_loop-Returns results i [] = tt
  culprits_loop-Returns results i (c ∷ culprits) = guard-Returns (has sets.punish_set c.key) _ _ (
      guard-Returns (not (has sets.validator_keys c.key)) _ _ (
        guard-Returns (not (has sets.new_bad_set c.work_report_hash)) _ _ (
          guard-Returns (not (is_valid_at results i)) _ _
            (culprits_loop-Returns results (suc i) culprits))))

  right_verdict :
      (f : Fault)
      → is_verdict_wrong sets f ≡ false
      → f.was_considered_valid ≡ true
      → (has sets.new_good_set f.work_report_hash ≡ false)
        × (has sets.new_bad_set f.work_report_hash ≡ true)
  right_verdict f h e = elim (Bool-cases (has sets.new_good_set f.work_report_hash)) [
    | inl good ↦ absurd (let bad = rw (e, good) at h in cc)
    | inr fine ↦ elim (Bool-cases (has sets.new_bad_set f.work_report_hash)) [
      | inl bad_ ↦ (fine, bad_)
      | inr missing ↦ absurd (let bad = rw (e, fine, missing) at h in cc)
    ]
  ]

  verdict_right :
      (f : Fault)
      → (f.was_considered_valid ≡ true
          → (has sets.new_good_set f.work_report_hash ≡ false)
            × (has sets.new_bad_set f.work_report_hash ≡ true))
      → is_verdict_wrong sets f ≡ false
  verdict_right f h = elim (Bool-cases f.was_considered_valid) [
    | inl valid ↦ let (fine, bad_) = h valid in rw (valid, fine, bad_) refl
    | inr invalid ↦ rw (invalid) refl
  ]

  faults_loop-ok :
      (results : List Bool) (i : ℕ) (faults : List Fault)
      → faults_loop sets results i faults ≡ ok tt
      → All IsFault faults × AllValid results i (i + length faults)
  unfolding faults_loop
  faults_loop-ok results i [] h = (tt, λ n a b. absurd (omega arith))
  faults_loop-ok results i (f ∷ faults) h =
      let rest = faults_loop sets results (suc i) faults in
      let (fresh, h1) = guard-ok (has sets.punish_set f.key) _ _ tt h in
      let (known, h2) = guard_not-ok (has sets.validator_keys f.key) _ _ tt h1 in
      let (right, h3) = guard-ok (is_verdict_wrong sets f) _ _ tt h2 in
      let (valid, h4) = checked-ok (get_elem? results i) rest tt h3 in
      let (all_, signed) = faults_loop-ok results (suc i) faults h4 in
      (
        ((fresh, known, right_verdict f right), all_),
        AllValid-cons results i (suc i + length faults) _ (omega arith) valid signed,
      )

  faults_loop-All :
      (results : List Bool) (i : ℕ) (faults : List Fault)
      → All IsFault faults
      → AllValid results i (i + length faults)
      → faults_loop sets results i faults ≡ ok tt
  unfolding faults_loop
  faults_loop-All results i [] h s = refl
  faults_loop-All results i (f ∷ faults) ((fresh, known, right), h) s =
      let valid = s i (omega arith) (omega arith) in
      rw (fresh, known, verdict_right f right, valid)
        (faults_loop-All results (suc i) faults h
          (AllValid-within results i (i + suc (length faults)) _ _ (omega arith) (omega arith) s))

  faults_loop-Returns :
      (results : List Bool) (i : ℕ) (faults : List Fault)
      → i + length faults ≤ length results
      → Returns (faults_loop sets results i faults)
  unfolding faults_loop
  faults_loop-Returns results i [] l = tt
  faults_loop-Returns results i (f ∷ faults) l =
      let (b, e) = get_elem?-some results i (omega arith) in
      guard-Returns (has sets.punish_set f.key) _ _ (
        guard-Returns (not (has sets.validator_keys f.key)) _ _ (
          guard-Returns (is_verdict_wrong sets f) _ _ (
            rw (e)
              (checked-Returns b _ (faults_loop-Returns results (suc i) faults (omega arith))))))

  module _ (disputes : DisputesExtrinsic) (output : VerificationOutput) where
    -- Culprits pass exactly if they ascend by their keys, each is one, and its signature is good.
    pub verify_culprits_iff : (verify_culprits disputes sets output ≡ ok tt) ↔ (
        Ascending (λ (c : Culprit). c.key) disputes.culprits
        × All IsCulprit disputes.culprits
        × AllValid output.culprits 0 (length disputes.culprits))
    unfolding verify_culprits
    verify_culprits_iff = (
      (λ h.
          let (sorted, rest) = guard_not-ok (is_unique_sorted_by _ disputes.culprits) _ _ tt h in
          let (all_, signed) = culprits_loop-ok output.culprits 0 disputes.culprits rest in
          (
            is_unique_sorted_by-Ascending _ disputes.culprits sorted,
            all_,
            AllValid-within output.culprits 0 (0 + length disputes.culprits) _ _ (omega arith)
                (omega arith) signed,
          )),
      λ (s, h, v). rw (Ascending-is_unique_sorted_by _ disputes.culprits s) (
          culprits_loop-All output.culprits 0 disputes.culprits h (
            AllValid-within output.culprits 0 (length disputes.culprits) _ _ (omega arith)
              (omega arith) v)),
    )

    -- So do faults.
    pub verify_faults_iff : (verify_faults disputes sets output ≡ ok tt) ↔ (
        Ascending (λ (f : Fault). f.key) disputes.faults
        × All IsFault disputes.faults
        × AllValid output.faults 0 (length disputes.faults))
    unfolding verify_faults
    verify_faults_iff = (
      (λ h.
          let (sorted, rest) = guard_not-ok (is_unique_sorted_by _ disputes.faults) _ _ tt h in
          let (all_, signed) = faults_loop-ok output.faults 0 disputes.faults rest in
          (
            is_unique_sorted_by-Ascending _ disputes.faults sorted,
            all_,
            AllValid-within output.faults 0 (0 + length disputes.faults) _ _ (omega arith)
                (omega arith) signed,
          )),
      λ (s, h, v). rw (Ascending-is_unique_sorted_by _ disputes.faults s) (
          faults_loop-All output.faults 0 disputes.faults h (
            AllValid-within output.faults 0 (length disputes.faults) _ _ (omega arith) (omega arith)
              v)),
    )

    pub verify_culprits-Returns : Returns (verify_culprits disputes sets output)
    unfolding verify_culprits
    verify_culprits-Returns =
        guard-Returns (not (is_unique_sorted_by _ disputes.culprits)) _ _
          (culprits_loop-Returns output.culprits 0 disputes.culprits)

    pub verify_faults-Returns :
        length disputes.faults ≤ length output.faults → Returns (verify_faults disputes sets output)
    unfolding verify_faults
    verify_faults-Returns l =
        guard-Returns (not (is_unique_sorted_by _ disputes.faults)) _ _
          (faults_loop-Returns output.faults 0 disputes.faults (omega arith))
