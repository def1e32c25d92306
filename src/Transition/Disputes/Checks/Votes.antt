-- ===== src/Transition/Disputes/Checks/Votes.antt =====
-- Which verdicts pass.
use typeberry.Base.{
  ℕ, suc, ◌+◌, ◌≤◌, ◌<◌, ◌≡◌, ◌↔◌, ◌⊎◌, refl, arith, Bool, Bool-cases, false, not, List, [], ◌∷◌,
  length, All, Option-cases, get_elem?, get_elem?-some, get_elem?-lt, inl, inr,
}
use typeberry.Transition.Disputes.{
  ok, Judgement, Verdict, DisputesExtrinsic, VerificationOutput, ValidatorData, DisputesState,
  ChainSpec, is_unique_sorted_by, is_unique_sorted_by_index,
}
use typeberry.Transition.Disputes.Sorts.{
  Ascending, is_unique_sorted_by-Ascending, Ascending-is_unique_sorted_by, index_of,
  is_unique_sorted_by_index-Ascending, Ascending-is_unique_sorted_by_index,
}
use typeberry.Transition.Disputes.Checks.{
  current_epoch, validators_of, judgements_loop, is_bad_age, verdicts_loop, some_unsorted,
  verify_verdicts,
}
use typeberry.Transition.Disputes.Checks.Guards.{
  Returns, guard-ok, guard_not-ok, checked-ok, guard-Returns, checked-Returns, bind-eq-ok,
  bind-Returns, AllValid, AllValid-cons, AllValid-within, AllValid-join,
}

-- The votes are of validators that there are.
abbrev pub AreKnown : List ValidatorData → List Judgement → Type 0
AreKnown k votes = All (λ j. j.index < length k) votes

module _ (k : List ValidatorData) (results : List Bool) where
  judgements_loop-ok :
      (i m : ℕ) (votes : List Judgement)
      → judgements_loop k results i votes ≡ ok m
      → (m ≡ i + length votes) × AreKnown k votes × AllValid results i m
  unfolding judgements_loop
  judgements_loop-ok i m [] h =
      let e : i ≡ m = cc in (omega arith, tt, λ n a b. absurd (omega arith))
  judgements_loop-ok i m (j ∷ votes) h = elim (Option-cases (get_elem? k j.index)) [
    | inl missing ↦ absurd (let bad = rw (judgements_loop, missing) at h in cc)
    | inr (validator, e) ↦
        let (valid, h1) =
          checked-ok (get_elem? results i) (judgements_loop k results (suc i) votes) m
            (rw (judgements_loop, e) at h) in
        let (n, known, signed) = judgements_loop-ok (suc i) m votes h1 in
        (
          omega arith,
          (get_elem?-lt k j.index validator e, known),
          AllValid-cons results i m m (omega arith) valid signed,
        )
  ]

  judgements_loop-all :
      (i m : ℕ) (votes : List Judgement)
      → m ≡ i + length votes
      → AreKnown k votes
      → AllValid results i m
      → judgements_loop k results i votes ≡ ok m
  unfolding judgements_loop
  judgements_loop-all i m [] n h s = let e : i ≡ m = omega arith in rw (e) refl
  judgements_loop-all i m (j ∷ votes) n h s =
      let (validator, e) = get_elem?-some k j.index h.0 in
      let valid = s i (omega arith) (omega arith) in
      rw (judgements_loop, e, valid)
        (judgements_loop-all (suc i) m votes (omega arith) h.1
          (AllValid-within results i m (suc i) m (omega arith) (omega arith) s))

  judgements_loop-Returns :
      (i : ℕ) (votes : List Judgement)
      → i + length votes ≤ length results
      → Returns (judgements_loop k results i votes)
  unfolding judgements_loop
  judgements_loop-Returns i [] l = tt
  judgements_loop-Returns i (j ∷ votes) l = elim (Option-cases (get_elem? k j.index)) [
    | inl missing ↦ rw (judgements_loop, missing) tt
    | inr (validator, e) ↦
        let (b, answer) = get_elem?-some results i (omega arith) in
        rw (judgements_loop, e, answer)
          (checked-Returns b _ (judgements_loop-Returns (suc i) votes (omega arith)))
  ]

abbrev pub total_votes : List Verdict → ℕ
total_votes [] = 0
total_votes (v ∷ verdicts) = length v.votes + total_votes verdicts

module _ (spec : ChainSpec) (state : DisputesState) where
  -- A verdict of this epoch or the one before, by validators that there are.
  abbrev pub IsTimely : Verdict → Type 0
  IsTimely v =
      ((v.votes_epoch ≡ current_epoch spec state) ⊎ (suc v.votes_epoch ≡ current_epoch spec state))
      × AreKnown (validators_of spec state v.votes_epoch) v.votes

  good_age : (e current : ℕ) → is_bad_age e current ≡ false → (e ≡ current) ⊎ (suc e ≡ current)
  good_age e current h = ground arith

  age_good : (e current : ℕ) → (e ≡ current) ⊎ (suc e ≡ current) → is_bad_age e current ≡ false
  age_good e current (inl h) = ground arith
  age_good e current (inr h) = ground arith

  verdicts_loop-ok :
      (results : List Bool) (i : ℕ) (verdicts : List Verdict)
      → verdicts_loop spec state results i verdicts ≡ ok tt
      → All IsTimely verdicts × AllValid results i (i + total_votes verdicts)
  unfolding verdicts_loop
  verdicts_loop-ok results i [] h = (tt, λ n a b. absurd (omega arith))
  verdicts_loop-ok results i (v ∷ verdicts) h =
      let validators = validators_of spec state v.votes_epoch in
      let (age, h1) = guard-ok (is_bad_age v.votes_epoch (current_epoch spec state)) _ _ tt h in
      let (m, first, h2) = bind-eq-ok (judgements_loop validators results i v.votes) _ h1 in
      let (n, known, signed) = judgements_loop-ok validators results i m v.votes first in
      let (all_, rest) = verdicts_loop-ok results m verdicts h2 in
      (
        ((good_age v.votes_epoch _ age, known), all_),
        AllValid-join results i m _ signed (
            AllValid-within results m (m + total_votes verdicts) _ _ (omega arith) (omega arith)
              rest),
      )

  verdicts_loop-All :
      (results : List Bool) (i : ℕ) (verdicts : List Verdict)
      → All IsTimely verdicts
      → AllValid results i (i + total_votes verdicts)
      → verdicts_loop spec state results i verdicts ≡ ok tt
  unfolding verdicts_loop
  verdicts_loop-All results i [] h s = refl
  verdicts_loop-All results i (v ∷ verdicts) ((age, known), h) s =
      let validators = validators_of spec state v.votes_epoch in
      let end = i + total_votes (v ∷ verdicts) in
      let first =
        judgements_loop-all validators results i (i + length v.votes) v.votes refl known
          (AllValid-within results i end _ _ (omega arith) (omega arith) s) in
      rw (age_good v.votes_epoch (current_epoch spec state) age, first)
        (verdicts_loop-All results (i + length v.votes) verdicts h
          (AllValid-within results i end _ _ (omega arith) (omega arith) s))

  verdicts_loop-Returns :
      (results : List Bool) (i : ℕ) (verdicts : List Verdict)
      → i + total_votes verdicts ≤ length results
      → Returns (verdicts_loop spec state results i verdicts)
  unfolding verdicts_loop
  verdicts_loop-Returns results i [] l = tt
  verdicts_loop-Returns results i (v ∷ verdicts) l =
      let validators = validators_of spec state v.votes_epoch in
      guard-Returns (is_bad_age v.votes_epoch (current_epoch spec state)) _ _ (
        bind-Returns (judgements_loop validators results i v.votes) _
          (judgements_loop-Returns validators results i v.votes (omega arith))
          (λ m e.
            let (n, _, _) = judgements_loop-ok validators results i m v.votes e in
            verdicts_loop-Returns results m verdicts (omega arith)))

  sorted_votes :
      (verdicts : List Verdict)
      → some_unsorted verdicts ≡ false
      → All (λ v. Ascending index_of v.votes) verdicts
  sorted_votes [] h = tt
  sorted_votes (v ∷ verdicts) h = elim (Bool-cases (is_unique_sorted_by_index v.votes)) [
    | inl sorted ↦ (
      is_unique_sorted_by_index-Ascending v.votes sorted,
      sorted_votes verdicts (rw (sorted) at h),
    )
    | inr other ↦ absurd (let bad = rw (other) at h in cc)
  ]

  votes_sorted :
      (verdicts : List Verdict)
      → All (λ v. Ascending index_of v.votes) verdicts
      → some_unsorted verdicts ≡ false
  votes_sorted [] h = refl
  votes_sorted (v ∷ verdicts) h =
      rw (Ascending-is_unique_sorted_by_index v.votes h.0) (votes_sorted verdicts h.1)

  module _ (disputes : DisputesExtrinsic) (output : VerificationOutput) where
    -- Verdicts pass exactly if they ascend by their reports, the votes of each by their validators,
    -- each is timely and by validators that there are, and all signatures are good.
    pub verify_verdicts_iff : (verify_verdicts spec state disputes output ≡ ok tt) ↔ (
        Ascending (λ (v : Verdict). v.work_report_hash) disputes.verdicts
        × All (λ v. Ascending index_of v.votes) disputes.verdicts
        × All IsTimely disputes.verdicts
        × AllValid output.judgements 0 (total_votes disputes.verdicts))
    unfolding verify_verdicts
    verify_verdicts_iff = (
      (λ h.
          let (sorted, h1) = guard_not-ok (is_unique_sorted_by _ disputes.verdicts) _ _ tt h in
          let (votes, h2) = guard-ok (some_unsorted disputes.verdicts) _ _ tt h1 in
          let (all_, signed) = verdicts_loop-ok output.judgements 0 disputes.verdicts h2 in
          (
            is_unique_sorted_by-Ascending _ disputes.verdicts sorted,
            sorted_votes disputes.verdicts votes,
            all_,
            AllValid-within _ 0 (0 + total_votes disputes.verdicts) _ _ (omega arith) (omega arith)
                signed,
          )),
      λ (s, w, h, v).
          rw (Ascending-is_unique_sorted_by _ disputes.verdicts s, votes_sorted disputes.verdicts w)
            (verdicts_loop-All output.judgements 0 disputes.verdicts h (
              AllValid-within _ 0 (total_votes disputes.verdicts) _ _ (omega arith) (omega arith)
                v)),
    )

    pub verify_verdicts-Returns :
        total_votes disputes.verdicts ≤ length output.judgements
        → Returns (verify_verdicts spec state disputes output)
    unfolding verify_verdicts
    verify_verdicts-Returns l = guard-Returns (not (is_unique_sorted_by _ disputes.verdicts)) _ _ (
        guard-Returns (some_unsorted disputes.verdicts) _ _
          (verdicts_loop-Returns output.judgements 0 disputes.verdicts (omega arith)))
