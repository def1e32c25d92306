-- ===== src/Transition/Disputes/Updates/Kept.antt =====
-- What accepted disputes change, and what holds of the records afterwards.
use typeberry.Base.{
  ℕ, ◌≡◌, refl, sym, ap, ◌∙◌, Bool, Bool-cases, false, true, ◌==◌, ◌&&◌, ◌||◌, map, length, inl,
  inr,
}
use typeberry.Transition.HashSet.{Hash, has}
use typeberry.Transition.Disputes.{
  ok, DisputesExtrinsic, DisputesRecords, DisputesState, ChainSpec, Crypto,
}
use typeberry.Transition.Disputes.Checks.{prepare_judgements}
use typeberry.Transition.Disputes.Checks.Guards.{bind-eq-ok}
use typeberry.Transition.Disputes.Updates.{
  is_good, is_bad, is_wonky, Transitioned, transition, select, first_error,
}
use typeberry.Transition.Disputes.Updates.Cleared.{AreDistinct, cleared, cleared_loop-cleared}
use typeberry.Transition.Disputes.Updates.Votes.{
  entry, is_judged_as, has-select, calculate_votes-Ascending,
}
use typeberry.Transition.Disputes.Updates.Records.{
  AreSets, has-to_sorted, culprit_keys, fault_keys, has-get_offenders,
}
use typeberry.Transition.Disputes.Updates.Verdicts.{judged_once, new_judged}
use typeberry.Transition.Disputes.Updates.Steps.{checks, votes, transition-steps}
use typeberry.Transition.Disputes.Updates.Judged.{IsAccepted, transition_iff, made_of, updated-made}

-- No report is in two of the sets of verdicts.
abbrev pub AreDisjoint : DisputesRecords → Type 0
AreDisjoint records =
    (h : Hash)
    → ((has records.good_set h && has records.bad_set h) ≡ false)
      × ((has records.good_set h && has records.wonky_set h) ≡ false)
      × ((has records.bad_set h && has records.wonky_set h) ≡ false)

both_or :
    (a b c d : Bool)
    → (a && c) ≡ false
    → (b && d) ≡ false
    → (b ≡ true → c ≡ false)
    → (d ≡ true → a ≡ false)
    → ((a || b) && (c || d)) ≡ false
both_or true b true d h k f g = h
both_or true b false true h k f g = g refl
both_or true b false false h k f g = refl
both_or false true c d h k f g = rw (f refl) k
both_or false false c d h k f g = refl

module _ (spec : ChainSpec) (m : ℕ) where
  good_bad : (is_good spec m && is_bad spec m) ≡ false
  good_bad = elim (Bool-cases (is_good spec m)) [ inl e ↦ rw (e) refl | inr e ↦ rw (e) refl ]

  good_wonky : (is_good spec m && is_wonky spec m) ≡ false
  good_wonky = elim (Bool-cases (is_good spec m)) [ inl e ↦ rw (e) refl | inr e ↦ rw (e) refl ]

  bad_wonky : (is_bad spec m && is_wonky spec m) ≡ false
  bad_wonky = elim (Bool-cases (is_good spec m)) [
    | inl e ↦ rw (e) refl
    | inr e ↦ elim (Bool-cases (m == 0)) [ inl z ↦ rw (e, z) refl | inr z ↦ rw (e, z) refl ]
  ]

module _ (crypto : Crypto) (spec : ChainSpec) (state : DisputesState)
    (disputes : DisputesExtrinsic) where
  -- Which hashes are in the records after the verdicts, and which offenders are marked.
  abbrev pub IsJudged : Transitioned → Hash → Type 0
  IsJudged t h =
      let old = state.disputes_records in
      let after = t.state_update.disputes_records in
      (has after.good_set h
        ≡ (has old.good_set h || is_judged_as (is_good spec) disputes.verdicts h))
      × (has after.bad_set h
          ≡ (has old.bad_set h || is_judged_as (is_bad spec) disputes.verdicts h))
      × (has after.wonky_set h
          ≡ (has old.wonky_set h || is_judged_as (is_wonky spec) disputes.verdicts h))
      × (has after.punish_set h ≡ (
          has old.punish_set h || (has (culprit_keys disputes) h || has (fault_keys disputes) h)))
      × (has t.offenders_mark h ≡ (has (culprit_keys disputes) h || has (fault_keys disputes) h))

  -- The records after the verdicts, and the cores that are left.
  abbrev pub IsUpdated : Transitioned → Type 0
  IsUpdated t =
      AreSets t.state_update.disputes_records
      × ((h : Hash) → IsJudged t h)
      × (t.state_update.availability_assignment
          ≡ map (cleared crypto spec (map entry disputes.verdicts)) state.availability_assignment)

  module _ (s : AreSets state.disputes_records)
      (n : length state.availability_assignment ≡ spec.cores_count) (t : Transitioned)
      (done : transition crypto spec state disputes ≡ ok t) where
    accepted : IsAccepted crypto spec state disputes
    accepted = (transition_iff crypto spec state disputes s n).0 (t, done)

    votes-Ascending : votes crypto spec state disputes ≡ map entry disputes.verdicts
    votes-Ascending = calculate_votes-Ascending disputes accepted.reports

    -- The update that is returned is the one that is made of the votes.
    transition-made :
        (after : DisputesRecords) × AreSets after
        × (made_of crypto spec state disputes after ≡ t)
        × ((h : Hash) → IsJudged t h)
    transition-made =
        let (judgements, p, rest) =
          bind-eq-ok (prepare_judgements spec state disputes.verdicts) _
            (sym (transition-steps crypto spec state disputes) ∙ done) in
        let (_, passed, end) =
          bind-eq-ok (first_error (checks crypto spec state disputes judgements)) _ rest in
        let (after, e, sets_, updates) = updated-made crypto spec state disputes s n in
        let same : made_of crypto spec state disputes after ≡ t = let both = sym e ∙ end in cc in
        let judged = λ (branch : ℕ → Bool) (h : Hash).
          has-to_sorted (select branch (votes crypto spec state disputes)) h
          ∙ ap (λ v. has (select branch v) h) votes-Ascending
          ∙ has-select branch disputes.verdicts h in
        let old = state.disputes_records in
        let offenders = has-get_offenders disputes in
        (
          after,
          sets_,
          same,
          rw (sym same) (λ h. (
            (updates h).0 ∙ ap (◌||◌ (has old.good_set h)) (judged (is_good spec) h),
            (updates h).1 ∙ ap (◌||◌ (has old.bad_set h)) (judged (is_bad spec) h),
            (updates h).2 ∙ ap (◌||◌ (has old.wonky_set h)) (judged (is_wonky spec) h),
            (updates h).3 ∙ ap (◌||◌ (has old.punish_set h)) (offenders h),
            offenders h,
          )),
        )

    -- If the records are sets, there is an entry for each core and no two cores have reports of one
    -- hash, disputes that are accepted leave records that are sets. The good reports are those that
    -- were and those that a verdict judges good, so for the bad and the wonky ones; the punished are
    -- those that were and the keys of the culprits and faults, which are the offenders; and of the
    -- cores those lose their report that a verdict judges with less than a super majority.
    pub transition-IsUpdated : AreDistinct crypto state.availability_assignment → IsUpdated t
    transition-IsUpdated d =
        let (after, sets_, same, judged) = transition-made in
        (
          rw (sym same) sets_,
          judged,
          rw (sym same) (
              cleared_loop-cleared crypto spec (votes crypto spec state disputes)
                state.availability_assignment d
              ∙ ap (λ v. map (cleared crypto spec v) state.availability_assignment)
                  votes-Ascending),
        )

    -- If the records are sets, there is an entry for each core and no report is in two of the sets of
    -- good, bad and wonky ones, then no report is in two of them after accepted disputes.
    pub transition-AreDisjoint :
        AreDisjoint state.disputes_records → AreDisjoint t.state_update.disputes_records
    transition-AreDisjoint disjoint h =
        let (_, _, _, judged) = transition-made in
        let (good, bad_, wonky, _, _) = judged h in
        let old = state.disputes_records in
        let fresh =
          λ (branch : ℕ → Bool). new_judged old branch disputes.verdicts h accepted.unjudged in
        let apart = λ (p q : ℕ → Bool) (e : (m : ℕ) → (p m && q m) ≡ false).
          judged_once p q e disputes.verdicts h accepted.reports in
        let (gb, gw, bw) = disjoint h in
        (
          rw (good, bad_)
              (both_or _ _ _ _ gb (apart (is_good spec) (is_bad spec) (good_bad spec))
                (λ e. (fresh (is_good spec) e).1) (λ e. (fresh (is_bad spec) e).0)),
          rw (good, wonky)
              (both_or _ _ _ _ gw (apart (is_good spec) (is_wonky spec) (good_wonky spec))
                (λ e. (fresh (is_good spec) e).2) (λ e. (fresh (is_wonky spec) e).0)),
          rw (bad_, wonky)
              (both_or _ _ _ _ bw (apart (is_bad spec) (is_wonky spec) (bad_wonky spec))
                (λ e. (fresh (is_bad spec) e).2) (λ e. (fresh (is_wonky spec) e).1)),
        )
