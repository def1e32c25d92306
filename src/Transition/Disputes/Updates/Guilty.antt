-- ===== src/Transition/Disputes/Updates/Guilty.antt =====
-- The offenders that pass, said of the state and the extrinsic.
use typeberry.Base.{
  ℕ, ◌≡◌, ◌↔◌, refl, sym, ap, ◌∙◌, Bool, Bool-cases, true, false, ◌==◌, ==_iff, ◌||◌, List, [], ◌∷◌,
  ◌++◌, map, All, All-map, inl, inr,
}
use typeberry.Collections.SortedSet.{to_sorted}
use typeberry.Transition.HashSet.{Hash, HashSet, has, from, has-from, has-append, delete_key}
use typeberry.Transition.Disputes.{
  Verdict, Culprit, Fault, DisputesState, hash_comparator, ValidatorData, ChainSpec,
}
use typeberry.Transition.Disputes.Checks.{OffenderSets, offender_sets}
use typeberry.Transition.Disputes.Checks.Offenders.{IsCulprit, IsFault}
use typeberry.Transition.Disputes.Updates.{select, is_good, is_bad, delete_all, get_validator_keys}
use typeberry.Transition.Disputes.Updates.Votes.{entry, is_judged_as, has-select}
use typeberry.Transition.Disputes.Updates.Records.{new_items, has-to_sorted}

-- Deleting other keys leaves a key.
delete_key-other : (s : HashSet) (k h : Hash) → (h == k) ≡ false → has (delete_key s k) h ≡ has s h
delete_key-other [] k h o = refl
delete_key-other (x ∷ s) k h o = elim (Bool-cases (k == x)) [
  | inl found ↦
      let e = (==_iff k x).0 found in
      let other : (h == x) ≡ false = rw (sym e) o in rw (found, other) refl
  | inr on ↦ rw (on) (ap (◌||◌ (h == x)) (delete_key-other s k h o))
]

delete_all-other :
    (s : HashSet) (ks : List Hash) (h : Hash) → has ks h ≡ false → has (delete_all s ks) h ≡ has s h
delete_all-other s [] h o = refl
delete_all-other s (k ∷ ks) h o = elim (Bool-cases (h == k)) [
  | inl same ↦ absurd (let bad = rw (same) at o in cc)
  | inr other ↦
      delete_all-other (delete_key s k) ks h (rw (other) at o) ∙ delete_key-other s k h other
]

module _ (state : DisputesState) where
  abbrev pub current_keys : List Hash
  current_keys = map (λ (v : ValidatorData). v.ed25519) state.current_validator_data

  abbrev pub previous_keys : List Hash
  previous_keys = map (λ (v : ValidatorData). v.ed25519) state.previous_validator_data

  -- A key that is not punished is kept if some validator of the two epochs has it.
  has-get_validator_keys :
      (h : Hash)
      → has state.disputes_records.punish_set h ≡ false
      → has (get_validator_keys state) h ≡ (has current_keys h || has previous_keys h)
  unfolding get_validator_keys
  has-get_validator_keys h o =
      delete_all-other (from (current_keys ++ previous_keys)) state.disputes_records.punish_set h o
      ∙ has-from (current_keys ++ previous_keys) h
      ∙ has-append current_keys previous_keys h

  -- A validator of this or the previous epoch that is not punished yet.
  abbrev pub IsPunishable : Hash → Type 0
  IsPunishable key =
      (has state.disputes_records.punish_set key ≡ false)
      × ((has current_keys key || has previous_keys key) ≡ true)

  module _ (spec : ChainSpec) (verdicts : List Verdict) where
    unfoldable pub sets : OffenderSets
    sets = offender_sets state (new_items spec (map entry verdicts)) (get_validator_keys state)

    -- For a report that these verdicts judge bad.
    abbrev pub IsCulpritOf : Culprit → Type 0
    IsCulpritOf c =
        IsPunishable c.key × (is_judged_as (is_bad spec) verdicts c.work_report_hash ≡ true)

    -- If the report was judged valid, these verdicts judge it bad.
    abbrev pub IsFaultOf : Fault → Type 0
    IsFaultOf f =
        IsPunishable f.key
        × (f.was_considered_valid ≡ true
            → (is_judged_as (is_good spec) verdicts f.work_report_hash ≡ false)
              × (is_judged_as (is_bad spec) verdicts f.work_report_hash ≡ true))

    new_has :
        (branch : ℕ → Bool) (h : Hash)
        → has (from (to_sorted hash_comparator (select branch (map entry verdicts)))) h
          ≡ is_judged_as branch verdicts h
    new_has branch h =
        has-from (to_sorted hash_comparator (select branch (map entry verdicts))) h
        ∙ has-to_sorted (select branch (map entry verdicts)) h
        ∙ has-select branch verdicts h

    IsPunishable-iff :
        (key : Hash)
        → ((has (from state.disputes_records.punish_set) key ≡ false)
            × (has (get_validator_keys state) key ≡ true))
          ↔ IsPunishable key
    IsPunishable-iff key =
        let p = has-from state.disputes_records.punish_set key in
        (
          (λ (fresh, known).
              let out = sym p ∙ fresh in (out, sym (has-get_validator_keys key out) ∙ known)),
          λ (out, known). (p ∙ out, has-get_validator_keys key out ∙ known),
        )

    IsCulprit-iff : (c : Culprit) → IsCulprit sets c ↔ IsCulpritOf c
    unfolding sets offender_sets
    IsCulprit-iff c =
        let bad_ = new_has (is_bad spec) c.work_report_hash in
        (
          (λ (fresh, known, judged).
              ((IsPunishable-iff c.key).0 (fresh, known), sym bad_ ∙ judged)),
          λ (p, judged).
              let (fresh, known) = (IsPunishable-iff c.key).1 p in (fresh, known, bad_ ∙ judged),
        )

    IsFault-iff : (f : Fault) → IsFault sets f ↔ IsFaultOf f
    unfolding sets offender_sets
    IsFault-iff f =
        let good_ = new_has (is_good spec) f.work_report_hash in
        let bad_ = new_has (is_bad spec) f.work_report_hash in
        (
          (λ (fresh, known, judged). (
            (IsPunishable-iff f.key).0 (fresh, known),
            λ valid. (sym good_ ∙ (judged valid).0, sym bad_ ∙ (judged valid).1),
          )),
          λ (p, judged).
              let (fresh, known) = (IsPunishable-iff f.key).1 p in
              (fresh, known, λ valid. (good_ ∙ (judged valid).0, bad_ ∙ (judged valid).1)),
        )

    pub IsCulprit-All :
        (culprits : List Culprit) → All (IsCulprit sets) culprits ↔ All IsCulpritOf culprits
    IsCulprit-All culprits = (
      (λ h. All-map (IsCulprit sets) IsCulpritOf culprits (λ c. (IsCulprit-iff c).0) h),
      λ h. All-map IsCulpritOf (IsCulprit sets) culprits (λ c. (IsCulprit-iff c).1) h,
    )

    pub IsFault-All : (faults : List Fault) → All (IsFault sets) faults ↔ All IsFaultOf faults
    IsFault-All faults = (
      (λ h. All-map (IsFault sets) IsFaultOf faults (λ f. (IsFault-iff f).0) h),
      λ h. All-map IsFaultOf (IsFault sets) faults (λ f. (IsFault-iff f).1) h,
    )
