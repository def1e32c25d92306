-- ===== src/Transition/Disputes/Updates/Verdicts.antt =====
-- A report has one verdict, which judges it in one way, and it was not judged before.
use typeberry.Base.{
  ℕ, ◌<◌, ◌≡◌, refl, sym, ◌∙◌, arith, Bool, Bool-cases, false, true, ◌==◌, ==_iff, ◌&&◌, ◌||◌, List,
  [], ◌∷◌, All, inl, inr,
}
use typeberry.Transition.HashSet.{Hash, has, has-from}
use typeberry.Transition.Disputes.{Verdict, DisputesRecords}
use typeberry.Transition.Disputes.Sorts.{Ascending}
use typeberry.Transition.Disputes.Checks.{count_valid, is_judged}
use typeberry.Transition.Disputes.Updates.Votes.{report_of, is_judged_as}

later :
    (branch : ℕ → Bool) (h : Hash) (verdicts : List Verdict)
    → All (λ d. h < report_of d) verdicts
    → is_judged_as branch verdicts h ≡ false
later branch h [] a = refl
later branch h (d ∷ verdicts) a =
    let l : h < d.work_report_hash = a.0 in
    let other : (h == d.work_report_hash) ≡ false = ground arith in
    rw (other) (later branch h verdicts a.1)

-- A report has one verdict, which falls into one of two branches that exclude one another.
pub judged_once :
    (p q : ℕ → Bool)
    → ((m : ℕ) → (p m && q m) ≡ false)
    → (verdicts : List Verdict) (h : Hash) → Ascending report_of verdicts
    → (is_judged_as p verdicts h && is_judged_as q verdicts h) ≡ false
judged_once p q e [] h s = refl
judged_once p q e (d ∷ verdicts) h s = elim (Bool-cases (h == d.work_report_hash)) [
  | inl same ↦
      let h_is = (==_iff h d.work_report_hash).0 same in
      let none_p = later p d.work_report_hash verdicts s.0 in
      let none_q = later q d.work_report_hash verdicts s.0 in
      let m = count_valid d.votes in rw (same, h_is, none_p, none_q) (either (p m) (q m) (e m))
  | inr other ↦ rw (other) (judged_once p q e verdicts h s.1)
]
  where
    either : (a b : Bool) → (a && b) ≡ false → ((a || false) && (b || false)) ≡ false
    either true true h = h
    either true false h = refl
    either false b h = refl

neither : (a b c : Bool) → (a || (b || c)) ≡ false → (a ≡ false) × (b ≡ false) × (c ≡ false)
neither false false false h = (refl, refl, refl)
neither false false true h = absurd (cc)
neither false true c h = absurd (cc)
neither true b c h = absurd (cc)

-- A report with a verdict was in no set before.
pub new_judged :
    (records : DisputesRecords) (branch : ℕ → Bool) (verdicts : List Verdict) (h : Hash)
    → All (λ v. is_judged records v.work_report_hash ≡ false) verdicts
    → is_judged_as branch verdicts h ≡ true
    → (has records.good_set h ≡ false)
      × (has records.bad_set h ≡ false)
      × (has records.wonky_set h ≡ false)
new_judged records branch [] h a j = absurd (cc)
new_judged records branch (d ∷ verdicts) h a j = elim (Bool-cases (h == d.work_report_hash)) [
  | inl same ↦
      let h_is = (==_iff h d.work_report_hash).0 same in
      let (g, b, w) = neither _ _ _ a.0 in
      rw (h_is) (
        sym (has-from records.good_set d.work_report_hash) ∙ g,
        sym (has-from records.bad_set d.work_report_hash) ∙ b,
        sym (has-from records.wonky_set d.work_report_hash) ∙ w,
      )
  | inr other ↦ new_judged records branch verdicts h a.1 (rw (other) at j)
]
