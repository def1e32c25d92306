-- ===== src/Transition/Disputes/Updates/Splits.antt =====
-- Which votes pass, by their sum and by the offenders that come with them.
use typeberry.Base.{
  ℕ, suc, ◌≤◌, ◌≡◌, ◌≢◌, ◌↔◌, ◌⊎◌, refl, arith, Bool-cases, ℕ-cases, true, false, not, leb, leb→le,
  le→leb, ◌==◌, ==_iff, List, [], ◌∷◌, All, none, some, if◌then◌else◌, inl, inr,
}
use typeberry.Transition.HashSet.{Hash}
use typeberry.Transition.Disputes.{ok, Culprit, DisputesExtrinsic, ChainSpec, VotesForWorkReports}
use typeberry.Transition.Disputes.Updates.{
  has_fault, find_culprit, find_last_culprit, is_same, verify_votes_for_work_reports,
}
use typeberry.Transition.Disputes.Checks.Guards.{Returns, if-Returns, guard-Returns}

-- How many culprits there are for a report.
abbrev pub culprits_for : Hash → List Culprit → ℕ
culprits_for r [] = 0
culprits_for r (c ∷ culprits) =
    let rest = culprits_for r culprits in if c.work_report_hash == r then suc rest else rest

find_last_culprit-none :
    (r : Hash) (i : ℕ) (culprits : List Culprit)
    → culprits_for r culprits ≡ 0
    → find_last_culprit r i culprits ≡ none
find_last_culprit-none r i [] h = refl
find_last_culprit-none r i (c ∷ culprits) h = elim (Bool-cases (c.work_report_hash == r)) [
  | inl same ↦ absurd (let bad = rw (same) at h in omega arith)
  | inr other ↦ rw (find_last_culprit-none r (suc i) culprits (rw (other) at h), other) refl
]

find_last_culprit-some :
    (r : Hash) (i n : ℕ) (culprits : List Culprit)
    → culprits_for r culprits ≡ suc n
    → (m : ℕ) × (find_last_culprit r i culprits ≡ some m) × (i ≤ m)
find_last_culprit-some r i n [] h = absurd (omega arith)
find_last_culprit-some r i n (c ∷ culprits) h = elim (ℕ-cases (culprits_for r culprits)) [
  | inl none_left ↦ elim (Bool-cases (c.work_report_hash == r)) [
    | inl same ↦
        (i, rw (find_last_culprit-none r (suc i) culprits none_left, same) refl, omega arith)
    | inr other ↦ absurd (let bad = rw (other) at h in omega arith)
  ]
  | inr (k, more) ↦
      let (m, e, l) = find_last_culprit-some r (suc i) k culprits more in
      (m, rw (e) refl, omega arith)
]

-- The first and the last culprit for a report are one exactly if there are not two.
is_same-find :
    (r : Hash) (i : ℕ) (culprits : List Culprit)
    → is_same (find_culprit r i culprits) (find_last_culprit r i culprits)
      ≡ not (leb 2 (culprits_for r culprits))
is_same-find r i [] = refl
is_same-find r i (c ∷ culprits) = elim (Bool-cases (c.work_report_hash == r)) [
  | inl same ↦ elim (ℕ-cases (culprits_for r culprits)) [
    | inl none_left ↦
        rw (find_last_culprit-none r (suc i) culprits none_left, same, none_left) (ground arith)
    | inr (k, more) ↦
        let (m, e, l) = find_last_culprit-some r (suc i) k culprits more in
        rw (e, same, more) (ground arith)
  ]
  | inr other ↦ elim (ℕ-cases (culprits_for r culprits)) [
    | inl none_left ↦
        let ih = is_same-find r (suc i) culprits in
        let last = find_last_culprit-none r (suc i) culprits none_left in
        rw (last, other) (rw (last) at ih)
    | inr (k, more) ↦
        let ih = is_same-find r (suc i) culprits in
        let (m, e, l) = find_last_culprit-some r (suc i) k culprits more in
        rw (e, other) (rw (e) at ih)
  ]
]

unequal : (a b : ℕ) → a ≢ b → (a == b) ≡ false
unequal a b h = ground arith

module _ (spec : ChainSpec) (disputes : DisputesExtrinsic) where
  -- A super majority of votes comes with a fault, no vote with two culprits, and all else is a
  -- third of the votes.
  abbrev pub IsSplit : Hash × ℕ → Type 0
  IsSplit (r, sum) =
      ((sum ≡ spec.validators_super_majority) × (has_fault r disputes.faults ≡ true))
      ⊎ ((sum ≢ spec.validators_super_majority)
          × (((sum ≡ 0) × (2 ≤ culprits_for r disputes.culprits))
              ⊎ ((sum ≢ 0) × (sum ≡ spec.third_of_validators))))

  IsSplit-rest :
      (r : Hash) (sum : ℕ) (v : VotesForWorkReports)
      → verify_votes_for_work_reports spec ((r, sum) ∷ v) disputes ≡ ok tt
      → IsSplit (r, sum) × (verify_votes_for_work_reports spec v disputes ≡ ok tt)
  unfolding verify_votes_for_work_reports
  IsSplit-rest r sum v h = elim (Bool-cases (sum == spec.validators_super_majority)) [
    | inl super ↦ elim (Bool-cases (has_fault r disputes.faults)) [
      | inl faulty ↦ (inl ((==_iff _ _).0 super, faulty), rw (super, faulty) at h)
      | inr missing ↦ absurd (let bad = rw (super, missing) at h in cc)
    ]
    | inr other ↦
        let no_super : sum ≢ spec.validators_super_majority = ground arith in
        elim (Bool-cases (sum == 0)) [
          | inl none_ ↦ elim (Bool-cases (leb 2 (culprits_for r disputes.culprits))) [
            | inl two ↦ (
              inr (no_super, inl ((==_iff _ _).0 none_, leb→le _ _ two)),
              rw (other, none_, is_same-find r 0 disputes.culprits, two) at h,
            )
            | inr few ↦
                absurd
                  (let bad = rw (other, none_, is_same-find r 0 disputes.culprits, few) at h in cc)
          ]
          | inr some_ ↦ elim (Bool-cases (sum == spec.third_of_validators)) [
            | inl third ↦ (
              inr (
                no_super,
                inr ((λ e. absurd (let bad = (==_iff sum 0).1 e in cc)), (==_iff _ _).0 third),
              ),
              rw (other, some_, third) at h,
            )
            | inr wrong ↦ absurd (let bad = rw (other, some_, wrong) at h in cc)
          ]
        ]
  ]

  IsSplit-back :
      (r : Hash) (sum : ℕ) (v : VotesForWorkReports)
      → IsSplit (r, sum)
      → verify_votes_for_work_reports spec v disputes ≡ ok tt
      → verify_votes_for_work_reports spec ((r, sum) ∷ v) disputes ≡ ok tt
  unfolding verify_votes_for_work_reports
  IsSplit-back r sum v (inl (super, faulty)) h = rw ((==_iff _ _).1 super, faulty) h
  IsSplit-back r sum v (inr (other, inl (none_, two))) h =
      rw
        (
          unequal sum _ other,
          (==_iff _ _).1 none_,
          is_same-find r 0 disputes.culprits,
          le→leb _ _ two,
        )
        h
  IsSplit-back r sum v (inr (other, inr (some_, third))) h =
      rw (unequal sum _ other, unequal sum 0 some_, (==_iff _ _).1 third) h

  -- Votes pass exactly if each entry is split in one of the three ways.
  pub verify_votes_for_work_reports_iff :
      (v : VotesForWorkReports)
      → (verify_votes_for_work_reports spec v disputes ≡ ok tt) ↔ All IsSplit v
  unfolding verify_votes_for_work_reports
  verify_votes_for_work_reports_iff [] = ((λ h. tt), λ h. refl)
  verify_votes_for_work_reports_iff ((r, sum) ∷ v) = (
    (λ h.
        let (first, rest) = IsSplit-rest r sum v h in
        (first, (verify_votes_for_work_reports_iff v).0 rest)),
    λ (first, rest). IsSplit-back r sum v first ((verify_votes_for_work_reports_iff v).1 rest),
  )

  pub verify_votes_for_work_reports-Returns :
      (v : VotesForWorkReports) → Returns (verify_votes_for_work_reports spec v disputes)
  unfolding verify_votes_for_work_reports
  verify_votes_for_work_reports-Returns [] = tt
  verify_votes_for_work_reports-Returns ((r, sum) ∷ v) =
      let ih = verify_votes_for_work_reports-Returns v in
      let same =
        is_same (find_culprit r 0 disputes.culprits) (find_last_culprit r 0 disputes.culprits) in
      if-Returns (sum == spec.validators_super_majority) _ _
        (if-Returns (has_fault r disputes.faults) _ _ ih tt)
        (if-Returns (sum == 0) _ _ (guard-Returns same _ _ ih)
          (guard-Returns (not (sum == spec.third_of_validators)) _ _ ih))
