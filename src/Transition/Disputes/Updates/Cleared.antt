-- ===== src/Transition/Disputes/Updates/Cleared.antt =====
-- Which cores the verdicts clear.
use typeberry.Base.{
  ℕ, zero, suc, ◌+◌, ◌≤◌, ◌≡◌, refl, sym, ap, ◌∙◌, arith, Bool, Bool-cases, true, false, ltb, ◌==◌,
  ==_iff, List, [], ◌∷◌, map, length, length-map, Option, Option-cases, none, some, if◌then◌else◌,
  inl, inr,
}
use typeberry.Transition.HashSet.{Hash}
use typeberry.Transition.Assurances.{AvailabilityAssignment}
use typeberry.Transition.Disputes.{
  ok, Bytes, DisputesState, ChainSpec, Crypto, VotesForWorkReports, get_votes,
}
use typeberry.Transition.Disputes.Updates.{cleared_loop, get_cleared_core_assignment}

module _ (crypto : Crypto) where
  abbrev pub Assignments : Type 0
  Assignments = List (Option (AvailabilityAssignment Bytes))

  abbrev pub hash_of : AvailabilityAssignment Bytes → Hash
  hash_of assignment = crypto.hash_bytes assignment.work_report

  -- How many cores have a report of this hash.
  abbrev pub cores_with : Hash → Assignments → ℕ
  cores_with h [] = 0
  cores_with h (none ∷ assignments) = cores_with h assignments
  cores_with h (some a ∷ assignments) =
      let rest = cores_with h assignments in if hash_of a == h then suc rest else rest

  -- No two cores have reports of the same hash.
  abbrev pub AreDistinct : Assignments → Type 0
  AreDistinct [] = Unit {0}
  AreDistinct (none ∷ assignments) = AreDistinct assignments
  AreDistinct (some a ∷ assignments) =
      (cores_with (hash_of a) assignments ≡ 0) × AreDistinct assignments

  is_some : Option ℕ → Bool
  is_some none = false
  is_some (some sum) = true

  judged_cores : VotesForWorkReports → Assignments → ℕ
  unfolding is_some
  judged_cores v [] = 0
  judged_cores v (none ∷ assignments) = judged_cores v assignments
  judged_cores v (some a ∷ assignments) =
      let rest = judged_cores v assignments in
      if is_some (get_votes v (hash_of a)) then suc rest else rest

  cores_with-once :
      (h : Hash) (assignments : Assignments)
      → AreDistinct assignments
      → cores_with h assignments ≤ 1
  cores_with-once h [] d = omega arith
  cores_with-once h (none ∷ assignments) d = cores_with-once h assignments d
  cores_with-once h (some a ∷ assignments) d = elim (Bool-cases (hash_of a == h)) [
    | inl same ↦
        let e = (==_iff (hash_of a) h).0 same in
        let none_left : cores_with h assignments ≡ 0 = rw (sym e) d.0 in rw (same) (omega arith)
    | inr other ↦ rw (other) (cores_with-once h assignments d.1)
  ]

  judged_cores-none : (assignments : Assignments) → judged_cores [] assignments ≡ 0
  unfolding judged_cores is_some
  judged_cores-none [] = refl
  judged_cores-none (none ∷ assignments) = judged_cores-none assignments
  judged_cores-none (some a ∷ assignments) = judged_cores-none assignments

  judged_cores-cons :
      (r : Hash) (sum : ℕ) (v : VotesForWorkReports) (assignments : Assignments)
      → judged_cores ((r, sum) ∷ v) assignments
        ≤ cores_with r assignments + judged_cores v assignments
  unfolding judged_cores is_some
  judged_cores-cons r sum v [] = omega arith
  judged_cores-cons r sum v (none ∷ assignments) = judged_cores-cons r sum v assignments
  judged_cores-cons r sum v (some a ∷ assignments) =
      let ih = judged_cores-cons r sum v assignments in
      elim (Bool-cases (hash_of a == r)) [
        | inl same ↦ elim (Bool-cases (is_some (get_votes v (hash_of a)))) [
          | inl again ↦ rw (same, again) (omega arith)
          | inr new ↦ rw (same, new) (omega arith)
        ]
        | inr other ↦ elim (Bool-cases (is_some (get_votes v (hash_of a)))) [
          | inl again ↦ rw (other, again) (omega arith)
          | inr new ↦ rw (other, new) (omega arith)
        ]
      ]

  -- No more cores are judged than there are verdicts.
  judged_cores-le :
      (v : VotesForWorkReports) (assignments : Assignments)
      → AreDistinct assignments
      → judged_cores v assignments ≤ length v
  judged_cores-le [] assignments d = omega (arith, judged_cores-none assignments)
  judged_cores-le ((r, sum) ∷ v) assignments d = omega (
    arith,
    judged_cores-cons r sum v assignments,
    cores_with-once r assignments d,
    judged_cores-le v assignments d,
  )

  module _ (spec : ChainSpec) where
    -- A report that is judged with less than a super majority leaves its core.
    abbrev cleared_by :
        Option ℕ → AvailabilityAssignment Bytes → Option (AvailabilityAssignment Bytes)
    cleared_by none a = some a
    cleared_by (some sum) a = if ltb sum spec.validators_super_majority then none else some a

    abbrev pub cleared :
        VotesForWorkReports
        → Option (AvailabilityAssignment Bytes)
        → Option (AvailabilityAssignment Bytes)
    cleared v none = none
    cleared v (some a) = cleared_by (get_votes v (hash_of a)) a

    unjudged :
        (v : VotesForWorkReports) (assignments : Assignments)
        → judged_cores v assignments ≤ 0
        → assignments ≡ map (cleared v) assignments
    unfolding judged_cores is_some
    unjudged v [] l = refl
    unjudged v (none ∷ assignments) l = ap (◌∷◌ none) (unjudged v assignments l)
    unjudged v (some a ∷ assignments) l = elim (Option-cases (get_votes v (hash_of a))) [
      | inl out ↦ rw (out) (ap (◌∷◌ (some a)) (unjudged v assignments (rw (out) at l)))
      | inr (sum, e) ↦ absurd (let bad = rw (e) at l in omega arith)
    ]

    cleared_loop-map :
        (v : VotesForWorkReports) (left : ℕ) (assignments : Assignments)
        → judged_cores v assignments ≤ left
        → cleared_loop spec crypto v left assignments ≡ map (cleared v) assignments
    unfolding judged_cores is_some cleared_loop
    cleared_loop-map v zero assignments l = unjudged v assignments l
    cleared_loop-map v (suc left) [] l = refl
    cleared_loop-map v (suc left) (none ∷ assignments) l =
        ap (◌∷◌ none) (cleared_loop-map v (suc left) assignments l)
    cleared_loop-map v (suc left) (some a ∷ assignments) l =
        elim (Option-cases (get_votes v (hash_of a))) [
          | inl out ↦
              rw (cleared_loop, out)
                (ap (◌∷◌ (some a)) (cleared_loop-map v (suc left) assignments (rw (out) at l)))
          | inr (sum, e) ↦
              let fewer = rw (e) at l in
              rw (cleared_loop, e)
                (ap (◌∷◌ (cleared_by (some sum) a))
                  (cleared_loop-map v left assignments (omega arith)))
        ]

    -- If no two cores have reports of one hash, the early end of the loop changes nothing.
    pub cleared_loop-cleared :
        (v : VotesForWorkReports) (assignments : Assignments)
        → AreDistinct assignments
        → cleared_loop spec crypto v (length v) assignments ≡ map (cleared v) assignments
    cleared_loop-cleared v assignments d =
        cleared_loop-map v (length v) assignments (judged_cores-le v assignments d)

    length-cleared_loop :
        (v : VotesForWorkReports) (left : ℕ) (assignments : Assignments)
        → length (cleared_loop spec crypto v left assignments) ≡ length assignments
    unfolding cleared_loop
    length-cleared_loop v zero assignments = refl
    length-cleared_loop v (suc left) [] = refl
    length-cleared_loop v (suc left) (none ∷ assignments) =
        ap suc (length-cleared_loop v (suc left) assignments)
    length-cleared_loop v (suc left) (some a ∷ assignments) =
        elim (Option-cases (get_votes v (hash_of a))) [
          | inl out ↦ rw (cleared_loop, out) (ap suc (length-cleared_loop v (suc left) assignments))
          | inr (sum, e) ↦ rw (cleared_loop, e) (ap suc (length-cleared_loop v left assignments))
        ]

    -- With an entry for each core there is no error.
    pub get_cleared_core_assignment-ok :
        (state : DisputesState) (v : VotesForWorkReports)
        → length state.availability_assignment ≡ spec.cores_count
        → get_cleared_core_assignment spec crypto state v
          ≡ ok (cleared_loop spec crypto v (length v) state.availability_assignment)
    unfolding get_cleared_core_assignment
    get_cleared_core_assignment-ok state v n =
        let len =
          (==_iff _ _).1 (length-cleared_loop v (length v) state.availability_assignment ∙ n) in
        rw (len) refl

    -- If there is an entry for each core, and no two cores have reports of the same hash, the early
    -- end of the loop changes nothing: of each core the report goes that is judged with less than
    -- a super majority of votes, and all else stays.
    pub get_cleared_core_assignment-cleared :
        (state : DisputesState) (v : VotesForWorkReports)
        → AreDistinct state.availability_assignment
        → length state.availability_assignment ≡ spec.cores_count
        → get_cleared_core_assignment spec crypto state v
          ≡ ok (map (cleared v) state.availability_assignment)
    unfolding get_cleared_core_assignment
    get_cleared_core_assignment-cleared state v d n =
        let all_ = cleared_loop-cleared v state.availability_assignment d in
        let len : (length (map (cleared v) state.availability_assignment) == spec.cores_count)
            ≡ true =
          (==_iff _ _).1 (length-map state.availability_assignment (cleared v) ∙ n) in
        rw (all_, len) refl
