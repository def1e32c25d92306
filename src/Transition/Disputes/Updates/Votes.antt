-- ===== src/Transition/Disputes/Updates/Votes.antt =====
-- The counted votes, and the reports that they judge.
use typeberry.Base.{
  ℕ, ◌<◌, ◌≡◌, refl, sym, ap, ◌∙◌, arith, Bool, Bool-cases, false, ◌==◌, ◌||◌, ◌&&◌, List, [], ◌∷◌,
  ◌++◌, map, All, All-append, inl, inr, append-nil, append_assoc,
}
use typeberry.Collections.SortedSet.Ranks.{has_rank}
use typeberry.Collections.SortedSet.Unique.{IsDistinct}
use typeberry.Transition.HashSet.{Hash, has}
use typeberry.Transition.Disputes.{
  Verdict, DisputesExtrinsic, hash_comparator, VotesForWorkReports, set_votes,
}
use typeberry.Transition.Disputes.Sorts.{Ascending}
use typeberry.Transition.Disputes.Checks.{count_valid, count_loop, calculate_votes_for_work_reports}
use typeberry.Transition.Disputes.Updates.{select}

pub has_rank-has : (h : Hash) (xs : List Hash) → has_rank hash_comparator h xs ≡ has xs h
has_rank-has h [] = refl
has_rank-has h (x ∷ xs) = ap (◌||◌ (h == x)) (has_rank-has h xs)

abbrev pub keys : VotesForWorkReports → List Hash
keys [] = []
keys ((r, sum) ∷ v) = r ∷ keys v

-- No report has two entries.
abbrev pub AreUnique : VotesForWorkReports → Type 0
AreUnique [] = Unit {0}
AreUnique ((r, sum) ∷ v) = (has (keys v) r ≡ false) × AreUnique v

has-set_votes :
    (h r : Hash) (sum : ℕ) (v : VotesForWorkReports)
    → has (keys v) h ≡ false
    → (h == r) ≡ false
    → has (keys (set_votes v r sum)) h ≡ false
has-set_votes h r sum [] a b = ground arith
has-set_votes h r sum ((key, value) ∷ v) a b = elim (Bool-cases (h == key)) [
  | inl same ↦ absurd (let bad = rw (same) at a in cc)
  | inr other ↦ elim (Bool-cases (r == key)) [
    | inl found ↦ rw (found, other) (rw (other) at a)
    | inr on ↦ rw (on, other) (has-set_votes h r sum v (rw (other) at a) b)
  ]
]

set_votes-AreUnique :
    (r : Hash) (sum : ℕ) (v : VotesForWorkReports) → AreUnique v → AreUnique (set_votes v r sum)
set_votes-AreUnique r sum [] u = (refl, tt)
set_votes-AreUnique r sum ((key, value) ∷ v) u = elim (Bool-cases (r == key)) [
  | inl found ↦ rw (found) u
  | inr on ↦
      let other : (key == r) ≡ false = ground arith in
      rw (on) (has-set_votes key r sum v u.0 other, set_votes-AreUnique r sum v u.1)
]

count_loop-AreUnique :
    (v : VotesForWorkReports) (verdicts : List Verdict)
    → AreUnique v
    → AreUnique (count_loop v verdicts)
unfolding count_loop
count_loop-AreUnique v [] u = u
count_loop-AreUnique v (d ∷ verdicts) u =
    count_loop-AreUnique (set_votes v d.work_report_hash (count_valid d.votes)) verdicts
      (set_votes-AreUnique d.work_report_hash (count_valid d.votes) v u)

-- Each report has one sum, whatever the verdicts are.
pub calculate_votes-AreUnique :
    (disputes : DisputesExtrinsic) → AreUnique (calculate_votes_for_work_reports disputes)
unfolding calculate_votes_for_work_reports
calculate_votes-AreUnique disputes = count_loop-AreUnique [] disputes.verdicts tt

abbrev pub entry : Verdict → Hash × ℕ
entry d = (d.work_report_hash, count_valid d.votes)

abbrev pub report_of : Verdict → Hash
report_of d = d.work_report_hash

set_votes-new :
    (r : Hash) (sum : ℕ) (v : VotesForWorkReports)
    → All (λ e. e.0 < r) v
    → set_votes v r sum ≡ v ++ ((r, sum) ∷ [])
set_votes-new r sum [] h = refl
set_votes-new r sum ((key, value) ∷ v) h =
    let l : key < r = h.0 in
    let on : (r == key) ≡ false = ground arith in
    rw (on) (ap (◌∷◌ (key, value)) (set_votes-new r sum v h.1))

lower : (m n : ℕ) (v : VotesForWorkReports) → m < n → All (λ e. e.0 < m) v → All (λ e. e.0 < n) v
lower m n [] l h = tt
lower m n ((key, value) ∷ v) l h = (omega arith, lower m n v l h.1)

count_loop-Ascending :
    (v : VotesForWorkReports) (verdicts : List Verdict)
    → Ascending report_of verdicts
    → All (λ d. All (λ e. e.0 < report_of d) v) verdicts
    → count_loop v verdicts ≡ v ++ map entry verdicts
unfolding count_loop
count_loop-Ascending v [] s h = sym (append-nil v)
count_loop-Ascending v (d ∷ verdicts) s h =
    rw (set_votes-new d.work_report_hash (count_valid d.votes) v h.0) (
      count_loop-Ascending (v ++ (entry d ∷ [])) verdicts s.1 (extend d v verdicts s.0 h.1)
      ∙ append_assoc v (entry d ∷ []) (map entry verdicts))
  where
    extend :
        (d : Verdict) (v : VotesForWorkReports) (ds : List Verdict)
        → All (λ b. report_of d < report_of b) ds
        → All (λ b. All (λ e. e.0 < report_of b) v) ds
        → All (λ b. All (λ e. e.0 < report_of b) (v ++ (entry d ∷ []))) ds
    extend d v [] a b = tt
    extend d v (x ∷ ds) a b =
        (All-append (λ e. e.0 < report_of x) v (entry d ∷ []) b.0 (a.0, tt), extend d v ds a.1 b.1)

-- For verdicts that ascend by their reports the entries are theirs, in their order.
pub calculate_votes-Ascending :
    (disputes : DisputesExtrinsic)
    → Ascending report_of disputes.verdicts
    → calculate_votes_for_work_reports disputes ≡ map entry disputes.verdicts
unfolding calculate_votes_for_work_reports
calculate_votes-Ascending disputes s =
    count_loop-Ascending [] disputes.verdicts s (all_trivial disputes.verdicts)
  where
    all_trivial : (ds : List Verdict) → All (λ d. All (λ (e : Hash × ℕ). e.0 < report_of d) []) ds
    all_trivial [] = tt
    all_trivial (d ∷ ds) = (tt, all_trivial ds)

module _ (branch : ℕ → Bool) where
  select-missing :
      (h : Hash) (v : VotesForWorkReports)
      → has (keys v) h ≡ false
      → has (select branch v) h ≡ false
  select-missing h [] a = refl
  select-missing h ((r, sum) ∷ v) a = elim (Bool-cases (h == r)) [
    | inl same ↦ absurd (let bad = rw (same) at a in cc)
    | inr other ↦
        let ih = select-missing h v (rw (other) at a) in
        elim (Bool-cases (branch sum)) [ inl in_ ↦ rw (in_, other) ih | inr out ↦ rw (out) ih ]
  ]

  -- The reports that fall into one branch are distinct.
  pub select-IsDistinct :
      (v : VotesForWorkReports) → AreUnique v → IsDistinct hash_comparator (select branch v)
  select-IsDistinct [] u = tt
  select-IsDistinct ((r, sum) ∷ v) u = elim (Bool-cases (branch sum)) [
    | inl in_ ↦
        rw (in_)
          (has_rank-has r (select branch v) ∙ select-missing r v u.0, select-IsDistinct v u.1)
    | inr out ↦ rw (out) (select-IsDistinct v u.1)
  ]

  -- Whether some verdict on the report has a sum of valid votes in the branch.
  abbrev pub is_judged_as : List Verdict → Hash → Bool
  is_judged_as [] h = false
  is_judged_as (d ∷ verdicts) h =
      (h == d.work_report_hash && branch (count_valid d.votes)) || is_judged_as verdicts h

  pub has-select :
      (verdicts : List Verdict) (h : Hash)
      → has (select branch (map entry verdicts)) h ≡ is_judged_as verdicts h
  has-select [] h = refl
  has-select (d ∷ verdicts) h =
      let ih = has-select verdicts h in
      elim (Bool-cases (branch (count_valid d.votes))) [
        | inl in_ ↦ elim (Bool-cases (h == d.work_report_hash)) [
          | inl same ↦ rw (in_, same) refl
          | inr other ↦ rw (in_, other) ih
        ]
        | inr out ↦ elim (Bool-cases (h == d.work_report_hash)) [
          | inl same ↦ rw (out, same) ih
          | inr other ↦ rw (out, other) ih
        ]
      ]
