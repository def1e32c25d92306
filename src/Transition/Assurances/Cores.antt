-- ===== src/Transition/Assurances/Cores.antt =====
-- The second loop: which reports are available, and which cores are cleared.
use typeberry.Base.{
  ℕ, suc, ◌+◌, ◌<◌, ◌≡◌, refl, sym, ap, ◌∙◌, arith, Bool-cases, ltb, leb, ◌||◌, List, [], ◌∷◌, ◌++◌,
  length, length-append, append_assoc, get_or, get_elem?, set, Option, none, some, if◌then◌else◌,
  inl, inr,
}
use typeberry.Transition.Assurances.{
  AvailabilityAssignment, ok, bind-eq-ok, report_timeout_grace_period, Cleared, core_turn, push_all,
  cores_loop, clear_cores,
}

get_elem?-append :
    {A : Type 0} (xs : List A) (y : A) (ys : List A)
    → get_elem? (xs ++ (y ∷ ys)) (length xs) ≡ some y
get_elem?-append [] y ys = refl
get_elem?-append (x ∷ xs) y ys = get_elem?-append xs y ys

get_elem?-split :
    {A : Type 0} (c : ℕ) (whole before : List A) (y : A) (after : List A)
    → whole ≡ before ++ (y ∷ after)
    → length before ≡ c
    → get_elem? whole c ≡ some y
get_elem?-split c whole before y after e n = rw (e, sym n) (get_elem?-append before y after)

set-append :
    {A : Type 0} (xs : List A) (y z : A) (ys : List A)
    → set (xs ++ (y ∷ ys)) (length xs) z ≡ xs ++ (z ∷ ys)
set-append [] y z ys = refl
set-append (x ∷ xs) y z ys = ap (◌∷◌ x) (set-append xs y z ys)

set-split :
    {A : Type 0} (c : ℕ) (before : List A) (y z : A) (after : List A)
    → length before ≡ c
    → set (before ++ (y ∷ after)) c z ≡ before ++ (z ∷ after)
set-split c before y z after n = rw (sym n) (set-append before y z after)

unassured :
    {R : Type 0} (slot super_majority c k : ℕ) (turn : Cleared R)
    → core_turn slot super_majority c k (some none) ≡ ok turn
    → k ≡ 0
unfolding core_turn
unassured slot super_majority c k turn h = elim (Bool-cases (ltb 0 k)) [
  | inl assured ↦ (let bad = rw (assured) at h in cc)
  | inr other ↦ ground arith
]

module _ {R : Type 0} (slot super_majority : ℕ) (count : ℕ → ℕ) where
  -- No core without a pending report has an assurance. The list is of the cores from `c` on.
  abbrev pub Pending : ℕ → List (Option (AvailabilityAssignment R)) → Type 0
  Pending c [] = Unit
  Pending c (none ∷ assignment) = (count c ≡ 0) × Pending (suc c) assignment
  Pending c (some report ∷ assignment) = Pending (suc c) assignment

  -- The reports with a super majority of assurances.
  abbrev pub available : ℕ → List (Option (AvailabilityAssignment R)) → List R
  available c [] = []
  available c (none ∷ assignment) = available (suc c) assignment
  available c (some report ∷ assignment) =
      if leb super_majority (count c)
      then report.work_report ∷ available (suc c) assignment
      else available (suc c) assignment

  abbrev pub keeps : ℕ → AvailabilityAssignment R → Option (AvailabilityAssignment R)
  keeps c report =
      if leb (report.timeout + report_timeout_grace_period) slot || leb super_majority (count c)
      then none
      else some report

  -- The reports that are neither available nor timed out stay.
  abbrev pub remaining :
      ℕ → List (Option (AvailabilityAssignment R)) → List (Option (AvailabilityAssignment R))
  remaining c [] = []
  remaining c (none ∷ assignment) = none ∷ remaining (suc c) assignment
  remaining c (some report ∷ assignment) = keeps c report ∷ remaining (suc c) assignment

  abbrev timed_out : ℕ → AvailabilityAssignment R → List ℕ
  timed_out c report =
      if leb (report.timeout + report_timeout_grace_period) slot then c ∷ [] else []

  -- The cores that the loop clears, some of them twice.
  abbrev pub clears : ℕ → List (Option (AvailabilityAssignment R)) → List ℕ
  clears c [] = []
  clears c (none ∷ assignment) = clears (suc c) assignment
  clears c (some report ∷ assignment) =
      timed_out c report
      ++ ((if leb super_majority (count c) then c ∷ [] else []) ++ clears (suc c) assignment)

  -- If every assured core has a report, the loop finds the available ones and the cores to clear.
  pub cores_loop-suffix :
      (c : ℕ) (whole before after : List (Option (AvailabilityAssignment R))) (counts : List ℕ)
      → whole ≡ before ++ after
      → length before ≡ c
      → ((d : ℕ) → d < c + length after → get_or counts d 0 ≡ count d)
      → Pending c after
      → cores_loop slot super_majority (length after) c counts whole
        ≡ ok (record { available_reports = available c after; cores_to_clear = clears c after })
  unfolding cores_loop core_turn
  cores_loop-suffix c whole before [] counts e n k p = refl
  cores_loop-suffix c whole before (none ∷ after) counts e n k p =
      let ih =
        cores_loop-suffix (suc c) whole (before ++ (none ∷ [])) after counts
          (e ∙ sym (append_assoc before (none ∷ []) after))
          (length-append before (none ∷ []) ∙ omega arith) (λ d l. k d (omega arith)) p.1 in
      let turn = get_elem?-split c whole before none after e n in
      let none_yet : get_or counts c 0 ≡ 0 = k c (omega arith) ∙ p.0 in rw (turn, none_yet, ih) refl
  cores_loop-suffix c whole before (some report ∷ after) counts e n k p =
      let ih =
        cores_loop-suffix (suc c) whole (before ++ (some report ∷ [])) after counts
          (e ∙ sym (append_assoc before (some report ∷ []) after))
          (length-append before (some report ∷ []) ∙ omega arith) (λ d l. k d (omega arith)) p in
      let turn = get_elem?-split c whole before (some report) after e n in
      let here : get_or counts c 0 ≡ count c = k c (omega arith) in
      elim (Bool-cases (leb super_majority (count c))) [
        | inl full ↦
            rw (turn, here, ih, full)
              (ap
                (λ z. ok (record {
                  available_reports = report.work_report ∷ available (suc c) after;
                  cores_to_clear = z;
                }))
                (append_assoc (timed_out c report) (c ∷ []) (clears (suc c) after)))
        | inr few ↦ rw (turn, here, ih, few) refl
      ]

  -- The loop ends without an error only if every assured core has a report.
  pub cores_loop-Pending :
      (c : ℕ) (whole before after : List (Option (AvailabilityAssignment R))) (counts : List ℕ)
      (cleared : Cleared R)
      → whole ≡ before ++ after
      → length before ≡ c
      → ((d : ℕ) → d < c + length after → get_or counts d 0 ≡ count d)
      → cores_loop slot super_majority (length after) c counts whole ≡ ok cleared
      → Pending c after
  unfolding cores_loop core_turn
  cores_loop-Pending c whole before [] counts cleared e n k p = tt
  cores_loop-Pending c whole before (none ∷ after) counts cleared e n k p =
      let (turn, t, q) =
        bind-eq-ok (core_turn slot super_majority c (get_or counts c 0) (get_elem? whole c))
          (λ turn.
            push_all turn (cores_loop slot super_majority (length after) (suc c) counts whole))
          p in
      let (last, rest, _) =
        bind-eq-ok (cores_loop slot super_majority (length after) (suc c) counts whole) _ q in
      let here = rw (get_elem?-split c whole before none after e n, k c (omega arith)) at t in
      (
        unassured slot super_majority c (count c) turn here,
        cores_loop-Pending (suc c) whole (before ++ (none ∷ [])) after counts last
            (e ∙ sym (append_assoc before (none ∷ []) after))
            (length-append before (none ∷ []) ∙ omega arith) (λ d l. k d (omega arith)) rest,
      )
  cores_loop-Pending c whole before (some report ∷ after) counts cleared e n k p =
      let (turn, t, q) =
        bind-eq-ok (core_turn slot super_majority c (get_or counts c 0) (get_elem? whole c))
          (λ turn.
            push_all turn (cores_loop slot super_majority (length after) (suc c) counts whole))
          p in
      let (last, rest, _) =
        bind-eq-ok (cores_loop slot super_majority (length after) (suc c) counts whole) _ q in
      cores_loop-Pending (suc c) whole (before ++ (some report ∷ [])) after counts last
        (e ∙ sym (append_assoc before (some report ∷ []) after))
        (length-append before (some report ∷ []) ∙ omega arith) (λ d l. k d (omega arith)) rest

  clear_cores-after :
      (c : ℕ) (before : List (Option (AvailabilityAssignment R)))
      (y : Option (AvailabilityAssignment R)) (after : List (Option (AvailabilityAssignment R)))
      → length before ≡ c
      → clear_cores (clears (suc c) after) ((before ++ (y ∷ [])) ++ after)
        ≡ (before ++ (y ∷ [])) ++ remaining (suc c) after
      → clear_cores (clears (suc c) after) (before ++ (y ∷ after))
        ≡ before ++ (y ∷ remaining (suc c) after)
  clear_cores-after c before y after n h =
      ap (clear_cores (clears (suc c) after)) (sym (append_assoc before (y ∷ []) after))
      ∙ h
      ∙ append_assoc before (y ∷ []) (remaining (suc c) after)

  -- Clearing the cores leaves the remaining reports.
  pub clear_cores-remaining :
      (c : ℕ) (before after : List (Option (AvailabilityAssignment R)))
      → length before ≡ c
      → clear_cores (clears c after) (before ++ after) ≡ before ++ remaining c after
  unfolding clear_cores
  clear_cores-remaining c before [] n = refl
  clear_cores-remaining c before (none ∷ after) n = clear_cores-after c before none after n (
      clear_cores-remaining (suc c) (before ++ (none ∷ [])) after
        (length-append before (none ∷ []) ∙ omega arith))
  clear_cores-remaining c before (some report ∷ after) n =
      let next : (y : Option (AvailabilityAssignment R))
          → clear_cores (clears (suc c) after) (before ++ (y ∷ after))
            ≡ before ++ (y ∷ remaining (suc c) after) =
        λ y. clear_cores-after c before y after n (
          clear_cores-remaining (suc c) (before ++ (y ∷ [])) after
            (length-append before (y ∷ []) ∙ omega arith)) in
      let once = set-split c before (some report) none after n in
      let again = set-split c before none none after n in
      elim (Bool-cases (leb (report.timeout + report_timeout_grace_period) slot)) [
        | inl late ↦ elim (Bool-cases (leb super_majority (count c))) [
          | inl full ↦ rw (late, full, once, again) (next none)
          | inr few ↦ rw (late, few, once) (next none)
        ]
        | inr early ↦ elim (Bool-cases (leb super_majority (count c))) [
          | inl full ↦ rw (early, full, once) (next none)
          | inr few ↦ rw (early, few) (next (some report))
        ]
      ]
