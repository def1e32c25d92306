-- ===== src/Transition/Disputes/Updates/Records.antt =====
-- The records after a transition.
use typeberry.Base.{
  ℕ, ◌≡◌, refl, sym, ap, ◌∙◌, arith, Bool, Bool-cases, false, ◌==◌, ◌||◌, List, [], ◌∷◌, ◌++◌, map,
  inl, inr,
}
use typeberry.Collections.SortedSet.{to_sorted, from_two_sorted_collections}
use typeberry.Collections.SortedSet.Ranks.{IsStrict, has_rank}
use typeberry.Collections.SortedSet.Merge.{from_two_sorted_collections-Union}
use typeberry.Collections.SortedSet.Unique.{
  IsDistinct, to_sorted-has_rank, to_sorted-IsStrict, from_array_unique-distinct,
}
use typeberry.Transition.HashSet.{
  Hash, HashSet, has, insert, insert_all, has-append, has-insert_all,
}
use typeberry.Transition.Disputes.{
  ok, or_throw, Culprit, Fault, DisputesExtrinsic, DisputesRecords, hash_comparator, ChainSpec,
  VotesForWorkReports,
}
use typeberry.Transition.Disputes.Updates.{
  select, is_good, is_bad, is_wonky, get_disputes_records_new_items, get_offenders,
  get_updated_disputes_records,
}
use typeberry.Transition.Disputes.Updates.Votes.{has_rank-has, AreUnique, select-IsDistinct}

-- Each set ascends without duplicates.
abbrev pub AreSets : DisputesRecords → Type 0
AreSets records =
    IsStrict hash_comparator records.good_set
    × IsStrict hash_comparator records.bad_set
    × IsStrict hash_comparator records.wonky_set
    × IsStrict hash_comparator records.punish_set

-- Sorting the elements of a set keeps them.
pub has-to_sorted : (xs : List Hash) (h : Hash) → has (to_sorted hash_comparator xs) h ≡ has xs h
has-to_sorted xs h =
    sym (has_rank-has h (to_sorted hash_comparator xs))
    ∙ to_sorted-has_rank hash_comparator h xs
    ∙ has_rank-has h xs

pub union :
    (xs ys : List Hash)
    → IsStrict hash_comparator xs
    → IsStrict hash_comparator ys
    → (s : List Hash) × (or_throw (from_two_sorted_collections hash_comparator xs ys) ≡ ok s)
      × IsStrict hash_comparator s
      × ((h : Hash) → has s h ≡ (has xs h || has ys h))
union xs ys a b =
    let (s, e, strict, h) = from_two_sorted_collections-Union hash_comparator xs ys a b in
    (
      s,
      ap or_throw e,
      strict,
      λ x.
          sym (has_rank-has x s)
          ∙ h x
          ∙ ap (λ z. z || has_rank hash_comparator x ys) (has_rank-has x xs)
          ∙ ap (◌||◌ (has xs x)) (has_rank-has x ys),
    )

module _ (spec : ChainSpec) (v : VotesForWorkReports) where
  abbrev pub new_items : DisputesRecords
  new_items = record {
    good_set = to_sorted hash_comparator (select (is_good spec) v);
    bad_set = to_sorted hash_comparator (select (is_bad spec) v);
    wonky_set = to_sorted hash_comparator (select (is_wonky spec) v);
    punish_set = [];
  }

  -- The new items are made without an error.
  pub get_disputes_records_new_items-made :
      AreUnique v → get_disputes_records_new_items spec v ≡ ok new_items
  unfolding get_disputes_records_new_items
  get_disputes_records_new_items-made u =
      let made = λ (branch : ℕ → Bool).
        from_array_unique-distinct hash_comparator (select branch v)
          (select-IsDistinct branch v u) in
      rw (made (is_good spec), made (is_bad spec), made (is_wonky spec)) refl

insert-IsDistinct :
    (s : HashSet) (x : Hash)
    → IsDistinct hash_comparator s
    → IsDistinct hash_comparator (insert s x)
insert-IsDistinct s x d = elim (Bool-cases (has s x)) [
  | inl there ↦ rw (there) d
  | inr new ↦ rw (new) (place s x d new)
]
  where
    place :
        (s : HashSet) (x : Hash)
        → IsDistinct hash_comparator s
        → has s x ≡ false
        → IsDistinct hash_comparator (s ++ (x ∷ []))
    place [] x d h = (refl, tt)
    place (y ∷ s) x d h =
        let other : (y == x) ≡ false = ground arith in
        let later : has s x ≡ false = ground arith in
        let here : has (s ++ (x ∷ [])) y ≡ false =
          has-append s (x ∷ []) y
          ∙ ap (λ z. z || (y == x || false)) (sym (has_rank-has y s) ∙ d.0)
          ∙ ap (λ z. z || false) other in
        (has_rank-has y (s ++ (x ∷ [])) ∙ here, place s x d.1 later)

insert_all-IsDistinct :
    (s : HashSet) (xs : List Hash)
    → IsDistinct hash_comparator s
    → IsDistinct hash_comparator (insert_all s xs)
insert_all-IsDistinct s [] d = d
insert_all-IsDistinct s (x ∷ xs) d = insert_all-IsDistinct (insert s x) xs (insert-IsDistinct s x d)

module _ (disputes : DisputesExtrinsic) where
  abbrev pub culprit_keys : List Hash
  culprit_keys = map (λ (c : Culprit). c.key) disputes.culprits

  abbrev pub fault_keys : List Hash
  fault_keys = map (λ (f : Fault). f.key) disputes.faults

  -- The offenders are the keys of culprits and faults.
  pub has-get_offenders :
      (h : Hash) → has (get_offenders disputes) h ≡ (has culprit_keys h || has fault_keys h)
  unfolding get_offenders
  has-get_offenders h =
      has-insert_all (insert_all [] culprit_keys) fault_keys h
      ∙ ap (λ z. z || has fault_keys h) (has-insert_all [] culprit_keys h)

  pub get_offenders-IsDistinct : IsDistinct hash_comparator (get_offenders disputes)
  unfolding get_offenders
  get_offenders-IsDistinct =
      insert_all-IsDistinct (insert_all [] culprit_keys) fault_keys
        (insert_all-IsDistinct [] culprit_keys tt)

-- Each set grows by the new items, and the punished by the offenders.
abbrev pub AreUpdated : DisputesRecords → DisputesRecords → HashSet → DisputesRecords → Type 0
AreUpdated old new_ offenders after =
    (h : Hash)
    → (has after.good_set h ≡ (has old.good_set h || has new_.good_set h))
      × (has after.bad_set h ≡ (has old.bad_set h || has new_.bad_set h))
      × (has after.wonky_set h ≡ (has old.wonky_set h || has new_.wonky_set h))
      × (has after.punish_set h ≡ (has old.punish_set h || has offenders h))

module _ (spec : ChainSpec) (v : VotesForWorkReports) (records : DisputesRecords)
    (offenders : HashSet) where
  -- Sets are updated to sets, without an error.
  pub get_updated_disputes_records-AreUpdated :
      AreSets records
      → AreUnique v
      → IsDistinct hash_comparator offenders
      → (after : DisputesRecords) × (get_updated_disputes_records records
            (new_items spec v)
            offenders
          ≡ ok after)
        × AreSets after
        × AreUpdated records (new_items spec v) offenders after
  unfolding get_updated_disputes_records
  get_updated_disputes_records-AreUpdated (a, b, w, p) u d =
      let strict = λ (branch : ℕ → Bool).
        to_sorted-IsStrict hash_comparator (select branch v) (select-IsDistinct branch v u) in
      let (good, good_e, good_s, good_h) =
        union records.good_set (new_items spec v).good_set a (strict (is_good spec)) in
      let (bad_, bad_e, bad_s, bad_h) =
        union records.bad_set (new_items spec v).bad_set b (strict (is_bad spec)) in
      let (wonky, wonky_e, wonky_s, wonky_h) =
        union records.wonky_set (new_items spec v).wonky_set w (strict (is_wonky spec)) in
      let (punish, punish_e, punish_s, punish_h) =
        union records.punish_set (to_sorted hash_comparator offenders) p
          (to_sorted-IsStrict hash_comparator offenders d) in
      (
        record { good_set = good; bad_set = bad_; wonky_set = wonky; punish_set = punish },
        rw (good_e, bad_e, wonky_e, punish_e) refl,
        (good_s, bad_s, wonky_s, punish_s),
        λ h. (
          good_h h,
          bad_h h,
          wonky_h h,
          punish_h h ∙ ap (◌||◌ (has records.punish_set h)) (has-to_sorted offenders h),
        ),
      )
