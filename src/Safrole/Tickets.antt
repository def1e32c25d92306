-- ===== src/Safrole/Tickets.antt =====
-- The accumulator of tickets.
use typeberry.Base.{
  ℕ, zero, suc, ◌+◌, ◌≤◌, ◌<◌, ◌≡◌, ◌==◌, ltb, sym, ap, ◌∙◌, arith, Bool, Bool-cases, true, false,
  ◌||◌, not, List, [], ◌∷◌, length, take, length-take, All, Option, none, some, inl, inr,
}
use typeberry.Collections.SortedArray.{order_ranks, is_equal, is_greater}
use typeberry.Collections.SortedSet.{
  from_sorted_array, is_strictly_ascending, from_two_sorted_collections,
}
use typeberry.Collections.SortedSet.Ranks.{
  IsStrict, has_rank, All-strictly_above, is_strictly_ascending-IsStrict,
}
use typeberry.Collections.SortedSet.Merge.{from_two_sorted_collections-Union}
use typeberry.Transition.HashSet.{Hash}
use typeberry.Safrole.{
  Bytes, ok, or_throw, duplicate_ticket, bad_ticket_order, SignedTicket, Ticket, ticket_comparator,
  SafroleState, ChainSpec, Crypto, is_epoch_changed, get_slot_phase_index,
}
use typeberry.Safrole.Transition.{
  Encodings, Input, verify_tickets, tickets_of, verified_ids, merge_tickets,
  get_new_ticket_accumulator, is_extrinsic_length_valid, OkResult, transition,
}
use typeberry.Safrole.Steps.{bind-eq-ok, guard-ok, ok-injective, transition-Steps}

abbrev pub IsOrdered : List Ticket → Type 0
IsOrdered all_tickets = IsStrict ticket_comparator all_tickets

verify_tickets-IsOrdered :
    (new_tickets : List Ticket) → verify_tickets new_tickets ≡ ok tt → IsOrdered new_tickets
unfolding verify_tickets is_equal is_greater ticket_comparator
verify_tickets-IsOrdered [] h = tt
verify_tickets-IsOrdered (a ∷ []) h = (tt, tt)
verify_tickets-IsOrdered (a ∷ b ∷ rest) h =
    let (different, h1) = guard-ok (is_equal (order_ranks a.id b.id)) duplicate_ticket _ h in
    let (rising, h2) = guard-ok (is_greater (order_ranks a.id b.id)) bad_ticket_order _ h1 in
    let later = verify_tickets-IsOrdered (b ∷ rest) h2 in
    let l : a.id < b.id = ground arith in
    ((l, All-strictly_above ticket_comparator a.id b.id rest (omega arith) later.0), later)

take-All : (P : Ticket → Type 0) (n : ℕ) (xs : List Ticket) → All P xs → All P (take n xs)
take-All P zero xs h = tt
take-All P (suc n) [] h = tt
take-All P (suc n) (x ∷ xs) h = (h.0, take-All P n xs h.1)

take-IsOrdered : (n : ℕ) (xs : List Ticket) → IsOrdered xs → IsOrdered (take n xs)
take-IsOrdered zero xs s = tt
take-IsOrdered (suc n) [] s = tt
take-IsOrdered (suc n) (x ∷ xs) s = (take-All _ n xs s.0, take-IsOrdered n xs s.1)

or_throw-ok : {A : Type 0} (o : Option A) {a : A} → or_throw o ≡ ok a → o ≡ some a
or_throw-ok none h = absurd (cc)
or_throw-ok (some b) {a} h = ap some (ok-injective b a h)

checked :
    (xs ys : List Ticket)
    → from_sorted_array ticket_comparator xs ≡ some ys
    → (xs ≡ ys) × IsOrdered xs
unfolding from_sorted_array
checked xs ys h = elim (Bool-cases (is_strictly_ascending ticket_comparator xs)) [
  | inl strict ↦
      (some_same (rw (strict) at h), is_strictly_ascending-IsStrict ticket_comparator xs strict)
  | inr other ↦ absurd (let bad = rw (other) at h in cc)
]
  where
    some_same : some xs ≡ some ys → xs ≡ ys
    some_same e = cc

-- All tickets of two ordered lists without a common one, in their order.
abbrev pub IsMerged : List Ticket → List Ticket → List Ticket → Type 0
IsMerged old new_tickets merged =
    IsOrdered merged
    × (length merged ≡ length old + length new_tickets)
    × ((r : Hash)
        → has_rank ticket_comparator r merged
          ≡ (has_rank ticket_comparator r old || has_rank ticket_comparator r new_tickets))

merge_tickets-IsMerged :
    (spec : ChainSpec) (old new_tickets after : List Ticket)
    → merge_tickets spec old new_tickets ≡ ok after
    → (merged : List Ticket) × IsMerged old new_tickets merged
      × (after ≡ take spec.epoch_length merged)
unfolding merge_tickets
merge_tickets-IsMerged spec old new_tickets after h =
    let (xs, p, h1) = bind-eq-ok (or_throw (from_sorted_array ticket_comparator old)) _ h in
    let (ys, q, h2) =
      bind-eq-ok (or_throw (from_sorted_array ticket_comparator new_tickets)) _ h1 in
    let (merged, m, h3) =
      bind-eq-ok (or_throw (from_two_sorted_collections ticket_comparator xs ys)) _ h2 in
    let (same_x, strict_x) = checked old xs (or_throw-ok _ p) in
    let (same_y, strict_y) = checked new_tickets ys (or_throw-ok _ q) in
    let (s, e, strict, ranks) =
      from_two_sorted_collections-Union ticket_comparator old new_tickets strict_x strict_y in
    let m_is = rw (sym same_x, sym same_y) at m in
    let is_s : s ≡ merged = let both = sym e ∙ or_throw-ok _ m_is in cc in
    let (apart, h4) =
      guard-ok (not (length xs + length ys == length merged)) duplicate_ticket _ h3 in
    let total : length merged ≡ length old + length new_tickets =
      rw (same_x, same_y) (ground arith) in
    (merged, (rw (sym is_s) strict, total, rw (sym is_s) ranks), sym (ok-injective _ after h4))

tickets_of-length :
    (extrinsic : List SignedTicket) (ids : List Hash) (made : List Ticket)
    → tickets_of extrinsic ids ≡ ok made
    → length made ≡ length extrinsic
unfolding tickets_of
tickets_of-length [] ids made h = sym (ap length (ok-injective [] made h))
tickets_of-length (t ∷ extrinsic) [] made h = absurd (cc)
tickets_of-length (t ∷ extrinsic) (id ∷ ids) made h =
    let (others, e, h1) = bind-eq-ok (tickets_of extrinsic ids) _ h in
    let ih = tickets_of-length extrinsic ids others e in
    let n = ap length (ok-injective _ made h1) in omega arith

-- A new epoch starts with the new tickets alone; in the same epoch they and the old ones are merged,
-- and the lowest are kept, as many as an epoch has slots.
abbrev pub IsAccumulated : ChainSpec → Bool → List Ticket → List Ticket → List Ticket → Type 0
IsAccumulated spec true old new_tickets after = after ≡ new_tickets
IsAccumulated spec false old new_tickets after =
    (merged : List Ticket) × IsMerged old new_tickets merged
    × (after ≡ take spec.epoch_length merged)

module _ (crypto : Crypto) (spec : ChainSpec) (state : SafroleState) (slot validators : ℕ)
    (epoch_root entropy : Bytes) where
  get_new_ticket_accumulator-IsAccumulated :
      (extrinsic : List SignedTicket) (after : List Ticket)
      → get_new_ticket_accumulator crypto spec state slot extrinsic validators epoch_root entropy
        ≡ ok after
      → (ids : List Hash) × (new_tickets : List Ticket) × (verified_ids crypto validators epoch_root
            extrinsic entropy
          ≡ ok ids)
        × (tickets_of extrinsic ids ≡ ok new_tickets)
        × IsOrdered new_tickets
        × IsAccumulated spec
            (is_epoch_changed spec state slot)
            state.tickets_accumulator
            new_tickets
            after
  unfolding get_new_ticket_accumulator
  get_new_ticket_accumulator-IsAccumulated extrinsic after h =
      let (ids, v, h1) =
        bind-eq-ok (verified_ids crypto validators epoch_root extrinsic entropy) _ h in
      let (new_tickets, t, h2) = bind-eq-ok (tickets_of extrinsic ids) _ h1 in
      let (_, o, h3) = bind-eq-ok (verify_tickets new_tickets) _ h2 in
      (
        ids,
        new_tickets,
        v,
        t,
        verify_tickets-IsOrdered new_tickets o,
        elim (Bool-cases (is_epoch_changed spec state slot)) [
          | inl new ↦ rw (new) (sym (ok-injective new_tickets after (rw (new) at h3)))
          | inr old ↦ rw (old) (
              merge_tickets-IsMerged spec state.tickets_accumulator new_tickets after
                (rw (old) at h3))
        ],
      )

few_tickets :
    (spec : ChainSpec) (slot : ℕ) (extrinsic : List SignedTicket)
    → not (is_extrinsic_length_valid spec slot extrinsic) ≡ false
    → spec.max_tickets_per_extrinsic ≤ spec.epoch_length
    → length extrinsic ≤ spec.epoch_length
unfolding is_extrinsic_length_valid
few_tickets spec slot extrinsic h l =
    elim (Bool-cases (ltb (get_slot_phase_index spec slot) spec.contest_length)) [
      | inl open_ ↦ let h1 = rw (open_) at h in ground arith
      | inr closed ↦ let h1 = rw (closed) at h in ground arith
    ]

module _ (crypto : Crypto) (encodings : Encodings) (spec : ChainSpec) (state : SafroleState)
    (input : Input) (result : OkResult)
    (done : transition crypto encodings spec state input ≡ ok result) where
  -- If the chain allows at most as many tickets in a block as an epoch has slots, then after a block
  -- that is accepted the accumulator is ordered by the tickets' identifiers without duplicates and not
  -- longer than an epoch. The tickets of the block have good proofs for the new epoch root and the
  -- entropy of the epoch, and are ordered too. The accumulator has these alone if the epoch is new,
  -- else the lowest of all that the state and the block have, between them no ticket twice.
  pub transition-IsAccumulated :
      spec.max_tickets_per_extrinsic ≤ spec.epoch_length
      → IsOrdered result.state_update.tickets_accumulator
        × (length result.state_update.tickets_accumulator ≤ spec.epoch_length)
        × ((ids : List Hash) × (new_tickets : List Ticket) × (verified_ids crypto
                (length state.validators.next_validator_data)
                result.state_update.validators.epoch_root
                input.extrinsic
                result.state_update.entropy.e2
              ≡ ok ids)
            × (tickets_of input.extrinsic ids ≡ ok new_tickets)
            × IsOrdered new_tickets
            × IsAccumulated spec
                (is_epoch_changed spec state input.slot)
                state.tickets_accumulator
                new_tickets
                result.state_update.tickets_accumulator)
  transition-IsAccumulated l =
      let steps = transition-Steps crypto encodings spec state input result done in
      let (ids, new_tickets, v, t, o, a) =
        get_new_ticket_accumulator-IsAccumulated crypto spec state input.slot _ _ _ input.extrinsic
          steps.accumulator steps.accumulator_made in
      let few = few_tickets spec input.slot input.extrinsic steps.few l in
      let n = tickets_of-length input.extrinsic ids new_tickets t in
      rw (sym steps.made) (
        elim (Bool-cases (is_epoch_changed spec state input.slot)) [
          | inl new ↦ rw (rw (new) at a) o
          | inr old ↦
              let (merged, (strict, _, _), e) = rw (old) at a in
              rw (e) (take-IsOrdered spec.epoch_length merged strict)
        ],
        elim (Bool-cases (is_epoch_changed spec state input.slot)) [
          | inl new ↦ let e = ap length (rw (new) at a) in omega arith
          | inr old ↦
              let (merged, _, e) = rw (old) at a in
              omega (arith, ap length e, length-take spec.epoch_length merged)
        ],
        (ids, new_tickets, v, t, o, a),
      )
