-- ===== src/Safrole/Sequencer.antt =====
-- The order of the tickets that seal an epoch, and the keys that do if there are too few tickets.
use typeberry.Base.{
  ℕ, zero, suc, ◌+◌, ◌-◌, ◌*◌, ◌/◌, ◌≤◌, ◌<◌, ◌≡◌, ltb, ◌==◌, ==_iff, refl, sym, ap, ◌∙◌, arith,
  Bool-cases, true, false, List, [], ◌∷◌, ◌++◌, length, length-append, append_assoc, append-nil,
  get_elem?, get_elem?-some, some, if◌then◌else◌, inl, inr,
}
use mathlib.Core.List.{Perm, perm_append_singleton}
use mathlib.Core.List.Perm
use typeberry.Safrole.{ok, Ticket, ChainSpec}
use typeberry.Safrole.Seals.{
  outside_in_sequencer, outside_in_loop, middle_ticket, reordered_tickets,
}

get_elem?-middle :
    (before : List Ticket) (y : Ticket) (after : List Ticket)
    → get_elem? (before ++ (y ∷ after)) (length before) ≡ some y
get_elem?-middle [] y after = refl
get_elem?-middle (x ∷ before) y after = get_elem?-middle before y after

get_elem?-at :
    (c : ℕ) (whole before : List Ticket) (y : Ticket) (after : List Ticket)
    → whole ≡ before ++ (y ∷ after)
    → length before ≡ c
    → get_elem? whole c ≡ some y
get_elem?-at c whole before y after e n = rw (e, sym n) (get_elem?-middle before y after)

-- A list that is not empty has a last element.
last_of :
    (x : Ticket) (xs : List Ticket)
    → (init : List Ticket) × (y : Ticket) × ((x ∷ xs) ≡ init ++ (y ∷ []))
last_of x [] = ([], x, refl)
last_of x (z ∷ xs) = let (init, y, e) = last_of z xs in (x ∷ init, y, ap (◌∷◌ x) e)

-- What stands between the tickets that the loop has taken, with the one in the middle at the end.
tail_of : List Ticket → List Ticket
tail_of whole = if ltb (2 * (length whole / 2)) (length whole) then middle_ticket whole else []

loop-Perm :
    (left : ℕ) (whole before inner after : List Ticket)
    → whole ≡ before ++ (inner ++ after)
    → length before ≡ length after
    → left ≡ length inner / 2
    → Perm (outside_in_loop left (length before) whole ++ tail_of whole) inner
unfolding outside_in_loop tail_of
loop-Perm zero whole before [] after e n h =
    let len = ap length e ∙ length-append before after in
    let even : ltb (2 * (length whole / 2)) (length whole) ≡ false = ground arith in
    rw (even) (Perm.refl [])
loop-Perm zero whole before (x ∷ []) after e n h =
    let len = ap length e ∙ length-append before (x ∷ after) in
    let odd : ltb (2 * (length whole / 2)) (length whole) ≡ true = ground arith in
    let half : length before ≡ length whole / 2 = ground arith in
    let middle = get_elem?-at (length whole / 2) whole before x after e half in
    rw (odd, middle_ticket, middle) (Perm.refl (x ∷ []))
loop-Perm zero whole before (x ∷ y ∷ inner) after e n h = absurd (ground arith)
loop-Perm (suc left) whole before [] after e n h = absurd (ground arith)
loop-Perm (suc left) whole before (x ∷ []) after e n h = absurd (ground arith)
loop-Perm (suc left) whole before (x ∷ y ∷ inner) after e n h =
    let (init, z, l) = last_of y inner in
    let e1 : whole ≡ before ++ (x ∷ (init ++ (z ∷ after))) =
      e
      ∙ ap (λ w. before ++ (x ∷ (w ++ after))) l
      ∙ ap (λ w. before ++ (x ∷ w)) (append_assoc init (z ∷ []) after) in
    let n1 = ap length l ∙ length-append init (z ∷ []) in
    let total = ap length e1 ∙ length-append before (x ∷ (init ++ (z ∷ after))) in
    let inner_ = length-append init (z ∷ after) in
    let first = length-append before (x ∷ init) in
    let nb : length (before ++ (x ∷ [])) ≡ suc (length before) =
      length-append before (x ∷ []) ∙ omega arith in
    let front = get_elem?-at (length before) whole before x (init ++ (z ∷ after)) e1 refl in
    let back =
      get_elem?-at (length whole - length before - 1) whole (before ++ (x ∷ init)) z after
        (e1 ∙ sym (append_assoc before (x ∷ init) (z ∷ after))) (omega arith) in
    let half : left ≡ length init / 2 = ground arith in
    let ih =
      loop-Perm left whole (before ++ (x ∷ [])) init (z ∷ after)
        (e1 ∙ sym (append_assoc before (x ∷ []) (init ++ (z ∷ after)))) (omega arith) half in
    let ih1 = rw (nb) at ih in
    rw (outside_in_loop, front, back, l)
      (Perm.cons x (Perm.trans (Perm.cons z ih1) (Perm.symm (perm_append_singleton z init))))

double : (k : ℕ) → 2 * suc k ≡ suc (suc (2 * k))
double k = omega arith

loop-order :
    (left i k : ℕ) (whole rest : List Ticket)
    → k < left
    → 2 * (i + left) ≤ length whole
    → (get_elem? (outside_in_loop left i whole ++ rest) (2 * k) ≡ get_elem? whole (i + k))
      × (get_elem? (outside_in_loop left i whole ++ rest) (suc (2 * k))
          ≡ get_elem? whole (length whole - (i + k) - 1))
unfolding outside_in_loop
loop-order zero i k whole rest l n = absurd (omega arith)
loop-order (suc left) i zero whole rest l n =
    let (front, e) = get_elem?-some whole i (omega arith) in
    let (back, b) = get_elem?-some whole (length whole - i - 1) (omega arith) in
    let same : i + 0 ≡ i = omega arith in rw (same, outside_in_loop, e, b) (refl, refl)
loop-order (suc left) i (suc k) whole rest l n =
    let (front, e) = get_elem?-some whole i (omega arith) in
    let (back, b) = get_elem?-some whole (length whole - i - 1) (omega arith) in
    let ih = loop-order left (suc i) k whole rest (omega arith) (omega arith) in
    let same : i + suc k ≡ suc i + k = omega arith in rw (double k, same, outside_in_loop, e, b) ih

-- The reordered tickets are the tickets in another order: in the places 2 i and 2 i + 1 of the first
-- half's turns stand the ticket i from the front and the ticket i from the back.
pub reordered_tickets-Perm :
    (all_tickets : List Ticket)
    → Perm (reordered_tickets all_tickets) all_tickets
      × ((i : ℕ)
          → i < length all_tickets / 2
          → (get_elem? (reordered_tickets all_tickets) (2 * i) ≡ get_elem? all_tickets i)
            × (get_elem? (reordered_tickets all_tickets) (suc (2 * i))
                ≡ get_elem? all_tickets (length all_tickets - i - 1)))
unfolding reordered_tickets tail_of
reordered_tickets-Perm all_tickets = (
  loop-Perm (length all_tickets / 2) all_tickets [] all_tickets [] (sym (append-nil all_tickets))
      refl refl,
  λ i l.
      let start : 0 + i ≡ i = omega arith in
      rw (start) at (
        loop-order (length all_tickets / 2) 0 i all_tickets (tail_of all_tickets) l (ground arith)),
)

length-loop :
    (left i : ℕ) (whole : List Ticket)
    → 2 * (i + left) ≤ length whole
    → length (outside_in_loop left i whole) ≡ 2 * left
unfolding outside_in_loop
length-loop zero i whole n = omega arith
length-loop (suc left) i whole n =
    let (front, e) = get_elem?-some whole i (omega arith) in
    let (back, b) = get_elem?-some whole (length whole - i - 1) (omega arith) in
    let ih = length-loop left (suc i) whole (omega arith) in
    rw (outside_in_loop, e, b) (omega arith)

length-tail_of :
    (whole : List Ticket) → length (tail_of whole) + 2 * (length whole / 2) ≡ length whole
unfolding tail_of
length-tail_of whole = elim (Bool-cases (ltb (2 * (length whole / 2)) (length whole))) [
  | inl odd ↦
      let (middle, e) = get_elem?-some whole (length whole / 2) (ground arith) in
      rw (odd, middle_ticket, e) (ground arith)
  | inr even ↦ rw (even) (ground arith)
]

-- A full accumulator gives the tickets of a whole epoch.
pub outside_in_sequencer-full :
    (spec : ChainSpec) (all_tickets : List Ticket)
    → length all_tickets ≡ spec.epoch_length
    → outside_in_sequencer spec all_tickets ≡ ok (reordered_tickets all_tickets)
unfolding outside_in_sequencer reordered_tickets tail_of
outside_in_sequencer-full spec all_tickets n =
    let loop = outside_in_loop (length all_tickets / 2) 0 all_tickets in
    let len : (length (loop ++ tail_of all_tickets) == spec.epoch_length) ≡ true = (==_iff _ _).1 (
      omega (
        arith,
        length-append loop (tail_of all_tickets),
        length-loop (length all_tickets / 2) 0 all_tickets (ground arith),
        length-tail_of all_tickets,
      )) in
    rw (len) refl
