-- ===== src/Transition/AccumulateQueue/Order.antt =====
-- The order in which waiting reports are accumulated, and that the loop ends.
use typeberry.Base.{
  ℕ, zero, suc, ◌<◌, ◌≡◌, ◌⊎◌, refl, sym, ap, ◌∙◌, arith, Bool-cases, true, false, List, [], ◌∷◌,
  ◌++◌, length, inl, inr, All, get_elem?, append-nil, append_assoc, Option, some, List-cases,
}
use mathlib.Core.Path.{subst}
use typeberry.Transition.HashSet.{Hash, HashSet, has, has-append, has-from}
use typeberry.Transition.AccumulateQueue.{
  NotYetAccumulatedReport, WorkReport, prune_queue, prune_item, pending, is_empty, ready,
  package_hashes, get_work_package_hashes, enqueue_loop, enqueue_reports,
}
use typeberry.Transition.AccumulateQueue.Prune.{
  prune_queue-cons-in, prune_queue-cons-out, prune_queue-prune_queue, prune_queue-ext,
  prune_queue-none, length-prune_queue-ready,
}

-- All of `ds` are in the set.
abbrev pub Met : HashSet → List Hash → Type 0
Met s ds = All (λ d. has s d ≡ true) ds

Met-pending : (s : HashSet) (ds : List Hash) → is_empty (pending s ds) ≡ true → Met s ds
Met-pending s [] h = tt
Met-pending s (d ∷ ds) h = elim (Bool-cases (has s d)) [
  | inl e ↦ (e, Met-pending s ds (rw e at h))
  | inr e ↦ let f : false ≡ true = rw e at h in absurd (cc)
]

pending-Met : (s : HashSet) (ds : List Hash) → Met s ds → is_empty (pending s ds) ≡ true
pending-Met s [] m = refl
pending-Met s (d ∷ ds) m = rw (m.0) (pending-Met s ds m.1)

Met-append : (s t : HashSet) (ds : List Hash) → Met s ds → Met (s ++ t) ds
Met-append s t [] m = tt
Met-append s t (d ∷ ds) m = (ground (arith, m.0, has-append s t d), Met-append s t ds m.1)

-- `w` is the report of an item of `r` with dependencies in `seen` only.
abbrev pub Supported : List NotYetAccumulatedReport → HashSet → WorkReport → Type 0
Supported r seen w =
    (i : ℕ) × (item : NotYetAccumulatedReport) × (get_elem? r i ≡ some item)
    × (item.report ≡ w)
    × Met seen item.dependencies

-- Each report has its dependencies in `seen` or before it in the list.
abbrev pub Ordered : List NotYetAccumulatedReport → HashSet → List WorkReport → Type 0
Ordered r seen [] = Unit {0}
Ordered r seen (w ∷ ws) = Supported r seen w × Ordered r (seen ++ (w.hash ∷ [])) ws

-- An item of `r` that was left out lacks one of its dependencies.
abbrev pub Settled : List NotYetAccumulatedReport → List WorkReport → Type 0
Settled r out =
    All
      (λ item.
        (has (package_hashes out) (item.report).hash ≡ true)
        ⊎ (¬ Met (package_hashes out) item.dependencies))
      r

Supported-cons :
    (q : NotYetAccumulatedReport) (qs : List NotYetAccumulatedReport) (s : HashSet)
    (ws : List WorkReport)
    → All (Supported qs s) ws
    → All (Supported (q ∷ qs) s) ws
Supported-cons q qs s [] h = tt
Supported-cons q qs s (w ∷ ws) h =
    let (i, item, e, same, m) = h.0 in ((suc i, item, e, same, m), Supported-cons q qs s ws h.1)

-- What is ready in a pruned queue has its dependencies in the set it was pruned with.
ready-Supported :
    (qs : List NotYetAccumulatedReport) (s : HashSet)
    → All (Supported qs s) (ready (prune_queue qs s))
ready-Supported [] s = unfold prune_queue in tt
ready-Supported (q ∷ qs) s = elim (Bool-cases (has s (q.report).hash)) [
  | inl e ↦
      rw (prune_queue-cons-in q qs s e)
        (Supported-cons q qs s (ready (prune_queue qs s)) (ready-Supported qs s))
  | inr e ↦ elim (Bool-cases (is_empty (pending s q.dependencies))) [
    | inl now ↦
        rw (prune_queue-cons-out q qs s e, now)
          (
            (0, q, refl, refl, Met-pending s q.dependencies now),
            Supported-cons q qs s (ready (prune_queue qs s)) (ready-Supported qs s),
          )
    | inr wait ↦
        rw (prune_queue-cons-out q qs s e, wait)
          (Supported-cons q qs s (ready (prune_queue qs s)) (ready-Supported qs s))
  ]
]

Ordered-All :
    (r : List NotYetAccumulatedReport) (s t : HashSet) (ws : List WorkReport)
    → All (Supported r s) ws
    → Ordered r (s ++ t) ws
Ordered-All r s t [] h = tt
Ordered-All r s t (w ∷ ws) h =
    let (i, item, e, same, m) = h.0 in
    (
      (i, item, e, same, Met-append s t item.dependencies m),
      rw (append_assoc s t (w.hash ∷ [])) (Ordered-All r s (t ++ (w.hash ∷ [])) ws h.1),
    )

Ordered-append :
    (r : List NotYetAccumulatedReport) (s : HashSet) (xs ys : List WorkReport)
    → Ordered r s xs
    → Ordered r (s ++ package_hashes xs) ys
    → Ordered r s (xs ++ ys)
Ordered-append r s [] ys h k = rw (sym (append-nil s)) k
Ordered-append r s (x ∷ xs) ys h k = (
  h.0,
  Ordered-append r (s ++ (x.hash ∷ [])) xs ys h.1
      (rw (append_assoc s (x.hash ∷ []) (package_hashes xs)) k),
)

package_hashes-append :
    (xs ys : List WorkReport) → package_hashes (xs ++ ys) ≡ package_hashes xs ++ package_hashes ys
package_hashes-append [] ys = refl
package_hashes-append (x ∷ xs) ys = ap (◌∷◌ x.hash) (package_hashes-append xs ys)

-- One turn of the loop keeps the queue the list `r` pruned with what was found ready.
prune-turn :
    (r : List NotYetAccumulatedReport) (result ws : List WorkReport)
    → prune_queue (prune_queue r (package_hashes result)) (get_work_package_hashes ws)
      ≡ prune_queue r (package_hashes (result ++ ws))
unfolding get_work_package_hashes
prune-turn r result ws =
    prune_queue-ext _ _ _ (has-from (package_hashes ws))
    ∙ prune_queue-prune_queue r (package_hashes result) (package_hashes ws)
    ∙ ap (prune_queue r) (sym (package_hashes-append result ws))

Settled-none :
    (qs : List NotYetAccumulatedReport) (out : List WorkReport)
    → ready (prune_queue qs (package_hashes out)) ≡ []
    → Settled qs out
Settled-none [] out h = tt
Settled-none (q ∷ qs) out h = elim (Bool-cases (has (package_hashes out) (q.report).hash)) [
  | inl e ↦ (inl e, Settled-none qs out (rw (prune_queue-cons-in q qs _ e) at h))
  | inr e ↦
      let cut : ready (prune_item (package_hashes out) q ∷ prune_queue qs (package_hashes out))
          ≡ [] =
        rw (prune_queue-cons-out q qs _ e) at h in
      elim (Bool-cases (is_empty (pending (package_hashes out) q.dependencies))) [
        | inl now ↦
            let f : (q.report ∷ ready (prune_queue qs (package_hashes out))) ≡ [] = rw now at cut in
            absurd (cc)
        | inr wait ↦ (
          inr (λ m. let met = pending-Met (package_hashes out) q.dependencies m in absurd (cc)),
          Settled-none qs out (rw wait at cut),
        )
      ]
]

head_hash :
    (w : WorkReport) (ws : List WorkReport) → has (get_work_package_hashes (w ∷ ws)) w.hash ≡ true
unfolding get_work_package_hashes
head_hash w ws = has-from (package_hashes (w ∷ ws)) w.hash ∙ ground (arith)

-- What the loop returns from a turn on.
abbrev Enqueued : List NotYetAccumulatedReport → Option (List WorkReport) → Type 0
Enqueued r o = (out : List WorkReport) × (o ≡ some out) × Ordered r [] out × Settled r out

loop-Enqueued :
    (r : List NotYetAccumulatedReport) (fuel : ℕ) (queue : List NotYetAccumulatedReport)
    (result : List WorkReport)
    → length queue < fuel
    → queue ≡ prune_queue r (package_hashes result)
    → Ordered r [] result
    → Enqueued r (enqueue_loop fuel queue result)
unfolding enqueue_loop
loop-Enqueued r zero queue result h e o = absurd (omega arith)
loop-Enqueued r (suc fuel) [] result h e o =
    (result, refl, o, Settled-none r result (ap ready (sym e)))
loop-Enqueued r (suc fuel) (q ∷ qs) result h e o = elim (List-cases (ready (q ∷ qs))) [
  | inl none_ ↦
      rw (none_, enqueue_loop) (result, refl, o, Settled-none r result (ap ready (sym e) ∙ none_))
  | inr (w, ws, some_) ↦
      let next : prune_queue (q ∷ qs) (get_work_package_hashes (w ∷ ws))
          ≡ prune_queue r (package_hashes (result ++ (w ∷ ws))) =
        ap (λ z. prune_queue z (get_work_package_hashes (w ∷ ws))) e
        ∙ prune-turn r result (w ∷ ws) in
      let batch : All (Supported r (package_hashes result)) (w ∷ ws) =
        subst (All (Supported r (package_hashes result))) (ap ready (sym e) ∙ some_)
          (ready-Supported r (package_hashes result)) in
      let shorter =
        length-prune_queue-ready (q ∷ qs) (get_work_package_hashes (w ∷ ws)) w ws some_
          (head_hash w ws) in
      rw (some_, enqueue_loop)
        (loop-Enqueued r fuel (prune_queue (q ∷ qs) (get_work_package_hashes (w ∷ ws)))
          (result ++ (w ∷ ws)) (omega arith) next
          (Ordered-append r [] result (w ∷ ws) o (
            subst (λ z. Ordered r z (w ∷ ws)) (append-nil (package_hashes result))
              (Ordered-All r (package_hashes result) [] (w ∷ ws) batch))))
]

-- With more fuel than there are items the loop ends; a report of the result has its dependencies
-- before it in the result, and an item that is left lacks a dependency.
pub enqueue_reports-Ordered :
    (fuel : ℕ) (r : List NotYetAccumulatedReport)
    → length r < fuel
    → (out : List WorkReport) × (enqueue_reports fuel r ≡ some out)
      × Ordered r [] out
      × Settled r out
unfolding enqueue_reports
enqueue_reports-Ordered fuel r h = loop-Enqueued r fuel r [] h (sym (prune_queue-none r)) tt
