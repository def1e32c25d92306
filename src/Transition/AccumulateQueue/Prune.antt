-- ===== src/Transition/AccumulateQueue/Prune.antt =====
-- What pruning a queue leaves.
use typeberry.Base.{
  ◌≤◌, ◌<◌, ◌≡◌, refl, ap, ◌∙◌, arith, Bool-cases, true, false, not, List, [], ◌∷◌, ◌++◌, length,
  inl, inr, if◌then◌else◌,
}
use typeberry.Transition.HashSet.{Hash, HashSet, has, has-append}
use typeberry.Transition.AccumulateQueue.{
  NotYetAccumulatedReport, WorkReport, prune_queue, prune_item, pending, is_empty, ready,
}

pending-pending : (s t : HashSet) (ds : List Hash) → pending t (pending s ds) ≡ pending (s ++ t) ds
pending-pending s t [] = refl
pending-pending s t (d ∷ ds) = elim (Bool-cases (has s d)) [
  | inl e ↦ rw (has-append s t d, e) (pending-pending s t ds)
  | inr e ↦ elim (Bool-cases (has t d)) [
    | inl g ↦ rw (has-append s t d, e, g) (pending-pending s t ds)
    | inr g ↦ rw (has-append s t d, e, g) (ap (◌∷◌ d) (pending-pending s t ds))
  ]
]

pub prune_queue-cons-in :
    (q : NotYetAccumulatedReport) (qs : List NotYetAccumulatedReport) (s : HashSet)
    → has s (q.report).hash ≡ true
    → prune_queue (q ∷ qs) s ≡ prune_queue qs s
unfolding prune_queue
prune_queue-cons-in q qs s e = rw (e) refl

pub prune_queue-cons-out :
    (q : NotYetAccumulatedReport) (qs : List NotYetAccumulatedReport) (s : HashSet)
    → has s (q.report).hash ≡ false
    → prune_queue (q ∷ qs) s ≡ (prune_item s q ∷ prune_queue qs s)
unfolding prune_queue
prune_queue-cons-out q qs s e = rw (e) refl

-- Pruning with one set and then another is pruning with both.
pub prune_queue-prune_queue :
    (qs : List NotYetAccumulatedReport) (s t : HashSet)
    → prune_queue (prune_queue qs s) t ≡ prune_queue qs (s ++ t)
prune_queue-prune_queue [] s t = unfold prune_queue in refl
prune_queue-prune_queue (q ∷ qs) s t = elim (Bool-cases (has s (q.report).hash)) [
  | inl e ↦
      rw
        (
          prune_queue-cons-in q qs s e,
          prune_queue-cons-in q qs (s ++ t) (ground (arith, has-append s t (q.report).hash)),
        )
        (prune_queue-prune_queue qs s t)
  | inr e ↦ elim (Bool-cases (has t (q.report).hash)) [
    | inl g ↦
        rw
          (
            prune_queue-cons-out q qs s e,
            prune_queue-cons-in (prune_item s q) (prune_queue qs s) t g,
            prune_queue-cons-in q qs (s ++ t) (ground (arith, has-append s t (q.report).hash)),
          )
          (prune_queue-prune_queue qs s t)
    | inr g ↦
        rw
          (
            prune_queue-cons-out q qs s e,
            prune_queue-cons-out (prune_item s q) (prune_queue qs s) t g,
            prune_queue-cons-out q qs (s ++ t) (ground (arith, has-append s t (q.report).hash)),
            prune_queue-prune_queue qs s t,
            pending-pending s t q.dependencies,
          )
          refl
  ]
]

pending-ext :
    (s t : HashSet) (ds : List Hash)
    → ((h : Hash) → has s h ≡ has t h)
    → pending s ds ≡ pending t ds
pending-ext s t [] same = refl
pending-ext s t (d ∷ ds) same =
    rw (same d) (ap (λ z. if not (has t d) then d ∷ z else z) (pending-ext s t ds same))

pub prune_queue-ext :
    (qs : List NotYetAccumulatedReport) (s t : HashSet)
    → ((h : Hash) → has s h ≡ has t h)
    → prune_queue qs s ≡ prune_queue qs t
prune_queue-ext [] s t same = unfold prune_queue in refl
prune_queue-ext (q ∷ qs) s t same = elim (Bool-cases (has s (q.report).hash)) [
  | inl e ↦
      rw
        (
          prune_queue-cons-in q qs s e,
          prune_queue-cons-in q qs t (ground (arith, same (q.report).hash)),
        )
        (prune_queue-ext qs s t same)
  | inr e ↦
      rw
        (
          prune_queue-cons-out q qs s e,
          prune_queue-cons-out q qs t (ground (arith, same (q.report).hash)),
          prune_queue-ext qs s t same,
          pending-ext s t q.dependencies same,
        )
        refl
]

pending-none : (ds : List Hash) → pending [] ds ≡ ds
pending-none [] = refl
pending-none (d ∷ ds) = ap (◌∷◌ d) (pending-none ds)

pub prune_queue-none : (qs : List NotYetAccumulatedReport) → prune_queue qs [] ≡ qs
prune_queue-none [] = unfold prune_queue in refl
prune_queue-none (q ∷ qs) =
    rw (prune_queue-cons-out q qs [] refl, prune_queue-none qs, pending-none q.dependencies) refl

length-prune_queue :
    (qs : List NotYetAccumulatedReport) (s : HashSet) → length (prune_queue qs s) ≤ length qs
length-prune_queue [] s = unfold prune_queue in omega arith
length-prune_queue (q ∷ qs) s = elim (Bool-cases (has s (q.report).hash)) [
  | inl e ↦ rw (prune_queue-cons-in q qs s e) (omega (arith, length-prune_queue qs s))
  | inr e ↦ rw (prune_queue-cons-out q qs s e) (omega (arith, length-prune_queue qs s))
]

-- Pruning with a set that has the first ready report makes the queue shorter.
pub length-prune_queue-ready :
    (qs : List NotYetAccumulatedReport) (s : HashSet) (w : WorkReport) (ws : List WorkReport)
    → ready qs ≡ (w ∷ ws)
    → has s w.hash ≡ true
    → length (prune_queue qs s) < length qs
length-prune_queue-ready [] s w ws h e = absurd (cc)
length-prune_queue-ready (q ∷ qs) s w ws h e = elim (Bool-cases (is_empty q.dependencies)) [
  | inl now ↦
      let front : (q.report ∷ ready qs) ≡ (w ∷ ws) = rw now at h in
      let same : q.report ≡ w = cc in
      rw (prune_queue-cons-in q qs s (ap (λ x. has s x.hash) same ∙ e))
        (omega (arith, length-prune_queue qs s))
  | inr wait ↦
      let rest : ready qs ≡ (w ∷ ws) = rw wait at h in
      let shorter = length-prune_queue-ready qs s w ws rest e in
      elim (Bool-cases (has s (q.report).hash)) [
        | inl g ↦ rw (prune_queue-cons-in q qs s g) (omega arith)
        | inr g ↦ rw (prune_queue-cons-out q qs s g) (omega arith)
      ]
]
