-- ===== src/Tests/Transition.antt =====
-- Runs of the state transitions and of the finalizer.
use typeberry.Base.{
  ℕ, ◌<◌, ◌≡◌, ◌==◌, refl, arith, List, [], ◌∷◌, length, get_elem?, replicate, none, some,
  if◌then◌else◌, Bool-cases, inl, inr,
}
use typeberry.Transition.HashSet.{Hash}
use typeberry.Transition.AccumulateQueue.{
  WorkReport, NotYetAccumulatedReport, prune_queue, enqueue_reports, enqueue_loop,
  get_work_package_hashes,
}
use typeberry.Transition.AccumulateQueue.Prune.{prune_queue-prune_queue}
use typeberry.Transition.AccumulateQueue.Order.{Ordered, Settled, enqueue_reports-Ordered}
use typeberry.Transition.Authorization.{
  AuthorizationState, AuthorizationInput, remove_used, transition,
}
use typeberry.Transition.Authorization.Pool.{count, Refilled, AreDistinct, count-remove_used}
use typeberry.Transition.Authorization.Cores.{transition-Refilled}

-- The report with a hash, and what waits for it.
abbrev report : Hash → WorkReport
report h = record { hash = h; prerequisites = []; segment_root_lookup = [] }

abbrev waits : Hash → List Hash → NotYetAccumulatedReport
waits h dependencies = record { report = report h; dependencies = dependencies }

-- Report 1 waits for 2, which waits for nothing, and 3 for one that never comes.
abbrev queue : List NotYetAccumulatedReport
queue = waits 1 (2 ∷ []) ∷ waits 2 [] ∷ waits 3 (9 ∷ []) ∷ []

in_order : enqueue_reports 4 queue ≡ some (report 2 ∷ report 1 ∷ [])
unfolding enqueue_reports enqueue_loop prune_queue get_work_package_hashes
in_order = refl

enqueue_reports-Ordered_example :
    (out : List WorkReport) × (enqueue_reports 4 queue ≡ some out)
    × Ordered queue [] out
    × Settled queue out
enqueue_reports-Ordered_example = enqueue_reports-Ordered 4 queue (omega arith)

prune_queue-prune_queue_example :
    prune_queue (prune_queue queue (2 ∷ [])) (9 ∷ []) ≡ prune_queue queue (2 ∷ 9 ∷ [])
prune_queue-prune_queue_example = prune_queue-prune_queue queue (2 ∷ []) (9 ∷ [])

-- One of the two occurrences of a used authorizer goes.
left_most : remove_used (5 ∷ []) (4 ∷ 5 ∷ 5 ∷ []) ≡ 4 ∷ 5 ∷ []
unfolding remove_used
left_most = refl

count-remove_used_example : count 5 (remove_used (5 ∷ []) (4 ∷ 5 ∷ 5 ∷ [])) ≡ 1
count-remove_used_example = count-remove_used (5 ∷ []) (4 ∷ 5 ∷ 5 ∷ []) 5 (refl, tt)

abbrev authorizations : AuthorizationState
authorizations = record { auth_pools = (4 ∷ 5 ∷ 5 ∷ []) ∷ []; auth_queues = replicate 80 7 ∷ [] }

abbrev block : AuthorizationInput
block = record { slot = 81; used = λ core. if core == 0 then some (5 ∷ []) else none }

used_once : (core : ℕ) → AreDistinct (block.used core)
used_once core = elim (Bool-cases (core == 0)) [ inl e ↦ rw (e) (refl, tt) | inr e ↦ rw (e) tt ]

transition-Refilled_example :
    (after : List (List Hash)) × (transition 1 authorizations block ≡ some after)
    × (length after ≡ 1)
    × ((core : ℕ)
        → core < 1
        → (p : List Hash) × (get_elem? after core ≡ some p) × Refilled authorizations block core p)
transition-Refilled_example =
    transition-Refilled 1 authorizations block (refl, refl, (refl, tt)) used_once
