-- ===== src/Transition/AccumulateQueue.antt =====
-- packages/jam/transition/accumulate/accumulate-queue.ts: what waits for its dependencies. Of a
-- work report only what the queue reads is kept.
pub mod Prune
pub mod Order
use typeberry.Base.{
  ℕ, zero, suc, ◌%◌, ◌==◌, Bool, true, false, not, ◌&&◌, ◌||◌, List, [], ◌∷◌, ◌++◌, map, length,
  take, drop, Option, none, some, if◌then◌else◌,
}
use typeberry.Transition.HashSet.{Hash, HashSet, has, from}

pub record SegmentRoot : Type 0 where
  pub work_package_hash : Hash
  pub segment_tree_root : Hash

pub record WorkReport : Type 0 where
  pub hash : Hash
  pub prerequisites : List Hash
  pub segment_root_lookup : List SegmentRoot

pub record NotYetAccumulatedReport : Type 0 where
  pub report : WorkReport
  pub dependencies : List Hash

abbrev pub filter {ℓ} : {A : Type ℓ} → (A → Bool) → List A → List A
filter p [] = []
filter p (x ∷ xs) = if p x then x ∷ filter p xs else filter p xs

abbrev pub flat {ℓ} : {A : Type ℓ} → List (List A) → List A
flat [] = []
flat (x ∷ xs) = x ++ flat xs

-- `length === 0`
abbrev pub is_empty {ℓ} : {A : Type ℓ} → List A → Bool
is_empty [] = true
is_empty (x ∷ xs) = false

-- accumulate-utils.ts
abbrev pub package_hashes : List WorkReport → List Hash
package_hashes reports = map (λ r. r.hash) reports

unfoldable pub get_work_package_hashes : List WorkReport → HashSet
get_work_package_hashes reports = from (package_hashes reports)

-- The dependencies that are not processed.
abbrev pub pending : HashSet → List Hash → List Hash
pending processed dependencies = filter (λ d. not (has processed d)) dependencies

abbrev pub prune_item : HashSet → NotYetAccumulatedReport → NotYetAccumulatedReport
prune_item processed item = record {
  report = item.report;
  dependencies = pending processed item.dependencies;
}

unfoldable pub prune_queue : List NotYetAccumulatedReport → HashSet → List NotYetAccumulatedReport
prune_queue reports processed =
    map (prune_item processed) (filter (λ item. not (has processed (item.report).hash)) reports)

unfoldable pub immediately : List WorkReport → List WorkReport
immediately reports =
    filter (λ r. is_empty r.prerequisites && is_empty r.segment_root_lookup) reports

unfoldable pub get_dependencies : WorkReport → List Hash
get_dependencies report =
    from (report.prerequisites ++ map (λ x. x.work_package_hash) report.segment_root_lookup)

-- `recently` is the state's `recentlyAccumulated`.
unfoldable pub later : List HashSet → List WorkReport → List NotYetAccumulatedReport
unfolding prune_queue get_dependencies
later recently reports =
    prune_queue
      (map (λ r. record { report = r; dependencies = get_dependencies r })
        (filter (λ r. not (is_empty r.prerequisites) || not (is_empty r.segment_root_lookup))
          reports))
      (from (flat recently))

abbrev pub ready : List NotYetAccumulatedReport → List WorkReport
ready queue = map (λ item. item.report) (filter (λ item. is_empty item.dependencies) queue)

-- The `while` loop, on fuel: `none` is out of fuel.
unfoldable pub enqueue_loop :
    ℕ → List NotYetAccumulatedReport → List WorkReport → Option (List WorkReport)
enqueue_loop zero queue result = none
enqueue_loop (suc fuel) queue result = elim queue [
  | [] ↦ some result
  | q ∷ qs ↦ elim (ready (q ∷ qs)) [
    | [] ↦ some result
    | r ∷ rs ↦
        enqueue_loop fuel (prune_queue (q ∷ qs) (get_work_package_hashes (r ∷ rs)))
          (result ++ (r ∷ rs))
  ]
]

unfoldable pub enqueue_reports : ℕ → List NotYetAccumulatedReport → Option (List WorkReport)
enqueue_reports fuel r = enqueue_loop fuel r []

-- `queue` is the state's `accumulationQueue`, of one entry for each slot of an epoch.
unfoldable pub get_queue_from_state :
    ℕ → List (List NotYetAccumulatedReport) → ℕ → List NotYetAccumulatedReport
get_queue_from_state epoch_length queue slot =
    flat (drop (slot % epoch_length) queue ++ take (slot % epoch_length) queue)
