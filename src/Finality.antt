-- ===== src/Finality.antt =====
-- packages/workers/importer/finality.ts: the finalizer that counts the blocks built on top.
pub mod Bounds
pub mod Pruning
use typeberry.Base.{
  ℕ, zero, suc, ◌+◌, ◌-◌, ◌*◌, ◌==◌, Bool, true, false, leb, List, [], ◌∷◌, ◌++◌, length, take,
  drop, get_elem?, Option, none, some, if◌then◌else◌,
}
use typeberry.Transition.HashSet.{Hash}
use typeberry.Transition.AccumulateQueue.{is_empty}

abbrev pub Chain : Type 0
Chain = List Hash

pub record Finalizer : Type 0 where
  pub last_finalized_hash : Hash
  pub unfinalized : List Chain

pub record FinalityResult : Type 0 where
  pub finalized_hash : Hash
  pub finalized_chain : Chain
  pub newly_finalized_headers : List Hash
  pub prunable_state_hashes : List Hash

-- `-1` is `none`.
unfoldable pub find_index : Hash → Chain → Option ℕ
find_index h [] = none
find_index h (x ∷ chain) =
    if x == h then some 0 else elim (find_index h chain) [ none ↦ none | some i ↦ some (suc i) ]

-- The test of a chain's tip.
abbrev pub ends_in : Hash → Chain → Bool
ends_in h [] = false
ends_in h (x ∷ []) = x == h
ends_in h (x ∷ y ∷ chain) = ends_in h (y ∷ chain)

-- A chain that a block was attached to, and all the chains.
pub record Attached : Type 0 where
  pub extended : Chain
  pub chains : List Chain

abbrev pub beside : Chain → Option Attached → Option Attached
beside chain none = none
beside chain (some a) = some (record { extended = a.extended; chains = chain ∷ a.chains })

-- The first loop: the block goes on the first chain that ends in its parent.
unfoldable pub attach_tip : Hash → Hash → List Chain → Option Attached
attach_tip parent header [] = none
attach_tip parent header (chain ∷ chains) =
    if ends_in parent chain
    then some
        (record { extended = chain ++ (header ∷ []); chains = (chain ++ (header ∷ [])) ∷ chains })
    else beside chain (attach_tip parent header chains)

-- The second loop: the first chain with the parent in its middle is copied up to there.
unfoldable pub fork : Hash → Hash → List Chain → Option Chain
unfolding find_index
fork parent header [] = none
fork parent header (chain ∷ chains) = elim (find_index parent chain) [
  | none ↦ fork parent header chains
  | some i ↦ some (take (i + 1) chain ++ (header ∷ []))
]

unfoldable pub attach : Finalizer → Hash → Hash → Option Attached
attach f parent header = elim (attach_tip parent header f.unfinalized) [
  | some a ↦ some a
  | none ↦
      if f.last_finalized_hash == parent
      then some (record { extended = header ∷ []; chains = f.unfinalized ++ ((header ∷ []) ∷ []) })
      else elim (fork parent header f.unfinalized) [
        | none ↦ none
        | some chain ↦ some (record { extended = chain; chains = f.unfinalized ++ (chain ∷ []) })
      ]
]

pub record Collected : Type 0 where
  pub prunable : List Hash
  pub newly_finalized : List Hash
  pub new_unfinalized : List Chain

-- The loop over the chains, with what is newly finalized so far.
unfoldable pub collect : Hash → List Chain → List Hash → Collected
collect finalized [] newly = record { prunable = []; newly_finalized = newly; new_unfinalized = [] }
collect finalized (chain ∷ chains) newly = elim (find_index finalized chain) [
  | none ↦
      let rest = collect finalized chains newly in
      record {
        prunable = chain ++ rest.prunable;
        newly_finalized = rest.newly_finalized;
        new_unfinalized = rest.new_unfinalized;
      }
  | some i ↦
      let rest = collect finalized chains (if is_empty newly then take (i + 1) chain else newly) in
      record {
        prunable = take i chain ++ rest.prunable;
        newly_finalized = rest.newly_finalized;
        new_unfinalized =
            if is_empty (drop (i + 1) chain)
            then rest.new_unfinalized
            else drop (i + 1) chain ∷ rest.new_unfinalized;
      }
]

-- A chain of more than `2 * depth` blocks is final up to the one that has `depth` on top.
unfoldable pub finalize : ℕ → Finalizer → Attached → Option FinalityResult × Finalizer
finalize depth f a =
    if leb (length a.extended) (2 * depth)
    then (none, record { last_finalized_hash = f.last_finalized_hash; unfinalized = a.chains })
    else elim (get_elem? a.extended (length a.extended - 1 - depth)) [
      | none ↦
          (none, record { last_finalized_hash = f.last_finalized_hash; unfinalized = a.chains })
      | some finalized ↦
          let collected = collect finalized a.chains [] in
          (
            some (record {
              finalized_hash = finalized;
              finalized_chain = take (length a.extended - 1 - depth + 1) a.extended;
              newly_finalized_headers = collected.newly_finalized;
              prunable_state_hashes = f.last_finalized_hash ∷ collected.prunable;
            }),
            record { last_finalized_hash = finalized; unfinalized = collected.new_unfinalized },
          )
    ]

-- `parent_of` reads the parent from the header in the block database.
unfoldable pub on_block_imported :
    ℕ → (Hash → Option Hash) → Finalizer → Hash → Option FinalityResult × Finalizer
on_block_imported depth parent_of f header = elim (parent_of header) [
  | none ↦ (none, f)
  | some parent ↦ elim (attach f parent header) [ none ↦ (none, f) | some a ↦ finalize depth f a ]
]
