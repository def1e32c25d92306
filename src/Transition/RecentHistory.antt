-- ===== src/Transition/RecentHistory.antt =====
-- packages/jam/transition/recent-history.ts: the blocks of the recent past and the log of
-- accumulation outputs.
pub mod Log
pub mod Imports
use typeberry.Base.{
  ℕ, ◌+◌, Bool, ltb, List, [], ◌∷◌, ◌++◌, length, drop, Option, none, some, if◌then◌else◌,
}
use typeberry.Mmr.{MmrHasher, get_super_peak_hash, append, get_peaks, from_peaks}

-- packages/jam/state/recent-blocks.ts. Hashes of every kind are of one type `H`, `W` is the
-- dictionary of reported work packages.
abbrev pub max_recent_history : ℕ
max_recent_history = 8

pub record BlockState (H W : Type 0) : Type 0 where
  pub header_hash : H
  pub accumulation_result : H
  pub post_state_root : H
  pub reported : W

pub record RecentBlocks (H W : Type 0) : Type 0 where
  pub blocks : List (BlockState H W)
  pub accumulation_log : List (Option H)

pub record RecentHistoryInput (H W : Type 0) : Type 0 where
  pub partial : RecentBlocks H W
  pub header_hash : H
  pub accumulate_root : H
  pub work_packages : W

module _ {H W : Type 0} where
  -- `lastState.postStateRoot = priorStateRoot`, if there is a last state.
  unfoldable pub set_last_root : H → List (BlockState H W) → List (BlockState H W)
  set_last_root root [] = []
  set_last_root root (b ∷ []) =
      record {
        header_hash = b.header_hash;
        accumulation_result = b.accumulation_result;
        post_state_root = root;
        reported = b.reported;
      }
      ∷ []
  set_last_root root (b ∷ c ∷ blocks) = b ∷ set_last_root root (c ∷ blocks)

  -- The state after the call, and the update. The copy of the array has the same block objects as
  -- the state, so the write to the last one is seen in both.
  unfoldable pub partial_transition : H → RecentBlocks H W → RecentBlocks H W × RecentBlocks H W
  partial_transition prior_state_root state =
      let update : RecentBlocks H W = record {
        blocks = set_last_root prior_state_root state.blocks;
        accumulation_log = state.accumulation_log;
      } in
      (update, update)

  -- `if (recentBlocks.length > MAX_RECENT_HISTORY) recentBlocks.shift()`
  unfoldable pub shift_oldest : List (BlockState H W) → List (BlockState H W)
  shift_oldest blocks = if ltb max_recent_history (length blocks) then drop 1 blocks else blocks

  module _ (hasher : MmrHasher H) (zero_root : H) where
    abbrev pub block_state : RecentHistoryInput H W → H → BlockState H W
    block_state input result = record {
      header_hash = input.header_hash;
      accumulation_result = result;
      post_state_root = zero_root;
      reported = input.work_packages;
    }

    abbrev pub update_of :
        List (BlockState H W) → Option (List (Option H)) → Option (RecentBlocks H W)
    update_of blocks none = none
    update_of blocks (some peaks) = some (record { blocks = blocks; accumulation_log = peaks })

    -- On fuel for the loop of `getPeaks`: `none` is out of fuel. The log of the state is read, not
    -- that of the partial update.
    unfoldable pub transition :
        ℕ → RecentHistoryInput H W → RecentBlocks H W → Option (RecentBlocks H W)
    transition fuel input state =
        let mmr = append hasher input.accumulate_root (from_peaks state.accumulation_log) in
        update_of
          (shift_oldest
            (input.partial.blocks ++ (block_state input (get_super_peak_hash hasher mmr) ∷ [])))
          (get_peaks fuel mmr)

abbrev then_all {ℓ κ} : {A : Type ℓ} {B : Type κ} → Option A → (A → Option B) → Option B
then_all none f = none
then_all (some a) f = f a

-- What a block brings to its import.
pub record Import (H W : Type 0) : Type 0 where
  pub prior_state_root : H
  pub header_hash : H
  pub accumulate_root : H
  pub work_packages : W

-- packages/jam/transition/chain-stf.ts: the two transitions of the recent history, with what comes
-- between them as the input of the second.
module _ {H W : Type 0} (hasher : MmrHasher H) (zero_root : H) where
  unfoldable pub import_block : ℕ → Import H W → RecentBlocks H W → Option (RecentBlocks H W)
  unfolding partial_transition
  import_block fuel i state =
      let updated = partial_transition i.prior_state_root state in
      transition hasher zero_root fuel
        (record {
          partial = updated.1;
          header_hash = i.header_hash;
          accumulate_root = i.accumulate_root;
          work_packages = i.work_packages;
        })
        updated.0

  unfoldable pub import_blocks :
      ℕ → List (Import H W) → RecentBlocks H W → Option (RecentBlocks H W)
  import_blocks fuel [] state = some state
  import_blocks fuel (i ∷ is) state =
      then_all (import_block fuel i state) (λ after. import_blocks fuel is after)
