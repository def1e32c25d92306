-- ===== src/Tests/History.antt =====
-- Runs of the recent history.
use typeberry.Base.{ℕ, ◌+◌, ◌*◌, ◌≡◌, refl, arith, List, [], ◌∷◌, some}
use typeberry.Mmr.{
  MmrHasher, append, append_loop, get_peaks, peaks_loop, from_peaks, from_peaks_loop,
  get_super_peak_hash, super_peak_loop,
}
use typeberry.Mmr.Leaves.{Range}
use typeberry.Transition.RecentHistory.{
  RecentBlocks, RecentHistoryInput, Import, set_last_root, partial_transition, shift_oldest,
  transition, import_block, import_blocks,
}
use typeberry.Transition.RecentHistory.Log.{Appended, transition-Appended}
use typeberry.Transition.RecentHistory.Imports.{Imported, import_blocks-Imported}

-- A toy hash that shows what it was given.
abbrev toy : MmrHasher ℕ
toy = record {
  hash_concat = λ a b. 100 * a + b;
  hash_concat_peak = λ a b. 1000 * a + b;
  zero_hash = 0;
}

-- One block, and a log of one leaf.
abbrev state : RecentBlocks ℕ ℕ
state = record {
  blocks =
      record { header_hash = 1; accumulation_result = 11; post_state_root = 0; reported = 5 } ∷ [];
  accumulation_log = some 11 ∷ [];
}

state-Range : Range toy 0 (from_peaks state.accumulation_log) (11 ∷ [])
unfolding from_peaks from_peaks_loop
state-Range = (0, [], 11 ∷ [], omega arith, refl, refl, refl, refl)

abbrev imports : List (Import ℕ ℕ)
imports =
    record { prior_state_root = 71; header_hash = 2; accumulate_root = 12; work_packages = 6 }
    ∷ record { prior_state_root = 72; header_hash = 3; accumulate_root = 13; work_packages = 7 }
    ∷ []

-- The state root of a block arrives with the next one.
imported :
    import_blocks toy 0 32 imports state
    ≡ some (record {
      blocks =
          record { header_hash = 1; accumulation_result = 11; post_state_root = 71; reported = 5 }
          ∷ record {
            header_hash = 2;
            accumulation_result = 1112;
            post_state_root = 72;
            reported = 6;
          }
          ∷ record {
            header_hash = 3;
            accumulation_result = 14112;
            post_state_root = 0;
            reported = 7;
          }
          ∷ [];
      accumulation_log = some 13 ∷ some 1112 ∷ [];
    })
unfolding import_blocks import_block partial_transition set_last_root transition shift_oldest append
    append_loop get_peaks peaks_loop from_peaks from_peaks_loop get_super_peak_hash super_peak_loop
imported = refl

import_blocks-Imported_example :
    Imported {W = ℕ} toy 0
      (1 ∷ 2 ∷ 3 ∷ [])
      (11 ∷ 12 ∷ 13 ∷ [])
      (import_blocks toy 0 32 imports state)
import_blocks-Imported_example =
    import_blocks-Imported toy 0 imports state (11 ∷ []) state-Range (omega arith) (omega arith)

abbrev input : RecentHistoryInput ℕ ℕ
input = record { partial = state; header_hash = 2; accumulate_root = 12; work_packages = 6 }

transition-Appended_example : Appended toy 0 input (11 ∷ 12 ∷ []) (transition toy 0 32 input state)
transition-Appended_example =
    transition-Appended toy 0 input state (11 ∷ []) state-Range (omega arith) (omega arith)
