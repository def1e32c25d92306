-- ===== src/Tests/Chain.antt =====
-- Runs of the mountain range, the finalizer and the shuffle.
use typeberry.Base.{
  ℕ, ◌+◌, ◌-◌, ◌*◌, ◌^◌, ◌≡◌, ◌==◌, ◌||◌, refl, arith, List, replicate, [], ◌∷◌, true, Option, none,
  some,
}
use mathlib.Core.List.{Perm}
use typeberry.Transition.HashSet.{Hash, has}
use typeberry.Mmr.{Mountain, MmrHasher, append_loop, append, get_peaks, from_peaks}
use typeberry.Mmr.Leaves.{Range, append-Range}
use typeberry.Mmr.Peaks.{from_peaks-get_peaks, get_peaks-stuck}
use typeberry.Finality.{
  Finalizer, FinalityResult, Attached, collect, find_index, attach_tip, attach, finalize,
  on_block_imported,
}
use typeberry.Finality.Bounds.{IsBounded, on_block_imported-IsBounded}
use typeberry.Finality.Pruning.{any_has, finalize-covers}
use typeberry.Codec.Words.{le_value}
use typeberry.Shuffling.{
  fisher_yates_shuffle, shuffle_loop, hash_to_number_sequence, numbers_loop,
  fisher_yates_shuffle-Perm,
}

-- A toy hash that shows what it was given.
abbrev toy : MmrHasher ℕ
toy = record {
  hash_concat = λ a b. 100 * a + b;
  hash_concat_peak = λ a b. 1000 * a + b;
  zero_hash = 0;
}

-- Three leaves: a mountain of one and a mountain of two.
abbrev three : List (Mountain ℕ)
three = record { peak = 3; size = 1 } ∷ record { peak = 102; size = 2 } ∷ []

abbrev three-Range : Range toy 0 three (1 ∷ 2 ∷ 3 ∷ [])
three-Range = (
  0,
  1 ∷ 2 ∷ [],
  3 ∷ [],
  omega arith,
  refl,
  refl,
  (
    1,
    [],
    1 ∷ 2 ∷ [],
    omega arith,
    refl,
    (1, 2, 1 ∷ [], 2 ∷ [], refl, refl, refl, refl),
    refl,
    refl,
  ),
  refl,
)

four : append toy 4 three ≡ record { peak = 10504; size = 4 } ∷ []
unfolding append append_loop
four = refl

append-Range_example : Range toy 0 (append toy 4 three) (1 ∷ 2 ∷ 3 ∷ 4 ∷ [])
append-Range_example = append-Range toy 4 three (1 ∷ 2 ∷ 3 ∷ []) three-Range

from_peaks-get_peaks_example :
    (peaks : List (Option ℕ)) × (get_peaks 32 three ≡ some peaks) × (from_peaks peaks ≡ three)
from_peaks-get_peaks_example =
    from_peaks-get_peaks toy three (1 ∷ 2 ∷ 3 ∷ []) three-Range (omega arith, (omega arith, tt))

get_peaks-stuck_example : get_peaks {H = ℕ} 100 (record { peak = 5; size = 2 ^ 31 } ∷ []) ≡ none
get_peaks-stuck_example = get_peaks-stuck 100 (record { peak = 5; size = 2 ^ 31 }) [] (omega arith)

-- Block 12 is attached to a chain of two; a fork of block 10 dies.
abbrev attached : Attached
attached = record {
  extended = 10 ∷ 11 ∷ 12 ∷ [];
  chains = (10 ∷ 11 ∷ 12 ∷ []) ∷ (10 ∷ 20 ∷ []) ∷ [];
}

abbrev finalizer : Finalizer
finalizer = record { last_finalized_hash = 9; unfinalized = (10 ∷ 11 ∷ []) ∷ (10 ∷ 20 ∷ []) ∷ [] }

abbrev parent_of : Hash → Option Hash
parent_of h = some (h - 1)

imports : on_block_imported 1 parent_of finalizer 12 ≡ (
  some (record {
    finalized_hash = 11;
    finalized_chain = 10 ∷ 11 ∷ [];
    newly_finalized_headers = 10 ∷ 11 ∷ [];
    prunable_state_hashes = 9 ∷ 10 ∷ 10 ∷ 20 ∷ [];
  }),
  record { last_finalized_hash = 11; unfinalized = (12 ∷ []) ∷ [] },
)
unfolding on_block_imported attach attach_tip finalize collect find_index
imports = refl

finalize-covers_example :
    (r : FinalityResult) × (next : Finalizer) × (finalize 1 finalizer attached ≡ (some r, next))
    × (some 11 ≡ some r.finalized_hash)
    × (next.last_finalized_hash ≡ r.finalized_hash)
    × (has r.prunable_state_hashes r.finalized_hash ≡ (r.finalized_hash == 9))
    × ((x : Hash)
        → any_has attached.chains x ≡ true
        → (has r.prunable_state_hashes x || (x == r.finalized_hash || any_has next.unfinalized x))
          ≡ true)
finalize-covers_example = finalize-covers 1 finalizer attached (omega arith)

on_block_imported-IsBounded_example :
    IsBounded 2 ((on_block_imported 1 parent_of finalizer 12).1).unfinalized
on_block_imported-IsBounded_example =
    on_block_imported-IsBounded 1 parent_of finalizer 12
      ((omega arith, omega arith), ((omega arith, omega arith), tt))

-- A stand-in for the hash function.
abbrev toy_hash : List ℕ → List ℕ
toy_hash bytes = bytes

abbrev entropy : List ℕ
entropy = replicate 32 5

shuffled : fisher_yates_shuffle {T = ℕ} toy_hash (1 ∷ 2 ∷ 3 ∷ []) entropy ≡ some (3 ∷ 2 ∷ 1 ∷ [])
unfolding fisher_yates_shuffle shuffle_loop hash_to_number_sequence numbers_loop le_value
shuffled = refl

fisher_yates_shuffle-Perm_example :
    (out : List ℕ) × (fisher_yates_shuffle {T = ℕ} toy_hash (1 ∷ 2 ∷ 3 ∷ []) entropy ≡ some out)
    × Perm (1 ∷ 2 ∷ 3 ∷ []) out
fisher_yates_shuffle-Perm_example = fisher_yates_shuffle-Perm toy_hash (1 ∷ 2 ∷ 3 ∷ []) entropy refl
