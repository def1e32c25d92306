-- ===== src/Transition/RecentHistory/Log.antt =====
-- What a transition leaves in the log and in the list of recent blocks.
use typeberry.Base.{
  suc, ◌-◌, ◌^◌, ◌≤◌, ◌<◌, ◌≡◌, refl, arith, Bool-cases, List, [], ◌∷◌, ◌++◌, length, length-append,
  drop, drop-append_le, Option, some, inl, inr, ltb, ltb→lt, ltb→ge,
}
use typeberry.Mmr.{MmrHasher, get_super_peak_hash, append, from_peaks}
use typeberry.Mmr.Leaves.{Range, append-Range}
use typeberry.Mmr.Peaks.{from_peaks-get_peaks}
use typeberry.Mmr.Sizes.{Range-All}
use typeberry.Transition.RecentHistory.{
  BlockState, RecentBlocks, RecentHistoryInput, max_recent_history, shift_oldest, block_state,
  transition,
}

module _ {H W : Type 0} where
  -- With room for the new block nothing goes, else the oldest one.
  shift_oldest-append :
      (blocks : List (BlockState H W)) (b : BlockState H W)
      → length blocks ≤ max_recent_history
      → shift_oldest (blocks ++ (b ∷ [])) ≡ drop (length blocks - 7) blocks ++ (b ∷ [])
  unfolding shift_oldest
  shift_oldest-append blocks b h =
      elim (Bool-cases (ltb max_recent_history (length (blocks ++ (b ∷ []))))) [
        | inl full ↦
            let n : length blocks ≡ 8 =
              omega (
                arith,
                length-append blocks (b ∷ []),
                ltb→lt 8 (length (blocks ++ (b ∷ []))) full,
              ) in
            rw (full, n) (drop-append_le 1 blocks (b ∷ []) (omega arith))
        | inr room ↦
            let n : length blocks - 7 ≡ 0 =
              omega (
                arith,
                length-append blocks (b ∷ []),
                ltb→ge 8 (length (blocks ++ (b ∷ []))) room,
              ) in
            rw (room, n) refl
      ]

  module _ (hasher : MmrHasher H) (zero_root : H) where
    -- Reads the state that a transition left: the log is a range over `leaves`, and the blocks are
    -- the last seven of `before` and the new one, which has the super peak of that range.
    abbrev pub Appended : RecentHistoryInput H W → List H → Option (RecentBlocks H W) → Type 0
    Appended input leaves o =
        (after : RecentBlocks H W) × (o ≡ some after)
        × Range hasher 0 (from_peaks after.accumulation_log) leaves
        × (after.blocks
            ≡ drop (length input.partial.blocks - 7) input.partial.blocks
              ++ (block_state hasher zero_root input
                    (get_super_peak_hash hasher (from_peaks after.accumulation_log))
                  ∷ []))

    -- If the state's log is the peaks of a range over some leaves, of which there are fewer than
    -- `2 ^ 31 - 1`, and the partial update has at most eight blocks, then the transition ends, the
    -- new log is the peaks of a range over those leaves and the accumulation root behind them, and
    -- the new blocks are the last seven of the partial update and one that holds the header's hash,
    -- the work packages, the zero root and the super peak of the new range.
    pub transition-Appended :
        (input : RecentHistoryInput H W) (state : RecentBlocks H W) (leaves : List H)
        → Range hasher 0 (from_peaks state.accumulation_log) leaves
        → suc (length leaves) < 2 ^ 31
        → length input.partial.blocks ≤ max_recent_history
        → Appended input
            (leaves ++ (input.accumulate_root ∷ []))
            (transition hasher zero_root 32 input state)
    unfolding transition
    transition-Appended input state leaves r s h =
        let root = input.accumulate_root in
        let mmr = append hasher root (from_peaks state.accumulation_log) in
        let grown = append-Range hasher root (from_peaks state.accumulation_log) leaves r in
        let size : length (leaves ++ (root ∷ [])) < 2 ^ 31 =
          omega (arith, length-append leaves (root ∷ [])) in
        let (peaks, found, back) =
          from_peaks-get_peaks hasher mmr (leaves ++ (root ∷ [])) grown
            (Range-All hasher 0 (2 ^ 31) mmr (leaves ++ (root ∷ [])) grown size) in
        rw (found) (
          record {
            blocks = shift_oldest (
                input.partial.blocks
                ++ (block_state hasher zero_root input (get_super_peak_hash hasher mmr) ∷ []));
            accumulation_log = peaks;
          },
          refl,
          rw (back) grown,
          rw (back) (shift_oldest-append input.partial.blocks _ h),
        )
