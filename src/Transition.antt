-- ===== src/Transition.antt =====
-- The state transitions of packages/jam/transition.
pub mod HashSet
pub mod AccumulateQueue
pub mod Authorization
pub mod RecentHistory
pub mod Assurances
pub mod Disputes
pub mod Preimages
