-- ===== src/Solution2.antt =====
-- The models of solutions/2_solution/src/solution2.
pub mod Constants
pub mod Database
pub mod Admin
pub mod Admission
pub mod Batch
pub mod Moves
pub mod Cache
pub mod Worker
pub mod Watchdog
pub mod Cancel
pub mod Sync
pub mod Projector
pub mod Reachable
mod Tests
