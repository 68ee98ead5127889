-- ===== src/Solution4.antt =====
-- Solution 4, TigerBeetle and Restate: solutions/4_solution/src/solution4.
pub mod Gateway
pub mod Worker
pub mod World
pub mod Repository
pub mod Cache
pub mod Billing
pub mod Workflow
pub mod Auth
pub mod Registration
pub mod Submit
pub mod Cancel
pub mod Poll
pub mod Admin
mod Tests
