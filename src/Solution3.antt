-- ===== src/Solution3.antt =====
-- Solution 3: solutions/3_solution, tasks whose commands, events and views stand in one database,
-- with TigerBeetle for the credits.
pub mod Database
pub mod Commands
pub mod Projection
pub mod Reachable
pub mod Services
pub mod Reconciler
pub mod Worker
pub mod Routes
mod Tests
