-- ===== src/Solution3/Tests.antt =====
-- Runs of the services of Solution 3 at concrete inputs.
mod CommandRuns
mod ServiceRuns
