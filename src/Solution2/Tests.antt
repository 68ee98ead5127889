-- ===== src/Solution2/Tests.antt =====
-- Runs of the models of solution 2 on concrete databases.
mod Runs
mod World2
