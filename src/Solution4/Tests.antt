-- ===== src/Solution4/Tests.antt =====
-- Runs of the workflow and of the worker at concrete inputs.
mod World4
mod WorkflowRuns
mod ComputeRuns
mod RequestRuns
