-- ===== src/Solution4/Workflow/Paths/Released.antt =====
-- The paths of `execute_task` in solutions/4_solution/src/solution4/workflows.py that give the
-- reserved credits back: a failed computation, and a cancellation while the worker computes.
use metered_compute.Base.{◌≡◌, ◌≢◌, refl, none}
use metered_compute.Exec.{ok, ◌>>=◌, ◌>>◌}
use metered_compute.Exec.Ends.{Ends, Ends-bind, Ends-pure}
use metered_compute.TigerBeetle.{pending, voided, IsDocumented}
use metered_compute.Solution4.Gateway.{ComputeResult, Outcome, done, timeout, failure}
use metered_compute.Solution4.World.{
  Status, running, failed, cancelled, cancel_requested, task_failed, task_timeout, compute_ok,
  compute_error, Runtime, State, compute_metric_ok, compute_metric_error, compute_timeout_metric,
  mark_failed_after_compute, task_failed_after_compute, release_credits_after_compute_failure,
  invalidate_task_after_compute_failure,
}
use metered_compute.Solution4.Repository.{update_task_status_if_match}
use metered_compute.Solution4.Billing.{inc}
use metered_compute.Solution4.Workflow.{
  Request, because, Reason, reason_of, ctx_run, after_marked_failed, cancelled_during_compute,
  cancelled_after_compute, after_compute_failure, after_compute_success, after_compute,
  execute_task,
}
use metered_compute.Solution4.Workflow.Facts.{At, IsCalm, update-At, invalidate_task-At, inc-At}
use metered_compute.Solution4.Workflow.Settling.{release_credits-At}
use metered_compute.Solution4.Workflow.Steps.{
  NoneLost, Computes, step_bind, maybe_complete_cancellation-At,
  maybe_complete_cancellation-At_other,
}
use metered_compute.Solution4.Workflow.Paths.{started}

-- The reason of a cancellation that was requested while the worker computed.
abbrev pub cancel_reason : Outcome → Reason
cancel_reason (done x) = cancelled_after_compute
cancel_reason _ = cancelled_during_compute

module _ ⦃rt : Runtime⦄ (doc : IsDocumented rt.tb) (r : Request) (calm : IsCalm doc r)
    (once : NoneLost rt) where
  -- The failure path, once the counters of the outcome are done.
  failing :
      (o : Outcome)
      → Ends
          (At doc r running pending)
          (do
            updated ←
                ctx_run mark_failed_after_compute
                  (update_task_status_if_match r.task_id failed running none)
            ctx_run task_failed_after_compute (inc task_failed)
            after_marked_failed r o updated)
          (ok (because failed (reason_of o)))
          (At doc r failed voided)
  unfolding after_marked_failed
  failing o =
      step_bind doc r calm mark_failed_after_compute running pending _ (once _)
        (update-At doc r calm running failed pending none)
        (step_bind doc r calm task_failed_after_compute failed pending _ (once _)
          (inc-At doc r calm failed pending task_failed)
          (step_bind doc r calm release_credits_after_compute_failure failed pending _ (once _)
            (release_credits-At doc r calm.distinct failed)
            (step_bind doc r calm invalidate_task_after_compute_failure failed voided _ (once _)
              (invalidate_task-At doc r calm failed voided) (Ends-pure _))))

  fails :
      (o : Outcome)
      → ((x : ComputeResult) → o ≢ done x)
      → Computes doc r pending o running
      → Ends
          (At doc r Status.pending pending)
          (execute_task r)
          (ok (because failed (reason_of o)))
          (At doc r failed voided)
  unfolding after_compute after_compute_failure
  fails (done x) ne c = absurd (ne x refl)
  fails timeout ne c = started doc r calm once pending timeout running failed voided _ c (
      Ends-bind _
        (maybe_complete_cancellation-At_other doc r calm running pending (λ e. cc) (once _))
        (step_bind doc r calm compute_metric_error running pending _ (once _)
          (inc-At doc r calm running pending compute_error)
          (step_bind doc r calm compute_timeout_metric running pending _ (once _)
            (inc-At doc r calm running pending task_timeout) (failing timeout))))
  fails failure ne c = started doc r calm once pending failure running failed voided _ c (
      Ends-bind _
        (maybe_complete_cancellation-At_other doc r calm running pending (λ e. cc) (once _))
        (step_bind doc r calm compute_metric_error running pending _ (once _)
          (inc-At doc r calm running pending compute_error)
          (Ends-bind _ (Ends-pure tt) (failing failure))))

  -- A pending task whose credits are reserved, and whose computation times out or fails, ends
  -- failed with that reason in the reply and its transfer voided, when no cancellation arrives and
  -- no step is repeated.
  pub execute_task-fails :
      (o : Outcome)
      → ((x : ComputeResult) → o ≢ done x)
      → Computes doc r pending o running
      → (w : State) → At doc r Status.pending pending w
      → ((execute_task r w).0 ≡ ok (because failed (reason_of o)))
        × At doc r failed voided (execute_task r w).1
  execute_task-fails o h1 h2 w at_w = (fails o h1 h2).at w at_w

  cancels :
      (o : Outcome)
      → Computes doc r pending o cancel_requested
      → Ends
          (At doc r Status.pending pending)
          (execute_task r)
          (ok (because cancelled (cancel_reason o)))
          (At doc r cancelled voided)
  unfolding after_compute after_compute_success after_compute_failure
  cancels (done x) c =
      started doc r calm once pending (done x) cancel_requested cancelled voided _ c (
        step_bind doc r calm compute_metric_ok cancel_requested pending _ (once _)
          (inc-At doc r calm cancel_requested pending compute_ok)
          (Ends-bind _ (maybe_complete_cancellation-At doc r calm once) (Ends-pure _)))
  cancels timeout c =
      started doc r calm once pending timeout cancel_requested cancelled voided _ c
        (Ends-bind _ (maybe_complete_cancellation-At doc r calm once) (Ends-pure _))
  cancels failure c =
      started doc r calm once pending failure cancel_requested cancelled voided _ c
        (Ends-bind _ (maybe_complete_cancellation-At doc r calm once) (Ends-pure _))

  -- A cancellation that is requested while the worker computes is completed, whatever the worker
  -- answers: the task ends cancelled and its transfer voided, when no step is repeated.
  pub execute_task-cancels :
      (o : Outcome)
      → Computes doc r pending o cancel_requested
      → (w : State) → At doc r Status.pending pending w
      → ((execute_task r w).0 ≡ ok (because cancelled (cancel_reason o)))
        × At doc r cancelled voided (execute_task r w).1
  execute_task-cancels o h1 w at_w = (cancels o h1).at w at_w
