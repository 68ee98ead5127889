-- ===== src/Solution4/Workflow/Paths.antt =====
-- What the workflow does with a task, when no step's result is lost.
pub mod Kept
pub mod Released
use metered_compute.Base.{◌≡◌, ◌≢◌, refl, none, some}
use metered_compute.Exec.{ok, pure, ◌>>=◌, ◌>>◌}
use metered_compute.Exec.Ends.{Ends, Ends-bind, Ends-pure}
use metered_compute.TigerBeetle.{Phase, pending, posted, voided, IsDocumented}
use metered_compute.Solution4.Gateway.{ComputeResult, Outcome, done, timeout, failure}
use metered_compute.Solution4.World.{
  Status, running, completed, failed, cancelled, cancel_requested, task_completed, task_failed,
  task_timeout, compute_ok, compute_error, Step, Runtime, State, mark_running,
  read_status_after_start, compute, compute_metric_ok, compute_metric_error, compute_timeout_metric,
  mark_failed_after_compute, task_failed_after_compute, release_credits_after_compute_failure,
  invalidate_task_after_compute_failure, capture_credits, mark_failed_after_capture,
  task_failed_after_capture, task_completed_metric, mark_completed, read_status_after_completion,
  mark_completed_after_late_cancel, cache_completed_task_after_late_cancel, cache_completed_task,
}
use metered_compute.Solution4.Repository.{update_task_status_if_match}
use metered_compute.Solution4.Billing.{inc}
use metered_compute.Solution4.Workflow.{
  Request, Reply, status, because, with_result, Reason, reason_of, started_status, reply_if,
  ctx_run, after_marked_failed, cancelled_during_compute, cancelled_after_compute,
  credit_capture_failed, completed_payload, not_started, after_compute_failure,
  after_capture_failure, late_cancel, after_capture, after_compute_success, after_compute,
  execute_task,
}
use metered_compute.Solution4.Workflow.Facts.{
  At, IsCalm, update-At, update-At_miss, get_task_status-At, cache_task-At, invalidate_task-At,
  inc-At,
}
use metered_compute.Solution4.Workflow.Settling.{
  capture_credits-At, capture_credits-At_settled, release_credits-At, release_credits-At_settled,
}
use metered_compute.Solution4.Workflow.Steps.{
  NoneLost, Computes, step_bind, compute_call-At, maybe_complete_cancellation-At,
  maybe_complete_cancellation-At_other,
}

module _ ⦃rt : Runtime⦄ (doc : IsDocumented rt.tb) (r : Request) (calm : IsCalm doc r)
    (once : (other : Step) → other ≢ capture_credits → rt.lost other ≡ 0) where
  -- The path on which the credits could not be captured.
  pub uncaptured :
      (p : Phase)
      → p ≢ pending
      → Ends
          (At doc r running p)
          (after_capture_failure r)
          (ok (because failed credit_capture_failed))
          (At doc r failed p)
  unfolding after_capture_failure
  uncaptured p ne =
      Ends-bind _
        (maybe_complete_cancellation-At_other doc r calm running p (λ e. cc) (once _ (λ e. cc)))
        (step_bind doc r calm mark_failed_after_capture running p _ (once _ (λ e. cc))
          (update-At doc r calm running failed p none)
          (Ends-bind _ (release_credits-At_settled doc r calm.distinct failed p ne) (
            Ends-bind _ (Ends-pure tt) (
              step_bind doc r calm task_failed_after_capture failed p _ (once _ (λ e. cc))
                (inc-At doc r calm failed p task_failed) (Ends-pure _)))))

module _ ⦃rt : Runtime⦄ (doc : IsDocumented rt.tb) (r : Request) (calm : IsCalm doc r)
    (once : NoneLost rt) where
  -- The start of a pending task, up to the worker's answer.
  pub started :
      (p : Phase) (outcome : Outcome) (s s' : Status) (p' : Phase) (reply : Reply)
      → Computes doc r p outcome s
      → Ends (At doc r s p) (after_compute r outcome) (ok reply) (At doc r s' p')
      → Ends (At doc r Status.pending p) (execute_task r) (ok reply) (At doc r s' p')
  unfolding execute_task
  started p outcome s s' p' reply c rest =
      step_bind doc r calm mark_running Status.pending p _ (once _)
        (update-At doc r calm Status.pending running p none)
        (step_bind doc r calm compute running p _ (once _)
          (compute_call-At doc r calm p outcome s c) rest)

  completing :
      (x : ComputeResult)
      → Ends
          (At doc r running posted)
          (after_capture r x)
          (ok (with_result completed x))
          (At doc r completed posted)
  unfolding after_capture
  completing x =
      step_bind doc r calm task_completed_metric running posted _ (once _)
        (inc-At doc r calm running posted task_completed)
        (step_bind doc r calm mark_completed running posted _ (once _)
          (update-At doc r calm running completed posted (some x))
          (step_bind doc r calm cache_completed_task completed posted _ (once _)
            (cache_task-At doc r calm completed posted (completed_payload r.task_id x))
            (Ends-pure _)))

  completes :
      (x : ComputeResult)
      → Computes doc r pending (done x) running
      → Ends
          (At doc r Status.pending pending)
          (execute_task r)
          (ok (with_result completed x))
          (At doc r completed posted)
  unfolding after_compute after_compute_success
  completes x c = started pending (done x) running completed posted _ c (
      step_bind doc r calm compute_metric_ok running pending _ (once _)
        (inc-At doc r calm running pending compute_ok)
        (Ends-bind _
          (maybe_complete_cancellation-At_other doc r calm running pending (λ e. cc) (once _))
          (step_bind doc r calm capture_credits running pending _ (once _)
            (capture_credits-At doc r calm.distinct running) (completing x))))

  -- A pending task whose credits are reserved, and whose computation succeeds, ends completed with
  -- the computed result in the reply and its transfer posted, when no cancellation arrives and no
  -- step is repeated.
  pub execute_task-completes :
      (x : ComputeResult)
      → Computes doc r pending (done x) running
      → (w : State) → At doc r Status.pending pending w
      → ((execute_task r w).0 ≡ ok (with_result completed x))
        × At doc r completed posted (execute_task r w).1
  execute_task-completes x h1 w at_w = (completes x h1).at w at_w

  unreserved :
      (x : ComputeResult) (p : Phase)
      → p ≢ pending
      → Computes doc r p (done x) running
      → Ends
          (At doc r Status.pending p)
          (execute_task r)
          (ok (because failed credit_capture_failed))
          (At doc r failed p)
  unfolding after_compute after_compute_success
  unreserved x p ne c = started p (done x) running failed p _ c (
      step_bind doc r calm compute_metric_ok running p _ (once _)
        (inc-At doc r calm running p compute_ok)
        (Ends-bind _ (maybe_complete_cancellation-At_other doc r calm running p (λ e. cc) (once _))
          (step_bind doc r calm capture_credits running p _ (once _)
            (capture_credits-At_settled doc r calm.distinct running p ne)
            (uncaptured doc r calm (λ step _. once step) p ne))))

  -- A task whose reserved transfer is no longer pending when the computation is done, since it
  -- expired or was voided, is not completed: it ends failed, and the transfer stays as it is.
  pub execute_task-unreserved :
      (x : ComputeResult) (p : Phase)
      → p ≢ pending
      → Computes doc r p (done x) running
      → (w : State) → At doc r Status.pending p w
      → ((execute_task r w).0 ≡ ok (because failed credit_capture_failed))
        × At doc r failed p (execute_task r w).1
  execute_task-unreserved x p h1 h2 w at_w = (unreserved x p h1 h2).at w at_w
