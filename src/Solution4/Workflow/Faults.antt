-- ===== src/Solution4/Workflow/Faults.antt =====
-- What becomes of a task when Restate runs one step twice, since the process ended between the
-- step's effect and the journaling of its result.
use metered_compute.Base.{◌≡◌, true, false, none, some}
use metered_compute.Exec.{ok}
use metered_compute.Exec.Ends.{Ends, Ends-bind, Ends-pure}
use metered_compute.TigerBeetle.{Phase, pending, posted, voided, IsDocumented}
use metered_compute.Solution4.Gateway.{ComputeResult, done}
use metered_compute.Solution4.World.{
  Status, running, completed, failed, cancel_requested, task_completed, task_failed, compute_ok,
  Runtime, State, mark_running, read_status_after_start, compute, compute_metric_ok,
  capture_credits, task_completed_metric, mark_completed, read_status_after_completion,
  release_credits_for_cancel, read_status_after_cancel_check, mark_failed_after_capture,
  task_failed_after_capture,
}
use metered_compute.Solution4.Workflow.{
  Request, status, because, credit_capture_failed, not_started, after_compute,
  after_compute_success, after_capture, after_capture_failure, maybe_complete_cancellation,
  execute_task,
}
use metered_compute.Solution4.Workflow.Facts.{
  At, IsCalm, update-At, update-At_miss, get_task_status-At, inc-At,
}
use metered_compute.Solution4.Workflow.Settling.{
  capture_credits-At_settled, release_credits-At, release_credits-At_settled,
}
use metered_compute.Solution4.Workflow.Steps.{
  LostOnce, Computes, step_bind, step_again, compute_call-At,
}

module _ ⦃rt : Runtime⦄ (doc : IsDocumented rt.tb) (r : Request) (calm : IsCalm doc r) where
  starts_again :
      (p : Phase)
      → LostOnce rt mark_running
      → Ends (At doc r Status.pending p) (execute_task r) (ok (status running)) (At doc r running p)
  unfolding execute_task not_started
  starts_again p lost =
      step_again doc r calm mark_running Status.pending running p p true false _ lost.0
        (update-At doc r calm Status.pending running p none)
        (update-At_miss doc r calm running Status.pending running p none (λ e. cc))
        (step_bind doc r calm read_status_after_start running p _ (lost.1 _ (λ e. cc))
          (get_task_status-At doc r calm running p) (Ends-pure _))

  -- When the step that marks a pending task as running is repeated, the workflow answers "running"
  -- and stops: the task stays running and its credits stay reserved, with no computation asked for.
  pub execute_task-repeated_start :
      (p : Phase)
      → LostOnce rt mark_running
      → (w : State) → At doc r Status.pending p w
      → ((execute_task r w).0 ≡ ok (status running)) × At doc r running p (execute_task r w).1
  execute_task-repeated_start p h1 w at_w = (starts_again p h1).at w at_w

  stores_again :
      (x : ComputeResult)
      → LostOnce rt mark_completed
      → Ends
          (At doc r running posted)
          (after_capture r x)
          (ok (status completed))
          (At doc r completed posted)
  unfolding after_capture
  stores_again x lost =
      step_bind doc r calm task_completed_metric running posted _ (lost.1 _ (λ e. cc))
        (inc-At doc r calm running posted task_completed)
        (step_again doc r calm mark_completed running completed posted posted true false _ lost.0
          (update-At doc r calm running completed posted (some x))
          (update-At_miss doc r calm completed running completed posted (some x) (λ e. cc))
          (step_bind doc r calm read_status_after_completion completed posted _ (lost.1 _ (λ e. cc))
            (get_task_status-At doc r calm completed posted) (Ends-pure _)))

  -- When the step that stores the result is repeated, the task still ends completed with its
  -- credits captured; the reply has the status alone.
  pub after_capture-repeated_store :
      (x : ComputeResult)
      → LostOnce rt mark_completed
      → (w : State) → At doc r running posted w
      → ((after_capture r x w).0 ≡ ok (status completed))
        × At doc r completed posted (after_capture r x w).1
  after_capture-repeated_store x h1 w at_w = (stores_again x h1).at w at_w

  -- The cancellation check, when its release is repeated: the credits are released, and the task
  -- stays as it was.
  unfinished_cancellation :
      LostOnce rt release_credits_for_cancel
      → Ends
          (At doc r cancel_requested pending)
          (maybe_complete_cancellation r)
          (ok false)
          (At doc r cancel_requested voided)
  unfolding maybe_complete_cancellation
  unfinished_cancellation lost =
      step_bind doc r calm read_status_after_cancel_check cancel_requested pending _
        (lost.1 _ (λ e. cc)) (get_task_status-At doc r calm cancel_requested pending)
        (step_again doc r calm release_credits_for_cancel cancel_requested cancel_requested pending
          voided true false _ lost.0 (release_credits-At doc r calm.distinct cancel_requested)
          (release_credits-At_settled doc r calm.distinct cancel_requested voided (λ e. cc))
          (Ends-pure false))

  refused_cancellation :
      LostOnce rt release_credits_for_cancel
      → Ends
          (At doc r cancel_requested voided)
          (maybe_complete_cancellation r)
          (ok false)
          (At doc r cancel_requested voided)
  unfolding maybe_complete_cancellation
  refused_cancellation lost =
      step_bind doc r calm read_status_after_cancel_check cancel_requested voided _
        (lost.1 _ (λ e. cc)) (get_task_status-At doc r calm cancel_requested voided)
        (step_again doc r calm release_credits_for_cancel cancel_requested cancel_requested voided
          voided false false _ lost.0
          (release_credits-At_settled doc r calm.distinct cancel_requested voided (λ e. cc))
          (release_credits-At_settled doc r calm.distinct cancel_requested voided (λ e. cc))
          (Ends-pure false))

  uncaptured_cancellation :
      LostOnce rt release_credits_for_cancel
      → Ends
          (At doc r cancel_requested voided)
          (after_capture_failure r)
          (ok (because failed credit_capture_failed))
          (At doc r cancel_requested voided)
  unfolding after_capture_failure
  uncaptured_cancellation lost = Ends-bind _ (refused_cancellation lost) (
      step_bind doc r calm mark_failed_after_capture cancel_requested voided _ (lost.1 _ (λ e. cc))
        (update-At_miss doc r calm cancel_requested running failed voided none (λ e. cc))
        (Ends-bind _
          (release_credits-At_settled doc r calm.distinct cancel_requested voided (λ e. cc))
          (Ends-bind _ (Ends-pure tt) (
            step_bind doc r calm task_failed_after_capture cancel_requested voided _
              (lost.1 _ (λ e. cc)) (inc-At doc r calm cancel_requested voided task_failed)
              (Ends-pure _)))))

  releases_again :
      (x : ComputeResult)
      → LostOnce rt release_credits_for_cancel
      → Computes doc r pending (done x) cancel_requested
      → Ends
          (At doc r Status.pending pending)
          (execute_task r)
          (ok (because failed credit_capture_failed))
          (At doc r cancel_requested voided)
  unfolding execute_task after_compute after_compute_success
  releases_again x lost c =
      step_bind doc r calm mark_running Status.pending pending _ (lost.1 _ (λ e. cc))
        (update-At doc r calm Status.pending running pending none)
        (step_bind doc r calm compute running pending _ (lost.1 _ (λ e. cc))
          (compute_call-At doc r calm pending (done x) cancel_requested c)
          (step_bind doc r calm compute_metric_ok cancel_requested pending _ (lost.1 _ (λ e. cc))
            (inc-At doc r calm cancel_requested pending compute_ok)
            (Ends-bind _ (unfinished_cancellation lost) (
              step_bind doc r calm capture_credits cancel_requested voided _ (lost.1 _ (λ e. cc))
                (capture_credits-At_settled doc r calm.distinct cancel_requested voided (λ e. cc))
                (uncaptured_cancellation lost)))))

  -- When a cancellation is requested while a computation succeeds, and the step that releases the
  -- credits for it is repeated, the second release is refused: the credits are released, the reply
  -- says that the task failed, and its row stays at "cancel requested", which is not terminal.
  pub execute_task-repeated_release :
      (x : ComputeResult)
      → LostOnce rt release_credits_for_cancel
      → Computes doc r pending (done x) cancel_requested
      → (w : State) → At doc r Status.pending pending w
      → ((execute_task r w).0 ≡ ok (because failed credit_capture_failed))
        × At doc r cancel_requested voided (execute_task r w).1
  execute_task-repeated_release x h1 h2 w at_w = (releases_again x h1 h2).at w at_w
