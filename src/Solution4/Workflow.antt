-- ===== src/Solution4/Workflow.antt =====
-- The durable task workflow: solutions/4_solution/src/solution4/workflows.py. `ctx.run` is the
-- step of Restate: it runs an action and journals its result, and after a crash in between it runs
-- the action again (`Runtime.lost`). Between any two steps other requests run.
pub mod Facts
pub mod Kept
pub mod Settling
pub mod Steps
pub mod Paths
pub mod Faults
use metered_compute.Base.{
  ℕ, zero, suc, Bool, true, false, Option, none, some, is_none, if◌then◌else◌, not,
}
use metered_compute.Exec.{Exec, ok, pure, ◌>>=◌, ◌>>◌}
use metered_compute.Solution4.Gateway.{
  ComputeResult, Outcome, done, timeout, failure, compute_outcome,
}
use metered_compute.Solution4.World.{
  Status, pending, running, completed, failed, cancelled, cancel_requested, same_status, Payload,
  task_completed, task_cancelled, task_failed, task_timeout, compute_ok, compute_error, World, Step,
  Runtime, State, Action, disturb, read_status_after_cancel_check, release_credits_for_cancel,
  mark_cancelled_after_request, invalidate_task_after_cancel, task_cancelled_metric_after_request,
  mark_running, read_status_after_start, compute, compute_metric_ok, compute_metric_error,
  compute_timeout_metric, mark_failed_after_compute, task_failed_after_compute,
  release_credits_after_compute_failure, invalidate_task_after_compute_failure,
  read_status_after_compute_failure, capture_credits, mark_failed_after_capture,
  invalidate_task_after_capture_release, task_failed_after_capture, task_completed_metric,
  mark_completed, read_status_after_completion, mark_completed_after_late_cancel,
  cache_completed_task_after_late_cancel, read_status_after_late_cancel_completion,
  cache_completed_task,
}
use metered_compute.Solution4.Repository.{update_task_status_if_match, get_task_status}
use metered_compute.Solution4.Cache.{cache_task, invalidate_task}
use metered_compute.Solution4.Billing
use metered_compute.Solution4.Billing.{inc, release_credits}

-- The request that the API hands over.
pub record Request : Type 0 where
  pub task_id : ℕ
  pub tb_transfer_id : ℕ

pub data Reason : Type 0 where
  cancelled_during_compute cancelled_after_compute credit_capture_failed : Reason
  compute_timeout compute_failed : Reason

-- The dictionary that the handler returns.
pub data Reply : Type 0 where
  status : Status → Reply
  because : Status → Reason → Reply
  with_result : Status → ComputeResult → Reply
  rejected : Reply

unfoldable pub is_status : Status → Option Status → Bool
is_status s none = false
is_status s (some t) = same_status t s

-- `current_status in {…}`: the status is answered, and else the request is rejected.
pub reply_if : (Status → Bool) → Option Status → Reply
reply_if p none = rejected
reply_if p (some s) = if p s then status s else rejected

pub started_status : Status → Bool
started_status pending = false
started_status _ = true

after_failure_status : Status → Bool
after_failure_status pending = false
after_failure_status running = false
after_failure_status _ = true

after_completion_status : Status → Bool
after_completion_status completed = true
after_completion_status failed = true
after_completion_status cancelled = true
after_completion_status _ = false

abbrev pub reason_of : Outcome → Reason
reason_of timeout = compute_timeout
reason_of _ = compute_failed

-- The payload that is cached for a completed task: id, status and result.
unfoldable pub completed_payload : ℕ → ComputeResult → Payload
completed_payload task_id r = record {
  task_id = some task_id;
  user_id = none;
  status = some completed;
  x = none;
  y = none;
  result = some r;
  cost = none;
  tb_transfer_id = none;
  idempotency_key = none;
}

module _ ⦃rt : Runtime⦄ where
  -- The runs whose result is lost, with what others do after each.
  pub again : {A : Type 0} → ℕ → Action A → State → State
  again zero m w = w
  again (suc n) m w = again n m (disturb (m w).1)

  -- `ctx.run(name, action)`
  unfoldable pub ctx_run : {A : Type 0} → Step → Action A → Action A
  unfolding disturb again
  ctx_run step m w = m (again (rt.lost step) m (disturb w))

  -- The call of the compute worker, during which other requests run.
  pub compute_call : Action Outcome
  compute_call w = (
    ok (
        compute_outcome (rt.network w.clock) rt.settings.compute_timeout_ms
          rt.settings.compute_retry_attempts),
    rt.during_compute w,
  )

  -- `_maybe_complete_cancellation`
  pub maybe_complete_cancellation : Request → Action Bool
  unfolding is_status
  maybe_complete_cancellation r = do
    current ← ctx_run read_status_after_cancel_check (get_task_status r.task_id)
    if not (is_status cancel_requested current) then pure false else do
      released ← ctx_run release_credits_for_cancel (release_credits r.tb_transfer_id)
      if not released then pure false else do
        marked ←
            ctx_run mark_cancelled_after_request
              (update_task_status_if_match r.task_id cancelled cancel_requested none)
        if not marked then pure false else do
          ctx_run invalidate_task_after_cancel (invalidate_task r.task_id)
          ctx_run task_cancelled_metric_after_request (inc task_cancelled)
          pure true

  -- `if not started: …`
  pub not_started : Request → Action Reply
  unfolding reply_if started_status
  not_started r = do
    current ← ctx_run read_status_after_start (get_task_status r.task_id)
    pure (reply_if started_status current)

  -- The counter of the step `compute_timeout_metric`, on a time-out only.
  count_timeout : Outcome → Action (Unit {0})
  count_timeout timeout = ctx_run compute_timeout_metric (inc task_timeout)
  count_timeout _ = pure tt

  -- `if updated: …`, and the reading of the status where the row was not updated.
  pub after_marked_failed : Request → Outcome → Bool → Action Reply
  unfolding reply_if after_failure_status
  after_marked_failed r outcome updated =
      if updated
      then (do
        ctx_run release_credits_after_compute_failure (release_credits r.tb_transfer_id)
        ctx_run invalidate_task_after_compute_failure (invalidate_task r.task_id)
        pure (because failed (reason_of outcome)))
      else (do
        current ← ctx_run read_status_after_compute_failure (get_task_status r.task_id)
        pure (reply_if after_failure_status current))

  -- The `else` branch of `if compute_outcome.get("ok") is True`.
  pub after_compute_failure : Request → Outcome → Action Reply
  unfolding count_timeout
  after_compute_failure r outcome = do
    cancelled_now ← maybe_complete_cancellation r
    if cancelled_now then pure (because cancelled cancelled_during_compute) else do
      ctx_run compute_metric_error (inc compute_error)
      count_timeout outcome
      updated ←
          ctx_run mark_failed_after_compute
            (update_task_status_if_match r.task_id failed running none)
      ctx_run task_failed_after_compute (inc task_failed)
      after_marked_failed r outcome updated

  -- `if not captured: …`. The release here is no step of its own.
  pub after_capture_failure : Request → Action Reply
  after_capture_failure r = do
    cancelled_now ← maybe_complete_cancellation r
    if cancelled_now then pure (because cancelled cancelled_after_compute) else do
      ctx_run mark_failed_after_capture (update_task_status_if_match r.task_id failed running none)
      released ← release_credits r.tb_transfer_id
      if released
          then ctx_run invalidate_task_after_capture_release (invalidate_task r.task_id)
          else pure tt
      ctx_run task_failed_after_capture (inc task_failed)
      pure (because failed credit_capture_failed)

  -- `if current_status == "CANCEL_REQUESTED": …` after the result could not be stored.
  pub late_cancel : Request → ComputeResult → Action Reply
  unfolding reply_if after_completion_status
  late_cancel r result = do
    completed_now ←
        ctx_run mark_completed_after_late_cancel
          (update_task_status_if_match r.task_id completed cancel_requested (some result))
    if completed_now
        then (do
          ctx_run cache_completed_task_after_late_cancel
              (cache_task r.task_id (completed_payload r.task_id result))
          pure (with_result completed result))
        else (do
          current ← ctx_run read_status_after_late_cancel_completion (get_task_status r.task_id)
          pure (reply_if after_completion_status current))

  -- From the counter of completed tasks to the end.
  pub after_capture : Request → ComputeResult → Action Reply
  unfolding reply_if after_completion_status is_status
  after_capture r result = do
    ctx_run task_completed_metric (inc task_completed)
    updated ←
        ctx_run mark_completed
          (update_task_status_if_match r.task_id completed running (some result))
    if updated
        then (do
          ctx_run cache_completed_task (cache_task r.task_id (completed_payload r.task_id result))
          pure (with_result completed result))
        else (do
          current ← ctx_run read_status_after_completion (get_task_status r.task_id)
          if is_status cancel_requested current
              then late_cancel r result
              else pure (reply_if after_completion_status current))

  -- From the successful computation to the capture.
  pub after_compute_success : Request → ComputeResult → Action Reply
  after_compute_success r result = do
    ctx_run compute_metric_ok (inc compute_ok)
    cancelled_now ← maybe_complete_cancellation r
    if cancelled_now then pure (because cancelled cancelled_after_compute) else do
      captured ← ctx_run capture_credits (Billing.capture_credits r.tb_transfer_id)
      if captured then after_capture r result else after_capture_failure r

  pub after_compute : Request → Outcome → Action Reply
  after_compute r (done result) = after_compute_success r result
  after_compute r outcome = after_compute_failure r outcome

  -- `execute_task`
  pub execute_task : Request → Action Reply
  execute_task r = do
    started ← ctx_run mark_running (update_task_status_if_match r.task_id running pending none)
    if not started
        then not_started r
        else do outcome ← ctx_run compute compute_call; after_compute r outcome
