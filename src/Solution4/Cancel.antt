-- ===== src/Solution4/Cancel.antt =====
-- Cancellation: `cancel_task` of solutions/4_solution/src/solution4/app.py.
pub mod Outcome
use metered_compute.Base.{
  ℕ, String, Bool, true, false, not, Option, none, some, ◌==◌, if◌then◌else◌,
}
use metered_compute.Exec.{Exec, Error, http_exception, ok, pure, raise, ◌>>=◌, ◌>>◌}
use metered_compute.Solution4.World.{
  Status, pending, running, completed, failed, cancelled, cancel_requested, Task, task_cancelled,
  Runtime, Action,
}
use metered_compute.Solution4.Repository.{get_task, update_task_status_if_match}
use metered_compute.Solution4.Cache.{invalidate_task}
use metered_compute.Solution4.Billing.{inc, release_credits}
use metered_compute.Solution4.Auth.{AuthUser, authenticate}

pub record CancelResponse : Type 0 where
  pub task_id : ℕ
  pub status : Status
  pub credits_refunded : ℕ

abbrev pub not_found : Error
not_found = http_exception 404 "Task not found"

abbrev pub not_yours : Error
not_yours = http_exception 403 "Not your task"

abbrev pub cannot_cancel : Status → Error
cannot_cancel pending = http_exception 409 "Cannot cancel task in PENDING state"
cannot_cancel running = http_exception 409 "Cannot cancel task in RUNNING state"
cannot_cancel completed = http_exception 409 "Cannot cancel task in COMPLETED state"
cannot_cancel failed = http_exception 409 "Cannot cancel task in FAILED state"
cannot_cancel cancelled = http_exception 409 "Cannot cancel task in CANCELLED state"
cannot_cancel cancel_requested = http_exception 409 "Cannot cancel task in CANCEL_REQUESTED state"

abbrev pub state_changed : Error
state_changed = http_exception 409 "Task state changed while cancel was processed"

abbrev pub release_failed : Error
release_failed = http_exception 500 "Credit release failed"

module _ ⦃rt : Runtime⦄ where
  -- `if status == "RUNNING": …`
  cancel_running : ℕ → Action CancelResponse
  cancel_running task_id = do
    requested ← update_task_status_if_match task_id cancel_requested running none
    if requested
        then pure (record { task_id = task_id; status = cancel_requested; credits_refunded = 0 })
        else raise state_changed

  -- The status that is read again after the race with the workflow.
  after_race : ℕ → Status → Action CancelResponse
  unfolding cancel_running
  after_race task_id running = cancel_running task_id
  after_race task_id status = raise (cannot_cancel status)

  raced : ℕ → Option Task → Action CancelResponse
  unfolding after_race
  raced task_id none = raise not_found
  raced task_id (some t) = after_race task_id t.status

  -- The row is cancelled; its credits are released, or it is put back.
  release : Task → Action CancelResponse
  release t = do
    released ← release_credits t.tb_transfer_id
    if not released
        then (do update_task_status_if_match t.task_id pending cancelled none; raise release_failed)
        else (do
          inc task_cancelled
          invalidate_task t.task_id
          pure (record { task_id = t.task_id; status = cancelled; credits_refunded = t.cost }))

  -- `if status == "PENDING": …`
  cancel_pending : Task → Action CancelResponse
  unfolding raced release
  cancel_pending t = do
    cancelled_now ← update_task_status_if_match t.task_id cancelled pending none
    if not cancelled_now then (do row ← get_task t.task_id; raced t.task_id row) else release t

  by_status : Status → Task → Action CancelResponse
  unfolding cancel_pending cancel_running
  by_status cancelled t =
      pure (record { task_id = t.task_id; status = cancelled; credits_refunded = 0 })
  by_status cancel_requested t =
      pure (record { task_id = t.task_id; status = cancel_requested; credits_refunded = 0 })
  by_status completed t = raise (cannot_cancel completed)
  by_status failed t = raise (cannot_cancel failed)
  by_status pending t = cancel_pending t
  by_status running t = cancel_running t.task_id

  -- What follows the reading of the row; a row that is read has the requested id.
  pub cancel_row : AuthUser → Option Task → Action CancelResponse
  unfolding by_status
  cancel_row user none = raise not_found
  cancel_row user (some t) =
      if t.user_id == user.user_id then by_status t.status t else raise not_yours

  pub cancel_task : String → ℕ → Action CancelResponse
  cancel_task auth task_id = do
    user ← authenticate auth
    row ← get_task task_id
    cancel_row user row
