-- ===== src/Solution2/Sync.antt =====
-- The synchronous submission of solutions/2_solution/src/solution2/services/billing.py: admission, the
-- simulated run, and its end. `SyncRun` is how the run ends.
pub mod Moves
use metered_compute.Base.{ℕ, ◌+◌, String, Bool, true, false, not, Option, none, some, if◌then◌else◌}
use metered_compute.Int.{ℤ, ◌+ℤ◌, pos}
use metered_compute.Exec.{
  Error, Result, ok, err, runtime_error, Exec, ◌>>=◌ as bind, pure as return, try_except,
}
use metered_compute.Table.{
  Tx, pure, raise, gets, modify, run, require, require_some, return_unless, ◌>>=◌, ◌>>◌,
}
use metered_compute.Solution2.Constants.{
  SubscriptionTier, RequestMode, ModelClass, TaskStatus, completed, failed, timeout,
}
use metered_compute.Solution2.Database.{
  TaskCommand, TaskQueryView, Database, get_credit_reservation, update_task_command_running,
  update_task_command_completed, update_task_command_failed, update_task_command_timed_out,
  capture_reservation, release_reservation, add_user_credits, insert_credit_transaction,
  upsert_task_query_view,
}
use metered_compute.Solution2.Cache.{State, transact, execute}
use metered_compute.Solution2.Admission.{
  AdmissionDecision, Reason, rejected, accepted, execute_sync_admission_transaction,
}

pub record SyncExecutionResult : Type 0 where
  pub status : TaskStatus
  pub result : Option ℤ
  pub error : Option String
  pub runtime_ms : Option ℕ

pub data SyncRun : Type 0 where
  done : (runtime_ms : ℕ) → SyncRun
  timed_out : SyncRun
  crashed : String → SyncRun

abbrev pub Outcome : Type 0
Outcome = AdmissionDecision × Option SyncExecutionResult

abbrev is_timeout : TaskStatus → Bool
is_timeout timeout = true
is_timeout _ = false

abbrev update_ended : TaskStatus → ℕ → Database → Bool × Database
update_ended status =
    if is_timeout status then update_task_command_timed_out else update_task_command_failed

abbrev refund_reason : TaskStatus → String
refund_reason status = if is_timeout status then "task_timeout_refund" else "task_failed_refund"

abbrev pub sync_error_outcome : Outcome
sync_error_outcome = (rejected Reason.error, none)

module _ (task_id user_id : ℕ) (user_tier : SubscriptionTier) (model_class : ModelClass)
    (queue_name : String) where
  abbrev view : TaskStatus → Option ℤ → Option String → Option ℕ → TaskQueryView
  view status result message runtime_ms = record {
    task_id = task_id;
    user_id = user_id;
    tier = user_tier;
    mode = RequestMode.sync;
    model_class = model_class;
    status = status;
    result = result;
    error = message;
    queue_name = some queue_name;
    runtime_ms = runtime_ms;
  }

  unfoldable pub finalize_sync_success : (result : ℤ) (runtime_ms : ℕ) → Tx Database Bool
  finalize_sync_success result runtime_ms = do
    status_updated ← run (update_task_command_completed task_id)
    return_unless status_updated false (do
      found ← gets (get_credit_reservation task_id)
      require_some found (runtime_error "sync reservation missing") (λ reservation. do
        captured ← run (capture_reservation task_id)
        require captured (runtime_error "sync reservation capture failed")
        modify (upsert_task_query_view (view completed (some result) none (some runtime_ms)))
        pure true))

  unfoldable pub finalize_sync_failure : TaskStatus → (error_message : String) → Tx Database Bool
  finalize_sync_failure status error_message = do
    status_updated ← run (update_ended status task_id)
    return_unless status_updated false (do
      found ← gets (get_credit_reservation task_id)
      require_some found (runtime_error "sync reservation missing") (λ reservation. do
        released ← run (release_reservation task_id)
        require released (runtime_error "sync reservation release failed")
        balance ← run (add_user_credits reservation.user_id reservation.amount)
        require_some balance (runtime_error "sync refund user missing") (λ updated. do
          modify (
              insert_credit_transaction record {
                user_id = reservation.user_id;
                task_id = some task_id;
                delta = pos reservation.amount;
                reason = refund_reason status;
              })
          modify (upsert_task_query_view (view status none (some error_message) none))
          pure true)))

  -- `if not finalized: return _sync_error_outcome()`
  abbrev ended : Bool → SyncExecutionResult → Outcome
  ended true r = (accepted, some r)
  ended false r = sync_error_outcome

  abbrev failing : TaskStatus → String → Exec State Outcome
  failing status message = bind (transact (finalize_sync_failure status message)) (λ finalized.
      return (
        ended finalized
          (record { status = status; result = none; error = some message; runtime_ms = none })))

  -- An error of the transaction of a success counts as a failure of the run.
  unfoldable pub execute_sync_runtime : SyncRun → (x y : ℤ) → Exec State Outcome
  unfolding bind return try_except
  execute_sync_runtime (done runtime_ms) x y =
      try_except (transact (finalize_sync_success (x +ℤ y) runtime_ms))
        (λ finalized. return (
          ended finalized (record {
            status = completed;
            result = some (x +ℤ y);
            error = none;
            runtime_ms = some runtime_ms;
          })))
        (λ e. failing failed "sync_execution_failed")
  execute_sync_runtime timed_out x y = failing timeout "sync_execution_timeout"
  execute_sync_runtime (crashed message) x y = failing failed message

  after_running : Bool → SyncRun → (x y : ℤ) → Exec State Outcome
  unfolding execute_sync_runtime
  after_running true sync_run x y = execute_sync_runtime sync_run x y
  after_running false sync_run x y = return sync_error_outcome

  after_admission : AdmissionDecision → SyncRun → (x y : ℤ) → Exec State Outcome
  unfolding after_running
  after_admission decision sync_run x y =
      if decision.ok
      then bind (execute (update_task_command_running task_id))
          (λ marked_running. after_running marked_running sync_run x y)
      else return (decision, none)

  unfoldable pub run_sync_submission :
      (clock cost : ℕ) (idempotency_value : String) (max_concurrent : ℕ) (x y : ℤ)
      → Option String
      → Option ℕ
      → SyncRun
      → Exec State Outcome
  unfolding after_admission
  run_sync_submission clock cost key max_concurrent x y callback_url ttl sync_run =
      try_except
        (transact (
          execute_sync_admission_transaction clock user_id task_id cost key max_concurrent user_tier
            x y model_class callback_url ttl))
        (λ decision. after_admission decision sync_run x y) (λ e. return sync_error_outcome)
