-- ===== src/Solution2/Worker.antt =====
-- solutions/2_solution/src/solution2/workers/worker.py: what one delivery does to the database and to
-- the cache. `executed` is what the model's run gives, or the error it raises.
pub mod Moves
use metered_compute.Base.{ℕ, String, Bool, true, false, Option, none, some, str_eq, if◌then◌else◌}
use metered_compute.Int.{ℤ, pos}
use metered_compute.Solution2.Cache.{State, transact, execute, hset}
use metered_compute.Exec.{ok, runtime_error, Exec, ◌>>=◌ as bind, pure as return}
use metered_compute.Table.{
  Tx, pure, raise, gets, modify, run, require, return_unless, require_some, ◌>>=◌, ◌>>◌,
}
use metered_compute.Solution2.Constants.{ModelClass, TaskStatus, is_reserved}
use metered_compute.Solution2.Database.{
  TaskCommand, task_completed, task_failed, Database, get_task_command, get_credit_reservation,
  update_task_command_running, update_task_command_completed, update_task_command_failed,
  capture_reservation, release_reservation, add_user_credits, create_outbox_event,
  record_inbox_event, insert_credit_transaction,
}

pub record TaskExecutionCommand : Type 0 where
  pub event_id : ℕ
  pub task_id : ℕ
  pub user_id : ℕ
  pub x : ℤ
  pub y : ℤ
  pub cost : ℕ
  pub mode : String
  pub tier : String
  pub model_class : ModelClass
  pub queue_name : String
  pub routing_key : String
  pub event_type : String

-- `WORKER_CONSUMER_NAME`
abbrev pub worker_consumer_name : String
worker_consumer_name = "worker"

abbrev pub mark : (task_id : ℕ) → TaskStatus → Database → Bool × Database
mark task_id TaskStatus.pending db = update_task_command_running task_id db
mark task_id TaskStatus.running db = (true, db)
mark task_id _ db = (false, db)

abbrev mark_existing : (task_id : ℕ) → Option TaskCommand → Database → Bool × Database
mark_existing task_id none db = (false, db)
mark_existing task_id (some existing) db = mark task_id existing.status db

-- The row is read by one statement and updated by another, which has its own guard.
unfoldable pub set_running_state : TaskExecutionCommand → Database → Bool × Database
set_running_state command db =
    mark_existing command.task_id (get_task_command command.task_id db) db

unfoldable pub persist_success : TaskExecutionCommand → Tx Database Bool
persist_success command = do
  dedup_inserted ← run (record_inbox_event command.event_id worker_consumer_name)
  return_unless dedup_inserted false (do
    status_updated ← run (update_task_command_completed command.task_id)
    return_unless status_updated false (do
      found ← gets (get_credit_reservation command.task_id)
      require_some found (runtime_error "reservation missing for completed task") (λ reservation. do
        require (is_reserved reservation.state)
            (runtime_error "reservation must be RESERVED before capture")
        captured ← run (capture_reservation command.task_id)
        require captured (runtime_error "reservation capture failed")
        modify (create_outbox_event command.task_id task_completed command.routing_key)
        pure true)))

unfoldable pub persist_failure : TaskExecutionCommand → Tx Database Bool
persist_failure command = do
  dedup_inserted ← run (record_inbox_event command.event_id worker_consumer_name)
  return_unless dedup_inserted false (do
    status_updated ← run (update_task_command_failed command.task_id)
    return_unless status_updated false (do
      found ← gets (get_credit_reservation command.task_id)
      require_some found (runtime_error "reservation missing for failed task") (λ reservation. do
        require (is_reserved reservation.state)
            (runtime_error "reservation must be RESERVED before release")
        released ← run (release_reservation command.task_id)
        require released (runtime_error "reservation release failed")
        balance ← run (add_user_credits reservation.user_id reservation.amount)
        require_some balance (runtime_error "credit refund target user not found") (λ updated. do
          modify (
              insert_credit_transaction record {
                user_id = reservation.user_id;
                task_id = some command.task_id;
                delta = pos reservation.amount;
                reason = "task_failed_refund";
              })
          modify (create_outbox_event command.task_id task_failed command.routing_key)
          pure true))))

-- `TaskCompletionMetricStatus`
pub data CompletionStatus : Type 0 where
  completed failed skipped : CompletionStatus

-- What the model's run gives, or the error that it raises
pub data Executed : Type 0 where
  computed : (z : ℤ) (runtime_ms : ℕ) → Executed
  crashed : (error_message : String) → Executed

abbrev write_terminal_cache :
    TaskExecutionCommand
    → TaskStatus
    → Option ℤ
    → (error : String) → Option ℕ
    → Exec State (Unit {0})
write_terminal_cache command status result message runtime_ms s = (
  ok tt,
  hset command.task_id
      (record {
        status = status;
        user_id = command.user_id;
        queue = command.queue_name;
        error = message;
        result = result;
        runtime_ms = runtime_ms;
      })
      s,
)

-- `if not applied: return SKIPPED`, and else the cache is written
after_persist :
    (applied : Bool) → Exec State (Unit {0}) → CompletionStatus → Exec State CompletionStatus
unfolding bind return
after_persist false write status = return CompletionStatus.skipped
after_persist true write status = bind write (λ done. return status)

persist : TaskExecutionCommand → Executed → Exec State CompletionStatus
unfolding bind after_persist
persist command (computed z runtime_ms) = bind (transact (persist_success command)) (λ applied.
    after_persist applied
      (write_terminal_cache command TaskStatus.completed (some z) "" (some runtime_ms))
      CompletionStatus.completed)
persist command (crashed error_message) = bind (transact (persist_failure command)) (λ applied.
    after_persist applied (write_terminal_cache command TaskStatus.failed none error_message none)
      CompletionStatus.failed)

abbrev when_running : Bool → Exec State CompletionStatus → Exec State CompletionStatus
when_running true m s = m s
when_running false m s = (ok CompletionStatus.skipped, s)

-- A delivery whose body is no command is `none`.
unfoldable pub process_delivery :
    Option TaskExecutionCommand → Executed → Exec State CompletionStatus
unfolding bind persist
process_delivery none executed s = (ok CompletionStatus.skipped, s)
process_delivery (some command) executed s =
    if str_eq command.event_type "task.submitted"
    then bind (execute (set_running_state command))
        (λ marked. when_running marked (persist command executed)) s
    else (ok CompletionStatus.skipped, s)
