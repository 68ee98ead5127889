-- ===== src/Solution2/Cancel.antt =====
-- cancel_task of solutions/2_solution/src/solution2/api/task_write_routes.py: its transaction, the
-- write of the cache after it, and the answers. `redis_up` says whether the write of the cache
-- succeeds within its attempts. The webhook is left out.
pub mod Moves
pub mod Answers
use metered_compute.Base.{
  ℕ, String, Bool, true, false, not, ◌&&◌, Option, none, some, ◌==◌, if◌then◌else◌,
}
use metered_compute.Int.{pos}
use metered_compute.Exec.{
  Error, Result, ok, err, http_exception, runtime_error, task_cancellation_conflict, Exec,
  ◌>>=◌ as bind, pure as return, raise as fail, try_except,
}
use metered_compute.Table.{
  Tx, pure, raise, gets, modify, run, require, require_some, return_if, ◌>>=◌, ◌>>◌,
}
use metered_compute.Solution2.Constants.{
  TaskStatus, cancelled, is_open, compute_routing_key, resolve_queue,
}
use Prim.Native.String.{◌++◌ as concat}
use metered_compute.Solution2.Database.{
  TaskCommand, task_cancelled, Database, get_task_command, get_credit_reservation,
  update_task_command_cancelled, release_reservation, add_user_credits, create_outbox_event,
  insert_credit_transaction,
}
use metered_compute.Solution2.Cache.{State, transact, hset}

pub record CancelResult : Type 0 where
  pub user_id : ℕ
  pub refunded_credits : ℕ
  pub queue_name : String

abbrev or_default : String → Result String → String
or_default d (ok q) = q
or_default d (err e) = d

abbrev pub is_cancelled : TaskStatus → Bool
is_cancelled cancelled = true
is_cancelled _ = false

-- The row was read as open and is not any more.
abbrev refreshed :
    (task_id : ℕ) (queue_name : String) → Option TaskCommand → Tx Database CancelResult
refreshed task_id queue_name none = raise task_cancellation_conflict
refreshed task_id queue_name (some c) =
    if is_cancelled c.status
    then pure (record { user_id = c.user_id; refunded_credits = 0; queue_name = queue_name })
    else raise task_cancellation_conflict

abbrev unless_applied :
    Bool → Tx Database CancelResult → Tx Database CancelResult → Tx Database CancelResult
unless_applied true m n s = n s
unless_applied false m n s = m s

unfoldable pub apply_cancel_transaction :
    (task_id : ℕ) (default_queue_name : String) → Tx Database CancelResult
apply_cancel_transaction task_id default_queue_name = do
  found ← gets (get_task_command task_id)
  require_some found task_cancellation_conflict (λ command. do
    let queue_name =
        or_default default_queue_name (resolve_queue command.tier command.mode command.model_class)
    return_if (is_cancelled command.status)
        (record { user_id = command.user_id; refunded_credits = 0; queue_name = queue_name })
        (do
          require (is_open command.status) task_cancellation_conflict
          row ← gets (get_credit_reservation task_id)
          require_some row task_cancellation_conflict (λ reservation. do
            cancellation_applied ← run (update_task_command_cancelled task_id)
            unless_applied cancellation_applied
                (do again ← gets (get_task_command task_id); refreshed task_id queue_name again)
                (do
                  released ← run (release_reservation task_id)
                  require released task_cancellation_conflict
                  balance ← run (add_user_credits reservation.user_id reservation.amount)
                  require_some balance (runtime_error "cancel_refund_target_missing") (λ updated. do
                    modify (
                        insert_credit_transaction record {
                          user_id = reservation.user_id;
                          task_id = some task_id;
                          delta = pos reservation.amount;
                          reason = "cancel_refund";
                        })
                    modify (
                        create_outbox_event task_id task_cancelled (
                          concat (compute_routing_key command.mode command.tier command.model_class)
                            ".cancelled"))
                    pure record {
                      user_id = reservation.user_id;
                      refunded_credits = reservation.amount;
                      queue_name = queue_name;
                    })))))

abbrev sync_cancel_state_to_redis :
    (redis_up : Bool) (task_id user_id : ℕ) (queue_name : String) → Exec State (Unit {0})
sync_cancel_state_to_redis false task_id user_id queue_name s =
    (err (runtime_error "redis is unavailable"), s)
sync_cancel_state_to_redis true task_id user_id queue_name s = (
  ok tt,
  hset task_id
      (record {
        status = cancelled;
        user_id = user_id;
        queue = queue_name;
        error = "";
        result = none;
        runtime_ms = none;
      })
      s,
)

pub record AuthUser : Type 0 where
  pub user_id : ℕ
  pub is_admin : Bool

pub record CancelTaskResponse : Type 0 where
  pub task_id : ℕ
  pub credits_refunded : ℕ

abbrev pub answer : Error → Error
answer task_cancellation_conflict = http_exception 409 "Task is not cancellable"
answer _ = http_exception 503 "Service temporarily unavailable"

abbrev pub default_queue : TaskCommand → String
default_queue c = or_default "queue.batch" (resolve_queue c.tier c.mode c.model_class)

module _ (redis_up : Bool) (user : AuthUser) (task_id : ℕ) where
  unfoldable pub by_status : TaskCommand → Exec State CancelTaskResponse
  unfolding bind return fail try_except
  by_status command =
      let queue = resolve_queue command.tier command.mode command.model_class in
      if is_cancelled command.status
      then bind (sync_cancel_state_to_redis redis_up task_id command.user_id (or_default "" queue))
          (λ done. return (record { task_id = task_id; credits_refunded = 0 }))
      else if is_open command.status
      then try_except
          (bind (transact (apply_cancel_transaction task_id (default_queue command))) (λ r.
            bind (sync_cancel_state_to_redis redis_up task_id r.user_id r.queue_name)
              (λ done. return r)))
          (λ r. return (record { task_id = task_id; credits_refunded = r.refunded_credits }))
          (λ e. fail (answer e))
      else fail (http_exception 409 "Task is not cancellable")

  unfoldable pub for_command : Option TaskCommand → Exec State CancelTaskResponse
  unfolding by_status
  for_command none = fail (http_exception 404 "Task not found")
  for_command (some command) =
      if not user.is_admin && not (command.user_id == user.user_id)
      then fail (http_exception 404 "Task not found")
      else by_status command

  unfoldable pub cancel_task : Exec State CancelTaskResponse
  unfolding for_command
  cancel_task s = for_command (get_task_command task_id s.db) s
