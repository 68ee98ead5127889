-- ===== src/Solution2/Reachable.antt =====
-- The transactions of the API, the worker, the watchdog, the projector and the synchronous path of
-- solutions/2_solution/src/solution2, in any order and with any arguments, that commit.
pub mod Ledger
use metered_compute.Base.{ℕ, suc, ◌≡◌, ◌⊎◌, String, Bool, Option, some, List}
use metered_compute.Int.{ℤ}
use metered_compute.Exec.{ok}
use metered_compute.Solution2.Constants.{
  SubscriptionTier, RequestMode, ModelClass, TaskStatus, failed, timeout,
}
use metered_compute.Solution2.Database.{
  Database, Reservation, get_credit_reservation, update_task_command_running,
}
use metered_compute.Solution2.Admission.{
  AdmissionDecision, Payload, execute_admission_transaction, execute_sync_admission_transaction,
}
use metered_compute.Solution2.Worker.{
  TaskExecutionCommand, set_running_state, persist_success, persist_failure,
}
use metered_compute.Solution2.Watchdog.{expire_reservation}
use metered_compute.Solution2.Cancel.{CancelResult, apply_cancel_transaction}
use metered_compute.Solution2.Batch.{
  Ids, BatchTaskSpec, BatchAdmissionResult, execute_batch_admission_transaction,
}
use metered_compute.Solution2.Projector.{ProjectionEvent, persist_projection}
use metered_compute.Solution2.Admin.{Adjusted, adjust_credits}
use metered_compute.Solution2.Sync.{finalize_sync_success, finalize_sync_failure}

-- The watchdog's arguments are of a reservation that it has read.
pub data Transaction (db : Database) : Database → Type 0 where
  submit :
      (clock user_id task_id cost : ℕ) (key : String) (max_concurrent : ℕ) (payload : Payload)
      (mode : Option RequestMode) (queue : Option String) (ttl : Option ℕ) (d : AdmissionDecision)
      (s : Database)
      → execute_admission_transaction clock user_id task_id cost key max_concurrent payload mode
          queue ttl db
        ≡ ok (d, s)
      → Transaction db s
  submit_sync :
      (clock user_id task_id cost : ℕ) (key : String) (max_concurrent : ℕ) (tier : SubscriptionTier)
      (x y : ℤ) (m : ModelClass) (callback : Option String) (ttl : Option ℕ) (d : AdmissionDecision)
      (s : Database)
      → execute_sync_admission_transaction clock user_id task_id cost key max_concurrent tier x y m
          callback ttl db
        ≡ ok (d, s)
      → Transaction db s
  run : (task_id : ℕ) → Transaction db (update_task_command_running task_id db).1
  take : (command : TaskExecutionCommand) → Transaction db (set_running_state command db).1
  succeed :
      (command : TaskExecutionCommand) (applied : Bool) (s : Database)
      → persist_success command db ≡ ok (applied, s)
      → Transaction db s
  fail :
      (command : TaskExecutionCommand) (applied : Bool) (s : Database)
      → persist_failure command db ≡ ok (applied, s)
      → Transaction db s
  expire :
      (task_id : ℕ) (r : Reservation) (out : Bool × Option String) (s : Database)
      → get_credit_reservation task_id db ≡ some r
      → expire_reservation task_id r.user_id r.amount db ≡ ok (out, s)
      → Transaction db s
  cancel :
      (task_id : ℕ) (queue : String) (r : CancelResult) (s : Database)
      → apply_cancel_transaction task_id queue db ≡ ok (r, s)
      → Transaction db s
  succeed_sync :
      (task_id user_id : ℕ) (tier : SubscriptionTier) (m : ModelClass) (queue : String) (result : ℤ)
      (runtime_ms : ℕ) (finalized : Bool) (s : Database)
      → finalize_sync_success task_id user_id tier m queue result runtime_ms db ≡ ok (finalized, s)
      → Transaction db s
  fail_sync :
      (task_id user_id : ℕ) (tier : SubscriptionTier) (m : ModelClass) (queue : String)
      (status : TaskStatus) (message : String) (finalized : Bool) (s : Database)
      → (status ≡ timeout) ⊎ (status ≡ failed)
      → finalize_sync_failure task_id user_id tier m queue status message db ≡ ok (finalized, s)
      → Transaction db s
  submit_batch :
      (ids : Ids) (user_id : ℕ) (tier : SubscriptionTier) (base : ℕ) (ttl : Option ℕ)
      (max_concurrent : ℕ) (tasks : List BatchTaskSpec) (d : BatchAdmissionResult) (s : Database)
      → execute_batch_admission_transaction ids user_id tier base ttl max_concurrent tasks db
        ≡ ok (d, s)
      → Transaction db s
  project :
      (event : ProjectionEvent) (out : Option (String × ℕ)) (s : Database)
      → persist_projection event db ≡ ok (out, s)
      → Transaction db s
  adjust :
      (target_api_key : String) (delta : ℤ) (reason : String) (out : Option Adjusted) (s : Database)
      → adjust_credits target_api_key delta reason db ≡ ok (out, s)
      → Transaction db s
  tick : Transaction db (record db { now = suc db.now })

pub data Reach (db : Database) : Database → Type 0 where
  here : Reach db db
  later : {s t : Database} → Reach db s → Transaction s t → Reach db t
