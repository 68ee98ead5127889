-- ===== src/Solution3/Commands/Stale.antt =====
-- The commands of solutions/3_solution/src/solution3/db/repository.py whose reservation is stale:
-- how they are listed, expired, and aligned with the transfer in the ledger.
use metered_compute.Base.{ℕ, Bool, Option, none, some, List, [], ◌∷◌, if◌then◌else◌}
use metered_compute.Solution3.Database.{
  TaskStatus, completed, failed, cancelled, BillingState, TaskCommand, TaskQueryView, Topic,
  tasks_completed, tasks_failed, tasks_cancelled, tasks_expired, Resolution, tb_auto_expired,
  Database,
}
use metered_compute.Solution3.Commands.{
  update_returning, emit, no_fields, with_status, stale, stale_row, when_updated, update_view,
}

unfoldable pub add_job : ℕ → ℕ → Resolution → Database → Database
add_job task_id transfer_id resolution db = record db {
  jobs =
      record { task_id = task_id; tb_pending_transfer_id = transfer_id; resolution = resolution }
      ∷ db.jobs;
}

unfoldable pub in_view : ℕ → (TaskQueryView → TaskQueryView) → Database → Database
unfolding update_view
in_view task_id f db = record db { views = update_view task_id f db.views }

abbrev stale_rows : ℕ → List TaskCommand → (ℕ → TaskCommand → Bool) → List TaskCommand
stale_rows now [] p = []
stale_rows now (c ∷ rows) p = let rest = stale_rows now rows p in if p now c then c ∷ rest else rest

-- The rows in the order of the table, to which a command is added when it is created: by age.
unfoldable pub list_stale_reserved_tasks : (stale_after_seconds : ℕ) → Database → List TaskCommand
list_stale_reserved_tasks secs db = stale_rows db.now db.commands (stale secs)

unfoldable pub expire_stale_reserved_task :
    (task_id tb_pending_transfer_id stale_after_seconds : ℕ)
    → Database
    → Option TaskCommand × Database
unfolding emit update_returning add_job in_view
expire_stale_reserved_task task_id transfer_id secs db =
    when_updated
      (update_returning (stale_row task_id secs db.now)
        (with_status TaskStatus.expired BillingState.expired) db.commands)
      (λ c db'.
        emit task_id tasks_expired
          (record no_fields {
            status = some TaskStatus.expired;
            billing_state = some BillingState.expired;
          })
          (add_job task_id transfer_id tb_auto_expired (
            in_view task_id
              (λ v. record v { status = TaskStatus.expired; billing_state = BillingState.expired })
              db')))
      db

-- `_terminal_event_for_status`, which raises for the other statuses
unfoldable pub terminal_event_for_status : TaskStatus → Option Topic
terminal_event_for_status completed = some tasks_completed
terminal_event_for_status failed = some tasks_failed
terminal_event_for_status cancelled = some tasks_cancelled
terminal_event_for_status TaskStatus.expired = some tasks_expired
terminal_event_for_status _ = none

unfoldable pub align_with :
    TaskCommand
    → Topic
    → TaskStatus
    → BillingState
    → Resolution
    → ℕ
    → Database
    → Option TaskCommand × Database
unfolding emit update_returning add_job in_view
align_with task topic status billing_state resolution secs db =
    when_updated
      (update_returning (stale_row task.task_id secs db.now) (with_status status billing_state)
        db.commands)
      (λ c db'.
        emit task.task_id topic
          (record no_fields { status = some status; billing_state = some billing_state })
          (add_job task.task_id task.tb_pending_transfer_id resolution (
            in_view task.task_id
              (λ v. record v {
                status = status;
                billing_state = billing_state;
                result = none;
                error = none;
              })
              db')))
      db

unfoldable pub aligned_as :
    Option Topic
    → TaskCommand
    → TaskStatus
    → BillingState
    → Resolution
    → ℕ
    → Database
    → Option (Option TaskCommand × Database)
unfolding align_with
aligned_as none task status billing_state resolution secs db = none
aligned_as (some topic) task status billing_state resolution secs db =
    some (align_with task topic status billing_state resolution secs db)

-- Absent is the exception of a status that is not terminal.
unfoldable pub align_stale_reserved_task_terminal_state :
    TaskCommand
    → TaskStatus
    → BillingState
    → Resolution
    → (stale_after_seconds : ℕ) → Database
    → Option (Option TaskCommand × Database)
unfolding terminal_event_for_status aligned_as
align_stale_reserved_task_terminal_state task status billing_state resolution secs db =
    aligned_as (terminal_event_for_status status) task status billing_state resolution secs db
