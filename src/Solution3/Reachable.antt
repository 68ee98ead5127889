-- ===== src/Solution3/Reachable.antt =====
-- What the services of Solution 3 can do to the database, in any order: each step is one transaction
-- of solutions/3_solution/src/solution3/db/repository.py, with any arguments, or the clock.
pub mod Settlement
use metered_compute.Base.{
  ℕ, suc, ◌≡◌, refl, Bool, true, false, Option, none, some, List, [], ◌∷◌, arith, String,
}
use metered_compute.Int.{ℤ}
use metered_compute.Solution3.Database.{
  TaskStatus, completed, failed, BillingState, captured, released, TaskCommand, Resolution,
  Database, is_terminal, OutboxEvent,
}
use metered_compute.Solution3.Commands.{
  submit_task_command, cancel_task_command, update_task_running, finalize_task_command,
}
use metered_compute.Solution3.Commands.Outbox.{mark_outbox_events_published}
use metered_compute.Solution3.Commands.Stale.{
  expire_stale_reserved_task, align_stale_reserved_task_terminal_state,
}
use metered_compute.Solution3.Projection.{
  Message, apply_task_projection, reset_projection_state, rebuild_task_query_view_from_commands,
}

pub data Step (db : Database) : Database → Type 0 where
  submit : (c : TaskCommand) → Step db (submit_task_command c db).1
  cancel : (task_id : ℕ) → Step db (cancel_task_command task_id db).1
  start : (task_id : ℕ) → Step db (update_task_running task_id db).1
  complete :
      (task_id : ℕ) (result : Option ℤ)
      → Step db (finalize_task_command task_id completed captured result none db).1
  fail :
      (task_id : ℕ) (error : Option String)
      → Step db (finalize_task_command task_id failed released none error db).1
  expire :
      (task_id transfer_id secs : ℕ)
      → Step db (expire_stale_reserved_task task_id transfer_id secs db).1
  align :
      (task : TaskCommand) (status : TaskStatus) (billing_state : BillingState)
      (resolution : Resolution) (secs : ℕ) (row : Option TaskCommand) (t : Database)
      → align_stale_reserved_task_terminal_state task status billing_state resolution secs db
        ≡ some (row, t)
      → Step db t
  mark_published : (ids : List ℕ) → Step db (mark_outbox_events_published ids db)
  project :
      (consumer_name projector_name : String) (m : Message)
      → Step db (apply_task_projection consumer_name projector_name m db).1
  reset :
      (consumer_names projector_names : List String)
      → Step db (reset_projection_state consumer_names projector_names db)
  rebuild : Step db (rebuild_task_query_view_from_commands db).1
  tick : Step db (record db { now = suc db.now })

pub data Reach (db : Database) : Database → Type 0 where
  here : Reach db db
  later : {s t : Database} → Reach db s → Step s t → Reach db t
