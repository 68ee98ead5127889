-- ===== src/Solution3/Commands.antt =====
-- The transactions of solutions/3_solution/src/solution3/db/repository.py on the task commands. Each
-- is atomic: it updates the command's row and inserts the event into the outbox, or does nothing.
pub mod Outbox
pub mod Rows
pub mod Settled
pub mod Sound
pub mod Stale
pub mod Updates
use metered_compute.Base.{
  ℕ, zero, suc, ◌+◌, String, Bool, true, false, not, ◌&&◌, Option, none, some, List, [], ◌∷◌, ◌++◌,
  ◌==◌, ltb, str_eq, if◌then◌else◌,
}
use metered_compute.Int.{ℤ}
use metered_compute.Exec.{Exec, ok, err, unique_violation}
use metered_compute.Solution3.Database.{
  TaskStatus, pending, running, completed, failed, cancelled, BillingState, reserved, released,
  same_status, is_terminal, is_reserved, TaskCommand, TaskQueryView, Topic, tasks_requested,
  tasks_started, tasks_completed, tasks_failed, tasks_cancelled, tasks_expired, Payload,
  OutboxEvent, Resolution, tb_auto_expired, ReconcileJob, Database,
}

-- `SELECT * FROM cmd.task_commands WHERE task_id=$1`
unfoldable pub find : ℕ → List TaskCommand → Option TaskCommand
find task_id [] = none
find task_id (c ∷ rows) = if c.task_id == task_id then some c else find task_id rows

-- `UPDATE … WHERE … RETURNING`, of which the first row is fetched
unfoldable pub update_returning :
    (TaskCommand → Bool)
    → (TaskCommand → TaskCommand)
    → List TaskCommand
    → Option TaskCommand × List TaskCommand
update_returning p f [] = (none, [])
update_returning p f (c ∷ rows) =
    let (row, rest) = update_returning p f rows in
    if p c then (some (f c), f c ∷ rest) else (row, c ∷ rest)

-- `WHERE user_id=$1 AND idempotency_key=$2`
abbrev same_key : Option String → Option String → Bool
same_key (some j) (some k) = str_eq j k
same_key _ _ = false

find_key : ℕ → Option String → List TaskCommand → Option TaskCommand
find_key user_id key [] = none
find_key user_id key (c ∷ rows) =
    if c.user_id == user_id && same_key c.idempotency_key key
    then some c
    else find_key user_id key rows

-- `INSERT INTO cmd.outbox_events`
unfoldable pub emit : (task_id : ℕ) → Topic → Payload → Database → Database
emit task_id topic payload db = record db {
  outbox =
      db.outbox
      ++ (record {
        event_id = db.ids;
        aggregate_id = task_id;
        topic = topic;
        payload = payload;
        published = false;
      }
          ∷ []);
  ids = db.ids + 1;
}

abbrev pub no_fields : Payload
no_fields = record { status = none; billing_state = none; result = none; error = none }

-- `SET status=$2, billing_state=$3`
abbrev pub with_status : TaskStatus → BillingState → TaskCommand → TaskCommand
with_status status billing_state c = record c { status = status; billing_state = billing_state }

abbrev pub is_open : TaskCommand → Bool
is_open c = not (is_terminal c.status)

-- `WHERE task_id=$1 AND status IN ('PENDING', 'RUNNING')`
abbrev pub open_row : ℕ → TaskCommand → Bool
open_row task_id c = c.task_id == task_id && is_open c

-- `WHERE task_id=$1 AND status='PENDING'`
abbrev pub pending_row : ℕ → TaskCommand → Bool
pending_row task_id c = c.task_id == task_id && same_status c.status pending

-- `billing_state='RESERVED' AND status IN ('PENDING', 'RUNNING')`, and older than the limit
abbrev pub stale : (stale_after_seconds now : ℕ) → TaskCommand → Bool
stale secs now c = is_reserved c.billing_state && is_open c && ltb (c.created_at + secs) now

abbrev pub stale_row : ℕ → (stale_after_seconds now : ℕ) → TaskCommand → Bool
stale_row task_id secs now c = c.task_id == task_id && stale secs now c

abbrev pub mark_running : TaskCommand → TaskCommand
mark_running c = record c { status = running }

-- `if updated is None: return …`, and else the rest of the transaction
abbrev pub when_updated :
    Option TaskCommand × List TaskCommand
    → (TaskCommand → Database → Database)
    → Database
    → Option TaskCommand × Database
when_updated (none, rows) g db = (none, db)
when_updated (some c, rows) g db = (some c, g c (record db { commands = rows }))

abbrev pub is_updated : Option TaskCommand × Database → Bool × Database
is_updated (none, db) = (false, db)
is_updated (some c, db) = (true, db)

-- `INSERT`, given the rows that the primary key and the partial unique index would clash with
insert_unless :
    Option TaskCommand
    → Option TaskCommand
    → TaskCommand
    → List TaskCommand
    → Option (List TaskCommand)
insert_unless none none c rows = some (rows ++ (c ∷ []))
insert_unless (some d) key c rows = none
insert_unless none (some d) c rows = none

insert : TaskCommand → List TaskCommand → Option (List TaskCommand)
unfolding find find_key insert_unless
insert c rows =
    insert_unless (find c.task_id rows) (find_key c.user_id c.idempotency_key rows) c rows

inserted : TaskCommand → Option (List TaskCommand) → Exec Database (Bool × TaskCommand)
unfolding emit
inserted c none db = (err unique_violation, db)
inserted c (some rows) db =
    (ok (true, c), emit c.task_id tasks_requested no_fields (record db { commands = rows }))

existing_or : Option TaskCommand → TaskCommand → Exec Database (Bool × TaskCommand)
unfolding insert inserted
existing_or (some d) c db = (ok (false, d), db)
existing_or none c db = inserted c (insert c db.commands) db

-- The command to insert is given with the fields that the caller chooses; the row is pending and
-- reserved, and created now.
unfoldable pub submit_task_command : TaskCommand → Exec Database (Bool × TaskCommand)
unfolding existing_or find_key
submit_task_command c db =
    existing_or (find_key c.user_id c.idempotency_key db.commands)
      (record c { status = pending; billing_state = reserved; created_at = db.now }) db

unfoldable pub cancel_task_command : ℕ → Database → Bool × Database
unfolding emit update_returning
cancel_task_command task_id db = is_updated (
    when_updated (update_returning (open_row task_id) (with_status cancelled released) db.commands)
      (λ c.
        emit task_id tasks_cancelled
          (record no_fields { status = some cancelled; billing_state = some released }))
      db)

unfoldable pub update_task_running : ℕ → Database → Bool × Database
unfolding emit update_returning
update_task_running task_id db = is_updated (
    when_updated (update_returning (pending_row task_id) mark_running db.commands)
      (λ c. emit task_id tasks_started (record no_fields { status = some running })) db)

-- The caller gives the status COMPLETED or FAILED.
abbrev pub topic_of_final : TaskStatus → Topic
topic_of_final completed = tasks_completed
topic_of_final _ = tasks_failed

unfoldable pub finalize_task_command :
    ℕ → TaskStatus → BillingState → Option ℤ → Option String → Database → Bool × Database
unfolding emit update_returning
finalize_task_command task_id status billing_state result error db = is_updated (
    when_updated
      (update_returning (open_row task_id) (with_status status billing_state) db.commands)
      (λ c. emit task_id (topic_of_final status) (record {
        status = some status;
        billing_state = some billing_state;
        result = result;
        error = error;
      }))
      db)

-- `UPDATE query.task_query_view … WHERE task_id=$1`
unfoldable pub update_view :
    ℕ → (TaskQueryView → TaskQueryView) → List TaskQueryView → List TaskQueryView
update_view task_id f [] = []
update_view task_id f (v ∷ views) =
    (if v.task_id == task_id then f v else v) ∷ update_view task_id f views
