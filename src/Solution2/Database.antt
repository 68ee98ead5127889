-- ===== src/Solution2/Database.antt =====
-- The tables of solutions/2_solution/src/solution2/db/migrations and the statements of
-- db/repository.py on them. Columns that no transaction reads are left out: the names and roles of
-- the users, `updated_at`, and the JSON payload of an event. Amounts are natural numbers, as
-- the `CHECK`s on `credits` and `cost` keep them.
use metered_compute.Base.{
  ℕ, ◌+◌, ◌-◌, String, Bool, true, false, not, ◌&&◌, ◌||◌, Option, none, some, List, [], ◌∷◌, ◌++◌,
  ◌==◌, ltb, leb, str_eq, if◌then◌else◌, is_none,
}
use metered_compute.Int.{ℤ}
use metered_compute.Exec.{ok, err, unique_violation}
use metered_compute.Table.{find, replace, update_if, Tx}
use metered_compute.Solution2.Constants.{
  SubscriptionTier, RequestMode, ModelClass, ReservationState, captured, released, TaskStatus,
  running, completed, failed, cancelled, timeout, is_open, is_pending, is_reserved,
}

pub record User : Type 0 where
  pub api_key : String
  pub user_id : ℕ
  pub credits : ℕ

pub record TaskCommand : Type 0 where
  pub task_id : ℕ
  pub user_id : ℕ
  pub tier : SubscriptionTier
  pub mode : RequestMode
  pub model_class : ModelClass
  pub status : TaskStatus
  pub x : ℤ
  pub y : ℤ
  pub cost : ℕ
  pub callback_url : Option String
  pub idempotency_key : Option String

pub record Reservation : Type 0 where
  pub task_id : ℕ
  pub user_id : ℕ
  pub amount : ℕ
  pub state : ReservationState
  pub expires_at : ℕ

pub data EventType : Type 0 where
  task_submitted task_completed task_failed task_cancelled task_timed_out credits_adjusted :
      EventType

-- A row of `cmd.outbox_events`
pub record OutboxEvent : Type 0 where
  pub aggregate_id : ℕ
  pub event_type : EventType
  pub routing_key : String

-- A row of `query.task_query_view`
pub record TaskQueryView : Type 0 where
  pub task_id : ℕ
  pub user_id : ℕ
  pub tier : SubscriptionTier
  pub mode : RequestMode
  pub model_class : ModelClass
  pub status : TaskStatus
  pub result : Option ℤ
  pub error : Option String
  pub queue_name : Option String
  pub runtime_ms : Option ℕ

pub record CreditTransaction : Type 0 where
  pub user_id : ℕ
  pub task_id : Option ℕ
  pub delta : ℤ
  pub reason : String

pub record Database : Type 0 where
  pub users : List User
  pub commands : List TaskCommand
  pub reservations : List Reservation
  pub outbox : List OutboxEvent
  pub inbox : List (ℕ × String)
  pub views : List TaskQueryView
  pub transactions : List CreditTransaction
  -- `now()`
  pub now : ℕ

abbrev pub user_key : User → ℕ
user_key u = u.user_id

abbrev pub command_key : TaskCommand → ℕ
command_key c = c.task_id

abbrev pub reservation_key : Reservation → ℕ
reservation_key r = r.task_id

abbrev pub view_key : TaskQueryView → ℕ
view_key v = v.task_id

abbrev pub get_task_command : ℕ → Database → Option TaskCommand
get_task_command task_id db = find command_key task_id db.commands

abbrev pub get_credit_reservation : ℕ → Database → Option Reservation
get_credit_reservation task_id db = find reservation_key task_id db.reservations

abbrev pub lock_user_for_admission : ℕ → Database → Bool
lock_user_for_admission user_id db = not (is_none (find user_key user_id db.users))

abbrev same_key : String → Option String → Bool
same_key k none = false
same_key k (some j) = str_eq j k

-- `WHERE user_id=$1 AND idempotency_key=$2`
unfoldable pub by_idempotency : ℕ → String → List TaskCommand → Option TaskCommand
by_idempotency user_id k [] = none
by_idempotency user_id k (c ∷ rows) =
    if c.user_id == user_id && same_key k c.idempotency_key
    then some c
    else by_idempotency user_id k rows

abbrev pub get_task_command_by_idempotency : ℕ → String → Database → Option TaskCommand
get_task_command_by_idempotency user_id k db = by_idempotency user_id k db.commands

abbrev by_key : ℕ → Option String → List TaskCommand → Option TaskCommand
by_key user_id none rows = none
by_key user_id (some k) rows = by_idempotency user_id k rows

-- The row that the partial unique index on (user_id, idempotency_key) would clash with
abbrev pub clash : TaskCommand → List TaskCommand → Option TaskCommand
clash c rows = by_key c.user_id c.idempotency_key rows

abbrev pub create_task_command : TaskCommand → Tx Database (Unit {0})
create_task_command c db =
    if is_none (find command_key c.task_id db.commands) && is_none (clash c db.commands)
    then ok (tt, record db { commands = db.commands ++ (c ∷ []) })
    else err unique_violation

abbrev pub with_status : TaskStatus → TaskCommand → TaskCommand
with_status status c = record c { status = status }

abbrev set_commands : Database → Bool × List TaskCommand → Bool × Database
set_commands db (b, rows) = (b, record db { commands = rows })

-- `SET status=… WHERE task_id=$1 AND status IN …`
abbrev pub update_status : (TaskStatus → Bool) → TaskStatus → ℕ → Database → Bool × Database
update_status p status task_id db = set_commands db (
    update_if command_key (λ c. p c.status) (with_status status) db.commands
      (get_task_command task_id db))

abbrev pub update_task_command_running : ℕ → Database → Bool × Database
update_task_command_running = update_status is_pending running

abbrev pub update_task_command_completed : ℕ → Database → Bool × Database
update_task_command_completed = update_status is_open completed

abbrev pub update_task_command_failed : ℕ → Database → Bool × Database
update_task_command_failed = update_status is_open failed

abbrev pub update_task_command_timed_out : ℕ → Database → Bool × Database
update_task_command_timed_out = update_status is_open timeout

abbrev pub update_task_command_cancelled : ℕ → Database → Bool × Database
update_task_command_cancelled = update_status is_open cancelled

abbrev pub set_credits : ℕ → User → User
set_credits n u = record u { credits = n }

abbrev set_user : Database → ℕ → User → Option ℕ × Database
set_user db n u = (some n, record db { users = replace user_key (set_credits n u) db.users })

abbrev pay : ℕ → Database → Option User → Option ℕ × Database
pay amount db none = (none, db)
pay amount db (some u) =
    if leb amount u.credits then set_user db (u.credits - amount) u else (none, db)

-- `SET credits=credits-$2 WHERE user_id=$1 AND credits >= $2 RETURNING credits`
abbrev pub reserve_user_credits : (user_id amount : ℕ) → Database → Option ℕ × Database
reserve_user_credits user_id amount db = pay amount db (find user_key user_id db.users)

abbrev add : ℕ → Database → Option User → Option ℕ × Database
add delta db none = (none, db)
add delta db (some u) = set_user db (u.credits + delta) u

-- `SET credits=credits+$2 WHERE user_id=$1 RETURNING credits`
abbrev pub add_user_credits : (user_id delta : ℕ) → Database → Option ℕ × Database
add_user_credits user_id delta db = add delta db (find user_key user_id db.users)

-- `task_id` is UNIQUE. The foreign keys hold, since a transaction inserts the command first and has
-- locked the user.
abbrev pub create_reservation : Reservation → Tx Database (Unit {0})
create_reservation r db =
    if is_none (find reservation_key r.task_id db.reservations)
    then ok (tt, record db { reservations = db.reservations ++ (r ∷ []) })
    else err unique_violation

abbrev pub with_state : ReservationState → Reservation → Reservation
with_state state r = record r { state = state }

abbrev set_reservations : Database → Bool × List Reservation → Bool × Database
set_reservations db (b, rows) = (b, record db { reservations = rows })

-- `SET state=… WHERE task_id=$1 AND state='RESERVED'`
abbrev pub update_state : ReservationState → ℕ → Database → Bool × Database
update_state state task_id db = set_reservations db (
    update_if reservation_key (λ r. is_reserved r.state) (with_state state) db.reservations
      (get_credit_reservation task_id db))

abbrev pub capture_reservation : ℕ → Database → Bool × Database
capture_reservation = update_state captured

abbrev pub release_reservation : ℕ → Database → Bool × Database
release_reservation = update_state released

-- `user_id=$1 AND state='RESERVED' AND expires_at > now()`
abbrev pub is_active : (user_id now : ℕ) → Reservation → Bool
is_active user_id now r = r.user_id == user_id && (is_reserved r.state && ltb now r.expires_at)

unfoldable pub count_active : (user_id now : ℕ) → List Reservation → ℕ
count_active user_id now [] = 0
count_active user_id now (r ∷ rows) =
    if is_active user_id now r
    then count_active user_id now rows + 1
    else count_active user_id now rows

abbrev pub count_active_reservations : ℕ → Database → ℕ
count_active_reservations user_id db = count_active user_id db.now db.reservations

-- `INSERT INTO cmd.outbox_events`
abbrev pub create_outbox_event : ℕ → EventType → String → Database → Database
create_outbox_event aggregate_id event_type routing_key db = record db {
  outbox =
      db.outbox
      ++ (record { aggregate_id = aggregate_id; event_type = event_type; routing_key = routing_key }
          ∷ []);
}

unfoldable pub is_recorded : ℕ → String → List (ℕ × String) → Bool
is_recorded event_id consumer_name [] = false
is_recorded event_id consumer_name (e ∷ rows) =
    (e.0 == event_id && str_eq e.1 consumer_name) || is_recorded event_id consumer_name rows

-- `INSERT … ON CONFLICT DO NOTHING`
abbrev pub record_inbox_event : ℕ → String → Database → Bool × Database
record_inbox_event event_id consumer_name db =
    if is_recorded event_id consumer_name db.inbox
    then (false, db)
    else (true, record db { inbox = (event_id, consumer_name) ∷ db.inbox })

abbrev pub get_task_query_view : ℕ → Database → Option TaskQueryView
get_task_query_view task_id db = find view_key task_id db.views

abbrev upserted : TaskQueryView → List TaskQueryView → Option TaskQueryView → List TaskQueryView
upserted v rows none = rows ++ (v ∷ [])
upserted v rows (some w) = replace view_key v rows

abbrev pub upsert_task_query_view : TaskQueryView → Database → Database
upsert_task_query_view v db = record db {
  views = upserted v db.views (find view_key v.task_id db.views);
}

abbrev pub insert_credit_transaction : CreditTransaction → Database → Database
insert_credit_transaction t db = record db { transactions = db.transactions ++ (t ∷ []) }
