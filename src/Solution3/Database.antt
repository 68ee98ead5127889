-- ===== src/Solution3/Database.antt =====
-- The enumerations of solutions/3_solution/src/solution3/constants.py, the records of
-- models/domain.py, and the tables of the migrations. A time stamp is in seconds; `updated_at` and
-- the time stamps of the events are left out.
use metered_compute.Base.{ℕ, ◌*◌, String, Bool, true, false, Option, List, ◌==◌, leb, if◌then◌else◌}
use metered_compute.Int.{ℤ}

pub data SubscriptionTier : Type 0 where
  free pro enterprise : SubscriptionTier

pub data RequestMode : Type 0 where
  async sync batch : RequestMode

pub data ModelClass : Type 0 where
  small medium large : ModelClass

pub data TaskStatus : Type 0 where
  pending running completed failed cancelled expired : TaskStatus

pub data BillingState : Type 0 where
  reserved captured released expired : BillingState

-- `TASK_TERMINAL_STATUSES`
abbrev pub is_terminal : TaskStatus → Bool
is_terminal pending = false
is_terminal running = false
is_terminal _ = true

-- `MODEL_COST_MULTIPLIER`
abbrev pub model_cost_multiplier : ModelClass → ℕ
model_cost_multiplier small = 1
model_cost_multiplier medium = 2
model_cost_multiplier large = 5

-- `max(1, base_cost * MODEL_COST_MULTIPLIER[model_class])`, for a base cost that is not negative
unfoldable pub task_cost_for_model : (base_cost : ℕ) → ModelClass → ℕ
task_cost_for_model base_cost model_class =
    if leb 1 (base_cost * model_cost_multiplier model_class)
    then base_cost * model_cost_multiplier model_class
    else 1

pub record TaskCommand : Type 0 where
  pub task_id : ℕ
  pub user_id : ℕ
  pub tier : SubscriptionTier
  pub mode : RequestMode
  pub model_class : ModelClass
  pub status : TaskStatus
  pub billing_state : BillingState
  pub x : ℤ
  pub y : ℤ
  pub cost : ℕ
  pub tb_pending_transfer_id : ℕ
  pub callback_url : Option String
  pub idempotency_key : Option String
  pub created_at : ℕ

pub record TaskQueryView : Type 0 where
  pub task_id : ℕ
  pub user_id : ℕ
  pub tier : SubscriptionTier
  pub mode : RequestMode
  pub model_class : ModelClass
  pub status : TaskStatus
  pub billing_state : BillingState
  pub result : Option ℤ
  pub error : Option String
  pub projection_version : ℕ
  pub created_at : ℕ

-- The topics of the events; the event's type has the same words, in the singular.
pub data Topic : Type 0 where
  tasks_requested tasks_started tasks_completed tasks_failed tasks_cancelled tasks_expired : Topic

-- `TERMINAL_PROJECTION_TOPICS`
abbrev pub is_terminal_topic : Topic → Bool
is_terminal_topic tasks_requested = false
is_terminal_topic tasks_started = false
is_terminal_topic _ = true

-- The fields of the JSON payload that the code reads back; a field may be missing or null.
pub record Payload : Type 0 where
  pub status : Option TaskStatus
  pub billing_state : Option BillingState
  pub result : Option ℤ
  pub error : Option String

-- A row of `cmd.outbox_events`
pub record OutboxEvent : Type 0 where
  pub event_id : ℕ
  pub aggregate_id : ℕ
  pub topic : Topic
  pub payload : Payload
  pub published : Bool

-- A row of `cmd.billing_reconcile_jobs`, which is inserted as resolved.
pub data Resolution : Type 0 where
  tb_captured tb_voided tb_auto_expired : Resolution

pub record ReconcileJob : Type 0 where
  pub task_id : ℕ
  pub tb_pending_transfer_id : ℕ
  pub resolution : Resolution

pub record Checkpoint : Type 0 where
  pub projector_name : String
  pub topic : Topic
  pub partition_id : ℕ
  pub committed_offset : ℕ

pub record Database : Type 0 where
  pub commands : List TaskCommand
  pub outbox : List OutboxEvent
  pub views : List TaskQueryView
  -- the events that a consumer has processed
  pub inbox : List (ℕ × String)
  pub checkpoints : List Checkpoint
  pub jobs : List ReconcileJob
  -- `now()`
  pub now : ℕ
  -- how many ids `gen_random_uuid()` has given
  pub ids : ℕ

abbrev pub status_code : TaskStatus → ℕ
status_code pending = 0
status_code running = 1
status_code completed = 2
status_code failed = 3
status_code cancelled = 4
status_code expired = 5

abbrev pub same_status : TaskStatus → TaskStatus → Bool
same_status s t = status_code s == status_code t

abbrev pub is_reserved : BillingState → Bool
is_reserved reserved = true
is_reserved _ = false
