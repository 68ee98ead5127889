-- ===== src/Solution2/Constants.antt =====
-- The enumerations and policies of solutions/2_solution/src/solution2/constants.py.
pub mod Routing
use metered_compute.Base.{ℕ, ◌*◌, String, Bool, true, false, leb, if◌then◌else◌}
use metered_compute.Exec.{Result, ok, err, value_error}
use Prim.Native.String.{◌++◌ as concat}

pub data SubscriptionTier : Type 0 where
  free pro enterprise : SubscriptionTier

pub data RequestMode : Type 0 where
  async sync batch : RequestMode

pub data ModelClass : Type 0 where
  small medium large : ModelClass

pub data ReservationState : Type 0 where
  reserved captured released : ReservationState

pub data TaskStatus : Type 0 where
  pending running completed failed cancelled timeout expired : TaskStatus

-- `TASK_RUNNING_STATUSES` and `TASK_CANCELLABLE_STATUSES`
abbrev pub is_open : TaskStatus → Bool
is_open pending = true
is_open running = true
is_open _ = false

abbrev pub is_pending : TaskStatus → Bool
is_pending pending = true
is_pending _ = false

abbrev pub is_reserved : ReservationState → Bool
is_reserved reserved = true
is_reserved _ = false

-- `next_state in RESERVATION_TRANSITIONS[current_state]`
abbrev pub is_valid_reservation_transition : (current_state next_state : ReservationState) → Bool
is_valid_reservation_transition reserved captured = true
is_valid_reservation_transition reserved released = true
is_valid_reservation_transition _ _ = false

-- `next_state in TASK_STATE_TRANSITIONS[current_state]`
abbrev pub is_valid_task_transition : (current_state next_state : TaskStatus) → Bool
is_valid_task_transition pending running = true
is_valid_task_transition pending cancelled = true
is_valid_task_transition pending timeout = true
is_valid_task_transition pending expired = true
is_valid_task_transition running completed = true
is_valid_task_transition running failed = true
is_valid_task_transition running cancelled = true
is_valid_task_transition running timeout = true
is_valid_task_transition running expired = true
is_valid_task_transition completed expired = true
is_valid_task_transition failed expired = true
is_valid_task_transition cancelled expired = true
is_valid_task_transition timeout expired = true
is_valid_task_transition _ _ = false

-- `max(1, n)`
at_least_one : ℕ → ℕ
at_least_one n = if leb 1 n then n else 1

abbrev model_cost_multiplier : ModelClass → ℕ
model_cost_multiplier small = 1
model_cost_multiplier medium = 2
model_cost_multiplier large = 5

-- For a base cost that is not negative
unfoldable pub task_cost_for_model : (base_cost : ℕ) → ModelClass → ℕ
unfolding at_least_one
task_cost_for_model base_cost model_class =
    at_least_one (base_cost * model_cost_multiplier model_class)

abbrev tier_concurrency_multiplier : SubscriptionTier → ℕ
tier_concurrency_multiplier free = 1
tier_concurrency_multiplier pro = 2
tier_concurrency_multiplier enterprise = 4

unfoldable pub max_concurrent_for_tier : (base_max_concurrent : ℕ) → SubscriptionTier → ℕ
unfolding at_least_one
max_concurrent_for_tier base_max_concurrent tier =
    at_least_one (base_max_concurrent * tier_concurrency_multiplier tier)

abbrev mode_value : RequestMode → String
mode_value async = "async"
mode_value sync = "sync"
mode_value batch = "batch"

abbrev tier_value : SubscriptionTier → String
tier_value free = "free"
tier_value pro = "pro"
tier_value enterprise = "enterprise"

abbrev model_value : ModelClass → String
model_value small = "small"
model_value medium = "medium"
model_value large = "large"

unfoldable pub compute_routing_key : RequestMode → SubscriptionTier → ModelClass → String
compute_routing_key mode tier model_class = concat "tasks." (
    concat (mode_value mode)
      (concat "." (concat (tier_value tier) (concat "." (model_value model_class)))))

-- The cases of `resolve_queue`; the last `raise` of the source is for a tier that is none of these.
unfoldable pub resolve_queue : SubscriptionTier → RequestMode → ModelClass → Result String
resolve_queue free sync model_class = err (value_error "free tier does not support sync")
resolve_queue free mode model_class = ok "queue.batch"
resolve_queue pro sync small = ok "queue.fast"
resolve_queue pro sync model_class = err (value_error "pro tier sync is restricted to small model")
resolve_queue pro batch model_class = ok "queue.batch"
resolve_queue pro async model_class = ok "queue.fast"
resolve_queue enterprise batch model_class = ok "queue.fast"
resolve_queue enterprise mode model_class = ok "queue.realtime"
