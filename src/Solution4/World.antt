-- ===== src/Solution4/World.antt =====
-- The state that the handlers of Solution 4 share, and what stands outside the repository: the
-- ledger service, the network, the generators of ids, and the other requests in flight.
use metered_compute.Base.{ℕ, ◌+◌, String, Bool, Option, List, ◌==◌}
use metered_compute.Int.{ℤ}
use metered_compute.Exec.{Exec}
use metered_compute.TigerBeetle.{TigerBeetle}
use metered_compute.Solution4.Gateway.{ComputeResult, Network}

-- `tasks.status`
pub data Status : Type 0 where
  pending running completed failed cancelled cancel_requested : Status

abbrev pub status_code : Status → ℕ
status_code pending = 0
status_code running = 1
status_code completed = 2
status_code failed = 3
status_code cancelled = 4
status_code cancel_requested = 5

abbrev pub same_status : Status → Status → Bool
same_status s t = status_code s == status_code t

-- A row of `tasks` (migrations/001). A UUID is the number that it stands for, and
-- `tb_transfer_id` the number that its hexadecimal text stands for.
pub record Task : Type 0 where
  pub task_id : ℕ
  pub user_id : ℕ
  pub status : Status
  pub x : ℤ
  pub y : ℤ
  pub result : Option ComputeResult
  pub cost : ℕ
  pub tb_transfer_id : ℕ
  pub idempotency_key : Option String

pub record User : Type 0 where
  pub user_id : ℕ
  pub name : String
  pub credits : ℤ
  pub role : String

pub record ApiKey : Type 0 where
  pub api_key : String
  pub user_id : ℕ
  pub is_active : Bool

-- The hash `auth:{api_key}`; a field may be missing.
pub record AuthPayload : Type 0 where
  pub user_id : Option ℕ
  pub name : Option String
  pub role : Option String

-- The hash `task:{task_id}`, with the values that its texts stand for; a field may be missing.
pub record Payload : Type 0 where
  pub task_id : Option ℕ
  pub user_id : Option ℕ
  pub status : Option Status
  pub x : Option ℤ
  pub y : Option ℤ
  pub result : Option ComputeResult
  pub cost : Option ℕ
  pub tb_transfer_id : Option ℕ
  pub idempotency_key : Option String

-- The counters of metrics.py, in the order in which they were incremented.
pub data Metric : Type 0 where
  task_submitted task_completed task_cancelled task_failed task_timeout : Metric
  compute_ok compute_error : Metric
  credit_reserved credit_captured credit_released credit_topup : Metric

pub record World (L : Type 0) : Type 0 where
  pub users : List User
  pub api_keys : List ApiKey
  pub tasks : List Task
  pub auth_cache : List (String × AuthPayload)
  pub task_cache : List (ℕ × Payload)
  pub ledger : L
  pub metrics : List Metric
  -- how many ids `uuid6.uuid7` has given
  pub uuids : ℕ
  -- how many times a handler has waited
  pub clock : ℕ
  pub restate_ready : Bool

-- settings.py
pub record Settings : Type 0 where
  pub default_task_cost : ℕ
  pub tb_transfer_timeout_secs : ℕ
  pub revenue_id : ℕ
  pub escrow_id : ℕ
  pub compute_timeout_ms : ℕ
  pub compute_retry_attempts : ℕ

-- The names of the steps that the workflow journals.
pub data Step : Type 0 where
  read_status_after_cancel_check release_credits_for_cancel mark_cancelled_after_request : Step
  invalidate_task_after_cancel task_cancelled_metric_after_request : Step
  mark_running read_status_after_start compute compute_metric_ok compute_metric_error : Step
  compute_timeout_metric mark_failed_after_compute task_failed_after_compute : Step
  release_credits_after_compute_failure invalidate_task_after_compute_failure : Step
  read_status_after_compute_failure capture_credits mark_failed_after_capture : Step
  invalidate_task_after_capture_release task_failed_after_capture task_completed_metric : Step
  mark_completed read_status_after_completion mark_completed_after_late_cancel : Step
  cache_completed_task_after_late_cancel read_status_after_late_cancel_completion : Step
  cache_completed_task : Step

-- One attempt to register the service with Restate: the status of the registration, and the status
-- and the service names of the deployments; each is absent where the request raises.
pub record Registration : Type 0 where
  pub posted : Option ℕ
  pub listed : Option (ℕ × List (List String))

pub record Runtime : Type 1 where
  pub tb : TigerBeetle
  pub settings : Settings
  -- the n-th id of `uuid6.uuid7`
  pub uuid7 : ℕ → ℕ
  -- `uuid5(NAMESPACE_URL, …)` of an admin's id and an idempotency key
  pub topup_uuid5 : ℕ → String → ℕ
  -- what other requests do while a handler waits for the n-th time
  pub others : ℕ → World tb.Ledger → World tb.Ledger
  -- how often Restate runs a step whose result it then loses, before the run that it journals
  pub lost : Step → ℕ
  -- the network and what other requests do during the n-th wait, a compute request
  pub network : ℕ → Network
  pub during_compute : World tb.Ledger → World tb.Ledger
  -- the status of the hand-over to Restate at the n-th wait, absent where the request raises
  pub ingress : ℕ → Option ℕ
  -- the attempts to register the service that begin at the n-th wait
  pub registration : ℕ → ℕ → Registration

module _ ⦃rt : Runtime⦄ where
  abbrev pub State : Type 0
  State = World rt.tb.Ledger

  abbrev pub Action : Type 0 → Type 0
  Action A = Exec State A

  -- Other requests run, and the wait is counted.
  unfoldable pub disturb : State → State
  disturb w = let w' = rt.others w.clock w in record w' { clock = w.clock + 1 }

  -- `await` of a call of the database or the cache: others run, and then the call itself.
  unfoldable pub await : {A : Type 0} → Action A → Action A
  await call w = call (disturb w)
