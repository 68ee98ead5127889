-- ===== src/Solution2/Admission.antt =====
-- The admission transactions of solutions/2_solution/src/solution2/services/billing.py. The values of
-- the enumerations in a payload are members already; `clock` is what `datetime.now` reads.
pub mod Checks
pub mod Limits
pub mod Moves
use metered_compute.Base.{ℕ, zero, suc, ◌+◌, String, Bool, true, false, Option, none, some, leb}
use metered_compute.Int.{ℤ, pos}
use metered_compute.Exec.{Result, ok, err, value_error}
use metered_compute.Table.{
  Tx, pure, gets, modify, run, lift, or_return, return_if, return_unless, ◌>>=◌, ◌>>◌,
}
use metered_compute.Solution2.Constants.{
  SubscriptionTier, RequestMode, ModelClass, reserved, pending, compute_routing_key, resolve_queue,
}
use metered_compute.Solution2.Database.{
  TaskCommand, Reservation, task_submitted, Database, lock_user_for_admission,
  get_task_command_by_idempotency, create_task_command, reserve_user_credits, create_reservation,
  count_active_reservations, create_outbox_event,
}

pub data Reason : Type 0 where
  admitted error idempotent concurrency insufficient : Reason

pub record AdmissionDecision : Type 0 where
  pub ok : Bool
  pub reason : Reason
  pub existing_task_id : Option ℕ

abbrev pub rejected : Reason → AdmissionDecision
rejected reason = record { ok = false; reason = reason; existing_task_id = none }

abbrev pub already : ℕ → AdmissionDecision
already task_id = record { ok = false; reason = idempotent; existing_task_id = some task_id }

abbrev pub accepted : AdmissionDecision
accepted = record { ok = true; reason = admitted; existing_task_id = none }

pub record Payload : Type 0 where
  pub mode : Option RequestMode
  pub tier : Option SubscriptionTier
  pub model_class : Option ModelClass
  pub x : Option ℤ
  pub y : Option ℤ
  pub callback_url : Option String

abbrev pub or_else {ℓ} : {A : Type ℓ} → A → Option A → A
or_else d none = d
or_else d (some a) = a

-- `request_mode or payload.get("mode", "async")`, and the other fields with their defaults
abbrev normalize_payload :
    Payload → Option RequestMode → Result ((RequestMode × SubscriptionTier) × ModelClass)
normalize_payload payload request_mode = elim (payload.model_class) [
  | none ↦ err (value_error "invalid model_class in submit payload")
  | some m ↦ ok (
    (
      or_else (or_else RequestMode.async payload.mode) request_mode,
      or_else SubscriptionTier.free payload.tier,
    ),
    m,
  )
]

abbrev pub resolve_queue_name :
    SubscriptionTier → RequestMode → ModelClass → Option String → Result String
resolve_queue_name tier mode m none = resolve_queue tier mode m
resolve_queue_name tier mode m (some queue_name) = ok queue_name

-- A ttl that is not positive counts as missing.
abbrev pub reservation_expires_at : (clock : ℕ) → Option ℕ → ℕ
reservation_expires_at clock none = clock + 1
reservation_expires_at clock (some zero) = clock + 1
reservation_expires_at clock (some (suc n)) = clock + suc n

-- `if x is not None: return …`
abbrev unless_some : {A B : Type 0} → Option A → (A → B) → Tx Database B → Tx Database B
unless_some none f m = m
unless_some (some a) f m = pure (f a)

abbrev pub reservation_for : TaskCommand → (expires_at : ℕ) → Reservation
reservation_for c expires_at = record {
  task_id = c.task_id;
  user_id = c.user_id;
  amount = c.cost;
  state = reserved;
  expires_at = expires_at;
}

abbrev pub create_rows : TaskCommand → (expires_at : ℕ) → Tx Database (Unit {0})
create_rows c expires_at =
    create_task_command c >> create_reservation (reservation_for c expires_at)

-- The checks that the two admissions of one task share, and then the rest of the transaction
unfoldable pub checked :
    (user_id cost : ℕ) (idempotency_value : String) (max_concurrent : ℕ)
    → Tx Database AdmissionDecision
    → Tx Database AdmissionDecision
checked user_id cost key max_concurrent admit = do
  locked ← gets (lock_user_for_admission user_id)
  return_unless locked (rejected error) (do
    command_exists ← gets (get_task_command_by_idempotency user_id key)
    unless_some command_exists (λ c. already c.task_id)
        (do
          active_count ← gets (count_active_reservations user_id)
          return_if (leb max_concurrent active_count) (rejected concurrency) (do
            remaining_credits ← run (reserve_user_credits user_id cost)
            or_return remaining_credits (rejected insufficient) (λ credits. admit))))

module _ (clock user_id task_id cost : ℕ) (idempotency_value : String) (max_concurrent : ℕ) where
  unfoldable pub submit_rows :
      Payload → Option RequestMode → Option String → Option ℕ → Tx Database AdmissionDecision
  submit_rows payload request_mode queue_name ttl = do
    ((mode, tier), model_class) ← lift (normalize_payload payload request_mode)
    selected_queue ← lift (resolve_queue_name tier mode model_class queue_name)
    let c : TaskCommand = record {
      task_id = task_id;
      user_id = user_id;
      tier = tier;
      mode = mode;
      model_class = model_class;
      status = pending;
      x = or_else (pos 0) payload.x;
      y = or_else (pos 0) payload.y;
      cost = cost;
      callback_url = payload.callback_url;
      idempotency_key = some idempotency_value;
    }
    create_rows c (reservation_expires_at clock ttl)
    modify (create_outbox_event task_id task_submitted (compute_routing_key mode tier model_class))
    pure accepted

  unfoldable pub execute_admission_transaction :
      Payload → Option RequestMode → Option String → Option ℕ → Tx Database AdmissionDecision
  execute_admission_transaction payload request_mode queue_name ttl =
      checked user_id cost idempotency_value max_concurrent
        (submit_rows payload request_mode queue_name ttl)

  unfoldable pub sync_rows :
      SubscriptionTier
      → (x y : ℤ) → ModelClass
      → Option String
      → Option ℕ
      → Tx Database AdmissionDecision
  sync_rows tier x y model_class callback_url ttl = do
    let c : TaskCommand = record {
      task_id = task_id;
      user_id = user_id;
      tier = tier;
      mode = RequestMode.sync;
      model_class = model_class;
      status = pending;
      x = x;
      y = y;
      cost = cost;
      callback_url = callback_url;
      idempotency_key = some idempotency_value;
    }
    create_rows c (reservation_expires_at clock ttl)
    pure accepted

  unfoldable pub execute_sync_admission_transaction :
      SubscriptionTier
      → (x y : ℤ) → ModelClass
      → Option String
      → Option ℕ
      → Tx Database AdmissionDecision
  execute_sync_admission_transaction tier x y model_class callback_url ttl =
      checked user_id cost idempotency_value max_concurrent
        (sync_rows tier x y model_class callback_url ttl)
