-- ===== src/Solution2/Batch.antt =====
-- The batch admission of solutions/2_solution/src/solution2/services/billing.py. `Ids` has what the
-- task with each index gets from outside: its id by `uuid7`, the key that the f-string makes of the
-- batch and the index, and the reading of the clock.
pub mod Admits
pub mod Loop
pub mod Moves
use metered_compute.Base.{
  ℕ, zero, suc, ◌+◌, String, Bool, true, false, Option, none, some, List, [], ◌∷◌, ltb,
  if◌then◌else◌, is_empty,
}
use metered_compute.Int.{ℤ}
use metered_compute.Exec.{ok, err}
use metered_compute.Table.{
  Tx, pure, gets, modify, run, lift, or_return, return_if, return_unless, ◌>>=◌, ◌>>◌,
}
use metered_compute.Solution2.Constants.{
  SubscriptionTier, RequestMode, ModelClass, pending, task_cost_for_model, compute_routing_key,
  resolve_queue,
}
use metered_compute.Solution2.Database.{
  TaskCommand, task_submitted, Database, lock_user_for_admission, reserve_user_credits,
  count_active_reservations, create_outbox_event,
}
use metered_compute.Solution2.Admission.{Reason, create_rows, reservation_expires_at}

pub record BatchTaskSpec : Type 0 where
  pub x : ℤ
  pub y : ℤ
  pub model_class : ModelClass
  pub callback_url : Option String

pub record BatchAdmissionResult : Type 0 where
  pub ok : Bool
  pub reason : Reason
  pub task_ids : List ℕ
  pub total_cost : ℕ

abbrev pub refused : Reason → BatchAdmissionResult
refused reason = record { ok = false; reason = reason; task_ids = []; total_cost = 0 }

pub record Ids : Type 0 where
  pub uuid7 : ℕ → ℕ
  pub idempotency_key : ℕ → String
  pub clock : ℕ → ℕ

abbrev pub length : List BatchTaskSpec → ℕ
length [] = 0
length (t ∷ tasks) = suc (length tasks)

-- `sum(_batch_task_cost(…) for task in tasks)`
unfoldable pub total_cost_of : (base_task_cost : ℕ) → List BatchTaskSpec → ℕ
total_cost_of base [] = 0
total_cost_of base (t ∷ tasks) = task_cost_for_model base t.model_class + total_cost_of base tasks

module _ (ids : Ids) (user_id : ℕ) (user_tier : SubscriptionTier) (base_task_cost : ℕ)
    (ttl : Option ℕ) where
  abbrev pub command_of : (index : ℕ) → BatchTaskSpec → TaskCommand
  command_of index task = record {
    task_id = ids.uuid7 index;
    user_id = user_id;
    tier = user_tier;
    mode = RequestMode.batch;
    model_class = task.model_class;
    status = pending;
    x = task.x;
    y = task.y;
    cost = task_cost_for_model base_task_cost task.model_class;
    callback_url = task.callback_url;
    idempotency_key = some (ids.idempotency_key index);
  }

  abbrev pub create_one : (index : ℕ) → BatchTaskSpec → Tx Database (Unit {0})
  create_one index task = do
    queue_name ← lift (resolve_queue user_tier RequestMode.batch task.model_class)
    create_rows (command_of index task) (reservation_expires_at (ids.clock index) ttl)
    modify (
        create_outbox_event (ids.uuid7 index) task_submitted
          (compute_routing_key RequestMode.batch user_tier task.model_class))

  -- The loop over the tasks, with the ids that it collects
  unfoldable pub create_all : (index : ℕ) → List BatchTaskSpec → Tx Database (List ℕ)
  create_all index [] s = ok ([], s)
  create_all index (t ∷ tasks) s =
      (create_one index t >>= λ done.
      create_all (suc index) tasks >>= λ rest. pure (ids.uuid7 index ∷ rest))
        s

  unfoldable pub execute_batch_admission_transaction :
      (max_concurrent : ℕ) → List BatchTaskSpec → Tx Database BatchAdmissionResult
  execute_batch_admission_transaction max_concurrent tasks =
      return_if (is_empty tasks) (refused Reason.error) (do
        locked ← gets (lock_user_for_admission user_id)
        return_unless locked (refused Reason.error) (do
          active_count ← gets (count_active_reservations user_id)
          return_if (ltb max_concurrent (active_count + length tasks)) (refused Reason.concurrency)
              (do
                let total_cost = total_cost_of base_task_cost tasks
                remaining_credits ← run (reserve_user_credits user_id total_cost)
                or_return remaining_credits (refused Reason.insufficient) (λ credits. do
                  task_ids ← create_all 0 tasks
                  pure record {
                    ok = true;
                    reason = Reason.admitted;
                    task_ids = task_ids;
                    total_cost = total_cost;
                  }))))
