-- ===== src/Solution3/Worker.antt =====
-- The worker: solutions/3_solution/src/solution3/workers/worker.py. The metrics, the times that it
-- sleeps and the registration of warm models are left out.
pub mod Outcomes
use metered_compute.Base.{ℕ, String, Bool, true, false, not, Option, none, some, if◌then◌else◌}
use metered_compute.Int.{ℤ, ◌+ℤ◌}
use metered_compute.Exec.{Exec, Error, value_error, ok, pure, modify, try_except, ◌>>=◌, ◌>>◌}
use metered_compute.Solution3.Database.{
  TaskStatus, running, completed, failed, BillingState, captured, released, TaskCommand,
}
use metered_compute.Solution3.Commands.{update_task_running, finalize_task_command}
use metered_compute.Solution3.Services.{
  Runtime, State, Action, transact, disturb, post_pending_transfer, void_pending_transfer, decr,
  hset_state,
}

-- `channel.basic_ack` and `channel.basic_nack`
pub data Settlement : Type 0 where
  ack : Settlement
  nack : (requeue : Bool) → Settlement

module _ ⦃rt : Runtime⦄ where
  -- `if not updated: return False`, and the cached state
  marked : TaskCommand → Bool → Action Bool
  unfolding hset_state
  marked task false = pure false
  marked task true = do
    modify
        (hset_state task.task_id task.user_id running task.billing_state task.model_class none none)
    pure true

  pub mark_task_running : TaskCommand → Action Bool
  unfolding marked
  mark_task_running task = do
    updated ← transact (update_task_running task.task_id)
    marked task updated

  -- `if not finalized: return False`, and the counter and the cached state
  finalized :
      TaskCommand → TaskStatus → BillingState → Option ℤ → Option String → Bool → Action Bool
  unfolding decr hset_state
  finalized task status billing_state result error false = pure false
  finalized task status billing_state result error true = do
    modify (decr task.user_id)
    modify (hset_state task.task_id task.user_id status billing_state task.model_class result error)
    pure true

  -- `if not tb_ok: return False`, and what follows
  settled : TaskCommand → TaskStatus → BillingState → Option ℤ → Option String → Bool → Action Bool
  unfolding finalized
  settled task status billing_state result error false = pure false
  settled task status billing_state result error true = do
    done ← transact (finalize_task_command task.task_id status billing_state result error)
    finalized task status billing_state result error done

  -- `handle_task_completion`, which is given a result on success and an error on failure
  pub handle_task_completion :
      TaskCommand → (success : Bool) → Option ℤ → Option String → Action Bool
  unfolding settled
  handle_task_completion task true result error = do
    tb_ok ← post_pending_transfer task.tb_pending_transfer_id
    settled task completed captured result error tb_ok
  handle_task_completion task false result error = do
    tb_ok ← void_pending_transfer task.tb_pending_transfer_id
    settled task failed released result error tb_ok

  -- `try: result = await runtime.execute(task)`, which other services interrupt; `fault` is the
  -- message of an exception that it raises
  executed : TaskCommand → (fault : Option String) → Action Bool
  unfolding disturb
  executed task none s = handle_task_completion task true (some (task.x +ℤ task.y)) none (disturb s)
  executed task (some e) s = handle_task_completion task false none (some e) (disturb s)

  -- `if not started: return True`
  when_started : TaskCommand → (fault : Option String) → Bool → Action Bool
  unfolding executed
  when_started task fault false = pure true
  when_started task fault true = executed task fault

  pub process_task_event : TaskCommand → (fault : Option String) → Action Bool
  unfolding when_started
  process_task_event task fault = do
    started ← mark_task_running task
    when_started task fault started

  -- `except ValueError: …` and `except Exception: …`
  on_error : Error → Action Settlement
  on_error (value_error message) = pure (nack false)
  on_error e = pure (nack true)

  -- `handle_delivery`; the command is absent where the body is not one, which is a `ValueError`.
  pub handle_delivery : Option TaskCommand → (fault : Option String) → Action Settlement
  unfolding on_error
  handle_delivery none fault = on_error (value_error "worker payload")
  handle_delivery (some task) fault =
      try_except (process_task_event task fault)
        (λ processed. pure (if processed then ack else nack true)) on_error
