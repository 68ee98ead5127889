-- ===== src/Solution3/Reconciler.antt =====
-- The reconciler: solutions/3_solution/src/solution3/workers/reconciler.py. The counters of the
-- metrics are left out.
pub mod Alignment
use metered_compute.Base.{
  ℕ, ◌+◌, ◌==◌, Bool, true, false, Option, none, some, List, [], ◌∷◌, if◌then◌else◌,
}
use metered_compute.Int.{pos, ◌-ℤ◌, ltb_ℤ}
use metered_compute.Exec.{Exec, Error, value_error, ok, pure, raise, modify, gets, ◌>>=◌, ◌>>◌}
use metered_compute.Solution3.Database.{
  TaskStatus, completed, failed, cancelled, BillingState, captured, released, TaskCommand,
  Resolution, tb_captured, tb_voided, Database, same_status,
}
use metered_compute.Solution3.Commands.Stale.{
  list_stale_reserved_tasks, expire_stale_reserved_task, align_stale_reserved_task_terminal_state,
}
use metered_compute.Solution3.Services.{
  PendingTransferState, pending, posted, voided, absent, Runtime, State, Action, transact, disturb,
  get_pending_transfer_state, decr, hset_state,
}

-- `_terminal_alignment_target`
unfoldable pub terminal_alignment_target :
    TaskStatus → PendingTransferState → Option (TaskStatus × BillingState × Resolution)
terminal_alignment_target status posted = some (completed, captured, tb_captured)
terminal_alignment_target status voided =
    some (if same_status status TaskStatus.pending then cancelled else failed, released, tb_voided)
terminal_alignment_target status _ = none

module _ ⦃rt : Runtime⦄ where
  -- `_decrement_active_counter`: the counter does not stay below 0.
  unfoldable pub decrement_active_counter : ℕ → State → State
  unfolding decr
  decrement_active_counter user_id s =
      let s' = decr user_id s in
      if ltb_ℤ (s'.active user_id) (pos 0)
      then record s' { active = λ u. if u == user_id then pos 0 else s'.active u }
      else s'

  -- `_cache_reconciled_state`
  cache_reconciled_state : TaskCommand → State → State
  unfolding decrement_active_counter hset_state
  cache_reconciled_state c s =
      hset_state c.task_id c.user_id c.status c.billing_state c.model_class none none
        (decrement_active_counter c.user_id s)

  -- `if reconciled is not None: …`
  resolved : Option TaskCommand → Action Bool
  unfolding cache_reconciled_state
  resolved none = pure false
  resolved (some c) = do modify (cache_reconciled_state c); pure true

  -- A status that is not terminal would raise.
  aligned : Option (Option TaskCommand × Database) → Database → Option TaskCommand × Database
  aligned none db = (none, db)
  aligned (some r) db = r

  align_to :
      (stale_after_seconds : ℕ)
      → TaskCommand
      → Option (TaskStatus × BillingState × Resolution)
      → Action Bool
  unfolding resolved aligned
  align_to secs task none = pure false
  align_to secs task (some (status, billing_state, resolution)) = do
    reconciled ← transact λ db.
        aligned
          (align_stale_reserved_task_terminal_state task status billing_state resolution secs db) db
    resolved reconciled

  -- What follows the reading of the transfer's state.
  unfoldable pub by_transfer_state :
      (stale_after_seconds : ℕ) → TaskCommand → PendingTransferState → Action Bool
  unfolding align_to resolved
  by_transfer_state secs task pending = pure false
  by_transfer_state secs task absent = do
    reconciled ← transact (expire_stale_reserved_task task.task_id task.tb_pending_transfer_id secs)
    resolved reconciled
  by_transfer_state secs task state =
      align_to secs task (terminal_alignment_target task.status state)

  -- The body of the loop: whether the task is resolved.
  unfoldable pub reconcile_task : (stale_after_seconds : ℕ) → TaskCommand → Action Bool
  unfolding by_transfer_state
  reconcile_task secs task = do
    state ← get_pending_transfer_state task.tb_pending_transfer_id
    by_transfer_state secs task state

  reconcile_each : (stale_after_seconds : ℕ) → List TaskCommand → Action ℕ
  unfolding reconcile_task
  reconcile_each secs [] = pure 0
  reconcile_each secs (task ∷ tasks) = do
    done ← reconcile_task secs task
    n ← reconcile_each secs tasks
    pure (if done then n + 1 else n)

  -- `reconcile_stale_reserved_tasks`
  unfoldable pub reconcile_stale_reserved_tasks : (stale_after_seconds : ℕ) → Action ℕ
  unfolding reconcile_each disturb
  reconcile_stale_reserved_tasks secs = do
    stale_tasks ← transact λ db. (list_stale_reserved_tasks secs db, db)
    reconcile_each secs stale_tasks
