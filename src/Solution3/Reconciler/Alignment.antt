-- ===== src/Solution3/Reconciler/Alignment.antt =====
-- What the reconciler makes of a stale task.
use metered_compute.Base.{ℕ, ◌≡◌, ◌≢◌, refl, true, some, arith, if◌then◌else◌}
use metered_compute.Exec.{ok, ◌>>=◌, pure, modify}
use metered_compute.Solution3.Database.{
  TaskStatus, completed, failed, cancelled, BillingState, captured, released, TaskCommand,
  same_status, tb_captured, tb_voided,
}
use metered_compute.Solution3.Commands.{find, stale, with_status}
use metered_compute.Solution3.Commands.Rows.{IsKeyed}
use metered_compute.Solution3.Commands.Updates.{
  expire_stale_reserved_task-stale, align_stale_reserved_task_terminal_state-stale,
}
use metered_compute.Solution3.Services.{
  PendingTransferState, pending, posted, voided, absent, pending_transfer_state, Runtime, State,
  transact, disturb, get_pending_transfer_state, decr, hset_state,
}
use metered_compute.Solution3.Reconciler.{
  terminal_alignment_target, decrement_active_counter, cache_reconciled_state, resolved, aligned,
  align_to, by_transfer_state, reconcile_task,
}

-- The end that a stale task has: what the ledger says of its transfer decides, and a transfer that
-- was voided ends a task that never ran as cancelled.
abbrev pub ends_as : TaskStatus → PendingTransferState → TaskStatus × BillingState
ends_as status posted = (completed, captured)
ends_as status voided =
    (if same_status status TaskStatus.pending then cancelled else failed, released)
ends_as status absent = (TaskStatus.expired, BillingState.expired)
ends_as status pending = (status, BillingState.reserved)

module _ ⦃rt : Runtime⦄ (secs : ℕ) (task : TaskCommand) where
  -- what the ledger says of the task's transfer
  abbrev state_at : State → PendingTransferState
  state_at s =
      pending_transfer_state task.tb_pending_transfer_id
        (rt.tb.query_transfers task.tb_pending_transfer_id s.ledger)

  cache_reconciled_state-db : (c : TaskCommand) (s : State) → (cache_reconciled_state c s).db ≡ s.db
  unfolding cache_reconciled_state decrement_active_counter hset_state decr
  cache_reconciled_state-db c s = ground arith

  aligns :
      (state : PendingTransferState) (s : State)
      → (disturb s).db ≡ s.db
      → IsKeyed s.db.commands
      → find task.task_id s.db.commands ≡ some task
      → stale secs s.db.now task ≡ true
      → state ≢ pending
      → ((by_transfer_state secs task state s).0 ≡ ok true)
        × (find task.task_id (by_transfer_state secs task state s).1.db.commands
            ≡ some (with_status (ends_as task.status state).0 (ends_as task.status state).1 task))
  unfolding terminal_alignment_target by_transfer_state transact ◌>>=◌ resolved modify pure align_to
      aligned
  aligns pending s calm keyed found old ne = absurd (ne refl)
  aligns absent s calm keyed found old ne =
      let (t, e, b) =
        expire_stale_reserved_task-stale secs task s.db keyed found old
          task.tb_pending_transfer_id in
      rw (calm, e, cache_reconciled_state-db _ _) (refl, b)
  aligns posted s calm keyed found old ne =
      let (t, e, b) =
        align_stale_reserved_task_terminal_state-stale secs task s.db keyed found old completed
          captured tb_captured refl in
      rw (calm, e, cache_reconciled_state-db _ _) (refl, b)
  aligns voided s calm keyed found old ne =
      let (t, e, b) =
        align_stale_reserved_task_terminal_state-stale secs task s.db keyed found old
          (if same_status task.status TaskStatus.pending then cancelled else failed) released
          tb_voided (ground arith) in
      rw (calm, e, cache_reconciled_state-db _ _) (refl, b)

  -- A stale task whose transfer is no longer pending is resolved in one pass, when no other service
  -- writes the database meanwhile: a posted transfer completes and captures it, a voided one cancels
  -- it where it had not started and fails it where it had, with its credits released, and one that
  -- the ledger does not know expires it.
  pub reconcile_task-aligns :
      (s : State)
      → (disturb s).db ≡ s.db
      → IsKeyed s.db.commands
      → find task.task_id s.db.commands ≡ some task
      → stale secs s.db.now task ≡ true
      → state_at s ≢ pending
      → ((reconcile_task secs task s).0 ≡ ok true)
        × (find task.task_id (reconcile_task secs task s).1.db.commands
            ≡ some (
                with_status
                  (ends_as task.status (state_at s)).0
                  (ends_as task.status (state_at s)).1
                  task))
  unfolding reconcile_task get_pending_transfer_state ◌>>=◌
  reconcile_task-aligns s calm keyed found old ne = aligns (state_at s) s calm keyed found old ne
