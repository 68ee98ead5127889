-- ===== src/Solution3/Routes.antt =====
-- The cancellation of a task: `cancel_task` of
-- solutions/3_solution/src/solution3/api/task_write_routes.py, for a user with the scope, and with
-- the database, the ledger and the cache connected. The warnings that it logs are left out.
pub mod Cancelled
use metered_compute.Base.{
  ℕ, Bool, true, false, not, ◌&&◌, ◌||◌, Option, none, some, ◌==◌, if◌then◌else◌,
}
use metered_compute.Exec.{Exec, ok, pure, modify, ◌>>=◌, ◌>>◌}
use metered_compute.Solution3.Database.{
  TaskStatus, cancelled, BillingState, released, is_reserved, TaskCommand,
}
use metered_compute.Solution3.Commands.{find, is_open, cancel_task_command}
use metered_compute.Solution3.Services.{
  Runtime, Action, transact, void_pending_transfer, decr, hset_state,
}

pub record AuthUser : Type 0 where
  pub user_id : ℕ
  -- `role == UserRole.ADMIN`
  pub is_admin : Bool

-- The responses: `not_found` is a 404, `conflict` a 409, and `cancelled_now` a 200 with the status
-- CANCELLED and the billing state RELEASED.
pub data Response : Type 0 where
  not_found conflict : Response
  cancelled_now : (task_id : ℕ) → Response

module _ ⦃rt : Runtime⦄ where
  -- After the transaction. The result of the release is only logged.
  after_cancelled : TaskCommand → Bool → Action Response
  unfolding decr hset_state
  after_cancelled c false = pure conflict
  after_cancelled c true = do
    void_pending_transfer c.tb_pending_transfer_id
    modify (decr c.user_id)
    modify (hset_state c.task_id c.user_id cancelled released c.model_class none none)
    pure (cancelled_now c.task_id)

  by_command : AuthUser → Option TaskCommand → Action Response
  unfolding after_cancelled
  by_command user none = pure not_found
  by_command user (some c) =
      if not user.is_admin && not (c.user_id == user.user_id)
      then pure not_found
      else if not (is_open c) || not (is_reserved c.billing_state)
      then pure conflict
      else (do done ← transact (cancel_task_command c.task_id); after_cancelled c done)

  pub cancel_task : AuthUser → (task_id : ℕ) → Action Response
  unfolding by_command find
  cancel_task user task_id = do
    command ← transact λ db. (find task_id db.commands, db)
    by_command user command
