-- ===== src/Solution3/Routes/Cancelled.antt =====
-- What a cancellation does to the row and to the transfer.
use metered_compute.Base.{
  ℕ, ◌≡◌, ◌≢◌, refl, true, false, some, ◌⊎◌, arith, ◌==◌, ◌+◌, not, ◌&&◌, Bool, is_empty,
}
use metered_compute.Exec.{ok, ◌>>=◌, pure, modify}
use metered_compute.TigerBeetle.{
  TransferFlags, pending, posted, voided, IsDocumented, errors, after,
}
use metered_compute.Solution3.Database.{
  cancelled, BillingState, reserved, released, is_reserved, is_terminal, TaskCommand,
}
use metered_compute.Solution3.Commands.{find, with_status, cancel_task_command}
use metered_compute.Solution3.Commands.Rows.{IsKeyed}
use metered_compute.Solution3.Commands.Updates.{cancel_task_command-open}
use metered_compute.Solution3.Services.{
  Runtime, State, settling, uuid7, create_transfer, void_pending_transfer, decr, hset_state,
}
use metered_compute.Solution3.Worker.Outcomes.{IsQuiet, IsReserved, voids_now, transact-quiet}
use metered_compute.Solution3.Routes.{
  AuthUser, cancelled_now, after_cancelled, by_command, cancel_task,
}

module _ ⦃rt : Runtime⦄ (doc : IsDocumented rt.tb) (id : ℕ) (s : State) where
  -- A void of a transfer that is not pending changes no transfer.
  void_refused :
      doc.phase s.ledger id ≢ pending
      → (refused : Bool) × (void_pending_transfer id s
          ≡ (ok refused, record s { uuids = s.uuids + 1 }))
  unfolding void_pending_transfer uuid7 create_transfer ◌>>=◌ pure
  void_refused ne =
      let t = settling TransferFlags.void_pending_transfer (rt.uuid7 s.uuids) id in
      let same : after rt.tb t s.ledger ≡ s.ledger =
        doc.refused_same t s.ledger (λ e. ne (doc.void_needs_pending t s.ledger refl e)) in
      rw same (is_empty (errors rt.tb t s.ledger), refl)

is_reserved-reserved : (b : BillingState) → is_reserved b ≡ true → b ≡ reserved
is_reserved-reserved reserved h = refl
is_reserved-reserved BillingState.captured h = cc
is_reserved-reserved released h = cc
is_reserved-reserved BillingState.expired h = cc

module _ ⦃rt : Runtime⦄ (quiet : IsQuiet) (doc : IsDocumented rt.tb) (user : AuthUser)
    (row : TaskCommand) (s : State) (keyed : IsKeyed s.db.commands)
    (found : find row.task_id s.db.commands ≡ some row)
    (allowed : (user.is_admin ≡ true) ⊎ (row.user_id ≡ user.user_id))
    (is_open : is_terminal row.status ≡ false) (held : row.billing_state ≡ reserved) where
  passes : (not user.is_admin && not (row.user_id == user.user_id)) ≡ false
  passes = ground (arith, allowed)

  -- The owner of a task, or an admin, cancels it while it is pending or running with reserved
  -- credits: the row is cancelled and released, and the transfer is voided.
  pub cancel_task-reserved :
      IsReserved doc row.tb_pending_transfer_id s
      → ((cancel_task user row.task_id s).0 ≡ ok (cancelled_now row.task_id))
        × (find row.task_id (cancel_task user row.task_id s).1.db.commands
            ≡ some (with_status cancelled released row))
        × (doc.phase (cancel_task user row.task_id s).1.ledger row.tb_pending_transfer_id ≡ voided)
  unfolding cancel_task by_command after_cancelled ◌>>=◌ modify pure decr hset_state
  cancel_task-reserved r =
      let (a, b) = cancel_task_command-open row.task_id s.db keyed row found is_open in
      let t : State = record s {
        db = (cancel_task_command row.task_id s.db).1;
        clock = s.clock + 1 + 1;
      } in
      let (e, phase) =
        voids_now doc row.tb_pending_transfer_id t
          (record { phase = r.phase; book = r.book; fresh = r.fresh }) in
      rw (transact-quiet quiet _ s, found, passes, is_open, held, transact-quiet quiet _ _, a, e)
        (refl, b, phase)

  -- When the transfer has been posted already, as the worker posts it before it writes the row, the
  -- cancellation still succeeds: the answer and the row say that the credits are released, while
  -- the transfer stays posted.
  pub cancel_task-posted :
      doc.phase s.ledger row.tb_pending_transfer_id ≡ posted
      → ((cancel_task user row.task_id s).0 ≡ ok (cancelled_now row.task_id))
        × (find row.task_id (cancel_task user row.task_id s).1.db.commands
            ≡ some (with_status cancelled released row))
        × (doc.phase (cancel_task user row.task_id s).1.ledger row.tb_pending_transfer_id ≡ posted)
  unfolding cancel_task by_command after_cancelled ◌>>=◌ modify pure decr hset_state
  cancel_task-posted p =
      let (a, b) = cancel_task_command-open row.task_id s.db keyed row found is_open in
      let t : State = record s {
        db = (cancel_task_command row.task_id s.db).1;
        clock = s.clock + 1 + 1;
      } in
      let (r, e) = void_refused doc row.tb_pending_transfer_id t (λ q. cc (p, q)) in
      rw (transact-quiet quiet _ s, found, passes, is_open, held, transact-quiet quiet _ _, a, e)
        (refl, b, p)

-- A cancellation by a user who neither owns the task nor is an admin, or of a task that has ended or
-- whose credits are no longer reserved, writes neither the database nor the ledger.
pub cancel_task_same :
    ⦃rt : Runtime⦄ (quiet : IsQuiet) (user : AuthUser) (row : TaskCommand) (s : State)
    → find row.task_id s.db.commands ≡ some row
    → ((user.is_admin ≡ false) × (row.user_id ≢ user.user_id))
      ⊎ (is_terminal row.status ≡ true)
      ⊎ (row.billing_state ≢ reserved)
    → ((cancel_task user row.task_id s).1.db ≡ s.db)
      × ((cancel_task user row.task_id s).1.ledger ≡ s.ledger)
unfolding cancel_task by_command ◌>>=◌ pure
cancel_task_same quiet user row s found h =
    rw (transact-quiet quiet _ s, found) (ground (arith, h, is_reserved-reserved row.billing_state))
