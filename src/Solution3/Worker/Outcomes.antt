-- ===== src/Solution3/Worker/Outcomes.antt =====
-- How the worker ends a task, in the database and in the ledger.
use metered_compute.Base.{
  String, ℕ, ◌+◌, ◌≡◌, ◌≢◌, refl, true, false, Option, some, arith, inl, inr,
}
use metered_compute.Int.{ℤ}
use metered_compute.Exec.{try_except, ok, ◌>>=◌, pure, modify}
use metered_compute.TigerBeetle.{TransferFlags, pending, posted, voided, IsDocumented, after}
use metered_compute.Solution3.Database.{
  TaskStatus, completed, failed, captured, released, is_terminal, TaskCommand, Database,
}
use metered_compute.Solution3.Commands.{find, with_status}
use metered_compute.Solution3.Commands.Rows.{IsKeyed}
use metered_compute.Solution3.Commands.Updates.{
  update_task_running-other, finalize_task_command-open, finalize_task_command-terminal,
}
use metered_compute.Solution3.Services.{
  Runtime, State, transact, disturb, settling, transfer_code_task, uuid7, create_transfer,
  post_pending_transfer, void_pending_transfer, decr, hset_state,
}
use metered_compute.Solution3.Worker.{
  ack, marked, mark_task_running, finalized, settled, handle_task_completion, when_started,
  process_task_event, handle_delivery,
}

-- No other service runs meanwhile.
abbrev pub IsQuiet : ⦃rt : Runtime⦄ → Type 0
IsQuiet ⦃rt⦄ = (n : ℕ) (s : State) → rt.others n s ≡ s

-- The transfer of a task is reserved, and the next id is new to the ledger.
pub record IsReserved ⦃rt : Runtime⦄ (doc : IsDocumented rt.tb) (id : ℕ) (s : State) : Type 0 where
  pub phase : doc.phase s.ledger id ≡ pending
  pub book : doc.book s.ledger id ≡ (rt.ledger_id, transfer_code_task)
  pub fresh : doc.used s.ledger (rt.uuid7 s.uuids) ≡ false

module _ ⦃rt : Runtime⦄ (doc : IsDocumented rt.tb) (id : ℕ) (s : State)
    (reserved : IsReserved doc id s) where
  abbrev pub posting : ℕ → State
  posting n = record s {
    ledger = after rt.tb (settling TransferFlags.post_pending_transfer n id) s.ledger;
    uuids = s.uuids + 1;
  }

  abbrev pub voiding : ℕ → State
  voiding n = record s {
    ledger = after rt.tb (settling TransferFlags.void_pending_transfer n id) s.ledger;
    uuids = s.uuids + 1;
  }

  posts_now :
      (post_pending_transfer id s ≡ (ok true, posting (rt.uuid7 s.uuids)))
      × (doc.phase (posting (rt.uuid7 s.uuids)).ledger id ≡ posted)
  unfolding post_pending_transfer uuid7 create_transfer ◌>>=◌ pure
  posts_now =
      let t = settling TransferFlags.post_pending_transfer (rt.uuid7 s.uuids) id in
      let e =
        doc.settles t s.ledger (inl refl) (refl, refl, refl) reserved.fresh reserved.phase
          reserved.book in
      let phase = (doc.posted_phase t s.ledger id refl e).0 in (rw e refl, ground (arith, phase))

  pub voids_now :
      (void_pending_transfer id s ≡ (ok true, voiding (rt.uuid7 s.uuids)))
      × (doc.phase (voiding (rt.uuid7 s.uuids)).ledger id ≡ voided)
  unfolding void_pending_transfer uuid7 create_transfer ◌>>=◌ pure
  voids_now =
      let t = settling TransferFlags.void_pending_transfer (rt.uuid7 s.uuids) id in
      let e =
        doc.settles t s.ledger (inr refl) (refl, refl, refl) reserved.fresh reserved.phase
          reserved.book in
      let phase = (doc.voided_phase t s.ledger id refl e).0 in (rw e refl, ground (arith, phase))

module _ ⦃rt : Runtime⦄ (quiet : IsQuiet) where
  pub transact-quiet :
      {A : Type 0} (f : Database → A × Database) (s : State)
      → transact f s ≡ (ok (f s.db).0, record s { db = (f s.db).1; clock = s.clock + 1 })
  unfolding transact disturb
  transact-quiet f s = rw (quiet s.clock s) refl

module _ ⦃rt : Runtime⦄ (quiet : IsQuiet) (doc : IsDocumented rt.tb) (task row : TaskCommand)
    (s : State) (keyed : IsKeyed s.db.commands) (found : find task.task_id s.db.commands ≡ some row)
    (reserved : IsReserved doc task.tb_pending_transfer_id s) (result : Option ℤ)
    (message : Option String) where
  -- The worker completes a task that is still open and whose credits are reserved: its transfer is
  -- posted, and its row is completed and captured.
  pub handle_task_completion-success :
      is_terminal row.status ≡ false
      → ((handle_task_completion task true result message s).0 ≡ ok true)
        × (find task.task_id (handle_task_completion task true result message s).1.db.commands
            ≡ some (with_status completed captured row))
        × (doc.phase
              (handle_task_completion task true result message s).1.ledger
              task.tb_pending_transfer_id
            ≡ posted)
  unfolding handle_task_completion settled finalized ◌>>=◌ modify pure decr hset_state
  handle_task_completion-success is_open =
      let (e, phase) = posts_now doc task.tb_pending_transfer_id s reserved in
      let (a, b) =
        finalize_task_command-open task.task_id s.db keyed row found completed captured result
          message is_open in
      rw (e, transact-quiet quiet _ _, a) (refl, b, phase)

  -- The worker fails a task that is still open and whose credits are reserved: its transfer is
  -- voided, and its row is failed and released.
  pub handle_task_completion-failure :
      is_terminal row.status ≡ false
      → ((handle_task_completion task false result message s).0 ≡ ok true)
        × (find task.task_id (handle_task_completion task false result message s).1.db.commands
            ≡ some (with_status failed released row))
        × (doc.phase
              (handle_task_completion task false result message s).1.ledger
              task.tb_pending_transfer_id
            ≡ voided)
  unfolding handle_task_completion settled finalized ◌>>=◌ modify pure decr hset_state
  handle_task_completion-failure is_open =
      let (e, phase) = voids_now doc task.tb_pending_transfer_id s reserved in
      let (a, b) =
        finalize_task_command-open task.task_id s.db keyed row found failed released result message
          is_open in
      rw (e, transact-quiet quiet _ _, a) (refl, b, phase)

  -- A task whose row has ended, as a cancellation ends it before its transfer is voided, is still
  -- captured when the worker completes it: its transfer is posted, while its row stays as it is,
  -- and the worker asks for the delivery again.
  pub handle_task_completion-ended :
      is_terminal row.status ≡ true
      → ((handle_task_completion task true result message s).0 ≡ ok false)
        × (find task.task_id (handle_task_completion task true result message s).1.db.commands
            ≡ some row)
        × (doc.phase
              (handle_task_completion task true result message s).1.ledger
              task.tb_pending_transfer_id
            ≡ posted)
  unfolding handle_task_completion settled finalized ◌>>=◌ modify pure
  handle_task_completion-ended ended =
      let (e, phase) = posts_now doc task.tb_pending_transfer_id s reserved in
      let a =
        finalize_task_command-terminal task.task_id s.db keyed row found completed captured result
          message ended in
      rw (e, transact-quiet quiet _ _, a) (refl, found, phase)

-- A delivery of a task that is not pending, as the one that follows a crash of the worker is, is
-- acknowledged, and neither the database nor the ledger changes: the task is left to the reconciler.
pub handle_delivery-repeated :
    ⦃rt : Runtime⦄ (quiet : IsQuiet) (task row : TaskCommand) (fault : Option String) (s : State)
    → IsKeyed s.db.commands
    → find task.task_id s.db.commands ≡ some row
    → row.status ≢ TaskStatus.pending
    → ((handle_delivery (some task) fault s).0 ≡ ok ack)
      × ((handle_delivery (some task) fault s).1.db ≡ s.db)
      × ((handle_delivery (some task) fault s).1.ledger ≡ s.ledger)
unfolding handle_delivery try_except process_task_event mark_task_running marked when_started ◌>>=◌
    pure
handle_delivery-repeated quiet task row fault s keyed found ne =
    let e = update_task_running-other task.task_id s.db keyed row found ne in
    rw (transact-quiet quiet _ _, e) (refl, refl, refl)
