-- ===== src/Solution3/Commands/Updates.antt =====
-- What a transaction does to the row of its task, where the guard holds and where it does not.
use metered_compute.Base.{
  String, ap, ◌∙◌, ℕ, ◌==◌, ◌≡◌, ◌≢◌, refl, Bool, true, false, Option, none, some, List, arith,
}
use metered_compute.Int.{ℤ}
use metered_compute.Solution3.Database.{
  TaskStatus, pending, BillingState, is_terminal, TaskCommand, Database, Topic, Resolution,
}
use metered_compute.Solution3.Commands.{
  find, update_returning, open_row, pending_row, stale_row, stale, mark_running, with_status, emit,
  update_task_running, finalize_task_command, cancel_task_command,
}
use metered_compute.Solution3.Commands.Stale.{
  add_job, in_view, align_with, aligned_as, align_stale_reserved_task_terminal_state,
  expire_stale_reserved_task, terminal_event_for_status,
}
use metered_compute.Solution3.Commands.Rows.{
  IsKeyed, find-task_id, update-this, update-same, update-IsKeyed,
}

module _ (i : ℕ) (p : TaskCommand → Bool) (f : TaskCommand → TaskCommand)
    (only : (c : TaskCommand) → p c ≡ true → c.task_id ≡ i)
    (keeps : (c : TaskCommand) → (f c).task_id ≡ c.task_id) (rows : List TaskCommand)
    (keyed : IsKeyed rows) (c : TaskCommand) (found : find i rows ≡ some c) where
  -- The row is returned, and the table has it in its place.
  pub hit :
      p c ≡ true
      → (rows' : List TaskCommand) × (update_returning p f rows ≡ (some (f c), rows'))
        × (find i rows' ≡ some (f c))
        × IsKeyed rows'
  hit h =
      let (a, b) = update-this i p f only keeps rows keyed in
      let e : (update_returning p f rows).0 ≡ some (f c) = ground (arith, a, found, h) in
      (
        (update_returning p f rows).1,
        ap (λ row. (row, (update_returning p f rows).1)) e,
        ground (arith, b, found, h),
        update-IsKeyed i p f only keeps rows keyed,
      )

  pub miss : p c ≡ false → update_returning p f rows ≡ (none, rows)
  miss h =
      let (a, b) = update-this i p f only keeps rows keyed in
      let nothing : (update_returning p f rows).0 ≡ none = ground (arith, a, found, h) in
      ap (λ row. (row, (update_returning p f rows).1)) nothing
      ∙ ap (λ rest. (none, rest)) (update-same i p f only keeps rows nothing)

module _ (i : ℕ) (db : Database) (keyed : IsKeyed db.commands) (c : TaskCommand)
    (found : find i db.commands ≡ some c) where
  own : (c.task_id == i) ≡ true
  own = ground (arith, find-task_id i db.commands c found)

  pub update_task_running-pending :
      c.status ≡ pending
      → ((update_task_running i db).0 ≡ true)
        × (find i (update_task_running i db).1.commands ≡ some (mark_running c))
        × IsKeyed (update_task_running i db).1.commands
  unfolding update_task_running emit
  update_task_running-pending h =
      let (rows, e, b, k) =
        hit i (pending_row i) mark_running (λ d e. ground arith) (λ d. refl) db.commands keyed c
          found (rw (own, h) refl) in
      rw e (refl, b, k)

  pub update_task_running-other : c.status ≢ pending → update_task_running i db ≡ (false, db)
  unfolding update_task_running
  update_task_running-other h =
      let e =
        miss i (pending_row i) mark_running (λ d e. ground arith) (λ d. refl) db.commands keyed c
          found (ground (arith, own)) in
      rw e

  pub cancel_task_command-open :
      is_terminal c.status ≡ false
      → ((cancel_task_command i db).0 ≡ true)
        × (find i (cancel_task_command i db).1.commands
            ≡ some (with_status TaskStatus.cancelled BillingState.released c))
  unfolding cancel_task_command emit
  cancel_task_command-open h =
      let (rows, e, b, k) =
        hit i (open_row i) (with_status TaskStatus.cancelled BillingState.released)
          (λ d e. ground arith) (λ d. refl) db.commands keyed c found (rw (own, h) refl) in
      rw e (refl, b)

  module _ (status : TaskStatus) (billing_state : BillingState) (result : Option ℤ)
      (error : Option String) where
    pub finalize_task_command-open :
        is_terminal c.status ≡ false
        → ((finalize_task_command i status billing_state result error db).0 ≡ true)
          × (find i (finalize_task_command i status billing_state result error db).1.commands
              ≡ some (with_status status billing_state c))
    unfolding finalize_task_command emit
    finalize_task_command-open h =
        let (rows, e, b, k) =
          hit i (open_row i) (with_status status billing_state) (λ d e. ground arith) (λ d. refl)
            db.commands keyed c found (rw (own, h)) in
        rw e (refl, b)

    pub finalize_task_command-terminal :
        is_terminal c.status ≡ true
        → finalize_task_command i status billing_state result error db ≡ (false, db)
    unfolding finalize_task_command
    finalize_task_command-terminal h =
        let e =
          miss i (open_row i) (with_status status billing_state) (λ d e. ground arith) (λ d. refl)
            db.commands keyed c found (rw (own, h)) in
        rw e

terminal_event_for_status-terminal :
    (status : TaskStatus)
    → is_terminal status ≡ true
    → (topic : Topic) × (terminal_event_for_status status ≡ some topic)
unfolding terminal_event_for_status
terminal_event_for_status-terminal pending h = cc
terminal_event_for_status-terminal TaskStatus.running h = cc
terminal_event_for_status-terminal TaskStatus.completed h = (_, refl)
terminal_event_for_status-terminal TaskStatus.failed h = (_, refl)
terminal_event_for_status-terminal TaskStatus.cancelled h = (_, refl)
terminal_event_for_status-terminal TaskStatus.expired h = (_, refl)

module _ (secs : ℕ) (task : TaskCommand) (db : Database) (keyed : IsKeyed db.commands)
    (found : find task.task_id db.commands ≡ some task) (old : stale secs db.now task ≡ true) where
  same_id : (task.task_id == task.task_id) ≡ true
  same_id = ground arith

  pub expire_stale_reserved_task-stale :
      (transfer_id : ℕ)
      → (t : Database) × (expire_stale_reserved_task task.task_id transfer_id secs db
          ≡ (some (with_status TaskStatus.expired BillingState.expired task), t))
        × (find task.task_id t.commands
            ≡ some (with_status TaskStatus.expired BillingState.expired task))
  unfolding expire_stale_reserved_task emit add_job in_view
  expire_stale_reserved_task-stale transfer_id =
      let (rows, e, b, k) =
        hit task.task_id (stale_row task.task_id secs db.now)
          (with_status TaskStatus.expired BillingState.expired) (λ d e. ground arith) (λ d. refl)
          db.commands keyed task found (rw (same_id, old) refl) in
      rw e (_, refl, b)

  aligned :
      (topic : Topic) (status : TaskStatus) (billing_state : BillingState) (resolution : Resolution)
      → (t : Database) × (align_with task topic status billing_state resolution secs db
          ≡ (some (with_status status billing_state task), t))
        × (find task.task_id t.commands ≡ some (with_status status billing_state task))
  unfolding align_with emit add_job in_view
  aligned topic status billing_state resolution =
      let (rows, e, b, k) =
        hit task.task_id (stale_row task.task_id secs db.now) (with_status status billing_state)
          (λ d e. ground arith) (λ d. refl) db.commands keyed task found (rw (same_id, old) refl) in
      rw e (_, refl, b)

  pub align_stale_reserved_task_terminal_state-stale :
      (status : TaskStatus) (billing_state : BillingState) (resolution : Resolution)
      → is_terminal status ≡ true
      → (t : Database) × (align_stale_reserved_task_terminal_state task status billing_state
            resolution secs db
          ≡ some (some (with_status status billing_state task), t))
        × (find task.task_id t.commands ≡ some (with_status status billing_state task))
  unfolding align_stale_reserved_task_terminal_state aligned_as
  align_stale_reserved_task_terminal_state-stale status billing_state resolution ends =
      let (topic, event) = terminal_event_for_status-terminal status ends in
      let (t, e, b) = aligned topic status billing_state resolution in rw event (t, ap some e, b)
