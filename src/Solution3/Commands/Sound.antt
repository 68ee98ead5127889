-- ===== src/Solution3/Commands/Sound.antt =====
-- Each transaction of the commands keeps the outbox in step with them, and no command that has ended
-- is written again.
use metered_compute.Base.{
  String, ℕ, sym, ◌∙◌, ◌≡◌, refl, true, false, Option, none, some, List, [], ◌∷◌, ◌++◌, arith,
}
use metered_compute.Int.{ℤ}
use metered_compute.Solution3.Database.{
  TaskStatus, cancelled, BillingState, released, is_terminal, TaskCommand, Topic, tasks_requested,
  tasks_started, tasks_cancelled, tasks_expired, OutboxEvent, Resolution, Database,
}
use metered_compute.Solution3.Commands.{
  find, emit, is_updated, open_row, pending_row, stale_row, mark_running, with_status, insert,
  insert_unless, inserted, existing_or, no_fields, submit_task_command, cancel_task_command,
  update_task_running, finalize_task_command, topic_of_final,
}
use metered_compute.Solution3.Commands.Outbox.{publish, mark_outbox_events_published}
use metered_compute.Solution3.Commands.Stale.{
  expire_stale_reserved_task, align_with, aligned_as, align_stale_reserved_task_terminal_state,
  terminal_event_for_status, add_job, in_view,
}
use metered_compute.Solution3.Commands.Rows.{find-append, append-IsKeyed}
use metered_compute.Solution3.Commands.Settled.{
  IsSettled, IsSound, IsSound-same, when_updated-IsSound, terminal_events-append, terminal_events,
  weight,
}

is_updated-same : (r : Option TaskCommand × Database) → (is_updated r).1 ≡ r.1
is_updated-same (none, db) = refl
is_updated-same (some c, db) = refl

module _ (i : ℕ) where
  open_row_only : (c : TaskCommand) → open_row i c ≡ true → c.task_id ≡ i
  open_row_only c h = ground arith

  open_row_open : (c : TaskCommand) → open_row i c ≡ true → is_terminal c.status ≡ false
  open_row_open c h = ground arith

  pending_row_only : (c : TaskCommand) → pending_row i c ≡ true → c.task_id ≡ i
  pending_row_only c h = ground arith

  pending_row_open : (c : TaskCommand) → pending_row i c ≡ true → is_terminal c.status ≡ false
  pending_row_open c h = ground arith

  stale_row_only : (secs now : ℕ) (c : TaskCommand) → stale_row i secs now c ≡ true → c.task_id ≡ i
  stale_row_only secs now c h = ground arith

  stale_row_open :
      (secs now : ℕ) (c : TaskCommand)
      → stale_row i secs now c ≡ true
      → is_terminal c.status ≡ false
  stale_row_open secs now c h = ground arith

pub cancel-IsSound :
    (i : ℕ) (db : Database) → IsSettled db → IsSound db (cancel_task_command i db).1
unfolding cancel_task_command emit
cancel-IsSound i db h = rw (is_updated-same _) (
    when_updated-IsSound i (open_row i) (with_status cancelled released) tasks_cancelled
      (open_row_only i) (open_row_open i) (λ c. refl) (λ c. refl) _ (λ c d. refl)
      (λ c d j. terminal_events-append j d.outbox _) db h)

pub start-IsSound : (i : ℕ) (db : Database) → IsSettled db → IsSound db (update_task_running i db).1
unfolding update_task_running emit
start-IsSound i db h = rw (is_updated-same _) (
    when_updated-IsSound i (pending_row i) mark_running tasks_started (pending_row_only i)
      (pending_row_open i) (λ c. refl) (λ c. refl) _ (λ c d. refl)
      (λ c d j. terminal_events-append j d.outbox _) db h)

pub finalize-IsSound :
    (i : ℕ) (status : TaskStatus) (billing_state : BillingState) (result : Option ℤ)
    (error : Option String) (db : Database)
    → is_terminal status ≡ true
    → IsSettled db
    → IsSound db (finalize_task_command i status billing_state result error db).1
unfolding finalize_task_command emit
finalize-IsSound i status billing_state result error db ends h = rw (is_updated-same _) (
    when_updated-IsSound i (open_row i) (with_status status billing_state) (topic_of_final status)
      (open_row_only i) (open_row_open i) (λ c. refl) (λ c. ground arith) _ (λ c d. refl)
      (λ c d j. terminal_events-append j d.outbox _) db h)

pub expire-IsSound :
    (i transfer_id secs : ℕ) (db : Database)
    → IsSettled db
    → IsSound db (expire_stale_reserved_task i transfer_id secs db).1
unfolding expire_stale_reserved_task emit add_job in_view
expire-IsSound i transfer_id secs db h =
    when_updated-IsSound i (stale_row i secs db.now)
      (with_status TaskStatus.expired BillingState.expired) tasks_expired
      (stale_row_only i secs db.now) (stale_row_open i secs db.now) (λ c. refl) (λ c. refl) _
      (λ c d. refl) (λ c d j. terminal_events-append j d.outbox _) db h

align_with-IsSound :
    (task : TaskCommand) (topic : Topic) (status : TaskStatus) (billing_state : BillingState)
    (resolution : Resolution) (secs : ℕ) (db : Database)
    → terminal_event_for_status status ≡ some topic
    → IsSettled db
    → IsSound db (align_with task topic status billing_state resolution secs db).1
unfolding align_with emit add_job in_view terminal_event_for_status
align_with-IsSound task topic status billing_state resolution secs db e h =
    when_updated-IsSound task.task_id (stale_row task.task_id secs db.now)
      (with_status status billing_state) topic (stale_row_only task.task_id secs db.now)
      (stale_row_open task.task_id secs db.now) (λ c. refl) (λ c. ground arith) _ (λ c d. refl)
      (λ c d j. terminal_events-append j d.outbox _) db h

pub align-IsSound :
    (task : TaskCommand) (status : TaskStatus) (billing_state : BillingState)
    (resolution : Resolution) (secs : ℕ) (db : Database) (row : Option TaskCommand) (t : Database)
    → align_stale_reserved_task_terminal_state task status billing_state resolution secs db
      ≡ some (row, t)
    → IsSettled db
    → IsSound db t
unfolding align_stale_reserved_task_terminal_state aligned_as
align-IsSound task status billing_state resolution secs db row t e h =
    at (terminal_event_for_status status) refl e
  where
    at :
        (event : Option Topic)
        → terminal_event_for_status status ≡ event
        → aligned_as event task status billing_state resolution secs db ≡ some (row, t)
        → IsSound db t
    at none q e = cc
    at (some topic) q e =
        let same : (align_with task topic status billing_state resolution secs db).1 ≡ t = cc in
        rw (sym same) (align_with-IsSound task topic status billing_state resolution secs db q h)

-- A new row, with its event.
inserted-IsSound :
    (c : TaskCommand) (db : Database) (row key : Option TaskCommand)
    → is_terminal c.status ≡ false
    → IsSettled db
    → find c.task_id db.commands ≡ row
    → IsSound db (inserted c (insert_unless row key c db.commands) db).1
unfolding inserted insert_unless emit
inserted-IsSound c db (some d) key new h e = IsSound-same db h
inserted-IsSound c db none (some d) new h e = IsSound-same db h
inserted-IsSound c db none none new h free = record {
  settled = record { keyed = append-IsKeyed db.commands c h.keyed free; once = once };
  kept = λ i d e t. rw (find-append i db.commands c, e);
}
  where
    once :
        (i : ℕ)
        → terminal_events i (emit c.task_id tasks_requested no_fields db).outbox
          ≡ weight (find i (db.commands ++ (c ∷ [])))
    once i =
        let events = terminal_events-append i db.outbox (record {
          event_id = db.ids;
          aggregate_id = c.task_id;
          topic = tasks_requested;
          payload = no_fields;
          published = false;
        }) in
        ground (arith, events, find-append i db.commands c, h.once i)

existing_or-IsSound :
    (row : Option TaskCommand) (c : TaskCommand) (db : Database)
    → is_terminal c.status ≡ false
    → IsSettled db
    → IsSound db (existing_or row c db).1
unfolding existing_or insert
existing_or-IsSound none c db new h = inserted-IsSound c db _ _ new h refl
existing_or-IsSound (some d) c db new h = IsSound-same db h

pub submit-IsSound :
    (c : TaskCommand) (db : Database) → IsSettled db → IsSound db (submit_task_command c db).1
unfolding submit_task_command
submit-IsSound c db h = existing_or-IsSound _ _ db refl h

publish-events :
    (ids : List ℕ) (events : List OutboxEvent) (i : ℕ)
    → terminal_events i (publish ids events) ≡ terminal_events i events
unfolding publish terminal_events
publish-events ids [] i = refl
publish-events ids (e ∷ events) i = ground (arith, publish-events ids events i)

pub publish-IsSound :
    (ids : List ℕ) (db : Database) → IsSettled db → IsSound db (mark_outbox_events_published ids db)
unfolding mark_outbox_events_published
publish-IsSound ids db h = record {
  settled = record { keyed = h.keyed; once = λ i. publish-events ids db.outbox i ∙ h.once i };
  kept = λ i c e t. e;
}

-- What touches neither the commands nor the outbox.
pub IsSound-elsewhere :
    (db t : Database)
    → t.commands ≡ db.commands
    → t.outbox ≡ db.outbox
    → IsSettled db
    → IsSound db t
IsSound-elsewhere db t a b h = record {
  settled = record { keyed = rw a h.keyed; once = λ i. rw (a, b) (h.once i) };
  kept = λ i c e q. rw a e;
}
