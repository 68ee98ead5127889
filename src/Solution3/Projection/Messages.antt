-- ===== src/Solution3/Projection/Messages.antt =====
-- What the projection of a message writes.
use metered_compute.Base.{
  String, ℕ, ◌≡◌, refl, true, false, Option, none, some, List, [], ◌∷◌, inl, inr, Bool-cases, arith,
  str_eq, eq_iff, ◌≤◌,
}
use metered_compute.Exec.{ok}
use metered_compute.Solution3.Database.{TaskQueryView, TaskCommand, Topic, Database}
use metered_compute.Solution3.Commands.{find}
use metered_compute.Solution3.Projection.{
  Message, processed, record_processed, project_row, apply_task_projection, project_message,
  is_inbox_event_processed, upsert, find_view, fresh_view, rebuilt_view, rebuilt_views,
  rebuild_task_query_view_from_commands, clashes, reset_projection_state,
}

-- The projection writes neither the commands nor the outbox.
record_processed_same :
    (consumer_name projector_name : String) (m : Message) (r : TaskQueryView × List TaskQueryView)
    (db : Database)
    → ((record_processed consumer_name projector_name m r db).1.commands ≡ db.commands)
      × ((record_processed consumer_name projector_name m r db).1.outbox ≡ db.outbox)
unfolding record_processed
record_processed_same consumer_name projector_name m r db =
    elim (Bool-cases (processed m.event_id consumer_name db.inbox)) [
      | inl again ↦ rw again (refl, refl)
      | inr first ↦ rw first (refl, refl)
    ]

project_row_same :
    (consumer_name projector_name : String) (m : Message) (row : Option TaskCommand) (db : Database)
    → ((project_row consumer_name projector_name m row db).1.commands ≡ db.commands)
      × ((project_row consumer_name projector_name m row db).1.outbox ≡ db.outbox)
unfolding project_row
project_row_same consumer_name projector_name m none db = (refl, refl)
project_row_same consumer_name projector_name m (some c) db =
    record_processed_same consumer_name projector_name m _ db

pub apply_task_projection_same :
    (consumer_name projector_name : String) (m : Message) (db : Database)
    → ((apply_task_projection consumer_name projector_name m db).1.commands ≡ db.commands)
      × ((apply_task_projection consumer_name projector_name m db).1.outbox ≡ db.outbox)
unfolding apply_task_projection
apply_task_projection_same consumer_name projector_name m db =
    project_row_same consumer_name projector_name m _ db

module _ (consumer_name projector_name : String) (m : Message) where
  str_eq_refl : (c : String) → str_eq c c ≡ true
  str_eq_refl c = (eq_iff c c).1 refl

  processed_now :
      (db : Database)
      → processed m.event_id consumer_name ((m.event_id, consumer_name) ∷ db.inbox) ≡ true
  unfolding processed
  processed_now db = ground (arith, str_eq_refl consumer_name)

  upsert-row :
      (topic : Topic) (new : TaskQueryView) (views : List TaskQueryView)
      → (find_view new.task_id (upsert topic new views).1 ≡ some (upsert topic new views).0)
        × ((upsert topic new views).0.status ≡ new.status)
        × ((upsert topic new views).0.billing_state ≡ new.billing_state)
        × (new.projection_version ≤ (upsert topic new views).0.projection_version)
  unfolding upsert find_view
  upsert-row topic new [] = ground arith
  upsert-row topic new (v ∷ views) = ground (arith, upsert-row topic new views)

  -- A message of a task that exists, which the consumer has not processed, brings the view of the
  -- task to the status and the billing state of the command, and to at least its own offset; and
  -- the same message, delivered again, is ignored.
  pub project_message-project_message :
      (db : Database) (c : TaskCommand)
      → find m.task_id db.commands ≡ some c
      → processed m.event_id consumer_name db.inbox ≡ false
      → let db' = (project_message consumer_name projector_name m db).1 in
        ((v : TaskQueryView) × (find_view c.task_id db'.views ≡ some v)
          × (v.status ≡ c.status)
          × (v.billing_state ≡ c.billing_state)
          × (m.offset ≤ v.projection_version))
        × ((project_message consumer_name projector_name m db).0 ≡ ok true)
        × (project_message consumer_name projector_name m db' ≡ (ok false, db'))
  unfolding project_message apply_task_projection project_row record_processed
      is_inbox_event_processed
  project_message-project_message db c found new =
      let (a, b, d, e) = upsert-row m.topic (fresh_view m.topic m.event m.offset c) db.views in
      rw (new, found, new, processed_now db) ((_, a, b, d, e), refl, refl)

rebuilt_views-find :
    (i : ℕ) (rows : List TaskCommand)
    → find_view i (rebuilt_views rows)
      ≡ elim (find i rows) [ none ↦ none | some c ↦ some (rebuilt_view c) ]
unfolding rebuilt_views find_view find
rebuilt_views-find i [] = refl
rebuilt_views-find i (c ∷ rows) = ground (arith, rebuilt_views-find i rows)

clashes-empty : (rows : List TaskCommand) → clashes rows [] ≡ false
unfolding clashes find_view
clashes-empty [] = refl
clashes-empty (c ∷ rows) = clashes-empty rows

-- After a reset the view can be rebuilt, and it then has exactly the tasks of the commands, each
-- with the status and the billing state of its command; the results and the errors are gone.
pub rebuild-reset_projection_state :
    (consumer_names projector_names : List String) (db : Database) (i : ℕ)
    → let (r, db') =
        rebuild_task_query_view_from_commands
          (reset_projection_state consumer_names projector_names db) in
      (r ≡ ok (rebuilt_views db.commands))
      × (find_view i db'.views
          ≡ elim (find i db.commands) [ none ↦ none | some c ↦ some (rebuilt_view c) ])
unfolding rebuild_task_query_view_from_commands reset_projection_state
rebuild-reset_projection_state consumer_names projector_names db i =
    rw (clashes-empty db.commands) (refl, rebuilt_views-find i db.commands)

pub rebuild_same :
    (db : Database)
    → ((rebuild_task_query_view_from_commands db).1.commands ≡ db.commands)
      × ((rebuild_task_query_view_from_commands db).1.outbox ≡ db.outbox)
unfolding rebuild_task_query_view_from_commands
rebuild_same db = elim (Bool-cases (clashes db.commands db.views)) [
  | inl clash ↦ rw clash (refl, refl)
  | inr free ↦ rw free (refl, refl)
]
