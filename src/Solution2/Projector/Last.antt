-- ===== src/Solution2/Projector/Last.antt =====
-- The view follows the order of delivery.
use metered_compute.Base.{
  ℕ, ◌≡◌, refl, inl, inr, false, Option, none, some, ◌∷◌, arith, String, Option-cases, Bool-cases,
  ap, sym, ◌∙◌,
}
use metered_compute.Exec.{ok, Result-cases}
use metered_compute.Table.{Commits}
use metered_compute.Table.Rows.{find-key, find-replaced, find-appended}
use metered_compute.Solution2.Database.{
  TaskCommand, TaskQueryView, Database, command_key, view_key, get_task_command,
  get_task_query_view, is_recorded, upsert_task_query_view,
}
use metered_compute.Solution2.Moves.{Idle, Succeeds}
use metered_compute.Solution2.Moves.Open.{same}
use metered_compute.Solution2.Projector.{
  ProjectionEvent, projector_consumer_name, queue_or_resolve, view_of, persist_projection,
}

upsert-get :
    (v : TaskQueryView) (db : Database)
    → get_task_query_view v.task_id (upsert_task_query_view v db) ≡ some v
upsert-get v db = elim (Option-cases (get_task_query_view v.task_id db)) [
  | inl n ↦ rw n (ground (arith, find-appended view_key v.task_id v.task_id db.views v n refl))
  | inr (old, e) ↦
      rw e (ground (arith, find-replaced view_key v.task_id v.task_id v old db.views e refl))
]

-- What an event that was projected leaves: the tables of commands are as they were, and the view of
-- the task has the status, the result and the error of the event.
abbrev pub Shows : ProjectionEvent → Database → Option (String × ℕ) → Database → Type 0
Shows event db none s = ⊥
Shows event db (some (q, user)) s =
    Idle db s
    × ((v : TaskQueryView) × ((get_task_query_view event.task_id s ≡ some v)
          × ((v.status ≡ event.status) × ((v.result ≡ event.result) × (v.error ≡ event.error)))))

-- An event that the projector has not recorded, for a task that exists and whose queue is known, is
-- projected: users, tasks and reservations stay, and the view of the task has the status, the result
-- and the error of this event, whatever the task's own status and whatever events came before.
pub persist_projection-last :
    (event : ProjectionEvent) (db : Database) (c : TaskCommand) (q : String)
    → is_recorded event.event_id projector_consumer_name db.inbox ≡ false
    → get_task_command event.task_id db ≡ some c
    → queue_or_resolve event.queue_name c ≡ ok q
    → Succeeds (Shows event db) (persist_projection event db)
unfolding persist_projection
persist_projection-last event db c q fresh found known =
    let key : c.task_id ≡ event.task_id = find-key command_key event.task_id db.commands c found in
    let v = view_of event c q in
    let db1 : Database = record db {
      inbox = (event.event_id, projector_consumer_name) ∷ db.inbox;
    } in
    let shown =
      ap (λ n. get_task_query_view n (upsert_task_query_view v db1)) (sym key) ∙ upsert-get v db1 in
    rw (fresh, found, known) (same db _ refl refl refl, (v, (shown, (refl, (refl, refl)))))

-- A projection that commits changes no user, task and reservation.
pub persist_projection-Idle :
    (event : ProjectionEvent) (db : Database)
    → Commits (λ out s. Idle db s) (persist_projection event db)
unfolding persist_projection
persist_projection-Idle event db =
    elim (Bool-cases (is_recorded event.event_id projector_consumer_name db.inbox)) [
      | inl e ↦ rw e (same db _ refl refl refl)
      | inr e ↦ elim (Option-cases (get_task_command event.task_id db)) [
        | inl n ↦ rw (e, n) (same db _ refl refl refl)
        | inr (c, found) ↦ elim (Result-cases (queue_or_resolve event.queue_name c)) [
          | inl (q, f) ↦ rw (e, found, f) (same db _ refl refl refl)
          | inr (x, f) ↦ rw (e, found, f) tt
        ]
      ]
    ]
