-- ===== src/Solution3/Projection.antt =====
-- The view that queries read: `apply_task_projection` and the tables around it in
-- solutions/3_solution/src/solution3/db/repository.py, and the projection of one message in
-- workers/projector.py. The cache of the views and the counters are left out.
pub mod Messages
use metered_compute.Base.{
  ℕ, String, Bool, true, false, ◌&&◌, Option, none, some, List, [], ◌∷◌, ◌++◌, ◌==◌, leb, str_eq,
  if◌then◌else◌,
}
use metered_compute.Int.{ℤ}
use metered_compute.Exec.{Exec, Result, ok, err, unique_violation}
use metered_compute.Solution3.Database.{
  TaskCommand, TaskQueryView, Topic, is_terminal_topic, Payload, Checkpoint, Database,
}
use metered_compute.Solution3.Commands.{find}

unfoldable pub find_view : ℕ → List TaskQueryView → Option TaskQueryView
find_view task_id [] = none
find_view task_id (v ∷ views) = if v.task_id == task_id then some v else find_view task_id views

-- `CASE WHEN $2 THEN … ELSE … END`
abbrev pub if_terminal {ℓ} : {A : Type ℓ} → Topic → A → A → A
if_terminal topic a b = if is_terminal_topic topic then a else b

-- `GREATEST`
abbrev pub greatest : ℕ → ℕ → ℕ
greatest a b = if leb a b then b else a

-- The row to insert.
abbrev pub fresh_view : Topic → Payload → ℕ → TaskCommand → TaskQueryView
fresh_view topic event offset c = record {
  task_id = c.task_id;
  user_id = c.user_id;
  tier = c.tier;
  mode = c.mode;
  model_class = c.model_class;
  status = c.status;
  billing_state = c.billing_state;
  result = if_terminal topic event.result none;
  error = if_terminal topic event.error none;
  projection_version = offset;
  created_at = c.created_at;
}

-- `ON CONFLICT (task_id) DO UPDATE SET …`; the creation time stays.
abbrev pub merged_view : Topic → TaskQueryView → TaskQueryView → TaskQueryView
merged_view topic old new = record new {
  result = if_terminal topic new.result old.result;
  error = if_terminal topic new.error old.error;
  projection_version = greatest old.projection_version new.projection_version;
  created_at = old.created_at;
}

-- The row that is returned, and the table.
unfoldable pub upsert :
    Topic → TaskQueryView → List TaskQueryView → TaskQueryView × List TaskQueryView
upsert topic new [] = (new, new ∷ [])
upsert topic new (v ∷ views) =
    let (row, rest) = upsert topic new views in
    if v.task_id == new.task_id
    then (merged_view topic v new, merged_view topic v new ∷ views)
    else (row, v ∷ rest)

unfoldable pub processed : (event_id : ℕ) → (consumer_name : String) → List (ℕ × String) → Bool
processed event_id consumer_name [] = false
processed event_id consumer_name ((e, c) ∷ inbox) =
    if e == event_id && str_eq c consumer_name then true else processed event_id consumer_name inbox

unfoldable pub is_inbox_event_processed :
    (event_id : ℕ) → (consumer_name : String) → Database → Bool
unfolding processed
is_inbox_event_processed event_id consumer_name db = processed event_id consumer_name db.inbox

-- `ON CONFLICT (projector_name) DO UPDATE`
save_checkpoint : Checkpoint → List Checkpoint → List Checkpoint
save_checkpoint new [] = new ∷ []
save_checkpoint new (c ∷ rest) =
    let saved = save_checkpoint new rest in
    if str_eq c.projector_name new.projector_name then new ∷ rest else c ∷ saved

-- A message of the log: the event with its id, its topic and where it stands.
pub record Message : Type 0 where
  pub event_id : ℕ
  pub task_id : ℕ
  pub topic : Topic
  pub partition : ℕ
  pub offset : ℕ
  pub event : Payload

module _ (consumer_name projector_name : String) where
  -- The key of the inbox is the event with the consumer; a violation undoes the transaction.
  record_processed :
      Message → TaskQueryView × List TaskQueryView → Exec Database (Option TaskQueryView)
  unfolding processed save_checkpoint
  record_processed m r db =
      if processed m.event_id consumer_name db.inbox then (err unique_violation, db) else (
        ok (some r.0),
        record db {
          views = r.1;
          inbox = (m.event_id, consumer_name) ∷ db.inbox;
          checkpoints =
              save_checkpoint
                (record {
                  projector_name = projector_name;
                  topic = m.topic;
                  partition_id = m.partition;
                  committed_offset = m.offset;
                })
                db.checkpoints;
        },
      )

  project_row : Message → Option TaskCommand → Exec Database (Option TaskQueryView)
  unfolding record_processed upsert
  project_row m none db = (ok none, db)
  project_row m (some c) db =
      record_processed m (upsert m.topic (fresh_view m.topic m.event m.offset c) db.views) db

  unfoldable pub apply_task_projection : Message → Exec Database (Option TaskQueryView)
  unfolding find project_row
  apply_task_projection m db = project_row m (find m.task_id db.commands) db

  -- `projected is None`, the other way round
  abbrev is_projected : Result (Option TaskQueryView) × Database → Result Bool × Database
  is_projected (ok none, db) = (ok false, db)
  is_projected (ok (some v), db) = (ok true, db)
  is_projected (err e, db) = (err e, db)

  -- `project_message`, once the headers are read
  unfoldable pub project_message : Message → Exec Database Bool
  unfolding is_inbox_event_processed apply_task_projection
  project_message m db =
      if is_inbox_event_processed m.event_id consumer_name db
      then (ok false, db)
      else is_projected (apply_task_projection m db)

-- `= ANY(…)`
abbrev is_any : String → List String → Bool
is_any c [] = false
is_any c (n ∷ names) = if str_eq c n then true else is_any c names

drop_inbox : List String → List (ℕ × String) → List (ℕ × String)
drop_inbox consumer_names [] = []
drop_inbox consumer_names ((e, c) ∷ inbox) =
    let rest = drop_inbox consumer_names inbox in
    if is_any c consumer_names then rest else (e, c) ∷ rest

drop_checkpoints : List String → List Checkpoint → List Checkpoint
drop_checkpoints projector_names [] = []
drop_checkpoints projector_names (c ∷ checkpoints) =
    let rest = drop_checkpoints projector_names checkpoints in
    if is_any c.projector_name projector_names then rest else c ∷ rest

-- With no names nothing is deleted, as the code's tests have it.
unfoldable pub reset_projection_state :
    (consumer_names projector_names : List String) → Database → Database
unfolding drop_inbox drop_checkpoints
reset_projection_state consumer_names projector_names db = record db {
  views = [];
  inbox = drop_inbox consumer_names db.inbox;
  checkpoints = drop_checkpoints projector_names db.checkpoints;
}

-- The view of a command that is rebuilt: no result, no error, and version 0.
abbrev pub rebuilt_view : TaskCommand → TaskQueryView
rebuilt_view c = record {
  task_id = c.task_id;
  user_id = c.user_id;
  tier = c.tier;
  mode = c.mode;
  model_class = c.model_class;
  status = c.status;
  billing_state = c.billing_state;
  result = none;
  error = none;
  projection_version = 0;
  created_at = c.created_at;
}

unfoldable pub rebuilt_views : List TaskCommand → List TaskQueryView
rebuilt_views [] = []
rebuilt_views (c ∷ rows) = rebuilt_view c ∷ rebuilt_views rows

-- A task that already has a view would violate the primary key.
clashes : List TaskCommand → List TaskQueryView → Bool
unfolding find_view
clashes [] views = false
clashes (c ∷ rows) views = elim (find_view c.task_id views) [
  | some v ↦ true
  | none ↦ clashes rows views
]

-- The table is in the order in which the commands were created.
unfoldable pub rebuild_task_query_view_from_commands : Exec Database (List TaskQueryView)
unfolding clashes rebuilt_views
rebuild_task_query_view_from_commands db =
    if clashes db.commands db.views then (err unique_violation, db) else (
      ok (rebuilt_views db.commands),
      record db { views = db.views ++ rebuilt_views db.commands },
    )
