-- ===== src/Solution2/Projector.antt =====
-- solutions/2_solution/src/solution2/workers/projector.py: what an event does to the view of its task
-- and to the cache. A message that is no event is `none`.
pub mod Last
use metered_compute.Base.{ℕ, String, Bool, true, false, Option, none, some, str_eq, if◌then◌else◌}
use metered_compute.Int.{ℤ}
use metered_compute.Exec.{Result, ok, Exec, ◌>>=◌ as bind, pure as return}
use metered_compute.Table.{Tx, pure, gets, modify, run, lift, or_return, return_unless, ◌>>=◌, ◌>>◌}
use metered_compute.Solution2.Constants.{
  TaskStatus, pending, completed, failed, cancelled, timeout, resolve_queue,
}
use metered_compute.Solution2.Database.{
  TaskCommand, TaskQueryView, EventType, task_submitted, task_completed, task_failed,
  task_cancelled, task_timed_out, Database, get_task_command, record_inbox_event,
  upsert_task_query_view,
}
use metered_compute.Solution2.Cache.{State, transact, hset}

-- `_EVENT_TO_STATUS`
abbrev pub event_to_status : EventType → Option TaskStatus
event_to_status task_submitted = some pending
event_to_status task_completed = some completed
event_to_status task_failed = some failed
event_to_status task_cancelled = some cancelled
event_to_status task_timed_out = some timeout
event_to_status _ = none

-- The status that the payload names, or that of the type of the event; without one the message is
-- no projection event.
abbrev pub resolve_status : EventType → Option TaskStatus → Option TaskStatus
resolve_status event_type none = event_to_status event_type
resolve_status event_type (some status) = some status

pub record ProjectionEvent : Type 0 where
  pub event_id : ℕ
  pub task_id : ℕ
  pub event_type : EventType
  pub status : TaskStatus
  pub result : Option ℤ
  pub error : Option String
  pub queue_name : Option String
  pub runtime_ms : Option ℕ

-- `PROJECTOR_CONSUMER_NAME`
abbrev pub projector_consumer_name : String
projector_consumer_name = "projector"

-- `event.queue_name or resolve_queue(…)`: an empty name counts as missing.
abbrev pub queue_or_resolve : Option String → TaskCommand → Result String
queue_or_resolve none c = resolve_queue c.tier c.mode c.model_class
queue_or_resolve (some q) c =
    if str_eq q "" then resolve_queue c.tier c.mode c.model_class else ok q

abbrev pub view_of : ProjectionEvent → TaskCommand → String → TaskQueryView
view_of event command queue_name = record {
  task_id = command.task_id;
  user_id = command.user_id;
  tier = command.tier;
  mode = command.mode;
  model_class = command.model_class;
  status = event.status;
  result = event.result;
  error = event.error;
  queue_name = some queue_name;
  runtime_ms = event.runtime_ms;
}

-- The queue and the user, if the event was projected
unfoldable pub persist_projection : ProjectionEvent → Tx Database (Option (String × ℕ))
persist_projection event = do
  inserted ← run (record_inbox_event event.event_id projector_consumer_name)
  return_unless inserted none (do
    found ← gets (get_task_command event.task_id)
    or_return found none (λ command. do
      queue_name ← lift (queue_or_resolve event.queue_name command)
      modify (upsert_task_query_view (view_of event command queue_name))
      pure (some (queue_name, command.user_id))))

abbrev or_empty : Option String → String
or_empty none = ""
or_empty (some e) = e

abbrev write_projection_cache :
    ProjectionEvent → (queue_name : String) (user_id : ℕ) → Exec State (Unit {0})
write_projection_cache event queue_name user_id s = (
  ok tt,
  hset event.task_id
      (record {
        status = event.status;
        user_id = user_id;
        queue = queue_name;
        error = or_empty event.error;
        result = event.result;
        runtime_ms = event.runtime_ms;
      })
      s,
)

pub data Outcome : Type 0 where
  invalid skipped projected : Outcome

after_projection : ProjectionEvent → Option (String × ℕ) → Exec State Outcome
unfolding bind return
after_projection event none = return skipped
after_projection event (some (queue_name, user_id)) =
    bind (write_projection_cache event queue_name user_id) (λ done. return Outcome.projected)

unfoldable pub process_delivery : Option ProjectionEvent → Exec State Outcome
unfolding bind return after_projection
process_delivery none = return invalid
process_delivery (some event) =
    bind (transact (persist_projection event)) (λ out. after_projection event out)
