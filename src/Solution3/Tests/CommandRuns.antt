-- ===== src/Solution3/Tests/CommandRuns.antt =====
-- Runs of the transactions on a database with one task.
use metered_compute.Base.{◌≡◌, refl, true, false, some, none, [], ◌∷◌, arith, ◌≤◌}
use metered_compute.Int.{pos}
use metered_compute.Exec.{ok}
use metered_compute.Solution3.Database.{
  free, async, small, TaskStatus, pending, completed, BillingState, reserved, captured, TaskCommand,
  TaskQueryView, tasks_requested, tasks_completed, OutboxEvent, Database,
}
use metered_compute.Solution3.Commands.{
  find, no_fields, submit_task_command, cancel_task_command, update_task_running,
  finalize_task_command,
}
use metered_compute.Solution3.Commands.Outbox.{
  mark_outbox_events_published, fetch_unpublished_outbox_events,
}
use metered_compute.Solution3.Commands.Stale.{list_stale_reserved_tasks}
use metered_compute.Solution3.Commands.Settled.{IsSettled, terminal_events}
use metered_compute.Solution3.Projection.{find_view, processed, Message, project_message}
use metered_compute.Solution3.Projection.Messages.{project_message-project_message}
use metered_compute.Solution3.Reachable.{
  cancel, start, complete, mark_published, Reach, here, later,
}
use metered_compute.Solution3.Reachable.Settlement.{Reach-IsSettled, Reach-IsKept}

abbrev pub command : TaskStatus → BillingState → TaskCommand
command s b = record {
  task_id = 1;
  user_id = 3;
  tier = free;
  mode = async;
  model_class = small;
  status = s;
  billing_state = b;
  x = pos 2;
  y = pos 3;
  cost = 10;
  tb_pending_transfer_id = 7;
  callback_url = none;
  idempotency_key = some "k";
  created_at = 100;
}

abbrev pub event : OutboxEvent
event = record {
  event_id = 0;
  aggregate_id = 1;
  topic = tasks_requested;
  payload = no_fields;
  published = false;
}

abbrev pub database : TaskStatus → BillingState → Database
database s b = record {
  commands = command s b ∷ [];
  outbox = event ∷ [];
  views = [];
  inbox = [];
  checkpoints = [];
  jobs = [];
  now = 2000;
  ids = 1;
}

database-IsSettled : IsSettled (database pending reserved)
unfolding find terminal_events
database-IsSettled = record { keyed = (refl, tt); once = λ i. ground arith }

-- The worker starts the task, a cancellation comes, the worker's completion comes too late, and the
-- relay publishes.
abbrev after_start : Database
after_start = (update_task_running 1 (database pending reserved)).1

abbrev after_cancel : Database
after_cancel = (cancel_task_command 1 after_start).1

abbrev after_completion : Database
after_completion = (finalize_task_command 1 completed captured (some (pos 5)) none after_cancel).1

abbrev after_relay : Database
after_relay = mark_outbox_events_published (0 ∷ 1 ∷ []) after_completion

started_cancelled : Reach (database pending reserved) after_cancel
started_cancelled = later (later here (start 1)) (cancel 1)

whole_run : Reach (database pending reserved) after_relay
whole_run =
    later (later started_cancelled (complete 1 (some (pos 5)))) (mark_published (0 ∷ 1 ∷ []))

late_run : Reach after_cancel after_relay
late_run = later (later here (complete 1 (some (pos 5)))) (mark_published (0 ∷ 1 ∷ []))

cancelled_once : terminal_events 1 after_relay.outbox ≡ 1
unfolding update_task_running cancel_task_command finalize_task_command mark_outbox_events_published
    terminal_events
cancelled_once = refl

fetched :
    fetch_unpublished_outbox_events 5
      (mark_outbox_events_published (0 ∷ []) (database pending reserved))
    ≡ []
unfolding mark_outbox_events_published fetch_unpublished_outbox_events
fetched = refl

listed : list_stale_reserved_tasks 720 (database pending reserved) ≡ command pending reserved ∷ []
unfolding list_stale_reserved_tasks
listed = refl

submitted_again :
    (submit_task_command (command pending captured) (database pending reserved)).0
    ≡ ok (false, command pending reserved)
unfolding submit_task_command
submitted_again = refl

Reach-IsSettled_example : IsSettled after_relay
Reach-IsSettled_example = Reach-IsSettled whole_run database-IsSettled

Reach-IsKept_example :
    find 1 after_relay.commands ≡ some (command TaskStatus.cancelled BillingState.released)
unfolding update_task_running cancel_task_command find
Reach-IsKept_example =
    Reach-IsKept late_run (Reach-IsSettled started_cancelled database-IsSettled) 1
      (command TaskStatus.cancelled BillingState.released) refl refl

abbrev message : Message
message = record {
  event_id = 4;
  task_id = 1;
  topic = tasks_completed;
  partition = 0;
  offset = 12;
  event = record {
    status = some completed;
    billing_state = some captured;
    result = some (pos 5);
    error = none;
  };
}

abbrev projected : Database
projected = (project_message "projector" "main" message (database completed captured)).1

project_message-project_message_example :
    ((v : TaskQueryView) × (find_view 1 projected.views ≡ some v)
      × (v.status ≡ completed)
      × (v.billing_state ≡ captured)
      × (12 ≤ v.projection_version))
    × ((project_message "projector" "main" message (database completed captured)).0 ≡ ok true)
    × (project_message "projector" "main" message projected ≡ (ok false, projected))
unfolding find processed
project_message-project_message_example =
    project_message-project_message "projector" "main" message (database completed captured)
      (command completed captured) refl refl
