-- ===== src/Solution2/Tests/World2.antt =====
-- A user with credits and a task of theirs that runs, and what transactions leave of them.
use metered_compute.Base.{refl, some, none, [], ◌∷◌, inl, inr, Bool-cases, ◌==◌}
use metered_compute.Int.{pos}
use metered_compute.Table.{find}
use metered_compute.Solution2.Constants.{
  pro, async, small, pending, running, completed, reserved, captured,
}
use metered_compute.Solution2.Database.{
  User, TaskCommand, Reservation, Database, task_completed, task_submitted,
}
use metered_compute.Solution2.Moves.{Agrees}
use metered_compute.Solution2.Admission.{Payload}
use metered_compute.Solution2.Worker.{TaskExecutionCommand}

abbrev pub alice : User
alice = record { api_key = "alice"; user_id = 1; credits = 90 }

abbrev pub task : TaskCommand
task = record {
  task_id = 7;
  user_id = 1;
  tier = pro;
  mode = async;
  model_class = small;
  status = running;
  x = pos 2;
  y = pos 3;
  cost = 10;
  callback_url = none;
  idempotency_key = some "a";
}

abbrev pub hold : Reservation
hold = record { task_id = 7; user_id = 1; amount = 10; state = reserved; expires_at = 60 }

abbrev pub db : Database
db = record {
  users = alice ∷ [];
  commands = task ∷ [];
  reservations = hold ∷ [];
  outbox = [];
  inbox = [];
  views = [];
  transactions = [];
  now = 5;
}

pub good : Agrees db
unfolding find
good = record { rows = λ k. elim (Bool-cases (7 == k)) [ inl e ↦ rw e refl | inr e ↦ rw e refl ] }

abbrev pub delivery : TaskExecutionCommand
delivery = record {
  event_id = 50;
  task_id = 7;
  user_id = 1;
  x = pos 2;
  y = pos 3;
  cost = 10;
  mode = "async";
  tier = "pro";
  model_class = small;
  queue_name = "queue.fast";
  routing_key = "tasks.async.pro.small";
  event_type = "task.submitted";
}

abbrev pub payload : Payload
payload = record {
  mode = none;
  tier = some pro;
  model_class = some small;
  x = some (pos 1);
  y = none;
  callback_url = none;
}

-- What the completion leaves
abbrev pub captured_db : Database
captured_db = record db {
  commands = (record task { status = completed }) ∷ [];
  reservations = (record hold { state = captured }) ∷ [];
  outbox =
      (record {
        aggregate_id = 7;
        event_type = task_completed;
        routing_key = "tasks.async.pro.small";
      })
      ∷ [];
  inbox = (50, "worker") ∷ [];
}

-- What the submission of a second task leaves
abbrev pub submitted_db : Database
submitted_db = record db {
  users = (record alice { credits = 80 }) ∷ [];
  commands =
      task
      ∷ (record task {
        task_id = 8;
        status = pending;
        x = pos 1;
        y = pos 0;
        idempotency_key = some "b";
      })
      ∷ [];
  reservations = hold ∷ (record hold { task_id = 8; expires_at = 6 }) ∷ [];
  outbox =
      (record {
        aggregate_id = 8;
        event_type = task_submitted;
        routing_key = "tasks.async.pro.small";
      })
      ∷ [];
}
