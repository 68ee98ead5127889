-- ===== src/Solution2/Worker/Moves.antt =====
-- The worker's transactions as moves: from a consistent database none of their errors is raised.
use metered_compute.Exec.{ok}
use metered_compute.Table.{Commits}
use metered_compute.Base.{
  true, false, ◌∷◌, arith, eq_iff, ℕ, Option-cases, ◌≡◌, refl, inl, inr, Bool-cases,
}
use metered_compute.Table.{find}
use metered_compute.Solution2.Constants.{TaskStatus, pending, failed, is_pending}
use metered_compute.Solution2.Database.{
  get_task_command, update_task_command_running, Database, is_recorded,
}
use metered_compute.Solution2.Moves.{Move, idle, start, Agrees, Captures, Refunds, Succeeds, EndsOr}
use metered_compute.Solution2.Moves.Open.{task_cases, same, captures, refunds}
use metered_compute.Solution2.Worker.{
  TaskExecutionCommand, worker_consumer_name, persist_success, persist_failure, set_running_state,
  mark,
}

module _ (command : TaskExecutionCommand) (db : Database) (good : Agrees db) where
  -- From a consistent database, the worker's transaction for a finished task raises nothing: it
  -- completes an open task and captures its reservation, or changes no task, reservation and user.
  pub persist_success-moves :
      Succeeds (EndsOr (Captures command.task_id db) db) (persist_success command db)
  unfolding persist_success
  persist_success-moves =
      elim (Bool-cases (is_recorded command.event_id worker_consumer_name db.inbox)) [
        | inl e ↦ rw e (same db _ refl refl refl)
        | inr e ↦ elim (task_cases command.task_id db good) [
          | inl (inl n) ↦ rw (e, n) (same db _ refl refl refl)
          | inl (inr c) ↦ rw (e, c.found, c.ended) (same db _ refl refl refl)
          | inr o ↦
              rw (e, o.found_command, o.open_command, o.found_reservation, o.held)
                (rw (o.found_reservation, o.held) (captures o refl refl refl))
        ]
      ]

  -- From a consistent database, the worker's transaction for a failed run raises nothing: it fails an
  -- open task and gives its user the credits back, or changes no task, reservation and user.
  pub persist_failure-moves :
      Succeeds (EndsOr (Refunds command.task_id failed db) db) (persist_failure command db)
  unfolding persist_failure find
  persist_failure-moves =
      elim (Bool-cases (is_recorded command.event_id worker_consumer_name db.inbox)) [
        | inl e ↦ rw e (same db _ refl refl refl)
        | inr e ↦ elim (task_cases command.task_id db good) [
          | inl (inl n) ↦ rw (e, n) (same db _ refl refl refl)
          | inl (inr c) ↦ rw (e, c.found, c.ended) (same db _ refl refl refl)
          | inr o ↦
              rw (e, o.found_command, o.open_command, o.found_reservation, o.held)
                (rw (o.found_reservation, o.held)
                  (rw o.found_user (refunds failed o refl refl refl refl)))
        ]
      ]

  recorded :
      is_recorded command.event_id worker_consumer_name
        ((command.event_id, worker_consumer_name) ∷ db.inbox)
      ≡ true
  unfolding is_recorded
  recorded = ground (arith, eq_iff worker_consumer_name worker_consumer_name)

  success_records :
      Commits
        (λ applied s.
          applied ≡ true → is_recorded command.event_id worker_consumer_name s.inbox ≡ true)
        (persist_success command db)
  unfolding persist_success
  success_records = elim (Bool-cases (is_recorded command.event_id worker_consumer_name db.inbox)) [
    | inl e ↦ rw e (λ h. cc)
    | inr e ↦ elim (task_cases command.task_id db good) [
      | inl (inl n) ↦ rw (e, n) (λ h. cc)
      | inl (inr c) ↦ rw (e, c.found, c.ended) (λ h. cc)
      | inr o ↦
          rw (e, o.found_command, o.open_command, o.found_reservation, o.held)
            (rw (o.found_reservation, o.held) (λ h. recorded))
    ]
  ]

  success_again :
      (s : Database)
      → persist_success command db ≡ ok (true, s)
      → is_recorded command.event_id worker_consumer_name s.inbox ≡ true
  success_again s e = (rw e at success_records) refl

  -- An event whose task the worker has completed changes nothing when it is delivered again, whether
  -- the second run succeeds or fails.
  pub persist_success-redelivered :
      (s : Database)
      → persist_success command db ≡ ok (true, s)
      → (persist_success command s ≡ ok (false, s)) × (persist_failure command s ≡ ok (false, s))
  unfolding persist_success persist_failure
  persist_success-redelivered s e = let h = success_again s e in (rw h refl, rw h refl)

-- The running mark starts a pending task, or changes no task, reservation and user.
pub update_task_command_running-moves :
    (k : ℕ) (db : Database) → Move db (update_task_command_running k db).1
update_task_command_running-moves k db = elim (Option-cases (get_task_command k db)) [
  | inl n ↦ rw n (idle (same db _ refl refl refl))
  | inr (c, e) ↦ elim (Bool-cases (is_pending c.status)) [
    | inl h ↦
        rw (e, h)
          (start k (record {
            command = c;
            found = e;
            waits = h;
            users = refl;
            commands = refl;
            reservations = refl;
          }))
    | inr h ↦ rw (e, h) (idle (same db _ refl refl refl))
  ]
]

mark-moves : (k : ℕ) (status : TaskStatus) (db : Database) → Move db (mark k status db).1
mark-moves k pending db = update_task_command_running-moves k db
mark-moves k TaskStatus.running db = idle (same db db refl refl refl)
mark-moves k TaskStatus.completed db = idle (same db db refl refl refl)
mark-moves k failed db = idle (same db db refl refl refl)
mark-moves k TaskStatus.cancelled db = idle (same db db refl refl refl)
mark-moves k TaskStatus.timeout db = idle (same db db refl refl refl)
mark-moves k TaskStatus.expired db = idle (same db db refl refl refl)

pub set_running_state-moves :
    (command : TaskExecutionCommand) (db : Database) → Move db (set_running_state command db).1
unfolding set_running_state
set_running_state-moves command db = elim (Option-cases (get_task_command command.task_id db)) [
  | inl n ↦ rw n (idle (same db db refl refl refl))
  | inr (c, e) ↦ rw e (mark-moves command.task_id c.status db)
]
