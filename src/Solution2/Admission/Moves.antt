-- ===== src/Solution2/Admission/Moves.antt =====
-- The admissions as moves.
use metered_compute.Base.{
  ℕ, ◌≡◌, ◌⊎◌, refl, inl, inr, String, Option-cases, none, some, Option, false, leb,
}
use metered_compute.Int.{ℤ}
use metered_compute.Exec.{Result-cases, Error, Result, ok, err}
use metered_compute.Table.{◌>>=◌}
use metered_compute.Solution2.Constants.{SubscriptionTier, ModelClass, RequestMode, pending}
use metered_compute.Solution2.Database.{
  Database, TaskCommand, Reservation, get_task_command, count_active_reservations,
}
use metered_compute.Solution2.Moves.{Agrees, Idle, Admits}
use metered_compute.Solution2.Moves.Open.{same}
use metered_compute.Solution2.Admission.{
  AdmissionDecision, accepted, resolve_queue_name, or_else, Payload, create_rows, submit_rows,
  sync_rows, reservation_for, execute_admission_transaction, execute_sync_admission_transaction,
}
use metered_compute.Solution2.Admission.Checks.{
  CanPay, Refusal, paid, checked_cases, New, new_task, with_rows, rows_cases,
}

-- What an admission of the task does: it admits it, within the limit; or changes nothing and says why;
-- or raises, and is rolled back, where `Fails` holds.
abbrev pub Admitted :
    (user_id task_id cost max_concurrent : ℕ) (key : String)
    → Database
    → (Fails : Type 0) → Result (AdmissionDecision × Database)
    → Type 0
Admitted user_id task_id cost max_concurrent key db Fails (ok (d, s)) =
    ((d ≡ accepted)
      × ((leb max_concurrent (count_active_reservations user_id db) ≡ false)
          × ((c : TaskCommand) × ((r : Reservation) × ((Admits c r db s)
                  × ((c.task_id ≡ task_id) × ((c.user_id ≡ user_id) × (c.cost ≡ cost))))))))
    ⊎ (Refusal user_id cost max_concurrent key db d × Idle db s)
Admitted user_id task_id cost max_concurrent key db Fails (err e) = Fails

abbrev pub Exists : ℕ → Database → Type 0
Exists task_id db = (c : TaskCommand) × (get_task_command task_id db ≡ some c)

-- The task exists, or the payload has no model class or no queue.
abbrev pub Malformed : Payload → Option RequestMode → Option String → Type 0
Malformed payload mode queue =
    (payload.model_class ≡ none)
    ⊎ ((m : ModelClass) × ((payload.model_class ≡ some m)
          × ((e : Error) × (resolve_queue_name (or_else SubscriptionTier.free payload.tier)
                  (or_else (or_else RequestMode.async payload.mode) mode) m queue
                ≡ err e))))

module _ (clock user_id task_id cost : ℕ) (key : String) (max_concurrent : ℕ) (db : Database)
    (good : Agrees db) where
  admits :
      (p : CanPay user_id cost max_concurrent key db) (c : TaskCommand) (e : ℕ) (s : Database)
      → New task_id db
      → c.task_id ≡ task_id
      → c.user_id ≡ user_id
      → c.cost ≡ cost
      → c.status ≡ pending
      → Idle (with_rows c e (paid cost p.user db)) s
      → Admits c (reservation_for c e) db s
  admits p c e s n a b d w i = record {
    user = p.user;
    found = rw b p.found;
    new_command = rw a n.no_command;
    new_reservation = rw a n.no_reservation;
    affordable = rw d p.rich;
    same_task = refl;
    same_user = refl;
    same_cost = refl;
    waits = w;
    held = refl;
    users = rw d i.users;
    commands = i.commands;
    reservations = i.reservations;
  }

  -- The insertion of the rows, and then what changes no task, reservation and user
  inserts :
      (Fails : Type 0) (fails : Exists task_id db → Fails)
      (p : CanPay user_id cost max_concurrent key db) (c : TaskCommand) (until : ℕ)
      (out : Database → Database)
      → ((s : Database) → Idle s (out s))
      → c.task_id ≡ task_id
      → c.user_id ≡ user_id
      → c.cost ≡ cost
      → c.status ≡ pending
      → c.idempotency_key ≡ some key
      → Admitted user_id task_id cost max_concurrent key db Fails
          ((create_rows c until >>= λ u s. ok (accepted, out s)) (paid cost p.user db))
  inserts Fails fails p c until out idle a b d w k =
      let s : Database = paid cost p.user db in
      let new : get_task_command c.task_id s ≡ none → New c.task_id s = λ h.
        let n = new_task c.task_id db good h in
        record { no_command = n.no_command; no_reservation = n.no_reservation } in
      elim (rows_cases c until s new (rw (b, k, p.fresh) refl)) [
        | inl (f, (d', h)) ↦ rw f (fails (d', rw a at h))
        | inr (n, f) ↦
            let m : New task_id db = record {
              no_command = rw a at n.no_command;
              no_reservation = rw a at n.no_reservation;
            } in
            let moved = admits p c until _ m a b d w (idle _) in
            rw f (inl (refl, (p.room, (c, (reservation_for c until, (moved, (a, (b, d))))))))
      ]

  -- From a consistent database, an asynchronous admission admits the new task, within the user's
  -- limit of active reservations and of credits: its user pays its cost, and its reservation holds
  -- that. Else it changes no task, reservation and user and gives the reason; it raises only if the
  -- task exists already or the payload has no model class or no queue.
  pub admission-moves :
      (payload : Payload) (mode : Option RequestMode) (queue : Option String) (ttl : Option ℕ)
      → Admitted user_id task_id cost max_concurrent key db
          (Exists task_id db ⊎ Malformed payload mode queue)
          (execute_admission_transaction clock user_id task_id cost key max_concurrent payload mode
            queue ttl db)
  unfolding execute_admission_transaction submit_rows
  admission-moves payload mode queue ttl =
      elim (checked_cases user_id cost max_concurrent key db
        (submit_rows clock user_id task_id cost key max_concurrent payload mode queue ttl)) [
          | inl (d, (e, no_task)) ↦ rw e (inr (no_task, same db _ refl refl refl))
          | inr (p, e) ↦ elim (Option-cases payload.model_class) [
            | inl n ↦ rw e (rw n (inr (inl refl)))
            | inr (m, h) ↦
                elim (Result-cases (
                  resolve_queue_name (or_else SubscriptionTier.free payload.tier)
                    (or_else (or_else RequestMode.async payload.mode) mode) m queue)) [
                      | inl (q, f) ↦ rw e (
                          rw (h, f)
                            (inserts _ inl p _ _ _ (λ s. same s _ refl refl refl) refl refl refl
                              refl refl))
                      | inr (x, f) ↦ rw e (rw (h, f) (inr (inr (m, (refl, (x, f))))))
                    ]
          ]
        ]

  -- From a consistent database, a synchronous admission admits the new task, within the user's limit
  -- of active reservations and of credits: its user pays its cost, and its reservation holds that.
  -- Else it changes no task, reservation and user and gives the reason; it raises only if the task
  -- exists already.
  pub sync_admission-moves :
      (tier : SubscriptionTier) (x y : ℤ) (m : ModelClass) (callback : Option String)
      (ttl : Option ℕ)
      → Admitted user_id task_id cost max_concurrent key db (Exists task_id db) (
          execute_sync_admission_transaction clock user_id task_id cost key max_concurrent tier x y
            m callback ttl db)
  unfolding execute_sync_admission_transaction sync_rows
  sync_admission-moves tier x y m callback ttl =
      elim (checked_cases user_id cost max_concurrent key db
        (sync_rows clock user_id task_id cost key max_concurrent tier x y m callback ttl)) [
          | inl (d, (e, no_task)) ↦ rw e (inr (no_task, same db _ refl refl refl))
          | inr (p, e) ↦ rw e (
              inserts _ (λ h. h) p _ _ (λ s. s) (λ s. same s s refl refl refl) refl refl refl refl
                refl)
        ]
