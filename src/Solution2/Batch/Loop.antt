-- ===== src/Solution2/Batch/Loop.antt =====
-- The loop of a batch admission over its tasks.
use metered_compute.Base.{
  ◌&&◌, ℕ, suc, ◌+◌, ◌≡◌, ◌⊎◌, refl, inl, inr, false, Option, some, List, [], ◌∷◌, ◌++◌, Bool-cases,
  Option-cases, is_none,
}
use metered_compute.Exec.{Error, Result, ok, err, Result-cases, unique_violation}
use metered_compute.Table.{find, continue, pure}
use metered_compute.Solution2.Constants.{
  SubscriptionTier, RequestMode, resolve_queue, compute_routing_key, task_cost_for_model,
}
use metered_compute.Solution2.Database.{
  Reservation, User, TaskCommand, Database, user_key, clash, get_task_command, create_outbox_event,
  task_submitted,
}
use metered_compute.Solution2.Moves.{Agrees, Idle}
use metered_compute.Solution2.Moves.Open.{same}
use metered_compute.Solution2.Admission.{create_rows, reservation_for, reservation_expires_at}
use metered_compute.Solution2.Admission.Checks.{New, new_task, with_rows, rows_cases}
use metered_compute.Solution2.Batch.{BatchTaskSpec, Ids, total_cost_of, command_of, create_all}
use metered_compute.Solution2.Batch.Moves.{Inserts, Inserted, done, more, Inserts-Agrees}

-- The row of a task clashes with one that is there, by its id or by its key.
abbrev pub Clashes : TaskCommand → Database → Type 0
Clashes c db = (is_none (get_task_command c.task_id db) && is_none (clash c db.commands)) ≡ false

one_cases :
    (c : TaskCommand) (e : ℕ) (db : Database)
    → Agrees db
    → ((create_rows c e db ≡ err unique_violation) × Clashes c db)
      ⊎ (New c.task_id db × (create_rows c e db ≡ ok (tt, with_rows c e db)))
one_cases c e db good = elim (Bool-cases (is_none (clash c db.commands))) [
  | inl fresh ↦ elim (rows_cases c e db (new_task c.task_id db good) fresh) [
    | inl (f, (d, h)) ↦ inl (f, rw h refl)
    | inr h ↦ inr h
  ]
  | inr old ↦ elim (Option-cases (get_task_command c.task_id db)) [
    | inl n ↦ inl (rw (n, old) refl, rw (n, old) refl)
    | inr (d, n) ↦ inl (rw n refl, rw n refl)
  ]
]

-- A transaction that commits with `Q`, or raises for a reason in `F`
abbrev pub OrFails :
    {A : Type 0} → (A → Database → Type 0) → (Error → Type 0) → Result (A × Database) → Type 0
OrFails Q F (ok (a, s)) = Q a s
OrFails Q F (err e) = F e

pub then_pure :
    {A B : Type 0} (P : A → Database → Type 0) (Q : B → Database → Type 0) (F G : Error → Type 0)
    (g : A → B) (x : Result (A × Database))
    → OrFails P F x
    → ((a : A) (s : Database) → P a s → Q (g a) s)
    → ((e : Error) → F e → G e)
    → OrFails Q G (continue x (λ rest. pure (g rest)))
then_pure P Q F G g (ok (a, s)) h f k = f a s h
then_pure P Q F G g (err e) h f k = k e h

module _ (ids : Ids) (u : ℕ) (tier : SubscriptionTier) (base : ℕ) (ttl : Option ℕ) where
  -- After some of the tasks one clashes, or a model class has no queue.
  abbrev pub Fails : Database → Error → Type 0
  Fails db x =
      ((x ≡ unique_violation)
        × ((n : ℕ) × ((t : Database) × ((index : ℕ) × ((task : BatchTaskSpec) × (Inserted u db n t
                    × Clashes (command_of ids u tier base ttl index task) t))))))
      ⊎ ((task : BatchTaskSpec) × (resolve_queue tier RequestMode.batch task.model_class ≡ err x))

  -- The row, the reservation and the event of one task of the batch
  pub record Creates (index : ℕ) (task : BatchTaskSpec) (db s : Database) : Type 0 where
    pub command : TaskCommand
    pub reservation : Reservation
    pub inserts : Inserts u command reservation db s
    pub task_id : command.task_id ≡ ids.uuid7 index
    pub tier_of : command.tier ≡ tier
    pub mode : command.mode ≡ RequestMode.batch
    pub model_class : command.model_class ≡ task.model_class
    pub x : command.x ≡ task.x
    pub y : command.y ≡ task.y
    pub callback_url : command.callback_url ≡ task.callback_url
    pub cost : command.cost ≡ task_cost_for_model base task.model_class
    pub idempotency_key : command.idempotency_key ≡ some (ids.idempotency_key index)
    pub expires_at : reservation.expires_at ≡ reservation_expires_at (ids.clock index) ttl
    pub event :
        s.outbox
        ≡ db.outbox
          ++ (record {
            aggregate_id = ids.uuid7 index;
            event_type = task_submitted;
            routing_key = compute_routing_key RequestMode.batch tier task.model_class;
          }
              ∷ [])

  -- Each task in its turn, and the ids of them all
  abbrev pub CreatesAll : (index : ℕ) → List BatchTaskSpec → List ℕ → Database → Database → Type 0
  CreatesAll index [] out db s = (out ≡ []) × Idle db s
  CreatesAll index (task ∷ tasks) out db s =
      (rest : List ℕ) × ((t : Database) × ((out ≡ ids.uuid7 index ∷ rest)
          × (Creates index task db t × CreatesAll (suc index) tasks rest t s)))

  pub CreatesAll-Inserted :
      (index : ℕ) (tasks : List BatchTaskSpec) (out : List ℕ) (db s : Database)
      → CreatesAll index tasks out db s
      → Inserted u db (total_cost_of base tasks) s
  unfolding total_cost_of
  CreatesAll-Inserted index [] out db s h = done refl h.1
  CreatesAll-Inserted index (task ∷ tasks) out db s (rest, (t, (e, (m, h)))) =
      more m.command m.reservation (total_cost_of base tasks) m.inserts (rw m.cost refl)
        (CreatesAll-Inserted (suc index) tasks rest t s h)

  later-Fails :
      (c : TaskCommand) (r : Reservation) (db t : Database) (x : Error)
      → Inserts u c r db t
      → Fails t x
      → Fails db x
  later-Fails c r db t x m (inl (e, (n, (d, (index, (task, (i, h))))))) =
      inl (e, (c.cost + n, (d, (index, (task, (more c r n m refl i, h))))))
  later-Fails c r db t x m (inr h) = inr h

  pub create_all-CreatesAll :
      (index : ℕ) (tasks : List BatchTaskSpec) (db : Database) (user : User)
      → Agrees db
      → find user_key u db.users ≡ some user
      → OrFails
          (λ out s. CreatesAll index tasks out db s)
          (Fails db)
          (create_all ids u tier base ttl index tasks db)
  unfolding create_all total_cost_of
  create_all-CreatesAll index [] db user good found = (refl, same db db refl refl refl)
  create_all-CreatesAll index (t ∷ tasks) db user good found =
      let c = command_of ids u tier base ttl index t in
      let e = reservation_expires_at (ids.clock index) ttl in
      elim (Result-cases (resolve_queue tier RequestMode.batch t.model_class)) [
        | inr (x, q) ↦ rw q (inr (t, q))
        | inl (queue, q) ↦ elim (one_cases c e db good) [
          | inl (f, h) ↦ rw q (
              rw f
                (inl (refl, (0, (db, (index, (t, (done refl (same db db refl refl refl), h))))))))
          | inr (n, f) ↦
              let db2 : Database =
                create_outbox_event (ids.uuid7 index) task_submitted
                  (compute_routing_key RequestMode.batch tier t.model_class) (with_rows c e db) in
              let m : Inserts u c (reservation_for c e) db db2 = record {
                new_command = n.no_command;
                new_reservation = n.no_reservation;
                payer = refl;
                same_task = refl;
                same_user = refl;
                same_cost = refl;
                waits = refl;
                held = refl;
                users = refl;
                commands = refl;
                reservations = refl;
              } in
              let creates : Creates index t db db2 = record {
                command = c;
                reservation = reservation_for c e;
                inserts = m;
                task_id = refl;
                tier_of = refl;
                mode = refl;
                model_class = refl;
                x = refl;
                y = refl;
                callback_url = refl;
                cost = refl;
                idempotency_key = refl;
                expires_at = refl;
                event = refl;
              } in
              let rest =
                create_all-CreatesAll (suc index) tasks db2 user
                  (Inserts-Agrees u c (reservation_for c e) db db2 user good found m) found in
              rw q (
                rw f (
                  then_pure (λ out s. CreatesAll (suc index) tasks out db2 s)
                    (λ out s. CreatesAll index (t ∷ tasks) out db s) (Fails db2) (Fails db)
                    (λ tail. ids.uuid7 index ∷ tail)
                    (create_all ids u tier base ttl (suc index) tasks db2) rest
                    (λ out s h. (out, (db2, (refl, (creates, h)))))
                    (λ x h. later-Fails c (reservation_for c e) db db2 x m h)))
        ]
      ]
