-- ===== src/Solution4/Repository.antt =====
-- The queries of solutions/4_solution/src/solution4/repository.py on the tables of the migrations.
-- A statement is atomic; the time stamps of the rows are left out.
pub mod Rows
use metered_compute.Base.{
  ℕ, ◌+◌, String, Bool, true, false, ◌&&◌, Option, none, some, List, [], ◌∷◌, ◌==◌, str_eq,
  if◌then◌else◌,
}
use metered_compute.Int.{ℤ}
use metered_compute.Exec.{Result, ok, err, Error, unique_violation, foreign_key_violation}
use metered_compute.Solution4.Gateway.{ComputeResult}
use metered_compute.Solution4.World.{
  Status, pending, same_status, Task, User, ApiKey, World, Runtime, State, Action, await,
}

-- `SELECT … WHERE`, of which the first row is fetched
unfoldable pub select {ℓ} : {A : Type ℓ} → (A → Bool) → List A → Option A
select p [] = none
select p (a ∷ rows) = if p a then some a else select p rows

-- `UPDATE … WHERE`: the number of rows that match, and the table after it
pub update_where {ℓ} : {A : Type ℓ} → (A → Bool) → (A → A) → List A → ℕ × List A
update_where p f [] = (0, [])
update_where p f (a ∷ rows) =
    let (n, rest) = update_where p f rows in if p a then (n + 1, f a ∷ rest) else (n, a ∷ rest)

abbrev pub has_id : ℕ → Task → Bool
has_id task_id t = t.task_id == task_id

abbrev pub matches : ℕ → Status → Task → Bool
matches task_id expected t = t.task_id == task_id && same_status t.status expected

abbrev pub has_user_id : ℕ → User → Bool
has_user_id user_id u = u.user_id == user_id

abbrev pub same_key : Option String → Option String → Bool
same_key (some j) (some k) = str_eq j k
same_key _ _ = false

abbrev pub has_key : ℕ → Option String → Task → Bool
has_key user_id key t = t.user_id == user_id && same_key t.idempotency_key key

abbrev pub write : Status → Option ComputeResult → Task → Task
write status none t = record t { status = status }
write status (some r) t = record t { status = status; result = some r }

-- `JOIN users ON k.user_id = u.user_id`
join_user : Option ApiKey → List User → Option User
join_user none users = none
join_user (some k) users = select (has_user_id k.user_id) users

is_some : Option Task → Bool
is_some none = false
is_some (some t) = true

-- The `INSERT` of `create_task` with the constraints of the table: the primary key, the partial
-- unique index on the user and the idempotency key, and the reference to `users`.
insert_task : Task → List User → List Task → Result Task × List Task
unfolding select is_some
insert_task t users tasks =
    if is_some (select (has_id t.task_id) tasks)
    then (err unique_violation, tasks)
    else if is_some (select (has_key t.user_id t.idempotency_key) tasks)
    then (err unique_violation, tasks)
    else elim (select (has_user_id t.user_id) users) [
      | none ↦ (err foreign_key_violation, tasks)
      | some u ↦ (ok t, t ∷ tasks)
    ]

-- The handler of the violation: the row with the idempotency key, or the exception again.
or_existing : Option String → Option Task → Result Task
or_existing none row = err unique_violation
or_existing (some key) none = err unique_violation
or_existing (some key) (some t) = ok t

on_violation : Task → Result Task × List Task → Result Task × List Task
unfolding or_existing select
on_violation t (err unique_violation, tasks) =
    (or_existing t.idempotency_key (select (has_key t.user_id t.idempotency_key) tasks), tasks)
on_violation t (r, tasks) = (r, tasks)

module _ ⦃rt : Runtime⦄ where
  unfoldable pub get_user_by_api_key : String → Action (Option User)
  unfolding await join_user select
  get_user_by_api_key api_key = await λ w.
      (ok (join_user (select (λ k. str_eq k.api_key api_key && k.is_active) w.api_keys) w.users), w)

  unfoldable pub get_user_by_id : ℕ → Action (Option User)
  unfolding await select
  get_user_by_id user_id = await λ w. (ok (select (has_user_id user_id) w.users), w)

  -- The row that is given is the one to insert; its status is the column's default.
  unfoldable pub create_task : Task → Action Task
  unfolding await insert_task on_violation
  create_task t = await λ w.
      let (r, tasks) = on_violation t (insert_task t w.users w.tasks) in
      (r, record w { tasks = tasks })

  unfoldable pub get_task : ℕ → Action (Option Task)
  unfolding await select
  get_task task_id = await λ w. (ok (select (has_id task_id) w.tasks), w)

  unfoldable pub update_task_status_if_match :
      ℕ → (status expected_status : Status) → Option ComputeResult → Action Bool
  unfolding await update_where
  update_task_status_if_match task_id status expected_status result = await λ w.
      let (n, tasks) =
        update_where (matches task_id expected_status) (write status result) w.tasks in
      (ok (n == 1), record w { tasks = tasks })

  unfoldable pub get_task_status : ℕ → Action (Option Status)
  unfolding await select
  get_task_status task_id =
      await λ w.
        (ok (elim (select (has_id task_id) w.tasks) [ none ↦ none | some t ↦ some t.status ]), w)

  unfoldable pub update_user_credits : ℕ → ℤ → Action (Unit {0})
  unfolding await update_where
  update_user_credits user_id credits = await λ w. (
    ok tt,
    record w {
      users = (update_where (has_user_id user_id) (λ u. record u { credits = credits }) w.users).1;
    },
  )
