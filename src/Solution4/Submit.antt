-- ===== src/Solution4/Submit.antt =====
-- Submission: `submit_task` and `_handle_restate_handoff_failure` of
-- solutions/4_solution/src/solution4/app.py. The hand-over raises no `HTTPException`, so of its two
-- handlers only the second is reached.
pub mod Credits
use metered_compute.Base.{
  ℕ, String, Bool, true, false, not, Option, none, some, ◌==◌, leb, if◌then◌else◌,
}
use metered_compute.Int.{ℤ}
use metered_compute.Exec.{
  Exec, Error, http_exception, ok, pure, raise, require, ◌>>=◌, ◌>>◌, try_except,
}
use metered_compute.Solution4.World.{
  Status, pending, failed, Task, task_submitted, World, Runtime, Action, await,
}
use metered_compute.Solution4.Repository.{create_task, get_task_status, update_task_status_if_match}
use metered_compute.Solution4.Cache.{cache_task, invalidate_task, normalize_task_payload}
use metered_compute.Solution4.Billing.{
  inc, uuid7, ensure_user_account, reserve_credits, release_credits,
}
use metered_compute.Solution4.Auth.{AuthUser, authenticate}
use metered_compute.Solution4.Registration.{ensure_restate_registration}

pub record SubmitRequest : Type 0 where
  pub x : ℤ
  pub y : ℤ
  pub idempotency_key : Option String

-- The status text of a response: a task's status, or "UNKNOWN".
pub data TaskStatus : Type 0 where
  known : Status → TaskStatus
  unknown : TaskStatus

pub record SubmitResponse : Type 0 where
  pub status_code : ℕ
  pub task_id : ℕ
  pub status : TaskStatus

-- `status or "UNKNOWN"`
abbrev pub or_unknown : Option Status → TaskStatus
or_unknown none = unknown
or_unknown (some s) = known s

-- The row that is inserted.
abbrev pub new_task : (task_id transfer_id cost : ℕ) → AuthUser → SubmitRequest → Task
new_task task_id transfer_id cost user body = record {
  task_id = task_id;
  user_id = user.user_id;
  status = pending;
  x = body.x;
  y = body.y;
  result = none;
  cost = cost;
  tb_transfer_id = transfer_id;
  idempotency_key = body.idempotency_key;
}

-- The hand-over fails where the request raises or its status is 400 or more.
abbrev pub handed_over : Option ℕ → Bool
handed_over none = false
handed_over (some status) = not (leb 400 status)

abbrev pub unreleased : Error
unreleased =
    http_exception 503 "Execution orchestration unavailable; credits could not be released."

abbrev pub released_error : Error
released_error =
    http_exception 503 "Execution orchestration unavailable. Credits have been released."

module _ ⦃rt : Runtime⦄ where
  -- `_handle_restate_handoff_failure`
  pub handle_restate_handoff_failure : (task_id transfer_id : ℕ) → Action (Option TaskStatus)
  handle_restate_handoff_failure task_id transfer_id = do
    transitioned ← update_task_status_if_match task_id failed pending none
    if not transitioned
        then (do status ← get_task_status task_id; pure (some (or_unknown status)))
        else (do
          released ← release_credits transfer_id
          if released
              then (do invalidate_task task_id; pure none)
              else (do update_task_status_if_match task_id pending failed none; raise unreleased))

  -- `client.post` to Restate: the status, absent where the request raises
  pub post_to_restate : Action (Option ℕ)
  unfolding await
  post_to_restate = await λ w. (ok (rt.ingress w.clock), w)

  pub fallback_reply : ℕ → Option TaskStatus → Action SubmitResponse
  fallback_reply task_id none = raise released_error
  fallback_reply task_id (some s) =
      pure (record { status_code = 201; task_id = task_id; status = s })

  -- From the caching of the new task to the end.
  pub hand_over : Task → Action SubmitResponse
  unfolding fallback_reply
  hand_over t = do
    cache_task t.task_id (normalize_task_payload t)
    response ← post_to_restate
    if handed_over response
        then pure (record { status_code = 201; task_id = t.task_id; status = known pending })
        else (do
          fallback ← handle_restate_handoff_failure t.task_id t.tb_transfer_id
          fallback_reply t.task_id fallback)

  -- What follows the insertion: a row with another id is the replay of an idempotency key.
  unfoldable pub created : (task_id transfer_id : ℕ) → Task → Action SubmitResponse
  created task_id transfer_id t = if t.task_id == task_id then hand_over t else (do
    release_credits transfer_id
    pure (record { status_code = 200; task_id = t.task_id; status = known t.status }))

  -- `except Exception` of the insertion
  pub creation_failed : ℕ → Error → Action SubmitResponse
  creation_failed transfer_id e = do
    release_credits transfer_id
    raise (http_exception 500 "Task creation failed")

  -- From the reservation of the credits.
  unfoldable pub reserve_and_create :
      AuthUser → SubmitRequest → (task_id transfer_id : ℕ) → Action SubmitResponse
  reserve_and_create user body task_id transfer_id = do
    let cost = rt.settings.default_task_cost
    ensure_user_account user.user_id
    reserved ← reserve_credits user.user_id transfer_id cost
    require reserved (http_exception 402 "Insufficient credits")
    inc task_submitted
    try_except (create_task (new_task task_id transfer_id cost user body))
        (created task_id transfer_id) (creation_failed transfer_id)

  -- `submit_task`
  unfoldable pub submit_task : String → SubmitRequest → Action SubmitResponse
  submit_task auth body = do
    user ← authenticate auth
    ready ← ensure_restate_registration
    require ready (http_exception 503 "Execution control plane is not ready")
    task_id ← uuid7
    transfer_id ← uuid7
    reserve_and_create user body task_id transfer_id
