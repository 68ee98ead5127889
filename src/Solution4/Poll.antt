-- ===== src/Solution4/Poll.antt =====
-- Polling: `poll_task` of solutions/4_solution/src/solution4/app.py.
pub mod Owner
use metered_compute.Base.{ℕ, String, Bool, true, false, Option, none, some, ◌==◌, if◌then◌else◌}
use metered_compute.Exec.{Exec, Error, http_exception, ok, pure, raise, ◌>>=◌, ◌>>◌}
use metered_compute.Solution4.World.{Task, Payload, Runtime, Action}
use metered_compute.Solution4.Repository.{get_task}
use metered_compute.Solution4.Cache.{cache_task, get_cached_task, normalize_task_payload}
use metered_compute.Solution4.Auth.{AuthUser, authenticate}
use metered_compute.Solution4.Cancel.{not_found, not_yours}

-- `cached.get("user_id") != user["user_id"]`, the other way round
abbrev pub owned_by : ℕ → Option ℕ → Bool
owned_by user_id none = false
owned_by user_id (some owner) = owner == user_id

module _ ⦃rt : Runtime⦄ where
  poll_row : AuthUser → ℕ → Option Task → Action Payload
  poll_row user task_id none = raise not_found
  poll_row user task_id (some t) =
      if t.user_id == user.user_id
      then (do let payload = normalize_task_payload t; cache_task task_id payload; pure payload)
      else raise not_yours

  poll_cached : AuthUser → ℕ → Option Payload → Action Payload
  unfolding poll_row
  poll_cached user task_id (some p) =
      if owned_by user.user_id p.user_id then pure p else raise not_yours
  poll_cached user task_id none = do row ← get_task task_id; poll_row user task_id row

  -- What follows the authentication.
  unfoldable pub poll_for : AuthUser → ℕ → Action Payload
  unfolding poll_cached
  poll_for user task_id = do cached ← get_cached_task task_id; poll_cached user task_id cached

  unfoldable pub poll_task : String → ℕ → Action Payload
  poll_task auth task_id = do user ← authenticate auth; poll_for user task_id
