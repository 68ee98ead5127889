-- ===== src/Solution4/Poll/Owner.antt =====
-- Who gets a task from a poll.
use metered_compute.Base.{ℕ, ◌≡◌, ◌∙◌, Option, none, some, arith, ◌==◌, if◌then◌else◌}
use metered_compute.Exec.{ok, err, ◌>>=◌}
use metered_compute.Solution4.Gateway.{ComputeResult}
use metered_compute.Solution4.World.{Task, Payload, completed, Runtime, State, disturb}
use metered_compute.Solution4.Repository.{get_task}
use metered_compute.Solution4.Cache.Polling.{lookup-hset_task}
use metered_compute.Solution4.Cache.{
  over_payload, lookup, cache_task, get_cached_task, normalize_task_payload,
}
use metered_compute.Solution4.Workflow.{completed_payload}
use metered_compute.Solution4.Auth.{AuthUser}
use metered_compute.Solution4.Cancel.{not_yours}
use metered_compute.Solution4.Poll.{owned_by, poll_row, poll_cached, poll_for}

module _ ⦃rt : Runtime⦄ (user : AuthUser) (task_id : ℕ) where
  owner_row :
      (row : Option Task) (w : State) (p : Payload)
      → (poll_row user task_id row w).0 ≡ ok p
      → p.user_id ≡ some user.user_id
  unfolding poll_row ◌>>=◌ cache_task normalize_task_payload
  owner_row none w p h = cc
  owner_row (some t) w p h = ground arith

  owner_cached :
      (cached : Option Payload) (w : State) (p : Payload)
      → (poll_cached user task_id cached w).0 ≡ ok p
      → p.user_id ≡ some user.user_id
  unfolding poll_cached ◌>>=◌ get_task
  owner_cached (some q) w p h = ground arith
  owner_cached none w p h = owner_row _ _ p h

  -- A poll answers with a task of the caller or not at all, whatever other requests do meanwhile.
  pub poll_for-owner :
      (w : State) (p : Payload) → (poll_for user task_id w).0 ≡ ok p → p.user_id ≡ some user.user_id
  unfolding poll_for ◌>>=◌ get_cached_task
  poll_for-owner w p h = owner_cached _ _ p h

module _ ⦃rt : Runtime⦄ (user : AuthUser) (task_id : ℕ) (x : ComputeResult)
    (kept : (n : ℕ) (w : State) → (rt.others n w).task_cache ≡ w.task_cache) where
  -- What the completed task's entry becomes, and what a poll then finds.
  stored :
      (w : State)
      → lookup
          (λ j. j == task_id)
          (disturb (cache_task task_id (completed_payload task_id x) w).1).task_cache
        ≡ some
            (over_payload (completed_payload task_id x) (lookup (λ j. j == task_id) w.task_cache))
  unfolding cache_task disturb
  stored w =
      rw (kept _ _)
        (rw (kept w.clock w) (lookup-hset_task task_id (completed_payload task_id x) w.task_cache))

  polls :
      (w : State) (q : Payload)
      → lookup (λ j. j == task_id) (disturb w).task_cache ≡ some q
      → (poll_for user task_id w).0
        ≡ (if owned_by user.user_id q.user_id then ok q else err not_yours)
  unfolding poll_for poll_cached ◌>>=◌ get_cached_task
  polls w q h = rw h (ground arith)

  -- When the cache holds no entry of a task at the time the workflow caches its completion, that
  -- entry names no owner: every later poll that finds it is refused with a 403, the owner's too.
  pub poll_for-evicted :
      (w : State)
      → lookup (λ j. j == task_id) w.task_cache ≡ none
      → (poll_for user task_id (cache_task task_id (completed_payload task_id x) w).1).0
        ≡ err not_yours
  unfolding over_payload completed_payload
  poll_for-evicted w h = polls _ _ (stored w) ∙ ground (arith, h)

  -- When the cache holds the owner's entry of a task at that time, a poll by the owner gets the
  -- completed status and the computed result.
  pub poll_for-completed :
      (w : State) (old : Payload)
      → lookup (λ j. j == task_id) w.task_cache ≡ some old
      → old.user_id ≡ some user.user_id
      → (poll_for user task_id (cache_task task_id (completed_payload task_id x) w).1).0
        ≡ ok (record old { task_id = some task_id; status = some completed; result = some x })
  unfolding over_payload completed_payload
  poll_for-completed w old h o = polls _ _ (stored w) ∙ ground (arith, h, o)
