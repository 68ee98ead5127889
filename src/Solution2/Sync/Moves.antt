-- ===== src/Solution2/Sync/Moves.antt =====
-- The ends of a synchronous task as moves.
use metered_compute.Base.{ℕ, refl, inl, inr, String, ◌⊎◌, ◌≡◌}
use metered_compute.Int.{ℤ}
use metered_compute.Solution2.Constants.{SubscriptionTier, ModelClass, TaskStatus, failed, timeout}
use metered_compute.Solution2.Database.{Database}
use metered_compute.Solution2.Moves.{Agrees, Captures, Refunds, Succeeds, EndsOr}
use metered_compute.Solution2.Moves.Open.{task_cases, same, captures, refunds}
use metered_compute.Solution2.Sync.{finalize_sync_success, finalize_sync_failure}

module _ (k user_id : ℕ) (tier : SubscriptionTier) (m : ModelClass) (queue : String) (db : Database)
    (good : Agrees db) where
  -- From a consistent database, the transaction for a finished synchronous run raises nothing: it
  -- completes an open task and captures its reservation, or changes no task, reservation and user.
  pub finalize_sync_success-moves :
      (result : ℤ) (runtime_ms : ℕ)
      → Succeeds
          (EndsOr (Captures k db) db)
          (finalize_sync_success k user_id tier m queue result runtime_ms db)
  unfolding finalize_sync_success
  finalize_sync_success-moves result runtime_ms = elim (task_cases k db good) [
    | inl (inl n) ↦ rw n (same db _ refl refl refl)
    | inl (inr c) ↦ rw (c.found, c.ended) (same db _ refl refl refl)
    | inr o ↦
        rw (o.found_command, o.open_command, o.found_reservation)
          (rw (o.found_reservation, o.held) (captures o refl refl refl))
  ]

  timeout_moves :
      (message : String)
      → Succeeds
          (EndsOr (Refunds k timeout db) db)
          (finalize_sync_failure k user_id tier m queue timeout message db)
  unfolding finalize_sync_failure
  timeout_moves message = elim (task_cases k db good) [
    | inl (inl n) ↦ rw n (same db _ refl refl refl)
    | inl (inr c) ↦ rw (c.found, c.ended) (same db _ refl refl refl)
    | inr o ↦
        rw (o.found_command, o.open_command, o.found_reservation)
          (rw (o.found_reservation, o.held, o.found_user) (refunds timeout o refl refl refl refl))
  ]

  failed_moves :
      (message : String)
      → Succeeds
          (EndsOr (Refunds k failed db) db)
          (finalize_sync_failure k user_id tier m queue failed message db)
  unfolding finalize_sync_failure
  failed_moves message = elim (task_cases k db good) [
    | inl (inl n) ↦ rw n (same db _ refl refl refl)
    | inl (inr c) ↦ rw (c.found, c.ended) (same db _ refl refl refl)
    | inr o ↦
        rw (o.found_command, o.open_command, o.found_reservation)
          (rw (o.found_reservation, o.held, o.found_user) (refunds failed o refl refl refl refl))
  ]

  -- From a consistent database, the transaction for a synchronous run that timed out or failed raises
  -- nothing: it ends an open task so and gives its user the credits back, or changes no task,
  -- reservation and user.
  pub finalize_sync_failure-moves :
      (status : TaskStatus)
      → (status ≡ timeout) ⊎ (status ≡ failed)
      → (message : String)
      → Succeeds
          (EndsOr (Refunds k status db) db)
          (finalize_sync_failure k user_id tier m queue status message db)
  finalize_sync_failure-moves status (inl e) message = rw e (timeout_moves message)
  finalize_sync_failure-moves status (inr e) message = rw e (failed_moves message)
