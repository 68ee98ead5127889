-- ===== src/Solution2/Cancel/Answers.antt =====
-- The answer of a cancellation, when the cache is written and when it is not.
use metered_compute.Base.{
  ℕ, ◌≡◌, ◌⊎◌, refl, inl, inr, true, false, Bool, not, ◌&&◌, ◌==◌, arith, if◌then◌else◌,
}
use metered_compute.Exec.{Result, ok, err, http_exception, ◌>>=◌, pure, raise, try_except}
use metered_compute.Solution2.Constants.{cancelled}
use metered_compute.Solution2.Database.{Database}
use metered_compute.Solution2.Cache.{State}
use metered_compute.Solution2.Moves.{Agrees, Refunds}
use metered_compute.Solution2.Moves.Open.{Open, Shut}
use metered_compute.Solution2.Cancel.{
  CancelResult, apply_cancel_transaction, AuthUser, CancelTaskResponse, cancel_task, default_queue,
  by_status, for_command,
}
use metered_compute.Solution2.Cancel.Moves.{
  Cancels, open_not_cancelled, apply_cancel_transaction-moves,
}

open_not_shut : (k : ℕ) (db : Database) → Open k db → Shut k db → ⊥
open_not_shut k db o c = ground (arith, o.found_command, o.open_command, c.found, c.ended)

-- What the cancellation of an open task gives
abbrev Refunded : ℕ → Database → Result (CancelResult × Database) → Type 0
Refunded k db x =
    (r : CancelResult) × ((s : Database) × ((x ≡ ok (r, s))
        × ((m : Refunds k cancelled db s) × (r.refunded_credits ≡ m.reservation.amount))))

open-Refunded :
    (k : ℕ) (db : Database) (x : Result (CancelResult × Database))
    → Open k db
    → Cancels k db x
    → Refunded k db x
open-Refunded k db (ok (r, s)) o (inl h) = (r, (s, (refl, h)))
open-Refunded k db (ok (r, s)) o (inr (i, (e, (c, f)))) = absurd (open_not_shut k db o c)
open-Refunded k db (err x) o (e, inl n) = cc (n, o.found_command)
open-Refunded k db (err x) o (e, inr c) = absurd (open_not_shut k db o c)

-- The task is cancelled and refunded, and the answer says so if the cache was written.
abbrev pub Answered :
    (redis_up : Bool) (k : ℕ) → Database → Result CancelTaskResponse × State → Type 0
Answered redis_up k db (answer, s) =
    (m : Refunds k cancelled db s.db) × (answer ≡ (
      if redis_up
      then ok (record { task_id = k; credits_refunded = m.reservation.amount })
      else err (http_exception 503 "Service temporarily unavailable")))

module _ (user : AuthUser) (k : ℕ) (s : State) (good : Agrees s.db) (o : Open k s.db)
    (allowed : (user.is_admin ≡ true) ⊎ (o.command.user_id ≡ user.user_id)) where
  passes : (not user.is_admin && not (o.command.user_id == user.user_id)) ≡ false
  passes = ground (arith, allowed)

  refunded : Refunded k s.db (apply_cancel_transaction k (default_queue o.command) s.db)
  refunded =
      open-Refunded k s.db (apply_cancel_transaction k (default_queue o.command) s.db) o
        (apply_cancel_transaction-moves k (default_queue o.command) s.db good)

  -- The owner of an open task, or an admin, cancels it: the task is cancelled and its user gets the
  -- credits back whether or not the cache can be written, and the answer says how many only if the
  -- cache was written; else the answer is 503.
  pub cancel_task-open :
      (redis_up : Bool) → Answered redis_up k s.db (cancel_task redis_up user k s)
  unfolding cancel_task for_command by_status ◌>>=◌ try_except pure raise
  cancel_task-open true =
      let (r, (t, (e, (m, f)))) = refunded in
      rw (o.found_command, passes, open_not_cancelled _ o.open_command, o.open_command)
        (rw e (m, rw f refl))
  cancel_task-open false =
      let (r, (t, (e, (m, f)))) = refunded in
      rw (o.found_command, passes, open_not_cancelled _ o.open_command, o.open_command)
        (rw e (m, refl))
