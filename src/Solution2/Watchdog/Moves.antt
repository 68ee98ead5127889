-- ===== src/Solution2/Watchdog/Moves.antt =====
-- The watchdog's transaction as a move.
use metered_compute.Base.{ℕ, ◌≡◌, refl, inl, inr, String, some}
use metered_compute.Table.{find, Commits}
use metered_compute.Exec.{ok, Result-cases}
use metered_compute.Solution2.Constants.{timeout, resolve_queue}
use metered_compute.Solution2.Database.{
  TaskCommand, Reservation, Database, get_task_command, get_credit_reservation,
}
use metered_compute.Solution2.Moves.{Agrees, Refunds, Succeeds, EndsOr}
use metered_compute.Solution2.Moves.Open.{task_cases, same, refunds}
use metered_compute.Solution2.Watchdog.{expire_reservation}

module _ (k : ℕ) (db : Database) (good : Agrees db) (r : Reservation)
    (found : get_credit_reservation k db ≡ some r) where
  -- From a consistent database, the transaction on a reservation, of a task whose tier and mode have a
  -- queue, raises nothing: it times an open task out and gives its user the credits back, or changes
  -- no task, reservation and user.
  pub expire_reservation-moves :
      ((c : TaskCommand)
        → get_task_command k db ≡ some c
        → (q : String) × (resolve_queue c.tier c.mode c.model_class ≡ ok q))
      → Succeeds
          (λ out s. EndsOr (Refunds k timeout db) db out.0 s)
          (expire_reservation k r.user_id r.amount db)
  unfolding expire_reservation find
  expire_reservation-moves queued = elim (task_cases k db good) [
    | inl (inl n) ↦ rw n (same db _ refl refl refl)
    | inl (inr c) ↦ rw (c.found, c.found_reservation, c.settled) (same db _ refl refl refl)
    | inr o ↦
        let (q, e) = queued o.command o.found_command in
        let same_row : r ≡ o.reservation = cc (o.found_reservation, found) in
        rw (same_row, o.found_command, o.found_reservation, o.held, o.found_user)
          (rw (o.found_command, o.open_command) (rw e (refunds timeout o refl refl refl refl)))
  ]

  -- The transaction, when it commits, for a task of any tier and mode
  pub expire_reservation-Commits :
      Commits
        (λ out s. EndsOr (Refunds k timeout db) db out.0 s)
        (expire_reservation k r.user_id r.amount db)
  unfolding expire_reservation find
  expire_reservation-Commits = elim (task_cases k db good) [
    | inl (inl n) ↦ rw n (same db _ refl refl refl)
    | inl (inr c) ↦ rw (c.found, c.found_reservation, c.settled) (same db _ refl refl refl)
    | inr o ↦
        let c = o.command in
        let same_row : r ≡ o.reservation = cc (o.found_reservation, found) in
        elim (Result-cases (resolve_queue c.tier c.mode c.model_class)) [
          | inl (q, e) ↦
              rw (same_row, o.found_command, o.found_reservation, o.held, o.found_user)
                (rw (o.found_command, o.open_command)
                  (rw e (refunds timeout o refl refl refl refl)))
          | inr (x, e) ↦
              rw (same_row, o.found_command, o.found_reservation, o.held, o.found_user)
                (rw (o.found_command, o.open_command) (rw e tt))
        ]
  ]
