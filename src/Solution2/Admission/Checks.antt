-- ===== src/Solution2/Admission/Checks.antt =====
-- The checks of an admission and the insertion of its rows, by cases.
use metered_compute.Base.{
  ℕ, ◌≡◌, ◌⊎◌, refl, inl, inr, String, Option-cases, Bool-cases, none, some, true, false, leb,
  is_none, ◌-◌, [], ◌∷◌, ◌++◌,
}
use metered_compute.Exec.{ok, err, unique_violation}
use metered_compute.Table.{find, replace, Tx}
use metered_compute.Solution2.Database.{
  Database, TaskCommand, User, user_key, by_idempotency, get_task_command,
  count_active_reservations, get_credit_reservation, set_credits, clash,
}
use metered_compute.Solution2.Moves.{agree, Agrees}
use metered_compute.Solution2.Admission.{
  AdmissionDecision, Reason, already, rejected, checked, create_rows, reservation_for,
}

-- The user can pay for the task, which is new to them and within their limit.
pub record CanPay (user_id cost max_concurrent : ℕ) (key : String) (db : Database) : Type 0 where
  pub user : User
  pub found : find user_key user_id db.users ≡ some user
  pub fresh : by_idempotency user_id key db.commands ≡ none
  pub room : leb max_concurrent (count_active_reservations user_id db) ≡ false
  pub rich : leb cost user.credits ≡ true

-- Why an admission is refused
abbrev pub Refusal :
    (user_id cost max_concurrent : ℕ) (key : String) → Database → AdmissionDecision → Type 0
Refusal user_id cost max_concurrent key db d =
    (((d ≡ rejected Reason.error) × (find user_key user_id db.users ≡ none))
      ⊎ ((c : TaskCommand) × ((d ≡ already c.task_id)
            × (by_idempotency user_id key db.commands ≡ some c))))
    ⊎ (((d ≡ rejected Reason.concurrency)
          × (leb max_concurrent (count_active_reservations user_id db) ≡ true))
        ⊎ ((u : User) × ((d ≡ rejected Reason.insufficient)
              × ((find user_key user_id db.users ≡ some u) × (leb cost u.credits ≡ false)))))

abbrev pub paid : ℕ → User → Database → Database
paid cost u db = record db { users = replace user_key (set_credits (u.credits - cost) u) db.users }

module _ (user_id cost max_concurrent : ℕ) (key : String) (db : Database)
    (admit : Tx Database AdmissionDecision) where
  pub checked_cases :
      ((d : AdmissionDecision) × ((checked user_id cost key max_concurrent admit db ≡ ok (d, db))
          × Refusal user_id cost max_concurrent key db d))
      ⊎ ((p : CanPay user_id cost max_concurrent key db) × (checked user_id cost key max_concurrent
              admit db
            ≡ admit (paid cost p.user db)))
  unfolding checked
  checked_cases = elim (Option-cases (find user_key user_id db.users)) [
    | inl e ↦ inl (rejected Reason.error, (rw e refl, inl (inl (refl, e))))
    | inr (u, found) ↦ elim (Option-cases (by_idempotency user_id key db.commands)) [
      | inr (c, e) ↦ inl (already c.task_id, (rw (found, e) refl, inl (inr (c, (refl, e)))))
      | inl fresh ↦ elim (Bool-cases (leb max_concurrent (count_active_reservations user_id db))) [
        | inl full ↦
            inl
              (rejected Reason.concurrency, (rw (found, fresh, full) refl, inr (inl (refl, full))))
        | inr room ↦ elim (Bool-cases (leb cost u.credits)) [
          | inr poor ↦ inl (
            rejected Reason.insufficient,
            (rw (found, fresh, room) (rw (found, poor) refl), inr (inr (u, (refl, (found, poor))))),
          )
          | inl rich ↦ inr (
            record { user = u; found = found; fresh = fresh; room = room; rich = rich },
            rw (found, fresh, room) (rw (found, rich) refl),
          )
        ]
      ]
    ]
  ]

pub record New (k : ℕ) (db : Database) : Type 0 where
  pub no_command : get_task_command k db ≡ none
  pub no_reservation : get_credit_reservation k db ≡ none

pub new_task : (k : ℕ) (db : Database) → Agrees db → get_task_command k db ≡ none → New k db
new_task k db good n = elim (Option-cases (get_credit_reservation k db)) [
  | inl e ↦ record { no_command = n; no_reservation = e }
  | inr (r, e) ↦ let h : agree none (some r) db.users ≡ true = rw (n, e) at (good.rows k) in cc
]

abbrev pub with_rows : TaskCommand → ℕ → Database → Database
with_rows c e s = record s {
  commands = s.commands ++ (c ∷ []);
  reservations = s.reservations ++ (reservation_for c e ∷ []);
}

pub rows_cases :
    (c : TaskCommand) (e : ℕ) (s : Database)
    → (get_task_command c.task_id s ≡ none → New c.task_id s)
    → is_none (clash c s.commands) ≡ true
    → ((create_rows c e s ≡ err unique_violation)
        × ((d : TaskCommand) × (get_task_command c.task_id s ≡ some d)))
      ⊎ (New c.task_id s × (create_rows c e s ≡ ok (tt, with_rows c e s)))
rows_cases c e s new fresh = elim (Option-cases (get_task_command c.task_id s)) [
  | inr (d, h) ↦ inl (rw h refl, (d, h))
  | inl h ↦ let n = new h in inr (n, rw (n.no_command, fresh) (rw n.no_reservation refl))
]
