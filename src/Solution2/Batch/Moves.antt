-- ===== src/Solution2/Batch/Moves.antt =====
-- A batch pays for all its tasks at once and then inserts them, or changes nothing.
use metered_compute.Base.{
  ℕ, ◌+◌, ◌-◌, ◌≡◌, refl, inl, inr, true, none, some, [], ◌∷◌, ◌++◌, ◌==◌, arith, leb,
  if◌then◌else◌, Bool-cases, ◌∙◌,
}
use metered_compute.Table.{find, total}
use metered_compute.Table.Rows.{find-key, find-replaced, find-appended, total-append}
use metered_compute.Solution2.Constants.{pending, reserved, is_reserved}
use metered_compute.Solution2.Database.{
  User, TaskCommand, Reservation, Database, user_key, command_key, reservation_key,
  get_task_command, get_credit_reservation, set_credits,
}
use metered_compute.Solution2.Moves.{Agrees, Idle}
use metered_compute.Solution2.Moves.Consistency.{agree_at, agree_new, agree_users, exists_same}
use metered_compute.Solution2.Moves.Account.{
  account, weight, is_captured, credits_after, Step, hold, stay,
}
use metered_compute.Solution2.Admission.Checks.{paid}

-- A task that is paid for is inserted with its reservation.
pub record Inserts (u : ℕ) (c : TaskCommand) (r : Reservation) (db s : Database) : Type 0 where
  pub new_command : get_task_command c.task_id db ≡ none
  pub new_reservation : get_credit_reservation c.task_id db ≡ none
  pub payer : c.user_id ≡ u
  pub same_task : r.task_id ≡ c.task_id
  pub same_user : r.user_id ≡ c.user_id
  pub same_cost : r.amount ≡ c.cost
  pub waits : c.status ≡ pending
  pub held : r.state ≡ reserved
  pub users : s.users ≡ db.users
  pub commands : s.commands ≡ db.commands ++ (c ∷ [])
  pub reservations : s.reservations ≡ db.reservations ++ (r ∷ [])

-- Tasks of the user, of this cost together
pub data Inserted (u : ℕ) : Database → ℕ → Database → Type 0 where
  done : {db s : Database} {n : ℕ} → n ≡ 0 → Idle db s → Inserted u db n s
  more :
      {db t s : Database} {n : ℕ} (c : TaskCommand) (r : Reservation) (k : ℕ)
      → Inserts u c r db t
      → n ≡ c.cost + k
      → Inserted u t k s
      → Inserted u db n s

pub record Batched (u n : ℕ) (db s : Database) : Type 0 where
  pub user : User
  pub found : find user_key u db.users ≡ some user
  pub affordable : leb n user.credits ≡ true
  pub inserted : Inserted u (paid n user db) n s

pub Inserts-Agrees :
    (u : ℕ) (c : TaskCommand) (r : Reservation) (db s : Database) (user : User)
    → Agrees db
    → find user_key u db.users ≡ some user
    → Inserts u c r db s
    → Agrees s
Inserts-Agrees u c r db s user good found m = record {
  rows = λ j.
      let e = find-appended command_key c.task_id j db.commands c m.new_command refl in
      let f =
        find-appended reservation_key c.task_id j db.reservations r m.new_reservation m.same_task in
      let payer : find user_key c.user_id db.users ≡ some user = rw m.payer found in
      rw (m.users, m.commands, m.reservations)
        (rw (e, f)
          (agree_at (c.task_id == j) c r _ _ db.users
            (agree_new c r db.users user m.same_user m.same_cost (rw (m.waits, m.held) refl) payer)
            (good.rows j)));
}

Inserted-Agrees :
    (u n : ℕ) (db s : Database) (user : User)
    → Agrees db
    → find user_key u db.users ≡ some user
    → Inserted u db n s
    → Agrees s
Inserted-Agrees u n db s user good found (done e m) = record {
  rows = λ j. rw (m.users, m.commands, m.reservations) (good.rows j);
}
Inserted-Agrees u n db s user good found (more {t = t} c r k m e rest) =
    Inserted-Agrees u k t s user (Inserts-Agrees u c r db t user good found m) (rw m.users found)
      rest

pub paid-Agrees : (n : ℕ) (user : User) (db : Database) → Agrees db → Agrees (paid n user db)
paid-Agrees n user db good = record {
  rows = λ j.
      rw (agree_users _ _ db.users _ (exists_same db.users user (user.credits - n))) (good.rows j);
}

pub paid_found :
    (u n : ℕ) (user : User) (db : Database)
    → find user_key u db.users ≡ some user
    → find user_key u (paid n user db).users ≡ some (set_credits (user.credits - n) user)
paid_found u n user db found =
    let after = set_credits (user.credits - n) user in
    let key = find-key user_key u db.users user found in
    ground (arith, find-replaced user_key u u after user db.users found key)

-- A batch leaves a consistent database consistent.
pub Batched-Agrees : (u n : ℕ) (db s : Database) → Agrees db → Batched u n db s → Agrees s
Batched-Agrees u n db s good b =
    Inserted-Agrees u n (paid n b.user db) s (set_credits (b.user.credits - n) b.user)
      (paid-Agrees n b.user db good) (paid_found u n b.user db b.found) b.inserted

inserted_users : (u n : ℕ) (db s : Database) → Inserted u db n s → s.users ≡ db.users
inserted_users u n db s (done e m) = m.users
inserted_users u n db s (more {t = t} c r k m e rest) = inserted_users u k t s rest ∙ m.users

module _ (w : ℕ) where
  one_held :
      (u : ℕ) (c : TaskCommand) (r : Reservation) (db s : Database)
      → Inserts u c r db s
      → total (weight is_reserved w) s.reservations
        ≡ total (weight is_reserved w) db.reservations + (if u == w then c.cost else 0)
  one_held u c r db s m = rw m.reservations (
      ground (
        arith,
        total-append (weight is_reserved w) db.reservations r,
        m.same_user,
        m.payer,
        m.same_cost,
        m.held,
      ))

  one_spent :
      (u : ℕ) (c : TaskCommand) (r : Reservation) (db s : Database)
      → Inserts u c r db s
      → total (weight is_captured w) s.reservations ≡ total (weight is_captured w) db.reservations
  one_spent u c r db s m =
      rw m.reservations
        (ground (arith, total-append (weight is_captured w) db.reservations r, m.held))

  all_held :
      (u n : ℕ) (db s : Database)
      → Inserted u db n s
      → total (weight is_reserved w) s.reservations
        ≡ total (weight is_reserved w) db.reservations + (if u == w then n else 0)
  all_held u n db s (done e m) = rw m.reservations (ground (arith, e))
  all_held u n db s (more {t = t} c r k m e rest) =
      ground (arith, all_held u k t s rest, one_held u c r db t m, e)

  all_spent :
      (u n : ℕ) (db s : Database)
      → Inserted u db n s
      → total (weight is_captured w) s.reservations ≡ total (weight is_captured w) db.reservations
  all_spent u n db s (done e m) = rw m.reservations refl
  all_spent u n db s (more {t = t} c r k m e rest) = all_spent u k t s rest ∙ one_spent u c r db t m

  -- A batch is a step of the account of each user.
  pub Batched-Step :
      (u n : ℕ) (db s : Database) → Batched u n db s → Step (account w db) (account w s)
  unfolding account
  Batched-Step u n db s b =
      let e = credits_after db.users b.user u (b.user.credits - n) w b.found in
      let i = inserted_users u n (paid n b.user db) s b.inserted in
      let h = all_held u n (paid n b.user db) s b.inserted in
      let g = all_spent u n (paid n b.user db) s b.inserted in
      elim (Bool-cases (u == w)) [
        | inl mine ↦
            rw i
              (hold n (ground (arith, mine, e, b.found, b.affordable)) (ground (arith, h, mine)) g)
        | inr other ↦
            let h' : total (weight is_reserved w) s.reservations
                ≡ total (weight is_reserved w) db.reservations =
              ground (arith, h, other) in
            rw i (stay (rw (e, other, h', g) refl))
      ]
