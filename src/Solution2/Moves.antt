-- ===== src/Solution2/Moves.antt =====
-- What a transaction may do to the users, the commands and the reservations: the abstract
-- specification that the transactions implement.
pub mod Account
pub mod Adjust
pub mod Consistency
pub mod Open
use metered_compute.Base.{
  ℕ, ◌+◌, ◌-◌, ◌≡◌, Bool, true, false, not, ◌&&◌, Option, none, some, List, [], ◌∷◌, ◌++◌, ◌==◌,
  leb, is_none,
}
use metered_compute.Exec.{Result, ok, err}
use metered_compute.Table.{find, replace}
use metered_compute.Solution2.Constants.{
  ReservationState, reserved, captured, released, TaskStatus, pending, running, completed, failed,
  cancelled, timeout, expired, is_open, is_pending, is_reserved,
}
use metered_compute.Solution2.Database.{
  User, TaskCommand, Reservation, Database, user_key, command_key, reservation_key,
  get_task_command, get_credit_reservation, with_status, with_state, set_credits,
}

-- The reservation of a task of each status; nothing writes EXPIRED.
abbrev pub belongs : TaskStatus → ReservationState → Bool
belongs pending reserved = true
belongs running reserved = true
belongs completed captured = true
belongs failed released = true
belongs cancelled released = true
belongs timeout released = true
belongs _ _ = false

-- A task and its reservation are of one user, who exists, and of one amount; there is none without
-- the other.
abbrev pub agree : Option TaskCommand → Option Reservation → List User → Bool
agree none none users = true
agree (some c) (some r) users =
    (r.user_id == c.user_id)
    && ((r.amount == c.cost)
        && (belongs c.status r.state && not (is_none (find user_key r.user_id users))))
agree _ _ users = false

pub record Agrees (db : Database) : Type 0 where
  pub rows : (k : ℕ) → agree (get_task_command k db) (get_credit_reservation k db) db.users ≡ true

pub record Idle (db s : Database) : Type 0 where
  pub users : s.users ≡ db.users
  pub commands : s.commands ≡ db.commands
  pub reservations : s.reservations ≡ db.reservations

-- A pending task starts.
pub record Starts (k : ℕ) (db s : Database) : Type 0 where
  pub command : TaskCommand
  pub found : get_task_command k db ≡ some command
  pub waits : is_pending command.status ≡ true
  pub users : s.users ≡ db.users
  pub commands : s.commands ≡ replace command_key (with_status running command) db.commands
  pub reservations : s.reservations ≡ db.reservations

-- A new task and its reservation, which its user pays
pub record Admits (c : TaskCommand) (r : Reservation) (db s : Database) : Type 0 where
  pub user : User
  pub found : find user_key c.user_id db.users ≡ some user
  pub new_command : get_task_command c.task_id db ≡ none
  pub new_reservation : get_credit_reservation c.task_id db ≡ none
  pub affordable : leb c.cost user.credits ≡ true
  pub same_task : r.task_id ≡ c.task_id
  pub same_user : r.user_id ≡ c.user_id
  pub same_cost : r.amount ≡ c.cost
  pub waits : c.status ≡ pending
  pub held : r.state ≡ reserved
  pub users : s.users ≡ replace user_key (set_credits (user.credits - c.cost) user) db.users
  pub commands : s.commands ≡ db.commands ++ (c ∷ [])
  pub reservations : s.reservations ≡ db.reservations ++ (r ∷ [])

-- An open task and its reservation end together: with the user's row as it is if the credits are
-- captured, and with the credits back if they are released.
pub record Captures (k : ℕ) (db s : Database) : Type 0 where
  pub command : TaskCommand
  pub reservation : Reservation
  pub found_command : get_task_command k db ≡ some command
  pub found_reservation : get_credit_reservation k db ≡ some reservation
  pub open_command : is_open command.status ≡ true
  pub held : is_reserved reservation.state ≡ true
  pub users : s.users ≡ db.users
  pub commands : s.commands ≡ replace command_key (with_status completed command) db.commands
  pub reservations :
      s.reservations ≡ replace reservation_key (with_state captured reservation) db.reservations

pub record Refunds (k : ℕ) (status : TaskStatus) (db s : Database) : Type 0 where
  pub command : TaskCommand
  pub reservation : Reservation
  pub user : User
  pub found_command : get_task_command k db ≡ some command
  pub found_reservation : get_credit_reservation k db ≡ some reservation
  pub found_user : find user_key reservation.user_id db.users ≡ some user
  pub open_command : is_open command.status ≡ true
  pub held : is_reserved reservation.state ≡ true
  pub refunds : belongs status released ≡ true
  pub users :
      s.users ≡ replace user_key (set_credits (user.credits + reservation.amount) user) db.users
  pub commands : s.commands ≡ replace command_key (with_status status command) db.commands
  pub reservations :
      s.reservations ≡ replace reservation_key (with_state released reservation) db.reservations

pub data Move (db s : Database) : Type 0 where
  idle : Idle db s → Move db s
  start : (k : ℕ) → Starts k db s → Move db s
  admit : (c : TaskCommand) (r : Reservation) → Admits c r db s → Move db s
  capture : (k : ℕ) → Captures k db s → Move db s
  refund : (k : ℕ) (status : TaskStatus) → Refunds k status db s → Move db s

-- A transaction that commits, and so raises nothing
abbrev pub Succeeds : {S A : Type 0} → (A → S → Type 0) → Result (A × S) → Type 0
Succeeds Q (ok (a, s)) = Q a s
Succeeds Q (err e) = ⊥

-- A transaction that ends a task, or changes nothing
abbrev pub EndsOr : (Database → Type 0) → Database → Bool → Database → Type 0
EndsOr Q db true s = Q s
EndsOr Q db false s = Idle db s
