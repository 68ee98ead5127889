-- ===== src/Solution2/Moves/Open.antt =====
-- In a consistent database an open task has its reservation, held, and its user.
use metered_compute.Base.{
  ℕ, ◌≡◌, refl, true, false, none, some, List, Option-cases, Bool-cases, inl, inr, arith, ◌⊎◌, ◌+◌,
}
use metered_compute.Table.{find, replace}
use metered_compute.Solution2.Constants.{
  ReservationState, reserved, captured, released, TaskStatus, pending, running, completed, is_open,
  is_reserved,
}
use metered_compute.Solution2.Database.{
  User, TaskCommand, Reservation, Database, user_key, get_task_command, get_credit_reservation,
  command_key, reservation_key, with_status, with_state, set_credits,
}
use metered_compute.Solution2.Moves.{belongs, agree, Agrees, Idle, Captures, Refunds}

pub record Open (k : ℕ) (db : Database) : Type 0 where
  pub command : TaskCommand
  pub reservation : Reservation
  pub user : User
  pub found_command : get_task_command k db ≡ some command
  pub open_command : is_open command.status ≡ true
  pub found_reservation : get_credit_reservation k db ≡ some reservation
  pub found_user : find user_key reservation.user_id db.users ≡ some user
  pub held : is_reserved reservation.state ≡ true

-- An open task's reservation is held, and a task with a held reservation is open.
pub open_iff_held :
    (status : TaskStatus) (state : ReservationState)
    → belongs status state ≡ true
    → is_open status ≡ is_reserved state
open_iff_held pending reserved h = refl
open_iff_held running reserved h = refl
open_iff_held TaskStatus.completed captured h = refl
open_iff_held TaskStatus.failed released h = refl
open_iff_held TaskStatus.cancelled released h = refl
open_iff_held TaskStatus.timeout released h = refl
open_iff_held pending captured h = cc
open_iff_held pending released h = cc
open_iff_held running captured h = cc
open_iff_held running released h = cc
open_iff_held TaskStatus.completed reserved h = cc
open_iff_held TaskStatus.completed released h = cc
open_iff_held TaskStatus.failed reserved h = cc
open_iff_held TaskStatus.failed captured h = cc
open_iff_held TaskStatus.cancelled reserved h = cc
open_iff_held TaskStatus.cancelled captured h = cc
open_iff_held TaskStatus.timeout reserved h = cc
open_iff_held TaskStatus.timeout captured h = cc
open_iff_held TaskStatus.expired state h = cc

user_of :
    (users : List User) (c : TaskCommand) (r : Reservation)
    → agree (some c) (some r) users ≡ true
    → (u : User) × (find user_key r.user_id users ≡ some u)
user_of users c r h = elim (Option-cases (find user_key r.user_id users)) [
  | inl e ↦ ground (arith, e, h)
  | inr (u, e) ↦ (u, e)
]

state_of :
    (users : List User) (c : TaskCommand) (r : Reservation)
    → agree (some c) (some r) users ≡ true
    → belongs c.status r.state ≡ true
state_of users c r h = ground (arith, h)

pub record Shut (k : ℕ) (db : Database) : Type 0 where
  pub command : TaskCommand
  pub reservation : Reservation
  pub found : get_task_command k db ≡ some command
  pub ended : is_open command.status ≡ false
  pub found_reservation : get_credit_reservation k db ≡ some reservation
  pub settled : is_reserved reservation.state ≡ false

by_status :
    (k : ℕ) (db : Database) (c : TaskCommand) (r : Reservation)
    → get_task_command k db ≡ some c
    → get_credit_reservation k db ≡ some r
    → agree (some c) (some r) db.users ≡ true
    → Shut k db ⊎ Open k db
by_status k db c r found_c found_r h =
    let (u, found_u) = user_of db.users c r h in
    let e = open_iff_held c.status r.state (state_of db.users c r h) in
    elim (Bool-cases (is_open c.status)) [
      | inl op ↦ inr (record {
        command = c;
        reservation = r;
        user = u;
        found_command = found_c;
        open_command = op;
        found_reservation = found_r;
        found_user = found_u;
        held = cc e;
      })
      | inr ne ↦ inl (record {
        command = c;
        reservation = r;
        found = found_c;
        ended = ne;
        found_reservation = found_r;
        settled = cc e;
      })
    ]

-- A task is missing with its reservation, or has ended with it, or is open with it held.
pub task_cases :
    (k : ℕ) (db : Database) → Agrees db → ((get_task_command k db ≡ none) ⊎ Shut k db) ⊎ Open k db
task_cases k db good = elim (Option-cases (get_task_command k db)) [
  | inl e ↦ inl (inl e)
  | inr (c, e) ↦ elim (Option-cases (get_credit_reservation k db)) [
    | inl n ↦ let h : agree (some c) none db.users ≡ true = rw (e, n) at (good.rows k) in cc
    | inr (r, found) ↦ elim (by_status k db c r e found (rw (e, found) at (good.rows k))) [
      | inl h ↦ inl (inr h)
      | inr h ↦ inr h
    ]
  ]
]

pub same :
    (db s : Database)
    → s.users ≡ db.users
    → s.commands ≡ db.commands
    → s.reservations ≡ db.reservations
    → Idle db s
same db s a b c = record { users = a; commands = b; reservations = c }

-- The move of an open task, given what became of the tables
abbrev pub captures :
    {k : ℕ} {db s : Database} (o : Open k db)
    → s.users ≡ db.users
    → s.commands ≡ replace command_key (with_status completed o.command) db.commands
    → s.reservations ≡ replace reservation_key (with_state captured o.reservation) db.reservations
    → Captures k db s
captures o a b c = record {
  command = o.command;
  reservation = o.reservation;
  found_command = o.found_command;
  found_reservation = o.found_reservation;
  open_command = o.open_command;
  held = o.held;
  users = a;
  commands = b;
  reservations = c;
}

abbrev pub refunds :
    {k : ℕ} {db s : Database} (status : TaskStatus) (o : Open k db)
    → belongs status released ≡ true
    → s.users
      ≡ replace user_key (set_credits (o.user.credits + o.reservation.amount) o.user) db.users
    → s.commands ≡ replace command_key (with_status status o.command) db.commands
    → s.reservations ≡ replace reservation_key (with_state released o.reservation) db.reservations
    → Refunds k status db s
refunds status o h a b c = record {
  command = o.command;
  reservation = o.reservation;
  user = o.user;
  found_command = o.found_command;
  found_reservation = o.found_reservation;
  found_user = o.found_user;
  open_command = o.open_command;
  held = o.held;
  refunds = h;
  users = a;
  commands = b;
  reservations = c;
}
