-- ===== src/Solution2/Moves/Consistency.antt =====
-- Every move keeps the database consistent.
use metered_compute.Base.{
  ℕ, ◌-◌, ◌≡◌, refl, Bool, true, false, Option, none, some, List, ◌==◌, arith, is_none,
  if◌then◌else◌, inl, inr,
}
use metered_compute.Table.{find, replace}
use metered_compute.Table.Rows.{find-key, find-replace, find-found, find-replaced, find-appended}
use metered_compute.Solution2.Constants.{
  reserved, captured, released, TaskStatus, pending, running, completed, is_pending,
  ReservationState,
}
use metered_compute.Solution2.Database.{
  User, TaskCommand, Reservation, Database, user_key, command_key, reservation_key,
  get_task_command, get_credit_reservation, with_status, with_state, set_credits,
}
use metered_compute.Solution2.Moves.Open.{task_cases}
use metered_compute.Solution2.Moves.{
  belongs, agree, Agrees, Starts, Admits, Move, idle, start, admit, capture, refund,
}

-- An update of a user's credits keeps who exists.
pub exists_same :
    (users : List User) (u : User) (n : ℕ) (w : ℕ)
    → is_none (find user_key w (replace user_key (set_credits n u) users))
      ≡ is_none (find user_key w users)
exists_same users u n w = ground (arith, find-replace user_key w (set_credits n u) users)

pub agree_users :
    (c : Option TaskCommand) (r : Option Reservation) (users us : List User)
    → ((w : ℕ) → is_none (find user_key w us) ≡ is_none (find user_key w users))
    → agree c r us ≡ agree c r users
agree_users none none users us h = refl
agree_users none (some r) users us h = refl
agree_users (some c) none users us h = refl
agree_users (some c) (some r) users us h = rw (h r.user_id) refl

-- The rows of one task change together.
pub agree_at :
    (b : Bool) (c : TaskCommand) (r : Reservation) (C : Option TaskCommand) (R : Option Reservation)
    (users : List User)
    → agree (some c) (some r) users ≡ true
    → agree C R users ≡ true
    → agree (if b then some c else C) (if b then some r else R) users ≡ true
agree_at true c r C R users h g = h
agree_at false c r C R users h g = g

agree_ended :
    (c : TaskCommand) (r : Reservation) (users : List User) (status : TaskStatus)
    (state : ReservationState)
    → belongs status state ≡ true
    → agree (some c) (some r) users ≡ true
    → agree (some (with_status status c)) (some (with_state state r)) users ≡ true
agree_ended c r users status state h g = ground (arith, h, g)

started_state :
    (status : TaskStatus) (state : ReservationState)
    → is_pending status ≡ true
    → belongs status state ≡ true
    → belongs running state ≡ true
started_state pending reserved h g = refl
started_state pending captured h g = cc
started_state pending released h g = cc
started_state running state h g = cc
started_state completed state h g = cc
started_state TaskStatus.failed state h g = cc
started_state TaskStatus.cancelled state h g = cc
started_state TaskStatus.timeout state h g = cc
started_state TaskStatus.expired state h g = cc

agree_started :
    (c : TaskCommand) (r : Reservation) (users : List User)
    → is_pending c.status ≡ true
    → agree (some c) (some r) users ≡ true
    → agree (some (with_status running c)) (some r) users ≡ true
agree_started c r users h g = ground (arith, g, started_state c.status r.state h)

pub agree_new :
    (c : TaskCommand) (r : Reservation) (users : List User) (u : User)
    → r.user_id ≡ c.user_id
    → r.amount ≡ c.cost
    → belongs c.status r.state ≡ true
    → find user_key c.user_id users ≡ some u
    → agree (some c) (some r) users ≡ true
agree_new c r users u a b h e = rw (a, b, h, e) (ground arith)

-- An open task and its reservation become of a status and a state that belong together.
module _ (k : ℕ) (db s : Database) (good : Agrees db) (c : TaskCommand) (r : Reservation)
    (found_c : get_task_command k db ≡ some c) (found_r : get_credit_reservation k db ≡ some r)
    (same_users : (w : ℕ)
      → is_none (find user_key w s.users) ≡ is_none (find user_key w db.users)) where
  pair : agree (some c) (some r) db.users ≡ true
  pair = rw (found_c, found_r) at (good.rows k)

  ended-Agrees :
      (status : TaskStatus) (state : ReservationState)
      → belongs status state ≡ true
      → s.commands ≡ replace command_key (with_status status c) db.commands
      → s.reservations ≡ replace reservation_key (with_state state r) db.reservations
      → Agrees s
  ended-Agrees status state h a b = record {
    rows = λ j.
        let key_c = find-key command_key k db.commands c found_c in
        let key_r = find-key reservation_key k db.reservations r found_r in
        let e = find-replaced command_key k j (with_status status c) c db.commands found_c key_c in
        let f =
          find-replaced reservation_key k j (with_state state r) r db.reservations found_r key_r in
        rw (agree_users _ _ db.users s.users same_users, a, b, e, f)
          (agree_at (k == j) _ _ _ _ db.users (agree_ended c r db.users status state h pair)
            (good.rows j));
  }

  started-Agrees :
      is_pending c.status ≡ true
      → s.commands ≡ replace command_key (with_status running c) db.commands
      → s.reservations ≡ db.reservations
      → Agrees s
  started-Agrees h a b = record {
    rows = λ j.
        let key_c = find-key command_key k db.commands c found_c in
        let e = find-replaced command_key k j (with_status running c) c db.commands found_c key_c in
        let f = find-found reservation_key k j db.reservations r found_r in
        rw (agree_users _ _ db.users s.users same_users, a, b, e, f)
          (agree_at (k == j) _ _ _ _ db.users (agree_started c r db.users h pair) (good.rows j));
  }

started : (k : ℕ) (db s : Database) → Agrees db → Starts k db s → Agrees s
started k db s good m = elim (task_cases k db good) [
  | inl (inl n) ↦ cc (n, m.found)
  | inl (inr c) ↦ ground (arith, c.found, c.ended, m.found, m.waits)
  | inr o ↦
      started-Agrees k db s good m.command o.reservation m.found o.found_reservation
        (λ w. rw m.users refl) m.waits m.commands m.reservations
]

admitted :
    (c : TaskCommand) (r : Reservation) (db s : Database) → Agrees db → Admits c r db s → Agrees s
admitted c r db s good m = record {
  rows = λ j.
      let e = find-appended command_key c.task_id j db.commands c m.new_command refl in
      let f =
        find-appended reservation_key c.task_id j db.reservations r m.new_reservation m.same_task in
      rw (m.users, m.commands, m.reservations)
        (rw
          (agree_users _ _ db.users _ (exists_same db.users m.user (m.user.credits - c.cost)), e, f)
          (agree_at (c.task_id == j) c r _ _ db.users
            (agree_new c r db.users m.user m.same_user m.same_cost (rw (m.waits, m.held) refl)
              m.found)
            (good.rows j)));
}

-- Every move of a consistent database leaves it consistent.
pub Move-Agrees : (db s : Database) → Agrees db → Move db s → Agrees s
Move-Agrees db s good (idle m) = record {
  rows = λ j. rw (m.users, m.commands, m.reservations) (good.rows j);
}
Move-Agrees db s good (start k m) = started k db s good m
Move-Agrees db s good (admit c r m) = admitted c r db s good m
Move-Agrees db s good (capture k m) =
    ended-Agrees k db s good m.command m.reservation m.found_command m.found_reservation
      (λ w. rw m.users refl) completed captured refl m.commands m.reservations
Move-Agrees db s good (refund k status m) =
    ended-Agrees k db s good m.command m.reservation m.found_command m.found_reservation
      (λ w. rw m.users (exists_same db.users m.user _ w)) status released m.refunds m.commands
      m.reservations
