-- ===== src/Solution2/Moves/Account.antt =====
-- The abstract account of a user: the credits that are available, held by reservations, and spent.
-- Every move is a step of the account of each user.
use metered_compute.Base.{
  ℕ, ◌+◌, ◌-◌, ◌≡◌, refl, Bool, true, false, ◌&&◌, Option, none, some, List, [], ◌∷◌, ◌++◌, ◌==◌,
  arith, if◌then◌else◌, inl, inr, Bool-cases, ap, ◌∙◌, sym,
}
use metered_compute.Table.{find, replace, total}
use metered_compute.Table.Rows.{find-key, find-replaced, total-replace, total-append}
use metered_compute.Solution2.Constants.{
  TaskStatus, ReservationState, reserved, captured, released, is_reserved,
}
use metered_compute.Solution2.Database.{
  User, TaskCommand, Reservation, Database, user_key, reservation_key, get_credit_reservation,
  with_state, set_credits,
}
use metered_compute.Solution2.Moves.{
  Idle, Starts, Admits, Captures, Refunds, Move, idle, start, admit, capture, refund,
}

pub record Account : Type 0 where
  pub available : ℕ
  pub held : ℕ
  pub spent : ℕ

abbrev pub credits_of : Option User → ℕ
credits_of none = 0
credits_of (some u) = u.credits

abbrev pub is_captured : ReservationState → Bool
is_captured captured = true
is_captured _ = false

-- `SUM(amount) … WHERE user_id = w AND state = …`
abbrev pub weight : (ReservationState → Bool) → (w : ℕ) → Reservation → ℕ
weight p w r = if r.user_id == w && p r.state then r.amount else 0

unfoldable pub account : (user_id : ℕ) → Database → Account
account w db = record {
  available = credits_of (find user_key w db.users);
  held = total (weight is_reserved w) db.reservations;
  spent = total (weight is_captured w) db.reservations;
}

-- Credits are held for a task, and then spent on it or given back; nothing else changes an account.
pub data Step (a b : Account) : Type 0 where
  stay : a ≡ b → Step a b
  hold :
      (n : ℕ) → b.available + n ≡ a.available → b.held ≡ a.held + n → b.spent ≡ a.spent → Step a b
  spend :
      (n : ℕ) → b.available ≡ a.available → b.held + n ≡ a.held → b.spent ≡ a.spent + n → Step a b
  release :
      (n : ℕ) → b.available ≡ a.available + n → b.held + n ≡ a.held → b.spent ≡ a.spent → Step a b

-- A user's row after their credits are set
pub credits_after :
    (users : List User) (u : User) (k n w : ℕ)
    → find user_key k users ≡ some u
    → credits_of (find user_key w (replace user_key (set_credits n u) users))
      ≡ (if k == w then n else credits_of (find user_key w users))
credits_after users u k n w h =
    let key = find-key user_key k users u h in
    let e = find-replaced user_key k w (set_credits n u) u users h key in ground (arith, e)

by_state : (state : ReservationState) → is_reserved state ≡ true → state ≡ reserved
by_state reserved h = refl
by_state captured h = cc
by_state released h = cc

module _ (k : ℕ) (db : Database) (r : Reservation) (found : get_credit_reservation k db ≡ some r)
    (held : is_reserved r.state ≡ true) (w : ℕ) where
  changed :
      (p : ReservationState → Bool) (state : ReservationState)
      → total (weight p w) (replace reservation_key (with_state state r) db.reservations)
          + weight p w r
        ≡ total (weight p w) db.reservations + weight p w (with_state state r)
  changed p state =
      let key = find-key reservation_key k db.reservations r found in
      total-replace reservation_key (weight p w) (with_state state r) r db.reservations
        (ap (λ n. find reservation_key n db.reservations) key ∙ found)

  state_reserved : r.state ≡ reserved
  state_reserved = by_state r.state held

  same_weight :
      (p : ReservationState → Bool) (state : ReservationState)
      → (r.user_id == w) ≡ false
      → total (weight p w) (replace reservation_key (with_state state r) db.reservations)
        ≡ total (weight p w) db.reservations
  same_weight p state h = ground (arith, h, changed p state)

  less_held :
      (state : ReservationState)
      → is_reserved state ≡ false
      → (r.user_id == w) ≡ true
      → total (weight is_reserved w) (replace reservation_key (with_state state r) db.reservations)
          + r.amount
        ≡ total (weight is_reserved w) db.reservations
  less_held state n h = ground (arith, h, n, held, changed is_reserved state)

  more_spent :
      (r.user_id == w) ≡ true
      → total
          (weight is_captured w)
          (replace reservation_key (with_state captured r) db.reservations)
        ≡ total (weight is_captured w) db.reservations + r.amount
  more_spent h = ground (arith, h, state_reserved, changed is_captured captured)

  same_spent :
      total (weight is_captured w) (replace reservation_key (with_state released r) db.reservations)
      ≡ total (weight is_captured w) db.reservations
  same_spent = ground (arith, state_reserved, changed is_captured released)

module _ (w : ℕ) (db s : Database) where
  same_account : Idle db s → account w s ≡ account w db
  unfolding account
  same_account m = rw (m.users, m.reservations) refl

  started : (k : ℕ) → Starts k db s → account w s ≡ account w db
  unfolding account
  started k m = rw (m.users, m.reservations) refl

  captured_step : (k : ℕ) → Captures k db s → Step (account w db) (account w s)
  unfolding account
  captured_step k m =
      let r = m.reservation in
      let found = m.found_reservation in
      elim (Bool-cases (r.user_id == w)) [
        | inl mine ↦
            rw (m.users, m.reservations)
              (spend r.amount refl (less_held k db r found m.held w captured refl mine)
                (more_spent k db r found m.held w mine))
        | inr other ↦
            rw (m.users, m.reservations)
              (stay (
                rw
                  (
                    same_weight k db r found m.held w is_reserved captured other,
                    same_weight k db r found m.held w is_captured captured other,
                  )
                  refl))
      ]

  refunded_step :
      (k : ℕ) (status : TaskStatus) → Refunds k status db s → Step (account w db) (account w s)
  unfolding account
  refunded_step k status m =
      let r = m.reservation in
      let found = m.found_reservation in
      let c = credits_after db.users m.user r.user_id (m.user.credits + r.amount) w m.found_user in
      elim (Bool-cases (r.user_id == w)) [
        | inl mine ↦
            rw (m.users, m.reservations)
              (release r.amount (ground (arith, mine, c, m.found_user))
                (less_held k db r found m.held w released refl mine)
                (same_spent k db r found m.held w))
        | inr other ↦
            rw (m.users, m.reservations)
              (stay (
                rw
                  (
                    c,
                    other,
                    same_weight k db r found m.held w is_reserved released other,
                    same_weight k db r found m.held w is_captured released other,
                  )
                  refl))
      ]

  added :
      (p : ReservationState → Bool) (c : TaskCommand) (r : Reservation)
      → Admits c r db s
      → (c.user_id == w) ≡ false
      → total (weight p w) (db.reservations ++ (r ∷ [])) ≡ total (weight p w) db.reservations
  added p c r m other =
      ground (arith, total-append (weight p w) db.reservations r, other, m.same_user)

  admitted_step :
      (c : TaskCommand) (r : Reservation) → Admits c r db s → Step (account w db) (account w s)
  unfolding account
  admitted_step c r m =
      let e = credits_after db.users m.user c.user_id (m.user.credits - c.cost) w m.found in
      let h = total-append (weight is_reserved w) db.reservations r in
      let g = total-append (weight is_captured w) db.reservations r in
      elim (Bool-cases (c.user_id == w)) [
        | inl mine ↦
            rw (m.users, m.reservations)
              (hold c.cost (ground (arith, mine, e, m.found, m.affordable))
                (ground (arith, h, mine, m.same_user, m.same_cost, m.held))
                (ground (arith, g, mine, m.same_user, m.same_cost, m.held)))
        | inr other ↦
            rw (m.users, m.reservations)
              (stay
                (rw (e, other, added is_reserved c r m other, added is_captured c r m other) refl))
      ]

  -- Every move of the database is a step of the account of each user: credits that were available
  -- are held for a task, or held credits are spent or given back, or the account stays as it is.
  pub Move-Step : Move db s → Step (account w db) (account w s)
  Move-Step (idle m) = stay (sym (same_account m))
  Move-Step (start k m) = stay (sym (started k m))
  Move-Step (admit c r m) = admitted_step c r m
  Move-Step (capture k m) = captured_step k m
  Move-Step (refund k status m) = refunded_step k status m

abbrev pub worth : Account → ℕ
worth a = a.available + a.held + a.spent

-- A step neither makes nor loses credits.
pub Step-worth : (a b : Account) → Step a b → worth b ≡ worth a
Step-worth a b (stay e) = ap worth (sym e)
Step-worth a b (hold n e f g) = omega (arith, e, f, g)
Step-worth a b (spend n e f g) = omega (arith, e, f, g)
Step-worth a b (release n e f g) = omega (arith, e, f, g)
