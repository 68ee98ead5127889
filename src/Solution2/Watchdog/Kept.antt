-- ===== src/Solution2/Watchdog/Kept.antt =====
-- What a transaction of the watchdog keeps for the reservations that are still to come.
use metered_compute.Base.{
  ℕ, ◌≡◌, ◌⊎◌, refl, inl, inr, Bool, true, false, not, Option, none, some, ◌==◌, arith,
  if◌then◌else◌, Bool-cases, String, ◌∙◌,
}
use metered_compute.Exec.{ok}
use metered_compute.Table.Rows.{find-key, find-replaced}
use metered_compute.Solution2.Constants.{timeout, reserved, released, is_reserved, resolve_queue}
use metered_compute.Solution2.Database.{
  TaskCommand, Reservation, Database, command_key, reservation_key, get_task_command,
  get_credit_reservation, with_status, with_state,
}
use metered_compute.Solution2.Moves.{Agrees, Idle, Refunds, idle, refund, EndsOr}
use metered_compute.Solution2.Moves.Consistency.{Move-Agrees}

abbrev pub is_settled : Option Reservation → Bool
is_settled none = false
is_settled (some r) = not (is_reserved r.state)

abbrev pub Settled : Database → ℕ → Type 0
Settled db k = is_settled (get_credit_reservation k db) ≡ true

-- The tier, the mode and the model class of every task have a queue.
abbrev pub Queued : Database → Type 0
Queued db =
    (k : ℕ) (c : TaskCommand)
    → get_task_command k db ≡ some c
    → (q : String) × (resolve_queue c.tier c.mode c.model_class ≡ ok q)

-- The row of a reservation that was read before
pub record Known (db : Database) (r : Reservation) : Type 0 where
  pub row : Reservation
  pub found : get_credit_reservation r.task_id db ≡ some row
  pub same_user : row.user_id ≡ r.user_id
  pub same_amount : row.amount ≡ r.amount

-- A row stays as it is, or is released.
abbrev pub Releases : Option Reservation → Option Reservation → Type 0
Releases a b = (b ≡ a) ⊎ ((r : Reservation) × ((a ≡ some r) × (b ≡ some (with_state released r))))

pub record Later (k : ℕ) (db s : Database) : Type 0 where
  pub agrees : Agrees s
  pub queued : Queued s
  pub known : (r : Reservation) → Known db r → Known s r
  pub settled : (j : ℕ) → Settled db j → Settled s j
  -- Another task's reservation stays.
  pub others : (j : ℕ) → (k == j) ≡ false → get_credit_reservation j s ≡ get_credit_reservation j db
  pub changed : (j : ℕ) → Releases (get_credit_reservation j db) (get_credit_reservation j s)

module _ (k : ℕ) (db s : Database) (good : Agrees db) (queued : Queued db) where
  idle_later : Idle db s → Later k db s
  idle_later m = record {
    agrees = Move-Agrees db s good (idle m);
    queued = λ j c e. queued j c (rw m.commands at e);
    known = λ r h. record {
      row = h.row;
      found = rw m.reservations h.found;
      same_user = h.same_user;
      same_amount = h.same_amount;
    };
    settled = λ j h. rw m.reservations h;
    others = λ j ne. rw m.reservations refl;
    changed = λ j. rw m.reservations (inl refl);
  }

  module _ (m : Refunds k timeout db s) where
    command_at :
        (j : ℕ)
        → get_task_command j s
          ≡ (if k == j then some (with_status timeout m.command) else get_task_command j db)
    command_at j =
        let key = find-key command_key k db.commands m.command m.found_command in
        rw m.commands (
          find-replaced command_key k j (with_status timeout m.command) m.command db.commands
            m.found_command key)

    reservation_at :
        (j : ℕ)
        → get_credit_reservation j s ≡ (
            if k == j
            then some (with_state released m.reservation)
            else get_credit_reservation j db)
    reservation_at j =
        let key = find-key reservation_key k db.reservations m.reservation m.found_reservation in
        rw m.reservations (
          find-replaced reservation_key k j (with_state released m.reservation) m.reservation
            db.reservations m.found_reservation key)

    refund-Queued : Queued s
    refund-Queued j c e = elim (Bool-cases (k == j)) [
      | inl h ↦
          let f : with_status timeout m.command ≡ c = ground (arith, command_at j, e, h) in
          let (q, g) = queued k m.command m.found_command in (q, cc (f, g))
      | inr h ↦ queued j c (ground (arith, command_at j, e, h))
    ]

    refund-Known : (r : Reservation) → Known db r → Known s r
    refund-Known r h = elim (Bool-cases (k == r.task_id)) [
      | inl e ↦
          let same_row : h.row ≡ m.reservation = ground (arith, e, h.found, m.found_reservation) in
          record {
            row = with_state released m.reservation;
            found = ground (arith, reservation_at r.task_id, e);
            same_user = cc (h.same_user, same_row);
            same_amount = cc (h.same_amount, same_row);
          }
      | inr e ↦ record {
        row = h.row;
        found = ground (arith, reservation_at r.task_id, e, h.found);
        same_user = h.same_user;
        same_amount = h.same_amount;
      }
    ]

    refund-Settled : (j : ℕ) → Settled db j → Settled s j
    refund-Settled j h = rw (reservation_at j) (ground (arith, h))

    refund_later : Later k db s
    refund_later = record {
      agrees = Move-Agrees db s good (refund k timeout m);
      queued = refund-Queued;
      known = refund-Known;
      settled = refund-Settled;
      others = λ j ne. ground (arith, reservation_at j, ne);
      changed = λ j. elim (Bool-cases (k == j)) [
        | inl e ↦ inr (
          m.reservation,
          (ground (arith, e, m.found_reservation), ground (arith, e, reservation_at j)),
        )
        | inr e ↦ inl (ground (arith, e, reservation_at j))
      ];
    }

  pub ends_later : (b : Bool) → EndsOr (Refunds k timeout db) db b s → Later k db s
  ends_later true m = refund_later m
  ends_later false m = idle_later m

pub Releases-Releases : (a b c : Option Reservation) → Releases a b → Releases b c → Releases a c
Releases-Releases a b c (inl e) h = rw e at h
Releases-Releases a b c (inr (r, (e, f))) (inl g) = inr (r, (e, g ∙ f))
Releases-Releases a b c (inr (r, (e, f))) (inr (q, (g, h))) = inr (r, (e, cc (f, g, h)))

-- A row that was reserved and is settled is released.
pub Releases-released :
    (r : Reservation) (b : Option Reservation)
    → r.state ≡ reserved
    → Releases (some r) b
    → is_settled b ≡ true
    → b ≡ some (with_state released r)
Releases-released r b h (inl e) s = cc
Releases-released r b h (inr (q, (e, f))) s = cc
