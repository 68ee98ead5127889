-- ===== src/Solution2/Watchdog/Pass.antt =====
-- A pass of the watchdog that no other transaction interrupts.
use metered_compute.Base.{
  ℕ, ◌≡◌, refl, inl, inr, true, false, some, arith, Bool-cases, ◌==◌, ◌∙◌, ◌≤◌, ◌<◌, ◌⊎◌, ◌≢◌, ◌↔◌,
}
use metered_compute.Exec.{Result, ok}
use metered_compute.Solution2.Constants.{reserved, released}
use metered_compute.Solution2.Database.{Reservation, Database, get_credit_reservation, with_state}
use metered_compute.Solution2.Cache.{State}
use metered_compute.Solution2.Moves.{Agrees}
use metered_compute.Solution2.Watchdog.{
  is_expired, find_expired_reservations, process_expired_reservations,
}
use metered_compute.Solution2.Watchdog.Rows.{
  All, All-map, All-both, In, All-In, expired-All, expired-In, expired-All-is_expired,
}
use metered_compute.Solution2.Watchdog.Kept.{Queued, Known, Releases-released}
use metered_compute.Solution2.Watchdog.Loop.{process_each-Passes}

-- Each row is the one that its task id finds, as `task_id` is UNIQUE.
abbrev pub Unique : Database → Type 0
Unique db = All (λ r. get_credit_reservation r.task_id db ≡ some r) db.reservations

-- What a pass leaves: each reservation that was held and had expired is released, and every other
-- one is as it was.
pub record Leaves (as_of : ℕ) (db : Database) (out : Result (ℕ × ℕ) × State) : Type 0 where
  pub ends : (sums : ℕ × ℕ) × (out.0 ≡ ok sums)
  pub agrees : Agrees out.1.db
  pub expires :
      (r : Reservation)
      → In r db.reservations
      → r.state ≡ reserved
      → r.expires_at ≤ as_of
      → get_credit_reservation r.task_id out.1.db ≡ some (with_state released r)
  pub stays :
      (r : Reservation)
      → In r db.reservations
      → (r.state ≢ reserved) ⊎ (as_of < r.expires_at)
      → get_credit_reservation r.task_id out.1.db ≡ some r

expired_iff :
    (as_of : ℕ) (r : Reservation)
    → (is_expired as_of r ≡ true) ↔ ((r.state ≡ reserved) × (r.expires_at ≤ as_of))
expired_iff as_of r = ground arith

stays_unexpired :
    (as_of : ℕ) (r : Reservation)
    → (r.state ≢ reserved) ⊎ (as_of < r.expires_at)
    → is_expired as_of r ≡ false
stays_unexpired as_of r h = elim (Bool-cases (is_expired as_of r)) [
  | inl e ↦
      let (held, due) = (expired_iff as_of r).0 e in
      elim h [ inl ne ↦ absurd (ne held) | inr lt ↦ absurd (omega (arith, lt, due)) ]
  | inr e ↦ e
]

-- No expired row has the task of one that is not expired.
not_among :
    (as_of : ℕ) (db : Database) (r : Reservation)
    → Unique db
    → get_credit_reservation r.task_id db ≡ some r
    → is_expired as_of r ≡ false
    → All (λ q. (q.task_id == r.task_id) ≡ false) (find_expired_reservations as_of db)
not_among as_of db r unique found h =
    let own = λ (q : Reservation). get_credit_reservation q.task_id db ≡ some q in
    let late = λ (q : Reservation). is_expired as_of q ≡ true in
    All-map (λ q. own q × late q) _ _
      (λ q e. elim (Bool-cases (q.task_id == r.task_id)) [
        | inl same ↦ let k : q.task_id ≡ r.task_id = ground arith in cc (k, found, e.0, e.1, h)
        | inr other ↦ other
      ])
      (All-both own late _ (expired-All own as_of db.reservations unique)
        (expired-All-is_expired as_of db.reservations))

-- A pass over a consistent database, in which every task has a queue, ends without an error and
-- leaves the database consistent. Each reservation that was held and whose time is not after `as_of`
-- is then released, and every other reservation is as it was.
pub process_expired_reservations-settles :
    (as_of : ℕ) (s : State)
    → Agrees s.db
    → Queued s.db
    → Unique s.db
    → Leaves as_of s.db (process_expired_reservations as_of s)
unfolding process_expired_reservations
process_expired_reservations-settles as_of s good queued unique =
    let known : All (Known s.db) s.db.reservations =
      All-map _ (Known s.db) s.db.reservations
        (λ r e. record { row = r; found = e; same_user = refl; same_amount = refl }) unique in
    let p =
      process_each-Passes (find_expired_reservations as_of s.db) (0, 0) s good queued
        (expired-All (Known s.db) as_of s.db.reservations known) in
    let own = All-In (λ q. get_credit_reservation q.task_id s.db ≡ some q) in
    record {
      ends = p.ends;
      agrees = p.agrees;
      expires = λ r m held due.
          let found = own r s.db.reservations unique m in
          Releases-released r _ held (rw found at (p.changed r.task_id)) (
            All-In _ r _ p.settles
              (expired-In as_of r s.db.reservations ((expired_iff as_of r).1 (held, due)) m));
      stays = λ r m h.
          let found = own r s.db.reservations unique m in
          let late : is_expired as_of r ≡ false = stays_unexpired as_of r h in
          p.others r.task_id (not_among as_of s.db r unique found late) ∙ found;
    }
