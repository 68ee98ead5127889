-- ===== src/Solution2/Watchdog/Loop.antt =====
-- The loop of a pass of the watchdog over the reservations that it found.
use metered_compute.Base.{
  ℕ, ◌≡◌, refl, inl, inr, Bool, true, false, Option, none, some, List, [], ◌∷◌, arith, String, ◌==◌,
  ap, ◌∙◌,
}
use metered_compute.Exec.{Exec, Result, ok, err, ◌>>=◌, pure}
use metered_compute.Table.{find}
use metered_compute.Table.Rows.{find-key, find-replaced}
use metered_compute.Solution2.Constants.{timeout, released}
use metered_compute.Solution2.Database.{
  Reservation, Database, reservation_key, get_credit_reservation, with_state,
}
use metered_compute.Solution2.Cache.{State}
use metered_compute.Solution2.Moves.{agree, Agrees, Refunds, Succeeds, EndsOr}
use metered_compute.Solution2.Moves.Open.{task_cases}
use metered_compute.Solution2.Watchdog.{expire_reservation, process_each, count}
use metered_compute.Solution2.Watchdog.Rows.{All, All-map}
use metered_compute.Solution2.Watchdog.Moves.{expire_reservation-moves}
use metered_compute.Solution2.Watchdog.Kept.{
  Settled, Queued, Known, Later, ends_later, Releases, Releases-Releases,
}

Succeeds-map :
    {A S : Type 0} (P Q : A → S → Type 0) (x : Result (A × S))
    → ((a : A) (s : S) → P a s → Q a s)
    → Succeeds P x
    → Succeeds Q x
Succeeds-map P Q (ok (a, s)) f h = f a s h
Succeeds-map P Q (err _) f h = elim h [ ]

Succeeds-ok :
    {A S : Type 0} (P Q : A → S → Type 0) (x : Result (A × S))
    → Succeeds P x
    → Succeeds Q x
    → (a : A) × ((s : S) × ((x ≡ ok (a, s)) × (P a s × Q a s)))
Succeeds-ok P Q (ok (a, s)) p q = (a, (s, (refl, (p, q))))
Succeeds-ok P Q (err _) p q = elim p [ ]

module _ (db : Database) (good : Agrees db) (queued : Queued db) (r : Reservation)
    (known : Known db r) where
  later :
      Succeeds (λ out s. Later r.task_id db s) (expire_reservation r.task_id r.user_id r.amount db)
  later =
      let k = r.task_id in
      let moves = expire_reservation-moves k db good known.row known.found (queued k) in
      Succeeds-map (λ out s. EndsOr (Refunds k timeout db) db out.0 s)
        (λ out s. Later r.task_id db s) _ (λ out s m. ends_later k db s good queued out.0 m)
        (rw (known.same_user, known.same_amount) at moves)

  expire_settles :
      Succeeds (λ out s. Settled s r.task_id) (expire_reservation r.task_id r.user_id r.amount db)
  unfolding expire_reservation find
  expire_settles =
      let k = r.task_id in
      elim (task_cases k db good) [
        | inl (inl n) ↦
            let h : agree none (some known.row) db.users ≡ true =
              rw (n, known.found) at (good.rows k) in
            cc
        | inl (inr c) ↦
            rw (c.found, c.found_reservation, c.settled) (rw (c.found_reservation, c.settled) refl)
        | inr o ↦
            let (q, e) = queued k o.command o.found_command in
            let row : known.row ≡ o.reservation = cc (o.found_reservation, known.found) in
            let user : r.user_id ≡ o.reservation.user_id = cc (row, known.same_user) in
            rw (o.found_command, o.found_reservation, o.held, user, o.found_user)
              (rw (o.found_command, o.open_command)
                (rw e (
                  ground (
                    arith,
                    find-key reservation_key k db.reservations o.reservation o.found_reservation,
                    find-replaced reservation_key k k (with_state released o.reservation)
                        o.reservation db.reservations o.found_reservation
                        (find-key reservation_key k db.reservations o.reservation
                          o.found_reservation),
                  ))))
      ]

  expires :
      (out : Bool × Option String) × ((s : Database) × ((expire_reservation r.task_id r.user_id
              r.amount db
            ≡ ok (out, s))
          × (Later r.task_id db s × Settled s r.task_id)))
  expires =
      Succeeds-ok (λ out s. Later r.task_id db s) (λ out s. Settled s r.task_id)
        (expire_reservation r.task_id r.user_id r.amount db) later expire_settles

-- What the loop over the reservations does: it ends without an error, and each of them is settled.
pub record Passes (rows : List Reservation) (db : Database) (out : Result (ℕ × ℕ) × State)
    : Type 0 where
  pub ends : (sums : ℕ × ℕ) × (out.0 ≡ ok sums)
  pub agrees : Agrees out.1.db
  pub settles : All (λ r. Settled out.1.db r.task_id) rows
  pub keeps : (j : ℕ) → Settled db j → Settled out.1.db j
  pub others :
      (j : ℕ)
      → All (λ r. (r.task_id == j) ≡ false) rows
      → get_credit_reservation j out.1.db ≡ get_credit_reservation j db
  pub changed : (j : ℕ) → Releases (get_credit_reservation j db) (get_credit_reservation j out.1.db)

count_goes_on :
    (out : Bool × Option String) (r : Reservation) (next : ℕ × ℕ → Exec State (ℕ × ℕ))
    (sums : ℕ × ℕ) (s : State)
    → (n : ℕ × ℕ) × ((t : State) × ((count out r next sums s ≡ next n t) × (t.db ≡ s.db)))
unfolding ◌>>=◌
count_goes_on (true, q) r next sums s = (_, (_, (refl, refl)))
count_goes_on (false, q) r next sums s = (sums, (s, (refl, refl)))

none-Passes : (sums : ℕ × ℕ) (s : State) → Agrees s.db → Passes [] s.db (process_each [] sums s)
unfolding process_each ◌>>=◌ pure
none-Passes sums s good = record {
  ends = (sums, refl);
  agrees = good;
  settles = tt;
  keeps = λ j h. h;
  others = λ j h. refl;
  changed = λ j. inl refl;
}

then-Passes :
    (r : Reservation) (rows : List Reservation) (sums n : ℕ × ℕ) (s t : State)
    (out : Bool × Option String) (db : Database)
    → expire_reservation r.task_id r.user_id r.amount s.db ≡ ok (out, db)
    → Later r.task_id s.db db
    → Settled db r.task_id
    → count out r (process_each rows) sums (record s { db = db }) ≡ process_each rows n t
    → t.db ≡ db
    → Passes rows t.db (process_each rows n t)
    → Passes (r ∷ rows) s.db (process_each (r ∷ rows) sums s)
unfolding process_each ◌>>=◌ pure
then-Passes r rows sums n s t out db e l done f g p =
    rw (e, f)
      (record {
        ends = p.ends;
        agrees = p.agrees;
        settles = (p.keeps r.task_id (rw g done), p.settles);
        keeps = λ j h. p.keeps j (rw g (l.settled j h));
        others = λ j h. p.others j h.1 ∙ (ap (get_credit_reservation j) g ∙ l.others j h.0);
        changed = λ j.
            let now : Releases (get_credit_reservation j s.db) (get_credit_reservation j t.db) =
              rw g (l.changed j) in
            Releases-Releases _ _ _ now (p.changed j);
      })

pub process_each-Passes :
    (rows : List Reservation) (sums : ℕ × ℕ) (s : State)
    → Agrees s.db
    → Queued s.db
    → All (Known s.db) rows
    → Passes rows s.db (process_each rows sums s)
process_each-Passes [] sums s good queued known = none-Passes sums s good
process_each-Passes (r ∷ rows) sums s good queued (known, rest) =
    let (out, (db, (e, (l, done)))) = expires s.db good queued r known in
    let (n, (t, (f, g))) = count_goes_on out r (process_each rows) sums (record s { db = db }) in
    let k : All (Known t.db) rows = All-map _ _ rows (λ q h. rw g (l.known q h)) rest in
    then-Passes r rows sums n s t out db e l done f g
      (process_each-Passes rows n t (rw g l.agrees) (rw g l.queued) k)
