-- ===== src/Solution2/Moves/Adjust.antt =====
-- An adjustment of a user's credits from outside the accounts.
use metered_compute.Base.{
  ℕ, ◌+◌, ◌≡◌, refl, arith, if◌then◌else◌, ◌==◌, Option, none, some, Bool-cases, inl, inr,
}
use metered_compute.Int.{ℤ, pos, pos_part, neg_part}
use metered_compute.Table.{find, replace}
use metered_compute.Solution2.Database.{User, Database, user_key, set_credits}
use metered_compute.Solution2.Moves.{Agrees}
use metered_compute.Solution2.Moves.Consistency.{agree_users, exists_same}
use metered_compute.Solution2.Moves.Account.{
  Account, account, credits_after, Step, Step-worth, worth,
}

-- The credits of a user change by `delta`, and stay at 0 or above.
pub record Adjusts (u : ℕ) (delta : ℤ) (db s : Database) : Type 0 where
  pub user : User
  pub found : find user_key u db.users ≡ some user
  pub after : ℕ
  pub credits : after + neg_part delta ≡ user.credits + pos_part delta
  pub users : s.users ≡ replace user_key (set_credits after user) db.users
  pub commands : s.commands ≡ db.commands
  pub reservations : s.reservations ≡ db.reservations

-- The available credits change by `delta`, and nothing else does.
pub record Adds (delta : ℤ) (a b : Account) : Type 0 where
  pub available : b.available + neg_part delta ≡ a.available + pos_part delta
  pub held : b.held ≡ a.held
  pub spent : b.spent ≡ a.spent

-- What one transaction does to an account: a step, or an adjustment.
abbrev pub Entry : Option ℤ → Account → Account → Type 0
Entry none a b = Step a b
Entry (some delta) a b = Adds delta a b

-- What an adjustment of the user `u` is for the account of `w`
abbrev pub adjustment : (w : ℕ) → Option (ℕ × ℤ) → Option ℤ
adjustment w none = none
adjustment w (some (u, delta)) = some (if u == w then delta else pos 0)

abbrev pub delta_of : Option ℤ → ℤ
delta_of none = pos 0
delta_of (some delta) = delta

pub Adjusts-Agrees :
    (u : ℕ) (delta : ℤ) (db s : Database) → Agrees db → Adjusts u delta db s → Agrees s
Adjusts-Agrees u delta db s good m = record {
  rows = λ j.
      rw (m.users, m.commands, m.reservations)
        (rw (agree_users _ _ db.users _ (exists_same db.users m.user m.after)) (good.rows j));
}

pub Adjusts-Adds :
    (w u : ℕ) (delta : ℤ) (db s : Database)
    → Adjusts u delta db s
    → Adds (if u == w then delta else pos 0) (account w db) (account w s)
unfolding account
Adjusts-Adds w u delta db s m =
    let e = credits_after db.users m.user u m.after w m.found in
    elim (Bool-cases (u == w)) [
      | inl mine ↦
          rw (mine, m.users, m.reservations)
            (record {
              available = ground (arith, e, mine, m.found, m.credits);
              held = refl;
              spent = refl;
            })
      | inr other ↦
          rw (other, m.users, m.reservations)
            (record { available = rw (e, other) refl; held = refl; spent = refl })
    ]

pub Entry-worth :
    (d : Option ℤ) (a b : Account)
    → Entry d a b
    → worth b + neg_part (delta_of d) ≡ worth a + pos_part (delta_of d)
Entry-worth none a b h = rw (Step-worth a b h) refl
Entry-worth (some delta) a b h = omega (arith, h.available, h.held, h.spent)
