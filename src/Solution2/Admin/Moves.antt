-- ===== src/Solution2/Admin/Moves.antt =====
-- What an adjustment does to the users.
use metered_compute.Base.{
  ℕ, ◌+◌, ◌≡◌, refl, arith, String, Option, none, some, Option-cases, inl, inr, ap, ◌∙◌,
}
use metered_compute.Int.{ℤ, pos, negsuc, pos_part, neg_part}
use metered_compute.Table.{find, Commits}
use metered_compute.Table.Rows.{find-key}
use metered_compute.Solution2.Database.{Database, user_key}
use metered_compute.Solution2.Moves.{Idle}
use metered_compute.Solution2.Moves.Open.{same}
use metered_compute.Solution2.Moves.Adjust.{Adjusts}
use metered_compute.Solution2.Admin.{by_api_key, plus_delta, Adjusted, adjust_credits}

plus_delta_lem :
    (n : ℕ) (delta : ℤ) (k : ℕ)
    → plus_delta n delta ≡ some k
    → k + neg_part delta ≡ n + pos_part delta
plus_delta_lem n (pos d) k h = ground arith
plus_delta_lem n (negsuc d) k h = ground arith

abbrev pub AdjustsOr : ℤ → Database → Option Adjusted → Database → Type 0
AdjustsOr delta db none s = Idle db s
AdjustsOr delta db (some a) s = Adjusts a.0 delta db s

pub adjust_credits-moves :
    (key : String) (delta : ℤ) (reason : String) (db : Database)
    → Commits (AdjustsOr delta db) (adjust_credits key delta reason db)
unfolding adjust_credits
adjust_credits-moves key delta reason db = elim (Option-cases (by_api_key key db.users)) [
  | inl e ↦ rw e (same db db refl refl refl)
  | inr (t, e) ↦ elim (Option-cases (find user_key t.user_id db.users)) [
    | inl f ↦ rw (e, f) (same db db refl refl refl)
    | inr (u, f) ↦ elim (Option-cases (plus_delta u.credits delta)) [
      | inl g ↦ rw (e, f, g) tt
      | inr (n, g) ↦
          let k : u.user_id ≡ t.user_id = find-key user_key t.user_id db.users u f in
          rw (e, f, g)
            (record {
              user = u;
              found = ap (λ j. find user_key j db.users) k ∙ f;
              after = n;
              credits = plus_delta_lem u.credits delta n g;
              users = refl;
              commands = refl;
              reservations = refl;
            })
    ]
  ]
]
