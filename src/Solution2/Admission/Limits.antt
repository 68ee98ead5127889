-- ===== src/Solution2/Admission/Limits.antt =====
-- An admission keeps the user's active reservations within the limit.
use metered_compute.Base.{
  ℕ, ◌+◌, ◌≤◌, ◌≡◌, ◌⊎◌, List, [], ◌∷◌, ◌++◌, arith, inl, inr, String, Option,
}
use metered_compute.Exec.{ok}
use metered_compute.Int.{ℤ}
use metered_compute.Solution2.Constants.{SubscriptionTier, ModelClass, RequestMode}
use metered_compute.Solution2.Database.{Database, Reservation, count_active}
use metered_compute.Solution2.Moves.{Agrees}
use metered_compute.Solution2.Admission.{
  Payload, accepted, execute_admission_transaction, execute_sync_admission_transaction,
}
use metered_compute.Solution2.Admission.Moves.{
  Admitted, Exists, Malformed, admission-moves, sync_admission-moves,
}

count_active-append :
    (w now : ℕ) (rows : List Reservation) (r : Reservation)
    → count_active w now (rows ++ (r ∷ [])) ≤ count_active w now rows + 1
unfolding count_active
count_active-append w now [] r = ground arith
count_active-append w now (q ∷ rows) r = ground (arith, count_active-append w now rows r)

within :
    (u t c mx : ℕ) (key : String) (db s : Database) (F : Type 0)
    → Admitted u t c mx key db F (ok (accepted, s))
    → count_active u db.now s.reservations ≤ mx
within u t c mx key db s F (inl (h, (room, (cmd, (r, (m, _)))))) =
    rw m.reservations (ground (arith, room, count_active-append u db.now db.reservations r))
within u t c mx key db s F (inr (inl (inl (h, _)), i)) = cc
within u t c mx key db s F (inr (inl (inr (_, (h, _))), i)) = cc
within u t c mx key db s F (inr (inr (inl (h, _)), i)) = cc
within u t c mx key db s F (inr (inr (inr (_, (h, _))), i)) = cc

module _ (clock u t c mx : ℕ) (key : String) (db s : Database) (good : Agrees db) where
  -- After an accepted asynchronous admission the user's active reservations are at most the limit.
  pub admission-within :
      (payload : Payload) (mode : Option RequestMode) (queue : Option String) (ttl : Option ℕ)
      → execute_admission_transaction clock u t c key mx payload mode queue ttl db
        ≡ ok (accepted, s)
      → count_active u db.now s.reservations ≤ mx
  admission-within payload mode queue ttl e =
      within u t c mx key db s (Exists t db ⊎ Malformed payload mode queue)
        (rw e at (admission-moves clock u t c key mx db good payload mode queue ttl))

  -- After an accepted synchronous admission the user's active reservations are at most the limit.
  pub sync_admission-within :
      (tier : SubscriptionTier) (x y : ℤ) (m : ModelClass) (callback : Option String)
      (ttl : Option ℕ)
      → execute_sync_admission_transaction clock u t c key mx tier x y m callback ttl db
        ≡ ok (accepted, s)
      → count_active u db.now s.reservations ≤ mx
  sync_admission-within tier x y m callback ttl e =
      within u t c mx key db s (Exists t db)
        (rw e at (sync_admission-moves clock u t c key mx db good tier x y m callback ttl))
