-- ===== src/Solution2/Watchdog/Rows.antt =====
-- The reservations that a pass of the watchdog finds: those of the table that expired.
use metered_compute.Base.{ℕ, ◌≡◌, inl, inr, true, List, [], ◌∷◌, leb, Bool-cases, ◌⊎◌}
use metered_compute.Solution2.Database.{Reservation}
use metered_compute.Solution2.Watchdog.{is_expired, insert_by_expiry, expired_rows}

abbrev pub All : (Reservation → Type 0) → List Reservation → Type 0
All P [] = Unit
All P (r ∷ rows) = P r × All P rows

pub All-map :
    (P Q : Reservation → Type 0) (rows : List Reservation)
    → ((r : Reservation) → P r → Q r)
    → All P rows
    → All Q rows
All-map P Q [] f h = tt
All-map P Q (r ∷ rows) f (p, h) = (f r p, All-map P Q rows f h)

pub All-both :
    (P Q : Reservation → Type 0) (rows : List Reservation)
    → All P rows
    → All Q rows
    → All (λ r. P r × Q r) rows
All-both P Q [] p q = tt
All-both P Q (r ∷ rows) (p, ps) (q, qs) = ((p, q), All-both P Q rows ps qs)

pub insert-All :
    (P : Reservation → Type 0) (r : Reservation) (rows : List Reservation)
    → P r
    → All P rows
    → All P (insert_by_expiry r rows)
unfolding insert_by_expiry
insert-All P r [] p h = (p, tt)
insert-All P r (q ∷ rows) p (g, h) = elim (Bool-cases (leb r.expires_at q.expires_at)) [
  | inl e ↦ rw e (p, (g, h))
  | inr e ↦ rw e (g, insert-All P r rows p h)
]

pub expired-All :
    (P : Reservation → Type 0) (as_of : ℕ) (rows : List Reservation)
    → All P rows
    → All P (expired_rows as_of rows)
unfolding expired_rows
expired-All P as_of [] h = tt
expired-All P as_of (r ∷ rows) (p, h) = elim (Bool-cases (is_expired as_of r)) [
  | inl e ↦ rw e (insert-All P r (expired_rows as_of rows) p (expired-All P as_of rows h))
  | inr e ↦ rw e (expired-All P as_of rows h)
]

-- `r` is in the list.
abbrev pub In : Reservation → List Reservation → Type 0
In r [] = ⊥
In r (q ∷ rows) = (r ≡ q) ⊎ In r rows

pub All-In :
    (P : Reservation → Type 0) (r : Reservation) (rows : List Reservation)
    → All P rows
    → In r rows
    → P r
All-In P r [] h m = elim m [ ]
All-In P r (q ∷ rows) (p, h) (inl e) = rw e p
All-In P r (q ∷ rows) (p, h) (inr m) = All-In P r rows h m

pub insert-In :
    (r q : Reservation) (rows : List Reservation)
    → (r ≡ q) ⊎ In r rows
    → In r (insert_by_expiry q rows)
unfolding insert_by_expiry
insert-In r q [] h = h
insert-In r q (p ∷ rows) h = elim (Bool-cases (leb q.expires_at p.expires_at)) [
  | inl e ↦ rw e h
  | inr e ↦ rw e (elim h [
    | inl same ↦ inr (insert-In r q rows (inl same))
    | inr m ↦ elim m [ inl same ↦ inl same | inr later ↦ inr (insert-In r q rows (inr later)) ]
  ])
]

pub expired-In :
    (as_of : ℕ) (r : Reservation) (rows : List Reservation)
    → is_expired as_of r ≡ true
    → In r rows
    → In r (expired_rows as_of rows)
unfolding expired_rows
expired-In as_of r [] h m = m
expired-In as_of r (q ∷ rows) h (inl same) =
    let e : is_expired as_of q ≡ true = rw same at h in
    rw e (insert-In r q (expired_rows as_of rows) (inl same))
expired-In as_of r (q ∷ rows) h (inr m) =
    let rest = expired-In as_of r rows h m in
    elim (Bool-cases (is_expired as_of q)) [
      | inl e ↦ rw e (insert-In r q (expired_rows as_of rows) (inr rest))
      | inr e ↦ rw e rest
    ]

-- Those that are found had expired.
pub expired-All-is_expired :
    (as_of : ℕ) (rows : List Reservation)
    → All (λ r. is_expired as_of r ≡ true) (expired_rows as_of rows)
unfolding expired_rows
expired-All-is_expired as_of [] = tt
expired-All-is_expired as_of (r ∷ rows) =
    let rest = expired-All-is_expired as_of rows in
    elim (Bool-cases (is_expired as_of r)) [
      | inl e ↦
          rw e (insert-All (λ q. is_expired as_of q ≡ true) r (expired_rows as_of rows) e rest)
      | inr e ↦ rw e rest
    ]
