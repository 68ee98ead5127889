-- ===== src/Table/Rows.antt =====
-- Rows of a table with a unique key under replacement and insertion.
use metered_compute.Base.{
  ℕ, ◌+◌, ◌≡◌, Option, none, some, List, [], ◌∷◌, ◌++◌, arith, ◌==◌, if◌then◌else◌, Option-cases,
  inl, inr,
}
use metered_compute.Table.{find, replace, total}

module _ {R : Type 0} (key : R → ℕ) where
  pub find-key : (k : ℕ) (rows : List R) (r : R) → find key k rows ≡ some r → key r ≡ k
  unfolding find
  find-key k [] r h = cc
  find-key k (q ∷ rows) r h = ground (arith, find-key k rows r)

  abbrev pub replaced : R → Option R → Option R
  replaced new none = none
  replaced new (some r) = some new

  pub find-replace :
      (j : ℕ) (new : R) (rows : List R)
      → find key j (replace key new rows)
        ≡ (if key new == j then replaced new (find key j rows) else find key j rows)
  unfolding find replace
  find-replace j new [] = ground arith
  find-replace j new (r ∷ rows) = ground (arith, find-replace j new rows)

  -- A row that is found, before and after it is replaced
  pub find-found :
      (k j : ℕ) (rows : List R) (r : R)
      → find key k rows ≡ some r
      → find key j rows ≡ (if k == j then some r else find key j rows)
  find-found k j rows r h = ground (arith, h)

  pub find-replaced :
      (k j : ℕ) (new old : R) (rows : List R)
      → find key k rows ≡ some old
      → key new ≡ k
      → find key j (replace key new rows) ≡ (if k == j then some new else find key j rows)
  find-replaced k j new old rows h e = ground (arith, h, e, find-replace j new rows)

  abbrev pub or_new : ℕ → R → Option R → Option R
  or_new j new none = if key new == j then some new else none
  or_new j new (some r) = some r

  pub find-append :
      (j : ℕ) (rows : List R) (new : R)
      → find key j (rows ++ (new ∷ [])) ≡ or_new j new (find key j rows)
  unfolding find
  find-append j [] new = ground arith
  find-append j (r ∷ rows) new = ground (arith, find-append j rows new)

  pub find-appended :
      (k j : ℕ) (rows : List R) (new : R)
      → find key k rows ≡ none
      → key new ≡ k
      → find key j (rows ++ (new ∷ [])) ≡ (if k == j then some new else find key j rows)
  find-appended k j rows new h e = elim (Option-cases (find key j rows)) [
    | inl n ↦ ground (arith, h, e, n, find-append j rows new)
    | inr (r, f) ↦ ground (arith, h, e, f, find-append j rows new)
  ]

  -- A total changes by the row that is replaced.
  pub total-replace :
      (w : R → ℕ) (new old : R) (rows : List R)
      → find key (key new) rows ≡ some old
      → total w (replace key new rows) + w old ≡ total w rows + w new
  unfolding find replace total
  total-replace w new old [] h = cc
  total-replace w new old (r ∷ rows) h = ground (arith, total-replace w new old rows)

pub total-append :
    {R : Type 0} (w : R → ℕ) (rows : List R) (new : R)
    → total w (rows ++ (new ∷ [])) ≡ total w rows + w new
unfolding total
total-append w [] new = omega arith
total-append w (r ∷ rows) new = omega (arith, total-append w rows new)
