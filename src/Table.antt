-- ===== src/Table.antt =====
-- Tables with a unique key, as lists of rows, and the transactions on them: what a transaction wrote
-- is lost when it raises.
pub mod Rows
use metered_compute.Base.{
  ℕ, Bool, true, false, ◌+◌, Option, none, some, List, [], ◌∷◌, ◌==◌, if◌then◌else◌,
}
use metered_compute.Exec.{Error, Result, ok, err}

module _ {R : Type 0} (key : R → ℕ) where
  -- `SELECT … WHERE key = k`
  unfoldable pub find : ℕ → List R → Option R
  find k [] = none
  find k (r ∷ rows) = if key r == k then some r else find k rows

  -- The row with the key of the new one is replaced; the key is unique, so there is one at most.
  unfoldable pub replace : R → List R → List R
  replace new [] = []
  replace new (r ∷ rows) = if key r == key new then new ∷ rows else r ∷ replace new rows

-- `SELECT SUM(w)`
unfoldable pub total : {R : Type 0} → (R → ℕ) → List R → ℕ
total w [] = 0
total w (r ∷ rows) = total w rows + w r

abbrev pub Tx : Type 0 → Type 0 → Type 0
Tx S A = S → Result (A × S)

module _ {S A : Type 0} where
  abbrev pub pure : A → Tx S A
  pure a s = ok (a, s)

  abbrev pub raise : Error → Tx S A
  raise e s = err e

  abbrev pub gets : (S → A) → Tx S A
  gets f s = ok (f s, s)

-- What holds of a committed transaction; nothing is said of one that is rolled back.
abbrev pub Commits : {S A : Type 0} → (A → S → Type 0) → Result (A × S) → Type 0
Commits Q (ok (a, s)) = Q a s
Commits Q (err e) = Unit

-- `UPDATE … WHERE key = k AND p`, and whether a row was affected
abbrev pub update_if :
    {R : Type 0} → (R → ℕ) → (R → Bool) → (R → R) → List R → Option R → Bool × List R
update_if key p f rows none = (false, rows)
update_if key p f rows (some r) = if p r then (true, replace key (f r) rows) else (false, rows)

-- A statement or a call, as a part of a transaction
abbrev pub run : {S A : Type 0} → (S → A × S) → Tx S A
run f s = ok (f s)

abbrev pub modify : {S : Type 0} → (S → S) → Tx S (Unit {0})
modify f s = ok (tt, f s)

module _ {S A B : Type 0} where
  abbrev pub continue : Result (A × S) → (A → Tx S B) → Result (B × S)
  continue (ok (a, s)) f = f a s
  continue (err e) f = err e

  infixl 10 ◌>>=◌ ◌>>◌
  abbrev pub ◌>>=◌ : Tx S A → (A → Tx S B) → Tx S B
  ◌>>=◌ m f s = continue (m s) f

  abbrev pub ◌>>◌ : Tx S A → Tx S B → Tx S B
  ◌>>◌ m n s = continue (m s) (λ _. n)

  -- `if x is None: raise …`
  abbrev pub require_some : Option A → Error → (A → Tx S B) → Tx S B
  require_some none e f s = err e
  require_some (some a) e f s = f a s

  -- `if x is None: return …`
  abbrev pub or_return : Option A → B → (A → Tx S B) → Tx S B
  or_return none b f s = ok (b, s)
  or_return (some a) b f s = f a s

module _ {S A : Type 0} where
  -- `if not b: return …`
  abbrev pub return_unless : Bool → A → Tx S A → Tx S A
  return_unless true a m s = m s
  return_unless false a m s = ok (a, s)

  -- `if b: return …`
  abbrev pub return_if : Bool → A → Tx S A → Tx S A
  return_if true a m s = ok (a, s)
  return_if false a m s = m s

  -- A call that reads no table and may raise
  abbrev pub lift : Result A → Tx S A
  lift (ok a) s = ok (a, s)
  lift (err e) s = err e

-- `if not b: raise …`
abbrev pub require : {S : Type 0} → Bool → Error → Tx S (Unit {0})
require true e s = ok (tt, s)
require false e s = err e
