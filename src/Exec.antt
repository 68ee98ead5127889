-- ===== src/Exec.antt =====
-- Handlers that change shared state and may raise. What was written before a raise stays written,
-- so the state comes back beside the error too.
pub mod Ends
use metered_compute.Base.{ℕ, ◌≡◌, ◌⊎◌, refl, inl, inr, String, Bool, true, false}

-- A raised `HTTPException` has a status code and a detail; the other exceptions are those that the
-- handlers catch.
pub data Error : Type 0 where
  http_exception : ℕ → String → Error
  unique_violation foreign_key_violation check_violation task_cancellation_conflict : Error
  runtime_error value_error : String → Error

pub data Result (A : Type 0) : Type 0 where
  ok : A → Result A
  err : Error → Result A

pub Result-cases :
    {A : Type 0} (r : Result A) → ((a : A) × (r ≡ ok a)) ⊎ ((e : Error) × (r ≡ err e))
Result-cases (ok a) = inl (a, refl)
Result-cases (err e) = inr (e, refl)

abbrev pub Exec : Type 0 → Type 0 → Type 0
Exec S A = S → Result A × S

module _ {S A : Type 0} where
  unfoldable pub pure : A → Exec S A
  pure a s = (ok a, s)

  unfoldable pub raise : Error → Exec S A
  raise e s = (err e, s)

  unfoldable pub gets : (S → A) → Exec S A
  gets f s = (ok (f s), s)

unfoldable pub modify : {S : Type 0} → (S → S) → Exec S (Unit {0})
modify f s = (ok tt, f s)

module _ {S A B : Type 0} where
  abbrev pub continue : Result A → (A → Exec S B) → Exec S B
  continue (ok a) f s = f a s
  continue (err e) f s = (err e, s)

  -- `try: … except …: …`, with what follows when nothing is raised
  abbrev pub handle : Result A → (A → Exec S B) → (Error → Exec S B) → Exec S B
  handle (ok a) f g s = f a s
  handle (err e) f g s = g e s

  infixl 10 ◌>>=◌ ◌>>◌
  -- Opening this opens `pure`, `raise`, `gets` and `modify` too.
  unfoldable pub ◌>>=◌ : Exec S A → (A → Exec S B) → Exec S B
  unfolding pure raise gets modify
  ◌>>=◌ m f s = let (r, s') = m s in continue r f s'

  abbrev pub ◌>>◌ : Exec S A → Exec S B → Exec S B
  m >> n = m >>= λ _. n

  unfoldable pub try_except : Exec S A → (A → Exec S B) → (Error → Exec S B) → Exec S B
  unfolding ◌>>=◌
  try_except m f g s = let (r, s') = m s in handle r f g s'

-- `if not c: raise e`
unfoldable pub require : {S : Type 0} → Bool → Error → Exec S (Unit {0})
unfolding pure raise
require true e = pure tt
require false e = raise e
