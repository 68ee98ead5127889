-- ===== src/Solution3/Commands/Rows.antt =====
-- The rows of the task commands: one for each id, and what an update of one id does to them.
use metered_compute.Base.{
  ℕ, ◌≡◌, ◌≢◌, refl, Bool, true, Option, none, some, List, [], ◌∷◌, ◌++◌, arith, ◌==◌, inl, inr,
  Bool-cases, if◌then◌else◌,
}
use metered_compute.Solution3.Database.{TaskCommand}
use metered_compute.Solution3.Commands.{find, update_returning}

-- The primary key: no two rows have one id.
abbrev pub IsKeyed : List TaskCommand → Type 0
IsKeyed [] = Unit
IsKeyed (c ∷ rows) = (find c.task_id rows ≡ none) × IsKeyed rows

abbrev pub returned :
    (TaskCommand → Bool) → (TaskCommand → TaskCommand) → Option TaskCommand → Option TaskCommand
returned p f none = none
returned p f (some c) = if p c then some (f c) else none

abbrev pub written :
    (TaskCommand → Bool) → (TaskCommand → TaskCommand) → Option TaskCommand → Option TaskCommand
written p f none = none
written p f (some c) = if p c then some (f c) else some c

pub find-task_id :
    (i : ℕ) (rows : List TaskCommand) (c : TaskCommand) → find i rows ≡ some c → c.task_id ≡ i
unfolding find
find-task_id i [] c h = cc
find-task_id i (d ∷ rows) c h = ground (arith, find-task_id i rows c)

pub find-append :
    (i : ℕ) (rows : List TaskCommand) (c : TaskCommand)
    → find i (rows ++ (c ∷ []))
      ≡ elim (find i rows) [ none ↦ (if c.task_id == i then some c else none) | some d ↦ some d ]
unfolding find
find-append i [] c = ground arith
find-append i (d ∷ rows) c = ground (arith, find-append i rows c)

pub append-IsKeyed :
    (rows : List TaskCommand) (c : TaskCommand)
    → IsKeyed rows
    → find c.task_id rows ≡ none
    → IsKeyed (rows ++ (c ∷ []))
unfolding find
append-IsKeyed [] c k h = (refl, tt)
append-IsKeyed (d ∷ rows) c k h =
    ground (arith, append-IsKeyed rows c k.1, find-append d.task_id rows c, k.0)

-- An update of rows of one id that leaves the ids.
module _ (i : ℕ) (p : TaskCommand → Bool) (f : TaskCommand → TaskCommand)
    (only : (c : TaskCommand) → p c ≡ true → c.task_id ≡ i)
    (keeps : (c : TaskCommand) → (f c).task_id ≡ c.task_id) where
  pub update-other :
      (j : ℕ) (rows : List TaskCommand) → j ≢ i → find j (update_returning p f rows).1 ≡ find j rows
  unfolding update_returning find
  update-other j [] h = refl
  update-other j (c ∷ rows) h = ground (arith, update-other j rows h, only c, keeps c)

  update-none :
      (j : ℕ) (rows : List TaskCommand)
      → find j rows ≡ none
      → find j (update_returning p f rows).1 ≡ none
  unfolding update_returning find
  update-none j [] h = refl
  update-none j (c ∷ rows) h = ground (arith, update-none j rows, keeps c)

  pub update-IsKeyed :
      (rows : List TaskCommand) → IsKeyed rows → IsKeyed (update_returning p f rows).1
  unfolding update_returning
  update-IsKeyed [] k = tt
  update-IsKeyed (c ∷ rows) k =
      ground (arith, update-IsKeyed rows k.1, update-none c.task_id rows k.0, keeps c)

  update-absent :
      (rows : List TaskCommand) → find i rows ≡ none → update_returning p f rows ≡ (none, rows)
  unfolding update_returning find
  update-absent [] h = refl
  update-absent (c ∷ rows) h = ground (arith, update-absent rows, only c)

  -- The row that is returned, and the row of the id after the update.
  pub update-this :
      (rows : List TaskCommand)
      → IsKeyed rows
      → ((update_returning p f rows).0 ≡ returned p f (find i rows))
        × (find i (update_returning p f rows).1 ≡ written p f (find i rows))
  unfolding update_returning find
  update-this [] k = (refl, refl)
  update-this (c ∷ rows) k = elim (Bool-cases (c.task_id == i)) [
    | inl this ↦ ground (arith, update-absent rows, keeps c, k.0)
    | inr that ↦ ground (arith, update-this rows k.1, only c)
  ]

  -- Without a row that is returned the table is the same.
  pub update-same :
      (rows : List TaskCommand)
      → (update_returning p f rows).0 ≡ none
      → (update_returning p f rows).1 ≡ rows
  unfolding update_returning
  update-same [] h = refl
  update-same (c ∷ rows) h = ground (arith, update-same rows)
