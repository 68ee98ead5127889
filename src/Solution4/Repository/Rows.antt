-- ===== src/Solution4/Repository/Rows.antt =====
-- The rows of `tasks`: the compare-and-set of a status, one row for each id.
use metered_compute.Base.{
  ℕ, ◌≡◌, ◌≢◌, refl, true, Option, none, some, List, [], ◌∷◌, arith, ◌==◌, Bool, Bool-cases, inl,
  inr, ◌↔◌, if◌then◌else◌,
}
use metered_compute.Solution4.Gateway.{ComputeResult}
use metered_compute.Solution4.World.{Status, same_status, Task}
use metered_compute.Solution4.Repository.{select, update_where, has_id, matches, write}

-- The status of a task in a table.
unfoldable pub status_of : ℕ → List Task → Option Status
status_of task_id [] = none
status_of task_id (t ∷ tasks) =
    if t.task_id == task_id then some t.status else status_of task_id tasks

-- The primary key: no two rows have one id.
abbrev pub IsKeyed : List Task → Type 0
IsKeyed [] = Unit
IsKeyed (t ∷ tasks) = (status_of t.task_id tasks ≡ none) × IsKeyed tasks

pub same_status_iff : (s t : Status) → same_status s t ≡ true → s ≡ t
same_status_iff s t h = ground arith

pub same_status_refl : (s : Status) → same_status s s ≡ true
same_status_refl s = ground arith

pub status_of-select :
    (i : ℕ) (tasks : List Task)
    → (elim (select (has_id i) tasks) [ none ↦ none | some t ↦ some t.status ]) ≡ status_of i tasks
unfolding select status_of
status_of-select i [] = refl
status_of-select i (t ∷ tasks) = ground (arith, status_of-select i tasks)

-- An update of rows of one task that leaves their ids.
module _ (i : ℕ) (p : Task → Bool) (f : Task → Task)
    (only : (t : Task) → p t ≡ true → t.task_id ≡ i)
    (keeps : (t : Task) → (f t).task_id ≡ t.task_id) where
  status_of-update_where :
      (j : ℕ) (tasks : List Task)
      → j ≢ i
      → status_of j (update_where p f tasks).1 ≡ status_of j tasks
  unfolding update_where status_of
  status_of-update_where j [] h = refl
  status_of-update_where j (t ∷ tasks) h =
      ground (arith, status_of-update_where j tasks h, only t, keeps t)

  status_of-update_none :
      (j : ℕ) (tasks : List Task)
      → status_of j tasks ≡ none
      → status_of j (update_where p f tasks).1 ≡ none
  unfolding update_where status_of
  status_of-update_none j [] h = refl
  status_of-update_none j (t ∷ tasks) h = ground (arith, status_of-update_none j tasks, keeps t)

  update_where-IsKeyed : (tasks : List Task) → IsKeyed tasks → IsKeyed (update_where p f tasks).1
  unfolding update_where
  update_where-IsKeyed [] k = tt
  update_where-IsKeyed (t ∷ tasks) k =
      ground
        (arith, update_where-IsKeyed tasks k.1, status_of-update_none t.task_id tasks k.0, keeps t)

  -- With no row of the task nothing is written.
  update_where-absent :
      (tasks : List Task) → status_of i tasks ≡ none → update_where p f tasks ≡ (0, tasks)
  unfolding update_where status_of
  update_where-absent [] h = refl
  update_where-absent (t ∷ tasks) h = ground (arith, update_where-absent tasks, only t)

write-task_id :
    (new : Status) (r : Option ComputeResult) (t : Task) → (write new r t).task_id ≡ t.task_id
write-task_id new none t = refl
write-task_id new (some r) t = refl

write-status : (new : Status) (r : Option ComputeResult) (t : Task) → (write new r t).status ≡ new
write-status new none t = refl
write-status new (some r) t = refl

module _ (i : ℕ) (expected : Status) where
  matches_only : (t : Task) → matches i expected t ≡ true → t.task_id ≡ i
  matches_only t h = ground arith

  matches_iff : (t : Task) → t.task_id ≡ i → (matches i expected t ≡ true) ↔ (t.status ≡ expected)
  matches_iff t h = ground (arith, same_status_iff t.status expected, same_status_refl expected)

module _ (i : ℕ) (new expected : Status) (r : Option ComputeResult) where
  abbrev updated : List Task → ℕ × List Task
  updated tasks = update_where (matches i expected) (write new r) tasks

  pub update-absent : (tasks : List Task) → status_of i tasks ≡ none → updated tasks ≡ (0, tasks)
  update-absent =
      update_where-absent i (matches i expected) (write new r) (matches_only i expected)
        (write-task_id new r)

  -- The row of another task stays.
  pub update-other :
      (j : ℕ) (tasks : List Task) → j ≢ i → status_of j (updated tasks).1 ≡ status_of j tasks
  update-other =
      status_of-update_where i (matches i expected) (write new r) (matches_only i expected)
        (write-task_id new r)

  pub update-IsKeyed : (tasks : List Task) → IsKeyed tasks → IsKeyed (updated tasks).1
  update-IsKeyed =
      update_where-IsKeyed i (matches i expected) (write new r) (matches_only i expected)
        (write-task_id new r)

  -- With another status nothing is written.
  pub update-miss :
      (tasks : List Task)
      → IsKeyed tasks
      → status_of i tasks ≢ some expected
      → updated tasks ≡ (0, tasks)
  unfolding update_where status_of
  update-miss [] k h = refl
  update-miss (t ∷ tasks) k h =
      ground (arith, update-miss tasks k.1, update-absent tasks, same_status_iff t.status expected)

  pub update-hit :
      (tasks : List Task)
      → IsKeyed tasks
      → status_of i tasks ≡ some expected
      → ((updated tasks).0 ≡ 1) × (status_of i (updated tasks).1 ≡ some new)
  unfolding update_where status_of
  update-hit [] k h = cc
  update-hit (t ∷ tasks) k h = elim (Bool-cases (t.task_id == i)) [
    | inl this ↦ ground (
      arith,
      update-absent tasks,
      same_status_refl expected,
      write-status new r t,
      write-task_id new r t,
    )
    | inr that ↦ ground (arith, update-hit tasks k.1)
  ]

  -- The whole row after an update
  pub update-row :
      (tasks : List Task) (t : Task)
      → IsKeyed tasks
      → status_of i tasks ≡ some expected
      → select (has_id i) tasks ≡ some t
      → select (has_id i) (updated tasks).1 ≡ some (write new r t)
  unfolding update_where status_of select
  update-row [] t k h e = cc
  update-row (q ∷ tasks) t k h e = elim (Bool-cases (q.task_id == i)) [
    | inl this ↦
        let same : q ≡ t = ground (arith, e, this) in
        ground (arith, same_status_refl expected, write-task_id new r q, same)
    | inr that ↦ ground (arith, update-row tasks t k.1)
  ]
