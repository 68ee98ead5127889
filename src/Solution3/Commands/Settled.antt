-- ===== src/Solution3/Commands/Settled.antt =====
-- How the transactions keep the outbox in step with the commands.
use metered_compute.Base.{
  ap, sym, ℕ, ◌+◌, ◌≡◌, ◌≢◌, Bool, true, false, ◌&&◌, Option, none, some, List, [], ◌∷◌, ◌++◌,
  arith, ◌==◌, inl, inr, Bool-cases, if◌then◌else◌,
}
use metered_compute.Solution3.Database.{
  is_terminal, is_terminal_topic, TaskCommand, Topic, OutboxEvent, Database,
}
use metered_compute.Solution3.Commands.{find, update_returning, when_updated}
use metered_compute.Solution3.Commands.Rows.{
  IsKeyed, returned, written, update-this, update-other, update-IsKeyed,
}

abbrev pub is_terminal_of : ℕ → OutboxEvent → Bool
is_terminal_of i e = e.aggregate_id == i && is_terminal_topic e.topic

-- The number of terminal events of a task in the outbox.
unfoldable pub terminal_events : ℕ → List OutboxEvent → ℕ
terminal_events i [] = 0
terminal_events i (e ∷ events) =
    let n = terminal_events i events in if is_terminal_of i e then n + 1 else n

abbrev pub weight : Option TaskCommand → ℕ
weight none = 0
weight (some c) = if is_terminal c.status then 1 else 0

-- Each command has one row, and each task has as many terminal events as it has ended: one or none.
pub record IsSettled (db : Database) : Type 0 where
  pub keyed : IsKeyed db.commands
  pub once : (i : ℕ) → terminal_events i db.outbox ≡ weight (find i db.commands)

-- The row of a task that has ended is never written again.
abbrev pub IsKept : Database → Database → Type 0
IsKept db db' =
    (i : ℕ) (c : TaskCommand)
    → find i db.commands ≡ some c
    → is_terminal c.status ≡ true
    → find i db'.commands ≡ some c

pub record IsSound (db db' : Database) : Type 0 where
  pub settled : IsSettled db'
  pub kept : IsKept db db'

pub terminal_events-append :
    (i : ℕ) (events : List OutboxEvent) (e : OutboxEvent)
    → terminal_events i (events ++ (e ∷ []))
      ≡ terminal_events i events + (if is_terminal_of i e then 1 else 0)
unfolding terminal_events
terminal_events-append i [] e = ground arith
terminal_events-append i (d ∷ events) e = ground (arith, terminal_events-append i events e)

abbrev pub mark : ℕ → Topic → ℕ → ℕ
mark i topic j = if i == j && is_terminal_topic topic then 1 else 0

pub IsSound-same : (db : Database) → IsSettled db → IsSound db db
IsSound-same db h = record { settled = h; kept = λ i c e t. e }

-- An update of the open row of a task, with its event.
module _ (i : ℕ) (p : TaskCommand → Bool) (f : TaskCommand → TaskCommand) (topic : Topic)
    (only : (c : TaskCommand) → p c ≡ true → c.task_id ≡ i)
    (was_open : (c : TaskCommand) → p c ≡ true → is_terminal c.status ≡ false)
    (keeps : (c : TaskCommand) → (f c).task_id ≡ c.task_id)
    (topical : (c : TaskCommand) → is_terminal (f c).status ≡ is_terminal_topic topic)
    (g : TaskCommand → Database → Database)
    (same_commands : (c : TaskCommand) (db : Database) → (g c db).commands ≡ db.commands)
    (adds : (c : TaskCommand) (db : Database) (j : ℕ)
      → terminal_events j (g c db).outbox ≡ terminal_events j db.outbox + mark i topic j) where
  weighs :
      (old : Option TaskCommand) (c : TaskCommand)
      → returned p f old ≡ some c
      → weight (written p f old) ≡ weight old + (if is_terminal_topic topic then 1 else 0)
  weighs none c h = cc
  weighs (some d) c h = ground (arith, was_open d, topical d)

  stays :
      (old : Option TaskCommand) (c : TaskCommand)
      → old ≡ some c
      → is_terminal c.status ≡ true
      → written p f old ≡ some c
  stays none c h t = cc
  stays (some d) c h t = ground (arith, was_open d)

  when_updated-IsSound_at :
      (db : Database) (row : Option TaskCommand) (rows : List TaskCommand)
      → IsSettled db
      → IsKeyed rows
      → row ≡ returned p f (find i db.commands)
      → find i rows ≡ written p f (find i db.commands)
      → ((j : ℕ) → j ≢ i → find j rows ≡ find j db.commands)
      → IsSound db (when_updated (row, rows) g db).1
  when_updated-IsSound_at db none rows h k a b o = IsSound-same db h
  when_updated-IsSound_at db (some c) rows h k a b o = record {
    settled = record { keyed = keyed; once = once };
    kept = kept;
  }
    where
      db' : Database
      db' = record db { commands = rows }

      keyed : IsKeyed (g c db').commands
      keyed = rw (same_commands c db') k

      row_of : (j : ℕ) → find j (g c db').commands ≡ find j rows
      row_of j = ap (find j) (same_commands c db')

      once_this : terminal_events i (g c db').outbox ≡ weight (find i (g c db').commands)
      once_this =
          ground (arith, adds c db' i, b, h.once i, weighs (find i db.commands) c (sym a), row_of i)

      once : (j : ℕ) → terminal_events j (g c db').outbox ≡ weight (find j (g c db').commands)
      once j = elim (Bool-cases (i == j)) [
        | inl this ↦ let e : i ≡ j = ground arith in cc (e, once_this)
        | inr that ↦ ground (arith, adds c db' j, h.once j, o j (λ e. ground arith), row_of j)
      ]

      kept_this :
          (d : TaskCommand)
          → find i db.commands ≡ some d
          → is_terminal d.status ≡ true
          → find i (g c db').commands ≡ some d
      kept_this d e t = cc (row_of i, b, stays (find i db.commands) d e t)

      kept : IsKept db (g c db')
      kept j d e t = elim (Bool-cases (i == j)) [
        | inl this ↦ let q : i ≡ j = ground arith in cc (q, kept_this d (cc (e, q)) t)
        | inr that ↦ cc (row_of j, o j (λ q. ground arith), e)
      ]

  pub when_updated-IsSound :
      (db : Database)
      → IsSettled db
      → IsSound db (when_updated (update_returning p f db.commands) g db).1
  when_updated-IsSound db h =
      let (a, b) = update-this i p f only keeps db.commands h.keyed in
      when_updated-IsSound_at db (update_returning p f db.commands).0
        (update_returning p f db.commands).1 h (update-IsKeyed i p f only keeps db.commands h.keyed)
        a b (λ j. update-other i p f only keeps j db.commands)
