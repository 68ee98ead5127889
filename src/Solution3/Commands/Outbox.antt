-- ===== src/Solution3/Commands/Outbox.antt =====
-- The outbox of solutions/3_solution/src/solution3/db/repository.py: what the relay reads, and marks as published.
use metered_compute.Base.{ℕ, zero, suc, Bool, true, false, List, [], ◌∷◌, ◌==◌, if◌then◌else◌}
use metered_compute.Solution3.Database.{OutboxEvent, Database}

-- `fetch_unpublished_outbox_events`: the oldest that are not published, in their order
abbrev take_unpublished : ℕ → List OutboxEvent → List OutboxEvent
take_unpublished limit [] = []
take_unpublished zero (e ∷ events) = []
take_unpublished (suc n) (e ∷ events) =
    if e.published then take_unpublished (suc n) events else e ∷ take_unpublished n events

unfoldable pub fetch_unpublished_outbox_events : (limit : ℕ) → Database → List OutboxEvent
fetch_unpublished_outbox_events limit db = take_unpublished limit db.outbox

abbrev pub mem : ℕ → List ℕ → Bool
mem i [] = false
mem i (j ∷ ids) = if i == j then true else mem i ids

unfoldable pub publish : List ℕ → List OutboxEvent → List OutboxEvent
publish ids [] = []
publish ids (e ∷ events) =
    (if mem e.event_id ids then record e { published = true } else e) ∷ publish ids events

unfoldable pub mark_outbox_events_published : List ℕ → Database → Database
unfolding publish
mark_outbox_events_published ids db = record db { outbox = publish ids db.outbox }
