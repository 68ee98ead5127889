-- ===== src/Solution3/Reachable/Settlement.antt =====
-- What holds of the database whatever the services do, in whatever order.
use metered_compute.Base.{ℕ, ◌≡◌, refl, true, none, some}
use metered_compute.Solution3.Database.{TaskCommand, Database, is_terminal}
use metered_compute.Solution3.Commands.{find}
use metered_compute.Solution3.Commands.Settled.{IsSettled, IsSound}
use metered_compute.Solution3.Commands.Sound.{
  submit-IsSound, cancel-IsSound, start-IsSound, finalize-IsSound, expire-IsSound, align-IsSound,
  publish-IsSound, IsSound-elsewhere,
}
use metered_compute.Solution3.Projection.Messages.{apply_task_projection_same, rebuild_same}
use metered_compute.Solution3.Projection.{
  reset_projection_state, rebuild_task_query_view_from_commands,
}
use metered_compute.Solution3.Reachable.{
  Step, submit, cancel, start, complete, fail, expire, align, mark_published, project, reset,
  rebuild, tick, Reach, here, later,
}

Step-IsSound : {s t : Database} → Step s t → IsSettled s → IsSound s t
unfolding reset_projection_state rebuild_task_query_view_from_commands
Step-IsSound {s} (submit c) h = submit-IsSound c s h
Step-IsSound {s} (cancel i) h = cancel-IsSound i s h
Step-IsSound {s} (start i) h = start-IsSound i s h
Step-IsSound {s} (complete i result) h = finalize-IsSound i _ _ result none s refl h
Step-IsSound {s} (fail i error) h = finalize-IsSound i _ _ none error s refl h
Step-IsSound {s} (expire i transfer_id secs) h = expire-IsSound i transfer_id secs s h
Step-IsSound {s} (align task status billing_state resolution secs row t e) h =
    align-IsSound task status billing_state resolution secs s row t e h
Step-IsSound {s} (mark_published ids) h = publish-IsSound ids s h
Step-IsSound {s} (project consumer_name projector_name m) h =
    let (a, b) = apply_task_projection_same consumer_name projector_name m s in
    IsSound-elsewhere s _ a b h
Step-IsSound {s} (reset consumer_name projector_name) h = IsSound-elsewhere s _ refl refl h
Step-IsSound {s} rebuild h = let (a, b) = rebuild_same s in IsSound-elsewhere s _ a b h
Step-IsSound {s} tick h = IsSound-elsewhere s _ refl refl h

-- From a database in which each task has one row and as many terminal events as it has ended, every
-- database that the transactions reach, in any order and with any arguments, is such a one: no task
-- is announced as ended twice, none that has ended goes unannounced, and none is announced as ended
-- while it is pending or running.
pub Reach-IsSettled : {s t : Database} → Reach s t → IsSettled s → IsSettled t
Reach-IsSettled here h = h
Reach-IsSettled (later r e) h = (Step-IsSound e (Reach-IsSettled r h)).settled

-- A task that has ended, as completed, failed, cancelled or expired, is never written again: its row
-- is the same in every database that the transactions reach.
pub Reach-IsKept :
    {s t : Database} (r : Reach s t)
    → IsSettled s
    → (i : ℕ) (c : TaskCommand) → find i s.commands ≡ some c
    → is_terminal c.status ≡ true
    → find i t.commands ≡ some c
Reach-IsKept here h i c e ends = e
Reach-IsKept (later r step) h i c e ends =
    (Step-IsSound step (Reach-IsSettled r h)).kept i c (Reach-IsKept r h i c e ends) ends
