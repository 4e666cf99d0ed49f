-- ===== src/Worker/Reporting.antt =====
-- What one turn of the queue worker leaves (`RunQueue` of server/internal/worker/queue.go).
use repo_mender.Prelude.{◌≡◌, refl, true, false, some, Text, is_empty, ℤ, ok}
use repo_mender.Tasks.Status.{awaiting_approval}
use repo_mender.Tasks.Types.{Task, Run, Error, Database}
use repo_mender.Tasks.Tables.{find_run}
use repo_mender.Tasks.Queue.{claim_task, is_report}
use repo_mender.Tasks.Events.{append_run_event}
use repo_mender.Tasks.Invariant.{IsConsistent}
use repo_mender.Worker.{Processor, Tick, reported, core_processor, turn}
use repo_mender.Worker.Turns.{IsHeld, IsReported, claim-IsHeld, held-reports}

-- The tables of tasks and runs are the same.
abbrev pub IsUntouched : Database → Database → Type 0
IsUntouched before after = (after.tasks ≡ before.tasks) × (after.runs ≡ before.runs)

untouched-IsHeld :
    (t : Task) (r : Run) (db after : Database)
    → IsUntouched db after
    → IsHeld t r db
    → IsHeld t r after
untouched-IsHeld t r db after (e, k) h = rw (e, k) h

-- When a turn claims a task of a consistent store under a run identifier that is not empty, and the
-- processor leaves the tables of tasks and runs alone and reports a status that a worker may report, then the turn ends
-- with that status reported, and the task that was claimed has it.
pub turn-reports :
    (process : Processor) (owner : Text) (lease : ℤ) (tick : Tick) (t : Task) (r : Run)
    (db after : Database)
    → IsConsistent db
    → claim_task tick.run_draw tick.correlation_draw tick.db_now tick.claimed_at owner lease db
      ≡ (ok (t, r), after)
    → is_empty r.id ≡ false
    → IsUntouched after (process t r after).1
    → is_report (process t r after).0.status ≡ true
    → ((turn process owner lease tick db).0 ≡ reported (process t r after).0.status)
      × IsReported t (process t r after).0.status (turn process owner lease tick db).1
unfolding turn
turn-reports process owner lease tick t r db after c e named kept valid =
    let held =
      claim-IsHeld tick.run_draw tick.correlation_draw tick.db_now tick.claimed_at owner lease t r
        db after c e in
    let (done, row) =
      held-reports tick.completed_at t r (process t r after).0.status (process t r after).0.code
        (process t r after).0.message (process t r after).1
        (untouched-IsHeld t r after (process t r after).1 kept held) named valid in
    rw (e, done) (refl, row)

core-kept :
    (describe : Error → Text) (tick : Tick) (t : Task) (r : Run) (db : Database)
    → find_run r.id db.runs ≡ some r
    → is_empty r.id ≡ false
    → IsUntouched db (core_processor describe tick.db_now.time t r db).1
      × ((core_processor describe tick.db_now.time t r db).0.status ≡ awaiting_approval)
unfolding core_processor append_run_event
core-kept describe tick t r db e named =
    rw (e, named, core_processor, append_run_event) ((refl, refl), refl)

-- When a turn of the core processor claims a task of a consistent store under a run identifier that
-- is not empty, then the turn ends with awaiting_approval
-- reported, and the task that was claimed awaits approval.
pub turn-core :
    (describe : Error → Text) (owner : Text) (lease : ℤ) (tick : Tick) (t : Task) (r : Run)
    (db after : Database)
    → IsConsistent db
    → claim_task tick.run_draw tick.correlation_draw tick.db_now tick.claimed_at owner lease db
      ≡ (ok (t, r), after)
    → is_empty r.id ≡ false
    → ((turn (core_processor describe tick.db_now.time) owner lease tick db).0
        ≡ reported awaiting_approval)
      × IsReported t awaiting_approval
          (turn (core_processor describe tick.db_now.time) owner lease tick db).1
turn-core describe owner lease tick t r db after c e named =
    let held =
      claim-IsHeld tick.run_draw tick.correlation_draw tick.db_now tick.claimed_at owner lease t r
        db after c e in
    let (kept, waits) = core-kept describe tick t r after held.4 named in
    let out =
      turn-reports (core_processor describe tick.db_now.time) owner lease tick t r db after c e
        named kept (rw waits refl) in
    rw waits at out
