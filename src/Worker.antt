-- ===== src/Worker.antt =====
-- The queue worker: server/internal/worker/queue.go.
pub mod Turns
pub mod Reporting
mod Tests
use repo_mender.Prelude.{
  Bool, true, false, ◌||◌, Option, none, some, List, [], ◌∷◌, Text, text, ℤ, pos, leb_ℤ, is_blank,
  find, Result, ok, err, if◌then◌else◌,
}
use repo_mender.Ids.{Draw}
use repo_mender.Tasks.Status.{Kind, Status, failed, awaiting_approval, kind_eq}
use repo_mender.Tasks.Types.{
  Snapshot, Time, Task, Run, RunEvent, RunEventInput, Error, task_not_found, Database,
}
use repo_mender.Tasks.Queue.{claim_task, complete_task}
use repo_mender.Tasks.Events.{append_run_event}

-- A status, a code and a message.
pub record Report : Type 0 where
  pub status : Status
  pub code : Text
  pub message : Text

-- `TaskProcessor`
abbrev pub Processor : Type 0
Processor = Task → Run → Database → Report × Database

-- `MultiplexProcessor`
pub record Registration : Type 0 where
  pub kind : Kind
  pub processor : Processor

unfoldable pub unavailable : Processor
unavailable task run db = (
  record {
    status = failed;
    code = text "processor_unavailable";
    message = text "task processor is unavailable";
  },
  db,
)

unfoldable pub or_unavailable : Option Processor → Processor
unfolding unavailable
or_unavailable none = unavailable
or_unavailable (some p) = p

unfoldable pub multiplex : Option Processor → List Registration → Processor
unfolding or_unavailable
multiplex fallback processors task run db = elim (find (λ r. kind_eq r.kind task.kind) processors) [
  | none ↦ or_unavailable fallback task run db
  | some r ↦ r.processor task run db
]

unfoldable pub core_report : (Error → Text) → Result Error RunEvent × Database → Report × Database
core_report describe (err e, db) =
    (record { status = failed; code = text "m4_event_persist_failed"; message = describe e }, db)
core_report describe (ok v, db) = (
  record { status = awaiting_approval; code = []; message = text "business processor pending" },
  db,
)

abbrev pub claimed_line : RunEventInput
claimed_line = record {
  kind = text "status";
  stream = [];
  message = text "M4 worker claimed task; business processor pending";
  payload = none;
  terminal = false;
}

-- `CoreProcessor.Process` of a processor that has its service; `describe` is the `Error` method of
-- the errors of the store.
unfoldable pub core_processor : (Error → Text) → Time → Processor
unfolding core_report
core_processor describe db_now task run db =
    core_report describe (append_run_event db_now run.id claimed_line db)

-- How one turn of the loop ends: nothing to do, a report, or an error that stops the loop.
pub data Turn : Type 0 where
  idle : Turn
  reported : Status → Turn
  stopped : Error → Turn

unfoldable pub finished_turn : Status → Result Error (Unit {0}) × Database → Turn × Database
finished_turn status (ok u, db) = (reported status, db)
finished_turn status (err e, db) = (stopped e, db)

unfoldable pub processed_turn : Time → Task → Run → Report × Database → Turn × Database
unfolding finished_turn
processed_turn now task run (report, db) =
    finished_turn report.status
      (complete_task now task.id run.id report.status report.code report.message db)

unfoldable pub claimed_turn :
    Processor → Time → Result Error (Task × Run) × Database → Turn × Database
unfolding processed_turn
claimed_turn process now (err task_not_found, db) = (idle, db)
claimed_turn process now (err e, db) = (stopped e, db)
claimed_turn process now (ok (task, run), db) = processed_turn now task run (process task run db)

-- The clocks and the draws of one turn.
pub record Tick : Type 0 where
  pub run_draw : Draw
  pub correlation_draw : Draw
  pub db_now : Snapshot
  pub claimed_at : Time
  pub completed_at : Time

unfoldable pub turn : Processor → Text → ℤ → Tick → Database → Turn × Database
unfolding claimed_turn
turn process owner lease tick db =
    claimed_turn process tick.completed_at
      (claim_task tick.run_draw tick.correlation_draw tick.db_now tick.claimed_at owner lease db)

-- `RunQueue`, over the ticks until the context is done: the error that stopped it, if any did.
unfoldable pub run_ticks : Processor → Text → ℤ → List Tick → Database → Option Error × Database
run_ticks process owner lease [] db = (none, db)
run_ticks process owner lease (tick ∷ ticks) db =
    let (end, after) = turn process owner lease tick db in
    elim end [
      | idle ↦ run_ticks process owner lease ticks after
      | reported status ↦ run_ticks process owner lease ticks after
      | stopped e ↦ (some e, after)
    ]

-- How `RunQueue` returns.
pub data Exit : Type 0 where
  refused : Exit
  returned : Option Error → Exit

-- `RunQueue`: its checks, then the loop.
unfoldable pub run_queue : ℤ → ℤ → Text → Option Processor → List Tick → Database → Exit × Database
unfolding run_ticks
run_queue poll lease owner none ticks db = (refused, db)
run_queue poll lease owner (some process) ticks db =
    if leb_ℤ poll (pos 0) || leb_ℤ lease (pos 0) || is_blank owner
    then (refused, db)
    else (let (stop, after) = run_ticks process owner lease ticks db in (returned stop, after))
