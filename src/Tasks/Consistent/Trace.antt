-- ===== src/Tasks/Consistent/Trace.antt =====
-- The task tables over any list of calls of the store (server/internal/tasks/store.go).
use repo_mender.Prelude.{◌≡◌, false, List, [], ◌∷◌, is_empty}
use repo_mender.Tasks.Types.{Database}
use repo_mender.Tasks.Trace.{
  Call, create, cancel, retry, claim, beat, complete, supersede, append_event, audit, perform,
  perform_all,
}
use repo_mender.Tasks.Events.{append_run_event, record_audit}
use repo_mender.Tasks.Invariant.{IsConsistent}
use repo_mender.Tasks.Consistent.{
  cancel_task-IsConsistent, retry_task-IsConsistent, heartbeat-IsConsistent,
}
use repo_mender.Tasks.Consistent.Queue.{
  claim_task-IsConsistent, complete_task-IsConsistent, supersede_code_reviews-IsConsistent,
}
use repo_mender.Tasks.Consistent.Create.{
  DrawsFresh, create_task-IsConsistent, append_run_event-tables, record_audit-tables,
}

-- What the callers of the store keep to: no run names a new identifier, a worker completes the run
-- that it claimed, and a review is superseded by a task.
abbrev pub IsProper : Call → Database → Type 0
IsProper (create draw now db_now input) db = DrawsFresh draw db
IsProper (complete now task run status code message) db = is_empty run ≡ false
IsProper (supersede json db_now repository provider pull_request task) db = is_empty task ≡ false
IsProper _ db = Unit {0}

abbrev pub AllProper : List Call → Database → Type 0
AllProper [] db = Unit {0}
AllProper (c ∷ cs) db = IsProper c db × AllProper cs (perform c db)

-- Only the two tables matter.
same_tables :
    (db after : Database)
    → (after.tasks ≡ db.tasks) × (after.runs ≡ db.runs)
    → IsConsistent db
    → IsConsistent after
same_tables db after e h = record { distinct = rw e.0 h.distinct; sound = rw (e.0, e.1) h.sound }

-- One call of any kind keeps the tables consistent, if it is a proper one.
pub perform-IsConsistent :
    (c : Call) (db : Database) → IsProper c db → IsConsistent db → IsConsistent (perform c db)
unfolding perform
perform-IsConsistent (create draw now db_now input) db p h =
    create_task-IsConsistent db h draw now db_now input p
perform-IsConsistent (cancel now id reason) db p h = cancel_task-IsConsistent db h now id reason
perform-IsConsistent (retry now id reason) db p h = retry_task-IsConsistent db h now id reason
perform-IsConsistent (claim r c db_now now owner lease) db p h =
    claim_task-IsConsistent db h r c db_now now owner lease
perform-IsConsistent (beat now id owner lease) db p h =
    heartbeat-IsConsistent db h now id owner lease
perform-IsConsistent (complete now task run status code message) db p h =
    complete_task-IsConsistent db h now task run status code message p
perform-IsConsistent (supersede json db_now repository provider pull_request task) db p h =
    supersede_code_reviews-IsConsistent db h json db_now repository provider pull_request task p
perform-IsConsistent (append_event now run_id input) db p h =
    same_tables db (append_run_event now run_id input db).1
      (append_run_event-tables now run_id input db) h
perform-IsConsistent (audit draw now input) db p h =
    same_tables db (record_audit draw now input db).1 (record_audit-tables draw now input db) h

-- From a consistent database, every list of proper calls leads to a consistent one: no identifier of
-- a task is used twice, and each task has as many runs as attempts, within its cap, has one running
-- run and a lease's end while it is running, else no running run and no lease, and names a successor
-- only when superseded. A call is proper when no run names the identifier that a creation draws, and when
-- the run of a completion, and the task of a superseding, is named.
pub perform_all-IsConsistent :
    (cs : List Call) (db : Database)
    → AllProper cs db
    → IsConsistent db
    → IsConsistent (perform_all cs db)
unfolding perform_all
perform_all-IsConsistent [] db p h = h
perform_all-IsConsistent (c ∷ cs) db p h =
    perform_all-IsConsistent cs (perform c db) p.1 (perform-IsConsistent c db p.0 h)
