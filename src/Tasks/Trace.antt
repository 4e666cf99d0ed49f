-- ===== src/Tasks/Trace.antt =====
-- Any interleaving of the calls of server/internal/tasks/store.go: each is one transaction, so a run of
-- the system is a list of calls with the random draws and the clocks that they saw.
use repo_mender.Prelude.{List, [], ◌∷◌, Text, ℤ}
use repo_mender.Ids.{Draw}
use repo_mender.Tasks.Status.{Status}
use repo_mender.Tasks.Types.{Time, Snapshot, CreateInput, RunEventInput, AuditInput, Database}
use repo_mender.Tasks.Store.{create_task, cancel_task, retry_task}
use repo_mender.Tasks.Queue.{claim_task, heartbeat, complete_task}
use repo_mender.Tasks.Supersede.{PayloadReader, supersede_code_reviews}
use repo_mender.Tasks.Events.{append_run_event, record_audit}

pub data Call : Type 0 where
  create : Draw → Time → Time → CreateInput → Call
  cancel : Time → Text → Text → Call
  retry : Time → Text → Text → Call
  claim : Draw → Draw → Snapshot → Time → Text → ℤ → Call
  beat : Time → Text → Text → ℤ → Call
  complete : Time → Text → Text → Status → Text → Text → Call
  supersede : PayloadReader → Time → Text → Text → ℤ → Text → Call
  append_event : Time → Text → RunEventInput → Call
  audit : Draw → Time → AuditInput → Call

-- The database after one call.
unfoldable pub perform : Call → Database → Database
perform (create draw now db_now input) db = (create_task draw now db_now input db).1
perform (cancel now id reason) db = (cancel_task now id reason db).1
perform (retry now id reason) db = (retry_task now id reason db).1
perform (claim r c db_now now owner lease) db = (claim_task r c db_now now owner lease db).1
perform (beat now id owner lease) db = (heartbeat now id owner lease db).1
perform (complete now task run status code message) db =
    (complete_task now task run status code message db).1
perform (supersede json db_now repository provider pull_request task) db =
    (supersede_code_reviews json db_now repository provider pull_request task db).1
perform (append_event db_now run_id input) db = (append_run_event db_now run_id input db).1
perform (audit draw db_now input) db = (record_audit draw db_now input db).1

unfoldable pub perform_all : List Call → Database → Database
perform_all [] db = db
perform_all (c ∷ cs) db = perform_all cs (perform c db)
