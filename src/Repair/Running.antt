-- ===== src/Repair/Running.antt =====
-- `runAC` of server/internal/repair/processor.go: one run of the agent, with its events.
use repo_mender.Prelude.{
  Bool, true, false, Option, none, some, List, [], ◌∷◌, ◌++◌, Text, text, is_empty, ℤ, pos, leb_ℤ,
  Result, ok, err, if◌then◌else◌,
}
use repo_mender.Tasks.Types.{Task, Run, RunEvent, RunEventInput, Database}
use repo_mender.Tasks.Types as Tasks
use repo_mender.Tasks.Events.{append_run_event}
use repo_mender.Repair.Types.{Time, Repair, Error, invalid_patch, adapter_failed, task_failed}
use repo_mender.Repair.World.{Codec, Adapter, ExecutionRequest, ExecutionEvent, Config}

-- What `runAC` returns: the output, or a code and an error.
abbrev pub RunResult : Type 0
RunResult = Result (Text × Error) Text × Database

unfoldable pub append_all :
    Time → Text → List ExecutionEvent → Database → Result Error (Unit {0}) × Database
append_all db_now run_id [] db = (ok tt, db)
append_all db_now run_id (e ∷ es) db =
    let (result, after) =
      append_run_event db_now run_id
        (record {
          kind = e.kind;
          stream = e.stream;
          message = e.message;
          payload = some e.json;
          terminal = e.terminal;
        })
        db in
    elim result [ err x ↦ (err task_failed, after) | ok v ↦ append_all db_now run_id es after ]

abbrev pub status_event : Text → Text → Option Text → RunEventInput
status_event kind message payload = record {
  kind = kind;
  stream = [];
  message = message;
  payload = payload;
  terminal = false;
}

unfoldable pub finished_run : Option Text → Database → RunResult
finished_run none db = (err (text "m8_ac_result_failed", adapter_failed), db)
finished_run (some output) db =
    if is_empty output
    then (err (text "m8_ac_result_invalid", invalid_patch), db)
    else (ok output, db)

unfoldable pub streamed_run : Adapter → Text → Bool → Result Error (Unit {0}) × Database → RunResult
unfolding finished_run
streamed_run adapter id fine (err e, db) = (err (text "m8_event_persist_failed", e), db)
streamed_run adapter id false (ok u, db) = (err (text "m8_ac_stream_failed", adapter_failed), db)
streamed_run adapter id true (ok u, db) = finished_run (adapter.result id) db

unfoldable pub announced_run :
    Adapter → Time → Text → Text → Result Tasks.Error RunEvent × Database → RunResult
unfolding streamed_run append_all
announced_run adapter db_now run_id id (err e, db) =
    (err (text "m8_event_persist_failed", task_failed), db)
announced_run adapter db_now run_id id (ok v, db) =
    streamed_run adapter id (adapter.events id).1
      (append_all db_now run_id (adapter.events id).0 db)

unfoldable pub started_run : Codec → Adapter → Time → Text → Option Text → Database → RunResult
unfolding announced_run
started_run codec adapter db_now run_id none db =
    (err (text "m8_ac_start_failed", adapter_failed), db)
started_run codec adapter db_now run_id (some id) db = announced_run adapter db_now run_id id (
    append_run_event db_now run_id
      (status_event (text "external_run") (text "M8 AC repair phase started")
        (some (codec.encode_external_run id)))
      db)

-- 15 minutes
abbrev pub default_timeout : ℤ
default_timeout = pos 900000000000

unfoldable pub execution_request : Config → Task → Run → Repair → Text → Text → ExecutionRequest
execution_request config task run r prompt schema = record {
  correlation_id = run.correlation_id;
  project_id = if is_empty config.project_id then task.repository_id else config.project_id;
  agent_name = if is_empty config.agent_name then text "codex" else config.agent_name;
  repository = r.clone_url;
  commit_sha = r.base_sha;
  prompt = prompt;
  timeout = if leb_ℤ config.timeout (pos 0) then default_timeout else config.timeout;
  output_schema = schema;
  driver = text "docker";
  cleanup = text "remove";
  network_enabled = false;
}

unfoldable pub noted_run :
    Config
    → Codec
    → Adapter
    → Time
    → Task
    → Run
    → Repair
    → Text
    → Text
    → Result Tasks.Error RunEvent × Database
    → RunResult
unfolding started_run
noted_run config codec adapter db_now task run r prompt schema (err e, db) =
    (err (text "m8_event_persist_failed", task_failed), db)
noted_run config codec adapter db_now task run r prompt schema (ok v, db) =
    started_run codec adapter db_now run.id
      (adapter.start (execution_request config task run r prompt schema)) db

-- `runAC`
unfoldable pub run_ac :
    Config → Codec → Adapter → Time → Task → Run → Repair → Text → Text → Database → RunResult
unfolding noted_run
run_ac config codec adapter db_now task run r prompt schema db =
    noted_run config codec adapter db_now task run r prompt schema (
      append_run_event db_now run.id
        (status_event (text "status") (text "starting M8 AC repair phase at " ++ r.base_sha) none)
        db)
