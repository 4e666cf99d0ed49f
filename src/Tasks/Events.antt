-- ===== src/Tasks/Events.antt =====
-- Runs as they are read, run events and the audit log: server/internal/tasks/store.go.
use repo_mender.Prelude.{
  ℕ, ◌+◌, Bool, ◌&&◌, ◌||◌, none, some, List, [], ◌∷◌, ◌++◌, Text, text, text_eq, is_empty, ℤ, pos,
  ltb_ℤ, select, take, is_some, order_by, Result, ok, err, ltb, leb, if◌then◌else◌,
}
use repo_mender.Ids.{Draw, new_id}
use repo_mender.Tasks.Types.{
  Time, Run, RunEvent, RunEventInput, AuditEvent, AuditInput, Error, task_not_found, run_not_found,
  random_failed, Database, Operation,
}
use repo_mender.Tasks.Tables.{find_task, find_run, clamp_limit}
use repo_mender.Tasks.Store.{or_default}

unfoldable pub get_run : Text → Operation Run
get_run id db = elim (find_run id db.runs) [
  | none ↦ (err run_not_found, db)
  | some run ↦ (ok run, db)
]

abbrev latest_attempt : Run → Run → Bool
latest_attempt a b = ltb b.attempt a.attempt

unfoldable pub list_runs : Text → Database → Result Error (List Run)
list_runs task_id db =
    if is_some (find_task task_id db.tasks)
    then ok (order_by latest_attempt (select (λ r. text_eq r.task_id task_id) db.runs))
    else err task_not_found

abbrev newest_run : Run → Run → Bool
newest_run a b = ltb b.created_at a.created_at

unfoldable pub list_all_runs : ℤ → Database → List Run
list_all_runs limit db = take (clamp_limit limit) (order_by newest_run db.runs)

abbrev pub of_run : Text → RunEvent → Bool
of_run run_id e = text_eq e.run_id run_id

abbrev pub lower_sequence : RunEvent → RunEvent → Bool
lower_sequence a b = ltb a.sequence b.sequence

unfoldable pub list_run_events : Text → ℤ → Database → Result Error (List RunEvent)
list_run_events run_id after db =
    if is_some (find_run run_id db.runs)
    then ok (
        order_by lower_sequence
          (select (λ e. of_run run_id e && ltb_ℤ after (pos e.sequence)) db.events))
    else err run_not_found

-- `COALESCE(MAX(sequence), 0)` over the events of a run
unfoldable pub max_sequence : Text → List RunEvent → ℕ
max_sequence run_id [] = 0
max_sequence run_id (e ∷ es) =
    let rest = max_sequence run_id es in
    if of_run run_id e then (if leb rest e.sequence then e.sequence else rest) else rest

unfoldable pub new_event : Text → Time → RunEventInput → List RunEvent → RunEvent
new_event run_id db_now input events = record {
  run_id = run_id;
  sequence = max_sequence run_id events + 1;
  kind = input.kind;
  stream = input.stream;
  message = input.message;
  payload = or_default input.payload (text "{}");
  terminal = input.terminal;
  created_at = db_now;
}

unfoldable pub append_run_event : Time → Text → RunEventInput → Operation RunEvent
append_run_event db_now run_id input db = elim (find_run run_id db.runs) [
  | none ↦ (err run_not_found, db)
  | some run ↦ if is_empty run.id then (err run_not_found, db) else (
    ok (new_event run_id db_now input db.events),
    record db { events = db.events ++ new_event run_id db_now input db.events ∷ [] },
  )
]

unfoldable pub new_audit_event : Text → Time → AuditInput → AuditEvent
new_audit_event id db_now input = record {
  id = id;
  actor_id = input.actor_id;
  action = input.action;
  resource_type = input.resource_type;
  resource_id = input.resource_id;
  outcome = input.outcome;
  correlation_id = input.correlation_id;
  metadata = or_default input.metadata (text "{}");
  created_at = db_now;
}

unfoldable pub record_audit : Draw → Time → AuditInput → Operation AuditEvent
record_audit draw db_now input db = elim (new_id draw) [
  | none ↦ (err random_failed, db)
  | some id ↦ (
    ok (new_audit_event id db_now input),
    record db { audit = db.audit ++ new_audit_event id db_now input ∷ [] },
  )
]

abbrev newest_audit : AuditEvent → AuditEvent → Bool
newest_audit a b = ltb b.created_at a.created_at

-- An empty filter matches every event.
abbrev is_or_any : Text → Text → Bool
is_or_any wanted t = is_empty wanted || text_eq t wanted

unfoldable pub list_audit_events : Text → Text → ℤ → Database → List AuditEvent
list_audit_events resource_type resource_id limit db = take (clamp_limit limit) (
    order_by newest_audit (
      select (λ e. is_or_any resource_type e.resource_type && is_or_any resource_id e.resource_id)
        db.audit))
