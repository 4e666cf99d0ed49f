-- ===== src/Tasks/Store.antt =====
-- Creation, reading, cancelling and retrying of tasks: server/internal/tasks/store.go, behind the
-- methods `Create`, `Get`, `Cancel` and `Retry` of server/internal/tasks/service.go.
use repo_mender.Prelude.{
  any, update_where, Bool, true, ◌&&◌, ◌||◌, not, Option, none, some, List, [], ◌∷◌, ◌++◌, Text,
  text, text_eq, is_empty, is_blank, has_prefix, trim_space, ℤ, pos, pos_part, leb_ℤ, find, select,
  take, order_by, ok, err, ltb, ◌==◌, if◌then◌else◌,
}
use repo_mender.Ids.{Draw, new_id}
use repo_mender.Tasks.Status.{
  Kind, Status, queued, cancelled, status_eq, kind_eq, valid_kind, can_transition,
}
use repo_mender.Tasks.Types.{
  constraint_violated, Time, Task, Run, CreateInput, invalid_kind, missing_fields, random_failed,
  task_not_found, invalid_transition, Database, Operation,
}
use repo_mender.Tasks.Tables.{find_task, update_task, is_open, clamp_limit}

-- The second guard of `CreateTask`.
unfoldable pub lacks_fields : CreateInput → Bool
lacks_fields input =
    is_blank input.title
    || is_blank input.source_key
    || (is_empty input.created_by && not (has_prefix (text "github:") input.source_key))

abbrev pub or_default : Option Text → Text → Text
or_default none d = d
or_default (some p) d = p

-- The row that `INSERT` writes; the columns that it does not name have the schema's defaults.
unfoldable pub new_task : Text → Kind → Time → Time → CreateInput → Task
new_task id kind now db_now input =
    let created_at = if input.created_at == 0 then now else input.created_at in
    record {
      id = id;
      kind = kind;
      status = queued;
      title = trim_space input.title;
      repository_id = input.repository_id;
      repository_name = input.repository_name;
      source_key = input.source_key;
      payload = or_default input.payload (text "{}");
      priority = input.priority;
      attempts = 0;
      max_attempts = if leb_ℤ input.max_attempts (pos 0) then 3 else pos_part input.max_attempts;
      available_at = db_now;
      lease_owner = [];
      lease_until = none;
      last_error = [];
      superseded_by = [];
      created_by = input.created_by;
      created_at = created_at;
      updated_at = created_at;
      started_at = none;
      finished_at = none;
    }

-- `ON CONFLICT (source_key)`: the row that is there is returned as it is. A new row may not have the
-- PRIMARY KEY of another one.
unfoldable pub insert_task : Task → Operation Task
insert_task task db = elim (find (λ t. text_eq t.source_key task.source_key) db.tasks) [
  | some existing ↦ (ok existing, db)
  | none ↦
      if any (λ t. text_eq t.id task.id) db.tasks
      then (err constraint_violated, db)
      else (ok task, record db { tasks = db.tasks ++ task ∷ [] })
]

unfoldable pub insert_drawn : Option Text → Kind → Time → Time → CreateInput → Operation Task
unfolding insert_task
insert_drawn none kind now db_now input db = (err random_failed, db)
insert_drawn (some id) kind now db_now input db = insert_task (new_task id kind now db_now input) db

unfoldable pub create_kind : Option Kind → Draw → Time → Time → CreateInput → Operation Task
unfolding insert_drawn
create_kind none draw now db_now input db = (err invalid_kind, db)
create_kind (some kind) draw now db_now input db =
    if lacks_fields input
    then (err missing_fields, db)
    else insert_drawn (new_id draw) kind now db_now input db

unfoldable pub create_task : Draw → Time → Time → CreateInput → Operation Task
unfolding create_kind
create_task draw now db_now input = create_kind (valid_kind input.kind) draw now db_now input

unfoldable pub get_task : Text → Operation Task
get_task id db = elim (find_task id db.tasks) [
  | none ↦ (err task_not_found, db)
  | some task ↦ (ok task, db)
]

abbrev newest_task : Task → Task → Bool
newest_task a b = ltb b.updated_at a.updated_at

abbrev passes : Option Status → Option Kind → Task → Bool
passes none none t = true
passes (some s) none t = status_eq t.status s
passes none (some k) t = kind_eq t.kind k
passes (some s) (some k) t = status_eq t.status s && kind_eq t.kind k

-- A filter that is the empty text is `none`.
unfoldable pub list_tasks : Option Status → Option Kind → ℤ → Database → List Task
list_tasks status kind limit db =
    take (clamp_limit limit) (order_by newest_task (select (passes status kind) db.tasks))

-- The row of a cancelled task, which `CancelTask` also returns.
unfoldable pub cancelled_task : Text → Time → Task → Task
cancelled_task reason now t = record t {
  status = cancelled;
  last_error = trim_space reason;
  lease_owner = [];
  lease_until = none;
  finished_at = some now;
  updated_at = now;
}

unfoldable pub cancelled_run : Text → Time → Run → Run
cancelled_run reason now r = record r {
  status = cancelled;
  error_code = text "cancelled";
  error_message = trim_space reason;
  finished_at = some now;
}

unfoldable pub cancel_task : Time → Text → Text → Operation Task
cancel_task now id reason db = elim (find_task id db.tasks) [
  | none ↦ (err task_not_found, db)
  | some task ↦
      if can_transition task.status cancelled
      then (
        ok (cancelled_task reason now task),
        record db {
          tasks = update_task id (cancelled_task reason now) db.tasks;
          runs =
              update_where (λ r. text_eq r.task_id id && is_open r.status)
                (cancelled_run reason now) db.runs;
        },
      )
      else (err invalid_transition, db)
]

unfoldable pub retried_task : Text → Time → Task → Task
retried_task reason now t = record t {
  status = queued;
  last_error = trim_space reason;
  available_at = now;
  lease_owner = [];
  lease_until = none;
  finished_at = none;
  updated_at = now;
}

unfoldable pub retry_task : Time → Text → Text → Operation Task
retry_task now id reason db = elim (find_task id db.tasks) [
  | none ↦ (err task_not_found, db)
  | some task ↦
      if can_transition task.status queued
      then (
        ok (retried_task reason now task),
        record db { tasks = update_task id (retried_task reason now) db.tasks },
      )
      else (err invalid_transition, db)
]
