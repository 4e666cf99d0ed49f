-- ===== src/Automations/Trigger.antt =====
-- `Trigger` of server/internal/automations/store.go: a run of a template, and its task.
use repo_mender.Prelude.{
  ℕ, Bool, false, ◌&&◌, ◌||◌, not, Option, none, some, List, [], ◌∷◌, ◌++◌, Text, text, text_eq,
  trim_space, is_blank, is_empty, is_some, find, count_if, ℤ, pos, leb_ℤ, ok, err, ◌==◌,
  if◌then◌else◌,
}
use repo_mender.Ids.{Draw}
use repo_mender.Tasks.Status.{
  Kind, code_review, ci_diagnosis, issue_repair, queued, kind_eq, valid_kind,
}
use repo_mender.Tasks.Types.{Time, Task}
use repo_mender.Tasks.Tables.{find_task, is_open}
use repo_mender.Automations.Types.{
  Template, Run, TriggerInput, TriggerResult, scheduled, duplicate, refused, is_disabled,
  concurrency_limited, invalid_trigger, random_failed, check_failed, malformed_id, matches,
}
use repo_mender.Automations.Store.{Tables, new_id, lock_template, find_version, has_task}

-- The run of a template under a trigger key, joined with its task.
abbrev pub find_keyed : Text → Text → Tables → Option Run
find_keyed id key db =
    find (λ r. text_eq r.template_id id && text_eq r.trigger_key key && has_task db r) db.runs

-- The runs of a template whose task is queued, running or awaits approval.
abbrev pub task_open : List Task → Text → Bool
task_open tasks id = elim (find_task id tasks) [ none ↦ false | some t ↦ is_open t.status ]

abbrev pub active : Text → Tables → ℕ
active id db =
    count_if (λ r. text_eq r.template_id id && task_open db.tasks.tasks r.task_id) db.runs

unfoldable pub priority_for : Kind → ℤ
priority_for code_review = pos 50
priority_for ci_diagnosis = pos 60
priority_for issue_repair = pos 40

-- The texts `" · "` and `"automation:"`.
unfoldable pub run_title : Template → TriggerInput → Text
run_title t input =
    let title = trim_space input.title in
    if is_empty title then t.input.name ++ (32 ∷ 194 ∷ 183 ∷ 32 ∷ input.repository) else title

unfoldable pub source_key : (Text → Text) → Template → TriggerInput → Text
source_key digest t input = text "automation:" ++ (t.id ++ (b':' ∷ digest input.trigger_key))

unfoldable pub new_task : (Text → Text) → Text → Kind → Time → Time → Template → TriggerInput → Task
unfolding priority_for run_title source_key
new_task digest id kind created_at db_now t input = record {
  id = id;
  kind = kind;
  status = queued;
  title = run_title t input;
  repository_id = input.repository_id;
  repository_name = input.repository;
  source_key = source_key digest t input;
  payload = input.task_payload;
  priority = priority_for kind;
  attempts = 0;
  max_attempts = if kind_eq kind issue_repair then 5 else 3;
  available_at = db_now;
  lease_owner = [];
  lease_until = none;
  last_error = [];
  superseded_by = [];
  created_by = input.actor_id;
  created_at = created_at;
  updated_at = created_at;
  started_at = none;
  finished_at = none;
}

unfoldable pub new_run : Text → Text → Time → Template → TriggerInput → Run
new_run id task_id created_at t input = record {
  id = id;
  template_id = t.id;
  template_version = t.version;
  trigger_key = input.trigger_key;
  provider = input.provider;
  event = input.event;
  action = input.action;
  repository = input.repository;
  task_id = task_id;
  status = text "scheduled";
  source_payload = input.source_payload;
  created_by = input.actor_id;
  created_at = created_at;
  updated_at = created_at;
}

-- The keys of the tables: identifiers, the task's source key, the run's template with its trigger
-- key, the run's task, and the version that the run refers to.
unfoldable pub keys_fail : Task → Run → Tables → Bool
keys_fail task r db =
    is_some
      (find (λ t. text_eq t.id task.id || text_eq t.source_key task.source_key) db.tasks.tasks)
    || is_some (
        find
          (λ s.
            text_eq s.id r.id
            || text_eq s.task_id r.task_id
            || (text_eq s.template_id r.template_id && text_eq s.trigger_key r.trigger_key))
          db.runs)
    || not (is_some (find_version r.template_id r.template_version db.versions))

unfoldable pub insert_run : Task → Run → Tables → TriggerResult × Tables
insert_run task r db = if keys_fail task r db then (refused check_failed, db) else (
  scheduled r task,
  record db {
    runs = db.runs ++ r ∷ [];
    tasks = record (db.tasks) { tasks = db.tasks.tasks ++ task ∷ [] };
  },
)

-- The column `kind` has a CHECK for the constants.
unfoldable pub insert_typed :
    (Text → Text)
    → Option Kind
    → Option Text
    → Option Text
    → Time
    → Time
    → Template
    → TriggerInput
    → Tables
    → TriggerResult × Tables
unfolding insert_run
insert_typed digest kind none run_id created_at db_now t input db = (refused random_failed, db)
insert_typed digest kind (some task_id) none created_at db_now t input db =
    (refused random_failed, db)
insert_typed digest none (some task_id) (some run_id) created_at db_now t input db =
    (refused check_failed, db)
insert_typed digest (some kind) (some task_id) (some run_id) created_at db_now t input db =
    insert_run (new_task digest task_id kind created_at db_now t input)
      (new_run run_id task_id created_at t input) db

-- What one call reads from the outside: two draws, the clock of the process and of the database.
pub record Draws : Type 0 where
  pub task_draw : Draw
  pub run_draw : Draw
  pub now : Time
  pub db_now : Time

unfoldable pub trigger_new :
    (Text → Text) → Draws → Template → TriggerInput → Tables → TriggerResult × Tables
unfolding insert_typed
trigger_new digest draws t input db =
    if leb_ℤ t.input.concurrency_limit (pos (active input.template_id db))
    then (refused concurrency_limited, db)
    else if is_blank input.actor_id
    then (refused invalid_trigger, db)
    else insert_typed digest (valid_kind t.input.kind) (new_id draws.task_draw)
        (new_id draws.run_draw) (if input.created_at == 0 then draws.now else input.created_at)
        draws.db_now t input db

-- The task of the run that is there is read by its identifier.
unfoldable pub trigger_keyed : Run → Tables → TriggerResult × Tables
trigger_keyed r db = elim (find_task r.task_id db.tasks.tasks) [
  | none ↦ (refused check_failed, db)
  | some task ↦ (duplicate r task task.status, db)
]

-- Behind the lock the statements name the identifier as the input has it, which PostgreSQL refuses
-- where there is white space around it.
unfoldable pub trigger_locked :
    (Text → Text) → Draws → Template → TriggerInput → Tables → TriggerResult × Tables
unfolding trigger_new trigger_keyed
trigger_locked digest draws t input db =
    if not t.enabled
    then (refused is_disabled, db)
    else if not (
        matches t.enabled t.input input.provider input.event input.action input.branch
          input.repository)
    then (refused invalid_trigger, db)
    else if not (text_eq input.template_id t.id)
    then (refused malformed_id, db)
    else elim (find_keyed input.template_id input.trigger_key db) [
      | some r ↦ trigger_keyed r db
      | none ↦ trigger_new digest draws t input db
    ]

unfoldable pub trigger_row : (Text → Text) → Draws → TriggerInput → Tables → TriggerResult × Tables
unfolding trigger_locked
trigger_row digest draws input db = elim (lock_template input.template_id (pos 0) db) [
  | err e ↦ (refused e, db)
  | ok t ↦ trigger_locked digest draws t input db
]
