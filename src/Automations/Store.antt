-- ===== src/Automations/Store.antt =====
-- The tables of the automations and the lifecycle of a template: server/internal/automations/store.go.
use repo_mender.Prelude.{
  ℕ, ◌+◌, Bool, false, ◌&&◌, ◌||◌, not, Option, none, some, List, [], ◌∷◌, ◌++◌, Text, text_eq,
  trim_space, is_some, find, select, take, order_by, update_where, ℤ, pos, leb_ℤ, Result, ok, err,
  ltb, ◌==◌, if◌then◌else◌,
}
use repo_mender.Ids.{Draw, hex}
use repo_mender.Tasks.Types.{Time, Database}
use repo_mender.Tasks.Tables.{find_task, clamp_limit}
use repo_mender.Automations.Types.{
  Input, Template, Version, Run, Error, not_found, validation, conflict, is_published,
  random_failed, check_failed, validate,
}

-- The tables, each in the order of insertion, beside those of the task store.
pub record Tables : Type 0 where
  pub templates : List Template
  pub versions : List Version
  pub runs : List Run
  pub tasks : Database

-- A transaction: its result, and the tables once it is committed or rolled back.
abbrev pub Operation : Type 0 → Type 0
Operation A = Tables → Result Error A × Tables

-- `newID`: unlike the other stores it sets no version and no variant bits.
unfoldable pub new_id : Draw → Option Text
new_id none = none
new_id (some v) = some (
    hex (v.b0 ∷ v.b1 ∷ v.b2 ∷ v.b3 ∷ [])
    ++ (b'-' ∷ hex (v.b4 ∷ v.b5 ∷ [])
        ++ (b'-' ∷ hex (v.b6 ∷ v.b7 ∷ [])
            ++ (b'-' ∷ hex (v.b8 ∷ v.b9 ∷ [])
                ++ (b'-' ∷ hex (v.b10 ∷ v.b11 ∷ v.b12 ∷ v.b13 ∷ v.b14 ∷ v.b15 ∷ []))))))

abbrev pub find_template : Text → List Template → Option Template
find_template id rows = find (λ t. text_eq t.id id) rows

abbrev pub update_template : Text → (Template → Template) → List Template → List Template
update_template id f rows = update_where (λ t. text_eq t.id id) f rows

-- The input as the columns take it.
unfoldable pub stored_input : Input → Input
stored_input input = record input {
  name = trim_space input.name;
  description = trim_space input.description;
  agent_template = trim_space input.agent_template;
}

unfoldable pub new_template : Text → Time → Input → Text → Template
unfolding stored_input
new_template id now input actor = record {
  id = id;
  input = stored_input input;
  enabled = false;
  version = 0;
  revision = 1;
  created_by = actor;
  updated_by = actor;
  published_by = [];
  created_at = now;
  updated_at = now;
  published_at = none;
}

-- The names of the table are UNIQUE: another row has this one.
abbrev pub name_taken : Text → Text → List Template → Bool
name_taken id name rows =
    is_some (find (λ t. text_eq t.input.name name && not (text_eq t.id id)) rows)

-- The identifier is the primary key; the other CHECKs of the table hold of a valid input.
unfoldable pub insert_template : Template → Operation Template
insert_template t db =
    if is_some (find_template t.id db.templates) || name_taken t.id t.input.name db.templates
    then (err check_failed, db)
    else (ok t, record db { templates = db.templates ++ t ∷ [] })

unfoldable pub create_drawn : Option Text → Time → Input → Text → Operation Template
unfolding insert_template
create_drawn none now input actor db = (err random_failed, db)
create_drawn (some id) now input actor db = insert_template (new_template id now input actor) db

unfoldable pub create_row : Draw → Time → Input → Text → Operation Template
unfolding create_drawn
create_row draw now input actor db =
    if validate input then create_drawn (new_id draw) now input actor db else (err validation, db)

unfoldable pub get_row : Text → Tables → Result Error Template
get_row id db = elim (find_template (trim_space id) db.templates) [
  | none ↦ err not_found
  | some t ↦ ok t
]

abbrev pub newest_template : Template → Template → Bool
newest_template a b = ltb b.updated_at a.updated_at

unfoldable pub list_rows : ℤ → Tables → List Template
list_rows limit db = take (clamp_limit limit) (order_by newest_template db.templates)

unfoldable pub edited_template : Time → Input → Text → Template → Template
unfolding stored_input
edited_template now input actor t = record t {
  input = stored_input input;
  updated_by = actor;
  revision = t.revision + 1;
  updated_at = now;
}

unfoldable pub update_found : Time → ℤ → Input → Text → Template → Operation Template
update_found now expected input actor t db =
    if not (leb_ℤ (pos t.revision) expected && leb_ℤ expected (pos t.revision))
    then (err conflict, db)
    else if t.enabled
    then (err is_published, db)
    else if name_taken t.id (stored_input input).name db.templates
    then (err check_failed, db)
    else (
      ok (edited_template now input actor t),
      record db { templates = update_template t.id (edited_template now input actor) db.templates },
    )

unfoldable pub update_draft_row : Time → Text → ℤ → Input → Text → Operation Template
unfolding update_found
update_draft_row now id expected input actor db =
    if not (validate input)
    then (err validation, db)
    else if leb_ℤ expected (pos 0)
    then (err conflict, db)
    else elim (find_template id db.templates) [
      | none ↦ (err not_found, db)
      | some t ↦ update_found now expected input actor t db
    ]

-- `lockTemplate`: an expected revision that is not positive is not compared.
unfoldable pub lock_template : Text → ℤ → Tables → Result Error Template
lock_template id expected db = elim (find_template (trim_space id) db.templates) [
  | none ↦ err not_found
  | some t ↦
      if not (leb_ℤ expected (pos 0))
        && not (leb_ℤ (pos t.revision) expected && leb_ℤ expected (pos t.revision))
      then err conflict
      else ok t
]

unfoldable pub published_template : Time → Text → Bool → Template → Template
published_template now actor enabled t = record t {
  enabled = enabled;
  version = t.version + 1;
  revision = t.revision + 1;
  updated_by = actor;
  published_by = actor;
  published_at = some now;
  updated_at = now;
}

-- `FROM automation_template_versions WHERE template_id = $1 AND version = $2`
abbrev pub find_version : Text → ℕ → List Version → Option Version
find_version id n rows = find (λ v. text_eq v.template_id id && v.version == n) rows

unfoldable pub new_version : Time → Text → Template → Version
new_version now actor t = record {
  template_id = t.id;
  version = t.version;
  enabled = t.enabled;
  config = t.input;
  changed_by = actor;
  changed_at = now;
}

-- `publishLocked`: the template and its version are the primary key of the version's row.
unfoldable pub publish_locked : Time → Text → Bool → Template → Operation Template
unfolding published_template new_version
publish_locked now actor enabled t db =
    if is_some (find_version t.id (t.version + 1) db.versions) then (err check_failed, db) else (
      ok (published_template now actor enabled t),
      record db {
        templates = update_template t.id (published_template now actor enabled) db.templates;
        versions =
            db.versions ++ new_version now actor (published_template now actor enabled t) ∷ [];
      },
    )

unfoldable pub publish_found : Time → Text → Template → Operation Template
publish_found now actor t db =
    if ltb 0 t.version && t.enabled
    then (err is_published, db)
    else if validate t.input
    then publish_locked now actor false t db
    else (err validation, db)

unfoldable pub publish_row : Time → Text → ℤ → Text → Operation Template
unfolding publish_found
publish_row now id expected actor db = elim (lock_template id expected db) [
  | err e ↦ (err e, db)
  | ok t ↦ publish_found now actor t db
]

abbrev pub same_flag : Bool → Bool → Bool
same_flag a b = (a && b) || (not a && not b)

unfoldable pub set_enabled_found : Time → Bool → Text → Template → Operation Template
set_enabled_found now enabled actor t db =
    if t.version == 0
    then (err validation, db)
    else if same_flag t.enabled enabled
    then (ok t, db)
    else publish_locked now actor enabled t db

unfoldable pub set_enabled_row : Time → Text → ℤ → Bool → Text → Operation Template
unfolding set_enabled_found
set_enabled_row now id expected enabled actor db = elim (lock_template id expected db) [
  | err e ↦ (err e, db)
  | ok t ↦ set_enabled_found now enabled actor t db
]

-- The rows of the versions and of the runs go with their template, ON DELETE CASCADE.
unfoldable pub deleted : Text → Tables → Tables
deleted id db = record db {
  templates = select (λ t. not (text_eq t.id id)) db.templates;
  versions = select (λ v. not (text_eq v.template_id id)) db.versions;
  runs = select (λ r. not (text_eq r.template_id id)) db.runs;
}

unfoldable pub delete_row : Text → ℤ → Operation (Unit {0})
unfolding deleted
delete_row id expected db = elim (find_template id db.templates) [
  | none ↦ (err not_found, db)
  | some t ↦
      if not (leb_ℤ (pos t.revision) expected && leb_ℤ expected (pos t.revision)) || t.enabled
      then (err conflict, db)
      else (ok tt, deleted id db)
]

abbrev latest_version : Version → Version → Bool
latest_version a b = ltb b.version a.version

unfoldable pub history_rows : Text → ℤ → Tables → List Version
history_rows id limit db =
    take (clamp_limit limit)
      (order_by latest_version (select (λ v. text_eq v.template_id id) db.versions))

-- `runSelect` joins the task of the run.
abbrev pub has_task : Tables → Run → Bool
has_task db r = is_some (find_task r.task_id db.tasks.tasks)

abbrev newest_run : Run → Run → Bool
newest_run a b = ltb b.created_at a.created_at

unfoldable pub list_runs : Text → ℤ → Tables → List Run
list_runs id limit db =
    take (clamp_limit limit)
      (order_by newest_run (select (λ r. text_eq r.template_id id && has_task db r) db.runs))
