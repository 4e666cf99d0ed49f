-- ===== src/Automations/Tests.antt =====
-- The automation service (server/internal/automations) on one template, and each theorem at an input
-- that meets its hypotheses.
use repo_mender.Prelude.{
  ◌≤◌, ◌≡◌, ◌↔◌, refl, true, false, inl, none, some, List, [], ◌∷◌, ◌++◌, Text, text, text_eq,
  trim_space, contains_any, order_by, In, pos, ok, length, arith,
}
use repo_mender.Tasks.Status.{issue_repair, queued, valid_kind, kind_text}
use repo_mender.Tasks.Types.{Task}
use repo_mender.Tasks.Tables.{clamp_limit}
use repo_mender.Tasks.Tests.{bytes}
use repo_mender.Automations.Types.{Input, Template, Run, TriggerInput, scheduled, validate, matches}
use repo_mender.Automations.Store.{
  Tables, new_id, new_template, create_row, create_drawn, publish_row, set_enabled_row,
  lock_template, publish_locked, update_draft_row, stored_input, edited_template, list_rows,
}
use repo_mender.Automations.Trigger.{Draws, new_run, new_task, keys_fail, trigger_row}
use repo_mender.Automations.Service.{
  Service, Codec, create, publish, set_enabled, trigger, update_draft, matching, bad_trigger,
  prepared, record_audit,
}
use repo_mender.Automations.Trace.{
  Call, creating, publishing, switching, triggering, perform, perform_all,
}
use repo_mender.Automations.Governed.{IsGoverned}
use repo_mender.Automations.Governed.Trace.{perform_all-IsGoverned}
use repo_mender.Automations.Once.{IsUnscheduled, trigger-once}
use repo_mender.Automations.Revisions.{update_draft-exclusive}
use repo_mender.Automations.Limit.{IsAccounted, trigger_row-IsAccounted}
use repo_mender.Automations.Matching.{IsTriggered, matching_iff}

-- A name for what the runs below compute with.
run_open : Service → Codec → Service
unfolding perform_all perform create publish set_enabled trigger create_row create_drawn publish_row
    set_enabled_row lock_template trigger_row bad_trigger prepared validate matches new_id
    new_template new_run new_task keys_fail record_audit text text_eq trim_space contains_any
    valid_kind kind_text publish_locked update_draft update_draft_row stored_input edited_template
    matching
run_open s codec = s

abbrev input : Input
input = record {
  name = text "Repairs";
  description = [];
  kind = text "issue_repair";
  provider = text "github";
  repository_scope = text "o/r" ∷ [];
  event_filters =
      record { event = text "issues"; actions = text "opened" ∷ []; branches = [] } ∷ [];
  agent_template = text "repair";
  execution_budget = pos 10;
  timeout_seconds = pos 60;
  concurrency_limit = pos 1;
  risk = text "low";
  approval_policy = text "required";
}

input_valid : validate input ≡ true
unfolding run_open
input_valid = refl

-- A star is no repository.
star_invalid : validate (record input { repository_scope = text "*" ∷ [] }) ≡ false
unfolding run_open
star_invalid = refl

abbrev empty_tables : Tables
empty_tables = record {
  templates = [];
  versions = [];
  runs = [];
  tasks = record { tasks = []; runs = []; events = []; audit = [] };
}

abbrev service : Service
service = record { tables = empty_tables; recording = true; recorded = [] }

abbrev codec : Codec
codec = record { valid = λ t. true; with_field = λ raw name fields. none; digest = λ t. t }

abbrev template_id : Text
template_id = text "00000000-0000-0000-0000-000000000001"

abbrev set_up : List Call
set_up =
    creating (bytes 1) 10 input (text "u")
    ∷ publishing 11 template_id (pos 1) (text "u")
    ∷ switching 12 template_id (pos 2) true (text "u")
    ∷ []

abbrev event : TriggerInput
event = record {
  template_id = template_id;
  trigger_key = text "delivery-1";
  provider = text "github";
  event = text "issues";
  action = text "opened";
  branch = [];
  repository = text "o/r";
  repository_id = [];
  title = [];
  task_payload = text "{}";
  source_payload = [];
  actor_id = text "u";
  created_at = 20;
}

abbrev draws : Draws
draws = record { task_draw = bytes 2; run_draw = bytes 3; now = 21; db_now = 22 }

abbrev ready : Service
ready = perform_all codec set_up service

abbrev run_id : Text
run_id = text "00000000-0000-0000-0000-000000000003"

abbrev task_id : Text
task_id = text "00000000-0000-0000-0000-000000000002"

abbrev first_run : Run
first_run = record {
  id = run_id;
  template_id = template_id;
  template_version = 2;
  trigger_key = text "delivery-1";
  provider = text "github";
  event = text "issues";
  action = text "opened";
  repository = text "o/r";
  task_id = task_id;
  status = text "scheduled";
  source_payload = text "{}";
  created_by = text "u";
  created_at = 20;
  updated_at = 20;
}

abbrev first_task : Task
first_task = record {
  id = task_id;
  kind = issue_repair;
  status = queued;
  title = text "Repairs" ++ (32 ∷ 194 ∷ 183 ∷ 32 ∷ text "o/r");
  repository_id = [];
  repository_name = text "o/r";
  source_key = text "automation:00000000-0000-0000-0000-000000000001:delivery-1";
  payload = text "{}";
  priority = pos 40;
  attempts = 0;
  max_attempts = 5;
  available_at = 22;
  lease_owner = [];
  lease_until = none;
  last_error = [];
  superseded_by = [];
  created_by = text "u";
  created_at = 20;
  updated_at = 20;
  started_at = none;
  finished_at = none;
}

abbrev again : TriggerInput
again = record event {
  trigger_key = text " delivery-1";
  title = text "Once more";
  actor_id = text "v";
}

abbrev later : List Call
later =
    switching 30 template_id (pos 3) false (text "u")
    ∷ switching 31 template_id (pos 4) true (text "u")
    ∷ []

abbrev drafted_service : Service
drafted_service = perform_all codec (creating (bytes 1) 10 input (text "u") ∷ []) service

abbrev edit : Input
edit = record input { description = text "Two." }

abbrev edited : Template
edited = record {
  id = template_id;
  input = edit;
  enabled = false;
  version = 0;
  revision = 2;
  created_by = text "u";
  updated_by = text "u";
  published_by = [];
  created_at = 10;
  updated_at = 30;
  published_at = none;
}

abbrev live : Template
live = record edited {
  input = input;
  enabled = true;
  version = 2;
  revision = 3;
  published_by = text "u";
  updated_at = 12;
  published_at = some 12;
}

few : length ready.tables.templates ≤ 200
unfolding run_open
few = omega arith

event_scheduled : (trigger codec draws event ready).0 ≡ scheduled first_run first_task
unfolding run_open
event_scheduled = refl

abbrev used : List Call
used =
    creating (bytes 1) 10 input (text "u")
    ∷ publishing 11 template_id (pos 1) (text "u")
    ∷ switching 12 template_id (pos 2) true (text "u")
    ∷ triggering draws event
    ∷ []

run_there : In first_run (perform_all codec used service).tables.runs
unfolding run_open
run_there = inl refl

perform_all-IsGoverned_example :
    IsGoverned (perform_all codec used service).tables.versions first_run
perform_all-IsGoverned_example =
    perform_all-IsGoverned codec used service first_run (refl, refl, refl) run_there

-- The same delivery, with white space, another title and another actor, after a second switch.
trigger-once_example :
    ((trigger codec draws again (perform_all codec later (trigger codec draws event ready).1)).1
      ≡ perform_all codec later (trigger codec draws event ready).1)
    × IsUnscheduled
        (trigger codec draws again (perform_all codec later (trigger codec draws event ready).1)).0
unfolding run_open
trigger-once_example =
    trigger-once codec draws draws event again later ready first_run first_task event_scheduled
      ((λ e. e), ((λ e. e), tt)) refl refl

draft_edited : (update_draft 30 template_id (pos 1) edit (text "u") drafted_service).0 ≡ ok edited
unfolding run_open
draft_edited = refl

update_draft-exclusive_example :
    perform codec
      (publishing 31 template_id (pos 1) (text "v"))
      (perform_all codec [] (update_draft 30 template_id (pos 1) edit (text "u") drafted_service).1)
    ≡ perform_all codec [] (update_draft 30 template_id (pos 1) edit (text "u") drafted_service).1
unfolding run_open
update_draft-exclusive_example =
    update_draft-exclusive codec 30 template_id (pos 1) edit (text "u") edited []
      (publishing 31 template_id (pos 1) (text "v")) drafted_service refl draft_edited tt
      (refl, refl)

trigger_row-IsAccounted_example :
    IsAccounted event ready.tables (trigger_row (λ t. t) draws event ready.tables)
trigger_row-IsAccounted_example = trigger_row-IsAccounted (λ t. t) draws event ready.tables

live_matching :
    matching (text "github") (text "issues") (text "opened") [] (text "o/r") ready ≡ live ∷ []
unfolding run_open list_rows clamp_limit order_by
live_matching = refl

matching_iff_example :
    In live (matching (text "github") (text "issues") (text "opened") [] (text "o/r") ready) ↔ (
      In live ready.tables.templates
      × IsTriggered live (text "github") (text "issues") (text "opened") [] (text "o/r"))
matching_iff_example =
    matching_iff (text "github") (text "issues") (text "opened") [] (text "o/r") ready live few
