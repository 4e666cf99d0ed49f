-- ===== src/Repair/Service.antt =====
-- The repair service: server/internal/repair/service.go.
use repo_mender.Prelude.{
  ℕ, ◌+◌, Bool, false, ◌||◌, not, Option, none, some, List, [], ◌∷◌, ◌++◌, Text, text, text_eq,
  is_empty, is_blank, ℤ, pos, leb_ℤ, decimal, Result, ok, err, if◌then◌else◌,
}
use repo_mender.Auth.{admin, maintainer}
use repo_mender.Tasks.Status.{ci_diagnosis, issue_repair, succeeded, status_eq, kind_eq, kind_text}
use repo_mender.Tasks.Types.{Task}
use repo_mender.Tasks.Types as Tasks
use repo_mender.Tasks.Store.{create_task, retry_task}
use repo_mender.Approvals.Types.{
  Action, Request, ConsumeInput, repair_plan, publish_patch, action_eq, high, action_text,
  risk_text,
}
use repo_mender.Approvals.Types as Approvals
use repo_mender.Approvals.Service.{consume}
use repo_mender.Repair.Types.{
  Time, State, awaiting_plan_approval, plan_approved, awaiting_patch_approval, patch_approved,
  failed, state_eq, valid_state, Trigger, github_issue, m6_diagnosis, Issue, Repair, CreateInput,
  Error, invalid_state, invalid_trigger, provider_failure, approval_phase, forbidden,
  approval_failed, task_failed,
}
use repo_mender.Repair.Validate.{validate_issue}
use repo_mender.Repair.World.{World, Codec, Provider, Clock, DiagnosisPayload}
use repo_mender.Repair.Store.{get_repair, get_by_task, list_repairs, create_repair, update_repair}

abbrev pub Answer : Type 0
Answer = Result Error Repair × World

-- The part of the issue that the provider knows.
unfoldable pub resolved_issue : Issue → Issue → Issue
resolved_issue issue found = record issue {
  title = found.title;
  body = found.body;
  web_url = found.web_url;
  state = found.state;
  is_pull_request = found.is_pull_request;
}

unfoldable pub resolve_missing : Option Provider → Issue → Result Error Issue
unfolding resolved_issue
resolve_missing none issue = err invalid_trigger
resolve_missing (some provider) issue =
    elim (provider.resolve_issue issue.repository issue.installation_id issue.number) [
      | none ↦ err provider_failure
      | some found ↦ ok (resolved_issue issue found)
    ]

unfoldable pub resolve_base : Option Provider → Issue → Result Error Issue
resolve_base none issue = ok issue
resolve_base (some provider) issue =
    if is_blank issue.base_sha
    then elim (provider.resolve_base_sha issue.repository issue.installation_id issue.base_branch) [
      | none ↦ err provider_failure
      | some sha ↦ ok (record issue { base_sha = sha })
    ]
    else ok issue

unfoldable pub check_issue : Time → Issue → Result Error Issue
check_issue now issue = elim (validate_issue issue now) [ some e ↦ err e | none ↦ ok issue ]

-- What both ways in do with the issue: resolve what is missing, the base commit too, and check it.
-- `lacks_state` is the one test in which they differ.
unfoldable pub resolve : Option Provider → Time → Bool → Issue → Result Error Issue
unfolding resolve_missing resolve_base check_issue
resolve provider now lacks_state issue =
    elim (if leb_ℤ issue.number (pos 0) || lacks_state
      then resolve_missing provider issue
      else ok issue) [
        | err e ↦ err e
        | ok first ↦ elim (resolve_base provider first) [
          | err e ↦ err e
          | ok second ↦ check_issue now second
        ]
      ]

-- A repair for a task, or the one the task has.
unfoldable pub bind_or_existing : Text → Result Error Repair × List Repair → World → Answer
bind_or_existing task_id (ok r, rows) w = (ok r, record w { repairs = rows })
bind_or_existing task_id (err e, rows) w = elim (get_by_task task_id rows) [
  | ok existing ↦ (ok existing, record w { repairs = rows })
  | err missing ↦ (err e, record w { repairs = rows })
]

abbrev pub repair_input : Trigger → Text → Text → Text → Issue → Time → CreateInput
repair_input trigger source_key task_id actor issue now = record {
  trigger = trigger;
  source_key = source_key;
  task_id = task_id;
  created_by = actor;
  issue = issue;
  created_at = now;
}

abbrev pub task_input : Text → Issue → Text → Text → Text → Time → Tasks.CreateInput
task_input title issue source_key payload actor now = record {
  kind = kind_text issue_repair;
  title = title;
  repository_id = issue.repository_id;
  repository_name = issue.repository;
  source_key = source_key;
  payload = some payload;
  priority = pos 0;
  max_attempts = pos 5;
  created_by = actor;
  created_at = now;
}

unfoldable pub issue_task :
    Clock → Text → Text → Issue → Result Tasks.Error Task × Tasks.Database → World → Answer
unfolding bind_or_existing
issue_task clock source_key actor issue (err e, db) w = (err task_failed, record w { tasks = db })
issue_task clock source_key actor issue (ok task, db) w =
    bind_or_existing task.id
      (create_repair clock.draw clock.now
        (repair_input github_issue source_key task.id actor issue clock.now) w.repairs)
      (record w { tasks = db })

abbrev pub issue_key : Issue → Text
issue_key issue = text "github:issue:" ++ (issue.repository ++ text ":" ++ decimal issue.number)

unfoldable pub create_from_issue : Option Provider → Clock → Issue → Text → World → Answer
unfolding issue_task
create_from_issue provider clock raw actor w =
    elim (resolve provider clock.now (is_empty raw.state) raw) [
      | err e ↦ (err e, w)
      | ok issue ↦
          issue_task clock (issue_key issue) actor issue
            (create_task clock.task_draw clock.now clock.db_now
              (task_input
                (text "Repair issue #" ++ (decimal issue.number ++ (text ": " ++ issue.title)))
                issue (issue_key issue) (text "{\"source\":\"github_issue\"}") actor clock.now)
              w.tasks)
            w
    ]

unfoldable pub bind_automation_task : Option Provider → Clock → Task → Issue → Text → World → Answer
unfolding bind_or_existing
bind_automation_task provider clock task raw actor w =
    if not (kind_eq task.kind issue_repair) || is_empty task.id
    then (err invalid_trigger, w)
    else elim (resolve provider clock.now (is_blank raw.state) raw) [
      | err e ↦ (err e, w)
      | ok issue ↦
          bind_or_existing task.id
            (create_repair clock.draw clock.now
              (repair_input github_issue task.source_key task.id actor issue clock.now) w.repairs)
            w
    ]

abbrev pub lacks_payload : DiagnosisPayload → Bool
lacks_payload p =
    is_empty p.repository_name
    || is_empty p.clone_url
    || is_empty p.installation_id
    || is_empty p.head_sha

abbrev pub diagnosis_issue : DiagnosisPayload → Text → Issue
diagnosis_issue p title = record {
  provider = text "github";
  repository_id = p.repository_id;
  repository = p.repository_name;
  clone_url = p.clone_url;
  web_url = [];
  installation_id = p.installation_id;
  number = pos 0;
  title = title;
  body = [];
  state = text "open";
  is_pull_request = false;
  base_branch = text "main";
  base_sha = p.head_sha;
}

unfoldable pub bind_created : Result Error Repair × List Repair → World → Answer
bind_created (result, rows) w = (result, record w { repairs = rows })

unfoldable pub diagnosis_task :
    Clock → Text → Text → Issue → Result Tasks.Error Task × Tasks.Database → World → Answer
unfolding bind_created
diagnosis_task clock source_key actor issue (err e, db) w =
    (err task_failed, record w { tasks = db })
diagnosis_task clock source_key actor issue (ok task, db) w =
    bind_created
      (create_repair clock.draw clock.now
        (repair_input m6_diagnosis source_key task.id actor issue clock.now) w.repairs)
      (record w { tasks = db })

unfoldable pub diagnosis_found : Clock → Task → Text → Option DiagnosisPayload → World → Answer
unfolding diagnosis_task
diagnosis_found clock diagnosis actor none w = (err invalid_trigger, w)
diagnosis_found clock diagnosis actor (some p) w =
    if lacks_payload p
    then (err invalid_trigger, w)
    else elim (validate_issue (diagnosis_issue p diagnosis.title) clock.now) [
      | some e ↦ (err e, w)
      | none ↦
          let issue = diagnosis_issue p diagnosis.title in
          let key = text "m6:diagnosis:" ++ diagnosis.id in
          diagnosis_task clock key actor issue
            (create_task clock.task_draw clock.now clock.db_now
              (task_input (text "Repair diagnosis: " ++ diagnosis.title) issue key
                (text "{\"source\":\"m6_diagnosis\"}") actor clock.now)
              w.tasks)
            w
    ]

unfoldable pub create_from_diagnosis : Codec → Clock → Task → Text → World → Answer
unfolding diagnosis_found
create_from_diagnosis codec clock diagnosis actor w =
    if not (kind_eq diagnosis.kind ci_diagnosis) || not (status_eq diagnosis.status succeeded)
    then (err invalid_trigger, w)
    else diagnosis_found clock diagnosis actor (codec.read_diagnosis diagnosis.payload) w

unfoldable pub list : Text → ℤ → World → Result Error (List Repair)
list state limit w =
    if is_empty state then ok (list_repairs none limit w.repairs) else elim (valid_state state) [
      | none ↦ err invalid_state
      | some s ↦ ok (list_repairs (some s) limit w.repairs)
    ]

pub data Phase : Type 0 where
  plan_phase patch_phase : Phase

unfoldable pub phase_text : Phase → Text
phase_text plan_phase = text "plan"
phase_text patch_phase = text "patch"

unfoldable pub valid_phase : Text → Option Phase
valid_phase t =
    if text_eq t (text "plan")
    then some plan_phase
    else if text_eq t (text "patch")
    then some patch_phase
    else none

unfoldable pub next_approved_state : Phase → State
next_approved_state plan_phase = plan_approved
next_approved_state patch_phase = patch_approved

unfoldable pub expected_state : Phase → State
expected_state plan_phase = awaiting_plan_approval
expected_state patch_phase = awaiting_patch_approval

unfoldable pub approval_id : Phase → Repair → Text
approval_id plan_phase r = r.plan_approval_id
approval_id patch_phase r = r.patch_approval_id

unfoldable pub phase_action : Phase → Action
phase_action plan_phase = repair_plan
phase_action patch_phase = publish_patch

unfoldable pub resumed : Phase → Repair → Repair
resumed phase r = record r {
  state = next_approved_state phase;
  failure_code = [];
  failure_message = [];
}

unfoldable pub requeued : Repair → Result Tasks.Error Task → World → Answer
requeued updated (err e) w = (err task_failed, w)
requeued updated (ok task) w = (ok updated, w)

-- The task is queued again once its repair is written.
unfoldable pub requeue : Clock → Text → Text → Result Error Repair → World → Answer
unfolding requeued
requeue clock task_id reason (err e) w = (err e, w)
requeue clock task_id reason (ok updated) w =
    let (result, db) = retry_task clock.now task_id reason w.tasks in
    requeued updated result (record w { tasks = db })

unfoldable pub resume_with :
    Codec → Clock → Phase → Repair → Result Approvals.Error Request → World → Answer
unfolding requeue
resume_with codec clock phase r (err e) w = (err approval_failed, w)
resume_with codec clock phase r (ok request) w =
    if not (action_eq request.action (phase_action phase))
    then (err approval_phase, w)
    else let (result, rows) = update_repair codec clock.now (resumed phase r) w.repairs in
      requeue clock r.task_id (text "M8 " ++ (phase_text phase ++ text " approval consumed")) result
        (record w { repairs = rows })

abbrev pub consume_input : Clock → Text → Text → Text → Text → ConsumeInput
consume_input clock id digest key actor = record {
  approval_id = id;
  actor_id = actor;
  action_digest = digest;
  idempotency_key = key;
  now = clock.now;
}

unfoldable pub consume_phase : Codec → Clock → Phase → Text → Text → Text → Repair → World → Answer
unfolding resume_with
consume_phase codec clock phase digest key actor r w =
    if state_eq r.state (next_approved_state phase)
    then (ok r, w)
    else if not (state_eq r.state (expected_state phase)) || is_empty (approval_id phase r)
    then (err approval_phase, w)
    else if is_blank actor
    then (err forbidden, w)
    else let (result, approvals) =
        consume clock.now (consume_input clock (approval_id phase r) digest key actor)
          w.approvals in
      resume_with codec clock phase r result (record w { approvals = approvals })

unfoldable pub consume_approval : Codec → Clock → Text → Text → Text → Text → Text → World → Answer
unfolding consume_phase
consume_approval codec clock repair_id phase digest key actor w =
    elim (get_repair repair_id w.repairs) [
      | err e ↦ (err e, w)
      | ok r ↦ elim (valid_phase phase) [
        | none ↦ (err approval_phase, w)
        | some p ↦ consume_phase codec clock p digest key actor r w
      ]
    ]

-- `markFailure`
unfoldable pub marked : Codec → Text → Error → Repair → Repair
marked codec code cause r = record r {
  state = failed;
  failure_code = code;
  failure_message = codec.describe cause;
}

abbrev pub day : ℕ
day = 86400000000000

-- `repairApprovalInput`; times count nanoseconds.
unfoldable pub repair_approval_input :
    Codec → Phase → Repair → Text → Text → Time → Approvals.CreateInput
repair_approval_input codec phase r digest actor now = record {
  action = action_text (phase_action phase);
  risk = risk_text high;
  action_digest = digest;
  requester_id = actor;
  eligible_roles = admin ∷ maintainer ∷ [];
  expires_at = now + day;
  metadata = some (codec.encode_metadata r.id r.task_id (phase_text phase) r.base_sha);
  requested_at = now;
}
