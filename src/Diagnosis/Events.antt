-- ===== src/Diagnosis/Events.antt =====
-- From a webhook to a diagnosis task: `EventFromWebhook`, `buildTaskInput` and `decodeTaskPayload` of
-- server/internal/diagnosis/types.go, and server/internal/diagnosis/service.go.
use repo_mender.Prelude.{
  Bool, true, false, ◌||◌, not, Option, none, some, List, [], ◌∷◌, ◌++◌, Text, text, text_eq,
  is_empty, trim_space, contains_any, split_slash, any, find, take, decimal, ℤ, pos, leb_ℤ, Result,
  ok, err, if◌then◌else◌,
}
use repo_mender.Ids.{Draw}
use repo_mender.Tasks.Status.{ci_diagnosis, kind_text}
use repo_mender.Tasks.Types.{Time, Task, CreateInput, Database}
use repo_mender.Tasks.Types as Tasks
use repo_mender.Tasks.Store.{create_task}
use repo_mender.Repair.Validate.{is_sha}
use repo_mender.Diagnosis.Logs.{Error, unsupported_event, invalid_event, lookup_failed, task_failed}

-- The values that `VerifyWebhook` of server/internal/scm/github.go puts into a workflow run's event, and the event:
-- server/internal/scm/types.go.
pub data Value : Type 0 where
  string_value : Text → Value
  int64_value : ℤ → Value

pub record WebhookEvent : Type 0 where
  pub delivery_id : Text
  pub event_type : Text
  pub normalized : List (Text × Value)

pub record WorkflowRunEvent : Type 0 where
  pub delivery_id : Text
  pub action : Text
  pub conclusion : Text
  pub repository_id : Text
  pub repository_name : Text
  pub clone_url : Text
  pub web_url : Text
  pub workflow_run_id : ℤ
  pub workflow_name : Text
  pub head_sha : Text
  pub installation_id : Text

pub record TaskPayload : Type 0 where
  pub provider : Text
  pub repository_id : Text
  pub repository_name : Text
  pub clone_url : Text
  pub web_url : Text
  pub workflow_run_id : ℤ
  pub workflow_name : Text
  pub conclusion : Text
  pub head_sha : Text
  pub installation_id : Text

-- `fmt.Sscan` of an `int64`, and `encoding/json` on the payload, which it can always encode.
pub record Codec : Type 0 where
  pub scan : Text → Option ℤ
  pub encode_payload : TaskPayload → Text
  pub decode_payload : Text → Option TaskPayload

abbrev pub raw_value : Text → WebhookEvent → Option Value
raw_value key event = elim (find (λ e. text_eq e.0 key) event.normalized) [
  | none ↦ none
  | some e ↦ some e.1
]

-- `value(key)`
unfoldable pub value : Text → WebhookEvent → Text
value key event = elim (raw_value key event) [
  | none ↦ []
  | some v ↦ elim v [ string_value t ↦ trim_space t | int64_value n ↦ trim_space (decimal n) ]
]

unfoldable pub integer_value : Codec → Option Value → Option ℤ
integer_value codec none = none
integer_value codec (some (int64_value n)) = some n
integer_value codec (some (string_value t)) = codec.scan t

abbrev failed_conclusion : Text → Bool
failed_conclusion c =
    text_eq c (text "failure") || text_eq c (text "timed_out") || text_eq c (text "action_required")

abbrev pub workflow_event : WebhookEvent → ℤ → WorkflowRunEvent
workflow_event event run_id = record {
  delivery_id = event.delivery_id;
  action = text "completed";
  conclusion = value (text "conclusion") event;
  repository_id = value (text "repositoryId") event;
  repository_name = value (text "repository") event;
  clone_url = value (text "cloneURL") event;
  web_url = value (text "webURL") event;
  workflow_run_id = run_id;
  workflow_name = value (text "workflowName") event;
  head_sha = value (text "headSHA") event;
  installation_id = value (text "installationId") event;
}

-- The guards of `EventFromWebhook` behind the run's number.
unfoldable pub run_event : WebhookEvent → Option ℤ → Result Error WorkflowRunEvent
unfolding value
run_event event none = err invalid_event
run_event event (some run_id) =
    if leb_ℤ run_id (pos 0)
    then err invalid_event
    else if not (is_sha (value (text "headSHA") event))
    then err invalid_event
    else if is_empty (value (text "repositoryId") event)
        || is_empty (value (text "repository") event)
        || is_empty (value (text "cloneURL") event)
    then err invalid_event
    else ok (workflow_event event run_id)

abbrev pub is_unrelated : WebhookEvent → Bool
is_unrelated event =
    not (text_eq event.event_type (text "workflow_run"))
    || not (text_eq (value (text "action") event) (text "completed"))
    || not (failed_conclusion (value (text "conclusion") event))

unfoldable pub event_from_webhook : Codec → WebhookEvent → Result Error WorkflowRunEvent
unfolding run_event integer_value
event_from_webhook codec event =
    if is_unrelated event
    then err unsupported_event
    else run_event event (integer_value codec (raw_value (text "workflowRunId") event))

abbrev pub payload_of : WorkflowRunEvent → TaskPayload
payload_of event = record {
  provider = text "github";
  repository_id = event.repository_id;
  repository_name = event.repository_name;
  clone_url = event.clone_url;
  web_url = event.web_url;
  workflow_run_id = event.workflow_run_id;
  workflow_name = event.workflow_name;
  conclusion = event.conclusion;
  head_sha = event.head_sha;
  installation_id = event.installation_id;
}

-- `Diagnose %s · run %d at %.12s`
abbrev task_title : WorkflowRunEvent → Text
task_title event =
    text "Diagnose "
    ++ (event.repository_name
        ++ (32 ∷ 194 ∷ 183 ∷ text " run "
            ++ (decimal event.workflow_run_id ++ (text " at " ++ take 12 event.head_sha))))

abbrev source_key : WorkflowRunEvent → Text
source_key event =
    text "github:workflow_run:"
    ++ (event.repository_id ++ (b':' ∷ decimal event.workflow_run_id ++ (b':' ∷ event.head_sha)))

unfoldable pub build_task_input : Codec → WorkflowRunEvent → Text → CreateInput
build_task_input codec event repository_id = record {
  kind = kind_text ci_diagnosis;
  title = task_title event;
  repository_id = repository_id;
  repository_name = event.repository_name;
  source_key = source_key event;
  payload = some (codec.encode_payload (payload_of event));
  priority = pos 60;
  max_attempts = pos 3;
  created_by = [];
  created_at = 0;
}

-- `validRepositoryName`
unfoldable pub valid_repository_name : Text → Bool
valid_repository_name name = elim (split_slash (trim_space name)) [
  | [] ↦ false
  | owner ∷ [] ↦ false
  | owner ∷ repository ∷ [] ↦ not (
      any
        (λ part.
          is_empty part
          || contains_any (text "\\?#%\"' " ++ 13 ∷ 10 ∷ []) part
          || text_eq part (text ".")
          || text_eq part (text ".."))
        (owner ∷ repository ∷ []))
  | owner ∷ repository ∷ more ∷ rest ↦ false
]

unfoldable pub check_payload : TaskPayload → Result Error TaskPayload
unfolding valid_repository_name
check_payload p =
    if leb_ℤ p.workflow_run_id (pos 0)
      || is_empty p.clone_url
      || not (is_sha p.head_sha)
      || not (valid_repository_name p.repository_name)
    then err invalid_event
    else ok p

unfoldable pub decode_task_payload : Codec → Text → Result Error TaskPayload
unfolding check_payload
decode_task_payload codec raw = elim (codec.decode_payload raw) [
  | none ↦ err invalid_event
  | some p ↦ check_payload p
]

-- What `FindRepository` says of a provider's repository.
pub data Lookup : Type 0 where
  found : Text → Lookup
  not_found failed : Lookup

abbrev pub Resolver : Type 0
Resolver = Option (Text → Lookup)

unfoldable pub repository_id_of : Resolver → Text → Result Error Text
repository_id_of none id = ok []
repository_id_of (some find_repository) id = elim (find_repository id) [
  | found own_id ↦ ok own_id
  | not_found ↦ ok []
  | failed ↦ err lookup_failed
]

abbrev pub Answer : Type 0
Answer = Result Error (Option Task) × Database

unfoldable pub created : Result Tasks.Error Task × Database → Answer
created (err e, db) = (err task_failed, db)
created (ok task, db) = (ok (some task), db)

unfoldable pub create_for :
    Codec → Draw → Time → Time → WorkflowRunEvent → Result Error Text → Database → Answer
unfolding created build_task_input
create_for codec draw now db_now event (err e) db = (err e, db)
create_for codec draw now db_now event (ok id) db =
    created (create_task draw now db_now (build_task_input codec event id) db)

abbrev is_unsupported : Error → Bool
is_unsupported unsupported_event = true
is_unsupported _ = false

-- `HandleWebhook`: no task stands for its `false`. There is a task service.
unfoldable pub handle_event :
    Codec → Resolver → Draw → Time → Time → Result Error WorkflowRunEvent → Database → Answer
unfolding create_for repository_id_of
handle_event codec resolver draw now db_now (ok event) db =
    create_for codec draw now db_now event (repository_id_of resolver event.repository_id) db
handle_event codec resolver draw now db_now (err e) db =
    if is_unsupported e then (ok none, db) else (err e, db)

unfoldable pub handle_webhook :
    Codec → Resolver → Draw → Time → Time → WebhookEvent → Database → Answer
unfolding handle_event event_from_webhook
handle_webhook codec resolver draw now db_now event db =
    handle_event codec resolver draw now db_now (event_from_webhook codec event) db
