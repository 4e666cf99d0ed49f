-- ===== src/Automations/Service.antt =====
-- The automation service: server/internal/automations/service.go. Its audit recorder is a log of the
-- entries that it was handed.
use repo_mender.Prelude.{
  ℕ, Bool, ◌&&◌, ◌||◌, not, Option, none, some, List, [], ◌∷◌, ◌++◌, Text, text, trim_space,
  is_blank, is_empty, contains_any, length, select, ℤ, pos, Result, ok, err, ltb, ◌==◌,
  if◌then◌else◌,
}
use repo_mender.Ids.{Draw}
use repo_mender.Tasks.Types.{Time}
use repo_mender.Automations.Types.{
  Input, Template, Version, Run, TriggerInput, TriggerResult, scheduled, duplicate, refused, Error,
  validation, invalid_trigger, validate, matches,
}
use repo_mender.Automations.Store.{
  Tables, create_row, get_row, list_rows, update_draft_row, publish_row, set_enabled_row,
  delete_row, history_rows, list_runs,
}
use repo_mender.Automations.Trigger.{Draws, trigger_row}

-- A value of the metadata, before `json.Marshal`.
pub data Value : Type 0 where
  string : Text → Value
  number : ℕ → Value
  flag : Bool → Value

-- `tasks.AuditInput`; the resource type is `automation` and the outcome `accepted` in each.
pub record Entry : Type 0 where
  pub actor_id : Text
  pub action : Text
  pub resource_id : Text
  pub metadata : List (Text × Value)

pub record Service : Type 0 where
  pub tables : Tables
  pub recording : Bool
  pub recorded : List Entry

abbrev pub ServiceResult : Type 0 → Type 0
ServiceResult A = Result Error A × Service

-- The functions of `encoding/json` and `crypto/sha256` that the service calls. `with_field` reads a
-- text as an object, gives one of its fields anew as an object of strings, and encodes it, if all of
-- that succeeds; `digest` is the hexadecimal SHA-256.
pub record Codec : Type 0 where
  pub valid : Text → Bool
  pub with_field : Text → Text → List (Text × Text) → Option Text
  pub digest : Text → Text

-- `recordAudit`
unfoldable pub record_audit : Text → Text → Text → List (Text × Value) → Service → Service
record_audit actor action resource metadata s =
    if s.recording
    then record s {
      recorded =
          s.recorded
          ++ record {
            actor_id = actor;
            action = action;
            resource_id = resource;
            metadata = metadata;
          }
            ∷ [];
    }
    else s

-- The end of an operation on one template: an audit entry if it succeeded.
unfoldable pub template_noted :
    Text
    → Text
    → (Template → List (Text × Value))
    → Result Error Template × Tables
    → Service
    → ServiceResult Template
unfolding record_audit
template_noted actor action metadata (err e, db) s = (err e, record s { tables = db })
template_noted actor action metadata (ok t, db) s =
    (ok t, record_audit actor action t.id (metadata t) (record s { tables = db }))

abbrev revision_metadata : Template → List (Text × Value)
revision_metadata t = (text "revision", number t.revision) ∷ []

unfoldable pub create : Draw → Time → Input → Text → Service → ServiceResult Template
unfolding template_noted
create draw now input actor s =
    if validate input
    then template_noted actor (text "automation.create") revision_metadata
        (create_row draw now input actor s.tables) s
    else (err validation, s)

unfoldable pub get : Text → Service → Result Error Template
get id s = get_row (trim_space id) s.tables

unfoldable pub list : ℤ → Service → List Template
list limit s = list_rows limit s.tables

unfoldable pub update_draft : Time → Text → ℤ → Input → Text → Service → ServiceResult Template
unfolding template_noted
update_draft now id expected input actor s =
    if validate input
    then template_noted actor (text "automation.edit") revision_metadata
        (update_draft_row now (trim_space id) expected input actor s.tables) s
    else (err validation, s)

unfoldable pub publish : Time → Text → ℤ → Text → Service → ServiceResult Template
unfolding template_noted
publish now id expected actor s =
    template_noted actor (text "automation.publish") (λ t. (text "version", number t.version) ∷ [])
      (publish_row now (trim_space id) expected actor s.tables) s

unfoldable pub set_enabled : Time → Text → ℤ → Bool → Text → Service → ServiceResult Template
unfolding template_noted
set_enabled now id expected enabled actor s =
    template_noted actor (if enabled then text "automation.activate" else text "automation.disable")
      (λ t. (text "version", number t.version) ∷ (text "enabled", flag enabled) ∷ [])
      (set_enabled_row now (trim_space id) expected enabled actor s.tables) s

unfoldable pub delete_noted :
    Text → Text → Result Error (Unit {0}) × Tables → Service → ServiceResult (Unit {0})
unfolding record_audit
delete_noted actor id (err e, db) s = (err e, record s { tables = db })
delete_noted actor id (ok u, db) s =
    (ok tt, record_audit actor (text "automation.delete") id [] (record s { tables = db }))

unfoldable pub delete : Text → ℤ → Text → Service → ServiceResult (Unit {0})
unfolding delete_noted
delete id expected actor s =
    delete_noted actor (trim_space id) (delete_row (trim_space id) expected s.tables) s

unfoldable pub history : Text → ℤ → Service → List Version
history id limit s = history_rows (trim_space id) limit s.tables

unfoldable pub runs : Text → ℤ → Service → List Run
runs id limit s = list_runs (trim_space id) limit s.tables

unfoldable pub decorate_payload : Codec → Text → Text → Text → Text
decorate_payload codec raw template_id trigger_key =
    elim (codec.with_field raw (text "automation")
      ((text "templateId", template_id) ∷ (text "triggerKey", trigger_key) ∷ [])) [
        | none ↦ raw
        | some payload ↦ payload
      ]

-- The guards of `Trigger`; an empty source payload becomes `{}`, which is valid.
unfoldable pub bad_trigger : Codec → TriggerInput → Bool
bad_trigger codec input =
    is_blank input.template_id
    || is_blank input.trigger_key
    || is_blank input.provider
    || is_blank input.event
    || is_blank input.action
    || is_blank input.repository
    || is_blank input.actor_id
    || (ltb 512 (length input.trigger_key) || contains_any (13 ∷ 10 ∷ []) input.trigger_key)
    || (is_empty input.task_payload || not (codec.valid input.task_payload))
    || (not (is_empty input.source_payload) && not (codec.valid input.source_payload))

-- The input that the store gets.
unfoldable pub prepared : Codec → Time → TriggerInput → TriggerInput
unfolding decorate_payload
prepared codec now input =
    let key = trim_space input.trigger_key in
    record input {
      trigger_key = key;
      task_payload = decorate_payload codec input.task_payload input.template_id key;
      source_payload = if is_empty input.source_payload then text "{}" else input.source_payload;
      created_at = if input.created_at == 0 then now else input.created_at;
    }

-- The digest of the trigger key stands in the metadata instead of the key.
unfoldable pub trigger_noted :
    Codec → TriggerInput → TriggerResult × Tables → Service → TriggerResult × Service
unfolding record_audit
trigger_noted codec input (refused e, db) s = (refused e, record s { tables = db })
trigger_noted codec input (duplicate r task status, db) s =
    (duplicate r task status, record s { tables = db })
trigger_noted codec input (scheduled r task, db) s = (
  scheduled r task,
  record_audit input.actor_id (text "automation.trigger") input.template_id
      ((text "runId", string r.id)
        ∷ (text "taskId", string task.id)
        ∷ (text "version", number r.template_version)
        ∷ (text "triggerDigest", string (codec.digest input.trigger_key))
        ∷ [])
      (record s { tables = db }),
)

unfoldable pub trigger : Codec → Draws → TriggerInput → Service → TriggerResult × Service
unfolding trigger_noted prepared
trigger codec draws input s =
    if bad_trigger codec input
    then (refused invalid_trigger, s)
    else trigger_noted codec (prepared codec draws.now input)
        (trigger_row codec.digest draws (prepared codec draws.now input) s.tables) s

-- `Matching`, over the page of templates that one `List` returns.
unfoldable pub matching : Text → Text → Text → Text → Text → Service → List Template
matching provider event action branch repository s =
    select (λ t. matches t.enabled t.input provider event action branch repository)
      (list_rows (pos 200) s.tables)
