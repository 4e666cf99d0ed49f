-- ===== src/Repair/World.antt =====
-- What the repair service and its processor work on (server/internal/repair): the task tables, the
-- approval service and the repair table, and the code outside that they call: JSON and SHA-256, the
-- provider, and the execution adapter of server/internal/execution/execution.go.
use repo_mender.Prelude.{Bool, Option, List, Text, ℤ}
use repo_mender.Ids.{Draw}
use repo_mender.Tasks.Types.{Database}
use repo_mender.Tasks.Status.{Status}
use repo_mender.Approvals.Service.{Service}
use repo_mender.Repair.Types.{
  Time, Issue, Plan, Patch, Repair, PublishInput, DraftPullRequest, Error,
}

-- `published` holds what was handed to the provider's `PublishDraft`, the first one first.
pub record World : Type 0 where
  pub tasks : Database
  pub approvals : Service
  pub repairs : List Repair
  pub published : List PublishInput

-- The payload of a diagnosis task that `CreateFromDiagnosis` reads.
pub record DiagnosisPayload : Type 0 where
  pub repository_id : Text
  pub repository_name : Text
  pub clone_url : Text
  pub installation_id : Text
  pub head_sha : Text

-- `encoding/json`, `Digest`, the texts of errors, and what a JSONB column gives back. `decode_plan`
-- and `decode_patch` are the strict decoder, `read_plan` and `read_patch` are `json.Unmarshal`.
pub record Codec : Type 0 where
  pub json_valid : Text → Bool
  pub stored : Text → Text
  pub decode_plan : Text → Option Plan
  pub decode_patch : Text → Option Patch
  pub read_plan : Text → Option Plan
  pub read_patch : Text → Option Patch
  pub read_diagnosis : Text → Option DiagnosisPayload
  pub encode_plan : Plan → Text
  pub encode_patch : Patch → Text
  pub digest_plan : Plan → Option Text
  pub digest_patch : Patch → Option Text
  pub encode_metadata : Text → Text → Text → Text → Text
  pub encode_external_run : Text → Text
  pub describe : Error → Text

pub record Provider : Type 0 where
  pub resolve_issue : Text → Text → ℤ → Option Issue
  pub resolve_base_sha : Text → Text → Text → Option Text
  pub publish_draft : PublishInput → Option DraftPullRequest

-- `execution.Request` with its `ResourcePolicy`
pub record ExecutionRequest : Type 0 where
  pub correlation_id : Text
  pub project_id : Text
  pub agent_name : Text
  pub repository : Text
  pub commit_sha : Text
  pub prompt : Text
  pub timeout : ℤ
  pub output_schema : Text
  pub driver : Text
  pub cleanup : Text
  pub network_enabled : Bool

-- `execution.Event`, with its JSON.
pub record ExecutionEvent : Type 0 where
  pub kind : Text
  pub stream : Text
  pub message : Text
  pub terminal : Bool
  pub json : Text

-- A stream of events with whether it ended without an error.
pub record Adapter : Type 0 where
  pub start : ExecutionRequest → Option Text
  pub events : Text → List ExecutionEvent × Bool
  pub result : Text → Option Text

-- The clocks of the process and of the database, and the random draws.
pub record Clock : Type 0 where
  pub now : Time
  pub db_now : Time
  pub task_draw : Draw
  pub draw : Draw

-- `NewProcessor`, `WithProjectID` and `WithAgentName`, the last two trimmed, and the two constants
-- `planOutputSchema` and `patchOutputSchema`, which only the adapter reads.
pub record Config : Type 0 where
  pub project_id : Text
  pub agent_name : Text
  pub timeout : ℤ
  pub plan_output_schema : Text
  pub patch_output_schema : Text

-- What `Process` returns: the task's status, a code, and the error whose text is the message.
pub record Outcome : Type 0 where
  pub status : Status
  pub code : Text
  pub cause : Option Error
