-- ===== src/Diagnosis/Storing.antt =====
-- What `Process` of server/internal/diagnosis/processor.go works on, and its steps that store: each
-- takes what follows it as its last argument.
use repo_mender.Prelude.{ℕ, ◌+◌, Bool, Option, none, some, List, [], ◌∷◌, Text, text, ℤ, ok, err}
use repo_mender.Ids.{Draw}
use repo_mender.Tasks.Status.{Status, failed}
use repo_mender.Tasks.Types.{Time, Task, Run, RunEventInput, Database}
use repo_mender.Tasks.Events.{append_run_event}
use repo_mender.Tasks.Findings.{
  FindingInput, EvidenceInput, Float64, Reports, create_finding, create_evidence,
}
use repo_mender.Repair.World.{ExecutionEvent}
use repo_mender.Diagnosis.Logs.{LogChunk}
use repo_mender.Diagnosis.Events.{Codec}
use repo_mender.Diagnosis.Results.{
  Evidence, Hypothesis, Diagnosis, diagnosis_severity, safe_component, safe_event_text,
}

-- What `PublishGitHubDiagnosis` is given.
pub record Publication : Type 0 where
  pub repository : Text
  pub installation_id : Text
  pub head_sha : Text
  pub summary : Text

-- `published` holds what was handed to the provider, the first one first.
pub record Work : Type 0 where
  pub tasks : Database
  pub reports : Reports
  pub published : List Publication

-- A provider's failure is nothing, or `false`.
pub record Provider : Type 0 where
  pub fetch_logs : Text → Text → ℤ → Option Text
  pub publish : Publication → Bool

-- `encoding/json` and SHA-256 as the processor uses them, and how it prints a confidence.
pub record Json : Type 0 where
  pub payloads : Codec
  pub decode_result : Text → Option Diagnosis
  pub encode_chunk : LogChunk → Text
  pub encode_evidence : Text → List Evidence → Text
  pub encode_external_run : Text → Text
  pub encode_summary : Text → ℕ → Text
  pub digest : Text → Text
  pub percent : Float64 → Text

-- The fields of `Processor`; `output_schema` is the constant `OutputSchema`.
pub record Config : Type 0 where
  pub project_id : Text
  pub agent_name : Text
  pub timeout : ℤ
  pub patterns : List Text
  pub chunk_size : ℤ
  pub output_schema : Text

-- The clock of the database, and the draws for the rows of the evidence and of the findings.
pub record Clock : Type 0 where
  pub db_now : Time
  pub evidence_draw : ℕ → Draw
  pub finding_draw : ℕ → Draw

-- The task's status and a code, with the work done.
abbrev pub Answer : Type 0
Answer = Status × Text × Work

abbrev pub failure : Text → Work → Answer
failure code w = (failed, code, w)

unfoldable pub recorded : Time → Text → RunEventInput → Work → (Work → Answer) → Answer
recorded db_now run_id input w next =
    let (result, db) = append_run_event db_now run_id input w.tasks in
    let after = record w { tasks = db } in
    elim result [ err e ↦ failure (text "m6_event_persist_failed") after | ok v ↦ next after ]

abbrev pub chunk_evidence : Json → Task → Run → LogChunk → EvidenceInput
chunk_evidence json task run c = record {
  task_id = task.id;
  run_id = run.id;
  kind = text "ci_log";
  title = c.source;
  content = some (json.encode_chunk c);
  digest = json.digest (json.encode_chunk c);
}

unfoldable pub store_chunks :
    Json → Clock → Task → Run → ℕ → List LogChunk → Work → (Work → Answer) → Answer
store_chunks json clock task run n [] w next = next w
store_chunks json clock task run n (c ∷ cs) w next =
    let (result, reports) =
      create_evidence (clock.evidence_draw n) clock.db_now (chunk_evidence json task run c) w.tasks
        w.reports in
    let after = record w { reports = reports } in
    elim result [
      | err e ↦ failure (text "m6_log_persist_failed") after
      | ok v ↦ store_chunks json clock task run (n + 1) cs after next
    ]

abbrev pub hypothesis_finding : Json → Task → Run → Hypothesis → FindingInput
hypothesis_finding json task run h = record {
  task_id = task.id;
  run_id = run.id;
  severity = diagnosis_severity h.confidence;
  category = text "ci_root_cause";
  path = safe_component h.component;
  line_start = none;
  line_end = none;
  explanation = h.root_cause;
  evidence = some (json.encode_evidence h.reproduction h.evidence);
  confidence = some h.confidence;
  remediation = h.recommended_action;
}

unfoldable pub store_findings :
    Json → Clock → Task → Run → ℕ → List Hypothesis → Work → (Work → Answer) → Answer
store_findings json clock task run n [] w next = next w
store_findings json clock task run n (h ∷ hs) w next =
    let (result, reports) =
      create_finding (clock.finding_draw n) clock.db_now (hypothesis_finding json task run h)
        w.tasks w.reports in
    let after = record w { reports = reports } in
    elim result [
      | err e ↦ failure (text "m6_finding_persist_failed") after
      | ok v ↦ store_findings json clock task run (n + 1) hs after next
    ]

unfoldable pub stream_events : Time → Text → List ExecutionEvent → Work → (Work → Answer) → Answer
unfolding recorded
stream_events db_now run_id [] w next = next w
stream_events db_now run_id (e ∷ es) w next =
    recorded db_now run_id
      (record {
        kind = e.kind;
        stream = safe_event_text e.stream;
        message = safe_event_text e.message;
        payload = some e.json;
        terminal = e.terminal;
      })
      w (λ after. stream_events db_now run_id es after next)
