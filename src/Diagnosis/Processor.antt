-- ===== src/Diagnosis/Processor.antt =====
-- `Process` of server/internal/diagnosis/processor.go, in the order of its steps.
use repo_mender.Prelude.{
  true, false, Option, none, some, List, [], ◌∷◌, ◌++◌, Text, text, is_empty, decimal, pos, leb_ℤ,
  length, Result, ok, err, if◌then◌else◌,
}
use repo_mender.Tasks.Status.{succeeded}
use repo_mender.Tasks.Types.{Task, Run}
use repo_mender.Repair.World.{Adapter, ExecutionRequest}
use repo_mender.Repair.Running.{status_event, default_timeout}
use repo_mender.Diagnosis.Logs.{Error, binary_logs, logs_too_large, LogChunk, redact_and_chunk_logs}
use repo_mender.Diagnosis.Events.{TaskPayload, decode_task_payload}
use repo_mender.Diagnosis.Results.{Diagnosis, validate_result, redact_result, diagnosis_summary}
use repo_mender.Diagnosis.Storing.{
  Publication, Work, Provider, Json, Config, Clock, Answer, failure, recorded, store_chunks,
  store_findings, stream_events,
}

abbrev or_text : Text → Text → Text
or_text t other = if is_empty t then other else t

abbrev concat : List Text → Text
concat [] = []
concat (t ∷ ts) = t ++ concat ts

abbrev lines_of : List LogChunk → Text
lines_of [] = []
lines_of (c ∷ cs) =
    concat (
      (10 ∷ b'[' ∷ c.source)
      ∷ text " lines "
      ∷ decimal (pos c.start_line)
      ∷ text "-"
      ∷ decimal (pos c.end_line)
      ∷ (b']' ∷ 10 ∷ c.content)
      ∷ (10 ∷ [])
      ∷ [])
    ++ lines_of cs

unfoldable pub diagnosis_prompt : Task → TaskPayload → List LogChunk → Text
diagnosis_prompt task p chunks = concat (
    text
      "Analyze the failed GitHub Actions run below. Return only JSON matching the supplied schema; do not modify or publish code."
    ∷ (10
        ∷ text
            "The sandbox provides a short-lived read-only GitHub token in GH_TOKEN and GITHUB_TOKEN. Use a temporary credential helper or authenticated API to fetch a private repository; never print, persist, or include the token in a URL.")
    ∷ (10 ∷ text "Repository: ")
    ∷ p.clone_url
    ∷ (10 ∷ text "Immutable commit: ")
    ∷ p.head_sha
    ∷ (10 ∷ text "Workflow: ")
    ∷ p.workflow_name
    ∷ (10 ∷ text "Workflow run: ")
    ∷ decimal p.workflow_run_id
    ∷ (10 ∷ text "Task: ")
    ∷ task.id
    ∷ (10
        ∷ text
            "Logs are redacted and each block preserves source line references. Reproduce only when permitted by the sandbox policy.")
    ∷ (10 ∷ lines_of chunks)
    ∷ [])

unfoldable pub diagnosis_request :
    Config → Task → Run → TaskPayload → List LogChunk → ExecutionRequest
unfolding diagnosis_prompt
diagnosis_request config task run p chunks = record {
  correlation_id = run.correlation_id;
  project_id = or_text (or_text config.project_id task.repository_id) p.repository_id;
  agent_name = or_text config.agent_name (text "codex");
  repository = p.clone_url;
  commit_sha = p.head_sha;
  prompt = diagnosis_prompt task p chunks;
  timeout = if leb_ℤ config.timeout (pos 0) then default_timeout else config.timeout;
  output_schema = config.output_schema;
  driver = text "docker";
  cleanup = text "remove";
  network_enabled = false;
}

abbrev pub publication : Json → TaskPayload → Diagnosis → Publication
publication json p r = record {
  repository = p.repository_name;
  installation_id = p.installation_id;
  head_sha = p.head_sha;
  summary = diagnosis_summary json.percent r;
}

module _ (config : Config) (json : Json) (adapter : Adapter) (provider : Provider) (clock : Clock)
    (task : Task) (run : Run) where
  -- The last event, once the diagnosis is published.
  unfoldable pub conclude : Diagnosis → Work → Answer
  unfolding recorded
  conclude r w =
      recorded clock.db_now run.id
        (record {
          kind = text "result";
          stream = [];
          message = text "structured CI diagnosis accepted";
          payload = some (json.encode_summary r.summary (length r.hypotheses));
          terminal = true;
        })
        w (λ after. (succeeded, [], after))

  unfoldable pub publish : TaskPayload → Diagnosis → Work → Answer
  unfolding conclude
  publish p r w =
      let after = record w { published = w.published ++ publication json p r ∷ [] } in
      if provider.publish (publication json p r)
      then conclude r after
      else failure (text "m6_publication_failed") after

  unfoldable pub judge : TaskPayload → Option Diagnosis → Work → Answer
  unfolding publish store_findings
  judge p none w = failure (text "m6_result_invalid") w
  judge p (some r) w =
      let safe = redact_result config.patterns r in
      store_findings json clock task run 0 safe.hypotheses w (publish p safe)

  unfoldable pub receive : TaskPayload → Option Text → Work → Answer
  unfolding judge
  receive p none w = failure (text "m6_ac_result_failed") w
  receive p (some output) w = judge p (validate_result json.decode_result output) w

  unfoldable pub follow : TaskPayload → Option Text → Work → Answer
  unfolding receive stream_events recorded
  follow p none w = failure (text "m6_ac_start_failed") w
  follow p (some id) w =
      recorded clock.db_now run.id
        (status_event (text "external_run") (text "AC CI diagnosis started")
          (some (json.encode_external_run id)))
        w
        (λ v. stream_events clock.db_now run.id (adapter.events id).0 v (λ u.
          if (adapter.events id).1
          then receive p (adapter.result id) u
          else failure (text "m6_ac_stream_failed") u))

  abbrev logs_code : Error → Text
  logs_code logs_too_large = text "m6_logs_too_large"
  logs_code binary_logs = text "m6_logs_binary"
  logs_code _ = text "m6_logs_invalid"

  unfoldable pub diagnose : TaskPayload → Result Error (List LogChunk) → Work → Answer
  unfolding follow store_chunks
  diagnose p (err e) w = failure (logs_code e) w
  diagnose p (ok chunks) w =
      store_chunks json clock task run 0 chunks w
        (λ v. follow p (adapter.start (diagnosis_request config task run p chunks)) v)

  unfoldable pub fetched : TaskPayload → Option Text → Work → Answer
  unfolding diagnose
  fetched p none w = failure (text "m6_logs_fetch_failed") w
  fetched p (some logs) w =
      diagnose p (redact_and_chunk_logs logs config.patterns config.chunk_size) w

  unfoldable pub process_payload : Result Error TaskPayload → Work → Answer
  unfolding fetched recorded
  process_payload (err e) w = failure (text "m6_payload_invalid") w
  process_payload (ok p) w =
      recorded clock.db_now run.id
        (status_event (text "status")
          (text "fetching CI logs for workflow run " ++ decimal p.workflow_run_id) none)
        w (fetched p (provider.fetch_logs p.repository_name p.installation_id p.workflow_run_id))

-- `Process`: without an adapter or a provider it fails at once.
unfoldable pub process :
    Config → Json → Option Adapter → Option Provider → Clock → Task → Run → Work → Answer
unfolding process_payload
process config json (some adapter) (some provider) clock task run w =
    process_payload config json adapter provider clock task run
      (decode_task_payload json.payloads task.payload) w
process config json _ _ clock task run w = failure (text "m6_dependency_unavailable") w
