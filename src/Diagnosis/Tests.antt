-- ===== src/Diagnosis/Tests.antt =====
-- Logs cut into chunks (server/internal/diagnosis/types.go), and each theorem at an input that meets
-- its hypotheses.
use repo_mender.Prelude.{
  ◌⊎◌, false, ◌+◌, length, negsuc, ℕ, ◌≡◌, refl, true, none, some, List, [], ◌∷◌, ◌++◌, Text, text,
  valid_utf8, contains_any, has_prefix, trim_space, All, pos, ok, is_ok, text_eq, decimal,
  split_slash,
}
use repo_mender.Diagnosis.Redact.{redact}
use repo_mender.Diagnosis.Logs.{LogChunk, redact_and_chunk_logs, log_text, split_lines, chunk_limit}
use repo_mender.Diagnosis.Clean.{IsClean, redact-IsClean}
use repo_mender.Diagnosis.Complete.{unlined, contents, redact_and_chunk_logs_complete}
use repo_mender.Diagnosis.Excerpts.{IsExcerpt}
use repo_mender.Ids.{new_id}
use repo_mender.Tasks.Status.{running, succeeded, failed, ci_diagnosis, valid_kind, kind_text}
use repo_mender.Tasks.Trace.{Call, perform_all}
use repo_mender.Tasks.Tests.{alone, bytes}
use repo_mender.Tasks.Types.{Task, Run, Database}
use repo_mender.Tasks.Store.{create_task, new_task, lacks_fields}
use repo_mender.Repair.Validate.{is_sha}
use repo_mender.Diagnosis.Events.{
  TaskPayload, Codec, string_value, int64_value, WebhookEvent, WorkflowRunEvent, event_from_webhook,
  payload_of, build_task_input, decode_task_payload, valid_repository_name, not_found,
  repository_id_of, handle_webhook,
}
use repo_mender.Tasks.Findings.{finite, create_evidence, create_finding}
use repo_mender.Tasks.Events.{append_run_event}
use repo_mender.Repair.World.{Adapter}
use repo_mender.Diagnosis.Results.{Diagnosis, validate_result, redact_result}
use repo_mender.Diagnosis.Storing.{Work, Provider, Json, Config, Clock, Answer}
use repo_mender.Diagnosis.Processor.{process}
use repo_mender.Diagnosis.Publishing.{IsBacked, process-IsBacked}
use repo_mender.Diagnosis.Intake.{decode_task_payload-encode, IsKnown, handle_webhook-once}
use repo_mender.Diagnosis.Excerpts.Lines.{redact_and_chunk_logs-AreExcerpts}

abbrev chunk : ℕ → ℕ → Text → LogChunk
chunk start_line end_line content = record {
  source = text "workflow.log";
  start_line = start_line;
  end_line = end_line;
  content = content;
}

-- The lines `ab`, an empty one, `token: x`, and one of nine bytes.
abbrev logs : Text
logs = text "ab" ++ 10 ∷ 10 ∷ text "token: x" ++ 13 ∷ 10 ∷ text "123456789"

abbrev patterns : List Text
patterns = text "89" ∷ []

-- Tokens are found at the start of a word, with what follows them in it.
redact-tokens :
    redact [] (text "sk-a- ghp_b-c xghp_d PASSWORD : p;q")
    ≡ text "[REDACTED]- [REDACTED]-c xghp_d PASSWORD=[REDACTED];q"
unfolding redact text has_prefix
redact-tokens = refl

redact-IsClean_example : IsClean 0 (redact patterns logs)
redact-IsClean_example = redact-IsClean patterns logs

abbrev chunks : List LogChunk
chunks =
    chunk 1 2 (text "ab" ++ 10 ∷ [])
    ∷ chunk 3 3 (text "token=[RE")
    ∷ chunk 3 3 (text "DACTED]" ++ [])
    ∷ chunk 4 4 (text "1234567[R")
    ∷ chunk 4 4 (text "EDACTED]")
    ∷ []

logs-chunks : redact_and_chunk_logs logs patterns (pos 9) ≡ ok chunks
unfolding redact_and_chunk_logs redact text valid_utf8 contains_any has_prefix trim_space
logs-chunks = refl

redact_and_chunk_logs_complete_example :
    unlined (contents chunks) ≡ unlined (log_text patterns logs)
redact_and_chunk_logs_complete_example =
    redact_and_chunk_logs_complete logs patterns (pos 9) chunks logs-chunks

redact_and_chunk_logs-AreExcerpts_example :
    All (IsExcerpt (chunk_limit (pos 9)) (split_lines (log_text patterns logs))) chunks
redact_and_chunk_logs-AreExcerpts_example =
    redact_and_chunk_logs-AreExcerpts logs patterns (pos 9) chunks logs-chunks

-- A key at the end of a line takes the line's end with it: line 3 of these logs is called line 2.
shifted_lines :
    redact_and_chunk_logs (text "token:" ++ 10 ∷ text "x" ++ 10 ∷ text "fail") [] (pos 16)
    ≡ ok (chunk 1 1 (text "token=[REDACTED]") ∷ chunk 2 2 (text "fail") ∷ [])
unfolding redact_and_chunk_logs redact text valid_utf8 contains_any has_prefix trim_space
shifted_lines = refl

-- A long line is cut within a character, here U+00E9: neither piece is UTF-8.
split_character :
    redact_and_chunk_logs (195 ∷ 169 ∷ []) [] (pos 1)
    ≡ ok (chunk 1 1 (195 ∷ []) ∷ chunk 1 1 (169 ∷ []) ∷ [])
unfolding redact_and_chunk_logs redact text valid_utf8 contains_any has_prefix trim_space
split_character = refl

abbrev sha : Text
sha = text "0123456789abcdef0123456789abcdef01234567"

abbrev delivery : WebhookEvent
delivery = record {
  delivery_id = text "d";
  event_type = text "workflow_run";
  normalized =
      (text "action", string_value (text "completed"))
      ∷ (text "conclusion", string_value (text "failure"))
      ∷ (text "workflowRunId", int64_value (pos 5))
      ∷ (text "headSHA", string_value sha)
      ∷ (text "repositoryId", int64_value (pos 7))
      ∷ (text "repository", string_value (text "o/r"))
      ∷ (text "cloneURL", string_value (text "u"))
      ∷ [];
}

abbrev run : WorkflowRunEvent
run = record {
  delivery_id = text "d";
  action = text "completed";
  conclusion = text "failure";
  repository_id = text "7";
  repository_name = text "o/r";
  clone_url = text "u";
  web_url = [];
  workflow_run_id = pos 5;
  workflow_name = [];
  head_sha = sha;
  installation_id = [];
}

-- JSON as far as these payloads go.
abbrev codec : Codec
codec = record {
  scan = λ t. none;
  encode_payload = λ p. text "P";
  decode_payload = λ t. some (payload_of run);
}

delivery-run : event_from_webhook codec delivery ≡ ok run
unfolding event_from_webhook text text_eq trim_space decimal is_sha
delivery-run = refl

decode_task_payload-encode_example : decode_task_payload codec (text "P") ≡ ok (payload_of run)
unfolding text trim_space contains_any split_slash text_eq valid_repository_name
decode_task_payload-encode_example = decode_task_payload-encode codec delivery run refl delivery-run

abbrev empty : Database
empty = record { tasks = []; runs = []; events = []; audit = [] }

abbrev diagnose : Task
diagnose =
    new_task (text "00000000-0000-4000-8000-000000000001") ci_diagnosis 5 6
      (build_task_input codec run [])

abbrev once_delivered : Database
once_delivered = record empty { tasks = diagnose ∷ [] }

first_delivery :
    handle_webhook codec none (bytes 1) 5 6 delivery empty ≡ (ok (some diagnose), once_delivered)
unfolding handle_webhook text text_eq trim_space decimal is_sha has_prefix new_id create_task
    valid_kind kind_text lacks_fields
first_delivery = refl

answers_found : (id : Text) → is_ok (repository_id_of (some (λ id. not_found)) id) ≡ true
unfolding repository_id_of
answers_found id = refl

-- Before the delivery comes again, a worker claims the task.
abbrev between : List Call
between = Call.claim (bytes 3) (bytes 4) (alone 7) 7 (text "w") (pos 30) ∷ []

handle_webhook-once_example :
    IsKnown diagnose
      (handle_webhook codec
        (some (λ id. not_found))
        (bytes 2)
        8
        9
        delivery
        (perform_all between once_delivered))
      (perform_all between once_delivered)
unfolding new_id text
handle_webhook-once_example =
    handle_webhook-once between codec none (some (λ id. not_found)) (bytes 1) (bytes 2) 5 6 8 9
      delivery diagnose empty once_delivered first_delivery answers_found refl

abbrev small : Diagnosis
small = record {
  schema_version = text "v1";
  summary = text "token=abc broke it";
  hypotheses =
      record {
        root_cause = text "c";
        component = text "a/b";
        confidence = finite false 3 (negsuc 1);
        evidence =
            record {
              source = text "workflow.log";
              start_line = pos 1;
              end_line = pos 2;
              excerpt = text "x";
            }
            ∷ [];
        reproduction = text "blocked";
        recommended_action = text "r";
      }
      ∷ [];
}

abbrev json : Json
json = record {
  payloads = codec;
  decode_result = λ t. some small;
  encode_chunk = λ c. c.content;
  encode_evidence = λ t es. t;
  encode_external_run = λ t. t;
  encode_summary = λ t n. t;
  digest = λ t. t;
  percent = λ c. text "75%";
}

abbrev config : Config
config = record {
  project_id = [];
  agent_name = [];
  timeout = pos 0;
  patterns = [];
  chunk_size = pos 0;
  output_schema = text "{}";
}

abbrev adapter : Adapter
adapter = record {
  start = λ request. some (text "e");
  events = λ id. ([], true);
  result = λ id. some (text "D");
}

abbrev provider : Provider
provider = record { fetch_logs = λ r i n. some logs; publish = λ p. true }

abbrev clock : Clock
clock = record {
  db_now = 7;
  evidence_draw = λ n. bytes (10 + n);
  finding_draw = λ n. bytes (20 + n);
}

abbrev running_run : Run
running_run = record {
  id = text "r";
  task_id = diagnose.id;
  attempt = 1;
  status = running;
  correlation_id = text "c";
  external_run_id = [];
  error_code = [];
  error_message = [];
  created_at = 7;
  started_at = none;
  finished_at = none;
}

abbrev work : Work
work = record {
  tasks = record once_delivered { runs = running_run ∷ [] };
  reports = record { findings = []; evidence = [] };
  published = [];
}

abbrev diagnosed : Answer
diagnosed = process config json (some adapter) (some provider) clock diagnose running_run work

diagnosed-succeeded :
    (diagnosed.0 ≡ succeeded)
    × (length diagnosed.2.published ≡ 1)
    × (length diagnosed.2.reports.findings ≡ 1)
    × (length diagnosed.2.reports.evidence ≡ 1)
unfolding process text decode_task_payload is_sha split_slash trim_space contains_any text_eq
    append_run_event redact_and_chunk_logs valid_utf8 has_prefix create_evidence create_finding
    new_id validate_result redact_result new_task
diagnosed-succeeded = (refl, refl, refl, refl)

process-IsBacked_example :
    ((diagnosed.0 ≡ failed) × (diagnosed.2.published ≡ work.published))
    ⊎ ((p : TaskPayload) × (decode_task_payload codec diagnose.payload ≡ ok p)
        × IsBacked config json adapter provider clock diagnose running_run work p diagnosed.2)
process-IsBacked_example =
    process-IsBacked config json adapter provider clock diagnose running_run work
