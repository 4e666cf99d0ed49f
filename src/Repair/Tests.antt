-- ===== src/Repair/Tests.antt =====
-- A repair (server/internal/repair) from its issue to its draft pull request, and each theorem at an
-- input that meets its hypotheses.
use repo_mender.Prelude.{
  ℕ, ◌+◌, ◌≡◌, refl, sym, subst, Bool, true, false, ◌&&◌, ◌||◌, not, inl, inr, Option, none, some,
  List, [], ◌∷◌, ◌++◌, Text, text, text_eq, text_eq_iff, trim_space, valid_utf8, contains_any,
  has_prefix, split_slash, contains, to_lower, ℤ, pos, All, length, Result, ok, err, Bool-cases,
  arith, if◌then◌else◌,
}
use repo_mender.Ids.{Draw, new_id}
use repo_mender.Auth.{maintainer}
use repo_mender.Tasks.Status.{issue_repair, running, awaiting_approval}
use repo_mender.Tasks.Tests.{alone, bytes}
use repo_mender.Tasks.Types.{Task, Run}
use repo_mender.Tasks.Trace as Tasks
use repo_mender.Approvals.Types.{approved, DecisionInput}
use repo_mender.Approvals.Validate.{PolicyDecoder}
use repo_mender.Approvals.Service.{Service}
use repo_mender.Approvals.Trace as Approvals
use repo_mender.Repair.Types.{
  patching, plan_approved, Issue, Plan, Patch, Repair, Error, invalid_state, approval_phase,
  github_issue,
}
use repo_mender.Repair.Validate.{
  validate_patch, validate_path, is_protected_path, is_sha, check_file, contains_secret, check_test,
}
use repo_mender.Repair.World.{World, Codec, Provider, Adapter, Clock, Config}
use repo_mender.Repair.Store.{normalize, get_by_task, get_repair}
use repo_mender.Repair.Service.{consume_approval, valid_phase, plan_phase}
use repo_mender.Repair.Phases.{failure}
use repo_mender.Repair.Processor.{process}
use repo_mender.Repair.Trace.{Call, from_issue, working, resuming, approving, queueing, perform_all}
use repo_mender.Repair.Backed.{IsCleared, StoresPatches}
use repo_mender.Repair.Backed.PatchStage.{ReadsPatches}
use repo_mender.Repair.Backed.Trace.{perform_all-IsCleared}
use repo_mender.Repair.Resuming.{consume_approval-repeat}

abbrev sha : Text
sha = text "0123456789abcdef0123456789abcdef01234567"

abbrev digest_a : Text
digest_a = text "aaaaaaaaaaaaaaaabbbbbbbbbbbbbbbbccccccccccccccccdddddddddddddddd"

abbrev digest_b : Text
digest_b = text "bbbbbbbbbbbbbbbbaaaaaaaaaaaaaaaaddddddddddddddddcccccccccccccccc"

abbrev small_plan : Plan
small_plan = record {
  schema_version = text "v1";
  summary = text "fix";
  steps = record { id = text "1"; description = text "edit"; paths = text "a.go" ∷ [] } ∷ [];
  tests = text "go test" ∷ [];
}

abbrev small_patch : Patch
small_patch = record {
  schema_version = text "v1";
  summary = text "fix";
  base_sha = sha;
  diff = text "+x";
  files = record { path = text "a.go"; content = text "x"; generated = false; binary = false } ∷ [];
  tests = record { name = text "t"; command = text "go test"; passed = true; output = [] } ∷ [];
}

-- A workflow file behind a `.` segment is neither unsafe nor protected.
dotted_path :
    (validate_path (text ".github/./workflows/ci.yml") ≡ none)
    × (is_protected_path (text ".github/./workflows/ci.yml") ≡ false)
unfolding validate_path is_protected_path text text_eq trim_space has_prefix contains_any
    split_slash
dotted_path = (refl, refl)

-- One plan and one patch, whose JSON is `A` and `B`.
abbrev tiny_codec : Codec
tiny_codec = record {
  json_valid = λ t. true;
  stored = λ t. t;
  decode_plan = λ t. if text_eq t (text "A") then some small_plan else none;
  decode_patch = λ t. if text_eq t (text "B") then some small_patch else none;
  read_plan = λ t. if text_eq t (text "A") then some small_plan else none;
  read_patch = λ t. if text_eq t (text "B") then some small_patch else none;
  read_diagnosis = λ t. none;
  encode_plan = λ p. text "A";
  encode_patch = λ p. text "B";
  digest_plan = λ p. some digest_a;
  digest_patch = λ p. some digest_b;
  encode_metadata = λ a b c d. text "{}";
  encode_external_run = λ t. text "{}";
  describe = λ e. text "failed";
}

tiny_codec-stores : StoresPatches tiny_codec
unfolding normalize text text_eq
tiny_codec-stores t p e = elim (Bool-cases (text_eq t (text "B"))) [
  | inl same ↦
      subst (λ u. tiny_codec.read_patch (normalize tiny_codec u) ≡ some p)
        (sym ((text_eq_iff t (text "B")).0 same)) (rw same at e)
  | inr other ↦ cc (rw other at e)
]

tiny_codec-reads : ReadsPatches tiny_codec
unfolding text text_eq
tiny_codec-reads t p e = elim (Bool-cases (text_eq t (text "B"))) [
  | inl same ↦ rw same at e
  | inr other ↦ cc (rw other at e)
]

abbrev no_policy : PolicyDecoder
no_policy raw = none

abbrev config : Config
config = record {
  project_id = [];
  agent_name = [];
  timeout = pos 0;
  plan_output_schema = text "plan";
  patch_output_schema = text "patch";
}

abbrev issue : Issue
issue = record {
  provider = text "github";
  repository_id = [];
  repository = text "o/r";
  clone_url = text "u";
  web_url = [];
  installation_id = text "1";
  number = pos 7;
  title = text "Bug";
  body = [];
  state = text "open";
  is_pull_request = false;
  base_branch = text "main";
  base_sha = sha;
}

abbrev adapter : Text → Adapter
adapter output = record {
  start = λ request. some (text "run");
  events = λ id. ([], true);
  result = λ id. some output;
}

abbrev provider : Provider
provider = record {
  resolve_issue = λ a b n. none;
  resolve_base_sha = λ a b c. none;
  publish_draft = λ input. some (record { number = 1; url = text "pr" });
}

abbrev clock : ℕ → ℕ → ℕ → Clock
clock now a b = record { now = now; db_now = now; task_draw = bytes a; draw = bytes b }

abbrev id_of : ℕ → Text
id_of n = text "00000000-0000-4000-8000-00000000000" ++ (48 + n) ∷ []

abbrev task : Task
task = record {
  id = id_of 1;
  kind = issue_repair;
  status = running;
  title = [];
  repository_id = [];
  repository_name = [];
  source_key = [];
  payload = [];
  priority = pos 0;
  attempts = 0;
  max_attempts = 5;
  available_at = 0;
  lease_owner = [];
  lease_until = none;
  last_error = [];
  superseded_by = [];
  created_by = [];
  created_at = 0;
  updated_at = 0;
  started_at = none;
  finished_at = none;
}

abbrev run : ℕ → Run
run n = record {
  id = id_of n;
  task_id = id_of 1;
  attempt = 1;
  status = running;
  correlation_id = [];
  external_run_id = [];
  error_code = [];
  error_message = [];
  created_at = 0;
  started_at = none;
  finished_at = none;
}

abbrev verdict : ℕ → Text → ℕ → DecisionInput
verdict n key now = record {
  approval_id = id_of n;
  actor = record { id = text "bob"; role = maintainer };
  decision = approved;
  reason = [];
  idempotency_key = key;
  now = now;
}

abbrev empty_world : World
empty_world = record {
  tasks = record { tasks = []; runs = []; events = []; audit = [] };
  approvals = record { requests = []; recording = true; recorded = [] };
  repairs = [];
  published = [];
}

-- Until the plan is approved, until the patch is, and to the end.
abbrev planned : List Call
planned =
    from_issue none (clock 10 1 2) issue (text "ann")
    ∷ queueing (Tasks.claim (bytes 3) (bytes 4) (alone 20) 20 (text "w") (pos 100))
    ∷ working (some (adapter (text "A"))) none (clock 30 0 5) task (run 3)
    ∷ queueing (Tasks.complete 35 (id_of 1) (id_of 3) awaiting_approval [] [])
    ∷ approving (Approvals.deciding 40 (verdict 5 (text "decide-01") 40))
    ∷ []

abbrev plan_used : Call
plan_used =
    resuming (clock 50 0 0) (id_of 2) (text "plan") digest_a (text "consume-01") (text "bob")

abbrev finished : List Call
finished =
    queueing (Tasks.claim (bytes 7) (bytes 8) (alone 55) 55 (text "w") (pos 100))
    ∷ working (some (adapter (text "B"))) none (clock 60 0 6) task (run 7)
    ∷ queueing (Tasks.complete 65 (id_of 1) (id_of 7) awaiting_approval [] [])
    ∷ approving (Approvals.deciding 70 (verdict 6 (text "decide-02") 70))
    ∷ resuming (clock 80 0 0) (id_of 2) (text "patch") digest_b (text "consume-02") (text "bob")
    ∷ working none (some provider) (clock 90 0 0) task (run 3)
    ∷ []

abbrev all_calls : List Call
all_calls = planned ++ plan_used ∷ finished

perform_all-IsCleared_example :
    All
      (IsCleared tiny_codec
        (perform_all no_policy config tiny_codec all_calls empty_world).approvals.requests)
      (perform_all no_policy config tiny_codec all_calls empty_world).published
perform_all-IsCleared_example =
    perform_all-IsCleared no_policy config tiny_codec all_calls empty_world tiny_codec-stores
      tiny_codec-reads refl refl

abbrev approved_plan : Repair
approved_plan = record {
  id = id_of 2;
  task_id = id_of 1;
  source_key = text "github:issue:o/r:7";
  trigger = github_issue;
  repository_id = [];
  repository = text "o/r";
  clone_url = text "u";
  web_url = [];
  installation_id = text "1";
  issue_number = pos 7;
  issue_title = text "Bug";
  issue_body = [];
  base_branch = text "main";
  base_sha = sha;
  state = plan_approved;
  plan = text "A";
  plan_digest = digest_a;
  plan_approval_id = id_of 5;
  patch = text "{}";
  patch_digest = [];
  patch_approval_id = [];
  branch_name = [];
  draft_pr = record { number = 0; url = [] };
  failure_code = [];
  failure_message = [];
  created_by = text "ann";
  created_at = 10;
  updated_at = 50;
}

abbrev before_resume : World
before_resume = perform_all no_policy config tiny_codec planned empty_world

abbrev resume_plan : World → Result Error Repair × World
resume_plan w =
    consume_approval tiny_codec (clock 50 0 0) (id_of 2) (text "plan") digest_a (text "consume-01")
      (text "bob") w

-- The calls publish once, and a plan that is approved is resumed.
runs :
    (length (perform_all no_policy config tiny_codec all_calls empty_world).published ≡ 1)
    × (resume_plan before_resume ≡ (ok approved_plan, (resume_plan before_resume).1))
unfolding repo_mender.Prelude.text repo_mender.Prelude.text_eq repo_mender.Prelude.contains
    repo_mender.Prelude.contains_any repo_mender.Prelude.trim_space repo_mender.Prelude.split_slash
    repo_mender.Prelude.to_lower repo_mender.Prelude.valid_utf8 repo_mender.Prelude.decimal
    repo_mender.Ids.new_id repo_mender.Tasks.Status.kind_text repo_mender.Tasks.Status.valid_kind
    repo_mender.Tasks.Status.can_transition repo_mender.Tasks.Store.lacks_fields
    repo_mender.Tasks.Store.new_task repo_mender.Tasks.Store.create_task
    repo_mender.Tasks.Store.retried_task repo_mender.Tasks.Store.retry_task
    repo_mender.Tasks.Queue.claimable repo_mender.Tasks.Queue.is_free
    repo_mender.Tasks.Queue.violates_runs repo_mender.Tasks.Queue.pick
    repo_mender.Tasks.Queue.fail_expired repo_mender.Tasks.Queue.claimed_task
    repo_mender.Tasks.Queue.claimed_run repo_mender.Tasks.Queue.commit_claim
    repo_mender.Tasks.Queue.claim_task repo_mender.Tasks.Events.append_run_event
    repo_mender.Tasks.Trace.perform repo_mender.Approvals.Types.action_text
    repo_mender.Approvals.Types.risk_text repo_mender.Approvals.Types.valid_action
    repo_mender.Approvals.Types.valid_risk repo_mender.Approvals.Types.is_expired_at
    repo_mender.Approvals.Types.can_consume repo_mender.Approvals.Validate.validate_action_digest
    repo_mender.Approvals.Validate.validate_idempotency_key
    repo_mender.Approvals.Validate.validate_create repo_mender.Approvals.Store.new_request
    repo_mender.Approvals.Store.create_row repo_mender.Approvals.Store.get_row
    repo_mender.Approvals.Store.decided_request repo_mender.Approvals.Store.decide_found
    repo_mender.Approvals.Store.decide_row repo_mender.Approvals.Store.consumed_request
    repo_mender.Approvals.Store.consume_found repo_mender.Approvals.Store.consume_row
    repo_mender.Approvals.Service.note repo_mender.Approvals.Service.create
    repo_mender.Approvals.Service.decide repo_mender.Approvals.Service.consume
    repo_mender.Approvals.Trace.perform repo_mender.Repair.Validate.is_sha
    repo_mender.Repair.Validate.validate_issue repo_mender.Repair.Validate.is_protected_path
    repo_mender.Repair.Validate.contains_secret repo_mender.Repair.Validate.validate_plan
    repo_mender.Repair.Validate.check_file repo_mender.Repair.Validate.check_test
    repo_mender.Repair.Validate.validate_patch repo_mender.Repair.Store.get_repair
    repo_mender.Repair.Store.get_by_task repo_mender.Repair.Store.new_repair
    repo_mender.Repair.Store.validate_create_input repo_mender.Repair.Store.create_repair
    repo_mender.Repair.Store.normalize repo_mender.Repair.Store.written
    repo_mender.Repair.Store.update_rows repo_mender.Repair.Store.update_repair
    repo_mender.Repair.Service.resolve repo_mender.Repair.Service.create_from_issue
    repo_mender.Repair.Service.valid_phase repo_mender.Repair.Service.next_approved_state
    repo_mender.Repair.Service.expected_state repo_mender.Repair.Service.approval_id
    repo_mender.Repair.Service.phase_action repo_mender.Repair.Service.resumed
    repo_mender.Repair.Service.consume_approval repo_mender.Repair.Service.repair_approval_input
    repo_mender.Repair.Phases.persist repo_mender.Repair.Running.run_ac
    repo_mender.Repair.Phases.generate_plan repo_mender.Repair.Phases.generate_patch
    repo_mender.Repair.Processor.publish repo_mender.Repair.Processor.process
    repo_mender.Repair.Trace.perform repo_mender.Repair.Trace.perform_all
    repo_mender.Tasks.Queue.completed_task repo_mender.Tasks.Queue.completed_run
    repo_mender.Tasks.Queue.complete_checked repo_mender.Tasks.Queue.complete_run
    repo_mender.Tasks.Queue.complete_task
runs = (refl, refl)

consume_approval-repeat_example :
    consume_approval tiny_codec
      (clock 99 0 0)
      (id_of 2)
      (text "plan")
      digest_b
      []
      []
      (resume_plan before_resume).1
    ≡ (ok approved_plan, (resume_plan before_resume).1)
unfolding text trim_space valid_phase text_eq
consume_approval-repeat_example =
    consume_approval-repeat tiny_codec (clock 50 0 0) (clock 99 0 0) (id_of 2) (text "plan")
      digest_a digest_b (text "consume-01") [] (text "bob") [] plan_phase approved_plan
      before_resume (resume_plan before_resume).1 refl refl runs.1

abbrev stuck : Repair
stuck = record approved_plan { state = patching }

abbrev stuck_world : World
stuck_world = record empty_world { repairs = stuck ∷ [] }

-- A repair that is found in the state `patching` is refused by both.
stuck_stays :
    (process no_policy config tiny_codec
        (some (adapter (text "B")))
        none
        (clock 60 0 6)
        task
        (run 3)
        stuck_world
      ≡ (failure (text "m8_invalid_state") invalid_state, stuck_world))
    × (consume_approval tiny_codec
          (clock 60 0 6)
          (id_of 2)
          (text "plan")
          digest_a
          (text "consume-01")
          (text "bob")
          stuck_world
        ≡ (err approval_phase, stuck_world))
unfolding text trim_space valid_phase text_eq get_by_task get_repair process consume_approval
    repo_mender.Repair.Service.next_approved_state repo_mender.Repair.Service.expected_state
stuck_stays = (refl, refl)
