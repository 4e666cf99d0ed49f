-- ===== src/Repair/Phases.antt =====
-- `generatePlan` and `generatePatch` of server/internal/repair/processor.go.
use repo_mender.Prelude.{
  Option, none, some, List, [], ◌∷◌, ◌++◌, Text, text, is_blank, Result, ok, err, if◌then◌else◌,
}
use repo_mender.Tasks.Status.{Status, awaiting_approval}
use repo_mender.Tasks.Types.{Task, Run}
use repo_mender.Approvals.Types.{Request}
use repo_mender.Approvals.Types as Approvals
use repo_mender.Approvals.Validate.{PolicyDecoder}
use repo_mender.Approvals.Service.{create}
use repo_mender.Repair.Types.{
  Time, planning, awaiting_plan_approval, patching, awaiting_patch_approval, Plan, Patch, Repair,
  Error, invalid_plan, invalid_patch, unsafe_path, protected_path, generated_file, binary_file,
  patch_too_large, secret_detected, tests_failed, json_failed, requester_missing, approval_failed,
}
use repo_mender.Repair.Validate.{validate_plan, validate_patch}
use repo_mender.Repair.World.{World, Codec, Adapter, Clock, Config, Outcome}
use repo_mender.Repair.Store.{update_repair}
use repo_mender.Repair.Service.{plan_phase, patch_phase, marked, repair_approval_input}
use repo_mender.Repair.Running.{RunResult, run_ac}

abbrev pub Answer : Type 0
Answer = Outcome × World

abbrev pub failure : Text → Error → Outcome
failure code cause = record { status = Status.failed; code = code; cause = some cause }

-- `if _, err := store.Update(…); err != nil { return …"m8_state_persist_failed"… }`, and what follows.
unfoldable pub persisted : Result Error Repair → World → (World → Answer) → Answer
persisted (err e) w next = (failure (text "m8_state_persist_failed") e, w)
persisted (ok r) w next = next w

unfoldable pub persist : Codec → Time → Repair → World → (World → Answer) → Answer
unfolding persisted
persist codec now r w next =
    let (result, rows) = update_repair codec now r w.repairs in
    persisted result (record w { repairs = rows }) next

-- `Processor.fail`
unfoldable pub fail : Codec → Time → Repair → Text → Error → World → Answer
unfolding persist
fail codec now r code cause w =
    persist codec now (marked codec code cause r) w (λ after. (failure code cause, after))

unfoldable pub patch_error_code : Error → Text
patch_error_code tests_failed = text "m8_tests_failed"
patch_error_code secret_detected = text "m8_secret_detected"
patch_error_code unsafe_path = text "m8_unsafe_path"
patch_error_code protected_path = text "m8_protected_path"
patch_error_code generated_file = text "m8_generated_file"
patch_error_code binary_file = text "m8_binary_file"
patch_error_code patch_too_large = text "m8_patch_too_large"
patch_error_code _ = text "m8_patch_invalid"

-- `strings.Join(…, "\n")`
abbrev pub join_lines : List Text → Text
join_lines [] = []
join_lines (line ∷ []) = line
join_lines (line ∷ next ∷ lines) = line ++ 10 ∷ join_lines (next ∷ lines)

unfoldable pub plan_prompt : Repair → Text
plan_prompt r = join_lines (
    text "Create a structured repair plan for the GitHub issue below."
    ∷ text
        "Inspect only the immutable base commit. Do not modify files, publish branches, merge, or push."
    ∷ text "Return only JSON matching the supplied schema."
    ∷ (text "Repository: " ++ r.clone_url)
    ∷ (text "Base commit: " ++ r.base_sha)
    ∷ (text "Issue: " ++ r.issue_title)
    ∷ (text "Issue body: " ++ r.issue_body)
    ∷ [])

unfoldable pub patch_prompt : Repair → Text → Text
patch_prompt r plan = join_lines (
    text "Implement the approved repair plan at the immutable base commit."
    ∷ text
        "Return only JSON matching the supplied schema. Generate a unified diff and complete text contents for every changed file."
    ∷ text "Run only the configured tests and report each result. Do not publish or merge."
    ∷ (text "Repository: " ++ r.clone_url)
    ∷ (text "Base commit: " ++ r.base_sha)
    ∷ (text "Approved plan: " ++ plan)
    ∷ [])

unfoldable pub plan_requested :
    Codec → Clock → Repair → Plan → Text → Result Approvals.Error Request → World → Answer
plan_requested codec clock r plan digest (err e) w =
    fail codec clock.now r (text "m8_plan_approval_failed") approval_failed w
plan_requested codec clock r plan digest (ok request) w =
    persist codec clock.now
      (record r {
        plan = codec.encode_plan plan;
        plan_digest = digest;
        plan_approval_id = request.id;
        state = awaiting_plan_approval;
      })
      w (λ after. (record { status = awaiting_approval; code = []; cause = none }, after))

unfoldable pub plan_digested :
    PolicyDecoder → Codec → Clock → Repair → Plan → Option Text → World → Answer
unfolding plan_requested
plan_digested decode codec clock r plan none w =
    fail codec clock.now r (text "m8_plan_digest_failed") json_failed w
plan_digested decode codec clock r plan (some digest) w =
    if is_blank r.created_by
    then fail codec clock.now r (text "m8_requester_missing") requester_missing w
    else let (result, approvals) =
        create decode clock.draw clock.now
          (repair_approval_input codec plan_phase r digest r.created_by clock.now) w.approvals in
      plan_requested codec clock r plan digest result (record w { approvals = approvals })

unfoldable pub plan_decoded : PolicyDecoder → Codec → Clock → Repair → Option Plan → World → Answer
unfolding plan_digested
plan_decoded decode codec clock r none w =
    fail codec clock.now r (text "m8_plan_invalid") invalid_plan w
plan_decoded decode codec clock r (some plan) w = elim (validate_plan plan) [
  | some e ↦ fail codec clock.now r (text "m8_plan_invalid") e w
  | none ↦ plan_digested decode codec clock r plan (codec.digest_plan plan) w
]

unfoldable pub plan_received : PolicyDecoder → Codec → Clock → Repair → RunResult → World → Answer
unfolding plan_decoded
plan_received decode codec clock r (err (code, e), db) w =
    fail codec clock.now r code e (record w { tasks = db })
plan_received decode codec clock r (ok output, db) w =
    plan_decoded decode codec clock r (codec.decode_plan output) (record w { tasks = db })

unfoldable pub generate_plan :
    PolicyDecoder → Config → Codec → Adapter → Clock → Task → Run → Repair → World → Answer
unfolding plan_received
generate_plan decode config codec adapter clock task run repair w =
    let r : Repair = record repair { state = planning } in
    persist codec clock.now r w (λ after.
      plan_received decode codec clock r
        (run_ac config codec adapter clock.db_now task run r (plan_prompt r)
          config.plan_output_schema after.tasks)
        after)

unfoldable pub patch_requested :
    Codec → Clock → Repair → Patch → Text → Result Approvals.Error Request → World → Answer
patch_requested codec clock r patch digest (err e) w =
    fail codec clock.now r (text "m8_patch_approval_failed") approval_failed w
patch_requested codec clock r patch digest (ok request) w =
    persist codec clock.now
      (record r {
        patch = codec.encode_patch patch;
        patch_digest = digest;
        patch_approval_id = request.id;
        branch_name = text "repomender/repair/" ++ r.id;
        state = awaiting_patch_approval;
      })
      w (λ after. (record { status = awaiting_approval; code = []; cause = none }, after))

unfoldable pub patch_digested :
    PolicyDecoder → Codec → Clock → Repair → Patch → Option Text → World → Answer
unfolding patch_requested
patch_digested decode codec clock r patch none w =
    fail codec clock.now r (text "m8_patch_digest_failed") json_failed w
patch_digested decode codec clock r patch (some digest) w =
    let (result, approvals) =
      create decode clock.draw clock.now
        (repair_approval_input codec patch_phase r digest r.created_by clock.now) w.approvals in
    patch_requested codec clock r patch digest result (record w { approvals = approvals })

unfoldable pub patch_decoded :
    PolicyDecoder → Codec → Clock → Repair → Option Patch → World → Answer
unfolding patch_digested
patch_decoded decode codec clock r none w =
    fail codec clock.now r (text "m8_patch_invalid") invalid_patch w
patch_decoded decode codec clock r (some patch) w = elim (validate_patch patch r.base_sha) [
  | some e ↦ fail codec clock.now r (patch_error_code e) e w
  | none ↦ patch_digested decode codec clock r patch (codec.digest_patch patch) w
]

unfoldable pub patch_received : PolicyDecoder → Codec → Clock → Repair → RunResult → World → Answer
unfolding patch_decoded
patch_received decode codec clock r (err (code, e), db) w =
    fail codec clock.now r code e (record w { tasks = db })
patch_received decode codec clock r (ok output, db) w =
    patch_decoded decode codec clock r (codec.decode_patch output) (record w { tasks = db })

unfoldable pub patch_from_plan :
    PolicyDecoder
    → Config
    → Codec
    → Adapter
    → Clock
    → Task
    → Run
    → Repair
    → Option Plan
    → World
    → Answer
unfolding patch_received
patch_from_plan decode config codec adapter clock task run r none w =
    fail codec clock.now r (text "m8_plan_missing") json_failed w
patch_from_plan decode config codec adapter clock task run r (some plan) w =
    patch_received decode codec clock r
      (run_ac config codec adapter clock.db_now task run r (patch_prompt r (codec.encode_plan plan))
        config.patch_output_schema w.tasks)
      w

unfoldable pub generate_patch :
    PolicyDecoder → Config → Codec → Adapter → Clock → Task → Run → Repair → World → Answer
unfolding patch_from_plan
generate_patch decode config codec adapter clock task run repair w =
    let r : Repair = record repair { state = patching } in
    persist codec clock.now r w
      (patch_from_plan decode config codec adapter clock task run r (codec.read_plan r.plan))
