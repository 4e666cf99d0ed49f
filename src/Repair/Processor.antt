-- ===== src/Repair/Processor.antt =====
-- `publish` and `Process` of server/internal/repair/processor.go, one phase per claimed task.
use repo_mender.Prelude.{
  Bool, true, false, ◌&&◌, ◌||◌, not, Option, none, some, [], ◌∷◌, ◌++◌, text, is_empty, ok, err,
  if◌then◌else◌,
}
use repo_mender.Tasks.Status.{succeeded}
use repo_mender.Tasks.Types.{Task, Run}
use repo_mender.Approvals.Validate.{PolicyDecoder}
use repo_mender.Repair.Types.{
  State, planning, plan_approved, patching, patch_approved, published, failed, state_eq, Patch,
  Repair, PublishInput, DraftPullRequest, provider_failure, json_failed, adapter_missing,
  invalid_state,
}
use repo_mender.Repair.Validate.{validate_patch}
use repo_mender.Repair.World.{World, Codec, Provider, Adapter, Clock, Config}
use repo_mender.Repair.Store.{get_by_task}
use repo_mender.Repair.Phases.{
  Answer, failure, persist, fail, patch_error_code, generate_plan, generate_patch,
}

unfoldable pub publication : Repair → Patch → PublishInput
publication r patch = record {
  repository = r.repository;
  installation_id = r.installation_id;
  base_branch = r.base_branch;
  base_sha = r.base_sha;
  branch_name = r.branch_name;
  title = text "Repair: " ++ r.issue_title;
  body = patch.summary;
  files = patch.files;
}

unfoldable pub drafted : Codec → Clock → Repair → Option DraftPullRequest → World → Answer
drafted codec clock r none w =
    fail codec clock.now r (text "m8_publication_failed") provider_failure w
drafted codec clock r (some pr) w =
    persist codec clock.now
      (record r { draft_pr = pr; state = published; failure_code = []; failure_message = [] }) w
      (λ after. (record { status = succeeded; code = []; cause = none }, after))

unfoldable pub publish_patch : Option Provider → Codec → Clock → Repair → Patch → World → Answer
unfolding drafted
publish_patch none codec clock r patch w =
    fail codec clock.now r (text "m8_provider_unavailable") provider_failure w
publish_patch (some provider) codec clock r patch w =
    drafted codec clock r (provider.publish_draft (publication r patch))
      (record w { published = w.published ++ publication r patch ∷ [] })

unfoldable pub publish_read :
    Option Provider → Codec → Clock → Repair → Option Patch → World → Answer
unfolding publish_patch
publish_read provider codec clock r none w =
    fail codec clock.now r (text "m8_patch_missing") json_failed w
publish_read provider codec clock r (some patch) w = elim (validate_patch patch r.base_sha) [
  | some e ↦ fail codec clock.now r (patch_error_code e) e w
  | none ↦ publish_patch provider codec clock r patch w
]

unfoldable pub publish : Option Provider → Codec → Clock → Repair → World → Answer
unfolding publish_read
publish provider codec clock repair w =
    let r : Repair = record repair { state = patch_approved } in
    publish_read provider codec clock r (codec.read_patch r.patch) w

-- Where the state needs the adapter and there is none.
abbrev pub needs_adapter : Repair → Bool
needs_adapter r =
    state_eq r.state planning
    || state_eq r.state plan_approved
    || state_eq r.state patching
    || (state_eq r.state failed && is_empty r.patch_digest)

-- The adapter where the state needs it; a failed repair with a patch digest, but without a patch
-- approval, would call a nil adapter, and Go panics.
unfoldable pub with_adapter : Option Adapter → World → (Adapter → Answer) → Answer
with_adapter none w next = (failure (text "panic") adapter_missing, w)
with_adapter (some adapter) w next = next adapter

unfoldable pub process_failed :
    PolicyDecoder
    → Config
    → Codec
    → Option Adapter
    → Option Provider
    → Clock
    → Task
    → Run
    → Repair
    → World
    → Answer
unfolding with_adapter
process_failed decode config codec adapter provider clock task run r w =
    if not (is_empty r.patch_approval_id) && not (is_empty r.patch_digest)
    then publish provider codec clock r w
    else if not (is_empty r.plan_approval_id) && not (is_empty r.plan_digest)
    then with_adapter adapter w (λ a. generate_patch decode config codec a clock task run r w)
    else with_adapter adapter w (λ a. generate_plan decode config codec a clock task run r w)

unfoldable pub process_state :
    PolicyDecoder
    → Config
    → Codec
    → Option Adapter
    → Option Provider
    → Clock
    → Task
    → Run
    → Repair
    → State
    → World
    → Answer
unfolding process_failed with_adapter
process_state decode config codec adapter provider clock task run r planning w =
    with_adapter adapter w (λ a. generate_plan decode config codec a clock task run r w)
process_state decode config codec adapter provider clock task run r plan_approved w =
    with_adapter adapter w (λ a. generate_patch decode config codec a clock task run r w)
process_state decode config codec adapter provider clock task run r patch_approved w =
    publish provider codec clock r w
process_state decode config codec adapter provider clock task run r failed w =
    process_failed decode config codec adapter provider clock task run r w
process_state decode config codec adapter provider clock task run r _ w =
    (failure (text "m8_invalid_state") invalid_state, w)

abbrev pub is_missing : Option Adapter → Bool
is_missing none = true
is_missing (some a) = false

unfoldable pub process_repair :
    PolicyDecoder
    → Config
    → Codec
    → Option Adapter
    → Option Provider
    → Clock
    → Task
    → Run
    → Repair
    → World
    → Answer
unfolding process_state
process_repair decode config codec adapter provider clock task run r w =
    if is_missing adapter && needs_adapter r
    then fail codec clock.now r (text "m8_ac_unavailable") adapter_missing w
    else process_state decode config codec adapter provider clock task run r r.state w

-- `Process`
unfoldable pub process :
    PolicyDecoder
    → Config
    → Codec
    → Option Adapter
    → Option Provider
    → Clock
    → Task
    → Run
    → World
    → Answer
unfolding process_repair
process decode config codec adapter provider clock task run w =
    elim (get_by_task task.id w.repairs) [
      | err e ↦ (failure (text "m8_repair_not_found") e, w)
      | ok r ↦ process_repair decode config codec adapter provider clock task run r w
    ]
