-- ===== src/Repair/Types.antt =====
-- Issue repairs, their plans and patches, and their state machine: server/internal/repair/types.go.
use repo_mender.Prelude.{
  ℕ, Bool, true, ◌&&◌, ◌||◌, Option, none, some, List, [], ◌∷◌, Text, text, text_eq, ℤ, any, ◌==◌,
  if◌then◌else◌,
}

abbrev pub Time : Type 0
Time = ℕ

pub data State : Type 0 where
  planning awaiting_plan_approval plan_approved patching awaiting_patch_approval : State
  patch_approved published failed cancelled : State

unfoldable pub state_text : State → Text
state_text planning = text "planning"
state_text awaiting_plan_approval = text "awaiting_plan_approval"
state_text plan_approved = text "plan_approved"
state_text patching = text "patching"
state_text awaiting_patch_approval = text "awaiting_patch_approval"
state_text patch_approved = text "patch_approved"
state_text published = text "published"
state_text failed = text "failed"
state_text cancelled = text "cancelled"

abbrev rank : State → ℕ
rank planning = 0
rank awaiting_plan_approval = 1
rank plan_approved = 2
rank patching = 3
rank awaiting_patch_approval = 4
rank patch_approved = 5
rank published = 6
rank failed = 7
rank cancelled = 8

abbrev pub state_eq : State → State → Bool
state_eq a b = rank a == rank b

-- `ValidState`, which also tells which constant the text is.
unfoldable pub valid_state : Text → Option State
valid_state t =
    if text_eq t (state_text planning)
    then some planning
    else if text_eq t (state_text awaiting_plan_approval)
    then some awaiting_plan_approval
    else if text_eq t (state_text plan_approved)
    then some plan_approved
    else if text_eq t (state_text patching)
    then some patching
    else if text_eq t (state_text awaiting_patch_approval)
    then some awaiting_patch_approval
    else if text_eq t (state_text patch_approved)
    then some patch_approved
    else if text_eq t (state_text published)
    then some published
    else if text_eq t (state_text failed)
    then some failed
    else if text_eq t (state_text cancelled)
    then some cancelled
    else none

abbrev allowed : State → List State
allowed planning = awaiting_plan_approval ∷ failed ∷ cancelled ∷ []
allowed awaiting_plan_approval = plan_approved ∷ failed ∷ cancelled ∷ []
allowed plan_approved = patching ∷ failed ∷ cancelled ∷ []
allowed patching = awaiting_patch_approval ∷ failed ∷ cancelled ∷ []
allowed awaiting_patch_approval = patch_approved ∷ failed ∷ cancelled ∷ []
allowed patch_approved = published ∷ failed ∷ cancelled ∷ []
allowed failed = planning ∷ plan_approved ∷ patch_approved ∷ cancelled ∷ []
allowed _ = []

unfoldable pub can_transition : State → State → Bool
can_transition from to =
    if state_eq from to
      && (state_eq from planning || state_eq from patching || state_eq from failed)
    then true
    else any (λ candidate. state_eq candidate to) (allowed from)

pub data Trigger : Type 0 where
  github_issue m6_diagnosis : Trigger

pub record Issue : Type 0 where
  pub provider : Text
  pub repository_id : Text
  pub repository : Text
  pub clone_url : Text
  pub web_url : Text
  pub installation_id : Text
  pub number : ℤ
  pub title : Text
  pub body : Text
  pub state : Text
  pub is_pull_request : Bool
  pub base_branch : Text
  pub base_sha : Text

pub record PlanStep : Type 0 where
  pub id : Text
  pub description : Text
  pub paths : List Text

pub record Plan : Type 0 where
  pub schema_version : Text
  pub summary : Text
  pub steps : List PlanStep
  pub tests : List Text

pub record PatchFile : Type 0 where
  pub path : Text
  pub content : Text
  pub generated : Bool
  pub binary : Bool

pub record TestResult : Type 0 where
  pub name : Text
  pub command : Text
  pub passed : Bool
  pub output : Text

pub record Patch : Type 0 where
  pub schema_version : Text
  pub summary : Text
  pub base_sha : Text
  pub diff : Text
  pub files : List PatchFile
  pub tests : List TestResult

pub record DraftPullRequest : Type 0 where
  pub number : ℕ
  pub url : Text

-- An empty text column stands for its NULL; `plan` and `patch` are JSON.
pub record Repair : Type 0 where
  pub id : Text
  pub task_id : Text
  pub source_key : Text
  pub trigger : Trigger
  pub repository_id : Text
  pub repository : Text
  pub clone_url : Text
  pub web_url : Text
  pub installation_id : Text
  pub issue_number : ℤ
  pub issue_title : Text
  pub issue_body : Text
  pub base_branch : Text
  pub base_sha : Text
  pub state : State
  pub plan : Text
  pub plan_digest : Text
  pub plan_approval_id : Text
  pub patch : Text
  pub patch_digest : Text
  pub patch_approval_id : Text
  pub branch_name : Text
  pub draft_pr : DraftPullRequest
  pub failure_code : Text
  pub failure_message : Text
  pub created_by : Text
  pub created_at : Time
  pub updated_at : Time

pub record CreateInput : Type 0 where
  pub trigger : Trigger
  pub source_key : Text
  pub task_id : Text
  pub created_by : Text
  pub issue : Issue
  pub created_at : Time

pub record PublishInput : Type 0 where
  pub repository : Text
  pub installation_id : Text
  pub base_branch : Text
  pub base_sha : Text
  pub branch_name : Text
  pub title : Text
  pub body : Text
  pub files : List PatchFile

pub data Error : Type 0 where
  invalid_state invalid_trigger not_found invalid_plan invalid_patch unsafe_path : Error
  protected_path generated_file binary_file patch_too_large secret_detected tests_failed : Error
  provider_failure approval_phase random_failed constraint_failed forbidden : Error
  approval_failed task_failed json_failed requester_missing adapter_missing adapter_failed : Error
