-- ===== src/Automations/Types.antt =====
-- Automation templates, their validation and which events they match:
-- server/internal/automations/types.go.
use repo_mender.Prelude.{
  ℕ, Bool, true, false, ◌&&◌, ◌||◌, not, Option, none, some, List, [], ◌∷◌, Text, text, text_eq,
  is_empty, trim_space, contains_any, length, any, ℤ, pos, leb_ℤ, leb, if◌then◌else◌,
}
use repo_mender.Tasks.Status.{code_review, ci_diagnosis, issue_repair, Status, valid_kind}
use repo_mender.Tasks.Types.{Time, Task}

pub record EventFilter : Type 0 where
  pub event : Text
  pub actions : List Text
  pub branches : List Text

pub record Input : Type 0 where
  pub name : Text
  pub description : Text
  pub kind : Text
  pub provider : Text
  pub repository_scope : List Text
  pub event_filters : List EventFilter
  pub agent_template : Text
  pub execution_budget : ℤ
  pub timeout_seconds : ℤ
  pub concurrency_limit : ℤ
  pub risk : Text
  pub approval_policy : Text

-- `input` holds the fields that the method `Input` gathers; `nil` times are `none`.
pub record Template : Type 0 where
  pub id : Text
  pub input : Input
  pub enabled : Bool
  pub version : ℕ
  pub revision : ℕ
  pub created_by : Text
  pub updated_by : Text
  pub published_by : Text
  pub created_at : Time
  pub updated_at : Time
  pub published_at : Option Time

-- `config` before `json.Marshal`: the enabled flag stands in it once more.
pub record Version : Type 0 where
  pub template_id : Text
  pub version : ℕ
  pub enabled : Bool
  pub config : Input
  pub changed_by : Text
  pub changed_at : Time

pub record TriggerInput : Type 0 where
  pub template_id : Text
  pub trigger_key : Text
  pub provider : Text
  pub event : Text
  pub action : Text
  pub branch : Text
  pub repository : Text
  pub repository_id : Text
  pub title : Text
  pub task_payload : Text
  pub source_payload : Text
  pub actor_id : Text
  pub created_at : Time

-- The row of `automation_runs`; the field `TaskStatus` is joined in when a run is read.
pub record Run : Type 0 where
  pub id : Text
  pub template_id : Text
  pub template_version : ℕ
  pub trigger_key : Text
  pub provider : Text
  pub event : Text
  pub action : Text
  pub repository : Text
  pub task_id : Text
  pub status : Text
  pub source_payload : Text
  pub created_by : Text
  pub created_at : Time
  pub updated_at : Time

pub data Error : Type 0 where
  not_found validation conflict is_disabled duplicate_trigger concurrency_limited invalid_trigger :
      Error
  is_published random_failed check_failed malformed_id : Error

-- What `Trigger` returns: a duplicate comes with the run and the task that are there.
pub data TriggerResult : Type 0 where
  scheduled : Run → Task → TriggerResult
  duplicate : Run → Task → Status → TriggerResult
  refused : Error → TriggerResult

-- A member of `seen`.
abbrev pub member : Text → List Text → Bool
member t seen = any (λ s. text_eq s t) seen

-- `strings.ContainsAny(s, "\r\n\t")`
abbrev pub has_control : Text → Bool
has_control s = contains_any (13 ∷ 10 ∷ 9 ∷ []) s

abbrev within : ℤ → ℤ → ℤ → Bool
within low high n = leb_ℤ low n && leb_ℤ n high

-- The loop over the repository scope, with the names that it has seen.
unfoldable pub valid_repositories : List Text → List Text → Bool
valid_repositories seen [] = true
valid_repositories seen (r ∷ rs) =
    let name = trim_space r in
    not (is_empty name)
    && leb (length name) 200
    && not (has_control name)
    && not (text_eq name (text "*"))
    && not (member name seen)
    && valid_repositories (name ∷ seen) rs

-- `allowedEvent[kind]`
unfoldable pub allowed_event : Text → Text
allowed_event kind = elim (valid_kind kind) [
  | some code_review ↦ text "pull_request"
  | some ci_diagnosis ↦ text "workflow_run"
  | some issue_repair ↦ text "issues"
  | none ↦ []
]

-- `allowedActions[event]`
unfoldable pub allowed_actions : Text → List Text
allowed_actions event =
    if text_eq event (text "pull_request")
    then text "opened" ∷ text "reopened" ∷ text "synchronize" ∷ text "ready_for_review" ∷ []
    else if text_eq event (text "workflow_run")
    then text "completed" ∷ []
    else if text_eq event (text "issues")
    then text "opened" ∷ text "reopened" ∷ []
    else []

-- The loop over the actions of a filter.
unfoldable pub valid_actions : List Text → List Text → List Text → Bool
valid_actions known seen [] = true
valid_actions known seen (a ∷ more) =
    let action = trim_space a in
    member action known && not (member action seen) && valid_actions known (action ∷ seen) more

-- The loop over its branches.
unfoldable pub valid_branches : List Text → Bool
valid_branches [] = true
valid_branches (b ∷ bs) =
    let branch = trim_space b in
    not (is_empty branch)
    && leb (length branch) 200
    && not (has_control branch)
    && valid_branches bs

abbrev count_within : ℕ → ℕ → Bool
count_within limit n = leb 1 n && leb n limit

-- `validateEventFilter`: true where it returns no error.
unfoldable pub valid_event_filter : Text → EventFilter → Bool
unfolding allowed_event allowed_actions valid_actions valid_branches
valid_event_filter kind f =
    text_eq f.event (allowed_event kind)
    && count_within 20 (length f.actions)
    && valid_actions (allowed_actions f.event) [] f.actions
    && valid_branches f.branches

unfoldable pub valid_filters : Text → List EventFilter → Bool
unfolding valid_event_filter
valid_filters kind [] = true
valid_filters kind (f ∷ fs) = valid_event_filter kind f && valid_filters kind fs

unfoldable pub valid_risk : Text → Bool
valid_risk risk = member risk (text "low" ∷ text "medium" ∷ text "high" ∷ text "critical" ∷ [])

abbrev known_kind : Text → Bool
known_kind kind = elim (valid_kind kind) [ none ↦ false | some k ↦ true ]

-- `Validate`, whose errors are all `ErrValidation` with a text of their own: true where it returns
-- none.
unfoldable pub validate : Input → Bool
unfolding valid_repositories valid_filters valid_risk
validate input =
    count_within 120 (length (trim_space input.name))
    && leb (length (trim_space input.description)) 2000
    && text_eq input.provider (text "github")
    && known_kind input.kind
    && count_within 100 (length input.repository_scope)
    && valid_repositories [] input.repository_scope
    && count_within 20 (length input.event_filters)
    && valid_filters input.kind input.event_filters
    && count_within 200 (length (trim_space input.agent_template))
    && within (pos 1) (pos 100000) input.execution_budget
    && within (pos 30) (pos 3600) input.timeout_seconds
    && within (pos 1) (pos 20) input.concurrency_limit
    && valid_risk input.risk
    && (text_eq input.approval_policy (text "required")
        || text_eq input.approval_policy (text "risk_based"))
    && not (
        text_eq input.risk (text "critical")
        && not (text_eq input.approval_policy (text "required")))

-- `contains`
abbrev pub contains_trimmed : List Text → Text → Bool
contains_trimmed values wanted = any (λ v. text_eq (trim_space v) (trim_space wanted)) values

-- One round of the loop of `Matches`: true where it returns true.
unfoldable pub filter_matches : EventFilter → Text → Text → Text → Bool
filter_matches f event action branch =
    text_eq f.event event
    && contains_trimmed f.actions action
    && (elim f.branches [ [] ↦ true | b ∷ bs ↦ contains_trimmed f.branches branch ])

-- `Matches`, on the enabled flag and the configuration of a template.
unfoldable pub matches : Bool → Input → Text → Text → Text → Text → Text → Bool
unfolding filter_matches
matches enabled input provider event action branch repository =
    enabled
    && text_eq provider input.provider
    && contains_trimmed input.repository_scope repository
    && any (λ f. filter_matches f event action branch) input.event_filters
