-- ===== src/Approvals/Types.antt =====
-- Approval requests, their inputs and their state machine: server/internal/approvals/types.go.
use repo_mender.Prelude.{
  ℕ, Bool, ◌&&◌, Option, none, some, List, [], ◌∷◌, Text, text, text_eq, any, leb, ◌==◌,
  if◌then◌else◌,
}
use repo_mender.Auth.{Role, User}

abbrev pub Time : Type 0
Time = ℕ

pub data Action : Type 0 where
  repair_plan publish_patch sandbox_network : Action

pub data Risk : Type 0 where
  low medium high critical : Risk

pub data State : Type 0 where
  pending approved rejected expired cancelled consumed : State

unfoldable pub action_text : Action → Text
action_text repair_plan = text "repair_plan"
action_text publish_patch = text "publish_patch"
action_text sandbox_network = text "sandbox_network"

unfoldable pub risk_text : Risk → Text
risk_text low = text "low"
risk_text medium = text "medium"
risk_text high = text "high"
risk_text critical = text "critical"

unfoldable pub state_text : State → Text
state_text pending = text "pending"
state_text approved = text "approved"
state_text rejected = text "rejected"
state_text expired = text "expired"
state_text cancelled = text "cancelled"
state_text consumed = text "consumed"

abbrev state_rank : State → ℕ
state_rank pending = 0
state_rank approved = 1
state_rank rejected = 2
state_rank expired = 3
state_rank cancelled = 4
state_rank consumed = 5

abbrev pub state_eq : State → State → Bool
state_eq a b = state_rank a == state_rank b

abbrev action_rank : Action → ℕ
action_rank repair_plan = 0
action_rank publish_patch = 1
action_rank sandbox_network = 2

abbrev pub action_eq : Action → Action → Bool
action_eq a b = action_rank a == action_rank b

-- `ValidAction`, `ValidRisk` and `ValidState`, which also tell which constant the text is.
unfoldable pub valid_action : Text → Option Action
valid_action t =
    if text_eq t (action_text repair_plan)
    then some repair_plan
    else if text_eq t (action_text publish_patch)
    then some publish_patch
    else if text_eq t (action_text sandbox_network)
    then some sandbox_network
    else none

unfoldable pub valid_risk : Text → Option Risk
valid_risk t =
    if text_eq t (risk_text low)
    then some low
    else if text_eq t (risk_text medium)
    then some medium
    else if text_eq t (risk_text high)
    then some high
    else if text_eq t (risk_text critical)
    then some critical
    else none

unfoldable pub valid_state : Text → Option State
valid_state t =
    if text_eq t (state_text pending)
    then some pending
    else if text_eq t (state_text approved)
    then some approved
    else if text_eq t (state_text rejected)
    then some rejected
    else if text_eq t (state_text expired)
    then some expired
    else if text_eq t (state_text cancelled)
    then some cancelled
    else if text_eq t (state_text consumed)
    then some consumed
    else none

abbrev allowed : State → List State
allowed pending = approved ∷ rejected ∷ expired ∷ cancelled ∷ []
allowed approved = consumed ∷ cancelled ∷ []
allowed _ = []

unfoldable pub can_transition : State → State → Bool
can_transition from to = any (λ candidate. state_eq candidate to) (allowed from)

-- `nil` times are `none`; an empty text column stands for its NULL.
pub record Request : Type 0 where
  pub id : Text
  pub action : Action
  pub state : State
  pub risk : Risk
  pub action_digest : Text
  pub requester_id : Text
  pub eligible_roles : List Role
  pub requested_at : Time
  pub expires_at : Time
  pub decision_idempotency_key : Text
  pub decision_actor_id : Text
  pub decision_reason : Text
  pub decided_at : Option Time
  pub consumption_idempotency_key : Text
  pub consumed_by : Text
  pub consumed_at : Option Time
  pub cancelled_by : Text
  pub cancel_reason : Text
  pub cancelled_at : Option Time
  pub metadata : Text
  pub updated_at : Time

-- `action` and `risk` are texts until `validate_create` has seen them.
pub record CreateInput : Type 0 where
  pub action : Text
  pub risk : Text
  pub action_digest : Text
  pub requester_id : Text
  pub eligible_roles : List Role
  pub expires_at : Time
  pub metadata : Option Text
  pub requested_at : Time

pub record DecisionInput : Type 0 where
  pub approval_id : Text
  pub actor : User
  pub decision : State
  pub reason : Text
  pub idempotency_key : Text
  pub now : Time

pub record ConsumeInput : Type 0 where
  pub approval_id : Text
  pub actor_id : Text
  pub action_digest : Text
  pub idempotency_key : Text
  pub now : Time

pub record CancelInput : Type 0 where
  pub approval_id : Text
  pub actor : User
  pub reason : Text
  pub now : Time

pub data Error : Type 0 where
  invalid_action invalid_risk invalid_state invalid_digest invalid_expiry invalid_idempotency :
      Error
  forbidden not_found already_decided is_expired is_rejected is_cancelled is_consumed : Error
  digest_mismatch idempotency_conflict requester_required roles_required : Error
  metadata_invalid policy_required destination_invalid random_failed check_failed : Error

-- `Request.IsExpired`
unfoldable pub is_expired_at : Time → Request → Bool
is_expired_at now r = state_eq r.state pending && leb r.expires_at now

-- `Request.CanConsume`: the error, or nothing.
state_refusal : State → Option Error
state_refusal approved = none
state_refusal rejected = some is_rejected
state_refusal cancelled = some is_cancelled
state_refusal consumed = some is_consumed
state_refusal expired = some is_expired
state_refusal pending = some invalid_state

unfoldable pub can_consume : Time → Request → Option Error
unfolding state_refusal
can_consume now r = if is_expired_at now r then some is_expired else state_refusal r.state
