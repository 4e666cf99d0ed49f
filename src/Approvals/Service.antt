-- ===== src/Approvals/Service.antt =====
-- The approval service: server/internal/approvals/service.go. Its audit recorder is a log of the
-- entries that it was handed, its clock an argument of each operation.
use repo_mender.Prelude.{
  Bool, ◌&&◌, not, none, some, List, [], ◌∷◌, ◌++◌, Text, text, text_eq, trim_space, is_blank,
  is_empty, any, ℤ, Result, ok, err, ◌==◌, if◌then◌else◌,
}
use repo_mender.Ids.{Draw}
use repo_mender.Auth.{Role, User, role_eq}
use repo_mender.Approvals.Types.{
  Time, approved, rejected, state_eq, state_text, action_text, risk_text, valid_state, Request,
  CreateInput, DecisionInput, ConsumeInput, CancelInput, Error, invalid_state, invalid_digest,
  invalid_idempotency, forbidden, is_expired, is_rejected, is_cancelled, is_consumed,
  digest_mismatch,
}
use repo_mender.Approvals.Validate.{
  PolicyDecoder, validate_create, validate_action_digest, validate_idempotency_key, is_privileged,
}
use repo_mender.Approvals.Store.{
  create_row, get_row, list_rows, decide_row, consume_row, cancel_row,
}

-- `tasks.AuditInput`, its metadata before `json.Marshal`.
pub record Entry : Type 0 where
  pub actor_id : Text
  pub action : Text
  pub resource_id : Text
  pub outcome : Text
  pub metadata : List (Text × Text)

-- The table, whether there is an audit recorder, and what it was handed.
pub record Service : Type 0 where
  pub requests : List Request
  pub recording : Bool
  pub recorded : List Entry

abbrev pub ServiceResult : Type 0 → Type 0
ServiceResult A = Result Error A × Service

-- `record`
unfoldable pub note : Text → Text → Text → Text → List (Text × Text) → Service → Service
note actor action resource outcome metadata s =
    if s.recording
    then record s {
      recorded =
          s.recorded
          ++ record {
            actor_id = actor;
            action = action;
            resource_id = resource;
            outcome = outcome;
            metadata = metadata;
          }
            ∷ [];
    }
    else s

unfoldable pub audit_outcome : Error → Text
audit_outcome is_expired = text "expired"
audit_outcome forbidden = text "denied"
audit_outcome is_rejected = text "rejected"
audit_outcome is_cancelled = text "cancelled"
audit_outcome is_consumed = text "already_consumed"
audit_outcome digest_mismatch = text "digest_mismatch"
audit_outcome _ = text "failed"

abbrev pub contains_role : List Role → Role → Bool
contains_role roles wanted = any (λ role. role_eq role wanted) roles

unfoldable pub can_decide : User → Request → Bool
can_decide actor r = is_privileged actor.role && contains_role r.eligible_roles actor.role

-- A clock that is read where the input has no time.
abbrev pub or_now : Time → Time → Time
or_now t now = if t == 0 then now else t

unfoldable pub create_noted : CreateInput → Result Error Request → Service → ServiceResult Request
create_noted input (err e) s = (err e, s)
create_noted input (ok r) s = (
  ok r,
  note input.requester_id (text "approval.request") r.id (text "accepted")
      ((text "action", action_text r.action)
        ∷ (text "risk", risk_text r.risk)
        ∷ (text "actionDigest", r.action_digest)
        ∷ [])
      s,
)

unfoldable pub create : PolicyDecoder → Draw → Time → CreateInput → Service → ServiceResult Request
unfolding create_noted
create decode draw now input s = elim (validate_create decode input now) [
  | some e ↦ (err e, s)
  | none ↦
      let (result, rows) =
        create_row draw now (record input { requested_at = or_now input.requested_at now })
          s.requests in
      create_noted input result (record s { requests = rows })
]

unfoldable pub get : Text → Service → Result Error Request
get id s = get_row (trim_space id) s.requests

unfoldable pub list : Text → ℤ → Service → Result Error (List Request)
list state limit s =
    if is_empty state then ok (list_rows none limit s.requests) else elim (valid_state state) [
      | none ↦ err invalid_state
      | some wanted ↦ ok (list_rows (some wanted) limit s.requests)
    ]

abbrev decision_metadata : DecisionInput → Text → List (Text × Text)
decision_metadata input reason =
    (text "decision", state_text input.decision) ∷ (text "reason", reason) ∷ []

unfoldable pub decide_noted :
    DecisionInput → Request → Result Error Request → Service → ServiceResult Request
unfolding audit_outcome
decide_noted input r (err e) s = (
  err e,
  note input.actor.id (text "approval.decision") r.id (audit_outcome e)
      (decision_metadata input input.reason) s,
)
decide_noted input r (ok decided) s = (
  ok decided,
  note input.actor.id (text "approval.decision") decided.id (state_text decided.state)
      (decision_metadata input input.reason) s,
)

unfoldable pub decide_seen : DecisionInput → Request → Service → ServiceResult Request
unfolding can_decide decide_noted
decide_seen input r s =
    if not (can_decide input.actor r)
    then (
      err forbidden,
      note input.actor.id (text "approval.decision") r.id (text "denied")
          (decision_metadata input (text "role_not_eligible")) s,
    )
    else let (result, rows) = decide_row input s.requests in
      decide_noted input r result (record s { requests = rows })

unfoldable pub decide : Time → DecisionInput → Service → ServiceResult Request
unfolding decide_seen
decide now input s =
    if not (state_eq input.decision approved) && not (state_eq input.decision rejected)
    then (err invalid_state, s)
    else if not (validate_idempotency_key input.idempotency_key)
    then (err invalid_idempotency, s)
    else elim (get_row (trim_space input.approval_id) s.requests) [
      | err e ↦ (err e, s)
      | ok r ↦ decide_seen (record input { now = or_now input.now now }) r s
    ]

unfoldable pub consume_noted : ConsumeInput → Result Error Request → Service → ServiceResult Request
unfolding audit_outcome
consume_noted input (err e) s = (
  err e,
  note input.actor_id (text "approval.consume") input.approval_id (audit_outcome e)
      ((text "actionDigest", input.action_digest) ∷ []) s,
)
consume_noted input (ok r) s = (
  ok r,
  note input.actor_id (text "approval.consume") r.id (text "consumed")
      ((text "actionDigest", input.action_digest) ∷ []) s,
)

unfoldable pub consume_timed : ConsumeInput → Service → ServiceResult Request
unfolding consume_noted
consume_timed input s =
    let (result, rows) = consume_row input s.requests in
    consume_noted input result (record s { requests = rows })

unfoldable pub consume : Time → ConsumeInput → Service → ServiceResult Request
unfolding consume_timed
consume now input s =
    if is_blank input.actor_id
    then (err forbidden, s)
    else if not (validate_action_digest input.action_digest)
    then (err invalid_digest, s)
    else if not (validate_idempotency_key input.idempotency_key)
    then (err invalid_idempotency, s)
    else consume_timed (record input { now = or_now input.now now }) s

unfoldable pub cancel_noted :
    CancelInput → Request → Result Error Request → Service → ServiceResult Request
unfolding audit_outcome
cancel_noted input r (err e) s = (
  err e,
  note input.actor.id (text "approval.cancel") r.id (audit_outcome e)
      ((text "reason", input.reason) ∷ []) s,
)
cancel_noted input r (ok cancelled) s = (
  ok cancelled,
  note input.actor.id (text "approval.cancel") cancelled.id (text "cancelled")
      ((text "reason", input.reason) ∷ []) s,
)

unfoldable pub cancel_seen : CancelInput → Request → Service → ServiceResult Request
unfolding cancel_noted
cancel_seen input r s =
    if not (text_eq input.actor.id r.requester_id) && not (is_privileged input.actor.role)
    then (
      err forbidden,
      note input.actor.id (text "approval.cancel") r.id (text "denied")
          ((text "reason", text "role_not_eligible") ∷ []) s,
    )
    else let (result, rows) = cancel_row input s.requests in
      cancel_noted input r result (record s { requests = rows })

unfoldable pub cancel : Time → CancelInput → Service → ServiceResult Request
unfolding cancel_seen
cancel now input s =
    if is_blank input.actor.id
    then (err forbidden, s)
    else elim (get_row (trim_space input.approval_id) s.requests) [
      | err e ↦ (err e, s)
      | ok r ↦ cancel_seen (record input { now = or_now input.now now }) r s
    ]
