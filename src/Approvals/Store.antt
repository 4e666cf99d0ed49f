-- ===== src/Approvals/Store.antt =====
-- The approval table: server/internal/approvals/store.go.
use repo_mender.Prelude.{
  Bool, true, ◌&&◌, ◌||◌, not, Option, none, some, List, [], ◌∷◌, ◌++◌, Text, text, text_eq,
  trim_space, find, update_where, select, take, order_by, ℤ, Result, ok, err, ltb, leb, ◌==◌,
  if◌then◌else◌, is_some,
}
use repo_mender.Ids.{Draw, new_id}
use repo_mender.Tasks.Tables.{clamp_limit}
use repo_mender.Approvals.Types.{
  Time, Action, Risk, State, pending, approved, rejected, expired, cancelled, consumed, state_eq,
  valid_action, valid_risk, Request, CreateInput, DecisionInput, ConsumeInput, CancelInput, Error,
  invalid_action, invalid_risk, not_found, already_decided, is_expired, is_rejected, is_cancelled,
  is_consumed, digest_mismatch, idempotency_conflict, random_failed, check_failed, is_expired_at,
  can_consume,
}

-- A transaction: its result, and the table once it is committed or rolled back.
abbrev pub Operation : Type 0 → Type 0
Operation A = List Request → Result Error A × List Request

abbrev pub find_request : Text → List Request → Option Request
find_request id rows = find (λ r. text_eq r.id id) rows

-- `UPDATE approval_requests SET … WHERE id = $1`
abbrev pub update_request : Text → (Request → Request) → List Request → List Request
update_request id f rows = update_where (λ r. text_eq r.id id) f rows

abbrev or_default : Option Text → Text → Text
or_default none d = d
or_default (some t) d = t

unfoldable pub new_request : Text → Action → Risk → Time → CreateInput → Request
new_request id action risk now input = record {
  id = id;
  action = action;
  state = pending;
  risk = risk;
  action_digest = trim_space input.action_digest;
  requester_id = input.requester_id;
  eligible_roles = input.eligible_roles;
  requested_at = if input.requested_at == 0 then now else input.requested_at;
  expires_at = input.expires_at;
  decision_idempotency_key = [];
  decision_actor_id = [];
  decision_reason = [];
  decided_at = none;
  consumption_idempotency_key = [];
  consumed_by = [];
  consumed_at = none;
  cancelled_by = [];
  cancel_reason = [];
  cancelled_at = none;
  metadata = or_default input.metadata (text "{}");
  updated_at = now;
}

-- The identifier is the table's primary key, the columns `action` and `risk` have a CHECK for the
-- constants, and the table has one for the two times.
unfoldable pub insert_request : Request → Operation Request
insert_request r rows =
    if is_some (find_request r.id rows) || leb r.expires_at r.requested_at
    then (err check_failed, rows)
    else (ok r, rows ++ r ∷ [])

unfoldable pub create_typed :
    Option Action → Option Risk → Option Text → Time → CreateInput → Operation Request
unfolding insert_request
create_typed none r i now input rows = (err invalid_action, rows)
create_typed (some a) none i now input rows = (err invalid_risk, rows)
create_typed (some a) (some r) none now input rows = (err random_failed, rows)
create_typed (some a) (some r) (some id) now input rows =
    insert_request (new_request id a r now input) rows

unfoldable pub create_row : Draw → Time → CreateInput → Operation Request
unfolding create_typed
create_row draw now input =
    create_typed (valid_action input.action) (valid_risk input.risk) (new_id draw) now input

unfoldable pub get_row : Text → List Request → Result Error Request
get_row id rows = elim (find_request id rows) [ none ↦ err not_found | some r ↦ ok r ]

abbrev newest : Request → Request → Bool
newest a b = ltb b.requested_at a.requested_at

abbrev in_state : Option State → Request → Bool
in_state none r = true
in_state (some s) r = state_eq r.state s

unfoldable pub list_rows : Option State → ℤ → List Request → List Request
list_rows state limit rows =
    take (clamp_limit limit) (order_by newest (select (in_state state) rows))

-- The write that notes an expiry; it is committed although the call returns an error.
unfoldable pub expired_request : Time → Request → Request
expired_request now r = record r { state = expired; updated_at = now }

unfoldable pub expire : Time → Text → Operation Request
expire now id rows = (err is_expired, update_request id (expired_request now) rows)

unfoldable pub state_decision_error : State → Error
state_decision_error expired = is_expired
state_decision_error rejected = is_rejected
state_decision_error cancelled = is_cancelled
state_decision_error consumed = is_consumed
state_decision_error _ = already_decided

unfoldable pub decided_request : DecisionInput → Request → Request
decided_request input r = record r {
  state = input.decision;
  decision_idempotency_key = input.idempotency_key;
  decision_actor_id = input.actor.id;
  decision_reason = trim_space input.reason;
  decided_at = some input.now;
  updated_at = input.now;
}

-- The two outcomes that a repeated decision may repeat.
abbrev pub repeats_decision : Request → DecisionInput → Bool
repeats_decision r input =
    (state_eq r.state approved && state_eq input.decision approved)
    || (state_eq r.state rejected && state_eq input.decision rejected)

unfoldable pub decide_found : DecisionInput → Request → Operation Request
unfolding expire
decide_found input r rows =
    if text_eq r.decision_idempotency_key input.idempotency_key
    then (if repeats_decision r input then ok r else err idempotency_conflict, rows)
    else if is_expired_at input.now r
    then expire input.now r.id rows
    else if not (state_eq r.state pending)
    then (err (state_decision_error r.state), rows)
    else (ok (decided_request input r), update_request r.id (decided_request input) rows)

unfoldable pub decide_row : DecisionInput → Operation Request
decide_row input rows = elim (find_request input.approval_id rows) [
  | none ↦ (err not_found, rows)
  | some r ↦ decide_found input r rows
]

unfoldable pub consumed_request : ConsumeInput → Request → Request
consumed_request input r = record r {
  state = consumed;
  consumption_idempotency_key = input.idempotency_key;
  consumed_by = input.actor_id;
  consumed_at = some input.now;
  updated_at = input.now;
}

unfoldable pub consume_allowed : ConsumeInput → Request → Option Error → Operation Request
consume_allowed input r (some e) rows = (err e, rows)
consume_allowed input r none rows =
    if not (text_eq r.action_digest input.action_digest)
    then (err digest_mismatch, rows)
    else (ok (consumed_request input r), update_request r.id (consumed_request input) rows)

unfoldable pub consume_found : ConsumeInput → Request → Operation Request
unfolding expire consume_allowed
consume_found input r rows =
    if text_eq r.consumption_idempotency_key input.idempotency_key
    then (
      if text_eq r.action_digest input.action_digest && state_eq r.state consumed
          then ok r
          else err idempotency_conflict,
      rows,
    )
    else if is_expired_at input.now r
    then expire input.now r.id rows
    else consume_allowed input r (can_consume input.now r) rows

unfoldable pub consume_row : ConsumeInput → Operation Request
consume_row input rows = elim (find_request input.approval_id rows) [
  | none ↦ (err not_found, rows)
  | some r ↦ consume_found input r rows
]

unfoldable pub cancelled_request : CancelInput → Request → Request
cancelled_request input r = record r {
  state = cancelled;
  cancelled_by = input.actor.id;
  cancel_reason = trim_space input.reason;
  cancelled_at = some input.now;
  updated_at = input.now;
}

unfoldable pub cancel_found : CancelInput → Request → Operation Request
unfolding expire
cancel_found input r rows =
    if is_expired_at input.now r
    then expire input.now r.id rows
    else if not (state_eq r.state pending) && not (state_eq r.state approved)
    then (err (state_decision_error r.state), rows)
    else (ok (cancelled_request input r), update_request r.id (cancelled_request input) rows)

unfoldable pub cancel_row : CancelInput → Operation Request
cancel_row input rows = elim (find_request input.approval_id rows) [
  | none ↦ (err not_found, rows)
  | some r ↦ cancel_found input r rows
]
