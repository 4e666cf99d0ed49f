-- ===== src/Approvals/Validate.antt =====
-- The checks on approval inputs: server/internal/approvals/types.go.
use repo_mender.Prelude.{
  ℕ, Bool, ◌&&◌, ◌||◌, not, Option, none, some, List, [], ◌∷◌, Text, is_empty, is_blank,
  contains_any, trim_space, any, all, leb, ltb, ◌==◌, length, if◌then◌else◌,
}
use repo_mender.Auth.{Role, admin, maintainer, role_eq}
use repo_mender.Approvals.Types.{
  Time, Action, sandbox_network, action_eq, valid_action, valid_risk, CreateInput, Error,
  invalid_action, invalid_risk, invalid_digest, invalid_expiry, forbidden, requester_required,
  roles_required, metadata_invalid, policy_required, destination_invalid,
}

-- `[0-9a-fA-F]`
abbrev pub is_hex : ℕ → Bool
is_hex c = (leb b'0' c && leb c b'9') || (leb b'a' c && leb c b'f') || (leb b'A' c && leb c b'F')

-- `^[0-9a-fA-F]{64}$` on the trimmed text
unfoldable pub validate_action_digest : Text → Bool
validate_action_digest value = let t = trim_space value in length t == 64 && all is_hex t

unfoldable pub validate_idempotency_key : Text → Bool
validate_idempotency_key value =
    let t = trim_space value in
    not (ltb (length t) 8 || ltb 200 (length t) || contains_any (13 ∷ 10 ∷ []) t)

-- What `json.Unmarshal` finds in the metadata of a network approval.
pub record NetworkPolicy : Type 0 where
  pub destinations : List Text
  pub network_policy : Text

-- `json.Valid` and `json.Unmarshal` on the metadata: `none` where either fails.
abbrev pub PolicyDecoder : Type 0
PolicyDecoder = Text → Option NetworkPolicy

-- `\r\n*?`
unfoldable pub bad_destination : Text → Bool
bad_destination destination =
    let t = trim_space destination in
    is_empty t || contains_any (13 ∷ 10 ∷ b'*' ∷ b'?' ∷ []) t || ltb 253 (length t)

check_policy : Option NetworkPolicy → Option Error
check_policy none = some metadata_invalid
check_policy (some policy) =
    if ltb (length policy.destinations) 1
      || ltb 50 (length policy.destinations)
      || is_blank policy.network_policy
    then some policy_required
    else if any bad_destination policy.destinations
    then some destination_invalid
    else none

unfoldable pub validate_network_metadata : PolicyDecoder → Option Text → Option Error
unfolding check_policy
validate_network_metadata decode none = some metadata_invalid
validate_network_metadata decode (some raw) =
    if is_empty raw then some metadata_invalid else check_policy (decode raw)

-- `role == RoleAdmin || role == RoleMaintainer`
abbrev pub is_privileged : Role → Bool
is_privileged role = role_eq role admin || role_eq role maintainer

check_kind : PolicyDecoder → Action → Option Text → Option Error
unfolding validate_network_metadata
check_kind decode action metadata =
    if action_eq action sandbox_network then validate_network_metadata decode metadata else none

unfoldable pub check_fields : PolicyDecoder → Action → CreateInput → Time → Option Error
unfolding check_kind
check_fields decode action input now =
    if not (validate_action_digest input.action_digest)
    then some invalid_digest
    else if is_blank input.requester_id
    then some requester_required
    else if input.expires_at == 0 || leb input.expires_at now
    then some invalid_expiry
    else if ltb (length input.eligible_roles) 1
    then some roles_required
    else if any (λ role. not (is_privileged role)) input.eligible_roles
    then some forbidden
    else check_kind decode action input.metadata

-- `ValidateCreate`: the error, or nothing.
unfoldable pub validate_create : PolicyDecoder → CreateInput → Time → Option Error
unfolding check_fields
validate_create decode input now = elim (valid_action input.action) [
  | none ↦ some invalid_action
  | some action ↦ elim (valid_risk input.risk) [
    | none ↦ some invalid_risk
    | some risk ↦ check_fields decode action input now
  ]
]
