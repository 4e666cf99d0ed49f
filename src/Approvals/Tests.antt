-- ===== src/Approvals/Tests.antt =====
-- One request through the approval service (server/internal/approvals/service.go), and each theorem
-- at an input that meets its hypotheses.
use repo_mender.Prelude.{
  ◌≡◌, ◌≢◌, refl, ap, true, ◌⊎◌, none, some, List, [], ◌∷◌, ◌++◌, Text, text, text_eq, trim_space,
  contains_any, all, length, ok,
}
use repo_mender.Ids.{Draw, new_id}
use repo_mender.Auth.{admin, maintainer, developer}
use repo_mender.Tasks.Tests.{bytes}
use repo_mender.Approvals.Types.{
  publish_patch, high, approved, Request, CreateInput, DecisionInput, ConsumeInput, CancelInput,
  valid_action, valid_risk, action_text, risk_text, state_text, is_expired_at, can_consume,
}
use repo_mender.Approvals.Validate.{
  PolicyDecoder, validate_create, validate_action_digest, validate_idempotency_key, is_privileged,
  is_hex, check_fields,
}
use repo_mender.Approvals.Store.{
  find_request, new_request, create_row, create_typed, insert_request, get_row, decide_row,
  decide_found, decided_request, consume_row, consume_found, consume_allowed, consumed_request,
}
use repo_mender.Approvals.Service.{
  Service, Entry, create, create_noted, decide, decide_seen, decide_noted, consume, consume_timed,
  consume_noted, note, can_decide, contains_role,
}
use repo_mender.Approvals.Trace.{deciding, consuming, cancelling, perform, perform_all}
use repo_mender.Approvals.Machine.{Kept}
use repo_mender.Approvals.Single.{perform-Kept, perform_all-terminal}
use repo_mender.Approvals.Gate.{IsCleared, consume-IsCleared, consume-once, consume-repeat}
use repo_mender.Approvals.Lifecycle.{IsContinued, create-lifecycle}
use repo_mender.Approvals.Authority.{Repeated, Made, decide-IsAuthorised, decide-repeat}
use repo_mender.Approvals.Audited.{IsAudited, perform-IsAudited}

abbrev draw : Draw
draw = bytes 1

abbrev request_id : Text
request_id = text "00000000-0000-4000-8000-000000000001"

abbrev digest : Text
digest = text "aaaaaaaaaaaaaaaabbbbbbbbbbbbbbbbccccccccccccccccdddddddddddddddd"

abbrev no_policy : PolicyDecoder
no_policy raw = none

abbrev asked : CreateInput
asked = record {
  action = text "publish_patch";
  risk = text "high";
  action_digest = digest;
  requester_id = text "ann";
  eligible_roles = admin ∷ maintainer ∷ [];
  expires_at = 100;
  metadata = none;
  requested_at = 0;
}

abbrev empty_service : Service
empty_service = record { requests = []; recording = true; recorded = [] }

abbrev opened : Request
opened = new_request request_id publish_patch high 10 (record asked { requested_at = 10 })

abbrev entry : Text → Text → Text → List (Text × Text) → Entry
entry actor action outcome metadata = record {
  actor_id = actor;
  action = action;
  resource_id = request_id;
  outcome = outcome;
  metadata = metadata;
}

abbrev after_create : Service
after_create = record {
  requests = opened ∷ [];
  recording = true;
  recorded =
      entry (text "ann") (text "approval.request") (text "accepted") (
        (text "action", text "publish_patch")
        ∷ (text "risk", text "high")
        ∷ (text "actionDigest", digest)
        ∷ [])
      ∷ [];
}

creates : create no_policy draw 10 asked empty_service ≡ (ok opened, after_create)
unfolding create create_noted create_row create_typed insert_request new_request note
    validate_create check_fields validate_action_digest text text_eq trim_space new_id valid_action
    valid_risk action_text risk_text
creates = refl

abbrev verdict : DecisionInput
verdict = record {
  approval_id = request_id;
  actor = record { id = text "bob"; role = maintainer };
  decision = approved;
  reason = text "fine";
  idempotency_key = text "decide-01";
  now = 20;
}

abbrev agreed : Request
agreed = decided_request verdict opened

abbrev after_decide : Service
after_decide = record after_create {
  requests = agreed ∷ [];
  recorded =
      after_create.recorded
      ++ entry (text "bob") (text "approval.decision") (text "approved")
          ((text "decision", text "approved") ∷ (text "reason", text "fine") ∷ [])
        ∷ [];
}

decides : decide 20 verdict after_create ≡ (ok agreed, after_decide)
unfolding decide decide_seen decide_noted decide_row decide_found decided_request get_row
    new_request note can_decide validate_idempotency_key text text_eq trim_space is_expired_at
    state_text contains_any
decides = refl

abbrev use_it : ConsumeInput
use_it = record {
  approval_id = request_id;
  actor_id = text "bob";
  action_digest = digest;
  idempotency_key = text "consume-01";
  now = 30;
}

abbrev used : Request
used = consumed_request use_it agreed

abbrev after_consume : Service
after_consume = record after_decide {
  requests = used ∷ [];
  recorded =
      after_decide.recorded
      ++ entry (text "bob") (text "approval.consume") (text "consumed")
          ((text "actionDigest", digest) ∷ [])
        ∷ [];
}

consumes : consume 30 use_it after_decide ≡ (ok used, after_consume)
unfolding consume consume_timed consume_noted consume_row consume_found consume_allowed
    consumed_request decided_request new_request note validate_idempotency_key
    validate_action_digest can_consume is_expired_at text text_eq trim_space contains_any
consumes = refl

abbrev stop : CancelInput
stop = record {
  approval_id = request_id;
  actor = record { id = text "ann"; role = developer };
  reason = text "late";
  now = 40;
}

abbrev use_again : ConsumeInput
use_again = record use_it { idempotency_key = text "consume-02" }

other_key : text "consume-02" ≢ text "consume-01"
unfolding text text_eq
other_key e = cc (ap (λ t. text_eq (text "consume-02") t) e)

perform-Kept_example : Kept request_id opened (perform (deciding 20 verdict) after_create).requests
unfolding text text_eq new_request
perform-Kept_example = perform-Kept (deciding 20 verdict) after_create request_id opened refl

perform_all-terminal_example :
    find_request request_id (perform_all (cancelling 40 stop ∷ []) after_consume).requests
    ≡ some used
unfolding text text_eq new_request consumed_request decided_request
perform_all-terminal_example =
    perform_all-terminal (cancelling 40 stop ∷ []) after_consume request_id used refl refl

consume-IsCleared_example : IsCleared use_it after_decide after_consume
consume-IsCleared_example = consume-IsCleared 30 use_it used after_decide after_consume consumes

consume-once_example :
    consume 50 use_again (perform_all (cancelling 40 stop ∷ []) after_consume)
    ≢ (ok used, after_consume)
consume-once_example =
    consume-once 30 50 use_it use_again used used (cancelling 40 stop ∷ []) after_decide
      after_consume after_consume consumes refl other_key

consume-repeat_example :
    ((consume 90 use_it (perform_all (cancelling 40 stop ∷ []) after_consume)).0 ≡ ok used)
    × ((consume 90 use_it (perform_all (cancelling 40 stop ∷ []) after_consume)).1.requests
        ≡ (perform_all (cancelling 40 stop ∷ []) after_consume).requests)
consume-repeat_example =
    consume-repeat 30 90 use_it used (cancelling 40 stop ∷ []) after_decide after_consume consumes

create-lifecycle_example :
    IsContinued request_id opened
      (perform_all (deciding 20 verdict ∷ consuming 30 use_it ∷ []) after_create).requests
    × (all is_privileged (admin ∷ maintainer ∷ []) ≡ true)
    × (length digest ≡ 64)
    × (all is_hex digest ≡ true)
unfolding new_request text trim_space
create-lifecycle_example =
    create-lifecycle no_policy draw 10 asked opened (deciding 20 verdict ∷ consuming 30 use_it ∷ [])
      empty_service after_create creates

decide-IsAuthorised_example :
    (r0 : Request) × (find_request request_id after_create.requests ≡ some r0)
    × (is_privileged maintainer ≡ true)
    × (contains_role r0.eligible_roles maintainer ≡ true)
    × (Repeated verdict r0 agreed after_create.requests after_decide.requests
        ⊎ Made verdict r0 agreed after_create.requests after_decide.requests)
unfolding text trim_space
decide-IsAuthorised_example =
    decide-IsAuthorised 20 verdict agreed after_create after_decide refl decides

-- The row stands, though the audit log was emptied since.
abbrev later_on : Service
later_on = record after_decide { recorded = [] }

decide-repeat_example :
    (find_request verdict.approval_id after_decide.requests ≡ some agreed)
    × ((decide 90 verdict later_on).0 ≡ ok agreed)
    × ((decide 90 verdict later_on).1.requests ≡ later_on.requests)
unfolding text trim_space text_eq decided_request new_request
decide-repeat_example =
    decide-repeat 20 90 verdict agreed after_create after_decide later_on refl decides refl

perform-IsAudited_example :
    IsAudited after_create.recorded after_create (perform (cancelling 40 stop) after_create)
perform-IsAudited_example = perform-IsAudited (cancelling 40 stop) after_create refl
