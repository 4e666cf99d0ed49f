-- ===== src/Approvals/Audited.antt =====
-- What the mutations of server/internal/approvals/service.go hand to the audit recorder.
use repo_mender.Prelude.{
  ◌≡◌, refl, ap, true, ◌&&◌, ◌||◌, not, inl, inr, ◌⊎◌, Option, none, some, List, [], ◌∷◌, ◌++◌,
  Text, text_eq, trim_space, is_blank, is_some, Bool-cases, Option-cases, Result, Result-cases, ok,
  err, leb,
}
use repo_mender.Ids.{Draw, new_id}
use repo_mender.Approvals.Types.{
  Time, Action, Risk, approved, rejected, state_eq, Request, CreateInput, DecisionInput,
  ConsumeInput, CancelInput, Error, check_failed, valid_action, valid_risk,
}
use repo_mender.Approvals.Validate.{
  PolicyDecoder, validate_create, validate_action_digest, validate_idempotency_key, is_privileged,
}
use repo_mender.Approvals.Store.{
  find_request, create_row, create_typed, insert_request, get_row, decide_row, consume_row,
  cancel_row,
}
use repo_mender.Approvals.Service.{
  Service, Entry, note, create, create_noted, decide, decide_seen, decide_noted, consume,
  consume_timed, consume_noted, cancel, cancel_seen, cancel_noted, or_now, can_decide,
}
use repo_mender.Approvals.Trace.{Call, creating, deciding, consuming, cancelling, perform}

-- Nothing happens, or one entry goes to the recorder.
abbrev pub IsAudited : List Entry → Service → Service → Type 0
IsAudited log before after =
    (after ≡ before) ⊎ ((entry : Entry) × (after.recorded ≡ log ++ entry ∷ []))

note-audited :
    (actor action resource outcome : Text) (metadata : List (Text × Text)) (s : Service)
    → s.recording ≡ true
    → (entry : Entry) × ((note actor action resource outcome metadata s).recorded
        ≡ s.recorded ++ entry ∷ [])
unfolding note
note-audited actor action resource outcome metadata s on = (
  record {
    actor_id = actor;
    action = action;
    resource_id = resource;
    outcome = outcome;
    metadata = metadata;
  },
  rw on refl,
)

decide_noted-audited :
    (input : DecisionInput) (r : Request) (o : Result Error Request) (s : Service)
    → s.recording ≡ true
    → (entry : Entry) × ((decide_noted input r o s).1.recorded ≡ s.recorded ++ entry ∷ [])
unfolding decide_noted
decide_noted-audited input r (ok d) s on = note-audited _ _ _ _ _ s on
decide_noted-audited input r (err e) s on = note-audited _ _ _ _ _ s on

consume_noted-audited :
    (input : ConsumeInput) (o : Result Error Request) (s : Service)
    → s.recording ≡ true
    → (entry : Entry) × ((consume_noted input o s).1.recorded ≡ s.recorded ++ entry ∷ [])
unfolding consume_noted
consume_noted-audited input (ok d) s on = note-audited _ _ _ _ _ s on
consume_noted-audited input (err e) s on = note-audited _ _ _ _ _ s on

cancel_noted-audited :
    (input : CancelInput) (r : Request) (o : Result Error Request) (s : Service)
    → s.recording ≡ true
    → (entry : Entry) × ((cancel_noted input r o s).1.recorded ≡ s.recorded ++ entry ∷ [])
unfolding cancel_noted
cancel_noted-audited input r (ok d) s on = note-audited _ _ _ _ _ s on
cancel_noted-audited input r (err e) s on = note-audited _ _ _ _ _ s on

-- A creation that fails leaves the table alone.
insert-cases :
    (r : Request) (rows : List Request)
    → ((e : Error) × (insert_request r rows ≡ (err e, rows)))
      ⊎ ((v : Request) × ((insert_request r rows).0 ≡ ok v))
unfolding insert_request
insert-cases r rows =
    elim (Bool-cases (is_some (find_request r.id rows) || leb r.expires_at r.requested_at)) [
      | inl bad ↦ inl (check_failed, rw (bad, insert_request) refl)
      | inr fine ↦ inr (r, rw (fine, insert_request) refl)
    ]

create_row-cases :
    (a : Option Action) (k : Option Risk) (i : Option Text) (now : Time) (input : CreateInput)
    (rows : List Request)
    → ((e : Error) × (create_typed a k i now input rows ≡ (err e, rows)))
      ⊎ ((v : Request) × ((create_typed a k i now input rows).0 ≡ ok v))
unfolding create_typed
create_row-cases none k i now input rows = inl (_, refl)
create_row-cases (some a) none i now input rows = inl (_, refl)
create_row-cases (some a) (some k) none now input rows = inl (_, refl)
create_row-cases (some a) (some k) (some id) now input rows = insert-cases _ rows

module _ (s : Service) (on : s.recording ≡ true) where
  create_noted-IsAudited :
      (input : CreateInput) (o : Result Error Request) (rows : List Request)
      → ((e : Error) × (Path (Result Error Request × List Request) (o, rows) (err e, s.requests)))
        ⊎ ((v : Request) × (o ≡ ok v))
      → IsAudited s.recorded s (create_noted input o (record s { requests = rows })).1
  unfolding create_noted
  create_noted-IsAudited input o rows (inl (e, q)) = inl (
      ap
        (λ (p : Result Error Request × List Request).
          (create_noted input p.0 (record s { requests = p.1 })).1)
        q)
  create_noted-IsAudited input o rows (inr (v, q)) =
      rw q (inr (note-audited _ _ _ _ _ (record s { requests = rows }) on))

  create-IsAudited :
      (decode : PolicyDecoder) (draw : Draw) (now : Time) (input : CreateInput)
      → IsAudited s.recorded s (create decode draw now input s).1
  unfolding create create_row
  create-IsAudited decode draw now input = elim (Option-cases (validate_create decode input now)) [
    | inr (e, bad) ↦ rw (bad, create) (inl refl)
    | inl fine ↦
        rw (fine, create)
          (create_noted-IsAudited input _ _ (
            create_row-cases (valid_action input.action) (valid_risk input.risk) (new_id draw) now
              (record input { requested_at = or_now input.requested_at now }) s.requests))
  ]

  decide_seen-IsAudited :
      (input : DecisionInput) (r : Request) → IsAudited s.recorded s (decide_seen input r s).1
  unfolding decide_seen
  decide_seen-IsAudited input r = elim (Bool-cases (can_decide input.actor r)) [
    | inl may ↦
        rw (may, decide_seen)
          (inr (
            decide_noted-audited input r (decide_row input s.requests).0
              (record s { requests = (decide_row input s.requests).1 }) on))
    | inr refused ↦ rw (refused, decide_seen) (inr (note-audited _ _ _ _ _ s on))
  ]

  decide-IsAudited :
      (now : Time) (input : DecisionInput) → IsAudited s.recorded s (decide now input s).1
  unfolding decide
  decide-IsAudited now input =
      elim (Bool-cases
        (not (state_eq input.decision approved) && not (state_eq input.decision rejected))) [
          | inl bad ↦ rw (bad, decide) (inl refl)
          | inr fine ↦ elim (Bool-cases (validate_idempotency_key input.idempotency_key)) [
            | inr bad ↦ rw (fine, bad, decide) (inl refl)
            | inl key ↦ elim (Result-cases (get_row (trim_space input.approval_id) s.requests)) [
              | inr (e, q) ↦ rw (fine, key, q, decide) (inl refl)
              | inl (r, q) ↦
                  rw (fine, key, q, decide)
                    (decide_seen-IsAudited (record input { now = or_now input.now now }) r)
            ]
          ]
        ]

  consume-IsAudited :
      (now : Time) (input : ConsumeInput) → IsAudited s.recorded s (consume now input s).1
  unfolding consume consume_timed
  consume-IsAudited now input = elim (Bool-cases (is_blank input.actor_id)) [
    | inl bad ↦ rw (bad, consume) (inl refl)
    | inr actor ↦ elim (Bool-cases (validate_action_digest input.action_digest)) [
      | inr bad ↦ rw (actor, bad, consume) (inl refl)
      | inl digest ↦ elim (Bool-cases (validate_idempotency_key input.idempotency_key)) [
        | inr bad ↦ rw (actor, digest, bad, consume) (inl refl)
        | inl key ↦
            let timed : ConsumeInput = record input { now = or_now input.now now } in
            rw (actor, digest, key, consume, consume_timed)
              (inr (
                consume_noted-audited timed (consume_row timed s.requests).0
                  (record s { requests = (consume_row timed s.requests).1 }) on))
      ]
    ]
  ]

  cancel_seen-IsAudited :
      (input : CancelInput) (r : Request) → IsAudited s.recorded s (cancel_seen input r s).1
  unfolding cancel_seen
  cancel_seen-IsAudited input r =
      elim (Bool-cases
        (not (text_eq input.actor.id r.requester_id) && not (is_privileged input.actor.role))) [
          | inl refused ↦ rw (refused, cancel_seen) (inr (note-audited _ _ _ _ _ s on))
          | inr may ↦
              rw (may, cancel_seen)
                (inr (
                  cancel_noted-audited input r (cancel_row input s.requests).0
                    (record s { requests = (cancel_row input s.requests).1 }) on))
        ]

  cancel-IsAudited :
      (now : Time) (input : CancelInput) → IsAudited s.recorded s (cancel now input s).1
  unfolding cancel
  cancel-IsAudited now input = elim (Bool-cases (is_blank input.actor.id)) [
    | inl bad ↦ rw (bad, cancel) (inl refl)
    | inr named ↦ elim (Result-cases (get_row (trim_space input.approval_id) s.requests)) [
      | inr (e, q) ↦ rw (named, q, cancel) (inl refl)
      | inl (r, q) ↦
          rw (named, q, cancel)
            (cancel_seen-IsAudited (record input { now = or_now input.now now }) r)
    ]
  ]

-- Where there is an audit recorder, a mutation either leaves the service exactly as it was or hands
-- exactly one entry to the recorder, refusals and expiries included.
pub perform-IsAudited :
    (c : Call) (s : Service) → s.recording ≡ true → IsAudited s.recorded s (perform c s)
unfolding perform
perform-IsAudited (creating decode draw now input) s on =
    create-IsAudited s on decode draw now input
perform-IsAudited (deciding now input) s on = decide-IsAudited s on now input
perform-IsAudited (consuming now input) s on = consume-IsAudited s on now input
perform-IsAudited (cancelling now input) s on = cancel-IsAudited s on now input
