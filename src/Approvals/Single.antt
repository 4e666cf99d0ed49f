-- ===== src/Approvals/Single.antt =====
-- Every mutation of the approval service, and any run of them, on one request
-- (server/internal/approvals/service.go).
use repo_mender.Prelude.{
  ◌≡◌, refl, Bool, true, false, ◌&&◌, ◌||◌, not, inl, inr, some, List, [], ◌∷◌, Text, text_eq,
  trim_space, is_blank, arith, Bool-cases, Option-cases, Result, Result-cases, ok, err,
}
use repo_mender.Ids.{Draw}
use repo_mender.Approvals.Types.{
  Time, State, pending, approved, rejected, state_eq, can_transition, Request, CreateInput,
  DecisionInput, ConsumeInput, CancelInput, Error,
}
use repo_mender.Approvals.Validate.{
  PolicyDecoder, validate_create, validate_action_digest, validate_idempotency_key, is_privileged,
}
use repo_mender.Approvals.Store.{find_request, get_row}
use repo_mender.Approvals.Service.{
  Service, note, create, create_noted, decide, decide_seen, decide_noted, consume, consume_timed,
  consume_noted, cancel, cancel_seen, cancel_noted, or_now, can_decide,
}
use repo_mender.Approvals.Trace.{
  Call, creating, deciding, consuming, cancelling, perform, perform_all,
}
use repo_mender.Approvals.Machine.{
  Kept, Step, unmoved, create_row-Kept, decide_row-Kept, consume_row-Kept, cancel_row-Kept,
}

-- Auditing leaves the table alone.
pub note-requests :
    (actor action resource outcome : Text) (metadata : List (Text × Text)) (s : Service)
    → (note actor action resource outcome metadata s).requests ≡ s.requests
unfolding note
note-requests actor action resource outcome metadata s = elim (Bool-cases s.recording) [
  | inl on ↦ rw (on, note) refl
  | inr off ↦ rw (off, note) refl
]

pub create_noted-requests :
    (input : CreateInput) (o : Result Error Request) (s : Service)
    → (create_noted input o s).1.requests ≡ s.requests
unfolding create_noted
create_noted-requests input (ok r) s = note-requests _ _ _ _ _ s
create_noted-requests input (err e) s = refl

pub decide_noted-requests :
    (input : DecisionInput) (r : Request) (o : Result Error Request) (s : Service)
    → (decide_noted input r o s).1.requests ≡ s.requests
unfolding decide_noted
decide_noted-requests input r (ok d) s = note-requests _ _ _ _ _ s
decide_noted-requests input r (err e) s = note-requests _ _ _ _ _ s

pub consume_noted-requests :
    (input : ConsumeInput) (o : Result Error Request) (s : Service)
    → (consume_noted input o s).1.requests ≡ s.requests
unfolding consume_noted
consume_noted-requests input (ok d) s = note-requests _ _ _ _ _ s
consume_noted-requests input (err e) s = note-requests _ _ _ _ _ s

pub cancel_noted-requests :
    (input : CancelInput) (r : Request) (o : Result Error Request) (s : Service)
    → (cancel_noted input r o s).1.requests ≡ s.requests
unfolding cancel_noted
cancel_noted-requests input r (ok d) s = note-requests _ _ _ _ _ s
cancel_noted-requests input r (err e) s = note-requests _ _ _ _ _ s

module _ (s : Service) (id : Text) (u : Request) (k : find_request id s.requests ≡ some u) where
  same_table : (rows : List Request) → rows ≡ s.requests → Kept id u rows
  same_table rows e = rw e (unmoved id u s.requests k)

  create-Kept :
      (decode : PolicyDecoder) (draw : Draw) (now : Time) (input : CreateInput)
      → Kept id u (create decode draw now input s).1.requests
  unfolding create
  create-Kept decode draw now input = elim (Option-cases (validate_create decode input now)) [
    | inl fine ↦
        rw (fine, create)
          (rw (create_noted-requests input _ _) (create_row-Kept s.requests id u k draw now _))
    | inr (e, bad) ↦ rw (bad, create) (unmoved id u s.requests k)
  ]

  decide_seen-Kept :
      (input : DecisionInput) (r : Request)
      → state_eq input.decision approved || state_eq input.decision rejected ≡ true
      → Kept id u (decide_seen input r s).1.requests
  unfolding decide_seen
  decide_seen-Kept input r d = elim (Bool-cases (can_decide input.actor r)) [
    | inl may ↦
        rw (may, decide_seen)
          (rw (decide_noted-requests input r _ _) (decide_row-Kept s.requests id u k input d))
    | inr refused ↦ rw (refused, decide_seen) (same_table _ (note-requests _ _ _ _ _ s))
  ]

  decide-Kept : (now : Time) (input : DecisionInput) → Kept id u (decide now input s).1.requests
  unfolding decide
  decide-Kept now input =
      elim (Bool-cases
        (not (state_eq input.decision approved) && not (state_eq input.decision rejected))) [
          | inl bad ↦ rw (bad, decide) (unmoved id u s.requests k)
          | inr fine ↦ elim (Bool-cases (validate_idempotency_key input.idempotency_key)) [
            | inr bad ↦ rw (fine, bad, decide) (unmoved id u s.requests k)
            | inl key ↦ elim (Result-cases (get_row (trim_space input.approval_id) s.requests)) [
              | inr (e, q) ↦ rw (fine, key, q, decide) (unmoved id u s.requests k)
              | inl (r, q) ↦
                  rw (fine, key, q, decide)
                    (decide_seen-Kept (record input { now = or_now input.now now }) r
                      (ground arith))
            ]
          ]
        ]

  consume-Kept : (now : Time) (input : ConsumeInput) → Kept id u (consume now input s).1.requests
  unfolding consume consume_timed
  consume-Kept now input = elim (Bool-cases (is_blank input.actor_id)) [
    | inl bad ↦ rw (bad, consume) (unmoved id u s.requests k)
    | inr actor ↦ elim (Bool-cases (validate_action_digest input.action_digest)) [
      | inr bad ↦ rw (actor, bad, consume) (unmoved id u s.requests k)
      | inl digest ↦ elim (Bool-cases (validate_idempotency_key input.idempotency_key)) [
        | inr bad ↦ rw (actor, digest, bad, consume) (unmoved id u s.requests k)
        | inl key ↦
            rw (actor, digest, key, consume, consume_timed)
              (rw (consume_noted-requests _ _ _) (consume_row-Kept s.requests id u k _))
      ]
    ]
  ]

  cancel_seen-Kept :
      (input : CancelInput) (r : Request) → Kept id u (cancel_seen input r s).1.requests
  unfolding cancel_seen
  cancel_seen-Kept input r =
      elim (Bool-cases
        (not (text_eq input.actor.id r.requester_id) && not (is_privileged input.actor.role))) [
          | inr may ↦
              rw (may, cancel_seen)
                (rw (cancel_noted-requests input r _ _) (cancel_row-Kept s.requests id u k input))
          | inl refused ↦ rw (refused, cancel_seen) (same_table _ (note-requests _ _ _ _ _ s))
        ]

  cancel-Kept : (now : Time) (input : CancelInput) → Kept id u (cancel now input s).1.requests
  unfolding cancel
  cancel-Kept now input = elim (Bool-cases (is_blank input.actor.id)) [
    | inl bad ↦ rw (bad, cancel) (unmoved id u s.requests k)
    | inr named ↦ elim (Result-cases (get_row (trim_space input.approval_id) s.requests)) [
      | inr (e, q) ↦ rw (named, q, cancel) (unmoved id u s.requests k)
      | inl (r, q) ↦
          rw (named, q, cancel) (cancel_seen-Kept (record input { now = or_now input.now now }) r)
    ]
  ]

-- No call loses a request, and each call leaves the request that an identifier finds as it is, or
-- moves its state along `can_transition`, keeps its action, digest, requester, roles and expiry,
-- and, if it was timely (decided before its expiry where approved or consumed), is so still.
pub perform-Kept :
    (c : Call) (s : Service) (id : Text) (u : Request)
    → find_request id s.requests ≡ some u
    → Kept id u (perform c s).requests
unfolding perform
perform-Kept (creating decode draw now input) s id u k = create-Kept s id u k decode draw now input
perform-Kept (deciding now input) s id u k = decide-Kept s id u k now input
perform-Kept (consuming now input) s id u k = consume-Kept s id u k now input
perform-Kept (cancelling now input) s id u k = cancel-Kept s id u k now input

abbrev pub is_terminal : State → Bool
is_terminal pending = false
is_terminal approved = false
is_terminal _ = true

terminal-stuck : (a b : State) → is_terminal a ≡ true → can_transition a b ≡ false
unfolding can_transition
terminal-stuck a b h = ground arith

pub Step-terminal : (u v : Request) → is_terminal u.state ≡ true → Step u v → u ≡ v
Step-terminal u v h (inl e) = e
Step-terminal u v h (inr (m, t, w)) = cc (terminal-stuck u.state v.state h)

-- A request that is rejected, expired, cancelled or consumed keeps its whole row, whatever calls
-- follow.
pub perform_all-terminal :
    (cs : List Call) (s : Service) (id : Text) (u : Request)
    → find_request id s.requests ≡ some u
    → is_terminal u.state ≡ true
    → find_request id (perform_all cs s).requests ≡ some u
unfolding perform_all
perform_all-terminal [] s id u k h = k
perform_all-terminal (c ∷ cs) s id u k h =
    let (v, kv, step) = perform-Kept c s id u k in
    perform_all-terminal cs (perform c s) id u (rw (Step-terminal u v h step) kv) h
