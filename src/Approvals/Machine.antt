-- ===== src/Approvals/Machine.antt =====
-- The approval state machine, as the mutations of server/internal/approvals/service.go use it.
use repo_mender.Prelude.{
  ◌≡◌, refl, subst, Bool, true, false, ◌&&◌, ◌||◌, not, inl, inr, ◌⊎◌, Option, none, some, List, [],
  ◌∷◌, Text, text_eq, text_eq_iff, find-append, find-map, find-pass, is_some, if◌then◌else◌, arith,
  Bool-cases, Option-cases, leb, ltb,
}
use repo_mender.Ids.{Draw, new_id}
use repo_mender.Approvals.Types.{
  Time, Action, Risk, pending, approved, rejected, consumed, state_eq, can_transition, Request,
  CreateInput, DecisionInput, ConsumeInput, CancelInput, Error, is_expired_at, can_consume,
  valid_action, valid_risk,
}
use repo_mender.Approvals.Store.{
  find_request, update_request, create_row, create_typed, insert_request, decide_row, decide_found,
  decided_request, consume_row, consume_found, consume_allowed, consumed_request, cancel_row,
  cancel_found, cancelled_request, expire, expired_request,
}

-- What was asked for is the same.
abbrev pub SameTerms : Request → Request → Type 0
SameTerms r r' =
    (r'.id ≡ r.id)
    × (r'.action ≡ r.action)
    × (r'.action_digest ≡ r.action_digest)
    × (r'.requester_id ≡ r.requester_id)
    × (r'.eligible_roles ≡ r.eligible_roles)
    × (r'.expires_at ≡ r.expires_at)

decided_before : Option Time → Time → Bool
decided_before none end = false
decided_before (some t) end = ltb t end

-- A row that is approved or consumed was decided before its expiry.
unfoldable pub is_timely : Request → Bool
unfolding decided_before
is_timely r =
    if state_eq r.state approved || state_eq r.state consumed
    then decided_before r.decided_at r.expires_at
    else true

-- A row is left alone, or moves along the state machine with its terms, and stays timely.
abbrev pub Step : Request → Request → Type 0
Step r r' =
    (r ≡ r')
    ⊎ ((can_transition r.state r'.state ≡ true)
        × SameTerms r r'
        × (not (is_timely r) || is_timely r' ≡ true))

abbrev pub Kept : Text → Request → List Request → Type 0
Kept id r after = (r' : Request) × (find_request id after ≡ some r') × Step r r'

same_row :
    (a b : Text) (rows : List Request) (r u : Request)
    → find_request a rows ≡ some r
    → find_request b rows ≡ some u
    → text_eq u.id r.id ≡ true
    → r ≡ u
same_row a b rows r u e k same =
    let here : text_eq r.id a ≡ true = find-pass (λ v. text_eq v.id a) rows {x = r} e in
    let there : text_eq u.id b ≡ true = find-pass (λ v. text_eq v.id b) rows {x = u} k in
    let ids : a ≡ b =
      cc (
        (text_eq_iff r.id a).0 here,
        (text_eq_iff u.id b).0 there,
        (text_eq_iff u.id r.id).0 same,
      ) in
    cc (subst (λ c. find_request c rows ≡ some r) ids e, k)

pub unmoved :
    (id : Text) (u : Request) (rows : List Request) → find_request id rows ≡ some u → Kept id u rows
unmoved id u rows k = (u, k, inl refl)

-- An update of the row that was looked up by `a`.
pub update-Kept :
    (a id : Text) (rows : List Request) (r u : Request) (f : Request → Request)
    → find_request a rows ≡ some r
    → find_request id rows ≡ some u
    → ((v : Request) → (f v).id ≡ v.id)
    → Step r (f r)
    → Kept id u (update_request r.id f rows)
update-Kept a id rows r u f e k keeps step =
    let g = λ (v : Request). if text_eq v.id r.id then f v else v in
    (
      g u,
      find-map (λ v. text_eq v.id id) g rows {x = u}
          (λ v. elim (Bool-cases (text_eq v.id r.id)) [
            | inl h ↦ rw (h, keeps v) refl
            | inr h ↦ rw h refl
          ])
          k,
      elim (Bool-cases (text_eq u.id r.id)) [
        | inl h ↦ rw h (subst (λ (v : Request). Step v (f v)) (same_row a id rows r u e k h) step)
        | inr h ↦ rw h (inl refl)
      ],
    )

expire-Step :
    (now : Time) (r : Request) → is_expired_at now r ≡ true → Step r (expired_request now r)
unfolding expired_request is_expired_at can_transition is_timely decided_before
expire-Step now r h = inr (ground arith, (refl, refl, refl, refl, refl, refl), ground arith)

decide-Step :
    (input : DecisionInput) (r : Request)
    → state_eq input.decision approved || state_eq input.decision rejected ≡ true
    → is_expired_at input.now r ≡ false
    → state_eq r.state pending ≡ true
    → Step r (decided_request input r)
unfolding decided_request can_transition is_expired_at is_timely decided_before
decide-Step input r d early h =
    inr (ground arith, (refl, refl, refl, refl, refl, refl), ground arith)

consume-Step :
    (input : ConsumeInput) (r : Request)
    → can_consume input.now r ≡ none
    → Step r (consumed_request input r)
unfolding consumed_request can_consume can_transition is_timely decided_before
consume-Step input r h = inr (ground arith, (refl, refl, refl, refl, refl, refl), ground arith)

cancel-Step :
    (input : CancelInput) (r : Request)
    → not (state_eq r.state pending) && not (state_eq r.state approved) ≡ false
    → Step r (cancelled_request input r)
unfolding cancelled_request can_transition is_timely decided_before
cancel-Step input r h = inr (ground arith, (refl, refl, refl, refl, refl, refl), ground arith)

-- The operations of the store.
module _ (rows : List Request) (id : Text) (u : Request) (k : find_request id rows ≡ some u) where
  expire-Kept :
      (now : Time) (a : Text) (r : Request)
      → find_request a rows ≡ some r
      → is_expired_at now r ≡ true
      → Kept id u (expire now r.id rows).1
  unfolding expire expired_request
  expire-Kept now a r e h =
      update-Kept a id rows r u (expired_request now) e k (λ v. refl) (expire-Step now r h)

  decide_found-Kept :
      (input : DecisionInput) (a : Text) (r : Request)
      → find_request a rows ≡ some r
      → state_eq input.decision approved || state_eq input.decision rejected ≡ true
      → Kept id u (decide_found input r rows).1
  unfolding decide_found decided_request
  decide_found-Kept input a r e d =
      elim (Bool-cases (text_eq r.decision_idempotency_key input.idempotency_key)) [
        | inl again ↦ rw (again, decide_found) (unmoved id u rows k)
        | inr new ↦ elim (Bool-cases (is_expired_at input.now r)) [
          | inl late ↦ rw (new, late, decide_found) (expire-Kept input.now a r e late)
          | inr early ↦ elim (Bool-cases (state_eq r.state pending)) [
            | inl h ↦
                rw (new, early, h, decide_found)
                  (update-Kept a id rows r u (decided_request input) e k (λ v. refl)
                    (decide-Step input r d early h))
            | inr h ↦ rw (new, early, h, decide_found) (unmoved id u rows k)
          ]
        ]
      ]

  pub decide_row-Kept :
      (input : DecisionInput)
      → state_eq input.decision approved || state_eq input.decision rejected ≡ true
      → Kept id u (decide_row input rows).1
  unfolding decide_row
  decide_row-Kept input d = elim (Option-cases (find_request input.approval_id rows)) [
    | inl missing ↦ rw (missing, decide_row) (unmoved id u rows k)
    | inr (r, e) ↦ rw (e, decide_row) (decide_found-Kept input input.approval_id r e d)
  ]

  consume_allowed-Kept :
      (input : ConsumeInput) (a : Text) (r : Request) (o : Option Error)
      → find_request a rows ≡ some r
      → can_consume input.now r ≡ o
      → Kept id u (consume_allowed input r o rows).1
  unfolding consume_allowed consumed_request
  consume_allowed-Kept input a r (some x) e h = unmoved id u rows k
  consume_allowed-Kept input a r none e h =
      elim (Bool-cases (text_eq r.action_digest input.action_digest)) [
        | inl same ↦
            rw (same, consume_allowed)
              (update-Kept a id rows r u (consumed_request input) e k (λ v. refl)
                (consume-Step input r h))
        | inr other ↦ rw (other, consume_allowed) (unmoved id u rows k)
      ]

  pub consume_row-Kept : (input : ConsumeInput) → Kept id u (consume_row input rows).1
  unfolding consume_row consume_found
  consume_row-Kept input = elim (Option-cases (find_request input.approval_id rows)) [
    | inl missing ↦ rw (missing, consume_row) (unmoved id u rows k)
    | inr (r, e) ↦ elim (Bool-cases (text_eq r.consumption_idempotency_key input.idempotency_key)) [
      | inl again ↦ rw (e, again, consume_row, consume_found) (unmoved id u rows k)
      | inr new ↦ elim (Bool-cases (is_expired_at input.now r)) [
        | inl late ↦
            rw (e, new, late, consume_row, consume_found)
              (expire-Kept input.now input.approval_id r e late)
        | inr early ↦
            rw (e, new, early, consume_row, consume_found)
              (consume_allowed-Kept input input.approval_id r (can_consume input.now r) e refl)
      ]
    ]
  ]

  pub cancel_row-Kept : (input : CancelInput) → Kept id u (cancel_row input rows).1
  unfolding cancel_row cancel_found cancelled_request
  cancel_row-Kept input = elim (Option-cases (find_request input.approval_id rows)) [
    | inl missing ↦ rw (missing, cancel_row) (unmoved id u rows k)
    | inr (r, e) ↦ elim (Bool-cases (is_expired_at input.now r)) [
      | inl late ↦
          rw (e, late, cancel_row, cancel_found) (expire-Kept input.now input.approval_id r e late)
      | inr early ↦
          elim (Bool-cases (not (state_eq r.state pending) && not (state_eq r.state approved))) [
            | inl closed ↦ rw (e, early, closed, cancel_row, cancel_found) (unmoved id u rows k)
            | inr opened ↦
                rw (e, early, opened, cancel_row, cancel_found)
                  (update-Kept input.approval_id id rows r u (cancelled_request input) e k
                    (λ v. refl) (cancel-Step input r opened))
          ]
    ]
  ]

  insert-Kept : (r : Request) → Kept id u (insert_request r rows).1
  unfolding insert_request
  insert-Kept r =
      elim (Bool-cases (is_some (find_request r.id rows) || leb r.expires_at r.requested_at)) [
        | inl bad ↦ rw (bad, insert_request) (unmoved id u rows k)
        | inr fine ↦
            rw (fine, insert_request)
              (u, find-append (λ v. text_eq v.id id) rows (r ∷ []) k, inl refl)
      ]

  create_typed-Kept :
      (a : Option Action) (r : Option Risk) (i : Option Text) (now : Time) (input : CreateInput)
      → Kept id u (create_typed a r i now input rows).1
  unfolding create_typed
  create_typed-Kept none r i now input = unmoved id u rows k
  create_typed-Kept (some a) none i now input = unmoved id u rows k
  create_typed-Kept (some a) (some r) none now input = unmoved id u rows k
  create_typed-Kept (some a) (some r) (some i) now input = insert-Kept _

  pub create_row-Kept :
      (draw : Draw) (now : Time) (input : CreateInput)
      → Kept id u (create_row draw now input rows).1
  unfolding create_row
  create_row-Kept draw now input =
      create_typed-Kept (valid_action input.action) (valid_risk input.risk) (new_id draw) now input
