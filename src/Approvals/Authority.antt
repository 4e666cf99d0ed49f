-- ===== src/Approvals/Authority.antt =====
-- Who may decide a request (`Service.Decide` of server/internal/approvals/service.go and `Decide` of
-- its store.go).
use repo_mender.Prelude.{
  ◌≡◌, ◌∙◌, pair-path, refl, sym, subst, ap, true, false, ◌&&◌, not, inl, inr, ◌⊎◌, some, List,
  Text, text_eq, text_eq_refl, trim_space, find-map, if◌then◌else◌, arith, Bool-cases, Option-cases,
  Result, Result-cases, ok, err, leb,
}
use repo_mender.Auth.{User}
use repo_mender.Approvals.Types.{
  Time, State, pending, approved, rejected, state_eq, Request, DecisionInput, Error, is_expired_at,
}
use repo_mender.Approvals.Validate.{validate_idempotency_key, is_privileged}
use repo_mender.Approvals.Store.{
  find_request, update_request, get_row, decide_row, decide_found, decided_request,
  repeats_decision, expire,
}
use repo_mender.Approvals.Service.{
  Service, decide, decide_seen, decide_noted, or_now, can_decide, contains_role,
}
use repo_mender.Approvals.Single.{decide_noted-requests}

-- The row that a decision finds: the same outcome under the same key, or a pending one in time.
abbrev pub Repeated : DecisionInput → Request → Request → List Request → List Request → Type 0
Repeated input r0 r rows after =
    (text_eq r0.decision_idempotency_key input.idempotency_key ≡ true)
    × (repeats_decision r0 input ≡ true)
    × (r0 ≡ r)
    × (after ≡ rows)

abbrev pub Made : DecisionInput → Request → Request → List Request → List Request → Type 0
Made input r0 r rows after =
    (r0.state ≡ pending)
    × (leb r0.expires_at input.now ≡ false)
    × (r ≡ decided_request input r0)
    × (after ≡ update_request r0.id (decided_request input) rows)

pending_eq : (s : State) → state_eq s pending ≡ true → s ≡ pending
pending_eq s h = ground arith

in_time :
    (now : Time) (r : Request)
    → is_expired_at now r ≡ false
    → state_eq r.state pending ≡ true
    → leb r.expires_at now ≡ false
unfolding is_expired_at
in_time now r h st = ground arith

decide_found_cases :
    (input : DecisionInput) (r0 r : Request) (rows after : List Request)
    → decide_found input r0 rows ≡ (ok r, after)
    → Repeated input r0 r rows after ⊎ Made input r0 r rows after
unfolding decide_found expire
decide_found_cases input r0 r rows after e =
    elim (Bool-cases (text_eq r0.decision_idempotency_key input.idempotency_key)) [
      | inl again ↦ elim (Bool-cases (repeats_decision r0 input)) [
        | inr bad ↦ cc (ap (λ p. p.0) (rw (again, bad, decide_found) at e))
        | inl fine ↦
            let q = rw (again, fine, decide_found) at e in
            inl (again, fine, cc (ap (λ p. p.0) q), sym (ap (λ p. p.1) q))
      ]
      | inr new ↦ elim (Bool-cases (is_expired_at input.now r0)) [
        | inl late ↦ cc (ap (λ p. p.0) (rw (new, late, decide_found, expire) at e))
        | inr early ↦ elim (Bool-cases (state_eq r0.state pending)) [
          | inr closed ↦ cc (ap (λ p. p.0) (rw (new, early, closed, decide_found) at e))
          | inl st ↦
              let q = rw (new, early, st, decide_found) at e in
              inr (
                pending_eq r0.state st,
                in_time input.now r0 early st,
                cc (ap (λ p. p.0) q),
                sym (ap (λ p. p.1) q),
              )
        ]
      ]
    ]

decide_row_cases :
    (input : DecisionInput) (r : Request) (rows after : List Request)
    → decide_row input rows ≡ (ok r, after)
    → (r0 : Request) × (find_request input.approval_id rows ≡ some r0)
      × (Repeated input r0 r rows after ⊎ Made input r0 r rows after)
unfolding decide_row
decide_row_cases input r rows after e = elim (Option-cases (find_request input.approval_id rows)) [
  | inl missing ↦ cc (ap (λ p. p.0) (rw (missing, decide_row) at e))
  | inr (r0, k) ↦ (r0, k, decide_found_cases input r0 r rows after (rw (k, decide_row) at e))
]

decide_noted_cases :
    (input : DecisionInput) (r0 : Request) (o : Result Error Request) (s after : Service)
    (r : Request)
    → decide_noted input r0 o s ≡ (ok r, after)
    → o ≡ ok r
unfolding decide_noted
decide_noted_cases input r0 (ok d) s after r e = ap (λ p. p.0) e
decide_noted_cases input r0 (err x) s after r e = cc (ap (λ p. p.0) e)

decide_seen_cases :
    (input : DecisionInput) (seen r : Request) (s after : Service)
    → decide_seen input seen s ≡ (ok r, after)
    → (can_decide input.actor seen ≡ true) × (decide_row input s.requests ≡ (ok r, after.requests))
unfolding decide_seen
decide_seen_cases input seen r s after e = elim (Bool-cases (can_decide input.actor seen)) [
  | inr refused ↦ cc (ap (λ p. p.0) (rw (refused, decide_seen) at e))
  | inl may ↦
      let done = decide_row input s.requests in
      let q = rw (may, decide_seen) at e in
      (
        may,
        pair-path (decide_noted_cases input seen done.0 (record s { requests = done.1 }) after r q)
            (sym (decide_noted-requests input seen done.0 (record s { requests = done.1 }))
              ∙ ap (λ p. p.1.requests) q),
      )
]

-- What a decision that is made has passed.
decide_cases :
    (now : Time) (input : DecisionInput) (r : Request) (s after : Service)
    → decide now input s ≡ (ok r, after)
    → (seen : Request) × (get_row (trim_space input.approval_id) s.requests ≡ ok seen)
      × (can_decide input.actor seen ≡ true)
      × (not (state_eq input.decision approved) && not (state_eq input.decision rejected) ≡ false)
      × (validate_idempotency_key input.idempotency_key ≡ true)
      × (decide_row (record input { now = or_now input.now now }) s.requests
          ≡ (ok r, after.requests))
unfolding decide
decide_cases now input r s after e =
    elim (Bool-cases
      (not (state_eq input.decision approved) && not (state_eq input.decision rejected))) [
        | inl bad ↦ cc (ap (λ p. p.0) (rw (bad, decide) at e))
        | inr fine ↦ elim (Bool-cases (validate_idempotency_key input.idempotency_key)) [
          | inr bad ↦ cc (ap (λ p. p.0) (rw (fine, bad, decide) at e))
          | inl key ↦ elim (Result-cases (get_row (trim_space input.approval_id) s.requests)) [
            | inr (x, q) ↦ cc (ap (λ p. p.0) (rw (fine, key, q, decide) at e))
            | inl (seen, q) ↦
                let (may, done) =
                  decide_seen_cases (record input { now = or_now input.now now }) seen r s after
                    (rw (fine, key, q, decide) at e) in
                (seen, q, may, fine, key, done)
          ]
        ]
      ]

get_row-found :
    (id : Text) (rows : List Request) (r : Request)
    → get_row id rows ≡ ok r
    → find_request id rows ≡ some r
unfolding get_row
get_row-found id rows r e = elim (Option-cases (find_request id rows)) [
  | inl missing ↦ cc (rw (missing, get_row) at e)
  | inr (v, k) ↦ cc (rw (k, get_row) at e, k)
]

found-get_row :
    (id : Text) (rows : List Request) (r : Request)
    → find_request id rows ≡ some r
    → get_row id rows ≡ ok r
unfolding get_row
found-get_row id rows r k = rw (k, get_row) refl

-- A request is approved or rejected only by a user whose role is administrator or maintainer and is
-- among the request's roles, and only while it is pending and before it expires; otherwise a call
-- that succeeds repeats the decision the request has and leaves the table alone. The identifier
-- stands without white space around it.
pub decide-IsAuthorised :
    (now : Time) (input : DecisionInput) (r : Request) (s after : Service)
    → trim_space input.approval_id ≡ input.approval_id
    → decide now input s ≡ (ok r, after)
    → (r0 : Request) × (find_request input.approval_id s.requests ≡ some r0)
      × (is_privileged input.actor.role ≡ true)
      × (contains_role r0.eligible_roles input.actor.role ≡ true)
      × (Repeated (record input { now = or_now input.now now }) r0 r s.requests after.requests
          ⊎ Made (record input { now = or_now input.now now }) r0 r s.requests after.requests)
unfolding can_decide
decide-IsAuthorised now input r s after trimmed e =
    let (seen, q, may, fine, key, done) = decide_cases now input r s after e in
    let (r0, k, how) =
      decide_row_cases (record input { now = or_now input.now now }) r s.requests after.requests
        done in
    let found = get_row-found (trim_space input.approval_id) s.requests seen q in
    let same : seen ≡ r0 = cc (trimmed, found, k) in
    (
      r0,
      k,
      ground arith,
      subst (λ (v : Request). contains_role v.eligible_roles input.actor.role ≡ true) same
          (ground arith),
      how,
    )

-- The row after a decision.
decided-row :
    (input : DecisionInput) (r : Request) (rows after : List Request)
    → not (state_eq input.decision approved) && not (state_eq input.decision rejected) ≡ false
    → decide_row input rows ≡ (ok r, after)
    → (r0 : Request) × (find_request input.approval_id rows ≡ some r0)
      × (r.eligible_roles ≡ r0.eligible_roles)
      × (find_request input.approval_id after ≡ some r)
      × (text_eq r.decision_idempotency_key input.idempotency_key ≡ true)
      × (repeats_decision r input ≡ true)
unfolding decided_request
decided-row input r rows after fine e =
    let (r0, k, how) = decide_row_cases input r rows after e in
    elim how [
      | inl (key, again, eq, tab) ↦
          (r0, k, rw eq refl, rw (tab, ← eq) k, rw (← eq) key, rw (← eq) again)
      | inr (st, early, q, tab) ↦
          let g = λ (v : Request). if text_eq v.id r0.id then decided_request input v else v in
          let found : find_request input.approval_id
                (update_request r0.id (decided_request input) rows)
              ≡ some (g r0) =
            find-map (λ v. text_eq v.id input.approval_id) g rows {x = r0}
              (λ v. elim (Bool-cases (text_eq v.id r0.id)) [
                | inl h ↦ rw h refl
                | inr h ↦ rw h refl
              ])
              k in
          (
            r0,
            k,
            rw q refl,
            rw (tab, q) (rw (text_eq_refl r0.id) at found),
            rw q (text_eq_refl input.idempotency_key),
            rw q (ground arith),
          )
    ]

can_decide-roles :
    (actor : User) (a b : Request)
    → a.eligible_roles ≡ b.eligible_roles
    → can_decide actor b ≡ true
    → can_decide actor a ≡ true
unfolding can_decide
can_decide-roles actor a b e h = rw e h

decide_row-repeat :
    (input : DecisionInput) (r : Request) (rows : List Request)
    → find_request input.approval_id rows ≡ some r
    → text_eq r.decision_idempotency_key input.idempotency_key ≡ true
    → repeats_decision r input ≡ true
    → decide_row input rows ≡ (ok r, rows)
unfolding decide_row decide_found
decide_row-repeat input r rows k key again = rw (k, key, again, decide_row, decide_found) refl

-- The row that a decision returned stands in the table afterwards. Whenever it stands there, also
-- after other calls, the same decision may be sent again by the same user at any time: it returns
-- that row and leaves the table alone. The identifier stands without white space around it.
pub decide-repeat :
    (now now2 : Time) (input : DecisionInput) (r : Request) (s after later : Service)
    → trim_space input.approval_id ≡ input.approval_id
    → decide now input s ≡ (ok r, after)
    → find_request input.approval_id later.requests ≡ some r
    → (find_request input.approval_id after.requests ≡ some r)
      × ((decide now2 input later).0 ≡ ok r)
      × ((decide now2 input later).1.requests ≡ later.requests)
unfolding decide decide_seen decide_noted get_row
decide-repeat now now2 input r s after later trimmed e stands =
    let (seen, q, may, fine, key, done) = decide_cases now input r s after e in
    let (r0, k0, roles, k, mine, again) =
      decided-row (record input { now = or_now input.now now }) r s.requests after.requests fine
        done in
    let found = get_row-found (trim_space input.approval_id) s.requests seen q in
    let same : seen ≡ r0 = cc (trimmed, found, k0) in
    let may2 : can_decide input.actor r ≡ true =
      can_decide-roles input.actor r seen (rw same roles) may in
    let timed : DecisionInput = record input { now = or_now input.now now2 } in
    let here : get_row (trim_space input.approval_id) later.requests ≡ ok r =
      rw trimmed (found-get_row input.approval_id later.requests r stands) in
    let twice = decide_row-repeat timed r later.requests stands mine again in
    (
      k,
      rw (fine, key, here, may2, twice, decide, decide_seen) refl,
      rw (fine, key, here, may2, decide, decide_seen)
          (decide_noted-requests timed r (decide_row timed later.requests).0 _
            ∙ ap (λ p. p.1) twice),
    )
