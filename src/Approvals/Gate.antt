-- ===== src/Approvals/Gate.antt =====
-- The protected-action gate, `Service.Consume` of server/internal/approvals/service.go.
use repo_mender.Prelude.{
  ◌≡◌, ◌≢◌, ◌∙◌, pair-path, refl, sym, ap, true, false, ◌&&◌, inl, inr, ◌⊎◌, Option, none, some,
  List, text_eq, text_eq_iff, text_eq_refl, find-map, is_blank, if◌then◌else◌, arith, Bool-cases,
  Option-cases, Result, ok, err,
}
use repo_mender.Approvals.Types.{
  Time, State, approved, consumed, state_eq, Request, ConsumeInput, Error, can_consume,
  is_expired_at,
}
use repo_mender.Approvals.Validate.{validate_action_digest, validate_idempotency_key}
use repo_mender.Approvals.Store.{
  find_request, update_request, consume_row, consume_found, consume_allowed, consumed_request,
  expire,
}
use repo_mender.Approvals.Service.{Service, consume, consume_timed, consume_noted, or_now}
use repo_mender.Approvals.Trace.{Call, perform_all}
use repo_mender.Approvals.Single.{consume_noted-requests, perform_all-terminal}

-- How a consumption of the row `r0` ends with `r`: it is repeated, or made.
abbrev pub Repeated : ConsumeInput → Request → Request → List Request → List Request → Type 0
Repeated input r0 r rows after =
    (r0.state ≡ consumed)
    × (r0.consumption_idempotency_key ≡ input.idempotency_key)
    × (r0 ≡ r)
    × (after ≡ rows)

abbrev pub Made : ConsumeInput → Request → Request → List Request → List Request → Type 0
Made input r0 r rows after =
    (r0.state ≡ approved)
    × (r ≡ consumed_request input r0)
    × (after ≡ update_request r0.id (consumed_request input) rows)

consumed_eq : (s : State) → state_eq s consumed ≡ true → s ≡ consumed
consumed_eq s h = ground arith

approved_only : (now : Time) (r : Request) → can_consume now r ≡ none → r.state ≡ approved
unfolding can_consume
approved_only now r h = ground arith

module _ (input : ConsumeInput) (r0 r : Request) (rows after : List Request) where
  consume_allowed_cases :
      (o : Option Error)
      → can_consume input.now r0 ≡ o
      → consume_allowed input r0 o rows ≡ (ok r, after)
      → (r0.action_digest ≡ input.action_digest) × Made input r0 r rows after
  unfolding consume_allowed
  consume_allowed_cases (some x) h e = cc (ap (λ p. p.0) e)
  consume_allowed_cases none h e =
      elim (Bool-cases (text_eq r0.action_digest input.action_digest)) [
        | inr other ↦ cc (ap (λ p. p.0) (rw (other, consume_allowed) at e))
        | inl same ↦
            let q = rw (same, consume_allowed) at e in
            (
              (text_eq_iff r0.action_digest input.action_digest).0 same,
              (approved_only input.now r0 h, cc (ap (λ p. p.0) q), sym (ap (λ p. p.1) q)),
            )
      ]

  consume_found_cases :
      consume_found input r0 rows ≡ (ok r, after)
      → (r0.action_digest ≡ input.action_digest)
        × (Repeated input r0 r rows after ⊎ Made input r0 r rows after)
  unfolding consume_found expire
  consume_found_cases e =
      elim (Bool-cases (text_eq r0.consumption_idempotency_key input.idempotency_key)) [
        | inl again ↦
            elim (Bool-cases
              (text_eq r0.action_digest input.action_digest && state_eq r0.state consumed)) [
                | inr bad ↦ cc (ap (λ p. p.0) (rw (again, bad, consume_found) at e))
                | inl fine ↦
                    let q = rw (again, fine, consume_found) at e in
                    (
                      (text_eq_iff r0.action_digest input.action_digest).0 (ground arith),
                      inl (
                        consumed_eq r0.state (ground arith),
                        (text_eq_iff r0.consumption_idempotency_key input.idempotency_key).0 again,
                        cc (ap (λ p. p.0) q),
                        sym (ap (λ p. p.1) q),
                      ),
                    )
              ]
        | inr new ↦ elim (Bool-cases (is_expired_at input.now r0)) [
          | inl late ↦ cc (ap (λ p. p.0) (rw (new, late, consume_found, expire) at e))
          | inr early ↦
              let (same, made) =
                consume_allowed_cases (can_consume input.now r0) refl
                  (rw (new, early, consume_found) at e) in
              (same, inr made)
        ]
      ]

consume_row_cases :
    (input : ConsumeInput) (r : Request) (rows after : List Request)
    → consume_row input rows ≡ (ok r, after)
    → (r0 : Request) × (find_request input.approval_id rows ≡ some r0)
      × (r0.action_digest ≡ input.action_digest)
      × (Repeated input r0 r rows after ⊎ Made input r0 r rows after)
unfolding consume_row
consume_row_cases input r rows after e = elim (Option-cases (find_request input.approval_id rows)) [
  | inl missing ↦ cc (ap (λ p. p.0) (rw (missing, consume_row) at e))
  | inr (r0, k) ↦
      let (same, how) = consume_found_cases input r0 r rows after (rw (k, consume_row) at e) in
      (r0, k, same, how)
]

consume_noted_cases :
    (input : ConsumeInput) (o : Result Error Request) (s after : Service) (r : Request)
    → consume_noted input o s ≡ (ok r, after)
    → o ≡ ok r
unfolding consume_noted
consume_noted_cases input (ok d) s after r e = ap (λ p. p.0) e
consume_noted_cases input (err x) s after r e = cc (ap (λ p. p.0) e)

-- A service call that consumes is a store call that does.
pub consume_cases :
    (now : Time) (input : ConsumeInput) (r : Request) (s after : Service)
    → consume now input s ≡ (ok r, after)
    → consume_row (record input { now = or_now input.now now }) s.requests ≡ (ok r, after.requests)
unfolding consume consume_timed
consume_cases now input r s after e = elim (Bool-cases (is_blank input.actor_id)) [
  | inl bad ↦ cc (ap (λ p. p.0) (rw (bad, consume) at e))
  | inr actor ↦ elim (Bool-cases (validate_action_digest input.action_digest)) [
    | inr bad ↦ cc (ap (λ p. p.0) (rw (actor, bad, consume) at e))
    | inl digest ↦ elim (Bool-cases (validate_idempotency_key input.idempotency_key)) [
      | inr bad ↦ cc (ap (λ p. p.0) (rw (actor, digest, bad, consume) at e))
      | inl key ↦
          let timed : ConsumeInput = record input { now = or_now input.now now } in
          let done = consume_row timed s.requests in
          let q = rw (actor, digest, key, consume, consume_timed) at e in
          pair-path (consume_noted_cases timed done.0 (record s { requests = done.1 }) after r q) (
            sym (consume_noted-requests timed done.0 (record s { requests = done.1 }))
            ∙ ap (λ p. p.1.requests) q)
    ]
  ]
]

-- A request that lets an action pass: found before it, approved for exactly the digest.
abbrev pub IsCleared : ConsumeInput → Service → Service → Type 0
IsCleared input s after =
    (r0 : Request) × (find_request input.approval_id s.requests ≡ some r0)
    × (r0.action_digest ≡ input.action_digest)
    × ((r0.state ≡ approved)
        ⊎ ((r0.state ≡ consumed)
            × (r0.consumption_idempotency_key ≡ input.idempotency_key)
            × (after.requests ≡ s.requests)))

-- The gate lets an action pass only where the request is in the table with exactly the digest that
-- the caller names, and is approved, or was consumed before under the same key; in the second case
-- the table is unchanged.
pub consume-IsCleared :
    (now : Time) (input : ConsumeInput) (r : Request) (s after : Service)
    → consume now input s ≡ (ok r, after)
    → IsCleared input s after
consume-IsCleared now input r s after e =
    let (r0, k, same, how) =
      consume_row_cases (record input { now = or_now input.now now }) r s.requests after.requests
        (consume_cases now input r s after e) in
    (
      r0,
      k,
      same,
      elim how [ inl (st, key, eq, tab) ↦ inr (st, key, tab) | inr (st, q, tab) ↦ inl st ],
    )

-- The row after the call.
pub consumed-row :
    (input : ConsumeInput) (r : Request) (rows after : List Request)
    → consume_row input rows ≡ (ok r, after)
    → (find_request input.approval_id after ≡ some r)
      × (r.state ≡ consumed)
      × (r.consumption_idempotency_key ≡ input.idempotency_key)
      × (r.action_digest ≡ input.action_digest)
unfolding consumed_request
consumed-row input r rows after e =
    let (r0, k, same, how) = consume_row_cases input r rows after e in
    elim how [
      | inl (st, key, eq, tab) ↦ (rw (tab, ← eq) k, rw (← eq) st, rw (← eq) key, rw (← eq) same)
      | inr (st, q, tab) ↦
          let g = λ (v : Request). if text_eq v.id r0.id then consumed_request input v else v in
          let found : find_request input.approval_id
                (update_request r0.id (consumed_request input) rows)
              ≡ some (g r0) =
            find-map (λ v. text_eq v.id input.approval_id) g rows {x = r0}
              (λ v. elim (Bool-cases (text_eq v.id r0.id)) [
                | inl h ↦ rw h refl
                | inr h ↦ rw h refl
              ])
              k in
          (rw (tab, q) (rw (text_eq_refl r0.id) at found), rw q refl, rw q refl, rw q same)
    ]

-- An approval is used once: after a call that consumes it, and whatever calls follow, no call under
-- another idempotency key consumes it.
pub consume-once :
    (now now2 : Time) (input input2 : ConsumeInput) (r r2 : Request) (cs : List Call)
    (s after end : Service)
    → consume now input s ≡ (ok r, after)
    → input2.approval_id ≡ input.approval_id
    → input2.idempotency_key ≢ input.idempotency_key
    → consume now2 input2 (perform_all cs after) ≢ (ok r2, end)
consume-once now now2 input input2 r r2 cs s after end e same other e2 =
    let (k, st, key, d0) =
      consumed-row (record input { now = or_now input.now now }) r s.requests after.requests
        (consume_cases now input r s after e) in
    let stays = perform_all-terminal cs after input.approval_id r k (rw st refl) in
    let (r0, k0, d, how) =
      consume_row_cases (record input2 { now = or_now input2.now now2 }) r2
        (perform_all cs after).requests end.requests
        (consume_cases now2 input2 r2 (perform_all cs after) end e2) in
    let it : r0 ≡ r = cc (same, k0, stays) in
    elim how [
      | inl (st0, key0, eq, tab) ↦
          other (sym key0 ∙ ap (λ (v : Request). v.consumption_idempotency_key) it ∙ key)
      | inr (st0, q, tab) ↦ cc (sym st0 ∙ ap (λ (v : Request). v.state) it ∙ st)
    ]

consume_checks :
    (now : Time) (input : ConsumeInput) (r : Request) (s after : Service)
    → consume now input s ≡ (ok r, after)
    → (is_blank input.actor_id ≡ false)
      × (validate_action_digest input.action_digest ≡ true)
      × (validate_idempotency_key input.idempotency_key ≡ true)
unfolding consume
consume_checks now input r s after e = elim (Bool-cases (is_blank input.actor_id)) [
  | inl bad ↦ cc (ap (λ p. p.0) (rw (bad, consume) at e))
  | inr actor ↦ elim (Bool-cases (validate_action_digest input.action_digest)) [
    | inr bad ↦ cc (ap (λ p. p.0) (rw (actor, bad, consume) at e))
    | inl digest ↦ elim (Bool-cases (validate_idempotency_key input.idempotency_key)) [
      | inr bad ↦ cc (ap (λ p. p.0) (rw (actor, digest, bad, consume) at e))
      | inl key ↦ (actor, digest, key)
    ]
  ]
]

consume_row-repeat :
    (input : ConsumeInput) (r : Request) (rows : List Request)
    → find_request input.approval_id rows ≡ some r
    → r.state ≡ consumed
    → r.consumption_idempotency_key ≡ input.idempotency_key
    → r.action_digest ≡ input.action_digest
    → consume_row input rows ≡ (ok r, rows)
unfolding consume_row consume_found
consume_row-repeat input r rows k st key digest =
    let again : text_eq r.consumption_idempotency_key input.idempotency_key ≡ true =
      (text_eq_iff r.consumption_idempotency_key input.idempotency_key).1 key in
    let fine : text_eq r.action_digest input.action_digest && state_eq r.state consumed ≡ true =
      rw ((text_eq_iff r.action_digest input.action_digest).1 digest, st) refl in
    rw (k, again, fine, consume_row, consume_found) refl

-- A call that consumed may be sent again with its input, whatever calls came between and at
-- whatever time: it returns the same row and leaves the table alone.
pub consume-repeat :
    (now now2 : Time) (input : ConsumeInput) (r : Request) (cs : List Call) (s after : Service)
    → consume now input s ≡ (ok r, after)
    → ((consume now2 input (perform_all cs after)).0 ≡ ok r)
      × ((consume now2 input (perform_all cs after)).1.requests ≡ (perform_all cs after).requests)
unfolding consume consume_timed consume_noted
consume-repeat now now2 input r cs s after e =
    let (k, st, key, digest) =
      consumed-row (record input { now = or_now input.now now }) r s.requests after.requests
        (consume_cases now input r s after e) in
    let (actor, valid, fine) = consume_checks now input r s after e in
    let timed : ConsumeInput = record input { now = or_now input.now now2 } in
    let again =
      consume_row-repeat timed r (perform_all cs after).requests
        (perform_all-terminal cs after input.approval_id r k (rw st refl)) st key digest in
    (
      rw (actor, valid, fine, again, consume, consume_timed) refl,
      rw (actor, valid, fine, consume, consume_timed)
          (consume_noted-requests timed (consume_row timed (perform_all cs after).requests).0 _
            ∙ ap (λ p. p.1) again),
    )
