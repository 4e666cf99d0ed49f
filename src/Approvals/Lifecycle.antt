-- ===== src/Approvals/Lifecycle.antt =====
-- A request from its creation on (`Service.Create` and `ValidateCreate` of server/internal/approvals).
use repo_mender.Prelude.{
  ◌≡◌, ◌∙◌, pair-path, refl, sym, subst, ap, true, false, ◌||◌, not, inl, inr, Option, none, some,
  List, [], ◌∷◌, ◌++◌, Text, text_eq, text_eq_refl, trim_space, is_blank, all, any, length, is_some,
  arith, Bool-cases, Option-cases, Result, ok, err, leb, ltb, ◌==◌,
}
use repo_mender.Ids.{Draw, new_id}
use repo_mender.Auth.{Role}
use repo_mender.Approvals.Types.{
  Time, Action, Risk, pending, Request, CreateInput, Error, valid_action, valid_risk,
}
use repo_mender.Approvals.Validate.{
  PolicyDecoder, validate_create, validate_action_digest, is_privileged, is_hex, check_fields,
}
use repo_mender.Approvals.Store.{
  find_request, create_row, create_typed, insert_request, new_request,
}
use repo_mender.Approvals.Service.{Service, create, create_noted, or_now}
use repo_mender.Approvals.Trace.{Call, perform, perform_all}
use repo_mender.Approvals.Machine.{SameTerms, Step, is_timely}
use repo_mender.Approvals.Single.{perform-Kept, create_noted-requests}

-- What a step keeps.
abbrev pub IsContinued : Text → Request → List Request → Type 0
IsContinued id u rows =
    (v : Request) × (find_request id rows ≡ some v) × SameTerms u v × (is_timely v ≡ true)

IsContinued-step :
    (id : Text) (u v : Request) (rows : List Request)
    → IsContinued id v rows
    → SameTerms u v
    → IsContinued id u rows
IsContinued-step id u v rows (w, k, (a, b, c, d, e, f), t) (a', b', c', d', e', f') =
    (w, k, (a ∙ a', b ∙ b', c ∙ c', d ∙ d', e ∙ e', f ∙ f'), t)

pub Step-terms : (u v : Request) → Step u v → SameTerms u v
Step-terms u v (inl e) = rw e (refl, refl, refl, refl, refl, refl)
Step-terms u v (inr (m, t, w)) = t

Step-timely : (u v : Request) → is_timely u ≡ true → Step u v → is_timely v ≡ true
Step-timely u v h (inl e) = rw (← e) h
Step-timely u v h (inr (m, t, w)) = ground arith

pub perform_all-IsContinued :
    (cs : List Call) (s : Service) (id : Text) (u : Request)
    → find_request id s.requests ≡ some u
    → is_timely u ≡ true
    → IsContinued id u (perform_all cs s).requests
unfolding perform_all
perform_all-IsContinued [] s id u k h = (u, k, (refl, refl, refl, refl, refl, refl), h)
perform_all-IsContinued (c ∷ cs) s id u k h =
    let (v, kv, step) = perform-Kept c s id u k in
    IsContinued-step id u v (perform_all (c ∷ cs) s).requests
      (perform_all-IsContinued cs (perform c s) id v kv (Step-timely u v h step))
      (Step-terms u v step)

-- The fields of a valid input.
abbrev IsValidInput : CreateInput → Time → Type 0
IsValidInput input now =
    (validate_action_digest input.action_digest ≡ true)
    × (leb input.expires_at now ≡ false)
    × (any (λ role. not (is_privileged role)) input.eligible_roles ≡ false)

check_fields-valid :
    (decode : PolicyDecoder) (action : Action) (input : CreateInput) (now : Time)
    → check_fields decode action input now ≡ none
    → IsValidInput input now
unfolding check_fields
check_fields-valid decode action input now e =
    elim (Bool-cases (validate_action_digest input.action_digest)) [
      | inr bad ↦ cc (rw (bad, check_fields) at e)
      | inl digest ↦ elim (Bool-cases (is_blank input.requester_id)) [
        | inl bad ↦ cc (rw (digest, bad, check_fields) at e)
        | inr named ↦ elim (Bool-cases (input.expires_at == 0 || leb input.expires_at now)) [
          | inl bad ↦ cc (rw (digest, named, bad, check_fields) at e)
          | inr early ↦ elim (Bool-cases (ltb (length input.eligible_roles) 1)) [
            | inl bad ↦ cc (rw (digest, named, early, bad, check_fields) at e)
            | inr some_role ↦
                elim (Bool-cases (any (λ role. not (is_privileged role)) input.eligible_roles)) [
                  | inl bad ↦ cc (rw (digest, named, early, some_role, bad, check_fields) at e)
                  | inr fine ↦ (digest, ground arith, fine)
                ]
          ]
        ]
      ]
    ]

validate_create-valid :
    (decode : PolicyDecoder) (input : CreateInput) (now : Time)
    → validate_create decode input now ≡ none
    → IsValidInput input now
unfolding validate_create
validate_create-valid decode input now e = elim (Option-cases (valid_action input.action)) [
  | inl bad ↦ cc (rw (bad, validate_create) at e)
  | inr (action, a) ↦ elim (Option-cases (valid_risk input.risk)) [
    | inl bad ↦ cc (rw (a, bad, validate_create) at e)
    | inr (risk, r) ↦ check_fields-valid decode action input now (rw (a, r, validate_create) at e)
  ]
]

none_refused :
    (roles : List Role)
    → any (λ role. not (is_privileged role)) roles ≡ false
    → all is_privileged roles ≡ true
none_refused [] h = refl
none_refused (role ∷ roles) h = ground (arith, none_refused roles)

-- What the created row is.
abbrev IsFresh : Request → Type 0
IsFresh r =
    (r.state ≡ pending)
    × (all is_privileged r.eligible_roles ≡ true)
    × (length r.action_digest ≡ 64)
    × (all is_hex r.action_digest ≡ true)

not_found : (o : Option Request) → is_some o ≡ false → o ≡ none
not_found none h = refl
not_found (some r) h = cc

create_typed_cases :
    (a : Option Action) (k : Option Risk) (i : Option Text) (now : Time) (input : CreateInput)
    (rows after : List Request) (r : Request)
    → validate_action_digest input.action_digest ≡ true
    → all is_privileged input.eligible_roles ≡ true
    → create_typed a k i now input rows ≡ (ok r, after)
    → IsFresh r
      × (find_request r.id rows ≡ none)
      × (after ≡ rows ++ r ∷ [])
      × (a ≡ some r.action)
      × (r.action_digest ≡ trim_space input.action_digest)
unfolding create_typed insert_request new_request validate_action_digest
create_typed_cases none k i now input rows after r digest roles e = cc (ap (λ p. p.0) e)
create_typed_cases (some a) none i now input rows after r digest roles e = cc (ap (λ p. p.0) e)
create_typed_cases (some a) (some k) none now input rows after r digest roles e =
    cc (ap (λ p. p.0) e)
create_typed_cases (some a) (some k) (some id) now input rows after r digest roles e =
    let row = new_request id a k now input in
    elim (Bool-cases (is_some (find_request row.id rows) || leb row.expires_at row.requested_at)) [
      | inl bad ↦ cc (ap (λ p. p.0) (rw (bad, insert_request) at e))
      | inr fine ↦
          let q = rw (fine, insert_request) at e in
          let same : row ≡ r = cc (ap (λ p. p.0) q) in
          (
            subst IsFresh same (refl, roles, ground arith, ground arith),
            subst (λ (v : Request). find_request v.id rows ≡ none) same
                (not_found (find_request row.id rows) (ground arith)),
            rw (← same) (sym (ap (λ p. p.1) q)),
            subst (λ (v : Request). some a ≡ some v.action) same refl,
            subst (λ (v : Request). v.action_digest ≡ trim_space input.action_digest) same refl,
          )
    ]

create_noted_cases :
    (input : CreateInput) (o : Result Error Request) (s after : Service) (r : Request)
    → create_noted input o s ≡ (ok r, after)
    → o ≡ ok r
unfolding create_noted
create_noted_cases input (ok d) s after r e = ap (λ p. p.0) e
create_noted_cases input (err x) s after r e = cc (ap (λ p. p.0) e)

pub create_cases :
    (decode : PolicyDecoder) (draw : Draw) (now : Time) (input : CreateInput) (r : Request)
    (s after : Service)
    → create decode draw now input s ≡ (ok r, after)
    → IsFresh r
      × (find_request r.id s.requests ≡ none)
      × (after.requests ≡ s.requests ++ r ∷ [])
      × (valid_action input.action ≡ some r.action)
      × (r.action_digest ≡ trim_space input.action_digest)
unfolding create create_row
create_cases decode draw now input r s after e =
    elim (Option-cases (validate_create decode input now)) [
      | inr (x, bad) ↦ cc (ap (λ p. p.0) (rw (bad, create) at e))
      | inl valid ↦
          let timed : CreateInput = record input { requested_at = or_now input.requested_at now } in
          let done = create_row draw now timed s.requests in
          let q = rw (valid, create) at e in
          let (digest, early, roles) = validate_create-valid decode input now valid in
          create_typed_cases (valid_action input.action) (valid_risk input.risk) (new_id draw) now
            timed s.requests after.requests r digest (none_refused input.eligible_roles roles)
            (pair-path (create_noted_cases timed done.0 (record s { requests = done.1 }) after r q)
              (sym (create_noted-requests timed done.0 (record s { requests = done.1 }))
                ∙ ap (λ p. p.1.requests) q))
    ]

pub find-append_new :
    (id : Text) (rows : List Request) (r : Request)
    → find_request id rows ≡ none
    → text_eq r.id id ≡ true
    → find_request id (rows ++ r ∷ []) ≡ some r
find-append_new id [] r e h = ground arith
find-append_new id (v ∷ vs) r e h = ground (arith, find-append_new id vs r)

fresh-timely : (r : Request) → r.state ≡ pending → is_timely r ≡ true
unfolding is_timely
fresh-timely r h = ground arith

-- A request that is created is, after any further calls, still found with its terms, which name
-- only administrators and maintainers and a digest of 64 hexadecimal digits; and if it is approved
-- or consumed by then, it was decided before its expiry.
pub create-lifecycle :
    (decode : PolicyDecoder) (draw : Draw) (now : Time) (input : CreateInput) (r : Request)
    (cs : List Call) (s after : Service)
    → create decode draw now input s ≡ (ok r, after)
    → IsContinued r.id r (perform_all cs after).requests
      × (all is_privileged r.eligible_roles ≡ true)
      × (length r.action_digest ≡ 64)
      × (all is_hex r.action_digest ≡ true)
create-lifecycle decode draw now input r cs s after e =
    let ((st, roles, len, hexed), new, tab, act, dig) =
      create_cases decode draw now input r s after e in
    (
      perform_all-IsContinued cs after r.id r
          (rw tab (find-append_new r.id s.requests r new (text_eq_refl r.id))) (fresh-timely r st),
      roles,
      len,
      hexed,
    )
