-- ===== src/Repair/Backed/Resume.antt =====
-- `ConsumeApproval` of server/internal/repair/service.go, with the approvals behind the repair.
use repo_mender.Prelude.{
  ◌≡◌, ◌∙◌, pair-path, sym, refl, subst, true, not, ◌||◌, inl, inr, some, List, Text, text_eq,
  is_empty, is_blank, trim_space, All-find, Result, ok, err, Option-cases, Bool-cases, arith,
}
use repo_mender.Approvals.Types.{Request, Action, action_eq, consumed}
use repo_mender.Approvals.Types as Approvals
use repo_mender.Tasks.Types.{Task}
use repo_mender.Tasks.Types as Tasks
use mathlib.Core.Option.{some-injective}
use repo_mender.Approvals.Store.{find_request}
use repo_mender.Approvals.Service.{Service, consume, or_now}
use repo_mender.Approvals.Trace.{consuming, perform}
use repo_mender.Approvals.Single.{perform-Kept}
use repo_mender.Approvals.Gate.{consumed-row, consume_cases}
use repo_mender.Approvals.Lifecycle.{Step-terms}
use repo_mender.Repair.Types.{State, awaiting_patch_approval, state_eq, Repair, Error}
use repo_mender.Repair.World.{World, Codec, Clock}
use repo_mender.Repair.Store.{find_repair, get_repair, update_rows, update_repair}
use repo_mender.Repair.Service.{
  Phase, plan_phase, patch_phase, approval_id, expected_state, next_approved_state, phase_action,
  resumed, requeue, requeued, resume_with, consume_phase, consume_approval, consume_input,
  valid_phase,
}
use repo_mender.Repair.Backed.{
  IsBacked, Backing, IsSafe, StoresPatches, Keeps, HasRequest, HasConsumed, safe_kept, Backing-kept,
  update_rows-IsBacked,
}

consume-Keeps :
    (now : Approvals.Time) (input : Approvals.ConsumeInput) (s : Service)
    → Keeps s.requests (consume now input s).1.requests
unfolding perform
consume-Keeps now input s id u k = perform-Kept (consuming now input) s id u k

expected_eq :
    (phase : Phase) (s : State)
    → state_eq s (expected_state phase) ≡ true
    → s ≡ expected_state phase
unfolding expected_state
expected_eq plan_phase s h = ground arith
expected_eq patch_phase s h = ground arith

-- A request that was found, consumed afterwards, has its action and its digest still.
consumed_request_kept :
    (rows after : List Request) (id : Text) (action : Action) (digest : Text) (q : Request)
    → Keeps rows after
    → HasRequest rows id action digest
    → find_request id after ≡ some q
    → q.state ≡ consumed
    → HasConsumed after id action digest
consumed_request_kept rows after id action digest q keeps (u, k, a, d) found used =
    let (v, kv, step) = keeps id u k in
    let (same_id, same_action, same_digest, requester, roles, expiry) = Step-terms u v step in
    let it : v ≡ q = some-injective v q (sym kv ∙ found) in
    (
      q,
      found,
      subst (λ (x : Request). x.action ≡ action) it (cc (a, same_action)),
      subst (λ (x : Request). x.action_digest ≡ trim_space digest) it (cc (d, same_digest)),
      used,
    )

-- The repair moves on once its request is consumed.
moved_on :
    (codec : Codec) (rows after : List Request) (phase : Phase) (r : Repair) (q : Request)
    → Keeps rows after
    → Backing codec rows (expected_state phase) r
    → find_request (approval_id phase r) after ≡ some q
    → q.state ≡ consumed
    → IsBacked codec after (resumed phase r)
unfolding expected_state approval_id resumed next_approved_state
moved_on codec rows after plan_phase r q keeps ((asked, n), e) found used =
    ((consumed_request_kept rows after _ _ _ q keeps asked found used, n), e)
moved_on codec rows after patch_phase r q keeps b found used =
    let (plan, (asked, held)) = Backing-kept codec rows after keeps awaiting_patch_approval r b in
    let (plan0, (asked0, held0)) = b in
    (plan, (consumed_request_kept rows after _ _ _ q keeps asked0 found used, held))

module _ (codec : Codec) (stores : StoresPatches codec) (clock : Clock) where
  requeued-IsSafe :
      (r : Repair) (o : Result Tasks.Error Task) (w : World)
      → IsSafe codec w
      → IsSafe codec (requeued r o w).1
  unfolding requeued
  requeued-IsSafe r (ok t) w h = h
  requeued-IsSafe r (err e) w h = h

  requeue-IsSafe :
      (task_id reason : Text) (o : Result Error Repair) (w : World)
      → IsSafe codec w
      → IsSafe codec (requeue clock task_id reason o w).1
  unfolding requeue
  requeue-IsSafe task_id reason (err e) w h = h
  requeue-IsSafe task_id reason (ok r) w h = requeued-IsSafe r _ _ h

  resume_with-IsSafe :
      (phase : Phase) (r : Repair) (o : Result Approvals.Error Request) (w : World)
      → ((q : Request) → o ≡ ok q → IsBacked codec w.approvals.requests (resumed phase r))
      → IsSafe codec w
      → IsSafe codec (resume_with codec clock phase r o w).1
  unfolding resume_with update_repair
  resume_with-IsSafe phase r (err e) w b h = h
  resume_with-IsSafe phase r (ok q) w b h =
      elim (Bool-cases (action_eq q.action (phase_action phase))) [
        | inr other ↦ rw (other, resume_with) h
        | inl same ↦
            rw (same, resume_with)
              (requeue-IsSafe r.task_id _
                (get_repair (resumed phase r).id
                  (update_rows codec clock.now (resumed phase r) w.repairs))
                (record w { repairs = update_rows codec clock.now (resumed phase r) w.repairs })
                (
                  update_rows-IsBacked codec stores w.approvals.requests clock.now (resumed phase r)
                      w.repairs (b q refl) h.0,
                  h.1,
                ))
      ]

  consume_phase-IsSafe :
      (phase : Phase) (digest key actor : Text) (r : Repair) (w : World)
      → IsBacked codec w.approvals.requests r
      → IsSafe codec w
      → IsSafe codec (consume_phase codec clock phase digest key actor r w).1
  unfolding consume_phase
  consume_phase-IsSafe phase digest key actor r w b h =
      elim (Bool-cases (state_eq r.state (next_approved_state phase))) [
        | inl already ↦ rw (already, consume_phase) h
        | inr new ↦
            elim (Bool-cases
              (not (state_eq r.state (expected_state phase)) || is_empty (approval_id phase r))) [
                | inl wrong ↦ rw (new, wrong, consume_phase) h
                | inr waiting ↦ elim (Bool-cases (is_blank actor)) [
                  | inl nobody ↦ rw (new, waiting, nobody, consume_phase) h
                  | inr named ↦
                      let input = consume_input clock (approval_id phase r) digest key actor in
                      let done = consume clock.now input w.approvals in
                      let keeps : Keeps w.approvals.requests done.1.requests =
                        consume-Keeps clock.now input w.approvals in
                      rw (new, waiting, named, consume_phase)
                        (resume_with-IsSafe phase r done.0 (record w { approvals = done.1 })
                          (λ q e.
                            let (found, used, k, d) =
                              consumed-row (record input { now = or_now input.now clock.now }) q
                                w.approvals.requests done.1.requests
                                (consume_cases clock.now input q w.approvals done.1
                                  (pair-path e refl)) in
                            moved_on codec w.approvals.requests done.1.requests phase r q keeps
                              (subst (λ s. Backing codec w.approvals.requests s r)
                                (expected_eq phase r.state (ground arith)) b)
                              found used)
                          (safe_kept codec w.approvals.requests done.1.requests keeps w.repairs
                            w.published h))
                ]
              ]
      ]

  pub consume_approval-IsSafe :
      (repair_id phase digest key actor : Text) (w : World)
      → IsSafe codec w
      → IsSafe codec (consume_approval codec clock repair_id phase digest key actor w).1
  unfolding consume_approval get_repair
  consume_approval-IsSafe repair_id phase digest key actor w h =
      elim (Option-cases (find_repair (trim_space repair_id) w.repairs)) [
        | inl missing ↦ rw (missing, consume_approval, get_repair) h
        | inr (r, k) ↦ elim (Option-cases (valid_phase phase)) [
          | inl bad ↦ rw (k, bad, consume_approval, get_repair) h
          | inr (p, e) ↦
              rw (k, e, consume_approval, get_repair)
                (consume_phase-IsSafe p digest key actor r w
                  (All-find (IsBacked codec w.approvals.requests)
                    (λ v. text_eq v.id (trim_space repair_id)) w.repairs {x = r} h.0 k)
                  h)
        ]
      ]
