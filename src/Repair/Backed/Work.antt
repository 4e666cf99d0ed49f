-- ===== src/Repair/Backed/Work.antt =====
-- Writing a repair, and failing it, with the approvals that stand behind it (`Update` of
-- server/internal/repair/store.go, `fail` of its processor.go).
use repo_mender.Prelude.{
  ◌≡◌, refl, false, inl, inr, some, List, [], ◌∷◌, Text, text, text_eq, text_eq_refl, is_empty,
  trim_space, length, Result, ok, err, arith,
}
use repo_mender.Ids.{Draw}
use repo_mender.Approvals.Types.{
  Request, Action, valid_action, action_text, repair_plan, publish_patch,
}
use repo_mender.Approvals.Types as Approvals
use repo_mender.Approvals.Validate.{PolicyDecoder}
use repo_mender.Approvals.Service.{Service, create}
use repo_mender.Approvals.Trace.{creating, perform}
use repo_mender.Approvals.Single.{perform-Kept}
use repo_mender.Approvals.Lifecycle.{create_cases, find-append_new}
use repo_mender.Repair.Types.{Time, failed, Repair, Error}
use repo_mender.Repair.World.{World, Codec, Clock}
use repo_mender.Repair.Store.{get_repair, update_rows, update_repair}
use repo_mender.Repair.Service.{
  Phase, plan_phase, patch_phase, marked, phase_action, repair_approval_input,
}
use repo_mender.Repair.Phases.{Answer, persist, persisted, fail}
use repo_mender.Repair.Backed.{
  IsBacked, Backing, IsSafe, StoresPatches, update_rows-IsBacked, Keeps, HasRequest, safe_kept,
  PlanUsed, used_kept,
}

module _ (codec : Codec) (stores : StoresPatches codec) where
  persisted-IsSafe :
      (o : Result Error Repair) (w : World) (next : World → Answer)
      → IsSafe codec w
      → IsSafe codec (next w).1
      → IsSafe codec (persisted o w next).1
  unfolding persisted
  persisted-IsSafe (err e) w next h k = h
  persisted-IsSafe (ok r) w next h k = k

  pub persist-IsSafe :
      (now : Time) (r : Repair) (w : World) (next : World → Answer)
      → IsBacked codec w.approvals.requests r
      → IsSafe codec w
      → (IsSafe codec (record w { repairs = update_rows codec now r w.repairs })
          → IsSafe codec (next (record w { repairs = update_rows codec now r w.repairs })).1)
      → IsSafe codec (persist codec now r w next).1
  unfolding persist update_repair
  persist-IsSafe now r w next b h k =
      let after : World = record w { repairs = update_rows codec now r w.repairs } in
      let safe : IsSafe codec after =
        (update_rows-IsBacked codec stores w.approvals.requests now r w.repairs b h.0, h.1) in
      persisted-IsSafe (get_repair r.id (update_rows codec now r w.repairs)) after next safe
        (k safe)

  marked-IsBacked :
      (rows : List Request) (r : Repair) (code : Text) (cause : Error)
      → Backing codec rows failed r
      → IsBacked codec rows (marked codec code cause r)
  unfolding marked
  marked-IsBacked rows r code cause (inl b) = inl b
  marked-IsBacked rows r code cause (inr (q, inl e)) = inr (q, inl e)
  marked-IsBacked rows r code cause (inr (q, inr p)) = inr (q, inr p)

  pub fail-IsSafe :
      (now : Time) (r : Repair) (code : Text) (cause : Error) (w : World)
      → Backing codec w.approvals.requests failed r
      → IsSafe codec w
      → IsSafe codec (fail codec now r code cause w).1
  unfolding fail marked
  fail-IsSafe now r code cause w b h =
      persist-IsSafe now (marked codec code cause r) w _
        (marked-IsBacked w.approvals.requests r code cause b) h (λ k. k)

-- What a created request is for.
create-Keeps :
    (decode : PolicyDecoder) (draw : Draw) (now : Time) (input : Approvals.CreateInput)
    (s : Service)
    → Keeps s.requests (create decode draw now input s).1.requests
unfolding perform
create-Keeps decode draw now input s id u k = perform-Kept (creating decode draw now input) s id u k

pub create-IsSafe :
    (decode : PolicyDecoder) (codec : Codec) (clock : Clock) (input : Approvals.CreateInput)
    (w : World)
    → IsSafe codec w
    → IsSafe codec
        (record w { approvals = (create decode clock.draw clock.now input w.approvals).1 })
create-IsSafe decode codec clock input w h =
    safe_kept codec w.approvals.requests
      (create decode clock.draw clock.now input w.approvals).1.requests
      (create-Keeps decode clock.draw clock.now input w.approvals) w.repairs w.published h

pub PlanUsed-kept :
    (decode : PolicyDecoder) (codec : Codec) (clock : Clock) (input : Approvals.CreateInput)
    (w : World) (r : Repair)
    → PlanUsed codec w.approvals.requests r
    → PlanUsed codec (create decode clock.draw clock.now input w.approvals).1.requests r
PlanUsed-kept decode codec clock input w r (q, n) = (
  used_kept codec w.approvals.requests
      (create decode clock.draw clock.now input w.approvals).1.requests
      (create-Keeps decode clock.draw clock.now input w.approvals) r.plan_approval_id repair_plan
      r.plan_digest q,
  n,
)

action_known :
    (phase : Phase) (a : Action)
    → valid_action (action_text (phase_action phase)) ≡ some a
    → a ≡ phase_action phase
unfolding valid_action action_text phase_action text text_eq
action_known plan_phase a e = cc e
action_known patch_phase a e = cc e

not_empty : (t u : Text) → length u ≡ 64 → u ≡ trim_space t → is_empty t ≡ false
unfolding trim_space
not_empty [] u l e = absurd (ground (arith, e))
not_empty (c ∷ t) u l e = refl

pub requested :
    (decode : PolicyDecoder) (codec : Codec) (clock : Clock) (phase : Phase) (r : Repair)
    (digest actor : Text) (s after : Service) (q : Request)
    → create decode clock.draw clock.now
        (repair_approval_input codec phase r digest actor clock.now)
        s
      ≡ (ok q, after)
    → HasRequest after.requests q.id (phase_action phase) digest × (is_empty digest ≡ false)
unfolding repair_approval_input
requested decode codec clock phase r digest actor s after q e =
    let (fresh, new, tab, action, same) =
      create_cases decode clock.draw clock.now
        (repair_approval_input codec phase r digest actor clock.now) q s after e in
    (
      (
        q,
        rw tab (find-append_new q.id s.requests q new (text_eq_refl q.id)),
        action_known phase q.action action,
        same,
      ),
      not_empty digest q.action_digest fresh.2 same,
    )
