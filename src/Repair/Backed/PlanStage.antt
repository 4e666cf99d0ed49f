-- ===== src/Repair/Backed/PlanStage.antt =====
-- `generatePlan` of server/internal/repair/processor.go, with the approvals behind the repair.
use repo_mender.Prelude.{
  ◌≡◌, refl, inl, inr, Option, none, some, [], Text, is_blank, Result, ok, err, Bool-cases,
  Option-cases,
}
use repo_mender.Tasks.Types.{Task, Run}
use repo_mender.Approvals.Types.{Request}
use repo_mender.Approvals.Types as Approvals
use repo_mender.Approvals.Validate.{PolicyDecoder}
use repo_mender.Approvals.Service.{Service, create}
use repo_mender.Repair.Types.{planning, Plan, Repair}
use repo_mender.Repair.Validate.{validate_plan}
use repo_mender.Repair.World.{World, Codec, Adapter, Clock, Config}
use repo_mender.Repair.Service.{plan_phase, repair_approval_input, phase_action}
use repo_mender.Repair.Running.{RunResult}
use repo_mender.Repair.Phases.{
  generate_plan, plan_received, plan_decoded, plan_digested, plan_requested,
}
use repo_mender.Repair.Backed.{IsSafe, StoresPatches}
use repo_mender.Repair.Backed.Work.{persist-IsSafe, fail-IsSafe, create-IsSafe, requested}

-- A repair for which no approval was asked yet.
abbrev pub IsNew : Repair → Type 0
IsNew r = (r.plan_approval_id ≡ []) × (r.patch_approval_id ≡ [])

module _ (decode : PolicyDecoder) (config : Config) (codec : Codec) (stores : StoresPatches codec)
    (clock : Clock) where
  plan_requested-IsSafe :
      (r : Repair) (plan : Plan) (digest : Text) (o : Result Approvals.Error Request) (s : Service)
      (w : World)
      → IsNew r
      → IsSafe codec (record w { approvals = s })
      → create decode clock.draw clock.now
          (repair_approval_input codec plan_phase r digest r.created_by clock.now)
          w.approvals
        ≡ (o, s)
      → IsSafe codec (plan_requested codec clock r plan digest o (record w { approvals = s })).1
  unfolding plan_requested phase_action
  plan_requested-IsSafe r plan digest (err x) s w new h e =
      fail-IsSafe codec stores clock.now r _ _ (record w { approvals = s }) (inl new) h
  plan_requested-IsSafe r plan digest (ok q) s w new h e =
      persist-IsSafe codec stores clock.now _ (record w { approvals = s }) _
        (requested decode codec clock plan_phase r digest r.created_by w.approvals s q e, new.1) h
        (λ k. k)

  plan_digested-IsSafe :
      (r : Repair) (plan : Plan) (o : Option Text) (w : World)
      → IsNew r
      → IsSafe codec w
      → IsSafe codec (plan_digested decode codec clock r plan o w).1
  unfolding plan_digested
  plan_digested-IsSafe r plan none w new h = fail-IsSafe codec stores clock.now r _ _ w (inl new) h
  plan_digested-IsSafe r plan (some digest) w new h = elim (Bool-cases (is_blank r.created_by)) [
    | inl bad ↦ rw (bad, plan_digested) (fail-IsSafe codec stores clock.now r _ _ w (inl new) h)
    | inr fine ↦
        let input = repair_approval_input codec plan_phase r digest r.created_by clock.now in
        rw (fine, plan_digested)
          (plan_requested-IsSafe r plan digest
            (create decode clock.draw clock.now input w.approvals).0
            (create decode clock.draw clock.now input w.approvals).1 w new
            (create-IsSafe decode codec clock input w h) refl)
  ]

  plan_decoded-IsSafe :
      (r : Repair) (o : Option Plan) (w : World)
      → IsNew r
      → IsSafe codec w
      → IsSafe codec (plan_decoded decode codec clock r o w).1
  unfolding plan_decoded
  plan_decoded-IsSafe r none w new h = fail-IsSafe codec stores clock.now r _ _ w (inl new) h
  plan_decoded-IsSafe r (some plan) w new h = elim (Option-cases (validate_plan plan)) [
    | inl fine ↦
        rw (fine, plan_decoded) (plan_digested-IsSafe r plan (codec.digest_plan plan) w new h)
    | inr (e, bad) ↦ rw (bad, plan_decoded) (fail-IsSafe codec stores clock.now r _ _ w (inl new) h)
  ]

  plan_received-IsSafe :
      (r : Repair) (o : RunResult) (w : World)
      → IsNew r
      → IsSafe codec w
      → IsSafe codec (plan_received decode codec clock r o w).1
  unfolding plan_received
  plan_received-IsSafe r (err (code, e), db) w new h =
      fail-IsSafe codec stores clock.now r code e (record w { tasks = db }) (inl new) h
  plan_received-IsSafe r (ok output, db) w new h =
      plan_decoded-IsSafe r (codec.decode_plan output) (record w { tasks = db }) new h

  pub generate_plan-IsSafe :
      (adapter : Adapter) (task : Task) (run : Run) (repair : Repair) (w : World)
      → IsNew repair
      → IsSafe codec w
      → IsSafe codec (generate_plan decode config codec adapter clock task run repair w).1
  unfolding generate_plan
  generate_plan-IsSafe adapter task run repair w new h =
      persist-IsSafe codec stores clock.now (record repair { state = planning }) w _ new h
        (λ k. plan_received-IsSafe (record repair { state = planning }) _ _ new k)
