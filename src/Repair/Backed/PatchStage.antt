-- ===== src/Repair/Backed/PatchStage.antt =====
-- `generatePatch` and `publish` of server/internal/repair/processor.go, with the approvals behind
-- the repair.
use repo_mender.Prelude.{
  ◌≡◌, ◌∙◌, sym, refl, subst, inl, inr, Option, none, some, [], ◌∷◌, ◌++◌, Text, Result, ok, err,
  Option-cases, All-append,
}
use repo_mender.Tasks.Types.{Task, Run}
use repo_mender.Approvals.Types.{Request}
use repo_mender.Approvals.Types as Approvals
use repo_mender.Approvals.Validate.{PolicyDecoder}
use repo_mender.Approvals.Service.{Service, create}
use repo_mender.Repair.Types.{
  patching, patch_approved, Plan, Patch, Repair, DraftPullRequest, Error,
}
use repo_mender.Repair.Validate.{validate_patch}
use repo_mender.Repair.World.{World, Codec, Adapter, Provider, Clock, Config}
use repo_mender.Repair.Service.{patch_phase, repair_approval_input, phase_action}
use repo_mender.Repair.Running.{RunResult}
use repo_mender.Repair.Phases.{
  generate_patch, patch_from_plan, patch_received, patch_decoded, patch_digested, patch_requested,
  fail,
}
use repo_mender.Repair.Processor.{publish, publish_read, publish_patch, drafted, publication}
use repo_mender.Repair.Backed.{IsSafe, IsCleared, StoresPatches, PlanUsed, PatchUsed}
use repo_mender.Repair.Backed.Work.{
  persist-IsSafe, fail-IsSafe, create-IsSafe, requested, PlanUsed-kept,
}
use mathlib.Core.Option.{some-injective}

-- What was encoded is read back, for the patches that the decoder yields.
abbrev pub ReadsPatches : Codec → Type 0
ReadsPatches codec =
    (t : Text) (p : Patch)
    → codec.decode_patch t ≡ some p
    → codec.read_patch (codec.encode_patch p) ≡ some p

-- A repair whose plan approval is used, and for which no patch approval was asked yet.
abbrev pub IsPlanned : Codec → World → Repair → Type 0
IsPlanned codec w r = PlanUsed codec w.approvals.requests r × (r.patch_approval_id ≡ [])

module _ (decode : PolicyDecoder) (config : Config) (codec : Codec) (stores : StoresPatches codec)
    (reads : ReadsPatches codec) (clock : Clock) where
  planned_fails :
      (r : Repair) (code : Text) (e : Error) (w : World)
      → IsPlanned codec w r
      → IsSafe codec w
      → IsSafe codec (fail codec clock.now r code e w).1
  planned_fails r code e w p h =
      fail-IsSafe codec stores clock.now r code e w (inr (p.0, inl p.1)) h

  patch_requested-IsSafe :
      (r : Repair) (patch : Patch) (t digest : Text) (o : Result Approvals.Error Request)
      (s : Service) (w : World)
      → IsPlanned codec (record w { approvals = s }) r
      → IsSafe codec (record w { approvals = s })
      → codec.decode_patch t ≡ some patch
      → codec.digest_patch patch ≡ some digest
      → create decode clock.draw clock.now
          (repair_approval_input codec patch_phase r digest r.created_by clock.now)
          w.approvals
        ≡ (o, s)
      → IsSafe codec (patch_requested codec clock r patch digest o (record w { approvals = s })).1
  unfolding patch_requested phase_action
  patch_requested-IsSafe r patch t digest (err x) s w p h decoded d e =
      planned_fails r _ _ (record w { approvals = s }) p h
  patch_requested-IsSafe r patch t digest (ok q) s w p h decoded d e =
      let (asked, filled) =
        requested decode codec clock patch_phase r digest r.created_by w.approvals s q e in
      persist-IsSafe codec stores clock.now _ (record w { approvals = s }) _
        (p.0, (asked, (patch, reads t patch decoded, d, filled))) h (λ k. k)

  patch_digested-IsSafe :
      (r : Repair) (patch : Patch) (t : Text) (o : Option Text) (w : World)
      → IsPlanned codec w r
      → IsSafe codec w
      → codec.decode_patch t ≡ some patch
      → codec.digest_patch patch ≡ o
      → IsSafe codec (patch_digested decode codec clock r patch o w).1
  unfolding patch_digested
  patch_digested-IsSafe r patch t none w p h decoded d = planned_fails r _ _ w p h
  patch_digested-IsSafe r patch t (some digest) w p h decoded d =
      let input = repair_approval_input codec patch_phase r digest r.created_by clock.now in
      patch_requested-IsSafe r patch t digest
        (create decode clock.draw clock.now input w.approvals).0
        (create decode clock.draw clock.now input w.approvals).1 w
        (PlanUsed-kept decode codec clock input w r p.0, p.1)
        (create-IsSafe decode codec clock input w h) decoded d refl

  patch_decoded-IsSafe :
      (r : Repair) (t : Text) (o : Option Patch) (w : World)
      → IsPlanned codec w r
      → IsSafe codec w
      → codec.decode_patch t ≡ o
      → IsSafe codec (patch_decoded decode codec clock r o w).1
  unfolding patch_decoded
  patch_decoded-IsSafe r t none w p h decoded = planned_fails r _ _ w p h
  patch_decoded-IsSafe r t (some patch) w p h decoded =
      elim (Option-cases (validate_patch patch r.base_sha)) [
        | inl fine ↦
            rw (fine, patch_decoded)
              (patch_digested-IsSafe r patch t (codec.digest_patch patch) w p h decoded refl)
        | inr (e, bad) ↦ rw (bad, patch_decoded) (planned_fails r _ _ w p h)
      ]

  patch_received-IsSafe :
      (r : Repair) (o : RunResult) (w : World)
      → IsPlanned codec w r
      → IsSafe codec w
      → IsSafe codec (patch_received decode codec clock r o w).1
  unfolding patch_received
  patch_received-IsSafe r (err (code, e), db) w p h =
      planned_fails r code e (record w { tasks = db }) p h
  patch_received-IsSafe r (ok output, db) w p h =
      patch_decoded-IsSafe r output (codec.decode_patch output) (record w { tasks = db }) p h refl

  patch_from_plan-IsSafe :
      (adapter : Adapter) (task : Task) (run : Run) (r : Repair) (o : Option Plan) (w : World)
      → IsPlanned codec w r
      → IsSafe codec w
      → IsSafe codec (patch_from_plan decode config codec adapter clock task run r o w).1
  unfolding patch_from_plan
  patch_from_plan-IsSafe adapter task run r none w p h = planned_fails r _ _ w p h
  patch_from_plan-IsSafe adapter task run r (some plan) w p h = patch_received-IsSafe r _ w p h

  pub generate_patch-IsSafe :
      (adapter : Adapter) (task : Task) (run : Run) (repair : Repair) (w : World)
      → IsPlanned codec w repair
      → IsSafe codec w
      → IsSafe codec (generate_patch decode config codec adapter clock task run repair w).1
  unfolding generate_patch
  generate_patch-IsSafe adapter task run repair w p h =
      persist-IsSafe codec stores clock.now (record repair { state = patching }) w _ p h
        (λ k. patch_from_plan-IsSafe adapter task run (record repair { state = patching }) _ _ p k)

-- Publication.
module _ (codec : Codec) (stores : StoresPatches codec) (clock : Clock) where
  abbrev IsApproved : World → Repair → Type 0
  IsApproved w r = PlanUsed codec w.approvals.requests r × PatchUsed codec w.approvals.requests r

  approved_fails :
      (r : Repair) (code : Text) (e : Error) (w : World)
      → IsApproved w r
      → IsSafe codec w
      → IsSafe codec (fail codec clock.now r code e w).1
  approved_fails r code e w p h =
      fail-IsSafe codec stores clock.now r code e w (inr (p.0, inr p.1)) h

  drafted-IsSafe :
      (r : Repair) (o : Option DraftPullRequest) (w : World)
      → IsApproved w r
      → IsSafe codec w
      → IsSafe codec (drafted codec clock r o w).1
  unfolding drafted
  drafted-IsSafe r none w p h = approved_fails r _ _ w p h
  drafted-IsSafe r (some pr) w p h = persist-IsSafe codec stores clock.now _ w _ p h (λ k. k)

  publish_patch-IsSafe :
      (provider : Option Provider) (r : Repair) (patch : Patch) (w : World)
      → IsApproved w r
      → IsSafe codec w
      → codec.read_patch r.patch ≡ some patch
      → validate_patch patch r.base_sha ≡ none
      → IsSafe codec (publish_patch provider codec clock r patch w).1
  unfolding publish_patch publication
  publish_patch-IsSafe none r patch w p h e valid = approved_fails r _ _ w p h
  publish_patch-IsSafe (some provider) r patch w p h e valid =
      let (plan, (used, (held, read, d, filled))) = p in
      let same : held ≡ patch = some-injective held patch (sym read ∙ e) in
      let cleared : IsCleared codec w.approvals.requests (publication r patch) = (
        patch,
        r.patch_digest,
        r.plan_digest,
        r.patch_approval_id,
        r.plan_approval_id,
        subst (λ v. codec.digest_patch v ≡ some r.patch_digest) same d,
        refl,
        valid,
        used,
        plan.0,
      ) in
      drafted-IsSafe r (provider.publish_draft (publication r patch))
        (record w { published = w.published ++ publication r patch ∷ [] }) p
        (
          h.0,
          All-append (IsCleared codec w.approvals.requests) w.published (publication r patch ∷ [])
              h.1 (cleared, tt),
        )

  publish_read-IsSafe :
      (provider : Option Provider) (r : Repair) (o : Option Patch) (w : World)
      → IsApproved w r
      → IsSafe codec w
      → codec.read_patch r.patch ≡ o
      → IsSafe codec (publish_read provider codec clock r o w).1
  unfolding publish_read
  publish_read-IsSafe provider r none w p h e = approved_fails r _ _ w p h
  publish_read-IsSafe provider r (some patch) w p h e =
      elim (Option-cases (validate_patch patch r.base_sha)) [
        | inl fine ↦ rw (fine, publish_read) (publish_patch-IsSafe provider r patch w p h e fine)
        | inr (x, bad) ↦ rw (bad, publish_read) (approved_fails r _ _ w p h)
      ]

  pub publish-IsSafe :
      (provider : Option Provider) (repair : Repair) (w : World)
      → IsApproved w repair
      → IsSafe codec w
      → IsSafe codec (publish provider codec clock repair w).1
  unfolding publish
  publish-IsSafe provider repair w p h =
      publish_read-IsSafe provider (record repair { state = patch_approved }) _ w p h refl
