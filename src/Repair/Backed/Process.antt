-- ===== src/Repair/Backed/Process.antt =====
-- The processor (server/internal/repair/processor.go) in every state of a repair, with the approvals
-- behind it.
use repo_mender.Prelude.{
  ◌≡◌, refl, true, false, not, ◌&&◌, inl, inr, ◌⊎◌, Option, none, some, List, [], ◌∷◌, Text,
  text_eq, is_empty, trim_space, find, All-find, Option-cases, Bool-cases, arith,
}
use repo_mender.Tasks.Types.{Task, Run}
use repo_mender.Approvals.Types.{Request}
use repo_mender.Approvals.Validate.{PolicyDecoder}
use repo_mender.Repair.Types.{
  State, planning, awaiting_plan_approval, plan_approved, patching, awaiting_patch_approval,
  patch_approved, published, failed, cancelled, Repair,
}
use repo_mender.Repair.World.{World, Codec, Provider, Adapter, Clock, Config, Outcome}
use repo_mender.Repair.Store.{get_by_task}
use repo_mender.Repair.Processor.{
  process, process_repair, process_state, process_failed, with_adapter, is_missing, needs_adapter,
}
use repo_mender.Repair.Backed.{IsBacked, Backing, IsSafe, StoresPatches, PlanUsed, PatchUsed}
use repo_mender.Repair.Backed.Work.{fail-IsSafe}
use repo_mender.Repair.Backed.PlanStage.{IsNew, generate_plan-IsSafe}
use repo_mender.Repair.Backed.PatchStage.{ReadsPatches, generate_patch-IsSafe, publish-IsSafe}

-- What a failed repair has behind it, by the branch that `Process` takes.
empty_eq : (t : Text) → is_empty t ≡ true → t ≡ []
empty_eq [] h = refl
empty_eq (c ∷ t) h = cc h

module _ (codec : Codec) (rows : List Request) (r : Repair) where
  failed_patched :
      Backing codec rows failed r
      → not (is_empty r.patch_approval_id) && not (is_empty r.patch_digest) ≡ true
      → PlanUsed codec rows r × PatchUsed codec rows r
  failed_patched (inl (p, e)) h = absurd (cc (rw e at h))
  failed_patched (inr (q, inl e)) h = absurd (cc (rw e at h))
  failed_patched (inr (q, inr p)) h = (q, p)

  unpatched_eq :
      (r.patch_approval_id ≡ []) ⊎ PatchUsed codec rows r
      → not (is_empty r.patch_approval_id) && not (is_empty r.patch_digest) ≡ false
      → r.patch_approval_id ≡ []
  unpatched_eq (inl e) h = e
  unpatched_eq (inr (q, (p, reads, d, n))) h = empty_eq r.patch_approval_id (ground (arith, n))

  failed_planned :
      Backing codec rows failed r
      → not (is_empty r.plan_approval_id) && not (is_empty r.plan_digest) ≡ true
      → not (is_empty r.patch_approval_id) && not (is_empty r.patch_digest) ≡ false
      → PlanUsed codec rows r × (r.patch_approval_id ≡ [])
  failed_planned (inl (p, e)) h k = absurd (cc (rw p at h))
  failed_planned (inr (q, m)) h k = (q, unpatched_eq m k)

  failed-IsNew :
      Backing codec rows failed r
      → not (is_empty r.plan_approval_id) && not (is_empty r.plan_digest) ≡ false
      → not (is_empty r.patch_approval_id) && not (is_empty r.patch_digest) ≡ false
      → IsNew r
  failed-IsNew (inl n) h k = n
  failed-IsNew (inr ((q, n), m)) h k =
      (empty_eq r.plan_approval_id (ground (arith, n)), unpatched_eq m k)

  needs-failed :
      (s : State)
      → r.state ≡ s
      → needs_adapter r ≡ true
      → Backing codec rows s r
      → Backing codec rows failed r
  needs-failed planning e h b = inl b
  needs-failed awaiting_plan_approval e h b = absurd (cc (rw e at h))
  needs-failed plan_approved e h (q, n) = inr (q, inl n)
  needs-failed patching e h (q, n) = inr (q, inl n)
  needs-failed awaiting_patch_approval e h b = absurd (cc (rw e at h))
  needs-failed patch_approved e h b = absurd (cc (rw e at h))
  needs-failed published e h b = absurd (cc (rw e at h))
  needs-failed failed e h b = b
  needs-failed cancelled e h b = absurd (cc (rw e at h))

-- `Process`, whatever the adapter and the provider answer.
module _ (decode : PolicyDecoder) (config : Config) (codec : Codec) (stores : StoresPatches codec)
    (reads : ReadsPatches codec) (adapter : Option Adapter) (provider : Option Provider)
    (clock : Clock) (task : Task) (run : Run) where
  with_adapter-IsSafe :
      (w : World) (next : Adapter → Outcome × World) (o : Option Adapter)
      → IsSafe codec w
      → ((a : Adapter) → IsSafe codec (next a).1)
      → IsSafe codec (with_adapter o w next).1
  unfolding with_adapter
  with_adapter-IsSafe w next none h k = h
  with_adapter-IsSafe w next (some a) h k = k a

  process_failed-IsSafe :
      (r : Repair) (w : World)
      → Backing codec w.approvals.requests failed r
      → IsSafe codec w
      → IsSafe codec (process_failed decode config codec adapter provider clock task run r w).1
  unfolding process_failed
  process_failed-IsSafe r w b h =
      elim (Bool-cases (not (is_empty r.patch_approval_id) && not (is_empty r.patch_digest))) [
        | inl patched ↦
            rw (patched, process_failed)
              (publish-IsSafe codec stores clock provider r w
                (failed_patched codec w.approvals.requests r b patched) h)
        | inr unpatched ↦
            elim (Bool-cases (not (is_empty r.plan_approval_id) && not (is_empty r.plan_digest))) [
              | inl planned ↦
                  rw (unpatched, planned, process_failed)
                    (with_adapter-IsSafe w _ adapter h (λ a.
                      generate_patch-IsSafe decode config codec stores reads clock a task run r w
                        (failed_planned codec w.approvals.requests r b planned unpatched) h))
              | inr unplanned ↦
                  rw (unpatched, unplanned, process_failed)
                    (with_adapter-IsSafe w _ adapter h (λ a.
                      generate_plan-IsSafe decode config codec stores clock a task run r w
                        (failed-IsNew codec w.approvals.requests r b unplanned unpatched) h))
            ]
      ]

  process_state-IsSafe :
      (s : State) (r : Repair) (w : World)
      → Backing codec w.approvals.requests s r
      → IsSafe codec w
      → IsSafe codec (process_state decode config codec adapter provider clock task run r s w).1
  unfolding process_state
  process_state-IsSafe planning r w b h =
      with_adapter-IsSafe w _ adapter h
        (λ a. generate_plan-IsSafe decode config codec stores clock a task run r w b h)
  process_state-IsSafe plan_approved r w b h =
      with_adapter-IsSafe w _ adapter h
        (λ a. generate_patch-IsSafe decode config codec stores reads clock a task run r w b h)
  process_state-IsSafe patch_approved r w b h = publish-IsSafe codec stores clock provider r w b h
  process_state-IsSafe failed r w b h = process_failed-IsSafe r w b h
  process_state-IsSafe awaiting_plan_approval r w b h = h
  process_state-IsSafe patching r w b h = h
  process_state-IsSafe awaiting_patch_approval r w b h = h
  process_state-IsSafe published r w b h = h
  process_state-IsSafe cancelled r w b h = h

  process_repair-IsSafe :
      (r : Repair) (w : World)
      → IsBacked codec w.approvals.requests r
      → IsSafe codec w
      → IsSafe codec (process_repair decode config codec adapter provider clock task run r w).1
  unfolding process_repair
  process_repair-IsSafe r w b h = elim (Bool-cases (is_missing adapter && needs_adapter r)) [
    | inl stuck ↦
        rw (stuck, process_repair)
          (fail-IsSafe codec stores clock.now r _ _ w
            (needs-failed codec w.approvals.requests r r.state refl (ground arith) b) h)
    | inr fine ↦ rw (fine, process_repair) (process_state-IsSafe r.state r w b h)
  ]

  pub process-IsSafe :
      (w : World)
      → IsSafe codec w
      → IsSafe codec (process decode config codec adapter provider clock task run w).1
  unfolding process get_by_task
  process-IsSafe w h =
      elim (Option-cases (find (λ r. text_eq r.task_id (trim_space task.id)) w.repairs)) [
        | inl missing ↦ rw (missing, process, get_by_task) h
        | inr (r, k) ↦
            rw (k, process, get_by_task)
              (process_repair-IsSafe r w
                (All-find (IsBacked codec w.approvals.requests)
                  (λ v. text_eq v.task_id (trim_space task.id)) w.repairs {x = r} h.0 k)
                h)
      ]
