-- ===== src/Repair/Backed/Trace.antt =====
-- Every call of the repair service and its processor (server/internal/repair), with the approvals
-- behind the repairs and the publications.
use repo_mender.Prelude.{
  ◌≡◌, sym, refl, subst, not, ◌||◌, inl, inr, Option, none, some, List, [], ◌∷◌, Text, text_eq,
  is_empty, is_blank, find, any, All, All-append, Result, Result-cases, ok, err, Option-cases,
  Bool-cases,
}
use repo_mender.Ids.{Draw, new_id}
use repo_mender.Tasks.Types.{Task, Run}
use repo_mender.Tasks.Types as Tasks
use repo_mender.Tasks.Status.{kind_eq, status_eq, issue_repair, ci_diagnosis, succeeded}
use repo_mender.Approvals.Types.{Request}
use repo_mender.Approvals.Validate.{PolicyDecoder}
use repo_mender.Approvals.Trace as Approvals
use repo_mender.Approvals.Single.{perform-Kept}
use repo_mender.Repair.Types.{Time, Issue, Repair, CreateInput, Error}
use repo_mender.Repair.Validate.{validate_issue, is_sha}
use repo_mender.Repair.World.{World, Codec, Provider, Clock, Config, DiagnosisPayload}
use repo_mender.Repair.Store.{
  get_by_task, new_repair, insert_repair, insert_drawn, create_repair, validate_create_input,
}
use repo_mender.Repair.Service.{
  resolve, bind_or_existing, issue_task, create_from_issue, bind_automation_task, bind_created,
  diagnosis_task, diagnosis_found, create_from_diagnosis, lacks_payload, diagnosis_issue,
}
use repo_mender.Repair.Trace.{
  Call, from_issue, for_automation, from_diagnosis, resuming, working, approving, queueing, perform,
  perform_all,
}
use repo_mender.Repair.Backed.{IsBacked, IsSafe, IsCleared, StoresPatches, safe_kept}
use repo_mender.Repair.Backed.PatchStage.{ReadsPatches}
use repo_mender.Repair.Backed.Process.{process-IsSafe}
use repo_mender.Repair.Backed.Resume.{consume_approval-IsSafe}

-- New rows.
module _ (codec : Codec) (rows : List Request) (rs : List Repair)
    (h : All (IsBacked codec rows) rs) where
  insert_repair-IsBacked :
      (r : Repair) → IsBacked codec rows r → All (IsBacked codec rows) (insert_repair r rs).1
  unfolding insert_repair
  insert_repair-IsBacked r b = elim (Bool-cases (is_sha r.base_sha)) [
    | inr bad ↦ rw (bad, insert_repair) h
    | inl fine ↦ elim (Option-cases (find (λ v. text_eq v.source_key r.source_key) rs)) [
      | inr (v, old) ↦ rw (fine, old, insert_repair) h
      | inl new ↦
          elim (Bool-cases (any (λ v. text_eq v.id r.id || text_eq v.task_id r.task_id) rs)) [
            | inl taken ↦ rw (fine, new, taken, insert_repair) h
            | inr free ↦
                rw (fine, new, free, insert_repair)
                  (All-append (IsBacked codec rows) rs (r ∷ []) h (b, tt))
          ]
    ]
  ]

  insert_drawn-IsBacked :
      (o : Option Text) (now : Time) (input : CreateInput)
      → All (IsBacked codec rows) (insert_drawn o now input rs).1
  unfolding insert_drawn new_repair
  insert_drawn-IsBacked none now input = h
  insert_drawn-IsBacked (some id) now input = insert_repair-IsBacked _ (refl, refl)

  create_repair-IsBacked :
      (draw : Draw) (now : Time) (input : CreateInput)
      → All (IsBacked codec rows) (create_repair draw now input rs).1
  unfolding create_repair
  create_repair-IsBacked draw now input = elim (Option-cases (validate_create_input input now)) [
    | inr (e, bad) ↦ rw (bad, create_repair) h
    | inl fine ↦ rw (fine, create_repair) (insert_drawn-IsBacked (new_id draw) now input)
  ]

module _ (codec : Codec) (clock : Clock) where
  bind_or_existing-IsSafe :
      (task_id : Text) (o : Result Error Repair × List Repair) (w : World)
      → All (IsBacked codec w.approvals.requests) o.1
      → IsSafe codec w
      → IsSafe codec (bind_or_existing task_id o w).1
  unfolding bind_or_existing
  bind_or_existing-IsSafe task_id (ok r, rs) w b h = (b, h.1)
  bind_or_existing-IsSafe task_id (err e, rs) w b h = elim (Result-cases (get_by_task task_id rs)) [
    | inl (r, k) ↦ rw (k, bind_or_existing) (b, h.1)
    | inr (x, k) ↦ rw (k, bind_or_existing) (b, h.1)
  ]

  issue_task-IsSafe :
      (key actor : Text) (issue : Issue) (o : Result Tasks.Error Task × Tasks.Database) (w : World)
      → IsSafe codec w
      → IsSafe codec (issue_task clock key actor issue o w).1
  unfolding issue_task
  issue_task-IsSafe key actor issue (err e, db) w h = h
  issue_task-IsSafe key actor issue (ok t, db) w h =
      bind_or_existing-IsSafe t.id _ (record w { tasks = db })
        (create_repair-IsBacked codec w.approvals.requests w.repairs h.0 clock.draw clock.now _) h

  create_from_issue-IsSafe :
      (provider : Option Provider) (issue : Issue) (actor : Text) (w : World)
      → IsSafe codec w
      → IsSafe codec (create_from_issue provider clock issue actor w).1
  unfolding create_from_issue
  create_from_issue-IsSafe provider issue actor w h =
      elim (Result-cases (resolve provider clock.now (is_empty issue.state) issue)) [
        | inr (e, k) ↦ rw (k, create_from_issue) h
        | inl (found, k) ↦ rw (k, create_from_issue) (issue_task-IsSafe _ actor found _ w h)
      ]

  bind_automation_task-IsSafe :
      (provider : Option Provider) (task : Task) (issue : Issue) (actor : Text) (w : World)
      → IsSafe codec w
      → IsSafe codec (bind_automation_task provider clock task issue actor w).1
  unfolding bind_automation_task
  bind_automation_task-IsSafe provider task issue actor w h =
      elim (Bool-cases (not (kind_eq task.kind issue_repair) || is_empty task.id)) [
        | inl bad ↦ rw (bad, bind_automation_task) h
        | inr fine ↦ elim (Result-cases (resolve provider clock.now (is_blank issue.state) issue)) [
          | inr (e, k) ↦ rw (fine, k, bind_automation_task) h
          | inl (found, k) ↦
              rw (fine, k, bind_automation_task)
                (bind_or_existing-IsSafe task.id _ w
                  (create_repair-IsBacked codec w.approvals.requests w.repairs h.0 clock.draw
                    clock.now _)
                  h)
        ]
      ]

  diagnosis_task-IsSafe :
      (key actor : Text) (issue : Issue) (o : Result Tasks.Error Task × Tasks.Database) (w : World)
      → IsSafe codec w
      → IsSafe codec (diagnosis_task clock key actor issue o w).1
  unfolding diagnosis_task bind_created
  diagnosis_task-IsSafe key actor issue (err e, db) w h = h
  diagnosis_task-IsSafe key actor issue (ok t, db) w h =
      (create_repair-IsBacked codec w.approvals.requests w.repairs h.0 clock.draw clock.now _, h.1)

  diagnosis_found-IsSafe :
      (diagnosis : Task) (actor : Text) (o : Option DiagnosisPayload) (w : World)
      → IsSafe codec w
      → IsSafe codec (diagnosis_found clock diagnosis actor o w).1
  unfolding diagnosis_found
  diagnosis_found-IsSafe diagnosis actor none w h = h
  diagnosis_found-IsSafe diagnosis actor (some p) w h = elim (Bool-cases (lacks_payload p)) [
    | inl bad ↦ rw (bad, diagnosis_found) h
    | inr fine ↦
        elim (Option-cases (validate_issue (diagnosis_issue p diagnosis.title) clock.now)) [
          | inr (e, bad) ↦ rw (fine, bad, diagnosis_found) h
          | inl valid ↦ rw (fine, valid, diagnosis_found) (diagnosis_task-IsSafe _ actor _ _ w h)
        ]
  ]

  create_from_diagnosis-IsSafe :
      (diagnosis : Task) (actor : Text) (w : World)
      → IsSafe codec w
      → IsSafe codec (create_from_diagnosis codec clock diagnosis actor w).1
  unfolding create_from_diagnosis
  create_from_diagnosis-IsSafe diagnosis actor w h =
      elim (Bool-cases
        (not (kind_eq diagnosis.kind ci_diagnosis) || not (status_eq diagnosis.status succeeded))) [
          | inl bad ↦ rw (bad, create_from_diagnosis) h
          | inr fine ↦
              rw (fine, create_from_diagnosis)
                (diagnosis_found-IsSafe diagnosis actor (codec.read_diagnosis diagnosis.payload) w
                  h)
        ]

-- Every call.
module _ (decode : PolicyDecoder) (config : Config) (codec : Codec) (stores : StoresPatches codec)
    (reads : ReadsPatches codec) where
  pub perform-IsSafe :
      (c : Call) (w : World) → IsSafe codec w → IsSafe codec (perform decode config codec c w)
  unfolding perform
  perform-IsSafe (from_issue provider clock issue actor) w h =
      create_from_issue-IsSafe codec clock provider issue actor w h
  perform-IsSafe (for_automation provider clock task issue actor) w h =
      bind_automation_task-IsSafe codec clock provider task issue actor w h
  perform-IsSafe (from_diagnosis clock task actor) w h =
      create_from_diagnosis-IsSafe codec clock task actor w h
  perform-IsSafe (resuming clock repair_id phase digest key actor) w h =
      consume_approval-IsSafe codec stores clock repair_id phase digest key actor w h
  perform-IsSafe (working adapter provider clock task run) w h =
      process-IsSafe decode config codec stores reads adapter provider clock task run w h
  perform-IsSafe (approving c) w h =
      safe_kept codec w.approvals.requests (Approvals.perform c w.approvals).requests
        (λ id u k. perform-Kept c w.approvals id u k) w.repairs w.published h
  perform-IsSafe (queueing c) w h = h

  pub perform_all-IsSafe :
      (cs : List Call) (w : World)
      → IsSafe codec w
      → IsSafe codec (perform_all decode config codec cs w)
  unfolding perform_all
  perform_all-IsSafe [] w h = h
  perform_all-IsSafe (c ∷ cs) w h =
      perform_all-IsSafe cs (perform decode config codec c w) (perform-IsSafe c w h)

-- Nothing is published that was not approved: from a system with no repair and no publication,
-- whatever calls follow, each input handed to the provider's `PublishDraft` holds the files of a
-- valid patch for its base commit, a consumed request to publish a patch names exactly that patch's
-- digest, and a consumed request approved a repair plan. The codec reads a patch back from its JSON
-- and from its column.
pub perform_all-IsCleared :
    (decode : PolicyDecoder) (config : Config) (codec : Codec) (cs : List Call) (w : World)
    → StoresPatches codec
    → ReadsPatches codec
    → w.repairs ≡ []
    → w.published ≡ []
    → All
        (IsCleared codec (perform_all decode config codec cs w).approvals.requests)
        (perform_all decode config codec cs w).published
perform_all-IsCleared decode config codec cs w stores reads none_yet quiet =
    (perform_all-IsSafe decode config codec stores reads cs w (
      subst (All (IsBacked codec w.approvals.requests)) (sym none_yet) tt,
      subst (All (IsCleared codec w.approvals.requests)) (sym quiet) tt,
    )).1
