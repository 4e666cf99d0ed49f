-- ===== src/Automations/Governed/Trace.antt =====
-- Triggers, and any run of the automation service (server/internal/automations/service.go) beside the
-- task store, with the runs governed by published versions.
use repo_mender.Prelude.{
  ◌≡◌, inl, inr, List, [], ◌∷◌, Text, trim_space, In, All-in, All-append, Bool-cases,
}
use repo_mender.Tasks.Status.{Kind}
use repo_mender.Tasks.Types.{Time}
use repo_mender.Automations.Types.{Template, Run, TriggerInput, validate}
use repo_mender.Automations.Store.{Tables}
use repo_mender.Automations.Trigger.{Draws, new_run, new_task, trigger_row}
use repo_mender.Automations.Service.{
  Service, Codec, create, update_draft, publish, set_enabled, delete, trigger, bad_trigger,
  prepared,
}
use repo_mender.Automations.Trace.{
  Call, creating, editing, publishing, switching, deleting, triggering, working, perform,
  perform_all,
}
use repo_mender.Automations.Scheduling.{
  IsDue, trigger_row_cases, template_noted-tables, delete_noted-tables, trigger_noted-tables,
}
use repo_mender.Automations.Governed.{IsConsistent, IsGoverned, create-IsConsistent, IsCurrent-row}
use repo_mender.Automations.Governed.Calls.{
  update_draft-IsConsistent, publish-IsConsistent_row, set_enabled-IsConsistent,
  delete-IsConsistent,
}

-- An enabled and matching template schedules what its last version governs.
new_run-IsGoverned :
    (digest : Text → Text) (db : Tables) (h : IsConsistent db) (t : Template) (input : TriggerInput)
    (kind : Kind) (id task_id : Text) (at db_now : Time)
    → IsDue t input
        (new_task digest task_id kind at db_now t input)
        (new_run id task_id at t input)
        db
    → IsGoverned db.versions (new_run id task_id at t input)
unfolding new_run
new_run-IsGoverned digest db h t input kind id task_id at db_now due =
    let c = IsCurrent-row db h t due.found in
    let (v, e, f, same) = c.published due.enabled in
    (v, e, f, rw same c.vetted, input.branch, rw same (rw (due.enabled) at (due.matching)))

trigger-IsConsistent :
    (digest : Text → Text) (draws : Draws) (input : TriggerInput) (db : Tables)
    → IsConsistent db
    → IsConsistent (trigger_row digest draws input db).1
trigger-IsConsistent digest draws input db h =
    trigger_row_cases (λ r. IsConsistent r.1) digest input db (λ e. h) (λ r task e. h)
      (λ t kind id task_id at db_now due. record {
        distinct = h.distinct;
        current = h.current;
        governed =
            All-append (IsGoverned db.versions) db.runs (new_run id task_id at t input ∷ [])
              h.governed (new_run-IsGoverned digest db h t input kind id task_id at db_now due, tt);
      })
      draws

module _ (codec : Codec) where
  pub perform-IsConsistent :
      (c : Call) (s : Service) → IsConsistent s.tables → IsConsistent (perform codec c s).tables
  unfolding perform create update_draft publish set_enabled delete trigger
  perform-IsConsistent (creating draw now input actor) s h = elim (Bool-cases (validate input)) [
    | inr bad ↦ rw (bad, perform, create) h
    | inl valid ↦
        rw (valid, perform, create)
          (rw template_noted-tables (create-IsConsistent s.tables h draw now input actor))
  ]
  perform-IsConsistent (editing now id expected input actor) s h =
      elim (Bool-cases (validate input)) [
        | inr bad ↦ rw (bad, perform, update_draft) h
        | inl valid ↦
            rw (valid, perform, update_draft)
              (rw template_noted-tables
                (update_draft-IsConsistent s.tables h now (trim_space id) expected input actor))
      ]
  perform-IsConsistent (publishing now id expected actor) s h =
      rw template_noted-tables
        (publish-IsConsistent_row s.tables h now (trim_space id) expected actor)
  perform-IsConsistent (switching now id expected enabled actor) s h =
      rw template_noted-tables
        (set_enabled-IsConsistent s.tables h now (trim_space id) expected enabled actor)
  perform-IsConsistent (deleting id expected actor) s h =
      rw delete_noted-tables (delete-IsConsistent s.tables h (trim_space id) expected)
  perform-IsConsistent (triggering draws input) s h = elim (Bool-cases (bad_trigger codec input)) [
    | inl bad ↦ rw (bad, perform, trigger) h
    | inr fine ↦
        rw (fine, perform, trigger)
          (rw trigger_noted-tables
            (trigger-IsConsistent codec.digest draws (prepared codec draws.now input) s.tables h))
  ]
  perform-IsConsistent (working c) s h = record {
    distinct = h.distinct;
    current = h.current;
    governed = h.governed;
  }

  perform_all-IsConsistent_tables :
      (cs : List Call) (s : Service)
      → IsConsistent s.tables
      → IsConsistent (perform_all codec cs s).tables
  unfolding perform_all
  perform_all-IsConsistent_tables [] s h = h
  perform_all-IsConsistent_tables (c ∷ cs) s h =
      perform_all-IsConsistent_tables cs (perform codec c s) (perform-IsConsistent c s h)

-- A service without templates, versions and runs.
abbrev pub IsUnused : Tables → Type 0
IsUnused db = (db.templates ≡ []) × (db.versions ≡ []) × (db.runs ≡ [])

unused-IsConsistent : (db : Tables) → IsUnused db → IsConsistent db
unused-IsConsistent db (e, f, g) = record {
  distinct = rw e tt;
  current = rw e tt;
  governed = rw g tt;
}

-- From a service without templates, versions and runs, whatever mutations follow and whatever the
-- task store does between them: every run goes back to a version of its template that was published
-- as enabled, whose configuration is that of a valid input and matches the run's provider, event,
-- action and repository on some branch.
pub perform_all-IsGoverned :
    (codec : Codec) (cs : List Call) (s : Service) (r : Run)
    → IsUnused s.tables
    → In r (perform_all codec cs s).tables.runs
    → IsGoverned (perform_all codec cs s).tables.versions r
perform_all-IsGoverned codec cs s r u m =
    let h = perform_all-IsConsistent_tables codec cs s (unused-IsConsistent s.tables u) in
    All-in (IsGoverned (perform_all codec cs s).tables.versions)
      (perform_all codec cs s).tables.runs h.governed m
