-- ===== src/Tasks/Machine.antt =====
-- The state machine of `CanTransition` (server/internal/tasks/types.go) against the writes of the
-- store (server/internal/tasks/store.go).
pub mod Trace
use repo_mender.Prelude.{
  ◌+◌, ◌≡◌, refl, sym, subst, ap, Bool, true, false, inl, inr, ◌⊎◌, Option, none, some, List, [],
  ◌∷◌, ◌++◌, map, Text, text_eq, text_eq_iff, All, All-in, In, find-In, find-pass, find-append,
  find-map, update_where, if◌then◌else◌, arith, Bool-cases, Option-cases, ℤ, pos, leb_ℤ, is_blank,
  pos_part, ok, err, find, not, ◌&&◌, is_empty,
}
use repo_mender.Ids.{Draw, new_id}
use repo_mender.Tasks.Status.{
  Status, Kind, queued, running, failed, cancelled, superseded, status_eq, can_transition,
  valid_kind,
}
use repo_mender.Tasks.Types.{Time, Task, Run, CreateInput, Database}
use repo_mender.Tasks.Tables.{find_task, find_task_run, is_finished}
use repo_mender.Tasks.Store.{
  create_task, create_kind, insert_drawn, insert_task, lacks_fields, cancel_task, cancelled_task,
  retry_task, retried_task,
}
use repo_mender.Tasks.Queue.{
  claimable, pick, claim_task, claim_picked, claim_drawn, commit_claim, claimed_task, heartbeat,
  holds_lease, extended_task, complete_task, complete_run, complete_checked, completed_task,
  is_report,
}
use repo_mender.Tasks.Supersede.{
  PayloadReader, supersede_code_reviews, superseded_task, is_outdated,
}
use repo_mender.Tasks.Invariant.{HasDistinctIds}
use repo_mender.Tasks.Unique.{IsOnly, In-IsOnly, pick-In}

-- How a call moves a task: along `CanTransition`, or, if it is a claim, from failed to running.
abbrev pub Moves : Bool → Status → Status → Type 0
Moves claims s t =
    (s ≡ t) ⊎ ((can_transition s t ≡ true) ⊎ ((claims ≡ true) × (s ≡ failed) × (t ≡ running)))

-- The task that `id` names after a call, and how it moved.
abbrev pub Moved : Bool → Text → Task → List Task → Type 0
Moved claims id t ts = (t' : Task) × (find_task id ts ≡ some t') × Moves claims t.status t'.status

pub unmoved :
    (claims : Bool) (id : Text) (t : Task) (ts : List Task)
    → find_task id ts ≡ some t
    → Moved claims id t ts
unmoved claims id t ts e = (t, e, inl refl)

module _ (id : Text) (t : Task) (ts : List Task) (e : find_task id ts ≡ some t) where
  pub update-Moved :
      (claims : Bool) (p : Task → Bool) (f : Task → Task)
      → ((u : Task) → (f u).id ≡ u.id)
      → Moves claims t.status (if p t then f t else t).status
      → Moved claims id t (update_where p f ts)
  update-Moved claims p f same mv =
      let g = λ (u : Task). if p u then f u else u in
      (g t, find-map (λ u. text_eq u.id id) g ts {x = t} (λ u. ground (arith, same u)) e, mv)

  -- Two lookups that find rows of one identifier find one row.
  found_same :
      (id0 : Text) (t0 : Task) → find_task id0 ts ≡ some t0 → text_eq t.id id0 ≡ true → t ≡ t0
  found_same id0 t0 e0 same =
      let eq : id0 ≡ id = ground (
        arith,
        text_eq_iff t.id id0,
        text_eq_iff t.id id,
        find-pass (λ u. text_eq u.id id) ts {x = t} e,
      ) in
      let both : find_task id ts ≡ some t0 = subst (λ x. find_task x ts ≡ some t0) eq e0 in cc

  pub append-Moved : (more : List Task) → Moved false id t (ts ++ more)
  append-Moved more = (t, find-append (λ u. text_eq u.id id) ts more {x = t} e, inl refl)

outdated_moves :
    (json : PayloadReader) (repository provider : Text) (pull_request : ℤ) (new_task : Text)
    (t : Task)
    → is_outdated json repository provider pull_request new_task t ≡ true
    → can_transition t.status superseded ≡ true
unfolding is_outdated can_transition
outdated_moves json repository provider pull_request new_task t h = ground arith

module _ (db : Database) (id : Text) (t : Task) (e : find_task id db.tasks ≡ some t) where
  -- An update of the found row's identifier moves it, if the guard on that row allows it.
  guarded-Moved :
      (id0 : Text) (t0 : Task) (f : Task → Task) (to : Status)
      → find_task id0 db.tasks ≡ some t0
      → can_transition t0.status to ≡ true
      → ((u : Task) → ((f u).id ≡ u.id) × ((f u).status ≡ to))
      → Moved false id t (update_where (λ u. text_eq u.id id0) f db.tasks)
  guarded-Moved id0 t0 f to e0 can keep =
      update-Moved id t db.tasks e false (λ u. text_eq u.id id0) f (λ u. (keep u).0)
        (elim (Bool-cases (text_eq t.id id0)) [
          | inl same ↦
              inr (inl (ground (arith, keep t, same, found_same id t db.tasks e id0 t0 e0 same)))
          | inr other ↦ inl (ground (arith, other))
        ])

  pub cancel-Moved :
      (now : Time) (id0 reason : Text) → Moved false id t (cancel_task now id0 reason db).1.tasks
  unfolding cancel_task cancelled_task
  cancel-Moved now id0 reason = elim (Option-cases (find_task id0 db.tasks)) [
    | inl missing ↦ rw (missing, cancel_task) (unmoved false id t db.tasks e)
    | inr (t0, e0) ↦ elim (Bool-cases (can_transition t0.status cancelled)) [
      | inl can ↦
          rw (e0, can, cancel_task)
            (guarded-Moved id0 t0 (cancelled_task reason now) cancelled e0 can (λ u. (refl, refl)))
      | inr refused ↦ rw (e0, refused, cancel_task) (unmoved false id t db.tasks e)
    ]
  ]

  pub retry-Moved :
      (now : Time) (id0 reason : Text) → Moved false id t (retry_task now id0 reason db).1.tasks
  unfolding retry_task retried_task
  retry-Moved now id0 reason = elim (Option-cases (find_task id0 db.tasks)) [
    | inl missing ↦ rw (missing, retry_task) (unmoved false id t db.tasks e)
    | inr (t0, e0) ↦ elim (Bool-cases (can_transition t0.status queued)) [
      | inl can ↦
          rw (e0, can, retry_task)
            (guarded-Moved id0 t0 (retried_task reason now) queued e0 can (λ u. (refl, refl)))
      | inr refused ↦ rw (e0, refused, retry_task) (unmoved false id t db.tasks e)
    ]
  ]

  pub heartbeat-Moved :
      (now : Time) (id0 owner : Text) (lease : ℤ)
      → Moved false id t (heartbeat now id0 owner lease db).1.tasks
  unfolding heartbeat extended_task
  heartbeat-Moved now id0 owner lease = elim (Bool-cases (leb_ℤ lease (pos 0))) [
    | inl bad ↦ rw (bad, heartbeat) (unmoved false id t db.tasks e)
    | inr fine ↦
        rw (fine, heartbeat)
          (update-Moved id t db.tasks e false (holds_lease id0 owner)
            (extended_task (now + pos_part lease)) (λ u. refl) (inl (ground arith)))
  ]

  pub supersede-Moved :
      (json : PayloadReader) (db_now : Time) (repository provider : Text) (pull_request : ℤ)
      (new_task : Text)
      → Moved false id t
          (supersede_code_reviews json db_now repository provider pull_request new_task db).1.tasks
  unfolding supersede_code_reviews superseded_task
  supersede-Moved json db_now repository provider pull_request new_task =
      update-Moved id t db.tasks e false
        (is_outdated json repository provider pull_request new_task)
        (superseded_task new_task db_now) (λ u. refl)
        (elim (Bool-cases (is_outdated json repository provider pull_request new_task t)) [
          | inl old ↦
              rw old
                (inr (inl (outdated_moves json repository provider pull_request new_task t old)))
          | inr kept ↦ rw kept (inl refl)
        ])

  complete_checked-Moved :
      (now : Time) (id0 run_id : Text) (status : Status) (code message : Text) (t0 : Task)
      → find_task id0 db.tasks ≡ some t0
      → Moved false id t (complete_checked now id0 run_id status code message t0.status db).1.tasks
  unfolding complete_checked completed_task
  complete_checked-Moved now id0 run_id status code message t0 e0 =
      elim (Bool-cases (status_eq t0.status status && is_finished status)) [
        | inl same ↦ rw (same, complete_checked) (unmoved false id t db.tasks e)
        | inr other ↦ elim (Bool-cases (can_transition t0.status status)) [
          | inl can ↦
              rw (other, can, complete_checked)
                (guarded-Moved id0 t0 (completed_task status message now) status e0 can
                  (λ u. (refl, refl)))
          | inr refused ↦ rw (other, refused, complete_checked) (unmoved false id t db.tasks e)
        ]
      ]

  complete_run-Moved :
      (now : Time) (id0 run_id : Text) (status : Status) (code message : Text) (t0 : Task)
      (o : Option Run)
      → find_task id0 db.tasks ≡ some t0
      → Moved false id t (complete_run now id0 run_id status code message t0.status o db).1.tasks
  unfolding complete_run
  complete_run-Moved now id0 run_id status code message t0 none e0 = unmoved false id t db.tasks e
  complete_run-Moved now id0 run_id status code message t0 (some r) e0 =
      elim (Bool-cases (status_eq r.status running)) [
        | inl busy ↦
            rw (busy, complete_run)
              (complete_checked-Moved now id0 run_id status code message t0 e0)
        | inr idle ↦ elim (Bool-cases (status_eq t0.status status && status_eq r.status status)) [
          | inl again ↦ rw (idle, again, complete_run) (unmoved false id t db.tasks e)
          | inr lost ↦ rw (idle, lost, complete_run) (unmoved false id t db.tasks e)
        ]
      ]

  pub complete-Moved :
      (now : Time) (id0 run_id : Text) (status : Status) (code message : Text)
      → Moved false id t (complete_task now id0 run_id status code message db).1.tasks
  unfolding complete_task
  complete-Moved now id0 run_id status code message = elim (Bool-cases (is_report status)) [
    | inr bad ↦ rw (bad, complete_task) (unmoved false id t db.tasks e)
    | inl rep ↦ elim (Option-cases (find_task id0 db.tasks)) [
      | inl missing ↦ rw (rep, missing, complete_task) (unmoved false id t db.tasks e)
      | inr (t0, e0) ↦ elim (Bool-cases (is_empty run_id)) [
        | inl no_run ↦
            rw (rep, e0, no_run, complete_task)
              (complete_checked-Moved now id0 run_id status code message t0 e0)
        | inr run ↦
            rw (rep, e0, run, complete_task)
              (complete_run-Moved now id0 run_id status code message t0
                (find_task_run run_id id0 db.runs) e0)
      ]
    ]
  ]
