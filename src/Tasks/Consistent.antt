-- ===== src/Tasks/Consistent.antt =====
-- The task tables under the calls of the store (server/internal/tasks/store.go).
pub mod Queue
pub mod Create
pub mod Trace
use repo_mender.Prelude.{
  ℕ, suc, ◌+◌, ◌<◌, ◌≤◌, ◌≡◌, refl, Bool, true, false, ◌&&◌, inl, inr, Option, none, some, List, [],
  ◌∷◌, ◌++◌, map, Text, text_eq, text_eq_iff, text_eq_refl, is_empty, count_if, any, All, All-map,
  All-and, All-trivial, pos_part, All-in, All-append, In, In-map, find-In, find-pass, update_where,
  if◌then◌else◌, arith, Bool-cases, Option-cases, ℤ, pos, leb_ℤ, is_blank,
}
use repo_mender.Ids.{Draw, new_id}
use repo_mender.Tasks.Status.{
  Kind, Status, queued, cancelled, status_eq, valid_kind, can_transition,
}
use repo_mender.Tasks.Types.{Time, Task, Run, CreateInput, Database}
use repo_mender.Tasks.Tables.{find_task}
use repo_mender.Tasks.Store.{
  create_task, new_task, cancel_task, cancelled_task, retry_task, retried_task,
}
use repo_mender.Tasks.Invariant.{is_run_of, IsSound, HasDistinctIds, IsConsistent}
use repo_mender.Tasks.Unique.{IsOnly, In-IsOnly, map-HasDistinctIds}
use repo_mender.Tasks.Queue.{heartbeat, holds_lease, extended_task}
use repo_mender.Tasks.Soundness.Claim.{heartbeat-IsSound}
use repo_mender.Tasks.Soundness.Cancel.{cancelled_runs, cancel-IsSound, retry-IsSound}

module _ (db : Database) (h : IsConsistent db) where
  -- What a guard on the found row says of every row with its identifier.
  pub IsOnly-found :
      (id : Text) {t : Task} → find_task id db.tasks ≡ some t → All (IsOnly t) db.tasks
  IsOnly-found id {t} e =
      In-IsOnly t db.tasks h.distinct (find-In (λ u. text_eq u.id id) db.tasks {x = t} e)

  pub guarded :
      (id : Text) (to : Status) (t u : Task)
      → find_task id db.tasks ≡ some t
      → can_transition t.status to ≡ true
      → IsOnly t u
      → text_eq u.id id ≡ true
      → can_transition u.status to ≡ true
  guarded id to t u e ok only same =
      rw
        (only (
          ground (
            arith,
            text_eq_iff u.id id,
            text_eq_iff t.id id,
            text_eq_iff u.id t.id,
            find-pass (λ v. text_eq v.id id) db.tasks {x = t} e,
          )))
        ok

  -- An update of some rows, with the runs that go with it.
  pub update-IsConsistent :
      (runs : List Run) (p : Task → Bool) (f : Task → Task) (Q : Task → Type 0)
      → ((t : Task) → (f t).id ≡ t.id)
      → All Q db.tasks
      → ((u : Task) → IsSound db.runs u × Q u → IsSound runs (if p u then f u else u))
      → IsConsistent (record db { tasks = update_where p f db.tasks; runs = runs })
  update-IsConsistent runs p f Q same q keep = record {
    distinct =
        map-HasDistinctIds (λ t. if p t then f t else t) db.tasks (λ t. ground (arith, same t))
          h.distinct;
    sound =
        All-map (λ u. IsSound db.runs u × Q u) (IsSound runs) (λ t. if p t then f t else t) db.tasks
          keep (All-and (IsSound db.runs) Q db.tasks h.sound q);
  }

  pub cancel_task-IsConsistent :
      (now : Time) (id reason : Text) → IsConsistent (cancel_task now id reason db).1
  unfolding cancel_task cancelled_task
  cancel_task-IsConsistent now id reason = elim (Option-cases (find_task id db.tasks)) [
    | inl missing ↦ rw (missing, cancel_task) h
    | inr (t, e) ↦ elim (Bool-cases (can_transition t.status cancelled)) [
      | inl ok ↦
          rw (e, ok, cancel_task)
            (update-IsConsistent (cancelled_runs id reason now db.runs) (λ u. text_eq u.id id)
              (cancelled_task reason now) (IsOnly t) (λ u. refl) (IsOnly-found id e)
              (λ u s.
                cancel-IsSound id reason now db.runs u s.0 (guarded id cancelled t u e ok s.1)))
      | inr refused ↦ rw (e, refused, cancel_task) h
    ]
  ]

  pub retry_task-IsConsistent :
      (now : Time) (id reason : Text) → IsConsistent (retry_task now id reason db).1
  unfolding retry_task retried_task
  retry_task-IsConsistent now id reason = elim (Option-cases (find_task id db.tasks)) [
    | inl missing ↦ rw (missing, retry_task) h
    | inr (t, e) ↦ elim (Bool-cases (can_transition t.status queued)) [
      | inl ok ↦
          rw (e, ok, retry_task)
            (update-IsConsistent db.runs (λ u. text_eq u.id id) (retried_task reason now) (IsOnly t)
              (λ u. refl) (IsOnly-found id e)
              (λ u s. retry-IsSound id reason now db.runs u s.0 (guarded id queued t u e ok s.1)))
      | inr refused ↦ rw (e, refused, retry_task) h
    ]
  ]

  pub heartbeat-IsConsistent :
      (now : Time) (id owner : Text) (lease : ℤ) → IsConsistent (heartbeat now id owner lease db).1
  unfolding heartbeat extended_task
  heartbeat-IsConsistent now id owner lease = elim (Bool-cases (leb_ℤ lease (pos 0))) [
    | inl bad ↦ rw (bad, heartbeat) h
    | inr fine ↦
        rw (fine, heartbeat)
          (update-IsConsistent db.runs (holds_lease id owner) (extended_task (now + pos_part lease))
            (λ u. Unit) (λ u. refl) (All-trivial db.tasks)
            (λ u s. heartbeat-IsSound id owner (now + pos_part lease) db.runs u s.0))
  ]
