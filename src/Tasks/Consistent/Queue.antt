-- ===== src/Tasks/Consistent/Queue.antt =====
-- Claims, completions and superseding (server/internal/tasks/store.go) on the task tables.
use repo_mender.Prelude.{
  ◌+◌, ◌≡◌, refl, true, false, ◌&&◌, inl, inr, Option, none, some, map, Text, text_eq, is_empty,
  All-in, In, In-map, All-self, arith, Bool-cases, Option-cases, ℤ, pos, leb_ℤ, is_blank, pos_part,
}
use repo_mender.Ids.{Draw, new_id}
use repo_mender.Tasks.Status.{Status, running, status_eq, can_transition}
use repo_mender.Tasks.Types.{Time, Snapshot, Task, Run, Database}
use repo_mender.Tasks.Tables.{find_task, find_task_run, is_finished}
use repo_mender.Tasks.Queue.{
  violates_runs, claim_task, claim_drawn, claim_picked, claimed_task, pick, commit_claim,
  complete_task, complete_run, complete_checked, completed_task, is_report,
}
use repo_mender.Tasks.Supersede.{
  PayloadReader, is_outdated, superseded_task, supersede_code_reviews,
}
use repo_mender.Tasks.Invariant.{IsSound, IsConsistent}
use repo_mender.Tasks.Unique.{IsOnly, In-IsOnly, map-HasDistinctIds, pick-In}
use repo_mender.Tasks.Soundness.Claim.{runs_after, claim-IsSound}
use repo_mender.Tasks.Soundness.Complete.{completed_runs, complete-IsSound}
use repo_mender.Tasks.Soundness.Supersede.{after_supersede, superseded_runs, supersede-IsSound}
use repo_mender.Tasks.Consistent.{IsOnly-found, guarded, update-IsConsistent}

module _ (db : Database) (h : IsConsistent db) where
  commit_claim-IsConsistent :
      (run_id correlation_id owner : Text) (db_now : Snapshot) (until now : Time) (t : Task)
      → pick db_now db.tasks ≡ some t
      → IsConsistent (commit_claim run_id correlation_id owner until now t db).1
  unfolding commit_claim claimed_task
  commit_claim-IsConsistent run_id correlation_id owner db_now until now t e =
      let (m, c) = pick-In db_now db.tasks {t = t} e in
      update-IsConsistent db h (runs_after now t db.runs run_id correlation_id)
        (λ u. text_eq u.id t.id) (claimed_task (t.attempts + 1) owner until now) (IsOnly t)
        (λ u. refl) (In-IsOnly t db.tasks h.distinct m)
        (λ u s.
          claim-IsSound now t db.runs run_id correlation_id owner db_now.time until u
            (All-in (IsSound db.runs) db.tasks h.sound m) c s.0 s.1)

  claim_drawn-IsConsistent :
      (r c : Option Text) (owner : Text) (db_now : Snapshot) (until now : Time) (t : Task)
      → pick db_now db.tasks ≡ some t
      → IsConsistent (claim_drawn r c owner until now t db).1
  unfolding claim_drawn
  claim_drawn-IsConsistent (some r) (some c) owner db_now until now t e =
      elim (Bool-cases (violates_runs r c t db.runs)) [
        | inl bad ↦ rw (bad, claim_drawn) h
        | inr fine ↦
            rw (fine, claim_drawn) (commit_claim-IsConsistent r c owner db_now until now t e)
      ]
  claim_drawn-IsConsistent none _ owner db_now until now t e = h
  claim_drawn-IsConsistent (some r) none owner db_now until now t e = h

  claim_picked-IsConsistent :
      (o : Option Task) (r c : Draw) (db_now : Snapshot) (now : Time) (owner : Text) (lease : ℤ)
      → pick db_now db.tasks ≡ o
      → IsConsistent (claim_picked o r c now owner lease db).1
  unfolding claim_picked
  claim_picked-IsConsistent none r c db_now now owner lease e = h
  claim_picked-IsConsistent (some t) r c db_now now owner lease e =
      claim_drawn-IsConsistent (new_id r) (new_id c) owner db_now (now + pos_part lease) now t e

  pub claim_task-IsConsistent :
      (r c : Draw) (db_now : Snapshot) (now : Time) (owner : Text) (lease : ℤ)
      → IsConsistent (claim_task r c db_now now owner lease db).1
  unfolding claim_task
  claim_task-IsConsistent r c db_now now owner lease = elim (Bool-cases (is_blank owner)) [
    | inl blank ↦ rw (blank, claim_task) h
    | inr named ↦ elim (Bool-cases (leb_ℤ lease (pos 0))) [
      | inl bad ↦ rw (named, bad, claim_task) h
      | inr fine ↦
          rw (named, fine, claim_task)
            (claim_picked-IsConsistent (pick db_now db.tasks) r c db_now now owner lease refl)
    ]
  ]

  complete_checked-IsConsistent :
      (now : Time) (task_id run_id : Text) (status : Status) (code message : Text) (t : Task)
      (r : Run)
      → is_report status ≡ true
      → is_empty run_id ≡ false
      → find_task task_id db.tasks ≡ some t
      → find_task_run run_id task_id db.runs ≡ some r
      → status_eq r.status running ≡ true
      → IsConsistent (complete_checked now task_id run_id status code message t.status db).1
  unfolding complete_checked completed_task
  complete_checked-IsConsistent now task_id run_id status code message t r rep ne e er busy =
      elim (Bool-cases (status_eq t.status status && is_finished status)) [
        | inl same ↦ rw (same, complete_checked) h
        | inr other ↦ elim (Bool-cases (can_transition t.status status)) [
          | inl ok ↦
              rw (other, ok, ne, complete_checked)
                (update-IsConsistent db h
                  (completed_runs task_id run_id status code message now db.runs)
                  (λ u. text_eq u.id task_id) (completed_task status message now) (IsOnly t)
                  (λ u. refl) (IsOnly-found db h task_id e)
                  (λ u s.
                    complete-IsSound task_id run_id status code message now db.runs rep {r = r} er
                      busy u s.0 (guarded db h task_id status t u e ok s.1)))
          | inr refused ↦ rw (other, refused, complete_checked) h
        ]
      ]

  complete_run-IsConsistent :
      (now : Time) (task_id run_id : Text) (status : Status) (code message : Text) (t : Task)
      (o : Option Run)
      → is_report status ≡ true
      → is_empty run_id ≡ false
      → find_task task_id db.tasks ≡ some t
      → find_task_run run_id task_id db.runs ≡ o
      → IsConsistent (complete_run now task_id run_id status code message t.status o db).1
  unfolding complete_run
  complete_run-IsConsistent now task_id run_id status code message t none rep ne e er = h
  complete_run-IsConsistent now task_id run_id status code message t (some r) rep ne e er =
      elim (Bool-cases (status_eq r.status running)) [
        | inl busy ↦
            rw (busy, complete_run)
              (complete_checked-IsConsistent now task_id run_id status code message t r rep ne e er
                busy)
        | inr idle ↦ elim (Bool-cases (status_eq t.status status && status_eq r.status status)) [
          | inl again ↦ rw (idle, again, complete_run) h
          | inr lost ↦ rw (idle, lost, complete_run) h
        ]
      ]

  pub complete_task-IsConsistent :
      (now : Time) (task_id run_id : Text) (status : Status) (code message : Text)
      → is_empty run_id ≡ false
      → IsConsistent (complete_task now task_id run_id status code message db).1
  unfolding complete_task
  complete_task-IsConsistent now task_id run_id status code message ne =
      elim (Bool-cases (is_report status)) [
        | inr bad ↦ rw (bad, complete_task) h
        | inl rep ↦ elim (Option-cases (find_task task_id db.tasks)) [
          | inl missing ↦ rw (rep, missing, complete_task) h
          | inr (t, e) ↦
              rw (rep, e, ne, complete_task)
                (complete_run-IsConsistent now task_id run_id status code message t
                  (find_task_run run_id task_id db.runs) rep ne e refl)
        ]
      ]

  pub supersede_code_reviews-IsConsistent :
      (json : PayloadReader) (db_now : Time) (repository provider : Text) (pull_request : ℤ)
      (new_task : Text)
      → is_empty new_task ≡ false
      → IsConsistent
          (supersede_code_reviews json db_now repository provider pull_request new_task db).1
  unfolding supersede_code_reviews superseded_task
  supersede_code_reviews-IsConsistent json db_now repository provider pull_request new_task ne =
      let row = after_supersede json db_now repository provider pull_request new_task in
      let d = map-HasDistinctIds row db.tasks (λ (t : Task). ground arith) h.distinct in
      update-IsConsistent db h (superseded_runs new_task db_now db.runs (map row db.tasks))
        (is_outdated json repository provider pull_request new_task)
        (superseded_task new_task db_now) (λ u. In u db.tasks) (λ u. refl) (All-self db.tasks)
        (λ u s.
          supersede-IsSound json db_now repository provider pull_request new_task db.runs
            (map row db.tasks) ne u s.0 d (In-map row u db.tasks s.1))
