-- ===== src/Tasks/Claiming/Stale.antt =====
-- A claim over an expired lease, and the report of the worker that held it (`ClaimTask` and
-- `CompleteTask` of server/internal/tasks/store.go).
use repo_mender.Prelude.{
  ◌+◌, ◌≡◌, subst, ap, true, false, ◌&&◌, some, List, [], ◌∷◌, ◌++◌, map, Text, text_eq,
  text_eq_refl, All-in, In, find-append, find-map, if◌then◌else◌, arith, ℤ, pos_part, ok, err,
  find-pass, count_if-pos, count_if-and-le, is_empty,
}
use repo_mender.Ids.{Draw}
use repo_mender.Tasks.Status.{Status, running, failed, status_eq}
use repo_mender.Tasks.Types.{Time, Snapshot, Task, Run, lease_lost, Database}
use repo_mender.Tasks.Tables.{find_task, find_task_run}
use repo_mender.Tasks.Queue.{
  commit_claim, claim_task, claimed_task, claim_result, claimed_run, fail_expired,
  lease_expired_run, complete_task, complete_run, is_report,
}
use repo_mender.Tasks.Invariant.{IsSound, IsConsistent, is_running_run_of}
use repo_mender.Tasks.Unique.{pick-In, In-find}
use repo_mender.Tasks.Claiming.{claim_task_cases}

module _ (db : Database) (h : IsConsistent db) (t : Task) (m : In t db.tasks) where
  -- A run that is running belongs to a task that is running.
  running_of_run :
      (run_id : Text) (r : Run)
      → find_task_run run_id t.id db.runs ≡ some r
      → r.status ≡ running
      → t.status ≡ running
  running_of_run run_id r e busy = ground (
    arith,
    All-in (IsSound db.runs) db.tasks h.sound m,
    find-pass (λ s. text_eq s.id run_id && text_eq s.task_id t.id) db.runs {x = r} e,
    count_if-pos (is_running_run_of t.id) (λ s. text_eq s.id run_id && text_eq s.task_id t.id)
        db.runs {x = r} e,
    count_if-and-le (is_running_run_of t.id) (λ s. text_eq s.id run_id && text_eq s.task_id t.id)
        db.runs,
  )

  failed_run :
      (now : Time) (run_id : Text) (r : Run) (more : List Run)
      → find_task_run run_id t.id db.runs ≡ some r
      → r.status ≡ running
      → (s : Run) × (find_task_run run_id t.id (fail_expired now t db.runs ++ more) ≡ some s)
        × (s.status ≡ failed)
  unfolding fail_expired lease_expired_run
  failed_run now run_id r more e busy =
      let q = λ (s : Run). text_eq s.id run_id && text_eq s.task_id t.id in
      let f = λ (s : Run).
        if text_eq s.task_id t.id && status_eq s.status running
        then lease_expired_run now s
        else s in
      (
        f r,
        rw (running_of_run run_id r e busy) (
            find-append q (map f db.runs) more {x = f r}
              (find-map q f db.runs {x = r} (λ s. ground arith) e)),
        ground (arith, busy, find-pass q db.runs {x = r} e),
      )

-- A run that is failed cannot report while its task is running again.
complete_lost :
    (db : Database) (now : Time) (task_id run_id : Text) (status : Status) (code message : Text)
    (x : Task) (s : Run)
    → find_task task_id db.tasks ≡ some x
    → x.status ≡ running
    → find_task_run run_id task_id db.runs ≡ some s
    → s.status ≡ failed
    → is_empty run_id ≡ false
    → is_report status ≡ true
    → complete_task now task_id run_id status code message db ≡ (err lease_lost, db)
unfolding complete_task complete_run
complete_lost db now task_id run_id status code message x s e busy er dead named rep =
    rw (rep, e, named, er, complete_task) (ground arith)

committed_lost :
    (db : Database) (t : Task) (a b owner : Text) (until now now2 : Time) (old_id : Text)
    (old : Run) (status : Status) (code message : Text)
    → IsConsistent db
    → In t db.tasks
    → find_task_run old_id t.id db.runs ≡ some old
    → old.status ≡ running
    → is_empty old_id ≡ false
    → is_report status ≡ true
    → let after = (commit_claim a b owner until now t db).1 in
      complete_task now2 t.id old_id status code message after ≡ (err lease_lost, after)
unfolding commit_claim claimed_task
committed_lost db t a b owner until now now2 old_id old status code message h m found busy named
      rep =
    let f = λ (v : Task).
      if text_eq v.id t.id then claimed_task (t.attempts + 1) owner until now v else v in
    let (s, es, dead) =
      failed_run db h t m now old_id old (claimed_run a b t now ∷ []) found busy in
    complete_lost (commit_claim a b owner until now t db).1 now2 t.id old_id status code message
      (f t) s
      (find-map (λ v. text_eq v.id t.id) f db.tasks {x = t} (λ v. ground arith)
        (In-find t db.tasks h.distinct m))
      (ground (arith, text_eq_refl t.id)) es dead named rep

-- In a consistent database: once a claim has taken the task, a run of it that was running before
-- can report nothing more. Its completion is refused as a lost lease, and changes nothing.
pub claim_task-complete_task :
    (r c : Draw) (db_now : Snapshot) (now now2 : Time) (owner : Text) (lease : ℤ)
    (db after : Database) (t : Task) (run old : Run) (old_id : Text) (status : Status)
    (code message : Text)
    → IsConsistent db
    → claim_task r c db_now now owner lease db ≡ (ok (t, run), after)
    → find_task_run old_id t.id db.runs ≡ some old
    → old.status ≡ running
    → is_empty old_id ≡ false
    → is_report status ≡ true
    → complete_task now2 t.id old_id status code message after ≡ (err lease_lost, after)
unfolding commit_claim claim_result
claim_task-complete_task r c db_now now now2 owner lease db after t run old old_id status code
      message h e found busy named rep =
    let (u, a, b, _, k, q) = claim_task_cases r c db_now now owner lease db t run after e in
    let (m, d) = pick-In db_now db.tasks {t = u} k in
    let same : t.id ≡ u.id = ground arith in
    rw same (
      subst
        (λ (x : Database).
          complete_task now2 u.id old_id status code message x ≡ (err lease_lost, x))
        (ap (λ x. x.1) q)
        (committed_lost db u a b owner (now + pos_part lease) now now2 old_id old status code
          message h m (rw same at found) busy named rep))
