-- ===== src/Worker/Turns.antt =====
-- One turn of the queue worker (`RunQueue` of server/internal/worker/queue.go) on the task store.
use repo_mender.Prelude.{
  ◌+◌, ◌≡◌, refl, subst, ap, true, false, ◌&&◌, inl, inr, some, List, [], ◌∷◌, ◌++◌, Text, text_eq,
  text_eq_refl, is_empty, All, All-map, find-map, find-pass, if◌then◌else◌, arith, Bool-cases, ℤ,
  pos_part, ok,
}
use repo_mender.Ids.{Draw}
use repo_mender.Tasks.Status.{Status, running, status_eq, can_transition}
use repo_mender.Tasks.Types.{Time, Snapshot, Task, Run, Database}
use repo_mender.Tasks.Tables.{find_task, find_run, find_task_run, is_finished}
use repo_mender.Tasks.Queue.{
  violates_runs, claim_task, commit_claim, claim_result, claimed_task, claimed_run, fail_expired,
  lease_expired_run, is_report, complete_task, complete_run, complete_checked, completed_task,
}
use repo_mender.Tasks.Invariant.{IsConsistent}
use repo_mender.Tasks.Unique.{pick-In, In-find}
use repo_mender.Tasks.Claiming.{claim_task_cases}

-- A new run is found behind rows that lack its identifier.
abbrev LacksRun : Text → Run → Type 0
LacksRun id r = text_eq r.id id ≡ false

absent_run :
    (id correlation_id : Text) (t : Task) (rs : List Run)
    → violates_runs id correlation_id t rs ≡ false
    → All (LacksRun id) rs
unfolding violates_runs
absent_run id correlation_id t [] e = tt
absent_run id correlation_id t (r ∷ rs) e =
    (ground (arith, e), absent_run id correlation_id t rs (ground (arith, e)))

find-last :
    (id task_id : Text) (rs : List Run) (r : Run)
    → All (LacksRun id) rs
    → r.id ≡ id
    → r.task_id ≡ task_id
    → find_task_run id task_id (rs ++ r ∷ []) ≡ some r
find-last id task_id [] r h e k = rw (e, k, text_eq_refl id, text_eq_refl task_id) refl
find-last id task_id (v ∷ vs) r h e k = rw h.0 (find-last id task_id vs r h.1 e k)

find-last_run :
    (id : Text) (rs : List Run) (r : Run)
    → All (LacksRun id) rs
    → r.id ≡ id
    → find_run id (rs ++ r ∷ []) ≡ some r
find-last_run id [] r h e = rw (e, text_eq_refl id) refl
find-last_run id (v ∷ vs) r h e = rw h.0 (find-last_run id vs r h.1 e)

fail_expired-LacksRun :
    (now : Time) (task : Task) (id : Text) (rs : List Run)
    → All (LacksRun id) rs
    → All (LacksRun id) (fail_expired now task rs)
unfolding fail_expired lease_expired_run
fail_expired-LacksRun now task id rs h = elim (Bool-cases (status_eq task.status running)) [
  | inr other ↦ rw (other, fail_expired) h
  | inl held ↦
      rw (held, fail_expired)
        (All-map (LacksRun id) (LacksRun id)
          (λ v.
            if text_eq v.task_id task.id && status_eq v.status running
            then lease_expired_run now v
            else v)
          rs
          (λ v k. elim (Bool-cases (text_eq v.task_id task.id && status_eq v.status running)) [
            | inl mine ↦ rw mine k
            | inr away ↦ rw away k
          ])
          h)
]

-- Where a claim leaves its task and its run.
abbrev pub IsHeld : Task → Run → Database → Type 0
IsHeld t r db =
    (u : Task) × (find_task t.id db.tasks ≡ some u)
    × (u.status ≡ running)
    × (find_task_run r.id t.id db.runs ≡ some r)
    × (find_run r.id db.runs ≡ some r)
    × (r.status ≡ running)

committed-IsHeld :
    (a b owner : Text) (until now : Time) (t t' : Task) (r' : Run) (db after : Database)
    → find_task t.id db.tasks ≡ some t
    → commit_claim a b owner until now t db ≡ (ok (t', r'), after)
    → violates_runs a b t db.runs ≡ false
    → IsHeld t' r' after
unfolding commit_claim claim_result claimed_task claimed_run
committed-IsHeld a b owner until now t t' r' db after found e fresh =
    let task : claim_result (t.attempts + 1) owner until now t ≡ t' =
      ground (arith, ap (λ p. p.0) e) in
    let run : claimed_run a b t now ≡ r' = ground (arith, ap (λ p. p.0) e) in
    let old = fail_expired-LacksRun now t a db.runs (absent_run a b t db.runs fresh) in
    let f = λ (v : Task).
      if text_eq v.id t.id then claimed_task (t.attempts + 1) owner until now v else v in
    let held : IsHeld (claim_result (t.attempts + 1) owner until now t) (claimed_run a b t now)
        (commit_claim a b owner until now t db).1 =
      (
        f t,
        find-map (λ v. text_eq v.id t.id) f db.tasks {x = t}
            (λ v. elim (Bool-cases (text_eq v.id t.id)) [ inl h ↦ rw h h | inr h ↦ rw h h ]) found,
        rw (text_eq_refl t.id) refl,
        find-last a t.id (fail_expired now t db.runs) (claimed_run a b t now) old refl refl,
        find-last_run a (fail_expired now t db.runs) (claimed_run a b t now) old refl,
        refl,
      ) in
    subst (λ (d : Database). IsHeld t' r' d) (ap (λ p. p.1) e)
      (subst (λ (v : Task). IsHeld v r' (commit_claim a b owner until now t db).1) task
        (subst
          (λ (v : Run).
            IsHeld (claim_result (t.attempts + 1) owner until now t) v
              (commit_claim a b owner until now t db).1)
          run held))

pub claim-IsHeld :
    (c d : Draw) (db_now : Snapshot) (now : Time) (owner : Text) (lease : ℤ) (t' : Task) (r' : Run)
    (db after : Database)
    → IsConsistent db
    → claim_task c d db_now now owner lease db ≡ (ok (t', r'), after)
    → IsHeld t' r' after
claim-IsHeld c d db_now now owner lease t' r' db after h e =
    let (t, a, b, fine, k, q) = claim_task_cases c d db_now now owner lease db t' r' after e in
    let (m, free) = pick-In db_now db.tasks {t = t} k in
    committed-IsHeld a b owner (now + pos_part lease) now t t' r' db after
      (In-find t db.tasks h.distinct m) q fine

report-allowed :
    (s : Status)
    → is_report s ≡ true
    → (can_transition running s ≡ true) × (status_eq running s && is_finished s ≡ false)
unfolding can_transition
report-allowed s h = (ground arith, ground arith)

-- The row after a report.
abbrev pub IsReported : Task → Status → Database → Type 0
IsReported t s db = (v : Task) × (find_task t.id db.tasks ≡ some v) × (v.status ≡ s)

pub held-reports :
    (now : Time) (t : Task) (r : Run) (s : Status) (code message : Text) (db : Database)
    → IsHeld t r db
    → is_empty r.id ≡ false
    → is_report s ≡ true
    → ((complete_task now t.id r.id s code message db).0 ≡ ok tt)
      × IsReported t s (complete_task now t.id r.id s code message db).1
unfolding complete_task complete_run complete_checked completed_task
held-reports now t r s code message db (u, k, st, kr, kv, sr) named valid =
    let (can, unfinished) = report-allowed s valid in
    let running_run : status_eq r.status running ≡ true = rw sr refl in
    let f = λ (v : Task). if text_eq v.id t.id then completed_task s message now v else v in
    let same : text_eq u.id t.id ≡ true = find-pass (λ v. text_eq v.id t.id) db.tasks {x = u} k in
    (
      rw
          (
            valid, k, named, kr, running_run, st, unfinished, can, complete_task, complete_run,
            complete_checked,
          )
          refl,
      rw
          (
            valid, k, named, kr, running_run, st, unfinished, can, complete_task, complete_run,
            complete_checked,
          )
          (
            f u,
            find-map (λ v. text_eq v.id t.id) f db.tasks {x = u}
                (λ v. elim (Bool-cases (text_eq v.id t.id)) [ inl h ↦ rw h h | inr h ↦ rw h h ]) k,
            rw same refl,
          ),
    )
