-- ===== src/Tasks/Queue.antt =====
-- The durable queue: `ClaimTask`, `Heartbeat`, `CompleteTask` and `SupersedeCodeReviews` of
-- server/internal/tasks/store.go.
use repo_mender.Prelude.{
  update_where, any, ℕ, ◌+◌, Bool, true, false, ◌&&◌, ◌||◌, not, Option, none, some, List, [], ◌∷◌,
  ◌++◌, Text, text, text_eq, is_empty, is_blank, trim_space, ℤ, pos, pos_part, leb_ℤ, ltb_ℤ,
  count_if, ok, err, ltb, leb, ◌==◌, if◌then◌else◌,
}
use repo_mender.Ids.{Draw, new_id}
use repo_mender.Tasks.Status.{
  Status, queued, running, awaiting_approval, failed, status_eq, can_transition,
}
use repo_mender.Tasks.Types.{
  Time, Snapshot, Task, Run, constraint_violated, invalid_status, owner_required,
  lease_not_positive, random_failed, task_not_found, run_not_found, invalid_transition, lease_lost,
  Operation,
}
use repo_mender.Tasks.Tables.{find_task, find_task_run, update_task, is_finished}

abbrev expired_before : Option Time → Time → Bool
expired_before none now = false
expired_before (some until) now = ltb until now

-- The `WHERE` clause of the claim.
unfoldable pub claimable : Time → Task → Bool
claimable db_now t =
    (((status_eq t.status queued || status_eq t.status failed) && leb t.available_at db_now)
      || (status_eq t.status running && expired_before t.lease_until db_now))
    && ltb t.attempts t.max_attempts

-- `ORDER BY priority DESC, available_at, created_at`, strictly.
unfoldable pub precedes : Task → Task → Bool
precedes a b =
    ltb_ℤ b.priority a.priority
    || (leb_ℤ b.priority a.priority
        && leb_ℤ a.priority b.priority
        && (ltb a.available_at b.available_at
            || (a.available_at == b.available_at && ltb a.created_at b.created_at)))

abbrev pub better : Task → Option Task → Task
better t none = t
better t (some u) = if precedes u t then u else t

-- `FOR UPDATE SKIP LOCKED`: a row that another transaction locks is passed over.
unfoldable pub is_free : Snapshot → Task → Bool
is_free db_now t = claimable db_now.time t && not (db_now.locked t.id)

-- `LIMIT 1`; of rows that tie it takes the first, where PostgreSQL may take any.
unfoldable pub pick : Snapshot → List Task → Option Task
pick db_now [] = none
pick db_now (t ∷ ts) =
    let rest = pick db_now ts in if is_free db_now t then some (better t rest) else rest

unfoldable pub lease_expired_run : Time → Run → Run
lease_expired_run now r = record r {
  status = failed;
  error_code = text "lease_expired";
  error_message = text "worker lease expired";
  finished_at = some now;
}

-- An expired lease fails the run that held it.
unfoldable pub fail_expired : Time → Task → List Run → List Run
fail_expired now task runs =
    if status_eq task.status running
    then update_where (λ r. text_eq r.task_id task.id && status_eq r.status running)
        (lease_expired_run now) runs
    else runs

abbrev pub or_time : Option Time → Time → Option Time
or_time none now = some now
or_time (some t) now = some t

-- The row that the claim writes.
unfoldable pub claimed_task : ℕ → Text → Time → Time → Task → Task
claimed_task attempt owner until now t = record t {
  status = running;
  attempts = attempt;
  lease_owner = owner;
  lease_until = some until;
  started_at = or_time t.started_at now;
  updated_at = now;
}

unfoldable pub claimed_run : Text → Text → Task → Time → Run
claimed_run id correlation_id task now = record {
  id = id;
  task_id = task.id;
  attempt = task.attempts + 1;
  status = running;
  correlation_id = correlation_id;
  external_run_id = [];
  error_code = [];
  error_message = [];
  created_at = now;
  started_at = some now;
  finished_at = none;
}

-- The task that the claim returns: its `StartedAt` is the time of this claim.
unfoldable pub claim_result : ℕ → Text → Time → Time → Task → Task
claim_result attempt owner until now t = record t {
  status = running;
  attempts = attempt;
  lease_owner = owner;
  lease_until = some until;
  started_at = some now;
  updated_at = now;
}

-- PRIMARY KEY of `runs.id`, UNIQUE of `correlation_id` and of `task_id` with `attempt`
-- (server/internal/database/migrations/000004_tasks.up.sql).
unfoldable pub violates_runs : Text → Text → Task → List Run → Bool
violates_runs run_id correlation_id task = any (λ r.
    text_eq r.id run_id
    || text_eq r.correlation_id correlation_id
    || (text_eq r.task_id task.id && r.attempt == task.attempts + 1))

-- What is written once both identifiers are drawn and no constraint refuses the run.
unfoldable pub commit_claim : Text → Text → Text → Time → Time → Task → Operation (Task × Run)
commit_claim run_id correlation_id owner until now task db = (
  ok (
    claim_result (task.attempts + 1) owner until now task,
    claimed_run run_id correlation_id task now,
  ),
  record db {
    tasks = update_task task.id (claimed_task (task.attempts + 1) owner until now) db.tasks;
    runs = fail_expired now task db.runs ++ claimed_run run_id correlation_id task now ∷ [];
  },
)

-- A violated constraint rolls the transaction back.
unfoldable pub claim_drawn :
    Option Text → Option Text → Text → Time → Time → Task → Operation (Task × Run)
claim_drawn (some r) (some c) owner until now task db =
    if violates_runs r c task db.runs
    then (err constraint_violated, db)
    else commit_claim r c owner until now task db
claim_drawn _ _ owner until now task db = (err random_failed, db)

unfoldable pub claim_picked : Option Task → Draw → Draw → Time → Text → ℤ → Operation (Task × Run)
unfolding claim_drawn
claim_picked none run_draw correlation_draw now owner lease db = (err task_not_found, db)
claim_picked (some task) run_draw correlation_draw now owner lease db =
    claim_drawn (new_id run_draw) (new_id correlation_draw) owner (now + pos_part lease) now task db

-- `db_now` is what PostgreSQL sees, `now` the worker's clock.
unfoldable pub claim_task : Draw → Draw → Snapshot → Time → Text → ℤ → Operation (Task × Run)
unfolding claim_picked
claim_task run_draw correlation_draw db_now now owner lease db =
    if is_blank owner
    then (err owner_required, db)
    else if leb_ℤ lease (pos 0)
    then (err lease_not_positive, db)
    else claim_picked (pick db_now db.tasks) run_draw correlation_draw now owner lease db

-- The `WHERE` clause of the heartbeat.
unfoldable pub holds_lease : Text → Text → Task → Bool
holds_lease id owner t =
    text_eq t.id id && status_eq t.status running && text_eq t.lease_owner owner

unfoldable pub extended_task : Time → Task → Task
extended_task until t = record t { lease_until = some until; updated_at = until }

unfoldable pub heartbeat : Time → Text → Text → ℤ → Operation (Unit {0})
heartbeat now id owner lease db = if leb_ℤ lease (pos 0) then (err lease_not_positive, db) else (
  if count_if (holds_lease id owner) db.tasks == 1 then ok tt else err lease_lost,
  record db {
    tasks = update_where (holds_lease id owner) (extended_task (now + pos_part lease)) db.tasks;
  },
)

-- The states that a worker may report.
abbrev pub is_report : Status → Bool
is_report s = is_finished s || status_eq s awaiting_approval

abbrev or_finished : Bool → Time → Option Time → Option Time
or_finished true now old = some now
or_finished false now old = old

unfoldable pub completed_task : Status → Text → Time → Task → Task
completed_task status message now t = record t {
  status = status;
  last_error = trim_space message;
  lease_owner = [];
  lease_until = none;
  finished_at = or_finished (is_finished status) now t.finished_at;
  updated_at = now;
}

unfoldable pub completed_run : Status → Text → Text → Time → Run → Run
completed_run status code message now r = record r {
  status = status;
  error_code = trim_space code;
  error_message = trim_space message;
  finished_at = or_finished (is_finished status) now r.finished_at;
}

-- The guards on the task's own state, and the two updates.
unfoldable pub complete_checked :
    Time → Text → Text → Status → Text → Text → Status → Operation (Unit {0})
complete_checked now task_id run_id status code message current db =
    if status_eq current status && is_finished status
    then (ok tt, db)
    else if can_transition current status
    then (
      ok tt,
      record db {
        tasks = update_task task_id (completed_task status message now) db.tasks;
        runs =
            if is_empty run_id
            then db.runs
            else update_where (λ r. text_eq r.id run_id && text_eq r.task_id task_id)
                (completed_run status code message now) db.runs;
      },
    )
    else (err invalid_transition, db)

-- The guards on the run: only a running run may report, or repeat what it has reported.
unfoldable pub complete_run :
    Time → Text → Text → Status → Text → Text → Status → Option Run → Operation (Unit {0})
complete_run now task_id run_id status code message current none db = (err run_not_found, db)
complete_run now task_id run_id status code message current (some run) db =
    if status_eq run.status running
    then complete_checked now task_id run_id status code message current db
    else if status_eq current status && status_eq run.status status
    then (ok tt, db)
    else (err lease_lost, db)

unfoldable pub complete_task : Time → Text → Text → Status → Text → Text → Operation (Unit {0})
complete_task now task_id run_id status code message db =
    if not (is_report status) then (err invalid_status, db) else elim (find_task task_id db.tasks) [
      | none ↦ (err task_not_found, db)
      | some task ↦
          if is_empty run_id
          then complete_checked now task_id run_id status code message task.status db
          else complete_run now task_id run_id status code message task.status
              (find_task_run run_id task_id db.runs) db
    ]
