-- ===== src/Tasks/Soundness/Complete.antt =====
-- `CompleteTask` of server/internal/tasks/store.go, and the invariant of the rows.
use repo_mender.Prelude.{
  ◌<◌, ◌≡◌, refl, Bool, true, false, ◌&&◌, inl, inr, some, List, Text, text_eq, text_eq_iff,
  count_if, count_if-pos, count_if-update_same, find-pass, count_if-update_off, update_where,
  if◌then◌else◌, arith, Bool-cases,
}
use repo_mender.Tasks.Status.{Status, running, status_eq, can_transition}
use repo_mender.Tasks.Types.{Time, Task, Run}
use repo_mender.Tasks.Tables.{find_task_run}
use repo_mender.Tasks.Queue.{completed_task, completed_run, is_report}
use repo_mender.Tasks.Invariant.{is_run_of, is_running_run_of, IsSound}

module _ (task_id run_id : Text) (status : Status) (code message : Text) (now : Time)
    (runs : List Run) where
  abbrev reported : Run → Bool
  reported r = text_eq r.id run_id && text_eq r.task_id task_id

  abbrev pub completed_runs : List Run
  completed_runs = update_where reported (completed_run status code message now) runs

  runs_of_complete :
      (x : Text) → count_if (is_run_of x) completed_runs ≡ count_if (is_run_of x) runs
  unfolding completed_run
  runs_of_complete x =
      count_if-update_same (is_run_of x) reported (completed_run status code message now) runs
        (λ r h. refl)

  running_runs-complete_other :
      (x : Text)
      → text_eq x task_id ≡ false
      → count_if (is_running_run_of x) completed_runs ≡ count_if (is_running_run_of x) runs
  unfolding completed_run
  running_runs-complete_other x ne =
      count_if-update_same (is_running_run_of x) reported (completed_run status code message now)
        runs
        (λ r h.
          ground
            (arith, text_eq_iff r.task_id task_id, text_eq_iff r.task_id x, text_eq_iff x task_id))

  module _ (reports : is_report status ≡ true) {r : Run} where
    -- The run that reports leaves the count of running runs.
    running_runs-complete_self :
        find_task_run run_id task_id runs ≡ some r
        → status_eq r.status running ≡ true
        → count_if (is_running_run_of task_id) completed_runs
          < count_if (is_running_run_of task_id) runs
    unfolding completed_run
    running_runs-complete_self found busy = omega (
      arith,
      count_if-update_off (is_running_run_of task_id) reported
          (completed_run status code message now) runs (λ s h. ground arith),
      count_if-pos (is_running_run_of task_id) reported runs {x = r} found
          (ground (arith, find-pass reported runs {x = r} found)),
    )

    pub complete-IsSound :
        find_task_run run_id task_id runs ≡ some r
        → status_eq r.status running ≡ true
        → (u : Task) → IsSound runs u
        → (text_eq u.id task_id ≡ true → can_transition u.status status ≡ true)
        → IsSound completed_runs
            (if text_eq u.id task_id then completed_task status message now u else u)
    unfolding completed_task can_transition
    complete-IsSound found busy u s guard = elim (Bool-cases (text_eq u.id task_id)) [
      | inl same ↦ rw same (
          ground (
            arith,
            text_eq_iff u.id task_id,
            guard same,
            runs_of_complete u.id,
            running_runs-complete_self found busy,
          ))
      | inr other ↦
          rw other (ground (arith, runs_of_complete u.id, running_runs-complete_other u.id other))
    ]
