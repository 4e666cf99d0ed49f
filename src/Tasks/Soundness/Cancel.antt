-- ===== src/Tasks/Soundness/Cancel.antt =====
-- `CancelTask` and `RetryTask` of server/internal/tasks/store.go, and the invariant of the rows.
use repo_mender.Prelude.{
  ◌≡◌, refl, true, false, ◌&&◌, inl, inr, List, Text, text_eq, text_eq_iff, count_if,
  count_if-update_same, count_if-update_off, count_if-implied, update_where, if◌then◌else◌, arith,
  Bool-cases,
}
use repo_mender.Tasks.Status.{queued, cancelled, can_transition}
use repo_mender.Tasks.Types.{Time, Task, Run}
use repo_mender.Tasks.Tables.{is_open}
use repo_mender.Tasks.Store.{cancelled_task, cancelled_run, retried_task}
use repo_mender.Tasks.Invariant.{is_run_of, is_running_run_of, IsSound}

module _ (id reason : Text) (now : Time) (runs : List Run) where
  abbrev pub cancelled_runs : List Run
  cancelled_runs =
      update_where (λ r. text_eq r.task_id id && is_open r.status) (cancelled_run reason now) runs

  runs_of-cancel : (x : Text) → count_if (is_run_of x) cancelled_runs ≡ count_if (is_run_of x) runs
  unfolding cancelled_run
  runs_of-cancel x =
      count_if-update_same (is_run_of x) (λ r. text_eq r.task_id id && is_open r.status)
        (cancelled_run reason now) runs (λ r h. refl)

  running_runs-cancel_self : count_if (is_running_run_of id) cancelled_runs ≡ 0
  unfolding cancelled_run
  running_runs-cancel_self = omega (
    arith,
    count_if-update_off (is_running_run_of id) (λ r. text_eq r.task_id id && is_open r.status)
        (cancelled_run reason now) runs (λ r h. ground arith),
    count_if-implied (is_running_run_of id) (λ r. text_eq r.task_id id && is_open r.status) runs
        (λ r h. ground arith),
  )

  running_runs-cancel_other :
      (x : Text)
      → text_eq x id ≡ false
      → count_if (is_running_run_of x) cancelled_runs ≡ count_if (is_running_run_of x) runs
  unfolding cancelled_run
  running_runs-cancel_other x ne =
      count_if-update_same (is_running_run_of x) (λ r. text_eq r.task_id id && is_open r.status)
        (cancelled_run reason now) runs
        (λ r h. ground (arith, text_eq_iff r.task_id id, text_eq_iff r.task_id x, text_eq_iff x id))

  pub cancel-IsSound :
      (u : Task)
      → IsSound runs u
      → (text_eq u.id id ≡ true → can_transition u.status cancelled ≡ true)
      → IsSound cancelled_runs (if text_eq u.id id then cancelled_task reason now u else u)
  unfolding cancelled_task can_transition
  cancel-IsSound u s guard = elim (Bool-cases (text_eq u.id id)) [
    | inl same ↦ rw same (
        ground (
          arith,
          text_eq_iff u.id id,
          s,
          guard same,
          runs_of-cancel u.id,
          running_runs-cancel_self,
        ))
    | inr other ↦ rw other (ground (arith, runs_of-cancel u.id, running_runs-cancel_other u.id))
  ]

-- A retry leaves the runs alone.
pub retry-IsSound :
    (id reason : Text) (now : Time) (runs : List Run) (u : Task)
    → IsSound runs u
    → (text_eq u.id id ≡ true → can_transition u.status queued ≡ true)
    → IsSound runs (if text_eq u.id id then retried_task reason now u else u)
unfolding retried_task can_transition
retry-IsSound id reason now runs u s guard = elim (Bool-cases (text_eq u.id id)) [
  | inl same ↦ rw same (ground (arith, guard same))
  | inr other ↦ rw other s
]
