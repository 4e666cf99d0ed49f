-- ===== src/Tasks/Soundness/Claim.antt =====
-- `ClaimTask` and `Heartbeat` of server/internal/tasks/store.go, and the invariant of the rows.
use repo_mender.Prelude.{
  ◌+◌, ◌≡◌, refl, Bool, true, false, ◌&&◌, inl, inr, List, [], ◌∷◌, ◌++◌, Text, text_eq,
  text_eq_iff, text_eq_refl, count_if, count_if-append, count_if-update_same, count_if-update_off,
  count_if-implied, if◌then◌else◌, arith, Bool-cases,
}
use repo_mender.Tasks.Status.{running, status_eq}
use repo_mender.Tasks.Types.{Time, Task, Run}
use repo_mender.Tasks.Queue.{
  claimable, lease_expired_run, fail_expired, claimed_task, claimed_run, holds_lease, extended_task,
}
use repo_mender.Tasks.Invariant.{is_run_of, is_running_run_of, IsSound}
use repo_mender.Tasks.Unique.{IsOnly}

module _ (now : Time) (t : Task) (runs : List Run) where
  abbrev held : Run → Bool
  held r = text_eq r.task_id t.id && status_eq r.status running

  runs_of-fail :
      (x : Text) → count_if (is_run_of x) (fail_expired now t runs) ≡ count_if (is_run_of x) runs
  unfolding fail_expired lease_expired_run
  runs_of-fail x =
      ground
        (arith, count_if-update_same (is_run_of x) held (lease_expired_run now) runs (λ r h. refl))

  -- Whatever the task's state, no run of it is running after the expired ones are failed.
  running_runs-fail_self :
      IsSound runs t → count_if (is_running_run_of t.id) (fail_expired now t runs) ≡ 0
  unfolding fail_expired lease_expired_run
  running_runs-fail_self s = ground (
    arith,
    count_if-update_off (is_running_run_of t.id) held (lease_expired_run now) runs
        (λ r h. ground arith),
    count_if-implied (is_running_run_of t.id) held runs (λ r h. h),
  )

  running_runs-fail_other :
      (x : Text)
      → text_eq x t.id ≡ false
      → count_if (is_running_run_of x) (fail_expired now t runs)
        ≡ count_if (is_running_run_of x) runs
  unfolding fail_expired lease_expired_run
  running_runs-fail_other x ne = ground (
    arith,
    count_if-update_same (is_running_run_of x) held (lease_expired_run now) runs (λ r h.
        ground (arith, text_eq_iff r.task_id t.id, text_eq_iff r.task_id x, text_eq_iff x t.id)),
  )

  module _ (run_id correlation_id : Text) where
    abbrev pub runs_after : List Run
    runs_after = fail_expired now t runs ++ claimed_run run_id correlation_id t now ∷ []

    runs_of-claim :
        (x : Text)
        → count_if (is_run_of x) runs_after
          ≡ count_if (is_run_of x) runs + (if text_eq t.id x then 1 else 0)
    unfolding claimed_run
    runs_of-claim x = omega (
      arith,
      runs_of-fail x,
      count_if-append (is_run_of x) (fail_expired now t runs)
          (claimed_run run_id correlation_id t now ∷ []),
    )

    running_runs-claim :
        (x : Text)
        → count_if (is_running_run_of x) runs_after
          ≡ count_if (is_running_run_of x) (fail_expired now t runs)
            + (if text_eq t.id x then 1 else 0)
    unfolding claimed_run
    running_runs-claim x = ground (
      arith,
      count_if-append (is_running_run_of x) (fail_expired now t runs)
          (claimed_run run_id correlation_id t now ∷ []),
    )

    pub claim-IsSound :
        (owner : Text) (db_now until : Time) (u : Task)
        → IsSound runs t
        → claimable db_now t ≡ true
        → IsSound runs u
        → IsOnly t u
        → IsSound runs_after
            (if text_eq u.id t.id then claimed_task (t.attempts + 1) owner until now u else u)
    unfolding claimed_task claimable
    claim-IsSound owner db_now until u st c su only = elim (Bool-cases (text_eq u.id t.id)) [
      | inl same ↦ rw same (
          ground (
            arith,
            only same,
            text_eq_refl t.id,
            runs_of-claim t.id,
            running_runs-claim t.id,
            running_runs-fail_self st,
          ))
      | inr other ↦ rw other (
          ground (
            arith,
            su,
            text_eq_iff t.id u.id,
            text_eq_iff u.id t.id,
            runs_of-claim u.id,
            running_runs-claim u.id,
            running_runs-fail_other u.id other,
          ))
    ]

pub heartbeat-IsSound :
    (id owner : Text) (until : Time) (runs : List Run) (u : Task)
    → IsSound runs u
    → IsSound runs (if holds_lease id owner u then extended_task until u else u)
unfolding holds_lease extended_task
heartbeat-IsSound id owner until runs u s = ground arith
