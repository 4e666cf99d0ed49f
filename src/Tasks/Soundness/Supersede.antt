-- ===== src/Tasks/Soundness/Supersede.antt =====
-- `SupersedeCodeReviews` of server/internal/tasks/store.go, and the invariant of the rows.
use repo_mender.Prelude.{
  ◌≡◌, refl, Bool, true, false, ◌&&◌, inl, inr, List, [], ◌∷◌, Text, text_eq, text_eq_iff,
  text_eq_refl, is_empty, count_if, count_if-update_same, All, In, count_if-update_off,
  count_if-implied, update_where, if◌then◌else◌, arith, ℤ,
}
use repo_mender.Tasks.Status.{code_review, kind_eq}
use repo_mender.Tasks.Types.{Time, Task, Run}
use repo_mender.Tasks.Tables.{is_open}
use repo_mender.Tasks.Supersede.{
  PayloadReader, is_outdated, superseded_task, superseded_run, of_superseded,
}
use repo_mender.Tasks.Unique.{absent}
use repo_mender.Tasks.Invariant.{is_run_of, is_running_run_of, IsSound, HasDistinctIds}

-- Is this the row of a review that the new task superseded?
abbrev names : Text → Task → Bool
names new_id t = kind_eq t.kind code_review && text_eq t.superseded_by new_id

-- The subselect asks only the one row with the run's task identifier.
of_superseded_absent :
    (new_id : Text) (ts : List Task) (x : Task) (r : Run)
    → All (λ u. text_eq u.id x.id ≡ false) ts
    → text_eq r.task_id x.id ≡ true
    → of_superseded new_id ts r ≡ false
unfolding of_superseded
of_superseded_absent new_id [] x r h e = refl
of_superseded_absent new_id (t ∷ ts) x r h e = ground (
  arith,
  text_eq_iff r.task_id x.id,
  text_eq_iff t.id r.task_id,
  text_eq_iff t.id x.id,
  of_superseded_absent new_id ts x r h.1 e,
)

of_superseded_row :
    (new_id : Text) (ts : List Task) (x : Task) (r : Run)
    → HasDistinctIds ts
    → In x ts
    → text_eq r.task_id x.id ≡ true
    → of_superseded new_id ts r ≡ names new_id x
unfolding of_superseded
of_superseded_row new_id [] x r d m e = absurd m
of_superseded_row new_id (t ∷ ts) x r d (inl same) e = ground (
  arith,
  text_eq_iff t.id r.task_id,
  text_eq_iff r.task_id t.id,
  text_eq_iff r.task_id x.id,
  of_superseded_absent new_id ts t r d.0,
)
of_superseded_row new_id (t ∷ ts) x r d (inr m) e = ground (
  arith,
  text_eq_iff t.id r.task_id,
  text_eq_iff r.task_id x.id,
  text_eq_iff t.id x.id,
  absent t x ts d.0 m,
  of_superseded_row new_id ts x r d.1 m e,
)

module _ (new_id : Text) (db_now : Time) (runs : List Run) (ts : List Task) where
  abbrev outdated_run : Run → Bool
  outdated_run r = of_superseded new_id ts r && is_open r.status

  abbrev pub superseded_runs : List Run
  superseded_runs = update_where outdated_run (superseded_run db_now) runs

  runs_of-supersede :
      (x : Text) → count_if (is_run_of x) superseded_runs ≡ count_if (is_run_of x) runs
  unfolding superseded_run
  runs_of-supersede x =
      count_if-update_same (is_run_of x) outdated_run (superseded_run db_now) runs (λ r h. refl)

  module _ (v : Task) (d : HasDistinctIds ts) (m : In v ts) where
    running_runs-named :
        names new_id v ≡ true → count_if (is_running_run_of v.id) superseded_runs ≡ 0
    unfolding superseded_run
    running_runs-named n = omega (
      arith,
      count_if-update_off (is_running_run_of v.id) outdated_run (superseded_run db_now) runs
          (λ r h. ground arith),
      count_if-implied (is_running_run_of v.id) outdated_run runs
          (λ r h. ground (arith, of_superseded_row new_id ts v r d m)),
    )

    running_runs-unnamed :
        names new_id v ≡ false
        → count_if (is_running_run_of v.id) superseded_runs ≡ count_if (is_running_run_of v.id) runs
    unfolding superseded_run
    running_runs-unnamed n =
        count_if-update_same (is_running_run_of v.id) outdated_run (superseded_run db_now) runs
          (λ r h. ground (arith, of_superseded_row new_id ts v r d m))

-- The row of `u` after the update.
abbrev pub after_supersede : PayloadReader → Time → Text → Text → ℤ → Text → Task → Task
after_supersede json db_now repository_id provider_id pull_request new_id u =
    if is_outdated json repository_id provider_id pull_request new_id u
    then superseded_task new_id db_now u
    else u

module _ (json : PayloadReader) (db_now : Time) (repository_id provider_id : Text)
    (pull_request : ℤ) (new_id : Text) (runs : List Run) (ts : List Task) where
  abbrev row_after : Task → Task
  row_after = after_supersede json db_now repository_id provider_id pull_request new_id

  pub supersede-IsSound :
      is_empty new_id ≡ false
      → (u : Task) → IsSound runs u
      → HasDistinctIds ts
      → In (row_after u) ts
      → IsSound (superseded_runs new_id db_now runs ts) (row_after u)
  unfolding superseded_task is_outdated
  supersede-IsSound named u s d m = ground (
    arith,
    text_eq_refl new_id,
    text_eq_iff u.superseded_by new_id,
    runs_of-supersede new_id db_now runs ts u.id,
    running_runs-named new_id db_now runs ts (row_after u) d m,
    running_runs-unnamed new_id db_now runs ts (row_after u) d m,
  )
