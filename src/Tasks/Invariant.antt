-- ===== src/Tasks/Invariant.antt =====
-- The invariant of the task tables between two calls of server/internal/tasks/store.go.
use repo_mender.Prelude.{
  ◌≤◌, ◌≡◌, Bool, true, false, ◌&&◌, none, List, [], ◌∷◌, Text, text_eq, count_if, All, is_some,
  is_empty, if◌then◌else◌,
}
use repo_mender.Tasks.Status.{running, superseded, status_eq}
use repo_mender.Tasks.Types.{Task, Run, Database}

abbrev pub is_run_of : Text → Run → Bool
is_run_of id r = text_eq r.task_id id

abbrev pub is_running_run_of : Text → Run → Bool
is_running_run_of id r = text_eq r.task_id id && status_eq r.status running

-- What ties one task to the runs table.
pub record IsSound (runs : List Run) (t : Task) : Type 0 where
  pub attempts_counted : count_if (is_run_of t.id) runs ≡ t.attempts
  pub attempts_capped : t.attempts ≤ t.max_attempts
  pub one_running :
      count_if (is_running_run_of t.id) runs ≡ (if status_eq t.status running then 1 else 0)
  pub lease_held : status_eq t.status running ≡ true → is_some t.lease_until ≡ true
  pub lease_free :
      status_eq t.status running ≡ false → (t.lease_owner ≡ []) × (t.lease_until ≡ none)
  pub superseded_named : is_empty t.superseded_by ≡ false → t.status ≡ superseded

-- No identifier is used twice.
abbrev pub HasDistinctIds : List Task → Type 0
HasDistinctIds [] = Unit
HasDistinctIds (t ∷ ts) = All (λ u. text_eq u.id t.id ≡ false) ts × HasDistinctIds ts

pub record IsConsistent (db : Database) : Type 0 where
  pub distinct : HasDistinctIds db.tasks
  pub sound : All (IsSound db.runs) db.tasks
