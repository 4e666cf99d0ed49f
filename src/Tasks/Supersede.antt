-- ===== src/Tasks/Supersede.antt =====
-- `SupersedeCodeReviews` of server/internal/tasks/store.go.
use repo_mender.Prelude.{
  update_where, Bool, false, ◌&&◌, ◌||◌, not, Option, none, some, List, Text, text, text_eq,
  is_empty, ℤ, [], leb_ℤ, any, ok,
}
use repo_mender.Tasks.Status.{code_review, superseded, status_eq, kind_eq}
use repo_mender.Tasks.Types.{Time, Task, Run, Operation}
use repo_mender.Tasks.Tables.{is_open}
use repo_mender.Tasks.Queue.{or_time}

-- PostgreSQL's `payload->>'key'`, and the same cast by `::int`; `none` is NULL.
pub record PayloadReader : Type 0 where
  pub text_field : Text → Text → Option Text
  pub int_field : Text → Text → Option ℤ

-- `=` in SQL: never true of NULL.
abbrev is_text : Option Text → Text → Bool
is_text none t = false
is_text (some s) t = text_eq s t

abbrev is_int : Option ℤ → ℤ → Bool
is_int none n = false
is_int (some m) n = leb_ℤ m n && leb_ℤ n m

-- The `WHERE` clause of the first update. An empty `repository_id` is NULL.
unfoldable pub is_outdated : PayloadReader → Text → Text → ℤ → Text → Task → Bool
is_outdated json repository_id provider_id pull_request new_task_id t =
    kind_eq t.kind code_review
    && not (text_eq t.id new_task_id)
    && ((not (is_empty repository_id) && text_eq t.repository_id repository_id)
        || (is_empty t.repository_id
            && not (is_empty provider_id)
            && is_text (json.text_field t.payload (text "repositoryId")) provider_id))
    && is_int (json.int_field t.payload (text "pullRequestNumber")) pull_request
    && not (status_eq t.status superseded)

unfoldable pub superseded_task : Text → Time → Task → Task
superseded_task new_task_id db_now t = record t {
  status = superseded;
  superseded_by = new_task_id;
  lease_owner = [];
  lease_until = none;
  finished_at = or_time t.finished_at db_now;
  updated_at = db_now;
}

unfoldable pub superseded_run : Time → Run → Run
superseded_run db_now r = record r {
  status = superseded;
  error_code = text "superseded";
  error_message = text "superseded by a newer pull request commit";
  finished_at = some db_now;
}

-- `task_id IN (SELECT id FROM tasks WHERE kind = 'code_review' AND superseded_by = $1)`
unfoldable pub of_superseded : Text → List Task → Run → Bool
of_superseded new_task_id tasks r =
    any
      (λ t.
        text_eq t.id r.task_id && kind_eq t.kind code_review && text_eq t.superseded_by new_task_id)
      tasks

unfoldable pub supersede_code_reviews :
    PayloadReader → Time → Text → Text → ℤ → Text → Operation (Unit {0})
supersede_code_reviews json db_now repository_id provider_id pull_request new_task_id db =
    let tasks =
      update_where (is_outdated json repository_id provider_id pull_request new_task_id)
        (superseded_task new_task_id db_now) db.tasks in
    (
      ok tt,
      record db {
        tasks = tasks;
        runs =
            update_where (λ r. of_superseded new_task_id tasks r && is_open r.status)
              (superseded_run db_now) db.runs;
      },
    )
