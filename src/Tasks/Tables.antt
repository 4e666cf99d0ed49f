-- ===== src/Tasks/Tables.antt =====
-- The statements that server/internal/tasks/store.go makes on its tables: a row by its key, an update
-- of some rows.
use repo_mender.Prelude.{
  ℕ, Bool, ◌&&◌, ◌||◌, Option, List, map, Text, text_eq, ℤ, pos, pos_part, leb_ℤ, ltb_ℤ, find,
  if◌then◌else◌,
}
use repo_mender.Tasks.Status.{
  Status, queued, running, awaiting_approval, succeeded, failed, cancelled, status_eq,
}
use repo_mender.Tasks.Types.{Task, Run}

-- `WHERE id = $1`
abbrev pub find_task : Text → List Task → Option Task
find_task id tasks = find (λ t. text_eq t.id id) tasks

abbrev pub find_run : Text → List Run → Option Run
find_run id runs = find (λ r. text_eq r.id id) runs

-- `WHERE id = $1 AND task_id = $2`
abbrev pub find_task_run : Text → Text → List Run → Option Run
find_task_run id task_id runs = find (λ r. text_eq r.id id && text_eq r.task_id task_id) runs

-- `UPDATE tasks SET … WHERE id = $1`
abbrev pub update_task : Text → (Task → Task) → List Task → List Task
update_task id f tasks = map (λ t. if text_eq t.id id then f t else t) tasks

-- `status IN ('queued', 'running', 'awaiting_approval')`
abbrev pub is_open : Status → Bool
is_open s = status_eq s queued || status_eq s running || status_eq s awaiting_approval

-- The states in which `CompleteTask` stamps `finished_at`.
abbrev pub is_finished : Status → Bool
is_finished s = status_eq s succeeded || status_eq s failed || status_eq s cancelled

-- `if limit <= 0 || limit > 200 { limit = 100 }`
unfoldable pub clamp_limit : ℤ → ℕ
clamp_limit limit = if leb_ℤ limit (pos 0) || ltb_ℤ (pos 200) limit then 100 else pos_part limit
