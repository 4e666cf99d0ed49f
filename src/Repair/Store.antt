-- ===== src/Repair/Store.antt =====
-- The repair table: server/internal/repair/store.go.
use repo_mender.Prelude.{
  Bool, true, ◌||◌, not, Option, none, some, List, [], ◌∷◌, ◌++◌, Text, text, text_eq, is_empty,
  is_blank, trim_space, find, update_where, select, take, order_by, any, ℤ, Result, ok, err, ltb,
  ◌==◌, if◌then◌else◌,
}
use repo_mender.Ids.{Draw, new_id}
use repo_mender.Tasks.Tables.{clamp_limit}
use repo_mender.Repair.Types.{
  Time, State, planning, state_eq, Repair, CreateInput, Error, invalid_trigger, not_found,
  random_failed, constraint_failed,
}
use repo_mender.Repair.Validate.{validate_issue, is_sha}
use repo_mender.Repair.World.{Codec}

abbrev pub Operation : Type 0 → Type 0
Operation A = List Repair → Result Error A × List Repair

abbrev pub find_repair : Text → List Repair → Option Repair
find_repair id rows = find (λ r. text_eq r.id id) rows

unfoldable pub get_repair : Text → List Repair → Result Error Repair
get_repair id rows = elim (find_repair (trim_space id) rows) [
  | none ↦ err not_found
  | some r ↦ ok r
]

unfoldable pub get_by_task : Text → List Repair → Result Error Repair
get_by_task task_id rows = elim (find (λ r. text_eq r.task_id (trim_space task_id)) rows) [
  | none ↦ err not_found
  | some r ↦ ok r
]

abbrev pub latest_update : Repair → Repair → Bool
latest_update a b = ltb b.updated_at a.updated_at

abbrev pub in_state : Option State → Repair → Bool
in_state none r = true
in_state (some s) r = state_eq r.state s

unfoldable pub list_repairs : Option State → ℤ → List Repair → List Repair
list_repairs state limit rows =
    take (clamp_limit limit) (order_by latest_update (select (in_state state) rows))

unfoldable pub new_repair : Text → CreateInput → Time → Repair
new_repair id input created_at = record {
  id = id;
  task_id = input.task_id;
  source_key = input.source_key;
  trigger = input.trigger;
  repository_id = input.issue.repository_id;
  repository = input.issue.repository;
  clone_url = input.issue.clone_url;
  web_url = input.issue.web_url;
  installation_id = input.issue.installation_id;
  issue_number = input.issue.number;
  issue_title = input.issue.title;
  issue_body = input.issue.body;
  base_branch = input.issue.base_branch;
  base_sha = input.issue.base_sha;
  state = planning;
  plan = text "{}";
  plan_digest = [];
  plan_approval_id = [];
  patch = text "{}";
  patch_digest = [];
  patch_approval_id = [];
  branch_name = [];
  draft_pr = record { number = 0; url = [] };
  failure_code = [];
  failure_message = [];
  created_by = input.created_by;
  created_at = created_at;
  updated_at = created_at;
}

-- The table's CHECK on `base_sha`, the conflict on `source_key` that returns the row there is, and
-- the UNIQUE of the identifier and of the task.
unfoldable pub insert_repair : Repair → Operation Repair
insert_repair r rows =
    if not (is_sha r.base_sha)
    then (err constraint_failed, rows)
    else elim (find (λ v. text_eq v.source_key r.source_key) rows) [
      | some existing ↦ (ok existing, rows)
      | none ↦
          if any (λ v. text_eq v.id r.id || text_eq v.task_id r.task_id) rows
          then (err constraint_failed, rows)
          else (ok r, rows ++ r ∷ [])
    ]

unfoldable pub insert_drawn : Option Text → Time → CreateInput → Operation Repair
unfolding insert_repair
insert_drawn none now input rows = (err random_failed, rows)
insert_drawn (some id) now input rows =
    insert_repair (new_repair id input (if input.created_at == 0 then now else input.created_at))
      rows

-- `validateCreateInput`
unfoldable pub validate_create_input : CreateInput → Time → Option Error
validate_create_input input now =
    if is_blank input.source_key || is_blank input.task_id
    then some invalid_trigger
    else validate_issue input.issue now

unfoldable pub create_repair : Draw → Time → CreateInput → Operation Repair
unfolding insert_drawn
create_repair draw now input rows = elim (validate_create_input input now) [
  | some e ↦ (err e, rows)
  | none ↦ insert_drawn (new_id draw) now input rows
]

-- `normalizeJSON`, and what the column makes of it.
unfoldable pub normalize : Codec → Text → Text
normalize codec raw =
    codec.stored (if is_empty raw || not (codec.json_valid raw) then text "{}" else raw)

-- The columns that `Update` writes, into the row `v`.
unfoldable pub written : Codec → Time → Repair → Repair → Repair
written codec now r v = record v {
  state = r.state;
  plan = normalize codec r.plan;
  plan_digest = r.plan_digest;
  plan_approval_id = r.plan_approval_id;
  patch = normalize codec r.patch;
  patch_digest = r.patch_digest;
  patch_approval_id = r.patch_approval_id;
  branch_name = r.branch_name;
  draft_pr = r.draft_pr;
  failure_code = r.failure_code;
  failure_message = r.failure_message;
  updated_at = now;
}

unfoldable pub update_rows : Codec → Time → Repair → List Repair → List Repair
update_rows codec now r rows = update_where (λ v. text_eq v.id r.id) (written codec now r) rows

-- Every `State` is valid, so the check of `Update` never fails.
unfoldable pub update_repair : Codec → Time → Repair → Operation Repair
update_repair codec now r rows =
    (get_repair r.id (update_rows codec now r rows), update_rows codec now r rows)
