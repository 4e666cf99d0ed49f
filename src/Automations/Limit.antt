-- ===== src/Automations/Limit.antt =====
-- The concurrency limit of a template (`Trigger` of server/internal/automations/store.go).
use repo_mender.Prelude.{
  ℕ, ◌+◌, ◌≡◌, refl, sym, true, false, inl, inr, some, List, [], ◌∷◌, ◌++◌, Text, text_eq,
  text_eq_iff, text_eq_refl, All, is_some, find, count_if, count_if-append, ◌&&◌, ◌||◌, ℤ, pos,
  leb_ℤ, arith, Bool-cases,
}
use repo_mender.Tasks.Status.{queued}
use repo_mender.Tasks.Types.{Task}
use repo_mender.Automations.Types.{
  Template, Run, TriggerInput, TriggerResult, scheduled, duplicate, refused,
}
use repo_mender.Automations.Store.{Tables, find_template}
use repo_mender.Automations.Trigger.{
  Draws, task_open, active, keys_fail, new_run, new_task, trigger_row,
}
use repo_mender.Automations.Scheduling.{IsDue, with_run, trigger_row_cases}

-- A new task at the end opens no run of another task.
open-append :
    (id : Text) (task : Task) (ts : List Task)
    → text_eq task.id id ≡ false
    → task_open (ts ++ task ∷ []) id ≡ task_open ts id
open-append id task [] o = rw (o, task_open)
open-append id task (t ∷ ts) o = elim (Bool-cases (text_eq t.id id)) [
  | inl hit ↦ rw (hit, task_open)
  | inr miss ↦ rw (miss, task_open) (open-append id task ts o)
]

count-same :
    (id : Text) (task : Task) (ts : List Task) (rs : List Run)
    → All (λ r. text_eq task.id r.task_id ≡ false) rs
    → count_if (λ r. text_eq r.template_id id && task_open (ts ++ task ∷ []) r.task_id) rs
      ≡ count_if (λ r. text_eq r.template_id id && task_open ts r.task_id) rs
count-same id task ts [] h = refl
count-same id task ts (r ∷ rs) h =
    rw (open-append r.task_id task ts h.0, count-same id task ts rs h.1)

-- The keys that did not clash.
other_tasks :
    (task : Task) (r : Run) (rs : List Run)
    → r.task_id ≡ task.id
    → is_some (
        find
          (λ (s : Run).
            text_eq s.id r.id
            || text_eq s.task_id r.task_id
            || (text_eq s.template_id r.template_id && text_eq s.trigger_key r.trigger_key))
          rs)
      ≡ false
    → All (λ s. text_eq task.id s.task_id ≡ false) rs
other_tasks task r [] e h = tt
other_tasks task r (s ∷ rs) e h =
    let clash =
      text_eq s.id r.id
      || text_eq s.task_id r.task_id
      || (text_eq s.template_id r.template_id && text_eq s.trigger_key r.trigger_key) in
    elim (Bool-cases clash) [
      | inl hit ↦ cc (rw hit at h)
      | inr miss ↦ (
        ground (arith, miss, text_eq_iff s.task_id r.task_id, text_eq_iff task.id s.task_id),
        other_tasks task r rs e (rw miss at h),
      )
    ]

-- A queued task at the end is found and open, where no other has its identifier or its key.
new-open :
    (task : Task) (ts : List Task)
    → task.status ≡ queued
    → is_some (find (λ t. text_eq t.id task.id || text_eq t.source_key task.source_key) ts) ≡ false
    → task_open (ts ++ task ∷ []) task.id ≡ true
new-open task [] q h = rw (text_eq_refl task.id, task_open, q)
new-open task (t ∷ ts) q h =
    elim (Bool-cases (text_eq t.id task.id || text_eq t.source_key task.source_key)) [
      | inl hit ↦ cc (rw hit at h)
      | inr miss ↦
          let other : text_eq t.id task.id ≡ false = ground (arith, miss) in
          rw (other, task_open) (new-open task ts q (rw miss at h))
    ]

-- A run that is due adds one to the active runs of its template.
due-active :
    (t : Template) (input : TriggerInput) (task : Task) (r : Run) (db : Tables)
    → r.template_id ≡ input.template_id
    → r.task_id ≡ task.id
    → task.status ≡ queued
    → IsDue t input task r db
    → active input.template_id (with_run r task db) ≡ active input.template_id db + 1
unfolding keys_fail
due-active t input task r db e f q due =
    let others = other_tasks task r db.runs f (ground (arith, due.unique)) in
    let open_ = new-open task db.tasks.tasks q (ground (arith, due.unique)) in
    let p = λ (s : Run).
      text_eq s.template_id input.template_id
      && task_open (db.tasks.tasks ++ task ∷ []) s.task_id in
    let one : count_if p (r ∷ []) ≡ 1 = rw (e, f, text_eq_refl input.template_id, open_) refl in
    omega (
      arith,
      count_if-append p db.runs (r ∷ []),
      one,
      count-same input.template_id task db.tasks.tasks db.runs others,
    )

-- A scheduled run is one more active run of its template, which the limit allows; otherwise the
-- tables are as they were.
abbrev pub IsAccounted : TriggerInput → Tables → TriggerResult × Tables → Type 0
IsAccounted input db (scheduled r task, after) =
    (t : Template) × (find_template input.template_id db.templates ≡ some t)
    × (active input.template_id after ≡ active input.template_id db + 1)
    × (leb_ℤ (pos (active input.template_id after)) t.input.concurrency_limit ≡ true)
IsAccounted input db (duplicate r task status, after) = after ≡ db
IsAccounted input db (refused e, after) = after ≡ db

room-one :
    (n m : ℕ) (limit : ℤ) → leb_ℤ limit (pos n) ≡ false → m ≡ n + 1 → leb_ℤ (pos m) limit ≡ true
room-one n m limit h e = ground arith

-- A trigger that schedules a run makes its template's active runs, those whose task is queued,
-- running or awaits approval, one more than they were, and no more than the template's limit; any
-- other trigger leaves the tables as they were.
pub trigger_row-IsAccounted :
    (digest : Text → Text) (draws : Draws) (input : TriggerInput) (db : Tables)
    → IsAccounted input db (trigger_row digest draws input db)
unfolding new_run new_task
trigger_row-IsAccounted digest draws input db =
    trigger_row_cases (IsAccounted input db) digest input db (λ e. refl) (λ r task e. refl)
      (λ t kind id task_id at db_now due.
        let more =
          due-active t input (new_task digest task_id kind at db_now t input)
            (new_run id task_id at t input) db (sym (due.named)) refl refl due in
        (t, rw (due.named) (due.found), more, room-one _ _ _ (due.room) more))
      draws
