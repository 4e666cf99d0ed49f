-- ===== src/Tasks/Intake.antt =====
-- Creating tasks and retrying them (`CreateTask`, `GetTask`, `RetryTask` and `ClaimTask` of
-- server/internal/tasks/store.go).
use repo_mender.Prelude.{
  any, ◌+◌, ◌≡◌, ◌≢◌, sym, subst, ap, Bool, true, false, inl, inr, Option, none, some, List, [],
  ◌∷◌, ◌++◌, Text, text_eq, text_eq_iff, text_eq_refl, All, All-map, All-in, find, find-map,
  find-pass, find-In, if◌then◌else◌, arith, Bool-cases, Option-cases, ℤ, pos_part, ok,
}
use repo_mender.Ids.{Draw, new_id}
use repo_mender.Tasks.Status.{Kind, queued, running, failed, can_transition, valid_kind}
use repo_mender.Tasks.Types.{Time, Snapshot, Task, Run, CreateInput, Database}
use repo_mender.Tasks.Tables.{find_task, update_task}
use repo_mender.Tasks.Store.{
  create_task, create_kind, insert_drawn, insert_task, new_task, lacks_fields, retry_task,
  retried_task,
}
use repo_mender.Tasks.Queue.{claimable, pick, claim_task, commit_claim, claim_result, claimed_task}
use repo_mender.Tasks.Invariant.{IsConsistent}
use repo_mender.Tasks.Unique.{pick-In, IsOnly, In-IsOnly, In-find}
use repo_mender.Tasks.Claiming.{claim_task_cases}

abbrev pub by_source : Text → Task → Bool
by_source key t = text_eq t.source_key key

find-append_new :
    (p : Task → Bool) (ts : List Task) (t : Task)
    → find p ts ≡ none
    → p t ≡ true
    → find p (ts ++ t ∷ []) ≡ some t
find-append_new p [] t e h = ground arith
find-append_new p (u ∷ us) t e h = ground (arith, find-append_new p us t)

-- After an insertion its source key finds the task that was returned.
insert_task-found :
    (task t : Task) (db after : Database)
    → insert_task task db ≡ (ok t, after)
    → find (by_source task.source_key) after.tasks ≡ some t
unfolding insert_task
insert_task-found task t db after e =
    elim (Option-cases (find (by_source task.source_key) db.tasks)) [
      | inl new ↦ elim (Bool-cases (any (λ t. text_eq t.id task.id) db.tasks)) [
        | inl bad ↦ cc (ap (λ x. x.0) (rw (new, bad, insert_task) at e))
        | inr fine ↦
            let q = rw (new, fine, insert_task) at e in
            let same : task ≡ t = ground arith in
            subst (λ (d : Database). find (by_source task.source_key) d.tasks ≡ some t)
              (ap (λ x. x.1) q)
              (rw (← same) (
                find-append_new (by_source task.source_key) db.tasks task new
                  (text_eq_refl task.source_key)))
      ]
      | inr (u, old) ↦
          let q = rw (old, insert_task) at e in
          let same : u ≡ t = ground arith in
          subst (λ (d : Database). find (by_source task.source_key) d.tasks ≡ some t)
            (ap (λ x. x.1) q) (rw (← same) old)
    ]

insert_drawn-found :
    (o : Option Text) (kind : Kind) (now db_now : Time) (input : CreateInput) (t : Task)
    (db after : Database)
    → insert_drawn o kind now db_now input db ≡ (ok t, after)
    → find (by_source input.source_key) after.tasks ≡ some t
unfolding insert_drawn new_task
insert_drawn-found none kind now db_now input t db after e = cc (ap (λ x. x.0) e)
insert_drawn-found (some id) kind now db_now input t db after e =
    insert_task-found (new_task id kind now db_now input) t db after e

create_kind-found :
    (k : Option Kind) (draw : Draw) (now db_now : Time) (input : CreateInput) (t : Task)
    (db after : Database)
    → create_kind k draw now db_now input db ≡ (ok t, after)
    → find (by_source input.source_key) after.tasks ≡ some t
unfolding create_kind
create_kind-found none draw now db_now input t db after e = cc (ap (λ x. x.0) e)
create_kind-found (some kind) draw now db_now input t db after e =
    elim (Bool-cases (lacks_fields input)) [
      | inl bad ↦ cc (ap (λ x. x.0) (rw (bad, create_kind) at e))
      | inr fine ↦
          insert_drawn-found (new_id draw) kind now db_now input t db after
            (rw (fine, create_kind) at e)
    ]

pub create_task-found :
    (draw : Draw) (now db_now : Time) (input : CreateInput) (t : Task) (db after : Database)
    → create_task draw now db_now input db ≡ (ok t, after)
    → find (by_source input.source_key) after.tasks ≡ some t
unfolding create_task
create_task-found draw now db_now input t db after e =
    create_kind-found (valid_kind input.kind) draw now db_now input t db after e

-- Once a task is created, a further valid request with its source key returns that task and
-- changes nothing, whatever else the request holds.
pub create_task-idempotent :
    (draw draw2 : Draw) (now db_now now2 db_now2 : Time) (input input2 : CreateInput) (t : Task)
    (db after : Database) {kind : Kind} {id : Text}
    → create_task draw now db_now input db ≡ (ok t, after)
    → input2.source_key ≡ input.source_key
    → valid_kind input2.kind ≡ some kind
    → lacks_fields input2 ≡ false
    → new_id draw2 ≡ some id
    → create_task draw2 now2 db_now2 input2 after ≡ (ok t, after)
unfolding create_task create_kind insert_drawn insert_task new_task
create_task-idempotent draw draw2 now db_now now2 db_now2 input input2 t db after e key k fine
      drawn =
    let found : find (by_source input2.source_key) after.tasks ≡ some t =
      rw key (create_task-found draw now db_now input t db after e) in
    rw (k, fine, drawn, found, create_task, create_kind, insert_drawn, insert_task)

abbrev IsExhausted : Text → Task → Type 0
IsExhausted id u = text_eq u.id id ≡ true → u.attempts ≡ u.max_attempts

exhausted_unclaimable :
    (id : Text) (now : Time) (u : Task)
    → IsExhausted id u
    → claimable now u ≡ true
    → text_eq u.id id ≢ true
unfolding claimable
exhausted_unclaimable id now u x c same = ground (arith, x same)

retried_rows :
    (id reason : Text) (now : Time) (t : Task) (ts : List Task)
    → t.attempts ≡ t.max_attempts
    → t.id ≡ id
    → All (IsOnly t) ts
    → All (IsExhausted id) (update_task id (retried_task reason now) ts)
unfolding retried_task
retried_rows id reason now t ts used same only =
    All-map (IsOnly t) (IsExhausted id)
      (λ u. if text_eq u.id id then retried_task reason now u else u) ts
      (λ u o k. elim (Bool-cases (text_eq u.id id)) [
        | inl mine ↦ ground (arith, text_eq_iff u.id id, text_eq_iff u.id t.id)
        | inr other ↦ ground arith
      ])
      only

retry_task-rows :
    (now : Time) (id reason : Text) (t' : Task) (db after : Database)
    → retry_task now id reason db ≡ (ok t', after)
    → after.tasks ≡ update_task id (retried_task reason now) db.tasks
unfolding retry_task
retry_task-rows now id reason t' db after e = elim (Option-cases (find_task id db.tasks)) [
  | inl missing ↦ cc (ap (λ x. x.0) (rw (missing, retry_task) at e))
  | inr (t, found) ↦ elim (Bool-cases (can_transition t.status queued)) [
    | inl can ↦ sym (ap (λ x. x.1.tasks) (rw (found, can, retry_task) at e))
    | inr refused ↦ cc (ap (λ x. x.0) (rw (found, refused, retry_task) at e))
  ]
]

-- In a consistent database a retry does not give attempts back: a task that has used up its
-- attempts is queued again, but no later claim on that database takes it, at any time.
pub retry_task-exhausted :
    (now now2 : Time) (db_now : Snapshot) (id reason owner : Text) (r c : Draw) (lease : ℤ)
    (t t' t2 : Task) (run : Run) (db after after2 : Database)
    → IsConsistent db
    → find_task id db.tasks ≡ some t
    → t.attempts ≡ t.max_attempts
    → retry_task now id reason db ≡ (ok t', after)
    → claim_task r c db_now now2 owner lease after ≡ (ok (t2, run), after2)
    → t2.id ≢ id
unfolding commit_claim claim_result
retry_task-exhausted now now2 db_now id reason owner r c lease t t' t2 run db after after2 h found
      used e e2 same =
    let (v, a, b, _, k, q) = claim_task_cases r c db_now now2 owner lease after t2 run after2 e2 in
    let (m, d) = pick-In db_now after.tasks {t = v} k in
    let rows : All (IsExhausted id) after.tasks = rw (retry_task-rows now id reason t' db after e) (
      retried_rows id reason now t db.tasks used
        (ground
          (arith, text_eq_iff t.id id, find-pass (λ u. text_eq u.id id) db.tasks {x = t} found))
        (In-IsOnly t db.tasks h.distinct
          (find-In (λ u. text_eq u.id id) db.tasks {x = t} found))) in
    exhausted_unclaimable id db_now.time v (All-in (IsExhausted id) after.tasks rows m) d
      (ground (arith, text_eq_iff v.id id))

-- A claim that picks a failed row makes it running and leaves a running row in the table, although
-- `can_transition` refuses the step from failed to running.
pub claim_task-failed :
    (r c : Draw) (db_now : Snapshot) (now : Time) (owner : Text) (lease : ℤ) (t t' : Task)
    (run : Run) (db after : Database)
    → IsConsistent db
    → pick db_now db.tasks ≡ some t
    → t.status ≡ failed
    → claim_task r c db_now now owner lease db ≡ (ok (t', run), after)
    → (u : Task) × (find_task t.id after.tasks ≡ some u)
      × (u.status ≡ running)
      × (can_transition t.status u.status ≡ false)
unfolding commit_claim claimed_task can_transition
claim_task-failed r c db_now now owner lease t t' run db after h k broken e =
    let (v, a, b, _, kv, q) = claim_task_cases r c db_now now owner lease db t' run after e in
    let same : v ≡ t = cc in
    let (m, d) = pick-In db_now db.tasks {t = t} k in
    let f = λ (u : Task).
      if text_eq u.id t.id
      then claimed_task (t.attempts + 1) owner (now + pos_part lease) now u
      else u in
    (
      f t,
      subst (λ (x : Database). find_task t.id x.tasks ≡ some (f t)) (ap (λ x. x.1) (rw same at q))
          (find-map (λ u. text_eq u.id t.id) f db.tasks {x = t} (λ u. ground arith)
            (In-find t db.tasks h.distinct m)),
      ground (arith, text_eq_refl t.id),
      ground (arith, text_eq_refl t.id),
    )
