-- ===== src/Tasks/Consistent/Create.antt =====
-- Creation, run events and the audit log (`CreateTask`, `AppendRunEvent` and `RecordAudit` of
-- server/internal/tasks/store.go) on the task tables.
use repo_mender.Prelude.{
  Bool, List, any, ◌≡◌, refl, false, inl, inr, Option, none, some, [], ◌∷◌, Text, text_eq, count_if,
  count_if-and-le, All, All-append, find, arith, Bool-cases, Option-cases,
}
use repo_mender.Ids.{Draw, new_id}
use repo_mender.Tasks.Status.{Kind, running, status_eq, valid_kind}
use repo_mender.Tasks.Types.{Time, Run, CreateInput, RunEventInput, AuditInput, Database}
use repo_mender.Tasks.Store.{
  create_task, create_kind, insert_drawn, insert_task, new_task, lacks_fields,
}
use repo_mender.Tasks.Events.{append_run_event, record_audit}
use repo_mender.Tasks.Invariant.{is_run_of, IsSound, IsConsistent}
use repo_mender.Tasks.Unique.{append-HasDistinctIds}

any-none : {A : Type 0} (p : A → Bool) (xs : List A) → any p xs ≡ false → All (λ x. p x ≡ false) xs
any-none p [] e = tt
any-none p (x ∷ xs) e = (ground (arith, e), any-none p xs (ground (arith, e)))

-- No run names the identifier, as its foreign key has it for an identifier that no task has.
abbrev pub IsFresh : Text → Database → Type 0
IsFresh id db = count_if (is_run_of id) db.runs ≡ 0

-- The identifiers that a draw can give are fresh.
abbrev pub DrawsFresh : Draw → Database → Type 0
DrawsFresh draw db = (id : Text) → new_id draw ≡ some id → IsFresh id db

module _ (db : Database) (h : IsConsistent db) where
  new_task-IsSound :
      (id : Text) (kind : Kind) (now db_now : Time) (input : CreateInput)
      → IsFresh id db
      → IsSound db.runs (new_task id kind now db_now input)
  unfolding new_task
  new_task-IsSound id kind now db_now input fresh = ground (
    arith,
    fresh,
    count_if-and-le (is_run_of id) (λ (r : Run). status_eq r.status running) db.runs,
  )

  insert_task-IsConsistent :
      (id : Text) (kind : Kind) (now db_now : Time) (input : CreateInput)
      → IsFresh id db
      → IsConsistent (insert_task (new_task id kind now db_now input) db).1
  unfolding insert_task new_task
  insert_task-IsConsistent id kind now db_now input fresh =
      elim (Option-cases (find (λ t. text_eq t.source_key input.source_key) db.tasks)) [
        | inl new ↦ elim (Bool-cases (any (λ t. text_eq t.id id) db.tasks)) [
          | inl bad ↦ rw (new, bad, insert_task) h
          | inr fine ↦
              rw (new, fine, insert_task)
                (record {
                  distinct =
                      append-HasDistinctIds (new_task id kind now db_now input) db.tasks
                        (any-none (λ t. text_eq t.id id) db.tasks fine) h.distinct;
                  sound =
                      All-append (IsSound db.runs) db.tasks (new_task id kind now db_now input ∷ [])
                        h.sound (new_task-IsSound id kind now db_now input fresh, tt);
                })
        ]
        | inr (t, e) ↦ rw (e, insert_task) h
      ]

  insert_drawn-IsConsistent :
      (o : Option Text) (kind : Kind) (now db_now : Time) (input : CreateInput)
      → ((id : Text) → o ≡ some id → IsFresh id db)
      → IsConsistent (insert_drawn o kind now db_now input db).1
  unfolding insert_drawn
  insert_drawn-IsConsistent none kind now db_now input fresh = h
  insert_drawn-IsConsistent (some id) kind now db_now input fresh =
      insert_task-IsConsistent id kind now db_now input (fresh id refl)

  create_kind-IsConsistent :
      (k : Option Kind) (draw : Draw) (now db_now : Time) (input : CreateInput)
      → DrawsFresh draw db
      → IsConsistent (create_kind k draw now db_now input db).1
  unfolding create_kind
  create_kind-IsConsistent none draw now db_now input fresh = h
  create_kind-IsConsistent (some kind) draw now db_now input fresh =
      elim (Bool-cases (lacks_fields input)) [
        | inl bad ↦ rw (bad, create_kind) h
        | inr fine ↦
            rw (fine, create_kind)
              (insert_drawn-IsConsistent (new_id draw) kind now db_now input fresh)
      ]

  pub create_task-IsConsistent :
      (draw : Draw) (now db_now : Time) (input : CreateInput)
      → DrawsFresh draw db
      → IsConsistent (create_task draw now db_now input db).1
  unfolding create_task
  create_task-IsConsistent draw now db_now input fresh =
      create_kind-IsConsistent (valid_kind input.kind) draw now db_now input fresh

-- Events and audit records leave the task tables alone.
pub append_run_event-tables :
    (now : Time) (run_id : Text) (input : RunEventInput) (db : Database)
    → let after = (append_run_event now run_id input db).1 in
      (after.tasks ≡ db.tasks) × (after.runs ≡ db.runs)
unfolding append_run_event
append_run_event-tables now run_id input db = ground arith

pub record_audit-tables :
    (draw : Draw) (now : Time) (input : AuditInput) (db : Database)
    → let after = (record_audit draw now input db).1 in
      (after.tasks ≡ db.tasks) × (after.runs ≡ db.runs)
unfolding record_audit
record_audit-tables draw now input db = ground arith
