-- ===== src/Tasks/Keyed.antt =====
-- Tasks found by their source key, over the calls of server/internal/tasks/store.go.
use repo_mender.Prelude.{
  false, ok, ◌+◌, ◌≡◌, refl, sym, subst, Bool, inl, inr, Option, none, some, List, [], ◌∷◌, ◌++◌,
  Text, text_eq, find, find-append, find-map, any, update_where, if◌then◌else◌, arith, Bool-cases,
  Option-cases, ℤ, pos, leb_ℤ, is_blank, pos_part, ◌&&◌, is_empty,
}
use repo_mender.Ids.{Draw, new_id}
use repo_mender.Tasks.Status.{
  Status, Kind, queued, running, cancelled, status_eq, can_transition, valid_kind,
}
use repo_mender.Tasks.Types.{Time, Snapshot, Task, Run, CreateInput, Database}
use repo_mender.Tasks.Tables.{find_task, find_task_run, is_finished}
use repo_mender.Tasks.Store.{
  create_task, new_task, create_kind, insert_drawn, insert_task, lacks_fields, cancel_task,
  cancelled_task, retry_task, retried_task,
}
use repo_mender.Tasks.Queue.{
  violates_runs, pick, claim_task, claim_picked, claim_drawn, commit_claim, claimed_task, heartbeat,
  holds_lease, extended_task, complete_task, complete_run, complete_checked, completed_task,
  is_report,
}
use repo_mender.Tasks.Supersede.{supersede_code_reviews, superseded_task, is_outdated}
use repo_mender.Tasks.Trace.{
  Call, create, cancel, retry, claim, beat, complete, supersede, append_event, audit, perform,
  perform_all,
}
use repo_mender.Tasks.Intake.{by_source, create_task-found}
use repo_mender.Tasks.Consistent.Create.{append_run_event-tables, record_audit-tables}

-- The key still finds the task, whatever became of it.
abbrev IsKeyed : Text → Task → List Task → Type 0
IsKeyed key t ts = (t' : Task) × (find (by_source key) ts ≡ some t') × (t'.id ≡ t.id)

module _ (key : Text) (t : Task) (db : Database) (e : find (by_source key) db.tasks ≡ some t) where
  same-IsKeyed : IsKeyed key t db.tasks
  same-IsKeyed = (t, e, refl)

  append-IsKeyed : (more : List Task) → IsKeyed key t (db.tasks ++ more)
  append-IsKeyed more = (t, find-append (by_source key) db.tasks more {x = t} e, refl)

  update-IsKeyed :
      (p : Task → Bool) (f : Task → Task)
      → ((u : Task) → ((f u).id ≡ u.id) × ((f u).source_key ≡ u.source_key))
      → IsKeyed key t (update_where p f db.tasks)
  update-IsKeyed p f keep =
      let g = λ (u : Task). if p u then f u else u in
      (
        g t,
        find-map (by_source key) g db.tasks {x = t} (λ u. ground (arith, keep u)) e,
        ground (arith, keep t),
      )

  insert-IsKeyed : (task : Task) → IsKeyed key t (insert_task task db).1.tasks
  unfolding insert_task
  insert-IsKeyed task = elim (Option-cases (find (by_source task.source_key) db.tasks)) [
    | inl new ↦ elim (Bool-cases (any (λ u. text_eq u.id task.id) db.tasks)) [
      | inl bad ↦ rw (new, bad, insert_task) same-IsKeyed
      | inr fine ↦ rw (new, fine, insert_task) (append-IsKeyed (task ∷ []))
    ]
    | inr (u, k) ↦ rw (k, insert_task) same-IsKeyed
  ]

  insert_drawn-IsKeyed :
      (o : Option Text) (kind : Kind) (now db_now : Time) (input : CreateInput)
      → IsKeyed key t (insert_drawn o kind now db_now input db).1.tasks
  unfolding insert_drawn
  insert_drawn-IsKeyed none kind now db_now input = same-IsKeyed
  insert_drawn-IsKeyed (some a) kind now db_now input = insert-IsKeyed _

  create_kind-IsKeyed :
      (k : Option Kind) (draw : Draw) (now db_now : Time) (input : CreateInput)
      → IsKeyed key t (create_kind k draw now db_now input db).1.tasks
  unfolding create_kind
  create_kind-IsKeyed none draw now db_now input = same-IsKeyed
  create_kind-IsKeyed (some kind) draw now db_now input = elim (Bool-cases (lacks_fields input)) [
    | inl bad ↦ rw (bad, create_kind) same-IsKeyed
    | inr fine ↦ rw (fine, create_kind) (insert_drawn-IsKeyed (new_id draw) kind now db_now input)
  ]

  cancel-IsKeyed :
      (now : Time) (id reason : Text) → IsKeyed key t (cancel_task now id reason db).1.tasks
  unfolding cancel_task cancelled_task
  cancel-IsKeyed now id reason = elim (Option-cases (find_task id db.tasks)) [
    | inl missing ↦ rw (missing, cancel_task) same-IsKeyed
    | inr (u, k) ↦ elim (Bool-cases (can_transition u.status cancelled)) [
      | inl can ↦
          rw (k, can, cancel_task)
            (update-IsKeyed (λ v. text_eq v.id id) (cancelled_task reason now) (λ v. (refl, refl)))
      | inr refused ↦ rw (k, refused, cancel_task) same-IsKeyed
    ]
  ]

  retry-IsKeyed :
      (now : Time) (id reason : Text) → IsKeyed key t (retry_task now id reason db).1.tasks
  unfolding retry_task retried_task
  retry-IsKeyed now id reason = elim (Option-cases (find_task id db.tasks)) [
    | inl missing ↦ rw (missing, retry_task) same-IsKeyed
    | inr (u, k) ↦ elim (Bool-cases (can_transition u.status queued)) [
      | inl can ↦
          rw (k, can, retry_task)
            (update-IsKeyed (λ v. text_eq v.id id) (retried_task reason now) (λ v. (refl, refl)))
      | inr refused ↦ rw (k, refused, retry_task) same-IsKeyed
    ]
  ]

  heartbeat-IsKeyed :
      (now : Time) (id owner : Text) (lease : ℤ)
      → IsKeyed key t (heartbeat now id owner lease db).1.tasks
  unfolding heartbeat extended_task
  heartbeat-IsKeyed now id owner lease = elim (Bool-cases (leb_ℤ lease (pos 0))) [
    | inl bad ↦ rw (bad, heartbeat) same-IsKeyed
    | inr fine ↦
        rw (fine, heartbeat)
          (update-IsKeyed (holds_lease id owner) (extended_task (now + pos_part lease))
            (λ v. (refl, refl)))
  ]

  claim_drawn-IsKeyed :
      (o p : Option Text) (owner : Text) (until now : Time) (u : Task)
      → IsKeyed key t (claim_drawn o p owner until now u db).1.tasks
  unfolding claim_drawn commit_claim claimed_task
  claim_drawn-IsKeyed none p owner until now u = same-IsKeyed
  claim_drawn-IsKeyed (some a) none owner until now u = same-IsKeyed
  claim_drawn-IsKeyed (some a) (some b) owner until now u =
      elim (Bool-cases (violates_runs a b u db.runs)) [
        | inl bad ↦ rw (bad, claim_drawn) same-IsKeyed
        | inr fine ↦
            rw (fine, claim_drawn)
              (update-IsKeyed (λ v. text_eq v.id u.id)
                (claimed_task (u.attempts + 1) owner until now) (λ v. (refl, refl)))
      ]

  claim_picked-IsKeyed :
      (o : Option Task) (r c : Draw) (now : Time) (owner : Text) (lease : ℤ)
      → IsKeyed key t (claim_picked o r c now owner lease db).1.tasks
  unfolding claim_picked
  claim_picked-IsKeyed none r c now owner lease = same-IsKeyed
  claim_picked-IsKeyed (some u) r c now owner lease =
      claim_drawn-IsKeyed (new_id r) (new_id c) owner (now + pos_part lease) now u

  claim-IsKeyed :
      (r c : Draw) (db_now : Snapshot) (now : Time) (owner : Text) (lease : ℤ)
      → IsKeyed key t (claim_task r c db_now now owner lease db).1.tasks
  unfolding claim_task
  claim-IsKeyed r c db_now now owner lease = elim (Bool-cases (is_blank owner)) [
    | inl blank ↦ rw (blank, claim_task) same-IsKeyed
    | inr named ↦ elim (Bool-cases (leb_ℤ lease (pos 0))) [
      | inl bad ↦ rw (named, bad, claim_task) same-IsKeyed
      | inr fine ↦
          rw (named, fine, claim_task)
            (claim_picked-IsKeyed (pick db_now db.tasks) r c now owner lease)
    ]
  ]

  complete_checked-IsKeyed :
      (now : Time) (id run_id : Text) (status : Status) (code message : Text) (current : Status)
      → IsKeyed key t (complete_checked now id run_id status code message current db).1.tasks
  unfolding complete_checked completed_task
  complete_checked-IsKeyed now id run_id status code message current =
      elim (Bool-cases (status_eq current status && is_finished status)) [
        | inl same ↦ rw (same, complete_checked) same-IsKeyed
        | inr other ↦ elim (Bool-cases (can_transition current status)) [
          | inl can ↦
              rw (other, can, complete_checked)
                (update-IsKeyed (λ v. text_eq v.id id) (completed_task status message now)
                  (λ v. (refl, refl)))
          | inr refused ↦ rw (other, refused, complete_checked) same-IsKeyed
        ]
      ]

  complete_run-IsKeyed :
      (now : Time) (id run_id : Text) (status : Status) (code message : Text) (current : Status)
      (o : Option Run)
      → IsKeyed key t (complete_run now id run_id status code message current o db).1.tasks
  unfolding complete_run
  complete_run-IsKeyed now id run_id status code message current none = same-IsKeyed
  complete_run-IsKeyed now id run_id status code message current (some r) =
      elim (Bool-cases (status_eq r.status running)) [
        | inl busy ↦
            rw (busy, complete_run)
              (complete_checked-IsKeyed now id run_id status code message current)
        | inr idle ↦ elim (Bool-cases (status_eq current status && status_eq r.status status)) [
          | inl again ↦ rw (idle, again, complete_run) same-IsKeyed
          | inr lost ↦ rw (idle, lost, complete_run) same-IsKeyed
        ]
      ]

  complete-IsKeyed :
      (now : Time) (id run_id : Text) (status : Status) (code message : Text)
      → IsKeyed key t (complete_task now id run_id status code message db).1.tasks
  unfolding complete_task
  complete-IsKeyed now id run_id status code message = elim (Bool-cases (is_report status)) [
    | inr bad ↦ rw (bad, complete_task) same-IsKeyed
    | inl rep ↦ elim (Option-cases (find_task id db.tasks)) [
      | inl missing ↦ rw (rep, missing, complete_task) same-IsKeyed
      | inr (u, k) ↦ elim (Bool-cases (is_empty run_id)) [
        | inl no_run ↦
            rw (rep, k, no_run, complete_task)
              (complete_checked-IsKeyed now id run_id status code message u.status)
        | inr run ↦
            rw (rep, k, run, complete_task)
              (complete_run-IsKeyed now id run_id status code message u.status
                (find_task_run run_id id db.runs))
      ]
    ]
  ]

  -- No call loses the row that a source key finds.
  perform-IsKeyed : (c : Call) → IsKeyed key t (perform c db).tasks
  unfolding perform create_task supersede_code_reviews superseded_task
  perform-IsKeyed (create draw now db_now input) =
      create_kind-IsKeyed (valid_kind input.kind) draw now db_now input
  perform-IsKeyed (cancel now id reason) = cancel-IsKeyed now id reason
  perform-IsKeyed (retry now id reason) = retry-IsKeyed now id reason
  perform-IsKeyed (claim r c db_now now owner lease) = claim-IsKeyed r c db_now now owner lease
  perform-IsKeyed (beat now id owner lease) = heartbeat-IsKeyed now id owner lease
  perform-IsKeyed (complete now id run_id status code message) =
      complete-IsKeyed now id run_id status code message
  perform-IsKeyed (supersede json db_now repository provider pull_request task) =
      update-IsKeyed (is_outdated json repository provider pull_request task)
        (superseded_task task db_now) (λ v. (refl, refl))
  perform-IsKeyed (append_event now run_id input) =
      subst (IsKeyed key t) (sym (append_run_event-tables now run_id input db).0) same-IsKeyed
  perform-IsKeyed (audit draw now input) =
      subst (IsKeyed key t) (sym (record_audit-tables draw now input db).0) same-IsKeyed

perform_all-IsKeyed :
    (cs : List Call) (key : Text) (t : Task) (db : Database)
    → find (by_source key) db.tasks ≡ some t
    → IsKeyed key t (perform_all cs db).tasks
unfolding perform_all
perform_all-IsKeyed [] key t db e = (t, e, refl)
perform_all-IsKeyed (c ∷ cs) key t db e =
    let (u, k, same) = perform-IsKeyed key t db e c in
    let (v, l, also) = perform_all-IsKeyed cs key u (perform c db) k in (v, l, cc)

-- After any calls a request with the source key of a task that was created gives its row.
pub create_task-later :
    (cs : List Call) (draw draw2 : Draw) (now db_now now2 db_now2 : Time)
    (input input2 : CreateInput) (t : Task) (db after : Database) {kind : Kind} {id : Text}
    → create_task draw now db_now input db ≡ (ok t, after)
    → input2.source_key ≡ input.source_key
    → valid_kind input2.kind ≡ some kind
    → lacks_fields input2 ≡ false
    → new_id draw2 ≡ some id
    → (t' : Task) × (t'.id ≡ t.id)
      × (create_task draw2 now2 db_now2 input2 (perform_all cs after)
          ≡ (ok t', perform_all cs after))
unfolding create_task create_kind insert_drawn insert_task new_task
create_task-later cs draw draw2 now db_now now2 db_now2 input input2 t db after e key k fine drawn =
    let (u, found, same) =
      perform_all-IsKeyed cs input.source_key t after
        (create_task-found draw now db_now input t db after e) in
    let again : find (by_source input2.source_key) (perform_all cs after).tasks ≡ some u =
      rw key found in
    (u, same, rw (k, fine, drawn, again, create_task, create_kind, insert_drawn, insert_task) refl)
