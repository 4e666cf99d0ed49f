-- ===== src/Tasks/Machine/Trace.antt =====
-- Every call of the store (server/internal/tasks/store.go), and every run of the system, against the
-- task state machine.
use repo_mender.Prelude.{
  any, Bool, false, ◌+◌, ◌≡◌, refl, sym, subst, true, inl, inr, Option, none, some, List, [], ◌∷◌,
  Text, text_eq, All-in, find-In, find, arith, Bool-cases, Option-cases, ℤ, pos, leb_ℤ, is_blank,
  pos_part,
}
use repo_mender.Ids.{Draw, new_id}
use repo_mender.Tasks.Status.{Status, Kind, running, superseded, can_transition, valid_kind}
use repo_mender.Tasks.Types.{Time, Snapshot, Task, CreateInput, Database}
use repo_mender.Tasks.Tables.{find_task}
use repo_mender.Tasks.Store.{create_task, create_kind, insert_drawn, insert_task, lacks_fields}
use repo_mender.Tasks.Queue.{
  violates_runs, claimable, pick, claim_task, claim_picked, claim_drawn, commit_claim, claimed_task,
}
use repo_mender.Tasks.Trace.{
  Call, create, cancel, retry, claim, beat, complete, supersede, append_event, audit, perform,
  perform_all,
}
use repo_mender.Tasks.Invariant.{HasDistinctIds, IsConsistent}
use repo_mender.Tasks.Unique.{IsOnly, In-IsOnly, pick-In}
use repo_mender.Tasks.Consistent.Create.{append_run_event-tables, record_audit-tables}
use repo_mender.Tasks.Consistent.Trace.{AllProper, perform-IsConsistent}
use repo_mender.Tasks.Machine.{
  Moves, Moved, unmoved, append-Moved, update-Moved, cancel-Moved, retry-Moved, heartbeat-Moved,
  supersede-Moved, complete-Moved,
}

-- What the claim's test leaves: queued, failed, or running.
claimable-Moves : (now : Time) (t : Task) → claimable now t ≡ true → Moves true t.status running
unfolding claimable can_transition
claimable-Moves now t h = ground arith

module _ (db : Database) (d : HasDistinctIds db.tasks) (id : Text) (t : Task)
    (e : find_task id db.tasks ≡ some t) where
  commit_claim-Moved :
      (a b owner : Text) (db_now : Snapshot) (until now : Time) (u : Task)
      → pick db_now db.tasks ≡ some u
      → Moved true id t (commit_claim a b owner until now u db).1.tasks
  unfolding commit_claim claimed_task
  commit_claim-Moved a b owner db_now until now u k =
      let (m, c) = pick-In db_now db.tasks {t = u} k in
      let only : IsOnly u t =
        All-in (IsOnly u) db.tasks (In-IsOnly u db.tasks d m)
          (find-In (λ v. text_eq v.id id) db.tasks {x = t} e) in
      update-Moved id t db.tasks e true (λ v. text_eq v.id u.id)
        (claimed_task (u.attempts + 1) owner until now) (λ v. refl)
        (elim (Bool-cases (text_eq t.id u.id)) [
          | inl same ↦ rw same (
              subst (λ (v : Task). Moves true v.status running) (sym (only same))
                (claimable-Moves db_now.time u c))
          | inr other ↦ rw other (inl refl)
        ])

  claim_drawn-Moved :
      (o p : Option Text) (owner : Text) (db_now : Snapshot) (until now : Time) (u : Task)
      → pick db_now db.tasks ≡ some u
      → Moved true id t (claim_drawn o p owner until now u db).1.tasks
  unfolding claim_drawn
  claim_drawn-Moved none p owner db_now until now u k = unmoved true id t db.tasks e
  claim_drawn-Moved (some a) none owner db_now until now u k = unmoved true id t db.tasks e
  claim_drawn-Moved (some a) (some b) owner db_now until now u k =
      elim (Bool-cases (violates_runs a b u db.runs)) [
        | inl bad ↦ rw (bad, claim_drawn) (unmoved true id t db.tasks e)
        | inr fine ↦ rw (fine, claim_drawn) (commit_claim-Moved a b owner db_now until now u k)
      ]

  claim_picked-Moved :
      (o : Option Task) (r c : Draw) (db_now : Snapshot) (now : Time) (owner : Text) (lease : ℤ)
      → pick db_now db.tasks ≡ o
      → Moved true id t (claim_picked o r c now owner lease db).1.tasks
  unfolding claim_picked
  claim_picked-Moved none r c db_now now owner lease k = unmoved true id t db.tasks e
  claim_picked-Moved (some u) r c db_now now owner lease k =
      claim_drawn-Moved (new_id r) (new_id c) owner db_now (now + pos_part lease) now u k

  claim-Moved :
      (r c : Draw) (db_now : Snapshot) (now : Time) (owner : Text) (lease : ℤ)
      → Moved true id t (claim_task r c db_now now owner lease db).1.tasks
  unfolding claim_task
  claim-Moved r c db_now now owner lease = elim (Bool-cases (is_blank owner)) [
    | inl blank ↦ rw (blank, claim_task) (unmoved true id t db.tasks e)
    | inr named ↦ elim (Bool-cases (leb_ℤ lease (pos 0))) [
      | inl bad ↦ rw (named, bad, claim_task) (unmoved true id t db.tasks e)
      | inr fine ↦
          rw (named, fine, claim_task)
            (claim_picked-Moved (pick db_now db.tasks) r c db_now now owner lease refl)
    ]
  ]

  insert-Moved : (task : Task) → Moved false id t (insert_task task db).1.tasks
  unfolding insert_task
  insert-Moved task =
      elim (Option-cases (find (λ u. text_eq u.source_key task.source_key) db.tasks)) [
        | inl new ↦ elim (Bool-cases (any (λ u. text_eq u.id task.id) db.tasks)) [
          | inl bad ↦ rw (new, bad, insert_task) (unmoved false id t db.tasks e)
          | inr fine ↦ rw (new, fine, insert_task) (append-Moved id t db.tasks e (task ∷ []))
        ]
        | inr (u, k) ↦ rw (k, insert_task) (unmoved false id t db.tasks e)
      ]

  insert_drawn-Moved :
      (o : Option Text) (kind : Kind) (now db_now : Time) (input : CreateInput)
      → Moved false id t (insert_drawn o kind now db_now input db).1.tasks
  unfolding insert_drawn
  insert_drawn-Moved none kind now db_now input = unmoved false id t db.tasks e
  insert_drawn-Moved (some a) kind now db_now input = insert-Moved _

  create_kind-Moved :
      (k : Option Kind) (draw : Draw) (now db_now : Time) (input : CreateInput)
      → Moved false id t (create_kind k draw now db_now input db).1.tasks
  unfolding create_kind
  create_kind-Moved none draw now db_now input = unmoved false id t db.tasks e
  create_kind-Moved (some kind) draw now db_now input = elim (Bool-cases (lacks_fields input)) [
    | inl bad ↦ rw (bad, create_kind) (unmoved false id t db.tasks e)
    | inr fine ↦ rw (fine, create_kind) (insert_drawn-Moved (new_id draw) kind now db_now input)
  ]

  create-Moved :
      (draw : Draw) (now db_now : Time) (input : CreateInput)
      → Moved false id t (create_task draw now db_now input db).1.tasks
  unfolding create_task
  create-Moved draw now db_now input =
      create_kind-Moved (valid_kind input.kind) draw now db_now input

-- Whether a call is a claim.
abbrev is_claim : Call → Bool
is_claim (claim _ _ _ _ _ _) = true
is_claim _ = false

-- In a table of distinct identifiers no call loses a task, and every call leaves the state of each
-- task alone or moves it along `can_transition`, save that a claim, and no other call, may also make
-- a failed task running.
pub perform-Moved :
    (c : Call) (db : Database) (id : Text) (t : Task)
    → HasDistinctIds db.tasks
    → find_task id db.tasks ≡ some t
    → Moved (is_claim c) id t (perform c db).tasks
unfolding perform
perform-Moved (create draw now db_now input) db id t d e =
    create-Moved db d id t e draw now db_now input
perform-Moved (cancel now id0 reason) db id t d e = cancel-Moved db id t e now id0 reason
perform-Moved (retry now id0 reason) db id t d e = retry-Moved db id t e now id0 reason
perform-Moved (claim r c db_now now owner lease) db id t d e =
    claim-Moved db d id t e r c db_now now owner lease
perform-Moved (beat now id0 owner lease) db id t d e = heartbeat-Moved db id t e now id0 owner lease
perform-Moved (complete now task run status code message) db id t d e =
    complete-Moved db id t e now task run status code message
perform-Moved (supersede json db_now repository provider pull_request task) db id t d e =
    supersede-Moved db id t e json db_now repository provider pull_request task
perform-Moved (append_event now run_id input) db id t d e =
    subst (Moved false id t) (sym (append_run_event-tables now run_id input db).0)
      (unmoved false id t db.tasks e)
perform-Moved (audit draw now input) db id t d e =
    subst (Moved false id t) (sym (record_audit-tables draw now input db).0)
      (unmoved false id t db.tasks e)

superseded_stays : (claims : Bool) (s : Status) → Moves claims superseded s → s ≡ superseded
unfolding can_transition
superseded_stays claims s h = ground arith

-- A superseded task stays in the table and stays superseded, whatever proper calls follow.
pub perform_all-superseded :
    (cs : List Call) (db : Database) (id : Text) (t : Task)
    → IsConsistent db
    → AllProper cs db
    → find_task id db.tasks ≡ some t
    → t.status ≡ superseded
    → (t' : Task) × (find_task id (perform_all cs db).tasks ≡ some t') × (t'.status ≡ superseded)
unfolding perform_all
perform_all-superseded [] db id t h p e s = (t, e, s)
perform_all-superseded (c ∷ cs) db id t h p e s =
    let (t', e', mv) = perform-Moved c db id t h.distinct e in
    perform_all-superseded cs (perform c db) id t' (perform-IsConsistent c db p.0 h) p.1 e'
      (superseded_stays (is_claim c) t'.status (subst (λ x. Moves (is_claim c) x t'.status) s mv))
