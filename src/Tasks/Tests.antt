-- ===== src/Tasks/Tests.antt =====
-- The task store (server/internal/tasks/store.go) on a small database, and each theorem at an input
-- that meets its hypotheses.
use repo_mender.Prelude.{
  ℕ, ◌+◌, ◌≡◌, ◌≢◌, ◌↔◌, refl, subst, true, false, none, some, List, [], ◌∷◌, Text, text, text_eq,
  has_prefix, trim_space, All, In, drop, pos, ok, err, Result, arith,
}
use repo_mender.Ids.{Draw, new_id}
use repo_mender.Tasks.Status.{
  issue_repair, queued, running, failed, succeeded, superseded, can_transition, valid_kind,
  kind_text,
}
use repo_mender.Tasks.Types.{
  Snapshot, Time, Task, Run, CreateInput, RunEventInput, Database, Error, lease_lost,
  task_not_found,
}
use repo_mender.Tasks.Tables.{find_task}
use repo_mender.Tasks.Store.{
  create_task, create_kind, insert_drawn, insert_task, lacks_fields, new_task, retry_task,
  retried_task,
}
use repo_mender.Tasks.Queue.{
  is_free, violates_runs, claimable, precedes, pick, claim_task, claim_result, claimed_task,
  claimed_run, fail_expired, lease_expired_run, complete_task, commit_claim,
}
use repo_mender.Tasks.Events.{append_run_event, list_run_events, new_event, max_sequence}
use repo_mender.Tasks.Invariant.{IsConsistent}
use mathlib.Core.Option.{some-injective}
use repo_mender.Tasks.Trace.{Call, perform, perform_all}
use repo_mender.Tasks.Consistent.Create.{IsFresh, DrawsFresh}
use repo_mender.Tasks.Consistent.Trace.{AllProper, perform_all-IsConsistent}
use repo_mender.Tasks.Machine.{Moved}
use repo_mender.Tasks.Machine.Trace.{perform-Moved, perform_all-superseded}
use repo_mender.Tasks.Numbering.{
  IsNumbered, events_of, append_run_event-IsNumbered, list_run_events-drop,
}
use repo_mender.Tasks.Intake.{create_task-idempotent, retry_task-exhausted, claim_task-failed}
use repo_mender.Tasks.Claiming.Exclusive.{claim_task-exclusive}
use repo_mender.Tasks.Claiming.Stale.{claim_task-complete_task}
use repo_mender.Tasks.Claiming.Order.{IsOpen, IsBefore, claim_task-IsFirst, claim_task-none}

-- Sixteen bytes of which the last is `n`.
abbrev pub bytes : ℕ → Draw
bytes n = some (record {
  b0 = 0;
  b1 = 0;
  b2 = 0;
  b3 = 0;
  b4 = 0;
  b5 = 0;
  b6 = 0;
  b7 = 0;
  b8 = 0;
  b9 = 0;
  b10 = 0;
  b11 = 0;
  b12 = 0;
  b13 = 0;
  b14 = 0;
  b15 = n;
})

new_id-text : new_id (bytes 26) ≡ some (text "00000000-0000-4000-8000-00000000001a")
unfolding new_id text
new_id-text = refl

trims : trim_space (text "  ok go\t\n") ≡ text "ok go"
unfolding trim_space text
trims = refl

abbrev waiting : Task
waiting = record {
  id = text "a";
  kind = issue_repair;
  status = queued;
  title = text "Repair";
  repository_id = [];
  repository_name = text "o/r";
  source_key = text "github:issue:1";
  payload = text "{}";
  priority = pos 5;
  attempts = 0;
  max_attempts = 3;
  available_at = 10;
  lease_owner = [];
  lease_until = none;
  last_error = [];
  superseded_by = [];
  created_by = text "u";
  created_at = 10;
  updated_at = 10;
  started_at = none;
  finished_at = none;
}

-- Its lease ended at 40.
abbrev expired : Task
expired = record waiting {
  id = text "b";
  source_key = text "github:issue:2";
  status = running;
  priority = pos 9;
  attempts = 1;
  lease_owner = text "w1";
  lease_until = some 40;
  started_at = some 20;
}

abbrev old_run : Run
old_run = record {
  id = text "r1";
  task_id = text "b";
  attempt = 1;
  status = running;
  correlation_id = text "c1";
  external_run_id = [];
  error_code = [];
  error_message = [];
  created_at = 20;
  started_at = some 20;
  finished_at = none;
}

abbrev pub tables : Database
tables = record { tasks = waiting ∷ expired ∷ []; runs = old_run ∷ []; events = []; audit = [] }

pub tables-IsConsistent : IsConsistent tables
unfolding text text_eq
tables-IsConsistent = ground arith

-- What a claim sees while no other transaction is open.
abbrev pub alone : Time → Snapshot
alone time = record { time = time; locked = λ id. false }

-- A second worker claims at 50, when the first one's lease is over.
abbrev claim_at : Time → Text → ℕ → Database → Result Error (Task × Run) × Database
claim_at time owner n = claim_task (bytes n) (bytes (n + 1)) (alone time) time owner (pos 30)

abbrev pub first_claim : Task × Run
first_claim = (
  claim_result 2 (text "w2") 80 50 expired,
  claimed_run (text "00000000-0000-4000-8000-000000000001")
      (text "00000000-0000-4000-8000-000000000002") expired 50,
)

abbrev pub once_claimed : Database
once_claimed = record tables {
  tasks = waiting ∷ claimed_task 2 (text "w2") 80 50 expired ∷ [];
  runs = lease_expired_run 50 old_run ∷ first_claim.1 ∷ [];
}

pub claim_expired : claim_at 50 (text "w2") 1 tables ≡ (ok first_claim, once_claimed)
unfolding claim_task is_free violates_runs claimable precedes pick text text_eq trim_space new_id
    fail_expired lease_expired_run claimed_task claim_result claimed_run commit_claim
claim_expired = refl

abbrev second_claim : Task × Run
second_claim = (
  claim_result 1 (text "w3") 90 60 waiting,
  claimed_run (text "00000000-0000-4000-8000-000000000003")
      (text "00000000-0000-4000-8000-000000000004") waiting 60,
)

abbrev twice_claimed : Database
twice_claimed = record once_claimed {
  tasks = claimed_task 1 (text "w3") 90 60 waiting ∷ claimed_task 2 (text "w2") 80 50 expired ∷ [];
  runs = lease_expired_run 50 old_run ∷ first_claim.1 ∷ second_claim.1 ∷ [];
}

claim_waiting : claim_at 60 (text "w3") 3 once_claimed ≡ (ok second_claim, twice_claimed)
unfolding claim_task is_free violates_runs claimable precedes pick text text_eq trim_space new_id
    fail_expired lease_expired_run claimed_task claim_result claimed_run commit_claim
claim_waiting = refl

claim_task-exclusive_example : text "a" ≢ text "b"
unfolding text claim_result
claim_task-exclusive_example =
    claim_task-exclusive (bytes 1) (bytes 2) (bytes 3) (bytes 4) (alone 50) (alone 60) 50 60
      (text "w2") (text "w3") (pos 30) (pos 30) tables once_claimed twice_claimed first_claim.0
      second_claim.0 first_claim.1 second_claim.1 claim_expired claim_waiting (omega arith)

claim_task-complete_task_example :
    complete_task 60 (text "b") (text "r1") succeeded [] [] once_claimed
    ≡ (err lease_lost, once_claimed)
unfolding text text_eq claim_result
claim_task-complete_task_example =
    claim_task-complete_task (bytes 1) (bytes 2) (alone 50) 50 60 (text "w2") (pos 30) tables
      once_claimed first_claim.0 first_claim.1 old_run (text "r1") succeeded [] []
      tables-IsConsistent claim_expired refl refl refl refl

claim_task-IsFirst_example :
    (t : Task) × In t tables.tasks
    × IsOpen (alone 50) t
    × All (λ u. IsOpen (alone 50) u → ¬ IsBefore u t) tables.tasks
    × (first_claim.0.id ≡ t.id)
    × (first_claim.0.status ≡ running)
    × (first_claim.0.attempts ≡ t.attempts + 1)
    × (first_claim.0.lease_until ≡ some 80)
    × (first_claim.1.task_id ≡ t.id)
    × (first_claim.1.status ≡ running)
    × (first_claim.1.attempt ≡ first_claim.0.attempts)
claim_task-IsFirst_example =
    claim_task-IsFirst (bytes 1) (bytes 2) (alone 50) 50 (text "w2") (pos 30) tables once_claimed
      first_claim.0 first_claim.1 claim_expired

-- Another transaction locks every task.
abbrev crowded : Snapshot
crowded = record { time = 50; locked = λ id. true }

claim_task-none_example :
    (claim_task (bytes 1) (bytes 2) crowded 50 (text "w2") (pos 30) tables
      ≡ (err task_not_found, tables))
    ↔ All (λ u. ¬ IsOpen crowded u) tables.tasks
unfolding text trim_space
claim_task-none_example =
    claim_task-none (bytes 1) (bytes 2) crowded 50 (text "w2") (pos 30) tables refl refl

-- A request that names the source key of `waiting`.
abbrev request : CreateInput
request = record {
  kind = kind_text issue_repair;
  title = text "Again";
  repository_id = [];
  repository_name = text "o/r";
  source_key = text "github:issue:3";
  payload = none;
  priority = pos 0;
  max_attempts = pos 0;
  created_by = [];
  created_at = 0;
}

abbrev created : Task
created = new_task (text "00000000-0000-4000-8000-000000000007") issue_repair 70 70 request

abbrev with_created : Database
with_created = record tables { tasks = waiting ∷ expired ∷ created ∷ [] }

create_request : create_task (bytes 7) 70 70 request tables ≡ (ok created, with_created)
unfolding create_task create_kind insert_drawn insert_task new_task lacks_fields valid_kind
    kind_text text text_eq trim_space has_prefix new_id
create_request = refl

create_task-idempotent_example :
    create_task (bytes 8) 75 75 request with_created ≡ (ok created, with_created)
unfolding lacks_fields valid_kind kind_text text text_eq trim_space has_prefix new_id
create_task-idempotent_example =
    create_task-idempotent (bytes 7) (bytes 8) 70 70 75 75 request request created tables
      with_created create_request refl refl refl refl

-- A run of the system: a creation, a claim, its completion, a cancellation.
abbrev calls : List Call
calls =
    Call.create (bytes 7) 70 70 request
    ∷ Call.claim (bytes 1) (bytes 2) (alone 71) 71 (text "w2") (pos 30)
    ∷ Call.complete 72 (text "b") (text "00000000-0000-4000-8000-000000000001") succeeded [] []
    ∷ Call.supersede (record { text_field = λ p k. none; int_field = λ p k. none }) 73 [] [] (pos 1)
        (text "a")
    ∷ Call.cancel 74 (text "a") (text "no longer wanted")
    ∷ []

fresh_draw : DrawsFresh (bytes 7) tables
unfolding new_id text text_eq
fresh_draw id e = subst (λ (i : Text). IsFresh i tables) (some-injective _ _ e) refl

calls-AllProper : AllProper calls tables
unfolding text
calls-AllProper = (fresh_draw, (tt, (refl, (refl, (tt, tt)))))

perform_all-IsConsistent_example : IsConsistent (perform_all calls tables)
perform_all-IsConsistent_example =
    perform_all-IsConsistent calls tables calls-AllProper tables-IsConsistent

perform-Moved_example :
    Moved false (text "b") expired (perform (Call.retry 60 (text "a") []) tables).tasks
unfolding text text_eq
perform-Moved_example =
    perform-Moved (Call.retry 60 (text "a") []) tables (text "b") expired
      tables-IsConsistent.distinct refl

abbrev replaced : Task
replaced = record waiting { id = text "c"; status = superseded; superseded_by = text "a" }

abbrev with_replaced : Database
with_replaced = record { tasks = replaced ∷ []; runs = []; events = []; audit = [] }

with_replaced-IsConsistent : IsConsistent with_replaced
unfolding text text_eq
with_replaced-IsConsistent = ground arith

perform_all-superseded_example :
    (t' : Task) × (find_task
        (text "c")
        (perform_all
          (Call.retry 60 (text "c") []
            ∷ Call.claim (bytes 1) (bytes 2) (alone 71) 71 (text "w2") (pos 30)
            ∷ [])
          with_replaced).tasks
      ≡ some t')
    × (t'.status ≡ superseded)
unfolding text text_eq
perform_all-superseded_example =
    perform_all-superseded
      (Call.retry 60 (text "c") []
        ∷ Call.claim (bytes 1) (bytes 2) (alone 71) 71 (text "w2") (pos 30)
        ∷ [])
      with_replaced (text "c") replaced with_replaced-IsConsistent (tt, (tt, tt)) refl refl

abbrev line : RunEventInput
line = record {
  kind = text "log";
  stream = text "stdout";
  message = text "hi";
  payload = none;
  terminal = false;
}

abbrev one_event : Database
one_event = record tables { events = new_event (text "r1") 55 line [] ∷ [] }

append_run_event-IsNumbered_example :
    IsNumbered (text "r1") (append_run_event 56 (text "r1") line one_event).1
unfolding text text_eq new_event max_sequence
append_run_event-IsNumbered_example =
    append_run_event-IsNumbered 56 (text "r1") line (text "r1") one_event (omega arith)

list_run_events-drop_example :
    list_run_events (text "r1") (pos 1) one_event ≡ ok (drop 1 (events_of (text "r1") one_event))
unfolding text text_eq new_event max_sequence
list_run_events-drop_example =
    list_run_events-drop (text "r1") 1 one_event old_run refl (omega arith)

-- A task that failed on its last attempt.
abbrev spent : Task
spent = record waiting {
  id = text "d";
  source_key = text "github:issue:9";
  status = failed;
  attempts = 1;
  max_attempts = 1;
}

abbrev spent_run : Run
spent_run = record old_run { id = text "r9"; task_id = text "d"; status = failed }

abbrev with_spent : Database
with_spent = record { tasks = waiting ∷ spent ∷ []; runs = spent_run ∷ []; events = []; audit = [] }

with_spent-IsConsistent : IsConsistent with_spent
unfolding text text_eq
with_spent-IsConsistent = ground arith

abbrev spent_again : Database
spent_again = record with_spent { tasks = waiting ∷ retried_task [] 60 spent ∷ [] }

retry_spent : retry_task 60 (text "d") [] with_spent ≡ (ok (retried_task [] 60 spent), spent_again)
unfolding retry_task retried_task can_transition text text_eq trim_space
retry_spent = refl

abbrev other_claim : Task × Run
other_claim = (
  claim_result 1 (text "w3") 91 61 waiting,
  claimed_run (text "00000000-0000-4000-8000-000000000003")
      (text "00000000-0000-4000-8000-000000000004") waiting 61,
)

abbrev other_claimed : Database
other_claimed = record with_spent {
  tasks = claimed_task 1 (text "w3") 91 61 waiting ∷ retried_task [] 60 spent ∷ [];
  runs = spent_run ∷ other_claim.1 ∷ [];
}

claim_other : claim_at 61 (text "w3") 3 spent_again ≡ (ok other_claim, other_claimed)
unfolding claim_task is_free violates_runs claimable precedes pick text text_eq trim_space new_id
    fail_expired retried_task lease_expired_run claimed_task claim_result claimed_run commit_claim
claim_other = refl

retry_task-exhausted_example : text "a" ≢ text "d"
unfolding text text_eq claim_result
retry_task-exhausted_example =
    retry_task-exhausted 60 61 (alone 61) (text "d") [] (text "w3") (bytes 3) (bytes 4) (pos 30)
      spent (retried_task [] 60 spent) other_claim.0 other_claim.1 with_spent spent_again
      other_claimed with_spent-IsConsistent refl refl retry_spent claim_other

abbrev broken : Task
broken = record waiting { status = failed }

abbrev with_broken : Database
with_broken = record { tasks = broken ∷ []; runs = []; events = []; audit = [] }

with_broken-IsConsistent : IsConsistent with_broken
unfolding text text_eq
with_broken-IsConsistent = ground arith

abbrev broken_claim : Task × Run
broken_claim = (
  claim_result 1 (text "w2") 80 50 broken,
  claimed_run (text "00000000-0000-4000-8000-000000000001")
      (text "00000000-0000-4000-8000-000000000002") broken 50,
)

abbrev broken_claimed : Database
broken_claimed = record with_broken {
  tasks = claimed_task 1 (text "w2") 80 50 broken ∷ [];
  runs = broken_claim.1 ∷ [];
}

claim_broken : claim_at 50 (text "w2") 1 with_broken ≡ (ok broken_claim, broken_claimed)
unfolding claim_task is_free violates_runs claimable precedes pick text text_eq trim_space new_id
    fail_expired lease_expired_run claimed_task claim_result claimed_run commit_claim
claim_broken = refl

claim_task-failed_example :
    (u : Task) × (find_task broken.id broken_claimed.tasks ≡ some u)
    × (u.status ≡ running)
    × (can_transition broken.status u.status ≡ false)
unfolding pick is_free claimable text text_eq
claim_task-failed_example =
    claim_task-failed (bytes 1) (bytes 2) (alone 50) 50 (text "w2") (pos 30) broken broken_claim.0
      broken_claim.1 with_broken broken_claimed with_broken-IsConsistent refl refl claim_broken
