-- ===== src/Diagnosis/Intake.antt =====
-- What `HandleWebhook` (server/internal/diagnosis/service.go) leaves for the processor.
use repo_mender.Prelude.{
  List, ◌≡◌, refl, subst, ap, Bool, true, false, ◌||◌, not, inl, inr, Option, none, some, Text,
  text, text_eq, is_empty, ℤ, pos, leb_ℤ, Result, ok, err, is_ok, if◌then◌else◌, Bool-cases,
  Option-cases, Result-cases, arith,
}
use repo_mender.Ids.{Draw, new_id}
use repo_mender.Tasks.Status.{valid_kind, kind_text}
use repo_mender.Tasks.Types.{Time, Task, CreateInput, Database}
use repo_mender.Tasks.Types as Tasks
use repo_mender.Tasks.Store.{create_task, create_kind, lacks_fields}
use repo_mender.Tasks.Trace.{Call, perform_all}
use repo_mender.Tasks.Keyed.{create_task-later}
use repo_mender.Repair.Validate.{is_sha}
use repo_mender.Diagnosis.Logs.{Error, invalid_event, unsupported_event}
use repo_mender.Diagnosis.Events.{
  Codec, WebhookEvent, WorkflowRunEvent, TaskPayload, Resolver, value, integer_value, raw_value,
  workflow_event, is_unrelated, run_event, event_from_webhook, payload_of, build_task_input,
  valid_repository_name, check_payload, decode_task_payload, repository_id_of, created, create_for,
  handle_event, handle_webhook,
}

-- What a payload must have, but for the repository's name.
abbrev IsComplete : TaskPayload → Type 0
IsComplete p =
    (leb_ℤ p.workflow_run_id (pos 0) ≡ false)
    × (is_empty p.clone_url ≡ false)
    × (is_sha p.head_sha ≡ true)

-- Behind a guard that answers with an error.
passed :
    {A : Type 0} (c : Bool) (x : Error) (r : Result Error A) (a : A)
    → (if c then err x else r) ≡ ok a
    → (c ≡ false) × (r ≡ ok a)
passed true x r a e = cc
passed false x r a e = (refl, e)

ok-path : {A : Type 0} (a b : A) → Path (Result Error A) (ok a) (ok b) → a ≡ b
ok-path a b e = ground arith

or-last : (a b c : Bool) → (a || b || c) ≡ false → c ≡ false
or-last a b c e = ground arith

run_event-IsComplete :
    (event : WebhookEvent) (n : Option ℤ) (w : WorkflowRunEvent)
    → run_event event n ≡ ok w
    → IsComplete (payload_of w)
unfolding run_event
run_event-IsComplete event none w e = cc
run_event-IsComplete event (some n) w e =
    let (positive, e1) = passed _ invalid_event _ w e in
    let (commit, e2) = passed _ invalid_event _ w e1 in
    let (full, e3) = passed _ invalid_event _ w e2 in
    subst (λ (v : WorkflowRunEvent). IsComplete (payload_of v))
      (ok-path (workflow_event event n) w e3)
      (
        positive,
        or-last (is_empty (value (text "repositoryId") event))
            (is_empty (value (text "repository") event)) (is_empty (value (text "cloneURL") event))
            full,
        ground arith,
      )

name-if :
    (c : Bool) (p : TaskPayload)
    → Path
        (Result Error TaskPayload)
        (if not c then err invalid_event else ok p)
        (if c then ok p else err invalid_event)
name-if true p = refl
name-if false p = refl

-- A payload that an accepted webhook wrote into its task is read back as it was where the
-- repository's name is valid, and refused otherwise, where JSON gives back what it encoded.
pub decode_task_payload-encode :
    (codec : Codec) (event : WebhookEvent) (w : WorkflowRunEvent)
    → codec.decode_payload (codec.encode_payload (payload_of w)) ≡ some (payload_of w)
    → event_from_webhook codec event ≡ ok w
    → decode_task_payload codec (codec.encode_payload (payload_of w))
      ≡ (if valid_repository_name w.repository_name then ok (payload_of w) else err invalid_event)
unfolding decode_task_payload event_from_webhook
decode_task_payload-encode codec event w reads e =
    let (counts, cloned, commit) =
      let n = integer_value codec (raw_value (text "workflowRunId") event) in
      run_event-IsComplete event n w
        (passed (is_unrelated event) unsupported_event (run_event event n) w e).1 in
    rw (decode_task_payload, reads, check_payload, counts, cloned, commit)
      (name-if (valid_repository_name w.repository_name) (payload_of w))

created-ok :
    (r : Result Tasks.Error Task × Database) (t : Task) (after : Database)
    → created r ≡ (ok (some t), after)
    → r ≡ (ok t, after)
unfolding created
created-ok (err x, db) t after e = cc (ap (λ a. a.0) e)
created-ok (ok u, db) t after e = ground arith

create_task-has_fields :
    (draw : Draw) (now db_now : Time) (input : CreateInput) (t : Task) (db after : Database)
    → create_task draw now db_now input db ≡ (ok t, after)
    → lacks_fields input ≡ false
unfolding create_task create_kind
create_task-has_fields draw now db_now input t db after e = elim (Bool-cases (lacks_fields input)) [
  | inr fine ↦ fine
  | inl bad ↦ elim (Option-cases (valid_kind input.kind)) [
    | inl unknown ↦ cc (ap (λ a. a.0) (rw (unknown, create_task, create_kind) at e))
    | inr (k, known) ↦ cc (ap (λ a. a.0) (rw (known, bad, create_task, create_kind) at e))
  ]
]

-- The delivery gives the row of the task, and changes nothing.
abbrev pub IsKnown : Task → Result Error (Option Task) × Database → Database → Type 0
IsKnown t answer db = (t' : Task) × (t'.id ≡ t.id) × (answer ≡ (ok (some t'), db))

handle_event-once :
    (cs : List Call) (codec : Codec) (resolver resolver2 : Resolver) (draw draw2 : Draw)
    (now db_now now2 db_now2 : Time) (r : Result Error WorkflowRunEvent) (t : Task)
    (db after : Database) {id : Text}
    → handle_event codec resolver draw now db_now r db ≡ (ok (some t), after)
    → ((repository : Text) → is_ok (repository_id_of resolver2 repository) ≡ true)
    → new_id draw2 ≡ some id
    → IsKnown t
        (handle_event codec resolver2 draw2 now2 db_now2 r (perform_all cs after))
        (perform_all cs after)
unfolding handle_event create_for build_task_input lacks_fields kind_text text valid_kind created
    text_eq
handle_event-once cs codec resolver resolver2 draw draw2 now db_now now2 db_now2 (err x) t db after
      e answers drawn =
    absurd (ground arith)
handle_event-once cs codec resolver resolver2 draw draw2 now db_now now2 db_now2 (ok w) t db after e
      answers drawn =
    elim (Result-cases (repository_id_of resolver w.repository_id)) [
      | inr (x, bad) ↦ cc (ap (λ a. a.0) (rw (bad, handle_event) at e))
      | inl (own, good) ↦ elim (Result-cases (repository_id_of resolver2 w.repository_id)) [
        | inr (x, bad) ↦ let a = answers w.repository_id in cc (rw bad at a)
        | inl (own2, good2) ↦
            let first = created-ok _ t after (rw (good, handle_event) at e) in
            let (u, same, again) =
              create_task-later cs draw draw2 now db_now now2 db_now2 (build_task_input codec w own)
                (build_task_input codec w own2) t db after first refl refl
                (create_task-has_fields draw now db_now (build_task_input codec w own) t db after
                  first)
                drawn in
            (u, same, rw (good2, handle_event, create_for, again) refl)
      ]
    ]

-- Once a delivery made or found a task, a later delivery of the same event, whatever calls of the
-- task store come between and whatever the resolver then answers short of an error, gives the row
-- of that task as it then is, and changes nothing.
pub handle_webhook-once :
    (cs : List Call) (codec : Codec) (resolver resolver2 : Resolver) (draw draw2 : Draw)
    (now db_now now2 db_now2 : Time) (event : WebhookEvent) (t : Task) (db after : Database)
    {id : Text}
    → handle_webhook codec resolver draw now db_now event db ≡ (ok (some t), after)
    → ((repository : Text) → is_ok (repository_id_of resolver2 repository) ≡ true)
    → new_id draw2 ≡ some id
    → IsKnown t
        (handle_webhook codec resolver2 draw2 now2 db_now2 event (perform_all cs after))
        (perform_all cs after)
unfolding handle_webhook handle_event create_for
handle_webhook-once cs codec resolver resolver2 draw draw2 now db_now now2 db_now2 event t db after
      e answers drawn =
    handle_event-once cs codec resolver resolver2 draw draw2 now db_now now2 db_now2
      (event_from_webhook codec event) t db after e answers drawn
