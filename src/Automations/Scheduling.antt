-- ===== src/Automations/Scheduling.antt =====
-- The ways in which `lockTemplate` and `Trigger` of server/internal/automations/store.go end, and what
-- the audit entries of server/internal/automations/service.go leave alone.
use repo_mender.Prelude.{
  refl, Result, ◌≡◌, sym, subst, true, false, inl, inr, Option, none, some, List, [], ◌∷◌, ◌++◌,
  Text, text_eq, text_eq_iff, trim_space, find-pass, not, ◌&&◌, ℤ, pos, leb_ℤ, ok, err, is_blank,
  arith, Bool-cases, Option-cases, Result-cases,
}
use repo_mender.Tasks.Status.{Kind}
use repo_mender.Tasks.Types.{Time, Task}
use repo_mender.Tasks.Tables.{find_task}
use repo_mender.Automations.Types.{
  Template, Run, TriggerInput, TriggerResult, scheduled, duplicate, refused, Error, matches,
}
use repo_mender.Automations.Store.{Tables, find_template, lock_template}
use repo_mender.Automations.Service.{
  Service, Codec, Value, template_noted, delete_noted, trigger_noted, record_audit,
}
use repo_mender.Automations.Trigger.{
  Draws, active, find_keyed, insert_run, insert_typed, keys_fail, new_run, new_task, trigger_new,
  trigger_keyed, trigger_locked, trigger_row,
}

-- A row that was found is found by its own identifier.
pub found_self :
    (id : Text) (rows : List Template) {t : Template}
    → find_template id rows ≡ some t
    → find_template t.id rows ≡ some t
found_self id rows {t} e =
    let same : t.id ≡ id =
      (text_eq_iff t.id id).0 (find-pass (λ (u : Template). text_eq u.id id) rows {x = t} e) in
    subst (λ (i : Text). find_template i rows ≡ some t) (sym same) e

pub lock_template_cases :
    (id : Text) (expected : ℤ) (db : Tables) {t : Template}
    → lock_template id expected db ≡ ok t
    → find_template (trim_space id) db.templates ≡ some t
unfolding lock_template
lock_template_cases id expected db {t} e =
    elim (Option-cases (find_template (trim_space id) db.templates)) [
      | inl missing ↦ cc (rw (missing, lock_template) at e)
      | inr (u, k) ↦
          elim (Bool-cases (
            not (leb_ℤ expected (pos 0))
            && not (leb_ℤ (pos u.revision) expected && leb_ℤ expected (pos u.revision)))) [
              | inl bad ↦ cc (rw (k, bad, lock_template) at e)
              | inr fine ↦ ground (arith, k, (rw (k, fine, lock_template) at e))
            ]
    ]

-- The tables with a run and its task.
abbrev pub with_run : Run → Task → Tables → Tables
with_run r task db = record db {
  runs = db.runs ++ r ∷ [];
  tasks = record (db.tasks) { tasks = db.tasks.tasks ++ task ∷ [] };
}

-- What was checked before a run is scheduled.
pub record IsDue (t : Template) (input : TriggerInput) (task : Task) (r : Run) (db : Tables)
    : Type 0 where
  pub found : find_template t.id db.templates ≡ some t
  pub enabled : t.enabled ≡ true
  pub matching :
      matches t.enabled t.input input.provider input.event input.action input.branch
        input.repository
      ≡ true
  pub named : input.template_id ≡ t.id
  pub unkeyed : find_keyed input.template_id input.trigger_key db ≡ none
  pub room : leb_ℤ t.input.concurrency_limit (pos (active input.template_id db)) ≡ false
  pub unique : keys_fail task r db ≡ false

module _ {ℓ} (P : TriggerResult × Tables → Type ℓ) (digest : Text → Text) (input : TriggerInput)
    (db : Tables) (refusing : (e : Error) → P (refused e, db))
    (repeating : (r : Run) (task : Task)
      → find_keyed input.template_id input.trigger_key db ≡ some r
      → P (duplicate r task task.status, db))
    (scheduling : (t : Template) (kind : Kind) (id task_id : Text) (at db_now : Time)
      → IsDue t input
          (new_task digest task_id kind at db_now t input)
          (new_run id task_id at t input)
          db
      → P (
        scheduled (new_run id task_id at t input) (new_task digest task_id kind at db_now t input),
        with_run
            (new_run id task_id at t input)
            (new_task digest task_id kind at db_now t input)
            db,
      )) where
  module _ (t : Template) (k : find_template t.id db.templates ≡ some t) (on : t.enabled ≡ true)
      (m : matches t.enabled t.input input.provider input.event input.action input.branch
          input.repository
        ≡ true)
      (n : input.template_id ≡ t.id) (u : find_keyed input.template_id input.trigger_key db ≡ none)
      (room : leb_ℤ t.input.concurrency_limit (pos (active input.template_id db)) ≡ false) where
    typed_cases :
        (kind : Option Kind) (a b : Option Text) (at db_now : Time)
        → P (insert_typed digest kind a b at db_now t input db)
    unfolding insert_typed insert_run
    typed_cases kind none b at db_now = refusing _
    typed_cases kind (some a) none at db_now = refusing _
    typed_cases none (some a) (some b) at db_now = refusing _
    typed_cases (some kind) (some a) (some b) at db_now =
        elim (Bool-cases
          (keys_fail (new_task digest a kind at db_now t input) (new_run b a at t input) db)) [
            | inl bad ↦ rw (bad, insert_run) (refusing _)
            | inr free ↦
                rw (free, insert_run)
                  (scheduling t kind b a at db_now (record {
                    found = k;
                    enabled = on;
                    matching = m;
                    named = n;
                    unkeyed = u;
                    room = room;
                    unique = free;
                  }))
          ]

  keyed_cases :
      (r : Run)
      → find_keyed input.template_id input.trigger_key db ≡ some r
      → P (trigger_keyed r db)
  unfolding trigger_keyed
  keyed_cases r e = elim (Option-cases (find_task r.task_id db.tasks.tasks)) [
    | inl missing ↦ rw (missing, trigger_keyed) (refusing _)
    | inr (t, q) ↦ rw (q, trigger_keyed) (repeating r t e)
  ]

  locked_cases :
      (draws : Draws) (t : Template)
      → find_template t.id db.templates ≡ some t
      → P (trigger_locked digest draws t input db)
  unfolding trigger_locked trigger_new
  locked_cases draws t k = elim (Bool-cases t.enabled) [
    | inr off ↦ rw (off, trigger_locked) (refusing _)
    | inl on ↦
        elim (Bool-cases (
          matches t.enabled t.input input.provider input.event input.action input.branch
            input.repository)) [
              | inr other ↦ rw (other, on, trigger_locked) (refusing _)
              | inl m ↦ elim (Bool-cases (text_eq input.template_id t.id)) [
                | inr bad ↦ rw (m, on, bad, trigger_locked) (refusing _)
                | inl same ↦
                    elim (Option-cases (find_keyed input.template_id input.trigger_key db)) [
                      | inr (r, e) ↦ rw (m, on, same, e, trigger_locked) (keyed_cases r e)
                      | inl new ↦
                          rw (m, on, same, new, trigger_locked)
                            (new_cases draws t k on m ((text_eq_iff _ _).0 same) new)
                    ]
              ]
            ]
  ]
    where
      new_cases :
          (draws : Draws) (t : Template)
          → find_template t.id db.templates ≡ some t
          → t.enabled ≡ true
          → matches t.enabled t.input input.provider input.event input.action input.branch
              input.repository
            ≡ true
          → input.template_id ≡ t.id
          → find_keyed input.template_id input.trigger_key db ≡ none
          → P (trigger_new digest draws t input db)
      new_cases draws t k on m n u =
          elim (Bool-cases (leb_ℤ t.input.concurrency_limit (pos (active input.template_id db)))) [
            | inl full ↦ rw (full, trigger_new) (refusing _)
            | inr room ↦ elim (Bool-cases (is_blank input.actor_id)) [
              | inl blank ↦ rw (room, blank, trigger_new) (refusing _)
              | inr named ↦ rw (room, named, trigger_new) (typed_cases t k on m n u room _ _ _ _ _)
            ]
          ]

  -- A call of `Trigger` is refused, or repeats a run, or schedules one; the first two leave the
  -- tables alone.
  pub trigger_row_cases : (draws : Draws) → P (trigger_row digest draws input db)
  unfolding trigger_row
  trigger_row_cases draws = elim (Result-cases (lock_template input.template_id (pos 0) db)) [
    | inr (e, bad) ↦ rw (bad, trigger_row) (refusing e)
    | inl (t, k) ↦
        rw (k, trigger_row)
          (locked_cases draws t (
            found_self (trim_space input.template_id) db.templates
              (lock_template_cases input.template_id (pos 0) db k)))
  ]

-- Audit entries leave the tables alone.
pub record_audit-tables :
    (actor action resource : Text) (metadata : List (Text × Value)) (s : Service)
    → (record_audit actor action resource metadata s).tables ≡ s.tables
unfolding record_audit
record_audit-tables actor action resource metadata s = ground arith

pub template_noted-tables :
    (actor action : Text) (metadata : Template → List (Text × Value))
    (o : Result Error Template × Tables) (s : Service)
    → (template_noted actor action metadata o s).1.tables ≡ o.1
unfolding template_noted
template_noted-tables actor action metadata (err e, db) s = refl
template_noted-tables actor action metadata (ok t, db) s =
    record_audit-tables actor action t.id (metadata t) _

pub delete_noted-tables :
    (actor id : Text) (o : Result Error (Unit {0}) × Tables) (s : Service)
    → (delete_noted actor id o s).1.tables ≡ o.1
unfolding delete_noted
delete_noted-tables actor id (err e, db) s = refl
delete_noted-tables actor id (ok u, db) s = record_audit-tables actor _ id [] _

pub trigger_noted-tables :
    (codec : Codec) (input : TriggerInput) (o : TriggerResult × Tables) (s : Service)
    → (trigger_noted codec input o s).1.tables ≡ o.1
unfolding trigger_noted
trigger_noted-tables codec input (refused e, db) s = refl
trigger_noted-tables codec input (duplicate r task status, db) s = refl
trigger_noted-tables codec input (scheduled r task, db) s = record_audit-tables _ _ _ _ _
