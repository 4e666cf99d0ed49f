-- ===== src/Automations/Once.antt =====
-- A trigger key schedules one run of a template (`Trigger` of server/internal/automations).
use repo_mender.Prelude.{
  ◌≡◌, refl, sym, subst, ap, Bool, true, false, inl, inr, ◌⊎◌, none, some, List, [], ◌∷◌, ◌++◌,
  Text, text_eq, text_eq_iff, text_eq_refl, trim_space, is_some, find, find-append, not, ◌&&◌, ◌||◌,
  arith, Bool-cases, select, update_where,
}
use repo_mender.Prelude.Keyed.{find-select}
use repo_mender.Tasks.Types.{Task}
use repo_mender.Automations.Types.{
  Template, Run, TriggerInput, TriggerResult, scheduled, duplicate, refused,
}
use repo_mender.Automations.Store.{Tables, find_template}
use repo_mender.Automations.Trigger.{Draws, keys_fail, new_run, trigger_row}
use repo_mender.Automations.Service.{Service, Codec, trigger, trigger_noted, bad_trigger, prepared}
use repo_mender.Automations.Trace.{Call, perform, perform_all}
use repo_mender.Automations.Steps.{
  CreatesId, Step, stays, adds, changes, removes, schedules, perform-Step,
}
use repo_mender.Automations.Scheduling.{IsDue, trigger_row_cases, trigger_noted-tables}

-- No later creation draws the identifier again.
abbrev pub AllOther : Text → List Call → Type 0
AllOther id [] = Unit {0}
AllOther id (c ∷ cs) = (¬ (CreatesId c id)) × AllOther id cs

abbrev keyed : Text → Text → Run → Bool
keyed id key r = text_eq r.template_id id && text_eq r.trigger_key key

-- The template is gone, or has a run under the key.
abbrev IsSettled : Text → Text → List Template → List Run → Type 0
IsSettled id key templates runs =
    (find_template id templates ≡ none) ⊎ ((r : Run) × (find (keyed id key) runs ≡ some r))

-- A row with another identifier is not found where none was.
pub append-none :
    (id : Text) (rows : List Template) (t : Template)
    → find_template id rows ≡ none
    → text_eq t.id id ≡ false
    → find_template id (rows ++ t ∷ []) ≡ none
append-none id [] t e o = rw o
append-none id (u ∷ us) t e o = elim (Bool-cases (text_eq u.id id)) [
  | inl hit ↦ cc (rw hit at e)
  | inr miss ↦ rw miss (append-none id us t (rw miss at e) o)
]

pub update-none :
    (id : Text) (p : Template → Bool) (f : Template → Template) (rows : List Template)
    → ((t : Template) → (f t).id ≡ t.id)
    → find_template id rows ≡ none
    → find_template id (update_where p f rows) ≡ none
update-none id p f [] same e = refl
update-none id p f (u ∷ us) same e = ground (arith, same u, update-none id p f us same)

pub select-none :
    (id : Text) (p : Template → Bool) (rows : List Template)
    → find_template id rows ≡ none
    → find_template id (select p rows) ≡ none
select-none id p [] e = refl
select-none id p (u ∷ us) e = ground (arith, select-none id p us)

-- The deleted template is gone.
pub select-gone :
    (id : Text) (rows : List Template)
    → find_template id (select (λ t. not (text_eq t.id id)) rows) ≡ none
select-gone id [] = refl
select-gone id (u ∷ us) = ground (arith, select-gone id us)

IsSettled-Step :
    (id key : Text) (c : Call) (db : Tables) {after : Tables}
    → ¬ (CreatesId c id)
    → Step c db after
    → IsSettled id key db.templates db.runs
    → IsSettled id key after.templates after.runs
IsSettled-Step id key c db other (stays e f) h = rw (e, f) h
IsSettled-Step id key c db other (adds t new e f) (inl gone) =
    rw (e, f)
      (inl (
        append-none id db.templates t gone (elim (Bool-cases (text_eq t.id id)) [
          | inl same ↦ absurd (other (subst (CreatesId c) ((text_eq_iff t.id id).0 same) new))
          | inr differs ↦ differs
        ])))
IsSettled-Step id key c db other (adds t new e f) (inr (r, k)) = rw (e, f) (inr (r, k))
IsSettled-Step id key c db other (changes i g same more e f) (inl gone) =
    rw (e, f) (inl (update-none id _ g db.templates same gone))
IsSettled-Step id key c db other (changes i g same more e f) (inr (r, k)) = rw (e, f) (inr (r, k))
IsSettled-Step id key c db other (removes i e f) (inl gone) =
    rw (e, f) (inl (select-none id _ db.templates gone))
IsSettled-Step id key c db other (removes i e f) (inr (r, k)) = elim (Bool-cases (text_eq i id)) [
  | inl same ↦ rw (e, (text_eq_iff i id).0 same) (inl (select-gone id db.templates))
  | inr differs ↦
      rw (e, f)
        (inr (
          r,
          find-select (keyed id key) (λ (q : Run). not (text_eq q.template_id i)) db.runs {x = r}
              (λ q hit. ground (
                arith,
                text_eq_iff q.template_id id,
                text_eq_iff q.template_id i,
                text_eq_iff i id,
              ))
              k,
        ))
]
IsSettled-Step id key c db other (schedules q e f) (inl gone) = rw (e, f) (inl gone)
IsSettled-Step id key c db other (schedules q e f) (inr (r, k)) =
    rw (e, f) (inr (r, find-append (keyed id key) db.runs (q ∷ []) {x = r} k))

IsSettled-all :
    (codec : Codec) (id key : Text) (cs : List Call) (s : Service)
    → AllOther id cs
    → IsSettled id key s.tables.templates s.tables.runs
    → IsSettled id key
        (perform_all codec cs s).tables.templates
        (perform_all codec cs s).tables.runs
unfolding perform_all
IsSettled-all codec id key [] s o h = h
IsSettled-all codec id key (c ∷ cs) s o h =
    IsSettled-all codec id key cs (perform codec c s) o.1
      (IsSettled-Step id key c s.tables o.0 (perform-Step codec c s) h)

-- No run is scheduled.
abbrev pub IsUnscheduled : TriggerResult → Type 0
IsUnscheduled (scheduled r task) = ⊥
IsUnscheduled (duplicate r task status) = Unit {0}
IsUnscheduled (refused e) = Unit {0}

-- A member that passes is found behind any rows, and under any weaker test.
find-appended {ℓ} :
    {A : Type ℓ} (p : A → Bool) (xs : List A) (x : A)
    → p x ≡ true
    → (y : A) × (find p (xs ++ x ∷ []) ≡ some y)
find-appended p [] x h = (x, rw h)
find-appended p (z ∷ zs) x h = elim (Bool-cases (p z)) [
  | inl hit ↦ (z, rw hit)
  | inr miss ↦ let (y, e) = find-appended p zs x h in (y, rw miss e)
]

find-weaker {ℓ} :
    {A : Type ℓ} (p q : A → Bool) (xs : List A) {x : A}
    → ((y : A) → p y ≡ true → q y ≡ true)
    → find p xs ≡ some x
    → is_some (find q xs) ≡ true
find-weaker p q [] k e = cc
find-weaker p q (y ∷ ys) {x} k e = ground (arith, k y, find-weaker p q ys {x = x} k)

scheduled-settles :
    (codec : Codec) (draws : Draws) (input : TriggerInput) (s : Service) (r : Run) (task : Task)
    → (trigger codec draws input s).0 ≡ scheduled r task
    → IsSettled input.template_id
        (trim_space input.trigger_key)
        (trigger codec draws input s).1.tables.templates
        (trigger codec draws input s).1.tables.runs
unfolding trigger prepared new_run trigger_noted
scheduled-settles codec draws input s r task e = elim (Bool-cases (bad_trigger codec input)) [
  | inl bad ↦ cc (rw (bad, trigger) at e)
  | inr fine ↦
      let key = trim_space input.trigger_key in
      let p = prepared codec draws.now input in
      let settled =
        trigger_row_cases
          (λ o.
            (trigger_noted codec p o s).0 ≡ scheduled r task
            → IsSettled input.template_id key o.1.templates o.1.runs)
          codec.digest p s.tables (λ e q. cc) (λ v t k q. cc)
          (λ t kind id task_id at db_now due q. inr (
            find-appended (keyed input.template_id key) s.tables.runs (new_run id task_id at t p)
              (rw (due.named) (ground (arith, text_eq_refl t.id, text_eq_refl key)))))
          draws in
      rw (fine, trigger) (rw trigger_noted-tables (settled (rw (fine, trigger) at e)))
]

settled-undue :
    (task : Task) (r : Run) (t : Template) (input : TriggerInput) (db : Tables)
    → IsSettled input.template_id input.trigger_key db.templates db.runs
    → r.template_id ≡ input.template_id
    → r.trigger_key ≡ input.trigger_key
    → ¬ (IsDue t input task r db)
unfolding keys_fail
settled-undue task r t input db (inl gone) e f due = cc (rw (due.named) at gone, due.found)
settled-undue task r t input db (inr (q, k)) e f due =
    let taken =
      find-weaker (keyed input.template_id input.trigger_key)
        (λ (s : Run).
          text_eq s.id r.id
          || text_eq s.task_id r.task_id
          || (text_eq s.template_id r.template_id && text_eq s.trigger_key r.trigger_key))
        db.runs {x = q} (λ s hit. rw (e, f) (ground (arith, hit))) k in
    ground (arith, due.unique, taken)

settled-IsUnscheduled :
    (digest : Text → Text) (draws : Draws) (input : TriggerInput) (db : Tables)
    → IsSettled input.template_id input.trigger_key db.templates db.runs
    → ((trigger_row digest draws input db).1 ≡ db)
      × IsUnscheduled (trigger_row digest draws input db).0
unfolding new_run
settled-IsUnscheduled digest draws input db h =
    trigger_row_cases (λ o. (o.1 ≡ db) × IsUnscheduled o.0) digest input db (λ e. (refl, tt))
      (λ r task e. (refl, tt))
      (λ t kind id task_id at db_now due.
        absurd (settled-undue _ _ t input db h (sym due.named) refl due))
      draws

noted-IsUnscheduled :
    (codec : Codec) (input : TriggerInput) (o : TriggerResult × Tables) (s : Service)
    → o.1 ≡ s.tables
    → IsUnscheduled o.0
    → ((trigger_noted codec input o s).1 ≡ s) × IsUnscheduled (trigger_noted codec input o s).0
unfolding trigger_noted
noted-IsUnscheduled codec input (scheduled r task, db) s e u = absurd u
noted-IsUnscheduled codec input (duplicate r task status, db) s e u =
    (ap (λ (d : Tables). record s { tables = d }) e, tt)
noted-IsUnscheduled codec input (refused x, db) s e u =
    (ap (λ (d : Tables). record s { tables = d }) e, tt)

-- Once a call scheduled a run, whatever calls follow, of the service and of the task store, none of
-- which creates a template under the same drawn identifier: a further trigger of the template with
-- the same key, as trimmed, schedules nothing and changes nothing.
pub trigger-once :
    (codec : Codec) (draws draws' : Draws) (input input' : TriggerInput) (cs : List Call)
    (s : Service) (r : Run) (task : Task)
    → (trigger codec draws input s).0 ≡ scheduled r task
    → AllOther input.template_id cs
    → input'.template_id ≡ input.template_id
    → trim_space input'.trigger_key ≡ trim_space input.trigger_key
    → ((trigger codec draws' input' (perform_all codec cs (trigger codec draws input s).1)).1
        ≡ perform_all codec cs (trigger codec draws input s).1)
      × IsUnscheduled
          (trigger codec draws' input' (perform_all codec cs (trigger codec draws input s).1)).0
unfolding trigger prepared
trigger-once codec draws draws' input input' cs s r task e others same_id same_key =
    let before = perform_all codec cs (trigger codec draws input s).1 in
    let settled =
      IsSettled-all codec input.template_id (trim_space input.trigger_key) cs
        (trigger codec draws input s).1 others (scheduled-settles codec draws input s r task e) in
    elim (Bool-cases (bad_trigger codec input')) [
      | inl bad ↦ rw (bad, trigger) (refl, tt)
      | inr fine ↦
          let p = prepared codec draws'.now input' in
          let (same, unscheduled) =
            settled-IsUnscheduled codec.digest draws' p before.tables
              (rw (same_id, same_key) settled) in
          rw (fine, trigger)
            (noted-IsUnscheduled codec p (trigger_row codec.digest draws' p before.tables) before
              same unscheduled)
    ]
