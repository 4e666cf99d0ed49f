-- ===== src/Automations/Steps.antt =====
-- What one call does to the templates and the runs (server/internal/automations/store.go and
-- service.go), as a step relation.
use repo_mender.Prelude.{
  ◌+◌, ◌≡◌, refl, Bool, false, inl, inr, some, [], ◌∷◌, ◌++◌, Text, text_eq, trim_space, is_some,
  select, not, ◌&&◌, ◌||◌, ℤ, pos, leb_ℤ, Bool-cases, Option-cases, Result-cases, ltb, ◌==◌,
}
use repo_mender.Ids.{Draw}
use repo_mender.Tasks.Types.{Time}
use repo_mender.Automations.Types.{Input, Template, Run, TriggerInput, validate}
use repo_mender.Automations.Store.{
  Tables, new_id, find_template, update_template, new_template, create_row, create_drawn,
  insert_template, name_taken, stored_input, edited_template, update_found, update_draft_row,
  lock_template, find_version, published_template, publish_locked, publish_found, publish_row,
  set_enabled_found, set_enabled_row, same_flag, deleted, delete_row,
}
use repo_mender.Automations.Trigger.{Draws, new_run, trigger_row}
use repo_mender.Automations.Service.{
  Service, Codec, create, update_draft, publish, set_enabled, delete, trigger, bad_trigger,
  prepared,
}
use repo_mender.Automations.Trace.{
  Call, creating, editing, publishing, switching, deleting, triggering, working, perform,
}
use repo_mender.Automations.Scheduling.{
  trigger_row_cases, template_noted-tables, delete_noted-tables, trigger_noted-tables,
}

-- The call is a creation that draws the identifier.
abbrev pub CreatesId : Call → Text → Type 0
CreatesId (creating draw now input actor) id = new_id draw ≡ some id
CreatesId _ id = ⊥

pub data Step (c : Call) (db : Tables) : Tables → Type 0 where
  stays : {after : Tables} → after.templates ≡ db.templates → after.runs ≡ db.runs → Step c db after
  adds :
      {after : Tables} (t : Template)
      → CreatesId c t.id
      → after.templates ≡ db.templates ++ t ∷ []
      → after.runs ≡ db.runs
      → Step c db after
  changes :
      {after : Tables} (id : Text) (f : Template → Template)
      → ((t : Template) → (f t).id ≡ t.id)
      → ((t : Template) → (f t).revision ≡ t.revision + 1)
      → after.templates ≡ update_template id f db.templates
      → after.runs ≡ db.runs
      → Step c db after
  removes :
      {after : Tables} (id : Text)
      → after.templates ≡ select (λ t. not (text_eq t.id id)) db.templates
      → after.runs ≡ select (λ r. not (text_eq r.template_id id)) db.runs
      → Step c db after
  schedules :
      {after : Tables} (r : Run)
      → after.templates ≡ db.templates
      → after.runs ≡ db.runs ++ r ∷ []
      → Step c db after

module _ (c : Call) (db : Tables) where
  create-Step :
      (draw : Draw) (now : Time) (input : Input) (actor : Text)
      → ((id : Text) → new_id draw ≡ some id → CreatesId c id)
      → Step c db (create_row draw now input actor db).1
  unfolding create_row create_drawn insert_template new_template
  create-Step draw now input actor drawn = elim (Bool-cases (validate input)) [
    | inr bad ↦ rw (bad, create_row) (stays refl refl)
    | inl valid ↦ elim (Option-cases (new_id draw)) [
      | inl dry ↦ rw (valid, dry, create_row, create_drawn) (stays refl refl)
      | inr (id, e) ↦
          elim (Bool-cases (
            is_some (find_template id db.templates)
            || name_taken id (stored_input input).name db.templates)) [
              | inl bad ↦
                  rw (valid, e, create_row, create_drawn, bad, insert_template) (stays refl refl)
              | inr free ↦
                  rw (valid, e, create_row, create_drawn, free, insert_template)
                    (adds (new_template id now input actor) (drawn id e) refl refl)
            ]
    ]
  ]

  publish_locked-Step :
      (now : Time) (actor : Text) (enabled : Bool) (t : Template)
      → Step c db (publish_locked now actor enabled t db).1
  unfolding publish_locked published_template
  publish_locked-Step now actor enabled t =
      elim (Bool-cases (is_some (find_version t.id (t.version + 1) db.versions))) [
        | inl taken ↦ rw (taken, publish_locked) (stays refl refl)
        | inr free ↦
            rw (free, publish_locked)
              (changes t.id (published_template now actor enabled) (λ u. refl) (λ u. refl) refl
                refl)
      ]

  update_found-Step :
      (now : Time) (expected : ℤ) (input : Input) (actor : Text) (t : Template)
      → Step c db (update_found now expected input actor t db).1
  unfolding update_found edited_template
  update_found-Step now expected input actor t =
      elim (Bool-cases (not (leb_ℤ (pos t.revision) expected && leb_ℤ expected (pos t.revision)))) [
        | inl stale ↦ rw (stale, update_found) (stays refl refl)
        | inr current ↦ elim (Bool-cases t.enabled) [
          | inl on ↦ rw (current, on, update_found) (stays refl refl)
          | inr off ↦ elim (Bool-cases (name_taken t.id (stored_input input).name db.templates)) [
            | inl taken ↦ rw (current, off, taken, update_found) (stays refl refl)
            | inr free ↦
                rw (current, off, free, update_found)
                  (changes t.id (edited_template now input actor) (λ u. refl) (λ u. refl) refl refl)
          ]
        ]
      ]

  update_draft-Step :
      (now : Time) (id : Text) (expected : ℤ) (input : Input) (actor : Text)
      → Step c db (update_draft_row now id expected input actor db).1
  unfolding update_draft_row
  update_draft-Step now id expected input actor = elim (Bool-cases (validate input)) [
    | inr bad ↦ rw (bad, update_draft_row) (stays refl refl)
    | inl valid ↦ elim (Bool-cases (leb_ℤ expected (pos 0))) [
      | inl bad ↦ rw (valid, bad, update_draft_row) (stays refl refl)
      | inr positive ↦ elim (Option-cases (find_template id db.templates)) [
        | inl missing ↦ rw (valid, positive, missing, update_draft_row) (stays refl refl)
        | inr (t, k) ↦
            rw (valid, positive, k, update_draft_row) (update_found-Step now expected input actor t)
      ]
    ]
  ]

  publish-Step :
      (now : Time) (id : Text) (expected : ℤ) (actor : Text)
      → Step c db (publish_row now id expected actor db).1
  unfolding publish_row publish_found
  publish-Step now id expected actor = elim (Result-cases (lock_template id expected db)) [
    | inr (e, bad) ↦ rw (bad, publish_row) (stays refl refl)
    | inl (t, k) ↦ elim (Bool-cases (ltb 0 t.version && t.enabled)) [
      | inl on ↦ rw (k, publish_row, on, publish_found) (stays refl refl)
      | inr off ↦ elim (Bool-cases (validate t.input)) [
        | inr bad ↦ rw (k, publish_row, off, bad, publish_found) (stays refl refl)
        | inl valid ↦
            rw (k, publish_row, off, valid, publish_found) (publish_locked-Step now actor false t)
      ]
    ]
  ]

  set_enabled-Step :
      (now : Time) (id : Text) (expected : ℤ) (enabled : Bool) (actor : Text)
      → Step c db (set_enabled_row now id expected enabled actor db).1
  unfolding set_enabled_row set_enabled_found
  set_enabled-Step now id expected enabled actor =
      elim (Result-cases (lock_template id expected db)) [
        | inr (e, bad) ↦ rw (bad, set_enabled_row) (stays refl refl)
        | inl (t, k) ↦ elim (Bool-cases (t.version == 0)) [
          | inl draft ↦ rw (k, set_enabled_row, draft, set_enabled_found) (stays refl refl)
          | inr numbered ↦ elim (Bool-cases (same_flag t.enabled enabled)) [
            | inl same ↦
                rw (k, set_enabled_row, numbered, same, set_enabled_found) (stays refl refl)
            | inr other ↦
                rw (k, set_enabled_row, numbered, other, set_enabled_found)
                  (publish_locked-Step now actor enabled t)
          ]
        ]
      ]

  delete-Step : (id : Text) (expected : ℤ) → Step c db (delete_row id expected db).1
  unfolding delete_row deleted
  delete-Step id expected = elim (Option-cases (find_template id db.templates)) [
    | inl missing ↦ rw (missing, delete_row) (stays refl refl)
    | inr (t, k) ↦
        elim (Bool-cases
          (not (leb_ℤ (pos t.revision) expected && leb_ℤ expected (pos t.revision)) || t.enabled)) [
            | inl bad ↦ rw (k, bad, delete_row) (stays refl refl)
            | inr fine ↦ rw (k, fine, delete_row) (removes id refl refl)
          ]
  ]

  trigger-Step :
      (digest : Text → Text) (draws : Draws) (input : TriggerInput)
      → Step c db (trigger_row digest draws input db).1
  trigger-Step digest draws input =
      trigger_row_cases (λ r. Step c db r.1) digest input db (λ e. stays refl refl)
        (λ r task e. stays refl refl)
        (λ t kind id task_id at db_now due. schedules (new_run id task_id at t input) refl refl)
        draws

-- Every call is such a step.
pub perform-Step :
    (codec : Codec) (c : Call) (s : Service) → Step c s.tables (perform codec c s).tables
unfolding perform create update_draft publish set_enabled delete trigger
perform-Step codec (creating draw now input actor) s = elim (Bool-cases (validate input)) [
  | inr bad ↦ rw (bad, perform, create) (stays refl refl)
  | inl valid ↦
      rw (valid, perform, create)
        (rw template_noted-tables (create-Step _ s.tables draw now input actor (λ id e. e)))
]
perform-Step codec (editing now id expected input actor) s = elim (Bool-cases (validate input)) [
  | inr bad ↦ rw (bad, perform, update_draft) (stays refl refl)
  | inl valid ↦
      rw (valid, perform, update_draft)
        (rw template_noted-tables
          (update_draft-Step _ s.tables now (trim_space id) expected input actor))
]
perform-Step codec (publishing now id expected actor) s =
    rw template_noted-tables (publish-Step _ s.tables now (trim_space id) expected actor)
perform-Step codec (switching now id expected enabled actor) s =
    rw template_noted-tables
      (set_enabled-Step _ s.tables now (trim_space id) expected enabled actor)
perform-Step codec (deleting id expected actor) s =
    rw delete_noted-tables (delete-Step _ s.tables (trim_space id) expected)
perform-Step codec (triggering draws input) s = elim (Bool-cases (bad_trigger codec input)) [
  | inl bad ↦ rw (bad, perform, trigger) (stays refl refl)
  | inr fine ↦
      rw (fine, perform, trigger)
        (rw trigger_noted-tables
          (trigger-Step _ s.tables codec.digest draws (prepared codec draws.now input)))
]
perform-Step codec (working w) s = stays refl refl
