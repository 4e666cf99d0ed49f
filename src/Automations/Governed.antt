-- ===== src/Automations/Governed.antt =====
-- Every run of a template goes back to a published version (server/internal/automations/store.go).
pub mod Calls
pub mod Trace
use repo_mender.Prelude.{
  ◌+◌, ◌≡◌, refl, sym, subst, ap, Bool, true, false, inl, inr, Option, none, some, List, [], ◌∷◌,
  ◌++◌, Text, text_eq, text_eq_iff, text_eq_refl, trim_space, is_some, All, All-append, All-find,
  All-weaken, update_where, find, find-append, find-pass, not, ◌&&◌, ◌||◌, ℤ, pos, leb_ℤ, Result,
  ok, err, ◌==◌, ltb, arith, Bool-cases, Option-cases, Result-cases,
}
use repo_mender.Prelude.Keyed.{
  IsDistinct, Lacks, All-update, All-select, find-select, append-IsDistinct, update-IsDistinct,
  select-IsDistinct, find-none-Lacks,
}
use repo_mender.Ids.{Draw}
use repo_mender.Tasks.Types.{Time, Task}
use repo_mender.Automations.Types.{
  Input, Template, Version, Run, TriggerInput, TriggerResult, Error, validate, matches,
}
use repo_mender.Automations.Store.{
  Tables, new_id, find_template, stored_input, new_template, create_row, create_drawn,
  insert_template, name_taken, edited_template, update_found, update_draft_row, lock_template,
  find_version, new_version, published_template, publish_locked, publish_found, publish_row,
  set_enabled_found, set_enabled_row, same_flag, deleted, delete_row,
}

-- The configuration is that of a valid input, trimmed.
abbrev pub IsVetted : Input → Type 0
IsVetted c = (i : Input) × (validate i ≡ true) × (c ≡ stored_input i)

-- An enabled template has the configuration of its last version, which was published as enabled.
abbrev pub IsPublished : List Version → Template → Type 0
IsPublished versions t =
    (v : Version) × (find_version t.id t.version versions ≡ some v)
    × (v.enabled ≡ true)
    × (v.config ≡ t.input)

pub record IsCurrent (versions : List Version) (t : Template) : Type 0 where
  pub vetted : IsVetted t.input
  pub published : t.enabled ≡ true → IsPublished versions t

-- The run goes back to a version that was published as enabled, has the configuration of a valid
-- input, and matches the run's event on some branch.
abbrev pub IsGoverned : List Version → Run → Type 0
IsGoverned versions r =
    (v : Version) × (find_version r.template_id r.template_version versions ≡ some v)
    × (v.enabled ≡ true)
    × IsVetted v.config
    × (branch : Text) × (matches true v.config r.provider r.event r.action branch r.repository
        ≡ true)

abbrev pub template_key : Template → Text
template_key t = t.id

pub record IsConsistent (db : Tables) : Type 0 where
  pub distinct : IsDistinct template_key db.templates
  pub current : All (IsCurrent db.versions) db.templates
  pub governed : All (IsGoverned db.versions) db.runs

-- A new version changes no version that is there.
module _ (versions : List Version) (v : Version) where
  pub grown_template : (t : Template) → IsCurrent versions t → IsCurrent (versions ++ v ∷ []) t
  grown_template t h = record {
    vetted = h.vetted;
    published = λ on.
        let (w, e, f, c) = h.published on in (w, find-append _ versions (v ∷ []) {x = w} e, f, c);
  }

  pub grown_run : (r : Run) → IsGoverned versions r → IsGoverned (versions ++ v ∷ []) r
  grown_run r h =
      let (w, e, f, c, b, m) = h in (w, find-append _ versions (v ∷ []) {x = w} e, f, c, b, m)

-- Behind the versions of one template, of which none has the number, the new one is found.
find-new :
    (v : Version) (versions : List Version)
    → find_version v.template_id v.version versions ≡ none
    → find_version v.template_id v.version (versions ++ v ∷ []) ≡ some v
find-new v [] e = ground (arith, text_eq_refl v.template_id)
find-new v (w ∷ ws) e =
    elim (Bool-cases (text_eq w.template_id v.template_id && w.version == v.version)) [
      | inl hit ↦ cc (rw hit at e)
      | inr miss ↦ rw miss (find-new v ws (rw miss at e))
    ]

module _ (db : Tables) (h : IsConsistent db) where
  insert-IsConsistent :
      (id : Text) (now : Time) (input : Input) (actor : Text)
      → validate input ≡ true
      → IsConsistent (insert_template (new_template id now input actor) db).1
  unfolding insert_template new_template
  insert-IsConsistent id now input actor valid =
      elim (Bool-cases (
        is_some (find_template id db.templates)
        || name_taken id (stored_input input).name db.templates)) [
          | inl bad ↦ rw (bad, insert_template) h
          | inr free ↦
              let fresh : find_template id db.templates ≡ none = ground (arith, free) in
              rw (free, insert_template)
                (record {
                  distinct =
                      append-IsDistinct template_key (new_template id now input actor) db.templates
                        (find-none-Lacks template_key id db.templates fresh) h.distinct;
                  current =
                      All-append (IsCurrent db.versions) db.templates
                        (new_template id now input actor ∷ []) h.current
                        (record { vetted = (input, valid, refl); published = λ on. cc }, tt);
                  governed = h.governed;
                })
        ]

  pub create-IsConsistent :
      (draw : Draw) (now : Time) (input : Input) (actor : Text)
      → IsConsistent (create_row draw now input actor db).1
  unfolding create_row create_drawn
  create-IsConsistent draw now input actor = elim (Bool-cases (validate input)) [
    | inr bad ↦ rw (bad, create_row) h
    | inl valid ↦ elim (Option-cases (new_id draw)) [
      | inl dry ↦ rw (valid, dry, create_row, create_drawn) h
      | inr (id, e) ↦
          rw (valid, e, create_row, create_drawn) (insert-IsConsistent id now input actor valid)
    ]
  ]

  -- The row that is locked.
  module _ (t : Template) (k : find_template t.id db.templates ≡ some t) where
    pub IsCurrent-row : IsCurrent db.versions t
    IsCurrent-row = All-find (IsCurrent db.versions) _ db.templates {x = t} h.current k

    pub edit-IsConsistent :
        (now : Time) (input : Input) (actor : Text)
        → t.enabled ≡ false
        → validate input ≡ true
        → IsConsistent (record db {
          templates =
              update_where (λ u. text_eq u.id t.id) (edited_template now input actor) db.templates;
        })
    unfolding edited_template
    edit-IsConsistent now input actor off valid = record {
      distinct =
          update-IsDistinct template_key _ (edited_template now input actor) db.templates
            (λ u. refl) h.distinct;
      current =
          All-update template_key (IsCurrent db.versions) (IsCurrent db.versions) t.id
            (edited_template now input actor) t db.templates h.distinct k (λ u l c. c)
            (λ c. record { vetted = (input, valid, refl); published = λ on. cc }) h.current;
      governed = h.governed;
    }

    pub publish-IsConsistent :
        (now : Time) (actor : Text) (enabled : Bool)
        → IsConsistent (publish_locked now actor enabled t db).1
    unfolding publish_locked published_template new_version
    publish-IsConsistent now actor enabled =
        elim (Option-cases (find_version t.id (t.version + 1) db.versions)) [
          | inr (v, e) ↦ rw (e, publish_locked) h
          | inl free ↦
              let v = new_version now actor (published_template now actor enabled t) in
              rw (free, publish_locked)
                (record {
                  distinct =
                      update-IsDistinct template_key _ (published_template now actor enabled)
                        db.templates (λ u. refl) h.distinct;
                  current =
                      All-update template_key (IsCurrent db.versions)
                        (IsCurrent (db.versions ++ v ∷ [])) t.id
                        (published_template now actor enabled) t db.templates h.distinct k
                        (λ u l c. grown_template db.versions v u c)
                        (λ c. record {
                          vetted = c.vetted;
                          published = λ on. (v, find-new v db.versions free, on, refl);
                        })
                        h.current;
                  governed =
                      All-weaken (IsGoverned db.versions) (IsGoverned (db.versions ++ v ∷ []))
                        db.runs (grown_run db.versions v) h.governed;
                })
        ]
