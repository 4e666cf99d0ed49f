-- ===== src/Automations/Governed/Calls.antt =====
-- Every mutation of the automations (server/internal/automations/store.go and service.go) keeps the
-- runs governed by published versions.
use repo_mender.Prelude.{
  ◌≡◌, Bool, true, false, inl, inr, some, Text, text_eq, text_eq_iff, trim_space, not, ◌&&◌, ◌||◌,
  ℤ, pos, leb_ℤ, ◌==◌, ltb, arith, Bool-cases, Option-cases, Result-cases, select,
}
use repo_mender.Prelude.Keyed.{All-select, find-select, select-IsDistinct}
use repo_mender.Tasks.Types.{Time}
use repo_mender.Automations.Types.{Input, Template, Version, validate}
use repo_mender.Automations.Store.{
  Tables, find_template, update_found, update_draft_row, lock_template, publish_found, publish_row,
  set_enabled_found, set_enabled_row, same_flag, deleted, delete_row, name_taken, stored_input,
}
use repo_mender.Automations.Scheduling.{found_self, lock_template_cases}
use repo_mender.Automations.Governed.{
  IsConsistent, IsCurrent, IsGoverned, template_key, edit-IsConsistent, publish-IsConsistent,
}

module _ (db : Tables) (h : IsConsistent db) where
  pub update_draft-IsConsistent :
      (now : Time) (id : Text) (expected : ℤ) (input : Input) (actor : Text)
      → IsConsistent (update_draft_row now id expected input actor db).1
  unfolding update_draft_row update_found
  update_draft-IsConsistent now id expected input actor = elim (Bool-cases (validate input)) [
    | inr bad ↦ rw (bad, update_draft_row) h
    | inl valid ↦ elim (Bool-cases (leb_ℤ expected (pos 0))) [
      | inl bad ↦ rw (valid, bad, update_draft_row) h
      | inr positive ↦ elim (Option-cases (find_template id db.templates)) [
        | inl missing ↦ rw (valid, positive, missing, update_draft_row) h
        | inr (t, k) ↦
            rw (valid, positive, k, update_draft_row) (found t (found_self id db.templates k) valid)
      ]
    ]
  ]
    where
      found :
          (t : Template)
          → find_template t.id db.templates ≡ some t
          → validate input ≡ true
          → IsConsistent (update_found now expected input actor t db).1
      found t k valid =
          elim (Bool-cases
            (not (leb_ℤ (pos t.revision) expected && leb_ℤ expected (pos t.revision)))) [
              | inl stale ↦ rw (stale, update_found) h
              | inr current ↦ elim (Bool-cases t.enabled) [
                | inl on ↦ rw (current, on, update_found) h
                | inr off ↦
                    elim (Bool-cases (name_taken t.id (stored_input input).name db.templates)) [
                      | inl taken ↦ rw (current, off, taken, update_found) h
                      | inr free ↦
                          rw (current, off, free, update_found)
                            (edit-IsConsistent db h t k now input actor off valid)
                    ]
              ]
            ]

  pub publish-IsConsistent_row :
      (now : Time) (id : Text) (expected : ℤ) (actor : Text)
      → IsConsistent (publish_row now id expected actor db).1
  unfolding publish_row publish_found
  publish-IsConsistent_row now id expected actor =
      elim (Result-cases (lock_template id expected db)) [
        | inr (e, bad) ↦ rw (bad, publish_row) h
        | inl (t, k) ↦
            rw (k, publish_row)
              (found t
                (found_self (trim_space id) db.templates (lock_template_cases id expected db k)))
      ]
    where
      found :
          (t : Template)
          → find_template t.id db.templates ≡ some t
          → IsConsistent (publish_found now actor t db).1
      found t k = elim (Bool-cases (ltb 0 t.version && t.enabled)) [
        | inl on ↦ rw (on, publish_found) h
        | inr off ↦ elim (Bool-cases (validate t.input)) [
          | inr bad ↦ rw (off, bad, publish_found) h
          | inl valid ↦
              rw (off, valid, publish_found) (publish-IsConsistent db h t k now actor false)
        ]
      ]

  pub set_enabled-IsConsistent :
      (now : Time) (id : Text) (expected : ℤ) (enabled : Bool) (actor : Text)
      → IsConsistent (set_enabled_row now id expected enabled actor db).1
  unfolding set_enabled_row set_enabled_found
  set_enabled-IsConsistent now id expected enabled actor =
      elim (Result-cases (lock_template id expected db)) [
        | inr (e, bad) ↦ rw (bad, set_enabled_row) h
        | inl (t, k) ↦
            rw (k, set_enabled_row)
              (found t
                (found_self (trim_space id) db.templates (lock_template_cases id expected db k)))
      ]
    where
      found :
          (t : Template)
          → find_template t.id db.templates ≡ some t
          → IsConsistent (set_enabled_found now enabled actor t db).1
      found t k = elim (Bool-cases (t.version == 0)) [
        | inl draft ↦ rw (draft, set_enabled_found) h
        | inr numbered ↦ elim (Bool-cases (same_flag t.enabled enabled)) [
          | inl same ↦ rw (numbered, same, set_enabled_found) h
          | inr other ↦
              rw (numbered, other, set_enabled_found)
                (publish-IsConsistent db h t k now actor enabled)
        ]
      ]

  -- The versions of the templates that stay, stay.
  deleted-IsConsistent : (id : Text) → IsConsistent (deleted id db)
  unfolding deleted
  deleted-IsConsistent id =
      let spared = λ (v : Version). not (text_eq v.template_id id) in
      record {
        distinct =
            select-IsDistinct template_key (λ t. not (text_eq t.id id)) db.templates h.distinct;
        current =
            All-select (IsCurrent db.versions) (IsCurrent (select spared db.versions))
              (λ t. not (text_eq t.id id)) db.templates
              (λ t p c. record {
                vetted = c.vetted;
                published = λ on.
                    let (v, e, f, g) = c.published on in
                    (
                      v,
                      find-select _ spared db.versions {x = v}
                          (λ w q. ground (arith, p, q, text_eq_iff w.template_id t.id)) e,
                      f,
                      g,
                    );
              })
              h.current;
        governed =
            All-select (IsGoverned db.versions) (IsGoverned (select spared db.versions))
              (λ r. not (text_eq r.template_id id)) db.runs
              (λ r p c.
                let (v, e, f, g, b, m) = c in
                (
                  v,
                  find-select _ spared db.versions {x = v}
                      (λ w q. ground (arith, p, q, text_eq_iff w.template_id r.template_id)) e,
                  f,
                  g,
                  b,
                  m,
                ))
              h.governed;
      }

  pub delete-IsConsistent : (id : Text) (expected : ℤ) → IsConsistent (delete_row id expected db).1
  unfolding delete_row
  delete-IsConsistent id expected = elim (Option-cases (find_template id db.templates)) [
    | inl missing ↦ rw (missing, delete_row) h
    | inr (t, k) ↦
        elim (Bool-cases
          (not (leb_ℤ (pos t.revision) expected && leb_ℤ expected (pos t.revision)) || t.enabled)) [
            | inl bad ↦ rw (k, bad, delete_row) h
            | inr fine ↦ rw (k, fine, delete_row) (deleted-IsConsistent id)
          ]
  ]
