-- ===== src/Automations/Revisions.antt =====
-- The optimistic lock of the templates: an edit, and calls that still expect the revision before it
-- (server/internal/automations/store.go and service.go).
use repo_mender.Prelude.{
  ℕ, ◌+◌, ◌≤◌, ◌<◌, ◌≡◌, refl, sym, subst, true, false, inl, inr, ◌⊎◌, none, some, List, [], ◌∷◌,
  Text, text_eq, text_eq_iff, text_eq_refl, trim_space, find-append, find-map, not, ◌&&◌, ◌||◌, ℤ,
  pos, leb_ℤ, Result, ok, err, arith, Bool-cases, Option-cases, if◌then◌else◌, update_where,
}
use repo_mender.Prelude.Keyed.{find-select}
use repo_mender.Tasks.Types.{Time}
use repo_mender.Automations.Types.{Input, Template, Error, validate}
use repo_mender.Automations.Store.{
  Tables, find_template, edited_template, update_found, update_draft_row, lock_template,
  publish_row, set_enabled_row, delete_row, name_taken, stored_input,
}
use repo_mender.Automations.Service.{
  Service, Codec, Value, update_draft, publish, set_enabled, delete, template_noted, delete_noted,
}
use repo_mender.Automations.Trace.{
  Call, creating, editing, publishing, switching, deleting, triggering, working, perform,
  perform_all,
}
use repo_mender.Automations.Scheduling.{template_noted-tables}
use repo_mender.Automations.Steps.{
  CreatesId, Step, stays, adds, changes, removes, schedules, perform-Step,
}
use repo_mender.Automations.Once.{AllOther, append-none, update-none, select-none, select-gone}

-- The template is gone, or its revision has come to `n`.
abbrev HasReached : Text → ℕ → List Template → Type 0
HasReached id n templates =
    (find_template id templates ≡ none)
    ⊎ ((t : Template) × (find_template id templates ≡ some t) × (n ≤ t.revision))

-- An update that counts up keeps the row in reach.
update-HasReached :
    (id i : Text) (n : ℕ) (f : Template → Template) (rows : List Template) (t : Template)
    → ((u : Template) → (f u).id ≡ u.id)
    → ((u : Template) → (f u).revision ≡ u.revision + 1)
    → find_template id rows ≡ some t
    → n ≤ t.revision
    → HasReached id n (update_where (λ u. text_eq u.id i) f rows)
update-HasReached id i n f rows t same more e le =
    let g = λ (u : Template). if text_eq u.id i then f u else u in
    inr (
      g t,
      find-map (λ u. text_eq u.id id) g rows {x = t} (λ u. ground (arith, same u)) e,
      ground (arith, more t),
    )

HasReached-Step :
    (id : Text) (n : ℕ) (c : Call) (db : Tables) {after : Tables}
    → ¬ (CreatesId c id)
    → Step c db after
    → HasReached id n db.templates
    → HasReached id n after.templates
HasReached-Step id n c db other (stays e f) h = rw e h
HasReached-Step id n c db other (adds t new e f) (inl gone) = rw e (
    inl (
      append-none id db.templates t gone (elim (Bool-cases (text_eq t.id id)) [
        | inl same ↦ absurd (other (subst (CreatesId c) ((text_eq_iff t.id id).0 same) new))
        | inr differs ↦ differs
      ])))
HasReached-Step id n c db other (adds t new e f) (inr (u, k, le)) =
    rw e (inr (u, find-append _ db.templates (t ∷ []) {x = u} k, le))
HasReached-Step id n c db other (changes i g same more e f) (inl gone) =
    rw e (inl (update-none id _ g db.templates same gone))
HasReached-Step id n c db other (changes i g same more e f) (inr (u, k, le)) =
    rw e (update-HasReached id i n g db.templates u same more k le)
HasReached-Step id n c db other (removes i e f) (inl gone) =
    rw e (inl (select-none id _ db.templates gone))
HasReached-Step id n c db other (removes i e f) (inr (u, k, le)) =
    elim (Bool-cases (text_eq i id)) [
      | inl same ↦ rw (e, (text_eq_iff i id).0 same) (inl (select-gone id db.templates))
      | inr differs ↦ rw e (
          inr (
            u,
            find-select (λ (q : Template). text_eq q.id id) (λ (q : Template). not (text_eq q.id i))
                db.templates {x = u}
                (λ q hit. ground (arith, text_eq_iff q.id id, text_eq_iff q.id i, text_eq_iff i id))
                k,
            le,
          ))
    ]
HasReached-Step id n c db other (schedules q e f) h = rw e h

HasReached-all :
    (codec : Codec) (id : Text) (n : ℕ) (cs : List Call) (s : Service)
    → AllOther id cs
    → HasReached id n s.tables.templates
    → HasReached id n (perform_all codec cs s).tables.templates
unfolding perform_all
HasReached-all codec id n [] s o h = h
HasReached-all codec id n (c ∷ cs) s o h =
    HasReached-all codec id n cs (perform codec c s) o.1
      (HasReached-Step id n c s.tables o.0 (perform-Step codec c s) h)

-- A refusal with the tables as they were.
abbrev IsRefused {ℓ} : {A : Type ℓ} → Result Error A × Tables → Tables → Type ℓ
IsRefused {A} o db = (e : Error) × Path (Result Error A × Tables) o (err e, db)

-- What a stale expectation meets.
module _ (id : Text) (n : ℕ) (db : Tables) (positive_n : 0 < n)
    (h : HasReached id (n + 1) db.templates) where
  update_draft-stale :
      (now : Time) (input : Input) (actor : Text)
      → IsRefused (update_draft_row now id (pos n) input actor db) db
  unfolding update_draft_row update_found
  update_draft-stale now input actor = elim (Bool-cases (validate input)) [
    | inr bad ↦ rw (bad, update_draft_row) (_, refl)
    | inl valid ↦ elim (Bool-cases (leb_ℤ (pos n) (pos 0))) [
      | inl bad ↦ rw (valid, bad, update_draft_row) (_, refl)
      | inr positive ↦ found valid positive h
    ]
  ]
    where
      found :
          validate input ≡ true
          → leb_ℤ (pos n) (pos 0) ≡ false
          → HasReached id (n + 1) db.templates
          → IsRefused (update_draft_row now id (pos n) input actor db) db
      found valid positive (inl gone) = rw (valid, positive, gone, update_draft_row) (_, refl)
      found valid positive (inr (t, k, le)) =
          let stale : leb_ℤ (pos t.revision) (pos n) && leb_ℤ (pos n) (pos t.revision) ≡ false =
            ground arith in
          rw (valid, positive, k, update_draft_row, stale, update_found) (_, refl)

  lock-stale : trim_space id ≡ id → (e : Error) × (lock_template id (pos n) db ≡ err e)
  unfolding lock_template
  lock-stale trimmed = found h
    where
      found :
          HasReached id (n + 1) db.templates → (e : Error) × (lock_template id (pos n) db ≡ err e)
      found (inl gone) =
          rw
            (
              subst (λ (i : Text). find_template i db.templates ≡ none) (sym trimmed) gone,
              lock_template,
            )
            (_, refl)
      found (inr (t, k, le)) =
          let stale : not (leb_ℤ (pos n) (pos 0))
                && not (leb_ℤ (pos t.revision) (pos n) && leb_ℤ (pos n) (pos t.revision))
              ≡ true =
            ground arith in
          rw
            (
              subst (λ (i : Text). find_template i db.templates ≡ some t) (sym trimmed) k,
              stale,
              lock_template,
            )
            (_, refl)

  delete-stale : IsRefused (delete_row id (pos n) db) db
  unfolding delete_row
  delete-stale = found h
    where
      found : HasReached id (n + 1) db.templates → IsRefused (delete_row id (pos n) db) db
      found (inl gone) = rw (gone, delete_row) (_, refl)
      found (inr (t, k, le)) =
          let stale : not (leb_ℤ (pos t.revision) (pos n) && leb_ℤ (pos n) (pos t.revision))
                || t.enabled
              ≡ true =
            ground arith in
          rw (k, stale, delete_row) (_, refl)

-- The call changes the template if it stands at the revision.
abbrev pub Expects : Text → ℤ → Call → Type 0
Expects id e (editing now i x input actor) = (i ≡ id) × (x ≡ e)
Expects id e (publishing now i x actor) = (i ≡ id) × (x ≡ e)
Expects id e (switching now i x enabled actor) = (i ≡ id) × (x ≡ e)
Expects id e (deleting i x actor) = (i ≡ id) × (x ≡ e)
Expects id e _ = ⊥

noted-refused :
    (actor action : Text) (metadata : Template → List (Text × Value))
    (o : Result Error Template × Tables) (s : Service)
    → IsRefused o s.tables
    → (template_noted actor action metadata o s).1 ≡ s
unfolding template_noted
noted-refused actor action metadata o s (e, q) = rw q

module _ (codec : Codec) (id : Text) (n : ℕ) (s : Service) (positive_n : 0 < n)
    (trimmed : trim_space id ≡ id) (h : HasReached id (n + 1) s.tables.templates) where
  stale-unchanged : (c : Call) → Expects id (pos n) c → perform codec c s ≡ s
  unfolding perform update_draft publish set_enabled delete publish_row set_enabled_row delete_noted
  stale-unchanged (editing now i x input actor) (e, f) = elim (Bool-cases (validate input)) [
    | inr bad ↦ rw (bad, perform, update_draft)
    | inl valid ↦
        rw (valid, perform, update_draft)
          (noted-refused actor _ _ (update_draft_row now (trim_space i) x input actor s.tables) s
            (rw (e, f, trimmed) (update_draft-stale id n s.tables positive_n h now input actor)))
  ]
  stale-unchanged (publishing now i x actor) (e, f) =
      let (refusal, q) = lock-stale id n s.tables positive_n h trimmed in
      noted-refused actor _ _ (publish_row now (trim_space i) x actor s.tables) s
        (rw (e, f, trimmed, q, publish_row) (refusal, refl))
  stale-unchanged (switching now i x enabled actor) (e, f) =
      let (refusal, q) = lock-stale id n s.tables positive_n h trimmed in
      noted-refused actor _ _ (set_enabled_row now (trim_space i) x enabled actor s.tables) s
        (rw (e, f, trimmed, q, set_enabled_row) (refusal, refl))
  stale-unchanged (deleting i x actor) (e, f) =
      let (refusal, q) = delete-stale id n s.tables positive_n h in
      rw (e, f, trimmed, perform, delete, q)
  stale-unchanged (creating draw now input actor) h0 = absurd h0
  stale-unchanged (triggering draws input) h0 = absurd h0
  stale-unchanged (working c) h0 = absurd h0

-- An edit that succeeded found the revision that it expected, and counted it up.
edited-HasReached :
    (now : Time) (id : Text) (expected : ℤ) (input : Input) (actor : Text) (t : Template)
    (db : Tables)
    → (update_draft_row now id expected input actor db).0 ≡ ok t
    → (n : ℕ) × (expected ≡ pos n)
      × (0 < n)
      × HasReached id (n + 1) (update_draft_row now id expected input actor db).1.templates
unfolding update_draft_row update_found edited_template
edited-HasReached now id expected input actor t db e = elim (Bool-cases (validate input)) [
  | inr bad ↦ cc (rw (bad, update_draft_row) at e)
  | inl valid ↦ elim (Bool-cases (leb_ℤ expected (pos 0))) [
    | inl bad ↦ cc (rw (valid, bad, update_draft_row) at e)
    | inr positive ↦ elim (Option-cases (find_template id db.templates)) [
      | inl missing ↦ cc (rw (valid, positive, missing, update_draft_row) at e)
      | inr (u, k) ↦
          rw (valid, positive, k, update_draft_row)
            (found u k positive (rw (valid, positive, k, update_draft_row) at e))
    ]
  ]
]
  where
    found :
        (u : Template)
        → find_template id db.templates ≡ some u
        → leb_ℤ expected (pos 0) ≡ false
        → (update_found now expected input actor u db).0 ≡ ok t
        → (n : ℕ) × (expected ≡ pos n)
          × (0 < n)
          × HasReached id (n + 1) (update_found now expected input actor u db).1.templates
    found u k positive q =
        elim (Bool-cases
          (not (leb_ℤ (pos u.revision) expected && leb_ℤ expected (pos u.revision)))) [
            | inl stale ↦ cc (rw (stale, update_found) at q)
            | inr current ↦ elim (Bool-cases u.enabled) [
              | inl on ↦ cc (rw (current, on, update_found) at q)
              | inr off ↦
                  elim (Bool-cases (name_taken u.id (stored_input input).name db.templates)) [
                    | inl taken ↦ cc (rw (current, off, taken, update_found) at q)
                    | inr free ↦
                        let same : expected ≡ pos u.revision = ground arith in
                        rw (current, off, free, update_found)
                          (u.revision, same, ground (arith, same), edited u k)
                  ]
            ]
          ]
      where
        edited :
            (v : Template)
            → find_template id db.templates ≡ some v
            → HasReached id (v.revision + 1) (
                update_where
                  (λ w. text_eq w.id v.id)
                  (edited_template now input actor)
                  db.templates)
        edited v f =
            let g = λ (w : Template).
              if text_eq w.id v.id then edited_template now input actor w else w in
            inr (
              g v,
              find-map (λ w. text_eq w.id id) g db.templates {x = v} (λ w. ground arith) f,
              ground (arith, text_eq_refl v.id),
            )

noted-ok :
    (actor action : Text) (metadata : Template → List (Text × Value))
    (o : Result Error Template × Tables) (s : Service) {t : Template}
    → (template_noted actor action metadata o s).0 ≡ ok t
    → o.0 ≡ ok t
unfolding template_noted
noted-ok actor action metadata (ok u, db) s q = q
noted-ok actor action metadata (err e, db) s q = q

edit-HasReached :
    (now : Time) (id : Text) (expected : ℤ) (input : Input) (actor : Text) (t : Template)
    (s : Service)
    → trim_space id ≡ id
    → (update_draft now id expected input actor s).0 ≡ ok t
    → (n : ℕ) × (expected ≡ pos n)
      × (0 < n)
      × HasReached id (n + 1) (update_draft now id expected input actor s).1.tables.templates
unfolding update_draft
edit-HasReached now id expected input actor t s trimmed e = elim (Bool-cases (validate input)) [
  | inr bad ↦ cc (rw (bad, update_draft) at e)
  | inl valid ↦
      let (n, same, positive, reached) = edited-HasReached now id expected input actor t s.tables (
        noted-ok actor _ _ (update_draft_row now id expected input actor s.tables) s {t = t}
          (rw (valid, trimmed, update_draft) at e)) in
      (n, same, positive, rw (valid, trimmed, update_draft) (rw template_noted-tables reached))
]

-- No update is lost: once an edit succeeded, whatever calls follow, of the service and of the task
-- store, none of which creates a template under the same drawn identifier, a call that edits,
-- publishes, switches or deletes the template and expects the revision that the edit expected
-- changes nothing, the audit log included. The identifier stands without white space around it.
pub update_draft-exclusive :
    (codec : Codec) (now : Time) (id : Text) (expected : ℤ) (input : Input) (actor : Text)
    (t : Template) (cs : List Call) (c : Call) (s : Service)
    → trim_space id ≡ id
    → (update_draft now id expected input actor s).0 ≡ ok t
    → AllOther id cs
    → Expects id expected c
    → perform codec c (perform_all codec cs (update_draft now id expected input actor s).1)
      ≡ perform_all codec cs (update_draft now id expected input actor s).1
update_draft-exclusive codec now id expected input actor t cs c s trimmed e others stale =
    let (n, same, positive, reached) = edit-HasReached now id expected input actor t s trimmed e in
    let after = (update_draft now id expected input actor s).1 in
    stale-unchanged codec id n (perform_all codec cs after) positive trimmed
      (HasReached-all codec id (n + 1) cs after others reached) c
      (subst (λ x. Expects id x c) same stale)
