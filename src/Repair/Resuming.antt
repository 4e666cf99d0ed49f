-- ===== src/Repair/Resuming.antt =====
-- Resuming a repair (`ConsumeApproval` of server/internal/repair/service.go, `Process` of its
-- processor.go).
use repo_mender.Prelude.{
  ◌≡◌, refl, sym, subst, ap, true, not, ◌||◌, inl, inr, some, List, Text, text_eq, text_eq_iff,
  text_eq_refl, is_empty, is_blank, trim_space, find-map, find-pass, Result, Result-cases, ok, err,
  Option-cases, Bool-cases, if◌then◌else◌,
}
use repo_mender.Tasks.Types.{Task, Run}
use repo_mender.Tasks.Types as Tasks
use repo_mender.Approvals.Types.{Request, action_eq}
use repo_mender.Approvals.Types as Approvals
use repo_mender.Approvals.Service.{consume}
use repo_mender.Repair.Types.{state_eq, Repair, Error}
use repo_mender.Repair.World.{World, Codec, Clock}
use repo_mender.Repair.Store.{find_repair, get_repair, update_rows, update_repair, written}
use repo_mender.Repair.Service.{
  Phase, plan_phase, patch_phase, approval_id, expected_state, next_approved_state, phase_action,
  resumed, requeue, requeued, resume_with, consume_phase, consume_approval, consume_input,
  valid_phase,
}

requeued-ok :
    (u : Repair) (o : Result Tasks.Error Task) (r : Repair) (w after : World)
    → requeued u o w ≡ (ok r, after)
    → (Path (Result Error Repair) (ok u) (ok r)) × (after.repairs ≡ w.repairs)
unfolding requeued
requeued-ok u (err e) r w after q = cc (ap (λ p. p.0) q)
requeued-ok u (ok t) r w after q = (ap (λ p. p.0) q, sym (ap (λ p. p.1.repairs) q))

requeue-ok :
    (clock : Clock) (task_id reason : Text) (o : Result Error Repair) (r : Repair) (w after : World)
    → requeue clock task_id reason o w ≡ (ok r, after)
    → (o ≡ ok r) × (after.repairs ≡ w.repairs)
unfolding requeue
requeue-ok clock task_id reason (err e) r w after q = cc (ap (λ p. p.0) q)
requeue-ok clock task_id reason (ok u) r w after q = requeued-ok u _ r _ after q

-- What a repair is after its approval was consumed: what `get_repair` then returns.
resume_with-ok :
    (codec : Codec) (clock : Clock) (phase : Phase) (r0 r : Repair)
    (o : Result Approvals.Error Request) (w after : World)
    → resume_with codec clock phase r0 o w ≡ (ok r, after)
    → (get_repair r0.id after.repairs ≡ ok r)
      × (after.repairs ≡ update_rows codec clock.now (resumed phase r0) w.repairs)
unfolding resume_with update_repair resumed
resume_with-ok codec clock phase r0 r (err e) w after q = cc (ap (λ p. p.0) q)
resume_with-ok codec clock phase r0 r (ok request) w after q =
    elim (Bool-cases (action_eq request.action (phase_action phase))) [
      | inr other ↦ cc (ap (λ p. p.0) (rw (other, resume_with) at q))
      | inl same ↦
          let rows = update_rows codec clock.now (resumed phase r0) w.repairs in
          let (found, tab) =
            requeue-ok clock r0.task_id _ (get_repair r0.id rows) r (record w { repairs = rows })
              after (rw (same, resume_with) at q) in
          (rw tab found, tab)
    ]

-- The row that an update of a found row leaves.
updated_row :
    (codec : Codec) (clock : Clock) (phase : Phase) (id : Text) (rows : List Repair) (r0 : Repair)
    → find_repair id rows ≡ some r0
    → find_repair id (update_rows codec clock.now (resumed phase r0) rows)
      ≡ some (written codec clock.now (resumed phase r0) r0)
unfolding update_rows resumed written
updated_row codec clock phase id rows r0 k =
    let g = λ (v : Repair).
      if text_eq v.id r0.id then written codec clock.now (resumed phase r0) v else v in
    let found : find_repair id (update_rows codec clock.now (resumed phase r0) rows) ≡ some (g r0) =
      find-map (λ v. text_eq v.id id) g rows {x = r0}
        (λ v. elim (Bool-cases (text_eq v.id r0.id)) [ inl h ↦ rw h refl | inr h ↦ rw h refl ]) k in
    rw (text_eq_refl r0.id) at found

found-get_repair :
    (id : Text) (rows : List Repair) (r : Repair)
    → find_repair (trim_space id) rows ≡ some r
    → get_repair id rows ≡ ok r
unfolding get_repair
found-get_repair id rows r k = rw (k, get_repair) refl

get_repair-found :
    (id : Text) (rows : List Repair) (r : Repair)
    → get_repair id rows ≡ ok r
    → find_repair (trim_space id) rows ≡ some r
unfolding get_repair
get_repair-found id rows r e = elim (Option-cases (find_repair (trim_space id) rows)) [
  | inl missing ↦ cc (rw (missing, get_repair) at e)
  | inr (v, k) ↦ cc (rw (k, get_repair) at e, k)
]

next_eq : (phase : Phase) → state_eq (next_approved_state phase) (next_approved_state phase) ≡ true
unfolding next_approved_state
next_eq plan_phase = refl
next_eq patch_phase = refl

resumed-row :
    (codec : Codec) (clock : Clock) (phase : Phase) (id : Text) (r0 r : Repair) (w after : World)
    → trim_space id ≡ id
    → find_repair id w.repairs ≡ some r0
    → get_repair r0.id after.repairs ≡ ok r
    → after.repairs ≡ update_rows codec clock.now (resumed phase r0) w.repairs
    → (find_repair id after.repairs ≡ some r)
      × (state_eq r.state (next_approved_state phase) ≡ true)
unfolding get_repair written resumed
resumed-row codec clock phase id r0 r w after trimmed k got tab =
    let same_id : r0.id ≡ id =
      (text_eq_iff r0.id id).0 (find-pass (λ v. text_eq v.id id) w.repairs {x = r0} k) in
    let row = updated_row codec clock phase id w.repairs r0 k in
    let here : get_repair id after.repairs ≡ ok (written codec clock.now (resumed phase r0) r0) =
      found-get_repair id after.repairs _ (rw trimmed (rw tab row)) in
    let it : written codec clock.now (resumed phase r0) r0 ≡ r = cc (same_id, here, got) in
    (
      rw (tab, ← it) row,
      subst (λ (v : Repair). state_eq v.state (next_approved_state phase) ≡ true) it
          (next_eq phase),
    )

consume_phase-ok :
    (codec : Codec) (clock : Clock) (phase : Phase) (id digest key actor : Text) (r0 r : Repair)
    (w after : World)
    → trim_space id ≡ id
    → find_repair id w.repairs ≡ some r0
    → consume_phase codec clock phase digest key actor r0 w ≡ (ok r, after)
    → (find_repair id after.repairs ≡ some r)
      × (state_eq r.state (next_approved_state phase) ≡ true)
unfolding consume_phase get_repair
consume_phase-ok codec clock phase id digest key actor r0 r w after trimmed k q =
    elim (Bool-cases (state_eq r0.state (next_approved_state phase))) [
      | inl already ↦
          let e = rw (already, consume_phase) at q in
          let same : r0 ≡ r = cc (ap (λ p. p.0) e) in
          (
            subst (λ (v : World). find_repair id v.repairs ≡ some r) (ap (λ p. p.1) e)
                (rw (← same) k),
            subst (λ (v : Repair). state_eq v.state (next_approved_state phase) ≡ true) same
                already,
          )
      | inr new ↦
          elim (Bool-cases
            (not (state_eq r0.state (expected_state phase)) || is_empty (approval_id phase r0))) [
              | inl wrong ↦ cc (ap (λ p. p.0) (rw (new, wrong, consume_phase) at q))
              | inr waiting ↦ elim (Bool-cases (is_blank actor)) [
                | inl nobody ↦ cc (ap (λ p. p.0) (rw (new, waiting, nobody, consume_phase) at q))
                | inr named ↦
                    let input = consume_input clock (approval_id phase r0) digest key actor in
                    let done = consume clock.now input w.approvals in
                    let (got, tab) =
                      resume_with-ok codec clock phase r0 r done.0 (record w { approvals = done.1 })
                        after (rw (new, waiting, named, consume_phase) at q) in
                    resumed-row codec clock phase id r0 r w after trimmed k got tab
              ]
            ]
    ]

-- Once a call that consumes an approval succeeded, a call for the same repair and phase succeeds
-- with the same repair and changes nothing, at any time and whatever digest, key and user it names:
-- a wrong digest, no key and no user are taken as well. The repair's identifier stands without white
-- space around it.
pub consume_approval-repeat :
    (codec : Codec) (clock clock2 : Clock)
    (repair_id phase digest digest2 key key2 actor actor2 : Text) (p : Phase) (r : Repair)
    (w after : World)
    → trim_space repair_id ≡ repair_id
    → valid_phase phase ≡ some p
    → consume_approval codec clock repair_id phase digest key actor w ≡ (ok r, after)
    → consume_approval codec clock2 repair_id phase digest2 key2 actor2 after ≡ (ok r, after)
unfolding consume_approval consume_phase
consume_approval-repeat codec clock clock2 repair_id phase digest digest2 key key2 actor actor2 p r
      w after trimmed known e =
    elim (Result-cases (get_repair repair_id w.repairs)) [
      | inr (x, missing) ↦ cc (ap (λ q. q.0) (rw (missing, consume_approval) at e))
      | inl (r0, got) ↦
          let k : find_repair repair_id w.repairs ≡ some r0 =
            rw trimmed at (get_repair-found repair_id w.repairs r0 got) in
          let (found, next) =
            consume_phase-ok codec clock p repair_id digest key actor r0 r w after trimmed k
              (rw (got, known, consume_approval) at e) in
          let here = found-get_repair repair_id after.repairs r (rw trimmed found) in
          rw (here, known, next, consume_approval, consume_phase) refl
    ]
