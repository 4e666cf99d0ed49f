-- ===== src/Tasks/Claiming/Order.antt =====
-- Which task a claim takes, and when it takes none (`ClaimTask` of server/internal/tasks/store.go).
use repo_mender.Prelude.{
  ◌≤◌, ◌<◌, Option-cases, ltb_ℤ, inl, inr, ◌⊎◌, Bool-cases, ◌+◌, ◌≡◌, ◌≢◌, ◌↔◌, refl, ap, true,
  false, Option, none, some, List, [], ◌∷◌, Text, All, In, arith, ℤ, pos, leb_ℤ, is_blank, pos_part,
  ok, err,
}
use repo_mender.Ids.{Draw, new_id}
use repo_mender.Tasks.Status.{queued, running, failed}
use repo_mender.Tasks.Types.{Time, Snapshot, Task, Run, task_not_found, Database}
use repo_mender.Tasks.Queue.{
  claimable, is_free, precedes, violates_runs, pick, commit_claim, claim_drawn, claim_picked,
  claim_task, claim_result, claimed_run,
}
use repo_mender.Tasks.Unique.{pick-IsFree}
use repo_mender.Tasks.Claiming.{IsFirst, pick-IsFirst, pick-none, claim_task_cases}

-- What the store means by a task that a worker may run: it is queued or failed and due, or running
-- under a lease that is over, and has attempts left.
abbrev IsReady : Time → Task → Type 0
IsReady now t =
    ((((t.status ≡ queued) ⊎ (t.status ≡ failed)) × (t.available_at ≤ now))
      ⊎ ((t.status ≡ running) × ((until : Time) × (t.lease_until ≡ some until) × (until < now))))
    × (t.attempts < t.max_attempts)

-- The higher priority first, then the earlier due, then the older.
abbrev pub IsBefore : Task → Task → Type 0
IsBefore a b =
    (ltb_ℤ b.priority a.priority ≡ true)
    ⊎ ((a.priority ≡ b.priority)
        × ((a.available_at < b.available_at)
            ⊎ ((a.available_at ≡ b.available_at) × (a.created_at < b.created_at))))

-- A task that a claim can take: ready, and not locked by another transaction.
abbrev pub IsOpen : Snapshot → Task → Type 0
IsOpen db_now t = IsReady db_now.time t × (db_now.locked t.id ≡ false)

claimable_iff : (now : Time) (t : Task) → (claimable now t ≡ true) ↔ IsReady now t
unfolding claimable
claimable_iff now t = elim (Option-cases t.lease_until) [
  | inl never ↦ ground (arith, never)
  | inr (until, given) ↦ ground (arith, given)
]

free_iff : (db_now : Snapshot) (t : Task) → (is_free db_now t ≡ true) ↔ IsOpen db_now t
unfolding is_free
free_iff db_now t = ground (arith, claimable_iff db_now.time t)

IsBefore-precedes : (a b : Task) → IsBefore a b → precedes a b ≡ true
unfolding precedes
IsBefore-precedes a b h = ground arith

IsFirst-IsOpen :
    (db_now : Snapshot) (ts : List Task) (t : Task)
    → IsFirst db_now ts t
    → All (λ u. IsOpen db_now u → ¬ IsBefore u t) ts
IsFirst-IsOpen db_now [] t h = tt
IsFirst-IsOpen db_now (u ∷ us) t h = (
  λ o b. ground (arith, h.0 ((free_iff db_now u).1 o), IsBefore-precedes u t b),
  IsFirst-IsOpen db_now us t h.1,
)

none-IsOpen :
    (db_now : Snapshot) (ts : List Task)
    → All (λ u. is_free db_now u ≡ false) ts ↔ All (λ u. ¬ IsOpen db_now u) ts
none-IsOpen db_now [] = ((λ h. tt), (λ h. tt))
none-IsOpen db_now (u ∷ us) = (
  (λ h. ((λ o. ground (arith, h.0, (free_iff db_now u).1 o)), (none-IsOpen db_now us).0 h.1)),
  (λ h. (
    elim (Bool-cases (is_free db_now u)) [
      | inl free ↦ absurd (h.0 ((free_iff db_now u).0 free))
      | inr kept ↦ kept
    ],
    (none-IsOpen db_now us).1 h.1,
  )),
)

-- A successful claim takes a row that is ready and that no other transaction locks; no other such row
-- has a higher priority, or the same one and an earlier due time, or both the same and an earlier
-- creation. It returns the row as running with one attempt more, beside a new running run of that
-- attempt.
pub claim_task-IsFirst :
    (r c : Draw) (db_now : Snapshot) (now : Time) (owner : Text) (lease : ℤ) (db after : Database)
    (t' : Task) (r' : Run)
    → claim_task r c db_now now owner lease db ≡ (ok (t', r'), after)
    → (t : Task) × In t db.tasks
      × IsOpen db_now t
      × All (λ u. IsOpen db_now u → ¬ IsBefore u t) db.tasks
      × (t'.id ≡ t.id)
      × (t'.status ≡ running)
      × (t'.attempts ≡ t.attempts + 1)
      × (t'.lease_until ≡ some (now + pos_part lease))
      × (r'.task_id ≡ t.id)
      × (r'.status ≡ running)
      × (r'.attempt ≡ t'.attempts)
unfolding commit_claim claim_result claimed_run
claim_task-IsFirst r c db_now now owner lease db after t' r' e =
    let (t, a, b, _, k, q) = claim_task_cases r c db_now now owner lease db t' r' after e in
    let (m, d) = pick-IsFree db_now db.tasks {t = t} k in
    (
      t,
      m,
      (free_iff db_now t).0 d,
      IsFirst-IsOpen db_now db.tasks t (pick-IsFirst db_now db.tasks t k),
      ground arith,
      ground arith,
      ground arith,
      ground arith,
      ground arith,
      ground arith,
      ground arith,
    )

none-pick :
    (now : Snapshot) (ts : List Task) → All (λ u. is_free now u ≡ false) ts → pick now ts ≡ none
unfolding pick
none-pick now [] h = refl
none-pick now (u ∷ us) h = rw h.0 (none-pick now us h.1)

module _ (r c : Draw) (db_now : Snapshot) (now : Time) (owner : Text) (lease : ℤ)
    (db : Database) where
  drawn_finds :
      (o p : Option Text) (until : Time) (t : Task)
      → claim_drawn o p owner until now t db ≢ (err task_not_found, db)
  unfolding claim_drawn commit_claim
  drawn_finds none p until t e = cc (ap (λ x. x.0) e)
  drawn_finds (some a) none until t e = cc (ap (λ x. x.0) e)
  drawn_finds (some a) (some b) until t e = elim (Bool-cases (violates_runs a b t db.runs)) [
    | inl bad ↦ cc (ap (λ x. x.0) (rw (bad, claim_drawn) at e))
    | inr fine ↦ cc (ap (λ x. x.0) (rw (fine, claim_drawn) at e))
  ]

  picked_finds :
      (o : Option Task)
      → claim_picked o r c now owner lease db ≡ (err task_not_found, db)
      → o ≡ none
  unfolding claim_picked
  picked_finds none e = refl
  picked_finds (some t) e = absurd (drawn_finds (new_id r) (new_id c) (now + pos_part lease) t e)

  -- A worker with a name and a positive lease is told that there is no task exactly when every row
  -- of the table is either not ready or locked by another transaction; the database then stays as it
  -- was.
  pub claim_task-none :
      is_blank owner ≡ false
      → leb_ℤ lease (pos 0) ≡ false
      → (claim_task r c db_now now owner lease db ≡ (err task_not_found, db))
        ↔ All (λ u. ¬ IsOpen db_now u) db.tasks
  unfolding claim_task claim_picked
  claim_task-none named fine =
      let (closed, reopened) = none-IsOpen db_now db.tasks in
      (
        λ e. closed (
            pick-none db_now db.tasks
              (picked_finds (pick db_now db.tasks) (rw (named, fine) at e))),
        λ h. rw (named, fine, claim_task, none-pick db_now db.tasks (reopened h)),
      )
