-- ===== src/Tasks/Claiming.antt =====
-- What a claim promises (`ClaimTask` of server/internal/tasks/store.go).
pub mod Order
pub mod Exclusive
pub mod Stale
use repo_mender.Prelude.{
  ℕ, suc, ◌+◌, ◌≤◌, ◌≡◌, ◌≢◌, refl, subst, ap, Bool, true, false, ◌&&◌, inl, inr, Option, none,
  some, List, [], ◌∷◌, ◌++◌, map, Text, text_eq, text_eq_iff, text_eq_refl, All, All-map, All-in,
  In, find-append, find-map, update_where, if◌then◌else◌, arith, Bool-cases, Option-cases, ℤ, pos,
  leb_ℤ, is_blank, pos_part, Result, ok, err,
}
use repo_mender.Ids.{Draw, new_id}
use repo_mender.Tasks.Status.{Status, running, status_eq}
use repo_mender.Tasks.Types.{Time, Snapshot, Task, Run, Error, task_not_found, Database}
use repo_mender.Tasks.Queue.{
  is_free, violates_runs, precedes, better, pick, commit_claim, claim_drawn, claim_picked,
  claim_task, claimed_task, claim_result, claimed_run,
}
use repo_mender.Tasks.Unique.{pick-In}

-- The queue's order is asymmetric, and what neither precedes the other is tied.
precedes_asymmetric : (a b : Task) → precedes a b ≡ true → precedes b a ≡ false
unfolding precedes
precedes_asymmetric a b h = ground arith

precedes_tied : (a b c : Task) → precedes a b ≡ false → precedes b c ≡ false → precedes a c ≡ false
unfolding precedes
precedes_tied a b c h k = ground arith

-- No row that the claim may take of the table goes before `t`.
abbrev pub IsFirst : Snapshot → List Task → Task → Type 0
IsFirst now ts t = All (λ u. is_free now u ≡ true → precedes u t ≡ false) ts

IsFirst-tied :
    (now : Snapshot) (ts : List Task) (v t : Task)
    → precedes v t ≡ false
    → IsFirst now ts v
    → IsFirst now ts t
IsFirst-tied now [] v t p h = tt
IsFirst-tied now (u ∷ us) v t p h =
    (λ c. precedes_tied u v t (h.0 c) p, IsFirst-tied now us v t p h.1)

pub pick-none :
    (now : Snapshot) (ts : List Task) → pick now ts ≡ none → All (λ u. is_free now u ≡ false) ts
unfolding pick
pick-none now [] e = tt
pick-none now (u ∷ us) e = elim (Bool-cases (is_free now u)) [
  | inl c ↦ absurd (ground arith)
  | inr c ↦ (c, pick-none now us (ground arith))
]

precedes_irrefl : (t : Task) → precedes t t ≡ false
unfolding precedes
precedes_irrefl t = ground arith

vacuous :
    (now : Snapshot) (ts : List Task) (t : Task)
    → All (λ u. is_free now u ≡ false) ts
    → IsFirst now ts t
vacuous now [] t h = tt
vacuous now (u ∷ us) t h = (λ c. cc h.0, vacuous now us t h.1)

better-IsFirst :
    (now : Snapshot) (us : List Task) (u t : Task) (o : Option Task)
    → ((v : Task) → o ≡ some v → IsFirst now us v)
    → (o ≡ none → All (λ w. is_free now w ≡ false) us)
    → better u o ≡ t
    → IsFirst now (u ∷ us) t
better-IsFirst now us u t none first empty e =
    subst (IsFirst now (u ∷ us)) e (λ c. precedes_irrefl u, vacuous now us u (empty refl))
better-IsFirst now us u t (some v) first empty e = elim (Bool-cases (precedes v u)) [
  | inl p ↦ subst (IsFirst now (u ∷ us)) (rw p at e) (λ c. precedes_asymmetric v u p, first v refl)
  | inr p ↦
      subst (IsFirst now (u ∷ us)) (rw p at e)
        (λ c. precedes_irrefl u, IsFirst-tied now us v u p (first v refl))
]

pub pick-IsFirst :
    (now : Snapshot) (ts : List Task) (t : Task) → pick now ts ≡ some t → IsFirst now ts t
unfolding pick
pick-IsFirst now [] t e = cc
pick-IsFirst now (u ∷ us) t e = elim (Bool-cases (is_free now u)) [
  | inl c ↦
      better-IsFirst now us u t (pick now us) (λ v k. pick-IsFirst now us v k)
        (λ k. pick-none now us k) (ground arith)
  | inr c ↦ (λ k. cc, pick-IsFirst now us t (ground arith))
]

-- How a claim ends: with no change and an error, or with the picked row.
module _ (r c : Draw) (db_now : Snapshot) (now : Time) (owner : Text) (lease : ℤ)
    (db : Database) where
  abbrev pub Claimed : Task → Run → Database → Type 0
  Claimed t' r' after =
      (t : Task) × (run_id : Text) × (correlation_id : Text) × (violates_runs run_id correlation_id
          t db.runs
        ≡ false)
      × (pick db_now db.tasks ≡ some t)
      × (commit_claim run_id correlation_id owner (now + pos_part lease) now t db
          ≡ (ok (t', r'), after))

  claim_drawn_cases :
      (o p : Option Text) (t t' : Task) (r' : Run) (after : Database)
      → pick db_now db.tasks ≡ some t
      → claim_drawn o p owner (now + pos_part lease) now t db ≡ (ok (t', r'), after)
      → Claimed t' r' after
  unfolding claim_drawn
  claim_drawn_cases none p t t' r' after k e = cc (ap (λ x. x.0) e)
  claim_drawn_cases (some a) none t t' r' after k e = cc (ap (λ x. x.0) e)
  claim_drawn_cases (some a) (some b) t t' r' after k e =
      elim (Bool-cases (violates_runs a b t db.runs)) [
        | inl bad ↦ cc (ap (λ x. x.0) (rw (bad, claim_drawn) at e))
        | inr fine ↦ (t, a, b, fine, k, rw (fine, claim_drawn) at e)
      ]

  claim_picked_cases :
      (o : Option Task) (t' : Task) (r' : Run) (after : Database)
      → pick db_now db.tasks ≡ o
      → claim_picked o r c now owner lease db ≡ (ok (t', r'), after)
      → Claimed t' r' after
  unfolding claim_picked
  claim_picked_cases none t' r' after k e = cc (ap (λ x. x.0) e)
  claim_picked_cases (some t) t' r' after k e =
      claim_drawn_cases (new_id r) (new_id c) t t' r' after k e

  pub claim_task_cases :
      (t' : Task) (r' : Run) (after : Database)
      → claim_task r c db_now now owner lease db ≡ (ok (t', r'), after)
      → Claimed t' r' after
  unfolding claim_task
  claim_task_cases t' r' after e = elim (Bool-cases (is_blank owner)) [
    | inl blank ↦ cc (ap (λ x. x.0) (rw (blank) at e))
    | inr named ↦ elim (Bool-cases (leb_ℤ lease (pos 0))) [
      | inl bad ↦ cc (ap (λ x. x.0) (rw (named, bad) at e))
      | inr fine ↦
          claim_picked_cases (pick db_now db.tasks) t' r' after refl (rw (named, fine) at e)
    ]
  ]
