-- ===== src/Tasks/Claiming/Exclusive.antt =====
-- Two claims in a row (`ClaimTask` of server/internal/tasks/store.go).
use repo_mender.Prelude.{
  ℕ, ◌+◌, ◌≤◌, ◌≡◌, ◌≢◌, subst, ap, true, some, List, Text, text_eq, text_eq_iff, All, All-map,
  All-in, if◌then◌else◌, arith, ℤ, pos_part, ok, All-trivial,
}
use repo_mender.Ids.{Draw}
use repo_mender.Tasks.Status.{running}
use repo_mender.Tasks.Types.{Time, Snapshot, Task, Run, Database}
use repo_mender.Tasks.Tables.{update_task}
use repo_mender.Tasks.Queue.{claimable, commit_claim, claim_task, claimed_task, claim_result}
use repo_mender.Tasks.Unique.{pick-In}
use repo_mender.Tasks.Claiming.{claim_task_cases}

-- What a claim leaves in every row with the claimed identifier.
abbrev IsLeased : Text → Time → Task → Type 0
IsLeased id until u = text_eq u.id id ≡ true → (u.status ≡ running) × (u.lease_until ≡ some until)

IsLeased-rows :
    (id owner : Text) (attempt : ℕ) (until now : Time) (ts : List Task)
    → All (IsLeased id until) (update_task id (claimed_task attempt owner until now) ts)
unfolding claimed_task
IsLeased-rows id owner attempt until now ts =
    All-map (λ u. Unit {0}) (IsLeased id until)
      (λ u. if text_eq u.id id then claimed_task attempt owner until now u else u) ts
      (λ u h same. ground arith) (All-trivial ts)

still_leased :
    (db_now until : Time) (v : Task) (id : Text)
    → IsLeased id until v
    → db_now ≤ until
    → claimable db_now v ≡ true
    → text_eq v.id id ≢ true
unfolding claimable
still_leased db_now until v id l early d same = ground (arith, l same)

-- While the database's clock has not passed the end of the lease, the next claim takes another task.
pub claim_task-exclusive :
    (r c r2 c2 : Draw) (db_now db_now2 : Snapshot) (now now2 : Time) (owner owner2 : Text)
    (lease lease2 : ℤ) (db after after2 : Database) (t t2 : Task) (run run2 : Run)
    → claim_task r c db_now now owner lease db ≡ (ok (t, run), after)
    → claim_task r2 c2 db_now2 now2 owner2 lease2 after ≡ (ok (t2, run2), after2)
    → db_now2.time ≤ now + pos_part lease
    → t2.id ≢ t.id
unfolding commit_claim claim_result
claim_task-exclusive r c r2 c2 db_now db_now2 now now2 owner owner2 lease lease2 db after after2 t
      t2 run run2 e e2 early same =
    let (u, a, b, _, k, q) = claim_task_cases r c db_now now owner lease db t run after e in
    let (v, a2, b2, _, k2, q2) =
      claim_task_cases r2 c2 db_now2 now2 owner2 lease2 after t2 run2 after2 e2 in
    let (m, d) = pick-In db_now2 after.tasks {t = v} k2 in
    let rows : All (IsLeased u.id (now + pos_part lease)) after.tasks =
      subst (λ (d : Database). All (IsLeased u.id (now + pos_part lease)) d.tasks) (ap (λ x. x.1) q)
        (IsLeased-rows u.id owner (u.attempts + 1) (now + pos_part lease) now db.tasks) in
    still_leased db_now2.time (now + pos_part lease) v u.id
      (All-in (IsLeased u.id (now + pos_part lease)) after.tasks rows m) early d
      (ground (arith, text_eq_iff v.id u.id))
