-- ===== src/Repair/Backed.antt =====
-- What stands behind a repair's state in the approval table (server/internal/repair).
pub mod Work
pub mod PlanStage
pub mod PatchStage
pub mod Process
pub mod Resume
pub mod Trace
use repo_mender.Prelude.{
  ℕ, ◌≡◌, refl, sym, subst, ap, Bool, true, false, ◌&&◌, ◌||◌, not, inl, inr, ◌⊎◌, Option, none,
  some, List, [], ◌∷◌, ◌++◌, map, Text, text_eq, is_empty, trim_space, All, All-map, Result, ok,
  err, if◌then◌else◌, update_where, Bool-cases,
}
use repo_mender.Approvals.Types.{Action, Request, repair_plan, publish_patch, consumed}
use repo_mender.Approvals.Store.{find_request}
use repo_mender.Approvals.Service.{Service}
use repo_mender.Approvals.Machine.{Kept, Step, SameTerms}
use repo_mender.Approvals.Single.{is_terminal, Step-terminal}
use repo_mender.Approvals.Lifecycle.{Step-terms}
use repo_mender.Repair.Types.{
  Time, State, planning, awaiting_plan_approval, plan_approved, patching, awaiting_patch_approval,
  patch_approved, published, failed, cancelled, Patch, Repair, PublishInput,
}
use repo_mender.Repair.Validate.{validate_patch}
use repo_mender.Repair.World.{World, Codec}
use repo_mender.Repair.Store.{normalize, written, update_rows}

-- The approval table has a request for the action and the digest, or one that was consumed.
abbrev pub HasRequest : List Request → Text → Action → Text → Type 0
HasRequest rows id action digest =
    (q : Request) × (find_request id rows ≡ some q)
    × (q.action ≡ action)
    × (q.action_digest ≡ trim_space digest)

abbrev pub HasConsumed : List Request → Text → Action → Text → Type 0
HasConsumed rows id action digest =
    (q : Request) × (find_request id rows ≡ some q)
    × (q.action ≡ action)
    × (q.action_digest ≡ trim_space digest)
    × (q.state ≡ consumed)

module _ (codec : Codec) (rows : List Request) where
  abbrev pub PlanAsked : Repair → Type 0
  PlanAsked r =
      HasRequest rows r.plan_approval_id repair_plan r.plan_digest
      × (is_empty r.plan_digest ≡ false)

  abbrev pub PlanUsed : Repair → Type 0
  PlanUsed r =
      HasConsumed rows r.plan_approval_id repair_plan r.plan_digest
      × (is_empty r.plan_digest ≡ false)

  -- The stored patch is the one with the digest.
  abbrev pub HoldsPatch : Repair → Type 0
  HoldsPatch r =
      (p : Patch) × (codec.read_patch r.patch ≡ some p)
      × (codec.digest_patch p ≡ some r.patch_digest)
      × (is_empty r.patch_digest ≡ false)

  abbrev pub PatchAsked : Repair → Type 0
  PatchAsked r = HasRequest rows r.patch_approval_id publish_patch r.patch_digest × HoldsPatch r

  abbrev pub PatchUsed : Repair → Type 0
  PatchUsed r = HasConsumed rows r.patch_approval_id publish_patch r.patch_digest × HoldsPatch r

  abbrev pub Backing : State → Repair → Type 0
  Backing planning r = (r.plan_approval_id ≡ []) × (r.patch_approval_id ≡ [])
  Backing awaiting_plan_approval r = PlanAsked r × (r.patch_approval_id ≡ [])
  Backing plan_approved r = PlanUsed r × (r.patch_approval_id ≡ [])
  Backing patching r = PlanUsed r × (r.patch_approval_id ≡ [])
  Backing awaiting_patch_approval r = PlanUsed r × PatchAsked r
  Backing patch_approved r = PlanUsed r × PatchUsed r
  Backing published r = PlanUsed r × PatchUsed r
  Backing failed r =
      ((r.plan_approval_id ≡ []) × (r.patch_approval_id ≡ []))
      ⊎ (PlanUsed r × ((r.patch_approval_id ≡ []) ⊎ PatchUsed r))
  Backing cancelled r = Unit

  -- A repair is where it is with the approvals that this takes.
  abbrev pub IsBacked : Repair → Type 0
  IsBacked r = Backing r.state r

  -- What was handed to the provider is a valid patch, whose digest a consumed request to publish
  -- names, after a consumed request for a plan.
  abbrev pub IsCleared : PublishInput → Type 0
  IsCleared p =
      (patch : Patch) × (digest : Text) × (plan_digest : Text) × (patch_id : Text)
      × (plan_id : Text) × (codec.digest_patch patch ≡ some digest)
      × (p.files ≡ patch.files)
      × (validate_patch patch p.base_sha ≡ none)
      × HasConsumed rows patch_id publish_patch digest
      × HasConsumed rows plan_id repair_plan plan_digest

abbrev pub IsSafe : Codec → World → Type 0
IsSafe codec w =
    All (IsBacked codec w.approvals.requests) w.repairs
    × All (IsCleared codec w.approvals.requests) w.published

-- The approval table after some calls.
abbrev pub Keeps : List Request → List Request → Type 0
Keeps rows after = (id : Text) (u : Request) → find_request id rows ≡ some u → Kept id u after

module _ (codec : Codec) (rows after : List Request) (keeps : Keeps rows after) where
  asked_kept :
      (id : Text) (action : Action) (digest : Text)
      → HasRequest rows id action digest
      → HasRequest after id action digest
  asked_kept id action digest (q, k, a, d) =
      let (v, kv, step) = keeps id q k in
      let (same_id, same_action, same_digest, requester, roles, expiry) = Step-terms q v step in
      (v, kv, cc (a, same_action), cc (d, same_digest))

  pub used_kept :
      (id : Text) (action : Action) (digest : Text)
      → HasConsumed rows id action digest
      → HasConsumed after id action digest
  used_kept id action digest (q, k, a, d, s) =
      let (v, kv, step) = keeps id q k in
      let same : q ≡ v = Step-terminal q v (rw s refl) step in (q, rw same kv, a, d, s)

  pub Backing-kept : (s : State) (r : Repair) → Backing codec rows s r → Backing codec after s r
  Backing-kept planning r h = h
  Backing-kept awaiting_plan_approval r ((q, n), p) = ((asked_kept _ _ _ q, n), p)
  Backing-kept plan_approved r ((q, n), p) = ((used_kept _ _ _ q, n), p)
  Backing-kept patching r ((q, n), p) = ((used_kept _ _ _ q, n), p)
  Backing-kept awaiting_patch_approval r ((q, n), (p, h)) =
      ((used_kept _ _ _ q, n), (asked_kept _ _ _ p, h))
  Backing-kept patch_approved r ((q, n), (p, h)) = ((used_kept _ _ _ q, n), (used_kept _ _ _ p, h))
  Backing-kept published r ((q, n), (p, h)) = ((used_kept _ _ _ q, n), (used_kept _ _ _ p, h))
  Backing-kept failed r (inl h) = inl h
  Backing-kept failed r (inr ((q, n), inl e)) = inr ((used_kept _ _ _ q, n), inl e)
  Backing-kept failed r (inr ((q, n), inr (p, h))) =
      inr ((used_kept _ _ _ q, n), inr (used_kept _ _ _ p, h))
  Backing-kept cancelled r h = tt

  IsCleared-kept : (p : PublishInput) → IsCleared codec rows p → IsCleared codec after p
  IsCleared-kept p (patch, digest, plan_digest, patch_id, plan_id, d, f, v, a, b) = (
    patch,
    digest,
    plan_digest,
    patch_id,
    plan_id,
    d,
    f,
    v,
    used_kept patch_id publish_patch digest a,
    used_kept plan_id repair_plan plan_digest b,
  )

  rows-IsBacked : (rs : List Repair) → All (IsBacked codec rows) rs → All (IsBacked codec after) rs
  rows-IsBacked [] h = tt
  rows-IsBacked (r ∷ rs) h = (Backing-kept r.state r h.0, rows-IsBacked rs h.1)

  rows-IsCleared :
      (ps : List PublishInput) → All (IsCleared codec rows) ps → All (IsCleared codec after) ps
  rows-IsCleared [] h = tt
  rows-IsCleared (p ∷ ps) h = (IsCleared-kept p h.0, rows-IsCleared ps h.1)

  pub safe_kept :
      (rs : List Repair) (ps : List PublishInput)
      → All (IsBacked codec rows) rs × All (IsCleared codec rows) ps
      → All (IsBacked codec after) rs × All (IsCleared codec after) ps
  safe_kept rs ps (h, k) = (rows-IsBacked rs h, rows-IsCleared ps k)

-- What JSON and the column do with a patch: reading what was stored is reading the text.
abbrev pub StoresPatches : Codec → Type 0
StoresPatches codec =
    (t : Text) (p : Patch)
    → codec.read_patch t ≡ some p
    → codec.read_patch (normalize codec t) ≡ some p

module _ (codec : Codec) (stores : StoresPatches codec) (rows : List Request) where
  written-holds :
      (now : Time) (r v : Repair)
      → HoldsPatch codec rows r
      → HoldsPatch codec rows (written codec now r v)
  unfolding written
  written-holds now r v (p, reads, d, n) = (p, stores r.patch p reads, d, n)

  written-Backing :
      (now : Time) (r v : Repair) (s : State)
      → Backing codec rows s r
      → Backing codec rows s (written codec now r v)
  unfolding written
  written-Backing now r v planning h = h
  written-Backing now r v awaiting_plan_approval h = h
  written-Backing now r v plan_approved h = h
  written-Backing now r v patching h = h
  written-Backing now r v awaiting_patch_approval (q, (p, h)) = (q, (p, written-holds now r v h))
  written-Backing now r v patch_approved (q, (p, h)) = (q, (p, written-holds now r v h))
  written-Backing now r v published (q, (p, h)) = (q, (p, written-holds now r v h))
  written-Backing now r v failed (inl h) = inl h
  written-Backing now r v failed (inr (q, inl e)) = inr (q, inl e)
  written-Backing now r v failed (inr (q, inr (p, h))) = inr (q, inr (p, written-holds now r v h))
  written-Backing now r v cancelled h = tt

  written-IsBacked :
      (now : Time) (r v : Repair)
      → IsBacked codec rows r
      → IsBacked codec rows (written codec now r v)
  unfolding written
  written-IsBacked now r v h = written-Backing now r v r.state h

  pub update_rows-IsBacked :
      (now : Time) (r : Repair) (rs : List Repair)
      → IsBacked codec rows r
      → All (IsBacked codec rows) rs
      → All (IsBacked codec rows) (update_rows codec now r rs)
  unfolding update_rows
  update_rows-IsBacked now r rs b h =
      All-map (IsBacked codec rows) (IsBacked codec rows)
        (λ v. if text_eq v.id r.id then written codec now r v else v) rs
        (λ v k. elim (Bool-cases (text_eq v.id r.id)) [
          | inl mine ↦ rw mine (written-IsBacked now r v b)
          | inr other ↦ rw other k
        ])
        h
