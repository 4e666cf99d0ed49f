-- ===== src/Tasks/Findings.antt =====
-- Findings and evidence of tasks: `CreateFinding`, `ListFindings`, `CreateEvidence` and
-- `ListEvidence` of server/internal/tasks/store.go.
use repo_mender.Prelude.{
  ℕ, ◌+◌, ◌*◌, ◌^◌, Bool, true, false, ◌&&◌, ◌||◌, not, Option, none, some, List, [], ◌∷◌, ◌++◌,
  Text, text, text_eq, is_empty, ℤ, pos_part, neg_part, select, is_some, order_by, Result, ok, err,
  ltb, leb, ◌==◌, if◌then◌else◌,
}
use repo_mender.Ids.{Draw, new_id}
use repo_mender.Tasks.Types.{Time, Error, task_not_found, run_not_found, random_failed, Database}
use repo_mender.Tasks.Tables.{find_task, find_run}
use repo_mender.Tasks.Store.{or_default}

-- A `float64`: with its sign, which is `true` below zero, and as a natural number times a power of 2.
pub data Float64 : Type 0 where
  nan : Float64
  infinite : Bool → Float64
  finite : Bool → ℕ → ℤ → Float64

-- `m * 2 ^ e <= n * 2 ^ f`
abbrev pub leb_scaled : ℕ → ℤ → ℕ → ℤ → Bool
leb_scaled m e n f = leb (m * 2 ^ (pos_part e + neg_part f)) (n * 2 ^ (pos_part f + neg_part e))

pub record Finding : Type 0 where
  pub id : Text
  pub task_id : Text
  pub run_id : Text
  pub severity : Text
  pub category : Text
  pub path : Text
  pub line_start : Option ℤ
  pub line_end : Option ℤ
  pub explanation : Text
  pub evidence : Text
  pub confidence : Option Float64
  pub remediation : Text
  pub created_at : Time

pub record FindingInput : Type 0 where
  pub task_id : Text
  pub run_id : Text
  pub severity : Text
  pub category : Text
  pub path : Text
  pub line_start : Option ℤ
  pub line_end : Option ℤ
  pub explanation : Text
  pub evidence : Option Text
  pub confidence : Option Float64
  pub remediation : Text

pub record Evidence : Type 0 where
  pub id : Text
  pub task_id : Text
  pub run_id : Text
  pub kind : Text
  pub title : Text
  pub content : Text
  pub digest : Text
  pub created_at : Time

pub record EvidenceInput : Type 0 where
  pub task_id : Text
  pub run_id : Text
  pub kind : Text
  pub title : Text
  pub content : Option Text
  pub digest : Text

-- The tables `findings` and `evidence`. A finding keeps the confidence it was written with, which the
-- column rounds to four digits.
pub record Reports : Type 0 where
  pub findings : List Finding
  pub evidence : List Evidence

-- What refuses a row: the keys to `tasks` and `runs`, where an empty run is NULL.
unfoldable pub refers : Text → Text → Database → Option Error
refers task_id run_id db =
    if not (is_some (find_task task_id db.tasks))
    then some task_not_found
    else if not (is_empty run_id) && not (is_some (find_run run_id db.runs))
    then some run_not_found
    else none

unfoldable pub new_finding : Text → Time → FindingInput → Finding
new_finding id db_now input = record {
  id = id;
  task_id = input.task_id;
  run_id = input.run_id;
  severity = input.severity;
  category = input.category;
  path = input.path;
  line_start = input.line_start;
  line_end = input.line_end;
  explanation = input.explanation;
  evidence = or_default input.evidence (text "{}");
  confidence = input.confidence;
  remediation = input.remediation;
  created_at = db_now;
}

unfoldable pub create_finding :
    Draw → Time → FindingInput → Database → Reports → Result Error Finding × Reports
unfolding new_finding refers
create_finding draw db_now input db reports = elim (new_id draw) [
  | none ↦ (err random_failed, reports)
  | some id ↦ elim (refers input.task_id input.run_id db) [
    | some e ↦ (err e, reports)
    | none ↦ (
      ok (new_finding id db_now input),
      record reports { findings = reports.findings ++ new_finding id db_now input ∷ [] },
    )
  ]
]

unfoldable pub new_evidence : Text → Time → EvidenceInput → Evidence
new_evidence id db_now input = record {
  id = id;
  task_id = input.task_id;
  run_id = input.run_id;
  kind = input.kind;
  title = input.title;
  content = or_default input.content (text "{}");
  digest = input.digest;
  created_at = db_now;
}

unfoldable pub create_evidence :
    Draw → Time → EvidenceInput → Database → Reports → Result Error Evidence × Reports
unfolding new_evidence refers
create_evidence draw db_now input db reports = elim (new_id draw) [
  | none ↦ (err random_failed, reports)
  | some id ↦ elim (refers input.task_id input.run_id db) [
    | some e ↦ (err e, reports)
    | none ↦ (
      ok (new_evidence id db_now input),
      record reports { evidence = reports.evidence ++ new_evidence id db_now input ∷ [] },
    )
  ]
]

-- Identifiers are ordered by their bytes.
abbrev text_ltb : Text → Text → Bool
text_ltb [] [] = false
text_ltb [] (y ∷ ys) = true
text_ltb (x ∷ xs) [] = false
text_ltb (x ∷ xs) (y ∷ ys) = ltb x y || (x == y && text_ltb xs ys)

-- `ORDER BY created_at, id`
abbrev pub earlier : Time → Text → Time → Text → Bool
earlier t a u b = ltb t u || (t == u && text_ltb a b)

unfoldable pub list_findings : Text → Reports → List Finding
list_findings task_id reports =
    order_by (λ a b. earlier a.created_at a.id b.created_at b.id)
      (select (λ f. text_eq f.task_id task_id) reports.findings)

unfoldable pub list_evidence : Text → Reports → List Evidence
list_evidence task_id reports =
    order_by (λ a b. earlier a.created_at a.id b.created_at b.id)
      (select (λ e. text_eq e.task_id task_id) reports.evidence)
