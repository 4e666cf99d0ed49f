-- ===== src/Diagnosis/Results.antt =====
-- The results of a diagnosis: `ValidateResult` of server/internal/diagnosis/types.go, and what
-- server/internal/diagnosis/processor.go makes of them.
use repo_mender.Prelude.{
  ℕ, zero, suc, Bool, true, false, ◌&&◌, ◌||◌, not, Option, none, some, List, [], ◌∷◌, ◌++◌, map,
  Text, text, text_eq, is_empty, is_blank, contains_any, trim_space, valid_utf8, reverse, any, take,
  length, ltb, ◌==◌, if◌then◌else◌, ℤ, pos, negsuc, ltb_ℤ,
}
use repo_mender.Tasks.Findings.{Float64, nan, infinite, finite, leb_scaled}
use repo_mender.Diagnosis.Redact.{replace, literal, redact}

pub record Evidence : Type 0 where
  pub source : Text
  pub start_line : ℤ
  pub end_line : ℤ
  pub excerpt : Text

pub record Hypothesis : Type 0 where
  pub root_cause : Text
  pub component : Text
  pub confidence : Float64
  pub evidence : List Evidence
  pub reproduction : Text
  pub recommended_action : Text

pub record Diagnosis : Type 0 where
  pub schema_version : Text
  pub summary : Text
  pub hypotheses : List Hypothesis

-- `math.IsNaN(c) || c < 0 || c > 1`
unfoldable pub bad_confidence : Float64 → Bool
bad_confidence nan = true
bad_confidence (infinite negative) = true
bad_confidence (finite true m e) = not (m == 0)
bad_confidence (finite false m e) = not (leb_scaled m e 1 (pos 0))

unfoldable pub bad_evidence : Evidence → Bool
bad_evidence e =
    ltb_ℤ e.start_line (pos 1)
    || ltb_ℤ e.end_line e.start_line
    || is_blank e.source
    || is_blank e.excerpt
    || ltb 4000 (length e.excerpt)
    || contains_any (b'\\' ∷ 0 ∷ 13 ∷ 10 ∷ []) e.source

abbrev known_reproduction : Text → Bool
known_reproduction t =
    text_eq t (text "confirmed")
    || text_eq t (text "not_reproducible")
    || text_eq t (text "not_attempted")
    || text_eq t (text "blocked")

unfoldable pub bad_hypothesis : Hypothesis → Bool
unfolding bad_confidence bad_evidence
bad_hypothesis h =
    is_blank h.root_cause
    || is_blank h.component
    || is_blank h.recommended_action
    || bad_confidence h.confidence
    || not (known_reproduction h.reproduction)
    || ltb 20 (length h.evidence)
    || any bad_evidence h.evidence

abbrev max_result_bytes : ℕ
max_result_bytes = 1048576

-- `ValidateResult`; the argument is the strict decoder of JSON. Each of its errors is
-- `ErrInvalidResult`, here nothing.
unfoldable pub validate_result : (Text → Option Diagnosis) → Text → Option Diagnosis
unfolding bad_hypothesis
validate_result decode raw =
    if is_empty raw || ltb max_result_bytes (length raw) then none else elim (decode raw) [
      | none ↦ none
      | some r ↦
          if not (text_eq r.schema_version (text "v1"))
            || is_blank r.summary
            || ltb 20000 (length r.summary)
            || ltb (length r.hypotheses) 1
            || ltb 20 (length r.hypotheses)
            || any bad_hypothesis r.hypotheses
          then none
          else some r
    ]

unfoldable pub redact_evidence : List Text → Evidence → Evidence
redact_evidence patterns e = record e {
  source = redact patterns e.source;
  excerpt = redact patterns e.excerpt;
}

unfoldable pub redact_hypothesis : List Text → Hypothesis → Hypothesis
unfolding redact_evidence
redact_hypothesis patterns h = record h {
  root_cause = redact patterns h.root_cause;
  component = redact patterns h.component;
  recommended_action = redact patterns h.recommended_action;
  evidence = map (redact_evidence patterns) h.evidence;
}

unfoldable pub redact_result : List Text → Diagnosis → Diagnosis
unfolding redact_hypothesis
redact_result patterns r = record r {
  summary = redact patterns r.summary;
  hypotheses = map (redact_hypothesis patterns) r.hypotheses;
}

-- `confidence >= 0.9` and `>= 0.7` against the floats nearest to these numbers.
abbrev at_least : ℕ → Float64 → Bool
at_least bound nan = false
at_least bound (infinite negative) = not negative
at_least bound (finite true m e) = false
at_least bound (finite false m e) = leb_scaled bound (negsuc 52) m e

unfoldable pub diagnosis_severity : Float64 → Text
diagnosis_severity c =
    if at_least 8106479329266893 c
    then text "high"
    else if at_least 6305039478318694 c
    then text "medium"
    else text "low"

unfoldable pub trim_dots_left : Text → Text
trim_dots_left [] = []
trim_dots_left (c ∷ s) = let rest = trim_dots_left s in if c == b'.' then rest else c ∷ s

-- `strings.NewReplacer("/", "_", "\\", "_", "..", "_").Replace`
unfoldable pub replace_separators : Text → Text
replace_separators [] = []
replace_separators (c ∷ []) = if c == b'/' || c == b'\\' then b'_' ∷ [] else c ∷ []
replace_separators (c ∷ d ∷ s) =
    let one = replace_separators (d ∷ s) in
    let two = replace_separators s in
    if c == b'/' || c == b'\\'
    then b'_' ∷ one
    else if c == b'.' && d == b'.'
    then b'_' ∷ two
    else c ∷ one

unfoldable pub safe_component : Text → Text
unfolding trim_dots_left replace_separators
safe_component value =
    let v = trim_space value in
    if is_empty v
    then text "workflow"
    else reverse (trim_dots_left (reverse (trim_dots_left (replace_separators v))))

-- The bytes of the character that a text starts with, and 0 where its first byte is in none.
abbrev character_length : Text → ℕ
character_length s =
    if valid_utf8 (take 1 s)
    then 1
    else if valid_utf8 (take 2 s)
    then 2
    else if valid_utf8 (take 3 s)
    then 3
    else if valid_utf8 (take 4 s)
    then 4
    else 0

-- `strings.ToValidUTF8(s, "\uFFFD")`; the number counts the bytes of a character that are still to be
-- copied, and the flag tells whether the byte before was replaced.
abbrev to_valid_from : ℕ → Bool → Text → Text
to_valid_from copy was_bad [] = []
to_valid_from (suc copy) was_bad (c ∷ s) = c ∷ to_valid_from copy false s
to_valid_from zero was_bad (c ∷ s) = elim (character_length (c ∷ s)) [
  | suc more ↦ c ∷ to_valid_from more false s
  | zero ↦ (if was_bad then [] else 239 ∷ 191 ∷ 189 ∷ []) ++ to_valid_from zero true s
]

unfoldable pub safe_event_text : Text → Text
safe_event_text value = replace (literal (0 ∷ []) []) (to_valid_from 0 false value)

abbrev summary_lines : (Float64 → Text) → List Hypothesis → Text
summary_lines percent [] = []
summary_lines percent (h ∷ hs) =
    (10 ∷ 10 ∷ text "- ")
    ++ (h.root_cause
        ++ (text " (confidence "
            ++ (percent h.confidence ++ (text ")" ++ summary_lines percent hs))))

-- The first argument prints `%.0f%%` of a hundred times a confidence.
unfoldable pub diagnosis_summary : (Float64 → Text) → Diagnosis → Text
diagnosis_summary percent r =
    let value =
      text "## RepoMender CI diagnosis"
      ++ (10 ∷ 10 ∷ r.summary)
      ++ summary_lines percent r.hypotheses in
    if ltb 18000 (length value) then take 18000 value ++ (10 ∷ 10 ∷ text "[truncated]") else value
