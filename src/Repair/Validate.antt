-- ===== src/Repair/Validate.antt =====
-- The checks on issues, plans and patches: server/internal/repair/types.go.
use repo_mender.Prelude.{
  ℕ, ◌+◌, Bool, ◌&&◌, ◌||◌, not, Option, none, some, List, [], ◌∷◌, Text, text, text_eq, is_empty,
  is_blank, contains, contains_any, has_prefix, trim_space, slashes, split_slash, to_lower,
  valid_utf8, any, all, ltb, ◌==◌, length, pos, ltb_ℤ, if◌then◌else◌,
}
use repo_mender.Approvals.Validate.{is_hex}
use repo_mender.Repair.Types.{
  Time, Issue, Plan, PlanStep, Patch, PatchFile, TestResult, Error, invalid_trigger, invalid_plan,
  invalid_patch, unsafe_path, protected_path, generated_file, binary_file, patch_too_large,
  secret_detected, tests_failed,
}

-- The first error of a list of checks.
abbrev pub first_error {ℓ} : {A : Type ℓ} → (A → Option Error) → List A → Option Error
first_error check [] = none
first_error check (x ∷ xs) = elim (check x) [ some e ↦ some e | none ↦ first_error check xs ]

abbrev pub and_then : Option Error → Option Error → Option Error
and_then (some e) later = some e
and_then none later = later

-- `^[0-9a-fA-F]{40}$`
unfoldable pub is_sha : Text → Bool
is_sha t = length t == 40 && all is_hex t

unfoldable pub validate_issue : Issue → Time → Option Error
validate_issue issue now =
    if not (text_eq issue.provider (text "github"))
      || is_blank issue.repository
      || is_blank issue.clone_url
      || is_blank issue.installation_id
      || ltb_ℤ issue.number (pos 0)
      || is_blank issue.title
      || issue.is_pull_request
    then some invalid_trigger
    else if ltb_ℤ (pos 0) issue.number
        && not (is_empty issue.state)
        && not (text_eq issue.state (text "open"))
    then some invalid_trigger
    else if is_blank issue.base_branch || not (is_sha (trim_space issue.base_sha))
    then some invalid_trigger
    else if contains_any (13 ∷ 10 ∷ []) issue.base_branch
    then some invalid_trigger
    else if now == 0
    then some invalid_trigger
    else none

unfoldable pub validate_path : Text → Option Error
validate_path value =
    let p = trim_space (slashes value) in
    if is_empty p
      || has_prefix (text "/") p
      || contains_any (13 ∷ 10 ∷ []) p
      || text_eq p (text ".")
      || has_prefix (text ".git/") p
    then some unsafe_path
    else if any (λ segment. text_eq segment (text "..") || is_empty segment) (split_slash p)
    then some unsafe_path
    else none

unfoldable pub is_protected_path : Text → Bool
is_protected_path value =
    let p = slashes value in
    text_eq p (text "CODEOWNERS")
    || text_eq p (text ".github/CODEOWNERS")
    || has_prefix (text ".github/workflows/") p
    || text_eq p (text "compose.yaml")
    || has_prefix (text "compose.") p

abbrev pub forbidden_commands : List Text
forbidden_commands =
    text "git push" ∷ text "git merge" ∷ text "rm -rf" ∷ text "curl | sh" ∷ text "curl|sh" ∷ []

unfoldable pub validate_test_command : Text → Option Error
validate_test_command command =
    let c = trim_space command in
    if is_empty c || ltb 1000 (length c) || contains_any (13 ∷ 10 ∷ []) c
    then some invalid_patch
    else if any (λ forbidden. contains forbidden (to_lower c)) forbidden_commands
    then some invalid_patch
    else none

abbrev pub secret_markers : List Text
secret_markers =
    text "ghp_"
    ∷ text "github_pat_"
    ∷ text "akia"
    ∷ text "-----begin private key-----"
    ∷ text "aws_secret_access_key"
    ∷ text "xoxb-"
    ∷ text "password="
    ∷ text "token="
    ∷ []

unfoldable pub contains_secret : Text → Bool
contains_secret value = any (λ marker. contains marker (to_lower value)) secret_markers

unfoldable pub check_step : PlanStep → Option Error
unfolding validate_path
check_step step =
    if is_blank step.id || is_blank step.description || ltb 10000 (length step.description)
    then some invalid_plan
    else first_error validate_path step.paths

unfoldable pub validate_plan : Plan → Option Error
unfolding check_step validate_test_command
validate_plan plan =
    if not (text_eq plan.schema_version (text "v1"))
      || is_blank plan.summary
      || ltb 20000 (length plan.summary)
      || ltb (length plan.steps) 1
      || ltb 50 (length plan.steps)
    then some invalid_plan
    else and_then (first_error check_step plan.steps) (first_error validate_test_command plan.tests)

-- `MaxPatchBytes` and `MaxFileBytes`
abbrev pub max_patch_bytes : ℕ
max_patch_bytes = 524288

abbrev pub max_file_bytes : ℕ
max_file_bytes = 262144

abbrev pub is_binary : Text → Bool
is_binary t = not (valid_utf8 t) || contains_any (0 ∷ []) t

-- One turn of the loop over the files.
unfoldable pub check_file : Text → PatchFile → Option Error
check_file diff file = elim (validate_path file.path) [
  | some e ↦ some e
  | none ↦
      if is_protected_path file.path
      then some protected_path
      else if file.generated
      then some generated_file
      else if file.binary || is_binary file.content
      then some binary_file
      else if ltb max_file_bytes (length file.content)
      then some patch_too_large
      else if contains_secret file.content || contains_secret diff
      then some secret_detected
      else none
]

abbrev pub total_bytes : List PatchFile → ℕ
total_bytes [] = 0
total_bytes (f ∷ fs) = length f.content + total_bytes fs

unfoldable pub check_test : TestResult → Option Error
check_test test =
    if is_blank test.name || is_blank test.command
    then some invalid_patch
    else elim (validate_test_command test.command) [
      | some e ↦ some e
      | none ↦ if not test.passed then some tests_failed else none
    ]

abbrev pub bad_header : Patch → Text → Bool
bad_header patch expected_base =
    not (text_eq patch.schema_version (text "v1"))
    || is_blank patch.summary
    || not (is_sha patch.base_sha)
    || not (text_eq patch.base_sha expected_base)
    || is_blank patch.diff
    || ltb (length patch.files) 1
    || ltb 100 (length patch.files)
    || ltb max_patch_bytes (length patch.diff)

-- What `ValidatePatch` does behind its loop over the files.
abbrev pub check_totals : Patch → Option Error
check_totals patch =
    if ltb max_patch_bytes (total_bytes patch.files)
    then some patch_too_large
    else if ltb (length patch.tests) 1 || ltb 100 (length patch.tests)
    then some invalid_patch
    else first_error check_test patch.tests

-- `ValidatePatch`: the error, or nothing.
unfoldable pub validate_patch : Patch → Text → Option Error
validate_patch patch expected_base =
    if bad_header patch expected_base
    then some invalid_patch
    else if is_binary patch.diff
    then some binary_file
    else and_then (first_error (check_file patch.diff) patch.files) (check_totals patch)
