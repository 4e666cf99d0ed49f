-- ===== src/Tasks/Status.antt =====
-- Task kinds, task states and their transitions: server/internal/tasks/types.go.
use repo_mender.Prelude.{
  ℕ, Bool, ◌||◌, Option, none, some, List, [], ◌∷◌, Text, text, text_eq, any, ◌==◌, if◌then◌else◌,
}

pub data Kind : Type 0 where
  code_review ci_diagnosis issue_repair : Kind

pub data Status : Type 0 where
  queued running awaiting_approval succeeded failed cancelled superseded : Status

-- The text of each constant.
unfoldable pub kind_text : Kind → Text
kind_text code_review = text "code_review"
kind_text ci_diagnosis = text "ci_diagnosis"
kind_text issue_repair = text "issue_repair"

unfoldable pub status_text : Status → Text
status_text queued = text "queued"
status_text running = text "running"
status_text awaiting_approval = text "awaiting_approval"
status_text succeeded = text "succeeded"
status_text failed = text "failed"
status_text cancelled = text "cancelled"
status_text superseded = text "superseded"

abbrev rank : Status → ℕ
rank queued = 0
rank running = 1
rank awaiting_approval = 2
rank succeeded = 3
rank failed = 4
rank cancelled = 5
rank superseded = 6

-- `==` on states
abbrev pub status_eq : Status → Status → Bool
status_eq a b = rank a == rank b

abbrev kind_rank : Kind → ℕ
kind_rank code_review = 0
kind_rank ci_diagnosis = 1
kind_rank issue_repair = 2

abbrev pub kind_eq : Kind → Kind → Bool
kind_eq a b = kind_rank a == kind_rank b

-- `ValidKind`, which also tells which constant the text is.
unfoldable pub valid_kind : Text → Option Kind
valid_kind t =
    if text_eq t (kind_text code_review)
    then some code_review
    else if text_eq t (kind_text ci_diagnosis)
    then some ci_diagnosis
    else if text_eq t (kind_text issue_repair)
    then some issue_repair
    else none

-- `ValidStatus`, likewise.
unfoldable pub valid_status : Text → Option Status
valid_status t =
    if text_eq t (status_text queued)
    then some queued
    else if text_eq t (status_text running)
    then some running
    else if text_eq t (status_text awaiting_approval)
    then some awaiting_approval
    else if text_eq t (status_text succeeded)
    then some succeeded
    else if text_eq t (status_text failed)
    then some failed
    else if text_eq t (status_text cancelled)
    then some cancelled
    else if text_eq t (status_text superseded)
    then some superseded
    else none

-- The table `allowed` of `CanTransition`.
abbrev pub allowed : Status → List Status
allowed queued = running ∷ cancelled ∷ superseded ∷ []
allowed running = awaiting_approval ∷ succeeded ∷ failed ∷ cancelled ∷ superseded ∷ []
allowed awaiting_approval = queued ∷ succeeded ∷ failed ∷ cancelled ∷ superseded ∷ []
allowed failed = queued ∷ cancelled ∷ superseded ∷ []
allowed cancelled = queued ∷ superseded ∷ []
allowed succeeded = superseded ∷ []
allowed superseded = []

unfoldable pub can_transition : Status → Status → Bool
can_transition from to =
    if status_eq from to
    then status_eq from running || status_eq from awaiting_approval
    else any (λ candidate. status_eq candidate to) (allowed from)
