-- ===== src/Tasks/Types.antt =====
-- The rows of the tables `tasks`, `runs`, `run_events` and `audit_events`, and the inputs of the
-- store: server/internal/tasks/types.go.
use repo_mender.Prelude.{ℕ, Bool, Option, List, Text, ℤ, Result}
use repo_mender.Tasks.Status.{Kind, Status}

-- Nanoseconds from Go's zero time, which is 0.
abbrev pub Time : Type 0
Time = ℕ

pub record Task : Type 0 where
  pub id : Text
  pub kind : Kind
  pub status : Status
  pub title : Text
  pub repository_id : Text
  pub repository_name : Text
  pub source_key : Text
  pub payload : Text
  pub priority : ℤ
  pub attempts : ℕ
  pub max_attempts : ℕ
  pub available_at : Time
  pub lease_owner : Text
  pub lease_until : Option Time
  pub last_error : Text
  pub superseded_by : Text
  pub created_by : Text
  pub created_at : Time
  pub updated_at : Time
  pub started_at : Option Time
  pub finished_at : Option Time

pub record Run : Type 0 where
  pub id : Text
  pub task_id : Text
  pub attempt : ℕ
  pub status : Status
  pub correlation_id : Text
  pub external_run_id : Text
  pub error_code : Text
  pub error_message : Text
  pub created_at : Time
  pub started_at : Option Time
  pub finished_at : Option Time

pub record RunEvent : Type 0 where
  pub run_id : Text
  pub sequence : ℕ
  pub kind : Text
  pub stream : Text
  pub message : Text
  pub payload : Text
  pub terminal : Bool
  pub created_at : Time

pub record AuditEvent : Type 0 where
  pub id : Text
  pub actor_id : Text
  pub action : Text
  pub resource_type : Text
  pub resource_id : Text
  pub outcome : Text
  pub correlation_id : Text
  pub metadata : Text
  pub created_at : Time

-- `kind` is still a text here: `CreateTask` is what checks it. A `nil` payload is `none`.
pub record CreateInput : Type 0 where
  pub kind : Text
  pub title : Text
  pub repository_id : Text
  pub repository_name : Text
  pub source_key : Text
  pub payload : Option Text
  pub priority : ℤ
  pub max_attempts : ℤ
  pub created_by : Text
  pub created_at : Time

pub record RunEventInput : Type 0 where
  pub kind : Text
  pub stream : Text
  pub message : Text
  pub payload : Option Text
  pub terminal : Bool

pub record AuditInput : Type 0 where
  pub actor_id : Text
  pub action : Text
  pub resource_type : Text
  pub resource_id : Text
  pub outcome : Text
  pub correlation_id : Text
  pub metadata : Option Text

pub data Error : Type 0 where
  invalid_kind invalid_status invalid_transition task_not_found run_not_found lease_lost : Error
  missing_fields owner_required lease_not_positive random_failed : Error
  constraint_violated : Error

-- The tables, each in the order of insertion.
pub record Database : Type 0 where
  pub tasks : List Task
  pub runs : List Run
  pub events : List RunEvent
  pub audit : List AuditEvent

-- What a claim sees of PostgreSQL: its `now()`, and the tasks that other open transactions lock.
pub record Snapshot : Type 0 where
  pub time : Time
  pub locked : Text → Bool

-- A store operation: its result, and the database once its transaction is committed or rolled back.
abbrev pub Operation : Type 0 → Type 0
Operation A = Database → Result Error A × Database
