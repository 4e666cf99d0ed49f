-- ===== src/Diagnosis.antt =====
-- The diagnosis of failed CI runs: server/internal/diagnosis.
pub mod Redact
pub mod Logs
pub mod Tokens
pub mod Clean
pub mod Complete
pub mod Excerpts
pub mod Events
pub mod Intake
pub mod Results
pub mod Storing
pub mod Processor
pub mod Steps
pub mod Publishing
mod Tests
