-- ===== src/Tasks.antt =====
-- The task core: server/internal/tasks.
pub mod Status
pub mod Types
pub mod Tables
pub mod Store
pub mod Queue
pub mod Supersede
pub mod Events
pub mod Findings
pub mod Trace
pub mod Invariant
pub mod Unique
pub mod Soundness
pub mod Consistent
pub mod Claiming
pub mod Machine
pub mod Numbering
pub mod Intake
pub mod Keyed
pub mod Tests
