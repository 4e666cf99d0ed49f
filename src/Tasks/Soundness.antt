-- ===== src/Tasks/Soundness.antt =====
-- The writes of the store (server/internal/tasks/store.go) and the invariant of the task tables.
pub mod Cancel
pub mod Claim
pub mod Complete
pub mod Supersede
