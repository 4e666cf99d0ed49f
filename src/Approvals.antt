-- ===== src/Approvals.antt =====
-- Approvals: server/internal/approvals.
pub mod Types
pub mod Validate
pub mod Store
pub mod Service
pub mod Trace
pub mod Machine
pub mod Single
pub mod Gate
pub mod Lifecycle
pub mod Authority
pub mod Audited
mod Tests
