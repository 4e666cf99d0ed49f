-- ===== src/Automations.antt =====
-- Automation templates, their published versions and their triggers: server/internal/automations.
pub mod Types
pub mod Store
pub mod Trigger
pub mod Service
pub mod Trace
pub mod Scheduling
pub mod Governed
pub mod Steps
pub mod Once
pub mod Revisions
pub mod Limit
pub mod Matching
mod Tests
