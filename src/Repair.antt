-- ===== src/Repair.antt =====
-- Issue repairs: server/internal/repair.
pub mod Types
pub mod Validate
pub mod World
pub mod Store
pub mod Service
pub mod Running
pub mod Phases
pub mod Processor
pub mod Trace
pub mod Backed
pub mod Safety
pub mod Resuming
mod Tests
