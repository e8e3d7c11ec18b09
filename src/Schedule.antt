-- ===== src/Schedule.antt =====
-- The dispatch scheduler, internal/schedule.
pub mod Types
pub mod Planner
pub mod Snapshots
pub mod Runtime
pub mod Engine
