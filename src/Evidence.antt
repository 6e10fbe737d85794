-- ===== src/Evidence.antt =====
-- The Evidence Service (apps/evidence-service/src): the processing of uploaded versions.
pub mod Model
pub mod Jobs
pub mod Rows
pub mod Worker
pub mod Integrity
pub mod Tick
pub mod Holds
pub mod Orphans
pub mod Tests
