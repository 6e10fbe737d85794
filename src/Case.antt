-- ===== src/Case.antt =====
-- The Case Service (apps/case-service/src): the cases, their parties and assignments, and the
-- statuses that the Workflow moves them through.
pub mod Model
pub mod Rows
pub mod Commands
pub mod Sync
pub mod Projection
pub mod Lifecycle
pub mod Tests
