-- ===== src/Audit.antt =====
-- The Audit query service (apps/audit-query-service/src): its hash chain, exports and cursors.
pub mod Json
pub mod Csv
pub mod Patterns
pub mod Sanitize
pub mod Model
pub mod Chain
pub mod Cursor
pub mod Search
pub mod Tests
