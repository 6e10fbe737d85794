-- ===== src/Ledger.antt =====
-- The Ledger Service (apps/ledger-service/src): the worker that anchors the proofs of evidence and
-- of decisions in a ledger.
pub mod Model
pub mod Requests
pub mod Worker
pub mod Tests
