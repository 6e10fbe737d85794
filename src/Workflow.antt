-- ===== src/Workflow.antt =====
-- The Validation Workflow Service (apps/validation-workflow-service/src): human task queues and the
-- review, recommendation and decision of a case. The state is in `Model`; each command is in a
-- module of its own, with its proofs below it.
pub mod Model
pub mod Rules
pub mod Store
pub mod Tasks
pub mod Review
pub mod Recommend
pub mod Sync
pub mod Decide
pub mod Lifecycle
pub mod Start
pub mod Tests
