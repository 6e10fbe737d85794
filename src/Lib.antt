-- ===== src/Lib.antt =====
-- Team Nivaran: a platform of services that carries a case from its evidence to a final decision
-- by humans, and anchors proofs of both in a ledger. This library models the services' own logic
-- and proves what makes it correct.
--
-- The parts and their files.
-- * Workflow (apps/validation-workflow-service/src/workflow.service.ts): the commands on a case's
--   workflow. Workflow/Model has the rows of prisma/schema.prisma, with the columns that the
--   commands read or write; Workflow/Store the tables, the request around a command and the private
--   helpers (activeInstance, instanceById, taskRow, currentValidation, assertSnapshotCurrent,
--   evidenceSnapshotRows, transitionRecord, event, queueSync). The commands: Workflow/Start (start,
--   reopen), Workflow/Lifecycle (validate, resubmit, withdraw), Workflow/Tasks (claim, assign),
--   Workflow/Review (submitReview, requestCorrection), Workflow/Recommend (recommend),
--   Workflow/Decide (decide; its guards in Guards, its transaction in Commands) and Workflow/Sync
--   (attemptCaseSync).
-- * Workflow/Rules (apps/validation-workflow-service/src/rules.ts): evaluateRules, which validate
--   runs on the case and the evidence that the Case and the Evidence Service answer with.
-- * Identity (apps/identity-access-service/src/auth/auth.service.ts): Identity/Access models
--   toEffectiveIdentity, Identity/Auth login, refresh and logout.
-- * Ledger (apps/ledger-service/src/proof.worker.ts): Ledger/Model has the rows and the provider of
--   ledger-provider.ts, Ledger/Requests the conditions on a request and the rows made of it,
--   Ledger/Worker the tick of the proof worker: the lease, the submission and its outcome.
-- * Case (apps/case-service/src): Case/Model and Case/Rows have the rows, Case/Commands the commands of
--   case.service.ts (create, update, cancel, parties, assignments, external references), Case/Sync its
--   internalWorkflowSync, which the Workflow calls, and Case/Projection the consumer of
--   evidence-projection.consumer.ts. Case/Lifecycle is what clients may rely on of a case's life.
-- * Evidence (apps/evidence-service/src/processing.worker.ts): Evidence/Model and Evidence/Rows have
--   the rows, the storage and the scanner, Evidence/Jobs the lease, the end and the failure of a job (claim,
--   complete, fail), Evidence/Worker the scan and the promotion (scan, rejectInfected, promote),
--   Evidence/Integrity the integrity check, Evidence/Tick the tick that runs them and Evidence/Orphans
--   the last loop of reconcile, which deletes objects. Evidence/Holds models the legal holds of
--   apps/evidence-service/src/evidence.service.ts.
-- * Audit (apps/audit-query-service/src): Audit/Json, Audit/Sanitize, Audit/Cursor and Audit/Csv
--   model audit-crypto.ts, Audit/Patterns its pattern of blocked keys and those of event.consumer.ts,
--   Audit/Chain the hash chain (verifyChain and appendControlRecord of audit.service.ts, append of
--   event.consumer.ts) and Audit/Search the pages of search of audit.service.ts.
--
-- How they interact. The Workflow asks the Identity Service whether a user is eligible, the Evidence
-- Service for the evidence and the Case Service for the case; it tells the Case Service of a new
-- status by an operation that is queued in the transaction and attempted after it. These calls are
-- the fields of the record Services, each of which may fail; the Case Service's side of the last one is
-- Case/Sync, where the operation's id is the key. The events of the Evidence Service reach the Case
-- Service's projection and, as those of all services, the audit chain.
--
-- How the code corresponds. A table is the list of its rows, a database the record of its tables. A
-- command is a function from the database to the database and a result; an exception is a value
-- (Common/Results). A transaction that throws is rolled back, so it is a function into a result, and
-- what a command commits before it throws stays. The database client (Prisma, a third-party package)
-- is a parameter: Common/Tables is its interface, with the documented behaviour that the proofs use;
-- Common/ListTable is one implementation, on which the tests run. Which row an unordered query finds
-- is left open, and so is how the database orders texts; NULL comes first in a descending order. The
-- object storage, the malware scanner, JSON.stringify, SHA-256, HMAC and base64url
-- are parameters too. The clock, fresh ids and random values are arguments, as are the hash functions, the
-- check of a password and the signature of a token.
--
-- Bounds. Versions, cycles, times in milliseconds and amounts are natural numbers without an upper
-- bound; they stay far below 2^53 in the source. The lengths and the order of texts are those of
-- their UTF-16 code units, as JavaScript counts them. Every loop is over a list, so no fuel is needed.
--
-- Not modelled: the parsing of requests and stored configurations (a model starts from parsed
-- values), HTTP, Kafka and the outbox publishers, isolation between concurrent transactions (a
-- transaction is one step), definition drafts, comments, recommendation drafts and read queries; in
-- the Ledger the creation and verification of proofs; in the Evidence Service the uploads, the
-- accesses and the reconciliation of leases and abandoned sessions; in the audit service the
-- normalization of events and the runs of reports and exports; and the services for ingestion and AI
-- assessments, with the gateway and the portal.
pub mod Common
pub mod Workflow
pub mod Identity
pub mod Case
pub mod Evidence
pub mod Audit
pub mod Ledger
