-- ===== src/Ledger/Model.antt =====
-- The rows of the Ledger database (prisma/schema.prisma), with the columns that proof.worker.ts
-- reads or writes, and the provider of a ledger (ledger-provider.ts). Times are in milliseconds.
use team_nivaran.Common.{ℕ, String, Bool, Option, List}
use team_nivaran.Common.Results.{Result}
use team_nivaran.Common.Tables.{Table}

pub data ProofKind : Type 0 where
  evidence decision : ProofKind

pub data ProofState : Type 0 where
  pending submitting submitted confirmed failed_retryable failed_permanent conflicting : ProofState

-- `ProviderNormalizedState`.
pub data NormalizedState : Type 0 where
  accepted pending_finality finalized rejected not_found unavailable : NormalizedState

pub record ProofRequest : Type 0 where
  pub id : String
  pub proof_id : String
  pub organization_id : String
  pub kind : ProofKind
  pub canonical_payload : String
  pub provider_type : String
  pub state : ProofState
  pub attempts : ℕ
  pub next_attempt_at : Option ℕ
  pub lease_owner : Option String
  pub lease_expires_at : Option ℕ
  pub safe_error_code : Option String
  pub requested_at : ℕ
  pub submitted_at : Option ℕ
  pub confirmed_at : Option ℕ
  pub row_version : ℕ
  pub correlation_id : String

pub record Binding : Type 0 where
  pub proof_request_id : String
  pub provider_type : String
  pub provider_transaction_id : Option String
  pub provider_proof_reference : Option String
  pub provider_contract_reference : String
  pub provider_network_reference : String

pub record LedgerTransaction : Type 0 where
  pub proof_request_id : String
  pub attempt_number : ℕ
  pub provider_type : String
  pub provider_transaction_id : Option String
  pub normalized_state : NormalizedState
  pub retryable : Bool
  pub safe_error_code : Option String
  pub submitted_at : Option ℕ
  pub finalized_at : Option ℕ

-- A row of `evidence_proof_records` or of `decision_proof_records`.
pub record ProofRecord : Type 0 where
  pub proof_request_id : String
  pub anchored_at : Option ℕ

-- The status in the payload of an event.
pub data EventStatus : Type 0 where
  of_provider : NormalizedState → EventStatus
  of_request : ProofState → EventStatus

pub record OutboxRow : Type 0 where
  pub aggregate_id : String
  pub aggregate_version : ℕ
  pub event_type : String
  pub organization_id : String
  pub correlation_id : String
  pub status : EventStatus

pub record Db : Type 0 where
  pub requests : List ProofRequest
  pub bindings : List Binding
  pub transactions : List LedgerTransaction
  pub evidence_proofs : List ProofRecord
  pub decision_proofs : List ProofRecord
  pub outbox : List OutboxRow

pub record Client : Type 0 where
  pub request_table : Table ProofRequest
  pub binding_table : Table Binding
  pub transaction_table : Table LedgerTransaction
  pub evidence_proof_table : Table ProofRecord
  pub decision_proof_table : Table ProofRecord

-- `ProviderSubmission`.
pub record Submission : Type 0 where
  pub state : NormalizedState
  pub provider_transaction_id : String
  pub provider_proof_reference : String
  pub provider_contract_reference : String
  pub provider_network_reference : String
  pub anchored_at : ℕ

-- `LedgerProviderError`.
pub record ProviderError : Type 0 where
  pub code : String
  pub retryable : Bool
  pub conflict : Bool

-- How `submitProof` ends: with a submission, its own error, or any other exception.
pub data Answer : Type 0 where
  anchored : Submission → Answer
  refused : ProviderError → Answer
  broken : Answer

-- A connected ledger. `submit` is given the request, whose canonical payload and proof id it sends.
pub record Provider : Type 0 where
  pub provider_type : String
  pub get_transaction :
      (transaction_id : String) (proof_reference : String) → Result NormalizedState
  pub submit : ProofRequest → Answer

-- environment.ts, and the worker's own name.
pub record Settings : Type 0 where
  pub owner : String
  pub lease_seconds : ℕ
  pub retry_max_attempts : ℕ
