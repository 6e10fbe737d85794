-- ===== src/Ledger/Tests.antt =====
-- Runs of the proof worker on a small database, kept as lists.
use team_nivaran.Common.{String, ◌≡◌, refl, true, false, none, [], ◌∷◌, Memᴰ, arith, eq_iff}
use team_nivaran.Common.Results.{Result, ok, err}
use team_nivaran.Common.ListTable.{list_table}
use team_nivaran.Ledger.Model.{
  ProofKind, ProofState, NormalizedState, ProofRequest, Db, Client, Submission, ProviderError,
  anchored, Provider, Settings,
}
use team_nivaran.Ledger.Worker.{acquire, record_submission, record_failure, tick}
use team_nivaran.Ledger.Worker.Leases.{acquire_exclusive}
use team_nivaran.Ledger.Worker.Outcomes.{
  IsFailed, IsAnchored, record_failure-IsFailed, record_submission-IsAnchored,
}
use team_nivaran.Ledger.Worker.Stranded.{tick_stranded}

abbrev client : Client
client = record {
  request_table = list_table "request-2";
  binding_table = list_table "binding-1";
  transaction_table = list_table "transaction-2";
  evidence_proof_table = list_table "evidence-2";
  decision_proof_table = list_table "decision-2";
}

-- The ledger has taken the proof, but it is not final yet.
abbrev submission : Submission
submission = record {
  state = NormalizedState.pending_finality;
  provider_transaction_id = "tx";
  provider_proof_reference = "proof";
  provider_contract_reference = "contract";
  provider_network_reference = "network";
  anchored_at = 9;
}

abbrev fabric : Provider
fabric = record {
  provider_type = "FABRIC";
  get_transaction = λ transaction reference. ok NormalizedState.pending_finality;
  submit = λ request. anchored submission;
}

abbrev worker : String → Settings
worker owner = record { owner = owner; lease_seconds = 60; retry_max_attempts = 5 }

abbrev request_in : ProofState → ProofRequest
request_in state = record {
  id = "p";
  proof_id = "proof";
  organization_id = "o";
  kind = ProofKind.evidence;
  canonical_payload = "{}";
  provider_type = "FABRIC";
  state = state;
  attempts = 0;
  next_attempt_at = none;
  lease_owner = none;
  lease_expires_at = none;
  safe_error_code = none;
  requested_at = 1;
  submitted_at = none;
  confirmed_at = none;
  row_version = 1;
  correlation_id = "c";
}

abbrev db_in : ProofState → Db
db_in state = record {
  requests = request_in state ∷ [];
  bindings = [];
  transactions =
      record {
        proof_request_id = "p";
        attempt_number = 1;
        provider_type = "FABRIC";
        provider_transaction_id = none;
        normalized_state = NormalizedState.pending_finality;
        retryable = false;
        safe_error_code = none;
        submitted_at = none;
        finalized_at = none;
      }
      ∷ [];
  evidence_proofs = record { proof_request_id = "p"; anchored_at = none } ∷ [];
  decision_proofs = [];
  outbox = [];
}

leased : (acquire client fabric (worker "a") "p" 10 (db_in ProofState.pending).requests).0 ≡ 1
unfolding acquire
leased = refl

acquire_exclusive_example :
    (acquire client fabric
      (worker "b")
      "p"
      100
      (acquire client fabric (worker "a") "p" 10 (db_in ProofState.pending).requests).1).0
    ≡ 0
acquire_exclusive_example =
    acquire_exclusive client fabric (worker "a") (worker "b") "p" 10 100
      (db_in ProofState.pending).requests (omega arith) leased
      (λ e. let same = (eq_iff "b" "a").1 e in cc) (omega arith)

abbrev timeout : ProviderError
timeout = record { code = "TIMEOUT"; retryable = true; conflict = false }

abbrev db_of : Result (Db × Unit {0}) → Db
db_of (ok (after, done)) = after
db_of (err e) = db_in ProofState.pending

abbrev failed : Db
failed = db_of (
    record_failure client fabric (worker "a") (request_in ProofState.pending) timeout 10
      (db_in ProofState.submitting))

failed_lem :
    record_failure client fabric
      (worker "a")
      (request_in ProofState.pending)
      timeout
      10
      (db_in ProofState.submitting)
    ≡ ok (failed, tt)
unfolding record_failure
failed_lem = refl

record_failure_example :
    IsFailed client fabric
      (worker "a")
      (request_in ProofState.pending)
      10
      timeout
      (db_in ProofState.submitting)
      failed
record_failure_example =
    record_failure-IsFailed client fabric (worker "a") (request_in ProofState.pending) 10 timeout
      (db_in ProofState.submitting) failed failed_lem

abbrev sent : Db
sent = db_of (
    record_submission client fabric (worker "a") (request_in ProofState.pending) submission 10
      (db_in ProofState.submitting))

sent_lem :
    record_submission client fabric
      (worker "a")
      (request_in ProofState.pending)
      submission
      10
      (db_in ProofState.submitting)
    ≡ ok (sent, tt)
unfolding record_submission
sent_lem = refl

record_submission_example :
    IsAnchored client fabric
      (worker "a")
      (request_in ProofState.pending)
      10
      submission
      (db_in ProofState.submitting)
      sent
record_submission_example =
    record_submission-IsAnchored client fabric (worker "a") (request_in ProofState.pending) 10
      submission (db_in ProofState.submitting) sent sent_lem

tick_example :
    Memᴰ
      (request_in ProofState.submitting)
      (tick client fabric (worker "a") 1000000 (db_in ProofState.submitting)).0.requests
tick_example =
    tick_stranded client fabric (worker "a") 1000000 (db_in ProofState.submitting)
      (request_in ProofState.submitting) (omega arith) (Memᴰ.head refl) refl
