-- ===== src/Ledger/Worker.antt =====
-- One tick of the proof worker (`tick`, `process`, `confirmExisting` of proof.worker.ts).
pub mod Leases
pub mod Stranded
pub mod Outcomes
use Prim.Native.String.{◌++◌ as text_append}
use team_nivaran.Common.{
  ℕ, ◌+◌, ◌*◌, ◌^◌, min, String, Bool, true, false, ◌&&◌, ◌||◌, not, Option, none, some, List, [],
  ◌∷◌, ◌++◌, ◌==◌, ltb, leb, eqb, is_none, is_text, if◌then◌else◌,
}
use team_nivaran.Common.Results.{
  Exception, Result, ok, err, internal, require, or_throw, settle, ◌>>=◌, ◌>>◌, written,
}
use team_nivaran.Ledger.Model.{
  EventStatus, ProofKind, ProofState, pending, submitting, submitted, confirmed, failed_retryable,
  failed_permanent, conflicting, NormalizedState, pending_finality, finalized, rejected,
  unavailable, ProofRequest, Binding, LedgerTransaction, ProofRecord, of_provider, of_request,
  OutboxRow, Db, Client, Submission, ProviderError, Answer, anchored, refused, broken, Provider,
  Settings,
}
use team_nivaran.Ledger.Requests.{
  is_waiting, is_confirmed, is_submitted, is_finalized, is_due, is_expired, may_lease, is_candidate,
  lease_row, begin_row, submit_row, is_retryable, failed_state, backoff, fail_row, not_installed,
  submission_failed, confirmed_event, outbox_row,
}

module _ (prisma : Client) (active : Provider) (settings : Settings) where
  open prisma use {
    request_table, binding_table, transaction_table, evidence_proof_table, decision_proof_table,
  }

  -- The lease of a request: how many rows were leased, and the requests afterwards.
  unfoldable pub acquire : String → ℕ → List ProofRequest → ℕ × List ProofRequest
  acquire id now requests =
      request_table.update_many (λ r. r.id == id && may_lease settings.owner now r)
        (lease_row settings now) requests

  unfoldable pub confirm_existing : String → ℕ → Db → Result (Db × Unit {0})
  confirm_existing id now db = do
    (row, requests) ← written (
        request_table.update (λ r. r.id == id)
          (λ r. record r {
            state = confirmed;
            confirmed_at = some now;
            lease_owner = none;
            lease_expires_at = none;
            row_version = r.row_version + 1;
          })
          db.requests)
    ok (record db { requests = requests }, tt)

  abbrev pub is_attempt : String → ℕ → LedgerTransaction → Bool
  is_attempt id attempt t = t.proof_request_id == id && eqb t.attempt_number attempt

  -- The two writes before a submission, each on its own.
  unfoldable pub begin_attempt : ProofRequest → Db → Db × Result (Unit {0})
  begin_attempt request db =
      elim (request_table.update (λ r. r.id == request.id) begin_row db.requests) [
        | none ↦ (db, err (internal "No record was found for an update."))
        | some (row, requests) ↦
            let after : Db = record db { requests = requests } in
            settle after (do
              require
                  (eqb
                    (transaction_table.count_rows (is_attempt request.id (request.attempts + 1))
                      db.transactions)
                    0)
                  (internal "Unique constraint failed.")
              ok (
                record after {
                  transactions =
                      db.transactions
                      ++ record {
                        proof_request_id = request.id;
                        attempt_number = request.attempts + 1;
                        provider_type = request.provider_type;
                        provider_transaction_id = none;
                        normalized_state = pending_finality;
                        retryable = false;
                        safe_error_code = none;
                        submitted_at = none;
                        finalized_at = none;
                      }
                        ∷ [];
                },
                tt,
              ))
      ]

  -- The binding of the request to the provider's transaction.
  abbrev pub bind : ProofRequest → Submission → List Binding → List Binding
  bind request s bindings =
      binding_table.upsert (λ b. b.proof_request_id == request.id)
        (λ b. record b {
          provider_transaction_id = some s.provider_transaction_id;
          provider_proof_reference = some s.provider_proof_reference;
        })
        (record {
          proof_request_id = request.id;
          provider_type = request.provider_type;
          provider_transaction_id = some s.provider_transaction_id;
          provider_proof_reference = some s.provider_proof_reference;
          provider_contract_reference = s.provider_contract_reference;
          provider_network_reference = s.provider_network_reference;
        })
        bindings

  -- The proof record of the request's kind gets the time of anchoring.
  abbrev pub anchor : ProofRequest → Submission → Db → Result Db
  anchor request s db = elim request.kind [
    | ProofKind.evidence ↦ do
      (row, proofs) ← written (
          evidence_proof_table.update (λ p. p.proof_request_id == request.id)
            (λ p. record p { anchored_at = some s.anchored_at }) db.evidence_proofs)
      ok (record db { evidence_proofs = proofs })
    | ProofKind.decision ↦ do
      (row, proofs) ← written (
          decision_proof_table.update (λ p. p.proof_request_id == request.id)
            (λ p. record p { anchored_at = some s.anchored_at }) db.decision_proofs)
      ok (record db { decision_proofs = proofs })
  ]

  -- The transaction after a submission.
  unfoldable pub record_submission : ProofRequest → Submission → ℕ → Db → Result (Db × Unit {0})
  record_submission request s now db = do
    (attempt_row, transactions) ← written (
        transaction_table.update (is_attempt request.id (request.attempts + 1))
          (λ t. record t {
            provider_transaction_id = some s.provider_transaction_id;
            normalized_state = s.state;
            submitted_at = some now;
            finalized_at = if is_finalized s.state then some now else t.finalized_at;
          })
          db.transactions)
    (row, requests) ←
        written
          (request_table.update (λ r. r.id == request.id) (submit_row s.state now) db.requests)
    after ← anchor request s (record db {
      bindings = bind request s db.bindings;
      transactions = transactions;
      requests = requests;
    })
    ok (
      record after {
        outbox =
            after.outbox
            ++ outbox_row request (request.row_version + 1) "proof.submitted" (of_provider s.state)
              ∷ outbox_row request (request.row_version + 2) (confirmed_event request.kind)
                  (of_request confirmed)
              ∷ [];
      },
      tt,
    )

  -- The transaction after a failure.
  unfoldable pub record_failure : ProofRequest → ProviderError → ℕ → Db → Result (Db × Unit {0})
  record_failure request e now db = do
    let attempt = request.attempts + 1
    (attempt_row, transactions) ← written (
        transaction_table.update (is_attempt request.id attempt)
          (λ t. record t {
            normalized_state = if e.conflict then rejected else unavailable;
            retryable = is_retryable settings e attempt;
            safe_error_code = some e.code;
          })
          db.transactions)
    (row, requests) ← written (
        request_table.update (λ r. r.id == request.id) (fail_row settings e attempt now)
          db.requests)
    ok (
      record db {
        transactions = transactions;
        requests = requests;
        outbox =
            db.outbox
            ++ outbox_row request (request.row_version + 2) "proof.failed"
                (of_request (failed_state settings e attempt))
              ∷ [];
      },
      tt,
    )

  -- The `try` and its `catch`.
  unfoldable pub conclude : ProofRequest → Answer → ℕ → Db → Db × Result (Unit {0})
  conclude request (refused e) now db = settle db (record_failure request e now db)
  conclude request broken now db = settle db (record_failure request submission_failed now db)
  conclude request (anchored s) now db = elim (record_submission request s now db) [
    | ok (after, done) ↦ (after, ok done)
    | err e ↦ settle db (record_failure request submission_failed now db)
  ]

  -- A submission, from the change of state on.
  unfoldable pub submit : Provider → ProofRequest → ℕ → Db → Db × Result (Unit {0})
  submit provider request now db =
      let (begun, outcome) = begin_attempt request db in
      elim outcome [
        | err e ↦ (begun, err e)
        | ok done ↦ conclude request (provider.submit request) now begun
      ]

  -- The transaction and the proof reference of a submitted request, where it is bound.
  abbrev pub bound : ProofRequest → Db → Option (String × String)
  bound request db =
      elim (binding_table.find_first (λ b. b.proof_request_id == request.id) db.bindings) [
        | none ↦ none
        | some b ↦ elim b.provider_transaction_id [
          | none ↦ none
          | some id ↦
              if is_submitted request.state && not (id == "")
              then some (
                id,
                elim b.provider_proof_reference [
                  | none ↦ request.proof_id
                  | some reference ↦ reference
                ],
              )
              else none
        ]
      ]

  unfoldable pub process_with : Provider → ProofRequest → ℕ → Db → Db × Result (Unit {0})
  process_with provider request now db = elim (bound request db) [
    | none ↦ submit provider request now db
    | some (id, reference) ↦ elim (provider.get_transaction id reference) [
      | err e ↦ (db, err e)
      | ok state ↦
          let again = submit provider request now db in
          if is_finalized state then settle db (confirm_existing request.id now db) else again
    ]
  ]

  unfoldable pub process : String → ℕ → Db → Db × Result (Unit {0})
  process id now db = elim (request_table.find_first (λ r. r.id == id) db.requests) [
    | none ↦ (db, ok tt)
    | some request ↦
        if is_confirmed request.state
        then (db, ok tt)
        else let run = process_with active request now db in
          if request.provider_type == active.provider_type
          then run
          else (db, err (not_installed request.provider_type))
  ]

  unfoldable pub tick : ℕ → Db → Db × Result (Unit {0})
  tick now db =
      elim (request_table.find_earliest (is_candidate settings.owner now) (λ r. r.requested_at)
        db.requests) [
          | none ↦ (db, ok tt)
          | some candidate ↦
              let (leased, requests) = acquire candidate.id now db.requests in
              let after : Db = record db { requests = requests } in
              if eqb leased 1 then process candidate.id now after else (after, ok tt)
        ]
