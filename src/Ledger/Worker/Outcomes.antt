-- ===== src/Ledger/Worker/Outcomes.antt =====
-- What a submission and a failure leave of a request, and when it is tried again.
use team_nivaran.Common.{
  ℕ, ◌+◌, ◌≤◌, ◌<◌, String, ◌≡◌, ◌∙◌, ◌↔◌, ◌⊎◌, if◌then◌else◌, refl, true, false, some, List, [],
  ◌∷◌, ◌++◌, arith, ◌==◌, inl, inr, Option-cases,
}
use team_nivaran.Common.Lists.{update_where}
use team_nivaran.Common.Rows.{update_found}
use team_nivaran.Common.Results.{ok, Result-cases}
use team_nivaran.Ledger.Model.{
  ProofKind, confirmed, finalized, ProofRequest, LedgerTransaction, of_provider, of_request, Db,
  Client, Submission, ProviderError, Provider, Settings,
}
use team_nivaran.Ledger.Requests.{
  is_candidate, is_finalized, submit_row, fail_row, backoff, confirmed_event, outbox_row,
}
use team_nivaran.Ledger.Worker.{anchor, bind, is_attempt, record_submission, record_failure}

kind_cases : (k : ProofKind) → (k ≡ ProofKind.evidence) ⊎ (k ≡ ProofKind.decision)
kind_cases ProofKind.evidence = inl refl
kind_cases ProofKind.decision = inr refl

module _ (prisma : Client) (active : Provider) (settings : Settings) (request : ProofRequest)
    (now : ℕ) where
  -- The requests after a failure, and when one is found again.
  pub record IsFailed (e : ProviderError) (db after : Db) : Type 0 where
    pub rows :
        after.requests
        ≡ update_where
            (λ r. r.id == request.id)
            (fail_row settings e (request.attempts + 1) now)
            db.requests
    -- Only a retryable failure with attempts left is tried again, and not before its delay.
    pub retried :
        (r : ProofRequest) (owner : String) (later : ℕ)
        → is_candidate owner later (fail_row settings e (request.attempts + 1) now r) ≡ true
        → (e.conflict ≡ false)
          × (e.retryable ≡ true)
          × (request.attempts + 1 < settings.retry_max_attempts)
          × (now + backoff (request.attempts + 1) ≤ later)
    -- It is, by any worker, after 30 seconds at most.
    pub found_again :
        (r : ProofRequest) (owner : String) (later : ℕ)
        → e.conflict ≡ false
        → e.retryable ≡ true
        → request.attempts + 1 < settings.retry_max_attempts
        → now + 30000 ≤ later
        → is_candidate owner later (fail_row settings e (request.attempts + 1) now r) ≡ true

  record_failure_rows :
      (e : ProviderError) (db after : Db)
      → record_failure prisma active settings request e now db ≡ ok (after, tt)
      → (r : ProofRequest) × (rows : List ProofRequest) × (prisma.request_table.update
            (λ r. r.id == request.id)
            (fail_row settings e (request.attempts + 1) now)
            db.requests
          ≡ some (r, rows))
        × (after.requests ≡ rows)
  unfolding record_failure
  record_failure_rows e db after h =
      elim (Option-cases (
        prisma.request_table.update (λ r. r.id == request.id)
          (fail_row settings e (request.attempts + 1) now) db.requests)) [
            | inl gone ↦ absurd (ground arith)
            | inr ((r, rows), changed) ↦ (r, rows, changed, ground arith)
          ]

  -- After a recorded failure the request is a candidate of a later tick only where the failure is
  -- retryable, is no conflict and leaves an attempt, and its delay has passed; then it is one for
  -- every worker after 30 seconds at most.
  pub record_failure-IsFailed :
      (e : ProviderError) (db after : Db)
      → record_failure prisma active settings request e now db ≡ ok (after, tt)
      → IsFailed e db after
  record_failure-IsFailed e db after h =
      let (r, rows, changed, same) = record_failure_rows e db after h in
      record {
        rows = cc (same, (update_found prisma.request_table _ _ db.requests r rows changed).0);
        retried = λ r owner later c. (ground arith, ground arith, ground arith, ground arith);
        found_again = λ r owner later a b c d. ground arith;
      }

  -- The requests and the events after a submission.
  pub record IsAnchored (s : Submission) (db after : Db) : Type 0 where
    pub rows :
        after.requests ≡ update_where (λ r. r.id == request.id) (submit_row s.state now) db.requests
    -- The request is confirmed only where the submission is final.
    pub confirmed_iff :
        (r : ProofRequest) → ((submit_row s.state now r).state ≡ confirmed) ↔ (s.state ≡ finalized)
    -- The confirmation is announced in any case.
    pub announced :
        after.outbox
        ≡ db.outbox
          ++ outbox_row request (request.row_version + 1) "proof.submitted" (of_provider s.state)
            ∷ outbox_row request
                (request.row_version + 2)
                (confirmed_event request.kind)
                (of_request confirmed)
            ∷ []

  anchor_keeps :
      (s : Submission) (db after : Db)
      → anchor prisma active settings request s db ≡ ok after
      → (after.requests ≡ db.requests) × (after.outbox ≡ db.outbox)
  anchor_keeps s db after h = elim (kind_cases request.kind) [
    | inl e ↦ ground arith
    | inr e ↦ ground arith
  ]

  record_submission_parts :
      (s : Submission) (db after : Db)
      → record_submission prisma active settings request s now db ≡ ok (after, tt)
      → (r : ProofRequest) × (rows : List ProofRequest) × (t : LedgerTransaction) × (txs : List
          LedgerTransaction)
        × (bound : Db) × (prisma.request_table.update
              (λ r. r.id == request.id)
              (submit_row s.state now)
              db.requests
            ≡ some (r, rows))
        × (anchor prisma active settings request s (record db {
          bindings = bind prisma active settings request s db.bindings;
          transactions = txs;
          requests = rows;
        })
            ≡ ok bound)
        × (after.requests ≡ bound.requests)
        × (after.outbox
            ≡ bound.outbox
              ++ outbox_row request
                  (request.row_version + 1)
                  "proof.submitted"
                  (of_provider s.state)
                ∷ outbox_row request
                    (request.row_version + 2)
                    (confirmed_event request.kind)
                    (of_request confirmed)
                ∷ [])
  unfolding record_submission
  record_submission_parts s db after h =
      elim (Option-cases (
        prisma.transaction_table.update
          (is_attempt prisma active settings request.id (request.attempts + 1))
          (λ t. record t {
            provider_transaction_id = some s.provider_transaction_id;
            normalized_state = s.state;
            submitted_at = some now;
            finalized_at = if is_finalized s.state then some now else t.finalized_at;
          })
          db.transactions)) [
            | inl gone ↦ absurd (ground arith)
            | inr ((t, txs), attempt) ↦
                elim (Option-cases (
                  prisma.request_table.update (λ r. r.id == request.id) (submit_row s.state now)
                    db.requests)) [
                      | inl gone ↦ absurd (ground arith)
                      | inr ((r, rows), changed) ↦
                          elim (Result-cases (
                            anchor prisma active settings request s (record db {
                              bindings = bind prisma active settings request s db.bindings;
                              transactions = txs;
                              requests = rows;
                            }))) [
                              | inl (e, refused) ↦ absurd (ground arith)
                              | inr (bound, kept) ↦ (
                                r,
                                rows,
                                t,
                                txs,
                                bound,
                                changed,
                                kept,
                                ground arith,
                                ground arith,
                              )
                            ]
                    ]
          ]

  -- A recorded submission confirms the request exactly when the ledger says that it is final; but
  -- after the event of the submission it always adds the event of a confirmation, whose payload has
  -- the status CONFIRMED.
  pub record_submission-IsAnchored :
      (s : Submission) (db after : Db)
      → record_submission prisma active settings request s now db ≡ ok (after, tt)
      → IsAnchored s db after
  record_submission-IsAnchored s db after h =
      let (r, rows, t, txs, bound, changed, kept, same, sent) =
        record_submission_parts s db after h in
      let (requests, outbox) = anchor_keeps s _ bound kept in
      record {
        rows =
            same ∙ requests ∙ (update_found prisma.request_table _ _ db.requests r rows changed).0;
        confirmed_iff = λ r. (λ k. ground arith, λ k. ground arith);
        announced = rw outbox at sent;
      }
