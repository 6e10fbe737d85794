-- ===== src/Ledger/Requests.antt =====
-- The conditions on a proof request and the rows that the proof worker makes of it (the `where` and
-- `data` arguments of proof.worker.ts).
use Prim.Native.String.{◌++◌ as text_append}
use team_nivaran.Common.{
  ℕ, ◌+◌, ◌*◌, ◌^◌, min, String, Bool, true, false, ◌&&◌, ◌||◌, Option, none, some, ltb, leb,
  is_text, if◌then◌else◌,
}
use team_nivaran.Common.Results.{Exception, internal}
use team_nivaran.Ledger.Model.{
  EventStatus, ProofKind, ProofState, pending, submitting, submitted, confirmed, failed_retryable,
  failed_permanent, conflicting, NormalizedState, finalized, ProofRequest, OutboxRow, ProviderError,
  Settings,
}

-- `state: { in: ["PENDING", "FAILED_RETRYABLE", "SUBMITTED"] }`.
abbrev pub is_waiting : ProofState → Bool
is_waiting pending = true
is_waiting failed_retryable = true
is_waiting submitted = true
is_waiting _ = false

abbrev pub is_confirmed : ProofState → Bool
is_confirmed confirmed = true
is_confirmed _ = false

abbrev pub is_submitted : ProofState → Bool
is_submitted submitted = true
is_submitted _ = false

abbrev pub is_finalized : NormalizedState → Bool
is_finalized finalized = true
is_finalized _ = false

-- `{ nextAttemptAt: null }` or `{ nextAttemptAt: { lte: now } }`.
abbrev pub is_due : Option ℕ → ℕ → Bool
is_due none now = true
is_due (some at) now = leb at now

-- `{ leaseExpiresAt: null }` or `{ leaseExpiresAt: { lt: now } }`.
abbrev pub is_expired : Option ℕ → ℕ → Bool
is_expired none now = true
is_expired (some at) now = ltb at now

abbrev pub may_lease : String → ℕ → ProofRequest → Bool
may_lease owner now r = is_expired r.lease_expires_at now || is_text r.lease_owner owner

-- The requests that a tick looks for.
abbrev pub is_candidate : String → ℕ → ProofRequest → Bool
is_candidate owner now r =
    is_waiting r.state && is_due r.next_attempt_at now && may_lease owner now r

abbrev pub lease_row : Settings → ℕ → ProofRequest → ProofRequest
lease_row settings now r = record r {
  lease_owner = some settings.owner;
  lease_expires_at = some (now + settings.lease_seconds * 1000);
}

-- The request while a submission is under way.
abbrev pub begin_row : ProofRequest → ProofRequest
begin_row r = record r {
  state = submitting;
  attempts = r.attempts + 1;
  row_version = r.row_version + 1;
}

-- The request after the provider has taken the proof.
abbrev pub submit_row : NormalizedState → ℕ → ProofRequest → ProofRequest
submit_row state now r = record r {
  state = if is_finalized state then confirmed else submitted;
  submitted_at = some now;
  confirmed_at = if is_finalized state then some now else r.confirmed_at;
  safe_error_code = none;
  lease_owner = none;
  lease_expires_at = none;
  next_attempt_at = none;
  row_version = r.row_version + 1;
}

abbrev pub is_retryable : Settings → ProviderError → ℕ → Bool
is_retryable settings e attempt = e.retryable && ltb attempt settings.retry_max_attempts

abbrev pub failed_state : Settings → ProviderError → ℕ → ProofState
failed_state settings e attempt =
    if e.conflict
    then conflicting
    else if is_retryable settings e attempt
    then failed_retryable
    else failed_permanent

-- `Math.min(30_000, 500 * 2 ** attempt)`.
abbrev pub backoff : ℕ → ℕ
backoff attempt = min 30000 (500 * 2 ^ attempt)

abbrev pub fail_row : Settings → ProviderError → ℕ → ℕ → ProofRequest → ProofRequest
fail_row settings e attempt now r = record r {
  state = failed_state settings e attempt;
  safe_error_code = some e.code;
  next_attempt_at = if is_retryable settings e attempt then some (now + backoff attempt) else none;
  lease_owner = none;
  lease_expires_at = none;
  row_version = r.row_version + 1;
}

-- The exception of `ProviderRegistry.forType`.
abbrev pub not_installed : String → Exception
not_installed provider_type = internal (
    text_append (text_append "Historical ledger provider '" provider_type)
      "' is not installed in this deployment.")

-- An exception that is not the provider's own.
abbrev pub submission_failed : ProviderError
submission_failed = record { code = "LEDGER_SUBMISSION_FAILED"; retryable = true; conflict = false }

abbrev pub confirmed_event : ProofKind → String
confirmed_event ProofKind.evidence = "proof.confirmed"
confirmed_event ProofKind.decision = "decision-proof.confirmed"

abbrev pub outbox_row : ProofRequest → ℕ → String → EventStatus → OutboxRow
outbox_row r version event_type status = record {
  aggregate_id = r.id;
  aggregate_version = version;
  event_type = event_type;
  organization_id = r.organization_id;
  correlation_id = r.correlation_id;
  status = status;
}
