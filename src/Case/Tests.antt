-- ===== src/Case/Tests.antt =====
-- Runs of the commands of the Case Service on a small database, kept as lists.
use team_nivaran.Common.{String, ◌≡◌, refl, true, false, inl, inr, none, some, [], ◌∷◌, arith}
use team_nivaran.Common.Lists.{Memᴰ-cons}
use team_nivaran.Common.Results.{Result, ok}
use team_nivaran.Common.ListTable.{list_table}
use team_nivaran.Case.Model.{CaseStatus, CasePriority, DecisionCase, Db, Client, Call}
use team_nivaran.Case.Rows.{CreateInput, UpdateInput, Change, AskedStatus}
use team_nivaran.Case.Sync.{SyncInput, SyncOutcome, apply_sync, internal_workflow_sync}
use team_nivaran.Case.Sync.Once.{sync_once, consume_twice}
use team_nivaran.Case.Projection.{EvidenceEvent, consume}
use team_nivaran.Case.Lifecycle.{Evolves}
use team_nivaran.Case.Lifecycle.Commands.{to_update, run, run-Evolves}
use team_nivaran.Case.Lifecycle.Edits.{IsKeyed}

abbrev client : Client
client = record {
  case_table = list_table "case-2";
  reference_table = list_table "reference-1";
  party_table = list_table "party-1";
  assignment_table = list_table "assignment-1";
  inbox_table = list_table "inbox-1";
  projection_table = list_table "projection-1";
  idempotency_table = list_table "kept-1";
}

abbrev case_in : CaseStatus → DecisionCase
case_in status = record {
  id = "c";
  organization_id = "o";
  case_number = "DC-2026-000001";
  external_reference = none;
  case_type = "LOAN";
  title = "Loan";
  status = status;
  priority = CasePriority.normal;
  requested_amount_minor = none;
  currency = none;
  opened_at = none;
  decision_due_at = none;
  closed_at = none;
  version = 1;
  created_by = "u";
  updated_by = "u";
}

abbrev db_in : CaseStatus → Db
db_in status = record {
  cases = case_in status ∷ [];
  references = [];
  parties = [];
  assignments = [];
  history = [];
  outbox = [];
  inbox = [];
  projections = [];
  timeline = [];
  idempotency = [];
}

abbrev call : Call
call = record { user_id = "u"; organization_id = "o"; correlation_id = "r"; now = 5 }

abbrev hash : CreateInput → String
hash input = input.title

abbrev number : Db → String
number db = "DC-2026-000002"

abbrev opening : UpdateInput
opening = record {
  version = 1;
  external_reference = Change.keep;
  case_type = Change.keep;
  title = Change.keep;
  priority = Change.keep;
  requested_amount_minor = Change.keep;
  currency = Change.keep;
  decision_due_at = Change.keep;
  status = Change.set AskedStatus.ask_open;
}

keyed : IsKeyed client hash number (db_in CaseStatus.draft)
keyed b m = elim (Memᴰ-cons m) [ inl e ↦ rw e (omega arith) | inr k ↦ elim k [ ] ]

run_example :
    Evolves
      (db_in CaseStatus.draft).cases
      (run client hash number (to_update "c" opening) call (db_in CaseStatus.draft)).cases
run_example =
    run-Evolves client hash number (to_update "c" opening) call (db_in CaseStatus.draft) keyed

abbrev sync_to : CaseStatus → SyncInput
sync_to target = record {
  organization_id = "o";
  case_id = "c";
  operation_id = "op";
  workflow_instance_id = "i";
  target_status = target;
  event_type = "workflow.validation.case-sync";
  reason = none;
  actor_id = "u";
}

abbrev synced : Db × Result SyncOutcome
synced =
    internal_workflow_sync client (sync_to CaseStatus.evidence_collection)
      (db_in CaseStatus.open_case)

abbrev outcome : SyncOutcome
outcome = record {
  applied = true;
  item = record (case_in CaseStatus.evidence_collection) { version = 2 };
}

synced_lem :
    internal_workflow_sync client
      (sync_to CaseStatus.evidence_collection)
      (db_in CaseStatus.open_case)
    ≡ (synced.0, ok outcome)
unfolding internal_workflow_sync apply_sync
synced_lem = refl

sync_once_example :
    ((internal_workflow_sync client (sync_to CaseStatus.under_review) synced.0).0 ≡ synced.0)
    × ((o : SyncOutcome)
        → (internal_workflow_sync client (sync_to CaseStatus.under_review) synced.0).1 ≡ ok o
        → o.applied ≡ false)
sync_once_example =
    sync_once client (sync_to CaseStatus.evidence_collection) (sync_to CaseStatus.under_review)
      (db_in CaseStatus.open_case) synced.0 outcome synced_lem refl

abbrev available : EvidenceEvent
available = record {
  event_id = "e";
  event_type = "evidence.version.available";
  organization_id = some "o";
  aggregate_id = "asset";
  occurred_at = 9;
  case_id = some "c";
  evidence_number = some "EV-1";
  classification_code = some "INVOICE";
  evidence_status = some "ACTIVE";
  source_type = some "UPLOAD";
  evidence_version_id = some "v1";
}

consume_example :
    consume client available (consume client available (db_in CaseStatus.open_case))
    ≡ consume client available (db_in CaseStatus.open_case)
consume_example = consume_twice client available (db_in CaseStatus.open_case)
