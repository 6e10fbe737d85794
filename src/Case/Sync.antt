-- ===== src/Case/Sync.antt =====
-- The synchronization of a case with its Workflow (`internalWorkflowSync` of case.service.ts).
pub mod Once
use Prim.Native.String.{◌++◌ as text_append}
use team_nivaran.Common.{
  ℕ, ◌+◌, String, Bool, true, false, ◌&&◌, ◌||◌, not, Option, none, some, List, [], ◌∷◌, ◌++◌, ◌==◌,
  is_none, if◌then◌else◌,
}
use team_nivaran.Common.Results.{
  Result, ok, err, conflict, unprocessable, require, settle, ◌>>=◌, ◌>>◌, written,
}
use team_nivaran.Case.Model.{
  CaseStatus, evidence_collection, under_review, decision_pending, decided, closed, cancelled,
  DecisionCase, StatusRow, InboxRow, Db, Client, case_of,
}
use team_nivaran.Case.Rows.{same_status}

pub record SyncInput : Type 0 where
  pub organization_id : String
  pub case_id : String
  pub operation_id : String
  pub workflow_instance_id : String
  pub target_status : CaseStatus
  pub event_type : String
  pub reason : Option String
  pub actor_id : String

pub record SyncOutcome : Type 0 where
  pub applied : Bool
  pub item : DecisionCase

-- The set `allowed`.
abbrev pub is_allowed : CaseStatus → Bool
is_allowed evidence_collection = true
is_allowed under_review = true
is_allowed decision_pending = true
is_allowed decided = true
is_allowed _ = false

abbrev pub is_decided : CaseStatus → Bool
is_decided decided = true
is_decided _ = false

abbrev pub is_shut : CaseStatus → Bool
is_shut cancelled = true
is_shut closed = true
is_shut _ = false

abbrev pub sync_row : SyncInput → ℕ → DecisionCase → DecisionCase
sync_row input version c = record c {
  status = input.target_status;
  version = version;
  updated_by = input.actor_id;
}

abbrev sync_reason : SyncInput → String
sync_reason input = elim input.reason [
  | some reason ↦ reason
  | none ↦ text_append (text_append "Workflow " input.workflow_instance_id) " synchronization."
]

module _ (prisma : Client) where
  open prisma use {case_table, inbox_table}

  -- The change of the status, where there is one.
  abbrev move : SyncInput → DecisionCase → Db → Result (Db × DecisionCase)
  move input current db = do
    (updated, cases) ← written (
        case_table.update (λ c. c.id == current.id) (sync_row input (current.version + 1)) db.cases)
    ok (
      record db {
        cases = cases;
        history =
            db.history
            ++ record {
              case_id = current.id;
              from_status = some current.status;
              to_status = input.target_status;
              reason = some (sync_reason input);
              changed_by = input.actor_id;
              version = current.version + 1;
            }
              ∷ [];
      },
      updated,
    )

  -- An operation that the inbox does not have yet.
  unfoldable pub apply_sync : SyncInput → Db → Result (Db × SyncOutcome)
  apply_sync input db = do
    current ← case_of prisma input.case_id input.organization_id db
    require
        (not (
          is_shut current.status
          || (is_decided current.status && not (is_decided input.target_status))))
        (conflict "The Case state no longer permits Workflow synchronization.")
    (after, updated) ←
        if same_status current.status input.target_status
        then ok (db, current)
        else move input current db
    ok (
      record after {
        inbox =
            after.inbox
            ++ record { event_id = input.operation_id; event_type = input.event_type } ∷ [];
      },
      record { applied = true; item = updated },
    )

  abbrev pub is_operation : String → InboxRow → Bool
  is_operation id r = r.event_id == id

  unfoldable pub internal_workflow_sync : SyncInput → Db → Db × Result SyncOutcome
  internal_workflow_sync input db = settle db (do
    require (is_allowed input.target_status) (unprocessable "Unsupported Workflow Case status.")
    elim (inbox_table.find_first (is_operation input.operation_id) db.inbox) [
      | some prior ↦ do
        current ← case_of prisma input.case_id input.organization_id db
        ok (db, record { applied = false; item = current })
      | none ↦ apply_sync input db
    ])
