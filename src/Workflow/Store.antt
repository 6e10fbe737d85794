-- ===== src/Workflow/Store.antt =====
-- The Workflow database, its client and the other services as the commands see them, and the private
-- helpers of workflow.service.ts.
pub mod Snapshot
pub mod Validated
use mathlib.Core.Option
use team_nivaran.Common.{
  ℕ, zero, suc, ◌+◌, ◌*◌, String, Bool, true, false, ◌&&◌, ◌||◌, Option, none, some, List, [], ◌∷◌,
  ◌++◌, map, ◌==◌, eqb, if◌then◌else◌, truncate,
}
use team_nivaran.Common.Results.{
  Exception, Result, ok, err, not_found, conflict, internal, require, or_throw, ◌>>=◌, ◌>>◌,
  written,
}
use team_nivaran.Common.Tables.{Table}
use team_nivaran.Workflow.Rules.{EvidenceItem, CaseSnapshot}
use team_nivaran.Workflow.Model.{
  WorkflowState, TaskStatus, claimed, WorkflowInstance, WorkflowTask, DefinitionVersion,
  ValidationRun, ReviewSubmission, Recommendation, Decision, EvidenceRow, Correction, ActionActor,
  HistoryRow, AssignmentRow, OutboxRow, SyncOperation, SyncStatus, IdempotencyRecord,
}

pub record Db : Type 0 where
  pub instances : List WorkflowInstance
  pub tasks : List WorkflowTask
  pub versions : List DefinitionVersion
  pub validations : List ValidationRun
  pub reviews : List ReviewSubmission
  pub recommendations : List Recommendation
  pub decisions : List Decision
  pub review_evidence : List EvidenceRow
  pub recommendation_evidence : List EvidenceRow
  pub decision_evidence : List EvidenceRow
  pub corrections : List Correction
  pub actors : List ActionActor
  pub history : List HistoryRow
  pub assignments : List AssignmentRow
  pub outbox : List OutboxRow
  pub syncs : List SyncOperation
  pub idempotency : List IdempotencyRecord

pub record Client : Type 0 where
  pub instance_table : Table WorkflowInstance
  pub task_table : Table WorkflowTask
  pub version_table : Table DefinitionVersion
  pub validation_table : Table ValidationRun
  pub review_table : Table ReviewSubmission
  pub recommendation_table : Table Recommendation
  pub decision_table : Table Decision
  pub correction_table : Table Correction
  pub actor_table : Table ActionActor
  pub sync_table : Table SyncOperation
  pub idempotency_table : Table IdempotencyRecord

-- The calls of the Identity, Evidence and Case services, each of which may fail.
pub record Services : Type 0 where
  pub eligible : (organization_id user_id permission : String) → Result Bool
  pub evidence : (organization_id case_id : String) → Result (List EvidenceItem)
  pub case_snapshot : (organization_id case_id : String) → Result CaseSnapshot
  pub sync : SyncOperation → WorkflowInstance → Result (Unit {0})

pub record Identity : Type 0 where
  pub user_id : String
  pub organization_id : String

-- The request around a command: the caller, the correlation id, and the clock.
pub record Call : Type 0 where
  pub identity : Identity
  pub correlation_id : String
  pub now : ℕ

abbrev pub hours : ℕ → ℕ
hours n = n * 3600000

-- environment.ts.
pub record Settings : Type 0 where
  pub decision_due_hours : ℕ
  pub case_sync_max_attempts : ℕ
  pub case_sync_retry_base_ms : ℕ

-- `status: { in: ["PENDING", "CLAIMED"] }`.
abbrev pub is_open : TaskStatus → Bool
is_open TaskStatus.pending = true
is_open claimed = true
is_open _ = false

abbrev pub is_pending : TaskStatus → Bool
is_pending TaskStatus.pending = true
is_pending _ = false

abbrev pub is_claimed : TaskStatus → Bool
is_claimed claimed = true
is_claimed _ = false

-- `transitionRecord`.
abbrev pub transition_record :
    WorkflowInstance → WorkflowInstance → String → Call → Option String → Db → Db
transition_record previous updated action call reason db = record db {
  history =
      db.history
      ++ record {
        workflow_instance_id = previous.id;
        from_state = some previous.state;
        to_state = updated.state;
        action = action;
        reason_code = Option.map (truncate 80) reason;
        actor_id = call.identity.user_id;
        aggregate_version = updated.row_version;
        correlation_id = call.correlation_id;
      }
        ∷ [];
}

-- `event`; of the payload, the id of the record that it names.
abbrev pub event : WorkflowInstance → Call → String → String → Db → Db
event instance call event_type subject db = record db {
  outbox =
      db.outbox
      ++ record {
        aggregate_id = instance.id;
        aggregate_version = instance.row_version;
        event_type = event_type;
        subject_id = subject;
        correlation_id = call.correlation_id;
        organization_id = call.identity.organization_id;
        actor_id = call.identity.user_id;
      }
        ∷ [];
}

-- `evidenceSnapshotRows`.
abbrev pub evidence_rows : String → List EvidenceItem → String → List EvidenceRow
evidence_rows instance_id evidence foreign_id =
    map
      (λ item. record {
        workflow_instance_id = instance_id;
        foreign_id = foreign_id;
        evidence_asset_id = item.evidence_asset_id;
        evidence_version_id = item.evidence_version_id;
        sha256 = item.sha256;
        classification_code = item.classification_code;
        evidence_status = item.evidence_status;
        available_at = item.available_at;
      })
      evidence

-- `Map.get` of the map from version ids to items: the last item with the id.
unfoldable pub item_by_id : String → List EvidenceItem → Option EvidenceItem
item_by_id id [] = none
item_by_id id (item ∷ items) = elim (item_by_id id items) [
  | some later ↦ some later
  | none ↦ if item.evidence_version_id == id then some item else none
]

-- The test of one selected version in `assertSnapshotCurrent`.
abbrev pub is_unchanged : Option EvidenceItem → Option EvidenceItem → Bool
is_unchanged (some before) (some now) =
    before.sha256 == now.sha256
    && now.processing_status == "AVAILABLE"
    && now.malware_status == "CLEAN"
    && now.authoritative
is_unchanged _ _ = false

abbrev pub changed : Exception
changed = conflict "The Evidence snapshot changed; revalidation is required."

-- `assertSnapshotCurrent`.
unfoldable pub assert_snapshot_current :
    List EvidenceItem → List EvidenceItem → List String → Result (Unit {0})
assert_snapshot_current pinned current [] = ok tt
assert_snapshot_current pinned current (id ∷ selected) = do
  require (is_unchanged (item_by_id id pinned) (item_by_id id current)) changed
  assert_snapshot_current pinned current selected

module _ (prisma : Client) where
  open prisma use {instance_table, task_table, validation_table, sync_table}

  abbrev pub active_instance : String → String → Db → Result WorkflowInstance
  active_instance case_id organization_id db =
      or_throw
        (instance_table.find_first
          (λ i. i.case_id == case_id && i.organization_id == organization_id && i.active)
          db.instances)
        (not_found "Active Workflow not found.")

  abbrev pub instance_by_id : String → String → Db → Result WorkflowInstance
  instance_by_id id organization_id db =
      or_throw
        (instance_table.find_first (λ i. i.id == id && i.organization_id == organization_id)
          db.instances)
        (not_found "Workflow not found.")

  abbrev pub task_row : String → String → Db → Result WorkflowTask
  task_row id organization_id db =
      or_throw
        (task_table.find_first (λ t. t.id == id && t.organization_id == organization_id) db.tasks)
        (not_found "Workflow task not found.")

  unfoldable pub current_validation : WorkflowInstance → Db → Result ValidationRun
  current_validation instance db = do
    id ← or_throw instance.current_validation_run_id (conflict "No current Validation Run exists.")
    run ←
        or_throw (validation_table.find_first (λ v. v.id == id) db.validations)
          (conflict "A passing current Validation Run is required.")
    require run.pass (conflict "A passing current Validation Run is required.")
    ok run

  -- `queueSync`: an upsert by (workflowInstanceId, eventType).
  unfoldable pub queue_sync : WorkflowInstance → String → String → ℕ → Db → Db
  queue_sync instance target_status event_type now db = record db {
    syncs =
        sync_table.upsert (λ o. o.workflow_instance_id == instance.id && o.event_type == event_type)
          (λ o. record o { status = SyncStatus.pending; next_attempt_at = some now })
          (record {
            id = sync_table.new_id db.syncs;
            workflow_instance_id = instance.id;
            organization_id = instance.organization_id;
            case_id = instance.case_id;
            target_status = target_status;
            event_type = event_type;
            status = SyncStatus.pending;
            attempts = 0;
            next_attempt_at = none;
            last_error_code = none;
            created_at = now;
            completed_at = none;
          })
          db.syncs;
  }
