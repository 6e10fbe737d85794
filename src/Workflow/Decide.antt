-- ===== src/Workflow/Decide.antt =====
-- Final decisions (`decide` of workflow.service.ts).
pub mod Guards
pub mod Commands
pub mod Duties
pub mod Replay
use Prim.Native.String.{◌++◌ as text_append}
use team_nivaran.Common.{
  ℕ, ◌+◌, String, Bool, true, false, ◌&&◌, ◌||◌, not, Option, none, some, List, [], ◌∷◌, ◌++◌, map,
  ◌==◌, eqb, is_none, is_text, if◌then◌else◌,
}
use team_nivaran.Common.Lists.{any}
use team_nivaran.Common.Results.{
  Result, ok, err, bad_request, conflict, forbidden, internal, require, or_throw, settle, ◌>>=◌,
  ◌>>◌, written,
}
use team_nivaran.Workflow.Rules.{EvidenceItem}
use team_nivaran.Workflow.Model.{
  WorkflowState, decision_pending, TaskType, approve_decision, SyncStatus, WorkflowInstance,
  WorkflowTask, DefinitionVersion, ValidationRun, Recommendation, DecisionOutcome, Decision,
  ActionActor, DecisionResponse, Response, decided, IdempotencyRecord,
}
use team_nivaran.Workflow.Store.{
  Db, Client, Services, Settings, Identity, Call, is_open, transition_record, event, evidence_rows,
  assert_snapshot_current, active_instance, current_validation, queue_sync,
}
use team_nivaran.Workflow.Review.{complete_row}
use team_nivaran.Workflow.Sync.{attempt_case_sync}

pub record DecisionInput : Type 0 where
  pub workflow_version : ℕ
  pub task_version : ℕ
  pub reason_codes : List String
  pub rationale : String

abbrev pub is_decision_pending : WorkflowState → Bool
is_decision_pending decision_pending = true
is_decision_pending _ = false

abbrev pub is_approve_decision : TaskType → Bool
is_approve_decision approve_decision = true
is_approve_decision _ = false

abbrev pub required_permission : DecisionOutcome → String
required_permission DecisionOutcome.approved = "decision:approve"
required_permission DecisionOutcome.rejected = "decision:reject"

abbrev pub final_state : DecisionOutcome → WorkflowState
final_state DecisionOutcome.approved = WorkflowState.approved
final_state DecisionOutcome.rejected = WorkflowState.rejected

abbrev pub action_name : DecisionOutcome → String
action_name DecisionOutcome.approved = "APPROVE"
action_name DecisionOutcome.rejected = "REJECT"

abbrev pub outcome_name : DecisionOutcome → String
outcome_name DecisionOutcome.approved = "approved"
outcome_name DecisionOutcome.rejected = "rejected"

pub route_of : String → DecisionOutcome → String
route_of case_id outcome =
    text_append (text_append (text_append "cases/" case_id) "/decision/") (outcome_name outcome)

abbrev pub is_prior : String → String → Identity → IdempotencyRecord → Bool
is_prior route key identity r =
    r.organization_id == identity.organization_id
    && r.actor_id == identity.user_id
    && r.route == route
    && r.key == key

-- The end of a workflow by a decision.
abbrev pub close_row : DecisionOutcome → String → ℕ → WorkflowInstance → WorkflowInstance
close_row outcome decision_id now i = record i {
  state = final_state outcome;
  active = false;
  current_decision_id = some decision_id;
  active_task_id = none;
  completed_at = some now;
  case_sync_status = SyncStatus.pending;
  row_version = i.row_version + 1;
}

-- The records that the guards have read.
pub record DecisionContext : Type 0 where
  pub instance : WorkflowInstance
  pub recommendation : Recommendation
  pub version : DefinitionVersion
  pub validation : ValidationRun
  pub task : WorkflowTask

abbrev pub same_actor : Option ActionActor → String → Bool
same_actor none me = false
same_actor (some reviewer) me = reviewer.actor_id == me

-- A review of the instance.
abbrev pub is_review_of : String → ActionActor → Bool
is_review_of id a = a.workflow_instance_id == id && a.action == "REVIEW_SUBMITTED"
