-- ===== src/Workflow/Model.antt =====
-- The rows of the Workflow database (prisma/schema.prisma), with the columns that the commands of
-- workflow.service.ts read or write. Times are in milliseconds.
use team_nivaran.Common.{ℕ, String, Bool, Option, List}
use team_nivaran.Workflow.Rules.{EvidenceItem, CaseSnapshot, Rule, EvaluatedRule}

pub data WorkflowState : Type 0 where
  not_started validating evidence_required ready_for_review under_review : WorkflowState
  correction_requested ready_for_recommendation recommendation_submitted : WorkflowState
  decision_pending approved rejected withdrawn cancelled : WorkflowState

pub data TaskStatus : Type 0 where
  pending claimed completed cancelled expired : TaskStatus

pub data TaskType : Type 0 where
  provide_evidence review_case correct_submission create_recommendation approve_decision : TaskType

pub data SyncStatus : Type 0 where
  pending synced failed : SyncStatus

pub record WorkflowInstance : Type 0 where
  pub id : String
  pub organization_id : String
  pub case_id : String
  pub case_number_snapshot : String
  pub definition_version_id : String
  pub cycle_number : ℕ
  pub state : WorkflowState
  pub active : Bool
  pub active_task_id : Option String
  pub current_validation_run_id : Option String
  pub current_recommendation_id : Option String
  pub current_decision_id : Option String
  pub case_sync_status : SyncStatus
  pub started_by_id : String
  pub completed_at : Option ℕ
  pub row_version : ℕ

pub record WorkflowTask : Type 0 where
  pub id : String
  pub organization_id : String
  pub workflow_instance_id : String
  pub case_id : String
  pub task_type : TaskType
  pub status : TaskStatus
  pub required_permission : String
  pub eligible_role_codes : List String
  pub assigned_user_id : Option String
  pub claimed_by : Option String
  pub claimed_at : Option ℕ
  pub due_at : ℕ
  pub completed_at : Option ℕ
  pub cancelled_at : Option ℕ
  pub row_version : ℕ

pub record DefinitionVersion : Type 0 where
  pub id : String
  pub published : Bool
  pub organization_id : Option String  -- of its definition
  pub is_default : Bool  -- of its definition
  pub version_number : ℕ
  pub blocking_warnings : Bool
  pub four_eyes_enabled : Bool
  pub prohibit_evidence_submitter_approval : Bool
  pub prohibit_reviewer_approval : Bool
  pub default_review_due_hours : ℕ
  pub case_types : List String
  pub rules : List Rule

pub record ValidationRun : Type 0 where
  pub id : String
  pub workflow_instance_id : String
  pub run_number : ℕ
  pub trigger_type : String
  pub pass : Bool  -- the status is PASS
  pub definition_version_id : String
  pub case_snapshot : CaseSnapshot
  pub evidence_snapshot : List EvidenceItem
  pub results : List EvaluatedRule

pub data ReviewOutcome : Type 0 where
  ready_for_recommendation correction_required : ReviewOutcome

pub data RecommendationOutcome : Type 0 where
  recommend_approval recommend_rejection request_more_information : RecommendationOutcome

pub data DecisionOutcome : Type 0 where
  approved rejected : DecisionOutcome

pub record ReviewSubmission : Type 0 where
  pub id : String
  pub workflow_instance_id : String
  pub validation_run_id : String
  pub actor_id : String
  pub outcome : ReviewOutcome
  pub reason_codes : List String
  pub rationale : String
  pub evidence_snapshot : List EvidenceItem
  pub aggregate_version : ℕ

pub record Recommendation : Type 0 where
  pub id : String
  pub workflow_instance_id : String
  pub validation_run_id : String
  pub cycle_number : ℕ
  pub actor_id : String
  pub outcome : RecommendationOutcome
  pub reason_codes : List String
  pub rationale : String
  pub conditions : List String
  pub evidence_snapshot : List EvidenceItem
  pub aggregate_version : ℕ

pub record Decision : Type 0 where
  pub id : String
  pub organization_id : String
  pub case_id : String
  pub workflow_instance_id : String
  pub cycle_number : ℕ
  pub recommendation_id : String
  pub outcome : DecisionOutcome
  pub reason_codes : List String
  pub rationale : String
  pub decided_by : String
  pub decided_at : ℕ
  pub definition_version_id : String
  pub validation_run_id : String
  pub evidence_snapshot : List EvidenceItem
  pub supersedes_decision_id : Option String

-- A row of `review_submission_evidence`, `decision_recommendation_evidence` or
-- `decision_evidence_snapshots`, by its foreign key.
pub record EvidenceRow : Type 0 where
  pub workflow_instance_id : String
  pub foreign_id : String
  pub evidence_asset_id : String
  pub evidence_version_id : String
  pub sha256 : String
  pub classification_code : String
  pub evidence_status : String
  pub available_at : ℕ

pub record Correction : Type 0 where
  pub workflow_instance_id : String
  pub requested_by : String
  pub target_type : String
  pub target_id : Option String
  pub reason_code : String
  pub rationale : String
  pub resolved_at : Option ℕ

pub record ActionActor : Type 0 where
  pub workflow_instance_id : String
  pub action : String
  pub actor_id : String
  pub reference_id : Option String
  pub occurred_at : ℕ

pub record HistoryRow : Type 0 where
  pub workflow_instance_id : String
  pub from_state : Option WorkflowState
  pub to_state : WorkflowState
  pub action : String
  pub reason_code : Option String
  pub actor_id : String
  pub aggregate_version : ℕ
  pub correlation_id : String

pub record AssignmentRow : Type 0 where
  pub workflow_task_id : String
  pub action : String
  pub actor_id : String
  pub from_user_id : Option String
  pub to_user_id : String
  pub task_version : ℕ

pub record OutboxRow : Type 0 where
  pub aggregate_id : String
  pub aggregate_version : ℕ
  pub event_type : String
  pub subject_id : String  -- the id that the payload names
  pub correlation_id : String
  pub organization_id : String
  pub actor_id : String

pub record SyncOperation : Type 0 where
  pub id : String
  pub workflow_instance_id : String
  pub organization_id : String
  pub case_id : String
  pub target_status : String
  pub event_type : String
  pub status : SyncStatus
  pub attempts : ℕ
  pub next_attempt_at : Option ℕ
  pub last_error_code : Option String
  pub created_at : ℕ
  pub completed_at : Option ℕ

-- What `decide` and `start` return, and an idempotency record keeps.
pub record DecisionResponse : Type 0 where
  pub decision : Decision
  pub workflow : WorkflowInstance

pub data Response : Type 0 where
  decided : DecisionResponse → Response
  started : WorkflowInstance → Response

pub record IdempotencyRecord : Type 0 where
  pub organization_id : String
  pub actor_id : String
  pub route : String
  pub key : String
  pub request_hash : String
  pub response_body : Response
