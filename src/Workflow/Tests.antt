-- ===== src/Workflow/Tests.antt =====
-- Runs of the commands of workflow.service.ts on a small database, kept as lists.
pub mod Commands
pub mod Decisions
pub mod Starts
use team_nivaran.Common.{ℕ, String, Bool, true, false, Option, none, some, List, [], ◌∷◌}
use team_nivaran.Common.Results.{Exception, Result, ok, err, internal}
use team_nivaran.Common.ListTable.{list_table}
use team_nivaran.Workflow.Rules.{
  EvidenceItem, CaseSnapshot, Rule, required_evidence_present, case_numeric_max,
}
use team_nivaran.Workflow.Model.{
  WorkflowState, TaskStatus, claimed, TaskType, SyncStatus, WorkflowInstance, WorkflowTask,
  DefinitionVersion, ValidationRun, ReviewSubmission, ReviewOutcome, Recommendation,
  RecommendationOutcome, Decision, DecisionOutcome, SyncOperation,
}
use team_nivaran.Workflow.Store.{Db, Client, Services, Settings, Identity, Call}

-- The value of a result that is known to be one.
abbrev pub value_or {ℓ} : {A : Type ℓ} → A → Result A → A
value_or d (ok x) = x
value_or d (err e) = d

abbrev pub client : Client
client = record {
  instance_table = list_table "instance-2";
  task_table = list_table "task-2";
  version_table = list_table "version-2";
  validation_table = list_table "run-2";
  review_table = list_table "review-2";
  recommendation_table = list_table "recommendation-2";
  decision_table = list_table "decision-1";
  correction_table = list_table "correction-1";
  actor_table = list_table "actor-1";
  sync_table = list_table "sync-1";
  idempotency_table = list_table "kept-1";
}

abbrev pub invoice : EvidenceItem
invoice = record {
  evidence_asset_id = "asset-1";
  evidence_version_id = "v1";
  sha256 = "abc";
  classification_code = "INVOICE";
  evidence_status = "AVAILABLE";
  processing_status = "AVAILABLE";
  malware_status = "CLEAN";
  authoritative = true;
  available_at = 5;
  created_by_id = "analyst";
}

abbrev pub snapshot : CaseSnapshot
snapshot = record {
  id = "c";
  case_number = "C-1";
  title = "Loan";
  case_type = "LOAN";
  status = "OPEN";
  priority = "HIGH";
  requested_amount_minor = none;
  currency = none;
}

abbrev pub outage : Exception
outage = internal "unreachable"

-- The Case Service does not answer.
abbrev pub services : Services
services = record {
  eligible = λ organization user permission. ok true;
  evidence = λ organization case. ok (invoice ∷ []);
  case_snapshot = λ organization case. ok snapshot;
  sync = λ operation instance. err outage;
}

abbrev pub settings : Settings
settings = record {
  decision_due_hours = 24;
  case_sync_max_attempts = 3;
  case_sync_retry_base_ms = 1000;
}

abbrev pub call_of : String → Call
call_of user = record {
  identity = record { user_id = user; organization_id = "o" };
  correlation_id = "r";
  now = 10;
}

abbrev pub instance_in : WorkflowState → WorkflowInstance
instance_in state = record {
  id = "i";
  organization_id = "o";
  case_id = "c";
  case_number_snapshot = "C-1";
  definition_version_id = "d";
  cycle_number = 1;
  state = state;
  active = true;
  active_task_id = some "t";
  current_validation_run_id = some "run";
  current_recommendation_id = some "rec";
  current_decision_id = none;
  case_sync_status = SyncStatus.synced;
  started_by_id = "analyst";
  completed_at = none;
  row_version = 4;
}

abbrev pub task_in : TaskType → TaskStatus → Option String → WorkflowTask
task_in type status holder = record {
  id = "t";
  organization_id = "o";
  workflow_instance_id = "i";
  case_id = "c";
  task_type = type;
  status = status;
  required_permission = "review:submit";
  eligible_role_codes = "reviewer" ∷ [];
  assigned_user_id = none;
  claimed_by = holder;
  claimed_at = none;
  due_at = 100;
  completed_at = none;
  cancelled_at = none;
  row_version = 2;
}

abbrev pub rules : List Rule
rules =
    record { id = "r1"; check = required_evidence_present "INVOICE" }
    ∷ record { id = "r2"; check = case_numeric_max 500 }
    ∷ []

abbrev pub version : DefinitionVersion
version = record {
  id = "d";
  published = true;
  organization_id = some "o";
  is_default = true;
  version_number = 1;
  blocking_warnings = false;
  four_eyes_enabled = true;
  prohibit_evidence_submitter_approval = true;
  prohibit_reviewer_approval = true;
  default_review_due_hours = 24;
  case_types = "*" ∷ [];
  rules = rules;
}

abbrev pub passed_run : ValidationRun
passed_run = record {
  id = "run";
  workflow_instance_id = "i";
  run_number = 1;
  trigger_type = "INITIAL";
  pass = true;
  definition_version_id = "d";
  case_snapshot = snapshot;
  evidence_snapshot = invoice ∷ [];
  results = [];
}

abbrev pub advice : Recommendation
advice = record {
  id = "rec";
  workflow_instance_id = "i";
  validation_run_id = "run";
  cycle_number = 1;
  actor_id = "recommender";
  outcome = RecommendationOutcome.recommend_approval;
  reason_codes = "OK" ∷ [];
  rationale = "Complete.";
  conditions = [];
  evidence_snapshot = invoice ∷ [];
  aggregate_version = 4;
}

abbrev pub queued : SyncOperation
queued = record {
  id = "op";
  workflow_instance_id = "i";
  organization_id = "o";
  case_id = "c";
  target_status = "EVIDENCE_COLLECTION";
  event_type = "workflow.validation.case-sync";
  status = SyncStatus.pending;
  attempts = 2;
  next_attempt_at = none;
  last_error_code = none;
  created_at = 7;
  completed_at = none;
}

abbrev pub db_of : WorkflowInstance → WorkflowTask → Db
db_of instance task = record {
  instances = instance ∷ [];
  tasks = task ∷ [];
  versions = version ∷ [];
  validations = passed_run ∷ [];
  reviews = [];
  recommendations = advice ∷ [];
  decisions = [];
  review_evidence = [];
  recommendation_evidence = [];
  decision_evidence = [];
  corrections = [];
  actors =
      record {
        workflow_instance_id = "i";
        action = "REVIEW_SUBMITTED";
        actor_id = "reviewer";
        reference_id = none;
        occurred_at = 6;
      }
      ∷ [];
  history = [];
  assignments = [];
  outbox = [];
  syncs = queued ∷ [];
  idempotency = [];
}
