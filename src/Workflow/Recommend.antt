-- ===== src/Workflow/Recommend.antt =====
-- Recommendations (`recommend` of workflow.service.ts).
pub mod Outcome
use team_nivaran.Common.{
  ℕ, ◌+◌, String, Bool, true, false, ◌&&◌, Option, none, some, List, [], ◌∷◌, ◌++◌, map, ◌==◌, eqb,
  if◌then◌else◌,
}
use team_nivaran.Common.Results.{
  Result, ok, err, conflict, require, or_throw, settle, ◌>>=◌, ◌>>◌, written,
}
use team_nivaran.Workflow.Rules.{EvidenceItem}
use team_nivaran.Workflow.Model.{
  WorkflowState, correction_requested, ready_for_recommendation, decision_pending, TaskStatus,
  completed, TaskType, create_recommendation, approve_decision, SyncStatus, WorkflowInstance,
  WorkflowTask, ValidationRun, RecommendationOutcome, request_more_information, Recommendation,
}
use team_nivaran.Workflow.Store.{
  Db, Client, Services, Call, hours, is_open, transition_record, event, evidence_rows,
  assert_snapshot_current, active_instance, current_validation, queue_sync,
}
use team_nivaran.Workflow.Review.{new_task, correction_task}

pub record RecommendationInput : Type 0 where
  pub workflow_version : ℕ
  pub outcome : RecommendationOutcome
  pub reason_codes : List String
  pub rationale : String
  pub conditions : List String

abbrev pub is_ready_for_recommendation : WorkflowState → Bool
is_ready_for_recommendation WorkflowState.ready_for_recommendation = true
is_ready_for_recommendation _ = false

abbrev pub is_create_recommendation : TaskType → Bool
is_create_recommendation create_recommendation = true
is_create_recommendation _ = false

abbrev pub asks_for_more : RecommendationOutcome → Bool
asks_for_more request_more_information = true
asks_for_more _ = false

module _ (prisma : Client) (services : Services) (decision_due_hours : ℕ) where
  open prisma use {instance_table, task_table, recommendation_table}

  -- What is written for every outcome: the recommendation, its evidence and its author, and the
  -- recommendation tasks completed (their versions stay).
  abbrev add_recommendation : WorkflowInstance → Recommendation → Call → Db → Db
  add_recommendation fresh recommendation call db = record db {
    tasks =
        (task_table.update_many
          (λ t.
            t.workflow_instance_id == fresh.id
            && is_create_recommendation t.task_type
            && is_open t.status)
          (λ t. record t { status = completed; completed_at = some call.now }) db.tasks).1;
    recommendations = db.recommendations ++ recommendation ∷ [];
    recommendation_evidence =
        db.recommendation_evidence
        ++ evidence_rows fresh.id recommendation.evidence_snapshot recommendation.id;
    actors =
        db.actors
        ++ record {
          workflow_instance_id = fresh.id;
          action = "RECOMMENDATION_SUBMITTED";
          actor_id = call.identity.user_id;
          reference_id = some recommendation.id;
          occurred_at = call.now;
        }
          ∷ [];
  }

  -- `REQUEST_MORE_INFORMATION`: back to the analyst, with no history row and no event.
  abbrev ask_for_more : WorkflowInstance → Recommendation → Call → Db → Result (Db × Recommendation)
  ask_for_more fresh recommendation call db = do
    let task = correction_task (task_table.new_id db.tasks) fresh call.now
    (updated, instances) ← written (
        instance_table.update (λ i. i.id == fresh.id)
          (λ i. record i {
            state = correction_requested;
            current_recommendation_id = some recommendation.id;
            active_task_id = some task.id;
            row_version = i.row_version + 1;
          })
          db.instances)
    ok (record db { instances = instances; tasks = db.tasks ++ task ∷ [] }, recommendation)

  -- The other outcomes: a task for the approver, and the case is told.
  abbrev ask_for_decision :
      WorkflowInstance → Recommendation → Call → Db → Result (Db × Recommendation)
  ask_for_decision fresh recommendation call db = do
    let task =
        new_task (task_table.new_id db.tasks) fresh approve_decision "decision:approve"
          ("approver" ∷ []) (call.now + hours decision_due_hours)
    (updated, instances) ← written (
        instance_table.update (λ i. i.id == fresh.id)
          (λ i. record i {
            state = decision_pending;
            current_recommendation_id = some recommendation.id;
            active_task_id = some task.id;
            case_sync_status = SyncStatus.pending;
            row_version = i.row_version + 1;
          })
          db.instances)
    ok (
      queue_sync prisma updated "DECISION_PENDING" "workflow.recommendation.case-sync" call.now (
          event updated call "decision.recommendation.recorded" recommendation.id (
            transition_record fresh updated "SUBMIT_RECOMMENDATION" call none
              (record db { instances = instances; tasks = db.tasks ++ task ∷ [] }))),
      recommendation,
    )

  -- The guards before the transaction.
  unfoldable pub check_recommendation :
      String → RecommendationInput → Call → Db → Result (WorkflowInstance × ValidationRun)
  check_recommendation case_id input call db = do
    instance ← active_instance prisma case_id call.identity.organization_id db
    require
        (is_ready_for_recommendation instance.state
          && eqb instance.row_version input.workflow_version)
        (conflict "The Workflow is not ready for this recommendation.")
    validation ← current_validation prisma instance db
    current ← services.evidence call.identity.organization_id case_id
    assert_snapshot_current validation.evidence_snapshot current
        (map (λ item. item.evidence_version_id) validation.evidence_snapshot)
    ok (instance, validation)

  abbrev pub recommendation_of :
      WorkflowInstance → ValidationRun → RecommendationInput → Call → Db → Recommendation
  recommendation_of fresh validation input call db = record {
    id = recommendation_table.new_id db.recommendations;
    workflow_instance_id = fresh.id;
    validation_run_id = validation.id;
    cycle_number = fresh.cycle_number;
    actor_id = call.identity.user_id;
    outcome = input.outcome;
    reason_codes = input.reason_codes;
    rationale = input.rationale;
    conditions = input.conditions;
    evidence_snapshot = validation.evidence_snapshot;
    aggregate_version = fresh.row_version + 1;
  }

  -- The transaction, once the workflow is read again.
  unfoldable pub record_recommendation :
      WorkflowInstance
      → ValidationRun
      → RecommendationInput
      → Call
      → Db
      → Result (Db × Recommendation)
  record_recommendation fresh validation input call db =
      let recommendation = recommendation_of fresh validation input call db in
      let after = add_recommendation fresh recommendation call db in
      if asks_for_more input.outcome
      then ask_for_more fresh recommendation call after
      else ask_for_decision fresh recommendation call after

  unfoldable pub recommend : String → RecommendationInput → Call → Db → Db × Result Recommendation
  recommend case_id input call db = settle db (do
    (instance, validation) ← check_recommendation case_id input call db
    fresh ←
        or_throw
          (instance_table.find_first
            (λ i.
              i.id == instance.id
              && eqb i.row_version input.workflow_version
              && is_ready_for_recommendation i.state
              && i.active)
            db.instances)
          (conflict "The Workflow was updated by another actor.")
    record_recommendation fresh validation input call db)
