-- ===== src/Workflow/Review.antt =====
-- Reviews and corrections (`submitReview`, `requestCorrection` of workflow.service.ts).
pub mod Accepted
use team_nivaran.Common.{
  ℕ, ◌+◌, String, Bool, true, false, ◌&&◌, ◌||◌, not, Option, none, some, List, [], ◌∷◌, ◌++◌, ◌==◌,
  eqb, is_none, is_text, if◌then◌else◌,
}
use team_nivaran.Common.Results.{
  Result, ok, err, conflict, forbidden, require, or_throw, settle, ◌>>=◌, ◌>>◌, written,
}
use team_nivaran.Workflow.Rules.{EvidenceItem}
use team_nivaran.Workflow.Model.{
  WorkflowState, correction_requested, ready_for_recommendation, TaskStatus, completed, TaskType,
  correct_submission, create_recommendation, WorkflowInstance, WorkflowTask, ValidationRun,
  ReviewOutcome, correction_required, ReviewSubmission, Correction,
}
use team_nivaran.Workflow.Store.{
  Db, Client, Services, Call, hours, is_open, is_claimed, transition_record, event, evidence_rows,
  assert_snapshot_current, instance_by_id, task_row, current_validation,
}
use team_nivaran.Workflow.Tasks.{is_review_case}

pub record ReviewInput : Type 0 where
  pub workflow_version : ℕ
  pub task_version : ℕ
  pub outcome : ReviewOutcome
  pub reason_code : String  -- `reasonCodes[0]`, which the schema requires
  pub more_reason_codes : List String
  pub rationale : String
  pub evidence_version_ids : List String

pub record CorrectionInput : Type 0 where
  pub workflow_version : ℕ
  pub task_version : ℕ
  pub target_type : String
  pub target_id : Option String
  pub reason_code : String
  pub rationale : String

abbrev pub is_correction : ReviewOutcome → Bool
is_correction correction_required = true
is_correction _ = false

abbrev pub complete_row : ℕ → WorkflowTask → WorkflowTask
complete_row now t = record t {
  status = completed;
  completed_at = some now;
  row_version = t.row_version + 1;
}

-- A task as the commands create it, pending and unassigned.
abbrev pub new_task : String → WorkflowInstance → TaskType → String → List String → ℕ → WorkflowTask
new_task id instance task_type permission roles due_at = record {
  id = id;
  organization_id = instance.organization_id;
  workflow_instance_id = instance.id;
  case_id = instance.case_id;
  task_type = task_type;
  status = TaskStatus.pending;
  required_permission = permission;
  eligible_role_codes = roles;
  assigned_user_id = none;
  claimed_by = none;
  claimed_at = none;
  due_at = due_at;
  completed_at = none;
  cancelled_at = none;
  row_version = 1;
}

abbrev pub correction_task : String → WorkflowInstance → ℕ → WorkflowTask
correction_task id instance now =
    new_task id instance correct_submission "evidence:upload" ("analyst" ∷ []) (now + hours 24)

-- The workflow after a review.
abbrev pub review_row : Bool → String → WorkflowInstance → WorkflowInstance
review_row correction task_id i = record i {
  state = if correction then correction_requested else WorkflowState.ready_for_recommendation;
  active_task_id = some task_id;
  row_version = i.row_version + 1;
}

module _ (prisma : Client) (services : Services) where
  open prisma use {instance_table, task_table, review_table}

  -- The task that follows a review.
  abbrev next_task : Bool → WorkflowInstance → ℕ → List WorkflowTask → WorkflowTask
  next_task correction instance now tasks =
      if correction
      then correction_task (task_table.new_id tasks) instance now
      else new_task (task_table.new_id tasks) instance create_recommendation "decision:recommend"
          ("recommender" ∷ []) (now + hours 24)

  -- The rows that a review writes, once its guards have passed.
  unfoldable pub record_review :
      WorkflowTask
      → WorkflowInstance
      → ValidationRun
      → ReviewInput
      → Call
      → Db
      → Result (Db × ReviewSubmission)
  record_review task fresh validation input call db = do
    let correction = is_correction input.outcome
    let review : ReviewSubmission = record {
      id = review_table.new_id db.reviews;
      workflow_instance_id = fresh.id;
      validation_run_id = validation.id;
      actor_id = call.identity.user_id;
      outcome = input.outcome;
      reason_codes = input.reason_code ∷ input.more_reason_codes;
      rationale = input.rationale;
      evidence_snapshot = validation.evidence_snapshot;
      aggregate_version = fresh.row_version + 1;
    }
    (done, tasks) ←
        written (task_table.update (λ t. t.id == task.id) (complete_row call.now) db.tasks)
    let next = next_task correction fresh call.now tasks
    (updated, instances) ←
        written (
          instance_table.update (λ i. i.id == fresh.id) (review_row correction next.id)
            db.instances)
    ok (
      event updated call
          (if correction then "workflow.correction.requested" else "workflow.review.submitted")
          review.id
          (transition_record fresh updated
            (if correction then "REQUEST_CORRECTION" else "SUBMIT_REVIEW") call none
            (record db {
              instances = instances;
              tasks = tasks ++ next ∷ [];
              reviews = db.reviews ++ review ∷ [];
              review_evidence =
                  db.review_evidence
                  ++ evidence_rows fresh.id validation.evidence_snapshot review.id;
              actors =
                  db.actors
                  ++ record {
                    workflow_instance_id = fresh.id;
                    action = "REVIEW_SUBMITTED";
                    actor_id = call.identity.user_id;
                    reference_id = some review.id;
                    occurred_at = call.now;
                  }
                    ∷ [];
              corrections =
                  if correction
                  then db.corrections
                    ++ record {
                      workflow_instance_id = fresh.id;
                      requested_by = call.identity.user_id;
                      target_type = "GENERAL_INFORMATION";
                      target_id = none;
                      reason_code = input.reason_code;
                      rationale = input.rationale;
                      resolved_at = none;
                    }
                      ∷ []
                  else db.corrections;
            })),
      review,
    )

  -- The guards of `submitReview`: the task, the workflow and the passing validation.
  unfoldable pub check_review :
      String → ReviewInput → Call → Db → Result (WorkflowInstance × ValidationRun)
  check_review task_id input call db = do
    let me = call.identity.user_id
    task ← task_row prisma task_id call.identity.organization_id db
    require (is_review_case task.task_type && is_claimed task.status)
        (conflict "An active claimed review task is required.")
    require (is_text task.claimed_by me || is_text task.assigned_user_id me)
        (forbidden "This review task belongs to another user.")
    instance ← instance_by_id prisma task.workflow_instance_id call.identity.organization_id db
    require (eqb instance.row_version input.workflow_version)
        (conflict "The Workflow was updated by another actor.")
    validation ← current_validation prisma instance db
    current ← services.evidence call.identity.organization_id instance.case_id
    assert_snapshot_current validation.evidence_snapshot current input.evidence_version_ids
    ok (instance, validation)

  -- The two reads at the start of the transaction.
  unfoldable pub lock_review :
      String → ReviewInput → WorkflowInstance → Call → Db → Result (WorkflowTask × WorkflowInstance)
  lock_review task_id input instance call db = do
    fresh_task ←
        or_throw
          (task_table.find_first
            (λ t.
              t.id == task_id
              && eqb t.row_version input.task_version
              && is_claimed t.status
              && is_text t.claimed_by call.identity.user_id)
            db.tasks)
          (conflict "The Workflow or task was updated by another actor.")
    fresh ←
        or_throw
          (instance_table.find_first
            (λ i. i.id == instance.id && eqb i.row_version input.workflow_version && i.active)
            db.instances)
          (conflict "The Workflow or task was updated by another actor.")
    ok (fresh_task, fresh)

  unfoldable pub submit_review : String → ReviewInput → Call → Db → Db × Result ReviewSubmission
  submit_review task_id input call db = settle db (do
    (instance, validation) ← check_review task_id input call db
    (fresh_task, fresh) ← lock_review task_id input instance call db
    record_review fresh_task fresh validation input call db)

  unfoldable pub request_correction :
      String → CorrectionInput → Call → Db → Db × Result WorkflowInstance
  request_correction task_id input call db = settle db (do
    task ← task_row prisma task_id call.identity.organization_id db
    instance ← instance_by_id prisma task.workflow_instance_id call.identity.organization_id db
    require (eqb instance.row_version input.workflow_version)
        (conflict "The Workflow was updated by another actor.")
    let (changed, tasks) =
        task_table.update_many
          (λ t. t.id == task.id && eqb t.row_version input.task_version && is_open t.status)
          (complete_row call.now) db.tasks
    require (eqb changed 1) (conflict "The task was updated by another actor.")
    let next = correction_task (task_table.new_id tasks) instance call.now
    (updated, instances) ← written (
        instance_table.update (λ i. i.id == instance.id)
          (λ i. record i {
            state = correction_requested;
            active_task_id = some next.id;
            row_version = i.row_version + 1;
          })
          db.instances)
    ok (
      transition_record instance updated "REQUEST_CORRECTION" call (some input.reason_code)
          (record db {
            instances = instances;
            tasks = tasks ++ next ∷ [];
            corrections =
                db.corrections
                ++ record {
                  workflow_instance_id = instance.id;
                  requested_by = call.identity.user_id;
                  target_type = input.target_type;
                  target_id = input.target_id;
                  reason_code = input.reason_code;
                  rationale = input.rationale;
                  resolved_at = none;
                }
                  ∷ [];
          }),
      updated,
    ))
