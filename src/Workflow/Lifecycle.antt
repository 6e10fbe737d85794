-- ===== src/Workflow/Lifecycle.antt =====
-- Validating, resubmitting and withdrawing a Workflow (`validate`, `resubmit`, `withdraw` of
-- workflow.service.ts). A stored configuration is taken as parsed.
pub mod Validation
pub mod Ending
use Prim.Native.String.{◌++◌ as text_append}
use mathlib.Core.Option
use team_nivaran.Common.{
  ℕ, ◌+◌, String, Bool, true, false, ◌&&◌, ◌||◌, not, Option, none, some, List, [], ◌∷◌, ◌++◌, map,
  ◌==◌, eqb, is_none, is_text, if◌then◌else◌, truncate,
}
use team_nivaran.Common.Lists.{any, all}
use team_nivaran.Common.Results.{
  Result, ok, err, bad_request, conflict, internal, unprocessable, require, or_throw, settle, ◌>>=◌,
  ◌>>◌, written,
}
use team_nivaran.Workflow.Rules.{EvidenceItem, CaseSnapshot, EvaluatedRule, evaluate_rules}
use team_nivaran.Workflow.Model.{
  WorkflowState, not_started, evidence_required, ready_for_review, correction_requested, approved,
  rejected, withdrawn, cancelled, TaskStatus, completed, TaskType, provide_evidence, review_case,
  correct_submission, SyncStatus, WorkflowInstance, WorkflowTask, DefinitionVersion, ValidationRun,
  Correction, Response, started, IdempotencyRecord,
}
use team_nivaran.Workflow.Store.{
  Db, Client, Services, Call, hours, is_open, transition_record, event, active_instance, queue_sync,
}
use team_nivaran.Workflow.Review.{complete_row, new_task}
use team_nivaran.Workflow.Decide.{is_prior}

-- `terminalStates`.
abbrev pub is_terminal : WorkflowState → Bool
is_terminal approved = true
is_terminal rejected = true
is_terminal withdrawn = true
is_terminal WorkflowState.cancelled = true
is_terminal _ = false

abbrev pub is_correction_requested : WorkflowState → Bool
is_correction_requested correction_requested = true
is_correction_requested _ = false

abbrev pub is_correct_submission : TaskType → Bool
is_correct_submission correct_submission = true
is_correct_submission _ = false

-- The tasks of an instance that a new validation or a withdrawal cancels; their versions stay.
abbrev pub is_open_of : String → WorkflowTask → Bool
is_open_of instance_id t = t.workflow_instance_id == instance_id && is_open t.status

abbrev pub cancel_row : ℕ → WorkflowTask → WorkflowTask
cancel_row now t = record t { status = TaskStatus.cancelled; cancelled_at = some now }

abbrev pub withdraw_row : ℕ → WorkflowInstance → WorkflowInstance
withdraw_row now i = record i {
  state = withdrawn;
  active = false;
  completed_at = some now;
  row_version = i.row_version + 1;
}

-- The task that follows a validation.
abbrev pub validation_task : Bool → String → WorkflowInstance → ℕ → WorkflowTask
validation_task true id instance due =
    new_task id instance provide_evidence "evidence:upload" ("analyst" ∷ []) due
validation_task false id instance due =
    new_task id instance review_case "review:submit" ("reviewer" ∷ []) due

-- `failed`; no rule yields ERROR or WARNING.
abbrev pub has_failure : List EvaluatedRule → Bool
has_failure results = any (λ result. not result.pass) results

module _ (prisma : Client) (services : Services) where
  open prisma use {instance_table, task_table, version_table, validation_table, correction_table}

  -- What `validate` writes in its transaction.
  unfoldable pub record_validation :
      WorkflowInstance
      → DefinitionVersion
      → CaseSnapshot
      → List EvidenceItem
      → String
      → Call
      → Db
      → Result (Db × ValidationRun)
  record_validation fresh version snapshot evidence trigger call db = do
    let results = evaluate_rules snapshot evidence call.now version.rules
    let failed = has_failure results
    let run : ValidationRun = record {
      id = validation_table.new_id db.validations;
      workflow_instance_id = fresh.id;
      run_number =
          validation_table.count_rows (λ v. v.workflow_instance_id == fresh.id) db.validations + 1;
      trigger_type = trigger;
      pass = not failed;
      definition_version_id = version.id;
      case_snapshot = snapshot;
      evidence_snapshot = evidence;
      results = results;
    }
    let tasks = (task_table.update_many (is_open_of fresh.id) (cancel_row call.now) db.tasks).1
    let task =
        validation_task failed (task_table.new_id tasks) fresh
          (call.now + hours version.default_review_due_hours)
    (updated, instances) ← written (
        instance_table.update (λ i. i.id == fresh.id)
          (λ i. record i {
            state = if failed then evidence_required else ready_for_review;
            current_validation_run_id = some run.id;
            active_task_id = some task.id;
            case_sync_status = SyncStatus.pending;
            row_version = i.row_version + 1;
          })
          db.instances)
    ok (
      queue_sync prisma updated (if failed then "EVIDENCE_COLLECTION" else "UNDER_REVIEW")
          "workflow.validation.case-sync" call.now
          (event updated call "validation.run.completed" run.id (
            transition_record fresh updated "VALIDATION_COMPLETED" call none (record db {
              instances = instances;
              tasks = tasks ++ task ∷ [];
              validations = db.validations ++ run ∷ [];
            }))),
      run,
    )

  unfoldable pub validate : String → ℕ → String → Call → Db → Db × Result ValidationRun
  validate case_id expected_version trigger call db = settle db (do
    let org = call.identity.organization_id
    let stale = conflict "The Workflow was updated by another actor."
    instance ← active_instance prisma case_id org db
    require (not (is_terminal instance.state)) (conflict "A terminal Workflow cannot be validated.")
    require (eqb instance.row_version expected_version) stale
    snapshot ← services.case_snapshot org case_id
    evidence ← services.evidence org case_id
    version ←
        or_throw
          (version_table.find_first (λ v. v.id == instance.definition_version_id) db.versions)
          (internal "No WorkflowDefinitionVersion found")
    fresh ←
        or_throw
          (instance_table.find_first
            (λ i.
              i.id == instance.id
              && i.organization_id == org
              && eqb i.row_version expected_version
              && i.active)
            db.instances)
          stale
    record_validation fresh version snapshot evidence trigger call db)

  -- The transaction of `resubmit`, before it validates again.
  unfoldable pub close_correction : String → Call → Db → Result (Db × Unit {0})
  close_correction case_id call db = do
    instance ← active_instance prisma case_id call.identity.organization_id db
    require (is_correction_requested instance.state)
        (conflict "Only a correction-requested Workflow can be resubmitted.")
    task ←
        or_throw
          (task_table.find_first
            (λ t.
              t.workflow_instance_id == instance.id
              && is_correct_submission t.task_type
              && is_open t.status)
            db.tasks)
          (conflict "No active correction task exists.")
    (done, tasks) ←
        written (task_table.update (λ t. t.id == task.id) (complete_row call.now) db.tasks)
    ok (
      record db {
        tasks = tasks;
        corrections =
            (correction_table.update_many
              (λ c. c.workflow_instance_id == instance.id && is_none c.resolved_at)
              (λ c. record c { resolved_at = some call.now }) db.corrections).1;
      },
      tt,
    )

  abbrev then_validate : String → ℕ → Call → Db × Result (Unit {0}) → Db × Result ValidationRun
  then_validate case_id expected_version call (db, err e) = (db, err e)
  then_validate case_id expected_version call (db, ok done) =
      validate case_id expected_version "RESUBMISSION" call db

  unfoldable pub resubmit : String → ℕ → Call → Db → Db × Result ValidationRun
  resubmit case_id expected_version call db =
      then_validate case_id expected_version call (settle db (close_correction case_id call db))

  unfoldable pub withdraw : String → ℕ → Option String → Call → Db → Db × Result WorkflowInstance
  withdraw case_id expected_version reason call db = settle db (do
    instance ← active_instance prisma case_id call.identity.organization_id db
    require (eqb instance.row_version expected_version)
        (conflict "The Workflow was updated by another actor.")
    (updated, instances) ←
        written
          (instance_table.update (λ i. i.id == instance.id) (withdraw_row call.now) db.instances)
    ok (
      transition_record instance updated "WITHDRAW" call reason (record db {
        instances = instances;
        tasks = (task_table.update_many (is_open_of instance.id) (cancel_row call.now) db.tasks).1;
      }),
      updated,
    ))
