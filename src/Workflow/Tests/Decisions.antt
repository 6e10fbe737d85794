-- ===== src/Workflow/Tests/Decisions.antt =====
-- A final decision: its guards, what it records, and the same request again.
use team_nivaran.Common.{String, ◌≡◌, refl, none, some, [], ◌∷◌, if◌then◌else◌, ◌==◌}
use team_nivaran.Common.Results.{ok, err, conflict}
use team_nivaran.Workflow.Model.{
  WorkflowState, TaskStatus, TaskType, DecisionResponse, DecisionOutcome, decided,
}
use team_nivaran.Workflow.Store.{
  Db, assert_snapshot_current, current_validation, item_by_id, queue_sync,
}
use team_nivaran.Workflow.Decide.{DecisionInput, DecisionContext}
use team_nivaran.Workflow.Decide.Commands.{record_decision, decide_once}
use team_nivaran.Workflow.Decide.Guards.{check_decision, find_pending, load_context, check_duties}
use team_nivaran.Workflow.Decide.Duties.{IsSeparated, check_decision-IsSeparated}
use team_nivaran.Workflow.Decide.Replay.{IsRecorded, record_decision-IsRecorded, decide_once_replay}
use team_nivaran.Workflow.Tests.{
  value_or, client, services, call_of, instance_in, task_in, version, passed_run, advice, db_of,
}

abbrev hash : DecisionInput → String
hash input = input.rationale

abbrev input_with : String → DecisionInput
input_with rationale = record {
  workflow_version = 4;
  task_version = 2;
  reason_codes = "OK" ∷ [];
  rationale = rationale;
}

abbrev before : Db
before =
    db_of (instance_in WorkflowState.decision_pending)
      (task_in TaskType.approve_decision TaskStatus.pending none)

abbrev context : DecisionContext
context = record {
  instance = instance_in WorkflowState.decision_pending;
  recommendation = advice;
  version = version;
  validation = passed_run;
  task = task_in TaskType.approve_decision TaskStatus.pending none;
}

abbrev approve : DecisionOutcome
approve = DecisionOutcome.approved

guards :
    check_decision client services hash "c" approve (input_with "Fine.") (call_of "approver") before
    ≡ ok context
unfolding check_decision find_pending load_context check_duties current_validation
    assert_snapshot_current item_by_id
guards = refl

check_decision_example :
    IsSeparated services approve (input_with "Fine.") "c" (call_of "approver") before context
check_decision_example =
    check_decision-IsSeparated client services hash "c" (call_of "approver") before approve
      (input_with "Fine.") context guards

-- The recommender is refused.
guards_refuse :
    check_decision client services hash "c" approve
      (input_with "Fine.")
      (call_of "recommender")
      before
    ≡ err (conflict "FOUR_EYES_RECOMMENDATION_AUTHOR: a separate approver is required.")
unfolding check_decision find_pending load_context check_duties current_validation
    assert_snapshot_current item_by_id
guards_refuse = refl

abbrev nothing_decided : DecisionResponse
nothing_decided = record {
  decision = record {
    id = "";
    organization_id = "";
    case_id = "";
    workflow_instance_id = "";
    cycle_number = 0;
    recommendation_id = "";
    outcome = approve;
    reason_codes = [];
    rationale = "";
    decided_by = "";
    decided_at = 0;
    definition_version_id = "";
    validation_run_id = "";
    evidence_snapshot = [];
    supersedes_decision_id = none;
  };
  workflow = instance_in WorkflowState.not_started;
}

abbrev recorded : Db × DecisionResponse
recorded =
    value_or (before, nothing_decided)
      (record_decision client services hash "c" approve (input_with "Fine.") "key" context
        (call_of "approver") before)

recorded_lem :
    record_decision client services hash "c" approve
      (input_with "Fine.")
      "key"
      context
      (call_of "approver")
      before
    ≡ ok (recorded.0, recorded.1)
unfolding record_decision queue_sync
recorded_lem = refl

record_decision_example :
    IsRecorded client services hash "c" approve
      (input_with "Fine.")
      "key"
      context
      (call_of "approver")
      before
      recorded.0
      recorded.1
record_decision_example =
    record_decision-IsRecorded client services hash "c" approve (input_with "Fine.") "key" context
      (call_of "approver") before recorded.0 recorded.1 recorded_lem

decided_lem :
    decide_once client services hash "c" approve
      (input_with "Fine.")
      "key"
      (call_of "approver")
      before
    ≡ ok (recorded.0, decided recorded.1, some "i")
unfolding decide_once check_decision find_pending load_context check_duties current_validation
    assert_snapshot_current item_by_id record_decision queue_sync
decided_lem = refl

-- A different request under the key.
decide_once_replay_example :
    decide_once client services hash "c" approve
      (input_with "Other.")
      "key"
      (call_of "approver")
      recorded.0
    ≡ (if "Fine." == "Other."
        then ok (recorded.0, decided recorded.1, none)
        else err (conflict "Idempotency key was used for a different request."))
decide_once_replay_example =
    decide_once_replay client services hash "c" approve (input_with "Fine.") "key"
      (input_with "Other.") (call_of "approver") (call_of "approver") before recorded.0
      (decided recorded.1) "i" decided_lem refl
