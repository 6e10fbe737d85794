-- ===== src/Workflow/Tests/Commands.antt =====
-- The other commands: snapshots, rules, claims, reviews, recommendations, validations, withdrawal
-- and the retries of the case synchronization.
use team_nivaran.Common.{◌≡◌, ◌≢◌, ◌↔◌, ◌⊎◌, refl, true, false, none, some, [], ◌∷◌, map, arith}
use team_nivaran.Common.Lists.{All, count}
use team_nivaran.Common.Results.{ok}
use team_nivaran.Workflow.Rules.{Rule, case_numeric_max, passes, evaluate_rules}
use team_nivaran.Workflow.Rules.Meaning.{Meets, passes_iff}
use team_nivaran.Workflow.Model.{
  WorkflowState, TaskStatus, claimed, TaskType, withdrawn, WorkflowInstance, WorkflowTask,
  ValidationRun, ReviewSubmission, ReviewOutcome, Recommendation, RecommendationOutcome,
  SyncOperation,
}
use team_nivaran.Workflow.Store.{
  Db, assert_snapshot_current, current_validation, item_by_id, queue_sync,
}
use team_nivaran.Workflow.Store.Snapshot.{IsUnchanged, assert_snapshot_current_iff}
use team_nivaran.Workflow.Tasks.{claim, claim_transaction}
use team_nivaran.Workflow.Tasks.Exclusive.{to_claim, to_assign, run, run_exclusive}
use team_nivaran.Workflow.Review.{
  ReviewInput, submit_review, check_review, lock_review, record_review,
}
use team_nivaran.Workflow.Review.Accepted.{IsAccepted, submit_review-IsAccepted}
use team_nivaran.Workflow.Recommend.{
  RecommendationInput, recommend, check_recommendation, record_recommendation,
}
use team_nivaran.Workflow.Recommend.Outcome.{IsRecommended, recommend-IsRecommended}
use team_nivaran.Workflow.Sync.{attempt_case_sync}
use team_nivaran.Workflow.Sync.Retry.{queue_sync_keeps_target}
use team_nivaran.Workflow.Sync.Attempt.{is_unsynced_of, IsAttempted, attempt_case_sync-IsAttempted}
use team_nivaran.Workflow.Lifecycle.{is_open_of, record_validation, withdraw}
use team_nivaran.Workflow.Lifecycle.Validation.{record_validation_iff, record_validation_tasks}
use team_nivaran.Workflow.Lifecycle.Ending.{IsWithdrawn, withdraw-IsWithdrawn}
use team_nivaran.Workflow.Tests.{
  value_or, client, services, settings, invoice, snapshot, call_of, instance_in, task_in, version,
  rules, passed_run, advice, db_of,
}

assert_snapshot_current_example :
    (assert_snapshot_current (invoice ∷ []) (invoice ∷ []) ("v1" ∷ []) ≡ ok tt)
    ↔ All (IsUnchanged (invoice ∷ []) (invoice ∷ [])) ("v1" ∷ [])
assert_snapshot_current_example =
    assert_snapshot_current_iff (invoice ∷ []) (invoice ∷ []) ("v1" ∷ [])

passes_example :
    (passes snapshot (invoice ∷ []) 10 (case_numeric_max 500) ≡ true)
    ↔ Meets snapshot (invoice ∷ []) 10 (case_numeric_max 500)
passes_example = passes_iff snapshot (invoice ∷ []) 10 (case_numeric_max 500)

-- A case without an amount passes the bound.
no_amount : passes snapshot [] 10 (case_numeric_max 0) ≡ true
unfolding passes
no_amount = refl

abbrev in_review : Db
in_review =
    db_of (instance_in WorkflowState.ready_for_review)
      (task_in TaskType.review_case TaskStatus.pending none)

abbrev claimed_task : WorkflowTask
claimed_task =
    value_or (task_in TaskType.review_case TaskStatus.pending none)
      (claim client services "t" 2 (call_of "reviewer") in_review).1

claimed_lem :
    (run client services "t" 2 to_claim (call_of "reviewer") in_review).1 ≡ ok claimed_task
unfolding claim claim_transaction
claimed_lem = refl

run_exclusive_example :
    (run client services "t" 2
      (to_assign "other")
      (call_of "admin")
      (run client services "t" 2 to_claim (call_of "reviewer") in_review).0).1
    ≢ ok claimed_task
run_exclusive_example =
    run_exclusive client services "t" 2 to_claim (to_assign "other") (call_of "reviewer")
      (call_of "admin") in_review claimed_task claimed_task (omega arith) claimed_lem

abbrev under_review : Db
under_review =
    db_of (instance_in WorkflowState.under_review)
      (task_in TaskType.review_case claimed (some "reviewer"))

abbrev review_input : ReviewInput
review_input = record {
  workflow_version = 4;
  task_version = 2;
  outcome = ReviewOutcome.ready_for_recommendation;
  reason_code = "OK";
  more_reason_codes = [];
  rationale = "Complete.";
  evidence_version_ids = "v1" ∷ [];
}

abbrev no_review : ReviewSubmission
no_review = record {
  id = "";
  workflow_instance_id = "";
  validation_run_id = "";
  actor_id = "";
  outcome = ReviewOutcome.ready_for_recommendation;
  reason_codes = [];
  rationale = "";
  evidence_snapshot = [];
  aggregate_version = 0;
}

abbrev review : ReviewSubmission
review =
    value_or no_review
      (submit_review client services "t" review_input (call_of "reviewer") under_review).1

reviewed :
    (submit_review client services "t" review_input (call_of "reviewer") under_review).1 ≡ ok review
unfolding submit_review check_review lock_review record_review current_validation
    assert_snapshot_current item_by_id
reviewed = refl

submit_review_example :
    IsAccepted client services "t" review_input (call_of "reviewer") under_review review
submit_review_example =
    submit_review-IsAccepted client services "t" review_input (call_of "reviewer") under_review
      review reviewed

abbrev to_recommend : Db
to_recommend =
    db_of (instance_in WorkflowState.ready_for_recommendation)
      (task_in TaskType.create_recommendation TaskStatus.pending none)

abbrev more_information : RecommendationInput
more_information = record {
  workflow_version = 4;
  outcome = RecommendationOutcome.request_more_information;
  reason_codes = "GAP" ∷ [];
  rationale = "Income is missing.";
  conditions = [];
}

abbrev recommended : Recommendation
recommended =
    value_or advice
      (recommend client services 24 "c" more_information (call_of "recommender") to_recommend).1

recommended_lem :
    (recommend client services 24 "c" more_information (call_of "recommender") to_recommend).1
    ≡ ok recommended
unfolding recommend check_recommendation record_recommendation current_validation
    assert_snapshot_current item_by_id
recommended_lem = refl

recommend_example :
    IsRecommended client services 24 "c" more_information
      (call_of "recommender")
      to_recommend
      recommended
      (recommend client services 24 "c" more_information (call_of "recommender") to_recommend).0
recommend_example =
    recommend-IsRecommended client services 24 "c" more_information (call_of "recommender")
      to_recommend recommended recommended_lem

queue_sync_example :
    map
      (λ (o : SyncOperation). o.target_status)
      (queue_sync client
        (instance_in WorkflowState.ready_for_review)
        "UNDER_REVIEW"
        "workflow.validation.case-sync"
        10
        in_review).syncs
    ≡ "EVIDENCE_COLLECTION" ∷ []
queue_sync_example =
    queue_sync_keeps_target client (instance_in WorkflowState.ready_for_review) "UNDER_REVIEW"
      "workflow.validation.case-sync" 10 in_review (omega arith)

-- The Case Service is out of reach, and the operation is put off.
attempt_case_sync_example :
    (after : Db) × (attempt_case_sync client services settings "i" (call_of "x") in_review
      ≡ (after, ok tt))
    × (((count (is_unsynced_of "i") in_review.syncs ≡ 0) × (after ≡ in_review))
        ⊎ IsAttempted client services settings "i" (call_of "x") in_review after)
attempt_case_sync_example =
    attempt_case_sync-IsAttempted client services settings "i" (call_of "x") in_review (omega arith)

abbrev validated : Db × ValidationRun
validated =
    value_or (in_review, passed_run)
      (record_validation client services (instance_in WorkflowState.evidence_required) version
        snapshot (invoice ∷ []) "RERUN" (call_of "x") in_review)

validated_lem :
    record_validation client services
      (instance_in WorkflowState.evidence_required)
      version
      snapshot
      (invoice ∷ [])
      "RERUN"
      (call_of "x")
      in_review
    ≡ ok (validated.0, validated.1)
unfolding record_validation queue_sync evaluate_rules
validated_lem = refl

record_validation_iff_example :
    ((validated.1.pass ≡ true)
      ↔ All (λ (rule : Rule). Meets snapshot (invoice ∷ []) 10 rule.check) rules)
    × (validated.1.evidence_snapshot ≡ invoice ∷ [])
record_validation_iff_example =
    record_validation_iff client services (instance_in WorkflowState.evidence_required) version
      snapshot (invoice ∷ []) "RERUN" (call_of "x") in_review validated.0 validated.1 validated_lem

record_validation_tasks_example : count (is_open_of "i") validated.0.tasks ≡ 1
record_validation_tasks_example =
    record_validation_tasks client services (instance_in WorkflowState.evidence_required) version
      snapshot (invoice ∷ []) "RERUN" (call_of "x") in_review validated.0 validated.1 validated_lem

abbrev withdrawn_instance : WorkflowInstance
withdrawn_instance =
    value_or (instance_in WorkflowState.not_started)
      (withdraw client services "c" 4 (some "Changed mind") (call_of "x") in_review).1

withdrawn_lem :
    (withdraw client services "c" 4 (some "Changed mind") (call_of "x") in_review).1
    ≡ ok withdrawn_instance
unfolding withdraw
withdrawn_lem = refl

withdraw_example :
    (withdrawn_instance.active ≡ false)
    × (withdrawn_instance.state ≡ withdrawn)
    × IsWithdrawn client services "c" 4
        (call_of "x")
        in_review
        withdrawn_instance
        (withdraw client services "c" 4 (some "Changed mind") (call_of "x") in_review).0
withdraw_example =
    withdraw-IsWithdrawn client services "c" 4 (call_of "x") in_review (some "Changed mind")
      withdrawn_instance withdrawn_lem

abbrev to_correct : Db
to_correct =
    db_of (instance_in WorkflowState.correction_requested)
      (task_in TaskType.correct_submission TaskStatus.pending none)
