-- ===== src/Workflow/Decide/Guards.antt =====
-- The guards of `decide`.
use team_nivaran.Common.{String, ◌&&◌, ◌||◌, not, map, ◌==◌, eqb, is_none, is_text}
use team_nivaran.Common.Lists.{any}
use team_nivaran.Common.Results.{
  Result, ok, conflict, forbidden, internal, require, or_throw, ◌>>=◌, ◌>>◌,
}
use team_nivaran.Workflow.Model.{WorkflowInstance, DecisionOutcome}
use team_nivaran.Workflow.Store.{
  Db, Client, Services, Call, is_open, assert_snapshot_current, active_instance, current_validation,
}
use team_nivaran.Workflow.Decide.{
  DecisionInput, is_decision_pending, is_approve_decision, required_permission, DecisionContext,
  same_actor, is_review_of,
}

-- `hash(input)`, the SHA-256 of the input's JSON text, is a parameter.
module _ (prisma : Client) (services : Services) (hash : DecisionInput → String) where
  open prisma use {
    instance_table, task_table, version_table, recommendation_table, decision_table, actor_table,
    idempotency_table,
  }

  -- The pending workflow of the case, with its recommendation and its approval task.
  unfoldable pub find_pending :
      String
      → DecisionOutcome
      → DecisionInput
      → Call
      → Db
      → Result (WorkflowInstance × String × String)
  find_pending case_id outcome input call db = do
    let unready = conflict "The Workflow is not ready for decision."
    instance ← active_instance prisma case_id call.identity.organization_id db
    require (is_decision_pending instance.state && eqb instance.row_version input.workflow_version)
        unready
    recommendation_id ← or_throw instance.current_recommendation_id unready
    task_id ← or_throw instance.active_task_id unready
    allowed ←
        services.eligible call.identity.organization_id call.identity.user_id
          (required_permission outcome)
    require allowed (forbidden "The current user is not eligible for final decision.")
    ok (instance, recommendation_id, task_id)

  -- The `Promise.all` that reads the records, and the checks of the task.
  unfoldable pub load_context :
      WorkflowInstance → String → String → DecisionInput → Call → Db → Result DecisionContext
  load_context instance recommendation_id task_id input call db = do
    let me = call.identity.user_id
    recommendation ←
        or_throw
          (recommendation_table.find_first (λ r. r.id == recommendation_id) db.recommendations)
          (internal "No DecisionRecommendation found")
    version ←
        or_throw
          (version_table.find_first (λ v. v.id == instance.definition_version_id) db.versions)
          (internal "No WorkflowDefinitionVersion found")
    validation ← current_validation prisma instance db
    task ←
        or_throw
          (task_table.find_first
            (λ t.
              t.id == task_id
              && t.organization_id == call.identity.organization_id
              && is_approve_decision t.task_type
              && is_open t.status)
            db.tasks)
          (conflict "The approval task is stale or unavailable.")
    require (eqb task.row_version input.task_version)
        (conflict "The approval task is stale or unavailable.")
    require
        (is_none task.assigned_user_id
          || is_text task.assigned_user_id me
          || is_text task.claimed_by me)
        (forbidden "The approval task belongs to another user.")
    ok (record {
      instance = instance;
      recommendation = recommendation;
      version = version;
      validation = validation;
      task = task;
    })

  -- Separation of duties, and the evidence as it is now.
  unfoldable pub check_duties : String → DecisionContext → Call → Db → Result (Unit {0})
  check_duties case_id c call db = do
    let me = call.identity.user_id
    let pinned = c.validation.evidence_snapshot
    require (not (c.version.four_eyes_enabled && c.recommendation.actor_id == me))
        (conflict "FOUR_EYES_RECOMMENDATION_AUTHOR: a separate approver is required.")
    let reviewer =
        actor_table.find_latest (is_review_of c.instance.id) (λ a. a.occurred_at) db.actors
    require (not (c.version.prohibit_reviewer_approval && same_actor reviewer me))
        (conflict "SEPARATION_OF_DUTIES_REVIEWER: the reviewer cannot decide.")
    current ← services.evidence call.identity.organization_id case_id
    assert_snapshot_current pinned current (map (λ item. item.evidence_version_id) pinned)
    require
        (not (
          c.version.prohibit_evidence_submitter_approval
          && any (λ item. item.created_by_id == me) pinned))
        (conflict "SEPARATION_OF_DUTIES_EVIDENCE_SUBMITTER: the submitter cannot decide.")

  -- The guards between the idempotency check and the transaction.
  unfoldable pub check_decision :
      String → DecisionOutcome → DecisionInput → Call → Db → Result DecisionContext
  check_decision case_id outcome input call db = do
    (instance, recommendation_id, task_id) ← find_pending case_id outcome input call db
    c ← load_context instance recommendation_id task_id input call db
    check_duties case_id c call db
    ok c
