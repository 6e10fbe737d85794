-- ===== src/Workflow/Decide/Commands.antt =====
-- The transaction of `decide`, its idempotency and the call of the Case Service after it.
use team_nivaran.Common.{
  String, ◌&&◌, not, Option, none, some, [], ◌∷◌, ◌++◌, ◌==◌, eqb, if◌then◌else◌,
}
use team_nivaran.Common.Results.{
  Result, ok, err, bad_request, conflict, require, or_throw, settle, ◌>>=◌, ◌>>◌, written,
}
use team_nivaran.Workflow.Model.{DecisionOutcome, Decision, DecisionResponse, Response, decided}
use team_nivaran.Workflow.Store.{
  Db, Client, Services, Settings, Call, is_open, transition_record, event, evidence_rows,
  queue_sync,
}
use team_nivaran.Workflow.Review.{complete_row}
use team_nivaran.Workflow.Sync.{attempt_case_sync}
use team_nivaran.Workflow.Decide.{
  DecisionInput, is_decision_pending, action_name, route_of, is_prior, close_row, DecisionContext,
}
use team_nivaran.Workflow.Decide.Guards.{check_decision}

-- `hash(input)`, the SHA-256 of the input's JSON text, is a parameter.
module _ (prisma : Client) (services : Services) (hash : DecisionInput → String) where
  open prisma use {
    instance_table, task_table, version_table, recommendation_table, decision_table, actor_table,
    idempotency_table,
  }

  -- The transaction.
  unfoldable pub record_decision :
      String
      → DecisionOutcome
      → DecisionInput
      → String
      → DecisionContext
      → Call
      → Db
      → Result (Db × DecisionResponse)
  record_decision case_id outcome input key context call db = do
    let org = call.identity.organization_id
    let gone = conflict "The Workflow or approval task changed before commit."
    fresh ←
        or_throw
          (instance_table.find_first
            (λ i.
              i.id == context.instance.id
              && eqb i.row_version input.workflow_version
              && is_decision_pending i.state
              && i.active)
            db.instances)
          gone
    fresh_task ←
        or_throw
          (task_table.find_first
            (λ t.
              t.id == context.task.id && eqb t.row_version input.task_version && is_open t.status)
            db.tasks)
          gone
    let superseded =
        decision_table.find_latest
          (λ d.
            d.organization_id == org
            && d.case_id == case_id
            && not (d.workflow_instance_id == fresh.id))
          (λ d. d.decided_at) db.decisions
    let decision : Decision = record {
      id = decision_table.new_id db.decisions;
      organization_id = org;
      case_id = case_id;
      workflow_instance_id = fresh.id;
      cycle_number = fresh.cycle_number;
      recommendation_id = context.recommendation.id;
      outcome = outcome;
      reason_codes = input.reason_codes;
      rationale = input.rationale;
      decided_by = call.identity.user_id;
      decided_at = call.now;
      definition_version_id = context.version.id;
      validation_run_id = context.validation.id;
      evidence_snapshot = context.validation.evidence_snapshot;
      supersedes_decision_id = elim superseded [ none ↦ none | some d ↦ some d.id ];
    }
    (done, tasks) ←
        written (task_table.update (λ t. t.id == fresh_task.id) (complete_row call.now) db.tasks)
    (updated, instances) ← written (
        instance_table.update (λ i. i.id == fresh.id) (close_row outcome decision.id call.now)
          db.instances)
    let response : DecisionResponse = record { decision = decision; workflow = updated }
    let after = queue_sync prisma updated "DECIDED" "workflow.decision.case-sync" call.now (
        event updated call "decision.final.recorded" decision.id (
          transition_record fresh updated (action_name outcome) call none (record db {
            instances = instances;
            tasks = tasks;
            decisions = db.decisions ++ decision ∷ [];
            decision_evidence =
                db.decision_evidence
                ++ evidence_rows fresh.id context.validation.evidence_snapshot decision.id;
            actors =
                db.actors
                ++ record {
                  workflow_instance_id = fresh.id;
                  action = "DECISION_RECORDED";
                  actor_id = call.identity.user_id;
                  reference_id = some decision.id;
                  occurred_at = call.now;
                }
                  ∷ [];
            idempotency =
                db.idempotency
                ++ record {
                  organization_id = org;
                  actor_id = call.identity.user_id;
                  route = route_of case_id outcome;
                  key = key;
                  request_hash = hash input;
                  response_body = decided response;
                }
                  ∷ [];
          })))
    ok (after, response)

  -- The idempotency check, the guards and the transaction of `decide`.
  unfoldable pub decide_once :
      String
      → DecisionOutcome
      → DecisionInput
      → String
      → Call
      → Db
      → Result (Db × Response × Option String)
  decide_once case_id outcome input key call db = do
    require (not (key == "")) (bad_request "Idempotency-Key is required.")
    let prior =
        idempotency_table.find_first (is_prior (route_of case_id outcome) key call.identity)
          db.idempotency
    elim prior [
      | some r ↦
          if r.request_hash == hash input
          then ok (db, r.response_body, none)
          else err (conflict "Idempotency key was used for a different request.")
      | none ↦ do
        context ← check_decision prisma services hash case_id outcome input call db
        (after, response) ← record_decision case_id outcome input key context call db
        ok (after, decided response, some context.instance.id)
    ]

  -- After the commit the case is told; a failure of that is kept for a retry.
  abbrev tell_case : Settings → Call → Db × Result (Response × Option String) → Db × Result Response
  tell_case settings call (db, err e) = (db, err e)
  tell_case settings call (db, ok (response, none)) = (db, ok response)
  tell_case settings call (db, ok (response, some instance_id)) =
      let (after, told) = attempt_case_sync prisma services settings instance_id call db in
      (after, told >> ok response)

  unfoldable pub decide :
      Settings
      → String
      → DecisionOutcome
      → DecisionInput
      → String
      → Call
      → Db
      → Db × Result Response
  decide settings case_id outcome input key call db = tell_case settings call (
      settle db (do
        (after, response, told) ← decide_once case_id outcome input key call db
        ok (after, (response, told))))
