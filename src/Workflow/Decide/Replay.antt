-- ===== src/Workflow/Decide/Replay.antt =====
-- What a decision writes, and what the same request is answered afterwards.
use team_nivaran.Common.{
  String, ◌≡◌, ◌≢◌, ◌∙◌, sym, ◌&&◌, eqb, eq_iff, Memᴰ, Option-cases, ap, refl, inl, inr, true,
  false, none, some, [], ◌∷◌, ◌++◌, arith, ◌==◌, eq_self, if◌then◌else◌,
}
use team_nivaran.Common.Lists.{Memᴰ-update_where_self}
use team_nivaran.Common.Rows.{find_added, update_found, updated_row}
use team_nivaran.Common.Results.{ok, err, conflict, Result-cases}
use team_nivaran.Workflow.Model.{
  DecisionOutcome, WorkflowInstance, Response, DecisionResponse, IdempotencyRecord, decided,
}
use team_nivaran.Workflow.Store.{Db, Client, Services, Identity, Call, evidence_rows, queue_sync}
use team_nivaran.Workflow.Decide.{
  DecisionInput, DecisionContext, is_decision_pending, is_prior, route_of, final_state, close_row,
}
use team_nivaran.Workflow.Decide.Commands.{record_decision, decide_once}
use team_nivaran.Workflow.Decide.Guards.{check_decision}

module _ (prisma : Client) (services : Services) (hash : DecisionInput → String) (case_id : String)
    (outcome : DecisionOutcome) (input : DecisionInput) (key : String) where
  -- The idempotency record of the request.
  abbrev pub kept_record : Identity → Response → IdempotencyRecord
  kept_record identity response = record {
    organization_id = identity.organization_id;
    actor_id = identity.user_id;
    route = route_of case_id outcome;
    key = key;
    request_hash = hash input;
    response_body = response;
  }

  -- What a recorded decision leaves behind.
  pub record IsRecorded (context : DecisionContext) (call : Call) (db after : Db)
      (response : DecisionResponse) : Type 0 where
    pub decisions : after.decisions ≡ db.decisions ++ response.decision ∷ []
    pub decided_by : response.decision.decided_by ≡ call.identity.user_id
    pub recommendation : response.decision.recommendation_id ≡ context.recommendation.id
    pub evidence : response.decision.evidence_snapshot ≡ context.validation.evidence_snapshot
    pub evidence_rows :
        after.decision_evidence
        ≡ db.decision_evidence
          ++ evidence_rows response.decision.workflow_instance_id
              context.validation.evidence_snapshot response.decision.id
    pub of_instance : response.decision.workflow_instance_id ≡ context.instance.id
    pub workflow : response.workflow.id ≡ context.instance.id
    pub stored : Memᴰ response.workflow after.instances
    pub ended :
        (i : WorkflowInstance)
        → Memᴰ i after.instances
        → i.id ≡ context.instance.id
        → (i.active ≡ false)
          × (i.state ≡ final_state outcome)
          × (i.current_decision_id ≡ some response.decision.id)
    pub others :
        (i : WorkflowInstance)
        → Memᴰ i after.instances
        → i.id ≢ context.instance.id
        → Memᴰ i db.instances
    pub inactive : response.workflow.active ≡ false
    pub state : response.workflow.state ≡ final_state outcome
    pub remembered :
        after.idempotency ≡ db.idempotency ++ kept_record call.identity (decided response) ∷ []

  record_decision_update :
      (context : DecisionContext) (call : Call) (db after : Db) (response : DecisionResponse)
      → record_decision prisma services hash case_id outcome input key context call db
        ≡ ok (after, response)
      → prisma.instance_table.update
          (λ i. i.id == response.decision.workflow_instance_id)
          (close_row outcome response.decision.id call.now)
          db.instances
        ≡ some (response.workflow, after.instances)
  unfolding record_decision
  record_decision_update context call db after response h = unfold queue_sync in ground arith

  -- The workflow of the decision is the one that the guards have checked.
  record_decision_instance :
      (context : DecisionContext) (call : Call) (db after : Db) (response : DecisionResponse)
      → record_decision prisma services hash case_id outcome input key context call db
        ≡ ok (after, response)
      → response.decision.workflow_instance_id ≡ context.instance.id
  unfolding record_decision
  record_decision_instance context call db after response h =
      let locked = λ (i : WorkflowInstance).
        i.id == context.instance.id
        && eqb i.row_version input.workflow_version
        && is_decision_pending i.state
        && i.active in
      elim (Option-cases (prisma.instance_table.find_first locked db.instances)) [
        | inl missing ↦ absurd (ground arith)
        | inr (fresh, found) ↦
            let (met, listed) =
              prisma.instance_table.find_first_some locked db.instances fresh found in
            let same : response.decision.workflow_instance_id ≡ fresh.id =
              unfold queue_sync in ground arith in
            same ∙ (eq_iff fresh.id context.instance.id).0 (ground arith)
      ]

  -- A decision is recorded once, with the recommendation and the evidence that the guards have
  -- checked and one evidence row for each pinned item; the stored workflow of the decision is
  -- inactive, in the outcome's state and names the decision, and is the one that is returned; all
  -- other workflows stay as they are; and the response is kept under the request's key.
  pub record_decision-IsRecorded :
      (context : DecisionContext) (call : Call) (db after : Db) (response : DecisionResponse)
      → record_decision prisma services hash case_id outcome input key context call db
        ≡ ok (after, response)
      → IsRecorded context call db after response
  unfolding record_decision queue_sync
  record_decision-IsRecorded context call db after response h =
      let of_instance = record_decision_instance context call db after response h in
      let key_of = λ (i : WorkflowInstance). i.id == response.decision.workflow_instance_id in
      let close = close_row outcome response.decision.id call.now in
      let (changed, s, listed, met, same) =
        update_found prisma.instance_table key_of close db.instances response.workflow
          after.instances (record_decision_update context call db after response h) in
      record {
        decisions = ground arith;
        decided_by = ground arith;
        recommendation = ground arith;
        evidence = ground arith;
        evidence_rows = ground arith;
        of_instance = of_instance;
        workflow =
            ap (λ (i : WorkflowInstance). i.id) same
            ∙ (eq_iff s.id response.decision.workflow_instance_id).0 met
            ∙ of_instance;
        stored = rw (changed, same) (Memᴰ-update_where_self key_of close db.instances s listed met);
        ended = λ i m named. elim (updated_row key_of close db.instances i (rw changed at m)) [
          | inl (x, from, here, at_x) ↦ (
            ap (λ (j : WorkflowInstance). j.active) at_x,
            ap (λ (j : WorkflowInstance). j.state) at_x,
            ap (λ (j : WorkflowInstance). j.current_decision_id) at_x,
          )
          | inr (old, there) ↦
              let own : i.id ≡ response.decision.workflow_instance_id = named ∙ sym of_instance in
              absurd
                (ground (arith, there, own, eq_iff i.id response.decision.workflow_instance_id))
        ];
        others = λ i m other. elim (updated_row key_of close db.instances i (rw changed at m)) [
          | inl (x, from, here, at_x) ↦ absurd (
              other (
                ap (λ (j : WorkflowInstance). j.id) at_x
                ∙ (eq_iff x.id response.decision.workflow_instance_id).0 here
                ∙ of_instance))
          | inr (old, there) ↦ old
        ];
        inactive = ap (λ (i : WorkflowInstance). i.active) same;
        state = ap (λ (i : WorkflowInstance). i.state) same;
        remembered = ground arith;
      }

  -- A first run: no record of the key, and a recorded decision.
  decide_once_parts :
      (call : Call) (db after : Db) (response : Response) (id : String)
      → decide_once prisma services hash case_id outcome input key call db
        ≡ ok (after, response, some id)
      → (c : DecisionContext) × (r : DecisionResponse) × (response ≡ decided r)
        × (record_decision prisma services hash case_id outcome input key c call db ≡ ok (after, r))
        × (prisma.idempotency_table.find_first
              (is_prior (route_of case_id outcome) key call.identity)
              db.idempotency
            ≡ none)
        × ((key == "") ≡ false)
  unfolding decide_once
  decide_once_parts call db after response id h =
      elim (Result-cases (check_decision prisma services hash case_id outcome input call db)) [
        | inl (e, refused) ↦ absurd (ground arith)
        | inr (c, checked) ↦
            elim (Result-cases
              (record_decision prisma services hash case_id outcome input key c call db)) [
                | inl (e, refused) ↦ absurd (ground arith)
                | inr ((t, r), recorded) ↦
                    (c, r, ground arith, ground arith, ground arith, ground arith)
              ]
      ]

  is_prior_self :
      (identity : Identity) (r : Response)
      → is_prior (route_of case_id outcome) key identity (kept_record identity r) ≡ true
  is_prior_self identity r = simp eq_self

  -- The same request again, by the same caller, at any later time, gets the same response and
  -- changes nothing; a different request under the same key is a conflict.
  pub decide_once_replay :
      (input' : DecisionInput) (call call' : Call) (db after : Db) (response : Response)
      (id : String)
      → decide_once prisma services hash case_id outcome input key call db
        ≡ ok (after, response, some id)
      → call'.identity ≡ call.identity
      → decide_once prisma services hash case_id outcome input' key call' after ≡ (
          if hash input == hash input'
          then ok (after, response, none)
          else err (conflict "Idempotency key was used for a different request."))
  unfolding decide_once
  decide_once_replay input' call call' db after response id h same =
      let (c, r, is_r, recorded, missing, named) = decide_once_parts call db after response id h in
      let kept = record_decision-IsRecorded c call db after r recorded in
      let again = is_prior (route_of case_id outcome) key call.identity in
      let found =
        ap (prisma.idempotency_table.find_first again) kept.remembered
        ∙ find_added prisma.idempotency_table again db.idempotency
            (kept_record call.identity (decided r)) missing
            (is_prior_self call.identity (decided r)) in
      rw (same, named, found, is_r) refl
