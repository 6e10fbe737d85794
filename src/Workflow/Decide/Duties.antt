-- ===== src/Workflow/Decide/Duties.antt =====
-- Separation of duties: who may take a final decision, and on what evidence.
use team_nivaran.Common.{
  ◌≤◌, String, ◌≡◌, ◌∙◌, ap, sym, ◌≢◌, inl, inr, true, false, ◌&&◌, some, List, map, Memᴰ, arith,
  ◌==◌, eq_iff, Option-cases,
}
use team_nivaran.Common.Lists.{any, any-Memᴰ}
use team_nivaran.Common.Rows.{count-Memᴰ}
use team_nivaran.Common.Results.{ok, Result-cases}
use team_nivaran.Workflow.Rules.{EvidenceItem}
use team_nivaran.Workflow.Model.{DecisionOutcome, ActionActor, WorkflowInstance}
use team_nivaran.Workflow.Store.{
  Db, Client, Services, Call, current_validation, assert_snapshot_current,
}
use team_nivaran.Workflow.Decide.{
  DecisionInput, DecisionContext, required_permission, same_actor, is_review_of,
  is_decision_pending,
}
use team_nivaran.Workflow.Decide.Guards.{check_decision, find_pending, load_context, check_duties}

-- What the guards of a decision have established.
pub record IsSeparated (services : Services) (outcome : DecisionOutcome) (input : DecisionInput)
    (case_id : String) (call : Call) (db : Db) (c : DecisionContext) : Type 0 where
  -- The workflow is the caller's, is active and pending, and is the one the caller has seen.
  pub instance : Memᴰ c.instance db.instances
  pub tenant : c.instance.organization_id ≡ call.identity.organization_id
  pub case : c.instance.case_id ≡ case_id
  pub active : c.instance.active ≡ true
  pub pending : is_decision_pending c.instance.state ≡ true
  pub seen : c.instance.row_version ≡ input.workflow_version
  -- The recommendation is the workflow's current one.
  pub recommendation : c.instance.current_recommendation_id ≡ some c.recommendation.id
  pub version : c.version.id ≡ c.instance.definition_version_id
  pub eligible :
      services.eligible call.identity.organization_id call.identity.user_id
        (required_permission outcome)
      ≡ ok true
  -- Four eyes: the recommender does not decide.
  pub four_eyes :
      c.version.four_eyes_enabled ≡ true → c.recommendation.actor_id ≢ call.identity.user_id
  -- A reviewer does not decide, unless another has reviewed as late.
  pub reviewer :
      (a : ActionActor)
      → c.version.prohibit_reviewer_approval ≡ true
      → Memᴰ a db.actors
      → is_review_of c.instance.id a ≡ true
      → (b : ActionActor) × Memᴰ b db.actors
        × (is_review_of c.instance.id b ≡ true)
        × (a.occurred_at ≤ b.occurred_at)
        × (b.actor_id ≢ call.identity.user_id)
  -- A submitter of the pinned evidence does not decide.
  pub submitter :
      (item : EvidenceItem)
      → c.version.prohibit_evidence_submitter_approval ≡ true
      → Memᴰ item c.validation.evidence_snapshot
      → item.created_by_id ≢ call.identity.user_id
  -- The evidence that the validation pinned passed, and is what the Evidence Service shows now.
  pub passed : c.validation.pass ≡ true
  pub current :
      (items : List EvidenceItem) × (services.evidence call.identity.organization_id case_id
        ≡ ok items)
      × (assert_snapshot_current c.validation.evidence_snapshot items
            (map (λ item. item.evidence_version_id) c.validation.evidence_snapshot)
          ≡ ok tt)

module _ (prisma : Client) (services : Services) (hash : DecisionInput → String) (case_id : String)
    (call : Call) (db : Db) where
  -- What `find_pending` has established.
  record IsPending (outcome : DecisionOutcome) (input : DecisionInput) (i : WorkflowInstance)
      (recommendation_id : String) : Type 0 where
    found :
        prisma.instance_table.find_first
          (λ i.
            i.case_id == case_id && i.organization_id == call.identity.organization_id && i.active)
          db.instances
        ≡ some i
    pending : is_decision_pending i.state ≡ true
    seen : i.row_version ≡ input.workflow_version
    recommendation : i.current_recommendation_id ≡ some recommendation_id
    eligible :
        services.eligible call.identity.organization_id call.identity.user_id
          (required_permission outcome)
        ≡ ok true

  find_pending-IsPending :
      (outcome : DecisionOutcome) (input : DecisionInput) (i : WorkflowInstance) (r t : String)
      → find_pending prisma services hash case_id outcome input call db ≡ ok (i, r, t)
      → IsPending outcome input i r
  unfolding find_pending
  find_pending-IsPending outcome input i r t h = record {
    found = ground arith;
    pending = ground arith;
    seen = ground arith;
    recommendation = ground arith;
    eligible = ground arith;
  }

  -- What `load_context` has established.
  record IsLoaded (i : WorkflowInstance) (recommendation_id : String) (c : DecisionContext)
      : Type 0 where
    same : c.instance ≡ i
    recommendation : (c.recommendation.id == recommendation_id) ≡ true
    version : (c.version.id == i.definition_version_id) ≡ true
    passed : c.validation.pass ≡ true

  load_context-IsLoaded :
      (i : WorkflowInstance) (r t : String) (input : DecisionInput) (c : DecisionContext)
      → load_context prisma services hash i r t input call db ≡ ok c
      → IsLoaded i r c
  unfolding load_context current_validation
  load_context-IsLoaded i r t input c h = record {
    same = ground arith;
    recommendation = ground (
      arith,
      prisma.recommendation_table.find_first_some (λ x. x.id == r) db.recommendations
          c.recommendation,
    );
    version = ground (
      arith,
      prisma.version_table.find_first_some (λ x. x.id == i.definition_version_id) db.versions
          c.version,
    );
    passed = ground arith;
  }

  module _ (c : DecisionContext)
      (h : check_duties prisma services hash case_id c call db ≡ ok tt) where
    four_eyes :
        c.version.four_eyes_enabled ≡ true → c.recommendation.actor_id ≢ call.identity.user_id
    unfolding check_duties
    four_eyes p = ground (arith, eq_iff c.recommendation.actor_id call.identity.user_id)

    latest_reviewer :
        c.version.prohibit_reviewer_approval ≡ true
        → same_actor
            (prisma.actor_table.find_latest
              (is_review_of c.instance.id)
              (λ a. a.occurred_at)
              db.actors)
            call.identity.user_id
          ≡ false
    unfolding check_duties
    latest_reviewer p = ground arith

    no_submitter :
        c.version.prohibit_evidence_submitter_approval ≡ true
        → any
            (λ (item : EvidenceItem). item.created_by_id == call.identity.user_id)
            c.validation.evidence_snapshot
          ≡ false
    unfolding check_duties
    no_submitter p = ground arith

    current_evidence :
        (items : List EvidenceItem) × (services.evidence call.identity.organization_id case_id
          ≡ ok items)
        × (assert_snapshot_current c.validation.evidence_snapshot items
              (map (λ item. item.evidence_version_id) c.validation.evidence_snapshot)
            ≡ ok tt)
    unfolding check_duties
    current_evidence = ground arith

    later_reviewer :
        (a : ActionActor)
        → c.version.prohibit_reviewer_approval ≡ true
        → Memᴰ a db.actors
        → is_review_of c.instance.id a ≡ true
        → (b : ActionActor) × Memᴰ b db.actors
          × (is_review_of c.instance.id b ≡ true)
          × (a.occurred_at ≤ b.occurred_at)
          × (b.actor_id ≢ call.identity.user_id)
    later_reviewer a p m r =
        elim (Option-cases (
          prisma.actor_table.find_latest (is_review_of c.instance.id) (λ a. a.occurred_at)
            db.actors)) [
              | inl none_found ↦ absurd (
                  count-Memᴰ _ db.actors a m r
                    (prisma.actor_table.find_latest_none _ _ db.actors none_found))
              | inr (b, found) ↦
                  let (is_b, in_b) = prisma.actor_table.find_latest_some _ _ db.actors b found in
                  (
                    b,
                    in_b,
                    is_b,
                    prisma.actor_table.find_latest_max _ _ db.actors b a found m r,
                    let other = rw found at (latest_reviewer p) in
                        ground (arith, eq_iff b.actor_id call.identity.user_id),
                  )
            ]

    submitters_apart :
        (item : EvidenceItem)
        → c.version.prohibit_evidence_submitter_approval ≡ true
        → Memᴰ item c.validation.evidence_snapshot
        → item.created_by_id ≢ call.identity.user_id
    submitters_apart item p m =
        let apart = any-Memᴰ _ c.validation.evidence_snapshot (no_submitter p) m in
        ground (arith, eq_iff item.created_by_id call.identity.user_id)

  -- The three parts of the guards.
  check_decision_parts :
      (outcome : DecisionOutcome) (input : DecisionInput) (c : DecisionContext)
      → check_decision prisma services hash case_id outcome input call db ≡ ok c
      → (i : WorkflowInstance) × (r : String) × (t : String) × (find_pending prisma services hash
            case_id outcome input call db
          ≡ ok (i, r, t))
        × (load_context prisma services hash i r t input call db ≡ ok c)
        × (check_duties prisma services hash case_id c call db ≡ ok tt)
  unfolding check_decision
  check_decision_parts outcome input c h =
      elim (Result-cases (find_pending prisma services hash case_id outcome input call db)) [
        | inl (e, refused) ↦ absurd (ground arith)
        | inr ((i, r, t), found) ↦
            elim (Result-cases (load_context prisma services hash i r t input call db)) [
              | inl (e, refused) ↦ absurd (ground arith)
              | inr (d, loaded) ↦ (i, r, t, found, ground arith, ground arith)
            ]
      ]

  found_by_case :
      (i : WorkflowInstance)
      → prisma.instance_table.find_first
          (λ i.
            i.case_id == case_id && i.organization_id == call.identity.organization_id && i.active)
          db.instances
        ≡ some i
      → Memᴰ i db.instances
        × (i.organization_id ≡ call.identity.organization_id)
        × (i.case_id ≡ case_id)
        × (i.active ≡ true)
  found_by_case i h =
      let (met, listed) = prisma.instance_table.find_first_some _ db.instances i h in
      (
        listed,
        ground (arith, eq_iff i.organization_id call.identity.organization_id),
        ground (arith, eq_iff i.case_id case_id),
        ground arith,
      )

  -- A decision passes its guards only when the duties are separated: the workflow is the caller's,
  -- active, pending and at the version seen; the caller is eligible; the recommendation is the
  -- current one and, with four eyes, not the caller's; where the definition says so, the latest
  -- review is another's and no pinned evidence was submitted by the caller; the pinned validation
  -- passed and its evidence is unchanged now.
  pub check_decision-IsSeparated :
      (outcome : DecisionOutcome) (input : DecisionInput) (c : DecisionContext)
      → check_decision prisma services hash case_id outcome input call db ≡ ok c
      → IsSeparated services outcome input case_id call db c
  unfolding check_decision
  check_decision-IsSeparated outcome input c h =
      let (i, r, t, pending, loaded, duties) = check_decision_parts outcome input c h in
      let p = find_pending-IsPending outcome input i r t pending in
      let l = load_context-IsLoaded i r t input c loaded in
      let (listed, tenant, case, active) = found_by_case c.instance (rw l.same p.found) in
      record {
        instance = listed;
        tenant = tenant;
        case = case;
        active = active;
        pending = rw l.same p.pending;
        seen = rw l.same p.seen;
        recommendation =
            rw l.same (
              p.recommendation ∙ ap some (sym ((eq_iff c.recommendation.id r).0 l.recommendation)));
        version = rw l.same ((eq_iff _ _).0 l.version);
        eligible = p.eligible;
        four_eyes = four_eyes c duties;
        reviewer = later_reviewer c duties;
        submitter = submitters_apart c duties;
        passed = l.passed;
        current = current_evidence c duties;
      }
