-- ===== src/Workflow/Recommend/Outcome.antt =====
-- What a recommendation rests on, and what it leaves behind.
use team_nivaran.Common.{
  ℕ, String, ◌≡◌, ap, ◌∙◌, inl, inr, Bool, true, ◌&&◌, some, List, [], ◌∷◌, ◌++◌, map, Memᴰ, arith,
  ◌==◌, eq_iff, eqb, Option-cases,
}
use team_nivaran.Common.Lists.{All}
use team_nivaran.Common.Results.{ok, Result-cases}
use team_nivaran.Workflow.Rules.{EvidenceItem}
use team_nivaran.Workflow.Model.{WorkflowInstance, ValidationRun, Recommendation}
use team_nivaran.Workflow.Store.{
  Db, Client, Services, Call, evidence_rows, current_validation, assert_snapshot_current,
  queue_sync,
}
use team_nivaran.Workflow.Store.Snapshot.{IsUnchanged, assert_snapshot_current_iff}
use team_nivaran.Workflow.Store.Validated.{current_validation_parts}
use team_nivaran.Workflow.Recommend.{
  RecommendationInput, is_ready_for_recommendation, asks_for_more, check_recommendation,
  recommendation_of, record_recommendation, recommend,
}

module _ (prisma : Client) (services : Services) (due : ℕ) (case_id : String)
    (input : RecommendationInput) (call : Call) (db : Db) where
  -- The passing validation behind a recommendation, and what the recommendation leaves.
  pub record IsRecommended (r : Recommendation) (after : Db) : Type 0 where
    pub checked_instance : WorkflowInstance
    pub checked_listed : Memᴰ checked_instance db.instances
    pub of_case : checked_instance.case_id ≡ case_id
    pub validation : ValidationRun
    pub validation_listed : Memᴰ validation db.validations
    pub current : checked_instance.current_validation_run_id ≡ some validation.id
    pub passed : validation.pass ≡ true
    pub items : List EvidenceItem
    pub answered : services.evidence call.identity.organization_id case_id ≡ ok items
    pub unchanged :
        All
          (IsUnchanged validation.evidence_snapshot items)
          (map (λ item. item.evidence_version_id) validation.evidence_snapshot)
    pub on : r.validation_run_id ≡ validation.id
    pub pinned : r.evidence_snapshot ≡ validation.evidence_snapshot
    pub by : r.actor_id ≡ call.identity.user_id
    pub instance : WorkflowInstance
    pub listed : Memᴰ instance db.instances
    pub same_instance : instance.id ≡ checked_instance.id
    pub active : instance.active ≡ true
    pub ready : is_ready_for_recommendation instance.state ≡ true
    pub seen : instance.row_version ≡ input.workflow_version
    pub for_instance : r.workflow_instance_id ≡ instance.id
    pub added : after.recommendations ≡ db.recommendations ++ r ∷ []
    pub rows :
        after.recommendation_evidence
        ≡ db.recommendation_evidence ++ evidence_rows instance.id validation.evidence_snapshot r.id
    -- A request for more information leaves no trace in the history, the corrections or the outbox.
    pub untraced :
        asks_for_more input.outcome ≡ true
        → (after.history ≡ db.history)
          × (after.outbox ≡ db.outbox)
          × (after.corrections ≡ db.corrections)

  check_recommendation_parts :
      (i : WorkflowInstance) (v : ValidationRun)
      → check_recommendation prisma services due case_id input call db ≡ ok (i, v)
      → Memᴰ i db.instances
        × (i.case_id ≡ case_id)
        × (current_validation prisma i db ≡ ok v)
        × (items : List EvidenceItem) × (services.evidence call.identity.organization_id case_id
            ≡ ok items)
        × (assert_snapshot_current v.evidence_snapshot items
              (map (λ item. item.evidence_version_id) v.evidence_snapshot)
            ≡ ok tt)
  unfolding check_recommendation
  check_recommendation_parts i v h =
      let org = call.identity.organization_id in
      let (met, listed) =
        prisma.instance_table.find_first_some
          (λ j. j.case_id == case_id && j.organization_id == org && j.active) db.instances i
          (ground arith) in
      elim (Result-cases (services.evidence org case_id)) [
        | inl (e, refused) ↦ absurd (ground arith)
        | inr (items, found) ↦ (
          listed,
          ground (arith, eq_iff i.case_id case_id),
          ground arith,
          items,
          found,
          ground arith,
        )
      ]

  record_recommendation_parts :
      (f : WorkflowInstance) (v : ValidationRun) (after : Db) (r : Recommendation)
      → record_recommendation prisma services due f v input call db ≡ ok (after, r)
      → (r ≡ recommendation_of prisma services due f v input call db)
        × (after.recommendations ≡ db.recommendations ++ r ∷ [])
        × (after.recommendation_evidence
            ≡ db.recommendation_evidence ++ evidence_rows f.id v.evidence_snapshot r.id)
        × (asks_for_more input.outcome ≡ true
            → (after.history ≡ db.history)
              × (after.outbox ≡ db.outbox)
              × (after.corrections ≡ db.corrections))
  unfolding record_recommendation queue_sync
  record_recommendation_parts f v after r h =
      (ground arith, ground arith, ground arith, λ more. (ground arith, ground arith, ground arith))

  abbrev ready_again : WorkflowInstance → WorkflowInstance → Bool
  ready_again i j =
      j.id == i.id
      && eqb j.row_version input.workflow_version
      && is_ready_for_recommendation j.state
      && j.active

  recommend_parts :
      (r : Recommendation)
      → (recommend prisma services due case_id input call db).1 ≡ ok r
      → (i f : WorkflowInstance) × (v : ValidationRun) × (after : Db) × (check_recommendation prisma
            services due case_id input call db
          ≡ ok (i, v))
        × (prisma.instance_table.find_first (ready_again i) db.instances ≡ some f)
        × (record_recommendation prisma services due f v input call db ≡ ok (after, r))
        × ((recommend prisma services due case_id input call db).0 ≡ after)
  unfolding recommend
  recommend_parts r h =
      elim (Result-cases (check_recommendation prisma services due case_id input call db)) [
        | inl (e, refused) ↦ absurd (ground arith)
        | inr ((i, v), checked) ↦
            elim (Option-cases (prisma.instance_table.find_first (ready_again i) db.instances)) [
              | inl gone ↦ absurd (ground arith)
              | inr (f, found) ↦
                  elim (Result-cases
                    (record_recommendation prisma services due f v input call db)) [
                      | inl (e, refused) ↦ absurd (ground arith)
                      | inr ((after, r'), recorded) ↦
                          (i, f, v, after, checked, found, ground arith, ground arith)
                    ]
            ]
      ]

  -- A recommendation is made only on an active workflow that is ready for it, at the version seen,
  -- whose current validation run is stored and passed, and whose pinned evidence is unchanged in what
  -- the Evidence Service answers for the case; it pins that evidence, with a row for each item. One that asks for more information adds no history row, no correction
  -- request and no event.
  pub recommend-IsRecommended :
      (r : Recommendation)
      → (recommend prisma services due case_id input call db).1 ≡ ok r
      → IsRecommended r (recommend prisma services due case_id input call db).0
  recommend-IsRecommended r h =
      let (i, f, v, after, checked, found, recorded, settled) = recommend_parts r h in
      let (read, of_case, is_current, items, answered, unchanged) =
        check_recommendation_parts i v checked in
      let (current, validation_listed, passed) =
        current_validation_parts prisma i v db is_current in
      let (met, listed) =
        prisma.instance_table.find_first_some (ready_again i) db.instances f found in
      let (made, added, rows, untraced) = record_recommendation_parts f v after r recorded in
      record {
        checked_instance = i;
        checked_listed = read;
        of_case = of_case;
        validation = v;
        validation_listed = validation_listed;
        current = current;
        passed = passed;
        items = items;
        answered = answered;
        unchanged = (assert_snapshot_current_iff v.evidence_snapshot items _).0 unchanged;
        on = ap (λ (x : Recommendation). x.validation_run_id) made;
        pinned = ap (λ (x : Recommendation). x.evidence_snapshot) made;
        by = ap (λ (x : Recommendation). x.actor_id) made;
        instance = f;
        listed = listed;
        same_instance = ground (arith, eq_iff f.id i.id);
        active = ground arith;
        ready = ground arith;
        seen = ground arith;
        for_instance = ap (λ (x : Recommendation). x.workflow_instance_id) made;
        added = ap (λ (d : Db). d.recommendations) settled ∙ added;
        rows = ap (λ (d : Db). d.recommendation_evidence) settled ∙ rows;
        untraced = λ more. rw settled (untraced more);
      }
