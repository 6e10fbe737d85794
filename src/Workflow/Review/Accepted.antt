-- ===== src/Workflow/Review/Accepted.antt =====
-- What a review that is accepted has met, and what it records.
use team_nivaran.Common.{
  String, ◌≡◌, ap, ◌∙◌, inl, inr, true, ◌&&◌, Option, none, some, List, [], ◌∷◌, ◌++◌, Memᴰ, arith,
  ◌==◌, eq_iff, eqb, is_text,
}
use team_nivaran.Common.Lists.{All}
use team_nivaran.Common.Results.{ok, Result-cases}
use team_nivaran.Workflow.Rules.{EvidenceItem}
use team_nivaran.Workflow.Model.{WorkflowInstance, WorkflowTask, ValidationRun, ReviewSubmission}
use team_nivaran.Workflow.Store.{
  Db, Client, Services, Call, is_claimed, evidence_rows, current_validation,
  assert_snapshot_current, task_row,
}
use team_nivaran.Workflow.Store.Snapshot.{IsUnchanged, assert_snapshot_current_iff}
use team_nivaran.Workflow.Store.Validated.{current_validation_parts}
use team_nivaran.Workflow.Review.{
  ReviewInput, check_review, lock_review, record_review, submit_review,
}

eq_some_of_is_text : (o : Option String) (s : String) → is_text o s ≡ true → o ≡ some s
eq_some_of_is_text none s h = cc
eq_some_of_is_text (some t) s h = ap some ((eq_iff t s).0 h)

module _ (prisma : Client) (services : Services) (task_id : String) (input : ReviewInput)
    (call : Call) (db : Db) where
  -- The claimed task, the active workflow and the evidence behind a review.
  pub record IsAccepted (review : ReviewSubmission) : Type 0 where
    pub task : WorkflowTask
    pub listed : Memᴰ task db.tasks
    pub named : task.id ≡ task_id
    pub claimed_by : task.claimed_by ≡ some call.identity.user_id
    pub claimed : is_claimed task.status ≡ true
    pub task_seen : task.row_version ≡ input.task_version
    pub instance : WorkflowInstance
    pub instance_listed : Memᴰ instance db.instances
    pub active : instance.active ≡ true
    pub seen : instance.row_version ≡ input.workflow_version
    pub reviewed_instance : WorkflowInstance
    pub reviewed_listed : Memᴰ reviewed_instance db.instances
    pub same_instance : instance.id ≡ reviewed_instance.id
    pub validation : ValidationRun
    pub validation_listed : Memᴰ validation db.validations
    pub current : reviewed_instance.current_validation_run_id ≡ some validation.id
    pub passed : validation.pass ≡ true
    pub items : List EvidenceItem
    pub answered :
        services.evidence call.identity.organization_id reviewed_instance.case_id ≡ ok items
    pub unchanged : All (IsUnchanged validation.evidence_snapshot items) input.evidence_version_ids
    pub reviewed : review.workflow_instance_id ≡ instance.id
    pub by : review.actor_id ≡ call.identity.user_id
    pub on : review.validation_run_id ≡ validation.id
    pub pinned : review.evidence_snapshot ≡ validation.evidence_snapshot
    pub added :
        (submit_review prisma services task_id input call db).0.reviews ≡ db.reviews ++ review ∷ []
    pub rows :
        (submit_review prisma services task_id input call db).0.review_evidence
        ≡ db.review_evidence ++ evidence_rows instance.id validation.evidence_snapshot review.id

  check_review_parts :
      (i : WorkflowInstance) (v : ValidationRun)
      → check_review prisma services task_id input call db ≡ ok (i, v)
      → Memᴰ i db.instances
        × (current_validation prisma i db ≡ ok v)
        × (items : List EvidenceItem) × (services.evidence call.identity.organization_id i.case_id
            ≡ ok items)
        × (assert_snapshot_current v.evidence_snapshot items input.evidence_version_ids ≡ ok tt)
  unfolding check_review
  check_review_parts i v h =
      elim (Result-cases (task_row prisma task_id call.identity.organization_id db)) [
        | inl (e, missing) ↦ absurd (ground arith)
        | inr (t, task_found) ↦
            let org = call.identity.organization_id in
            let (met, listed) =
              prisma.instance_table.find_first_some
                (λ j. j.id == t.workflow_instance_id && j.organization_id == org) db.instances i
                (ground arith) in
            elim (Result-cases (services.evidence org i.case_id)) [
              | inl (e, refused) ↦ absurd (ground arith)
              | inr (items, found) ↦ (listed, ground arith, items, found, ground arith)
            ]
      ]

  lock_review_parts :
      (i f : WorkflowInstance) (t : WorkflowTask)
      → lock_review prisma services task_id input i call db ≡ ok (t, f)
      → Memᴰ t db.tasks
        × (t.id ≡ task_id)
        × (t.claimed_by ≡ some call.identity.user_id)
        × (is_claimed t.status ≡ true)
        × (t.row_version ≡ input.task_version)
        × Memᴰ f db.instances
        × (f.id ≡ i.id)
        × (f.active ≡ true)
        × (f.row_version ≡ input.workflow_version)
  unfolding lock_review
  lock_review_parts i f t h =
      let (task_met, task_listed) =
        prisma.task_table.find_first_some
          (λ t.
            t.id == task_id
            && eqb t.row_version input.task_version
            && is_claimed t.status
            && is_text t.claimed_by call.identity.user_id)
          db.tasks t (ground arith) in
      let (instance_met, instance_listed) =
        prisma.instance_table.find_first_some
          (λ j. j.id == i.id && eqb j.row_version input.workflow_version && j.active) db.instances f
          (ground arith) in
      (
        task_listed,
        ground (arith, eq_iff t.id task_id),
        eq_some_of_is_text t.claimed_by call.identity.user_id (ground arith),
        ground arith,
        ground arith,
        instance_listed,
        ground (arith, eq_iff f.id i.id),
        ground arith,
        ground arith,
      )

  record_review_parts :
      (t : WorkflowTask) (f : WorkflowInstance) (v : ValidationRun) (after : Db)
      (review : ReviewSubmission)
      → record_review prisma services t f v input call db ≡ ok (after, review)
      → (review.workflow_instance_id ≡ f.id)
        × (review.actor_id ≡ call.identity.user_id)
        × (review.validation_run_id ≡ v.id)
        × (review.evidence_snapshot ≡ v.evidence_snapshot)
        × (after.reviews ≡ db.reviews ++ review ∷ [])
        × (after.review_evidence
            ≡ db.review_evidence ++ evidence_rows f.id v.evidence_snapshot review.id)
  unfolding record_review
  record_review_parts t f v after review h =
      (ground arith, ground arith, ground arith, ground arith, ground arith, ground arith)

  submit_review_parts :
      (review : ReviewSubmission)
      → (submit_review prisma services task_id input call db).1 ≡ ok review
      → (i f : WorkflowInstance) × (t : WorkflowTask) × (v : ValidationRun) × (after : Db)
        × (check_review prisma services task_id input call db ≡ ok (i, v))
        × (lock_review prisma services task_id input i call db ≡ ok (t, f))
        × (record_review prisma services t f v input call db ≡ ok (after, review))
        × ((submit_review prisma services task_id input call db).0 ≡ after)
  unfolding submit_review
  submit_review_parts review h =
      elim (Result-cases (check_review prisma services task_id input call db)) [
        | inl (e, refused) ↦ absurd (ground arith)
        | inr ((i, v), checked) ↦
            elim (Result-cases (lock_review prisma services task_id input i call db)) [
              | inl (e, refused) ↦ absurd (ground arith)
              | inr ((t, f), locked) ↦
                  elim (Result-cases (record_review prisma services t f v input call db)) [
                    | inl (e, refused) ↦ absurd (ground arith)
                    | inr ((after, r), recorded) ↦
                        (i, f, t, v, after, checked, locked, ground arith, ground arith)
                  ]
            ]
      ]

  -- A review is accepted only from the caller who holds the claim of the task at the version seen,
  -- on an active workflow at the version seen, whose current validation run is stored and passed, and
  -- when every evidence version that the caller selected is unchanged in what the Evidence Service
  -- answers for the workflow's case; it is added with one evidence row for each item that the
  -- validation pinned.
  pub submit_review-IsAccepted :
      (review : ReviewSubmission)
      → (submit_review prisma services task_id input call db).1 ≡ ok review
      → IsAccepted review
  submit_review-IsAccepted review h =
      let (i, f, t, v, after, checked, locked, recorded, settled) = submit_review_parts review h in
      let (read, is_current, items, answered, unchanged) = check_review_parts i v checked in
      let (current, validation_listed, passed) =
        current_validation_parts prisma i v db is_current in
      let (listed, named, by, is_claim, task_seen, instance_listed, same, active, seen) =
        lock_review_parts i f t locked in
      let (reviewed, actor, on, pinned, added, rows) =
        record_review_parts t f v after review recorded in
      record {
        task = t;
        listed = listed;
        named = named;
        claimed_by = by;
        claimed = is_claim;
        task_seen = task_seen;
        instance = f;
        instance_listed = instance_listed;
        active = active;
        seen = seen;
        reviewed_instance = i;
        reviewed_listed = read;
        same_instance = same;
        validation = v;
        validation_listed = validation_listed;
        current = current;
        passed = passed;
        items = items;
        answered = answered;
        unchanged =
            (assert_snapshot_current_iff v.evidence_snapshot items input.evidence_version_ids).0
              unchanged;
        reviewed = reviewed;
        by = actor;
        on = on;
        pinned = pinned;
        added = ap (λ (d : Db). d.reviews) settled ∙ added;
        rows = ap (λ (d : Db). d.review_evidence) settled ∙ rows;
      }
