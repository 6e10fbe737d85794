-- ===== src/Workflow/Lifecycle/Validation.antt =====
-- What a validation decides, and the tasks that it leaves.
use team_nivaran.Common.{
  ◌+◌, String, ◌≡◌, ◌↔◌, Bool, true, not, List, [], ◌∷◌, ◌++◌, arith, eq_self,
}
use team_nivaran.Common.Lists.{All, count, update_where, count-append, count-update_where_zero}
use team_nivaran.Common.Results.{ok}
use team_nivaran.Workflow.Rules.{EvidenceItem, CaseSnapshot, evaluate_rules}
use team_nivaran.Workflow.Rules.Meaning.{Meets, any-fail_iff}
use team_nivaran.Workflow.Model.{WorkflowInstance, WorkflowTask, DefinitionVersion, ValidationRun}
use team_nivaran.Workflow.Store.{Db, Client, Services, Call, hours, queue_sync}
use team_nivaran.Workflow.Lifecycle.{
  is_open_of, cancel_row, record_validation, has_failure, validation_task,
}

counted : {A : Type 0} (p : A → Bool) (x : A) → p x ≡ true → count p (x ∷ []) ≡ 1
counted p x e = rw e (omega arith)

module _ (prisma : Client) (services : Services) (fresh : WorkflowInstance)
    (version : DefinitionVersion) (snapshot : CaseSnapshot) (evidence : List EvidenceItem)
    (trigger : String) (call : Call) (db after : Db) (run : ValidationRun)
    (h : record_validation prisma services fresh version snapshot evidence trigger call db
      ≡ ok (after, run)) where
  failed : Bool
  failed = has_failure (evaluate_rules snapshot evidence call.now version.rules)

  run_pass : run.pass ≡ not failed
  unfolding record_validation failed
  run_pass = ground arith

  -- The run of a validation passes exactly when every rule of the definition is met by the case and
  -- the evidence as they were read, and it pins that evidence.
  pub record_validation_iff :
      ((run.pass ≡ true) ↔ All (λ rule. Meets snapshot evidence call.now rule.check) version.rules)
      × (run.evidence_snapshot ≡ evidence)
  unfolding record_validation failed
  record_validation_iff =
      let (to, from) = any-fail_iff snapshot evidence call.now version.rules in
      (
        (λ p. to (ground (arith, run_pass)), λ met. ground (arith, run_pass, from met)),
        ground arith,
      )

  -- The task that is added.
  abbrev added : WorkflowTask
  unfolding failed
  added =
      validation_task failed
        (prisma.task_table.new_id
          (update_where (is_open_of fresh.id) (cancel_row call.now) db.tasks))
        fresh (call.now + hours version.default_review_due_hours)

  tasks_after :
      after.tasks ≡ update_where (is_open_of fresh.id) (cancel_row call.now) db.tasks ++ added ∷ []
  unfolding record_validation queue_sync failed
  tasks_after = ground (
    arith,
    prisma.task_table.update_many_lem (is_open_of fresh.id) (cancel_row call.now) db.tasks,
  )

  added_open : is_open_of fresh.id added ≡ true
  unfolding failed
  added_open = ground (arith, eq_self fresh.id)

  -- After a validation the workflow has exactly one open task.
  pub record_validation_tasks : count (is_open_of fresh.id) after.tasks ≡ 1
  record_validation_tasks =
      let none_old =
        count-update_where_zero (is_open_of fresh.id) (is_open_of fresh.id) (cancel_row call.now)
          db.tasks (λ t. ground arith) (λ t m. m) in
      rw tasks_after (
        omega (
          arith,
          count-append (is_open_of fresh.id)
              (update_where (is_open_of fresh.id) (cancel_row call.now) db.tasks) (added ∷ []),
          none_old,
          counted (is_open_of fresh.id) added added_open,
        ))
