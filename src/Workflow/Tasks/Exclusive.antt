-- ===== src/Workflow/Tasks/Exclusive.antt =====
-- A version of a task serves one command: a second claim or assignment at it is refused.
use team_nivaran.Common.{
  ℕ, ◌≤◌, String, ◌≡◌, ap, ◌≢◌, inl, inr, Bool, true, false, ◌&&◌, arith, ◌==◌, Option-cases,
}
use team_nivaran.Common.Lists.{count, update_where, count-update_where_key}
use team_nivaran.Common.Results.{Result, ok, Result-cases}
use team_nivaran.Workflow.Model.{WorkflowTask}
use team_nivaran.Workflow.Store.{Db, Client, Services, Call}
use team_nivaran.Workflow.Tasks.{
  claim, assign, may_claim, claim_row, may_assign, assign_row, claim_transaction,
}

pub data TaskCommand : Type 0 where
  to_claim : TaskCommand
  to_assign : (user_id : String) → TaskCommand

module _ (prisma : Client) (services : Services) (task_id : String) (version : ℕ) where
  -- A claim that succeeds has changed one row, and left the others.
  claim_transaction_row :
      (task : WorkflowTask) (call : Call) (db after : Db)
      → claim_transaction prisma services task_id version task call db ≡ ok after
      → (count (may_claim task_id version call) db.tasks ≡ 1)
        × (after.tasks ≡ update_where (may_claim task_id version call) (claim_row call) db.tasks)
  unfolding claim_transaction
  claim_transaction_row task call db after h = ground (
    arith,
    prisma.task_table.update_many_lem (may_claim task_id version call) (claim_row call) db.tasks,
  )

  assign_row-count :
      (user_id : String) (call : Call) (db : Db) (t : WorkflowTask)
      → (assign prisma services task_id version user_id call db).1 ≡ ok t
      → (count (may_assign task_id version call) db.tasks ≡ 1)
        × ((assign prisma services task_id version user_id call db).0.tasks
            ≡ update_where (may_assign task_id version call) (assign_row user_id) db.tasks)
  unfolding assign
  assign_row-count user_id call db t h = ground (
    arith,
    prisma.task_table.update_many_lem (may_assign task_id version call) (assign_row user_id)
        db.tasks,
  )

  claim_row-count :
      (call : Call) (db : Db) (t : WorkflowTask)
      → (claim prisma services task_id version call db).1 ≡ ok t
      → (count (may_claim task_id version call) db.tasks ≡ 1)
        × ((claim prisma services task_id version call db).0.tasks
            ≡ update_where (may_claim task_id version call) (claim_row call) db.tasks)
  unfolding claim
  claim_row-count call db t h =
      elim (Option-cases (
        prisma.task_table.find_first
          (λ t. t.id == task_id && t.organization_id == call.identity.organization_id) db.tasks)) [
            | inl e ↦ absurd (ground arith)
            | inr (task, e) ↦
                elim (Result-cases
                  (claim_transaction prisma services task_id version task call db)) [
                    | inl (x, r) ↦ absurd (ground arith)
                    | inr (after, r) ↦ ground (arith, claim_transaction_row task call db after)
                  ]
          ]

  -- The rows that a command selects, and what it makes of them.
  abbrev selects : TaskCommand → Call → WorkflowTask → Bool
  selects to_claim call = may_claim task_id version call
  selects (to_assign user_id) call = may_assign task_id version call

  abbrev changes : TaskCommand → Call → WorkflowTask → WorkflowTask
  changes to_claim call = claim_row call
  changes (to_assign user_id) call = assign_row user_id

  abbrev pub run : TaskCommand → Call → Db → Db × Result WorkflowTask
  run to_claim call db = claim prisma services task_id version call db
  run (to_assign user_id) call db = assign prisma services task_id version user_id call db

  run_row :
      (c : TaskCommand) (call : Call) (db : Db) (t : WorkflowTask)
      → (run c call db).1 ≡ ok t
      → (count (selects c call) db.tasks ≡ 1)
        × ((run c call db).0.tasks ≡ update_where (selects c call) (changes c call) db.tasks)
  run_row to_claim call db t h = claim_row-count call db t h
  run_row (to_assign user_id) call db t h = assign_row-count user_id call db t h

  selects_task :
      (c : TaskCommand) (call : Call) (t : WorkflowTask)
      → selects c call t ≡ true
      → (t.id == task_id) ≡ true
  selects_task to_claim call t h = ground arith
  selects_task (to_assign user_id) call t h = ground arith

  changes_away :
      (c c' : TaskCommand) (call call' : Call) (t : WorkflowTask)
      → selects c call t ≡ true
      → selects c' call' (changes c call t) ≡ false
  changes_away to_claim to_claim call call' t h = ground arith
  changes_away to_claim (to_assign u) call call' t h = ground arith
  changes_away (to_assign u) to_claim call call' t h = ground arith
  changes_away (to_assign u) (to_assign u') call call' t h = ground arith

  -- After a claim or an assignment of a task has succeeded, every claim and every assignment that
  -- names the same version is refused, whoever makes it. The task id is the table's primary key.
  pub run_exclusive :
      (c c' : TaskCommand) (call call' : Call) (db : Db) (t t' : WorkflowTask)
      → count (λ t. t.id == task_id) db.tasks ≤ 1
      → (run c call db).1 ≡ ok t
      → (run c' call' (run c call db).0).1 ≢ ok t'
  run_exclusive c c' call call' db t t' unique h again =
      let (one, rows) = run_row c call db t h in
      let (one', rows') = run_row c' call' (run c call db).0 t' again in
      let none_left =
        count-update_where_key (selects c call) (selects c' call') (λ t. t.id == task_id)
          (changes c call) db.tasks (selects_task c call) (selects_task c' call')
          (changes_away c c' call call') unique one in
      cc (ap (count (selects c' call')) rows, none_left, one')
