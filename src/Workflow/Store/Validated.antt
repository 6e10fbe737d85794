-- ===== src/Workflow/Store/Validated.antt =====
-- The current validation run of a workflow, as the guards of the commands read it.
use team_nivaran.Common.{◌≡◌, inl, inr, true, some, Memᴰ, arith, ◌==◌, eq_iff, Option-cases}
use team_nivaran.Common.Results.{ok}
use team_nivaran.Workflow.Model.{WorkflowInstance, ValidationRun}
use team_nivaran.Workflow.Store.{Db, Client, current_validation}

-- The run that `current_validation` returns is stored, current and passed.
pub current_validation_parts :
    (prisma : Client) (i : WorkflowInstance) (v : ValidationRun) (db : Db)
    → current_validation prisma i db ≡ ok v
    → (i.current_validation_run_id ≡ some v.id) × Memᴰ v db.validations × (v.pass ≡ true)
unfolding current_validation
current_validation_parts prisma i v db h = elim (Option-cases i.current_validation_run_id) [
  | inl missing ↦ absurd (ground arith)
  | inr (id, named) ↦
      elim (Option-cases (prisma.validation_table.find_first (λ v. v.id == id) db.validations)) [
        | inl gone ↦ absurd (ground arith)
        | inr (run, found) ↦
            let (met, listed) =
              prisma.validation_table.find_first_some (λ v. v.id == id) db.validations run found in
            let same : run ≡ v = ground arith in
            (ground (arith, eq_iff run.id id), rw (← same) listed, ground arith)
      ]
]
