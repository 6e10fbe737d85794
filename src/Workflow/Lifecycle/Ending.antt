-- ===== src/Workflow/Lifecycle/Ending.antt =====
-- Withdrawing a workflow, and resubmitting with a stale version.
use team_nivaran.Common.{
  ℕ, ◌+◌, String, ◌≡◌, ◌∙◌, sym, ap, ◌≢◌, ◌⊎◌, inl, inr, true, false, ◌&&◌, Option, some, List,
  arith, ◌==◌, eq_iff, Bool, Option-cases, Memᴰ, is_none,
}
use team_nivaran.Common.Lists.{count, update_where, count-update_where_zero, Memᴰ-update_where_self}
use team_nivaran.Common.Rows.{update_found, updated_row}
use team_nivaran.Common.Results.{ok, Result-cases}
use team_nivaran.Workflow.Model.{withdrawn, WorkflowInstance, WorkflowTask, Correction}
use team_nivaran.Workflow.Store.{Db, Client, Services, Call, is_open, active_instance}
use team_nivaran.Workflow.Review.{complete_row}
use team_nivaran.Workflow.Lifecycle.{
  is_open_of, is_correct_submission, cancel_row, withdraw, withdraw_row,
}

-- A row of a correction task, as `close_correction` looks for it.
abbrev pub is_correction_task : String → WorkflowTask → Bool
is_correction_task id t =
    t.workflow_instance_id == id && is_correct_submission t.task_type && is_open t.status

abbrev pub is_unresolved_of : String → Correction → Bool
is_unresolved_of id c = c.workflow_instance_id == id && is_none c.resolved_at

module _ (prisma : Client) (services : Services) (case_id : String) (version : ℕ) (call : Call)
    (db : Db) where
  withdraw_parts :
      (reason : Option String) (i : WorkflowInstance)
      → (withdraw prisma services case_id version reason call db).1 ≡ ok i
      → (old : WorkflowInstance) × (rows : List WorkflowInstance) × (prisma.instance_table.update
            (λ j. j.id == old.id)
            (withdraw_row call.now)
            db.instances
          ≡ some (i, rows))
        × Memᴰ old db.instances
        × (old.active ≡ true)
        × (old.case_id ≡ case_id)
        × (old.row_version ≡ version)
        × ((withdraw prisma services case_id version reason call db).0.instances ≡ rows)
        × ((withdraw prisma services case_id version reason call db).0.tasks
            ≡ update_where (is_open_of old.id) (cancel_row call.now) db.tasks)
  unfolding withdraw
  withdraw_parts reason i h =
      elim (Result-cases (active_instance prisma case_id call.identity.organization_id db)) [
        | inl (e, missing) ↦ absurd (ground arith)
        | inr (old, found) ↦
            let org = call.identity.organization_id in
            let (met, listed) =
              prisma.instance_table.find_first_some
                (λ j. j.case_id == case_id && j.organization_id == org && j.active) db.instances old
                (ground arith) in
            elim (Option-cases (
              prisma.instance_table.update (λ j. j.id == old.id) (withdraw_row call.now)
                db.instances)) [
                  | inl gone ↦ absurd (ground arith)
                  | inr ((u, rows), updated) ↦ (
                    old,
                    rows,
                    ground arith,
                    listed,
                    ground arith,
                    ground (arith, eq_iff old.case_id case_id),
                    ground arith,
                    ground arith,
                    ground (
                      arith,
                      prisma.task_table.update_many_lem (is_open_of old.id) (cancel_row call.now)
                          db.tasks,
                    ),
                  )
                ]
      ]

  -- The stored workflows and tasks after a withdrawal that answers with `i`.
  pub record IsWithdrawn (i : WorkflowInstance) (after : Db) : Type 0 where
    pub old : WorkflowInstance
    pub old_listed : Memᴰ old db.instances
    pub was_active : old.active ≡ true
    pub of_case : old.case_id ≡ case_id
    pub seen : old.row_version ≡ version
    pub same : i.id ≡ old.id
    pub stored : Memᴰ i after.instances
    pub next :
        (s : WorkflowInstance) × Memᴰ s db.instances
        × (s.id ≡ i.id)
        × (i.row_version ≡ s.row_version + 1)
    pub workflows :
        (j : WorkflowInstance)
        → Memᴰ j after.instances
        → ((j.id ≡ i.id) × (j.active ≡ false) × (j.state ≡ withdrawn))
          ⊎ ((j.id ≢ i.id) × Memᴰ j db.instances)
    pub idle : count (is_open_of i.id) after.tasks ≡ 0

  -- A withdrawal that succeeds was of an active workflow of the case at the version that the caller
  -- has seen; it stores the workflow inactive and withdrawn, at its next version, leaves it no open
  -- task, and leaves all other workflows as they are.
  pub withdraw-IsWithdrawn :
      (reason : Option String) (i : WorkflowInstance)
      → (withdraw prisma services case_id version reason call db).1 ≡ ok i
      → (i.active ≡ false)
        × (i.state ≡ withdrawn)
        × IsWithdrawn i (withdraw prisma services case_id version reason call db).0
  withdraw-IsWithdrawn reason i h =
      let (old, rows, updated, old_listed, active, of_case, seen, stored, tasks) =
        withdraw_parts reason i h in
      let key = λ (j : WorkflowInstance). j.id == old.id in
      let close = withdraw_row call.now in
      let (changed, s, listed, met, same) =
        update_found prisma.instance_table key close db.instances i rows updated in
      let s_id = (eq_iff s.id old.id).0 met in
      let same_id : i.id ≡ old.id = ap (λ (j : WorkflowInstance). j.id) same ∙ s_id in
      let all = stored ∙ changed in
      (
        ap (λ (j : WorkflowInstance). j.active) same,
        ap (λ (j : WorkflowInstance). j.state) same,
        record {
          old = old;
          old_listed = old_listed;
          was_active = active;
          of_case = of_case;
          seen = seen;
          same = same_id;
          stored = rw (all, same) (Memᴰ-update_where_self key close db.instances s listed met);
          next = (s, listed, s_id ∙ sym same_id, ap (λ (j : WorkflowInstance). j.row_version) same);
          workflows = λ j m. elim (updated_row key close db.instances j (rw all at m)) [
            | inl (x, x_listed, here, at_x) ↦ inl (
              ap (λ (r : WorkflowInstance). r.id) at_x ∙ (eq_iff x.id old.id).0 here ∙ sym same_id,
              ap (λ (r : WorkflowInstance). r.active) at_x,
              ap (λ (r : WorkflowInstance). r.state) at_x,
            )
            | inr (kept, there) ↦ inr (rw same_id (λ e. ground (arith, eq_iff j.id old.id)), kept)
          ];
          idle =
              rw (tasks, same_id)
                (count-update_where_zero (is_open_of old.id) (is_open_of old.id)
                  (cancel_row call.now) db.tasks (λ t. ground arith) (λ t m. m));
        },
      )

  -- What closing the correction writes: a correction task of the workflow is completed, and no
  -- correction of the workflow stays unresolved.
  pub record IsClosed (i : WorkflowInstance) (after : Db) : Type 0 where
    pub instances : after.instances ≡ db.instances
    pub unresolved : count (is_unresolved_of i.id) after.corrections ≡ 0
    pub task : WorkflowTask
    pub listed : Memᴰ task db.tasks
    pub was_open : is_correction_task i.id task ≡ true
    pub tasks : after.tasks ≡ update_where (λ t. t.id == task.id) (complete_row call.now) db.tasks
    pub stored : Memᴰ (complete_row call.now task) after.tasks
