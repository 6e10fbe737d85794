-- ===== src/Workflow/Tasks.antt =====
-- Claiming and assigning tasks (`claim`, `assign` of workflow.service.ts).
pub mod Exclusive
use team_nivaran.Common.{
  ℕ, ◌+◌, String, Bool, true, false, ◌&&◌, ◌||◌, Option, none, some, List, [], ◌∷◌, ◌++◌, ◌==◌, eqb,
  is_none, is_text, if◌then◌else◌,
}
use team_nivaran.Common.Results.{
  Result, ok, err, conflict, forbidden, unprocessable, require, settle, ◌>>=◌, ◌>>◌, written,
}
use team_nivaran.Workflow.Model.{
  WorkflowState, ready_for_review, under_review, TaskStatus, claimed, TaskType, review_case,
  WorkflowInstance, WorkflowTask,
}
use team_nivaran.Workflow.Store.{
  Db, Client, Services, Call, is_open, is_pending, transition_record, event, task_row,
}

abbrev pub is_review_case : TaskType → Bool
is_review_case review_case = true
is_review_case _ = false

abbrev pub is_ready_for_review : WorkflowState → Bool
is_ready_for_review ready_for_review = true
is_ready_for_review _ = false

abbrev pub may_claim : String → ℕ → Call → WorkflowTask → Bool
may_claim task_id version call t =
    t.id == task_id
    && t.organization_id == call.identity.organization_id
    && is_pending t.status
    && eqb t.row_version version
    && (is_none t.assigned_user_id || is_text t.assigned_user_id call.identity.user_id)

abbrev pub claim_row : Call → WorkflowTask → WorkflowTask
claim_row call t = record t {
  status = claimed;
  claimed_by = some call.identity.user_id;
  claimed_at = some call.now;
  row_version = t.row_version + 1;
}

abbrev pub may_assign : String → ℕ → Call → WorkflowTask → Bool
may_assign task_id version call t =
    t.id == task_id
    && t.organization_id == call.identity.organization_id
    && is_open t.status
    && eqb t.row_version version

abbrev pub assign_row : String → WorkflowTask → WorkflowTask
assign_row user_id t = record t {
  assigned_user_id = some user_id;
  claimed_by = none;
  claimed_at = none;
  status = TaskStatus.pending;
  row_version = t.row_version + 1;
}

module _ (prisma : Client) (services : Services) where
  open prisma use {instance_table, task_table}

  -- The start of the review, when the claimed task is a review.
  start_review : String → WorkflowTask → Call → Db → Result Db
  start_review task_id task call db =
      elim (instance_table.find_first
        (λ i. i.id == task.workflow_instance_id && is_ready_for_review i.state) db.instances) [
          | none ↦ ok db
          | some previous ↦ do
            (updated, instances) ← written (
                instance_table.update (λ i. i.id == previous.id)
                  (λ i. record i { state = under_review; row_version = i.row_version + 1 })
                  db.instances)
            ok (
                event updated call "workflow.review.started" task_id (
                  transition_record previous updated "START_REVIEW" call none
                    (record db { instances = instances })))
        ]

  -- The transaction of `claim`.
  unfoldable pub claim_transaction : String → ℕ → WorkflowTask → Call → Db → Result Db
  unfolding start_review
  claim_transaction task_id version task call db = do
    let (changed, tasks) =
        task_table.update_many (may_claim task_id version call) (claim_row call) db.tasks
    require (eqb changed 1) (conflict "The task was claimed or changed by another user.")
    let after : Db = record db {
      tasks = tasks;
      assignments =
          db.assignments
          ++ record {
            workflow_task_id = task_id;
            action = "CLAIMED";
            actor_id = call.identity.user_id;
            from_user_id = task.assigned_user_id;
            to_user_id = call.identity.user_id;
            task_version = version + 1;
          }
            ∷ [];
    }
    if is_review_case task.task_type then start_review task_id task call after else ok after

  -- What a command on a task returns once its transaction is settled: `this.task(taskId)`.
  abbrev pub read_back : String → Call → Db × Result (Unit {0}) → Db × Result WorkflowTask
  read_back task_id call (db, outcome) =
      (db, outcome >> task_row prisma task_id call.identity.organization_id db)

  unfoldable pub claim : String → ℕ → Call → Db → Db × Result WorkflowTask
  claim task_id version call db = read_back task_id call (
      settle db (do
        task ← task_row prisma task_id call.identity.organization_id db
        allowed ←
            services.eligible call.identity.organization_id call.identity.user_id
              task.required_permission
        require allowed (forbidden "The current user is not eligible for this task.")
        after ← claim_transaction task_id version task call db
        ok (after, tt)))

  unfoldable pub assign : String → ℕ → String → Call → Db → Db × Result WorkflowTask
  assign task_id version user_id call db = read_back task_id call (
      settle db (do
        task ← task_row prisma task_id call.identity.organization_id db
        allowed ← services.eligible call.identity.organization_id user_id task.required_permission
        require allowed (unprocessable "The selected user is not eligible for this task.")
        let (changed, tasks) =
            task_table.update_many (may_assign task_id version call) (assign_row user_id) db.tasks
        require (eqb changed 1) (conflict "The task was updated by another user.")
        ok (
          record db {
            tasks = tasks;
            assignments =
                db.assignments
                ++ record {
                  workflow_task_id = task_id;
                  action = "ASSIGNED";
                  actor_id = call.identity.user_id;
                  from_user_id = task.assigned_user_id;
                  to_user_id = user_id;
                  task_version = version + 1;
                }
                  ∷ [];
          },
          tt,
        )))
