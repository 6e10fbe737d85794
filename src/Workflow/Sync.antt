-- ===== src/Workflow/Sync.antt =====
-- Telling the Case Service (`attemptCaseSync` of workflow.service.ts).
pub mod Attempt
pub mod Retry
use team_nivaran.Common.{
  ℕ, ◌+◌, ◌*◌, ◌^◌, min, String, Bool, true, false, ◌&&◌, Option, none, some, List, [], ◌∷◌, ◌==◌,
  leb, if◌then◌else◌,
}
use team_nivaran.Common.Results.{Result, ok, err, internal, settle, ◌>>=◌, ◌>>◌, written}
use team_nivaran.Workflow.Model.{SyncStatus, synced, failed, SyncOperation, WorkflowInstance}
use team_nivaran.Workflow.Store.{Db, Client, Services, Settings, Call}

-- `status: { in: ["PENDING", "FAILED"] }`.
abbrev pub is_unsynced : SyncStatus → Bool
is_unsynced synced = false
is_unsynced _ = true

-- The delay before the next attempt.
abbrev pub retry_delay : Settings → ℕ → ℕ
retry_delay settings attempts = settings.case_sync_retry_base_ms * 2 ^ min attempts 6

module _ (prisma : Client) (services : Services) (settings : Settings) where
  open prisma use {instance_table, sync_table}

  -- Both rows in one transaction.
  abbrev pub save :
      (SyncOperation → SyncOperation) → SyncStatus → String → String → Db → Result (Db × Unit {0})
  save change status operation_id instance_id db = do
    (operation, syncs) ← written (sync_table.update (λ o. o.id == operation_id) change db.syncs)
    (instance, instances) ← written (
        instance_table.update (λ i. i.id == instance_id)
          (λ i. record i { case_sync_status = status }) db.instances)
    ok (record db { syncs = syncs; instances = instances }, tt)

  abbrev pub mark_synced : Call → SyncOperation → SyncOperation
  mark_synced call o = record o {
    status = synced;
    attempts = o.attempts + 1;
    completed_at = some call.now;
    last_error_code = none;
  }

  -- `attempts` is counted from the row that was read.
  abbrev pub mark_failed : ℕ → Call → SyncOperation → SyncOperation
  mark_failed attempts call o = record o {
    status = if leb settings.case_sync_max_attempts attempts then failed else SyncStatus.pending;
    attempts = attempts;
    last_error_code = some "CASE_SYNC_UNAVAILABLE";
    next_attempt_at = some (call.now + retry_delay settings attempts);
  }

  abbrev after_failure :
      SyncOperation → WorkflowInstance → Call → Db → Result (Db × Unit {0}) → Db × Result (Unit {0})
  after_failure operation instance call db (ok (after, done)) = (after, ok done)
  after_failure operation instance call db (err e) =
      settle db
        (save (mark_failed (operation.attempts + 1) call) failed operation.id instance.id db)

  unfoldable pub attempt_case_sync : String → Call → Db → Db × Result (Unit {0})
  attempt_case_sync instance_id call db =
      elim (sync_table.find_latest
        (λ o. o.workflow_instance_id == instance_id && is_unsynced o.status) (λ o. o.created_at)
        db.syncs) [
          | none ↦ (db, ok tt)
          | some operation ↦
              elim (instance_table.find_first (λ i. i.id == instance_id) db.instances) [
                | none ↦ (db, err (internal "No WorkflowInstance found"))
                | some instance ↦ after_failure operation instance call db (do
                  services.sync operation instance
                  save (mark_synced call) synced operation.id instance.id db)
              ]
        ]
