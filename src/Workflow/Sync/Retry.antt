-- ===== src/Workflow/Sync/Retry.antt =====
-- An operation that is queued again.
use team_nivaran.Common.{
  ℕ, String, ◌≡◌, ◌≢◌, refl, ap, ◌∙◌, Bool, ◌&&◌, some, List, [], ◌∷◌, map, arith, ◌==◌,
}
use team_nivaran.Common.Lists.{count, update_where}
use team_nivaran.Workflow.Model.{SyncStatus, SyncOperation, WorkflowInstance}
use team_nivaran.Workflow.Store.{Db, Client, queue_sync}

-- An operation that is queued again keeps the status that it first targeted.
same_targets :
    (p : SyncOperation → Bool) (now : ℕ) (rows : List SyncOperation)
    → map
        (λ (o : SyncOperation). o.target_status)
        (update_where p
          (λ o. record o { status = SyncStatus.pending; next_attempt_at = some now })
          rows)
      ≡ map (λ (o : SyncOperation). o.target_status) rows
same_targets p now [] = refl
same_targets p now (o ∷ rows) = ground (arith, same_targets p now rows)

module _ (prisma : Client) where
  -- Queueing an operation that the workflow already has for an event type, with any target status,
  -- leaves the target statuses of all operations as they were: the new target is dropped.
  pub queue_sync_keeps_target :
      (instance : WorkflowInstance) (target_status event_type : String) (now : ℕ) (db : Db)
      → count
          (λ (o : SyncOperation).
            o.workflow_instance_id == instance.id && o.event_type == event_type)
          db.syncs
        ≢ 0
      → map
          (λ (o : SyncOperation). o.target_status)
          (queue_sync prisma instance target_status event_type now db).syncs
        ≡ map (λ (o : SyncOperation). o.target_status) db.syncs
  unfolding queue_sync
  queue_sync_keeps_target instance target_status event_type now db there =
      ap (map (λ (o : SyncOperation). o.target_status))
        (prisma.sync_table.upsert_old _ _ _ db.syncs there)
      ∙ same_targets _ now db.syncs
