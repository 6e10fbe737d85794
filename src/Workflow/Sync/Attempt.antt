-- ===== src/Workflow/Sync/Attempt.antt =====
-- The outcome of telling the case: synced, or counted and put off.
use team_nivaran.Common.{
  ℕ, zero, suc, ◌+◌, ◌*◌, ◌^◌, ◌≤◌, ◌<◌, min, String, ◌≡◌, ◌≢◌, ◌∙◌, ◌⊎◌, refl, ap, inl, inr, true,
  ◌&&◌, Bool, none, some, Memᴰ, arith, ◌==◌, eq_iff, eq_self, Option-cases,
}
use team_nivaran.Common.Lists.{count, update_where}
use team_nivaran.Common.Rows.{update_there, updated_row, count-Memᴰ}
use team_nivaran.Common.Results.{Exception, ok, err, Result-cases}
use team_nivaran.Workflow.Model.{SyncStatus, synced, failed, SyncOperation, WorkflowInstance}
use team_nivaran.Workflow.Store.{Db, Client, Services, Settings, Call}
use team_nivaran.Workflow.Sync.{
  is_unsynced, retry_delay, save, mark_synced, mark_failed, attempt_case_sync,
}

two_pow_small : (n : ℕ) → n ≤ 6 → 2 ^ n ≤ 64
two_pow_small zero h = omega arith
two_pow_small (suc zero) h = omega arith
two_pow_small (suc (suc zero)) h = omega arith
two_pow_small (suc (suc (suc zero))) h = omega arith
two_pow_small (suc (suc (suc (suc zero)))) h = omega arith
two_pow_small (suc (suc (suc (suc (suc zero))))) h = omega arith
two_pow_small (suc (suc (suc (suc (suc (suc zero)))))) h = omega arith
two_pow_small (suc (suc (suc (suc (suc (suc (suc n))))))) h = absurd (omega arith)

abbrev pub is_unsynced_of : String → SyncOperation → Bool
is_unsynced_of id o = o.workflow_instance_id == id && is_unsynced o.status

-- The row `o` of an operation that the Case Service has accepted, and its row before.
pub record IsSynced (now : ℕ) (before o : SyncOperation) : Type 0 where
  pub attempts : o.attempts ≡ before.attempts + 1
  pub status : o.status ≡ synced
  pub completed : o.completed_at ≡ some now
  pub cleared : o.last_error_code ≡ none

-- The row of the operation `told` after a refusal: one more attempt than it had, and the next one
-- after the base delay, doubled for each attempt, 64 times at most; failed when none is left.
pub record IsPutOff (settings : Settings) (now : ℕ) (told o : SyncOperation) : Type 0 where
  pub attempts : o.attempts ≡ told.attempts + 1
  pub failed_last : settings.case_sync_max_attempts ≤ o.attempts → o.status ≡ failed
  pub pending_before : o.attempts < settings.case_sync_max_attempts → o.status ≡ SyncStatus.pending
  pub delay : ℕ
  pub next : o.next_attempt_at ≡ some (now + delay)
  pub doubled : o.attempts ≤ 6 → delay ≡ settings.case_sync_retry_base_ms * 2 ^ o.attempts
  pub capped : 6 ≤ o.attempts → delay ≡ settings.case_sync_retry_base_ms * 64
  pub bounded : delay ≤ settings.case_sync_retry_base_ms * 64
  pub code : o.last_error_code ≡ some "CASE_SYNC_UNAVAILABLE"

module _ (prisma : Client) (services : Services) (settings : Settings) where
  -- The delay before a retry is at most 64 times the base.
  retry_delay_bound : (n : ℕ) → retry_delay settings n ≤ settings.case_sync_retry_base_ms * 64
  retry_delay_bound n = grind (arith, two_pow_small (min n 6) (omega arith))

  mark_failed-IsPutOff :
      (call : Call) (told o : SyncOperation)
      → IsPutOff settings call.now told
          (mark_failed prisma services settings (told.attempts + 1) call o)
  mark_failed-IsPutOff call told o = record {
    attempts = refl;
    failed_last = λ h. ground arith;
    pending_before = λ h. ground arith;
    delay = retry_delay settings (told.attempts + 1);
    next = refl;
    doubled = λ h.
        let least : min (told.attempts + 1) 6 ≡ told.attempts + 1 = omega (arith, h) in
        ap (λ n. settings.case_sync_retry_base_ms * 2 ^ n) least;
    capped = λ h.
        let least : min (told.attempts + 1) 6 ≡ 6 = omega (arith, h) in
        ap (λ n. settings.case_sync_retry_base_ms * 2 ^ n) least;
    bounded = retry_delay_bound (told.attempts + 1);
    code = refl;
  }

  -- What an attempt leaves: the latest unsynced operation of the workflow was told to the Case
  -- Service, and it and the workflow show the answer; all other rows stay as they are.
  pub record IsAttempted (id : String) (call : Call) (db after : Db) : Type 0 where
    pub told : SyncOperation
    pub listed : Memᴰ told db.syncs
    pub of_workflow : told.workflow_instance_id ≡ id
    pub unsynced : is_unsynced told.status ≡ true
    pub latest :
        (o : SyncOperation)
        → Memᴰ o db.syncs
        → is_unsynced_of id o ≡ true
        → o.created_at ≤ told.created_at
    pub instance : WorkflowInstance
    pub instance_listed : Memᴰ instance db.instances
    pub named : instance.id ≡ id
    pub operations :
        (o : SyncOperation)
        → Memᴰ o after.syncs
        → ((before : SyncOperation) × Memᴰ before db.syncs
            × (before.id ≡ told.id)
            × (o.id ≡ told.id)
            × (services.sync told instance ≡ ok tt → IsSynced call.now before o)
            × ((e : Exception)
                → services.sync told instance ≡ err e
                → IsPutOff settings call.now told o))
          ⊎ ((o.id ≢ told.id) × Memᴰ o db.syncs)
    pub workflows :
        (i : WorkflowInstance)
        → Memᴰ i after.instances
        → ((i.id ≡ id)
            × (services.sync told instance ≡ ok tt → i.case_sync_status ≡ synced)
            × ((e : Exception) → services.sync told instance ≡ err e → i.case_sync_status ≡ failed))
          ⊎ ((i.id ≢ id) × Memᴰ i db.instances)

  -- The database with the rows of an operation and of a workflow changed.
  abbrev saved : (SyncOperation → SyncOperation) → SyncStatus → String → String → Db → Db
  saved change status o_id i_id db = record db {
    syncs = update_where (λ o. o.id == o_id) change db.syncs;
    instances =
        update_where (λ i. i.id == i_id) (λ i. record i { case_sync_status = status }) db.instances;
  }

  -- Both updates of a transaction whose rows are there.
  save_there :
      (change : SyncOperation → SyncOperation) (status : SyncStatus) (o_id i_id : String) (db : Db)
      → count (λ (o : SyncOperation). o.id == o_id) db.syncs ≢ 0
      → count (λ (i : WorkflowInstance). i.id == i_id) db.instances ≢ 0
      → save prisma services settings change status o_id i_id db
        ≡ ok (saved change status o_id i_id db, tt)
  save_there change status o_id i_id db o_there i_there =
      let (o, syncs, put, all) =
        update_there prisma.sync_table (λ o. o.id == o_id) change db.syncs o_there in
      let (i, instances, shown, all') =
        update_there prisma.instance_table (λ i. i.id == i_id)
          (λ i. record i { case_sync_status = status }) db.instances i_there in
      rw (put, shown, all, all') refl

  module _ (id : String) (call : Call) (db : Db) (told : SyncOperation) (i : WorkflowInstance)
      (latest : prisma.sync_table.find_latest (is_unsynced_of id) (λ o. o.created_at) db.syncs
        ≡ some told)
      (found : prisma.instance_table.find_first (λ i. i.id == id) db.instances ≡ some i) where
    save_both :
        (change : SyncOperation → SyncOperation) (status : SyncStatus)
        → save prisma services settings change status told.id i.id db
          ≡ ok (saved change status told.id i.id db, tt)
    save_both change status =
        let o_listed = (prisma.sync_table.find_latest_some _ _ db.syncs told latest).1 in
        let i_listed = (prisma.instance_table.find_first_some _ db.instances i found).1 in
        save_there change status told.id i.id db
          (count-Memᴰ (λ (o : SyncOperation). o.id == told.id) db.syncs told o_listed
            (eq_self told.id))
          (count-Memᴰ (λ (j : WorkflowInstance). j.id == i.id) db.instances i i_listed
            (eq_self i.id))

    attempt_accepted :
        services.sync told i ≡ ok tt
        → attempt_case_sync prisma services settings id call db
          ≡ (saved (mark_synced prisma services settings call) synced told.id i.id db, ok tt)
    unfolding attempt_case_sync
    attempt_accepted accepted =
        rw
          (
            attempt_case_sync,
            latest,
            found,
            accepted,
            save_both (mark_synced prisma services settings call) synced,
          )
          refl

    attempt_refused :
        (e : Exception)
        → services.sync told i ≡ err e
        → attempt_case_sync prisma services settings id call db ≡ (
          saved
              (mark_failed prisma services settings (told.attempts + 1) call)
              failed
              told.id
              i.id
              db,
          ok tt,
        )
    unfolding attempt_case_sync
    attempt_refused e refused =
        rw
          (
            attempt_case_sync,
            latest,
            found,
            refused,
            save_both (mark_failed prisma services settings (told.attempts + 1) call) failed,
          )
          refl

    -- An attempt that has changed both rows as the answer demands.
    saved-IsAttempted :
        (change : SyncOperation → SyncOperation) (status : SyncStatus)
        → ((o : SyncOperation) → (change o).id ≡ o.id)
        → ((o : SyncOperation) → services.sync told i ≡ ok tt → IsSynced call.now o (change o))
        → ((o : SyncOperation) (e : Exception)
            → services.sync told i ≡ err e
            → IsPutOff settings call.now told (change o))
        → (services.sync told i ≡ ok tt → status ≡ synced)
        → ((e : Exception) → services.sync told i ≡ err e → status ≡ failed)
        → IsAttempted id call db (saved change status told.id i.id db)
    saved-IsAttempted change status same_id accepted refused shown hidden =
        let (met, listed) = prisma.sync_table.find_latest_some _ _ db.syncs told latest in
        let (i_met, i_listed) = prisma.instance_table.find_first_some _ db.instances i found in
        let named = (eq_iff i.id id).0 i_met in
        record {
          told = told;
          listed = listed;
          of_workflow = ground (arith, eq_iff told.workflow_instance_id id);
          unsynced = ground arith;
          latest = λ o m h.
              prisma.sync_table.find_latest_max (is_unsynced_of id) (λ o. o.created_at) db.syncs
                told o latest m h;
          instance = i;
          instance_listed = i_listed;
          named = named;
          operations = λ o m.
              elim (updated_row (λ (o : SyncOperation). o.id == told.id) change db.syncs o m) [
                | inl (x, old, here, made) ↦ inl (
                  x,
                  old,
                  (eq_iff x.id told.id).0 here,
                  rw made (same_id x ∙ (eq_iff x.id told.id).0 here),
                  λ h. rw made (accepted x h),
                  λ e h. rw made (refused x e h),
                )
                | inr (kept, other) ↦ inr (λ e. ground (arith, eq_iff o.id told.id), kept)
              ];
          workflows = λ j m.
              elim (updated_row (λ (j : WorkflowInstance). j.id == i.id)
                (λ j. record j { case_sync_status = status }) db.instances j m) [
                  | inl (x, old, here, made) ↦ inl (
                    rw made ((eq_iff x.id i.id).0 here ∙ named),
                    λ h. rw made (shown h),
                    λ e h. rw made (hidden e h),
                  )
                  | inr (kept, other) ↦
                      inr (rw (← named) (λ e. ground (arith, eq_iff j.id i.id)), kept)
                ];
        }

  -- An attempt to tell the Case Service of a stored workflow ends without an exception, whatever the
  -- Case Service answers. Where the workflow has no unsynced operation it changes nothing; otherwise
  -- the latest one is told, and its row is synced on an acceptance, and on a refusal has one more
  -- attempt and is put off by a bounded delay, or failed when no attempt is left.
  pub attempt_case_sync-IsAttempted :
      (id : String) (call : Call) (db : Db)
      → count (λ (i : WorkflowInstance). i.id == id) db.instances ≢ 0
      → (after : Db) × (attempt_case_sync prisma services settings id call db ≡ (after, ok tt))
        × (((count (is_unsynced_of id) db.syncs ≡ 0) × (after ≡ db)) ⊎ IsAttempted id call db after)
  unfolding attempt_case_sync
  attempt_case_sync-IsAttempted id call db there =
      elim (Option-cases
        (prisma.sync_table.find_latest (is_unsynced_of id) (λ o. o.created_at) db.syncs)) [
          | inl idle ↦ (
            db,
            rw (attempt_case_sync, idle) refl,
            inl (prisma.sync_table.find_latest_none _ _ db.syncs idle, refl),
          )
          | inr (told, latest) ↦
              elim (Option-cases
                (prisma.instance_table.find_first (λ i. i.id == id) db.instances)) [
                  | inl missing ↦
                      absurd (there (prisma.instance_table.find_first_none _ db.instances missing))
                  | inr (i, found) ↦ elim (Result-cases (services.sync told i)) [
                    | inr (u, accepted) ↦ (
                      _,
                      attempt_accepted id call db told i latest found accepted,
                      inr (
                          saved-IsAttempted id call db told i latest found
                            (mark_synced prisma services settings call) synced (λ o. refl)
                            (λ o h. record {
                              attempts = refl;
                              status = refl;
                              completed = refl;
                              cleared = refl;
                            })
                            (λ o e h. cc) (λ h. refl) (λ e h. cc)),
                    )
                    | inl (e, refused) ↦ (
                      _,
                      attempt_refused id call db told i latest found e refused,
                      inr (
                          saved-IsAttempted id call db told i latest found
                            (mark_failed prisma services settings (told.attempts + 1) call) failed
                            (λ o. refl) (λ o h. cc) (λ o e h. mark_failed-IsPutOff call told o)
                            (λ h. cc) (λ e h. refl)),
                    )
                  ]
                ]
        ]
