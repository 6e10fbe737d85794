-- ===== src/Case/Sync/Once.antt =====
-- An operation or an event that has been taken is not taken again.
use team_nivaran.Common.{
  String, ◌≡◌, ap, refl, true, false, inl, inr, some, List, [], ◌∷◌, ◌++◌, Memᴰ, arith, eq_self,
  Option-cases, Bool-cases,
}
use team_nivaran.Common.Lists.{Memᴰ-append_right}
use team_nivaran.Common.Rows.{count-Memᴰ}
use team_nivaran.Common.Results.{ok, Result-cases}
use team_nivaran.Case.Model.{DecisionCase, InboxRow, Db, Client, is_case, case_of}
use team_nivaran.Case.Sync.{
  SyncInput, SyncOutcome, is_allowed, is_operation, apply_sync, internal_workflow_sync,
}
use team_nivaran.Case.Projection.{EvidenceEvent, Projected, projected, record_projection, consume}

module _ (prisma : Client) where
  -- An inbox row with the id is found.
  seen :
      (id : String) (inbox : List InboxRow) (r : InboxRow)
      → Memᴰ r inbox
      → is_operation prisma id r ≡ true
      → (s : InboxRow) × (prisma.inbox_table.find_first (is_operation prisma id) inbox ≡ some s)
  seen id inbox r m e =
      elim (Option-cases (prisma.inbox_table.find_first (is_operation prisma id) inbox)) [
        | inl missing ↦ absurd (
            count-Memᴰ (is_operation prisma id) inbox r m e
              (prisma.inbox_table.find_first_none (is_operation prisma id) inbox missing))
        | inr found ↦ found
      ]

  apply_sync_inbox :
      (input : SyncInput) (db after : Db) (o : SyncOutcome)
      → apply_sync prisma input db ≡ ok (after, o)
      → (before : List InboxRow) × (after.inbox
          ≡ before ++ record { event_id = input.operation_id; event_type = input.event_type } ∷ [])
  unfolding apply_sync
  apply_sync_inbox input db after o h = (db.inbox, ground arith)

  sync_inbox :
      (input : SyncInput) (db after : Db) (o : SyncOutcome)
      → internal_workflow_sync prisma input db ≡ (after, ok o)
      → (s : InboxRow) × (prisma.inbox_table.find_first
            (is_operation prisma input.operation_id)
            after.inbox
          ≡ some s)
  unfolding internal_workflow_sync
  sync_inbox input db after o h =
      elim (Option-cases
        (prisma.inbox_table.find_first (is_operation prisma input.operation_id) db.inbox)) [
          | inr (s, found) ↦ let same : after.inbox ≡ db.inbox = ground arith in (s, rw same found)
          | inl new ↦ elim (Result-cases (apply_sync prisma input db)) [
            | inl (e, refused) ↦ absurd (ground arith)
            | inr ((t, u), done) ↦
                let (before, grown) = apply_sync_inbox input db t u done in
                let same : after.inbox ≡ t.inbox = ground arith in
                seen input.operation_id after.inbox
                  (record { event_id = input.operation_id; event_type = input.event_type })
                  (rw (same, grown) (Memᴰ-append_right before _ (Memᴰ.head refl)))
                  (eq_self input.operation_id)
          ]
        ]

  -- An operation is applied once: after a synchronization has succeeded, a request with the same
  -- operation id changes nothing, whatever status it asks for, and its answer, if it is no
  -- exception, says that it was not applied.
  pub sync_once :
      (input input' : SyncInput) (db after : Db) (o : SyncOutcome)
      → internal_workflow_sync prisma input db ≡ (after, ok o)
      → input'.operation_id ≡ input.operation_id
      → ((internal_workflow_sync prisma input' after).0 ≡ after)
        × ((o' : SyncOutcome)
            → (internal_workflow_sync prisma input' after).1 ≡ ok o'
            → o'.applied ≡ false)
  unfolding internal_workflow_sync
  sync_once input input' db after o h same_id =
      let (s, known) = sync_inbox input db after o h in
      let again : prisma.inbox_table.find_first (is_operation prisma input'.operation_id)
            after.inbox
          ≡ some s =
        rw same_id known in
      elim (Bool-cases (is_allowed input'.target_status)) [
        | inr refused ↦ (rw (internal_workflow_sync, refused) refl, λ o' e. ground arith)
        | inl allowed ↦
            elim (Result-cases (case_of prisma input'.case_id input'.organization_id after)) [
              | inl (e, gone) ↦
                  (rw (internal_workflow_sync, allowed, again, gone) refl, λ o' e. ground arith)
              | inr (c, found) ↦
                  (rw (internal_workflow_sync, allowed, again, found) refl, λ o' e. ground arith)
            ]
      ]

  again_same :
      (e : EvidenceEvent) (p : Projected) (db : Db)
      → projected e ≡ some p
      → (c : DecisionCase)
      → prisma.case_table.find_first (is_case p.case_id p.organization_id) db.cases ≡ some c
      → (s : InboxRow)
      → prisma.inbox_table.find_first
          (is_operation prisma e.event_id)
          (record_projection prisma e p db).inbox
        ≡ some s
      → consume prisma e (record_projection prisma e p db) ≡ record_projection prisma e p db
  unfolding consume
  again_same e p db wanted c found s again =
      let still : prisma.case_table.find_first (is_case p.case_id p.organization_id)
            (record_projection prisma e p db).cases
          ≡ some c =
        unfold record_projection in found in
      rw (consume, wanted, still, again) refl

  -- Consuming an evidence event again, in the state that the first time has left, changes nothing.
  pub consume_twice :
      (e : EvidenceEvent) (db : Db) → consume prisma e (consume prisma e db) ≡ consume prisma e db
  unfolding consume
  consume_twice e db = elim (Option-cases (projected e)) [
    | inl other ↦ ap (consume prisma e) (rw (consume, other) refl)
    | inr (p, wanted) ↦
        elim (Option-cases
          (prisma.case_table.find_first (is_case p.case_id p.organization_id) db.cases)) [
            | inl gone ↦ ap (consume prisma e) (rw (consume, wanted, gone) refl)
            | inr (c, found) ↦
                elim (Option-cases
                  (prisma.inbox_table.find_first (is_operation prisma e.event_id) db.inbox)) [
                    | inr (r, known) ↦
                        ap (consume prisma e) (rw (consume, wanted, found, known) refl)
                    | inl new ↦
                        let (s, again) =
                          seen e.event_id (record_projection prisma e p db).inbox
                            (record { event_id = e.event_id; event_type = e.event_type })
                            (unfold record_projection in
                              Memᴰ-append_right db.inbox _ (Memᴰ.head refl))
                            (eq_self e.event_id) in
                        let first : consume prisma e db ≡ record_projection prisma e p db =
                          rw (consume, wanted, found, new) refl in
                        rw first (again_same e p db wanted c found s again)
                  ]
          ]
  ]
